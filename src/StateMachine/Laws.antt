-- ===== src/StateMachine/Laws.antt =====
-- What the guard of domain/shared/state_machine.py decides.
use edge_copilot_backend.Prelude.{
  ℕ, ◌+◌, List, [], ◌∷◌, if◌then◌else◌, String, some, ◌≡◌, true, false, eq_iff, ap, sym, ◌∙◌, inl,
  inr, Bool-cases, refl,
}
use edge_copilot_backend.Errors.{ok, raise, ◌>>◌}
use edge_copilot_backend.StateMachine.{
  StrEnum, same, Transitions, allows, ensure_transition_allowed, illegal_transition,
}

module _ {A : Type 0} ⦃e : StrEnum A⦄ where
  -- Members with one value are one member.
  pub same→eq : (a b : A) → same a b ≡ true → a ≡ b
  same→eq a b h =
      let p : some a ≡ some b =
        sym (e.of_value-value a) ∙ ap e.of_value ((eq_iff _ _).0 h) ∙ e.of_value-value b in
      cc

  pub same_refl : (a : A) → same a a ≡ true
  same_refl a = (eq_iff _ _).1 refl

  -- How often a state stands in a list.
  unfoldable pub times : A → List A → ℕ
  times a [] = 0
  times a (x ∷ xs) = (if same x a then 1 else 0) + times a xs

module _ {A B : Type 0} ⦃e : StrEnum A⦄ (table : Transitions A) (name : String) (s t : A)
    (b : B) where
  -- An allowed transition goes on with the new entity.
  pub guarded_ok :
      allows table s t ≡ true → (ensure_transition_allowed s t table name >> ok b) ≡ ok b
  unfolding ensure_transition_allowed
  guarded_ok h = rw h

  -- A refused one raises, and the entity is not built.
  pub guarded_raise :
      allows table s t ≡ false
      → (ensure_transition_allowed s t table name >> ok b) ≡ raise (illegal_transition name s t)
  unfolding ensure_transition_allowed
  guarded_raise h = rw h

  pub guarded_inversion :
      {c : B}
      → (ensure_transition_allowed s t table name >> ok b) ≡ ok c
      → (allows table s t ≡ true) × (c ≡ b)
  guarded_inversion h = elim (Bool-cases (allows table s t)) [
    | inl yes' ↦ (yes', cc (guarded_ok yes'))
    | inr no' ↦ cc (guarded_raise no')
  ]
