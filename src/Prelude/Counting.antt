-- ===== src/Prelude/Counting.antt =====
-- How many elements of a list satisfy a predicate: none, exactly one, or more; and what a filter
-- that decides the predicate has to do with it.
use mathlib.Core.Path.{◌≡◌, refl, subst, ap}
use mathlib.Core.Logic.{◌↔◌, ◌⊎◌, inl, inr}
use mathlib.Core.Bool.{Bool, true, false, ◌&&◌}
use mathlib.Core.List.{List, [], ◌∷◌}
use native.Mathlib.Omega.{arith}
use edge_copilot_backend.Prelude.Tests.{Bool-cases}
use edge_copilot_backend.Prelude.Lists.{keep, All, In, here, there}

module _ {A : Type 0} (P : A → Type 0) where
  -- No element satisfies `P`.
  abbrev pub HasNone : List A → Type 0
  HasNone xs = All (λ x. P x → ⊥) xs

  -- At least one does.
  abbrev pub HasSome : List A → Type 0
  HasSome [] = ⊥
  HasSome (x ∷ xs) = P x ⊎ HasSome xs

  -- One place of the list, and no other, holds an element that does, and it is `a`.
  abbrev pub HasOnly : A → List A → Type 0
  HasOnly a [] = ⊥
  HasOnly a (x ∷ xs) = (P x × (x ≡ a) × HasNone xs) ⊎ ((P x → ⊥) × HasOnly a xs)

  -- At least two places do.
  abbrev pub HasTwo : List A → Type 0
  HasTwo [] = ⊥
  HasTwo (x ∷ xs) = (P x × HasSome xs) ⊎ HasTwo xs

cons_injective : {A : Type 0} (x y : A) (xs ys : List A) → x ∷ xs ≡ y ∷ ys → (x ≡ y) × (xs ≡ ys)
cons_injective x y xs ys h = (cc, cc)

module _ {A : Type 0} (P : A → Type 0) (p : A → Bool) (decides : (a : A) → (p a ≡ true) ↔ P a) where
  refutes : (a : A) → p a ≡ false → P a → ⊥
  refutes a h f = cc ((decides a).1 f, h)

  pub keep-nil : (xs : List A) → keep p xs ≡ [] → HasNone P xs
  keep-nil [] h = tt
  keep-nil (x ∷ xs) h = elim (Bool-cases (p x)) [
    | inl good ↦ cc (rw good at h)
    | inr bad ↦ (refutes x bad, keep-nil xs (rw bad at h))
  ]

  keep-some : (xs : List A) {y : A} {ys : List A} → keep p xs ≡ y ∷ ys → HasSome P xs
  keep-some [] h = cc
  keep-some (x ∷ xs) h = elim (Bool-cases (p x)) [
    | inl good ↦ inl ((decides x).0 good)
    | inr bad ↦ inr (keep-some xs (rw bad at h))
  ]

  pub keep-only : (xs : List A) (a : A) → keep p xs ≡ a ∷ [] → HasOnly P a xs
  keep-only [] a h = cc
  keep-only (x ∷ xs) a h = elim (Bool-cases (p x)) [
    | inl good ↦
        let (first, rest) = cons_injective x a (keep p xs) [] (rw good at h) in
        inl ((decides x).0 good, first, keep-nil xs rest)
    | inr bad ↦ inr (refutes x bad, keep-only xs a (rw bad at h))
  ]

  pub keep-two : (xs : List A) {y z : A} {ys : List A} → keep p xs ≡ y ∷ z ∷ ys → HasTwo P xs
  keep-two [] h = cc
  keep-two (x ∷ xs) {y} {z} {ys} h = elim (Bool-cases (p x)) [
    | inl good ↦
        let (first, rest) = cons_injective x y (keep p xs) (z ∷ ys) (rw good at h) in
        inl ((decides x).0 good, keep-some xs rest)
    | inr bad ↦ inr (keep-two xs (rw bad at h))
  ]

-- Two filters in a row are one.
pub keep-keep :
    {A : Type 0} (p q : A → Bool) (xs : List A) → keep q (keep p xs) ≡ keep (λ x. p x && q x) xs
keep-keep p q [] = refl
keep-keep p q (x ∷ xs) = ground (arith, keep-keep p q xs)

-- A filter that lets all pass changes nothing.
pub keep-all : {A : Type 0} (xs : List A) → keep (λ x. true) xs ≡ xs
keep-all [] = refl
keep-all (x ∷ xs) = ap (λ l. x ∷ l) (keep-all xs)

-- The only element is one of the list, and satisfies the predicate.
pub HasOnly-In :
    {A : Type 0} (P : A → Type 0) (a : A) (xs : List A) → HasOnly P a xs → In a xs × P a
HasOnly-In P a (x ∷ xs) (inl (good, same', _)) =
    (subst (λ b. In b (x ∷ xs)) same' here, subst P same' good)
HasOnly-In P a (x ∷ xs) (inr (_, only)) =
    let (listed, good) = HasOnly-In P a xs only in (there listed, good)
HasOnly-In P a [] h = absurd h
