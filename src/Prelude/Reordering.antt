-- ===== src/Prelude/Reordering.antt =====
-- Lists in another order.
use mathlib.Core.Path.{◌≡◌, refl, sym, ◌∙◌, ap, subst}
use mathlib.Core.Logic.{inl, inr}
use mathlib.Core.Bool.{Bool}
use mathlib.Core.List.{List, [], ◌∷◌}
use mathlib.Core.List.Permᴰ
use mathlib.Core.List.{Permᴰ}
use edge_copilot_backend.Prelude.Tests.{Bool-cases}
use edge_copilot_backend.Prelude.Lists.{keep, All}

-- The lists hold the same elements, as often, in whatever order.
abbrev pub IsReordered : {A : Type 0} → List A → List A → Type 0
IsReordered = Permᴰ

module _ {A : Type 0} where
  pub All-IsReordered : (P : A → Type 0) {xs ys : List A} → IsReordered xs ys → All P xs → All P ys
  All-IsReordered P Permᴰ.nil h = tt
  All-IsReordered P (Permᴰ.cons e d) (h, hs) = (subst P e h, All-IsReordered P d hs)
  All-IsReordered P (Permᴰ.swap e f) (h, (k, hs)) = (subst P f k, (subst P e h, hs))
  All-IsReordered P (Permᴰ.trans d d') h = All-IsReordered P d' (All-IsReordered P d h)

  -- A filter keeps the elements that it keeps in whatever order.
  pub keep-IsReordered :
      (p : A → Bool) {xs ys : List A} → IsReordered xs ys → IsReordered (keep p xs) (keep p ys)
  keep-IsReordered p Permᴰ.nil = Permᴰ.nil
  keep-IsReordered p (Permᴰ.cons {a} {b} e d) = elim (Bool-cases (p a)) [
    | inl good ↦ rw (good, ap p (sym e) ∙ good) (Permᴰ.cons e (keep-IsReordered p d))
    | inr bad ↦ rw (bad, ap p (sym e) ∙ bad) (keep-IsReordered p d)
  ]
  keep-IsReordered p (Permᴰ.swap {a} {b} {a'} {b'} {l} e f) = elim (Bool-cases (p a)) [
    | inl good ↦ elim (Bool-cases (p b)) [
      | inl good' ↦ rw (good, good', ap p (sym e) ∙ good, ap p (sym f) ∙ good') (Permᴰ.swap e f)
      | inr bad' ↦
          rw (good, bad', ap p (sym e) ∙ good, ap p (sym f) ∙ bad')
            (Permᴰ.cons e (Permᴰ.refl (keep p l)))
    ]
    | inr bad ↦ elim (Bool-cases (p b)) [
      | inl good' ↦
          rw (bad, good', ap p (sym e) ∙ bad, ap p (sym f) ∙ good')
            (Permᴰ.cons f (Permᴰ.refl (keep p l)))
      | inr bad' ↦ rw (bad, bad', ap p (sym e) ∙ bad, ap p (sym f) ∙ bad') (Permᴰ.refl (keep p l))
    ]
  ]
  keep-IsReordered p (Permᴰ.trans d d') = Permᴰ.trans (keep-IsReordered p d) (keep-IsReordered p d')

  pub IsReordered-nil : {xs ys : List A} → IsReordered xs ys → xs ≡ [] → ys ≡ []
  IsReordered-nil Permᴰ.nil h = refl
  IsReordered-nil (Permᴰ.cons e d) h = cc
  IsReordered-nil (Permᴰ.swap e f) h = cc
  IsReordered-nil (Permᴰ.trans d d') h = IsReordered-nil d' (IsReordered-nil d h)

  pub IsReordered-one : {xs ys : List A} (a : A) → IsReordered xs ys → xs ≡ a ∷ [] → ys ≡ a ∷ []
  IsReordered-one a Permᴰ.nil h = h
  IsReordered-one a (Permᴰ.cons e d) h = cc (IsReordered-nil d (cc), e, h)
  IsReordered-one a (Permᴰ.swap e f) h = cc
  IsReordered-one a (Permᴰ.trans d d') h = IsReordered-one a d' (IsReordered-one a d h)

  pub IsReordered-symm : {xs ys : List A} → IsReordered xs ys → IsReordered ys xs
  IsReordered-symm = Permᴰ.symm
