-- ===== src/Prelude/Lists.antt =====
-- Lists over the native numbers, and Python's `in`.
use Prim.Native.Nat.{ℕ, suc}
use Prim.Native.String.{String}
use mathlib.Core.Path.{◌≡◌, subst}
use mathlib.Core.Logic.{◌↔◌, inl, inr}
use native.Mathlib.Omega.{arith}
use text.Mathlib.TextEquality.{eq_iff}
use text.Mathlib.TextPositions.{eq_refl}
use edge_copilot_backend.Prelude.Tests.{Bool-cases, if◌then◌else◌}
use mathlib.Core.Bool.{Bool, true, false, ◌||◌}
use mathlib.Core.List.{List, [], ◌∷◌}
use text.Mathlib.Text.{◌==◌}

module _ {ℓ} {A : Type ℓ} where
  abbrev pub length : List A → ℕ
  length [] = 0
  length (x ∷ xs) = suc (length xs)

  -- `any(p(x) for x in xs)`
  abbrev pub any : (A → Bool) → List A → Bool
  any p [] = false
  any p (x ∷ xs) = p x || any p xs

  -- `[x for x in xs if p(x)]`
  abbrev pub keep : (A → Bool) → List A → List A
  keep p [] = []
  keep p (x ∷ xs) = if p x then x ∷ keep p xs else keep p xs

-- `text in texts`
abbrev pub contains : List String → String → Bool
contains texts text = any (λ t. t == text) texts

module _ {ℓ κ} {A : Type ℓ} (P : A → Type κ) where
  -- Every element satisfies `P`.
  abbrev pub All : List A → Type κ
  All [] = Unit
  All (x ∷ xs) = P x × All xs

-- The element `a` stands in the list.
pub data In {ℓ} {A : Type ℓ} (a : A) : List A → Type ℓ where
  here : {xs : List A} → In a (a ∷ xs)
  there : {x : A} {xs : List A} → In a xs → In a (x ∷ xs)

pub any-In {ℓ} :
    {A : Type ℓ} (p : A → Bool) (xs : List A) → any p xs ≡ true → (x : A) × In x xs × (p x ≡ true)
any-In p [] h = cc
any-In p (x ∷ xs) h = elim (Bool-cases (p x)) [
  | inl good ↦ (x, here, good)
  | inr bad ↦ let (y, i, good) = any-In p xs (rw bad at h) in (y, there i, good)
]

pub In-any {ℓ} :
    {A : Type ℓ} (p : A → Bool) {x : A} {xs : List A} → In x xs → p x ≡ true → any p xs ≡ true
In-any p here h = rw h
In-any p (there i) h = ground (arith, In-any p i h)

contains-In : (texts : List String) (text : String) → contains texts text ≡ true → In text texts
contains-In [] text h = cc
contains-In (x ∷ xs) text h = elim (Bool-cases (x == text)) [
  | inl same' ↦ subst (λ t. In t (x ∷ xs)) ((eq_iff x text).0 same') here
  | inr other ↦ there (contains-In xs text (rw other at h))
]

In-contains : {text : String} {texts : List String} → In text texts → contains texts text ≡ true
In-contains {text} here = rw (eq_refl text)
In-contains {text} (there {x} i) = ground (arith, In-contains i)

-- `text in texts` finds exactly the elements.
pub contains_iff :
    (texts : List String) (text : String) → (contains texts text ≡ true) ↔ In text texts
contains_iff texts text = (contains-In texts text, In-contains)
