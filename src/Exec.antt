-- ===== src/Exec.antt =====
-- Methods over a state that may raise. A raise ends the method and keeps what was done before.
use edge_copilot_backend.Prelude.{
  sym, ◌∙◌, ◌⊎◌, inl, inr, Bool, true, false, if◌then◌else◌, ◌≡◌, refl, ap, arith,
}
use edge_copilot_backend.Errors.{
  Exception, Result, ok, raise, ok_injective, Result-cases, raise-ne-ok,
}

abbrev pub Exec {ℓ} : Type ℓ → Type ℓ → Type ℓ
Exec S A = S → Result A × S

module _ {ℓ} {S A : Type ℓ} where
  abbrev pub return : A → Exec S A
  return a s = (ok a, s)

  -- A computation that does not touch the state.
  abbrev pub from : Result A → Exec S A
  from r s = (r, s)

  abbrev pub throw : Exception → Exec S A
  throw e s = (raise e, s)

  abbrev pub ask : (S → A) → Exec S A
  ask f s = (ok (f s), s)

module _ {ℓ} {S A B : Type ℓ} where
  abbrev pub resume : (A → Exec S B) → Result A × S → Result B × S
  resume f (ok a, s) = f a s
  resume f (raise e, s) = (raise e, s)

  infixl 5 ◌>>=◌ ◌>>◌
  abbrev pub ◌>>=◌ : Exec S A → (A → Exec S B) → Exec S B
  ◌>>=◌ m f s = resume f (m s)

  abbrev pub ◌>>◌ : Exec S A → Exec S B → Exec S B
  m >> k = m >>= λ _. k

-- A block that begins with a pure computation and returned: so did the computation, and the block
-- went on with its value.
pub from-bind-eq-ok {ℓ} :
    {S A B : Type ℓ} (r : Result A) (f : A → Exec S B) (s : S) {b : B}
    → ((from r >>= f) s).0 ≡ ok b
    → (a : A) × (r ≡ ok a) × ((from r >>= f) s ≡ f a s)
from-bind-eq-ok (ok a) f s h = (a, refl, refl)
from-bind-eq-ok (raise e) f s h = cc

-- A block goes on with what its first call returned, from the state that the call left.
pub resume_ok {ℓ} :
    {S A B : Type ℓ} (f : A → Exec S B) (p : Result A × S) {a : A}
    → p.0 ≡ ok a
    → resume f p ≡ f a p.1
resume_ok f (ok b, s) h = ap (λ c. f c s) (ok_injective h)
resume_ok f (raise e, s) h = cc

pub resume_raise {ℓ} :
    {S A B : Type ℓ} (f : A → Exec S B) (p : Result A × S) {e : Exception}
    → p.0 ≡ raise e
    → resume f p ≡ (raise e, p.1)
resume_raise f (ok b, s) h = cc
resume_raise f (raise e, s) h = ground arith

-- What the rest of a block keeps, the block keeps.
pub from-bind-keeps {ℓ κ} :
    {S A B : Type ℓ} (P : S → Type κ) (r : Result A) (f : A → Exec S B) (s : S)
    → P s
    → ((a : A) → P (f a s).1)
    → P ((from r >>= f) s).1
from-bind-keeps P (ok a) f s h k = k a
from-bind-keeps P (raise e) f s h k = h

pub if-keeps {ℓ κ} :
    {S A : Type ℓ} (P : S → Type κ) (b : Bool) (m n : Exec S A) (s : S)
    → P (m s).1
    → P (n s).1
    → P ((if b then m else n) s).1
if-keeps P true m n s h k = h
if-keeps P false m n s h k = k

-- A call followed by a pure function of its result leaves the state of the call.
pub state-resume {ℓ} :
    {S A B : Type ℓ} (f : A → B) (p : Result A × S) → (resume (λ a. return (f a)) p).1 ≡ p.1
state-resume f (ok a, s) = refl
state-resume f (raise e, s) = refl

-- A block that returned: so did its first call, and the rest from the state that the call left.
pub bind-eq-ok {ℓ} :
    {S A B : Type ℓ} (m : Exec S A) (f : A → Exec S B) (s : S) {b : B}
    → ((m >>= f) s).0 ≡ ok b
    → (a : A) × ((m s).0 ≡ ok a) × ((m >>= f) s ≡ f a (m s).1)
bind-eq-ok m f s h = elim (Result-cases (m s).0) [
  | inl (a, returned) ↦ (a, returned, resume_ok f (m s) returned)
  | inr (e, raised) ↦ absurd (raise-ne-ok (sym (ap (λ p. p.0) (resume_raise f (m s) raised)) ∙ h))
]

-- A block that raised: in its first call, with the state that the call left, or after it.
pub bind-eq-raise {ℓ} :
    {S A B : Type ℓ} (m : Exec S A) (f : A → Exec S B) (s : S) {e : Exception}
    → ((m >>= f) s).0 ≡ raise e
    → (((m >>= f) s).1 ≡ (m s).1) ⊎ ((a : A) × ((m s).0 ≡ ok a) × ((m >>= f) s ≡ f a (m s).1))
bind-eq-raise m f s h = elim (Result-cases (m s).0) [
  | inl (a, returned) ↦ inr (a, returned, resume_ok f (m s) returned)
  | inr (e, raised) ↦ inl (ap (λ p. p.1) (resume_raise f (m s) raised))
]

-- What a call keeps, and the rest of the block keeps, the block keeps.
pub resume-keeps {ℓ κ} :
    {S A B : Type ℓ} (P : S → Type κ) (f : A → Exec S B) (p : Result A × S)
    → P p.1
    → ((a : A) → P (f a p.1).1)
    → P (resume f p).1
resume-keeps P f (ok a, s) h k = k a
resume-keeps P f (raise e, s) h k = h

-- What a block answers is what the rest of it answers, where it goes on with the rest.
pub rest-answers {ℓ} :
    {S A : Type ℓ} {p q : Result A × S} {r : Result A} → p ≡ q → p.0 ≡ r → q.0 ≡ r
rest-answers run h = sym (ap (λ u. u.0) run) ∙ h
