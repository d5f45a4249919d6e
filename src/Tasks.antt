-- ===== src/Tasks.antt =====
-- Tasks of one event loop, as asyncio runs them: a task runs from one `await` to the next, and then
-- any task may go on.
pub mod Alone
pub mod Once
use edge_copilot_backend.Prelude.{
  ℕ, ◌+◌, ◌≤◌, List, [], ◌∷◌, ◌≡◌, ◌≢◌, refl, ap, ◌∙◌, arith, eqb, eqb_iff, true, false, Bool-cases,
  inl, inr, if◌then◌else◌,
}
use edge_copilot_backend.Errors.{Result, ok, raise}

-- A raise ends the task, at the place `ended`.
abbrev pub landed : {P W A : Type 0} → (Result A → P) → Result P × W → P × W
landed ended (ok place, w) = (place, w)
landed ended (raise e, w) = (ended (raise e), w)

-- The family with another value at one index.
abbrev pub update {ℓ} : {A : Type ℓ} → (ℕ → A) → ℕ → A → ℕ → A
update f i a j = if eqb i j then a else f j

pub update_same {ℓ} : {A : Type ℓ} (f : ℕ → A) (i : ℕ) (a : A) → update f i a i ≡ a
update_same f i a = rw (eqb_iff i i).1 refl

pub update_other {ℓ} : {A : Type ℓ} (f : ℕ → A) (i j : ℕ) (a : A) → i ≢ j → update f i a j ≡ f j
update_other f i j a other = elim (Bool-cases (eqb i j)) [
  | inl same' ↦ absurd (other ((eqb_iff i j).0 same'))
  | inr no' ↦ rw no'
]

-- The time, what the tasks share (`W`), and where each task stands (`P`).
pub record Pool (P W : Type 0) : Type 0 where
  pub time : ℕ
  pub world : W
  pub place : ℕ → P

module _ {P W : Type 0} (advance : ℕ → ℕ → P → W → P × W) where
  -- Task `i` goes on to its next `await`, or to its end.
  unfoldable pub turn : ℕ → Pool P W → Pool P W
  turn i s =
      let (p, w) = advance i s.time (s.place i) s.world in
      record { time = s.time; world = w; place = update s.place i p }

  -- A step: a task goes on, or time passes.
  pub data Step (s t : Pool P W) : Type 0 where
    goes_on : (i : ℕ) → t ≡ turn i s → Step s t
    waits : (n : ℕ) → t ≡ record s { time = s.time + n } → Step s t

  pub data Reach (s : Pool P W) : Pool P W → Type 0 where
    here : Reach s s
    later : {t u : Pool P W} → Reach s t → Step t u → Reach s u

  -- Several turns at one time.
  unfoldable pub turns : List ℕ → Pool P W → Pool P W
  turns [] s = s
  turns (i ∷ rest) s = turns rest (turn i s)

  pub Reach-turns : (schedule : List ℕ) {s t : Pool P W} → Reach s t → Reach s (turns schedule t)
  unfolding turns
  Reach-turns [] r = r
  Reach-turns (i ∷ rest) r = Reach-turns rest (later r (goes_on i refl))

  pub Step-time : {s t : Pool P W} → Step s t → s.time ≤ t.time
  unfolding turn
  Step-time {s} (goes_on i e) = omega (arith, ap (λ (u : Pool P W). u.time) e)
  Step-time {s} (waits n e) = omega (arith, ap (λ (u : Pool P W). u.time) e)

  -- A turn of one task from the place `p` where it stands, and what the others see of it.
  pub turn_same :
      (s : Pool P W) (i : ℕ) {p : P}
      → s.place i ≡ p
      → (turn i s).place i ≡ (advance i s.time p s.world).0
  unfolding turn
  turn_same s i at = update_same s.place i _ ∙ ap (λ q. (advance i s.time q s.world).0) at

  pub turn_world :
      (s : Pool P W) (i : ℕ) {p : P}
      → s.place i ≡ p
      → (turn i s).world ≡ (advance i s.time p s.world).1
  unfolding turn
  turn_world s i at = ap (λ q. (advance i s.time q s.world).1) at

  pub turn_other : (s : Pool P W) (i j : ℕ) → i ≢ j → (turn i s).place j ≡ s.place j
  unfolding turn
  turn_other s i j other = update_other s.place i j _ other
