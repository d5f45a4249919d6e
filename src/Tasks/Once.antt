-- ===== src/Tasks/Once.antt =====
-- Tasks that ask a guard whether their key is new: at most one with a key gets past it.
use mathlib.Core.Path.{subst}
use edge_copilot_backend.Prelude.{
  ℕ, ◌+◌, ◌≤◌, ◌<◌, String, Bool, true, false, not, ◌≡◌, ◌⊎◌, refl, sym, ◌∙◌, ap, arith, inl, inr,
  Bool-cases, eqb, eqb_iff,
}
use edge_copilot_backend.Errors.{ok}
use edge_copilot_backend.Tasks.{Pool, turn, Step, goes_on, waits, Reach, here, later, Step-time}

pub answered_new : (b : Bool) → ok (not b) ≡ ok true → b ≡ false
answered_new true h = cc
answered_new false h = refl

-- `held w t k`: in the world `w` the guard remembers `k` at time `t`; `ttl` is the time to live, in
-- microseconds.
module _ {P W : Type 0} (run_task : ℕ → ℕ → P → W → P × W) (held : W → ℕ → String → Bool)
    (key : ℕ → String) (ttl : ℕ) (is_past : P → Bool) where
  -- What one segment of task `i` does to the guard.
  pub record Effect (i t : ℕ) (place : P) (w : W) : Type 0 where
    pub keeps :
        (u : ℕ) (k : String) → t ≤ u → held w u k ≡ true → held (run_task i t place w).1 u k ≡ true
    pub passes :
        is_past (run_task i t place w).0 ≡ true
        → (is_past place ≡ true)
          ⊎ ((held w t (key i) ≡ false)
              × ((u : ℕ) → t ≤ u → u < t + ttl → held (run_task i t place w).1 u (key i) ≡ true))

  module _ (effects : (i t : ℕ) (place : P) (w : W) → Effect i t place w) where
    -- Who is past the guard, until the time `limit`.
    record Inv (limit : ℕ) (s : Pool P W) : Type 0 where
      in_time : limit ≤ s.time + ttl
      remembered :
          (i u : ℕ)
          → is_past (s.place i) ≡ true
          → s.time ≤ u
          → u < limit
          → held s.world u (key i) ≡ true
      unique :
          (i j : ℕ)
          → is_past (s.place i) ≡ true
          → is_past (s.place j) ≡ true
          → key i ≡ key j
          → i ≡ j

    module _ (limit : ℕ) (s : Pool P W) (inv : Inv limit s) (before : s.time < limit) (i : ℕ) where
      effect : Effect i s.time (s.place i) s.world
      effect = effects i s.time (s.place i) s.world

      -- Past the guard after the turn of task `i`: so before it, or it is task `i`, and the key was new.
      who_is_past :
          (j : ℕ)
          → is_past ((turn run_task i s).place j) ≡ true
          → (is_past (s.place j) ≡ true)
            ⊎ ((i ≡ j)
                × (held s.world s.time (key i) ≡ false)
                × ((u : ℕ)
                    → s.time ≤ u
                    → u < s.time + ttl
                    → held (turn run_task i s).world u (key i) ≡ true))
      unfolding turn
      who_is_past j past = elim (Bool-cases (eqb i j)) [
        | inl same' ↦
            let e = (eqb_iff i j).0 same' in
            elim (effect.passes (rw same' at past)) [
              | inl was ↦ inl (rw e at was)
              | inr (fresh, records) ↦ inr (e, fresh, records)
            ]
        | inr no' ↦ inl (rw no' at past)
      ]

      -- The key of a task that is past the guard is not new.
      clash :
          (j : ℕ)
          → is_past (s.place j) ≡ true
          → key j ≡ key i
          → held s.world s.time (key i) ≡ false
          → ⊥
      clash j was same' fresh =
          let known = inv.remembered j s.time was (omega arith) before in
          cc (sym (ap (held s.world s.time) same') ∙ known, fresh)

      turn-Inv : Inv limit (turn run_task i s)
      unfolding turn
      turn-Inv = record {
        in_time = inv.in_time;
        remembered = λ j u past order soon. elim (who_is_past j past) [
          | inl was ↦ effect.keeps u (key j) order (inv.remembered j u was order soon)
          | inr (e, fresh, records) ↦
              subst (λ k. held (turn run_task i s).world u k ≡ true) (ap key e)
                (records u order (omega (arith, soon, inv.in_time)))
        ];
        unique = λ j k past past' same'. elim (who_is_past j past) [
          | inl was ↦ elim (who_is_past k past') [
            | inl was' ↦ inv.unique j k was was' same'
            | inr (e, fresh, records) ↦ absurd (clash j was (same' ∙ sym (ap key e)) fresh)
          ]
          | inr (e, fresh, records) ↦ elim (who_is_past k past') [
            | inl was' ↦ absurd (clash k was' (sym same' ∙ sym (ap key e)) fresh)
            | inr (e', _, _) ↦ sym e ∙ e'
          ]
        ];
      }

    Step-Inv :
        {limit : ℕ} {s t : Pool P W}
        → Step run_task s t
        → t.time < limit
        → Inv limit s
        → Inv limit t
    Step-Inv {limit} {s} (goes_on i e) before inv =
        let earlier = Step-time run_task (goes_on i e) in
        subst (Inv limit) (sym e) (turn-Inv limit s inv (omega (arith, earlier, before)) i)
    Step-Inv {limit} {s} (waits n e) before inv = subst (Inv limit) (sym e) (record {
      in_time = omega (arith, inv.in_time);
      remembered = λ i u past order soon. inv.remembered i u past (omega (arith, order)) soon;
      unique = inv.unique;
    })

    Reach-Inv :
        {limit : ℕ} {b s : Pool P W}
        → limit ≤ b.time + ttl
        → ((i : ℕ) → is_past (b.place i) ≡ false)
        → Reach run_task b s
        → s.time < limit
        → Inv limit s
    Reach-Inv small none_past here before = record {
      in_time = small;
      remembered = λ i u past order soon. cc (none_past i, past);
      unique = λ i j past past' same'. cc (none_past i, past);
    }
    Reach-Inv small none_past (later r step) before =
        let earlier = Step-time run_task step in
        Step-Inv step before (Reach-Inv small none_past r (omega (arith, earlier, before)))

    -- From a pool in which no task is past the guard, until the time to live has passed: two tasks
    -- with one key are not both past it.
    pub past_once :
        (b s : Pool P W) (i j : ℕ)
        → ((i : ℕ) → is_past (b.place i) ≡ false)
        → Reach run_task b s
        → s.time < b.time + ttl
        → is_past (s.place i) ≡ true
        → is_past (s.place j) ≡ true
        → key i ≡ key j
        → i ≡ j
    past_once b s i j none_past r before =
        (Reach-Inv {limit = b.time + ttl} (omega arith) none_past r before).unique i j
