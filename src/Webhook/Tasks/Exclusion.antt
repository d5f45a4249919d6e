-- ===== src/Webhook/Tasks/Exclusion.antt =====
-- Any number of tasks of application/use_cases/verify_webhook.py, interleaved in any order.
use edge_copilot_backend.Prelude.{
  ℕ, ◌+◌, ◌<◌, String, Bool, true, false, length, ◌≡◌, refl, sym, ◌∙◌, inl, inr, Bool-cases, lt→ltb,
  if◌then◌else◌,
}
use edge_copilot_backend.Values.{DateTime, seconds}
use edge_copilot_backend.Errors.{Result, ok, raise, Result-cases}
use edge_copilot_backend.Exec.{resume, return}
use edge_copilot_backend.Gateway.{
  rejected, accepted, verify_webhook_signature, validate_webhook_envelope,
}
use edge_copilot_backend.Ports.Laws.{Remembers}
use edge_copilot_backend.Tasks.{Pool, Reach, landed}
use edge_copilot_backend.Tasks.Once.{Effect, past_once, answered_new}
use edge_copilot_backend.Webhook.{VerifyWebhookRequest, VerifyWebhook, GuardState}
use edge_copilot_backend.Webhook.Tasks.{
  Place, arrived, checking, ended, segment, advance, ask_guard,
}

-- The task has ended, and its webhook was accepted.
abbrev pub is_accepted : Place → Bool
is_accepted (ended (ok answer)) = answer.valid
is_accepted _ = false

module _ (use_case : VerifyWebhook) (requests : ℕ → VerifyWebhookRequest)
    (nows : ℕ → DateTime) where
  -- Task `i` runs `execute` on request `i`.
  abbrev pub run_task : ℕ → ℕ → Place → GuardState use_case → Place × GuardState use_case
  run_task i t place s = advance use_case (requests i) (nows i) t place s

  -- No task has begun.
  abbrev pub opening : ℕ → GuardState use_case → Pool Place (GuardState use_case)
  opening time s = record { time = time; world = s; place = λ i. arrived }

  abbrev key : ℕ → String
  key i = (requests i).replay_key

  -- The first segment leaves the guard alone and accepts nothing.
  first_segment :
      (i t : ℕ) (s : GuardState use_case)
      → (is_accepted (run_task i t arrived s).0 ≡ false) × ((run_task i t arrived s).1 ≡ s)
  unfolding advance segment
  first_segment i t s =
      elim (Result-cases (
        verify_webhook_signature use_case.digest (requests i).payload
          (requests i).provided_signature (requests i).secret (requests i).algorithm)) [
            | inr (e, h) ↦ rw h (refl, refl)
            | inl (false, h) ↦ rw h (refl, refl)
            | inl (true, h) ↦
                elim (Result-cases (
                  validate_webhook_envelope (requests i).event_timestamp (nows i)
                    (length (requests i).payload) use_case.config)) [
                      | inr (e, k) ↦ rw (h, k) (refl, refl)
                      | inl (r, k) ↦ elim (Bool-cases r.valid) [
                        | inl fits ↦ rw (h, k, fits) (refl, refl)
                        | inr not' ↦ rw (h, k, not') (refl, refl)
                      ]
                    ]
          ]

  module _ (held : GuardState use_case → ℕ → String → Bool)
      (law : Remembers use_case.replay_guard held use_case.replay_ttl_seconds) where
    abbrev Effects : ℕ → ℕ → Place → GuardState use_case → Type 0
    Effects = Effect run_task held key (seconds use_case.replay_ttl_seconds) is_accepted

    abbrev asked : ℕ → ℕ → GuardState use_case → Result Bool × GuardState use_case
    asked i t s = ask_guard use_case (requests i) (nows i) t s

    answered :
        (p : Result Bool × GuardState use_case)
        → ((landed ended (
              resume
                (λ b. return (ended (ok (if b then accepted else rejected "replay_detected"))))
                p)).1
            ≡ p.1)
          × (is_accepted
                  (landed ended (
                    resume
                      (λ b.
                        return (ended (ok (if b then accepted else rejected "replay_detected"))))
                      p)).0
                ≡ true
              → p.0 ≡ ok true)
    answered (raise e, s) = (refl, (λ past. cc))
    answered (ok true, s) = (refl, (λ past. refl))
    answered (ok false, s) = (refl, (λ past. cc))

    -- The second segment calls the guard once, and accepts if the key was new.
    guard_segment :
        (i t : ℕ) (s : GuardState use_case)
        → ((run_task i t checking s).1 ≡ (asked i t s).1)
          × (is_accepted (run_task i t checking s).0 ≡ true → (asked i t s).0 ≡ ok true)
    unfolding advance segment
    guard_segment i t s = answered (asked i t s)

    advance-Effect : (i t : ℕ) (place : Place) (s : GuardState use_case) → Effects i t place s
    advance-Effect i t arrived s =
        let (none', same') = first_segment i t s in
        record { keeps = λ u k order h. rw same' h; passes = λ past. cc (none', past) }
    advance-Effect i t checking s =
        let (after, answer) = guard_segment i t s in
        record {
          keeps = λ u k order h. rw after (law.keeps s t (key i) u k order h);
          passes = λ past.
              let fresh = answered_new _ (sym (law.answers s t (key i)) ∙ answer past) in
              inr (
                fresh,
                (λ u order soon.
                    rw after (law.records s t (key i) u fresh order ∙ lt→ltb u _ soon)),
              );
        }
    advance-Effect i t (ended result) s =
        unfold advance in record { keeps = λ u k order h. h; passes = λ past. inl past }

    -- Over a guard that keeps its promises: however tasks of `execute` interleave, until the time to live
    -- has passed from when the first could begin, no two of them whose requests have one replay key
    -- have both accepted their webhook.
    pub accepted_once :
        (start : ℕ) (s₀ : GuardState use_case) (s : Pool Place (GuardState use_case)) (i j : ℕ)
        → Reach run_task (opening start s₀) s
        → s.time < start + seconds use_case.replay_ttl_seconds
        → is_accepted (s.place i) ≡ true
        → is_accepted (s.place j) ≡ true
        → (requests i).replay_key ≡ (requests j).replay_key
        → i ≡ j
    accepted_once start s₀ s i j =
        past_once run_task held key (seconds use_case.replay_ttl_seconds) is_accepted advance-Effect
          (opening start s₀) s i j (λ k. refl)
