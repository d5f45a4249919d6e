-- ===== src/Gateway/Envelope.antt =====
-- Which envelopes domain/gateway/webhook_security.py accepts.
use edge_copilot_backend.Prelude.{
  ℕ, ◌+◌, ◌-◌, ◌≤◌, true, ◌≡◌, ◌↔◌, refl, arith, ltb, Bool-cases, inl, inr,
}
use edge_copilot_backend.Values.{DateTime}
use edge_copilot_backend.Errors.{ok}
use edge_copilot_backend.Time.{IsAware, distance_lem}
use edge_copilot_backend.Gateway.{
  WebhookSecurityConfig, WebhookValidationResult, validate_webhook_envelope, rejected, accepted,
}

-- The event's time is within the tolerance of `now`, on either side, and the payload is not too
-- long.
abbrev pub EnvelopeFits : DateTime → DateTime → ℕ → WebhookSecurityConfig → Type 0
EnvelopeFits event_timestamp now payload_size_bytes config =
    (now.instant ≤ event_timestamp.instant + config.max_clock_skew)
    × (event_timestamp.instant ≤ now.instant + config.max_clock_skew)
    × (payload_size_bytes ≤ config.max_payload_bytes)

-- With time zones on both sides the validation does not raise, and it is positive exactly for an
-- event time within the tolerance, in the past or in the future, and a payload within the limit.
pub validate_webhook_envelope_iff :
    (event_timestamp now : DateTime) (payload_size_bytes : ℕ) (config : WebhookSecurityConfig)
    → IsAware event_timestamp
    → IsAware now
    → (r : WebhookValidationResult) × (validate_webhook_envelope event_timestamp now
          payload_size_bytes config
        ≡ ok r)
      × ((r.valid ≡ true) ↔ EnvelopeFits event_timestamp now payload_size_bytes config)
unfolding validate_webhook_envelope
validate_webhook_envelope_iff event_timestamp now payload_size_bytes config p q =
    let apart = distance_lem now event_timestamp q p in
    let skew : ℕ =
      (now.instant - event_timestamp.instant) + (event_timestamp.instant - now.instant) in
    elim (Bool-cases (ltb config.max_clock_skew skew)) [
      | inl far ↦
          (rejected "timestamp_out_of_tolerance", rw (apart, far), ((λ e. cc), (λ f. ground arith)))
      | inr near ↦ elim (Bool-cases (ltb config.max_payload_bytes payload_size_bytes)) [
        | inl long ↦
            (rejected "payload_too_large", rw (apart, near, long), ((λ e. cc), (λ f. ground arith)))
        | inr short ↦ (accepted, rw (apart, near, short), ((λ e. ground arith), (λ f. refl)))
      ]
    ]
