-- ===== src/Webhook/Replay.antt =====
-- Replays of webhooks: when application/use_cases/verify_webhook.py accepts one, and when twice.
use edge_copilot_backend.Prelude.{
  ℕ, ◌+◌, ◌≤◌, ◌<◌, String, Bool, true, false, List, [], ◌∷◌, All, ◌≡◌, lt→ltb, ltb_self, length,
  arith, Bool-cases, inl, inr, ap, sym, ◌∙◌,
}
use edge_copilot_backend.Values.{DateTime, seconds}
use edge_copilot_backend.Errors.{ok, ok_injective}
use edge_copilot_backend.Exec.{Exec}
use edge_copilot_backend.Time.{IsAware, later}
use edge_copilot_backend.Gateway.{WebhookValidationResult, accepted}
use edge_copilot_backend.Gateway.Envelope.{EnvelopeFits, validate_webhook_envelope_iff}
use edge_copilot_backend.Ports.Laws.{Remembers}
use edge_copilot_backend.Webhook.{VerifyWebhookRequest, VerifyWebhook, GuardState, execute}
use edge_copilot_backend.Webhook.Steps.{
  IsGenuine, IsAccepted, valid-IsAccepted, accept, execute-keeps,
}

-- A request, the `now` that the caller passes for it, and the time at which the store of the guard
-- handles its call.
pub record Delivery : Type 0 where
  pub request : VerifyWebhookRequest
  pub now : DateTime
  pub time : ℕ

module _ (use_case : VerifyWebhook) where
  -- The answer to a delivery, and the state that it leaves.
  abbrev pub answer_to : Delivery → Exec (GuardState use_case) WebhookValidationResult
  answer_to d = execute use_case d.time d.request d.now

  -- The state after some deliveries, whatever the answers.
  unfoldable pub serve : List Delivery → GuardState use_case → GuardState use_case
  serve [] s = s
  serve (d ∷ rest) s = serve rest (answer_to d s).1

near_enough :
    (first second : Delivery) (skew lag ttl : ℕ)
    → second.request.event_timestamp ≡ first.request.event_timestamp
    → second.now.instant ≤ second.request.event_timestamp.instant + skew
    → first.request.event_timestamp.instant ≤ first.now.instant + skew
    → first.now.instant ≤ first.time
    → second.time ≤ second.now.instant + lag
    → skew + skew + lag < ttl
    → second.time < first.time + ttl
near_enough first second skew lag ttl time a b c d long =
    omega (arith, ap (λ (d : DateTime). d.instant) time)

module _ (use_case : VerifyWebhook) (held : GuardState use_case → ℕ → String → Bool)
    (law : Remembers use_case.replay_guard held use_case.replay_ttl_seconds) where
  -- Later deliveries do not make the guard forget a key that it will still hold.
  serve-held :
      (between : List Delivery) (s : GuardState use_case) (u : ℕ) (k : String)
      → All (λ d. d.time ≤ u) between
      → held s u k ≡ true
      → held (serve use_case between s) u k ≡ true
  unfolding serve
  serve-held [] s u k times h = h
  serve-held (d ∷ rest) s u k (time, times) h =
      serve-held rest (answer_to use_case d s).1 u k times (
        execute-keeps use_case held law (λ s'. held s' u k ≡ true) s d.time d.request d.now h
          (law.keeps s d.time d.request.replay_key u k time h))

  fits_in_time :
      (s : GuardState use_case) (d : Delivery) (answer : WebhookValidationResult)
      → IsAware d.request.event_timestamp
      → IsAware d.now
      → (answer_to use_case d s).0 ≡ ok answer
      → answer.valid ≡ true
      → IsAccepted use_case held law s d.time d.request d.now
        × EnvelopeFits d.request.event_timestamp d.now (length d.request.payload) use_case.config
  fits_in_time s d answer p q h positive =
      let a = valid-IsAccepted use_case held law s d.time d.request d.now answer h positive in
      let (result, validated, exact) =
        validate_webhook_envelope_iff d.request.event_timestamp d.now (length d.request.payload)
          use_case.config p q in
      let same' : a.result ≡ result = ok_injective (sym a.validated ∙ validated) in
      (a, exact.0 (rw same' at a.fits))

  -- The key of an accepted delivery is held until the time to live has passed.
  held_after_accepted :
      (s : GuardState use_case) (d : Delivery) (u : ℕ)
      → IsAccepted use_case held law s d.time d.request d.now
      → d.time ≤ u
      → u < d.time + seconds use_case.replay_ttl_seconds
      → held (answer_to use_case d s).1 u d.request.replay_key ≡ true
  held_after_accepted s d u a order soon = rw a.recorded (
      law.records s d.time d.request.replay_key u a.fresh order
      ∙ lt→ltb u (d.time + seconds use_case.replay_ttl_seconds) soon)

  -- Over a guard that keeps its promises, with time zones on all times, no webhook is accepted twice:
  -- after a delivery that got a positive answer, and any others, a second delivery with the same
  -- replay key and event time gets no positive answer, whatever else it carries. The conditions are
  -- on the clocks. The guard handles the call of the first delivery no earlier than the `now` of
  -- that delivery, and that of the second at most `lag` after its `now`; it handles no call later
  -- than that of the second; and its time to live is longer than twice the tolerance and `lag`.
  pub no_replay :
      (s : GuardState use_case) (first second : Delivery) (between : List Delivery)
      (answer again : WebhookValidationResult) (lag : ℕ)
      → use_case.config.max_clock_skew + use_case.config.max_clock_skew + lag
        < seconds use_case.replay_ttl_seconds
      → IsAware first.request.event_timestamp
      → IsAware first.now
      → IsAware second.now
      → first.now.instant ≤ first.time
      → second.time ≤ second.now.instant + lag
      → first.time ≤ second.time
      → All (λ d. d.time ≤ second.time) between
      → second.request.replay_key ≡ first.request.replay_key
      → second.request.event_timestamp ≡ first.request.event_timestamp
      → (answer_to use_case first s).0 ≡ ok answer
      → answer.valid ≡ true
      → (answer_to use_case second (serve use_case between (answer_to use_case first s).1)).0
        ≡ ok again
      → again.valid ≡ false
  no_replay s first second between answer again lag long p q q' after prompt order times key time h
        positive h' =
      elim (Bool-cases again.valid) [
        | inr refused ↦ refused
        | inl positive' ↦
            let s' = serve use_case between (answer_to use_case first s).1 in
            let (a, fits) = fits_in_time s first answer p q h positive in
            let (b, fits') = fits_in_time s' second again (rw time p) q' h' positive' in
            let soon : second.time < first.time + seconds use_case.replay_ttl_seconds =
              near_enough first second use_case.config.max_clock_skew lag
                (seconds use_case.replay_ttl_seconds) time fits'.0 fits.1 after prompt long in
            let held_then = held_after_accepted s first second.time a order soon in
            let kept = serve-held between _ second.time first.request.replay_key times held_then in
            cc (b.fresh, kept, key)
      ]

  -- The same delivery, when the time to live has passed.
  abbrev pub repeated : Delivery → Delivery
  repeated d = record d {
    now = later d.now (seconds use_case.replay_ttl_seconds);
    time = d.time + seconds use_case.replay_ttl_seconds;
  }

  accepted_when :
      (s : GuardState use_case) (d : Delivery)
      → IsAware d.request.event_timestamp
      → IsAware d.now
      → IsGenuine use_case held law d.request
      → EnvelopeFits d.request.event_timestamp d.now (length d.request.payload) use_case.config
      → held s d.time d.request.replay_key ≡ false
      → answer_to use_case d s ≡ (
        ok accepted,
        (use_case.replay_guard.check_and_record s d.time d.request.replay_key
            use_case.replay_ttl_seconds).1,
      )
  accepted_when s d p q genuine fits fresh =
      let (result, validated, exact) =
        validate_webhook_envelope_iff d.request.event_timestamp d.now (length d.request.payload)
          use_case.config p q in
      accept use_case held law s d.time d.request d.now result genuine validated (exact.1 fits)
        fresh

  -- Over a guard that keeps its promises, with time zones on both times, where the time to live
  -- passes while the event time is still within the tolerance, a webhook is accepted twice: a
  -- genuine delivery with a new key and a short enough payload, handled so near its event time that
  -- both times fit, gets a positive answer, and the same delivery gets one again when the time to
  -- live has passed, on the clock of the caller and on that of the guard.
  pub replay_accepted :
      (s : GuardState use_case) (d : Delivery)
      → IsAware d.request.event_timestamp
      → IsAware d.now
      → IsGenuine use_case held law d.request
      → length d.request.payload ≤ use_case.config.max_payload_bytes
      → held s d.time d.request.replay_key ≡ false
      → d.request.event_timestamp.instant ≤ d.now.instant + use_case.config.max_clock_skew
      → d.now.instant + seconds use_case.replay_ttl_seconds
        ≤ d.request.event_timestamp.instant + use_case.config.max_clock_skew
      → ((answer_to use_case d s).0 ≡ ok accepted)
        × ((answer_to use_case (repeated d) (answer_to use_case d s).1).0 ≡ ok accepted)
  replay_accepted s d p q genuine short fresh early late =
      let ttl = seconds use_case.replay_ttl_seconds in
      let one = accepted_when s d p q genuine (omega arith, omega arith, short) fresh in
      let forgotten =
        law.records s d.time d.request.replay_key (d.time + ttl) fresh (omega arith)
        ∙ ltb_self (d.time + ttl) in
      (
        ap (λ p. p.0) one,
        rw one (
            ap (λ p. p.0)
              (accepted_when _ (repeated d) p q genuine (omega arith, omega arith, short)
                forgotten)),
      )
