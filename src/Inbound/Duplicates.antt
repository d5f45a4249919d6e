-- ===== src/Inbound/Duplicates.antt =====
-- Duplicate deliveries to application/use_cases/process_inbound_message.py.
use edge_copilot_backend.Prelude.{
  ℕ, ◌+◌, ◌≤◌, ◌<◌, String, Bool, true, false, not, if◌then◌else◌, Option, none, some, List, [],
  ◌∷◌, All, ◌≡◌, ◌∙◌, ap, lt→ltb,
}
use edge_copilot_backend.Values.{DateTime, seconds}
use edge_copilot_backend.Errors.{Result, ok, raise}
use edge_copilot_backend.Exec.{
  Exec, from, return, throw, ◌>>=◌, ◌>>◌, resume-keeps, resume_ok, from-bind-keeps, if-keeps,
}
use edge_copilot_backend.Ports.Laws.{Remembers}
use edge_copilot_backend.Identity.{ChannelIdentity}
use edge_copilot_backend.Conversation.{Conversation}
use edge_copilot_backend.Message
use edge_copilot_backend.Message.{Message, MessageState}
use edge_copilot_backend.Inbound.{
  ProcessInboundMessageRequest, ProcessInboundMessageResult, ProcessInboundMessage, World, execute,
  deduplicate, identify, contextualize, resolve_conversation, start_conversation, dedup_key,
  duplicate, new_id, save, find_active, find_by_provider_subject, check_and_record, in_conversation,
  identified_sender, received_message, authenticate_source, validate_content,
}
use edge_copilot_backend.Inbound.Steps.{
  Passes, execute-deduplicate, numbered, message_id, validated_message,
}

-- A request that is handled at some time of the guard's store and of the clock.
pub record Delivery : Type 0 where
  pub time : ℕ
  pub request : ProcessInboundMessageRequest
  pub now : DateTime

module _ (use_case : ProcessInboundMessage) where
  abbrev pub handle :
      Delivery → World use_case → Result ProcessInboundMessageResult × World use_case
  handle d = execute use_case d.time d.request d.now

  -- The state after some deliveries, whatever their outcomes.
  unfoldable pub serve : List Delivery → World use_case → World use_case
  serve [] w = w
  serve (d ∷ rest) w = serve rest (handle d w).1

  abbrev Guarded : (use_case.replay_guard.State → Type 0) → World use_case → Type 0
  Guarded P w = P w.guard

  module _ (P : use_case.replay_guard.State → Type 0) where
    resolve_conversation-keeps :
        (request : ProcessInboundMessageRequest) (now : DateTime) (found : Option Conversation)
        (w : World use_case)
        → P w.guard
        → P (resolve_conversation use_case request now found w).1.guard
    unfolding start_conversation
    resolve_conversation-keeps request now (some c) w h = h
    resolve_conversation-keeps request now none w h =
        let v = (new_id use_case w).1 in
        from-bind-keeps (Guarded P) _ (λ c. save use_case c >> return c) v h
          (λ c. resume-keeps (Guarded P) (λ _. return c) (save use_case c v) h (λ _. h))

    contextualize-keeps :
        (request : ProcessInboundMessageRequest) (now : DateTime) (m : Message)
        (i : ChannelIdentity) (w : World use_case)
        → P w.guard
        → P (contextualize use_case request now m i w).1.guard
    unfolding contextualize
    contextualize-keeps request now m i w h =
        resume-keeps (Guarded P)
          (λ found. resolve_conversation use_case request now found >>= with_conversation)
          (find_active use_case i.channel_identity_id w) h
          (λ found.
            let k = resolve_conversation-keeps request now found w h in
            resume-keeps (Guarded P) with_conversation
              (resolve_conversation use_case request now found w) k
              (λ c.
                from-bind-keeps (Guarded P)
                  (Message.transition_to (in_conversation m c) MessageState.contextualized)
                  (λ final. return (record { message = final; conversation = c })) _ k (λ _. k)))
      where
        with_conversation : Conversation → Exec (World use_case) ProcessInboundMessageResult
        with_conversation c =
            from (Message.transition_to (in_conversation m c) MessageState.contextualized)
            >>= λ final. return (record { message = final; conversation = c })

    identify-keeps :
        (request : ProcessInboundMessageRequest) (now : DateTime) (m : Message) (w : World use_case)
        → P w.guard
        → P (identify use_case request now m w).1.guard
    unfolding identify
    identify-keeps request now m w h =
        resume-keeps (Guarded P) (λ found. from (identified_sender request found) >>= for_sender)
          (find_by_provider_subject use_case request w) h
          (λ found.
            from-bind-keeps (Guarded P) (identified_sender request found) for_sender w h (λ i.
              from-bind-keeps (Guarded P) (Message.transition_to m MessageState.identified)
                (λ known. contextualize use_case request now known i) w h
                (λ known. contextualize-keeps request now known i w h)))
      where
        for_sender : ChannelIdentity → Exec (World use_case) ProcessInboundMessageResult
        for_sender i = from (Message.transition_to m MessageState.identified) >>= λ known.
            contextualize use_case request now known i

    -- The guard is used by its own step only.
    pub deduplicate-keeps :
        (t : ℕ) (request : ProcessInboundMessageRequest) (now : DateTime) (m : Message)
        (w : World use_case)
        → P
            (use_case.replay_guard.check_and_record w.guard t
              (dedup_key request)
              use_case.dedup_ttl_seconds).1
        → P (deduplicate use_case t request now m w).1.guard
    unfolding deduplicate
    deduplicate-keeps t request now m w h =
        resume-keeps (Guarded P)
          (λ is_first.
            if not is_first then throw (duplicate request) else identify use_case request now m)
          (check_and_record use_case t (dedup_key request) w) h
          (λ is_first.
            if-keeps (Guarded P) (not is_first) (throw (duplicate request))
              (identify use_case request now m) _ h (identify-keeps request now m _ h))

    -- A delivery either does not reach the guard, or calls it once.
    handle-keeps :
        (d : Delivery) (w : World use_case)
        → P w.guard
        → P
            (use_case.replay_guard.check_and_record w.guard d.time
              (dedup_key d.request)
              use_case.dedup_ttl_seconds).1
        → P (handle d w).1.guard
    unfolding execute
    handle-keeps d w h k =
        from-bind-keeps (Guarded P) (authenticate_source d.request.webhook_validation)
          (λ _. numbering) w h
          (λ _.
            from-bind-keeps (Guarded P) (validate_content d.request.content)
              (λ _. new_id use_case >>= receiving) w h
              (λ _.
                from-bind-keeps (Guarded P)
                  (Message.transition_to
                    (received_message d.request (message_id use_case d.time d.request d.now w))
                    MessageState.validated)
                  (deduplicate use_case d.time d.request d.now) (new_id use_case w).1 h
                  (λ m. deduplicate-keeps d.time d.request d.now m _ k)))
      where
        receiving : String → Exec (World use_case) ProcessInboundMessageResult
        receiving message_id =
            from
              (Message.transition_to (received_message d.request message_id) MessageState.validated)
            >>= deduplicate use_case d.time d.request d.now

        numbering : Exec (World use_case) ProcessInboundMessageResult
        numbering = from (validate_content d.request.content) >> (new_id use_case >>= receiving)

module _ (use_case : ProcessInboundMessage) (held : use_case.replay_guard.State → ℕ → String → Bool)
    (law : Remembers use_case.replay_guard held use_case.dedup_ttl_seconds) where
  serve-held :
      (between : List Delivery) (w : World use_case) (u : ℕ) (k : String)
      → All (λ d. d.time ≤ u) between
      → held w.guard u k ≡ true
      → held (serve use_case between w).guard u k ≡ true
  unfolding serve
  serve-held [] w u k times h = h
  serve-held (d ∷ rest) w u k (time, times) h = serve-held rest (handle use_case d w).1 u k times (
      handle-keeps use_case (λ g. held g u k ≡ true) d w h
        (law.keeps w.guard d.time (dedup_key d.request) u k time h))

  -- A delivery that passes the checks leaves its key behind, whatever comes of it.
  handle-held :
      (d : Delivery) (w : World use_case) (u : ℕ)
      → Passes d.request
      → held w.guard d.time (dedup_key d.request) ≡ false
      → d.time ≤ u
      → u < d.time + seconds use_case.dedup_ttl_seconds
      → held (handle use_case d w).1.guard u (dedup_key d.request) ≡ true
  handle-held d w u passes fresh order soon =
      rw (execute-deduplicate use_case d.time d.request d.now w passes) (
        deduplicate-keeps use_case (λ g. held g u (dedup_key d.request) ≡ true) d.time d.request
          d.now (validated_message d.request (message_id use_case d.time d.request d.now w))
          (numbered use_case d.time d.request d.now w)
          (law.records w.guard d.time (dedup_key d.request) u fresh order ∙ lt→ltb u _ soon))

  deduplicate_held :
      (t : ℕ) (request : ProcessInboundMessageRequest) (now : DateTime) (m : Message)
      (w : World use_case)
      → held w.guard t (dedup_key request) ≡ true
      → (deduplicate use_case t request now m w).0 ≡ raise (duplicate request)
  unfolding deduplicate
  deduplicate_held t request now m w h =
      let known : (use_case.replay_guard.check_and_record w.guard t (dedup_key request)
            use_case.dedup_ttl_seconds).0
          ≡ ok false =
        law.answers w.guard t (dedup_key request) ∙ ap (λ b. ok (not b)) h in
      ap (λ p. p.0)
        (resume_ok
          (λ is_first.
            if not is_first then throw (duplicate request) else identify use_case request now m)
          (check_and_record use_case t (dedup_key request) w) known)

  -- Over a guard that keeps its promises: after a delivery that passes the checks, with a key that is
  -- new, a second delivery with the same key raises IdempotencyConflictError until the time to live
  -- has passed. This holds whatever came of the first one, a message or an error, whatever was
  -- delivered in between and no later, and whatever the other ports hold by then, if the second one
  -- passes the checks.
  pub second_is_duplicate :
      (first second : Delivery) (between : List Delivery) (w v : World use_case)
      → Passes first.request
      → Passes second.request
      → dedup_key second.request ≡ dedup_key first.request
      → held w.guard first.time (dedup_key first.request) ≡ false
      → first.time ≤ second.time
      → second.time < first.time + seconds use_case.dedup_ttl_seconds
      → All (λ d. d.time ≤ second.time) between
      → v.guard ≡ (serve use_case between (handle use_case first w).1).guard
      → (handle use_case second v).0 ≡ raise (duplicate second.request)
  second_is_duplicate first second between w v passes passes' key fresh order soon times guard =
      let kept =
        serve-held between (handle use_case first w).1 second.time (dedup_key first.request) times
          (handle-held first w second.time passes fresh order soon) in
      ap (λ p. p.0) (execute-deduplicate use_case second.time second.request second.now v passes')
      ∙ deduplicate_held second.time second.request second.now _ _ (rw (key, guard) kept)
