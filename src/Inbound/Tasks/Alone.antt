-- ===== src/Inbound/Tasks/Alone.antt =====
-- A task that runs with no other in between does what `execute` does.
use edge_copilot_backend.Prelude.{
  ℕ, suc, ◌≤◌, Bool, true, false, not, if◌then◌else◌, Option, none, some, ◌≡◌, refl, arith, inl,
  inr,
}
use edge_copilot_backend.Values.{DateTime}
use edge_copilot_backend.Errors.{Result, ok, raise, Result-cases}
use edge_copilot_backend.Exec.{Exec, from, return, throw, resume, ◌>>=◌, ◌>>◌}
use edge_copilot_backend.Conversation
use edge_copilot_backend.Conversation.{Conversation, ConversationState}
use edge_copilot_backend.Message
use edge_copilot_backend.Message.{Message, MessageState}
use edge_copilot_backend.Inbound.{
  ProcessInboundMessageRequest, ProcessInboundMessageResult, ProcessInboundMessage, World, new_id,
  check_and_record, find_by_provider_subject, find_active, save, authenticate_source,
  validate_content, received_message, dedup_key, duplicate, identified_sender, created_conversation,
  in_conversation, execute, deduplicate, identify, contextualize, start_conversation,
}
use edge_copilot_backend.Tasks.Alone.{Lands, resume-Lands, alone, alone_lem}
use edge_copilot_backend.Inbound.Steps.{activates, validates, message_id}
use edge_copilot_backend.Inbound.Tasks.{
  Place, arrived, deduplicating, identifying, seeking, saving, ended, conclude, found_active,
  segment,
}

module _ (use_case : ProcessInboundMessage) (t : ℕ) (request : ProcessInboundMessageRequest)
    (now : DateTime) where
  abbrev concluded : Message → Conversation → Exec (World use_case) ProcessInboundMessageResult
  concluded message conversation = do
    final ←
        from
          (Message.transition_to (in_conversation message conversation) MessageState.contextualized)
    return (record { message = final; conversation = conversation })

  -- What is left of `execute` at a place.
  abbrev remaining : Place → Exec (World use_case) ProcessInboundMessageResult
  remaining arrived = execute use_case t request now
  remaining (deduplicating message) = deduplicate use_case t request now message
  remaining (identifying message) = identify use_case request now message
  remaining (seeking message sender) = contextualize use_case request now message sender
  remaining (saving message conversation) =
      save use_case conversation >> concluded message conversation
  remaining (ended result) = from result

  conclude-remaining :
      (message : Message) (conversation : Conversation) (w : World use_case)
      → concluded message conversation w
        ≡ resume remaining (conclude use_case message conversation w)
  conclude-remaining message conversation w =
      elim (Result-cases (
        Message.transition_to (in_conversation message conversation) MessageState.contextualized)) [
          | inl (final, h) ↦ rw h refl
          | inr (e, h) ↦ rw h refl
        ]

  saved :
      (message : Message) (c : Conversation) (p : Result (Unit {0}) × World use_case)
      → resume (concluded message) (resume (λ _. return c) p) ≡ resume (λ _. concluded message c) p
  saved message c (ok _, v) = refl
  saved message c (raise e, v) = refl

  started :
      (message : Message) (v : World use_case)
      → (start_conversation use_case request now >>= concluded message) v
        ≡ resume remaining (found_active use_case request now message none v)
  unfolding start_conversation
  started message v =
      let id = (use_case.id_generator.new_id v.ids).0 in
      rw (activates (created_conversation request now id) now refl) (saved message _ _)

  -- One segment of a task leaves what the segment left out.
  segment-remaining :
      (place : Place) (w : World use_case)
      → remaining place w ≡ resume remaining (segment use_case request now t place w)
  unfolding segment execute deduplicate identify contextualize
  segment-remaining arrived w =
      elim (Result-cases (authenticate_source request.webhook_validation)) [
        | inr (e, h) ↦ rw h refl
        | inl (_, h) ↦ elim (Result-cases (validate_content request.content)) [
          | inr (e, k) ↦ rw (h, k) refl
          | inl (_, k) ↦
              rw
                (
                  h,
                  k,
                  validates (received_message request (message_id use_case t request now w)) refl,
                )
                refl
        ]
      ]
  segment-remaining (deduplicating message) w =
      elim (Result-cases (check_and_record use_case t (dedup_key request) w).0) [
        | inr (e, h) ↦ rw h refl
        | inl (true, h) ↦ rw h refl
        | inl (false, h) ↦ rw h refl
      ]
  segment-remaining (identifying message) w =
      elim (Result-cases (find_by_provider_subject use_case request w).0) [
        | inr (e, h) ↦ rw h refl
        | inl (none, h) ↦ rw h refl
        | inl (some sender, h) ↦
            elim (Result-cases (Message.transition_to message MessageState.identified)) [
              | inr (e, k) ↦ rw (h, k) refl
              | inl (known, k) ↦ rw (h, k) refl
            ]
      ]
  segment-remaining (seeking message sender) w =
      elim (Result-cases (find_active use_case sender.channel_identity_id w).0) [
        | inr (e, h) ↦ rw h refl
        | inl (none, h) ↦ rw h (started message w)
        | inl (some c, h) ↦ rw h (conclude-remaining message c w)
      ]
  segment-remaining (saving message conversation) w =
      elim (Result-cases (save use_case conversation w).0) [
        | inr (e, h) ↦ rw h refl
        | inl (_, h) ↦
            rw h (conclude-remaining message conversation (save use_case conversation w).1)
      ]
  segment-remaining (ended result) w = refl

  -- How many segments are left at most.
  abbrev left : Place → ℕ
  left arrived = 5
  left (deduplicating _) = 4
  left (identifying _) = 3
  left (seeking _ _) = 2
  left (saving _ _) = 1
  left (ended _) = 0

  -- Where a call can lead.
  abbrev Leads : ℕ → Result Place × World use_case → Type 0
  Leads n = Lands ended (λ q. left q ≤ n)

  resume-Leads :
      {A : Type 0} (n : ℕ) (f : A → Exec (World use_case) Place) (p : Result A × World use_case)
      → ((a : A) → Leads n (f a p.1))
      → Leads n (resume f p)
  resume-Leads n f p = resume-Lands ended (λ q. left q ≤ n) f p (λ e. omega arith)

  conclude-Leads :
      (n : ℕ) (message : Message) (c : Conversation) (w : World use_case)
      → Leads n (conclude use_case message c w)
  conclude-Leads n message c w =
      resume-Leads n _
        (Message.transition_to (in_conversation message c) MessageState.contextualized, w)
        (λ final. omega arith)

  -- Each segment comes nearer to the end.
  segment-Leads :
      (n : ℕ) (place : Place) (w : World use_case)
      → left place ≤ suc n
      → Leads n (segment use_case request now t place w)
  unfolding segment
  segment-Leads n arrived w h =
      resume-Leads n _ (authenticate_source request.webhook_validation, w)
        (λ _.
          resume-Leads n _ (validate_content request.content, w)
            (λ _.
              resume-Leads n _
                (
                  Message.transition_to
                      (received_message request (message_id use_case t request now w))
                      MessageState.validated,
                  (new_id use_case w).1,
                )
                (λ message. omega (arith, h))))
  segment-Leads n (deduplicating message) w h =
      resume-Leads n _ (check_and_record use_case t (dedup_key request) w)
        (λ first. after_guard first _)
    where
      after_guard :
          (first : Bool) (v : World use_case)
          → Leads n
              ((if not first then throw (duplicate request) else return (identifying message)) v)
      after_guard true v = omega (arith, h)
      after_guard false v = omega arith
  segment-Leads n (identifying message) w h =
      resume-Leads n _ (find_by_provider_subject use_case request w) (λ found.
        resume-Leads n _ (identified_sender request found, w)
          (λ sender.
            resume-Leads n _ (Message.transition_to message MessageState.identified, w)
              (λ known. omega (arith, h))))
  segment-Leads n (seeking message sender) w h =
      resume-Leads n _ (find_active use_case sender.channel_identity_id w)
        (λ found. when_found found)
    where
      when_found :
          (found : Option Conversation)
          → Leads n (found_active use_case request now message found w)
      when_found (some c) = conclude-Leads n message c w
      when_found none =
          resume-Leads n _
            (
              Conversation.transition_to
                  (created_conversation request now (message_id use_case t request now w))
                  ConversationState.active now,
              (new_id use_case w).1,
            )
            (λ c. omega (arith, h))
  segment-Leads n (saving message c) w h =
      resume-Leads n _ (save use_case c w) (λ _. conclude-Leads n message c (save use_case c w).1)
  segment-Leads n (ended result) w h = omega arith

  left_none :
      (place : Place)
      → left place ≡ 0
      → (r : Result ProcessInboundMessageResult) × (place ≡ ended r)
  left_none (ended r) h = (r, refl)
  left_none _ h = ground arith

  -- A task that no other interrupts comes to its end in at most five segments, with the outcome and
  -- the state of the ports that `execute` has.
  alone-execute :
      (w : World use_case)
      → alone ended (segment use_case request now t) 5 (arrived, w)
        ≡ (ended (execute use_case t request now w).0, (execute use_case t request now w).1)
  alone-execute w =
      alone_lem ended (segment use_case request now t) remaining left (λ r v. refl)
        segment-remaining segment-Leads left_none 5 arrived w (omega arith)
