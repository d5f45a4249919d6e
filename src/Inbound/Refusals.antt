-- ===== src/Inbound/Refusals.antt =====
-- What application/use_cases/process_inbound_message.py refuses, and what it leaves behind then.
use edge_copilot_backend.Prelude.{
  ℕ, Bool, true, false, Option, none, some, ◌≡◌, ◌⊎◌, inl, inr, refl, ◌∙◌, Bool-cases, not,
  if◌then◌else◌,
}
use edge_copilot_backend.Prelude.Text.{strip, truthy}
use edge_copilot_backend.Values.{DateTime}
use edge_copilot_backend.Errors.{Result, ok, raise, domain, DomainError, validation_error}
use edge_copilot_backend.Exec.{throw, resume_ok}
use edge_copilot_backend.Gateway.{WebhookValidationResult}
use edge_copilot_backend.Message.{Message}
use edge_copilot_backend.Inbound.{
  ProcessInboundMessageRequest, ProcessInboundMessage, World, execute, deduplicate, identify,
  authenticate_source, validate_content, dedup_key, duplicate, unknown_sender, check_and_record,
}
use edge_copilot_backend.Inbound.Steps.{
  SourceAccepted, Passes, execute-deduplicate, authenticate_source_lem, validated_message, numbered,
  message_id,
}
use edge_copilot_backend.Inbound.Handling.{checked}

-- The call raises a ValidationError.
abbrev pub Invalid : {A : Type 0} → Result A → Type 0
Invalid r = (d : DomainError) × (r ≡ raise (domain d)) × (d.kind ≡ validation_error)

-- A guard clause that fires.
fires :
    (d : DomainError) (b : Bool)
    → d.kind ≡ validation_error
    → b ≡ false
    → Invalid (if not b then raise (domain d) else ok (tt {0}))
fires d b kind h = (d, rw h refl, kind)

source_cases :
    (v : Option WebhookValidationResult) → SourceAccepted v ⊎ Invalid (authenticate_source v)
unfolding authenticate_source
source_cases none = inl tt
source_cases (some validation) = elim (Bool-cases validation.valid) [
  | inl yes' ↦ inl yes'
  | inr no' ↦ inr (fires _ _ refl no')
]

content_cases :
    (request : ProcessInboundMessageRequest)
    → (truthy (strip request.content) ≡ true) ⊎ Invalid (validate_content request.content)
unfolding validate_content
content_cases request = elim (Bool-cases (truthy (strip request.content))) [
  | inl yes' ↦ inl yes'
  | inr no' ↦ inr (fires _ _ refl no')
]

module _ (use_case : ProcessInboundMessage) (t : ℕ) (request : ProcessInboundMessageRequest)
    (now : DateTime) (w : World use_case) where
  -- A request either passes the checks of source and content, or raises ValidationError without
  -- touching a port: no id is drawn, no key recorded, no conversation looked for.
  checks_first :
      Passes request
      ⊎ ((d : DomainError) × (execute use_case t request now w ≡ (raise (domain d), w))
          × (d.kind ≡ validation_error))
  unfolding execute
  checks_first = elim (source_cases request.webhook_validation) [
    | inr (d, raised, kind) ↦ inr (d, rw raised refl, kind)
    | inl source ↦ elim (content_cases request) [
      | inl content ↦ inl (source, content)
      | inr (d, raised, kind) ↦
          inr (d, rw (authenticate_source_lem request.webhook_validation source, raised) refl, kind)
    ]
  ]

  unidentified :
      (m : Message) (v : World use_case)
      → use_case.channel_identity_repository.find_by_provider_subject v.identities request.channel
          request.provider request.provider_subject_id
        ≡ ok none
      → identify use_case request now m v ≡ (raise (unknown_sender request), v)
  unfolding identify
  unidentified m v absent = rw absent refl

  deduplicate_first :
      (m : Message) (v : World use_case)
      → (check_and_record use_case t (dedup_key request) v).0 ≡ ok true
      → deduplicate use_case t request now m v
        ≡ identify use_case request now m (check_and_record use_case t (dedup_key request) v).1
  unfolding deduplicate
  deduplicate_first m v first =
      resume_ok
        (λ is_first.
          if not is_first then throw (duplicate request) else identify use_case request now m)
        (check_and_record use_case t (dedup_key request) v) first

  -- A first delivery that passes the checks, from a sender that the repository does not know, raises
  -- UnknownChannelIdentityError. Of the ports, the generator has given an id and the guard has
  -- recorded the key; no identity is made, and no conversation.
  pub unknown_sender_lem :
      Passes request
      → (check_and_record use_case t (dedup_key request) w).0 ≡ ok true
      → use_case.channel_identity_repository.find_by_provider_subject w.identities request.channel
          request.provider request.provider_subject_id
        ≡ ok none
      → execute use_case t request now w
        ≡ (raise (unknown_sender request), checked use_case t request now w)
  unknown_sender_lem passes first absent =
      execute-deduplicate use_case t request now w passes
      ∙ deduplicate_first (validated_message request (message_id use_case t request now w))
          (numbered use_case t request now w) first
      ∙ unidentified _ (checked use_case t request now w) absent
