-- ===== src/Tests/Gateway.antt =====
-- Webhooks: domain/gateway, application/use_cases/verify_webhook.py and the Redis guard.
use edge_copilot_backend.Prelude.{
  ◌+◌, ℕ, String, Bool, true, false, List, [], ◌∷◌, ◌≡◌, refl, arith, ◌↔◌, ◌⊎◌, ◌<>◌,
}
use edge_copilot_backend.Prelude.Text.{drop_prefix, is_ascii}
use edge_copilot_backend.Values.{DateTime, seconds}
use edge_copilot_backend.Errors.{ok, raise, type_error}
use edge_copilot_backend.Time.{distance}
use edge_copilot_backend.Gateway.{
  Digest, sha256, sha1, default_config, accepted, rejected, signature_prefix,
  verify_webhook_signature, validate_webhook_envelope, WebhookValidationResult,
}
use edge_copilot_backend.Gateway.Signature.{
  IsHexDigest, verify_webhook_signature_iff, verify_webhook_signature_raises,
}
use edge_copilot_backend.Gateway.Envelope.{EnvelopeFits, validate_webhook_envelope_iff}
use edge_copilot_backend.Ports.Laws.{Remembers}
use edge_copilot_backend.Redis.{RedisReplayGuard, check_and_record}
use edge_copilot_backend.Redis.Guard.{RedisReplayGuard-Remembers}
use edge_copilot_backend.Webhook.{
  VerifyWebhook, VerifyWebhookRequest, GuardState, default_replay_ttl_seconds, execute,
}
use edge_copilot_backend.Webhook.Steps.{IsGenuine}
use edge_copilot_backend.Webhook.Acceptance.{execute-valid_iff}
use edge_copilot_backend.Webhook.Replay.{Delivery, answer_to, serve, no_replay, replay_accepted}
use edge_copilot_backend.Tasks.{Pool, turn, turns, here, Reach-turns}
use edge_copilot_backend.Webhook.Tasks.{Place, ended, segment, advance}
use edge_copilot_backend.Webhook.Tasks.Exclusion.{run_task, opening, accepted_once}
use edge_copilot_backend.Tests.RedisModel.{alive, expiry, redis_model, redis_model-SetsOnce}

-- A stand-in for `hmac`.
abbrev toy_digest : Digest
toy_digest algorithm secret payload = "0a1b"

toy_digest-IsHexDigest : IsHexDigest toy_digest
unfolding is_ascii drop_prefix
toy_digest-IsHexDigest = record {
  ascii = λ a secret payload. refl;
  no_prefix = elim [ sha256 ↦ λ secret payload. refl | sha1 ↦ λ secret payload. refl ];
}

verify_webhook_signature_iff_example :
    (b : Bool) × (verify_webhook_signature toy_digest (1 ∷ []) "sha256=0a1b" "s" sha256 ≡ ok b)
    × ((b ≡ true) ↔ (
        (◌≡◌ {A = String} "sha256=0a1b" "0a1b")
        ⊎ ("sha256=0a1b" ≡ signature_prefix sha256 <> "0a1b")))
unfolding is_ascii
verify_webhook_signature_iff_example =
    verify_webhook_signature_iff toy_digest toy_digest-IsHexDigest (1 ∷ []) "sha256=0a1b" "s" sha256
      refl

verify_webhook_signature_raises_example :
    verify_webhook_signature toy_digest (1 ∷ []) "é" "s" sha256 ≡ raise type_error
unfolding is_ascii
verify_webhook_signature_raises_example =
    verify_webhook_signature_raises toy_digest toy_digest-IsHexDigest (1 ∷ []) "é" "s" sha256 refl

abbrev pub at : ℕ → DateTime
at n = record { aware = true; instant = seconds n }

validate_webhook_envelope_iff_example :
    (r : WebhookValidationResult) × (validate_webhook_envelope (at 1000) (at 1300) 10 default_config
      ≡ ok r)
    × ((r.valid ≡ true) ↔ EnvelopeFits (at 1000) (at 1300) 10 default_config)
validate_webhook_envelope_iff_example =
    validate_webhook_envelope_iff (at 1000) (at 1300) 10 default_config refl refl

RedisReplayGuard-Remembers_example : Remembers (RedisReplayGuard redis_model) alive 300
RedisReplayGuard-Remembers_example =
    RedisReplayGuard-Remembers redis_model expiry 300 redis_model-SetsOnce (omega arith)

-- The use case with its defaults, and with a time to live that is long enough.
abbrev pub with_defaults : VerifyWebhook
with_defaults = record {
  digest = toy_digest;
  replay_guard = RedisReplayGuard redis_model;
  config = default_config;
  replay_ttl_seconds = default_replay_ttl_seconds;
}

abbrev with_long_ttl : VerifyWebhook
with_long_ttl = record with_defaults { replay_ttl_seconds = 603 }

abbrev pub webhook : VerifyWebhookRequest
webhook = record {
  payload = 1 ∷ 2 ∷ [];
  provided_signature = "sha256=0a1b";
  secret = "s";
  event_timestamp = at 1000;
  replay_key = "k";
  algorithm = sha256;
}

abbrev pub delivery : ℕ → Delivery
delivery n = record { request = webhook; now = at n; time = seconds (n + 1) }

abbrev pub law : Remembers (RedisReplayGuard redis_model) alive 300
law = RedisReplayGuard-Remembers redis_model expiry 300 redis_model-SetsOnce (omega arith)

abbrev long_law : Remembers (RedisReplayGuard redis_model) alive 603
long_law = RedisReplayGuard-Remembers redis_model expiry 603 redis_model-SetsOnce (omega arith)

replay_accepted_example :
    ((answer_to with_defaults (delivery 1000) []).0 ≡ ok accepted)
    × ((answer_to with_defaults (delivery 1300) (answer_to with_defaults (delivery 1000) []).1).0
        ≡ ok accepted)
unfolding is_ascii drop_prefix verify_webhook_signature
replay_accepted_example =
    replay_accepted with_defaults alive law [] (delivery 1000) refl refl refl (omega arith) refl
      (omega arith) (omega arith)

execute-valid_iff_example :
    ((answer : WebhookValidationResult) × ((execute with_defaults 1000000000 webhook (at 1000) []).0
        ≡ ok answer)
      × (answer.valid ≡ true))
    ↔ (IsGenuine with_defaults alive law webhook
        × EnvelopeFits (at 1000) (at 1000) 2 default_config
        × (alive [] 1000000000 "k" ≡ false))
execute-valid_iff_example =
    execute-valid_iff with_defaults alive law [] 1000000000 webhook (at 1000) refl refl

abbrev after_first : List (String × ℕ)
after_first = (answer_to with_long_ttl (delivery 1000) []).1

replayed :
    (answer_to with_long_ttl
      (delivery 1300)
      (serve with_long_ttl (delivery 1200 ∷ []) after_first)).0
    ≡ ok (rejected "replay_detected")
unfolding is_ascii drop_prefix verify_webhook_signature execute serve check_and_record
    validate_webhook_envelope distance
replayed = refl

first_accepted : (answer_to with_long_ttl (delivery 1000) []).0 ≡ ok accepted
unfolding is_ascii drop_prefix verify_webhook_signature execute serve check_and_record
    validate_webhook_envelope distance
first_accepted = refl

no_replay_example : (rejected "replay_detected").valid ≡ false
no_replay_example =
    no_replay with_long_ttl alive long_law [] (delivery 1000) (delivery 1300) (delivery 1200 ∷ [])
      accepted (rejected "replay_detected") (seconds 2) (omega arith) refl refl refl (omega arith)
      (omega arith) (omega arith) (omega arith, tt) refl refl first_accepted refl replayed

-- Every task handles one and the same webhook; task 0 gets past the guard, and task 1 does not.
abbrev step_of : ℕ → ℕ → Place → GuardState with_long_ttl → Place × GuardState with_long_ttl
step_of = run_task with_long_ttl (λ i. webhook) (λ i. at 1000)

abbrev two_handled : Pool Place (GuardState with_long_ttl)
two_handled =
    turns step_of (0 ∷ 1 ∷ 0 ∷ 1 ∷ [])
      (opening with_long_ttl (λ i. webhook) (λ i. at 1000) 1000000000 [])

accepted_once_example : ◌≡◌ {A = ℕ} 0 0
unfolding turns turn advance segment is_ascii drop_prefix verify_webhook_signature check_and_record
    validate_webhook_envelope distance
accepted_once_example =
    accepted_once with_long_ttl (λ i. webhook) (λ i. at 1000) alive long_law 1000000000 []
      two_handled 0 0 (Reach-turns step_of (0 ∷ 1 ∷ 0 ∷ 1 ∷ []) here) (omega arith) refl refl refl

second_refused : two_handled.place 1 ≡ ended (ok (rejected "replay_detected"))
unfolding turns turn advance segment is_ascii drop_prefix verify_webhook_signature check_and_record
    validate_webhook_envelope distance
second_refused = refl
