-- ===== src/Gateway.antt =====
-- domain/gateway/: the signature and the envelope of a webhook.
pub mod Signature
pub mod Envelope
use edge_copilot_backend.Prelude.{
  ℕ, ◌*◌, String, ◌<>◌, Bool, true, false, Option, none, some, List, ◌&&◌, ◌==◌, ltb, if◌then◌else◌,
}
use edge_copilot_backend.Prelude.Text.{drop_prefix, is_ascii}
use edge_copilot_backend.Values.{DateTime, seconds}
use edge_copilot_backend.Errors.{Result, ok, raise, type_error, ◌>>=◌}
use edge_copilot_backend.Time.{distance}

-- A `bytes` value.
abbrev pub Bytes : Type 0
Bytes = List ℕ

pub data Algorithm : Type 0 where
  sha256 sha1 : Algorithm

-- The members of the `Literal` type are strings.
abbrev pub algorithm_name : Algorithm → String
algorithm_name sha256 = "sha256"
algorithm_name sha1 = "sha1"

-- What `hmac.new(secret.encode("utf-8"), payload, hash_func).hexdigest()` computes, for the hash
-- function of an algorithm: `digest algorithm secret payload`.
abbrev pub Digest : Type 0
Digest = Algorithm → String → Bytes → String

-- `hmac.compare_digest` on texts, which it accepts only if both are ASCII.
unfoldable pub compare_digest : String → String → Result Bool
compare_digest a b = if is_ascii a && is_ascii b then ok (a == b) else raise type_error

abbrev pub signature_prefix : Algorithm → String
signature_prefix algorithm = algorithm_name algorithm <> "="

-- The candidate: what is provided, less the prefix if it has it.
abbrev pub candidate_of : Option String → String → String
candidate_of none provided_signature = provided_signature
candidate_of (some rest) provided_signature = rest

unfoldable pub verify_webhook_signature : Digest → Bytes → String → String → Algorithm → Result Bool
unfolding compare_digest
verify_webhook_signature digest payload provided_signature secret algorithm =
    let prefix = signature_prefix algorithm in
    let candidate = candidate_of (drop_prefix prefix provided_signature) provided_signature in
    compare_digest (digest algorithm secret payload) candidate

-- `max_clock_skew` is in microseconds.
pub record WebhookSecurityConfig : Type 0 where
  pub max_clock_skew : ℕ
  pub max_payload_bytes : ℕ

-- The defaults of the fields.
abbrev pub default_config : WebhookSecurityConfig
default_config = record { max_clock_skew = seconds 300; max_payload_bytes = 1000000 }

pub record WebhookValidationResult : Type 0 where
  pub valid : Bool
  pub reason : String

-- `WebhookValidationResult(False, reason)`
abbrev pub rejected : String → WebhookValidationResult
rejected reason = record { valid = false; reason = reason }

-- `WebhookValidationResult(True, "valid")`
abbrev pub accepted : WebhookValidationResult
accepted = record { valid = true; reason = "valid" }

unfoldable pub validate_webhook_envelope :
    DateTime → DateTime → ℕ → WebhookSecurityConfig → Result WebhookValidationResult
validate_webhook_envelope event_timestamp now payload_size_bytes config = do
  skew ← distance now event_timestamp
  ok (
      if ltb config.max_clock_skew skew
      then rejected "timestamp_out_of_tolerance"
      else if ltb config.max_payload_bytes payload_size_bytes
      then rejected "payload_too_large"
      else accepted)
