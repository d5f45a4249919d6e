-- ===== src/Gateway/Signature.antt =====
-- Which signatures domain/gateway/webhook_signature.py accepts.
use edge_copilot_backend.Prelude.{
  String, ◌<>◌, Bool, true, false, none, ◌≡◌, ◌↔◌, ◌⊎◌, refl, ◌==◌, eq_iff, ◌&&◌, Option-cases, inl,
  inr, sym, ◌∙◌, ap,
}
use edge_copilot_backend.Prelude.Text.{
  drop_prefix, drop_prefix-append, drop_prefix-eq-some, is_ascii, is_ascii-append,
}
use edge_copilot_backend.Errors.{ok, raise, type_error}
use edge_copilot_backend.Gateway.{
  Algorithm, sha256, sha1, Digest, Bytes, signature_prefix, candidate_of, verify_webhook_signature,
}

-- What the digests of `hashlib` are: ASCII texts that do not begin with the name of an algorithm
-- and "=", as hexadecimal digits do not.
pub record IsHexDigest (digest : Digest) : Type 0 where
  pub ascii :
      (a : Algorithm) (secret : String) (payload : Bytes)
      → is_ascii (digest a secret payload) ≡ true
  pub no_prefix :
      (a : Algorithm) (secret : String) (payload : Bytes)
      → drop_prefix (signature_prefix a) (digest a secret payload) ≡ none

prefix_ascii : (a : Algorithm) → is_ascii (signature_prefix a) ≡ true
unfolding is_ascii
prefix_ascii sha256 = refl
prefix_ascii sha1 = refl

module _ (digest : Digest) (hex : IsHexDigest digest) (payload : Bytes) (provided secret : String)
    (algorithm : Algorithm) where
  -- The candidate that is compared is ASCII exactly if what was provided is.
  candidate_ascii :
      is_ascii (candidate_of (drop_prefix (signature_prefix algorithm) provided) provided)
      ≡ is_ascii provided
  candidate_ascii = elim (Option-cases (drop_prefix (signature_prefix algorithm) provided)) [
    | inl bare ↦ rw bare
    | inr (rest, split) ↦
        let whole = drop_prefix-eq-some (signature_prefix algorithm) provided rest split in
        rw split (
          sym (
            ap is_ascii whole
            ∙ is_ascii-append (signature_prefix algorithm) rest
            ∙ ap (λ b. b && is_ascii rest) (prefix_ascii algorithm)))
  ]

  -- The candidate is the digest exactly if the digest was provided, bare or with its prefix.
  candidate_iff :
      (candidate_of (drop_prefix (signature_prefix algorithm) provided) provided
        ≡ digest algorithm secret payload)
      ↔ ((provided ≡ digest algorithm secret payload)
          ⊎ (provided ≡ signature_prefix algorithm <> digest algorithm secret payload))
  candidate_iff = (to, from)
    where
      prefix : String
      prefix = signature_prefix algorithm

      expected : String
      expected = digest algorithm secret payload

      to :
          candidate_of (drop_prefix prefix provided) provided ≡ expected
          → (provided ≡ expected) ⊎ (provided ≡ prefix <> expected)
      to h = elim (Option-cases (drop_prefix prefix provided)) [
        | inl bare ↦ inl (rw bare at h)
        | inr (rest, split) ↦
            let same' : rest ≡ expected = rw split at h in
            inr (drop_prefix-eq-some prefix provided rest split ∙ ap (λ t. prefix <> t) same')
      ]

      from :
          (provided ≡ expected) ⊎ (provided ≡ prefix <> expected)
          → candidate_of (drop_prefix prefix provided) provided ≡ expected
      from (inl bare) =
          ap (λ t. candidate_of (drop_prefix prefix t) t) bare
          ∙ ap (λ o. candidate_of o expected) (hex.no_prefix algorithm secret payload)
      from (inr whole) =
          ap (λ t. candidate_of (drop_prefix prefix t) t) whole
          ∙ ap (λ o. candidate_of o (prefix <> expected)) (drop_prefix-append prefix expected)

  -- A signature in ASCII is verified without an exception, and accepted exactly if it is the digest
  -- of the payload under the secret, bare or after the name of the algorithm and "=".
  pub verify_webhook_signature_iff :
      is_ascii provided ≡ true
      → (b : Bool) × (verify_webhook_signature digest payload provided secret algorithm ≡ ok b)
        × ((b ≡ true) ↔ (
            (provided ≡ digest algorithm secret payload)
            ⊎ (provided ≡ signature_prefix algorithm <> digest algorithm secret payload)))
  unfolding verify_webhook_signature
  verify_webhook_signature_iff plain =
      let candidate = candidate_of (drop_prefix (signature_prefix algorithm) provided) provided in
      let expected = digest algorithm secret payload in
      (
        expected == candidate,
        rw (hex.ascii algorithm secret payload, candidate_ascii, plain),
        (
          (λ e. candidate_iff.0 (sym ((eq_iff expected candidate).0 e))),
          (λ d. (eq_iff expected candidate).1 (sym (candidate_iff.1 d))),
        ),
      )

  -- A signature with a character outside ASCII raises a `TypeError`: it is not reported as invalid.
  pub verify_webhook_signature_raises :
      is_ascii provided ≡ false
      → verify_webhook_signature digest payload provided secret algorithm ≡ raise type_error
  unfolding verify_webhook_signature
  verify_webhook_signature_raises strange =
      rw (hex.ascii algorithm secret payload, candidate_ascii, strange)
