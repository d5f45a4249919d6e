-- ===== src/Keycloak.antt =====
-- infrastructure/identity/keycloak_identity_provider.py
pub mod Verification
pub mod Rotation
pub mod Strength
pub mod Tasks
use edge_copilot_backend.Prelude.{
  ℕ, ◌+◌, String, Bool, true, false, not, ◌||◌, ◌&&◌, ◌<>◌, Option, none, some, List, [], ◌∷◌, ◌==◌,
  ltb, if◌then◌else◌,
}
use edge_copilot_backend.Prelude.Text.{truthy}
use edge_copilot_backend.Values.{
  Value, null, bool, num, text, date, items, dict, Items, nil, cons, Fields, end, field, get,
  truthy_value,
}
use edge_copilot_backend.Errors
use edge_copilot_backend.Errors.{
  Exception, Result, ok, raise, domain, domain_error_init, authorization_error,
}
use edge_copilot_backend.Exec.{Exec, from, return, ◌>>=◌, ◌>>◌}
use edge_copilot_backend.Security.{AuthenticationStrength}
use edge_copilot_backend.Ports.{AuthenticatedIdentity}

-- A signing key of the realm, as far as this code reads it: `key.get("kid")`, `key.get("alg")`, and
-- the rest, which goes to jose.
pub record Jwk : Type 0 where
  pub kid : Option String
  pub alg : Option String
  pub material : Fields

-- What a call of jose ends in: a value, or a JOSEError with its message.
pub data JoseResult (A : Type 0) : Type 0 where
  jose_error : String → JoseResult A
  returned : A → JoseResult A

-- python-jose: the `kid` of an unverified header, and `jwt.decode` of a token at a time, with a key,
-- an algorithm, an audience and an issuer.
pub record Jose : Type 0 where
  pub unverified_kid : String → JoseResult (Option String)
  pub decode : ℕ → String → Jwk → String → String → String → JoseResult Fields

-- The HTTP client: `get(uri)`, `raise_for_status()` and the keys of the document that is answered,
-- where it has any; each of these may raise.
pub record HttpClient : Type 1 where
  pub State : Type 0
  pub get_keys : State → String → Result (Option (List Jwk)) × State

pub record CachedJwks : Type 0 where
  pub keys : List Jwk
  pub fetched_at : ℕ

-- The object, less its cache. `issuer_url` is stripped of slashes at its end; the time to live is in
-- the units of the clock.
pub record KeycloakIdentityProvider : Type 1 where
  pub jose : Jose
  pub http_client : HttpClient
  pub issuer_url : String
  pub audience : String
  pub jwks_cache_ttl : ℕ

abbrev pub denied : String → Exception
denied message = domain (domain_error_init authorization_error message none)

-- `claims.get(key)`, with `null` for a missing key
abbrev or_null : Option Value → Value
or_null none = null
or_null (some v) = v

unfoldable pub claim : String → Fields → Value
unfolding get
claim key claims = or_null (get key claims)

-- `a or b`
abbrev pub or_value : Value → Value → Value
or_value a b = if truthy_value a then a else b

-- `_MFA_ACR_MARKERS`; the text of no other kind of value is one of them.
abbrev pub is_mfa_marker : Value → Bool
is_mfa_marker (text t) = (t == "mfa") || (t == "urn:mace:incommon:iap:silver")
is_mfa_marker _ = false

abbrev pub is_mfa : Value → Bool
is_mfa (text t) = t == "mfa"
is_mfa _ = false

abbrev pub lists_mfa : Items → Bool
lists_mfa nil = false
lists_mfa (cons v rest) = is_mfa v || lists_mfa rest

-- `isinstance(amr, list) and "mfa" in amr`
abbrev pub amr_has_mfa : Value → Bool
amr_has_mfa (items vs) = lists_mfa vs
amr_has_mfa _ = false

-- `_authentication_strength(claims)`
unfoldable pub authentication_strength_of : Fields → AuthenticationStrength
unfolding claim
authentication_strength_of claims =
    if is_mfa_marker (claim "acr" claims) || amr_has_mfa (claim "amr" claims)
    then AuthenticationStrength.mfa
    else if truthy_value (claim "client_id" claims)
        && not (truthy_value (claim "preferred_username" claims))
    then AuthenticationStrength.service_account
    else AuthenticationStrength.password

-- `key.get("kid") == kid`
abbrev pub has_kid : String → Jwk → Bool
has_kid kid key = elim key.kid [ none ↦ false | some own ↦ own == kid ]

-- The loop over the keys.
unfoldable pub find_key : String → List Jwk → Option Jwk
find_key kid [] = none
find_key kid (key ∷ jwks) =
    let rest = find_key kid jwks in if has_kid kid key then some key else rest

abbrev pub keys_or_empty : Option (List Jwk) → List Jwk
keys_or_empty none = []
keys_or_empty (some keys) = keys

abbrev pub algorithm_of : Option String → String
algorithm_of none = "RS256"
algorithm_of (some alg) = alg

-- `except JOSEError as exc: raise AuthorizationError(...)`
abbrev pub or_denied : {A : Type 0} → (String → String) → JoseResult A → Result A
or_denied message (jose_error e) = raise (denied (message e))
or_denied message (returned a) = ok a

abbrev pub or_missing : {A : Type 0} → String → Option A → Result A
or_missing message none = raise (denied message)
or_missing message (some a) = ok a

abbrev pub filled : String → Value → Result Value
filled message value = if not (truthy_value value) then raise (denied message) else ok value

module _ (provider : KeycloakIdentityProvider) where
  pub record ProviderState : Type 0 where
    pub http : provider.http_client.State
    pub cache : Option CachedJwks

  abbrev pub jwks_uri : String
  jwks_uri = provider.issuer_url <> "/protocol/openid-connect/certs"

  -- The request for the keys, at a time of the clock; they are cached.
  unfoldable pub fetch_jwks : ℕ → Exec ProviderState (List Jwk)
  fetch_jwks now = do
    keys ← λ s.
        let (r, http) = provider.http_client.get_keys s.http jwks_uri in
        (r, record s { http = http })
    (λ s. (
      ok (tt {0}),
      record s { cache = some (record { keys = keys_or_empty keys; fetched_at = now }) },
    ))
    return (keys_or_empty keys)

  abbrev pub from_cache : ℕ → Option CachedJwks → Exec ProviderState (List Jwk)
  from_cache now none = fetch_jwks now
  from_cache now (some cache) =
      if ltb now (cache.fetched_at + provider.jwks_cache_ttl)
      then return cache.keys
      else fetch_jwks now

  -- `_get_jwks(force_refresh=...)`
  unfoldable pub get_jwks : ℕ → Bool → Exec ProviderState (List Jwk)
  get_jwks now force_refresh s =
      if force_refresh then fetch_jwks now s else from_cache now s.cache s

  abbrev pub or_refetch : ℕ → String → Option Jwk → Exec ProviderState (Option Jwk)
  or_refetch now kid (some key) = return (some key)
  or_refetch now kid none = do jwks ← get_jwks now true; return (find_key kid jwks)

  -- `_resolve_key(kid)`
  unfoldable pub resolve_key : ℕ → String → Exec ProviderState (Option Jwk)
  resolve_key now kid = do jwks ← get_jwks now false; or_refetch now kid (find_key kid jwks)

  abbrev pub identity_of : Fields → Value → Value → AuthenticatedIdentity
  identity_of claims user_id session_id = record {
    user_id = user_id;
    authentication_strength = authentication_strength_of claims;
    session_id = session_id;
    raw_claims = claims;
  }

  -- The checks of the claims, after the token is decoded.
  unfoldable pub identity_from : Fields → Result AuthenticatedIdentity
  identity_from claims =
      Errors.◌>>=◌ (filled "Bearer token is missing a subject (sub) claim." (claim "sub" claims))
        λ user_id.
          Errors.◌>>=◌
            (filled "Bearer token is missing a session identifier."
              (or_value (claim "sid" claims) (claim "session_state" claims)))
            λ session_id. ok (identity_of claims user_id session_id)

  -- `verify_token(bearer_token)`, at one time of the clocks.
  unfoldable pub verify_token : ℕ → String → Exec ProviderState AuthenticatedIdentity
  verify_token now bearer_token = do
    header ←
        from
          (or_denied (λ e. "Malformed bearer token.") (provider.jose.unverified_kid bearer_token))
    kid ← from (or_missing "Bearer token is missing a key ID (kid)." header)
    found ← resolve_key now kid
    key ← from (or_missing "Bearer token key ID does not match any known signing key." found)
    claims ← from (
        or_denied (λ e. "Bearer token failed verification: " <> e)
          (provider.jose.decode now bearer_token key (algorithm_of key.alg) provider.audience
            provider.issuer_url))
    from (identity_from claims)
