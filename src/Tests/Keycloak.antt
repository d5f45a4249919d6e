-- ===== src/Tests/Keycloak.antt =====
-- Bearer tokens: infrastructure/identity/keycloak_identity_provider.py.
use edge_copilot_backend.Prelude.{
  if◌then◌else◌, eqb, List, arith, ℕ, suc, none, some, [], ◌∷◌, ◌≡◌, ◌⊎◌, refl,
}
use edge_copilot_backend.Values.{text, Fields, end, field, get}
use edge_copilot_backend.Errors.{ok, raise, library_error}
use edge_copilot_backend.Security.{AuthenticationStrength}
use edge_copilot_backend.Ports.{AuthenticatedIdentity}
use edge_copilot_backend.Keycloak.{
  Jwk, Jose, HttpClient, KeycloakIdentityProvider, returned, ProviderState, verify_token,
  resolve_key, get_jwks, fetch_jwks, find_key, claim, identity_from, authentication_strength_of,
}
use edge_copilot_backend.Keycloak.Rotation.{Publishes, resolve_key_requests}
use edge_copilot_backend.Keycloak.Tasks.{asked, resolved}
use edge_copilot_backend.Keycloak.Tasks.Rotation.{TaskPool, serve, turns_of, found_together}
use edge_copilot_backend.Keycloak.Verification.{IsVerified, verify_token-IsVerified}

abbrev pub signing_key : Jwk
signing_key = record { kid = some "k"; alg = none; material = end }

abbrev pub token_claims : Fields
token_claims =
    field "sub" (text "u") (field "session_state" (text "s") (field "acr" (text "mfa") end))

abbrev pub toy_jose : Jose
toy_jose = record {
  unverified_kid = λ token. returned (some "k");
  decode = λ now token key alg audience issuer. returned token_claims;
}

abbrev pub answering : HttpClient
answering = record { State = ℕ; get_keys = λ n uri. (ok (some (signing_key ∷ [])), suc n) }

abbrev unreachable : HttpClient
unreachable = record { State = ℕ; get_keys = λ n uri. (raise (library_error "httpx"), suc n) }

abbrev pub with_client : HttpClient → KeycloakIdentityProvider
with_client client = record {
  jose = toy_jose;
  http_client = client;
  issuer_url = "https://idp/realms/okapi";
  audience = "okapi-copilot";
  jwks_cache_ttl = 600;
}

abbrev pub verified_user : AuthenticatedIdentity
verified_user = record {
  user_id = text "u";
  authentication_strength = AuthenticationStrength.mfa;
  session_id = text "s";
  raw_claims = token_claims;
}

verify_token-IsVerified_example :
    IsVerified (with_client answering) 5 "token" (record { http = 0; cache = none }) verified_user
unfolding verify_token resolve_key get_jwks fetch_jwks find_key claim get identity_from
    authentication_strength_of
verify_token-IsVerified_example =
    verify_token-IsVerified (with_client answering) 5 "token" (record { http = 0; cache = none })
      verified_user refl

abbrev stale : ProviderState (with_client answering)
stale = record { http = 0; cache = some (record { keys = []; fetched_at = 4 }) }

resolve_key_requests_example :
    ((resolve_key (with_client answering) 5 "x" stale).1.http ≡ 0)
    ⊎ ((resolve_key (with_client answering) 5 "x" stale).1.http ≡ 1)
    ⊎ ((resolve_key (with_client answering) 5 "x" stale).1.http ≡ 2)
resolve_key_requests_example = resolve_key_requests (with_client answering) 5 "x" stale

answering-Publishes : Publishes (with_client answering) 5 "k"
unfolding find_key
answering-Publishes http = (signing_key ∷ [], signing_key, refl, refl)

-- Task 0 looks for the key that the realm publishes, and the others for one that it does not.
abbrev seekers : TaskPool (with_client answering)
seekers = record { time = 5; world = stale; place = λ i. if eqb i 0 then asked "k" else asked "x" }

abbrev schedule : List (ℕ × ℕ)
schedule = (0, 1) ∷ (0, 0) ∷ (1, 1) ∷ (2, 0) ∷ (700, 2) ∷ (0, 0) ∷ []

found_together_example :
    (key : Jwk) × ((serve (with_client answering) schedule seekers).place 0
      ≡ resolved (ok (some key)))
    × (key.kid ≡ some "k")
unfolding turns_of
found_together_example =
    found_together (with_client answering) "k" (λ now. answering-Publishes) 0 schedule seekers refl
      (omega arith)
