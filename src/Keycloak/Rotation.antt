-- ===== src/Keycloak/Rotation.antt =====
-- The cache of signing keys of infrastructure/identity/keycloak_identity_provider.py.
use edge_copilot_backend.Prelude.{
  ℕ, ◌+◌, ◌<◌, String, true, false, Option, none, some, List, ◌≡◌, ◌⊎◌, inl, inr, refl, ◌∙◌, ap,
  arith, ltb, Bool-cases, Option-cases,
}
use edge_copilot_backend.Errors.{Exception, Result, ok, raise, Result-cases}
use edge_copilot_backend.Exec.{Exec, return, resume}
use edge_copilot_backend.Keycloak.{
  Jwk, CachedJwks, KeycloakIdentityProvider, ProviderState, jwks_uri, keys_or_empty, fetch_jwks,
  from_cache, get_jwks, or_refetch, find_key, resolve_key,
}

module _ (provider : KeycloakIdentityProvider) (now : ℕ) where
  -- The state of the HTTP client after one request for the keys.
  abbrev pub asked : provider.http_client.State → provider.http_client.State
  asked http = (provider.http_client.get_keys http (jwks_uri provider)).1

  -- The cache is young enough to be used.
  abbrev pub IsFresh : CachedJwks → Type 0
  IsFresh cache = now < cache.fetched_at + provider.jwks_cache_ttl

  -- The state after a request that was answered with these keys.
  abbrev pub refreshed : List Jwk → ProviderState provider → ProviderState provider
  refreshed keys s = record {
    http = asked s.http;
    cache = some (record { keys = keys; fetched_at = now });
  }

  fetch_jwks_ok :
      (s : ProviderState provider) (keys : Option (List Jwk))
      → (provider.http_client.get_keys s.http (jwks_uri provider)).0 ≡ ok keys
      → fetch_jwks provider now s ≡ (ok (keys_or_empty keys), refreshed (keys_or_empty keys) s)
  unfolding fetch_jwks
  fetch_jwks_ok s keys h = rw h refl

  fetch_jwks_raise :
      (s : ProviderState provider) (e : Exception)
      → (provider.http_client.get_keys s.http (jwks_uri provider)).0 ≡ raise e
      → fetch_jwks provider now s ≡ (raise e, record s { http = asked s.http })
  unfolding fetch_jwks
  fetch_jwks_raise s e h = rw h refl

  fetch_cases :
      (s : ProviderState provider)
      → ((keys : Option (List Jwk)) × ((provider.http_client.get_keys s.http (jwks_uri provider)).0
            ≡ ok keys)
          × (fetch_jwks provider now s
              ≡ (ok (keys_or_empty keys), refreshed (keys_or_empty keys) s)))
        ⊎ ((e : Exception) × ((provider.http_client.get_keys s.http (jwks_uri provider)).0
              ≡ raise e)
            × (fetch_jwks provider now s ≡ (raise e, record s { http = asked s.http })))
  fetch_cases s = elim (Result-cases (provider.http_client.get_keys s.http (jwks_uri provider)).0) [
    | inl (keys, h) ↦ inl (keys, h, fetch_jwks_ok s keys h)
    | inr (e, h) ↦ inr (e, h, fetch_jwks_raise s e h)
  ]

  ltb→lt : (a b : ℕ) → ltb a b ≡ true → a < b
  ltb→lt a b h = ground arith

  -- The keys come from a fresh cache, or are asked for.
  get_cases :
      (s : ProviderState provider)
      → ((cache : CachedJwks) × (s.cache ≡ some cache)
          × IsFresh cache
          × (get_jwks provider now false s ≡ (ok cache.keys, s)))
        ⊎ (get_jwks provider now false s ≡ fetch_jwks provider now s)
  unfolding get_jwks
  get_cases s = elim (Option-cases s.cache) [
    | inl empty ↦ inr (ap (λ c. from_cache provider now c s) empty)
    | inr (cache, held) ↦
        let use_cache = ap (λ c. from_cache provider now c s) held in
        elim (Bool-cases (ltb now (cache.fetched_at + provider.jwks_cache_ttl))) [
          | inl young ↦ inl (cache, held, ltb→lt _ _ young, use_cache ∙ rw young refl)
          | inr old ↦ inr (use_cache ∙ rw old refl)
        ]
  ]

  module _ (kid : String) where
    abbrev search : List Jwk → Exec (ProviderState provider) (Option Jwk)
    search jwks = or_refetch provider now kid (find_key kid jwks)

    after_keys :
        (s v : ProviderState provider) (jwks : List Jwk)
        → get_jwks provider now false s ≡ (ok jwks, v)
        → resolve_key provider now kid s ≡ search jwks v
    unfolding resolve_key
    after_keys s v jwks h = ap (resume search) h

    after_failure :
        (s v : ProviderState provider) (e : Exception)
        → get_jwks provider now false s ≡ (raise e, v)
        → resolve_key provider now kid s ≡ (raise e, v)
    unfolding resolve_key
    after_failure s v e h = ap (resume search) h

    -- The second request, where the first keys do not have the one that is asked for.
    refetch : ProviderState provider → Result (Option Jwk) × ProviderState provider
    refetch v = resume (λ jwks. return (find_key kid jwks)) (fetch_jwks provider now v)

    search-none :
        (v : ProviderState provider) (jwks : List Jwk)
        → find_key kid jwks ≡ none
        → search jwks v ≡ refetch v
    unfolding get_jwks refetch
    search-none v jwks h = rw h refl

    search-some :
        (v : ProviderState provider) (jwks : List Jwk) (key : Jwk)
        → find_key kid jwks ≡ some key
        → search jwks v ≡ (ok (some key), v)
    search-some v jwks key h = rw h refl

    abbrev looked_up :
        Result (List Jwk) × ProviderState provider → Result (Option Jwk) × ProviderState provider
    looked_up = resume (λ jwks. return (find_key kid jwks))

    refetch-http : (v : ProviderState provider) → (refetch v).1.http ≡ asked v.http
    unfolding refetch
    refetch-http v = elim (fetch_cases v) [
      | inl (keys, h, p) ↦ ap (λ q. (looked_up q).1.http) p
      | inr (e, h, p) ↦ ap (λ q. (looked_up q).1.http) p
    ]

    -- The requests after the first keys: none where the key is among them, or else one.
    search-http :
        (v : ProviderState provider) (jwks : List Jwk)
        → ((search jwks v).1.http ≡ v.http) ⊎ ((search jwks v).1.http ≡ asked v.http)
    search-http v jwks = elim (Option-cases (find_key kid jwks)) [
      | inl absent ↦ inr (ap (λ q. q.1.http) (search-none v jwks absent) ∙ refetch-http v)
      | inr (key, present) ↦ inl (ap (λ q. q.1.http) (search-some v jwks key present))
    ]

    -- However the search for a key ends, and whatever the id that the token names, the provider has
    -- asked for the keys of the realm twice at most.
    pub resolve_key_requests :
        (s : ProviderState provider)
        → ((resolve_key provider now kid s).1.http ≡ s.http)
          ⊎ ((resolve_key provider now kid s).1.http ≡ asked s.http)
          ⊎ ((resolve_key provider now kid s).1.http ≡ asked (asked s.http))
    resolve_key_requests s = elim (get_cases s) [
      | inl (cache, held, young, p) ↦
          let run = ap (λ q. q.1.http) (after_keys s s cache.keys p) in
          elim (search-http s cache.keys) [ inl e ↦ inl (run ∙ e) | inr e ↦ inr (inl (run ∙ e)) ]
      | inr asks ↦ elim (fetch_cases s) [
        | inr (e, h, p) ↦ inr (inl (ap (λ q. q.1.http) (after_failure s _ e (asks ∙ p))))
        | inl (keys, h, p) ↦
            let v = refreshed (keys_or_empty keys) s in
            let run = ap (λ q. q.1.http) (after_keys s v (keys_or_empty keys) (asks ∙ p)) in
            elim (search-http v (keys_or_empty keys)) [
              | inl e ↦ inr (inl (run ∙ e))
              | inr e ↦ inr (inr (run ∙ e))
            ]
      ]
    ]

    -- Whenever it is asked, the realm answers with keys of which one has the id.
    abbrev pub Publishes : Type 0
    Publishes =
        (http : provider.http_client.State)
        → (keys : List Jwk) × (key : Jwk) × ((provider.http_client.get_keys http
              (jwks_uri provider)).0
            ≡ ok (some keys))
          × (find_key kid keys ≡ some key)

    pub fetch_published :
        (s : ProviderState provider)
        → Publishes
        → (keys : List Jwk) × (key : Jwk) × (fetch_jwks provider now s
            ≡ (ok keys, refreshed keys s))
          × (find_key kid keys ≡ some key)
    fetch_published s publishes =
        let (keys, key, answered, present) = publishes s.http in
        (keys, key, fetch_jwks_ok s (some keys) answered, present)

    -- A key that the realm publishes whenever it is asked is found, whatever the cache holds: a cache
    -- that is still fresh but lacks the id, as after a rotation of the keys, does not hide it.
    resolve_key_rotated :
        (s : ProviderState provider)
        → Publishes
        → (key : Jwk) × ((resolve_key provider now kid s).0 ≡ ok (some key))
    unfolding refetch
    resolve_key_rotated s publishes =
        let (keys, key, fetched, present) = fetch_published s publishes in
        elim (get_cases s) [
          | inr asks ↦ (
            key,
            ap (λ q. q.0)
                (after_keys s (refreshed keys s) keys (asks ∙ fetched)
                  ∙ search-some (refreshed keys s) keys key present),
          )
          | inl (cache, held, young, p) ↦ elim (Option-cases (find_key kid cache.keys)) [
            | inr (old, here) ↦ (
              old,
              ap (λ q. q.0) (after_keys s s cache.keys p ∙ search-some s cache.keys old here),
            )
            | inl absent ↦ (
              key,
              ap (λ q. q.0)
                    (after_keys s s cache.keys p
                      ∙ search-none s cache.keys absent
                      ∙ ap looked_up fetched)
                  ∙ ap ok present,
            )
          ]
        ]
