-- ===== src/Keycloak/Tasks/Alone.antt =====
-- The segments of `_resolve_key`, put together without another task in between, are the method of
-- infrastructure/identity/keycloak_identity_provider.py.
use edge_copilot_backend.Prelude.{
  ℕ, ◌+◌, ◌≤◌, suc, String, Bool, true, false, Option, none, some, List, ◌≡◌, inl, inr, refl, arith,
  ltb, Bool-cases,
}
use edge_copilot_backend.Errors.{Result, ok, raise}
use edge_copilot_backend.Exec.{Exec, return, resume, ◌>>=◌}
use edge_copilot_backend.Tasks.Alone.{Lands, resume-Lands, alone, alone_lem}
use edge_copilot_backend.Keycloak.{
  Jwk, CachedJwks, KeycloakIdentityProvider, ProviderState, fetch_jwks, from_cache, get_jwks,
  or_refetch, find_key, resolve_key,
}
use edge_copilot_backend.Keycloak.Tasks.{
  Place, asked, fetching, resolved, among_cached, among_answered, begin, segment,
}

module _ (provider : KeycloakIdentityProvider) (now : ℕ) where
  -- What is left of the method, of which no more time passes.
  unfoldable remaining : Place → Exec (ProviderState provider) (Option Jwk)
  remaining (asked kid) = resolve_key provider now kid
  remaining (fetching kid false made) = do
    keys ← fetch_jwks provider made
    or_refetch provider now kid (find_key kid keys)
  remaining (fetching kid true made) = do
    keys ← fetch_jwks provider made
    return (find_key kid keys)
  remaining (resolved r) = λ s. (r, s)

  abbrev left : Place → ℕ
  left (asked kid) = 3
  left (fetching kid false made) = 2
  left (fetching kid true made) = 1
  left (resolved r) = 0

  cached-remaining :
      (kid : String) (o : Option Jwk) (s : ProviderState provider)
      → or_refetch provider now kid o s ≡ remaining (among_cached now kid o) s
  unfolding remaining get_jwks
  cached-remaining kid none s = refl
  cached-remaining kid (some key) s = refl

  begin-remaining :
      (kid : String) (cache : Option CachedJwks) (s : ProviderState provider)
      → resume
          (λ jwks. or_refetch provider now kid (find_key kid jwks))
          (from_cache provider now cache s)
        ≡ remaining (begin provider now kid cache) s
  unfolding remaining
  begin-remaining kid none s = refl
  begin-remaining kid (some cache) s =
      elim (Bool-cases (ltb now (cache.fetched_at + provider.jwks_cache_ttl))) [
        | inl young ↦ rw young (cached-remaining kid (find_key kid cache.keys) s)
        | inr old ↦ rw old refl
      ]

  -- What is left after the keys of a request.
  abbrev after_keys : String → Bool → List Jwk → Exec (ProviderState provider) (Option Jwk)
  after_keys kid true keys = return (find_key kid keys)
  after_keys kid false keys = or_refetch provider now kid (find_key kid keys)

  forced-remaining :
      (kid : String) (o : Option Jwk) (s : ProviderState provider)
      → (ok o, s) ≡ remaining (among_answered now kid true o) s
  unfolding remaining
  forced-remaining kid none s = refl
  forced-remaining kid (some key) s = refl

  first-remaining :
      (kid : String) (o : Option Jwk) (s : ProviderState provider)
      → or_refetch provider now kid o s ≡ remaining (among_answered now kid false o) s
  unfolding remaining get_jwks
  first-remaining kid none s = refl
  first-remaining kid (some key) s = refl

  heard-remaining :
      (kid : String) (forced : Bool) (p : Result (List Jwk) × ProviderState provider)
      → resume (after_keys kid forced) p
        ≡ resume remaining
            (resume (λ keys. return (among_answered now kid forced (find_key kid keys))) p)
  heard-remaining kid forced (raise e, s) = refl
  heard-remaining kid true (ok keys, s) = forced-remaining kid (find_key kid keys) s
  heard-remaining kid false (ok keys, s) = first-remaining kid (find_key kid keys) s

  segment-remaining :
      (place : Place) (s : ProviderState provider)
      → remaining place s ≡ resume remaining (segment provider now place s)
  unfolding remaining segment resolve_key get_jwks
  segment-remaining (asked kid) s = begin-remaining kid s.cache s
  segment-remaining (fetching kid false made) s =
      heard-remaining kid false (fetch_jwks provider made s)
  segment-remaining (fetching kid true made) s =
      heard-remaining kid true (fetch_jwks provider made s)
  segment-remaining (resolved r) s = refl

  begin-left : (kid : String) (cache : Option CachedJwks) → left (begin provider now kid cache) ≤ 2
  begin-left kid none = omega arith
  begin-left kid (some cache) =
      elim (Bool-cases (ltb now (cache.fetched_at + provider.jwks_cache_ttl))) [
        | inr old ↦ rw old omega arith
        | inl young ↦ rw young (search (find_key kid cache.keys))
      ]
    where
      search : (o : Option Jwk) → left (among_cached now kid o) ≤ 2
      search none = omega arith
      search (some key) = omega arith

  answered-left :
      (kid : String) (made n : ℕ) (forced : Bool) (o : Option Jwk)
      → left (fetching kid forced made) ≤ suc n
      → left (among_answered now kid forced o) ≤ n
  answered-left kid made n forced (some key) h = omega arith
  answered-left kid made n true none h = omega arith
  answered-left kid made n false none h = omega (arith, h)

  segment-Lands :
      (n : ℕ) (place : Place) (s : ProviderState provider)
      → left place ≤ suc n
      → Lands resolved (λ q. left q ≤ n) (segment provider now place s)
  unfolding segment
  segment-Lands n (asked kid) s h = omega (arith, h, begin-left kid s.cache)
  segment-Lands n (fetching kid forced made) s h =
      resume-Lands resolved (λ q. left q ≤ n)
        (λ keys. return (among_answered now kid forced (find_key kid keys)))
        (fetch_jwks provider made s) (λ e. omega arith)
        (λ keys. answered-left kid made n forced (find_key kid keys) h)
  segment-Lands n (resolved r) s h = omega arith

  left_none : (place : Place) → left place ≡ 0 → (r : Result (Option Jwk)) × (place ≡ resolved r)
  left_none (resolved r) h = (r, refl)
  left_none (asked kid) h = absurd (omega (arith, h))
  left_none (fetching kid false made) h = absurd (omega (arith, h))
  left_none (fetching kid true made) h = absurd (omega (arith, h))

  -- A task that no other interrupts comes to its end in at most three segments, with the outcome and
  -- the state that `_resolve_key` has.
  alone-resolve_key :
      (kid : String) (s : ProviderState provider)
      → alone resolved (segment provider now) 3 (asked kid, s)
        ≡ (resolved (resolve_key provider now kid s).0, (resolve_key provider now kid s).1)
  unfolding remaining
  alone-resolve_key kid s =
      alone_lem resolved (segment provider now) remaining left (λ r v. refl) segment-remaining
        segment-Lands left_none 3 (asked kid) s (omega arith)
