-- ===== src/Keycloak/Tasks.antt =====
-- infrastructure/identity/keycloak_identity_provider.py under asyncio: `_resolve_key` with the
-- `_get_jwks` that it calls, from one `await` to the next.
pub mod Rotation
pub mod Alone
use edge_copilot_backend.Prelude.{
  ℕ, ◌+◌, String, Bool, true, false, Option, none, some, List, ltb, if◌then◌else◌,
}
use edge_copilot_backend.Errors.{Result, ok, raise}
use edge_copilot_backend.Exec.{Exec, return, ◌>>=◌}
use edge_copilot_backend.Tasks.{landed}
use edge_copilot_backend.Keycloak.{
  Jwk, CachedJwks, KeycloakIdentityProvider, ProviderState, fetch_jwks, find_key,
}

-- Where a task of `_resolve_key(kid)` stands: before its start, at the request for the keys, which it
-- made at a time and which is its first or the forced one, or at its end.
pub data Place : Type 0 where
  asked : String → Place
  fetching : String → Bool → ℕ → Place
  resolved : Result (Option Jwk) → Place

-- The loop over the cached keys; where it finds none, the forced request is made.
abbrev pub among_cached : ℕ → String → Option Jwk → Place
among_cached now kid (some key) = resolved (ok (some key))
among_cached now kid none = fetching kid true now

-- The loop over the keys of an answer; after those of the forced request, no other is made.
abbrev pub among_answered : ℕ → String → Bool → Option Jwk → Place
among_answered now kid forced (some key) = resolved (ok (some key))
among_answered now kid false none = fetching kid true now
among_answered now kid true none = resolved (ok none)

module _ (provider : KeycloakIdentityProvider) where
  -- The test of the cache, at the start.
  abbrev pub begin : ℕ → String → Option CachedJwks → Place
  begin now kid none = fetching kid false now
  begin now kid (some cache) =
      if ltb now (cache.fetched_at + provider.jwks_cache_ttl)
      then among_cached now kid (find_key kid cache.keys)
      else fetching kid false now

  -- The request that is awaited, whose keys are cached under the time at which it was made.
  abbrev pub hears : ℕ → String → Bool → ℕ → Exec (ProviderState provider) Place
  hears now kid forced made = do
    keys ← fetch_jwks provider made
    return (among_answered now kid forced (find_key kid keys))

  -- What a task does from the place where it stands, at a time: the request that it awaits, and all
  -- up to the next.
  unfoldable pub segment : ℕ → Place → Exec (ProviderState provider) Place
  segment now (asked kid) s = (ok (begin now kid s.cache), s)
  segment now (fetching kid forced made) s = hears now kid forced made s
  segment now (resolved r) s = (ok (resolved r), s)

  unfoldable pub advance : ℕ → Place → ProviderState provider → Place × ProviderState provider
  unfolding segment
  advance now place s = landed resolved (segment now place s)
