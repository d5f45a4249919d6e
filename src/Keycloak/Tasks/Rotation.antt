-- ===== src/Keycloak/Tasks/Rotation.antt =====
-- Requests that verify tokens at the same time, in
-- infrastructure/identity/keycloak_identity_provider.py, after a rotation of the signing keys.
use mathlib.Core.Path.{subst}
use edge_copilot_backend.Prelude.{
  ℕ, ◌+◌, ◌≤◌, zero, suc, String, Bool, true, false, Option, none, some, List, [], ◌∷◌, ◌≡◌, inl,
  inr, refl, sym, arith, ltb, eqb, eqb_iff, if◌then◌else◌, Bool-cases, Option-cases,
}
use edge_copilot_backend.Errors.{ok}
use edge_copilot_backend.Tasks.{landed, Pool, turn, turn_same, turn_other}
use edge_copilot_backend.Keycloak.{
  Jwk, CachedJwks, KeycloakIdentityProvider, ProviderState, find_key,
}
use edge_copilot_backend.Keycloak.Rotation.{Publishes, fetch_published}
use edge_copilot_backend.Keycloak.Verification.{find_key-kid}
use edge_copilot_backend.Keycloak.Tasks.{
  Place, asked, fetching, resolved, among_cached, begin, hears, segment, advance,
}

module _ (provider : KeycloakIdentityProvider) (kid : String) where
  -- A task that looks for the key, with at most so many turns to its end.
  pub data Within : ℕ → Place → Type 0 where
    to_ask : {n : ℕ} → Within (suc (suc (suc n))) (asked kid)
    to_hear : {n made : ℕ} → Within (suc (suc n)) (fetching kid false made)
    to_hear_again : {n made : ℕ} → Within (suc n) (fetching kid true made)
    found : {n : ℕ} {key : Jwk} → key.kid ≡ some kid → Within n (resolved (ok (some key)))

  begin-Within :
      (now n : ℕ) (cache : Option CachedJwks) → Within (suc (suc n)) (begin provider now kid cache)
  begin-Within now n none = to_hear
  begin-Within now n (some cache) =
      elim (Bool-cases (ltb now (cache.fetched_at + provider.jwks_cache_ttl))) [
        | inr old ↦ rw old to_hear
        | inl young ↦ rw young (search cache.keys)
      ]
    where
      search : (keys : List Jwk) → Within (suc (suc n)) (among_cached now kid (find_key kid keys))
      search keys = elim (Option-cases (find_key kid keys)) [
        | inl absent ↦ rw absent to_hear_again
        | inr (key, present) ↦ rw present (found (find_key-kid kid keys key present))
      ]

  hear-Within :
      (now made n : ℕ) (forced : Bool) (s : ProviderState provider)
      → ((at : ℕ) → Publishes provider at kid)
      → Within n (landed resolved (hears provider now kid forced made s)).0
  hear-Within now made n forced s publishes =
      let (keys, key, fetched, present) = fetch_published provider made kid s (publishes made) in
      rw (fetched, present) (found (find_key-kid kid keys key present))

  advance-Within :
      (now n : ℕ) (p : Place) (s : ProviderState provider)
      → ((at : ℕ) → Publishes provider at kid)
      → Within (suc n) p
      → Within n (advance provider now p s).0
  unfolding advance segment
  advance-Within now _ _ s publishes (to_ask {n}) = begin-Within now n s.cache
  advance-Within now _ _ s publishes (to_hear {n} {made}) =
      hear-Within now made (suc n) false s publishes
  advance-Within now _ _ s publishes (to_hear_again {n} {made}) =
      hear-Within now made n true s publishes
  advance-Within now n _ s publishes (found e) = found e

  Within-ended :
      (p : Place) → Within 0 p → (key : Jwk) × (p ≡ resolved (ok (some key))) × (key.kid ≡ some kid)
  Within-ended _ (found {key} e) = (key, refl, e)

module _ (provider : KeycloakIdentityProvider) where
  -- The tasks of one provider.
  abbrev pub run_task : ℕ → ℕ → Place → ProviderState provider → Place × ProviderState provider
  run_task i = advance provider

  abbrev pub TaskPool : Type 0
  TaskPool = Pool Place (ProviderState provider)

  abbrev pub wait : ℕ → TaskPool → TaskPool
  wait n s = record s { time = s.time + n }

  -- A schedule: a task goes on after some time has passed, and so on.
  unfoldable pub serve : List (ℕ × ℕ) → TaskPool → TaskPool
  serve [] s = s
  serve ((n, i) ∷ rest) s = serve rest (turn run_task i (wait n s))

-- How often a schedule has a task's turn.
unfoldable pub turns_of : ℕ → List (ℕ × ℕ) → ℕ
turns_of i [] = 0
turns_of i ((n, j) ∷ rest) = let own = turns_of i rest in if eqb j i then suc own else own

module _ (provider : KeycloakIdentityProvider) (kid : String)
    (publishes : (now : ℕ) → Publishes provider now kid) (i : ℕ) where
  serve-Within :
      (schedule : List (ℕ × ℕ)) (s : TaskPool provider)
      → Within provider kid (turns_of i schedule) (s.place i)
      → Within provider kid 0 ((serve provider schedule s).place i)
  unfolding serve turns_of
  serve-Within [] s h = h
  serve-Within ((n, j) ∷ rest) s h = elim (Bool-cases (eqb j i)) [
    | inl own ↦
        let at : j ≡ i = (eqb_iff j i).0 own in
        serve-Within rest _ (
          subst
            (λ k.
              Within provider kid (turns_of i rest)
                ((turn (run_task provider) k (wait provider n s)).place i))
            (sym at)
            (subst (Within provider kid (turns_of i rest))
              (sym (turn_same (run_task provider) (wait provider n s) i refl))
              (advance-Within provider kid (s.time + n) (turns_of i rest) (s.place i) s.world
                publishes (rw own at h))))
    | inr other ↦ serve-Within rest _ (
        subst (Within provider kid (turns_of i rest))
          (sym (
            turn_other (run_task provider) (wait provider n s) j i
              (λ e. cc ((eqb_iff j i).1 e, other))))
          (rw other at h))
  ]

  asked-Within : (n : ℕ) → 3 ≤ n → Within provider kid n (asked kid)
  asked-Within (suc (suc (suc n))) h = to_ask
  asked-Within zero h = absurd (omega (arith, h))
  asked-Within (suc zero) h = absurd (omega (arith, h))
  asked-Within (suc (suc zero)) h = absurd (omega (arith, h))

  -- A key that the realm publishes whenever it is asked is found by each task that looks for it, in
  -- three turns of its own at most, however many other tasks look for keys at the same time, whatever
  -- their turns do to the cache, and whatever time passes.
  pub found_together :
      (schedule : List (ℕ × ℕ)) (s : TaskPool provider)
      → s.place i ≡ asked kid
      → 3 ≤ turns_of i schedule
      → (key : Jwk) × ((serve provider schedule s).place i ≡ resolved (ok (some key)))
        × (key.kid ≡ some kid)
  found_together schedule s start enough = Within-ended provider kid _ (
      serve-Within schedule s (
        subst (Within provider kid (turns_of i schedule)) (sym start)
          (asked-Within (turns_of i schedule) enough)))
