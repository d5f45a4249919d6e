-- ===== src/Tests/RedisModel.antt =====
-- A small Redis server for the examples: its keys with the times at which they expire.
use text.Mathlib.TextPositions.{eq_refl}
use edge_copilot_backend.Prelude.{
  eqb, eq_iff, Bool-cases, inl, inr, ◌≢◌, ◌<◌, ℕ, ◌+◌, String, Bool, true, false, Option, none,
  some, List, [], ◌∷◌, ◌&&◌, ◌==◌, ◌≡◌, refl, if◌then◌else◌, arith,
}
use edge_copilot_backend.Values.{seconds}
use edge_copilot_backend.Errors.{ok, raise, library_error}
use edge_copilot_backend.Redis.{RedisLike}
use edge_copilot_backend.Redis.Guard.{SetsOnce, lives}

abbrev pub Entries : Type 0
Entries = List (String × ℕ)

abbrev pub expiry : Entries → String → Option ℕ
expiry [] k = none
expiry (e ∷ entries) k = if e.0 == k then some e.1 else expiry entries k

abbrev pub alive : Entries → ℕ → String → Bool
alive entries t k = lives (expiry entries k) t

abbrev lifetime : Option ℕ → ℕ
lifetime none = 0
lifetime (some ttl) = seconds ttl

-- A time to live that is not positive is an error.
abbrev is_invalid : Option ℕ → Bool
is_invalid none = false
is_invalid (some ttl) = eqb ttl 0

abbrev pub redis_model : RedisLike
redis_model = record {
  Server = Entries;
  set = λ entries t k v nx ex.
      if is_invalid ex
      then (raise (library_error "redis"), entries)
      else if nx && alive entries t k
      then (ok none, entries)
      else (ok (some true), (k, t + lifetime ex) ∷ entries);
}

positive : (ttl : ℕ) → 0 < ttl → eqb ttl 0 ≡ false
positive ttl h = ground arith

different : (k j : String) → k ≢ j → (k == j) ≡ false
different k j h = elim (Bool-cases (k == j)) [
  | inl same' ↦ absurd (h ((eq_iff k j).0 same'))
  | inr other ↦ other
]

pub redis_model-SetsOnce : SetsOnce redis_model expiry
redis_model-SetsOnce = record {
  refused = λ s t k v ttl long there'. rw (positive ttl long, there') refl;
  done = λ s t k v ttl long absent. rw (positive ttl long, absent) refl;
  expires = λ s t k v ttl long absent. rw (positive ttl long, absent, eq_refl k) refl;
  others = λ s t k v ttl u j long other order kept. elim (Bool-cases (alive s t k)) [
    | inl there' ↦ rw (positive ttl long, there') kept
    | inr absent ↦ rw (positive ttl long, absent, different k j other) kept
  ];
}
