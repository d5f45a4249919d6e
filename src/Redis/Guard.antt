-- ===== src/Redis/Guard.antt =====
-- `SET key value NX EX ttl` as Redis documents it, and the guard that rests on it.
use edge_copilot_backend.Prelude.{
  ℕ, ◌+◌, ◌≤◌, ◌<◌, String, Bool, true, false, Option, none, some, ◌≡◌, ◌≢◌, ◌==◌, eq_iff, ltb,
  Bool-cases, inl, inr, ap, arith,
}
use edge_copilot_backend.Values.{seconds}
use edge_copilot_backend.Errors.{ok}
use edge_copilot_backend.Ports.Laws.{Remembers}
use edge_copilot_backend.Redis.{RedisLike, RedisReplayGuard, check_and_record, to_bool}

-- A key that expires at this time, or is not there, is there at time `t`.
abbrev pub lives : Option ℕ → ℕ → Bool
lives none t = false
lives (some expiry) t = ltb t expiry

-- The documented behaviour of the command with a positive time to live, on a server that evicts
-- nothing. `expiry s k`: the time at which the key expires, if it is there.
pub record SetsOnce (redis : RedisLike) (expiry : redis.Server → String → Option ℕ) : Type 0 where
  -- NX: the reply is nil and nothing is set if the key is there.
  pub refused :
      (s : redis.Server) (t : ℕ) (k v : String) (ttl : ℕ)
      → 0 < ttl
      → lives (expiry s k) t ≡ true
      → redis.set s t k v true (some ttl) ≡ (ok none, s)
  -- The reply is OK if the key is not there.
  pub done :
      (s : redis.Server) (t : ℕ) (k v : String) (ttl : ℕ)
      → 0 < ttl
      → lives (expiry s k) t ≡ false
      → (redis.set s t k v true (some ttl)).0 ≡ ok (some true)
  -- EX: the key that is set expires after the time to live.
  pub expires :
      (s : redis.Server) (t : ℕ) (k v : String) (ttl : ℕ)
      → 0 < ttl
      → lives (expiry s k) t ≡ false
      → expiry (redis.set s t k v true (some ttl)).1 k ≡ some (t + seconds ttl)
  -- A command touches no other key that has not expired.
  pub others :
      (s : redis.Server) (t : ℕ) (k v : String) (ttl u : ℕ) (j : String)
      → 0 < ttl
      → k ≢ j
      → t ≤ u
      → lives (expiry s j) u ≡ true
      → lives (expiry (redis.set s t k v true (some ttl)).1 j) u ≡ true

-- What has expired stays expired.
lives-later : (e : Option ℕ) (t u : ℕ) → t ≤ u → lives e t ≡ false → lives e u ≡ false
lives-later none t u order h = h
lives-later (some e) t u order h = ground arith

-- Where `SET` with NX and EX behaves as Redis documents it for a positive time to live (nil and no
-- change where the key is there; else OK, and the key is there until the time to live has passed;
-- the other keys stay), the Redis guard with a positive time to live keeps the promises of the port: it answers
-- whether the key is new, remembers a new key exactly until the time to live has passed, and forgets
-- no key before its time.
pub RedisReplayGuard-Remembers :
    (redis : RedisLike) (expiry : redis.Server → String → Option ℕ) (ttl : ℕ)
    → SetsOnce redis expiry
    → 0 < ttl
    → Remembers (RedisReplayGuard redis) (λ s t k. lives (expiry s k) t) ttl
unfolding check_and_record
RedisReplayGuard-Remembers redis expiry ttl law long = record {
  answers = λ s t k. elim (Bool-cases (lives (expiry s k) t)) [
    | inl there' ↦ rw (there', law.refused s t k "1" ttl long there')
    | inr absent ↦ rw absent (ap to_bool (law.done s t k "1" ttl long absent))
  ];
  records = λ s t k u absent order. ap (λ e. lives e u) (law.expires s t k "1" ttl long absent);
  keeps = λ s t k u j order kept. elim (Bool-cases (k == j)) [
    | inr other ↦ law.others s t k "1" ttl u j long (λ e. cc ((eq_iff k j).1 e, other)) order kept
    | inl same' ↦ elim (Bool-cases (lives (expiry s k) t)) [
      | inl there' ↦ rw (law.refused s t k "1" ttl long there') kept
      | inr absent ↦
          let gone = lives-later (expiry s k) t u order absent in
          cc (gone, kept, (eq_iff k j).0 same')
    ]
  ];
}
