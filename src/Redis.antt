-- ===== src/Redis.antt =====
-- infrastructure/persistence/redis/replay_guard.py
pub mod Guard
use edge_copilot_backend.Prelude.{
  ℕ, ◌+◌, ◌≤◌, String, Bool, true, false, Option, none, some, ◌≡◌, not, ltb, if◌then◌else◌,
}
use edge_copilot_backend.Values.{seconds}
use edge_copilot_backend.Errors.{Result, ok, raise}
use edge_copilot_backend.Ports.{ReplayGuard}

-- The Redis client: `set(name, value, nx=…, ex=…)` on a server, at a time in microseconds.
pub record RedisLike : Type 1 where
  pub Server : Type 0
  pub set : Server → ℕ → String → String → Bool → Option ℕ → Result (Option Bool) × Server

-- `bool(result)` of `True`, `False` or `None`; an exception of the client passes through.
abbrev pub to_bool : Result (Option Bool) → Result Bool
to_bool (ok none) = ok false
to_bool (ok (some b)) = ok b
to_bool (raise e) = raise e

abbrev pub answer {ℓ} : {S : Type ℓ} → Result (Option Bool) × S → Result Bool × S
answer (reply, server) = (to_bool reply, server)

module _ (redis : RedisLike) where
  unfoldable pub check_and_record : redis.Server → ℕ → String → ℕ → Result Bool × redis.Server
  check_and_record server t key ttl_seconds =
      answer (redis.set server t key "1" true (some ttl_seconds))

-- The guard that stands behind the port.
abbrev pub RedisReplayGuard : RedisLike → ReplayGuard
RedisReplayGuard redis = record { State = redis.Server; check_and_record = check_and_record redis }
