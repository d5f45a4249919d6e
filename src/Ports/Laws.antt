-- ===== src/Ports/Laws.antt =====
-- What application/ports/replay_guard.py promises, as laws over a guard.
use edge_copilot_backend.Prelude.{ℕ, ◌+◌, ◌≤◌, String, Bool, true, false, not, ◌≡◌, ltb}
use edge_copilot_backend.Values.{seconds}
use edge_copilot_backend.Errors.{ok}
use edge_copilot_backend.Ports.{ReplayGuard}

-- A guard that, called with this time to live, remembers a key from the call that records it until
-- the time to live has passed, and that forgets nothing earlier. `held s t k`: at time `t` the guard
-- remembers `k`.
pub record Remembers (g : ReplayGuard) (held : g.State → ℕ → String → Bool) (ttl : ℕ) : Type 0 where
  -- A call answers whether the key is new.
  pub answers :
      (s : g.State) (t : ℕ) (k : String) → (g.check_and_record s t k ttl).0 ≡ ok (not (held s t k))
  -- A new key is remembered for the time to live.
  pub records :
      (s : g.State) (t : ℕ) (k : String) (u : ℕ)
      → held s t k ≡ false
      → t ≤ u
      → held (g.check_and_record s t k ttl).1 u k ≡ ltb u (t + seconds ttl)
  -- A call forgets no key.
  pub keeps :
      (s : g.State) (t : ℕ) (k : String) (u : ℕ) (j : String)
      → t ≤ u
      → held s u j ≡ true
      → held (g.check_and_record s t k ttl).1 u j ≡ true
