-- ===== src/Inbound/Tasks/Untouched.antt =====
-- What a task of application/use_cases/process_inbound_message.py does before the guard lets it pass.
use edge_copilot_backend.Prelude.{ℕ, ◌≡◌}
use edge_copilot_backend.Values.{DateTime}
use edge_copilot_backend.Exec.{Exec}
use edge_copilot_backend.Message
use edge_copilot_backend.Inbound.{ProcessInboundMessageRequest, ProcessInboundMessage, World}

module _ (use_case : ProcessInboundMessage) (request : ProcessInboundMessageRequest)
    (now : DateTime) (t : ℕ) (w : World use_case) where
  -- The repositories of senders and of conversations are as they were.
  pub record Untouched (v : World use_case) : Type 0 where
    pub senders : v.identities ≡ w.identities
    pub conversations : v.conversations ≡ w.conversations
