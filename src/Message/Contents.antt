-- ===== src/Message/Contents.antt =====
-- What the transitions of a message leave alone.
use edge_copilot_backend.Prelude.{List, ◌≡◌, arith}
use edge_copilot_backend.Message.{MessageState, Message}
use edge_copilot_backend.Message.History.{History, start, next, transition_to_inversion}

-- Whatever transitions a message goes through, only its status changes.
pub History-status_only :
    (first m : Message) (visited : List MessageState)
    → History first m visited
    → m ≡ record first { status = m.status }
History-status_only first m visited (start same' _) = ground arith
History-status_only first m visited (next {before} {earlier} target past h _) =
    ground (
      arith,
      History-status_only first before earlier past,
      transition_to_inversion before target h,
    )
