-- ===== src/Request/Intent.antt =====
-- domain/request/intent.py and domain/request/request_constraint.py
use edge_copilot_backend.Prelude.{String, Bool, List}

-- The numbers of Python's `float` with their order, and the default of `threshold`, 0.7.
pub record Floats : Type 1 where
  pub Float : Type 0
  pub at_least : Float → Float → Bool
  pub default_threshold : Float

module _ (floats : Floats) where
  pub record Intent : Type 0 where
    pub intent_type : String
    pub confidence : floats.Float
    pub parameters : List (String × String)

  -- `is_confident(threshold=...)`
  unfoldable pub is_confident : Intent → floats.Float → Bool
  is_confident intent threshold = floats.at_least intent.confidence threshold

pub record RequestConstraint : Type 0 where
  pub constraint_type : String
  pub value : String
