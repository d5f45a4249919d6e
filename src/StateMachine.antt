-- ===== src/StateMachine.antt =====
-- domain/shared/state_machine.py, and `StrEnum` as the state types use it.
pub mod Laws
use edge_copilot_backend.Prelude.{
  String, Bool, Option, none, some, List, [], ◌∷◌, ◌≡◌, ◌==◌, ◌<>◌, any, if◌then◌else◌,
}
use edge_copilot_backend.Values.{text, end, field}
use edge_copilot_backend.Errors.{
  Exception, Result, ok, raise, domain, domain_error_init, validation_error,
}

-- A `StrEnum` class: its name, the name and the value of each member, and the lookup of a member
-- by its value (`E(value)`).
pub record StrEnum (A : Type 0) : Type 0 where
  pub class_name : String
  pub member_name : A → String
  pub value : A → String
  pub of_value : String → Option A
  pub of_value-value : (a : A) → of_value (value a) ≡ some a

-- A `dict` from states to sets of states.
abbrev pub Transitions : Type 0 → Type 0
Transitions A = List (A × List A)

module _ {A : Type 0} ⦃e : StrEnum A⦄ where
  -- Members are strings: they are compared by their values.
  abbrev pub same : A → A → Bool
  same a b = e.value a == e.value b

  -- `repr(member)`
  abbrev pub repr : A → String
  repr a = "<" <> e.class_name <> "." <> e.member_name a <> ": '" <> e.value a <> "'>"

  -- `allowed_transitions.get(current, frozenset())`
  unfoldable pub successors : A → Transitions A → List A
  successors current [] = []
  successors current ((state, targets) ∷ table) =
      let rest = successors current table in if same state current then targets else rest

  -- `target in allowed`
  abbrev pub allows : Transitions A → A → A → Bool
  allows table current target = any (λ a. same a target) (successors current table)

  -- The `ValidationError` of a refused transition.
  abbrev pub illegal_transition : String → A → A → Exception
  illegal_transition entity_name current target = domain (
      domain_error_init validation_error
        ("Illegal "
          <> entity_name
          <> " state transition: "
          <> repr current
          <> " -> "
          <> repr target)
        (some
          (field "current" (text (e.value current)) (field "target" (text (e.value target)) end))))

  unfoldable pub ensure_transition_allowed : A → A → Transitions A → String → Result (Unit {0})
  unfolding successors
  ensure_transition_allowed current target allowed_transitions entity_name =
      if allows allowed_transitions current target
      then ok tt
      else raise (illegal_transition entity_name current target)

  -- `d[key] = targets`: an entry is replaced in its place, or added at the end.
  unfoldable pub put : A → List A → Transitions A → Transitions A
  put key targets [] = (key, targets) ∷ []
  put key targets ((state, old) ∷ table) =
      if same state key then (state, targets) ∷ table else (state, old) ∷ put key targets table
