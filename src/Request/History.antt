-- ===== src/Request/History.antt =====
-- Sequences of accepted transitions of a request.
use edge_copilot_backend.Prelude.{List, [], ◌∷◌, ◌≡◌, refl, true}
use edge_copilot_backend.Values.{DateTime}
use edge_copilot_backend.Errors.{ok}
use edge_copilot_backend.StateMachine.{allows}
use edge_copilot_backend.StateMachine.Laws.{guarded_inversion, guarded_ok}
use edge_copilot_backend.Request.{
  RequestState, request_transitions, request_state_enum, Request, transition_to,
}

-- `r` comes from `first` by accepted transitions; `visited` holds their targets, the last first.
pub data History (first : Request) : Request → List RequestState → Type 0 where
  start :
      {r : Request} {visited : List RequestState}
      → r ≡ first
      → visited ≡ []
      → History first r visited
  next :
      {before r : Request} {earlier visited : List RequestState} (target : RequestState)
      (now : DateTime)
      → History first before earlier
      → transition_to before target now ≡ ok r
      → visited ≡ target ∷ earlier
      → History first r visited

-- An accepted transition is in the table, and sets `state` and `updated_at` alone.
pub transition_to_inversion :
    (r : Request) (target : RequestState) (now : DateTime) {r' : Request}
    → transition_to r target now ≡ ok r'
    → (allows request_transitions r.state target ≡ true)
      × (r' ≡ record r { state = target; updated_at = now })
unfolding transition_to
transition_to_inversion r target now h =
    guarded_inversion request_transitions "Request" r.state target
      (record r { state = target; updated_at = now }) h

-- A transition of the table is accepted.
pub transition_to_accepts :
    (r : Request) (target : RequestState) (now : DateTime)
    → allows request_transitions r.state target ≡ true
    → transition_to r target now ≡ ok (record r { state = target; updated_at = now })
unfolding transition_to
transition_to_accepts r target now h =
    guarded_ok request_transitions "Request" r.state target
      (record r { state = target; updated_at = now }) h

pub History-next :
    {first : Request} (r : Request) (visited : List RequestState) (target : RequestState)
    (now : DateTime)
    → History first r visited
    → allows request_transitions r.state target ≡ true
    → History first (record r { state = target; updated_at = now }) (target ∷ visited)
History-next r visited target now past h =
    next target now past (transition_to_accepts r target now h) refl
