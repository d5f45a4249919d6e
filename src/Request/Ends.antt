-- ===== src/Request/Ends.antt =====
-- How a request ends, and what its life leaves alone.
use edge_copilot_backend.Prelude.{
  List, ◌≡◌, ◌≢◌, ◌↔◌, refl, true, false, arith, Bool-cases, inl, inr,
}
use edge_copilot_backend.Values.{DateTime}
use edge_copilot_backend.Errors.{ok}
use edge_copilot_backend.StateMachine.{allows, successors}
use edge_copilot_backend.Request.{
  RequestState, new, understanding, authorized, executing, verifying, completed, denied, cancelled,
  expired, failed, partially_completed, request_transitions, request_state_enum, Request,
  in_terminal, is_terminal, transition_to,
}
use edge_copilot_backend.Request.History.{
  History, start, next, transition_to_inversion, transition_to_accepts,
}

-- A state that ends the request, for each state.
abbrev ending : RequestState → RequestState
ending new = cancelled
ending understanding = cancelled
ending authorized = cancelled
ending executing = failed
ending verifying = completed
ending _ = denied

ending-allows :
    (s : RequestState)
    → in_terminal s ≡ false
    → (allows request_transitions s (ending s) ≡ true) × (in_terminal (ending s) ≡ true)
unfolding successors
ending-allows new h = (refl, refl)
ending-allows completed h = cc
ending-allows denied h = cc
ending-allows cancelled h = cc
ending-allows expired h = cc
ending-allows failed h = cc
ending-allows partially_completed h = cc
ending-allows _ h = (refl, refl)

terminal-allows :
    (s t : RequestState) → in_terminal s ≡ true → allows request_transitions s t ≡ false
unfolding successors
terminal-allows completed t h = refl
terminal-allows denied t h = refl
terminal-allows cancelled t h = refl
terminal-allows expired t h = refl
terminal-allows failed t h = refl
terminal-allows partially_completed t h = refl
terminal-allows _ t h = cc

-- A request that is not terminal can always be ended by one transition, at any time.
can_end :
    (r : Request) (now : DateTime)
    → is_terminal r ≡ false
    → (target : RequestState) × (r' : Request) × (transition_to r target now ≡ ok r')
      × (is_terminal r' ≡ true)
unfolding is_terminal
can_end r now h =
    let (allowed, ends) = ending-allows r.state h in
    (
      ending r.state,
      record r { state = ending r.state; updated_at = now },
      transition_to_accepts r (ending r.state) now allowed,
      ends,
    )

-- A request is terminal exactly when it accepts no transition at all.
pub is_terminal_iff :
    (r : Request)
    → (is_terminal r ≡ true) ↔ (
        (target : RequestState) (now : DateTime) (r' : Request)
        → transition_to r target now ≢ ok r')
is_terminal_iff r = (
  (λ ends target now r' h.
      unfold is_terminal in
      cc (terminal-allows r.state target ends, (transition_to_inversion r target now h).0)),
  (λ refuses. elim (Bool-cases (is_terminal r)) [
    | inl ends ↦ ends
    | inr more ↦
        let now = r.updated_at in
        let (target, r', accepted, _) = can_end r now more in
        absurd (refuses target now r' accepted)
  ]),
)

-- What no transition changes.
record SameRequest (a b : Request) : Type 0 where
  pub request_id : a.request_id ≡ b.request_id
  pub conversation_id : a.conversation_id ≡ b.conversation_id
  pub tenant_id : a.tenant_id ≡ b.tenant_id
  pub organization_id : a.organization_id ≡ b.organization_id
  pub created_at : a.created_at ≡ b.created_at

-- Whatever transitions a request goes through, it keeps its identifiers, its tenant and
-- organization, and its time of creation.
History-SameRequest :
    (first r : Request) (visited : List RequestState)
    → History first r visited
    → SameRequest first r
History-SameRequest first r visited (start same' _) = ground arith
History-SameRequest first r visited (next {before} {earlier} target now past h _) = ground (
  arith,
  History-SameRequest first before earlier past,
  transition_to_inversion before target now h,
)
