-- ===== src/Request/Gates.antt =====
-- The gates that a request passes.
use edge_copilot_backend.Prelude.{List, [], ◌∷◌, ◌≡◌, ◌≢◌, refl, true, sym, ◌∙◌, ap, ◌⊎◌, inl, inr}
use edge_copilot_backend.Values.{DateTime}
use edge_copilot_backend.StateMachine.{allows, successors}
use edge_copilot_backend.Request.{
  RequestState, new, understanding, planning, waiting_confirmation, waiting_approval, authorized,
  executing, verifying, completed, requires_human, request_transitions, request_state_enum, Request,
}
use edge_copilot_backend.Request.History.{
  History, History-next, start, next, transition_to_inversion,
}

before_completed :
    (s : RequestState) → allows request_transitions s completed ≡ true → s ≡ verifying
unfolding successors
before_completed verifying h = refl
before_completed _ h = cc

before_verifying :
    (s : RequestState) → allows request_transitions s verifying ≡ true → s ≡ executing
unfolding successors
before_verifying executing h = refl
before_verifying _ h = cc

before_executing :
    (s : RequestState) → allows request_transitions s executing ≡ true → s ≡ authorized
unfolding successors
before_executing authorized h = refl
before_executing _ h = cc

-- The last accepted transition of a history, into the state `t`.
record LastStep (first : Request) (visited : List RequestState) (t : RequestState) : Type 0 where
  before : Request
  earlier : List RequestState
  past : History first before earlier
  allowed : allows request_transitions before.state t ≡ true
  latest : visited ≡ t ∷ earlier

-- A request that began as NEW and stands in another state was moved there last.
last_step :
    {first r : Request} {visited : List RequestState} (t : RequestState)
    → first.state ≡ new
    → r.state ≡ t
    → new ≢ t
    → History first r visited
    → LastStep first visited t
last_step t begun at other (start same' none') =
    absurd (other (sym begun ∙ sym (ap (λ (x : Request). x.state) same') ∙ at))
last_step t begun at other (next {before} {earlier} target now past h latest) =
    let (allowed, result) = transition_to_inversion before target now h in
    let reached : target ≡ t = sym (ap (λ (x : Request). x.state) result) ∙ at in
    record {
      before = before;
      earlier = earlier;
      past = past;
      allowed = rw reached at allowed;
      latest = rw reached at latest;
    }

-- The states from which a request may be authorized.
abbrev pub MayAuthorize : RequestState → Type 0
MayAuthorize s =
    (s ≡ planning) ⊎ (s ≡ waiting_confirmation) ⊎ (s ≡ waiting_approval) ⊎ (s ≡ requires_human)

before_authorized :
    (s : RequestState) → allows request_transitions s authorized ≡ true → MayAuthorize s
unfolding successors
before_authorized planning h = inl refl
before_authorized waiting_confirmation h = inr (inl refl)
before_authorized waiting_approval h = inr (inr (inl refl))
before_authorized requires_human h = inr (inr (inr refl))
before_authorized _ h = cc

-- A request that began as NEW and executes was authorized just before, out of PLANNING, of a
-- waiting state or of REQUIRES_HUMAN, in which it stood at that time.
pub executing_gates :
    (first r : Request) (visited : List RequestState)
    → first.state ≡ new
    → r.state ≡ executing
    → History first r visited
    → (source : Request) × (earlier : List RequestState) × (visited
        ≡ executing ∷ authorized ∷ earlier)
      × History first source earlier
      × MayAuthorize source.state
executing_gates first r visited begun at h =
    let one = last_step executing begun at (cc) h in
    let two = last_step authorized begun (before_executing _ one.allowed) (cc) one.past in
    (
      two.before,
      two.earlier,
      one.latest ∙ ap (λ l. executing ∷ l) two.latest,
      two.past,
      before_authorized _ two.allowed,
    )

-- A request that began as NEW and is COMPLETED was authorized, executed and verified, in this
-- order, by its last transitions.
pub completed_gates :
    (first r : Request) (visited : List RequestState)
    → first.state ≡ new
    → r.state ≡ completed
    → History first r visited
    → (earlier : List RequestState) × (visited
        ≡ completed ∷ verifying ∷ executing ∷ authorized ∷ earlier)
completed_gates first r visited begun at h =
    let one = last_step completed begun at (cc) h in
    let two = last_step verifying begun (before_completed _ one.allowed) (cc) one.past in
    let (source, earlier, order, _, _) =
      executing_gates first two.before two.earlier begun (before_verifying _ two.allowed)
        two.past in
    (
      earlier,
      one.latest ∙ ap (λ l. completed ∷ l) two.latest ∙ ap (λ l. completed ∷ verifying ∷ l) order,
    )

-- Every request that is NEW can be authorized without ever standing in PLANNING: a human
-- takes over while it is being understood, and authorizes it.
pub planning_skipped :
    (r : Request) (now : DateTime)
    → r.state ≡ new
    → (r' : Request) × (r'.state ≡ authorized)
      × History r r' (authorized ∷ requires_human ∷ understanding ∷ [])
unfolding successors
planning_skipped r now begun =
    let one = History-next r [] understanding now (start refl refl) (rw begun) in
    let two = History-next _ _ requires_human now one refl in
    (
      record r { state = authorized; updated_at = now },
      refl,
      History-next _ _ authorized now two refl,
    )
