-- ===== src/Policy/Engine.antt =====
-- What `DefaultPolicyEngine.authorize` of infrastructure/policy/default_policy_engine.py decides.
use edge_copilot_backend.Prelude.{
  ℕ, ◌≤◌, true, false, none, ◌≡◌, ◌↔◌, ◌⊎◌, refl, arith, sym, ◌∙◌, Bool-cases, inl, inr,
}
use edge_copilot_backend.Values.{DateTime}
use edge_copilot_backend.Errors.{ok, raise, type_error, ok_injective}
use edge_copilot_backend.Time.{IsAware, is_since}
use edge_copilot_backend.Security.{SecurityContext, is_expired}
use edge_copilot_backend.Policy.{
  allow, deny, policy_decision_outcome_enum, PolicyDecisionRecord, DefaultPolicyEngine,
  AuthorizeRequest, authorize, check, permits_immediate_execution, current_policy_version,
  decision_record,
}
use edge_copilot_backend.Policy.Checks.{Grants, check_iff}

-- What an operation with these arguments needs at an instant; no role is asked for.
abbrev pub Granted : SecurityContext → AuthorizeRequest → ℕ → Type 0
Granted c request now =
    Grants c request.required_permission request.resource_tenant_id request.resource_organization_id
      none now

-- With time zones on both sides, `authorize` returns a decision, ALLOW or DENY, for the time of its
-- clock, under the engine's policy version and with the id of the context. The decision permits
-- immediate execution exactly when the operation is granted.
pub authorize_iff :
    (engine : DefaultPolicyEngine) (now : DateTime) (c : SecurityContext)
    (request : AuthorizeRequest)
    → IsAware now
    → IsAware c.expires_at
    → (d : PolicyDecisionRecord) × (authorize engine now c request ≡ ok d)
      × ((permits_immediate_execution d.decision ≡ true) ↔ Granted c request now.instant)
      × ((d.decision ≡ allow) ⊎ (d.decision ≡ deny))
      × (d.timestamp ≡ now)
      × (d.policy_version ≡ current_policy_version engine)
      × (d.context_reference ≡ c.context_id)
unfolding authorize permits_immediate_execution current_policy_version
authorize_iff engine now c request p q =
    let (r, returned, exact) =
      check_iff c request.required_permission request.resource_tenant_id
        request.resource_organization_id none now p q in
    elim (Bool-cases r.allowed) [
      | inl yes' ↦ (
        decision_record engine now c r,
        rw returned,
        ((λ _. exact.0 yes'), (λ _. rw yes')),
        inl (rw yes'),
        refl,
        refl,
        refl,
      )
      | inr no' ↦ (
        decision_record engine now c r,
        rw returned,
        ((λ e. cc (rw no' at e)), (λ g. cc (exact.1 g, no'))),
        inr (rw no'),
        refl,
        refl,
        refl,
      )
    ]

-- Where exactly one of the clock and the expiry has a time zone, `authorize` raises a `TypeError`: it
-- does not answer DENY.
authorize_naive :
    (engine : DefaultPolicyEngine) (now : DateTime) (c : SecurityContext)
    (request : AuthorizeRequest)
    → IsAware now
    → c.expires_at.aware ≡ false
    → authorize engine now c request ≡ raise type_error
unfolding authorize check is_expired is_since
authorize_naive engine now c request p naive = rw (p, naive)

-- What the engine permits at some time it permits at every earlier one, with time zones throughout:
-- the passing of time alone gives no permission.
pub authorize-earlier :
    (engine : DefaultPolicyEngine) (early late : DateTime) (c : SecurityContext)
    (request : AuthorizeRequest) (d : PolicyDecisionRecord)
    → IsAware early
    → IsAware late
    → IsAware c.expires_at
    → early.instant ≤ late.instant
    → authorize engine late c request ≡ ok d
    → permits_immediate_execution d.decision ≡ true
    → (d' : PolicyDecisionRecord) × (authorize engine early c request ≡ ok d')
      × (permits_immediate_execution d'.decision ≡ true)
authorize-earlier engine early late c request d p q r order returned permitted =
    let (d', now_returned, exact, _, _, _, _) = authorize_iff engine late c request q r in
    let (d'', then_returned, exact', _, _, _, _) = authorize_iff engine early c request p r in
    let same' : d ≡ d' = ok_injective (sym returned ∙ now_returned) in
    let g = exact.0 (rw same' at permitted) in
    (
      d'',
      then_returned,
      exact'.1 (record {
        unexpired = omega (arith, g.unexpired);
        tenant_fits = g.tenant_fits;
        organization_fits = g.organization_fits;
        role_held = g.role_held;
        permission_held = g.permission_held;
      }),
    )
