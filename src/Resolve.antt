-- ===== src/Resolve.antt =====
-- application/use_cases/resolve_security_context.py: the issuance of a security context.
pub mod Fits
pub mod Selection
pub mod Members
pub mod Order
pub mod Issue
pub mod Ids
use edge_copilot_backend.Prelude.{
  ℕ, String, Bool, true, false, Option, none, some, List, [], ◌∷◌, keep, ◌==◌, if◌then◌else◌,
}
use edge_copilot_backend.Values.{
  Value, null, text, items, dict, Items, nil, cons, end, field, DateTime,
}
use edge_copilot_backend.Errors
use edge_copilot_backend.Errors.{
  Result, ok, raise, Exception, domain, domain_error_init, no_valid_membership_error,
  ambiguous_tenant_context_error,
}
use edge_copilot_backend.Exec.{Exec, from, return, ◌>>=◌}
use edge_copilot_backend.Time.{add}
use edge_copilot_backend.Identity.{MembershipReference, is_currently_valid}
use edge_copilot_backend.Security.{SecurityContext}
use edge_copilot_backend.Ports.{
  IdentityProvider, AuthenticatedIdentity, MembershipRepository, PolicyEngine, IdGenerator,
}

pub record ResolveSecurityContextRequest : Type 0 where
  pub bearer_token : String
  pub channel : String
  pub profile_type : String
  pub requested_tenant_id : Option String
  pub requested_organization_id : Option String
  pub device_id : Option String

-- The object. `context_ttl` is in microseconds; what the clock shows is an argument of `execute`.
pub record ResolveSecurityContext : Type 1 where
  pub identity_provider : IdentityProvider
  pub membership_repository : MembershipRepository
  pub policy_engine : PolicyEngine
  pub id_generator : IdGenerator
  pub context_ttl : ℕ

-- `[m for m in memberships if m.is_currently_valid(now=now)]`
unfoldable pub valid_memberships :
    DateTime → List MembershipReference → Result (List MembershipReference)
valid_memberships now [] = ok []
valid_memberships now (m ∷ memberships) = Errors.◌>>=◌ (is_currently_valid m now) λ valid.
    Errors.◌>>=◌ (valid_memberships now memberships) λ rest. ok (if valid then m ∷ rest else rest)

-- `m.organization_id == requested`
abbrev pub is_text : Option String → String → Bool
is_text none requested = false
is_text (some own) requested = own == requested

abbrev pub keep_tenant : Option String → List MembershipReference → List MembershipReference
keep_tenant none candidates = candidates
keep_tenant (some requested) candidates = keep (λ m. m.tenant_id == requested) candidates

abbrev pub keep_organization : Option String → List MembershipReference → List MembershipReference
keep_organization none candidates = candidates
keep_organization (some requested) candidates =
    keep (λ m. is_text m.organization_id requested) candidates

-- `_narrow`
unfoldable pub narrow :
    List MembershipReference → Option String → Option String → List MembershipReference
narrow candidates requested_tenant_id requested_organization_id =
    keep_organization requested_organization_id (keep_tenant requested_tenant_id candidates)

-- An optional text among the details of an error.
abbrev pub optional : Option String → Value
optional none = null
optional (some t) = text t

abbrev pub no_membership : Value → Exception
no_membership user_id = domain (
    domain_error_init no_valid_membership_error
      "Authenticated identity has no currently valid membership."
      (some (field "user_id" user_id end)))

abbrev pub no_match : Value → ResolveSecurityContextRequest → Exception
no_match user_id request = domain (
    domain_error_init no_valid_membership_error
      "Requested tenant/organization does not match any valid membership for this identity."
      (some (
        field "user_id" user_id (
          field "requested_tenant_id" (optional request.requested_tenant_id)
            (field "requested_organization_id" (optional request.requested_organization_id) end)))))

abbrev pub candidate_items : List MembershipReference → Items
candidate_items [] = nil
candidate_items (m ∷ candidates) =
    cons
      (dict (
        field "tenant_id" (text m.tenant_id)
          (field "organization_id" (optional m.organization_id) end)))
      (candidate_items candidates)

abbrev pub ambiguous : Value → List MembershipReference → Exception
ambiguous user_id candidates = domain (
    domain_error_init ambiguous_tenant_context_error
      "More than one tenant/organization context is possible for this identity; explicit selection is required."
      (some
        (field "user_id" user_id (field "candidates" (items (candidate_items candidates)) end))))

-- The tests on the number of candidates.
abbrev pub only_candidate :
    Value → ResolveSecurityContextRequest → List MembershipReference → Result MembershipReference
only_candidate user_id request [] = raise (no_match user_id request)
only_candidate user_id request (m ∷ []) = ok m
only_candidate user_id request (m ∷ n ∷ others) = raise (ambiguous user_id (m ∷ n ∷ others))

abbrev pub narrow_valid :
    Value → ResolveSecurityContextRequest → List MembershipReference → Result MembershipReference
narrow_valid user_id request [] = raise (no_membership user_id)
narrow_valid user_id request (m ∷ valid) =
    only_candidate user_id request
      (narrow (m ∷ valid) request.requested_tenant_id request.requested_organization_id)

-- From the memberships of the user to the one that is selected.
unfoldable pub select :
    Value
    → ResolveSecurityContextRequest
    → DateTime
    → List MembershipReference
    → Result MembershipReference
unfolding narrow
select user_id request now memberships =
    Errors.◌>>=◌ (valid_memberships now memberships) (narrow_valid user_id request)

module _ (use_case : ResolveSecurityContext) where
  -- The states of the ports.
  pub record World : Type 0 where
    pub identities : use_case.identity_provider.State
    pub memberships : use_case.membership_repository.State
    pub policies : use_case.policy_engine.State
    pub ids : use_case.id_generator.State

  abbrev pub verify_token : String → Exec World AuthenticatedIdentity
  verify_token token w =
      let (r, s) = use_case.identity_provider.verify_token w.identities token in
      (r, record w { identities = s })

  abbrev pub list_by_user : Value → Exec World (List MembershipReference)
  list_by_user user_id w =
      let (r, s) = use_case.membership_repository.list_by_user w.memberships user_id in
      (r, record w { memberships = s })

  abbrev pub current_policy_version : Exec World String
  current_policy_version w =
      let (r, s) = use_case.policy_engine.current_policy_version w.policies in
      (r, record w { policies = s })

  abbrev pub new_id : Exec World String
  new_id w = let (id, s) = use_case.id_generator.new_id w.ids in (ok id, record w { ids = s })

  -- The context that is issued.
  abbrev pub issued :
      ResolveSecurityContextRequest
      → DateTime
      → AuthenticatedIdentity
      → MembershipReference
      → String
      → String
      → DateTime
      → SecurityContext
  issued request now identity selected policy_version context_id expires_at = record {
    context_id = context_id;
    user_id = identity.user_id;
    tenant_id = selected.tenant_id;
    organization_id = selected.organization_id;
    membership_id = some selected.membership_id;
    roles = selected.role_references;
    permissions_snapshot = [];
    profile_type = request.profile_type;
    channel = request.channel;
    session_id = identity.session_id;
    device_id = request.device_id;
    authentication_strength = identity.authentication_strength;
    issued_at = now;
    expires_at = expires_at;
    policy_version = policy_version;
    context_version = "1";
  }

  -- `execute(request)`, where `now` is what the clock shows.
  unfoldable pub execute : ResolveSecurityContextRequest → DateTime → Exec World SecurityContext
  execute request now = do
    identity ← verify_token request.bearer_token
    memberships ← list_by_user identity.user_id
    selected ← from (select identity.user_id request now memberships)
    policy_version ← current_policy_version
    context_id ← new_id
    expires_at ← from (add now use_case.context_ttl)
    return (issued request now identity selected policy_version context_id expires_at)
