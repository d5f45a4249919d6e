-- ===== src/Resolve/Issue.antt =====
-- What `execute` of application/use_cases/resolve_security_context.py issues, and what an issued
-- context is good for.
use mathlib.Core.Path.{subst}
use edge_copilot_backend.Prelude.{
  ◌+◌, ◌≤◌, some, String, List, [], ◌≡◌, refl, sym, ◌∙◌, ap, All, inl, inr,
}
use edge_copilot_backend.Prelude.Counting.{HasOnly}
use edge_copilot_backend.Values.{Value, DateTime}
use edge_copilot_backend.Errors.{ok, ok_injective, raise-ne-ok}
use edge_copilot_backend.Exec.{Exec, from, return, ◌>>=◌, bind-eq-ok, from-bind-eq-ok, rest-answers}
use edge_copilot_backend.Time.{IsAware, add, add-eq-ok, last_instant}
use edge_copilot_backend.Identity.{MembershipReference}
use edge_copilot_backend.Identity.Validity.{HasAwareTimes}
use edge_copilot_backend.Security.{SecurityContext}
use edge_copilot_backend.Ports.{MembershipRepository, AuthenticatedIdentity}
use edge_copilot_backend.Resolve.{
  ResolveSecurityContextRequest, ResolveSecurityContext, World, select, execute, issued,
  verify_token, list_by_user, current_policy_version, new_id,
}
use edge_copilot_backend.Resolve.Fits.{Fits}
use edge_copilot_backend.Resolve.Selection.{select_cases}

-- The repository returns memberships whose times have time zones.
abbrev pub ReturnsAware : MembershipRepository → Type 0
ReturnsAware repository =
    (s : repository.State) (user_id : Value) (memberships : List MembershipReference)
    → (repository.list_by_user s user_id).0 ≡ ok memberships
    → All HasAwareTimes memberships

select-HasOnly :
    (user_id : Value) (request : ResolveSecurityContextRequest) (now : DateTime)
    (memberships : List MembershipReference) (selected : MembershipReference)
    → IsAware now
    → All HasAwareTimes memberships
    → select user_id request now memberships ≡ ok selected
    → HasOnly (Fits request now) selected memberships
select-HasOnly user_id request now memberships selected p aware choice =
    elim (select_cases user_id request now memberships p aware) [
      | inl (m, only, chosen) ↦
          subst (λ n. HasOnly (Fits request now) n memberships) (ok_injective (sym chosen ∙ choice))
            only
      | inr (inl (_, (e, raised, _))) ↦ absurd (raise-ne-ok (sym raised ∙ choice))
      | inr (inr (_, (e, raised, _))) ↦ absurd (raise-ne-ok (sym raised ∙ choice))
    ]

module _ (use_case : ResolveSecurityContext) (request : ResolveSecurityContextRequest)
    (now : DateTime) (w : World use_case) where
  -- The steps that end in a context: a verified identity, the memberships that the repository lists
  -- for it, and the one that is selected.
  pub record IsRun (c : SecurityContext) : Type 0 where
    pub identity : AuthenticatedIdentity
    pub memberships : List MembershipReference
    pub selected : MembershipReference
    pub policy_version : String
    pub context_id : String
    pub verified :
        (use_case.identity_provider.verify_token w.identities request.bearer_token).0 ≡ ok identity
    pub listed :
        (use_case.membership_repository.list_by_user w.memberships identity.user_id).0
        ≡ ok memberships
    pub choice : select identity.user_id request now memberships ≡ ok selected
    pub current : (use_case.policy_engine.current_policy_version w.policies).0 ≡ ok policy_version
    pub fresh : (use_case.id_generator.new_id w.ids).0 ≡ context_id
    pub expires_at : DateTime
    pub in_range : add now use_case.context_ttl ≡ ok expires_at
    pub made :
        c ≡ issued use_case request now identity selected policy_version context_id expires_at

  -- What a context holds, field by field, and where it is from. The membership is the only one that
  -- is in force and fits the hints.
  pub record IsIssued (c : SecurityContext) : Type 0 where
    pub run : IsRun c
    pub only : HasOnly (Fits request now) run.selected run.memberships
    pub user : c.user_id ≡ run.identity.user_id
    pub session : c.session_id ≡ run.identity.session_id
    pub strength : c.authentication_strength ≡ run.identity.authentication_strength
    pub tenant : c.tenant_id ≡ run.selected.tenant_id
    pub organization : c.organization_id ≡ run.selected.organization_id
    pub member : c.membership_id ≡ some run.selected.membership_id
    pub roles : c.roles ≡ run.selected.role_references
    pub no_permissions : c.permissions_snapshot ≡ []
    pub profile : c.profile_type ≡ request.profile_type
    pub channel : c.channel ≡ request.channel
    pub device : c.device_id ≡ request.device_id
    pub issued_now : c.issued_at ≡ now
    pub expiry_zone : c.expires_at.aware ≡ now.aware
    pub expiry : c.expires_at.instant ≡ now.instant + use_case.context_ttl
    pub expiry_in_range : c.expires_at.instant ≤ last_instant
    pub version : (use_case.policy_engine.current_policy_version w.policies).0 ≡ ok c.policy_version
    pub id : c.context_id ≡ (use_case.id_generator.new_id w.ids).0

  abbrev pub with_expiry :
      AuthenticatedIdentity
      → MembershipReference
      → String
      → String
      → Exec (World use_case) SecurityContext
  with_expiry identity selected policy_version context_id = do
    expires_at ← from (add now use_case.context_ttl)
    return (issued use_case request now identity selected policy_version context_id expires_at)

  abbrev pub after_selection :
      AuthenticatedIdentity → MembershipReference → Exec (World use_case) SecurityContext
  after_selection identity selected = do
    policy_version ← current_policy_version use_case
    context_id ← new_id use_case
    with_expiry identity selected policy_version context_id

  abbrev pub after_listing :
      AuthenticatedIdentity → List MembershipReference → Exec (World use_case) SecurityContext
  after_listing identity memberships =
      from (select identity.user_id request now memberships) >>= after_selection identity

  abbrev pub after_token : AuthenticatedIdentity → Exec (World use_case) SecurityContext
  after_token identity = list_by_user use_case identity.user_id >>= after_listing identity

  pub execute-IsRun : (c : SecurityContext) → (execute use_case request now w).0 ≡ ok c → IsRun c
  unfolding execute
  execute-IsRun c h =
      let (identity, verified, run) =
        bind-eq-ok (verify_token use_case request.bearer_token) after_token w h in
      let h1 = rest-answers run h in
      let (memberships, listed, run1) =
        bind-eq-ok (list_by_user use_case identity.user_id) (after_listing identity) _ h1 in
      let h2 = rest-answers run1 h1 in
      let (selected, choice, run2) = from-bind-eq-ok _ (after_selection identity) _ h2 in
      let h3 = rest-answers run2 h2 in
      let (policy_version, current, run3) =
        bind-eq-ok (current_policy_version use_case)
          (λ v. new_id use_case >>= with_expiry identity selected v) _ h3 in
      let h4 = rest-answers run3 h3 in
      let id = (use_case.id_generator.new_id w.ids).0 in
      let (expires_at, in_range, run4) =
        from-bind-eq-ok (add now use_case.context_ttl)
          (λ e. return (issued use_case request now identity selected policy_version id e)) _ h4 in
      let h5 = rest-answers run4 h4 in
      record {
        identity = identity;
        memberships = memberships;
        selected = selected;
        policy_version = policy_version;
        context_id = (use_case.id_generator.new_id w.ids).0;
        verified = verified;
        listed = listed;
        current = current;
        fresh = refl;
        choice = choice;
        expires_at = expires_at;
        in_range = in_range;
        made = sym (ok_injective h5);
      }

  -- Where the clock and the stored memberships have time zones, a context that is issued goes back to
  -- the token: its user, session and strength are those of the identity that the provider verified;
  -- its tenant, organization, id of membership and roles are those of the only membership that the
  -- repository lists for the user which is in force now and fits the hints of the request; its
  -- profile, channel and device are those of the request. It has no permission, is issued now,
  -- expires when the time to live has passed, a time not past the year 9999, and has the version of
  -- the policy engine and the next id.
  pub execute-IsIssued :
      (c : SecurityContext)
      → IsAware now
      → ReturnsAware use_case.membership_repository
      → (execute use_case request now w).0 ≡ ok c
      → IsIssued c
  execute-IsIssued c aware stored h =
      let r = execute-IsRun c h in
      let m = r.made in
      let (zone, instant, in_range) = add-eq-ok now use_case.context_ttl r.expires_at r.in_range in
      record {
        user = ap (λ k. k.user_id) m;
        session = ap (λ k. k.session_id) m;
        strength = ap (λ k. k.authentication_strength) m;
        tenant = ap (λ k. k.tenant_id) m;
        organization = ap (λ k. k.organization_id) m;
        member = ap (λ k. k.membership_id) m;
        roles = ap (λ k. k.roles) m;
        no_permissions = ap (λ k. k.permissions_snapshot) m;
        profile = ap (λ k. k.profile_type) m;
        channel = ap (λ k. k.channel) m;
        device = ap (λ k. k.device_id) m;
        issued_now = ap (λ k. k.issued_at) m;
        expiry_zone = ap (λ k. k.expires_at.aware) m ∙ zone;
        expiry = ap (λ k. k.expires_at.instant) m ∙ instant;
        expiry_in_range = rw m in_range;
        version = r.current ∙ ap ok (sym (ap (λ k. k.policy_version) m));
        id = ap (λ k. k.context_id) m ∙ sym r.fresh;
        run = r;
        only =
            select-HasOnly r.identity.user_id request now r.memberships r.selected aware
              (stored _ _ _ r.listed) r.choice;
      }
