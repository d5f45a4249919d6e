-- ===== src/Policy/Checks.antt =====
-- What `AuthorizationEngine.check` of domain/policy/authorization_engine.py allows.
use mathlib.Core.Path.{subst}
use edge_copilot_backend.Prelude.{
  List, ap, refl, any, any-In, In-any, ℕ, ◌<◌, String, true, false, Option, none, some, ◌≡◌, ◌↔◌,
  arith, eq_iff, leb, contains_iff, In, Option-cases, Bool-cases, inl, inr,
}
use edge_copilot_backend.Values.{Value, DateTime}
use edge_copilot_backend.Errors.{ok}
use edge_copilot_backend.Time.{IsAware, is_since_lem}
use edge_copilot_backend.Security.{
  SecurityContext, is_expired, belongs_to_organization, is_role, has_role,
}
use edge_copilot_backend.Policy.{
  AuthorizationCheckResult, organization_differs, role_missing, check_scope, check,
}

-- The resource belongs to no organization, or to that of the context.
abbrev pub OrganizationFits : SecurityContext → Option String → Type 0
OrganizationFits c none = Unit
OrganizationFits c (some organization) = c.organization_id ≡ some organization

-- No role is required, or the context has it.
abbrev pub RoleHeld : SecurityContext → Option String → Type 0
RoleHeld c none = Unit
RoleHeld c (some role) = In (Value.text role) c.roles

-- What an allowed operation needs at the instant `now`.
pub record Grants (c : SecurityContext) (permission tenant : String) (organization : Option String)
    (role : Option String) (now : ℕ) : Type 0 where
  pub unexpired : now < c.expires_at.instant
  pub tenant_fits : c.tenant_id ≡ tenant
  pub organization_fits : OrganizationFits c organization
  pub role_held : RoleHeld c role
  pub permission_held : In permission c.permissions_snapshot

organization_differs_iff :
    (c : SecurityContext) (organization : Option String)
    → (organization_differs c organization ≡ false) ↔ OrganizationFits c organization
unfolding belongs_to_organization
organization_differs_iff c none = ground arith
organization_differs_iff c (some organization) = elim (Option-cases c.organization_id) [
  | inl outside ↦ ground arith
  | inr (own, inside) ↦ ground (arith, eq_iff own organization)
]

is_role-eq : (role : String) (v : Value) → is_role role v ≡ true → v ≡ Value.text role
is_role-eq role (Value.text t) h = ap Value.text ((eq_iff t role).0 h)
is_role-eq role _ h = cc

any_role_iff :
    (roles : List Value) (role : String)
    → (any (is_role role) roles ≡ true) ↔ In (Value.text role) roles
any_role_iff roles role = (
  (λ h.
      let (v, i, found) = any-In (is_role role) roles h in
      subst (λ u. In u roles) (is_role-eq role v found) i),
  (λ i. In-any (is_role role) i ((eq_iff role role).1 refl)),
)

role_missing_iff :
    (c : SecurityContext) (role : Option String) → (role_missing c role ≡ false) ↔ RoleHeld c role
unfolding has_role
role_missing_iff c none = ground arith
role_missing_iff c (some role) = ground (arith, any_role_iff c.roles role)

-- The tests after the expiry pass together exactly when nothing is missing.
check_scope_iff :
    (c : SecurityContext) (permission tenant : String) (organization role : Option String)
    → ((check_scope c permission tenant organization role).allowed ≡ true) ↔ (
        (c.tenant_id ≡ tenant)
        × OrganizationFits c organization
        × RoleHeld c role
        × In permission c.permissions_snapshot)
unfolding check_scope
check_scope_iff c permission tenant organization role = ground (
  arith,
  eq_iff c.tenant_id tenant,
  organization_differs_iff c organization,
  role_missing_iff c role,
  contains_iff c.permissions_snapshot permission,
)

-- With time zones on both sides, `check` does not raise. It allows exactly what `Grants` says: the
-- context has not expired, its tenant is that of the resource, its organization too if the resource
-- has one, and it holds the permission, and the role if one is required.
pub check_iff :
    (c : SecurityContext) (permission tenant : String) (organization role : Option String)
    (now : DateTime)
    → IsAware now
    → IsAware c.expires_at
    → (r : AuthorizationCheckResult) × (check c permission tenant organization now role ≡ ok r)
      × ((r.allowed ≡ true) ↔ Grants c permission tenant organization role now.instant)
unfolding check is_expired
check_iff c permission tenant organization role now p q =
    let tests = check_scope_iff c permission tenant organization role in
    elim (Bool-cases (leb c.expires_at.instant now.instant)) [
      | inl over ↦ (
        record { allowed = false; reason = "security_context_expired" },
        rw (is_since_lem now c.expires_at p q, over),
        ((λ e. cc), (λ g. ground (arith, g.unexpired))),
      )
      | inr running ↦ (
        check_scope c permission tenant organization role,
        rw (is_since_lem now c.expires_at p q, running),
        (
          (λ e.
              let (a, b, d, f) = tests.0 e in
              record {
                unexpired = ground arith;
                tenant_fits = a;
                organization_fits = b;
                role_held = d;
                permission_held = f;
              }),
          (λ g. tests.1 (g.tenant_fits, g.organization_fits, g.role_held, g.permission_held)),
        ),
      )
    ]
