-- ===== src/Resolve/Fits.antt =====
-- When a membership fits a request, and the filters of
-- application/use_cases/resolve_security_context.py as one.
use edge_copilot_backend.Prelude.{
  ℕ, ◌≤◌, String, Bool, true, false, Option, none, some, List, [], ◌∷◌, ◌≡◌, ◌↔◌, ◌&&◌, ◌==◌, refl,
  sym, ◌∙◌, ap, arith, leb, ltb, eq_iff, keep, All,
}
use edge_copilot_backend.Prelude.Counting.{keep-keep, keep-all}
use edge_copilot_backend.Values.{DateTime}
use edge_copilot_backend.Errors.{ok}
use edge_copilot_backend.Time.{IsAware}
use edge_copilot_backend.StateMachine.{same}
use edge_copilot_backend.StateMachine.Laws.{same→eq, same_refl}
use edge_copilot_backend.Identity.{
  MembershipStatus, membership_status_enum, MembershipReference, is_currently_valid,
}
use edge_copilot_backend.Identity.Validity.{
  InForce, EndsAfter, HasAwareTimes, is_currently_valid_iff,
}
use edge_copilot_backend.Resolve.{
  ResolveSecurityContextRequest, valid_memberships, is_text, keep_tenant, keep_organization, narrow,
}

-- The request names no tenant, or that of the membership.
abbrev pub TenantAsked : Option String → MembershipReference → Type 0
TenantAsked none m = Unit
TenantAsked (some requested) m = m.tenant_id ≡ requested

abbrev pub OrganizationAsked : Option String → MembershipReference → Type 0
OrganizationAsked none m = Unit
OrganizationAsked (some requested) m = m.organization_id ≡ some requested

-- The membership is in force, and is what the request asks for, as far as it asks.
abbrev pub Fits : ResolveSecurityContextRequest → DateTime → MembershipReference → Type 0
Fits request now m =
    InForce m now.instant
    × TenantAsked request.requested_tenant_id m
    × OrganizationAsked request.requested_organization_id m

and3_iff :
    {a b c : Bool} {P Q R : Type 0}
    → (a ≡ true) ↔ P
    → (b ≡ true) ↔ Q
    → (c ≡ true) ↔ R
    → (((a && b) && c) ≡ true) ↔ (P × Q × R)
and3_iff f g h = (
  (λ e. (f.0 (ground arith), g.0 (ground arith), h.0 (ground arith))),
  (λ (p, q, r). cc (f.1 p, g.1 q, h.1 r)),
)

starts_iff : (a b : ℕ) → (leb a b ≡ true) ↔ (a ≤ b)
starts_iff a b = ground arith

Bool_ext : (a b : Bool) → (a ≡ true → b ≡ true) → (b ≡ true → a ≡ true) → a ≡ b
Bool_ext true b f g = sym (f refl)
Bool_ext false true f g = g refl
Bool_ext false false f g = refl

-- The same as tests.
abbrev ends_after : ℕ → Option DateTime → Bool
ends_after now none = true
ends_after now (some u) = ltb now u.instant

abbrev pub in_force : DateTime → MembershipReference → Bool
in_force now m =
    (same m.status MembershipStatus.active && leb m.valid_from.instant now.instant)
    && ends_after now.instant m.valid_until

abbrev tenant_asked : Option String → MembershipReference → Bool
tenant_asked none m = true
tenant_asked (some requested) m = m.tenant_id == requested

abbrev organization_asked : Option String → MembershipReference → Bool
organization_asked none m = true
organization_asked (some requested) m = is_text m.organization_id requested

abbrev pub fits : ResolveSecurityContextRequest → DateTime → MembershipReference → Bool
fits request now m =
    (in_force now m && tenant_asked request.requested_tenant_id m)
    && organization_asked request.requested_organization_id m

ends_after_iff : (now : ℕ) (u : Option DateTime) → (ends_after now u ≡ true) ↔ EndsAfter now u
ends_after_iff now none = ground arith
ends_after_iff now (some u) = ground arith

active_iff :
    (s : MembershipStatus) → (same s MembershipStatus.active ≡ true) ↔ (s ≡ MembershipStatus.active)
active_iff s = (same→eq s MembershipStatus.active, (λ e. rw e (same_refl MembershipStatus.active)))

in_force_iff :
    (now : DateTime) (m : MembershipReference) → (in_force now m ≡ true) ↔ InForce m now.instant
in_force_iff now m =
    and3_iff (active_iff m.status) (starts_iff m.valid_from.instant now.instant)
      (ends_after_iff now.instant m.valid_until)

tenant_asked_iff :
    (requested : Option String) (m : MembershipReference)
    → (tenant_asked requested m ≡ true) ↔ TenantAsked requested m
tenant_asked_iff none m = ((λ _. tt), (λ _. refl))
tenant_asked_iff (some requested) m = eq_iff m.tenant_id requested

is_text_iff :
    (own : Option String) (requested : String)
    → (is_text own requested ≡ true) ↔ (own ≡ some requested)
is_text_iff none requested = ground arith
is_text_iff (some own) requested = ground (arith, eq_iff own requested)

organization_asked_iff :
    (requested : Option String) (m : MembershipReference)
    → (organization_asked requested m ≡ true) ↔ OrganizationAsked requested m
organization_asked_iff none m = ((λ _. tt), (λ _. refl))
organization_asked_iff (some requested) m = is_text_iff m.organization_id requested

-- The tests decide whether a membership fits.
pub fits_iff :
    (request : ResolveSecurityContextRequest) (now : DateTime) (m : MembershipReference)
    → (fits request now m ≡ true) ↔ Fits request now m
fits_iff request now m =
    and3_iff (in_force_iff now m) (tenant_asked_iff request.requested_tenant_id m)
      (organization_asked_iff request.requested_organization_id m)

-- Where the times have time zones, the first filter keeps what is in force, and does not raise.
pub is_currently_valid_lem :
    (m : MembershipReference) (now : DateTime)
    → IsAware now
    → HasAwareTimes m
    → is_currently_valid m now ≡ ok (in_force now m)
is_currently_valid_lem m now p aware =
    let (b, answer, exact) = is_currently_valid_iff m now p aware in
    let decided = in_force_iff now m in
    answer
    ∙ ap ok (Bool_ext b (in_force now m) (λ e. decided.1 (exact.0 e)) (λ e. exact.1 (decided.0 e)))

pub valid_memberships_lem :
    (memberships : List MembershipReference) (now : DateTime)
    → IsAware now
    → All HasAwareTimes memberships
    → valid_memberships now memberships ≡ ok (keep (in_force now) memberships)
unfolding valid_memberships
valid_memberships_lem [] now p aware = refl
valid_memberships_lem (m ∷ memberships) now p (first, rest) =
    rw (is_currently_valid_lem m now p first, valid_memberships_lem memberships now p rest)

keep_tenant_lem :
    (requested : Option String) (ms : List MembershipReference)
    → keep_tenant requested ms ≡ keep (tenant_asked requested) ms
keep_tenant_lem none ms = sym (keep-all ms)
keep_tenant_lem (some requested) ms = refl

keep_organization_lem :
    (requested : Option String) (ms : List MembershipReference)
    → keep_organization requested ms ≡ keep (organization_asked requested) ms
keep_organization_lem none ms = sym (keep-all ms)
keep_organization_lem (some requested) ms = refl

-- The three filters together keep what fits.
pub narrow-in_force :
    (request : ResolveSecurityContextRequest) (now : DateTime) (ms : List MembershipReference)
    → narrow (keep (in_force now) ms) request.requested_tenant_id request.requested_organization_id
      ≡ keep (fits request now) ms
unfolding narrow
narrow-in_force request now ms =
    keep_organization_lem request.requested_organization_id _
    ∙ ap (keep (organization_asked request.requested_organization_id)) (
        keep_tenant_lem request.requested_tenant_id (keep (in_force now) ms)
        ∙ keep-keep (in_force now) (tenant_asked request.requested_tenant_id) ms)
    ∙ keep-keep _ (organization_asked request.requested_organization_id) ms
