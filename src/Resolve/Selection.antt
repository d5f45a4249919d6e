-- ===== src/Resolve/Selection.antt =====
-- Which membership application/use_cases/resolve_security_context.py selects.
use edge_copilot_backend.Prelude.{
  String, true, false, Option, none, some, List, [], ◌∷◌, ◌++◌, ◌≡◌, ◌⊎◌, ◌↔◌, refl, keep, All, inl,
  inr,
}
use edge_copilot_backend.Prelude.Counting.{HasNone, HasOnly, HasTwo, keep-nil, keep-only, keep-two}
use edge_copilot_backend.Values.{Value, DateTime}
use edge_copilot_backend.Errors.{
  Result, ok, raise, domain, type_error, DomainError, ErrorKind, no_valid_membership_error,
  ambiguous_tenant_context_error,
}
use edge_copilot_backend.Time.{IsAware}
use edge_copilot_backend.Identity.{MembershipStatus, MembershipReference}
use edge_copilot_backend.Identity.Validity.{HasAwareTimes, is_currently_valid_naive}
use edge_copilot_backend.Resolve.{
  ResolveSecurityContextRequest, narrow, narrow_valid, select, valid_memberships, only_candidate,
}
use edge_copilot_backend.Resolve.Fits.{
  Fits, fits, fits_iff, in_force, is_currently_valid_lem, valid_memberships_lem, narrow-in_force,
}

-- The call raises a domain error of the class.
abbrev pub RaisesKind : {A : Type 0} → ErrorKind → Result A → Type 0
RaisesKind k r = (e : DomainError) × (r ≡ raise (domain e)) × (e.kind ≡ k)

narrow-nil : (tenant organization : Option String) → narrow [] tenant organization ≡ []
unfolding narrow
narrow-nil none none = refl
narrow-nil none (some o) = refl
narrow-nil (some t) none = refl
narrow-nil (some t) (some o) = refl

valid_memberships_naive :
    (now : DateTime) (before after : List MembershipReference) (m : MembershipReference)
    → IsAware now
    → All HasAwareTimes before
    → m.status ≡ MembershipStatus.active
    → m.valid_from.aware ≡ false
    → valid_memberships now (before ++ m ∷ after) ≡ raise type_error
unfolding valid_memberships
valid_memberships_naive now [] after m p aware is_active naive =
    rw (is_currently_valid_naive m now is_active naive p)
valid_memberships_naive now (b ∷ before) after m p (first, aware) is_active naive = rw (
  is_currently_valid_lem b now p first,
  valid_memberships_naive now before after m p aware is_active naive,
)

module _ (user_id : Value) (request : ResolveSecurityContextRequest) where
  -- The outcome for a number of candidates.
  abbrev pub Outcome : List MembershipReference → Result MembershipReference → Type 0
  Outcome [] r = RaisesKind no_valid_membership_error r
  Outcome (m ∷ []) r = r ≡ ok m
  Outcome (m ∷ n ∷ others) r = RaisesKind ambiguous_tenant_context_error r

  only_candidate-Outcome :
      (candidates : List MembershipReference)
      → Outcome candidates (only_candidate user_id request candidates)
  only_candidate-Outcome [] = (_, refl, refl)
  only_candidate-Outcome (m ∷ []) = refl
  only_candidate-Outcome (m ∷ n ∷ others) = (_, refl, refl)

  narrow_valid-Outcome :
      (valid : List MembershipReference)
      → Outcome
          (narrow valid request.requested_tenant_id request.requested_organization_id)
          (narrow_valid user_id request valid)
  narrow_valid-Outcome [] =
      rw (narrow-nil request.requested_tenant_id request.requested_organization_id) (_, refl, refl)
  narrow_valid-Outcome (m ∷ valid) = only_candidate-Outcome _

  pub select-Outcome :
      (now : DateTime) (memberships : List MembershipReference)
      → IsAware now
      → All HasAwareTimes memberships
      → Outcome (keep (fits request now) memberships) (select user_id request now memberships)
  unfolding select
  select-Outcome now memberships p aware =
      rw (valid_memberships_lem memberships now p aware, ← narrow-in_force request now memberships)
        (narrow_valid-Outcome (keep (in_force now) memberships))

  -- Where all times have time zones, the selection has exactly three outcomes. If one membership of
  -- the list, and no other, is in force and fits the hints of the request, that one is selected. If
  -- none does, NoValidMembershipError is raised; if two or more do, AmbiguousTenantContextError.
  pub select_cases :
      (now : DateTime) (memberships : List MembershipReference)
      → IsAware now
      → All HasAwareTimes memberships
      → ((m : MembershipReference) × HasOnly (Fits request now) m memberships
          × (select user_id request now memberships ≡ ok m))
        ⊎ (HasNone (Fits request now) memberships
            × RaisesKind no_valid_membership_error (select user_id request now memberships))
        ⊎ (HasTwo (Fits request now) memberships
            × RaisesKind ambiguous_tenant_context_error (select user_id request now memberships))
  select_cases now memberships p aware =
      by_candidates (keep (fits request now) memberships) refl
        (select-Outcome now memberships p aware)
    where
      decides : (m : MembershipReference) → (fits request now m ≡ true) ↔ Fits request now m
      decides m = fits_iff request now m

      by_candidates :
          (candidates : List MembershipReference)
          → keep (fits request now) memberships ≡ candidates
          → Outcome candidates (select user_id request now memberships)
          → ((m : MembershipReference) × HasOnly (Fits request now) m memberships
              × (select user_id request now memberships ≡ ok m))
            ⊎ (HasNone (Fits request now) memberships
                × RaisesKind no_valid_membership_error (select user_id request now memberships))
            ⊎ (HasTwo (Fits request now) memberships
                × RaisesKind ambiguous_tenant_context_error
                    (select user_id request now memberships))
      by_candidates [] kept outcome =
          inr
            (inl (keep-nil (Fits request now) (fits request now) decides memberships kept, outcome))
      by_candidates (m ∷ []) kept outcome =
          inl
            (m, keep-only (Fits request now) (fits request now) decides memberships m kept, outcome)
      by_candidates (m ∷ n ∷ others) kept outcome =
          inr
            (inr (keep-two (Fits request now) (fits request now) decides memberships kept, outcome))

  -- One active membership whose `valid_from` has no time zone makes the selection raise a TypeError,
  -- whatever else the user has: the memberships before it, with time zones, and those after it.
  pub select_naive :
      (now : DateTime) (before after : List MembershipReference) (m : MembershipReference)
      → IsAware now
      → All HasAwareTimes before
      → m.status ≡ MembershipStatus.active
      → m.valid_from.aware ≡ false
      → select user_id request now (before ++ m ∷ after) ≡ raise type_error
  unfolding select
  select_naive now before after m p aware is_active naive =
      rw (valid_memberships_naive now before after m p aware is_active naive)
