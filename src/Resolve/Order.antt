-- ===== src/Resolve/Order.antt =====
-- The order in which memberships are listed does not matter to
-- application/use_cases/resolve_security_context.py.
use edge_copilot_backend.Prelude.{List, [], ◌∷◌, ◌≡◌, ◌⊎◌, refl, keep, All, inl, inr}
use edge_copilot_backend.Prelude.Reordering.{
  IsReordered, All-IsReordered, keep-IsReordered, IsReordered-nil, IsReordered-one,
  IsReordered-symm,
}
use edge_copilot_backend.Values.{Value, DateTime}
use edge_copilot_backend.Errors.{
  Result, ok, no_valid_membership_error, ambiguous_tenant_context_error,
}
use edge_copilot_backend.Time.{IsAware}
use edge_copilot_backend.Identity.{MembershipReference}
use edge_copilot_backend.Identity.Validity.{HasAwareTimes}
use edge_copilot_backend.Resolve.{ResolveSecurityContextRequest, select}
use edge_copilot_backend.Resolve.Fits.{fits}
use edge_copilot_backend.Resolve.Selection.{RaisesKind, Outcome, select-Outcome}

-- Both calls select the same membership, or raise an error of the same class.
abbrev pub Agree : Result MembershipReference → Result MembershipReference → Type 0
Agree r s =
    ((m : MembershipReference) × (r ≡ ok m) × (s ≡ ok m))
    ⊎ (RaisesKind no_valid_membership_error r × RaisesKind no_valid_membership_error s)
    ⊎ (RaisesKind ambiguous_tenant_context_error r × RaisesKind ambiguous_tenant_context_error s)

module _ (user_id : Value) (request : ResolveSecurityContextRequest) where
  Outcome-Agree :
      (xs ys : List MembershipReference) (r s : Result MembershipReference)
      → IsReordered xs ys
      → Outcome user_id request xs r
      → Outcome user_id request ys s
      → Agree r s
  Outcome-Agree [] [] r s p h k = inr (inl (h, k))
  Outcome-Agree [] (y ∷ ys) r s p h k = cc (IsReordered-nil p refl)
  Outcome-Agree (x ∷ []) [] r s p h k = cc (IsReordered-one x p refl)
  Outcome-Agree (x ∷ []) (y ∷ []) r s p h k = inl (x, h, cc (IsReordered-one x p refl, k))
  Outcome-Agree (x ∷ []) (y ∷ z ∷ ys) r s p h k = cc (IsReordered-one x p refl)
  Outcome-Agree (x ∷ w ∷ xs) [] r s p h k = cc (IsReordered-nil (IsReordered-symm p) refl)
  Outcome-Agree (x ∷ w ∷ xs) (y ∷ []) r s p h k = cc (IsReordered-one y (IsReordered-symm p) refl)
  Outcome-Agree (x ∷ w ∷ xs) (y ∷ z ∷ ys) r s p h k = inr (inr (h, k))

  -- Where all times have time zones: over the same memberships listed in another order, the selection
  -- selects the same one, or raises an error of the same class. No order of the repository decides.
  pub select-Agree :
      (now : DateTime) (memberships listed : List MembershipReference)
      → IsAware now
      → All HasAwareTimes memberships
      → IsReordered memberships listed
      → Agree (select user_id request now memberships) (select user_id request now listed)
  select-Agree now memberships listed p aware same' =
      Outcome-Agree (keep (fits request now) memberships) (keep (fits request now) listed) _ _
        (keep-IsReordered (fits request now) same')
        (select-Outcome user_id request now memberships p aware)
        (select-Outcome user_id request now listed p (All-IsReordered HasAwareTimes same' aware))
