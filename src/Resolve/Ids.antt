-- ===== src/Resolve/Ids.antt =====
-- The ids that `execute` of application/use_cases/resolve_security_context.py takes, where it raises.
use edge_copilot_backend.Prelude.{String, ◌≡◌, inl, inr, refl, sym, ◌∙◌, ap}
use edge_copilot_backend.Values.{DateTime}
use edge_copilot_backend.Errors.{Exception, Result, ok, raise, raise-ne-ok}
use edge_copilot_backend.Exec.{from, ◌>>=◌, bind-eq-raise, rest-answers}
use edge_copilot_backend.Time.{add}
use edge_copilot_backend.Identity.{MembershipReference}
use edge_copilot_backend.Ports.{AuthenticatedIdentity}
use edge_copilot_backend.Resolve.{
  ResolveSecurityContextRequest, ResolveSecurityContext, World, execute, issued, verify_token,
  list_by_user, current_policy_version, new_id,
}
use edge_copilot_backend.Resolve.Issue.{with_expiry, after_selection, after_listing, after_token}

module _ (use_case : ResolveSecurityContext) (request : ResolveSecurityContextRequest)
    (now : DateTime) (w : World use_case) where
  -- A raise gives no id away, where the expiry is not past the last year: whatever makes the issuance
  -- fail, the generator is where it was.
  raise-keeps_ids :
      (e : Exception) (expires_at : DateTime)
      → add now use_case.context_ttl ≡ ok expires_at
      → (execute use_case request now w).0 ≡ raise e
      → (execute use_case request now w).1.ids ≡ w.ids
  unfolding execute
  raise-keeps_ids e expires_at in_range h =
      elim (bind-eq-raise (verify_token use_case request.bearer_token)
        (after_token use_case request now w) w h) [
          | inl stopped ↦ ap (λ v. v.ids) stopped
          | inr (identity, _, run) ↦
              ap (λ p. p.1.ids) run ∙ listing identity _ (sym (ap (λ p. p.0) run) ∙ h)
        ]
    where
      expiring :
          (identity : AuthenticatedIdentity) (selected : MembershipReference)
          (version context_id : String) (u : World use_case)
          → (with_expiry use_case request now w identity selected version context_id u).0 ≡ raise e
          → ⊥
      expiring identity selected version context_id u k =
          let returned : (with_expiry use_case request now w identity selected version context_id
                u).0
              ≡ ok (issued use_case request now identity selected version context_id expires_at) =
            rw in_range refl in
          raise-ne-ok (sym k ∙ returned)

      issuing :
          (identity : AuthenticatedIdentity) (selected : MembershipReference) (v : World use_case)
          → (after_selection use_case request now w identity selected v).0 ≡ raise e
          → (after_selection use_case request now w identity selected v).1.ids ≡ v.ids
      issuing identity selected v k =
          elim (bind-eq-raise (current_policy_version use_case)
            (λ version.
              new_id use_case >>= with_expiry use_case request now w identity selected version)
            v k) [
              | inl stopped ↦ ap (λ u. u.ids) stopped
              | inr (version, _, run) ↦
                  absurd (expiring identity selected version _ _ (rest-answers run k))
            ]

      choosing :
          (identity : AuthenticatedIdentity) (r : Result MembershipReference) (v : World use_case)
          → ((from r >>= after_selection use_case request now w identity) v).0 ≡ raise e
          → ((from r >>= after_selection use_case request now w identity) v).1.ids ≡ v.ids
      choosing identity (ok selected) v k = issuing identity selected v k
      choosing identity (raise e') v k = refl

      listing :
          (identity : AuthenticatedIdentity) (v : World use_case)
          → (after_token use_case request now w identity v).0 ≡ raise e
          → (after_token use_case request now w identity v).1.ids ≡ v.ids
      listing identity v k =
          elim (bind-eq-raise (list_by_user use_case identity.user_id)
            (after_listing use_case request now w identity) v k) [
              | inl stopped ↦ ap (λ u. u.ids) stopped
              | inr (memberships, _, run) ↦
                  ap (λ p. p.1.ids) run ∙ choosing identity _ _ (sym (ap (λ p. p.0) run) ∙ k)
            ]
