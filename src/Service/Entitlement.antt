-- ===== src/Service/Entitlement.antt =====
-- What stands behind a security context that the HTTP dependency hands to a route.
use mathlib.Core.Path.{subst}
use edge_copilot_backend.Prelude.{ℕ, String, ◌≡◌, inl, inr, sym, ◌∙◌, ap}
use edge_copilot_backend.Values.{DateTime}
use edge_copilot_backend.Errors.{ok, ok_injective, raise-ne-ok}
use edge_copilot_backend.Ports.{AuthenticatedIdentity}
use edge_copilot_backend.Policy.{current_policy_version}
use edge_copilot_backend.Security.{SecurityContext}
use edge_copilot_backend.Keycloak.{verify_token}
use edge_copilot_backend.Keycloak.Verification.{IsVerified, verify_token-IsVerified}
use edge_copilot_backend.Resolve
use edge_copilot_backend.Resolve.Issue.{execute-IsRun}
use edge_copilot_backend.Surreal.Repository.Issuance.{
  SelectsByUser, ComesFromRow, execute-ComesFromRow,
}
use edge_copilot_backend.Http.Dependency.{
  Headers, RequestWorld, dependency, Carries, IsAskedFor, IsAnswer, dependency_cases,
}
use edge_copilot_backend.Service.{Adapters, issuing}

module _ (adapters : Adapters) (seconds_now : ℕ) (now : DateTime) where
  abbrev use_case : Resolve.ResolveSecurityContext
  use_case = issuing adapters seconds_now now

  -- Token, identity, row: what entitles a request to its context.
  pub record IsEntitled (headers : Headers) (s : RequestWorld use_case) (c : SecurityContext)
      : Type 0 where
    pub token : String
    pub carried : Carries headers.authorization token
    pub identity : AuthenticatedIdentity
    pub verified : IsVerified adapters.provider seconds_now token s.world.identities identity
    pub user : c.user_id ≡ identity.user_id
    pub session : c.session_id ≡ identity.session_id
    pub row : ComesFromRow adapters.client adapters.builtins use_case now c
    pub version : c.policy_version ≡ current_policy_version adapters.engine

  -- Over a database server that answers the query by rows of the user that is asked for: a context
  -- that the dependency returns rests on the bearer token of the request, which jose decoded with a
  -- key of the realm, for the audience and the issuer of the service. Its user and its session are
  -- claims of that token, and neither is empty. Its tenant, its organization and its roles are those
  -- of a row of that user, in force by the test of the code; its policy version is the engine's.
  pub dependency-IsEntitled :
      (profile_type : String) (headers : Headers) (s : RequestWorld use_case) (c : SecurityContext)
      → SelectsByUser adapters.client.library
      → (dependency use_case profile_type headers now s).0 ≡ ok c
      → IsEntitled headers s c
  dependency-IsEntitled profile_type headers s c selects h =
      elim (dependency_cases use_case profile_type headers now s) [
        | inl refused ↦ absurd (raise-ne-ok (sym (ap (λ p. p.0) refused) ∙ h))
        | inr (token, request, carries, asked, answer) ↦
            by_answer token request carries asked answer
      ]
    where
      by_answer :
          (token : String) (request : Resolve.ResolveSecurityContextRequest)
          → Carries headers.authorization token
          → IsAskedFor profile_type headers token request
          → IsAnswer use_case profile_type headers now s request
          → IsEntitled headers s c
      by_answer token request carries asked (IsAnswer.raised e _ thrown _) =
          absurd (raise-ne-ok (sym thrown ∙ h))
      by_answer token request carries asked (IsAnswer.issued d given returned _) =
          let run = given ∙ ap ok (ok_injective (sym returned ∙ h)) in
          let r = execute-IsRun use_case request now s.world c run in
          record {
            token = token;
            carried = carries;
            identity = r.identity;
            verified =
                verify_token-IsVerified adapters.provider seconds_now token s.world.identities
                  r.identity
                  (subst
                    (λ t.
                      (verify_token adapters.provider seconds_now t s.world.identities).0
                      ≡ ok r.identity)
                    asked.token_passed r.verified);
            user = ap (λ k. k.user_id) r.made;
            session = ap (λ k. k.session_id) r.made;
            row =
                execute-ComesFromRow adapters.client adapters.builtins use_case request now s.world
                  c selects run;
            version = ap (λ k. k.policy_version) r.made ∙ sym (ok_injective r.current);
          }
