-- ===== src/Surreal/Repository/Issuance.antt =====
-- Security contexts from rows: application/use_cases/resolve_security_context.py over the repository
-- of infrastructure/persistence/surrealdb/membership_repository.py.
use edge_copilot_backend.Prelude.{
  true, false, none, some, List, ◌∷◌, ◌++◌, ◌≡◌, sym, ◌∙◌, ap, In, All,
}
use edge_copilot_backend.Values.{DateTime, Value, null, get}
use edge_copilot_backend.Errors.{ok, raise, type_error, ok_injective}
use edge_copilot_backend.Time.{IsAware}
use edge_copilot_backend.Identity.{MembershipReference, MembershipStatus, is_currently_valid}
use edge_copilot_backend.Identity.Validity.{HasAwareTimes}
use edge_copilot_backend.Security.{SecurityContext}
use edge_copilot_backend.Resolve
use edge_copilot_backend.Resolve.{
  ResolveSecurityContextRequest, ResolveSecurityContext, World, select,
}
use edge_copilot_backend.Resolve.Members.{select-In}
use edge_copilot_backend.Resolve.Selection.{select_naive}
use edge_copilot_backend.Resolve.Issue.{execute-IsRun}
use edge_copilot_backend.Surreal.Client.{Row, SurrealLibrary, SurrealDbClient}
use edge_copilot_backend.Surreal.Rows.{Builtins, parse_datetime, row_to_membership, or_min}
use edge_copilot_backend.Surreal.Rows.Reading.{IsReadFrom}
use edge_copilot_backend.Surreal.Repository.{
  statement, variables, all_rows, SurrealDbMembershipRepository,
}
use edge_copilot_backend.Surreal.Repository.Listing.{
  memberships_of-In, row_to_membership-IsReadFrom, list_by_user-IsListed,
}

-- The server answers a SELECT with a WHERE by rows that satisfy it: those of the user that is asked
-- for.
abbrev pub SelectsByUser : SurrealLibrary → Type 0
SelectsByUser library =
    (s : library.State) (c : library.Connection) (user_id : Value) (responses : List (List Row))
    → (library.query s c statement (variables user_id)).0 ≡ ok responses
    → (row : Row) → In row (all_rows responses)
    → get "user_id" row ≡ some user_id

module _ (client : SurrealDbClient) (builtins : Builtins) (use_case : ResolveSecurityContext) where
  -- The use case with the repository of SurrealDB.
  abbrev pub over_surreal : ResolveSecurityContext
  over_surreal = record use_case {
    membership_repository = SurrealDbMembershipRepository client builtins;
  }

  -- The row that a context comes from.
  pub record ComesFromRow (now : DateTime) (c : SecurityContext) : Type 0 where
    pub row : Row
    pub membership : MembershipReference
    pub owned : get "user_id" row ≡ some c.user_id
    pub read : IsReadFrom builtins row membership
    pub in_force : is_currently_valid membership now ≡ ok true
    pub tenant : c.tenant_id ≡ membership.tenant_id
    pub organization : c.organization_id ≡ membership.organization_id
    pub member : c.membership_id ≡ some membership.membership_id
    pub roles : c.roles ≡ membership.role_references

  -- Over a server that answers the query by rows of the user that is asked for: whatever the
  -- request asks for, a context that is issued comes from a row of its own user. Its tenant, its
  -- organization, its id of membership and its roles are read from that row, whose membership was
  -- found to be in force. No time zones are needed for this.
  pub execute-ComesFromRow :
      (request : ResolveSecurityContextRequest) (now : DateTime) (w : World over_surreal)
      (c : SecurityContext)
      → SelectsByUser client.library
      → (Resolve.execute over_surreal request now w).0 ≡ ok c
      → ComesFromRow now c
  execute-ComesFromRow request now w c selects h =
      let r = execute-IsRun over_surreal request now w c h in
      let l =
        list_by_user-IsListed client builtins r.identity.user_id w.memberships r.memberships
          r.listed in
      let (listed, valid) =
        select-In r.identity.user_id request now r.memberships r.selected r.choice in
      let (row, found, read) =
        memberships_of-In builtins (all_rows l.responses) r.memberships r.selected l.read listed in
      record {
        row = row;
        membership = r.selected;
        owned =
            selects _ l.connection r.identity.user_id l.responses l.answered row found
            ∙ ap some (sym (ap (λ k. k.user_id) r.made));
        read = row_to_membership-IsReadFrom builtins row r.selected read;
        in_force = valid;
        tenant = ap (λ k. k.tenant_id) r.made;
        organization = ap (λ k. k.organization_id) r.made;
        member = ap (λ k. k.membership_id) r.made;
        roles = ap (λ k. k.roles) r.made;
      }

module _ (builtins : Builtins) where
  null_start :
      (row : Row) (m : MembershipReference)
      → IsReadFrom builtins row m
      → get "valid_from" row ≡ some null
      → m.valid_from.aware ≡ false
  unfolding parse_datetime
  null_start row m r h =
      let same' : r.start_value ≡ null = cc (r.start_column, h) in
      let start : none ≡ r.start =
        ok_injective (sym (ap (parse_datetime builtins) same') ∙ r.start_parsed) in
      ap (λ (d : DateTime). d.aware) (r.from ∙ ap or_min (sym start))

  -- A row of an active membership whose `valid_from` is null makes the selection raise a TypeError,
  -- with a clock that has a time zone, whatever the request asks for and whatever other memberships
  -- the user has: those listed before it, with time zones, and those listed after it.
  pub select_null_start :
      (user_id : Value) (request : ResolveSecurityContextRequest) (now : DateTime)
      (before after : List MembershipReference) (row : Row) (m : MembershipReference)
      → IsAware now
      → All HasAwareTimes before
      → row_to_membership builtins row ≡ ok m
      → get "valid_from" row ≡ some null
      → m.status ≡ MembershipStatus.active
      → select user_id request now (before ++ m ∷ after) ≡ raise type_error
  select_null_start user_id request now before after row m p aware read h active =
      select_naive user_id request now before after m p aware active
        (null_start row m (row_to_membership-IsReadFrom builtins row m read) h)
