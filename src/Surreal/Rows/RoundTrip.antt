-- ===== src/Surreal/Rows/RoundTrip.antt =====
-- Memberships written as rows, and read by
-- infrastructure/persistence/surrealdb/membership_repository.py.
use edge_copilot_backend.Prelude.{List, [], ◌∷◌, String, Option, none, some, ◌≡◌, refl, ap}
use edge_copilot_backend.Values.{
  DateTime, Value, null, text, date, items, Items, nil, cons, end, field, get,
}
use edge_copilot_backend.Errors.{ok}
use edge_copilot_backend.Identity.{
  MembershipStatus, membership_status_value, membership_status_of_value_lem, MembershipReference,
}
use edge_copilot_backend.Surreal.Client.{Row}
use edge_copilot_backend.Surreal.Rows.{
  Builtins, values_of, roles_of, column, membership_status_of, found_status, parse_datetime,
  row_to_membership,
}

abbrev text_or_null : Option String → Value
text_or_null none = null
text_or_null (some t) = text t

abbrev date_or_null : Option DateTime → Value
date_or_null none = null
date_or_null (some d) = date d

-- A list of values as JSON.
abbrev list_of : List Value → Items
list_of [] = nil
list_of (v ∷ vs) = cons v (list_of vs)

values_of-list_of : (vs : List Value) → values_of (list_of vs) ≡ vs
values_of-list_of [] = refl
values_of-list_of (v ∷ vs) = ap (λ rest. v ∷ rest) (values_of-list_of vs)

roles_read : (vs : List Value) → roles_of (items (list_of vs)) ≡ ok vs
unfolding roles_of
roles_read [] = refl
roles_read (v ∷ vs) = ap ok (values_of-list_of (v ∷ vs))

-- A row that holds a membership.
abbrev row_of : MembershipReference → Row
row_of m = field "membership_id" (text m.membership_id) (
    field "user_id" (text m.user_id) (
      field "tenant_id" (text m.tenant_id) (
        field "organization_id" (text_or_null m.organization_id) (
          field "status" (text (membership_status_value m.status)) (
            field "valid_from" (date m.valid_from) (
              field "valid_until" (date_or_null m.valid_until)
                (field "role_references" (items (list_of m.role_references)) end)))))))

status_read :
    (status : MembershipStatus)
    → membership_status_of (text (membership_status_value status)) ≡ ok status
unfolding membership_status_of
status_read status = ap found_status (membership_status_of_value_lem status)

-- A membership that is written as a row is read back as it was, with its roles, its status and its
-- times, and with an organization and an end of validity or without.
row_to_membership-row_of :
    (builtins : Builtins) (m : MembershipReference) → row_to_membership builtins (row_of m) ≡ ok m
unfolding row_to_membership column get parse_datetime
row_to_membership-row_of builtins m = by_options m.organization_id m.valid_until
  where
    by_options :
        (organization_id : Option String) (valid_until : Option DateTime)
        → row_to_membership builtins
            (row_of (record m { organization_id = organization_id; valid_until = valid_until }))
          ≡ ok (record m { organization_id = organization_id; valid_until = valid_until })
    by_options none none = rw (roles_read m.role_references, status_read m.status) refl
    by_options none (some u) = rw (roles_read m.role_references, status_read m.status) refl
    by_options (some o) none = rw (roles_read m.role_references, status_read m.status) refl
    by_options (some o) (some u) = rw (roles_read m.role_references, status_read m.status) refl
