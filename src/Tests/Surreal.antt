-- ===== src/Tests/Surreal.antt =====
-- Rows, connections and the contexts that come of them.
use edge_copilot_backend.Prelude.{
  ℕ, suc, String, false, Option, none, some, List, [], ◌∷◌, ◌++◌, ◌≡◌, ◌⊎◌, refl, sym, ap, In, here,
  there,
}
use mathlib.Core.Path.{subst}
use edge_copilot_backend.Values.{Value, null, text, items, nil, cons, date, Fields, end, field, get}
use edge_copilot_backend.Errors.{Exception, ok, raise, type_error, value_error, ok_injective}
use edge_copilot_backend.Time.{add, is_before, is_since}
use edge_copilot_backend.Identity.{MembershipReference, MembershipStatus, is_currently_valid}
use edge_copilot_backend.Security.{SecurityContext}
use edge_copilot_backend.Resolve
use edge_copilot_backend.Resolve.{select, issued, valid_memberships, narrow}
use edge_copilot_backend.Surreal.Client.{
  Row, SurrealLibrary, SurrealDbClient, ClientWorld, establish, connect,
}
use edge_copilot_backend.Surreal.Client.Connections.{IsEstablished, connect_cases}
use edge_copilot_backend.Surreal.Rows.{
  Builtins, roles_of, column, membership_status_of, parse_datetime, row_to_membership,
}
use edge_copilot_backend.Surreal.Repository.{all_rows, memberships_of, list_by_user}
use edge_copilot_backend.Surreal.Repository.Issuance.{
  SelectsByUser, over_surreal, ComesFromRow, execute-ComesFromRow, select_null_start,
}
use edge_copilot_backend.Tests.Policy.{at, membership}
use edge_copilot_backend.Tests.Resolve.{asking, somebody, issuing, trusting}

abbrev pub builtins : Builtins
builtins = record {
  from_isoformat = λ t. raise value_error;
  display = λ v. "value";
  repr = λ v. "value";
}

-- A row whose start is null, and one with a status that is none.
abbrev pub row_with : String → Value → Row
row_with status start = field "membership_id" (text "m") (
    field "user_id" (text "u")
      (field "tenant_id" (text "t") (field "status" (text status) (field "valid_from" start end))))

abbrev pub without_start : MembershipReference
without_start = record {
  membership_id = "m";
  user_id = "u";
  tenant_id = "t";
  organization_id = none;
  role_references = [];
  status = MembershipStatus.active;
  valid_from = record { aware = false; instant = 0 };
  valid_until = none;
}

select_null_start_example :
    select (text "u") asking (at 10) ([] ++ without_start ∷ membership (at 5) ∷ [])
    ≡ raise type_error
unfolding row_to_membership roles_of column get parse_datetime membership_status_of
select_null_start_example =
    select_null_start builtins (text "u") asking (at 10) [] (membership (at 5) ∷ [])
      (row_with "active" null) without_start refl tt refl refl refl

-- A server with one row for each user.
abbrev user_row : Value → Row
user_row user_id = field "membership_id" (text "m") (
    field "user_id" user_id (
      field "tenant_id" (text "t") (
        field "status" (text "active") (
          field "valid_from" (date (at 5))
            (field "role_references" (items (cons (text "agent") nil)) end)))))

abbrev user_of : Fields → Value
user_of end = null
user_of (field key value rest) = value

abbrev pub toy_library : SurrealLibrary
toy_library = record {
  State = ℕ;
  Connection = ℕ;
  new = λ s url. (s, suc s);
  connect = λ s c. (ok tt, s);
  sign_in = λ s c username password. (ok tt, s);
  select_database = λ s c ns database. (ok tt, s);
  query = λ s c text variables. (ok ((user_row (user_of variables) ∷ []) ∷ []), s);
  close = λ s c. (ok tt, s);
}

abbrev pub client : SurrealDbClient
client = record {
  library = toy_library;
  url = "ws://surrealdb:8000/rpc";
  database_namespace = "okapi";
  database = "copilot";
  username = "root";
  password = "secret";
}

abbrev pub disconnected : ClientWorld client
disconnected = record { library = 3; connection = none }

connect_cases_example :
    ((e : Exception) × ((connect client disconnected).0 ≡ raise e)
      × ((connect client disconnected).1.connection ≡ none))
    ⊎ ((c : ℕ) × ((connect client disconnected).0 ≡ ok c)
        × (connect client (connect client disconnected).1 ≡ (ok c, (connect client disconnected).1))
        × ((◌≡◌ {A = Option ℕ} none (some c))
            ⊎ ((◌≡◌ {A = Option ℕ} none none) × IsEstablished client disconnected c)))
connect_cases_example = connect_cases client disconnected

In-one : {A : Type 0} {a x : A} → In a (x ∷ []) → a ≡ x
In-one here = refl
In-one (there i) = elim i [ ]

owned :
    (user_id : Value) (rows : List Row) (row : Row)
    → rows ≡ user_row user_id ∷ []
    → In row rows
    → get "user_id" row ≡ some user_id
unfolding get
owned user_id rows row e i = ap (λ (r : Row). get "user_id" r) (In-one (subst (In row) e i))

pub toy_library-SelectsByUser : SelectsByUser toy_library
unfolding all_rows
toy_library-SelectsByUser s c user_id responses h row i =
    owned user_id (all_rows responses) row (ap all_rows (sym (ok_injective h))) i

abbrev issued_context : SecurityContext
issued_context =
    issued (over_surreal client builtins (issuing trusting)) asking (at 10) somebody
      (record without_start { role_references = text "agent" ∷ []; valid_from = at 5 }) "1" "id"
      (at 110)

execute-ComesFromRow_example :
    ComesFromRow client builtins (issuing trusting) (at 10) issued_context
unfolding Resolve.execute add select valid_memberships narrow is_currently_valid is_before is_since
    list_by_user connect establish memberships_of all_rows row_to_membership roles_of column get
    parse_datetime membership_status_of
execute-ComesFromRow_example =
    execute-ComesFromRow client builtins (issuing trusting) asking (at 10)
      (record { identities = tt; memberships = disconnected; policies = tt; ids = 7 })
      issued_context toy_library-SelectsByUser refl
