-- ===== src/Surreal/Repository.antt =====
-- infrastructure/persistence/surrealdb/membership_repository.py: the repository.
pub mod Listing
pub mod Issuance
use edge_copilot_backend.Prelude.{String, ◌<>◌, List, [], ◌∷◌, ◌++◌}
use edge_copilot_backend.Values.{Value, Fields, end, field}
use edge_copilot_backend.Errors
use edge_copilot_backend.Errors.{Result, ok}
use edge_copilot_backend.Exec.{Exec, from, return, ◌>>=◌}
use edge_copilot_backend.Identity.{MembershipReference}
use edge_copilot_backend.Ports.{MembershipRepository}
use edge_copilot_backend.Surreal.Client.{Row, SurrealDbClient, ClientWorld, Connection, connect}
use edge_copilot_backend.Surreal.Rows.{Builtins, row_to_membership}

-- `_TABLE`, and the query with its one variable.
abbrev pub table : String
table = "membership"

abbrev pub statement : String
statement = "SELECT * FROM " <> table <> " WHERE user_id = $user_id"

abbrev pub variables : Value → Fields
variables user_id = field "user_id" user_id end

-- The loop that extends `rows` with the result of each response.
unfoldable pub all_rows : List (List Row) → List Row
all_rows [] = []
all_rows (result ∷ responses) = result ++ all_rows responses

-- `tuple(_row_to_membership(row) for row in rows)`
unfoldable pub memberships_of : Builtins → List Row → Result (List MembershipReference)
memberships_of builtins [] = ok []
memberships_of builtins (row ∷ rows) =
    Errors.◌>>=◌ (row_to_membership builtins row)
      λ m. Errors.◌>>=◌ (memberships_of builtins rows) λ rest. ok (m ∷ rest)

module _ (client : SurrealDbClient) (builtins : Builtins) where
  abbrev pub query : Connection client → Value → Exec (ClientWorld client) (List (List Row))
  query connection user_id w =
      let (r, s) = client.library.query w.library connection statement (variables user_id) in
      (r, record w { library = s })

  -- `list_by_user(user_id)`
  unfoldable pub list_by_user : Value → Exec (ClientWorld client) (List MembershipReference)
  list_by_user user_id = do
    connection ← connect client
    responses ← query connection user_id
    from (memberships_of builtins (all_rows responses))

  -- The repository, as the port that the use cases take.
  abbrev pub SurrealDbMembershipRepository : MembershipRepository
  SurrealDbMembershipRepository = record {
    State = ClientWorld client;
    list_by_user = λ w user_id. list_by_user user_id w;
  }
