-- ===== src/Surreal/Client.antt =====
-- infrastructure/persistence/surrealdb/client.py
pub mod Connections
pub mod Tasks
use edge_copilot_backend.Prelude.{
  String, Bool, true, false, Option, none, some, List, if◌then◌else◌,
}
use edge_copilot_backend.Prelude.Text.{truthy}
use edge_copilot_backend.Values.{Fields}
use edge_copilot_backend.Errors.{Result, ok}
use edge_copilot_backend.Exec.{Exec, return, ◌>>=◌, ◌>>◌}

-- A row, as the table answers it: a dict of its columns.
abbrev pub Row : Type 0
Row = Fields

-- The package surrealdb: `AsyncSurrealDB(url)`, the methods of the object that are called, and the
-- state of the server and of its connections. `query` answers one list of rows for each response.
pub record SurrealLibrary : Type 1 where
  pub State : Type 0
  pub Connection : Type 0
  pub new : State → String → Connection × State
  pub connect : State → Connection → Result (Unit {0}) × State
  pub sign_in : State → Connection → String → String → Result (Unit {0}) × State
  pub select_database : State → Connection → String → String → Result (Unit {0}) × State
  pub query : State → Connection → String → Fields → Result (List (List Row)) × State
  pub close : State → Connection → Result (Unit {0}) × State

-- The object, less its connection.
pub record SurrealDbClient : Type 1 where
  pub library : SurrealLibrary
  pub url : String
  pub database_namespace : String
  pub database : String
  pub username : String
  pub password : String

module _ (client : SurrealDbClient) where
  abbrev pub Connection : Type 0
  Connection = client.library.Connection

  -- The library's state, and `self._connection`.
  pub record ClientWorld : Type 0 where
    pub library : client.library.State
    pub connection : Option Connection

  abbrev pub new : Exec ClientWorld Connection
  new w =
      let (connection, s) = client.library.new w.library client.url in
      (ok connection, record w { library = s })

  -- A method of a connection that returns nothing.
  abbrev pub run :
      (client.library.State → Result (Unit {0}) × client.library.State)
      → Exec ClientWorld (Unit {0})
  run call w = let (r, s) = call w.library in (r, record w { library = s })

  abbrev pub sign_in : Connection → Exec ClientWorld (Unit {0})
  sign_in connection =
      if truthy client.username
      then run (λ s. client.library.sign_in s connection client.username client.password)
      else return tt

  abbrev pub remember : Option Connection → Exec ClientWorld (Unit {0})
  remember connection w = (ok tt, record w { connection = connection })

  -- What `connect` does where there is no connection yet.
  unfoldable pub establish : Exec ClientWorld Connection
  establish = do
    connection ← new
    run (λ s. client.library.connect s connection)
    sign_in connection
    run (λ s. client.library.select_database s connection client.database_namespace client.database)
    remember (some connection)
    return connection

  abbrev pub or_establish : Option Connection → Exec ClientWorld Connection
  or_establish (some connection) = return connection
  or_establish none = establish

  -- `connect()`
  unfoldable pub connect : Exec ClientWorld Connection
  connect w = or_establish w.connection w

  abbrev pub close_one : Option Connection → Exec ClientWorld (Unit {0})
  close_one none = return tt
  close_one (some connection) = do run (λ s. client.library.close s connection); remember none

  -- `close()`
  unfoldable pub close : Exec ClientWorld (Unit {0})
  close w = close_one w.connection w
