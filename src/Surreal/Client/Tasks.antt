-- ===== src/Surreal/Client/Tasks.antt =====
-- infrastructure/persistence/surrealdb/client.py under asyncio: `connect`, from one `await` to the
-- next.
pub mod Alone
pub mod Race
use edge_copilot_backend.Prelude.{true, false, Option, none, some, if◌then◌else◌}
use edge_copilot_backend.Prelude.Text.{truthy}
use edge_copilot_backend.Errors.{Result, ok}
use edge_copilot_backend.Exec.{Exec, return, ◌>>=◌, ◌>>◌}
use edge_copilot_backend.Tasks.{landed}
use edge_copilot_backend.Surreal.Client.{
  SurrealDbClient, ClientWorld, Connection, new, run, remember,
}

-- Where a task of `connect` stands, with the connection that it makes: before its start, at one of its
-- three `await`s, or at its end.
pub data Place (C : Type 0) : Type 0 where
  begun : Place C
  connecting signing selecting : C → Place C
  returned : Result C → Place C

module _ (client : SurrealDbClient) where
  -- `if self._connection is not None: return self._connection`, and else the constructor.
  abbrev pub return_or_make :
      Option (Connection client) → Exec (ClientWorld client) (Place (Connection client))
  return_or_make (some connection) = return (returned (ok connection))
  return_or_make none = do connection ← new client; return (connecting connection)

  abbrev pub connects : Connection client → Exec (ClientWorld client) (Place (Connection client))
  connects c = do
    run client (λ s. client.library.connect s c)
    return (if truthy client.username then signing c else selecting c)

  abbrev pub signs_in : Connection client → Exec (ClientWorld client) (Place (Connection client))
  signs_in c = do
    run client (λ s. client.library.sign_in s c client.username client.password)
    return (selecting c)

  abbrev pub selects : Connection client → Exec (ClientWorld client) (Place (Connection client))
  selects c = do
    run client (λ s. client.library.select_database s c client.database_namespace client.database)
    remember client (some c)
    return (returned (ok c))

  -- What a task does from the place where it stands: the call that it awaits, and all up to the next.
  unfoldable pub segment :
      Place (Connection client) → Exec (ClientWorld client) (Place (Connection client))
  segment begun w = return_or_make w.connection w
  segment (connecting c) w = connects c w
  segment (signing c) w = signs_in c w
  segment (selecting c) w = selects c w
  segment (returned r) w = (ok (returned r), w)

  unfoldable pub advance :
      Place (Connection client)
      → ClientWorld client
      → Place (Connection client) × ClientWorld client
  unfolding segment
  advance place w = landed returned (segment place w)
