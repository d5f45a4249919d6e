-- ===== src/Surreal/Client/Tasks/Alone.antt =====
-- A task of infrastructure/persistence/surrealdb/client.py that runs with no other in between does what
-- `connect` does.
use edge_copilot_backend.Prelude.{
  ℕ, suc, ◌≤◌, Option, none, some, Bool-cases, ◌≡◌, refl, arith, inl, inr,
}
use edge_copilot_backend.Prelude.Text.{truthy}
use edge_copilot_backend.Errors.{Result, Result-cases}
use edge_copilot_backend.Exec.{Exec, from, resume, ◌>>=◌, ◌>>◌}
use edge_copilot_backend.Tasks.Alone.{Lands, resume-Lands, alone, alone_lem}
use edge_copilot_backend.Surreal.Client.{
  SurrealDbClient, ClientWorld, Connection, run, establish, or_establish, connect,
}
use edge_copilot_backend.Surreal.Client.Connections.{connecting, selecting}
use edge_copilot_backend.Surreal.Client.Tasks
use edge_copilot_backend.Surreal.Client.Tasks.{Place, begun, returned, return_or_make, segment}

module _ (client : SurrealDbClient) where
  -- What is left of `connect` at a place.
  abbrev remaining : Place (Connection client) → Exec (ClientWorld client) (Connection client)
  remaining begun = connect client
  remaining (Tasks.connecting c) = connecting client c
  remaining (Tasks.signing c) =
      run client (λ s. client.library.sign_in s c client.username client.password)
      >> selecting client c
  remaining (Tasks.selecting c) = selecting client c
  remaining (returned r) = from r

  made_or_kept :
      (kept : Option (Connection client)) (w : ClientWorld client)
      → or_establish client kept w ≡ resume remaining (return_or_make client kept w)
  unfolding establish
  made_or_kept (some c) w = refl
  made_or_kept none w = refl

  segment-remaining :
      (place : Place (Connection client)) (w : ClientWorld client)
      → remaining place w ≡ resume remaining (segment client place w)
  unfolding segment connect
  segment-remaining begun w = made_or_kept w.connection w
  segment-remaining (Tasks.connecting c) w =
      elim (Result-cases (client.library.connect w.library c).0) [
        | inr (e, h) ↦ rw h refl
        | inl (_, h) ↦ elim (Bool-cases (truthy client.username)) [
          | inl yes' ↦ rw (h, yes') refl
          | inr no' ↦ rw (h, no') refl
        ]
      ]
  segment-remaining (Tasks.signing c) w =
      elim (Result-cases (client.library.sign_in w.library c client.username client.password).0) [
        | inr (e, h) ↦ rw h refl
        | inl (_, h) ↦ rw h refl
      ]
  segment-remaining (Tasks.selecting c) w =
      elim (Result-cases
        (client.library.select_database w.library c client.database_namespace client.database).0) [
          | inr (e, h) ↦ rw h refl
          | inl (_, h) ↦ rw h refl
        ]
  segment-remaining (returned r) w = refl

  -- How many segments are left at most.
  abbrev left : Place (Connection client) → ℕ
  left begun = 4
  left (Tasks.connecting _) = 3
  left (Tasks.signing _) = 2
  left (Tasks.selecting _) = 1
  left (returned _) = 0

  abbrev Leads : ℕ → Result (Place (Connection client)) × ClientWorld client → Type 0
  Leads n = Lands returned (λ q. left q ≤ n)

  after_call :
      (n : ℕ) (call : Exec (ClientWorld client) (Unit {0}))
      (rest : Unit {0} → Exec (ClientWorld client) (Place (Connection client)))
      (w : ClientWorld client)
      → ((v : ClientWorld client) → Leads n (rest tt v))
      → Leads n ((call >>= rest) w)
  after_call n call rest w h =
      resume-Lands returned (λ q. left q ≤ n) rest (call w) (λ e. omega arith) (λ _. h (call w).1)

  segment-Leads :
      (n : ℕ) (place : Place (Connection client)) (w : ClientWorld client)
      → left place ≤ suc n
      → Leads n (segment client place w)
  unfolding segment
  segment-Leads n begun w h = made w.connection
    where
      made : (kept : Option (Connection client)) → Leads n (return_or_make client kept w)
      made (some c) = omega arith
      made none = omega (arith, h)
  segment-Leads n (Tasks.connecting c) w h =
      after_call n (run client (λ s. client.library.connect s c)) _ w (λ v.
        elim (Bool-cases (truthy client.username)) [
          | inl yes' ↦ rw yes' omega (arith, h)
          | inr no' ↦ rw no' omega (arith, h)
        ])
  segment-Leads n (Tasks.signing c) w h =
      after_call n (run client (λ s. client.library.sign_in s c client.username client.password)) _
        w (λ v. omega (arith, h))
  segment-Leads n (Tasks.selecting c) w h =
      after_call n
        (run client
          (λ s. client.library.select_database s c client.database_namespace client.database))
        _ w (λ v. omega arith)
  segment-Leads n (returned r) w h = omega arith

  left_none :
      (place : Place (Connection client))
      → left place ≡ 0
      → (r : Result (Connection client)) × (place ≡ returned r)
  left_none (returned r) h = (r, refl)
  left_none _ h = ground arith

  -- A task that no other interrupts comes to its end in at most four segments, with the outcome and
  -- the state that `connect` has.
  alone-connect :
      (w : ClientWorld client)
      → alone returned (segment client) 4 (begun, w)
        ≡ (returned (connect client w).0, (connect client w).1)
  alone-connect w =
      alone_lem returned (segment client) remaining left (λ r v. refl) segment-remaining
        segment-Leads left_none 4 begun w (omega arith)
