-- ===== src/Surreal/Client/Tasks/Race.antt =====
-- Two tasks of infrastructure/persistence/surrealdb/client.py that call `connect` at the same time.
use edge_copilot_backend.Prelude.{
  ℕ, Option, none, some, [], ◌∷◌, Bool-cases, ◌≡◌, ◌≢◌, refl, sym, ◌∙◌, ap, inl, inr, if◌then◌else◌,
}
use edge_copilot_backend.Prelude.Text.{truthy}
use edge_copilot_backend.Errors.{ok}
use edge_copilot_backend.Tasks.{Pool, turn_same, turn_other, turn_world, turn, turns}
use edge_copilot_backend.Surreal.Client.{SurrealDbClient, ClientWorld, Connection, new}
use edge_copilot_backend.Surreal.Client.Tasks.{
  Place, begun, connecting, signing, selecting, returned, segment, advance,
}

-- A server that takes every connection, sign-in and choice of a database.
pub record Accepts (client : SurrealDbClient) : Type 0 where
  pub connects :
      (s : client.library.State) (c : Connection client) → (client.library.connect s c).0 ≡ ok tt
  pub signs_in :
      (s : client.library.State) (c : Connection client)
      → (client.library.sign_in s c client.username client.password).0 ≡ ok tt
  pub selects :
      (s : client.library.State) (c : Connection client)
      → (client.library.select_database s c client.database_namespace client.database).0 ≡ ok tt

module _ (client : SurrealDbClient) where
  -- Every task calls `connect` of the one client.
  abbrev pub run_task :
      ℕ
      → ℕ
      → Place (Connection client)
      → ClientWorld client
      → Place (Connection client) × ClientWorld client
  run_task i t place w = advance client place w

  abbrev pub made : ClientWorld client → Connection client
  made w = (client.library.new w.library client.url).0

  abbrev Clients : Type 0
  Clients = Pool (Place (Connection client)) (ClientWorld client)

  -- Where a task goes on to, and what the client then remembers.
  abbrev onward : Place (Connection client) → Place (Connection client)
  onward (connecting c) = if truthy client.username then signing c else selecting c
  onward (signing c) = selecting c
  onward (selecting c) = returned (ok c)
  onward place = place

  abbrev kept : Place (Connection client) → Option (Connection client) → Option (Connection client)
  kept (selecting c) old = some c
  kept _ old = old

  abbrev IsRunning : Place (Connection client) → Type 0
  IsRunning begun = ⊥
  IsRunning _ = Unit

  advance-onward :
      Accepts client
      → (place : Place (Connection client)) (w : ClientWorld client) → IsRunning place
      → ((advance client place w).0 ≡ onward place)
        × ((advance client place w).1.connection ≡ kept place w.connection)
  unfolding advance segment
  advance-onward law begun w running = absurd running
  advance-onward law (connecting c) w _ = rw (law.connects w.library c) (refl, refl)
  advance-onward law (signing c) w _ = rw (law.signs_in w.library c) (refl, refl)
  advance-onward law (selecting c) w _ = rw (law.selects w.library c) (refl, refl)
  advance-onward law (returned r) w _ = (refl, refl)

  -- Where two tasks stand, and what the client remembers.
  record Both (s : Clients) (i j : ℕ) (p q : Place (Connection client))
      (k : Option (Connection client)) : Type 0 where
    first : s.place i ≡ p
    second : s.place j ≡ q
    remembered : s.world.connection ≡ k

  module _ (i j : ℕ) (other : i ≢ j) where
    abbrev round : Clients → Clients
    round s = turn run_task j (turn run_task i s)

    step_i :
        {q k : _} (s : Clients) (p : Place (Connection client))
        → Both s i j p q k
        → Both
            (turn run_task i s)
            i
            j
            (advance client p s.world).0
            q
            (advance client p s.world).1.connection
    step_i s p b = record {
      first = turn_same run_task s i b.first;
      second = turn_other run_task s i j other ∙ b.second;
      remembered = ap (λ (w : ClientWorld client). w.connection) (turn_world run_task s i b.first);
    }

    step_j :
        {p k : _} (s : Clients) (q : Place (Connection client))
        → Both s i j p q k
        → Both
            (turn run_task j s)
            i
            j
            p
            (advance client q s.world).0
            (advance client q s.world).1.connection
    step_j s q b = record {
      first = turn_other run_task s j i (λ e. other (sym e)) ∙ b.first;
      second = turn_same run_task s j b.second;
      remembered = ap (λ (w : ClientWorld client). w.connection) (turn_world run_task s j b.second);
    }

    makes :
        (w : ClientWorld client)
        → w.connection ≡ none
        → advance client begun w ≡ (connecting (made w), (new client w).1)
    unfolding advance segment
    makes w h = rw h refl

    begins :
        (s : Clients)
        → Both s i j begun begun none
        → Both
            (round s)
            i
            j
            (connecting (made s.world))
            (connecting (made (new client s.world).1))
            none
    begins s b =
        let one = makes s.world b.remembered in
        let world = turn_world run_task s i b.first ∙ ap (λ p. p.1) one in
        let t = turn run_task i s in
        let absent = ap (λ (w : ClientWorld client). w.connection) world ∙ b.remembered in
        let two = makes t.world absent in
        let b1 = step_i s begun b in
        let b2 = step_j t begun b1 in
        record {
          first = b2.first ∙ ap (λ p. p.0) one;
          second = b2.second ∙ ap (λ p. p.0) two ∙ ap (λ w. connecting (made w)) world;
          remembered = b2.remembered ∙ ap (λ p. p.1.connection) two ∙ absent;
        }

    goes_round :
        Accepts client
        → (s : Clients) (p q : Place (Connection client)) (k : Option (Connection client))
        → IsRunning p
        → IsRunning q
        → Both s i j p q k
        → Both (round s) i j (onward p) (onward q) (kept q (kept p k))
    goes_round law s p q k run_p run_q b =
        let (to_p, kept_p) = advance-onward law p s.world run_p in
        let t = turn run_task i s in
        let (to_q, kept_q) = advance-onward law q t.world run_q in
        let b1 = step_i s p b in
        let b2 = step_j t q b1 in
        record {
          first = b2.first ∙ to_p;
          second = b2.second ∙ to_q;
          remembered =
              b2.remembered
              ∙ kept_q
              ∙ ap (kept q) (b1.remembered ∙ kept_p ∙ ap (kept p) b.remembered);
        }

    -- Three rounds bring two new connections to the end, with a sign-in or without.
    finishes :
        Accepts client
        → (s : Clients) (c d : Connection client) → Both s i j (connecting c) (connecting d) none
        → Both (round (round (round s))) i j (returned (ok c)) (returned (ok d)) (some d)
    finishes law s c d b =
        let b1 = goes_round law s (connecting c) (connecting d) none tt tt b in
        elim (Bool-cases (truthy client.username)) [
          | inl yes' ↦
              let signs : Both (round s) i j (signing c) (signing d) none = rw yes' at b1 in
              let b2 = goes_round law (round s) (signing c) (signing d) none tt tt signs in
              goes_round law (round (round s)) (selecting c) (selecting d) none tt tt b2
          | inr no' ↦
              let chooses : Both (round s) i j (selecting c) (selecting d) none = rw no' at b1 in
              let b2 = goes_round law (round s) (selecting c) (selecting d) none tt tt chooses in
              goes_round law (round (round s)) (returned (ok c)) (returned (ok d)) (some d) tt tt b2
        ]

    -- Over a server that takes every connection: two tasks that call `connect` while the client has no
    -- connection, and then take turns, each return a connection that it made for itself. The client
    -- remembers that of the second alone.
    pub two_connections :
        Accepts client
        → (s : Clients) → s.place i ≡ begun
        → s.place j ≡ begun
        → s.world.connection ≡ none
        → ((turns run_task (i ∷ j ∷ i ∷ j ∷ i ∷ j ∷ i ∷ j ∷ []) s).place i
            ≡ returned (ok (made s.world)))
          × ((turns run_task (i ∷ j ∷ i ∷ j ∷ i ∷ j ∷ i ∷ j ∷ []) s).place j
              ≡ returned (ok (made (new client s.world).1)))
          × ((turns run_task (i ∷ j ∷ i ∷ j ∷ i ∷ j ∷ i ∷ j ∷ []) s).world.connection
              ≡ some (made (new client s.world).1))
    unfolding turns
    two_connections law s at at' absent =
        let b = begins s (record { first = at; second = at'; remembered = absent }) in
        let last = finishes law (round s) _ _ b in (last.first, last.second, last.remembered)
