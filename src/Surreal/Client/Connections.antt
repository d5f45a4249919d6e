-- ===== src/Surreal/Client/Connections.antt =====
-- When infrastructure/persistence/surrealdb/client.py connects, and what it keeps.
use mathlib.Core.Path.{subst}
use edge_copilot_backend.Prelude.{
  String, true, false, ◌≢◌, Bool-cases, none, some, ◌≡◌, ◌⊎◌, inl, inr, refl, sym, ◌∙◌, ap,
  Option-cases,
}
use edge_copilot_backend.Prelude.Text.{truthy}
use edge_copilot_backend.Errors.{Exception, ok, raise, ok_injective, raise-ne-ok, Result-cases}
use edge_copilot_backend.Exec.{Exec, return, ◌>>◌, bind-eq-ok, bind-eq-raise, if-keeps}
use edge_copilot_backend.Surreal.Client.{
  SurrealDbClient, ClientWorld, Connection, new, run, sign_in, remember, establish, connect,
}

truthy-filled : (t : String) → truthy t ≡ true → t ≢ ""
truthy-filled t h e = cc (ap truthy e, h)

untruthy-empty : (t : String) → truthy t ≡ false → t ≡ ""
untruthy-empty String.[] h = refl
untruthy-empty (String.◌∷◌ c t) h = cc

module _ (client : SurrealDbClient) where
  -- The steps after `new`.
  abbrev pub finishing : Connection client → Exec (ClientWorld client) (Connection client)
  finishing c = remember client (some c) >> return c

  abbrev pub selecting : Connection client → Exec (ClientWorld client) (Connection client)
  selecting c =
      run client (λ s. client.library.select_database s c client.database_namespace client.database)
      >> finishing c

  abbrev pub signing : Connection client → Exec (ClientWorld client) (Connection client)
  signing c = sign_in client c >> selecting c

  abbrev pub connecting : Connection client → Exec (ClientWorld client) (Connection client)
  connecting c = run client (λ s. client.library.connect s c) >> signing c

  module _ (w : ClientWorld client) where
    -- The connection that is made, and the worlds between the calls.
    abbrev made : Connection client
    made = (client.library.new w.library client.url).0

    abbrev connected : ClientWorld client
    connected = (run client (λ s. client.library.connect s made) (new client w).1).1

    abbrev signed : ClientWorld client
    signed = (sign_in client made connected).1

    -- The call that signs the connection in, from one state of the library to the next: it is made
    -- where there is a username, and succeeds; where there is none nothing is called.
    pub data SignsIn (c : Connection client) (s t : client.library.State) : Type 0 where
      no_username : client.username ≡ "" → t ≡ s → SignsIn c s t
      as_user :
          client.username ≢ ""
          → client.library.sign_in s c client.username client.password ≡ (ok tt, t)
          → SignsIn c s t

    -- All calls of the library before a new connection is handed out, with its states in between.
    pub record IsEstablished (c : Connection client) : Type 0 where
      pub opened : client.library.State
      pub after_connect : client.library.State
      pub after_sign_in : client.library.State
      pub after_select : client.library.State
      pub constructed : client.library.new w.library client.url ≡ (c, opened)
      pub connects : client.library.connect opened c ≡ (ok tt, after_connect)
      pub signs_in : SignsIn c after_connect after_sign_in
      pub selects :
          client.library.select_database after_sign_in c client.database_namespace client.database
          ≡ (ok tt, after_select)
      pub kept : (establish client w).1 ≡ record { library = after_select; connection = some c }

    sign_in-SignsIn :
        (v : ClientWorld client)
        → (sign_in client made v).0 ≡ ok tt
        → SignsIn made v.library (sign_in client made v).1.library
    sign_in-SignsIn v h = elim (Bool-cases (truthy client.username)) [
      | inl yes' ↦ rw yes' (
          as_user (truthy-filled client.username yes') (
            ap (λ r. (r, (client.library.sign_in v.library made client.username client.password).1))
              (rw yes' at h)))
      | inr no' ↦ rw no' (no_username (untruthy-empty client.username no') refl)
    ]

    establish-IsEstablished :
        (c : Connection client) → (establish client w).0 ≡ ok c → IsEstablished c
    unfolding establish
    establish-IsEstablished c h =
        let (_, connects, run2) =
          bind-eq-ok (run client (λ s. client.library.connect s made)) (λ _. signing made)
            (new client w).1 h in
        let h2 = sym (ap (λ p. p.0) run2) ∙ h in
        let (_, signs_in, run3) =
          bind-eq-ok (sign_in client made) (λ _. selecting made) connected h2 in
        let h3 = sym (ap (λ p. p.0) run3) ∙ h2 in
        let (_, selects, run4) =
          bind-eq-ok
            (run client (λ s.
              client.library.select_database s made client.database_namespace client.database))
            (λ _. finishing made) signed h3 in
        let last = run2 ∙ run3 ∙ run4 in
        let same' : made ≡ c = ok_injective (sym (ap (λ p. p.0) last) ∙ h) in
        subst IsEstablished same' (record {
          opened = (new client w).1.library;
          after_connect = connected.library;
          after_sign_in = signed.library;
          after_select =
              (client.library.select_database signed.library made client.database_namespace
                client.database).1;
          constructed = refl;
          connects = ap (λ r. (r, connected.library)) connects;
          signs_in = sign_in-SignsIn connected signs_in;
          selects =
              ap
                (λ r. (
                  r,
                  (client.library.select_database signed.library made client.database_namespace
                      client.database).1,
                ))
                selects;
          kept = ap (λ p. p.1) last;
        })

    sign_in-keeps :
        (c : Connection client) (v : ClientWorld client)
        → (sign_in client c v).1.connection ≡ v.connection
    sign_in-keeps c v =
        if-keeps (λ u. u.connection ≡ v.connection) (truthy client.username)
          (run client (λ s. client.library.sign_in s c client.username client.password)) (return tt)
          v refl refl

    -- A raise on the way leaves no connection behind.
    establish-raise :
        (e : Exception)
        → (establish client w).0 ≡ raise e
        → (establish client w).1.connection ≡ w.connection
    unfolding establish
    establish-raise e h =
        elim (bind-eq-raise (run client (λ s. client.library.connect s made)) (λ _. signing made)
          (new client w).1 h) [
            | inl stopped ↦ ap (λ v. v.connection) stopped
            | inr (_, _, run2) ↦
                ap (λ p. p.1.connection) run2 ∙ after_connect (sym (ap (λ p. p.0) run2) ∙ h)
          ]
      where
        after_sign_in :
            (selecting made signed).0 ≡ raise e
            → (selecting made signed).1.connection ≡ connected.connection
        after_sign_in k =
            elim (bind-eq-raise
              (run client (λ s.
                client.library.select_database s made client.database_namespace client.database))
              (λ _. finishing made) signed k) [
                | inl stopped ↦ ap (λ v. v.connection) stopped ∙ sign_in-keeps made connected
                | inr (_, _, run4) ↦ absurd (raise-ne-ok (sym k ∙ ap (λ p. p.0) run4))
              ]

        after_connect :
            (signing made connected).0 ≡ raise e
            → (signing made connected).1.connection ≡ connected.connection
        after_connect k =
            elim (bind-eq-raise (sign_in client made) (λ _. selecting made) connected k) [
              | inl stopped ↦ ap (λ v. v.connection) stopped ∙ sign_in-keeps made connected
              | inr (_, _, run3) ↦
                  ap (λ p. p.1.connection) run3 ∙ after_sign_in (sym (ap (λ p. p.0) run3) ∙ k)
            ]

  connect_some :
      (w : ClientWorld client) (c : Connection client)
      → w.connection ≡ some c
      → connect client w ≡ (ok c, w)
  unfolding connect
  connect_some w c h = rw h refl

  connect_none :
      (w : ClientWorld client) → w.connection ≡ none → connect client w ≡ establish client w
  unfolding connect
  connect_none w h = rw h refl

  -- `connect` either raises, and then keeps no connection that it did not have before; or returns a
  -- connection and keeps it, so that the next `connect` returns the same one with no call of the
  -- library. A connection that was not there before has been connected, signed in exactly where there
  -- is a username, and set to its namespace and database, in this order, each of these calls succeeded, and
  -- no other was made.
  pub connect_cases :
      (w : ClientWorld client)
      → ((e : Exception) × ((connect client w).0 ≡ raise e)
          × ((connect client w).1.connection ≡ w.connection))
        ⊎ ((c : Connection client) × ((connect client w).0 ≡ ok c)
            × (connect client (connect client w).1 ≡ (ok c, (connect client w).1))
            × ((w.connection ≡ some c) ⊎ ((w.connection ≡ none) × IsEstablished w c)))
  connect_cases w = elim (Option-cases w.connection) [
    | inr (c, present) ↦
        let here = connect_some w c present in
        inr (
          c,
          ap (λ p. p.0) here,
          ap (λ p. connect client p.1) here ∙ here ∙ ap (λ p. (ok c, p.1)) (sym here),
          inl present,
        )
    | inl absent ↦
        let here = connect_none w absent in
        elim (Result-cases (establish client w).0) [
          | inr (e, raised) ↦ inl (
            e,
            ap (λ p. p.0) here ∙ raised,
            ap (λ p. p.1.connection) here ∙ establish-raise w e raised,
          )
          | inl (c, returned) ↦
              let i = establish-IsEstablished w c returned in
              let kept =
                ap (λ p. p.1.connection) here
                ∙ ap (λ (v : ClientWorld client). v.connection) i.kept in
              inr (c, ap (λ p. p.0) here ∙ returned, connect_some _ c kept, inr (absent, i))
        ]
  ]
