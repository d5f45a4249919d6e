-- ===== src/Surreal/Repository/Listing.antt =====
-- The memberships that infrastructure/persistence/surrealdb/membership_repository.py lists, and the
-- contexts that are issued from them.
use mathlib.Core.Path.{subst}
use edge_copilot_backend.Prelude.{
  ◌⊎◌, inl, inr, List, [], ◌∷◌, ◌≡◌, refl, sym, ◌∙◌, ap, In, here, there,
}
use edge_copilot_backend.Values.{Value}
use edge_copilot_backend.Errors.{Exception, ok, raise, bind-ok, raise-ne-ok, domain, ok_injective}
use edge_copilot_backend.Exec.{Exec, from, ◌>>=◌, bind-eq-ok}
use edge_copilot_backend.Identity.{MembershipReference}
use edge_copilot_backend.Surreal.Client.{Row, SurrealDbClient, ClientWorld, Connection, connect}
use edge_copilot_backend.Surreal.Rows.{Builtins, row_to_membership, catch_key_error}
use edge_copilot_backend.Surreal.Rows.Reading.{IsReadFrom, row_cases, IsOutcome}
use edge_copilot_backend.Surreal.Repository.{
  statement, variables, all_rows, memberships_of, query, list_by_user,
}

In-nil : {A : Type 0} {P : Type 0} {a : A} (xs : List A) → xs ≡ [] → In a xs → P
In-nil _ e here = cc
In-nil _ e (there i) = cc

In-cons : {A : Type 0} {a x : A} {xs : List A} → In a (x ∷ xs) → (a ≡ x) ⊎ In a xs
In-cons here = inl refl
In-cons (there i) = inr i

-- What is raised in the `try` block is raised by the handler, in this shape or another.
caught-ne-ok :
    {A : Type 0} (row : Row) (e : Exception) {a : A} → catch_key_error row (raise e) ≡ ok a → ⊥
caught-ne-ok row (domain d) h = raise-ne-ok h
caught-ne-ok row _ h = raise-ne-ok h

module _ (builtins : Builtins) where
  -- The row that a membership of the list was read from.
  pub memberships_of-In :
      (rows : List Row) (ms : List MembershipReference) (m : MembershipReference)
      → memberships_of builtins rows ≡ ok ms
      → In m ms
      → (row : Row) × In row rows × (row_to_membership builtins row ≡ ok m)
  unfolding memberships_of
  memberships_of-In [] ms m h i = In-nil ms (sym (ok_injective h)) i
  memberships_of-In (row ∷ rows) ms m h i =
      let (x, h1, read) = bind-ok _ (row_to_membership builtins row) h in
      let (rest, h2, tail) = bind-ok _ (memberships_of builtins rows) h1 in
      elim (In-cons (subst (In m) (sym (ok_injective h2)) i)) [
        | inl same' ↦ (row, here, read ∙ ap ok (sym same'))
        | inr j ↦ let (found, k, e) = memberships_of-In rows rest m tail j in (found, there k, e)
      ]

  -- A membership is read from the row that it comes from, column by column.
  pub row_to_membership-IsReadFrom :
      (row : Row) (m : MembershipReference)
      → row_to_membership builtins row ≡ ok m
      → IsReadFrom builtins row m
  row_to_membership-IsReadFrom row m h = by_outcome (row_cases builtins row)
    where
      by_outcome :
          IsOutcome builtins row (row_to_membership builtins row) → IsReadFrom builtins row m
      by_outcome (IsOutcome.read n e columns) =
          subst (IsReadFrom builtins row) (ok_injective (sym e ∙ h)) columns
      by_outcome (IsOutcome.missing key i gone e) = absurd (raise-ne-ok (sym e ∙ h))
      by_outcome (IsOutcome.not_iterable scalar e) = absurd (raise-ne-ok (sym e ∙ h))
      by_outcome (IsOutcome.no_status v at s e) = absurd (raise-ne-ok (sym e ∙ h))
      by_outcome (IsOutcome.no_start v x at p e) = absurd (caught-ne-ok row x (sym e ∙ h))
      by_outcome (IsOutcome.no_end x p e) = absurd (caught-ne-ok row x (sym e ∙ h))

module _ (client : SurrealDbClient) (builtins : Builtins) where
  -- The responses that a listing was made from.
  pub record IsListed (user_id : Value) (w : ClientWorld client) (ms : List MembershipReference)
      : Type 0 where
    pub connection : Connection client
    pub responses : List (List Row)
    pub connected : (connect client w).0 ≡ ok connection
    pub answered :
        (client.library.query
          (connect client w).1.library
          connection
          statement
          (variables user_id)).0
        ≡ ok responses
    pub read : memberships_of builtins (all_rows responses) ≡ ok ms

  pub list_by_user-IsListed :
      (user_id : Value) (w : ClientWorld client) (ms : List MembershipReference)
      → (list_by_user client builtins user_id w).0 ≡ ok ms
      → IsListed user_id w ms
  unfolding list_by_user
  list_by_user-IsListed user_id w ms h =
      let (c, connected, run) = bind-eq-ok (connect client) asking w h in
      let h1 = sym (ap (λ p. p.0) run) ∙ h in
      let (responses, answered, run1) = bind-eq-ok (query client builtins c user_id) reading _ h1 in
      record {
        connection = c;
        responses = responses;
        connected = connected;
        answered = answered;
        read = sym (ap (λ p. p.0) run1) ∙ h1;
      }
    where
      reading : List (List Row) → Exec (ClientWorld client) (List MembershipReference)
      reading responses = from (memberships_of builtins (all_rows responses))

      asking : Connection client → Exec (ClientWorld client) (List MembershipReference)
      asking c = query client builtins c user_id >>= reading
