-- ===== src/Surreal/Rows/Reading.antt =====
-- What infrastructure/persistence/surrealdb/membership_repository.py makes of a row.
use edge_copilot_backend.Prelude.{
  ℕ, ◌<◌, arith, ltb, true, false, Bool-cases, String, Option, none, some, List, [], ◌∷◌, ◌≡◌, ◌⊎◌,
  inl, inr, refl, ◌∙◌, ap, In, here, there, Option-cases,
}
use edge_copilot_backend.Values.{
  DateTime, Value, null, bool, num, text, date, items, dict, Items, nil, cons, Fields, end, field,
  get, truthy_value,
}
use edge_copilot_backend.Errors.{
  Exception, Result, ok, raise, key_error, type_error, value_error, Result-cases,
}
use edge_copilot_backend.Identity.{
  MembershipStatus, membership_status_of_value, MembershipReference,
}
use edge_copilot_backend.Surreal.Client.{Row}
use edge_copilot_backend.Surreal.Rows.{
  Builtins, str, str_or_none, value_or_null, or_min, values_of, characters_of, keys_of, roles_of,
  column, membership_status_of, found_status, parse_datetime, row_to_membership, missing_field,
  catch_key_error,
}

-- The columns that a row must have.
abbrev pub required : List String
required = "membership_id" ∷ "user_id" ∷ "tenant_id" ∷ "status" ∷ "valid_from" ∷ []

column_cases :
    (key : String) (row : Fields)
    → ((v : Value) × (get key row ≡ some v) × (column key row ≡ ok v))
      ⊎ ((get key row ≡ none) × (column key row ≡ raise (key_error key)))
unfolding column
column_cases key row = elim (Option-cases (get key row)) [
  | inl missing ↦ inr (missing, rw (missing, column) refl)
  | inr (v, found) ↦ inl (v, found, rw (found, column) refl)
]

status_cases :
    (v : Value)
    → ((t : String) × (s : MembershipStatus) × (v ≡ text t)
        × (membership_status_of_value t ≡ some s)
        × (membership_status_of v ≡ ok s))
      ⊎ (membership_status_of v ≡ raise value_error)
unfolding membership_status_of
status_cases (text t) = elim (Option-cases (membership_status_of_value t)) [
  | inl unknown ↦ inr (ap found_status unknown)
  | inr (s, known) ↦ inl (t, s, refl, known, ap found_status known)
]
status_cases _ = inr refl

-- The roles that a value stands for: none where it is empty or null, the values of a list, the
-- characters of a text, the keys of a dict.
pub data IsRoles : Value → List Value → Type 0 where
  no_roles : (v : Value) → truthy_value v ≡ false → IsRoles v []
  listed : (vs : Items) → IsRoles (items vs) (values_of vs)
  spelled : (t : String) → IsRoles (text t) (characters_of t)
  keyed : (fields : Fields) → IsRoles (dict fields) (keys_of fields)

-- A value that is neither empty nor a sequence.
pub data IsScalar : Value → Type 0 where
  yes : IsScalar (bool true)
  number : (n : ℕ) → 0 < n → IsScalar (num n)
  moment : (d : DateTime) → IsScalar (date d)

roles_of_cases :
    (v : Value)
    → ((roles : List Value) × IsRoles v roles × (roles_of v ≡ ok roles))
      ⊎ (IsScalar v × (roles_of v ≡ raise type_error))
unfolding roles_of
roles_of_cases null = inl ([], no_roles null refl, refl)
roles_of_cases (bool true) = inr (yes, refl)
roles_of_cases (bool false) = inl ([], no_roles (bool false) refl, refl)
roles_of_cases (num n) = elim (Bool-cases (ltb 0 n)) [
  | inl positive ↦ inr (number n (ground arith), rw positive refl)
  | inr zero' ↦ inl ([], no_roles (num n) zero', rw zero' refl)
]
roles_of_cases (date d) = inr (moment d, refl)
roles_of_cases (text String.[]) = inl ([], spelled "", refl)
roles_of_cases (text (String.◌∷◌ c t)) = inl (_, spelled (String.◌∷◌ c t), refl)
roles_of_cases (items nil) = inl ([], listed nil, refl)
roles_of_cases (items (cons v vs)) = inl (_, listed (cons v vs), refl)
roles_of_cases (dict end) = inl ([], keyed end, refl)
roles_of_cases (dict (field k v fields)) = inl (_, keyed (field k v fields), refl)

module _ (builtins : Builtins) (row : Row) where
  -- What a membership has of a row: the texts of its columns, its times as they parse.
  pub record IsReadFrom (m : MembershipReference) : Type 0 where
    pub id_value : Value
    pub id_column : get "membership_id" row ≡ some id_value
    pub id : m.membership_id ≡ str builtins id_value
    pub user_value : Value
    pub user_column : get "user_id" row ≡ some user_value
    pub user : m.user_id ≡ str builtins user_value
    pub tenant_value : Value
    pub tenant_column : get "tenant_id" row ≡ some tenant_value
    pub tenant : m.tenant_id ≡ str builtins tenant_value
    pub organization :
        m.organization_id ≡ str_or_none builtins (value_or_null (get "organization_id" row))
    pub roles : IsRoles (value_or_null (get "role_references" row)) m.role_references
    pub status_text : String
    pub status_column : get "status" row ≡ some (text status_text)
    pub status : membership_status_of_value status_text ≡ some m.status
    pub start_value : Value
    pub start_column : get "valid_from" row ≡ some start_value
    pub start : Option DateTime
    pub start_parsed : parse_datetime builtins start_value ≡ ok start
    pub from : m.valid_from ≡ or_min start
    pub until : parse_datetime builtins (value_or_null (get "valid_until" row)) ≡ ok m.valid_until

  -- How the reading of a row ends.
  pub data IsOutcome (r : Result MembershipReference) : Type 0 where
    read : (m : MembershipReference) → r ≡ ok m → IsReadFrom m → IsOutcome r
    missing :
        (key : String)
        → In key required
        → get key row ≡ none
        → r ≡ raise (missing_field row key)
        → IsOutcome r
    not_iterable :
        IsScalar (value_or_null (get "role_references" row)) → r ≡ raise type_error → IsOutcome r
    no_status :
        (v : Value)
        → get "status" row ≡ some v
        → membership_status_of v ≡ raise value_error
        → r ≡ raise value_error
        → IsOutcome r
    no_start :
        (v : Value) (e : Exception)
        → get "valid_from" row ≡ some v
        → parse_datetime builtins v ≡ raise e
        → r ≡ catch_key_error row (raise e)
        → IsOutcome r
    no_end :
        (e : Exception)
        → parse_datetime builtins (value_or_null (get "valid_until" row)) ≡ raise e
        → r ≡ catch_key_error row (raise e)
        → IsOutcome r

  pub row_cases : IsOutcome (row_to_membership builtins row)
  unfolding row_to_membership
  row_cases = elim (column_cases "membership_id" row) [
    | inr (gone, c1) ↦ missing "membership_id" here gone (rw c1 refl)
    | inl (v1, has1, c1) ↦ elim (column_cases "user_id" row) [
      | inr (gone, c2) ↦ missing "user_id" (there here) gone (rw (c1, c2) refl)
      | inl (v2, has2, c2) ↦ elim (column_cases "tenant_id" row) [
        | inr (gone, c3) ↦ missing "tenant_id" (there (there here)) gone (rw (c1, c2, c3) refl)
        | inl (v3, has3, c3) ↦ elim (roles_of_cases (value_or_null (get "role_references" row))) [
          | inr (scalar, ro) ↦ not_iterable scalar (rw (c1, c2, c3, ro) refl)
          | inl (roles, are, ro) ↦ after_roles v1 v2 v3 roles has1 has2 has3 are c1 c2 c3 ro
        ]
      ]
    ]
  ]
    where
      after_roles :
          (v1 v2 v3 : Value) (roles : List Value)
          → get "membership_id" row ≡ some v1
          → get "user_id" row ≡ some v2
          → get "tenant_id" row ≡ some v3
          → IsRoles (value_or_null (get "role_references" row)) roles
          → column "membership_id" row ≡ ok v1
          → column "user_id" row ≡ ok v2
          → column "tenant_id" row ≡ ok v3
          → roles_of (value_or_null (get "role_references" row)) ≡ ok roles
          → IsOutcome (row_to_membership builtins row)
      after_roles v1 v2 v3 roles has1 has2 has3 are c1 c2 c3 ro = elim (column_cases "status" row) [
        | inr (gone, c4) ↦
            missing "status" (there (there (there here))) gone (rw (c1, c2, c3, ro, c4) refl)
        | inl (v4, has4, c4) ↦ elim (status_cases v4) [
          | inr s ↦ no_status v4 has4 s (rw (c1, c2, c3, ro, c4, s) refl)
          | inl (t, status, is_text, known, s) ↦ elim (column_cases "valid_from" row) [
            | inr (gone, c5) ↦
                missing "valid_from" (there (there (there (there here)))) gone
                  (rw (c1, c2, c3, ro, c4, s, c5) refl)
            | inl (v5, has5, c5) ↦ elim (Result-cases (parse_datetime builtins v5)) [
              | inr (e, p) ↦ no_start v5 e has5 p (rw (c1, c2, c3, ro, c4, s, c5, p) refl)
              | inl (start, p) ↦
                  elim (Result-cases
                    (parse_datetime builtins (value_or_null (get "valid_until" row)))) [
                      | inr (e, q) ↦ no_end e q (rw (c1, c2, c3, ro, c4, s, c5, p, q) refl)
                      | inl (until, q) ↦
                          read _ (rw (c1, c2, c3, ro, c4, s, c5, p, q) refl) (record {
                            id_value = v1;
                            id_column = has1;
                            id = refl;
                            user_value = v2;
                            user_column = has2;
                            user = refl;
                            tenant_value = v3;
                            tenant_column = has3;
                            tenant = refl;
                            organization = refl;
                            roles = are;
                            status_text = t;
                            status_column = has4 ∙ ap some is_text;
                            status = known;
                            start_value = v5;
                            start_column = has5;
                            start = start;
                            start_parsed = p;
                            from = refl;
                            until = q;
                          })
                    ]
            ]
          ]
        ]
      ]
