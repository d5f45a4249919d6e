-- ===== src/Surreal/Rows.antt =====
-- infrastructure/persistence/surrealdb/membership_repository.py: from a row to a membership.
pub mod RoundTrip
pub mod Reading
use Prim.Native.Char.{Char, code}
use Prim.Native.String
use edge_copilot_backend.Prelude.{
  ℕ, String, Bool, true, false, ◌<>◌, Option, none, some, List, [], ◌∷◌, eqb, if◌then◌else◌,
}
use edge_copilot_backend.Values.{
  DateTime, datetime_min, Value, null, bool, num, text, date, items, dict, Items, nil, cons, Fields,
  end, field, get, truthy_value,
}
use edge_copilot_backend.Errors.{
  Exception, Result, ok, raise, ◌>>=◌, domain, domain_error_init, validation_error, value_error,
  key_error, type_error, overflow_error, library_error,
}
use edge_copilot_backend.Identity.{
  MembershipStatus, membership_status_of_value, MembershipReference,
}
use edge_copilot_backend.Surreal.Client.{Row}

-- What Python's library does here that is not written out: `datetime.fromisoformat`, and the text of
-- a value, `str(value)` where it is a number, a time, a list or a dict, and `repr(value)`.
pub record Builtins : Type 0 where
  pub from_isoformat : String → Result DateTime
  pub display : Value → String
  pub repr : Value → String

-- `value.replace("Z", "+00:00")`
unfoldable pub replace_z : String → String
replace_z String.[] = ""
replace_z (String.◌∷◌ c rest) =
    if eqb (code c) b'Z' then "+00:00" <> replace_z rest else String.◌∷◌ c (replace_z rest)

-- `row[key]`
unfoldable pub column : String → Fields → Result Value
column key row = elim (get key row) [ none ↦ raise (key_error key) | some value ↦ ok value ]

-- `row.get(key)`
abbrev pub value_or_null : Option Value → Value
value_or_null none = null
value_or_null (some value) = value

abbrev parsed_some : DateTime → Result (Option DateTime)
parsed_some d = ok (some d)

module _ (builtins : Builtins) where
  -- `str(value)`
  abbrev pub str : Value → String
  str (text t) = t
  str null = "None"
  str (bool true) = "True"
  str (bool false) = "False"
  str value = builtins.display value

  abbrev pub unrecognized : Value → Exception
  unrecognized value = domain (
      domain_error_init validation_error
        ("Unrecognized datetime value from persistence: " <> builtins.repr value) none)

  -- `_parse_datetime(value)`
  unfoldable pub parse_datetime : Value → Result (Option DateTime)
  unfolding replace_z
  parse_datetime null = ok none
  parse_datetime (date d) = ok (some d)
  parse_datetime (text t) = builtins.from_isoformat (replace_z t) >>= parsed_some
  parse_datetime value = raise (unrecognized value)

  -- `str(value) if value is not None else None`
  abbrev pub str_or_none : Value → Option String
  str_or_none null = none
  str_or_none value = some (str value)

-- `MembershipStatus(value)`
abbrev pub found_status : Option MembershipStatus → Result MembershipStatus
found_status none = raise value_error
found_status (some status) = ok status

unfoldable pub membership_status_of : Value → Result MembershipStatus
unfolding membership_status_of_value
membership_status_of (text t) = found_status (membership_status_of_value t)
membership_status_of _ = raise value_error

-- `parsed or datetime.min`
abbrev pub or_min : Option DateTime → DateTime
or_min none = datetime_min
or_min (some d) = d

-- `tuple(value)`: the values of a list, the characters of a text, the keys of a dict.
abbrev pub values_of : Items → List Value
values_of nil = []
values_of (cons v rest) = v ∷ values_of rest

abbrev pub characters_of : String → List Value
characters_of String.[] = []
characters_of (String.◌∷◌ c rest) = text (String.◌∷◌ c "") ∷ characters_of rest

abbrev pub keys_of : Fields → List Value
keys_of end = []
keys_of (field key value rest) = text key ∷ keys_of rest

abbrev pub tuple_of : Value → Result (List Value)
tuple_of (items vs) = ok (values_of vs)
tuple_of (text t) = ok (characters_of t)
tuple_of (dict fields) = ok (keys_of fields)
tuple_of _ = raise type_error

-- `tuple(value or ())`
unfoldable pub roles_of : Value → Result (List Value)
roles_of value = if truthy_value value then tuple_of value else ok []

abbrev pub missing_field : Row → String → Exception
missing_field row key = domain (
    domain_error_init validation_error
      ("Membership row from persistence is missing required field: '" <> key <> "'")
      (some (field "row" (dict row) end)))

-- `except KeyError as exc: raise ValidationError(...)`
abbrev pub catch_key_error : {A : Type 0} → Row → Result A → Result A
catch_key_error row (raise (key_error key)) = raise (missing_field row key)
catch_key_error row (raise (domain e)) = raise (domain e)
catch_key_error row (raise type_error) = raise type_error
catch_key_error row (raise overflow_error) = raise overflow_error
catch_key_error row (raise value_error) = raise value_error
catch_key_error row (raise (library_error e)) = raise (library_error e)
catch_key_error row (ok a) = ok a

module _ (builtins : Builtins) where
  -- The call in the `try` block.
  unfoldable pub membership_of_columns : Row → Result MembershipReference
  membership_of_columns row = do
    membership_id ← column "membership_id" row
    user_id ← column "user_id" row
    tenant_id ← column "tenant_id" row
    roles ← roles_of (value_or_null (get "role_references" row))
    status_value ← column "status" row
    status ← membership_status_of status_value
    start ← column "valid_from" row
    valid_from ← parse_datetime builtins start
    valid_until ← parse_datetime builtins (value_or_null (get "valid_until" row))
    ok (record {
      membership_id = str builtins membership_id;
      user_id = str builtins user_id;
      tenant_id = str builtins tenant_id;
      organization_id = str_or_none builtins (value_or_null (get "organization_id" row));
      role_references = roles;
      status = status;
      valid_from = or_min valid_from;
      valid_until = valid_until;
    })

  -- `_row_to_membership(row)`
  unfoldable pub row_to_membership : Row → Result MembershipReference
  unfolding membership_of_columns
  row_to_membership row = catch_key_error row (membership_of_columns row)
