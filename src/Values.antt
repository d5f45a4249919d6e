-- ===== src/Values.antt =====
-- Python values that the program passes on: `datetime`, and the values of a `dict[str, object]`
-- (error details, token claims, database rows, log payloads).
use edge_copilot_backend.Prelude.Text.{truthy}
use edge_copilot_backend.Prelude.{
  true, ltb, ℕ, ◌*◌, String, Bool, false, Option, none, some, ◌==◌, if◌then◌else◌,
}

-- A `datetime`. `aware` tells whether it has a time zone; `instant` counts microseconds from
-- `datetime.min`, in UTC for an aware value.
pub record DateTime : Type 0 where
  pub aware : Bool
  pub instant : ℕ

-- `datetime.min` has no time zone.
abbrev pub datetime_min : DateTime
datetime_min = record { aware = false; instant = 0 }

-- A `timedelta` that is not negative, in microseconds.
abbrev pub seconds : ℕ → ℕ
seconds n = n * 1000000

mutual
  pub data Value : Type 0 where
    null : Value
    bool : Bool → Value
    num : ℕ → Value
    text : String → Value
    date : DateTime → Value
    items : Items → Value
    dict : Fields → Value

  -- A list.
  pub data Items : Type 0 where
    nil : Items
    cons : Value → Items → Items

  -- A dict, in insertion order.
  pub data Fields : Type 0 where
    end : Fields
    field : String → Value → Fields → Fields

-- `d.get(key)`, where `none` is a missing key.
unfoldable pub get : String → Fields → Option Value
get key end = none
get key (field k v rest) = if k == key then some v else get key rest

-- `bool(value)`
abbrev pub truthy_value : Value → Bool
truthy_value null = false
truthy_value (bool b) = b
truthy_value (num n) = ltb 0 n
truthy_value (text t) = truthy t
truthy_value (date d) = true
truthy_value (items nil) = false
truthy_value (items (cons v rest)) = true
truthy_value (dict end) = false
truthy_value (dict (field k v rest)) = true
