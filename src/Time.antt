-- ===== src/Time.antt =====
-- Comparison and arithmetic of `datetime`, as Python defines them: a value with a time zone is not
-- ordered against one without (`TypeError`), and no value is past the year 9999 (`OverflowError`).
use edge_copilot_backend.Prelude.{
  ℕ, ◌+◌, ◌-◌, ◌*◌, ◌≤◌, arith, Bool, true, not, ◌≡◌, ltb, leb, if◌then◌else◌,
}
use edge_copilot_backend.Values.{DateTime}
use edge_copilot_backend.Errors.{Result, ok, raise, type_error, overflow_error}

-- Both values have a time zone, or neither has.
abbrev pub comparable : DateTime → DateTime → Bool
comparable a b = if a.aware then b.aware else not b.aware

-- `a < b`
unfoldable pub is_before : DateTime → DateTime → Result Bool
is_before a b = if comparable a b then ok (ltb a.instant b.instant) else raise type_error

-- `a >= b`
unfoldable pub is_since : DateTime → DateTime → Result Bool
is_since a b = if comparable a b then ok (leb b.instant a.instant) else raise type_error

-- `abs(a - b)`, in microseconds
unfoldable pub distance : DateTime → DateTime → Result ℕ
distance a b =
    if comparable a b
    then ok ((a.instant - b.instant) + (b.instant - a.instant))
    else raise type_error

-- `datetime.max`, in microseconds from `datetime.min`.
abbrev pub last_instant : ℕ
last_instant = 3652059 * 86400 * 1000000 - 1

abbrev pub later : DateTime → ℕ → DateTime
later a delta = record a { instant = a.instant + delta }

-- `a + delta`, for a value in UTC or without a time zone
unfoldable pub add : DateTime → ℕ → Result DateTime
add a delta =
    if leb (a.instant + delta) last_instant then ok (later a delta) else raise overflow_error

-- A sum that is not past the last instant has the time zone of the first term, and is later by the
-- second.
pub add-eq-ok :
    (a : DateTime) (delta : ℕ) (b : DateTime)
    → add a delta ≡ ok b
    → (b.aware ≡ a.aware) × (b.instant ≡ a.instant + delta) × (b.instant ≤ last_instant)
unfolding add
add-eq-ok a delta b h = ground arith

-- `a` has a time zone; `before` and `since` then compare instants.
abbrev pub IsAware : DateTime → Type 0
IsAware a = a.aware ≡ true

module _ (a b : DateTime) (p : IsAware a) (q : IsAware b) where
  pub is_before_lem : is_before a b ≡ ok (ltb a.instant b.instant)
  unfolding is_before
  is_before_lem = rw (p, q)

  pub is_since_lem : is_since a b ≡ ok (leb b.instant a.instant)
  unfolding is_since
  is_since_lem = rw (p, q)

  pub distance_lem : distance a b ≡ ok ((a.instant - b.instant) + (b.instant - a.instant))
  unfolding distance
  distance_lem = rw (p, q)
