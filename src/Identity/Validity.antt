-- ===== src/Identity/Validity.antt =====
-- When `is_currently_valid` of domain/identity/membership.py says yes.
use edge_copilot_backend.Prelude.{
  ℕ, ◌≤◌, ◌<◌, Bool, true, false, Option, none, some, ◌≡◌, ◌↔◌, refl, Bool-cases, inl, inr, ltb,
  arith, leb, not,
}
use edge_copilot_backend.Values.{DateTime}
use edge_copilot_backend.Errors.{ok, raise, type_error}
use edge_copilot_backend.Time.{IsAware, is_before, is_before_lem, is_since_lem}
use edge_copilot_backend.StateMachine.{same}
use edge_copilot_backend.StateMachine.Laws.{same→eq, same_refl}
use edge_copilot_backend.Identity.{
  MembershipStatus, membership_status_enum, MembershipReference, not_over, is_currently_valid,
}

-- The end of the validity, if there is one, has a time zone.
abbrev pub IsAwareEnd : Option DateTime → Type 0
IsAwareEnd none = Unit
IsAwareEnd (some u) = IsAware u

-- The times of a membership have time zones.
pub record HasAwareTimes (m : MembershipReference) : Type 0 where
  pub from : IsAware m.valid_from
  pub until : IsAwareEnd m.valid_until

-- The validity has no end, or ends after `now`.
abbrev pub EndsAfter : ℕ → Option DateTime → Type 0
EndsAfter now none = Unit
EndsAfter now (some u) = now < u.instant

-- The membership is active, and `now` lies in its half-open interval of validity.
abbrev pub InForce : MembershipReference → ℕ → Type 0
InForce m now =
    (m.status ≡ MembershipStatus.active)
    × (m.valid_from.instant ≤ now)
    × EndsAfter now m.valid_until

not_over_lem :
    (u : Option DateTime) (now : DateTime)
    → IsAware now
    → IsAwareEnd u
    → (b : Bool) × (not_over u now ≡ ok b) × ((b ≡ true) ↔ EndsAfter now.instant u)
not_over_lem none now p q = (true, refl, ((λ _. tt), (λ _. refl)))
not_over_lem (some u) now p q =
    (not (leb u.instant now.instant), rw (is_since_lem now u p q), ground arith)

-- Where all times have time zones, `is_currently_valid` does not raise, and answers yes exactly for
-- an active membership at a time from `valid_from` on and before `valid_until`, if it has one.
pub is_currently_valid_iff :
    (m : MembershipReference) (now : DateTime)
    → IsAware now
    → HasAwareTimes m
    → (b : Bool) × (is_currently_valid m now ≡ ok b) × ((b ≡ true) ↔ InForce m now.instant)
unfolding is_currently_valid
is_currently_valid_iff m now p aware = elim (Bool-cases (same m.status MembershipStatus.active)) [
  | inr inactive ↦ (
    false,
    rw inactive,
    ((λ e. cc), (λ f. cc (f.0, inactive, same_refl MembershipStatus.active))),
  )
  | inl is_active ↦
      let starts = is_before_lem now m.valid_from p aware.from in
      elim (Bool-cases (ltb now.instant m.valid_from.instant)) [
        | inl early ↦ (false, rw (is_active, starts, early), ((λ e. cc), (λ f. ground arith)))
        | inr begun ↦
            let (b, answer, exact) = not_over_lem m.valid_until now p aware.until in
            (
              b,
              rw (is_active, starts, begun) answer,
              ((λ h. (same→eq _ _ is_active, ground arith, exact.0 h)), (λ f. exact.1 f.2)),
            )
      ]
]

-- An active membership whose `valid_from` has no time zone makes `is_currently_valid` raise a
-- `TypeError` at every time that has one: neither yes nor no.
pub is_currently_valid_naive :
    (m : MembershipReference) (now : DateTime)
    → m.status ≡ MembershipStatus.active
    → m.valid_from.aware ≡ false
    → IsAware now
    → is_currently_valid m now ≡ raise type_error
unfolding is_currently_valid is_before
is_currently_valid_naive m now is_active naive p = rw (is_active, p, naive)
