-- ===== src/Resolve/Members.antt =====
-- What application/use_cases/resolve_security_context.py selects is one of the listed memberships,
-- in force by its own test.
use edge_copilot_backend.Prelude.{
  String, Bool, true, false, Option, none, some, List, [], ◌∷◌, ◌≡◌, refl, sym, ◌∙◌, ap, keep, In,
  here, there, ◌⊎◌, inl, inr, if◌then◌else◌,
}
use mathlib.Core.Path.{subst}
use edge_copilot_backend.Values.{Value, DateTime}
use edge_copilot_backend.Errors.{ok, bind-ok, ok_injective}
use edge_copilot_backend.Identity.{MembershipReference, is_currently_valid}
use edge_copilot_backend.Resolve.{
  ResolveSecurityContextRequest, valid_memberships, keep_tenant, keep_organization, narrow,
  only_candidate, narrow_valid, select,
}

In-nil : {A : Type 0} {P : Type 0} {a : A} (xs : List A) → xs ≡ [] → In a xs → P
In-nil _ e here = cc
In-nil _ e (there i) = cc

In-if :
    {A : Type 0} (b : Bool) (x : A) (rest : List A) {a : A}
    → In a (if b then x ∷ rest else rest)
    → ((a ≡ x) × (b ≡ true)) ⊎ In a rest
In-if true x rest here = inl (refl, refl)
In-if true x rest (there i) = inr i
In-if false x rest i = inr i

In-keep : {A : Type 0} (p : A → Bool) (xs : List A) {a : A} → In a (keep p xs) → In a xs
In-keep p [] i = i
In-keep p (x ∷ xs) i = elim (In-if (p x) x (keep p xs) i) [
  | inl (same', _) ↦ subst (λ y. In y (x ∷ xs)) (sym same') here
  | inr j ↦ there (In-keep p xs j)
]

In-keep_tenant :
    (asked : Option String) (ms : List MembershipReference) {m : MembershipReference}
    → In m (keep_tenant asked ms)
    → In m ms
In-keep_tenant none ms i = i
In-keep_tenant (some t) ms i = In-keep _ ms i

In-keep_organization :
    (asked : Option String) (ms : List MembershipReference) {m : MembershipReference}
    → In m (keep_organization asked ms)
    → In m ms
In-keep_organization none ms i = i
In-keep_organization (some o) ms i = In-keep _ ms i

valid_memberships-In :
    (now : DateTime) (ms valid : List MembershipReference) {m : MembershipReference}
    → valid_memberships now ms ≡ ok valid
    → In m valid
    → In m ms × (is_currently_valid m now ≡ ok true)
unfolding valid_memberships
valid_memberships-In now [] valid h i = In-nil valid (sym (ok_injective h)) i
valid_memberships-In now (x ∷ ms) valid {m} h i =
    let (b, h1, test) = bind-ok _ (is_currently_valid x now) h in
    let (rest, h2, tail) = bind-ok _ (valid_memberships now ms) h1 in
    elim (In-if b x rest (subst (In m) (sym (ok_injective h2)) i)) [
      | inl (same', yes') ↦
          subst (λ y. In y (x ∷ ms) × (is_currently_valid y now ≡ ok true)) (sym same')
            (here, test ∙ ap ok yes')
      | inr j ↦ let (k, v) = valid_memberships-In now ms rest tail j in (there k, v)
    ]

only_candidate-In :
    (user_id : Value) (request : ResolveSecurityContextRequest)
    (candidates : List MembershipReference) {m : MembershipReference}
    → only_candidate user_id request candidates ≡ ok m
    → In m candidates
only_candidate-In user_id request [] h = cc
only_candidate-In user_id request (c ∷ []) h = subst (λ y. In y (c ∷ [])) (ok_injective h) here
only_candidate-In user_id request (c ∷ d ∷ others) h = cc

narrow_valid-In :
    (user_id : Value) (request : ResolveSecurityContextRequest) (valid : List MembershipReference)
    {m : MembershipReference}
    → narrow_valid user_id request valid ≡ ok m
    → In m valid
unfolding narrow
narrow_valid-In user_id request [] h = cc
narrow_valid-In user_id request (v ∷ valid) h =
    In-keep_tenant request.requested_tenant_id (v ∷ valid) (
      In-keep_organization request.requested_organization_id _
        (only_candidate-In user_id request _ h))

-- What is selected is listed, and was found to be in force; no time zones are needed for that.
pub select-In :
    (user_id : Value) (request : ResolveSecurityContextRequest) (now : DateTime)
    (memberships : List MembershipReference) (m : MembershipReference)
    → select user_id request now memberships ≡ ok m
    → In m memberships × (is_currently_valid m now ≡ ok true)
unfolding select
select-In user_id request now memberships m h =
    let (valid, h1, tested) = bind-ok _ (valid_memberships now memberships) h in
    valid_memberships-In now memberships valid tested (narrow_valid-In user_id request valid h1)
