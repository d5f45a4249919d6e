-- ===== src/Keycloak/Strength.antt =====
-- `_authentication_strength` of infrastructure/identity/keycloak_identity_provider.py.
use mathlib.Core.Path.{subst}
use edge_copilot_backend.Prelude.{
  or-cases, or-right, String, Bool, true, false, ◌≢◌, ◌==◌, sym, ◌||◌, ◌≡◌, ◌⊎◌, ◌↔◌, inl, inr,
  refl, ap, eq_iff, Bool-cases, not, ◌&&◌,
}
use edge_copilot_backend.Values.{
  truthy_value, Value, null, bool, num, text, date, items, dict, Items, nil, cons, Fields,
}
use edge_copilot_backend.Security.{AuthenticationStrength}
use edge_copilot_backend.Keycloak.{
  claim, is_mfa, is_mfa_marker, lists_mfa, amr_has_mfa, authentication_strength_of,
}

-- A list of JSON that has a text among its values.
pub data Lists (word : String) : Items → Type 0 where
  listed : {rest : Items} → Lists word (cons (text word) rest)
  later : {v : Value} {rest : Items} → Lists word rest → Lists word (cons v rest)

-- The claims say that the user has shown a second factor: the context class names it, or the methods
-- list it.
pub data ShowsSecondFactor (claims : Fields) : Type 0 where
  by_level :
      (claim "acr" claims ≡ text "mfa") ⊎ (claim "acr" claims ≡ text "urn:mace:incommon:iap:silver")
      → ShowsSecondFactor claims
  by_method :
      (vs : Items) → claim "amr" claims ≡ items vs → Lists "mfa" vs → ShowsSecondFactor claims

is_mfa-eq : (v : Value) → is_mfa v ≡ true → v ≡ text "mfa"
is_mfa-eq (text t) h = ap text ((eq_iff t "mfa").0 h)
is_mfa-eq null h = cc
is_mfa-eq (bool b) h = cc
is_mfa-eq (num n) h = cc
is_mfa-eq (date d) h = cc
is_mfa-eq (items vs) h = cc
is_mfa-eq (dict fs) h = cc

lists_mfa-Lists : (vs : Items) → lists_mfa vs ≡ true → Lists "mfa" vs
lists_mfa-Lists nil h = cc
lists_mfa-Lists (cons v rest) h = elim (or-cases (is_mfa v) (lists_mfa rest) h) [
  | inl this ↦ subst (λ u. Lists "mfa" (cons u rest)) (sym (is_mfa-eq v this)) listed
  | inr more ↦ later (lists_mfa-Lists rest more)
]

Lists-lists_mfa : (vs : Items) → Lists "mfa" vs → lists_mfa vs ≡ true
Lists-lists_mfa _ listed = refl
Lists-lists_mfa _ (later {v} {rest} p) = or-right (is_mfa v) _ (Lists-lists_mfa rest p)

is_mfa_marker-cases :
    (v : Value)
    → is_mfa_marker v ≡ true
    → (v ≡ text "mfa") ⊎ (v ≡ text "urn:mace:incommon:iap:silver")
is_mfa_marker-cases (text t) h = elim (or-cases (t == "mfa") _ h) [
  | inl e ↦ inl (ap text ((eq_iff t "mfa").0 e))
  | inr e ↦ inr (ap text ((eq_iff t "urn:mace:incommon:iap:silver").0 e))
]
is_mfa_marker-cases null h = cc
is_mfa_marker-cases (bool b) h = cc
is_mfa_marker-cases (num n) h = cc
is_mfa_marker-cases (date d) h = cc
is_mfa_marker-cases (items vs) h = cc
is_mfa_marker-cases (dict fs) h = cc

amr_has_mfa-Lists :
    (v : Value) → amr_has_mfa v ≡ true → (vs : Items) × (v ≡ items vs) × Lists "mfa" vs
amr_has_mfa-Lists (items vs) h = (vs, refl, lists_mfa-Lists vs h)
amr_has_mfa-Lists null h = cc
amr_has_mfa-Lists (bool b) h = cc
amr_has_mfa-Lists (num n) h = cc
amr_has_mfa-Lists (date d) h = cc
amr_has_mfa-Lists (text t) h = cc
amr_has_mfa-Lists (dict fs) h = cc

module _ (claims : Fields) where
  abbrev second_factor : Bool
  second_factor = is_mfa_marker (claim "acr" claims) || amr_has_mfa (claim "amr" claims)

  second_factor-shown : second_factor ≡ true → ShowsSecondFactor claims
  second_factor-shown h = elim (or-cases (is_mfa_marker (claim "acr" claims)) _ h) [
    | inl level ↦ by_level (is_mfa_marker-cases _ level)
    | inr method ↦ let (vs, given, p) = amr_has_mfa-Lists _ method in by_method vs given p
  ]

  shown-second_factor : ShowsSecondFactor claims → second_factor ≡ true
  shown-second_factor (by_level (inl e)) = rw e refl
  shown-second_factor (by_level (inr e)) = rw e refl
  shown-second_factor (by_method vs e p) =
      or-right (is_mfa_marker (claim "acr" claims)) _ (rw e (Lists-lists_mfa vs p))

  abbrev service_only : Bool
  service_only =
      truthy_value (claim "client_id" claims)
      && not (truthy_value (claim "preferred_username" claims))

  strong : second_factor ≡ true → authentication_strength_of claims ≡ AuthenticationStrength.mfa
  unfolding authentication_strength_of
  strong h = rw h refl

  not_strong :
      second_factor ≡ false → authentication_strength_of claims ≢ AuthenticationStrength.mfa
  unfolding authentication_strength_of
  not_strong h e = elim (Bool-cases service_only) [
    | inl s ↦ cc (rw (h, s) at e)
    | inr s ↦ cc (rw (h, s) at e)
  ]

  -- The strength is that of several factors exactly where the claims show a second one.
  pub strength_mfa_iff :
      (authentication_strength_of claims ≡ AuthenticationStrength.mfa) ↔ ShowsSecondFactor claims
  strength_mfa_iff = (
    λ e. elim (Bool-cases second_factor) [
      | inl h ↦ second_factor-shown h
      | inr h ↦ absurd (not_strong h e)
    ],
    λ p. strong (shown-second_factor p),
  )
