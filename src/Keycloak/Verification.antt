-- ===== src/Keycloak/Verification.antt =====
-- What infrastructure/identity/keycloak_identity_provider.py accepts, and what it raises.
use mathlib.Core.Path.{subst}
use edge_copilot_backend.Prelude.{
  ◌↔◌, ℕ, String, true, false, Option, none, some, List, [], ◌∷◌, ◌≡◌, inl, inr, refl, sym, ◌∙◌, ap,
  eq_iff, ◌<>◌, Bool-cases, Option-cases,
}
use edge_copilot_backend.Values.{truthy_value, Value, Fields}
use edge_copilot_backend.Errors.{Exception, ok, raise, ok_injective, bind-ok}
use edge_copilot_backend.Exec.{Exec, from, return, ◌>>=◌, bind-eq-ok, from-bind-eq-ok, rest-answers}
use edge_copilot_backend.Security.{AuthenticationStrength}
use edge_copilot_backend.Ports.{AuthenticatedIdentity}
use edge_copilot_backend.Keycloak.Strength.{ShowsSecondFactor, strength_mfa_iff}
use edge_copilot_backend.Keycloak.{
  Jwk, JoseResult, returned, jose_error, KeycloakIdentityProvider, ProviderState, truthy_value,
  claim, authentication_strength_of, has_kid, find_key, or_denied, or_missing, filled, or_value,
  algorithm_of, jwks_uri, fetch_jwks, get_jwks, or_refetch, resolve_key, identity_of, identity_from,
  verify_token,
}

has_kid-eq : (kid : String) (key : Jwk) → has_kid kid key ≡ true → key.kid ≡ some kid
has_kid-eq kid key h = elim (Option-cases key.kid) [
  | inl e ↦ cc (rw e at h)
  | inr (own, e) ↦ e ∙ ap some ((eq_iff own kid).0 (rw e at h))
]

-- The key that is found has the id that was asked for.
pub find_key-kid :
    (kid : String) (jwks : List Jwk) (key : Jwk) → find_key kid jwks ≡ some key → key.kid ≡ some kid
unfolding find_key
find_key-kid kid [] key h = cc
find_key-kid kid (j ∷ jwks) key h = elim (Bool-cases (has_kid kid j)) [
  | inl yes' ↦
      let same' : j ≡ key = cc (rw yes' at h) in sym (ap (λ k. k.kid) same') ∙ has_kid-eq kid j yes'
  | inr no' ↦ find_key-kid kid jwks key (rw no' at h)
]

or_denied-eq-ok :
    {A : Type 0} (message : String → String) (r : JoseResult A) (a : A)
    → or_denied message r ≡ ok a
    → r ≡ returned a
or_denied-eq-ok message (jose_error e) a h = cc
or_denied-eq-ok message (returned b) a h = ap returned (ok_injective h)

or_missing-eq-ok :
    {A : Type 0} (message : String) (o : Option A) (a : A)
    → or_missing message o ≡ ok a
    → o ≡ some a
or_missing-eq-ok message none a h = cc
or_missing-eq-ok message (some b) a h = ap some (ok_injective h)

filled-eq-ok :
    (message : String) (v u : Value) → filled message v ≡ ok u → (u ≡ v) × (truthy_value u ≡ true)
filled-eq-ok message v u h = elim (Bool-cases (truthy_value v)) [
  | inl yes' ↦
      let same' : v ≡ u = ok_injective (rw yes' at h) in
      (sym same', sym (ap truthy_value same') ∙ yes')
  | inr no' ↦ cc (rw no' at h)
]

module _ (provider : KeycloakIdentityProvider) (now : ℕ) where
  resolve_key-kid :
      (kid : String) (s : ProviderState provider) (key : Jwk)
      → (resolve_key provider now kid s).0 ≡ ok (some key)
      → key.kid ≡ some kid
  unfolding resolve_key
  resolve_key-kid kid s key h =
      let (jwks, got, run) =
        bind-eq-ok (get_jwks provider now false)
          (λ jwks. or_refetch provider now kid (find_key kid jwks)) s h in
      by_search (find_key kid jwks) jwks refl _ (rest-answers run h)
    where
      by_search :
          (o : Option Jwk) (jwks : List Jwk)
          → find_key kid jwks ≡ o
          → (v : ProviderState provider) → (or_refetch provider now kid o v).0 ≡ ok (some key)
          → key.kid ≡ some kid
      by_search (some k) jwks e v g = find_key-kid kid jwks key (e ∙ ok_injective g)
      by_search none jwks e v g =
          let (again, _, run) =
            bind-eq-ok (get_jwks provider now true) (λ again. return (find_key kid again)) v g in
          find_key-kid kid again key (ok_injective (rest-answers run g))

  -- What the claims of a token say of an identity.
  pub record IsClaimed (claims : Fields) (identity : AuthenticatedIdentity) : Type 0 where
    pub subject : identity.user_id ≡ claim "sub" claims
    pub subject_filled : truthy_value identity.user_id ≡ true
    pub session : identity.session_id ≡ or_value (claim "sid" claims) (claim "session_state" claims)
    pub session_filled : truthy_value identity.session_id ≡ true
    pub strength : identity.authentication_strength ≡ authentication_strength_of claims
    pub several_factors :
        (identity.authentication_strength ≡ AuthenticationStrength.mfa) ↔ ShowsSecondFactor claims
    pub passed_on : identity.raw_claims ≡ claims

  identity_from-IsClaimed :
      (claims : Fields) (identity : AuthenticatedIdentity)
      → identity_from provider claims ≡ ok identity
      → IsClaimed claims identity
  unfolding identity_from
  identity_from-IsClaimed claims identity h =
      let (user_id, rest, user) = bind-ok _ _ h in
      let (session_id, last, session) = bind-ok _ _ rest in
      let (same_user, user_filled) = filled-eq-ok _ _ user_id user in
      let (same_session, session_filled) = filled-eq-ok _ _ session_id session in
      let made : identity_of provider claims user_id session_id ≡ identity = ok_injective last in
      record {
        subject = sym (ap (λ i. i.user_id) made) ∙ same_user;
        subject_filled = sym (ap (λ i. truthy_value i.user_id) made) ∙ user_filled;
        session = sym (ap (λ i. i.session_id) made) ∙ same_session;
        session_filled = sym (ap (λ i. truthy_value i.session_id) made) ∙ session_filled;
        strength = sym (ap (λ i. i.authentication_strength) made);
        several_factors =
            subst
              (λ i.
                (i.authentication_strength ≡ AuthenticationStrength.mfa) ↔ ShowsSecondFactor claims)
              made (strength_mfa_iff claims);
        passed_on = sym (ap (λ i. i.raw_claims) made);
      }

  -- What an identity rests on.
  pub record IsVerified (bearer_token : String) (s : ProviderState provider)
      (identity : AuthenticatedIdentity) : Type 0 where
    pub kid : String
    pub key : Jwk
    pub claims : Fields
    pub header : provider.jose.unverified_kid bearer_token ≡ returned (some kid)
    pub found : (resolve_key provider now kid s).0 ≡ ok (some key)
    pub named : key.kid ≡ some kid
    pub decoded :
        provider.jose.decode now bearer_token key
          (algorithm_of key.alg)
          provider.audience
          provider.issuer_url
        ≡ returned claims
    pub claimed : IsClaimed claims identity

  -- An identity that is returned has been verified: jose decoded the token for the audience and the
  -- issuer of the provider, with a key of the realm whose id is that of the token's header; the
  -- user and the session are claims of the decoded token, and neither is empty. The strength is MFA
  -- exactly where `acr` is one of the two markers or `amr` lists mfa.
  pub verify_token-IsVerified :
      (bearer_token : String) (s : ProviderState provider) (identity : AuthenticatedIdentity)
      → (verify_token provider now bearer_token s).0 ≡ ok identity
      → IsVerified bearer_token s identity
  unfolding verify_token
  verify_token-IsVerified bearer_token s identity h =
      let (header, opened, run) = from-bind-eq-ok _ with_header s h in
      let h1 = rest-answers run h in
      let (kid, present, run1) = from-bind-eq-ok _ with_kid s h1 in
      let h2 = rest-answers run1 h1 in
      let (answer, found, run2) = bind-eq-ok (resolve_key provider now kid) with_answer s h2 in
      let h3 = rest-answers run2 h2 in
      let (key, there', run3) = from-bind-eq-ok _ with_key _ h3 in
      let h4 = rest-answers run3 h3 in
      let (claims, decoded, run4) = from-bind-eq-ok _ with_claims _ h4 in
      let h5 = rest-answers run4 h4 in
      let known = found ∙ ap ok (or_missing-eq-ok _ answer key there') in
      record {
        kid = kid;
        key = key;
        claims = claims;
        header =
            or_denied-eq-ok _ _ header opened ∙ ap returned (or_missing-eq-ok _ header kid present);
        found = known;
        named = resolve_key-kid kid s key known;
        decoded = or_denied-eq-ok _ _ claims decoded;
        claimed = identity_from-IsClaimed claims identity h5;
      }
    where
      with_claims : Fields → Exec (ProviderState provider) AuthenticatedIdentity
      with_claims claims = from (identity_from provider claims)

      with_key : Jwk → Exec (ProviderState provider) AuthenticatedIdentity
      with_key key =
          from (
            or_denied (λ e. "Bearer token failed verification: " <> e)
              (provider.jose.decode now bearer_token key (algorithm_of key.alg) provider.audience
                provider.issuer_url))
          >>= with_claims

      with_answer : Option Jwk → Exec (ProviderState provider) AuthenticatedIdentity
      with_answer found =
          from (or_missing "Bearer token key ID does not match any known signing key." found)
          >>= with_key

      with_kid : String → Exec (ProviderState provider) AuthenticatedIdentity
      with_kid kid = resolve_key provider now kid >>= with_answer

      with_header : Option String → Exec (ProviderState provider) AuthenticatedIdentity
      with_header header =
          from (or_missing "Bearer token is missing a key ID (kid)." header) >>= with_kid

  -- Where nothing is cached and the request for the keys raises, `verify_token` raises the same
  -- exception, of whatever class: it is not turned into an AuthorizationError.
  verify_token_unreachable :
      (bearer_token kid : String) (s : ProviderState provider) (e : Exception)
      → provider.jose.unverified_kid bearer_token ≡ returned (some kid)
      → s.cache ≡ none
      → (provider.http_client.get_keys s.http (jwks_uri provider)).0 ≡ raise e
      → (verify_token provider now bearer_token s).0 ≡ raise e
  unfolding verify_token resolve_key get_jwks fetch_jwks
  verify_token_unreachable bearer_token kid s e header empty failed =
      rw (header, empty, failed) refl
