-- ===== src/Observability/Search.antt =====
-- Which keys infrastructure/observability/logging.py takes for secret.
use Prim.Native.Char.{Char, code}
use text.Mathlib.TextLemmas.{nil-append, cons-append}
use edge_copilot_backend.Prelude.{
  ◌+◌, ◌≤◌, ◌<◌, ◌⊎◌, ◌&&◌, leb, or-right, any-In, In-any, String, true, ◌<>◌, ◌||◌, ◌≡◌, ◌↔◌, refl,
  sym, ◌∙◌, ap, arith, In, here, there, Bool-cases, inl, inr, eqb, eqb_iff,
}
use edge_copilot_backend.Observability.{fold, begins, secret_words, matches_here, is_secret}

-- The character is the letter of a word, up to case: it is the same, or the capital of it, or one of
-- the four letters outside ASCII that count as i, s and k.
pub data SameLetter (c w : Char) : Type 0 where
  same : code c ≡ code w → SameLetter c w
  capital : 65 ≤ code c → code c ≤ 90 → code c + 32 ≡ code w → SameLetter c w
  as_i : (code c ≡ 304) ⊎ (code c ≡ 305) → code w ≡ 105 → SameLetter c w
  as_s : code c ≡ 383 → code w ≡ 115 → SameLetter c w
  as_k : code c ≡ 8490 → code w ≡ 107 → SameLetter c w

-- The text is the word, up to the case of letters.
abbrev pub Spells : String → String → Type 0
Spells String.[] String.[] = Unit
Spells String.[] (String.◌∷◌ w word) = ⊥
Spells (String.◌∷◌ c m) String.[] = ⊥
Spells (String.◌∷◌ c m) (String.◌∷◌ w word) = SameLetter c w × Spells m word

-- The words that tell a secret.
pub data IsSecretWord : String → Type 0 where
  password : IsSecretWord "password"
  token : IsSecretWord "token"
  secret : IsSecretWord "secret"
  apikey : IsSecretWord "apikey"
  api_key : IsSecretWord "api_key"
  api_dash_key : IsSecretWord "api-key"
  authorization : IsSecretWord "authorization"
  bearer : IsSecretWord "bearer"

-- Somewhere the key holds one of the words.
pub record HoldsSecretWord (key : String) : Type 0 where
  pub before : String
  pub found : String
  pub after : String
  pub word : String
  pub listed : IsSecretWord word
  pub split : key ≡ before <> (found <> after)
  pub spelled : Spells found word

In-IsSecretWord : {word : String} → In word secret_words → IsSecretWord word
In-IsSecretWord here = password
In-IsSecretWord (there here) = token
In-IsSecretWord (there (there here)) = secret
In-IsSecretWord (there (there (there here))) = apikey
In-IsSecretWord (there (there (there (there here)))) = api_key
In-IsSecretWord (there (there (there (there (there here))))) = api_dash_key
In-IsSecretWord (there (there (there (there (there (there here)))))) = authorization
In-IsSecretWord (there (there (there (there (there (there (there here))))))) = bearer
In-IsSecretWord (there (there (there (there (there (there (there (there i)))))))) = elim i [ ]

IsSecretWord-In : {word : String} → IsSecretWord word → In word secret_words
IsSecretWord-In password = here
IsSecretWord-In token = there here
IsSecretWord-In secret = there (there here)
IsSecretWord-In apikey = there (there (there here))
IsSecretWord-In api_key = there (there (there (there here)))
IsSecretWord-In api_dash_key = there (there (there (there (there here))))
IsSecretWord-In authorization = there (there (there (there (there (there here)))))
IsSecretWord-In bearer = there (there (there (there (there (there (there here))))))

-- No letter of a word is a capital, and all are ASCII.
abbrev Small : String → Type 0
Small String.[] = Unit
Small (String.◌∷◌ w word) = ((code w < 65) ⊎ (90 < code w)) × (code w < 128) × Small word

IsSecretWord-Small : {word : String} → IsSecretWord word → Small word
IsSecretWord-Small password = omega arith
IsSecretWord-Small token = omega arith
IsSecretWord-Small secret = omega arith
IsSecretWord-Small apikey = omega arith
IsSecretWord-Small api_key = omega arith
IsSecretWord-Small api_dash_key = omega arith
IsSecretWord-Small authorization = omega arith
IsSecretWord-Small bearer = omega arith

fold-SameLetter : (c w : Char) → fold c ≡ code w → SameLetter c w
fold-SameLetter c w h = elim (Bool-cases (leb 65 (code c) && leb (code c) 90)) [
  | inl big ↦ capital (ground arith) (ground arith) (rw big at h)
  | inr not_big ↦ elim (Bool-cases (eqb (code c) 304 || eqb (code c) 305)) [
    | inl i ↦ as_i (ground arith) (sym (rw (not_big, i) at h))
    | inr not_i ↦ elim (Bool-cases (eqb (code c) 383)) [
      | inl s ↦ as_s ((eqb_iff _ _).0 s) (sym (rw (not_big, not_i, s) at h))
      | inr not_s ↦ elim (Bool-cases (eqb (code c) 8490)) [
        | inl k ↦ as_k ((eqb_iff _ _).0 k) (sym (rw (not_big, not_i, not_s, k) at h))
        | inr not_k ↦ same (rw (not_big, not_i, not_s, not_k) at h)
      ]
    ]
  ]
]

SameLetter-fold :
    (c w : Char) → (code w < 65) ⊎ (90 < code w) → code w < 128 → SameLetter c w → fold c ≡ code w
SameLetter-fold c w low ascii (same e) = ground (arith, e)
SameLetter-fold c w low ascii (capital a b e) = ground (arith, e)
SameLetter-fold c w low ascii (as_i e f) = ground (arith, e)
SameLetter-fold c w low ascii (as_s e f) = ground (arith, e)
SameLetter-fold c w low ascii (as_k e f) = ground (arith, e)

begins-Spells :
    (word key : String)
    → begins word key ≡ true
    → (m : String) × (r : String) × (key ≡ m <> r) × Spells m word
unfolding begins
begins-Spells String.[] key h = (String.[], key, sym (nil-append key), tt)
begins-Spells (String.◌∷◌ w word) String.[] h = cc
begins-Spells (String.◌∷◌ w word) (String.◌∷◌ c key) h = elim (Bool-cases (eqb (fold c) (code w))) [
  | inr no' ↦ cc (rw no' at h)
  | inl yes' ↦
      let (m, r, split, spelled) = begins-Spells word key (rw yes' at h) in
      (
        String.◌∷◌ c m,
        r,
        ap (String.◌∷◌ c) split ∙ sym (cons-append c m r),
        (fold-SameLetter c w ((eqb_iff _ _).0 yes'), spelled),
      )
]

Spells-begins : (m word r : String) → Small word → Spells m word → begins word (m <> r) ≡ true
unfolding begins
Spells-begins String.[] String.[] r small h = refl
Spells-begins String.[] (String.◌∷◌ w word) r small h = absurd h
Spells-begins (String.◌∷◌ c m) String.[] r small h = absurd h
Spells-begins (String.◌∷◌ c m) (String.◌∷◌ w word) r (low, ascii, small) (e, h) =
    rw (cons-append c m r, (eqb_iff (fold c) (code w)).1 (SameLetter-fold c w low ascii e))
      (Spells-begins m word r small h)

matches-is_secret : (q : String) → matches_here q ≡ true → is_secret q ≡ true
unfolding is_secret
matches-is_secret String.[] h = h
matches-is_secret (String.◌∷◌ c q) h = rw h

is_secret-append : (p q : String) → matches_here q ≡ true → is_secret (p <> q) ≡ true
unfolding is_secret
is_secret-append String.[] q h = ap is_secret (nil-append q) ∙ matches-is_secret q h
is_secret-append (String.◌∷◌ c p) q h =
    rw (cons-append c p q, is_secret-append p q h) (or-right _ true refl)

holds_here : (key : String) → matches_here key ≡ true → HoldsSecretWord key
holds_here key h =
    let (word, listed, begun) = any-In (λ w. begins w key) secret_words h in
    let (m, r, split, spelled) = begins-Spells word key begun in
    record {
      before = String.[];
      found = m;
      after = r;
      word = word;
      listed = In-IsSecretWord listed;
      split = split ∙ sym (nil-append (m <> r));
      spelled = spelled;
    }

is_secret-HoldsSecretWord : (key : String) → is_secret key ≡ true → HoldsSecretWord key
unfolding is_secret
is_secret-HoldsSecretWord String.[] h = holds_here String.[] h
is_secret-HoldsSecretWord (String.◌∷◌ c key) h =
    elim (Bool-cases (matches_here (String.◌∷◌ c key))) [
      | inl now ↦ holds_here (String.◌∷◌ c key) now
      | inr not_now ↦
          let f = is_secret-HoldsSecretWord key (rw not_now at h) in
          record {
            before = String.◌∷◌ c f.before;
            found = f.found;
            after = f.after;
            word = f.word;
            listed = f.listed;
            split = ap (String.◌∷◌ c) f.split ∙ sym (cons-append c f.before (f.found <> f.after));
            spelled = f.spelled;
          }
    ]

-- A key is taken for secret exactly when it holds, at any place, one of the words password, token,
-- secret, apikey, api_key, api-key, authorization and bearer, in capital or small letters, where the four letters outside ASCII
-- that fold to i, s and k count as these.
pub is_secret_iff : (key : String) → (is_secret key ≡ true) ↔ HoldsSecretWord key
is_secret_iff key = (
  is_secret-HoldsSecretWord key,
  (λ f.
      let here' =
        In-any (λ w. begins w (f.found <> f.after)) (IsSecretWord-In f.listed)
          (Spells-begins f.found f.word f.after (IsSecretWord-Small f.listed) f.spelled) in
      ap is_secret f.split ∙ is_secret-append f.before (f.found <> f.after) here'),
)
