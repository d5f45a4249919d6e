-- ===== src/Observability/Paths.antt =====
-- Values at paths of keys, before and after the redaction of
-- infrastructure/observability/logging.py.
use edge_copilot_backend.Prelude.{
  String, true, false, Option, none, some, List, [], ◌∷◌, ◌++◌, ◌≡◌, inl, inr, refl, ◌∙◌, ap, ◌==◌,
  eq_iff, All, Bool-cases, Option-cases, if◌then◌else◌,
}
use edge_copilot_backend.Values.{Value, null, dict, Fields, end, field, get}
use edge_copilot_backend.Observability.{redacted, is_secret, redact_value, redact_dict}

-- What stands at a path of keys, through dicts within dicts.
unfoldable pub at : List String → Value → Option Value
unfolding get
at [] v = some v
at (k ∷ path) (dict d) = elim (get k d) [ none ↦ none | some v ↦ at path v ]
at (k ∷ path) _ = none

-- Anything but a dict.
abbrev pub IsLeaf : Value → Type 0
IsLeaf (dict d) = ⊥
IsLeaf _ = Unit

abbrev pub IsOpen : String → Type 0
IsOpen key = is_secret key ≡ false

-- Something stands at the path, whose last key is the first that is secret.
pub record EndsAtSecret (path : List String) (v : Value) : Type 0 where
  pub before : List String
  pub key : String
  pub hidden : Value
  pub split : path ≡ before ++ key ∷ []
  pub opened : All IsOpen before
  pub secret : is_secret key ≡ true
  pub present : at path v ≡ some hidden

-- What becomes of a value under a key.
abbrev pub mask : String → Value → Value
mask key value = if is_secret key then redacted else redact_value value

abbrev pub masked : String → Option Value → Option Value
masked key none = none
masked key (some v) = some (mask key v)

pub get-redact_dict : (key : String) (d : Fields) → get key (redact_dict d) ≡ masked key (get key d)
unfolding get redact_value redact_dict
get-redact_dict key end = refl
get-redact_dict key (field k v rest) = elim (Bool-cases (k == key)) [
  | inl same' ↦ rw (same', (eq_iff k key).0 same') refl
  | inr other ↦ rw (other) (get-redact_dict key rest)
]

-- A step along a path, into the entry of a key.
pub at_entry :
    (key : String) (path : List String) (d : Fields) {v : Value}
    → get key d ≡ some v
    → at (key ∷ path) (dict d) ≡ at path v
unfolding at
at_entry key path d h = rw (h, at) refl

pub at_redacted :
    (key : String) (path : List String) (d : Fields) {v : Value}
    → get key d ≡ some v
    → at (key ∷ path) (dict (redact_dict d)) ≡ at path (mask key v)
at_redacted key path d h =
    at_entry key path (redact_dict d) (get-redact_dict key d ∙ ap (masked key) h)

-- What stands at a path stands at the end of its first step.
pub at-eq-some :
    (key : String) (path : List String) (u v : Value)
    → at (key ∷ path) u ≡ some v
    → (d : Fields) × (w : Value) × (u ≡ dict d) × (get key d ≡ some w) × (at path w ≡ some v)
unfolding at
at-eq-some key path (dict d) v h = elim (Option-cases (get key d)) [
  | inl missing ↦ cc (rw (missing, at) at h)
  | inr (w, found) ↦ (d, w, refl, found, rw (found, at) at h)
]
at-eq-some key path _ v h = cc

pub redact_value-IsLeaf : (u : Value) → IsLeaf (redact_value u) → redact_value u ≡ u
unfolding redact_value redact_dict
redact_value-IsLeaf (dict d) h = absurd h
redact_value-IsLeaf null h = refl
redact_value-IsLeaf _ h = refl

pub leaf_kept : (v : Value) → IsLeaf v → redact_value v ≡ v
unfolding redact_value redact_dict
leaf_kept (dict d) h = absurd h
leaf_kept null h = refl
leaf_kept _ h = refl

-- Along open keys everything is found that was there, redacted in turn.
pub at-open :
    (path : List String) (u v : Value)
    → All IsOpen path
    → at path u ≡ some v
    → at path (redact_value u) ≡ some (redact_value v)
unfolding at redact_value redact_dict
at-open [] u v o h = ap (masked_whole) h
  where
    masked_whole : Option Value → Option Value
    masked_whole none = none
    masked_whole (some w) = some (redact_value w)
at-open (key ∷ path) u v (o, os) h =
    let (d, w, shape, found, rest) = at-eq-some key path u v h in
    rw shape (at_redacted key path d found ∙ rw o (at-open path w v os rest))

pub at-secret :
    (before : List String) (key : String) (u hidden : Value)
    → All IsOpen before
    → is_secret key ≡ true
    → at (before ++ key ∷ []) u ≡ some hidden
    → at (before ++ key ∷ []) (redact_value u) ≡ some redacted
unfolding at redact_value redact_dict
at-secret [] key u hidden o s h =
    let (d, w, shape, found, rest) = at-eq-some key [] u hidden h in
    rw shape (at_redacted key [] d found ∙ rw s refl)
at-secret (k ∷ before) key u hidden (o, os) s h =
    let (d, w, shape, found, rest) = at-eq-some k (before ++ key ∷ []) u hidden h in
    rw shape
      (at_redacted k (before ++ key ∷ []) d found ∙ rw o (at-secret before key w hidden os s rest))

pub at-redacted_end :
    (path : List String) (v : Value) → at path redacted ≡ some v → (path ≡ []) × (v ≡ redacted)
unfolding at
at-redacted_end [] v h = (refl, cc)
at-redacted_end (key ∷ path) v h = cc

-- One more open key before a path that ends at a secret one.
pub EndsAtSecret-cons :
    (key : String) (path : List String) (d : Fields) (w : Value)
    → IsOpen key
    → get key d ≡ some w
    → EndsAtSecret path w
    → EndsAtSecret (key ∷ path) (dict d)
EndsAtSecret-cons key path d w o found e = record {
  before = key ∷ e.before;
  key = e.key;
  hidden = e.hidden;
  split = ap (◌∷◌ key) e.split;
  opened = (o, e.opened);
  secret = e.secret;
  present = at_entry key path d found ∙ e.present;
}

-- Under a secret key, a path that goes no further.
pub EndsAtSecret-here :
    (key : String) (path : List String) (d : Fields) (w : Value)
    → is_secret key ≡ true
    → get key d ≡ some w
    → path ≡ []
    → EndsAtSecret (key ∷ path) (dict d)
unfolding at
EndsAtSecret-here key path d w s found last = record {
  before = [];
  key = key;
  hidden = w;
  split = ap (◌∷◌ key) last;
  opened = tt;
  secret = s;
  present = rw last (at_entry key [] d found);
}
