-- ===== src/Observability.antt =====
-- infrastructure/observability/logging.py: what is hidden before something is logged.
pub mod Search
pub mod Paths
pub mod Redaction
use Prim.Native.Char.{Char, code}
use edge_copilot_backend.Prelude.{
  ℕ, ◌+◌, String, Bool, true, false, ◌&&◌, ◌||◌, List, [], ◌∷◌, leb, eqb, any, if◌then◌else◌,
}
use Prim.Native.String
use edge_copilot_backend.Values.{
  Value, null, bool, num, text, date, items, dict, Fields, end, field,
}

-- `_REDACTED`
abbrev pub redacted : Value
redacted = text "***REDACTED***"

-- A code point as `re.IGNORECASE` compares it with a small letter: capitals count as small, and so do
-- the four letters outside ASCII that `re` takes for i, s and k.
abbrev pub fold : Char → ℕ
fold c =
    let n = code c in
    if leb 65 n && leb n 90
    then n + 32
    else if eqb n 304 || eqb n 305
    then 105
    else if eqb n 383
    then 115
    else if eqb n 8490
    then 107
    else n

-- The text begins with the word, up to the case of letters. The word is in small letters.
unfoldable pub begins : String → String → Bool
begins String.[] key = true
begins (String.◌∷◌ w word) String.[] = false
begins (String.◌∷◌ w word) (String.◌∷◌ c key) = eqb (fold c) (code w) && begins word key

-- The alternatives of `_SECRET_KEY_PATTERN`; `api[_-]?key` is three of them.
abbrev pub secret_words : List String
secret_words =
    "password" ∷ "token" ∷ "secret" ∷ "apikey" ∷ "api_key" ∷ "api-key" ∷ "authorization" ∷ "bearer"
    ∷ []

abbrev pub matches_here : String → Bool
matches_here key = any (λ word. begins word key) secret_words

-- `_SECRET_KEY_PATTERN.search(key)`
unfoldable pub is_secret : String → Bool
unfolding begins
is_secret String.[] = matches_here String.[]
is_secret (String.◌∷◌ c key) = matches_here (String.◌∷◌ c key) || is_secret key

-- `RedactingFilter.filter(record)`, on `vars(record)`: the record is changed, and passes.
unfoldable pub redact_record : Fields → Fields
redact_record end = end
redact_record (field key value rest) =
    field key (if is_secret key then redacted else value) (redact_record rest)

abbrev pub filter : Fields → Bool × Fields
filter record_vars = (true, redact_record record_vars)

-- `redact_dict(payload)`. The keys of a dict differ, so that each assignment adds an entry.
unfoldable mutual
  pub redact_value : Value → Value
  redact_value (dict payload) = dict (redact_dict payload)
  redact_value null = null
  redact_value (bool b) = bool b
  redact_value (num n) = num n
  redact_value (text t) = text t
  redact_value (date d) = date d
  redact_value (items vs) = items vs

  pub redact_dict : Fields → Fields
  redact_dict end = end
  redact_dict (field key value rest) =
      field key (if is_secret key then redacted else redact_value value) (redact_dict rest)

-- What `configure_logging(level)` asks of the logging module: the level and the format of the root
-- logger's output, and the filters that are added to the root logger.
pub record LoggingSetup : Type 0 where
  pub level : String
  pub format : String
  pub root_filters : List (Fields → Bool × Fields)

unfoldable pub configure_logging : String → LoggingSetup
configure_logging level = record {
  level = level;
  format =
      "{\"ts\":\"%(asctime)s\",\"level\":\"%(levelname)s\",\"logger\":\"%(name)s\",\"message\":\"%(message)s\"}";
  root_filters = filter ∷ [];
}
