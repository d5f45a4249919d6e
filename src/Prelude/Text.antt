-- ===== src/Prelude/Text.antt =====
-- The string methods that the program calls, over code points: `startswith` with the slice that
-- follows it, `strip`, and `isascii` as `hmac.compare_digest` wants it.
use Prim.Native.Char.{Char, code}
use Prim.Native.String.{String, [], ◌∷◌}
use Prim.Native.String.{◌++◌ as ◌<>◌}
use mathlib.Core.Path.{◌≡◌}
use mathlib.Core.Logic.{inl, inr}
use native.Mathlib.Omega.{arith}
use text.Mathlib.TextEquality.{Char-path}
use text.Mathlib.TextLemmas.{nil-append, cons-append}
use mathlib.Core.Bool.{Bool, true, false, ◌&&◌, ◌||◌}
use mathlib.Core.Option.{Option, none, some}
use edge_copilot_backend.Prelude.Tests.{ltb, leb, eqb, eqb_iff, Bool-cases, if◌then◌else◌}

-- `text[len(prefix):] if text.startswith(prefix) else None`
unfoldable pub drop_prefix : String → String → Option String
drop_prefix [] text = some text
drop_prefix (p ∷ prefix) [] = none
drop_prefix (p ∷ prefix) (c ∷ text) =
    let rest = drop_prefix prefix text in if eqb (code p) (code c) then rest else none

-- The code points that `str.strip` removes (`str.isspace`).
unfoldable pub is_space : Char → Bool
is_space c =
    let n = code c in
    (leb 9 n && leb n 13)
    || (leb 28 n && leb n 32)
    || eqb n 133
    || eqb n 160
    || eqb n 5760
    || (leb 8192 n && leb n 8202)
    || eqb n 8232
    || eqb n 8233
    || eqb n 8239
    || eqb n 8287
    || eqb n 12288

unfoldable pub lstrip : String → String
lstrip [] = []
lstrip (c ∷ text) = let rest = lstrip text in if is_space c then rest else c ∷ text

abbrev keep_unless_blank : Char → String → String
keep_unless_blank c [] = if is_space c then [] else c ∷ []
keep_unless_blank c (d ∷ rest) = c ∷ d ∷ rest

unfoldable pub rstrip : String → String
rstrip [] = []
rstrip (c ∷ text) = keep_unless_blank c (rstrip text)

-- `text.strip()`
unfoldable pub strip : String → String
unfolding lstrip rstrip
strip text = rstrip (lstrip text)

-- `bool(text)`: a text is true unless it is empty.
abbrev pub truthy : String → Bool
truthy [] = false
truthy (c ∷ text) = true

-- `text.isascii()`
unfoldable pub is_ascii : String → Bool
is_ascii [] = true
is_ascii (c ∷ text) = ltb (code c) 128 && is_ascii text

-- `drop_prefix` undoes the concatenation, and only that.
pub drop_prefix-append : (p t : String) → drop_prefix p (p <> t) ≡ some t
unfolding drop_prefix
drop_prefix-append [] t = rw (nil-append t)
drop_prefix-append (c ∷ p) t = rw (cons-append c p t) (ground (arith, drop_prefix-append p t))

pub drop_prefix-eq-some : (p t r : String) → drop_prefix p t ≡ some r → t ≡ p <> r
unfolding drop_prefix
drop_prefix-eq-some [] t r h = cc (nil-append r)
drop_prefix-eq-some (c ∷ p) [] r h = cc
drop_prefix-eq-some (c ∷ p) (d ∷ t) r h = elim (Bool-cases (eqb (code c) (code d))) [
  | inl same' ↦ cc (
    cons-append c p r,
    drop_prefix-eq-some p t r (rw same' at h),
    Char-path c d ((eqb_iff _ _).0 same'),
  )
  | inr other ↦ cc (rw other at h)
]

pub is_ascii-append : (s t : String) → is_ascii (s <> t) ≡ (is_ascii s && is_ascii t)
unfolding is_ascii
is_ascii-append [] t = rw (nil-append t)
is_ascii-append (c ∷ s) t = rw (cons-append c s t) (ground (arith, is_ascii-append s t))
