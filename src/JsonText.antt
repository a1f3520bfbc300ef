-- ===== src/JsonText.antt =====
-- pb/v1/jsontext/jsontext.go: the scanner that refuses JSON texts which two parsers could read
-- differently. The validator's `pos` is kept as `data[pos:]`, the bytes not yet read; `scopes`
-- and `buf` are local to the object and the string that own them. The mutual recursion takes
-- fuel, of which twice the length of the document is enough (JsonText/Total).
pub mod Total
mod Tests
use torana_plugin_sdk.Prelude.{
  ℕ, zero, suc, ◌+◌, ◌-◌, ◌*◌, Bool, true, false, not, ◌||◌, ◌&&◌, Bytes, List, [], ◌∷◌, ◌++◌,
  Option, none, some, ◌==◌, ltb, leb, within, if◌then◌else◌, Result, Check, ok, err, ◌>>=◌, ◌>>◌,
  refuse_if, bytes_eq, codes, length, is_empty,
}
use torana_plugin_sdk.GoStd.Utf8.{utf8_valid, append_rune}

pub data JsonError : Type 0 where
  invalid_utf8 empty_document trailing_data too_deep unexpected_end unexpected_character : JsonError
  malformed_literal malformed_number unterminated_array expected_array_separator : JsonError
  expected_member_name duplicate_member expected_colon unterminated_object : JsonError
  expected_object_separator expected_string unterminated_string unterminated_escape : JsonError
  lone_high_surrogate high_surrogate_not_paired lone_low_surrogate invalid_escape : JsonError
  control_character truncated_unicode_escape invalid_unicode_escape : JsonError
  -- not an error of the source
  fuel_exhausted : JsonError

abbrev pub max_depth : ℕ
max_depth = 10000

abbrev is_space : ℕ → Bool
is_space c = c == b' ' || c == b'\t' || c == b'\n' || c == b'\r'

unfoldable pub skip_ws : Bytes → Bytes
skip_ws [] = []
skip_ws (c ∷ cs) = if is_space c then skip_ws cs else c ∷ cs

unfoldable pub strip_prefix : Bytes → Bytes → Option Bytes
strip_prefix [] rest = some rest
strip_prefix (w ∷ ws) [] = none
strip_prefix (w ∷ ws) (c ∷ cs) = if c == w then strip_prefix ws cs else none

unfoldable pub literal : Bytes → Bytes → Result JsonError Bytes
literal want rest = elim (strip_prefix want rest) [ none ↦ err malformed_literal | some r ↦ ok r ]

abbrev is_digit : ℕ → Bool
is_digit c = within b'0' b'9' c

abbrev is_number_mark : ℕ → Bool
is_number_mark c = c == b'.' || c == b'e' || c == b'E' || c == b'+' || c == b'-'

-- The loop of `number`: the count of digits, the last byte read and what is left.
unfoldable pub number_loop : ℕ → ℕ → Bytes → ℕ × ℕ × Bytes
number_loop digits last [] = (digits, last, [])
number_loop digits last (c ∷ cs) =
    let rest = number_loop (if is_digit c then digits + 1 else digits) c cs in
    if is_digit c || is_number_mark c then rest else (digits, last, c ∷ cs)

number_end : ℕ × ℕ × Bytes → Result JsonError Bytes
number_end (digits, last, rest) =
    if digits == 0 && last == b'-' then err malformed_number else ok rest

-- At a byte that is `-` or a digit.
unfoldable pub number : Bytes → Result JsonError Bytes
unfolding number_end
number [] = err unexpected_end
number (c ∷ cs) = number_end (if c == b'-' then number_loop 0 c cs else number_loop 0 c (c ∷ cs))

unfoldable pub hex_digit : ℕ → Option ℕ
hex_digit c =
    if within b'0' b'9' c
    then some (c - b'0')
    else if within b'a' b'f' c
    then some (c - b'a' + 10)
    else if within b'A' b'F' c
    then some (c - b'A' + 10)
    else none

-- `r<<4 | rune(d)`, where the low four bits of `r<<4` are 0
unfoldable pub hex_step : ℕ → ℕ → Result JsonError ℕ
hex_step r c = elim (hex_digit c) [ none ↦ err invalid_unicode_escape | some d ↦ ok (r * 16 + d) ]

unfoldable pub hex_rune : Bytes → Result JsonError (ℕ × Bytes)
hex_rune (a ∷ b ∷ c ∷ d ∷ rest) = do
  r1 ← hex_step 0 a
  r2 ← hex_step r1 b
  r3 ← hex_step r2 c
  r4 ← hex_step r3 d
  ok (r4, rest)
hex_rune _ = err truncated_unicode_escape

abbrev is_high : ℕ → Bool
is_high r = within 0xD800 0xDBFF r

abbrev is_low : ℕ → Bool
is_low r = within 0xDC00 0xDFFF r

-- The low half that must follow the high surrogate `r`.
unfoldable pub low_surrogate : ℕ → Bytes → Result JsonError (ℕ × Bytes)
low_surrogate r (s ∷ u ∷ rest) =
    if not (s == b'\\') || not (u == b'u') then err lone_high_surrogate else do
      (lo, rest') ← hex_rune rest
      refuse_if (not (is_low lo)) high_surrogate_not_paired
      ok (0x10000 + (r - 0xD800) * 1024 + (lo - 0xDC00), rest')
low_surrogate r _ = err lone_high_surrogate

-- The code point of a `\u` escape, and what follows it.
unfoldable pub unicode_escape : Bytes → Result JsonError (ℕ × Bytes)
unicode_escape rest = do
  (r, rest') ← hex_rune rest
  if is_high r
      then low_surrogate r rest'
      else if is_low r
      then err lone_low_surrogate
      else ok (r, rest')

-- The byte that a one-letter escape stands for.
unfoldable pub simple_escape : ℕ → Option ℕ
simple_escape e =
    if e == b'"' || e == b'\\' || e == b'/'
    then some e
    else if e == b'b'
    then some 8
    else if e == b'f'
    then some 12
    else if e == b'n'
    then some 10
    else if e == b'r'
    then some 13
    else if e == b't'
    then some 9
    else none

-- One round of the loop of `decodeString`: the string ends, or goes on with a longer buffer.
pub data StringStep : Type 0 where
  closed : Bytes → StringStep
  more : Bytes → Bytes → StringStep

keep_rune : Bytes → ℕ × Bytes → StringStep
keep_rune buf (r, rest) = more (append_rune buf r) rest

unfoldable pub escape_step : Bytes → Bytes → Result JsonError StringStep
unfolding keep_rune
escape_step buf [] = err unterminated_escape
escape_step buf (e ∷ rest) = elim (simple_escape e) [
  | some b ↦ ok (more (buf ++ b ∷ []) rest)
  | none ↦
      if e == b'u' then (unicode_escape rest >>= λ p. ok (keep_rune buf p)) else err invalid_escape
]

unfoldable pub string_step : Bytes → Bytes → Result JsonError StringStep
string_step buf [] = err unterminated_string
string_step buf (c ∷ cs) =
    if c == b'"'
    then ok (closed cs)
    else if c == b'\\'
    then escape_step buf cs
    else if ltb c 0x20
    then err control_character
    else ok (more (buf ++ c ∷ []) cs)

-- The decoded bytes and what follows the closing quote. The source drops the decoded bytes of a
-- string that is no member name; here they are returned and not used.
unfoldable pub string_loop : ℕ → Bytes → Bytes → Result JsonError (Bytes × Bytes)
string_loop zero buf rest = err fuel_exhausted
string_loop (suc f) buf rest =
    string_step buf rest
    >>= elim [ closed rest' ↦ ok (buf, rest') | more buf' rest' ↦ string_loop f buf' rest' ]

unfoldable pub decode_string : Bytes → Result JsonError (Bytes × Bytes)
decode_string [] = err expected_string
decode_string (c ∷ cs) =
    if c == b'"' then string_loop (suc (length cs)) [] cs else err expected_string

unfoldable pub seen : Bytes → List Bytes → Bool
seen key [] = false
seen key (k ∷ ks) = bytes_eq key k || seen key ks

-- The colon behind a member name, and the space behind it.
unfoldable pub colon : Bytes → Result JsonError Bytes
colon [] = err expected_colon
colon (c ∷ cs) = if c == b':' then ok (skip_ws cs) else err expected_colon

-- The member name, the check against the names of this object, and the colon.
unfoldable pub member_name : List Bytes → Bytes → Result JsonError (Bytes × Bytes)
member_name scope [] = err expected_member_name
member_name scope (c ∷ cs) = if not (c == b'"') then err expected_member_name else do
  (key, rest) ← decode_string (c ∷ cs)
  refuse_if (seen key scope) duplicate_member
  rest' ← colon (skip_ws rest)
  ok (key, rest')

-- What stands behind an element: a comma and more, or the closing bracket.
pub data Separator : Type 0 where
  comma : Bytes → Separator
  close : Bytes → Separator

unfoldable pub separator : ℕ → JsonError → JsonError → Bytes → Result JsonError Separator
separator closing missing unexpected [] = err missing
separator closing missing unexpected (c ∷ cs) =
    if c == b','
    then ok (comma (skip_ws cs))
    else if c == closing
    then ok (close cs)
    else err unexpected

-- Which case of the switch of `value` the next byte selects.
pub data ValueStart : Type 0 where
  at_object at_array at_string at_true at_false at_null at_number at_other : ValueStart

unfoldable pub value_start : ℕ → ValueStart
value_start c =
    if c == b'{'
    then at_object
    else if c == b'['
    then at_array
    else if c == b'"'
    then at_string
    else if c == b't'
    then at_true
    else if c == b'f'
    then at_false
    else if c == b'n'
    then at_null
    else if c == b'-' || is_digit c
    then at_number
    else at_other

-- The closing bracket directly behind the opening one and its space.
unfoldable pub closes_at_once : ℕ → Bytes → Option Bytes
closes_at_once closing [] = none
closes_at_once closing (c ∷ cs) = if c == closing then some cs else none

-- The cases of the switch that do not recurse.
unfoldable pub scalar : ValueStart → Bytes → Result JsonError Bytes
scalar at_string rest = decode_string rest >>= λ p. ok p.1
scalar at_true rest = literal (codes "true") rest
scalar at_false rest = literal (codes "false") rest
scalar at_null rest = literal (codes "null") rest
scalar at_number rest = number rest
scalar _ rest = err unexpected_character

-- Behind an opening bracket: the empty array or object, or the loop over the elements.
unfoldable pub bracket : ℕ → (Bytes → Result JsonError Bytes) → Bytes → Result JsonError Bytes
bracket closing loop cs = elim (closes_at_once closing (skip_ws cs)) [
  | none ↦ loop (skip_ws cs)
  | some rest ↦ ok rest
]

unfoldable pub value_switch :
    (Bytes → Result JsonError Bytes)
    → (Bytes → Result JsonError Bytes)
    → Bytes
    → Result JsonError Bytes
value_switch object_loop array_loop [] = err unexpected_end
value_switch object_loop array_loop (c ∷ cs) = elim (value_start c) [
  | at_object ↦ bracket b'}' object_loop cs
  | at_array ↦ bracket b']' array_loop cs
  | s ↦ scalar s (c ∷ cs)
]

-- `value`, and the loops of `array` and `object`. `depth` is the argument of the source's
-- functions, so the loops hold the depth of their elements.
unfoldable mutual
  pub value : ℕ → ℕ → Bytes → Result JsonError Bytes
  value zero depth rest = err fuel_exhausted
  value (suc f) depth rest =
      if ltb max_depth depth
      then err too_deep
      else value_switch (object_loop f (depth + 1) []) (array_loop f (depth + 1)) rest

  pub array_loop : ℕ → ℕ → Bytes → Result JsonError Bytes
  array_loop zero depth rest = err fuel_exhausted
  array_loop (suc f) depth rest = value f depth rest >>= λ r.
      separator b']' unterminated_array expected_array_separator (skip_ws r)
      >>= elim [ comma r' ↦ array_loop f depth r' | close r' ↦ ok r' ]

  pub object_loop : ℕ → ℕ → List Bytes → Bytes → Result JsonError Bytes
  object_loop zero depth scope rest = err fuel_exhausted
  object_loop (suc f) depth scope rest = member_name scope rest >>= λ m. value f depth m.1 >>= λ r.
      separator b'}' unterminated_object expected_object_separator (skip_ws r)
      >>= elim [ comma r' ↦ object_loop f depth (m.0 ∷ scope) r' | close r' ↦ ok r' ]

unfoldable pub finish : Bytes → Check JsonError
finish rest = refuse_if (not (is_empty (skip_ws rest))) trailing_data

-- `Validate`
unfoldable pub validate : Bytes → Check JsonError
validate input =
    if not (utf8_valid input)
    then err invalid_utf8
    else if is_empty (skip_ws input)
    then err empty_document
    else value (2 * length input + 2) 0 (skip_ws input) >>= finish
