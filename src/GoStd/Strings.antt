-- ===== src/GoStd/Strings.antt =====
-- The package strings, as far as the host-call code uses it, and unicode/utf8 on runes.
use torana_plugin_sdk.Prelude.{
  ℕ, zero, suc, ◌+◌, ◌*◌, ◌%◌, Bool, true, false, ◌&&◌, ◌||◌, Bytes, List, [], ◌∷◌, Option, none,
  some, ◌==◌, ltb, within, if◌then◌else◌, length,
}
use torana_plugin_sdk.GoStd.Utf8.{Utf8State, start, inside, invalid, utf8_step}

-- `strings.HasPrefix`
unfoldable pub has_prefix : Bytes → Bytes → Bool
has_prefix s [] = true
has_prefix [] (p ∷ ps) = false
has_prefix (c ∷ cs) (p ∷ ps) = c == p && has_prefix cs ps

-- `strings.Contains` and `strings.ContainsRune` of one ASCII character
unfoldable pub contains_byte : Bytes → ℕ → Bool
contains_byte [] b = false
contains_byte (c ∷ cs) b = c == b || contains_byte cs b

unfoldable pub all_bytes : (ℕ → Bool) → Bytes → Bool
all_bytes p [] = true
all_bytes p (c ∷ cs) = p c && all_bytes p cs

unfoldable pub prepend : ℕ → List Bytes → List Bytes
prepend c [] = (c ∷ []) ∷ []
prepend c (part ∷ parts) = (c ∷ part) ∷ parts

-- `strings.Split` at one ASCII character
unfoldable pub split : Bytes → ℕ → List Bytes
unfolding prepend
split [] sep = [] ∷ []
split (c ∷ cs) sep = let rest = split cs sep in if c == sep then [] ∷ rest else prepend c rest

-- `strings.ToLower` on an ASCII string
unfoldable pub to_lower : Bytes → Bytes
to_lower [] = []
to_lower (c ∷ cs) = (if within b'A' b'Z' c then c + 32 else c) ∷ to_lower cs

-- The continuation bytes that a lead byte asks for, shifted into the rune.
rune_tail : Utf8State → ℕ → Bytes → Option ℕ
rune_tail start r cs = some r
rune_tail invalid r cs = none
rune_tail (inside n lo hi) r [] = none
rune_tail (inside n lo hi) r (c ∷ cs) =
    rune_tail (utf8_step (inside n lo hi) c) (r * 64 + c % 64) cs

tail_width : Utf8State → ℕ
tail_width (inside n lo hi) = suc n
tail_width _ = 0

lead_bits : ℕ → ℕ
lead_bits c =
    if ltb c 0x80 then c else if ltb c 0xE0 then c % 32 else if ltb c 0xF0 then c % 16 else c % 8

-- `utf8.RuneError` with width 1 for a byte that starts no character.
rune_or_error : Option ℕ → ℕ → ℕ × ℕ
rune_or_error none w = (0xFFFD, 0)
rune_or_error (some r) w = (r, w)

-- `utf8.DecodeRune`: the rune, and how many bytes follow its first one.
decode_rune : ℕ → Bytes → ℕ × ℕ
unfolding rune_tail tail_width lead_bits rune_or_error
decode_rune c cs =
    let lead = utf8_step start c in
    rune_or_error (rune_tail lead (lead_bits c) cs) (tail_width lead)

runes_after : ℕ → Bytes → List ℕ
unfolding decode_rune
runes_after skip [] = []
runes_after zero (c ∷ cs) = (decode_rune c cs).0 ∷ runes_after ((decode_rune c cs).1) cs
runes_after (suc skip) (c ∷ cs) = runes_after skip cs

-- The runes of `for _, r := range s`.
unfoldable pub runes : Bytes → List ℕ
unfolding runes_after
runes = runes_after 0

-- `utf8.RuneCountInString`
abbrev pub rune_count : Bytes → ℕ
rune_count s = length (runes s)

-- `unicode.IsControl`
abbrev pub is_control : ℕ → Bool
is_control r = ltb r 0x20 || within 0x7F 0x9F r

-- `unicode.IsSpace`
abbrev pub is_space : ℕ → Bool
is_space r =
    within 0x09 0x0D r
    || r == 0x20
    || r == 0x85
    || r == 0xA0
    || r == 0x1680
    || within 0x2000 0x200A r
    || r == 0x2028
    || r == 0x2029
    || r == 0x202F
    || r == 0x205F
    || r == 0x3000

-- `strings.TrimSpace(s) == ""`
unfoldable pub is_blank : Bytes → Bool
unfolding all_bytes
is_blank s = all_bytes is_space (runes s)

-- `<` on strings
unfoldable pub bytes_lt : Bytes → Bytes → Bool
bytes_lt [] [] = false
bytes_lt [] (b ∷ y) = true
bytes_lt (a ∷ x) [] = false
bytes_lt (a ∷ x) (b ∷ y) = ltb a b || (a == b && bytes_lt x y)
