-- ===== src/GoStd/Utf8.antt =====
-- unicode/utf8: `Valid` and `AppendRune`.
pub mod Split
use torana_plugin_sdk.Prelude.{
  ℕ, zero, suc, ◌+◌, ◌/◌, ◌%◌, Bool, true, false, ◌||◌, Bytes, [], ◌∷◌, ◌++◌, ◌==◌, ltb, within,
  if◌then◌else◌,
}

-- Between two characters, or before a continuation byte in `lo..hi` with `n` more behind it.
pub data Utf8State : Type 0 where
  start : Utf8State
  inside : ℕ → ℕ → ℕ → Utf8State
  invalid : Utf8State

pub utf8_lead : ℕ → Utf8State
utf8_lead c =
    if ltb c 0x80
    then start
    else if within 0xC2 0xDF c
    then inside 0 0x80 0xBF
    else if c == 0xE0
    then inside 1 0xA0 0xBF
    else if within 0xE1 0xEC c || within 0xEE 0xEF c
    then inside 1 0x80 0xBF
    else if c == 0xED
    then inside 1 0x80 0x9F
    else if c == 0xF0
    then inside 2 0x90 0xBF
    else if within 0xF1 0xF3 c
    then inside 2 0x80 0xBF
    else if c == 0xF4
    then inside 2 0x80 0x8F
    else invalid

pub utf8_next : ℕ → Utf8State
utf8_next zero = start
utf8_next (suc n) = inside n 0x80 0xBF

unfoldable pub utf8_step : Utf8State → ℕ → Utf8State
unfolding utf8_lead utf8_next
utf8_step start c = utf8_lead c
utf8_step (inside n lo hi) c = if within lo hi c then utf8_next n else invalid
utf8_step invalid c = invalid

pub utf8_run : Utf8State → Bytes → Bool
utf8_run start [] = true
utf8_run (inside _ _ _) [] = false
utf8_run invalid [] = false
utf8_run s (c ∷ cs) = utf8_run (utf8_step s c) cs

-- `utf8.Valid`, `utf8.ValidString`
unfoldable pub utf8_valid : Bytes → Bool
unfolding utf8_run utf8_step
utf8_valid = utf8_run start

-- `utf8.AppendRune`
unfoldable pub append_rune : Bytes → ℕ → Bytes
append_rune buf r =
    buf
    ++ (if ltb r 0x80
        then r ∷ []
        else if ltb r 0x800
        then (0xC0 + r / 64) ∷ (0x80 + r % 64) ∷ []
        else if ltb r 0x10000
        then (0xE0 + r / 4096) ∷ (0x80 + r / 64 % 64) ∷ (0x80 + r % 64) ∷ []
        else (0xF0 + r / 262144)
          ∷ (0x80 + r / 4096 % 64)
          ∷ (0x80 + r / 64 % 64)
          ∷ (0x80 + r % 64)
          ∷ [])
