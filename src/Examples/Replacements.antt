-- ===== src/Examples/Replacements.antt =====
-- The theorem on retained parts at a long output, and replacements at small outputs.
use torana_plugin_sdk.Prelude.{
  ℕ, zero, suc, true, false, Bytes, [], ◌∷◌, ◌++◌, codes, length, ◌≡◌, refl,
}
use torana_plugin_sdk.GoStd.Utf8.{utf8_valid}
use torana_plugin_sdk.ToolReplacement.{
  valid_prefix, valid_suffix, retained_parts, deterministic_tool_replacement,
  is_deterministic_tool_replacement,
}
use torana_plugin_sdk.ToolReplacement.Cut.{IsRetained, retained_parts-IsRetained}

abbrev copies : ℕ → Bytes → Bytes
copies zero s = []
copies (suc n) s = s ++ copies n s

-- A character of one byte, and characters of two.
abbrev long_output : Bytes
long_output = b'x' ∷ copies 800 (0xC3 ∷ 0xA9 ∷ [])

long_output-valid : utf8_valid long_output ≡ true
unfolding utf8_valid
long_output-valid = refl

-- The limits fall inside a character.
long_output-head : length (valid_prefix long_output 768) ≡ 767
unfolding valid_prefix
long_output-head = refl

long_output-tail : length (valid_suffix long_output 767) ≡ 766
unfolding valid_suffix
long_output-tail = refl

retained_parts-IsRetained_example : IsRetained long_output (retained_parts long_output false)
retained_parts-IsRetained_example = retained_parts-IsRetained long_output false long_output-valid

replacement_recognized :
    is_deterministic_tool_replacement (
      deterministic_tool_replacement
        (λ b. b)
        (λ b. b ∷ [])
        (λ b. b)
        (codes "ls")
        []
        (codes "ok")
        (codes "m")
        []
        false)
    ≡ true
unfolding deterministic_tool_replacement is_deterministic_tool_replacement
replacement_recognized = refl
