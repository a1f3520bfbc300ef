-- ===== src/ToolReplacement.antt =====
-- tool_policy.go: the replacement of a long tool output, whose parts are cut between characters.
-- strings.Fields, strings.TrimSpace and crypto/sha256 are parameters.
pub mod Cut
use torana_plugin_sdk.Prelude.{
  ℕ, zero, suc, ◌+◌, ◌-◌, ◌/◌, Bool, true, false, not, Bytes, List, [], ◌∷◌, ◌++◌, Option, none,
  some, ◌==◌, leb, ltb, is_empty, codes, length, take, drop, get_elem?, if◌then◌else◌,
}
use torana_plugin_sdk.GoStd.Strings.{has_prefix}
use torana_plugin_sdk.GoStd.Decimal.{itoa, hex_encode}

-- `utf8RuneStart`, where the two high bits of a byte are its value by 64
unfoldable pub utf8_rune_start : ℕ → Bool
utf8_rune_start c = not (c / 64 == 2)

unfoldable pub start_at : Option ℕ → Bool
unfolding utf8_rune_start
start_at none = false
start_at (some c) = utf8_rune_start c

-- The loop of `validPrefix`, down from `end`.
unfoldable pub start_before : Bytes → ℕ → ℕ
unfolding start_at
start_before s zero = zero
start_before s (suc end) =
    let rest = start_before s end in if start_at (get_elem? s (suc end)) then suc end else rest

-- `validPrefix`
unfoldable pub valid_prefix : Bytes → ℕ → Bytes
unfolding start_before
valid_prefix s limit = if leb (length s) limit then s else take (start_before s limit) s

-- The loop of `validSuffix`, with what is left of the string for the position.
unfoldable pub from_start : Bytes → Bytes
unfolding utf8_rune_start
from_start [] = []
from_start (c ∷ cs) = let rest = from_start cs in if utf8_rune_start c then c ∷ cs else rest

-- `validSuffix`
unfoldable pub valid_suffix : Bytes → ℕ → Bytes
unfolding from_start
valid_suffix s limit = if leb (length s) limit then s else from_start (drop (length s - limit) s)

-- The head and the tail that a replacement retains.
unfoldable pub retained_parts : Bytes → Bool → Bytes × Bytes
unfolding valid_prefix valid_suffix
retained_parts content true = ([], [])
retained_parts content false =
    let head = valid_prefix content 768 in
    let remaining = drop (length head) content in
    if ltb 768 (length remaining)
    then (head, valid_suffix remaining 768)
    else (head ++ remaining, [])

-- `omittedBytes`; the difference on ℕ stops at 0, as the source's does by its guard
unfoldable pub omitted_bytes : Bytes → Bytes × Bytes → ℕ
omitted_bytes content parts = length content - (length parts.0 + length parts.1)

-- A line of the header, behind the newline that ends the one before.
unfoldable pub line : Bytes → Bytes → Bytes
line name value = 10 ∷ name ++ codes ": " ++ value

unfoldable pub section : Bytes → Bytes → Bytes
section title part =
    if is_empty part then [] else 10 ∷ codes "--- retained " ++ title ++ codes " ---" ++ (10 ∷ part)

abbrev tool_output_marker : Bytes
tool_output_marker = codes "[torana-tool-output v1]"

-- `strings.Join` with a space
unfoldable pub join_spaces : List Bytes → Bytes
join_spaces [] = []
join_spaces (part ∷ []) = part
join_spaces (part ∷ next ∷ parts) = part ++ (b' ' ∷ join_spaces (next ∷ parts))

module _ (sha256 : Bytes → Bytes) (fields : Bytes → List Bytes) (trim_space : Bytes → Bytes) where
  -- `oneLine`
  unfoldable pub one_line : Bytes → Bytes
  unfolding join_spaces
  one_line s = join_spaces (fields s)

  -- `ToolOutputSHA256`
  unfoldable pub tool_output_sha256 : Bytes → Bytes
  tool_output_sha256 content = hex_encode (sha256 content)

  unfoldable pub bounded_arguments : Bytes → Bytes
  unfolding valid_prefix one_line
  bounded_arguments tool_arguments =
      let arguments = one_line tool_arguments in
      if ltb 512 (length arguments) then valid_prefix arguments 512 ++ codes "..." else arguments

  unfoldable pub rerun_or_default : Bytes → Bytes
  rerun_or_default rerun =
      if is_empty (trim_space rerun)
      then codes "Re-run this tool with the original arguments to recover the exact output."
      else rerun

  -- `DeterministicToolReplacement`
  unfoldable pub deterministic_tool_replacement :
      Bytes → Bytes → Bytes → Bytes → Bytes → Bool → Bytes
  unfolding retained_parts omitted_bytes line section tool_output_sha256 bounded_arguments
      rerun_or_default itoa one_line
  deterministic_tool_replacement tool_name tool_arguments content mode rerun marker_only =
      let parts = retained_parts content marker_only in
      tool_output_marker
      ++ line (codes "mode") (one_line mode)
      ++ line (codes "tool") (one_line tool_name)
      ++ line (codes "tool_arguments") (bounded_arguments tool_arguments)
      ++ line (codes "original_bytes") (itoa (length content))
      ++ line (codes "sha256") (tool_output_sha256 content)
      ++ line (codes "retained_bytes") (itoa (length parts.0 + length parts.1))
      ++ line (codes "omitted_bytes") (itoa (omitted_bytes content parts))
      ++ line (codes "rerun") (one_line (rerun_or_default rerun))
      ++ section (codes "head") parts.0
      ++ section (codes "tail") parts.1
      ++ (10 ∷ codes "[/torana-tool-output]")

-- `IsDeterministicToolReplacement`
unfoldable pub is_deterministic_tool_replacement : Bytes → Bool
unfolding has_prefix
is_deterministic_tool_replacement content = has_prefix content (tool_output_marker ++ (10 ∷ []))
