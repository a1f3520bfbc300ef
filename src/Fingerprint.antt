-- ===== src/Fingerprint.antt =====
-- requestblocks.go and cachekey.go: the fingerprints of a message body and of tool-result content,
-- and the content-addressed cache key. crypto/sha256 is the parameter `sha256`. What the source
-- writes to a hash before it returns an error is discarded with the hash, so a check of all parts
-- comes first here and the hashed bytes after it.
pub mod Frames
pub mod Content
pub mod View
pub mod Injective
pub mod Nested
pub mod CacheKey
use torana_plugin_sdk.Prelude.{
  ℕ, zero, suc, ◌+◌, ◌-◌, ◌^◌, Bool, true, false, not, ◌||◌, Bytes, List, [], ◌∷◌, ◌++◌, Option,
  none, some, Result, Check, ok, err, ◌>>◌, refuse_if, is_empty, length, ltb, leb, codes,
  if◌then◌else◌,
}
use torana_plugin_sdk.GoStd.Decimal.{itoa, hex_encode}
use torana_plugin_sdk.Proto.Request.{
  InvocationKind, function, freeform, other, TextBlock, ThinkingBlock, ToolUseBlock,
  ToolResultBlock, BlockKind, RequestBlock, Message,
}
use torana_plugin_sdk.Fingerprint.Frames.{Frame, hashed}
use torana_plugin_sdk.Fingerprint.Content.{
  FingerprintError, nil_message, nil_block, nil_arm, no_arm, validate_strict_object,
  content_preimage, check_contents,
}

-- `validateOptionalObject`
unfoldable pub validate_optional_object : Bytes → Check FingerprintError
validate_optional_object raw = if is_empty raw then ok tt else validate_strict_object raw

unfoldable pub check_kind : BlockKind → Check FingerprintError
check_kind (BlockKind.text (some t)) = validate_optional_object t.part_metadata_json
check_kind (BlockKind.thinking (some t)) = validate_optional_object t.part_metadata_json
check_kind (BlockKind.redacted_thinking (some r)) = ok tt
check_kind (BlockKind.tool_use (some u)) =
    validate_optional_object u.arguments_json >> validate_optional_object u.part_metadata_json
check_kind (BlockKind.tool_result (some r)) =
    validate_optional_object r.part_metadata_json >> check_contents r.content
check_kind (BlockKind.cache_breakpoint (some c)) = validate_strict_object c.marker_json
check_kind (BlockKind.unknown (some u)) =
    validate_strict_object u.payload_json >> validate_optional_object u.part_metadata_json
check_kind (BlockKind.trailing_signature (some t)) = validate_optional_object t.part_metadata_json
check_kind (BlockKind.refusal (some r)) = ok tt
check_kind BlockKind.no_arm = err FingerprintError.no_arm
check_kind _ = err nil_arm

unfoldable pub check_blocks : List (Option RequestBlock) → Check FingerprintError
unfolding check_kind
check_blocks [] = ok tt
check_blocks (none ∷ bs) = err nil_block
check_blocks (some b ∷ bs) = check_kind b.kind >> check_blocks bs

-- The value of the frame "kind".
unfoldable pub kind_name : BlockKind → Bytes
kind_name (BlockKind.text t) = codes "text"
kind_name (BlockKind.thinking t) = codes "thinking"
kind_name (BlockKind.redacted_thinking r) = codes "redacted"
kind_name (BlockKind.tool_use u) = codes "tool_use"
kind_name (BlockKind.tool_result r) = codes "tool_result"
kind_name (BlockKind.cache_breakpoint c) = codes "cache"
kind_name (BlockKind.unknown u) = codes "unknown"
kind_name (BlockKind.trailing_signature t) = codes "trailing"
kind_name (BlockKind.refusal r) = codes "refusal"
kind_name _ = []

-- `strconv.FormatInt` of the int32 number of the enum
unfoldable pub format_invocation : InvocationKind → Bytes
format_invocation function = codes "0"
format_invocation freeform = codes "1"
format_invocation (other n) = if ltb n (2 ^ 31) then itoa n else (codes "-" ++ itoa (2 ^ 32 - n))

-- `strconv.FormatBool`
abbrev pub format_bool : Bool → Bytes
format_bool true = codes "true"
format_bool false = codes "false"

-- A frame that says whether a field is present, and one with its value.
unfoldable pub presence : Bytes → Bytes → Option Bytes → List Frame
presence tag value_tag none = (tag, codes "0") ∷ []
presence tag value_tag (some v) = (tag, codes "1") ∷ (value_tag, v) ∷ []

abbrev pub format_optional : Option Bool → Option Bytes
format_optional none = none
format_optional (some b) = some (format_bool b)

module _ (sha256 : Bytes → Bytes) where
  -- The frames of a block behind its "kind".
  unfoldable pub fields : BlockKind → List Frame
  unfolding presence
  fields (BlockKind.text (some t)) =
      (codes "text", t.text)
      ∷ (codes "sig", t.signature)
      ∷ (codes "pmeta", t.part_metadata_json)
      ∷ []
  fields (BlockKind.thinking (some t)) =
      (codes "text", t.text)
      ∷ (codes "sig", t.signature)
      ∷ (codes "pmeta", t.part_metadata_json)
      ∷ []
  fields (BlockKind.redacted_thinking (some r)) = (codes "data", r.redacted) ∷ []
  fields (BlockKind.tool_use (some u)) =
      (codes "id", u.id)
      ∷ (codes "name", u.name)
      ∷ (codes "args", u.arguments_json)
      ∷ (codes "sig", u.signature)
      ∷ (codes "pmeta", u.part_metadata_json)
      ∷ (codes "ikind", format_invocation u.invocation_kind)
      ∷ presence (codes "input-present") (codes "input") u.input_text
  fields (BlockKind.tool_result (some r)) =
      (codes "tcid", r.tool_call_id)
      ∷ (codes "tname", r.tool_name)
      ∷ (codes "pmeta", r.part_metadata_json)
      ∷ (presence (codes "wc") (codes "wcval") (format_optional r.will_continue)
          ++ (presence (codes "sched") (codes "schedval") r.scheduling
              ++ (presence (codes "iserr") (codes "iserrval") (format_optional r.is_error)
                  ++ ((codes "trsig", r.signature)
                      ∷ (codes "ikind", format_invocation r.invocation_kind)
                      ∷ (codes "nested", sha256 (content_preimage r.content))
                      ∷ []))))
  fields (BlockKind.cache_breakpoint (some c)) = (codes "marker", c.marker_json) ∷ []
  fields (BlockKind.unknown (some u)) =
      (codes "kind", u.kind)
      ∷ (codes "payload", u.payload_json)
      ∷ (codes "pmeta", u.part_metadata_json)
      ∷ (codes "usig", u.signature)
      ∷ []
  fields (BlockKind.trailing_signature (some t)) =
      (codes "sig", t.signature) ∷ (codes "pmeta", t.part_metadata_json) ∷ []
  fields (BlockKind.refusal (some r)) = (codes "refusal", r.refusal) ∷ []
  fields _ = []

  unfoldable pub block_frames : ℕ → List (Option RequestBlock) → List Frame
  unfolding fields kind_name
  block_frames i [] = []
  block_frames i (none ∷ bs) = []
  block_frames i (some b ∷ bs) =
      (codes "block", itoa i)
      ∷ (codes "kind", kind_name b.kind)
      ∷ (fields b.kind ++ block_frames (suc i) bs)

  -- `RequestBlocksFingerprint`
  unfoldable pub request_blocks_fingerprint : Option Message → Result FingerprintError Bytes
  unfolding check_blocks block_frames
  request_blocks_fingerprint none = err nil_message
  request_blocks_fingerprint (some m) =
      check_blocks m.blocks
      >> ok (hex_encode (sha256 (hashed ((codes "role", m.role) ∷ block_frames 0 m.blocks))))
