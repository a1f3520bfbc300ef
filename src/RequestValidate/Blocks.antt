-- ===== src/RequestValidate/Blocks.antt =====
-- The block grammar: `validateMessageReplacement`, `validateRequestBlock`,
-- `validateToolResultContentBlock`, `validateToolDefReplacement`.
use torana_plugin_sdk.Prelude.{
  Bool, true, false, not, Bytes, List, [], ◌∷◌, Option, none, some, Check, ok, err, ◌>>◌, refuse_if,
  is_empty, bytes_eq, codes,
}
use torana_plugin_sdk.Proto.Request.{
  InvocationKind, function, freeform, other, ToolUseBlock, ToolResultBlock, TrailingSignatureBlock,
  ContentKind, ContentBlock, BlockKind, RequestBlock,
}
use torana_plugin_sdk.RequestValidate.Fields.{
  JsonField, FieldError, validate_json_field, request_json_fields, tool_use_arguments,
  unknown_payload, breakpoint_marker, result_unknown_payload, result_breakpoint_marker,
  text_part_metadata, thinking_part_metadata, tool_use_part_metadata, tool_result_part_metadata,
  unknown_part_metadata, trailing_part_metadata,
}

pub data RequestError : Type 0 where
  unknown_protobuf_fields nil_element no_kind_arm typed_nil_arm empty_required_name : RequestError
  empty_role no_blocks unknown_invocation_kind : RequestError
  input_text_forbidden input_text_required arguments_forbidden arguments_required : RequestError
  empty_content not_assistant not_final no_covered_block : RequestError
  parameters_required parameters_forbidden input_format_required input_format_forbidden :
      RequestError
  strict_forbidden empty_namespace_segment : RequestError
  nil_request invalid_utf8 max_tokens_not_positive not_finite : RequestError
  schema_options_forbidden unknown_output_mode : RequestError
  json_field : JsonField → FieldError → RequestError
  -- the run-time panic of a nil pointer
  nil_dereference : RequestError

unfoldable pub check_no_unknown : Bytes → Check RequestError
check_no_unknown bs = refuse_if (not (is_empty bs)) unknown_protobuf_fields

unfoldable pub lift_field : JsonField → Check FieldError → Check RequestError
lift_field f (ok tt) = ok tt
lift_field f (err e) = err (json_field f e)

-- `validateJSONField(raw, what, requestJSONFields[f])`
unfoldable pub check_field : JsonField → Bytes → Check RequestError
unfolding lift_field
check_field f raw = lift_field f (validate_json_field raw (request_json_fields f))

abbrev pub is_some {ℓ} : {A : Type ℓ} → Option A → Bool
is_some none = false
is_some (some a) = true

-- The switch on `tu.InvocationKind`.
unfoldable pub check_invocation : InvocationKind → Option Bytes → Bytes → Check RequestError
check_invocation function input arguments =
    refuse_if (is_some input) input_text_forbidden
    >> refuse_if (is_empty arguments) arguments_required
check_invocation freeform input arguments =
    refuse_if (not (is_empty arguments)) arguments_forbidden
    >> refuse_if (not (is_some input)) input_text_required
check_invocation (other n) input arguments = err unknown_invocation_kind

unfoldable pub known_invocation : InvocationKind → Bool
known_invocation function = true
known_invocation freeform = true
known_invocation (other n) = false

-- The switch on `cb.Kind`. It reads a field of the wrapper that it matched, so a nil wrapper makes
-- it panic.
unfoldable pub validate_content_kind : ContentKind → Check RequestError
unfolding check_no_unknown
validate_content_kind (ContentKind.text none) = err typed_nil_arm
validate_content_kind (ContentKind.text (some t)) = check_no_unknown t.unknown_fields
validate_content_kind (ContentKind.unknown none) = err typed_nil_arm
validate_content_kind (ContentKind.unknown (some u)) =
    check_no_unknown u.unknown_fields
    >> refuse_if (is_empty u.kind) empty_required_name
    >> check_field result_unknown_payload u.payload_json
validate_content_kind (ContentKind.cache_breakpoint none) = err typed_nil_arm
validate_content_kind (ContentKind.cache_breakpoint (some c)) =
    check_no_unknown c.unknown_fields >> check_field result_breakpoint_marker c.marker_json
validate_content_kind ContentKind.typed_nil = err nil_dereference
validate_content_kind ContentKind.no_arm = err no_kind_arm

-- `validateToolResultContentBlock`, behind the nil check of the loop over `tr.Content`
unfoldable pub validate_content : Option ContentBlock → Check RequestError
unfolding check_no_unknown
validate_content none = err nil_element
validate_content (some c) = check_no_unknown c.unknown_fields >> validate_content_kind c.kind

unfoldable pub validate_contents : List (Option ContentBlock) → Check RequestError
validate_contents [] = ok tt
validate_contents (c ∷ cs) = validate_content c >> validate_contents cs

-- What the checks of one block need to know of its message: `bi == blockCount-1`, the role, and
-- `hasCoveredBlock`.
pub record Place : Type 0 where
  pub is_final : Bool
  pub role : Bytes
  pub has_covered_block : Bool

unfoldable pub validate_tool_use : ToolUseBlock → Check RequestError
unfolding check_no_unknown check_invocation
validate_tool_use tu =
    check_no_unknown tu.unknown_fields
    >> refuse_if (is_empty tu.id) empty_required_name
    >> refuse_if (is_empty tu.name) empty_required_name
    >> check_invocation tu.invocation_kind tu.input_text tu.arguments_json
    >> check_field tool_use_arguments tu.arguments_json
    >> check_field tool_use_part_metadata tu.part_metadata_json

unfoldable pub validate_tool_result : ToolResultBlock → Check RequestError
unfolding check_no_unknown known_invocation
validate_tool_result tr =
    check_no_unknown tr.unknown_fields
    >> refuse_if (is_empty tr.tool_call_id) empty_required_name
    >> refuse_if (not (known_invocation tr.invocation_kind)) unknown_invocation_kind
    >> check_field tool_result_part_metadata tr.part_metadata_json
    >> refuse_if (is_empty tr.content) empty_content
    >> validate_contents tr.content

unfoldable pub validate_trailing_signature : Place → TrailingSignatureBlock → Check RequestError
unfolding check_no_unknown
validate_trailing_signature p ts =
    check_no_unknown ts.unknown_fields
    >> refuse_if (is_empty ts.signature) empty_required_name
    >> refuse_if (not (bytes_eq p.role (codes "assistant"))) not_assistant
    >> refuse_if (not p.is_final) not_final
    >> refuse_if (not p.has_covered_block) no_covered_block
    >> check_field trailing_part_metadata ts.part_metadata_json

-- The switch on `b.Kind`, behind `nilOneofArm`.
unfoldable pub validate_kind : Place → BlockKind → Check RequestError
unfolding check_no_unknown
validate_kind p (BlockKind.text (some t)) =
    check_no_unknown t.unknown_fields >> check_field text_part_metadata t.part_metadata_json
validate_kind p (BlockKind.thinking (some t)) =
    check_no_unknown t.unknown_fields >> check_field thinking_part_metadata t.part_metadata_json
validate_kind p (BlockKind.redacted_thinking (some r)) = check_no_unknown r.unknown_fields
validate_kind p (BlockKind.tool_use (some tu)) = validate_tool_use tu
validate_kind p (BlockKind.tool_result (some tr)) = validate_tool_result tr
validate_kind p (BlockKind.cache_breakpoint (some c)) =
    check_no_unknown c.unknown_fields >> check_field breakpoint_marker c.marker_json
validate_kind p (BlockKind.unknown (some u)) =
    check_no_unknown u.unknown_fields
    >> refuse_if (is_empty u.kind) empty_required_name
    >> check_field unknown_payload u.payload_json
    >> check_field unknown_part_metadata u.part_metadata_json
validate_kind p (BlockKind.trailing_signature (some ts)) = validate_trailing_signature p ts
validate_kind p (BlockKind.refusal (some r)) = check_no_unknown r.unknown_fields
validate_kind p BlockKind.no_arm = err no_kind_arm
validate_kind p BlockKind.typed_nil = err typed_nil_arm
validate_kind p _ = err typed_nil_arm

-- `validateRequestBlock`, behind the nil check of the loop over `m.Blocks`
unfoldable pub validate_block : Place → Option RequestBlock → Check RequestError
unfolding check_no_unknown
validate_block p none = err nil_element
validate_block p (some b) = check_no_unknown b.unknown_fields >> validate_kind p b.kind

-- The second loop of `validateMessageReplacement`.
unfoldable pub validate_blocks : Bytes → Bool → List (Option RequestBlock) → Check RequestError
validate_blocks role covered [] = ok tt
validate_blocks role covered (b ∷ bs) =
    validate_block (record { is_final = is_empty bs; role = role; has_covered_block = covered }) b
    >> validate_blocks role covered bs
