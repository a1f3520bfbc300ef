-- ===== src/RequestValidate/Parts.antt =====
-- Messages and tool definitions: `validateMessageReplacement`, `validateToolDefReplacement`.
use torana_plugin_sdk.Prelude.{
  Bool, true, false, not, ◌||◌, Bytes, List, [], ◌∷◌, Option, none, some, Check, ok, err, ◌>>◌,
  refuse_if, is_empty,
}
use torana_plugin_sdk.Proto.Request.{
  InvocationKind, function, freeform, other, BlockKind, RequestBlock, Message, ToolDef,
}
use torana_plugin_sdk.RequestValidate.Fields.{
  tool_def_parameters, tool_def_cache_control, tool_def_input_format,
}
use torana_plugin_sdk.RequestValidate.Blocks.{
  RequestError, check_no_unknown, check_field, is_some, validate_blocks, nil_element, empty_role,
  no_blocks, parameters_required, parameters_forbidden, input_format_required, strict_forbidden,
  input_format_forbidden, unknown_invocation_kind, empty_namespace_segment, empty_required_name,
}

-- `case *RequestBlock_Text` with a message, or `*RequestBlock_Thinking`
unfoldable pub covers_kind : BlockKind → Bool
covers_kind (BlockKind.text (some t)) = true
covers_kind (BlockKind.thinking (some t)) = true
covers_kind _ = false

-- The first loop of `validateMessageReplacement`: a text or thinking block, nil ones skipped.
unfoldable pub has_covered_block : List (Option RequestBlock) → Bool
unfolding covers_kind
has_covered_block [] = false
has_covered_block (none ∷ bs) = has_covered_block bs
has_covered_block (some b ∷ bs) = covers_kind b.kind || has_covered_block bs

-- `validateMessageReplacement`, behind the nil check of the loop over `x.Messages`
unfoldable pub validate_message : Option Message → Check RequestError
unfolding check_no_unknown
validate_message none = err nil_element
validate_message (some m) =
    check_no_unknown m.unknown_fields
    >> refuse_if (is_empty m.role) empty_role
    >> refuse_if (is_empty m.blocks) no_blocks
    >> validate_blocks m.role (has_covered_block m.blocks) m.blocks

unfoldable pub validate_messages : List (Option Message) → Check RequestError
validate_messages [] = ok tt
validate_messages (m ∷ ms) = validate_message m >> validate_messages ms

-- The bytes of a slice that may be nil.
abbrev pub slice_bytes : Option Bytes → Bytes
slice_bytes none = []
slice_bytes (some bs) = bs

-- The switch on `td.InvocationKind`.
unfoldable pub check_definition : ToolDef → InvocationKind → Check RequestError
check_definition td function =
    refuse_if (is_empty td.parameters_json) parameters_required
    >> refuse_if (is_some td.input_format_json) input_format_forbidden
check_definition td freeform =
    refuse_if (not (is_empty td.parameters_json)) parameters_forbidden
    >> refuse_if (is_empty (slice_bytes td.input_format_json)) input_format_required
    >> refuse_if td.strict strict_forbidden
check_definition td (other n) = err unknown_invocation_kind

unfoldable pub check_namespace : List Bytes → Check RequestError
check_namespace [] = ok tt
check_namespace (s ∷ ss) = refuse_if (is_empty s) empty_namespace_segment >> check_namespace ss

-- `validateToolDefReplacement`, behind the nil check of the loop over `x.Tools`
unfoldable pub validate_tool_def : Option ToolDef → Check RequestError
unfolding check_no_unknown check_definition check_namespace
validate_tool_def none = err nil_element
validate_tool_def (some td) =
    check_no_unknown td.unknown_fields
    >> refuse_if (is_empty td.name) empty_required_name
    >> check_definition td td.invocation_kind
    >> check_namespace td.namespace_path
    >> check_field tool_def_parameters td.parameters_json
    >> check_field tool_def_input_format (slice_bytes td.input_format_json)
    >> check_field tool_def_cache_control td.cache_control_json

unfoldable pub validate_tools : List (Option ToolDef) → Check RequestError
validate_tools [] = ok tt
validate_tools (t ∷ ts) = validate_tool_def t >> validate_tools ts
