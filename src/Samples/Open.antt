-- ===== src/Samples/Open.antt =====
-- The validators with all their parts open, for the runs at fixed inputs.
use torana_plugin_sdk.Prelude.{Bool, Option, Bytes, Check, bytes_eq}
use torana_plugin_sdk.Proto.Request.{
  ChatRequest, get_tool_result, get_cache_breakpoint, get_content_breakpoint,
}
use torana_plugin_sdk.ObservablePrefix.{
  MarkerPos, last_cache_marker, scan_tools, scan_messages, scan_blocks, scan_content,
  is_tool_carrier, is_block_carrier, is_content_carrier, blocks_of, content_of,
}
use torana_plugin_sdk.RequestValidate.{validate_output_format, validate_replacement}
use torana_plugin_sdk.RequestValidate.Blocks.{
  check_no_unknown, check_field, validate_blocks, validate_block, validate_kind, check_invocation,
  known_invocation, lift_field, validate_content, validate_content_kind, validate_contents,
  validate_tool_result, validate_tool_use, validate_trailing_signature, RequestError,
}
use torana_plugin_sdk.RequestValidate.Utf8Walk.{
  strings_utf8, all_utf8, block_kind_utf8, blocks_utf8, content_kind_utf8, contents_utf8,
  format_utf8, messages_utf8, optional_utf8, tools_utf8,
}
use torana_plugin_sdk.RequestValidate.Fields.{
  validate_json_field, request_json_fields, validate_json_object,
}
use torana_plugin_sdk.RequestValidate.Parts.{
  validate_messages, validate_message, check_definition, check_namespace, covers_kind,
  has_covered_block, validate_tool_def, validate_tools,
}
use torana_plugin_sdk.JsonText.{
  validate, skip_ws, value, value_switch, value_start, bracket, closes_at_once, colon,
  decode_string, escape_step, finish, hex_digit, hex_rune, hex_step, literal, low_surrogate,
  member_name, number, number_loop, scalar, seen, separator, simple_escape, string_loop,
  string_step, strip_prefix, unicode_escape, JsonError,
}
use torana_plugin_sdk.GoStd.Json.{decode_kind, json_valid}
use torana_plugin_sdk.GoStd.Utf8.{append_rune, utf8_step, utf8_valid}
use torana_plugin_sdk.Proto.Envelope.{Hook, HookInput, HookResult}
use torana_plugin_sdk.Envelope.Closed.{Reflected, validate_closed}
use torana_plugin_sdk.Envelope.Closed
use torana_plugin_sdk.Envelope.Stream.{validate_event, validate_block_stop}
use torana_plugin_sdk.Envelope.Hooks.{
  EnvelopeError, validate_input_for, validate_input, hook_eq, input_hook, payload_present,
  validate_payload, validate_result_for, is_no_action, action_present, action_hook, validate_action,
  validate_events,
}

-- The scanner of pb/v1/jsontext.
unfoldable pub run_json : Bytes → Check JsonError
unfolding validate skip_ws value value_switch value_start bracket closes_at_once colon decode_string
    escape_step finish hex_digit hex_rune hex_step literal low_surrogate member_name number
    number_loop scalar seen separator simple_escape string_loop string_step strip_prefix
    unicode_escape decode_kind json_valid append_rune utf8_step utf8_valid bytes_eq
run_json = validate

-- `ValidateReplacement`.
unfoldable pub run_request : Option ChatRequest → Check RequestError
unfolding run_json validate_output_format validate_replacement check_no_unknown check_field
    validate_blocks validate_block validate_kind check_invocation known_invocation lift_field
    validate_content validate_content_kind validate_contents validate_tool_result validate_tool_use
    validate_trailing_signature strings_utf8 all_utf8 block_kind_utf8 blocks_utf8 content_kind_utf8
    contents_utf8 format_utf8 messages_utf8 optional_utf8 tools_utf8 validate_json_field
    request_json_fields validate_json_object validate_messages validate_message check_definition
    check_namespace covers_kind has_covered_block validate_tool_def validate_tools
run_request = validate_replacement

-- `lastCacheMarker`.
unfoldable pub run_scan : ChatRequest → Option MarkerPos
unfolding last_cache_marker scan_tools scan_messages scan_blocks scan_content is_tool_carrier
    is_block_carrier is_content_carrier blocks_of content_of get_tool_result get_cache_breakpoint
    get_content_breakpoint
run_scan = last_cache_marker

-- `HookInput.ValidateFor` and `HookResult.ValidateFor`, for stream events.
unfoldable pub run_input :
    (Bytes → Bool) → (HookInput → Reflected) → Hook → HookInput → Check EnvelopeError
unfolding validate_input_for validate_input validate_closed Closed.strings_utf8 utf8_valid hook_eq
    input_hook payload_present validate_payload validate_event validate_block_stop
run_input = validate_input_for

unfoldable pub run_result : (Bytes → Bool) → Hook → Option HookResult → Check EnvelopeError
unfolding validate_result_for is_no_action action_present hook_eq action_hook validate_action
    validate_events validate_event validate_block_stop
run_result = validate_result_for
