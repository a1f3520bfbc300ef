-- ===== src/RequestValidate.antt =====
-- pb/v1/request_validate.go and `OutputFormat.Validate` of pb/v1/foundation_validate.go: what a
-- replacement request must satisfy. An error of the model names the rule that was broken; the
-- position that the source's message adds is left out.
pub mod Utf8Walk
pub mod Fields
pub mod Blocks
pub mod Parts
pub mod Grammar
use torana_plugin_sdk.Prelude.{
  ℕ, zero, suc, ◌+◌, ◌/◌, ◌%◌, ◌^◌, Bool, true, false, not, ◌||◌, Bytes, Option, none, some, Check,
  ok, err, ◌>>◌, refuse_if, is_empty, ◌==◌, leb, if◌then◌else◌,
}
use torana_plugin_sdk.Proto.Request.{OutputMode, OutputFormat, ChatRequest}
use Utf8Walk.{strings_utf8}
use Fields.{
  validate_json_object, output_format_schema, provider_extensions, safety_settings, torana_meta,
}
use Blocks.{
  RequestError, check_no_unknown, check_field, is_some, lift_field, nil_request, invalid_utf8,
  max_tokens_not_positive, not_finite, schema_options_forbidden, unknown_output_mode,
  empty_required_name,
}
use Parts.{validate_messages, validate_tools}
use torana_plugin_sdk.GoStd.Utf8.{utf8_valid}

-- The switch of `OutputFormat.Validate`.
check_mode : OutputFormat → OutputMode → Check RequestError
check_mode f OutputMode.json_schema =
    refuse_if (is_empty f.name) empty_required_name
    >> lift_field output_format_schema (validate_json_object f.schema_json)
check_mode f (OutputMode.other n) = err unknown_output_mode
check_mode f _ =
    refuse_if (not (is_empty f.name) || not (is_empty f.schema_json) || is_some f.strict)
      schema_options_forbidden

-- `OutputFormat.Validate`; its `validateClosed` checks unknown fields and the one string.
unfoldable pub validate_output_format : Option OutputFormat → Check RequestError
unfolding check_mode
validate_output_format none = ok tt
validate_output_format (some f) =
    check_no_unknown f.unknown_fields
    >> refuse_if (not (utf8_valid f.name)) invalid_utf8
    >> check_mode f f.mode

-- An int32 that is zero or has its sign bit set.
abbrev pub not_positive : Option ℕ → Bool
not_positive none = false
not_positive (some n) = n == 0 || leb (2 ^ 31) n

-- `!finiteFloat`: the exponent bits of the float64 are all set.
abbrev pub not_finite_float : Option ℕ → Bool
not_finite_float none = false
not_finite_float (some bits) = bits / 2 ^ 52 % 2 ^ 11 == 2047

-- `ChatRequest.ValidateReplacement`
unfoldable pub validate_replacement : Option ChatRequest → Check RequestError
validate_replacement none = err nil_request
validate_replacement (some x) =
    validate_output_format x.output_format
    >> check_no_unknown x.unknown_fields
    >> refuse_if (not (strings_utf8 x)) invalid_utf8
    >> refuse_if (not_positive x.max_tokens) max_tokens_not_positive
    >> refuse_if (not_finite_float x.temperature) not_finite
    >> refuse_if (not_finite_float x.top_p) not_finite
    >> check_field provider_extensions x.provider_extensions_json
    >> check_field safety_settings x.safety_settings_json
    >> check_field torana_meta x.torana_meta_json
    >> validate_messages x.messages
    >> validate_tools x.tools
