-- ===== src/RequestValidate/Fields.antt =====
-- The JSON byte fields of a request: `requestJSONFields`, `validateJSONField` and
-- `validateJSONObject`.
use torana_plugin_sdk.Prelude.{
  Bool, true, false, not, Bytes, Option, none, some, Check, ok, err, ◌>>◌, refuse_if, is_empty,
  if◌then◌else◌,
}
use torana_plugin_sdk.GoStd.Json.{JsonKind, object, array, decode_kind, json_valid}
use torana_plugin_sdk.JsonText
use torana_plugin_sdk.JsonText.{JsonError}

pub data Shape : Type 0 where
  object_shape array_shape : Shape

pub record JsonFieldRule : Type 0 where
  pub shape : Shape
  pub required : Bool

-- The keys of `requestJSONFields` that the validator looks up.
pub data JsonField : Type 0 where
  output_format_schema torana_meta provider_extensions safety_settings : JsonField
  tool_use_arguments unknown_payload breakpoint_marker : JsonField
  result_unknown_payload result_breakpoint_marker : JsonField
  tool_def_parameters tool_def_cache_control tool_def_input_format : JsonField
  text_part_metadata thinking_part_metadata tool_use_part_metadata : JsonField
  tool_result_part_metadata unknown_part_metadata trailing_part_metadata : JsonField

abbrev pub optional_object : JsonFieldRule
optional_object = record { shape = object_shape; required = false }

abbrev pub required_object : JsonFieldRule
required_object = record { shape = object_shape; required = true }

unfoldable pub request_json_fields : JsonField → JsonFieldRule
request_json_fields safety_settings = record { shape = array_shape; required = false }
request_json_fields unknown_payload = required_object
request_json_fields breakpoint_marker = required_object
request_json_fields result_unknown_payload = required_object
request_json_fields result_breakpoint_marker = required_object
request_json_fields _ = optional_object

pub data FieldError : Type 0 where
  missing wrong_shape not_json trailing_value : FieldError
  text : JsonError → FieldError

lift_text : Check JsonError → Check FieldError
lift_text (ok tt) = ok tt
lift_text (err e) = err (text e)

-- The type switch on the decoded value.
shape_matches : Shape → Option JsonKind → Check FieldError
shape_matches s none = err not_json
shape_matches object_shape (some object) = ok tt
shape_matches array_shape (some array) = ok tt
shape_matches _ (some _) = err wrong_shape

unfoldable pub validate_json_field : Bytes → JsonFieldRule → Check FieldError
unfolding lift_text shape_matches
validate_json_field raw rule =
    if is_empty raw
    then (if rule.required then err missing else ok tt)
    else (lift_text (JsonText.validate raw) >> shape_matches rule.shape (decode_kind raw))

-- `validateJSONObject` of pb/v1/hostcall_validate.go. Its second `Decode` wants the end of the
-- input behind the object.
unfoldable pub validate_json_object : Bytes → Check FieldError
unfolding lift_text shape_matches
validate_json_object raw =
    lift_text (JsonText.validate raw)
    >> shape_matches object_shape (decode_kind raw)
    >> refuse_if (not (json_valid raw)) trailing_value
