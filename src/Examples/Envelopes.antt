-- ===== src/Examples/Envelopes.antt =====
-- The theorems on pb/v1/validate.go at an input and a result of a stream chunk.
use torana_plugin_sdk.Prelude.{Bool, true, Bytes, some, ◌≡◌, ◌↔◌, refl, ok, is_empty}
use torana_plugin_sdk.Samples.{stream_input, stream_result, reflected}
use torana_plugin_sdk.Samples.Open.{run_input}
use torana_plugin_sdk.Proto.Envelope.{on_stream_chunk, HookInput}
use torana_plugin_sdk.Envelope.Closed.{Reflected, validate_closed}
use torana_plugin_sdk.Envelope.Closed.Inside.{Inside, Clean, validate_closed_iff}
use torana_plugin_sdk.Envelope.Hooks.{validate_input_for, validate_result_for}
use torana_plugin_sdk.Envelope.Accepted.{InputFor, ActionFor}
use torana_plugin_sdk.Envelope.Accepted.Inputs.{accepted_input_iff}
use torana_plugin_sdk.Envelope.Accepted.Results.{accepted_result_iff}

-- Every number of these runs fits a float64.
floats_fit : Bytes → Bool
floats_fit raw = true

reflect : HookInput → Reflected
reflect x = reflected

input-accepted : validate_input_for floats_fit reflect on_stream_chunk stream_input ≡ ok tt
unfolding run_input reflect
input-accepted = refl

accepted_input_iff_example :
    (validate_input_for floats_fit reflect on_stream_chunk stream_input ≡ ok tt) ↔ (
      (stream_input.contract_revision ≡ 1)
      × ((m : Reflected) → Inside m (reflect stream_input) → Clean m)
      × InputFor floats_fit on_stream_chunk stream_input.payload)
accepted_input_iff_example = accepted_input_iff floats_fit reflect on_stream_chunk stream_input

accepted_result_iff_example :
    (validate_result_for floats_fit on_stream_chunk (some stream_result) ≡ ok tt) ↔ (
      (is_empty stream_result.unknown_fields ≡ true)
      × ActionFor floats_fit on_stream_chunk stream_result.action)
accepted_result_iff_example = accepted_result_iff floats_fit on_stream_chunk stream_result

validate_closed_iff_example :
    (validate_closed reflected ≡ ok tt) ↔ ((m : Reflected) → Inside m reflected → Clean m)
validate_closed_iff_example = validate_closed_iff reflected
