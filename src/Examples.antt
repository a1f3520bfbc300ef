-- ===== src/Examples.antt =====
-- The theorems at concrete inputs, and runs of the model.
mod Streams
mod Manifests
mod Envelopes
mod HostCalls
mod Hosts
mod Fingerprints
mod Frames
mod Replacements
use torana_plugin_sdk.Prelude.{
  ℕ, suc, ◌<◌, Bool, true, false, Bytes, List, [], ◌∷◌, Option, none, some, ◌≡◌, ◌≢◌, ◌↔◌, inl, inr,
  refl, Result, Check, ok, err, codes, is_empty, not, length, get_elem?, All, arith, ◌==◌, ◌||◌,
}
use torana_plugin_sdk.Samples.{
  marked, answer, answers, new_marker, signed, signed_block, stop_three, stream_input,
  stream_result, reflected,
}
use torana_plugin_sdk.Samples.Open.{run_request, run_scan, run_input, run_result}
use torana_plugin_sdk.Proto.Request.{ChatRequest, RequestBlock}
use torana_plugin_sdk.Proto.Envelope.{
  Hook, holds, unspecified, on_stream_chunk, StreamEvent, Action, HookInput,
}
use torana_plugin_sdk.JsonText
use torana_plugin_sdk.JsonText.{fuel_exhausted}
use torana_plugin_sdk.JsonText.Total.{validate-ne-fuel_exhausted}
use torana_plugin_sdk.RequestValidate.{validate_replacement}
use torana_plugin_sdk.RequestValidate.Grammar.{trailing_signature_place}
use torana_plugin_sdk.RequestValidate.Parts.{validate_messages, covers_kind}
use torana_plugin_sdk.RequestValidate.Fields.{missing, validate_json_field, required_object}
use torana_plugin_sdk.ObservablePrefix.{
  cut_at, MarkerPos, nested, last_cache_marker, projection, request_observable_prefix,
}
use torana_plugin_sdk.ObservablePrefix.Carriers.{
  tool_carriers, block_carriers, own_carriers, content_carriers, carriers, last_or,
  last_cache_marker-last_or, message_carriers,
}
use torana_plugin_sdk.ObservablePrefix.Projection.{carriers-projection, projection_idem}
use torana_plugin_sdk.ObservablePrefix.Growth.{
  grown, projection-grown, request_observable_prefix-eq-ok,
}
use torana_plugin_sdk.ObservablePrefix.Replace.{
  refused_marker, put_marker, marker_at, replace_last_cache_breakpoint,
}
use torana_plugin_sdk.ObservablePrefix.Replace.Contract.{replace_changed, replace-unchanged}
use torana_plugin_sdk.ObservablePrefix.Replace.Kept.{put_marker-valid}
use torana_plugin_sdk.Envelope.Closed.{Reflected, validate_closed}
use torana_plugin_sdk.Envelope.Closed.Inside.{Inside, Clean, validate_closed_iff}
use torana_plugin_sdk.Envelope.Stream.{validate_event}
use torana_plugin_sdk.Envelope.Hooks.{
  input_hook, payload_present, validate_payload, validate_input_for, action_hook, action_present,
  validate_action, validate_result_for,
}
use torana_plugin_sdk.Samples.{call_ref, marshal_ref, unmarshal_ref, fragments}
use torana_plugin_sdk.RequestValidate.Blocks.{known_invocation}
use torana_plugin_sdk.Envelope.Stream.{
  validate_block_start, validate_start_block, validate_tool_call_delta,
}
use torana_plugin_sdk.HookBitmap.{
  Bitmap, bit, known_hooks_mask, union, zero_below, bitmap_of, member, check_hook, expected_loop,
  expected_bitmap, compare_bitmaps, validate_manifest_hooks,
}
use torana_plugin_sdk.HookBitmap.Manifest.{manifest_hooks_agree, bitmap_of_accepted}

marked-valid : validate_replacement (some marked) ≡ ok tt
unfolding run_request
marked-valid = refl

marker-valid : validate_json_field new_marker required_object ≡ ok tt
unfolding run_request
marker-valid = refl

last_nested : last_cache_marker marked ≡ some (nested 0 2 1)
unfolding run_scan
last_nested = refl

-- The marker of the tool result is set and the signature of the result is cleared.
changed : ChatRequest
changed = put_marker (nested 0 2 1) new_marker marked

replaces : replace_last_cache_breakpoint marked new_marker ≡ (changed, ok true)
unfolding changed replace_last_cache_breakpoint run_request run_scan marker_at
replaces = refl

replace_changed_example :
    (carriers changed ≡ carriers marked)
    × ((p : MarkerPos) × (last_cache_marker changed ≡ some p)
        × (last_cache_marker marked ≡ some p)
        × (marker_at p changed ≡ new_marker))
    × (validate_replacement (some changed) ≡ ok tt)
    × (replace_last_cache_breakpoint changed new_marker ≡ (changed, ok false))
replace_changed_example = replace_changed marked new_marker changed replaces

refused : (replace_last_cache_breakpoint marked []).1 ≡ err (refused_marker missing)
unfolding replace_last_cache_breakpoint run_request run_scan
refused = refl

replace-unchanged_example : (replace_last_cache_breakpoint marked []).0 ≡ marked
replace-unchanged_example = replace-unchanged marked [] (inl (refused_marker missing, refused))

put_marker-valid_example :
    validate_replacement (some (put_marker (nested 0 2 1) new_marker marked)) ≡ ok tt
put_marker-valid_example =
    put_marker-valid new_marker marker-valid (nested 0 2 1) marked marked-valid

last_cache_marker-last_or_example : last_cache_marker marked ≡ last_or none (carriers marked)
last_cache_marker-last_or_example = last_cache_marker-last_or marked

carriers-projection_example : carriers (projection marked) ≡ carriers marked
carriers-projection_example = carriers-projection marked

projection_idem_example : projection (projection marked) ≡ projection marked
projection_idem_example = projection_idem marked

answers-free : message_carriers (length marked.messages) answers ≡ []
unfolding message_carriers block_carriers own_carriers content_carriers run_scan
answers-free = refl

marked-carries : carriers marked ≢ []
unfolding carriers message_carriers block_carriers own_carriers content_carriers tool_carriers
    run_scan
marked-carries h = cc h

projection-grown_example : projection (grown marked answers) ≡ projection marked
projection-grown_example = projection-grown marked answers answers-free marked-carries

-- A serialization for the runs: the model's name.
marshal_model : ChatRequest → Result Bytes Bytes
marshal_model x = ok x.model

prefix : request_observable_prefix marshal_model marked ≡ ok (codes "m", true)
unfolding request_observable_prefix marshal_model run_request run_scan projection cut_at
prefix = refl

request_observable_prefix-eq-ok_example :
    (validate_replacement (some marked) ≡ ok tt)
    × (marshal_model (projection marked) ≡ ok (codes "m"))
    × (true ≡ not (is_empty (carriers marked)))
request_observable_prefix-eq-ok_example =
    request_observable_prefix-eq-ok marshal_model marked (codes "m") true prefix

validate-ne-fuel_exhausted_example : JsonText.validate (codes "{\"a\":[1]}") ≢ err fuel_exhausted
validate-ne-fuel_exhausted_example = validate-ne-fuel_exhausted (codes "{\"a\":[1]}")

answers-valid : validate_messages answers ≡ ok tt
unfolding run_request
answers-valid = refl

trailing_signature_place_example :
    (suc 1 ≡ length answer.blocks)
    × (answer.role ≡ codes "assistant")
    × (is_empty signed.signature ≡ false)
    × ((j : ℕ) × (j < 1)
        × (c : RequestBlock) × (get_elem? answer.blocks j ≡ some (some c))
        × (covers_kind c.kind ≡ true))
trailing_signature_place_example =
    trailing_signature_place answers 0 answer 1 signed_block signed answers-valid refl refl refl
