-- ===== src/Examples/Streams.antt =====
-- The theorems on stream.go at a call that is streamed in two fragments.
use torana_plugin_sdk.Prelude.{
  true, Bytes, [], ◌∷◌, none, some, ◌≡◌, ◌≢◌, refl, Result, ok, codes, arith,
}
use torana_plugin_sdk.Proto.Envelope.{holds, ToolCallRef, ToolCallDelta, StreamEvent}
use torana_plugin_sdk.Envelope.Stream.{validate_event}
use torana_plugin_sdk.Samples.{call_ref, marshal_ref, unmarshal_ref, fragments}
use torana_plugin_sdk.RequestValidate.Blocks.{known_invocation}
use torana_plugin_sdk.Envelope.Stream.{
  validate_block_start, validate_start_block, validate_tool_call_delta,
}
use torana_plugin_sdk.StreamAssembly.MetaStore.{find}
use torana_plugin_sdk.StreamAssembly.Feed.{AssembledCall, assembled, feed, emit_assembled_tool_call}
use torana_plugin_sdk.StreamAssembly.Assembly.{buffer, adds, added, feed_all}
use torana_plugin_sdk.StreamAssembly.Handler.{
  Handler, ToolCallAction, pass_tool_call, emit_events, handle,
}
use torana_plugin_sdk.StreamAssembly.Completion.{
  start_event, stop_event, IsCompletion, IsCallOf, IsDeltaOf, assembled-IsCallOf,
}
use torana_plugin_sdk.StreamAssembly.Calls.{stop-completes, handle_pass}
use torana_plugin_sdk.StreamAssembly.Reemit.{emit_assembled_reassembles}

call_arguments_in_full : added marshal_ref 3 fragments ≡ codes "{\"a\":1}"
unfolding added adds validate_event validate_tool_call_delta
call_arguments_in_full = refl

start-valid : validate_event (some (start_event 3 call_ref)) ≡ ok tt
unfolding validate_event validate_block_start validate_start_block known_invocation
start-valid = refl

ref-marshals : marshal_ref call_ref ≡ ok (codes "c7")
unfolding marshal_ref
ref-marshals = refl

ref-unmarshals : unmarshal_ref (codes "c7") ≡ ok call_ref
unfolding unmarshal_ref
ref-unmarshals = refl

no_buffer : buffer 3 [] ≡ []
unfolding find
no_buffer = refl

stop-completes_example :
    IsCompletion 3 call_ref
      (added marshal_ref 3 fragments)
      (feed marshal_ref unmarshal_ref true
        (some (stop_event 3))
        (feed_all marshal_ref unmarshal_ref (start_event 3 call_ref ∷ fragments) [])).1
stop-completes_example =
    stop-completes marshal_ref unmarshal_ref 3 call_ref (codes "c7") fragments [] start-valid
      no_buffer ref-marshals ref-unmarshals (omega arith)

pass_all : AssembledCall → Result Bytes (ToolCallAction Bytes)
pass_all call = ok pass_tool_call

passing : Handler Bytes
passing = record { on_tool_call = some pass_all; on_text = none }

has_callback : passing.on_tool_call ≡ some pass_all
unfolding passing
has_callback = refl

passes :
    (call : AssembledCall)
    → IsCallOf 3 call_ref (added marshal_ref 3 fragments) call
    → pass_all call ≡ ok pass_tool_call
unfolding pass_all
passes call is_call = refl

handle_pass_example :
    (delta : ToolCallDelta) × IsDeltaOf 3 call_ref.invocation_kind
      (added marshal_ref 3 fragments)
      delta
    × ((handle marshal_ref unmarshal_ref passing
          (some (stop_event 3))
          (feed_all marshal_ref unmarshal_ref (start_event 3 call_ref ∷ fragments) [])).1
        ≡ ok (
            emit_events (
              start_event 3 call_ref
              ∷ StreamEvent.tool_call_delta (holds delta)
              ∷ stop_event 3
              ∷ [])))
handle_pass_example =
    handle_pass marshal_ref unmarshal_ref passing pass_all 3 call_ref (codes "c7") fragments []
      has_callback passes start-valid no_buffer ref-marshals ref-unmarshals (omega arith)

-- The signature of the sample is not empty, and `unmarshal_plain` reads a ToolCallRef without one.
abbrev plain_ref : ToolCallRef
plain_ref = record call_ref { signature = [] }

unmarshal_plain : Bytes → Result Bytes ToolCallRef
unmarshal_plain raw = ok (record plain_ref { id = raw })

plain-marshals : marshal_ref plain_ref ≡ ok (codes "c7")
unfolding marshal_ref
plain-marshals = refl

plain-unmarshals : unmarshal_plain (codes "c7") ≡ ok plain_ref
unfolding unmarshal_plain
plain-unmarshals = refl

plain-valid : validate_event (some (start_event 3 plain_ref)) ≡ ok tt
unfolding validate_event validate_block_start validate_start_block known_invocation
plain-valid = refl

emptied_differs : [] ≢ codes "{}"
emptied_differs h = cc h

emit_assembled_reassembles_example :
    (delta : ToolCallDelta) × IsDeltaOf 3 call_ref.invocation_kind [] delta
    × (emit_assembled_tool_call (assembled 3 call_ref (codes "{}")) []
        ≡ start_event 3 plain_ref ∷ StreamEvent.tool_call_delta (holds delta) ∷ stop_event 3 ∷ [])
    × IsCompletion 3 plain_ref []
        (feed marshal_ref unmarshal_plain true (some (stop_event 3)) (
          feed_all marshal_ref unmarshal_plain
            (start_event 3 plain_ref ∷ StreamEvent.tool_call_delta (holds delta) ∷ [])
            [])).1
emit_assembled_reassembles_example =
    emit_assembled_reassembles marshal_ref unmarshal_plain 3 call_ref (codes "{}") [] []
      (codes "c7") (assembled 3 call_ref (codes "{}")) []
      (assembled-IsCallOf 3 call_ref (codes "{}")) (λ h. absurd (emptied_differs h)) (λ h. refl)
      plain-valid no_buffer plain-marshals plain-unmarshals (omega arith)
