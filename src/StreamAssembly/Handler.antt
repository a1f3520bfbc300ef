-- ===== src/StreamAssembly/Handler.antt =====
-- `StreamHandler.Handle` with the actions of its callbacks. A registered tool callback turns the
-- assembly on (`OnToolCall`).
use torana_plugin_sdk.Prelude.{
  Bool, true, false, not, Bytes, List, [], ◌∷◌, Option, none, some, Result, ok, err, ◌==◌,
  if◌then◌else◌,
}
use torana_plugin_sdk.Proto.Request.{InvocationKind, function, freeform, other}
use torana_plugin_sdk.GoStd.Json.{json_valid}
use torana_plugin_sdk.Proto.Envelope.{ToolCallRef, StreamEvent}
use torana_plugin_sdk.RequestValidate.Blocks.{is_some}
use torana_plugin_sdk.StreamAssembly.MetaStore.{Meta}
use torana_plugin_sdk.StreamAssembly.Feed.{
  AssembledCall, FeedResult, FeedError, feed, emit_assembled_tool_call, original_payload,
}

-- `ToolCallAction`; its `pass` is never read
pub record ToolCallAction (C : Type 0) : Type 0 where
  pub pass : Bool
  pub replace : Bytes
  pub suppress : Bool
  pub failure : Option C
  pub has_replace : Bool
  pub replace_kind : InvocationKind

-- `TextAction`
pub record TextAction : Type 0 where
  pub pass : Bool
  pub replace : Bytes
  pub suppress : Bool
  pub has_replace : Bool

-- `StreamResult`: no frame, a Suppress, or the events to emit.
pub data StreamResult : Type 0 where
  pass_event suppress_event : StreamResult
  emit_events : List StreamEvent → StreamResult

pub data HandleError (E C : Type 0) : Type 0 where
  nil_stream_event nil_dereference replacement_kind : HandleError E C
  feed_failed : FeedError E → HandleError E C
  text_callback tool_callback tool_action : C → HandleError E C

pub record Handler (C : Type 0) : Type 0 where
  pub on_tool_call : Option (AssembledCall → Result C (ToolCallAction C))
  pub on_text : Option (Bytes → Result C TextAction)

-- `PassToolCall`
abbrev pub pass_tool_call : {C : Type 0} → ToolCallAction C
pass_tool_call = record {
  pass = true;
  replace = [];
  suppress = false;
  failure = none;
  has_replace = false;
  replace_kind = function;
}

-- `SuppressToolCall`
abbrev pub suppress_tool_call : {C : Type 0} → ToolCallAction C
suppress_tool_call = record {
  pass = false;
  replace = [];
  suppress = true;
  failure = none;
  has_replace = false;
  replace_kind = function;
}

abbrev pub replace_with : {C : Type 0} → InvocationKind → Bytes → ToolCallAction C
replace_with kind payload = record {
  pass = false;
  replace = payload;
  suppress = false;
  failure = none;
  has_replace = true;
  replace_kind = kind;
}

-- `ReplaceToolInput`
abbrev pub replace_tool_input : {C : Type 0} → Bytes → ToolCallAction C
replace_tool_input input = replace_with freeform input

-- `ReplaceToolArguments`; `invalid` is the error that it makes for bytes that are not JSON
unfoldable pub replace_tool_arguments : {C : Type 0} → C → Bytes → ToolCallAction C
replace_tool_arguments invalid args =
    if json_valid args then replace_with function args else record {
      pass = false;
      replace = [];
      suppress = false;
      failure = some invalid;
      has_replace = false;
      replace_kind = function;
    }

unfoldable pub kind_eq : InvocationKind → InvocationKind → Bool
kind_eq function function = true
kind_eq freeform freeform = true
kind_eq (other m) (other n) = m == n
kind_eq _ _ = false

abbrev pub payload_of : AssembledCall → Bytes
payload_of call = original_payload call.invocation_kind call.input_text call.arguments

-- `Feed` emits nothing, or the inbound event itself.
emitted : List StreamEvent → StreamResult
emitted [] = pass_event
emitted (ev ∷ []) = pass_event
emitted (ev ∷ evs) = emit_events (ev ∷ evs)

module _ {E C : Type 0} where
  apply_text : TextAction → Result (HandleError E C) StreamResult
  apply_text a =
      if a.suppress
      then ok suppress_event
      else if a.has_replace
      then ok (emit_events (StreamEvent.text_delta (some a.replace) ∷ []))
      else ok pass_event

  text_result : Result C TextAction → Result (HandleError E C) StreamResult
  unfolding apply_text
  text_result (err e) = err (text_callback e)
  text_result (ok a) = apply_text a

  unfoldable pub apply_action :
      AssembledCall → ToolCallAction C → Option C → Result (HandleError E C) StreamResult
  apply_action call a (some e) = err (tool_action e)
  apply_action call a none =
      if a.suppress
      then ok suppress_event
      else if not a.has_replace
      then ok (emit_events (emit_assembled_tool_call call (payload_of call)))
      else if not (kind_eq a.replace_kind call.invocation_kind)
      then err replacement_kind
      else ok (emit_events (emit_assembled_tool_call call a.replace))

  action_result :
      AssembledCall → Result C (ToolCallAction C) → Result (HandleError E C) StreamResult
  unfolding apply_action
  action_result call (err e) = err (tool_callback e)
  action_result call (ok a) = apply_action call a a.failure

  -- What becomes of a completed call.
  unfoldable pub finish_call : Handler C → AssembledCall → Result (HandleError E C) StreamResult
  unfolding action_result apply_action
  finish_call h call = elim h.on_tool_call [
    | none ↦ ok (emit_events (emit_assembled_tool_call call (payload_of call)))
    | some f ↦ action_result call (f call)
  ]

  fed :
      Handler C
      → FeedResult E
      → Option (FeedError E)
      → Option AssembledCall
      → Result (HandleError E C) StreamResult
  unfolding emitted finish_call action_result
  fed h fr (some e) complete = err (feed_failed e)
  fed h fr none (some call) = finish_call h call
  fed h fr none none = if fr.suppress then ok suppress_event else ok (emitted fr.emit)

module _ {E C : Type 0} (marshal : ToolCallRef → Result E Bytes)
    (unmarshal : Bytes → Result E ToolCallRef) where
  unfoldable pub handle_fed :
      Handler C → Meta × FeedResult E → Meta × Result (HandleError E C) StreamResult
  unfolding fed emitted
  handle_fed h (m, fr) = (m, fed h fr fr.failure fr.complete)

  handle_event : Handler C → StreamEvent → Meta → Meta × Result (HandleError E C) StreamResult
  handle_event h ev m = handle_fed h (feed marshal unmarshal (is_some h.on_tool_call) (some ev) m)

  handle_text :
      Handler C
      → Option (Bytes → Result C TextAction)
      → Option Bytes
      → Meta
      → Meta × Result (HandleError E C) StreamResult
  unfolding handle_event text_result apply_text
  handle_text h none t m = handle_event h (StreamEvent.text_delta t) m
  handle_text h (some f) none m = (m, err nil_dereference)
  handle_text h (some f) (some t) m = (m, text_result (f t))

  -- `StreamHandler.Handle`
  unfoldable pub handle :
      Handler C → Option StreamEvent → Meta → Meta × Result (HandleError E C) StreamResult
  unfolding handle_text handle_event
  handle h none m = (m, err nil_stream_event)
  handle h (some (StreamEvent.text_delta t)) m = handle_text h h.on_text t m
  handle h (some ev) m = handle_event h ev m
