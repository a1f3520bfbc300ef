-- ===== src/Envelope/Hooks.antt =====
-- The `Validate` and `ValidateFor` methods of hook inputs and results.
use torana_plugin_sdk.Prelude.{
  ℕ, Bool, true, false, not, ◌&&◌, ◌||◌, Bytes, List, [], ◌∷◌, Option, none, some, Check, ok, err,
  ◌>>◌, refuse_if, is_empty, ◌==◌, within, if◌then◌else◌,
}
use torana_plugin_sdk.GoStd.Json.{JsonKind, object, decode_kind, json_valid}
use torana_plugin_sdk.Proto.Envelope.{
  Wrapper, holds, Hook, unspecified, before_request, after_response, on_stream_chunk,
  on_http_request, on_tick, StreamEvent, ToolCall, ResponseKind, ResponseMessage, ChatResponse,
  HttpResponse, TickOutcome, Payload, HookInput, Action, HookResult,
}
use torana_plugin_sdk.RequestValidate.{validate_replacement}
use torana_plugin_sdk.RequestValidate.Fields.{FieldError, validate_json_field, optional_object}
use torana_plugin_sdk.RequestValidate.Blocks.{RequestError}
use torana_plugin_sdk.Envelope.Closed.{Reflected, ClosedError, validate_closed}
use torana_plugin_sdk.Envelope.Stream.{EventError, validate_event, is_negative}

pub data EnvelopeError : Type 0 where
  nil_input unsupported_revision no_payload nil_payload nil_response wrong_payload : EnvelopeError
  nil_result unknown_action nil_action wrong_action no_events : EnvelopeError
  nil_block no_block_kind nil_block_message empty_tool_name : EnvelopeError
  no_arguments arguments_not_json arguments_not_object : EnvelopeError
  nil_http status_out_of_range body_forbidden negative_actions : EnvelopeError
  closed : ClosedError → EnvelopeError
  event : EventError → EnvelopeError
  request : RequestError → EnvelopeError
  meta_json : FieldError → EnvelopeError

-- `fmt.Errorf("…: %w", err)`
abbrev pub wrap {κ} : {E : Type κ} → (E → EnvelopeError) → Check E → Check EnvelopeError
wrap f (ok _) = ok tt
wrap f (err e) = err (f e)

-- `==` on hooks
unfoldable pub hook_eq : Hook → Hook → Bool
hook_eq unspecified unspecified = true
hook_eq before_request before_request = true
hook_eq after_response after_response = true
hook_eq on_stream_chunk on_stream_chunk = true
hook_eq on_http_request on_http_request = true
hook_eq on_tick on_tick = true
hook_eq _ _ = false

-- `httpResponseStatusOK`; an int32 pattern from 2 ^ 31 on is negative
abbrev http_response_status_ok : ℕ → Bool
http_response_status_ok status = within 200 599 status

-- `httpBodyForbidden`
abbrev http_body_forbidden : ℕ → Bool
http_body_forbidden status = status == 204 || status == 205 || status == 304

-- `HttpResponse.Validate`
unfoldable pub validate_http_response : HttpResponse → Check EnvelopeError
validate_http_response x =
    refuse_if (not (http_response_status_ok x.status)) status_out_of_range
    >> refuse_if (http_body_forbidden x.status && not (is_empty x.body)) body_forbidden

-- `TickOutcome.Validate`
unfoldable pub validate_tick_outcome : TickOutcome → Check EnvelopeError
validate_tick_outcome x = refuse_if (is_negative x.actions) negative_actions

-- `HookInput.HookOf`
unfoldable pub input_hook : Payload → Hook
input_hook Payload.no_payload = unspecified
input_hook (Payload.chat_request w) = before_request
input_hook (Payload.after_response_payload w) = after_response
input_hook (Payload.stream_event w) = on_stream_chunk
input_hook (Payload.http_request w) = on_http_request
input_hook (Payload.tick_request w) = on_tick

abbrev is_held {ℓ} : {A : Type ℓ} → Wrapper A → Bool
is_held (holds a) = true
is_held _ = false

-- `HookInput.payloadPresent`
unfoldable pub payload_present : Payload → Bool
payload_present Payload.no_payload = false
payload_present (Payload.chat_request w) = is_held w
payload_present (Payload.after_response_payload w) = is_held w
payload_present (Payload.stream_event w) = is_held w
payload_present (Payload.http_request w) = is_held w
payload_present (Payload.tick_request w) = is_held w

-- `HookResult.HookOf`
unfoldable pub action_hook : Action → Hook
action_hook Action.no_action = unspecified
action_hook (Action.replace_request w) = before_request
action_hook (Action.replace_response w) = after_response
action_hook (Action.emit_events w) = on_stream_chunk
action_hook (Action.suppress w) = on_stream_chunk
action_hook (Action.serve_http w) = on_http_request
action_hook (Action.tick_outcome w) = on_tick

-- `HookResult.actionPresent`
unfoldable pub action_present : Action → Bool
action_present Action.no_action = false
action_present (Action.replace_request w) = is_held w
action_present (Action.replace_response w) = is_held w
action_present (Action.emit_events w) = is_held w
action_present (Action.suppress w) = is_held w
action_present (Action.serve_http w) = is_held w
action_present (Action.tick_outcome w) = is_held w

-- `json.Unmarshal` into an `any`.
unmarshal_kind : (Bytes → Bool) → Bytes → Option JsonKind
unmarshal_kind floats_fit raw = if json_valid raw && floats_fit raw then decode_kind raw else none

check_object : Option JsonKind → Check EnvelopeError
check_object none = err arguments_not_json
check_object (some object) = ok tt
check_object (some _) = err arguments_not_object

module _ (floats_fit : Bytes → Bool) where
  -- `validateToolArgumentsJSON`
  unfoldable pub validate_tool_arguments : Bytes → Check EnvelopeError
  unfolding unmarshal_kind check_object
  validate_tool_arguments raw =
      refuse_if (is_empty raw) no_arguments >> check_object (unmarshal_kind floats_fit raw)

  -- `ToolCall.Validate`
  unfoldable pub validate_tool_call : ToolCall → Check EnvelopeError
  validate_tool_call x =
      refuse_if (is_empty x.name) empty_tool_name >> validate_tool_arguments x.arguments_json

  -- `ResponseBlock.Validate`, behind the nil check of the loop over the blocks
  unfoldable pub validate_response_block : Option ResponseKind → Check EnvelopeError
  validate_response_block none = err nil_block
  validate_response_block (some ResponseKind.no_kind) = err no_block_kind
  validate_response_block (some ResponseKind.typed_nil) = err no_block_kind
  validate_response_block (some (ResponseKind.text none)) = err nil_block_message
  validate_response_block (some (ResponseKind.text (some t))) = ok tt
  validate_response_block (some (ResponseKind.tool_call none)) = err nil_block_message
  validate_response_block (some (ResponseKind.tool_call (some c))) = validate_tool_call c

  -- `ResponseMessage.Validate`
  unfoldable pub validate_response_blocks : List (Option ResponseKind) → Check EnvelopeError
  validate_response_blocks [] = ok tt
  validate_response_blocks (b ∷ bs) = validate_response_block b >> validate_response_blocks bs

  validate_optional_message : Option ResponseMessage → Check EnvelopeError
  validate_optional_message none = ok tt
  validate_optional_message (some m) = validate_response_blocks m.blocks

  -- `ChatResponse.Validate`
  unfoldable pub validate_chat_response : ChatResponse → Check EnvelopeError
  unfolding validate_optional_message
  validate_chat_response x =
      wrap meta_json (validate_json_field x.torana_meta_json optional_object)
      >> validate_optional_message x.message

  -- What `HookInput.Validate` checks of a payload that is present.
  unfoldable pub validate_payload : Payload → Check EnvelopeError
  validate_payload (Payload.after_response_payload (holds a)) = elim a.response [
    | none ↦ err nil_response
    | some r ↦ validate_chat_response r
  ]
  validate_payload (Payload.stream_event (holds e)) = wrap event (validate_event (some e))
  validate_payload (Payload.chat_request (holds r)) = wrap request (validate_replacement (some r))
  validate_payload _ = ok tt

  -- `HookInput.Validate`
  unfoldable pub validate_input : (HookInput → Reflected) → Option HookInput → Check EnvelopeError
  validate_input reflect none = err nil_input
  validate_input reflect (some x) =
      refuse_if (not (x.contract_revision == 1)) unsupported_revision
      >> wrap closed (validate_closed (reflect x))
      >> refuse_if (hook_eq (input_hook x.payload) unspecified) no_payload
      >> refuse_if (not (payload_present x.payload)) nil_payload
      >> validate_payload x.payload

  -- `HookInput.ValidateFor`
  unfoldable pub validate_input_for :
      (HookInput → Reflected) → Hook → HookInput → Check EnvelopeError
  validate_input_for reflect hook x =
      validate_input reflect (some x)
      >> refuse_if (not (hook_eq (input_hook x.payload) hook)) wrong_payload

  -- The loop over the events that a result emits.
  unfoldable pub validate_events : List (Option StreamEvent) → Check EnvelopeError
  validate_events [] = ok tt
  validate_events (e ∷ es) = wrap event (validate_event e) >> validate_events es

  -- What `HookResult.ValidateFor` checks of an action that is present.
  unfoldable pub validate_action : Action → Check EnvelopeError
  validate_action (Action.emit_events (holds es)) =
      refuse_if (is_empty es) no_events >> validate_events es
  validate_action (Action.serve_http (holds h)) = validate_http_response h
  validate_action (Action.tick_outcome (holds t)) = validate_tick_outcome t
  validate_action (Action.replace_response (holds r)) = validate_chat_response r
  validate_action (Action.replace_request (holds r)) = wrap request (validate_replacement (some r))
  validate_action _ = ok tt

  -- `x.Action == nil`
  unfoldable pub is_no_action : Action → Bool
  is_no_action Action.no_action = true
  is_no_action _ = false

  -- `HookResult.ValidateFor`
  unfoldable pub validate_result_for : Hook → Option HookResult → Check EnvelopeError
  validate_result_for hook none = err nil_result
  validate_result_for hook (some x) =
      refuse_if (not (is_empty x.unknown_fields)) unknown_action
      >> (if is_no_action x.action
          then ok tt
          else refuse_if (not (action_present x.action)) nil_action
            >> refuse_if (not (hook_eq (action_hook x.action) hook)) wrong_action
            >> validate_action x.action)
