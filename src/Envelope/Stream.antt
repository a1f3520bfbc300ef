-- ===== src/Envelope/Stream.antt =====
-- The `Validate` methods of stream events.
use torana_plugin_sdk.Prelude.{
  ℕ, ◌^◌, Bool, not, ◌&&◌, Bytes, Option, none, some, Check, ok, err, ◌>>◌, refuse_if, is_empty,
  leb,
}
use torana_plugin_sdk.RequestValidate.Blocks.{is_some, known_invocation}
use torana_plugin_sdk.Proto.Envelope.{
  Wrapper, holds, ToolCallRef, ToolCallDelta, ProviderBlock, StartBlock, ContentBlockStart,
  ContentBlockStop, StreamEvent,
}

pub data EventError : Type 0 where
  nil_event no_event nil_arm negative_index : EventError
  no_block_kind nil_block no_tool_call_id no_tool_call_name unknown_invocation_kind : EventError
  no_provider_kind two_fragments : EventError

-- An int32 pattern whose sign bit is set.
abbrev pub is_negative : ℕ → Bool
is_negative n = leb (2 ^ 31) n

-- `ToolCallDelta.Validate`
unfoldable pub validate_tool_call_delta : ToolCallDelta → Check EventError
validate_tool_call_delta d =
    refuse_if (is_negative d.index) negative_index
    >> refuse_if (is_some d.input_text_delta && not (is_empty d.arguments_delta)) two_fragments

unfoldable pub present {ℓ} : {A : Type ℓ} → Wrapper A → EventError → Check EventError
present (holds a) e = ok tt
present _ e = err e

check_tool_call : Wrapper ToolCallRef → Check EventError
check_tool_call (holds c) =
    refuse_if (is_empty c.id) no_tool_call_id
    >> refuse_if (is_empty c.name) no_tool_call_name
    >> refuse_if (not (known_invocation c.invocation_kind)) unknown_invocation_kind
check_tool_call _ = err nil_block

check_provider : Wrapper ProviderBlock → Check EventError
check_provider (holds p) = refuse_if (is_empty p.kind) no_provider_kind
check_provider _ = err nil_block

-- The switch on `x.Block`.
unfoldable pub validate_start_block : StartBlock → Check EventError
unfolding check_tool_call check_provider present
validate_start_block StartBlock.no_block = err no_block_kind
validate_start_block (StartBlock.text w) = present w nil_block
validate_start_block (StartBlock.thinking w) = present w nil_block
validate_start_block (StartBlock.tool_call w) = check_tool_call w
validate_start_block (StartBlock.provider w) = check_provider w

-- `ContentBlockStart.Validate`
unfoldable pub validate_block_start : ContentBlockStart → Check EventError
validate_block_start x =
    refuse_if (is_negative x.index) negative_index >> validate_start_block x.block

-- `ContentBlockStop.Validate`
unfoldable pub validate_block_stop : ContentBlockStop → Check EventError
validate_block_stop x = refuse_if (is_negative x.index) negative_index

scalar_arm : Option Bytes → Check EventError
scalar_arm none = err nil_arm
scalar_arm (some s) = ok tt

-- `StreamEvent.Validate`
unfoldable pub validate_event : Option StreamEvent → Check EventError
unfolding scalar_arm present
validate_event none = err nil_event
validate_event (some StreamEvent.no_event) = err no_event
validate_event (some (StreamEvent.text_delta t)) = scalar_arm t
validate_event (some (StreamEvent.thinking_delta t)) = scalar_arm t
validate_event (some (StreamEvent.signature_delta t)) = scalar_arm t
validate_event (some (StreamEvent.tool_call_delta (holds d))) = validate_tool_call_delta d
validate_event (some (StreamEvent.tool_call_delta _)) = err nil_arm
validate_event (some (StreamEvent.usage w)) = present w nil_arm
validate_event (some (StreamEvent.error w)) = present w nil_arm
validate_event (some (StreamEvent.message_start w)) = present w nil_arm
validate_event (some (StreamEvent.message_stop w)) = present w nil_arm
validate_event (some (StreamEvent.content_block_start (holds s))) = validate_block_start s
validate_event (some (StreamEvent.content_block_start _)) = err nil_arm
validate_event (some (StreamEvent.content_block_stop (holds s))) = validate_block_stop s
validate_event (some (StreamEvent.content_block_stop _)) = err nil_arm
