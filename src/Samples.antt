-- ===== src/Samples.antt =====
-- Requests and hook envelopes that the runs and examples use.
pub mod Open
use torana_plugin_sdk.Prelude.{
  ℕ, zero, suc, Bool, true, false, Bytes, List, [], ◌∷◌, Option, none, some, codes, Result, ok, err,
  ◌++◌,
}
use torana_plugin_sdk.Proto.Request.{
  function, freeform, TextBlock, ToolUseBlock, ToolResultBlock, CacheBreakpoint,
  TrailingSignatureBlock, ContentKind, ContentBlock, TextContent, BlockKind, RequestBlock, Message,
  ToolDef, ChatRequest,
}
use torana_plugin_sdk.Proto.Envelope.{
  Wrapper, holds, ToolCallRef, ToolCallDelta, StartBlock, ContentBlockStart, StreamEvent,
  ContentBlockStop, Payload, HookInput, Action, HookResult, Opaque,
}
use torana_plugin_sdk.Envelope.Closed.{Reflected, message, last, child}

abbrev pub block : BlockKind → Option RequestBlock
block k = some (record { kind = k; unknown_fields = [] })

abbrev pub text_block : Bytes → Option RequestBlock
text_block t = block (
    BlockKind.text
      (some (record { text = t; signature = []; part_metadata_json = []; unknown_fields = [] })))

abbrev pub breakpoint : Bytes → CacheBreakpoint
breakpoint marker = record { marker_json = marker; unknown_fields = [] }

abbrev pub marker_block : Bytes → Option RequestBlock
marker_block marker = block (BlockKind.cache_breakpoint (some (breakpoint marker)))

abbrev pub signed : TrailingSignatureBlock
signed = record { signature = codes "sig"; part_metadata_json = []; unknown_fields = [] }

abbrev pub signed_block : RequestBlock
signed_block = record { kind = BlockKind.trailing_signature (some signed); unknown_fields = [] }

abbrev pub result_block : Bytes → Option RequestBlock
result_block marker = block (
    BlockKind.tool_result (
      some (record {
        tool_call_id = codes "c1";
        tool_name = codes "ls";
        content =
            some (record {
              kind = ContentKind.text (some (record { text = codes "ok"; unknown_fields = [] }));
              unknown_fields = [];
            })
            ∷ some (record {
              kind = ContentKind.cache_breakpoint (some (breakpoint marker));
              unknown_fields = [];
            })
            ∷ [];
        part_metadata_json = [];
        will_continue = none;
        scheduling = none;
        signature = codes "s1";
        invocation_kind = function;
        is_error = none;
        unknown_fields = [];
      })))

abbrev pub message_of : Bytes → List (Option RequestBlock) → Message
message_of r bs = record { role = r; blocks = bs; unknown_fields = [] }

abbrev pub request_of : List (Option Message) → ChatRequest
request_of ms = record {
  model = codes "m";
  messages = ms;
  tools = [];
  stream = true;
  max_tokens = some 7;
  temperature = none;
  top_p = none;
  stop_sequences = [];
  provider_extensions_json = [];
  safety_settings_json = [];
  torana_meta_json = [];
  output_format = none;
  unknown_fields = [];
}

abbrev pub old_marker : Bytes
old_marker = codes "{}"

abbrev pub new_marker : Bytes
new_marker = codes "{\"a\":1}"

-- Its last carrier stands inside the tool result, which has a signature.
abbrev pub marked : ChatRequest
marked = request_of (
    some (
      message_of (codes "user") (
        text_block (codes "hi")
        ∷ marker_block old_marker
        ∷ result_block old_marker
        ∷ text_block []
        ∷ []))
    ∷ [])

abbrev pub answer : Message
answer = message_of (codes "assistant") (text_block (codes "yes") ∷ some signed_block ∷ [])

abbrev pub answers : List (Option Message)
answers = some answer ∷ []

abbrev pub tool_use : ToolUseBlock
tool_use = record {
  id = codes "c1";
  name = codes "ls";
  arguments_json = codes "{}";
  signature = [];
  part_metadata_json = [];
  input_text = none;
  invocation_kind = function;
  unknown_fields = [];
}

abbrev pub stop_three : StreamEvent
stop_three = StreamEvent.content_block_stop (holds (record { index = 3 }))

abbrev pub stream_input : HookInput
stream_input = record {
  contract_revision = 1;
  request_id = 9;
  payload = Payload.stream_event (holds stop_three);
}

abbrev pub stream_result : HookResult
stream_result = record {
  action = Action.emit_events (holds (some stop_three ∷ []));
  unknown_fields = [];
}

-- A view of a message with no unknown fields and one string.
abbrev pub reflected : Reflected
reflected = message [] (codes "id" ∷ []) (child (message [] [] last) last)

-- A codec for the runs: a ToolCallRef of the call "ls" is written as its id.
abbrev pub ref_of : Bytes → ToolCallRef
ref_of id = record {
  id = id;
  name = codes "ls";
  signature = codes "s";
  invocation_kind = function;
  unknown_fields = b'x' ∷ [];
}

unfoldable pub marshal_ref : ToolCallRef → Result Bytes Bytes
marshal_ref r = ok r.id

unfoldable pub unmarshal_ref : Bytes → Result Bytes ToolCallRef
unmarshal_ref raw = ok (ref_of raw)

abbrev pub call_ref : ToolCallRef
call_ref = ref_of (codes "c7")

abbrev pub delta_event : ℕ → Bytes → StreamEvent
delta_event i t =
    StreamEvent.tool_call_delta
      (holds (record { index = i; arguments_delta = t; input_text_delta = none }))

-- Fragments of block 3 with one of block 4 and a text delta between them.
abbrev pub fragments : List StreamEvent
fragments =
    delta_event 3 (codes "{\"a\"")
    ∷ delta_event 4 (codes "[]")
    ∷ StreamEvent.text_delta (some (codes "hi"))
    ∷ delta_event 3 (codes ":1}")
    ∷ []
