-- ===== src/StreamAssembly/Feed.antt =====
-- `StreamAssembler.Feed` with its result types, and `EmitAssembledToolCall`.
use torana_plugin_sdk.Prelude.{
  ℕ, Bool, true, false, Bytes, List, [], ◌∷◌, Option, none, some, Result, Check, ok, err, is_empty,
  bytes_eq, if◌then◌else◌,
}
use torana_plugin_sdk.Proto.Request.{InvocationKind, freeform}
use torana_plugin_sdk.Proto.Envelope.{holds, ToolCallRef, ToolCallDelta, StartBlock, StreamEvent}
use torana_plugin_sdk.Envelope.Stream.{EventError, validate_event}
use torana_plugin_sdk.StreamAssembly.MetaStore.{Meta, AppendError, meta_append}
use torana_plugin_sdk.StreamAssembly.Frames.{FrameError, encode_header, decode_frame}

-- `ToolCall` of stream.go
pub record AssembledCall : Type 0 where
  pub index : ℕ
  pub id : Bytes
  pub name : Bytes
  pub signature : Bytes
  pub arguments : Bytes
  pub input_text : Option Bytes
  pub invocation_kind : InvocationKind
  pub ref : Option ToolCallRef

pub data FeedError (E : Type 0) : Type 0 where
  nil_event : FeedError E
  invalid_event : EventError → FeedError E
  marshal_failed : E → FeedError E
  append_failed : AppendError → FeedError E
  frame_corrupt : FrameError E → FeedError E

pub record FeedResult (E : Type 0) : Type 0 where
  pub emit : List StreamEvent
  pub suppress : Bool
  pub complete : Option AssembledCall
  pub failure : Option (FeedError E)

module _ {E : Type 0} where
  abbrev pub emits : StreamEvent → FeedResult E
  emits ev = record { emit = ev ∷ []; suppress = false; complete = none; failure = none }

  abbrev pub suppressed : FeedResult E
  suppressed = record { emit = []; suppress = true; complete = none; failure = none }

  abbrev pub failed : FeedError E → FeedResult E
  failed e = record { emit = []; suppress = false; complete = none; failure = some e }

  abbrev pub completes : AssembledCall → FeedResult E
  completes c = record { emit = []; suppress = true; complete = some c; failure = none }

-- `input := args; call.InputText = &input`, or `call.Arguments = args`
unfoldable pub call_arguments : InvocationKind → Bytes → Bytes
call_arguments freeform args = []
call_arguments _ args = args

unfoldable pub call_input : InvocationKind → Bytes → Option Bytes
call_input freeform args = some args
call_input _ args = none

unfoldable pub assembled : ℕ → ToolCallRef → Bytes → AssembledCall
assembled i ref args = record {
  index = i;
  id = ref.id;
  name = ref.name;
  signature = ref.signature;
  arguments = call_arguments ref.invocation_kind args;
  input_text = call_input ref.invocation_kind args;
  invocation_kind = ref.invocation_kind;
  ref = some ref;
}

abbrev pub fragment_of : ToolCallDelta → Bytes
fragment_of d = elim d.input_text_delta [ none ↦ d.arguments_delta | some t ↦ t ]

module _ {E : Type 0} (marshal : ToolCallRef → Result E Bytes)
    (unmarshal : Bytes → Result E ToolCallRef) where
  -- `if _, err := MetaAppend(…); err != nil`, then the fragment's event is suppressed
  after_append : Meta × Result AppendError Bytes → Meta × FeedResult E
  after_append (m, ok v) = (m, suppressed)
  after_append (m, err e) = (m, failed (append_failed e))

  feed_header : ℕ → Meta → Result E Bytes → Meta × FeedResult E
  unfolding after_append
  feed_header i m (ok frame) = after_append (meta_append i frame m)
  feed_header i m (err e) = (m, failed (marshal_failed e))

  -- The case of a ContentBlockStart.
  unfoldable pub feed_start : StreamEvent → ℕ → StartBlock → Meta → Meta × FeedResult E
  unfolding feed_header after_append
  feed_start ev i (StartBlock.tool_call (holds ref)) m = feed_header i m (encode_header marshal ref)
  feed_start ev i _ m = (m, emits ev)

  -- The case of a ToolCallDelta.
  unfoldable pub feed_delta : ToolCallDelta → Meta → Meta × FeedResult E
  unfolding after_append
  feed_delta d m =
      if is_empty (fragment_of d)
      then (m, suppressed)
      else after_append (meta_append d.index (fragment_of d) m)

  -- A frame that does not decode is corrupt.
  unfoldable pub decoded : ℕ → Result (FrameError E) (ToolCallRef × Bytes) → FeedResult E
  decoded i (ok (ref, args)) = completes (assembled i ref args)
  decoded i (err e) = failed (frame_corrupt e)

  read_buffer : StreamEvent → ℕ → Meta × Result AppendError Bytes → Meta × FeedResult E
  unfolding decoded
  read_buffer ev i (m, err e) = (m, failed (append_failed e))
  read_buffer ev i (m, ok buf) =
      (m, if is_empty buf then emits ev else decoded i (decode_frame unmarshal buf))

  -- The case of a ContentBlockStop.
  unfoldable pub feed_stop : StreamEvent → ℕ → Meta → Meta × FeedResult E
  unfolding read_buffer decoded
  feed_stop ev i m = read_buffer ev i (meta_append i [] m)

  -- The switch on `ev.Event`.
  unfoldable pub feed_event : StreamEvent → Meta → Meta × FeedResult E
  feed_event (StreamEvent.content_block_start (holds s)) m =
      feed_start (StreamEvent.content_block_start (holds s)) s.index s.block m
  feed_event (StreamEvent.tool_call_delta (holds d)) m = feed_delta d m
  feed_event (StreamEvent.content_block_stop (holds s)) m =
      feed_stop (StreamEvent.content_block_stop (holds s)) s.index m
  feed_event ev m = (m, emits ev)

  unfoldable pub feed_checked : Bool → StreamEvent → Meta → Check EventError → Meta × FeedResult E
  feed_checked assemble ev m (err e) = (m, failed (invalid_event e))
  feed_checked false ev m (ok _) = (m, emits ev)
  feed_checked true ev m (ok _) = feed_event ev m

  -- `StreamAssembler.Feed`
  unfoldable pub feed : Bool → Option StreamEvent → Meta → Meta × FeedResult E
  unfolding feed_checked
  feed assemble none m = (m, failed nil_event)
  feed assemble (some ev) m = feed_checked assemble ev m (validate_event (some ev))

-- `reemitRef`
unfoldable pub reemit_ref : AssembledCall → Bytes → ToolCallRef
reemit_ref call sig = elim call.ref [
  | none ↦ record {
    id = call.id;
    name = call.name;
    signature = sig;
    invocation_kind = call.invocation_kind;
    unknown_fields = [];
  }
  | some r ↦ record r {
    id = call.id;
    name = call.name;
    signature = sig;
    invocation_kind = call.invocation_kind;
  }
]

-- The payload that the call has: `call.InputText` of a free-form call that has one.
unfoldable pub original_payload : InvocationKind → Option Bytes → Bytes → Bytes
original_payload freeform (some input) arguments = input
original_payload _ input arguments = arguments

unfoldable pub emitted_delta : InvocationKind → ℕ → Bytes → ToolCallDelta
emitted_delta freeform i payload = record {
  index = i;
  arguments_delta = [];
  input_text_delta = some payload;
}
emitted_delta _ i payload = record { index = i; arguments_delta = payload; input_text_delta = none }

-- The signature that goes out: none for a changed payload.
unfoldable pub emitted_signature : AssembledCall → Bytes → Bytes
unfolding original_payload
emitted_signature call payload =
    if bytes_eq payload (original_payload call.invocation_kind call.input_text call.arguments)
    then call.signature
    else []

-- `EmitAssembledToolCall`
unfoldable pub emit_assembled_tool_call : AssembledCall → Bytes → List StreamEvent
unfolding reemit_ref emitted_delta emitted_signature
emit_assembled_tool_call call payload =
    StreamEvent.content_block_start (
      holds (record {
        index = call.index;
        block = StartBlock.tool_call (holds (reemit_ref call (emitted_signature call payload)));
      }))
    ∷ StreamEvent.tool_call_delta (holds (emitted_delta call.invocation_kind call.index payload))
    ∷ StreamEvent.content_block_stop (holds (record { index = call.index }))
    ∷ []
