-- ===== src/Proto/Envelope.antt =====
-- The hook envelopes of pb/v1/torana.pb.go: what the host hands to a guest and what it answers.
use torana_plugin_sdk.Prelude.{ℕ, Bool, Bytes, List, Option}
use torana_plugin_sdk.Proto.Request.{ChatRequest, InvocationKind}

-- A oneof wrapper: the nil pointer, a wrapper whose message is nil, or one that holds a message.
pub data Wrapper {ℓ} (A : Type ℓ) : Type ℓ where
  nil_wrapper nil_message : Wrapper A
  holds : A → Wrapper A

-- A message that the modelled code passes on and never reads.
pub record Opaque : Type 0 where
  pub wire : Bytes

pub data Hook : Type 0 where
  unspecified before_request after_response on_stream_chunk on_http_request on_tick : Hook

pub record ToolCallRef : Type 0 where
  pub id : Bytes
  pub name : Bytes
  pub signature : Bytes
  pub invocation_kind : InvocationKind
  pub unknown_fields : Bytes

-- `index` is an int32 as its two's complement pattern, below 2 ^ 32.
pub record ToolCallDelta : Type 0 where
  pub index : ℕ
  pub arguments_delta : Bytes
  pub input_text_delta : Option Bytes

pub record ProviderBlock : Type 0 where
  pub kind : Bytes

pub data StartBlock : Type 0 where
  no_block : StartBlock
  text : Wrapper Opaque → StartBlock
  thinking : Wrapper Opaque → StartBlock
  tool_call : Wrapper ToolCallRef → StartBlock
  provider : Wrapper ProviderBlock → StartBlock

pub record ContentBlockStart : Type 0 where
  pub index : ℕ
  pub block : StartBlock

pub record ContentBlockStop : Type 0 where
  pub index : ℕ

-- A scalar arm has a wrapper that may be nil and no message: its `nil_message` does not occur.
pub data StreamEvent : Type 0 where
  no_event : StreamEvent
  text_delta : Option Bytes → StreamEvent
  thinking_delta : Option Bytes → StreamEvent
  signature_delta : Option Bytes → StreamEvent
  tool_call_delta : Wrapper ToolCallDelta → StreamEvent
  usage : Wrapper Opaque → StreamEvent
  error : Wrapper Opaque → StreamEvent
  message_start : Wrapper Opaque → StreamEvent
  message_stop : Wrapper Opaque → StreamEvent
  content_block_start : Wrapper ContentBlockStart → StreamEvent
  content_block_stop : Wrapper ContentBlockStop → StreamEvent

pub record ToolCall : Type 0 where
  pub id : Bytes
  pub name : Bytes
  pub arguments_json : Bytes
  pub signature : Bytes

pub data ResponseKind : Type 0 where
  no_kind typed_nil : ResponseKind
  text : Option Opaque → ResponseKind
  tool_call : Option ToolCall → ResponseKind

pub record ResponseMessage : Type 0 where
  pub blocks : List (Option ResponseKind)

pub record ChatResponse : Type 0 where
  pub message : Option ResponseMessage
  pub torana_meta_json : Bytes
  pub rest : Opaque

pub record AfterResponse : Type 0 where
  pub response : Option ChatResponse
  pub mutable : Bool

-- `status` and `actions` are int32 patterns, below 2 ^ 32.
pub record HttpResponse : Type 0 where
  pub status : ℕ
  pub body : Bytes

pub record TickOutcome : Type 0 where
  pub actions : ℕ
  pub note : Bytes

pub data Payload : Type 0 where
  no_payload : Payload
  chat_request : Wrapper ChatRequest → Payload
  after_response_payload : Wrapper AfterResponse → Payload
  stream_event : Wrapper StreamEvent → Payload
  http_request : Wrapper Opaque → Payload
  tick_request : Wrapper Opaque → Payload

pub record HookInput : Type 0 where
  pub contract_revision : ℕ
  pub request_id : ℕ
  pub payload : Payload

pub data Action : Type 0 where
  no_action : Action
  replace_request : Wrapper ChatRequest → Action
  replace_response : Wrapper ChatResponse → Action
  emit_events : Wrapper (List (Option StreamEvent)) → Action
  serve_http : Wrapper HttpResponse → Action
  tick_outcome : Wrapper TickOutcome → Action
  suppress : Wrapper Opaque → Action

pub record HookResult : Type 0 where
  pub action : Action
  pub unknown_fields : Bytes
