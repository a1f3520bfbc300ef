-- ===== src/Proto/Request.antt =====
-- The request messages of pb/v1/torana.pb.go, with the getters of their oneofs.
use torana_plugin_sdk.Prelude.{ℕ, Bool, Bytes, List, Option, none, some}

-- ToolInvocationKind is an int32 enum, open on the wire: `other` is any other number.
pub data InvocationKind : Type 0 where
  function freeform : InvocationKind
  other : ℕ → InvocationKind

pub record TextBlock : Type 0 where
  pub text : Bytes
  pub signature : Bytes
  pub part_metadata_json : Bytes
  pub unknown_fields : Bytes

pub record ThinkingBlock : Type 0 where
  pub text : Bytes
  pub signature : Bytes
  pub part_metadata_json : Bytes
  pub unknown_fields : Bytes

pub record RedactedThinkingBlock : Type 0 where
  pub redacted : Bytes
  pub unknown_fields : Bytes

pub record ToolUseBlock : Type 0 where
  pub id : Bytes
  pub name : Bytes
  pub arguments_json : Bytes
  pub signature : Bytes
  pub part_metadata_json : Bytes
  pub input_text : Option Bytes
  pub invocation_kind : InvocationKind
  pub unknown_fields : Bytes

pub record CacheBreakpoint : Type 0 where
  pub marker_json : Bytes
  pub unknown_fields : Bytes

pub record UnknownContent : Type 0 where
  pub kind : Bytes
  pub payload_json : Bytes
  pub unknown_fields : Bytes

pub record TextContent : Type 0 where
  pub text : Bytes
  pub unknown_fields : Bytes

pub data ContentKind : Type 0 where
  no_arm typed_nil : ContentKind
  text : Option TextContent → ContentKind
  unknown : Option UnknownContent → ContentKind
  cache_breakpoint : Option CacheBreakpoint → ContentKind

pub record ContentBlock : Type 0 where
  pub kind : ContentKind
  pub unknown_fields : Bytes

pub record ToolResultBlock : Type 0 where
  pub tool_call_id : Bytes
  pub tool_name : Bytes
  pub content : List (Option ContentBlock)
  pub part_metadata_json : Bytes
  pub will_continue : Option Bool
  pub scheduling : Option Bytes
  pub signature : Bytes
  pub invocation_kind : InvocationKind
  pub is_error : Option Bool
  pub unknown_fields : Bytes

pub record UnknownBlock : Type 0 where
  pub kind : Bytes
  pub payload_json : Bytes
  pub part_metadata_json : Bytes
  pub signature : Bytes
  pub unknown_fields : Bytes

pub record TrailingSignatureBlock : Type 0 where
  pub signature : Bytes
  pub part_metadata_json : Bytes
  pub unknown_fields : Bytes

pub record RefusalBlock : Type 0 where
  pub refusal : Bytes
  pub unknown_fields : Bytes

pub data BlockKind : Type 0 where
  no_arm typed_nil : BlockKind
  text : Option TextBlock → BlockKind
  thinking : Option ThinkingBlock → BlockKind
  redacted_thinking : Option RedactedThinkingBlock → BlockKind
  tool_use : Option ToolUseBlock → BlockKind
  tool_result : Option ToolResultBlock → BlockKind
  cache_breakpoint : Option CacheBreakpoint → BlockKind
  unknown : Option UnknownBlock → BlockKind
  trailing_signature : Option TrailingSignatureBlock → BlockKind
  refusal : Option RefusalBlock → BlockKind

pub record RequestBlock : Type 0 where
  pub kind : BlockKind
  pub unknown_fields : Bytes

pub record Message : Type 0 where
  pub role : Bytes
  pub blocks : List (Option RequestBlock)
  pub unknown_fields : Bytes

pub record ToolDef : Type 0 where
  pub name : Bytes
  pub description : Bytes
  pub parameters_json : Bytes
  pub strict : Bool
  pub cache_control_json : Bytes
  pub invocation_kind : InvocationKind
  -- nil and empty differ: `none` is the nil slice
  pub input_format_json : Option Bytes
  pub namespace_path : List Bytes
  pub unknown_fields : Bytes

pub data OutputMode : Type 0 where
  text json_object json_schema : OutputMode
  other : ℕ → OutputMode

pub record OutputFormat : Type 0 where
  pub mode : OutputMode
  pub name : Bytes
  pub schema_json : Bytes
  pub strict : Option Bool
  pub unknown_fields : Bytes

pub record ChatRequest : Type 0 where
  pub model : Bytes
  pub messages : List (Option Message)
  pub tools : List (Option ToolDef)
  pub stream : Bool
  -- the int32 as its two's complement pattern, below 2 ^ 32
  pub max_tokens : Option ℕ
  -- the float64 as its IEEE 754 pattern, below 2 ^ 64
  pub temperature : Option ℕ
  pub top_p : Option ℕ
  pub stop_sequences : List Bytes
  pub provider_extensions_json : Bytes
  pub safety_settings_json : Bytes
  pub torana_meta_json : Bytes
  pub output_format : Option OutputFormat
  pub unknown_fields : Bytes

-- The generated getters. On a typed-nil wrapper they would dereference it; the callers run behind
-- a validator that refuses such a block.
unfoldable pub kind_text : BlockKind → Option TextBlock
kind_text (text t) = t
kind_text _ = none

unfoldable pub kind_thinking : BlockKind → Option ThinkingBlock
kind_thinking (thinking t) = t
kind_thinking _ = none

unfoldable pub kind_tool_result : BlockKind → Option ToolResultBlock
kind_tool_result (tool_result t) = t
kind_tool_result _ = none

unfoldable pub kind_cache_breakpoint : BlockKind → Option CacheBreakpoint
kind_cache_breakpoint (cache_breakpoint c) = c
kind_cache_breakpoint _ = none

unfoldable pub kind_trailing_signature : BlockKind → Option TrailingSignatureBlock
kind_trailing_signature (trailing_signature t) = t
kind_trailing_signature _ = none

unfoldable pub content_cache_breakpoint : ContentKind → Option CacheBreakpoint
content_cache_breakpoint (cache_breakpoint c) = c
content_cache_breakpoint _ = none

-- `b.GetX()` accepts a nil receiver.
unfoldable pub get_text : Option RequestBlock → Option TextBlock
unfolding kind_text
get_text none = none
get_text (some b) = kind_text b.kind

unfoldable pub get_tool_result : Option RequestBlock → Option ToolResultBlock
unfolding kind_tool_result
get_tool_result none = none
get_tool_result (some b) = kind_tool_result b.kind

unfoldable pub get_cache_breakpoint : Option RequestBlock → Option CacheBreakpoint
unfolding kind_cache_breakpoint
get_cache_breakpoint none = none
get_cache_breakpoint (some b) = kind_cache_breakpoint b.kind

unfoldable pub get_trailing_signature : Option RequestBlock → Option TrailingSignatureBlock
unfolding kind_trailing_signature
get_trailing_signature none = none
get_trailing_signature (some b) = kind_trailing_signature b.kind

unfoldable pub get_content_breakpoint : Option ContentBlock → Option CacheBreakpoint
unfolding content_cache_breakpoint
get_content_breakpoint none = none
get_content_breakpoint (some c) = content_cache_breakpoint c.kind
