-- ===== src/ObservablePrefix/Replace.antt =====
-- `ReplaceLastCacheBreakpoint`. The request that the source mutates is returned with the result.
mod Places
mod Laws
mod Valid
pub mod Kept
pub mod Contract
use torana_plugin_sdk.Prelude.{
  ℕ, zero, suc, ◌+◌, Bool, true, false, Bytes, List, [], ◌∷◌, Option, none, some, Result, ok, err,
  get_elem?, bytes_eq, if◌then◌else◌,
}
use torana_plugin_sdk.Proto.Request.{
  CacheBreakpoint, ContentKind, ContentBlock, BlockKind, RequestBlock, ToolResultBlock, Message,
  ToolDef, ChatRequest, get_cache_breakpoint, get_tool_result, get_content_breakpoint,
}
use torana_plugin_sdk.RequestValidate.{validate_replacement}
use torana_plugin_sdk.RequestValidate.Blocks.{RequestError}
use torana_plugin_sdk.RequestValidate.Fields.{FieldError, validate_json_field, required_object}
use torana_plugin_sdk.ObservablePrefix.{
  MarkerPos, tool, top_level, nested, update_at, content_of, blocks_of, last_cache_marker,
}

pub data ReplaceError : Type 0 where
  refused_request : RequestError → ReplaceError
  refused_marker : FieldError → ReplaceError
  no_cache_breakpoint : ReplaceError

-- `xs[i]` of a slice of pointers
unfoldable pub elem_at {ℓ} : {A : Type ℓ} → List (Option A) → ℕ → Option A
elem_at [] i = none
elem_at (x ∷ xs) zero = x
elem_at (x ∷ xs) (suc i) = elem_at xs i

unfoldable pub tool_marker : Option ToolDef → Bytes
tool_marker none = []
tool_marker (some t) = t.cache_control_json

unfoldable pub breakpoint_marker : Option CacheBreakpoint → Bytes
breakpoint_marker none = []
breakpoint_marker (some c) = c.marker_json

-- The existing marker of the carrier at a position.
unfoldable pub marker_at : MarkerPos → ChatRequest → Bytes
unfolding tool_marker breakpoint_marker elem_at
marker_at (tool i) req = tool_marker (elem_at req.tools i)
marker_at (top_level i j) req =
    breakpoint_marker (get_cache_breakpoint (elem_at (blocks_of (elem_at req.messages i)) j))
marker_at (nested i j k) req = breakpoint_marker (
    get_content_breakpoint
      (elem_at (content_of (get_tool_result (elem_at (blocks_of (elem_at req.messages i)) j))) k))

unfoldable pub set_tool_marker : Bytes → Option ToolDef → Option ToolDef
set_tool_marker marker none = none
set_tool_marker marker (some t) = some (record t { cache_control_json = marker })

unfoldable pub set_breakpoint : Bytes → Option CacheBreakpoint → Option CacheBreakpoint
set_breakpoint marker none = none
set_breakpoint marker (some c) = some (record c { marker_json = marker })

unfoldable pub set_kind_marker : Bytes → BlockKind → BlockKind
unfolding set_breakpoint
set_kind_marker marker (BlockKind.cache_breakpoint c) =
    BlockKind.cache_breakpoint (set_breakpoint marker c)
set_kind_marker marker k = k

unfoldable pub set_block_marker : Bytes → Option RequestBlock → Option RequestBlock
unfolding set_kind_marker
set_block_marker marker none = none
set_block_marker marker (some b) = some (record b { kind = set_kind_marker marker b.kind })

unfoldable pub set_content_kind : Bytes → ContentKind → ContentKind
unfolding set_breakpoint
set_content_kind marker (ContentKind.cache_breakpoint c) =
    ContentKind.cache_breakpoint (set_breakpoint marker c)
set_content_kind marker k = k

unfoldable pub set_content_marker : Bytes → Option ContentBlock → Option ContentBlock
unfolding set_content_kind
set_content_marker marker none = none
set_content_marker marker (some c) = some (record c { kind = set_content_kind marker c.kind })

-- A nested marker, and the result signature that covered it, which is cleared.
unfoldable pub set_nested_kind : ℕ → Bytes → BlockKind → BlockKind
unfolding set_content_marker update_at
set_nested_kind k marker (BlockKind.tool_result (some tr)) = BlockKind.tool_result (
    some
      (record tr { content = update_at k (set_content_marker marker) tr.content; signature = [] }))
set_nested_kind k marker kind = kind

unfoldable pub set_nested_marker : ℕ → Bytes → Option RequestBlock → Option RequestBlock
unfolding set_nested_kind
set_nested_marker k marker none = none
set_nested_marker k marker (some b) = some (record b { kind = set_nested_kind k marker b.kind })

unfoldable pub on_blocks :
    (List (Option RequestBlock) → List (Option RequestBlock)) → Option Message → Option Message
on_blocks f none = none
on_blocks f (some m) = some (record m { blocks = f m.blocks })

-- The three assignments of the switch on `last.kind`.
unfoldable pub put_marker : MarkerPos → Bytes → ChatRequest → ChatRequest
unfolding set_tool_marker set_block_marker set_nested_marker on_blocks update_at
put_marker (tool i) marker req = record req {
  tools = update_at i (set_tool_marker marker) req.tools;
}
put_marker (top_level i j) marker req = record req {
  messages = update_at i (on_blocks (update_at j (set_block_marker marker))) req.messages;
}
put_marker (nested i j k) marker req = record req {
  messages = update_at i (on_blocks (update_at j (set_nested_marker k marker))) req.messages;
}

unfoldable pub replace_at :
    Option MarkerPos → ChatRequest → Bytes → ChatRequest × Result ReplaceError Bool
replace_at none req marker = (req, err no_cache_breakpoint)
replace_at (some p) req marker =
    if bytes_eq (marker_at p req) marker
    then (req, ok false)
    else (put_marker p marker req, ok true)

-- `ReplaceLastCacheBreakpoint`
unfoldable pub replace_last_cache_breakpoint :
    ChatRequest → Bytes → ChatRequest × Result ReplaceError Bool
unfolding replace_at
replace_last_cache_breakpoint req marker = elim (validate_replacement (some req)) [
  | err e ↦ (req, err (refused_request e))
  | ok _ ↦ elim (validate_json_field marker required_object) [
    | err e ↦ (req, err (refused_marker e))
    | ok _ ↦ replace_at (last_cache_marker req) req marker
  ]
]
