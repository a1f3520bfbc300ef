-- ===== src/ObservablePrefix.antt =====
-- pb/v1/observableprefix.go: the cached prefix of a request, which its last cache marker closes,
-- and the replacement of that marker. The carriers of markers are tool definitions, message
-- blocks and tool-result content; `Carriers` lists them in serialization order. The protobuf
-- serialization is the parameter `marshal`. `proto.Clone` copies a value, and values are not
-- shared here.
pub mod Carriers
pub mod Replace
mod Split
pub mod Projection
pub mod Growth
use torana_plugin_sdk.Prelude.{
  ℕ, zero, suc, ◌+◌, Bool, true, false, not, Bytes, List, [], ◌∷◌, Option, none, some, Result,
  Check, ok, err, ◌>>=◌, ◌>>◌, is_empty, take, bytes_eq, if◌then◌else◌, ◌++◌, ltb, ◌==◌,
}
use torana_plugin_sdk.Proto.Request.{
  CacheBreakpoint, ContentKind, ContentBlock, BlockKind, RequestBlock, ToolResultBlock, Message,
  ToolDef, ChatRequest, get_cache_breakpoint, get_tool_result, get_content_breakpoint,
}
use torana_plugin_sdk.RequestValidate.{validate_replacement}
use torana_plugin_sdk.RequestValidate.Blocks.{RequestError, is_some}
use torana_plugin_sdk.RequestValidate.Fields.{
  FieldError, validate_json_field, JsonFieldRule, required_object,
}

-- `cacheMarkerPos`, one constructor for each `markerCarrierKind`
pub data MarkerPos : Type 0 where
  tool : ℕ → MarkerPos
  top_level : ℕ → ℕ → MarkerPos
  nested : ℕ → ℕ → ℕ → MarkerPos

unfoldable pub is_tool_carrier : Option ToolDef → Bool
is_tool_carrier none = false
is_tool_carrier (some t) = not (is_empty t.cache_control_json)

unfoldable pub is_block_carrier : Option RequestBlock → Bool
is_block_carrier b = is_some (get_cache_breakpoint b)

unfoldable pub is_content_carrier : Option ContentBlock → Bool
is_content_carrier c = is_some (get_content_breakpoint c)

-- The loops of `lastCacheMarker`, each over its index and the variable `last`.
unfoldable pub scan_tools : ℕ → Option MarkerPos → List (Option ToolDef) → Option MarkerPos
scan_tools i last [] = last
scan_tools i last (t ∷ ts) =
    scan_tools (i + 1) (if is_tool_carrier t then some (tool i) else last) ts

unfoldable pub scan_content :
    ℕ → ℕ → ℕ → Option MarkerPos → List (Option ContentBlock) → Option MarkerPos
scan_content i j k last [] = last
scan_content i j k last (c ∷ cs) =
    scan_content i j (k + 1) (if is_content_carrier c then some (nested i j k) else last) cs

-- `tr.Content`, or nothing for a block that is no tool result
unfoldable pub content_of : Option ToolResultBlock → List (Option ContentBlock)
content_of none = []
content_of (some tr) = tr.content

unfoldable pub scan_blocks :
    ℕ → ℕ → Option MarkerPos → List (Option RequestBlock) → Option MarkerPos
scan_blocks i j last [] = last
scan_blocks i j last (b ∷ bs) =
    scan_blocks i (j + 1)
      (scan_content i j 0 (if is_block_carrier b then some (top_level i j) else last)
        (content_of (get_tool_result b)))
      bs

-- `m.Blocks`; a nil message, which the validator refuses, has none
unfoldable pub blocks_of : Option Message → List (Option RequestBlock)
blocks_of none = []
blocks_of (some m) = m.blocks

unfoldable pub scan_messages : ℕ → Option MarkerPos → List (Option Message) → Option MarkerPos
scan_messages i last [] = last
scan_messages i last (m ∷ ms) = scan_messages (i + 1) (scan_blocks i 0 last (blocks_of m)) ms

-- `lastCacheMarker`
unfoldable pub last_cache_marker : ChatRequest → Option MarkerPos
last_cache_marker req = scan_messages 0 (scan_tools 0 none req.tools) req.messages

-- `xs[i] = f(xs[i])`
module _ {ℓ} {A : Type ℓ} where
  unfoldable pub update_at : ℕ → (A → A) → List A → List A
  update_at i f [] = []
  update_at zero f (x ∷ xs) = f x ∷ xs
  update_at (suc i) f (x ∷ xs) = x ∷ update_at i f xs

kind_with_content : List (Option ContentBlock) → BlockKind → BlockKind
kind_with_content cs (BlockKind.tool_result (some tr)) =
    BlockKind.tool_result (some (record tr { content = cs }))
kind_with_content cs k = k

unfoldable pub with_content : List (Option ContentBlock) → Option RequestBlock → Option RequestBlock
unfolding kind_with_content
with_content cs none = none
with_content cs (some b) = some (record b { kind = kind_with_content cs b.kind })

-- The marker block with its tool-result content cut behind `nested`; `none` is the -1 of an outer
-- marker, which leaves the block whole.
unfoldable pub cut_block : Option ℕ → Option RequestBlock → Option RequestBlock
cut_block none b = b
cut_block (some k) b =
    if is_some (get_tool_result b)
    then with_content (take (suc k) (content_of (get_tool_result b))) b
    else b

-- The loop of `truncateMessage`: the blocks up to `lastBlock`, the last of them cut.
unfoldable pub truncate_blocks :
    ℕ → Option ℕ → List (Option RequestBlock) → List (Option RequestBlock)
truncate_blocks last_block last_nested [] = []
truncate_blocks zero last_nested (b ∷ bs) = cut_block last_nested b ∷ []
truncate_blocks (suc j) last_nested (b ∷ bs) = b ∷ truncate_blocks j last_nested bs

-- `truncateMessage`
unfoldable pub truncate_message : ℕ → Option ℕ → Option Message → Option Message
truncate_message last_block last_nested none = none
truncate_message last_block last_nested (some m) = some (record {
  role = m.role;
  blocks = truncate_blocks last_block last_nested m.blocks;
  unknown_fields = [];
})

-- `out.Messages[:last.msg+1]`, with its last message truncated
unfoldable pub cut_messages : ℕ → ℕ → Option ℕ → List (Option Message) → List (Option Message)
cut_messages msg block last_nested ms =
    update_at msg (truncate_message block last_nested) (take (suc msg) ms)

unfoldable pub cut_at : Option MarkerPos → ChatRequest → ChatRequest
cut_at none out = out
cut_at (some (tool i)) out = record out { tools = take (suc i) out.tools; messages = [] }
cut_at (some (top_level i j)) out = record out { messages = cut_messages i j none out.messages }
cut_at (some (nested i j k)) out = record out { messages = cut_messages i j (some k) out.messages }

-- The request that `RequestObservablePrefix` serializes.
unfoldable pub projection : ChatRequest → ChatRequest
projection req =
    let out = record req { stream = false; torana_meta_json = [] } in
    cut_at (last_cache_marker out) out

pub data PrefixError (E : Type 0) : Type 0 where
  invalid_request : RequestError → PrefixError E
  marshal_failed : E → PrefixError E

module _ {E : Type 0} (marshal : ChatRequest → Result E Bytes) where
  -- `marshalProjectionWith`
  unfoldable pub marshal_projection : ChatRequest → Bool → Result (PrefixError E) (Bytes × Bool)
  marshal_projection out has = elim (marshal out) [
    | ok b ↦ ok (b, has)
    | err e ↦ err (marshal_failed e)
  ]

  unfoldable pub prefix_checked :
      Check RequestError → ChatRequest → Result (PrefixError E) (Bytes × Bool)
  prefix_checked (err e) req = err (invalid_request e)
  prefix_checked (ok tt) req =
      marshal_projection (projection req)
        (is_some (last_cache_marker (record req { stream = false; torana_meta_json = [] })))

  -- `RequestObservablePrefix`
  unfoldable pub request_observable_prefix : ChatRequest → Result (PrefixError E) (Bytes × Bool)
  unfolding prefix_checked marshal_projection
  request_observable_prefix req = prefix_checked (validate_replacement (some req)) req
