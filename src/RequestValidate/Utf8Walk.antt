-- ===== src/RequestValidate/Utf8Walk.antt =====
-- `checkStringsUTF8` on a ChatRequest: every protobuf `string` field reachable from it.
use torana_plugin_sdk.Prelude.{Bool, true, ◌&&◌, Bytes, List, [], ◌∷◌, Option, none, some}
use torana_plugin_sdk.GoStd.Utf8.{utf8_valid}
use torana_plugin_sdk.Proto.Request.{
  ContentBlock, ContentKind, RequestBlock, BlockKind, Message, ToolDef, OutputFormat, ChatRequest,
}

unfoldable pub optional_utf8 : Option Bytes → Bool
optional_utf8 none = true
optional_utf8 (some s) = utf8_valid s

unfoldable pub all_utf8 : List Bytes → Bool
all_utf8 [] = true
all_utf8 (s ∷ ss) = utf8_valid s && all_utf8 ss

unfoldable pub content_kind_utf8 : ContentKind → Bool
content_kind_utf8 (ContentKind.text (some t)) = utf8_valid t.text
content_kind_utf8 (ContentKind.unknown (some u)) = utf8_valid u.kind
content_kind_utf8 _ = true

-- An element that is nil is passed over.
unfoldable pub contents_utf8 : List (Option ContentBlock) → Bool
contents_utf8 [] = true
contents_utf8 (none ∷ cs) = contents_utf8 cs
contents_utf8 (some c ∷ cs) = content_kind_utf8 c.kind && contents_utf8 cs

unfoldable pub block_kind_utf8 : BlockKind → Bool
unfolding contents_utf8
block_kind_utf8 (BlockKind.text (some t)) = utf8_valid t.text && utf8_valid t.signature
block_kind_utf8 (BlockKind.thinking (some t)) = utf8_valid t.text && utf8_valid t.signature
block_kind_utf8 (BlockKind.redacted_thinking (some r)) = utf8_valid r.redacted
block_kind_utf8 (BlockKind.tool_use (some u)) =
    utf8_valid u.id && utf8_valid u.name && utf8_valid u.signature && optional_utf8 u.input_text
block_kind_utf8 (BlockKind.tool_result (some r)) =
    utf8_valid r.tool_call_id
    && utf8_valid r.tool_name
    && contents_utf8 r.content
    && optional_utf8 r.scheduling
    && utf8_valid r.signature
block_kind_utf8 (BlockKind.unknown (some u)) = utf8_valid u.kind && utf8_valid u.signature
block_kind_utf8 (BlockKind.trailing_signature (some t)) = utf8_valid t.signature
block_kind_utf8 (BlockKind.refusal (some r)) = utf8_valid r.refusal
block_kind_utf8 _ = true

unfoldable pub blocks_utf8 : List (Option RequestBlock) → Bool
blocks_utf8 [] = true
blocks_utf8 (none ∷ bs) = blocks_utf8 bs
blocks_utf8 (some b ∷ bs) = block_kind_utf8 b.kind && blocks_utf8 bs

unfoldable pub messages_utf8 : List (Option Message) → Bool
messages_utf8 [] = true
messages_utf8 (none ∷ ms) = messages_utf8 ms
messages_utf8 (some m ∷ ms) = utf8_valid m.role && blocks_utf8 m.blocks && messages_utf8 ms

unfoldable pub tools_utf8 : List (Option ToolDef) → Bool
tools_utf8 [] = true
tools_utf8 (none ∷ ts) = tools_utf8 ts
tools_utf8 (some t ∷ ts) =
    utf8_valid t.name && utf8_valid t.description && all_utf8 t.namespace_path && tools_utf8 ts

unfoldable pub format_utf8 : Option OutputFormat → Bool
format_utf8 none = true
format_utf8 (some f) = utf8_valid f.name

unfoldable pub strings_utf8 : ChatRequest → Bool
unfolding all_utf8 messages_utf8 blocks_utf8 block_kind_utf8 contents_utf8 content_kind_utf8
    tools_utf8 format_utf8 optional_utf8
strings_utf8 x =
    utf8_valid x.model
    && messages_utf8 x.messages
    && tools_utf8 x.tools
    && all_utf8 x.stop_sequences
    && format_utf8 x.output_format
