-- ===== src/ObservablePrefix/Carriers.antt =====
-- The carriers of a request in serialization order, as a list: tools first, then each message's
-- blocks, each block before its tool-result content. `lastCacheMarker` is the end of that list.
use torana_plugin_sdk.Prelude.{
  ℕ, ◌+◌, Bool, true, false, List, [], ◌∷◌, ◌++◌, Option, none, some, ◌≡◌, refl, ap, sym, ◌∙◌,
  is_empty, not, if◌then◌else◌,
}
use torana_plugin_sdk.Proto.Request.{
  ContentBlock, RequestBlock, Message, ToolDef, ChatRequest, get_tool_result,
}
use torana_plugin_sdk.RequestValidate.Blocks.{is_some}
use torana_plugin_sdk.ObservablePrefix.{
  MarkerPos, tool, top_level, nested, is_tool_carrier, is_block_carrier, is_content_carrier,
  scan_tools, scan_content, scan_blocks, scan_messages, content_of, blocks_of, last_cache_marker,
}

abbrev pub carrier_if : Bool → MarkerPos → List MarkerPos
carrier_if true p = p ∷ []
carrier_if false p = []

unfoldable pub tool_carriers : ℕ → List (Option ToolDef) → List MarkerPos
tool_carriers i [] = []
tool_carriers i (t ∷ ts) = carrier_if (is_tool_carrier t) (tool i) ++ tool_carriers (i + 1) ts

unfoldable pub content_carriers : ℕ → ℕ → ℕ → List (Option ContentBlock) → List MarkerPos
content_carriers i j k [] = []
content_carriers i j k (c ∷ cs) =
    carrier_if (is_content_carrier c) (nested i j k) ++ content_carriers i j (k + 1) cs

unfoldable pub own_carriers : ℕ → ℕ → Option RequestBlock → List MarkerPos
own_carriers i j b =
    carrier_if (is_block_carrier b) (top_level i j)
    ++ content_carriers i j 0 (content_of (get_tool_result b))

unfoldable pub block_carriers : ℕ → ℕ → List (Option RequestBlock) → List MarkerPos
block_carriers i j [] = []
block_carriers i j (b ∷ bs) = own_carriers i j b ++ block_carriers i (j + 1) bs

unfoldable pub message_carriers : ℕ → List (Option Message) → List MarkerPos
message_carriers i [] = []
message_carriers i (m ∷ ms) = block_carriers i 0 (blocks_of m) ++ message_carriers (i + 1) ms

unfoldable pub carriers : ChatRequest → List MarkerPos
unfolding tool_carriers message_carriers block_carriers own_carriers content_carriers
carriers req = tool_carriers 0 req.tools ++ message_carriers 0 req.messages

-- The last element, or `d` of an empty list.
abbrev pub last_or : Option MarkerPos → List MarkerPos → Option MarkerPos
last_or d [] = d
last_or d (p ∷ ps) = last_or (some p) ps

pub last_or-append :
    (d : Option MarkerPos) (xs ys : List MarkerPos)
    → last_or d (xs ++ ys) ≡ last_or (last_or d xs) ys
last_or-append d [] ys = refl
last_or-append d (x ∷ xs) ys = last_or-append (some x) xs ys

last_or-carrier_if :
    (b : Bool) (p : MarkerPos) (d : Option MarkerPos) (ys : List MarkerPos)
    → last_or d (carrier_if b p ++ ys) ≡ last_or (if b then some p else d) ys
last_or-carrier_if true p d ys = refl
last_or-carrier_if false p d ys = refl

scan_tools-last_or :
    (i : ℕ) (d : Option MarkerPos) (ts : List (Option ToolDef))
    → scan_tools i d ts ≡ last_or d (tool_carriers i ts)
unfolding scan_tools tool_carriers
scan_tools-last_or i d [] = refl
scan_tools-last_or i d (t ∷ ts) =
    scan_tools-last_or (i + 1) _ ts
    ∙ sym (last_or-carrier_if (is_tool_carrier t) (tool i) d (tool_carriers (i + 1) ts))

scan_content-last_or :
    (i j k : ℕ) (d : Option MarkerPos) (cs : List (Option ContentBlock))
    → scan_content i j k d cs ≡ last_or d (content_carriers i j k cs)
unfolding scan_content content_carriers
scan_content-last_or i j k d [] = refl
scan_content-last_or i j k d (c ∷ cs) =
    scan_content-last_or i j (k + 1) _ cs
    ∙ sym (
        last_or-carrier_if (is_content_carrier c) (nested i j k) d
          (content_carriers i j (k + 1) cs))

scan_blocks-last_or :
    (i j : ℕ) (d : Option MarkerPos) (bs : List (Option RequestBlock))
    → scan_blocks i j d bs ≡ last_or d (block_carriers i j bs)
unfolding scan_blocks block_carriers own_carriers
scan_blocks-last_or i j d [] = refl
scan_blocks-last_or i j d (b ∷ bs) =
    let inner = content_carriers i j 0 (content_of (get_tool_result b)) in
    scan_blocks-last_or i (j + 1) _ bs
    ∙ ap (λ l. last_or l (block_carriers i (j + 1) bs))
        (scan_content-last_or i j 0 _ (content_of (get_tool_result b))
          ∙ sym (last_or-carrier_if (is_block_carrier b) (top_level i j) d inner))
    ∙ sym (last_or-append d (own_carriers i j b) (block_carriers i (j + 1) bs))

scan_messages-last_or :
    (i : ℕ) (d : Option MarkerPos) (ms : List (Option Message))
    → scan_messages i d ms ≡ last_or d (message_carriers i ms)
unfolding scan_messages message_carriers
scan_messages-last_or i d [] = refl
scan_messages-last_or i d (m ∷ ms) =
    scan_messages-last_or (i + 1) _ ms
    ∙ ap (λ l. last_or l (message_carriers (i + 1) ms)) (scan_blocks-last_or i 0 d (blocks_of m))
    ∙ sym (last_or-append d (block_carriers i 0 (blocks_of m)) (message_carriers (i + 1) ms))

-- The three loops find the last carrier of the serialization order.
pub last_cache_marker-last_or :
    (req : ChatRequest) → last_cache_marker req ≡ last_or none (carriers req)
unfolding last_cache_marker carriers
last_cache_marker-last_or req =
    scan_messages-last_or 0 _ req.messages
    ∙ ap (λ l. last_or l (message_carriers 0 req.messages)) (scan_tools-last_or 0 none req.tools)
    ∙ sym (last_or-append none (tool_carriers 0 req.tools) (message_carriers 0 req.messages))

pub last_or-some : (p : MarkerPos) (ps : List MarkerPos) → is_some (last_or (some p) ps) ≡ true
last_or-some p [] = refl
last_or-some p (q ∷ ps) = last_or-some q ps

pub is_some-last_or : (ps : List MarkerPos) → is_some (last_or none ps) ≡ not (is_empty ps)
is_some-last_or [] = refl
is_some-last_or (p ∷ ps) = last_or-some p ps
