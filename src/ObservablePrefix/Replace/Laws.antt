-- ===== src/ObservablePrefix/Replace/Laws.antt =====
-- Writing a marker moves no carrier, and is read back.
use torana_plugin_sdk.Prelude.{
  ℕ, zero, suc, ◌+◌, true, false, Bytes, List, [], ◌∷◌, ◌++◌, Option, none, some, ◌≡◌, refl, ap,
  sym, ◌∙◌, arith, is_empty, not,
}
use torana_plugin_sdk.Proto.Request.{
  ContentBlock, RequestBlock, Message, ToolDef, ChatRequest, get_cache_breakpoint, get_tool_result,
  get_content_breakpoint,
}
use torana_plugin_sdk.ObservablePrefix.{
  MarkerPos, tool, top_level, nested, update_at, content_of, blocks_of, is_tool_carrier,
  is_block_carrier, is_content_carrier,
}
use torana_plugin_sdk.ObservablePrefix.Carriers.{
  carriers, tool_carriers, content_carriers, own_carriers, block_carriers, message_carriers,
  carrier_if,
}
use torana_plugin_sdk.ObservablePrefix.Replace.{
  elem_at, tool_marker, breakpoint_marker, marker_at, set_tool_marker, set_block_marker,
  set_content_marker, set_nested_marker, on_blocks, put_marker,
}
use torana_plugin_sdk.ObservablePrefix.Replace.Places.{carrier_at}

-- Reading at an updated place.
elem_at-update_at {ℓ} :
    {A : Type ℓ} (n : ℕ) (f : Option A → Option A) (xs : List (Option A))
    → f none ≡ none
    → elem_at (update_at n f xs) n ≡ f (elem_at xs n)
unfolding elem_at update_at
elem_at-update_at n f [] h = sym h
elem_at-update_at zero f (x ∷ xs) h = refl
elem_at-update_at (suc n) f (x ∷ xs) h = elem_at-update_at n f xs h

module _ (marker : Bytes) where
  tool_carriers-update_at :
      (i n : ℕ) (ts : List (Option ToolDef))
      → is_empty marker ≡ false
      → is_tool_carrier (elem_at ts n) ≡ true
      → tool_carriers i (update_at n (set_tool_marker marker) ts) ≡ tool_carriers i ts
  unfolding tool_carriers update_at elem_at set_tool_marker is_tool_carrier
  tool_carriers-update_at i n [] m h = refl
  tool_carriers-update_at i zero (none ∷ ts) m h = refl
  tool_carriers-update_at i zero (some t ∷ ts) m h =
      ap (λ b. carrier_if b (tool i) ++ tool_carriers (i + 1) ts) (ap not m ∙ sym h)
  tool_carriers-update_at i (suc n) (t ∷ ts) m h =
      ap (λ l. carrier_if (is_tool_carrier t) (tool i) ++ l)
        (tool_carriers-update_at (i + 1) n ts m h)

  is_content_carrier-set :
      (c : Option ContentBlock)
      → is_content_carrier (set_content_marker marker c) ≡ is_content_carrier c
  unfolding is_content_carrier set_content_marker get_content_breakpoint
  is_content_carrier-set c = ground arith

  is_block_carrier-set :
      (b : Option RequestBlock) → is_block_carrier (set_block_marker marker b) ≡ is_block_carrier b
  unfolding is_block_carrier set_block_marker get_cache_breakpoint
  is_block_carrier-set b = ground arith

  get_tool_result-set_block_marker :
      (b : Option RequestBlock) → get_tool_result (set_block_marker marker b) ≡ get_tool_result b
  unfolding set_block_marker get_tool_result
  get_tool_result-set_block_marker b = ground arith

  content_carriers-update_at :
      (i j k n : ℕ) (cs : List (Option ContentBlock))
      → content_carriers i j k (update_at n (set_content_marker marker) cs)
        ≡ content_carriers i j k cs
  unfolding content_carriers update_at
  content_carriers-update_at i j k n [] = refl
  content_carriers-update_at i j k zero (c ∷ cs) =
      ap (λ b. carrier_if b (nested i j k) ++ content_carriers i j (k + 1) cs)
        (is_content_carrier-set c)
  content_carriers-update_at i j k (suc n) (c ∷ cs) =
      ap (λ l. carrier_if (is_content_carrier c) (nested i j k) ++ l)
        (content_carriers-update_at i j (k + 1) n cs)

  content-set_nested :
      (n : ℕ) (b : Option RequestBlock)
      → content_of (get_tool_result (set_nested_marker n marker b))
        ≡ update_at n (set_content_marker marker) (content_of (get_tool_result b))
  unfolding set_nested_marker get_tool_result content_of update_at
  content-set_nested n b = ground arith

  is_block_carrier-set_nested :
      (n : ℕ) (b : Option RequestBlock)
      → is_block_carrier (set_nested_marker n marker b) ≡ is_block_carrier b
  unfolding is_block_carrier set_nested_marker get_cache_breakpoint
  is_block_carrier-set_nested n b = ground arith

  own_carriers-set_nested :
      (n i j : ℕ) (b : Option RequestBlock)
      → own_carriers i j (set_nested_marker n marker b) ≡ own_carriers i j b
  unfolding own_carriers
  own_carriers-set_nested n i j b = rw (
    content-set_nested n b,
    is_block_carrier-set_nested n b,
    content_carriers-update_at i j 0 n _,
  )

  own_carriers-set_block :
      (i j : ℕ) (b : Option RequestBlock)
      → own_carriers i j (set_block_marker marker b) ≡ own_carriers i j b
  unfolding own_carriers
  own_carriers-set_block i j b = rw (get_tool_result-set_block_marker b, is_block_carrier-set b)

block_carriers-update_at :
    (f : Option RequestBlock → Option RequestBlock)
    → ((i j : ℕ) (b : Option RequestBlock) → own_carriers i j (f b) ≡ own_carriers i j b)
    → (i j n : ℕ) (bs : List (Option RequestBlock))
    → block_carriers i j (update_at n f bs) ≡ block_carriers i j bs
unfolding block_carriers update_at
block_carriers-update_at f h i j n [] = refl
block_carriers-update_at f h i j zero (b ∷ bs) =
    ap (λ l. l ++ block_carriers i (j + 1) bs) (h i j b)
block_carriers-update_at f h i j (suc n) (b ∷ bs) =
    ap (λ l. own_carriers i j b ++ l) (block_carriers-update_at f h i (j + 1) n bs)

blocks_of-on_blocks :
    (g : List (Option RequestBlock) → List (Option RequestBlock)) (m : Option Message)
    → g [] ≡ []
    → blocks_of (on_blocks g m) ≡ g (blocks_of m)
unfolding blocks_of on_blocks
blocks_of-on_blocks g none h = sym h
blocks_of-on_blocks g (some m) h = refl

message_carriers-update_at :
    (g : List (Option RequestBlock) → List (Option RequestBlock))
    → g [] ≡ []
    → ((i : ℕ) (bs : List (Option RequestBlock))
        → block_carriers i 0 (g bs) ≡ block_carriers i 0 bs)
    → (i n : ℕ) (ms : List (Option Message))
    → message_carriers i (update_at n (on_blocks g) ms) ≡ message_carriers i ms
unfolding message_carriers update_at
message_carriers-update_at g e h i n [] = refl
message_carriers-update_at g e h i zero (m ∷ ms) =
    ap (λ l. l ++ message_carriers (i + 1) ms)
      (ap (block_carriers i 0) (blocks_of-on_blocks g m e) ∙ h i (blocks_of m))
message_carriers-update_at g e h i (suc n) (m ∷ ms) =
    ap (λ l. block_carriers i 0 (blocks_of m) ++ l) (message_carriers-update_at g e h (i + 1) n ms)

update_at-nil {ℓ} : {A : Type ℓ} (n : ℕ) (f : A → A) → update_at n f [] ≡ []
unfolding update_at
update_at-nil n f = refl

-- Writing a marker at a carrier leaves every carrier at its position.
pub carriers-put_marker :
    (p : MarkerPos) (marker : Bytes) (req : ChatRequest)
    → is_empty marker ≡ false
    → carrier_at p req ≡ true
    → carriers (put_marker p marker req) ≡ carriers req
unfolding carriers put_marker
carriers-put_marker (tool i) marker req m h =
    ap (λ l. l ++ message_carriers 0 req.messages)
      (tool_carriers-update_at marker 0 i req.tools m h)
carriers-put_marker (top_level i j) marker req m h =
    ap (λ l. tool_carriers 0 req.tools ++ l)
      (message_carriers-update_at _ (update_at-nil j (set_block_marker marker))
        (λ i' bs. block_carriers-update_at _ (own_carriers-set_block marker) i' 0 j bs) 0 i
        req.messages)
carriers-put_marker (nested i j k) marker req m h =
    ap (λ l. tool_carriers 0 req.tools ++ l)
      (message_carriers-update_at _ (update_at-nil j (set_nested_marker k marker))
        (λ i' bs. block_carriers-update_at _ (own_carriers-set_nested marker k) i' 0 j bs) 0 i
        req.messages)

block_at-update_at :
    (i j : ℕ) (f : Option RequestBlock → Option RequestBlock) (ms : List (Option Message))
    → f none ≡ none
    → elem_at (blocks_of (elem_at (update_at i (on_blocks (update_at j f)) ms) i)) j
      ≡ f (elem_at (blocks_of (elem_at ms i)) j)
unfolding on_blocks
block_at-update_at i j f ms h =
    ap (λ m. elem_at (blocks_of m) j) (elem_at-update_at i (on_blocks (update_at j f)) ms refl)
    ∙ ap (λ bs. elem_at bs j)
        (blocks_of-on_blocks (update_at j f) (elem_at ms i) (update_at-nil j f))
    ∙ elem_at-update_at j f (blocks_of (elem_at ms i)) h

module _ (marker : Bytes) where
  tool_marker-set :
      (t : Option ToolDef)
      → is_tool_carrier t ≡ true
      → tool_marker (set_tool_marker marker t) ≡ marker
  unfolding is_tool_carrier tool_marker set_tool_marker
  tool_marker-set t h = ground arith

  block_marker-set :
      (b : Option RequestBlock)
      → is_block_carrier b ≡ true
      → breakpoint_marker (get_cache_breakpoint (set_block_marker marker b)) ≡ marker
  unfolding is_block_carrier breakpoint_marker set_block_marker get_cache_breakpoint
  block_marker-set b h = ground arith

  content_marker-set :
      (c : Option ContentBlock)
      → is_content_carrier c ≡ true
      → breakpoint_marker (get_content_breakpoint (set_content_marker marker c)) ≡ marker
  unfolding is_content_carrier breakpoint_marker set_content_marker get_content_breakpoint
  content_marker-set c h = ground arith

-- What was written is read back.
pub marker_at-put_marker :
    (p : MarkerPos) (marker : Bytes) (req : ChatRequest)
    → carrier_at p req ≡ true
    → marker_at p (put_marker p marker req) ≡ marker
unfolding marker_at put_marker
marker_at-put_marker (tool i) marker req h =
    ap tool_marker (elem_at-update_at i (set_tool_marker marker) req.tools refl)
    ∙ tool_marker-set marker (elem_at req.tools i) h
marker_at-put_marker (top_level i j) marker req h =
    ap (λ b. breakpoint_marker (get_cache_breakpoint b))
      (block_at-update_at i j (set_block_marker marker) req.messages refl)
    ∙ block_marker-set marker _ h
marker_at-put_marker (nested i j k) marker req h =
    ap
      (λ b. breakpoint_marker (get_content_breakpoint (elem_at (content_of (get_tool_result b)) k)))
      (block_at-update_at i j (set_nested_marker k marker) req.messages refl)
    ∙ ap (λ cs. breakpoint_marker (get_content_breakpoint (elem_at cs k)))
        (content-set_nested marker k (elem_at (blocks_of (elem_at req.messages i)) j))
    ∙ ap (λ c. breakpoint_marker (get_content_breakpoint c))
        (elem_at-update_at k (set_content_marker marker) _ refl)
    ∙ content_marker-set marker _ h
