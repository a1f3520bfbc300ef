-- ===== src/ObservablePrefix/Replace/Valid.antt =====
-- A request that was valid stays valid when a marker is written at one of its carriers.
use torana_plugin_sdk.Prelude.{
  ℕ, zero, suc, Bool, true, false, Bytes, List, [], ◌∷◌, Option, none, some, ◌≡◌, refl, ap, ◌∙◌,
  arith, is_empty, Check, ok, ◌>>◌, refuse_if, >>-eq-ok,
}
use torana_plugin_sdk.Proto.Request.{
  ContentKind, ContentBlock, BlockKind, RequestBlock, Message, ToolDef,
}
use torana_plugin_sdk.RequestValidate.Fields.{
  JsonField, validate_json_field, required_object, optional_object, request_json_fields,
  breakpoint_marker, result_breakpoint_marker, tool_def_cache_control,
}
use torana_plugin_sdk.RequestValidate.Blocks.{
  Place, check_field, lift_field, validate_content, validate_content_kind, validate_contents,
  validate_tool_result, validate_kind, validate_block, validate_blocks, empty_content, no_blocks,
}
use torana_plugin_sdk.RequestValidate.Parts.{
  has_covered_block, validate_message, validate_messages, validate_tool_def, validate_tools,
}
use torana_plugin_sdk.RequestValidate.Utf8Walk.{blocks_utf8, messages_utf8}
use torana_plugin_sdk.ObservablePrefix.{update_at}
use torana_plugin_sdk.ObservablePrefix.Replace.{
  set_tool_marker, set_kind_marker, set_content_kind, set_content_marker, set_nested_kind,
  on_blocks,
}

module _ {κ} {E : Type κ} where
  -- The last check of a sequence may be replaced by one that passes.
  pub >>-replace :
      (m k k' : Check E) → (k ≡ ok tt → k' ≡ ok tt) → (m >> k) ≡ ok tt → (m >> k') ≡ ok tt
  >>-replace m k k' f h = let p = (>>-eq-ok m k).0 h in (>>-eq-ok m k').1 (p.0, f p.1)

  pub >>-replace_both :
      (m m' k k' : Check E)
      → (m ≡ ok tt → m' ≡ ok tt)
      → (k ≡ ok tt → k' ≡ ok tt)
      → (m >> k) ≡ ok tt
      → (m' >> k') ≡ ok tt
  >>-replace_both m m' k k' g f h = let p = (>>-eq-ok m k).0 h in (>>-eq-ok m' k').1 (g p.0, f p.1)

is_empty-update_at {ℓ} :
    {A : Type ℓ} (n : ℕ) (f : A → A) (xs : List A) → is_empty (update_at n f xs) ≡ is_empty xs
unfolding update_at
is_empty-update_at n f [] = refl
is_empty-update_at zero f (x ∷ xs) = refl
is_empty-update_at (suc n) f (x ∷ xs) = refl

-- A required marker is not empty.
pub marker_not_empty :
    (marker : Bytes) → validate_json_field marker required_object ≡ ok tt → is_empty marker ≡ false
unfolding validate_json_field
marker_not_empty marker h = ground arith

module _ (marker : Bytes) (valid : validate_json_field marker required_object ≡ ok tt) where
  check_marker :
      (f : JsonField) → request_json_fields f ≡ required_object → check_field f marker ≡ ok tt
  unfolding check_field
  check_marker f e = ap (lift_field f) (ap (validate_json_field marker) e ∙ valid)

  optional_marker : validate_json_field marker optional_object ≡ ok tt
  unfolding validate_json_field
  optional_marker = ground (arith, valid, marker_not_empty marker valid)

  check_tool_marker : check_field tool_def_cache_control marker ≡ ok tt
  unfolding check_field request_json_fields
  check_tool_marker = ap (lift_field tool_def_cache_control) optional_marker

  validate_tool_def-set :
      (t : Option ToolDef)
      → validate_tool_def t ≡ ok tt
      → validate_tool_def (set_tool_marker marker t) ≡ ok tt
  unfolding validate_tool_def set_tool_marker
  validate_tool_def-set none h = h
  validate_tool_def-set (some t) h = >>-replace _ _ _ (λ k. check_tool_marker) h

  pub validate_tools-update_at :
      (n : ℕ) (ts : List (Option ToolDef))
      → validate_tools ts ≡ ok tt
      → validate_tools (update_at n (set_tool_marker marker) ts) ≡ ok tt
  unfolding validate_tools update_at
  validate_tools-update_at n [] h = h
  validate_tools-update_at zero (t ∷ ts) h =
      >>-replace_both _ _ _ _ (validate_tool_def-set t) (λ k. k) h
  validate_tools-update_at (suc n) (t ∷ ts) h = >>-replace _ _ _ (validate_tools-update_at n ts) h

  pub validate_kind-set :
      (p : Place) (k : BlockKind)
      → validate_kind p k ≡ ok tt
      → validate_kind p (set_kind_marker marker k) ≡ ok tt
  unfolding validate_kind set_kind_marker request_json_fields
  validate_kind-set p (BlockKind.cache_breakpoint none) h = h
  validate_kind-set p (BlockKind.cache_breakpoint (some c)) h =
      >>-replace _ _ _ (λ k. check_marker breakpoint_marker refl) h
  validate_kind-set p _ h = h

  validate_content_kind-set :
      (k : ContentKind)
      → validate_content_kind k ≡ ok tt
      → validate_content_kind (set_content_kind marker k) ≡ ok tt
  unfolding validate_content_kind set_content_kind request_json_fields
  validate_content_kind-set (ContentKind.cache_breakpoint none) h = h
  validate_content_kind-set (ContentKind.cache_breakpoint (some c)) h =
      >>-replace _ _ _ (λ k. check_marker result_breakpoint_marker refl) h
  validate_content_kind-set _ h = h

  validate_content-set :
      (c : Option ContentBlock)
      → validate_content c ≡ ok tt
      → validate_content (set_content_marker marker c) ≡ ok tt
  unfolding validate_content set_content_marker
  validate_content-set none h = h
  validate_content-set (some c) h = >>-replace _ _ _ (validate_content_kind-set c.kind) h

  validate_contents-update_at :
      (n : ℕ) (cs : List (Option ContentBlock))
      → validate_contents cs ≡ ok tt
      → validate_contents (update_at n (set_content_marker marker) cs) ≡ ok tt
  unfolding validate_contents update_at
  validate_contents-update_at n [] h = h
  validate_contents-update_at zero (c ∷ cs) h =
      >>-replace_both _ _ _ _ (validate_content-set c) (λ k. k) h
  validate_contents-update_at (suc n) (c ∷ cs) h =
      >>-replace _ _ _ (validate_contents-update_at n cs) h

  pub validate_kind-set_nested :
      (n : ℕ) (p : Place) (k : BlockKind)
      → validate_kind p k ≡ ok tt
      → validate_kind p (set_nested_kind n marker k) ≡ ok tt
  unfolding validate_kind set_nested_kind validate_tool_result
  validate_kind-set_nested n p (BlockKind.tool_result none) h = h
  validate_kind-set_nested n p (BlockKind.tool_result (some tr)) h =
      >>-replace_both _ _ _ _
        (>>-replace _ _ _ (λ e.
          ap (λ b. refuse_if b empty_content)
            (is_empty-update_at n (set_content_marker marker) tr.content)
          ∙ e))
        (validate_contents-update_at n tr.content) h
  validate_kind-set_nested n p _ h = h

-- What the validator reads of a block is kept by `f`.
pub record KeepsBlock (f : Option RequestBlock → Option RequestBlock) : Type 0 where
  pub valid :
      (p : Place) (b : Option RequestBlock)
      → validate_block p b ≡ ok tt
      → validate_block p (f b) ≡ ok tt
  pub covered :
      (b : Option RequestBlock) (bs : List (Option RequestBlock))
      → has_covered_block (f b ∷ bs) ≡ has_covered_block (b ∷ bs)
  pub utf8 :
      (b : Option RequestBlock) (bs : List (Option RequestBlock))
      → blocks_utf8 (b ∷ bs) ≡ true
      → blocks_utf8 (f b ∷ bs) ≡ true

module _ (f : Option RequestBlock → Option RequestBlock) (keeps : KeepsBlock f) where
  validate_blocks-update_at :
      (role : Bytes) (covered : Bool) (n : ℕ) (bs : List (Option RequestBlock))
      → validate_blocks role covered bs ≡ ok tt
      → validate_blocks role covered (update_at n f bs) ≡ ok tt
  unfolding validate_blocks update_at
  validate_blocks-update_at role covered n [] h = h
  validate_blocks-update_at role covered zero (b ∷ bs) h =
      >>-replace_both _ _ _ _ (keeps.valid _ b) (λ k. k) h
  validate_blocks-update_at role covered (suc n) (b ∷ bs) h =
      >>-replace_both _ _ _ _ (λ k. rw (is_empty-update_at n f bs) k)
        (validate_blocks-update_at role covered n bs) h

  covered-update_at :
      (n : ℕ) (bs : List (Option RequestBlock))
      → has_covered_block (update_at n f bs) ≡ has_covered_block bs
  unfolding update_at has_covered_block
  covered-update_at n [] = refl
  covered-update_at zero (b ∷ bs) = keeps.covered b bs
  covered-update_at (suc n) (none ∷ bs) = covered-update_at n bs
  covered-update_at (suc n) (some b ∷ bs) = rw (covered-update_at n bs)

  blocks_utf8-update_at :
      (n : ℕ) (bs : List (Option RequestBlock))
      → blocks_utf8 bs ≡ true
      → blocks_utf8 (update_at n f bs) ≡ true
  unfolding update_at blocks_utf8
  blocks_utf8-update_at n [] h = h
  blocks_utf8-update_at zero (b ∷ bs) h = keeps.utf8 b bs h
  blocks_utf8-update_at (suc n) (none ∷ bs) h = blocks_utf8-update_at n bs h
  blocks_utf8-update_at (suc n) (some b ∷ bs) h = ground (arith, blocks_utf8-update_at n bs)

  validate_message-on_blocks :
      (n : ℕ) (m : Option Message)
      → validate_message m ≡ ok tt
      → validate_message (on_blocks (update_at n f) m) ≡ ok tt
  unfolding validate_message on_blocks
  validate_message-on_blocks n none h = h
  validate_message-on_blocks n (some m) h = rw (covered-update_at n m.blocks) (
      >>-replace_both _ _ _ _
        (>>-replace _ _ _
          (λ e. ap (λ b. refuse_if b no_blocks) (is_empty-update_at n f m.blocks) ∙ e))
        (validate_blocks-update_at m.role _ n m.blocks) h)

  pub validate_messages-update_at :
      (i n : ℕ) (ms : List (Option Message))
      → validate_messages ms ≡ ok tt
      → validate_messages (update_at i (on_blocks (update_at n f)) ms) ≡ ok tt
  unfolding validate_messages update_at
  validate_messages-update_at i n [] h = h
  validate_messages-update_at zero n (m ∷ ms) h =
      >>-replace_both _ _ _ _ (validate_message-on_blocks n m) (λ k. k) h
  validate_messages-update_at (suc i) n (m ∷ ms) h =
      >>-replace _ _ _ (validate_messages-update_at i n ms) h

  pub messages_utf8-update_at :
      (i n : ℕ) (ms : List (Option Message))
      → messages_utf8 ms ≡ true
      → messages_utf8 (update_at i (on_blocks (update_at n f)) ms) ≡ true
  unfolding messages_utf8 update_at on_blocks
  messages_utf8-update_at i n [] h = h
  messages_utf8-update_at zero n (none ∷ ms) h = h
  messages_utf8-update_at zero n (some m ∷ ms) h = ground (arith, blocks_utf8-update_at n m.blocks)
  messages_utf8-update_at (suc i) n (none ∷ ms) h = messages_utf8-update_at i n ms h
  messages_utf8-update_at (suc i) n (some m ∷ ms) h = ground (arith, messages_utf8-update_at i n ms)
