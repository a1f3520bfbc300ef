-- ===== src/ObservablePrefix/Replace/Places.antt =====
-- The last marker that `lastCacheMarker` finds is a carrier of the request.
use native.Mathlib.Nat.{add-zero}
use torana_plugin_sdk.Prelude.{
  ℕ, suc, ◌+◌, Bool, true, false, List, [], ◌∷◌, ◌++◌, Option, none, some, ◌≡◌, refl, sym, ◌∙◌,
  subst, arith, All,
}
use torana_plugin_sdk.Proto.Request.{
  ContentBlock, RequestBlock, Message, ToolDef, ChatRequest, get_tool_result,
}
use torana_plugin_sdk.ObservablePrefix.{
  MarkerPos, tool, top_level, nested, content_of, blocks_of, last_cache_marker, is_tool_carrier,
  is_block_carrier, is_content_carrier,
}
use torana_plugin_sdk.ObservablePrefix.Carriers.{
  carriers, tool_carriers, content_carriers, own_carriers, block_carriers, message_carriers,
  last_or, carrier_if, last_cache_marker-last_or,
}
use torana_plugin_sdk.ObservablePrefix.Replace.{elem_at}

abbrev pub carrier_at : MarkerPos → ChatRequest → Bool
carrier_at (tool i) req = is_tool_carrier (elem_at req.tools i)
carrier_at (top_level i j) req = is_block_carrier (elem_at (blocks_of (elem_at req.messages i)) j)
carrier_at (nested i j k) req =
    is_content_carrier
      (elem_at (content_of (get_tool_result (elem_at (blocks_of (elem_at req.messages i)) j))) k)

All-append :
    (P : MarkerPos → Type 0) (xs ys : List MarkerPos) → All P xs → All P ys → All P (xs ++ ys)
All-append P [] ys hx hy = hy
All-append P (x ∷ xs) ys hx hy = (hx.0, All-append P xs ys hx.1 hy)

All-carrier_if :
    (P : MarkerPos → Type 0) (b : Bool) (p : MarkerPos) → (b ≡ true → P p) → All P (carrier_if b p)
All-carrier_if P true p h = (h refl, tt)
All-carrier_if P false p h = tt

All-last_or :
    (P : MarkerPos → Type 0) (d : Option MarkerPos) (ps : List MarkerPos) (p : MarkerPos)
    → (d ≡ some p → P p)
    → All P ps
    → last_or d ps ≡ some p
    → P p
All-last_or P d [] p h a e = h e
All-last_or P d (q ∷ ps) p h a e =
    All-last_or P (some q) ps p (λ e'. subst P (some_eq e') a.0) a.1 e
  where
    some_eq : some q ≡ some p → q ≡ p
    some_eq e' = cc e'

module _ (P : MarkerPos → Type 0) where
  All-tool_carriers :
      (i : ℕ) (ts : List (Option ToolDef))
      → ((n : ℕ) → is_tool_carrier (elem_at ts n) ≡ true → P (tool (i + n)))
      → All P (tool_carriers i ts)
  unfolding tool_carriers elem_at
  All-tool_carriers i [] h = tt
  All-tool_carriers i (t ∷ ts) h =
      All-append P _ _ (All-carrier_if P _ _ (λ e. subst (λ x. P (tool x)) (add-zero i) (h 0 e)))
        (All-tool_carriers (i + 1) ts (λ n e. subst (λ x. P (tool x)) (omega arith) (h (suc n) e)))

  All-content_carriers :
      (i j k : ℕ) (cs : List (Option ContentBlock))
      → ((n : ℕ) → is_content_carrier (elem_at cs n) ≡ true → P (nested i j (k + n)))
      → All P (content_carriers i j k cs)
  unfolding content_carriers elem_at
  All-content_carriers i j k [] h = tt
  All-content_carriers i j k (c ∷ cs) h =
      All-append P _ _
        (All-carrier_if P _ _ (λ e. subst (λ x. P (nested i j x)) (add-zero k) (h 0 e)))
        (All-content_carriers i j (k + 1) cs
          (λ n e. subst (λ x. P (nested i j x)) (omega arith) (h (suc n) e)))

  All-block_carriers :
      (i j : ℕ) (bs : List (Option RequestBlock))
      → ((n : ℕ) → is_block_carrier (elem_at bs n) ≡ true → P (top_level i (j + n)))
      → ((n k : ℕ)
          → is_content_carrier (elem_at (content_of (get_tool_result (elem_at bs n))) k) ≡ true
          → P (nested i (j + n) k))
      → All P (block_carriers i j bs)
  unfolding block_carriers own_carriers elem_at
  All-block_carriers i j [] h g = tt
  All-block_carriers i j (b ∷ bs) h g =
      All-append P (own_carriers i j b) _
        (All-append P _ _
          (All-carrier_if P _ _ (λ e. subst (λ x. P (top_level i x)) (add-zero j) (h 0 e)))
          (All-content_carriers i j 0 (content_of (get_tool_result b)) (λ k e.
            subst (λ x. P (nested i j x)) (omega arith)
              (subst (λ x. P (nested i x k)) (add-zero j) (g 0 k e)))))
        (All-block_carriers i (j + 1) bs
          (λ n e. subst (λ x. P (top_level i x)) (omega arith) (h (suc n) e))
          (λ n k e. subst (λ x. P (nested i x k)) (omega arith) (g (suc n) k e)))

  All-message_carriers :
      (i : ℕ) (ms : List (Option Message))
      → ((n j : ℕ)
          → is_block_carrier (elem_at (blocks_of (elem_at ms n)) j) ≡ true
          → P (top_level (i + n) j))
      → ((n j k : ℕ)
          → is_content_carrier
              (elem_at (content_of (get_tool_result (elem_at (blocks_of (elem_at ms n)) j))) k)
            ≡ true
          → P (nested (i + n) j k))
      → All P (message_carriers i ms)
  unfolding message_carriers elem_at
  All-message_carriers i [] h g = tt
  All-message_carriers i (m ∷ ms) h g =
      All-append P (block_carriers i 0 (blocks_of m)) _
        (All-block_carriers i 0 (blocks_of m)
          (λ j e.
            subst (λ x. P (top_level i x)) (omega arith)
              (subst (λ x. P (top_level x j)) (add-zero i) (h 0 j e)))
          (λ j k e.
            subst (λ x. P (nested i x k)) (omega arith)
              (subst (λ x. P (nested x j k)) (add-zero i) (g 0 j k e))))
        (All-message_carriers (i + 1) ms
          (λ n j e. subst (λ x. P (top_level x j)) (omega arith) (h (suc n) j e))
          (λ n j k e. subst (λ x. P (nested x j k)) (omega arith) (g (suc n) j k e)))

-- Every listed position holds a carrier.
carriers-carrier_at : (req : ChatRequest) → All (λ p. carrier_at p req ≡ true) (carriers req)
unfolding carriers
carriers-carrier_at req =
    All-append (λ p. carrier_at p req ≡ true) (tool_carriers 0 req.tools) _
      (All-tool_carriers (λ p. carrier_at p req ≡ true) 0 req.tools
        (λ n e. subst (λ x. carrier_at (tool x) req ≡ true) (omega arith) e))
      (All-message_carriers (λ p. carrier_at p req ≡ true) 0 req.messages
        (λ n j e. subst (λ x. carrier_at (top_level x j) req ≡ true) (omega arith) e)
        (λ n j k e. subst (λ x. carrier_at (nested x j k) req ≡ true) (omega arith) e))

pub last_cache_marker-carrier_at :
    (req : ChatRequest) (p : MarkerPos) → last_cache_marker req ≡ some p → carrier_at p req ≡ true
last_cache_marker-carrier_at req p e =
    All-last_or (λ q. carrier_at q req ≡ true) none (carriers req) p (λ h. cc h)
      (carriers-carrier_at req) (sym (last_cache_marker-last_or req) ∙ e)
