-- ===== src/ObservablePrefix/Projection.antt =====
-- What `RequestObservablePrefix` returns: the projection keeps every carrier, a second projection
-- changes nothing, and what follows the last carrier has no influence.
use mathlib.Core.List.{append-nil}
use torana_plugin_sdk.Prelude.{
  ℕ, zero, suc, false, List, [], ◌∷◌, ◌++◌, Option, none, some, ◌≡◌, inl, inr, refl, ap, sym, ◌∙◌,
  arith, take,
}
use torana_plugin_sdk.Proto.Request.{RequestBlock, Message, ChatRequest, get_tool_result}
use torana_plugin_sdk.ObservablePrefix.{
  MarkerPos, tool, top_level, nested, last_cache_marker, update_at, cut_messages, cut_at,
  projection, truncate_message, truncate_blocks, cut_block, with_content, content_of,
}
use torana_plugin_sdk.ObservablePrefix.Carriers.{
  carriers, tool_carriers, message_carriers, last_or, last_or-append, last_cache_marker-last_or,
}
use torana_plugin_sdk.ObservablePrefix.Split.{
  place, ToolSplit, split_tools, MessageSplit, split_messages,
}

-- The last carrier is in a message, or in the tools, or there is none.
pub data Ending (req : ChatRequest) : Type 0 where
  in_messages : MessageSplit 0 req.messages → Ending req
  in_tools : message_carriers 0 req.messages ≡ [] → ToolSplit 0 req.tools → Ending req
  nowhere : message_carriers 0 req.messages ≡ [] → tool_carriers 0 req.tools ≡ [] → Ending req

pub ending : (req : ChatRequest) → Ending req
ending req = elim (split_messages 0 req.messages) [
  | inr s ↦ in_messages s
  | inl m ↦ elim (split_tools 0 req.tools) [ inr s ↦ in_tools m s | inl t ↦ nowhere m t ]
]

module _ (req : ChatRequest) where
  pub last-in_messages :
      (s : MessageSplit 0 req.messages) → last_cache_marker req ≡ some (place s.at s.block s.within)
  unfolding carriers
  last-in_messages s =
      last_cache_marker-last_or req
      ∙ last_or-append none (tool_carriers 0 req.tools) (message_carriers 0 req.messages)
      ∙ s.ends _
      ∙ ap (λ x. some (place x s.block s.within)) (omega arith)

  pub last-in_tools :
      (s : ToolSplit 0 req.tools)
      → message_carriers 0 req.messages ≡ []
      → last_cache_marker req ≡ some (tool s.at)
  unfolding carriers
  last-in_tools s m =
      last_cache_marker-last_or req
      ∙ ap (last_or none) (ap (λ l. tool_carriers 0 req.tools ++ l) m ∙ append-nil _)
      ∙ s.ends none
      ∙ ap (λ x. some (tool x)) (omega arith)

  last_nowhere :
      message_carriers 0 req.messages ≡ []
      → tool_carriers 0 req.tools ≡ []
      → last_cache_marker req ≡ none
  unfolding carriers
  last_nowhere m t =
      last_cache_marker-last_or req
      ∙ ap (last_or none) (ap (λ l. l ++ message_carriers 0 req.messages) t ∙ m)

abbrev pub cleared : ChatRequest → ChatRequest
cleared req = record req { stream = false; torana_meta_json = [] }

pub cut_at-place :
    (i j : ℕ) (o : Option ℕ) (out : ChatRequest)
    → cut_at (some (place i j o)) out ≡ record out { messages = cut_messages i j o out.messages }
unfolding cut_at
cut_at-place i j none out = refl
cut_at-place i j (some k) out = refl

-- The projection has the same carriers at the same positions as the request.
pub carriers-projection : (req : ChatRequest) → carriers (projection req) ≡ carriers req
unfolding projection carriers cut_at
carriers-projection req = elim (ending (cleared req)) [
  | in_messages s ↦
      ap (λ l. carriers (cut_at l (cleared req))) (last-in_messages (cleared req) s)
      ∙ ap carriers (cut_at-place s.at s.block s.within (cleared req))
      ∙ ap (λ l. tool_carriers 0 req.tools ++ l) s.cut
  | in_tools m s ↦
      ap (λ l. carriers (cut_at l (cleared req))) (last-in_tools (cleared req) s m)
      ∙ ap (λ l. l ++ []) s.cut
      ∙ ap (λ l. tool_carriers 0 req.tools ++ l) (sym m)
  | nowhere m t ↦ ap (λ l. carriers (cut_at l (cleared req))) (last_nowhere (cleared req) m t)
]

last-projection : (req : ChatRequest) → last_cache_marker (projection req) ≡ last_cache_marker req
last-projection req =
    last_cache_marker-last_or (projection req)
    ∙ ap (last_or none) (carriers-projection req)
    ∙ sym (last_cache_marker-last_or req)

take-take {ℓ} : {A : Type ℓ} (n : ℕ) (xs : List A) → take n (take n xs) ≡ take n xs
take-take zero xs = refl
take-take (suc n) [] = refl
take-take (suc n) (x ∷ xs) = ap (λ l. x ∷ l) (take-take n xs)

cut_block_idem :
    (o : Option ℕ) (b : Option RequestBlock) → cut_block o (cut_block o b) ≡ cut_block o b
unfolding cut_block with_content get_tool_result content_of
cut_block_idem none b = refl
cut_block_idem (some n) b = ground (arith, take-take (suc n) (content_of (get_tool_result b)))

truncate_blocks_idem :
    (n : ℕ) (o : Option ℕ) (bs : List (Option RequestBlock))
    → truncate_blocks n o (truncate_blocks n o bs) ≡ truncate_blocks n o bs
unfolding truncate_blocks
truncate_blocks_idem n o [] = refl
truncate_blocks_idem zero o (b ∷ bs) = ap (λ x. x ∷ []) (cut_block_idem o b)
truncate_blocks_idem (suc n) o (b ∷ bs) = ap (λ l. b ∷ l) (truncate_blocks_idem n o bs)

truncate_message_idem :
    (n : ℕ) (o : Option ℕ) (m : Option Message)
    → truncate_message n o (truncate_message n o m) ≡ truncate_message n o m
unfolding truncate_message
truncate_message_idem n o none = refl
truncate_message_idem n o (some m) =
    ap (λ bs. some (record { role = m.role; blocks = bs; unknown_fields = [] }))
      (truncate_blocks_idem n o m.blocks)

cut_messages_idem :
    (i j : ℕ) (o : Option ℕ) (ms : List (Option Message))
    → cut_messages i j o (cut_messages i j o ms) ≡ cut_messages i j o ms
unfolding cut_messages update_at
cut_messages_idem i j o [] = refl
cut_messages_idem zero j o (m ∷ ms) = ap (λ x. x ∷ []) (truncate_message_idem j o m)
cut_messages_idem (suc i) j o (m ∷ ms) = ap (λ l. m ∷ l) (cut_messages_idem i j o ms)

cut_at_idem : (p : Option MarkerPos) (out : ChatRequest) → cut_at p (cut_at p out) ≡ cut_at p out
unfolding cut_at
cut_at_idem none out = refl
cut_at_idem (some (tool i)) out =
    ap (λ ts. record out { tools = ts; messages = [] }) (take-take (suc i) out.tools)
cut_at_idem (some (top_level i j)) out =
    ap (λ ms. record out { messages = ms }) (cut_messages_idem i j none out.messages)
cut_at_idem (some (nested i j k)) out =
    ap (λ ms. record out { messages = ms }) (cut_messages_idem i j (some k) out.messages)

cleared-cut_at :
    (p : Option MarkerPos) (out : ChatRequest) → cleared (cut_at p out) ≡ cut_at p (cleared out)
unfolding cut_at
cleared-cut_at none out = refl
cleared-cut_at (some (tool i)) out = refl
cleared-cut_at (some (top_level i j)) out = refl
cleared-cut_at (some (nested i j k)) out = refl

pub last-cleared : (req : ChatRequest) → last_cache_marker (cleared req) ≡ last_cache_marker req
unfolding last_cache_marker
last-cleared req = refl

-- The projection is its own projection.
pub projection_idem : (req : ChatRequest) → projection (projection req) ≡ projection req
unfolding projection
projection_idem req =
    let l = last_cache_marker (cleared req) in
    ap (λ p. cut_at p (cleared (projection req)))
      (last-cleared (projection req) ∙ last-projection req ∙ sym (last-cleared req))
    ∙ ap (cut_at l) (cleared-cut_at l (cleared req))
    ∙ cut_at_idem l (cleared req)
