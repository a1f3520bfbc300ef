-- ===== src/ObservablePrefix/Split.antt =====
-- Where the last carrier of a list of tools, contents, blocks or messages stands, and that cutting
-- the list there loses no carrier.
use mathlib.Core.List.{append-nil}
use torana_plugin_sdk.Prelude.{
  ℕ, suc, ◌+◌, ◌<◌, List, [], ◌∷◌, ◌++◌, Option, none, some, ◌≡◌, ◌⊎◌, inl, inr, refl, ap, sym, ◌∙◌,
  arith, take, length, Bool-cases,
}
use torana_plugin_sdk.Proto.Request.{
  ContentBlock, RequestBlock, Message, ToolDef, get_tool_result, get_cache_breakpoint,
}
use torana_plugin_sdk.ObservablePrefix.{
  MarkerPos, tool, top_level, nested, is_tool_carrier, is_block_carrier, is_content_carrier,
  content_of, blocks_of, update_at, with_content, cut_block, truncate_blocks, truncate_message,
  cut_messages,
}
use torana_plugin_sdk.ObservablePrefix.Carriers.{
  carrier_if, tool_carriers, content_carriers, own_carriers, block_carriers, message_carriers,
  last_or, last_or-append,
}

-- The position of a carrier in block `j` of message `i`: the block itself, or its content `k`.
abbrev pub place : ℕ → ℕ → Option ℕ → MarkerPos
place i j none = top_level i j
place i j (some k) = nested i j k

-- `ps` is not empty and ends in `p`.
abbrev pub EndsIn : List MarkerPos → MarkerPos → Type 0
EndsIn ps p = (d : Option MarkerPos) → last_or d ps ≡ some p

EndsIn-append : (xs ys : List MarkerPos) (p : MarkerPos) → EndsIn ys p → EndsIn (xs ++ ys) p
EndsIn-append xs ys p h d = last_or-append d xs ys ∙ h (last_or d xs)

pub record ToolSplit (i : ℕ) (ts : List (Option ToolDef)) : Type 0 where
  pub at : ℕ
  pub ends : EndsIn (tool_carriers i ts) (tool (i + at))
  pub cut : tool_carriers i (take (suc at) ts) ≡ tool_carriers i ts
  pub inside : at < length ts

pub split_tools : (i : ℕ) (ts : List (Option ToolDef)) → (tool_carriers i ts ≡ []) ⊎ ToolSplit i ts
unfolding tool_carriers
split_tools i [] = inl refl
split_tools i (t ∷ ts) = elim (split_tools (i + 1) ts) [
  | inr s ↦ inr (record {
    at = suc s.at;
    ends = λ d.
        EndsIn-append (carrier_if (is_tool_carrier t) (tool i)) _ _ s.ends d
        ∙ ap (λ x. some (tool x)) (omega arith);
    cut = ap (λ l. carrier_if (is_tool_carrier t) (tool i) ++ l) s.cut;
    inside = omega (arith, s.inside);
  })
  | inl none_left ↦ elim (Bool-cases (is_tool_carrier t)) [
    | inl e ↦ inr (record {
      at = 0;
      ends = λ d. rw (e, none_left) (ap (λ x. some (tool x)) (omega arith));
      cut = rw none_left;
      inside = omega arith;
    })
    | inr e ↦ inl (rw (e, none_left))
  ]
]

record ContentSplit (i j k : ℕ) (cs : List (Option ContentBlock)) : Type 0 where
  pub at : ℕ
  pub ends : EndsIn (content_carriers i j k cs) (nested i j (k + at))
  pub cut : content_carriers i j k (take (suc at) cs) ≡ content_carriers i j k cs

split_content :
    (i j k : ℕ) (cs : List (Option ContentBlock))
    → (content_carriers i j k cs ≡ []) ⊎ ContentSplit i j k cs
unfolding content_carriers
split_content i j k [] = inl refl
split_content i j k (c ∷ cs) = elim (split_content i j (k + 1) cs) [
  | inr s ↦ inr (record {
    at = suc s.at;
    ends = λ d.
        EndsIn-append (carrier_if (is_content_carrier c) (nested i j k)) _ _ s.ends d
        ∙ ap (λ x. some (nested i j x)) (omega arith);
    cut = ap (λ l. carrier_if (is_content_carrier c) (nested i j k) ++ l) s.cut;
  })
  | inl none_left ↦ elim (Bool-cases (is_content_carrier c)) [
    | inl e ↦ inr (record {
      at = 0;
      ends = λ d. rw (e, none_left) (ap (λ x. some (nested i j x)) (omega arith));
      cut = rw none_left;
    })
    | inr e ↦ inl (rw (e, none_left))
  ]
]

-- The block `b` as the marker block: its carriers, if it has any, end in `place i j at`.
record OwnSplit (i j : ℕ) (b : Option RequestBlock) : Type 0 where
  pub at : Option ℕ
  pub ends : EndsIn (own_carriers i j b) (place i j at)
  pub cut : own_carriers i j (cut_block at b) ≡ own_carriers i j b

content-with_content :
    (n : ℕ) (b : Option RequestBlock)
    → content_of (get_tool_result (cut_block (some n) b))
      ≡ take (suc n) (content_of (get_tool_result b))
unfolding cut_block with_content content_of get_tool_result
content-with_content n b = ground arith

is_block_carrier-cut :
    (n : ℕ) (b : Option RequestBlock) → is_block_carrier (cut_block (some n) b) ≡ is_block_carrier b
unfolding cut_block with_content is_block_carrier get_cache_breakpoint get_tool_result
is_block_carrier-cut n b = ground arith

split_own : (i j : ℕ) (b : Option RequestBlock) → (own_carriers i j b ≡ []) ⊎ OwnSplit i j b
unfolding own_carriers cut_block
split_own i j b = elim (split_content i j 0 (content_of (get_tool_result b))) [
  | inr s ↦ inr (record {
    at = some s.at;
    ends = λ d.
        EndsIn-append (carrier_if (is_block_carrier b) (top_level i j)) _ _ s.ends d
        ∙ ap (λ x. some (nested i j x)) (omega arith);
    cut = rw (content-with_content s.at b, is_block_carrier-cut s.at b, s.cut);
  })
  | inl none_left ↦ elim (Bool-cases (is_block_carrier b)) [
    | inl e ↦ inr (record { at = none; ends = λ d. rw (e, none_left); cut = refl })
    | inr e ↦ inl (rw (e, none_left))
  ]
]

pub record BlockSplit (i j : ℕ) (bs : List (Option RequestBlock)) : Type 0 where
  pub at : ℕ
  pub within : Option ℕ
  pub ends : EndsIn (block_carriers i j bs) (place i (j + at) within)
  pub cut : block_carriers i j (truncate_blocks at within bs) ≡ block_carriers i j bs

split_blocks :
    (i j : ℕ) (bs : List (Option RequestBlock)) → (block_carriers i j bs ≡ []) ⊎ BlockSplit i j bs
unfolding block_carriers truncate_blocks
split_blocks i j [] = inl refl
split_blocks i j (b ∷ bs) = elim (split_blocks i (j + 1) bs) [
  | inr s ↦ inr (record {
    at = suc s.at;
    within = s.within;
    ends = λ d.
        EndsIn-append (own_carriers i j b) _ _ s.ends d
        ∙ ap (λ x. some (place i x s.within)) (omega arith);
    cut = ap (λ l. own_carriers i j b ++ l) s.cut;
  })
  | inl none_left ↦ elim (split_own i j b) [
    | inr s ↦ inr (record {
      at = 0;
      within = s.at;
      ends = λ d.
          ap (last_or d) (ap (λ l. own_carriers i j b ++ l) none_left ∙ append-nil _)
          ∙ s.ends d
          ∙ ap (λ x. some (place i x s.at)) (omega arith);
      cut = ap (λ l. l ++ []) s.cut ∙ ap (λ l. own_carriers i j b ++ l) (sym none_left);
    })
    | inl e ↦ inl (ap (λ l. l ++ block_carriers i (j + 1) bs) e ∙ none_left)
  ]
]

pub record MessageSplit (i : ℕ) (ms : List (Option Message)) : Type 0 where
  pub at : ℕ
  pub block : ℕ
  pub within : Option ℕ
  pub ends : EndsIn (message_carriers i ms) (place (i + at) block within)
  pub cut : message_carriers i (cut_messages at block within ms) ≡ message_carriers i ms
  pub inside : at < length ms

blocks_of-truncate :
    (n : ℕ) (o : Option ℕ) (m : Option Message)
    → blocks_of (truncate_message n o m) ≡ truncate_blocks n o (blocks_of m)
unfolding blocks_of truncate_message truncate_blocks
blocks_of-truncate n o none = refl
blocks_of-truncate n o (some m) = refl

pub split_messages :
    (i : ℕ) (ms : List (Option Message)) → (message_carriers i ms ≡ []) ⊎ MessageSplit i ms
unfolding message_carriers cut_messages update_at
split_messages i [] = inl refl
split_messages i (m ∷ ms) = elim (split_messages (i + 1) ms) [
  | inr s ↦ inr (record {
    at = suc s.at;
    block = s.block;
    within = s.within;
    ends = λ d.
        EndsIn-append (block_carriers i 0 (blocks_of m)) _ _ s.ends d
        ∙ ap (λ x. some (place x s.block s.within)) (omega arith);
    cut = ap (λ l. block_carriers i 0 (blocks_of m) ++ l) s.cut;
    inside = omega (arith, s.inside);
  })
  | inl none_left ↦ elim (split_blocks i 0 (blocks_of m)) [
    | inr s ↦ inr (record {
      at = 0;
      block = s.at;
      within = s.within;
      ends = λ d.
          ap (last_or d) (ap (λ l. block_carriers i 0 (blocks_of m) ++ l) none_left ∙ append-nil _)
          ∙ s.ends d
          ∙ ap (λ x. some (place i x s.within)) (omega arith)
          ∙ ap (λ x. some (place x s.at s.within)) (omega arith);
      cut =
          ap (λ l. block_carriers i 0 l ++ []) (blocks_of-truncate s.at s.within m)
          ∙ ap (λ l. l ++ []) s.cut
          ∙ ap (λ l. block_carriers i 0 (blocks_of m) ++ l) (sym none_left);
      inside = omega arith;
    })
    | inl e ↦ inl (ap (λ l. l ++ message_carriers (i + 1) ms) e ∙ none_left)
  ]
]
