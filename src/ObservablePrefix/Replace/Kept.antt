-- ===== src/ObservablePrefix/Replace/Kept.antt =====
-- Writing a marker at a carrier keeps the whole request valid.
use torana_plugin_sdk.Prelude.{
  ℕ, zero, suc, Bool, true, Bytes, List, [], ◌∷◌, Option, none, some, ◌≡◌, refl, arith, Check, ok,
  ◌>>◌, >>-eq-ok, refuse_if, not,
}
use torana_plugin_sdk.Proto.Request.{ContentBlock, BlockKind, RequestBlock, ToolDef, ChatRequest}
use torana_plugin_sdk.RequestValidate.{
  validate_replacement, validate_output_format, not_positive, not_finite_float,
}
use torana_plugin_sdk.RequestValidate.Fields.{
  validate_json_field, required_object, provider_extensions, safety_settings, torana_meta,
}
use torana_plugin_sdk.RequestValidate.Blocks.{
  validate_block, RequestError, check_field, check_no_unknown, invalid_utf8,
  max_tokens_not_positive, not_finite,
}
use torana_plugin_sdk.RequestValidate.Parts.{has_covered_block, validate_messages, validate_tools}
use torana_plugin_sdk.RequestValidate.Utf8Walk.{
  strings_utf8, tools_utf8, blocks_utf8, block_kind_utf8, contents_utf8, content_kind_utf8,
}
use torana_plugin_sdk.GoStd.Utf8.{utf8_valid}
use torana_plugin_sdk.ObservablePrefix.{MarkerPos, tool, top_level, nested, update_at}
use torana_plugin_sdk.ObservablePrefix.Replace.{
  put_marker, set_block_marker, set_nested_marker, set_tool_marker, set_content_marker,
  set_nested_kind, on_blocks,
}
use torana_plugin_sdk.ObservablePrefix.Replace.Valid.{
  KeepsBlock, validate_tools-update_at, validate_messages-update_at, messages_utf8-update_at,
  validate_kind-set, validate_kind-set_nested, >>-replace,
}

module _ (marker : Bytes) where
  contents_utf8-update_at :
      (n : ℕ) (cs : List (Option ContentBlock))
      → contents_utf8 (update_at n (set_content_marker marker) cs) ≡ contents_utf8 cs
  unfolding contents_utf8 update_at set_content_marker content_kind_utf8
  contents_utf8-update_at n [] = refl
  contents_utf8-update_at zero (none ∷ cs) = refl
  contents_utf8-update_at zero (some c ∷ cs) = ground arith
  contents_utf8-update_at (suc n) (none ∷ cs) = contents_utf8-update_at n cs
  contents_utf8-update_at (suc n) (some c ∷ cs) = rw (contents_utf8-update_at n cs)

  kind_utf8-set_nested :
      (n : ℕ) (k : BlockKind)
      → block_kind_utf8 k ≡ true
      → block_kind_utf8 (set_nested_kind n marker k) ≡ true
  unfolding block_kind_utf8 set_nested_kind utf8_valid
  kind_utf8-set_nested n (BlockKind.tool_result none) h = h
  kind_utf8-set_nested n (BlockKind.tool_result (some tr)) h =
      ground (arith, contents_utf8-update_at n tr.content)
  kind_utf8-set_nested n _ h = h

  tools_utf8-update_at :
      (n : ℕ) (ts : List (Option ToolDef))
      → tools_utf8 (update_at n (set_tool_marker marker) ts) ≡ tools_utf8 ts
  unfolding tools_utf8 update_at set_tool_marker
  tools_utf8-update_at n [] = refl
  tools_utf8-update_at zero (none ∷ ts) = refl
  tools_utf8-update_at zero (some t ∷ ts) = refl
  tools_utf8-update_at (suc n) (none ∷ ts) = tools_utf8-update_at n ts
  tools_utf8-update_at (suc n) (some t ∷ ts) = rw (tools_utf8-update_at n ts)

module _ (marker : Bytes) (valid : validate_json_field marker required_object ≡ ok tt) where
  KeepsBlock-set : KeepsBlock (set_block_marker marker)
  unfolding set_block_marker validate_block has_covered_block blocks_utf8 block_kind_utf8
  KeepsBlock-set = record {
    valid = λ p. elim [
      | none ↦ λ h. h
      | some b ↦ λ h. >>-replace _ _ _ (validate_kind-set marker valid p b.kind) h
    ];
    covered = λ b bs. ground arith;
    utf8 = λ b bs h. ground arith;
  }

  KeepsBlock-set_nested : (n : ℕ) → KeepsBlock (set_nested_marker n marker)
  unfolding set_nested_marker validate_block has_covered_block blocks_utf8
  KeepsBlock-set_nested n = record {
    valid = λ p. elim [
      | none ↦ λ h. h
      | some b ↦ λ h. >>-replace _ _ _ (validate_kind-set_nested marker valid n p b.kind) h
    ];
    covered = λ b bs. ground arith;
    utf8 = elim [
      | none ↦ λ bs h. h
      | some b ↦ λ bs h. ground (arith, kind_utf8-set_nested marker n b.kind)
    ];
  }

-- The checks of `ValidateReplacement`, over the parts that writing a marker may change.
abbrev checks : ChatRequest → Bool → Check RequestError → Check RequestError → Check RequestError
checks x strings messages tools =
    validate_output_format x.output_format
    >> check_no_unknown x.unknown_fields
    >> refuse_if (not strings) invalid_utf8
    >> refuse_if (not_positive x.max_tokens) max_tokens_not_positive
    >> refuse_if (not_finite_float x.temperature) not_finite
    >> refuse_if (not_finite_float x.top_p) not_finite
    >> check_field provider_extensions x.provider_extensions_json
    >> check_field safety_settings x.safety_settings_json
    >> check_field torana_meta x.torana_meta_json
    >> messages
    >> tools

first : (m k : Check RequestError) → (m >> k) ≡ ok tt → m ≡ ok tt
first m k h = ((>>-eq-ok m k).0 h).0

second : (m k : Check RequestError) → (m >> k) ≡ ok tt → k ≡ ok tt
second m k h = ((>>-eq-ok m k).0 h).1

checks-strings :
    (x : ChatRequest) (s : Bool) (m t : Check RequestError) → checks x s m t ≡ ok tt → s ≡ true
checks-strings x s m t h =
    let e = second _ (refuse_if (not s) invalid_utf8) (
      first _ _
        (first _ _ (first _ _ (first _ _ (first _ _ (first _ _ (first _ m (first _ t h)))))))) in
    ground (arith, e)

-- Parts that pass may be replaced by others that pass.
checks-replace :
    (x : ChatRequest) (s s' : Bool) (m m' t t' : Check RequestError)
    → checks x s m t ≡ ok tt
    → (s ≡ true → s' ≡ true)
    → (m ≡ ok tt → m' ≡ ok tt)
    → (t ≡ ok tt → t' ≡ ok tt)
    → checks x s' m' t' ≡ ok tt
checks-replace x s s' m m' t t' h fs fm ft =
    let es = fs (checks-strings x s m t h) in
    let em = fm (second _ m (first _ t h)) in
    let et = ft (second _ t h) in
    cc (checks-strings x s m t h, es, em, et, second _ m (first _ t h), second _ t h, h)

module _ (marker : Bytes) (valid : validate_json_field marker required_object ≡ ok tt) where
  on_messages-valid :
      (f : Option RequestBlock → Option RequestBlock)
      → KeepsBlock f
      → (i j : ℕ) (req : ChatRequest) → validate_replacement (some req) ≡ ok tt
      → validate_replacement
          (some (record req { messages = update_at i (on_blocks (update_at j f)) req.messages }))
        ≡ ok tt
  unfolding validate_replacement strings_utf8
  on_messages-valid f keeps i j req h =
      checks-replace req _ _ (validate_messages req.messages) _ (validate_tools req.tools) _ h
        (λ s. ground (arith, s, messages_utf8-update_at f keeps i j req.messages))
        (validate_messages-update_at f keeps i j req.messages) (λ t. t)

  -- A valid request stays valid when a valid marker is written at any position.
  pub put_marker-valid :
      (p : MarkerPos) (req : ChatRequest)
      → validate_replacement (some req) ≡ ok tt
      → validate_replacement (some (put_marker p marker req)) ≡ ok tt
  unfolding put_marker validate_replacement strings_utf8
  put_marker-valid (tool i) req h =
      checks-replace req _ _ (validate_messages req.messages) _ (validate_tools req.tools) _ h
        (λ s. rw (tools_utf8-update_at marker i req.tools) s) (λ m. m)
        (validate_tools-update_at marker valid i req.tools)
  put_marker-valid (top_level i j) req h =
      on_messages-valid (set_block_marker marker) (KeepsBlock-set marker valid) i j req h
  put_marker-valid (nested i j k) req h =
      on_messages-valid (set_nested_marker k marker) (KeepsBlock-set_nested marker valid k) i j req
        h
