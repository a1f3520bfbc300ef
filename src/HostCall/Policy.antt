-- ===== src/HostCall/Policy.antt =====
-- Model completions, prices, capabilities and prompt-cache policies.
use torana_plugin_sdk.Prelude.{
  ℕ, ◌^◌, Bool, true, false, not, ◌&&◌, ◌||◌, Bytes, List, [], ◌∷◌, Option, none, some, Check, ok,
  err, ◌>>◌, refuse_if, is_empty, within, ◌==◌, ltb, leb, if◌then◌else◌,
}
use torana_plugin_sdk.GoStd.Utf8.{utf8_valid}
use torana_plugin_sdk.GoStd.Strings.{is_blank}
use torana_plugin_sdk.Proto.Request.{ChatRequest}
use torana_plugin_sdk.Proto.HostCall.{
  ModelCompleteArgs, Usage, ModelCompleteResult, ResourceGetArgs, ModelPricing,
  ModelCapabilitiesArgs, ModelCapabilities, PromptCacheTier, PromptCachePolicy,
}
use torana_plugin_sdk.RequestValidate.{validate_replacement, not_finite_float}
use torana_plugin_sdk.RequestValidate.Fields.{validate_json_object}
use torana_plugin_sdk.RequestValidate.Blocks.{is_some}
use torana_plugin_sdk.Envelope.Hooks.{validate_response_blocks}
use torana_plugin_sdk.HostCall.Names.{
  HostCallError, nil_message, unknown_fields, no_messages, bad_max_tokens, bad_temperature,
  not_utf8, no_completion, negative_usage, bad_price, no_provider_or_model, no_format,
  no_context_window, bad_effort_level, bad_ttl_seconds, bad_multiplier, no_prices_or_tiers,
  bad_warm_interval, warm_without_refresh, duplicate_ttl, warm_not_below_shortest, json, request,
  envelope, validate_slot,
}

-- `fmt.Errorf("…: %w", err)`, and an error passed on
abbrev pub lift {κ} : {E : Type κ} → (E → HostCallError) → Check E → Check HostCallError
lift f (ok _) = ok tt
lift f (err e) = err (f e)

unfoldable pub no_unknown : Bytes → Check HostCallError
no_unknown bs = refuse_if (not (is_empty bs)) unknown_fields

-- `rate < 0` of a finite float64 pattern: the sign bit, and not minus zero
abbrev negative_float : Option ℕ → Bool
negative_float none = false
negative_float (some bits) = ltb (2 ^ 63) bits

-- `rate != nil && (math.IsNaN(*rate) || math.IsInf(*rate, 0) || *rate < 0)`
abbrev pub bad_rate : Option ℕ → Bool
bad_rate rate = not_finite_float rate || negative_float rate

-- A field that is present and zero.
abbrev pub is_zero : Option ℕ → Bool
is_zero none = false
is_zero (some n) = n == 0

-- The request that `ModelCompleteArgs.Validate` makes of its fields.
unfoldable pub completion_request : ModelCompleteArgs → ChatRequest
completion_request x = record {
  model = [];
  messages = x.messages;
  tools = x.tools;
  stream = false;
  max_tokens = none;
  temperature = none;
  top_p = none;
  stop_sequences = [];
  provider_extensions_json = [];
  safety_settings_json = [];
  torana_meta_json = [];
  output_format = x.output_format;
  unknown_fields = [];
}

-- `ModelCompleteArgs.Validate`
unfoldable pub validate_model_complete : Option ModelCompleteArgs → Check HostCallError
validate_model_complete none = err nil_message
validate_model_complete (some x) =
    no_unknown x.unknown_fields
    >> validate_slot x.service
    >> refuse_if (is_empty x.messages) no_messages
    >> lift request (validate_replacement (some (completion_request x)))
    >> refuse_if (is_zero x.max_tokens) bad_max_tokens
    >> refuse_if (not_finite_float x.temperature) bad_temperature

-- An int32 pattern whose sign bit is set.
abbrev negative_count : ℕ → Bool
negative_count n = leb (2 ^ 31) n

unfoldable pub check_usage : Option Usage → Check HostCallError
check_usage none = ok tt
check_usage (some u) =
    refuse_if
      (negative_count u.input_tokens
        || negative_count u.output_tokens
        || negative_count u.cache_read_tokens
        || negative_count u.cache_write_tokens)
      negative_usage
    >> no_unknown u.unknown_fields

module _ (floats_fit : Bytes → Bool) where
  -- `ModelCompleteResult.Validate`
  unfoldable pub validate_model_result : Option ModelCompleteResult → Check HostCallError
  validate_model_result none = err nil_message
  validate_model_result (some x) =
      no_unknown x.unknown_fields
      >> refuse_if (not (utf8_valid x.reported_model && utf8_valid x.finish_reason)) not_utf8
      >> elim x.message [
        | none ↦ err no_completion
        | some m ↦ lift envelope (validate_response_blocks floats_fit m.blocks)
      ]
      >> check_usage x.usage

-- `ModelPricingGetArgs.Validate` and `PromptCachePolicyGetArgs.Validate`
unfoldable pub validate_resource_get : Option ResourceGetArgs → Check HostCallError
validate_resource_get none = err nil_message
validate_resource_get (some x) = no_unknown x.unknown_fields >> validate_slot x.resource

-- `ModelPricing.Validate`
unfoldable pub validate_pricing : Option ModelPricing → Check HostCallError
validate_pricing none = err nil_message
validate_pricing (some x) =
    no_unknown x.unknown_fields
    >> refuse_if (bad_rate x.input_usd_per_mtok) bad_price
    >> refuse_if (bad_rate x.output_usd_per_mtok) bad_price
    >> refuse_if (bad_rate x.cache_read_usd_per_mtok) bad_price
    >> refuse_if (bad_rate x.cache_write_usd_per_mtok) bad_price

-- `ModelCapabilitiesArgs.Validate`
unfoldable pub validate_capabilities_args : Option ModelCapabilitiesArgs → Check HostCallError
validate_capabilities_args none = err no_provider_or_model
validate_capabilities_args (some x) =
    refuse_if (is_blank x.provider || is_blank x.model) no_provider_or_model

-- Membership in a map that is used as a set of numbers.
unfoldable pub seen_number : ℕ → List ℕ → Bool
seen_number n [] = false
seen_number n (m ∷ ms) = n == m || seen_number n ms

-- `validEffort`, on an int32 pattern
abbrev pub valid_effort : ℕ → Bool
valid_effort value = within 0 6 value

unfoldable pub effort_loop : List ℕ → List ℕ → Check HostCallError
effort_loop seen [] = ok tt
effort_loop seen (level ∷ levels) =
    refuse_if (not (valid_effort level) || level == 0 || seen_number level seen) bad_effort_level
    >> effort_loop (level ∷ seen) levels

-- `ModelCapabilities.Validate`
unfoldable pub validate_capabilities : Option ModelCapabilities → Check HostCallError
validate_capabilities none = err no_format
validate_capabilities (some x) =
    refuse_if (is_blank x.format) no_format
    >> refuse_if (is_zero x.context_window_tokens) no_context_window
    >> effort_loop [] x.effort_levels
    >> (if is_some x.pricing then validate_pricing x.pricing else ok tt)

-- `PromptCacheTier.Validate`
unfoldable pub validate_tier : Option PromptCacheTier → Check HostCallError
validate_tier none = err nil_message
validate_tier (some x) =
    no_unknown x.unknown_fields
    >> refuse_if (x.ttl_seconds == 0) bad_ttl_seconds
    >> refuse_if (bad_rate x.write_multiplier) bad_multiplier
    >> lift json (validate_json_object x.marker_json)

-- The loop over the tiers; a nil tier has failed its `Validate`.
unfoldable pub tiers_loop : List ℕ → List (Option PromptCacheTier) → Check HostCallError
tiers_loop seen [] = ok tt
tiers_loop seen (none ∷ ts) = validate_tier none
tiers_loop seen (some t ∷ ts) =
    validate_tier (some t)
    >> refuse_if (seen_number t.ttl_seconds seen) duplicate_ttl
    >> tiers_loop (t.ttl_seconds ∷ seen) ts

unfoldable pub shortest_loop : ℕ → List (Option PromptCacheTier) → ℕ × Bool
shortest_loop shortest [] = (shortest, true)
shortest_loop shortest (none ∷ ts) = (0, false)
shortest_loop shortest (some t ∷ ts) =
    shortest_loop (if ltb t.ttl_seconds shortest then t.ttl_seconds else shortest) ts

-- `shortestPromptCachePolicyTTL`, on a policy that is not nil
unfoldable pub shortest_ttl : List (Option PromptCacheTier) → ℕ × Bool
shortest_ttl [] = (0, false)
shortest_ttl (none ∷ ts) = (0, false)
shortest_ttl (some t ∷ ts) = shortest_loop t.ttl_seconds ts

unfoldable pub check_warm : Option ℕ → List (Option PromptCacheTier) → Check HostCallError
check_warm none tiers = ok tt
check_warm (some warm) tiers =
    let shortest = (shortest_ttl tiers).0 in
    refuse_if (shortest == 0 || leb shortest warm) warm_not_below_shortest

-- `PromptCachePolicy.Validate`
unfoldable pub validate_policy : Option PromptCachePolicy → Check HostCallError
validate_policy none = err nil_message
validate_policy (some x) =
    no_unknown x.unknown_fields
    >> refuse_if (bad_rate x.cache_read_usd_per_mtok) bad_price
    >> refuse_if (bad_rate x.cache_write_usd_per_mtok) bad_price
    >> refuse_if
        (not (is_some x.cache_read_usd_per_mtok)
          && not (is_some x.cache_write_usd_per_mtok)
          && is_empty x.tiers)
        no_prices_or_tiers
    >> refuse_if (is_zero x.warm_interval_seconds) bad_warm_interval
    >> refuse_if (is_some x.warm_interval_seconds && not x.refresh_on_read) warm_without_refresh
    >> tiers_loop [] x.tiers
    >> check_warm x.warm_interval_seconds x.tiers
