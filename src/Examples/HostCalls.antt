-- ===== src/Examples/HostCalls.antt =====
-- The theorems on the host-call validators at concrete arguments.
use torana_plugin_sdk.Prelude.{
  ℕ, ◌≤◌, ◌<◌, true, false, Bytes, List, [], ◌∷◌, Option, none, some, ok, codes, length, get_elem?,
  ◌≡◌, ◌≢◌, ◌↔◌, refl, arith, bytes_eq,
}
use torana_plugin_sdk.GoStd.Utf8.{utf8_valid, utf8_step}
use torana_plugin_sdk.GoStd.Strings.{has_prefix, contains_byte, split, prepend, to_lower, all_bytes}
use torana_plugin_sdk.Proto.HostCall.{HttpHeader, PromptCacheTier, PromptCachePolicy}
use torana_plugin_sdk.Samples.Open.{run_json}
use torana_plugin_sdk.RequestValidate.Fields.{validate_json_object}
use torana_plugin_sdk.HostCall.Names.{
  validate_logical_path, check_segments, bad_segment, valid_header_name, validate_slot,
  valid_suggestion_token,
}
use torana_plugin_sdk.HostCall.Headers.{
  seen_name, check_values, headers_loop, validate_http_headers,
}
use torana_plugin_sdk.HostCall.Policy.{
  no_unknown, validate_tier, tiers_loop, seen_number, shortest_loop, shortest_ttl, check_warm,
  validate_policy,
}
use torana_plugin_sdk.HostCall.Paths.{
  join, location, accepted_path_resolved, accepted_paths_distinct,
}
use torana_plugin_sdk.HostCall.Unique.{Fresh, accepted_headers, validate_slot_iff}
use torana_plugin_sdk.HostCall.CachePolicy.{FreshTier, accepted_policy}

abbrev log_path : Bytes
log_path = codes "logs/a.b"

abbrev other_path : Bytes
other_path = codes "logs/..c"

log_path-accepted : validate_logical_path log_path false ≡ ok tt
unfolding validate_logical_path check_segments bad_segment has_prefix contains_byte split prepend
    utf8_valid utf8_step bytes_eq
log_path-accepted = refl

other_path-accepted : validate_logical_path other_path false ≡ ok tt
unfolding validate_logical_path check_segments bad_segment has_prefix contains_byte split prepend
    utf8_valid utf8_step bytes_eq
other_path-accepted = refl

paths_differ : log_path ≢ other_path
paths_differ e = absurd (ground arith)

accepted_path_resolved_example :
    (length log_path ≤ 240) × (utf8_valid log_path ≡ true) × (join (location log_path) ≡ log_path)
accepted_path_resolved_example = accepted_path_resolved log_path log_path-accepted

accepted_paths_distinct_example : location log_path ≢ location other_path
accepted_paths_distinct_example =
    accepted_paths_distinct log_path other_path log_path-accepted other_path-accepted paths_differ

validate_slot_iff_example :
    (validate_slot (codes "a.b-1") ≡ ok tt) ↔ (valid_suggestion_token (codes "a.b-1") 64 ≡ true)
validate_slot_iff_example = validate_slot_iff (codes "a.b-1")

abbrev two_headers : List (Option HttpHeader)
two_headers =
    some (record { name = codes "X-Id"; values = codes "1" ∷ [] })
    ∷ some (record { name = codes "etag"; values = codes "a b" ∷ codes "c" ∷ [] })
    ∷ []

headers-accepted : validate_http_headers two_headers ≡ ok tt
unfolding validate_http_headers headers_loop check_values seen_name valid_header_name all_bytes
    to_lower contains_byte bytes_eq
headers-accepted = refl

accepted_headers_example :
    ((i : ℕ) (o : Option HttpHeader) → get_elem? two_headers i ≡ some o → Fresh [] o)
    × ((i j : ℕ) (h k : HttpHeader)
        → get_elem? two_headers i ≡ some (some h)
        → get_elem? two_headers j ≡ some (some k)
        → to_lower h.name ≡ to_lower k.name
        → i ≡ j)
accepted_headers_example = accepted_headers two_headers headers-accepted

abbrev tier : ℕ → Option PromptCacheTier
tier ttl = some (record {
  ttl_seconds = ttl;
  write_multiplier = none;
  marker_json = codes "{}";
  unknown_fields = [];
})

abbrev policy : PromptCachePolicy
policy = record {
  cache_read_usd_per_mtok = none;
  cache_write_usd_per_mtok = none;
  refresh_on_read = true;
  tiers = tier 3600 ∷ tier 300 ∷ [];
  warm_interval_seconds = some 240;
  unknown_fields = [];
}

policy-accepted : validate_policy (some policy) ≡ ok tt
unfolding validate_policy no_unknown tiers_loop validate_tier validate_json_object run_json
    seen_number check_warm shortest_ttl shortest_loop
policy-accepted = refl

accepted_policy_example :
    ((i : ℕ) (o : Option PromptCacheTier) → get_elem? policy.tiers i ≡ some o → FreshTier [] o)
    × ((i j : ℕ) (t u : PromptCacheTier)
        → get_elem? policy.tiers i ≡ some (some t)
        → get_elem? policy.tiers j ≡ some (some u)
        → t.ttl_seconds ≡ u.ttl_seconds
        → i ≡ j)
    × ((warm : ℕ)
        → policy.warm_interval_seconds ≡ some warm
        → (0 < warm)
          × (policy.refresh_on_read ≡ true)
          × ((i : ℕ) (t : PromptCacheTier)
              → get_elem? policy.tiers i ≡ some (some t)
              → warm < t.ttl_seconds))
accepted_policy_example = accepted_policy policy policy-accepted
