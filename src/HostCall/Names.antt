-- ===== src/HostCall/Names.antt =====
-- The strings in host-call arguments: slots, suggestion tokens and texts, logical paths, header
-- names and request paths.
use torana_plugin_sdk.Prelude.{
  ℕ, suc, Bool, true, false, not, ◌&&◌, ◌||◌, Bytes, List, [], ◌∷◌, Check, ok, err, ◌>>◌, refuse_if,
  is_empty, ◌==◌, ltb, within, length, codes, bytes_eq, if◌then◌else◌,
}
use torana_plugin_sdk.GoStd.Utf8.{utf8_valid}
use torana_plugin_sdk.GoStd.Strings.{
  has_prefix, contains_byte, split, runes, rune_count, is_control, is_blank, all_bytes,
}
use torana_plugin_sdk.RequestValidate.Fields.{FieldError}
use torana_plugin_sdk.RequestValidate.Blocks.{RequestError}
use torana_plugin_sdk.Envelope.Closed.{ClosedError}
use torana_plugin_sdk.Envelope.Hooks.{EnvelopeError}

pub data HostCallError : Type 0 where
  nil_message unknown_fields no_result nil_arm error_not_classified : HostCallError
  status_out_of_range no_code no_route unknown_effort no_identity negative_block_index :
      HostCallError
  unbounded_suggestion too_many_actions unbounded_action bad_cost bad_target_model : HostCallError
  expiry_too_long no_suggestion_id no_key bad_ttl : HostCallError
  slot_length slot_character path_length path_not_relative path_segment : HostCallError
  header_name duplicate_header header_line_break : HostCallError
  no_method bad_method bad_request_path bad_http_status : HostCallError
  no_messages bad_max_tokens bad_temperature not_utf8 no_completion negative_usage : HostCallError
  bad_price no_provider_or_model no_format no_context_window bad_effort_level : HostCallError
  bad_ttl_seconds bad_multiplier no_prices_or_tiers bad_warm_interval : HostCallError
  warm_without_refresh duplicate_ttl warm_not_below_shortest : HostCallError
  no_blocks no_block_kind host_owned_field bad_finish_reason unknown_resource_kind : HostCallError
  no_version bad_expected_version version_not_applied bad_limit page_too_long : HostCallError
  keys_not_ordered : HostCallError
  closed : ClosedError → HostCallError
  json : FieldError → HostCallError
  request : RequestError → HostCallError
  envelope : EnvelopeError → HostCallError

-- A letter or a digit.
abbrev pub is_alnum : ℕ → Bool
is_alnum c = within b'a' b'z' c || within b'A' b'Z' c || within b'0' b'9' c

-- `_`, `-` or `.`
abbrev pub is_joint : ℕ → Bool
is_joint c = c == b'_' || c == b'-' || c == b'.'

-- The loop of `validSuggestionToken`, from position `i` on.
unfoldable pub token_loop : ℕ → Bytes → Bool
token_loop i [] = true
token_loop i (c ∷ cs) = (is_alnum c || (ltb 0 i && is_joint c)) && token_loop (suc i) cs

-- `validSuggestionToken`
unfoldable pub valid_suggestion_token : Bytes → ℕ → Bool
valid_suggestion_token value max =
    if length value == 0 || ltb max (length value) then false else token_loop 0 value

any_control : List ℕ → Bool
any_control [] = false
any_control (r ∷ rs) = is_control r || any_control rs

-- `validSuggestionText`
unfoldable pub valid_suggestion_text : Bytes → ℕ → Bool
unfolding any_control
valid_suggestion_text value max =
    if not (utf8_valid value) || is_blank value || ltb max (rune_count value)
    then false
    else not (any_control (runes value))

-- The loop of `validateSlot`.
unfoldable pub slot_loop : ℕ → Bytes → Check HostCallError
slot_loop i [] = ok tt
slot_loop i (c ∷ cs) =
    let rest = slot_loop (suc i) cs in
    if is_alnum c || (ltb 0 i && (c == b'.' || c == b'_' || c == b'-'))
    then rest
    else err slot_character

-- `validateSlot`
unfoldable pub validate_slot : Bytes → Check HostCallError
validate_slot slot =
    refuse_if (is_empty slot || ltb 64 (length slot)) slot_length >> slot_loop 0 slot

-- A segment that a logical path must not have.
unfoldable pub bad_segment : Bytes → Bool
bad_segment part = is_empty part || bytes_eq part (codes ".") || bytes_eq part (codes "..")

unfoldable pub check_segments : List Bytes → Check HostCallError
check_segments [] = ok tt
check_segments (part ∷ parts) = refuse_if (bad_segment part) path_segment >> check_segments parts

-- `validateLogicalPath`
unfoldable pub validate_logical_path : Bytes → Bool → Check HostCallError
validate_logical_path value empty_ok =
    if is_empty value && empty_ok
    then ok tt
    else refuse_if (is_empty value || ltb 240 (length value) || not (utf8_valid value)) path_length
      >> refuse_if (has_prefix value (codes "/") || contains_byte value b'\\') path_not_relative
      >> check_segments (split value b'/')

-- `validHeaderName`
unfoldable pub valid_header_name : Bytes → Bool
valid_header_name name =
    if is_empty name
    then false
    else all_bytes (λ c. is_alnum c || contains_byte (codes "!#$%&'*+-.^_`|~") c) name

-- A method of capital letters.
unfoldable pub valid_method : Bytes → Bool
valid_method = all_bytes (within b'A' b'Z')

is_hex : ℕ → Bool
is_hex c = within b'0' b'9' c || within b'a' b'f' c || within b'A' b'F' c

-- `%` only before two hexadecimal digits, up to a query.
escapes_valid : Bytes → Bool
escapes_valid [] = true
escapes_valid (c ∷ cs) =
    let rest = escapes_valid cs in
    if c == b'?' then true else if c == b'%' then hex_pair cs && rest else rest
  where
    hex_pair : Bytes → Bool
    hex_pair (a ∷ b ∷ _) = is_hex a && is_hex b
    hex_pair _ = false

-- `url.ParseRequestURI` on a path that starts with one `/`: it has no scheme and no authority then,
-- and fails on a control character or a bad escape in front of the query.
unfoldable pub request_uri_valid : Bytes → Bool
unfolding escapes_valid is_hex
request_uri_valid path = all_bytes (λ c. not (ltb c 0x20 || c == 0x7F)) path && escapes_valid path

-- The checks on `x.Path` of an outbound request.
unfoldable pub request_path_valid : Bytes → Bool
request_path_valid path =
    has_prefix path (codes "/")
    && not (has_prefix path (codes "//") || contains_byte path b'#')
    && request_uri_valid path
