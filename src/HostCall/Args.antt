-- ===== src/HostCall/Args.antt =====
-- The arguments of the verdict, suggestion, metadata, cache and file commands, the result envelope,
-- and the synthetic response.
use torana_plugin_sdk.Prelude.{
  ℕ, Bool, true, false, not, ◌&&◌, ◌||◌, Bytes, List, [], ◌∷◌, Option, none, some, Check, ok, err,
  ◌>>◌, refuse_if, is_empty, within, ◌==◌, ltb, length, codes, bytes_eq, if◌then◌else◌,
}
use torana_plugin_sdk.Proto.Envelope.{ToolCall, ResponseKind, ResponseMessage}
use torana_plugin_sdk.Proto.HostCall.{
  HostError, CallResult, HostCallResult, BlockRequestArgs, RouteRequestArgs, SuggestAction,
  SuggestArgs, CacheSetArgs, SyntheticResponse,
}
use torana_plugin_sdk.RequestValidate.Fields.{validate_json_object}
use torana_plugin_sdk.Envelope.Closed.{Reflected, validate_closed}
use torana_plugin_sdk.Envelope.Hooks.{validate_response_blocks}
use torana_plugin_sdk.Envelope.Stream.{is_negative}
use torana_plugin_sdk.HostCall.Names.{
  HostCallError, nil_message, unknown_fields, nil_arm, error_not_classified, status_out_of_range,
  no_code, no_route, unknown_effort, no_identity, negative_block_index, unbounded_suggestion,
  too_many_actions, unbounded_action, bad_cost, bad_target_model, expiry_too_long, no_suggestion_id,
  no_key, bad_ttl, host_owned_field, bad_finish_reason, closed, json, envelope,
  valid_suggestion_token, valid_suggestion_text, validate_slot, validate_logical_path,
}
use torana_plugin_sdk.HostCall.Policy.{lift, bad_rate, valid_effort}

-- `knownErrorCodes`
unfoldable pub known_error_code : ℕ → Bool
known_error_code code = within 1 7 code

-- `HostError.Validate`
unfoldable pub validate_host_error : Option HostError → Check HostCallError
validate_host_error none = err nil_message
validate_host_error (some x) =
    refuse_if (x.code == 0) error_not_classified
    >> refuse_if (not (known_error_code x.code)) error_not_classified

unfoldable pub validate_call_result : CallResult → Check HostCallError
validate_call_result CallResult.no_result = err HostCallError.no_result
validate_call_result CallResult.nil_value = err nil_arm
validate_call_result CallResult.nil_error = err nil_arm
validate_call_result (CallResult.value v) = ok tt
validate_call_result (CallResult.error none) = err nil_arm
validate_call_result (CallResult.error (some e)) = validate_host_error (some e)

-- `HostCallResult.Validate`
unfoldable pub validate_host_call_result : Option HostCallResult → Check HostCallError
validate_host_call_result none = err nil_message
validate_host_call_result (some x) =
    refuse_if (not (is_empty x.unknown_fields)) unknown_fields >> validate_call_result x.result

-- `blockRequestStatusOK`
abbrev pub block_request_status_ok : ℕ → Bool
block_request_status_ok status = within 400 599 status

-- `BlockRequestArgs.Validate`
unfoldable pub validate_block_request : Option BlockRequestArgs → Check HostCallError
validate_block_request none = err nil_message
validate_block_request (some x) =
    refuse_if (not (block_request_status_ok x.status)) status_out_of_range
    >> refuse_if (is_empty x.code) no_code

-- `RouteRequestArgs.Validate`
unfoldable pub validate_route_request : Option RouteRequestArgs → Check HostCallError
validate_route_request none = err nil_message
validate_route_request (some x) =
    refuse_if (is_empty x.provider && is_empty x.model) no_route
    >> refuse_if (not (valid_effort x.effort)) unknown_effort

unfoldable pub validate_actions : List (Option SuggestAction) → Check HostCallError
validate_actions [] = ok tt
validate_actions (none ∷ rest) = err unbounded_action
validate_actions (some a ∷ rest) =
    refuse_if (not (valid_suggestion_token a.id 64) || not (valid_suggestion_text a.label 80))
      unbounded_action
    >> validate_actions rest

-- The optional target model.
unfoldable pub bad_target : Option Bytes → Bool
bad_target none = false
bad_target (some model) = not (valid_suggestion_text model 256)

-- `SuggestArgs.Validate`
unfoldable pub validate_suggest : Option SuggestArgs → Check HostCallError
unfolding bad_target
validate_suggest none = err nil_message
validate_suggest (some x) =
    refuse_if
      (not (valid_suggestion_token x.kind 64)
        || not (valid_suggestion_token x.dedupe_key 128)
        || not (valid_suggestion_text x.title 120)
        || not (valid_suggestion_text x.body 600))
      unbounded_suggestion
    >> refuse_if (ltb 4 (length x.actions)) too_many_actions
    >> validate_actions x.actions
    >> refuse_if (bad_rate x.cost_usd) bad_cost
    >> refuse_if (bad_target x.harness_target_model) bad_target_model
    >> refuse_if (ltb 100 x.expires_after_user_turns) expiry_too_long

-- `SuggestResult.Validate`, of its id
unfoldable pub validate_suggest_result : Option Bytes → Check HostCallError
validate_suggest_result none = err no_suggestion_id
validate_suggest_result (some id) = refuse_if (is_empty id) no_suggestion_id

-- `SetIdentityArgs.Validate`, of its identity
unfoldable pub validate_set_identity : Option Bytes → Check HostCallError
validate_set_identity none = err nil_message
validate_set_identity (some identity) = refuse_if (is_empty identity) no_identity

-- `MetaAppendArgs.Validate`, of its block index
unfoldable pub validate_meta_append : Option ℕ → Check HostCallError
validate_meta_append none = err nil_message
validate_meta_append (some index) = refuse_if (is_negative index) negative_block_index

-- `Validate` of the arguments MetaGet, MetaSet, CacheGet, StateGet, StateSet and StateDelete, of
-- their key
unfoldable pub validate_key : Option Bytes → Check HostCallError
validate_key none = err nil_message
validate_key (some key) = refuse_if (is_empty key) no_key

-- `*x.TtlMs == 0 || *x.TtlMs > math.MaxInt64/1000000`
abbrev pub bad_ttl_ms : Option ℕ → Bool
bad_ttl_ms none = false
bad_ttl_ms (some ttl) = ttl == 0 || ltb 9223372036854 ttl

-- `CacheSetArgs.Validate`
unfoldable pub validate_cache_set : Option CacheSetArgs → Check HostCallError
validate_cache_set none = err nil_message
validate_cache_set (some x) =
    refuse_if (is_empty x.key) no_key >> refuse_if (bad_ttl_ms x.ttl_ms) bad_ttl

-- `CredentialGetArgs.Validate`, of its slot
unfoldable pub validate_credential_get : Option Bytes → Check HostCallError
validate_credential_get none = err nil_message
validate_credential_get (some slot) = validate_slot slot

-- `Validate` of FileAppendArgs, FileReadArgs, FileWriteArgs and FileDeleteArgs, of their path
unfoldable pub validate_file_path : Option Bytes → Check HostCallError
validate_file_path none = err nil_message
validate_file_path (some path) = validate_logical_path path false

-- `FileListArgs.Validate`, of its prefix
unfoldable pub validate_file_list : Option Bytes → Check HostCallError
validate_file_list none = err nil_message
validate_file_list (some prefix) = validate_logical_path prefix true

check_synthetic_call : ToolCall → Check HostCallError
check_synthetic_call call =
    refuse_if (not (is_empty call.signature) || not (is_empty call.id)) host_owned_field
    >> lift json (validate_json_object call.arguments_json)

-- The loop over the blocks of a synthetic response, with `hasTools` at its end.
unfoldable pub synthetic_blocks : List (Option ResponseKind) → Check HostCallError
unfolding check_synthetic_call
synthetic_blocks [] = ok tt
synthetic_blocks (some (ResponseKind.text (some t)) ∷ bs) = synthetic_blocks bs
synthetic_blocks (some (ResponseKind.text none) ∷ bs) = err nil_arm
synthetic_blocks (some (ResponseKind.tool_call none) ∷ bs) = err nil_arm
synthetic_blocks (some (ResponseKind.tool_call (some c)) ∷ bs) =
    check_synthetic_call c >> synthetic_blocks bs
synthetic_blocks (some ResponseKind.typed_nil ∷ bs) = err nil_arm
synthetic_blocks (_ ∷ bs) = err HostCallError.no_block_kind

unfoldable pub has_tools : List (Option ResponseKind) → Bool
has_tools [] = false
has_tools (some (ResponseKind.tool_call c) ∷ bs) = true
has_tools (_ ∷ bs) = has_tools bs

module _ (floats_fit : Bytes → Bool) where
  unfoldable pub check_synthetic_message : Option ResponseMessage → Bytes → Check HostCallError
  check_synthetic_message none finish = err HostCallError.no_blocks
  check_synthetic_message (some m) finish =
      refuse_if (is_empty m.blocks) HostCallError.no_blocks
      >> lift envelope (validate_response_blocks floats_fit m.blocks)
      >> synthetic_blocks m.blocks
      >> refuse_if
          (not (bytes_eq finish (if has_tools m.blocks then codes "tool_calls" else codes "stop")))
          bad_finish_reason

  -- `SyntheticResponse.Validate`, on a response that is not nil
  unfoldable pub validate_synthetic :
      (SyntheticResponse → Reflected) → SyntheticResponse → Check HostCallError
  validate_synthetic reflect x =
      lift closed (validate_closed (reflect x)) >> check_synthetic_message x.message x.finish_reason

  -- `RespondRequestArgs.Validate`, of its response
  unfoldable pub validate_respond_request :
      (SyntheticResponse → Reflected) → Option (Option SyntheticResponse) → Check HostCallError
  validate_respond_request reflect none = err nil_message
  validate_respond_request reflect (some none) = err nil_message
  validate_respond_request reflect (some (some x)) = validate_synthetic reflect x
