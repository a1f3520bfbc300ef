-- ===== src/HostCall/State.antt =====
-- The state and resource messages of pb/v1/foundation_validate.go. The view that `validateClosed`
-- walks over is written out: the strings of a message and the messages inside of it.
use torana_plugin_sdk.Prelude.{
  Bool, false, not, ◌&&◌, ◌||◌, Bytes, List, [], ◌∷◌, Option, none, some, Check, ok, err, ◌>>◌,
  refuse_if, is_empty, ◌==◌, ltb, length, codes, bytes_eq, if◌then◌else◌,
}
use torana_plugin_sdk.GoStd.Utf8.{utf8_valid}
use torana_plugin_sdk.GoStd.Strings.{bytes_lt}
use torana_plugin_sdk.Proto.HostCall.{
  StateValue, StateEntry, StateScanResult, StateCompareAndSetArgs, StateCompareAndDeleteArgs,
  StateMutationResult, StateScanArgs, ResourceInfoArgs, ResourceInfo,
}
use torana_plugin_sdk.RequestValidate.Blocks.{is_some}
use torana_plugin_sdk.Envelope.Closed.{message, Children, last, child, validate_closed}
use torana_plugin_sdk.HostCall.Names.{
  HostCallError, nil_message, no_key, unknown_resource_kind, no_version, bad_expected_version,
  version_not_applied, bad_limit, page_too_long, keys_not_ordered, closed, validate_slot,
  validate_logical_path,
}
use torana_plugin_sdk.HostCall.Policy.{lift}

abbrev pub flat : Bytes → List Bytes → Check HostCallError
flat unknown strings = lift closed (validate_closed (message unknown strings last))

optional_string : Option Bytes → List Bytes
optional_string none = []
optional_string (some s) = s ∷ []

optional_empty : Option Bytes → Bool
optional_empty none = false
optional_empty (some s) = is_empty s

-- The switch on `x.Kind`.
unfoldable pub check_resource : Bytes → Bytes → Check HostCallError
check_resource kind name =
    if bytes_eq kind (codes "file")
    then validate_logical_path name false
    else if bytes_eq kind (codes "credential")
        || bytes_eq kind (codes "http")
        || bytes_eq kind (codes "model")
        || bytes_eq kind (codes "pricing")
        || bytes_eq kind (codes "cache_policy")
    then validate_slot name
    else err unknown_resource_kind

-- `ResourceInfoArgs.Validate`
unfoldable pub validate_resource : ResourceInfoArgs → Check HostCallError
validate_resource x = flat x.unknown_fields (x.kind ∷ x.name ∷ []) >> check_resource x.kind x.name

-- `ResourceInfo.Validate`
unfoldable pub validate_resource_info : ResourceInfo → Check HostCallError
unfolding validate_resource
validate_resource_info x =
    flat x.unknown_fields (x.kind ∷ x.name ∷ x.operations)
    >> validate_resource (record { kind = x.kind; name = x.name; unknown_fields = [] })

-- `StateValue.Validate`; `validateClosed` passes over a nil message
unfoldable pub validate_state_value : StateValue → Check HostCallError
validate_state_value x =
    flat x.unknown_fields (x.value ∷ x.version ∷ []) >> refuse_if (is_empty x.version) no_version

-- `StateCompareAndSetArgs.Validate`
unfoldable pub validate_compare_and_set : StateCompareAndSetArgs → Check HostCallError
unfolding optional_string optional_empty
validate_compare_and_set x =
    flat x.unknown_fields (x.key ∷ x.value ∷ optional_string x.expected_version)
    >> refuse_if (is_empty x.key) no_key
    >> refuse_if (optional_empty x.expected_version) bad_expected_version

-- `StateCompareAndDeleteArgs.Validate`
unfoldable pub validate_compare_and_delete : StateCompareAndDeleteArgs → Check HostCallError
validate_compare_and_delete x =
    flat x.unknown_fields (x.key ∷ x.expected_version ∷ [])
    >> refuse_if (is_empty x.key || is_empty x.expected_version) no_key

-- `StateMutationResult.Validate`
unfoldable pub validate_mutation_result : StateMutationResult → Check HostCallError
unfolding optional_string optional_empty
validate_mutation_result x =
    flat x.unknown_fields (optional_string x.version)
    >> refuse_if (is_some x.version && (not x.applied || optional_empty x.version))
        version_not_applied

-- `StateScanArgs.Validate`
unfoldable pub validate_scan_args : StateScanArgs → Check HostCallError
validate_scan_args x =
    flat x.unknown_fields (x.prefix ∷ x.cursor ∷ [])
    >> refuse_if (x.limit == 0 || ltb 256 x.limit) bad_limit

-- What `validateClosed` sees of the entries; a nil element has no fields.
reflect_value : Option StateValue → Children
reflect_value none = last
reflect_value (some v) = child (message v.unknown_fields (v.value ∷ v.version ∷ []) last) last

reflect_entries : List (Option StateEntry) → Children
unfolding reflect_value
reflect_entries [] = last
reflect_entries (none ∷ es) = reflect_entries es
reflect_entries (some e ∷ es) =
    child (message e.unknown_fields (e.key ∷ []) (reflect_value e.value)) (reflect_entries es)

-- `i > 0 && e.Key <= last`: the key before, from the second entry on
unfoldable pub not_after : Bytes → Option Bytes → Bool
not_after key none = false
not_after key (some prev) = not (bytes_lt prev key)

-- `e.Value.Validate()`, where a nil value is refused by `validateClosed`
unfoldable pub validate_entry_value : Option StateValue → Check HostCallError
validate_entry_value none = err nil_message
validate_entry_value (some v) = validate_state_value v

unfoldable pub scan_entries : Option Bytes → List (Option StateEntry) → Check HostCallError
unfolding validate_entry_value not_after
scan_entries prev [] = ok tt
scan_entries prev (none ∷ es) = err keys_not_ordered
scan_entries prev (some e ∷ es) =
    refuse_if (is_empty e.key || not_after e.key prev) keys_not_ordered
    >> validate_entry_value e.value
    >> scan_entries (some e.key) es

-- `StateScanResult.Validate`
unfoldable pub validate_scan_result : StateScanResult → Check HostCallError
unfolding reflect_entries
validate_scan_result x =
    lift closed
      (validate_closed (message x.unknown_fields (x.next_cursor ∷ []) (reflect_entries x.entries)))
    >> refuse_if (ltb 256 (length x.entries)) page_too_long
    >> scan_entries none x.entries

-- `CacheDeleteArgs.Validate`, of its key and unknown fields
unfoldable pub validate_cache_delete : Option (Bytes × Bytes) → Check HostCallError
validate_cache_delete none = err no_key
validate_cache_delete (some (key, unknown)) =
    refuse_if (is_empty key || not (utf8_valid key)) no_key >> flat unknown (key ∷ [])
