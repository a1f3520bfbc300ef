-- ===== src/TestHost/Host.antt =====
-- `builtinTyped` of sdktest/sdktest.go, with the helpers that seed the host. A command holds the
-- arguments that protobuf reads from its frame, or `undecodable`; `now` is what the clock says.
use torana_plugin_sdk.Prelude.{
  ℕ, Bool, Bytes, List, [], ◌∷◌, ◌++◌, Option, none, some, is_empty, codes, if◌then◌else◌,
}
use torana_plugin_sdk.GoStd.Decimal.{itoa}
use torana_plugin_sdk.Proto.HostCall.{
  BlockRequestArgs, RouteRequestArgs, OutboundHttpRequestArgs, SyntheticResponse,
}
use torana_plugin_sdk.RequestValidate.Blocks.{is_some}
use torana_plugin_sdk.RequestValidate.Parts.{slice_bytes}
use torana_plugin_sdk.Envelope.Closed.{Reflected}
use torana_plugin_sdk.StreamAssembly.MetaStore.{meta_append_success_value}
use torana_plugin_sdk.HostCall.Headers.{validate_http_request}
use torana_plugin_sdk.HostCall.Args.{
  validate_block_request, validate_route_request, validate_respond_request, validate_set_identity,
  validate_meta_append, validate_key, validate_credential_get, validate_file_path,
  validate_file_list,
}
use torana_plugin_sdk.TestHost.Maps.{Map, lookup, insert, erase}
use torana_plugin_sdk.TestHost.Replies.{
  Reply, value, names, error, invalid_argument, not_configured, not_found, guarded,
}
use torana_plugin_sdk.TestHost.Store.{
  Store, StateCommand, run_state, put, sorted, matching, map_keys,
}
use torana_plugin_sdk.TestHost.Cache.{Cache, CacheCommand, run_cache}

pub record Host : Type 0 where
  pub store : Store
  pub state_configured : Bool
  pub cache : Cache
  pub shared_cache : Cache
  pub meta : Map Bytes
  pub files : Map Bytes
  pub credentials : Map Bytes
  pub config : Bytes
  pub original : Option Bytes
  pub original_response : Option Bytes

pub data FileCommand : Type 0 where
  append : Bytes → Bytes → FileCommand
  read : Bytes → FileCommand
  write : Bytes → Bytes → FileCommand
  list : Bytes → FileCommand
  delete : Bytes → FileCommand

pub data MetaCommand : Type 0 where
  append : ℕ → Bytes → MetaCommand
  get : Bytes → MetaCommand
  set : Bytes → Bytes → MetaCommand

pub data Command : Type 0 where
  undecodable unknown_command extension : Command
  credential_get : Bytes → Command
  file : FileCommand → Command
  http_request : OutboundHttpRequestArgs → Command
  block_request : BlockRequestArgs → Command
  respond_request : Option SyntheticResponse → Command
  route_request : RouteRequestArgs → Command
  set_identity : Bytes → Command
  meta : MetaCommand → Command
  cache : CacheCommand → Command
  shared_cache : CacheCommand → Command
  state : StateCommand → Command
  now plugin_config original_request original_response : Command

or_error : Option Bytes → Reply → Reply
or_error none e = e
or_error (some v) e = value v

-- The cases env.file_*.
unfoldable pub run_file : FileCommand → Map Bytes → Map Bytes × Reply
unfolding or_error
run_file (FileCommand.append path content) m =
    guarded (validate_file_path (some path)) m
      (insert path (slice_bytes (lookup path m) ++ content) m, value [])
run_file (FileCommand.read path) m =
    guarded (validate_file_path (some path)) m (m, or_error (lookup path m) (error not_found))
run_file (FileCommand.write path content) m =
    guarded (validate_file_path (some path)) m (insert path content m, value [])
run_file (FileCommand.list prefix) m =
    guarded (validate_file_list (some prefix)) m
      (m, names (map_keys (sorted (matching prefix [] m))))
run_file (FileCommand.delete path) m =
    guarded (validate_file_path (some path)) m (erase path m, value [])

-- `"block:" + strconv.FormatInt(int64(a.BlockIndex), 10)`, of an index that is not negative
unfoldable pub block_key : ℕ → Bytes
block_key index = codes "block:" ++ itoa index

-- The cases env.meta_*.
unfoldable pub run_meta : MetaCommand → Map Bytes → Map Bytes × Reply
unfolding or_error block_key
run_meta (MetaCommand.append index fragment) m =
    let k = block_key index in
    guarded (validate_meta_append (some index)) m (
      if is_empty fragment then m else insert k (slice_bytes (lookup k m) ++ fragment) m,
      value (meta_append_success_value fragment (slice_bytes (lookup k m)) (is_some (lookup k m))),
    )
run_meta (MetaCommand.get k) m =
    guarded (validate_key (some k)) m (m, or_error (lookup k m) (error not_found))
run_meta (MetaCommand.set k v) m = guarded (validate_key (some k)) m (insert k v m, value [])

-- What a test does to the host: a command of the plugin, or a call of a seed helper.
pub data Event : Type 0 where
  call : ℕ → Command → Event
  seed_state seed_cache seed_shared_cache set_credential seed_file : Bytes → Bytes → Event

module _ (reflect : SyntheticResponse → Reflected) (floats_fit : Bytes → Bool)
    (format_int : ℕ → Bytes) where
  -- `builtinTyped`
  unfoldable pub builtin : ℕ → Command → Host → Host × Reply
  unfolding or_error
  builtin time undecodable h = (h, error invalid_argument)
  builtin time unknown_command h = (h, error not_found)
  builtin time extension h = (h, error not_configured)
  builtin time (credential_get slot) h =
      guarded (validate_credential_get (some slot)) h
        (h, or_error (lookup slot h.credentials) (error not_configured))
  builtin time (file c) h = (record h { files = (run_file c h.files).0 }, (run_file c h.files).1)
  builtin time (http_request a) h =
      guarded (validate_http_request (some a)) h (h, error not_configured)
  builtin time (block_request a) h = guarded (validate_block_request (some a)) h (h, value [])
  builtin time (respond_request a) h =
      guarded (validate_respond_request floats_fit reflect (some a)) h (h, value [])
  builtin time (route_request a) h = guarded (validate_route_request (some a)) h (h, value [])
  builtin time (set_identity identity) h =
      guarded (validate_set_identity (some identity)) h (h, value [])
  builtin time (meta c) h = (record h { meta = (run_meta c h.meta).0 }, (run_meta c h.meta).1)
  builtin time (cache c) h =
      (record h { cache = (run_cache time c h.cache).0 }, (run_cache time c h.cache).1)
  builtin time (shared_cache c) h = (
    record h { shared_cache = (run_cache time c h.shared_cache).0 },
    (run_cache time c h.shared_cache).1,
  )
  builtin time (state c) h = (
    record h { store = (run_state h.state_configured c h.store).0 },
    (run_state h.state_configured c h.store).1,
  )
  builtin time now h = (h, value (format_int time))
  builtin time plugin_config h = (h, value h.config)
  builtin time original_request h = (h, or_error h.original (error not_found))
  builtin time original_response h = (h, or_error h.original_response (error not_found))

  unfoldable pub apply_event : Event → Host → Host
  apply_event (call time c) h = (builtin time c h).0
  apply_event (seed_state k v) h = record h { store = put k v h.store }
  apply_event (seed_cache k v) h = record h {
    cache = record h.cache { entries = insert k v h.cache.entries };
  }
  apply_event (seed_shared_cache k v) h = record h {
    shared_cache = record h.shared_cache { entries = insert k v h.shared_cache.entries };
  }
  apply_event (set_credential k v) h = record h { credentials = insert k v h.credentials }
  apply_event (seed_file k v) h = record h { files = insert k v h.files }

  unfoldable pub run : List Event → Host → Host
  unfolding apply_event
  run [] h = h
  run (e ∷ es) h = run es (apply_event e h)
