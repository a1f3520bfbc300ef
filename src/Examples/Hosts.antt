-- ===== src/Examples/Hosts.antt =====
-- The theorems on the test host at a host with two keys.
use torana_plugin_sdk.Prelude.{
  suc, ◌+◌, true, false, Bytes, List, [], ◌∷◌, none, some, ok, codes, length, ◌≡◌, ◌≢◌, ◌⊎◌, refl,
  arith, bytes_eq, ltb, if◌then◌else◌,
}
use torana_plugin_sdk.GoStd.Utf8.{utf8_valid, utf8_step}
use torana_plugin_sdk.GoStd.Strings.{has_prefix, bytes_lt}
use torana_plugin_sdk.GoStd.Decimal.{itoa, digits}
use torana_plugin_sdk.Proto.HostCall.{
  StateScanArgs, StateCompareAndSetArgs, CacheSetArgs, SyntheticResponse,
}
use torana_plugin_sdk.Envelope.Closed.{Reflected, message, last, validate_closed}
use torana_plugin_sdk.Envelope.Closed
use torana_plugin_sdk.HostCall.Args.{validate_key, validate_cache_set}
use torana_plugin_sdk.HostCall.State.{validate_compare_and_set}
use torana_plugin_sdk.TestHost.Maps.{Map, lookup, insert, erase, IsDistinct}
use torana_plugin_sdk.TestHost.Replies.{value, error, not_found, guarded}
use torana_plugin_sdk.TestHost.Store.{
  Store, StateCommand, run_state, put, version_matches, mutated, state_entries, when_configured,
}
use torana_plugin_sdk.TestHost.Store.Versions.{IsSound}
use torana_plugin_sdk.TestHost.Store.Outcomes.{
  ReadsAs, refuses, compare_and_set_applied, run_state-refused, deleted_key_not_recreated,
}
use torana_plugin_sdk.TestHost.Store.Order.{Above, IsOrdered}
use torana_plugin_sdk.TestHost.Store.Keys.{KeysValid}
use torana_plugin_sdk.HostCall.State.{validate_scan_args}
use torana_plugin_sdk.Envelope.Closed.{validate_closed, strings_utf8}
use torana_plugin_sdk.GoStd.Utf8.{utf8_valid}
use torana_plugin_sdk.TestHost.Store.Paging.{collect, collect_all}
use torana_plugin_sdk.TestHost.Cache.{Cache, CacheCommand, run_cache, cache_ttl}
use torana_plugin_sdk.TestHost.Host.{
  Host, Command, Event, call, seed_state, builtin, apply_event, run,
}
use torana_plugin_sdk.TestHost.History.{run-IsSound, version_identifies_value}

abbrev empty_store : Store
empty_store = record { values = []; versions = []; seq = 0 }

empty_store-IsSound : IsSound empty_store
unfolding lookup
empty_store-IsSound = record {
  issued = λ k v e. absurd (ground arith);
  versioned = λ k v e. absurd (ground arith);
}

abbrev empty_cache : Cache
empty_cache = record { entries = []; expiry = [] }

abbrev new_host : Host
new_host = record {
  store = empty_store;
  state_configured = true;
  cache = empty_cache;
  shared_cache = empty_cache;
  meta = [];
  files = [];
  credentials = [];
  config = codes "{}";
  original = none;
  original_response = none;
}

abbrev create : StateCompareAndSetArgs
create = record { key = codes "k"; expected_version = none; value = codes "x"; unknown_fields = [] }

create-valid : validate_compare_and_set create ≡ ok tt
unfolding validate_compare_and_set validate_closed Closed.strings_utf8 utf8_valid utf8_step
create-valid = refl

create-matches :
    version_matches create.expected_version (lookup create.key empty_store.versions) ≡ true
unfolding version_matches lookup
create-matches = refl

compare_and_set_applied_example :
    (version : Bytes) × ((run_state true (StateCommand.compare_and_set create) empty_store).1
      ≡ mutated true (some version))
    × ((k w : Bytes) → lookup k empty_store.versions ≡ some w → w ≢ version)
    × ReadsAs
        ((run_state true (StateCommand.compare_and_set create) empty_store).0)
        create.key
        create.value
        version
    × ((k : Bytes)
        → k ≢ create.key
        → (run_state true
            (StateCommand.get_versioned k)
            ((run_state true (StateCommand.compare_and_set create) empty_store).0)).1
          ≡ (run_state true (StateCommand.get_versioned k) empty_store).1)
compare_and_set_applied_example =
    compare_and_set_applied create empty_store create-valid empty_store-IsSound (omega arith)
      create-matches

create-refused :
    refuses ((run_state false (StateCommand.compare_and_set create) empty_store).1) ≡ true
unfolding refuses run_state guarded when_configured validate_compare_and_set validate_closed
    Closed.strings_utf8 utf8_valid utf8_step
create-refused = refl

run_state-refused_example :
    (run_state false (StateCommand.compare_and_set create) empty_store).0 ≡ empty_store
run_state-refused_example =
    run_state-refused false (StateCommand.compare_and_set create) empty_store create-refused

abbrev one_key : Store
one_key = record {
  values = (codes "k", codes "x") ∷ [];
  versions = (codes "k", codes "1") ∷ [];
  seq = 1;
}

key_valid : validate_key (some (codes "k")) ≡ ok tt
unfolding validate_key
key_valid = refl

one_key-version : lookup (codes "k") one_key.versions ≡ some (codes "1")
unfolding lookup bytes_eq
one_key-version = refl

deleted_key_not_recreated_example :
    ((run_state true
        (StateCommand.get (codes "k"))
        ((run_state true (StateCommand.delete (codes "k")) one_key).0)).1
      ≡ error not_found)
    × ((run_state true
          (StateCommand.compare_and_set create)
          ((run_state true (StateCommand.delete (codes "k")) one_key).0)).1
        ≡ mutated false none)
deleted_key_not_recreated_example =
    deleted_key_not_recreated (codes "k") (codes "1") create one_key key_valid create-valid refl
      refl one_key-version

abbrev reflect : SyntheticResponse → Reflected
reflect x = message [] (x.finish_reason ∷ []) last

abbrev calls : List Event
calls =
    seed_state (codes "k") (codes "x")
    ∷ call 5 (Command.state (StateCommand.delete (codes "k")))
    ∷ []

run-IsSound_example : IsSound ((run reflect (λ b. true) itoa calls new_host).store)
run-IsSound_example =
    run-IsSound reflect (λ b. true) itoa calls new_host empty_store-IsSound (omega arith)

abbrev seeded : Host
seeded = record new_host { store = put (codes "k") (codes "x") empty_store }

seeded-IsSound : IsSound seeded.store
unfolding run apply_event
seeded-IsSound =
    run-IsSound reflect (λ b. true) itoa (seed_state (codes "k") (codes "x") ∷ []) new_host
      empty_store-IsSound (omega arith)

abbrev delete_only : List Event
delete_only = call 5 (Command.state (StateCommand.delete (codes "k"))) ∷ []

seeded-version : lookup (codes "k") seeded.store.versions ≡ some (codes "1")
unfolding put lookup insert erase bytes_eq itoa digits
seeded-version = refl

deleted-version :
    lookup (codes "k") (run reflect (λ b. true) itoa delete_only seeded).store.versions
    ≡ some (codes "1")
unfolding run apply_event builtin run_state guarded when_configured validate_key put lookup insert
    erase bytes_eq itoa digits
deleted-version = refl

version_identifies_value_example :
    (lookup (codes "k") (run reflect (λ b. true) itoa delete_only seeded).store.values
      ≡ lookup (codes "k") seeded.store.values)
    ⊎ (lookup (codes "k") (run reflect (λ b. true) itoa delete_only seeded).store.values ≡ none)
unfolding put
version_identifies_value_example =
    version_identifies_value reflect (λ b. true) itoa delete_only seeded (codes "k") (codes "1")
      seeded-IsSound (omega arith) seeded-version deleted-version

abbrev three_keys : Store
three_keys = record {
  values = (codes "b/2", codes "y") ∷ (codes "c", codes "z") ∷ (codes "b/1", codes "x") ∷ [];
  versions = (codes "b/2", codes "2") ∷ (codes "c", codes "3") ∷ (codes "b/1", codes "1") ∷ [];
  seq = 3;
}

three_keys-IsDistinct : IsDistinct three_keys.values
unfolding lookup bytes_eq
three_keys-IsDistinct = (refl, (refl, (refl, tt)))

three_keys-Above : Above [] three_keys.values
unfolding bytes_lt
three_keys-Above = (refl, (refl, (refl, tt)))

abbrev scan_b : StateScanArgs
scan_b = record { prefix = codes "b/"; cursor = []; limit = 1; unknown_fields = [] }

scan_b-valid : validate_scan_args scan_b ≡ ok tt
unfolding validate_scan_args validate_closed strings_utf8 utf8_valid
scan_b-valid = refl

three_keys-KeysValid : KeysValid three_keys.values
unfolding utf8_valid
three_keys-KeysValid = (refl, (refl, (refl, tt)))

collect_all_example :
    (m : Map Bytes) × (collect (suc (length three_keys.values)) scan_b three_keys
      ≡ state_entries three_keys.versions m)
    × IsOrdered m
    × ((k : Bytes)
        → lookup k m ≡ (if has_prefix k scan_b.prefix then lookup k three_keys.values else none))
collect_all_example =
    collect_all scan_b three_keys three_keys-IsDistinct three_keys-Above three_keys-KeysValid
      scan_b-valid (omega arith) refl

abbrev set_key : CacheSetArgs
set_key = record { key = codes "k"; value = codes "x"; ttl_ms = some 1000 }

set_key-valid : validate_cache_set (some set_key) ≡ ok tt
unfolding validate_cache_set
set_key-valid = refl

cache_ttl_example :
    (run_cache 1600
      (CacheCommand.get set_key.key)
      ((run_cache 500 (CacheCommand.set set_key) empty_cache).0)).1
    ≡ (if ltb 1600 (500 + 1000) then value set_key.value else error not_found)
cache_ttl_example =
    cache_ttl 500 1600 1000 set_key empty_cache set_key-valid refl (omega arith) (omega arith)
