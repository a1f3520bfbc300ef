-- ===== src/TestHost/Store.antt =====
-- The durable plugin state of the test host: the cases env.state_* of `builtinTyped`, and
-- `SeedState`.
pub mod Versions
pub mod Outcomes
pub mod Order
pub mod Matching
pub mod Keys
pub mod Paging
use torana_plugin_sdk.Prelude.{
  ℕ, ◌+◌, ◌-◌, ◌%◌, ◌^◌, Bool, true, false, not, ◌&&◌, ◌||◌, Bytes, List, [], ◌∷◌, Option, none,
  some, Check, ok, err, is_empty, ltb, length, get_elem?, take, bytes_eq, if◌then◌else◌,
}
use torana_plugin_sdk.GoStd.Decimal.{itoa}
use torana_plugin_sdk.GoStd.Strings.{has_prefix, bytes_lt}
use torana_plugin_sdk.Proto.HostCall.{
  StateValue, StateEntry, StateScanResult, StateCompareAndSetArgs, StateCompareAndDeleteArgs,
  StateMutationResult, StateScanArgs,
}
use torana_plugin_sdk.RequestValidate.Parts.{slice_bytes}
use torana_plugin_sdk.HostCall.Args.{validate_key}
use torana_plugin_sdk.HostCall.State.{
  validate_compare_and_set, validate_compare_and_delete, validate_scan_args,
}
use torana_plugin_sdk.TestHost.Maps.{Map, lookup, insert, erase}
use torana_plugin_sdk.TestHost.Replies.{
  Reply, value, state_value, mutation, page, names, error, not_configured, not_found, guarded,
}

-- `h.state`, `h.stateVersion`, and the uint64 `h.stateSeq`
pub record Store : Type 0 where
  pub values : Map Bytes
  pub versions : Map Bytes
  pub seq : ℕ

-- The arguments that a command's frame holds.
pub data StateCommand : Type 0 where
  get : Bytes → StateCommand
  set : Bytes → Bytes → StateCommand
  get_versioned : Bytes → StateCommand
  compare_and_set : StateCompareAndSetArgs → StateCommand
  compare_and_delete : StateCompareAndDeleteArgs → StateCommand
  scan : StateScanArgs → StateCommand
  delete : Bytes → StateCommand
  keys : StateCommand

-- `h.stateSeq++`
abbrev pub next_seq : ℕ → ℕ
next_seq n = (n + 1) % 2 ^ 64

-- The body that env.state_set, env.state_compare_and_set and `SeedState` share.
unfoldable pub put : Bytes → Bytes → Store → Store
put k v s = record {
  values = insert k v s.values;
  versions = insert k (itoa (next_seq s.seq)) s.versions;
  seq = next_seq s.seq;
}

read_state : Option Bytes → Reply
read_state none = error not_found
read_state (some v) = value v

read_versioned : Option Bytes → Bytes → Reply
read_versioned none version = error not_found
read_versioned (some v) version =
    state_value (record { value = v; version = version; unknown_fields = [] })

-- `match`, of the expected version and the version that the key has
unfoldable pub version_matches : Option Bytes → Option Bytes → Bool
version_matches none none = true
version_matches (some expected) (some current) = bytes_eq expected current
version_matches _ _ = false

unfoldable pub mutated : Bool → Option Bytes → Reply
mutated applied version =
    mutation (record { applied = applied; version = version; unknown_fields = [] })

unfoldable pub do_compare_and_set : StateCompareAndSetArgs → Store → Store × Reply
unfolding version_matches mutated
do_compare_and_set a s =
    if version_matches a.expected_version (lookup a.key s.versions)
    then (put a.key a.value s, mutated true (some (itoa (next_seq s.seq))))
    else (s, mutated false none)

-- A missing version reads as the empty string.
unfoldable pub do_compare_and_delete : StateCompareAndDeleteArgs → Store → Store × Reply
unfolding mutated
do_compare_and_delete a s =
    if bytes_eq (slice_bytes (lookup a.key s.versions)) a.expected_version
    then (
      record s { values = erase a.key s.values; versions = erase a.key s.versions },
      mutated true none,
    )
    else (s, mutated false none)

-- `strings.HasPrefix(k, a.Prefix) && (a.Cursor == "" || k > a.Cursor)`
unfoldable pub keeps : Bytes → Bytes → Bytes → Bool
keeps prefix cursor k = has_prefix k prefix && (is_empty cursor || bytes_lt cursor k)

module _ {ℓ} {V : Type ℓ} where
  unfoldable pub sort_in : Bytes × V → Map V → Map V
  sort_in e [] = e ∷ []
  sort_in e (x ∷ m) = let rest = sort_in e m in if bytes_lt e.0 x.0 then e ∷ x ∷ m else x ∷ rest

  -- `sort.Slice` and `sort.Strings`, by key
  unfoldable pub sorted : Map V → Map V
  unfolding sort_in
  sorted [] = []
  sorted (e ∷ m) = sort_in e (sorted m)

  -- The entries that the loop over the map keeps.
  unfoldable pub matching : Bytes → Bytes → Map V → Map V
  unfolding keeps
  matching prefix cursor [] = []
  matching prefix cursor (e ∷ m) =
      let rest = matching prefix cursor m in if keeps prefix cursor e.0 then e ∷ rest else rest

  unfoldable pub map_keys : Map V → List Bytes
  map_keys [] = []
  map_keys (e ∷ m) = e.0 ∷ map_keys m

unfoldable pub key_at : {V : Type 0} → Option (Bytes × V) → Bytes
key_at none = []
key_at (some e) = e.0

-- The page and the cursor that goes on behind it.
unfoldable pub cut_page : {V : Type 0} → ℕ → Map V → Map V × Bytes
unfolding key_at
cut_page limit m =
    if ltb 0 limit && ltb limit (length m % 2 ^ 32)
    then (take limit m, key_at (get_elem? m (limit - 1)))
    else (m, [])

unfoldable pub state_entries : Map Bytes → Map Bytes → List (Option StateEntry)
state_entries versions [] = []
state_entries versions (e ∷ m) =
    some (record {
      key = e.0;
      value = some (record {
        value = e.1;
        version = slice_bytes (lookup e.0 versions);
        unknown_fields = [];
      });
      unknown_fields = [];
    })
    ∷ state_entries versions m

-- The entries behind the cursor in the order of their keys, cut to the limit.
unfoldable pub scan_page : StateScanArgs → Map Bytes → Map Bytes × Bytes
unfolding sorted matching cut_page
scan_page a values = cut_page a.limit (sorted (matching a.prefix a.cursor values))

unfoldable pub do_scan : StateScanArgs → Store → Reply
unfolding state_entries scan_page
do_scan a s = page (record {
  entries = state_entries s.versions ((scan_page a s.values).0);
  next_cursor = (scan_page a s.values).1;
  unknown_fields = [];
})

-- `if !h.StateConfigured { return hostCallResultError(NOT_CONFIGURED, …) }`
unfoldable pub when_configured : Bool → Store → Store × Reply → Store × Reply
when_configured true s k = k
when_configured false s k = (s, error not_configured)

unfoldable pub run_state : Bool → StateCommand → Store → Store × Reply
unfolding read_state read_versioned
run_state configured (get k) s =
    guarded (validate_key (some k)) s
      (when_configured configured s (s, read_state (lookup k s.values)))
run_state configured (set k v) s =
    guarded (validate_key (some k)) s (when_configured configured s (put k v s, value []))
run_state configured (get_versioned k) s = guarded (validate_key (some k)) s (
    when_configured configured s
      (s, read_versioned (lookup k s.values) (slice_bytes (lookup k s.versions))))
run_state configured (compare_and_set a) s =
    guarded (validate_compare_and_set a) s (when_configured configured s (do_compare_and_set a s))
run_state configured (compare_and_delete a) s =
    guarded (validate_compare_and_delete a) s
      (when_configured configured s (do_compare_and_delete a s))
run_state configured (scan a) s =
    guarded (validate_scan_args a) s (when_configured configured s (s, do_scan a s))
run_state configured (delete k) s =
    guarded (validate_key (some k)) s
      (when_configured configured s (record s { values = erase k s.values }, value []))
run_state configured keys s = when_configured configured s (s, names (map_keys (sorted s.values)))
