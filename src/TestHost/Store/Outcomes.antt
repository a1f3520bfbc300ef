-- ===== src/TestHost/Store/Outcomes.antt =====
-- What a command on the durable state answers, and what it leaves behind.
use torana_plugin_sdk.Prelude.{
  ◌+◌, ◌^◌, ◌<◌, Bool, true, false, not, Bytes, [], none, some, Check, ok, err, is_empty, bytes_eq,
  ◌≡◌, ◌≢◌, refl, sym, ap, ◌∙◌, arith, Bool-cases, inl, inr, >>-eq-ok, refuse_if,
}
use torana_plugin_sdk.GoStd.Decimal.{itoa, itoa_injective}
use torana_plugin_sdk.Proto.HostCall.{StateCompareAndSetArgs, StateCompareAndDeleteArgs}
use torana_plugin_sdk.RequestValidate.Parts.{slice_bytes}
use torana_plugin_sdk.HostCall.Args.{validate_key}
use torana_plugin_sdk.HostCall.State.{validate_compare_and_set}
use torana_plugin_sdk.TestHost.Maps.{
  lookup, erase, lookup-insert_self, lookup-insert_ne, lookup-erase_self,
}
use torana_plugin_sdk.TestHost.Replies.{
  Reply, value, state_value, mutation, error, not_found, guarded,
}
use torana_plugin_sdk.TestHost.Store.{
  Store, StateCommand, get, set, get_versioned, compare_and_set, compare_and_delete, scan, delete,
  keys, next_seq, put, version_matches, mutated, do_compare_and_set, do_compare_and_delete,
  when_configured, run_state,
}
use torana_plugin_sdk.TestHost.Store.Versions.{IsSound, next_seq-suc}

-- The key is read back as this value with this version.
abbrev pub ReadsAs : Store → Bytes → Bytes → Bytes → Type 0
ReadsAs s k v version =
    (run_state true (get_versioned k) s).1
    ≡ state_value (record { value = v; version = version; unknown_fields = [] })

guarded_reply :
    (m : Check _) (s t : Store) (r : Reply) → (guarded m s (s, r)).1 ≡ (guarded m t (t, r)).1
unfolding guarded
guarded_reply (ok _) s t r = refl
guarded_reply (err e) s t r = refl

key_valid :
    (a : StateCompareAndSetArgs)
    → validate_compare_and_set a ≡ ok tt
    → validate_key (some a.key) ≡ ok tt
unfolding validate_compare_and_set validate_key
key_valid a h = ((>>-eq-ok _ (refuse_if (is_empty a.key) _)).0 (((>>-eq-ok _ _).0 h).0)).1

reads_put :
    (k v : Bytes) (s : Store)
    → validate_key (some k) ≡ ok tt
    → ReadsAs (put k v s) k v (itoa (next_seq s.seq))
unfolding run_state guarded when_configured put
reads_put k v s a =
    rw (a, lookup-insert_self k v s.values, lookup-insert_self k (itoa (next_seq s.seq)) s.versions)
      refl

-- A key that the write does not name is read as before.
reads_other :
    (j k v : Bytes) (s : Store)
    → j ≢ k
    → (run_state true (get_versioned j) (put k v s)).1 ≡ (run_state true (get_versioned j) s).1
unfolding run_state guarded when_configured put
reads_other j k v s n =
    rw
      (lookup-insert_ne j k v s.values n, lookup-insert_ne j k (itoa (next_seq s.seq)) s.versions n)
      (guarded_reply (validate_key (some j)) (put k v s) s _)

-- A compare-and-set whose expected version is the one that the key has, or that expects none and
-- finds none, is applied if its arguments are valid, the store is sound and its counter does not
-- wrap. It answers a version that no key has had, the key then reads as the new value with that
-- version, and every other key reads as before.
pub compare_and_set_applied :
    (a : StateCompareAndSetArgs) (s : Store)
    → validate_compare_and_set a ≡ ok tt
    → IsSound s
    → s.seq + 1 < 2 ^ 64
    → version_matches a.expected_version (lookup a.key s.versions) ≡ true
    → (version : Bytes) × ((run_state true (compare_and_set a) s).1 ≡ mutated true (some version))
      × ((k w : Bytes) → lookup k s.versions ≡ some w → w ≢ version)
      × ReadsAs ((run_state true (compare_and_set a) s).0) a.key a.value version
      × ((k : Bytes)
          → k ≢ a.key
          → (run_state true (get_versioned k) ((run_state true (compare_and_set a) s).0)).1
            ≡ (run_state true (get_versioned k) s).1)
unfolding run_state guarded when_configured do_compare_and_set
compare_and_set_applied a s va i h m =
    let done : run_state true (compare_and_set a) s
        ≡ (put a.key a.value s, mutated true (some (itoa (next_seq s.seq)))) =
      rw (va, m) refl in
    (
      itoa (next_seq s.seq),
      ap (λ r. r.1) done,
      λ k w e q.
          let (n, p, l) = i.issued k w e in
          omega (arith, l, itoa_injective n (next_seq s.seq) (sym p ∙ q), next_seq-suc s.seq h),
      ap (λ r. (run_state true (get_versioned a.key) (r.0)).1) done
          ∙ reads_put a.key a.value s (key_valid a va),
      λ k n.
          ap (λ r. (run_state true (get_versioned k) (r.0)).1) done
          ∙ reads_other k a.key a.value s n,
    )

-- The host declined: an error, or a mutation that was not applied.
unfoldable pub refuses : Reply → Bool
refuses (error code) = true
refuses (mutation m) = not m.applied
refuses _ = false

guarded_kept :
    (m : Check _) (s : Store) (k : Store × Reply)
    → (refuses (k.1) ≡ true → k.0 ≡ s)
    → refuses ((guarded m s k).1) ≡ true
    → (guarded m s k).0 ≡ s
unfolding guarded
guarded_kept (ok _) s k f h = f h
guarded_kept (err e) s k f h = refl

configured_kept :
    (b : Bool) (s : Store) (k : Store × Reply)
    → (refuses (k.1) ≡ true → k.0 ≡ s)
    → refuses ((when_configured b s k).1) ≡ true
    → (when_configured b s k).0 ≡ s
unfolding when_configured
configured_kept true s k f h = f h
configured_kept false s k f h = refl

checked_kept :
    (m : Check _) (b : Bool) (s : Store) (k : Store × Reply)
    → (refuses (k.1) ≡ true → k.0 ≡ s)
    → refuses ((guarded m s (when_configured b s k)).1) ≡ true
    → (guarded m s (when_configured b s k)).0 ≡ s
checked_kept m b s k f h = guarded_kept m s (when_configured b s k) (configured_kept b s k f) h

set_kept :
    (a : StateCompareAndSetArgs) (s : Store)
    → refuses ((do_compare_and_set a s).1) ≡ true
    → (do_compare_and_set a s).0 ≡ s
unfolding do_compare_and_set mutated refuses
set_kept a s h = elim (Bool-cases (version_matches a.expected_version (lookup a.key s.versions))) [
  | inl t ↦ absurd (ground arith)
  | inr f ↦ rw f refl
]

delete_kept :
    (a : StateCompareAndDeleteArgs) (s : Store)
    → refuses ((do_compare_and_delete a s).1) ≡ true
    → (do_compare_and_delete a s).0 ≡ s
unfolding do_compare_and_delete mutated refuses
delete_kept a s h =
    elim (Bool-cases (bytes_eq (slice_bytes (lookup a.key s.versions)) a.expected_version)) [
      | inl t ↦ absurd (ground arith)
      | inr f ↦ rw f refl
    ]

-- A command that answers an error, or a mutation that was not applied, leaves the store as it was.
pub run_state-refused :
    (configured : Bool) (c : StateCommand) (s : Store)
    → refuses ((run_state configured c s).1) ≡ true
    → (run_state configured c s).0 ≡ s
unfolding run_state refuses
run_state-refused b (get k) s h = checked_kept _ b s _ (λ r. refl) h
run_state-refused b (set k v) s h =
    checked_kept _ b s (put k v s, value []) (λ r. absurd (ground arith)) h
run_state-refused b (get_versioned k) s h = checked_kept _ b s _ (λ r. refl) h
run_state-refused b (compare_and_set a) s h =
    checked_kept _ b s (do_compare_and_set a s) (set_kept a s) h
run_state-refused b (compare_and_delete a) s h =
    checked_kept _ b s (do_compare_and_delete a s) (delete_kept a s) h
run_state-refused b (scan a) s h = checked_kept _ b s _ (λ r. refl) h
run_state-refused b (delete k) s h =
    checked_kept _ b s (record s { values = erase k s.values }, value [])
      (λ r. absurd (ground arith)) h
run_state-refused b keys s h = configured_kept b s _ (λ r. refl) h

-- After env.state_delete of a key that has a version, reading the key answers NOT_FOUND, and yet a
-- compare-and-set that expects the key to be absent is not applied.
pub deleted_key_not_recreated :
    (k w : Bytes) (a : StateCompareAndSetArgs) (s : Store)
    → validate_key (some k) ≡ ok tt
    → validate_compare_and_set a ≡ ok tt
    → a.key ≡ k
    → a.expected_version ≡ none
    → lookup k s.versions ≡ some w
    → ((run_state true (get k) ((run_state true (delete k) s).0)).1 ≡ error not_found)
      × ((run_state true (compare_and_set a) ((run_state true (delete k) s).0)).1
          ≡ mutated false none)
unfolding run_state guarded when_configured do_compare_and_set version_matches
deleted_key_not_recreated k w a s vk va ka ea e =
    (rw (vk, lookup-erase_self k s.values) refl, rw (vk, va, ka, ea, e) refl)
