-- ===== src/TestHost/Store/Versions.antt =====
-- The versions of the stored values: what a compare-and-set reads and writes.
use torana_plugin_sdk.Prelude.{
  ℕ, suc, ◌+◌, ◌^◌, ◌≤◌, ◌<◌, Bool, true, false, Bytes, Option, none, some, Check, ok, err,
  bytes_eq, bytes_eq_iff, ◌≡◌, ◌≢◌, ◌⊎◌, inl, inr, refl, sym, ap, ◌∙◌, subst, arith, Bool-cases,
}
use torana_plugin_sdk.GoStd.Decimal.{itoa, itoa_injective}
use torana_plugin_sdk.Proto.HostCall.{StateCompareAndSetArgs, StateCompareAndDeleteArgs}
use torana_plugin_sdk.TestHost.Maps.{
  Map, lookup, insert, erase, lookup-insert_self, lookup-insert_ne, lookup-erase_self,
  lookup-erase_ne,
}
use torana_plugin_sdk.TestHost.Replies.{guarded, Reply}
use torana_plugin_sdk.TestHost.Store.{
  Store, StateCommand, get, set, get_versioned, compare_and_set, compare_and_delete, scan, delete,
  keys, next_seq, put, version_matches, do_compare_and_set, do_compare_and_delete, when_configured,
  run_state,
}
use torana_plugin_sdk.RequestValidate.Parts.{slice_bytes}

-- What a command can do to the store.
pub data Change : Type 0 where
  nothing : Change
  write : Bytes → Bytes → Change
  remove : Bytes → Change
  remove_value : Bytes → Change

abbrev pub perform : Change → Store → Store
perform nothing s = s
perform (write k v) s = put k v s
perform (remove k) s = record s { values = erase k s.values; versions = erase k s.versions }
perform (remove_value k) s = record s { values = erase k s.values }

guarded_change :
    (m : Check _) (s : Store) (k : Store × Reply) (c : Change)
    → k.0 ≡ perform c s
    → (d : Change) × ((guarded m s k).0 ≡ perform d s)
unfolding guarded
guarded_change (ok _) s k c h = (c, h)
guarded_change (err e) s k c h = (nothing, refl)

configured_change :
    (b : Bool) (s : Store) (k : Store × Reply) (c : Change)
    → k.0 ≡ perform c s
    → (d : Change) × ((when_configured b s k).0 ≡ perform d s)
unfolding when_configured
configured_change true s k c h = (c, h)
configured_change false s k c h = (nothing, refl)

checked_change :
    (m : Check _) (b : Bool) (s : Store) (k : Store × Reply) (c : Change)
    → k.0 ≡ perform c s
    → (d : Change) × ((guarded m s (when_configured b s k)).0 ≡ perform d s)
checked_change m b s k c h =
    let (d, e) = configured_change b s k c h in guarded_change m s (when_configured b s k) d e

set_change :
    (a : StateCompareAndSetArgs) (s : Store)
    → (d : Change) × ((do_compare_and_set a s).0 ≡ perform d s)
unfolding do_compare_and_set
set_change a s = elim (Bool-cases (version_matches a.expected_version (lookup a.key s.versions))) [
  | inl t ↦ (write a.key a.value, rw t refl)
  | inr f ↦ (nothing, rw f refl)
]

delete_change :
    (a : StateCompareAndDeleteArgs) (s : Store)
    → (d : Change) × ((do_compare_and_delete a s).0 ≡ perform d s)
unfolding do_compare_and_delete
delete_change a s =
    elim (Bool-cases (bytes_eq (slice_bytes (lookup a.key s.versions)) a.expected_version)) [
      | inl t ↦ (remove a.key, rw t refl)
      | inr f ↦ (nothing, rw f refl)
    ]

pub run_state_change :
    (b : Bool) (c : StateCommand) (s : Store) → (d : Change) × ((run_state b c s).0 ≡ perform d s)
unfolding run_state
run_state_change b (get k) s = checked_change _ b s _ nothing refl
run_state_change b (set k v) s = checked_change _ b s _ (write k v) refl
run_state_change b (get_versioned k) s = checked_change _ b s _ nothing refl
run_state_change b (compare_and_set a) s =
    let (d, e) = set_change a s in checked_change _ b s (do_compare_and_set a s) d e
run_state_change b (compare_and_delete a) s =
    let (d, e) = delete_change a s in checked_change _ b s (do_compare_and_delete a s) d e
run_state_change b (scan a) s = checked_change _ b s _ nothing refl
run_state_change b (delete k) s = checked_change _ b s _ (remove_value k) refl
run_state_change b keys s = configured_change b s _ nothing refl

-- Every version that is stored has been issued, and every stored value has a version.
pub record IsSound (s : Store) : Type 0 where
  pub issued : (k v : Bytes) → lookup k s.versions ≡ some v → (n : ℕ) × (v ≡ itoa n) × (n ≤ s.seq)
  pub versioned :
      (k v : Bytes) → lookup k s.values ≡ some v → (w : Bytes) × (lookup k s.versions ≡ some w)

pub same_key : (j k : Bytes) → (j ≡ k) ⊎ (j ≢ k)
same_key j k = elim (Bool-cases (bytes_eq j k)) [
  | inl t ↦ inl ((bytes_eq_iff j k).0 t)
  | inr f ↦ inr (λ e. absurd (cc (f, (bytes_eq_iff j k).1 e)))
]

some_injective {ℓ} : {A : Type ℓ} {a b : A} → some a ≡ some b → a ≡ b
some_injective h = cc

erased_ne : (j k : Bytes) (m : Map Bytes) {v : Bytes} → lookup j (erase k m) ≡ some v → j ≢ k
erased_ne j k m e q = cc (q, e, lookup-erase_self k m)

written_eq : (j k w v : Bytes) (m : Map Bytes) → j ≡ k → lookup j (insert k w m) ≡ some v → v ≡ w
written_eq j k w v m q e =
    some_injective (sym e ∙ ap (λ y. lookup y (insert k w m)) q ∙ lookup-insert_self k w m)

pub next_seq-suc : (n : ℕ) → n + 1 < 2 ^ 64 → next_seq n ≡ suc n
next_seq-suc n h = omega arith

pub perform-seq :
    (c : Change) (s : Store)
    → s.seq + 1 < 2 ^ 64
    → (s.seq ≤ (perform c s).seq) × ((perform c s).seq ≤ s.seq + 1)
unfolding put
perform-seq nothing s h = (omega arith, omega arith)
perform-seq (write k v) s h =
    (omega (arith, next_seq-suc s.seq h), omega (arith, next_seq-suc s.seq h))
perform-seq (remove k) s h = (omega arith, omega arith)
perform-seq (remove_value k) s h = (omega arith, omega arith)

pub perform-IsSound :
    (c : Change) (s : Store) → s.seq + 1 < 2 ^ 64 → IsSound s → IsSound (perform c s)
unfolding put
perform-IsSound nothing s h i = i
perform-IsSound (write k x) s h i = record {
  issued = λ j v e. elim (same_key j k) [
    | inl q ↦ (next_seq s.seq, written_eq j k _ v s.versions q e, omega arith)
    | inr n ↦
        let (m, p, l) = i.issued j v (sym (lookup-insert_ne j k _ s.versions n) ∙ e) in
        (m, p, omega (arith, l, next_seq-suc s.seq h))
  ];
  versioned = λ j v e. elim (same_key j k) [
    | inl q ↦ (itoa (next_seq s.seq), rw q (lookup-insert_self k _ s.versions))
    | inr n ↦
        let (w, p) = i.versioned j v (sym (lookup-insert_ne j k _ s.values n) ∙ e) in
        (w, lookup-insert_ne j k _ s.versions n ∙ p)
  ];
}
perform-IsSound (remove k) s h i = record {
  issued =
      λ j v e. i.issued j v (sym (lookup-erase_ne j k s.versions (erased_ne j k s.versions e)) ∙ e);
  versioned = λ j v e.
      let n = erased_ne j k s.values e in
      let (w, p) = i.versioned j v (sym (lookup-erase_ne j k s.values n) ∙ e) in
      (w, lookup-erase_ne j k s.versions n ∙ p);
}
perform-IsSound (remove_value k) s h i = record {
  issued = i.issued;
  versioned =
      λ j v e. i.versioned j v (sym (lookup-erase_ne j k s.values (erased_ne j k s.values e)) ∙ e);
}

-- Of a version `v` that the key `k` once had with the value `x`: the key has another version now,
-- or it still has this one and its value is still `x`, or deleted.
abbrev pub Since : Bytes → Bytes → Option Bytes → Store → Type 0
Since k v x s =
    (lookup k s.versions ≢ some v) ⊎ ((lookup k s.values ≡ x) ⊎ (lookup k s.values ≡ none))

pub perform-Since :
    (c : Change) (s : Store) (k v : Bytes) (x : Option Bytes) (n : ℕ)
    → v ≡ itoa n
    → n ≤ s.seq
    → s.seq + 1 < 2 ^ 64
    → Since k v x s
    → Since k v x (perform c s)
unfolding put
perform-Since nothing s k v x n q l h t = t
perform-Since (write j y) s k v x n q l h t = elim (same_key k j) [
  | inl e ↦ inl (λ p.
      let same = itoa_injective n (next_seq s.seq) (sym q ∙ written_eq k j _ v s.versions e p) in
      absurd (omega (arith, same, next_seq-suc s.seq h)))
  | inr e ↦
      subst
        (λ a.
          (a ≢ some v)
          ⊎ ((lookup k (insert j y s.values) ≡ x) ⊎ (lookup k (insert j y s.values) ≡ none)))
        (sym (lookup-insert_ne k j _ s.versions e))
        (subst (λ a. (lookup k s.versions ≢ some v) ⊎ ((a ≡ x) ⊎ (a ≡ none)))
          (sym (lookup-insert_ne k j _ s.values e)) t)
]
perform-Since (remove j) s k v x n q l h t = elim (same_key k j) [
  | inl e ↦ inl (λ p. erased_ne k j s.versions p e)
  | inr e ↦ rw (lookup-erase_ne k j s.versions e, lookup-erase_ne k j s.values e) t
]
perform-Since (remove_value j) s k v x n q l h t = elim (same_key k j) [
  | inl e ↦ inr (inr (ap (λ y. lookup y (erase j s.values)) e ∙ lookup-erase_self j s.values))
  | inr e ↦ rw (lookup-erase_ne k j s.values e) t
]
