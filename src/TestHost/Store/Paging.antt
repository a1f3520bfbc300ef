-- ===== src/TestHost/Store/Paging.antt =====
-- Following the cursor of env.state_scan from page to page.
use torana_plugin_sdk.Prelude.{
  ok, ℕ, zero, suc, ◌-◌, ◌%◌, ◌^◌, ◌≤◌, ◌<◌, true, false, ◌&&◌, Bytes, List, [], ◌∷◌, ◌++◌, Option,
  none, some, is_empty, ltb, length, take, drop, get_elem?, if◌then◌else◌, ◌≡◌, ◌⊎◌, refl, sym, ap,
  ◌∙◌, arith, Bool-cases, inl, inr,
}
use torana_plugin_sdk.GoStd.Strings.{has_prefix, bytes_lt}
use torana_plugin_sdk.Proto.HostCall.{StateEntry, StateScanArgs, StateScanResult}
use torana_plugin_sdk.TestHost.Maps.{Map, lookup, IsDistinct}
use torana_plugin_sdk.TestHost.Replies.{Reply, page, guarded}
use torana_plugin_sdk.HostCall.State.{validate_scan_args}
use torana_plugin_sdk.GoStd.Utf8.{utf8_valid}
use torana_plugin_sdk.Envelope.Closed.{validate_closed, strings_utf8, strings_valid}
use torana_plugin_sdk.TestHost.Store.{
  Store, StateCommand, sorted, matching, cut_page, key_at, state_entries, scan_page, do_scan,
  run_state, when_configured,
}
use torana_plugin_sdk.TestHost.Store.Order.{
  Above, IsOrdered, sorted-IsOrdered, sorted-Above, matching-Above, matching-IsOrdered,
}
use torana_plugin_sdk.TestHost.Store.Keys.{
  KeysValid, KeysValid-get, matching-KeysValid, sorted-KeysValid,
}
use torana_plugin_sdk.TestHost.Store.Matching.{
  Above-get, after-get, get-some, keeps_start, length-drop, length-matching, length-sorted,
  lookup-matching, lookup-sorted, matching-IsDistinct, matching-after, matching-get,
  sorted-matching, take-drop,
}

-- What the cursor's entries are, in order.
found : Bytes → Bytes → Map Bytes → Map Bytes
found prefix cursor values = sorted (matching prefix cursor values)

above_empty : (k : Bytes) → bytes_lt [] k ≡ true → is_empty k ≡ false
unfolding bytes_lt
above_empty [] h = absurd (ground arith)
above_empty (c ∷ k) h = refl

module _ (values : Map Bytes) (distinct : IsDistinct values) (named : Above [] values) where
  found-matching : (prefix c : Bytes) → found prefix c values ≡ matching prefix c (sorted values)
  unfolding found
  found-matching p c = sorted-matching p c values distinct

  -- Behind the entry at a position the scan finds the entries behind that position.
  found-after :
      (prefix c : Bytes) (i : ℕ) {e : Bytes × Bytes}
      → get_elem? (found prefix c values) i ≡ some e
      → (is_empty e.0 ≡ false) × (found prefix e.0 values ≡ drop (suc i) (found prefix c values))
  found-after p c i {e} h =
      let g = ap (λ m. get_elem? m i) (sym (found-matching p c)) ∙ h in
      let above =
        Above-get [] _ i (matching-Above [] p c (sorted values) (sorted-Above [] values named)) g in
      let full = above_empty e.0 above in
      (
        full,
        found-matching p e.0
            ∙ matching-after p c e.0 (sorted values) full (matching-get p c (sorted values) i g)
            ∙ after-get (matching p c (sorted values)) i
                (matching-IsOrdered p c (sorted values) (sorted-IsOrdered values distinct)) g
            ∙ ap (drop (suc i)) (sym (found-matching p c)),
      )

-- What a client reads from a reply; another reply than a page ends its round without entries.
unfoldable pub page_of : Reply → StateScanResult
page_of (page r) = r
page_of _ = record { entries = []; next_cursor = []; unknown_fields = [] }

-- A client that sends env.state_scan for page after page until there is no cursor, in at most so many
-- rounds.
unfoldable pub collect : ℕ → StateScanArgs → Store → List (Option StateEntry)
unfolding page_of
collect zero a s = []
collect (suc rounds) a s =
    let (s', reply) = run_state true (StateCommand.scan a) s in
    let r = page_of reply in
    let rest = collect rounds (record a { cursor = r.next_cursor }) s' in
    if is_empty r.next_cursor then r.entries else r.entries ++ rest

state_entries-append :
    (versions : Map Bytes) (m n : Map Bytes)
    → state_entries versions (m ++ n) ≡ state_entries versions m ++ state_entries versions n
unfolding state_entries
state_entries-append versions [] n = refl
state_entries-append versions (e ∷ m) n = rw (state_entries-append versions m n) refl

-- One round: either the rest fits on the page, or the page has `limit` entries and the cursor is the
-- key of the last one.
one_page :
    (a : StateScanArgs) (values : Map Bytes)
    → 0 < a.limit
    → length values < 2 ^ 32
    → (scan_page a values ≡ (found a.prefix a.cursor values, []))
      ⊎ ((e : Bytes × Bytes) × (get_elem? (found a.prefix a.cursor values) (a.limit - 1) ≡ some e)
          × (a.limit < length (found a.prefix a.cursor values))
          × (scan_page a values ≡ (take a.limit (found a.prefix a.cursor values), e.0)))
unfolding scan_page cut_page found key_at
one_page a values l b =
    let m = sorted (matching a.prefix a.cursor values) in
    let size : length m ≤ length values = omega (
      arith,
      length-sorted (matching a.prefix a.cursor values),
      length-matching a.prefix a.cursor values,
    ) in
    elim (Bool-cases (ltb 0 a.limit && ltb a.limit (length m % 2 ^ 32))) [
      | inl t ↦
          let fits : a.limit < length m = ground (arith, t, size) in
          let (e, g) = get-some m (a.limit - 1) (omega (arith, fits)) in
          inr (e, g, fits, rw (t, g) refl)
      | inr f ↦ inl (rw f refl)
    ]

scan_result : Map Bytes → Map Bytes × Bytes → StateScanResult
scan_result versions p = record {
  entries = state_entries versions (p.0);
  next_cursor = p.1;
  unknown_fields = [];
}

-- One round of the client, on the page that the scan makes.
collect_step : ℕ → StateScanArgs → Store → Map Bytes × Bytes → List (Option StateEntry)
unfolding scan_result
collect_step rounds a s p =
    let r = scan_result s.versions p in
    let rest = collect rounds (record a { cursor = r.next_cursor }) s in
    if is_empty r.next_cursor then r.entries else r.entries ++ rest

-- A scan that passes its check answers with the page and leaves the store.
collect-suc :
    (rounds : ℕ) (a : StateScanArgs) (s : Store)
    → validate_scan_args a ≡ ok tt
    → collect (suc rounds) a s ≡ collect_step rounds a s (scan_page a s.values)
unfolding collect collect_step run_state guarded when_configured do_scan
collect-suc rounds a s v = rw v refl

-- The arguments stay well-formed with another cursor that is valid UTF-8.
scan_next-valid :
    (a : StateScanArgs) (cursor : Bytes)
    → validate_scan_args a ≡ ok tt
    → utf8_valid cursor ≡ true
    → validate_scan_args (record a { cursor = cursor }) ≡ ok tt
unfolding validate_scan_args validate_closed strings_utf8 strings_valid
scan_next-valid a cursor v u = ground arith

scan_limit : (a : StateScanArgs) → validate_scan_args a ≡ ok tt → 0 < a.limit
unfolding validate_scan_args
scan_limit a v = ground arith

KeysValid-found :
    (prefix c : Bytes) (values : Map Bytes) (i : ℕ) {e : Bytes × Bytes}
    → KeysValid values
    → get_elem? (found prefix c values) i ≡ some e
    → utf8_valid e.0 ≡ true
unfolding found
KeysValid-found p c values i u g =
    KeysValid-get (sorted (matching p c values)) i
      (sorted-KeysValid (matching p c values) (matching-KeysValid p c values u)) g

collect-found :
    (rounds : ℕ) (a : StateScanArgs) (s : Store)
    → IsDistinct s.values
    → Above [] s.values
    → KeysValid s.values
    → validate_scan_args a ≡ ok tt
    → length s.values < 2 ^ 32
    → length (found a.prefix a.cursor s.values) < rounds
    → collect rounds a s ≡ state_entries s.versions (found a.prefix a.cursor s.values)
unfolding collect_step
collect-found zero a s d n u v b f = absurd (omega arith)
collect-found (suc rounds) a s d n u v b f =
    let m = found a.prefix a.cursor s.values in
    let l = scan_limit a v in
    collect-suc rounds a s v ∙ elim (one_page a s.values l b) [
      | inl whole ↦ ap (collect_step rounds a s) whole
      | inr (e, g, fits, cut) ↦
          let (named, rest) = found-after s.values d n a.prefix a.cursor (a.limit - 1) g in
          let behind : found a.prefix e.0 s.values ≡ drop a.limit m =
            rest ∙ ap (λ i. drop i m) {x = suc (a.limit - 1)} {y = a.limit} (omega (arith, l)) in
          let shorter : length (found a.prefix e.0 s.values) < rounds =
            omega (arith, f, l, fits, ap length behind, length-drop a.limit m) in
          let key = KeysValid-found a.prefix a.cursor s.values (a.limit - 1) u g in
          let go_on =
            collect-found rounds (record a { cursor = e.0 }) s d n u (scan_next-valid a e.0 v key) b
              shorter in
          ap (collect_step rounds a s) cut
          ∙ rw (named, go_on, behind)
              (sym (state_entries-append s.versions (take a.limit m) (drop a.limit m))
                ∙ ap (state_entries s.versions) (take-drop a.limit m))
    ]

found_length : (prefix cursor : Bytes) (m : Map Bytes) → length (found prefix cursor m) ≤ length m
unfolding found
found_length p c m = omega (arith, length-sorted (matching p c m), length-matching p c m)

-- A client of a configured store that starts without a cursor, with arguments that pass their check
-- (a limit of 1 to 256), and follows the cursor of each page of env.state_scan collects, in at most
-- one round more than the store has entries, exactly the entries whose key has the prefix, each once
-- and in increasing order of their keys, if no key is empty, keys are distinct and valid UTF-8, and
-- there are less than 2 ^ 32 of them.
pub collect_all :
    (a : StateScanArgs) (s : Store)
    → IsDistinct s.values
    → Above [] s.values
    → KeysValid s.values
    → validate_scan_args a ≡ ok tt
    → length s.values < 2 ^ 32
    → a.cursor ≡ []
    → (m : Map Bytes) × (collect (suc (length s.values)) a s ≡ state_entries s.versions m)
      × IsOrdered m
      × ((k : Bytes) → lookup k m ≡ (if has_prefix k a.prefix then lookup k s.values else none))
unfolding found
collect_all a s d n u v b c = (
  found a.prefix a.cursor s.values,
  collect-found (suc (length s.values)) a s d n u v b
      (omega (arith, found_length a.prefix a.cursor s.values)),
  sorted-IsOrdered (matching a.prefix a.cursor s.values)
      (matching-IsDistinct a.prefix a.cursor s.values d),
  λ k.
      lookup-sorted k (matching a.prefix a.cursor s.values)
        (matching-IsDistinct a.prefix a.cursor s.values d)
      ∙ lookup-matching k a.prefix a.cursor s.values
      ∙ ap (λ b. if b then lookup k s.values else none) (keeps_start a.prefix a.cursor k c),
)
