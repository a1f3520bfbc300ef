-- ===== src/TestHost/History.antt =====
-- What holds of the test host over any sequence of commands and seeds.
use torana_plugin_sdk.Prelude.{
  ℕ, ◌+◌, ◌^◌, Check, ok, err, ◌≤◌, ◌<◌, Bool, Bytes, List, [], ◌∷◌, Option, none, some, length,
  ◌≡◌, ◌⊎◌, inl, inr, refl, sym, ap, subst, arith,
}
use torana_plugin_sdk.Proto.HostCall.{SyntheticResponse}
use torana_plugin_sdk.Envelope.Closed.{Reflected}
use torana_plugin_sdk.GoStd.Decimal.{itoa}
use torana_plugin_sdk.TestHost.Replies.{Reply, guarded}
use torana_plugin_sdk.TestHost.Maps.{lookup}
use torana_plugin_sdk.TestHost.Store.Versions.{
  Change, nothing, write, perform, run_state_change, IsSound, perform-IsSound, perform-seq, Since,
  perform-Since,
}
use torana_plugin_sdk.TestHost.Host.{
  Host, Command, Event, call, seed_state, builtin, apply_event, run,
}

guarded_same : (m : Check _) (h : Host) (r : Reply) → (guarded m h (h, r)).0 ≡ h
unfolding guarded
guarded_same (ok _) h r = refl
guarded_same (err e) h r = refl

guarded_store :
    (m : Check _) (h : Host) (r : Reply)
    → (d : Change) × ((guarded m h (h, r)).0.store ≡ perform d h.store)
guarded_store m h r = (nothing, ap (λ g. g.store) (guarded_same m h r))

module _ (reflect : SyntheticResponse → Reflected) (floats_fit : Bytes → Bool)
    (format_int : ℕ → Bytes) where
  builtin_change :
      (time : ℕ) (c : Command) (h : Host)
      → (d : Change) × ((builtin reflect floats_fit format_int time c h).0.store
          ≡ perform d h.store)
  unfolding builtin
  builtin_change time (Command.state c) h = run_state_change h.state_configured c h.store
  builtin_change time (Command.credential_get slot) h = guarded_store _ h _
  builtin_change time (Command.http_request a) h = guarded_store _ h _
  builtin_change time (Command.block_request a) h = guarded_store _ h _
  builtin_change time (Command.respond_request a) h = guarded_store _ h _
  builtin_change time (Command.route_request a) h = guarded_store _ h _
  builtin_change time (Command.set_identity i) h = guarded_store _ h _
  builtin_change time _ h = (nothing, refl)

  event_change :
      (e : Event) (h : Host)
      → (d : Change) × ((apply_event reflect floats_fit format_int e h).store ≡ perform d h.store)
  unfolding apply_event
  event_change (call time c) h = builtin_change time c h
  event_change (seed_state k v) h = (write k v, refl)
  event_change _ h = (nothing, refl)

  -- From a sound store every sequence of commands and seeds leads to a sound store, if the counter
  -- of versions does not wrap on the way.
  pub run-IsSound :
      (es : List Event) (h : Host)
      → IsSound h.store
      → h.store.seq + length es < 2 ^ 64
      → IsSound ((run reflect floats_fit format_int es h).store)
  unfolding run
  run-IsSound [] h i b = i
  run-IsSound (e ∷ es) h i b =
      let (d, q) = event_change e h in
      let room : h.store.seq + 1 < 2 ^ 64 = omega (arith, b) in
      run-IsSound es (apply_event reflect floats_fit format_int e h)
        (subst IsSound (sym q) (perform-IsSound d h.store room i))
        (omega (arith, b, perform-seq d h.store room, ap (λ s. s.seq) q))

  run-Since :
      (es : List Event) (h : Host) (k v : Bytes) (x : Option Bytes) (n : ℕ)
      → v ≡ itoa n
      → n ≤ h.store.seq
      → h.store.seq + length es < 2 ^ 64
      → Since k v x h.store
      → Since k v x ((run reflect floats_fit format_int es h).store)
  unfolding run
  run-Since [] h k v x n w l b t = t
  run-Since (e ∷ es) h k v x n w l b t =
      let (d, q) = event_change e h in
      let room : h.store.seq + 1 < 2 ^ 64 = omega (arith, b) in
      let grown = perform-seq d h.store room in
      let same = ap (λ s. s.seq) q in
      run-Since es (apply_event reflect floats_fit format_int e h) k v x n w
        (omega (arith, l, grown, same)) (omega (arith, b, grown, same))
        (subst (Since k v x) (sym q) (perform-Since d h.store k v x n w l room t))

  -- A version stands for one value: if a key has a version in a sound store and, after any sequence
  -- of commands and seeds, has that version again, then its value is what it was, or was deleted.
  pub version_identifies_value :
      (es : List Event) (h : Host) (k v : Bytes)
      → IsSound h.store
      → h.store.seq + length es < 2 ^ 64
      → lookup k h.store.versions ≡ some v
      → lookup k (run reflect floats_fit format_int es h).store.versions ≡ some v
      → (lookup k (run reflect floats_fit format_int es h).store.values ≡ lookup k h.store.values)
        ⊎ (lookup k (run reflect floats_fit format_int es h).store.values ≡ none)
  version_identifies_value es h k v i b before now =
      let (n, w, l) = i.issued k v before in
      elim (run-Since es h k v (lookup k h.store.values) n w l b (inr (inl refl))) [
        | inl other ↦ absurd (other now)
        | inr kept ↦ kept
      ]
