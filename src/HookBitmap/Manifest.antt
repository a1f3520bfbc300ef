-- ===== src/HookBitmap/Manifest.antt =====
-- What `ValidateManifestHooks` accepts.
use torana_plugin_sdk.Prelude.{
  ℕ, zero, suc, ◌<◌, Bool, true, false, not, ◌&&◌, ◌||◌, List, [], ◌∷◌, Result, Check, ok, err,
  ◌>>◌, ◌>>=◌, refuse_if, is_empty, ◌==◌, ==_iff, within, ◌≡◌, refl, sym, ap, ◌∙◌, arith,
  Bool-cases, inl, inr,
}
use torana_plugin_sdk.HookBitmap.{
  Bitmap, BitmapError, no_hooks, named, bit, known_hooks_mask, union, and_not, zero_below,
  bitmap_loop, bitmap_of, member, check_hook, expected_loop, expected_bitmap, compare_bitmaps,
  validate_manifest_hooks,
}

zero_below-at : (n : ℕ) (b : Bitmap) (k : ℕ) → zero_below n b ≡ true → k < n → b k ≡ false
unfolding zero_below
zero_below-at zero b k h l = absurd (omega (arith, l))
zero_below-at (suc n) b k h l = elim (Bool-cases (k == n)) [
  | inl e ↦ ap b ((==_iff k n).0 e) ∙ ground arith
  | inr e ↦ zero_below-at n b k (ground arith) (ground arith)
]

zero_below_all : (n : ℕ) (b : Bitmap) → ((k : ℕ) → b k ≡ false) → zero_below n b ≡ true
unfolding zero_below
zero_below_all zero b f = refl
zero_below_all (suc n) b f = ground (arith, f n, zero_below_all n b f)

bit-zero : (h : ℕ) → within 1 31 h && named h ≡ false → zero_below 32 (bit h) ≡ true
unfolding bit
bit-zero h v = zero_below_all 32 (bit h) (λ k. rw (v) refl)

checked_first :
    {A : Type 0} (m : Check BitmapError) (r : Result BitmapError A) (a : A)
    → (m >> r) ≡ ok a
    → (m ≡ ok tt) × (r ≡ ok a)
checked_first (ok tt) r a h = (refl, h)
checked_first (err e) r a h = absurd (ground arith)

or_assoc : (x y z : Bool) → ((x || y) || z) ≡ (x || (y || z))
or_assoc x y z = ground arith

or_false : (x : Bool) → x ≡ (x || false)
or_false x = ground arith

ok_injective : {A : Type 0} (a b : A) (r : Result BitmapError A) → r ≡ ok a → r ≡ ok b → a ≡ b
ok_injective a b r p q = cc

check_hook-bit : (h k : ℕ) (seen : List ℕ) → check_hook h seen ≡ ok tt → bit h k ≡ (k == h)
unfolding check_hook bit
check_hook-bit h k seen e = elim (Bool-cases (within 1 31 h && named h)) [
  | inl v ↦ rw (v) refl
  | inr v ↦ absurd (ground (arith, bit-zero h v))
]

expected_loop-bits :
    (b : Bitmap) (seen hs : List ℕ) (out : Bitmap) (k : ℕ)
    → expected_loop b seen hs ≡ ok out
    → out k ≡ (b k || member k hs)
unfolding expected_loop member
expected_loop-bits b seen [] out k h =
    ap (λ f. f k) (ok_injective out b (ok b) h refl) ∙ or_false (b k)
expected_loop-bits b seen (x ∷ hs) out k h =
    let p =
      checked_first (check_hook x seen) (expected_loop (union b (bit x)) (x ∷ seen) hs) out h in
    expected_loop-bits (union b (bit x)) (x ∷ seen) hs out k p.1
    ∙ or_assoc (b k) (bit x k) (member k hs)
    ∙ ap (λ y. b k || (y || member k hs)) (check_hook-bit x k seen p.0)

expected_bitmap-bits :
    (declared : List ℕ) (out : Bitmap)
    → expected_bitmap declared ≡ ok out
    → (is_empty declared ≡ false) × ((k : ℕ) → out k ≡ member k declared)
unfolding expected_bitmap
expected_bitmap-bits declared out h =
    let p =
      checked_first (refuse_if (is_empty declared) no_hooks)
        (expected_loop (λ k. false) [] declared) out h in
    (ground arith, λ k. expected_loop-bits (λ k. false) [] declared out k p.1)

compare_bitmaps-agree :
    (bitmap expected : Bitmap) (k : ℕ)
    → compare_bitmaps bitmap expected ≡ ok tt
    → k < 32
    → bitmap k ≡ expected k
unfolding compare_bitmaps
compare_bitmaps-agree bitmap expected k h l = ground (
  arith,
  zero_below-at 32 (and_not expected bitmap) k,
  zero_below-at 32 (and_not bitmap expected) k,
)

-- A bitmap is accepted for a manifest only if the manifest declares a hook and the bitmap has
-- exactly the bits of the declared hooks.
pub manifest_hooks_agree :
    (bitmap : Bitmap) (declared : List ℕ)
    → validate_manifest_hooks bitmap declared ≡ ok tt
    → (is_empty declared ≡ false) × ((k : ℕ) → k < 32 → bitmap k ≡ member k declared)
unfolding validate_manifest_hooks
manifest_hooks_agree bitmap declared h = by_expected (expected_bitmap declared) refl
  where
    by_expected :
        (r : Result BitmapError Bitmap)
        → expected_bitmap declared ≡ r
        → (is_empty declared ≡ false) × ((k : ℕ) → k < 32 → bitmap k ≡ member k declared)
    by_expected (err e) q = absurd (ground arith)
    by_expected (ok out) q =
        let p = expected_bitmap-bits declared out q in
        let same : compare_bitmaps bitmap out ≡ ok tt =
          ap (λ r. r >>= compare_bitmaps bitmap) (sym q) ∙ h in
        (p.0, λ k l. compare_bitmaps-agree bitmap out k same l ∙ p.1 k)

expected_loop-bitmap_loop :
    (b : Bitmap) (seen hs : List ℕ) (out : Bitmap)
    → expected_loop b seen hs ≡ ok out
    → out ≡ bitmap_loop b hs
unfolding expected_loop bitmap_loop
expected_loop-bitmap_loop b seen [] out h = ok_injective out b (ok b) h refl
expected_loop-bitmap_loop b seen (x ∷ hs) out h =
    expected_loop-bitmap_loop (union b (bit x)) (x ∷ seen) hs out
      (checked_first (check_hook x seen) (expected_loop (union b (bit x)) (x ∷ seen) hs) out h).1

bit-known : (h k : ℕ) → bit h k ≡ true → known_hooks_mask k ≡ true
unfolding bit known_hooks_mask
bit-known h k e = ground (arith, ==_iff k h)

bitmap_loop-known :
    (b : Bitmap) (hs : List ℕ)
    → ((k : ℕ) → b k ≡ true → known_hooks_mask k ≡ true)
    → (k : ℕ) → bitmap_loop b hs k ≡ true
    → known_hooks_mask k ≡ true
unfolding bitmap_loop
bitmap_loop-known b [] f k e = f k e
bitmap_loop-known b (h ∷ hs) f k e =
    bitmap_loop-known (union b (bit h)) hs (λ j q. ground (arith, f j, bit-known h j)) k e

and_not_self : (x : Bool) → (x && not x) ≡ false
and_not_self x = ground arith

and_not-below : (x y : Bool) → (x ≡ true → y ≡ true) → (x && not y) ≡ false
and_not-below x y f = ground (arith, f)

-- A guest that reports the bitmap of the declared hooks is accepted, for every manifest that is
-- itself well formed.
pub bitmap_of_accepted :
    (declared : List ℕ) (out : Bitmap)
    → expected_bitmap declared ≡ ok out
    → validate_manifest_hooks (bitmap_of declared) declared ≡ ok tt
unfolding validate_manifest_hooks expected_bitmap bitmap_of compare_bitmaps
bitmap_of_accepted declared out h =
    let p =
      checked_first (refuse_if (is_empty declared) no_hooks)
        (expected_loop (λ k. false) [] declared) out h in
    let b = bitmap_loop (λ k. false) declared in
    let same : out ≡ b = expected_loop-bitmap_loop (λ k. false) [] declared out p.1 in
    let known = zero_below_all 32 (and_not b known_hooks_mask) (λ k.
      and_not-below (b k) (known_hooks_mask k)
        (bitmap_loop-known (λ j. false) declared (λ j q. absurd (ground arith)) k)) in
    let none_left = zero_below_all 32 (and_not b b) (λ k. and_not_self (b k)) in
    ap (λ r. r >>= compare_bitmaps b) (h ∙ ap ok same) ∙ rw (known, none_left) refl
