-- ===== src/HookBitmap.antt =====
-- pb/v1/hooks.go: the bitmap of the hooks that a guest supports, against its manifest. A hook is
-- its enum number, open as on the wire, and a 32-bit bitmap is the function from its positions.
pub mod Manifest
use torana_plugin_sdk.Prelude.{
  ℕ, zero, suc, ◌<◌, Bool, true, false, not, ◌&&◌, ◌||◌, List, [], ◌∷◌, Result, Check, ok, err,
  ◌>>◌, ◌>>=◌, refuse_if, is_empty, ◌==◌, ==_iff, within, ◌≡◌, refl, sym, ap, ◌∙◌, arith,
  Bool-cases, inl, inr, >>-eq-ok, if◌then◌else◌,
}

abbrev pub Bitmap : Type 0
Bitmap = ℕ → Bool

pub data BitmapError : Type 0 where
  no_hooks declares_unspecified outside_capacity unknown_hook declared_twice : BitmapError
  unexpected_bits mismatch : BitmapError

-- The numbers that the enum Hook names: HOOK_UNSPECIFIED up to HOOK_ON_TICK.
abbrev pub named : ℕ → Bool
named h = within 0 5 h

-- `Hook.Bit`
unfoldable pub bit : ℕ → Bitmap
bit h k = within 1 31 h && named h && k == h

-- `KnownHooksMask`
unfoldable pub known_hooks_mask : Bitmap
known_hooks_mask k = within 1 31 k && named k

-- `|` and `&^`
abbrev pub union : Bitmap → Bitmap → Bitmap
union b c k = b k || c k

abbrev pub and_not : Bitmap → Bitmap → Bitmap
and_not b c k = b k && not (c k)

-- `== 0`, over the positions below `n`
unfoldable pub zero_below : ℕ → Bitmap → Bool
zero_below zero b = true
zero_below (suc n) b = not (b n) && zero_below n b

-- The loop of `BitmapOf`, and `BitmapOf`.
unfoldable pub bitmap_loop : Bitmap → List ℕ → Bitmap
bitmap_loop b [] = b
bitmap_loop b (h ∷ hs) = bitmap_loop (union b (bit h)) hs

unfoldable pub bitmap_of : List ℕ → Bitmap
bitmap_of hooks = bitmap_loop (λ k. false) hooks

unfoldable pub member : ℕ → List ℕ → Bool
member x [] = false
member x (y ∷ ys) = x == y || member x ys

unfoldable pub check_hook : ℕ → List ℕ → Check BitmapError
check_hook h seen =
    refuse_if (h == 0) declares_unspecified
    >> refuse_if (not (within 1 31 h)) outside_capacity
    >> refuse_if (zero_below 32 (bit h)) unknown_hook
    >> refuse_if (member h seen) declared_twice

-- The loop of `ExpectedBitmap`.
unfoldable pub expected_loop : Bitmap → List ℕ → List ℕ → Result BitmapError Bitmap
expected_loop b seen [] = ok b
expected_loop b seen (h ∷ hs) = check_hook h seen >> expected_loop (union b (bit h)) (h ∷ seen) hs

-- `ExpectedBitmap`
unfoldable pub expected_bitmap : List ℕ → Result BitmapError Bitmap
expected_bitmap declared =
    refuse_if (is_empty declared) no_hooks >> expected_loop (λ k. false) [] declared

unfoldable pub compare_bitmaps : Bitmap → Bitmap → Check BitmapError
compare_bitmaps bitmap expected =
    refuse_if (not (zero_below 32 (and_not bitmap known_hooks_mask))) unexpected_bits
    >> refuse_if
        (not (zero_below 32 (and_not expected bitmap) && zero_below 32 (and_not bitmap expected)))
        mismatch

-- `ValidateManifestHooks`
unfoldable pub validate_manifest_hooks : Bitmap → List ℕ → Check BitmapError
validate_manifest_hooks bitmap declared = expected_bitmap declared >>= compare_bitmaps bitmap
