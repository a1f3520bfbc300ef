-- ===== src/Examples/Manifests.antt =====
-- The theorems on pb/v1/hooks.go at a manifest with two hooks.
use torana_plugin_sdk.Prelude.{ℕ, ◌<◌, false, List, [], ◌∷◌, ◌≡◌, refl, ok, is_empty, ◌==◌, ◌||◌}
use torana_plugin_sdk.HookBitmap.{
  Bitmap, bit, known_hooks_mask, union, zero_below, bitmap_of, member, check_hook, expected_loop,
  expected_bitmap, compare_bitmaps, validate_manifest_hooks,
}
use torana_plugin_sdk.HookBitmap.Manifest.{manifest_hooks_agree, bitmap_of_accepted}

request_and_tick : List ℕ
request_and_tick = 1 ∷ 5 ∷ []

two_hooks : Bitmap
two_hooks k = k == 1 || k == 5

hooks-accepted : validate_manifest_hooks two_hooks request_and_tick ≡ ok tt
unfolding validate_manifest_hooks expected_bitmap expected_loop check_hook member bit zero_below
    compare_bitmaps known_hooks_mask two_hooks request_and_tick
hooks-accepted = refl

manifest_hooks_agree_example :
    (is_empty request_and_tick ≡ false)
    × ((k : ℕ) → k < 32 → two_hooks k ≡ member k request_and_tick)
manifest_hooks_agree_example = manifest_hooks_agree two_hooks request_and_tick hooks-accepted

expected : Bitmap
unfolding bit request_and_tick
expected = union (union (λ k. false) (bit 1)) (bit 5)

hooks-expected : expected_bitmap request_and_tick ≡ ok expected
unfolding expected_bitmap expected_loop check_hook member bit zero_below request_and_tick expected
hooks-expected = refl

bitmap_of_accepted_example :
    validate_manifest_hooks (bitmap_of request_and_tick) request_and_tick ≡ ok tt
bitmap_of_accepted_example = bitmap_of_accepted request_and_tick expected hooks-expected
