-- ===== src/GoStd/Tests.antt =====
-- Runs of the modelled parts of the standard library.
use torana_plugin_sdk.Prelude.{◌≡◌, refl, codes, true, false, some, none, [], ◌∷◌}
use torana_plugin_sdk.GoStd.Json.{decode_kind, json_valid, object, array, scalar}
use torana_plugin_sdk.GoStd.Decimal.{itoa}
use torana_plugin_sdk.GoStd.Utf8.{utf8_step}
use torana_plugin_sdk.GoStd.Strings.{split, runes, is_blank, bytes_lt, to_lower}

decodes :
    (decode_kind (codes " {\"a\":[1,2.5e-3,{}], \"b\":\"\\u00e9\"} x") ≡ some object)
    × (decode_kind (codes "[]") ≡ some array)
    × (decode_kind (codes "-0") ≡ some scalar)
    × (decode_kind (codes "{\"a\":01}") ≡ none)
    × (decode_kind (codes "{\"a\":1-2}") ≡ none)
    × (decode_kind (codes "{\"a\" 1}") ≡ none)
    × (decode_kind (codes "[1,]") ≡ none)
    × (decode_kind (codes "nul") ≡ none)
unfolding decode_kind
decodes = (refl, refl, refl, refl, refl, refl, refl, refl)

valids :
    (json_valid (codes " {\"a\":[null,false]} \n") ≡ true)
    × (json_valid (codes "12 ") ≡ true)
    × (json_valid (codes "12") ≡ true)
    × (json_valid (codes "{} x") ≡ false)
    × (json_valid (codes "1-2") ≡ false)
    × (json_valid (codes "") ≡ false)
unfolding json_valid
valids = (refl, refl, refl, refl, refl, refl)

decimals : (itoa 0 ≡ codes "0") × (itoa 7 ≡ codes "7") × (itoa 1000 ≡ codes "1000")
unfolding itoa
decimals = (refl, refl, refl)

strings :
    (split (codes "a//b") b'/' ≡ codes "a" ∷ [] ∷ codes "b" ∷ [])
    × (runes (0xC3 ∷ 0xA9 ∷ 0x41 ∷ 0xFF ∷ 0xE2 ∷ []) ≡ 0xE9 ∷ 0x41 ∷ 0xFFFD ∷ 0xFFFD ∷ [])
    × (is_blank (0x20 ∷ 0xE3 ∷ 0x80 ∷ 0x80 ∷ []) ≡ true)
    × (bytes_lt (codes "ab") (codes "b") ≡ true)
    × (to_lower (codes "Etag-1") ≡ codes "etag-1")
unfolding split runes is_blank bytes_lt to_lower utf8_step
strings = (refl, refl, refl, refl, refl)
