-- ===== src/Examples/Fingerprints.antt =====
-- The theorems on fingerprints at small messages, with the identity for the hash.
use torana_plugin_sdk.Prelude.{Bytes, List, [], ◌∷◌, Option, some, ok, codes, ◌≡◌, ◌⊎◌, refl, arith}
use torana_plugin_sdk.GoStd.Decimal.{hex_encode}
use torana_plugin_sdk.Proto.Request.{Message, ContentBlock, ContentKind}
use torana_plugin_sdk.Samples.{text_block}
use torana_plugin_sdk.Fingerprint.Frames.{hashed}
use torana_plugin_sdk.Fingerprint.Content.{
  check_content, check_contents, content_preimage, content_fingerprint, elements, element,
}
use torana_plugin_sdk.Fingerprint.{
  check_kind, check_blocks, validate_optional_object, block_frames, request_blocks_fingerprint,
}
use torana_plugin_sdk.Fingerprint.Injective.{Collision, views, equal_fingerprints}
use torana_plugin_sdk.Fingerprint.Nested.{all_bare, equal_content_fingerprints}
use torana_plugin_sdk.Fingerprint.CacheKey.{equal_cache_keys}

abbrev same : Bytes → Bytes
same b = b

abbrev hello : Bytes → Message
hello unknown = record {
  role = codes "user";
  blocks = text_block (codes "hi") ∷ text_block (codes "1:2") ∷ [];
  unknown_fields = unknown;
}

abbrev hello_digest : Bytes
hello_digest =
    hex_encode (hashed ((codes "role", codes "user") ∷ block_frames same 0 (hello []).blocks))

hello-fingerprint : request_blocks_fingerprint same (some (hello [])) ≡ ok hello_digest
unfolding request_blocks_fingerprint check_blocks check_kind validate_optional_object
hello-fingerprint = refl

hello_extended-fingerprint :
    request_blocks_fingerprint same (some (hello (codes "x"))) ≡ ok hello_digest
unfolding request_blocks_fingerprint check_blocks check_kind validate_optional_object
hello_extended-fingerprint = refl

equal_fingerprints_example :
    (((hello []).role ≡ (hello (codes "x")).role)
      × (views same (hello []).blocks ≡ views same (hello (codes "x")).blocks))
    ⊎ Collision same
equal_fingerprints_example =
    equal_fingerprints same (hello []) (hello (codes "x")) hello_digest hello-fingerprint
      hello_extended-fingerprint

abbrev output : Bytes → List (Option ContentBlock)
output unknown =
    some (record {
      kind = ContentKind.text (some (record { text = codes "ok"; unknown_fields = unknown }));
      unknown_fields = [];
    })
    ∷ []

abbrev output_digest : Bytes
output_digest = content_preimage (output [])

output-fingerprint : content_fingerprint same (output []) ≡ ok output_digest
unfolding content_fingerprint check_contents check_content
output-fingerprint = refl

output_extended-fingerprint : content_fingerprint same (output (codes "x")) ≡ ok output_digest
unfolding content_fingerprint check_contents check_content content_preimage elements element
output_extended-fingerprint = refl

equal_content_fingerprints_example :
    (all_bare (output []) ≡ all_bare (output (codes "x"))) ⊎ Collision same
equal_content_fingerprints_example =
    equal_content_fingerprints same (output []) (output (codes "x")) output_digest (omega arith, tt)
      (omega arith, tt) output-fingerprint output_extended-fingerprint

abbrev inputs : List Bytes
inputs = codes "ab" ∷ codes "c" ∷ []

equal_cache_keys_example : (inputs ≡ inputs) ⊎ Collision same
equal_cache_keys_example = equal_cache_keys same (codes "ns:") inputs inputs refl
