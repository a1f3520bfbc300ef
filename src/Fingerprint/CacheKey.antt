-- ===== src/Fingerprint/CacheKey.antt =====
-- cachekey.go: the key of a derived value.
use torana_plugin_sdk.Prelude.{
  true, Bytes, List, [], ◌∷◌, ◌++◌, codes, length, drop, drop-append, is_empty, ◌==◌, ◌&&◌,
  if◌then◌else◌, All, ◌≡◌, ◌⊎◌, inl, inr, refl, sym, ap, ◌∙◌,
}
use torana_plugin_sdk.GoStd.Decimal.{hex_encode, hex_encode_injective}
use torana_plugin_sdk.GoStd.Strings.{all_bytes}
use torana_plugin_sdk.Fingerprint.Frames.{Frame, hashed, is_plain, hashed_injective}
use torana_plugin_sdk.Fingerprint.Injective.{Collision, same_digest_cases, cons_head, cons_tail}

-- `strings.TrimSuffix(namespace, ":")`
unfoldable pub trim_colon : Bytes → Bytes
trim_colon [] = []
trim_colon (c ∷ cs) = let rest = trim_colon cs in if c == b':' && is_empty cs then [] else c ∷ rest

-- An input is hashed as a frame without a tag.
unfoldable pub untagged : List Bytes → List Frame
untagged [] = []
untagged (input ∷ inputs) = ([], input) ∷ untagged inputs

-- `ContentAddressedCacheKey`
unfoldable pub content_addressed_cache_key : (Bytes → Bytes) → Bytes → List Bytes → Bytes
unfolding trim_colon untagged
content_addressed_cache_key sha256 namespace inputs =
    trim_colon namespace ++ (codes ":sha256:" ++ hex_encode (sha256 (hashed (untagged inputs))))

append_cancel : (xs : Bytes) {a b : Bytes} → xs ++ a ≡ xs ++ b → a ≡ b
append_cancel xs {a} {b} h = sym (drop-append xs a) ∙ ap (drop (length xs)) h ∙ drop-append xs b

untagged-All : (xs : List Bytes) → All (λ f. is_plain f ≡ true) (untagged xs)
unfolding untagged is_plain all_bytes
untagged-All [] = tt
untagged-All (x ∷ xs) = (refl, untagged-All xs)

untagged_injective : (xs ys : List Bytes) → untagged xs ≡ untagged ys → xs ≡ ys
unfolding untagged
untagged_injective [] [] h = refl
untagged_injective [] (y ∷ ys) h = absurd cc
untagged_injective (x ∷ xs) [] h = absurd cc
untagged_injective (x ∷ xs) (y ∷ ys) h =
    let here : x ≡ y = ap (λ f. f.1) (cons_head h) in
    let rest = untagged_injective xs ys (cons_tail h) in cc (here, rest)

-- Two lists of inputs with the same key in a namespace are the same list, however their bytes are
-- cut, or a collision of the hash is found.
pub equal_cache_keys :
    (sha256 : Bytes → Bytes) (namespace : Bytes) (xs ys : List Bytes)
    → content_addressed_cache_key sha256 namespace xs
      ≡ content_addressed_cache_key sha256 namespace ys
    → (xs ≡ ys) ⊎ Collision sha256
unfolding content_addressed_cache_key
equal_cache_keys sha256 namespace xs ys h =
    let digests =
      hex_encode_injective _ _
        (append_cancel (codes ":sha256:") (append_cancel (trim_colon namespace) h)) in
    elim (same_digest_cases sha256 (hashed (untagged xs)) (hashed (untagged ys)) digests) [
      | inl e ↦ inl (
          untagged_injective xs ys
            (hashed_injective (untagged xs) (untagged ys) (untagged-All xs) (untagged-All ys) e))
      | inr c ↦ inr c
    ]
