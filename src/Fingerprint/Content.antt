-- ===== src/Fingerprint/Content.antt =====
-- `ToolResultContentFingerprint`
use torana_plugin_sdk.Prelude.{
  ℕ, ◌/◌, ◌%◌, ◌^◌, Bool, not, Bytes, List, [], ◌∷◌, ◌++◌, Option, none, some, Result, Check, ok,
  err, ◌>>◌, refuse_if, length, codes, if◌then◌else◌, ◌==◌, ◌||◌, false,
}
use torana_plugin_sdk.GoStd.Json.{json_valid}
use torana_plugin_sdk.JsonText
use torana_plugin_sdk.JsonText.{JsonError}
use torana_plugin_sdk.Proto.Request.{ContentKind, ContentBlock}

pub data FingerprintError : Type 0 where
  nil_message nil_block nil_arm no_arm : FingerprintError
  invalid_json not_an_object : FingerprintError
  text : JsonError → FingerprintError

lift_text : Check JsonError → Check FingerprintError
lift_text (ok tt) = ok tt
lift_text (err e) = err (text e)

-- `bytes.TrimSpace` and the test of the first byte, on valid JSON, whose white space is ASCII
first_byte : Bytes → Option ℕ
first_byte [] = none
first_byte (c ∷ cs) =
    let rest = first_byte cs in
    if c == b' ' || c == b'\t' || c == b'\n' || c == b'\r' then rest else some c

is_object : Option ℕ → Bool
is_object none = false
is_object (some c) = c == b'{'

-- `validateStrictObject`
unfoldable pub validate_strict_object : Bytes → Check FingerprintError
unfolding lift_text first_byte is_object
validate_strict_object raw =
    refuse_if (not (json_valid raw)) invalid_json
    >> lift_text (JsonText.validate raw)
    >> refuse_if (not (is_object (first_byte raw))) not_an_object

-- A fixed-width big-endian uint64.
unfoldable pub u64 : ℕ → Bytes
u64 n =
    n / 2 ^ 56 % 256
    ∷ n / 2 ^ 48 % 256
    ∷ n / 2 ^ 40 % 256
    ∷ n / 2 ^ 32 % 256
    ∷ n / 2 ^ 24 % 256
    ∷ n / 2 ^ 16 % 256
    ∷ n / 2 ^ 8 % 256
    ∷ n % 256
    ∷ []

-- The closure `bytes`: a length and the bytes.
unfoldable pub sized : Bytes → Bytes
unfolding u64
sized v = u64 (length v) ++ v

unfoldable pub check_content : ContentKind → Check FingerprintError
check_content (ContentKind.text (some t)) = ok tt
check_content (ContentKind.unknown (some u)) = validate_strict_object u.payload_json
check_content (ContentKind.cache_breakpoint (some c)) = validate_strict_object c.marker_json
check_content ContentKind.no_arm = err FingerprintError.no_arm
check_content _ = err nil_arm

unfoldable pub check_contents : List (Option ContentBlock) → Check FingerprintError
unfolding check_content
check_contents [] = ok tt
check_contents (none ∷ cs) = err nil_block
check_contents (some c ∷ cs) = check_content c.kind >> check_contents cs

-- The arm tag, the presence byte, and the fields of one element.
unfoldable pub element : ContentKind → Bytes
unfolding sized
element (ContentKind.text (some t)) = 1 ∷ 1 ∷ sized t.text
element (ContentKind.unknown (some u)) = 2 ∷ 1 ∷ (sized u.kind ++ sized u.payload_json)
element (ContentKind.cache_breakpoint (some c)) = 3 ∷ 1 ∷ sized c.marker_json
element _ = []

unfoldable pub elements : List (Option ContentBlock) → Bytes
unfolding element
elements [] = []
elements (none ∷ cs) = []
elements (some c ∷ cs) = element c.kind ++ elements cs

-- `toolResultContentDomainFrame`
abbrev pub domain : Bytes
domain = codes "torana/tool-result-content/v1"

unfoldable pub content_preimage : List (Option ContentBlock) → Bytes
unfolding elements
content_preimage cs = u64 (length domain) ++ (domain ++ (u64 (length cs) ++ elements cs))

module _ (sha256 : Bytes → Bytes) where
  -- `ToolResultContentFingerprint`
  unfoldable pub content_fingerprint : List (Option ContentBlock) → Result FingerprintError Bytes
  unfolding check_contents content_preimage
  content_fingerprint cs = check_contents cs >> ok (sha256 (content_preimage cs))
