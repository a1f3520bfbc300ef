-- ===== src/Envelope/Closed.antt =====
-- `validateClosed` of pb/v1/foundation_validate.go with `checkNoUnknown` and `checkStringsUTF8`,
-- over the view that protobuf reflection gives of a message: its unknown fields, its strings, and
-- the messages that its fields hold.
pub mod Inside
use torana_plugin_sdk.Prelude.{
  Bool, true, false, not, ◌&&◌, Bytes, List, [], ◌∷◌, Check, ok, err, ◌>>◌, refuse_if, is_empty,
}
use torana_plugin_sdk.GoStd.Utf8.{utf8_valid}

mutual
  pub data Reflected : Type 0 where
    message : Bytes → List Bytes → Children → Reflected

  pub data Children : Type 0 where
    last : Children
    child : Reflected → Children → Children

pub data ClosedError : Type 0 where
  unknown_fields invalid_utf8 : ClosedError

unfoldable pub strings_valid : List Bytes → Bool
strings_valid [] = true
strings_valid (s ∷ ss) = utf8_valid s && strings_valid ss

-- `checkStringsUTF8` walks down by itself.
unfoldable mutual
  unfolding strings_valid

  pub strings_utf8 : Reflected → Bool
  strings_utf8 (message unknown strings cs) = strings_valid strings && children_utf8 cs

  pub children_utf8 : Children → Bool
  children_utf8 last = true
  children_utf8 (child m cs) = strings_utf8 m && children_utf8 cs

-- The `walk` of `validateClosed`.
unfoldable mutual
  pub validate_closed : Reflected → Check ClosedError
  validate_closed (message unknown strings cs) =
      refuse_if (not (is_empty unknown)) unknown_fields
      >> refuse_if (not (strings_utf8 (message unknown strings cs))) invalid_utf8
      >> validate_children cs

  pub validate_children : Children → Check ClosedError
  validate_children last = ok tt
  validate_children (child m cs) = validate_closed m >> validate_children cs
