-- ===== src/JsonText/Tests.antt =====
-- Runs of the scanner of pb/v1/jsontext at fixed documents.
use torana_plugin_sdk.Prelude.{◌≡◌, refl, codes, ok, err, bytes_eq, Bytes, Check}
use torana_plugin_sdk.GoStd.Utf8.{utf8_valid, append_rune}
use torana_plugin_sdk.JsonText.{
  JsonError, validate, duplicate_member, lone_high_surrogate, trailing_data, malformed_number,
  value, value_switch, value_start, bracket, closes_at_once, scalar, literal, strip_prefix, number,
  number_loop, decode_string, string_loop, string_step, escape_step, unicode_escape, low_surrogate,
  hex_rune, hex_step, hex_digit, simple_escape, member_name, seen, colon, separator, skip_ws,
  finish,
}

-- The scanner with all its parts open.
run : Bytes → Check JsonError
unfolding validate value value_switch value_start bracket closes_at_once scalar literal strip_prefix
    number number_loop decode_string string_loop string_step escape_step unicode_escape
    low_surrogate hex_rune hex_step hex_digit simple_escape member_name seen colon separator skip_ws
    finish bytes_eq utf8_valid append_rune
run = validate

accepts : run (codes "{\"a\": [1, -2.5e3, true], \"b\": {\"a\": null}}") ≡ ok tt
unfolding run
accepts = refl

refuses_duplicate : run (codes "{\"a\": 1, \"\\u0061\": 2}") ≡ err duplicate_member
unfolding run
refuses_duplicate = refl

refuses_lone_high : run (codes "[\"\\ud800x\"]") ≡ err lone_high_surrogate
unfolding run
refuses_lone_high = refl

refuses_trailing : run (codes "1 2") ≡ err trailing_data
unfolding run
refuses_trailing = refl

refuses_minus : run (codes "[-]") ≡ err malformed_number
unfolding run
refuses_minus = refl
