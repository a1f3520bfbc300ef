-- ===== src/GoStd/Json.antt =====
-- encoding/json: the scanner's state machine (scanner.go), with `Valid` and the first value that a
-- `Decoder` with `UseNumber` reads into an `any`.
use torana_plugin_sdk.Prelude.{
  ℕ, zero, suc, Bool, true, false, ◌||◌, Bytes, List, [], ◌∷◌, Option, none, some, ◌==◌, ltb,
  within, if◌then◌else◌, codes, length,
}

-- What encloses the byte that is read.
pub data Enclosing : Type 0 where
  object_key object_value array_value : Enclosing

pub data ScanStep : Type 0 where
  begin_value begin_value_or_empty begin_string begin_string_or_empty : ScanStep
  in_string in_escape neg int_digits int_done dot fraction exponent exponent_sign exponent_digits :
      ScanStep
  in_unicode : ℕ → ScanStep
  in_literal : ℕ → Bytes → ScanStep
  end_value : ScanStep

pub data Scan : Type 0 where
  running : ScanStep → List Enclosing → Scan
  -- the value ended before the byte that was read last, or with it
  finished : Scan
  syntax_error : Scan

abbrev is_space : ℕ → Bool
is_space c = c == b' ' || c == b'\t' || c == b'\n' || c == b'\r'

abbrev is_digit : ℕ → Bool
is_digit c = within b'0' b'9' c

abbrev is_hex : ℕ → Bool
is_hex c = is_digit c || within b'a' b'f' c || within b'A' b'F' c

-- `maxNestingDepth`
push : Enclosing → ScanStep → List Enclosing → Scan
push e s stack = if ltb 10000 (suc (length stack)) then syntax_error else running s (e ∷ stack)

pop : List Enclosing → Scan
pop [] = finished
pop (e ∷ stack) = running end_value (e ∷ stack)

after_value : List Enclosing → ℕ → Scan
unfolding pop
after_value [] c = finished
after_value (object_key ∷ stack) c =
    if is_space c
    then running end_value (object_key ∷ stack)
    else if c == b':'
    then running begin_value (object_value ∷ stack)
    else syntax_error
after_value (object_value ∷ stack) c =
    if is_space c
    then running end_value (object_value ∷ stack)
    else if c == b','
    then running begin_string (object_key ∷ stack)
    else if c == b'}'
    then pop stack
    else syntax_error
after_value (array_value ∷ stack) c =
    if is_space c
    then running end_value (array_value ∷ stack)
    else if c == b','
    then running begin_value (array_value ∷ stack)
    else if c == b']'
    then pop stack
    else syntax_error

at_value : List Enclosing → ℕ → Scan
unfolding push
at_value stack c =
    if is_space c
    then running begin_value stack
    else if c == b'{'
    then push object_key begin_string_or_empty stack
    else if c == b'['
    then push array_value begin_value_or_empty stack
    else if c == b'"'
    then running in_string stack
    else if c == b'-'
    then running neg stack
    else if c == b'0'
    then running int_done stack
    else if c == b't'
    then running (in_literal b'r' (codes "ue")) stack
    else if c == b'f'
    then running (in_literal b'a' (codes "lse")) stack
    else if c == b'n'
    then running (in_literal b'u' (codes "ll")) stack
    else if is_digit c
    then running int_digits stack
    else syntax_error

at_string : List Enclosing → ℕ → Scan
at_string stack c =
    if is_space c
    then running begin_string stack
    else if c == b'"'
    then running in_string stack
    else syntax_error

-- `}` behind `{`: the enclosing object is taken to be behind a value.
empty_object : List Enclosing → Scan
unfolding pop
empty_object [] = syntax_error
empty_object (e ∷ stack) = pop stack

is_escape : ℕ → Bool
is_escape c =
    c == b'b'
    || c == b'f'
    || c == b'n'
    || c == b'r'
    || c == b't'
    || c == b'\\'
    || c == b'/'
    || c == b'"'

in_number : List Enclosing → ℕ → Scan
unfolding after_value
in_number stack c =
    if c == b'.'
    then running dot stack
    else if c == b'e' || c == b'E'
    then running exponent stack
    else after_value stack c

unicode_step : ℕ → List Enclosing → ℕ → Scan
unicode_step zero stack c = if is_hex c then running in_string stack else syntax_error
unicode_step (suc n) stack c = if is_hex c then running (in_unicode n) stack else syntax_error

literal_step : ℕ → Bytes → List Enclosing → ℕ → Scan
literal_step w [] stack c = if c == w then running end_value stack else syntax_error
literal_step w (v ∷ vs) stack c = if c == w then running (in_literal v vs) stack else syntax_error

scan_step : ScanStep → List Enclosing → ℕ → Scan
unfolding at_value at_string empty_object is_escape in_number unicode_step literal_step pop
scan_step begin_value stack c = at_value stack c
scan_step begin_value_or_empty stack c =
    if is_space c
    then running begin_value_or_empty stack
    else if c == b']'
    then empty_object stack
    else at_value stack c
scan_step begin_string stack c = at_string stack c
scan_step begin_string_or_empty stack c =
    if is_space c
    then running begin_string_or_empty stack
    else if c == b'}'
    then empty_object stack
    else at_string stack c
scan_step in_string stack c =
    if c == b'"'
    then running end_value stack
    else if c == b'\\'
    then running in_escape stack
    else if ltb c 0x20
    then syntax_error
    else running in_string stack
scan_step in_escape stack c =
    if is_escape c
    then running in_string stack
    else if c == b'u'
    then running (in_unicode 3) stack
    else syntax_error
scan_step neg stack c =
    if c == b'0'
    then running int_done stack
    else if is_digit c
    then running int_digits stack
    else syntax_error
scan_step int_digits stack c = if is_digit c then running int_digits stack else in_number stack c
scan_step int_done stack c = in_number stack c
scan_step dot stack c = if is_digit c then running fraction stack else syntax_error
scan_step fraction stack c =
    if is_digit c
    then running fraction stack
    else if c == b'e' || c == b'E'
    then running exponent stack
    else after_value stack c
scan_step exponent stack c =
    if c == b'+' || c == b'-'
    then running exponent_sign stack
    else if is_digit c
    then running exponent_digits stack
    else syntax_error
scan_step exponent_sign stack c = if is_digit c then running exponent_digits stack else syntax_error
scan_step exponent_digits stack c =
    if is_digit c then running exponent_digits stack else after_value stack c
scan_step (in_unicode n) stack c = unicode_step n stack c
scan_step (in_literal w ws) stack c = literal_step w ws stack c
scan_step end_value stack c = after_value stack c

-- `scanner.step` and `scanner.eof`: at the end of the input one more space is read.
step : Scan → ℕ → Scan
step (running s stack) c = scan_step s stack c
step finished c = finished
step syntax_error c = syntax_error

is_finished : Scan → Bool
is_finished finished = true
is_finished _ = false

-- `Decoder.readValue`: whether a complete value stands first, whatever follows it.
read_value : Scan → Bytes → Bool
unfolding step is_finished scan_step
read_value s [] = is_finished (step s b' ')
read_value s (c ∷ cs) = read_value (step s c) cs

pub data JsonKind : Type 0 where
  object array scalar : JsonKind

first_kind : Bytes → JsonKind
first_kind [] = scalar
first_kind (c ∷ cs) =
    if is_space c
    then first_kind cs
    else if c == b'{'
    then object
    else if c == b'['
    then array
    else scalar

-- `dec.UseNumber(); dec.Decode(&v)` into an `any`: the kind of the value, or an error.
unfoldable pub decode_kind : Bytes → Option JsonKind
unfolding read_value first_kind
decode_kind raw = if read_value (running begin_value []) raw then some (first_kind raw) else none

-- A byte at the top level behind the value, which ended before it or long ago, must be space.
top_level : List Enclosing → ℕ → Scan → Scan
top_level [] c finished = if is_space c then finished else syntax_error
top_level _ c s = s

valid_step : Scan → ℕ → Scan
unfolding scan_step top_level
valid_step (running s stack) c = top_level stack c (scan_step s stack c)
valid_step finished c = if is_space c then finished else syntax_error
valid_step syntax_error c = syntax_error

valid_run : Scan → Bytes → Bool
unfolding step is_finished valid_step
valid_run s [] = is_finished (step s b' ')
valid_run s (c ∷ cs) = valid_run (valid_step s c) cs

-- `json.Valid`: one value with nothing but space round it.
unfoldable pub json_valid : Bytes → Bool
unfolding valid_run
json_valid raw = valid_run (running begin_value []) raw
