-- ===== src/GoStd/Decimal.antt =====
-- strconv.Itoa on a number that is not negative.
use torana_plugin_sdk.Prelude.{
  ℕ, zero, suc, ◌+◌, ◌-◌, ◌*◌, ◌/◌, ◌%◌, ◌<◌, Bytes, [], ◌∷◌, ◌++◌, ltb, if◌then◌else◌, ◌≡◌, refl,
  sym, ap, ◌∙◌, arith, Bool-cases, inl, inr,
}

-- One digit per unit of fuel; a number has fewer digits than its own value plus one.
unfoldable pub digits : ℕ → ℕ → Bytes
digits zero n = []
digits (suc f) n =
    let front = digits f (n / 10) in
    if ltb n 10 then (b'0' + n) ∷ [] else front ++ (b'0' + n % 10) ∷ []

unfoldable pub itoa : ℕ → Bytes
unfolding digits
itoa n = digits (suc n) n

-- The number that decimal digits write, behind `n`.
unfoldable pub decimal : ℕ → Bytes → ℕ
decimal n [] = n
decimal n (c ∷ cs) = decimal (n * 10 + (c - b'0')) cs

decimal-append :
    (n : ℕ) (cs : Bytes) (c : ℕ) → decimal n (cs ++ (c ∷ [])) ≡ decimal n cs * 10 + (c - b'0')
unfolding decimal
decimal-append n [] c = refl
decimal-append n (x ∷ cs) c = decimal-append (n * 10 + (x - b'0')) cs c

decimal-digits : (f n : ℕ) → n < f → decimal 0 (digits f n) ≡ n
unfolding digits
decimal-digits zero n h = absurd (omega arith)
decimal-digits (suc f) n h = elim (Bool-cases (ltb n 10)) [
  | inl t ↦ rw t (unfold decimal in omega arith)
  | inr t ↦
      rw
        (
          t,
          decimal-append 0 (digits f (n / 10)) (b'0' + n % 10),
          decimal-digits f (n / 10) (ground arith),
        )
        (omega arith)
]

-- `strconv.Itoa` writes different numbers differently.
pub decimal-itoa : (n : ℕ) → decimal 0 (itoa n) ≡ n
unfolding itoa
decimal-itoa n = decimal-digits (suc n) n (omega arith)

pub itoa_injective : (m n : ℕ) → itoa m ≡ itoa n → m ≡ n
itoa_injective m n h = sym (decimal-itoa m) ∙ ap (decimal 0) h ∙ decimal-itoa n

hex_char : ℕ → ℕ
hex_char d = if ltb d 10 then b'0' + d else b'a' + (d - 10)

-- `hex.EncodeToString`
unfoldable pub hex_encode : Bytes → Bytes
unfolding hex_char
hex_encode [] = []
hex_encode (c ∷ cs) = hex_char (c / 16) ∷ hex_char (c % 16) ∷ hex_encode cs

hex_char_injective : (a b : ℕ) → hex_char a ≡ hex_char b → a ≡ b
unfolding hex_char
hex_char_injective a b h = ground arith

cons_injective : (a b : ℕ) (x y : Bytes) → (a ∷ x) ≡ (b ∷ y) → (a ≡ b) × (x ≡ y)
cons_injective a b x y h = (cc, cc)

pub hex_encode_injective : (a b : Bytes) → hex_encode a ≡ hex_encode b → a ≡ b
unfolding hex_encode
hex_encode_injective [] [] h = refl
hex_encode_injective [] (y ∷ b) h = absurd cc
hex_encode_injective (x ∷ a) [] h = absurd cc
hex_encode_injective (x ∷ a) (y ∷ b) h =
    let (high, more) = cons_injective _ _ _ _ h in
    let (low, rest) = cons_injective _ _ _ _ more in
    let hi = hex_char_injective (x / 16) (y / 16) high in
    let lo = hex_char_injective (x % 16) (y % 16) low in
    let first : x ≡ y = omega (arith, hi, lo) in cc (first, hex_encode_injective a b rest)
