-- ===== src/JsonText/Total.antt =====
-- The scanner of pb/v1/jsontext always ends within its fuel: each round reads at least one byte.
use torana_plugin_sdk.Prelude.{
  ℕ, zero, suc, ◌+◌, ◌*◌, ◌≤◌, ◌<◌, Bool, true, false, Bytes, List, [], ◌∷◌, some, ◌≡◌, ◌≢◌, refl,
  subst, arith, Result, ok, err, ◌>>=◌, length, if◌then◌else◌, ltb, ◌==◌, not, ◌||◌, Bool-cases,
  inl, inr, codes, Option-cases,
}
use torana_plugin_sdk.JsonText.{
  JsonError, fuel_exhausted, skip_ws, strip_prefix, literal, number_loop, number, hex_step,
  hex_rune, low_surrogate, unicode_escape, StringStep, closed, more, escape_step, string_step,
  string_loop, decode_string, seen, member_name, colon, Separator, comma, close, separator,
  ValueStart, scalar, value_start, closes_at_once, bracket, value_switch, value, array_loop,
  object_loop, finish, validate, at_string, at_true, at_false, at_null, at_number, at_object,
  at_array, at_other, max_depth, is_digit, keep_rune,
}

abbrev is_fuel : JsonError → Bool
is_fuel fuel_exhausted = true
is_fuel _ = false

-- A result that has not run out of fuel and leaves less than `n` to read.
abbrev Leaves : {A : Type 0} → (A → ℕ) → ℕ → Result JsonError A → Type 0
Leaves m n (ok a) = m a < n
Leaves m n (err e) = is_fuel e ≡ false

Leaves-bind :
    {A B : Type 0} (m : A → ℕ) (n : ℕ) (m' : B → ℕ) (n' : ℕ)
    → (r : Result JsonError A) (f : A → Result JsonError B) → Leaves m n r
    → ((a : A) → m a < n → Leaves m' n' (f a))
    → Leaves m' n' (r >>= f)
Leaves-bind m n m' n' (ok a) f h k = k a h
Leaves-bind m n m' n' (err e) f h k = h

skip_ws-le : (r : Bytes) → length (skip_ws r) ≤ length r
unfolding skip_ws
skip_ws-le [] = omega arith
skip_ws-le (c ∷ cs) = ground (arith, skip_ws-le cs)

abbrev left : {A : Type 0} → A × Bytes → ℕ
left p = length p.1

strip_prefix-le : (w r s : Bytes) → strip_prefix w r ≡ some s → length s + length w ≤ length r
unfolding strip_prefix
strip_prefix-le [] r s h = ground arith
strip_prefix-le (w ∷ ws) [] s h = ground arith
strip_prefix-le (w ∷ ws) (c ∷ cs) s h = ground (arith, strip_prefix-le ws cs s)

literal-Leaves : (c : ℕ) (w r : Bytes) → Leaves length (length r) (literal (c ∷ w) r)
unfolding literal
literal-Leaves c w r = elim (Option-cases (strip_prefix (c ∷ w) r)) [
  | inl e ↦ ground (arith, e)
  | inr (s, e) ↦ ground (arith, e, strip_prefix-le (c ∷ w) r s e)
]

number_loop-le : (d l : ℕ) (r : Bytes) → length (number_loop d l r).2 ≤ length r
unfolding number_loop
number_loop-le d l [] = omega arith
number_loop-le d l (c ∷ cs) = ground (arith, number_loop-le (if is_digit c then d + 1 else d) c cs)

number-Leaves :
    (c : ℕ) (cs : Bytes)
    → value_start c ≡ at_number
    → Leaves length (suc (length cs)) (number (c ∷ cs))
unfolding number number_loop value_start
number-Leaves c cs h = ground (arith, number_loop-le 0 c cs, number_loop-le 1 c cs)

hex_step-finite : (r c : ℕ) → Leaves (λ x. 0) 1 (hex_step r c)
unfolding hex_step
hex_step-finite r c = ground arith

hex_rune-Leaves : (r : Bytes) → Leaves left (length r) (hex_rune r)
unfolding hex_rune
hex_rune-Leaves (a ∷ b ∷ c ∷ d ∷ r) =
    Leaves-bind (λ x. 0) 1 left _ (hex_step 0 a) _ (hex_step-finite 0 a)
      λ r1 _.
        Leaves-bind (λ x. 0) 1 left _ (hex_step r1 b) _ (hex_step-finite r1 b)
          λ r2 _.
            Leaves-bind (λ x. 0) 1 left _ (hex_step r2 c) _ (hex_step-finite r2 c)
              λ r3 _.
                Leaves-bind (λ x. 0) 1 left _ (hex_step r3 d) _ (hex_step-finite r3 d)
                  λ r4 _. omega arith
hex_rune-Leaves _ = refl

low_surrogate-Leaves : (h : ℕ) (r : Bytes) → Leaves left (length r) (low_surrogate h r)
unfolding low_surrogate
low_surrogate-Leaves h (s ∷ u ∷ r) = elim (Bool-cases (not (s == b'\\') || not (u == b'u'))) [
  | inl e ↦ rw (e, Leaves) refl
  | inr e ↦
      rw (e, Leaves)
        (Leaves-bind left (length r) left _ (hex_rune r) _ (hex_rune-Leaves r) λ p h'. ground arith)
]
low_surrogate-Leaves h _ = refl

unicode_escape-Leaves : (r : Bytes) → Leaves left (length r) (unicode_escape r)
unfolding unicode_escape
unicode_escape-Leaves r =
    Leaves-bind left (length r) left _ (hex_rune r) _ (hex_rune-Leaves r)
      λ p h. ground (arith, low_surrogate-Leaves p.0 p.1)

abbrev step_left : StringStep → ℕ
step_left (closed r) = length r
step_left (more b r) = length r

escape_u-Leaves :
    (b r : Bytes) → Leaves step_left (suc (length r)) (unicode_escape r >>= λ p. ok (keep_rune b p))
unfolding keep_rune
escape_u-Leaves b r =
    Leaves-bind left (length r) step_left _ (unicode_escape r) _ (unicode_escape-Leaves r)
      λ p h. omega arith

escape_step-Leaves : (b r : Bytes) → Leaves step_left (length r) (escape_step b r)
unfolding escape_step
escape_step-Leaves b [] = refl
escape_step-Leaves b (c ∷ r) = ground (arith, escape_u-Leaves b r)

string_step-Leaves : (b r : Bytes) → Leaves step_left (length r) (string_step b r)
unfolding string_step
string_step-Leaves b [] = refl
string_step-Leaves b (c ∷ r) = ground (arith, escape_step-Leaves b r)

Leaves-mono :
    {A : Type 0} (m : A → ℕ) (n n' : ℕ) (r : Result JsonError A)
    → Leaves m n r
    → n ≤ n'
    → Leaves m n' r
Leaves-mono m n n' (ok a) h k = omega arith
Leaves-mono m n n' (err e) h k = h

string_loop-Leaves :
    (f : ℕ) (b r : Bytes) → length r < f → Leaves left (length r) (string_loop f b r)
unfolding string_loop
string_loop-Leaves zero b r h = elim h [ ]
string_loop-Leaves (suc f) b r h =
    Leaves-bind step_left (length r) left _ (string_step b r) _ (string_step-Leaves b r) (elim [
      | closed s ↦ λ q. q
      | more b' s ↦ λ q.
          Leaves-mono left (length s) (length r) _ (string_loop-Leaves f b' s (omega arith))
            (omega arith)
    ])

decode_string-Leaves : (r : Bytes) → Leaves left (length r) (decode_string r)
unfolding decode_string
decode_string-Leaves [] = refl
decode_string-Leaves (c ∷ r) = ground (arith, string_loop-Leaves (suc (length r)) [] r)

colon-Leaves : (r : Bytes) → Leaves length (length r) (colon r)
unfolding colon
colon-Leaves [] = refl
colon-Leaves (c ∷ r) = ground (arith, skip_ws-le r)

member_name-Leaves : (scope : List Bytes) (r : Bytes) → Leaves left (length r) (member_name scope r)
unfolding member_name
member_name-Leaves scope [] = refl
member_name-Leaves scope (c ∷ r) = elim (Bool-cases (not (c == b'"'))) [
  | inl e ↦ rw (e, Leaves) refl
  | inr e ↦
      rw (e, Leaves)
        (Leaves-bind left _ left _ (decode_string (c ∷ r)) _ (decode_string-Leaves (c ∷ r)) λ p h.
          elim (Bool-cases (seen p.0 scope)) [
            | inl d ↦ rw (d, Leaves) refl
            | inr d ↦
                rw (d, Leaves)
                  (Leaves-bind length (length (skip_ws p.1)) left _ (colon (skip_ws p.1)) _
                    (colon-Leaves (skip_ws p.1)) λ r' h'. omega (arith, skip_ws-le p.1))
          ])
]

abbrev separator_left : Separator → ℕ
separator_left (comma r) = length r
separator_left (close r) = length r

separator-Leaves :
    (c : ℕ) (missing unexpected : JsonError) (r : Bytes)
    → is_fuel missing ≡ false
    → is_fuel unexpected ≡ false
    → Leaves separator_left (length r) (separator c missing unexpected r)
unfolding separator
separator-Leaves c missing unexpected [] h h' = h
separator-Leaves c missing unexpected (x ∷ r) h h' = ground (arith, skip_ws-le r)

drop_key : (r : Bytes) → Leaves length (length r) (decode_string r >>= λ p. ok p.1)
drop_key r =
    Leaves-bind left (length r) length _ (decode_string r) _ (decode_string-Leaves r) λ p h. h

scalar-Leaves :
    (c : ℕ) (r : Bytes) (s : ValueStart)
    → value_start c ≡ s
    → Leaves length (suc (length r)) (scalar s (c ∷ r))
unfolding scalar
scalar-Leaves c r at_string h = drop_key (c ∷ r)
scalar-Leaves c r at_true h = literal-Leaves b't' (codes "rue") (c ∷ r)
scalar-Leaves c r at_false h = literal-Leaves b'f' (codes "alse") (c ∷ r)
scalar-Leaves c r at_null h = literal-Leaves b'n' (codes "ull") (c ∷ r)
scalar-Leaves c r at_number h = number-Leaves c r h
scalar-Leaves c r at_object h = refl
scalar-Leaves c r at_array h = refl
scalar-Leaves c r at_other h = refl

abbrev EndsBelow : (Bytes → Result JsonError Bytes) → ℕ → Type 0
EndsBelow loop n = (r : Bytes) → length r < n → Leaves length (length r) (loop r)

closes_at_once-lt : (c : ℕ) (r s : Bytes) → closes_at_once c r ≡ some s → length s < length r
unfolding closes_at_once
closes_at_once-lt c [] s h = ground arith
closes_at_once-lt c (x ∷ r) s h = ground arith

bracket-Leaves :
    (c : ℕ) (loop : Bytes → Result JsonError Bytes) (r : Bytes)
    → EndsBelow loop (suc (length r))
    → Leaves length (suc (length r)) (bracket c loop r)
unfolding bracket
bracket-Leaves c loop r h = elim (Option-cases (closes_at_once c (skip_ws r))) [
  | inl e ↦
      rw (e, Leaves)
        (Leaves-mono length (length (skip_ws r)) _ (loop (skip_ws r))
          (h (skip_ws r) (omega (arith, skip_ws-le r))) (omega (arith, skip_ws-le r)))
  | inr (s, e) ↦ rw (e, Leaves) (omega (arith, closes_at_once-lt c (skip_ws r) s e, skip_ws-le r))
]

value_switch-Leaves :
    (o a : Bytes → Result JsonError Bytes) (r : Bytes)
    → EndsBelow o (length r)
    → EndsBelow a (length r)
    → Leaves length (length r) (value_switch o a r)
unfolding value_switch
value_switch-Leaves o a [] ho ha = refl
value_switch-Leaves o a (c ∷ r) ho ha = go (value_start c) refl
  where
    go :
        (s : ValueStart)
        → value_start c ≡ s
        → Leaves length (suc (length r)) (value_switch o a (c ∷ r))
    go at_object e = rw (e, value_switch) (bracket-Leaves b'}' o r ho)
    go at_array e = rw (e, value_switch) (bracket-Leaves b']' a r ha)
    go s e = rw (e, value_switch) (scalar-Leaves c r s e)

-- Each element reads at least one byte, and each separator one more.
mutual
  unfolding value

  value-Leaves : (f d : ℕ) (r : Bytes) → 2 * length r < f → Leaves length (length r) (value f d r)
  value-Leaves zero d r h = elim h [ ]
  value-Leaves (suc f) d r h = elim (Bool-cases (ltb max_depth d)) [
    | inl e ↦ rw (e, Leaves) refl
    | inr e ↦
        rw (e, Leaves)
          (value_switch-Leaves (object_loop f (d + 1) []) (array_loop f (d + 1)) r
            (λ s k. object_loop-Leaves f (d + 1) [] s (omega arith))
            (λ s k. array_loop-Leaves f (d + 1) s (omega arith)))
  ]

  array_loop-Leaves :
      (f d : ℕ) (r : Bytes) → 2 * length r + 1 < f → Leaves length (length r) (array_loop f d r)
  array_loop-Leaves zero d r h = elim h [ ]
  array_loop-Leaves (suc f) d r h =
      Leaves-bind length (length r) length _ (value f d r) _ (value-Leaves f d r (omega arith))
        λ s k.
          Leaves-bind separator_left (length (skip_ws s)) length _ (separator _ _ _ (skip_ws s)) _
            (separator-Leaves _ _ _ (skip_ws s) refl refl)
            (elim [
              | comma t ↦ λ q.
                  Leaves-mono length (length t) (length r) _
                    (array_loop-Leaves f d t (omega (arith, skip_ws-le s)))
                    (omega (arith, skip_ws-le s))
              | close t ↦ λ q. omega (arith, skip_ws-le s)
            ])

  object_loop-Leaves :
      (f d : ℕ) (scope : List Bytes) (r : Bytes)
      → 2 * length r + 1 < f
      → Leaves length (length r) (object_loop f d scope r)
  object_loop-Leaves zero d scope r h = elim h [ ]
  object_loop-Leaves (suc f) d scope r h =
      Leaves-bind left (length r) length _ (member_name scope r) _ (member_name-Leaves scope r)
        λ m l.
          Leaves-bind length (length m.1) length _ (value f d m.1) _
            (value-Leaves f d m.1 (omega arith))
            λ s k.
              Leaves-bind separator_left (length (skip_ws s)) length _ (separator _ _ _ (skip_ws s))
                _ (separator-Leaves _ _ _ (skip_ws s) refl refl)
                (elim [
                  | comma t ↦ λ q.
                      Leaves-mono length (length t) (length r) _
                        (object_loop-Leaves f d (m.0 ∷ scope) t (omega (arith, skip_ws-le s)))
                        (omega (arith, skip_ws-le s))
                  | close t ↦ λ q. omega (arith, skip_ws-le s)
                ])

pub value-ne-fuel_exhausted :
    (f d : ℕ) (r : Bytes) → 2 * length r < f → value f d r ≢ err fuel_exhausted
value-ne-fuel_exhausted f d r h e = cc (subst (Leaves length (length r)) e (value-Leaves f d r h))

pub value-shrinks :
    (f d : ℕ) (r s : Bytes) → 2 * length r < f → value f d r ≡ ok s → length s < length r
value-shrinks f d r s h e = subst (Leaves length (length r)) e (value-Leaves f d r h)

-- The scanner comes to a verdict on every document: the fuel that `validate` gives suffices.
pub validate-ne-fuel_exhausted : (input : Bytes) → validate input ≢ err fuel_exhausted
unfolding validate finish
validate-ne-fuel_exhausted input e =
    ground
      (arith, value-ne-fuel_exhausted (2 * length input + 2) 0 (skip_ws input), skip_ws-le input)
