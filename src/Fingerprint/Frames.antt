-- ===== src/Fingerprint/Frames.antt =====
-- Frames with a tag and a length, written one behind the other, and read back.
use torana_plugin_sdk.Prelude.{
  ℕ, zero, suc, ◌+◌, ◌%◌, ◌/◌, Bool, true, false, not, ◌&&◌, Bytes, List, [], ◌∷◌, ◌++◌, is_empty,
  length, take, drop, take-append, drop-append, within, All, if◌then◌else◌, ◌≡◌, ◌≢◌, refl, sym, ap,
  ◌∙◌, arith, Bool-cases, inl, inr, ltb,
}
use torana_plugin_sdk.GoStd.Decimal.{itoa, digits, decimal, decimal-itoa}
use torana_plugin_sdk.GoStd.Strings.{all_bytes}
use mathlib.Core.List.{append_assoc}

-- A tag and a value.
abbrev pub Frame : Type 0
Frame = Bytes × Bytes

-- `frame`: the bytes that one frame adds to the hash.
unfoldable pub frame : Frame → Bytes
frame f = f.0 ++ (itoa (length f.1) ++ (b':' ∷ f.1))

unfoldable pub hashed : List Frame → Bytes
unfolding frame
hashed [] = []
hashed (f ∷ fs) = frame f ++ hashed fs

is_digit : ℕ → Bool
is_digit c = within b'0' b'9' c

-- No digit in the tag, which ends where the length begins.
unfoldable pub is_plain : Frame → Bool
unfolding is_digit
is_plain f = all_bytes (λ c. not (is_digit c)) f.0

-- The longest front of bytes that pass the test, and what is behind it.
span : (ℕ → Bool) → Bytes → Bytes × Bytes
span p [] = ([], [])
span p (c ∷ cs) = let rest = span p cs in if p c then (c ∷ rest.0, rest.1) else ([], c ∷ cs)

span-append :
    (p : ℕ → Bool) (xs : Bytes) (c : ℕ) (ys : Bytes)
    → all_bytes p xs ≡ true
    → p c ≡ false
    → span p (xs ++ (c ∷ ys)) ≡ (xs, c ∷ ys)
unfolding span all_bytes
span-append p [] c ys a n = rw n refl
span-append p (x ∷ xs) c ys a n = ground (arith, span-append p xs c ys)

all_bytes-append :
    (p : ℕ → Bool) (xs ys : Bytes) → all_bytes p (xs ++ ys) ≡ (all_bytes p xs && all_bytes p ys)
unfolding all_bytes
all_bytes-append p [] ys = refl
all_bytes-append p (x ∷ xs) ys = ground (arith, all_bytes-append p xs ys)

digits-all : (f n : ℕ) → all_bytes is_digit (digits f n) ≡ true
unfolding digits all_bytes is_digit
digits-all zero n = refl
digits-all (suc f) n = elim (Bool-cases (ltb n 10)) [
  | inl t ↦ rw t (ground arith)
  | inr t ↦
      rw
        (
          t,
          all_bytes-append is_digit (digits f (n / 10)) ((b'0' + n % 10) ∷ []),
          digits-all f (n / 10),
        )
        (ground arith)
]

snoc_not_empty : (xs : Bytes) (c : ℕ) → is_empty (xs ++ (c ∷ [])) ≡ false
snoc_not_empty [] c = refl
snoc_not_empty (x ∷ xs) c = refl

digits_not_empty : (f n : ℕ) → is_empty (digits (suc f) n) ≡ false
unfolding digits
digits_not_empty f n = elim (Bool-cases (ltb n 10)) [
  | inl t ↦ rw t refl
  | inr t ↦ rw t (snoc_not_empty (digits f (n / 10)) (b'0' + n % 10))
]

starts :
    (xs : Bytes)
    → all_bytes is_digit xs ≡ true
    → is_empty xs ≡ false
    → (c : ℕ) × (cs : Bytes) × (xs ≡ c ∷ cs) × (is_digit c ≡ true)
unfolding all_bytes
starts [] a n = absurd (ground arith)
starts (c ∷ cs) a n = (c, cs, refl, ground (arith, a))

itoa-digits : (n : ℕ) → all_bytes is_digit (itoa n) ≡ true
unfolding itoa
itoa-digits n = digits-all (suc n) n

itoa_not_empty : (n : ℕ) → is_empty (itoa n) ≡ false
unfolding itoa
itoa_not_empty n = digits_not_empty n n

-- One frame, and what is behind it.
read_frame : Bytes → Frame × Bytes
unfolding span
read_frame s =
    let tag = span (λ c. not (is_digit c)) s in
    let size = span is_digit tag.1 in
    let body = drop 1 size.1 in let n = decimal 0 size.0 in ((tag.0, take n body), drop n body)

span_tag :
    (tag : Bytes) (n : ℕ) (rest : Bytes)
    → all_bytes (λ c. not (is_digit c)) tag ≡ true
    → span (λ c. not (is_digit c)) (tag ++ (itoa n ++ rest)) ≡ (tag, itoa n ++ rest)
span_tag tag n rest a =
    let (c, cs, e, d) = starts (itoa n) (itoa-digits n) (itoa_not_empty n) in
    rw e (span-append (λ x. not (is_digit x)) tag c (cs ++ rest) a (ap not d))

span_size : (n : ℕ) (rest : Bytes) → span is_digit (itoa n ++ (b':' ∷ rest)) ≡ (itoa n, b':' ∷ rest)
span_size n rest = span-append is_digit (itoa n) b':' rest (itoa-digits n) (unfold is_digit in refl)

frame-append :
    (f : Frame) (rest : Bytes)
    → frame f ++ rest ≡ f.0 ++ (itoa (length f.1) ++ (b':' ∷ (f.1 ++ rest)))
unfolding frame
frame-append f rest =
    append_assoc f.0 (itoa (length f.1) ++ (b':' ∷ f.1)) rest
    ∙ ap (λ x. f.0 ++ x) (append_assoc (itoa (length f.1)) (b':' ∷ f.1) rest)

read_frame-frame :
    (f : Frame) (rest : Bytes) → is_plain f ≡ true → read_frame (frame f ++ rest) ≡ (f, rest)
unfolding read_frame is_plain
read_frame-frame f rest a =
    rw
      (
        frame-append f rest,
        span_tag f.0 (length f.1) (b':' ∷ (f.1 ++ rest)) a,
        span_size (length f.1) (f.1 ++ rest),
        decimal-itoa (length f.1),
        take-append f.1 rest,
        drop-append f.1 rest,
      )
      refl

not_empty_front : (xs ys : Bytes) → is_empty ys ≡ false → is_empty (xs ++ ys) ≡ false
not_empty_front [] ys n = n
not_empty_front (x ∷ xs) ys n = refl

not_empty_back : (xs ys : Bytes) → is_empty xs ≡ false → is_empty (xs ++ ys) ≡ false
not_empty_back [] ys n = absurd (ground arith)
not_empty_back (x ∷ xs) ys n = refl

frame_not_empty : (f : Frame) (rest : Bytes) → frame f ++ rest ≢ []
frame_not_empty f rest e =
    let whole : is_empty (f.0 ++ (itoa (length f.1) ++ (b':' ∷ (f.1 ++ rest)))) ≡ false =
      not_empty_front f.0 _ (not_empty_back (itoa (length f.1)) _ (itoa_not_empty (length f.1))) in
    cc (whole, ap is_empty (sym (frame-append f rest) ∙ e))

-- Lists of frames whose tags have no digit are hashed as different bytes if they differ.
pub hashed_injective :
    (fs gs : List Frame)
    → All (λ f. is_plain f ≡ true) fs
    → All (λ f. is_plain f ≡ true) gs
    → hashed fs ≡ hashed gs
    → fs ≡ gs
unfolding hashed
hashed_injective [] [] p q h = refl
hashed_injective [] (g ∷ gs) p q h = absurd (frame_not_empty g (hashed gs) (sym h))
hashed_injective (f ∷ fs) [] p q h = absurd (frame_not_empty f (hashed fs) h)
hashed_injective (f ∷ fs) (g ∷ gs) p q h =
    let left : Frame × Bytes = (f, hashed fs) in
    let right : Frame × Bytes = (g, hashed gs) in
    let same : left ≡ right =
      sym (read_frame-frame f (hashed fs) p.0)
      ∙ ap read_frame h
      ∙ read_frame-frame g (hashed gs) q.0 in
    let head : f ≡ g = ap (λ x. x.0) same in
    let tail : fs ≡ gs = hashed_injective fs gs p.1 q.1 (ap (λ x. x.1) same) in cc (head, tail)
