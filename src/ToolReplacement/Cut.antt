-- ===== src/ToolReplacement/Cut.antt =====
-- What a replacement retains of a tool output.
use torana_plugin_sdk.Prelude.{
  ℕ, zero, suc, ◌+◌, ◌-◌, ◌≤◌, Bool, true, false, Bytes, [], ◌∷◌, ◌++◌, leb, ltb, length, take,
  drop, get_elem?, length-append, drop-append, length-drop, if◌then◌else◌, ◌≡◌, refl, sym, ap, ◌∙◌,
  subst, arith, inl, inr, ◌⊎◌,
}
use torana_plugin_sdk.GoStd.Utf8.{utf8_valid}
use torana_plugin_sdk.GoStd.Utf8.Split.{Begins, utf8_valid-split}
use torana_plugin_sdk.ToolReplacement.{
  utf8_rune_start, start_at, start_before, valid_prefix, from_start, valid_suffix, retained_parts,
  omitted_bytes,
}

-- What holds of both branches under their conditions holds of the conditional.
by_if {ℓ κ} :
    {A : Type ℓ} (P : A → Type κ) (b : Bool) (x y : A)
    → (b ≡ true → P x)
    → (b ≡ false → P y)
    → P (if b then x else y)
by_if P true x y p q = p refl
by_if P false x y p q = q refl

take-drop : (n : ℕ) (s : Bytes) → take n s ++ drop n s ≡ s
take-drop zero s = refl
take-drop (suc n) [] = refl
take-drop (suc n) (c ∷ cs) = ap (c ∷◌) (take-drop n cs)

Begins-drop : (n : ℕ) (s : Bytes) → start_at (get_elem? s n) ≡ true → Begins (drop n s)
unfolding start_at utf8_rune_start
Begins-drop n [] h = absurd cc
Begins-drop zero (c ∷ cs) h = ground (arith, h)
Begins-drop (suc n) (c ∷ cs) h = Begins-drop n cs h

-- The place where `validPrefix` cuts is at the start of the string or of a character.
start_before-Begins :
    (s : Bytes) (end : ℕ)
    → (start_before s end ≤ end) × ((start_before s end ≡ 0) ⊎ Begins (drop (start_before s end) s))
unfolding start_before
start_before-Begins s zero = (omega arith, inl refl)
start_before-Begins s (suc end) =
    let (bound, before) = start_before-Begins s end in
    by_if (λ k. (k ≤ suc end) × ((k ≡ 0) ⊎ Begins (drop k s))) (start_at (get_elem? s (suc end)))
      (suc end) (start_before s end) (λ p. (omega arith, inr (Begins-drop (suc end) s p)))
      (λ _. (omega (arith, bound), before))

-- A string is cut into two valid parts.
abbrev IsCut : Bytes → Bytes → Bytes → Type 0
IsCut s a b = (a ++ b ≡ s) × (utf8_valid a ≡ true) × (utf8_valid b ≡ true)

parts-IsCut : (s a b : Bytes) → utf8_valid s ≡ true → a ++ b ≡ s → Begins b → IsCut s a b
parts-IsCut s a b v e i =
    let (first, second) = utf8_valid-split a b i (ap utf8_valid e ∙ v) in (e, first, second)

take-IsCut :
    (s : Bytes) (n : ℕ)
    → utf8_valid s ≡ true
    → (n ≡ 0) ⊎ Begins (drop n s)
    → IsCut s (take n s) (drop n s)
unfolding utf8_valid
take-IsCut s zero v i = (refl, refl, v)
take-IsCut s (suc n) v (inl p) = absurd cc
take-IsCut s (suc n) v (inr i) =
    parts-IsCut s (take (suc n) s) (drop (suc n) s) v (take-drop (suc n) s) i

take-le : (n : ℕ) (s : Bytes) → length (take n s) ≤ n
take-le zero s = omega arith
take-le (suc n) [] = omega arith
take-le (suc n) (c ∷ cs) = omega (arith, take-le n cs)

append_nil : (s : Bytes) → s ++ [] ≡ s
append_nil [] = refl
append_nil (c ∷ cs) = ap (c ∷◌) (append_nil cs)

-- `validPrefix` of a valid string cuts it into two valid parts, the first within the limit.
pub valid_prefix-IsCut :
    (s : Bytes) (limit : ℕ)
    → utf8_valid s ≡ true
    → (b : Bytes) × (length (valid_prefix s limit) ≤ limit) × IsCut s (valid_prefix s limit) b
unfolding valid_prefix utf8_valid
valid_prefix-IsCut s limit v =
    let (bound, place) = start_before-Begins s limit in
    by_if (λ a. (b : Bytes) × (length a ≤ limit) × IsCut s a b) (leb (length s) limit) s
      (take (start_before s limit) s) (λ p. ([], ground (arith, p), (append_nil s, v, refl)))
      (λ _. (
        drop (start_before s limit) s,
        omega (arith, take-le (start_before s limit) s, bound),
        take-IsCut s (start_before s limit) v place,
      ))

from_start-Begins : (s : Bytes) → (a : Bytes) × (a ++ from_start s ≡ s) × Begins (from_start s)
unfolding from_start utf8_rune_start
from_start-Begins [] = ([], refl, tt)
from_start-Begins (c ∷ cs) =
    let (a, e, i) = from_start-Begins cs in
    by_if (λ t. (a : Bytes) × (a ++ t ≡ c ∷ cs) × Begins t) (utf8_rune_start c) (c ∷ cs)
      (from_start cs) (λ p. ([], refl, ground (arith, p))) (λ _. (c ∷ a, ap (c ∷◌) e, i))

++-assoc : (a b c : Bytes) → (a ++ b) ++ c ≡ a ++ (b ++ c)
++-assoc [] b c = refl
++-assoc (x ∷ a) b c = ap (x ∷◌) (++-assoc a b c)

-- `validSuffix` of a valid string cuts it into two valid parts, the second within the limit.
pub valid_suffix-IsCut :
    (s : Bytes) (limit : ℕ)
    → utf8_valid s ≡ true
    → (a : Bytes) × (length (valid_suffix s limit) ≤ limit) × IsCut s a (valid_suffix s limit)
unfolding valid_suffix utf8_valid
valid_suffix-IsCut s limit v =
    let k = length s - limit in
    let (a, e, i) = from_start-Begins (drop k s) in
    by_if (λ t. (a : Bytes) × (length t ≤ limit) × IsCut s a t) (leb (length s) limit) s
      (from_start (drop k s)) (λ p. ([], ground (arith, p), (refl, refl, v)))
      (λ _. (
        take k s ++ a,
        omega (arith, length-append a (from_start (drop k s)), ap length e, length-drop k s),
        parts-IsCut s (take k s ++ a) (from_start (drop k s)) v
            (++-assoc (take k s) a (from_start (drop k s)) ∙ ap (take k s ++◌) e ∙ take-drop k s) i,
      ))

-- The parts are retained of the content: with what is omitted between them they are the content, at
-- most 1536 bytes are kept, the reported number of omitted bytes is right, and both are valid UTF-8.
pub record IsRetained (content : Bytes) (parts : Bytes × Bytes) : Type 0 where
  pub middle : Bytes
  pub whole : parts.0 ++ (middle ++ parts.1) ≡ content
  pub within_bound : length parts.0 + length parts.1 ≤ 1536
  pub omitted : omitted_bytes content parts ≡ length middle
  pub valid_head : utf8_valid parts.0 ≡ true
  pub valid_tail : utf8_valid parts.1 ≡ true

short_enough :
    (a b : Bytes) → length a ≤ 768 → ltb 768 (length b) ≡ false → length (a ++ b) + 0 ≤ 1536
short_enough a b bound p = ground (arith, bound, p, length-append a b)

parts-IsRetained :
    (content head rest : Bytes)
    → utf8_valid content ≡ true
    → length head ≤ 768
    → IsCut content head rest
    → IsRetained content
        (if ltb 768 (length rest) then (head, valid_suffix rest 768) else (head ++ rest, []))
unfolding omitted_bytes utf8_valid
parts-IsRetained content head rest v bound (e, vh, vr) =
    let (a, short, (f, _, vt)) = valid_suffix-IsCut rest 768 vr in
    let size : length head + length rest ≡ length content =
      sym (length-append head rest) ∙ ap length e in
    by_if (IsRetained content) (ltb 768 (length rest)) (head, valid_suffix rest 768)
      (head ++ rest, [])
      (λ _. record {
        middle = a;
        whole = ap (head ++◌) f ∙ e;
        within_bound = omega (arith, bound, short);
        omitted = omega (arith, size, length-append a (valid_suffix rest 768), ap length f);
        valid_head = vh;
        valid_tail = vt;
      })
      (λ p. record {
        middle = [];
        whole = append_nil (head ++ rest) ∙ e;
        within_bound = short_enough head rest bound p;
        omitted = omega (arith, ap length e);
        valid_head = ap utf8_valid e ∙ v;
        valid_tail = refl;
      })

-- The parts that a replacement retains, with what it omits between them, are the tool output, if that is valid UTF-8: at most 1536 bytes
-- are retained, the reported number of omitted bytes is that of the part between, and both parts are valid UTF-8.
pub retained_parts-IsRetained :
    (content : Bytes) (marker_only : Bool)
    → utf8_valid content ≡ true
    → IsRetained content (retained_parts content marker_only)
unfolding retained_parts omitted_bytes utf8_valid
retained_parts-IsRetained content true v = record {
  middle = content;
  whole = append_nil content;
  within_bound = omega arith;
  omitted = omega arith;
  valid_head = refl;
  valid_tail = refl;
}
retained_parts-IsRetained content false v =
    let (rest, bound, c) = valid_prefix-IsCut content 768 v in
    let head = valid_prefix content 768 in
    subst
      (λ r.
        IsRetained content
          (if ltb 768 (length r) then (head, valid_suffix r 768) else (head ++ r, [])))
      (sym (drop-append head rest) ∙ ap (drop (length head)) c.0)
      (parts-IsRetained content head rest v bound c)
