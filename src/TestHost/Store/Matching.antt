-- ===== src/TestHost/Store/Matching.antt =====
-- The loop of a scan over a sorted map: what it keeps, and what lies behind a cursor.
use torana_plugin_sdk.Prelude.{
  ℕ, zero, suc, ◌-◌, ◌≤◌, ◌<◌, Bool, true, false, ◌&&◌, ◌||◌, Bytes, [], ◌∷◌, ◌++◌, none, some,
  is_empty, bytes_eq, bytes_eq_iff, length, take, drop, get_elem?, if◌then◌else◌, ◌≡◌, ◌⊎◌, refl,
  sym, ap, ◌∙◌, subst, arith, Bool-cases, inl, inr,
}
use torana_plugin_sdk.GoStd.Strings.{has_prefix, bytes_lt}
use torana_plugin_sdk.GoStd.Order.{bytes_lt_irrefl, bytes_lt_trans, bytes_lt_asym}
use torana_plugin_sdk.TestHost.Maps.{Map, lookup, IsDistinct}
use torana_plugin_sdk.TestHost.Store.{sorted, matching, keeps, sort_in}
use torana_plugin_sdk.TestHost.Store.Order.{Above, IsOrdered, matching-sort_in, sorted-IsOrdered}

some_injective {ℓ} : {A : Type ℓ} {a b : A} → some a ≡ some b → a ≡ b
some_injective h = cc

module _ {ℓ} {V : Type ℓ} where
  pub sorted-matching :
      (prefix cursor : Bytes) (m : Map V)
      → IsDistinct m
      → sorted (matching prefix cursor m) ≡ matching prefix cursor (sorted m)
  unfolding sorted matching
  sorted-matching p c [] d = refl
  sorted-matching p c (e ∷ m) d =
      ground (
        arith,
        matching-sort_in p c e (sorted m) (sorted-IsOrdered m d.1),
        sorted-matching p c m d.1,
      )

  -- The entries with a key above `k`.
  pub after : Bytes → Map V → Map V
  after k [] = []
  after k (e ∷ m) = let rest = after k m in if bytes_lt k e.0 then e ∷ rest else rest

  after-Above : (k : Bytes) (m : Map V) → Above k m → after k m ≡ m
  unfolding after
  after-Above k [] a = refl
  after-Above k (e ∷ m) a = rw (a.0) (ap (λ r. e ∷ r) (after-Above k m a.1))

  pub Above-get :
      (k : Bytes) (m : Map V) (i : ℕ) {e : Bytes × V}
      → Above k m
      → get_elem? m i ≡ some e
      → bytes_lt k e.0 ≡ true
  Above-get k [] i a h = absurd (ground arith)
  Above-get k (x ∷ m) zero a h = ap (λ y. bytes_lt k y.0) (sym (some_injective h)) ∙ a.0
  Above-get k (x ∷ m) (suc i) a h = Above-get k m i a.1 h

  pub after-get :
      (m : Map V) (i : ℕ) {e : Bytes × V}
      → IsOrdered m
      → get_elem? m i ≡ some e
      → after e.0 m ≡ drop (suc i) m
  unfolding after
  after-get [] i o h = absurd (ground arith)
  after-get (x ∷ m) zero {e} o h =
      let same = ap (λ y. y.0) (some_injective h) in
      ap (λ k. after k (x ∷ m)) (sym same) ∙ rw (bytes_lt_irrefl x.0) (after-Above x.0 m o.0)
  after-get (x ∷ m) (suc i) {e} o h =
      rw (bytes_lt_asym x.0 e.0 (Above-get x.0 m i o.0 h)) (after-get m i o.1 h)

  -- A cursor that is not above a key cuts off nothing above that key.
  pub matching-after :
      (prefix c k : Bytes) (m : Map V)
      → is_empty k ≡ false
      → is_empty c || bytes_lt c k ≡ true
      → matching prefix k m ≡ after k (matching prefix c m)
  unfolding matching after keeps
  matching-after p c k [] n l = refl
  matching-after p c k (e ∷ m) n l =
      ground (arith, matching-after p c k m n l, bytes_lt_trans c k e.0)

  get-cons_cases :
      (x : Bytes × V) (m : Map V) (i : ℕ) {e : Bytes × V}
      → get_elem? (x ∷ m) i ≡ some e
      → (x ≡ e) ⊎ ((j : ℕ) × (get_elem? m j ≡ some e))
  get-cons_cases x m zero h = inl (some_injective h)
  get-cons_cases x m (suc i) h = inr (i, h)

  pub matching-get :
      (prefix c : Bytes) (m : Map V) (i : ℕ) {e : Bytes × V}
      → get_elem? (matching prefix c m) i ≡ some e
      → is_empty c || bytes_lt c e.0 ≡ true
  unfolding matching keeps
  matching-get p c [] i h = absurd (ground arith)
  matching-get p c (x ∷ m) i {e} h =
      let rest = matching p c m in
      elim (Bool-cases (keeps p c x.0)) [
        | inl t ↦
            elim (get-cons_cases x rest i
              (subst (λ b. get_elem? (if b then x ∷ rest else rest) i ≡ some e) t h)) [
                | inl q ↦ ap (λ y. is_empty c || bytes_lt c y.0) (sym q) ∙ ground (arith, t)
                | inr (j, g) ↦ matching-get p c m j g
              ]
        | inr f ↦
            matching-get p c m i
              (subst (λ b. get_elem? (if b then x ∷ rest else rest) i ≡ some e) f h)
      ]

  length-sort_in : (e : Bytes × V) (m : Map V) → length (sort_in e m) ≡ suc (length m)
  unfolding sort_in
  length-sort_in e [] = refl
  length-sort_in e (x ∷ m) = ground (arith, length-sort_in e m)

  pub length-sorted : (m : Map V) → length (sorted m) ≡ length m
  unfolding sorted
  length-sorted [] = refl
  length-sorted (e ∷ m) = length-sort_in e (sorted m) ∙ ap suc (length-sorted m)

  pub length-matching : (prefix c : Bytes) (m : Map V) → length (matching prefix c m) ≤ length m
  unfolding matching
  length-matching p c [] = omega arith
  length-matching p c (e ∷ m) = ground (arith, length-matching p c m)

  pub take-drop : (n : ℕ) (m : Map V) → take n m ++ drop n m ≡ m
  take-drop zero m = refl
  take-drop (suc n) [] = refl
  take-drop (suc n) (x ∷ m) = ap (λ l. x ∷ l) (take-drop n m)

  pub length-drop : (n : ℕ) (m : Map V) → length (drop n m) ≡ length m - n
  length-drop zero m = omega arith
  length-drop (suc n) [] = omega arith
  length-drop (suc n) (x ∷ m) = omega (arith, length-drop n m)

  pub get-some : (m : Map V) (i : ℕ) → i < length m → (e : Bytes × V) × (get_elem? m i ≡ some e)
  get-some [] i h = absurd (omega arith)
  get-some (x ∷ m) zero h = (x, refl)
  get-some (x ∷ m) (suc i) h = get-some m i (omega arith)

and_true : (b : Bool) → (b && true) ≡ b
and_true b = ground arith

lookup-sort_in :
    (k : Bytes) (e : Bytes × Bytes) (m : Map Bytes)
    → lookup e.0 m ≡ none
    → lookup k (sort_in e m) ≡ (if bytes_eq e.0 k then some e.1 else lookup k m)
unfolding lookup sort_in
lookup-sort_in k e [] n = refl
lookup-sort_in k e (x ∷ m) n =
    let later = lookup-sort_in k e m (ground (arith, n)) in
    let other : bytes_eq x.0 e.0 ≡ false = ground (arith, n) in
    let clash : bytes_eq x.0 k ≡ true → bytes_eq e.0 k ≡ false = λ h.
      elim (Bool-cases (bytes_eq e.0 k)) [
        | inl t ↦ absurd (
            cc (
              other,
              (bytes_eq_iff x.0 e.0).1 ((bytes_eq_iff x.0 k).0 h ∙ sym ((bytes_eq_iff e.0 k).0 t)),
            ))
        | inr f ↦ f
      ] in
    ground (arith, later, clash)

pub lookup-sorted : (k : Bytes) (m : Map Bytes) → IsDistinct m → lookup k (sorted m) ≡ lookup k m
unfolding lookup sorted
lookup-sorted k [] d = refl
lookup-sorted k (e ∷ m) d =
    lookup-sort_in k e (sorted m) (lookup-sorted e.0 m d.1 ∙ d.0)
    ∙ ap (λ r. if bytes_eq e.0 k then some e.1 else r) (lookup-sorted k m d.1)

pub lookup-matching :
    (k prefix c : Bytes) (m : Map Bytes)
    → lookup k (matching prefix c m) ≡ (if keeps prefix c k then lookup k m else none)
unfolding lookup matching
lookup-matching k p c [] = ground arith
lookup-matching k p c (e ∷ m) =
    let same : bytes_eq e.0 k ≡ true → keeps p c e.0 ≡ keeps p c k =
      λ q. ap (keeps p c) ((bytes_eq_iff e.0 k).0 q) in
    ground (arith, same, lookup-matching k p c m)

pub keeps_start : (prefix c k : Bytes) → c ≡ [] → keeps prefix c k ≡ has_prefix k prefix
unfolding keeps
keeps_start p c k h = rw h (and_true (has_prefix k p))

pub matching-IsDistinct :
    (prefix c : Bytes) (m : Map Bytes) → IsDistinct m → IsDistinct (matching prefix c m)
unfolding matching
matching-IsDistinct p c [] d = tt
matching-IsDistinct p c (e ∷ m) d = elim (Bool-cases (keeps p c e.0)) [
  | inl t ↦ rw t (lookup-matching e.0 p c m ∙ rw t (d.0), matching-IsDistinct p c m d.1)
  | inr f ↦ rw f (matching-IsDistinct p c m d.1)
]
