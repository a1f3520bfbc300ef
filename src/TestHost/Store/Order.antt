-- ===== src/TestHost/Store/Order.antt =====
-- Sorted lists of entries: what a scan returns, and how its pages fit together.
use torana_plugin_sdk.Prelude.{
  true, false, Bytes, [], ◌∷◌, none, bytes_eq, bytes_eq_iff, if◌then◌else◌, ◌≡◌, ◌≢◌, refl, arith,
  Bool-cases, inl, inr,
}
use torana_plugin_sdk.GoStd.Strings.{bytes_lt}
use torana_plugin_sdk.GoStd.Order.{bytes_lt_trans, bytes_lt_total}
use torana_plugin_sdk.TestHost.Maps.{Map, lookup, IsDistinct}
use torana_plugin_sdk.TestHost.Store.{sorted, matching, keeps, sort_in}

lt_other : (j k : Bytes) → j ≢ k → bytes_lt k j ≡ false → bytes_lt j k ≡ true
lt_other j k n f = elim (Bool-cases (bytes_lt j k)) [
  | inl t ↦ t
  | inr g ↦ absurd (n (bytes_lt_total j k g f))
]

module _ {ℓ} {V : Type ℓ} where
  -- Every key is above `k`.
  abbrev pub Above : Bytes → Map V → Type 0
  Above k [] = Unit
  Above k (e ∷ m) = (bytes_lt k e.0 ≡ true) × Above k m

  abbrev pub IsOrdered : Map V → Type 0
  IsOrdered [] = Unit
  IsOrdered (e ∷ m) = Above e.0 m × IsOrdered m

  Above-trans : (j k : Bytes) (m : Map V) → bytes_lt j k ≡ true → Above k m → Above j m
  Above-trans j k [] h a = tt
  Above-trans j k (e ∷ m) h a = (bytes_lt_trans j k e.0 h a.0, Above-trans j k m h a.1)

  -- No entry has the key.
  abbrev Without : Bytes → Map V → Type 0
  Without k [] = Unit
  Without k (e ∷ m) = (e.0 ≢ k) × Without k m

  sort_in-Above :
      (j : Bytes) (e : Bytes × V) (m : Map V)
      → bytes_lt j e.0 ≡ true
      → Above j m
      → Above j (sort_in e m)
  unfolding sort_in
  sort_in-Above j e [] h a = (h, tt)
  sort_in-Above j e (x ∷ m) h a = elim (Bool-cases (bytes_lt e.0 x.0)) [
    | inl t ↦ rw t (h, a)
    | inr f ↦ rw f (a.0, sort_in-Above j e m h a.1)
  ]

  sort_in-IsOrdered :
      (e : Bytes × V) (m : Map V) → Without e.0 m → IsOrdered m → IsOrdered (sort_in e m)
  unfolding sort_in
  sort_in-IsOrdered e [] w o = (tt, tt)
  sort_in-IsOrdered e (x ∷ m) w o = elim (Bool-cases (bytes_lt e.0 x.0)) [
    | inl t ↦ rw t ((t, Above-trans e.0 x.0 m t o.0), o)
    | inr f ↦
        rw f (sort_in-Above x.0 e m (lt_other x.0 e.0 w.0 f) o.0, sort_in-IsOrdered e m w.1 o.1)
  ]

  sort_in-Without :
      (k : Bytes) (e : Bytes × V) (m : Map V) → e.0 ≢ k → Without k m → Without k (sort_in e m)
  unfolding sort_in
  sort_in-Without k e [] h w = (h, tt)
  sort_in-Without k e (x ∷ m) h w = elim (Bool-cases (bytes_lt e.0 x.0)) [
    | inl t ↦ rw t (h, w)
    | inr f ↦ rw f (w.0, sort_in-Without k e m h w.1)
  ]

  sorted-Without : (k : Bytes) (m : Map V) → Without k m → Without k (sorted m)
  unfolding sorted
  sorted-Without k [] w = tt
  sorted-Without k (e ∷ m) w = sort_in-Without k e (sorted m) w.0 (sorted-Without k m w.1)

  pub sorted-Above : (k : Bytes) (m : Map V) → Above k m → Above k (sorted m)
  unfolding sorted
  sorted-Above k [] a = tt
  sorted-Above k (e ∷ m) a = sort_in-Above k e (sorted m) a.0 (sorted-Above k m a.1)

  absent-Without : (k : Bytes) (m : Map V) → lookup k m ≡ none → Without k m
  unfolding lookup
  absent-Without k [] h = tt
  absent-Without k (e ∷ m) h = elim (Bool-cases (bytes_eq e.0 k)) [
    | inl t ↦ absurd (ground arith)
    | inr f ↦ (λ q. absurd (cc (f, (bytes_eq_iff e.0 k).1 q)), absent-Without k m (ground arith))
  ]

  -- The entries of a map with distinct keys come out in increasing order.
  pub sorted-IsOrdered : (m : Map V) → IsDistinct m → IsOrdered (sorted m)
  unfolding sorted
  sorted-IsOrdered [] d = tt
  sorted-IsOrdered (e ∷ m) d =
      sort_in-IsOrdered e (sorted m) (sorted-Without e.0 m (absent-Without e.0 m d.0))
        (sorted-IsOrdered m d.1)

  sort_in_first : (e : Bytes × V) (m : Map V) → Above e.0 m → sort_in e m ≡ e ∷ m
  unfolding sort_in
  sort_in_first e [] a = refl
  sort_in_first e (x ∷ m) a = rw (a.0) refl

  pub matching-Above :
      (k prefix cursor : Bytes) (m : Map V) → Above k m → Above k (matching prefix cursor m)
  unfolding matching
  matching-Above k p c [] a = tt
  matching-Above k p c (e ∷ m) a = elim (Bool-cases (keeps p c e.0)) [
    | inl t ↦ rw t (a.0, matching-Above k p c m a.1)
    | inr f ↦ rw f (matching-Above k p c m a.1)
  ]

  pub matching-IsOrdered :
      (prefix cursor : Bytes) (m : Map V) → IsOrdered m → IsOrdered (matching prefix cursor m)
  unfolding matching
  matching-IsOrdered p c [] o = tt
  matching-IsOrdered p c (e ∷ m) o = elim (Bool-cases (keeps p c e.0)) [
    | inl t ↦ rw t (matching-Above e.0 p c m o.0, matching-IsOrdered p c m o.1)
    | inr f ↦ rw f (matching-IsOrdered p c m o.1)
  ]

  -- Filtering before or after an insertion.
  pub matching-sort_in :
      (prefix cursor : Bytes) (e : Bytes × V) (m : Map V)
      → IsOrdered m
      → matching prefix cursor (sort_in e m) ≡ (
          if keeps prefix cursor e.0
          then sort_in e (matching prefix cursor m)
          else matching prefix cursor m)
  unfolding matching sort_in
  matching-sort_in p c e [] o = refl
  matching-sort_in p c e (x ∷ m) o = elim (Bool-cases (bytes_lt e.0 x.0)) [
    | inl t ↦
        let first =
          sort_in_first e (matching p c (x ∷ m))
            (matching-Above e.0 p c (x ∷ m) (t, Above-trans e.0 x.0 m t o.0)) in
        rw t (ground (arith, first))
    | inr f ↦ rw f (ground (arith, f, matching-sort_in p c e m o.1))
  ]
