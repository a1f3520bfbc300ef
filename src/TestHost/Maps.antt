-- ===== src/TestHost/Maps.antt =====
-- A Go map with string keys. The code ranges over a map only to sort what it finds, so the order of
-- the entries does not matter.
use torana_plugin_sdk.Prelude.{
  Bytes, List, [], ◌∷◌, Option, none, some, bytes_eq, bytes_eq_iff, bytes_eq_refl, if◌then◌else◌,
  ◌≡◌, ◌≢◌, refl, arith, Bool-cases, inl, inr,
}

abbrev pub Map {ℓ} : Type ℓ → Type ℓ
Map V = List (Bytes × V)

module _ {ℓ} {V : Type ℓ} where
  unfoldable pub lookup : Bytes → Map V → Option V
  lookup k [] = none
  lookup k (e ∷ m) = let rest = lookup k m in if bytes_eq e.0 k then some e.1 else rest

  -- `delete(m, k)`
  unfoldable pub erase : Bytes → Map V → Map V
  erase k [] = []
  erase k (e ∷ m) = let rest = erase k m in if bytes_eq e.0 k then rest else e ∷ rest

  -- `m[k] = v`
  unfoldable pub insert : Bytes → V → Map V → Map V
  insert k v m = (k, v) ∷ erase k m

  -- Every key has one entry.
  abbrev pub IsDistinct : Map V → Type ℓ
  IsDistinct [] = Unit
  IsDistinct (e ∷ m) = (lookup e.0 m ≡ none) × IsDistinct m

  pub lookup-erase_self : (k : Bytes) (m : Map V) → lookup k (erase k m) ≡ none
  unfolding lookup erase
  lookup-erase_self k [] = refl
  lookup-erase_self k (e ∷ m) = elim (Bool-cases (bytes_eq e.0 k)) [
    | inl t ↦ rw t (lookup-erase_self k m)
    | inr f ↦ rw (f, f) (lookup-erase_self k m)
  ]

  pub lookup-erase_ne : (j k : Bytes) (m : Map V) → j ≢ k → lookup j (erase k m) ≡ lookup j m
  unfolding lookup erase
  lookup-erase_ne j k [] h = refl
  lookup-erase_ne j k (e ∷ m) h =
      ground (arith, lookup-erase_ne j k m h, bytes_eq_iff e.0 k, bytes_eq_iff e.0 j)

  pub lookup-insert_self : (k : Bytes) (v : V) (m : Map V) → lookup k (insert k v m) ≡ some v
  unfolding lookup insert
  lookup-insert_self k v m = rw (bytes_eq_refl k) refl

  pub lookup-insert_ne :
      (j k : Bytes) (v : V) (m : Map V) → j ≢ k → lookup j (insert k v m) ≡ lookup j m
  unfolding lookup insert
  lookup-insert_ne j k v m h = ground (arith, lookup-erase_ne j k m h, bytes_eq_iff k j)

  lookup-erase-none : (j k : Bytes) (m : Map V) → lookup j m ≡ none → lookup j (erase k m) ≡ none
  unfolding lookup erase
  lookup-erase-none j k [] h = refl
  lookup-erase-none j k (e ∷ m) h = ground (arith, lookup-erase-none j k m)

  pub erase-IsDistinct : (k : Bytes) (m : Map V) → IsDistinct m → IsDistinct (erase k m)
  unfolding erase
  erase-IsDistinct k [] d = tt
  erase-IsDistinct k (e ∷ m) d = elim (Bool-cases (bytes_eq e.0 k)) [
    | inl t ↦ rw t (erase-IsDistinct k m d.1)
    | inr f ↦ rw f (lookup-erase-none e.0 k m d.0, erase-IsDistinct k m d.1)
  ]

  pub insert-IsDistinct : (k : Bytes) (v : V) (m : Map V) → IsDistinct m → IsDistinct (insert k v m)
  unfolding insert
  insert-IsDistinct k v m d = (lookup-erase_self k m, erase-IsDistinct k m d)
