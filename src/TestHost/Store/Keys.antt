-- ===== src/TestHost/Store/Keys.antt =====
-- Stores whose keys are valid UTF-8: selecting and sorting entries keeps them so.
use torana_plugin_sdk.Prelude.{
  ℕ, zero, suc, true, Bytes, [], ◌∷◌, some, get_elem?, ◌≡◌, arith, Bool-cases, inl, inr,
}
use torana_plugin_sdk.GoStd.Utf8.{utf8_valid}
use torana_plugin_sdk.GoStd.Strings.{bytes_lt}
use torana_plugin_sdk.TestHost.Maps.{Map}
use torana_plugin_sdk.TestHost.Store.{sorted, sort_in, matching, keeps}

-- Every key of the store is valid UTF-8.
abbrev pub KeysValid : Map Bytes → Type 0
KeysValid [] = Unit
KeysValid (e ∷ m) = (utf8_valid e.0 ≡ true) × KeysValid m

pub KeysValid-get :
    (m : Map Bytes) (i : ℕ) {e : Bytes × Bytes}
    → KeysValid m
    → get_elem? m i ≡ some e
    → utf8_valid e.0 ≡ true
KeysValid-get [] i u h = absurd cc
KeysValid-get (x ∷ m) zero u h = ground (arith, u.0, h)
KeysValid-get (x ∷ m) (suc i) u h = KeysValid-get m i u.1 h

pub matching-KeysValid :
    (prefix c : Bytes) (m : Map Bytes) → KeysValid m → KeysValid (matching prefix c m)
unfolding matching
matching-KeysValid p c [] u = tt
matching-KeysValid p c (e ∷ m) u = elim (Bool-cases (keeps p c e.0)) [
  | inl t ↦ rw t (u.0, matching-KeysValid p c m u.1)
  | inr f ↦ rw f (matching-KeysValid p c m u.1)
]

sort_in-KeysValid :
    (e : Bytes × Bytes) (m : Map Bytes)
    → utf8_valid e.0 ≡ true
    → KeysValid m
    → KeysValid (sort_in e m)
unfolding sort_in
sort_in-KeysValid e [] v u = (v, tt)
sort_in-KeysValid e (x ∷ m) v u = elim (Bool-cases (bytes_lt e.0 x.0)) [
  | inl t ↦ rw t (v, u)
  | inr f ↦ rw f (u.0, sort_in-KeysValid e m v u.1)
]

pub sorted-KeysValid : (m : Map Bytes) → KeysValid m → KeysValid (sorted m)
unfolding sorted
sorted-KeysValid [] u = tt
sorted-KeysValid (e ∷ m) u = sort_in-KeysValid e (sorted m) u.0 (sorted-KeysValid m u.1)
