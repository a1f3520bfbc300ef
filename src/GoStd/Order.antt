-- ===== src/GoStd/Order.antt =====
-- `<` on strings is a strict total order.
use torana_plugin_sdk.Prelude.{true, false, Bytes, [], ◌∷◌, ◌≡◌, refl, arith}
use torana_plugin_sdk.GoStd.Strings.{bytes_lt}

pub bytes_lt_irrefl : (a : Bytes) → bytes_lt a a ≡ false
unfolding bytes_lt
bytes_lt_irrefl [] = refl
bytes_lt_irrefl (x ∷ a) = ground (arith, bytes_lt_irrefl a)

pub bytes_lt_trans :
    (a b c : Bytes) → bytes_lt a b ≡ true → bytes_lt b c ≡ true → bytes_lt a c ≡ true
unfolding bytes_lt
bytes_lt_trans [] (y ∷ b) (z ∷ c) h k = refl
bytes_lt_trans (x ∷ a) (y ∷ b) (z ∷ c) h k = ground (arith, bytes_lt_trans a b c)
bytes_lt_trans [] [] c h k = k
bytes_lt_trans (x ∷ a) [] c h k = absurd (ground arith)
bytes_lt_trans [] (y ∷ b) [] h k = absurd (ground arith)
bytes_lt_trans (x ∷ a) (y ∷ b) [] h k = absurd (ground arith)

pub bytes_lt_total : (a b : Bytes) → bytes_lt a b ≡ false → bytes_lt b a ≡ false → a ≡ b
unfolding bytes_lt
bytes_lt_total [] [] h k = refl
bytes_lt_total (x ∷ a) (y ∷ b) h k = grind (arith, bytes_lt_total a b)
bytes_lt_total (x ∷ a) [] h k = absurd (ground arith)
bytes_lt_total [] (y ∷ b) h k = absurd (ground arith)

pub bytes_lt_asym : (a b : Bytes) → bytes_lt a b ≡ true → bytes_lt b a ≡ false
unfolding bytes_lt
bytes_lt_asym a b h = ground (arith, bytes_lt_trans a b a h, bytes_lt_irrefl a)
