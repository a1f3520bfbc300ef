-- ===== src/Envelope/Closed/Inside.antt =====
-- `validateClosed` against the messages that stand anywhere inside a message.
use torana_plugin_sdk.Prelude.{true, Bytes, List, ◌≡◌, ◌↔◌, refl, arith, ok, is_empty}
use torana_plugin_sdk.Envelope.Closed.{
  Reflected, message, Children, last, child, strings_valid, strings_utf8, children_utf8,
  validate_closed, validate_children,
}

-- The first message is the second one, or a message inside of it.
mutual
  pub data Inside : Reflected → Reflected → Type 0 where
    here : {m : Reflected} → Inside m m
    below :
        {m : Reflected} {unknown : Bytes} {strings : List Bytes} {cs : Children}
        → Among m cs
        → Inside m (message unknown strings cs)

  pub data Among : Reflected → Children → Type 0 where
    first : {m c : Reflected} {cs : Children} → Inside m c → Among m (child c cs)
    next : {m c : Reflected} {cs : Children} → Among m cs → Among m (child c cs)

-- No unknown field, and every string is UTF-8.
abbrev pub Clean : Reflected → Type 0
Clean (message unknown strings cs) = (is_empty unknown ≡ true) × (strings_valid strings ≡ true)

mutual
  unfolding validate_closed validate_children strings_utf8 children_utf8

  closed-Clean : (r m : Reflected) → Inside m r → validate_closed r ≡ ok tt → Clean m
  closed-Clean (message u ss cs) _ here h = ground arith
  closed-Clean (message u ss cs) m (below a) h = children-Clean cs m a (ground arith)

  children-Clean :
      (cs : Children) (m : Reflected) → Among m cs → validate_children cs ≡ ok tt → Clean m
  children-Clean last m a h = elim a [ ]
  children-Clean (child c cs) m (first i) h = closed-Clean c m i (ground arith)
  children-Clean (child c cs) m (next a) h = children-Clean cs m a (ground arith)

mutual
  unfolding strings_utf8 children_utf8

  Clean-utf8 : (r : Reflected) → ((m : Reflected) → Inside m r → Clean m) → strings_utf8 r ≡ true
  Clean-utf8 (message u ss cs) f =
      ground (arith, f (message u ss cs) here, Clean-children_utf8 cs (λ m a. f m (below a)))

  Clean-children_utf8 :
      (cs : Children) → ((m : Reflected) → Among m cs → Clean m) → children_utf8 cs ≡ true
  Clean-children_utf8 last f = refl
  Clean-children_utf8 (child c cs) f =
      ground
        (arith, Clean-utf8 c (λ m i. f m (first i)), Clean-children_utf8 cs (λ m a. f m (next a)))

mutual
  unfolding validate_closed validate_children

  Clean-closed :
      (r : Reflected) → ((m : Reflected) → Inside m r → Clean m) → validate_closed r ≡ ok tt
  Clean-closed (message u ss cs) f = ground (
    arith,
    f (message u ss cs) here,
    Clean-utf8 (message u ss cs) f,
    Clean-children cs (λ m a. f m (below a)),
  )

  Clean-children :
      (cs : Children) → ((m : Reflected) → Among m cs → Clean m) → validate_children cs ≡ ok tt
  Clean-children last f = refl
  Clean-children (child c cs) f =
      ground (arith, Clean-closed c (λ m i. f m (first i)), Clean-children cs (λ m a. f m (next a)))

-- A message is accepted exactly when it and every message inside of it, at any depth, has no
-- unknown field and only strings that are UTF-8.
pub validate_closed_iff :
    (r : Reflected) → (validate_closed r ≡ ok tt) ↔ ((m : Reflected) → Inside m r → Clean m)
validate_closed_iff r = (λ h m i. closed-Clean r m i h, Clean-closed r)
