-- ===== src/HostCall/Unique.antt =====
-- What the validators of headers, slots and prompt-cache policies accept.
use torana_plugin_sdk.Prelude.{
  ℕ, zero, suc, Bool, true, false, ◌&&◌, ◌||◌, Bytes, List, [], ◌∷◌, Option, none, some, ok, ◌==◌,
  ltb, length, get_elem?, bytes_eq_iff, ◌≡◌, ◌≢◌, ◌↔◌, refl, sym, ap, ◌∙◌, arith, Bool-cases, inl,
  inr, >>-eq-ok,
}
use torana_plugin_sdk.GoStd.Strings.{to_lower}
use torana_plugin_sdk.Proto.HostCall.{HttpHeader}
use torana_plugin_sdk.HostCall.Names.{
  valid_header_name, token_loop, valid_suggestion_token, slot_loop, validate_slot, is_alnum,
  is_joint,
}
use torana_plugin_sdk.HostCall.Headers.{
  seen_name, check_values, headers_loop, validate_http_headers,
}

some_injective {ℓ} : {A : Type ℓ} {a b : A} → some a ≡ some b → a ≡ b
some_injective h = cc

-- A header of an accepted list that starts behind the names `seen`.
pub record Fresh (seen : List Bytes) (o : Option HttpHeader) : Type 0 where
  pub header : HttpHeader
  pub is_header : o ≡ some header
  pub has_name : valid_header_name header.name ≡ true
  pub no_break : check_values header.values ≡ ok tt
  pub unseen : seen_name (to_lower header.name) seen ≡ false

headers_loop-Fresh :
    (hs : List (Option HttpHeader)) (seen : List Bytes) (i : ℕ) {o : Option HttpHeader}
    → headers_loop seen hs ≡ ok tt
    → get_elem? hs i ≡ some o
    → Fresh seen o
unfolding headers_loop seen_name
headers_loop-Fresh [] seen i h e = absurd (ground arith)
headers_loop-Fresh (none ∷ hs) seen i h e = absurd (ground arith)
headers_loop-Fresh (some x ∷ hs) seen zero h e =
    let p = (>>-eq-ok _ (headers_loop (to_lower x.name ∷ seen) hs)).0 h in
    let q = (>>-eq-ok _ (check_values x.values)).0 (p.0) in
    record {
      header = x;
      is_header = sym (some_injective e);
      has_name = ground (arith, q.0);
      no_break = q.1;
      unseen = ground (arith, q.0);
    }
headers_loop-Fresh (some x ∷ hs) seen (suc i) h e =
    let p = (>>-eq-ok _ (headers_loop (to_lower x.name ∷ seen) hs)).0 h in
    let r = headers_loop-Fresh hs (to_lower x.name ∷ seen) i p.1 e in
    record {
      header = r.header;
      is_header = r.is_header;
      has_name = r.has_name;
      no_break = r.no_break;
      unseen = ground (arith, r.unseen);
    }

headers_loop-later :
    (x : HttpHeader) (hs : List (Option HttpHeader)) (seen : List Bytes) (i : ℕ) {k : HttpHeader}
    → headers_loop seen (some x ∷ hs) ≡ ok tt
    → get_elem? hs i ≡ some (some k)
    → to_lower k.name ≢ to_lower x.name
unfolding headers_loop seen_name
headers_loop-later x hs seen i {k} h e same =
    let p = (>>-eq-ok _ (headers_loop (to_lower x.name ∷ seen) hs)).0 h in
    let r = headers_loop-Fresh hs (to_lower x.name ∷ seen) i p.1 e in
    let named : to_lower r.header.name ≡ to_lower x.name =
      ap (λ y. to_lower y.name) (some_injective (sym r.is_header)) ∙ same in
    absurd
      (ground (arith, r.unseen, (bytes_eq_iff (to_lower r.header.name) (to_lower x.name)).1 named))

unique_from :
    (hs : List (Option HttpHeader)) (seen : List Bytes) (i j : ℕ) {h k : HttpHeader}
    → headers_loop seen hs ≡ ok tt
    → get_elem? hs i ≡ some (some h)
    → get_elem? hs j ≡ some (some k)
    → to_lower h.name ≡ to_lower k.name
    → i ≡ j
unfolding headers_loop
unique_from [] seen i j ok' e f same = absurd (ground arith)
unique_from (x ∷ hs) seen zero zero ok' e f same = refl
unique_from (none ∷ hs) seen i j ok' e f same = absurd (ground arith)
unique_from (some x ∷ hs) seen zero (suc j) {h} ok' e f same = absurd (
    headers_loop-later x hs seen j ok' f
      (sym same ∙ ap (λ y. to_lower y.name) (some_injective (some_injective (sym e)))))
unique_from (some x ∷ hs) seen (suc i) zero {h} {k} ok' e f same = absurd (
    headers_loop-later x hs seen i ok' e
      (same ∙ ap (λ y. to_lower y.name) (some_injective (some_injective (sym f)))))
unique_from (some x ∷ hs) seen (suc i) (suc j) ok' e f same =
    let p = (>>-eq-ok _ (headers_loop (to_lower x.name ∷ seen) hs)).0 ok' in
    ap suc (unique_from hs (to_lower x.name ∷ seen) i j p.1 e f same)

-- In a list of headers that is accepted each element is a header with a token for a name and no
-- line break in its values, and no two headers have the same name but for upper and lower case.
pub accepted_headers :
    (hs : List (Option HttpHeader))
    → validate_http_headers hs ≡ ok tt
    → ((i : ℕ) (o : Option HttpHeader) → get_elem? hs i ≡ some o → Fresh [] o)
      × ((i j : ℕ) (h k : HttpHeader)
          → get_elem? hs i ≡ some (some h)
          → get_elem? hs j ≡ some (some k)
          → to_lower h.name ≡ to_lower k.name
          → i ≡ j)
unfolding validate_http_headers
accepted_headers hs a =
    (λ i o e. headers_loop-Fresh hs [] i a e, λ i j h k e f same. unique_from hs [] i j a e f same)

rotate : (x y z : Bool) → ((x || y) || z) ≡ ((y || z) || x)
rotate x y z = ground arith

slot_loop-token_loop : (i : ℕ) (cs : Bytes) → (slot_loop i cs ≡ ok tt) ↔ (token_loop i cs ≡ true)
unfolding slot_loop token_loop
slot_loop-token_loop i [] = (λ h. refl, λ h. refl)
slot_loop-token_loop i (c ∷ cs) =
    rw (rotate (c == b'.') (c == b'_') (c == b'-'))
      (elim (Bool-cases (is_alnum c || (ltb 0 i && is_joint c))) [
        | inl t ↦ rw t (slot_loop-token_loop (suc i) cs)
        | inr f ↦ rw f (λ h. absurd (ground arith), λ h. absurd (ground arith))
      ])

suc_not_zero : (n : ℕ) → (suc n == 0) ≡ false
suc_not_zero n = ground arith

-- `validateSlot` and `validSuggestionToken` with the bound 64, two loops that are written apart,
-- accept the same strings.
pub validate_slot_iff :
    (slot : Bytes) → (validate_slot slot ≡ ok tt) ↔ (valid_suggestion_token slot 64 ≡ true)
unfolding validate_slot valid_suggestion_token
validate_slot_iff [] = ground arith
validate_slot_iff (c ∷ cs) = elim (Bool-cases (ltb 64 (length (c ∷ cs)))) [
  | inl t ↦ rw t (λ h. absurd (ground arith), λ h. absurd (ground arith))
  | inr f ↦ rw (f, suc_not_zero (length cs)) (slot_loop-token_loop 0 (c ∷ cs))
]
