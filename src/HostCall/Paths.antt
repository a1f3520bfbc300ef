-- ===== src/HostCall/Paths.antt =====
-- What `validateLogicalPath` accepts, against lexical resolution of `.`, `..` and empty segments.
use torana_plugin_sdk.Prelude.{
  ℕ, ◌≤◌, true, false, ◌||◌, Bytes, List, [], ◌∷◌, ◌++◌, ok, is_empty, ◌==◌, ==_iff, length, codes,
  bytes_eq, if◌then◌else◌, ◌≡◌, ◌≢◌, refl, sym, ap, ◌∙◌, arith, Bool-cases, inl, inr, >>-eq-ok,
}
use torana_plugin_sdk.GoStd.Utf8.{utf8_valid}
use torana_plugin_sdk.GoStd.Strings.{split, prepend}
use torana_plugin_sdk.HostCall.Names.{bad_segment, check_segments, validate_logical_path}
use mathlib.Core.List.{append_assoc, append-nil}

-- The segments with `/` between them.
unfoldable pub join : List Bytes → Bytes
join [] = []
join (part ∷ []) = part
join (part ∷ next ∷ parts) = part ++ (b'/' ∷ join (next ∷ parts))

parent : List Bytes → List Bytes
parent [] = []
parent (x ∷ []) = []
parent (x ∷ y ∷ xs) = x ∷ parent (y ∷ xs)

-- The segments that are left when an empty segment and `.` stay in a directory and `..` leaves it.
unfoldable pub resolve : List Bytes → List Bytes → List Bytes
unfolding parent
resolve dir [] = dir
resolve dir (part ∷ parts) =
    let stay = resolve dir parts in
    let up = resolve (parent dir) parts in
    let down = resolve (dir ++ (part ∷ [])) parts in
    if is_empty part || bytes_eq part (codes ".")
    then stay
    else if bytes_eq part (codes "..")
    then up
    else down

-- The file that a path names.
unfoldable pub location : Bytes → List Bytes
unfolding resolve
location path = resolve [] (split path b'/')

resolve_good :
    (dir parts : List Bytes) → check_segments parts ≡ ok tt → resolve dir parts ≡ dir ++ parts
unfolding resolve check_segments bad_segment
resolve_good dir [] h = sym (append-nil dir)
resolve_good dir (part ∷ parts) h =
    let p = (>>-eq-ok _ (check_segments parts)).0 h in
    let rest = resolve_good (dir ++ (part ∷ [])) parts p.1 ∙ append_assoc dir (part ∷ []) parts in
    ground (arith, p.0, rest)

split_cases :
    (path : Bytes) → (part : Bytes) × (parts : List Bytes) × (split path b'/' ≡ part ∷ parts)
unfolding split prepend
split_cases [] = ([], [], refl)
split_cases (c ∷ cs) =
    let (part, parts, e) = split_cases cs in
    elim (Bool-cases (c == b'/')) [
      | inl s ↦ ([], split cs b'/', ground arith)
      | inr n ↦ (c ∷ part, parts, rw e (ground arith))
    ]

join-prepend :
    (c : ℕ) (part : Bytes) (parts : List Bytes)
    → join (prepend c (part ∷ parts)) ≡ c ∷ join (part ∷ parts)
unfolding join prepend
join-prepend c part [] = refl
join-prepend c part (next ∷ parts) = refl

pub join-split : (path : Bytes) → join (split path b'/') ≡ path
unfolding join split
join-split [] = refl
join-split (c ∷ cs) =
    let (part, parts, e) = split_cases cs in
    let rest : join (part ∷ parts) ≡ cs = ap join (sym e) ∙ join-split cs in
    elim (Bool-cases (c == b'/')) [
      | inl s ↦ rw e (ground (arith, rest, ==_iff c b'/'))
      | inr n ↦ rw e (ground (arith, rest, join-prepend c part parts))
    ]

-- A path that is accepted where an empty one is not.
accepted_path :
    (path : Bytes)
    → validate_logical_path path false ≡ ok tt
    → (length path ≤ 240) × (utf8_valid path ≡ true) × (check_segments (split path b'/') ≡ ok tt)
unfolding validate_logical_path
accepted_path path h = (ground arith, ground arith, ground arith)

location-accepted :
    (path : Bytes) → validate_logical_path path false ≡ ok tt → location path ≡ split path b'/'
unfolding location
location-accepted path h = resolve_good [] (split path b'/') ((accepted_path path h).2)

-- An accepted path has at most 240 bytes, is UTF-8, and is its own lexical resolution: the segments
-- that are left of it have it as their join with slashes.
pub accepted_path_resolved :
    (path : Bytes)
    → validate_logical_path path false ≡ ok tt
    → (length path ≤ 240) × (utf8_valid path ≡ true) × (join (location path) ≡ path)
accepted_path_resolved path h =
    let p = accepted_path path h in (p.0, p.1, ap join (location-accepted path h) ∙ join-split path)

-- Two accepted paths that differ name different files.
pub accepted_paths_distinct :
    (p q : Bytes)
    → validate_logical_path p false ≡ ok tt
    → validate_logical_path q false ≡ ok tt
    → p ≢ q
    → location p ≢ location q
accepted_paths_distinct p q hp hq n e =
    n (sym ((accepted_path_resolved p hp).2) ∙ ap join e ∙ (accepted_path_resolved q hq).2)
