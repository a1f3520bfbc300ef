-- ===== src/HostCall/CachePolicy.antt =====
-- What `PromptCachePolicy.Validate` accepts.
use torana_plugin_sdk.Prelude.{
  ℕ, zero, suc, ◌<◌, ◌≤◌, true, false, not, ◌&&◌, List, [], ◌∷◌, Option, none, some, ok, refuse_if,
  ltb, get_elem?, if◌then◌else◌, ◌≡◌, ◌≢◌, refl, sym, ap, ◌∙◌, arith, >>-eq-ok, refuse_if-eq-ok,
}
use torana_plugin_sdk.Proto.HostCall.{PromptCacheTier, PromptCachePolicy}
use torana_plugin_sdk.RequestValidate.Blocks.{is_some}
use torana_plugin_sdk.HostCall.Policy.{
  seen_number, validate_tier, tiers_loop, shortest_loop, shortest_ttl, check_warm, validate_policy,
  is_zero,
}

some_injective {ℓ} : {A : Type ℓ} {a b : A} → some a ≡ some b → a ≡ b
some_injective h = cc

-- A tier of an accepted list that starts behind the TTLs `seen`.
pub record FreshTier (seen : List ℕ) (o : Option PromptCacheTier) : Type 0 where
  pub tier : PromptCacheTier
  pub is_tier : o ≡ some tier
  pub accepted : validate_tier (some tier) ≡ ok tt
  pub unseen : seen_number tier.ttl_seconds seen ≡ false

tiers_loop-FreshTier :
    (ts : List (Option PromptCacheTier)) (seen : List ℕ) (i : ℕ) {o : Option PromptCacheTier}
    → tiers_loop seen ts ≡ ok tt
    → get_elem? ts i ≡ some o
    → FreshTier seen o
unfolding tiers_loop seen_number
tiers_loop-FreshTier [] seen i h e = absurd (ground arith)
tiers_loop-FreshTier (none ∷ ts) seen i h e = absurd (unfold validate_tier in ground arith)
tiers_loop-FreshTier (some x ∷ ts) seen zero h e =
    let p = (>>-eq-ok _ (tiers_loop (x.ttl_seconds ∷ seen) ts)).0 h in
    let q = (>>-eq-ok (validate_tier (some x)) _).0 (p.0) in
    record {
      tier = x;
      is_tier = sym (some_injective e);
      accepted = q.0;
      unseen = (refuse_if-eq-ok _ _).0 (q.1);
    }
tiers_loop-FreshTier (some x ∷ ts) seen (suc i) h e =
    let p = (>>-eq-ok _ (tiers_loop (x.ttl_seconds ∷ seen) ts)).0 h in
    let r = tiers_loop-FreshTier ts (x.ttl_seconds ∷ seen) i p.1 e in
    record {
      tier = r.tier;
      is_tier = r.is_tier;
      accepted = r.accepted;
      unseen = ground (arith, r.unseen);
    }

tiers_loop-later :
    (x : PromptCacheTier) (ts : List (Option PromptCacheTier)) (seen : List ℕ) (i : ℕ)
    {u : PromptCacheTier}
    → tiers_loop seen (some x ∷ ts) ≡ ok tt
    → get_elem? ts i ≡ some (some u)
    → u.ttl_seconds ≢ x.ttl_seconds
unfolding tiers_loop seen_number
tiers_loop-later x ts seen i {u} h e same =
    let p = (>>-eq-ok _ (tiers_loop (x.ttl_seconds ∷ seen) ts)).0 h in
    let r = tiers_loop-FreshTier ts (x.ttl_seconds ∷ seen) i p.1 e in
    let named : r.tier.ttl_seconds ≡ x.ttl_seconds =
      ap (λ y. y.ttl_seconds) (some_injective (sym r.is_tier)) ∙ same in
    absurd (ground (arith, r.unseen, named))

distinct_from :
    (ts : List (Option PromptCacheTier)) (seen : List ℕ) (i j : ℕ) {t u : PromptCacheTier}
    → tiers_loop seen ts ≡ ok tt
    → get_elem? ts i ≡ some (some t)
    → get_elem? ts j ≡ some (some u)
    → t.ttl_seconds ≡ u.ttl_seconds
    → i ≡ j
unfolding tiers_loop
distinct_from [] seen i j a e f same = absurd (ground arith)
distinct_from (none ∷ ts) seen i j a e f same = absurd (unfold validate_tier in ground arith)
distinct_from (some x ∷ ts) seen zero zero a e f same = refl
distinct_from (some x ∷ ts) seen zero (suc j) a e f same =
    let t_is_x = ap (λ y. y.ttl_seconds) (some_injective (some_injective (sym e))) in
    absurd (tiers_loop-later x ts seen j a f (sym same ∙ t_is_x))
distinct_from (some x ∷ ts) seen (suc i) zero a e f same =
    let u_is_x = ap (λ y. y.ttl_seconds) (some_injective (some_injective (sym f))) in
    absurd (tiers_loop-later x ts seen i a e (same ∙ u_is_x))
distinct_from (some x ∷ ts) seen (suc i) (suc j) a e f same =
    let p = (>>-eq-ok _ (tiers_loop (x.ttl_seconds ∷ seen) ts)).0 a in
    ap suc (distinct_from ts (x.ttl_seconds ∷ seen) i j p.1 e f same)

shortest_loop-le_start : (s : ℕ) (ts : List (Option PromptCacheTier)) → (shortest_loop s ts).0 ≤ s
unfolding shortest_loop
shortest_loop-le_start s [] = omega arith
shortest_loop-le_start s (none ∷ ts) = omega arith
shortest_loop-le_start s (some x ∷ ts) =
    let m = if ltb x.ttl_seconds s then x.ttl_seconds else s in
    ground (arith, shortest_loop-le_start m ts)

shortest_loop-le :
    (s : ℕ) (ts : List (Option PromptCacheTier)) (i : ℕ) {t : PromptCacheTier}
    → get_elem? ts i ≡ some (some t)
    → (shortest_loop s ts).0 ≤ t.ttl_seconds
unfolding shortest_loop
shortest_loop-le s [] i e = absurd (ground arith)
shortest_loop-le s (none ∷ ts) i e = omega arith
shortest_loop-le s (some x ∷ ts) zero e =
    let m = if ltb x.ttl_seconds s then x.ttl_seconds else s in
    let t_is_x = ap (λ y. y.ttl_seconds) (some_injective (some_injective e)) in
    ground (arith, shortest_loop-le_start m ts, t_is_x)
shortest_loop-le s (some x ∷ ts) (suc i) e =
    shortest_loop-le (if ltb x.ttl_seconds s then x.ttl_seconds else s) ts i e

shortest_ttl-le :
    (ts : List (Option PromptCacheTier)) (i : ℕ) {t : PromptCacheTier}
    → get_elem? ts i ≡ some (some t)
    → (shortest_ttl ts).0 ≤ t.ttl_seconds
unfolding shortest_ttl
shortest_ttl-le [] i e = omega arith
shortest_ttl-le (none ∷ ts) i e = omega arith
shortest_ttl-le (some x ∷ ts) zero e =
    let t_is_x = ap (λ y. y.ttl_seconds) (some_injective (some_injective e)) in
    omega (arith, shortest_loop-le_start x.ttl_seconds ts, t_is_x)
shortest_ttl-le (some x ∷ ts) (suc i) e = shortest_loop-le x.ttl_seconds ts i e

check_warm-lt :
    (warm : ℕ) (ts : List (Option PromptCacheTier))
    → check_warm (some warm) ts ≡ ok tt
    → warm < (shortest_ttl ts).0
unfolding check_warm
check_warm-lt warm ts h = ground arith

-- The tiers of a policy that is accepted are present and valid, no two have the same TTL, and a
-- warm interval is positive, comes with `refresh_on_read`, and is below the TTL of every tier.
pub accepted_policy :
    (x : PromptCachePolicy)
    → validate_policy (some x) ≡ ok tt
    → ((i : ℕ) (o : Option PromptCacheTier) → get_elem? x.tiers i ≡ some o → FreshTier [] o)
      × ((i j : ℕ) (t u : PromptCacheTier)
          → get_elem? x.tiers i ≡ some (some t)
          → get_elem? x.tiers j ≡ some (some u)
          → t.ttl_seconds ≡ u.ttl_seconds
          → i ≡ j)
      × ((warm : ℕ)
          → x.warm_interval_seconds ≡ some warm
          → (0 < warm)
            × (x.refresh_on_read ≡ true)
            × ((i : ℕ) (t : PromptCacheTier)
                → get_elem? x.tiers i ≡ some (some t)
                → warm < t.ttl_seconds))
unfolding validate_policy
accepted_policy x a =
    let p = (>>-eq-ok _ (check_warm x.warm_interval_seconds x.tiers)).0 a in
    let q = (>>-eq-ok _ (tiers_loop [] x.tiers)).0 (p.0) in
    let r =
      (>>-eq-ok _ (refuse_if (is_some x.warm_interval_seconds && not x.refresh_on_read) _)).0
        (q.0) in
    let z = (>>-eq-ok _ (refuse_if (is_zero x.warm_interval_seconds) _)).0 (r.0) in
    (
      λ i o e. tiers_loop-FreshTier x.tiers [] i q.1 e,
      λ i j t u e f same. distinct_from x.tiers [] i j q.1 e f same,
      λ warm w.
          let below = check_warm-lt warm x.tiers (ap (λ o. check_warm o x.tiers) (sym w) ∙ p.1) in
          (
            ground (arith, w, z.1),
            ground (arith, w, r.1),
            λ i t e. omega (arith, below, shortest_ttl-le x.tiers i e),
          ),
    )
