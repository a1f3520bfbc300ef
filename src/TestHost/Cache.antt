-- ===== src/TestHost/Cache.antt =====
-- The caches of the test host, the plugin's own and the shared one: env.cache_* and
-- env.shared_cache_* of `builtinTyped`. An int64 is its two's complement pattern.
use torana_plugin_sdk.Prelude.{
  ℕ, ◌+◌, ◌%◌, ◌^◌, ◌<◌, Bool, ◌&&◌, Bytes, [], Option, none, some, ok, ltb, leb, if◌then◌else◌,
  ◌≡◌, arith, >>-eq-ok, refuse_if,
}
use torana_plugin_sdk.Proto.HostCall.{CacheSetArgs}
use torana_plugin_sdk.HostCall.Args.{validate_key, validate_cache_set, bad_ttl_ms}
use torana_plugin_sdk.HostCall.Names.{bad_ttl}
use torana_plugin_sdk.HostCall.State.{validate_cache_delete}
use torana_plugin_sdk.RequestValidate.Blocks.{is_some}
use torana_plugin_sdk.TestHost.Maps.{
  Map, lookup, insert, erase, lookup-insert_self, lookup-erase_self,
}
use torana_plugin_sdk.TestHost.Replies.{Reply, value, error, not_found, guarded}

-- `h.cache` and `h.cacheExpiry`, or `h.sharedCache` and `h.sharedExpiry`
pub record Cache : Type 0 where
  pub entries : Map Bytes
  pub expiry : Map ℕ

-- A missing expiry reads as 0.
expiry_of : Option ℕ → ℕ
expiry_of none = 0
expiry_of (some e) = e

-- `expiry > 0 && now >= expiry`
unfoldable pub expired : ℕ → ℕ → Bool
expired expiry now = ltb 0 expiry && ltb expiry (2 ^ 63) && ltb now (2 ^ 63) && leb expiry now

hit_or_miss : Option Bytes → Reply
hit_or_miss none = error not_found
hit_or_miss (some v) = value v

unfoldable pub do_cache_get : ℕ → Bytes → Cache → Cache × Reply
unfolding expiry_of expired hit_or_miss
do_cache_get now k c =
    if is_some (lookup k c.entries) && expired (expiry_of (lookup k c.expiry)) now
    then (record { entries = erase k c.entries; expiry = erase k c.expiry }, error not_found)
    else (c, hit_or_miss (lookup k c.entries))

set_expiry : ℕ → Bytes → Option ℕ → Map ℕ → Map ℕ
set_expiry now k none m = erase k m
set_expiry now k (some ttl) m = insert k ((now + ttl) % 2 ^ 64) m

unfoldable pub do_cache_set : ℕ → CacheSetArgs → Cache → Cache × Reply
unfolding set_expiry
do_cache_set now a c = (
  record {
    entries = insert a.key a.value c.entries;
    expiry = set_expiry now a.key a.ttl_ms c.expiry;
  },
  value [],
)

pub data CacheCommand : Type 0 where
  get : Bytes → CacheCommand
  set : CacheSetArgs → CacheCommand
  -- the key and the unknown fields
  delete : Bytes → Bytes → CacheCommand

unfoldable pub run_cache : ℕ → CacheCommand → Cache → Cache × Reply
run_cache now (get k) c = guarded (validate_key (some k)) c (do_cache_get now k c)
run_cache now (set a) c = guarded (validate_cache_set (some a)) c (do_cache_set now a c)
run_cache now (delete k unknown) c =
    guarded (validate_cache_delete (some (k, unknown))) c
      (record { entries = erase k c.entries; expiry = erase k c.expiry }, value [])

cache_key_valid :
    (a : CacheSetArgs) → validate_cache_set (some a) ≡ ok tt → validate_key (some a.key) ≡ ok tt
unfolding validate_cache_set validate_key
cache_key_valid a h = ((>>-eq-ok _ _).0 h).0

ttl_positive :
    (a : CacheSetArgs) (ttl : ℕ)
    → validate_cache_set (some a) ≡ ok tt
    → a.ttl_ms ≡ some ttl
    → 0 < ttl
unfolding validate_cache_set
ttl_positive a ttl h e =
    let p = (>>-eq-ok _ (refuse_if (bad_ttl_ms a.ttl_ms) bad_ttl)).0 h in ground (arith, e, p.1)

-- A value that an accepted env.cache_set stores with a TTL is read back at every time before
-- `now + ttl` of the host's clock and is gone from that time on, if that time is below 2 ^ 63.
pub cache_ttl :
    (now later ttl : ℕ) (a : CacheSetArgs) (c : Cache)
    → validate_cache_set (some a) ≡ ok tt
    → a.ttl_ms ≡ some ttl
    → now + ttl < 2 ^ 63
    → later < 2 ^ 63
    → (run_cache later (get a.key) ((run_cache now (set a) c).0)).1
      ≡ (if ltb later (now + ttl) then value a.value else error not_found)
unfolding run_cache guarded do_cache_set do_cache_get set_expiry expiry_of expired hit_or_miss
cache_ttl now later ttl a c va t fits l =
    rw
      (
        va,
        cache_key_valid a va,
        t,
        lookup-insert_self a.key a.value c.entries,
        lookup-insert_self a.key ((now + ttl) % 2 ^ 64) c.expiry,
      )
      (ground (arith, ttl_positive a ttl va t))

-- A value that an accepted env.cache_set stores without a TTL is read back at every time.
pub cache_no_ttl :
    (now later : ℕ) (a : CacheSetArgs) (c : Cache)
    → validate_cache_set (some a) ≡ ok tt
    → a.ttl_ms ≡ none
    → (run_cache later (get a.key) ((run_cache now (set a) c).0)).1 ≡ value a.value
unfolding run_cache guarded do_cache_set do_cache_get set_expiry expiry_of expired hit_or_miss
cache_no_ttl now later a c va t =
    rw
      (
        va,
        cache_key_valid a va,
        t,
        lookup-insert_self a.key a.value c.entries,
        lookup-erase_self a.key c.expiry,
      )
      (ground arith)
