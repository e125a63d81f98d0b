-- ===== src/Cache/Backend/Reads.antt =====
-- What the cache returns: only fresh responses, and after `put` the response that was put.
use ngxora.Base.{
  ℕ, ◌≤◌, ◌<◌, ◌≡◌, ◌≢◌, subst, ap, ◌∙◌, arith, Bool, true, false, List, Option, none, some, leb,
  if◌then◌else◌, lookup, nat_has_eq, Option-cases, inl, inr, ◌==◌, lookup-insert,
  lookup-insert_self,
}
use ngxora.Machine.{elapsed, duration_max, duration_add}
use ngxora.Cache.Types.{CacheKey, cache_key_eq, CachedResponse, CacheConfig, entry_size}
use ngxora.Cache.Location.{LocationCache, ttl_of}
use ngxora.Cache.Location
use ngxora.Cache.Location.Accounting.{IsOrder}
use ngxora.Cache.Location.Writes.{sync_limits-IsSynced, put_lem}
use ngxora.Cache.Backend.{
  CacheBackend, max_size, store, store_or_create, write, younger_than, read, get, get_stale, put,
  ◌>>=◌, >>=-some,
}
use ngxora.Cache.Backend.Invariant.{BackendInv, IsSized, max_size_fits, store_or_create-Inv}

younger_than-some :
    (age now : ℕ) (r r' : CachedResponse)
    → younger_than age now r ≡ some r'
    → (r ≡ r') × (elapsed now r.created_at < age)
younger_than-some age now r r' h = ground arith

younger_than_mono :
    (age age' now : ℕ) (r r' : CachedResponse)
    → age ≤ age'
    → younger_than age now r ≡ some r'
    → younger_than age' now r ≡ some r'
younger_than_mono age age' now r r' l h = ground arith

-- What a successful read has found.
read-some :
    (age : ℕ) (key : CacheKey) (cfg : CacheConfig) (now : ℕ) (b : CacheBackend) (r : CachedResponse)
    → read age key cfg now b ≡ some r
    → (c : LocationCache) × (store key cfg b ≡ some c)
      × (lookup key c.entries ≡ some r)
      × (elapsed now r.created_at < age)
unfolding read
read-some age key cfg now b r h =
    let (c, e, h') =
      >>=-some (store key cfg b) (λ c. lookup key c.entries >>= λ r. younger_than age now r) h in
    let (r', e', h'') = >>=-some (lookup key c.entries) (λ r. younger_than age now r) h' in
    let (same, young) = younger_than-some age now r' r h'' in
    (c, e, e' ∙ ap some same, subst (λ x. elapsed now x.created_at < age) same young)

read_mono :
    (age age' : ℕ) (key : CacheKey) (cfg : CacheConfig) (now : ℕ) (b : CacheBackend)
    (r : CachedResponse)
    → age ≤ age'
    → read age key cfg now b ≡ some r
    → read age' key cfg now b ≡ some r
unfolding read
read_mono age age' key cfg now b r l h =
    let (c, e, found, young) = read-some age key cfg now b r h in rw (e, found) (ground arith)

store-some :
    (key : CacheKey) (cfg : CacheConfig) (b : CacheBackend) (c : LocationCache)
    → store key cfg b ≡ some c
    → (b.generation ≤ key.generation)
      × (cfg.enabled ≡ true)
      × (lookup key.route_id b.locations ≡ some c)
unfolding store
store-some key cfg b c h = ground arith

-- A response that `get` returns is held by the store of the key's location and younger than the ttl.
pub get_found :
    (key : CacheKey) (cfg : CacheConfig) (now : ℕ) (b : CacheBackend) (r : CachedResponse)
    → get key cfg now b ≡ some r
    → (c : LocationCache) × (lookup key.route_id b.locations ≡ some c)
      × (lookup key c.entries ≡ some r)
      × (elapsed now r.created_at < ttl_of cfg)
unfolding get
get_found key cfg now b r h =
    let (c, e, found, young) = read-some (ttl_of cfg) key cfg now b r h in
    let (g, on, l) = store-some key cfg b c e in (c, l, found, young)

-- Where `stale_if_error` is set and the ttl is a `Duration`, what `get` returns `get_stale` returns
-- too.
pub get_stale-get :
    (key : CacheKey) (cfg : CacheConfig) (now stale : ℕ) (b : CacheBackend) (r : CachedResponse)
    → cfg.stale_if_error ≡ some stale
    → ttl_of cfg ≤ duration_max
    → get key cfg now b ≡ some r
    → get_stale key cfg now b ≡ some r
unfolding get get_stale
get_stale-get key cfg now stale b r s l h =
    let m =
      read_mono (ttl_of cfg) (duration_add (ttl_of cfg) stale) key cfg now b r (omega arith) h in
    ground arith

-- An enabled location of the current generation has a store to write to, and reads it back.
store_or_create-some :
    (key : CacheKey) (cfg : CacheConfig) (now : ℕ) (b : CacheBackend)
    → cfg.enabled ≡ true
    → b.generation ≤ key.generation
    → (c : LocationCache) × (store_or_create key cfg now b ≡ some c)
unfolding store_or_create
store_or_create-some key cfg now b on g = elim (Option-cases (lookup key.route_id b.locations)) [
  | inl e ↦ (Location.new cfg (max_size cfg b) now, ground arith)
  | inr (c, e) ↦ (c, ground arith)
]

store-write :
    (key : CacheKey) (cfg : CacheConfig) (c : LocationCache) (b : CacheBackend)
    → cfg.enabled ≡ true
    → b.generation ≤ key.generation
    → store key cfg (write key c b) ≡ some c
unfolding store
store-write key cfg c b on g = ground (arith, lookup-insert_self key.route_id c b.locations)

read-write :
    (age : ℕ) (key : CacheKey) (cfg : CacheConfig) (later : ℕ) (c : LocationCache)
    (b : CacheBackend) (fits : Bool) (r : CachedResponse)
    → store key cfg b ≡ some c
    → lookup key c.entries ≡ (if fits then some r else none)
    → read age key cfg later b ≡ (if fits then younger_than age later r else none)
unfolding read
read-write age key cfg later c b true r e h = rw (e, h)
read-write age key cfg later c b false r e h = rw (e, h)

module _ (next_key : List CacheKey → Option CacheKey) (order : IsOrder next_key) where
  -- For any order in which the hash maps give their keys: on a backend whose stores are sound and
  -- limited by a `u64`, with caching enabled and a key that is not retired, `get` after `put` returns
  -- the response that was put if its entry fits the limit and is younger than the ttl, and nothing
  -- otherwise.
  pub get-put :
      (key : CacheKey) (r : CachedResponse) (cfg : CacheConfig) (now later : ℕ) (b : CacheBackend)
      → BackendInv b
      → IsSized cfg
      → cfg.enabled ≡ true
      → b.generation ≤ key.generation
      → get key cfg later (put next_key key r cfg now b) ≡ (
          if leb (entry_size key r) (max_size cfg b)
          then younger_than (ttl_of cfg) later r
          else none)
  unfolding put get
  get-put key r cfg now later b v z on g =
      let (c, e) = store_or_create-some key cfg now b on g in
      let s =
        sync_limits-IsSynced next_key order cfg (max_size cfg b) now
          (store_or_create-Inv key cfg now b c v e) in
      let synced = Location.sync_limits next_key cfg (max_size cfg b) now c in
      let m = max_size_fits cfg z v in
      let (good, found, k) =
        put_lem next_key order key r synced s.good (omega (arith, s.max_size_is)) in
      let c' = Location.put next_key key r synced in
      rw (e, put)
        (read-write (ttl_of cfg) key cfg later c' (write key c' b)
          (leb (entry_size key r) (max_size cfg b)) r (store-write key cfg c' b on g)
          (found ∙ rw s.max_size_is))

  -- For any order in which the hash maps give their keys: a `put` for one location does not change
  -- what `get` returns for a key of another location.
  pub get-put_other :
      (key other : CacheKey) (r : CachedResponse) (cfg cfg' : CacheConfig) (now later : ℕ)
      (b : CacheBackend)
      → other.route_id ≢ key.route_id
      → get other cfg' later (put next_key key r cfg now b) ≡ get other cfg' later b
  unfolding put get read store
  get-put_other key other r cfg cfg' now later b ne =
      elim (Option-cases (store_or_create key cfg now b)) [
        | inl e ↦ rw (e, put)
        | inr (c, e) ↦
            let c' =
              Location.put next_key key r
                (Location.sync_limits next_key cfg (max_size cfg b) now c) in
            let q : (key.route_id == other.route_id) ≡ false = ground arith in
            rw (e, put) (rw (lookup-insert other.route_id key.route_id c' b.locations, q))
      ]
