-- ===== src/Cache/Backend/Invariant.antt =====
-- Whatever calls are made, every location's store keeps exact accounts within its limit.
use ngxora.Base.{
  ℕ, ◌≤◌, ◌≡◌, subst, arith, List, [], ◌∷◌, Option, none, some, leb, lookup, remove, insert,
  nat_has_eq, All, Bool-cases, Option-cases, ◌⊎◌, inl, inr, ◌==◌,
}
use ngxora.Machine.{u64_max}
use ngxora.Cache.Types.{CacheKey, CachedResponse, CacheConfig}
use ngxora.Cache.Location.{LocationCache}
use ngxora.Cache.Location
use ngxora.Cache.Location.Accounting.{IsOrder, Inv, new-Inv}
use ngxora.Cache.Location.Updates.{IsGood, evict_stale-IsGood}
use ngxora.Cache.Location.Writes.{sync_limits-IsSynced, put_lem, record_miss-IsGood}
use ngxora.Cache.Backend.{
  CacheBackend, new, set_default_max_size, max_size, advance_generation, store_or_create, write,
  min_uses_of, evict_all, evict_stale_all, invalidate_route, record_miss, put,
}

-- The limits of the model: sizes are `u64`s.
abbrev pub IsSized : CacheConfig → Type 0
IsSized cfg = elim cfg.max_size [ none ↦ Unit {0} | some n ↦ n ≤ u64_max ]

abbrev pub IsSound : ℕ × LocationCache → Type 0
IsSound e = IsGood e.1 × (e.1.max_size ≤ u64_max)

pub record BackendInv (b : CacheBackend) : Type 0 where
  pub default_fits : b.default_max_size ≤ u64_max
  pub locations_sound : All IsSound b.locations

pub lookup-IsSound :
    (id : ℕ) (m : List (ℕ × LocationCache)) (c : LocationCache)
    → All IsSound m
    → lookup id m ≡ some c
    → IsGood c × (c.max_size ≤ u64_max)
unfolding lookup
lookup-IsSound id [] c a h = cc
lookup-IsSound id ((j, x) ∷ m) c (s, a) h = elim (Bool-cases (j == id)) [
  | inl q ↦ subst (λ x. IsGood x × (x.max_size ≤ u64_max)) (ground arith) s
  | inr q ↦ lookup-IsSound id m c a (rw q at h)
]

remove-All : (id : ℕ) (m : List (ℕ × LocationCache)) → All IsSound m → All IsSound (remove id m)
unfolding remove
remove-All id [] a = tt
remove-All id ((j, x) ∷ m) (s, a) = elim (Bool-cases (j == id)) [
  | inl q ↦ rw q (remove-All id m a)
  | inr q ↦ rw q (s, remove-All id m a)
]

write-BackendInv :
    (key : CacheKey) (c : LocationCache) {b : CacheBackend}
    → IsGood c
    → c.max_size ≤ u64_max
    → BackendInv b
    → BackendInv (write key c b)
unfolding insert
write-BackendInv key c {b} g m v = record {
  default_fits = v.default_fits;
  locations_sound = ((g, m), remove-All key.route_id b.locations v.locations_sound);
}

evict_all-IsSound :
    (now : ℕ) (m : List (ℕ × LocationCache)) → All IsSound m → All IsSound (evict_all now m)
evict_all-IsSound now [] a = tt
evict_all-IsSound now ((id, c) ∷ m) ((g, s), a) =
    let (g', e) = evict_stale-IsGood now g in ((g', omega (arith, e, s)), evict_all-IsSound now m a)

-- The store that a write begins with: a new one, or the one there.
pub store_or_create_cases :
    (key : CacheKey) (cfg : CacheConfig) (now : ℕ) (b : CacheBackend) (c : LocationCache)
    → store_or_create key cfg now b ≡ some c
    → (c ≡ Location.new cfg (max_size cfg b) now) ⊎ (lookup key.route_id b.locations ≡ some c)
unfolding store_or_create
store_or_create_cases key cfg now b c h = ground arith

pub store_or_create-Inv :
    (key : CacheKey) (cfg : CacheConfig) (now : ℕ) (b : CacheBackend) (c : LocationCache)
    → BackendInv b
    → store_or_create key cfg now b ≡ some c
    → Inv c
store_or_create-Inv key cfg now b c v h = elim (store_or_create_cases key cfg now b c h) [
  | inl e ↦ rw e (new-Inv cfg (max_size cfg b) now)
  | inr e ↦ (lookup-IsSound key.route_id b.locations c v.locations_sound e).0.inv
]

pub max_size_fits :
    (cfg : CacheConfig) {b : CacheBackend} → IsSized cfg → BackendInv b → max_size cfg b ≤ u64_max
unfolding max_size
max_size_fits cfg z v = ground arith

module _ (next_key : List CacheKey → Option CacheKey) (order : IsOrder next_key) where
  pub record_miss-BackendInv :
      (key : CacheKey) (cfg : CacheConfig) (now : ℕ) {b : CacheBackend}
      → IsSized cfg
      → BackendInv b
      → BackendInv (record_miss next_key key cfg now b).1
  unfolding record_miss
  record_miss-BackendInv key cfg now {b} z v = elim (Option-cases (store_or_create key cfg now b)) [
    | inl e ↦ rw (e, record_miss) v
    | inr (c, e) ↦
        let m = max_size_fits cfg z v in
        let s =
          sync_limits-IsSynced next_key order cfg (max_size cfg b) now
            (store_or_create-Inv key cfg now b c v e) in
        let synced = Location.sync_limits next_key cfg (max_size cfg b) now c in
        let (g, k) =
          record_miss-IsGood next_key order key (min_uses_of cfg) now synced s.good
            (omega (arith, s.max_size_is)) in
        rw (e, record_miss) (write-BackendInv key _ g (omega (arith, k, s.max_size_is)) v)
  ]

  put-BackendInv :
      (key : CacheKey) (r : CachedResponse) (cfg : CacheConfig) (now : ℕ) {b : CacheBackend}
      → IsSized cfg
      → BackendInv b
      → BackendInv (put next_key key r cfg now b)
  unfolding put
  put-BackendInv key r cfg now {b} z v = elim (Option-cases (store_or_create key cfg now b)) [
    | inl e ↦ rw (e, put) v
    | inr (c, e) ↦
        let m = max_size_fits cfg z v in
        let s =
          sync_limits-IsSynced next_key order cfg (max_size cfg b) now
            (store_or_create-Inv key cfg now b c v e) in
        let synced = Location.sync_limits next_key cfg (max_size cfg b) now c in
        let (g, _, k) = put_lem next_key order key r synced s.good (omega (arith, s.max_size_is)) in
        rw (e, put) (write-BackendInv key _ g (omega (arith, k, s.max_size_is)) v)
  ]

  -- The calls, each at some instant.
  pub data Step (b : CacheBackend) : CacheBackend → Type 0 where
    resize : (n : ℕ) → n ≤ u64_max → Step b (set_default_max_size n b)
    advance : (g : ℕ) → Step b (advance_generation g b)
    miss :
        (key : CacheKey) (cfg : CacheConfig) (now : ℕ)
        → IsSized cfg
        → Step b (record_miss next_key key cfg now b).1
    store_response :
        (key : CacheKey) (r : CachedResponse) (cfg : CacheConfig) (now : ℕ)
        → IsSized cfg
        → Step b (put next_key key r cfg now b)
    sweep : (now : ℕ) → Step b (evict_stale_all now b)
    invalidate : (route_id : ℕ) → Step b (invalidate_route route_id b)

  pub data Reach (b : CacheBackend) : CacheBackend → Type 0 where
    start : Reach b b
    next : {c d : CacheBackend} → Reach b c → Step c d → Reach b d

  advance-BackendInv :
      (g : ℕ) {b : CacheBackend} → BackendInv b → BackendInv (advance_generation g b)
  unfolding advance_generation
  advance-BackendInv g {b} v = elim (Bool-cases (leb g b.generation)) [
    | inl q ↦ rw q v
    | inr q ↦ rw q (record { default_fits = v.default_fits; locations_sound = tt })
  ]

  -- Each call keeps the invariant.
  pub Step-BackendInv : {b c : CacheBackend} → Step b c → BackendInv b → BackendInv c
  unfolding set_default_max_size evict_stale_all invalidate_route
  Step-BackendInv (resize n h) v = record { default_fits = h; locations_sound = v.locations_sound }
  Step-BackendInv (advance g) v = advance-BackendInv g v
  Step-BackendInv (miss key cfg now z) v = record_miss-BackendInv key cfg now z v
  Step-BackendInv (store_response key r cfg now z) v = put-BackendInv key r cfg now z v
  Step-BackendInv {b} (sweep now) v = record {
    default_fits = v.default_fits;
    locations_sound = evict_all-IsSound now b.locations v.locations_sound;
  }
  Step-BackendInv {b} (invalidate id) v = record {
    default_fits = v.default_fits;
    locations_sound = remove-All id b.locations v.locations_sound;
  }

  Reach-BackendInv : {b c : CacheBackend} → BackendInv b → Reach b c → BackendInv c
  Reach-BackendInv v start = v
  Reach-BackendInv v (next r s) = Step-BackendInv s (Reach-BackendInv v r)

  -- For any order in which the hash maps give their keys: in every state that calls whose limits
  -- are `u64`s can reach from a new backend whose default limit is one, each location's size is
  -- exactly the total of what it holds and is at most its limit, and no key occurs twice in it.
  pub Reach-new : (n : ℕ) {b : CacheBackend} → n ≤ u64_max → Reach (new n) b → BackendInv b
  unfolding new
  Reach-new n h r = Reach-BackendInv (record { default_fits = h; locations_sound = tt }) r
