-- ===== src/Cache/Backend/Holding.antt =====
-- What the calls of the cache leave of a response that the store of a location holds.
pub mod Writes
use ngxora.Base.{
  ℕ, ◌≤◌, ◌≡◌, ◌≢◌, ◌⊎◌, inl, inr, refl, sym, ◌∙◌, subst, arith, true, false, List, [], ◌∷◌, Option,
  none, some, leb, leb→le, ◌==◌, lookup, remove, nat_has_eq, Bool-cases, Option-cases,
  lookup-insert_cases, lookup-remove_self, remove-IsSub,
}
use ngxora.Machine.{u64_max}
use ngxora.Cache.Types.{CacheKey, cache_key_eq, CachedResponse, CacheConfig, entry_size}
use ngxora.Cache.Location.{LocationCache, ttl_of}
use ngxora.Cache.Location
use ngxora.Cache.Location.Accounting.{IsOrder}
use ngxora.Cache.Location.Updates.{IsGood}
use ngxora.Cache.Location.Writes.{sync_limits-IsSynced, put_lem}
use ngxora.Cache.Location.Kept.{
  evict_stale-AddsNone, sync_limits-AddsNone, record_miss-AddsNone, put_other,
}
use ngxora.Cache.Backend.{
  CacheBackend, max_size, advance_generation, store_or_create, write, min_uses_of, evict_all,
  evict_stale_all, invalidate_route, record_miss, put,
}
use ngxora.Cache.Backend.Invariant.{
  BackendInv, IsSized, lookup-IsSound, store_or_create-Inv, store_or_create_cases, max_size_fits,
}

-- The store of the key's location holds the response under the key.
abbrev pub Holding : CacheKey → CachedResponse → CacheBackend → Type 0
Holding key r b =
    (c : LocationCache) × (lookup key.route_id b.locations ≡ some c)
    × (lookup key c.entries ≡ some r)

-- Caching is enabled and the key is not retired.
abbrev pub IsTaken : CacheKey → CacheConfig → CacheBackend → Type 0
IsTaken key cfg b = (cfg.enabled ≡ true) × (b.generation ≤ key.generation)

pub store_or_create-IsTaken :
    (key : CacheKey) (cfg : CacheConfig) (now : ℕ) (b : CacheBackend) (c : LocationCache)
    → store_or_create key cfg now b ≡ some c
    → IsTaken key cfg b
unfolding store_or_create
store_or_create-IsTaken key cfg now b c h = ground arith

pub store_or_create-refused :
    (key : CacheKey) (cfg : CacheConfig) (now : ℕ) (b : CacheBackend)
    → store_or_create key cfg now b ≡ none
    → IsTaken key cfg b
    → ⊥
unfolding store_or_create
store_or_create-refused key cfg now b h (on, g) =
    elim (Option-cases (lookup key.route_id b.locations)) [
      | inl e ↦ ground arith
      | inr (c, e) ↦ ground arith
    ]

-- A store that a write begins with holds what the location held before.
pub created-Holding :
    (key other : CacheKey) (r : CachedResponse) (cfg : CacheConfig) (now : ℕ) (b : CacheBackend)
    (c : LocationCache)
    → store_or_create other cfg now b ≡ some c
    → other.route_id ≡ key.route_id
    → lookup key c.entries ≡ some r
    → Holding key r b
unfolding lookup Location.new
created-Holding key other r cfg now b c e same h =
    elim (store_or_create_cases other cfg now b c e) [
      | inl fresh ↦ absurd (new_empty (subst (λ x. lookup key x.entries ≡ some r) fresh h))
      | inr found ↦ (c, subst (λ id. lookup id b.locations ≡ some c) same found, h)
    ]
  where
    new_empty : lookup key (Location.new cfg (max_size cfg b) now).entries ≡ some r → ⊥
    new_empty q = cc

-- What is held after a write is in the store that was written, or was held before.
pub write-Holding :
    (key other : CacheKey) (r : CachedResponse) (c : LocationCache) (b : CacheBackend)
    → Holding key r (write other c b)
    → ((other.route_id ≡ key.route_id) × (lookup key c.entries ≡ some r))
      ⊎ (((other.route_id == key.route_id) ≡ false) × Holding key r b)
write-Holding key other r c b (d, e, h) =
    elim (lookup-insert_cases key.route_id other.route_id c d b.locations e) [
      | inl (same, w) ↦ inl (same, subst (λ x. lookup key x.entries ≡ some r) w h)
      | inr (differ, found) ↦ inr (differ, (d, found, h))
    ]

evict_all-found :
    (now id : ℕ) (m : List (ℕ × LocationCache)) (c : LocationCache)
    → lookup id (evict_all now m) ≡ some c
    → (d : LocationCache) × (lookup id m ≡ some d) × (c ≡ Location.evict_stale now d)
unfolding lookup
evict_all-found now id [] c h = cc
evict_all-found now id ((j, x) ∷ m) c h = elim (Bool-cases (j == id)) [
  | inl q ↦ (x, rw q refl, (let k = rw q at h in cc))
  | inr q ↦ let (d, e, f) = evict_all-found now id m c (rw q at h) in (d, rw q e, f)
]

pub Holding-evict_stale_all :
    (key : CacheKey) (r : CachedResponse) (now : ℕ) (b : CacheBackend)
    → BackendInv b
    → Holding key r (evict_stale_all now b)
    → Holding key r b
unfolding evict_stale_all
Holding-evict_stale_all key r now b v (c, e, h) =
    let (d, found, f) = evict_all-found now key.route_id b.locations c e in
    let (good, _) = lookup-IsSound key.route_id b.locations d v.locations_sound found in
    (
      d,
      found,
      evict_stale-AddsNone now d good.inv key r (subst (λ x. lookup key x.entries ≡ some r) f h),
    )

pub Holding-advance_generation :
    (key : CacheKey) (r : CachedResponse) (g : ℕ) (b : CacheBackend)
    → Holding key r (advance_generation g b)
    → (g ≤ b.generation) × Holding key r b
unfolding advance_generation lookup
Holding-advance_generation key r g b h = elim (Bool-cases (leb g b.generation)) [
  | inl q ↦ (leb→le g b.generation q, rw q at h)
  | inr q ↦
      let (c, e, _) : Holding key r (record b { generation = g; locations = [] }) = rw q at h in cc
]

pub Holding-invalidate_route :
    (key : CacheKey) (r : CachedResponse) (id : ℕ) (b : CacheBackend)
    → Holding key r (invalidate_route id b)
    → (id ≢ key.route_id) × Holding key r b
unfolding invalidate_route
Holding-invalidate_route key r id b (c, e, h) = (
  λ same.
      let gone = lookup-remove_self id b.locations in
      let k = subst (λ i. lookup i (remove id b.locations) ≡ some c) (sym same) e in
      let d = sym gone ∙ k in cc,
  (c, remove-IsSub id b.locations key.route_id c e, h),
)
