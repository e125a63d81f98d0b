-- ===== src/Cache/Backend.antt =====
-- `CacheBackend`: the stores of all locations, and the generation below which keys are retired.
-- A call is one step; its locks are taken and dropped within it.
pub mod Invariant
pub mod Retirement
pub mod Reads
pub mod Holding
pub mod Provenance
use ngxora.Base.{
  ℕ, zero, suc, ◌+◌, ◌-◌, ◌≡◌, refl, Bool, true, false, not, ◌||◌, List, [], ◌∷◌, map, Option, none,
  some, leb, ltb, ◌==◌, if◌then◌else◌, length, lookup, remove, insert, retain, nat_has_eq,
}
use ngxora.Machine.{duration_add, elapsed}
use ngxora.Cache.Types.{CacheKey, cache_key_eq, CachedResponse, CacheConfig}
use ngxora.Cache.Location.{LocationCache, ttl_of, evict_stale, sync_limits}
use ngxora.Cache.Location

pub record CacheBackend : Type 0 where
  pub generation : ℕ
  pub locations : List (ℕ × LocationCache)
  pub default_max_size : ℕ

unfoldable pub new : ℕ → CacheBackend
new default_max_size = record {
  generation = 0;
  locations = [];
  default_max_size = default_max_size;
}

unfoldable pub set_default_max_size : ℕ → CacheBackend → CacheBackend
set_default_max_size size b = record b { default_max_size = size }

unfoldable pub max_size : CacheConfig → CacheBackend → ℕ
max_size cfg b = elim cfg.max_size [ none ↦ b.default_max_size | some size ↦ size ]

-- Retires the stores of all previous generations together.
unfoldable pub advance_generation : ℕ → CacheBackend → CacheBackend
advance_generation generation b =
    if leb generation b.generation then b else record b { generation = generation; locations = [] }

-- `store` with `create` set: the location's store, made if it is not there.
unfoldable pub store_or_create : CacheKey → CacheConfig → ℕ → CacheBackend → Option LocationCache
store_or_create key cfg now b =
    if not cfg.enabled || ltb key.generation b.generation
    then none
    else elim (lookup key.route_id b.locations) [
      | some store ↦ some store
      | none ↦ some (Location.new cfg (max_size cfg b) now)
    ]

-- `store` with `create` clear.
unfoldable pub store : CacheKey → CacheConfig → CacheBackend → Option LocationCache
store key cfg b =
    if not cfg.enabled || ltb key.generation b.generation
    then none
    else lookup key.route_id b.locations

-- The handle that `store` returned is written through.
abbrev pub write : CacheKey → LocationCache → CacheBackend → CacheBackend
write key c b = record b { locations = insert key.route_id c b.locations }

abbrev pub younger_than : ℕ → ℕ → CachedResponse → Option CachedResponse
younger_than age now response =
    if ltb (elapsed now response.created_at) age then some response else none

-- The `?` on an option.
module _ {ℓ κ} {T : Type ℓ} {U : Type κ} where
  infixl 5 ◌>>=◌
  abbrev pub ◌>>=◌ : Option T → (T → Option U) → Option U
  none >>= next = none
  some item >>= next = next item

  pub >>=-some :
      (first : Option T) (next : T → Option U) {result : U}
      → (first >>= next) ≡ some result
      → (item : T) × (first ≡ some item) × (next item ≡ some result)
  >>=-some none next h = cc
  >>=-some (some item) next h = (item, refl, h)

-- The lookup that `get` and `get_stale` share: a response younger than `age`.
unfoldable pub read : ℕ → CacheKey → CacheConfig → ℕ → CacheBackend → Option CachedResponse
read age key cfg now b = do
  guard ← store key cfg b
  response ← lookup key guard.entries
  younger_than age now response

unfoldable pub get : CacheKey → CacheConfig → ℕ → CacheBackend → Option CachedResponse
get key cfg now b = read (ttl_of cfg) key cfg now b

unfoldable pub get_stale : CacheKey → CacheConfig → ℕ → CacheBackend → Option CachedResponse
get_stale key cfg now b = do
  stale ← cfg.stale_if_error
  read (duration_add (ttl_of cfg) stale) key cfg now b

abbrev pub min_uses_of : CacheConfig → ℕ
min_uses_of cfg = elim cfg.min_uses [ none ↦ 1 | some n ↦ n ]

abbrev pub evict_all : ℕ → List (ℕ × LocationCache) → List (ℕ × LocationCache)
evict_all now [] = []
evict_all now ((id, c) ∷ m) = (id, Location.evict_stale now c) ∷ evict_all now m

unfoldable pub evict_stale_all : ℕ → CacheBackend → CacheBackend
evict_stale_all now b = record b { locations = evict_all now b.locations }

unfoldable pub invalidate_route : ℕ → CacheBackend → CacheBackend
invalidate_route route_id b = record b { locations = remove route_id b.locations }

entries_from : List (ℕ × LocationCache) → ℕ
entries_from [] = 0
entries_from ((_, c) ∷ m) = length c.entries + entries_from m

unfoldable pub total_entries : CacheBackend → ℕ
unfolding entries_from
total_entries b = entries_from b.locations

module _ (next_key : List CacheKey → Option CacheKey) where
  unfoldable pub record_miss : CacheKey → CacheConfig → ℕ → CacheBackend → Bool × CacheBackend
  record_miss key cfg now b = elim (store_or_create key cfg now b) [
    | none ↦ (false, b)
    | some c ↦
        let synced = Location.sync_limits next_key cfg (max_size cfg b) now c in
        let (admitted, c') = Location.record_miss next_key key (min_uses_of cfg) now synced in
        (admitted, write key c' b)
  ]

  unfoldable pub put : CacheKey → CachedResponse → CacheConfig → ℕ → CacheBackend → CacheBackend
  put key response cfg now b = elim (store_or_create key cfg now b) [
    | none ↦ b
    | some c ↦
        let synced = Location.sync_limits next_key cfg (max_size cfg b) now c in
        write key (Location.put next_key key response synced) b
  ]
