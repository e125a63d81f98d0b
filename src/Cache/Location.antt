-- ===== src/Cache/Location.antt =====
-- `LocationCache`: one location's responses and admission counters. The instant of a call is an
-- argument. Which key `keys().next()` of a hash map gives first is the parameter `next_key`.
pub mod Accounting
pub mod Updates
pub mod Writes
pub mod Kept
use ngxora.Base.{
  ℕ, zero, suc, ◌+◌, ◌-◌, ◌≡◌, refl, Bool, true, false, not, List, [], ◌∷◌, map, Option, none, some,
  leb, ltb, ◌==◌, if◌then◌else◌, length, lookup, remove, insert, retain,
}
use ngxora.Machine.{wrapping_add, wrapping_sub, duration_add, elapsed, from_secs, saturating_add}
use ngxora.Cache.Types.{
  CacheKey, cache_key_eq, CachedResponse, CacheConfig, MissCount, entry_size, count_size,
}

pub record LocationCache : Type 0 where
  pub ttl : ℕ
  pub retention : ℕ
  pub max_size : ℕ
  pub current_size : ℕ
  pub entries : List (CacheKey × CachedResponse)
  pub request_counts : List (CacheKey × MissCount)
  pub last_sweep : ℕ

abbrev pub ttl_of : CacheConfig → ℕ
ttl_of cfg = elim cfg.ttl [ none ↦ from_secs 60 | some t ↦ t ]

abbrev pub or_zero : Option ℕ → ℕ
or_zero none = 0
or_zero (some n) = n

unfoldable pub new : CacheConfig → ℕ → ℕ → LocationCache
new cfg max_size now = record {
  ttl = ttl_of cfg;
  retention = duration_add (ttl_of cfg) (or_zero cfg.stale_if_error);
  max_size = max_size;
  current_size = 0;
  entries = [];
  request_counts = [];
  last_sweep = now;
}

unfoldable pub remove_response : CacheKey → LocationCache → LocationCache
remove_response key c = elim (lookup key c.entries) [
  | none ↦ c
  | some value ↦ record c {
    entries = remove key c.entries;
    current_size = wrapping_sub c.current_size (entry_size key value);
  }
]

unfoldable pub remove_count : CacheKey → LocationCache → LocationCache
remove_count key c = elim (lookup key c.request_counts) [
  | none ↦ c
  | some _ ↦ record c {
    request_counts = remove key c.request_counts;
    current_size = wrapping_sub c.current_size (count_size key);
  }
]

-- What `retain` of a hash map subtracts from the size for the entries that it drops.
unfoldable pub sub_dropped {ℓ} :
    {V : Type ℓ} → (CacheKey → V → Bool) → (CacheKey → V → ℕ) → ℕ → List (CacheKey × V) → ℕ
sub_dropped kept size total [] = total
sub_dropped kept size total ((k, v) ∷ m) =
    sub_dropped kept size (if kept k v then total else wrapping_sub total (size k v)) m

abbrev pub entry_kept : ℕ → LocationCache → CacheKey → CachedResponse → Bool
entry_kept now c key entry = not (leb c.retention (elapsed now entry.created_at))

abbrev pub count_kept : ℕ → LocationCache → CacheKey → MissCount → Bool
count_kept now c key entry = not (leb c.ttl (elapsed now entry.last_seen))

unfoldable pub evict_stale : ℕ → LocationCache → LocationCache
evict_stale now c =
    let size = sub_dropped (entry_kept now c) entry_size c.current_size c.entries in
    record c {
      entries = retain (entry_kept now c) c.entries;
      request_counts = retain (count_kept now c) c.request_counts;
      current_size = sub_dropped (count_kept now c) (λ k _. count_size k) size c.request_counts;
      last_sweep = now;
    }

-- The counter of a key that is already counted; `usize` has 64 bits.
abbrev pub bumped : ℕ → ℕ → MissCount → MissCount
bumped ttl now value = record {
  count = saturating_add (if leb ttl (elapsed now value.last_seen) then 0 else value.count) 1;
  last_seen = now;
}

-- The fields that `sync_limits` sets.
unfoldable pub set_limits : CacheConfig → ℕ → LocationCache → LocationCache
set_limits cfg max_size c = record c {
  ttl = ttl_of cfg;
  retention = duration_add (ttl_of cfg) (or_zero cfg.stale_if_error);
  max_size = max_size;
}

-- `sync_limits` sweeps at most once a second.
unfoldable pub sweep_if_due : ℕ → LocationCache → LocationCache
sweep_if_due now c = if leb (from_secs 1) (elapsed now c.last_sweep) then evict_stale now c else c

-- Each round of `make_room` removes a counter or a response.
abbrev pub held : LocationCache → ℕ
held c = length c.request_counts + length c.entries

abbrev pub keys {ℓ} : {V : Type ℓ} → List (CacheKey × V) → List CacheKey
keys = map (λ e. e.0)

module _ (next_key : List CacheKey → Option CacheKey) where
  -- One round of the loop of `make_room`, or `none` for its `break`.
  unfoldable pub evict_one : LocationCache → Option LocationCache
  evict_one c = elim (next_key (keys c.request_counts)) [
    | some key ↦ some (remove_count key c)
    | none ↦ elim (next_key (keys c.entries)) [
      | some key ↦ some (remove_response key c)
      | none ↦ none
    ]
  ]

  -- `while self.current_size > self.max_size - size`
  unfoldable pub shrink : ℕ → ℕ → LocationCache → LocationCache
  shrink zero size c = c
  shrink (suc fuel) size c = elim (ltb (c.max_size - size) c.current_size) [
    | false ↦ c
    | true ↦ elim (evict_one c) [ none ↦ c | some c' ↦ shrink fuel size c' ]
  ]

  unfoldable pub make_room : ℕ → LocationCache → Bool × LocationCache
  make_room size c = if ltb c.max_size size then (false, c) else (true, shrink (held c) size c)

  -- `self.make_room(0)` ends `sync_limits`.
  unfoldable pub sync_limits : CacheConfig → ℕ → ℕ → LocationCache → LocationCache
  sync_limits cfg max_size now c = (make_room 0 (sweep_if_due now (set_limits cfg max_size c))).1

  -- The first miss of a key.
  unfoldable pub first_miss : CacheKey → ℕ → LocationCache → Bool × LocationCache
  first_miss key now c =
      let (room, c') = make_room (count_size key) c in
      (
        false,
        if room
            then record c' {
              request_counts = insert key (record { count = 1; last_seen = now }) c'.request_counts;
              current_size = wrapping_add c'.current_size (count_size key);
            }
            else c',
      )

  unfoldable pub record_miss : CacheKey → ℕ → ℕ → LocationCache → Bool × LocationCache
  record_miss key min_uses now c =
      if leb min_uses 1 then (true, c) else elim (lookup key c.request_counts) [
        | some value ↦
            let value' = bumped c.ttl now value in
            (
              leb min_uses value'.count,
              record c { request_counts = insert key value' c.request_counts },
            )
        | none ↦ first_miss key now c
      ]

  unfoldable pub put : CacheKey → CachedResponse → LocationCache → LocationCache
  put key response c =
      let (room, c') =
        make_room (entry_size key response) (remove_response key (remove_count key c)) in
      if room
      then record c' {
        current_size = wrapping_add c'.current_size (entry_size key response);
        entries = insert key response c'.entries;
      }
      else c'
