-- ===== src/Cache/Backend/Retirement.antt =====
-- Advancing the generation retires all that was stored for earlier ones, for good.
use ngxora.Base.{
  ℕ, ◌≤◌, ◌<◌, ◌≡◌, refl, arith, false, List, Option, none, some, nat_has_eq, Option-cases, inl,
  inr,
}
use ngxora.Cache.Types.{CacheKey, CachedResponse, CacheConfig}
use ngxora.Cache.Location.{ttl_of}
use ngxora.Machine.{duration_add}
use ngxora.Cache.Backend.{
  CacheBackend, set_default_max_size, advance_generation, store, store_or_create, read, ◌>>=◌,
  evict_stale_all, invalidate_route, get, get_stale, record_miss, put,
}
use ngxora.Cache.Location.Accounting.{IsOrder}
use ngxora.Cache.Backend.Invariant.{
  Step, resize, advance, miss, store_response, sweep, invalidate, Reach, start, next,
}

retired_store :
    (key : CacheKey) (cfg : CacheConfig) (now : ℕ) (b : CacheBackend)
    → key.generation < b.generation
    → (store key cfg b ≡ none) × (store_or_create key cfg now b ≡ none)
unfolding store store_or_create
retired_store key cfg now b h = ground arith

advance-generation : (g : ℕ) (b : CacheBackend) → g ≤ (advance_generation g b).generation
unfolding advance_generation
advance-generation g b = ground arith

advance-generation_mono :
    (g : ℕ) (b : CacheBackend) → b.generation ≤ (advance_generation g b).generation
unfolding advance_generation
advance-generation_mono g b = ground arith

bind-none :
    {A B : Type 0} (o : Option A) (f : A → Option B) → ((a : A) → f a ≡ none) → (o >>= f) ≡ none
bind-none none f h = refl
bind-none (some a) f h = h a

module _ (next_key : List CacheKey → Option CacheKey) where
  -- A key of an earlier generation is neither read nor written.
  abbrev pub IsRetired : CacheKey → CacheBackend → Type 0
  IsRetired key b =
      (cfg : CacheConfig) (r : CachedResponse) (now : ℕ)
      → (get key cfg now b ≡ none)
        × (get_stale key cfg now b ≡ none)
        × (record_miss next_key key cfg now b ≡ (false, b))
        × (put next_key key r cfg now b ≡ b)

  read_retired :
      (age : ℕ) (key : CacheKey) (cfg : CacheConfig) (now : ℕ) (b : CacheBackend)
      → store key cfg b ≡ none
      → read age key cfg now b ≡ none
  unfolding read
  read_retired age key cfg now b h = rw h

  get_stale_retired :
      (key : CacheKey) (cfg : CacheConfig) (now : ℕ) (b : CacheBackend)
      → store key cfg b ≡ none
      → get_stale key cfg now b ≡ none
  unfolding get_stale
  get_stale_retired key cfg now b h =
      bind-none cfg.stale_if_error (λ stale. read (duration_add (ttl_of cfg) stale) key cfg now b)
        (λ stale. read_retired (duration_add (ttl_of cfg) stale) key cfg now b h)

  retired : (key : CacheKey) (b : CacheBackend) → key.generation < b.generation → IsRetired key b
  unfolding get record_miss put
  retired key b h cfg r now =
      let (e, e') = retired_store key cfg now b h in
      (
        read_retired _ key cfg now b e,
        get_stale_retired key cfg now b e,
        rw (e', record_miss),
        rw (e', put),
      )

  put-generation :
      (key : CacheKey) (r : CachedResponse) (cfg : CacheConfig) (now : ℕ) (b : CacheBackend)
      → (put next_key key r cfg now b).generation ≡ b.generation
  unfolding put
  put-generation key r cfg now b = elim (Option-cases (store_or_create key cfg now b)) [
    | inl e ↦ rw (e, put)
    | inr (c, e) ↦ rw (e, put)
  ]

  miss-generation :
      (key : CacheKey) (cfg : CacheConfig) (now : ℕ) (b : CacheBackend)
      → (record_miss next_key key cfg now b).1.generation ≡ b.generation
  unfolding record_miss
  miss-generation key cfg now b = elim (Option-cases (store_or_create key cfg now b)) [
    | inl e ↦ rw (e, record_miss)
    | inr (c, e) ↦ rw (e, record_miss)
  ]

module _ (next_key : List CacheKey → Option CacheKey) (order : IsOrder next_key) where
  -- No call lowers the generation.
  Step-generation : {b c : CacheBackend} → Step next_key order b c → b.generation ≤ c.generation
  unfolding set_default_max_size evict_stale_all invalidate_route
  Step-generation (resize n h) = omega arith
  Step-generation {b} (advance g) = advance-generation_mono g b
  Step-generation {b} (miss key cfg now z) = omega (arith, miss-generation next_key key cfg now b)
  Step-generation {b} (store_response key r cfg now z) =
      omega (arith, put-generation next_key key r cfg now b)
  Step-generation (sweep now) = omega arith
  Step-generation (invalidate id) = omega arith

  Reach-generation : {b c : CacheBackend} → Reach next_key order b c → b.generation ≤ c.generation
  Reach-generation start = omega arith
  Reach-generation (next r s) = omega (arith, Reach-generation r, Step-generation s)

  -- For any order in which the hash maps give their keys: after `advance_generation` to a
  -- generation above a key's, and whatever calls whose limits are `u64`s follow, `get` and
  -- `get_stale` return nothing for the key, and `record_miss` and `put` change nothing and admit
  -- nothing.
  pub advance_generation-IsRetired :
      (g : ℕ) (key : CacheKey) (b : CacheBackend) {c : CacheBackend}
      → key.generation < g
      → Reach next_key order (advance_generation g b) c
      → IsRetired next_key key c
  advance_generation-IsRetired g key b {c} h r =
      retired next_key key c (omega (arith, advance-generation g b, Reach-generation r))
