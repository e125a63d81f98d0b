-- ===== src/Cache/Backend/Provenance.antt =====
-- Where a response comes from that the cache returns: the last call of `put` under its key.
use ngxora.Base.{ℕ, ◌≤◌, ◌<◌, ◌≡◌, ◌≢◌, inl, inr, List, Option, some, lookup, nat_has_eq}
use ngxora.Machine.{u64_max, elapsed}
use ngxora.Cache.Types.{CacheKey, cache_key_eq, CachedResponse, CacheConfig}
use ngxora.Cache.Location.{ttl_of}
use ngxora.Cache.Location.Accounting.{IsOrder}
use ngxora.Cache.Backend.{CacheBackend, new, set_default_max_size, get}
use ngxora.Cache.Backend.Invariant.{
  BackendInv, Step, resize, advance, miss, store_response, sweep, invalidate, Reach, start, next,
  Reach-new,
}
use ngxora.Cache.Backend.Reads.{get_found}
use ngxora.Cache.Backend.Holding.{
  Holding, Holding-evict_stale_all, Holding-advance_generation, Holding-invalidate_route,
}
use ngxora.Cache.Backend.Holding.Writes.{PutKeeps, Holding-record_miss, Holding-put}

module _ (next_key : List CacheKey → Option CacheKey) (order : IsOrder next_key) where
  module _ (key : CacheKey) (r : CachedResponse) where
    -- What a call leaves of a response that is there before it.
    unfoldable pub StepKeeps : {b c : CacheBackend} → Step next_key order b c → Type 0 → Type 0
    StepKeeps (resize n h) Before = Before
    StepKeeps {b} (advance g) Before = (g ≤ b.generation) × Before
    StepKeeps (miss other cfg now z) Before = Before
    StepKeeps {b} (store_response other r' cfg now z) Before = PutKeeps key r other r' cfg b Before
    StepKeeps (sweep now) Before = Before
    StepKeeps (invalidate id) Before = (id ≢ key.route_id) × Before

    -- The last call of `put` under the key that caching took stored the response, and since then
    -- neither the location was invalidated nor the generation raised.
    unfoldable pub LastPut : {b c : CacheBackend} → Reach next_key order b c → Type 0
    LastPut start = ⊥
    LastPut (next calls call) = StepKeeps call (LastPut calls)

    Step-Holding :
        {b c : CacheBackend} (call : Step next_key order b c)
        → BackendInv b
        → Holding key r c
        → StepKeeps call (Holding key r b)
    unfolding StepKeeps set_default_max_size
    Step-Holding (resize n l) v h = h
    Step-Holding {b} (advance g) v h = Holding-advance_generation key r g b h
    Step-Holding {b} (miss other cfg now z) v h =
        Holding-record_miss next_key order key other r cfg now b z v h
    Step-Holding {b} (store_response other r' cfg now z) v h =
        Holding-put next_key order key r other r' cfg now b z v h
    Step-Holding {b} (sweep now) v h = Holding-evict_stale_all key r now b v h
    Step-Holding {b} (invalidate id) v h = Holding-invalidate_route key r id b h

    PutKeeps-mono :
        (other : CacheKey) (r' : CachedResponse) (cfg : CacheConfig) (b : CacheBackend)
        {P Q : Type 0}
        → (P → Q)
        → PutKeeps key r other r' cfg b P
        → PutKeeps key r other r' cfg b Q
    PutKeeps-mono other r' cfg b f (inl stored) = inl stored
    PutKeeps-mono other r' cfg b f (inr (left, p)) = inr (left, f p)

    StepKeeps-mono :
        {b c : CacheBackend} (call : Step next_key order b c) {P Q : Type 0}
        → (P → Q)
        → StepKeeps call P
        → StepKeeps call Q
    unfolding StepKeeps
    StepKeeps-mono (resize n l) f p = f p
    StepKeeps-mono (advance g) f (l, p) = (l, f p)
    StepKeeps-mono (miss other cfg now z) f p = f p
    StepKeeps-mono {b} (store_response other r' cfg now z) f p = PutKeeps-mono other r' cfg b f p
    StepKeeps-mono (sweep now) f p = f p
    StepKeeps-mono (invalidate id) f (ne, p) = (ne, f p)

    Reach-LastPut :
        (n : ℕ) {c : CacheBackend}
        → n ≤ u64_max
        → (calls : Reach next_key order (new n) c) → Holding key r c
        → LastPut calls
    unfolding LastPut new lookup
    Reach-LastPut n l start (c, e, _) = cc
    Reach-LastPut n l (next calls call) h =
        StepKeeps-mono call (Reach-LastPut n l calls)
          (Step-Holding call (Reach-new next_key order n l calls) h)

  -- For any order in which the hash maps give their keys: after any calls whose limits are `u64`s,
  -- from a new backend whose default limit is one, a response that `get` returns is the one that was
  -- stored by the last call of `put` under this very key that found caching enabled and the key not
  -- retired, whose entry fitted its limit; since that call the location was not invalidated and no
  -- `advance_generation` raised the generation; and the response is younger than the ttl.
  pub get-LastPut :
      (n : ℕ) (key : CacheKey) (r : CachedResponse) (cfg : CacheConfig) (now : ℕ) (b : CacheBackend)
      → n ≤ u64_max
      → (calls : Reach next_key order (new n) b) → get key cfg now b ≡ some r
      → LastPut key r calls × (elapsed now r.created_at < ttl_of cfg)
  get-LastPut n key r cfg now b l calls h =
      let (c, e, found, young) = get_found key cfg now b r h in
      (Reach-LastPut key r n l calls (c, e, found), young)
