-- ===== src/Cache/Backend/Holding/Writes.antt =====
-- What the writes to the cache leave of a response that the store of a location holds.
use ngxora.Base.{
  ℕ, ◌≤◌, ◌≡◌, ◌≢◌, ◌⊎◌, inl, inr, sym, ◌∙◌, subst, arith, List, Option, some, leb, leb→le, lookup,
  nat_has_eq, Bool-cases, Option-cases,
}
use ngxora.Machine.{u64_max}
use ngxora.Cache.Types.{CacheKey, cache_key_eq, CachedResponse, CacheConfig, entry_size}
use ngxora.Cache.Location.{LocationCache, ttl_of}
use ngxora.Cache.Location
use ngxora.Cache.Location.Accounting.{IsOrder}
use ngxora.Cache.Location.Updates.{IsGood}
use ngxora.Cache.Location.Writes.{sync_limits-IsSynced, put_lem}
use ngxora.Cache.Location.Kept.{sync_limits-AddsNone, record_miss-AddsNone, put_other}
use ngxora.Cache.Backend.{
  CacheBackend, max_size, store_or_create, write, min_uses_of, record_miss, put,
}
use ngxora.Cache.Backend.Invariant.{BackendInv, IsSized, store_or_create-Inv, max_size_fits}
use ngxora.Cache.Backend.Holding.{
  Holding, IsTaken, store_or_create-IsTaken, store_or_create-refused, created-Holding,
  write-Holding,
}

-- The call of `put` stored the response under the key, or left the key alone.
abbrev pub PutKeeps :
    CacheKey
    → CachedResponse
    → CacheKey
    → CachedResponse
    → CacheConfig
    → CacheBackend
    → Type 0
    → Type 0
PutKeeps key r other r' cfg b Before =
    ((other ≡ key) × (r' ≡ r) × IsTaken other cfg b × (entry_size key r ≤ max_size cfg b))
    ⊎ (((other ≢ key) ⊎ (IsTaken other cfg b → ⊥)) × Before)

module _ (next_key : List CacheKey → Option CacheKey) (order : IsOrder next_key) where
  pub Holding-record_miss :
      (key other : CacheKey) (r : CachedResponse) (cfg : CacheConfig) (now : ℕ) (b : CacheBackend)
      → IsSized cfg
      → BackendInv b
      → Holding key r (record_miss next_key other cfg now b).1
      → Holding key r b
  unfolding record_miss
  Holding-record_miss key other r cfg now b z v h =
      elim (Option-cases (store_or_create other cfg now b)) [
        | inl e ↦ rw (e, record_miss) at h
        | inr (c, e) ↦
            let i = store_or_create-Inv other cfg now b c v e in
            let s = sync_limits-IsSynced next_key order cfg (max_size cfg b) now i in
            let synced = Location.sync_limits next_key cfg (max_size cfg b) now c in
            let c' = (Location.record_miss next_key other (min_uses_of cfg) now synced).1 in
            elim (write-Holding key other r c' b (rw (e, record_miss) at h)) [
              | inr (_, held) ↦ held
              | inl (same, found) ↦ created-Holding key other r cfg now b c e same (
                  sync_limits-AddsNone next_key order cfg (max_size cfg b) now c i key r (
                    record_miss-AddsNone next_key order other (min_uses_of cfg) now synced
                      s.good.inv key r found))
            ]
      ]

  put-stored :
      (key : CacheKey) (r r' : CachedResponse) (c : LocationCache)
      → IsGood c
      → c.max_size ≤ u64_max
      → lookup key (Location.put next_key key r' c).entries ≡ some r
      → (r' ≡ r) × (entry_size key r ≤ c.max_size)
  put-stored key r r' c g m h =
      let (_, stored, _) = put_lem next_key order key r' c g m in
      elim (Bool-cases (leb (entry_size key r') c.max_size)) [
        | inl fit ↦
            let same : r' ≡ r = (let k = sym (rw fit at stored) ∙ h in cc) in
            (
              same,
              subst (λ x. entry_size key x ≤ c.max_size) same
                  (leb→le (entry_size key r') c.max_size fit),
            )
        | inr over ↦ let k = sym (rw over at stored) ∙ h in cc
      ]

  module _ (key : CacheKey) (r : CachedResponse) where
    Holding-put_taken :
        (other : CacheKey) (r' : CachedResponse) (cfg : CacheConfig) (now : ℕ) (b : CacheBackend)
        (c : LocationCache)
        → IsSized cfg
        → BackendInv b
        → store_or_create other cfg now b ≡ some c
        → Holding key r (
            write other
              (Location.put next_key other r'
                (Location.sync_limits next_key cfg (max_size cfg b) now c))
              b)
        → PutKeeps key r other r' cfg b (Holding key r b)
    Holding-put_taken other r' cfg now b c z v e h =
        let i = store_or_create-Inv other cfg now b c v e in
        let s = sync_limits-IsSynced next_key order cfg (max_size cfg b) now i in
        let m = max_size_fits cfg z v in
        let synced = Location.sync_limits next_key cfg (max_size cfg b) now c in
        let c' = Location.put next_key other r' synced in
        elim (Bool-cases (cache_key_eq.same other key)) [
          | inl q ↦
              let o = (cache_key_eq.same_iff other key).0 q in
              elim (write-Holding key other r c' b h) [
                | inl (_, found) ↦
                    let (same, fits) =
                      put-stored other r r' synced s.good (omega (arith, s.max_size_is))
                        (subst (λ k. lookup k c'.entries ≡ some r) (sym o) found) in
                    inl (
                      o,
                      same,
                      store_or_create-IsTaken other cfg now b c e,
                      subst (λ k. entry_size k r ≤ max_size cfg b) o
                          (subst (λ n. entry_size other r ≤ n) s.max_size_is fits),
                    )
                | inr (differ, _) ↦ absurd (let k = rw o at differ in ground arith)
              ]
          | inr q ↦
              let ne : other ≢ key = λ o. (let k = (cache_key_eq.same_iff other key).1 o in cc) in
              inr (
                inl ne,
                elim (write-Holding key other r c' b h) [
                  | inr (_, held) ↦ held
                  | inl (same, found) ↦ created-Holding key other r cfg now b c e same (
                      sync_limits-AddsNone next_key order cfg (max_size cfg b) now c i key r
                        (put_other next_key order other key r' r synced s.good.inv ne found))
                ],
              )
        ]

    pub Holding-put :
        (other : CacheKey) (r' : CachedResponse) (cfg : CacheConfig) (now : ℕ) (b : CacheBackend)
        → IsSized cfg
        → BackendInv b
        → Holding key r (put next_key other r' cfg now b)
        → PutKeeps key r other r' cfg b (Holding key r b)
    unfolding put
    Holding-put other r' cfg now b z v h = elim (Option-cases (store_or_create other cfg now b)) [
      | inl e ↦ inr (inr (store_or_create-refused other cfg now b e), rw (e, put) at h)
      | inr (c, e) ↦ Holding-put_taken other r' cfg now b c z v e (rw (e, put) at h)
    ]
