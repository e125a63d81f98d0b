-- ===== src/Cache/Location/Kept.antt =====
-- What the calls on a location's store leave of the responses that it holds.
use ngxora.Base.{
  ℕ, ◌≡◌, ◌≢◌, ◌∙◌, inl, inr, sym, false, List, Option, some, ltb, ltb→lt, ltb→le, leb, lookup,
  Bool-cases, Option-cases, IsSub, remove-IsSub, retain-IsSub, lookup-insert,
}
use ngxora.Machine.{elapsed, from_secs}
use ngxora.Cache.Types.{CacheKey, cache_key_eq, CachedResponse, CacheConfig, entry_size, count_size}
use ngxora.Cache.Location.{
  LocationCache, remove_response, remove_count, entry_kept, evict_stale, set_limits, sweep_if_due,
  make_room, sync_limits, first_miss, record_miss, put,
}
use ngxora.Cache.Location.Accounting.{
  IsOrder, Inv, make_room-MakesRoom, make_room-refused, remove_count-Inv, remove_response-Inv,
}
use ngxora.Cache.Location.Updates.{set_limits-Inv, sweep_if_due-Inv}

-- No response is added.
abbrev pub AddsNone : LocationCache → LocationCache → Type 0
AddsNone c c' = IsSub c.entries c'.entries

pub evict_stale-AddsNone : (now : ℕ) (c : LocationCache) → Inv c → AddsNone c (evict_stale now c)
unfolding evict_stale
evict_stale-AddsNone now c v = retain-IsSub (entry_kept now c) c.entries v.unique_entries

sweep_if_due-AddsNone : (now : ℕ) (c : LocationCache) → Inv c → AddsNone c (sweep_if_due now c)
unfolding sweep_if_due
sweep_if_due-AddsNone now c v = elim (Bool-cases (leb (from_secs 1) (elapsed now c.last_sweep))) [
  | inl q ↦ rw q (evict_stale-AddsNone now c v)
  | inr q ↦ rw q (λ k r h. h)
]

remove_count-AddsNone : (key : CacheKey) (c : LocationCache) → AddsNone c (remove_count key c)
unfolding remove_count
remove_count-AddsNone key c = elim (Option-cases (lookup key c.request_counts)) [
  | inl e ↦ rw (e, remove_count) (λ k r h. h)
  | inr (n, e) ↦ rw (e, remove_count) (λ k r h. h)
]

remove_response-AddsNone : (key : CacheKey) (c : LocationCache) → AddsNone c (remove_response key c)
unfolding remove_response
remove_response-AddsNone key c = elim (Option-cases (lookup key c.entries)) [
  | inl e ↦ rw (e, remove_response) (λ k r h. h)
  | inr (x, e) ↦ rw (e, remove_response) (remove-IsSub key c.entries)
]

module _ (next_key : List CacheKey → Option CacheKey) (order : IsOrder next_key) where
  make_room-AddsNone :
      (size : ℕ) (c : LocationCache) → Inv c → AddsNone c (make_room next_key size c).1
  make_room-AddsNone size c v = elim (Bool-cases (ltb c.max_size size)) [
    | inl over ↦
        rw (make_room-refused next_key order size c (ltb→lt c.max_size size over)) (λ k r h. h)
    | inr fit ↦
        (make_room-MakesRoom next_key order size c v (ltb→le c.max_size size fit)).sub_entries
  ]

  pub sync_limits-AddsNone :
      (cfg : CacheConfig) (max_size now : ℕ) (c : LocationCache)
      → Inv c
      → AddsNone c (sync_limits next_key cfg max_size now c)
  unfolding sync_limits set_limits
  sync_limits-AddsNone cfg max_size now c v k r h =
      let limited = set_limits cfg max_size c in
      let i = set_limits-Inv cfg max_size v in
      sweep_if_due-AddsNone now limited i k r
        (make_room-AddsNone 0 (sweep_if_due now limited) (sweep_if_due-Inv now i) k r h)

  first_miss-AddsNone :
      (key : CacheKey) (now : ℕ) (c : LocationCache)
      → Inv c
      → AddsNone c (first_miss next_key key now c).1
  unfolding first_miss
  first_miss-AddsNone key now c v k r h =
      make_room-AddsNone (count_size key) c v k r
        (elim (Bool-cases (make_room next_key (count_size key) c).0) [
          | inl q ↦ rw q at h
          | inr q ↦ rw q at h
        ])

  pub record_miss-AddsNone :
      (key : CacheKey) (min_uses now : ℕ) (c : LocationCache)
      → Inv c
      → AddsNone c (record_miss next_key key min_uses now c).1
  unfolding record_miss
  record_miss-AddsNone key min_uses now c v = elim (Bool-cases (leb min_uses 1)) [
    | inl q ↦ rw q (λ k r h. h)
    | inr q ↦ rw q (elim (Option-cases (lookup key c.request_counts)) [
      | inl e ↦ rw e (first_miss-AddsNone key now c v)
      | inr (n, e) ↦ rw e (λ k r h. h)
    ])
  ]

  -- `put` adds none but under its key.
  pub put_other :
      (key other : CacheKey) (r x : CachedResponse) (c : LocationCache)
      → Inv c
      → key ≢ other
      → lookup other (put next_key key r c).entries ≡ some x
      → lookup other c.entries ≡ some x
  unfolding put
  put_other key other r x c v ne h =
      let counted = remove_count key c in
      let cleared = remove_response key counted in
      let i = remove_response-Inv key (remove_count-Inv key v) in
      let left = (make_room next_key (entry_size key r) cleared).1 in
      let found : lookup other left.entries ≡ some x =
        elim (Bool-cases (make_room next_key (entry_size key r) cleared).0) [
          | inl q ↦
              let d : cache_key_eq.same key other ≡ false =
                (elim (Bool-cases (cache_key_eq.same key other)) [
                  | inl same ↦ absurd (ne ((cache_key_eq.same_iff key other).0 same))
                  | inr differ ↦ differ
                ]) in
              rw d at (sym (lookup-insert other key r left.entries) ∙ (rw q at h))
          | inr q ↦ rw q at h
        ] in
      remove_count-AddsNone key c other x (
        remove_response-AddsNone key counted other x
          (make_room-AddsNone (entry_size key r) cleared i other x found))
