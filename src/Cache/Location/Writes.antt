-- ===== src/Cache/Location/Writes.antt =====
-- `put` and `record_miss` keep a location's accounts, and what `put` stores can be found.
use ngxora.Base.{
  ℕ, ◌≤◌, ◌≡◌, inl, inr, refl, ◌∙◌, arith, List, Option, none, some, leb, ltb, ltb→lt, ltb→le,
  leb→le, leb→lt, if◌then◌else◌, lookup, Bool-cases, Option-cases, insert-Unique,
  lookup-insert_self, IsSub-none, total-insert_same,
}
use ngxora.Machine.{u64_max}
use ngxora.Cache.Types.{CacheKey, cache_key_eq, CachedResponse, CacheConfig, entry_size, count_size}
use ngxora.Cache.Location.{
  LocationCache, remove_response, remove_count, make_room, ttl_of, set_limits, sweep_if_due,
  sync_limits, bumped, first_miss, record_miss, put,
}
use ngxora.Cache.Location.Accounting.{
  IsOrder, Inv, counter_size, make_room-MakesRoom, make_room-refused,
}
use ngxora.Cache.Location.Updates.{
  IsGood, clear-IsCleared, insert_count-Inv, insert_entry-Inv, set_limits-Inv, sweep_if_due-Inv,
  sweep_if_due-limits,
}

module _ (next_key : List CacheKey → Option CacheKey) (order : IsOrder next_key) where
  -- The store after `sync_limits`, which every write begins with.
  pub record IsSynced (cfg : CacheConfig) (max_size : ℕ) (c : LocationCache) : Type 0 where
    pub good : IsGood c
    pub max_size_is : c.max_size ≡ max_size
    pub ttl_is : c.ttl ≡ ttl_of cfg

  pub sync_limits-IsSynced :
      (cfg : CacheConfig) (max_size now : ℕ) {c : LocationCache}
      → Inv c
      → IsSynced cfg max_size (sync_limits next_key cfg max_size now c)
  unfolding sync_limits set_limits
  sync_limits-IsSynced cfg max_size now {c} v =
      let limited = set_limits cfg max_size c in
      let (m, t, n) = sweep_if_due-limits now limited in
      let k =
        make_room-MakesRoom next_key order 0 (sweep_if_due now limited)
          (sweep_if_due-Inv now (set_limits-Inv cfg max_size v)) (omega arith) in
      let (m', t', n') = k.limits in
      record {
        good = record { inv = k.inv; bounded = omega (arith, k.room) };
        max_size_is = m' ∙ m;
        ttl_is = t' ∙ t;
      }

  -- For any order in which the hash maps give their keys: `put` on a store of exact accounts within
  -- its limit, a `u64`, leaves such a store of the same limit, in which the key has the response that
  -- was put if the entry fits the limit, and none otherwise.
  pub put_lem :
      (key : CacheKey) (r : CachedResponse) (c : LocationCache)
      → IsGood c
      → c.max_size ≤ u64_max
      → IsGood (put next_key key r c)
        × (lookup key (put next_key key r c).entries
            ≡ (if leb (entry_size key r) c.max_size then some r else none))
        × ((put next_key key r c).max_size ≡ c.max_size)
  unfolding put
  put_lem key r c g m =
      let k = clear-IsCleared key g in
      let size = entry_size key r in
      let cleared = remove_response key (remove_count key c) in
      elim (Bool-cases (leb size c.max_size)) [
        | inl fit ↦
            let s =
              make_room-MakesRoom next_key order size cleared k.good.inv
                (omega (arith, leb→le size c.max_size fit, k.max_size_is)) in
            let (m', t', n') = s.limits in
            let left = (make_room next_key size cleared).1 in
            rw (s.granted, fit)
              (
                record {
                  inv =
                      insert_entry-Inv key r left s.inv
                        (IsSub-none cleared.entries left.entries key s.sub_entries k.absent)
                        (omega (arith, s.room, k.max_size_is));
                  bounded = omega (arith, s.room, k.max_size_is);
                },
                lookup-insert_self key r left.entries,
                m' ∙ k.max_size_is,
              )
        | inr over ↦
            rw
              (
                make_room-refused next_key order size cleared
                    (omega (arith, leb→lt size c.max_size over, k.max_size_is)),
                over,
              )
              (k.good, k.absent, k.max_size_is)
      ]

  first_miss-IsGood :
      (key : CacheKey) (now : ℕ) (c : LocationCache)
      → IsGood c
      → c.max_size ≤ u64_max
      → lookup key c.request_counts ≡ none
      → IsGood (first_miss next_key key now c).1
        × ((first_miss next_key key now c).1.max_size ≡ c.max_size)
  unfolding first_miss
  first_miss-IsGood key now c g m n = elim (Bool-cases (ltb c.max_size (count_size key))) [
    | inl over ↦
        rw
          (make_room-refused next_key order (count_size key) c
            (ltb→lt c.max_size (count_size key) over))
          (g, refl)
    | inr fit ↦
        let s =
          make_room-MakesRoom next_key order (count_size key) c g.inv
            (ltb→le c.max_size (count_size key) fit) in
        let (m', t', n') = s.limits in
        let left = (make_room next_key (count_size key) c).1 in
        rw s.granted (
          record {
            inv =
                insert_count-Inv key (record { count = 1; last_seen = now }) left s.inv
                  (IsSub-none c.request_counts left.request_counts key s.sub_counts n)
                  (omega (arith, s.room, m'));
            bounded = omega (arith, s.room, m');
          },
          m',
        )
  ]

  -- For any order in which the hash maps give their keys: `record_miss` on a store of exact accounts
  -- within its limit, a `u64`, leaves such a store of the same limit.
  pub record_miss-IsGood :
      (key : CacheKey) (min_uses now : ℕ) (c : LocationCache)
      → IsGood c
      → c.max_size ≤ u64_max
      → IsGood (record_miss next_key key min_uses now c).1
        × ((record_miss next_key key min_uses now c).1.max_size ≡ c.max_size)
  unfolding record_miss
  record_miss-IsGood key min_uses now c g m = elim (Bool-cases (leb min_uses 1)) [
    | inl q ↦ rw q (g, refl)
    | inr q ↦ rw q (elim (Option-cases (lookup key c.request_counts)) [
      | inl e ↦ rw e (first_miss-IsGood key now c g m e)
      | inr (value, e) ↦ rw e (
        record {
          inv = record {
            exact = omega (
              arith,
              g.inv.exact,
              total-insert_same counter_size key value (bumped c.ttl now value) c.request_counts
                  g.inv.unique_counts e refl,
            );
            fits = g.inv.fits;
            unique_entries = g.inv.unique_entries;
            unique_counts =
                insert-Unique key (bumped c.ttl now value) c.request_counts g.inv.unique_counts;
          };
          bounded = g.bounded;
        },
        refl,
      )
    ])
  ]
