-- ===== src/Cache/Location/Accounting.antt =====
-- The size that a location's store keeps is the total of what it holds, and eviction makes room.
use ngxora.Base.{
  ℕ, zero, suc, ◌+◌, ◌-◌, ◌^◌, ◌≤◌, ◌<◌, ◌≡◌, ◌⊎◌, inl, inr, refl, ◌∙◌, arith, Bool, true, false,
  List, [], ◌∷◌, Option, none, some, ltb, ltb→lt, ltb→le, lookup, total, Unique, Holds, Bool-cases,
  Option-cases, total-remove, remove-Unique, length-remove, lookup-listed, IsSub, remove-IsSub,
}
use ngxora.Cache.Types.{
  CacheKey, cache_key_eq, CachedResponse, CacheConfig, MissCount, entry_size, count_size,
}
use ngxora.Cache.Location.{
  LocationCache, new, keys, remove_response, remove_count, evict_one, shrink, held, make_room,
}

-- The order in which a hash map gives its keys: any, as long as it gives one that is there.
pub record IsOrder (next_key : List CacheKey → Option CacheKey) : Type 0 where
  pub listed : (ks : List CacheKey) (k : CacheKey) → next_key ks ≡ some k → Holds k ks
  pub exhausted : (ks : List CacheKey) → next_key ks ≡ none → ks ≡ []

abbrev pub counter_size : CacheKey → MissCount → ℕ
counter_size k _ = count_size k

-- The size of all that the store holds.
abbrev pub held_size : LocationCache → ℕ
held_size c = total entry_size c.entries + total counter_size c.request_counts

pub record Inv (c : LocationCache) : Type 0 where
  pub exact : c.current_size ≡ held_size c
  pub fits : c.current_size < 2 ^ 64
  pub unique_entries : Unique c.entries
  pub unique_counts : Unique c.request_counts

-- The limits, which no eviction changes.
abbrev pub SameLimits : LocationCache → LocationCache → Type 0
SameLimits c c' = (c'.max_size ≡ c.max_size) × (c'.ttl ≡ c.ttl) × (c'.retention ≡ c.retention)

pub entry_size_small : (k : CacheKey) (r : CachedResponse) → entry_size k r < 2 ^ 64
unfolding entry_size
entry_size_small k r = omega arith

pub count_size_small : (k : CacheKey) → count_size k < 2 ^ 64
unfolding count_size
count_size_small k = omega arith

pub new-Inv : (cfg : CacheConfig) (max_size now : ℕ) → Inv (new cfg max_size now)
unfolding new total
new-Inv cfg max_size now = record {
  exact = refl;
  fits = omega arith;
  unique_entries = tt;
  unique_counts = tt;
}

pub remove_response-Inv : (key : CacheKey) {c : LocationCache} → Inv c → Inv (remove_response key c)
unfolding remove_response
remove_response-Inv key {c} v = elim (Option-cases (lookup key c.entries)) [
  | inl e ↦ rw (e, remove_response) v
  | inr (r, e) ↦
      let t = total-remove entry_size key r c.entries v.unique_entries e in
      rw (e, remove_response)
        (record {
          exact = omega (arith, v.exact, v.fits);
          fits = omega arith;
          unique_entries = remove-Unique key c.entries v.unique_entries;
          unique_counts = v.unique_counts;
        })
]

pub remove_count-Inv : (key : CacheKey) {c : LocationCache} → Inv c → Inv (remove_count key c)
unfolding remove_count
remove_count-Inv key {c} v = elim (Option-cases (lookup key c.request_counts)) [
  | inl e ↦ rw (e, remove_count) v
  | inr (r, e) ↦
      let t = total-remove counter_size key r c.request_counts v.unique_counts e in
      rw (e, remove_count)
        (record {
          exact = omega (arith, v.exact, v.fits);
          fits = omega arith;
          unique_entries = v.unique_entries;
          unique_counts = remove-Unique key c.request_counts v.unique_counts;
        })
]

-- A listed key of either map is removed by a round, which leaves less.
module _ (next_key : List CacheKey → Option CacheKey) (order : IsOrder next_key) where
  record Evicts (c c' : LocationCache) : Type 0 where
    inv : Inv c'
    limits : SameLimits c c'
    sub_entries : IsSub c.entries c'.entries
    sub_counts : IsSub c.request_counts c'.request_counts
    less : held c' < held c

  remove_count-Evicts :
      (key : CacheKey) (c : LocationCache)
      → Inv c
      → Holds key (keys c.request_counts)
      → Evicts c (remove_count key c)
  unfolding remove_count
  remove_count-Evicts key c v h =
      let (r, e) = lookup-listed key c.request_counts h in
      let l = length-remove key r c.request_counts e in
      record {
        inv = remove_count-Inv key v;
        limits = rw (e, remove_count) (refl, refl, refl);
        sub_entries = rw (e, remove_count) (λ k r h. h);
        sub_counts = rw (e, remove_count) (remove-IsSub key c.request_counts);
        less = rw (e, remove_count) (omega (arith, l));
      }

  remove_response-Evicts :
      (key : CacheKey) (c : LocationCache)
      → Inv c
      → Holds key (keys c.entries)
      → Evicts c (remove_response key c)
  unfolding remove_response
  remove_response-Evicts key c v h =
      let (r, e) = lookup-listed key c.entries h in
      let l = length-remove key r c.entries e in
      record {
        inv = remove_response-Inv key v;
        limits = rw (e, remove_response) (refl, refl, refl);
        sub_entries = rw (e, remove_response) (remove-IsSub key c.entries);
        sub_counts = rw (e, remove_response) (λ k r h. h);
        less = rw (e, remove_response) (omega (arith, l));
      }

  keys-nil {ℓ} : {V : Type ℓ} (m : List (CacheKey × V)) → keys m ≡ [] → m ≡ []
  keys-nil [] h = refl
  keys-nil (x ∷ m) h = cc

  -- A round evicts, or the store is empty.
  evict_one-Evicts :
      (c : LocationCache)
      → Inv c
      → ((evict_one next_key c ≡ none) × (c.current_size ≡ 0))
        ⊎ ((c' : LocationCache) × (evict_one next_key c ≡ some c') × Evicts c c')
  unfolding evict_one total
  evict_one-Evicts c v = elim (Option-cases (next_key (keys c.request_counts))) [
    | inr (k, e) ↦ inr (
      remove_count k c,
      rw (e, evict_one),
      remove_count-Evicts k c v (order.listed (keys c.request_counts) k e),
    )
    | inl e ↦ elim (Option-cases (next_key (keys c.entries))) [
      | inr (k, e') ↦ inr (
        remove_response k c,
        rw (e, evict_one) (rw e'),
        remove_response-Evicts k c v (order.listed (keys c.entries) k e'),
      )
      | inl e' ↦ inl (
        rw (e, evict_one) (rw e'),
        v.exact
            ∙ rw (keys-nil c.entries (order.exhausted (keys c.entries) e'))
                (rw (keys-nil c.request_counts (order.exhausted (keys c.request_counts) e))),
      )
    ]
  ]

  record Shrinks (size : ℕ) (c c' : LocationCache) : Type 0 where
    inv : Inv c'
    limits : SameLimits c c'
    sub_entries : IsSub c.entries c'.entries
    sub_counts : IsSub c.request_counts c'.request_counts
    room : c'.current_size ≤ c.max_size - size

  shrink-Shrinks :
      (fuel size : ℕ) (c : LocationCache)
      → Inv c
      → held c ≤ fuel
      → Shrinks size c (shrink next_key fuel size c)
  unfolding shrink
  shrink-Shrinks zero size c v h = elim (evict_one-Evicts c v) [
    | inl (_, e) ↦ record {
      inv = v;
      limits = (refl, refl, refl);
      sub_entries = λ k r h. h;
      sub_counts = λ k r h. h;
      room = omega arith;
    }
    | inr (c', _, e) ↦ absurd (omega (arith, e.less))
  ]
  shrink-Shrinks (suc fuel) size c v h =
      elim (Bool-cases (ltb (c.max_size - size) c.current_size)) [
        | inr room ↦
            rw (room, shrink)
              (record {
                inv = v;
                limits = (refl, refl, refl);
                sub_entries = λ k r h. h;
                sub_counts = λ k r h. h;
                room = ltb→le (c.max_size - size) c.current_size room;
              })
        | inl over ↦
            rw (over, shrink)
              (elim (evict_one-Evicts c v) [
                | inl (e, z) ↦ rw e (record {
                  inv = v;
                  limits = (refl, refl, refl);
                  sub_entries = λ k r h. h;
                  sub_counts = λ k r h. h;
                  room = omega arith;
                })
                | inr (c', e, ev) ↦ rw e (
                    let r = shrink-Shrinks fuel size c' ev.inv (omega (arith, ev.less)) in
                    let (m, t, n) = ev.limits in
                    let (m', t', n') = r.limits in
                    record {
                      inv = r.inv;
                      limits = (m' ∙ m, t' ∙ t, n' ∙ n);
                      sub_entries = λ k x q. ev.sub_entries k x (r.sub_entries k x q);
                      sub_counts = λ k x q. ev.sub_counts k x (r.sub_counts k x q);
                      room = omega (arith, r.room, m);
                    })
              ])
      ]

  -- What `make_room` leaves of a store with room for `size`.
  pub record MakesRoom (size : ℕ) (c : LocationCache) (r : Bool × LocationCache) : Type 0 where
    pub granted : r.0 ≡ true
    pub inv : Inv r.1
    pub limits : SameLimits c r.1
    pub sub_entries : IsSub c.entries r.1.entries
    pub sub_counts : IsSub c.request_counts r.1.request_counts
    pub room : r.1.current_size + size ≤ r.1.max_size

  -- For any order in which the hash maps give their keys: for a size within the limit of a store of
  -- exact accounts, `make_room` grants the room, keeps the accounts exact and the limits, adds
  -- nothing, and leaves room for the size.
  pub make_room-MakesRoom :
      (size : ℕ) (c : LocationCache)
      → Inv c
      → size ≤ c.max_size
      → MakesRoom size c (make_room next_key size c)
  unfolding make_room
  make_room-MakesRoom size c v h =
      let r = shrink-Shrinks (held c) size c v (omega arith) in
      let (m, t, n) = r.limits in
      elim (Bool-cases (ltb c.max_size size)) [
        | inl over ↦ absurd (omega (arith, ltb→lt c.max_size size over))
        | inr fit ↦ rw fit (record {
          granted = refl;
          inv = r.inv;
          limits = (m, t, n);
          sub_entries = r.sub_entries;
          sub_counts = r.sub_counts;
          room = omega (arith, r.room, m);
        })
      ]

  pub make_room-refused :
      (size : ℕ) (c : LocationCache) → c.max_size < size → make_room next_key size c ≡ (false, c)
  unfolding make_room
  make_room-refused size c h = ground arith
