-- ===== src/Cache/Location/Updates.antt =====
-- What the steps of a location's writes, its sweeps and its inserts keep of its accounts.
use ngxora.Base.{
  ℕ, ◌+◌, ◌^◌, ◌≤◌, ◌<◌, ◌≡◌, inl, inr, refl, ◌∙◌, arith, Bool, List, [], ◌∷◌, none, leb, lookup,
  insert, retain, total, Bool-cases, Option-cases, total-remove, insert-Unique, retain-Unique,
  lookup-remove_self, total-insert,
}
use ngxora.Machine.{wrapping_add, wrapping_sub, u64_max, from_secs, elapsed}
use ngxora.Cache.Types.{
  CacheKey, cache_key_eq, CachedResponse, CacheConfig, MissCount, entry_size, count_size,
}
use ngxora.Cache.Location.{
  LocationCache, remove_response, remove_count, sub_dropped, entry_kept, count_kept, evict_stale,
  set_limits, sweep_if_due,
}
use ngxora.Cache.Location.Accounting.{
  Inv, counter_size, SameLimits, remove_response-Inv, remove_count-Inv,
}

module _ {ℓ} {V : Type ℓ} (kept : CacheKey → V → Bool) (size : CacheKey → V → ℕ) where
  total-retain_le : (m : List (CacheKey × V)) → total size (retain kept m) ≤ total size m
  unfolding total retain
  total-retain_le [] = omega arith
  total-retain_le ((k, v) ∷ m) = ground (arith, total-retain_le m)

  -- The size falls by the total of what `retain` drops, and no subtraction wraps.
  sub_dropped-total :
      (x : ℕ) (m : List (CacheKey × V))
      → total size m ≤ x
      → x < 2 ^ 64
      → sub_dropped kept size x m + total size m ≡ x + total size (retain kept m)
  unfolding sub_dropped total retain
  sub_dropped-total x [] h s = omega arith
  sub_dropped-total x ((k, v) ∷ m) h s = elim (Bool-cases (kept k v)) [
    | inl q ↦ rw q (omega (arith, sub_dropped-total x m (omega arith) s))
    | inr q ↦
        rw q (
          omega
            (arith, sub_dropped-total (wrapping_sub x (size k v)) m (omega arith) (omega arith)))
  ]

pub evict_stale-Inv : (now : ℕ) {c : LocationCache} → Inv c → Inv (evict_stale now c)
unfolding evict_stale
evict_stale-Inv now {c} v =
    let mid = sub_dropped (entry_kept now c) entry_size c.current_size c.entries in
    let a =
      sub_dropped-total (entry_kept now c) entry_size c.current_size c.entries
        (omega (arith, v.exact)) v.fits in
    let r = total-retain_le (entry_kept now c) entry_size c.entries in
    let b =
      sub_dropped-total (count_kept now c) counter_size mid c.request_counts
        (omega (arith, v.exact)) (omega (arith, v.fits)) in
    let r' = total-retain_le (count_kept now c) counter_size c.request_counts in
    record {
      exact = omega (arith, v.exact);
      fits = omega (arith, v.fits);
      unique_entries = retain-Unique (entry_kept now c) c.entries v.unique_entries;
      unique_counts = retain-Unique (count_kept now c) c.request_counts v.unique_counts;
    }

pub set_limits-Inv :
    (cfg : CacheConfig) (max_size : ℕ) {c : LocationCache} → Inv c → Inv (set_limits cfg max_size c)
unfolding set_limits
set_limits-Inv cfg max_size v = record {
  exact = v.exact;
  fits = v.fits;
  unique_entries = v.unique_entries;
  unique_counts = v.unique_counts;
}

pub sweep_if_due-Inv : (now : ℕ) {c : LocationCache} → Inv c → Inv (sweep_if_due now c)
unfolding sweep_if_due
sweep_if_due-Inv now {c} v = elim (Bool-cases (leb (from_secs 1) (elapsed now c.last_sweep))) [
  | inl q ↦ rw q (evict_stale-Inv now v)
  | inr q ↦ rw q v
]

-- A sweep leaves the limits alone.
pub sweep_if_due-limits : (now : ℕ) (c : LocationCache) → SameLimits c (sweep_if_due now c)
unfolding sweep_if_due evict_stale
sweep_if_due-limits now c = elim (Bool-cases (leb (from_secs 1) (elapsed now c.last_sweep))) [
  | inl q ↦ rw q (refl, refl, refl)
  | inr q ↦ rw q (refl, refl, refl)
]

-- The state between calls: exact accounts, and no more than the limit.
pub record IsGood (c : LocationCache) : Type 0 where
  pub inv : Inv c
  pub bounded : c.current_size ≤ c.max_size

-- A store with room for a new response, once it is inserted.
pub insert_entry-Inv :
    (key : CacheKey) (r : CachedResponse) (c : LocationCache)
    → Inv c
    → lookup key c.entries ≡ none
    → c.current_size + entry_size key r ≤ u64_max
    → Inv (record c {
      current_size = wrapping_add c.current_size (entry_size key r);
      entries = insert key r c.entries;
    })
insert_entry-Inv key r c v n h = record {
  exact = omega (arith, v.exact, total-insert entry_size key r c.entries n);
  fits = omega arith;
  unique_entries = insert-Unique key r c.entries v.unique_entries;
  unique_counts = v.unique_counts;
}

pub insert_count-Inv :
    (key : CacheKey) (r : MissCount) (c : LocationCache)
    → Inv c
    → lookup key c.request_counts ≡ none
    → c.current_size + count_size key ≤ u64_max
    → Inv (record c {
      current_size = wrapping_add c.current_size (count_size key);
      request_counts = insert key r c.request_counts;
    })
insert_count-Inv key r c v n h = record {
  exact = omega (arith, v.exact, total-insert counter_size key r c.request_counts n);
  fits = omega arith;
  unique_entries = v.unique_entries;
  unique_counts = insert-Unique key r c.request_counts v.unique_counts;
}

pub remove_response-cleared :
    (key : CacheKey) {c : LocationCache}
    → Inv c
    → (lookup key (remove_response key c).entries ≡ none)
      × ((remove_response key c).max_size ≡ c.max_size)
      × ((remove_response key c).current_size ≤ c.current_size)
unfolding remove_response
remove_response-cleared key {c} v = elim (Option-cases (lookup key c.entries)) [
  | inl e ↦ rw (e, remove_response) (e, refl, omega arith)
  | inr (r, e) ↦
      let t = total-remove entry_size key r c.entries v.unique_entries e in
      rw (e, remove_response)
        (lookup-remove_self key c.entries, refl, omega (arith, v.exact, v.fits))
]

pub remove_count-cleared :
    (key : CacheKey) {c : LocationCache}
    → Inv c
    → ((remove_count key c).max_size ≡ c.max_size)
      × ((remove_count key c).current_size ≤ c.current_size)
unfolding remove_count
remove_count-cleared key {c} v = elim (Option-cases (lookup key c.request_counts)) [
  | inl e ↦ rw (e, remove_count) (refl, omega arith)
  | inr (r, e) ↦
      let t = total-remove counter_size key r c.request_counts v.unique_counts e in
      rw (e, remove_count) (refl, omega (arith, v.exact, v.fits))
]

-- The store in which `put` makes room is good, and without the key.
pub record IsCleared (key : CacheKey) (c c' : LocationCache) : Type 0 where
  pub good : IsGood c'
  pub absent : lookup key c'.entries ≡ none
  pub max_size_is : c'.max_size ≡ c.max_size

pub clear-IsCleared :
    (key : CacheKey) {c : LocationCache}
    → IsGood c
    → IsCleared key c (remove_response key (remove_count key c))
clear-IsCleared key {c} g =
    let v = remove_count-Inv key g.inv in
    let (m, l) = remove_count-cleared key g.inv in
    let (n, m', l') = remove_response-cleared key v in
    record {
      good = record { inv = remove_response-Inv key v; bounded = omega (arith, g.bounded) };
      absent = n;
      max_size_is = m' ∙ m;
    }

pub evict_stale-IsGood :
    (now : ℕ) {c : LocationCache}
    → IsGood c
    → IsGood (evict_stale now c) × ((evict_stale now c).max_size ≡ c.max_size)
unfolding evict_stale
evict_stale-IsGood now {c} g =
    let v = evict_stale-Inv now g.inv in
    let r = total-retain_le (entry_kept now c) entry_size c.entries in
    let r' = total-retain_le (count_kept now c) counter_size c.request_counts in
    (record { inv = v; bounded = omega (arith, v.exact, g.inv.exact, g.bounded) }, refl)
