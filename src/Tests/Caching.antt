-- ===== src/Tests/Caching.antt =====
-- Runs of the response cache.
use ngxora.Base.{
  codes, ◌≤◌, ◌<◌, ◌≡◌, refl, ◌∙◌, subst, arith, true, List, [], ◌∷◌, Option, none, some, leb,
  if◌then◌else◌, lookup, total, Holds, here,
}
use ngxora.Machine.{from_secs, elapsed}
use ngxora.Cache.Types.{
  CacheKey, CachedResponse, CacheConfig, uri, cache_key_eq, entry_size, key_size, response_size,
}
use ngxora.Cache.Location.{LocationCache, ttl_of}
use ngxora.Cache.Location
use ngxora.Cache.Location.Accounting.{IsOrder, MakesRoom, make_room-MakesRoom}
use ngxora.Cache.Location.Updates.{IsGood}
use ngxora.Cache.Location.Writes.{record_miss-IsGood}
use ngxora.Cache.Backend.{
  CacheBackend, new, get, put, evict_stale_all, store_or_create, advance_generation, max_size,
  younger_than,
}
use ngxora.Cache.Backend.Invariant.{
  BackendInv, Reach, start, next, store_response, sweep, Reach-new,
}
use ngxora.Cache.Backend.Retirement.{IsRetired, advance_generation-IsRetired}
use ngxora.Cache.Backend.Reads.{get-put}
use ngxora.Cache.Backend.Provenance.{LastPut, get-LastPut}

-- The map gives its first key first.
abbrev first : List CacheKey → Option CacheKey
first [] = none
first (k ∷ ks) = some k

first-IsOrder : IsOrder first
first-IsOrder = record { listed = listed; exhausted = exhausted }
  where
    listed : (ks : List CacheKey) (k : CacheKey) → first ks ≡ some k → Holds k ks
    listed [] k h = cc
    listed (x ∷ ks) k h = let e : x ≡ k = cc in subst (λ y. Holds y (x ∷ ks)) e here

    exhausted : (ks : List CacheKey) → first ks ≡ none → ks ≡ []
    exhausted [] h = refl
    exhausted (x ∷ ks) h = cc

abbrev page : CacheKey
page = record {
  generation = 1;
  route_id = 7;
  host = codes "h";
  method = codes "GET";
  uri = codes "/a";
}

abbrev other_page : CacheKey
other_page = record page { route_id = 8 }

abbrev answer : CachedResponse
answer = record { status = 200; headers = []; body = codes "hi"; created_at = 0 }

abbrev settings : CacheConfig
settings = record {
  enabled = true;
  max_size = none;
  ttl = some (from_secs 10);
  stale_if_error = some (from_secs 5);
  cache_key = uri;
  min_uses = some 2;
  valid_statuses = 200 ∷ [];
}

abbrev empty : CacheBackend
empty = record { generation = 0; locations = []; default_max_size = 1000 }

empty-BackendInv : BackendInv empty
empty-BackendInv = record { default_fits = omega arith; locations_sound = tt }

abbrev filled : CacheBackend
filled = put first page answer settings 0 empty

get-put_example : get page settings 1 filled ≡ (
    if leb (entry_size page answer) (max_size settings empty)
    then younger_than (ttl_of settings) 1 answer
    else none)
get-put_example =
    get-put first first-IsOrder page answer settings 0 1 empty empty-BackendInv tt refl
      (omega arith)

-- The page is stored again after a sweep.
abbrev newer : CachedResponse
newer = record answer { body = codes "ho"; created_at = 1 }

abbrev stored : CacheBackend
stored =
    put first page newer settings 1
      (evict_stale_all 1 (put first page answer settings 0 (new 1000)))

stored_calls : Reach first first-IsOrder (new 1000) stored
stored_calls =
    next (next (next start (store_response page answer settings 0 tt)) (sweep 1))
      (store_response page newer settings 1 tt)

stored-BackendInv : BackendInv (evict_stale_all 1 (put first page answer settings 0 (new 1000)))
stored-BackendInv =
    Reach-new first first-IsOrder 1000 (omega arith)
      (next (next start (store_response page answer settings 0 tt)) (sweep 1))

stored_generation :
    (evict_stale_all 1 (put first page answer settings 0 (new 1000))).generation ≤ page.generation
unfolding evict_stale_all put store_or_create new lookup
stored_generation = omega arith

stored_hit : get page settings 2 stored ≡ some newer
unfolding max_size entry_size key_size response_size evict_stale_all put store_or_create new lookup
stored_hit =
    get-put first first-IsOrder page newer settings 1 2
      (evict_stale_all 1 (put first page answer settings 0 (new 1000))) stored-BackendInv tt refl
      stored_generation
    ∙ refl

get-LastPut_example :
    LastPut first first-IsOrder page newer stored_calls
    × (elapsed 2 newer.created_at < ttl_of settings)
get-LastPut_example =
    get-LastPut first first-IsOrder 1000 page newer settings 2 stored (omega arith) stored_calls
      stored_hit

Reach-new_example : BackendInv (put first page answer settings 0 (new 1000))
Reach-new_example =
    Reach-new first first-IsOrder 1000 (omega arith)
      (next start (store_response page answer settings 0 tt))

advance_generation-IsRetired_example :
    IsRetired first page (put first other_page answer settings 3 (advance_generation 2 filled))
advance_generation-IsRetired_example =
    advance_generation-IsRetired first first-IsOrder 2 page filled (omega arith)
      (next start (store_response other_page answer settings 3 tt))

abbrev store : LocationCache
store = record {
  ttl = from_secs 10;
  retention = from_secs 15;
  max_size = 1000;
  current_size = 0;
  entries = [];
  request_counts = [];
  last_sweep = 0;
}

store-IsGood : IsGood store
unfolding total
store-IsGood = record {
  inv = record { exact = refl; fits = omega arith; unique_entries = tt; unique_counts = tt };
  bounded = omega arith;
}

make_room-MakesRoom_example :
    MakesRoom first first-IsOrder 500 store (Location.make_room first 500 store)
make_room-MakesRoom_example =
    make_room-MakesRoom first first-IsOrder 500 store store-IsGood.inv (omega arith)

record_miss-IsGood_example :
    IsGood (Location.record_miss first page 2 1 store).1
    × ((Location.record_miss first page 2 1 store).1.max_size ≡ store.max_size)
record_miss-IsGood_example =
    record_miss-IsGood first first-IsOrder page 2 1 store store-IsGood (omega arith)
