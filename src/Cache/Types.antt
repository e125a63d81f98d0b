-- ===== src/Cache/Types.antt =====
-- The keys and values of the cache, with their estimated sizes. Texts are byte strings.
use ngxora.Base.{
  ℕ, ◌≡◌, ◌↔◌, arith, Bool, true, ◌&&◌, ◌==◌, List, [], ◌∷◌, ◌++◌, Option, Text, text_eq,
  text_eq_iff, length, Eq, codes, to_ascii_lowercase,
}
use ngxora.Machine.{saturating_add}

pub record CacheKey : Type 0 where
  pub generation : ℕ
  pub route_id : ℕ
  pub host : Text
  pub method : Text
  pub uri : Text

abbrev pub key_eq : CacheKey → CacheKey → Bool
key_eq a b =
    a.generation == b.generation
    && (a.route_id == b.route_id
        && (text_eq a.host b.host && (text_eq a.method b.method && text_eq a.uri b.uri)))

pub key_eq_iff : (a b : CacheKey) → (key_eq a b ≡ true) ↔ (a ≡ b)
key_eq_iff a b =
    ground
      (arith, text_eq_iff a.host b.host, text_eq_iff a.method b.method, text_eq_iff a.uri b.uri)

instance abbrev pub cache_key_eq : Eq CacheKey
cache_key_eq = record { same = key_eq; same_iff = key_eq_iff }

abbrev pub Headers : Type 0
Headers = List (Text × Text)

pub record CachedResponse : Type 0 where
  pub status : ℕ
  pub headers : Headers
  pub body : Text
  pub created_at : ℕ

pub data CacheKeyMode : Type 0 where
  uri uri_and_method normalized_uri : CacheKeyMode

-- `CacheConfig` of crates/ngxora-compile/src/ir.rs
pub record CacheConfig : Type 0 where
  pub enabled : Bool
  pub max_size : Option ℕ
  pub ttl : Option ℕ
  pub stale_if_error : Option ℕ
  pub cache_key : CacheKeyMode
  pub min_uses : Option ℕ
  pub valid_statuses : List ℕ

pub record MissCount : Type 0 where
  pub count : ℕ
  pub last_seen : ℕ

-- The fold of `estimated_headers_size`, from the size so far.
headers_size_from : ℕ → Headers → ℕ
headers_size_from size [] = size
headers_size_from size ((name, value) ∷ hs) =
    headers_size_from (saturating_add (saturating_add size (length name)) (length value)) hs

pub estimated_headers_size : Headers → ℕ
unfolding headers_size_from
estimated_headers_size = headers_size_from 0

unfoldable pub response_size : CachedResponse → ℕ
unfolding estimated_headers_size
response_size r =
    saturating_add (saturating_add (length r.body) (estimated_headers_size r.headers)) 128

unfoldable pub key_size : CacheKey → ℕ
key_size k =
    saturating_add
      (saturating_add (saturating_add (length k.host) (length k.method)) (length k.uri)) 128

-- `key.estimated_size().saturating_add(value.estimated_size())`
unfoldable pub entry_size : CacheKey → CachedResponse → ℕ
unfolding key_size response_size
entry_size k r = saturating_add (key_size k) (response_size r)

-- `key.estimated_size().saturating_add(64)`
unfoldable pub count_size : CacheKey → ℕ
unfolding key_size
count_size k = saturating_add (key_size k) 64

-- `build_cache_key`
unfoldable pub build_cache_key : Text → Text → ℕ → ℕ → Text → CacheConfig → CacheKey
build_cache_key method uri' generation route_id host cfg = record {
  generation = generation;
  route_id = route_id;
  host = to_ascii_lowercase host;
  method = method;
  uri = elim cfg.cache_key [ uri_and_method ↦ method ++ codes " " ++ uri' | _ ↦ uri' ];
}
