-- ===== src/RateLimit.antt =====
-- crates/extensions/rate-limit/src/lib.rs. `current_window`, the seconds since the start, is an
-- argument of each call; a call takes its locks and drops them within one step.
pub mod Quota
use ngxora.Base.{
  ℕ, ◌+◌, ◌-◌, ◌%◌, ◌^◌, Bool, true, false, List, [], ◌∷◌, Option, none, some, leb, ltb, ◌==◌,
  if◌then◌else◌, lookup, insert, retain, Text, codes, to_string, min,
}
use ngxora.Machine.{u32_max, wrapping_add}
use ngxora.Net.{IpAddr, ip_has_eq}

abbrev bucket_ttl_secs : ℕ
bucket_ttl_secs = 120

abbrev sweep_interval_requests : ℕ
sweep_interval_requests = 1024

pub record Bucket : Type 0 where
  pub window : ℕ
  pub count : ℕ
  pub last_seen : ℕ

abbrev pub new_bucket : ℕ → Bucket
new_bucket window = record { window = window; count = 0; last_seen = window }

pub record RateLimitPlugin : Type 0 where
  pub max_requests_per_second : ℕ
  pub buckets : List (IpAddr × Bucket)
  pub requests_since_sweep : ℕ

abbrev pub is_recent : ℕ → IpAddr → Bucket → Bool
is_recent window _ bucket = leb (window - bucket_ttl_secs) bucket.last_seen

unfoldable pub maybe_sweep : ℕ → RateLimitPlugin → RateLimitPlugin
maybe_sweep current_window p =
    let requests = wrapping_add p.requests_since_sweep 1 in
    let counted = record p { requests_since_sweep = requests } in
    if requests % sweep_interval_requests == 0
    then record counted { buckets = retain (is_recent current_window) p.buckets }
    else counted

-- The bucket that `entry(client_ip).or_insert_with(...)` gives, restarted in a new window.
abbrev pub entry : ℕ → Option Bucket → Bucket
entry window none = new_bucket window
entry window (some bucket) = if bucket.window == window then bucket else new_bucket window

-- The bucket after one more request; `count` is a `u32`.
abbrev pub touched : ℕ → Option Bucket → Bucket
touched window found = record (entry window found) {
  last_seen = window;
  count = min ((entry window found).count + 1) u32_max;
}

unfoldable pub allow_request : IpAddr → ℕ → RateLimitPlugin → Bool × RateLimitPlugin
allow_request ip current_window p =
    let bucket = touched current_window (lookup ip p.buckets) in
    let p' = record p { buckets = insert ip bucket p.buckets } in
    (leb bucket.count p.max_requests_per_second, maybe_sweep current_window p')

pub record LocalResponse : Type 0 where
  pub status : ℕ
  pub body : Text
  pub headers : List (Text × Text)

pub data PluginFlow : Type 0 where
  continue_ : PluginFlow
  respond : LocalResponse → PluginFlow

unfoldable pub rate_limited_response : RateLimitPlugin → PluginFlow
rate_limited_response p = respond (record {
  status = 429;
  body = codes "Too Many Requests";
  headers =
      (codes "content-type", codes "text/plain; charset=utf-8")
      ∷ (codes "retry-after", codes "1")
      ∷ (codes "x-ratelimit-limit", to_string p.max_requests_per_second)
      ∷ (codes "x-ratelimit-remaining", codes "0")
      ∷ [];
})

unfoldable pub on_request : Option IpAddr → ℕ → RateLimitPlugin → PluginFlow × RateLimitPlugin
on_request none current_window p = (continue_, p)
on_request (some ip) current_window p =
    let (allowed, p') = allow_request ip current_window p in
    (if allowed then continue_ else rate_limited_response p', p')
