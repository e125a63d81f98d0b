-- ===== src/RateLimit/Quota.antt =====
-- In every window every client gets exactly its quota, whatever the other clients do.
use ngxora.Base.{
  ℕ, ◌+◌, ◌-◌, ◌%◌, ◌≤◌, ◌<◌, ◌≡◌, refl, sym, ◌∙◌, arith, Bool, true, false, ◌&&◌, List, [], ◌∷◌,
  Option, none, some, leb, ◌==◌, if◌then◌else◌, lookup, insert, min, Unique, insert-Unique,
  retain-Unique, retain-IsSub, lookup-retain, lookup-retain-none, lookup-insert_cases,
  lookup-insert, lookup-insert_self, Bool-cases, Option-cases, inl, inr, ltb, ltb→le, ltb→lt,
}
use ngxora.Machine.{u32_max, wrapping_add}
use ngxora.Net.{IpAddr, ip_eq, ip_eq_iff, ip_has_eq}
use ngxora.RateLimit.{Bucket, RateLimitPlugin, is_recent, maybe_sweep, touched, allow_request}

-- Buckets are no younger than the present window, and were last seen in their own.
pub record Inv (now : ℕ) (p : RateLimitPlugin) : Type 0 where
  pub unique : Unique p.buckets
  pub past : (ip : IpAddr) (b : Bucket) → lookup ip p.buckets ≡ some b → b.window ≤ now
  pub seen : (ip : IpAddr) (b : Bucket) → lookup ip p.buckets ≡ some b → b.last_seen ≡ b.window

-- The requests of a client that a state has counted in a window.
abbrev pub used_in : ℕ → Option Bucket → ℕ
used_in w none = 0
used_in w (some b) = if b.window == w then b.count else 0

abbrev pub used : ℕ → IpAddr → RateLimitPlugin → ℕ
used w ip p = used_in w (lookup ip p.buckets)

-- The buckets once a request has been counted, before the sweep.
abbrev counted : IpAddr → ℕ → RateLimitPlugin → RateLimitPlugin
counted ip now p = record p { buckets = insert ip (touched now (lookup ip p.buckets)) p.buckets }

touched-window :
    (now : ℕ) (found : Option Bucket)
    → ((touched now found).window ≡ now)
      × ((touched now found).count ≡ min (used_in now found + 1) u32_max)
touched-window now none = (refl, refl)
touched-window now (some b) = elim (Bool-cases (b.window == now)) [
  | inl q ↦ rw q (ground arith, refl)
  | inr q ↦ rw q (refl, refl)
]

counted-Inv :
    (ip : IpAddr) (now later : ℕ) (p : RateLimitPlugin)
    → now ≤ later
    → Inv now p
    → Inv later (counted ip later p)
counted-Inv ip now later p l v = record {
  unique = insert-Unique ip (touched later (lookup ip p.buckets)) p.buckets v.unique;
  past = λ j b h.
      elim (lookup-insert_cases j ip (touched later (lookup ip p.buckets)) b p.buckets h) [
        | inl (_, e) ↦ rw e (omega (arith, (touched-window later (lookup ip p.buckets)).0))
        | inr (_, e) ↦ omega (arith, v.past j b e)
      ];
  seen = λ j b h.
      elim (lookup-insert_cases j ip (touched later (lookup ip p.buckets)) b p.buckets h) [
        | inl (_, e) ↦ rw e (sym (touched-window later (lookup ip p.buckets)).0)
        | inr (_, e) ↦ v.seen j b e
      ];
}

maybe_sweep-Inv : (now : ℕ) (p : RateLimitPlugin) → Inv now p → Inv now (maybe_sweep now p)
unfolding maybe_sweep
maybe_sweep-Inv now p v = elim (Bool-cases (wrapping_add p.requests_since_sweep 1 % 1024 == 0)) [
  | inr q ↦ rw q (record { unique = v.unique; past = v.past; seen = v.seen })
  | inl q ↦ rw q (record {
    unique = retain-Unique (is_recent now) p.buckets v.unique;
    past = λ ip b h. v.past ip b (retain-IsSub (is_recent now) p.buckets v.unique ip b h);
    seen = λ ip b h. v.seen ip b (retain-IsSub (is_recent now) p.buckets v.unique ip b h);
  })
]

used_in-recent :
    (w now : ℕ) (b : Bucket) (ip : IpAddr)
    → (b.last_seen ≡ b.window) × (b.window ≤ now) × (now ≤ w)
    → used_in w (if is_recent now ip b then some b else none) ≡ used_in w (some b)
used_in-recent w now b ip h = ground arith

-- A sweep forgets nothing of the present window or later.
used-maybe_sweep :
    (w now : ℕ) (ip : IpAddr) (p : RateLimitPlugin)
    → now ≤ w
    → Inv now p
    → used w ip (maybe_sweep now p) ≡ used w ip p
unfolding maybe_sweep
used-maybe_sweep w now ip p l v =
    elim (Bool-cases (wrapping_add p.requests_since_sweep 1 % 1024 == 0)) [
      | inr q ↦ rw q
      | inl q ↦ rw q (elim (Option-cases (lookup ip p.buckets)) [
        | inl e ↦ rw (e, lookup-retain-none (is_recent now) ip p.buckets e)
        | inr (b, e) ↦
            rw (e, lookup-retain (is_recent now) ip p.buckets v.unique b e)
              (used_in-recent w now b ip (omega (arith, v.past ip b e, v.seen ip b e)))
      ])
    ]

used-counted_self :
    (ip : IpAddr) (now : ℕ) (p : RateLimitPlugin)
    → used now ip (counted ip now p) ≡ min (used now ip p + 1) u32_max
used-counted_self ip now p =
    let (w, c) = touched-window now (lookup ip p.buckets) in
    rw (lookup-insert_self ip (touched now (lookup ip p.buckets)) p.buckets) (ground (arith, w, c))

-- Another client's count, or this client's in another window, is left alone.
used-counted_other :
    (w : ℕ) (ip other : IpAddr) (now : ℕ) (p : RateLimitPlugin)
    → ip_eq ip other ≡ false
    → used w other (counted ip now p) ≡ used w other p
used-counted_other w ip other now p h =
    rw (lookup-insert other ip (touched now (lookup ip p.buckets)) p.buckets, h)

-- The windows to come are untouched.
used_later : (w now : ℕ) (ip : IpAddr) (p : RateLimitPlugin) → now < w → Inv now p → used w ip p ≡ 0
used_later w now ip p l v = elim (Option-cases (lookup ip p.buckets)) [
  | inl e ↦ rw e
  | inr (b, e) ↦ rw e (let h = v.past ip b e in ground arith)
]

-- One request: its verdict, and what it uses up.
allow_request-Inv :
    (ip : IpAddr) (now later : ℕ) (p : RateLimitPlugin)
    → now ≤ later
    → Inv now p
    → Inv later (allow_request ip later p).1
unfolding allow_request
allow_request-Inv ip now later p l v =
    maybe_sweep-Inv later (counted ip later p) (counted-Inv ip now later p l v)

allow_request-verdict :
    (ip : IpAddr) (now : ℕ) (p : RateLimitPlugin)
    → (allow_request ip now p).0 ≡ leb (min (used now ip p + 1) u32_max) p.max_requests_per_second
unfolding allow_request
allow_request-verdict ip now p = rw (touched-window now (lookup ip p.buckets)).1

used-counted :
    (w : ℕ) (a ip : IpAddr) (now later : ℕ) (p : RateLimitPlugin)
    → now ≤ later
    → later ≤ w
    → Inv now p
    → used w a (counted ip later p)
      ≡ (if ip_eq ip a && later == w then min (used w a p + 1) u32_max else used w a p)
used-counted w a ip now later p l m v = elim (Bool-cases (ip_eq ip a)) [
  | inr q ↦ rw (used-counted_other w ip a later p q, q)
  | inl q ↦
      let same : ip ≡ a = (ip_eq_iff ip a).0 q in
      elim (Bool-cases (later == w)) [
        | inl t ↦
            let at : later ≡ w = ground arith in
            rw (q, t) (rw (← same) (rw (← at) (used-counted_self ip later p)))
        | inr t ↦
            let gone = used_later w now a p (ground arith) v in
            rw (q, t, gone)
              (rw (← same) (
                rw (lookup-insert_self ip (touched later (lookup ip p.buckets)) p.buckets)
                  (let e = (touched-window later (lookup ip p.buckets)).0 in rw (e, t))))
      ]
]

used-allow_request :
    (w : ℕ) (a ip : IpAddr) (now later : ℕ) (p : RateLimitPlugin)
    → now ≤ later
    → later ≤ w
    → Inv now p
    → used w a (allow_request ip later p).1
      ≡ (if ip_eq ip a && later == w then min (used w a p + 1) u32_max else used w a p)
unfolding allow_request
used-allow_request w a ip now later p l m v =
    used-maybe_sweep w later a (counted ip later p) m (counted-Inv ip now later p l v)
    ∙ used-counted w a ip now later p l m v

-- A schedule of requests: the window and the client of each.
abbrev pub Schedule : Type 0
Schedule = List (ℕ × IpAddr)

-- The clock does not run backwards.
abbrev pub InOrder : ℕ → Schedule → Type 0
InOrder now [] = Unit
InOrder now ((w, ip) ∷ rest) = (now ≤ w) × InOrder w rest

abbrev pub is_of : ℕ → IpAddr → ℕ → IpAddr → Bool
is_of w a later ip = ip_eq ip a && later == w

-- The requests of client `a` in window `w`, and how many of them are allowed.
pub requested : ℕ → IpAddr → Schedule → ℕ
requested w a [] = 0
requested w a ((later, ip) ∷ rest) = (if is_of w a later ip then 1 else 0) + requested w a rest

pub served : ℕ → IpAddr → RateLimitPlugin → Schedule → ℕ
served w a p [] = 0
served w a p ((later, ip) ∷ rest) =
    let (allowed, p') = allow_request ip later p in
    (if is_of w a later ip && allowed then 1 else 0) + served w a p' rest

max-allow_request :
    (ip : IpAddr) (now : ℕ) (p : RateLimitPlugin)
    → (allow_request ip now p).1.max_requests_per_second ≡ p.max_requests_per_second
unfolding allow_request maybe_sweep
max-allow_request ip now p = ground arith

-- No request lies in a window that is over.
requested_over :
    (w : ℕ) (a : IpAddr) (now : ℕ) (rs : Schedule) → w < now → InOrder now rs → requested w a rs ≡ 0
unfolding requested
requested_over w a now [] l o = refl
requested_over w a now ((later, ip) ∷ rest) l (h, o) =
    ground (arith, requested_over w a later rest (omega arith) o)

served-le :
    (w : ℕ) (a : IpAddr) (p : RateLimitPlugin) (rs : Schedule) → served w a p rs ≤ requested w a rs
unfolding served requested
served-le w a p [] = omega arith
served-le w a p ((later, ip) ∷ rest) =
    ground (arith, served-le w a (allow_request ip later p).1 rest)

served_over :
    (w : ℕ) (a : IpAddr) (now k : ℕ) (p : RateLimitPlugin) (rs : Schedule)
    → w < now
    → InOrder now rs
    → served w a p rs ≡ min (requested w a rs) k
served_over w a now k p rs l o = omega (arith, served-le w a p rs, requested_over w a now rs l o)

verdict_of :
    (w : ℕ) (a ip : IpAddr) (later : ℕ) (p : RateLimitPlugin)
    → is_of w a later ip ≡ true
    → (allow_request ip later p).0 ≡ leb (min (used w a p + 1) u32_max) p.max_requests_per_second
verdict_of w a ip later p h =
    let same : ip ≡ a = (ip_eq_iff ip a).0 (ground arith) in
    let at : later ≡ w = ground arith in rw (← same) (rw (← at) (allow_request-verdict ip later p))

-- The first request of a schedule that is not over for `w`, and the rest of it.
served-quota_step :
    (w : ℕ) (a ip : IpAddr) (later : ℕ) (p p' : RateLimitPlugin) (allowed : Bool) (mine : Bool)
    (n k : ℕ)
    → p.max_requests_per_second < u32_max
    → (mine ≡ true → allowed ≡ leb (min (used w a p + 1) u32_max) p.max_requests_per_second)
    → used w a p' ≡ (if mine then min (used w a p + 1) u32_max else used w a p)
    → p'.max_requests_per_second ≡ p.max_requests_per_second
    → n ≡ min k (p'.max_requests_per_second - used w a p')
    → (if mine && allowed then 1 else 0) + n
      ≡ min ((if mine then 1 else 0) + k) (p.max_requests_per_second - used w a p)
served-quota_step w a ip later p p' allowed true n k m f u s h = let e = f refl in ground arith
served-quota_step w a ip later p p' allowed false n k m f u s h = omega arith

served-quota :
    (w : ℕ) (a : IpAddr) (now : ℕ) (p : RateLimitPlugin) (rs : Schedule)
    → p.max_requests_per_second < u32_max
    → Inv now p
    → InOrder now rs
    → now ≤ w
    → served w a p rs ≡ min (requested w a rs) (p.max_requests_per_second - used w a p)
unfolding served requested
served-quota w a now p [] m v o l = omega arith
served-quota w a now p ((later, ip) ∷ rest) m v (h, o) l =
    let p' = (allow_request ip later p).1 in
    elim (Bool-cases (ltb w later)) [
      | inl over ↦
          served_over w a later (p.max_requests_per_second - used w a p) p ((later, ip) ∷ rest)
            (ltb→lt w later over) (omega arith, o)
      | inr open' ↦
          let q = ltb→le w later open' in
          served-quota_step w a ip later p p' (allow_request ip later p).0 (is_of w a later ip)
            (served w a p' rest) (requested w a rest) m (verdict_of w a ip later p)
            (used-allow_request w a ip now later p h q v) (max-allow_request ip later p)
            (served-quota w a later p' rest (omega (arith, max-allow_request ip later p))
              (allow_request-Inv ip now later p h v) o q)
    ]

-- A plugin as the factory builds it.
abbrev pub fresh : ℕ → RateLimitPlugin
fresh max = record { max_requests_per_second = max; buckets = []; requests_since_sweep = 0 }

fresh-Inv : (max : ℕ) → Inv 0 (fresh max)
unfolding lookup
fresh-Inv max = record { unique = tt; past = λ ip b h. (cc); seen = λ ip b h. (cc) }

-- For a limit below `u32::MAX` and requests in the order of their times: of the requests that an
-- address makes in a window, a new plugin lets pass exactly as many as there are, up to the limit,
-- whatever other addresses do and whenever the table is swept.
pub served-fresh :
    (max w : ℕ) (a : IpAddr) (rs : Schedule)
    → max < u32_max
    → InOrder 0 rs
    → served w a (fresh max) rs ≡ min (requested w a rs) max
unfolding lookup
served-fresh max w a rs m o =
    omega (arith, served-quota w a 0 (fresh max) rs m (fresh-Inv max) o (omega arith))
