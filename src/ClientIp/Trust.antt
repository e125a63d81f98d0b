-- ===== src/ClientIp/Trust.antt =====
-- Which addresses of a forwarded chain are believed.
use mathlib.Core.List.{reverse-append}
use ngxora.Base.{
  eq_ignore_ascii_case, ◌≡◌, refl, ap, ◌∙◌, Bool, true, false, List, [], ◌∷◌, ◌++◌, reverse, Option,
  none, some, ◌⊎◌, inl, inr, Text, codes, All, Bool-cases, Option-cases,
}
use ngxora.Net.{IpAddr}
use ngxora.ClientIp.{last, trim, parse_chain, is_trusted, walk, resolve_chain, resolve_headers}

-- What the walk from a hop over those behind it gives: trusted proxies, then the client, who is
-- not trusted or is the last.
record IsWalk (trusted : IpAddr → Bool) (hops walked : List IpAddr) : Type 0 where
  proxies : List IpAddr
  client : IpAddr
  dropped : List IpAddr
  gives : walked ≡ proxies ++ (client ∷ [])
  splits : hops ≡ proxies ++ (client ∷ dropped)
  trusts : All (λ ip. trusted ip ≡ true) proxies
  stops : (dropped ≡ []) ⊎ (trusted client ≡ false)

walk-IsWalk :
    (trusted : IpAddr → Bool) (current : IpAddr) (left : List IpAddr)
    → IsWalk trusted (current ∷ left) (walk trusted current left)
unfolding walk
walk-IsWalk trusted current [] = record {
  proxies = [];
  client = current;
  dropped = [];
  gives = refl;
  splits = refl;
  trusts = tt;
  stops = inl refl;
}
walk-IsWalk trusted current (next ∷ left) = elim (Bool-cases (trusted current)) [
  | inl q ↦
      let w = walk-IsWalk trusted next left in
      rw q (record {
        proxies = current ∷ w.proxies;
        client = w.client;
        dropped = w.dropped;
        gives = ap (λ ips. current ∷ ips) w.gives;
        splits = ap (λ ips. current ∷ ips) w.splits;
        trusts = (q, w.trusts);
        stops = w.stops;
      })
  | inr q ↦ rw q (record {
    proxies = [];
    client = current;
    dropped = next ∷ left;
    gives = refl;
    splits = refl;
    trusts = tt;
    stops = inr q;
  })
]

reverse_walk :
    (proxies : List IpAddr) (client : IpAddr)
    → reverse (proxies ++ (client ∷ [])) ≡ client ∷ reverse proxies
reverse_walk proxies client = reverse-append proxies (client ∷ [])

-- The chain ends with the peer.
walk-peer :
    (trusted : IpAddr → Bool) (peer : IpAddr) (left : List IpAddr)
    → (front : List IpAddr) × (reverse (walk trusted peer left) ≡ front ++ (peer ∷ []))
unfolding walk
walk-peer trusted peer [] = ([], refl)
walk-peer trusted peer (next ∷ left) = elim (Bool-cases (trusted peer)) [
  | inl q ↦
      (reverse (walk trusted next left), rw q (reverse-append (peer ∷ []) (walk trusted next left)))
  | inr q ↦ ([], rw q)
]

module _ (parse : Text → Option IpAddr) where
  -- Where the forwarded addresses parse: from the peer backwards, the chain that is believed is that
  -- of the trusted proxies and the first address that is not trusted, or the last one there is, given
  -- with the client first.
  pub resolve_chain_lem :
      (peer : IpAddr) (raw : Text) (trusted_proxies : List (IpAddr → Bool))
      (forwarded : List IpAddr)
      → parse_chain parse raw ≡ some forwarded
      → (proxies : List IpAddr) × (client : IpAddr) × (dropped : List IpAddr) × (resolve_chain parse
            (some peer)
            (some raw)
            trusted_proxies
          ≡ some (client ∷ reverse proxies))
        × (peer ∷ reverse forwarded ≡ proxies ++ (client ∷ dropped))
        × All (λ ip. is_trusted trusted_proxies ip ≡ true) proxies
        × ((dropped ≡ []) ⊎ (is_trusted trusted_proxies client ≡ false))
  unfolding resolve_chain
  resolve_chain_lem peer raw ts forwarded h = elim (Bool-cases (is_trusted ts peer)) [
    | inl q ↦
        let w = walk-IsWalk (is_trusted ts) peer (reverse forwarded) in
        (
          w.proxies,
          w.client,
          w.dropped,
          rw (q, h) (ap some (ap reverse w.gives ∙ reverse_walk w.proxies w.client)),
          w.splits,
          w.trusts,
          w.stops,
        )
    | inr q ↦ ([], peer, reverse forwarded, rw q, refl, tt, inr q)
  ]

  -- Of whatever header values: there is a chain, it ends with the peer, and it is the peer alone if
  -- the peer is not trusted.
  pub resolve_headers-peer :
      (peer : IpAddr) (values : List (Option Text)) (header : Text)
      (trusted_proxies : List (IpAddr → Bool)) (recursive : Bool)
      → (front : List IpAddr) × (resolve_headers parse
            (some peer)
            values
            header
            trusted_proxies
            recursive
          ≡ some (front ++ (peer ∷ [])))
        × ((front ≡ []) ⊎ (is_trusted trusted_proxies peer ≡ true))
  unfolding resolve_headers resolve_chain
  resolve_headers-peer peer [] header ts r = ([], refl, inl refl)
  resolve_headers-peer peer (none ∷ vs) header ts r = ([], refl, inl refl)
  resolve_headers-peer peer (some raw ∷ v ∷ vs) header ts r = ([], refl, inl refl)
  resolve_headers-peer peer (some raw ∷ []) header ts r = elim (Bool-cases (is_trusted ts peer)) [
    | inr q ↦ ([], rw q, inl refl)
    | inl q ↦ elim (Bool-cases (eq_ignore_ascii_case header (codes "x-real-ip"))) [
      | inl x ↦ elim (Option-cases (parse (trim raw))) [
        | inl e ↦ ([], rw (q, x, e), inl refl)
        | inr (ip, e) ↦ (ip ∷ [], rw (q, x, e), inr q)
      ]
      | inr x ↦ elim (Option-cases (parse_chain parse raw)) [
        | inl e ↦ elim (Bool-cases r) [
          | inl b ↦ ([], rw (q, x, b, e), inl refl)
          | inr b ↦ ([], rw (q, x, b, e), inl refl)
        ]
        | inr (ips, e) ↦ elim (Bool-cases r) [
          | inl b ↦
              let (front, w) = walk-peer (is_trusted ts) peer (reverse ips) in
              (front, rw (q, x, b, e) (ap some w), inr q)
          | inr b ↦ elim (Option-cases (last ips)) [
            | inl n ↦ ([], rw (q, x, b, e, n), inl refl)
            | inr (ip, n) ↦ (ip ∷ [], rw (q, x, b, e, n), inr q)
          ]
        ]
      ]
    ]
  ]
