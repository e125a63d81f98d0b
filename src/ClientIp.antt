-- ===== src/ClientIp.antt =====
-- crates/ngxora-plugin-api/src/client_ip.rs. `parse` of an `IpAddr` from a text is the parameter
-- `parse`, and a network of trusted proxies the test of the addresses that it contains.
pub mod Trust
use mathlib.Core.List.{reverse-append, reverse-reverse}
use ngxora.Base.{
  ℕ, ◌≡◌, refl, sym, ap, ◌∙◌, arith, Bool, true, false, List, [], ◌∷◌, ◌++◌, reverse, map, Option,
  none, some, ◌==◌, if◌then◌else◌, ◌⊎◌, inl, inr, Text, codes, length, any, All, Bool-cases,
  Option-cases, eq_ignore_ascii_case,
}
use ngxora.Config.Lexer.{is_whitespace}
use ngxora.Net.{IpAddr}

-- `str::trim`
unfoldable pub trim_start : Text → Text
trim_start [] = []
trim_start (c ∷ s) = let rest = trim_start s in if is_whitespace c then rest else c ∷ s

abbrev pub trim : Text → Text
trim s = reverse (trim_start (reverse (trim_start s)))

-- `raw.split(',')`
abbrev pub push_char : ℕ → List Text → List Text
push_char c [] = (c ∷ []) ∷ []
push_char c (part ∷ parts) = (c ∷ part) ∷ parts

unfoldable pub split_commas : Text → List Text
split_commas [] = [] ∷ []
split_commas (c ∷ s) =
    let rest = split_commas s in if c == b',' then [] ∷ rest else push_char c rest

-- `chain.last()`
unfoldable pub last : List IpAddr → Option IpAddr
last [] = none
last (ip ∷ []) = some ip
last (ip ∷ ips) = last ips

abbrev pub is_trusted : List (IpAddr → Bool) → IpAddr → Bool
is_trusted trusted_proxies ip = any (λ contains. contains ip) trusted_proxies

-- The loop that pops the forwarded addresses from their end: what it pushes, with `current`.
unfoldable pub walk : (IpAddr → Bool) → IpAddr → List IpAddr → List IpAddr
walk trusted current [] = current ∷ []
walk trusted current (next ∷ left) =
    let rest = walk trusted next left in if trusted current then current ∷ rest else current ∷ []

module _ (parse : Text → Option IpAddr) where
  -- `collect::<Result<Vec<_>, _>>()` of the parsed parts
  unfoldable pub parse_parts : List Text → Option (List IpAddr)
  parse_parts [] = some []
  parse_parts (part ∷ parts) = elim (parse (trim part)) [
    | none ↦ none
    | some ip ↦ elim (parse_parts parts) [ none ↦ none | some ips ↦ some (ip ∷ ips) ]
  ]

  unfoldable pub parse_chain : Text → Option (List IpAddr)
  parse_chain raw = parse_parts (split_commas raw)

  unfoldable pub resolve_chain :
      Option IpAddr → Option Text → List (IpAddr → Bool) → Option (List IpAddr)
  resolve_chain none forwarded_for trusted_proxies = none
  resolve_chain (some peer) none trusted_proxies = some (peer ∷ [])
  resolve_chain (some peer) (some raw) trusted_proxies =
      if is_trusted trusted_proxies peer
      then elim (parse_chain raw) [
        | none ↦ some (peer ∷ [])
        | some forwarded ↦
            some (reverse (walk (is_trusted trusted_proxies) peer (reverse forwarded)))
      ]
      else some (peer ∷ [])

  -- The values of the header are those of `get_all`, each none where `to_str` fails.
  unfoldable pub resolve_headers :
      Option IpAddr → List (Option Text) → Text → List (IpAddr → Bool) → Bool → Option (List IpAddr)
  resolve_headers none values header trusted_proxies recursive = none
  resolve_headers (some peer) (some raw ∷ []) header trusted_proxies recursive =
      if is_trusted trusted_proxies peer
      then if eq_ignore_ascii_case header (codes "x-real-ip")
        then elim (parse (trim raw)) [ some ip ↦ some (ip ∷ peer ∷ []) | none ↦ some (peer ∷ []) ]
        else if recursive
        then resolve_chain (some peer) (some raw) trusted_proxies
        else elim (parse_chain raw) [
          | none ↦ some (peer ∷ [])
          | some chain ↦ elim (last chain) [
            | some ip ↦ some (ip ∷ peer ∷ [])
            | none ↦ some (peer ∷ [])
          ]
        ]
      else some (peer ∷ [])
  resolve_headers (some peer) _ header trusted_proxies recursive = some (peer ∷ [])
