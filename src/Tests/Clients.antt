-- ===== src/Tests/Clients.antt =====
-- Runs of the resolution of client addresses.
use ngxora.Base.{
  ◌-◌, codes, ◌≡◌, refl, Bool, true, false, List, [], ◌∷◌, ◌++◌, reverse, Option, none, some, ◌⊎◌,
  ltb, All, Text,
}
use ngxora.Config.Lexer.{is_whitespace}
use ngxora.Net.{IpAddr, v4}
use ngxora.ClientIp.{
  trim_start, split_commas, parse_parts, parse_chain, is_trusted, walk, resolve_chain,
  resolve_headers,
}
use ngxora.ClientIp.Trust.{resolve_chain_lem, resolve_headers-peer}

-- Addresses of one digit.
abbrev digit : Text → Option IpAddr
digit (c ∷ []) = some (v4 (c - b'0'))
digit _ = none

abbrev is_small : IpAddr → Bool
is_small (v4 n) = ltb n 3
is_small _ = false

abbrev networks : List (IpAddr → Bool)
networks = is_small ∷ []

forwarded : parse_chain digit (codes "7, 5,2") ≡ some (v4 7 ∷ v4 5 ∷ v4 2 ∷ [])
unfolding parse_chain parse_parts split_commas trim_start is_whitespace
forwarded = refl

chain :
    resolve_chain digit (some (v4 1)) (some (codes "7, 5,2")) networks
    ≡ some (v4 5 ∷ v4 2 ∷ v4 1 ∷ [])
unfolding resolve_chain walk parse_chain parse_parts split_commas trim_start is_whitespace
chain = refl

resolve_chain_lem_example :
    (proxies : List IpAddr) × (client : IpAddr) × (dropped : List IpAddr) × (resolve_chain digit
        (some (v4 1))
        (some (codes "7, 5,2"))
        networks
      ≡ some (client ∷ reverse proxies))
    × (v4 1 ∷ reverse (v4 7 ∷ v4 5 ∷ v4 2 ∷ []) ≡ proxies ++ (client ∷ dropped))
    × All (λ ip. is_trusted networks ip ≡ true) proxies
    × ((dropped ≡ []) ⊎ (is_trusted networks client ≡ false))
resolve_chain_lem_example =
    resolve_chain_lem digit (v4 1) (codes "7, 5,2") networks (v4 7 ∷ v4 5 ∷ v4 2 ∷ []) forwarded

resolve_headers-peer_example :
    (front : List IpAddr) × (resolve_headers digit
        (some (v4 1))
        (some (codes "7,2") ∷ [])
        (codes "X-Forwarded-For")
        networks
        false
      ≡ some (front ++ (v4 1 ∷ [])))
    × ((front ≡ []) ⊎ (is_trusted networks (v4 1) ≡ true))
resolve_headers-peer_example =
    resolve_headers-peer digit (v4 1) (some (codes "7,2") ∷ []) (codes "X-Forwarded-For") networks
      false
