-- ===== src/Upstreams/Scp.antt =====
-- crates/ngxora-runtime/src/upstreams/scp/request.rs: API roots and the validation of a profile.
use ngxora.Base.{
  ℕ, Bool, not, ◌&&◌, ◌||◌, List, [], ◌∷◌, ◌++◌, Option, none, some, Text, codes, ltb, leb, ◌==◌,
  if◌then◌else◌, length, any, all, text_eq, starts_with, ends_with, trim_end_matches, contains_char,
  to_ascii_lowercase, to_string, lookup, text_has_eq,
}
use ngxora.Machine.{u16_max}
use ngxora.Outcome.{Outcome, success, ◌>>=◌, ◌>>◌, ok_or, ensure}
use ngxora.Compile.Ir.{ScpProfile}
use ngxora.Compile.Validate.{is_empty}
use ngxora.Compile.Values.{parse_uint}
use ngxora.Routing.Http.{has_double_slash, split, is_ascii_alphanumeric}
use ngxora.Upstreams.{CompiledUpstreamGroup, CompiledUpstreamServer}
use ngxora.Upstreams.Crates.{Crates}

pub data ScpErr : Type 0 where
  bad_scp_name bad_characters bad_api_root bad_scheme no_authority bad_host bad_port bad_prefix :
      ScpErr
  unknown_discovery no_discovery : Text → ScpErr
  ambiguous_discovery own_authority duplicate_target no_targets : ScpErr

abbrev pub ScpResult : Type 0 → Type 0
ScpResult T = Outcome ScpErr T

pub record ApiRoot : Type 0 where
  pub scheme : Text
  pub host : Text
  pub port : ℕ
  pub prefix : Text

abbrev pub is_bad_character : ℕ → Bool
is_bad_character b =
    leb b 32
    || (leb 127 b || (b == b'\\' || (b == b'%' || (b == b'?' || (b == b'#' || b == b'@')))))

unfoldable pub trim_start_matches : ℕ → Text → Text
trim_start_matches c [] = []
trim_start_matches c (x ∷ xs) =
    let rest = trim_start_matches c xs in if x == c then rest else x ∷ xs

-- The part behind the first `split_once` at a character.
unfoldable pub behind_char : ℕ → Text → Option Text
behind_char c [] = none
behind_char c (x ∷ xs) = let rest = behind_char c xs in if x == c then some xs else rest

-- The part behind the first `]:`.
unfoldable pub behind_bracket : Text → Option Text
behind_bracket [] = none
behind_bracket (x ∷ xs) =
    let rest = behind_bracket xs in
    if x == b']' && starts_with (b':' ∷ []) xs then behind_char b':' xs else rest

abbrev pub is_https : Text → Bool
is_https scheme = text_eq scheme (codes "https")

unfoldable pub port_of : Text → Text → ScpResult ℕ
port_of scheme authority =
    elim (if starts_with (b'[' ∷ []) authority
      then behind_bracket authority
      else behind_char b':' authority) [
        | none ↦ success (if is_https scheme then 443 else 80)
        | some raw_port ↦ ok_or bad_port (parse_uint u16_max raw_port)
      ]

abbrev pub is_dots : Text → Bool
is_dots part = text_eq part (codes ".") || text_eq part (codes "..")

unfoldable pub host_of : Text → Text
host_of host = to_ascii_lowercase (trim_end_matches b']' (trim_start_matches b'[' host))

module _ (crates : Crates) where
  -- `ApiRoot::parse`
  unfoldable pub parse_api_root : Text → ScpResult ApiRoot
  parse_api_root value = do
    ensure (not (ltb 2048 (length value) || any is_bad_character value)) bad_characters
    uri ← ok_or bad_api_root (crates.parse_uri value)
    scheme ← ok_or bad_scheme uri.scheme
    ensure (text_eq scheme (codes "http") || is_https scheme) bad_scheme
    (authority, raw_host) ← ok_or no_authority uri.authority
    ensure
        (not (
          is_empty (host_of raw_host)
          || (ends_with (b'.' ∷ []) (host_of raw_host) || ends_with (b':' ∷ []) authority)))
        bad_host
    port ← port_of scheme authority
    ensure (not (port == 0)) bad_port
    ensure
        (not (
          has_double_slash (trim_end_matches b'/' uri.path)
          || any is_dots (split b'/' (trim_end_matches b'/' uri.path))))
        bad_prefix
    success (record {
      scheme = scheme;
      host = host_of raw_host;
      port = port;
      prefix = trim_end_matches b'/' uri.path;
    })

-- `ApiRoot::authority`, `value` and `backend`
unfoldable pub authority : ApiRoot → Text
authority root =
    let host =
      if contains_char b':' root.host then (b'[' ∷ root.host) ++ (b']' ∷ []) else root.host in
    if root.port == (if is_https root.scheme then 443 else 80)
    then host
    else host ++ (b':' ∷ to_string root.port)

unfoldable pub value : ApiRoot → Text
value root = root.scheme ++ (codes "://" ++ (authority root ++ root.prefix))

abbrev pub non_empty : Text → Option Text
non_empty [] = none
non_empty (c ∷ t) = some (c ∷ t)

unfoldable pub backend : ApiRoot → CompiledUpstreamServer
backend root = record {
  host = root.host;
  port = root.port;
  weight = 1;
  api_prefix = non_empty root.prefix;
  nrf_service = none;
}

abbrev pub is_scp_name_char : ℕ → Bool
is_scp_name_char b = is_ascii_alphanumeric b || (b == b'_' || b == b'-')

-- What tells a discovery from another: the NF type, the service and the requester.
abbrev pub Combination : Type 0
Combination = Text × (Text × Text)

abbrev pub combination_eq : Combination → Combination → Bool
combination_eq a b = text_eq a.0 b.0 && (text_eq a.1.0 b.1.0 && text_eq a.1.1 b.1.1)

-- The loop over the discovery upstreams, with the combinations that are seen.
unfoldable pub check_discoveries :
    List (Text × CompiledUpstreamGroup) → List Text → List Combination → ScpResult (Unit {0})
check_discoveries upstreams [] seen = success tt
check_discoveries upstreams (name ∷ names) seen = do
  group ← ok_or (unknown_discovery name) (lookup name upstreams)
  nrf ← ok_or (no_discovery name) group.nrf_discovery
  ensure
      (not
        (any (combination_eq (nrf.target_nf_type, (nrf.service_name, nrf.requester_nf_type))) seen))
      ambiguous_discovery
  check_discoveries upstreams names
      ((nrf.target_nf_type, (nrf.service_name, nrf.requester_nf_type)) ∷ seen)

module _ (crates : Crates) where
  -- The loop over the allowed targets, with the values that are seen.
  unfoldable pub check_targets : ApiRoot → List Text → List Text → ScpResult (Unit {0})
  check_targets root [] roots = success tt
  check_targets root (text ∷ texts) roots = do
    target ← parse_api_root crates text
    ensure (not (text_eq target.host root.host && target.port == root.port)) own_authority
    ensure (not (any (text_eq (value target)) roots)) duplicate_target
    check_targets root texts (value target ∷ roots)

  unfoldable pub validate_profile :
      ScpProfile → List (Text × CompiledUpstreamGroup) → ScpResult (Unit {0})
  validate_profile profile upstreams = do
    ensure (not (is_empty profile.name || not (all is_scp_name_char profile.name))) bad_scp_name
    root ← parse_api_root crates profile.api_root
    check_discoveries upstreams profile.discovery_upstreams []
    check_targets root profile.allowed_target_api_roots []
    ensure (not (is_empty profile.discovery_upstreams && is_empty profile.allowed_target_api_roots))
        no_targets

-- `token`
abbrev pub is_token_char : ℕ → Bool
is_token_char b = is_ascii_alphanumeric b || (b == b'-' || (b == b'_' || b == b'.'))

unfoldable pub token : Text → Bool
token text = not (is_empty text) && (leb (length text) 256 && all is_token_char text)
