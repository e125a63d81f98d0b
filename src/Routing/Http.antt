-- ===== src/Routing/Http.antt =====
-- crates/ngxora-runtime/src/upstreams/http_routes.rs: the matches of HTTP routes. What the `http`
-- and `url` crates decide of a text is a parameter.
pub mod Matching
pub mod Compiled
use ngxora.Base.{
  ℕ, ◌+◌, Bool, true, false, not, ◌&&◌, ◌||◌, List, [], ◌∷◌, Option, none, some, Text, codes, ltb,
  leb, ◌==◌, is_some, if◌then◌else◌, length, any, all, text_eq, starts_with, ends_with,
  strip_prefix, trim_end_matches, contains_char, to_ascii_lowercase,
}
use ngxora.Outcome.{Outcome, success, failure, ◌>>=◌, ◌>>◌, ok_or, ensure}
use ngxora.Compile.Ir.Matches.{HttpPathMatch, exact, path_prefix}
use ngxora.Routing.Types.{
  HttpMatch, CompiledMatcher, PathModifier, replace_full_path, replace_prefix_match,
}

abbrev pub slash : ℕ
slash = b'/'

abbrev pub normalize_hostname : Text → Text
normalize_hostname host = to_ascii_lowercase (trim_end_matches b'.' host)

-- `str::split` at a character
abbrev pub split : ℕ → Text → List Text
split c [] = [] ∷ []
split c (x ∷ xs) = elim (split c xs) [
  | [] ↦ []
  | label ∷ labels ↦ if x == c then [] ∷ (label ∷ labels) else (x ∷ label) ∷ labels
]

abbrev pub is_ascii_alphanumeric : ℕ → Bool
is_ascii_alphanumeric c =
    (leb b'0' c && leb c b'9') || ((leb b'A' c && leb c b'Z') || (leb b'a' c && leb c b'z'))

unfoldable pub is_bad_label : Text → Bool
is_bad_label label =
    length label == 0
    || (ltb 63 (length label)
        || (starts_with (b'-' ∷ []) label
            || (ends_with (b'-' ∷ []) label
                || not (all (λ b. is_ascii_alphanumeric b || b == b'-') label))))

pub data RouteErr : Type 0 where
  invalid_hostname invalid_path : Text → RouteErr
  invalid_method invalid_header_name invalid_header_value needs_path_prefix : RouteErr
  missing_prefix path_not_matched : RouteErr
  invalid_uri unsupported_variable : Text → RouteErr

abbrev pub Routed : Type 0 → Type 0
Routed T = Outcome RouteErr T

unfoldable pub validate_hostname : Text → Routed (Unit {0})
validate_hostname host =
    ensure (not (length host == 0 || (ltb 253 (length host) || any is_bad_label (split b'.' host))))
      (invalid_hostname host)

-- `str::contains` of two slashes
abbrev pub has_double_slash : Text → Bool
has_double_slash [] = false
has_double_slash (c ∷ text) = (c == slash && starts_with (slash ∷ []) text) || has_double_slash text

unfoldable pub prefix_matches : Text → Text → Bool
prefix_matches prefix path =
    let trimmed = trim_end_matches slash prefix in
    text_eq path trimmed
    || elim (strip_prefix trimmed path) [ none ↦ false | some tail ↦ starts_with (slash ∷ []) tail ]

-- The names that a `HashSet` has seen; `insert` tells whether the name is new.
abbrev pub has_seen : List Text → Text → Bool
has_seen seen name = any (text_eq name) seen

unfoldable pub retain_first : List Text → List (Text × Text) → List (Text × Text)
retain_first seen [] = []
retain_first seen ((name, value) ∷ pairs) =
    let rest = retain_first (name ∷ seen) pairs in
    let rest' = retain_first seen pairs in
    if has_seen seen name then rest' else (name, value) ∷ rest

-- The path of a compiled match.
unfoldable pub compile_path : HttpPathMatch → HttpPathMatch
compile_path (exact path) = exact path
compile_path (path_prefix path) = elim (trim_end_matches slash path) [
  | [] ↦ path_prefix (slash ∷ [])
  | c ∷ trimmed ↦ path_prefix (c ∷ trimmed)
]

abbrev pub path_of : HttpPathMatch → Text
path_of (exact path) = path
path_of (path_prefix path) = path

-- `http::uri::PathAndQuery`, `http::Method`, `http::HeaderName` and `http::HeaderValue` of a text;
-- a header name is its lower-case text.
module _ (is_path_and_query is_method is_header_value : Text → Bool)
    (header_name : Text → Option Text) where
  unfoldable pub validate_path : Text → Routed (Unit {0})
  validate_path path =
      ensure
        (not (
          not (starts_with (slash ∷ []) path)
          || ((contains_char b'?' path || contains_char b'#' path)
              || (has_double_slash path || not (is_path_and_query path)))))
        (invalid_path path)

  -- The loop over the headers.
  unfoldable pub compile_headers : List (Text × Text) → Routed (List (Text × Text))
  compile_headers [] = success []
  compile_headers ((name, value) ∷ headers) = do
    name' ← ok_or invalid_header_name (header_name name)
    ensure (is_header_value value) invalid_header_value
    rest ← compile_headers headers
    success ((name', value) ∷ rest)

  abbrev pub is_valid_method : Option Text → Bool
  is_valid_method none = true
  is_valid_method (some method) = is_method method

  unfoldable pub compile_match : HttpMatch → Routed HttpMatch
  compile_match input = do
    validate_path (path_of input.path)
    ensure (is_valid_method input.method) invalid_method
    headers ← compile_headers input.headers
    success (record {
      path = compile_path input.path;
      method = input.method;
      headers = retain_first [] headers;
      query_params = retain_first [] input.query_params;
    })

  abbrev pub is_path_prefix : CompiledMatcher → Bool
  is_path_prefix (CompiledMatcher.http m) = elim m.path [ exact p ↦ false | path_prefix p ↦ true ]
  is_path_prefix _ = false

  unfoldable pub validate_modifier : Option PathModifier → CompiledMatcher → Routed (Unit {0})
  validate_modifier none matcher = success tt
  validate_modifier (some (replace_full_path path)) matcher = validate_path path
  validate_modifier (some (replace_prefix_match path)) matcher = do
    ensure (is_path_prefix matcher) needs_path_prefix
    if length path == 0 then success tt else validate_path path

-- The tuple of a match, its Booleans as 0 and 1, under the order of the tuples.
abbrev pub MatchScore : Type 0
MatchScore = List ℕ

abbrev pub bit : Bool → ℕ
bit true = 1
bit false = 0

abbrev pub match_score_lt : MatchScore → MatchScore → Bool
match_score_lt _ [] = false
match_score_lt [] (y ∷ ys) = true
match_score_lt (x ∷ xs) (y ∷ ys) = ltb x y || (x == y && match_score_lt xs ys)

abbrev pub is_exact : HttpPathMatch → Bool
is_exact (exact path) = true
is_exact (path_prefix path) = false

unfoldable pub match_score : HttpMatch → MatchScore
match_score m =
    bit (is_exact m.path)
    ∷ (length (path_of m.path)
        ∷ (bit (is_some m.method) ∷ (length m.headers ∷ (length m.query_params ∷ []))))

-- What a match reads of a `RequestHeader`: `uri.path()`, the method, the first value of a header by
-- its name, and the pairs that `url::form_urlencoded` finds in the query.
pub record RequestHeader : Type 0 where
  pub path : Text
  pub query : Option Text
  pub method : Text
  pub header : Text → Option Text
  pub query_pairs : List (Text × Text)

unfoldable pub path_matches : HttpPathMatch → Text → Bool
path_matches (exact p) path = text_eq p path
path_matches (path_prefix p) path = prefix_matches p path

abbrev pub is_value : Option Text → Text → Bool
is_value none value = false
is_value (some actual) value = text_eq actual value

-- `find` by the key
unfoldable pub find_param : Text → List (Text × Text) → Option Text
find_param name [] = none
find_param name ((key, actual) ∷ pairs) =
    if text_eq key name then some actual else find_param name pairs

abbrev pub is_method_of : Option Text → Text → Bool
is_method_of none method = true
is_method_of (some m) method = text_eq m method

unfoldable pub matches : HttpMatch → RequestHeader → Bool
matches m request =
    path_matches m.path request.path
    && (is_method_of m.method request.method
        && (all (λ (p : Text × Text). is_value (request.header p.0) p.1) m.headers
            && all (λ (p : Text × Text). is_value (find_param p.0 request.query_pairs) p.1)
                m.query_params))
