-- ===== src/Routing/Rewrite.antt =====
-- crates/ngxora-runtime/src/upstreams/http_routes.rs: rewritten paths and redirects. A `http::Uri` is
-- its path, its query and its text; what `parse` gives for a text is a parameter.
pub mod Prefix
use ngxora.Base.{
  ℕ, Bool, true, false, ◌&&◌, ◌||◌, List, [], ◌∷◌, ◌++◌, Option, none, some, Text, codes, ◌==◌,
  if◌then◌else◌, text_eq, strip_prefix, trim_end_matches, contains_char, to_string,
}
use ngxora.Outcome.{Outcome, success, failure, ◌>>=◌, ok_or}
use ngxora.Routing.Types.{HttpRedirect, PathModifier, replace_full_path, replace_prefix_match}
use ngxora.Routing.Http.{Routed, missing_prefix, path_not_matched, invalid_uri, slash}

pub record Uri : Type 0 where
  pub path : Text
  pub query : Option Text
  pub text : Text

-- The replacement of a prefix in front of what follows it.
abbrev pub joined : Text → Text → Text
joined replacement [] = replacement
joined replacement (c ∷ suffix) = trim_end_matches slash replacement ++ (c ∷ suffix)

abbrev pub or_slash : Text → Text
or_slash [] = slash ∷ []
or_slash (c ∷ path) = c ∷ path

unfoldable pub rewrite_path : Text → Option PathModifier → Option Text → Routed Text
rewrite_path path none prefix = success path
rewrite_path path (some (replace_full_path new)) prefix = success new
rewrite_path path (some (replace_prefix_match replacement)) prefix = do
  prefix' ← ok_or missing_prefix prefix
  suffix ← ok_or path_not_matched (strip_prefix (trim_end_matches slash prefix') path)
  success (or_slash (joined replacement suffix))

abbrev pub with_query : Text → Option Text → Text
with_query path none = path
with_query path (some query) = path ++ (b'?' ∷ query)

abbrev pub unwrap_or {ℓ} : {A : Type ℓ} → A → Option A → A
unwrap_or a none = a
unwrap_or a (some b) = b

-- The port of a redirect that names none.
abbrev pub default_port : ℕ → Option Text → ℕ
default_port listener_port none = listener_port
default_port listener_port (some scheme) =
    if text_eq scheme (codes "https")
    then 443
    else (if text_eq scheme (codes "http") then 80 else listener_port)

abbrev pub bracketed : Text → Text
bracketed host = if contains_char b':' host then (b'[' ∷ host) ++ (b']' ∷ []) else host

unfoldable pub authority : Text → Text → ℕ → Text
authority scheme host port =
    if (text_eq scheme (codes "http") && port == 80)
      || (text_eq scheme (codes "https") && port == 443)
    then host
    else host ++ (b':' ∷ to_string port)

module _ (parse_uri : Text → Option Uri) where
  unfoldable pub rewrite_uri : Uri → Option PathModifier → Option Text → Routed Uri
  rewrite_uri uri modifier prefix = do
    path ← rewrite_path uri.path modifier prefix
    ok_or (invalid_uri (with_query path uri.query)) (parse_uri (with_query path uri.query))

  unfoldable pub redirect_location :
      HttpRedirect → Uri → Text → Text → ℕ → Option Text → Routed Text
  redirect_location config uri host scheme listener_port prefix = do
    uri' ← rewrite_uri uri config.path prefix
    success (
        unwrap_or scheme config.scheme
        ++ (codes "://"
            ++ (authority (unwrap_or scheme config.scheme)
                  (bracketed (unwrap_or host config.hostname))
                  (unwrap_or (default_port listener_port config.scheme) config.port)
                ++ uri'.text)))
