-- ===== src/Upstreams/Crates.antt =====
-- What the crates `http`, `url` and `regex` and `std::path` tell of a text, which compiled routers are
-- built over.
use ngxora.Base.{ℕ, Bool, Option, Text}

-- A `http::Uri`; an authority is its text and its host.
pub record Uri : Type 0 where
  pub scheme : Option Text
  pub authority : Option (Text × Text)
  pub path : Text

-- A `url::Url`; `port` is the one that is written, `port_or_known_default` the one that is used.
pub record Url : Type 0 where
  pub text : Text
  pub scheme : Text
  pub username : Text
  pub password : Option Text
  pub host_str : Option Text
  pub port : Option ℕ
  pub port_or_known_default : Option ℕ
  pub path : Text
  pub query : Option Text
  pub fragment : Option Text
  pub cannot_be_a_base : Bool

pub record Crates : Type 0 where
  -- `http::uri::PathAndQuery`, `Method`, `HeaderValue` and `HeaderName` take the text.
  pub is_path_and_query : Text → Bool
  pub is_method : Text → Bool
  pub is_header_value : Text → Bool
  pub header_name : Text → Option Text
  -- `parse::<http::Uri>`
  pub parse_uri : Text → Option Uri
  -- `Url::parse`, and the parts of a `Url` that is already parsed.
  pub parse_url : Text → Option Url
  pub url : Text → Url
  -- `parse::<IpAddr>` succeeds.
  pub is_ip_addr : Text → Bool
  -- `RegexBuilder::build` of a pattern, with its test.
  pub new_regex : Text → Bool → Option (Text → Bool)
  -- `Path::join`
  pub join : Text → Text → Text
