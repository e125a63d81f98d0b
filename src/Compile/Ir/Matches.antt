-- ===== src/Compile/Ir/Matches.antt =====
-- crates/ngxora-compile/src/ir.rs: the parts of locations that the compiled router takes over, and
-- `PluginSpec` of crates/ngxora-plugin-api. Texts are byte strings.
use ngxora.Base.{ℕ, Bool, List, Option, Text}
use ngxora.Net.{IpAddr}

pub data HttpPathMatch : Type 0 where
  exact path_prefix : Text → HttpPathMatch

pub record HttpMatch : Type 0 where
  pub path : HttpPathMatch
  pub method : Option Text
  pub headers : List (Text × Text)
  pub query_params : List (Text × Text)

pub data PathModifier : Type 0 where
  replace_full_path replace_prefix_match : Text → PathModifier

pub record HttpRedirect : Type 0 where
  pub status : ℕ
  pub scheme : Option Text
  pub hostname : Option Text
  pub port : Option ℕ
  pub path : Option PathModifier

-- An `ipnet::IpNet` is the test of the addresses that it contains.
abbrev pub IpNet : Type 0
IpNet = IpAddr → Bool

pub data LocationIpRule : Type 0 where
  allow deny : IpNet → LocationIpRule
  allow_all deny_all : LocationIpRule

-- Its JSON value is a text.
pub record PluginSpec : Type 0 where
  pub name : Text
  pub config : Text
