-- ===== src/Upstreams.antt =====
-- crates/ngxora-runtime/src/upstreams/types.rs: compiled groups of upstream servers. A `url::Url` is
-- a text, a `Duration` is a number of nanoseconds.
pub mod Crates
pub mod Scp
pub mod Compile
use native.Mathlib.Decide.{ℕ_discrete}
use ngxora.Base.{ℕ, Bool, List, [], ◌∷◌, ◌++◌, Option, none, some, Text, to_string, Eq, discrete_eq}
use ngxora.Compile.Ir.Options.{UpstreamSslOptions}
use ngxora.Compile.Ir.Upstream.{NrfEndpointScheme, UpstreamSelectionPolicy, UpstreamHashKey}

pub record NrfServiceMetadata : Type 0 where
  pub authority : Option Text
  pub nf_instance_id : Text
  pub service_instance_id : Text
  pub priority : ℕ
  pub capacity : ℕ

pub record CompiledUpstreamServer : Type 0 where
  pub host : Text
  pub port : ℕ
  pub weight : ℕ
  pub api_prefix : Option Text
  pub nrf_service : Option NrfServiceMetadata

abbrev pub or_empty : Option Text → Text
or_empty none = []
or_empty (some t) = t

-- `Display` of a server
abbrev pub display : CompiledUpstreamServer → Text
display s = s.host ++ (b':' ∷ (to_string s.port ++ or_empty s.api_prefix))

pub data HealthCheckType : Type 0 where
  tcp : HealthCheckType
  http : Text → Text → Bool → HealthCheckType

pub record CompiledHealthCheck : Type 0 where
  pub check_type : HealthCheckType
  pub timeout : ℕ
  pub interval : ℕ
  pub consecutive_success : ℕ
  pub consecutive_failure : ℕ

pub record CompiledNrfDiscovery : Type 0 where
  pub api_root : Text
  pub target_nf_type : Text
  pub requester_nf_type : Text
  pub service_name : Text
  pub endpoint_scheme : NrfEndpointScheme
  pub timeout : ℕ
  pub stale_if_error : ℕ
  pub tls_options : UpstreamSslOptions

pub record CompiledUpstreamGroup : Type 0 where
  pub allow_empty : Bool
  pub name : Text
  pub policy : UpstreamSelectionPolicy
  pub hash_key : Option UpstreamHashKey
  pub servers : List CompiledUpstreamServer
  pub nrf_discovery : Option CompiledNrfDiscovery
  pub health_check : Option CompiledHealthCheck

pub CompiledUpstreamGroup-discrete : Discrete CompiledUpstreamGroup
CompiledUpstreamGroup-discrete = hlevel ℕ_discrete

instance abbrev pub group_has_eq : Eq CompiledUpstreamGroup
group_has_eq = discrete_eq CompiledUpstreamGroup-discrete
