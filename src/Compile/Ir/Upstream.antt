-- ===== src/Compile/Ir/Upstream.antt =====
-- crates/ngxora-compile/src/ir.rs: groups of upstream servers.
use ngxora.Base.{ℕ, Bool, List, Option, Text}
use ngxora.Compile.Ir.Options.{UpstreamSslOptions}

pub data NrfEndpointScheme : Type 0 where
  http https : NrfEndpointScheme

pub record NrfDiscovery : Type 0 where
  pub api_root : Text
  pub target_nf_type : Text
  pub requester_nf_type : Text
  pub service_name : Text
  pub endpoint_scheme : NrfEndpointScheme
  pub timeout : ℕ
  pub stale_if_error : ℕ
  pub tls_options : UpstreamSslOptions

pub record UpstreamServer : Type 0 where
  pub host : Text
  pub port : ℕ
  pub weight : ℕ

pub data UpstreamSelectionPolicy : Type 0 where
  round_robin random consistent_hash : UpstreamSelectionPolicy

pub data UpstreamHashKey : Type 0 where
  client_ip : UpstreamHashKey
  header : Text → UpstreamHashKey

pub data UpstreamHealthCheckType : Type 0 where
  tcp : UpstreamHealthCheckType
  http : Text → Text → Bool → UpstreamHealthCheckType

pub record UpstreamHealthCheck : Type 0 where
  pub check_type : UpstreamHealthCheckType
  pub timeout : ℕ
  pub interval : ℕ
  pub consecutive_success : ℕ
  pub consecutive_failure : ℕ

pub record UpstreamBlock : Type 0 where
  pub allow_empty : Bool
  pub name : Text
  pub policy : UpstreamSelectionPolicy
  pub hash_key : Option UpstreamHashKey
  pub servers : List UpstreamServer
  pub nrf_discovery : Option NrfDiscovery
  pub health_check : Option UpstreamHealthCheck
