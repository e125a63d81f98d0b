-- ===== src/Control/Fingerprint.antt =====
-- `restart_fingerprint` of control.rs: what a live reload cannot change.
use native.Mathlib.Decide.{ℕ_discrete}
use ngxora.Base.{
  ℕ, ◌≡◌, refl, sym, ◌∙◌, ap, Option-cases, Bool-cases, inl, inr, Bool, true, false, ◌&&◌, List, [],
  ◌∷◌, Option, none, some, Eq, discrete_eq, lookup, insert,
}
use ngxora.Compile.Ir.Options.{Http2Options}
use ngxora.Routing.Types.{ListenKey, VirtualHostRoutes}
use ngxora.Routing.Resolve.{listen_key_has_eq}
use ngxora.Routing.Router.{
  CompiledRouter, ListenerProtocolConfig, ListenerTlsSettings, ListenerTlsConfig,
}

pub record ListenerRestartConfig : Type 0 where
  pub protocol : ListenerProtocolConfig
  pub tls : Option ListenerTlsSettings

pub ListenerRestartConfig-discrete : Discrete ListenerRestartConfig
ListenerRestartConfig-discrete = hlevel ℕ_discrete

-- The settings that no map holds.
pub record BootstrapOptions : Type 0 where
  pub allow_connect_method_proxying : Bool
  pub h2c : Bool
  pub keepalive_requests : Option ℕ
  pub http2 : Http2Options

pub BootstrapOptions-discrete : Discrete BootstrapOptions
BootstrapOptions-discrete = hlevel ℕ_discrete

pub record RestartConfigFingerprint (GeoIpConfig : Type 0) : Type 0 where
  pub geoip : Option GeoIpConfig
  pub listeners : List (ListenKey × ListenerRestartConfig)
  pub options : BootstrapOptions

-- `ListenerProtocolConfig::default`
abbrev pub protocol_or_default : Option ListenerProtocolConfig → ListenerProtocolConfig
protocol_or_default none = record { http2 = false; http2_only = false }
protocol_or_default (some protocol) = protocol

abbrev pub settings_of : Option ListenerTlsConfig → Option ListenerTlsSettings
settings_of none = none
settings_of (some cfg) = some cfg.settings

module _ {GeoIpConfig : Type 0} where
  abbrev pub restart_config : CompiledRouter GeoIpConfig → ListenKey → ListenerRestartConfig
  restart_config router key = record {
    protocol = protocol_or_default (lookup key router.listener_protocols);
    tls = settings_of (lookup key router.listener_tls);
  }

  -- The loop over the keys.
  unfoldable pub listener_configs :
      CompiledRouter GeoIpConfig
      → List (ListenKey × VirtualHostRoutes)
      → List (ListenKey × ListenerRestartConfig)
  listener_configs router [] = []
  listener_configs router ((key, _) ∷ rest) =
      insert key (restart_config router key) (listener_configs router rest)

  unfoldable pub restart_fingerprint :
      CompiledRouter GeoIpConfig → RestartConfigFingerprint GeoIpConfig
  restart_fingerprint router = record {
    geoip = router.geoip;
    listeners = listener_configs router router.listeners;
    options = record {
      allow_connect_method_proxying = router.http_options.allow_connect_method_proxying;
      h2c = router.http_options.h2c;
      keepalive_requests = router.http_options.keepalive_requests;
      http2 = router.http_options.http2;
    };
  }

abbrev pub same_config : Option ListenerRestartConfig → ListenerRestartConfig → Bool
same_config none config = false
same_config (some other) config = (discrete_eq ListenerRestartConfig-discrete).same other config

-- The equality of two `BTreeMap`s: each holds what the other holds.
abbrev pub holds_all :
    List (ListenKey × ListenerRestartConfig) → List (ListenKey × ListenerRestartConfig) → Bool
holds_all m [] = true
holds_all m ((key, config) ∷ rest) = same_config (lookup key m) config && holds_all m rest

abbrev pub same_geoip_option {ℓ} : {G : Type ℓ} → Eq G → Option G → Option G → Bool
same_geoip_option e none none = true
same_geoip_option e (some a) (some b) = e.same a b
same_geoip_option e _ _ = false

module _ {GeoIpConfig : Type 0} (same_geoip : Eq GeoIpConfig) where
  -- The derived `PartialEq`.
  unfoldable pub same_fingerprint :
      RestartConfigFingerprint GeoIpConfig → RestartConfigFingerprint GeoIpConfig → Bool
  same_fingerprint a b =
      same_geoip_option same_geoip a.geoip b.geoip
      && ((holds_all a.listeners b.listeners && holds_all b.listeners a.listeners)
          && (discrete_eq BootstrapOptions-discrete).same a.options b.options)

same_config_lem :
    (o : Option ListenerRestartConfig) (c : ListenerRestartConfig)
    → same_config o c ≡ true
    → o ≡ some c
same_config_lem none c h = cc
same_config_lem (some d) c h =
    ap some (((discrete_eq ListenerRestartConfig-discrete).same_iff d c).0 h)

and_both : (a b : Bool) → (a && b) ≡ true → (a ≡ true) × (b ≡ true)
and_both true b h = (refl, h)
and_both false b h = cc

holds_all-lookup :
    (m n : List (ListenKey × ListenerRestartConfig)) (key : ListenKey)
    (config : ListenerRestartConfig)
    → holds_all m n ≡ true
    → lookup key n ≡ some config
    → lookup key m ≡ some config
unfolding lookup
holds_all-lookup m [] key config h e = cc
holds_all-lookup m ((k, c) ∷ n) key config h e =
    let (here_same, rest) = and_both (same_config (lookup k m) c) (holds_all m n) h in
    elim (Bool-cases (listen_key_has_eq.same k key)) [
      | inl q ↦
          let same : k ≡ key = (listen_key_has_eq.same_iff k key).0 q in
          let this : c ≡ config = (let d = rw (q, lookup) at e in cc) in
          rw (← same, ← this) (same_config_lem (lookup k m) c here_same)
      | inr q ↦ holds_all-lookup m n key config rest (rw (q, lookup) at e)
    ]

-- Equal fingerprints are equal, and so are their settings of each listener.
pub record IsSameFingerprint {G : Type 0} (a b : RestartConfigFingerprint G) : Type 0 where
  pub same_geoip : a.geoip ≡ b.geoip
  pub same_listeners : (key : ListenKey) → lookup key a.listeners ≡ lookup key b.listeners
  pub same_options : a.options ≡ b.options

same_lookups :
    (m n : List (ListenKey × ListenerRestartConfig))
    → holds_all m n ≡ true
    → holds_all n m ≡ true
    → (key : ListenKey) → lookup key m ≡ lookup key n
same_lookups m n h k key = elim (Option-cases (lookup key n)) [
  | inr (c, e) ↦ holds_all-lookup m n key c h e ∙ sym e
  | inl e ↦ elim (Option-cases (lookup key m)) [
    | inl f ↦ f ∙ sym e
    | inr (c, f) ↦ absurd (let g = holds_all-lookup n m key c k f in let d = sym e ∙ g in cc)
  ]
]

same_geoip_option_lem :
    {G : Type 0} (e : Eq G) (a b : Option G) → same_geoip_option e a b ≡ true → a ≡ b
same_geoip_option_lem e none none h = refl
same_geoip_option_lem e (some a) (some b) h = ap some ((e.same_iff a b).0 h)
same_geoip_option_lem e none (some b) h = cc
same_geoip_option_lem e (some a) none h = cc

pub same_fingerprint_lem :
    {G : Type 0} (e : Eq G) (a b : RestartConfigFingerprint G)
    → same_fingerprint e a b ≡ true
    → IsSameFingerprint a b
unfolding same_fingerprint
same_fingerprint_lem e a b h =
    let (g, h1) = and_both (same_geoip_option e a.geoip b.geoip) _ h in
    let (l, o) =
      and_both (holds_all a.listeners b.listeners && holds_all b.listeners a.listeners) _ h1 in
    let (m, n) = and_both (holds_all a.listeners b.listeners) _ l in
    record {
      same_geoip = same_geoip_option_lem e a.geoip b.geoip g;
      same_listeners = same_lookups a.listeners b.listeners m n;
      same_options = ((discrete_eq BootstrapOptions-discrete).same_iff a.options b.options).0 o;
    }
