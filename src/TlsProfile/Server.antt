-- ===== src/TlsProfile/Server.antt =====
-- The TLS settings of the collector's server, and of the mock client: cmd/collector_tls.go. The
-- certificates, tls.LoadX509KeyPair and tlsprofile.Apply, which reads the entries of the ConfigMap, are
-- parameters.
use network_observability_cl.Base.{Bool, Option, none, some, [], String, if◌then◌else◌}
use network_observability_cl.TlsProfile.{TlsConfig}

-- What tlsprofile.Apply answers beside the settings that it leaves.
pub data ApplyAnswer : Type 0 where
  applied : ApplyAnswer
  nothing_to_apply : ApplyAnswer
  apply_failed : ApplyAnswer

pub record ServerConfig (Certificate : Type 0) : Type 0 where
  pub certificate : Certificate
  pub settings : TlsConfig

abbrev pub go_defaults : TlsConfig
go_defaults = record { min_version = 0; cipher_suites = []; curve_preferences = [] }

module _ {Certificate : Type 0} (exists : String → Bool)
    (load_key_pair : String → String → Option Certificate)
    (apply : TlsConfig → TlsConfig × ApplyAnswer) where
  -- The server serves with what Apply leaves, also where it failed: its answer is only logged.
  abbrev pub with_certificate : Option Certificate → Option (ServerConfig Certificate)
  with_certificate none = none
  with_certificate (some c) = some (record { certificate = c; settings = (apply go_defaults).0 })

  -- none disables TLS.
  unfoldable pub build_collector_tls_config : String → String → Option (ServerConfig Certificate)
  build_collector_tls_config cert_path key_path =
      if exists cert_path
      then (if exists key_path then with_certificate (load_key_pair cert_path key_path) else none)
      else none
