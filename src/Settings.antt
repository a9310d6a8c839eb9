-- ===== src/Settings.antt =====
-- grpc.rs, `ClientSettings`: what a connection string can say, its defaults, and the endpoints' URIs.
-- `Settings/Parser` reads connection strings; the other modules below prove what holds of the result.
pub mod Parser
pub mod Seeds
pub mod Params
pub mod Steps
pub mod Parsed
pub mod Rewritten
use trogon_event_store_clien.Base.{
  ℕ, Bool, true, false, Option, none, some, List, [], ◌++◌, if◌then◌else◌,
}
use trogon_event_store_clien.Base.Text.{Text, codes}
use trogon_event_store_clien.Base.Decimal.{show}
use trogon_event_store_clien.Types.{Duration, Endpoint, Credentials, NodePreference}

pub record ClientSettings : Type 0 where
  pub dns_discover : Bool
  pub hosts : List Endpoint
  pub max_discover_attempts : ℕ
  pub discovery_interval : Duration
  pub gossip_timeout : Duration
  pub preference : NodePreference
  pub secure : Bool
  pub tls_verify_cert : Bool
  pub default_user_name : Option Credentials
  pub keep_alive_interval : Duration
  pub keep_alive_timeout : Duration
  pub default_deadline : Option Duration
  pub connection_name : Option Text
  pub tls_ca_file : Option Text
  pub user_cert_file : Option Text
  pub user_key_file : Option Text

-- `defaults::KEEP_ALIVE_INTERVAL_IN_MS` and `defaults::KEEP_ALIVE_TIMEOUT_IN_MS`.
abbrev pub keep_alive_interval_in_ms : ℕ
keep_alive_interval_in_ms = 10_000

abbrev pub keep_alive_timeout_in_ms : ℕ
keep_alive_timeout_in_ms = 10_000

-- `Default for ClientSettings`; the default of `NodePreference` is `Leader`.
unfoldable pub default : ClientSettings
default = record {
  dns_discover = false;
  hosts = [];
  max_discover_attempts = 3;
  discovery_interval = 500;
  gossip_timeout = 3_000;
  preference = NodePreference.leader;
  secure = true;
  tls_verify_cert = true;
  default_user_name = none;
  keep_alive_interval = keep_alive_interval_in_ms;
  keep_alive_timeout = keep_alive_timeout_in_ms;
  default_deadline = none;
  connection_name = none;
  tls_ca_file = none;
  user_cert_file = none;
  user_key_file = none;
}

-- The text that `to_uri`, `to_hyper_uri` and `Handle::url` build of an endpoint. That the `http`
-- crate accepts it is not part of the model.
unfoldable pub to_hyper_uri : Bool → Endpoint → Text
to_hyper_uri secure e =
    (if secure then codes "https" else codes "http")
    ++ (codes "://" ++ (e.host ++ (codes ":" ++ show e.port)))

abbrev zip : Option Text → Option Text → Option (Text × Text)
zip none k = none
zip (some c) none = none
zip (some c) (some k) = some (c, k)

-- The certificate and the key of the user, where both are given.
unfoldable pub user_certificate : ClientSettings → Option (Text × Text)
user_certificate s = zip s.user_cert_file s.user_key_file
