-- ===== src/Settings/Parser.antt =====
-- grpc.rs, `FromStr for ClientSettings` with `parse_from_url`, `parse_gossip_seed` and `parse_param`.
-- The `url` crate is the argument `UrlLib`. The message of an error is told by its format string and
-- the texts put into it, less the text of the standard library's own parse errors. Warnings are not
-- modelled.
use trogon_event_store_clien.Base.{
  ℕ, Bool, true, false, not, ◌&&◌, ◌||◌, Option, none, some, List, [], ◌∷◌, ◌++◌, Result, ok, err,
  ◌>>=◌, ◌==◌, ltb, if◌then◌else◌, is_some, is_none, unwrap_or,
}
use trogon_event_store_clien.Base.Text.{Text, codes, split, contains_char, replace_char, text_eq}
use trogon_event_store_clien.Base.Decimal.{parse_uint}
use trogon_event_store_clien.Base.Int.{ℤ, pos, negsuc, u64_max, u16_max, parse_i64}
use trogon_event_store_clien.Types.{Endpoint, NodePreference}
use trogon_event_store_clien.Settings.{
  ClientSettings, default, keep_alive_interval_in_ms, keep_alive_timeout_in_ms,
}

-- What the client uses of the `url` crate, and the case mapping of the standard library, whose
-- tables are not part of the model.
pub record UrlLib : Type 1 where
  pub Url : Type 0
  pub ParseError : Type 0
  pub is_invalid_port : ParseError → Bool
  pub parse : Text → Result ParseError Url
  pub scheme : Url → Text
  pub username : Url → Text
  pub password : Url → Option Text
  pub path : Url → Text
  pub has_host : Url → Bool
  pub host_str : Url → Option Text
  pub port : Url → Option ℕ
  pub path_segments : Url → Option (List Text)
  pub query_pairs : Url → List (Text × Text)
  pub to_lowercase : Text → Text

pub data Message : Type 0 where
  unknown_scheme unsupported_path invalid_port_number invalid_host_part : Text → Message
  no_host : Message
  invalid_format : Text → Text → Message
  unknown_preference : Text → Message
  invalid_keep_alive_interval invalid_keep_alive_timeout invalid_deadline : ℤ → Message
  invalid_user_certificate : Message
  unparsed : Text → Message

pub record ClientSettingsParseError (E : Type 0) : Type 0 where
  pub message : Message
  pub error : Option E

abbrev pub default_port : ℕ
default_port = 2_113

-- The parameters that the `match` on the lowercased name knows.
pub data Param : Type 0 where
  max_discover_attempts discovery_interval gossip_timeout tls tls_verify_cert : Param
  node_preference keep_alive_interval keep_alive_timeout default_deadline : Param
  connection_name user_cert_file user_key_file tls_ca_file ignored : Param

unfoldable pub param_of : Text → Param
param_of name =
    if text_eq name (codes "maxdiscoverattempts")
    then max_discover_attempts
    else if text_eq name (codes "discoveryinterval")
    then discovery_interval
    else if text_eq name (codes "gossiptimeout")
    then gossip_timeout
    else if text_eq name (codes "tls")
    then tls
    else if text_eq name (codes "tlsverifycert")
    then tls_verify_cert
    else if text_eq name (codes "nodepreference")
    then node_preference
    else if text_eq name (codes "keepaliveinterval")
    then keep_alive_interval
    else if text_eq name (codes "keepalivetimeout")
    then keep_alive_timeout
    else if text_eq name (codes "defaultdeadline")
    then default_deadline
    else if text_eq name (codes "connectionname")
    then connection_name
    else if text_eq name (codes "usercertfile")
    then user_cert_file
    else if text_eq name (codes "userkeyfile")
    then user_key_file
    else if text_eq name (codes "tlscafile")
    then tls_ca_file
    else ignored

-- `str::parse::<bool>`.
unfoldable pub parse_bool : Text → Option Bool
parse_bool s =
    if text_eq s (codes "true")
    then some true
    else if text_eq s (codes "false")
    then some false
    else none

unfoldable pub preference_of : Text → Option NodePreference
preference_of s =
    if text_eq s (codes "follower")
    then some NodePreference.follower
    else if text_eq s (codes "random")
    then some NodePreference.random
    else if text_eq s (codes "leader")
    then some NodePreference.leader
    else if text_eq s (codes "readonlyreplica")
    then some NodePreference.read_only_replica
    else none

abbrev pub push_host : ClientSettings → Endpoint → ClientSettings
push_host r e = record r { hosts = r.hosts ++ e ∷ [] }

abbrev pub is_empty : Text → Bool
is_empty [] = true
is_empty (c ∷ s) = false

abbrev pub no_hosts : List Endpoint → Bool
no_hosts [] = true
no_hosts (e ∷ es) = false

module _ {E : Type 0} where
  abbrev pub fail {ℓ} : {A : Type ℓ} → Message → Result (ClientSettingsParseError E) A
  fail m = err (record { message = m; error = none })

  -- `parse_param`, on what the standard library's parser made of the value.
  abbrev pub parse_param {ℓ} :
      {A : Type ℓ} → Text → Text → Option A → Result (ClientSettingsParseError E) A
  parse_param name value none = fail (invalid_format name value)
  parse_param name value (some a) = ok a

  -- The arm of `keepAliveInterval`: a value below the default is skipped.
  unfoldable pub set_keep_alive_interval :
      ClientSettings → ℤ → Result (ClientSettingsParseError E) ClientSettings
  set_keep_alive_interval r (pos v) =
      ok (if ltb v keep_alive_interval_in_ms then r else record r { keep_alive_interval = v })
  set_keep_alive_interval r (negsuc v) =
      if v == 0
      then ok (record r { keep_alive_interval = u64_max })
      else fail (invalid_keep_alive_interval (negsuc v))

  unfoldable pub set_keep_alive_timeout :
      ClientSettings → ℤ → Result (ClientSettingsParseError E) ClientSettings
  set_keep_alive_timeout r (pos v) =
      ok (if ltb v keep_alive_timeout_in_ms then r else record r { keep_alive_timeout = v })
  set_keep_alive_timeout r (negsuc v) =
      if v == 0
      then ok (record r { keep_alive_timeout = u64_max })
      else fail (invalid_keep_alive_timeout (negsuc v))

  unfoldable pub set_default_deadline :
      ClientSettings → ℤ → Result (ClientSettingsParseError E) ClientSettings
  set_default_deadline r (pos v) = ok (record r { default_deadline = some v })
  set_default_deadline r (negsuc v) =
      if v == 0
      then ok (record r { default_deadline = some u64_max })
      else fail (invalid_deadline (negsuc v))

  abbrev set_preference :
      ClientSettings
      → Text
      → Option NodePreference
      → Result (ClientSettingsParseError E) ClientSettings
  set_preference r lower none = fail (unknown_preference lower)
  set_preference r lower (some p) = ok (record r { preference = p })

  -- One arm of the `match`: `name` and `lower` are the lowercased name and value.
  unfoldable pub apply_param :
      Param
      → Text
      → Text
      → Text
      → ClientSettings
      → Result (ClientSettingsParseError E) ClientSettings
  unfolding set_keep_alive_interval set_keep_alive_timeout set_default_deadline
  apply_param max_discover_attempts name value lower r = do
    v ← parse_param name value (parse_uint u64_max value)
    ok (record r { max_discover_attempts = v })
  apply_param discovery_interval name value lower r = do
    v ← parse_param name value (parse_uint u64_max value)
    ok (record r { discovery_interval = v })
  apply_param gossip_timeout name value lower r = do
    v ← parse_param name value (parse_uint u64_max value)
    ok (record r { gossip_timeout = v })
  apply_param tls name value lower r = do
    v ← parse_param name value (parse_bool value)
    ok (record r { secure = v })
  apply_param tls_verify_cert name value lower r = do
    v ← parse_param name value (parse_bool value)
    ok (record r { tls_verify_cert = v })
  apply_param node_preference name value lower r = set_preference r lower (preference_of lower)
  apply_param keep_alive_interval name value lower r = do
    v ← parse_param name value (parse_i64 value)
    set_keep_alive_interval r v
  apply_param keep_alive_timeout name value lower r = do
    v ← parse_param name value (parse_i64 value)
    set_keep_alive_timeout r v
  apply_param default_deadline name value lower r = do
    v ← parse_param name value (parse_i64 value)
    set_default_deadline r v
  apply_param connection_name name value lower r = ok (record r { connection_name = some value })
  apply_param user_cert_file name value lower r = ok (record r { user_cert_file = some value })
  apply_param user_key_file name value lower r = ok (record r { user_key_file = some value })
  apply_param tls_ca_file name value lower r = ok (record r { tls_ca_file = some value })
  apply_param ignored name value lower r = ok r

  -- The loop over the query.
  unfoldable pub apply_params :
      (Text → Text)
      → List (Text × Text)
      → ClientSettings
      → Result (ClientSettingsParseError E) ClientSettings
  apply_params lowercase [] r = ok r
  apply_params lowercase ((param, value) ∷ rest) r =
      apply_param (param_of (lowercase param)) (lowercase param) value (lowercase value) r >>= λ r'.
      apply_params lowercase rest r'

  abbrev pub seed_port :
      ClientSettings → Text → Text → Option ℕ → Result (ClientSettingsParseError E) ClientSettings
  seed_port r host port none = fail (invalid_port_number port)
  seed_port r host port (some p) = ok (push_host r (record { host = host; port = p }))

  -- The `match` of `parse_gossip_seed` on the parts between the colons.
  abbrev pub seed_parts :
      ClientSettings → Text → List Text → Result (ClientSettingsParseError E) ClientSettings
  seed_parts r host (part ∷ []) = ok (push_host r (record { host = host; port = default_port }))
  seed_parts r host (part ∷ port ∷ []) = seed_port r part port (parse_uint u16_max port)
  seed_parts r host _ = fail (invalid_host_part host)

  unfoldable pub parse_gossip_seed :
      ClientSettings → Text → Result (ClientSettingsParseError E) ClientSettings
  parse_gossip_seed r host = seed_parts r host (split b':' host)

  unfoldable pub parse_gossip_seeds :
      ClientSettings → List Text → Result (ClientSettingsParseError E) ClientSettings
  parse_gossip_seeds r [] = ok r
  parse_gossip_seeds r (host ∷ hosts) =
      parse_gossip_seed r host >>= λ r'. parse_gossip_seeds r' hosts

module _ (U : UrlLib) where
  open U use {
    Url, ParseError, is_invalid_port, parse, scheme, username, password, path, has_host, host_str,
    port, path_segments, query_pairs, to_lowercase,
  }

  abbrev pub Outcome : Type 0
  Outcome = Result (ClientSettingsParseError ParseError) ClientSettings

  unfoldable pub set_scheme : ClientSettings → Url → Outcome
  set_scheme r url =
      if text_eq (scheme url) (codes "esdb")
      then ok (record r { dns_discover = false })
      else if text_eq (scheme url) (codes "esdb+discover")
      then ok (record r { dns_discover = true })
      else fail (unknown_scheme (scheme url))

  unfoldable pub set_credentials : ClientSettings → Url → ClientSettings
  set_credentials r url = if is_empty (username url) then r else record r {
    default_user_name =
        some (record { login = username url; password = unwrap_or (password url) [] });
  }

  unfoldable pub check_path : ClientSettings → Url → Outcome
  check_path r url =
      if no_hosts r.hosts && not (is_empty (path url)) && not (text_eq (path url) (codes "/"))
      then fail (unsupported_path (path url))
      else if no_hosts r.hosts && not (has_host url)
      then fail no_host
      else ok r

  -- The hosts of the URL itself, unless the settings have hosts already.
  abbrev pub host_parts : ClientSettings → Url → Text → Outcome
  host_parts r url host =
      if contains_char host b','
      then parse_gossip_seeds r (split b',' host)
      else ok (push_host r (record { host = host; port = unwrap_or (port url) default_port }))

  unfoldable pub set_hosts : ClientSettings → Url → Outcome
  set_hosts r url =
      if no_hosts r.hosts then host_parts r url (unwrap_or (host_str url) []) else ok r

  -- The test at the end: `is_none() ^ is_none()`.
  unfoldable pub check_certificate : ClientSettings → Outcome
  check_certificate r =
      if (is_none r.user_key_file && is_some r.user_cert_file)
        || (is_some r.user_key_file && is_none r.user_cert_file)
      then fail invalid_user_certificate
      else ok r

  unfoldable pub parse_from_url : ClientSettings → Url → Outcome
  parse_from_url result url = do
    schemed ← set_scheme result url
    checked ← check_path (set_credentials schemed url) url
    hosted ← set_hosts checked url
    set ← apply_params to_lowercase (query_pairs url) hosted
    check_certificate set

  abbrev pub unparsed_as : Text → ParseError → Outcome
  unparsed_as s e = err (record { message = unparsed s; error = some e })

  abbrev pub push_segments : ClientSettings → Option (List Text) → Outcome
  push_segments r none = ok r
  push_segments r (some segments) = parse_gossip_seeds r segments

  -- The rewritten connection string: the first host, and the other seeds as path segments.
  abbrev pub first_host : Text → ParseError → Url → Option Text → Outcome
  first_host s e url none = unparsed_as s e
  first_host s e url (some host) = do
    seeded ←
        push_segments
          (push_host default (record { host = host; port = unwrap_or (port url) default_port }))
          (path_segments url)
    parse_from_url seeded url

  abbrev pub reparsed : Text → ParseError → Result ParseError Url → Outcome
  reparsed s e (err _) = unparsed_as s e
  reparsed s e (ok url) = first_host s e url (host_str url)

  abbrev pub outcome_of : Text → Result ParseError Url → Outcome
  outcome_of s (ok url) = parse_from_url default url
  outcome_of s (err e) =
      if is_invalid_port e && contains_char s b','
      then reparsed s e (parse (replace_char s b',' b'/'))
      else unparsed_as s e

  -- `FromStr for ClientSettings`.
  unfoldable pub from_str : Text → Outcome
  from_str s = outcome_of s (parse s)
