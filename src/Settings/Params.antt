-- ===== src/Settings/Params.antt =====
-- What the loop over the query of a connection string (grpc.rs, `parse_from_url`) keeps: the ranges
-- of the settings, and the fields that no parameter names.
use trogon_event_store_clien.Base.{◌≤◌, ◌≡◌, ◌∙◌, List, [], ◌∷◌, ok, >>=-eq-ok, arith}
use trogon_event_store_clien.Base.Text.{Text}
use trogon_event_store_clien.Base.Decimal.{AtMost, parse_uint-AtMost}
use trogon_event_store_clien.Base.Int.{u64_max, parse_i64-MaybeInI64}
use trogon_event_store_clien.Settings.{
  ClientSettings, default, keep_alive_interval_in_ms, keep_alive_timeout_in_ms,
}
use trogon_event_store_clien.Settings.Parser.{Param, param_of, apply_param, apply_params}

-- The ranges of the numbers that a connection string sets.
pub record IsInRange (r : ClientSettings) : Type 0 where
  pub attempts : r.max_discover_attempts ≤ u64_max
  pub interval : r.discovery_interval ≤ u64_max
  pub gossip : r.gossip_timeout ≤ u64_max
  pub ping_low : keep_alive_interval_in_ms ≤ r.keep_alive_interval
  pub ping_high : r.keep_alive_interval ≤ u64_max
  pub pong_low : keep_alive_timeout_in_ms ≤ r.keep_alive_timeout
  pub pong_high : r.keep_alive_timeout ≤ u64_max
  pub deadline : AtMost u64_max r.default_deadline

pub default-IsInRange : IsInRange default
unfolding default
default-IsInRange = ground arith

-- The ranges are kept, and the fields that no parameter names.
abbrev pub Kept : ClientSettings → ClientSettings → Type 0
Kept r r' = IsInRange r' × (r'.hosts ≡ r.hosts) × (r'.dns_discover ≡ r.dns_discover)

module _ {E : Type 0} where
  apply_param-Kept :
      (p : Param) (name value lower : Text) (r r' : ClientSettings)
      → IsInRange r
      → apply_param {E = E} p name value lower r ≡ ok r'
      → Kept r r'
  unfolding apply_param
  apply_param-Kept Param.max_discover_attempts name value lower r r' v h =
      ground (arith, parse_uint-AtMost u64_max value, parse_i64-MaybeInI64 value)
  apply_param-Kept _ name value lower r r' v h =
      ground (arith, parse_uint-AtMost u64_max value, parse_i64-MaybeInI64 value)

  pub apply_params-Kept :
      (lowercase : Text → Text) (ps : List (Text × Text)) (r r' : ClientSettings)
      → IsInRange r
      → apply_params {E = E} lowercase ps r ≡ ok r'
      → Kept r r'
  unfolding apply_params
  apply_params-Kept lowercase [] r r' v h = ground arith
  apply_params-Kept lowercase ((param, value) ∷ rest) r r' v h =
      let (m, first, later) = >>=-eq-ok _ _ h in
      let (ranged, hosts, mode) =
        apply_param-Kept (param_of (lowercase param)) (lowercase param) value (lowercase value) r m
          v first in
      let (ranged', hosts', mode') = apply_params-Kept lowercase rest m r' ranged later in
      (ranged', hosts' ∙ hosts, mode' ∙ mode)
