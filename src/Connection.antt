-- ===== src/Connection.antt =====
-- grpc.rs, `NodeConnection`: the node that the client is connected to, and `next`, which returns it
-- or connects to another one. The loop takes fuel; `Connection.Total` shows that `fuel_for` is enough.
-- The HTTP client and the certificates that `new` loads are not modelled.
pub mod Total
pub mod Attempts
use trogon_event_store_clien.Base.{
  ℕ, zero, suc, ◌+◌, ◌*◌, Bool, true, false, not, ◌&&◌, ◌||◌, Option, none, some, List, [], ◌∷◌,
  Result, ok, err, ◌==◌, leb, ltb, if◌then◌else◌, length,
}
use trogon_event_store_clien.Base.Text.{Text}
use trogon_event_store_clien.Uuid.{Uuid, nil}
use trogon_event_store_clien.Types.{Endpoint}
use trogon_event_store_clien.Errors.{
  Status, not_found, unimplemented, is_code, GrpcConnectionError, max_discovery_attempt_reached,
}
use trogon_event_store_clien.Features.{
  ServerInfo, SupportedMethods, default_info, supported_methods,
}
use trogon_event_store_clien.Settings.{ClientSettings, to_hyper_uri}
use trogon_event_store_clien.Env.{Env, Reply, timeout, failed, answered}
use trogon_event_store_clien.Selection.{
  Member, ClusterMode, dns, seeds, Chosen, node, nobody, aborted, node_selection,
}

pub record HandleInfo : Type 0 where
  pub id : Uuid
  pub uri : Text
  pub endpoint : Endpoint
  pub secure : Bool
  pub server_info : ServerInfo

pub record NodeConnection : Type 0 where
  pub id : Uuid
  pub handle : Option HandleInfo
  pub settings : ClientSettings
  pub cluster_mode : Option ClusterMode
  pub previous_candidates : Option (List Member)

pub record NodeRequest : Type 0 where
  pub correlation : Uuid
  pub endpoint : Endpoint

-- `settings.hosts().first().cloned()`.
abbrev pub first : List Endpoint → Option Endpoint
first [] = none
first (e ∷ es) = some e

abbrev dns_mode : Option Endpoint → Option (Option ClusterMode)
dns_mode none = none
dns_mode (some e) = some (some (dns e))

-- The cluster mode that `new` derives; `none` is the panic of `hosts()[0]` on no host.
unfoldable pub cluster_mode_of : ClientSettings → Option (Option ClusterMode)
cluster_mode_of s =
    if s.dns_discover || ltb 1 (length s.hosts)
    then (if s.dns_discover then dns_mode (first s.hosts) else some (some (seeds s.hosts)))
    else some none

abbrev created : ClientSettings → Option (Option ClusterMode) → Option NodeConnection
created s none = none
created s (some mode) = some (record {
  id = nil;
  handle = none;
  settings = s;
  cluster_mode = mode;
  previous_candidates = none;
})

-- `NodeConnection::new`.
unfoldable pub new : ClientSettings → Option NodeConnection
unfolding cluster_mode_of
new s = created s (cluster_mode_of s)

-- What `next` ends with, besides a handle: a connection error, or the panic of a selection.
pub data Failure : Type 0 where
  connection_error : GrpcConnectionError → Failure
  panic : Failure

abbrev pub Attempt : Type 0
Attempt = Result Failure HandleInfo

-- What the call for the server's features comes to. An unknown or absent endpoint counts as a server
-- without features.
pub data Dialled : Type 0 where
  timed_out : Dialled
  ready : ServerInfo → Dialled
  refused : Status → Dialled

abbrev pub tolerate : Status → Dialled
tolerate s =
    if is_code s.code not_found || is_code s.code unimplemented
    then ready default_info
    else refused s

abbrev pub dialled_of : Result Status ServerInfo → Dialled
dialled_of (ok info) = ready info
dialled_of (err s) = tolerate s

abbrev pub dialled : Reply SupportedMethods → Dialled
dialled timeout = timed_out
dialled (failed s) = tolerate s
dialled (answered methods) = dialled_of (supported_methods methods)

-- Enough rounds for the loop of `next`: two for each attempt.
abbrev pub fuel_for : NodeConnection → ℕ
fuel_for c = 2 * c.settings.max_discover_attempts + 2

module _ (env : Env) where
  open env use {World, new_v4, sleep, get_supported_methods, status_to_string}

  abbrev pub Outcome : Type 0
  Outcome = Option (Attempt × NodeConnection × World)

  -- The handle of a node that answered, under a new identifier.
  abbrev pub connected : NodeConnection → Endpoint → ServerInfo → Uuid → HandleInfo
  connected c e info id = record {
    id = id;
    uri = to_hyper_uri c.settings.secure e;
    endpoint = e;
    secure = c.settings.secure;
    server_info = info;
  }

  abbrev pub after_dial : NodeConnection → Endpoint → Dialled → (World → Outcome) → World → Outcome
  after_dial c e timed_out again w = again w
  after_dial c e (refused s) again w =
      some (err (connection_error (GrpcConnectionError.grpc (status_to_string s))), c, w)
  after_dial c e (ready info) again w =
      let (id, w') = new_v4 w in
      let handle = connected c e info id in
      some (ok handle, record c { id = id; handle = some handle }, w')

  -- The end of a round that selected, or failed to select, a node.
  abbrev pub next_attempt :
      NodeConnection → ℕ → (NodeConnection → World → Outcome) → World → Outcome
  next_attempt c attempts again w =
      let top = c.settings.max_discover_attempts in
      let more = again c (sleep c.settings.discovery_interval w) in
      if leb attempts top
      then more
      else some (err (connection_error (max_discovery_attempt_reached top)), c, w)

  abbrev pub after_selection :
      NodeConnection
      → ℕ
      → Chosen
      → (Option Endpoint → NodeConnection → World → Outcome)
      → World
      → Outcome
  after_selection c attempts aborted again w = some (err panic, c, w)
  after_selection c attempts nobody again w = next_attempt c attempts (again none) w
  after_selection c attempts (node e) again w = next_attempt c attempts (again (some e)) w

  -- A round without a selected node, by the cluster mode.
  abbrev pub select :
      NodeConnection
      → Option ClusterMode
      → Option Endpoint
      → ℕ
      → (Option Endpoint → NodeConnection → World → Outcome)
      → World
      → Outcome
  select c none failed_endpoint attempts again w =
      next_attempt c attempts (again (first c.settings.hosts)) w
  select c (some mode) failed_endpoint attempts again w =
      let (chosen, previous, w') =
        node_selection env c.settings mode failed_endpoint c.previous_candidates w in
      after_selection (record c { previous_candidates = previous }) attempts chosen again w'

  -- The inner loop of `next`.
  unfoldable pub connect :
      ℕ → NodeConnection → Option Endpoint → Option Endpoint → ℕ → World → Outcome
  connect zero c failed_endpoint selected attempts w = none
  connect (suc fuel) c failed_endpoint (some e) attempts w =
      let (reply, w') =
        get_supported_methods c.settings.gossip_timeout (to_hyper_uri c.settings.secure e) w in
      after_dial c e (dialled reply) (connect fuel c failed_endpoint none attempts) w'
  connect (suc fuel) c failed_endpoint none attempts w =
      select c c.cluster_mode failed_endpoint (attempts + 1)
        (λ selected c' w'. connect fuel c' failed_endpoint selected (attempts + 1) w') w

  abbrev pub endpoint_of : Option HandleInfo → Option Endpoint
  endpoint_of none = none
  endpoint_of (some h) = some h.endpoint

  abbrev pub reuse : NodeConnection → Option HandleInfo → World → Outcome
  reuse c none w = connect (fuel_for c) c none none 1 w
  reuse c (some h) w = some (ok h, c, w)

  -- A request that is not stale gives the handle up and tries the node that it names.
  abbrev pub reconnect : NodeConnection → Endpoint → World → Outcome
  reconnect c e w =
      connect (fuel_for c) (record c { handle = none }) (endpoint_of c.handle) (some e) 1 w

  abbrev pub on_request : NodeConnection → NodeRequest → Bool → Option HandleInfo → World → Outcome
  on_request c r true (some h) w = some (ok h, c, w)
  on_request c r true none w = reconnect c r.endpoint w
  on_request c r false handle w = reconnect c r.endpoint w

  -- `NodeConnection::next`.
  unfoldable pub next : NodeConnection → Option NodeRequest → World → Outcome
  next c none w = reuse c c.handle w
  next c (some r) w = on_request c r (not (c.id == r.correlation)) c.handle w
