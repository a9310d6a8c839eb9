-- ===== src/Connection/Attempts.antt =====
-- Which node `NodeConnection::next` (grpc.rs) dials first, and what its count of attempts counts.
use trogon_event_store_clien.Base.{
  ℕ, zero, suc, Bool, ◌≤◌, ◌<◌, ◌≡◌, refl, true, false, if_split, leb, ◌==◌, not, Option, none,
  some, ok, err, arith,
}
use trogon_event_store_clien.Types.{Endpoint}
use trogon_event_store_clien.Settings.{to_hyper_uri}
use trogon_event_store_clien.Env.{Env}
use trogon_event_store_clien.Features.{ServerInfo}
use trogon_event_store_clien.Selection.{ClusterMode, Chosen, node, nobody, aborted, node_selection}
use trogon_event_store_clien.Connection.{
  HandleInfo, NodeConnection, NodeRequest, Attempt, Failure, Outcome, ready, dialled, fuel_for,
  first, next_attempt, after_selection, select, connect, endpoint_of, reuse, on_request, next,
}
use trogon_event_store_clien.Connection.Total.{Ends}

pub HasFailed : Attempt → NodeConnection → Type 0
HasFailed a c = (f : Failure) × (a ≡ err f)

-- The handle returned and held is the endpoint's, with the features that it answered.
pub record IsConnectedTo (e : Endpoint) (info : ServerInfo) (a : Attempt) (c : NodeConnection)
    : Type 0 where
  pub handle : HandleInfo
  pub returned : a ≡ ok handle
  pub held : c.handle ≡ some handle
  pub at_endpoint : handle.endpoint ≡ e
  pub with_features : handle.server_info ≡ info

module _ (env : Env) where
  open env use {World, get_supported_methods}

  next_attempt-HasFailed :
      (c : NodeConnection) (attempts : ℕ) (again : NodeConnection → World → Outcome env) (w : World)
      → c.settings.max_discover_attempts < attempts
      → Ends env HasFailed (next_attempt env c attempts again w)
  unfolding HasFailed
  next_attempt-HasFailed c attempts again w h =
      if_split (Ends env HasFailed) (leb attempts c.settings.max_discover_attempts)
        (λ fits. absurd (ground arith)) (λ over. (_, refl))

  after_selection-HasFailed :
      (c : NodeConnection) (attempts : ℕ) (chosen : Chosen)
      (again : Option Endpoint → NodeConnection → World → Outcome env) (w : World)
      → c.settings.max_discover_attempts < attempts
      → Ends env HasFailed (after_selection env c attempts chosen again w)
  unfolding HasFailed
  after_selection-HasFailed c attempts aborted again w h = (_, refl)
  after_selection-HasFailed c attempts nobody again w h =
      next_attempt-HasFailed c attempts (again none) w h
  after_selection-HasFailed c attempts (node e) again w h =
      next_attempt-HasFailed c attempts (again (some e)) w h

  select-HasFailed :
      (c : NodeConnection) (mode : Option ClusterMode) (failed_endpoint : Option Endpoint)
      (attempts : ℕ) (again : Option Endpoint → NodeConnection → World → Outcome env) (w : World)
      → c.settings.max_discover_attempts < attempts
      → Ends env HasFailed (select env c mode failed_endpoint attempts again w)
  select-HasFailed c none failed_endpoint attempts again w h =
      next_attempt-HasFailed c attempts (again (first c.settings.hosts)) w h
  select-HasFailed c (some mode) failed_endpoint attempts again w h =
      let (chosen, previous, w') =
        node_selection env c.settings mode failed_endpoint c.previous_candidates w in
      after_selection-HasFailed (record c { previous_candidates = previous }) attempts chosen again
        w' h

  connect-HasFailed :
      (fuel : ℕ) (c : NodeConnection) (w : World)
      → c.settings.max_discover_attempts ≤ 1
      → 0 < fuel
      → Ends env HasFailed (connect env fuel c none none 1 w)
  unfolding connect
  connect-HasFailed zero c w h enough = absurd (ground arith)
  connect-HasFailed (suc fuel) c w h enough =
      select-HasFailed c c.cluster_mode none 2
        (λ selected c' w'. connect env fuel c' none selected 2 w') w (omega (arith, h))

  reuse-HasFailed :
      (c : NodeConnection) (handle : Option HandleInfo) (w : World)
      → handle ≡ none
      → c.settings.max_discover_attempts ≤ 1
      → Ends env HasFailed (reuse env c handle w)
  reuse-HasFailed c none w h few = connect-HasFailed (fuel_for c) c w few (ground arith)
  reuse-HasFailed c (some i) w h few = cc

  -- From a connection without a handle, with at most one discovery attempt in its settings, `next`
  -- without a request fails: the attempt is counted when a node is selected, before it is dialled.
  pub next-HasFailed :
      (c : NodeConnection) (w : World)
      → c.handle ≡ none
      → c.settings.max_discover_attempts ≤ 1
      → Ends env HasFailed (next env c none w)
  unfolding next
  next-HasFailed c w h few = reuse-HasFailed c c.handle w h few

  connect-IsConnectedTo :
      (fuel : ℕ) (c : NodeConnection) (e : Endpoint) (info : ServerInfo)
      (failed_endpoint : Option Endpoint) (w : World)
      → dialled
          (get_supported_methods c.settings.gossip_timeout (to_hyper_uri c.settings.secure e) w).0
        ≡ ready info
      → 0 < fuel
      → Ends env (IsConnectedTo e info) (connect env fuel c failed_endpoint (some e) 1 w)
  unfolding connect
  connect-IsConnectedTo zero c e info failed_endpoint w h enough = absurd (ground arith)
  connect-IsConnectedTo (suc fuel) c e info failed_endpoint w h enough = rw h (record {
    handle = _;
    returned = refl;
    held = refl;
    at_endpoint = refl;
    with_features = refl;
  })

  on_request-IsConnectedTo :
      (c : NodeConnection) (r : NodeRequest) (info : ServerInfo) (stale : Bool)
      (handle : Option HandleInfo) (w : World)
      → stale ≡ false
      → dialled
          (get_supported_methods c.settings.gossip_timeout
            (to_hyper_uri c.settings.secure r.endpoint)
            w).0
        ≡ ready info
      → Ends env (IsConnectedTo r.endpoint info) (on_request env c r stale handle w)
  on_request-IsConnectedTo c r info true handle w stale h = cc
  on_request-IsConnectedTo c r info false handle w stale h =
      connect-IsConnectedTo (fuel_for c) (record c { handle = none }) r.endpoint info
        (endpoint_of env c.handle) w h (ground arith)

  -- A request about the handle in use, whose node answers the call for its features, or does not know
  -- that call, ends with a handle at the requested node: the first node dialled, in one attempt.
  pub next-IsConnectedTo :
      (c : NodeConnection) (r : NodeRequest) (info : ServerInfo) (w : World)
      → c.id ≡ r.correlation
      → dialled
          (get_supported_methods c.settings.gossip_timeout
            (to_hyper_uri c.settings.secure r.endpoint)
            w).0
        ≡ ready info
      → Ends env (IsConnectedTo r.endpoint info) (next env c (some r) w)
  unfolding next
  next-IsConnectedTo c r info w same h =
      on_request-IsConnectedTo c r info (not (c.id == r.correlation)) c.handle w (ground arith) h
