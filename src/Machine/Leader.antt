-- ===== src/Machine/Leader.antt =====
-- What the connection state machine (grpc.rs) does about an operation that failed.
use trogon_event_store_clien.Base.{
  ◌≡◌, ◌≢◌, refl, ap, ◌∙◌, sym, Bool, true, false, not, ◌==◌, Option, none, some, ok, arith,
}
use trogon_event_store_clien.Types.{Endpoint}
use trogon_event_store_clien.Errors.{Status, not_leader_exception, from_grpc}
use trogon_event_store_clien.Features.{ServerInfo}
use trogon_event_store_clien.Settings.{to_hyper_uri}
use trogon_event_store_clien.Env.{Env}
use trogon_event_store_clien.Connection.{
  HandleInfo, NodeConnection, NodeRequest, Attempt, ready, dialled, reuse, on_request, next,
}
use trogon_event_store_clien.Connection.Attempts.{IsConnectedTo, next-IsConnectedTo}
use trogon_event_store_clien.Machine.{
  Handle, handle_of, Msg, create_channel, Machine, finish, moved, step, handle_error,
}
use trogon_event_store_clien.Machine.Links.{IsLinked, handle_of?, Settles, finish-Settles}

-- The machine runs with a handle at the endpoint, with the features that the endpoint answered.
pub record IsAt (e : Endpoint) (info : ServerInfo) (m : Machine) : Type 0 where
  pub handle : Handle
  pub held : m.handle ≡ some handle
  pub at_endpoint : handle.endpoint ≡ e
  pub with_features : handle.server_info ≡ info

-- What the message of a failed operation does, if there is one.
abbrev pub Reported : (env : Env) → Option Msg → (Machine → Type 0) → Machine → env.World → Type 0
Reported env none P m w = ⊥
Reported env (some msg) P m w = Settles env P (step env m msg w)

module _ (env : Env) where
  open env use {World, get_supported_methods, status_to_string}

  moved-IsAt :
      (m : Machine) (e : Endpoint) (info : ServerInfo) (a : Attempt) (c : NodeConnection)
      → IsConnectedTo e info a c
      → IsAt e info (moved m a c)
  moved-IsAt m e info a c h = rw h.returned (record {
    handle = handle_of h.handle;
    held = refl;
    at_endpoint = h.at_endpoint;
    with_features = h.with_features;
  })

  -- An operation on the machine's connection that fails because the node is not the leader, where the
  -- status names the leader and the leader answers the call for its features, leaves the machine with
  -- a handle at the leader.
  pub handle_error-IsAt :
      (m : Machine) (s : Status) (leader : Endpoint) (info : ServerInfo) (w : World)
      → from_grpc status_to_string s ≡ not_leader_exception leader
      → dialled
          (get_supported_methods m.connection.settings.gossip_timeout
            (to_hyper_uri m.connection.settings.secure leader)
            w).0
        ≡ ready info
      → Reported env
          (handle_error m.connection.id (from_grpc status_to_string s))
          (IsAt leader info)
          m
          w
  unfolding step handle_error
  handle_error-IsAt m s leader info w e h = rw e (
      finish-Settles env _ (IsAt leader info) (moved m) (next env m.connection _ w)
        (next-IsConnectedTo env m.connection
          (record { correlation = m.connection.id; endpoint = leader }) info w refl h)
        (moved-IsAt m leader info))

  reused :
      (c : NodeConnection) (handle : Option HandleInfo) (info : HandleInfo) (w : World)
      → handle ≡ some info
      → reuse env c handle w ≡ some (ok info, c, w)
  reused c none info w h = cc
  reused c (some i) info w h = cc

  stale_reused :
      (c : NodeConnection) (r : NodeRequest) (stale : Bool) (handle : Option HandleInfo)
      (info : HandleInfo) (w : World)
      → stale ≡ true
      → handle ≡ some info
      → on_request env c r stale handle w ≡ some (ok info, c, w)
  stale_reused c r true none info w on h = cc
  stale_reused c r true (some i) info w on h = cc
  stale_reused c r false handle info w on h = cc

  -- The messages that ask for a connection without naming a node, or about another connection.
  abbrev pub IsIdle : Machine → Msg → Type 0
  IsIdle m (Msg.get_channel tag) = ⊥
  IsIdle m (create_channel id none) = Unit
  IsIdle m (create_channel id (some e)) = id ≢ m.connection.id

  held_info :
      (handle : Option Handle) (info : Option HandleInfo) (h : Handle)
      → handle ≡ some h
      → handle ≡ handle_of? info
      → (i : HandleInfo) × (info ≡ some i) × (handle ≡ some (handle_of i))
  held_info handle none h e l = cc
  held_info handle (some i) h e l = (i, refl, l)

  idle_next :
      (msg : Msg) (i : HandleInfo) (m : Machine) (w : World)
      → m.connection.handle ≡ some i
      → m.handle ≡ some (handle_of i)
      → IsIdle m msg
      → step env m msg w ≡ some (m, w)
  unfolding step next
  idle_next (Msg.get_channel tag) i m w h l idle = absurd idle
  idle_next (create_channel id none) i m w h l idle =
      ap (finish env (moved m)) (reused m.connection m.connection.handle i w h)
      ∙ ap (λ handle. some (record m { handle = handle }, w)) (sym l)
  idle_next (create_channel id (some e)) i m w h l idle =
      ap (finish env (moved m)) (
        stale_reused m.connection (record { correlation = id; endpoint = e })
          (not (m.connection.id == id)) m.connection.handle i w (ground arith) h)
      ∙ ap (λ handle. some (record m { handle = handle }, w)) (sym l)

  -- While the machine runs with a handle, which is its connection's, a request for a connection that
  -- names no node, or is about another connection than the machine's, changes nothing: the machine
  -- keeps its node, and asks nothing of the outside.
  pub step-idle :
      (m : Machine) (msg : Msg) (h : Handle) (w : World)
      → IsLinked m
      → m.is_running ≡ true
      → m.handle ≡ some h
      → IsIdle m msg
      → step env m msg w ≡ some (m, w)
  step-idle m msg h w linked on held idle =
      let (i, known, same) =
        held_info m.handle m.connection.handle h held (linked.same_handle on) in
      idle_next msg i m w known same idle
