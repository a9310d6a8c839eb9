-- ===== src/Connection/Total.antt =====
-- `NodeConnection::next` (grpc.rs): it returns, and what holds of the connection then.
use trogon_event_store_clien.Base.{
  ℕ, zero, suc, ◌+◌, ◌*◌, ◌-◌, ◌≤◌, ◌≡◌, refl, subst, Bool, true, false, if_split, leb, ◌==◌, not,
  Option, none, some, List, ok, err, arith,
}
use trogon_event_store_clien.Types.{Endpoint}
use trogon_event_store_clien.Settings.{ClientSettings, to_hyper_uri}
use trogon_event_store_clien.Env.{Env}
use trogon_event_store_clien.Selection.{
  ClusterMode, Member, Chosen, node, nobody, aborted, node_selection,
}
use trogon_event_store_clien.Connection.{
  HandleInfo, NodeConnection, NodeRequest, Attempt, Outcome, Dialled, timed_out, ready, refused,
  dialled, fuel_for, first, after_dial, next_attempt, after_selection, select, connect, reuse,
  reconnect, endpoint_of, on_request, next,
}

-- What ties a handle to the connection that holds it.
pub record IsHandleOf (c : NodeConnection) (h : HandleInfo) : Type 0 where
  pub same_id : h.id ≡ c.id
  pub same_scheme : h.secure ≡ c.settings.secure
  pub same_uri : h.uri ≡ to_hyper_uri c.settings.secure h.endpoint

unfoldable pub IsSynced : NodeConnection → Type 0
IsSynced c = (h : HandleInfo) → c.handle ≡ some h → IsHandleOf c h

abbrev pub IsHeld : Attempt → NodeConnection → Type 0
IsHeld (ok h) c = (c.handle ≡ some h) × IsHandleOf c h
IsHeld (err f) c = c.handle ≡ none

-- The connection holds the handle that was returned, or none after a failure, and its settings and
-- its cluster mode are those of before.
pub record IsAnswered (s : ClientSettings) (mode : Option ClusterMode) (a : Attempt)
    (c : NodeConnection) : Type 0 where
  pub held : IsHeld a c
  pub same_settings : c.settings ≡ s
  pub same_mode : c.cluster_mode ≡ mode

module _ (env : Env) where
  open env use {World, sleep, get_supported_methods, new_v4}

  -- The loop did not run out of fuel, and what it returned has the property.
  abbrev pub Ends : (Attempt → NodeConnection → Type 0) → Outcome env → Type 0
  Ends P none = ⊥
  Ends P (some (a, c, w)) = P a c

  after_dial-Ends :
      (c : NodeConnection) (e : Endpoint) (d : Dialled) (again : World → Outcome env) (w : World)
      → c.handle ≡ none
      → ((w' : World) → Ends (IsAnswered c.settings c.cluster_mode) (again w'))
      → Ends (IsAnswered c.settings c.cluster_mode) (after_dial env c e d again w)
  after_dial-Ends c e timed_out again w h k = k w
  after_dial-Ends c e (refused s) again w h k = record {
    held = h;
    same_settings = refl;
    same_mode = refl;
  }
  after_dial-Ends c e (ready info) again w h k = record {
    held = (refl, record { same_id = refl; same_scheme = refl; same_uri = refl });
    same_settings = refl;
    same_mode = refl;
  }

  next_attempt-Ends :
      (c : NodeConnection) (attempts : ℕ) (again : NodeConnection → World → Outcome env) (w : World)
      → c.handle ≡ none
      → ((w' : World)
          → attempts ≤ c.settings.max_discover_attempts
          → Ends (IsAnswered c.settings c.cluster_mode) (again c w'))
      → Ends (IsAnswered c.settings c.cluster_mode) (next_attempt env c attempts again w)
  next_attempt-Ends c attempts again w h k =
      if_split (Ends (IsAnswered c.settings c.cluster_mode))
        (leb attempts c.settings.max_discover_attempts)
        (λ fits. k (sleep c.settings.discovery_interval w) (ground arith))
        (λ over. record { held = h; same_settings = refl; same_mode = refl })

  after_selection-Ends :
      (c : NodeConnection) (attempts : ℕ) (chosen : Chosen)
      (again : Option Endpoint → NodeConnection → World → Outcome env) (w : World)
      → c.handle ≡ none
      → ((selected : Option Endpoint) (w' : World)
          → attempts ≤ c.settings.max_discover_attempts
          → Ends (IsAnswered c.settings c.cluster_mode) (again selected c w'))
      → Ends (IsAnswered c.settings c.cluster_mode) (after_selection env c attempts chosen again w)
  after_selection-Ends c attempts aborted again w h k = record {
    held = h;
    same_settings = refl;
    same_mode = refl;
  }
  after_selection-Ends c attempts nobody again w h k =
      next_attempt-Ends c attempts (again none) w h (k none)
  after_selection-Ends c attempts (node e) again w h k =
      next_attempt-Ends c attempts (again (some e)) w h (k (some e))

  select-Ends :
      (c : NodeConnection) (mode : Option ClusterMode) (failed_endpoint : Option Endpoint)
      (attempts : ℕ) (again : Option Endpoint → NodeConnection → World → Outcome env) (w : World)
      → c.handle ≡ none
      → ((selected : Option Endpoint) (previous : Option (List Member)) (w' : World)
          → attempts ≤ c.settings.max_discover_attempts
          → Ends
              (IsAnswered c.settings c.cluster_mode)
              (again selected (record c { previous_candidates = previous }) w'))
      → Ends
          (IsAnswered c.settings c.cluster_mode)
          (select env c mode failed_endpoint attempts again w)
  select-Ends c none failed_endpoint attempts again w h k =
      next_attempt-Ends c attempts (again (first c.settings.hosts)) w h
        (k (first c.settings.hosts) c.previous_candidates)
  select-Ends c (some mode) failed_endpoint attempts again w h k =
      let (chosen, previous, w') =
        node_selection env c.settings mode failed_endpoint c.previous_candidates w in
      after_selection-Ends (record c { previous_candidates = previous }) attempts chosen again w' h
        (λ selected. k selected previous)

  -- The rounds left: two for each attempt, and one more with a selected node.
  abbrev rounds : NodeConnection → Option Endpoint → ℕ → ℕ
  rounds c none attempts = 2 * (c.settings.max_discover_attempts - attempts) + 1
  rounds c (some e) attempts = 2 * (c.settings.max_discover_attempts - attempts) + 2

  rounds-le :
      (c : NodeConnection) (selected : Option Endpoint) (attempts : ℕ)
      → attempts + 1 ≤ c.settings.max_discover_attempts
      → rounds c selected (attempts + 1) + 1 ≤ rounds c none attempts
  rounds-le c none attempts h = ground arith
  rounds-le c (some e) attempts h = ground arith

  pub connect-Ends :
      (fuel : ℕ) (c : NodeConnection) (failed_endpoint selected : Option Endpoint) (attempts : ℕ)
      (w : World)
      → c.handle ≡ none
      → rounds c selected attempts ≤ fuel
      → Ends
          (IsAnswered c.settings c.cluster_mode)
          (connect env fuel c failed_endpoint selected attempts w)
  unfolding connect
  connect-Ends zero c failed_endpoint none attempts w h enough = absurd (omega (arith, enough))
  connect-Ends zero c failed_endpoint (some e) attempts w h enough = absurd (omega (arith, enough))
  connect-Ends (suc fuel) c failed_endpoint (some e) attempts w h enough =
      let (reply, w') =
        get_supported_methods c.settings.gossip_timeout (to_hyper_uri c.settings.secure e) w in
      after_dial-Ends c e (dialled reply) (connect env fuel c failed_endpoint none attempts) w' h
        (λ w''. connect-Ends fuel c failed_endpoint none attempts w'' h (omega (arith, enough)))
  connect-Ends (suc fuel) c failed_endpoint none attempts w h enough =
      select-Ends c c.cluster_mode failed_endpoint (attempts + 1)
        (λ selected c' w'. connect env fuel c' failed_endpoint selected (attempts + 1) w') w h
        (λ selected previous w' more.
          connect-Ends fuel (record c { previous_candidates = previous }) failed_endpoint selected
            (attempts + 1) w' h (omega (arith, enough, rounds-le c selected attempts more)))

  reconnect-Ends :
      (c : NodeConnection) (e : Endpoint) (w : World)
      → Ends (IsAnswered c.settings c.cluster_mode) (reconnect env c e w)
  reconnect-Ends c e w =
      connect-Ends (fuel_for c) (record c { handle = none }) (endpoint_of env c.handle) (some e) 1 w
        refl (ground arith)

  reuse-Ends :
      (c : NodeConnection) (handle : Option HandleInfo) (w : World)
      → c.handle ≡ handle
      → IsSynced c
      → Ends (IsAnswered c.settings c.cluster_mode) (reuse env c handle w)
  unfolding IsSynced
  reuse-Ends c none w h sync = connect-Ends (fuel_for c) c none none 1 w h (ground arith)
  reuse-Ends c (some i) w h sync = record {
    held = (h, sync i h);
    same_settings = refl;
    same_mode = refl;
  }

  on_request-Ends :
      (c : NodeConnection) (r : NodeRequest) (stale : Bool) (handle : Option HandleInfo) (w : World)
      → c.handle ≡ handle
      → IsSynced c
      → Ends (IsAnswered c.settings c.cluster_mode) (on_request env c r stale handle w)
  unfolding IsSynced
  on_request-Ends c r true (some i) w h sync = record {
    held = (h, sync i h);
    same_settings = refl;
    same_mode = refl;
  }
  on_request-Ends c r true none w h sync = reconnect-Ends c r.endpoint w
  on_request-Ends c r false handle w h sync = reconnect-Ends c r.endpoint w

  -- From a connection whose handle is tied to it, `next` returns, whatever the outside answers and
  -- however small or large the number of attempts is: with the handle that the connection then holds,
  -- which has the connection's identifier, scheme and address, or with a failure, and the connection
  -- then holds none. The settings and the cluster mode stay.
  pub next-IsAnswered :
      (c : NodeConnection) (r : Option NodeRequest) (w : World)
      → IsSynced c
      → Ends (IsAnswered c.settings c.cluster_mode) (next env c r w)
  unfolding next
  next-IsAnswered c none w sync = reuse-Ends c c.handle w refl sync
  next-IsAnswered c (some r) w sync =
      on_request-Ends c r (not (c.id == r.correlation)) c.handle w refl sync

pub IsHeld-IsSynced : (a : Attempt) (c : NodeConnection) → IsHeld a c → IsSynced c
unfolding IsSynced
IsHeld-IsSynced (ok h) c (held, tied) i e = let same : h ≡ i = cc in subst (IsHandleOf c) same tied
IsHeld-IsSynced (err f) c held i e = cc
