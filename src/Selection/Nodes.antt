-- ===== src/Selection/Nodes.antt =====
-- Where the node comes from that `node_selection` (grpc.rs) returns.
use trogon_event_store_clien.Base.{
  ◌≡◌, ◌⊎◌, inl, inr, refl, Option, none, some, List, [], ◌∷◌, arith, Any,
}
use trogon_event_store_clien.Types.{Endpoint}
use trogon_event_store_clien.Gossip.{MemberInfo}
use trogon_event_store_clien.Settings.{ClientSettings, to_hyper_uri}
use trogon_event_store_clien.Env.{Env}
use trogon_event_store_clien.Selection.{
  ClusterMode, Member, Chosen, node, Gathered, silent, members, broken, gather, found, consider,
  ask, candidates, node_selection, determine_best_node,
}
use trogon_event_store_clien.Selection.Best.{IsEligibleAt, determine_best_node-IsEligibleAt}

module _ (env : Env) (settings : ClientSettings) where
  open env use {World, gossip_read}

  -- A candidate's gossip, read at some point of the execution, lists an eligible member at `e`.
  pub record Vouches (e candidate : Endpoint) : Type 0 where
    pub at : World
    pub reported : List MemberInfo
    pub told :
        gather env
          (gossip_read settings.gossip_timeout (to_hyper_uri settings.secure candidate) at).0
        ≡ members reported
    pub listed : Any (IsEligibleAt e) reported

  abbrev Others : Type 0
  Others = World → Chosen × World

  found-cases :
      (best : Option Endpoint) (others : Others) (w : World) (e : Endpoint)
      → (found env best others w).0 ≡ node e
      → (best ≡ some e) ⊎ ((others w).0 ≡ node e)
  found-cases none others w e h = inr h
  found-cases (some d) others w e h = inl (ground arith)

  -- A member that the candidate reported is chosen, or the loop goes on.
  consider-cases :
      (g : Gathered env) (others : Others) (w : World) (e : Endpoint)
      → (consider env settings.preference g others w).0 ≡ node e
      → ((ms : List MemberInfo) × (g ≡ members ms) × Any (IsEligibleAt e) ms)
        ⊎ ((later : World) × ((others later).0 ≡ node e))
  consider-cases silent others w e h = inr (w, h)
  consider-cases broken others w e h = cc
  consider-cases (members ms) others w e h =
      let (best, w') = determine_best_node env settings.preference ms w in
      elim (found-cases best others w' e h) [
        | inl chosen ↦
            inl (ms, refl, determine_best_node-IsEligibleAt env settings.preference ms w e chosen)
        | inr later ↦ inr (w', later)
      ]

  ask-Vouches :
      (cs : List Endpoint) (w : World) (e : Endpoint)
      → (ask env settings cs w).0 ≡ node e
      → Any (Vouches e) cs
  unfolding ask
  ask-Vouches [] w e h = cc
  ask-Vouches (c ∷ cs) w e h =
      let (reply, w') = gossip_read settings.gossip_timeout (to_hyper_uri settings.secure c) w in
      elim (consider-cases (gather env reply) (ask env settings cs) w' e h) [
        | inl (ms, told, listed) ↦
            inl (record { at = w; reported = ms; told = told; listed = listed })
        | inr (later, rest) ↦ inr (ask-Vouches cs later e rest)
      ]

  -- A node that the selection returns is the endpoint of a member that is alive and neither a manager
  -- nor shutting down, in the gossip that one of the candidates answered within the timeout.
  pub node_selection-Vouches :
      (mode : ClusterMode) (gone : Option Endpoint) (previous : Option (List Member)) (w : World)
      (e : Endpoint)
      → (node_selection env settings mode gone previous w).0 ≡ node e
      → Any (Vouches e) (candidates env settings mode gone previous w).0
  unfolding node_selection
  node_selection-Vouches mode gone previous w e h =
      ask-Vouches (candidates env settings mode gone previous w).0
        (candidates env settings mode gone previous w).1 e h
