-- ===== src/Selection.antt =====
-- grpc.rs, the choice of a node: `determine_best_node` among the members that a node reports, and
-- `node_selection`, which asks the candidates in turn. A member whose identifier makes the decoding
-- panic ends the selection with `aborted`.
pub mod Best
pub mod Nodes
use trogon_event_store_clien.Base.{
  ℕ, ◌%◌, Bool, true, false, not, ◌&&◌, Option, none, some, List, [], ◌∷◌, ◌++◌, map, Result, ok,
  err, Ordering, ◌==◌, if◌then◌else◌,
}
use trogon_event_store_clien.Base.Text.{Text, text_eq}
use trogon_event_store_clien.Types.{
  Endpoint, NodePreference, leader, follower, random, read_only_replica,
}
use trogon_event_store_clien.Gossip.{
  VNodeState, WireMember, MemberInfo, manager, shutting_down, shutdown, Failure, refused, panic,
  read,
}
use trogon_event_store_clien.Settings.{ClientSettings, to_hyper_uri}
use trogon_event_store_clien.Env.{Env, Reply, timeout, failed, answered}

-- `NodePreference::match_preference` (types.rs).
unfoldable pub match_preference : NodePreference → VNodeState → Bool
match_preference leader VNodeState.leader = true
match_preference follower VNodeState.follower = true
match_preference read_only_replica VNodeState.read_only_replica = true
match_preference read_only_replica VNodeState.read_only_leader_less = true
match_preference read_only_replica VNodeState.pre_read_only_replica = true
match_preference _ _ = false

abbrev is_random : NodePreference → Bool
is_random random = true
is_random _ = false

unfoldable pub allowed_states : VNodeState → Bool
allowed_states manager = false
allowed_states shutting_down = false
allowed_states shutdown = false
allowed_states _ = true

-- The two filters of `determine_best_node`.
abbrev pub eligible : MemberInfo → Bool
eligible m = m.is_alive && allowed_states m.state

unfoldable pub filter_eligible : List MemberInfo → List MemberInfo
filter_eligible [] = []
filter_eligible (m ∷ ms) = let rest = filter_eligible ms in if eligible m then m ∷ rest else rest

-- `Member` and `ClusterMode`; a DNS cluster is its one endpoint.
pub record Member : Type 0 where
  pub endpoint : Endpoint
  pub state : VNodeState

pub data ClusterMode : Type 0 where
  dns : Endpoint → ClusterMode
  seeds : List Endpoint → ClusterMode

abbrev endpoint_eq : Endpoint → Endpoint → Bool
endpoint_eq a b = text_eq a.host b.host && a.port == b.port

-- The filter of `candidates_from_old_gossip`.
without : Option Endpoint → List Member → List Member
without none ms = ms
without (some e) [] = []
without (some e) (m ∷ ms) =
    let rest = without (some e) ms in if endpoint_eq m.endpoint e then rest else m ∷ rest

is_manager : VNodeState → Bool
is_manager manager = true
is_manager _ = false

-- `Candidates`, with `push` for each member in turn.
pub record Candidates : Type 0 where
  pub nodes : List Member
  pub managers : List Member

push_all : List Member → Candidates → Candidates
unfolding is_manager
push_all [] c = c
push_all (m ∷ ms) c = push_all ms (
    if is_manager m.state
    then record c { managers = c.managers ++ m ∷ [] }
    else record c { nodes = c.nodes ++ m ∷ [] })

endpoints : Candidates → List Endpoint
endpoints c = map (λ m. m.endpoint) (c.nodes ++ c.managers)

-- What a selection ends with.
pub data Chosen : Type 0 where
  node : Endpoint → Chosen
  nobody : Chosen
  aborted : Chosen

-- `Iterator::min_by` keeps the earlier of the two unless the comparison says `Greater`.
abbrev pub keep : Ordering → MemberInfo → MemberInfo → MemberInfo
keep Ordering.gt x y = y
keep Ordering.eq x y = x
keep Ordering.lt x y = x

module _ (env : Env) where
  open env use {World, next_u32, shuffle, gossip_read, parse_uuid}

  -- The closure that `min_by` compares with.
  unfoldable pub compare_members :
      NodePreference → MemberInfo → MemberInfo → World → Ordering × World
  compare_members preference a b w =
      let (n, w') = next_u32 w in
      let even = n % 2 == 0 in
      if is_random preference
      then (if even then Ordering.gt else Ordering.lt, w')
      else if match_preference preference a.state && match_preference preference b.state
      then (if even then Ordering.lt else Ordering.gt, w')
      else if match_preference preference a.state && not (match_preference preference b.state)
      then (Ordering.lt, w)
      else if not (match_preference preference a.state) && match_preference preference b.state
      then (Ordering.gt, w)
      else (Ordering.gt, w)

  unfoldable pub min_by : NodePreference → MemberInfo → List MemberInfo → World → MemberInfo × World
  min_by preference x [] w = (x, w)
  min_by preference x (y ∷ ys) w =
      let (o, w') = compare_members preference x y w in min_by preference (keep o x y) ys w'

  best_of : NodePreference → List MemberInfo → World → Option Endpoint × World
  best_of preference [] w = (none, w)
  best_of preference (x ∷ xs) w =
      let (m, w') = min_by preference x xs w in (some m.http_end_point, w')

  unfoldable pub determine_best_node :
      NodePreference → List MemberInfo → World → Option Endpoint × World
  unfolding best_of
  determine_best_node preference members w = best_of preference (filter_eligible members) w

  -- `candidates_from_old_gossip` with `arrange_gossip_candidates`.
  unfoldable pub candidates_from_old_gossip :
      Option Endpoint → List Member → World → List Endpoint × World
  unfolding without push_all endpoints
  candidates_from_old_gossip failed_endpoint old w =
      let c = push_all (without failed_endpoint old) (record { nodes = []; managers = [] }) in
      let (nodes, w₁) = shuffle Member c.nodes w in
      let (managers, w₂) = shuffle Member c.managers w₁ in
      (endpoints (record { nodes = nodes; managers = managers }), w₂)

  abbrev seeds_of : ClusterMode → List Endpoint
  seeds_of (seeds es) = es
  seeds_of (dns e) = e ∷ []

  abbrev or_hosts : ClientSettings → List Endpoint → List Endpoint
  or_hosts settings [] = settings.hosts
  or_hosts settings (e ∷ es) = e ∷ es

  -- The candidates to ask, in order.
  unfoldable pub candidates :
      ClientSettings
      → ClusterMode
      → Option Endpoint
      → Option (List Member)
      → World
      → List Endpoint × World
  candidates settings mode failed_endpoint (some old) w =
      let (new, w') = candidates_from_old_gossip failed_endpoint old w in
      (or_hosts settings new, w')
  candidates settings mode failed_endpoint none w = shuffle Endpoint (seeds_of mode) w

  -- What the call to a candidate leaves to choose from: a timeout, a failed call and an answer that
  -- is refused are logged only.
  pub data Gathered : Type 0 where
    silent : Gathered
    members : List MemberInfo → Gathered
    broken : Gathered

  abbrev pub gathered_of : Result Failure (List MemberInfo) → Gathered
  gathered_of (ok ms) = members ms
  gathered_of (err (refused s)) = silent
  gathered_of (err panic) = broken

  abbrev pub gather : Reply (List WireMember) → Gathered
  gather timeout = silent
  gather (failed s) = silent
  gather (answered ws) = gathered_of (read parse_uuid ws)

  abbrev pub found : Option Endpoint → (World → Chosen × World) → World → Chosen × World
  found (some e) others w = (node e, w)
  found none others w = others w

  abbrev pub consider :
      NodePreference → Gathered → (World → Chosen × World) → World → Chosen × World
  consider preference silent others w = others w
  consider preference broken others w = (aborted, w)
  consider preference (members ms) others w =
      let (best, w') = determine_best_node preference ms w in found best others w'

  -- The loop over the candidates.
  unfoldable pub ask : ClientSettings → List Endpoint → World → Chosen × World
  ask settings [] w = (nobody, w)
  ask settings (c ∷ cs) w =
      let (reply, w') = gossip_read settings.gossip_timeout (to_hyper_uri settings.secure c) w in
      consider settings.preference (gather reply) (ask settings cs) w'

  -- `node_selection`. It takes the previous candidates out of the connection and puts none back.
  unfoldable pub node_selection :
      ClientSettings
      → ClusterMode
      → Option Endpoint
      → Option (List Member)
      → World
      → Chosen × Option (List Member) × World
  node_selection settings mode failed_endpoint previous w =
      let (es, w₁) = candidates settings mode failed_endpoint previous w in
      let (chosen, w₂) = ask settings es w₁ in (chosen, none, w₂)
