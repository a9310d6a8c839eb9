-- ===== src/Tests/Client.antt =====
-- Runs of the theorems on the choice of a node, the connection, its state machine and its calls. The
-- outside here counts random numbers up, shuffles nothing, knows no features, and lets each node
-- report one member, the leader `b`.
use trogon_event_store_clien.Base.{
  ℕ, suc, ◌≡◌, ◌↔◌, refl, Result, err, sym, subst, if◌then◌else◌, inl, inr, true, false, none, some,
  List, [], ◌∷◌, Any, All, arith,
}
use trogon_event_store_clien.Base.Text.{codes, text_eq}
use trogon_event_store_clien.Base.Decimal.{show, parse_uint, parse_digits}
use trogon_event_store_clien.Base.Int.{pos}
use trogon_event_store_clien.Types.{Endpoint, NodePreference}
use trogon_event_store_clien.Errors.{Status, Code, not_leader_exception, from_grpc, leader_of}
use trogon_event_store_clien.Gossip.{VNodeState, WireMember, MemberInfo, read, from_i32, decode}
use trogon_event_store_clien.Features.{default_info}
use trogon_event_store_clien.Settings.{ClientSettings, default, to_hyper_uri}
use trogon_event_store_clien.Env.{Env, answered, failed}
use trogon_event_store_clien.Selection.{
  seeds, candidates, node_selection, determine_best_node, eligible, filter_eligible, allowed_states,
  min_by, compare_members, match_preference, ask,
}
use trogon_event_store_clien.Selection.Best.{
  IsPreferredAt, determine_best_node-IsPreferredAt, determine_best_node-none_iff,
}
use trogon_event_store_clien.Selection.Nodes.{Vouches, node_selection-Vouches}
use trogon_event_store_clien.Connection.{HandleInfo, NodeConnection, next}
use trogon_event_store_clien.Connection.Total.{
  Ends, IsAnswered, IsSynced, IsHandleOf, next-IsAnswered,
}
use trogon_event_store_clien.Connection.Attempts.{HasFailed, next-HasFailed}
use trogon_event_store_clien.Machine.{
  Handle, handle_of, Machine, Msg, get_channel, create_channel, started, step, run, handle_error,
}
use trogon_event_store_clien.GrpcClient.{answer_to, current_selected_node, execute_among}
use trogon_event_store_clien.GrpcClient.Reports.{Completes, execute_among-IsReported}
use trogon_event_store_clien.GrpcClient.Calls.{Returns, IsGiven, current_selected_node-IsGiven}
use trogon_event_store_clien.Machine.Links.{IsLinked, Settles, run-IsLinked}
use trogon_event_store_clien.Machine.Answers.{IsServed, run-IsServed}
use trogon_event_store_clien.Machine.Leader.{IsAt, Reported, handle_error-IsAt, step-idle}

abbrev a : Endpoint
a = record { host = codes "a"; port = 1 }

abbrev b : Endpoint
b = record { host = codes "b"; port = 2 }

abbrev reported : VNodeState → Endpoint → MemberInfo
reported state e = record {
  instance_id = 0;
  time_stamp = pos 0;
  state = state;
  is_alive = true;
  http_end_point = e;
  last_commit_position = pos 0;
  writer_checkpoint = pos 0;
  chaser_checkpoint = pos 0;
  epoch_position = pos 0;
  epoch_number = pos 0;
  epoch_id = 0;
  node_priority = pos 0;
}

abbrev members : List MemberInfo
members = reported VNodeState.follower a ∷ reported VNodeState.leader b ∷ []

abbrev wire_leader : WireMember
wire_leader = record {
  instance_id = none;
  time_stamp = pos 0;
  state = pos 8;
  is_alive = true;
  http_end_point = some (record { address = codes "b"; port = 2 });
}

abbrev unimplemented : Status
unimplemented = record { code = Code.unimplemented; message = []; metadata = λ key. none }

abbrev env : Env
env = record {
  World = ℕ;
  next_u32 = λ w. (w, suc w);
  shuffle = λ A xs w. (xs, w);
  new_v4 = λ w. (suc w, suc w);
  sleep = λ d w. w;
  get_supported_methods = λ d uri w. (failed unimplemented, w);
  gossip_read = λ d uri w. (answered (wire_leader ∷ []), w);
  parse_uuid = λ s. none;
  status_to_string = λ s. s.message;
}

determine_best_node-IsPreferredAt_example :
    (e : Endpoint) × ((determine_best_node env NodePreference.leader members 0).0 ≡ some e)
    × Any (IsPreferredAt NodePreference.leader e) members
unfolding allowed_states match_preference
determine_best_node-IsPreferredAt_example =
    determine_best_node-IsPreferredAt env NodePreference.leader members 0 (λ e. cc)
      (inr (inl (refl, refl)))

determine_best_node-none_iff_example :
    ((determine_best_node env NodePreference.leader members 0).0 ≡ none)
    ↔ All (λ m. eligible m ≡ false) members
determine_best_node-none_iff_example =
    determine_best_node-none_iff env NodePreference.leader members 0

node_selection-Vouches_example :
    Any (Vouches env default b) (candidates env default (seeds (a ∷ b ∷ [])) none none 0).0
unfolding node_selection candidates ask read from_i32 decode determine_best_node filter_eligible
    allowed_states min_by compare_members match_preference
node_selection-Vouches_example =
    node_selection-Vouches env default (seeds (a ∷ b ∷ [])) none none 0 b refl

abbrev settings : ℕ → ClientSettings
settings attempts = record default { hosts = a ∷ []; max_discover_attempts = attempts }

abbrev connection : ℕ → NodeConnection
connection attempts = record {
  id = 0;
  handle = none;
  settings = settings attempts;
  cluster_mode = none;
  previous_candidates = none;
}

connection-IsSynced : IsSynced (connection 3)
unfolding IsSynced
connection-IsSynced h e = cc

next-IsAnswered_example : Ends env (IsAnswered (settings 3) none) (next env (connection 3) none 0)
next-IsAnswered_example = next-IsAnswered env (connection 3) none 0 connection-IsSynced

next-HasFailed_example : Ends env HasFailed (next env (connection 1) none 0)
next-HasFailed_example = next-HasFailed env (connection 1) 0 refl (omega arith)

started-IsLinked : IsLinked (started (connection 3))
started-IsLinked = record { same_handle = λ on. refl; synced = connection-IsSynced }

abbrev messages : List Msg
messages = get_channel 4 ∷ create_channel 0 (some b) ∷ get_channel 5 ∷ []

run-IsLinked_example : Settles env IsLinked (run env (started (connection 3)) messages 0)
run-IsLinked_example = run-IsLinked env (started (connection 3)) messages 0 started-IsLinked

run-IsServed_example :
    Settles env (IsServed [] messages) (run env (started (connection 3)) messages 0)
run-IsServed_example = run-IsServed env (started (connection 3)) messages 0 started-IsLinked

abbrev moved : Status
moved = record {
  code = Code.not_found;
  message = [];
  metadata = λ key.
      if text_eq key (codes "exception")
      then some (some (codes "not-leader"))
      else if text_eq key (codes "leader-endpoint-host")
      then some (some (codes "b"))
      else if text_eq key (codes "leader-endpoint-port")
      then some (some (codes "2"))
      else none;
}

moved-leader : from_grpc env.status_to_string moved ≡ not_leader_exception b
unfolding from_grpc leader_of text_eq parse_uint parse_digits
moved-leader = refl

handle_error-IsAt_example :
    Reported env
      (handle_error 0 (from_grpc env.status_to_string moved))
      (IsAt b default_info)
      (started (connection 3))
      0
handle_error-IsAt_example =
    handle_error-IsAt env (started (connection 3)) moved b default_info 0 moved-leader refl

abbrev info : HandleInfo
info = record {
  id = 6;
  uri = codes "https://a:1";
  endpoint = a;
  secure = true;
  server_info = default_info;
}

abbrev running : Machine
running = record (started (record (connection 3) { id = 6; handle = some info })) {
  handle = some (handle_of info);
}

idle_uri : to_hyper_uri true a ≡ codes "https://a:1"
unfolding to_hyper_uri show
idle_uri = refl

running-IsLinked : IsLinked running
unfolding IsSynced default
running-IsLinked = record {
  same_handle = λ on. refl;
  synced = λ h e.
      let same : info ≡ h = cc in
      subst (IsHandleOf running.connection) same
        (record { same_id = refl; same_scheme = refl; same_uri = sym idle_uri });
}

step-idle_example : step env running (create_channel 6 none) 0 ≡ some (running, 0)
step-idle_example =
    step-idle env running (create_channel 6 none) (handle_of info) 0 running-IsLinked refl refl tt

abbrev refused_action : Handle → Result Status ℕ
refused_action h = err moved

fresh_tag : answer_to 8 (started (connection 3)).answers ≡ none
unfolding answer_to
fresh_tag = refl

current_selected_node-IsGiven_example :
    Returns env
      (λ r m'. IsGiven r m' × IsLinked m')
      (current_selected_node env 8 (started (connection 3)) 0)
current_selected_node-IsGiven_example =
    current_selected_node-IsGiven env 8 (started (connection 3)) 0 started-IsLinked fresh_tag

-- Another operation reports the same connection first, so that the machine has moved on.
execute_among-IsReported_example :
    Completes env refused_action 8 (started (connection 3)) 0 (
      execute_among env refused_action
        (create_channel 1 (some a) ∷ [])
        8
        (started (connection 3))
        0)
execute_among-IsReported_example =
    execute_among-IsReported env refused_action 8 (started (connection 3)) 0
      (create_channel 1 (some a) ∷ []) started-IsLinked fresh_tag
