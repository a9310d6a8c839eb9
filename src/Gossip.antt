-- ===== src/Gossip.antt =====
-- operations/gossip.rs: the members that a node's gossip endpoint reports, and `read`, which decodes
-- the wire message (event_store/generated/gossip.rs). A wire member whose identifier is a malformed
-- text makes `try_into().unwrap()` panic: that outcome is `panic`. The metadata of the call, which panic on
-- a connection name that is no header value (`build_request_metadata` of `Request`), are left out.
pub mod Decoding
use trogon_event_store_clien.Base.{
  ℕ, Bool, Option, none, some, List, [], ◌∷◌, ◌++◌, Result, ok, err, ◌>>=◌, ◌==◌, if◌then◌else◌,
}
use trogon_event_store_clien.Base.Int.{ℤ, pos, negsuc, show_ℤ}
use trogon_event_store_clien.Base.Text.{Text, codes}
use trogon_event_store_clien.Uuid.{Uuid, nil, WireUuid, try_from}
use trogon_event_store_clien.Types.{Endpoint}
use trogon_event_store_clien.Errors.{Code, Status, out_of_range, failed_precondition}

pub data VNodeState : Type 0 where
  initializing discover_leader unknown pre_replica catching_up clone : VNodeState
  follower pre_leader leader manager shutting_down shutdown : VNodeState
  read_only_leader_less pre_read_only_replica read_only_replica resigning_leader : VNodeState

-- `match value { 0 => …, … }` on the numbers from 0 up.
by_number : ℕ → Option VNodeState
by_number n =
    if n == 0
    then some initializing
    else if n == 1
    then some discover_leader
    else if n == 2
    then some unknown
    else if n == 3
    then some pre_replica
    else if n == 4
    then some catching_up
    else if n == 5
    then some clone
    else if n == 6
    then some follower
    else if n == 7
    then some pre_leader
    else if n == 8
    then some leader
    else if n == 9
    then some manager
    else if n == 10
    then some shutting_down
    else if n == 11
    then some shutdown
    else if n == 12
    then some read_only_leader_less
    else if n == 13
    then some pre_read_only_replica
    else if n == 14
    then some read_only_replica
    else if n == 15
    then some resigning_leader
    else none

unfoldable pub from_i32 : ℤ → Option VNodeState
unfolding by_number
from_i32 (pos n) = by_number n
from_i32 (negsuc n) = none

-- The wire's `EndPoint` and `MemberInfo`.
pub record WireEndpoint : Type 0 where
  pub address : Text
  pub port : ℕ

pub record WireMember : Type 0 where
  pub instance_id : Option WireUuid
  pub time_stamp : ℤ
  pub state : ℤ
  pub is_alive : Bool
  pub http_end_point : Option WireEndpoint

pub record MemberInfo : Type 0 where
  pub instance_id : Uuid
  pub time_stamp : ℤ
  pub state : VNodeState
  pub is_alive : Bool
  pub http_end_point : Endpoint
  pub last_commit_position : ℤ
  pub writer_checkpoint : ℤ
  pub chaser_checkpoint : ℤ
  pub epoch_position : ℤ
  pub epoch_number : ℤ
  pub epoch_id : Uuid
  pub node_priority : ℤ

pub data Failure : Type 0 where
  refused : Status → Failure
  panic : Failure

-- `Status::new(code, message)`, which has no metadata.
abbrev pub status : Code → Text → Status
status code message = record { code = code; message = message; metadata = λ key. none }

abbrev known_state : ℤ → Option VNodeState → Result Failure VNodeState
known_state v none =
    err (refused (status out_of_range (codes "Unknown VNodeState value: " ++ show_ℤ v)))
known_state v (some s) = ok s

abbrev unwrap_id : Option Uuid → Result Failure Uuid
unwrap_id none = err panic
unwrap_id (some id) = ok id

abbrev member_id : (Text → Option Uuid) → Option WireUuid → Result Failure Uuid
member_id parse none = ok nil
member_id parse (some u) = unwrap_id (try_from parse u)

abbrev defined_endpoint : Option WireEndpoint → Result Failure Endpoint
defined_endpoint none =
    err (refused (status failed_precondition (codes "MemberInfo endpoint must be defined")))
defined_endpoint (some e) = ok (record { host = e.address; port = e.port })

-- One round of the loop of `read`.
unfoldable pub decode : (Text → Option Uuid) → WireMember → Result Failure MemberInfo
decode parse w = do
  state ← known_state w.state (from_i32 w.state)
  instance_id ← member_id parse w.instance_id
  http_end_point ← defined_endpoint w.http_end_point
  ok (record {
    instance_id = instance_id;
    time_stamp = w.time_stamp;
    state = state;
    is_alive = w.is_alive;
    http_end_point = http_end_point;
    last_commit_position = pos 0;
    writer_checkpoint = pos 0;
    chaser_checkpoint = pos 0;
    epoch_position = pos 0;
    epoch_number = pos 0;
    epoch_id = nil;
    node_priority = pos 0;
  })

-- `read` on the members of an answer: the first member that fails ends it.
unfoldable pub read : (Text → Option Uuid) → List WireMember → Result Failure (List MemberInfo)
read parse [] = ok []
read parse (w ∷ ws) = do m ← decode parse w; ms ← read parse ws; ok (m ∷ ms)
