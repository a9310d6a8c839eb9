-- ===== src/Gossip/Decoding.antt =====
-- What `read` of operations/gossip.rs makes of a wire message, told by a relation between wire
-- members and members, and the wire numbers of the states.
use trogon_event_store_clien.Base.{ℕ, ◌≡◌, ◌↔◌, Option, none, some, List, [], ◌∷◌, ok, arith}
use trogon_event_store_clien.Base.Int.{ℤ, pos}
use trogon_event_store_clien.Base.Text.{Text}
use trogon_event_store_clien.Uuid.{Uuid, nil, WireUuid, try_from}
use trogon_event_store_clien.Gossip.{
  VNodeState, initializing, discover_leader, unknown, pre_replica, catching_up, clone, follower,
  pre_leader, leader, manager, shutting_down, shutdown, read_only_leader_less,
  pre_read_only_replica, read_only_replica, resigning_leader, from_i32, WireMember, MemberInfo,
  decode, read,
}

-- The numbers of the states on the wire.
unfoldable pub wire_number : VNodeState → ℕ
wire_number initializing = 0
wire_number discover_leader = 1
wire_number unknown = 2
wire_number pre_replica = 3
wire_number catching_up = 4
wire_number clone = 5
wire_number follower = 6
wire_number pre_leader = 7
wire_number leader = 8
wire_number manager = 9
wire_number shutting_down = 10
wire_number shutdown = 11
wire_number read_only_leader_less = 12
wire_number pre_read_only_replica = 13
wire_number read_only_replica = 14
wire_number resigning_leader = 15

-- A number is read as a state exactly when it is that state's number on the wire.
pub from_i32_iff : (v : ℤ) (s : VNodeState) → (from_i32 v ≡ some s) ↔ (v ≡ pos (wire_number s))
unfolding from_i32 wire_number
from_i32_iff v s = (ground arith, ground arith)

abbrev HasId : (Text → Option Uuid) → Option WireUuid → Uuid → Type 0
HasId parse none id = id ≡ nil
HasId parse (some u) id = try_from parse u ≡ some id

-- The member says what the wire member says.
pub record Decodes (parse : Text → Option Uuid) (w : WireMember) (m : MemberInfo) : Type 0 where
  pub known : w.state ≡ pos (wire_number m.state)
  pub identified : HasId parse w.instance_id m.instance_id
  pub alive : m.is_alive ≡ w.is_alive
  pub stamped : m.time_stamp ≡ w.time_stamp
  pub placed :
      w.http_end_point
      ≡ some (record { address = m.http_end_point.host; port = m.http_end_point.port })

abbrev pub DecodesAll : (Text → Option Uuid) → List WireMember → List MemberInfo → Type 0
DecodesAll parse [] [] = Unit {0}
DecodesAll parse [] (m ∷ ms) = ⊥
DecodesAll parse (w ∷ ws) [] = ⊥
DecodesAll parse (w ∷ ws) (m ∷ ms) = Decodes parse w m × DecodesAll parse ws ms

decode-Decodes :
    (parse : Text → Option Uuid) (w : WireMember) (m : MemberInfo)
    → decode parse w ≡ ok m
    → Decodes parse w m
unfolding decode
decode-Decodes parse w m h = ground (arith, from_i32_iff w.state m.state)

-- An answer that is read holds one member for each wire member, in the same order, with the state
-- that its number means, its liveness, its time, its endpoint and its identifier.
pub read-DecodesAll :
    (parse : Text → Option Uuid) (ws : List WireMember) (ms : List MemberInfo)
    → read parse ws ≡ ok ms
    → DecodesAll parse ws ms
unfolding read
read-DecodesAll parse [] [] h = tt
read-DecodesAll parse [] (m ∷ ms) h = cc
read-DecodesAll parse (w ∷ ws) [] h = ground arith
read-DecodesAll parse (w ∷ ws) (m ∷ ms) h =
    (decode-Decodes parse w m (ground arith), read-DecodesAll parse ws ms (ground arith))
