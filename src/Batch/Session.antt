-- ===== src/Batch/Session.antt =====
-- commands.rs, `batch_append`: the encoding of the requests, the decoding of the responses, and the
-- task that reads the responses for the loop of `Batch`. The responses are the events of a sequence in
-- which the callers' requests and the rounds of the loop take their turns. `code_from` is
-- `tonic::Code::from`, `from_utf8_lossy` is the library's; `none` is a panic of the decoding.
pub mod Faithful
pub mod Ends
use trogon_event_store_clien.Base.{
  ℕ, ◌+◌, ◌*◌, ◌/◌, ◌%◌, ◌^◌, Bool, true, false, Option, none, some, unwrap_or, List, [], ◌∷◌, ◌++◌,
  Result, ok, err, if◌then◌else◌,
}
use trogon_event_store_clien.Base.Text.{Text}
use trogon_event_store_clien.Base.Int.{ℤ, as_i64}
use trogon_event_store_clien.Uuid.{Uuid, WireUuid, to_wire, try_from}
use trogon_event_store_clien.Position.{Position}
use trogon_event_store_clien.Types.{Duration, StreamState}
use trogon_event_store_clien.Events.{and_then}
use trogon_event_store_clien.Errors.{Error, Code, Status, from_grpc, unsupported_feature}
use trogon_event_store_clien.Features.{ServerInfo, contains, batch_append}
use trogon_event_store_clien.Machine.{Msg, handle_error}
use trogon_event_store_clien.Proposals.{Tracing, ProposedMessage, proposed_messages}
use trogon_event_store_clien.Batch.{
  Req, Response, BatchMsg, input, out, Actor, started, BatchWriteResult,
}
use trogon_event_store_clien.Batch

-- `ExpectedStreamPosition`, of the requests and of the responses.
pub data ExpectedStreamPosition : Type 0 where
  any no_stream stream_exists : ExpectedStreamPosition
  stream_position : ℕ → ExpectedStreamPosition

unfoldable pub expected_of : StreamState → ExpectedStreamPosition
expected_of StreamState.any = any
expected_of StreamState.no_stream = no_stream
expected_of StreamState.stream_exists = stream_exists
expected_of (StreamState.stream_revision rev) = stream_position rev

unfoldable pub state_of : ExpectedStreamPosition → StreamState
state_of any = StreamState.any
state_of no_stream = StreamState.no_stream
state_of stream_exists = StreamState.stream_exists
state_of (stream_position rev) = StreamState.stream_revision rev

pub record WireDeadline : Type 0 where
  pub seconds : ℤ
  pub nanos : ℕ

pub record BatchAppendReq : Type 0 where
  pub correlation_id : Option WireUuid
  pub stream_identifier : Option Text
  pub deadline : Option WireDeadline
  pub expected_stream_position : Option ExpectedStreamPosition
  pub proposed_messages : List ProposedMessage
  pub is_final : Bool

-- The instant `now`, in nanoseconds, and the options' time-out, or else ten seconds.
unfoldable pub deadline_of : ℕ → Option Duration → WireDeadline
deadline_of now deadline =
    let at = now + unwrap_or deadline 10_000 * 1_000_000 in
    record { seconds = as_i64 (at / 1_000_000_000); nanos = at % 1_000_000_000 }

-- The body of the request stream.
unfoldable pub encode : Tracing → (ℕ → Uuid) → ℕ → Option Duration → Req → BatchAppendReq
encode tracing new_v4 now deadline req = record {
  correlation_id = some (to_wire req.id);
  stream_identifier = some req.stream_name;
  deadline = some (deadline_of now deadline);
  expected_stream_position = some (expected_of req.expected_revision);
  proposed_messages = proposed_messages tracing new_v4 0 req.events;
  is_final = true;
}

pub data CurrentRevisionOption : Type 0 where
  current_revision : ℕ → CurrentRevisionOption
  no_stream : CurrentRevisionOption

pub data PositionOption : Type 0 where
  position : Position → PositionOption
  no_position : PositionOption

pub data WireResult : Type 0 where
  success : Option CurrentRevisionOption → Option PositionOption → WireResult
  error : ℤ → Text → WireResult

pub record BatchAppendResp : Type 0 where
  pub correlation_id : Option WireUuid
  pub stream_identifier : Option Text
  pub expected_stream_position : Option ExpectedStreamPosition
  pub result : Option WireResult

abbrev pub revision_of : CurrentRevisionOption → Option ℕ
revision_of (current_revision rev) = some rev
revision_of no_stream = none

abbrev pub position_of : PositionOption → Option Position
position_of (position pos) = some pos
position_of no_position = none

abbrev expected_version : Option ExpectedStreamPosition → Option StreamState
expected_version none = none
expected_version (some e) = some (state_of e)

-- The loop with its mailbox, the task that reads (`is_reading`), and what that reported.
pub record System : Type 0 where
  pub actor : Actor
  pub mailbox : List BatchMsg
  pub is_reading : Bool
  pub reported : List (Option Msg)

-- What happens: a caller's request is sent to the loop; the task has the next result of its stream
-- (`none` at the end), or the call that opens it has failed; the loop takes its next message, and
-- `forward.send` reaches the request stream or not.
pub data Event : Type 0 where
  append : Req → ℕ → Event
  next : Result Status (Option BatchAppendResp) → Event
  refused : Status → Event
  serve : Bool → Event

abbrev pub opened : System
opened = record { actor = started; mailbox = []; is_reading = true; reported = [] }

-- A send fails once the loop has ended.
abbrev pub send : BatchMsg → System → System
send msg s = if s.actor.is_running then record s { mailbox = s.mailbox ++ msg ∷ [] } else s

abbrev pub stop : System → System
stop s = record s { is_reading = false }

abbrev pub deliver : Option (Uuid × Response) → System → System
deliver none s = stop s
deliver (some (id, r)) s = if s.actor.is_running then send (out id r) s else stop s

abbrev pub fail : Uuid → Error → System → System
fail channel_id e s =
    stop (
      send (BatchMsg.error e)
        (record s { reported = s.reported ++ handle_error channel_id e ∷ [] }))

abbrev pub with_forward : Bool → BatchMsg → BatchMsg
with_forward forwarded (input req caller b) = input req caller forwarded
with_forward forwarded (out id r) = out id r
with_forward forwarded (BatchMsg.error e) = BatchMsg.error e

abbrev pub serve_next : Bool → List BatchMsg → System → System
serve_next forwarded [] s = s
serve_next forwarded (msg ∷ rest) s = record s {
  actor = Batch.step s.actor (with_forward forwarded msg);
  mailbox = rest;
}

module _ (code_from : ℤ → Code) (from_utf8_lossy : Text → Text)
    (parse_uuid : Text → Option Uuid) where
  abbrev result_of : Text → Option ExpectedStreamPosition → WireResult → Response
  result_of stream_name expected (success revision pos) = ok (record {
    stream_name = stream_name;
    current_revision = and_then revision revision_of;
    current_position = and_then pos position_of;
    stream_state = expected_version expected;
  })
  result_of stream_name expected (error code message) = err (Error.grpc (code_from code) message)

  -- The closure of `map_ok`.
  unfoldable pub decode : BatchAppendResp → Option (Uuid × Response)
  decode resp = and_then resp.stream_identifier (λ name.
      and_then (and_then resp.correlation_id (try_from parse_uuid)) (λ id.
        and_then resp.result (λ result.
          some (id, result_of (from_utf8_lossy name) resp.expected_stream_position result))))

module _ (code_from : ℤ → Code) (from_utf8_lossy : Text → Text) (parse_uuid : Text → Option Uuid)
    (status_to_string : Status → Text) where
  -- One iteration of the reading task.
  abbrev pub read : Uuid → Result Status (Option BatchAppendResp) → System → System
  read channel_id (err status) s = fail channel_id (from_grpc status_to_string status) s
  read channel_id (ok none) s = stop s
  read channel_id (ok (some resp)) s = deliver (decode code_from from_utf8_lossy parse_uuid resp) s

  unfoldable pub step : Uuid → System → Event → System
  step channel_id s (append req caller) = send (input req caller true) s
  step channel_id s (next result) = if s.is_reading then read channel_id result s else s
  step channel_id s (refused status) =
      if s.is_reading then stop (send (BatchMsg.error (from_grpc status_to_string status)) s) else s
  step channel_id s (serve forwarded) =
      if s.actor.is_running then serve_next forwarded s.mailbox s else s

  unfoldable pub run : Uuid → System → List Event → System
  run channel_id s [] = s
  run channel_id s (e ∷ es) = run channel_id (step channel_id s e) es

-- The guard of `batch_append`: a node without the feature is refused.
unfoldable pub check_node : ServerInfo → Result Error ServerInfo
check_node info = if contains info.features batch_append then ok info else err unsupported_feature
