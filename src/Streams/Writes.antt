-- ===== src/Streams/Writes.antt =====
-- commands.rs: `append_to_stream`, `delete_stream`, `tombstone_stream`, `read_stream` and `read_all`,
-- and the conversions of what they get (event_store/generated.rs). The calls of the server (`tonic`) are
-- arguments; `none` inside a call's result is a panic.
use trogon_event_store_clien.Base.{ℕ, Option, none, some, List, ◌∷◌, map, Result, ok, err}
use trogon_event_store_clien.Base.Text.{Text}
use trogon_event_store_clien.Uuid.{Uuid}
use trogon_event_store_clien.Position.{Position}
use trogon_event_store_clien.Position
use trogon_event_store_clien.Types.{StreamState, CurrentRevision}
use trogon_event_store_clien.Errors.{Error, Status, wrong_expected_version}
use trogon_event_store_clien.Settings.{ClientSettings}
use trogon_event_store_clien.Request.{OperationKind, CommonOperationOptions}
use trogon_event_store_clien.Machine.{Handle, Machine, Msg}
use trogon_event_store_clien.Env.{Env}
use trogon_event_store_clien.GrpcClient.{Executed, Called, execute}
use trogon_event_store_clien.Events.{and_then}
use trogon_event_store_clien.Proposals.{EventData, ProposedMessage, Tracing, proposed_messages}
use trogon_event_store_clien.Streams.{
  GrpcRequest, Headers, new_request, ReadOptions, ReadStreamOptions, ReadAllOptions,
  read_stream_options, read_all_options,
}
use trogon_event_store_clien.Streams.Reading.{Streaming}

-- The expected revision, of an append and of a delete.
pub data ExpectedStreamRevision : Type 0 where
  any no_stream stream_exists : ExpectedStreamRevision
  revision : ℕ → ExpectedStreamRevision

unfoldable pub expected_revision : StreamState → ExpectedStreamRevision
expected_revision StreamState.any = any
expected_revision StreamState.no_stream = no_stream
expected_revision StreamState.stream_exists = stream_exists
expected_revision (StreamState.stream_revision rev) = revision rev

pub data AppendReq : Type 0 where
  header : Text → ExpectedStreamRevision → AppendReq
  proposed : ProposedMessage → AppendReq

-- The stream of an append: a header, then a message for each event.
unfoldable pub append_payload :
    Tracing → (ℕ → Uuid) → Text → ExpectedStreamRevision → List EventData → List AppendReq
append_payload tracing new_v4 name version events =
    header name version ∷ map proposed (proposed_messages tracing new_v4 0 events)

pub data AppendRevision : Type 0 where
  current_revision : ℕ → AppendRevision
  no_stream : AppendRevision

pub data PositionOption : Type 0 where
  position : Position → PositionOption
  no_position : PositionOption

pub data AppendResult : Type 0 where
  success : Option AppendRevision → Option PositionOption → AppendResult
  wrong_version : Option AppendRevision → Option ExpectedStreamRevision → AppendResult

pub record WriteResult : Type 0 where
  pub next_expected_version : ℕ
  pub position : Position

abbrev next_version : AppendRevision → ℕ
next_version (current_revision rev) = rev
next_version no_stream = 0

abbrev position_or_start : PositionOption → Position
position_or_start (position pos) = pos
position_or_start no_position = Position.start

-- `From<Success> for WriteResult`.
unfoldable pub write_result : Option AppendRevision → Option PositionOption → Option WriteResult
write_result rev pos = and_then rev (λ r.
    and_then pos (λ p.
      some (record { next_expected_version = next_version r; position = position_or_start p })))

abbrev current_of : AppendRevision → CurrentRevision
current_of (current_revision rev) = CurrentRevision.current rev
current_of no_stream = CurrentRevision.no_stream

abbrev state_of : ExpectedStreamRevision → StreamState
state_of any = StreamState.any
state_of no_stream = StreamState.no_stream
state_of stream_exists = StreamState.stream_exists
state_of (revision rev) = StreamState.stream_revision rev

-- `From<WrongExpectedVersion> for Error`.
unfoldable pub wrong_version_error :
    Option AppendRevision → Option ExpectedStreamRevision → Option Error
wrong_version_error current expected =
    and_then current
      (λ c. and_then expected (λ e. some (wrong_expected_version (state_of e) (current_of c))))

abbrev succeeded : Option WriteResult → Option (Result Error WriteResult)
succeeded none = none
succeeded (some w) = some (ok w)

abbrev rejected : Option Error → Option (Result Error WriteResult)
rejected none = none
rejected (some e) = some (err e)

-- The end of `append_to_stream`.
unfoldable pub append_result : AppendResult → Option (Result Error WriteResult)
append_result (success rev pos) = succeeded (write_result rev pos)
append_result (wrong_version current expected) = rejected (wrong_version_error current expected)

abbrev pub deleted_at : Option PositionOption → Option Position
deleted_at none = none
deleted_at (some (position pos)) = some pos
deleted_at (some no_position) = none

-- The calls, each with the answer's part that is read: `AppendResp`, `DeleteResp` and `TombstoneResp`,
-- and the responses of a read.
pub record Server : Type 0 where
  pub append : Handle → GrpcRequest (List AppendReq) → Result Status (Option AppendResult)
  pub delete :
      Handle → GrpcRequest (Text × ExpectedStreamRevision) → Result Status (Option PositionOption)
  pub tombstone :
      Handle → GrpcRequest (Text × ExpectedStreamRevision) → Result Status (Option PositionOption)
  pub read : Handle → GrpcRequest ReadOptions → Result Status Streaming

module _ {A B : Type 0} where
  abbrev pub mapped : (A → B) → Result Status A → Result Status B
  mapped f (err status) = err status
  mapped f (ok a) = ok (f a)

module _ {A : Type 0} where
  -- An answer that is an error of its own is one of the command's.
  abbrev flat_result : Result Error (Option (Result Error A)) → Option Msg → Option (Executed A)
  flat_result (err e) sent = some (record { result = err e; sent = sent })
  flat_result (ok none) sent = none
  flat_result (ok (some r)) sent = some (record { result = r; sent = sent })

  abbrev pub flat : Executed (Option (Result Error A)) → Option (Executed A)
  flat e = flat_result e.result e.sent

module _ (env : Env) (server : Server) (headers : Headers) (settings : ClientSettings) where
  open env use {World}

  abbrev pub Command : Type 0 → Type 0
  Command A = ℕ → Machine → World → Called env (Option (Executed A))

  module _ {A : Type 0} where
    abbrev whole : Called env (Executed A) → Called env (Option (Executed A))
    whole none = none
    whole (some (e, m, w)) = some (some e, m, w)

    abbrev flattened :
        Called env (Executed (Option (Result Error A))) → Called env (Option (Executed A))
    flattened none = none
    flattened (some (e, m, w)) = some (flat e, m, w)

    -- A request that is made before the node is chosen.
    abbrev with_request :
        {M : Type 0}
        → Option (GrpcRequest M)
        → (GrpcRequest M → Handle → Result Status A)
        → Command A
    with_request none action tag m w = some (none, m, w)
    with_request (some req) action tag m w = whole (execute env (action req) tag m w)

  -- The request is made once the node is chosen.
  abbrev append_action :
      CommonOperationOptions
      → List AppendReq
      → Handle
      → Result Status (Option (Result Error WriteResult))
  append_action common payload h =
      elim (new_request headers settings OperationKind.regular common payload) [
        | none ↦ ok none
        | some req ↦ mapped (λ resp. and_then resp append_result) (server.append h req)
      ]

  unfoldable pub append_to_stream :
      Tracing
      → (ℕ → Uuid)
      → Text
      → ExpectedStreamRevision
      → CommonOperationOptions
      → List EventData
      → Command WriteResult
  append_to_stream tracing new_v4 name version common events tag m w = flattened (
      execute env (append_action common (append_payload tracing new_v4 name version events)) tag m
        w)

  unfoldable pub delete_stream :
      Text → StreamState → CommonOperationOptions → Command (Option Position)
  delete_stream name state common tag m w =
      with_request
        (new_request headers settings OperationKind.regular common (name, expected_revision state))
        (λ req h. mapped deleted_at (server.delete h req)) tag m w

  unfoldable pub tombstone_stream :
      Text → StreamState → CommonOperationOptions → Command (Option Position)
  tombstone_stream name state common tag m w =
      with_request
        (new_request headers settings OperationKind.regular common (name, expected_revision state))
        (λ req h. mapped deleted_at (server.tombstone h req)) tag m w

  -- A read comes with the node that it reads from, for the errors that follow.
  unfoldable pub read_stream : ReadStreamOptions → Text → ℕ → Command (Uuid × Streaming)
  read_stream options name n tag m w =
      with_request
        (new_request headers settings OperationKind.streaming options.common
          (read_stream_options options name n))
        (λ req h. mapped (λ inner. (h.id, inner)) (server.read h req)) tag m w

  unfoldable pub read_all : ReadAllOptions → ℕ → Command (Uuid × Streaming)
  read_all options n tag m w =
      with_request
        (new_request headers settings OperationKind.streaming options.common
          (read_all_options options n))
        (λ req h. mapped (λ inner. (h.id, inner)) (server.read h req)) tag m w
