-- ===== src/Projections.antt =====
-- projection_client.rs: the commands on projections, over `GrpcClient::execute`. The calls (`tonic`) are
-- arguments; the decoding of a JSON value into the caller's type (`serde_json`) is left to the caller.
-- `none` inside a call's result is a panic: of a connection name that is no header value, or of a number
-- that JSON does not have.
pub mod Values
pub mod Statistics
use trogon_event_store_clien.Base.{
  ℕ, Bool, true, false, Option, none, some, List, [], ◌∷◌, Result, ok, err, if◌then◌else◌,
}
use trogon_event_store_clien.Base.Text.{Text}
use trogon_event_store_clien.Errors.{Error, Status}
use trogon_event_store_clien.Settings.{ClientSettings}
use trogon_event_store_clien.Request.{OperationKind, CommonOperationOptions}
use trogon_event_store_clien.Machine.{Handle, Machine, Msg}
use trogon_event_store_clien.Env.{Env}
use trogon_event_store_clien.GrpcClient.{Executed, Called, execute}
use trogon_event_store_clien.Streams.{GrpcRequest, Headers, new_request}
use trogon_event_store_clien.Projections.Values.{Proto, Json, parse_value}
use trogon_event_store_clien.Projections.Values.Parsed.{cost}

pub data ProjectionEngineVersion : Type 0 where
  v1 v2 : ProjectionEngineVersion

unfoldable pub as_i32 : ProjectionEngineVersion → ℕ
as_i32 v1 = 1
as_i32 v2 = 2

pub record CreateProjectionOptions : Type 0 where
  pub common : CommonOperationOptions
  pub track_emitted_streams : Bool
  pub emit : Bool
  pub engine_version : ProjectionEngineVersion

-- The options of the requests; a projection is always created as a continuous one.
pub record CreateReq : Type 0 where
  pub query : Text
  pub engine_version : ℕ
  pub name : Text
  pub track_emitted_streams : Bool

pub data EmitOption : Type 0 where
  emit_enabled : Bool → EmitOption
  no_emit_options : EmitOption

pub record UpdateReq : Type 0 where
  pub name : Text
  pub emit_option : Option EmitOption
  pub query : Text

pub record DeleteReq : Type 0 where
  pub name : Text
  pub delete_emitted_streams : Bool
  pub delete_state_stream : Bool
  pub delete_checkpoint_stream : Bool

-- The name of a projection, and a flag or a partition.
pub record FlagReq : Type 0 where
  pub name : Text
  pub write_checkpoint : Bool

pub record PartitionReq : Type 0 where
  pub name : Text
  pub partition : Text

pub record Server (F : Type 0) : Type 0 where
  pub create : Handle → GrpcRequest CreateReq → Result Status (Unit {0})
  pub update : Handle → GrpcRequest UpdateReq → Result Status (Unit {0})
  pub delete : Handle → GrpcRequest DeleteReq → Result Status (Unit {0})
  pub enable : Handle → GrpcRequest Text → Result Status (Unit {0})
  pub reset : Handle → GrpcRequest FlagReq → Result Status (Unit {0})
  pub disable : Handle → GrpcRequest FlagReq → Result Status (Unit {0})
  pub state : Handle → GrpcRequest PartitionReq → Result Status (Option (Proto F))
  pub result : Handle → GrpcRequest PartitionReq → Result Status (Option (Proto F))
  pub restart_subsystem : Handle → GrpcRequest (Unit {0}) → Result Status (Unit {0})

abbrev pub default_common : CommonOperationOptions
default_common = record { authentication = none; requires_leader = false; deadline = none }

abbrev emit_option : Option Bool → EmitOption
emit_option none = no_emit_options
emit_option (some emit) = emit_enabled emit

module _ (env : Env) (F : Type 0) (json : Json F) (server : Server F) (headers : Headers)
    (settings : ClientSettings) where
  open env use {World}
  open json use {Value}

  abbrev pub Command : Type 0 → Type 0
  Command A = ℕ → Machine → World → Called env (Option (Executed A))

  module _ {A : Type 0} where
    abbrev whole : Called env (Executed A) → Called env (Option (Executed A))
    whole none = none
    whole (some (e, m, w)) = some (some e, m, w)

    -- A request, which is made before the node is chosen, and its call.
    abbrev performed :
        {M : Type 0}
        → (Handle → GrpcRequest M → Result Status A)
        → Option (GrpcRequest M)
        → Command A
    performed f none tag m w = some (none, m, w)
    performed f (some req) tag m w = whole (execute env (λ h. f h req) tag m w)

    abbrev perform :
        {M : Type 0}
        → (Handle → GrpcRequest M → Result Status A)
        → CommonOperationOptions
        → M
        → Command A
    perform f common message =
        performed f (new_request headers settings OperationKind.regular common message)

  unfoldable pub update : Text → Text → Option Bool → CommonOperationOptions → Command (Unit {0})
  update name query emit common =
      perform server.update common
        (record { name = name; emit_option = some (emit_option emit); query = query })

  -- What follows a creation: an update, if it succeeded and is to emit events. The update has default
  -- options, not those of the creation.
  abbrev emitting : Bool → Text → Text → Result Error (Unit {0}) → Option Msg → Command (Unit {0})
  emitting emit name query (err e) sent tag m w =
      some (some (record { result = err e; sent = sent }), m, w)
  emitting emit name query (ok done) sent tag m w =
      if emit
      then update name query (some true) default_common tag m w
      else some (some (record { result = ok tt; sent = sent }), m, w)

  abbrev created :
      Bool
      → Text
      → Text
      → ℕ
      → Called env (Option (Executed (Unit {0})))
      → Called env (Option (Executed (Unit {0})))
  created emit name query tag none = none
  created emit name query tag (some (none, m, w)) = some (none, m, w)
  created emit name query tag (some (some e, m, w)) =
      emitting emit name query e.result e.sent tag m w

  -- The two operations of a creation have a number each.
  unfoldable pub create : Text → Text → CreateProjectionOptions → ℕ → Command (Unit {0})
  unfolding update
  create name query options next_tag tag m w = created options.emit name query next_tag (
      perform server.create options.common
        (record {
          query = query;
          engine_version = as_i32 options.engine_version;
          name = name;
          track_emitted_streams = options.track_emitted_streams;
        })
        tag m w)

  unfoldable pub delete : Text → Bool → Bool → Bool → CommonOperationOptions → Command (Unit {0})
  delete name emitted state checkpoint common = perform server.delete common (record {
    name = name;
    delete_emitted_streams = emitted;
    delete_state_stream = state;
    delete_checkpoint_stream = checkpoint;
  })

  unfoldable pub enable : Text → CommonOperationOptions → Command (Unit {0})
  enable name common = perform server.enable common name

  unfoldable pub reset : Text → CommonOperationOptions → Command (Unit {0})
  reset name common = perform server.reset common (record { name = name; write_checkpoint = false })

  -- `disable_projection_internal`, which writes a checkpoint for `disable` and none for `abort`.
  unfoldable pub disable : Text → CommonOperationOptions → Command (Unit {0})
  disable name common =
      perform server.disable common (record { name = name; write_checkpoint = true })

  unfoldable pub abort : Text → CommonOperationOptions → Command (Unit {0})
  abort name common =
      perform server.disable common (record { name = name; write_checkpoint = false })

  -- The value of an answer: `parse_value`, on as much fuel as it takes, or null.
  abbrev parsed : Option (Option Value) → Option Value
  parsed none = none
  parsed (some v) = v

  unfoldable pub value_or_null : Option (Proto F) → Option Value
  value_or_null none = some json.null
  value_or_null (some v) = parsed (parse_value F json (cost v) v)

  abbrev settled : Result Error (Option (Proto F)) → Option Msg → Option (Executed Value)
  settled (err e) sent = some (record { result = err e; sent = sent })
  settled (ok v) sent = elim (value_or_null v) [
    | none ↦ none
    | some j ↦ some (record { result = ok j; sent = sent })
  ]

  abbrev valued :
      Called env (Option (Executed (Option (Proto F)))) → Called env (Option (Executed Value))
  valued none = none
  valued (some (none, m, w)) = some (none, m, w)
  valued (some (some e, m, w)) = some (settled e.result e.sent, m, w)

  unfoldable pub get_state : Text → Text → CommonOperationOptions → Command Value
  unfolding value_or_null
  get_state name partition common tag m w =
      valued (perform server.state common (record { name = name; partition = partition }) tag m w)

  unfoldable pub get_result : Text → Text → CommonOperationOptions → Command Value
  unfolding value_or_null
  get_result name partition common tag m w =
      valued (perform server.result common (record { name = name; partition = partition }) tag m w)

  unfoldable pub restart_subsystem : CommonOperationOptions → Command (Unit {0})
  restart_subsystem common = perform server.restart_subsystem common tt
