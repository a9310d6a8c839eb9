-- ===== src/Machine.antt =====
-- grpc.rs, `connection_state_machine`: the task that owns the connection and serves the messages of
-- its channel one after the other, and `handle_error`, which tells it of a failed operation. A
-- `oneshot` sender is the number of its request; an answer is sent once it stands in `answers`.
pub mod Links
pub mod Answers
pub mod Leader
use trogon_event_store_clien.Base.{
  ℕ, Bool, true, false, Option, none, some, List, [], ◌∷◌, ◌++◌, Result, ok, err, if◌then◌else◌,
}
use trogon_event_store_clien.Base.Text.{Text}
use trogon_event_store_clien.Uuid.{Uuid}
use trogon_event_store_clien.Types.{Endpoint}
use trogon_event_store_clien.Errors.{Error, server_error, not_leader_exception, GrpcConnectionError}
use trogon_event_store_clien.Features.{ServerInfo}
use trogon_event_store_clien.Env.{Env}
use trogon_event_store_clien.Connection.{
  HandleInfo, NodeConnection, NodeRequest, Failure, connection_error, panic, Attempt, Outcome, next,
}

-- `Handle`, whose sender is the channel of the one machine.
pub record Handle : Type 0 where
  pub id : Uuid
  pub uri : Text
  pub endpoint : Endpoint
  pub secure : Bool
  pub server_info : ServerInfo

abbrev pub handle_of : HandleInfo → Handle
handle_of info = record {
  id = info.id;
  uri = info.uri;
  endpoint = info.endpoint;
  secure = info.secure;
  server_info = info.server_info;
}

pub data Msg : Type 0 where
  get_channel : ℕ → Msg
  create_channel : Uuid → Option Endpoint → Msg

abbrev pub Answer : Type 0
Answer = ℕ × Result GrpcConnectionError Handle

pub record Machine : Type 0 where
  pub connection : NodeConnection
  pub handle : Option Handle
  pub answers : List Answer
  pub is_running : Bool

-- The machine as `GrpcClient::create` starts it.
abbrev pub started : NodeConnection → Machine
started c = record { connection = c; handle = none; answers = []; is_running = true }

abbrev answer : ℕ → Result GrpcConnectionError Handle → Machine → Machine
answer tag r m = record m { answers = m.answers ++ (tag, r) ∷ [] }

abbrev request_of : Uuid → Option Endpoint → Option NodeRequest
request_of id none = none
request_of id (some e) = some (record { correlation = id; endpoint = e })

-- The machine after a message for which `next` returned.
abbrev pub served : ℕ → Machine → Attempt → NodeConnection → Machine
served tag m (ok info) c =
    answer tag (ok (handle_of info)) (record m { connection = c; handle = some (handle_of info) })
served tag m (err (connection_error e)) c =
    answer tag (err e) (record m { connection = c; is_running = false })
served tag m (err panic) c = record m { connection = c; is_running = false }

abbrev pub moved : Machine → Attempt → NodeConnection → Machine
moved m (ok info) c = record m { connection = c; handle = some (handle_of info) }
moved m (err f) c = record m { connection = c; is_running = false }

-- What `handle_error` sends, given the connection that the failed operation used.
unfoldable pub handle_error : Uuid → Error → Option Msg
handle_error id (server_error text) = some (create_channel id none)
handle_error id (not_leader_exception leader) = some (create_channel id (some leader))
handle_error id _ = none

module _ (env : Env) where
  open env use {World}

  abbrev pub After : Type 0
  After = Option (Machine × World)

  abbrev pub finish : (Attempt → NodeConnection → Machine) → Outcome env → After
  finish f none = none
  finish f (some (a, c, w)) = some (f a c, w)

  abbrev pub get : ℕ → Machine → Option Handle → World → After
  get tag m (some h) w = some (answer tag (ok h) m, w)
  get tag m none w = finish (served tag m) (next env m.connection none w)

  -- One message.
  unfoldable pub step : Machine → Msg → World → After
  step m (get_channel tag) w = get tag m m.handle w
  step m (create_channel id seed) w =
      finish (moved m) (next env m.connection (request_of id seed) w)

  abbrev pub and_then : After → (Machine → World → After) → After
  and_then none rest = none
  and_then (some (m, w)) rest = rest m w

  -- The messages of the channel, in order, up to the end of the loop.
  unfoldable pub run : Machine → List Msg → World → After
  run m [] w = some (m, w)
  run m (msg ∷ msgs) w =
      if m.is_running then and_then (step m msg w) (λ m' w'. run m' msgs w') else some (m, w)
