-- ===== src/GrpcClient.antt =====
-- grpc.rs, `GrpcClient`: how an operation gets its channel from the connection state machine, and what
-- it reports when it fails. `GrpcClient::create` is `Connection.new` and `Machine.started`. A call has
-- a number, under which the machine answers it. The messages that the machine serves while the operation
-- runs, those of other calls and of failed operations, are an argument of `execute_among`.
pub mod Calls
pub mod Reports
use trogon_event_store_clien.Base.{
  ℕ, Option, none, some, List, [], ◌∷◌, Result, ok, err, ◌==◌, if◌then◌else◌,
}
use trogon_event_store_clien.Errors.{
  Error, Status, GrpcConnectionError, connection_closed, grpc_connection_error, from_grpc,
}
use trogon_event_store_clien.Env.{Env}
use trogon_event_store_clien.Machine.{
  Handle, Answer, Msg, get_channel, Machine, After, step, run, handle_error,
}

-- What arrives on the `oneshot` channel of a call; `none` is a sender that was dropped.
unfoldable pub answer_to : ℕ → List Answer → Option (Result GrpcConnectionError Handle)
answer_to tag [] = none
answer_to tag ((t, r) ∷ rest) = let later = answer_to tag rest in if t == tag then some r else later

abbrev pub received : Option (Result GrpcConnectionError Handle) → Result Error Handle
received none = err connection_closed
received (some (ok h)) = ok h
received (some (err e)) = err (grpc_connection_error e)

-- The result of an operation, and the message that it sent to the machine.
pub record Executed (A : Type 0) : Type 0 where
  pub result : Result Error A
  pub sent : Option Msg

module _ (env : Env) where
  open env use {World, status_to_string}

  abbrev pub Called : Type 0 → Type 0
  Called A = Option (A × Machine × World)

  abbrev pub await_answer : ℕ → After env → Called (Result Error Handle)
  await_answer tag none = none
  await_answer tag (some (m, w)) = some (received (answer_to tag m.answers), m, w)

  -- A send to a machine that has stopped is an error.
  unfoldable pub current_selected_node : ℕ → Machine → World → Called (Result Error Handle)
  current_selected_node tag m w =
      if m.is_running
      then await_answer tag (step env m (get_channel tag) w)
      else some (err connection_closed, m, w)

  module _ {A : Type 0} where
    -- The end of an operation on a channel.
    abbrev pub report : Handle → Result Status A → Executed A
    report h (ok a) = record { result = ok a; sent = none }
    report h (err status) =
        let e = from_grpc status_to_string status in
        record { result = err e; sent = handle_error h.id e }

    -- The machine serves other messages before the operation ends.
    abbrev pub ended_among : Executed A → After env → Called (Executed A)
    ended_among x none = none
    ended_among x (some (m, w)) = some (x, m, w)

    abbrev pub acted :
        (Handle → Result Status A) → List Msg → Called (Result Error Handle) → Called (Executed A)
    acted action between none = none
    acted action between (some (ok h, m, w)) =
        ended_among (report h (action h)) (run env m between w)
    acted action between (some (err e, m, w)) = some (record { result = err e; sent = none }, m, w)

    -- `GrpcClient::execute`, while the machine serves the messages in between.
    unfoldable pub execute_among :
        (Handle → Result Status A) → List Msg → ℕ → Machine → World → Called (Executed A)
    execute_among action between tag m w = acted action between (current_selected_node tag m w)

    -- The same with no message in between.
    unfoldable pub execute : (Handle → Result Status A) → ℕ → Machine → World → Called (Executed A)
    unfolding execute_among
    execute action tag m w = execute_among action [] tag m w
