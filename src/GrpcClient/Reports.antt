-- ===== src/GrpcClient/Reports.antt =====
-- What a failed operation tells the connection state machine, which may have served other messages by
-- then (grpc.rs, `execute` and `handle_error`).
use trogon_event_store_clien.Base.{
  ℕ, ◌≡◌, refl, sym, ◌∙◌, ◌⊎◌, inl, inr, Bool-cases, ◌==◌, true, false, if_split, Option, none,
  some, List, [], ◌∷◌, Result, ok, err, arith,
}
use trogon_event_store_clien.Types.{Endpoint}
use trogon_event_store_clien.Uuid.{Uuid}
use trogon_event_store_clien.Errors.{
  Error, server_error, not_leader_exception, connection_closed, grpc, grpc_connection_error,
  internal_parsing_error, access_denied, resource_already_exists, resource_not_found,
  resource_deleted, unsupported_feature, internal_client_error, deadline_exceeded,
  initialization_error, illegal_state_error, wrong_expected_version, Status, from_grpc,
}
use trogon_event_store_clien.Env.{Env}
use trogon_event_store_clien.Connection.{NodeConnection, connection_error, panic, Attempt, next}
use trogon_event_store_clien.Connection.Total.{next-IsAnswered}
use trogon_event_store_clien.Machine.{
  Handle, Msg, get_channel, create_channel, Machine, After, served, moved, get, step, run,
  handle_error,
}
use trogon_event_store_clien.Machine.Links.{
  IsLinked, Settles, finish-Settles, and_then-Settles, step-IsLinked,
}
use trogon_event_store_clien.Machine.Leader.{IsIdle, step-idle}
use trogon_event_store_clien.GrpcClient.{
  Executed, Called, current_selected_node, report, ended_among, acted, execute_among,
}
use trogon_event_store_clien.GrpcClient.{answer_to}
use trogon_event_store_clien.GrpcClient.Calls.{
  IsGiven, Returns, held-same_id, current_selected_node-IsGiven,
}

-- While the machine runs, it holds a handle, which is its connection's.
pub record IsConnected (m : Machine) : Type 0 where
  pub linked : IsLinked m
  pub held : m.is_running ≡ true → (h : Handle) × (m.handle ≡ some h)

-- What `handle_error` sends is about the connection of the operation.
handle_error-create_channel :
    (id : Uuid) (e : Error)
    → (handle_error id e ≡ none)
      ⊎ ((seed : Option Endpoint) × (handle_error id e ≡ some (create_channel id seed)))
unfolding handle_error
handle_error-create_channel id (server_error text) = inr (none, refl)
handle_error-create_channel id (not_leader_exception l) = inr (some l, refl)
handle_error-create_channel id connection_closed = inl refl
handle_error-create_channel id (grpc code message) = inl refl
handle_error-create_channel id (grpc_connection_error e) = inl refl
handle_error-create_channel id (internal_parsing_error text) = inl refl
handle_error-create_channel id access_denied = inl refl
handle_error-create_channel id resource_already_exists = inl refl
handle_error-create_channel id resource_not_found = inl refl
handle_error-create_channel id resource_deleted = inl refl
handle_error-create_channel id unsupported_feature = inl refl
handle_error-create_channel id internal_client_error = inl refl
handle_error-create_channel id deadline_exceeded = inl refl
handle_error-create_channel id (initialization_error text) = inl refl
handle_error-create_channel id (illegal_state_error text) = inl refl
handle_error-create_channel id (wrong_expected_version s c) = inl refl

module _ (env : Env) where
  open env use {World, status_to_string}

  both-Settles :
      (P Q : Machine → Type 0) (o : After env)
      → Settles env P o
      → Settles env Q o
      → Settles env (λ m. P m × Q m) o
  both-Settles P Q none p q = p
  both-Settles P Q (some (m, w)) p q = (p, q)

  abbrev IsHeld : Machine → Type 0
  IsHeld m = m.is_running ≡ true → (h : Handle) × (m.handle ≡ some h)

  served-IsHeld :
      (tag : ℕ) (m : Machine) (a : Attempt) (c : NodeConnection) → IsHeld (served tag m a c)
  served-IsHeld tag m (ok info) c on = (_, refl)
  served-IsHeld tag m (err (connection_error e)) c on = cc
  served-IsHeld tag m (err panic) c on = cc

  moved-IsHeld : (m : Machine) (a : Attempt) (c : NodeConnection) → IsHeld (moved m a c)
  moved-IsHeld m (ok info) c on = (_, refl)
  moved-IsHeld m (err f) c on = cc

  get-IsHeld :
      (tag : ℕ) (m : Machine) (handle : Option Handle) (w : World)
      → m.handle ≡ handle
      → IsLinked m
      → Settles env IsHeld (get env tag m handle w)
  get-IsHeld tag m (some h) w same linked = λ on. (h, same)
  get-IsHeld tag m none w same linked =
      finish-Settles env _ IsHeld (served tag m) (next env m.connection none w)
        (next-IsAnswered env m.connection none w linked.synced)
        (λ a c answered. served-IsHeld tag m a c)

  step-IsHeld :
      (m : Machine) (msg : Msg) (w : World) → IsLinked m → Settles env IsHeld (step env m msg w)
  unfolding step
  step-IsHeld m (get_channel tag) w linked = get-IsHeld tag m m.handle w refl linked
  step-IsHeld m (create_channel id seed) w linked =
      finish-Settles env _ IsHeld (moved m) (next env m.connection _ w)
        (next-IsAnswered env m.connection _ w linked.synced) (λ a c answered. moved-IsHeld m a c)

  pub run-IsConnected :
      (m : Machine) (msgs : List Msg) (w : World)
      → IsConnected m
      → Settles env IsConnected (run env m msgs w)
  unfolding run
  run-IsConnected m [] w known = known
  run-IsConnected m (msg ∷ msgs) w known =
      if_split (Settles env IsConnected) m.is_running
        (λ on.
          and_then-Settles env (λ m'. IsLinked m' × IsHeld m') IsConnected (step env m msg w)
            (λ m' w'. run env m' msgs w')
            (both-Settles IsLinked IsHeld (step env m msg w)
              (step-IsLinked env m msg w known.linked) (step-IsHeld m msg w known.linked))
            (λ m' w' both. run-IsConnected m' msgs w' (record { linked = both.0; held = both.1 })))
        (λ off. known)

  -- The message changes nothing in the machine, and asks nothing of the outside.
  abbrev pub IsIgnored : Option Msg → Machine → World → Type 0
  IsIgnored none m w = Unit
  IsIgnored (some msg) m w = step env m msg w ≡ some (m, w)

  -- What is sent about a connection either finds it in use, or is ignored, or comes after the end.
  abbrev pub IsHeeded : Uuid → Option Msg → Machine → World → Type 0
  IsHeeded id sent m w = (m.is_running ≡ false) ⊎ ((id ≡ m.connection.id) ⊎ IsIgnored sent m w)

  seed-IsIdle :
      (id : Uuid) (seed : Option Endpoint) (m : Machine)
      → (id == m.connection.id) ≡ false
      → IsIdle env m (create_channel id seed)
  seed-IsIdle id none m other = tt
  seed-IsIdle id (some e) m other = λ same. ground (arith, other, same)

  handle_error-IsIgnored :
      (id : Uuid) (e : Error) (m : Machine) (h : Handle) (w : World)
      → IsLinked m
      → m.is_running ≡ true
      → m.handle ≡ some h
      → (id == m.connection.id) ≡ false
      → IsIgnored (handle_error id e) m w
  handle_error-IsIgnored id e m h w linked on held other = elim (handle_error-create_channel id e) [
    | inl silent ↦ rw silent tt
    | inr (seed, told) ↦
        rw told (
          step-idle env m (create_channel id seed) h w linked on held (seed-IsIdle id seed m other))
  ]

  handle_error-IsHeeded :
      (id : Uuid) (e : Error) (m : Machine) (w : World)
      → IsConnected m
      → IsHeeded id (handle_error id e) m w
  handle_error-IsHeeded id e m w known = elim (Bool-cases m.is_running) [
    | inr off ↦ inl off
    | inl on ↦ elim (Bool-cases (id == m.connection.id)) [
      | inl same ↦ inr (inl (ground (arith, same)))
      | inr other ↦
          let (h, held) = known.held on in
          inr (inr (handle_error-IsIgnored id e m h w known.linked on held other))
    ]
  ]

  module _ {A : Type 0} (action : Handle → Result Status A) (tag : ℕ) (m : Machine)
      (w : World) where
    -- The call got the handle of the machine's connection at that time.
    pub record WasGiven (h : Handle) : Type 0 where
      pub machine : Machine
      pub world : World
      pub answered : current_selected_node env tag m w ≡ some (ok h, machine, world)
      pub connection : h.id ≡ machine.connection.id

    -- What an operation on a handle comes to, by the status that its action gives.
    abbrev pub IsDone : Handle → Result Status A → Executed A → Machine → World → Type 0
    IsDone h (ok a) x m' w' = (x.result ≡ ok a) × (x.sent ≡ none)
    IsDone h (err status) x m' w' =
        (x.result ≡ err (from_grpc status_to_string status))
        × (x.sent ≡ handle_error h.id (from_grpc status_to_string status))
        × IsHeeded h.id x.sent m' w'

    -- Without a handle, nothing is sent and the machine has stopped.
    abbrev pub IsReported : Executed A → Machine → World → Type 0
    IsReported x m' w' =
        ((e : Error) × (current_selected_node env tag m w ≡ some (err e, m', w'))
          × (x.result ≡ err e)
          × (x.sent ≡ none)
          × (m'.is_running ≡ false))
        ⊎ ((h : Handle) × WasGiven h × IsDone h (action h) x m' w')

    -- The call returned, with the property.
    abbrev pub Completes : Called env (Executed A) → Type 0
    Completes none = ⊥
    Completes (some (x, m', w')) = IsReported x m' w'

    report-IsDone :
        (h : Handle) (outcome : Result Status A) (m' : Machine) (w' : World)
        → IsConnected m'
        → IsDone h outcome (report env h outcome) m' w'
    report-IsDone h (ok a) m' w' known = (refl, refl)
    report-IsDone h (err status) m' w' known =
        (refl, refl, handle_error-IsHeeded h.id (from_grpc status_to_string status) m' w' known)

    ended_among-Completes :
        (h : Handle) (o : After env)
        → WasGiven h
        → Settles env IsConnected o
        → Completes (ended_among env (report env h (action h)) o)
    ended_among-Completes h none given known = known
    ended_among-Completes h (some (m', w')) given known =
        inr (h, given, report-IsDone h (action h) m' w' known)

    acted-Completes :
        (between : List Msg) (o : Called env (Result Error Handle))
        → current_selected_node env tag m w ≡ o
        → Returns env (λ r m'. IsGiven r m' × IsLinked m') o
        → Completes (acted env action between o)
    acted-Completes between none answered given = given
    acted-Completes between (some (err e, m', w')) answered (stopped, linked) =
        inl (e, answered, refl, refl, stopped)
    acted-Completes between (some (ok h, m', w')) answered ((on, held), linked) =
        ended_among-Completes h (run env m' between w')
          (record {
            machine = m';
            world = w';
            answered = answered;
            connection =
                held-same_id env h m' m'.connection.handle refl linked
                  (sym (linked.same_handle on) ∙ held);
          })
          (run-IsConnected m' between w' (record { linked = linked; held = λ run_on. (h, held) }))

    -- An operation under a number of its own returns, whatever messages the machine serves between the
    -- answer to its call and the end of its action. It gives what its action gives: a success sends
    -- nothing, and a failure sends what `handle_error` says of it about the connection that the operation
    -- used. If the machine runs then, either it still has that connection, or the message changes nothing.
    -- Without a channel the error is that of the call, nothing is sent, and the machine has stopped.
    pub execute_among-IsReported :
        (between : List Msg)
        → IsLinked m
        → answer_to tag m.answers ≡ none
        → Completes (execute_among env action between tag m w)
    unfolding execute_among
    execute_among-IsReported between linked fresh =
        acted-Completes between (current_selected_node env tag m w) refl
          (current_selected_node-IsGiven env tag m w linked fresh)
