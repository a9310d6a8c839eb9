-- ===== src/Machine/Links.antt =====
-- The connection state machine (grpc.rs): it serves every message, and its handle is the connection's.
use trogon_event_store_clien.Base.{
  ℕ, ◌≡◌, refl, true, if_split, Option, none, some, List, [], ◌∷◌, ok, err,
}
use trogon_event_store_clien.Env.{Env}
use trogon_event_store_clien.Connection.{
  HandleInfo, NodeConnection, connection_error, panic, Attempt, Outcome, next,
}
use trogon_event_store_clien.Connection.Total.{
  IsSynced, IsHeld, Ends, next-IsAnswered, IsHeld-IsSynced,
}
use trogon_event_store_clien.Machine.{
  Handle, handle_of, Msg, get_channel, create_channel, Machine, After, finish, served, moved, get,
  step, and_then, run,
}

abbrev pub handle_of? : Option HandleInfo → Option Handle
handle_of? none = none
handle_of? (some info) = some (handle_of info)

-- While it runs, the machine's handle is that of its connection, whose identifier it carries.
pub record IsLinked (m : Machine) : Type 0 where
  pub same_handle : m.is_running ≡ true → m.handle ≡ handle_of? m.connection.handle
  pub synced : IsSynced m.connection

module _ (env : Env) where
  open env use {World}

  -- The messages were served, within the fuel of `next`, and the machine then has the property.
  abbrev pub Settles : (Machine → Type 0) → After env → Type 0
  Settles P none = ⊥
  Settles P (some (m, w)) = P m

  pub finish-Settles :
      (Q : Attempt → NodeConnection → Type 0) (P : Machine → Type 0)
      (f : Attempt → NodeConnection → Machine) (o : Outcome env)
      → Ends env Q o
      → ((a : Attempt) (c : NodeConnection) → Q a c → P (f a c))
      → Settles P (finish env f o)
  finish-Settles Q P f none h k = absurd h
  finish-Settles Q P f (some (a, c, w)) h k = k a c h

  pub and_then-Settles :
      (Q P : Machine → Type 0) (o : After env) (rest : Machine → World → After env)
      → Settles Q o
      → ((m : Machine) (w : World) → Q m → Settles P (rest m w))
      → Settles P (and_then env o rest)
  and_then-Settles Q P none rest h k = absurd h
  and_then-Settles Q P (some (m, w)) rest h k = k m w h

  served-IsLinked :
      (tag : ℕ) (m : Machine) (a : Attempt) (c : NodeConnection)
      → IsHeld a c
      → IsLinked (served tag m a c)
  served-IsLinked tag m (ok info) c held = record {
    same_handle = λ on. rw held.0 refl;
    synced = IsHeld-IsSynced (ok info) c held;
  }
  served-IsLinked tag m (err (connection_error e)) c held = record {
    same_handle = λ on. cc;
    synced = IsHeld-IsSynced (err (connection_error e)) c held;
  }
  served-IsLinked tag m (err panic) c held = record {
    same_handle = λ on. cc;
    synced = IsHeld-IsSynced (err panic) c held;
  }

  moved-IsLinked :
      (m : Machine) (a : Attempt) (c : NodeConnection) → IsHeld a c → IsLinked (moved m a c)
  moved-IsLinked m (ok info) c held = record {
    same_handle = λ on. rw held.0 refl;
    synced = IsHeld-IsSynced (ok info) c held;
  }
  moved-IsLinked m (err f) c held = record {
    same_handle = λ on. cc;
    synced = IsHeld-IsSynced (err f) c held;
  }

  get-IsLinked :
      (tag : ℕ) (m : Machine) (handle : Option Handle) (w : World)
      → m.handle ≡ handle
      → IsLinked m
      → Settles IsLinked (get env tag m handle w)
  get-IsLinked tag m (some h) w e linked = record {
    same_handle = linked.same_handle;
    synced = linked.synced;
  }
  get-IsLinked tag m none w e linked =
      finish-Settles _ IsLinked (served tag m) (next env m.connection none w)
        (next-IsAnswered env m.connection none w linked.synced)
        (λ a c answered. served-IsLinked tag m a c answered.held)

  pub step-IsLinked :
      (m : Machine) (msg : Msg) (w : World) → IsLinked m → Settles IsLinked (step env m msg w)
  unfolding step
  step-IsLinked m (get_channel tag) w linked = get-IsLinked tag m m.handle w refl linked
  step-IsLinked m (create_channel id seed) w linked =
      finish-Settles _ IsLinked (moved m) (next env m.connection _ w)
        (next-IsAnswered env m.connection _ w linked.synced)
        (λ a c answered. moved-IsLinked m a c answered.held)

  -- The machine serves any messages: no step runs out of fuel. Started with a connection that is tied
  -- to its handle, it keeps its handle equal to the connection's for as long as it runs.
  pub run-IsLinked :
      (m : Machine) (msgs : List Msg) (w : World) → IsLinked m → Settles IsLinked (run env m msgs w)
  unfolding run
  run-IsLinked m [] w linked = linked
  run-IsLinked m (msg ∷ msgs) w linked =
      if_split (Settles IsLinked) m.is_running
        (λ on.
          and_then-Settles IsLinked IsLinked (step env m msg w) (λ m' w'. run env m' msgs w')
            (step-IsLinked m msg w linked)
            (λ m' w' next_linked. run-IsLinked m' msgs w' next_linked))
        (λ off. linked)
