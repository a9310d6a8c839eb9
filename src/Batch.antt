-- ===== src/Batch.antt =====
-- batch.rs: the task of `BatchAppendClient::new`, which sends the append requests on and gives each
-- response to the caller whose request has its correlation identifier. The `oneshot` sender of a
-- caller is a number; the tracing context of a request is an argument where its events are encoded.
pub mod Routing
pub mod Once
pub mod Session
use trogon_event_store_clien.Base.{
  ℕ, Bool, true, false, not, ◌&&◌, ◌||◌, Option, none, some, List, [], ◌∷◌, ◌++◌, map, Result, ok,
  err, ◌==◌, if◌then◌else◌,
}
use trogon_event_store_clien.Base.Text.{Text}
use trogon_event_store_clien.Uuid.{Uuid}
use trogon_event_store_clien.Position.{Position}
use trogon_event_store_clien.Types.{StreamState}
use trogon_event_store_clien.Proposals.{EventData}
use trogon_event_store_clien.Errors.{Error, server_error, Status, cancelled}

pub record BatchWriteResult : Type 0 where
  pub stream_name : Text
  pub current_revision : Option ℕ
  pub current_position : Option Position
  pub stream_state : Option StreamState

pub record Req : Type 0 where
  pub id : Uuid
  pub stream_name : Text
  pub events : List EventData
  pub expected_revision : StreamState

abbrev pub Response : Type 0
Response = Result Error BatchWriteResult

-- `BatchMsg`. An `input` carries its caller, and whether `forward.send` reaches the session.
pub data BatchMsg : Type 0 where
  input : Req → ℕ → Bool → BatchMsg
  out : Uuid → Response → BatchMsg
  error : Error → BatchMsg

pub record Entry : Type 0 where
  pub id : Uuid
  pub caller : ℕ

-- The state of the task; `dropped` are the callers whose senders another request with the same identifier
-- has replaced.
pub record Actor : Type 0 where
  pub reg : List Entry
  pub forwarded : List Req
  pub replies : List (ℕ × Response)
  pub dropped : List ℕ
  pub is_running : Bool

abbrev pub started : Actor
started = record { reg = []; forwarded = []; replies = []; dropped = []; is_running = true }

-- The map from identifiers to callers.
unfoldable pub remove : Uuid → List Entry → List Entry
remove id [] = []
remove id (e ∷ es) = let rest = remove id es in if e.id == id then rest else e ∷ rest

unfoldable pub find : Uuid → List Entry → Option ℕ
find id [] = none
find id (e ∷ es) = let rest = find id es in if e.id == id then some e.caller else rest

unfoldable pub insert : Uuid → ℕ → List Entry → List Entry
insert id caller es = record { id = id; caller = caller } ∷ remove id es

abbrev is_err : Response → Bool
is_err (ok r) = false
is_err (err e) = true

abbrev pub tell_all : Error → List Entry → List (ℕ × Response)
tell_all e [] = []
tell_all e (entry ∷ es) = (entry.caller, err e) ∷ tell_all e es

abbrev pub reply : Actor → Uuid → Response → Option ℕ → Actor
reply s id r none = s
reply s id r (some caller) = record {
  reg = remove id s.reg;
  forwarded = s.forwarded;
  replies = s.replies ++ (caller, r) ∷ [];
  dropped = s.dropped;
  is_running = if is_err r then false else true;
}

-- `HashMap::insert` drops the sender that it replaces.
abbrev pub drop_replaced : Option ℕ → List ℕ → List ℕ
drop_replaced none dropped = dropped
drop_replaced (some caller) dropped = caller ∷ dropped

-- The body of the loop.
unfoldable pub step : Actor → BatchMsg → Actor
step s (input req caller true) = record s {
  reg = insert req.id caller s.reg;
  forwarded = s.forwarded ++ req ∷ [];
  dropped = drop_replaced (find req.id s.reg) s.dropped;
}
step s (input req caller false) = record s { is_running = false }
step s (out id r) = reply s id r (find id s.reg)
step s (error e) = record s {
  reg = [];
  replies = s.replies ++ tell_all e s.reg;
  is_running = false;
}

-- The loop over the messages received, up to its `break`.
unfoldable pub run : Actor → List BatchMsg → Actor
run s [] = s
run s (msg ∷ msgs) = if s.is_running then run (step s msg) msgs else s

-- What `append_to_stream` returns to a caller: its reply, and an error when its sender was dropped without
-- one, by another request with its identifier or by the end of the loop. `none` is a caller that still
-- waits.
unfoldable pub reply_to : ℕ → List (ℕ × Response) → Option Response
reply_to caller [] = none
reply_to caller ((c, r) ∷ rs) =
    let rest = reply_to caller rs in if c == caller then some r else rest

unfoldable pub is_in : ℕ → List ℕ → Bool
is_in caller [] = false
is_in caller (c ∷ cs) = c == caller || is_in caller cs

abbrev or_closed : (Status → Text) → Text → Bool → Option Response → Option Response
or_closed to_string closed waits (some r) = some r
or_closed to_string closed true none = none
or_closed to_string closed false none = some (
    err (
      server_error
        (to_string (record { code = cancelled; message = closed; metadata = λ key. none }))))

unfoldable pub append_to_stream : (Status → Text) → Text → ℕ → Actor → Option Response
unfolding reply_to is_in
append_to_stream to_string closed caller s =
    or_closed to_string closed (s.is_running && not (is_in caller s.dropped))
      (reply_to caller s.replies)
