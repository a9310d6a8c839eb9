-- ===== src/Projections/Statistics.antt =====
-- projection_client.rs, `statistics`, `get_status` and `list`: the stream of the statuses of projections. The
-- responses are the list of the results that their `try_next` gives. `F` is `f32`.
use trogon_event_store_clien.Base.{ℕ, Option, none, some, List, [], ◌∷◌, Result, ok, err}
use trogon_event_store_clien.Base.Text.{Text}
use trogon_event_store_clien.Base.Int.{ℤ}
use trogon_event_store_clien.Uuid.{Uuid}
use trogon_event_store_clien.Errors.{Error, Status, from_grpc}
use trogon_event_store_clien.Settings.{ClientSettings}
use trogon_event_store_clien.Request.{OperationKind, CommonOperationOptions}
use trogon_event_store_clien.Env.{Env}
use trogon_event_store_clien.Machine.{Handle, Machine, Msg, create_channel}
use trogon_event_store_clien.GrpcClient.{Executed, Called, execute}
use trogon_event_store_clien.Streams.{GrpcRequest, Headers, new_request}
use trogon_event_store_clien.Streams.Writes.{mapped}

-- `ProjectionStatus`, and `statistics_resp::Details`, whose fields it copies.
pub record ProjectionStatus (F : Type 0) : Type 0 where
  pub core_processing_time : ℤ
  pub version : ℤ
  pub epoch : ℤ
  pub effective_name : Text
  pub writes_in_progress : ℤ
  pub reads_in_progress : ℤ
  pub partitions_cached : ℤ
  pub status : Text
  pub state_reason : Text
  pub name : Text
  pub mode : Text
  pub position : Text
  pub progress : F
  pub last_checkpoint : Text
  pub events_processed_after_restart : ℤ
  pub checkpoint_status : Text
  pub buffered_events : ℤ
  pub write_pending_events_before_checkpoint : ℤ
  pub write_pending_events_after_checkpoint : ℤ

-- `StatsFor`, which is the request as well.
pub data StatsFor : Type 0 where
  name : Text → StatsFor
  all_projections all_continuous : StatsFor

module _ (F : Type 0) where
  abbrev pub Responses : Type 0
  Responses = List (Result Status (Option (ProjectionStatus F)))

  -- What the stream yields: statuses, up to an error that `report_error` tells
  -- the connection of, a panic or the end.
  pub data Yielded : Type 0 where
    ended panicked : Yielded
    failed : Error → Option Msg → Yielded
    status : ProjectionStatus F → Yielded → Yielded

  unfoldable pub yielded : (Status → Text) → Uuid → Responses → Yielded
  yielded status_to_string id [] = ended
  yielded status_to_string id (err e ∷ rest) =
      failed (from_grpc status_to_string e) (some (create_channel id none))
  yielded status_to_string id (ok none ∷ rest) = panicked
  yielded status_to_string id (ok (some details) ∷ rest) =
      status details (yielded status_to_string id rest)

  -- The first item, as `try_next` gives it; `none` is a panic.
  unfoldable pub try_next : Yielded → Option (Executed (Option (ProjectionStatus F)))
  try_next ended = some (record { result = ok none; sent = none })
  try_next panicked = none
  try_next (failed e sent) = some (record { result = err e; sent = sent })
  try_next (status details rest) = some (record { result = ok (some details); sent = none })

  module _ (env : Env) (call : Handle → GrpcRequest StatsFor → Result Status Responses)
      (headers : Headers) (settings : ClientSettings) where
    open env use {World, status_to_string}

    abbrev started :
        Option (GrpcRequest StatsFor) → ℕ → Machine → World → Called env (Option (Executed Yielded))
    started none tag m w = some (none, m, w)
    started (some req) tag m w =
        elim (execute env (λ h. mapped (yielded status_to_string h.id) (call h req)) tag m w) [
          | none ↦ none
          | some (e, m', w') ↦ some (some e, m', w')
        ]

    unfoldable pub statistics :
        StatsFor
        → CommonOperationOptions
        → ℕ
        → Machine
        → World
        → Called env (Option (Executed Yielded))
    unfolding yielded
    statistics stats_for common tag m w =
        started (new_request headers settings OperationKind.regular common stats_for) tag m w

    unfoldable pub list :
        CommonOperationOptions → ℕ → Machine → World → Called env (Option (Executed Yielded))
    unfolding statistics
    list common tag m w = statistics all_continuous common tag m w

    abbrev first_of :
        Result Error Yielded → Option Msg → Option (Executed (Option (ProjectionStatus F)))
    first_of (err e) sent = some (record { result = err e; sent = sent })
    first_of (ok items) sent = try_next items

    abbrev first :
        Called env (Option (Executed Yielded))
        → Called env (Option (Executed (Option (ProjectionStatus F))))
    first none = none
    first (some (none, m, w)) = some (none, m, w)
    first (some (some e, m, w)) = some (first_of e.result e.sent, m, w)

    unfoldable pub get_status :
        Text
        → CommonOperationOptions
        → ℕ
        → Machine
        → World
        → Called env (Option (Executed (Option (ProjectionStatus F))))
    unfolding statistics try_next
    get_status projection common tag m w = first (statistics (name projection) common tag m w)
