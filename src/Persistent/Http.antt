-- ===== src/Persistent/Http.antt =====
-- http/mod.rs and http/persistent_subscriptions.rs: the management of persistent subscriptions over
-- HTTP, for servers without the gRPC calls. `reqwest`, `urlencoding` and `serde_json` are arguments.
-- `none` is the panic of a selector on a place of the other kind (commands.rs).
pub mod Statuses
use trogon_event_store_clien.Base.{
  ℕ, ◌/◌, ◌%◌, ◌^◌, Bool, true, false, ◌==◌, Option, none, some, List, [], ◌∷◌, ◌++◌, Result, ok,
  err, ◌>>=◌, if◌then◌else◌,
}
use trogon_event_store_clien.Base.Text.{Text, codes, text_eq}
use trogon_event_store_clien.Base.Decimal.{show}
use trogon_event_store_clien.Base.Int.{ℤ, as_u64}
use trogon_event_store_clien.Position.{Position}
use trogon_event_store_clien.Types.{Authentication, RevisionOrPosition, StreamPosition}
use trogon_event_store_clien.Events.{and_then}
use trogon_event_store_clien.Errors.{
  Error, server_error, access_denied, resource_not_found, internal_client_error,
  internal_parsing_error,
}
use trogon_event_store_clien.Settings.{ClientSettings}
use trogon_event_store_clien.Request.{CommonOperationOptions, authentication_of}
use trogon_event_store_clien.Persistent.{
  SystemConsumerStrategy, PersistentSubscriptionSettings, map_position, starting_at, as_i32,
}
use trogon_event_store_clien.Persistent.Positions.{Nom, parse_position, parse_stream_position}
use trogon_event_store_clien.Persistent.Info.{ConnectionInfo, Stats, PersistentSubscriptionInfo}

-- `StreamKind` and `StreamPositionTypeSelector`: what a command is about.
pub record Selector (A : Type 0) : Type 0 where
  pub is_all : Bool
  pub name : Text
  pub select : RevisionOrPosition → Option A

abbrev only_revision : RevisionOrPosition → Option ℕ
only_revision (RevisionOrPosition.revision r) = some r
only_revision (RevisionOrPosition.position p) = none

abbrev only_position : RevisionOrPosition → Option Position
only_position (RevisionOrPosition.revision r) = none
only_position (RevisionOrPosition.position p) = some p

unfoldable pub regular_stream : Text → Selector ℕ
regular_stream name = record { is_all = false; name = name; select = only_revision }

unfoldable pub all_stream : Selector Position
all_stream = record { is_all = true; name = codes "$all"; select = only_position }

abbrev pub both_type_of_stream : RevisionOrPosition → Option RevisionOrPosition
both_type_of_stream value = some value

module _ {A B : Type 0} where
  abbrev pub select_position : (A → Option B) → StreamPosition A → Option (StreamPosition B)
  select_position f StreamPosition.start = some StreamPosition.start
  select_position f StreamPosition.end = some StreamPosition.end
  select_position f (StreamPosition.position a) =
      and_then (f a) (λ b. some (StreamPosition.position b))

-- `resolve_authentication`.
unfoldable pub resolve_authentication :
    CommonOperationOptions → ClientSettings → Option Authentication
resolve_authentication options settings =
    authentication_of options.authentication settings.default_user_name

pub data Method : Type 0 where
  get post : Method

pub record HttpRequest : Type 0 where
  pub method : Method
  pub url : Text
  pub query : List (Text × Text)
  pub authentication : Option Authentication

-- An error of `send` with its status, if it has one, and how it is printed.
pub record SendError : Type 0 where
  pub status : Option ℕ
  pub message : Text

pub record HttpResponse : Type 0 where
  pub status : ℕ
  pub body : Text

-- `StatusCode::is_server_error` and `is_success`.
abbrev pub is_server_error : ℕ → Bool
is_server_error code = code / 100 == 5

abbrev pub is_success : ℕ → Bool
is_success code = code / 100 == 2

pub record PersistentSubscriptionConfig : Type 0 where
  pub resolve_linktos : Bool
  pub start_from : StreamPosition RevisionOrPosition
  pub start_position : Text
  pub message_timeout_milliseconds : ℤ
  pub extra_statistics : Bool
  pub max_retry_count : ℤ
  pub live_buffer_size : ℤ
  pub buffer_size : ℤ
  pub read_batch_size : ℤ
  pub checkpoint_after_milliseconds : ℤ
  pub min_checkpoint_count : ℤ
  pub max_checkpoint_count : ℤ
  pub max_subscriber_count : ℤ
  pub named_consumer_strategy : SystemConsumerStrategy

pub record InfoHttpJson (F : Type 0) : Type 0 where
  pub event_stream_id : Text
  pub group_name : Text
  pub status : Text
  pub average_items_per_second : F
  pub total_items_processed : ℕ
  pub last_processed_event_number : ℤ
  pub last_checkpointed_event_position : Option Text
  pub last_known_event_position : Option Text
  pub last_known_event_number : ℤ
  pub total_in_flight_messages : ℕ
  pub config : Option PersistentSubscriptionConfig
  pub read_buffer_count : ℕ
  pub live_buffer_count : ℕ
  pub retry_buffer_count : ℕ
  pub outstanding_messages_count : ℕ
  pub parked_message_count : ℕ
  pub count_since_last_measurement : ℕ
  pub connections : List (ConnectionInfo F)

-- What HTTP takes from outside. The two parsers of JSON give the error's text.
pub record Web (F : Type 0) : Type 0 where
  pub send : HttpRequest → Result SendError HttpResponse
  pub reason : ℕ → Text
  pub urlencode : Text → Text
  pub info_of_json : Text → Result Text (InfoHttpJson F)
  pub infos_of_json : Text → Result Text (List (InfoHttpJson F))

module _ (F : Type 0) (web : Web F) (nom : Nom) where
  -- The class of a status that is an error, and the text of one that is the server's.
  abbrev pub status_error : ℕ → Text → Error
  status_error code text =
      if code == 401
      then access_denied
      else if code == 404
      then resource_not_found
      else if is_server_error code
      then server_error text
      else internal_client_error

  abbrev pub send_error : SendError → Error
  send_error e = elim e.status [
    | none ↦ internal_client_error
    | some code ↦ status_error code e.message
  ]

  abbrev pub respond : Result SendError HttpResponse → Result Error HttpResponse
  respond (err e) = err (send_error e)
  respond (ok resp) =
      if is_success resp.status
      then ok resp
      else err (
          status_error resp.status
            (codes "unexpected server error, reason: " ++ web.reason resp.status))

  unfoldable pub http_execute_request : HttpRequest → Result Error HttpResponse
  http_execute_request req = respond (web.send req)

  -- `as i32` on a signed 64-bit value.
  abbrev narrow : ℤ → ℤ
  narrow n = as_i32 (as_u64 n)

  abbrev settings_of :
      {A : Type 0}
      → PersistentSubscriptionConfig
      → StreamPosition A
      → PersistentSubscriptionSettings A
  settings_of c start_from = record {
    resolve_link_tos = c.resolve_linktos;
    start_from = start_from;
    extra_statistics = c.extra_statistics;
    message_timeout = as_u64 c.message_timeout_milliseconds;
    max_retry_count = narrow c.max_retry_count;
    live_buffer_size = narrow c.live_buffer_size;
    read_batch_size = narrow c.read_batch_size;
    history_buffer_size = narrow c.buffer_size;
    checkpoint_after = as_u64 c.checkpoint_after_milliseconds;
    checkpoint_lower_bound = narrow c.min_checkpoint_count;
    checkpoint_upper_bound = narrow c.max_checkpoint_count;
    max_subscriber_count = narrow c.max_subscriber_count;
    consumer_strategy_name = c.named_consumer_strategy;
  }

  abbrev is_all_id : InfoHttpJson F → Bool
  is_all_id info = text_eq info.event_stream_id (codes "$all")

  abbrev start_of :
      InfoHttpJson F
      → PersistentSubscriptionConfig
      → Result Error (StreamPosition RevisionOrPosition)
  start_of info c =
      if is_all_id info then parse_stream_position nom c.start_position else ok c.start_from

  abbrev optional_position : Option Text → Result Error (Option Position)
  optional_position none = ok none
  optional_position (some text) = do pos ← parse_position nom text; ok (some pos)

  abbrev base_stats :
      InfoHttpJson F → Option ℕ → Option ℕ → Option Position → Option Position → Stats F
  base_stats info processed known processed_position known_position = record {
    average_per_second = info.average_items_per_second;
    total_items = info.total_items_processed;
    count_since_last_measurement = info.count_since_last_measurement;
    last_checkpointed_event_revision = processed;
    last_known_event_revision = known;
    last_checkpointed_position = processed_position;
    last_known_position = known_position;
    read_buffer_count = info.read_buffer_count;
    live_buffer_count = info.live_buffer_count;
    retry_buffer_count = info.retry_buffer_count;
    total_in_flight_messages = info.total_in_flight_messages;
    outstanding_messages_count = info.outstanding_messages_count;
    parked_message_count = info.parked_message_count;
  }

  unfoldable pub http_stats : InfoHttpJson F → Result Error (Stats F)
  http_stats info =
      let in_all = (do
        processed ← optional_position info.last_checkpointed_event_position
        known ← optional_position info.last_known_event_position
        ok (base_stats info none none processed known)) in
      if is_all_id info
      then in_all
      else ok (
          base_stats info (some (as_u64 info.last_processed_event_number))
            (some (as_u64 info.last_known_event_number)) none none)

  module _ {A : Type 0} where
    abbrev finish :
        InfoHttpJson F
        → Option (PersistentSubscriptionSettings A)
        → Result Error (Stats F)
        → Result Error (PersistentSubscriptionInfo F A)
    finish info settings (err e) = err e
    finish info settings (ok stats) = ok (record {
      event_source = info.event_stream_id;
      group_name = info.group_name;
      status = info.status;
      connections = info.connections;
      settings = settings;
      stats = stats;
    })

    abbrev configured :
        Selector A
        → InfoHttpJson F
        → PersistentSubscriptionConfig
        → Result Error (StreamPosition RevisionOrPosition)
        → Option (Result Error (PersistentSubscriptionInfo F A))
    configured selector info c (err e) = some (err e)
    configured selector info c (ok start_from) =
        and_then (select_position selector.select start_from)
          (λ place. some (finish info (some (settings_of c place)) (http_stats info)))

    unfoldable pub from_http_info :
        Selector A → InfoHttpJson F → Option (Result Error (PersistentSubscriptionInfo F A))
    unfolding http_stats
    from_http_info selector info = elim info.config [
      | none ↦ some (finish info none (http_stats info))
      | some c ↦ configured selector info c (start_of info c)
    ]
