-- ===== src/Persistent/Info.antt =====
-- types.rs and event_store/generated.rs: what the server tells of a persistent subscription, and its
-- reading. `F` is `f64` and `to_f64` the conversion of an integer; a `HashMap` is the list it is collected
-- from; a `usize` has 64 bits.
use trogon_event_store_clien.Base.{ℕ, Bool, Option, none, some, List, map, Result, ok, ◌>>=◌}
use trogon_event_store_clien.Base.Text.{Text}
use trogon_event_store_clien.Base.Int.{ℤ, as_u64}
use trogon_event_store_clien.Position.{Position}
use trogon_event_store_clien.Types.{RevisionOrPosition, StreamPosition}
use trogon_event_store_clien.Errors.{Error}
use trogon_event_store_clien.Persistent.{PersistentSubscriptionSettings, from_string, map_settings}
use trogon_event_store_clien.Persistent.Positions.{
  Nom, parse_revision_or_position, parse_stream_position,
}

pub record Measurement : Type 0 where
  pub key : Text
  pub value : ℤ

pub record WireConnectionInfo : Type 0 where
  pub from : Text
  pub username : Text
  pub average_items_per_second : ℤ
  pub total_items : ℤ
  pub count_since_last_measurement : ℤ
  pub observed_measurements : List Measurement
  pub available_slots : ℤ
  pub in_flight_messages : ℤ
  pub connection_name : Text

-- `persistent::SubscriptionInfo`.
pub record SubscriptionInfo : Type 0 where
  pub event_source : Text
  pub group_name : Text
  pub status : Text
  pub connections : List WireConnectionInfo
  pub average_per_second : ℤ
  pub total_items : ℤ
  pub count_since_last_measurement : ℤ
  pub last_checkpointed_event_position : Text
  pub last_known_event_position : Text
  pub resolve_link_tos : Bool
  pub start_from : Text
  pub message_timeout_milliseconds : ℤ
  pub extra_statistics : Bool
  pub max_retry_count : ℤ
  pub live_buffer_size : ℤ
  pub buffer_size : ℤ
  pub read_batch_size : ℤ
  pub check_point_after_milliseconds : ℤ
  pub min_check_point_count : ℤ
  pub max_check_point_count : ℤ
  pub read_buffer_count : ℤ
  pub live_buffer_count : ℤ
  pub retry_buffer_count : ℤ
  pub total_in_flight_messages : ℤ
  pub outstanding_messages_count : ℤ
  pub named_consumer_strategy : Text
  pub max_subscriber_count : ℤ
  pub parked_message_count : ℤ

pub record ConnectionInfo (F : Type 0) : Type 0 where
  pub from : Text
  pub username : Text
  pub average_items_per_second : F
  pub total_items : ℕ
  pub count_since_last_measurement : ℕ
  pub available_slots : ℕ
  pub in_flight_messages : ℕ
  pub connection_name : Text
  pub extra_statistics : List (Text × ℤ)

pub record Stats (F : Type 0) : Type 0 where
  pub average_per_second : F
  pub total_items : ℕ
  pub count_since_last_measurement : ℕ
  pub last_checkpointed_event_revision : Option ℕ
  pub last_known_event_revision : Option ℕ
  pub last_checkpointed_position : Option Position
  pub last_known_position : Option Position
  pub read_buffer_count : ℕ
  pub live_buffer_count : ℕ
  pub retry_buffer_count : ℕ
  pub total_in_flight_messages : ℕ
  pub outstanding_messages_count : ℕ
  pub parked_message_count : ℕ

pub record PersistentSubscriptionInfo (F : Type 0) (A : Type 0) : Type 0 where
  pub event_source : Text
  pub group_name : Text
  pub status : Text
  pub connections : List (ConnectionInfo F)
  pub settings : Option (PersistentSubscriptionSettings A)
  pub stats : Stats F

module _ {A B : Type 0} where
  abbrev map_optional :
      (A → B)
      → Option (PersistentSubscriptionSettings A)
      → Option (PersistentSubscriptionSettings B)
  map_optional f none = none
  map_optional f (some s) = some (map_settings f s)

  -- `PersistentSubscriptionInfo::map`.
  unfoldable pub map_info :
      {F : Type 0} → (A → B) → PersistentSubscriptionInfo F A → PersistentSubscriptionInfo F B
  map_info f i = record {
    event_source = i.event_source;
    group_name = i.group_name;
    status = i.status;
    connections = i.connections;
    settings = map_optional f i.settings;
    stats = i.stats;
  }

-- A place is kept as a revision or as a position, if it can be read at all.
abbrev pub as_revision : Result Error RevisionOrPosition → Option ℕ
as_revision (ok (RevisionOrPosition.revision r)) = some r
as_revision _ = none

abbrev pub as_position : Result Error RevisionOrPosition → Option Position
as_position (ok (RevisionOrPosition.position p)) = some p
as_position _ = none

module _ (F : Type 0) (to_f64 : ℤ → F) where
  abbrev entry : Measurement → Text × ℤ
  entry m = (m.key, m.value)

  -- `From<ConnectionInfo>`.
  unfoldable pub connection_info : WireConnectionInfo → ConnectionInfo F
  connection_info value = record {
    from = value.from;
    username = value.username;
    average_items_per_second = to_f64 value.average_items_per_second;
    total_items = as_u64 value.total_items;
    count_since_last_measurement = as_u64 value.count_since_last_measurement;
    available_slots = as_u64 value.available_slots;
    in_flight_messages = as_u64 value.in_flight_messages;
    connection_name = value.connection_name;
    extra_statistics = map entry value.observed_measurements;
  }

  module _ (nom : Nom) where
    unfoldable pub stats_of : SubscriptionInfo → Stats F
    stats_of value =
        let known = parse_revision_or_position nom value.last_known_event_position in
        let processed = parse_revision_or_position nom value.last_checkpointed_event_position in
        record {
          average_per_second = to_f64 value.average_per_second;
          total_items = as_u64 value.total_items;
          count_since_last_measurement = as_u64 value.count_since_last_measurement;
          last_checkpointed_event_revision = as_revision processed;
          last_known_event_revision = as_revision known;
          last_checkpointed_position = as_position processed;
          last_known_position = as_position known;
          read_buffer_count = as_u64 value.read_buffer_count;
          live_buffer_count = as_u64 value.live_buffer_count;
          retry_buffer_count = as_u64 value.retry_buffer_count;
          total_in_flight_messages = as_u64 value.total_in_flight_messages;
          outstanding_messages_count = as_u64 value.outstanding_messages_count;
          parked_message_count = as_u64 value.parked_message_count;
        }

    abbrev pub info_from :
        SubscriptionInfo
        → StreamPosition RevisionOrPosition
        → PersistentSubscriptionInfo F RevisionOrPosition
    info_from value start_from = record {
      event_source = value.event_source;
      group_name = value.group_name;
      status = value.status;
      connections = map connection_info value.connections;
      settings = some (record {
        resolve_link_tos = value.resolve_link_tos;
        start_from = start_from;
        extra_statistics = value.extra_statistics;
        message_timeout = as_u64 value.message_timeout_milliseconds;
        max_retry_count = value.max_retry_count;
        live_buffer_size = value.live_buffer_size;
        read_batch_size = value.read_batch_size;
        history_buffer_size = value.buffer_size;
        checkpoint_after = as_u64 value.check_point_after_milliseconds;
        checkpoint_lower_bound = value.min_check_point_count;
        checkpoint_upper_bound = value.max_check_point_count;
        max_subscriber_count = value.max_subscriber_count;
        consumer_strategy_name = from_string value.named_consumer_strategy;
      });
      stats = stats_of value;
    }

    -- `TryFrom<SubscriptionInfo>`.
    unfoldable pub try_from :
        SubscriptionInfo → Result Error (PersistentSubscriptionInfo F RevisionOrPosition)
    try_from value = do
      start_from ← parse_stream_position nom value.start_from
      ok (info_from value start_from)
