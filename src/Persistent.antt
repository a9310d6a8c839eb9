-- ===== src/Persistent.antt =====
-- types.rs and commands.rs: the settings of a persistent subscription, and their encoding in the requests
-- that create and update one (event_store/generated.rs, `PsSettings`).
pub mod Positions
pub mod Info
pub mod Stored
pub mod Reading
pub mod Http
pub mod Commands
pub mod Management
pub mod Guarded
use trogon_event_store_clien.Base.{
  ℕ, ◌-◌, ◌^◌, ◌%◌, Bool, false, Option, none, some, Result, ok, err, ◌>>=◌, ltb, if◌then◌else◌,
}
use trogon_event_store_clien.Base.Text.{Text, codes, text_eq}
use trogon_event_store_clien.Base.Int.{ℤ, pos, negsuc}
use trogon_event_store_clien.Position.{Position}
use trogon_event_store_clien.Types.{Duration, StreamPosition}
use trogon_event_store_clien.Errors.{Error, unsupported_feature}
use trogon_event_store_clien.Subscription.{RevisionOption, AllOption}
use trogon_event_store_clien.Streams.{
  SubscriptionFilter, FilterOption, filter_option, revision_option, all_option,
}

pub data SystemConsumerStrategy : Type 0 where
  dispatch_to_single round_robin pinned pinned_by_correlation : SystemConsumerStrategy
  custom : Text → SystemConsumerStrategy

unfoldable pub from_string : Text → SystemConsumerStrategy
from_string str =
    if text_eq str (codes "DispatchToSingle")
    then dispatch_to_single
    else if text_eq str (codes "RoundRobin")
    then round_robin
    else if text_eq str (codes "Pinned")
    then pinned
    else if text_eq str (codes "PinnedByCorrelation")
    then pinned_by_correlation
    else custom str

unfoldable pub to_string : SystemConsumerStrategy → Text
to_string dispatch_to_single = codes "DispatchToSingle"
to_string round_robin = codes "RoundRobin"
to_string pinned = codes "Pinned"
to_string pinned_by_correlation = codes "PinnedByCorrelation"
to_string (custom value) = value

pub record PersistentSubscriptionSettings (A : Type 0) : Type 0 where
  pub resolve_link_tos : Bool
  pub start_from : StreamPosition A
  pub extra_statistics : Bool
  pub message_timeout : Duration
  pub max_retry_count : ℤ
  pub live_buffer_size : ℤ
  pub read_batch_size : ℤ
  pub history_buffer_size : ℤ
  pub checkpoint_after : Duration
  pub checkpoint_lower_bound : ℤ
  pub checkpoint_upper_bound : ℤ
  pub max_subscriber_count : ℤ
  pub consumer_strategy_name : SystemConsumerStrategy

module _ {A B : Type 0} where
  -- `StreamPosition::map` and `PersistentSubscriptionSettings::map`.
  unfoldable pub map_position : (A → B) → StreamPosition A → StreamPosition B
  map_position f StreamPosition.start = StreamPosition.start
  map_position f StreamPosition.end = StreamPosition.end
  map_position f (StreamPosition.position a) = StreamPosition.position (f a)

  -- The same settings with another place.
  abbrev pub starting_at :
      StreamPosition B → PersistentSubscriptionSettings A → PersistentSubscriptionSettings B
  starting_at start_from s = record {
    resolve_link_tos = s.resolve_link_tos;
    start_from = start_from;
    extra_statistics = s.extra_statistics;
    message_timeout = s.message_timeout;
    max_retry_count = s.max_retry_count;
    live_buffer_size = s.live_buffer_size;
    read_batch_size = s.read_batch_size;
    history_buffer_size = s.history_buffer_size;
    checkpoint_after = s.checkpoint_after;
    checkpoint_lower_bound = s.checkpoint_lower_bound;
    checkpoint_upper_bound = s.checkpoint_upper_bound;
    max_subscriber_count = s.max_subscriber_count;
    consumer_strategy_name = s.consumer_strategy_name;
  }

  unfoldable pub map_settings :
      (A → B) → PersistentSubscriptionSettings A → PersistentSubscriptionSettings B
  unfolding map_position
  map_settings f s = starting_at (map_position f s.start_from) s

-- `Default for PersistentSubscriptionSettings`.
unfoldable pub default_settings : (A : Type 0) → PersistentSubscriptionSettings A
default_settings A = record {
  resolve_link_tos = false;
  start_from = StreamPosition.end;
  extra_statistics = false;
  message_timeout = 30_000;
  max_retry_count = pos 10;
  live_buffer_size = pos 500;
  read_batch_size = pos 20;
  history_buffer_size = pos 500;
  checkpoint_after = 2_000;
  checkpoint_lower_bound = pos 10;
  checkpoint_upper_bound = pos 1_000;
  max_subscriber_count = pos 0;
  consumer_strategy_name = round_robin;
}

-- `x as i32`, which keeps the low 32 bits.
unfoldable pub as_i32 : ℕ → ℤ
as_i32 n = if ltb (n % 2 ^ 32) (2 ^ 31) then pos (n % 2 ^ 32) else negsuc (2 ^ 32 - n % 2 ^ 32 - 1)

-- The settings of a request. `consumer_strategy` is `none` in an update, which has no such field.
pub record WireSettings : Type 0 where
  pub resolve_links : Bool
  pub revision : ℕ
  pub extra_statistics : Bool
  pub message_timeout_ms : Option ℤ
  pub max_retry_count : ℤ
  pub checkpoint_after_ms : Option ℤ
  pub min_checkpoint_count : ℤ
  pub max_checkpoint_count : ℤ
  pub max_subscriber_count : ℤ
  pub live_buffer_size : ℤ
  pub read_batch_size : ℤ
  pub history_buffer_size : ℤ
  pub named_consumer_strategy : ℕ
  pub consumer_strategy : Option Text

unfoldable pub named_consumer_strategy_as_i32 : SystemConsumerStrategy → Result Error ℕ
named_consumer_strategy_as_i32 dispatch_to_single = ok 0
named_consumer_strategy_as_i32 round_robin = ok 1
named_consumer_strategy_as_i32 pinned = ok 2
named_consumer_strategy_as_i32 (custom name) = err unsupported_feature
named_consumer_strategy_as_i32 pinned_by_correlation = err unsupported_feature

module _ {A : Type 0} where
  abbrev pub wire_settings : PersistentSubscriptionSettings A → Option Text → ℕ → WireSettings
  wire_settings value consumer_strategy named = record {
    resolve_links = value.resolve_link_tos;
    revision = 0;
    extra_statistics = value.extra_statistics;
    message_timeout_ms = some (as_i32 value.message_timeout);
    max_retry_count = value.max_retry_count;
    checkpoint_after_ms = some (as_i32 value.checkpoint_after);
    min_checkpoint_count = value.checkpoint_lower_bound;
    max_checkpoint_count = value.checkpoint_upper_bound;
    max_subscriber_count = value.max_subscriber_count;
    live_buffer_size = value.live_buffer_size;
    read_batch_size = value.read_batch_size;
    history_buffer_size = value.history_buffer_size;
    named_consumer_strategy = named;
    consumer_strategy = consumer_strategy;
  }

  -- `TryFrom` for `create_req::Settings` and for `update_req::Settings`.
  unfoldable pub create_settings : PersistentSubscriptionSettings A → Result Error WireSettings
  create_settings value = do
    named ← named_consumer_strategy_as_i32 value.consumer_strategy_name
    ok (wire_settings value (some (to_string value.consumer_strategy_name)) named)

  unfoldable pub update_settings : PersistentSubscriptionSettings A → Result Error WireSettings
  update_settings value = do
    named ← named_consumer_strategy_as_i32 value.consumer_strategy_name
    ok (wire_settings value none named)

-- What a subscription is to: a stream, or the whole log.
pub data PsOptions : Type 0 where
  to_stream : PersistentSubscriptionSettings ℕ → PsOptions
  to_all : PersistentSubscriptionSettings Position → Option SubscriptionFilter → PsOptions

-- The place and the filter of a request; an update has no filter.
pub data PsStreamOption : Type 0 where
  stream : Text → RevisionOption → PsStreamOption
  all : AllOption → Option FilterOption → PsStreamOption

unfoldable pub to_create_options : PsOptions → Text → PsStreamOption
to_create_options (to_stream s) name = stream name (revision_option s.start_from)
to_create_options (to_all s f) name = all (all_option s.start_from) (some (filter_option f))

unfoldable pub to_update_options : PsOptions → Text → PsStreamOption
to_update_options (to_stream s) name = stream name (revision_option s.start_from)
to_update_options (to_all s f) name = all (all_option s.start_from) none
