-- ===== src/Streams.antt =====
-- commands.rs: the requests of the read, append and delete commands and of the catch-up subscriptions,
-- the commands, and the conversions of their answers (event_store/generated.rs). The calls of the
-- server (`tonic`) are arguments. `none` is a panic: of a connection name that is no header value, or
-- of an answer that lacks a part. A stream's name is a text.
pub mod Reading
pub mod Writes
pub mod Described
use trogon_event_store_clien.Base.{
  ℕ, Bool, true, false, Option, none, some, unwrap_or, List, [], ◌∷◌, ◌++◌, map, Result, ok, err,
  if◌then◌else◌,
}
use trogon_event_store_clien.Base.Text.{Text, codes}
use trogon_event_store_clien.Uuid.{Uuid}
use trogon_event_store_clien.Position.{Position}
use trogon_event_store_clien.Position
use trogon_event_store_clien.Types.{Duration, StreamState, CurrentRevision, StreamPosition}
use trogon_event_store_clien.Errors.{Error, Status, wrong_expected_version}
use trogon_event_store_clien.Settings.{ClientSettings}
use trogon_event_store_clien.Request.{
  OperationKind, CommonOperationOptions, Metadata, build_request_metadata, timeout_of,
}
use trogon_event_store_clien.Machine.{Handle, Machine}
use trogon_event_store_clien.Env.{Env}
use trogon_event_store_clien.GrpcClient.{Executed, Called, execute}
use trogon_event_store_clien.Events.{and_then}
use trogon_event_store_clien.Proposals.{EventData, ProposedMessage, Tracing, proposed_messages}
use trogon_event_store_clien.Subscription.{RevisionOption, AllOption, StreamOption, RetryOptions}

-- `tonic::Request`.
pub record GrpcRequest (M : Type 0) : Type 0 where
  pub message : M
  pub metadata : Metadata
  pub timeout : Option Duration

-- What the requests take from outside: the base64 encoding, the test for header values and the
-- headers of the tracing context.
pub record Headers : Type 0 where
  pub encode : Text → Text
  pub header_value : Text → Option Text
  pub traced : Metadata

module _ {M : Type 0} where
  -- `new_request`.
  unfoldable pub new_request :
      Headers → ClientSettings → OperationKind → CommonOperationOptions → M → Option (GrpcRequest M)
  new_request h settings kind options message =
      and_then (build_request_metadata h.encode h.header_value settings options h.traced)
        (λ metadata. some (record {
          message = message;
          metadata = metadata;
          timeout = timeout_of settings kind options;
        }))

pub data ReadDirection : Type 0 where
  forward backward : ReadDirection

-- The builder of filters.
pub record SubscriptionFilter : Type 0 where
  pub based_on_stream : Bool
  pub max : Option ℕ
  pub regex : Option Text
  pub prefixes : List Text

unfoldable pub on_stream_name : SubscriptionFilter
on_stream_name = record { based_on_stream = true; max = none; regex = none; prefixes = [] }

unfoldable pub on_event_type : SubscriptionFilter
unfolding on_stream_name
on_event_type = record on_stream_name { based_on_stream = false }

unfoldable pub exclude_system_events : SubscriptionFilter → SubscriptionFilter
exclude_system_events f = record f { regex = some (codes "^[^\\$].*") }

unfoldable pub add_prefix : Text → SubscriptionFilter → SubscriptionFilter
add_prefix prefix f = record f { prefixes = f.prefixes ++ prefix ∷ [] }

pub record Expression : Type 0 where
  pub regex : Text
  pub prefix : List Text

pub data Filter : Type 0 where
  stream_identifier event_type : Expression → Filter

pub data Window : Type 0 where
  max : ℕ → Window
  count : Window

pub record FilterOptions : Type 0 where
  pub filter : Option Filter
  pub window : Option Window
  pub checkpoint_interval_multiplier : ℕ

abbrev pub window_of : Option ℕ → Window
window_of none = count
window_of (some n) = Window.max n

-- `filter_into_proto`, and `ps_create_filter_into_proto` for the same message of another service.
unfoldable pub filter_into_proto : SubscriptionFilter → FilterOptions
filter_into_proto f =
    let expr : Expression = record { regex = unwrap_or f.regex []; prefix = f.prefixes } in
    record {
      filter = some (if f.based_on_stream then stream_identifier expr else event_type expr);
      window = some (window_of f.max);
      checkpoint_interval_multiplier = 1;
    }

pub data FilterOption : Type 0 where
  filter : FilterOptions → FilterOption
  no_filter : FilterOption

abbrev pub filter_option : Option SubscriptionFilter → FilterOption
filter_option none = no_filter
filter_option (some f) = FilterOption.filter (filter_into_proto f)

pub data CountOption : Type 0 where
  count : ℕ → CountOption
  subscription : CountOption

-- `streams::read_req::Options`; identifiers are asked for as texts.
pub record ReadOptions : Type 0 where
  pub stream_option : Option StreamOption
  pub resolve_links : Bool
  pub filter_option : Option FilterOption
  pub count_option : Option CountOption
  pub compatibility : Option ℕ
  pub read_direction : ℕ

abbrev pub direction_number : ReadDirection → ℕ
direction_number forward = 0
direction_number backward = 1

abbrev pub revision_option : StreamPosition ℕ → RevisionOption
revision_option (StreamPosition.position rev) = RevisionOption.revision rev
revision_option StreamPosition.start = RevisionOption.start
revision_option StreamPosition.end = RevisionOption.end

abbrev pub all_option : StreamPosition Position → AllOption
all_option (StreamPosition.position pos) = AllOption.position pos
all_option StreamPosition.start = AllOption.start
all_option StreamPosition.end = AllOption.end

pub record ReadStreamOptions : Type 0 where
  pub common : CommonOperationOptions
  pub direction : ReadDirection
  pub position : StreamPosition ℕ
  pub resolve_link_tos : Bool

pub record ReadAllOptions : Type 0 where
  pub common : CommonOperationOptions
  pub direction : ReadDirection
  pub position : StreamPosition Position
  pub resolve_link_tos : Bool
  pub filter : Option SubscriptionFilter

unfoldable pub read_stream_options : ReadStreamOptions → Text → ℕ → ReadOptions
read_stream_options options name n = record {
  stream_option = some (StreamOption.stream name (some (revision_option options.position)));
  resolve_links = options.resolve_link_tos;
  filter_option = some no_filter;
  count_option = some (CountOption.count n);
  compatibility = some 1;
  read_direction = direction_number options.direction;
}

unfoldable pub read_all_options : ReadAllOptions → ℕ → ReadOptions
read_all_options options n = record {
  stream_option = some (StreamOption.all (some (all_option options.position)));
  resolve_links = options.resolve_link_tos;
  filter_option = some (filter_option options.filter);
  count_option = some (CountOption.count n);
  compatibility = none;
  read_direction = direction_number options.direction;
}

-- The options of `subscribe_to_stream` and of `subscribe_to_all`, whose direction is forward.
unfoldable pub subscribe_to_stream_options : StreamPosition ℕ → Bool → Text → ReadOptions
subscribe_to_stream_options place resolve_link_tos name = record {
  stream_option = some (StreamOption.stream name (some (revision_option place)));
  resolve_links = resolve_link_tos;
  filter_option = some no_filter;
  count_option = some subscription;
  compatibility = none;
  read_direction = 0;
}

unfoldable pub subscribe_to_all_options :
    StreamPosition Position → Bool → Option SubscriptionFilter → ReadOptions
subscribe_to_all_options place resolve_link_tos f = record {
  stream_option = some (StreamOption.all (some (all_option place)));
  resolve_links = resolve_link_tos;
  filter_option = some (filter_option f);
  count_option = some subscription;
  compatibility = none;
  read_direction = 0;
}
