-- ===== src/Persistent/Commands.antt =====
-- commands.rs: the commands on persistent subscriptions, from the node that was chosen on. The gRPC calls
-- (`tonic`) are arguments, each of which takes the state of the outside and returns the next one; a node without the management calls is asked over HTTP. `none` is a panic:
-- of a connection name that is no header value, or of a selector.
use trogon_event_store_clien.Base.{
  ℕ, Bool, true, false, not, ◌&&◌, Option, none, some, List, [], ◌++◌, Result, ok, err,
  if◌then◌else◌,
}
use trogon_event_store_clien.Base.Text.{Text, codes}
use trogon_event_store_clien.Base.Decimal.{show}
use trogon_event_store_clien.Base.Int.{ℤ}
use trogon_event_store_clien.Errors.{Error, Status, unsupported_feature}
use trogon_event_store_clien.Features.{Features, contains, persistent_subscription_to_all}
use trogon_event_store_clien.Env.{Env}
use trogon_event_store_clien.Events.{and_then}
use trogon_event_store_clien.Settings.{ClientSettings}
use trogon_event_store_clien.Request.{OperationKind, CommonOperationOptions}
use trogon_event_store_clien.Machine.{Handle}
use trogon_event_store_clien.GrpcClient.{Executed, report}
use trogon_event_store_clien.Streams.{GrpcRequest, Headers, new_request}
use trogon_event_store_clien.Persistent.{
  PsOptions, to_stream, to_all, PsStreamOption, stream, WireSettings, create_settings,
  update_settings, to_create_options, to_update_options, as_i32,
}
use trogon_event_store_clien.Persistent.Info.{SubscriptionInfo}
use trogon_event_store_clien.Persistent.Reading.{Streaming, PersistentSubscription}
use trogon_event_store_clien.Streams.Writes.{mapped}

-- The requests that create and update.
pub record PutReq : Type 0 where
  pub stream_option : Option PsStreamOption
  pub stream_identifier : Option Text
  pub group_name : Text
  pub settings : Option WireSettings

-- A stream by its name, or all of them.
pub data Target : Type 0 where
  stream_identifier : Text → Target
  all : Target

pub record DeleteReq : Type 0 where
  pub stream_option : Option Target
  pub group_name : Text

pub record ReadReq : Type 0 where
  pub stream_option : Option Target
  pub group_name : Text
  pub buffer_size : ℤ

pub data ListOption : Type 0 where
  list_all_subscriptions : ListOption
  list_for_stream : Target → ListOption

pub record ReplayParkedReq : Type 0 where
  pub group_name : Text
  pub stream_option : Option Target
  pub stop_at : Option ℤ

pub record GetInfoReq : Type 0 where
  pub group_name : Text
  pub stream_option : Option Target

-- The calls of the service.
pub record Server (World : Type 0) : Type 0 where
  pub create : Handle → GrpcRequest PutReq → World → Result Status (Unit {0}) × World
  pub update : Handle → GrpcRequest PutReq → World → Result Status (Unit {0}) × World
  pub delete : Handle → GrpcRequest DeleteReq → World → Result Status (Unit {0}) × World
  pub read : Handle → GrpcRequest ReadReq → World → Result Status Streaming × World
  pub list : Handle → GrpcRequest ListOption → World → Result Status (List SubscriptionInfo) × World
  pub replay_parked :
      Handle → GrpcRequest ReplayParkedReq → World → Result Status (Unit {0}) × World
  pub get_info :
      Handle → GrpcRequest GetInfoReq → World → Result Status (Option SubscriptionInfo) × World
  pub restart_subsystem : Handle → GrpcRequest (Unit {0}) → World → Result Status (Unit {0}) × World

abbrev pub supports_feature : Handle → Features → Bool
supports_feature h feats = contains h.server_info.features feats

-- `Handle::url`.
unfoldable pub url : Handle → Text
url h =
    (if h.secure then codes "https" else codes "http")
    ++ codes "://"
    ++ h.endpoint.host
    ++ codes ":"
    ++ show h.endpoint.port

abbrev pub is_all_option : PsStreamOption → Bool
is_all_option (stream name place) = false
is_all_option (PsStreamOption.all place f) = true

abbrev pub target : Bool → Text → Target
target whole name = if whole then Target.all else stream_identifier name

-- A command's result and the outside after it.
abbrev pub Ran : Type 0 → Type 0 → Type 0
Ran World A = Option (Executed A × World)

module _ {World A : Type 0} where
  abbrev pub fail : Error → World → Ran World A
  fail e w = some (record { result = err e; sent = none }, w)

module _ (env : Env) (server : Server env.World) (headers : Headers)
    (settings : ClientSettings) where
  open env use {World}

  abbrev pub call :
      {M A : Type 0}
      → (Handle → GrpcRequest M → World → Result Status A × World)
      → OperationKind
      → CommonOperationOptions
      → M
      → Handle
      → World
      → Ran World A
  call f kind common message h w =
      and_then (new_request headers settings kind common message)
        (λ req. let (reply, w') = f h req w in some (report env h reply, w'))

  abbrev pub put :
      (Handle → GrpcRequest PutReq → World → Result Status (Unit {0}) × World)
      → PsStreamOption
      → Text
      → Text
      → CommonOperationOptions
      → Handle
      → Result Error WireSettings
      → World
      → Ran World (Unit {0})
  put f option name group common h (err e) w = fail e w
  put f option name group common h (ok wire) w =
      if is_all_option option && not (supports_feature h persistent_subscription_to_all)
      then fail unsupported_feature w
      else call f OperationKind.regular common
          (record {
            stream_option = some option;
            stream_identifier = some name;
            group_name = group;
            settings = some wire;
          })
          h w

  abbrev pub created : PsOptions → Result Error WireSettings
  created (to_stream s) = create_settings s
  created (to_all s f) = create_settings s

  abbrev pub updated : PsOptions → Result Error WireSettings
  updated (to_stream s) = update_settings s
  updated (to_all s f) = update_settings s

  unfoldable pub create_persistent_subscription :
      Text → Text → PsOptions → CommonOperationOptions → Handle → World → Ran World (Unit {0})
  create_persistent_subscription name group options common h w =
      put server.create (to_create_options options name) name group common h (created options) w

  unfoldable pub update_persistent_subscription :
      Text → Text → PsOptions → CommonOperationOptions → Handle → World → Ran World (Unit {0})
  update_persistent_subscription name group options common h w =
      put server.update (to_update_options options name) name group common h (updated options) w

  unfoldable pub delete_persistent_subscription :
      Text → Text → CommonOperationOptions → Bool → Handle → World → Ran World (Unit {0})
  delete_persistent_subscription name group common is_to_all h w =
      if is_to_all && not (supports_feature h persistent_subscription_to_all)
      then fail unsupported_feature w
      else call server.delete OperationKind.regular common
          (record { stream_option = some (target is_to_all name); group_name = group }) h w

  abbrev subscribed : Handle → Streaming → PersistentSubscription
  subscribed h inner = record { channel_id = h.id; inner = inner; acks = []; is_open = true }

  -- The subscription, whose first message, the request, is not among its acknowledgements.
  unfoldable pub subscribe_to_persistent_subscription :
      Text
      → Text
      → ℕ
      → CommonOperationOptions
      → Bool
      → Handle
      → World
      → Ran World PersistentSubscription
  subscribe_to_persistent_subscription name group buffer_size common is_to_all h w =
      if is_to_all && not (supports_feature h persistent_subscription_to_all)
      then fail unsupported_feature w
      else call
          (λ node req v.
            let (reply, v') = server.read node req v in (mapped (subscribed node) reply, v'))
          OperationKind.streaming common
          (record {
            stream_option = some (target is_to_all name);
            group_name = group;
            buffer_size = as_i32 buffer_size;
          })
          h w
