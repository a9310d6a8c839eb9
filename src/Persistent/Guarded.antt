-- ===== src/Persistent/Guarded.antt =====
-- A node is only asked for what it has: the features that the commands on persistent subscriptions check
-- (commands.rs).
use trogon_event_store_clien.Base.{
  ◌≡◌, refl, ℕ, true, false, Bool-cases, none, some, Option, inl, inr, ◌⊎◌, Result, ok, err,
}
use trogon_event_store_clien.Base.Text.{Text}
use trogon_event_store_clien.Base.Int.{ℤ}
use trogon_event_store_clien.Position.{Position}
use trogon_event_store_clien.Errors.{Error, Status, unsupported_feature}
use trogon_event_store_clien.Features.{
  persistent_subscription_to_all, persistent_subscription_management,
}
use trogon_event_store_clien.Env.{Env}
use trogon_event_store_clien.Settings.{ClientSettings}
use trogon_event_store_clien.Request.{CommonOperationOptions}
use trogon_event_store_clien.Machine.{Handle}
use trogon_event_store_clien.Streams.{Headers, GrpcRequest, SubscriptionFilter}
use trogon_event_store_clien.Persistent.{
  SystemConsumerStrategy, dispatch_to_single, round_robin, pinned, pinned_by_correlation, custom,
  named_consumer_strategy_as_i32, PersistentSubscriptionSettings, WireSettings, PsStreamOption,
  to_all, create_settings, update_settings, to_create_options, to_update_options,
}
use trogon_event_store_clien.Persistent.Positions.{Nom}
use trogon_event_store_clien.Persistent.Http.{Selector, Web, all_stream}
use trogon_event_store_clien.Persistent.Commands.{
  Server, PutReq, put, is_all_option, supports_feature, Ran, create_persistent_subscription,
  update_persistent_subscription, delete_persistent_subscription,
  subscribe_to_persistent_subscription,
}
use trogon_event_store_clien.Persistent.Management.{
  list_all_persistent_subscriptions, list_persistent_subscriptions_for_stream,
  get_persistent_subscription_info, replay_parked_messages,
  restart_persistent_subscription_subsystem, read_http_infos,
}

-- The command is refused, the connection is told nothing, and no gRPC call has been made: the outside is
-- as it was.
abbrev pub IsRefused : {World A : Type 0} → World → Ran World A → Type 0
IsRefused w ran = ran ≡ some (record { result = err unsupported_feature; sent = none }, w)

named_cases :
    (s : SystemConsumerStrategy)
    → ((n : ℕ) × (named_consumer_strategy_as_i32 s ≡ ok n))
      ⊎ (named_consumer_strategy_as_i32 s ≡ err unsupported_feature)
unfolding named_consumer_strategy_as_i32
named_cases dispatch_to_single = inl (0, refl)
named_cases round_robin = inl (1, refl)
named_cases pinned = inl (2, refl)
named_cases pinned_by_correlation = inr refl
named_cases (custom name) = inr refl

module _ (env : Env) (F : Type 0) (to_f64 : ℤ → F) (web : Web F) (nom : Nom) (headers : Headers)
    (settings : ClientSettings) where
  open env use {World}

  -- The encoding of settings fails only for a strategy that servers do not support.
  abbrev OnlyUnsupported : Result Error WireSettings → Type 0
  OnlyUnsupported (ok w) = Unit {0}
  OnlyUnsupported (err e) = e ≡ unsupported_feature

  create_settings-OnlyUnsupported :
      (s : PersistentSubscriptionSettings Position) → OnlyUnsupported (create_settings s)
  unfolding create_settings
  create_settings-OnlyUnsupported s = elim (named_cases s.consumer_strategy_name) [
    | inl (n, e) ↦ rw e tt
    | inr e ↦ rw e refl
  ]

  update_settings-OnlyUnsupported :
      (s : PersistentSubscriptionSettings Position) → OnlyUnsupported (update_settings s)
  unfolding update_settings
  update_settings-OnlyUnsupported s = elim (named_cases s.consumer_strategy_name) [
    | inl (n, e) ↦ rw e tt
    | inr e ↦ rw e refl
  ]

  module _ (server : Server World) (common : CommonOperationOptions) (h : Handle) (w : World) where
    put-IsRefused :
        (f : Handle → GrpcRequest PutReq → World → Result Status (Unit {0}) × World)
        (option : PsStreamOption) (name group : Text) (wire : Result Error WireSettings)
        → supports_feature h persistent_subscription_to_all ≡ false
        → is_all_option option ≡ true
        → OnlyUnsupported wire
        → IsRefused w (put env server headers settings f option name group common h wire w)
    put-IsRefused f option name group (err e) lacks whole only = rw only refl
    put-IsRefused f option name group (ok wire) lacks whole only = rw (whole, lacks) refl

    -- What is refused on a node without persistent subscriptions to all streams, and, where it has no
    -- management calls either, what else is.
    abbrev pub ChangesRefused :
        Text
        → Text
        → PersistentSubscriptionSettings Position
        → Option SubscriptionFilter
        → ℕ
        → Type 0
    ChangesRefused name group s f buffer_size =
        IsRefused w (
          create_persistent_subscription env server headers settings name group (to_all s f) common
            h w)
        × IsRefused w (
            update_persistent_subscription env server headers settings name group (to_all s f)
              common h w)
        × IsRefused w
            (delete_persistent_subscription env server headers settings name group common true h w)
        × IsRefused w (
            subscribe_to_persistent_subscription env server headers settings name group buffer_size
              common true h w)

    abbrev pub QueriesRefused : Text → Option ℕ → Type 0
    QueriesRefused group stop_at =
        IsRefused w (
          list_persistent_subscriptions_for_stream env server F to_f64 web nom headers settings
            all_stream common h w)
        × IsRefused w (
            get_persistent_subscription_info env server F to_f64 web nom headers settings all_stream
              group common h w)
        × IsRefused w (
            replay_parked_messages env server F to_f64 web nom headers settings all_stream group
              stop_at common h w)

    -- On a node without persistent subscriptions to all streams, creating, updating, deleting and
    -- reading one is refused without a gRPC call, whatever settings are asked for; so is listing,
    -- describing and replaying, unless the node has the management calls.
    pub to_all-IsRefused :
        (name group : Text) (s : PersistentSubscriptionSettings Position)
        (f : Option SubscriptionFilter) (buffer_size : ℕ) (stop_at : Option ℕ)
        → supports_feature h persistent_subscription_to_all ≡ false
        → ChangesRefused name group s f buffer_size
          × ((supports_feature h persistent_subscription_management ≡ true)
              ⊎ QueriesRefused group stop_at)
    unfolding create_persistent_subscription update_persistent_subscription
        delete_persistent_subscription subscribe_to_persistent_subscription
        list_persistent_subscriptions_for_stream get_persistent_subscription_info
        replay_parked_messages to_create_options to_update_options all_stream
    to_all-IsRefused name group s f buffer_size stop_at lacks = (
      (
        put-IsRefused server.create (to_create_options (to_all s f) name) name group
            (create_settings s) lacks refl (create_settings-OnlyUnsupported s),
        put-IsRefused server.update (to_update_options (to_all s f) name) name group
            (update_settings s) lacks refl (update_settings-OnlyUnsupported s),
        rw lacks refl,
        rw lacks refl,
      ),
      elim (Bool-cases (supports_feature h persistent_subscription_management)) [
        | inl managed ↦ inl managed
        | inr unmanaged ↦
            inr (rw (unmanaged, lacks) refl, rw (unmanaged, lacks) refl, rw (unmanaged, lacks) refl)
      ],
    )

  -- A node without the management calls is asked nothing over gRPC by the commands that have a form over HTTP.
  module _ {A : Type 0} (selector : Selector A) (group : Text) (stop_at : Option ℕ)
      (common : CommonOperationOptions) (h : Handle) (w : World) where
    -- The results are the same whatever the gRPC calls do.
    abbrev pub AreUnasked : Server World → Server World → Type 0
    AreUnasked server other =
        (list_all_persistent_subscriptions env server F to_f64 web nom headers settings common h w
          ≡ list_all_persistent_subscriptions env other F to_f64 web nom headers settings common h
              w)
        × (list_persistent_subscriptions_for_stream env server F to_f64 web nom headers settings
              selector common h w
            ≡ list_persistent_subscriptions_for_stream env other F to_f64 web nom headers settings
                selector common h w)
        × (get_persistent_subscription_info env server F to_f64 web nom headers settings selector
              group common h w
            ≡ get_persistent_subscription_info env other F to_f64 web nom headers settings selector
                group common h w)
        × (replay_parked_messages env server F to_f64 web nom headers settings selector group
              stop_at common h w
            ≡ replay_parked_messages env other F to_f64 web nom headers settings selector group
                stop_at common h w)
        × (restart_persistent_subscription_subsystem env server F to_f64 web nom headers settings
              common h w
            ≡ restart_persistent_subscription_subsystem env other F to_f64 web nom headers settings
                common h w)

    -- On a node without the management calls, listing, describing, replaying and restarting come out
    -- the same whatever its gRPC calls would do.
    pub management-AreUnasked :
        (server other : Server World)
        → supports_feature h persistent_subscription_management ≡ false
        → AreUnasked server other
    unfolding list_all_persistent_subscriptions list_persistent_subscriptions_for_stream
        get_persistent_subscription_info replay_parked_messages
        restart_persistent_subscription_subsystem read_http_infos
    management-AreUnasked server other lacks =
        (rw lacks refl, rw lacks refl, rw lacks refl, rw lacks refl, rw lacks refl)
