-- ===== src/Persistent/Management.antt =====
-- commands.rs and http/persistent_subscriptions.rs: listing, replaying, describing and restarting
-- persistent subscriptions, over gRPC on a node with the management calls and over HTTP on another.
-- `none` is a panic, as in `Persistent.Commands`.
use trogon_event_store_clien.Base.{
  ℕ, Bool, false, not, ◌&&◌, Option, none, some, List, [], ◌∷◌, ◌++◌, Result, ok, err, ◌>>=◌,
  if◌then◌else◌,
}
use trogon_event_store_clien.Base.Text.{Text, codes}
use trogon_event_store_clien.Base.Decimal.{show}
use trogon_event_store_clien.Base.Int.{ℤ, as_i64}
use trogon_event_store_clien.Types.{RevisionOrPosition}
use trogon_event_store_clien.Errors.{
  Error, unsupported_feature, resource_not_found, internal_parsing_error,
}
use trogon_event_store_clien.Features.{
  persistent_subscription_to_all, persistent_subscription_management,
}
use trogon_event_store_clien.Env.{Env}
use trogon_event_store_clien.Events.{and_then}
use trogon_event_store_clien.Settings.{ClientSettings}
use trogon_event_store_clien.Request.{OperationKind, CommonOperationOptions}
use trogon_event_store_clien.Machine.{Handle, Msg}
use trogon_event_store_clien.Streams.{Headers}
use trogon_event_store_clien.Persistent.{PersistentSubscriptionSettings, starting_at}
use trogon_event_store_clien.Persistent.Positions.{Nom}
use trogon_event_store_clien.Persistent.Info.{
  SubscriptionInfo, PersistentSubscriptionInfo, try_from,
}
use trogon_event_store_clien.Persistent.Commands.{
  list_all_subscriptions, list_for_stream, Server, supports_feature, url, target, Ran, fail, call,
}
use trogon_event_store_clien.Persistent.Http.{
  Selector, HttpResponse, Method, Web, InfoHttpJson, select_position, resolve_authentication,
  http_execute_request, from_http_info, both_type_of_stream,
}

abbrev stop_at_of : Option ℕ → Option ℤ
stop_at_of none = none
stop_at_of (some value) = some (as_i64 value)

abbrev stop_at_query : Option ℕ → List (Text × Text)
stop_at_query none = []
stop_at_query (some value) = (codes "stopAt", show value) ∷ []

module _ {World A : Type 0} where
  -- An HTTP result is no matter of the connection, and makes no gRPC call.
  abbrev pub over_http : Option (Result Error A) → World → Ran World A
  over_http none w = none
  over_http (some r) w = some (record { result = r; sent = none }, w)

module _ {A : Type 0} where
  abbrev pub select_settings :
      (RevisionOrPosition → Option A)
      → Option (PersistentSubscriptionSettings RevisionOrPosition)
      → Option (Option (PersistentSubscriptionSettings A))
  select_settings f none = some none
  select_settings f (some s) =
      and_then (select_position f s.start_from) (λ place. some (some (starting_at place s)))

module _ (env : Env) (server : Server env.World) (F : Type 0) (to_f64 : ℤ → F) (web : Web F)
    (nom : Nom) (headers : Headers) (settings : ClientSettings) where
  open env use {World}

  abbrev Info : Type 0 → Type 0
  Info A = PersistentSubscriptionInfo F A

  module _ {A : Type 0} where
    -- `sub.map(|i| selector.select(i))`.
    abbrev select_info : (RevisionOrPosition → Option A) → Info RevisionOrPosition → Option (Info A)
    select_info f i = and_then (select_settings f i.settings) (λ selected. some (record {
      event_source = i.event_source;
      group_name = i.group_name;
      status = i.status;
      connections = i.connections;
      settings = selected;
      stats = i.stats;
    }))

    abbrev selected :
        (RevisionOrPosition → Option A)
        → Result Error (Info RevisionOrPosition)
        → Option (Result Error (Info A))
    selected f (err e) = some (err e)
    selected f (ok i) = and_then (select_info f i) (λ j. some (ok j))

    abbrev push :
        Result Error (Info A)
        → Option (Result Error (List (Info A)))
        → Option (Result Error (List (Info A)))
    push (err e) rest = some (err e)
    push (ok i) none = none
    push (ok i) (some (err e)) = some (err e)
    push (ok i) (some (ok is)) = some (ok (i ∷ is))

    -- The loops over the infos, which stop at the first error or panic.
    unfoldable pub read_infos :
        (RevisionOrPosition → Option A)
        → List SubscriptionInfo
        → Option (Result Error (List (Info A)))
    read_infos f [] = some (ok [])
    read_infos f (info ∷ infos) =
        let rest = read_infos f infos in
        and_then (selected f (try_from F to_f64 nom info)) (λ r. push r rest)

    unfoldable pub read_http_infos :
        Selector A → List (InfoHttpJson F) → Option (Result Error (List (Info A)))
    read_http_infos selector [] = some (ok [])
    read_http_infos selector (info ∷ infos) =
        let rest = read_http_infos selector infos in
        and_then (from_http_info F web nom selector info) (λ r. push r rest)

    abbrev answered_with :
        {B : Type 0}
        → (B → Option (Result Error A))
        → Result Error B
        → Option Msg
        → World
        → Ran World A
    answered_with f (err e) sent w = some (record { result = err e; sent = sent }, w)
    answered_with f (ok b) sent w =
        and_then (f b) (λ r. some (record { result = r; sent = sent }, w))

    -- The part of an answer that is decoded once the call has succeeded.
    abbrev answered : {B : Type 0} → (B → Option (Result Error A)) → Ran World B → Ran World A
    answered f none = none
    answered f (some (e, w)) = answered_with f e.result e.sent w

  abbrev http_request :
      CommonOperationOptions → Method → Text → List (Text × Text) → Result Error HttpResponse
  http_request common method address query = http_execute_request F web nom (record {
    method = method;
    url = address;
    query = query;
    authentication = resolve_authentication common settings;
  })

  abbrev parsed : {J : Type 0} → Result Text J → Result Error J
  parsed (err message) = err (internal_parsing_error message)
  parsed (ok j) = ok j

  abbrev discard : Result Error HttpResponse → Result Error (Unit {0})
  discard (err e) = err e
  discard (ok resp) = ok tt

  module _ {A : Type 0} where
    abbrev http_result :
        {J : Type 0} → (J → Option (Result Error A)) → Result Error J → Option (Result Error A)
    http_result f (err e) = some (err e)
    http_result f (ok j) = f j

  abbrev infos_at : CommonOperationOptions → Text → Result Error (List (InfoHttpJson F))
  infos_at common address = do
    resp ← http_request common Method.get address []
    parsed (web.infos_of_json resp.body)

  abbrev info_at : CommonOperationOptions → Text → Result Error (InfoHttpJson F)
  info_at common address = do
    resp ← http_request common Method.get address []
    parsed (web.info_of_json resp.body)

  unfoldable pub list_all_persistent_subscriptions :
      CommonOperationOptions → Handle → World → Ran World (List (Info RevisionOrPosition))
  list_all_persistent_subscriptions common h w =
      if not (supports_feature h persistent_subscription_management)
      then over_http
          (http_result
            (read_http_infos (record { is_all = false; name = []; select = both_type_of_stream }))
            (infos_at common (url h ++ codes "/subscriptions")))
          w
      else answered (read_infos both_type_of_stream) (
          call env server headers settings server.list OperationKind.regular common
            list_all_subscriptions h w)

  -- A command about all streams is refused on a node with neither feature.
  abbrev unsupported : Bool → Handle → Bool
  unsupported is_all h = is_all && not (supports_feature h persistent_subscription_to_all)

  module _ {A : Type 0} where
    unfoldable pub list_persistent_subscriptions_for_stream :
        Selector A → CommonOperationOptions → Handle → World → Ran World (List (Info A))
    list_persistent_subscriptions_for_stream stream common h w =
        if not (supports_feature h persistent_subscription_management)
        then (if unsupported stream.is_all h
            then fail unsupported_feature w
            else over_http
                (http_result (read_http_infos stream)
                  (infos_at common (url h ++ codes "/subscriptions/" ++ web.urlencode stream.name)))
                w)
        else answered (read_infos stream.select) (
            call env server headers settings server.list OperationKind.regular common
              (list_for_stream (target stream.is_all stream.name)) h w)

    abbrev described :
        (RevisionOrPosition → Option A) → Option SubscriptionInfo → Option (Result Error (Info A))
    described f none = some (err resource_not_found)
    described f (some info) = selected f (try_from F to_f64 nom info)

    unfoldable pub get_persistent_subscription_info :
        Selector A → Text → CommonOperationOptions → Handle → World → Ran World (Info A)
    get_persistent_subscription_info stream group common h w =
        if not (supports_feature h persistent_subscription_management)
        then (if unsupported stream.is_all h
            then fail unsupported_feature w
            else over_http
                (http_result (from_http_info F web nom stream) (
                  info_at common (
                    url h
                    ++ codes "/subscriptions/"
                    ++ web.urlencode stream.name
                    ++ codes "/"
                    ++ web.urlencode group
                    ++ codes "/info")))
                w)
        else answered (described stream.select) (
            call env server headers settings server.get_info OperationKind.regular common
              (record {
                group_name = group;
                stream_option = some (target stream.is_all stream.name);
              })
              h w)

    unfoldable pub replay_parked_messages :
        Selector A
        → Text
        → Option ℕ
        → CommonOperationOptions
        → Handle
        → World
        → Ran World (Unit {0})
    replay_parked_messages stream group stop_at common h w =
        if not (supports_feature h persistent_subscription_management)
        then (if unsupported stream.is_all h
            then fail unsupported_feature w
            else over_http
                (some (
                  discard (
                    http_request common Method.post
                      (url h
                        ++ codes "/subscriptions/"
                        ++ web.urlencode stream.name
                        ++ codes "/"
                        ++ web.urlencode group
                        ++ codes "/replayParked")
                      (stop_at_query stop_at))))
                w)
        else call env server headers settings server.replay_parked OperationKind.regular common
            (record {
              group_name = group;
              stream_option = some (target stream.is_all stream.name);
              stop_at = stop_at_of stop_at;
            })
            h w

  unfoldable pub restart_persistent_subscription_subsystem :
      CommonOperationOptions → Handle → World → Ran World (Unit {0})
  restart_persistent_subscription_subsystem common h w =
      if not (supports_feature h persistent_subscription_management)
      then over_http
          (some (
            discard (http_request common Method.post (url h ++ codes "/subscriptions/restart") [])))
          w
      else call env server headers settings server.restart_subsystem OperationKind.regular common tt
          h w
