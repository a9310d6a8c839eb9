-- ===== src/Tests/Managed.antt =====
-- Runs of the theorems on persistent subscriptions, with a concrete parser of positions.
use trogon_event_store_clien.Base.{
  ◌≡◌, refl, ◌⊎◌, ap, ℕ, suc, ◌≤◌, ◌^◌, true, false, ◌==◌, if◌then◌else◌, Option, none, some, [],
  ◌∷◌, ◌++◌, All, ok, err, arith,
}
use trogon_event_store_clien.Base.Text.{Text, codes}
use trogon_event_store_clien.Base.Decimal.{
  show, show-digits, IsDigit, is_digit, parse_uint, parse_uint-show,
}
use trogon_event_store_clien.Base.Int.{ℤ, pos, u64_max}
use trogon_event_store_clien.Uuid.{Uuid}
use trogon_event_store_clien.Position.{Position}
use trogon_event_store_clien.Types.{StreamPosition, RevisionOrPosition}
use trogon_event_store_clien.Errors.{Status, unavailable}
use trogon_event_store_clien.Features.{batch_append}
use trogon_event_store_clien.Env.{Env, failed, answered}
use trogon_event_store_clien.Settings.{default}
use trogon_event_store_clien.Request.{CommonOperationOptions}
use trogon_event_store_clien.Machine.{Handle}
use trogon_event_store_clien.Streams.{Headers}
use trogon_event_store_clien.Subscription.{panic}
use trogon_event_store_clien.Persistent.{PersistentSubscriptionSettings, default_settings, as_i32}
use trogon_event_store_clien.Persistent.Positions.{
  Nom, NoDigit, parse_stream_position, print, IsFirst, parse_stream_position-print,
}
use trogon_event_store_clien.Persistent.Info.{SubscriptionInfo}
use trogon_event_store_clien.Persistent.Stored.{IsStored, create_settings-IsStored}
use trogon_event_store_clien.Persistent.Reading.{
  confirmation, park, PersistentSubscription, Streaming, next,
}
use trogon_event_store_clien.Persistent.Reading.Acks.{
  IsTold, answer_ids, answer_ids-IsTold, next-ended,
}
use trogon_event_store_clien.Persistent.Http.{
  Web, HttpRequest, Method, regular_stream, http_execute_request,
}
use trogon_event_store_clien.Persistent.Http.Statuses.{
  IsClassified, http_execute_request-IsClassified,
}
use trogon_event_store_clien.Persistent.Commands.{Server, supports_feature}
use trogon_event_store_clien.Persistent.Guarded.{
  ChangesRefused, QueriesRefused, to_all-IsRefused, AreUnasked, management-AreUnasked,
}

abbrev then_rest : ℕ → Text × Text → Text × Text
then_rest c (digits, rest) = (c ∷ digits, rest)

-- The digits at the beginning of a text, and the rest.
abbrev take_digits : Text → Text × Text
take_digits [] = ([], [])
take_digits (c ∷ s) = if is_digit c then then_rest c (take_digits s) else ([], c ∷ s)

abbrev with_rest : Text → Option ℕ → Option (Text × ℕ)
with_rest rest none = none
with_rest rest (some n) = some (rest, n)

abbrev read_number : Text → Option (Text × ℕ)
read_number s = with_rest (take_digits s).1 (parse_uint u64_max (take_digits s).0)

abbrev strip : Text → Text → Option Text
strip [] s = some s
strip (t ∷ ts) [] = none
strip (t ∷ ts) (c ∷ s) = if t == c then strip ts s else none

strip_prefix : (t rest : Text) → strip t (t ++ rest) ≡ some rest
strip_prefix [] rest = refl
strip_prefix (t ∷ ts) rest = ground (arith, strip_prefix ts rest)

take_digits-append :
    (s rest : Text) → All IsDigit s → NoDigit rest → take_digits (s ++ rest) ≡ (s, rest)
take_digits-append [] [] digits stop = refl
take_digits-append [] (c ∷ rest) digits stop = rw stop refl
take_digits-append (c ∷ s) rest digits stop =
    let digit : is_digit c ≡ true = ground (arith, digits.0) in
    rw (digit, take_digits-append s rest digits.1 stop) refl

read_number-show :
    (n : ℕ) (rest : Text)
    → n ≤ u64_max
    → NoDigit rest
    → read_number (show n ++ rest) ≡ some (rest, n)
read_number-show n rest range stop =
    rw (take_digits-append (show n) rest (show-digits n) stop, parse_uint-show u64_max n range) refl

abbrev nom : Nom
nom = record {
  tag = strip;
  number = read_number;
  tag_prefix = strip_prefix;
  number_show = read_number-show;
}

abbrev place : RevisionOrPosition
place = RevisionOrPosition.position (record { commit = 30; prepare = 20 })

place_later : ¬ IsFirst nom place
unfolding trogon_event_store_clien.Position.start
place_later h = let commit = ap (λ (p : Position). p.commit) h in absurd (omega (arith, commit))

parse_stream_position-print_example :
    (¬ IsFirst nom place
      → parse_stream_position nom (print nom place) ≡ ok (StreamPosition.position place))
    × (IsFirst nom place → parse_stream_position nom (print nom place) ≡ ok StreamPosition.start)
parse_stream_position-print_example =
    parse_stream_position-print nom place (omega arith, omega arith)

abbrev chosen : PersistentSubscriptionSettings RevisionOrPosition
chosen = record {
  resolve_link_tos = true;
  start_from = StreamPosition.position place;
  extra_statistics = false;
  message_timeout = 30_000;
  max_retry_count = pos 10;
  live_buffer_size = pos 500;
  read_batch_size = pos 20;
  history_buffer_size = pos 500;
  checkpoint_after = 2_000;
  checkpoint_lower_bound = pos 10;
  checkpoint_upper_bound = pos 1_000;
  max_subscriber_count = pos 0;
  consumer_strategy_name = trogon_event_store_clien.Persistent.pinned;
}

abbrev base : SubscriptionInfo
base = record {
  event_source = codes "$all";
  group_name = codes "g";
  status = codes "Live";
  connections = [];
  average_per_second = pos 1;
  total_items = pos 5;
  count_since_last_measurement = pos 0;
  last_checkpointed_event_position = codes "";
  last_known_event_position = codes "C:9/P:9";
  resolve_link_tos = false;
  start_from = codes "";
  message_timeout_milliseconds = pos 0;
  extra_statistics = false;
  max_retry_count = pos 0;
  live_buffer_size = pos 0;
  buffer_size = pos 0;
  read_batch_size = pos 0;
  check_point_after_milliseconds = pos 0;
  min_check_point_count = pos 0;
  max_check_point_count = pos 0;
  read_buffer_count = pos 0;
  live_buffer_count = pos 0;
  retry_buffer_count = pos 0;
  total_in_flight_messages = pos 0;
  outstanding_messages_count = pos 0;
  named_consumer_strategy = codes "";
  max_subscriber_count = pos 0;
  parked_message_count = pos 0;
}

create_settings-IsStored_example : IsStored ℤ (λ n. n) nom chosen (print nom place) base
unfolding trogon_event_store_clien.Persistent.named_consumer_strategy_as_i32
create_settings-IsStored_example =
    create_settings-IsStored ℤ (λ n. n) nom chosen place 2 base refl (omega arith) (omega arith)
      refl (omega arith, omega arith) place_later

-- A message time-out of 2^31 milliseconds, which does not come back.
abbrev month : PersistentSubscriptionSettings RevisionOrPosition
month = record chosen { message_timeout = 2 ^ 31 }

abbrev down : Status
down = record { code = unavailable; message = codes "down"; metadata = λ key. none }

abbrev no_text : Text → Option Uuid
no_text s = none

abbrev listening : PersistentSubscription
listening = record { channel_id = 5; inner = []; acks = []; is_open = true }

answer_ids-IsTold_example :
    IsTold no_text
      (some (park, codes "bad"))
      (3 ∷ 4 ∷ [])
      listening
      (answer_ids (some (park, codes "bad")) (3 ∷ 4 ∷ []) listening)
answer_ids-IsTold_example =
    answer_ids-IsTold no_text (some (park, codes "bad")) (3 ∷ 4 ∷ []) listening
      (omega arith, (omega arith, tt))

abbrev ended : Streaming
ended = ok (some (confirmation (codes "g"))) ∷ []

next-ended_example : (next ℕ (λ s n. some s) no_text (λ s. s.message) 5 ended).result ≡ err panic
next-ended_example = next-ended ℕ (λ s n. some s) no_text (λ s. s.message) 5 ended (tt, tt)

abbrev env : Env
env = record {
  World = ℕ;
  next_u32 = λ w. (w, suc w);
  shuffle = λ A xs w. (xs, w);
  new_v4 = λ w. (suc w, suc w);
  sleep = λ d w. w;
  get_supported_methods = λ d uri w. (failed down, w);
  gossip_read = λ d uri w. (answered [], w);
  parse_uuid = no_text;
  status_to_string = λ s. s.message;
}

-- The world counts the calls.
abbrev server : Server ℕ
server = record {
  create = λ h req w. (ok tt, suc w);
  update = λ h req w. (ok tt, suc w);
  delete = λ h req w. (ok tt, suc w);
  read = λ h req w. (ok ended, suc w);
  list = λ h req w. (ok (base ∷ []), suc w);
  replay_parked = λ h req w. (ok tt, suc w);
  get_info = λ h req w. (ok (some base), suc w);
  restart_subsystem = λ h req w. (ok tt, suc w);
}

abbrev broken : Server ℕ
broken = record {
  create = λ h req w. (err down, suc w);
  update = λ h req w. (err down, suc w);
  delete = λ h req w. (err down, suc w);
  read = λ h req w. (err down, suc w);
  list = λ h req w. (err down, suc w);
  replay_parked = λ h req w. (err down, suc w);
  get_info = λ h req w. (err down, suc w);
  restart_subsystem = λ h req w. (err down, suc w);
}

abbrev web : Web ℤ
web = record {
  send = λ req. ok (record { status = 404; body = [] });
  reason = λ code. codes "Not Found";
  urlencode = λ s. s;
  info_of_json = λ s. err (codes "no info");
  infos_of_json = λ s. ok [];
}

abbrev headers : Headers
headers = record { encode = λ s. s; header_value = λ s. some s; traced = [] }

-- A node with batch append alone.
abbrev old_node : Handle
old_node = record {
  id = 6;
  uri = codes "https://a:1";
  endpoint = record { host = codes "a"; port = 1 };
  secure = true;
  server_info = record {
    version = record { major = 21; minor = 10; patch = 0 };
    features = batch_append;
  };
}

abbrev common : CommonOperationOptions
common = record { authentication = none; requires_leader = false; deadline = none }

to_all-IsRefused_example :
    ChangesRefused env ℤ
      (λ n. n)
      web
      nom
      headers
      default
      server
      common
      old_node
      0
      (codes "$all")
      (codes "g")
      (default_settings Position)
      none
      10
    × ((supports_feature old_node
            trogon_event_store_clien.Features.persistent_subscription_management
          ≡ true)
        ⊎ QueriesRefused env ℤ
            (λ n. n)
            web
            nom
            headers
            default
            server
            common
            old_node
            0
            (codes "g")
            none)
to_all-IsRefused_example =
    to_all-IsRefused env ℤ (λ n. n) web nom headers default server common old_node 0 (codes "$all")
      (codes "g") (default_settings Position) none 10 none refl

management-AreUnasked_example :
    AreUnasked env ℤ
      (λ n. n)
      web
      nom
      headers
      default
      (regular_stream (codes "s"))
      (codes "g")
      (some 3)
      common
      old_node
      0
      server
      broken
management-AreUnasked_example =
    management-AreUnasked env ℤ (λ n. n) web nom headers default (regular_stream (codes "s"))
      (codes "g") (some 3) common old_node 0 server broken refl

abbrev asked : HttpRequest
asked = record {
  method = Method.get;
  url = codes "https://a:1/subscriptions";
  query = [];
  authentication = none;
}

http_execute_request-IsClassified_example :
    IsClassified ℤ web nom (web.send asked) (http_execute_request ℤ web nom asked)
http_execute_request-IsClassified_example = http_execute_request-IsClassified ℤ web nom asked
