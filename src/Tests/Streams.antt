-- ===== src/Tests/Streams.antt =====
-- Runs of the theorems on the append session and on subscriptions.
use trogon_event_store_clien.Base.{
  ℕ, suc, ◌+◌, ◌≤◌, ◌≡◌, refl, true, false, none, some, List, [], ◌∷◌, ◌++◌, ok, err, arith,
}
use trogon_event_store_clien.Base.Text.{codes}
use trogon_event_store_clien.Uuid.{to_wire}
use trogon_event_store_clien.Types.{StreamState}
use trogon_event_store_clien.Errors.{Status, unavailable, from_grpc, is_access_denied}
use trogon_event_store_clien.Batch.{BatchMsg, input, out, Req, Response, started, run}
use trogon_event_store_clien.Batch.Routing.{IsSent, run-IsSent}
use trogon_event_store_clien.Batch.Once.{answered, waiting, asked, run-once}
use trogon_event_store_clien.Subscription.{
  StreamOption, RevisionOption, Content, Outside, Subscription, new, next_subscription_event, next,
}
use trogon_event_store_clien.Subscription.Resume.{Whenever, IsResumed, next-IsResumed}
use trogon_event_store_clien.Subscription.Retries.{
  IsRefused, HasGivenUp, next_subscription_event-HasGivenUp, next_subscription_event-never_returns,
}

abbrev request : ℕ → Req
request id = record {
  id = id;
  stream_name = codes "s";
  events = [];
  expected_revision = StreamState.any;
}

abbrev written : Response
written = ok (record {
  stream_name = codes "s";
  current_revision = some 3;
  current_position = none;
  stream_state = none;
})

abbrev between : List BatchMsg
between = input (request 2) 20 true ∷ out 2 written ∷ []

still_running : (run started (input (request 1) 10 true ∷ between)).is_running ≡ true
unfolding run trogon_event_store_clien.Batch.step trogon_event_store_clien.Batch.find
    trogon_event_store_clien.Batch.insert
still_running = refl

run-IsSent_example :
    IsSent 10 written (run started (input (request 1) 10 true ∷ between ++ out 1 written ∷ []))
run-IsSent_example =
    run-IsSent started (request 1) 10 between written refl (ground arith, (ground arith, tt))
      still_running

abbrev messages : List BatchMsg
messages = input (request 1) 10 true ∷ out 1 written ∷ out 1 written ∷ []

run-once_example :
    answered 10 (run started messages).replies + waiting 10 (run started messages).reg
    ≤ answered 10 started.replies + waiting 10 started.reg + asked 10 messages
run-once_example = run-once 10 started messages

abbrev status : Status
status = record { code = unavailable; message = codes "gone"; metadata = λ key. none }

-- A server that refuses every request, and one whose streams have ended; the world counts requests.
abbrev refusing : Outside
refusing = record {
  World = ℕ;
  Stream = Unit;
  Time = ℕ;
  since_epoch = λ seconds nanos. some seconds;
  parse_uuid = λ text. none;
  status_to_string = λ s. s.message;
  try_next = λ stream w. (ok none, stream, w);
  current_selected_node = λ w. (ok 5, w);
  read = λ id options w. (err status, suc w);
  send = λ msg w. w;
  sleep = λ delay w. w;
}

abbrev place : StreamOption
place = StreamOption.stream (codes "s") (some RevisionOption.start)

abbrev idle : Subscription refusing
idle = new refusing (some (record { limit = 3; delay = 500 })) (some place)

always-IsRefused : IsRefused refusing status
always-IsRefused = record {
  requests = λ w. w;
  requested = λ id o w. omega arith;
  unasked_by_node = λ w. refl;
  unasked_by_send = λ msg w. refl;
  unasked_by_sleep = λ d w. refl;
  found = λ w. (5, refl);
  refused = λ id o w. refl;
}

not_denied : is_access_denied (from_grpc refusing.status_to_string status) ≡ false
unfolding is_access_denied from_grpc
not_denied = refl

next_subscription_event-HasGivenUp_example :
    HasGivenUp refusing
      (λ w. w)
      (from_grpc refusing.status_to_string status)
      3
      (next_subscription_event refusing 4 idle 0)
unfolding always-IsRefused
next_subscription_event-HasGivenUp_example =
    next_subscription_event-HasGivenUp refusing status always-IsRefused not_denied 4 idle 0 3 refl
      (omega arith) (omega arith) refl

abbrev open_subscription : Subscription refusing
open_subscription = record idle { stream = some tt }

next_subscription_event-never_returns_example :
    next_subscription_event refusing 1000 open_subscription 0 ≡ none
next_subscription_event-never_returns_example =
    next_subscription_event-never_returns refusing 1000 open_subscription tt 0 refl
      (λ stream v. refl)

-- A server whose streams hold an event of revision 7.
abbrev serving : Outside
serving = record refusing {
  try_next = λ stream w. (
    ok (
        some (
          some (
            Content.event (record {
              event = some (record {
                id = some (to_wire 9);
                stream_identifier = some (codes "s");
                stream_revision = 7;
                prepare_position = 70;
                commit_position = 71;
                metadata = (codes "type", codes "opened") ∷ [];
                custom_metadata = [];
                payload = [];
              });
              link = none;
              commit_position = some 71;
            })))),
    stream,
    w,
  );
}

abbrev reading : Subscription serving
reading = record (new serving none (some place)) { stream = some tt }

next-IsResumed_example :
    Whenever serving (IsResumed serving (some place)) (next serving 1 1 reading 0)
next-IsResumed_example = next-IsResumed serving 1 1 reading 0 (some place) refl
