-- ===== src/Tests/Delivery.antt =====
-- A run of the theorem on deliveries, with a server that drops every other stream.
use trogon_event_store_clien.Base.{
  ℕ, suc, ◌+◌, ◌%◌, ◌==◌, ◌≡◌, ◌∙◌, sym, refl, if◌then◌else◌, if_split, Option, none, some, [], ok,
  err, arith,
}
use trogon_event_store_clien.Base.Text.{codes}
use trogon_event_store_clien.Uuid.{to_wire, try_from}
use trogon_event_store_clien.Errors.{Status, unavailable}
use trogon_event_store_clien.Events.{
  WireReadEvent, resolved_event, recorded_event, get_original_event, get, remove,
}
use trogon_event_store_clien.Subscription.{
  StreamOption, RevisionOption, Content, Outside, Subscription, new,
}
use trogon_event_store_clien.Subscription.Order.{NextIs, Sends, Responds, IsServed, IsAligned}
use trogon_event_store_clien.Subscription.Delivery.{Consecutive, deliveries, deliveries-Consecutive}

abbrev gone : Status
gone = record { code = unavailable; message = codes "gone"; metadata = λ key. none }

abbrev event_of : ℕ → WireReadEvent
event_of n = record {
  event = some (record {
    id = some (to_wire 9);
    stream_identifier = some (codes "s");
    stream_revision = n;
    prepare_position = n;
    commit_position = n;
    metadata = [];
    custom_metadata = [];
    payload = [];
  });
  link = none;
  commit_position = none;
}

abbrev behind : Option StreamOption → ℕ
behind (some (StreamOption.stream name (some (RevisionOption.revision r)))) = r + 1
behind _ = 0

-- The world counts the calls; a stream is the revision that it sends next.
abbrev flaky : Outside
flaky = record {
  World = ℕ;
  Stream = ℕ;
  Time = ℕ;
  since_epoch = λ seconds nanos. some seconds;
  parse_uuid = λ text. none;
  status_to_string = λ s. s.message;
  try_next = λ c w. (
    if w % 2 == 0 then err gone else ok (some (some (Content.event (event_of c)))),
    c + 1,
    suc w,
  );
  current_selected_node = λ w. (ok 5, w);
  read = λ id place w. (ok (behind place), suc w);
  send = λ msg w. w;
  sleep = λ delay w. w;
}

event_of-Sends : (n : ℕ) → Sends flaky (Content.event (event_of n)) n (n + 1)
unfolding resolved_event recorded_event get remove get_original_event to_wire try_from
event_of-Sends n = (refl, λ r o resolved original. ground arith)

behind-NextIs : (place : Option StreamOption) (n : ℕ) → NextIs place n → behind place ≡ n
behind-NextIs none n p = absurd p
behind-NextIs (some (StreamOption.all old)) n p = absurd p
behind-NextIs (some (StreamOption.stream name none)) n p = absurd p
behind-NextIs (some (StreamOption.stream name (some RevisionOption.start))) n p = omega (arith, p)
behind-NextIs (some (StreamOption.stream name (some RevisionOption.end))) n p = absurd p
behind-NextIs (some (StreamOption.stream name (some (RevisionOption.revision r)))) n p =
    omega (arith, p)

flaky-IsServed : IsServed flaky
flaky-IsServed = record {
  cursor = λ c. c;
  starts =
      λ id place w s n h p. let same : behind place ≡ s = cc in sym same ∙ behind-NextIs place n p;
  sends = λ s w.
      if_split (λ r. Responds flaky r s (s + 1)) (w % 2 == 0) (λ dropped. tt)
        (λ sent. event_of-Sends s);
}

abbrev from_the_start : Subscription flaky
from_the_start =
    new flaky (some (record { limit = 3; delay = 500 }))
      (some (StreamOption.stream (codes "s") (some RevisionOption.start)))

from_the_start-IsAligned : IsAligned flaky flaky-IsServed from_the_start 0
from_the_start-IsAligned = record { placed = refl; in_step = λ c e. cc }

deliveries-Consecutive_example : Consecutive 0 (deliveries flaky 10 10 3 from_the_start 0)
deliveries-Consecutive_example =
    deliveries-Consecutive flaky flaky-IsServed 10 10 3 from_the_start 0 0 from_the_start-IsAligned
