-- ===== src/Tests/Sessions.antt =====
-- Runs of the theorems on the batch session, on reads and on the events that a caller writes.
use trogon_event_store_clien.Base.{
  ◌≡◌, ◌≢◌, refl, ℕ, Bool, true, false, ◌&&◌, ◌==◌, if◌then◌else◌, Option, none, some, List, [],
  ◌∷◌, All, ok, err, arith,
}
use trogon_event_store_clien.Base.Text.{Text, codes, text_eq, text_eq_sound}
use trogon_event_store_clien.Base.Int.{ℤ}
use trogon_event_store_clien.Uuid.{Uuid, to_wire}
use trogon_event_store_clien.Types.{StreamState}
use trogon_event_store_clien.Errors.{Code, Status, unknown, unavailable}
use trogon_event_store_clien.Events.{WireReadEvent}
use trogon_event_store_clien.Proposals.{
  EventData, Json, string, other, Tracing, inject_event_context,
}
use trogon_event_store_clien.Proposals.Kept.{ReadsBack, IsKept, inject_event_context-IsKept}
use trogon_event_store_clien.Batch.{Req, started, append_to_stream}
use trogon_event_store_clien.Batch.Session.{
  success, current_revision, stream_position, BatchAppendResp, System, Event, append, next, serve,
  opened, run,
}
use trogon_event_store_clien.Batch.Session.Faithful.{IsFaithful, run-IsFaithful}
use trogon_event_store_clien.Batch.Session.Ends.{ended-waits}
use trogon_event_store_clien.Streams.Reading.{
  Content, stream_not_found, other, Streaming, collect, contents, collect-contents,
}

abbrev code_from : ℤ → Code
code_from n = unknown

abbrev lossy : Text → Text
lossy s = s

abbrev no_text : Text → Option Uuid
no_text s = none

abbrev printed : Status → Text
printed s = s.message

abbrev lost : Status
lost = record { code = unavailable; message = codes "lost"; metadata = λ key. none }

abbrev no_tracing : Tracing
no_tracing = record {
  V = ℕ;
  is_valid = true;
  fields = (codes "traceparent", codes "00") ∷ (codes "baggage", codes "b") ∷ [];
  from_slice = λ s. some ((codes "user", other 3) ∷ []);
  to_vec = λ o. none;
}

abbrev req : Uuid → Req
req id = record {
  id = id;
  stream_name = codes "s";
  events =
      record { payload = codes "p"; id_opt = none; metadata = []; custom_metadata = none } ∷ [];
  expected_revision = StreamState.stream_revision 7;
}

abbrev written_resp : Uuid → BatchAppendResp
written_resp id = record {
  correlation_id = some (to_wire id);
  stream_identifier = some (codes "s");
  expected_stream_position = some (stream_position 7);
  result = some (success (some (current_revision 8)) none);
}

abbrev session : List Event
session =
    append (req 1) 10
    ∷ append (req 2) 20
    ∷ serve true
    ∷ serve true
    ∷ next (ok (some (written_resp 2)))
    ∷ serve true
    ∷ next (err lost)
    ∷ serve true
    ∷ []

run-IsFaithful_example :
    All
      (IsFaithful code_from lossy no_text printed session)
      (run code_from lossy no_text printed 5 opened session).actor.replies
run-IsFaithful_example = run-IsFaithful code_from lossy no_text printed 5 session

-- The request of caller 10 was sent on, and its response has not come.
abbrev waiting : System
waiting = record {
  actor = record started { reg = record { id = 1; caller = 10 } ∷ [] };
  mailbox = [];
  is_reading = true;
  reported = [];
}

ended-waits_example :
    append_to_stream printed
      (codes "closed")
      10
      (run code_from lossy no_text printed 5 waiting
        (next (ok none) ∷ serve true ∷ next (err lost) ∷ [])).actor
    ≡ none
unfolding append_to_stream
ended-waits_example =
    ended-waits code_from lossy no_text printed 5 waiting 10 (serve true ∷ next (err lost) ∷ [])
      (codes "closed") refl refl refl (tt, (tt, tt))

abbrev event_without : WireReadEvent
event_without = record { event = none; link = none; commit_position = some 3 }

abbrev responses : Streaming
responses =
    ok (some (Content.first_stream_position 0))
    ∷ ok (some (Content.event event_without))
    ∷ ok (some Content.other)
    ∷ ok (some (Content.event event_without))
    ∷ ok (some stream_not_found)
    ∷ []

collect-contents_example :
    collect ℕ (λ s n. some s) no_text printed 5 6 6 responses
    ≡ some (contents ℕ (λ s n. some s) no_text printed responses)
collect-contents_example =
    collect-contents ℕ (λ s n. some s) no_text printed 5 6 6 responses (omega arith) (omega arith)

abbrev user_event : EventData
user_event = record {
  payload = codes "p";
  id_opt = some 4;
  metadata = (codes "type", codes "t") ∷ [];
  custom_metadata = some (0 ∷ 3 ∷ []);
}

abbrev plain_object : ℕ → List (Text × Json ℕ)
plain_object n = (codes "user", Json.other n) ∷ []

abbrev traced_object : ℕ → List (Text × Json ℕ)
traced_object n = (codes "traceparent", string (codes "00")) ∷ plain_object n

-- JSON for objects of these two forms.
abbrev from_slice : Text → Option (List (Text × Json ℕ))
from_slice [] = none
from_slice (c ∷ []) = none
from_slice (c ∷ n ∷ []) = some (if c == 0 then plain_object n else traced_object n)
from_slice (c ∷ n ∷ d ∷ s) = none

abbrev to_vec : List (Text × Json ℕ) → Option Text
to_vec ((k, string v) ∷ (u, Json.other n) ∷ []) =
    if text_eq k (codes "traceparent") && (text_eq v (codes "00") && text_eq u (codes "user"))
    then some (1 ∷ n ∷ [])
    else none
to_vec _ = none

abbrev tracing : Tracing
tracing = record {
  V = ℕ;
  is_valid = true;
  fields = (codes "traceparent", codes "00") ∷ (codes "baggage", codes "b") ∷ [];
  from_slice = from_slice;
  to_vec = to_vec;
}

and_parts : (a b : Bool) → a && b ≡ true → (a ≡ true) × (b ≡ true)
and_parts true b h = (refl, h)
and_parts false b h = cc

abbrev is_traced : Text → Text → Text → Bool
is_traced k v u =
    text_eq k (codes "traceparent") && (text_eq v (codes "00") && text_eq u (codes "user"))

traced_reads :
    (k v u : Text) (n : ℕ)
    → is_traced k v u ≡ true
    → from_slice (1 ∷ n ∷ []) ≡ some ((k, string v) ∷ (u, Json.other n) ∷ [])
traced_reads k v u n h =
    let (first, rest) =
      and_parts (text_eq k (codes "traceparent"))
        (text_eq v (codes "00") && text_eq u (codes "user")) h in
    let (second, third) = and_parts (text_eq v (codes "00")) (text_eq u (codes "user")) rest in
    rw
      (
        text_eq_sound k (codes "traceparent") first,
        text_eq_sound v (codes "00") second,
        text_eq_sound u (codes "user") third,
      )
      refl

written_as :
    (b : Bool) (n : ℕ) (s : Text) {o : List (Text × Json ℕ)}
    → (b ≡ true → from_slice (1 ∷ n ∷ []) ≡ some o)
    → (if b then some (1 ∷ n ∷ []) else none) ≡ some s
    → (s ≢ []) × (from_slice s ≡ some o)
written_as true n s reads h = let e : s ≡ 1 ∷ n ∷ [] = cc in rw e (λ q. cc, reads refl)
written_as false n s reads h = cc

reads_as_written :
    (o : List (Text × Json ℕ)) (s : Text) → to_vec o ≡ some s → (s ≢ []) × (from_slice s ≡ some o)
reads_as_written [] s h = cc
reads_as_written ((k, Json.other v) ∷ o) s h = cc
reads_as_written ((k, string v) ∷ []) s h = cc
reads_as_written ((k, string v) ∷ (u, string w) ∷ o) s h = cc
reads_as_written ((k, string v) ∷ (u, Json.other n) ∷ e ∷ o) s h = cc
reads_as_written ((k, string v) ∷ (u, Json.other n) ∷ []) s h =
    written_as (is_traced k v u) n s (λ t. traced_reads k v u n t) h

tracing-ReadsBack : ReadsBack tracing
tracing-ReadsBack o s h =
    let (filled, back) = reads_as_written o s h in (filled, (o, back, λ key. refl))

inject_event_context-IsKept_example :
    IsKept tracing user_event (plain_object 3) (inject_event_context tracing user_event)
inject_event_context-IsKept_example =
    inject_event_context-IsKept tracing user_event (plain_object 3) tracing-ReadsBack refl
