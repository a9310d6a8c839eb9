-- ===== src/Subscription.antt =====
-- commands.rs, `Subscription`: the receiving end of a catch-up subscription, with its resumption and
-- its retries. One iteration of the loop is `turn`; the loop takes fuel, for it may go on forever.
-- The metadata of the request and the options besides the place to read from stay as they are, and
-- are left out.
pub mod Resume
pub mod Retries
pub mod Order
pub mod Delivery
use trogon_event_store_clien.Base.{
  ℕ, zero, suc, ◌+◌, Bool, true, false, not, ◌&&◌, ◌||◌, Option, none, some, Result, ok, err, ltb,
  ◌==◌, if◌then◌else◌,
}
use trogon_event_store_clien.Base.Int.{ℤ, as_u64}
use trogon_event_store_clien.Base.Text.{Text}
use trogon_event_store_clien.Uuid.{Uuid, nil}
use trogon_event_store_clien.Position.{Position}
use trogon_event_store_clien.Types.{Duration}
use trogon_event_store_clien.Errors.{Error, Status, from_grpc, is_access_denied}
use trogon_event_store_clien.Machine.{Msg, handle_error}
use trogon_event_store_clien.Events.{
  RecordedEvent, ResolvedEvent, WireReadEvent, resolved_event, get_original_event,
}

pub data RevisionOption : Type 0 where
  start end : RevisionOption
  revision : ℕ → RevisionOption

pub data AllOption : Type 0 where
  start end : AllOption
  position : Position → AllOption

pub data StreamOption : Type 0 where
  stream : Text → Option RevisionOption → StreamOption
  all : Option AllOption → StreamOption

pub record Timestamp : Type 0 where
  pub seconds : ℤ
  pub nanos : ℕ

-- The arguments of `CaughtUp` and of `FellBehind` on the wire.
pub record WireProgress : Type 0 where
  pub timestamp : Option Timestamp
  pub stream_revision : Option ℤ
  pub position : Option Position

-- The contents of a response; `other` are those of a plain read.
pub data Content : Type 0 where
  event : WireReadEvent → Content
  confirmation : Text → Content
  checkpoint last_all_stream_position : Position → Content
  first_stream_position last_stream_position : ℕ → Content
  caught_up fell_behind : WireProgress → Content
  other : Content

pub record Progress (Time : Type 0) : Type 0 where
  pub timestamp : Time
  pub stream_revision : Option ℕ
  pub position : Option Position

pub data SubscriptionEvent (Time : Type 0) : Type 0 where
  event_appeared : ResolvedEvent Time → SubscriptionEvent Time
  confirmed : Text → SubscriptionEvent Time
  checkpoint last_all_position : Position → SubscriptionEvent Time
  first_stream_position last_stream_position : ℕ → SubscriptionEvent Time
  caught_up fell_behind : Option (Progress Time) → SubscriptionEvent Time

-- What the subscription asks of the outside. An instant is `none` where it is out of range.
pub record Outside : Type 1 where
  pub World : Type 0
  pub Stream : Type 0
  pub Time : Type 0
  pub since_epoch : ℕ → ℕ → Option Time
  pub parse_uuid : Text → Option Uuid
  pub status_to_string : Status → Text
  pub try_next : Stream → World → Result Status (Option (Option Content)) × Stream × World
  pub current_selected_node : World → Result Error Uuid × World
  pub read : Uuid → Option StreamOption → World → Result Status Stream × World
  pub send : Msg → World → World
  pub sleep : Duration → World → World

pub record RetryOptions : Type 0 where
  pub limit : ℕ
  pub delay : Duration

pub data Failure : Type 0 where
  failed : Error → Failure
  panic : Failure

module _ (outside : Outside) where
  open outside use {
    World, Stream, Time, since_epoch, parse_uuid, status_to_string, try_next, current_selected_node,
    read, send, sleep,
  }

  pub record Subscription : Type 0 where
    pub channel_id : Uuid
    pub stream : Option Stream
    pub attempts : ℕ
    pub limit : ℕ
    pub retry_enabled : Bool
    pub delay : Duration
    pub options : Option StreamOption

  abbrev pub limit_of : Option RetryOptions → ℕ
  limit_of none = 1
  limit_of (some retry) = retry.limit

  abbrev pub delay_of : Option RetryOptions → Duration
  delay_of none = 0
  delay_of (some retry) = retry.delay

  abbrev pub enabled_of : Option RetryOptions → Bool
  enabled_of none = false
  enabled_of (some retry) = true

  abbrev pub new : Option RetryOptions → Option StreamOption → Subscription
  new retry options = record {
    channel_id = nil;
    stream = none;
    attempts = 1;
    limit = limit_of retry;
    retry_enabled = enabled_of retry;
    delay = delay_of retry;
    options = options;
  }

  abbrev pub Answer : Type 0
  Answer = Result Failure (SubscriptionEvent Time)

  -- An iteration either returns from the method or goes round again.
  pub data Turn : Type 0 where
    done : Answer → Subscription → World → Turn
    again : Subscription → World → Turn

  abbrev pub notify : Option Msg → World → World
  notify none w = w
  notify (some msg) w = send msg w

  -- The place of an event, to go on from.
  abbrev pub at : RecordedEvent Time → StreamOption → StreamOption
  at e (stream name old) = stream name (some (RevisionOption.revision e.revision))
  at e (all old) = all (some (AllOption.position e.position))

  abbrev pub appeared :
      Subscription
      → ResolvedEvent Time
      → Option (RecordedEvent Time)
      → Option StreamOption
      → World
      → Turn
  appeared s e (some o) (some place) w =
      done (ok (event_appeared e)) (record s { options = some (at o place) }) w
  appeared s e (some o) none w = done (err panic) s w
  appeared s e none place w = done (err panic) s w

  abbrev pub on_event : Subscription → Option (ResolvedEvent Time) → World → Turn
  on_event s none w = done (err panic) s w
  on_event s (some e) w = appeared s e (get_original_event e) s.options w

  abbrev revision_of : Option ℤ → Option ℕ
  revision_of none = none
  revision_of (some n) = some (as_u64 n)

  -- `args.timestamp.map`, under the panic of an instant out of range.
  abbrev progress_at : WireProgress → Option Time → Option (Option (Progress Time))
  progress_at p none = none
  progress_at p (some time) = some (
      some (record {
        timestamp = time;
        stream_revision = revision_of p.stream_revision;
        position = p.position;
      }))

  abbrev progress : WireProgress → Option Timestamp → Option (Option (Progress Time))
  progress p none = some none
  progress p (some t) = progress_at p (since_epoch (as_u64 t.seconds) t.nanos)

  abbrev pub progressed :
      Subscription
      → (Option (Progress Time) → SubscriptionEvent Time)
      → Option (Option (Progress Time))
      → World
      → Turn
  progressed s f none w = done (err panic) s w
  progressed s f (some p) w = done (ok (f p)) s w

  abbrev pub on_content : Subscription → Content → World → Turn
  on_content s (event e) w = on_event s (resolved_event Time since_epoch parse_uuid e) w
  on_content s (confirmation id) w = done (ok (confirmed id)) s w
  on_content s (Content.checkpoint p) w = done (ok (SubscriptionEvent.checkpoint p)) s w
  on_content s (Content.first_stream_position n) w =
      done (ok (SubscriptionEvent.first_stream_position n)) s w
  on_content s (Content.last_stream_position n) w =
      done (ok (SubscriptionEvent.last_stream_position n)) s w
  on_content s (last_all_stream_position p) w = done (ok (last_all_position p)) s w
  on_content s (Content.caught_up p) w =
      progressed s SubscriptionEvent.caught_up (progress p p.timestamp) w
  on_content s (Content.fell_behind p) w =
      progressed s SubscriptionEvent.fell_behind (progress p p.timestamp) w
  on_content s other w = done (err panic) s w

  -- What a stream that has dropped comes to.
  abbrev pub dropped : Subscription → Error → World → Turn
  dropped s e w =
      if is_access_denied e || not s.retry_enabled then done (err (failed e)) s w else again s w

  abbrev pub received :
      Subscription → Result Status (Option (Option Content)) → Stream → World → Turn
  received s (err status) next w =
      let e = from_grpc status_to_string status in
      dropped (record s { stream = none; attempts = 1 }) e (notify (handle_error s.channel_id e) w)
  received s (ok none) next w = again (record s { stream = some next }) w
  received s (ok (some none)) next w = again (record s { stream = some next }) w
  received s (ok (some (some c))) next w = on_content (record s { stream = some next }) c w

  -- What a request that was refused comes to.
  abbrev pub retried : Subscription → Error → World → Turn
  retried s e w =
      if not (is_access_denied e) && ltb s.attempts s.limit
      then again (record s { attempts = s.attempts + 1 }) (sleep s.delay w)
      else done (err (failed e)) s w

  abbrev pub subscribed : Subscription → Result Status Stream → World → Turn
  subscribed s (err status) w =
      let e = from_grpc status_to_string status in
      retried s e (notify (handle_error s.channel_id e) w)
  subscribed s (ok opened) w = again (record s { stream = some opened }) w

  abbrev pub selected : Subscription → Result Error Uuid → World → Turn
  selected s (err e) w = done (err (failed e)) s w
  selected s (ok id) w =
      let (reply, w') = read id s.options w in subscribed (record s { channel_id = id }) reply w'

  -- An iteration without a stream, and one with a stream.
  abbrev pub subscribe : Subscription → World → Turn
  subscribe s w = let (node, w') = current_selected_node w in selected s node w'

  abbrev pub turn_with : Option Stream → Subscription → World → Turn
  turn_with none s w = subscribe s w
  turn_with (some opened) s w = let (resp, next, w') = try_next opened w in received s resp next w'

  unfoldable pub turn : Subscription → World → Turn
  turn s w = turn_with s.stream s w

  abbrev pub Outcome : Type 0
  Outcome = Option (Answer × Subscription × World)

  abbrev pub loop_with : Turn → (Subscription → World → Outcome) → Outcome
  loop_with (done a s w) rest = some (a, s, w)
  loop_with (again s w) rest = rest s w

  -- `next_subscription_event`.
  unfoldable pub next_subscription_event : ℕ → Subscription → World → Outcome
  next_subscription_event zero s w = none
  next_subscription_event (suc fuel) s w =
      loop_with (turn s w) (λ s' w'. next_subscription_event fuel s' w')

  abbrev pub until_event : Outcome → (Subscription → World → Outcome) → Outcome
  until_event none rest = none
  until_event (some (err f, s, w)) rest = some (err f, s, w)
  until_event (some (ok (event_appeared e), s, w)) rest = some (ok (event_appeared e), s, w)
  until_event (some (ok _, s, w)) rest = rest s w

  -- `next`: the fuel bounds the calls, and the iterations of each.
  unfoldable pub next : ℕ → ℕ → Subscription → World → Outcome
  next fuel zero s w = none
  next fuel (suc calls) s w =
      until_event (next_subscription_event fuel s w) (λ s' w'. next fuel calls s' w')
