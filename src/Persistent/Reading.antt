-- ===== src/Persistent/Reading.antt =====
-- commands.rs, `PersistentSubscription`: the receiving end of a persistent subscription, and its
-- acknowledgements. `Streaming` is the list of the results that its `try_next` gives, and then `None`.
-- `is_open` tells whether the channel of the acknowledgements has a receiver. A panic is a `Failure`.
pub mod Acks
use trogon_event_store_clien.Base.{
  ℕ, Bool, Option, none, some, List, [], ◌∷◌, ◌++◌, map, Result, ok, err, if◌then◌else◌,
}
use trogon_event_store_clien.Base.Text.{Text, codes}
use trogon_event_store_clien.Base.Int.{ℤ, as_u64}
use trogon_event_store_clien.Uuid.{Uuid, WireUuid, to_wire}
use trogon_event_store_clien.Errors.{
  Error, Status, from_grpc, get_str, is_text, illegal_state_error,
}
use trogon_event_store_clien.Machine.{Msg, handle_error}
use trogon_event_store_clien.Events.{
  RecordedEvent, ResolvedEvent, WireReadEvent, resolved_event, get_original_event,
}
use trogon_event_store_clien.Subscription.{Failure, failed, panic}

pub data Count : Type 0 where
  retry_count : ℤ → Count
  no_retry_count : Count

-- `persistent::read_resp::Content`.
pub data Content : Type 0 where
  event : WireReadEvent → Option Count → Content
  confirmation : Text → Content

pub data PersistentSubscriptionEvent (Time : Type 0) : Type 0 where
  event_appeared : ℕ → ResolvedEvent Time → PersistentSubscriptionEvent Time
  confirmed : Text → PersistentSubscriptionEvent Time

pub data NakAction : Type 0 where
  unknown park retry skip stop : NakAction

-- `persistent::read_req::Content` but its options; the `id` of both is empty.
pub data ReadReq : Type 0 where
  ack : List WireUuid → ReadReq
  nack : List WireUuid → ℕ → Text → ReadReq

abbrev pub Streaming : Type 0
Streaming = List (Result Status (Option Content))

pub record PersistentSubscription : Type 0 where
  pub channel_id : Uuid
  pub inner : Streaming
  pub acks : List ReadReq
  pub is_open : Bool

abbrev retries : Option Count → ℕ
retries none = 0
retries (some (retry_count count)) = as_u64 count
retries (some no_retry_count) = 0

unfoldable pub number_of : NakAction → ℕ
number_of unknown = 0
number_of park = 1
number_of retry = 2
number_of skip = 3
number_of stop = 4

abbrev pub Acked : Type 0
Acked = Result Error (Unit {0}) × PersistentSubscription

-- `ack_sender.send`.
abbrev pub send : ReadReq → PersistentSubscription → Acked
send req s = if s.is_open then (ok tt, record s { acks = s.acks ++ req ∷ [] }) else (
  err (illegal_state_error (codes "Ack was ignored as the transaction no longer exists")),
  s,
)

unfoldable pub ack_ids : List Uuid → PersistentSubscription → Acked
ack_ids ids s = send (ack (map to_wire ids)) s

unfoldable pub nack_ids : List Uuid → NakAction → Text → PersistentSubscription → Acked
unfolding number_of
nack_ids ids action reason s = send (nack (map to_wire ids) (number_of action) reason) s

module _ (Time : Type 0) (since_epoch : ℕ → ℕ → Option Time) (parse_uuid : Text → Option Uuid)
    (status_to_string : Status → Text) where
  abbrev on_original : Option (RecordedEvent Time) → (Uuid → Acked) → Option Acked
  on_original none f = none
  on_original (some o) f = some (f o.id)

  -- `ack` and `nack`; `none` is the panic of an event with neither part.
  unfoldable pub ack_event : ResolvedEvent Time → PersistentSubscription → Option Acked
  ack_event e s = on_original (get_original_event e) (λ id. ack_ids (id ∷ []) s)

  unfoldable pub nack_event :
      ResolvedEvent Time → NakAction → Text → PersistentSubscription → Option Acked
  nack_event e action reason s =
      on_original (get_original_event e) (λ id. nack_ids (id ∷ []) action reason s)

  -- What a call comes to: its result, the message to the connection, and what is left.
  pub record Read (A : Type 0) : Type 0 where
    pub result : Result Failure A
    pub sent : Option Msg
    pub rest : Streaming

  abbrev appeared :
      Option Count → Option (ResolvedEvent Time) → Result Failure (PersistentSubscriptionEvent Time)
  appeared count none = err panic
  appeared count (some e) = ok (event_appeared (retries count) e)

  -- `From<Content> for PersistentSubscriptionEvent`.
  unfoldable pub event_of : Content → Result Failure (PersistentSubscriptionEvent Time)
  event_of (event e count) = appeared count (resolved_event Time since_epoch parse_uuid e)
  event_of (confirmation id) = ok (confirmed id)

  abbrev is_dropped : Status → Bool
  is_dropped status =
      is_text (get_str status (codes "exception")) (codes "persistent-subscription-dropped")

  abbrev failure : Uuid → Status → Streaming → Read (PersistentSubscriptionEvent Time)
  failure channel_id status rest =
      let e = from_grpc status_to_string status in
      if is_dropped status
      then record {
        result = err (failed (illegal_state_error (codes "Persistent subscription has dropped")));
        sent = none;
        rest = rest;
      }
      else record { result = err (failed e); sent = handle_error channel_id e; rest = rest }

  -- The end of the stream, and a response without a content, run into `unreachable!()`.
  unfoldable pub next_subscription_event :
      Uuid → Streaming → Read (PersistentSubscriptionEvent Time)
  next_subscription_event channel_id [] = record { result = err panic; sent = none; rest = [] }
  next_subscription_event channel_id (err status ∷ rest) = failure channel_id status rest
  next_subscription_event channel_id (ok none ∷ rest) = record {
    result = err panic;
    sent = none;
    rest = rest;
  }
  next_subscription_event channel_id (ok (some c) ∷ rest) = record {
    result = event_of c;
    sent = none;
    rest = rest;
  }

  abbrev pub next_with :
      Result Failure (PersistentSubscriptionEvent Time)
      → Option Msg
      → Streaming
      → Read (ResolvedEvent Time)
      → Read (ResolvedEvent Time)
  next_with (err f) sent rest again = record { result = err f; sent = sent; rest = rest }
  next_with (ok (event_appeared n e)) sent rest again = record {
    result = ok e;
    sent = none;
    rest = rest;
  }
  next_with (ok (confirmed id)) sent rest again = again

  -- A call of `next_subscription_event` takes one response.
  unfoldable pub next : Uuid → Streaming → Read (ResolvedEvent Time)
  next channel_id [] = record { result = err panic; sent = none; rest = [] }
  next channel_id (resp ∷ rest) =
      let r = next_subscription_event channel_id (resp ∷ rest) in
      next_with r.result r.sent r.rest (next channel_id rest)
