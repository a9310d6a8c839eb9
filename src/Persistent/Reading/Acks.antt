-- ===== src/Persistent/Reading/Acks.antt =====
-- What a persistent subscription sends back, and how it ends (commands.rs).
use trogon_event_store_clien.Base.{
  ◌≡◌, refl, ap, ℕ, ◌<◌, ◌^◌, true, false, Option, none, some, List, [], ◌∷◌, ◌++◌, map, All,
  if_split, ◌==◌, if◌then◌else◌, Result, ok, err,
}
use trogon_event_store_clien.Base.Text.{Text, codes}
use trogon_event_store_clien.Uuid.{Uuid, WireUuid, to_wire, try_from, try_from-to_wire}
use trogon_event_store_clien.Errors.{Status, illegal_state_error}
use trogon_event_store_clien.Subscription.{panic}
use trogon_event_store_clien.Persistent.Reading.{
  Content, confirmation, NakAction, ReadReq, ack, nack, Streaming, PersistentSubscription, Acked,
  number_of, send, ack_ids, nack_ids, event_of, next_subscription_event, next,
}

-- An identifier of 128 bits.
abbrev pub IsUuid : Uuid → Type 0
IsUuid id = id < 2 ^ 128

-- What the server reads of a message: the identifiers, and the action of a negative one.
abbrev pub read_ids : (Text → Option Uuid) → List WireUuid → List (Option Uuid)
read_ids parse ids = map (try_from parse) ids

read_ids-to_wire :
    (parse : Text → Option Uuid) (ids : List Uuid)
    → All IsUuid ids
    → read_ids parse (map to_wire ids) ≡ map some ids
read_ids-to_wire parse [] h = refl
read_ids-to_wire parse (id ∷ ids) h =
    rw (try_from-to_wire parse id h.0, read_ids-to_wire parse ids h.1) refl

-- The server's reading of an action's number.
abbrev pub action_of : ℕ → NakAction
action_of n =
    if n == 1
    then NakAction.park
    else if n == 2
    then NakAction.retry
    else if n == 3
    then NakAction.skip
    else if n == 4
    then NakAction.stop
    else NakAction.unknown

action_of-number_of : (action : NakAction) → action_of (number_of action) ≡ action
unfolding number_of
action_of-number_of NakAction.unknown = refl
action_of-number_of NakAction.park = refl
action_of-number_of NakAction.retry = refl
action_of-number_of NakAction.skip = refl
action_of-number_of NakAction.stop = refl

-- A positive acknowledgement, or a negative one with its action and reason.
abbrev pub Answer : Type 0
Answer = Option (NakAction × Text)

abbrev pub answer_ids : Answer → List Uuid → PersistentSubscription → Acked
answer_ids none ids s = ack_ids ids s
answer_ids (some (action, reason)) ids s = nack_ids ids action reason s

abbrev pub meaning : (Text → Option Uuid) → ReadReq → Answer × List (Option Uuid)
meaning parse (ack ids) = (none, read_ids parse ids)
meaning parse (nack ids n reason) = (some (action_of n, reason), read_ids parse ids)

-- The call succeeds and its one message means the answer; a closed channel is an error.
abbrev pub IsTold :
    (Text → Option Uuid) → Answer → List Uuid → PersistentSubscription → Acked → Type 0
IsTold parse answer ids s acked =
    (s.is_open ≡ true
      → (acked.0 ≡ ok tt)
        × ((req : ReadReq) × (acked.1.acks ≡ s.acks ++ req ∷ [])
            × (meaning parse req ≡ (answer, map some ids))))
    × (s.is_open ≡ false
        → (acked.0
            ≡ err
                (illegal_state_error (codes "Ack was ignored as the transaction no longer exists")))
          × (acked.1 ≡ s))

send-IsTold :
    (parse : Text → Option Uuid) (answer : Answer) (ids : List Uuid) (s : PersistentSubscription)
    (req : ReadReq)
    → meaning parse req ≡ (answer, map some ids)
    → IsTold parse answer ids s (send req s)
send-IsTold parse answer ids s req m = (
  λ open_. rw open_ (refl, (req, refl, m)),
  λ shut. (rw shut refl, if_split (λ (b : Acked). b.1 ≡ s) s.is_open (λ on. cc) (λ off. refl)),
)

-- An acknowledgement, positive or negative, of identifiers of 128 bits sends one message, in which the server
-- reads the answer with its action and reason, and the identifiers in their order; once the channel is closed
-- it is an error and sends nothing.
pub answer_ids-IsTold :
    (parse : Text → Option Uuid) (answer : Answer) (ids : List Uuid) (s : PersistentSubscription)
    → All IsUuid ids
    → IsTold parse answer ids s (answer_ids answer ids s)
unfolding ack_ids nack_ids
answer_ids-IsTold parse none ids s h =
    send-IsTold parse none ids s (ack (map to_wire ids))
      (ap (λ t. (none, t)) (read_ids-to_wire parse ids h))
answer_ids-IsTold parse (some (action, reason)) ids s h =
    send-IsTold parse (some (action, reason)) ids s
      (nack (map to_wire ids) (number_of action) reason)
      (rw (action_of-number_of action, read_ids-to_wire parse ids h) refl)

module _ (Time : Type 0) (since_epoch : ℕ → ℕ → Option Time) (parse_uuid : Text → Option Uuid)
    (status_to_string : Status → Text) where
  abbrev pub IsConfirmation : Result Status (Option Content) → Type 0
  IsConfirmation (ok (some (confirmation id))) = Unit
  IsConfirmation _ = ⊥

  -- When the server ends the stream, a caller that waits for an event runs into a panic, whatever
  -- confirmations came before.
  pub next-ended :
      (channel_id : Uuid) (inner : Streaming)
      → All IsConfirmation inner
      → (next Time since_epoch parse_uuid status_to_string channel_id inner).result ≡ err panic
  unfolding next next_subscription_event event_of
  next-ended channel_id [] h = refl
  next-ended channel_id (ok (some (confirmation id)) ∷ rest) h = next-ended channel_id rest h.1
  next-ended channel_id (ok (some (Content.event e count)) ∷ rest) h = absurd h.0
  next-ended channel_id (ok none ∷ rest) h = absurd h.0
  next-ended channel_id (err status ∷ rest) h = absurd h.0
