-- ===== src/Streams/Reading.antt =====
-- commands.rs, `ReadStream`: the receiving end of a read. `Streaming` is the list of the results that
-- its `try_next` gives; once they are used up it gives `None`. A result without a content, and an
-- event that cannot be decoded, are a panic.
use trogon_event_store_clien.Base.{
  ◌≡◌, refl, inl, inr, Option-cases, ℕ, zero, suc, ◌<◌, Option, none, some, List, [], ◌∷◌, length,
  Result, ok, err, arith,
}
use trogon_event_store_clien.Base.Text.{Text}
use trogon_event_store_clien.Uuid.{Uuid}
use trogon_event_store_clien.Position.{Position}
use trogon_event_store_clien.Errors.{Error, Status, from_grpc, resource_not_found}
use trogon_event_store_clien.Machine.{Msg, handle_error}
use trogon_event_store_clien.Events.{ResolvedEvent, WireReadEvent, resolved_event}
use trogon_event_store_clien.Subscription.{Failure, failed, panic}

-- The contents of a response; `other` are those of a subscription.
pub data Content : Type 0 where
  event : WireReadEvent → Content
  stream_not_found : Content
  first_stream_position last_stream_position : ℕ → Content
  last_all_stream_position : Position → Content
  other : Content

pub data ReadEvent (Time : Type 0) : Type 0 where
  event : ResolvedEvent Time → ReadEvent Time
  first_stream_position last_stream_position : ℕ → ReadEvent Time
  last_all_stream_position : Position → ReadEvent Time

abbrev pub Streaming : Type 0
Streaming = List (Result Status (Option Content))

-- What a call comes to: its result, the message to the connection, and the stream that is left.
pub record Read (A : Type 0) : Type 0 where
  pub result : Result Failure (Option A)
  pub sent : Option Msg
  pub inner : Streaming

abbrev pub returned : {A : Type 0} → Result Failure (Option A) → Streaming → Read A
returned result rest = record { result = result; sent = none; inner = rest }

module _ (Time : Type 0) (since_epoch : ℕ → ℕ → Option Time) (parse_uuid : Text → Option Uuid)
    (status_to_string : Status → Text) (channel_id : Uuid) where
  abbrev failed_with : {A : Type 0} → Status → Streaming → Read A
  failed_with status rest =
      let e = from_grpc status_to_string status in
      record { result = err (failed e); sent = handle_error channel_id e; inner = rest }

  abbrev pub event_or_panic : Option (ResolvedEvent Time) → Result Failure (Option (ReadEvent Time))
  event_or_panic none = err panic
  event_or_panic (some e) = ok (some (ReadEvent.event e))

  abbrev decoded : WireReadEvent → Option (ResolvedEvent Time)
  decoded e = resolved_event Time since_epoch parse_uuid e

  -- The loop goes round only for the contents of a subscription.
  unfoldable pub next_read_event : Streaming → Read (ReadEvent Time)
  next_read_event [] = returned (ok none) []
  next_read_event (err status ∷ rest) = failed_with status rest
  next_read_event (ok none ∷ rest) = returned (err panic) rest
  next_read_event (ok (some stream_not_found) ∷ rest) =
      returned (err (failed resource_not_found)) rest
  next_read_event (ok (some (Content.event e)) ∷ rest) = returned (event_or_panic (decoded e)) rest
  next_read_event (ok (some (Content.first_stream_position n)) ∷ rest) =
      returned (ok (some (ReadEvent.first_stream_position n))) rest
  next_read_event (ok (some (Content.last_stream_position n)) ∷ rest) =
      returned (ok (some (ReadEvent.last_stream_position n))) rest
  next_read_event (ok (some (Content.last_all_stream_position p)) ∷ rest) =
      returned (ok (some (ReadEvent.last_all_stream_position p))) rest
  next_read_event (ok (some other) ∷ rest) = next_read_event rest

  -- Either the loop of `next` returns, or it asks again.
  abbrev pub next_with :
      Result Failure (Option (ReadEvent Time))
      → Option Msg
      → Streaming
      → (Streaming → Option (Read (ResolvedEvent Time)))
      → Option (Read (ResolvedEvent Time))
  next_with (err f) sent rest again = some (record { result = err f; sent = sent; inner = rest })
  next_with (ok none) sent rest again = some (returned (ok none) rest)
  next_with (ok (some (ReadEvent.event e))) sent rest again = some (returned (ok (some e)) rest)
  next_with (ok (some _)) sent rest again = again rest

  -- The fuel bounds the calls of `next_read_event`.
  unfoldable pub next : ℕ → Streaming → Option (Read (ResolvedEvent Time))
  next zero inner = none
  next (suc fuel) inner =
      let r = next_read_event inner in next_with r.result r.sent r.inner (λ rest. next fuel rest)

-- How a read ends, and what it gave before.
pub data Ending : Type 0 where
  finished panicked : Ending
  failed_by : Error → Ending

abbrev ended_by : Failure → Ending
ended_by (failed e) = failed_by e
ended_by panic = panicked

module _ (Time : Type 0) where
  pub record Collected : Type 0 where
    pub events : List (ResolvedEvent Time)
    pub ending : Ending

  abbrev push : ResolvedEvent Time → Option Collected → Option Collected
  push e none = none
  push e (some c) = some (record c { events = e ∷ c.events })

  abbrev stop : Ending → Collected
  stop e = record { events = []; ending = e }

  -- A caller that asks for events until there is none.
  abbrev pub collect_with :
      Option (Read (ResolvedEvent Time)) → (Streaming → Option Collected) → Option Collected
  collect_with none again = none
  collect_with (some r) again = elim r.result [
    | err f ↦ some (stop (ended_by f))
    | ok none ↦ some (stop finished)
    | ok (some e) ↦ push e (again r.inner)
  ]

  module _ (since_epoch : ℕ → ℕ → Option Time) (parse_uuid : Text → Option Uuid)
      (status_to_string : Status → Text) where
    unfoldable pub collect : Uuid → ℕ → ℕ → Streaming → Option Collected
    collect channel_id fuel zero inner = none
    collect channel_id fuel (suc calls) inner =
        collect_with (next Time since_epoch parse_uuid status_to_string channel_id fuel inner)
          (λ rest. collect channel_id fuel calls rest)

    abbrev event_then : Option (ResolvedEvent Time) → Collected → Collected
    event_then none rest = stop panicked
    event_then (some e) rest = record rest { events = e ∷ rest.events }

    -- What the responses hold: their events in order, up to the first failure or the end.
    unfoldable pub contents : Streaming → Collected
    contents [] = stop finished
    contents (err status ∷ rest) = stop (failed_by (from_grpc status_to_string status))
    contents (ok none ∷ rest) = stop panicked
    contents (ok (some stream_not_found) ∷ rest) = stop (failed_by resource_not_found)
    contents (ok (some (Content.event e)) ∷ rest) =
        event_then (resolved_event Time since_epoch parse_uuid e) (contents rest)
    contents (ok (some _) ∷ rest) = contents rest

    abbrev asked : Uuid → ℕ → Streaming → Option (Read (ResolvedEvent Time))
    asked channel_id fuel inner =
        next Time since_epoch parse_uuid status_to_string channel_id fuel inner

    -- More fuel than there are responses changes nothing.
    next-suc :
        (channel_id : Uuid) (fuel : ℕ) (inner : Streaming)
        → length inner < fuel
        → asked channel_id fuel inner ≡ asked channel_id (suc fuel) inner
    unfolding next next_read_event
    next-suc channel_id zero inner f = absurd (omega (arith, f))
    next-suc channel_id (suc fuel) [] f = refl
    next-suc channel_id (suc fuel) (err status ∷ rest) f = refl
    next-suc channel_id (suc fuel) (ok none ∷ rest) f = refl
    next-suc channel_id (suc fuel) (ok (some stream_not_found) ∷ rest) f = refl
    next-suc channel_id (suc fuel) (ok (some (Content.event e)) ∷ rest) f =
        elim (Option-cases (resolved_event Time since_epoch parse_uuid e)) [
          | inl h ↦ rw h refl
          | inr (r, h) ↦ rw h refl
        ]
    next-suc channel_id (suc fuel) (ok (some (Content.first_stream_position n)) ∷ rest) f =
        next-suc channel_id fuel rest (omega (arith, f))
    next-suc channel_id (suc fuel) (ok (some (Content.last_stream_position n)) ∷ rest) f =
        next-suc channel_id fuel rest (omega (arith, f))
    next-suc channel_id (suc fuel) (ok (some (Content.last_all_stream_position p)) ∷ rest) f =
        next-suc channel_id fuel rest (omega (arith, f))
    next-suc channel_id (suc fuel) (ok (some other) ∷ rest) f =
        next-suc channel_id (suc fuel) rest (omega (arith, f))

    collect_with-suc :
        (channel_id : Uuid) (fuel calls : ℕ) (rest : Streaming)
        → length rest < fuel
        → collect channel_id (suc fuel) (suc calls) rest ≡ some (contents rest)
        → collect_with (asked channel_id fuel rest) (λ r. collect channel_id (suc fuel) calls r)
          ≡ some (contents rest)
    unfolding collect
    collect_with-suc channel_id fuel calls rest f h = rw (next-suc channel_id fuel rest f) h

    -- Asking for events until there is none gives the events of the responses in order, up to the
    -- first failure or the end, and ends with that failure or end, as soon as both bounds exceed
    -- the number of the responses.
    pub collect-contents :
        (channel_id : Uuid) (fuel calls : ℕ) (inner : Streaming)
        → length inner < fuel
        → length inner < calls
        → collect channel_id fuel calls inner ≡ some (contents inner)
    unfolding collect contents next next_read_event
    collect-contents channel_id fuel zero inner f c = absurd (omega (arith, c))
    collect-contents channel_id zero calls inner f c = absurd (omega (arith, f))
    collect-contents channel_id (suc fuel) (suc calls) [] f c = refl
    collect-contents channel_id (suc fuel) (suc calls) (err status ∷ rest) f c = refl
    collect-contents channel_id (suc fuel) (suc calls) (ok none ∷ rest) f c = refl
    collect-contents channel_id (suc fuel) (suc calls) (ok (some stream_not_found) ∷ rest) f c =
        refl
    collect-contents channel_id (suc fuel) (suc calls) (ok (some (Content.event e)) ∷ rest) f c =
        elim (Option-cases (resolved_event Time since_epoch parse_uuid e)) [
          | inl h ↦ rw h refl
          | inr (r, h) ↦
              rw
                (
                  h,
                  collect-contents channel_id (suc fuel) calls rest (omega (arith, f))
                      (omega (arith, c)),
                )
                refl
        ]
    collect-contents channel_id (suc fuel) (suc calls)
          (ok (some (Content.first_stream_position n)) ∷ rest) f c =
        collect_with-suc channel_id fuel calls rest (omega (arith, f)) (
          collect-contents channel_id (suc fuel) (suc calls) rest (omega (arith, f))
            (omega (arith, c)))
    collect-contents channel_id (suc fuel) (suc calls)
          (ok (some (Content.last_stream_position n)) ∷ rest) f c =
        collect_with-suc channel_id fuel calls rest (omega (arith, f)) (
          collect-contents channel_id (suc fuel) (suc calls) rest (omega (arith, f))
            (omega (arith, c)))
    collect-contents channel_id (suc fuel) (suc calls)
          (ok (some (Content.last_all_stream_position p)) ∷ rest) f c =
        collect_with-suc channel_id fuel calls rest (omega (arith, f)) (
          collect-contents channel_id (suc fuel) (suc calls) rest (omega (arith, f))
            (omega (arith, c)))
    collect-contents channel_id (suc fuel) (suc calls) (ok (some other) ∷ rest) f c =
        collect-contents channel_id (suc fuel) (suc calls) rest (omega (arith, f))
          (omega (arith, c))
