-- ===== src/Batch/Session/Ends.antt =====
-- How a batch session reads back what it sent, and what its end leaves behind (commands.rs,
-- `batch_append`).
use trogon_event_store_clien.Base.{
  ◌≡◌, refl, sym, subst, ap, ◌∙◌, ℕ, Bool, true, false, Option, none, some, List, [], ◌∷◌, ok, All,
  if_split,
}
use trogon_event_store_clien.Base.Int.{ℤ}
use trogon_event_store_clien.Base.Text.{Text}
use trogon_event_store_clien.Uuid.{Uuid}
use trogon_event_store_clien.Position.{Position}
use trogon_event_store_clien.Errors.{Code, Status}
use trogon_event_store_clien.Batch.{BatchMsg, append_to_stream}
use trogon_event_store_clien.Batch.Session.{
  BatchAppendReq, BatchAppendResp, WireResult, System, Event, append, next, refused, serve,
  serve_next, stop, step, run,
}

-- A server's answer to a request, which repeats the request's identifier, stream and expectation.
abbrev pub answer : BatchAppendReq → WireResult → BatchAppendResp
answer req result = record {
  correlation_id = req.correlation_id;
  stream_identifier = req.stream_identifier;
  expected_stream_position = req.expected_stream_position;
  result = some result;
}

module _ (code_from : ℤ → Code) (from_utf8_lossy : Text → Text)
    (parse_uuid : Text → Option Uuid) where
  module _ (status_to_string : Status → Text) (channel_id : Uuid) where
    -- Not a request of a caller.
    abbrev pub IsNoAppend : Event → Type 0
    IsNoAppend (append req caller) = ⊥
    IsNoAppend (next result) = Unit
    IsNoAppend (refused status) = Unit
    IsNoAppend (serve forwarded) = Unit

    abbrev go : System → Event → System
    go = step code_from from_utf8_lossy parse_uuid status_to_string channel_id

    serve_next-empty :
        (forwarded : Bool) (mailbox : List BatchMsg) (s : System)
        → mailbox ≡ []
        → serve_next forwarded mailbox s ≡ s
    serve_next-empty forwarded [] s empty = refl
    serve_next-empty forwarded (msg ∷ rest) s empty = cc

    step-idle :
        (s : System) (e : Event) → s.is_reading ≡ false → s.mailbox ≡ [] → IsNoAppend e → go s e ≡ s
    unfolding step
    step-idle s (append req caller) off empty e = absurd e
    step-idle s (next result) off empty e =
        if_split (λ t. t ≡ s) s.is_reading (λ on. cc) (λ no_more. refl)
    step-idle s (refused status) off empty e =
        if_split (λ t. t ≡ s) s.is_reading (λ on. cc) (λ no_more. refl)
    step-idle s (serve forwarded) off empty e =
        if_split (λ t. t ≡ s) s.actor.is_running
          (λ on. serve_next-empty forwarded s.mailbox s empty) (λ ended. refl)

    run-idle :
        (s : System) (es : List Event)
        → s.is_reading ≡ false
        → s.mailbox ≡ []
        → All IsNoAppend es
        → run code_from from_utf8_lossy parse_uuid status_to_string channel_id s es ≡ s
    unfolding run
    run-idle s [] off empty es = refl
    run-idle s (e ∷ es) off empty h =
        ap (λ t. run code_from from_utf8_lossy parse_uuid status_to_string channel_id t es)
          (step-idle s e off empty h.0)
        ∙ run-idle s es off empty h.1

    step-ended : (s : System) → s.is_reading ≡ true → go s (next (ok none)) ≡ stop s
    unfolding step
    step-ended s reading = if_split (λ t. t ≡ stop s) s.is_reading (λ on. refl) (λ off. cc)

    -- When the server ends the stream of responses, a caller that waits while the loop has
    -- nothing left to take waits on, however the session goes on, as long as no further request is
    -- made.
    pub ended-waits :
        (s : System) (caller : ℕ) (es : List Event) (closed : Text)
        → s.is_reading ≡ true
        → s.mailbox ≡ []
        → append_to_stream status_to_string closed caller s.actor ≡ none
        → All IsNoAppend es
        → append_to_stream status_to_string closed caller
            (run code_from from_utf8_lossy parse_uuid status_to_string channel_id s
              (next (ok none) ∷ es)).actor
          ≡ none
    unfolding run
    ended-waits s caller es closed reading empty waiting h =
        let same =
          ap (λ t. run code_from from_utf8_lossy parse_uuid status_to_string channel_id t es)
            (step-ended s reading)
          ∙ run-idle (stop s) es refl empty h in
        subst (λ t. append_to_stream status_to_string closed caller t.actor ≡ none) (sym same)
          waiting
