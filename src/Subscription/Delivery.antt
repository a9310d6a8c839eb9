-- ===== src/Subscription/Delivery.antt =====
-- What an application receives that calls `next` again and again (commands.rs, `Subscription`), next
-- to the specification of a log that is read from one revision on.
use trogon_event_store_clien.Base.{
  ◌≡◌, ap, ◌∙◌, ℕ, zero, suc, ◌+◌, Option, none, some, List, [], ◌∷◌, ok, err,
}
use trogon_event_store_clien.Events.{RecordedEvent, get_original_event}
use trogon_event_store_clien.Subscription.{
  SubscriptionEvent, event_appeared, Outside, failed, panic, Subscription, Outcome,
  next_subscription_event, until_event, next,
}
use trogon_event_store_clien.Subscription.Resume.{Whenever}
use trogon_event_store_clien.Subscription.Order.{
  IsServed, IsAligned, IsNext, next_subscription_event-IsNext,
}

-- The specification: the revisions of a stream from one on.
abbrev pub Consecutive : ℕ → List ℕ → Type 0
Consecutive n [] = Unit
Consecutive n (r ∷ rs) = (r ≡ n) × Consecutive (n + 1) rs

module _ (outside : Outside) where
  open outside use {World, Time}

  abbrev pub revision_before : Option (RecordedEvent Time) → List ℕ → List ℕ
  revision_before none rs = rs
  revision_before (some e) rs = e.revision ∷ rs

  -- An application that calls again after an error, and stops at a panic.
  abbrev pub delivered : Outcome outside → (Subscription outside → World → List ℕ) → List ℕ
  delivered none rest = []
  delivered (some (ok (event_appeared e), s, w)) rest =
      revision_before (get_original_event e) (rest s w)
  delivered (some (ok _, s, w)) rest = rest s w
  delivered (some (err (failed e), s, w)) rest = rest s w
  delivered (some (err panic, s, w)) rest = []

  -- The revisions of the events that it receives in a number of calls.
  unfoldable pub deliveries : ℕ → ℕ → ℕ → Subscription outside → World → List ℕ
  deliveries fuel calls zero s w = []
  deliveries fuel calls (suc count) s w =
      delivered (next outside fuel calls s w) (λ s' w'. deliveries fuel calls count s' w')

  module _ (served : IsServed outside) where
    until_event-IsNext :
        (o : Outcome outside) (rest : Subscription outside → World → Outcome outside) (n : ℕ)
        → Whenever outside (IsNext outside served n) o
        → ((s : Subscription outside) (w : World)
            → IsAligned outside served s n
            → Whenever outside (IsNext outside served n) (rest s w))
        → Whenever outside (IsNext outside served n) (until_event outside o rest)
    until_event-IsNext none rest n h k = h
    until_event-IsNext (some (err f, s, w)) rest n h k = h
    until_event-IsNext (some (ok (event_appeared e), s, w)) rest n h k = h
    until_event-IsNext (some (ok (SubscriptionEvent.confirmed id), s, w)) rest n h k = k s w h
    until_event-IsNext (some (ok (SubscriptionEvent.checkpoint p), s, w)) rest n h k = k s w h
    until_event-IsNext (some (ok (SubscriptionEvent.last_all_position p), s, w)) rest n h k =
        k s w h
    until_event-IsNext (some (ok (SubscriptionEvent.first_stream_position m), s, w)) rest n h k =
        k s w h
    until_event-IsNext (some (ok (SubscriptionEvent.last_stream_position m), s, w)) rest n h k =
        k s w h
    until_event-IsNext (some (ok (SubscriptionEvent.caught_up p), s, w)) rest n h k = k s w h
    until_event-IsNext (some (ok (SubscriptionEvent.fell_behind p), s, w)) rest n h k = k s w h

    next-IsNext :
        (fuel calls : ℕ) (s : Subscription outside) (w : World) (n : ℕ)
        → IsAligned outside served s n
        → Whenever outside (IsNext outside served n) (next outside fuel calls s w)
    unfolding next
    next-IsNext fuel zero s w n h = tt
    next-IsNext fuel (suc calls) s w n h =
        until_event-IsNext (next_subscription_event outside fuel s w)
          (λ s' w'. next outside fuel calls s' w') n
          (next_subscription_event-IsNext outside served fuel s w n h)
          (λ s' w' h'. next-IsNext fuel calls s' w' n h')

    revision_before-Consecutive :
        (e : Option (RecordedEvent Time)) (n : ℕ) (rs : List ℕ)
        → (o : RecordedEvent Time) × (e ≡ some o) × (o.revision ≡ n)
        → Consecutive (n + 1) rs
        → Consecutive n (revision_before e rs)
    revision_before-Consecutive none n rs (o, h, r) rest = cc
    revision_before-Consecutive (some e) n rs (o, h, r) rest =
        let same : e ≡ o = cc in (ap (λ (x : RecordedEvent Time). x.revision) same ∙ r, rest)

    delivered-Consecutive :
        (o : Outcome outside) (rest : Subscription outside → World → List ℕ) (n : ℕ)
        → Whenever outside (IsNext outside served n) o
        → ((s : Subscription outside) (w : World) (m : ℕ)
            → IsAligned outside served s m
            → Consecutive m (rest s w))
        → Consecutive n (delivered o rest)
    delivered-Consecutive none rest n h k = tt
    delivered-Consecutive (some (err (failed e), s, w)) rest n h k = k s w n h
    delivered-Consecutive (some (err panic, s, w)) rest n h k = tt
    delivered-Consecutive (some (ok (event_appeared e), s, w)) rest n (first, aligned) k =
        revision_before-Consecutive (get_original_event e) n (rest s w) first
          (k s w (n + 1) aligned)
    delivered-Consecutive (some (ok (SubscriptionEvent.confirmed id), s, w)) rest n h k = k s w n h
    delivered-Consecutive (some (ok (SubscriptionEvent.checkpoint p), s, w)) rest n h k = k s w n h
    delivered-Consecutive (some (ok (SubscriptionEvent.last_all_position p), s, w)) rest n h k =
        k s w n h
    delivered-Consecutive (some (ok (SubscriptionEvent.first_stream_position m), s, w)) rest n h k =
        k s w n h
    delivered-Consecutive (some (ok (SubscriptionEvent.last_stream_position m), s, w)) rest n h k =
        k s w n h
    delivered-Consecutive (some (ok (SubscriptionEvent.caught_up p), s, w)) rest n h k = k s w n h
    delivered-Consecutive (some (ok (SubscriptionEvent.fell_behind p), s, w)) rest n h k = k s w n h

    -- Given a server that sends the events of a stream in order from behind the place that it is asked
    -- for, an application receives consecutive revisions, from the one behind the subscription's place:
    -- no event is lost or repeated where streams drop, requests are refused or calls return errors.
    pub deliveries-Consecutive :
        (fuel calls count : ℕ) (s : Subscription outside) (w : World) (n : ℕ)
        → IsAligned outside served s n
        → Consecutive n (deliveries fuel calls count s w)
    unfolding deliveries
    deliveries-Consecutive fuel calls zero s w n h = tt
    deliveries-Consecutive fuel calls (suc count) s w n h =
        delivered-Consecutive (next outside fuel calls s w)
          (λ s' w'. deliveries fuel calls count s' w') n (next-IsNext fuel calls s w n h)
          (λ s' w' m h'. deliveries-Consecutive fuel calls count s' w' m h')
