-- ===== src/Subscription/Order.antt =====
-- A subscription to a stream delivers the stream's events in order, each once, whatever connections
-- it loses in between (commands.rs, `Subscription`).
use trogon_event_store_clien.Base.{
  ◌≡◌, refl, subst, ℕ, zero, suc, ◌+◌, not, ◌&&◌, ◌||◌, if_split, ltb, Option, none, some, Result,
  ok, err, arith,
}
use trogon_event_store_clien.Uuid.{Uuid}
use trogon_event_store_clien.Errors.{Error, Status, is_access_denied}
use trogon_event_store_clien.Events.{
  RecordedEvent, ResolvedEvent, resolved_event, get_original_event,
}
use trogon_event_store_clien.Subscription.{
  RevisionOption, StreamOption, stream, Content, SubscriptionEvent, event_appeared, Progress,
  Outside, failed, panic, Subscription, Answer, Turn, done, again, at, Outcome, appeared, on_event,
  progressed, on_content, received, subscribed, selected, turn_with, turn, loop_with,
  next_subscription_event,
}
use trogon_event_store_clien.Subscription.Resume.{Whenever}

-- The revision that comes first after the place to read from, in a stream.
abbrev pub NextIs : Option StreamOption → ℕ → Type 0
NextIs (some (stream name (some RevisionOption.start))) n = n ≡ 0
NextIs (some (stream name (some (RevisionOption.revision r)))) n = n ≡ r + 1
NextIs _ n = ⊥

module _ (outside : Outside) where
  open outside use {World, Stream, Time, since_epoch, parse_uuid, try_next, read}

  -- What a response does to the revision that its stream sends next. An event that is resolved counts
  -- with the revision of its link.
  abbrev pub Sends : Content → ℕ → ℕ → Type 0
  Sends (Content.event e) n n' =
      (n' ≡ n + 1)
      × ((r : ResolvedEvent Time) (o : RecordedEvent Time)
          → resolved_event Time since_epoch parse_uuid e ≡ some r
          → get_original_event r ≡ some o
          → o.revision ≡ n)
  Sends _ n n' = n' ≡ n

  abbrev pub Responds : Result Status (Option (Option Content)) → ℕ → ℕ → Type 0
  Responds (err status) n n' = Unit
  Responds (ok none) n n' = n' ≡ n
  Responds (ok (some none)) n n' = n' ≡ n
  Responds (ok (some (some c))) n n' = Sends c n n'

  -- The server's part: a subscription starts behind its place, and sends the events of the stream one
  -- after the other. The stream keeps all its events: none is truncated.
  pub record IsServed : Type 0 where
    pub cursor : Stream → ℕ
    pub starts :
        (id : Uuid) (place : Option StreamOption) (w : World) (s : Stream) (n : ℕ)
        → (read id place w).0 ≡ ok s
        → NextIs place n
        → cursor s ≡ n
    pub sends :
        (s : Stream) (w : World) → Responds (try_next s w).0 (cursor s) (cursor (try_next s w).1)

  module _ (served : IsServed) where
    open served use {cursor, starts, sends}

    -- The subscription and its stream, if it has one, go on at the same revision.
    pub record IsAligned (s : Subscription outside) (n : ℕ) : Type 0 where
      pub placed : NextIs s.options n
      pub in_step : (c : Stream) → s.stream ≡ some c → cursor c ≡ n

    -- An event is the next one, and moves the subscription on by one revision.
    abbrev pub IsNext : ℕ → Answer outside → Subscription outside → Type 0
    IsNext n (ok (event_appeared e)) s =
        ((o : RecordedEvent Time) × (get_original_event e ≡ some o) × (o.revision ≡ n))
        × IsAligned s (n + 1)
    IsNext n (ok _) s = IsAligned s n
    IsNext n (err (failed e)) s = IsAligned s n
    IsNext n (err panic) s = Unit

    abbrev Turns : ℕ → Turn outside → Type 0
    Turns n (done a s w) = IsNext n a s
    Turns n (again s w) = IsAligned s n

    at-NextIs :
        (e : RecordedEvent Time) (place : StreamOption) (n : ℕ)
        → NextIs (some place) n
        → e.revision ≡ n
        → NextIs (some (at outside e place)) (n + 1)
    at-NextIs e (stream name old) n h r = omega (arith, r)
    at-NextIs e (StreamOption.all old) n h r = absurd h

    appeared-Turns :
        (s : Subscription outside) (c : Stream) (e : ResolvedEvent Time)
        (o : Option (RecordedEvent Time)) (place : Option StreamOption) (w : World) (n : ℕ)
        → get_original_event e ≡ o
        → NextIs place n
        → cursor c ≡ n + 1
        → ((r : RecordedEvent Time) → o ≡ some r → r.revision ≡ n)
        → Turns n (appeared outside (record s { stream = some c }) e o place w)
    appeared-Turns s c e (some o) (some place) w n h placed moved revision = (
      (o, h, revision o refl),
      record {
        placed = at-NextIs o place n placed (revision o refl);
        in_step = λ d eq. let same : c ≡ d = cc in subst (λ x. cursor x ≡ n + 1) same moved;
      },
    )
    appeared-Turns s c e (some o) none w n h placed moved revision = tt
    appeared-Turns s c e none place w n h placed moved revision = tt

    -- The subscription with the stream that has answered.
    abbrev with_stream : Subscription outside → Stream → Subscription outside
    with_stream s c = record s { stream = some c }

    with_stream-IsAligned :
        (s : Subscription outside) (c : Stream) (n : ℕ)
        → NextIs s.options n
        → cursor c ≡ n
        → IsAligned (with_stream s c) n
    with_stream-IsAligned s c n placed h = record {
      placed = placed;
      in_step = λ d eq. let same : c ≡ d = cc in subst (λ x. cursor x ≡ n) same h;
    }

    without-IsAligned :
        (s : Subscription outside) (n : ℕ) → NextIs s.options n → s.stream ≡ none → IsAligned s n
    without-IsAligned s n placed idle = record { placed = placed; in_step = λ d eq. cc }

    on_event-Turns :
        (s : Subscription outside) (c : Stream) (e : Option (ResolvedEvent Time)) (w : World)
        (n : ℕ)
        → NextIs s.options n
        → cursor c ≡ n + 1
        → ((r : ResolvedEvent Time) (o : RecordedEvent Time)
            → e ≡ some r
            → get_original_event r ≡ some o
            → o.revision ≡ n)
        → Turns n (on_event outside (with_stream s c) e w)
    on_event-Turns s c none w n placed moved revision = tt
    on_event-Turns s c (some e) w n placed moved revision =
        appeared-Turns s c e (get_original_event e) s.options w n refl placed moved
          (λ o. revision e o refl)

    progressed-Turns :
        (s : Subscription outside) (n : ℕ)
        → IsAligned s n
        → (p : Option (Option (Progress Time))) (w : World)
        → Turns n (progressed outside s SubscriptionEvent.caught_up p w)
          × Turns n (progressed outside s SubscriptionEvent.fell_behind p w)
    progressed-Turns s n aligned none w = (tt, tt)
    progressed-Turns s n aligned (some p) w = (aligned, aligned)

    on_content-Turns :
        (s : Subscription outside) (d : Stream) (c : Content) (w : World) (n : ℕ)
        → NextIs s.options n
        → Sends c n (cursor d)
        → Turns n (on_content outside (with_stream s d) c w)
    on_content-Turns s d (Content.event e) w n placed (moved, revision) =
        on_event-Turns s d _ w n placed moved revision
    on_content-Turns s d (Content.caught_up p) w n placed h =
        (progressed-Turns _ n (with_stream-IsAligned s d n placed h) _ w).0
    on_content-Turns s d (Content.fell_behind p) w n placed h =
        (progressed-Turns _ n (with_stream-IsAligned s d n placed h) _ w).1
    on_content-Turns s d (Content.confirmation id) w n placed h =
        with_stream-IsAligned s d n placed h
    on_content-Turns s d (Content.checkpoint p) w n placed h = with_stream-IsAligned s d n placed h
    on_content-Turns s d (Content.first_stream_position m) w n placed h =
        with_stream-IsAligned s d n placed h
    on_content-Turns s d (Content.last_stream_position m) w n placed h =
        with_stream-IsAligned s d n placed h
    on_content-Turns s d (Content.last_all_stream_position p) w n placed h =
        with_stream-IsAligned s d n placed h
    on_content-Turns s d Content.other w n placed h = tt

    received-Turns :
        (s : Subscription outside) (resp : Result Status (Option (Option Content))) (d : Stream)
        (w : World) (n : ℕ)
        → NextIs s.options n
        → Responds resp n (cursor d)
        → Turns n (received outside s resp d w)
    received-Turns s (err status) d w n placed h =
        let dropped_one =
          without-IsAligned (record s { stream = none; attempts = 1 }) n placed refl in
        if_split (Turns n) (is_access_denied _ || not s.retry_enabled) (λ stop. dropped_one)
          (λ on. dropped_one)
    received-Turns s (ok none) d w n placed h = with_stream-IsAligned s d n placed h
    received-Turns s (ok (some none)) d w n placed h = with_stream-IsAligned s d n placed h
    received-Turns s (ok (some (some c))) d w n placed h = on_content-Turns s d c w n placed h

    subscribed-Turns :
        (s : Subscription outside) (reply : Result Status Stream) (w : World) (n : ℕ)
        → s.stream ≡ none
        → NextIs s.options n
        → ((c : Stream) → reply ≡ ok c → cursor c ≡ n)
        → Turns n (subscribed outside s reply w)
    subscribed-Turns s (err status) w n idle placed h =
        if_split (Turns n) (not (is_access_denied _) && ltb s.attempts s.limit)
          (λ on. without-IsAligned (record s { attempts = s.attempts + 1 }) n placed idle)
          (λ stop. without-IsAligned s n placed idle)
    subscribed-Turns s (ok c) w n idle placed h = with_stream-IsAligned s c n placed (h c refl)

    selected-Turns :
        (s : Subscription outside) (node : Result Error Uuid) (w : World) (n : ℕ)
        → s.stream ≡ none
        → NextIs s.options n
        → Turns n (selected outside s node w)
    selected-Turns s (err e) w n idle placed = without-IsAligned s n placed idle
    selected-Turns s (ok id) w n idle placed =
        let (reply, w') = read id s.options w in
        subscribed-Turns (record s { channel_id = id }) reply w' n idle placed
          (λ c h. starts id s.options w c n h placed)

    turn-Turns :
        (s : Subscription outside) (c : Option Stream) (w : World) (n : ℕ)
        → s.stream ≡ c
        → IsAligned s n
        → Turns n (turn_with outside c s w)
    turn-Turns s none w n h aligned =
        let (node, w') = outside.current_selected_node w in
        selected-Turns s node w' n h aligned.placed
    turn-Turns s (some c) w n h aligned =
        let (resp, d, w') = try_next c w in
        received-Turns s resp d w' n aligned.placed
          (subst (λ k. Responds resp k (cursor d)) (aligned.in_step c h) (sends c w))

    loop_with-IsNext :
        (t : Turn outside) (rest : Subscription outside → World → Outcome outside) (n : ℕ)
        → Turns n t
        → ((s : Subscription outside) (w : World)
            → IsAligned s n
            → Whenever outside (IsNext n) (rest s w))
        → Whenever outside (IsNext n) (loop_with outside t rest)
    loop_with-IsNext (done a s w) rest n h k = h
    loop_with-IsNext (again s w) rest n h k = k s w h

    pub next_subscription_event-IsNext :
        (fuel : ℕ) (s : Subscription outside) (w : World) (n : ℕ)
        → IsAligned s n
        → Whenever outside (IsNext n) (next_subscription_event outside fuel s w)
    unfolding next_subscription_event turn
    next_subscription_event-IsNext zero s w n h = tt
    next_subscription_event-IsNext (suc fuel) s w n h =
        loop_with-IsNext (turn outside s w) (λ s' w'. next_subscription_event outside fuel s' w') n
          (turn-Turns s s.stream w n refl h)
          (λ s' w' h'. next_subscription_event-IsNext fuel s' w' n h')
