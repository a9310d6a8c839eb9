-- ===== src/Subscription/Resume.antt =====
-- Where a subscription goes on from after it has lost its stream (commands.rs, `Subscription`).
use trogon_event_store_clien.Base.{
  ◌≡◌, refl, ◌⊎◌, inl, inr, arith, subst, ℕ, zero, suc, not, ◌&&◌, ◌||◌, if_split, ltb, Option,
  none, some, Result, ok, err,
}
use trogon_event_store_clien.Uuid.{Uuid}
use trogon_event_store_clien.Errors.{Error, Status, is_access_denied}
use trogon_event_store_clien.Events.{RecordedEvent, ResolvedEvent, get_original_event}
use trogon_event_store_clien.Subscription.{
  StreamOption, stream, all, RevisionOption, AllOption, Content, SubscriptionEvent, event_appeared,
  Progress, Outside, Subscription, Answer, Turn, done, again, at, Outcome, appeared, on_event,
  progressed, on_content, received, subscribed, selected, turn_with, turn, loop_with,
  next_subscription_event, until_event, next,
}

module _ (outside : Outside) where
  open outside use {World, Stream, Time}

  -- The event whose place counts: the link, if there is one.
  abbrev pub IsOriginal : ResolvedEvent Time → RecordedEvent Time → Type 0
  IsOriginal e o = (e.link ≡ some o) ⊎ ((e.link ≡ none) × (e.event ≡ some o))

  -- To read from an event on: from its revision in the same stream, or from its position in `$all`.
  abbrev pub ReadsFrom : RecordedEvent Time → StreamOption → StreamOption → Type 0
  ReadsFrom o (stream name old) now = now ≡ stream name (some (RevisionOption.revision o.revision))
  ReadsFrom o (all old) now = now ≡ all (some (AllOption.position o.position))

  -- An event that has appeared has moved the place to its own; everything else has left the place.
  pub record IsPlaced (before after : Option StreamOption) (e : ResolvedEvent Time) : Type 0 where
    pub original : RecordedEvent Time
    pub was : StreamOption
    pub now : StreamOption
    pub is_original : IsOriginal e original
    pub from : before ≡ some was
    pub to : after ≡ some now
    pub moved : ReadsFrom original was now

  abbrev pub IsResumed : Option StreamOption → Answer outside → Subscription outside → Type 0
  IsResumed before (ok (event_appeared e)) s = IsPlaced before s.options e
  IsResumed before (ok _) s = s.options ≡ before
  IsResumed before (err f) s = s.options ≡ before

  -- If it has returned, then with the property.
  abbrev pub Whenever : (Answer outside → Subscription outside → Type 0) → Outcome outside → Type 0
  Whenever P none = Unit
  Whenever P (some (a, s, w)) = P a s

  abbrev Turns : Option StreamOption → Turn outside → Type 0
  Turns before (done a s w) = IsResumed before a s
  Turns before (again s w) = s.options ≡ before

  get_original_event-IsOriginal :
      (e : ResolvedEvent Time) (link event : Option (RecordedEvent Time)) (o : RecordedEvent Time)
      → e.link ≡ link
      → e.event ≡ event
      → get_original_event e ≡ some o
      → IsOriginal e o
  unfolding get_original_event
  get_original_event-IsOriginal e (some l) event o linked recorded h =
      inl (ground (arith, linked, h))
  get_original_event-IsOriginal e none event o linked recorded h =
      inr (linked, ground (arith, linked, h))

  at-ReadsFrom :
      (o : RecordedEvent Time) (place : StreamOption) → ReadsFrom o place (at outside o place)
  at-ReadsFrom o (stream name old) = refl
  at-ReadsFrom o (all old) = refl

  appeared-Turns :
      (s : Subscription outside) (e : ResolvedEvent Time) (o : Option (RecordedEvent Time))
      (place : Option StreamOption) (w : World)
      → get_original_event e ≡ o
      → s.options ≡ place
      → Turns s.options (appeared outside s e o place w)
  appeared-Turns s e (some o) (some place) w h p = record {
    original = o;
    was = place;
    now = at outside o place;
    is_original = get_original_event-IsOriginal e e.link e.event o refl refl h;
    from = p;
    to = refl;
    moved = at-ReadsFrom o place;
  }
  appeared-Turns s e (some o) none w h p = refl
  appeared-Turns s e none place w h p = refl

  on_event-Turns :
      (s : Subscription outside) (e : Option (ResolvedEvent Time)) (w : World)
      → Turns s.options (on_event outside s e w)
  on_event-Turns s none w = refl
  on_event-Turns s (some e) w = appeared-Turns s e (get_original_event e) s.options w refl refl

  caught_up-Turns :
      (s : Subscription outside) (p : Option (Option (Progress Time))) (w : World)
      → Turns s.options (progressed outside s SubscriptionEvent.caught_up p w)
  caught_up-Turns s none w = refl
  caught_up-Turns s (some p) w = refl

  fell_behind-Turns :
      (s : Subscription outside) (p : Option (Option (Progress Time))) (w : World)
      → Turns s.options (progressed outside s SubscriptionEvent.fell_behind p w)
  fell_behind-Turns s none w = refl
  fell_behind-Turns s (some p) w = refl

  on_content-Turns :
      (s : Subscription outside) (c : Content) (w : World)
      → Turns s.options (on_content outside s c w)
  on_content-Turns s (Content.event e) w = on_event-Turns s _ w
  on_content-Turns s (Content.confirmation id) w = refl
  on_content-Turns s (Content.checkpoint p) w = refl
  on_content-Turns s (Content.first_stream_position n) w = refl
  on_content-Turns s (Content.last_stream_position n) w = refl
  on_content-Turns s (Content.last_all_stream_position p) w = refl
  on_content-Turns s (Content.caught_up p) w = caught_up-Turns s _ w
  on_content-Turns s (Content.fell_behind p) w = fell_behind-Turns s _ w
  on_content-Turns s Content.other w = refl

  received-Turns :
      (s : Subscription outside) (resp : Result Status (Option (Option Content))) (rest : Stream)
      (w : World)
      → Turns s.options (received outside s resp rest w)
  received-Turns s (err status) rest w =
      if_split (Turns s.options) (is_access_denied _ || not s.retry_enabled) (λ stop. refl)
        (λ on. refl)
  received-Turns s (ok none) rest w = refl
  received-Turns s (ok (some none)) rest w = refl
  received-Turns s (ok (some (some c))) rest w =
      on_content-Turns (record s { stream = some rest }) c w

  subscribed-Turns :
      (s : Subscription outside) (reply : Result Status Stream) (w : World)
      → Turns s.options (subscribed outside s reply w)
  subscribed-Turns s (err status) w =
      if_split (Turns s.options) (not (is_access_denied _) && ltb s.attempts s.limit) (λ on. refl)
        (λ stop. refl)
  subscribed-Turns s (ok opened) w = refl

  selected-Turns :
      (s : Subscription outside) (node : Result Error Uuid) (w : World)
      → Turns s.options (selected outside s node w)
  selected-Turns s (err e) w = refl
  selected-Turns s (ok id) w = subscribed-Turns (record s { channel_id = id }) _ _

  turn-Turns :
      (s : Subscription outside) (stream : Option Stream) (w : World)
      → Turns s.options (turn_with outside stream s w)
  turn-Turns s none w = let (node, w') = outside.current_selected_node w in selected-Turns s node w'
  turn-Turns s (some opened) w =
      let (resp, rest, w') = outside.try_next opened w in received-Turns s resp rest w'

  loop_with-IsResumed :
      (before : Option StreamOption) (t : Turn outside)
      (rest : Subscription outside → World → Outcome outside)
      → Turns before t
      → ((s : Subscription outside) (w : World)
          → s.options ≡ before
          → Whenever (IsResumed before) (rest s w))
      → Whenever (IsResumed before) (loop_with outside t rest)
  loop_with-IsResumed before (done a s w) rest h k = h
  loop_with-IsResumed before (again s w) rest h k = k s w h

  next_subscription_event-IsResumed :
      (fuel : ℕ) (s : Subscription outside) (w : World) (before : Option StreamOption)
      → s.options ≡ before
      → Whenever (IsResumed before) (next_subscription_event outside fuel s w)
  unfolding next_subscription_event turn
  next_subscription_event-IsResumed zero s w before h = tt
  next_subscription_event-IsResumed (suc fuel) s w before h =
      loop_with-IsResumed before (turn outside s w)
        (λ s' w'. next_subscription_event outside fuel s' w')
        (subst (λ b. Turns b (turn outside s w)) h (turn-Turns s s.stream w))
        (λ s' w' same. next_subscription_event-IsResumed fuel s' w' before same)

  until_event-IsResumed :
      (before : Option StreamOption) (o : Outcome outside)
      (rest : Subscription outside → World → Outcome outside)
      → Whenever (IsResumed before) o
      → ((s : Subscription outside) (w : World)
          → s.options ≡ before
          → Whenever (IsResumed before) (rest s w))
      → Whenever (IsResumed before) (until_event outside o rest)
  until_event-IsResumed before none rest h k = h
  until_event-IsResumed before (some (err f, s, w)) rest h k = h
  until_event-IsResumed before (some (ok (event_appeared e), s, w)) rest h k = h
  until_event-IsResumed before (some (ok (SubscriptionEvent.confirmed id), s, w)) rest h k = k s w h
  until_event-IsResumed before (some (ok (SubscriptionEvent.checkpoint p), s, w)) rest h k = k s w h
  until_event-IsResumed before (some (ok (SubscriptionEvent.last_all_position p), s, w)) rest h k =
      k s w h
  until_event-IsResumed before (some (ok (SubscriptionEvent.first_stream_position n), s, w)) rest h
        k =
      k s w h
  until_event-IsResumed before (some (ok (SubscriptionEvent.last_stream_position n), s, w)) rest h
        k =
      k s w h
  until_event-IsResumed before (some (ok (SubscriptionEvent.caught_up p), s, w)) rest h k = k s w h
  until_event-IsResumed before (some (ok (SubscriptionEvent.fell_behind p), s, w)) rest h k =
      k s w h

  -- Whenever `next` returns, through any number of dropped streams and refused requests, an event
  -- that it returns has moved the place to read from to that event's revision, or position in `$all`:
  -- the one of the link, if there is one. An error, and all that is no event, leave the place.
  pub next-IsResumed :
      (fuel calls : ℕ) (s : Subscription outside) (w : World) (before : Option StreamOption)
      → s.options ≡ before
      → Whenever (IsResumed before) (next outside fuel calls s w)
  unfolding next
  next-IsResumed fuel zero s w before h = tt
  next-IsResumed fuel (suc calls) s w before h =
      until_event-IsResumed before (next_subscription_event outside fuel s w)
        (λ s' w'. next outside fuel calls s' w')
        (next_subscription_event-IsResumed fuel s w before h)
        (λ s' w' same. next-IsResumed fuel calls s' w' before same)
