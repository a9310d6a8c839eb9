-- ===== src/Subscription/Retries.antt =====
-- How often a subscription asks for its stream, and what it does at the stream's end (commands.rs).
use trogon_event_store_clien.Base.{
  ◌≡◌, refl, subst, ap, ◌∙◌, ℕ, zero, suc, ◌+◌, ◌-◌, ◌≤◌, ◌<◌, false, not, ◌&&◌, ltb, if_split,
  Option, none, some, Result, ok, err, arith,
}
use trogon_event_store_clien.Uuid.{Uuid}
use trogon_event_store_clien.Errors.{Error, Status, from_grpc, is_access_denied}
use trogon_event_store_clien.Types.{Duration}
use trogon_event_store_clien.Machine.{Msg}
use trogon_event_store_clien.Subscription.{
  StreamOption, Outside, failed, Subscription, Turn, done, again, Outcome, notify, retried,
  selected, turn_with, turn, loop_with, next_subscription_event,
}

module _ (outside : Outside) where
  open outside use {
    World, Stream, status_to_string, try_next, current_selected_node, read, send, sleep,
  }

  -- A node is always found, and refuses every request with the status. The world counts the requests:
  -- only `read` makes one.
  pub record IsRefused (status : Status) : Type 0 where
    pub requests : World → ℕ
    pub requested :
        (id : Uuid) (o : Option StreamOption) (w : World)
        → requests (read id o w).1 ≡ requests w + 1
    pub unasked_by_node : (w : World) → requests (current_selected_node w).1 ≡ requests w
    pub unasked_by_send : (msg : Msg) (w : World) → requests (send msg w) ≡ requests w
    pub unasked_by_sleep : (d : Duration) (w : World) → requests (sleep d w) ≡ requests w
    pub found : (w : World) → (id : Uuid) × ((current_selected_node w).0 ≡ ok id)
    pub refused : (id : Uuid) (o : Option StreamOption) (w : World) → (read id o w).0 ≡ err status

  -- The error is returned after the given number of requests.
  pub record HasGivenUp (requests : World → ℕ) (e : Error) (made : ℕ) (o : Outcome outside)
      : Type 0 where
    pub subscription : Subscription outside
    pub world : World
    pub returned : o ≡ some (err (failed e), subscription, world)
    pub counted : requests world ≡ made

  module _ (status : Status) (always : IsRefused status)
      (allowed : is_access_denied (from_grpc status_to_string status) ≡ false) where
    abbrev given : Error
    given = from_grpc status_to_string status

    -- A round either retries, with one attempt more, or gives up; `n` requests have been made then.
    abbrev Retries : ℕ → Subscription outside → Turn outside → Type 0
    Retries n s (done a s' w') =
        (a ≡ err (failed given)) × (s.limit ≤ s.attempts) × (always.requests w' ≡ n)
    Retries n s (again s' w') =
        (s'.attempts ≡ s.attempts + 1)
        × (s'.limit ≡ s.limit)
        × (s'.stream ≡ s.stream)
        × (s.attempts < s.limit)
        × (always.requests w' ≡ n)

    notify-unasked :
        (msg : Option Msg) (w : World) → always.requests (notify outside msg w) ≡ always.requests w
    notify-unasked none w = refl
    notify-unasked (some msg) w = always.unasked_by_send msg w

    retried-Retries :
        (n : ℕ) (s : Subscription outside) (w : World)
        → always.requests w ≡ n
        → Retries n s (retried outside s given w)
    retried-Retries n s w made =
        if_split (Retries n s) (not (is_access_denied given) && ltb s.attempts s.limit)
          (λ more.
            (refl, refl, refl, ground (arith, allowed), always.unasked_by_sleep s.delay w ∙ made))
          (λ stop. (refl, ground (arith, allowed), made))

    selected-Retries :
        (s : Subscription outside) (node : Result Error Uuid) (id : Uuid) (w : World)
        → node ≡ ok id
        → Retries (always.requests w + 1) s (selected outside s node w)
    selected-Retries s (err e) id w found = cc
    selected-Retries s (ok i) id w found = rw (always.refused i s.options w) (
        retried-Retries (always.requests w + 1) (record s { channel_id = i }) _
          (notify-unasked _ _ ∙ always.requested i s.options w))

    turn-Retries :
        (s : Subscription outside) (stream : Option Stream) (w : World)
        → stream ≡ none
        → Retries (always.requests w + 1) s (turn_with outside stream s w)
    turn-Retries s (some opened) w idle = cc
    turn-Retries s none w idle =
        let (id, found) = always.found w in
        subst (λ n. Retries (n + 1) s (turn_with outside none s w)) (always.unasked_by_node w)
          (selected-Retries s (current_selected_node w).0 id (current_selected_node w).1 found)

    loop_with-HasGivenUp :
        (n : ℕ) (s : Subscription outside) (t : Turn outside) (made : ℕ)
        (rest : Subscription outside → World → Outcome outside)
        → Retries n s t
        → made ≡ n + (s.limit - s.attempts)
        → ((s' : Subscription outside) (w : World)
            → s'.attempts ≡ s.attempts + 1
            → s'.limit ≡ s.limit
            → s'.stream ≡ s.stream
            → s.attempts < s.limit
            → always.requests w ≡ n
            → HasGivenUp always.requests given made (rest s' w))
        → HasGivenUp always.requests given made (loop_with outside t rest)
    loop_with-HasGivenUp n s (done a s' w) made rest (same, enough, asked) e k = record {
      subscription = s';
      world = w;
      returned = rw same refl;
      counted = omega (arith, enough, asked, e);
    }
    loop_with-HasGivenUp n s (again s' w) made rest (one, limit, kept, more, asked) e k =
        k s' w one limit kept more asked

    -- A subscription without a stream, whose count of attempts is not over its limit and whose requests
    -- are all refused with a status other than a denied access, returns that error, in as many
    -- iterations at most as attempts are left and one more, after making just as many requests.
    pub next_subscription_event-HasGivenUp :
        (fuel : ℕ) (s : Subscription outside) (w : World) (made : ℕ)
        → s.stream ≡ none
        → s.attempts ≤ s.limit
        → s.limit - s.attempts < fuel
        → made ≡ always.requests w + (s.limit - s.attempts) + 1
        → HasGivenUp always.requests given made (next_subscription_event outside fuel s w)
    unfolding next_subscription_event turn
    next_subscription_event-HasGivenUp zero s w made idle below enough e =
        absurd (omega (arith, enough))
    next_subscription_event-HasGivenUp (suc fuel) s w made idle below enough e =
        loop_with-HasGivenUp (always.requests w + 1) s (turn outside s w) made
          (λ s' w'. next_subscription_event outside fuel s' w') (turn-Retries s s.stream w idle)
          (omega (arith, e))
          (λ s' w' one limit kept more asked.
            next_subscription_event-HasGivenUp fuel s' w' made (kept ∙ idle)
              (omega (arith, one, limit, more)) (omega (arith, one, limit, more, enough))
              (omega (arith, one, limit, more, asked, e)))

  turn-ended :
      (s : Subscription outside) (opened : Stream) (w : World)
      → ((stream : Stream) (v : World) → (try_next stream v).0 ≡ ok none)
      → turn_with outside (some opened) s w
        ≡ again (record s { stream = some (try_next opened w).1 }) (try_next opened w).2
  turn-ended s opened w ended = rw (ended opened w) refl

  -- At the end of its stream, which then goes on answering that it has ended, the method goes round
  -- without end: no number of iterations makes it return.
  pub next_subscription_event-never_returns :
      (fuel : ℕ) (s : Subscription outside) (opened : Stream) (w : World)
      → s.stream ≡ some opened
      → ((stream : Stream) (v : World) → (try_next stream v).0 ≡ ok none)
      → next_subscription_event outside fuel s w ≡ none
  unfolding next_subscription_event turn
  next_subscription_event-never_returns zero s opened w h ended = refl
  next_subscription_event-never_returns (suc fuel) s opened w h ended =
      ap
        (λ o.
          loop_with outside (turn_with outside o s w)
            (λ s' w'. next_subscription_event outside fuel s' w'))
        h
      ∙ ap (λ t. loop_with outside t (λ s' w'. next_subscription_event outside fuel s' w'))
          (turn-ended s opened w ended)
      ∙ next_subscription_event-never_returns fuel _ (try_next opened w).1 _ refl ended
