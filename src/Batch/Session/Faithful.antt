-- ===== src/Batch/Session/Faithful.antt =====
-- The replies of a batch session come from the responses to the callers' own requests
-- (commands.rs, `batch_append`; batch.rs).
use trogon_event_store_clien.Base.{
  ◌≡◌, refl, sym, subst, ◌⊎◌, inl, inr, ℕ, Bool, true, false, Bool-cases, Option, none, some, List,
  [], ◌∷◌, ◌++◌, ◌==◌, Result, ok, err, All, All-append, Any, if_split, arith,
}
use trogon_event_store_clien.Base.Int.{ℤ}
use trogon_event_store_clien.Base.Text.{Text}
use trogon_event_store_clien.Uuid.{Uuid}
use trogon_event_store_clien.Errors.{Error, Code, Status, from_grpc}
use trogon_event_store_clien.Batch.{
  Response, BatchMsg, input, out, Entry, Actor, remove, find, insert, tell_all, reply,
}
use trogon_event_store_clien.Batch
use trogon_event_store_clien.Machine.{handle_error}
use trogon_event_store_clien.Batch.Session.{
  BatchAppendResp, decode, System, Event, append, next, refused, serve, opened, send, deliver, read,
  with_forward, serve_next, step, run,
}

-- A reply is right if its caller asked under some identifier, and the server told that result under
-- the same identifier, or the session failed with that error.
module _ (Asked : Uuid → ℕ → Type 0) (Told : Uuid → Response → Type 0)
    (Failed : Error → Type 0) where
  abbrev pub Answers : ℕ → Response → Type 0
  Answers caller r =
      ((id : Uuid) × Asked id caller × Told id r)
      ⊎ ((id : Uuid) × (e : Error) × Asked id caller × (r ≡ err e) × Failed e)

  abbrev pub IsRight : ℕ × Response → Type 0
  IsRight (caller, r) = Answers caller r

  abbrev IsKnown : Entry → Type 0
  IsKnown e = Asked e.id e.caller

  abbrev IsMeant : BatchMsg → Type 0
  IsMeant (input req caller b) = Asked req.id caller
  IsMeant (out id r) = Told id r
  IsMeant (BatchMsg.error e) = Failed e

  abbrev pub IsHonest : Actor → Type 0
  IsHonest s = All IsKnown s.reg × All IsRight s.replies

  All-remove : (id : Uuid) (es : List Entry) → All IsKnown es → All IsKnown (remove id es)
  unfolding remove
  All-remove id [] h = tt
  All-remove id (e ∷ es) h = elim (Bool-cases (e.id == id)) [
    | inl same ↦ rw same (All-remove id es h.1)
    | inr differ ↦ rw differ (h.0, All-remove id es h.1)
  ]

  find-Asked :
      (id : Uuid) (es : List Entry) {caller : ℕ}
      → All IsKnown es
      → find id es ≡ some caller
      → Asked id caller
  unfolding find
  find-Asked id [] h found = cc
  find-Asked id (e ∷ es) {caller} h found = elim (Bool-cases (e.id == id)) [
    | inl same ↦
        let it : e.caller ≡ caller = ground (arith, found, same) in
        let key : e.id ≡ id = ground (arith, same) in
        subst (Asked id) it (subst (λ i. Asked i e.caller) key h.0)
    | inr differ ↦ find-Asked id es h.1 (rw differ at found)
  ]

  tell_all-IsRight :
      (e : Error) (es : List Entry) → Failed e → All IsKnown es → All IsRight (tell_all e es)
  tell_all-IsRight e [] f h = tt
  tell_all-IsRight e (entry ∷ es) f h =
      (inr (entry.id, e, h.0, refl, f), tell_all-IsRight e es f h.1)

  reply-IsHonest :
      (s : Actor) (id : Uuid) (r : Response) (to : Option ℕ)
      → IsHonest s
      → Told id r
      → find id s.reg ≡ to
      → IsHonest (reply s id r to)
  reply-IsHonest s id r none h told found = h
  reply-IsHonest s id r (some caller) h told found =
      let asked = find-Asked id s.reg h.0 found in
      (
        All-remove id s.reg h.0,
        All-append IsRight s.replies ((caller, r) ∷ []) h.1 (inl (id, asked, told), tt),
      )

  step-IsHonest :
      (s : Actor) (msg : BatchMsg) → IsHonest s → IsMeant msg → IsHonest (Batch.step s msg)
  unfolding Batch.step insert
  step-IsHonest s (input req caller true) h m = ((m, All-remove req.id s.reg h.0), h.1)
  step-IsHonest s (input req caller false) h m = h
  step-IsHonest s (out id r) h m = reply-IsHonest s id r (find id s.reg) h m refl
  step-IsHonest s (BatchMsg.error e) h m =
      (tt, All-append IsRight s.replies (tell_all e s.reg) h.1 (tell_all-IsRight e s.reg m h.0))

  module _ (code_from : ℤ → Code) (from_utf8_lossy : Text → Text) (parse_uuid : Text → Option Uuid)
      (status_to_string : Status → Text) (channel_id : Uuid) where
    abbrev pub IsAllowed : Event → Type 0
    IsAllowed (append req caller) = Asked req.id caller
    IsAllowed (next (err status)) = Failed (from_grpc status_to_string status)
    IsAllowed (next (ok none)) = Unit
    IsAllowed (next (ok (some resp))) =
        (id : Uuid) (r : Response)
        → decode code_from from_utf8_lossy parse_uuid resp ≡ some (id, r)
        → Told id r
    IsAllowed (refused status) = Failed (from_grpc status_to_string status)
    IsAllowed (serve forwarded) = Unit

    abbrev pub IsSound : System → Type 0
    IsSound s = IsHonest s.actor × All IsMeant s.mailbox

    send-IsSound : (msg : BatchMsg) (s : System) → IsSound s → IsMeant msg → IsSound (send msg s)
    send-IsSound msg s h m = elim (Bool-cases s.actor.is_running) [
      | inl on ↦ rw on (h.0, All-append IsMeant s.mailbox (msg ∷ []) h.1 (m, tt))
      | inr off ↦ rw off h
    ]

    deliver-IsSound :
        (o : Option (Uuid × Response)) (s : System)
        → IsSound s
        → ((id : Uuid) (r : Response) → o ≡ some (id, r) → Told id r)
        → IsSound (deliver o s)
    deliver-IsSound none s h told = h
    deliver-IsSound (some (id, r)) s h told = elim (Bool-cases s.actor.is_running) [
      | inl on ↦ rw on (h.0, All-append IsMeant s.mailbox (out id r ∷ []) h.1 (told id r refl, tt))
      | inr off ↦ rw off h
    ]

    with_forward-IsMeant :
        (forwarded : Bool) (msg : BatchMsg) → IsMeant msg → IsMeant (with_forward forwarded msg)
    with_forward-IsMeant forwarded (input req caller b) m = m
    with_forward-IsMeant forwarded (out id r) m = m
    with_forward-IsMeant forwarded (BatchMsg.error e) m = m

    serve-IsSound :
        (forwarded : Bool) (mailbox : List BatchMsg) (s : System)
        → IsHonest s.actor
        → s.mailbox ≡ mailbox
        → All IsMeant mailbox
        → IsSound (serve_next forwarded mailbox s)
    serve-IsSound forwarded [] s h same m = (h, subst (All IsMeant) (sym same) m)
    serve-IsSound forwarded (msg ∷ rest) s h same m = (
      step-IsHonest s.actor (with_forward forwarded msg) h (with_forward-IsMeant forwarded msg m.0),
      m.1,
    )

    read-IsSound :
        (result : Result Status (Option BatchAppendResp)) (s : System)
        → IsSound s
        → IsAllowed (next result)
        → IsSound (read code_from from_utf8_lossy parse_uuid status_to_string channel_id result s)
    read-IsSound (err status) s h allowed =
        let e = from_grpc status_to_string status in
        send-IsSound (BatchMsg.error e)
          (record s { reported = s.reported ++ handle_error channel_id e ∷ [] }) h allowed
    read-IsSound (ok none) s h allowed = h
    read-IsSound (ok (some resp)) s h allowed =
        deliver-IsSound (decode code_from from_utf8_lossy parse_uuid resp) s h allowed

    event-IsSound :
        (s : System) (e : Event)
        → IsSound s
        → IsAllowed e
        → IsSound (step code_from from_utf8_lossy parse_uuid status_to_string channel_id s e)
    unfolding step
    event-IsSound s (append req caller) h allowed = send-IsSound (input req caller true) s h allowed
    event-IsSound s (next result) h allowed =
        if_split IsSound s.is_reading (λ on. read-IsSound result s h allowed) (λ off. h)
    event-IsSound s (refused status) h allowed =
        if_split IsSound s.is_reading
          (λ on. send-IsSound (BatchMsg.error (from_grpc status_to_string status)) s h allowed)
          (λ off. h)
    event-IsSound s (serve forwarded) h allowed =
        if_split IsSound s.actor.is_running (λ on. serve-IsSound forwarded s.mailbox s h.0 refl h.1)
          (λ off. h)

    pub run-IsSound :
        (s : System) (es : List Event)
        → IsSound s
        → All IsAllowed es
        → IsSound (run code_from from_utf8_lossy parse_uuid status_to_string channel_id s es)
    unfolding run
    run-IsSound s [] h allowed = h
    run-IsSound s (e ∷ es) h allowed =
        run-IsSound (step code_from from_utf8_lossy parse_uuid status_to_string channel_id s e) es
          (event-IsSound s e h allowed.0) allowed.1

module _ (code_from : ℤ → Code) (from_utf8_lossy : Text → Text) (parse_uuid : Text → Option Uuid)
    (status_to_string : Status → Text) where
  -- The event is the request of the caller under the identifier, tells the result under it, or is the
  -- failure of the session with the error.
  abbrev pub Asks : Uuid → ℕ → Event → Type 0
  Asks id caller (append req c) = (req.id ≡ id) × (c ≡ caller)
  Asks id caller (next result) = ⊥
  Asks id caller (refused status) = ⊥
  Asks id caller (serve forwarded) = ⊥

  abbrev pub Tells : Uuid → Response → Event → Type 0
  Tells id r (append req c) = ⊥
  Tells id r (next (err status)) = ⊥
  Tells id r (next (ok none)) = ⊥
  Tells id r (next (ok (some resp))) =
      decode code_from from_utf8_lossy parse_uuid resp ≡ some (id, r)
  Tells id r (refused status) = ⊥
  Tells id r (serve forwarded) = ⊥

  abbrev pub Fails : Error → Event → Type 0
  Fails e (append req c) = ⊥
  Fails e (next (err status)) = from_grpc status_to_string status ≡ e
  Fails e (next (ok resp)) = ⊥
  Fails e (refused status) = from_grpc status_to_string status ≡ e
  Fails e (serve forwarded) = ⊥

  module _ (all : List Event) where
    abbrev Allowed : Uuid → Event → Type 0
    Allowed channel_id =
        IsAllowed (λ id caller. Any (Asks id caller) all) (λ id r. Any (Tells id r) all)
          (λ e. Any (Fails e) all) code_from from_utf8_lossy parse_uuid status_to_string channel_id

    allow :
        (channel_id : Uuid) (es : List Event)
        → ((P : Event → Type 0) → Any P es → Any P all)
        → All (Allowed channel_id) es
    allow channel_id [] sub = tt
    allow channel_id (append req caller ∷ es) sub =
        (sub (Asks req.id caller) (inl (refl, refl)), allow channel_id es (λ P h. sub P (inr h)))
    allow channel_id (next (err status) ∷ es) sub = (
      sub (Fails (from_grpc status_to_string status)) (inl refl),
      allow channel_id es (λ P h. sub P (inr h)),
    )
    allow channel_id (next (ok none) ∷ es) sub = (tt, allow channel_id es (λ P h. sub P (inr h)))
    allow channel_id (next (ok (some resp)) ∷ es) sub =
        (λ id r told. sub (Tells id r) (inl told), allow channel_id es (λ P h. sub P (inr h)))
    allow channel_id (refused status ∷ es) sub = (
      sub (Fails (from_grpc status_to_string status)) (inl refl),
      allow channel_id es (λ P h. sub P (inr h)),
    )
    allow channel_id (serve forwarded ∷ es) sub = (tt, allow channel_id es (λ P h. sub P (inr h)))

    -- The replies of a caller come from its own requests.
    abbrev pub IsFaithful : ℕ × Response → Type 0
    IsFaithful =
        IsRight (λ id caller. Any (Asks id caller) all) (λ id r. Any (Tells id r) all)
          (λ e. Any (Fails e) all)

  -- In every interleaving of the callers' requests, the responses and the rounds of the loop, each
  -- reply that a caller gets is the result that a response told under the identifier of a request of
  -- that caller, or, for a caller that made a request, the error with which the session failed.
  pub run-IsFaithful :
      (channel_id : Uuid) (es : List Event)
      → All
          (IsFaithful es)
          (run code_from from_utf8_lossy parse_uuid status_to_string channel_id opened
            es).actor.replies
  run-IsFaithful channel_id es =
      let sound =
        run-IsSound (λ id caller. Any (Asks id caller) es) (λ id r. Any (Tells id r) es)
          (λ e. Any (Fails e) es) code_from from_utf8_lossy parse_uuid status_to_string channel_id
          opened es ((tt, tt), tt) (allow es channel_id es (λ P h. h)) in
      sound.0.1
