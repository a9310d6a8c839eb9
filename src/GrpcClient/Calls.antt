-- ===== src/GrpcClient/Calls.antt =====
-- What a call of the client gets from the connection state machine, and reports to it (grpc.rs).
use trogon_event_store_clien.Base.{
  ℕ, ◌≡◌, refl, sym, ap, ◌∙◌, true, false, if_split, Option, none, some, List, [], ◌∷◌, ◌++◌,
  Result, ok, err, arith,
}
use trogon_event_store_clien.Errors.{Error}
use trogon_event_store_clien.Env.{Env}
use trogon_event_store_clien.Connection.{
  HandleInfo, NodeConnection, connection_error, panic, Attempt, next,
}
use trogon_event_store_clien.Connection.Total.{IsSynced, next-IsAnswered}
use trogon_event_store_clien.Machine.{
  Handle, handle_of, Answer, get_channel, Machine, After, served, get, step,
}
use trogon_event_store_clien.Machine.Links.{
  IsLinked, handle_of?, Settles, finish-Settles, step-IsLinked,
}
use trogon_event_store_clien.GrpcClient.{
  answer_to, received, Called, await_answer, current_selected_node,
}

-- A call that gets a channel gets the machine's, which runs on; after an error the machine has stopped.
abbrev pub IsGiven : Result Error Handle → Machine → Type 0
IsGiven (ok h) m = (m.is_running ≡ true) × (m.handle ≡ some h)
IsGiven (err e) m = m.is_running ≡ false

answer_to-append :
    (tag : ℕ) (before : List Answer) (r : Result _ Handle)
    → answer_to tag before ≡ none
    → answer_to tag (before ++ (tag, r) ∷ []) ≡ some r
unfolding answer_to
answer_to-append tag [] r fresh = ground arith
answer_to-append tag ((t, s) ∷ rest) r fresh = ground (arith, answer_to-append tag rest r)

abbrev IsServedTo : ℕ → Machine → Type 0
IsServedTo tag m = IsGiven (received (answer_to tag m.answers)) m

served-IsServedTo :
    (tag : ℕ) (m : Machine) (a : Attempt) (c : NodeConnection)
    → m.is_running ≡ true
    → answer_to tag m.answers ≡ none
    → IsServedTo tag (served tag m a c)
served-IsServedTo tag m (ok info) c on fresh =
    rw (answer_to-append tag m.answers (ok (handle_of info)) fresh) (on, refl)
served-IsServedTo tag m (err (connection_error e)) c on fresh =
    rw (answer_to-append tag m.answers (err e) fresh) refl
served-IsServedTo tag m (err panic) c on fresh = rw fresh refl

module _ (env : Env) where
  open env use {World, status_to_string}

  -- The call returned, with the property.
  abbrev pub Returns : {A : Type 0} → (A → Machine → Type 0) → Called env A → Type 0
  Returns P none = ⊥
  Returns P (some (a, m, w)) = P a m

  get-IsServedTo :
      (tag : ℕ) (m : Machine) (handle : Option Handle) (w : World)
      → m.handle ≡ handle
      → IsLinked m
      → m.is_running ≡ true
      → answer_to tag m.answers ≡ none
      → Settles env (IsServedTo tag) (get env tag m handle w)
  get-IsServedTo tag m (some h) w held linked on fresh =
      rw (answer_to-append tag m.answers (ok h) fresh) (on, held)
  get-IsServedTo tag m none w held linked on fresh =
      finish-Settles env _ (IsServedTo tag) (served tag m) (next env m.connection none w)
        (next-IsAnswered env m.connection none w linked.synced)
        (λ a c h. served-IsServedTo tag m a c on fresh)

  await_answer-Returns :
      (tag : ℕ) (o : After env)
      → Settles env (IsServedTo tag) o
      → Settles env IsLinked o
      → Returns (λ r m. IsGiven r m × IsLinked m) (await_answer env tag o)
  await_answer-Returns tag none given linked = given
  await_answer-Returns tag (some (m, w)) given linked = (given, linked)

  -- A call with a number of its own returns: with the channel that the machine holds, which runs on,
  -- or with an error, and then the machine has stopped. The machine's handle stays its connection's.
  pub current_selected_node-IsGiven :
      (tag : ℕ) (m : Machine) (w : World)
      → IsLinked m
      → answer_to tag m.answers ≡ none
      → Returns (λ r m'. IsGiven r m' × IsLinked m') (current_selected_node env tag m w)
  unfolding current_selected_node step
  current_selected_node-IsGiven tag m w linked fresh =
      if_split (Returns (λ r m'. IsGiven r m' × IsLinked m')) m.is_running
        (λ on.
          await_answer-Returns tag (step env m (get_channel tag) w)
            (get-IsServedTo tag m m.handle w refl linked on fresh)
            (step-IsLinked env m (get_channel tag) w linked))
        (λ off. (off, linked))

  pub held-same_id :
      (h : Handle) (m : Machine) (info : Option HandleInfo)
      → m.connection.handle ≡ info
      → IsLinked m
      → handle_of? info ≡ some h
      → h.id ≡ m.connection.id
  unfolding IsSynced
  held-same_id h m none e linked same = cc
  held-same_id h m (some i) e linked same =
      let eq : handle_of i ≡ h = cc in
      ap (λ (x : Handle). x.id) (sym eq) ∙ (linked.synced i e).same_id
