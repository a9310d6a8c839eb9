-- ===== src/Machine/Answers.antt =====
-- Which requests the connection state machine (grpc.rs) answers, and in which order.
use trogon_event_store_clien.Base.{
  ℕ, ◌≡◌, refl, sym, ◌∙◌, ap, true, false, Bool-cases, if_split, Option, none, some, List, [], ◌∷◌,
  ◌++◌, inl, inr, Result, ok, err,
}
use mathlib.Core.List.{append_assoc, append-nil}
use trogon_event_store_clien.Uuid.{Uuid}
use trogon_event_store_clien.Types.{Endpoint}
use trogon_event_store_clien.Env.{Env}
use trogon_event_store_clien.Connection.{NodeConnection, connection_error, panic, Attempt, next}
use trogon_event_store_clien.Connection.Total.{next-IsAnswered}
use trogon_event_store_clien.Machine.{
  Handle, Answer, Msg, get_channel, create_channel, Machine, After, served, moved, get, step, run,
}
use trogon_event_store_clien.Machine.Links.{
  IsLinked, Settles, finish-Settles, and_then-Settles, step-IsLinked,
}

-- The requests for a channel among the messages.
pub requests : List Msg → List ℕ
requests [] = []
requests (get_channel tag ∷ msgs) = tag ∷ requests msgs
requests (create_channel id seed ∷ msgs) = requests msgs

abbrev pub tags : List Answer → List ℕ
tags [] = []
tags ((tag, r) ∷ rest) = tag ∷ tags rest

-- The requests answered, `before` first, are the oldest ones, in order; the others are `unanswered`,
-- and there is none while the machine runs.
pub record IsServed (before : List ℕ) (msgs : List Msg) (m : Machine) : Type 0 where
  pub unanswered : List ℕ
  pub in_order : before ++ requests msgs ≡ tags m.answers ++ unanswered
  pub complete : m.is_running ≡ true → unanswered ≡ []

tags-append : (before bs : List Answer) → tags (before ++ bs) ≡ tags before ++ tags bs
tags-append [] bs = refl
tags-append ((tag, r) ∷ rest) bs = ap (λ ts. tag ∷ ts) (tags-append rest bs)

answered-IsServed :
    (before : List Answer) (tag : ℕ) (r : Result _ Handle) (m : Machine)
    → m.answers ≡ before ++ (tag, r) ∷ []
    → IsServed (tags before) (get_channel tag ∷ []) m
unfolding requests
answered-IsServed before tag r m h = record {
  unanswered = [];
  in_order = rw (h, tags-append before ((tag, r) ∷ [])) (sym (append-nil _));
  complete = λ on. refl;
}

silent-IsServed :
    (before : List Answer) (tag : ℕ) (m : Machine)
    → m.answers ≡ before
    → m.is_running ≡ false
    → IsServed (tags before) (get_channel tag ∷ []) m
unfolding requests
silent-IsServed before tag m h off = record {
  unanswered = tag ∷ [];
  in_order = rw h refl;
  complete = λ on. cc;
}

none-IsServed :
    (before : List Answer) (msgs : List Msg) (m : Machine)
    → m.answers ≡ before
    → requests msgs ≡ []
    → IsServed (tags before) msgs m
none-IsServed before msgs m h none_asked = record {
  unanswered = [];
  in_order = rw (h, none_asked) refl;
  complete = λ on. refl;
}

stopped-IsServed :
    (msgs : List Msg) (m : Machine) → m.is_running ≡ false → IsServed (tags m.answers) msgs m
stopped-IsServed msgs m off = record {
  unanswered = requests msgs;
  in_order = refl;
  complete = λ on. cc;
}

served-IsServed :
    (tag : ℕ) (m : Machine) (a : Attempt) (c : NodeConnection)
    → IsServed (tags m.answers) (get_channel tag ∷ []) (served tag m a c)
served-IsServed tag m (ok info) c = answered-IsServed m.answers tag _ _ refl
served-IsServed tag m (err (connection_error e)) c = answered-IsServed m.answers tag _ _ refl
served-IsServed tag m (err panic) c = silent-IsServed m.answers tag _ refl refl

moved-IsServed :
    (id : Uuid) (seed : Option Endpoint) (m : Machine) (a : Attempt) (c : NodeConnection)
    → IsServed (tags m.answers) (create_channel id seed ∷ []) (moved m a c)
unfolding requests
moved-IsServed id seed m (ok info) c = none-IsServed m.answers _ _ refl refl
moved-IsServed id seed m (err f) c = none-IsServed m.answers _ _ refl refl

requests-cons :
    (msg : Msg) (msgs : List Msg) → requests (msg ∷ msgs) ≡ requests (msg ∷ []) ++ requests msgs
unfolding requests
requests-cons (get_channel tag) msgs = refl
requests-cons (create_channel id seed) msgs = refl

then-IsServed :
    (before : List ℕ) (msg : Msg) (msgs : List Msg) (m' m'' : Machine)
    → IsServed before (msg ∷ []) m'
    → m'.is_running ≡ true
    → IsServed (tags m'.answers) msgs m''
    → IsServed before (msg ∷ msgs) m''
then-IsServed before msg msgs m' m'' one on rest =
    let head : before ++ requests (msg ∷ []) ≡ tags m'.answers =
      one.in_order ∙ ap (λ u. tags m'.answers ++ u) (one.complete on) ∙ append-nil _ in
    record {
      unanswered = rest.unanswered;
      in_order =
          ap (λ rs. before ++ rs) (requests-cons msg msgs)
          ∙ sym (append_assoc before _ _)
          ∙ ap (λ rs. rs ++ requests msgs) head
          ∙ rest.in_order;
      complete = rest.complete;
    }

ended-IsServed :
    (before : List ℕ) (msg : Msg) (msgs : List Msg) (m : Machine)
    → IsServed before (msg ∷ []) m
    → m.is_running ≡ false
    → IsServed before (msg ∷ msgs) m
ended-IsServed before msg msgs m one off = record {
  unanswered = one.unanswered ++ requests msgs;
  in_order =
      ap (λ rs. before ++ rs) (requests-cons msg msgs)
      ∙ sym (append_assoc before _ _)
      ∙ ap (λ rs. rs ++ requests msgs) one.in_order
      ∙ append_assoc (tags m.answers) one.unanswered (requests msgs);
  complete = λ on. cc;
}

module _ (env : Env) where
  open env use {World}

  both-Settles :
      (P Q : Machine → Type 0) (o : After env)
      → Settles env P o
      → Settles env Q o
      → Settles env (λ m. P m × Q m) o
  both-Settles P Q none p q = p
  both-Settles P Q (some (m, w)) p q = (p, q)

  map-Settles :
      (P Q : Machine → Type 0) (o : After env)
      → ((m : Machine) → P m → Q m)
      → Settles env P o
      → Settles env Q o
  map-Settles P Q none f p = p
  map-Settles P Q (some (m, w)) f p = f m p

  get-IsServed :
      (tag : ℕ) (m : Machine) (handle : Option Handle) (w : World)
      → IsLinked m
      → Settles env (IsServed (tags m.answers) (get_channel tag ∷ [])) (get env tag m handle w)
  get-IsServed tag m (some h) w linked = answered-IsServed m.answers tag _ _ refl
  get-IsServed tag m none w linked =
      finish-Settles env _ _ (served tag m) (next env m.connection none w)
        (next-IsAnswered env m.connection none w linked.synced) (λ a c h. served-IsServed tag m a c)

  step-IsServed :
      (m : Machine) (msg : Msg) (w : World)
      → IsLinked m
      → Settles env (IsServed (tags m.answers) (msg ∷ [])) (step env m msg w)
  unfolding step
  step-IsServed m (get_channel tag) w linked = get-IsServed tag m m.handle w linked
  step-IsServed m (create_channel id seed) w linked =
      finish-Settles env _ _ (moved m) (next env m.connection _ w)
        (next-IsAnswered env m.connection _ w linked.synced) (λ a c h. moved-IsServed id seed m a c)

  run-stopped :
      (m : Machine) (msgs : List Msg) (w : World)
      → m.is_running ≡ false
      → run env m msgs w ≡ some (m, w)
  unfolding run
  run-stopped m [] w off = refl
  run-stopped m (msg ∷ msgs) w off = rw off refl

  then_run :
      (m : Machine) (msg : Msg) (msgs : List Msg) (m' : Machine) (w : World)
      → IsServed (tags m.answers) (msg ∷ []) m'
      → Settles env (IsServed (tags m'.answers) msgs) (run env m' msgs w)
      → Settles env (IsServed (tags m.answers) (msg ∷ msgs)) (run env m' msgs w)
  then_run m msg msgs m' w one rest = elim (Bool-cases m'.is_running) [
    | inl on ↦
        map-Settles _ _ (run env m' msgs w)
          (λ m''. then-IsServed (tags m.answers) msg msgs m' m'' one on) rest
    | inr off ↦ rw (run-stopped m' msgs w off) (ended-IsServed (tags m.answers) msg msgs m' one off)
  ]

  -- The requests for a channel are answered in the order in which they came, each once, with a handle
  -- or an error. Those that are left unanswered, because the machine has stopped, are the last ones,
  -- and while it runs there are none. The machine starts with a connection tied to its handle.
  pub run-IsServed :
      (m : Machine) (msgs : List Msg) (w : World)
      → IsLinked m
      → Settles env (IsServed (tags m.answers) msgs) (run env m msgs w)
  unfolding run requests
  run-IsServed m [] w linked = none-IsServed m.answers [] m refl refl
  run-IsServed m (msg ∷ msgs) w linked =
      if_split (Settles env (IsServed (tags m.answers) (msg ∷ msgs))) m.is_running
        (λ on.
          and_then-Settles env _ _ (step env m msg w) (λ m' w'. run env m' msgs w')
            (both-Settles IsLinked _ (step env m msg w) (step-IsLinked env m msg w linked)
              (step-IsServed m msg w linked))
            (λ m' w' h. then_run m msg msgs m' w' h.1 (run-IsServed m' msgs w' h.0)))
        (λ off. stopped-IsServed (msg ∷ msgs) m off)
