-- ===== src/Batch/Routing.antt =====
-- A response reaches the caller of its request, whatever happens in between (batch.rs).
use trogon_event_store_clien.Base.{
  ◌≡◌, ◌≢◌, refl, sym, ap, subst, ◌∙◌, inl, inr, ℕ, true, false, Bool-cases, Option, none, some,
  List, [], ◌∷◌, ◌++◌, All, Any, Any-append_right, arith,
}
use trogon_event_store_clien.Uuid.{Uuid}
use trogon_event_store_clien.Batch.{
  Req, Response, BatchMsg, input, out, error, Entry, Actor, remove, find, insert, reply, step, run,
}

-- The message is not about the identifier.
abbrev pub Avoids : Uuid → BatchMsg → Type 0
Avoids id (input req caller forwarded) = req.id ≢ id
Avoids id (out i r) = i ≢ id
Avoids id (error e) = Unit

-- The caller was sent the response.
abbrev pub IsSent : ℕ → Response → Actor → Type 0
IsSent caller r s = Any (λ a. a ≡ (caller, r)) s.replies

find-remove_other :
    (id other : Uuid) (es : List Entry) → other ≢ id → find id (remove other es) ≡ find id es
unfolding find remove
find-remove_other id other [] differ = refl
find-remove_other id other (e ∷ es) differ = ground (arith, find-remove_other id other es differ)

find-insert :
    (id : Uuid) (caller : ℕ) (es : List Entry) → find id (insert id caller es) ≡ some caller
unfolding find insert
find-insert id caller es = ground arith

find-insert_other :
    (id other : Uuid) (caller : ℕ) (es : List Entry)
    → other ≢ id
    → find id (insert other caller es) ≡ find id es
unfolding find insert
find-insert_other id other caller es differ = ground (arith, find-remove_other id other es differ)

reply-find :
    (s : Actor) (id other : Uuid) (r : Response) (to : Option ℕ)
    → other ≢ id
    → find id (reply s other r to).reg ≡ find id s.reg
reply-find s id other r none differ = refl
reply-find s id other r (some caller) differ = find-remove_other id other s.reg differ

step-find :
    (s : Actor) (msg : BatchMsg) (id : Uuid) (caller : ℕ)
    → Avoids id msg
    → find id s.reg ≡ some caller
    → (step s msg).is_running ≡ true
    → find id (step s msg).reg ≡ some caller
unfolding step
step-find s (input req c true) id caller differ known on =
    find-insert_other id req.id c s.reg differ ∙ known
step-find s (input req c false) id caller differ known on = cc
step-find s (out i r) id caller differ known on = reply-find s id i r (find i s.reg) differ ∙ known
step-find s (error e) id caller differ known on = cc

run-stopped : (s : Actor) (msgs : List BatchMsg) → s.is_running ≡ false → run s msgs ≡ s
unfolding run
run-stopped s [] off = refl
run-stopped s (msg ∷ msgs) off = rw off refl

run-cons :
    (s : Actor) (msg : BatchMsg) (msgs : List BatchMsg)
    → s.is_running ≡ true
    → run s (msg ∷ msgs) ≡ run (step s msg) msgs
unfolding run
run-cons s msg msgs on = rw on refl

pub run-append : (s : Actor) (xs ys : List BatchMsg) → run s (xs ++ ys) ≡ run (run s xs) ys
unfolding run
run-append s [] ys = refl
run-append s (x ∷ xs) ys = elim (Bool-cases s.is_running) [
  | inl on ↦
      run-cons s x (xs ++ ys) on
      ∙ run-append (step s x) xs ys
      ∙ ap (λ t. run t ys) (sym (run-cons s x xs on))
  | inr off ↦
      run-stopped s (x ∷ xs ++ ys) off
      ∙ sym (run-stopped s ys off)
      ∙ ap (λ t. run t ys) (sym (run-stopped s (x ∷ xs) off))
]

-- A loop that still runs was running all along.
run-still_running :
    (s : Actor) (msgs : List BatchMsg) → (run s msgs).is_running ≡ true → s.is_running ≡ true
run-still_running s msgs on = elim (Bool-cases s.is_running) [
  | inl was ↦ was
  | inr off ↦ ap (λ t. t.is_running) (sym (run-stopped s msgs off)) ∙ on
]

run-find :
    (s : Actor) (msgs : List BatchMsg) (id : Uuid) (caller : ℕ)
    → All (Avoids id) msgs
    → find id s.reg ≡ some caller
    → (run s msgs).is_running ≡ true
    → find id (run s msgs).reg ≡ some caller
unfolding run
run-find s [] id caller avoid known on = known
run-find s (msg ∷ msgs) id caller avoid known on =
    let was = run-still_running s (msg ∷ msgs) on in
    let same = run-cons s msg msgs was in
    let still = ap (λ t. t.is_running) (sym same) ∙ on in
    let next_known =
      step-find s msg id caller avoid.0 known (run-still_running (step s msg) msgs still) in
    ap (λ t. find id t.reg) same ∙ run-find (step s msg) msgs id caller avoid.1 next_known still

reply-IsSent :
    (s : Actor) (id : Uuid) (r : Response) (to : Option ℕ) (caller : ℕ)
    → to ≡ some caller
    → IsSent caller r (reply s id r to)
reply-IsSent s id r none caller h = cc
reply-IsSent s id r (some c) caller h =
    let same : c ≡ caller = cc in
    Any-append_right (λ a. a ≡ (caller, r)) s.replies ((c, r) ∷ []) (inl (ap (λ n. (n, r)) same))

out-IsSent :
    (s : Actor) (id : Uuid) (r : Response) (caller : ℕ)
    → s.is_running ≡ true
    → find id s.reg ≡ some caller
    → IsSent caller r (run s (out id r ∷ []))
unfolding run step
out-IsSent s id r caller on known =
    subst (IsSent caller r) (sym (run-cons s (out id r) [] on))
      (reply-IsSent s id r (find id s.reg) caller known)

-- While the loop runs, a caller whose request was sent on gets the response with the request's
-- identifier, after any messages about other requests that leave the loop running.
pub run-IsSent :
    (s : Actor) (req : Req) (caller : ℕ) (msgs : List BatchMsg) (r : Response)
    → s.is_running ≡ true
    → All (Avoids req.id) msgs
    → (run s (input req caller true ∷ msgs)).is_running ≡ true
    → IsSent caller r (run s (input req caller true ∷ msgs ++ out req.id r ∷ []))
unfolding step
run-IsSent s req caller msgs r was avoid on =
    let joined = run-append s (input req caller true ∷ msgs) (out req.id r ∷ []) in
    let sent = run-cons s (input req caller true) msgs was in
    let known =
      run-find (step s (input req caller true)) msgs req.id caller avoid
        (find-insert req.id caller s.reg) (ap (λ t. t.is_running) (sym sent) ∙ on) in
    subst (IsSent caller r) (sym joined) (
      out-IsSent (run s (input req caller true ∷ msgs)) req.id r caller on
        (ap (λ t. find req.id t.reg) sent ∙ known))
