-- ===== src/Batch/Once.antt =====
-- No caller is answered twice (batch.rs).
use trogon_event_store_clien.Base.{
  ◌≡◌, refl, subst, ℕ, ◌+◌, ◌≤◌, inl, inr, true, false, Bool-cases, if_split, Option, none, some,
  List, [], ◌∷◌, ◌++◌, ◌==◌, if◌then◌else◌, arith,
}
use trogon_event_store_clien.Uuid.{Uuid}
use trogon_event_store_clien.Errors.{Error}
use trogon_event_store_clien.Batch.{
  Response, BatchMsg, input, out, error, Entry, Actor, remove, find, insert, tell_all, reply, step,
  run,
}

-- How often a caller was answered, waits, and asked.
pub answered : ℕ → List (ℕ × Response) → ℕ
answered caller [] = 0
answered caller ((c, r) ∷ rs) =
    let rest = answered caller rs in if c == caller then rest + 1 else rest

pub waiting : ℕ → List Entry → ℕ
waiting caller [] = 0
waiting caller (e ∷ es) =
    let rest = waiting caller es in if e.caller == caller then rest + 1 else rest

pub asked : ℕ → List BatchMsg → ℕ
asked caller [] = 0
asked caller (input req c forwarded ∷ msgs) =
    let rest = asked caller msgs in if c == caller then rest + 1 else rest
asked caller (out id r ∷ msgs) = asked caller msgs
asked caller (error e ∷ msgs) = asked caller msgs

answered-append :
    (caller : ℕ) (xs ys : List (ℕ × Response))
    → answered caller (xs ++ ys) ≡ answered caller xs + answered caller ys
unfolding answered
answered-append caller [] ys = omega arith
answered-append caller ((c, r) ∷ xs) ys = ground (arith, answered-append caller xs ys)

answered-tell_all :
    (caller : ℕ) (e : Error) (es : List Entry) → answered caller (tell_all e es) ≡ waiting caller es
unfolding answered waiting
answered-tell_all caller e [] = refl
answered-tell_all caller e (x ∷ es) = ground (arith, answered-tell_all caller e es)

waiting-remove :
    (caller : ℕ) (id : Uuid) (es : List Entry) → waiting caller (remove id es) ≤ waiting caller es
unfolding waiting remove
waiting-remove caller id [] = omega arith
waiting-remove caller id (e ∷ es) = ground (arith, waiting-remove caller id es)

abbrev told : ℕ → Option ℕ → ℕ
told caller none = 0
told caller (some c) = if c == caller then 1 else 0

-- The caller that a response finds no longer waits.
waiting-found :
    (caller : ℕ) (id : Uuid) (es : List Entry)
    → waiting caller (remove id es) + told caller (find id es) ≤ waiting caller es
unfolding waiting remove find
waiting-found caller id [] = omega arith
waiting-found caller id (e ∷ es) = elim (Bool-cases (e.id == id)) [
  | inl hit ↦ rw hit (ground (arith, waiting-remove caller id es))
  | inr miss ↦ rw miss (ground (arith, waiting-found caller id es))
]

answered-one : (caller c : ℕ) (r : Response) → answered caller ((c, r) ∷ []) ≡ told caller (some c)
unfolding answered
answered-one caller c r = ground arith

abbrev load : ℕ → Actor → ℕ
load caller s = answered caller s.replies + waiting caller s.reg

reply-load :
    (caller : ℕ) (s : Actor) (id : Uuid) (r : Response) (to : Option ℕ)
    → find id s.reg ≡ to
    → load caller (reply s id r to) ≤ load caller s
reply-load caller s id r none h = omega arith
reply-load caller s id r (some c) h =
    let found : waiting caller (remove id s.reg) + told caller (some c) ≤ waiting caller s.reg =
      subst (λ o. waiting caller (remove id s.reg) + told caller o ≤ waiting caller s.reg) h
        (waiting-found caller id s.reg) in
    omega (arith, answered-append caller s.replies ((c, r) ∷ []), answered-one caller c r, found)

step-load :
    (caller : ℕ) (s : Actor) (msg : BatchMsg)
    → load caller (step s msg) ≤ load caller s + asked caller (msg ∷ [])
unfolding step insert waiting asked
step-load caller s (input req c true) = ground (arith, waiting-remove caller req.id s.reg)
step-load caller s (input req c false) = omega arith
step-load caller s (out id r) = omega (arith, reply-load caller s id r (find id s.reg) refl)
step-load caller s (error e) =
    omega
      (arith, answered-append caller s.replies (tell_all e s.reg), answered-tell_all caller e s.reg)

asked-cons :
    (caller : ℕ) (msg : BatchMsg) (msgs : List BatchMsg)
    → asked caller (msg ∷ msgs) ≡ asked caller (msg ∷ []) + asked caller msgs
unfolding asked
asked-cons caller (input req c forwarded) msgs = ground arith
asked-cons caller (out id r) msgs = omega arith
asked-cons caller (error e) msgs = omega arith

-- However the messages come, and whether identifiers repeat or not, a caller is answered or waits at
-- most as often as it has asked: with one request of its own, it gets at most one reply.
pub run-once :
    (caller : ℕ) (s : Actor) (msgs : List BatchMsg)
    → answered caller (run s msgs).replies + waiting caller (run s msgs).reg
      ≤ answered caller s.replies + waiting caller s.reg + asked caller msgs
unfolding run
run-once caller s [] = omega arith
run-once caller s (msg ∷ msgs) =
    if_split (λ t. load caller t ≤ load caller s + asked caller (msg ∷ msgs)) s.is_running
      (λ on. omega (
        arith,
        run-once caller (step s msg) msgs,
        step-load caller s msg,
        asked-cons caller msg msgs,
      ))
      (λ off. omega arith)
