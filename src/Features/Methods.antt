-- ===== src/Features/Methods.antt =====
-- Which features server_features.rs finds in the list of methods that a server supports.
use trogon_event_store_clien.Base.{
  ℕ, ◌∙◌, zero, suc, ◌<◌, ◌/◌, ◌≡◌, refl, Bool, true, false, ◌&&◌, ◌||◌, List, [], ◌∷◌, ◌==◌,
  bit_or, arith, Bool-cases, inl, inr,
}
use trogon_event_store_clien.Base.Text.{Text, codes, text_eq, text_eq_other}
use Prim.Native.String.{String}
use trogon_event_store_clien.Features.{
  Features, nothing, batch_append, persistent_subscription_list, persistent_subscription_replay,
  persistent_subscription_restart_subsystem, persistent_subscription_get_info,
  persistent_subscription_management, persistent_subscription_to_all, contains, SupportedMethod,
  streams_service, persistent_service, add_create, add_method, add_methods,
}

-- The features that stand for one bit each.
pub data Feature : Type 0 where
  batch list replay restart get_info to_all : Feature

abbrev pub bit : Feature → Features
bit batch = batch_append
bit list = persistent_subscription_list
bit replay = persistent_subscription_replay
bit restart = persistent_subscription_restart_subsystem
bit get_info = persistent_subscription_get_info
bit to_all = persistent_subscription_to_all

-- A test passed by each of the numbers under a bound, which a table of runs can show.
passes_under : (ℕ → Bool) → ℕ → Bool
passes_under test zero = true
passes_under test (suc bound) = passes_under test bound && test bound

passed :
    (test : ℕ → Bool) (bound : ℕ) (n : ℕ)
    → n < bound
    → passes_under test bound ≡ true
    → test n ≡ true
unfolding passes_under
passed test zero n small h = absurd (omega (arith, small))
passed test (suc bound) n small h = ground (arith, passed test bound n)

abbrev same : Bool → Bool → Bool
same true b = b
same false true = false
same false false = true

and_left : (a b : Bool) → (a && b) ≡ true → a ≡ true
and_left a b h = ground arith

and_right : (a b : Bool) → (a && b) ≡ true → b ≡ true
and_right a b h = ground arith

same_sound : (a b : Bool) → same a b ≡ true → a ≡ b
same_sound a b h = ground arith

-- Setting the bit of `j` adds `j` and no other feature, and keeps the six bits' range.
abbrev sets : Feature → Feature → ℕ → Bool
sets j k x =
    same (contains (bit_or x (bit j)) (bit k)) (bit j == bit k || contains x (bit k))
    && (bit_or x (bit j) / 64 == 0)

abbrev every : (Feature → Bool) → Bool
every p = p batch && p list && p replay && p restart && p get_info && p to_all

every_sound : (p : Feature → Bool) (k : Feature) → every p ≡ true → p k ≡ true
every_sound p batch h = ground arith
every_sound p _ h = ground arith

sets_table : passes_under (λ x. every (λ j. every (λ k. sets j k x))) 64 ≡ true
unfolding passes_under
sets_table = refl

sets_all : (j k : Feature) (x : ℕ) → x < 64 → sets j k x ≡ true
sets_all j k x h =
    every_sound (λ k. sets j k x) k
      (every_sound (λ j. every (λ k. sets j k x)) j
        (passed (λ x. every (λ j. every (λ k. sets j k x))) 64 x h sets_table))

below_64 : (y : ℕ) → (y / 64 == 0) ≡ true → y < 64
below_64 y h = ground arith

-- The test for a feature, shut, so that proofs see it as one value.
has : Features → Feature → Bool
has x k = contains x (bit k)

same_feature : Feature → Feature → Bool
same_feature j k = bit j == bit k

has-bit_or :
    (j k : Feature) (x : ℕ)
    → x < 64
    → (has (bit_or x (bit j)) k ≡ (same_feature j k || has x k)) × (bit_or x (bit j) < 64)
unfolding has same_feature
has-bit_or j k x h =
    let t = sets_all j k x h in (same_sound _ _ (and_left _ _ t), below_64 _ (and_right _ _ t))

same_feature_refl : (k : Feature) → same_feature k k ≡ true
unfolding same_feature
same_feature_refl batch = refl
same_feature_refl _ = refl

pub mentions_all : List Text → Bool
mentions_all [] = false
mentions_all (feat ∷ feats) = text_eq feat (codes "all") || mentions_all feats

has-add_create :
    (k : Feature) (feats : List Text) (x : ℕ)
    → x < 64
    → (has (add_create feats x) k ≡ (mentions_all feats && same_feature to_all k || has x k))
      × (add_create feats x < 64)
unfolding add_create mentions_all
has-add_create k [] x h = (refl, h)
has-add_create k (feat ∷ feats) x h = elim (Bool-cases (text_eq feat (codes "all"))) [
  | inl e ↦ rw e (
      ground (
        arith,
        has-bit_or to_all k x h,
        has-add_create k feats (bit_or x (bit to_all)) (has-bit_or to_all k x h).1,
      ))
  | inr e ↦ rw e (has-add_create k feats x h)
]

abbrev is_method : SupportedMethod → String → Bool
is_method m name = text_eq m.method_name (codes name)

abbrev is_persistent : SupportedMethod → Bool
is_persistent m = text_eq m.service_name persistent_service

-- Whether an entry of the answer grants a feature.
pub grants : SupportedMethod → Feature → Bool
grants m batch = is_method m "batchappend" && text_eq m.service_name streams_service
grants m to_all = is_persistent m && is_method m "create" && mentions_all m.features
grants m get_info = is_persistent m && is_method m "getinfo"
grants m replay = is_persistent m && is_method m "replayparked"
grants m list = is_persistent m && is_method m "list"
grants m restart = is_persistent m && is_method m "restartsubsystem"

services_differ :
    (s : Text) → text_eq s streams_service ≡ true → text_eq s persistent_service ≡ false
unfolding text_eq
services_differ s = text_eq_other s streams_service persistent_service refl

-- The names that `add_method` tells apart are different texts.
record Apart (s : Text) : Type 0 where
  create_get_info : text_eq s (codes "create") ≡ true → text_eq s (codes "getinfo") ≡ false
  create_replay : text_eq s (codes "create") ≡ true → text_eq s (codes "replayparked") ≡ false
  create_list : text_eq s (codes "create") ≡ true → text_eq s (codes "list") ≡ false
  create_restart : text_eq s (codes "create") ≡ true → text_eq s (codes "restartsubsystem") ≡ false
  get_info_replay : text_eq s (codes "getinfo") ≡ true → text_eq s (codes "replayparked") ≡ false
  get_info_list : text_eq s (codes "getinfo") ≡ true → text_eq s (codes "list") ≡ false
  get_info_restart :
      text_eq s (codes "getinfo") ≡ true → text_eq s (codes "restartsubsystem") ≡ false
  replay_list : text_eq s (codes "replayparked") ≡ true → text_eq s (codes "list") ≡ false
  replay_restart :
      text_eq s (codes "replayparked") ≡ true → text_eq s (codes "restartsubsystem") ≡ false
  list_restart : text_eq s (codes "list") ≡ true → text_eq s (codes "restartsubsystem") ≡ false

names-Apart : (s : Text) → Apart s
unfolding text_eq
names-Apart s = record {
  create_get_info = text_eq_other s _ _ refl;
  create_replay = text_eq_other s _ _ refl;
  create_list = text_eq_other s _ _ refl;
  create_restart = text_eq_other s _ _ refl;
  get_info_replay = text_eq_other s _ _ refl;
  get_info_list = text_eq_other s _ _ refl;
  get_info_restart = text_eq_other s _ _ refl;
  replay_list = text_eq_other s _ _ refl;
  replay_restart = text_eq_other s _ _ refl;
  list_restart = text_eq_other s _ _ refl;
}

abbrev Sets : Feature → Feature → ℕ → Type 0
Sets j k x = (has (bit_or x (bit j)) k ≡ (same_feature j k || has x k)) × (bit_or x (bit j) < 64)

-- What one round may do to a set of features, for a feature `k`.
record Facts (k : Feature) (m : SupportedMethod) (x : ℕ) : Type 0 where
  services :
      text_eq m.service_name streams_service ≡ true
      → text_eq m.service_name persistent_service ≡ false
  names : Apart m.method_name
  created :
      (has (add_create m.features x) k
        ≡ (mentions_all m.features && same_feature to_all k || has x k))
      × (add_create m.features x < 64)
  batches : Sets batch k x
  informs : Sets get_info k x
  replays : Sets replay k x
  lists : Sets list k x
  restarts : Sets restart k x

facts : (k : Feature) (m : SupportedMethod) (x : ℕ) → x < 64 → Facts k m x
facts k m x h = record {
  services = services_differ m.service_name;
  names = names-Apart m.method_name;
  created = has-add_create k m.features x h;
  batches = has-bit_or batch k x h;
  informs = has-bit_or get_info k x h;
  replays = has-bit_or replay k x h;
  lists = has-bit_or list k x h;
  restarts = has-bit_or restart k x h;
}

record Round (k : Feature) (m : SupportedMethod) (x : ℕ) : Type 0 where
  granted : has (add_method m x) k ≡ (grants m k || has x k)
  in_range : add_method m x < 64

has-add_method : (k : Feature) (m : SupportedMethod) (x : ℕ) → x < 64 → Round k m x
unfolding add_method grants same_feature
has-add_method batch m x h = ground (arith, facts batch m x h)
has-add_method k m x h = ground (arith, facts k m x h)

pub any_grants : List SupportedMethod → Feature → Bool
any_grants [] k = false
any_grants (m ∷ ms) k = grants m k || any_grants ms k

has-add_methods :
    (k : Feature) (ms : List SupportedMethod) (x : ℕ)
    → x < 64
    → has (add_methods ms x) k ≡ (any_grants ms k || has x k)
unfolding add_methods any_grants
has-add_methods k [] x h = refl
has-add_methods k (m ∷ ms) x h =
    let r = has-add_method k m x h in
    ground (arith, r.granted, has-add_methods k ms (add_method m x) r.in_range)

has-nothing : (k : Feature) → has nothing k ≡ false
unfolding has
has-nothing batch = refl
has-nothing _ = refl

-- Of the six features that stand for one bit, exactly those are found that an entry of the server's
-- answer grants, in whatever order the entries come.
pub contains-add_methods :
    (k : Feature) (ms : List SupportedMethod)
    → contains (add_methods ms nothing) (bit k) ≡ any_grants ms k
unfolding has
contains-add_methods k ms = has-add_methods k ms 0 (omega arith) ∙ ground (arith, has-nothing k)

add_methods-lt : (ms : List SupportedMethod) (x : ℕ) → x < 64 → add_methods ms x < 64
unfolding add_methods
add_methods-lt [] x h = h
add_methods-lt (m ∷ ms) x h =
    add_methods-lt ms (add_method m x) (has-add_method batch m x h).in_range

manages : ℕ → Bool
manages x = same (contains x persistent_subscription_management) (
    contains x (bit list)
    && contains x (bit replay)
    && contains x (bit restart)
    && contains x (bit get_info))

management_table : passes_under manages 64 ≡ true
unfolding passes_under manages
management_table = refl

-- A server has the features for managing persistent subscriptions exactly when it has all four of
-- them, each granted by an entry of its own.
pub contains-management :
    (ms : List SupportedMethod)
    → contains (add_methods ms nothing) persistent_subscription_management ≡ (
        any_grants ms list
        && any_grants ms replay
        && any_grants ms restart
        && any_grants ms get_info)
unfolding manages
contains-management ms =
    same_sound _ _ (
      passed manages 64 (add_methods ms nothing) (add_methods-lt ms 0 (omega arith))
        management_table)
    ∙ simp contains-add_methods
