-- ===== src/Features.antt =====
-- server_features.rs: the optional features of a server, its version, and what
-- `supported_methods` makes of the server's answer. A `Features` value is the bits that the
-- `bitflags` macro keeps in a `u32`.
pub mod Versions
pub mod Methods
use trogon_event_store_clien.Base.{
  ℕ, suc, ◌≤◌, ◌<◌, Bool, true, false, ◌&&◌, ◌||◌, Option, none, some, List, [], ◌∷◌, ◌++◌, Result,
  ok, err, ◌>>=◌, ◌==◌, leb, if◌then◌else◌, compare, Ordering, bit_and, bit_or,
}
use trogon_event_store_clien.Base.Text.{Text, codes, split, text_eq}
use trogon_event_store_clien.Base.Decimal.{show, is_digit, parse_uint}
use trogon_event_store_clien.Base.Int.{u64_max}
use trogon_event_store_clien.Errors.{Status, invalid_argument}
use trogon_event_store_clien.Gossip.{status}

abbrev pub Features : Type 0
Features = ℕ

abbrev pub nothing : Features
nothing = 0

abbrev pub batch_append : Features
batch_append = 1

abbrev pub persistent_subscription_list : Features
persistent_subscription_list = 2

abbrev pub persistent_subscription_replay : Features
persistent_subscription_replay = 4

abbrev pub persistent_subscription_restart_subsystem : Features
persistent_subscription_restart_subsystem = 8

abbrev pub persistent_subscription_get_info : Features
persistent_subscription_get_info = 16

abbrev pub persistent_subscription_management : Features
persistent_subscription_management = 30

abbrev pub persistent_subscription_to_all : Features
persistent_subscription_to_all = 32

-- `bitflags`: every bit of `other` is set.
abbrev pub contains : Features → Features → Bool
contains self other = bit_and self other == other

pub record ServerVersion : Type 0 where
  pub major : ℕ
  pub minor : ℕ
  pub patch : ℕ

pub record ServerInfo : Type 0 where
  pub version : ServerVersion
  pub features : Features

abbrev pub default_version : ServerVersion
default_version = record { major = 0; minor = 0; patch = 0 }

-- `ServerInfo::default()`.
abbrev pub default_info : ServerInfo
default_info = record { version = default_version; features = nothing }

-- `Display for ServerVersion`.
unfoldable pub display : ServerVersion → Text
display v = show v.major ++ b'.' ∷ (show v.minor ++ b'.' ∷ show v.patch)

-- `PartialEq` against a number, a pair and a triple.
unfoldable pub eq_major : ServerVersion → ℕ → Bool
eq_major v other = v.major == other

unfoldable pub eq_minor : ServerVersion → ℕ × ℕ → Bool
unfolding eq_major
eq_minor v (maj, min) = eq_major v maj && v.minor == min

unfoldable pub eq_patch : ServerVersion → ℕ × ℕ × ℕ → Bool
unfolding eq_minor
eq_patch v (maj, min, patch) = eq_minor v (maj, min) && v.patch == patch

-- `PartialOrd` against a number, a pair and a triple; it is never `None`.
unfoldable pub cmp_major : ServerVersion → ℕ → Ordering
cmp_major v other = compare v.major other

abbrev then_compare : Ordering → Ordering → Ordering
then_compare Ordering.eq o = o
then_compare Ordering.lt o = Ordering.lt
then_compare Ordering.gt o = Ordering.gt

unfoldable pub cmp_minor : ServerVersion → ℕ × ℕ → Ordering
unfolding cmp_major
cmp_minor v (maj, min) = then_compare (cmp_major v maj) (compare v.minor min)

unfoldable pub cmp_patch : ServerVersion → ℕ × ℕ × ℕ → Ordering
unfolding cmp_minor
cmp_patch v (maj, min, patch) = then_compare (cmp_minor v (maj, min)) (compare v.patch patch)

-- The digits and dots of the version text.
unfoldable pub semver : Text → Text
semver [] = []
semver (c ∷ s) = let rest = semver s in if is_digit c || c == b'.' then c ∷ rest else rest

abbrev store : ℕ → ℕ → ServerVersion → ServerVersion
store idx v version =
    if idx == 0
    then record version { major = v }
    else if idx == 1
    then record version { minor = v }
    else record version { patch = v }

abbrev parsed : Option ℕ → Result Status ℕ
parsed none = err (status invalid_argument (codes "invalid semver format"))
parsed (some v) = ok v

-- The loop over `semver.split('.').enumerate()`, which stops behind the third part.
unfoldable pub read_parts : ℕ → List Text → ServerVersion → Result Status ServerVersion
read_parts idx [] version = ok version
read_parts idx (part ∷ parts) version = elim (leb idx 2) [
  | true ↦
      parsed (parse_uint u64_max part) >>= λ v. read_parts (suc idx) parts (store idx v version)
  | false ↦ ok version
]

-- One entry of the server's answer (event_store/generated/server_features.rs).
pub record SupportedMethod : Type 0 where
  pub method_name : Text
  pub service_name : Text
  pub features : List Text

pub record SupportedMethods : Type 0 where
  pub event_store_server_version : Text
  pub methods : List SupportedMethod

abbrev streams_service : Text
streams_service = codes "event_store.client.streams.streams"

abbrev persistent_service : Text
persistent_service = codes "event_store.client.persistent_subscriptions.persistentsubscriptions"

-- The loop over the features of a `create` method.
unfoldable pub add_create : List Text → Features → Features
add_create [] features = features
add_create (feat ∷ feats) features = add_create feats (
    if text_eq feat (codes "all") then bit_or features persistent_subscription_to_all else features)

-- One round of the loop over the methods.
unfoldable pub add_method : SupportedMethod → Features → Features
unfolding add_create
add_method m features =
    if text_eq m.method_name (codes "batchappend") && text_eq m.service_name streams_service
    then bit_or features batch_append
    else if text_eq m.service_name persistent_service
    then (if text_eq m.method_name (codes "create")
        then add_create m.features features
        else if text_eq m.method_name (codes "getinfo")
        then bit_or features persistent_subscription_get_info
        else if text_eq m.method_name (codes "replayparked")
        then bit_or features persistent_subscription_replay
        else if text_eq m.method_name (codes "list")
        then bit_or features persistent_subscription_list
        else if text_eq m.method_name (codes "restartsubsystem")
        then bit_or features persistent_subscription_restart_subsystem
        else features)
    else features

unfoldable pub add_methods : List SupportedMethod → Features → Features
add_methods [] features = features
add_methods (m ∷ ms) features = add_methods ms (add_method m features)

-- `supported_methods` on the answer of the call.
unfoldable pub supported_methods : SupportedMethods → Result Status ServerInfo
supported_methods answer = do
  version ← read_parts 0 (split b'.' (semver answer.event_store_server_version)) default_version
  ok (record { version = version; features = add_methods answer.methods nothing })
