-- ===== src/Errors.antt =====
-- types.rs, `Error`, and how a gRPC status becomes one. `Code` lists the gRPC codes
-- (event_store/generated/google_rpc.rs). Of a `tonic::Status` the client reads the code, the message
-- and the metadata: a key that is absent is `none`, a value that is no ASCII text is `some none`.
pub mod Classes
use trogon_event_store_clien.Base.{
  ℕ, Bool, true, false, Option, none, some, ◌&&◌, ◌||◌, if◌then◌else◌, ◌==◌, ◌≡◌, ◌↔◌, ap,
}
use trogon_event_store_clien.Base.Text.{Text, codes, text_eq, text_eq_refl, text_eq_sound}
use trogon_event_store_clien.Base.Decimal.{parse_uint}
use trogon_event_store_clien.Base.Int.{u32_max}
use trogon_event_store_clien.Types.{Endpoint, StreamState, CurrentRevision}

pub data Code : Type 0 where
  success cancelled unknown invalid_argument deadline_exceeded not_found : Code
  already_exists permission_denied resource_exhausted failed_precondition aborted : Code
  out_of_range unimplemented internal unavailable data_loss unauthenticated : Code

-- The number of a code on the wire.
abbrev pub number : Code → ℕ
number success = 0
number cancelled = 1
number unknown = 2
number invalid_argument = 3
number deadline_exceeded = 4
number not_found = 5
number already_exists = 6
number permission_denied = 7
number resource_exhausted = 8
number failed_precondition = 9
number aborted = 10
number out_of_range = 11
number unimplemented = 12
number internal = 13
number unavailable = 14
number data_loss = 15
number unauthenticated = 16

abbrev pub is_code : Code → Code → Bool
is_code a b = number a == number b

pub record Status : Type 0 where
  pub code : Code
  pub message : Text
  pub metadata : Text → Option (Option Text)

pub data GrpcConnectionError : Type 0 where
  max_discovery_attempt_reached : ℕ → GrpcConnectionError
  grpc : Text → GrpcConnectionError

pub data Error : Type 0 where
  server_error : Text → Error
  not_leader_exception : Endpoint → Error
  connection_closed : Error
  grpc : Code → Text → Error
  grpc_connection_error : GrpcConnectionError → Error
  internal_parsing_error : Text → Error
  access_denied resource_already_exists resource_not_found resource_deleted : Error
  unsupported_feature internal_client_error deadline_exceeded : Error
  initialization_error illegal_state_error : Text → Error
  wrong_expected_version : StreamState → CurrentRevision → Error

-- `metadata.get(key).and_then(|e| e.to_str().ok())`.
abbrev pub flatten_value : Option (Option Text) → Option Text
flatten_value none = none
flatten_value (some v) = v

abbrev pub get_str : Status → Text → Option Text
get_str s key = flatten_value (s.metadata key)

abbrev pub is_text : Option Text → Text → Bool
is_text none t = false
is_text (some s) t = text_eq s t

abbrev to_endpoint : Text → Option ℕ → Option Endpoint
to_endpoint host none = none
to_endpoint host (some port) = some (record { host = host; port = port })

-- The closure behind `zip`: both values have to be texts, and the port a `u32`.
abbrev read_endpoint : Option Text → Option Text → Option Endpoint
read_endpoint none port = none
read_endpoint (some host) none = none
read_endpoint (some host) (some port) = to_endpoint host (parse_uint u32_max port)

is_text-some : (s t : Text) → some s ≡ some t → text_eq s t ≡ true
is_text-some s t h = let e : s ≡ t = cc in rw e (text_eq_refl t)

pub is_text_iff : (o : Option Text) (t : Text) → (is_text o t ≡ true) ↔ (o ≡ some t)
is_text_iff none t = (λ h. cc, λ h. cc)
is_text_iff (some s) t = (λ h. ap some (text_eq_sound s t h), λ h. is_text-some s t h)

-- The leader that the status names, if it names one in full.
unfoldable pub leader_of : Status → Option Endpoint
leader_of s =
    read_endpoint (get_str s (codes "leader-endpoint-host"))
      (get_str s (codes "leader-endpoint-port"))

-- The tests of `from_grpc` on code and message, which follow those on the metadata.
-- `to_string` is how `tonic` prints a status.
abbrev from_code : (Status → Text) → Status → Error
from_code to_string s =
    if is_code s.code cancelled && text_eq s.message (codes "Timeout expired")
      || is_code s.code Code.deadline_exceeded
    then Error.deadline_exceeded
    else if is_code s.code Code.deadline_exceeded
    then Error.deadline_exceeded
    else if is_code s.code unauthenticated || is_code s.code permission_denied
    then access_denied
    else if is_code s.code already_exists
    then resource_already_exists
    else if is_code s.code not_found
    then resource_not_found
    else if is_code s.code unavailable
        || is_code s.code internal
        || is_code s.code data_loss
        || is_code s.code unknown
    then server_error (to_string s)
    else if is_code s.code unimplemented
    then unsupported_feature
    else grpc s.code s.message

abbrev or_deleted : (Status → Text) → Status → Error
or_deleted to_string s =
    if is_text (get_str s (codes "exception")) (codes "stream-deleted")
    then resource_deleted
    else from_code to_string s

-- A leader ends the conversion, and otherwise it goes on.
abbrev or_leader : Option Endpoint → Error → Error
or_leader none e = e
or_leader (some l) e = not_leader_exception l

unfoldable pub from_grpc : (Status → Text) → Status → Error
from_grpc to_string s =
    if is_text (get_str s (codes "exception")) (codes "not-leader")
    then or_leader (leader_of s) (or_deleted to_string s)
    else or_deleted to_string s

unfoldable pub is_access_denied : Error → Bool
is_access_denied access_denied = true
is_access_denied _ = false

unfoldable pub is_unsupported_feature : Error → Bool
is_unsupported_feature unsupported_feature = true
is_unsupported_feature _ = false
