-- ===== src/Errors/Classes.antt =====
-- What `from_grpc` of types.rs makes of each status, told by a table over the gRPC codes.
use trogon_event_store_clien.Base.{◌≡◌, ◌≢◌, ◌⊎◌, Option, none, some, if◌then◌else◌, arith}
use trogon_event_store_clien.Base.Text.{Text, codes, text_eq}
use trogon_event_store_clien.Errors.{
  Code, success, cancelled, unknown, invalid_argument, not_found, already_exists, permission_denied,
  resource_exhausted, failed_precondition, aborted, out_of_range, unimplemented, internal,
  unavailable, data_loss, unauthenticated, Status, Error, server_error, access_denied,
  resource_already_exists, resource_not_found, unsupported_feature, get_str, is_text_iff, leader_of,
  from_grpc,
}

-- The error of a status whose metadata name neither a leader nor a deleted stream.
abbrev pub class_of : Code → Text → Text → Error
class_of cancelled message shown =
    if text_eq message (codes "Timeout expired")
    then Error.deadline_exceeded
    else Error.grpc cancelled message
class_of Code.deadline_exceeded message shown = Error.deadline_exceeded
class_of unauthenticated message shown = access_denied
class_of permission_denied message shown = access_denied
class_of already_exists message shown = resource_already_exists
class_of not_found message shown = resource_not_found
class_of unavailable message shown = server_error shown
class_of internal message shown = server_error shown
class_of data_loss message shown = server_error shown
class_of unknown message shown = server_error shown
class_of unimplemented message shown = unsupported_feature
class_of success message shown = Error.grpc success message
class_of invalid_argument message shown = Error.grpc invalid_argument message
class_of resource_exhausted message shown = Error.grpc resource_exhausted message
class_of failed_precondition message shown = Error.grpc failed_precondition message
class_of aborted message shown = Error.grpc aborted message
class_of out_of_range message shown = Error.grpc out_of_range message

abbrev pub exception : Status → Option Text
exception s = get_str s (codes "exception")

-- A status whose metadata neither name a leader with `not-leader` nor say `stream-deleted` is classed
-- by its code and its message alone, as the table tells.
pub from_grpc_classes :
    (to_string : Status → Text) (s : Status)
    → (exception s ≢ some (codes "not-leader")) ⊎ (leader_of s ≡ none)
    → exception s ≢ some (codes "stream-deleted")
    → from_grpc to_string s ≡ class_of s.code s.message (to_string s)
unfolding from_grpc
from_grpc_classes to_string s h g = ground (
  arith,
  is_text_iff (exception s) (codes "not-leader"),
  is_text_iff (exception s) (codes "stream-deleted"),
)
