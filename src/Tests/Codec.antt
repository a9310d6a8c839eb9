-- ===== src/Tests/Codec.antt =====
-- Runs of the theorems on the encodings: identifiers, positions, errors, versions and features.
use trogon_event_store_clien.Base.{
  ◌≡◌, inl, refl, true, if◌then◌else◌, Option, none, some, [], ◌∷◌, ok,
}
use trogon_event_store_clien.Base.Text.{Text, codes, text_eq, contains_char}
use trogon_event_store_clien.Base.Int.{pos}
use trogon_event_store_clien.Uuid.{Uuid, to_wire, try_from}
use trogon_event_store_clien.Position.{Position}
use trogon_event_store_clien.Types.{Endpoint, bearer}
use trogon_event_store_clien.Errors.{Status, Code, unavailable, from_grpc}
use trogon_event_store_clien.Errors.Classes.{class_of, from_grpc_classes}
use trogon_event_store_clien.Settings.{ClientSettings, default}
use trogon_event_store_clien.Request.{CommonOperationOptions, get, build_request_metadata}
use trogon_event_store_clien.Request.Headers.{IsHeaded, build_request_metadata-IsHeaded}
use trogon_event_store_clien.Gossip.{VNodeState, WireMember, MemberInfo, from_i32, read}
use trogon_event_store_clien.Gossip.Decoding.{DecodesAll, read-DecodesAll}
use trogon_event_store_clien.Features.{
  ServerVersion, SupportedMethod, contains, add_methods, nothing,
}
use trogon_event_store_clien.Features.Methods.{batch, bit, any_grants, contains-add_methods}

abbrev no_text : Text → Option Uuid
no_text s = none

abbrev same_message : Status → Text
same_message s = s.message

abbrev early : Position
early = record { commit = 3; prepare = 9 }

abbrev late : Position
late = record { commit = 4; prepare = 1 }

abbrev plain : Status
plain = record { code = unavailable; message = codes "gone"; metadata = λ key. none }

abbrev node_one : Endpoint
node_one = record { host = codes "a"; port = 2113 }

abbrev moved : Status
moved = record {
  code = Code.not_found;
  message = codes "leader info available";
  metadata = λ key.
      if text_eq key (codes "exception")
      then some (some (codes "not-leader"))
      else if text_eq key (codes "leader-endpoint-host")
      then some (some (codes "a"))
      else if text_eq key (codes "leader-endpoint-port")
      then some (some (codes "2113"))
      else none;
}

from_grpc_classes_example :
    from_grpc same_message plain ≡ class_of unavailable (codes "gone") (codes "gone")
from_grpc_classes_example = from_grpc_classes same_message plain (inl (λ h. cc)) (λ h. cc)

abbrev version : ServerVersion
version = record { major = 24; minor = 2; patch = 10 }

abbrev alive_member : WireMember
alive_member = record {
  instance_id = some (to_wire 7);
  time_stamp = pos 0;
  state = pos 8;
  is_alive = true;
  http_end_point = some (record { address = codes "a"; port = 2113 });
}

abbrev alive_info : MemberInfo
alive_info = record {
  instance_id = 7;
  time_stamp = pos 0;
  state = VNodeState.leader;
  is_alive = true;
  http_end_point = node_one;
  last_commit_position = pos 0;
  writer_checkpoint = pos 0;
  chaser_checkpoint = pos 0;
  epoch_position = pos 0;
  epoch_number = pos 0;
  epoch_id = 0;
  node_priority = pos 0;
}

alive_members : read no_text (alive_member ∷ []) ≡ ok (alive_info ∷ [])
unfolding read try_from to_wire from_i32 trogon_event_store_clien.Gossip.decode
alive_members = refl

read-DecodesAll_example : DecodesAll no_text (alive_member ∷ []) (alive_info ∷ [])
read-DecodesAll_example =
    read-DecodesAll no_text (alive_member ∷ []) (alive_info ∷ []) alive_members

abbrev append_method : SupportedMethod
append_method = record {
  method_name = codes "batchappend";
  service_name = codes "event_store.client.streams.streams";
  features = [];
}

abbrev all_method : SupportedMethod
all_method = record {
  method_name = codes "create";
  service_name = codes "event_store.client.persistent_subscriptions.persistentsubscriptions";
  features = codes "all" ∷ [];
}

contains-add_methods_example :
    contains (add_methods (append_method ∷ all_method ∷ []) nothing) (bit batch)
    ≡ any_grants (append_method ∷ all_method ∷ []) batch
contains-add_methods_example = contains-add_methods batch (append_method ∷ all_method ∷ [])

-- Header values are the texts without a line break.
abbrev value_of : Text → Option Text
value_of s = if contains_char s b'\n' then none else some s

abbrev asking : CommonOperationOptions
asking = record {
  authentication = some (bearer (codes "t"));
  requires_leader = true;
  deadline = none;
}

broken_name : value_of (codes "a\n") ≡ none
unfolding contains_char
broken_name = refl

-- Settings with a user, whom the token of the call takes precedence over.
abbrev with_user : ClientSettings
with_user = record default {
  default_user_name = some (record { login = codes "admin"; password = codes "changeit" });
}

build_request_metadata-IsHeaded_example :
    IsHeaded
      (λ s. s)
      value_of
      (some (codes "Bearer t"))
      (some (codes "true"))
      (build_request_metadata (λ s. s) value_of with_user asking [])
unfolding get default contains_char
build_request_metadata-IsHeaded_example =
    build_request_metadata-IsHeaded (λ s. s) value_of with_user asking [] (refl, refl) (λ n e. cc)
