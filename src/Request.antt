-- ===== src/Request.antt =====
-- request.rs and commands.rs, `new_request`: the headers and the timeout of a request. Metadata are a
-- list of pairs, the latest first. The headers of the tracing context, the base64 encoding and the
-- test for header values (`tonic`) are arguments; `none` is the panic of a connection name that is no
-- header value.
pub mod Headers
use trogon_event_store_clien.Base.{
  Bool, true, false, ◌||◌, Option, none, some, List, [], ◌∷◌, ◌++◌, if◌then◌else◌,
}
use trogon_event_store_clien.Base.Text.{Text, codes, text_eq}
use trogon_event_store_clien.Types.{Duration, Credentials, Authentication, NodePreference, leader}
use trogon_event_store_clien.Settings.{ClientSettings}

pub data OperationKind : Type 0 where
  regular streaming : OperationKind

pub record CommonOperationOptions : Type 0 where
  pub authentication : Option Authentication
  pub requires_leader : Bool
  pub deadline : Option Duration

abbrev pub Metadata : Type 0
Metadata = List (Text × Text)

-- `MetadataMap::get` and `insert`, which puts the value in the place of the others of its key.
unfoldable pub get : Text → Metadata → Option Text
get key [] = none
get key ((k, v) ∷ rest) = let older = get key rest in if text_eq k key then some v else older

abbrev pub insert : Text → Text → Metadata → Metadata
insert key value metadata = (key, value) ∷ metadata

abbrev pub is_leader : NodePreference → Bool
is_leader leader = true
is_leader _ = false

abbrev pub as_basic : Option Credentials → Option Authentication
as_basic none = none
as_basic (some c) = some (Authentication.basic c)

-- The authentication of the request: the one of its options, or else the settings' user.
abbrev pub authentication_of : Option Authentication → Option Credentials → Option Authentication
authentication_of (some a) user = some a
authentication_of none user = as_basic user

abbrev pub insert_some : Text → Option Text → Metadata → Metadata
insert_some key none metadata = metadata
insert_some key (some value) metadata = insert key value metadata

-- The text of the header, whose login and password are texts already.
abbrev header_text : (Text → Text) → Authentication → Text
header_text encode (Authentication.basic c) =
    codes "Basic " ++ encode (c.login ++ b':' ∷ c.password)
header_text encode (Authentication.bearer token) = codes "Bearer " ++ token

module _ (encode : Text → Text) (header_value : Text → Option Text) where
  unfoldable pub build_authorization_header : Authentication → Option Text
  build_authorization_header auth = header_value (header_text encode auth)

  abbrev pub authorize : Option Authentication → Metadata → Metadata
  authorize none metadata = metadata
  authorize (some a) metadata =
      insert_some (codes "authorization") (build_authorization_header a) metadata

  abbrev pub require_leader : Bool → Metadata → Metadata
  require_leader needed metadata =
      if needed then insert (codes "requires-leader") (codes "true") metadata else metadata

  abbrev pub insert_name : Option Text → Metadata → Option Metadata
  insert_name none metadata = none
  insert_name (some value) metadata = some (insert (codes "connection-name") value metadata)

  abbrev pub name_connection : Option Text → Metadata → Option Metadata
  name_connection none metadata = some metadata
  name_connection (some name) metadata = insert_name (header_value name) metadata

  -- `build_request_metadata`, from the metadata of the tracing context.
  unfoldable pub build_request_metadata :
      ClientSettings → CommonOperationOptions → Metadata → Option Metadata
  build_request_metadata settings options traced = name_connection settings.connection_name (
      require_leader (options.requires_leader || is_leader settings.preference)
        (authorize (authentication_of options.authentication settings.default_user_name) traced))

abbrev or_default : OperationKind → Option Duration → Option Duration
or_default OperationKind.streaming none = none
or_default OperationKind.streaming (some d) = none
or_default OperationKind.regular (some d) = some d
or_default OperationKind.regular none = some 10_000

-- The timeout that `new_request` sets, in milliseconds.
unfoldable pub timeout_of :
    ClientSettings → OperationKind → CommonOperationOptions → Option Duration
timeout_of settings kind options = elim options.deadline [
  | some d ↦ some d
  | none ↦ or_default kind settings.default_deadline
]
