-- ===== src/Request/Headers.antt =====
-- What a request says in its headers (request.rs, commands.rs).
use trogon_event_store_clien.Base.{
  ◌≡◌, refl, ◌∙◌, ◌++◌, ◌∷◌, Bool, true, false, ◌||◌, if◌then◌else◌, Option, none, some,
}
use trogon_event_store_clien.Base.Text.{Text, codes, text_eq}
use trogon_event_store_clien.Types.{
  Authentication, Credentials, NodePreference, leader, follower, random, read_only_replica,
}
use trogon_event_store_clien.Settings.{ClientSettings}
use trogon_event_store_clien.Request.{
  CommonOperationOptions, Metadata, get, is_leader, authentication_of, insert_some,
  build_authorization_header, authorize, require_leader, insert_name, name_connection,
  build_request_metadata,
}

abbrev pub leader_key : Text
leader_key = codes "requires-leader"

abbrev pub authorization_key : Text
authorization_key = codes "authorization"

-- The tracing context leaves the client's own headers alone.
abbrev pub IsForeign : Metadata → Type 0
IsForeign traced = (get leader_key traced ≡ none) × (get authorization_key traced ≡ none)

-- The demand for the leader: of the options, or of a preference for the leader.
abbrev pub leader_demand : Bool → NodePreference → Option Text
leader_demand true preference = some (codes "true")
leader_demand false leader = some (codes "true")
leader_demand false follower = none
leader_demand false random = none
leader_demand false read_only_replica = none

leader_demand-if :
    (required : Bool) (preference : NodePreference)
    → (if required || is_leader preference then some (codes "true") else none)
      ≡ leader_demand required preference
leader_demand-if true preference = refl
leader_demand-if false leader = refl
leader_demand-if false follower = refl
leader_demand-if false random = refl
leader_demand-if false read_only_replica = refl

module _ (encode : Text → Text) (header_value : Text → Option Text) where
  -- The header of an authentication, if there is one and it makes a header.
  abbrev header_of : Option Authentication → Option Text
  header_of none = none
  header_of (some a) = build_authorization_header encode header_value a

  insert_some-get :
      (value : Option Text) (traced : Metadata)
      → IsForeign traced
      → (get authorization_key (insert_some authorization_key value traced) ≡ value)
        × (get leader_key (insert_some authorization_key value traced) ≡ none)
  unfolding get text_eq
  insert_some-get none traced foreign = (foreign.1, foreign.0)
  insert_some-get (some value) traced foreign = (refl, foreign.0)

  authorize-get :
      (a : Option Authentication) (traced : Metadata)
      → IsForeign traced
      → (get authorization_key (authorize encode header_value a traced) ≡ header_of a)
        × (get leader_key (authorize encode header_value a traced) ≡ none)
  authorize-get none traced foreign = (foreign.1, foreign.0)
  authorize-get (some a) traced foreign = insert_some-get _ traced foreign

  require_leader-get :
      (needed : Bool) (m : Metadata) (value : Option Text)
      → (get authorization_key m ≡ value) × (get leader_key m ≡ none)
      → (get authorization_key (require_leader encode header_value needed m) ≡ value)
        × (get leader_key (require_leader encode header_value needed m)
            ≡ (if needed then some (codes "true") else none))
  unfolding get text_eq
  require_leader-get true m value h = (h.0, refl)
  require_leader-get false m value h = h

  -- The text that tells the server of a caller: the authentication of the call first, then the user of
  -- the settings; a header only if it is a header value.
  abbrev pub authorization_for : Option Authentication → Option Credentials → Option Text
  authorization_for (some (Authentication.basic c)) user =
      header_value (codes "Basic " ++ encode (c.login ++ b':' ∷ c.password))
  authorization_for (some (Authentication.bearer token)) user =
      header_value (codes "Bearer " ++ token)
  authorization_for none (some c) =
      header_value (codes "Basic " ++ encode (c.login ++ b':' ∷ c.password))
  authorization_for none none = none

  header_of-authentication_of :
      (a : Option Authentication) (user : Option Credentials)
      → header_of (authentication_of a user) ≡ authorization_for a user
  unfolding build_authorization_header
  header_of-authentication_of (some (Authentication.basic c)) user = refl
  header_of-authentication_of (some (Authentication.bearer token)) user = refl
  header_of-authentication_of none (some c) = refl
  header_of-authentication_of none none = refl

  -- What a request carries: the authorization, and the demand for the leader.
  abbrev pub IsHeaded : Option Text → Option Text → Option Metadata → Type 0
  IsHeaded authorization demand none = ⊥
  IsHeaded authorization demand (some m) =
      (get authorization_key m ≡ authorization) × (get leader_key m ≡ demand)

  insert_name-IsHeaded :
      (o : Option Text) (v : Text) (authorization : Option Text) (demand : Option Text)
      (m : Metadata)
      → IsHeaded authorization demand (some m)
      → o ≡ some v
      → IsHeaded authorization demand (insert_name encode header_value o m)
  unfolding get text_eq
  insert_name-IsHeaded none v authorization demand m h e = cc
  insert_name-IsHeaded (some u) v authorization demand m h e = h

  name_connection-IsHeaded :
      (name : Option Text) (authorization : Option Text) (demand : Option Text) (m : Metadata)
      → IsHeaded authorization demand (some m)
      → ((n : Text) → name ≡ some n → (v : Text) × (header_value n ≡ some v))
      → IsHeaded authorization demand (name_connection encode header_value name m)
  name_connection-IsHeaded none authorization demand m h fits = h
  name_connection-IsHeaded (some n) authorization demand m h fits =
      let (v, e) = fits n refl in insert_name-IsHeaded (header_value n) v authorization demand m h e

  -- A request whose connection name, if there is one, is a header value, and whose tracing headers are
  -- not the client's own, says who calls and whether it needs the leader. The authorization is that of
  -- the options, basic or bearer, or else of the settings' user, and none if it is no header value; the
  -- leader is required exactly when the options require it or the preference is the leader.
  pub build_request_metadata-IsHeaded :
      (settings : ClientSettings) (options : CommonOperationOptions) (traced : Metadata)
      → IsForeign traced
      → ((n : Text) → settings.connection_name ≡ some n → (v : Text) × (header_value n ≡ some v))
      → IsHeaded
          (authorization_for options.authentication settings.default_user_name)
          (leader_demand options.requires_leader settings.preference)
          (build_request_metadata encode header_value settings options traced)
  unfolding build_request_metadata
  build_request_metadata-IsHeaded settings options traced foreign fits =
      let needed = options.requires_leader || is_leader settings.preference in
      let (who, demand) = require_leader-get needed _ _ (authorize-get _ traced foreign) in
      name_connection-IsHeaded settings.connection_name _ _ _
        (
          who ∙ header_of-authentication_of options.authentication settings.default_user_name,
          demand ∙ leader_demand-if options.requires_leader settings.preference,
        )
        fits

  name_connection-none :
      (name : Option Text) (n : Text) (m : Metadata)
      → name ≡ some n
      → header_value n ≡ none
      → name_connection encode header_value name m ≡ none
  name_connection-none none n m e bad = cc
  name_connection-none (some k) n m e bad = let same : k ≡ n = cc in rw same (rw bad refl)

  -- With a connection name that is no header value, no request can be made: its metadata panic,
  -- whatever the options are.
  pub build_request_metadata-panics :
      (settings : ClientSettings) (options : CommonOperationOptions) (traced : Metadata)
      (name : Text)
      → settings.connection_name ≡ some name
      → header_value name ≡ none
      → build_request_metadata encode header_value settings options traced ≡ none
  unfolding build_request_metadata
  build_request_metadata-panics settings options traced name e bad =
      name_connection-none settings.connection_name name _ e bad
