-- ===== src/Types.antt =====
-- types.rs: the plain data that the parts of the client exchange. A `Duration` is its number of
-- milliseconds, and a `u64` or `u32` is a number whose range the theorems state where it matters.
use trogon_event_store_clien.Base.{ℕ}
use trogon_event_store_clien.Base.Text.{Text}
use trogon_event_store_clien.Position.{Position}

abbrev pub Duration : Type 0
Duration = ℕ

pub record Endpoint : Type 0 where
  pub host : Text
  pub port : ℕ

pub record Credentials : Type 0 where
  pub login : Text
  pub password : Text

pub data Authentication : Type 0 where
  basic : Credentials → Authentication
  bearer : Text → Authentication

pub data StreamState : Type 0 where
  any stream_exists no_stream : StreamState
  stream_revision : ℕ → StreamState

pub data CurrentRevision : Type 0 where
  current : ℕ → CurrentRevision
  no_stream : CurrentRevision

pub data StreamPosition {ℓ} (A : Type ℓ) : Type ℓ where
  start end : StreamPosition A
  position : A → StreamPosition A

pub data RevisionOrPosition : Type 0 where
  revision : ℕ → RevisionOrPosition
  position : Position → RevisionOrPosition

pub data NodePreference : Type 0 where
  leader follower random read_only_replica : NodePreference
