-- ===== src/Streams/Described.antt =====
-- client.rs, `set_stream_metadata` and `get_stream_metadata`: the metadata of a stream are the last event of
-- a stream of its own. `M` is `StreamMetadata`, and its encoding belongs to `serde_json`. `none` inside a
-- call's result is a panic: among others, of a metadata stream that is read without any event.
use trogon_event_store_clien.Base.{
  ℕ, suc, length, Option, none, some, [], ◌∷◌, ◌++◌, Result, ok, err,
}
use trogon_event_store_clien.Base.Text.{Text, codes}
use trogon_event_store_clien.Uuid.{Uuid}
use trogon_event_store_clien.Errors.{
  Error, resource_not_found, resource_deleted, internal_parsing_error,
}
use trogon_event_store_clien.Settings.{ClientSettings}
use trogon_event_store_clien.Request.{CommonOperationOptions}
use trogon_event_store_clien.Env.{Env}
use trogon_event_store_clien.Machine.{Machine, Msg}
use trogon_event_store_clien.GrpcClient.{Executed, Called}
use trogon_event_store_clien.Events.{RecordedEvent, ResolvedEvent, get_original_event}
use trogon_event_store_clien.Proposals.{Tracing, EventData, json}
use trogon_event_store_clien.Subscription.{Failure, failed, panic}
use trogon_event_store_clien.Streams.{Headers, ReadStreamOptions}
use trogon_event_store_clien.Streams.Reading.{Read, Streaming, next}
use trogon_event_store_clien.Streams.Writes.{
  Server, ExpectedStreamRevision, WriteResult, append_to_stream, read_stream,
}

-- `MetadataStreamName` of a text.
unfoldable pub into_metadata_stream_name : Text → Text
into_metadata_stream_name name = codes "$$" ++ name

module _ (M : Type 0) where
  pub record VersionedMetadata : Type 0 where
    pub stream : Text
    pub version : ℕ
    pub metadata : M

  pub data StreamMetadataResult : Type 0 where
    deleted not_found : StreamMetadataResult
    success : VersionedMetadata → StreamMetadataResult

  -- The metadata that an event holds, by its payload.
  abbrev with_metadata :
      {Time : Type 0} → RecordedEvent Time → Result Text M → Result Error StreamMetadataResult
  with_metadata e (err message) = err (internal_parsing_error message)
  with_metadata e (ok m) =
      ok (success (record { stream = e.stream_id_raw; version = e.revision; metadata = m }))

  abbrev of_original :
      {Time : Type 0}
      → (Text → Result Text M)
      → Option (RecordedEvent Time)
      → Option (Result Error StreamMetadataResult)
  of_original from_slice none = none
  of_original from_slice (some e) = some (with_metadata e (from_slice e.payload))

  abbrev of_error : Error → Result Error StreamMetadataResult
  of_error resource_not_found = ok not_found
  of_error resource_deleted = ok deleted
  of_error e = err e

  -- What the first event of the read, or its failure, comes to.
  unfoldable pub metadata_of :
      {Time : Type 0}
      → (Text → Result Text M)
      → Result Failure (Option (ResolvedEvent Time))
      → Option (Result Error StreamMetadataResult)
  unfolding get_original_event
  metadata_of from_slice (err panic) = none
  metadata_of from_slice (err (failed e)) = some (of_error e)
  metadata_of from_slice (ok none) = none
  metadata_of from_slice (ok (some e)) = of_original from_slice (get_original_event e)

  module _ (env : Env) (server : Server) (headers : Headers) (settings : ClientSettings) where
    open env use {World, status_to_string, parse_uuid}

    abbrev Command : Type 0 → Type 0
    Command A = ℕ → Machine → World → Called env (Option (Executed A))

    abbrev refused : Error → Command WriteResult
    refused e tag m w = some (some (record { result = err e; sent = none }), m, w)

    abbrev append_event :
        Tracing
        → (ℕ → Uuid)
        → Text
        → ExpectedStreamRevision
        → CommonOperationOptions
        → Result Error EventData
        → Command WriteResult
    append_event tracing new_v4 name version common (err e) tag m w = refused e tag m w
    append_event tracing new_v4 name version common (ok event) tag m w =
        append_to_stream env server headers settings tracing new_v4 (into_metadata_stream_name name)
          version common (event ∷ []) tag m w

    abbrev parsing_error : Result Text EventData → Result Error EventData
    parsing_error (err message) = err (internal_parsing_error message)
    parsing_error (ok event) = ok event

    unfoldable pub set_stream_metadata :
        (M → Result Text Text)
        → Tracing
        → (ℕ → Uuid)
        → Text
        → ExpectedStreamRevision
        → CommonOperationOptions
        → M
        → Command WriteResult
    unfolding into_metadata_stream_name json
    set_stream_metadata to_vec tracing new_v4 name version common metadata =
        append_event tracing new_v4 name version common
          (parsing_error (json (codes "$metadata") (to_vec metadata)))

    module _ (Time : Type 0) (since_epoch : ℕ → ℕ → Option Time)
        (from_slice : Text → Result Text M) where
      abbrev finish :
          Option (Result Error StreamMetadataResult)
          → Option Msg
          → Option (Executed StreamMetadataResult)
      finish none sent = none
      finish (some r) sent = some (record { result = r; sent = sent })

      abbrev first_of : Option (Read (ResolvedEvent Time)) → Option (Executed StreamMetadataResult)
      first_of none = none
      first_of (some r) = finish (metadata_of from_slice r.result) r.sent

      abbrev opened :
          Result Error (Uuid × Streaming) → Option Msg → Option (Executed StreamMetadataResult)
      opened (err e) sent = some (record { result = err e; sent = sent })
      opened (ok (id, inner)) sent =
          first_of (next Time since_epoch parse_uuid status_to_string id (suc (length inner)) inner)

      abbrev answered :
          Called env (Option (Executed (Uuid × Streaming)))
          → Called env (Option (Executed StreamMetadataResult))
      answered none = none
      answered (some (none, m, w)) = some (none, m, w)
      answered (some (some e, m, w)) = some (opened e.result e.sent, m, w)

      unfoldable pub get_stream_metadata :
          ReadStreamOptions → Text → ℕ → Command StreamMetadataResult
      unfolding into_metadata_stream_name metadata_of
      get_stream_metadata options name n tag m w = answered (
          read_stream env server headers settings options (into_metadata_stream_name name) n tag m
            w)
