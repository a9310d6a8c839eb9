-- ===== src/Events.antt =====
-- The events that the server sends (types.rs, `RecordedEvent` and `ResolvedEvent`) and their decoding
-- (event_store/generated.rs). `none` is a panic of the decoding. A `HashMap` is a list of pairs;
-- the conversion of an instant into a date belongs to `chrono` and is an argument.
use trogon_event_store_clien.Base.{
  ℕ, ◌/◌, Bool, false, Option, none, some, is_some, unwrap_or, List, [], ◌∷◌, if◌then◌else◌,
}
use trogon_event_store_clien.Base.Text.{Text, codes, text_eq}
use trogon_event_store_clien.Base.Decimal.{parse_uint}
use trogon_event_store_clien.Base.Int.{u64_max}
use trogon_event_store_clien.Uuid.{Uuid, WireUuid, try_from}
use trogon_event_store_clien.Position.{Position}

abbrev pub Metadata : Type 0
Metadata = List (Text × Text)

unfoldable pub get : Text → Metadata → Option Text
get key [] = none
get key ((k, v) ∷ rest) = let found = get key rest in if text_eq k key then some v else found

unfoldable pub remove : Text → Metadata → Metadata
remove key [] = []
remove key ((k, v) ∷ rest) =
    let others = remove key rest in if text_eq k key then others else (k, v) ∷ others

abbrev pub and_then {ℓ κ} : {A : Type ℓ} {B : Type κ} → Option A → (A → Option B) → Option B
and_then none f = none
and_then (some a) f = f a

-- `streams::read_resp::read_event::RecordedEvent`.
pub record WireRecordedEvent : Type 0 where
  pub id : Option WireUuid
  pub stream_identifier : Option Text
  pub stream_revision : ℕ
  pub prepare_position : ℕ
  pub commit_position : ℕ
  pub metadata : Metadata
  pub custom_metadata : Text
  pub payload : Text

pub record RecordedEvent (Time : Type 0) : Type 0 where
  pub stream_id_raw : Text
  pub id : Uuid
  pub revision : ℕ
  pub event_type : Text
  pub payload : Text
  pub metadata : Metadata
  pub custom_metadata : Text
  pub is_json : Bool
  pub position : Position
  pub created : Time

pub record WireReadEvent : Type 0 where
  pub event : Option WireRecordedEvent
  pub link : Option WireRecordedEvent
  pub commit_position : Option ℕ

pub record ResolvedEvent (Time : Type 0) : Type 0 where
  pub event : Option (RecordedEvent Time)
  pub link : Option (RecordedEvent Time)
  pub commit_position : Option ℕ

module _ (Time : Type 0) (since_epoch : ℕ → ℕ → Option Time) (parse_uuid : Text → Option Uuid) where
  -- The `created` entry counts ticks of 100 ns; what is no number counts as 0.
  abbrev seconds : Option Text → ℕ
  seconds none = 0
  seconds (some ticks) = unwrap_or (parse_uint u64_max ticks) 0 / 10000000

  abbrev json : Option Text → Bool
  json none = false
  json (some content_type) = text_eq content_type (codes "application/json")

  unfoldable pub recorded_event : WireRecordedEvent → Option (RecordedEvent Time)
  recorded_event value =
      let metadata = remove (codes "type") value.metadata in
      and_then (and_then value.id (try_from parse_uuid)) (λ id.
        and_then value.stream_identifier (λ stream_name.
          and_then (since_epoch (seconds (get (codes "created") metadata)) 0) (λ created.
            some (record {
              stream_id_raw = stream_name;
              id = id;
              revision = value.stream_revision;
              event_type = unwrap_or (get (codes "type") value.metadata) [];
              payload = value.payload;
              metadata = metadata;
              custom_metadata = value.custom_metadata;
              is_json = json (get (codes "content-type") metadata);
              position = record {
                commit = value.commit_position;
                prepare = value.prepare_position;
              };
              created = created;
            }))))

  abbrev optional_event : Option WireRecordedEvent → Option (Option (RecordedEvent Time))
  optional_event none = some none
  optional_event (some value) = and_then (recorded_event value) (λ e. some (some e))

  unfoldable pub resolved_event : WireReadEvent → Option (ResolvedEvent Time)
  resolved_event value = and_then (optional_event value.event) (λ event.
      and_then (optional_event value.link) (λ link.
        some (record { event = event; link = link; commit_position = value.commit_position })))

module _ {Time : Type 0} where
  abbrev original :
      Option (RecordedEvent Time) → Option (RecordedEvent Time) → Option (RecordedEvent Time)
  original (some link) event = some link
  original none event = event

  -- `get_original_event`, which panics on neither.
  unfoldable pub get_original_event : ResolvedEvent Time → Option (RecordedEvent Time)
  get_original_event e = original e.link e.event

  unfoldable pub is_resolved : ResolvedEvent Time → Bool
  is_resolved e = if is_some e.event then is_some e.link else false
