-- ===== src/Proposals.antt =====
-- The events that a caller writes: `EventData` (types.rs), the tracing headers that
-- `inject_event_context` adds to one (observability.rs), and the message of one on the wire
-- (event_store/generated.rs; commands.rs, `convert_event_data_to_batch_proposed_message`, which makes
-- the same message). JSON (`serde_json`), the tracing context (`opentelemetry`) and fresh identifiers
-- (`uuid`) are arguments.
pub mod Kept
use trogon_event_store_clien.Base.{
  ℕ, suc, ◌+◌, Bool, ◌&&◌, ◌||◌, leb, map, Option, none, some, unwrap_or, List, [], ◌∷◌,
  if◌then◌else◌, Result, ok, ◌>>=◌,
}
use trogon_event_store_clien.Base.Text.{Text, codes, text_eq}
use trogon_event_store_clien.Uuid.{Uuid, WireUuid, to_wire}
use trogon_event_store_clien.Events.{Metadata}

pub record EventData : Type 0 where
  pub payload : Text
  pub id_opt : Option Uuid
  pub metadata : Metadata
  pub custom_metadata : Option Text

abbrev content_of : Text → Text → Text → EventData
content_of event_type content_type payload = record {
  payload = payload;
  id_opt = none;
  metadata = (codes "type", event_type) ∷ (codes "content-type", content_type) ∷ [];
  custom_metadata = none;
}

-- `EventData::json` on the bytes that `serde_json::to_vec` makes of its payload.
unfoldable pub json : {E : Type 0} → Text → Result E Text → Result E EventData
json event_type encoded = do
  payload ← encoded
  ok (content_of event_type (codes "application/json") payload)

unfoldable pub binary : Text → Text → EventData
binary event_type payload = content_of event_type (codes "application/octet-stream") payload

-- `EventData::id` and `EventData::metadata`.
unfoldable pub with_id : Uuid → EventData → EventData
with_id value event = record event { id_opt = some value }

unfoldable pub with_metadata : Text → EventData → EventData
with_metadata payload event = record event { custom_metadata = some payload }

-- `ProposedMessage`, of `append_req` and of `batch_append_req`.
pub record ProposedMessage : Type 0 where
  pub id : Option WireUuid
  pub metadata : Metadata
  pub custom_metadata : Text
  pub payload : Text

-- `From<EventData> for AppendReq`.
unfoldable pub proposed_message : Uuid → EventData → ProposedMessage
proposed_message fresh event = record {
  id = some (to_wire (unwrap_or event.id_opt fresh));
  metadata = event.metadata;
  custom_metadata = unwrap_or event.custom_metadata [];
  payload = event.payload;
}

-- What the client sees of a JSON value: whether it is a string.
pub data Json (V : Type 0) : Type 0 where
  string : Text → Json V
  other : V → Json V

-- The tracing context and JSON. `fields` are what the propagator of the context puts in a carrier, and
-- `from_slice` is `none` for a text that is no object.
pub record Tracing : Type 1 where
  pub V : Type 0
  pub is_valid : Bool
  pub fields : List (Text × Text)
  pub from_slice : Text → Option (List (Text × Json V))
  pub to_vec : List (Text × Json V) → Option Text

abbrev pub to_lower : ℕ → ℕ
to_lower c = if leb b'A' c && leb c b'Z' then c + 32 else c

abbrev pub eq_ignore_ascii_case : Text → Text → Bool
eq_ignore_ascii_case s t = text_eq (map to_lower s) (map to_lower t)

unfoldable pub is_persisted_trace_field : Text → Bool
is_persisted_trace_field key =
    eq_ignore_ascii_case key (codes "traceparent") || eq_ignore_ascii_case key (codes "tracestate")

module _ (tracing : Tracing) where
  open tracing use {V, is_valid, fields, from_slice, to_vec}

  -- `serde_json::Map`, and the carrier around one.
  abbrev pub Object : Type 0
  Object = List (Text × Json V)

  unfoldable pub retain_others : Text → Object → Object
  retain_others key [] = []
  retain_others key ((k, v) ∷ rest) =
      let others = retain_others key rest in
      if eq_ignore_ascii_case k key then others else (k, v) ∷ others

  -- `EventMetadataCarrier::set`.
  unfoldable pub set : Text → Text → Object → Object
  set key value object =
      if is_persisted_trace_field key
      then (key, string value) ∷ retain_others key object
      else object

  unfoldable pub inject : List (Text × Text) → Object → Object
  inject [] object = object
  inject ((key, value) ∷ rest) object = inject rest (set key value object)

  -- The loop over the propagated fields, which takes the strings.
  unfoldable pub set_all : Object → Object → Object
  set_all [] object = object
  set_all ((key, string value) ∷ rest) object = set_all rest (set key value object)
  set_all ((key, other value) ∷ rest) object = set_all rest object

  abbrev pub custom_object : Option Text → Option Object
  custom_object none = some []
  custom_object (some []) = some []
  custom_object (some (c ∷ s)) = from_slice (c ∷ s)

  abbrev pub put_encoded : Option Text → EventData → EventData
  put_encoded none event = event
  put_encoded (some encoded) event = record event { custom_metadata = some encoded }

  abbrev pub put_fields : Object → Option Object → EventData → EventData
  put_fields [] object event = event
  put_fields (field ∷ rest) none event = event
  put_fields (field ∷ rest) (some object) event =
      put_encoded (to_vec (set_all (field ∷ rest) object)) event

  unfoldable pub inject_event_context : EventData → EventData
  inject_event_context event =
      if is_valid
      then put_fields (inject fields []) (custom_object event.custom_metadata) event
      else event

  -- The messages of events, whose fresh identifiers are numbered from `n`.
  unfoldable pub proposed_messages : (ℕ → Uuid) → ℕ → List EventData → List ProposedMessage
  proposed_messages new_v4 n [] = []
  proposed_messages new_v4 n (event ∷ events) =
      proposed_message (new_v4 n) (inject_event_context event)
      ∷ proposed_messages new_v4 (suc n) events
