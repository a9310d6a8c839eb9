-- ===== src/Uuid.antt =====
-- event_store/generated.rs, the conversions between `uuid::Uuid` and the wire's `common::Uuid`
-- (event_store/generated/common.rs). A `Uuid` is its 128-bit number; `uuid::Uuid::nil()` is 0. The
-- parser of textual identifiers belongs to the `uuid` crate and is an argument.
use trogon_event_store_clien.Base.{ℕ, ◌+◌, ◌*◌, ◌/◌, ◌%◌, ◌^◌, ◌<◌, ◌≡◌, Option, none, some, arith}
use trogon_event_store_clien.Base.Int.{ℤ, as_i64, as_u64, as_u64-as_i64}
use trogon_event_store_clien.Base.Text.{Text}

abbrev pub Uuid : Type 0
Uuid = ℕ

abbrev pub nil : Uuid
nil = 0

pub data Value : Type 0 where
  structured : ℤ → ℤ → Value
  string : Text → Value

pub record WireUuid : Type 0 where
  pub value : Option Value

-- `From<uuid::Uuid> for common::Uuid`.
unfoldable pub to_wire : Uuid → WireUuid
to_wire value = record {
  value = some (structured (as_i64 (value / 2 ^ 64)) (as_i64 (value % 2 ^ 64)));
}

-- The two halves are written big-endian into sixteen bytes.
abbrev from_parts : ℤ → ℤ → Uuid
from_parts most least = as_u64 most * 2 ^ 64 + as_u64 least

from_value : (Text → Option Uuid) → Option Value → Option Uuid
from_value parse none = some nil
from_value parse (some (structured most least)) = some (from_parts most least)
from_value parse (some (string s)) = parse s

-- `TryFrom<common::Uuid> for uuid::Uuid`; `none` is the `uuid::Error` of a malformed text.
unfoldable pub try_from : (Text → Option Uuid) → WireUuid → Option Uuid
unfolding from_value
try_from parse w = from_value parse w.value

-- A 128-bit identifier that is put on the wire is read back as it was, whatever the text parser.
pub try_from-to_wire :
    (parse : Text → Option Uuid) (id : Uuid) → id < 2 ^ 128 → try_from parse (to_wire id) ≡ some id
unfolding try_from to_wire
try_from-to_wire parse id h =
    ground
      (arith, as_u64-as_i64 (id / 2 ^ 64) (omega arith), as_u64-as_i64 (id % 2 ^ 64) (omega arith))
