-- ===== src/Projections/Values.antt =====
-- projection_client.rs, `parse_value`: a protobuf value is made a JSON value on a stack of its own, with no
-- recursion. JSON (`serde_json`) is an argument. An iterator of a list or of a map is what is left of it; a
-- map gives its fields in the order of their keys.
pub mod Parsed
use trogon_event_store_clien.Base.{ℕ, zero, suc, Bool, Option, none, some, List, [], ◌∷◌, ◌++◌}
use trogon_event_store_clien.Base.Text.{Text}

-- `prost_types::Value`, with its lists and its structs; `F` is `f64`.
mutual
  pub data Proto (F : Type 0) : Type 0 where
    unset null : Proto F
    number : F → Proto F
    string : Text → Proto F
    boolean : Bool → Proto F
    list_of : Values F → Proto F
    struct_of : Fields F → Proto F

  pub data Values (F : Type 0) : Type 0 where
    nil : Values F
    cons : Proto F → Values F → Values F

  pub data Fields (F : Type 0) : Type 0 where
    end : Fields F
    field : Text → Proto F → Fields F → Fields F

-- `serde_json::Value` and its `Map`. `from_f64` is `none` for what is no finite number.
pub record Json (F : Type 0) : Type 1 where
  pub Value : Type 0
  pub Map : Type 0
  pub null : Value
  pub from_f64 : F → Option Value
  pub string : Text → Value
  pub boolean : Bool → Value
  pub array : List Value → Value
  pub object : Map → Value
  pub empty : Map
  pub insert : Text → Value → Map → Map

module _ (F : Type 0) (json : Json F) where
  open json use {Value, Map}

  -- `Stack`.
  pub data Frame : Type 0 where
    list : Values F → List Value → Frame
    map : Fields F → Text → Map → Frame
    value : Value → Frame
    proto : Proto F → Frame

  -- What a round of the loop comes to: a panic, or a stack and a parameter.
  pub data Round : Type 0 where
    panic : Round
    next : List Frame → Option Value → Round

  abbrev list_round : Values F → List Value → List Frame → Round
  list_round nil acc stack = next (value (json.array acc) ∷ stack) none
  list_round (cons v vs) acc stack = next (proto v ∷ list vs acc ∷ stack) none

  abbrev map_round : Fields F → Map → List Frame → Round
  map_round end acc stack = next (value (json.object acc) ∷ stack) none
  map_round (field key v fs) acc stack = next (proto v ∷ map fs key acc ∷ stack) none

  abbrev pub number_round : Option Value → List Frame → Option Value → Round
  number_round none stack param = panic
  number_round (some v) stack param = next (value v ∷ stack) param

  abbrev proto_round : Proto F → List Frame → Option Value → Round
  proto_round unset stack param = next (value json.null ∷ stack) param
  proto_round Proto.null stack param = next (value json.null ∷ stack) param
  proto_round (number x) stack param = number_round (json.from_f64 x) stack param
  proto_round (Proto.string s) stack param = next (value (json.string s) ∷ stack) param
  proto_round (Proto.boolean b) stack param = next (value (json.boolean b) ∷ stack) param
  proto_round (list_of nil) stack param = next (value (json.array []) ∷ stack) param
  proto_round (list_of (cons v vs)) stack param = next (proto v ∷ list vs [] ∷ stack) param
  proto_round (struct_of end) stack param = next (value (json.object json.empty) ∷ stack) param
  proto_round (struct_of (field key v fs)) stack param =
      next (proto v ∷ map fs key json.empty ∷ stack) param

  -- The body of the loop. A list or a map whose parameter is missing is a panic.
  unfoldable pub round : Frame → List Frame → Option Value → Round
  round (value v) stack param = next stack (some v)
  round (list vs acc) stack none = panic
  round (list vs acc) stack (some v) = list_round vs (acc ++ v ∷ []) stack
  round (map fs key acc) stack none = panic
  round (map fs key acc) stack (some v) = map_round fs (json.insert key v acc) stack
  round (proto v) stack param = proto_round v stack param

  abbrev pub after :
      Round → (List Frame → Option Value → Option (Option Value)) → Option (Option Value)
  after panic rest = some none
  after (next stack param) rest = rest stack param

  -- The loop, on fuel; inside the result, `none` is a panic.
  unfoldable pub loop : ℕ → List Frame → Option Value → Option (Option Value)
  unfolding round
  loop fuel [] param = some param
  loop zero (frame ∷ stack) param = none
  loop (suc fuel) (frame ∷ stack) param =
      after (round frame stack param) (λ stack' param'. loop fuel stack' param')

  unfoldable pub parse_value : ℕ → Proto F → Option (Option Value)
  parse_value fuel v = loop fuel (proto v ∷ []) none
