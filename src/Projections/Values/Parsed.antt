-- ===== src/Projections/Values/Parsed.antt =====
-- The stack machine of `parse_value` computes what a plain recursion does (projection_client.rs).
use trogon_event_store_clien.Base.{
  ◌≡◌, refl, ap, ◌∙◌, ℕ, suc, ◌+◌, ◌-◌, ◌≤◌, Option, none, some, List, [], ◌∷◌, ◌++◌, arith,
}
use trogon_event_store_clien.Base.Text.{Text}
use trogon_event_store_clien.Events.{and_then}
use trogon_event_store_clien.Projections.Values.{
  Proto, Values, Fields, unset, number, list_of, struct_of, nil, end, cons, field, Json, Frame,
  list, map, proto, round, number_round, after, loop, parse_value,
}

-- The rounds that a value takes, and those that the rest of a list or a struct takes.
unfoldable mutual
  pub cost : {F : Type 0} → Proto F → ℕ
  cost unset = 2
  cost Proto.null = 2
  cost (number x) = 2
  cost (Proto.string s) = 2
  cost (Proto.boolean b) = 2
  cost (list_of nil) = 2
  cost (list_of (cons v vs)) = suc (cost v + values_cost vs)
  cost (struct_of end) = 2
  cost (struct_of (field key v fs)) = suc (cost v + fields_cost fs)

  pub values_cost : {F : Type 0} → Values F → ℕ
  values_cost nil = 2
  values_cost (cons v vs) = suc (cost v + values_cost vs)

  pub fields_cost : {F : Type 0} → Fields F → ℕ
  fields_cost end = 2
  fields_cost (field key v fs) = suc (cost v + fields_cost fs)

module _ (F : Type 0) (json : Json F) where
  open json use {Value, Map}

  abbrev to_array : List Value → Option Value
  to_array vs = some (json.array vs)

  abbrev to_object : Map → Option Value
  to_object fs = some (json.object fs)

  -- The recursion: `none` is a number that JSON does not have.
  unfoldable mutual
    pub value_of : Proto F → Option Value
    value_of unset = some json.null
    value_of Proto.null = some json.null
    value_of (number x) = json.from_f64 x
    value_of (Proto.string s) = some (json.string s)
    value_of (Proto.boolean b) = some (json.boolean b)
    value_of (list_of vs) = and_then (values_of vs []) to_array
    value_of (struct_of fs) = and_then (fields_of fs json.empty) to_object

    pub values_of : Values F → List Value → Option (List Value)
    values_of nil acc = some acc
    values_of (cons v vs) acc = and_then (value_of v) (λ j. values_of vs (acc ++ j ∷ []))

    pub fields_of : Fields F → Map → Option Map
    fields_of end acc = some acc
    fields_of (field key v fs) acc =
        and_then (value_of v) (λ j. fields_of fs (json.insert key j acc))

  abbrev go : ℕ → List (Frame F json) → Option Value → Option (Option Value)
  go fuel stack param = loop F json fuel stack param

  -- The loop goes on with a value, or has panicked.
  abbrev continue : Option Value → ℕ → List (Frame F json) → Option (Option Value)
  continue none fuel stack = some none
  continue (some j) fuel stack = go fuel stack (some j)

  again :
      (frame : Frame F json) (a b fuel : ℕ) (stack : List (Frame F json)) (param : Option Value)
      → go (suc (a + b) + fuel) (frame ∷ stack) param
        ≡ go (suc (a + (b + fuel))) (frame ∷ stack) param
  again frame a b fuel stack param = ap (λ n. go n (frame ∷ stack) param) (omega arith)

  resumes :
      {X : Type 0} (o : Option Value) (f : Value → Option X) (g : X → Option Value) (n fuel : ℕ)
      (above stack : List (Frame F json))
      → ((j : Value) → go n above (some j) ≡ continue (and_then (f j) g) fuel stack)
      → continue o n above ≡ continue (and_then (and_then o f) g) fuel stack
  resumes none f g n fuel above stack h = refl
  resumes (some j) f g n fuel above stack h = h j

  leaf :
      (frame : Frame F json) (fuel : ℕ) (stack : List (Frame F json)) (param : Option Value)
      → go (2 + fuel) (frame ∷ stack) param ≡ go (suc (suc fuel)) (frame ∷ stack) param
  leaf frame fuel stack param = ap (λ n. go n (frame ∷ stack) param) (omega arith)

  number_runs :
      (o : Option Value) (fuel : ℕ) (stack : List (Frame F json)) (param : Option Value)
      → after F json
          (number_round F json o stack param)
          (λ stack' param'. go (suc fuel) stack' param')
        ≡ continue o fuel stack
  unfolding loop round
  number_runs none fuel stack param = refl
  number_runs (some j) fuel stack param = refl

  mutual
    unfolding loop round cost value_of

    proto_runs :
        (v : Proto F) (fuel : ℕ) (stack : List (Frame F json)) (param : Option Value)
        → go (cost v + fuel) (proto v ∷ stack) param ≡ continue (value_of v) fuel stack
    proto_runs unset fuel stack param = leaf (proto unset) fuel stack param
    proto_runs Proto.null fuel stack param = leaf (proto Proto.null) fuel stack param
    proto_runs (number x) fuel stack param =
        leaf (proto (number x)) fuel stack param ∙ number_runs (json.from_f64 x) fuel stack param
    proto_runs (Proto.string s) fuel stack param = leaf (proto (Proto.string s)) fuel stack param
    proto_runs (Proto.boolean b) fuel stack param = leaf (proto (Proto.boolean b)) fuel stack param
    proto_runs (list_of nil) fuel stack param = leaf (proto (list_of nil)) fuel stack param
    proto_runs (list_of (cons v vs)) fuel stack param =
        again (proto (list_of (cons v vs))) (cost v) (values_cost vs) fuel stack param
        ∙ proto_runs v (values_cost vs + fuel) (list vs [] ∷ stack) param
        ∙ resumes (value_of v) (λ j. values_of vs (j ∷ [])) to_array (values_cost vs + fuel) fuel
            (list vs [] ∷ stack) stack (λ j. values_runs vs [] j fuel stack)
    proto_runs (struct_of end) fuel stack param = leaf (proto (struct_of end)) fuel stack param
    proto_runs (struct_of (field key v fs)) fuel stack param =
        again (proto (struct_of (field key v fs))) (cost v) (fields_cost fs) fuel stack param
        ∙ proto_runs v (fields_cost fs + fuel) (map fs key json.empty ∷ stack) param
        ∙ resumes (value_of v) (λ j. fields_of fs (json.insert key j json.empty)) to_object
            (fields_cost fs + fuel) fuel (map fs key json.empty ∷ stack) stack
            (λ j. fields_runs fs key json.empty j fuel stack)

    values_runs :
        (vs : Values F) (acc : List Value) (j : Value) (fuel : ℕ) (stack : List (Frame F json))
        → go (values_cost vs + fuel) (list vs acc ∷ stack) (some j)
          ≡ continue (and_then (values_of vs (acc ++ j ∷ [])) to_array) fuel stack
    values_runs nil acc j fuel stack = leaf (list nil acc) fuel stack (some j)
    values_runs (cons v vs) acc j fuel stack =
        again (list (cons v vs) acc) (cost v) (values_cost vs) fuel stack (some j)
        ∙ proto_runs v (values_cost vs + fuel) (list vs (acc ++ j ∷ []) ∷ stack) none
        ∙ resumes (value_of v) (λ k. values_of vs ((acc ++ j ∷ []) ++ k ∷ [])) to_array
            (values_cost vs + fuel) fuel (list vs (acc ++ j ∷ []) ∷ stack) stack
            (λ k. values_runs vs (acc ++ j ∷ []) k fuel stack)

    fields_runs :
        (fs : Fields F) (key : Text) (acc : Map) (j : Value) (fuel : ℕ)
        (stack : List (Frame F json))
        → go (fields_cost fs + fuel) (map fs key acc ∷ stack) (some j)
          ≡ continue (and_then (fields_of fs (json.insert key j acc)) to_object) fuel stack
    fields_runs end key acc j fuel stack = leaf (map end key acc) fuel stack (some j)
    fields_runs (field k v fs) key acc j fuel stack =
        again (map (field k v fs) key acc) (cost v) (fields_cost fs) fuel stack (some j)
        ∙ proto_runs v (fields_cost fs + fuel) (map fs k (json.insert key j acc) ∷ stack) none
        ∙ resumes (value_of v) (λ i. fields_of fs (json.insert k i (json.insert key j acc)))
            to_object (fields_cost fs + fuel) fuel (map fs k (json.insert key j acc) ∷ stack) stack
            (λ i. fields_runs fs k (json.insert key j acc) i fuel stack)

  ends : (o : Option Value) (fuel : ℕ) → continue o fuel [] ≡ some o
  unfolding loop
  ends none fuel = refl
  ends (some j) fuel = refl

  -- The loop ends within the bound of the value, and comes to the same JSON value, or panic, as the
  -- recursion: it panics exactly on a number that JSON does not have.
  pub parse_value-value_of :
      (v : Proto F) (fuel : ℕ) → cost v ≤ fuel → parse_value F json fuel v ≡ some (value_of v)
  unfolding parse_value
  parse_value-value_of v fuel enough =
      ap (λ n. go n (proto v ∷ []) none) (omega (arith, enough))
      ∙ proto_runs v (fuel - cost v) [] none
      ∙ ends (value_of v) (fuel - cost v)
