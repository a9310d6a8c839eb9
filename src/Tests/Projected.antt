-- ===== src/Tests/Projected.antt =====
-- A run of the theorem on the values of projections, with JSON values that are texts.
use trogon_event_store_clien.Base.{
  ◌≡◌, ℕ, ◌==◌, if◌then◌else◌, none, some, List, [], ◌∷◌, ◌++◌, arith,
}
use trogon_event_store_clien.Base.Text.{Text, codes}
use trogon_event_store_clien.Projections.Values.{
  Json, Proto, struct_of, list_of, field, cons, nil, end, number, parse_value,
}
use trogon_event_store_clien.Projections.Values.Parsed.{cost, value_of, parse_value-value_of}

abbrev joined : List Text → Text
joined [] = []
joined (t ∷ ts) = t ++ joined ts

abbrev text_json : Json ℕ
text_json = record {
  Value = Text;
  Map = Text;
  null = codes "null";
  from_f64 = λ x. if x == 9 then none else some (x ∷ []);
  string = λ s. s;
  boolean = λ b. codes "b";
  array = λ vs. joined vs;
  object = λ m. m;
  empty = [];
  insert = λ key value m. m ++ (key ++ value);
}

-- An object with a list that holds a number and an empty object, and a text after it.
abbrev nested : Proto ℕ
nested = struct_of (
    field (codes "a") (list_of (cons (number 3) (cons (struct_of end) nil)))
      (field (codes "b") (Proto.string (codes "t")) end))

parse_value-value_of_example :
    parse_value ℕ text_json 14 nested ≡ some (value_of ℕ text_json nested)
unfolding cost
parse_value-value_of_example = parse_value-value_of ℕ text_json nested 14 (omega arith)
