-- ===== src/Proposals/Kept.antt =====
-- The tracing headers that are added to an event leave the rest of it alone (observability.rs).
use trogon_event_store_clien.Base.{
  ◌≡◌, ◌≢◌, refl, ap, ◌∙◌, inl, inr, true, false, Bool-cases, if_split, Option, none, some, [], ◌∷◌,
  map, if◌then◌else◌,
}
use trogon_event_store_clien.Base.Text.{Text, text_eq, text_eq_sound}
use trogon_event_store_clien.Proposals.{
  EventData, Json, string, other, Tracing, Object, to_lower, eq_ignore_ascii_case,
  is_persisted_trace_field, retain_others, set, inject, set_all, custom_object,
  inject_event_context, put_encoded, put_fields,
}

module _ (tracing : Tracing) where
  open tracing use {V, is_valid, fields, from_slice, to_vec}

  unfoldable pub get : Text → Object tracing → Option (Json V)
  get key [] = none
  get key ((k, v) ∷ rest) = let found = get key rest in if text_eq k key then some v else found

  same_fold :
      (s t : Text)
      → eq_ignore_ascii_case s t ≡ true
      → is_persisted_trace_field s ≡ is_persisted_trace_field t
  unfolding is_persisted_trace_field
  same_fold s t h = rw (text_eq_sound (map to_lower s) (map to_lower t) h) refl

  trace_differs :
      (k key : Text)
      → is_persisted_trace_field k ≡ true
      → is_persisted_trace_field key ≡ false
      → text_eq k key ≡ false
  trace_differs k key yes_k not_key = elim (Bool-cases (text_eq k key)) [
    | inl same ↦ let e = ap is_persisted_trace_field (text_eq_sound k key same) in cc
    | inr differ ↦ differ
  ]

  fold_differs :
      (key k e : Text)
      → is_persisted_trace_field key ≡ true
      → is_persisted_trace_field k ≡ false
      → eq_ignore_ascii_case e key ≡ true
      → text_eq e k ≡ false
  fold_differs key k e t f h = trace_differs e k (same_fold e key h ∙ t) f

  get-retain_others :
      (key k : Text) (o : Object tracing)
      → is_persisted_trace_field key ≡ true
      → is_persisted_trace_field k ≡ false
      → get k (retain_others tracing key o) ≡ get k o
  unfolding get retain_others
  get-retain_others key k [] t f = refl
  get-retain_others key k ((e, v) ∷ rest) t f = elim (Bool-cases (eq_ignore_ascii_case e key)) [
    | inl same ↦ rw (same, fold_differs key k e t f same) (get-retain_others key k rest t f)
    | inr differ ↦ rw (differ, get-retain_others key k rest t f) refl
  ]

  get-set :
      (key k value : Text) (o : Object tracing)
      → is_persisted_trace_field k ≡ false
      → get k (set tracing key value o) ≡ get k o
  unfolding get set
  get-set key k value o f = elim (Bool-cases (is_persisted_trace_field key)) [
    | inl t ↦ rw (t, trace_differs key k t f) (get-retain_others key k o t f)
    | inr none_of ↦ rw none_of refl
  ]

  get-set_all :
      (k : Text) (fs o : Object tracing)
      → is_persisted_trace_field k ≡ false
      → get k (set_all tracing fs o) ≡ get k o
  unfolding set_all
  get-set_all k [] o f = refl
  get-set_all k ((key, string value) ∷ rest) o f =
      get-set_all k rest (set tracing key value o) f ∙ get-set key k value o f
  get-set_all k ((key, other value) ∷ rest) o f = get-set_all k rest o f

  -- The event is as before, but for the object of its metadata, which has the same entries outside
  -- the tracing headers.
  abbrev pub IsKept : EventData → Object tracing → EventData → Type 0
  IsKept old object event =
      (event.id_opt ≡ old.id_opt)
      × (event.payload ≡ old.payload)
      × (event.metadata ≡ old.metadata)
      × ((kept : Object tracing) × (custom_object tracing event.custom_metadata ≡ some kept)
          × ((key : Text) → is_persisted_trace_field key ≡ false → get key kept ≡ get key object))

  -- JSON reads back the entries that it writes, in whatever order, and writes no empty text.
  abbrev pub ReadsBack : Type 0
  ReadsBack =
      (o : Object tracing) (s : Text)
      → to_vec o ≡ some s
      → (s ≢ [])
        × ((read : Object tracing) × (from_slice s ≡ some read)
            × ((key : Text) → get key read ≡ get key o))

  custom_object-filled : (s : Text) → s ≢ [] → custom_object tracing (some s) ≡ from_slice s
  custom_object-filled [] h = absurd (h refl)
  custom_object-filled (c ∷ s) h = refl

  unchanged :
      (event : EventData) (object : Object tracing)
      → custom_object tracing event.custom_metadata ≡ some object
      → IsKept event object event
  unchanged event object h = (refl, refl, refl, (object, h, λ key f. refl))

  put_encoded-IsKept :
      (event : EventData) (object fs : Object tracing) (encoded : Option Text)
      → ReadsBack
      → custom_object tracing event.custom_metadata ≡ some object
      → to_vec (set_all tracing fs object) ≡ encoded
      → IsKept event object (put_encoded tracing encoded event)
  put_encoded-IsKept event object fs none reads h e = unchanged event object h
  put_encoded-IsKept event object fs (some s) reads h e =
      let (filled, (read, back, same)) = reads (set_all tracing fs object) s e in
      (
        refl,
        refl,
        refl,
        (
          read,
          custom_object-filled s filled ∙ back,
          λ key f. same key ∙ get-set_all key fs object f,
        ),
      )

  put_fields-IsKept :
      (event : EventData) (object fs : Object tracing) (found : Option (Object tracing))
      → ReadsBack
      → custom_object tracing event.custom_metadata ≡ some object
      → found ≡ some object
      → IsKept event object (put_fields tracing fs found event)
  put_fields-IsKept event object [] found reads h e = unchanged event object h
  put_fields-IsKept event object (field ∷ rest) none reads h e = cc
  put_fields-IsKept event object (field ∷ rest) (some o) reads h e =
      let same : o ≡ object = cc in
      rw same (
        put_encoded-IsKept event object (field ∷ rest)
          (to_vec (set_all tracing (field ∷ rest) object)) reads h refl)

  -- An event whose metadata are empty or a JSON object keeps its identifier, payload and properties
  -- when it is sent, and every entry of that object but the tracing headers, where JSON reads back
  -- what it writes.
  pub inject_event_context-IsKept :
      (event : EventData) (object : Object tracing)
      → ReadsBack
      → custom_object tracing event.custom_metadata ≡ some object
      → IsKept event object (inject_event_context tracing event)
  unfolding inject_event_context
  inject_event_context-IsKept event object reads h =
      if_split (IsKept event object) is_valid
        (λ on.
          put_fields-IsKept event object (inject tracing fields [])
            (custom_object tracing event.custom_metadata) reads h h)
        (λ off. unchanged event object h)
