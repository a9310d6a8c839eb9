-- ===== src/Persistent/Positions.antt =====
-- event_store/generated.rs: the places in a stream or in the log that the server writes as texts, and
-- their parsers. `nom` belongs to no part of this repository: its `tag` and its `u64` are arguments, with
-- what the parsers rely on.
use trogon_event_store_clien.Base.{
  ◌≡◌, ◌≢◌, refl, sym, ap, ◌∙◌, inl, inr, ℕ, ◌≤◌, false, Bool-cases, ◌==◌, ◌||◌, Option, none, some,
  [], ◌∷◌, ◌++◌, Result, ok, err, ◌>>=◌, if◌then◌else◌, arith,
}
use trogon_event_store_clien.Base.Text.{Text, codes, text_eq, text_eq_sound}
use trogon_event_store_clien.Base.Decimal.{
  show, show-zero, show-IsDigit, is_digit, parse_uint, parse_uint-show, parse_digits, scan,
}
use trogon_event_store_clien.Base.Int.{u64_max}
use trogon_event_store_clien.Position.{Position, display}
use trogon_event_store_clien.Position
use trogon_event_store_clien.Types.{StreamPosition, RevisionOrPosition}
use trogon_event_store_clien.Events.{and_then}
use trogon_event_store_clien.Errors.{Error, internal_parsing_error}

-- Not the beginning of a number.
abbrev pub NoDigit : Text → Type 0
NoDigit [] = Unit
NoDigit (c ∷ s) = is_digit c ≡ false

-- `nom::bytes::complete::tag` and `nom::character::complete::u64`: the first takes a prefix off, the
-- second reads the digits up to something else, if their number fits.
pub record Nom : Type 0 where
  pub tag : Text → Text → Option Text
  pub number : Text → Option (Text × ℕ)
  pub tag_prefix : (t rest : Text) → tag t (t ++ rest) ≡ some rest
  pub number_show :
      (n : ℕ) (rest : Text) → n ≤ u64_max → NoDigit rest → number (show n ++ rest) ≡ some (rest, n)

module _ (nom : Nom) where
  open nom use {tag, number, tag_prefix, number_show}

  unfoldable pub parse_position_start_from : Text → Option (Text × Position)
  parse_position_start_from input = and_then (tag (codes "C:") input) (λ after_c.
      and_then (number after_c) (λ commit. and_then (tag (codes "/P:") commit.0) (λ after_p.
        and_then (number after_p)
          (λ prepare. some (prepare.0, record { commit = commit.1; prepare = prepare.1 })))))

  -- What follows the position is ignored.
  abbrev position_or : Text → Option (Text × Position) → Result Error Position
  position_or input (some (rest, pos)) = ok pos
  position_or input none = err (
      internal_parsing_error
        (codes "Failed to parse a transaction log position: '" ++ input ++ codes "'"))

  unfoldable pub parse_position : Text → Result Error Position
  parse_position input = position_or input (parse_position_start_from input)

  abbrev either_of : Text → Option ℕ → Result Error Position → Result Error RevisionOrPosition
  either_of input (some v) pos = ok (RevisionOrPosition.revision v)
  either_of input none (ok pos) = ok (RevisionOrPosition.position pos)
  either_of input none (err e) = err (
      internal_parsing_error (
        codes "Failed to parse either a stream revision or a transaction log position: '"
        ++ input
        ++ codes "'"))

  unfoldable pub parse_revision_or_position : Text → Result Error RevisionOrPosition
  parse_revision_or_position input =
      either_of input (parse_uint u64_max input) (parse_position input)

  abbrev at : RevisionOrPosition → Result Error (StreamPosition RevisionOrPosition)
  at p = ok (StreamPosition.position p)

  unfoldable pub parse_stream_position : Text → Result Error (StreamPosition RevisionOrPosition)
  parse_stream_position input =
      if text_eq input (codes "-1") || text_eq input (codes "C:-1/P:-1")
      then ok StreamPosition.end
      else if text_eq input (codes "0") || text_eq input (codes "C:0/P:0")
      then ok StreamPosition.start
      else parse_revision_or_position input >>= at

  -- A position whose numbers are in the range of `u64`.
  abbrev pub InRange : Position → Type 0
  InRange p = (p.commit ≤ u64_max) × (p.prepare ≤ u64_max)

  after {ℓ κ} :
      {A : Type ℓ} {B : Type κ} {o : Option A} {a : A} {end : Option B} (f : A → Option B)
      → o ≡ some a
      → f a ≡ end
      → and_then o f ≡ end
  after f h rest = ap (λ x. and_then x f) h ∙ rest

  append-nil : (s : Text) → s ++ [] ≡ s
  append-nil [] = refl
  append-nil (c ∷ s) = ap (λ t. c ∷ t) (append-nil s)

  parse_position_start_from-display :
      (p : Position) → InRange p → parse_position_start_from (display p) ≡ some ([], p)
  unfolding parse_position_start_from display
  parse_position_start_from-display p range =
      let last : number (show p.prepare) ≡ some ([], p.prepare) =
        ap number (sym (append-nil (show p.prepare))) ∙ number_show p.prepare [] range.1 tt in
      after _ (tag_prefix (codes "C:") (show p.commit ++ (codes "/P:" ++ show p.prepare))) (
        after _ (number_show p.commit (codes "/P:" ++ show p.prepare) range.0 refl)
          (after _ (tag_prefix (codes "/P:") (show p.prepare)) (after _ last refl)))

  -- A printed position is no printed number.
  parse_uint-display : (p : Position) → parse_uint u64_max (display p) ≡ none
  unfolding parse_uint parse_digits scan display
  parse_uint-display p = refl

  -- A printed position is read back as it was.
  pub parse_revision_or_position-display :
      (p : Position)
      → InRange p
      → parse_revision_or_position (display p) ≡ ok (RevisionOrPosition.position p)
  unfolding parse_revision_or_position parse_position
  parse_revision_or_position-display p range =
      rw (parse_uint-display p, parse_position_start_from-display p range) refl

  display-start : display Position.start ≡ codes "C:0/P:0"
  unfolding display Position.start
  display-start = rw show-zero refl

  display-is_start :
      (p : Position)
      → InRange p
      → p ≢ Position.start
      → text_eq (display p) (codes "C:0/P:0") ≡ false
  unfolding Position.start
  display-is_start p range differ = elim (Bool-cases (text_eq (display p) (codes "C:0/P:0"))) [
    | inl same ↦
        let e =
          ap parse_position_start_from
            (text_eq_sound (display p) (codes "C:0/P:0") same ∙ sym display-start) in
        let mine = parse_position_start_from-display p range in
        let zero_range : InRange Position.start = (omega arith, omega arith) in
        let its = parse_position_start_from-display Position.start zero_range in
        let equal : p ≡ Position.start = cc in absurd (differ equal)
    | inr other ↦ other
  ]

  display-is_end : (p : Position) → text_eq (display p) (codes "C:-1/P:-1") ≡ false
  unfolding display text_eq
  display-is_end p =
      let (d, t, e, digit) = show-IsDigit p.commit in
      let differs : (d == b'-') ≡ false = ground (arith, digit.0) in rw e (rw differs refl)

  display-is_other :
      (p : Position)
      → (text_eq (display p) (codes "-1") ≡ false) × (text_eq (display p) (codes "0") ≡ false)
  unfolding display text_eq
  display-is_other p = (refl, refl)

  parse_stream_position-start : parse_stream_position (codes "C:0/P:0") ≡ ok StreamPosition.start
  unfolding parse_stream_position text_eq
  parse_stream_position-start = refl

  parse_stream_position-zero : parse_stream_position (codes "0") ≡ ok StreamPosition.start
  unfolding parse_stream_position text_eq
  parse_stream_position-zero = refl

  show-is_other : (n c : ℕ) (s : Text) → is_digit c ≡ false → text_eq (show n) (c ∷ s) ≡ false
  unfolding text_eq
  show-is_other n c s other =
      let (d, t, e, digit) = show-IsDigit n in
      let differs : (d == c) ≡ false = ground (arith, digit.0, digit.1, other) in
      rw e (rw differs refl)

  show-is_zero : (n : ℕ) → n ≤ u64_max → n ≢ 0 → text_eq (show n) (codes "0") ≡ false
  show-is_zero n range differ = elim (Bool-cases (text_eq (show n) (codes "0"))) [
    | inl same ↦
        let e = ap (parse_uint u64_max) (text_eq_sound (show n) (codes "0") same ∙ sym show-zero) in
        let mine = parse_uint-show u64_max n range in
        let its = parse_uint-show u64_max 0 (omega arith) in
        let equal : n ≡ 0 = cc in absurd (differ equal)
    | inr other ↦ other
  ]

  parse_stream_position-display :
      (p : Position)
      → InRange p
      → (p ≢ Position.start
          → parse_stream_position (display p)
            ≡ ok (StreamPosition.position (RevisionOrPosition.position p)))
        × (p ≡ Position.start → parse_stream_position (display p) ≡ ok StreamPosition.start)
  unfolding parse_stream_position
  parse_stream_position-display p range = (
    λ differ.
        rw
          (
            (display-is_other p).0,
            (display-is_other p).1,
            display-is_end p,
            display-is_start p range differ,
            parse_revision_or_position-display p range,
          )
          refl,
    λ same.
        ap (λ q. parse_stream_position (display q)) same
        ∙ ap parse_stream_position display-start
        ∙ parse_stream_position-start,
  )

  parse_stream_position-show :
      (n : ℕ)
      → n ≤ u64_max
      → (n ≢ 0
          → parse_stream_position (show n)
            ≡ ok (StreamPosition.position (RevisionOrPosition.revision n)))
        × (n ≡ 0 → parse_stream_position (show n) ≡ ok StreamPosition.start)
  unfolding parse_stream_position parse_revision_or_position
  parse_stream_position-show n range = (
    λ differ.
        rw
          (
            show-is_other n b'-' (codes "1") refl,
            show-is_other n b'C' (codes ":-1/P:-1") refl,
            show-is_zero n range differ,
            show-is_other n b'C' (codes ":0/P:0") refl,
            parse_uint-show u64_max n range,
          )
          refl,
    λ same.
        ap (λ m. parse_stream_position (show m)) same
        ∙ ap parse_stream_position show-zero
        ∙ parse_stream_position-zero,
  )

  -- How the server prints a place.
  abbrev pub print : RevisionOrPosition → Text
  print (RevisionOrPosition.revision n) = show n
  print (RevisionOrPosition.position p) = display p

  abbrev pub Fits : RevisionOrPosition → Type 0
  Fits (RevisionOrPosition.revision n) = n ≤ u64_max
  Fits (RevisionOrPosition.position p) = InRange p

  abbrev pub IsFirst : RevisionOrPosition → Type 0
  IsFirst (RevisionOrPosition.revision n) = n ≡ 0
  IsFirst (RevisionOrPosition.position p) = p ≡ Position.start

  -- A place in the range of `u64` that the server prints is read as that place, but the first one,
  -- revision 0 or position 0/0, as the start.
  pub parse_stream_position-print :
      (place : RevisionOrPosition)
      → Fits place
      → (¬ IsFirst place → parse_stream_position (print place) ≡ ok (StreamPosition.position place))
        × (IsFirst place → parse_stream_position (print place) ≡ ok StreamPosition.start)
  parse_stream_position-print (RevisionOrPosition.revision n) fits =
      parse_stream_position-show n fits
  parse_stream_position-print (RevisionOrPosition.position p) fits =
      parse_stream_position-display p fits
