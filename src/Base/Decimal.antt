-- ===== src/Base/Decimal.antt =====
-- Decimal numbers: what `{}` prints of an unsigned integer, and what `str::parse` reads.
use Prim.Native.Nat.{ℕ, zero, suc, ◌+◌, ◌-◌, ◌*◌, ◌/◌, ◌%◌, ◌≤◌, ◌<◌}
use mathlib.Core.Path.{◌≡◌, refl}
use mathlib.Core.Logic.{inl, inr}
use mathlib.Core.Bool.{Bool, true, ◌&&◌}
use mathlib.Core.List.{[], ◌∷◌, ◌++◌}
use mathlib.Core.Option.{Option, none, some}
use native.Mathlib.Omega.{arith}
use trogon_event_store_clien.Base.Tests.{◌==◌, if◌then◌else◌, leb, ltb, Bool-cases, Option-cases}
use trogon_event_store_clien.Base.Lists.{All, All-append}
use trogon_event_store_clien.Base.Text.{Text, codes, Lacks}

abbrev pub is_digit : ℕ → Bool
is_digit c = leb b'0' c && leb c b'9'

-- The digits of a number, most significant first. The fuel `suc n` is more than the digits of `n`.
show_fuel : ℕ → ℕ → Text
show_fuel zero n = []
show_fuel (suc f) n =
    let more = show_fuel f (n / 10) ++ (b'0' + n % 10) ∷ [] in
    if ltb n 10 then (b'0' + n) ∷ [] else more

-- What `{}` prints of an unsigned integer.
unfoldable pub show : ℕ → Text
unfolding show_fuel
show n = show_fuel (suc n) n

-- One digit read after the value of the digits before it.
abbrev push_digit : ℕ → ℕ → Option ℕ
push_digit acc c = if is_digit c then some (acc * 10 + (c - b'0')) else none

unfoldable pub scan : ℕ → Text → Option ℕ
scan acc [] = some acc
scan acc (c ∷ s) = let rest = scan (acc * 10 + (c - b'0')) s in if is_digit c then rest else none

abbrev up_to : ℕ → Option ℕ → Option ℕ
up_to top none = none
up_to top (some n) = if leb n top then some n else none

-- The digits of an unsigned number that is at most `top`; at least one of them is needed.
unfoldable pub parse_digits : ℕ → Text → Option ℕ
unfolding scan
parse_digits top [] = none
parse_digits top (c ∷ s) = up_to top (scan 0 (c ∷ s))

-- `str::parse` into an unsigned integer with the greatest value `top`: one `+` may lead.
unfoldable pub parse_uint : ℕ → Text → Option ℕ
parse_uint top [] = none
parse_uint top (c ∷ s) = if c == b'+' then parse_digits top s else parse_digits top (c ∷ s)

scan-push : (acc c v : ℕ) (s : Text) → scan acc s ≡ some v → scan acc (s ++ c ∷ []) ≡ push_digit v c
unfolding scan
scan-push acc c v [] h = ground arith
scan-push acc c v (d ∷ s) h = ground (arith, scan-push (acc * 10 + (d - b'0')) c v s)

scan-show_fuel : (f n : ℕ) → n < f → scan 0 (show_fuel f n) ≡ some n
unfolding scan show_fuel
scan-show_fuel zero n h = absurd (omega arith)
scan-show_fuel (suc f) n h = elim (Bool-cases (ltb n 10)) [
  | inl small ↦ rw small (ground arith)
  | inr big ↦ rw big (
      rw
        (scan-push 0 (b'0' + n % 10) (n / 10) (show_fuel f (n / 10))
          (scan-show_fuel f (n / 10) (ground arith)))
        (ground arith))
]

pub scan-show : (n : ℕ) → scan 0 (show n) ≡ some n
unfolding show
scan-show n = scan-show_fuel (suc n) n (omega arith)

abbrev pub IsDigit : ℕ → Type 0
IsDigit c = (b'0' ≤ c) × (c ≤ b'9')

show_fuel-digits : (f n : ℕ) → All IsDigit (show_fuel f n)
unfolding show_fuel
show_fuel-digits zero n = tt
show_fuel-digits (suc f) n = elim (Bool-cases (ltb n 10)) [
  | inl small ↦ rw small (ground arith)
  | inr big ↦ rw big (
      All-append IsDigit (show_fuel f (n / 10)) ((b'0' + n % 10) ∷ []) (show_fuel-digits f (n / 10))
        (omega arith))
]

append-cons : (s : Text) (c : ℕ) → (d : ℕ) × (t : Text) × (s ++ c ∷ [] ≡ d ∷ t)
append-cons [] c = (c, [], refl)
append-cons (d ∷ s) c = (d, s ++ c ∷ [], refl)

-- A printed number begins with a digit.
pub show-cons : (n : ℕ) → (d : ℕ) × (t : Text) × (show n ≡ d ∷ t)
unfolding show
show-cons n = elim (Bool-cases (ltb n 10)) [
  | inl small ↦ (b'0' + n, [], rw small)
  | inr big ↦ rw big (append-cons (show_fuel n (n / 10)) (b'0' + n % 10))
]

pub show-digits : (n : ℕ) → All IsDigit (show n)
unfolding show
show-digits n = show_fuel-digits (suc n) n

Lacks-digits : (c : ℕ) (s : Text) → ltb b'9' c ≡ true → All IsDigit s → Lacks c s
Lacks-digits c [] h d = tt
Lacks-digits c (x ∷ s) h d = (λ e. ground arith, Lacks-digits c s h d.1)

-- A character above the digits, such as the colon, does not occur in a printed number.
pub Lacks-show : (c n : ℕ) → ltb b'9' c ≡ true → Lacks c (show n)
Lacks-show c n h = Lacks-digits c (show n) h (show-digits n)

-- Below the digits stand `+`, `,`, `-`, `.` and `/`.
Lacks-digits_low : (c : ℕ) (s : Text) → ltb c b'0' ≡ true → All IsDigit s → Lacks c s
Lacks-digits_low c [] h d = tt
Lacks-digits_low c (x ∷ s) h d = (λ e. ground arith, Lacks-digits_low c s h d.1)

pub Lacks-show_low : (c n : ℕ) → ltb c b'0' ≡ true → Lacks c (show n)
Lacks-show_low c n h = Lacks-digits_low c (show n) h (show-digits n)

-- What is printed is read back, if it fits the type.
pub parse_uint-show : (top n : ℕ) → n ≤ top → parse_uint top (show n) ≡ some n
unfolding parse_uint parse_digits
parse_uint-show top n h =
    let (d, t, e) = show-cons n in
    let digits : All IsDigit (d ∷ t) = rw e at (show-digits n) in
    let value : scan 0 (d ∷ t) ≡ some n = rw e at (scan-show n) in rw e (ground (arith, value))

pub show-zero : show 0 ≡ codes "0"
unfolding show
show-zero = refl

pub show-IsDigit : (n : ℕ) → (d : ℕ) × (t : Text) × (show n ≡ d ∷ t) × IsDigit d
show-IsDigit n =
    let (d, t, e) = show-cons n in
    let digits : All IsDigit (d ∷ t) = rw e at (show-digits n) in (d, t, e, digits.0)

show_example : show 2113 ≡ codes "2113"
unfolding show
show_example = refl

-- A number that is read is in the range of its type.
pub parse_digits-le : (top : ℕ) (s : Text) {v : ℕ} → parse_digits top s ≡ some v → v ≤ top
unfolding parse_digits
parse_digits-le top [] h = cc
parse_digits-le top (c ∷ s) h = ground arith

pub parse_uint-le : (top : ℕ) (s : Text) {v : ℕ} → parse_uint top s ≡ some v → v ≤ top
unfolding parse_uint
parse_uint-le top [] h = cc
parse_uint-le top (c ∷ s) h = grind (arith, parse_digits-le top s, parse_digits-le top (c ∷ s))

abbrev pub AtMost : ℕ → Option ℕ → Type 0
AtMost top none = Unit {0}
AtMost top (some n) = n ≤ top

pub parse_uint-AtMost : (top : ℕ) (s : Text) → AtMost top (parse_uint top s)
parse_uint-AtMost top s = elim (Option-cases (parse_uint top s)) [
  | inl e ↦ rw e tt
  | inr (n, e) ↦ rw e (parse_uint-le top s e)
]
