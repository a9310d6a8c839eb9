-- ===== src/Base/Int.antt =====
-- Signed integers, and the machine integers that the client stores in them: two's complement at 64
-- bits and what `str::parse::<i64>` reads.
use Prim.Native.Nat.{ℕ, ◌+◌, ◌-◌, ◌^◌, ◌≤◌, ◌<◌}
use mathlib.Core.Path.{◌≡◌, refl}
use mathlib.Core.List.{[], ◌∷◌}
use mathlib.Core.Option.{Option, none, some}
use mathlib.Core.Logic.{inl, inr}
use native.Mathlib.Omega.{arith}
use trogon_event_store_clien.Base.Tests.{◌==◌, if◌then◌else◌, ltb, Bool-cases, Option-cases}
use trogon_event_store_clien.Base.Text.{Text}
use trogon_event_store_clien.Base.Decimal.{parse_digits, parse_digits-le, show}

-- `negsuc n` is -(n + 1).
pub data ℤ : Type 0 where
  pos : ℕ → ℤ
  negsuc : ℕ → ℤ

abbrev pub u64_max : ℕ
u64_max = 2 ^ 64 - 1

abbrev pub u32_max : ℕ
u32_max = 2 ^ 32 - 1

abbrev pub u16_max : ℕ
u16_max = 2 ^ 16 - 1

-- `x as i64` for an unsigned 64-bit `x`.
abbrev pub as_i64 : ℕ → ℤ
as_i64 n = if ltb n (2 ^ 63) then pos n else negsuc (2 ^ 64 - n - 1)

-- `x as u64` for a signed 64-bit `x`, which is also the bit pattern of `x`.
abbrev pub as_u64 : ℤ → ℕ
as_u64 (pos n) = n
as_u64 (negsuc n) = 2 ^ 64 - n - 1

pub as_u64-as_i64 : (n : ℕ) → n < 2 ^ 64 → as_u64 (as_i64 n) ≡ n
as_u64-as_i64 n h = ground arith

abbrev negated : Option ℕ → Option ℤ
negated none = none
negated (some n) = some (if n == 0 then pos 0 else negsuc (n - 1))

abbrev positive : Option ℕ → Option ℤ
positive none = none
positive (some n) = some (pos n)

-- `str::parse::<i64>`: one sign may lead, and the value has to fit.
unfoldable pub parse_i64 : Text → Option ℤ
parse_i64 [] = none
parse_i64 (c ∷ s) =
    if c == b'-'
    then negated (parse_digits (2 ^ 63) s)
    else if c == b'+'
    then positive (parse_digits (2 ^ 63 - 1) s)
    else positive (parse_digits (2 ^ 63 - 1) (c ∷ s))

-- What `{}` prints of a signed integer.
unfoldable pub show_ℤ : ℤ → Text
show_ℤ (pos n) = show n
show_ℤ (negsuc n) = b'-' ∷ show (n + 1)

-- A signed number that is read is in the range of `i64`.
abbrev pub InI64 : ℤ → Type 0
InI64 (pos n) = n < 2 ^ 63
InI64 (negsuc n) = n < 2 ^ 63

negated-InI64 :
    (o : Option ℕ) (v : ℤ) → ((n : ℕ) → o ≡ some n → n ≤ 2 ^ 63) → negated o ≡ some v → InI64 v
negated-InI64 none v b h = cc
negated-InI64 (some n) (pos m) b h = ground (arith, b n refl)
negated-InI64 (some n) (negsuc m) b h = ground (arith, b n refl)

positive-InI64 :
    (o : Option ℕ) (v : ℤ) → ((n : ℕ) → o ≡ some n → n ≤ 2 ^ 63 - 1) → positive o ≡ some v → InI64 v
positive-InI64 none v b h = cc
positive-InI64 (some n) (pos m) b h = ground (arith, b n refl)
positive-InI64 (some n) (negsuc m) b h = ground (arith, b n refl)

signed-InI64 : (c : ℕ) (s : Text) (v : ℤ) → parse_i64 (c ∷ s) ≡ some v → InI64 v
unfolding parse_i64
signed-InI64 c s v h = elim (Bool-cases (c == b'-')) [
  | inl minus ↦
      negated-InI64 (parse_digits (2 ^ 63) s) v (λ n e. parse_digits-le (2 ^ 63) s e)
        (rw minus at h)
  | inr other ↦ elim (Bool-cases (c == b'+')) [
    | inl plus ↦
        positive-InI64 (parse_digits (2 ^ 63 - 1) s) v (λ n e. parse_digits-le (2 ^ 63 - 1) s e)
          (rw (other, plus) at h)
    | inr bare ↦
        positive-InI64 (parse_digits (2 ^ 63 - 1) (c ∷ s)) v
          (λ n e. parse_digits-le (2 ^ 63 - 1) (c ∷ s) e) (rw (other, bare) at h)
  ]
]

pub parse_i64-InI64 : (s : Text) {v : ℤ} → parse_i64 s ≡ some v → InI64 v
unfolding parse_i64
parse_i64-InI64 [] h = cc
parse_i64-InI64 (c ∷ s) {v} h = signed-InI64 c s v h

abbrev pub MaybeInI64 : Option ℤ → Type 0
MaybeInI64 none = Unit {0}
MaybeInI64 (some v) = InI64 v

pub parse_i64-MaybeInI64 : (s : Text) → MaybeInI64 (parse_i64 s)
parse_i64-MaybeInI64 s = elim (Option-cases (parse_i64 s)) [
  | inl e ↦ rw e tt
  | inr (v, e) ↦ rw e (parse_i64-InI64 s e)
]
