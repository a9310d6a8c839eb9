-- ===== src/Base/Results.antt =====
-- Rust's `Result`, and the `?` operator as the bind of a `do` block.
use mathlib.Core.Path.{◌≡◌, refl}
use mathlib.Core.Logic.{◌⊎◌, inl, inr}

pub data Result {ℓ κ} (E : Type ℓ) (A : Type κ) : Type (ℓ ⊔ κ) where
  err : E → Result E A
  ok : A → Result E A

module _ {ℓ κ ι} {E : Type ℓ} {A : Type κ} {B : Type ι} where
  infixl 5 ◌>>=◌
  abbrev pub ◌>>=◌ : Result E A → (A → Result E B) → Result E B
  err failure >>= next = err failure
  ok value >>= next = next value

module _ {ℓ κ} {E : Type ℓ} {A : Type κ} where
  pub Result-cases : (r : Result E A) → ((a : A) × (r ≡ ok a)) ⊎ ((e : E) × (r ≡ err e))
  Result-cases (ok a) = inl (a, refl)
  Result-cases (err e) = inr (e, refl)

  -- The value between the two steps of a chain that has succeeded.
  abbrev pub Through {ι} : {B : Type ι} → Result E A → (A → Result E B) → B → Type (ℓ ⊔ κ ⊔ ι)
  Through first next end = (between : A) × (first ≡ ok between) × (next between ≡ ok end)

  pub >>=-eq-ok {ι} :
      {B : Type ι} (first : Result E A) (next : A → Result E B) {end : B}
      → first >>= next ≡ ok end
      → Through first next end
  >>=-eq-ok (err failure) next chain = cc
  >>=-eq-ok (ok between) next chain = (between, refl, chain)
