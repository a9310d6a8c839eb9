-- ===== src/Base/Text.antt =====
-- Texts as lists of code points, and what the client uses of `str`: equality, `split`, `contains`.
use Prim.Native.Char.{code}
use Prim.Native.String.{String}
use Prim.Native.Nat.{ℕ}
use mathlib.Core.Path.{◌≡◌, refl}
use mathlib.Core.Logic.{◌≢◌}
use mathlib.Core.Bool.{Bool, true, false, ◌&&◌, ◌||◌}
use mathlib.Core.List.{List, [], ◌∷◌, ◌++◌}
use native.Mathlib.Omega.{arith}
use trogon_event_store_clien.Base.Tests.{◌==◌, if◌then◌else◌}
use trogon_event_store_clien.Base.Lists.{All}

abbrev pub Text : Type 0
Text = List ℕ

-- The code points of a literal.
abbrev pub codes : String → Text
codes String.[] = []
codes (String.◌∷◌ c s) = code c ∷ codes s

unfoldable pub text_eq : Text → Text → Bool
text_eq [] [] = true
text_eq [] (d ∷ t) = false
text_eq (c ∷ s) [] = false
text_eq (c ∷ s) (d ∷ t) = c == d && text_eq s t

pub text_eq_refl : (s : Text) → text_eq s s ≡ true
unfolding text_eq
text_eq_refl [] = refl
text_eq_refl (c ∷ s) = ground (arith, text_eq_refl s)

pub text_eq_sound : (s t : Text) → text_eq s t ≡ true → s ≡ t
unfolding text_eq
text_eq_sound [] [] h = refl
text_eq_sound [] (d ∷ t) h = cc
text_eq_sound (c ∷ s) [] h = cc
text_eq_sound (c ∷ s) (d ∷ t) h = ground (arith, text_eq_sound s t)

-- A text that is one of two different texts is not the other.
pub text_eq_other : (s a b : Text) → text_eq a b ≡ false → text_eq s a ≡ true → text_eq s b ≡ false
text_eq_other s a b d h = rw (text_eq_sound s a h) d

-- `str::split(c)` collected: there is always at least one piece.
abbrev extend_head : ℕ → List Text → List Text
extend_head c [] = (c ∷ []) ∷ []
extend_head c (p ∷ ps) = (c ∷ p) ∷ ps

unfoldable pub split : ℕ → Text → List Text
split sep [] = [] ∷ []
split sep (c ∷ s) = let rest = split sep s in if c == sep then [] ∷ rest else extend_head c rest

unfoldable pub contains_char : Text → ℕ → Bool
contains_char [] d = false
contains_char (c ∷ s) d = c == d || contains_char s d

-- `str::replace` of one character by another.
unfoldable pub replace_char : Text → ℕ → ℕ → Text
replace_char [] a b = []
replace_char (c ∷ s) a b = (if c == a then b else c) ∷ replace_char s a b

abbrev pub Lacks : ℕ → Text → Type 0
Lacks d = All λ c. c ≢ d

-- A text without the separator is its own only piece.
pub split-Lacks : (sep : ℕ) (s : Text) → Lacks sep s → split sep s ≡ s ∷ []
unfolding split
split-Lacks sep [] h = refl
split-Lacks sep (c ∷ s) h = ground (arith, split-Lacks sep s h.1)

-- The first separator ends the first piece.
pub split-append : (sep : ℕ) (s t : Text) → Lacks sep s → split sep (s ++ sep ∷ t) ≡ s ∷ split sep t
unfolding split
split-append sep [] t h = ground arith
split-append sep (c ∷ s) t h = ground (arith, split-append sep s t h.1)
