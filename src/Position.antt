-- ===== src/Position.antt =====
-- types.rs, `Position`: a place in the transaction log, its order and how it is printed.
use trogon_event_store_clien.Base.{ℕ, ◌≤◌, ◌<◌, ◌≡◌, ◌↔◌, ◌⊎◌, ◌≢◌, compare, Ordering, ◌++◌, arith}
use trogon_event_store_clien.Base.Text.{Text, codes}
use trogon_event_store_clien.Base.Decimal.{show}
use trogon_event_store_clien.Base.Int.{u64_max}

pub record Position : Type 0 where
  pub commit : ℕ
  pub prepare : ℕ

unfoldable pub start : Position
start = record { commit = 0; prepare = 0 }

unfoldable pub end : Position
end = record { commit = u64_max; prepare = u64_max }

-- `Ordering::then`.
abbrev pub then_with : Ordering → Ordering → Ordering
then_with Ordering.lt o = Ordering.lt
then_with Ordering.eq o = o
then_with Ordering.gt o = Ordering.gt

-- `Ord for Position`; `PartialOrd` is `Some` of it.
unfoldable pub cmp : Position → Position → Ordering
cmp a b = then_with (compare a.commit b.commit) (compare a.prepare b.prepare)

-- `Display for Position`.
unfoldable pub display : Position → Text
display p = codes "C:" ++ (show p.commit ++ (codes "/P:" ++ show p.prepare))

abbrev pub Before : Position → Position → Type 0
Before a b = (a.commit < b.commit) ⊎ ((a.commit ≡ b.commit) × (a.prepare < b.prepare))

-- The order is the lexicographic one, it agrees with the derived equality, and it is converse on
-- swapped arguments.
pub cmp_lexicographic :
    (a b : Position)
    → ((cmp a b ≡ Ordering.lt) ↔ Before a b)
      × ((cmp a b ≡ Ordering.eq) ↔ (a ≡ b))
      × ((cmp a b ≡ Ordering.gt) ↔ Before b a)
unfolding cmp
cmp_lexicographic a b =
    ((ground arith, ground arith), (ground arith, ground arith), (ground arith, ground arith))

-- Every position in the range of the wire's `u64` lies between `start` and `end`.
pub start-end_bounds :
    (p : Position)
    → p.commit ≤ u64_max
    → p.prepare ≤ u64_max
    → (cmp start p ≢ Ordering.gt) × (cmp p end ≢ Ordering.gt)
unfolding cmp start end
start-end_bounds p c q = (ground arith, ground arith)
