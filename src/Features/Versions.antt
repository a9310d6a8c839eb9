-- ===== src/Features/Versions.antt =====
-- The version of a server (server_features.rs): what is printed is read back, and the comparisons
-- with one, two or three numbers.
use trogon_event_store_clien.Base.{
  ℕ, ◌≤◌, ◌<◌, ◌≡◌, ◌↔◌, ◌⊎◌, refl, true, Ordering, [], ◌∷◌, ◌++◌, ok, arith, All,
}
use trogon_event_store_clien.Base.Text.{Text, split, split-Lacks, split-append}
use trogon_event_store_clien.Base.Decimal.{
  show, IsDigit, show-digits, Lacks-show_low, parse_uint-show,
}
use trogon_event_store_clien.Base.Int.{u64_max}
use trogon_event_store_clien.Features.{
  ServerVersion, display, eq_patch, cmp_major, cmp_minor, cmp_patch, semver, read_parts,
  default_version,
}

semver-digits : (s t : Text) → All IsDigit s → semver (s ++ t) ≡ s ++ semver t
unfolding semver
semver-digits [] t h = refl
semver-digits (c ∷ s) t h = ground (arith, semver-digits s t h.1)

semver-All : (s : Text) → All IsDigit s → semver s ≡ s
unfolding semver
semver-All [] h = refl
semver-All (c ∷ s) h = ground (arith, semver-All s h.1)

semver-dot : (t : Text) → semver (b'.' ∷ t) ≡ b'.' ∷ semver t
unfolding semver
semver-dot t = refl

-- The parts of a printed version.
split-semver-display :
    (v : ServerVersion)
    → split b'.' (semver (display v)) ≡ show v.major ∷ show v.minor ∷ show v.patch ∷ []
unfolding display
split-semver-display v = rw (
  semver-digits (show v.major) (b'.' ∷ (show v.minor ++ b'.' ∷ show v.patch)) (show-digits v.major),
  semver-dot (show v.minor ++ b'.' ∷ show v.patch),
  semver-digits (show v.minor) (b'.' ∷ show v.patch) (show-digits v.minor),
  semver-dot (show v.patch),
  semver-All (show v.patch) (show-digits v.patch),
  split-append b'.' (show v.major) (show v.minor ++ b'.' ∷ show v.patch)
      (Lacks-show_low b'.' v.major refl),
  split-append b'.' (show v.minor) (show v.patch) (Lacks-show_low b'.' v.minor refl),
  split-Lacks b'.' (show v.patch) (Lacks-show_low b'.' v.patch refl),
)

-- A server that reports its version as it is printed, with numbers in the range of `usize`, is read
-- as having that version.
pub read_parts-display :
    (v : ServerVersion)
    → v.major ≤ u64_max
    → v.minor ≤ u64_max
    → v.patch ≤ u64_max
    → read_parts 0 (split b'.' (semver (display v))) default_version ≡ ok v
unfolding read_parts
read_parts-display v a b c = rw (split-semver-display v) (
    ground (
      arith,
      parse_uint-show u64_max v.major a,
      parse_uint-show u64_max v.minor b,
      parse_uint-show u64_max v.patch c,
    ))

abbrev pub Older : ServerVersion → ℕ × ℕ × ℕ → Type 0
Older v (maj, min, patch) =
    (v.major < maj)
    ⊎ ((v.major ≡ maj) × (v.minor < min))
    ⊎ ((v.major ≡ maj) × (v.minor ≡ min) × (v.patch < patch))

-- The comparison with a triple is the lexicographic one and agrees with equality, and a version is
-- older than a pair or a number exactly when it is older than their completion by zeros.
pub cmp_patch_lexicographic :
    (v : ServerVersion) (maj min patch : ℕ)
    → ((cmp_patch v (maj, min, patch) ≡ Ordering.lt) ↔ Older v (maj, min, patch))
      × ((cmp_patch v (maj, min, patch) ≡ Ordering.eq) ↔ (eq_patch v (maj, min, patch) ≡ true))
      × ((cmp_minor v (maj, min) ≡ Ordering.lt) ↔ Older v (maj, min, 0))
      × ((cmp_major v maj ≡ Ordering.lt) ↔ Older v (maj, 0, 0))
unfolding cmp_patch cmp_minor cmp_major eq_patch
cmp_patch_lexicographic v maj min patch = (
  (ground arith, ground arith),
  (ground arith, ground arith),
  (ground arith, ground arith),
  (ground arith, ground arith),
)
