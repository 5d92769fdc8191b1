-- ===== src/Resolver/Requirements/Minimum.antt =====
-- What a merged requirement asks for, and which nodes satisfy a requirement.
use Prim.Native.Nat.{Ordering}
use dalec_homebrew.Prelude.Int.{ℤ, int_ltb, int_geb, int_max}
use dalec_homebrew.Prelude.{
  ◌≡◌, ◌≢◌, ◌↔◌, ◌⊎◌, inl, inr, refl, [], ok, arith, true, false, ◌||◌, Bool-cases,
}
use dalec_homebrew.GoString.Unicode.{Unicode}
use dalec_homebrew.GoString.{Bytes, str_eq, str_eq_iff}
use dalec_homebrew.PkgName.{split_pkg_version}
use dalec_homebrew.Version.{compare_versions, at_least}
use dalec_homebrew.Version.Order.{compare_versions_swap}
use dalec_homebrew.Resolver.Requirements.{
  Requirement, split_or_zero, takes_second, merge_requirement, satisfies,
}

-- The minimum of the first is at least that of the second.
abbrev pub Covers : Unicode → Requirement → Requirement → Type 0
Covers u a b =
    at_least u (split_or_zero u a.minimum).0 (split_or_zero u a.minimum).1
      (split_or_zero u b.minimum).0 (split_or_zero u b.minimum).1
    ≡ true

takes_second-Covers :
    (u : Unicode) (a b : Requirement) → a.minimum ≢ [] → (takes_second u a b ≡ true) → Covers u b a
unfolding takes_second at_least
takes_second-Covers u a b n h = ground (arith, str_eq_iff a.minimum [])

takes_second-false : (u : Unicode) (a b : Requirement) → (takes_second u a b ≡ false) → Covers u a b
unfolding takes_second at_least
takes_second-false u a b h =
    ground
      (arith, compare_versions_swap u (split_or_zero u a.minimum).0 (split_or_zero u b.minimum).0)

Covers-refl : (u : Unicode) (a : Requirement) → Covers u a a
unfolding at_least
Covers-refl u a =
    ground
      (arith, compare_versions_swap u (split_or_zero u a.minimum).0 (split_or_zero u a.minimum).0)

-- Of two requirements on one name, the first with a minimum, the merged one keeps the name, is
-- direct when one of them is, and its minimum is at least both minimums.
pub merge_requirement-Covers :
    (u : Unicode) (a b : Requirement)
    → a.name ≢ []
    → b.name ≡ a.name
    → a.minimum ≢ []
    → (merge_requirement u a b).name ≡ a.name
      × ((merge_requirement u a b).direct ≡ (a.direct || b.direct))
      × Covers u (merge_requirement u a b) a
      × Covers u (merge_requirement u a b) b
unfolding merge_requirement
merge_requirement-Covers u a b n e m =
    let named : str_eq a.name [] ≡ false = ground (arith, str_eq_iff a.name []) in
    let named_b : str_eq b.name [] ≡ false = ground (arith, str_eq_iff b.name []) in
    elim (Bool-cases (takes_second u a b)) [
      | inl t ↦ rw (named, named_b, t) (refl, refl, takes_second-Covers u a b m t, Covers-refl u b)
      | inr t ↦ rw (named, named_b, t) (refl, refl, Covers-refl u a, takes_second-false u a b t)
    ]

-- A version, a revision and a rebuild, compared in this order.
abbrev pub Meets : Unicode → Bytes → ℤ → ℤ → Bytes → ℤ → ℤ → Type 0
Meets u v r b min_version min_revision min_rebuild =
    (compare_versions u v min_version ≡ Ordering.gt)
    ⊎ ((compare_versions u v min_version ≡ Ordering.eq)
        × ((int_ltb min_revision r ≡ true) ⊎ ((r ≡ min_revision) × (int_geb b min_rebuild ≡ true))))

-- A node satisfies a requirement whose minimum can be read exactly when its version, revision and
-- rebuild, compared in this order, are at least those of the minimum, with the larger of the two
-- revisions that the requirement names.
pub satisfies_iff :
    (u : Unicode) (v : Bytes) (r b : ℤ) (req : Requirement) (min_version : Bytes) (min_revision : ℤ)
    → split_pkg_version u req.minimum ≡ ok (min_version, min_revision)
    → (satisfies u v r b req ≡ true)
      ↔ Meets u v r b min_version (int_max req.revision min_revision) req.bottle_rebuild
unfolding satisfies at_least
satisfies_iff u v r b req min_version min_revision h = ground (arith, h)
