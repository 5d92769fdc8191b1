-- ===== src/Metadata/Selection.antt =====
-- Which bottle file a tag selects, and the package version of a Formula.
use dalec_homebrew.Prelude.{◌≡◌, ◌≢◌, ◌↔◌, ◌⊎◌, refl, List, [], ◌∷◌, ok, some, none, arith, All}
use dalec_homebrew.GoString.{Bytes, lit, str_eq_iff}
use dalec_homebrew.PkgName.{pkg_version}
use dalec_homebrew.Metadata.{
  BottleFile, Bottle, Formula, first_tagged, bottle_file, bottle_for, formula_pkg_version,
}

-- The first of the files with the tag.
abbrev pub IsFirst : Bytes → List BottleFile → BottleFile → Type 0
IsFirst tag [] f = ⊥
IsFirst tag (g ∷ fs) f = ((g.tag ≡ tag) × (g ≡ f)) ⊎ ((g.tag ≢ tag) × IsFirst tag fs f)

abbrev pub Lacks : Bytes → List BottleFile → Type 0
Lacks tag = All (λ g. g.tag ≢ tag)

first_tagged-some :
    (tag : Bytes) (fs : List BottleFile) (f : BottleFile)
    → (first_tagged tag fs ≡ some f) ↔ IsFirst tag fs f
unfolding first_tagged
first_tagged-some tag [] f = ground arith
first_tagged-some tag (g ∷ fs) f = ground (arith, str_eq_iff g.tag tag, first_tagged-some tag fs f)

first_tagged-none :
    (tag : Bytes) (fs : List BottleFile) → (first_tagged tag fs ≡ none) ↔ Lacks tag fs
unfolding first_tagged
first_tagged-none tag [] = ground arith
first_tagged-none tag (g ∷ fs) = ground (arith, str_eq_iff g.tag tag, first_tagged-none tag fs)

-- `BottleFor` returns the first file with the tag, or the first portable one when there is none with
-- the tag.
pub bottle_for_iff :
    (f : Formula) (b : Bottle) (tag : Bytes) (file : BottleFile)
    → f.bottle ≡ some b
    → (bottle_for f tag ≡ ok file)
      ↔ (IsFirst tag b.files file ⊎ (Lacks tag b.files × IsFirst (lit "all") b.files file))
unfolding bottle_for bottle_file
bottle_for_iff f b tag file h = ground (
  arith,
  h,
  first_tagged-some tag b.files file,
  first_tagged-none tag b.files,
  first_tagged-some (lit "all") b.files file,
  str_eq_iff tag (lit "all"),
)

-- The package version of the metadata is that of package version.
pub formula_pkg_version-pkg_version :
    (f : Formula) → formula_pkg_version f ≡ pkg_version f.stable_version f.revision
unfolding formula_pkg_version pkg_version
formula_pkg_version-pkg_version f = refl
