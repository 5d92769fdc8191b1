-- ===== src/Metadata.antt =====
-- internal/homebrew/metadata/types.go: a Formula of the signed metadata, and what it selects for a
-- bottle tag.
pub mod Selection
use dalec_homebrew.Prelude.Int.{ℤ, pos, int_ltb}
use dalec_homebrew.Prelude.{
  Bool, true, false, not, ◌&&◌, List, [], ◌∷◌, ◌++◌, Option, none, some, if◌then◌else◌, Result, ok,
  err,
}
use dalec_homebrew.GoString.{Bytes, lit, str_eq}
use dalec_homebrew.PkgName.{int_itoa}

pub record BottleFile : Type 0 where
  pub tag : Bytes
  pub cellar : Bytes
  pub url : Bytes
  pub sha256 : Bytes

pub record Bottle : Type 0 where
  pub rebuild : ℤ
  pub root_url : Bytes
  pub files : List BottleFile

pub record Variation : Type 0 where
  pub tag : Bytes
  pub dependencies : List Bytes
  pub overrides_dependencies : Bool
  pub keg_only : Bool
  pub overrides_keg_only : Bool

pub record Formula : Type 0 where
  pub name : Bytes
  pub full_name : Bytes
  pub tap : Bytes
  pub old_names : List Bytes
  pub aliases : List Bytes
  pub versioned_formulae : List Bytes
  pub description : Bytes
  pub license : Bytes
  pub homepage : Bytes
  pub stable_version : Bytes
  pub revision : ℤ
  pub version_scheme : ℤ
  pub keg_only : Bool
  pub disabled : Bool
  pub dependencies : List Bytes
  pub variations : List Variation
  pub bottle : Option Bottle

-- One of the two loops of Bottle.File
unfoldable pub first_tagged : Bytes → List BottleFile → Option BottleFile
first_tagged tag [] = none
first_tagged tag (f ∷ fs) = if str_eq f.tag tag then some f else first_tagged tag fs

-- Bottle.File
unfoldable pub bottle_file : Bottle → Bytes → Option BottleFile
bottle_file b tag = elim (first_tagged tag b.files) [
  | some f ↦ some f
  | none ↦ if not (str_eq tag (lit "all")) then first_tagged (lit "all") b.files else none
]

-- Formula.PkgVersion
unfoldable pub formula_pkg_version : Formula → Bytes
formula_pkg_version f =
    if int_ltb (pos 0) f.revision
    then f.stable_version ++ b'_' ∷ int_itoa f.revision
    else f.stable_version

unfoldable pub overridden_dependencies : Bytes → List Variation → List Bytes → List Bytes
overridden_dependencies tag [] own = own
overridden_dependencies tag (v ∷ vs) own =
    if str_eq v.tag tag && v.overrides_dependencies
    then v.dependencies
    else overridden_dependencies tag vs own

-- Formula.DependenciesFor
unfoldable pub dependencies_for : Formula → Bytes → List Bytes
dependencies_for f tag = overridden_dependencies tag f.variations f.dependencies

unfoldable pub overridden_keg_only : Bytes → List Variation → Bool → Bool
overridden_keg_only tag [] own = own
overridden_keg_only tag (v ∷ vs) own =
    if str_eq v.tag tag && v.overrides_keg_only then v.keg_only else overridden_keg_only tag vs own

-- Formula.KegOnlyFor
unfoldable pub keg_only_for : Formula → Bytes → Bool
keg_only_for f tag = overridden_keg_only tag f.variations f.keg_only

-- ErrBottleUnavailable, without a bottle or without a file for the tag
pub data Unavailable : Type 0 where
  no_bottle no_file : Unavailable

-- Formula.BottleFor
unfoldable pub bottle_for : Formula → Bytes → Result Unavailable BottleFile
bottle_for f tag = elim f.bottle [
  | none ↦ err no_bottle
  | some b ↦ elim (bottle_file b tag) [ some file ↦ ok file | none ↦ err no_file ]
]

pub data MatchKind : Type 0 where
  match_canonical match_alias match_old_name match_migration : MatchKind

pub record Match : Type 0 where
  pub requested : Bytes
  pub canonical : Bytes
  pub kind : MatchKind
  pub formula : Formula
