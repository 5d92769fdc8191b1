-- ===== src/Oci/Reference.antt =====
-- internal/homebrew/oci/reference.go: the registry reference of a Formula, for homebrew/core and for
-- the other taps.
use dalec_homebrew.Prelude.Int.{ℤ, pos, int_ltb}
use dalec_homebrew.Prelude.{
  Bool, List, not, ◌&&◌, [], ◌∷◌, ◌++◌, Option, Result, ok, ◌>>=◌, ◌>>◌, fail_if,
}
use dalec_homebrew.GoString.Unicode.{Unicode}
use dalec_homebrew.GoString.{Bytes, str_eq}
use dalec_homebrew.Oci.Names.{
  OciError, BottleFile, foreign_full_name, negative_scheme, negative_rebuild, not_ghcr_root,
  validate_formula_name, canonical_full_name, oci_pkg_version, index_tag, repository_path,
  ghcr_registry,
}
use dalec_homebrew.Oci.Identity.{
  AuthenticatedIdentity, validate_identity, repository_path_for_id, match_homebrew_ghcr_root,
}

pub record Formula : Type 0 where
  pub name : Bytes
  pub full_name : Bytes
  pub stable_version : Bytes
  pub revision : ℤ
  pub version_scheme : ℤ
  pub bottle_rebuild : ℤ
  pub license : Bytes
  pub keg_only : Bool
  -- the keys of the map are tags
  pub bottle_files : List (Bytes × BottleFile)

pub record AuthenticatedFormula : Type 0 where
  pub identity : AuthenticatedIdentity
  pub bottle_root_url : Bytes
  pub stable_version : Bytes
  pub revision : ℤ
  pub version_scheme : ℤ
  pub bottle_rebuild : ℤ
  pub license : Bytes
  pub keg_only : Bool
  -- the keys of the map are tags
  pub bottle_files : List (Bytes × BottleFile)

pub record FormulaReference : Type 0 where
  pub name : Bytes
  pub full_name : Bytes
  pub pkg_version : Bytes
  pub registry : Bytes
  pub repository : Bytes
  pub canonical_repository : Bytes
  pub index_tag : Bytes

unfoldable pub validate_formula_identity : Unicode → Formula → Result OciError Unit
validate_formula_identity u f = do
  validate_formula_name f.name
  fail_if
      (not (str_eq f.full_name [])
        && not (str_eq f.full_name f.name)
        && not (str_eq f.full_name (canonical_full_name f.name)))
      foreign_full_name
  fail_if (int_ltb f.version_scheme (pos 0)) negative_scheme
  oci_pkg_version u f.stable_version f.revision
  fail_if (int_ltb f.bottle_rebuild (pos 0)) negative_rebuild

unfoldable pub resolve_formula_reference : Unicode → Formula → Result OciError FormulaReference
resolve_formula_reference u f = do
  validate_formula_identity u f
  repository ← repository_path f.name
  pkg ← oci_pkg_version u f.stable_version f.revision
  tag ← index_tag pkg f.bottle_rebuild
  ok (record {
    name = f.name;
    full_name = canonical_full_name f.name;
    pkg_version = pkg;
    registry = ghcr_registry;
    repository = repository;
    canonical_repository = ghcr_registry ++ b'/' ∷ repository;
    index_tag = tag;
  })

module _ (u : Unicode) (hostname_of : Bytes → Option Bytes) where
  unfoldable pub validate_authenticated_formula : AuthenticatedFormula → Result OciError Unit
  validate_authenticated_formula f = do
    validate_identity f.identity
    matches ← match_homebrew_ghcr_root u hostname_of f.bottle_root_url f.identity.id.tap
    fail_if (not matches) not_ghcr_root
    fail_if (int_ltb f.version_scheme (pos 0)) negative_scheme
    oci_pkg_version u f.stable_version f.revision
    fail_if (int_ltb f.bottle_rebuild (pos 0)) negative_rebuild

  unfoldable pub resolve_authenticated_reference :
      AuthenticatedFormula → Result OciError FormulaReference
  resolve_authenticated_reference f = do
    validate_authenticated_formula f
    repository ← repository_path_for_id f.identity.id
    pkg ← oci_pkg_version u f.stable_version f.revision
    tag ← index_tag pkg f.bottle_rebuild
    ok (record {
      name = f.identity.id.name;
      full_name = f.identity.homebrew_full_name;
      pkg_version = pkg;
      registry = ghcr_registry;
      repository = repository;
      canonical_repository = ghcr_registry ++ b'/' ∷ repository;
      index_tag = tag;
    })
