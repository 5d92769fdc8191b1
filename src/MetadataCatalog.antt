-- ===== src/MetadataCatalog.antt =====
-- internal/homebrew/metadata/catalog.go: the index of the signed metadata, how it is built, and what
-- the resolver looks up in it.
pub mod Migrations
pub mod Build
pub mod Lookup
use dalec_homebrew.Prelude.{
  ℕ, Bool, true, false, not, ◌&&◌, ◌||◌, List, [], ◌∷◌, ◌++◌, Option, none, some, if◌then◌else◌,
  Result, ok, err, all,
}
use dalec_homebrew.GoString.{Bytes, lit, str_eq, contains_byte}
use dalec_homebrew.GoMap.{Map, lookup}
use dalec_homebrew.PkgName.{lower_or_digit}
use dalec_homebrew.Metadata.{Formula}

pub data CatalogError : Type 0 where
  duplicate_canonical self_versioned plain_versioned missing_versioned : CatalogError
  duplicate_identity missing_dependency dependency_cycle no_destination : CatalogError
  empty_target bad_target migration_cycle missing_migration : CatalogError
  versioned_target unknown_target walk_out_of_fuel : CatalogError

pub record Migration : Type 0 where
  pub name : Bytes
  pub target : Bytes
  pub in_core : Bool
  pub target_name : Bytes

pub record MigrationResolution : Type 0 where
  pub canonical : Bytes
  pub external_target : Bytes

-- A missing key of a map of these.
abbrev pub zero_resolution : MigrationResolution
zero_resolution = record { canonical = []; external_target = [] }

pub record Catalog : Type 0 where
  pub canonical : Map Formula
  pub aliases : Map Bytes
  pub old_names : Map Bytes
  pub migrations : Map Migration
  pub resolved_migrations : Map MigrationResolution
  pub canonical_names : List Bytes

abbrev pub simple_byte : ℕ → Bool
simple_byte c = lower_or_digit c || contains_byte (lit "+_.@-") c

-- validateSimpleName accepts the name.
unfoldable pub is_simple_name : Bytes → Bool
is_simple_name [] = false
is_simple_name (c ∷ s) =
    (lower_or_digit c && all simple_byte s)
    && not (contains_byte (c ∷ s) b'/' || contains_byte (c ∷ s) b'\\')
