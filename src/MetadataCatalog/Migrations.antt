-- ===== src/MetadataCatalog/Migrations.antt =====
-- The migrations of internal/homebrew/metadata/catalog.go: normalizeMigration and resolveMigration.
pub mod Ends
use dalec_homebrew.Prelude.{
  ℕ, zero, suc, Bool, true, false, not, ◌&&◌, ◌||◌, List, [], ◌∷◌, Option, none, some,
  if◌then◌else◌, Result, ok, err, ◌>>=◌,
}
use dalec_homebrew.GoString.{Bytes, lit, str_eq, contains_byte, split}
use dalec_homebrew.GoString.Unicode.{Unicode, is_blank}
use dalec_homebrew.GoMap.{Map, lookup, put, has}
use dalec_homebrew.MetadataCatalog.{
  CatalogError, empty_target, bad_target, migration_cycle, missing_migration, versioned_target,
  unknown_target, walk_out_of_fuel, Migration, MigrationResolution, Catalog, is_simple_name,
}

abbrev pub is_core : Bytes → Bytes → Bool
is_core owner tap = str_eq owner (lit "homebrew") && str_eq tap (lit "core")

-- The switch over the number of parts of the target.
unfoldable pub migration_of_parts : Bytes → Bytes → List Bytes → Result CatalogError Migration
migration_of_parts name target (part ∷ []) =
    if is_simple_name part
    then ok (record { name = name; target = target; in_core = true; target_name = part })
    else err bad_target
migration_of_parts name target (owner ∷ tap ∷ []) =
    if is_core owner tap
    then ok (record { name = name; target = target; in_core = true; target_name = name })
    else if str_eq owner [] || str_eq tap []
    then err bad_target
    else ok (record { name = name; target = target; in_core = false; target_name = [] })
migration_of_parts name target (owner ∷ tap ∷ part ∷ []) =
    if not (is_simple_name part) || (str_eq owner [] || str_eq tap [])
    then err bad_target
    else ok
        (record { name = name; target = target; in_core = is_core owner tap; target_name = part })
migration_of_parts name target _ = err bad_target

unfoldable pub normalize_migration : Unicode → Bytes → Bytes → Result CatalogError Migration
normalize_migration u name target =
    if is_blank u target
    then err empty_target
    else migration_of_parts name target (split b'/' target)

abbrev pub to_canonical : Bytes → MigrationResolution
to_canonical name = record { canonical = name; external_target = [] }

-- Where a migration leads at once, to another migration (none), or nowhere.
unfoldable pub direct_resolution :
    Catalog → Migration → Result CatalogError (Option MigrationResolution)
direct_resolution c m =
    if not m.in_core
    then ok (some (record { canonical = []; external_target = m.target }))
    else elim (lookup m.target_name c.canonical) [
      | some f ↦ ok (some (to_canonical f.name))
      | none ↦
          if contains_byte m.target_name b'@'
          then err versioned_target
          else elim (lookup m.target_name c.aliases) [
            | some name ↦ ok (some (to_canonical name))
            | none ↦ elim (lookup m.target_name c.old_names) [
              | some name ↦ ok (some (to_canonical name))
              | none ↦ if has m.target_name c.migrations then ok none else err unknown_target
            ]
          ]
    ]

abbrev pub Resolved : Type 0
Resolved = Map MigrationResolution × MigrationResolution

abbrev pub stored :
    Bytes → MigrationResolution → Map MigrationResolution → Result CatalogError Resolved
stored name r resolved = ok (put name r resolved, r)

-- resolveMigration with the map that it fills; `active` holds the names on the stack.
unfoldable pub resolve_migration :
    ℕ → Catalog → Bytes → Map Unit → Map MigrationResolution → Result CatalogError Resolved
resolve_migration zero c name active resolved = err walk_out_of_fuel
resolve_migration (suc fuel) c name active resolved = elim (lookup name resolved) [
  | some r ↦ ok (resolved, r)
  | none ↦ if has name active then err migration_cycle else elim (lookup name c.migrations) [
    | none ↦ err missing_migration
    | some m ↦ direct_resolution c m >>= λ there. elim there [
      | some r ↦ stored name r resolved
      | none ↦
          resolve_migration fuel c m.target_name (put name tt active) resolved >>= λ (later, r).
          stored name r later
    ]
  ]
]

-- The loop over the migrations that were taken.
unfoldable pub resolve_all :
    ℕ
    → Catalog
    → List Bytes
    → Map MigrationResolution
    → Result CatalogError (Map MigrationResolution)
resolve_all fuel c [] resolved = ok resolved
resolve_all fuel c (name ∷ names) resolved =
    resolve_migration fuel c name [] resolved >>= λ (later, r). resolve_all fuel c names later
