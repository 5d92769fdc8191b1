-- ===== src/MetadataCatalog/Lookup.antt =====
-- Lookup and match of internal/homebrew/metadata/catalog.go.
pub mod Matches
use dalec_homebrew.Prelude.{
  Bool, true, false, not, List, [], ◌∷◌, Option, none, some, if◌then◌else◌, Result, ok, err,
}
use dalec_homebrew.GoString.{Bytes, str_eq, contains_byte}
use dalec_homebrew.GoMap.{Map, lookup, get_or}
use dalec_homebrew.Metadata.{
  Formula, Match, MatchKind, match_canonical, match_alias, match_old_name, match_migration,
}
use dalec_homebrew.MetadataCatalog.{Catalog, zero_resolution, is_simple_name}

pub data LookupError : Type 0 where
  invalid_name formula_not_found formula_disabled bottle_unavailable : LookupError
  versioned_not_explicit : LookupError
  out_of_core : Bytes → LookupError

unfoldable pub match_formula : Bytes → Bytes → MatchKind → Formula → Result LookupError Match
match_formula requested canonical kind f =
    if f.disabled then err formula_disabled else elim f.bottle [
      | none ↦ err bottle_unavailable
      | some b ↦
          ok (record { requested = requested; canonical = canonical; kind = kind; formula = f })
    ]

unfoldable pub match_name : Catalog → Bytes → Bytes → MatchKind → Result LookupError Match
match_name c requested canonical kind = elim (lookup canonical c.canonical) [
  | none ↦ err formula_not_found
  | some f ↦ match_formula requested canonical kind f
]

-- A name that a migration may move.
unfoldable pub lookup_migration : Catalog → Bytes → Result LookupError Match
lookup_migration c name = elim (lookup name c.migrations) [
  | none ↦ err formula_not_found
  | some m ↦
      let resolved = get_or zero_resolution name c.resolved_migrations in
      if not (str_eq resolved.external_target [])
      then err (out_of_core resolved.external_target)
      else match_name c name resolved.canonical match_migration
]

-- A name without @ that is not canonical.
unfoldable pub lookup_moved : Catalog → Bytes → Result LookupError Match
lookup_moved c name = elim (lookup name c.aliases) [
  | some canonical ↦ match_name c name canonical match_alias
  | none ↦ elim (lookup name c.old_names) [
    | some canonical ↦ match_name c name canonical match_old_name
    | none ↦ lookup_migration c name
  ]
]

unfoldable pub lookup_name : Catalog → Bytes → Result LookupError Match
lookup_name c name =
    if not (is_simple_name name) then err invalid_name else elim (lookup name c.canonical) [
      | some f ↦ match_name c name f.name match_canonical
      | none ↦ if contains_byte name b'@' then err versioned_not_explicit else lookup_moved c name
    ]
