-- ===== src/Tests/Indexing.antt =====
-- The index of the signed metadata on concrete Formulae, and the resolver's walk over it.
use dalec_homebrew.Prelude.{
  length, ◌+◌, ◌<◌, arith, ◌≡◌, ◌≢◌, refl, [], ◌∷◌, ok, err, List, true, false, Result,
}
use dalec_homebrew.GoString.{Bytes, lit, str_eq, contains_byte, split}
use dalec_homebrew.GoString.Unicode.{is_blank, runes, runes_from, decode_rune}
use dalec_homebrew.GoMap.{lookup, put}
use dalec_homebrew.PkgName.{lower_or_digit}
use dalec_homebrew.Version.{str_compare}
use dalec_homebrew.Metadata.{
  Formula, Match, match_migration, dependencies_for, overridden_dependencies, overridden_keg_only,
  keg_only_for,
}
use dalec_homebrew.MetadataCatalog.{
  Catalog, Migration, dependency_cycle, walk_out_of_fuel, is_simple_name,
}
use dalec_homebrew.MetadataCatalog.Migrations.{
  migration_of_parts, normalize_migration, direct_resolution, resolve_migration, resolve_all,
}
use dalec_homebrew.MetadataCatalog.Build.{
  claim_index, add_canonical, check_versioned, index_names, index_formula, index_formulae,
  resolve_dependency, resolve_dependencies, unique, canonicalize_variations, canonicalize_formula,
  canonicalize_dependencies, check_present, check_variations, check_formulae, tag_dependencies,
  validate_dependency_cycles, validate_tags, validate_dependencies, accept_migrations,
  finish_catalog, build_catalog,
}
use dalec_homebrew.MetadataCatalog.Build.Closed.{AllPresent}
use dalec_homebrew.MetadataCatalog.Build.Ends.{build_catalog-ends}
use dalec_homebrew.MetadataCatalog.Build.Listed.{build_catalog-AllPresent}
use dalec_homebrew.MetadataCatalog.Lookup.{
  LookupError, versioned_not_explicit, match_formula, match_name, lookup_migration, lookup_moved,
  lookup_name,
}
use dalec_homebrew.MetadataCatalog.Lookup.Matches.{IsMatch, IsExplicit, lookup_name-IsMatch}
use dalec_homebrew.Oci.Reference
use dalec_homebrew.Resolver.Settle.{insert_name, sorted_names}
use dalec_homebrew.Resolver.Topo.{
  mark, tail_from, from_index, drop_last, enter, leave, each, visit, topo_order,
}
use dalec_homebrew.Resolver.Types.{
  Platform, Selected, Search, empty_search, not_canonical, out_of_fuel,
}
use dalec_homebrew.Resolver.Closure.{target_tag, request_root, request_roots, drain}
use dalec_homebrew.Resolver.Closure.Safely.{index_sources}
use dalec_homebrew.Resolver.Closure.Ends.{pending, drain-ends}
use dalec_homebrew.Resolver.Closure.Indexed.{drain-not_canonical}
use dalec_homebrew.Tests.{ascii}
use dalec_homebrew.Tests.Walk.{formula, node, target}

abbrev jq : List Bytes → Formula
jq deps = formula (lit "jq") deps

abbrev oniguruma : Formula
oniguruma = record (formula (lit "oniguruma") []) { aliases = lit "onig" ∷ [] }

abbrev moved : Migration
moved = record {
  name = lit "old-jq";
  target = lit "homebrew/core/jq";
  in_core = true;
  target_name = lit "jq";
}

moved_test : normalize_migration ascii (lit "old-jq") (lit "homebrew/core/jq") ≡ ok moved
unfolding normalize_migration migration_of_parts is_blank runes runes_from decode_rune split
    is_simple_name lower_or_digit contains_byte str_eq
moved_test = refl

-- jq names its dependency by an alias, which the index replaces.
abbrev index : Catalog
index = record {
  canonical = (lit "jq", jq (lit "oniguruma" ∷ [])) ∷ (lit "oniguruma", oniguruma) ∷ [];
  aliases = (lit "onig", lit "oniguruma") ∷ [];
  old_names = [];
  migrations = (lit "old-jq", moved) ∷ [];
  resolved_migrations = (lit "old-jq", record { canonical = lit "jq"; external_target = [] }) ∷ [];
  canonical_names = lit "jq" ∷ lit "oniguruma" ∷ [];
}

built : build_catalog (jq (lit "onig" ∷ []) ∷ oniguruma ∷ []) (moved ∷ []) ≡ ok index
unfolding claim_index add_canonical check_versioned index_names index_formula index_formulae
    resolve_dependency resolve_dependencies unique canonicalize_variations canonicalize_formula
    canonicalize_dependencies check_present check_variations check_formulae tag_dependencies
    validate_dependency_cycles validate_tags validate_dependencies accept_migrations finish_catalog
    build_catalog direct_resolution resolve_migration resolve_all insert_name sorted_names
    str_compare mark tail_from from_index drop_last enter leave each visit topo_order lookup put
    str_eq contains_byte dependencies_for overridden_dependencies
built = refl

cyclic : build_catalog (jq (lit "jq" ∷ []) ∷ []) [] ≡ err dependency_cycle
unfolding claim_index add_canonical check_versioned index_names index_formula index_formulae
    resolve_dependency resolve_dependencies unique canonicalize_variations canonicalize_formula
    canonicalize_dependencies check_present check_variations check_formulae tag_dependencies
    validate_dependency_cycles validate_tags validate_dependencies accept_migrations finish_catalog
    build_catalog direct_resolution resolve_migration resolve_all insert_name sorted_names
    str_compare mark tail_from from_index drop_last enter leave each visit topo_order lookup put
    str_eq contains_byte dependencies_for overridden_dependencies
cyclic = refl

build_catalog-AllPresent_example :
    AllPresent index.canonical (dependencies_for (jq (lit "oniguruma" ∷ [])) (lit "x86_64_linux"))
unfolding lookup str_eq
build_catalog-AllPresent_example =
    build_catalog-AllPresent (jq (lit "onig" ∷ []) ∷ oniguruma ∷ []) (moved ∷ []) index (lit "jq")
      (lit "x86_64_linux") (jq (lit "oniguruma" ∷ [])) built refl refl

abbrev by_migration : Match
by_migration = record {
  requested = lit "old-jq";
  canonical = lit "jq";
  kind = match_migration;
  formula = jq (lit "oniguruma" ∷ []);
}

looked_up : lookup_name index (lit "old-jq") ≡ ok by_migration
unfolding lookup_name lookup_moved lookup_migration match_name match_formula is_simple_name
    lower_or_digit contains_byte lookup str_eq
looked_up = refl

versioned : lookup_name index (lit "jq@1") ≡ err versioned_not_explicit
unfolding lookup_name lookup_moved lookup_migration match_name match_formula is_simple_name
    lower_or_digit contains_byte lookup str_eq
versioned = refl

lookup_name-IsMatch_example :
    IsMatch index (lit "old-jq") by_migration × IsExplicit (lit "old-jq") by_migration
lookup_name-IsMatch_example =
    lookup_name-IsMatch (jq (lit "onig" ∷ []) ∷ oniguruma ∷ []) (moved ∷ []) index (lit "old-jq")
      by_migration built looked_up

-- The error of a lookup is kept as it is.
abbrev embed : LookupError → LookupError
embed e = e

abbrev select : Reference.Formula → Platform → Result LookupError Selected
select f p = ok (record {
  tab = record { arch = []; glibc_version = []; oldest_cpu_family = [] };
  node = node f.name;
})

abbrev asked : Search
asked = record {
  requested = record { requested = lit "old-jq"; canonical = lit "jq"; keg_only = false } ∷ [];
  queue = lit "jq" ∷ [];
  matches = (lit "jq", jq (lit "oniguruma" ∷ [])) ∷ [];
  nodes = [];
  graph = [];
}

asks :
    request_roots ascii (index_sources index embed select) target empty_search (lit "old-jq" ∷ [])
    ≡ ok asked
unfolding lookup_name lookup_moved lookup_migration match_name match_formula is_simple_name
    lower_or_digit contains_byte lookup str_eq put overridden_keg_only keg_only_for target_tag
    request_root request_roots
asks = refl

drain-not_canonical_example :
    drain ascii (index_sources index embed select) target 3 asked ≢ err not_canonical
drain-not_canonical_example =
    drain-not_canonical ascii (jq (lit "onig" ∷ []) ∷ oniguruma ∷ []) (moved ∷ []) index embed
      select target 3 (lit "old-jq" ∷ []) asked built asks

enough_fuel : length (lit "old-jq" ∷ []) + pending (target_tag target) [] index.canonical < 3
unfolding dependencies_for overridden_dependencies target_tag lookup str_eq
enough_fuel = omega arith

drain-ends_example : drain ascii (index_sources index embed select) target 3 asked ≢ err out_of_fuel
drain-ends_example =
    drain-ends ascii (jq (lit "onig" ∷ []) ∷ oniguruma ∷ []) (moved ∷ []) index embed select target
      3 (lit "old-jq" ∷ []) asked built asks enough_fuel

build_catalog-ends_example :
    build_catalog (jq (lit "jq" ∷ []) ∷ []) (moved ∷ []) ≢ err walk_out_of_fuel
build_catalog-ends_example = build_catalog-ends (jq (lit "jq" ∷ []) ∷ []) (moved ∷ [])
