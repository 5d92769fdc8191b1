-- ===== src/MetadataCatalog/Build.antt =====
-- buildCatalog of internal/homebrew/metadata/catalog.go and what it calls. The walk that looks for
-- dependency cycles is the one of `topoOrder`, whose order is not used; its recursion and that of
-- resolveMigration take one unit of fuel more than there are names.
pub mod Closed
pub mod Named
pub mod Listed
pub mod Present
pub mod Returned
pub mod Ends
use dalec_homebrew.Prelude.{
  ℕ, suc, Bool, true, false, not, ◌&&◌, ◌||◌, List, [], ◌∷◌, ◌++◌, Option, none, some,
  if◌then◌else◌, Result, ok, err, ◌>>=◌, ◌>>◌, fail_if, length, map,
}
use dalec_homebrew.GoString.{Bytes, lit, str_eq, contains_byte}
use dalec_homebrew.GoMap.{Map, lookup, put, has}
use dalec_homebrew.Metadata.{Formula, Variation, dependencies_for}
use dalec_homebrew.Resolver.Settle.{sorted_names}
use dalec_homebrew.Resolver.Topo.{TopoError, cycle, out_of_fuel, topo_order}
use dalec_homebrew.MetadataCatalog.{
  CatalogError, duplicate_canonical, self_versioned, plain_versioned, missing_versioned,
  duplicate_identity, missing_dependency, dependency_cycle, no_destination, walk_out_of_fuel,
  Migration, Catalog,
}
use dalec_homebrew.MetadataCatalog.Migrations.{resolve_all}

-- The keys of `claimed`, whose values are only in messages.
abbrev pub Claimed : Type 0
Claimed = Map Unit

unfoldable pub claim_index : Bytes → Claimed → Result CatalogError Claimed
claim_index name claimed =
    if has name claimed then err duplicate_identity else ok (put name tt claimed)

abbrev pub empty_catalog : Catalog
empty_catalog = record {
  canonical = [];
  aliases = [];
  old_names = [];
  migrations = [];
  resolved_migrations = [];
  canonical_names = [];
}

-- The first loop of buildCatalog.
unfoldable pub add_canonical :
    List Formula → Claimed → Catalog → Result CatalogError (Claimed × Catalog)
add_canonical [] claimed c =
    ok (claimed, record c { canonical_names = sorted_names c.canonical_names })
add_canonical (f ∷ fs) claimed c =
    if has f.name claimed
    then err duplicate_canonical
    else add_canonical fs (put f.name tt claimed) (record c {
      canonical = put f.name f c.canonical;
      canonical_names = c.canonical_names ++ f.name ∷ [];
    })

unfoldable pub check_versioned : Bytes → Map Formula → List Bytes → Result CatalogError Unit
check_versioned name canonical [] = ok tt
check_versioned name canonical (v ∷ vs) = do
  fail_if (str_eq v name) self_versioned
  fail_if (not (contains_byte v b'@')) plain_versioned
  fail_if (not (has v canonical)) missing_versioned
  check_versioned name canonical vs

-- The loop over the aliases or the old names of a Formula, for the map it fills.
unfoldable pub index_names :
    Bytes → List Bytes → Claimed → Map Bytes → Result CatalogError (Claimed × Map Bytes)
index_names name [] claimed index = ok (claimed, index)
index_names name (other ∷ others) claimed index =
    claim_index other claimed >>= λ later. index_names name others later (put other name index)

unfoldable pub index_formula :
    Bytes → Formula → Claimed → Catalog → Result CatalogError (Claimed × Catalog)
index_formula name f claimed c = do
  check_versioned name c.canonical f.versioned_formulae
  (claimed_aliases, aliases) ← index_names name f.aliases claimed c.aliases
  (claimed_names, old_names) ← index_names name f.old_names claimed_aliases c.old_names
  ok (claimed_names, record c { aliases = aliases; old_names = old_names })

-- The zero Formula of a name without one has none of the names.
unfoldable pub index_formulae :
    List Bytes → Claimed → Catalog → Result CatalogError (Claimed × Catalog)
index_formulae [] claimed c = ok (claimed, c)
index_formulae (name ∷ names) claimed c = elim (lookup name c.canonical) [
  | none ↦ index_formulae names claimed c
  | some f ↦ index_formula name f claimed c >>= λ (later, d). index_formulae names later d
]

-- The closure `resolve` of canonicalizeCatalogDependencies.
unfoldable pub resolve_dependency : Catalog → Bytes → Option Bytes
resolve_dependency c name =
    if has name c.canonical then some name else elim (lookup name c.aliases) [
      | some canonical ↦ some canonical
      | none ↦ lookup name c.old_names
    ]

unfoldable pub resolve_dependencies : Catalog → List Bytes → Result CatalogError (List Bytes)
resolve_dependencies c [] = ok []
resolve_dependencies c (d ∷ ds) = elim (resolve_dependency c d) [
  | none ↦ err missing_dependency
  | some canonical ↦ resolve_dependencies c ds >>= λ rest. ok (canonical ∷ rest)
]

-- The values not seen before.
unfoldable pub unique : Map Unit → List Bytes → List Bytes
unique seen [] = []
unique seen (v ∷ vs) = elim (has v seen) [
  | true ↦ unique seen vs
  | false ↦ v ∷ unique (put v tt seen) vs
]

abbrev pub unique_sorted : List Bytes → List Bytes
unique_sorted values = sorted_names (unique [] values)

unfoldable pub canonicalize_variations :
    Catalog → List Variation → Result CatalogError (List Variation)
canonicalize_variations c [] = ok []
canonicalize_variations c (v ∷ vs) = do
  ds ← resolve_dependencies c v.dependencies
  rest ← canonicalize_variations c vs
  ok (record v { dependencies = unique_sorted ds } ∷ rest)

unfoldable pub canonicalize_formula : Catalog → Formula → Result CatalogError Formula
canonicalize_formula c f = do
  ds ← resolve_dependencies c f.dependencies
  vs ← canonicalize_variations c f.variations
  ok (record f { dependencies = unique_sorted ds; variations = vs })

unfoldable pub canonicalize_dependencies : List Bytes → Catalog → Result CatalogError Catalog
canonicalize_dependencies [] c = ok c
canonicalize_dependencies (name ∷ names) c = elim (lookup name c.canonical) [
  | none ↦ canonicalize_dependencies names c
  | some f ↦ canonicalize_formula c f >>= λ g.
      canonicalize_dependencies names (record c { canonical = put name g c.canonical })
]

unfoldable pub check_present : Map Formula → List Bytes → Result CatalogError Unit
check_present canonical [] = ok tt
check_present canonical (d ∷ ds) =
    fail_if (not (has d canonical)) missing_dependency >> check_present canonical ds

abbrev pub is_linux_tag : Bytes → Bool
is_linux_tag tag = str_eq tag (lit "x86_64_linux") || str_eq tag (lit "arm64_linux")

-- The loop over the variations, with the tags met so far.
unfoldable pub check_variations :
    Map Formula → List Variation → Map Unit → Result CatalogError (Map Unit)
check_variations canonical [] tags = ok tags
check_variations canonical (v ∷ vs) tags = elim (is_linux_tag v.tag) [
  | false ↦ check_variations canonical vs tags
  | true ↦
      check_present canonical (if v.overrides_dependencies then v.dependencies else []) >>= λ _.
      check_variations canonical vs (put v.tag tt tags)
]

unfoldable pub check_formulae : Map Formula → List Bytes → Map Unit → Result CatalogError (Map Unit)
check_formulae canonical [] tags = ok tags
check_formulae canonical (name ∷ names) tags = elim (lookup name canonical) [
  | none ↦ check_formulae canonical names tags
  | some f ↦ check_present canonical f.dependencies >>= λ _.
      check_variations canonical f.variations tags >>= λ later. check_formulae canonical names later
]

-- The dependencies of a name in the walk for a tag.
unfoldable pub tag_dependencies : Map Formula → Bytes → Bytes → List Bytes
tag_dependencies canonical tag name = elim (lookup name canonical) [
  | none ↦ []
  | some f ↦ if str_eq tag [] then f.dependencies else dependencies_for f tag
]

unfoldable pub validate_dependency_cycles : Catalog → Bytes → Result CatalogError Unit
validate_dependency_cycles c tag =
    elim (topo_order (tag_dependencies c.canonical tag) (suc (length c.canonical))
      c.canonical_names) [
        | ok order ↦ ok tt
        | err (cycle path) ↦ err dependency_cycle
        | err out_of_fuel ↦ err walk_out_of_fuel
      ]

unfoldable pub validate_tags : Catalog → List Bytes → Result CatalogError Unit
validate_tags c [] = ok tt
validate_tags c (tag ∷ tags) = validate_dependency_cycles c tag >> validate_tags c tags

unfoldable pub validate_dependencies : Catalog → Result CatalogError Unit
validate_dependencies c = do
  tags ← check_formulae c.canonical c.canonical_names (([], tt) ∷ [])
  validate_tags c (sorted_names (map (λ t. t.0) tags))

abbrev pub has_identity : Catalog → Bytes → Bool
has_identity c name = has name c.canonical || (has name c.aliases || has name c.old_names)

abbrev pub with_taken : Bytes → List Bytes × Catalog → List Bytes × Catalog
with_taken name (names, c) = (name ∷ names, c)

-- The loop over the migrations, with the names of those that are taken.
unfoldable pub accept_migrations :
    List Migration → Claimed → Catalog → Result CatalogError (List Bytes × Catalog)
accept_migrations [] claimed c = ok ([], c)
accept_migrations (m ∷ ms) claimed c = elim (m.in_core && str_eq m.target_name m.name) [
  | true ↦ elim (has_identity c m.name) [
    | true ↦ accept_migrations ms claimed c
    | false ↦ err no_destination
  ]
  | false ↦ claim_index m.name claimed >>= λ later.
      accept_migrations ms later (record c { migrations = put m.name m c.migrations }) >>= λ r.
      ok (with_taken m.name r)
]

-- buildCatalog behind the index of the Formulae.
unfoldable pub finish_catalog : List Migration → Claimed → Catalog → Result CatalogError Catalog
finish_catalog ms claimed c = do
  d ← canonicalize_dependencies c.canonical_names c
  validate_dependencies d
  (names, e) ← accept_migrations ms claimed d
  resolved ← resolve_all (suc (length e.migrations)) e names []
  ok (record e { resolved_migrations = resolved })

unfoldable pub build_catalog : List Formula → List Migration → Result CatalogError Catalog
build_catalog fs ms = do
  (claimed, c) ← add_canonical fs [] empty_catalog
  (later, d) ← index_formulae c.canonical_names claimed c
  finish_catalog ms later d
