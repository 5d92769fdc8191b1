-- ===== src/Resolver/Closure.antt =====
-- `Resolve` of internal/resolver/resolver.go: the walk over the signed dependencies. The catalog and
-- the bottle resolver are the interfaces of that file; the queue takes fuel.
pub mod Complete
pub mod Safely
pub mod Indexed
pub mod Ends
use dalec_homebrew.Prelude.{
  ℕ, zero, suc, Bool, true, false, not, ◌||◌, List, [], ◌∷◌, ◌++◌, none, some, if◌then◌else◌,
  Result, ok, err, ◌>>=◌, ◌>>◌, fail_if, map_err,
}
use dalec_homebrew.GoString.Unicode.{Unicode}
use dalec_homebrew.GoString.{Bytes, lit, str_eq}
use dalec_homebrew.GoMap.{Map, lookup, put, has, get_or}
use dalec_homebrew.Metadata.{
  Formula, Bottle, Match, MatchKind, match_canonical, match_alias, match_old_name, match_migration,
  dependencies_for, keg_only_for, formula_pkg_version,
}
use dalec_homebrew.Metadata
use dalec_homebrew.Oci.Names
use dalec_homebrew.Oci.Reference
use dalec_homebrew.Oci.Names.{tag_x86_64_linux, tag_arm64_linux}
use dalec_homebrew.Resolver.Requirements.{
  Requirement, zero_requirement, merge_requirement, validate_runtime_compatibility,
}
use dalec_homebrew.Resolver.Types.{
  Platform, Node, Sources, ResolveError, no_bottle, foreign_root, mismatched_identity, bad_root,
  bad_dependency, bad_bottle, not_canonical, incompatible, out_of_fuel, Search,
}

unfoldable pub target_tag : Platform → Bytes
target_tag p = if str_eq p.architecture (lit "arm64") then tag_arm64_linux else tag_x86_64_linux

abbrev pub is_canonical : MatchKind → Bool
is_canonical match_canonical = true
is_canonical _ = false

-- files[file.Tag] = oci.BottleFile{...}
unfoldable pub files_by_tag : List Metadata.BottleFile → Map Names.BottleFile → Map Names.BottleFile
files_by_tag [] files = files
files_by_tag (f ∷ fs) files =
    files_by_tag fs (put f.tag (record { cellar = f.cellar; sha256 = f.sha256 }) files)

module _ {E : Type 0} where
  unfoldable pub to_oci_formula : Formula → Platform → Result (ResolveError E) Reference.Formula
  to_oci_formula f target = elim f.bottle [
    | none ↦ err no_bottle
    | some b ↦
        if not (str_eq b.root_url (lit "https://ghcr.io/v2/homebrew/core"))
        then err foreign_root
        else ok (record {
          name = f.name;
          full_name = f.full_name;
          stable_version = f.stable_version;
          revision = f.revision;
          version_scheme = f.version_scheme;
          bottle_rebuild = b.rebuild;
          license = f.license;
          keg_only = keg_only_for f (target_tag target);
          bottle_files = files_by_tag b.files [];
        })
  ]

-- tabDeps[req.Name] = req
unfoldable pub by_name : List Requirement → Map Requirement → Map Requirement
by_name [] m = m
by_name (r ∷ rs) m = by_name rs (put r.name r m)

-- `req` of a signed dependency, from the requirements of the bottle tab
unfoldable pub direct_requirement : Bytes → Map Requirement → Requirement
direct_requirement name tab_deps = elim (lookup name tab_deps) [
  | some r ↦ record r { direct = true }
  | none ↦ record zero_requirement { name = name; direct = true }
]

-- graph[name][dep] = mergeRequirement(graph[name][dep], req)
unfoldable pub add_edge :
    Unicode → Bytes → Bytes → Requirement → Map (Map Requirement) → Map (Map Requirement)
add_edge u name dep req graph =
    let edges = get_or [] name graph in
    put name (put dep (merge_requirement u (get_or zero_requirement dep edges) req) edges) graph

module _ {E : Type 0} (u : Unicode) (sources : Sources E) (target : Platform) where
  -- The loop over `roots`.
  unfoldable pub request_root : Search → Bytes → Result (ResolveError E) Search
  request_root w name = do
    m ← map_err bad_root (sources.find name)
    ok (record {
      requested =
          w.requested
          ++ record {
            requested = name;
            canonical = m.canonical;
            keg_only = keg_only_for m.formula (target_tag target);
          }
            ∷ [];
      queue = if has m.canonical w.matches then w.queue else w.queue ++ m.canonical ∷ [];
      matches = put m.canonical m.formula w.matches;
      nodes = w.nodes;
      graph = w.graph;
    })

  unfoldable pub request_roots : Search → List Bytes → Result (ResolveError E) Search
  request_roots w [] = ok w
  request_roots w (name ∷ names) = request_root w name >>= λ w'. request_roots w' names

  -- The Formula of a queued name, known from `matches` or looked up.
  unfoldable pub formula_of : Search → Bytes → Result (ResolveError E) Formula
  formula_of w name = elim (lookup name w.matches) [
    | some f ↦ ok f
    | none ↦ map_err bad_dependency (sources.find name) >>= λ m.
        fail_if (not (is_canonical m.kind) || not (str_eq m.canonical name)) not_canonical
        >> ok m.formula
  ]

  -- The loop over `signedDeps`.
  unfoldable pub add_dependency :
      Bytes → Map Requirement → Search → Bytes → Result (ResolveError E) Search
  add_dependency name tab_deps w dep = do
    m ← map_err bad_dependency (sources.find dep)
    fail_if (not (is_canonical m.kind) || not (str_eq m.canonical dep)) not_canonical
    ok (record {
      requested = w.requested;
      queue = if has m.canonical w.nodes then w.queue else w.queue ++ m.canonical ∷ [];
      matches = put m.canonical m.formula w.matches;
      nodes = w.nodes;
      graph = add_edge u name m.canonical (direct_requirement m.canonical tab_deps) w.graph;
    })

  unfoldable pub add_dependencies :
      Bytes → Map Requirement → Search → List Bytes → Result (ResolveError E) Search
  add_dependencies name tab_deps w [] = ok w
  add_dependencies name tab_deps w (dep ∷ deps) =
      add_dependency name tab_deps w dep >>= λ w'. add_dependencies name tab_deps w' deps

  -- The node of a Formula, from its bottle.
  unfoldable pub node_of : Bytes → Formula → Result (ResolveError E) Node
  node_of name formula = do
    oci_formula ← to_oci_formula formula target
    selected ← map_err bad_bottle (sources.select oci_formula target)
    map_err incompatible (validate_runtime_compatibility u selected.tab target.architecture)
    fail_if
        (not (str_eq selected.node.name name)
          || not (str_eq selected.node.pkg_version (formula_pkg_version formula)))
        mismatched_identity
    ok selected.node

  -- The search with the node of a name, before its dependencies.
  unfoldable pub with_node : Bytes → Formula → Node → Search → Search
  with_node name formula node w = record {
    requested = w.requested;
    queue = w.queue;
    matches = put name formula w.matches;
    nodes = put name node w.nodes;
    graph = if has name w.graph then w.graph else put name [] w.graph;
  }

  -- One round of the loop over `queue`, for the name in front.
  unfoldable pub resolve_name : Bytes → Search → Result (ResolveError E) Search
  resolve_name name w =
      if has name w.nodes
      then ok w
      else (formula_of w name >>= λ formula. node_of name formula >>= λ node.
          add_dependencies name (by_name node.dependencies []) (with_node name formula node w)
            (dependencies_for formula (target_tag target)))

  unfoldable pub drain : ℕ → Search → Result (ResolveError E) Search
  drain zero w = err out_of_fuel
  drain (suc fuel) w = elim w.queue [
    | [] ↦ ok w
    | name ∷ rest ↦ resolve_name name (record w { queue = rest }) >>= λ w'. drain fuel w'
  ]
