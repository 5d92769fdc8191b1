-- ===== src/Resolver/Settle.antt =====
-- `Resolve` of internal/resolver/resolver.go: the check of the required minimums behind the walk, the
-- order, and the whole up to the record that it fills. The walk and topoOrder share the fuel.
pub mod Satisfied
use Prim.Native.Nat.{Ordering}
use dalec_homebrew.Version.{str_compare}
use dalec_homebrew.Prelude.Int.{ℤ, pos}
use dalec_homebrew.Prelude.{
  Bool, true, false, ℕ, zero, suc, Bool, true, false, not, ◌&&◌, ◌||◌, List, [], ◌∷◌, ◌++◌, Option,
  none, some, map, if◌then◌else◌, Result, ok, err, ◌>>=◌, ◌>>◌, fail_if, map_err,
}
use dalec_homebrew.GoString.Unicode.{Unicode}
use dalec_homebrew.GoString.{Bytes, lit, str_eq}
use dalec_homebrew.GoMap.{Map, lookup, put, has, get_or}
use dalec_homebrew.Metadata.{
  Formula, Bottle, Match, MatchKind, match_canonical, match_alias, match_old_name, match_migration,
  dependencies_for, keg_only_for, formula_pkg_version,
}
use dalec_homebrew.Metadata
use dalec_homebrew.Oci.Names
use dalec_homebrew.Oci.Reference
use dalec_homebrew.Oci.Names.{tag_x86_64_linux, tag_arm64_linux}
use dalec_homebrew.Resolver.Requirements.{
  Requirement, zero_requirement, merge_requirement, satisfies, map_requirements, BottleTab,
  Incompatible, validate_runtime_compatibility,
}
use dalec_homebrew.Resolver.Topo.{TopoError, topo_order}
use dalec_homebrew.Resolver.Types.{
  Platform, RequestedRoot, Node, zero_node, Selected, Sources, ResolveError, unsupported_platform,
  no_roots, no_bottle, foreign_root, mismatched_identity, bad_root, bad_dependency, bad_bottle,
  not_canonical, incompatible, unresolved, unsatisfied, unordered, out_of_fuel, Resolution, Search,
  empty_search,
}
use dalec_homebrew.Resolver.Closure.{request_roots, drain}

-- len(xs) == 0
abbrev is_empty : {A : Type 0} → List A → Bool
is_empty [] = true
is_empty (x ∷ xs) = false

-- slices.Sort on the keys of a map
unfoldable pub insert_name : Bytes → List Bytes → List Bytes
insert_name n [] = n ∷ []
insert_name n (m ∷ rest) = elim (str_compare n m) [
  | Ordering.gt ↦ m ∷ insert_name n rest
  | _ ↦ n ∷ m ∷ rest
]

unfoldable pub sorted_names : List Bytes → List Bytes
sorted_names [] = []
sorted_names (n ∷ ns) = insert_name n (sorted_names ns)

-- The sorted keys of graph[name].
unfoldable pub edges_of : Map (Map Requirement) → Bytes → List Bytes
edges_of graph name = sorted_names (map (λ e. e.0) (get_or [] name graph))

-- slices.SortFunc by the name, on the values of a map
unfoldable pub insert_node : Node → List Node → List Node
insert_node n [] = n ∷ []
insert_node n (m ∷ rest) = elim (str_compare n.name m.name) [
  | Ordering.gt ↦ m ∷ insert_node n rest
  | _ ↦ n ∷ m ∷ rest
]

unfoldable pub nodes_by_name : List Node → List Node
nodes_by_name [] = []
nodes_by_name (n ∷ ns) = insert_node n (nodes_by_name ns)

-- The minimum of a requirement that names none is the version of the selected node.
unfoldable pub filled : Node → Requirement → Requirement
filled node req =
    if str_eq req.minimum []
    then record req {
      minimum = node.pkg_version;
      revision = node.formula_revision;
      bottle_rebuild = node.bottle_rebuild;
    }
    else req

-- n.Dependencies = mapRequirements(deps)
unfoldable pub with_dependencies : Bytes → Map Requirement → Map Node → Map Node
with_dependencies parent deps nodes =
    put parent
      (record (get_or zero_node parent nodes) {
        dependencies = map_requirements (map (λ e. e.1) deps);
      })
      nodes

module _ {E : Type 0} (u : Unicode) where
  -- The check of the edges of one parent.
  unfoldable pub settle_edges :
      Map Node → Map Requirement → Result (ResolveError E) (Map Requirement)
  settle_edges nodes [] = ok []
  settle_edges nodes ((name, req) ∷ deps) = do
    node ← elim (lookup name nodes) [ none ↦ err unresolved | some n ↦ ok n ]
    let settled = filled node req
    fail_if
        (not (satisfies u node.formula_version node.formula_revision node.bottle_rebuild settled))
        unsatisfied
    rest ← settle_edges nodes deps
    ok ((name, settled) ∷ rest)

  -- The loop over `graph`: the settled graph, and the nodes with their dependencies.
  unfoldable pub settle :
      Map Node → Map (Map Requirement) → Result (ResolveError E) (Map (Map Requirement) × Map Node)
  settle nodes [] = ok ([], nodes)
  settle nodes ((parent, deps) ∷ graph) = do
    settled ← settle_edges nodes deps
    rest ← settle (with_dependencies parent settled nodes) graph
    ok ((parent, settled) ∷ rest.0, rest.1)

module _ {E : Type 0} (u : Unicode) (sources : Sources E) (target : Platform) where
  -- The guards of `Resolve` on the platform.
  unfoldable pub supported : Bool
  supported =
      str_eq target.os (lit "linux")
      && (str_eq target.architecture (lit "amd64") || str_eq target.architecture (lit "arm64"))
      && str_eq target.variant []
      && is_empty target.os_features

  -- The walk and the check, between the guards and the order.
  unfoldable pub walk :
      ℕ
      → List Bytes
      → Result (ResolveError E) (List RequestedRoot × Map (Map Requirement) × Map Node)
  walk fuel roots = do
    asked ← request_roots u sources target empty_search roots
    done ← drain u sources target fuel asked
    settled ← settle u done.nodes done.graph
    ok (done.requested, settled.0, settled.1)

  unfoldable pub resolve : ℕ → List Bytes → Result (ResolveError E) Resolution
  resolve fuel roots = do
    fail_if (not supported) unsupported_platform
    fail_if (is_empty roots) no_roots
    found ← walk fuel roots
    order ← map_err unordered (topo_order (edges_of found.1) fuel (map (λ r. r.canonical) found.0))
    ok (record {
      requested = found.0;
      nodes = nodes_by_name (map (λ e. e.1) found.2);
      install_order = order;
    })
