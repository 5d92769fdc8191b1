-- ===== src/Tests/Walk.antt =====
-- The resolver's walk over a concrete catalog.
use dalec_homebrew.Prelude.Int.{pos}
use dalec_homebrew.Prelude.{◌≡◌, refl, [], ◌∷◌, ok, List, true, false, some, if◌then◌else◌}
use dalec_homebrew.GoString.{Bytes, lit, str_eq}
use dalec_homebrew.GoMap.{lookup, put, has}
use dalec_homebrew.Metadata.{
  Formula, match_canonical, formula_pkg_version, overridden_dependencies, dependencies_for,
  overridden_keg_only, keg_only_for,
}
use dalec_homebrew.Resolver.Requirements.{
  split_or_zero, takes_second, merge_requirement, validate_architecture,
  validate_runtime_compatibility,
}
use dalec_homebrew.Resolver.Types.{Platform, Node, Sources, Search, empty_search}
use dalec_homebrew.Resolver.Closure.{
  target_tag, files_by_tag, to_oci_formula, by_name, direct_requirement, add_edge, request_root,
  request_roots, formula_of, add_dependency, add_dependencies, node_of, with_node, resolve_name,
  drain,
}
use dalec_homebrew.Resolver.Closure.Complete.{Edges, drain-Edges}
use dalec_homebrew.Tests.{ascii}

abbrev pub formula : Bytes → List Bytes → Formula
formula n deps = record {
  name = n;
  full_name = n;
  tap = lit "homebrew/core";
  old_names = [];
  aliases = [];
  versioned_formulae = [];
  description = [];
  license = [];
  homepage = [];
  stable_version = lit "1";
  revision = pos 0;
  version_scheme = pos 0;
  keg_only = false;
  disabled = false;
  dependencies = deps;
  variations = [];
  bottle =
      some
        (record { rebuild = pos 0; root_url = lit "https://ghcr.io/v2/homebrew/core"; files = [] });
}

-- `a` needs `l`, and nothing else needs anything.
abbrev entry : Bytes → Formula
entry n = formula n (if str_eq n (lit "a") then lit "l" ∷ [] else [])

abbrev pub node : Bytes → Node
node n = record {
  name = n;
  formula_version = lit "1";
  formula_revision = pos 0;
  pkg_version = lit "1";
  bottle_rebuild = pos 0;
  dependencies = [];
}

abbrev sources : Sources Unit
sources = record {
  find =
      λ n. ok (record { requested = n; canonical = n; kind = match_canonical; formula = entry n });
  select = λ f p. ok (record {
    tab = record { arch = []; glibc_version = []; oldest_cpu_family = [] };
    node = node f.name;
  });
}

abbrev pub target : Platform
target = record { os = lit "linux"; architecture = lit "amd64"; variant = []; os_features = [] }

abbrev asked : Search
asked = record {
  requested = record { requested = lit "a"; canonical = lit "a"; keg_only = false } ∷ [];
  queue = lit "a" ∷ [];
  matches = (lit "a", formula (lit "a") (lit "l" ∷ [])) ∷ [];
  nodes = [];
  graph = [];
}

abbrev done : Search
done = record {
  requested = asked.requested;
  queue = [];
  matches = (lit "a", formula (lit "a") (lit "l" ∷ [])) ∷ (lit "l", formula (lit "l") []) ∷ [];
  nodes = (lit "a", node (lit "a")) ∷ (lit "l", node (lit "l")) ∷ [];
  graph =
      (
        lit "a",
        (
          lit "l",
          record {
            name = lit "l";
            minimum = [];
            revision = pos 0;
            bottle_rebuild = pos 0;
            direct = true;
          },
        )
            ∷ [],
      )
      ∷ (lit "l", [])
      ∷ [];
}

asks : request_roots ascii sources target empty_search (lit "a" ∷ []) ≡ ok asked
unfolding str_eq lookup put overridden_keg_only keg_only_for target_tag request_root request_roots
asks = refl

drains : drain ascii sources target 3 asked ≡ ok done
unfolding str_eq lookup put formula_pkg_version overridden_dependencies dependencies_for
    overridden_keg_only keg_only_for split_or_zero takes_second merge_requirement
    validate_architecture validate_runtime_compatibility target_tag files_by_tag to_oci_formula
    by_name direct_requirement add_edge formula_of add_dependency add_dependencies node_of with_node
    resolve_name drain
drains = refl

drain-Edges_example : (done.queue ≡ []) × Edges (λ d. has d done.nodes ≡ true) done.graph
drain-Edges_example = drain-Edges ascii sources target 3 (lit "a" ∷ []) asked done asks drains
