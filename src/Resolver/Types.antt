-- ===== src/Resolver/Types.antt =====
-- The data of `Resolve` in internal/resolver/resolver.go: the variables of its walk, the interfaces it
-- is given, its errors, and what the order and the nodes of the record come from.
use dalec_homebrew.Prelude.Int.{ℤ, pos}
use dalec_homebrew.Prelude.{Bool, List, [], Result}
use dalec_homebrew.GoString.{Bytes}
use dalec_homebrew.GoMap.{Map}
use dalec_homebrew.Metadata.{Formula, Match}
use dalec_homebrew.Oci.Reference
use dalec_homebrew.Resolver.Requirements.{Requirement, BottleTab, Incompatible}
use dalec_homebrew.Resolver.Topo.{TopoError}

-- ocispec.Platform
pub record Platform : Type 0 where
  pub os : Bytes
  pub architecture : Bytes
  pub variant : Bytes
  pub os_features : List Bytes

pub record RequestedRoot : Type 0 where
  pub requested : Bytes
  pub canonical : Bytes
  pub keg_only : Bool

-- The fields of resolution.Node that `Resolve` reads or writes; it carries the others along.
pub record Node : Type 0 where
  pub name : Bytes
  pub formula_version : Bytes
  pub formula_revision : ℤ
  pub pkg_version : Bytes
  pub bottle_rebuild : ℤ
  pub dependencies : List Requirement

abbrev pub zero_node : Node
zero_node = record {
  name = [];
  formula_version = [];
  formula_revision = pos 0;
  pkg_version = [];
  bottle_rebuild = pos 0;
  dependencies = [];
}

-- What the bottle resolver's result gives: its Tab, and its ResolutionNode().
pub record Selected : Type 0 where
  pub tab : BottleTab
  pub node : Node

-- The interfaces Catalog and BottleResolver.
pub record Sources (E : Type 0) : Type 0 where
  pub find : Bytes → Result E Match
  pub select : Reference.Formula → Platform → Result E Selected

pub data ResolveError (E : Type 0) : Type 0 where
  unsupported_platform no_roots no_bottle foreign_root mismatched_identity : ResolveError E
  bad_root bad_dependency bad_bottle : E → ResolveError E
  not_canonical : ResolveError E
  incompatible : Incompatible → ResolveError E
  unresolved unsatisfied : ResolveError E
  unordered : TopoError → ResolveError E
  out_of_fuel : ResolveError E

-- What the record of a resolution takes from the walk.
pub record Resolution : Type 0 where
  pub requested : List RequestedRoot
  pub nodes : List Node
  pub install_order : List Bytes

-- The variables of the walk.
pub record Search : Type 0 where
  pub requested : List RequestedRoot
  pub queue : List Bytes
  pub matches : Map Formula
  pub nodes : Map Node
  pub graph : Map (Map Requirement)

abbrev pub empty_search : Search
empty_search = record { requested = []; queue = []; matches = []; nodes = []; graph = [] }
