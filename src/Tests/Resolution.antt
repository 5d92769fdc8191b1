-- ===== src/Tests/Resolution.antt =====
-- The resolver's requirements, its check and the bottle selection on concrete inputs.
use mathlib.Core.List.{Permᴰ}
use dalec_homebrew.Prelude.Int.{pos, int_max}
use dalec_homebrew.Prelude.{◌≡◌, ◌↔◌, ◌⊎◌, refl, [], ◌∷◌, ok, arith, true, false, some, map}
use dalec_homebrew.GoString.{Bytes, lit, str_eq, has_prefix, contains_byte, count}
use dalec_homebrew.GoString.Unicode.{decode_rune, runes_from, runes, rune_len, byte_len, is_blank}
use dalec_homebrew.GoString.Decimal.{value}
use dalec_homebrew.GoMap.{Map, lookup, put}
use dalec_homebrew.PkgName.{revision_suffix, atoi_digits, split_pkg_version}
use dalec_homebrew.Version.{
  str_compare, trim_zeros, significant, compare_numeric, alpha_rank, compare_alpha,
  compare_end_to_remainder, compare_token, compare_tokens, flush, rune_kind, scan_rune, scan_runes,
  tokens_of, tokenize, compare_versions, at_least,
}
use dalec_homebrew.Metadata.{BottleFile, Bottle, Formula, bottle_for}
use dalec_homebrew.Metadata.Selection.{IsFirst, Lacks, bottle_for_iff}
use dalec_homebrew.Resolver.Requirements.{
  Requirement, merge_requirement, satisfies, insert_requirement, map_requirements, BottleTab, is_gt,
  validate_runtime_compatibility,
}
use dalec_homebrew.Resolver.Requirements.Minimum.{
  Covers, Meets, merge_requirement-Covers, satisfies_iff,
}
use dalec_homebrew.Resolver.Requirements.Baseline.{
  Runs, BuiltFor, validate_runtime_compatibility_iff,
}
use dalec_homebrew.Resolver.Requirements.Sorted.{IsAscending, map_requirements-IsAscending}
use dalec_homebrew.Resolver.Types.{Node}
use dalec_homebrew.Resolver.Settle.{filled, with_dependencies, settle_edges, settle}
use dalec_homebrew.Resolver.Settle.Satisfied.{GraphSatisfied, settle-EdgeSatisfied}
use dalec_homebrew.Tests.{ascii}

abbrev needs : Bytes → Requirement
needs v = record {
  name = lit "l";
  minimum = v;
  revision = pos 0;
  bottle_rebuild = pos 0;
  direct = true;
}

merge_requirement-Covers_example :
    let c = merge_requirement ascii (needs (lit "1.9")) (needs (lit "1.10_1")) in
    (c.name ≡ lit "l")
    × (c.direct ≡ true)
    × Covers ascii c (needs (lit "1.9"))
    × Covers ascii c (needs (lit "1.10_1"))
merge_requirement-Covers_example =
    merge_requirement-Covers ascii (needs (lit "1.9")) (needs (lit "1.10_1")) (ground arith) refl
      (ground arith)

split-ok : split_pkg_version ascii (lit "1.2_3") ≡ ok (lit "1.2", pos 3)
unfolding str_eq count decode_rune runes_from runes is_blank value revision_suffix atoi_digits
    split_pkg_version
split-ok = refl

satisfies_iff_example :
    (satisfies ascii (lit "1.2") (pos 3) (pos 1) (needs (lit "1.2_3")) ≡ true)
    ↔ Meets ascii (lit "1.2") (pos 3) (pos 1) (lit "1.2") (int_max (pos 0) (pos 3)) (pos 0)
satisfies_iff_example =
    satisfies_iff ascii (lit "1.2") (pos 3) (pos 1) (needs (lit "1.2_3")) (lit "1.2") (pos 3)
      split-ok

abbrev tab : BottleTab
tab = record { arch = lit "x86_64"; glibc_version = lit "2.35"; oldest_cpu_family = lit "core2" }

validate_runtime_compatibility_iff_example :
    (validate_runtime_compatibility ascii tab (lit "amd64") ≡ ok tt) ↔ (
      ((lit "2.35" ≡ []) ⊎ (is_gt (compare_versions ascii (lit "2.35") (lit "2.39")) ≡ false))
      × ((lit "x86_64" ≡ [])
          ⊎ (BuiltFor (lit "amd64") (lit "x86_64")
              × Runs (lit "amd64") (map ascii.to_lower (runes (lit "core2"))))))
validate_runtime_compatibility_iff_example =
    validate_runtime_compatibility_iff ascii tab (lit "amd64")

abbrev other : Requirement
other = record (needs (lit "1.0")) { name = lit "a" }

-- The two orders in which a map with these requirements may be read.
map_requirements-IsAscending_example :
    IsAscending (map_requirements (needs [] ∷ other ∷ []))
    × Permᴰ (map_requirements (needs [] ∷ other ∷ [])) (needs [] ∷ other ∷ [])
    × (map_requirements (other ∷ needs [] ∷ []) ≡ map_requirements (needs [] ∷ other ∷ []))
map_requirements-IsAscending_example =
    map_requirements-IsAscending (needs [] ∷ other ∷ []) (other ∷ needs [] ∷ [])
      (Permᴰ.swap refl refl) ((ground arith, tt), (tt, tt))

abbrev node : Bytes → Bytes → Node
node n v = record {
  name = n;
  formula_version = v;
  formula_revision = pos 0;
  pkg_version = v;
  bottle_rebuild = pos 0;
  dependencies = [];
}

abbrev nodes : Map Node
nodes =
    (lit "a", node (lit "a") (lit "2"))
    ∷ (lit "l", node (lit "l") (lit "1.10"))
    ∷ (lit "m", node (lit "m") (lit "3"))
    ∷ []

-- One requirement names its minimum, and one does not.
abbrev unversioned : Requirement
unversioned = record (needs []) { name = lit "m" }

abbrev graph : Map (Map Requirement)
graph = (lit "a", (lit "l", needs (lit "1.9")) ∷ (lit "m", unversioned) ∷ []) ∷ []

abbrev versioned : Requirement
versioned = record unversioned { minimum = lit "3" }

abbrev settled_graph : Map (Map Requirement)
settled_graph = (lit "a", (lit "l", needs (lit "1.9")) ∷ (lit "m", versioned) ∷ []) ∷ []

abbrev after : Map Node
after =
    (
      lit "a",
      record (node (lit "a") (lit "2")) { dependencies = needs (lit "1.9") ∷ versioned ∷ [] },
    )
    ∷ (lit "l", node (lit "l") (lit "1.10"))
    ∷ (lit "m", node (lit "m") (lit "3"))
    ∷ []

settled : settle {E = Unit} ascii nodes graph ≡ ok (settled_graph, after)
unfolding str_eq has_prefix contains_byte count decode_rune runes_from runes rune_len byte_len
    is_blank value str_compare trim_zeros significant compare_numeric alpha_rank compare_alpha
    compare_end_to_remainder compare_token compare_tokens flush rune_kind scan_rune scan_runes
    tokens_of tokenize compare_versions at_least revision_suffix atoi_digits split_pkg_version
    lookup put satisfies insert_requirement map_requirements filled with_dependencies settle_edges
    settle
settled = refl

settle-EdgeSatisfied_example : GraphSatisfied ascii after graph settled_graph
settle-EdgeSatisfied_example =
    settle-EdgeSatisfied {E = Unit} ascii nodes graph settled_graph after settled

abbrev portable : BottleFile
portable = record { tag = lit "all"; cellar = lit "any"; url = []; sha256 = [] }

abbrev bottle : Bottle
bottle = record { rebuild = pos 0; root_url = []; files = portable ∷ [] }

abbrev formula : Formula
formula = record {
  name = lit "l";
  full_name = lit "l";
  tap = lit "homebrew/core";
  old_names = [];
  aliases = [];
  versioned_formulae = [];
  description = [];
  license = [];
  homepage = [];
  stable_version = lit "1.10";
  revision = pos 0;
  version_scheme = pos 0;
  keg_only = false;
  disabled = false;
  dependencies = [];
  variations = [];
  bottle = some bottle;
}

bottle_for_iff_example : (bottle_for formula (lit "arm64_linux") ≡ ok portable) ↔ (
    IsFirst (lit "arm64_linux") bottle.files portable
    ⊎ (Lacks (lit "arm64_linux") bottle.files × IsFirst (lit "all") bottle.files portable))
bottle_for_iff_example = bottle_for_iff formula bottle (lit "arm64_linux") portable refl
