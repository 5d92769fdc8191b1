-- ===== src/Resolver/Requirements.antt =====
-- internal/resolver/resolver.go: the requirements on a dependency, and the runtime baseline.
-- `Requirement` and `Node` are those of internal/resolution/record.go.
pub mod Minimum
pub mod Baseline
pub mod Sorted
use Prim.Native.Nat.{Ordering}
use dalec_homebrew.Prelude.Int.{ℤ, pos, int_ltb, int_geb, int_eq, int_max}
use dalec_homebrew.Prelude.{
  ℕ, Bool, true, false, not, ◌&&◌, ◌||◌, List, [], ◌∷◌, ◌++◌, Option, none, some, map, ltb,
  if◌then◌else◌, Result, ok, err, ◌>>=◌, ◌>>◌, fail_if,
}
use dalec_homebrew.GoString.Unicode.{Unicode, runes}
use dalec_homebrew.GoString.{Bytes, lit, str_eq}
use dalec_homebrew.PkgName.{split_pkg_version}
use dalec_homebrew.Version.{compare_versions, at_least, str_compare}

pub record Requirement : Type 0 where
  pub name : Bytes
  pub minimum : Bytes
  pub revision : ℤ
  pub bottle_rebuild : ℤ
  pub direct : Bool

-- The zero value, which a map gives for a missing key.
abbrev pub zero_requirement : Requirement
zero_requirement = record {
  name = [];
  minimum = [];
  revision = pos 0;
  bottle_rebuild = pos 0;
  direct = false;
}

-- c == lt and c > 0 on a result of Compare
abbrev pub is_gt : Ordering → Bool
is_gt Ordering.gt = true
is_gt _ = false

abbrev pub is_eq : Ordering → Bool
is_eq Ordering.eq = true
is_eq _ = false

module _ (u : Unicode) where
  -- The first two results of SplitPkgVersion, which are "" and 0 beside an error.
  unfoldable pub split_or_zero : Bytes → Bytes × ℤ
  split_or_zero v = elim (split_pkg_version u v) [ ok r ↦ r | err e ↦ ([], pos 0) ]

  -- The test of `mergeRequirement` that takes the second minimum.
  unfoldable pub takes_second : Requirement → Requirement → Bool
  takes_second a b =
      let (s, r) = split_or_zero a.minimum in
      let (t, q) = split_or_zero b.minimum in
      str_eq a.minimum []
      || is_gt (compare_versions u t s)
      || is_eq (compare_versions u t s) && int_ltb r q

  unfoldable pub merge_requirement : Requirement → Requirement → Requirement
  merge_requirement a b =
      if str_eq a.name []
      then b
      else if str_eq b.name []
      then a
      else if takes_second a b
      then record {
        name = a.name;
        minimum = b.minimum;
        revision = b.revision;
        bottle_rebuild = b.bottle_rebuild;
        direct = a.direct || b.direct;
      }
      else record {
        name = a.name;
        minimum = a.minimum;
        revision = a.revision;
        bottle_rebuild = a.bottle_rebuild;
        direct = a.direct || b.direct;
      }

  -- What `satisfies` reads of a Node is its version, its revision and its rebuild.
  unfoldable pub satisfies : Bytes → ℤ → ℤ → Requirement → Bool
  satisfies formula_version formula_revision bottle_rebuild req =
      elim (split_pkg_version u req.minimum) [
        | err e ↦ false
        | ok (min_version, min_revision) ↦
            let needed = int_max req.revision min_revision in
            if not (at_least u formula_version formula_revision min_version needed)
            then false
            else if is_eq (compare_versions u formula_version min_version)
                && int_eq formula_revision needed
            then int_geb bottle_rebuild req.bottle_rebuild
            else true
      ]

-- slices.SortFunc by the name: the input has one requirement for each name.
unfoldable pub insert_requirement : Requirement → List Requirement → List Requirement
insert_requirement r [] = r ∷ []
insert_requirement r (s ∷ rest) = elim (str_compare r.name s.name) [
  | Ordering.gt ↦ s ∷ insert_requirement r rest
  | _ ↦ r ∷ s ∷ rest
]

-- mapRequirements, on the values of the map
unfoldable pub map_requirements : List Requirement → List Requirement
map_requirements [] = []
map_requirements (r ∷ rs) = insert_requirement r (map_requirements rs)

-- The fields of BottleTab and of its BuiltOn that the resolver tests.
pub record BottleTab : Type 0 where
  pub arch : Bytes
  pub glibc_version : Bytes
  pub oldest_cpu_family : Bytes

pub data Incompatible : Type 0 where
  glibc_too_new wrong_architecture unknown_cpu_family cpu_too_new : Incompatible

-- The table `rank`.
unfoldable pub cpu_rank : Bytes → Option ℕ
cpu_rank cpu =
    if str_eq cpu (lit "x86_64")
    then some 0
    else if str_eq cpu (lit "core2")
    then some 1
    else if str_eq cpu (lit "penryn")
    then some 2
    else if str_eq cpu (lit "nehalem")
    then some 3
    else if str_eq cpu (lit "westmere")
    then some 4
    else if str_eq cpu (lit "sandybridge")
    then some 5
    else if str_eq cpu (lit "ivybridge")
    then some 6
    else if str_eq cpu (lit "haswell")
    then some 7
    else if str_eq cpu (lit "broadwell")
    then some 8
    else if str_eq cpu (lit "skylake")
    then some 9
    else if str_eq cpu (lit "zen")
    then some 10
    else if str_eq cpu (lit "zen2")
    then some 11
    else if str_eq cpu (lit "zen3")
    then some 12
    else if str_eq cpu (lit "zen4")
    then some 13
    else none

-- The end of `validateRuntimeCompatibility`, behind the test of the architecture.
unfoldable pub validate_cpu : Bytes → List ℕ → Result Incompatible Unit
validate_cpu architecture oldest =
    if str_eq architecture (lit "arm64")
    then fail_if
        (not (str_eq oldest [])
          && not (str_eq oldest (lit "armv8"))
          && not (str_eq oldest (lit "arm")))
        cpu_too_new
    else if str_eq oldest []
    then ok tt
    else elim (cpu_rank oldest) [
      | none ↦ err unknown_cpu_family
      | some r ↦ fail_if (ltb 1 r) cpu_too_new
    ]

abbrev pub expected_arch : Bytes → Bytes
expected_arch architecture = if str_eq architecture (lit "arm64") then lit "arm64" else lit "x86_64"

-- A tab without an architecture is that of a portable bottle.
unfoldable pub validate_architecture : Unicode → BottleTab → Bytes → Result Incompatible Unit
validate_architecture u tab architecture =
    if str_eq tab.arch []
    then ok tt
    else if not (str_eq tab.arch (expected_arch architecture))
    then err wrong_architecture
    else validate_cpu architecture (map u.to_lower (runes tab.oldest_cpu_family))

-- validateRuntimeCompatibility for the architecture of the target
unfoldable pub validate_runtime_compatibility :
    Unicode → BottleTab → Bytes → Result Incompatible Unit
validate_runtime_compatibility u tab architecture = do
  fail_if
      (not (str_eq tab.glibc_version [])
        && is_gt (compare_versions u tab.glibc_version (lit "2.39")))
      glibc_too_new
  validate_architecture u tab architecture
