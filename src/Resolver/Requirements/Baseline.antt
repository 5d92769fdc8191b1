-- ===== src/Resolver/Requirements/Baseline.antt =====
-- Which bottles the runtime can run.
use dalec_homebrew.Prelude.{
  ℕ, ◌≡◌, ◌≢◌, ◌≤◌, ◌↔◌, ◌⊎◌, inl, inr, List, [], ok, some, none, arith, false, Option-cases, map,
}
use dalec_homebrew.GoString.Unicode.{Unicode, runes}
use dalec_homebrew.GoString.{Bytes, lit, str_eq_iff}
use dalec_homebrew.Version.{compare_versions}
use dalec_homebrew.Resolver.Requirements.{
  BottleTab, is_gt, cpu_rank, validate_cpu, validate_architecture, expected_arch,
  validate_runtime_compatibility,
}

-- The families that the baseline of the architecture runs; no family is named by "".
abbrev pub Runs : Bytes → List ℕ → Type 0
Runs architecture cpu =
    (cpu ≡ [])
    ⊎ ((architecture ≡ lit "arm64") × ((cpu ≡ lit "armv8") ⊎ (cpu ≡ lit "arm")))
    ⊎ ((architecture ≢ lit "arm64") × ((cpu ≡ lit "x86_64") ⊎ (cpu ≡ lit "core2")))

cpu_rank-eq-some :
    (cpu : Bytes) (r : ℕ)
    → cpu_rank cpu ≡ some r
    → (r ≤ 1) ↔ ((cpu ≡ lit "x86_64") ⊎ (cpu ≡ lit "core2"))
unfolding cpu_rank
cpu_rank-eq-some cpu r h =
    ground (arith, str_eq_iff cpu (lit "x86_64"), str_eq_iff cpu (lit "core2"))

cpu_rank-eq-none : (cpu : Bytes) → cpu_rank cpu ≡ none → (cpu ≢ lit "x86_64") × (cpu ≢ lit "core2")
unfolding cpu_rank
cpu_rank-eq-none cpu h = ground (arith, str_eq_iff cpu (lit "x86_64"), str_eq_iff cpu (lit "core2"))

validate_cpu_iff :
    (architecture : Bytes) (cpu : List ℕ)
    → (validate_cpu architecture cpu ≡ ok tt) ↔ Runs architecture cpu
unfolding validate_cpu
validate_cpu_iff a cpu = elim (Option-cases (cpu_rank cpu)) [
  | inl e ↦ ground (
    arith,
    e,
    cpu_rank-eq-none cpu,
    str_eq_iff a (lit "arm64"),
    str_eq_iff cpu [],
    str_eq_iff cpu (lit "armv8"),
    str_eq_iff cpu (lit "arm"),
  )
  | inr (r, e) ↦ ground (
    arith,
    e,
    cpu_rank-eq-some cpu r,
    str_eq_iff a (lit "arm64"),
    str_eq_iff cpu [],
    str_eq_iff cpu (lit "armv8"),
    str_eq_iff cpu (lit "arm"),
  )
]

-- The architecture that a tab names, for that of the target: "arm64" is arm64, and any other x86_64.
abbrev pub BuiltFor : Bytes → Bytes → Type 0
BuiltFor architecture arch =
    ((architecture ≡ lit "arm64") × (arch ≡ lit "arm64"))
    ⊎ ((architecture ≢ lit "arm64") × (arch ≡ lit "x86_64"))

expected_arch_iff :
    (architecture arch : Bytes) → (arch ≡ expected_arch architecture) ↔ BuiltFor architecture arch
expected_arch_iff architecture arch = ground (arith, str_eq_iff architecture (lit "arm64"))

-- A bottle is compatible with a target exactly when its glibc is unnamed or does not compare above
-- 2.39, and it is portable, or built for arm64 where the target is arm64, for x86_64 otherwise, and for a CPU family that the baseline of
-- the architecture runs.
pub validate_runtime_compatibility_iff :
    (u : Unicode) (tab : BottleTab) (architecture : Bytes)
    → (validate_runtime_compatibility u tab architecture ≡ ok tt) ↔ (
        ((tab.glibc_version ≡ [])
          ⊎ (is_gt (compare_versions u tab.glibc_version (lit "2.39")) ≡ false))
        × ((tab.arch ≡ [])
            ⊎ (BuiltFor architecture tab.arch
                × Runs architecture (map u.to_lower (runes tab.oldest_cpu_family)))))
unfolding validate_runtime_compatibility validate_architecture
validate_runtime_compatibility_iff u tab a = ground (
  arith,
  str_eq_iff tab.glibc_version [],
  str_eq_iff tab.arch [],
  str_eq_iff tab.arch (expected_arch a),
  expected_arch_iff a tab.arch,
  validate_cpu_iff a (map u.to_lower (runes tab.oldest_cpu_family)),
)
