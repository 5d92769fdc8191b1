-- ===== src/MetadataCatalog/Build/Returned.antt =====
-- The steps of buildCatalog other than its walks return.
use dalec_homebrew.Prelude.{
  inl, inr, Bool, true, false, not, ◌&&◌, List, [], ◌∷◌, fail_if, if◌then◌else◌, Bool-cases,
  Option-cases,
}
use dalec_homebrew.GoString.{Bytes, str_eq, contains_byte}
use dalec_homebrew.GoMap.{Map, lookup, put, has}
use dalec_homebrew.Metadata.{Formula, Variation}
use dalec_homebrew.MetadataCatalog.{
  CatalogError, self_versioned, plain_versioned, missing_versioned, missing_dependency, Migration,
  Catalog,
}
use dalec_homebrew.MetadataCatalog.Migrations.Ends.{IsFault, IsReturned, IsReturned-bind}
use dalec_homebrew.MetadataCatalog.Build.{
  Claimed, claim_index, add_canonical, check_versioned, index_names, index_formula, index_formulae,
  resolve_dependency, resolve_dependencies, canonicalize_variations, canonicalize_formula,
  canonicalize_dependencies, check_present, is_linux_tag, check_variations, check_formulae,
  has_identity, accept_migrations,
}

fail_if-IsReturned : (bad : Bool) (e : CatalogError) → IsFault e → IsReturned (fail_if bad e)
fail_if-IsReturned true e h = h
fail_if-IsReturned false e h = tt

claim_index-IsReturned : (name : Bytes) (claimed : Claimed) → IsReturned (claim_index name claimed)
unfolding claim_index
claim_index-IsReturned name claimed = elim (Bool-cases (has name claimed)) [
  | inl e ↦ rw e tt
  | inr e ↦ rw e tt
]

pub add_canonical-IsReturned :
    (fs : List Formula) (claimed : Claimed) (c : Catalog) → IsReturned (add_canonical fs claimed c)
unfolding add_canonical
add_canonical-IsReturned [] claimed c = tt
add_canonical-IsReturned (f ∷ fs) claimed c = elim (Bool-cases (has f.name claimed)) [
  | inl e ↦ rw (e, add_canonical) tt
  | inr e ↦ rw (e, add_canonical) (add_canonical-IsReturned fs (put f.name tt claimed) _)
]

check_versioned-IsReturned :
    (name : Bytes) (canonical : Map Formula) (vs : List Bytes)
    → IsReturned (check_versioned name canonical vs)
unfolding check_versioned
check_versioned-IsReturned name canonical [] = tt
check_versioned-IsReturned name canonical (v ∷ vs) =
    IsReturned-bind (fail_if (str_eq v name) self_versioned) _
      (fail_if-IsReturned (str_eq v name) self_versioned tt)
      (λ a x.
        IsReturned-bind (fail_if (not (contains_byte v b'@')) plain_versioned) _
          (fail_if-IsReturned (not (contains_byte v b'@')) plain_versioned tt)
          (λ b y.
            IsReturned-bind (fail_if (not (has v canonical)) missing_versioned) _
              (fail_if-IsReturned (not (has v canonical)) missing_versioned tt)
              (λ d z. check_versioned-IsReturned name canonical vs)))

index_names-IsReturned :
    (name : Bytes) (others : List Bytes) (claimed : Claimed) (index : Map Bytes)
    → IsReturned (index_names name others claimed index)
unfolding index_names
index_names-IsReturned name [] claimed index = tt
index_names-IsReturned name (other ∷ others) claimed index =
    IsReturned-bind (claim_index other claimed) _ (claim_index-IsReturned other claimed)
      (λ later x. index_names-IsReturned name others later (put other name index))

index_formula-IsReturned :
    (name : Bytes) (f : Formula) (claimed : Claimed) (c : Catalog)
    → IsReturned (index_formula name f claimed c)
unfolding index_formula
index_formula-IsReturned name f claimed c =
    IsReturned-bind (check_versioned name c.canonical f.versioned_formulae) _
      (check_versioned-IsReturned name c.canonical f.versioned_formulae)
      (λ a x.
        IsReturned-bind (index_names name f.aliases claimed c.aliases) _
          (index_names-IsReturned name f.aliases claimed c.aliases)
          (λ r y.
            IsReturned-bind (index_names name f.old_names r.0 c.old_names) _
              (index_names-IsReturned name f.old_names r.0 c.old_names) (λ q z. tt)))

pub index_formulae-IsReturned :
    (names : List Bytes) (claimed : Claimed) (c : Catalog)
    → IsReturned (index_formulae names claimed c)
unfolding index_formulae
index_formulae-IsReturned [] claimed c = tt
index_formulae-IsReturned (name ∷ names) claimed c = elim (Option-cases (lookup name c.canonical)) [
  | inl e ↦ rw (e, index_formulae) (index_formulae-IsReturned names claimed c)
  | inr (f, e) ↦
      rw (e, index_formulae)
        (IsReturned-bind (index_formula name f claimed c) _
          (index_formula-IsReturned name f claimed c)
          (λ r x. index_formulae-IsReturned names r.0 r.1))
]

resolve_dependencies-IsReturned :
    (c : Catalog) (ds : List Bytes) → IsReturned (resolve_dependencies c ds)
unfolding resolve_dependencies
resolve_dependencies-IsReturned c [] = tt
resolve_dependencies-IsReturned c (d ∷ ds) = elim (Option-cases (resolve_dependency c d)) [
  | inl e ↦ rw (e, resolve_dependencies) tt
  | inr (n, e) ↦
      rw (e, resolve_dependencies)
        (IsReturned-bind (resolve_dependencies c ds) _ (resolve_dependencies-IsReturned c ds)
          (λ r x. tt))
]

canonicalize_variations-IsReturned :
    (c : Catalog) (vs : List Variation) → IsReturned (canonicalize_variations c vs)
unfolding canonicalize_variations
canonicalize_variations-IsReturned c [] = tt
canonicalize_variations-IsReturned c (v ∷ vs) =
    IsReturned-bind (resolve_dependencies c v.dependencies) _
      (resolve_dependencies-IsReturned c v.dependencies)
      (λ a x.
        IsReturned-bind (canonicalize_variations c vs) _ (canonicalize_variations-IsReturned c vs)
          (λ b y. tt))

canonicalize_formula-IsReturned :
    (c : Catalog) (f : Formula) → IsReturned (canonicalize_formula c f)
unfolding canonicalize_formula
canonicalize_formula-IsReturned c f =
    IsReturned-bind (resolve_dependencies c f.dependencies) _
      (resolve_dependencies-IsReturned c f.dependencies)
      (λ a x.
        IsReturned-bind (canonicalize_variations c f.variations) _
          (canonicalize_variations-IsReturned c f.variations) (λ b y. tt))

pub canonicalize_dependencies-IsReturned :
    (names : List Bytes) (c : Catalog) → IsReturned (canonicalize_dependencies names c)
unfolding canonicalize_dependencies
canonicalize_dependencies-IsReturned [] c = tt
canonicalize_dependencies-IsReturned (name ∷ names) c =
    elim (Option-cases (lookup name c.canonical)) [
      | inl e ↦ rw (e, canonicalize_dependencies) (canonicalize_dependencies-IsReturned names c)
      | inr (f, e) ↦
          rw (e, canonicalize_dependencies)
            (IsReturned-bind (canonicalize_formula c f) _ (canonicalize_formula-IsReturned c f)
              (λ g x. canonicalize_dependencies-IsReturned names _))
    ]

check_present-IsReturned :
    (canonical : Map Formula) (ds : List Bytes) → IsReturned (check_present canonical ds)
unfolding check_present
check_present-IsReturned canonical [] = tt
check_present-IsReturned canonical (d ∷ ds) =
    IsReturned-bind (fail_if (not (has d canonical)) missing_dependency) _
      (fail_if-IsReturned (not (has d canonical)) missing_dependency tt)
      (λ a x. check_present-IsReturned canonical ds)

check_variations-IsReturned :
    (canonical : Map Formula) (vs : List Variation) (tags : Map Unit)
    → IsReturned (check_variations canonical vs tags)
unfolding check_variations
check_variations-IsReturned canonical [] tags = tt
check_variations-IsReturned canonical (v ∷ vs) tags = elim (Bool-cases (is_linux_tag v.tag)) [
  | inr e ↦ rw (e, check_variations) (check_variations-IsReturned canonical vs tags)
  | inl e ↦
      rw (e, check_variations)
        (IsReturned-bind
          (check_present canonical (if v.overrides_dependencies then v.dependencies else [])) _
          (check_present-IsReturned canonical _)
          (λ a x. check_variations-IsReturned canonical vs (put v.tag tt tags)))
]

pub check_formulae-IsReturned :
    (canonical : Map Formula) (names : List Bytes) (tags : Map Unit)
    → IsReturned (check_formulae canonical names tags)
unfolding check_formulae
check_formulae-IsReturned canonical [] tags = tt
check_formulae-IsReturned canonical (name ∷ names) tags =
    elim (Option-cases (lookup name canonical)) [
      | inl e ↦ rw (e, check_formulae) (check_formulae-IsReturned canonical names tags)
      | inr (f, e) ↦
          rw (e, check_formulae)
            (IsReturned-bind (check_present canonical f.dependencies) _
              (check_present-IsReturned canonical f.dependencies)
              (λ a x.
                IsReturned-bind (check_variations canonical f.variations tags) _
                  (check_variations-IsReturned canonical f.variations tags)
                  (λ later y. check_formulae-IsReturned canonical names later)))
    ]

pub accept_migrations-IsReturned :
    (ms : List Migration) (claimed : Claimed) (c : Catalog)
    → IsReturned (accept_migrations ms claimed c)
unfolding accept_migrations
accept_migrations-IsReturned [] claimed c = tt
accept_migrations-IsReturned (m ∷ ms) claimed c =
    elim (Bool-cases (m.in_core && str_eq m.target_name m.name)) [
      | inl e ↦ elim (Bool-cases (has_identity c m.name)) [
        | inl k ↦ rw (e, accept_migrations, k) (accept_migrations-IsReturned ms claimed c)
        | inr k ↦ rw (e, accept_migrations, k) tt
      ]
      | inr e ↦
          rw (e, accept_migrations)
            (IsReturned-bind (claim_index m.name claimed) _ (claim_index-IsReturned m.name claimed)
              (λ later x.
                IsReturned-bind
                  (accept_migrations ms later (record c { migrations = put m.name m c.migrations }))
                  _ (accept_migrations-IsReturned ms later _) (λ r y. tt)))
    ]
