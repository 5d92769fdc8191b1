-- ===== src/MetadataCatalog/Build/Closed.antt =====
-- The dependencies of a built index are canonical names.
use dalec_homebrew.Prelude.{
  suc, Bool, true, false, not, ◌&&◌, List, [], ◌∷◌, some, if◌then◌else◌, ok, ◌>>=◌, ◌≡◌, inl, inr,
  arith, All, In, bind-eq-ok, fail_if-eq-ok, Bool-cases, Option-cases, length,
}
use mathlib.Core.Path.{subst}
use dalec_homebrew.GoString.{Bytes, str_eq, str_eq_iff}
use dalec_homebrew.GoMap.{Map, lookup, put, has}
use dalec_homebrew.Metadata.{Formula, Variation, dependencies_for, overridden_dependencies}
use dalec_homebrew.MetadataCatalog.{missing_dependency, Migration, Catalog}
use dalec_homebrew.MetadataCatalog.Migrations.{resolve_all}
use dalec_homebrew.MetadataCatalog.Build.{
  Claimed, empty_catalog, claim_index, add_canonical, index_formulae, canonicalize_dependencies,
  check_present, is_linux_tag, check_variations, check_formulae, validate_dependencies,
  has_identity, with_taken, accept_migrations, finish_catalog, build_catalog,
}

-- All names have a Formula.
abbrev pub AllPresent : Map Formula → List Bytes → Type 0
AllPresent canonical names = All (λ d. has d canonical ≡ true) names

pub check_present-AllPresent :
    (canonical : Map Formula) (ds : List Bytes)
    → check_present canonical ds ≡ ok tt
    → AllPresent canonical ds
unfolding check_present
check_present-AllPresent canonical [] h = tt
check_present-AllPresent canonical (d ∷ ds) h =
    let (a, h1) = fail_if-eq-ok (not (has d canonical)) missing_dependency _ h in
    (ground (arith, a), check_present-AllPresent canonical ds h1)

AllPresent-if :
    (canonical : Map Formula) (b : Bool) (xs ys : List Bytes)
    → AllPresent canonical xs
    → AllPresent canonical ys
    → AllPresent canonical (if b then xs else ys)
AllPresent-if canonical true xs ys h k = h
AllPresent-if canonical false xs ys h k = k

check_variations-AllPresent :
    (canonical : Map Formula) (vs : List Variation) (tags out : Map Unit) (tag : Bytes)
    (own : List Bytes)
    → check_variations canonical vs tags ≡ ok out
    → is_linux_tag tag ≡ true
    → AllPresent canonical own
    → AllPresent canonical (overridden_dependencies tag vs own)
unfolding check_variations overridden_dependencies
check_variations-AllPresent canonical [] tags out tag own h linux a = a
check_variations-AllPresent canonical (v ∷ vs) tags out tag own h linux a =
    elim (Bool-cases (is_linux_tag v.tag)) [
      | inr e ↦
          let other : str_eq v.tag tag ≡ false = ground (arith, e, linux, str_eq_iff v.tag tag) in
          rw other (
            check_variations-AllPresent canonical vs tags out tag own (ground (arith, h, e)) linux
              a)
      | inl e ↦
          let overriding = if v.overrides_dependencies then v.dependencies else [] in
          let opened : (check_present canonical overriding >>= λ _.
          check_variations canonical vs (put v.tag tt tags))
              ≡ ok out =
            ground (arith, h, e) in
          let (x, h1, h2) = bind-eq-ok (check_present canonical overriding) _ opened in
          let rest =
            check_variations-AllPresent canonical vs (put v.tag tt tags) out tag own h2 linux a in
          let found = check_present-AllPresent canonical overriding h1 in
          elim (Bool-cases v.overrides_dependencies) [
            | inl o ↦
                AllPresent-if canonical (str_eq v.tag tag && v.overrides_dependencies)
                  v.dependencies _
                  (subst (λ b. AllPresent canonical (if b then v.dependencies else [])) o found)
                  rest
            | inr o ↦
                let own_only : (str_eq v.tag tag && v.overrides_dependencies) ≡ false =
                  ground (arith, o) in
                rw own_only rest
          ]
    ]

-- What was checked for one of the names.
pub check_formulae-at :
    (canonical : Map Formula) (names : List Bytes) (tags out : Map Unit) (name : Bytes)
    (f : Formula)
    → check_formulae canonical names tags ≡ ok out
    → In name names
    → lookup name canonical ≡ some f
    → (before : Map Unit) × (after : Map Unit) × (check_present canonical f.dependencies ≡ ok tt)
      × (check_variations canonical f.variations before ≡ ok after)
unfolding check_formulae
check_formulae-at canonical [] tags out name f h m k = absurd m
check_formulae-at canonical (n ∷ names) tags out name f h m k =
    elim (Option-cases (lookup n canonical)) [
      | inl e ↦ elim m [
        | inl same ↦ absurd (ground (arith, same, e, k))
        | inr rest ↦ check_formulae-at canonical names tags out name f (ground (arith, h, e)) rest k
      ]
      | inr (g, e) ↦
          let opened : (check_present canonical g.dependencies >>= λ _.
          check_variations canonical g.variations tags >>= λ later.
          check_formulae canonical names later)
              ≡ ok out =
            ground (arith, h, e) in
          let (x, h1, h2) = bind-eq-ok (check_present canonical g.dependencies) _ opened in
          let (later, h3, h4) = bind-eq-ok (check_variations canonical g.variations tags) _ h2 in
          elim m [
            | inr rest ↦ check_formulae-at canonical names later out name f h4 rest k
            | inl same ↦
                let equal : g ≡ f = ground (arith, same, e, k) in
                (
                  tags,
                  later,
                  subst (λ x. check_present canonical x.dependencies ≡ ok tt) equal h1,
                  subst (λ x. check_variations canonical x.variations tags ≡ ok later) equal h3,
                )
          ]
    ]

pub check_formulae-AllPresent :
    (canonical : Map Formula) (names : List Bytes) (tags out : Map Unit) (tag name : Bytes)
    (f : Formula)
    → check_formulae canonical names tags ≡ ok out
    → is_linux_tag tag ≡ true
    → In name names
    → lookup name canonical ≡ some f
    → AllPresent canonical (dependencies_for f tag)
unfolding dependencies_for
check_formulae-AllPresent canonical names tags out tag name f h linux m k =
    let (before, after, own, varied) = check_formulae-at canonical names tags out name f h m k in
    check_variations-AllPresent canonical f.variations before after tag f.dependencies varied linux
      (check_present-AllPresent canonical f.dependencies own)

pub accept_migrations-same :
    (ms : List Migration) (claimed : Claimed) (c d : Catalog) (names : List Bytes)
    → accept_migrations ms claimed c ≡ ok (names, d)
    → (d.canonical ≡ c.canonical) × (d.canonical_names ≡ c.canonical_names)
unfolding accept_migrations
accept_migrations-same [] claimed c d names h = ground (arith, h)
accept_migrations-same (m ∷ ms) claimed c d names h =
    elim (Bool-cases (m.in_core && str_eq m.target_name m.name)) [
      | inl e ↦ elim (Bool-cases (has_identity c m.name)) [
        | inl k ↦ accept_migrations-same ms claimed c d names (ground (arith, h, e, k))
        | inr k ↦ absurd (ground (arith, h, e, k))
      ]
      | inr e ↦
          let opened : (claim_index m.name claimed >>= λ later.
          accept_migrations ms later (record c { migrations = put m.name m c.migrations }) >>= λ r.
          ok (with_taken m.name r))
              ≡ ok (names, d) =
            ground (arith, h, e) in
          let (later, h1, h2) = bind-eq-ok (claim_index m.name claimed) _ opened in
          let ((taken, b), h3, h4) =
            bind-eq-ok
              (accept_migrations ms later (record c { migrations = put m.name m c.migrations })) _
              h2 in
          let same : b ≡ d = ground (arith, h4) in
          subst (λ x. (x.canonical ≡ c.canonical) × (x.canonical_names ≡ c.canonical_names)) same
            (accept_migrations-same ms later (record c { migrations = put m.name m c.migrations }) b
              taken h3)
    ]

-- The dependencies of a Formula under one of the canonical names are names with a Formula.
pub listed-AllPresent :
    (fs : List Formula) (ms : List Migration) (c : Catalog) (name tag : Bytes) (f : Formula)
    → build_catalog fs ms ≡ ok c
    → In name c.canonical_names
    → lookup name c.canonical ≡ some f
    → is_linux_tag tag ≡ true
    → AllPresent c.canonical (dependencies_for f tag)
unfolding build_catalog finish_catalog validate_dependencies
listed-AllPresent fs ms c name tag f h m k linux =
    let ((claimed, a), h1, h2) = bind-eq-ok (add_canonical fs [] empty_catalog) _ h in
    let ((later, b), h3, h4) = bind-eq-ok (index_formulae a.canonical_names claimed a) _ h2 in
    let (d, h5, h6) = bind-eq-ok (canonicalize_dependencies b.canonical_names b) _ h4 in
    let (x, h7, h8) = bind-eq-ok (validate_dependencies d) _ h6 in
    let ((names, e), h9, h10) = bind-eq-ok (accept_migrations ms later d) _ h8 in
    let (resolved, h11, h12) =
      bind-eq-ok (resolve_all (suc (length e.migrations)) e names []) _ h10 in
    let (tags, h13, h14) =
      bind-eq-ok (check_formulae d.canonical d.canonical_names (([], tt) ∷ [])) _ h7 in
    let (formulae, listed) = accept_migrations-same ms later d e names h9 in
    let same : c.canonical ≡ d.canonical = ground (arith, h12, formulae) in
    let same_names : c.canonical_names ≡ d.canonical_names = ground (arith, h12, listed) in
    rw same (
      check_formulae-AllPresent d.canonical d.canonical_names (([], tt) ∷ []) tags tag name f h13
        linux (subst (In name) same_names m) (subst (λ x. lookup name x ≡ some f) same k))
