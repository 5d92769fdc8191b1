-- ===== src/MetadataCatalog/Build/Named.antt =====
-- In a built index every Formula stands under its own name.
use dalec_homebrew.Prelude.{
  suc, List, [], ◌∷◌, ◌++◌, some, ok, ◌>>=◌, ◌≡◌, ◌∙◌, refl, sym, ap, inl, inr, arith, bind-eq-ok,
  Bool-cases, Option-cases, length,
}
use mathlib.Core.Path.{subst}
use dalec_homebrew.GoString.{Bytes, str_eq, str_eq_iff}
use dalec_homebrew.GoMap.{Map, lookup, put, has, lookup-put}
use dalec_homebrew.Metadata.{Formula}
use dalec_homebrew.MetadataCatalog.{Migration, Catalog}
use dalec_homebrew.MetadataCatalog.Migrations.{resolve_all}
use dalec_homebrew.MetadataCatalog.Build.{
  Claimed, empty_catalog, add_canonical, index_formulae, resolve_dependencies,
  canonicalize_variations, canonicalize_formula, canonicalize_dependencies, validate_dependencies,
  accept_migrations, finish_catalog, build_catalog,
}
use dalec_homebrew.MetadataCatalog.Build.Closed.{accept_migrations-same}
use dalec_homebrew.MetadataCatalog.Build.Listed.{index_formulae_names}

abbrev pub IsNamed : Map Formula → Type 0
IsNamed canonical = (name : Bytes) (f : Formula) → lookup name canonical ≡ some f → f.name ≡ name

put-IsNamed :
    (f : Formula) (name : Bytes) (canonical : Map Formula)
    → f.name ≡ name
    → IsNamed canonical
    → IsNamed (put name f canonical)
put-IsNamed f name canonical e h other g k = elim (Bool-cases (str_eq name other)) [
  | inl same ↦
      let equal : f ≡ g = ground (arith, k, lookup-put other name f canonical, same) in
      ap (λ x. x.name) (sym equal) ∙ e ∙ (str_eq_iff name other).0 same
  | inr differs ↦ h other g (ground (arith, k, lookup-put other name f canonical, differs))
]

add_canonical-IsNamed :
    (fs : List Formula) (claimed later : Claimed) (c d : Catalog)
    → add_canonical fs claimed c ≡ ok (later, d)
    → IsNamed c.canonical
    → IsNamed d.canonical
unfolding add_canonical
add_canonical-IsNamed [] claimed later c d h a =
    let same : c.canonical ≡ d.canonical = ground (arith, h) in subst IsNamed same a
add_canonical-IsNamed (f ∷ fs) claimed later c d h a = elim (Bool-cases (has f.name claimed)) [
  | inl e ↦ absurd (ground (arith, h, e))
  | inr e ↦
      let next : Catalog = record c {
        canonical = put f.name f c.canonical;
        canonical_names = c.canonical_names ++ f.name ∷ [];
      } in
      add_canonical-IsNamed fs (put f.name tt claimed) later next d (ground (arith, h, e))
        (put-IsNamed f f.name c.canonical refl a)
]

canonicalize_formula-name :
    (c : Catalog) (f g : Formula) → canonicalize_formula c f ≡ ok g → g.name ≡ f.name
unfolding canonicalize_formula
canonicalize_formula-name c f g h =
    let (ds, h1, h2) = bind-eq-ok (resolve_dependencies c f.dependencies) _ h in
    let (vs, h3, h4) = bind-eq-ok (canonicalize_variations c f.variations) _ h2 in
    ground (arith, h4)

canonicalize_dependencies-IsNamed :
    (names : List Bytes) (c d : Catalog)
    → canonicalize_dependencies names c ≡ ok d
    → IsNamed c.canonical
    → IsNamed d.canonical
unfolding canonicalize_dependencies
canonicalize_dependencies-IsNamed [] c d h a =
    let same : c ≡ d = ground (arith, h) in subst (λ x. IsNamed x.canonical) same a
canonicalize_dependencies-IsNamed (name ∷ names) c d h a =
    elim (Option-cases (lookup name c.canonical)) [
      | inl e ↦ canonicalize_dependencies-IsNamed names c d (ground (arith, h, e)) a
      | inr (f, e) ↦
          let opened : (canonicalize_formula c f >>= λ g.
          canonicalize_dependencies names (record c { canonical = put name g c.canonical }))
              ≡ ok d =
            ground (arith, h, e) in
          let (g, h1, h2) = bind-eq-ok (canonicalize_formula c f) _ opened in
          canonicalize_dependencies-IsNamed names (record c { canonical = put name g c.canonical })
            d h2
            (put-IsNamed g name c.canonical (canonicalize_formula-name c f g h1 ∙ a name f e) a)
    ]

-- In a built index every Formula stands under its own name.
pub build_catalog-IsNamed :
    (fs : List Formula) (ms : List Migration) (c : Catalog)
    → build_catalog fs ms ≡ ok c
    → IsNamed c.canonical
unfolding build_catalog finish_catalog
build_catalog-IsNamed fs ms c h =
    let ((claimed, a), h1, h2) = bind-eq-ok (add_canonical fs [] empty_catalog) _ h in
    let ((later, b), h3, h4) = bind-eq-ok (index_formulae a.canonical_names claimed a) _ h2 in
    let (d, h5, h6) = bind-eq-ok (canonicalize_dependencies b.canonical_names b) _ h4 in
    let (x, h7, h8) = bind-eq-ok (validate_dependencies d) _ h6 in
    let ((names, e), h9, h10) = bind-eq-ok (accept_migrations ms later d) _ h8 in
    let (resolved, h11, h12) =
      bind-eq-ok (resolve_all (suc (length e.migrations)) e names []) _ h10 in
    let start : IsNamed a.canonical =
      add_canonical-IsNamed fs [] claimed empty_catalog a h1
        (λ name f k. unfold lookup in absurd (ground (arith, k))) in
    let indexed : IsNamed b.canonical =
      subst IsNamed (sym (index_formulae_names a.canonical_names claimed later a b h3).0) start in
    let same : d.canonical ≡ c.canonical =
      ground (arith, h12, (accept_migrations-same ms later d e names h9).0) in
    subst IsNamed same (canonicalize_dependencies-IsNamed b.canonical_names b d h5 indexed)
