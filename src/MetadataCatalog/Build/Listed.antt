-- ===== src/MetadataCatalog/Build/Listed.antt =====
-- In a built index every Formula's name is among the canonical names, over which the loops run.
use dalec_homebrew.Prelude.{
  suc, true, List, [], ◌∷◌, ◌++◌, some, ok, ◌>>=◌, ◌≡◌, ◌⊎◌, sym, ◌∙◌, inl, inr, arith, In,
  In-append, bind-eq-ok, Bool-cases, Option-cases, length,
}
use mathlib.Core.Path.{subst}
use Prim.Native.Nat.{Ordering}
use dalec_homebrew.GoString.{Bytes, str_eq, str_eq_iff}
use dalec_homebrew.GoMap.{lookup, put, has, lookup-put}
use dalec_homebrew.Version.{str_compare}
use dalec_homebrew.Metadata.{Formula, dependencies_for}
use dalec_homebrew.Resolver.Settle.{insert_name, sorted_names}
use dalec_homebrew.MetadataCatalog.{Migration, Catalog}
use dalec_homebrew.MetadataCatalog.Migrations.{resolve_all}
use dalec_homebrew.MetadataCatalog.Build.{
  Claimed, is_linux_tag, empty_catalog, check_versioned, add_canonical, index_names, index_formula,
  index_formulae, canonicalize_formula, canonicalize_dependencies, validate_dependencies,
  accept_migrations, finish_catalog, build_catalog,
}
use dalec_homebrew.MetadataCatalog.Build.Closed.{
  AllPresent, accept_migrations-same, listed-AllPresent,
}

abbrev pub IsListed : Catalog → Type 0
IsListed c =
    (name : Bytes) (f : Formula) → lookup name c.canonical ≡ some f → In name c.canonical_names

In-insert_name : (a n : Bytes) (ns : List Bytes) → (n ≡ a) ⊎ In a ns → In a (insert_name n ns)
unfolding insert_name
In-insert_name a n [] h = h
In-insert_name a n (m ∷ ns) h =
    elim (str_compare n m)
      as (λ o. In a (elim o [ Ordering.gt ↦ m ∷ insert_name n ns | _ ↦ n ∷ m ∷ ns ])) [
        | Ordering.gt ↦ elim h [
          | inl e ↦ inr (In-insert_name a n ns (inl e))
          | inr k ↦ elim k [ inl e ↦ inl e | inr r ↦ inr (In-insert_name a n ns (inr r)) ]
        ]
        | Ordering.lt ↦ h
        | Ordering.eq ↦ h
      ]

pub In-sorted_names : (a : Bytes) (ns : List Bytes) → In a ns → In a (sorted_names ns)
unfolding sorted_names
In-sorted_names a [] h = h
In-sorted_names a (n ∷ ns) (inl e) = In-insert_name a n (sorted_names ns) (inl e)
In-sorted_names a (n ∷ ns) (inr m) =
    In-insert_name a n (sorted_names ns) (inr (In-sorted_names a ns m))

pub add_canonical-IsListed :
    (fs : List Formula) (claimed later : Claimed) (c d : Catalog)
    → add_canonical fs claimed c ≡ ok (later, d)
    → IsListed c
    → IsListed d
unfolding add_canonical
add_canonical-IsListed [] claimed later c d h a =
    let same : c.canonical ≡ d.canonical = ground (arith, h) in
    let names : sorted_names c.canonical_names ≡ d.canonical_names = ground (arith, h) in
    λ name f k. subst (In name) names (
      In-sorted_names name c.canonical_names
        (a name f (subst (λ x. lookup name x ≡ some f) (sym same) k)))
add_canonical-IsListed (f ∷ fs) claimed later c d h a = elim (Bool-cases (has f.name claimed)) [
  | inl e ↦ absurd (ground (arith, h, e))
  | inr e ↦
      let next : Catalog = record c {
        canonical = put f.name f c.canonical;
        canonical_names = c.canonical_names ++ f.name ∷ [];
      } in
      add_canonical-IsListed fs (put f.name tt claimed) later next d (ground (arith, h, e))
        (λ name g k. elim (Bool-cases (str_eq f.name name)) [
          | inl same ↦
              (In-append name c.canonical_names (f.name ∷ [])).1
                (inr (inl ((str_eq_iff f.name name).0 same)))
          | inr differs ↦
              (In-append name c.canonical_names (f.name ∷ [])).1
                (inl (a name g (ground (arith, k, lookup-put name f.name f c.canonical, differs))))
        ])
]

index_formula_names :
    (name : Bytes) (f : Formula) (claimed later : Claimed) (c d : Catalog)
    → index_formula name f claimed c ≡ ok (later, d)
    → (d.canonical ≡ c.canonical) × (d.canonical_names ≡ c.canonical_names)
unfolding index_formula
index_formula_names name f claimed later c d h =
    let (x, h1, h2) = bind-eq-ok (check_versioned name c.canonical f.versioned_formulae) _ h in
    let ((aliased, aliases), h3, h4) =
      bind-eq-ok (index_names name f.aliases claimed c.aliases) _ h2 in
    let ((named, old_names), h5, h6) =
      bind-eq-ok (index_names name f.old_names aliased c.old_names) _ h4 in
    ground (arith, h6)

pub index_formulae_names :
    (names : List Bytes) (claimed later : Claimed) (c d : Catalog)
    → index_formulae names claimed c ≡ ok (later, d)
    → (d.canonical ≡ c.canonical) × (d.canonical_names ≡ c.canonical_names)
unfolding index_formulae
index_formulae_names [] claimed later c d h = ground (arith, h)
index_formulae_names (name ∷ names) claimed later c d h =
    elim (Option-cases (lookup name c.canonical)) [
      | inl e ↦ index_formulae_names names claimed later c d (ground (arith, h, e))
      | inr (f, e) ↦
          let opened : (index_formula name f claimed c >>= λ r. index_formulae names r.0 r.1)
              ≡ ok (later, d) =
            ground (arith, h, e) in
          let ((between, b), h1, h2) = bind-eq-ok (index_formula name f claimed c) _ opened in
          let (x, y) = index_formulae_names names between later b d h2 in
          let (x1, y1) = index_formula_names name f claimed between c b h1 in (x ∙ x1, y ∙ y1)
    ]

pub canonicalize_dependencies-IsListed :
    (names : List Bytes) (c d : Catalog)
    → canonicalize_dependencies names c ≡ ok d
    → IsListed c
    → IsListed d
unfolding canonicalize_dependencies
canonicalize_dependencies-IsListed [] c d h a =
    let same : c ≡ d = ground (arith, h) in subst IsListed same a
canonicalize_dependencies-IsListed (name ∷ names) c d h a =
    elim (Option-cases (lookup name c.canonical)) [
      | inl e ↦ canonicalize_dependencies-IsListed names c d (ground (arith, h, e)) a
      | inr (f, e) ↦
          let opened : (canonicalize_formula c f >>= λ g.
          canonicalize_dependencies names (record c { canonical = put name g c.canonical }))
              ≡ ok d =
            ground (arith, h, e) in
          let (g, h1, h2) = bind-eq-ok (canonicalize_formula c f) _ opened in
          canonicalize_dependencies-IsListed names (record c { canonical = put name g c.canonical })
            d h2
            (λ other x k. elim (Bool-cases (str_eq name other)) [
              | inl same ↦
                  subst (λ y. In y c.canonical_names) ((str_eq_iff name other).0 same) (a name f e)
              | inr differs ↦
                  a other x (ground (arith, k, lookup-put other name g c.canonical, differs))
            ])
    ]

pub build_catalog-IsListed :
    (fs : List Formula) (ms : List Migration) (c : Catalog)
    → build_catalog fs ms ≡ ok c
    → IsListed c
unfolding build_catalog finish_catalog
build_catalog-IsListed fs ms c h =
    let ((claimed, a), h1, h2) = bind-eq-ok (add_canonical fs [] empty_catalog) _ h in
    let ((later, b), h3, h4) = bind-eq-ok (index_formulae a.canonical_names claimed a) _ h2 in
    let (d, h5, h6) = bind-eq-ok (canonicalize_dependencies b.canonical_names b) _ h4 in
    let (x, h7, h8) = bind-eq-ok (validate_dependencies d) _ h6 in
    let ((names, e), h9, h10) = bind-eq-ok (accept_migrations ms later d) _ h8 in
    let (resolved, h11, h12) =
      bind-eq-ok (resolve_all (suc (length e.migrations)) e names []) _ h10 in
    let start : IsListed a =
      add_canonical-IsListed fs [] claimed empty_catalog a h1
        (λ name f k. unfold lookup in absurd (ground (arith, k))) in
    let (formulae, listed) = index_formulae_names a.canonical_names claimed later a b h3 in
    let (taken, kept) = accept_migrations-same ms later d e names h9 in
    let indexed : IsListed b = λ name f k.
      subst (In name) (sym listed)
        (start name f (subst (λ y. lookup name y ≡ some f) formulae k)) in
    let canonical : IsListed d =
      canonicalize_dependencies-IsListed b.canonical_names b d h5 indexed in
    let same : c.canonical ≡ d.canonical = ground (arith, h12, taken) in
    let same_names : c.canonical_names ≡ d.canonical_names = ground (arith, h12, kept) in
    λ name f k.
      subst (In name) (sym same_names)
        (canonical name f (subst (λ y. lookup name y ≡ some f) same k))

-- In a built index, the dependencies of a Formula for either Linux tag are names with a Formula.
pub build_catalog-AllPresent :
    (fs : List Formula) (ms : List Migration) (c : Catalog) (name tag : Bytes) (f : Formula)
    → build_catalog fs ms ≡ ok c
    → lookup name c.canonical ≡ some f
    → is_linux_tag tag ≡ true
    → AllPresent c.canonical (dependencies_for f tag)
build_catalog-AllPresent fs ms c name tag f h k linux =
    listed-AllPresent fs ms c name tag f h (build_catalog-IsListed fs ms c h name f k) k linux
