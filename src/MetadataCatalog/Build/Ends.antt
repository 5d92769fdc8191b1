-- ===== src/MetadataCatalog/Build/Ends.antt =====
-- buildCatalog returns: its walks for cycles and for migrations have enough fuel.
use dalec_homebrew.Prelude.{
  suc, ◌≡◌, ◌≢◌, ◌⊎◌, inl, inr, refl, sym, ap, true, List, [], ◌∷◌, some, ok, err, ◌>>=◌,
  if◌then◌else◌, In, All, All-In, arith, Bool-cases, Option-cases, Result-cases, bind-eq-ok, map,
  length,
}
use mathlib.Core.Path.{subst}
use dalec_homebrew.GoString.{Bytes, str_eq, str_eq_iff}
use dalec_homebrew.GoMap.{Map, lookup, put, has}
use dalec_homebrew.Metadata.{Formula, Variation, dependencies_for}
use dalec_homebrew.Resolver.Settle.{sorted_names}
use dalec_homebrew.Resolver.Topo.{cycle, out_of_fuel, topo_order}
use dalec_homebrew.Resolver.Topo.Total.{Ordered, topo_order-Ordered}
use dalec_homebrew.MetadataCatalog.{walk_out_of_fuel, Migration, Catalog}
use dalec_homebrew.MetadataCatalog.Migrations.{resolve_all}
use dalec_homebrew.MetadataCatalog.Migrations.Ends.{
  IsReturned, IsReturned-bind, resolve_all-IsReturned,
}
use dalec_homebrew.MetadataCatalog.Build.{
  Claimed, empty_catalog, add_canonical, index_formulae, canonicalize_dependencies, check_present,
  is_linux_tag, check_variations, check_formulae, tag_dependencies, validate_dependency_cycles,
  validate_tags, validate_dependencies, accept_migrations, finish_catalog, build_catalog,
}
use dalec_homebrew.MetadataCatalog.Build.Closed.{
  check_present-AllPresent, check_formulae-at, check_formulae-AllPresent,
}
use dalec_homebrew.MetadataCatalog.Build.Listed.{
  IsListed, add_canonical-IsListed, index_formulae_names, canonicalize_dependencies-IsListed,
}
use dalec_homebrew.MetadataCatalog.Build.Present.{
  NamesPresent, add_canonical-NamesPresent, canonicalize_dependencies-NamesPresent, In-keys,
  sorted_names-All,
}
use dalec_homebrew.MetadataCatalog.Build.Returned.{
  add_canonical-IsReturned, index_formulae-IsReturned, canonicalize_dependencies-IsReturned,
  check_formulae-IsReturned, accept_migrations-IsReturned,
}

-- The tags of the walks.
abbrev IsWalkTag : Bytes → Type 0
IsWalkTag tag = (tag ≡ []) ⊎ (is_linux_tag tag ≡ true)

abbrev WalkTags : Map Unit → Type 0
WalkTags tags = All (λ t. IsWalkTag t.0) tags

put-WalkTags :
    (tag : Bytes) (tags : Map Unit) → IsWalkTag tag → WalkTags tags → WalkTags (put tag tt tags)
unfolding put
put-WalkTags tag [] h a = (h, tt)
put-WalkTags tag ((j, x) ∷ tags) h a = elim (Bool-cases (str_eq j tag)) [
  | inl e ↦ rw e a
  | inr e ↦ rw e (a.0, put-WalkTags tag tags h a.1)
]

check_variations-WalkTags :
    (canonical : Map Formula) (vs : List Variation) (tags out : Map Unit)
    → check_variations canonical vs tags ≡ ok out
    → WalkTags tags
    → WalkTags out
unfolding check_variations
check_variations-WalkTags canonical [] tags out h a =
    let same : tags ≡ out = ground (arith, h) in subst WalkTags same a
check_variations-WalkTags canonical (v ∷ vs) tags out h a = elim (Bool-cases (is_linux_tag v.tag)) [
  | inr e ↦ check_variations-WalkTags canonical vs tags out (ground (arith, h, e)) a
  | inl e ↦
      let overriding = if v.overrides_dependencies then v.dependencies else [] in
      let opened : (check_present canonical overriding >>= λ _.
      check_variations canonical vs (put v.tag tt tags))
          ≡ ok out =
        ground (arith, h, e) in
      let (x, h1, h2) = bind-eq-ok (check_present canonical overriding) _ opened in
      check_variations-WalkTags canonical vs (put v.tag tt tags) out h2
        (put-WalkTags v.tag tags (inr e) a)
]

check_formulae-WalkTags :
    (canonical : Map Formula) (names : List Bytes) (tags out : Map Unit)
    → check_formulae canonical names tags ≡ ok out
    → WalkTags tags
    → WalkTags out
unfolding check_formulae
check_formulae-WalkTags canonical [] tags out h a =
    let same : tags ≡ out = ground (arith, h) in subst WalkTags same a
check_formulae-WalkTags canonical (name ∷ names) tags out h a =
    elim (Option-cases (lookup name canonical)) [
      | inl e ↦ check_formulae-WalkTags canonical names tags out (ground (arith, h, e)) a
      | inr (f, e) ↦
          let opened : (check_present canonical f.dependencies >>= λ _.
          check_variations canonical f.variations tags >>= λ later.
          check_formulae canonical names later)
              ≡ ok out =
            ground (arith, h, e) in
          let (x, h1, h2) = bind-eq-ok (check_present canonical f.dependencies) _ opened in
          let (later, h3, h4) = bind-eq-ok (check_variations canonical f.variations tags) _ h2 in
          check_formulae-WalkTags canonical names later out h4
            (check_variations-WalkTags canonical f.variations tags later h3 a)
    ]

-- The keys of the index are closed under the dependencies that a walk sees.
tag_dependencies-closed :
    (c : Catalog) (out : Map Unit) (tag m n : Bytes)
    → IsListed c
    → check_formulae c.canonical c.canonical_names (([], tt) ∷ []) ≡ ok out
    → IsWalkTag tag
    → In n (tag_dependencies c.canonical tag m)
    → In n (map (λ e. e.0) c.canonical)
unfolding tag_dependencies
tag_dependencies-closed c out tag m n listed h t i = elim (Option-cases (lookup m c.canonical)) [
  | inl e ↦
      let none_there : tag_dependencies c.canonical tag m ≡ [] = rw (e, tag_dependencies) refl in
      absurd (subst (In n) none_there i)
  | inr (f, e) ↦
      let member = listed m f e in
      elim (Bool-cases (str_eq tag [])) [
        | inl k ↦
            let (before, after, own, varied) =
              check_formulae-at c.canonical c.canonical_names (([], tt) ∷ []) out m f h member e in
            let base : tag_dependencies c.canonical tag m ≡ f.dependencies =
              rw (e, tag_dependencies, k) refl in
            let inside : In n f.dependencies = subst (In n) base i in
            In-keys n c.canonical (
              All-In (λ d. has d c.canonical ≡ true) n f.dependencies
                (check_present-AllPresent c.canonical f.dependencies own) inside)
        | inr k ↦
            let linux : is_linux_tag tag ≡ true = elim t [
              | inl q ↦ absurd (ground (arith, q, k, str_eq_iff tag []))
              | inr q ↦ q
            ] in
            let varied : tag_dependencies c.canonical tag m ≡ dependencies_for f tag =
              rw (e, tag_dependencies, k) refl in
            let inside : In n (dependencies_for f tag) = subst (In n) varied i in
            In-keys n c.canonical (
              All-In (λ d. has d c.canonical ≡ true) n (dependencies_for f tag)
                (check_formulae-AllPresent c.canonical c.canonical_names (([], tt) ∷ []) out tag m f
                  h linux member e)
                inside)
      ]
]

length-keys : (canonical : Map Formula) → length (map (λ e. e.0) canonical) ≡ length canonical
length-keys [] = refl
length-keys (e ∷ canonical) = ap suc (length-keys canonical)

validate_dependency_cycles-IsReturned :
    (c : Catalog) (out : Map Unit) (tag : Bytes)
    → IsListed c
    → NamesPresent c
    → check_formulae c.canonical c.canonical_names (([], tt) ∷ []) ≡ ok out
    → IsWalkTag tag
    → IsReturned (validate_dependency_cycles c tag)
unfolding validate_dependency_cycles
validate_dependency_cycles-IsReturned c out tag listed present h t =
    let deps = tag_dependencies c.canonical tag in
    let keys = map (λ e. e.0) c.canonical in
    let closed : (m n : Bytes) → In m keys → In n (deps m) → In n keys =
      λ m n x i. tag_dependencies-closed c out tag m n listed h t i in
    let walked =
      topo_order-Ordered deps keys closed (suc (length c.canonical)) c.canonical_names
        (omega (arith, length-keys c.canonical))
        (λ r i.
          In-keys r c.canonical
            (All-In (λ d. has d c.canonical ≡ true) r c.canonical_names present i)) in
    elim (Result-cases (topo_order deps (suc (length c.canonical)) c.canonical_names)) [
      | inl (order, e) ↦ rw (e, validate_dependency_cycles) tt
      | inr (cycle path, e) ↦ rw (e, validate_dependency_cycles) tt
      | inr (out_of_fuel, e) ↦ absurd (subst (Ordered deps keys closed c.canonical_names) e walked)
    ]

validate_tags-IsReturned :
    (c : Catalog) (out : Map Unit) (tags : List Bytes)
    → IsListed c
    → NamesPresent c
    → check_formulae c.canonical c.canonical_names (([], tt) ∷ []) ≡ ok out
    → All IsWalkTag tags
    → IsReturned (validate_tags c tags)
unfolding validate_tags
validate_tags-IsReturned c out [] listed present h a = tt
validate_tags-IsReturned c out (tag ∷ tags) listed present h a =
    IsReturned-bind (validate_dependency_cycles c tag) _
      (validate_dependency_cycles-IsReturned c out tag listed present h a.0)
      (λ x y. validate_tags-IsReturned c out tags listed present h a.1)

WalkTags-keys : (tags : Map Unit) → WalkTags tags → All IsWalkTag (map (λ t. t.0) tags)
WalkTags-keys [] a = tt
WalkTags-keys (t ∷ tags) a = (a.0, WalkTags-keys tags a.1)

validate_dependencies-IsReturned :
    (c : Catalog) → IsListed c → NamesPresent c → IsReturned (validate_dependencies c)
unfolding validate_dependencies
validate_dependencies-IsReturned c listed present =
    IsReturned-bind (check_formulae c.canonical c.canonical_names (([], tt) ∷ [])) _
      (check_formulae-IsReturned c.canonical c.canonical_names (([], tt) ∷ []))
      (λ tags h.
        validate_tags-IsReturned c tags (sorted_names (map (λ t. t.0) tags)) listed present h (
          sorted_names-All IsWalkTag (map (λ t. t.0) tags) (
            WalkTags-keys tags (
              check_formulae-WalkTags c.canonical c.canonical_names (([], tt) ∷ []) tags h
                (inl refl, tt)))))

finish_catalog-IsReturned :
    (ms : List Migration) (claimed : Claimed) (c : Catalog)
    → IsListed c
    → NamesPresent c
    → IsReturned (finish_catalog ms claimed c)
unfolding finish_catalog
finish_catalog-IsReturned ms claimed c listed present =
    IsReturned-bind (canonicalize_dependencies c.canonical_names c) _
      (canonicalize_dependencies-IsReturned c.canonical_names c)
      (λ d h.
        IsReturned-bind (validate_dependencies d) _
          (validate_dependencies-IsReturned d
            (canonicalize_dependencies-IsListed c.canonical_names c d h listed)
            (canonicalize_dependencies-NamesPresent c.canonical_names c d h present))
          (λ x k.
            IsReturned-bind (accept_migrations ms claimed d) _
              (accept_migrations-IsReturned ms claimed d)
              (λ r q.
                IsReturned-bind (resolve_all (suc (length r.1.migrations)) r.1 r.0 []) _
                  (resolve_all-IsReturned r.1 r.0 []) (λ resolved z. tt))))

-- `buildCatalog` returns an index or an error, whatever the Formulae and the migrations: the fuel of
-- its recursions is enough.
pub build_catalog-ends :
    (fs : List Formula) (ms : List Migration) → build_catalog fs ms ≢ err walk_out_of_fuel
unfolding build_catalog
build_catalog-ends fs ms e =
    let returned : IsReturned (build_catalog fs ms) =
      IsReturned-bind (add_canonical fs [] empty_catalog) _
        (add_canonical-IsReturned fs [] empty_catalog)
        (λ r h.
          IsReturned-bind (index_formulae r.1.canonical_names r.0 r.1) _
            (index_formulae-IsReturned r.1.canonical_names r.0 r.1)
            (λ q k.
              let listed : IsListed r.1 =
                add_canonical-IsListed fs [] r.0 empty_catalog r.1 h
                  (λ name f x. unfold lookup in absurd (ground (arith, x))) in
              let present : NamesPresent r.1 =
                add_canonical-NamesPresent fs [] r.0 empty_catalog r.1 h tt in
              let (formulae, names) = index_formulae_names r.1.canonical_names r.0 q.0 r.1 q.1 k in
              finish_catalog-IsReturned ms q.0 q.1
                (λ name f x.
                  subst (In name) (sym names)
                    (listed name f (subst (λ y. lookup name y ≡ some f) formulae x)))
                (rw (formulae, names) present))) in
    subst IsReturned e returned
