-- ===== src/Resolver/Closure/Indexed.antt =====
-- The walk of `Resolve` over an index that buildCatalog made.
use dalec_homebrew.Prelude.{
  ℕ, zero, suc, ◌≡◌, ◌≢◌, inl, inr, List, [], ◌∷◌, Result, ok, err, arith, true, false, some,
  Option-cases, Bool-cases, Result-cases, fail_if, not, ◌||◌, map_err,
}
use mathlib.Core.Path.{subst}
use dalec_homebrew.GoString.{Bytes, lit, str_eq, str_eq_iff}
use dalec_homebrew.GoString.Unicode.{Unicode}
use dalec_homebrew.GoMap.{Map, lookup, has}
use dalec_homebrew.Metadata.{Formula, Match, dependencies_for, formula_pkg_version}
use dalec_homebrew.MetadataCatalog.{Catalog, Migration}
use dalec_homebrew.MetadataCatalog.Build.{build_catalog}
use dalec_homebrew.MetadataCatalog.Build.Closed.{AllPresent}
use dalec_homebrew.MetadataCatalog.Build.Listed.{build_catalog-AllPresent}
use dalec_homebrew.MetadataCatalog.Build.Named.{IsNamed, build_catalog-IsNamed}
use dalec_homebrew.MetadataCatalog.Lookup.{LookupError, lookup_name}
use dalec_homebrew.MetadataCatalog.Lookup.Matches.{lookup_name-canonical, lookup_name-IsExplicit}
use dalec_homebrew.Oci.Reference
use dalec_homebrew.Resolver.Requirements.{Requirement, validate_runtime_compatibility}
use dalec_homebrew.Resolver.Types.{
  Platform, Search, Selected, empty_search, bad_bottle, not_canonical, mismatched_identity,
  incompatible,
}
use dalec_homebrew.Resolver.Closure.Complete.{queue_cases}
use dalec_homebrew.Resolver.Closure.{
  by_name, target_tag, is_canonical, to_oci_formula, formula_of, node_of, request_root,
  request_roots, add_dependency, add_dependencies, with_node, resolve_name, drain,
}
use dalec_homebrew.Resolver.Closure.Safely.{
  Safely, Safely-bind, map_err-Safely, fail_if-Safely, IsIndexed, index_sources, put-indexed,
  pushed-AllPresent, target_tag-is_linux_tag, Weakly, Safely-Weakly,
}

module _ {E : Type 0} (u : Unicode) (c : Catalog) (embed : LookupError → E)
    (select : Reference.Formula → Platform → Result E Selected) (target : Platform)
    (named : IsNamed c.canonical)
    (closed : (name : Bytes) (f : Formula)
      → lookup name c.canonical ≡ some f
      → AllPresent c.canonical (dependencies_for f (target_tag target))) where
  add_dependency-Safely :
      (name : Bytes) (t : Map Requirement) (w : Search) (dep : Bytes)
      → has dep c.canonical ≡ true
      → IsIndexed c w
      → Safely (IsIndexed c) (add_dependency u (index_sources c embed select) target name t w dep)
  unfolding add_dependency
  add_dependency-Safely name t w dep h a = elim (Option-cases (lookup dep c.canonical)) [
    | inl none_there ↦ absurd (ground (arith, h, none_there))
    | inr (f, k) ↦ elim (Result-cases (lookup_name c dep)) [
      | inr (x, e) ↦ rw (e, add_dependency) tt
      | inl (m, e) ↦
          let (found, kind, same) = lookup_name-canonical c dep f m named k e in
          let passes : (not (is_canonical m.kind) || not (str_eq m.canonical dep)) ≡ false =
            ground (arith, kind, same, str_eq_iff m.canonical dep) in
          rw (e, add_dependency, passes)
            (
              pushed-AllPresent c m.canonical m.formula w.queue (has m.canonical w.nodes) found.0
                  a.0,
              put-indexed c m.canonical m.formula w.matches found.0 a.1,
            )
    ]
  ]

  add_dependencies-Safely :
      (name : Bytes) (t : Map Requirement) (w : Search) (deps : List Bytes)
      → AllPresent c.canonical deps
      → IsIndexed c w
      → Safely
          (IsIndexed c)
          (add_dependencies u (index_sources c embed select) target name t w deps)
  unfolding add_dependencies
  add_dependencies-Safely name t w [] h a = a
  add_dependencies-Safely name t w (dep ∷ deps) h a =
      Safely-bind (IsIndexed c) (IsIndexed c)
        (add_dependency u (index_sources c embed select) target name t w dep) _
        (add_dependency-Safely name t w dep h.0 a)
        (λ v b. add_dependencies-Safely name t v deps h.1 b)

  -- The Formula of a queued name is the index's.
  pub formula_of-Safely :
      (w : Search) (name : Bytes)
      → has name c.canonical ≡ true
      → IsIndexed c w
      → Safely
          (λ f. lookup name c.canonical ≡ some f)
          (formula_of u (index_sources c embed select) target w name)
  unfolding formula_of
  formula_of-Safely w name h a = elim (Option-cases (lookup name w.matches)) [
    | inr (f, k) ↦ rw (k, formula_of) (a.1 name f k)
    | inl k ↦ elim (Option-cases (lookup name c.canonical)) [
      | inl none_there ↦ absurd (ground (arith, h, none_there))
      | inr (f, q) ↦ elim (Result-cases (lookup_name c name)) [
        | inr (x, e) ↦ rw (k, formula_of, e) tt
        | inl (m, e) ↦
            let (found, kind, same) = lookup_name-canonical c name f m named q e in
            let passes : (not (is_canonical m.kind) || not (str_eq m.canonical name)) ≡ false =
              ground (arith, kind, same, str_eq_iff m.canonical name) in
            rw (k, formula_of, e, passes)
              (subst (λ x. lookup x c.canonical ≡ some m.formula) same found.0)
      ]
    ]
  ]

  to_oci_formula-Safely : (f : Formula) → Safely {E = E} (λ x. Unit) (to_oci_formula f target)
  unfolding to_oci_formula
  to_oci_formula-Safely f = elim (Option-cases f.bottle) [
    | inl e ↦ rw e tt
    | inr (b, e) ↦
        elim (Bool-cases (not (str_eq b.root_url (lit "https://ghcr.io/v2/homebrew/core")))) [
          | inl k ↦ rw (e, k) tt
          | inr k ↦ rw (e, k) tt
        ]
  ]

  node_of-Safely :
      (name : Bytes) (f : Formula)
      → Safely (λ n. Unit) (node_of u (index_sources c embed select) target name f)
  unfolding node_of
  node_of-Safely name f =
      Safely-bind (λ x. Unit) (λ n. Unit) (to_oci_formula f target) _ (to_oci_formula-Safely f)
        (λ o x.
          Safely-bind (λ x. Unit) (λ n. Unit) (map_err bad_bottle (select o target)) _
            (map_err-Safely bad_bottle (select o target) (λ e. tt))
            (λ selected y.
              Safely-bind (λ x. Unit) (λ n. Unit)
                (map_err incompatible
                  (validate_runtime_compatibility u selected.tab target.architecture))
                _
                (map_err-Safely incompatible
                  (validate_runtime_compatibility u selected.tab target.architecture) (λ e. tt))
                (λ z v.
                  Safely-bind (λ x. Unit) (λ n. Unit)
                    (fail_if
                      (not (str_eq selected.node.name name)
                        || not (str_eq selected.node.pkg_version (formula_pkg_version f)))
                      mismatched_identity)
                    _ (fail_if-Safely _ mismatched_identity tt) (λ r q. tt))))

  pub resolve_name-Safely :
      (name : Bytes) (w : Search)
      → has name c.canonical ≡ true
      → IsIndexed c w
      → Safely (IsIndexed c) (resolve_name u (index_sources c embed select) target name w)
  unfolding resolve_name
  resolve_name-Safely name w h a = elim (Bool-cases (has name w.nodes)) [
    | inl there ↦ rw (there, resolve_name) a
    | inr missing ↦
        rw (missing, resolve_name)
          (Safely-bind (λ f. lookup name c.canonical ≡ some f) (IsIndexed c)
            (formula_of u (index_sources c embed select) target w name) _
            (formula_of-Safely w name h a)
            (λ f e.
              Safely-bind (λ n. Unit) (IsIndexed c)
                (node_of u (index_sources c embed select) target name f) _ (node_of-Safely name f)
                (λ n x.
                  add_dependencies-Safely name (by_name n.dependencies [])
                    (with_node u (index_sources c embed select) target name f n w)
                    (dependencies_for f (target_tag target)) (closed name f e)
                    (unfold with_node in (a.0, put-indexed c name f w.matches e a.1)))))
  ]

  drain-Weakly :
      (fuel : ℕ) (w : Search)
      → IsIndexed c w
      → Weakly (IsIndexed c) (drain u (index_sources c embed select) target fuel w)
  unfolding drain
  drain-Weakly zero w a = tt
  drain-Weakly (suc fuel) w a = elim (queue_cases w.queue) [
    | inl e ↦ rw (e, drain) a
    | inr (name, rest, e) ↦
        let queued : AllPresent c.canonical (name ∷ rest) = subst (AllPresent c.canonical) e a.0 in
        let front : Search = record w { queue = rest } in
        let one = resolve_name u (index_sources c embed select) target name front in
        let handled : Safely (IsIndexed c) one =
          resolve_name-Safely name front queued.0 (queued.1, a.1) in
        elim (Result-cases one) [
          | inl (v, k) ↦
              rw (e, drain, k) (drain-Weakly fuel v (subst (Safely (IsIndexed c)) k handled))
          | inr (x, k) ↦
              rw (e, drain, k)
                (Safely-Weakly (IsIndexed c) (err x) (subst (Safely (IsIndexed c)) k handled))
        ]
  ]

  request_root-Safely :
      (w : Search) (name : Bytes)
      → ((m : Match) → lookup_name c name ≡ ok m → lookup m.canonical c.canonical ≡ some m.formula)
      → IsIndexed c w
      → Safely (IsIndexed c) (request_root u (index_sources c embed select) target w name)
  unfolding request_root
  request_root-Safely w name found a = elim (Result-cases (lookup_name c name)) [
    | inr (x, e) ↦ rw (e, request_root) tt
    | inl (m, e) ↦
        rw (e, request_root)
          (
            pushed-AllPresent c m.canonical m.formula w.queue (has m.canonical w.matches)
                (found m e) a.0,
            put-indexed c m.canonical m.formula w.matches (found m e) a.1,
          )
  ]

  pub request_roots-Safely :
      (w : Search) (names : List Bytes)
      → IsIndexed c w
      → Safely (IsIndexed c) (request_roots u (index_sources c embed select) target w names)
  unfolding request_roots
  request_roots-Safely w [] a = a
  request_roots-Safely w (name ∷ names) a =
      Safely-bind (IsIndexed c) (IsIndexed c)
        (request_root u (index_sources c embed select) target w name) _
        (request_root-Safely w name (λ m e. (lookup_name-IsExplicit c name m named e).0.0) a)
        (λ v b. request_roots-Safely v names b)

-- Over an index that `buildCatalog` made, the walk of `Resolve` from its roots never fails because a
-- dependency is not canonical.
pub drain-not_canonical :
    {E : Type 0} (u : Unicode) (fs : List Formula) (ms : List Migration) (c : Catalog)
    (embed : LookupError → E) (select : Reference.Formula → Platform → Result E Selected)
    (target : Platform) (fuel : ℕ) (roots : List Bytes) (asked : Search)
    → build_catalog fs ms ≡ ok c
    → request_roots u (index_sources c embed select) target empty_search roots ≡ ok asked
    → drain u (index_sources c embed select) target fuel asked ≢ err not_canonical
drain-not_canonical u fs ms c embed select target fuel roots asked built h k =
    let named = build_catalog-IsNamed fs ms c built in
    let closed : (name : Bytes) (f : Formula)
        → lookup name c.canonical ≡ some f
        → AllPresent c.canonical (dependencies_for f (target_tag target)) =
      λ name f e.
        build_catalog-AllPresent fs ms c name (target_tag target) f built e
          (target_tag-is_linux_tag target) in
    let start : IsIndexed c empty_search =
      (tt, λ name f e. unfold lookup in absurd (ground (arith, e))) in
    let begun : IsIndexed c asked =
      subst (Safely (IsIndexed c)) h
        (request_roots-Safely u c embed select target named closed empty_search roots start) in
    subst (Weakly (IsIndexed c)) k
      (drain-Weakly u c embed select target named closed fuel asked begun)
