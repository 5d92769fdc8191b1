-- ===== src/Resolver/Closure/Ends.antt =====
-- The walk of `Resolve` over an index ends: each name is given its node once, and what stands in the
-- queue comes from the roots or from a dependency of such a name.
use dalec_homebrew.Prelude.{
  ℕ, zero, suc, ◌+◌, ◌≤◌, ◌<◌, ◌≡◌, ◌≢◌, inl, inr, refl, ◌∙◌, List, [], ◌∷◌, ◌++◌, Result, ok, err,
  arith, true, false, some, Bool-cases, if◌then◌else◌, Result-cases, bind-eq-ok, length,
  length-append, ◌>>=◌, fail_if, not, ◌||◌, map_err,
}
use mathlib.Core.Path.{subst}
use dalec_homebrew.GoString.{Bytes, str_eq, str_eq_iff}
use dalec_homebrew.GoString.Unicode.{Unicode}
use dalec_homebrew.GoMap.{Map, lookup, put, has, has-put, has-put_self}
use dalec_homebrew.Metadata.{Formula, dependencies_for}
use dalec_homebrew.MetadataCatalog.{Catalog, Migration}
use dalec_homebrew.MetadataCatalog.Build.{build_catalog}
use dalec_homebrew.MetadataCatalog.Build.Closed.{AllPresent}
use dalec_homebrew.MetadataCatalog.Build.Listed.{build_catalog-AllPresent}
use dalec_homebrew.MetadataCatalog.Build.Named.{IsNamed, build_catalog-IsNamed}
use dalec_homebrew.MetadataCatalog.Lookup.{LookupError, lookup_name}
use dalec_homebrew.Oci.Reference
use dalec_homebrew.Resolver.Requirements.{Requirement}
use dalec_homebrew.Resolver.Types.{
  Platform, Search, Node, Selected, empty_search, bad_root, bad_dependency, not_canonical,
  out_of_fuel,
}
use dalec_homebrew.Resolver.Closure.{
  target_tag, by_name, is_canonical, formula_of, node_of, request_root, request_roots,
  add_dependency, add_dependencies, with_node, resolve_name, drain,
}
use dalec_homebrew.Resolver.Closure.Complete.{queue_cases}
use dalec_homebrew.Resolver.Closure.Safely.{
  Safely, IsIndexed, index_sources, target_tag-is_linux_tag,
}
use dalec_homebrew.Resolver.Closure.Indexed.{
  formula_of-Safely, resolve_name-Safely, request_roots-Safely,
}

-- The number of dependencies of the Formulae that have no node yet.
abbrev pub pending : Bytes → Map Node → Map Formula → ℕ
pending tag nodes [] = 0
pending tag nodes ((name, f) ∷ rest) =
    (if has name nodes then 0 else length (dependencies_for f tag)) + pending tag nodes rest

-- One summand does not grow.
summand :
    (tag name k : Bytes) (n : Node) (nodes : Map Node) (f : Formula)
    → (if has name (put k n nodes) then 0 else length (dependencies_for f tag))
      ≤ (if has name nodes then 0 else length (dependencies_for f tag))
summand tag name k n nodes f = elim (Bool-cases (has name nodes)) [
  | inl e ↦ let later = has-put name k n nodes e in rw (later, e) (omega arith)
  | inr e ↦ elim (Bool-cases (has name (put k n nodes))) [
    | inl q ↦ rw (q, e) (omega arith)
    | inr q ↦ rw (q, e) (omega arith)
  ]
]

pending-put :
    (tag k : Bytes) (n : Node) (nodes : Map Node) (entries : Map Formula)
    → pending tag (put k n nodes) entries ≤ pending tag nodes entries
pending-put tag k n nodes [] = omega arith
pending-put tag k n nodes ((name, f) ∷ rest) =
    omega (arith, summand tag name k n nodes f, pending-put tag k n nodes rest)

-- The dependencies of a name that gets its node are no longer pending.
pending-resolved :
    (tag name : Bytes) (n : Node) (nodes : Map Node) (entries : Map Formula) (f : Formula)
    → lookup name entries ≡ some f
    → has name nodes ≡ false
    → pending tag (put name n nodes) entries + length (dependencies_for f tag)
      ≤ pending tag nodes entries
unfolding lookup
pending-resolved tag name n nodes [] f k h = absurd (ground (arith, k))
pending-resolved tag name n nodes ((j, g) ∷ rest) f k h = elim (Bool-cases (str_eq j name)) [
  | inl e ↦
      let same : j ≡ name = (str_eq_iff j name).0 e in
      let equal : g ≡ f = ground (arith, k, e) in
      let new : has j (put name n nodes) ≡ true = rw same (has-put_self name n nodes) in
      let old : has j nodes ≡ false = rw same h in
      rw (new, old, equal) (omega (arith, pending-put tag name n nodes rest))
  | inr e ↦ omega (
    arith,
    summand tag j name n nodes g,
    pending-resolved tag name n nodes rest f (ground (arith, k, e)) h,
  )
]

module _ {E : Type 0} (u : Unicode) (c : Catalog) (embed : LookupError → E)
    (select : Reference.Formula → Platform → Result E Selected) (target : Platform) where
  -- A dependency puts at most itself in the queue.
  add_dependency-length :
      (name : Bytes) (t : Map Requirement) (w v : Search) (dep : Bytes)
      → add_dependency u (index_sources c embed select) target name t w dep ≡ ok v
      → (length v.queue ≤ length w.queue + 1) × (v.nodes ≡ w.nodes)
  unfolding add_dependency
  add_dependency-length name t w v dep h =
      let (m, e, h1) =
        bind-eq-ok (map_err bad_dependency (map_err embed (lookup_name c dep))) _ h in
      let (x, e1, h2) =
        bind-eq-ok
          (fail_if (not (is_canonical m.kind) || not (str_eq m.canonical dep)) not_canonical) _
          h1 in
      let queue : v.queue
          ≡ (if has m.canonical w.nodes then w.queue else w.queue ++ m.canonical ∷ []) =
        ground (arith, h2) in
      let nodes : v.nodes ≡ w.nodes = ground (arith, h2) in
      (
        elim (Bool-cases (has m.canonical w.nodes)) [
          | inl k ↦ rw (queue, k) (omega arith)
          | inr k ↦ rw (queue, k) (omega (arith, length-append w.queue (m.canonical ∷ [])))
        ],
        nodes,
      )

  add_dependencies-length :
      (name : Bytes) (t : Map Requirement) (w v : Search) (deps : List Bytes)
      → add_dependencies u (index_sources c embed select) target name t w deps ≡ ok v
      → (length v.queue ≤ length w.queue + length deps) × (v.nodes ≡ w.nodes)
  unfolding add_dependencies
  add_dependencies-length name t w v [] h =
      let same : w ≡ v = ground (arith, h) in
      subst (λ x. (length x.queue ≤ length w.queue + 0) × (x.nodes ≡ w.nodes)) same
        (omega arith, refl)
  add_dependencies-length name t w v (dep ∷ deps) h =
      let (x, h1, h2) =
        bind-eq-ok (add_dependency u (index_sources c embed select) target name t w dep) _ h in
      let (one, same) = add_dependency-length name t w x dep h1 in
      let (rest, same') = add_dependencies-length name t x v deps h2 in
      (omega (arith, one, rest), same' ∙ same)

  -- What the walk still has to do.
  abbrev measure : Search → ℕ
  measure w = length w.queue + pending (target_tag target) w.nodes c.canonical

  module _ (named : IsNamed c.canonical)
      (closed : (name : Bytes) (f : Formula)
        → lookup name c.canonical ≡ some f
        → AllPresent c.canonical (dependencies_for f (target_tag target))) where
    resolve_name-measure :
        (name : Bytes) (w v : Search)
        → has name c.canonical ≡ true
        → IsIndexed c w
        → resolve_name u (index_sources c embed select) target name w ≡ ok v
        → measure v ≤ measure w
    unfolding resolve_name with_node
    resolve_name-measure name w v h a k = elim (Bool-cases (has name w.nodes)) [
      | inl there ↦
          let same : w ≡ v = ground (arith, k, there) in
          subst (λ x. measure x ≤ measure w) same (omega arith)
      | inr missing ↦
          let formula = formula_of u (index_sources c embed select) target w name in
          let opened : (formula >>= λ f.
          node_of u (index_sources c embed select) target name f >>= λ n.
          add_dependencies u (index_sources c embed select) target name (by_name n.dependencies [])
            (with_node u (index_sources c embed select) target name f n w)
            (dependencies_for f (target_tag target)))
              ≡ ok v =
            ground (arith, k, missing) in
          let (f, k1, k2) = bind-eq-ok formula _ opened in
          let (n, k3, k4) =
            bind-eq-ok (node_of u (index_sources c embed select) target name f) _ k2 in
          let (grown, same) =
            add_dependencies-length name (by_name n.dependencies [])
              (with_node u (index_sources c embed select) target name f n w) v
              (dependencies_for f (target_tag target)) k4 in
          let found : lookup name c.canonical ≡ some f =
            subst (Safely (λ g. lookup name c.canonical ≡ some g)) k1
              (formula_of-Safely u c embed select target named closed w name h a) in
          let less =
            pending-resolved (target_tag target) name n w.nodes c.canonical f found missing in
          rw same (omega (arith, grown, less))
    ]

    drain-Safely :
        (fuel : ℕ) (w : Search)
        → IsIndexed c w
        → measure w < fuel
        → Safely (IsIndexed c) (drain u (index_sources c embed select) target fuel w)
    unfolding drain
    drain-Safely zero w a l = absurd (omega (arith, l))
    drain-Safely (suc fuel) w a l = elim (queue_cases w.queue) [
      | inl e ↦ rw (e, drain) a
      | inr (name, rest, e) ↦
          let queued : AllPresent c.canonical (name ∷ rest) =
            subst (AllPresent c.canonical) e a.0 in
          let front : Search = record w { queue = rest } in
          let one = resolve_name u (index_sources c embed select) target name front in
          let handled : Safely (IsIndexed c) one =
            resolve_name-Safely u c embed select target named closed name front queued.0
              (queued.1, a.1) in
          let popped : measure w ≡ suc (measure front) = rw e (omega arith) in
          elim (Result-cases one) [
            | inr (x, k) ↦ rw (e, drain, k) (subst (Safely (IsIndexed c)) k handled)
            | inl (v, k) ↦
                let less = resolve_name-measure name front v queued.0 (queued.1, a.1) k in
                rw (e, drain, k)
                  (drain-Safely fuel v (subst (Safely (IsIndexed c)) k handled)
                    (omega (arith, l, popped, less)))
          ]
    ]

  request_root-length :
      (w v : Search) (name : Bytes)
      → request_root u (index_sources c embed select) target w name ≡ ok v
      → (length v.queue ≤ length w.queue + 1) × (v.nodes ≡ w.nodes)
  unfolding request_root
  request_root-length w v name h =
      let (m, e, h1) = bind-eq-ok (map_err bad_root (map_err embed (lookup_name c name))) _ h in
      let queue : v.queue
          ≡ (if has m.canonical w.matches then w.queue else w.queue ++ m.canonical ∷ []) =
        ground (arith, h1) in
      let nodes : v.nodes ≡ w.nodes = ground (arith, h1) in
      (
        elim (Bool-cases (has m.canonical w.matches)) [
          | inl k ↦ rw (queue, k) (omega arith)
          | inr k ↦ rw (queue, k) (omega (arith, length-append w.queue (m.canonical ∷ [])))
        ],
        nodes,
      )

  request_roots-length :
      (w v : Search) (names : List Bytes)
      → request_roots u (index_sources c embed select) target w names ≡ ok v
      → (length v.queue ≤ length w.queue + length names) × (v.nodes ≡ w.nodes)
  unfolding request_roots
  request_roots-length w v [] h =
      let same : w ≡ v = ground (arith, h) in
      subst (λ x. (length x.queue ≤ length w.queue + 0) × (x.nodes ≡ w.nodes)) same
        (omega arith, refl)
  request_roots-length w v (name ∷ names) h =
      let (x, h1, h2) =
        bind-eq-ok (request_root u (index_sources c embed select) target w name) _ h in
      let (one, same) = request_root-length w x name h1 in
      let (rest, same') = request_roots-length x v names h2 in
      (omega (arith, one, rest), same' ∙ same)

-- Over an index that `buildCatalog` made, the walk of `Resolve` ends when its fuel is more than the
-- roots and the dependencies of all Formulae of the index for the tag are together.
pub drain-ends :
    {E : Type 0} (u : Unicode) (fs : List Formula) (ms : List Migration) (c : Catalog)
    (embed : LookupError → E) (select : Reference.Formula → Platform → Result E Selected)
    (target : Platform) (fuel : ℕ) (roots : List Bytes) (asked : Search)
    → build_catalog fs ms ≡ ok c
    → request_roots u (index_sources c embed select) target empty_search roots ≡ ok asked
    → length roots + pending (target_tag target) [] c.canonical < fuel
    → drain u (index_sources c embed select) target fuel asked ≢ err out_of_fuel
drain-ends u fs ms c embed select target fuel roots asked built h l k =
    let named = build_catalog-IsNamed fs ms c built in
    let closed : (name : Bytes) (f : Formula)
        → lookup name c.canonical ≡ some f
        → AllPresent c.canonical (dependencies_for f (target_tag target)) =
      λ name f e.
        build_catalog-AllPresent fs ms c name (target_tag target) f built e
          (target_tag-is_linux_tag target) in
    let start : IsIndexed c empty_search =
      (tt, λ name f e. unfold lookup in absurd (ground (arith, e))) in
    let begun : IsIndexed c asked =
      subst (Safely (IsIndexed c)) h
        (request_roots-Safely u c embed select target named closed empty_search roots start) in
    let (queued, fresh) = request_roots-length u c embed select target empty_search asked roots h in
    let enough : length asked.queue + pending (target_tag target) asked.nodes c.canonical < fuel =
      rw fresh (omega (arith, queued, l)) in
    subst (Safely (IsIndexed c)) k
      (drain-Safely u c embed select target named closed fuel asked begun enough)
