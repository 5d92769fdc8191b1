-- ===== src/Resolver/Closure/Complete.antt =====
-- When the walk of `Resolve` ends, every dependency that it met has a node.
use dalec_homebrew.Prelude.{
  ℕ, zero, suc, ◌≡◌, ◌↔◌, ◌⊎◌, inl, inr, refl, sym, ap, ◌∙◌, List, [], ◌∷◌, ◌++◌, ok, arith, true,
  In, In-append, All, some, Option-cases, Bool-cases, if◌then◌else◌, Result-cases, bind-eq-ok,
  ◌>>=◌, fail_if, not, ◌||◌, map_err,
}
use mathlib.Core.Path.{subst}
use dalec_homebrew.GoString.{Bytes, str_eq, str_eq_iff}
use dalec_homebrew.GoString.Unicode.{Unicode}
use dalec_homebrew.GoMap.{Map, lookup, put, has, get_or, lookup-put}
use dalec_homebrew.Metadata.{Formula, dependencies_for}
use dalec_homebrew.Resolver.Requirements.{Requirement}
use dalec_homebrew.Resolver.Types.{
  Platform, Sources, Search, Node, empty_search, bad_root, bad_dependency, not_canonical,
}
use dalec_homebrew.Resolver.Closure.{
  add_edge, by_name, target_tag, is_canonical, direct_requirement, formula_of, node_of,
  request_root, request_roots, add_dependency, add_dependencies, with_node, resolve_name, drain,
}

-- The name has a node, or it is still in the queue.
abbrev Known : Map Node → List Bytes → Bytes → Type 0
Known nodes queue d = (has d nodes ≡ true) ⊎ In d queue

-- Every edge of the graph leads to a name with the property.
abbrev pub Edges : (Bytes → Type 0) → Map (Map Requirement) → Type 0
Edges P = All (λ p. All (λ e. P e.0) p.1)

Targets-put :
    (P : Bytes → Type 0) (k : Bytes) (r : Requirement) (m : Map Requirement)
    → P k
    → All (λ e. P e.0) m
    → All (λ e. P e.0) (put k r m)
unfolding put
Targets-put P k r [] h a = (h, tt)
Targets-put P k r ((j, q) ∷ m) h a = elim (Bool-cases (str_eq j k)) [
  | inl e ↦ rw e a
  | inr e ↦ rw e (a.0, Targets-put P k r m h a.1)
]

Edges-put :
    (P : Bytes → Type 0) (k : Bytes) (t : Map Requirement) (g : Map (Map Requirement))
    → All (λ e. P e.0) t
    → Edges P g
    → Edges P (put k t g)
unfolding put
Edges-put P k t [] h a = (h, tt)
Edges-put P k t ((j, q) ∷ g) h a = elim (Bool-cases (str_eq j k)) [
  | inl e ↦ rw e (h, a.1)
  | inr e ↦ rw e (a.0, Edges-put P k t g h a.1)
]

Edges-lookup :
    (P : Bytes → Type 0) (k : Bytes) (g : Map (Map Requirement)) (t : Map Requirement)
    → Edges P g
    → lookup k g ≡ some t
    → All (λ e. P e.0) t
unfolding lookup
Edges-lookup P k [] t a h = absurd (ground (arith, h))
Edges-lookup P k ((j, q) ∷ g) t a h = elim (Bool-cases (str_eq j k)) [
  | inl e ↦ let same : q ≡ t = ground (arith, e, h) in subst (λ x. All (λ e. P e.0) x) same a.0
  | inr e ↦ Edges-lookup P k g t a.1 (ground (arith, e, h))
]

Edges-get_or :
    (P : Bytes → Type 0) (k : Bytes) (g : Map (Map Requirement))
    → Edges P g
    → All (λ e. P e.0) (get_or [] k g)
Edges-get_or P k g a = elim (Option-cases (lookup k g)) [
  | inl e ↦
      let same : [] ≡ get_or [] k g = ground (arith, e) in subst (λ x. All (λ e. P e.0) x) same tt
  | inr (t, e) ↦
      let same : t ≡ get_or [] k g = ground (arith, e) in
      subst (λ x. All (λ e. P e.0) x) same (Edges-lookup P k g t a e)
]

Edges-add_edge :
    (u : Unicode) (P : Bytes → Type 0) (name dep : Bytes) (r : Requirement)
    (g : Map (Map Requirement))
    → P dep
    → Edges P g
    → Edges P (add_edge u name dep r g)
unfolding add_edge
Edges-add_edge u P name dep r g h a =
    Edges-put P name _ g (Targets-put P dep _ (get_or [] name g) h (Edges-get_or P name g a)) a

Targets-mono :
    (P Q : Bytes → Type 0)
    → ((d : Bytes) → P d → Q d)
    → (t : Map Requirement) → All (λ e. P e.0) t
    → All (λ e. Q e.0) t
Targets-mono P Q f [] a = tt
Targets-mono P Q f (e ∷ t) a = (f e.0 a.0, Targets-mono P Q f t a.1)

Edges-mono :
    (P Q : Bytes → Type 0)
    → ((d : Bytes) → P d → Q d)
    → (g : Map (Map Requirement)) → Edges P g
    → Edges Q g
Edges-mono P Q f [] a = tt
Edges-mono P Q f (p ∷ g) a = (Targets-mono P Q f p.1 a.0, Edges-mono P Q f g a.1)

has-put :
    (d k : Bytes) (n : Node) (m : Map Node)
    → (has d (put k n m) ≡ true) ↔ ((str_eq k d ≡ true) ⊎ (has d m ≡ true))
has-put d k n m = ground (arith, lookup-put d k n m)

-- The queue with a name behind it, unless the name has a node.
abbrev pushed : Bytes → Map Node → List Bytes → List Bytes
pushed c nodes queue = if has c nodes then queue else queue ++ c ∷ []

pushed-Known :
    (c : Bytes) (nodes : Map Node) (queue : List Bytes) → Known nodes (pushed c nodes queue) c
pushed-Known c nodes queue = elim (Bool-cases (has c nodes)) [
  | inl e ↦ inl e
  | inr e ↦ inr (rw e ((In-append c queue (c ∷ [])).1 (inr (inl refl))))
]

pushed_mono :
    (c : Bytes) (nodes : Map Node) (queue : List Bytes) (d : Bytes)
    → Known nodes queue d
    → Known nodes (pushed c nodes queue) d
pushed_mono c nodes queue d (inl h) = inl h
pushed_mono c nodes queue d (inr i) = elim (Bool-cases (has c nodes)) [
  | inl e ↦ inr (rw e i)
  | inr e ↦ inr (rw e ((In-append d queue (c ∷ [])).1 (inl i)))
]

pub queue_cases :
    (q : List Bytes) → (q ≡ []) ⊎ ((name : Bytes) × (rest : List Bytes) × (q ≡ name ∷ rest))
queue_cases [] = inl refl
queue_cases (name ∷ rest) = inr (name, rest, refl)

abbrev Open : Search → Type 0
Open w = Edges (Known w.nodes w.queue) w.graph

module _ {E : Type 0} (u : Unicode) (sources : Sources E) (target : Platform) where
  add_dependency-Open :
      (name : Bytes) (t : Map Requirement) (w w' : Search) (dep : Bytes)
      → add_dependency u sources target name t w dep ≡ ok w'
      → Open w
      → Open w' × (w'.nodes ≡ w.nodes)
  unfolding add_dependency
  add_dependency-Open name t w w' dep h a =
      let (m, _, h1) = bind-eq-ok (map_err bad_dependency (sources.find dep)) _ h in
      let (_, _, h2) =
        bind-eq-ok
          (fail_if (not (is_canonical m.kind) || not (str_eq m.canonical dep)) not_canonical) _
          h1 in
      let n : w'.nodes ≡ w.nodes = ground (arith, h2) in
      let q : w'.queue ≡ pushed m.canonical w.nodes w.queue = ground (arith, h2) in
      let g : w'.graph ≡ add_edge u name m.canonical (direct_requirement m.canonical t) w.graph =
        ground (arith, h2) in
      (
        rw (n, q, g)
            (Edges-add_edge u (Known w.nodes (pushed m.canonical w.nodes w.queue)) name m.canonical
              (direct_requirement m.canonical t) w.graph (pushed-Known m.canonical w.nodes w.queue)
              (Edges-mono (Known w.nodes w.queue) _ (pushed_mono m.canonical w.nodes w.queue)
                w.graph a)),
        n,
      )

  add_dependencies-Open :
      (name : Bytes) (t : Map Requirement) (w w' : Search) (deps : List Bytes)
      → add_dependencies u sources target name t w deps ≡ ok w'
      → Open w
      → Open w'
  unfolding add_dependencies
  add_dependencies-Open name t w w' [] h a =
      let same : w ≡ w' = ground (arith, h) in subst Open same a
  add_dependencies-Open name t w w' (dep ∷ deps) h a =
      let (w1, h1, h2) = bind-eq-ok (add_dependency u sources target name t w dep) _ h in
      add_dependencies-Open name t w1 w' deps h2 (add_dependency-Open name t w w1 dep h1 a).0

  -- The name in front of the queue gets its node.
  with_node-Open :
      (name : Bytes) (f : Formula) (n : Node) (w : Search)
      → Edges (Known w.nodes (name ∷ w.queue)) w.graph
      → Open (with_node u sources target name f n w)
  unfolding with_node
  with_node-Open name f n w a =
      let after =
        Edges-mono (Known w.nodes (name ∷ w.queue)) (Known (put name n w.nodes) w.queue)
          (λ d. λ k. elim k [
            | inl x ↦ inl ((has-put d name n w.nodes).1 (inr x))
            | inr i ↦ elim i [
              | inl e ↦ inl ((has-put d name n w.nodes).1 (inl ((str_eq_iff name d).1 e)))
              | inr j ↦ inr j
            ]
          ])
          w.graph a in
      elim (Bool-cases (has name w.graph)) [
        | inl e ↦ rw e after
        | inr e ↦ rw e (Edges-put (Known (put name n w.nodes) w.queue) name [] w.graph tt after)
      ]

  -- Handling a name from the front of the queue.
  resolve_name-Open :
      (name : Bytes) (w w' : Search)
      → resolve_name u sources target name w ≡ ok w'
      → Edges (Known w.nodes (name ∷ w.queue)) w.graph
      → Open w'
  unfolding resolve_name
  resolve_name-Open name w w' h a = elim (Bool-cases (has name w.nodes)) [
    | inl there ↦
        let same : w ≡ w' = ground (arith, h, there) in
        subst Open same (
          Edges-mono (Known w.nodes (name ∷ w.queue)) (Known w.nodes w.queue)
            (λ d. λ k. elim k [
              | inl x ↦ inl x
              | inr i ↦ elim i [ inl e ↦ inl (rw (sym e) there) | inr j ↦ inr j ]
            ])
            w.graph a)
    | inr missing ↦ elim (Result-cases (formula_of u sources target w name)) [
      | inr (x, e) ↦ absurd (ground (arith, h, missing, e))
      | inl (f, e) ↦ elim (Result-cases (node_of u sources target name f)) [
        | inr (x, k) ↦ absurd (ground (arith, h, missing, e, k))
        | inl (n, k) ↦
            let h3 : add_dependencies u sources target name (by_name n.dependencies [])
                  (with_node u sources target name f n w) (dependencies_for f (target_tag target))
                ≡ ok w' =
              ground (arith, h, missing, e, k) in
            add_dependencies-Open name (by_name n.dependencies [])
              (with_node u sources target name f n w) w' (dependencies_for f (target_tag target)) h3
              (with_node-Open name f n w a)
      ]
    ]
  ]

  drain-Open :
      (fuel : ℕ) (w w' : Search)
      → drain u sources target fuel w ≡ ok w'
      → Open w
      → Open w' × (w'.queue ≡ [])
  unfolding drain
  drain-Open zero w w' h a = absurd (ground (arith, h))
  drain-Open (suc fuel) w w' h a = elim (queue_cases w.queue) [
    | inl e ↦
        let same : w ≡ w' = ground (arith, h, e) in
        (subst Open same a, ap (λ x. x.queue) (sym same) ∙ e)
    | inr (name, rest, e) ↦
        let front : Search = record w { queue = rest } in
        let h3 : (resolve_name u sources target name front >>= λ v. drain u sources target fuel v)
            ≡ ok w' =
          ground (arith, h, e) in
        let (v, h4, h5) = bind-eq-ok (resolve_name u sources target name front) _ h3 in
        let a2 : Edges (Known w.nodes (name ∷ rest)) w.graph =
          subst (λ x. Edges (Known w.nodes x) w.graph) e a in
        drain-Open fuel v w' h5 (resolve_name-Open name front v h4 a2)
  ]

  request_root-graph :
      (w w' : Search) (name : Bytes)
      → request_root u sources target w name ≡ ok w'
      → w.graph ≡ []
      → w'.graph ≡ []
  unfolding request_root
  request_root-graph w w' name h e =
      let (m, _, h1) = bind-eq-ok (map_err bad_root (sources.find name)) _ h in
      ground (arith, h1, e)

  request_roots-graph :
      (w w' : Search) (names : List Bytes)
      → request_roots u sources target w names ≡ ok w'
      → w.graph ≡ []
      → w'.graph ≡ []
  unfolding request_roots
  request_roots-graph w w' [] h e = ground (arith, h, e)
  request_roots-graph w w' (name ∷ names) h e =
      let (v, h1, h2) = bind-eq-ok (request_root u sources target w name) _ h in
      request_roots-graph v w' names h2 (request_root-graph w v name h1 e)

  -- When the walk of `Resolve` from the roots ends, its queue is empty and every edge of its graph
  -- leads to a name with a node.
  pub drain-Edges :
      (fuel : ℕ) (roots : List Bytes) (asked done : Search)
      → request_roots u sources target empty_search roots ≡ ok asked
      → drain u sources target fuel asked ≡ ok done
      → (done.queue ≡ []) × Edges (λ d. has d done.nodes ≡ true) done.graph
  drain-Edges fuel roots asked done h k =
      let start : Open asked =
        subst (λ g. Edges (Known asked.nodes asked.queue) g)
          (sym (request_roots-graph empty_search asked roots h refl)) tt in
      let (a, e) = drain-Open fuel asked done k start in
      (
        e,
        Edges-mono (Known done.nodes done.queue) (λ d. has d done.nodes ≡ true)
            (λ d. λ x. elim x [ inl y ↦ y | inr i ↦ absurd (subst (In d) e i) ]) done.graph a,
      )
