-- ===== src/Resolver/Settle/Satisfied.antt =====
-- Behind the check of `Resolve`, each requirement is the walk's, with the version of the selected node
-- where the walk names none, and the selected node satisfies it.
use dalec_homebrew.Prelude.{
  ◌≡◌, ◌≢◌, ◌⊎◌, inl, inr, refl, ap, ◌∙◌, List, [], ◌∷◌, arith, ok, some, Option-cases,
  Result-cases, Bool-cases, true, map, bind-eq-ok,
}
use dalec_homebrew.GoString.{Bytes, str_eq, str_eq_iff}
use dalec_homebrew.GoString.Unicode.{Unicode}
use dalec_homebrew.GoMap.{Map, lookup, lookup-put, get_or}
use dalec_homebrew.Resolver.Requirements.{Requirement, satisfies, map_requirements}
use dalec_homebrew.Resolver.Types.{Node, zero_node}
use dalec_homebrew.Resolver.Settle.{filled, with_dependencies, settle_edges, settle}

-- The requirement that `settled` makes of the walk's `req` on the node `n`.
abbrev pub IsSettled : Node → Requirement → Requirement → Type 0
IsSettled n req settled =
    ((req.minimum ≢ []) × (settled ≡ req))
    ⊎ ((req.minimum ≡ [])
        × (settled ≡ record req {
          minimum = n.pkg_version;
          revision = n.formula_revision;
          bottle_rebuild = n.bottle_rebuild;
        }))

-- The edge of the walk and the settled one lead to the same selected node, which satisfies the settled
-- requirement.
abbrev pub EdgeSatisfied : Unicode → Map Node → Bytes × Requirement → Bytes × Requirement → Type 0
EdgeSatisfied u nodes (name, req) (name', settled) =
    (name' ≡ name)
    × ((n : Node) × (lookup name nodes ≡ some n)
        × IsSettled n req settled
        × (satisfies u n.formula_version n.formula_revision n.bottle_rebuild settled ≡ true))

-- Lists of the same length whose members are related one by one.
abbrev pub OneByOne : {A B : Type 0} → (A → B → Type 0) → List A → List B → Type 0
OneByOne R [] [] = Unit
OneByOne R [] (y ∷ ys) = ⊥
OneByOne R (x ∷ xs) [] = ⊥
OneByOne R (x ∷ xs) (y ∷ ys) = R x y × OneByOne R xs ys

OneByOne-mono :
    {A B : Type 0} (P Q : A → B → Type 0)
    → ((a : A) (b : B) → P a b → Q a b)
    → (xs : List A) (ys : List B) → OneByOne P xs ys
    → OneByOne Q xs ys
OneByOne-mono P Q f [] [] h = tt
OneByOne-mono P Q f [] (y ∷ ys) h = absurd h
OneByOne-mono P Q f (x ∷ xs) [] h = absurd h
OneByOne-mono P Q f (x ∷ xs) (y ∷ ys) h = (f x y h.0, OneByOne-mono P Q f xs ys h.1)

filled-IsSettled : (n : Node) (req : Requirement) → IsSettled n req (filled n req)
unfolding filled
filled-IsSettled n req = elim (Bool-cases (str_eq req.minimum [])) [
  | inl e ↦ rw e (inr ((str_eq_iff req.minimum []).0 e, refl))
  | inr e ↦ rw e (inl (ground (arith, e, str_eq_iff req.minimum []), refl))
]

settle_edges-EdgeSatisfied :
    {E : Type 0} (u : Unicode) (nodes : Map Node) (deps out : Map Requirement)
    → settle_edges {E = E} u nodes deps ≡ ok out
    → OneByOne (EdgeSatisfied u nodes) deps out
unfolding settle_edges
settle_edges-EdgeSatisfied u nodes [] [] h = tt
settle_edges-EdgeSatisfied u nodes [] (x ∷ out) h = absurd (ground arith)
settle_edges-EdgeSatisfied {E} u nodes ((name, req) ∷ deps) out h =
    elim (Option-cases (lookup name nodes)) [
      | inl e ↦ absurd (ground (arith, h, e))
      | inr (n, e) ↦
          elim (Bool-cases
            (satisfies u n.formula_version n.formula_revision n.bottle_rebuild (filled n req))) [
              | inl s ↦ elim (Result-cases (settle_edges {E = E} u nodes deps)) [
                | inl (rest, k) ↦
                    let joined : out ≡ (name, filled n req) ∷ rest = ground (arith, h, e, s, k) in
                    rw joined (
                      (refl, (n, e, filled-IsSettled n req, s)),
                      settle_edges-EdgeSatisfied u nodes deps rest k,
                    )
                | inr (x, k) ↦ absurd (ground (arith, h, e, s, k))
              ]
              | inr s ↦ absurd (ground (arith, h, e, s))
            ]
    ]

-- Writing the dependencies of a node keeps its version, its revision and its rebuild.
with_dependencies-EdgeSatisfied :
    (u : Unicode) (parent : Bytes) (deps : Map Requirement) (nodes : Map Node)
    (e f : Bytes × Requirement)
    → EdgeSatisfied u nodes e f
    → EdgeSatisfied u (with_dependencies parent deps nodes) e f
unfolding with_dependencies
with_dependencies-EdgeSatisfied u parent deps nodes (name, req) (name', settled)
      (same_name, (n, found, kept, good)) =
    let there =
      lookup-put name parent
        (record (get_or zero_node parent nodes) {
          dependencies = map_requirements (map (λ e. e.1) deps);
        })
        nodes in
    elim (Bool-cases (str_eq parent name)) [
      | inl same ↦
          let here : lookup parent nodes ≡ some n = rw ((str_eq_iff parent name).0 same) found in
          let got : get_or zero_node parent nodes ≡ n = ground (arith, here) in
          (
            same_name,
            (
              record n { dependencies = map_requirements (map (λ e. e.1) deps) },
              there
                  ∙ rw same (
                      ap
                        (λ (x : Node).
                          some (record x { dependencies = map_requirements (map (λ e. e.1) deps) }))
                        got),
              kept,
              good,
            ),
          )
      | inr other ↦ (same_name, (n, ground (arith, there, other, found), kept, good))
    ]

settle-keeps :
    {E : Type 0} (u : Unicode) (graph out : Map (Map Requirement)) (nodes after : Map Node)
    (e f : Bytes × Requirement)
    → settle {E = E} u nodes graph ≡ ok (out, after)
    → EdgeSatisfied u nodes e f
    → EdgeSatisfied u after e f
unfolding settle
settle-keeps u [] out nodes after e f h good =
    let same : after ≡ nodes = ground (arith, h) in rw same good
settle-keeps {E} u ((parent, deps) ∷ graph) out nodes after e f h good =
    let (settled, a, h1) = bind-eq-ok (settle_edges {E = E} u nodes deps) _ h in
    let (p, b, h2) =
      bind-eq-ok (settle {E = E} u (with_dependencies parent settled nodes) graph) _ h1 in
    let same : after ≡ p.1 = ground (arith, h2) in
    rw same (
      settle-keeps u graph p.0 (with_dependencies parent settled nodes) p.1 e f b
        (with_dependencies-EdgeSatisfied u parent settled nodes e f good))

-- The parents and the edges of a graph, beside those of the settled one.
abbrev pub GraphSatisfied :
    Unicode → Map Node → Map (Map Requirement) → Map (Map Requirement) → Type 0
GraphSatisfied u nodes = OneByOne (λ p q. (q.0 ≡ p.0) × OneByOne (EdgeSatisfied u nodes) p.1 q.1)

-- When the check of `Resolve` passes, the settled graph has the edges of the graph, one by one. Each
-- leads to one of the resulting nodes. Its requirement is the walk's where that has a minimum, and else
-- the walk's with the version, the revision and the rebuild of the node; and the node satisfies it.
pub settle-EdgeSatisfied :
    {E : Type 0} (u : Unicode) (nodes : Map Node) (graph out : Map (Map Requirement))
    (after : Map Node)
    → settle {E = E} u nodes graph ≡ ok (out, after)
    → GraphSatisfied u after graph out
unfolding settle
settle-EdgeSatisfied u nodes [] [] after h = tt
settle-EdgeSatisfied u nodes [] (x ∷ out) after h = absurd (ground (arith, h))
settle-EdgeSatisfied {E} u nodes ((parent, deps) ∷ graph) out after h =
    let (settled, a, h1) = bind-eq-ok (settle_edges {E = E} u nodes deps) _ h in
    let (p, b, h2) =
      bind-eq-ok (settle {E = E} u (with_dependencies parent settled nodes) graph) _ h1 in
    let same : after ≡ p.1 = ground (arith, h2) in
    let joined : out ≡ (parent, settled) ∷ p.0 = ground (arith, h2) in
    rw (same, joined)
      (
        (
          refl,
          OneByOne-mono (EdgeSatisfied u nodes) (EdgeSatisfied u p.1)
              (λ e f g.
                settle-keeps u graph p.0 (with_dependencies parent settled nodes) p.1 e f b
                  (with_dependencies-EdgeSatisfied u parent settled nodes e f g))
              deps settled (settle_edges-EdgeSatisfied {E = E} u nodes deps settled a),
        ),
        settle-EdgeSatisfied {E = E} u (with_dependencies parent settled nodes) graph p.0 p.1 b,
      )
