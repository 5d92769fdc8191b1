-- ===== src/Tests/Graph.antt =====
-- `topoOrder` on a concrete graph.
use dalec_homebrew.Prelude.{
  ℕ, ◌≡◌, ◌<◌, refl, Bool-cases, inl, inr, [], ◌∷◌, ok, err, List, In, arith, if◌then◌else◌,
}
use dalec_homebrew.GoString.{Bytes, lit, str_eq}
use dalec_homebrew.Resolver.Topo.{
  cycle, mark, tail_from, from_index, drop_last, enter, leave, each, visit, topo_order,
}
use dalec_homebrew.Resolver.Topo.Total.{Ordered, topo_order-Ordered}
use dalec_homebrew.Resolver.Topo.Acyclic.{topo_order-total}

abbrev app : Bytes
app = lit "a"

abbrev lib : Bytes
lib = lit "l"

-- The application needs the library.
abbrev graph : Bytes → List Bytes
graph name = if str_eq name app then lib ∷ [] else []

tests :
    (topo_order graph 3 (app ∷ lib ∷ []) ≡ ok (lib ∷ app ∷ []))
    × (topo_order (λ n. n ∷ []) 2 (app ∷ []) ≡ err (cycle (app ∷ app ∷ [])))
unfolding str_eq mark tail_from from_index drop_last enter leave each visit topo_order
tests = (refl, refl)

closed : (m n : Bytes) → In m (app ∷ lib ∷ []) → In n (graph m) → In n (app ∷ lib ∷ [])
closed m n h = ground arith

inside : (r : Bytes) → In r (app ∷ []) → In r (app ∷ lib ∷ [])
inside r h = ground arith

abbrev rank : Bytes → ℕ
rank name = if str_eq name app then 1 else 0

lib-rank : (n : Bytes) → In n (lib ∷ []) → rank n ≡ 0
unfolding str_eq
lib-rank n h = ground arith

ranked : (m n : Bytes) → In n (graph m) → rank n < rank m
ranked m n h = elim (Bool-cases (str_eq m app)) [
  | inl e ↦ ground (arith, e, lib-rank n)
  | inr e ↦ absurd (ground (arith, e))
]

topo_order-Ordered_example :
    Ordered graph (app ∷ lib ∷ []) closed (app ∷ []) (topo_order graph 3 (app ∷ []))
topo_order-Ordered_example =
    topo_order-Ordered graph (app ∷ lib ∷ []) closed 3 (app ∷ []) (omega arith) inside

topo_order-total_example : (order : List Bytes) × (topo_order graph 3 (app ∷ []) ≡ ok order)
topo_order-total_example =
    topo_order-total graph rank ranked (app ∷ lib ∷ []) closed 3 (app ∷ []) (omega arith) inside
