-- ===== src/Resolver/Topo/Acyclic.antt =====
-- A graph that can be ranked has no cycle, so `topoOrder` orders it.
use dalec_homebrew.Prelude.{
  ℕ, ◌<◌, ◌≡◌, List, [], ◌∷◌, ◌++◌, In, arith, Result, ok, err, length, refl,
}
use mathlib.Core.Path.{subst}
use dalec_homebrew.GoString.{Bytes}
use dalec_homebrew.Resolver.Topo.{TopoError, cycle, out_of_fuel, topo_order}
use dalec_homebrew.Resolver.Topo.Walks.{IsChain, IsCycle}
use dalec_homebrew.Resolver.Topo.Total.{Ordered, topo_order-Ordered}

module _ (deps : Bytes → List Bytes) (rank : Bytes → ℕ)
    (ranked : (m n : Bytes) → In n (deps m) → rank n < rank m) where
  IsChain-rank :
      (n : Bytes) (mid : List Bytes) (m : Bytes)
      → IsChain deps (n ∷ (mid ++ m ∷ []))
      → rank m < rank n
  IsChain-rank n [] m (e, _) = ranked n m e
  IsChain-rank n (x ∷ mid) m (e, rest) = omega (arith, ranked n x e, IsChain-rank x mid m rest)

  not-IsCycle : (p : List Bytes) → ¬ IsCycle deps p
  not-IsCycle p (c, n, mid, e) = omega (arith, IsChain-rank n mid n (subst (IsChain deps) e c))

  Ordered-ok :
      (vs : List Bytes) (closed : (m n : Bytes) → In m vs → In n (deps m) → In n vs)
      (roots : List Bytes) (x : Result TopoError (List Bytes))
      → Ordered deps vs closed roots x
      → (order : List Bytes) × (x ≡ ok order)
  Ordered-ok vs closed roots (ok order) h = (order, refl)
  Ordered-ok vs closed roots (err (cycle p)) h = absurd (not-IsCycle p h)
  Ordered-ok vs closed roots (err out_of_fuel) h = absurd h

  -- When every dependency ranks below what depends on it, the names of the graph are closed under
  -- dependencies and hold the roots, and the fuel exceeds their number, `topoOrder` returns an order.
  pub topo_order-total :
      (vs : List Bytes) (closed : (m n : Bytes) → In m vs → In n (deps m) → In n vs) (fuel : ℕ)
      (roots : List Bytes)
      → length vs < fuel
      → ((r : Bytes) → In r roots → In r vs)
      → (order : List Bytes) × (topo_order deps fuel roots ≡ ok order)
  topo_order-total vs closed fuel roots h inside =
      Ordered-ok vs closed roots _ (topo_order-Ordered deps vs closed fuel roots h inside)
