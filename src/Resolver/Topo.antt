-- ===== src/Resolver/Topo.antt =====
-- `topoOrder` of internal/resolver/resolver.go: a depth-first walk that lists each Formula behind its
-- dependencies, and reports a dependency cycle.
-- `deps name` is the sorted list of the keys of `graph[name]`. The recursion of `visit` takes fuel.
pub mod Walks
pub mod Steps
pub mod Invariant
pub mod Total
pub mod Acyclic
use dalec_homebrew.Prelude.{
  ℕ, zero, suc, Bool, List, [], ◌∷◌, ◌++◌, Option, none, some, ◌==◌, if◌then◌else◌, Result, ok, err,
  ◌>>=◌,
}
use dalec_homebrew.GoString.{Bytes, str_eq}

pub data TopoError : Type 0 where
  -- the names along the cycle, the first one again at the end
  cycle : List Bytes → TopoError
  out_of_fuel : TopoError

-- The variables that the closure `visit` writes: 0 is a name not met, 1 one on the stack, 2 one in
-- the order.
pub record Walk : Type 0 where
  pub state : Bytes → ℕ
  pub order : List Bytes
  pub stack : List Bytes

-- state[name] = v
unfoldable pub mark : Bytes → ℕ → (Bytes → ℕ) → Bytes → ℕ
mark name v state n = if str_eq n name then v else state n

-- stack[i:] for the index i of the name
unfoldable pub tail_from : Bytes → List Bytes → Option (List Bytes)
tail_from name [] = none
tail_from name (n ∷ ns) =
    let rest = tail_from name ns in if str_eq n name then some (n ∷ ns) else rest

-- stack[i:] with 0 for a name that is not there
unfoldable pub from_index : Bytes → List Bytes → List Bytes
from_index name stack = elim (tail_from name stack) [ none ↦ stack | some rest ↦ rest ]

-- stack[:len(stack)-1]
unfoldable pub drop_last : List Bytes → List Bytes
drop_last [] = []
drop_last (n ∷ []) = []
drop_last (n ∷ m ∷ ns) = n ∷ drop_last (m ∷ ns)

unfoldable pub enter : Bytes → Walk → Walk
enter name w = record w { state = mark name 1 w.state; stack = w.stack ++ name ∷ [] }

unfoldable pub leave : Bytes → Walk → Walk
leave name w = record {
  state = mark name 2 w.state;
  order = w.order ++ name ∷ [];
  stack = drop_last w.stack;
}

-- The loops that call `visit` for each name and stop at the first error.
unfoldable pub each :
    (Bytes → Walk → Result TopoError Walk) → List Bytes → Walk → Result TopoError Walk
each visit_one [] w = ok w
each visit_one (n ∷ ns) w = visit_one n w >>= λ w'. each visit_one ns w'

abbrev pub begin : Walk
begin = record { state = λ _. 0; order = []; stack = [] }

module _ (deps : Bytes → List Bytes) where
  unfoldable pub visit : ℕ → Bytes → Walk → Result TopoError Walk
  visit zero name w = err out_of_fuel
  visit (suc fuel) name w =
      let inside = each (visit fuel) (deps name) (enter name w) in
      if w.state name == 1
      then err (cycle (from_index name w.stack ++ name ∷ []))
      else if w.state name == 2
      then ok w
      else inside >>= λ w'. ok (leave name w')

  unfoldable pub topo_order : ℕ → List Bytes → Result TopoError (List Bytes)
  topo_order fuel roots = each (visit fuel) roots begin >>= λ w. ok w.order
