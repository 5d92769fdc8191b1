-- ===== src/Resolver/Topo/Invariant.antt =====
-- One visit of `topoOrder`: what it keeps, and what it has done when it returns.
use dalec_homebrew.Prelude.{
  ℕ, ◌≤◌, ◌≡◌, ◌≢◌, ◌⊎◌, ◌↔◌, inl, inr, refl, sym, ap, ◌∙◌, Bool-cases, List, [], ◌∷◌, ◌++◌, In,
  In-append, All, arith, Result, ok, err, append_assoc,
}
use mathlib.Core.Path.{subst}
use dalec_homebrew.GoString.{Bytes, str_eq, str_eq_iff}
use dalec_homebrew.Resolver.Topo.{
  TopoError, cycle, out_of_fuel, Walk, mark, from_index, drop_last, enter, leave,
}
use dalec_homebrew.Resolver.Topo.Walks.{IsOrdered, IsChain, IsCycle, Reach}
use dalec_homebrew.Resolver.Topo.Steps.{
  drop_last-concat, In-At, IsChain-suffix, IsOrdered-concat, mark_keeps,
}

mark-le : (n : Bytes) (v : ℕ) (s : Bytes → ℕ) (k : Bytes) → v ≤ 2 → s k ≤ 2 → mark n v s k ≤ 2
unfolding mark
mark-le n v s k h e = ground arith

module _ (deps : Bytes → List Bytes) where
  pub record Inv (w : Walk) : Type 0 where
    pub ordered : IsOrdered deps [] w.order
    pub listed : (n : Bytes) → (w.state n ≡ 2) ↔ In n w.order
    pub open_names : (n : Bytes) → (w.state n ≡ 1) ↔ In n w.stack
    pub bounded : (n : Bytes) → w.state n ≤ 2

  -- From one state of the walk to a later one, with the stack as it was.
  pub record Later (w w' : Walk) : Type 0 where
    pub inv : Inv w'
    pub same_stack : w'.stack ≡ w.stack
    pub grows : (n : Bytes) → In n w.order → In n w'.order
    pub kept : (n : Bytes) → w.state n ≢ 0 → w'.state n ≢ 0

  -- Each name that the order has gained is reachable from one of `from`.
  abbrev pub Gains : List Bytes → Walk → Walk → Type 0
  Gains from w w' =
      (n : Bytes) → In n w'.order → In n w.order ⊎ ((r : Bytes) × In r from × Reach deps r n)

  pub Later-refl : (w : Walk) → Inv w → Later w w
  Later-refl w v = record { inv = v; same_stack = refl; grows = λ n m. m; kept = λ n h. h }

  pub Later-trans : (a b c : Walk) → Later a b → Later b c → Later a c
  Later-trans a b c p q = record {
    inv = q.inv;
    same_stack = q.same_stack ∙ p.same_stack;
    grows = λ n m. q.grows n (p.grows n m);
    kept = λ n h. q.kept n (p.kept n h);
  }

  -- The result of the visits of `names`. The fuel is never what ends them.
  abbrev pub Visited : List Bytes → Walk → Result TopoError Walk → Type 0
  Visited names w (ok w') = Later w w' × All (λ n. In n w'.order) names × Gains names w w'
  Visited names w (err (cycle p)) = IsCycle deps p
  Visited names w (err out_of_fuel) = ⊥

  -- A name already on the stack closes a cycle.
  pub IsCycle-from_index :
      (name : Bytes) (stack : List Bytes)
      → In name stack
      → IsChain deps (stack ++ name ∷ [])
      → IsCycle deps (from_index name stack ++ name ∷ [])
  IsCycle-from_index name stack m c =
      let a = In-At name stack m in
      let chain : IsChain deps ((name ∷ a.after) ++ name ∷ []) =
        IsChain-suffix deps a.before ((name ∷ a.after) ++ name ∷ []) (
          subst (IsChain deps)
            (ap (λ s. s ++ name ∷ []) a.joined ∙ append_assoc a.before (name ∷ a.after) (name ∷ []))
            c) in
      rw a.found (chain, name, a.after, refl)

  enter-listed :
      (name : Bytes) (w : Walk)
      → Inv w
      → w.state name ≡ 0
      → (n : Bytes) → (mark name 1 w.state n ≡ 2) ↔ In n w.order
  unfolding mark
  enter-listed name w v fresh n = elim (Bool-cases (str_eq n name)) [
    | inl same ↦ ground (arith, v.listed n, ap w.state ((str_eq_iff n name).0 same))
    | inr other ↦ ground (arith, v.listed n)
  ]

  enter-open :
      (name : Bytes) (w : Walk)
      → Inv w
      → w.state name ≡ 0
      → (n : Bytes) → (mark name 1 w.state n ≡ 1) ↔ In n (w.stack ++ name ∷ [])
  unfolding mark
  enter-open name w v fresh n = elim (Bool-cases (str_eq n name)) [
    | inl same ↦ ground (arith, In-append n w.stack (name ∷ []), (str_eq_iff n name).0 same)
    | inr other ↦ ground (arith, v.open_names n, In-append n w.stack (name ∷ []), str_eq_iff n name)
  ]

  pub enter-Inv : (name : Bytes) (w : Walk) → Inv w → w.state name ≡ 0 → Inv (enter name w)
  unfolding enter
  enter-Inv name w v fresh = record {
    ordered = v.ordered;
    listed = enter-listed name w v fresh;
    open_names = enter-open name w v fresh;
    bounded = λ n. mark-le name 1 w.state n (omega arith) (v.bounded n);
  }

  -- The walk when the dependencies of a fresh name have been visited.
  pub record Inside (name : Bytes) (w w' : Walk) : Type 0 where
    pub outer : Inv w
    pub fresh : w.state name ≡ 0
    pub later : Later (enter name w) w'
    pub met : (d : Bytes) → In d (deps name) → In d w'.order

  module _ (name : Bytes) (w w' : Walk) (i : Inside name w w') where
    stack_is : w'.stack ≡ w.stack ++ name ∷ []
    unfolding enter
    stack_is = i.later.same_stack

    not_outer : ¬ In name w.stack
    not_outer m = ground (arith, i.fresh, i.outer.open_names name)

    state_is : w'.state name ≡ 1
    state_is =
        (i.later.inv.open_names name).1
          (subst (In name) (sym stack_is) ((In-append name w.stack (name ∷ [])).1 (inr (inl refl))))

    not_listed : ¬ In name w'.order
    not_listed m = ground (arith, state_is, i.later.inv.listed name)

    leave-listed : (n : Bytes) → (mark name 2 w'.state n ≡ 2) ↔ In n (w'.order ++ name ∷ [])
    unfolding mark
    leave-listed n = elim (Bool-cases (str_eq n name)) [
      | inl same ↦ ground (arith, In-append n w'.order (name ∷ []), (str_eq_iff n name).0 same)
      | inr other ↦
          ground (arith, i.later.inv.listed n, In-append n w'.order (name ∷ []), str_eq_iff n name)
    ]

    leave-stack : drop_last w'.stack ≡ w.stack
    leave-stack = ap drop_last stack_is ∙ drop_last-concat w.stack name

    open_outer : (n : Bytes) → (mark name 2 w'.state n ≡ 1) ↔ In n w.stack
    unfolding mark
    open_outer n = elim (Bool-cases (str_eq n name)) [
      | inl same ↦ ground (arith, not_outer, ap (λ x. In x w.stack) ((str_eq_iff n name).0 same))
      | inr other ↦ ground (
        arith,
        rw stack_is at (i.later.inv.open_names n),
        In-append n w.stack (name ∷ []),
        str_eq_iff n name,
      )
    ]

    leave-Inv : Inv (leave name w')
    unfolding leave
    leave-Inv = record {
      ordered = IsOrdered-concat deps w'.order name i.later.inv.ordered i.met not_listed;
      listed = leave-listed;
      open_names = λ n. rw leave-stack (open_outer n);
      bounded = λ n. mark-le name 2 w'.state n (omega arith) (i.later.inv.bounded n);
    }

    pub leave-Later : Later w (leave name w')
    unfolding leave enter
    leave-Later = record {
      inv = leave-Inv;
      same_stack = leave-stack;
      grows = λ n m. (In-append n w'.order (name ∷ [])).1 (inl (i.later.grows n m));
      kept = λ n h.
          mark_keeps name 2 w'.state n (omega arith)
            (i.later.kept n (mark_keeps name 1 w.state n (omega arith) h));
    }
