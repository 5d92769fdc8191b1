-- ===== src/Resolver/Topo/Total.antt =====
-- `topoOrder` ends within its fuel, with an order or with a cycle.
use dalec_homebrew.Prelude.{
  ℕ, zero, suc, ◌<◌, ◌≡◌, inl, inr, refl, sym, Bool-cases, List, [], ◌∷◌, ◌++◌, In, In-append, All,
  All-In, arith, ◌==◌, Result, ok, err, ==_iff, ◌>>=◌, length,
}
use mathlib.Core.Path.{subst}
use dalec_homebrew.GoString.{Bytes}
use dalec_homebrew.Resolver.Topo.{
  TopoError, cycle, out_of_fuel, Walk, enter, leave, each, visit, topo_order, begin,
}
use dalec_homebrew.Resolver.Topo.Walks.{IsOrdered, IsChain, IsCycle, Reach, here, next}
use dalec_homebrew.Resolver.Topo.Steps.{IsChain-concat, white, white-le, white-lt, white-le-length}
use dalec_homebrew.Resolver.Topo.Invariant.{
  Inv, Later, Gains, Later-refl, Later-trans, Visited, IsCycle-from_index, enter-Inv, Inside,
  leave-Later,
}

module _ (deps : Bytes → List Bytes) where
  Reach-cons : {r m n : Bytes} → In m (deps r) → Reach deps m n → Reach deps r n
  Reach-cons e here = next here e
  Reach-cons e (next p f) = next (Reach-cons e p) f

  -- One more name visited in front of the others.
  Visited-cons :
      (n : Bytes) (ns : List Bytes) (w w1 : Walk) (r : Result TopoError Walk)
      → Later deps w w1
      → In n w1.order
      → Gains deps (n ∷ []) w w1
      → Visited deps ns w1 r
      → Visited deps (n ∷ ns) w r
  Visited-cons n ns w w1 (ok w2) l m g (l2, a, g2) = (
    Later-trans deps w w1 w2 l l2,
    (l2.grows n m, a),
    λ k mk. elim (g2 k mk) [
      | inl old ↦ elim (g k old) [
        | inl older ↦ inl older
        | inr (r, mr, reach) ↦ inr (r, elim mr [ inl e ↦ inl e | inr z ↦ absurd z ], reach)
      ]
      | inr (r, mr, reach) ↦ inr (r, inr mr, reach)
    ],
  )
  Visited-cons n ns w w1 (err (cycle p)) l m g v = v
  Visited-cons n ns w w1 (err out_of_fuel) l m g v = v

  -- A set of names that the graph does not leave.
  module _ (vs : List Bytes) (closed : (m n : Bytes) → In m vs → In n (deps m) → In n vs) where
    -- What a visit needs to know of the walk that it starts from.
    record Ready (fuel : ℕ) (names : List Bytes) (w : Walk) : Type 0 where
      inv : Inv deps w
      chains : (n : Bytes) → In n names → IsChain deps (w.stack ++ n ∷ [])
      inside : (n : Bytes) → In n names → In n vs
      enough : white vs w.state < fuel

    Ready-Later :
        (fuel : ℕ) (n : Bytes) (ns : List Bytes) (w w1 : Walk)
        → Ready fuel (n ∷ ns) w
        → Later deps w w1
        → Ready fuel ns w1
    Ready-Later fuel n ns w w1 r l = record {
      inv = l.inv;
      chains =
          λ k m. subst (λ s. IsChain deps (s ++ k ∷ [])) (sym l.same_stack) (r.chains k (inr m));
      inside = λ k m. r.inside k (inr m);
      enough = omega (arith, r.enough, white-le vs w.state w1.state l.kept);
    }

    each-Visited :
        (fuel : ℕ) (visit_one : Bytes → Walk → Result TopoError Walk)
        → ((n : Bytes) (w : Walk) → Ready fuel (n ∷ []) w → Visited deps (n ∷ []) w (visit_one n w))
        → (ns : List Bytes) (w : Walk) → Ready fuel ns w
        → Visited deps ns w (each visit_one ns w)
    unfolding each
    each-Visited fuel visit_one h [] w r = (Later-refl deps w r.inv, tt, λ n m. inl m)
    each-Visited fuel visit_one h (n ∷ ns) w r =
        step (visit_one n w) (h n w one)
          (λ w1 l. each-Visited fuel visit_one h ns w1 (Ready-Later fuel n ns w w1 r l))
      where
        one : Ready fuel (n ∷ []) w
        one = record {
          inv = r.inv;
          enough = r.enough;
          chains = λ k m. elim m [ inl e ↦ r.chains k (inl e) | inr z ↦ absurd z ];
          inside = λ k m. elim m [ inl e ↦ r.inside k (inl e) | inr z ↦ absurd z ];
        }

        step :
            (x : Result TopoError Walk)
            → Visited deps (n ∷ []) w x
            → ((w1 : Walk) → Later deps w w1 → Visited deps ns w1 (each visit_one ns w1))
            → Visited deps (n ∷ ns) w (x >>= λ w1. each visit_one ns w1)
        step (ok w1) (l, (m, _), g) rest =
            Visited-cons n ns w w1 (each visit_one ns w1) l m g (rest w1 l)
        step (err (cycle p)) v rest = v
        step (err out_of_fuel) v rest = v

    leave-Gains :
        (name : Bytes) (w w' : Walk)
        → Gains deps (deps name) (enter name w) w'
        → Gains deps (name ∷ []) w (leave name w')
    unfolding leave enter
    leave-Gains name w w' g n m = elim ((In-append n w'.order (name ∷ [])).0 m) [
      | inl old ↦ elim (g n old) [
        | inl older ↦ inl older
        | inr (r, mr, reach) ↦ inr (name, inl refl, Reach-cons mr reach)
      ]
      | inr self ↦ elim self [
        | inl e ↦ inr (name, inl refl, subst (Reach deps name) e here)
        | inr z ↦ absurd z
      ]
    ]

    leave-Visited :
        (name : Bytes) (w : Walk)
        → Inv deps w
        → w.state name ≡ 0
        → (x : Result TopoError Walk) → Visited deps (deps name) (enter name w) x
        → Visited deps (name ∷ []) w (x >>= λ w'. ok (leave name w'))
    leave-Visited name w v fresh (ok w') (l, a, g) =
        let i : Inside deps name w w' = record {
          outer = v;
          fresh = fresh;
          later = l;
          met = λ d m. All-In (λ k. In k w'.order) d (deps name) a m;
        } in
        (
          leave-Later deps name w w' i,
          (unfold leave in (In-append name w'.order (name ∷ [])).1 (inr (inl refl)), tt),
          leave-Gains name w w' g,
        )
    leave-Visited name w v fresh (err (cycle p)) x = x
    leave-Visited name w v fresh (err out_of_fuel) x = x

    enter-Ready :
        (fuel : ℕ) (name : Bytes) (w : Walk)
        → Ready (suc fuel) (name ∷ []) w
        → w.state name ≡ 0
        → Ready fuel (deps name) (enter name w)
    unfolding enter
    enter-Ready fuel name w r fresh = record {
      inv = unfold enter in enter-Inv deps name w r.inv fresh;
      chains = λ n m. IsChain-concat deps w.stack name n (r.chains name (inl refl)) m;
      inside = λ n m. closed name n (r.inside name (inl refl)) m;
      enough = omega (
        arith,
        r.enough,
        white-lt vs name 1 w.state (omega arith) fresh (r.inside name (inl refl)),
      );
    }

    visit-Visited :
        (fuel : ℕ) (name : Bytes) (w : Walk)
        → Ready fuel (name ∷ []) w
        → Visited deps (name ∷ []) w (visit deps fuel name w)
    unfolding visit
    visit-Visited zero name w r = absurd (omega (arith, r.enough))
    visit-Visited (suc fuel) name w r = elim (Bool-cases (w.state name == 1)) [
      | inl open_name ↦ rw open_name (
          IsCycle-from_index deps name w.stack
            ((r.inv.open_names name).0 ((==_iff _ _).0 open_name)) (r.chains name (inl refl)))
      | inr closed_name ↦ elim (Bool-cases (w.state name == 2)) [
        | inl done ↦
            rw (closed_name, done)
              (
                Later-refl deps w r.inv,
                ((r.inv.listed name).0 ((==_iff _ _).0 done), tt),
                λ n m. inl m,
              )
        | inr undone ↦
            let fresh : w.state name ≡ 0 = ground (arith, r.inv.bounded name) in
            rw (closed_name, undone)
              (leave-Visited name w r.inv fresh (each (visit deps fuel) (deps name) (enter name w))
                (each-Visited fuel (visit deps fuel) (visit-Visited fuel) (deps name) (enter name w)
                  (enter-Ready fuel name w r fresh)))
      ]
    ]

    -- What a call of `topoOrder` returns.
    abbrev pub Ordered : List Bytes → Result TopoError (List Bytes) → Type 0
    Ordered roots (ok order) =
        IsOrdered deps [] order
        × All (λ r. In r order) roots
        × ((n : Bytes) → In n order → (r : Bytes) × In r roots × Reach deps r n)
    Ordered roots (err (cycle p)) = IsCycle deps p
    Ordered roots (err out_of_fuel) = ⊥

    begin-Ready :
        (fuel : ℕ) (roots : List Bytes)
        → length vs < fuel
        → ((r : Bytes) → In r roots → In r vs)
        → Ready fuel roots begin
    begin-Ready fuel roots h inside = record {
      inv = record {
        ordered = tt;
        listed = λ n. ground arith;
        open_names = λ n. ground arith;
        bounded = λ n. omega arith;
      };
      chains = λ n m. (tt, tt);
      inside = inside;
      enough = omega (arith, white-le-length vs (λ _. 0));
    }

    finish :
        (roots : List Bytes) (x : Result TopoError Walk)
        → Visited deps roots begin x
        → Ordered roots (x >>= λ w. ok w.order)
    finish roots (ok w) (l, a, g) =
        (l.inv.ordered, a, λ n m. elim (g n m) [ inl z ↦ absurd z | inr found ↦ found ])
    finish roots (err (cycle p)) v = v
    finish roots (err out_of_fuel) v = v

    -- With more fuel than a list of names that holds the roots and all dependencies, `topoOrder`
    -- returns the Formulae reachable from the roots, each once and behind its dependencies, or a
    -- cycle of the graph.
    pub topo_order-Ordered :
        (fuel : ℕ) (roots : List Bytes)
        → length vs < fuel
        → ((r : Bytes) → In r roots → In r vs)
        → Ordered roots (topo_order deps fuel roots)
    unfolding topo_order
    topo_order-Ordered fuel roots h inside = finish roots (each (visit deps fuel) roots begin) (
        each-Visited fuel (visit deps fuel) (visit-Visited fuel) roots begin
          (begin-Ready fuel roots h inside))
