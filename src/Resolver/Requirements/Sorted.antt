-- ===== src/Resolver/Requirements/Sorted.antt =====
-- `mapRequirements` of internal/resolver/resolver.go lists the requirements of a map by name. A Go map
-- is read in any order, so the result for one order is compared with that for another.
use Prim.Native.Nat.{Ordering}
use mathlib.Core.Path.{subst, ap₂}
use mathlib.Core.List.{Permᴰ}
use mathlib.Core.List.Permᴰ
use dalec_homebrew.Prelude.{ℕ, ◌≡◌, ◌≢◌, ◌⊎◌, refl, sym, ◌∙◌, inl, inr, List, [], ◌∷◌, arith, All}
use dalec_homebrew.Version.{str_compare}
use dalec_homebrew.Version.Order.{str_compare_swap}
use dalec_homebrew.Resolver.Requirements.{Requirement, insert_requirement, map_requirements}

abbrev Before : Requirement → List Requirement → Type 0
Before r [] = Unit
Before r (s ∷ rest) = str_compare r.name s.name ≢ Ordering.gt

-- No name comes after the next one.
abbrev pub IsAscending : List Requirement → Type 0
IsAscending [] = Unit
IsAscending (r ∷ rest) = Before r rest × IsAscending rest

-- The keys of a map.
abbrev pub HasDistinctNames : List Requirement → Type 0
HasDistinctNames [] = Unit
HasDistinctNames (r ∷ rest) = All (λ s. r.name ≢ s.name) rest × HasDistinctNames rest

insert_requirement-Before :
    (r s : Requirement) (rest : List Requirement)
    → str_compare r.name s.name ≡ Ordering.gt
    → Before s rest
    → Before s (insert_requirement r rest)
unfolding insert_requirement
insert_requirement-Before r s [] h b = ground (arith, str_compare_swap r.name s.name)
insert_requirement-Before r s (t ∷ rest) h b = ground (arith, str_compare_swap r.name s.name)

insert_requirement-IsAscending :
    (r : Requirement) (rs : List Requirement)
    → IsAscending rs
    → IsAscending (insert_requirement r rs)
unfolding insert_requirement
insert_requirement-IsAscending r [] h = (tt, tt)
insert_requirement-IsAscending r (s ∷ rest) h =
    ground (arith, insert_requirement-Before r s rest, insert_requirement-IsAscending r rest)

ordering-cases : (x : Ordering) → (x ≡ Ordering.gt) ⊎ (x ≢ Ordering.gt)
ordering-cases Ordering.lt = inr (ground arith)
ordering-cases Ordering.eq = inr (ground arith)
ordering-cases Ordering.gt = inl refl

insert_requirement-gt :
    (r s : Requirement) (rest : List Requirement)
    → str_compare r.name s.name ≡ Ordering.gt
    → insert_requirement r (s ∷ rest) ≡ s ∷ insert_requirement r rest
unfolding insert_requirement
insert_requirement-gt r s rest h = rw (h, insert_requirement) refl

insert_requirement-front :
    (r s : Requirement) (rest : List Requirement)
    → str_compare r.name s.name ≢ Ordering.gt
    → insert_requirement r (s ∷ rest) ≡ r ∷ s ∷ rest
unfolding insert_requirement
insert_requirement-front r s rest h = ground arith

insert_requirement-Perm :
    (r : Requirement) (rs : List Requirement) → Permᴰ (insert_requirement r rs) (r ∷ rs)
unfolding insert_requirement
insert_requirement-Perm r [] = Permᴰ.refl (r ∷ [])
insert_requirement-Perm r (s ∷ rest) = elim (ordering-cases (str_compare r.name s.name)) [
  | inl e ↦
      rw (insert_requirement-gt r s rest e)
        (Permᴰ.trans (Permᴰ.cons refl (insert_requirement-Perm r rest)) (Permᴰ.swap refl refl))
  | inr e ↦ rw (insert_requirement-front r s rest e) (Permᴰ.refl (r ∷ s ∷ rest))
]

map_requirements_sorted : (rs : List Requirement) → IsAscending (map_requirements rs)
unfolding map_requirements
map_requirements_sorted [] = tt
map_requirements_sorted (r ∷ rs) =
    insert_requirement-IsAscending r (map_requirements rs) (map_requirements_sorted rs)

map_requirements-Perm : (rs : List Requirement) → Permᴰ (map_requirements rs) rs
unfolding map_requirements
map_requirements-Perm [] = Permᴰ.nil
map_requirements-Perm (r ∷ rs) =
    Permᴰ.trans (insert_requirement-Perm r (map_requirements rs))
      (Permᴰ.cons refl (map_requirements-Perm rs))

str_compare-gt :
    (a b s : List ℕ)
    → str_compare a s ≡ Ordering.gt
    → str_compare b s ≢ Ordering.gt
    → str_compare a b ≡ Ordering.gt
unfolding str_compare
str_compare-gt [] b [] h k = absurd (ground (arith, h))
str_compare-gt [] b (z ∷ s) h k = absurd (ground (arith, h))
str_compare-gt (x ∷ a) [] s h k = refl
str_compare-gt (x ∷ a) (y ∷ b) [] h k = absurd (ground (arith, k))
str_compare-gt (x ∷ a) (y ∷ b) (z ∷ s) h k = ground (arith, h, k, str_compare-gt a b s)

str_compare-eq : (a b : List ℕ) → str_compare a b ≡ Ordering.eq → a ≡ b
unfolding str_compare
str_compare-eq [] [] h = refl
str_compare-eq [] (y ∷ b) h = absurd (ground (arith, h))
str_compare-eq (x ∷ a) [] h = absurd (ground (arith, h))
str_compare-eq (x ∷ a) (y ∷ b) h = ground (arith, h, str_compare-eq a b)

-- Two requirements on different names may be inserted in either order.
insert_requirement_comm :
    (a b : Requirement) (rs : List Requirement)
    → a.name ≢ b.name
    → insert_requirement a (insert_requirement b rs)
      ≡ insert_requirement b (insert_requirement a rs)
unfolding insert_requirement
insert_requirement_comm a b [] h =
    ground (arith, str_compare_swap a.name b.name, str_compare-eq a.name b.name)
insert_requirement_comm a b (s ∷ rest) h = ground (
  arith,
  str_compare_swap a.name b.name,
  str_compare-eq a.name b.name,
  str_compare-gt a.name b.name s.name,
  str_compare-gt b.name a.name s.name,
  insert_requirement_comm a b rest h,
)

All-Permᴰ : {A : Type 0} (P : A → Type 0) {xs ys : List A} → Permᴰ xs ys → All P xs → All P ys
All-Permᴰ P Permᴰ.nil h = tt
All-Permᴰ P (Permᴰ.cons e p) h = (subst P e h.0, All-Permᴰ P p h.1)
All-Permᴰ P (Permᴰ.swap e f) h = (subst P f h.1.0, (subst P e h.0, h.1.1))
All-Permᴰ P (Permᴰ.trans p q) h = All-Permᴰ P q (All-Permᴰ P p h)

HasDistinctNames-Permᴰ :
    {rs ss : List Requirement} → Permᴰ rs ss → HasDistinctNames rs → HasDistinctNames ss
HasDistinctNames-Permᴰ Permᴰ.nil h = tt
HasDistinctNames-Permᴰ (Permᴰ.cons {b = b} {l₂ = l} e p) h = (
  subst (λ x. All (λ s. x.name ≢ s.name) l) e (All-Permᴰ (λ s. _ ≢ s.name) p h.0),
  HasDistinctNames-Permᴰ p h.1,
)
HasDistinctNames-Permᴰ (Permᴰ.swap {b = b} {b' = b'} {l = l} e f) h =
    subst (λ x. HasDistinctNames (x ∷ b' ∷ l)) f
      (subst (λ x. HasDistinctNames (b ∷ x ∷ l)) e ((λ q. h.0.0 (sym q), h.1.0), (h.0.1, h.1.1)))
HasDistinctNames-Permᴰ (Permᴰ.trans p q) h = HasDistinctNames-Permᴰ q (HasDistinctNames-Permᴰ p h)

map_requirements_order :
    {rs ss : List Requirement}
    → Permᴰ rs ss
    → HasDistinctNames rs
    → map_requirements rs ≡ map_requirements ss
unfolding map_requirements
map_requirements_order Permᴰ.nil h = refl
map_requirements_order (Permᴰ.cons e p) h = ap₂ insert_requirement e (map_requirements_order p h.1)
map_requirements_order (Permᴰ.swap {a = a} {b = b} {l = l} e f) h =
    insert_requirement_comm a b (map_requirements l) h.0.0
    ∙ ap₂ (λ x y. insert_requirement x (insert_requirement y (map_requirements l))) f e
map_requirements_order (Permᴰ.trans p q) h =
    map_requirements_order p h ∙ map_requirements_order q (HasDistinctNames-Permᴰ p h)

-- For the requirements of a map, whose names differ, `mapRequirements` gives the same list in whatever
-- order it reads them: a rearrangement of them in ascending order of their names.
pub map_requirements-IsAscending :
    (rs ss : List Requirement)
    → Permᴰ rs ss
    → HasDistinctNames rs
    → IsAscending (map_requirements rs)
      × Permᴰ (map_requirements rs) rs
      × (map_requirements ss ≡ map_requirements rs)
map_requirements-IsAscending rs ss p h =
    (map_requirements_sorted rs, map_requirements-Perm rs, sym (map_requirements_order p h))
