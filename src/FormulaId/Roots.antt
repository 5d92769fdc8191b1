-- ===== src/FormulaId/Roots.antt =====
-- `ParseRoots` of formulaid.go: one identity for each root, in order, and no identity twice.
use dalec_homebrew.Prelude.{ℕ, ◌+◌, ◌≡◌, ◌↔◌, ◌⊎◌, List, [], ◌∷◌, ok, arith, none, true, In, All}
use dalec_homebrew.GoString.{Bytes, str_eq_iff}
use dalec_homebrew.FormulaId.{
  FormulaId, id_eq, tap_eq, seen_at, root_round, parse_roots_from, parse_roots, parse,
}
use dalec_homebrew.FormulaId.Parse.{Names, parse_iff}

pub id_eq_iff : (a b : FormulaId) → (id_eq a b ≡ true) ↔ (a ≡ b)
unfolding id_eq tap_eq
id_eq_iff a b = ground (
  arith,
  str_eq_iff a.tap.owner b.tap.owner,
  str_eq_iff a.tap.name b.tap.name,
  str_eq_iff a.name b.name,
)

-- The identity is among the keys of the map.
abbrev Seen : FormulaId → List (FormulaId × ℕ) → Type 0
Seen id [] = ⊥
Seen id ((k, i) ∷ seen) = (k ≡ id) ⊎ Seen id seen

seen_at_iff :
    (id : FormulaId) (seen : List (FormulaId × ℕ)) → (seen_at id seen ≡ none) ↔ ¬ Seen id seen
unfolding seen_at
seen_at_iff id [] = ground arith
seen_at_iff id ((k, i) ∷ seen) = ground (arith, id_eq_iff k id, seen_at_iff id seen)

-- Each root spells its identity, and no identity stands twice.
abbrev pub Roots : List Bytes → List FormulaId → Type 0
Roots [] [] = Unit
Roots [] (id ∷ ids) = ⊥
Roots (r ∷ rs) [] = ⊥
Roots (r ∷ rs) (id ∷ ids) = Names r id × ¬ In id ids × Roots rs ids

abbrev Fresh : List (FormulaId × ℕ) → List FormulaId → Type 0
Fresh seen ids = All (λ id. ¬ Seen id seen) ids

root_round_iff :
    (seen : List (FormulaId × ℕ)) (i : ℕ) (r : Bytes) (id : FormulaId)
    → (root_round seen i r ≡ ok id) ↔ ((parse r ≡ ok id) × (seen_at id seen ≡ none))
unfolding root_round
root_round_iff seen i r id = ground arith

Fresh-cons :
    (seen : List (FormulaId × ℕ)) (id : FormulaId) (i : ℕ) (ids : List FormulaId)
    → Fresh ((id, i) ∷ seen) ids ↔ (¬ In id ids × Fresh seen ids)
Fresh-cons seen id i [] = (λ _. (λ h. h, tt), λ _. tt)
Fresh-cons seen id i (x ∷ ids) = ground (arith, Fresh-cons seen id i ids)

parse_roots_from_iff :
    (rs : List Bytes) (seen : List (FormulaId × ℕ)) (i : ℕ) (ids : List FormulaId)
    → (parse_roots_from seen i rs ≡ ok ids) ↔ (Roots rs ids × Fresh seen ids)
unfolding parse_roots_from
parse_roots_from_iff [] seen i [] = ground arith
parse_roots_from_iff [] seen i (id ∷ ids) = ground arith
parse_roots_from_iff (r ∷ rs) seen i [] = ground arith
parse_roots_from_iff (r ∷ rs) seen i (id ∷ ids) = ground (
  arith,
  root_round_iff seen i r id,
  parse_iff r id,
  seen_at_iff id seen,
  parse_roots_from_iff rs ((id, i) ∷ seen) (i + 1) ids,
  Fresh-cons seen id i ids,
)

Fresh-nil : (ids : List FormulaId) → Fresh [] ids
Fresh-nil [] = tt
Fresh-nil (id ∷ ids) = (λ h. h, Fresh-nil ids)

-- `ParseRoots` succeeds exactly when each root spells an identity and no two spell the same one;
-- the identities come in the order of the roots.
pub parse_roots_iff :
    (rs : List Bytes) (ids : List FormulaId) → (parse_roots rs ≡ ok ids) ↔ Roots rs ids
unfolding parse_roots
parse_roots_iff rs ids = ground (arith, parse_roots_from_iff rs [] 0 ids, Fresh-nil ids)
