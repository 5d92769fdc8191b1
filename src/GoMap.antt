-- ===== src/GoMap.antt =====
-- A Go map with strings for keys, as the list of its entries; a write to a new key goes to the end.
use dalec_homebrew.Prelude.{
  Bool, true, false, ◌≡◌, List, [], ◌∷◌, Option, none, some, if◌then◌else◌, refl, arith, Bool-cases,
  inl, inr,
}
use dalec_homebrew.GoString.{Bytes, str_eq, str_eq_iff}

abbrev pub Map : Type 0 → Type 0
Map V = List (Bytes × V)

module _ {V : Type 0} where
  -- v, ok := m[k]
  unfoldable pub lookup : Bytes → Map V → Option V
  lookup k [] = none
  lookup k ((j, v) ∷ m) = if str_eq j k then some v else lookup k m

  -- m[k] = v
  unfoldable pub put : Bytes → V → Map V → Map V
  put k v [] = (k, v) ∷ []
  put k v ((j, w) ∷ m) = let rest = put k v m in if str_eq j k then (j, v) ∷ m else (j, w) ∷ rest

  -- _, ok := m[k]
  abbrev pub has : Bytes → Map V → Bool
  has k m = elim (lookup k m) [ none ↦ false | some v ↦ true ]

  -- m[k], with the zero value `zero_value` for a missing key
  abbrev pub get_or : V → Bytes → Map V → V
  get_or zero_value k m = elim (lookup k m) [ none ↦ zero_value | some v ↦ v ]

  pub lookup-put :
      (j k : Bytes) (v : V) (m : Map V)
      → lookup j (put k v m) ≡ (if str_eq k j then some v else lookup j m)
  unfolding lookup put
  lookup-put j k v [] = refl
  lookup-put j k v ((i, w) ∷ m) = elim (Bool-cases (str_eq i k)) [
    | inl e ↦ ground (arith, e, str_eq_iff i k)
    | inr e ↦ ground (arith, e, str_eq_iff i k, str_eq_iff k j, str_eq_iff i j, lookup-put j k v m)
  ]

  -- A write keeps the keys and adds its own.
  pub has-put : (j k : Bytes) (v : V) (m : Map V) → has j m ≡ true → has j (put k v m) ≡ true
  has-put j k v m h = ground (arith, h, lookup-put j k v m)

  pub has-put_self : (k : Bytes) (v : V) (m : Map V) → has k (put k v m) ≡ true
  has-put_self k v m = ground (arith, lookup-put k k v m, str_eq_iff k k)
