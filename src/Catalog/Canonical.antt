-- ===== src/Catalog/Canonical.antt =====
-- Which strings of the protocol are canonical, and what the parsers make of them.
use dalec_homebrew.Prelude.{
  ◌≡◌, ◌↔◌, inl, inr, refl, ok, arith, Result-cases, ◌++◌, ℕ, [], ◌∷◌, false,
}
use dalec_homebrew.GoString.{Bytes, lit, str_eq, str_eq_iff}
use dalec_homebrew.FormulaId.{FormulaId, Tap, parse, id_string, tap_string}
use dalec_homebrew.FormulaId.Valid.{IsFormulaId, IsTap, StartsWith}
use dalec_homebrew.FormulaId.Parse.{parse_iff, parse_tap_iff, parse-id_string}
use dalec_homebrew.Catalog.{
  parse_formula_id, formula_shared, validate_formula_id, formula_id_tap, formula_id_name,
  tap_id_owner, tap_id_name, tap_id_repository,
}

-- `FormulaID.Shared` returns an identity exactly when it is canonical and the string spells it in full.
pub formula_shared_iff :
    (s : Bytes) (id : FormulaId)
    → (formula_shared s ≡ ok id) ↔ (IsFormulaId id × (s ≡ id_string id))
unfolding formula_shared
formula_shared_iff s id = (
  λ h. elim (Result-cases (parse s)) [
    | inl (p, e) ↦ ground (arith, e, h, (parse_iff s p).0 e, str_eq_iff (id_string p) s)
    | inr (x, e) ↦ absurd (ground (arith, e, h))
  ],
  λ (v, e). rw e (ground (arith, parse-id_string id v, str_eq_iff (id_string id) (id_string id))),
)

-- Whatever `ParseFormulaID` returns is accepted by `FormulaID.Validate`, and parses to itself.
pub parse_formula_id-validate_formula_id :
    (s r : Bytes)
    → parse_formula_id s ≡ ok r
    → (validate_formula_id r ≡ ok tt) × (parse_formula_id r ≡ ok r)
unfolding parse_formula_id validate_formula_id
parse_formula_id-validate_formula_id s r h = elim (Result-cases (parse s)) [
  | inl (p, e) ↦
      let v = ((parse_iff s p).0 e).0 in
      let same : r ≡ id_string p = ground (arith, e, h) in
      rw same (
        ground (arith, parse-id_string p v, str_eq_iff (id_string p) (id_string p)),
        ground (arith, parse-id_string p v),
      )
  | inr (x, e) ↦ absurd (ground (arith, e, h))
]

StartsWith-nonempty : (P : ℕ → Type 0) (s : Bytes) → StartsWith P s → str_eq s [] ≡ false
unfolding str_eq
StartsWith-nonempty P [] h = absurd h
StartsWith-nonempty P (c ∷ s) h = refl

tap_id_repository_lem :
    (tap : Bytes) (t : Tap)
    → IsTap t
    → tap_id_owner tap ≡ t.owner
    → tap_id_name tap ≡ t.name
    → tap_id_repository tap ≡ lit "https://github.com/" ++ t.owner ++ lit "/homebrew-" ++ t.name
unfolding tap_id_repository
tap_id_repository_lem tap t v o n =
    rw
      (
        tap_id_repository,
        o,
        n,
        StartsWith-nonempty _ t.owner v.owner.first,
        StartsWith-nonempty _ t.name v.name.first,
      )
      refl

-- The tap and the name of a canonical identity are read back from its full spelling; and from the
-- spelling of its tap, the tap's owner and name, and the tap's repository on github.com.
pub id_string-parts :
    (id : FormulaId)
    → IsFormulaId id
    → (formula_id_tap (id_string id) ≡ tap_string id.tap)
      × (formula_id_name (id_string id) ≡ id.name)
      × (tap_id_owner (tap_string id.tap) ≡ id.tap.owner)
      × (tap_id_name (tap_string id.tap) ≡ id.tap.name)
      × (tap_id_repository (tap_string id.tap)
          ≡ lit "https://github.com/" ++ id.tap.owner ++ lit "/homebrew-" ++ id.tap.name)
unfolding formula_id_tap formula_id_name tap_id_owner tap_id_name
id_string-parts id v =
    let p = parse-id_string id v in
    let t = (parse_tap_iff (tap_string id.tap) id.tap).1 (v.tap, refl) in
    let same = (str_eq_iff (id_string id) (id_string id)).1 refl in
    let same_tap = (str_eq_iff (tap_string id.tap) (tap_string id.tap)).1 refl in
    let owner : tap_id_owner (tap_string id.tap) ≡ id.tap.owner = ground (arith, t, same_tap) in
    let name : tap_id_name (tap_string id.tap) ≡ id.tap.name = ground (arith, t, same_tap) in
    (
      ground (arith, p, same),
      ground (arith, p, same),
      owner,
      name,
      tap_id_repository_lem (tap_string id.tap) id.tap v.tap owner name,
    )
