-- ===== src/FormulaId/Safe.antt =====
-- No index past the end of a string: the Go code does not panic.
use dalec_homebrew.Prelude.{
  ◌≡◌, ◌≢◌, Bool, true, false, Result-cases, [], ◌∷◌, err, arith, ◌==◌, Bool-cases, inl, inr,
}
use dalec_homebrew.GoString.{Bytes, str_eq, count, split, cut}
use dalec_homebrew.FormulaId.{
  Tap, out_of_range, validate_component, owner_loop, validate_owner, validate_tap_name,
  validate_formula_name, validate_tap, checked_tap, checked_id, id_of_parts, id_of_string, parse,
  invalid_formula_id, core_tap, tap_of_string, parse_tap, invalid_tap,
}
use dalec_homebrew.FormulaId.Validate.{last_byte-cons}
use dalec_homebrew.FormulaId.Parse.{split_two}

owner_loop-safe : (h : Bool) (s : Bytes) → owner_loop h s ≢ err out_of_range
unfolding owner_loop
owner_loop-safe h [] = ground arith
owner_loop-safe h (c ∷ s) = ground (arith, owner_loop-safe false s, owner_loop-safe true s)

validate_owner-safe : (s : Bytes) → validate_owner s ≢ err out_of_range
unfolding validate_owner validate_component str_eq
validate_owner-safe [] = ground arith
validate_owner-safe (c ∷ s) = ground (arith, last_byte-cons c s, owner_loop-safe false (c ∷ s))

validate_tap_name-safe : (s : Bytes) → validate_tap_name s ≢ err out_of_range
unfolding validate_tap_name validate_component str_eq
validate_tap_name-safe [] = ground arith
validate_tap_name-safe (c ∷ s) = ground arith

validate_formula_name-safe : (s : Bytes) → validate_formula_name s ≢ err out_of_range
unfolding validate_formula_name validate_component str_eq
validate_formula_name-safe [] = ground arith
validate_formula_name-safe (c ∷ s) = ground arith

checked_tap-safe : (o n : Bytes) → checked_tap o n ≢ err out_of_range
unfolding checked_tap
checked_tap-safe o n = ground (arith, validate_owner-safe o, validate_tap_name-safe n)

checked_id-safe : (t : Tap) (n : Bytes) → checked_id t n ≢ err out_of_range
unfolding checked_id validate_tap
checked_id-safe t n = ground (
  arith,
  validate_owner-safe t.owner,
  validate_tap_name-safe t.name,
  validate_formula_name-safe n,
)

id_of_parts-safe : (a b c : Bytes) → id_of_parts (a ∷ b ∷ c ∷ []) ≢ err out_of_range
unfolding id_of_parts
id_of_parts-safe a b c h = elim (Result-cases (checked_tap a b)) [
  | inl (t, e) ↦ ground (arith, checked_id-safe t c)
  | inr (r, e) ↦ ground (arith, checked_tap-safe a b)
]

split-safe : (s : Bytes) → count b'/' s ≡ 2 → id_of_parts (split b'/' s) ≢ err out_of_range
split-safe s h = let (a, b, c, e, _) = split_two s h in rw e (id_of_parts-safe a b c)

-- `Parse` and `ParseTap` never index past the end of a string, whatever the input.
pub parse-safe :
    (s : Bytes)
    → (parse s ≢ err (invalid_formula_id out_of_range))
      × (parse_tap s ≢ err (invalid_tap out_of_range))
unfolding parse parse_tap id_of_string tap_of_string
parse-safe s = elim (Bool-cases (count b'/' s == 2)) [
  | inl two ↦ ground (
    arith,
    checked_id-safe core_tap s,
    split-safe s,
    checked_tap-safe (cut b'/' s).0 (cut b'/' s).1,
  )
  | inr other ↦
      ground (arith, checked_id-safe core_tap s, checked_tap-safe (cut b'/' s).0 (cut b'/' s).1)
]
