-- ===== src/Tests/Policies.antt =====
-- Catalog identities and the key policy on concrete inputs.
use dalec_homebrew.Prelude.{◌≡◌, ◌↔◌, refl, inl, inr, [], ◌∷◌, ok, List, true, none, some, ◌++◌}
use dalec_homebrew.GoString.{lit, str_eq, count, has_suffix, contains_byte, cut}
use dalec_homebrew.GoMap.{lookup}
use dalec_homebrew.FormulaId.{
  first_byte, last_byte, is_lower_alpha_numeric, owner_round, owner_loop, tap_byte,
  validate_component, validate_owner, validate_tap_name, checked_tap, tap_of_string, parse_tap,
  id_string, tap_eq, id_eq, tap_string,
}
use dalec_homebrew.FormulaId.Valid.{IsFormulaId}
use dalec_homebrew.Version.{str_compare}
use dalec_homebrew.Catalog.{
  parse_formula_id, validate_formula_id, formula_shared, validate_tap_id, tap_id_is_core,
  formula_id_tap, formula_id_name, tap_id_owner, tap_id_name, tap_id_repository,
}
use dalec_homebrew.Catalog.Canonical.{
  formula_shared_iff, parse_formula_id-validate_formula_id, id_string-parts,
}
use dalec_homebrew.CatalogKeys.{SequenceFloor, floors_ok, minimum_sequences}
use dalec_homebrew.CatalogKeys.Floors.{minimum_sequences-In}
use dalec_homebrew.Tests.Identities.{jq, gtk, gtk-IsFormulaId, jq-parsed}

formula_shared_iff_example :
    (formula_shared (lit "homebrew/core/jq") ≡ ok jq)
    ↔ (IsFormulaId jq × (lit "homebrew/core/jq" ≡ id_string jq))
formula_shared_iff_example = formula_shared_iff (lit "homebrew/core/jq") jq

jq-qualified : parse_formula_id (lit "jq") ≡ ok (lit "homebrew/core/jq")
unfolding parse_formula_id id_string id_eq tap_eq tap_string str_eq
jq-qualified = rw jq-parsed

parse_formula_id-validate_formula_id_example :
    (validate_formula_id (lit "homebrew/core/jq") ≡ ok tt)
    × (parse_formula_id (lit "homebrew/core/jq") ≡ ok (lit "homebrew/core/jq"))
parse_formula_id-validate_formula_id_example =
    parse_formula_id-validate_formula_id (lit "jq") (lit "homebrew/core/jq") jq-qualified

id_string-parts_example :
    (formula_id_tap (id_string gtk) ≡ tap_string gtk.tap)
    × (formula_id_name (id_string gtk) ≡ gtk.name)
    × (tap_id_owner (tap_string gtk.tap) ≡ gtk.tap.owner)
    × (tap_id_name (tap_string gtk.tap) ≡ gtk.tap.name)
    × (tap_id_repository (tap_string gtk.tap)
        ≡ lit "https://github.com/" ++ gtk.tap.owner ++ lit "/homebrew-" ++ gtk.tap.name)
id_string-parts_example = id_string-parts gtk gtk-IsFormulaId

abbrev floor : SequenceFloor
floor = record { tap = lit "my-org/tools"; minimum = 7 }

abbrev floors : List SequenceFloor
floors = record { tap = lit "a/b"; minimum = 3 } ∷ floor ∷ []

floors-pass : floors_ok none floors ≡ true
unfolding str_eq count has_suffix contains_byte cut first_byte last_byte is_lower_alpha_numeric
    owner_round owner_loop tap_byte validate_component validate_owner validate_tap_name checked_tap
    tap_of_string parse_tap tap_eq tap_string str_compare validate_tap_id tap_id_is_core floors_ok
floors-pass = refl

minimum_sequences-In_example : lookup (lit "my-org/tools") (minimum_sequences floors) ≡ some 7
minimum_sequences-In_example = minimum_sequences-In floors floor floors-pass (inr (inl refl))
