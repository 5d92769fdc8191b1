-- ===== src/Tests/Identities.antt =====
-- formulaid.go on concrete identities.
use dalec_homebrew.Prelude.{◌≡◌, ◌≢◌, ◌↔◌, refl, [], ◌∷◌, ok, err}
use dalec_homebrew.GoString.{lit, str_eq, count, has_prefix, has_suffix, contains_byte, split, cut}
use dalec_homebrew.FormulaId.{
  Tap, FormulaId, owner_kind, bad_byte, duplicate_root, validate_owner, validate_tap_name,
  validate_formula_name, validate_tap, validate_component, is_lower_alpha_numeric, tap_byte,
  formula_byte, first_byte, last_byte, owner_loop, owner_round, checked_tap, checked_id, core_tap,
  tap_string, id_eq, tap_eq, parse, parse_tap, id_of_string, id_of_parts, tap_of_string,
  parse_roots, parse_roots_from, root_round, seen_at, invalid_formula_id, invalid_tap, out_of_range,
}
use dalec_homebrew.FormulaId.Valid.{IsOwner, IsTapName, IsTap, IsFormulaId}
use dalec_homebrew.FormulaId.Validate.{validate_owner_iff, validate_tap_name_iff}
use dalec_homebrew.FormulaId.Parse.{Names, parse_iff, parse_tap_iff}
use dalec_homebrew.FormulaId.Roots.{Roots, parse_roots_iff}
use dalec_homebrew.FormulaId.Safe.{parse-safe}

abbrev pub tools : Tap
tools = record { owner = lit "my-org"; name = lit "tools" }

abbrev pub gtk : FormulaId
gtk = record { tap = tools; name = lit "gtk+@3" }

abbrev pub jq : FormulaId
jq = record { tap = core_tap; name = lit "jq" }

abbrev pub gtkx : FormulaId
gtkx = record { tap = tools; name = lit "gtkx@3" }

tests :
    (parse (lit "my-org/tools/gtk+@3") ≡ ok gtk)
    × (parse (lit "jq") ≡ ok jq)
    × (parse (lit "homebrew/core/jq") ≡ ok jq)
    × (parse_tap (lit "my-org/tools") ≡ ok tools)
    × (validate_owner (lit "a--b") ≡ err (bad_byte owner_kind))
    × (parse_roots (lit "jq" ∷ lit "my-org/tools/gtk+@3" ∷ []) ≡ ok (jq ∷ gtk ∷ []))
    × (parse (lit "my-org/tools/gtkx@3") ≡ ok gtkx)
    × (parse_roots (lit "jq" ∷ lit "homebrew/core/jq" ∷ []) ≡ err (duplicate_root 0 1))
unfolding str_eq count has_prefix has_suffix contains_byte split cut is_lower_alpha_numeric tap_byte
    formula_byte first_byte last_byte owner_round owner_loop validate_component validate_owner
    validate_tap_name validate_formula_name validate_tap checked_tap checked_id tap_of_string
    parse_tap id_of_parts id_of_string parse id_eq tap_eq seen_at root_round parse_roots_from
    parse_roots
tests = (refl, refl, refl, refl, refl, refl, refl, refl)

pub jq-parsed : parse (lit "jq") ≡ ok jq
jq-parsed = tests.1

pub tools-IsTap : IsTap tools
tools-IsTap = ((parse_tap_iff (lit "my-org/tools") tools).0 tests.3).0

pub gtk-IsFormulaId : IsFormulaId gtk
gtk-IsFormulaId = ((parse_iff (lit "my-org/tools/gtk+@3") gtk).0 tests.0).0

pub gtkx-IsFormulaId : IsFormulaId gtkx
gtkx-IsFormulaId = ((parse_iff (lit "my-org/tools/gtkx@3") gtkx).0 tests.6).0

pub jq-IsFormulaId : IsFormulaId jq
jq-IsFormulaId = ((parse_iff (lit "jq") jq).0 tests.1).0

parse_iff_example :
    (parse (lit "my-org/tools/gtk+@3") ≡ ok gtk) ↔ Names (lit "my-org/tools/gtk+@3") gtk
parse_iff_example = parse_iff (lit "my-org/tools/gtk+@3") gtk

parse_roots_iff_example :
    (parse_roots (lit "jq" ∷ lit "my-org/tools/gtk+@3" ∷ []) ≡ ok (jq ∷ gtk ∷ []))
    ↔ Roots (lit "jq" ∷ lit "my-org/tools/gtk+@3" ∷ []) (jq ∷ gtk ∷ [])
parse_roots_iff_example =
    parse_roots_iff (lit "jq" ∷ lit "my-org/tools/gtk+@3" ∷ []) (jq ∷ gtk ∷ [])

parse_tap_iff_example :
    (parse_tap (lit "my-org/tools") ≡ ok tools)
    ↔ (IsTap tools × (lit "my-org/tools" ≡ tap_string tools))
parse_tap_iff_example = parse_tap_iff (lit "my-org/tools") tools

parse-safe_example :
    (parse (lit "//") ≢ err (invalid_formula_id out_of_range))
    × (parse_tap (lit "//") ≢ err (invalid_tap out_of_range))
parse-safe_example = parse-safe (lit "//")

validate_owner_iff_example : (validate_owner (lit "my-org") ≡ ok tt) ↔ IsOwner (lit "my-org")
validate_owner_iff_example = validate_owner_iff (lit "my-org")

validate_tap_name_iff_example : (validate_tap_name (lit "tools") ≡ ok tt) ↔ IsTapName (lit "tools")
validate_tap_name_iff_example = validate_tap_name_iff (lit "tools")
