-- ===== src/Catalog.antt =====
-- internal/catalog/identity.go: the identities of the catalog protocol, which are strings.
-- The decoding of JSON strings is not modelled.
pub mod Canonical
use dalec_homebrew.Prelude.{
  Bool, true, false, not, ◌&&◌, ◌||◌, List, [], ◌∷◌, ◌++◌, map, if◌then◌else◌, Result, ok, err,
  ◌>>=◌, ◌>>◌, fail_if, map_err,
}
use dalec_homebrew.GoString.{Bytes, lit, str_eq}
use dalec_homebrew.FormulaId.{
  Tap, FormulaId, Error, core_tap, parse, parse_tap, parse_roots, tap_string, id_string, new_id,
}

pub data WireError : Type 0 where
  malformed : Error → WireError
  not_qualified : WireError

-- ParseTapID
unfoldable pub parse_tap_id : Bytes → Result Error Bytes
parse_tap_id value = parse_tap value >>= λ t. ok (tap_string t)

-- ParseFormulaID
unfoldable pub parse_formula_id : Bytes → Result Error Bytes
parse_formula_id value = parse value >>= λ id. ok (id_string id)

-- TapIDFromShared and FormulaIDFromShared
abbrev pub tap_id_from_shared : Tap → Bytes
tap_id_from_shared t = tap_string t

abbrev pub formula_id_from_shared : FormulaId → Bytes
formula_id_from_shared id = id_string id

-- TapID.Shared
unfoldable pub tap_shared : Bytes → Result Error Tap
tap_shared id = parse_tap id

-- FormulaID.Shared
unfoldable pub formula_shared : Bytes → Result WireError FormulaId
formula_shared id = do
  parsed ← map_err malformed (parse id)
  fail_if (not (str_eq (id_string parsed) id)) not_qualified
  ok parsed

-- ParseFormulaIDs
unfoldable pub parse_formula_ids : List Bytes → Result Error (List Bytes)
parse_formula_ids values = parse_roots values >>= λ ids. ok (map id_string ids)

-- TapID.Validate
unfoldable pub validate_tap_id : Bytes → Result WireError Unit
validate_tap_id id = do
  parsed ← map_err malformed (parse_tap id)
  fail_if (not (str_eq (tap_string parsed) id)) not_qualified

-- FormulaID.Validate
unfoldable pub validate_formula_id : Bytes → Result WireError Unit
validate_formula_id id = do
  parsed ← map_err malformed (parse id)
  fail_if (not (str_eq (id_string parsed) id)) not_qualified

-- FormulaID.Tap
unfoldable pub formula_id_tap : Bytes → Bytes
formula_id_tap id = elim (parse id) [
  | err e ↦ []
  | ok parsed ↦ if not (str_eq (id_string parsed) id) then [] else tap_string parsed.tap
]

-- FormulaID.Name
unfoldable pub formula_id_name : Bytes → Bytes
formula_id_name id = elim (parse id) [
  | err e ↦ []
  | ok parsed ↦ if not (str_eq (id_string parsed) id) then [] else parsed.name
]

-- TapID.Owner
unfoldable pub tap_id_owner : Bytes → Bytes
tap_id_owner id = elim (parse_tap id) [
  | err e ↦ []
  | ok parsed ↦ if not (str_eq (tap_string parsed) id) then [] else parsed.owner
]

-- TapID.Name
unfoldable pub tap_id_name : Bytes → Bytes
tap_id_name id = elim (parse_tap id) [
  | err e ↦ []
  | ok parsed ↦ if not (str_eq (tap_string parsed) id) then [] else parsed.name
]

-- FormulaID.IsCore and TapID.IsCore
unfoldable pub formula_id_is_core : Bytes → Bool
formula_id_is_core id = str_eq (formula_id_tap id) (tap_string core_tap)

unfoldable pub tap_id_is_core : Bytes → Bool
tap_id_is_core id = str_eq id (tap_string core_tap)

-- TapID.DefaultGitHubRepository
unfoldable pub tap_id_repository : Bytes → Bytes
tap_id_repository id =
    if str_eq (tap_id_owner id) [] || str_eq (tap_id_name id) []
    then []
    else lit "https://github.com/" ++ tap_id_owner id ++ lit "/homebrew-" ++ tap_id_name id

-- validateFormulaName
unfoldable pub validate_catalog_name : Bytes → Result Error Unit
validate_catalog_name value = new_id core_tap value >>= λ id. ok tt
