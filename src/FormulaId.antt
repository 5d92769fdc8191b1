-- ===== src/FormulaId.antt =====
-- internal/homebrew/formulaid/formulaid.go: canonical tap and Formula identities.
-- An error is its sentinel with the reason for it; the message text is not modelled.
pub mod Valid
pub mod Validate
pub mod Parse
pub mod Roots
pub mod Safe
use dalec_homebrew.Prelude.{
  ℕ, ◌+◌, Bool, true, false, not, ◌&&◌, ◌||◌, List, [], ◌∷◌, ◌++◌, Option, none, some, length, all,
  ltb, leb, ◌==◌, if◌then◌else◌, Result, ok, err, ◌>>=◌, ◌>>◌, fail_if, map_err,
}
use dalec_homebrew.GoString.{Bytes, lit, str_eq, count, has_suffix, contains_byte, split, cut}

-- The component that a reason speaks of.
pub data Kind : Type 0 where
  owner_kind tap_kind formula_kind : Kind

pub data Reason : Type 0 where
  empty dot_name too_long bad_edge bad_byte : Kind → Reason
  bad_version_syntax wrong_shape identity_too_long : Reason
  -- an index past the end of a string, where Go panics
  out_of_range : Reason

pub data Error : Type 0 where
  invalid_formula_id invalid_tap : Reason → Error
  duplicate_root : ℕ → ℕ → Error
  at_root : ℕ → Error → Error

abbrev pub max_owner_bytes : ℕ
max_owner_bytes = 39

abbrev pub max_tap_bytes : ℕ
max_tap_bytes = 91

abbrev pub max_formula_bytes : ℕ
max_formula_bytes = 252

abbrev pub max_tap_id_bytes : ℕ
max_tap_id_bytes = max_owner_bytes + 1 + max_tap_bytes

abbrev pub max_formula_id_bytes : ℕ
max_formula_id_bytes = max_tap_id_bytes + 1 + max_formula_bytes

pub record Tap : Type 0 where
  pub owner : Bytes
  pub name : Bytes

pub record FormulaId : Type 0 where
  pub tap : Tap
  pub name : Bytes

abbrev pub core_tap : Tap
core_tap = record { owner = lit "homebrew"; name = lit "core" }

-- `==` on the two struct types
unfoldable pub tap_eq : Tap → Tap → Bool
tap_eq s t = str_eq s.owner t.owner && str_eq s.name t.name

unfoldable pub id_eq : FormulaId → FormulaId → Bool
id_eq a b = tap_eq a.tap b.tap && str_eq a.name b.name

abbrev pub zero_tap : Tap
zero_tap = record { owner = []; name = [] }

abbrev pub zero_id : FormulaId
zero_id = record { tap = zero_tap; name = [] }

-- Tap.String and FormulaID.String
unfoldable pub tap_string : Tap → Bytes
tap_string t = if tap_eq t zero_tap then [] else t.owner ++ b'/' ∷ t.name

unfoldable pub id_string : FormulaId → Bytes
id_string id = if id_eq id zero_id then [] else tap_string id.tap ++ b'/' ∷ id.name

unfoldable pub is_lower_alpha_numeric : ℕ → Bool
is_lower_alpha_numeric c = leb b'a' c && leb c b'z' || leb b'0' c && leb c b'9'

abbrev Check : Type 0
Check = Result Reason Unit

unfoldable pub validate_component : Kind → Bytes → ℕ → Check
validate_component kind value max_bytes = do
  fail_if (str_eq value []) (empty kind)
  fail_if (str_eq value (lit ".") || str_eq value (lit "..")) (dot_name kind)
  fail_if (ltb max_bytes (length value)) (too_long kind)

-- s[0] and s[len(s)-1]
unfoldable pub first_byte : Bytes → Result Reason ℕ
first_byte [] = err out_of_range
first_byte (c ∷ cs) = ok c

unfoldable pub last_byte : Bytes → Result Reason ℕ
last_byte [] = err out_of_range
last_byte (c ∷ []) = ok c
last_byte (c ∷ d ∷ cs) = last_byte (d ∷ cs)

-- One round of the loop of `validateOwner`: the new value of `previousHyphen`.
unfoldable pub owner_round : Bool → ℕ → Option Bool
owner_round previous_hyphen c =
    if is_lower_alpha_numeric c
    then some false
    else if c == b'-' && not previous_hyphen
    then some true
    else none

unfoldable pub owner_loop : Bool → Bytes → Check
unfolding owner_round
owner_loop previous_hyphen [] = ok tt
owner_loop previous_hyphen (c ∷ cs) = elim (owner_round previous_hyphen c) [
  | none ↦ err (bad_byte owner_kind)
  | some hyphen ↦ owner_loop hyphen cs
]

unfoldable pub validate_owner : Bytes → Check
unfolding first_byte
validate_owner owner = do
  validate_component owner_kind owner max_owner_bytes
  first ← first_byte owner
  last ← last_byte owner
  fail_if (not (is_lower_alpha_numeric first) || not (is_lower_alpha_numeric last))
      (bad_edge owner_kind)
  owner_loop false owner

-- The bytes that the loops of `validateTapName` and `validateFormulaName` let through.
unfoldable pub tap_byte : ℕ → Bool
unfolding contains_byte
tap_byte c = is_lower_alpha_numeric c || contains_byte (lit "._-") c

unfoldable pub formula_byte : ℕ → Bool
unfolding contains_byte
formula_byte c = is_lower_alpha_numeric c || contains_byte (lit "+_.@-") c

unfoldable pub validate_tap_name : Bytes → Check
unfolding first_byte
validate_tap_name name = do
  validate_component tap_kind name max_tap_bytes
  first ← first_byte name
  fail_if (not (is_lower_alpha_numeric first)) (bad_edge tap_kind)
  fail_if (not (all tap_byte name)) (bad_byte tap_kind)

unfoldable pub validate_formula_name : Bytes → Check
unfolding first_byte
validate_formula_name name = do
  validate_component formula_kind name max_formula_bytes
  first ← first_byte name
  fail_if (not (is_lower_alpha_numeric first)) (bad_edge formula_kind)
  fail_if (ltb 1 (count b'@' name) || has_suffix name (lit "@")) bad_version_syntax
  fail_if (not (all formula_byte name)) (bad_byte formula_kind)

-- newTap
unfoldable pub checked_tap : Bytes → Bytes → Result Reason Tap
checked_tap owner name = elim (validate_owner owner >> validate_tap_name name) [
  | ok _ ↦ ok (record { owner = owner; name = name })
  | err e ↦ err e
]

unfoldable pub validate_tap : Tap → Check
validate_tap t = validate_owner t.owner >> validate_tap_name t.name

-- newFormulaID
unfoldable pub checked_id : Tap → Bytes → Result Reason FormulaId
checked_id t name = elim (validate_tap t >> validate_formula_name name) [
  | ok _ ↦ ok (record { tap = t; name = name })
  | err e ↦ err e
]

unfoldable pub new_tap : Bytes → Bytes → Result Error Tap
new_tap owner name = map_err invalid_tap (checked_tap owner name)

-- New
unfoldable pub new_id : Tap → Bytes → Result Error FormulaId
new_id t name = map_err invalid_formula_id (checked_id t name)

-- The body of `ParseTap`; each error is wrapped in ErrInvalidTap.
unfoldable pub tap_of_string : Bytes → Result Reason Tap
tap_of_string input =
    if ltb max_tap_id_bytes (length input)
    then err identity_too_long
    else if not (count b'/' input == 1)
    then err wrong_shape
    else (let (owner, name) = cut b'/' input in checked_tap owner name)

unfoldable pub parse_tap : Bytes → Result Error Tap
parse_tap input = map_err invalid_tap (tap_of_string input)

-- `case 2` of the switch of `Parse`
unfoldable pub id_of_parts : List Bytes → Result Reason FormulaId
id_of_parts (owner ∷ tap ∷ name ∷ _) = elim (checked_tap owner tap) [
  | ok t ↦ checked_id t name
  | err e ↦ err e
]
id_of_parts _ = err out_of_range

-- The body of `Parse`; each error is wrapped in ErrInvalidFormulaID.
unfoldable pub id_of_string : Bytes → Result Reason FormulaId
id_of_string input =
    if ltb max_formula_id_bytes (length input)
    then err identity_too_long
    else if count b'/' input == 0
    then checked_id core_tap input
    else if count b'/' input == 2
    then id_of_parts (split b'/' input)
    else err wrong_shape

unfoldable pub parse : Bytes → Result Error FormulaId
parse input = map_err invalid_formula_id (id_of_string input)

-- seen[id], the map of `ParseRoots`
unfoldable pub seen_at : FormulaId → List (FormulaId × ℕ) → Option ℕ
seen_at id [] = none
seen_at id ((k, i) ∷ seen) = if id_eq k id then some i else seen_at id seen

-- The body of the loop of `ParseRoots` at index `i`.
unfoldable pub root_round : List (FormulaId × ℕ) → ℕ → Bytes → Result Error FormulaId
root_round seen i root = do
  id ← map_err (at_root i) (parse root)
  elim (seen_at id seen) [ some first ↦ err (duplicate_root first i) | none ↦ ok id ]

unfoldable pub parse_roots_from :
    List (FormulaId × ℕ) → ℕ → List Bytes → Result Error (List FormulaId)
parse_roots_from seen i [] = ok []
parse_roots_from seen i (root ∷ roots) = do
  id ← root_round seen i root
  ids ← parse_roots_from ((id, i) ∷ seen) (i + 1) roots
  ok (id ∷ ids)

unfoldable pub parse_roots : List Bytes → Result Error (List FormulaId)
parse_roots = parse_roots_from [] 0
