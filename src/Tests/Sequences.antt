-- ===== src/Tests/Sequences.antt =====
-- The sequence numbers of the catalog service on concrete inputs.
use dalec_homebrew.Prelude.{
  ℕ, ◌≤◌, ◌≡◌, refl, [], ◌∷◌, ok, err, Bool, true, arith, Bool-cases, inl, inr,
}
use dalec_homebrew.GoString.{Bytes, lit, str_eq, count, has_suffix, contains_byte, cut}
use dalec_homebrew.GoMap.{lookup, put}
use dalec_homebrew.FormulaId.{
  first_byte, last_byte, is_lower_alpha_numeric, owner_round, owner_loop, tap_byte,
  validate_component, validate_owner, validate_tap_name, checked_tap, tap_of_string, parse_tap,
  tap_string, tap_eq,
}
use dalec_homebrew.Catalog.{validate_tap_id, tap_id_is_core, tap_id_owner, tap_id_name}
use dalec_homebrew.CatalogService.Sequence.{
  state_file, directory, Store, Io, exhausted, max_uint64, sequence_path, sequence_schema_version,
  owner_directory, with_next, synced, unsynced, write_failed, advance, is_invalid_state, next_from,
  next_in_store, next_sequence, run_calls,
}
use dalec_homebrew.CatalogService.Sequence.History.{next_sequence-monotone}
use dalec_homebrew.CatalogService.Sequence.Bounds.{next_sequence-AllFit, AllFit, AnswerFits}

abbrev works : Io
works = record { mkdir_ok = true; read_ok = true; write = synced }

-- The new file is in its place, and the directory cannot be synced.
abbrev half_works : Io
half_works = record { mkdir_ok = true; read_ok = true; write = unsynced }

abbrev tap : Bytes
tap = lit "acme/tools"

-- Identities are not parsed in these tests.
abbrev any_identity : Bytes → Bool
any_identity identity = true

abbrev empty_store : Store
empty_store = record { owners = []; files = [] }

abbrev first_store : Store
first_store = (next_sequence any_identity works tap (lit "a") empty_store).0

first_number : (next_sequence any_identity works tap (lit "a") empty_store).1 ≡ ok 1
unfolding next_sequence validate_tap_id parse_tap tap_of_string count checked_tap validate_owner
    validate_component str_eq cut last_byte is_lower_alpha_numeric owner_loop validate_tap_name
    tap_byte tap_string tap_eq tap_id_is_core tap_id_name tap_id_owner advance with_next
    is_invalid_state next_from next_in_store owner_directory sequence_path first_byte owner_round
    lookup put contains_byte run_calls has_suffix
first_number = refl

second_number :
    (next_sequence any_identity works tap
      (lit "b")
      (run_calls any_identity ((works, tap, lit "a") ∷ []) first_store)).1
    ≡ ok 2
unfolding next_sequence validate_tap_id parse_tap tap_of_string count checked_tap validate_owner
    validate_component str_eq cut last_byte is_lower_alpha_numeric owner_loop validate_tap_name
    tap_byte tap_string tap_eq tap_id_is_core tap_id_name tap_id_owner advance with_next
    is_invalid_state next_from next_in_store owner_directory sequence_path first_byte owner_round
    lookup put contains_byte run_calls has_suffix
second_number = refl

abbrev full : Store
full = record {
  owners = [];
  files =
      (
        lit "acme/tools.json",
        state_file (record {
          schema_version = sequence_schema_version;
          tap = tap;
          sequence = max_uint64;
          source_identity = lit "a";
        }),
      )
      ∷ [];
}

exhausted_number : (next_sequence any_identity works tap (lit "b") full).1 ≡ err exhausted
unfolding next_sequence validate_tap_id parse_tap tap_of_string count checked_tap validate_owner
    validate_component str_eq cut last_byte is_lower_alpha_numeric owner_loop validate_tap_name
    tap_byte tap_string tap_eq tap_id_is_core tap_id_name tap_id_owner advance with_next
    is_invalid_state next_from next_in_store owner_directory sequence_path first_byte owner_round
    lookup put contains_byte run_calls has_suffix
exhausted_number = refl

next_sequence-monotone_example : (1 ≤ 2) × (◌≡◌ {A = ℕ} 1 2 → lit "a" ≡ lit "b")
next_sequence-monotone_example =
    next_sequence-monotone any_identity works works tap (lit "a") (lit "b")
      ((works, tap, lit "a") ∷ []) empty_store 1 2 first_number second_number

-- A store with the number 7 for the source a.
abbrev seventh : Store
seventh = record {
  owners = (lit "acme", directory true) ∷ [];
  files =
      (
        lit "acme/tools.json",
        state_file (record {
          schema_version = sequence_schema_version;
          tap = tap;
          sequence = 7;
          source_identity = lit "a";
        }),
      )
      ∷ [];
}

seventh-AllFit : AllFit seventh.files
unfolding lookup
seventh-AllFit path = elim (Bool-cases (str_eq (lit "acme/tools.json") path)) [
  | inl e ↦ rw e (omega arith)
  | inr e ↦ rw e tt
]

-- The call fails, and the next one for the same source returns the number that it has left.
unsynced_number : (next_sequence any_identity half_works tap (lit "b") seventh).1 ≡ err write_failed
unfolding next_sequence validate_tap_id parse_tap tap_of_string count checked_tap validate_owner
    validate_component str_eq cut last_byte is_lower_alpha_numeric owner_loop validate_tap_name
    tap_byte tap_string tap_eq tap_id_is_core tap_id_name tap_id_owner advance with_next
    is_invalid_state next_from next_in_store owner_directory sequence_path first_byte owner_round
    lookup put contains_byte run_calls has_suffix
unsynced_number = refl

number_behind_unsynced :
    (next_sequence any_identity works tap
      (lit "b")
      (next_sequence any_identity half_works tap (lit "b") seventh).0).1
    ≡ ok 8
unfolding next_sequence validate_tap_id parse_tap tap_of_string count checked_tap validate_owner
    validate_component str_eq cut last_byte is_lower_alpha_numeric owner_loop validate_tap_name
    tap_byte tap_string tap_eq tap_id_is_core tap_id_name tap_id_owner advance with_next
    is_invalid_state next_from next_in_store owner_directory sequence_path first_byte owner_round
    lookup put contains_byte run_calls has_suffix
number_behind_unsynced = refl

next_sequence-AllFit_example :
    AllFit (next_sequence any_identity half_works tap (lit "b") seventh).0.files
    × AnswerFits (next_sequence any_identity half_works tap (lit "b") seventh).1
next_sequence-AllFit_example =
    next_sequence-AllFit any_identity half_works tap (lit "b") seventh seventh-AllFit
