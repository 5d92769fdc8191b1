-- ===== src/CatalogService/Sequence.antt =====
-- `nextSequence` of internal/catalogservice/store.go: the number that a tap's catalog gets for its
-- source. The store is what the sequence directory holds; what a call of the file system answers is
-- an argument, and a file is what reading and decoding it give.
pub mod Advances
pub mod History
pub mod Bounds
use Prim.Native.Nat.{◌^◌}
use dalec_homebrew.Prelude.{
  ℕ, ◌+◌, ◌-◌, Bool, true, false, not, ◌||◌, List, [], ◌∷◌, ◌++◌, Option, none, some, ◌==◌,
  if◌then◌else◌, Result, ok, err, ◌≡◌, refl, ◌⊎◌, inl, inr,
}
use dalec_homebrew.GoString.{Bytes, lit, str_eq}
use dalec_homebrew.GoMap.{Map, lookup, put}
use dalec_homebrew.Catalog.{validate_tap_id, tap_id_is_core, tap_id_owner, tap_id_name}

pub record SequenceState : Type 0 where
  pub schema_version : Bytes
  pub tap : Bytes
  pub sequence : ℕ
  pub source_identity : Bytes

pub data File : Type 0 where
  -- readBoundedFile or decodeStrictJSON fails
  unreadable undecodable : File
  state_file : SequenceState → File

pub data Entry : Type 0 where
  -- a real directory, with the mode 0700 or with another
  directory : Bool → Entry
  other_entry : Entry

pub record Store : Type 0 where
  pub owners : Map Entry
  pub files : Map File

-- How atomicWrite ends: with an error before its rename or from it, so that the old file stays; with
-- the error of syncDirectory behind the rename; or without one.
pub data Write : Type 0 where
  unwritten unsynced synced : Write

pub write-cases : (w : Write) → (w ≡ unwritten) ⊎ (w ≡ unsynced) ⊎ (w ≡ synced)
write-cases unwritten = inl refl
write-cases unsynced = inr (inl refl)
write-cases synced = inr (inr refl)

-- Whether os.Mkdir and the read of the tap's file succeed, and how atomicWrite ends; os.Lstat is taken
-- to tell what is there.
pub record Io : Type 0 where
  pub mkdir_ok : Bool
  pub read_ok : Bool
  pub write : Write

pub data SequenceError : Type 0 where
  invalid_tap core_tap_sequence invalid_identity no_directory unsafe_directory : SequenceError
  unreadable_state undecodable_state invalid_state exhausted write_failed : SequenceError

abbrev pub sequence_schema_version : Bytes
sequence_schema_version = lit "dalec-homebrew-catalog-sequence/v2"

-- ^uint64(0)
abbrev pub max_uint64 : ℕ
max_uint64 = 2 ^ 64 - 1

unfoldable pub sequence_path : Bytes → Bytes
sequence_path tap = tap_id_owner tap ++ (b'/' ∷ (tap_id_name tap ++ lit ".json"))

-- The test of the owner's directory, which is made if it is missing.
unfoldable pub owner_directory : Io → Bytes → Map Entry → Result SequenceError (Map Entry)
owner_directory io owner owners = elim (lookup owner owners) [
  | none ↦ if io.mkdir_ok then ok (put owner (directory true) owners) else err no_directory
  | some (directory true) ↦ ok owners
  | some (directory false) ↦ err unsafe_directory
  | some other_entry ↦ err no_directory
]

-- The store behind the rename of atomicWrite: the tap's file has the number behind `current`.
unfoldable pub with_next : Bytes → Bytes → ℕ → Store → Store
with_next tap identity current s = record s {
  files =
      put (sequence_path tap)
        (state_file (record {
          schema_version = sequence_schema_version;
          tap = tap;
          sequence = current + 1;
          source_identity = identity;
        }))
        s.files;
}

-- The end of the function: the next number behind `current` is written, and returned where
-- atomicWrite returns no error.
unfoldable pub advance : Io → Bytes → Bytes → ℕ → Store → Store × Result SequenceError ℕ
advance io tap identity current s =
    if current == max_uint64 then (s, err exhausted) else elim io.write [
      | unwritten ↦ (s, err write_failed)
      | unsynced ↦ (with_next tap identity current s, err write_failed)
      | synced ↦ (with_next tap identity current s, ok (current + 1))
    ]

unfoldable pub is_invalid_state : Bytes → SequenceState → Bool
is_invalid_state tap st =
    not (str_eq st.schema_version sequence_schema_version)
    || not (str_eq st.tap tap)
    || st.sequence == 0
    || str_eq st.source_identity []

-- The rest of the function for the file that was read.
unfoldable pub next_from : Io → Bytes → Bytes → Option File → Store → Store × Result SequenceError ℕ
next_from io tap identity none s = advance io tap identity 0 s
next_from io tap identity (some unreadable) s = (s, err unreadable_state)
next_from io tap identity (some undecodable) s = (s, err undecodable_state)
next_from io tap identity (some (state_file st)) s =
    if is_invalid_state tap st
    then (s, err invalid_state)
    else if str_eq st.source_identity identity
    then (s, ok st.sequence)
    else advance io tap identity st.sequence s

-- The part of the function behind the tests of its arguments.
unfoldable pub next_in_store : Io → Bytes → Bytes → Store → Store × Result SequenceError ℕ
next_in_store io tap identity s = elim (owner_directory io (tap_id_owner tap) s.owners) [
  | err e ↦ (s, err e)
  | ok owners ↦
      if not io.read_ok
      then (record s { owners = owners }, err unreadable_state)
      else next_from io tap identity (lookup (sequence_path tap) s.files)
          (record s { owners = owners })
]

-- `is_sha256` is the test of package digest on an identity.
module _ (is_sha256 : Bytes → Bool) where
  unfoldable pub next_sequence : Io → Bytes → Bytes → Store → Store × Result SequenceError ℕ
  next_sequence io tap identity s = elim (validate_tap_id tap) [
    | err e ↦ (s, err invalid_tap)
    | ok x ↦
        if tap_id_is_core tap
        then (s, err core_tap_sequence)
        else if not (is_sha256 identity)
        then (s, err invalid_identity)
        else next_in_store io tap identity s
  ]

  -- A call of the service: what the file system does, the tap and the source's identity.
  abbrev pub Call : Type 0
  Call = Io × Bytes × Bytes

  -- The store behind a list of calls.
  unfoldable pub run_calls : List Call → Store → Store
  run_calls [] s = s
  run_calls ((io, tap, identity) ∷ calls) s = run_calls calls (next_sequence io tap identity s).0
