-- ===== src/CatalogKeys.antt =====
-- internal/catalogkeys/policy.go: the key policy's identifiers, digests and sequence floors.
-- `Validate` collects errors; each of its loops is here the test that it adds none. Its test of the key
-- material and the JSON encoding are not modelled.
pub mod Floors
use Prim.Native.Nat.{Ordering}
use dalec_homebrew.Prelude.{
  ℕ, Bool, true, false, not, ◌&&◌, ◌||◌, List, [], ◌∷◌, all, leb, ltb, ◌==◌, length, if◌then◌else◌,
  Option, none, some, Result, ok, err, fail_if,
}
use dalec_homebrew.GoString.Unicode.{runes}
use dalec_homebrew.GoString.{Bytes, lit, str_eq, contains_byte}
use dalec_homebrew.GoMap.{Map, put}
use dalec_homebrew.Version.{str_compare}
use dalec_homebrew.Catalog.{validate_tap_id, tap_id_is_core}

pub record SequenceFloor : Type 0 where
  pub tap : Bytes
  pub minimum : ℕ

-- One rune of a token.
unfoldable pub token_rune : ℕ → Bool
token_rune r =
    leb b'a' r && leb r b'z'
    || leb b'A' r && leb r b'Z'
    || leb b'0' r && leb r b'9'
    || contains_byte (lit "._-") r

unfoldable pub safe_token : Bytes → Bool
safe_token value =
    if str_eq value [] || ltb 128 (length value) then false else all token_rune (runes value)

pub data KeyError : Type 0 where
  unsafe_key_id : KeyError

-- ValidateKeyID
unfoldable pub validate_key_id : Bytes → Result KeyError Unit
validate_key_id value = fail_if (not (safe_token value)) unsafe_key_id

-- slices.Contains(values, value)
unfoldable pub contains : Bytes → List Bytes → Bool
contains value [] = false
contains value (v ∷ vs) = str_eq v value || contains value vs

-- a < b
abbrev pub str_lt : Bytes → Bytes → Bool
str_lt a b = elim (str_compare a b) [ Ordering.lt ↦ true | _ ↦ false ]

-- The test of sorted and unique behind the previous value, if there is one.
abbrev pub is_next : Option Bytes → Bytes → Bool
is_next none value = true
is_next (some previous) value = str_lt previous value

-- The loop over OverlapKeyIDs; `key_ids` are the identifiers of the keys.
unfoldable pub overlap_ok : Bytes → List Bytes → Option Bytes → List Bytes → Bool
overlap_ok required key_ids previous [] = true
overlap_ok required key_ids previous (k ∷ ks) =
    safe_token k
    && not (str_eq k required)
    && contains k key_ids
    && is_next previous k
    && overlap_ok required key_ids (some k) ks

-- The loop over a list of digests; `is_sha256` is the test of package digest.
unfoldable pub digests_ok : (Bytes → Bool) → Option Bytes → List Bytes → Bool
digests_ok is_sha256 previous [] = true
digests_ok is_sha256 previous (d ∷ ds) =
    is_sha256 d && is_next previous d && digests_ok is_sha256 (some d) ds

-- The loop over SequenceFloors.
unfoldable pub floors_ok : Option Bytes → List SequenceFloor → Bool
floors_ok previous [] = true
floors_ok previous (f ∷ fs) =
    elim (validate_tap_id f.tap) [ ok x ↦ true | err e ↦ false ]
    && not (tap_id_is_core f.tap)
    && not (f.minimum == 0)
    && is_next previous f.tap
    && floors_ok (some f.tap) fs

-- AcceptedKeyIDs
unfoldable pub accepted_key_ids : Bytes → List Bytes → List Bytes
accepted_key_ids required overlap = required ∷ overlap

unfoldable pub write_floors : List SequenceFloor → Map ℕ → Map ℕ
write_floors [] m = m
write_floors (f ∷ fs) m = write_floors fs (put f.tap f.minimum m)

-- MinimumSequences
unfoldable pub minimum_sequences : List SequenceFloor → Map ℕ
minimum_sequences floors = write_floors floors []
