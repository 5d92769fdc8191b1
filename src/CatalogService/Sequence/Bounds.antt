-- ===== src/CatalogService/Sequence/Bounds.antt =====
-- The numbers fit a uint64, and the addition does not wrap around.
use dalec_homebrew.Prelude.{
  ℕ, ◌+◌, ◌≤◌, ◌<◌, ◌≡◌, inl, inr, Option, none, some, ok, err, arith, false, Bool, Bool-cases,
  Result-cases, Result, ◌==◌,
}
use dalec_homebrew.GoString.{Bytes, str_eq}
use dalec_homebrew.GoMap.{Map, lookup, put, lookup-put}
use dalec_homebrew.Catalog.{validate_tap_id, tap_id_is_core, tap_id_owner}
use dalec_homebrew.CatalogService.Sequence.{
  SequenceState, write-cases, with_next, File, state_file, unreadable, undecodable, Store, Io,
  SequenceError, max_uint64, sequence_path, owner_directory, advance, is_invalid_state, next_from,
  next_in_store, next_sequence,
}

-- What a uint64 field of a decoded file holds.
abbrev pub FitsUint64 : Option File → Type 0
FitsUint64 (some (state_file st)) = st.sequence ≤ max_uint64
FitsUint64 _ = Unit

abbrev pub AllFit : Map File → Type 0
AllFit files = (path : Bytes) → FitsUint64 (lookup path files)

-- A number that is answered is a positive uint64.
abbrev pub AnswerFits : Result SequenceError ℕ → Type 0
AnswerFits (ok n) = (0 < n) × (n ≤ max_uint64)
AnswerFits (err e) = Unit

-- What holds behind a call, by its store and its answer.
abbrev InRange : Store × Result SequenceError ℕ → Type 0
InRange (later, answer) = AllFit later.files × AnswerFits answer

put-AllFit :
    (p : Bytes) (st : SequenceState) (files : Map File)
    → st.sequence ≤ max_uint64
    → AllFit files
    → AllFit (put p (state_file st) files)
put-AllFit p st files h a path = elim (Bool-cases (str_eq p path)) [
  | inl e ↦
      let found : lookup path (put p (state_file st) files) ≡ some (state_file st) =
        ground (arith, lookup-put path p (state_file st) files, e) in
      rw found h
  | inr e ↦
      let same : lookup path (put p (state_file st) files) ≡ lookup path files =
        ground (arith, lookup-put path p (state_file st) files, e) in
      rw same (a path)
]

with_next-AllFit :
    (tap identity : Bytes) (current : ℕ) (s : Store)
    → current + 1 ≤ max_uint64
    → AllFit s.files
    → AllFit (with_next tap identity current s).files
unfolding with_next
with_next-AllFit tap identity current s h a = put-AllFit (sequence_path tap) _ s.files h a

advance-InRange :
    (io : Io) (tap identity : Bytes) (current : ℕ) (s : Store)
    → current ≤ max_uint64
    → AllFit s.files
    → InRange (advance io tap identity current s)
unfolding advance
advance-InRange io tap identity current s h a = elim (Bool-cases (current == max_uint64)) [
  | inl e ↦ rw e (a, tt)
  | inr e ↦
      let room : current + 1 ≤ max_uint64 = ground (arith, e, h) in
      let written = with_next-AllFit tap identity current s room a in
      elim (write-cases io.write) [
        | inl w ↦ rw (e, w, advance) (a, tt)
        | inr (inl w) ↦ rw (e, w, advance) (written, tt)
        | inr (inr w) ↦ rw (e, w, advance) (written, (omega arith, room))
      ]
]

-- A valid state has a number.
valid_positive :
    (tap : Bytes) (st : SequenceState) → is_invalid_state tap st ≡ false → 0 < st.sequence
unfolding is_invalid_state
valid_positive tap st e = ground (arith, e)

next_from-InRange :
    (io : Io) (tap identity : Bytes) (o : Option File) (s : Store)
    → FitsUint64 o
    → AllFit s.files
    → InRange (next_from io tap identity o s)
unfolding next_from
next_from-InRange io tap identity none s h a = advance-InRange io tap identity 0 s (omega arith) a
next_from-InRange io tap identity (some unreadable) s h a = (a, tt)
next_from-InRange io tap identity (some undecodable) s h a = (a, tt)
next_from-InRange io tap identity (some (state_file st)) s h a =
    elim (Bool-cases (is_invalid_state tap st)) [
      | inl e ↦ rw e (a, tt)
      | inr e ↦ elim (Bool-cases (str_eq st.source_identity identity)) [
        | inl k ↦ rw (e, k) (a, (valid_positive tap st e, h))
        | inr k ↦ rw (e, k) (advance-InRange io tap identity st.sequence s h a)
      ]
    ]

next_sequence-InRange :
    (is_sha256 : Bytes → Bool) (io : Io) (tap identity : Bytes) (s : Store)
    → AllFit s.files
    → InRange (next_sequence is_sha256 io tap identity s)
unfolding next_sequence next_in_store
next_sequence-InRange is_sha256 io tap identity s a = elim (Result-cases (validate_tap_id tap)) [
  | inr (x, e) ↦ rw (e, next_sequence) (a, tt)
  | inl (x, e) ↦ elim (Bool-cases (tap_id_is_core tap)) [
    | inl c ↦ rw (e, c, next_sequence) (a, tt)
    | inr c ↦ elim (Bool-cases (is_sha256 identity)) [
      | inr d ↦ rw (e, c, d, next_sequence) (a, tt)
      | inl d ↦ elim (Result-cases (owner_directory io (tap_id_owner tap) s.owners)) [
        | inl (owners, o) ↦ elim (Bool-cases io.read_ok) [
          | inl r ↦
              simp (e, c, d, o, r, next_sequence, next_in_store)
                (next_from-InRange io tap identity (lookup (sequence_path tap) s.files)
                  (record s { owners = owners }) (a (sequence_path tap)) a)
          | inr r ↦ simp (e, c, d, o, r, next_sequence, next_in_store) (a, tt)
        ]
        | inr (y, o) ↦ rw (e, c, d, o, next_sequence, next_in_store) (a, tt)
      ]
    ]
  ]
]

-- When every stored sequence number is a uint64, a call of `nextSequence`, whether it returns a number
-- or an error, leaves only uint64 numbers in the store, and a number that it returns is a positive
-- uint64.
pub next_sequence-AllFit :
    (is_sha256 : Bytes → Bool) (io : Io) (tap identity : Bytes) (s : Store)
    → AllFit s.files
    → AllFit (next_sequence is_sha256 io tap identity s).0.files
      × AnswerFits (next_sequence is_sha256 io tap identity s).1
next_sequence-AllFit is_sha256 io tap identity s a =
    next_sequence-InRange is_sha256 io tap identity s a
