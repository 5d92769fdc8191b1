-- ===== src/CatalogService/Sequence/History.antt =====
-- The numbers of a tap only grow, and a number stands for one source.
use dalec_homebrew.Prelude.{
  ℕ, ◌+◌, ◌≤◌, ◌≡◌, refl, inl, inr, List, [], ◌∷◌, Option, none, some, ok, err, arith, Bool,
  Bool-cases, Result-cases, Result, ◌==◌,
}
use mathlib.Core.Path.{subst}
use dalec_homebrew.GoString.{Bytes, str_eq, str_eq_iff}
use dalec_homebrew.GoMap.{lookup, lookup-put}
use dalec_homebrew.Catalog.{validate_tap_id, tap_id_is_core, tap_id_owner}
use dalec_homebrew.CatalogService.Sequence.{
  SequenceState, write-cases, with_next, File, state_file, unreadable, undecodable, Store, Io,
  SequenceError, exhausted, write_failed, invalid_state, unreadable_state, undecodable_state,
  invalid_tap, core_tap_sequence, invalid_identity, max_uint64, sequence_path, owner_directory,
  advance, is_invalid_state, next_from, next_in_store, next_sequence, run_calls, Call,
  sequence_schema_version,
}
use dalec_homebrew.CatalogService.Sequence.Advances.{
  Advances, Advances-refl, Advances-trans, Grows, IsCurrent, with_next-Grows,
}

-- What a call leaves: the files advance, and where it returns a number the tap's file says so.
abbrev Answers : Bytes → Bytes → Store → Store × Result SequenceError ℕ → Type 0
Answers tap identity s (later, answer) =
    Grows s.files later.files
    × ((n : ℕ)
        → answer ≡ ok n
        → (st : SequenceState) × (lookup (sequence_path tap) later.files ≡ some (state_file st))
          × (st.sequence ≡ n)
          × (st.source_identity ≡ identity))

same-Answers :
    (tap identity : Bytes) (s later : Store) (e : SequenceError)
    → later.files ≡ s.files
    → Answers tap identity s (later, err e)
same-Answers tap identity s later e same =
    (λ path. rw same (Advances-refl (lookup path s.files)), λ n h. absurd (ground (arith, h)))

with_next-Answers :
    (tap identity : Bytes) (current : ℕ) (s : Store)
    → IsCurrent (lookup (sequence_path tap) s.files) current
    → Answers tap identity s (with_next tap identity current s, ok (current + 1))
unfolding with_next
with_next-Answers tap identity current s h = (
  with_next-Grows tap identity current s h,
  λ n k.
      let st : SequenceState = record {
        schema_version = sequence_schema_version;
        tap = tap;
        sequence = current + 1;
        source_identity = identity;
      } in
      (
        st,
        ground (
          arith,
          lookup-put (sequence_path tap) (sequence_path tap) (state_file st) s.files,
          str_eq_iff (sequence_path tap) (sequence_path tap),
        ),
        ground (arith, k),
        refl,
      ),
)

advance-Answers :
    (io : Io) (tap identity : Bytes) (current : ℕ) (s : Store)
    → IsCurrent (lookup (sequence_path tap) s.files) current
    → Answers tap identity s (advance io tap identity current s)
unfolding advance
advance-Answers io tap identity current s h = elim (Bool-cases (current == max_uint64)) [
  | inl e ↦ rw e (same-Answers tap identity s s exhausted refl)
  | inr e ↦ elim (write-cases io.write) [
    | inl w ↦ rw (e, w, advance) (same-Answers tap identity s s write_failed refl)
    | inr (inl w) ↦
        rw (e, w, advance)
          (with_next-Grows tap identity current s h, λ n k. absurd (ground (arith, k)))
    | inr (inr w) ↦ rw (e, w, advance) (with_next-Answers tap identity current s h)
  ]
]

next_from-Answers :
    (io : Io) (tap identity : Bytes) (o : Option File) (s : Store)
    → lookup (sequence_path tap) s.files ≡ o
    → Answers tap identity s (next_from io tap identity o s)
unfolding next_from
next_from-Answers io tap identity none s h = advance-Answers io tap identity 0 s (inl h)
next_from-Answers io tap identity (some unreadable) s h =
    same-Answers tap identity s s unreadable_state refl
next_from-Answers io tap identity (some undecodable) s h =
    same-Answers tap identity s s undecodable_state refl
next_from-Answers io tap identity (some (state_file st)) s h =
    elim (Bool-cases (is_invalid_state tap st)) [
      | inl e ↦ rw e (same-Answers tap identity s s invalid_state refl)
      | inr e ↦ elim (Bool-cases (str_eq st.source_identity identity)) [
        | inl k ↦
            rw (e, k)
              (
                λ path. Advances-refl (lookup path s.files),
                λ n a. (st, h, ground (arith, a), (str_eq_iff st.source_identity identity).0 k),
              )
        | inr k ↦ rw (e, k) (advance-Answers io tap identity st.sequence s (inr (st, h, refl)))
      ]
    ]

next_in_store-Answers :
    (io : Io) (tap identity : Bytes) (s : Store)
    → Answers tap identity s (next_in_store io tap identity s)
unfolding next_in_store
next_in_store-Answers io tap identity s =
    elim (Result-cases (owner_directory io (tap_id_owner tap) s.owners)) [
      | inl (owners, e) ↦ elim (Bool-cases io.read_ok) [
        | inl r ↦
            simp (e, r, next_in_store)
              (next_from-Answers io tap identity (lookup (sequence_path tap) s.files)
                (record s { owners = owners }) refl)
        | inr r ↦
            simp (e, r, next_in_store)
              (same-Answers tap identity s (record s { owners = owners }) unreadable_state refl)
      ]
      | inr (x, e) ↦ rw (e, next_in_store) (same-Answers tap identity s s x refl)
    ]

module _ (is_sha256 : Bytes → Bool) where
  next_sequence-Answers :
      (io : Io) (tap identity : Bytes) (s : Store)
      → Answers tap identity s (next_sequence is_sha256 io tap identity s)
  unfolding next_sequence
  next_sequence-Answers io tap identity s = elim (Result-cases (validate_tap_id tap)) [
    | inr (x, e) ↦ rw (e, next_sequence) (same-Answers tap identity s s invalid_tap refl)
    | inl (x, e) ↦ elim (Bool-cases (tap_id_is_core tap)) [
      | inl c ↦ rw (e, c, next_sequence) (same-Answers tap identity s s core_tap_sequence refl)
      | inr c ↦ elim (Bool-cases (is_sha256 identity)) [
        | inr d ↦ rw (e, c, d, next_sequence) (same-Answers tap identity s s invalid_identity refl)
        | inl d ↦ rw (e, c, d, next_sequence) (next_in_store-Answers io tap identity s)
      ]
    ]
  ]

  run_calls-Grows :
      (calls : List (Call is_sha256)) (s : Store)
      → Grows s.files (run_calls is_sha256 calls s).files
  unfolding run_calls
  run_calls-Grows [] s path = Advances-refl (lookup path s.files)
  run_calls-Grows ((io, tap, identity) ∷ calls) s path =
      let later = (next_sequence is_sha256 io tap identity s).0 in
      Advances-trans (lookup path s.files) (lookup path later.files) _
        ((next_sequence-Answers io tap identity s).0 path) (run_calls-Grows calls later path)

  -- Between two calls for a tap that return numbers, whatever calls come between, the number does not
  -- fall, and it is the same only if both calls name the same source; a call between may fail before
  -- or after its write.
  pub next_sequence-monotone :
      (io io' : Io) (tap identity identity' : Bytes) (calls : List (Call is_sha256)) (s : Store)
      (n m : ℕ)
      → (next_sequence is_sha256 io tap identity s).1 ≡ ok n
      → (next_sequence is_sha256 io' tap identity'
          (run_calls is_sha256 calls (next_sequence is_sha256 io tap identity s).0)).1
        ≡ ok m
      → (n ≤ m) × (n ≡ m → identity ≡ identity')
  next_sequence-monotone io io' tap identity identity' calls s n m h k =
      let first = (next_sequence is_sha256 io tap identity s).0 in
      let between = run_calls is_sha256 calls first in
      let last = (next_sequence is_sha256 io' tap identity' between).0 in
      let (st, at, number, source) = (next_sequence-Answers io tap identity s).1 n h in
      let (u, at', number', source') = (next_sequence-Answers io' tap identity' between).1 m k in
      let grown =
        Advances-trans (lookup (sequence_path tap) first.files)
          (lookup (sequence_path tap) between.files) (lookup (sequence_path tap) last.files)
          (run_calls-Grows calls first (sequence_path tap))
          ((next_sequence-Answers io' tap identity' between).0 (sequence_path tap)) in
      let (t, e, rest) : Advances (some (state_file st)) (lookup (sequence_path tap) last.files) =
        subst (λ x. Advances x (lookup (sequence_path tap) last.files)) at grown in
      let same : t ≡ u = ground (arith, e, at') in
      ground (arith, same, number, number', source, source', rest)
