-- ===== src/CatalogService/Sequence/Advances.antt =====
-- What nextSequence of internal/catalogservice/store.go may make of a stored file.
use dalec_homebrew.Prelude.{
  ℕ, ◌+◌, ◌<◌, ◌≡◌, refl, ◌⊎◌, inl, inr, Option, none, some, arith, Bool-cases,
}
use mathlib.Core.Path.{subst}
use dalec_homebrew.GoString.{Bytes, str_eq, str_eq_iff}
use dalec_homebrew.GoMap.{Map, lookup, put, lookup-put}
use dalec_homebrew.CatalogService.Sequence.{
  SequenceState, with_next, File, state_file, unreadable, undecodable, Store, sequence_path,
}

-- What may become of a file: a state stays or is replaced by one with a larger number.
abbrev pub Advances : Option File → Option File → Type 0
Advances (some (state_file st)) later =
    (t : SequenceState) × (later ≡ some (state_file t)) × ((t ≡ st) ⊎ (st.sequence < t.sequence))
Advances _ later = Unit

pub Advances-refl : (o : Option File) → Advances o o
Advances-refl none = tt
Advances-refl (some unreadable) = tt
Advances-refl (some undecodable) = tt
Advances-refl (some (state_file st)) = (st, refl, inl refl)

pub Advances-trans : (a b c : Option File) → Advances a b → Advances b c → Advances a c
Advances-trans none b c h k = tt
Advances-trans (some unreadable) b c h k = tt
Advances-trans (some undecodable) b c h k = tt
Advances-trans (some (state_file st)) b c (t, e, h) k =
    let (r, f, g) : Advances (some (state_file t)) c = subst (λ x. Advances x c) e k in
    (r, f, ground (arith, h, g))

-- Every file stays or advances.
abbrev pub Grows : Map File → Map File → Type 0
Grows files later = (path : Bytes) → Advances (lookup path files) (lookup path later)

put-Grows :
    (p : Bytes) (f : File) (files : Map File)
    → Advances (lookup p files) (some f)
    → Grows files (put p f files)
put-Grows p f files h path = elim (Bool-cases (str_eq p path)) [
  | inl e ↦
      let found : lookup path (put p f files) ≡ some f =
        ground (arith, lookup-put path p f files, e) in
      rw found (subst (λ x. Advances (lookup x files) (some f)) ((str_eq_iff p path).0 e) h)
  | inr e ↦
      let same : lookup path (put p f files) ≡ lookup path files =
        ground (arith, lookup-put path p f files, e) in
      rw same (Advances-refl (lookup path files))
]

-- What the next number is written over: nothing, or the state whose number is `current`.
abbrev pub IsCurrent : Option File → ℕ → Type 0
IsCurrent o current =
    (o ≡ none) ⊎ ((st : SequenceState) × (o ≡ some (state_file st)) × (st.sequence ≡ current))

IsCurrent-Advances :
    (o : Option File) (current : ℕ) (st : SequenceState)
    → IsCurrent o current
    → st.sequence ≡ current + 1
    → Advances o (some (state_file st))
IsCurrent-Advances o current st (inl e) h = rw e tt
IsCurrent-Advances o current st (inr (t, e, k)) h = rw e (st, refl, inr (omega (arith, h, k)))

-- A new number in the tap's file, whatever is answered.
pub with_next-Grows :
    (tap identity : Bytes) (current : ℕ) (s : Store)
    → IsCurrent (lookup (sequence_path tap) s.files) current
    → Grows s.files (with_next tap identity current s).files
unfolding with_next
with_next-Grows tap identity current s h =
    put-Grows (sequence_path tap) (state_file _) s.files (IsCurrent-Advances _ current _ h refl)
