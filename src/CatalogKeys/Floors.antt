-- ===== src/CatalogKeys/Floors.antt =====
-- A validated policy's floors are the ones that `MinimumSequences` gives.
use Prim.Native.Nat.{Ordering}
use dalec_homebrew.Prelude.{
  ℕ, ◌≡◌, ◌≢◌, inl, inr, refl, ◌∙◌, List, [], ◌∷◌, arith, true, In, Option, none, some,
}
use mathlib.Core.Path.{subst}
use dalec_homebrew.GoString.{Bytes, str_eq_iff}
use dalec_homebrew.GoMap.{Map, lookup, put, lookup-put}
use dalec_homebrew.Version.{str_compare}
use dalec_homebrew.CatalogKeys.{SequenceFloor, floors_ok, is_next, write_floors, minimum_sequences}

str_compare_trans :
    (a b c : Bytes)
    → str_compare a b ≡ Ordering.lt
    → str_compare b c ≡ Ordering.lt
    → str_compare a c ≡ Ordering.lt
unfolding str_compare
str_compare_trans [] [] c h k = absurd (ground (arith, h))
str_compare_trans [] (y ∷ b) [] h k = absurd (ground (arith, k))
str_compare_trans [] (y ∷ b) (z ∷ c) h k = refl
str_compare_trans (x ∷ a) [] c h k = absurd (ground (arith, h))
str_compare_trans (x ∷ a) (y ∷ b) [] h k = absurd (ground (arith, k))
str_compare_trans (x ∷ a) (y ∷ b) (z ∷ c) h k = ground (arith, h, k, str_compare_trans a b c)

str_compare_irrefl : (a : Bytes) → str_compare a a ≢ Ordering.lt
unfolding str_compare
str_compare_irrefl [] = ground arith
str_compare_irrefl (x ∷ a) = ground (arith, str_compare_irrefl a)

floors_ok-cons :
    (p : Option Bytes) (g : SequenceFloor) (fs : List SequenceFloor)
    → floors_ok p (g ∷ fs) ≡ true
    → (is_next p g.tap ≡ true) × (floors_ok (some g.tap) fs ≡ true)
unfolding floors_ok
floors_ok-cons p g fs h = ground (arith, h)

is_next-some : (t s : Bytes) → is_next (some t) s ≡ true → str_compare t s ≡ Ordering.lt
is_next-some t s h = ground (arith, h)

-- In a list that passes behind a tap, every floor's tap comes after it.
floors_ok-later :
    (t : Bytes) (fs : List SequenceFloor)
    → floors_ok (some t) fs ≡ true
    → (f : SequenceFloor) → In f fs
    → str_compare t f.tap ≡ Ordering.lt
floors_ok-later t [] h f m = absurd m
floors_ok-later t (g ∷ fs) h f (inl e) =
    subst (λ (x : SequenceFloor). str_compare t x.tap ≡ Ordering.lt) e
      (is_next-some t g.tap (floors_ok-cons (some t) g fs h).0)
floors_ok-later t (g ∷ fs) h f (inr m) =
    str_compare_trans t g.tap f.tap (is_next-some t g.tap (floors_ok-cons (some t) g fs h).0)
      (floors_ok-later g.tap fs (floors_ok-cons (some t) g fs h).1 f m)

-- Floors with other taps do not change the entry of a tap.
write_floors_other :
    (t : Bytes) (fs : List SequenceFloor) (m : Map ℕ)
    → ((f : SequenceFloor) → In f fs → f.tap ≢ t)
    → lookup t (write_floors fs m) ≡ lookup t m
unfolding write_floors
write_floors_other t [] m h = refl
write_floors_other t (f ∷ fs) m h =
    write_floors_other t fs (put f.tap f.minimum m) (λ g i. h g (inr i))
    ∙ ground (arith, lookup-put t f.tap f.minimum m, str_eq_iff f.tap t, h f (inl refl))

write_floors-In :
    (f : SequenceFloor) (fs : List SequenceFloor) (m : Map ℕ) (previous : Option Bytes)
    → floors_ok previous fs ≡ true
    → In f fs
    → lookup f.tap (write_floors fs m) ≡ some f.minimum
unfolding write_floors
write_floors-In f [] m p h i = absurd i
write_floors-In f (g ∷ fs) m p h (inl e) =
    let later = (floors_ok-cons p g fs h).1 in
    subst
      (λ (x : SequenceFloor).
        lookup x.tap (write_floors fs (put g.tap g.minimum m)) ≡ some x.minimum)
      e
      (write_floors_other g.tap fs (put g.tap g.minimum m) (λ x i q.
          str_compare_irrefl g.tap
            (subst (λ y. str_compare g.tap y ≡ Ordering.lt) q (floors_ok-later g.tap fs later x i)))
        ∙ ground (arith, lookup-put g.tap g.tap g.minimum m, str_eq_iff g.tap g.tap))
write_floors-In f (g ∷ fs) m p h (inr i) =
    write_floors-In f fs (put g.tap g.minimum m) (some g.tap) (floors_ok-cons p g fs h).1 i

-- When the sequence floors of a policy pass `Validate`, `MinimumSequences` maps the tap of each floor
-- to the floor's minimum.
pub minimum_sequences-In :
    (floors : List SequenceFloor) (f : SequenceFloor)
    → floors_ok none floors ≡ true
    → In f floors
    → lookup f.tap (minimum_sequences floors) ≡ some f.minimum
unfolding minimum_sequences
minimum_sequences-In floors f h i = write_floors-In f floors [] none h i
