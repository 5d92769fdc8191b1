-- ===== src/Version/Numeric.antt =====
-- Numeric tokens are ordered by the numbers that they say.
use Prim.Native.Nat.{compare, Ordering, ◌^◌}
use native.Mathlib.Nat.{pow-le-pow_right, le_trans}
use dalec_homebrew.Prelude.{
  ℕ, ◌+◌, ◌-◌, ◌*◌, ◌≤◌, ◌<◌, ◌≡◌, ◌≢◌, refl, sym, ap, ◌∙◌, Bool-cases, inl, inr, ◌⊎◌, List, [],
  ◌∷◌, arith, length, All, ◌==◌,
}
use dalec_homebrew.GoString.Unicode.{byte_len, rune_len}
use dalec_homebrew.GoString.Decimal.{IsDigit, value, value-lt}
use dalec_homebrew.GoString.{lit, str_eq, str_eq_iff}
use dalec_homebrew.Version.{or_else, str_compare, trim_zeros, significant, compare_numeric}

byte_len-IsDigit : (s : List ℕ) → All IsDigit s → byte_len s ≡ length s
unfolding byte_len rune_len
byte_len-IsDigit [] h = refl
byte_len-IsDigit (c ∷ s) h = ground (arith, byte_len-IsDigit s h.1)

value-trim_zeros : (s : List ℕ) → value (trim_zeros s) ≡ value s
unfolding value trim_zeros
value-trim_zeros [] = refl
value-trim_zeros (c ∷ s) = ground (arith, value-trim_zeros s)

trim_zeros-IsDigit : (s : List ℕ) → All IsDigit s → All IsDigit (trim_zeros s)
unfolding trim_zeros
trim_zeros-IsDigit [] h = tt
trim_zeros-IsDigit (c ∷ s) h = ground (arith, trim_zeros-IsDigit s h.1)

-- No leading zero, unless it is the only digit.
abbrev Trimmed : List ℕ → Type 0
Trimmed [] = ⊥
Trimmed (c ∷ s) = (c ≢ b'0') ⊎ (s ≡ [])

record Significant (s t : List ℕ) : Type 0 where
  same : value t ≡ value s
  digits : All IsDigit t
  trimmed : Trimmed t

trim_zeros_head : (s : List ℕ) → trim_zeros s ≢ [] → Trimmed (trim_zeros s)
unfolding trim_zeros
trim_zeros_head [] h = absurd (h refl)
trim_zeros_head (c ∷ s) h = elim (Bool-cases (c == b'0')) [
  | inl z ↦ rw z (trim_zeros_head s (rw z at h))
  | inr nz ↦ rw nz (inl (ground arith))
]

value_zero : (s : List ℕ) → trim_zeros s ≡ [] → value (lit "0") ≡ value s
unfolding value
value_zero s e = rw (← value-trim_zeros s, e)

significant_lem : (s : List ℕ) → All IsDigit s → Significant s (significant s)
unfolding significant
significant_lem s h = elim (Bool-cases (str_eq (trim_zeros s) [])) [
  | inl z ↦ rw z (record {
    same = value_zero s ((str_eq_iff _ _).0 z);
    digits = ground arith;
    trimmed = inr refl;
  })
  | inr nz ↦ rw nz (record {
    same = value-trim_zeros s;
    digits = trim_zeros-IsDigit s h;
    trimmed = trim_zeros_head s (λ e. ground (arith, str_eq_iff (trim_zeros s) []));
  })
]

value-ge : (c : ℕ) (s : List ℕ) → b'0' < c → 10 ^ length s ≤ value (c ∷ s)
unfolding value
value-ge c s h = grind arith

order_cases : (a b : ℕ) → (a < b) ⊎ (a ≡ b) ⊎ (b < a)
order_cases a b = grind arith

compare_lt : (a b : ℕ) → a < b → compare a b ≡ Ordering.lt
compare_lt a b h = ground arith

compare_gt : (a b : ℕ) → b < a → compare a b ≡ Ordering.gt
compare_gt a b h = ground arith

places-lt : (c d p a b : ℕ) → a < p → c < d → c * p + a < d * p + b
places-lt c d p a b h k = grind arith

compare-add : (n a b : ℕ) → compare (n + a) (n + b) ≡ compare a b
compare-add n a b = ground arith

compare_refl : (a : ℕ) → compare a a ≡ Ordering.eq
compare_refl a = ground arith

-- Two positional numerals with the same lower places.
compare_places :
    (c d p a b : ℕ)
    → a < p
    → b < p
    → compare (c * p + a) (d * p + b) ≡ or_else (compare c d) (compare a b)
compare_places c d p a b h k = elim (order_cases c d) [
  | inl less ↦ rw (compare_lt c d less) (compare_lt _ _ (places-lt c d p a b h less))
  | inr (inl same) ↦ rw (same, compare_refl d) (compare-add (d * p) a b)
  | inr (inr more) ↦ rw (compare_gt c d more) (compare_gt _ _ (places-lt d c p b a k more))
]

compare-sub : (c d : ℕ) → IsDigit c → IsDigit d → compare (c - b'0') (d - b'0') ≡ compare c d
compare-sub c d h k = ground arith

str_compare-value :
    (x y : List ℕ)
    → All IsDigit x
    → All IsDigit y
    → length x ≡ length y
    → str_compare x y ≡ compare (value x) (value y)
unfolding str_compare value
str_compare-value [] [] h k e = refl
str_compare-value [] (d ∷ y) h k e = absurd (omega arith)
str_compare-value (c ∷ x) [] h k e = absurd (omega arith)
str_compare-value (c ∷ x) (d ∷ y) h k e =
    let same : length x ≡ length y = omega arith in
    rw (str_compare-value x y h.1 k.1 same, same)
      (sym (
        compare_places (c - b'0') (d - b'0') (10 ^ length y) (value x) (value y)
          (rw same at (value-lt x h.1)) (value-lt y k.1)
        ∙ ap (λ o. or_else o (compare (value x) (value y))) (compare-sub c d h.0 k.0)))

-- A longer numeral with no leading zero is the larger.
value_lt_of_length :
    (x y : List ℕ)
    → All IsDigit x
    → All IsDigit y
    → Trimmed x
    → Trimmed y
    → length x < length y
    → value x < value y
value_lt_of_length [] y h k s t l = absurd s
value_lt_of_length x [] h k s t l = absurd t
value_lt_of_length (c ∷ x) (d ∷ y) h k s t l = elim t [
  | inl nz ↦ le_trans (value-lt (c ∷ x) h) (
      le_trans (pow-le-pow_right (omega arith) {i = length (c ∷ x)} {j = length y} (omega arith))
        (value-ge d y (omega arith)))
  | inr e ↦ absurd (omega (arith, ap (length {0}) e))
]

significant-compare :
    (x y : List ℕ)
    → All IsDigit x
    → All IsDigit y
    → Trimmed x
    → Trimmed y
    → or_else (compare (length x) (length y)) (str_compare x y) ≡ compare (value x) (value y)
significant-compare x y h k s t = elim (order_cases (length x) (length y)) [
  | inl shorter ↦
      rw (compare_lt _ _ shorter) (sym (compare_lt _ _ (value_lt_of_length x y h k s t shorter)))
  | inr (inl same) ↦ rw (same, compare_refl (length y)) (str_compare-value x y h k same)
  | inr (inr longer) ↦
      rw (compare_gt _ _ longer) (sym (compare_gt _ _ (value_lt_of_length y x k h t s longer)))
]

-- Two tokens of ASCII digits are compared by the numbers that they say, leading zeros or not.
pub compare_numeric-value :
    (a b : List ℕ)
    → All IsDigit a
    → All IsDigit b
    → compare_numeric a b ≡ compare (value a) (value b)
unfolding compare_numeric
compare_numeric-value a b h k =
    let s = significant_lem a h in
    let t = significant_lem b k in
    rw (byte_len-IsDigit (significant a) s.digits, byte_len-IsDigit (significant b) t.digits)
      (significant-compare (significant a) (significant b) s.digits t.digits s.trimmed t.trimmed
        ∙ rw (s.same, t.same))
