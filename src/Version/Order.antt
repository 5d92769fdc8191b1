-- ===== src/Version/Order.antt =====
-- `Compare` orders two versions the same way from both sides.
use Prim.Native.Nat.{compare, Ordering}
use dalec_homebrew.Prelude.Int.{ℤ, int_compare}
use dalec_homebrew.Prelude.{
  ℕ, ◌≡◌, refl, sym, ◌⊎◌, inl, inr, true, List, [], ◌∷◌, arith, Bool-cases,
}
use dalec_homebrew.GoString.Unicode.{Unicode, byte_len}
use dalec_homebrew.GoString.{Bytes, str_eq, str_eq_iff}
use dalec_homebrew.Version.{
  Token, reversed, or_else, str_compare, significant, compare_numeric, alpha_rank, compare_alpha,
  compare_end_to_remainder, compare_token, compare_tokens, tokenize, compare_versions, at_least,
}

compare_swap : (a b : ℕ) → compare b a ≡ reversed (compare a b)
compare_swap a b = ground arith

int_compare_swap : (a b : ℤ) → int_compare b a ≡ reversed (int_compare a b)
int_compare_swap a b = ground arith

or_else-reversed : (x y : Ordering) → or_else (reversed x) (reversed y) ≡ reversed (or_else x y)
or_else-reversed Ordering.lt y = refl
or_else-reversed Ordering.eq y = refl
or_else-reversed Ordering.gt y = refl

reversed-reversed : (x : Ordering) → reversed (reversed x) ≡ x
reversed-reversed Ordering.lt = refl
reversed-reversed Ordering.eq = refl
reversed-reversed Ordering.gt = refl

pub str_compare_swap : (a b : List ℕ) → str_compare b a ≡ reversed (str_compare a b)
unfolding str_compare
str_compare_swap [] [] = refl
str_compare_swap [] (y ∷ b) = refl
str_compare_swap (x ∷ a) [] = refl
str_compare_swap (x ∷ a) (y ∷ b) =
    rw (compare_swap x y, str_compare_swap a b) (or_else-reversed _ _)

compare_numeric_swap : (a b : List ℕ) → compare_numeric b a ≡ reversed (compare_numeric a b)
unfolding compare_numeric
compare_numeric_swap a b =
    rw
      (
        compare_swap (byte_len (significant a)) (byte_len (significant b)),
        str_compare_swap (significant a) (significant b),
      )
      (or_else-reversed _ _)

str_eq_swap : (a b : Bytes) → str_eq b a ≡ str_eq a b
str_eq_swap a b = ground (arith, str_eq_iff a b, str_eq_iff b a)

compare_alpha_swap : (a b : List ℕ) → compare_alpha b a ≡ reversed (compare_alpha a b)
unfolding compare_alpha
compare_alpha_swap a b = elim (Bool-cases (str_eq a b)) [
  | inl same ↦ rw (str_eq_swap a b, same)
  | inr other ↦
      rw
        (
          str_eq_swap a b,
          other,
          int_compare_swap (alpha_rank a) (alpha_rank b),
          str_compare_swap a b,
        )
        (or_else-reversed _ _)
]

compare_token_swap : (x y : Token) → compare_token y x ≡ reversed (compare_token x y)
unfolding compare_token
compare_token_swap x y =
    ground (arith, compare_numeric_swap x.value y.value, compare_alpha_swap x.value y.value)

compare_tokens_swap : (a b : List Token) → compare_tokens b a ≡ reversed (compare_tokens a b)
unfolding compare_tokens compare_end_to_remainder
compare_tokens_swap [] [] = refl
compare_tokens_swap [] (y ∷ b) = refl
compare_tokens_swap (x ∷ a) [] = sym (reversed-reversed _)
compare_tokens_swap (x ∷ a) (y ∷ b) =
    rw (compare_token_swap x y, compare_tokens_swap a b) (or_else-reversed _ _)

-- Swapping the arguments of `Compare` negates its result.
pub compare_versions_swap :
    (u : Unicode) (a b : Bytes) → compare_versions u b a ≡ reversed (compare_versions u a b)
unfolding compare_versions
compare_versions_swap u a b = compare_tokens_swap (tokenize u a) (tokenize u b)

-- Every version equals itself.
pub compare_versions_refl : (u : Unicode) (a : Bytes) → compare_versions u a a ≡ Ordering.eq
compare_versions_refl u a = ground (arith, compare_versions_swap u a a)

-- Of two packages, given by version and revision, one is at least the other.
pub at_least_total :
    (u : Unicode) (a : Bytes) (m : ℤ) (b : Bytes) (n : ℤ)
    → (at_least u a m b n ≡ true) ⊎ (at_least u b n a m ≡ true)
unfolding at_least
at_least_total u a m b n = ground (arith, compare_versions_swap u a b)

-- Two packages that are each at least the other have equal versions, as `Compare` finds them, and
-- the same revision.
pub at_least_antisym :
    (u : Unicode) (a : Bytes) (m : ℤ) (b : Bytes) (n : ℤ)
    → at_least u a m b n ≡ true
    → at_least u b n a m ≡ true
    → (compare_versions u a b ≡ Ordering.eq) × (m ≡ n)
unfolding at_least
at_least_antisym u a m b n h k = ground (arith, compare_versions_swap u a b)
