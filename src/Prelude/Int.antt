-- ===== src/Prelude/Int.antt =====
-- Go's `int` where the program tests its sign. `negsuc n` is -(n + 1).
use Prim.Native.Nat.{ℕ, compare, Ordering}
use mathlib.Core.Bool.{Bool, true, false, not}
use dalec_homebrew.Prelude.Tests.{if◌then◌else◌}

pub data ℤ : Type 0 where
  pos : ℕ → ℤ
  negsuc : ℕ → ℤ

abbrev pub int_compare : ℤ → ℤ → Ordering
int_compare (pos a) (pos b) = compare a b
int_compare (pos a) (negsuc b) = Ordering.gt
int_compare (negsuc a) (pos b) = Ordering.lt
int_compare (negsuc a) (negsuc b) = compare b a

-- a < b
abbrev pub int_ltb : ℤ → ℤ → Bool
int_ltb a b = elim (int_compare a b) [ Ordering.lt ↦ true | _ ↦ false ]

-- a >= b
abbrev pub int_geb : ℤ → ℤ → Bool
int_geb a b = not (int_ltb a b)

-- a == b
abbrev pub int_eq : ℤ → ℤ → Bool
int_eq a b = elim (int_compare a b) [ Ordering.eq ↦ true | _ ↦ false ]

-- max(a, b)
abbrev pub int_max : ℤ → ℤ → ℤ
int_max a b = if int_ltb a b then b else a
