-- ===== src/GoString/Decimal.antt =====
-- Decimal numerals: what a string of ASCII digits says, and how a number is printed.
use Prim.Native.Nat.{◌^◌, ◌/◌, ◌%◌}
use native.Mathlib.Nat.{pow-suc}
use native.Mathlib.Numerals.{add-one}
use mathlib.Core.List.{cons≢nil, concat-ne-nil}
use dalec_homebrew.Prelude.{
  Bool-cases, inl, inr, ◌≢◌, ℕ, zero, suc, ◌+◌, ◌-◌, ◌*◌, ◌≤◌, ◌<◌, ◌≡◌, Bool, ◌&&◌, [], ◌∷◌, ◌++◌,
  arith, length, length-append, All, leb, ltb, if◌then◌else◌,
}
use dalec_homebrew.GoString.{Bytes}

abbrev pub IsDigit : ℕ → Type 0
IsDigit c = (b'0' ≤ c) × (c ≤ b'9')

abbrev pub digit : ℕ → Bool
digit c = leb b'0' c && leb c b'9'

-- The number that a string of digits says.
unfoldable pub value : Bytes → ℕ
value [] = 0
value (c ∷ s) = (c - b'0') * 10 ^ length s + value s

-- strconv.Itoa for n >= 0, on fuel: a number below the fuel has fewer digits than that.
unfoldable pub itoa_fuel : ℕ → ℕ → Bytes
itoa_fuel zero n = []
itoa_fuel (suc f) n =
    let rest = itoa_fuel f (n / 10) in
    if ltb n 10 then (b'0' + n) ∷ [] else rest ++ (b'0' + n % 10) ∷ []

unfoldable pub itoa : ℕ → Bytes
unfolding itoa_fuel
itoa n = itoa_fuel (suc n) n

pub value-lt : (s : Bytes) → All IsDigit s → value s < 10 ^ length s
unfolding value
value-lt [] h = omega arith
value-lt (c ∷ s) h = grind (arith, value-lt s h.1, pow-suc 10 (length s))

pub value-snoc : (s : Bytes) (c : ℕ) → value (s ++ c ∷ []) ≡ value s * 10 + (c - b'0')
unfolding value
value-snoc [] c = omega arith
value-snoc (d ∷ s) c =
    rw (length-append s (c ∷ []), add-one (length s), pow-suc 10 (length s), value-snoc s c)
      (grind arith)

pub value-itoa_fuel : (f n : ℕ) → n < f → value (itoa_fuel f n) ≡ n
unfolding itoa_fuel
value-itoa_fuel zero n h = elim h [ ]
value-itoa_fuel (suc f) n h = elim (Bool-cases (ltb n 10)) [
  | inl small ↦ rw small (unfold value in omega arith)
  | inr large ↦
      rw
        (
          large,
          value-snoc (itoa_fuel f (n / 10)) (b'0' + n % 10),
          value-itoa_fuel f (n / 10) (ground arith),
        )
        (omega arith)
]

All-snoc : (P : ℕ → Type 0) (s : Bytes) (c : ℕ) → All P s → P c → All P (s ++ c ∷ [])
All-snoc P [] c h p = (p, tt)
All-snoc P (d ∷ s) c h p = (h.0, All-snoc P s c h.1 p)

pub itoa_fuel-IsDigit : (f n : ℕ) → n < f → All IsDigit (itoa_fuel f n)
unfolding itoa_fuel
itoa_fuel-IsDigit zero n h = elim h [ ]
itoa_fuel-IsDigit (suc f) n h = elim (Bool-cases (ltb n 10)) [
  | inl small ↦ rw small (ground arith)
  | inr large ↦
      rw large (All-snoc IsDigit _ _ (itoa_fuel-IsDigit f (n / 10) (ground arith)) (omega arith))
]

-- Printing a number and reading it gives the number, and prints digits only.
pub value-itoa : (n : ℕ) → value (itoa n) ≡ n
unfolding itoa
value-itoa n = value-itoa_fuel (suc n) n (omega arith)

pub itoa-IsDigit : (n : ℕ) → All IsDigit (itoa n)
unfolding itoa
itoa-IsDigit n = itoa_fuel-IsDigit (suc n) n (omega arith)

pub itoa-ne-nil : (n : ℕ) → itoa n ≢ []
unfolding itoa
itoa-ne-nil n = elim (Bool-cases (ltb n 10)) [
  | inl small ↦ rw small cons≢nil
  | inr large ↦ rw large (concat-ne-nil _ _)
]
