-- ===== src/FormulaId/Validate.antt =====
-- The validators of formulaid.go accept exactly the components of Valid.
use dalec_homebrew.Prelude.{
  ℕ, eq-false, ◌≢◌, ◌≤◌, Bool, true, false, ◌≡◌, refl, ◌↔◌, ◌⊎◌, [], ◌∷◌, ok, length, All, all,
  arith,
}
use dalec_homebrew.GoString.{Bytes, lit, count, str_eq, str_eq_iff, has_suffix}
use dalec_homebrew.FormulaId.{
  Kind, owner_kind, tap_kind, formula_kind, Tap, validate_component, last_byte, owner_loop,
  validate_owner, validate_tap_name, validate_formula_name, validate_tap, is_lower_alpha_numeric,
  tap_byte, formula_byte, max_owner_bytes, max_tap_bytes, max_formula_bytes,
}
use dalec_homebrew.FormulaId.Valid.{
  LowerAlphaNumeric, StartsWith, EndsWith, SingleHyphens, IsOwner, TapByte, IsTapName, FormulaByte,
  IsFormulaName, IsTap,
}

is_lower_alpha_numeric_iff : (c : ℕ) → (is_lower_alpha_numeric c ≡ true) ↔ LowerAlphaNumeric c
unfolding is_lower_alpha_numeric
is_lower_alpha_numeric_iff c = ground arith

tap_byte_iff : (c : ℕ) → (tap_byte c ≡ true) ↔ TapByte c
unfolding tap_byte is_lower_alpha_numeric
tap_byte_iff c = ground arith

formula_byte_iff : (c : ℕ) → (formula_byte c ≡ true) ↔ FormulaByte c
unfolding formula_byte is_lower_alpha_numeric
formula_byte_iff c = ground arith

all_iff :
    (p : ℕ → Bool) (P : ℕ → Type 0)
    → ((c : ℕ) → (p c ≡ true) ↔ P c)
    → (s : Bytes) → (all p s ≡ true) ↔ All P s
all_iff p P h [] = ground arith
all_iff p P h (c ∷ s) = ground (arith, h c, all_iff p P h s)

abbrev LoopSpec : Bool → Bytes → Type 0
LoopSpec hyphen s =
    All (λ c. LowerAlphaNumeric c ⊎ (c ≡ b'-')) s
    × SingleHyphens s
    × ((hyphen ≡ true) → ¬ StartsWith (λ d. d ≡ b'-') s)

owner_loop_iff : (hyphen : Bool) (s : Bytes) → (owner_loop hyphen s ≡ ok tt) ↔ LoopSpec hyphen s
unfolding owner_loop is_lower_alpha_numeric
owner_loop_iff hyphen [] = ground arith
owner_loop_iff true (c ∷ s) = ground (arith, owner_loop_iff false s, owner_loop_iff true s)
owner_loop_iff false (c ∷ s) = ground (arith, owner_loop_iff false s, owner_loop_iff true s)

pub last_of : ℕ → Bytes → ℕ
last_of c [] = c
last_of c (d ∷ s) = last_of d s

pub last_byte-cons : (c : ℕ) (s : Bytes) → last_byte (c ∷ s) ≡ ok (last_of c s)
unfolding last_byte last_of
last_byte-cons c [] = refl
last_byte-cons c (d ∷ s) = last_byte-cons d s

EndsWith-last_of : (P : ℕ → Type 0) (c : ℕ) (s : Bytes) → EndsWith P (c ∷ s) ↔ P (last_of c s)
unfolding last_of
EndsWith-last_of P c [] = (λ h. h, λ h. h)
EndsWith-last_of P c (d ∷ s) = EndsWith-last_of P d s

-- Behind a first letter or digit only the length is left to refuse.
validate_component_iff :
    (k : Kind) (c : ℕ) (s : Bytes) (n : ℕ)
    → LowerAlphaNumeric c
    → (validate_component k (c ∷ s) n ≡ ok tt) ↔ (length (c ∷ s) ≤ n)
unfolding validate_component
validate_component_iff k c s n h =
    ground
      (arith, str_eq_iff (c ∷ s) [], str_eq_iff (c ∷ s) (lit "."), str_eq_iff (c ∷ s) (lit ".."))

validate_owner_steps :
    (c : ℕ) (s : Bytes)
    → (validate_owner (c ∷ s) ≡ ok tt) ↔ (
        (validate_component owner_kind (c ∷ s) max_owner_bytes ≡ ok tt)
        × (is_lower_alpha_numeric c ≡ true)
        × (is_lower_alpha_numeric (last_of c s) ≡ true)
        × (owner_loop false (c ∷ s) ≡ ok tt))
unfolding validate_owner
validate_owner_steps c s = ground (arith, last_byte-cons c s)

validate_owner-nil : validate_owner [] ≢ ok tt
unfolding validate_owner validate_component str_eq
validate_owner-nil = ground arith

-- `validateOwner` accepts exactly the strings of `IsOwner`: at most 39 lower-case letters, digits
-- and hyphens, no two hyphens in a row, a letter or digit at both ends.
pub validate_owner_iff : (s : Bytes) → (validate_owner s ≡ ok tt) ↔ IsOwner s
validate_owner_iff [] = (λ h. absurd (validate_owner-nil h), λ v. absurd v.first)
validate_owner_iff (c ∷ s) = (
  λ h.
      let (a, b, d, l) = (validate_owner_steps c s).0 h in
      let f = (is_lower_alpha_numeric_iff c).0 b in
      let (x, y, _) = (owner_loop_iff false (c ∷ s)).0 l in
      record {
        short = (validate_component_iff owner_kind c s _ f).0 a;
        first = f;
        last = (EndsWith-last_of LowerAlphaNumeric c s).1 ((is_lower_alpha_numeric_iff _).0 d);
        charset = x;
        single = y;
      },
  λ v. (validate_owner_steps c s).1 (
    (validate_component_iff owner_kind c s _ v.first).1 v.short,
    (is_lower_alpha_numeric_iff c).1 v.first,
    (is_lower_alpha_numeric_iff _).1 ((EndsWith-last_of LowerAlphaNumeric c s).0 v.last),
    (owner_loop_iff false (c ∷ s)).1 (v.charset, v.single, λ h. absurd (ground arith)),
  ),
)

validate_tap_name-nil : validate_tap_name [] ≢ ok tt
unfolding validate_tap_name validate_component str_eq
validate_tap_name-nil = ground arith

validate_tap_name_steps :
    (c : ℕ) (s : Bytes)
    → (validate_tap_name (c ∷ s) ≡ ok tt) ↔ (
        (validate_component tap_kind (c ∷ s) max_tap_bytes ≡ ok tt)
        × (is_lower_alpha_numeric c ≡ true)
        × (all tap_byte (c ∷ s) ≡ true))
unfolding validate_tap_name
validate_tap_name_steps c s = ground arith

-- `validateTapName` accepts exactly the tap names of `IsTapName`.
pub validate_tap_name_iff : (s : Bytes) → (validate_tap_name s ≡ ok tt) ↔ IsTapName s
validate_tap_name_iff [] = (λ h. absurd (validate_tap_name-nil h), λ v. absurd v.first)
validate_tap_name_iff (c ∷ s) = (
  λ h.
      let (a, b, d) = (validate_tap_name_steps c s).0 h in
      let f = (is_lower_alpha_numeric_iff c).0 b in
      record {
        short = (validate_component_iff tap_kind c s _ f).0 a;
        first = f;
        charset = (all_iff tap_byte TapByte tap_byte_iff (c ∷ s)).0 d;
      },
  λ v. (validate_tap_name_steps c s).1 (
    (validate_component_iff tap_kind c s _ v.first).1 v.short,
    (is_lower_alpha_numeric_iff c).1 v.first,
    (all_iff tap_byte TapByte tap_byte_iff (c ∷ s)).1 v.charset,
  ),
)

has_suffix-EndsWith : (s : Bytes) → (has_suffix s (lit "@") ≡ true) ↔ EndsWith (λ c. c ≡ b'@') s
unfolding has_suffix str_eq
has_suffix-EndsWith [] = ground arith
has_suffix-EndsWith (c ∷ []) = ground arith
has_suffix-EndsWith (c ∷ d ∷ s) = ground (arith, has_suffix-EndsWith (d ∷ s))

validate_formula_name-nil : validate_formula_name [] ≢ ok tt
unfolding validate_formula_name validate_component str_eq
validate_formula_name-nil = ground arith

validate_formula_name_steps :
    (c : ℕ) (s : Bytes)
    → (validate_formula_name (c ∷ s) ≡ ok tt) ↔ (
        (validate_component formula_kind (c ∷ s) max_formula_bytes ≡ ok tt)
        × (is_lower_alpha_numeric c ≡ true)
        × (count b'@' (c ∷ s) ≤ 1)
        × (has_suffix (c ∷ s) (lit "@") ≡ false)
        × (all formula_byte (c ∷ s) ≡ true))
unfolding validate_formula_name
validate_formula_name_steps c s = ground arith

-- `validateFormulaName` accepts exactly the names of `IsFormulaName`: at most 252 allowed bytes, a
-- lower-case letter or digit first, and at most one at sign, not at the end.
pub validate_formula_name_iff : (s : Bytes) → (validate_formula_name s ≡ ok tt) ↔ IsFormulaName s
validate_formula_name_iff [] = (λ h. absurd (validate_formula_name-nil h), λ v. absurd v.first)
validate_formula_name_iff (c ∷ s) = (
  λ h.
      let (a, b, n, e, d) = (validate_formula_name_steps c s).0 h in
      let f = (is_lower_alpha_numeric_iff c).0 b in
      record {
        short = (validate_component_iff formula_kind c s _ f).0 a;
        first = f;
        charset = (all_iff formula_byte FormulaByte formula_byte_iff (c ∷ s)).0 d;
        one_version = n;
        named_version = λ w. ground (arith, (has_suffix-EndsWith (c ∷ s)).1 w);
      },
  λ v. (validate_formula_name_steps c s).1 (
    (validate_component_iff formula_kind c s _ v.first).1 v.short,
    (is_lower_alpha_numeric_iff c).1 v.first,
    v.one_version,
    eq-false _ (λ w. v.named_version ((has_suffix-EndsWith (c ∷ s)).0 w)),
    (all_iff formula_byte FormulaByte formula_byte_iff (c ∷ s)).1 v.charset,
  ),
)

pub validate_tap_iff : (t : Tap) → (validate_tap t ≡ ok tt) ↔ IsTap t
unfolding validate_tap
validate_tap_iff t = ground (arith, validate_owner_iff t.owner, validate_tap_name_iff t.name)
