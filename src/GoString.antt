-- ===== src/GoString.antt =====
-- Go strings as their bytes, and the functions of Go's `strings` package that the program calls.
pub mod Pieces
pub mod Unicode
pub mod Decimal
pub mod FilePath
use dalec_homebrew.Prelude.{
  ℕ, ◌+◌, Bool, true, false, ◌&&◌, ◌||◌, List, [], ◌∷◌, ◌≡◌, refl, ◌↔◌, arith, ◌==◌, if◌then◌else◌,
}
use Prim.Native.Char.{code}
use Prim.Native.String.{String}

abbrev pub Bytes : Type 0
Bytes = List ℕ

-- The bytes of an ASCII literal.
abbrev pub lit : String → Bytes
lit String.[] = []
lit (String.◌∷◌ c s) = code c ∷ lit s

-- a == b
unfoldable pub str_eq : Bytes → Bytes → Bool
str_eq [] [] = true
str_eq (x ∷ xs) (y ∷ ys) = x == y && str_eq xs ys
str_eq _ _ = false

pub str_eq_iff : (a b : Bytes) → (str_eq a b ≡ true) ↔ (a ≡ b)
unfolding str_eq
str_eq_iff (x ∷ a) (y ∷ b) = ground (arith, str_eq_iff a b)
str_eq_iff _ _ = ground arith

pub str_eq_refl : (a : Bytes) → str_eq a a ≡ true
str_eq_refl a = (str_eq_iff a a).1 refl

-- strings.Count(s, string(b)) for one byte
unfoldable pub count : ℕ → Bytes → ℕ
count b [] = 0
count b (c ∷ cs) = (if c == b then 1 else 0) + count b cs

-- strings.HasPrefix(s, p)
unfoldable pub has_prefix : Bytes → Bytes → Bool
has_prefix s [] = true
has_prefix [] (y ∷ p) = false
has_prefix (x ∷ s) (y ∷ p) = x == y && has_prefix s p

-- strings.HasSuffix(s, p)
unfoldable pub has_suffix : Bytes → Bytes → Bool
unfolding str_eq
has_suffix [] p = str_eq [] p
has_suffix (c ∷ s) p = str_eq (c ∷ s) p || has_suffix s p

-- strings.ContainsRune(set, c) for an ASCII set and a byte below 128, and bytes.IndexByte >= 0
unfoldable pub contains_byte : Bytes → ℕ → Bool
contains_byte [] c = false
contains_byte (x ∷ xs) c = x == c || contains_byte xs c

-- What `strings.Split` puts in front of the first piece.
abbrev pub cons_head : ℕ → List Bytes → List Bytes
cons_head c [] = (c ∷ []) ∷ []
cons_head c (p ∷ ps) = (c ∷ p) ∷ ps

-- strings.Split(s, string(b)) for one byte
unfoldable pub split : ℕ → Bytes → List Bytes
split b [] = [] ∷ []
split b (c ∷ cs) = let rest = split b cs in if c == b then [] ∷ rest else cons_head c rest

-- The first two values of strings.Cut(s, string(b)) for one byte.
unfoldable pub cut : ℕ → Bytes → Bytes × Bytes
cut b [] = ([], [])
cut b (c ∷ cs) = let (before, after) = cut b cs in if c == b then ([], cs) else (c ∷ before, after)
