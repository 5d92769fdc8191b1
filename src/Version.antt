-- ===== src/Version.antt =====
-- internal/homebrew/version/version.go: the ordering of package versions.
-- The names that version.go builds are in PkgName.
pub mod Order
pub mod Numeric
pub mod Tokens
use Prim.Native.Nat.{compare, Ordering}
use dalec_homebrew.Prelude.Int.{ℤ, pos, negsuc, int_compare, int_ltb, int_geb}
use dalec_homebrew.Prelude.{
  ℕ, zero, suc, ◌+◌, Bool, true, false, not, ◌&&◌, ◌||◌, List, [], ◌∷◌, ◌++◌, map, length, ltb,
  ◌==◌, if◌then◌else◌,
}
use dalec_homebrew.GoString.Unicode.{Unicode, runes, byte_len}
use dalec_homebrew.GoString.{Bytes, lit, str_eq}

-- A token holds the runes that the Go string of the token encodes.
pub record Token : Type 0 where
  pub value : List ℕ
  pub numeric : Bool

-- -1, 0 and 1 are lt, eq and gt.
abbrev pub reversed : Ordering → Ordering
reversed Ordering.lt = Ordering.gt
reversed Ordering.eq = Ordering.eq
reversed Ordering.gt = Ordering.lt

-- `if c != 0 { return c }` before the rest
abbrev pub or_else : Ordering → Ordering → Ordering
or_else Ordering.lt rest = Ordering.lt
or_else Ordering.eq rest = rest
or_else Ordering.gt rest = Ordering.gt

-- strings.Compare; UTF-8 orders strings as their runes do
unfoldable pub str_compare : List ℕ → List ℕ → Ordering
str_compare [] [] = Ordering.eq
str_compare [] (y ∷ ys) = Ordering.lt
str_compare (x ∷ xs) [] = Ordering.gt
str_compare (x ∷ xs) (y ∷ ys) = or_else (compare x y) (str_compare xs ys)

-- strings.TrimLeft(s, "0")
unfoldable pub trim_zeros : List ℕ → List ℕ
trim_zeros [] = []
trim_zeros (c ∷ cs) = if c == b'0' then trim_zeros cs else c ∷ cs

-- The trimmed digits, with "0" for none.
unfoldable pub significant : List ℕ → List ℕ
significant s = let t = trim_zeros s in if str_eq t [] then lit "0" else t

unfoldable pub compare_numeric : List ℕ → List ℕ → Ordering
compare_numeric a b =
    let x = significant a in
    let y = significant b in or_else (compare (byte_len x) (byte_len y)) (str_compare x y)

unfoldable pub alpha_rank : List ℕ → ℤ
alpha_rank value =
    if str_eq value (lit "dev")
    then negsuc 4
    else if str_eq value (lit "alpha") || str_eq value (lit "a")
    then negsuc 3
    else if str_eq value (lit "beta") || str_eq value (lit "b")
    then negsuc 2
    else if str_eq value (lit "pre") || str_eq value (lit "preview")
    then negsuc 1
    else if str_eq value (lit "rc")
    then negsuc 0
    else pos 1

unfoldable pub compare_alpha : List ℕ → List ℕ → Ordering
compare_alpha a b =
    if str_eq a b
    then Ordering.eq
    else or_else (int_compare (alpha_rank a) (alpha_rank b)) (str_compare a b)

-- The end of one version against the tokens that the other has left.
unfoldable pub compare_end_to_remainder : List Token → Ordering
compare_end_to_remainder [] = Ordering.eq
compare_end_to_remainder (t ∷ rest) =
    let later = compare_end_to_remainder rest in
    if t.numeric
    then (elim (compare_numeric t.value (lit "0")) [ Ordering.eq ↦ later | _ ↦ Ordering.lt ])
    else if int_ltb (alpha_rank t.value) (pos 0)
    then Ordering.gt
    else Ordering.lt

-- The comparison of the tokens at one index.
unfoldable pub compare_token : Token → Token → Ordering
compare_token x y =
    if x.numeric && y.numeric
    then compare_numeric x.value y.value
    else if x.numeric
    then Ordering.gt
    else if y.numeric
    then Ordering.lt
    else compare_alpha x.value y.value

unfoldable pub compare_tokens : List Token → List Token → Ordering
compare_tokens [] tb = compare_end_to_remainder tb
compare_tokens (x ∷ xs) [] = reversed (compare_end_to_remainder (x ∷ xs))
compare_tokens (x ∷ xs) (y ∷ ys) = or_else (compare_token x y) (compare_tokens xs ys)

-- The variables of `tokenize`.
pub record Scan : Type 0 where
  pub out : List Token
  pub buffer : List ℕ
  pub kind : ℕ

unfoldable pub flush : Scan → Scan
flush s = if str_eq s.buffer [] then s else record s {
  out = s.out ++ (record { value = s.buffer; numeric = s.kind == 1 } ∷ []);
  buffer = [];
}

-- 1 for a digit, 2 for a letter, 0 for a separator
unfoldable pub rune_kind : Unicode → ℕ → ℕ
rune_kind u r = if u.is_digit r then 1 else if u.is_letter r then 2 else 0

-- The body of the loop, at a rune of kind `k`.
unfoldable pub scan_rune : Scan → ℕ → ℕ → Scan
scan_rune s k r =
    if k == 0
    then record (flush s) { kind = 0 }
    else let t = if not (s.kind == 0) && not (s.kind == k) then flush s else s in
      record t { kind = k; buffer = t.buffer ++ r ∷ [] }

unfoldable pub scan_runes : Unicode → Scan → List ℕ → Scan
scan_runes u s [] = s
scan_runes u s (r ∷ rs) = scan_runes u (scan_rune s (rune_kind u r) r) rs

abbrev pub start : Scan
start = record { out = []; buffer = []; kind = 0 }

-- `tokenize` behind strings.ToLower and the decoding of `range`
unfoldable pub tokens_of : Unicode → List ℕ → List Token
tokens_of u rs = (flush (scan_runes u start rs)).out

unfoldable pub tokenize : Unicode → Bytes → List Token
tokenize u v = tokens_of u (map u.to_lower (runes v))

unfoldable pub compare_versions : Unicode → Bytes → Bytes → Ordering
compare_versions u a b = compare_tokens (tokenize u a) (tokenize u b)

unfoldable pub at_least : Unicode → Bytes → ℤ → Bytes → ℤ → Bool
at_least u selected selected_revision minimum minimum_revision =
    elim (compare_versions u selected minimum) [
      | Ordering.lt ↦ false
      | Ordering.gt ↦ true
      | Ordering.eq ↦ int_geb selected_revision minimum_revision
    ]
