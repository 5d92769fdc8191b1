-- ===== src/PkgName.antt =====
-- internal/homebrew/version/version.go: the names built from a Formula and its version.
pub mod RoundTrip
use Prim.Native.Nat.{◌^◌}
use dalec_homebrew.Prelude.Int.{ℤ, pos, negsuc, int_ltb}
use dalec_homebrew.Prelude.{
  ℕ, ◌+◌, Bool, true, false, not, ◌&&◌, ◌||◌, List, [], ◌∷◌, ◌++◌, Option, none, some, map, all,
  ltb, leb, ◌==◌, if◌then◌else◌, Result, ok, err, ◌>>=◌, ◌>>◌, fail_if,
}
use dalec_homebrew.GoString.Decimal.{digit, value, itoa}
use dalec_homebrew.GoString.FilePath.{path_base}
use dalec_homebrew.GoString.Unicode.{Unicode, is_blank}
use dalec_homebrew.GoString.{Bytes, lit, str_eq, contains_byte, has_prefix}

pub data NameError : Type 0 where
  empty_version revision_overflow invalid_name invalid_part : NameError

-- fmt's %d
unfoldable pub int_itoa : ℤ → Bytes
int_itoa (pos n) = itoa n
int_itoa (negsuc n) = b'-' ∷ itoa (n + 1)

unfoldable pub pkg_version : Bytes → ℤ → Bytes
pkg_version stable revision =
    if int_ltb (pos 0) revision then stable ++ b'_' ∷ int_itoa revision else stable

-- The two groups of `^(.*)_([0-9]+)$`. A dot matches no newline; the digits hold no underscore, so
-- the match is the only one.
unfoldable pub revision_suffix : Bytes → Option (Bytes × Bytes)
revision_suffix [] = none
revision_suffix (c ∷ s) = elim (revision_suffix s) [
  | some (stable, digits) ↦ if c == b'\n' then none else some (c ∷ stable, digits)
  | none ↦ if c == b'_' && not (str_eq s []) && all digit s then some ([], s) else none
]

-- strconv.Atoi on digits, with the range of a 64-bit int
unfoldable pub atoi_digits : Bytes → Result NameError ℤ
atoi_digits s = if ltb (value s) (2 ^ 63) then ok (pos (value s)) else err revision_overflow

unfoldable pub split_pkg_version : Unicode → Bytes → Result NameError (Bytes × ℤ)
split_pkg_version u v = elim (revision_suffix v) [
  | some (stable, digits) ↦ atoi_digits digits >>= λ n. ok (stable, n)
  | none ↦ if is_blank u v then err empty_version else ok (v, pos 0)
]

unfoldable pub image_tag : Bytes → ℤ → Bytes
image_tag pkg rebuild = if int_ltb (pos 0) rebuild then pkg ++ b'-' ∷ int_itoa rebuild else pkg

unfoldable pub lower_or_digit : ℕ → Bool
lower_or_digit c = leb b'a' c && leb c b'z' || digit c

-- `^[a-z0-9][a-z0-9+_.@-]*$`
unfoldable pub safe_name : Bytes → Bool
unfolding lower_or_digit contains_byte
safe_name [] = false
safe_name (c ∷ s) =
    lower_or_digit c && all (λ d. lower_or_digit d || contains_byte (lit "+_.@-") d) s

-- strings.ContainsAny(s, "/\\")
unfoldable pub has_separator : Bytes → Bool
unfolding contains_byte
has_separator s = contains_byte s b'/' || contains_byte s b'\\'

-- strings.NewReplacer("@", "/", "+", "x").Replace
unfoldable pub escape_name : Bytes → Bytes
escape_name = map (λ c. if c == b'@' then b'/' else if c == b'+' then b'x' else c)

unfoldable pub oci_formula_path : Bytes → Result NameError Bytes
oci_formula_path name =
    if not (safe_name name) || has_separator name then err invalid_name else ok (escape_name name)

abbrev bad_part : Bytes → Bool
bad_part v = str_eq v [] || not (str_eq (path_base v) v) || has_separator v

-- Go ranges over the two parts in any order; an error says only that one of them is bad.
unfoldable pub bottle_filename : Bytes → Bytes → Bytes → ℤ → Result NameError Bytes
bottle_filename name pkg tag rebuild = do
  fail_if (not (safe_name name) || has_separator name) invalid_name
  fail_if (bad_part pkg || bad_part tag) invalid_part
  let suffix = if int_ltb (pos 0) rebuild then b'.' ∷ int_itoa rebuild else []
  ok (name ++ lit "--" ++ pkg ++ b'.' ∷ tag ++ lit ".bottle" ++ suffix ++ lit ".tar.gz")
