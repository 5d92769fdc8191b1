-- ===== src/Oci/Names.antt =====
-- internal/homebrew/oci/reference.go and client.go: repository names, tags and file names.
use dalec_homebrew.Prelude.Int.{ℤ, pos, int_ltb}
use dalec_homebrew.Prelude.{
  ℕ, Bool, true, false, not, ◌&&◌, ◌||◌, List, [], ◌∷◌, ◌++◌, Option, none, some, length, all, ltb,
  leb, ◌==◌, if◌then◌else◌, Result, ok, err, ◌>>=◌, ◌>>◌, fail_if,
}
use dalec_homebrew.GoString.Decimal.{digit}
use dalec_homebrew.GoString.Unicode.{Unicode, runes, is_blank}
use dalec_homebrew.GoString.{Bytes, lit, str_eq, count, split, has_suffix, contains_byte}
use dalec_homebrew.PkgName.{int_itoa, lower_or_digit, escape_name}

pub data OciError : Type 0 where
  invalid_formula_name invalid_versioned_name invalid_repository : OciError
  invalid_segment surrounding_space unsafe_version negative_revision : OciError
  negative_rebuild invalid_tag unsupported_bottle_tag invalid_checksum empty_cellar : OciError
  foreign_full_name negative_scheme escapes_prefix : OciError
  empty_identity not_canonical name_mismatch repository_mismatch invalid_commit : OciError
  invalid_source_path invalid_root_url root_mismatch not_ghcr_root invalid_id : OciError

abbrev pub ghcr_registry : Bytes
ghcr_registry = lit "ghcr.io"

abbrev pub homebrew_core_repository : Bytes
homebrew_core_repository = lit "homebrew/core"

-- The states of `^[a-z0-9]+(?:(?:[._]|__|[-]+)[a-z0-9]+)*$`, by what stands last: nothing, a letter
-- or digit, a dot, one underscore, two, or hyphens.
pub data Segment : Type 0 where
  nothing word dot underscore underscores hyphens : Segment

unfoldable pub after_word : ℕ → Option Segment
after_word c =
    if c == b'.'
    then some dot
    else if c == b'_'
    then some underscore
    else if c == b'-'
    then some hyphens
    else none

-- What a byte that is no letter or digit leads to.
unfoldable pub after_separator : Segment → ℕ → Option Segment
unfolding after_word
after_separator word c = after_word c
after_separator underscore c = if c == b'_' then some underscores else none
after_separator hyphens c = if c == b'-' then some hyphens else none
after_separator _ c = none

unfoldable pub segment_step : Segment → ℕ → Option Segment
segment_step state c = if lower_or_digit c then some word else after_separator state c

unfoldable pub segment_run : Segment → Bytes → Bool
segment_run word [] = true
segment_run _ [] = false
segment_run state (c ∷ s) = elim (segment_step state c) [
  | none ↦ false
  | some next ↦ segment_run next s
]

abbrev pub segment_ok : Bytes → Bool
segment_ok = segment_run Segment.nothing

-- strings.ToLower(s) == s on the bytes that the segments let through: a repository with any other
-- byte is refused by its segments.
unfoldable pub has_upper : Bytes → Bool
has_upper s = not (all (λ c. not (leb b'A' c && leb c b'Z')) s)

unfoldable pub validate_repository : Bytes → Result OciError Unit
validate_repository r = do
  fail_if (str_eq r [] || ltb 255 (length r) || has_upper r) invalid_repository
  fail_if (not (all segment_ok (split b'/' r))) invalid_segment

unfoldable pub formula_name_ok : Bytes → Bool
formula_name_ok [] = false
formula_name_ok (c ∷ s) =
    lower_or_digit c && all (λ d. lower_or_digit d || contains_byte (lit "@+._-") d) s

unfoldable pub validate_formula_name : Bytes → Result OciError Unit
validate_formula_name name = do
  fail_if (not (formula_name_ok name)) invalid_formula_name
  fail_if (ltb 1 (count b'@' name) || has_suffix name (lit "@")) invalid_versioned_name

unfoldable pub escape_formula_name : Bytes → Result OciError Bytes
escape_formula_name name = do
  validate_formula_name name
  validate_repository (escape_name name)
  ok (escape_name name)

unfoldable pub repository_path : Bytes → Result OciError Bytes
repository_path name = do
  escaped ← escape_formula_name name
  let repository = homebrew_core_repository ++ b'/' ∷ escaped
  validate_repository repository
  ok repository

unfoldable pub canonical_repository : Bytes → Result OciError Bytes
canonical_repository name = do
  repository ← repository_path name
  ok (ghcr_registry ++ b'/' ∷ repository)

unfoldable pub last_rune : ℕ → List ℕ → ℕ
last_rune r [] = r
last_rune r (q ∷ rs) = last_rune q rs

-- strings.TrimSpace(s) != s
unfoldable pub has_edge_space : Unicode → List ℕ → Bool
has_edge_space u [] = false
has_edge_space u (r ∷ rs) = u.is_space r || u.is_space (last_rune r rs)

-- strings.ContainsAny(s, "/\\\x00\r\n\t ")
unfoldable pub has_unsafe_byte : Bytes → Bool
has_unsafe_byte s =
    not (all (λ c. not (contains_byte (b'/' ∷ b'\\' ∷ 0 ∷ 13 ∷ 10 ∷ 9 ∷ b' ' ∷ []) c)) s)

-- PkgVersion of package oci
unfoldable pub oci_pkg_version : Unicode → Bytes → ℤ → Result OciError Bytes
oci_pkg_version u version revision =
    if has_edge_space u (runes version) || str_eq version []
    then err surrounding_space
    else if has_unsafe_byte version
    then err unsafe_version
    else if int_ltb revision (pos 0)
    then err negative_revision
    else if int_ltb (pos 0) revision
    then ok (version ++ b'_' ∷ int_itoa revision)
    else ok version

unfoldable pub word_byte : ℕ → Bool
word_byte c = lower_or_digit c || leb b'A' c && leb c b'Z' || c == b'_'

-- `^[A-Za-z0-9_][A-Za-z0-9._-]{0,127}$`
unfoldable pub tag_ok : Bytes → Bool
tag_ok [] = false
tag_ok (c ∷ s) =
    word_byte c && all (λ d. word_byte d || d == b'.' || d == b'-') s && leb (length s) 127

abbrev pub with_rebuild : ℕ → Bytes → ℤ → Bytes
with_rebuild mark tag rebuild =
    if int_ltb (pos 0) rebuild then tag ++ mark ∷ int_itoa rebuild else tag

unfoldable pub index_tag : Bytes → ℤ → Result OciError Bytes
index_tag pkg rebuild = do
  fail_if (int_ltb rebuild (pos 0)) negative_rebuild
  fail_if (not (tag_ok (with_rebuild b'-' pkg rebuild))) invalid_tag
  ok (with_rebuild b'-' pkg rebuild)

abbrev pub tag_x86_64_linux : Bytes
tag_x86_64_linux = lit "x86_64_linux"

abbrev pub tag_arm64_linux : Bytes
tag_arm64_linux = lit "arm64_linux"

abbrev pub tag_all : Bytes
tag_all = lit "all"

unfoldable pub valid_bottle_tag : Bytes → Bool
valid_bottle_tag tag =
    str_eq tag tag_x86_64_linux || str_eq tag tag_arm64_linux || str_eq tag tag_all

unfoldable pub child_tag : Bytes → Bytes → ℤ → Result OciError Bytes
child_tag pkg tag rebuild = do
  fail_if (not (valid_bottle_tag tag)) unsupported_bottle_tag
  fail_if (int_ltb rebuild (pos 0)) negative_rebuild
  let child = with_rebuild b'.' (pkg ++ b'.' ∷ tag) rebuild
  fail_if (not (tag_ok child)) invalid_tag
  ok child

-- BottleFilename of package oci
unfoldable pub oci_bottle_filename : Bytes → Bytes → Bytes → ℤ → Result OciError Bytes
oci_bottle_filename name pkg tag rebuild = do
  validate_formula_name name
  index_tag pkg (pos 0)
  fail_if (not (valid_bottle_tag tag)) unsupported_bottle_tag
  fail_if (int_ltb rebuild (pos 0)) negative_rebuild
  let filename = name ++ lit "--" ++ pkg ++ b'.' ∷ tag ++ lit ".bottle"
  ok (with_rebuild b'.' filename rebuild ++ lit ".tar.gz")

unfoldable pub canonical_full_name : Bytes → Bytes
canonical_full_name name = homebrew_core_repository ++ b'/' ∷ name

-- hex.DecodeString accepts both cases; the second test of the code refuses the upper one.
abbrev hex_digit : ℕ → Bool
hex_digit c = digit c || leb b'a' c && leb c b'f'

unfoldable pub validate_sha256_hex : Bytes → Result OciError Unit
validate_sha256_hex s = fail_if (not (length s == 64) || not (all hex_digit s)) invalid_checksum

pub record BottleFile : Type 0 where
  pub cellar : Bytes
  pub sha256 : Bytes

unfoldable pub validate_bottle_file : Unicode → Bytes → BottleFile → Result OciError Unit
validate_bottle_file u tag file = do
  fail_if (not (valid_bottle_tag tag)) unsupported_bottle_tag
  fail_if (is_blank u file.cellar) empty_cellar
  validate_sha256_hex file.sha256
