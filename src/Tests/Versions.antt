-- ===== src/Tests/Versions.antt =====
-- version.go on concrete versions.
use dalec_homebrew.Prelude.{◌≡◌, refl, ◌∷◌, ◌++◌, ok, All, true, arith, ◌<◌}
use dalec_homebrew.Prelude.Int.{pos}
use Prim.Native.Nat.{compare, Ordering, ◌^◌}
use dalec_homebrew.GoString.{lit, count, str_eq, has_prefix, contains_byte}
use dalec_homebrew.GoString.Unicode.{decode_rune, runes_from, runes, rune_len, byte_len, is_blank}
use dalec_homebrew.GoString.Decimal.{value, itoa_fuel, itoa, IsDigit}
use dalec_homebrew.Version.{
  reversed, str_compare, trim_zeros, significant, compare_numeric, alpha_rank, compare_alpha,
  compare_end_to_remainder, compare_token, compare_tokens, flush, rune_kind, scan_rune, scan_runes,
  tokens_of, tokenize, compare_versions, at_least,
}
use dalec_homebrew.Version.Order.{compare_versions_swap}
use dalec_homebrew.Version.Tokens.{tokens_of-append}
use dalec_homebrew.Version.Numeric.{compare_numeric-value}
use dalec_homebrew.PkgName.{int_itoa, pkg_version, revision_suffix, atoi_digits, split_pkg_version}
use dalec_homebrew.PkgName.RoundTrip.{split_pkg_version-pkg_version}
use dalec_homebrew.Tests.{ascii}

tests :
    (compare_versions ascii (lit "1.10") (lit "1.9") ≡ Ordering.gt)
    × (compare_versions ascii (lit "1.0rc1") (lit "1.0") ≡ Ordering.lt)
    × (compare_versions ascii (lit "1.0") (lit "1") ≡ Ordering.eq)
    × (at_least ascii (lit "1.0") (pos 1) (lit "1") (pos 0) ≡ true)
    × (split_pkg_version ascii (lit "1.2_3") ≡ ok (lit "1.2", pos 3))
unfolding str_eq has_prefix contains_byte count decode_rune runes_from runes rune_len byte_len
    is_blank str_compare trim_zeros significant compare_numeric alpha_rank compare_alpha
    compare_end_to_remainder compare_token compare_tokens flush rune_kind scan_rune scan_runes
    tokens_of tokenize compare_versions at_least int_itoa pkg_version revision_suffix atoi_digits
    split_pkg_version value itoa_fuel itoa
tests = (refl, refl, refl, refl, refl)

compare_versions_swap_example :
    compare_versions ascii (lit "1.0rc1") (lit "1.0")
    ≡ reversed (compare_versions ascii (lit "1.0") (lit "1.0rc1"))
compare_versions_swap_example = compare_versions_swap ascii (lit "1.0") (lit "1.0rc1")

one_way : at_least ascii (lit "1.0") (pos 1) (lit "1") (pos 1) ≡ true
unfolding str_eq has_prefix contains_byte count decode_rune runes_from runes rune_len byte_len
    is_blank str_compare trim_zeros significant compare_numeric alpha_rank compare_alpha
    compare_end_to_remainder compare_token compare_tokens flush rune_kind scan_rune scan_runes
    tokens_of tokenize compare_versions at_least
one_way = refl

other_way : at_least ascii (lit "1") (pos 1) (lit "1.0") (pos 1) ≡ true
unfolding str_eq has_prefix contains_byte count decode_rune runes_from runes rune_len byte_len
    is_blank str_compare trim_zeros significant compare_numeric alpha_rank compare_alpha
    compare_end_to_remainder compare_token compare_tokens flush rune_kind scan_rune scan_runes
    tokens_of tokenize compare_versions at_least
other_way = refl

dot-separates : rune_kind ascii b'.' ≡ 0
unfolding rune_kind
dot-separates = refl

tokens_of-append_example :
    tokens_of ascii (lit "12rc" ++ b'.' ∷ lit "3")
    ≡ tokens_of ascii (lit "12rc") ++ tokens_of ascii (lit "3")
tokens_of-append_example = tokens_of-append ascii (lit "12rc") (lit "3") b'.' dot-separates

digits : All IsDigit (lit "0012") × All IsDigit (lit "9")
digits = ground arith

compare_numeric-value_example :
    compare_numeric (lit "0012") (lit "9") ≡ compare (value (lit "0012")) (value (lit "9"))
compare_numeric-value_example = compare_numeric-value (lit "0012") (lit "9") digits.0 digits.1

carries : (count b'\n' (lit "1.2") ≡ 0) × (3 < 2 ^ 63)
unfolding count
carries = (refl, omega arith)

split_pkg_version-pkg_version_example :
    split_pkg_version ascii (pkg_version (lit "1.2") (pos 3)) ≡ ok (lit "1.2", pos 3)
split_pkg_version-pkg_version_example = split_pkg_version-pkg_version ascii (lit "1.2") 3 carries
