-- ===== src/PkgName/RoundTrip.antt =====
-- `SplitPkgVersion` takes apart what `PkgVersion` puts together.
use Prim.Native.Nat.{◌^◌}
use dalec_homebrew.Prelude.Int.{ℤ, pos}
use dalec_homebrew.Prelude.{
  ℕ, zero, suc, ◌<◌, ◌≡◌, ◌≢◌, refl, true, false, [], ◌∷◌, ◌++◌, none, some, ok, arith, All, all,
}
use dalec_homebrew.GoString.Decimal.{IsDigit, digit, itoa, value-itoa, itoa-IsDigit, itoa-ne-nil}
use dalec_homebrew.GoString.Unicode.{Unicode, is_blank}
use dalec_homebrew.GoString.{Bytes, str_eq_iff, count}
use dalec_homebrew.PkgName.{pkg_version, revision_suffix, atoi_digits, split_pkg_version, int_itoa}

all-digit : (s : Bytes) → All IsDigit s → all digit s ≡ true
all-digit [] h = refl
all-digit (c ∷ s) h = ground (arith, all-digit s h.1)

revision_suffix-IsDigit : (s : Bytes) → All IsDigit s → revision_suffix s ≡ none
unfolding revision_suffix
revision_suffix-IsDigit [] h = refl
revision_suffix-IsDigit (c ∷ s) h = rw (revision_suffix-IsDigit s h.1) (ground arith)

-- The expression finds the revision at the end of a version with no newline.
revision_suffix-append :
    (s d : Bytes)
    → All IsDigit d
    → d ≢ []
    → count b'\n' s ≡ 0
    → revision_suffix (s ++ b'_' ∷ d) ≡ some (s, d)
unfolding revision_suffix count
revision_suffix-append [] d h ne n =
    rw (revision_suffix-IsDigit d h, all-digit d h) (ground (arith, str_eq_iff d []))
revision_suffix-append (c ∷ s) d h ne n =
    rw (revision_suffix-append s d h ne (ground arith)) (ground arith)

atoi_digits-itoa : (n : ℕ) → n < 2 ^ 63 → atoi_digits (itoa n) ≡ ok (pos n)
unfolding atoi_digits
atoi_digits-itoa n h = rw (value-itoa n) (ground arith)

split_some :
    (u : Unicode) (v s d : Bytes) (n : ℤ)
    → revision_suffix v ≡ some (s, d)
    → atoi_digits d ≡ ok n
    → split_pkg_version u v ≡ ok (s, n)
unfolding split_pkg_version
split_some u v s d n h k = ground arith

pkg_version_suc : (s : Bytes) (n : ℕ) → pkg_version s (pos (suc n)) ≡ s ++ b'_' ∷ itoa (suc n)
unfolding pkg_version int_itoa
pkg_version_suc s n = ground arith

-- The revisions that a package version can carry beside a version: none, or below 2^63 behind a
-- version without a newline. A version that ends in a revision of its own is left out.
abbrev pub Carries : Unicode → Bytes → ℕ → Type 0
Carries u s zero = (revision_suffix s ≡ none) × (is_blank u s ≡ false)
Carries u s (suc n) = (count b'\n' s ≡ 0) × (suc n < 2 ^ 63)

-- `SplitPkgVersion` gives back the version and the revision that `PkgVersion` was given, when the
-- package version can carry the revision beside the version.
pub split_pkg_version-pkg_version :
    (u : Unicode) (stable : Bytes) (revision : ℕ)
    → Carries u stable revision
    → split_pkg_version u (pkg_version stable (pos revision)) ≡ ok (stable, pos revision)
split_pkg_version-pkg_version u s zero (h, k) = unfold split_pkg_version pkg_version in ground arith
split_pkg_version-pkg_version u s (suc n) (h, k) = rw (pkg_version_suc s n) (
    split_some u (s ++ b'_' ∷ itoa (suc n)) s (itoa (suc n)) (pos (suc n))
      (revision_suffix-append s (itoa (suc n)) (itoa-IsDigit (suc n)) (itoa-ne-nil (suc n)) h)
      (atoi_digits-itoa (suc n) k))
