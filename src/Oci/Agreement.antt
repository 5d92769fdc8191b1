-- ===== src/Oci/Agreement.antt =====
-- Package oci and package version build the same names: what oci accepts, version accepts, and the
-- two results are equal.
use dalec_homebrew.Prelude.Int.{ℤ, pos, int_ltb}
use dalec_homebrew.Prelude.{
  ℕ, ◌≡◌, ◌≢◌, refl, sym, ap, ◌∙◌, Bool, true, false, ◌||◌, [], ◌∷◌, ◌++◌, ok, arith, all, ◌==◌,
  if◌then◌else◌, Bool-cases, inl, inr, append-nil, eq-false, ==_iff,
}
use mathlib.Core.List.{cons≢nil}
use dalec_homebrew.GoString.FilePath.{path_base, strip_slashes, last_element}
use dalec_homebrew.GoString.Unicode.{Unicode}
use dalec_homebrew.GoString.{Bytes, lit, str_eq, str_eq_iff, str_eq_refl, contains_byte, count}
use dalec_homebrew.PkgName.{
  pkg_version, image_tag, oci_formula_path, bottle_filename, safe_name, has_separator,
  lower_or_digit, int_itoa,
}
use dalec_homebrew.Oci.Names.{
  oci_pkg_version, index_tag, escape_formula_name, oci_bottle_filename, validate_formula_name,
  formula_name_ok, tag_ok, word_byte, valid_bottle_tag, tag_x86_64_linux, tag_arm64_linux, tag_all,
  with_rebuild,
}

-- A package version that package oci returns is the one of package version.
pub oci_pkg_version-pkg_version :
    (u : Unicode) (v : Bytes) (r : ℤ) (p : Bytes)
    → oci_pkg_version u v r ≡ ok p
    → p ≡ pkg_version v r
unfolding oci_pkg_version pkg_version
oci_pkg_version-pkg_version u v r p h = ground arith

index_tag-image_tag : (p : Bytes) (n : ℤ) (t : Bytes) → index_tag p n ≡ ok t → t ≡ image_tag p n
unfolding index_tag image_tag
index_tag-image_tag p n t h = ground arith

name_byte-agree :
    (c : ℕ)
    → (lower_or_digit c || contains_byte (lit "@+._-") c) ≡ true
    → (lower_or_digit c || contains_byte (lit "+_.@-") c) ≡ true
unfolding contains_byte
name_byte-agree c h = ground arith

all_mono :
    (p q : ℕ → Bool)
    → ((c : ℕ) → p c ≡ true → q c ≡ true)
    → (s : Bytes) → all p s ≡ true
    → all q s ≡ true
all_mono p q h [] e = refl
all_mono p q h (c ∷ s) e = ground (arith, h c, all_mono p q h s)

formula_name_ok-safe_name : (s : Bytes) → formula_name_ok s ≡ true → safe_name s ≡ true
unfolding formula_name_ok safe_name
formula_name_ok-safe_name [] h = h
formula_name_ok-safe_name (c ∷ s) h = ground (arith, all_mono _ _ name_byte-agree s)

contains_byte-all :
    (p : ℕ → Bool) (b : ℕ) → p b ≡ false → (s : Bytes) → all p s ≡ true → contains_byte s b ≡ false
unfolding contains_byte
contains_byte-all p b h [] e = refl
contains_byte-all p b h (c ∷ s) e = elim (Bool-cases (c == b)) [
  | inl here ↦ absurd (ground (arith, ap p ((==_iff c b).0 here)))
  | inr there ↦ ground (arith, contains_byte-all p b h s)
]

-- A byte that a test on every byte refuses is not in the string.
lacks :
    (p : ℕ → Bool) (s : Bytes)
    → all p s ≡ true
    → p b'/' ≡ false
    → p b'\\' ≡ false
    → has_separator s ≡ false
unfolding has_separator
lacks p s e h k = rw (contains_byte-all p b'/' h s e, contains_byte-all p b'\\' k s e)

name_byte : ℕ → Bool
name_byte c = lower_or_digit c || contains_byte (lit "@+._-") c

safe_name-lacks : (s : Bytes) → formula_name_ok s ≡ true → has_separator s ≡ false
unfolding formula_name_ok
safe_name-lacks [] h = absurd (ground arith)
safe_name-lacks (c ∷ s) h =
    lacks name_byte (c ∷ s) (unfold name_byte in ground arith)
      (unfold name_byte lower_or_digit contains_byte in refl)
      (unfold name_byte lower_or_digit contains_byte in refl)

-- A path that package oci returns for a name is the one that package version returns.
pub escape_formula_name-oci_formula_path :
    (n e : Bytes) → escape_formula_name n ≡ ok e → oci_formula_path n ≡ ok e
unfolding escape_formula_name oci_formula_path validate_formula_name
escape_formula_name-oci_formula_path n e h =
    ground (arith, formula_name_ok-safe_name n, safe_name-lacks n)

tag_byte : ℕ → Bool
tag_byte d = word_byte d || d == b'.' || d == b'-'

tag_ok-all : (s : Bytes) → tag_ok s ≡ true → (all tag_byte s ≡ true) × (s ≢ [])
unfolding tag_ok tag_byte
tag_ok-all [] h = absurd (ground arith)
tag_ok-all (c ∷ s) h = (ground arith, cons≢nil)

strip_slashes_none : (s : Bytes) → contains_byte s b'/' ≡ false → strip_slashes s ≡ s
unfolding strip_slashes contains_byte
strip_slashes_none [] h = refl
strip_slashes_none (c ∷ s) h = ground (arith, strip_slashes_none s)

count-contains_byte : (b : ℕ) (s : Bytes) → contains_byte s b ≡ false → count b s ≡ 0
unfolding count contains_byte
count-contains_byte b [] h = refl
count-contains_byte b (c ∷ s) h = ground (arith, count-contains_byte b s)

last_element_none : (s : Bytes) → contains_byte s b'/' ≡ false → last_element s ≡ s
unfolding last_element contains_byte
last_element_none [] h = refl
last_element_none (c ∷ s) h = ground (arith, count-contains_byte b'/' s)

path_base_none : (s : Bytes) → contains_byte s b'/' ≡ false → s ≢ [] → path_base s ≡ s
unfolding path_base
path_base_none s h n =
    rw (strip_slashes_none s h, last_element_none s h) (ground (arith, str_eq_iff s []))

-- A part of a file name that version accepts.
part_ok :
    (s : Bytes)
    → tag_ok s ≡ true
    → (str_eq s [] ≡ false) × (path_base s ≡ s) × (has_separator s ≡ false)
part_ok s h =
    let (a, n) = tag_ok-all s h in
    let sep : has_separator s ≡ false =
      lacks tag_byte s a (unfold tag_byte word_byte lower_or_digit in refl)
        (unfold tag_byte word_byte lower_or_digit in refl) in
    (
      eq-false _ (λ e. n ((str_eq_iff s []).0 e)),
      path_base_none s
          (contains_byte-all tag_byte b'/' (unfold tag_byte word_byte lower_or_digit in refl) s a)
          n,
      sep,
    )

ok-x86 : tag_ok tag_x86_64_linux ≡ true
unfolding tag_ok word_byte lower_or_digit
ok-x86 = refl

ok-arm64 : tag_ok tag_arm64_linux ≡ true
unfolding tag_ok word_byte lower_or_digit
ok-arm64 = refl

ok-all : tag_ok tag_all ≡ true
unfolding tag_ok word_byte lower_or_digit
ok-all = refl

valid_bottle_tag-tag_ok : (s : Bytes) → valid_bottle_tag s ≡ true → tag_ok s ≡ true
unfolding valid_bottle_tag
valid_bottle_tag-tag_ok s h = ground (
  arith,
  str_eq_iff s tag_x86_64_linux,
  str_eq_iff s tag_arm64_linux,
  str_eq_iff s tag_all,
  ok-x86,
  ok-arm64,
  ok-all,
)

-- What the four tests of package oci's `BottleFilename` leave.
record Accepted (n p t : Bytes) (r : ℤ) (f : Bytes) : Type 0 where
  name : formula_name_ok n ≡ true
  pkg : tag_ok p ≡ true
  tag : valid_bottle_tag t ≡ true
  file : f ≡ with_rebuild b'.' (n ++ lit "--" ++ p ++ b'.' ∷ t ++ lit ".bottle") r ++ lit ".tar.gz"

oci_bottle_filename-Accepted :
    (n p t : Bytes) (r : ℤ) (f : Bytes) → oci_bottle_filename n p t r ≡ ok f → Accepted n p t r f
unfolding oci_bottle_filename validate_formula_name index_tag
oci_bottle_filename-Accepted n p t r f h = record {
  name = ground arith;
  pkg = ground arith;
  tag = ground arith;
  file = ground arith;
}

suffix-with_rebuild :
    (front : Bytes) (r : ℤ)
    → front ++ (if int_ltb (pos 0) r then b'.' ∷ int_itoa r else []) ≡ with_rebuild b'.' front r
suffix-with_rebuild front r = elim (Bool-cases (int_ltb (pos 0) r)) [
  | inl yes_rebuild ↦ rw yes_rebuild
  | inr none_rebuild ↦ rw (none_rebuild, append-nil)
]

-- A bottle file name that package oci returns is the one that package version returns.
pub oci_bottle_filename-bottle_filename :
    (n p t : Bytes) (r : ℤ) (f : Bytes)
    → oci_bottle_filename n p t r ≡ ok f
    → bottle_filename n p t r ≡ ok f
unfolding bottle_filename
oci_bottle_filename-bottle_filename n p t r f h =
    let a = oci_bottle_filename-Accepted n p t r f h in
    let (p1, p2, p3) = part_ok p a.pkg in
    let (t1, t2, t3) = part_ok t (valid_bottle_tag-tag_ok t a.tag) in
    rw
      (
        formula_name_ok-safe_name n a.name,
        safe_name-lacks n a.name,
        p1,
        p2,
        p3,
        t1,
        t2,
        t3,
        str_eq_refl p,
        str_eq_refl t,
      )
      (ap (λ x. ok (x ++ lit ".tar.gz")) (suffix-with_rebuild _ r) ∙ ap ok (sym a.file))
