-- ===== src/Tests/Registry.antt =====
-- Packages oci and version on concrete Formulae.
use dalec_homebrew.Prelude.{◌≡◌, ◌↔◌, refl, ok}
use dalec_homebrew.Prelude.Int.{pos}
use dalec_homebrew.GoString.{lit, str_eq, has_prefix, has_suffix, split, count, contains_byte}
use dalec_homebrew.GoString.Unicode.{decode_rune, runes_from, runes, is_blank}
use dalec_homebrew.GoString.Decimal.{itoa_fuel, itoa}
use dalec_homebrew.FormulaId.Valid.{IsFormulaId}
use dalec_homebrew.PkgName.{int_itoa, lower_or_digit, escape_name, bottle_filename}
use dalec_homebrew.Oci.Names.{
  tag_x86_64_linux, after_word, after_separator, segment_step, segment_run, has_upper,
  validate_repository, formula_name_ok, validate_formula_name, escape_formula_name, last_rune,
  has_edge_space, has_unsafe_byte, oci_pkg_version, word_byte, tag_ok, index_tag, valid_bottle_tag,
  oci_bottle_filename,
}
use dalec_homebrew.Oci.Identity.{validate_id, repository_path_for_id}
use dalec_homebrew.Oci.Repository.{validate_id_iff, repository_path_for_id-shared, plus_as_x}
use dalec_homebrew.Oci.Agreement.{oci_bottle_filename-bottle_filename}
use dalec_homebrew.Tests.{ascii}
use dalec_homebrew.Tests.Identities.{gtk, gtkx, gtk-IsFormulaId, gtkx-IsFormulaId}

name_tests :
    (escape_formula_name (lit "gtk+@3") ≡ ok (lit "gtkx/3"))
    × (escape_formula_name (lit "gtkx@3") ≡ ok (lit "gtkx/3"))
    × (oci_pkg_version ascii (lit "1.2") (pos 3) ≡ ok (lit "1.2_3"))
    × (oci_bottle_filename (lit "jq") (lit "1.2_3") tag_x86_64_linux (pos 1)
        ≡ ok (lit "jq--1.2_3.x86_64_linux.bottle.1.tar.gz"))
unfolding str_eq has_suffix split count contains_byte decode_rune runes_from runes is_blank int_itoa
    lower_or_digit escape_name itoa_fuel itoa after_word after_separator segment_step segment_run
    has_upper validate_repository formula_name_ok validate_formula_name escape_formula_name
    last_rune has_edge_space has_unsafe_byte oci_pkg_version word_byte tag_ok index_tag
    valid_bottle_tag oci_bottle_filename
name_tests = (refl, refl, refl, refl)

path_tests :
    (repository_path_for_id gtk ≡ ok (lit "my-org/tools/gtkx/3"))
    × (repository_path_for_id gtkx ≡ ok (lit "my-org/tools/gtkx/3"))
unfolding repository_path_for_id validate_repository str_eq has_upper split segment_run segment_step
    lower_or_digit after_word after_separator has_prefix
path_tests = (
  rw ((validate_id_iff gtk).1 gtk-IsFormulaId, name_tests.0),
  rw ((validate_id_iff gtkx).1 gtkx-IsFormulaId, name_tests.1),
)

validate_id_iff_example : (validate_id gtk ≡ ok tt) ↔ IsFormulaId gtk
validate_id_iff_example = validate_id_iff gtk

repository_path_for_id-shared_example :
    (lit "my-org/tools/gtkx/3" ≡ lit "my-org/tools/gtkx/3")
    ↔ ((gtk.tap ≡ gtkx.tap) × (plus_as_x gtk.name ≡ plus_as_x gtkx.name))
repository_path_for_id-shared_example =
    repository_path_for_id-shared gtk gtkx (lit "my-org/tools/gtkx/3") (lit "my-org/tools/gtkx/3")
      path_tests.0 path_tests.1

oci_bottle_filename-bottle_filename_example :
    bottle_filename (lit "jq") (lit "1.2_3") tag_x86_64_linux (pos 1)
    ≡ ok (lit "jq--1.2_3.x86_64_linux.bottle.1.tar.gz")
oci_bottle_filename-bottle_filename_example =
    oci_bottle_filename-bottle_filename (lit "jq") (lit "1.2_3") tag_x86_64_linux (pos 1)
      (lit "jq--1.2_3.x86_64_linux.bottle.1.tar.gz") name_tests.3
