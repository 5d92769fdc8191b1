-- ===== src/Oci/Identity.antt =====
-- internal/homebrew/oci/identity.go: the identity of a Formula in a tap's default repository.
use dalec_homebrew.Prelude.{
  ℕ, Bool, true, false, not, ◌&&◌, ◌||◌, [], ◌∷◌, ◌++◌, Option, none, some, length, all, ltb, leb,
  ◌==◌, if◌then◌else◌, Result, ok, err, ◌>>=◌, ◌>>◌, fail_if, map_err, map,
}
use dalec_homebrew.GoString.Decimal.{digit}
use dalec_homebrew.GoString.FilePath.{path_base, path_clean}
use dalec_homebrew.GoString.Unicode.{Unicode, runes}
use dalec_homebrew.GoString.{Bytes, lit, str_eq, has_prefix, contains_byte}
use dalec_homebrew.FormulaId.{
  Tap, FormulaId, tap_eq, id_eq, tap_string, id_string, parse, parse_tap,
}
use dalec_homebrew.Oci.Names.{
  OciError, empty_identity, not_canonical, invalid_id, escapes_prefix, name_mismatch,
  repository_mismatch, invalid_commit, invalid_source_path, invalid_root_url, root_mismatch,
  ghcr_registry, escape_formula_name, validate_repository,
}

pub record AuthenticatedIdentity : Type 0 where
  pub id : FormulaId
  pub homebrew_full_name : Bytes
  pub source_repository : Bytes
  pub source_commit : Bytes
  pub formula_path : Bytes

-- validateFormulaID; an error of `Parse` keeps no more than that it is one.
unfoldable pub validate_id : FormulaId → Result OciError Unit
validate_id id = do
  fail_if (str_eq (id_string id) []) empty_identity
  parsed ← map_err (λ _. invalid_id) (parse (id_string id))
  fail_if (not (id_eq parsed id)) not_canonical

-- validateTap of package oci
unfoldable pub validate_tap_identity : Tap → Result OciError Unit
validate_tap_identity t = do
  fail_if (str_eq (tap_string t) []) empty_identity
  parsed ← map_err (λ _. invalid_id) (parse_tap (tap_string t))
  fail_if (not (tap_eq parsed t)) not_canonical

unfoldable pub repository_path_for_id : FormulaId → Result OciError Bytes
repository_path_for_id id = do
  validate_id id
  escaped ← escape_formula_name id.name
  let prefix = id.tap.owner ++ b'/' ∷ id.tap.name
  let repository = prefix ++ b'/' ∷ escaped
  validate_repository repository
  fail_if (not (has_prefix repository (prefix ++ lit "/")) || str_eq repository prefix)
      escapes_prefix
  ok repository

unfoldable pub canonical_repository_for_id : FormulaId → Result OciError Bytes
canonical_repository_for_id id = do
  repository ← repository_path_for_id id
  ok (ghcr_registry ++ b'/' ∷ repository)

unfoldable pub default_github_repository : Tap → Result OciError Bytes
default_github_repository t = do
  validate_tap_identity t
  ok (lit "https://github.com/" ++ t.owner ++ lit "/homebrew-" ++ t.name)

unfoldable pub homebrew_ghcr_root_url : Tap → Result OciError Bytes
homebrew_ghcr_root_url t = do
  validate_tap_identity t
  ok (lit "https://" ++ ghcr_registry ++ lit "/v2/" ++ t.owner ++ b'/' ∷ t.name)

abbrev source_byte : ℕ → Bool
source_byte c =
    leb b'a' c && leb c b'z'
    || leb b'A' c && leb c b'Z'
    || digit c
    || contains_byte (lit "/@+._-") c

unfoldable pub validate_source_commit : Bytes → Result OciError Unit
validate_source_commit commit = do
  fail_if (not (length commit == 40)) invalid_commit
  fail_if (not (all (λ c. digit c || leb b'a' c && leb c b'f') commit)) invalid_commit

unfoldable pub validate_formula_source_path : Bytes → Bytes → Result OciError Unit
validate_formula_source_path value formula_name = do
  fail_if
      (str_eq value []
        || ltb 1024 (length value)
        || has_prefix value (lit "/")
        || contains_byte value b'\\')
      invalid_source_path
  fail_if
      (not (str_eq (path_clean value) value)
        || str_eq value (lit ".")
        || has_prefix value (lit "../"))
      invalid_source_path
  fail_if (not (str_eq (path_base value) (formula_name ++ lit ".rb"))) invalid_source_path
  fail_if (not (all source_byte value)) invalid_source_path

-- AuthenticatedFormulaIdentity.validate
unfoldable pub validate_identity : AuthenticatedIdentity → Result OciError Unit
validate_identity i = do
  validate_id i.id
  fail_if (not (str_eq i.homebrew_full_name (id_string i.id))) name_mismatch
  repository_path_for_id i.id
  expected ← default_github_repository i.id.tap
  fail_if (not (str_eq i.source_repository expected)) repository_mismatch
  validate_source_commit i.source_commit
  validate_formula_source_path i.formula_path i.id.name

-- NewAuthenticatedFormulaIdentity
unfoldable pub new_identity :
    FormulaId → Bytes → Bytes → Bytes → Bytes → Result OciError AuthenticatedIdentity
new_identity id full_name repository commit path =
    let identity : AuthenticatedIdentity = record {
      id = id;
      homebrew_full_name = full_name;
      source_repository = repository;
      source_commit = commit;
      formula_path = path;
    } in
    validate_identity identity >>= λ _. ok identity

-- SourceURL
unfoldable pub source_url : AuthenticatedIdentity → Bytes
source_url i =
    if str_eq i.source_repository [] || str_eq i.source_commit [] || str_eq i.formula_path []
    then []
    else i.source_repository ++ lit "/blob/" ++ i.source_commit ++ b'/' ∷ i.formula_path

module _ (u : Unicode) (hostname_of : Bytes → Option Bytes) where
  -- strings.TrimSuffix(strings.ToLower(host), ".") == "ghcr.io"
  is_ghcr : Bytes → Bool
  is_ghcr host =
      let lower = map u.to_lower (runes host) in
      str_eq lower ghcr_registry || str_eq lower (ghcr_registry ++ lit ".")

  -- MatchHomebrewGHCRRoot. `hostname_of` is net/url: the Hostname() of a URL that parses.
  unfoldable pub match_homebrew_ghcr_root : Bytes → Tap → Result OciError Bool
  unfolding is_ghcr
  match_homebrew_ghcr_root root_url t = do
    expected ← homebrew_ghcr_root_url t
    elim (hostname_of root_url) [
      | none ↦ err invalid_root_url
      | some host ↦
          if not (is_ghcr host)
          then ok false
          else if not (str_eq root_url expected)
          then err root_mismatch
          else ok true
    ]
