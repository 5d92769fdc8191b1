-- ===== src/Oci/Repository.antt =====
-- The repositories that identity.go and reference.go derive from a Formula's identity.
use dalec_homebrew.Prelude.{
  ℕ, ◌≡◌, refl, sym, ap, ◌∙◌, ◌↔◌, true, false, [], ◌∷◌, ◌++◌, map, ok, arith, if◌then◌else◌, ◌==◌,
  append_assoc, Result-cases, inl, inr, bind-eq-ok,
}
use mathlib.Core.Path.{ap₂}
use dalec_homebrew.GoString.Pieces.{cut-append}
use dalec_homebrew.GoString.{Bytes, str_eq, str_eq_iff, cut, count}
use dalec_homebrew.FormulaId.{Tap, FormulaId, tap_eq, parse, parse_tap, id_string, tap_string}
use dalec_homebrew.FormulaId.Valid.{IsFormulaId, IsTap}
use dalec_homebrew.FormulaId.Parse.{
  parse_iff, parse_tap_iff, id_string-IsFormulaId, tap_string-IsTap, IsOwner-count, IsTapName-count,
  IsFormulaName-count,
}
use dalec_homebrew.FormulaId.Roots.{id_eq_iff}
use dalec_homebrew.PkgName.{escape_name}
use dalec_homebrew.Oci.Names.{escape_formula_name}
use dalec_homebrew.Oci.Identity.{validate_id, validate_tap_identity, repository_path_for_id}

str_eq-nil : (c : ℕ) (s t : Bytes) → str_eq (s ++ c ∷ t) [] ≡ false
unfolding str_eq
str_eq-nil c [] t = refl
str_eq-nil c (d ∷ s) t = refl

id_string-ne-nil : {id : FormulaId} → IsFormulaId id → str_eq (id_string id) [] ≡ false
id_string-ne-nil {id} v = rw (id_string-IsFormulaId v) (str_eq-nil b'/' id.tap.owner _)

tap_string-ne-nil : {t : Tap} → IsTap t → str_eq (tap_string t) [] ≡ false
tap_string-ne-nil {t} v = rw (tap_string-IsTap v) (str_eq-nil b'/' t.owner _)

-- `validateFormulaID` accepts exactly the canonical identities.
pub validate_id_iff : (id : FormulaId) → (validate_id id ≡ ok tt) ↔ IsFormulaId id
unfolding validate_id
validate_id_iff id = (
  λ h. elim (Result-cases (parse (id_string id))) [
    | inl (p, e) ↦ ground (arith, (parse_iff (id_string id) p).0 e, id_eq_iff p id)
    | inr (r, e) ↦ absurd (ground arith)
  ],
  λ v.
      ground
        (arith, (parse_iff (id_string id) id).1 (v, inl refl), id_string-ne-nil v, id_eq_iff id id),
)

tap_eq_iff : (s t : Tap) → (tap_eq s t ≡ true) ↔ (s ≡ t)
unfolding tap_eq
tap_eq_iff s t = ground (arith, str_eq_iff s.owner t.owner, str_eq_iff s.name t.name)

-- `validateTap` of identity.go accepts exactly the canonical taps.
pub validate_tap_identity_iff : (t : Tap) → (validate_tap_identity t ≡ ok tt) ↔ IsTap t
unfolding validate_tap_identity
validate_tap_identity_iff t = (
  λ h. elim (Result-cases (parse_tap (tap_string t))) [
    | inl (p, e) ↦ ground (arith, (parse_tap_iff (tap_string t) p).0 e, tap_eq_iff p t)
    | inr (r, e) ↦ absurd (ground arith)
  ],
  λ v.
      ground
        (arith, (parse_tap_iff (tap_string t) t).1 (v, refl), tap_string-ne-nil v, tap_eq_iff t t),
)

escape_formula_name-eq-ok : (n e : Bytes) → escape_formula_name n ≡ ok e → e ≡ escape_name n
unfolding escape_formula_name
escape_formula_name-eq-ok n e h = ground arith

-- What a derived repository is: the tap, then the escaped name.
abbrev RepositoryOf : FormulaId → Bytes
RepositoryOf id = id.tap.owner ++ (b'/' ∷ (id.tap.name ++ b'/' ∷ escape_name id.name))

pub repository_path_for_id-eq-ok :
    (id : FormulaId) (r : Bytes)
    → repository_path_for_id id ≡ ok r
    → IsFormulaId id × (r ≡ RepositoryOf id)
unfolding repository_path_for_id
repository_path_for_id-eq-ok id r h =
    let (_, a, h1) = bind-eq-ok (validate_id id) _ h in
    let (e, b, h2) = bind-eq-ok (escape_formula_name id.name) _ h1 in
    let joined : r ≡ (id.tap.owner ++ b'/' ∷ id.tap.name) ++ b'/' ∷ e = ground arith in
    (
      (validate_id_iff id).0 a,
      joined
          ∙ ap (λ x. (id.tap.owner ++ b'/' ∷ id.tap.name) ++ b'/' ∷ x)
              (escape_formula_name-eq-ok id.name e b)
          ∙ append_assoc id.tap.owner (b'/' ∷ id.tap.name) (b'/' ∷ escape_name id.name),
    )

-- The name with each plus sign written as an x.
abbrev pub plus_as_x : Bytes → Bytes
plus_as_x = map (λ c. if c == b'+' then b'x' else c)

escape_name-plus_as_x :
    (m n : Bytes)
    → count b'/' m ≡ 0
    → count b'/' n ≡ 0
    → escape_name m ≡ escape_name n
    → plus_as_x m ≡ plus_as_x n
unfolding escape_name count
escape_name-plus_as_x [] [] h k e = refl
escape_name-plus_as_x [] (d ∷ n) h k e = absurd (ground arith)
escape_name-plus_as_x (c ∷ m) [] h k e = absurd (ground arith)
escape_name-plus_as_x (c ∷ m) (d ∷ n) h k e = ground (arith, escape_name-plus_as_x m n)

plus_as_x-escape_name : (m n : Bytes) → plus_as_x m ≡ plus_as_x n → escape_name m ≡ escape_name n
unfolding escape_name
plus_as_x-escape_name [] [] e = refl
plus_as_x-escape_name [] (d ∷ n) e = absurd (ground arith)
plus_as_x-escape_name (c ∷ m) [] e = absurd (ground arith)
plus_as_x-escape_name (c ∷ m) (d ∷ n) e = ground (arith, plus_as_x-escape_name m n)

cut-RepositoryOf :
    {id : FormulaId}
    → IsFormulaId id
    → (cut b'/' (RepositoryOf id) ≡ (id.tap.owner, id.tap.name ++ b'/' ∷ escape_name id.name))
      × (cut b'/' (id.tap.name ++ b'/' ∷ escape_name id.name) ≡ (id.tap.name, escape_name id.name))
cut-RepositoryOf {id} v = (
  cut-append b'/' id.tap.owner _ (IsOwner-count v.tap.owner),
  cut-append b'/' id.tap.name _ (IsTapName-count v.tap.name),
)

RepositoryOf-parts :
    {a b : FormulaId}
    → IsFormulaId a
    → IsFormulaId b
    → RepositoryOf a ≡ RepositoryOf b
    → (a.tap ≡ b.tap) × (escape_name a.name ≡ escape_name b.name)
RepositoryOf-parts {a} {b} v w e =
    let (p, q) = cut-RepositoryOf v in
    let (r, s) = cut-RepositoryOf w in
    let rest : cut b'/' (RepositoryOf a) ≡ cut b'/' (RepositoryOf b) = ap (cut b'/') e in
    ground arith

-- Two identities that both have a repository share it exactly when they share the tap, and their
-- names differ at most by an x where the other has a plus sign.
pub repository_path_for_id-shared :
    (a b : FormulaId) (r s : Bytes)
    → repository_path_for_id a ≡ ok r
    → repository_path_for_id b ≡ ok s
    → (r ≡ s) ↔ ((a.tap ≡ b.tap) × (plus_as_x a.name ≡ plus_as_x b.name))
repository_path_for_id-shared a b r s h k =
    let (v, p) = repository_path_for_id-eq-ok a r h in
    let (w, q) = repository_path_for_id-eq-ok b s k in
    (
      λ e.
          let (t, n) = RepositoryOf-parts v w (sym p ∙ e ∙ q) in
          (
            t,
            escape_name-plus_as_x a.name b.name (IsFormulaName-count v.name)
                (IsFormulaName-count w.name) n,
          ),
      λ (t, n).
          p
          ∙ ap₂ (λ (x : Tap) y. x.owner ++ (b'/' ∷ (x.name ++ b'/' ∷ y))) t
              (plus_as_x-escape_name a.name b.name n)
          ∙ sym q,
    )
