-- ===== src/FormulaId/Parse.antt =====
-- `ParseTap` and `Parse` of formulaid.go accept exactly the canonical spellings.
use dalec_homebrew.Prelude.{
  ◌≤◌, ◌≡◌, refl, sym, ap, ◌∙◌, ◌↔◌, ◌⊎◌, inl, inr, [], ◌∷◌, ◌++◌, ok, length, length-append, arith,
  Bool-cases, Result-cases, ltb, ◌==◌, append_assoc, false, map_err-eq-ok,
}
use dalec_homebrew.GoString.{Bytes, count, split, str_eq, cut}
use dalec_homebrew.GoString.Pieces.{
  count-append, count-eq_zero, split_none, split-append, cut-append, count-Pieces,
}
use dalec_homebrew.FormulaId.{
  Tap, FormulaId, checked_tap, checked_id, id_of_parts, id_of_string, parse, tap_of_string,
  parse_tap, id_string, tap_string, core_tap, tap_eq, id_eq, max_formula_id_bytes, max_tap_id_bytes,
  invalid_tap, invalid_formula_id,
}
use dalec_homebrew.FormulaId.Valid.{IsOwner, IsTapName, IsFormulaName, IsTap, IsFormulaId}
use dalec_homebrew.FormulaId.Validate.{
  validate_owner_iff, validate_tap_name_iff, validate_formula_name_iff, validate_tap_iff,
}

checked_tap_iff :
    (o n : Bytes) (t : Tap)
    → (checked_tap o n ≡ ok t) ↔ ((t ≡ record { owner = o; name = n }) × IsTap t)
unfolding checked_tap
checked_tap_iff o n t = ground (arith, validate_owner_iff o, validate_tap_name_iff n)

checked_id_iff :
    (t : Tap) (n : Bytes) (id : FormulaId)
    → (checked_id t n ≡ ok id) ↔ ((id ≡ record { tap = t; name = n }) × IsFormulaId id)
unfolding checked_id
checked_id_iff t n id = ground (arith, validate_tap_iff t, validate_formula_name_iff n)

pub IsOwner-count : {s : Bytes} → IsOwner s → count b'/' s ≡ 0
IsOwner-count {s} v = count-eq_zero b'/' _ s (λ c p. ground arith) v.charset

pub IsTapName-count : {s : Bytes} → IsTapName s → count b'/' s ≡ 0
IsTapName-count {s} v = count-eq_zero b'/' _ s (λ c p. ground arith) v.charset

pub IsFormulaName-count : {s : Bytes} → IsFormulaName s → count b'/' s ≡ 0
IsFormulaName-count {s} v = count-eq_zero b'/' _ s (λ c p. ground arith) v.charset

ne-nil : (s : Bytes) → IsOwner s → str_eq s [] ≡ false
unfolding str_eq
ne-nil [] v = absurd v.first
ne-nil (c ∷ s) v = refl

pub tap_string-IsTap : {t : Tap} → IsTap t → tap_string t ≡ t.owner ++ b'/' ∷ t.name
unfolding tap_string tap_eq
tap_string-IsTap {t} v = ground (arith, ne-nil t.owner v.owner)

pub id_string-IsFormulaId :
    {id : FormulaId}
    → IsFormulaId id
    → id_string id ≡ id.tap.owner ++ (b'/' ∷ (id.tap.name ++ b'/' ∷ id.name))
unfolding id_string id_eq tap_eq
id_string-IsFormulaId {id} v =
    rw (ne-nil id.tap.owner v.tap.owner) (
      rw (tap_string-IsTap v.tap) (append_assoc id.tap.owner (b'/' ∷ id.tap.name) (b'/' ∷ id.name)))

-- The longest canonical identity is within the bound that `Parse` tests first.
length-id_string : {id : FormulaId} → IsFormulaId id → length (id_string id) ≤ max_formula_id_bytes
length-id_string {id} v = rw (id_string-IsFormulaId v) (
    omega (
      arith,
      length-append {0} id.tap.owner (b'/' ∷ (id.tap.name ++ b'/' ∷ id.name)),
      length-append {0} id.tap.name (b'/' ∷ id.name),
      v.tap.owner.short,
      v.tap.name.short,
      v.name.short,
    ))

count-id_string : {id : FormulaId} → IsFormulaId id → count b'/' (id_string id) ≡ 2
unfolding count
count-id_string {id} v = rw (id_string-IsFormulaId v) (
    omega (
      arith,
      count-append b'/' id.tap.owner (b'/' ∷ (id.tap.name ++ b'/' ∷ id.name)),
      count-append b'/' id.tap.name (b'/' ∷ id.name),
      IsOwner-count v.tap.owner,
      IsTapName-count v.tap.name,
      IsFormulaName-count v.name,
    ))

split-id_string :
    {id : FormulaId}
    → IsFormulaId id
    → split b'/' (id_string id) ≡ id.tap.owner ∷ id.tap.name ∷ id.name ∷ []
split-id_string {id} v = rw (id_string-IsFormulaId v) (
    split-append b'/' id.tap.owner _ (IsOwner-count v.tap.owner)
    ∙ ap (◌∷◌ id.tap.owner) (
        split-append b'/' id.tap.name _ (IsTapName-count v.tap.name)
        ∙ ap (◌∷◌ id.tap.name) (split_none b'/' id.name (IsFormulaName-count v.name))))

id_of_parts-IsFormulaId :
    {id : FormulaId}
    → IsFormulaId id
    → id_of_parts (id.tap.owner ∷ id.tap.name ∷ id.name ∷ []) ≡ ok id
unfolding id_of_parts
id_of_parts-IsFormulaId {id} v = ground (
  arith,
  (checked_tap_iff id.tap.owner id.tap.name id.tap).1 (refl, v.tap),
  (checked_id_iff id.tap id.name id).1 (refl, v),
)

-- Printing a canonical identity and parsing it again gives the same identity.
pub parse-id_string : (id : FormulaId) → IsFormulaId id → parse (id_string id) ≡ ok id
unfolding parse id_of_string
parse-id_string id v =
    ground
      (arith, length-id_string v, count-id_string v, split-id_string v, id_of_parts-IsFormulaId v)

-- A bare name is read in homebrew/core.
parse-bare : (id : FormulaId) → IsFormulaId id → id.tap ≡ core_tap → parse id.name ≡ ok id
unfolding parse id_of_string
parse-bare id v e = ground (
  arith,
  v.name.short,
  IsFormulaName-count v.name,
  (checked_id_iff id.tap id.name id).1 (refl, v),
)

-- The spellings that name an identity.
abbrev pub Names : Bytes → FormulaId → Type 0
Names s id = IsFormulaId id × ((s ≡ id_string id) ⊎ (id.tap ≡ core_tap) × (s ≡ id.name))

pub split_two :
    (s : Bytes)
    → count b'/' s ≡ 2
    → (a : Bytes) × (b : Bytes) × (c : Bytes) × (split b'/' s ≡ a ∷ b ∷ c ∷ [])
      × (s ≡ a ++ b'/' ∷ (b ++ b'/' ∷ c))
split_two s h =
    let p = count-Pieces b'/' 1 s h in
    let q = count-Pieces b'/' 0 p.after p.rest_after in
    (
      p.before,
      q.before,
      q.after,
      rw p.joined (
          split-append b'/' p.before p.after p.none_before
          ∙ ap (◌∷◌ p.before) (
              rw q.joined (
                split-append b'/' q.before q.after q.none_before
                ∙ ap (◌∷◌ q.before) (split_none b'/' q.after q.rest_after)))),
      p.joined ∙ ap (λ t. p.before ++ b'/' ∷ t) q.joined,
    )

id_of_parts-eq-ok :
    (a b c : Bytes) (id : FormulaId)
    → id_of_parts (a ∷ b ∷ c ∷ []) ≡ ok id
    → (id ≡ record { tap = record { owner = a; name = b }; name = c }) × IsFormulaId id
unfolding id_of_parts
id_of_parts-eq-ok a b c id h = elim (Result-cases (checked_tap a b)) [
  | inl (t, e) ↦ ground (arith, (checked_tap_iff a b t).0 e, checked_id_iff t c id)
  | inr (r, e) ↦ ground arith
]

id_of_string-Names : (s : Bytes) (id : FormulaId) → id_of_string s ≡ ok id → Names s id
unfolding id_of_string
id_of_string-Names s id h = elim (Bool-cases (ltb max_formula_id_bytes (length s))) [
  | inl long ↦ absurd (ground arith)
  | inr short ↦ elim (Bool-cases (count b'/' s == 0)) [
    | inl bare ↦ ground (arith, checked_id_iff core_tap s id)
    | inr not_bare ↦ elim (Bool-cases (count b'/' s == 2)) [
      | inl full ↦
          let (a, b, c, e, j) = split_two s (ground arith) in
          let (i, v) = id_of_parts-eq-ok a b c id (ground (arith, h, e)) in
          (
            v,
            inl (
                j
                ∙ sym (
                    id_string-IsFormulaId v
                    ∙ ap (λ (x : FormulaId). x.tap.owner ++ (b'/' ∷ (x.tap.name ++ b'/' ∷ x.name)))
                        i)),
          )
      | inr other ↦ absurd (ground arith)
    ]
  ]
]

-- `Parse` succeeds exactly on the spellings of a canonical identity.
pub parse_iff : (s : Bytes) (id : FormulaId) → (parse s ≡ ok id) ↔ Names s id
unfolding parse
parse_iff s id = (
  λ h. id_of_string-Names s id (map_err-eq-ok invalid_formula_id (id_of_string s) h),
  λ (v, spelled). elim spelled [
    | inl full ↦ rw full (parse-id_string id v)
    | inr (core, bare) ↦ rw bare (parse-bare id v core)
  ],
)

-- The tests of `ParseTap` on the spelling of a canonical tap.
tap_string_facts :
    {t : Tap}
    → IsTap t
    → (length (tap_string t) ≤ max_tap_id_bytes)
      × (count b'/' (tap_string t) ≡ 1)
      × (cut b'/' (tap_string t) ≡ (t.owner, t.name))
unfolding count
tap_string_facts {t} v = rw (tap_string-IsTap v) (
  omega (arith, length-append {0} t.owner (b'/' ∷ t.name), v.owner.short, v.name.short),
  omega (
    arith,
    count-append b'/' t.owner (b'/' ∷ t.name),
    IsOwner-count v.owner,
    IsTapName-count v.name,
  ),
  cut-append b'/' t.owner t.name (IsOwner-count v.owner),
)

-- `ParseTap` succeeds exactly on `owner/tap` for a canonical tap.
pub parse_tap_iff : (s : Bytes) (t : Tap) → (parse_tap s ≡ ok t) ↔ (IsTap t × (s ≡ tap_string t))
unfolding parse_tap tap_of_string
parse_tap_iff s t =
    (λ h. back (map_err-eq-ok invalid_tap (tap_of_string s) h), λ (v, e). rw e (forth v))
  where
    forth : IsTap t → parse_tap (tap_string t) ≡ ok t
    forth v =
        let (a, b, c) = tap_string_facts v in
        ground (arith, a, b, c, checked_tap_iff t.owner t.name t)

    back : tap_of_string s ≡ ok t → IsTap t × (s ≡ tap_string t)
    back h =
        let one : count b'/' s ≡ 1 = ground arith in
        let p = count-Pieces b'/' 0 s one in
        let c : cut b'/' s ≡ (p.before, p.after) =
          rw p.joined (cut-append b'/' p.before p.after p.none_before) in
        let (e, v) = (checked_tap_iff p.before p.after t).0 (ground arith) in
        (v, p.joined ∙ sym (tap_string-IsTap v ∙ ap (λ (x : Tap). x.owner ++ b'/' ∷ x.name) e))
