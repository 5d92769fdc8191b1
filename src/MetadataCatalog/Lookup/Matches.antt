-- ===== src/MetadataCatalog/Lookup/Matches.antt =====
-- What Lookup returns from a built index.
use dalec_homebrew.Prelude.{
  false, not, List, [], none, some, ok, ◌≡◌, ◌≢◌, ◌⊎◌, ◌∙◌, refl, inl, inr, arith, Bool-cases,
  Option-cases,
}
use mathlib.Core.Path.{subst}
use dalec_homebrew.GoString.{Bytes, str_eq, contains_byte}
use dalec_homebrew.GoMap.{lookup, get_or}
use dalec_homebrew.Metadata.{
  Formula, Match, MatchKind, match_canonical, match_alias, match_old_name, match_migration,
}
use dalec_homebrew.MetadataCatalog.{Catalog, Migration, zero_resolution, is_simple_name}
use dalec_homebrew.MetadataCatalog.Build.{build_catalog}
use dalec_homebrew.MetadataCatalog.Build.Named.{IsNamed, build_catalog-IsNamed}
use dalec_homebrew.MetadataCatalog.Lookup.{
  match_formula, match_name, lookup_migration, lookup_moved, lookup_name,
}

-- A match of `requested`: an enabled Formula with a bottle that the index has under its own name.
abbrev pub IsMatch : Catalog → Bytes → Match → Type 0
IsMatch c requested m =
    (lookup m.canonical c.canonical ≡ some m.formula)
    × (m.formula.name ≡ m.canonical)
    × (m.formula.disabled ≡ false)
    × (m.formula.bottle ≢ none)
    × (m.requested ≡ requested)

-- The request names the Formula itself, or has no version.
abbrev pub IsExplicit : Bytes → Match → Type 0
IsExplicit requested m =
    ((m.kind ≡ match_canonical) × (m.canonical ≡ requested))
    ⊎ (contains_byte requested b'@' ≡ false)

match_name-IsMatch :
    (c : Catalog) (requested canonical : Bytes) (kind : MatchKind) (m : Match)
    → IsNamed c.canonical
    → match_name c requested canonical kind ≡ ok m
    → IsMatch c requested m × (m.kind ≡ kind) × (m.canonical ≡ canonical)
unfolding match_name match_formula
match_name-IsMatch c requested canonical kind m named h =
    elim (Option-cases (lookup canonical c.canonical)) [
      | inl e ↦ absurd (ground (arith, h, e))
      | inr (f, e) ↦ elim (Bool-cases f.disabled) [
        | inl d ↦ absurd (ground (arith, h, e, d))
        | inr d ↦ elim (Option-cases f.bottle) [
          | inl b ↦ absurd (ground (arith, h, e, d, b))
          | inr (bottle, b) ↦
              let made : record {
                requested = requested;
                canonical = canonical;
                kind = kind;
                formula = f;
              }
                  ≡ m =
                ground (arith, h, e, d, b) in
              subst (λ x. IsMatch c requested x × (x.kind ≡ kind) × (x.canonical ≡ canonical)) made
                (
                  (e, named canonical f e, d, (λ n. absurd (ground (arith, n, b))), refl),
                  refl,
                  refl,
                )
        ]
      ]
    ]

lookup_migration-IsMatch :
    (c : Catalog) (name : Bytes) (m : Match)
    → IsNamed c.canonical
    → lookup_migration c name ≡ ok m
    → IsMatch c name m
unfolding lookup_migration
lookup_migration-IsMatch c name m named h = elim (Option-cases (lookup name c.migrations)) [
  | inl e ↦ absurd (ground (arith, h, e))
  | inr (g, e) ↦
      let resolved = get_or zero_resolution name c.resolved_migrations in
      elim (Bool-cases (not (str_eq resolved.external_target []))) [
        | inl k ↦ absurd (ground (arith, h, e, k))
        | inr k ↦
            (match_name-IsMatch c name resolved.canonical match_migration m named
              (ground (arith, h, e, k))).0
      ]
]

lookup_moved-IsMatch :
    (c : Catalog) (name : Bytes) (m : Match)
    → IsNamed c.canonical
    → lookup_moved c name ≡ ok m
    → IsMatch c name m
unfolding lookup_moved
lookup_moved-IsMatch c name m named h = elim (Option-cases (lookup name c.aliases)) [
  | inr (canonical, e) ↦
      (match_name-IsMatch c name canonical match_alias m named (ground (arith, h, e))).0
  | inl e ↦ elim (Option-cases (lookup name c.old_names)) [
    | inr (canonical, k) ↦
        (match_name-IsMatch c name canonical match_old_name m named (ground (arith, h, e, k))).0
    | inl k ↦ lookup_migration-IsMatch c name m named (ground (arith, h, e, k))
  ]
]

-- A name with a Formula is matched as that Formula or not at all.
pub lookup_name-canonical :
    (c : Catalog) (name : Bytes) (f : Formula) (m : Match)
    → IsNamed c.canonical
    → lookup name c.canonical ≡ some f
    → lookup_name c name ≡ ok m
    → IsMatch c name m × (m.kind ≡ match_canonical) × (m.canonical ≡ name)
unfolding lookup_name
lookup_name-canonical c name f m named e h = elim (Bool-cases (not (is_simple_name name))) [
  | inl k ↦ absurd (ground (arith, h, k))
  | inr k ↦
      let (found, kind, same) =
        match_name-IsMatch c name f.name match_canonical m named (ground (arith, h, k, e)) in
      (found, kind, same ∙ named name f e)
]

pub lookup_name-IsExplicit :
    (c : Catalog) (name : Bytes) (m : Match)
    → IsNamed c.canonical
    → lookup_name c name ≡ ok m
    → IsMatch c name m × IsExplicit name m
unfolding lookup_name
lookup_name-IsExplicit c name m named h = elim (Option-cases (lookup name c.canonical)) [
  | inr (f, e) ↦
      let (found, kind, same) = lookup_name-canonical c name f m named e h in
      (found, inl (kind, same))
  | inl e ↦ elim (Bool-cases (not (is_simple_name name))) [
    | inl k ↦ absurd (ground (arith, h, k))
    | inr k ↦ elim (Bool-cases (contains_byte name b'@')) [
      | inl v ↦ absurd (ground (arith, h, e, k, v))
      | inr v ↦ (lookup_moved-IsMatch c name m named (ground (arith, h, e, k, v)), inr v)
    ]
  ]
]

-- A match that `Lookup` returns from a built index names an enabled Formula with a bottle that the
-- index has under its own name, and a request with an at sign matches only the Formula of that name.
pub lookup_name-IsMatch :
    (fs : List Formula) (ms : List Migration) (c : Catalog) (name : Bytes) (m : Match)
    → build_catalog fs ms ≡ ok c
    → lookup_name c name ≡ ok m
    → IsMatch c name m × IsExplicit name m
lookup_name-IsMatch fs ms c name m built h =
    lookup_name-IsExplicit c name m (build_catalog-IsNamed fs ms c built) h
