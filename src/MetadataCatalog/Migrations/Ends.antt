-- ===== src/MetadataCatalog/Migrations/Ends.antt =====
-- resolveMigration ends: each call but the last puts a migration on the stack.
use dalec_homebrew.Prelude.{
  ℕ, zero, suc, ◌+◌, ◌≤◌, ◌<◌, ◌≡◌, refl, true, false, List, [], ◌∷◌, none, some, if◌then◌else◌,
  Result, ok, err, ◌>>=◌, inl, inr, arith, Bool-cases, Option-cases, Result-cases, length,
}
use mathlib.Core.Path.{subst}
use dalec_homebrew.GoString.{Bytes, str_eq, str_eq_iff, contains_byte}
use dalec_homebrew.GoMap.{Map, lookup, put, has, has-put, has-put_self}
use dalec_homebrew.MetadataCatalog.{
  CatalogError, walk_out_of_fuel, Migration, MigrationResolution, Catalog,
}
use dalec_homebrew.MetadataCatalog.Migrations.{direct_resolution, resolve_migration, resolve_all}

-- An error that the code returns.
abbrev pub IsFault : CatalogError → Type 0
IsFault walk_out_of_fuel = ⊥
IsFault _ = Unit

-- A result that the code returns.
abbrev pub IsReturned : {A : Type 0} → Result CatalogError A → Type 0
IsReturned (ok a) = Unit
IsReturned (err e) = IsFault e

pub IsReturned-bind :
    {A B : Type 0} (m : Result CatalogError A) (k : A → Result CatalogError B)
    → IsReturned m
    → ((a : A) → m ≡ ok a → IsReturned (k a))
    → IsReturned (m >>= k)
IsReturned-bind (ok a) k h f = f a refl
IsReturned-bind (err e) k h f = h

-- The number of migrations that are not on the stack.
abbrev pub waiting : Map Unit → Map Migration → ℕ
waiting active [] = 0
waiting active ((name, m) ∷ rest) = (if has name active then 0 else 1) + waiting active rest

waiting_none : (migrations : Map Migration) → waiting [] migrations ≤ length migrations
unfolding lookup
waiting_none [] = omega arith
waiting_none ((name, m) ∷ rest) = omega (arith, waiting_none rest)

summand :
    (name k : Bytes) (active : Map Unit)
    → (if has name (put k tt active) then 0 else 1) ≤ (if has name active then 0 else 1)
summand name k active = elim (Bool-cases (has name active)) [
  | inl e ↦ let later = has-put name k tt active e in rw (later, e) (omega arith)
  | inr e ↦ elim (Bool-cases (has name (put k tt active))) [
    | inl q ↦ rw (q, e) (omega arith)
    | inr q ↦ rw (q, e) (omega arith)
  ]
]

waiting-put :
    (k : Bytes) (active : Map Unit) (migrations : Map Migration)
    → waiting (put k tt active) migrations ≤ waiting active migrations
waiting-put k active [] = omega arith
waiting-put k active ((name, m) ∷ rest) =
    omega (arith, summand name k active, waiting-put k active rest)

waiting-less :
    (k : Bytes) (active : Map Unit) (migrations : Map Migration) (m : Migration)
    → lookup k migrations ≡ some m
    → has k active ≡ false
    → waiting (put k tt active) migrations < waiting active migrations
unfolding lookup
waiting-less k active [] m e h = absurd (ground (arith, e))
waiting-less k active ((j, n) ∷ rest) m e h = elim (Bool-cases (str_eq j k)) [
  | inl q ↦
      let same : j ≡ k = (str_eq_iff j k).0 q in
      let new : has j (put k tt active) ≡ true = rw same (has-put_self k tt active) in
      let old : has j active ≡ false = rw same h in
      rw (new, old) (omega (arith, waiting-put k active rest))
  | inr q ↦ omega (arith, summand j k active, waiting-less k active rest m (ground (arith, e, q)) h)
]

direct_resolution-IsReturned : (c : Catalog) (m : Migration) → IsReturned (direct_resolution c m)
unfolding direct_resolution
direct_resolution-IsReturned c m = elim (Bool-cases m.in_core) [
  | inr e ↦ rw e tt
  | inl e ↦ elim (Option-cases (lookup m.target_name c.canonical)) [
    | inr (f, k) ↦ rw (e, k) tt
    | inl k ↦ elim (Bool-cases (contains_byte m.target_name b'@')) [
      | inl q ↦ rw (e, k, q) tt
      | inr q ↦ elim (Option-cases (lookup m.target_name c.aliases)) [
        | inr (a, r) ↦ rw (e, k, q, r) tt
        | inl r ↦ elim (Option-cases (lookup m.target_name c.old_names)) [
          | inr (a, s) ↦ rw (e, k, q, r, s) tt
          | inl s ↦ elim (Bool-cases (has m.target_name c.migrations)) [
            | inl t ↦ rw (e, k, q, r, s, t) tt
            | inr t ↦ rw (e, k, q, r, s, t) tt
          ]
        ]
      ]
    ]
  ]
]

resolve_migration-IsReturned :
    (fuel : ℕ) (c : Catalog) (name : Bytes) (active : Map Unit) (resolved : Map MigrationResolution)
    → waiting active c.migrations < fuel
    → IsReturned (resolve_migration fuel c name active resolved)
unfolding resolve_migration
resolve_migration-IsReturned zero c name active resolved h = absurd (omega (arith, h))
resolve_migration-IsReturned (suc fuel) c name active resolved h =
    elim (Option-cases (lookup name resolved)) [
      | inr (r, e) ↦ rw (e, resolve_migration) tt
      | inl e ↦ elim (Bool-cases (has name active)) [
        | inl k ↦ rw (e, resolve_migration, k) tt
        | inr k ↦ elim (Option-cases (lookup name c.migrations)) [
          | inl q ↦ rw (e, resolve_migration, k, q) tt
          | inr (m, q) ↦ elim (Result-cases (direct_resolution c m)) [
            | inr (x, d) ↦
                rw (e, resolve_migration, k, q, d)
                  (subst IsReturned d (direct_resolution-IsReturned c m))
            | inl (some r, d) ↦ rw (e, resolve_migration, k, q, d) tt
            | inl (none, d) ↦
                let less = waiting-less name active c.migrations m q k in
                rw (e, resolve_migration, k, q, d)
                  (IsReturned-bind
                    (resolve_migration fuel c m.target_name (put name tt active) resolved) _
                    (resolve_migration-IsReturned fuel c m.target_name (put name tt active) resolved
                      (omega (arith, less, h)))
                    (λ a x. tt))
          ]
        ]
      ]
    ]

pub resolve_all-IsReturned :
    (c : Catalog) (names : List Bytes) (resolved : Map MigrationResolution)
    → IsReturned (resolve_all (suc (length c.migrations)) c names resolved)
unfolding resolve_all
resolve_all-IsReturned c [] resolved = tt
resolve_all-IsReturned c (name ∷ names) resolved =
    IsReturned-bind (resolve_migration (suc (length c.migrations)) c name [] resolved) _
      (resolve_migration-IsReturned (suc (length c.migrations)) c name [] resolved
        (omega (arith, waiting_none c.migrations)))
      (λ a x. resolve_all-IsReturned c names a.0)
