-- ===== src/Resolver/Closure/Safely.antt =====
-- Properties of what the parts of the resolver's walk return over an index.
use dalec_homebrew.Prelude.{
  ◌≡◌, inl, inr, refl, ap, ◌∙◌, List, [], ◌∷◌, ◌++◌, Result, ok, err, arith, true, false, some,
  Bool-cases, if◌then◌else◌, ◌>>=◌, fail_if, map_err, Bool,
}
use mathlib.Core.Path.{subst}
use dalec_homebrew.GoString.{Bytes, str_eq, str_eq_iff}
use dalec_homebrew.GoMap.{Map, lookup, put, has, lookup-put}
use dalec_homebrew.Metadata.{Formula}
use dalec_homebrew.MetadataCatalog.{Catalog}
use dalec_homebrew.MetadataCatalog.Build.{is_linux_tag}
use dalec_homebrew.MetadataCatalog.Build.Closed.{AllPresent}
use dalec_homebrew.MetadataCatalog.Lookup.{LookupError, lookup_name}
use dalec_homebrew.Oci.Reference
use dalec_homebrew.Resolver.Types.{
  Platform, Sources, Search, Selected, ResolveError, not_canonical, out_of_fuel,
}
use dalec_homebrew.Resolver.Closure.{target_tag}

-- An error other than that a dependency is not canonical or the fuel was not enough.
abbrev pub IsOther : {E : Type 0} → ResolveError E → Type 0
IsOther not_canonical = ⊥
IsOther out_of_fuel = ⊥
IsOther _ = Unit

-- A value with the property, or another error.
abbrev pub Safely : {E A : Type 0} → (A → Type 0) → Result (ResolveError E) A → Type 0
Safely P (ok a) = P a
Safely P (err e) = IsOther e

pub Safely-bind :
    {E A B : Type 0} (P : A → Type 0) (Q : B → Type 0) (m : Result (ResolveError E) A)
    (k : A → Result (ResolveError E) B)
    → Safely P m
    → ((a : A) → P a → Safely Q (k a))
    → Safely Q (m >>= k)
Safely-bind P Q (ok a) k h f = f a h
Safely-bind P Q (err e) k h f = h

pub map_err-Safely :
    {E F A : Type 0} (g : F → ResolveError E) (m : Result F A)
    → ((e : F) → IsOther (g e))
    → Safely (λ a. Unit) (map_err g m)
map_err-Safely g (ok a) h = tt
map_err-Safely g (err e) h = h e

pub fail_if-Safely :
    {E : Type 0} (bad : Bool) (e : ResolveError E) → IsOther e → Safely (λ a. Unit) (fail_if bad e)
fail_if-Safely true e h = h
fail_if-Safely false e h = tt

-- What the walk knows: queued names are in the index, and the matches are the index's Formulae.
abbrev pub IsIndexed : Catalog → Search → Type 0
IsIndexed c w =
    AllPresent c.canonical w.queue
    × ((name : Bytes) (f : Formula)
        → lookup name w.matches ≡ some f
        → lookup name c.canonical ≡ some f)

-- The index as the resolver's catalog.
abbrev pub index_sources :
    {E : Type 0}
    → Catalog
    → (LookupError → E)
    → (Reference.Formula → Platform → Result E Selected)
    → Sources E
index_sources c embed select = record {
  find = λ name. map_err embed (lookup_name c name);
  select = select;
}

AllPresent-append :
    (canonical : Map Formula) (xs ys : List Bytes)
    → AllPresent canonical xs
    → AllPresent canonical ys
    → AllPresent canonical (xs ++ ys)
AllPresent-append canonical [] ys h k = k
AllPresent-append canonical (x ∷ xs) ys h k = (h.0, AllPresent-append canonical xs ys h.1 k)

pub target_tag-is_linux_tag : (p : Platform) → is_linux_tag (target_tag p) ≡ true
unfolding target_tag str_eq
target_tag-is_linux_tag p = ground arith

-- A write of the index's Formula keeps the matches.
pub put-indexed :
    (c : Catalog) (name : Bytes) (f : Formula) (matches : Map Formula)
    → lookup name c.canonical ≡ some f
    → ((n : Bytes) (g : Formula) → lookup n matches ≡ some g → lookup n c.canonical ≡ some g)
    → (n : Bytes) (g : Formula) → lookup n (put name f matches) ≡ some g
    → lookup n c.canonical ≡ some g
put-indexed c name f matches e a n g k = elim (Bool-cases (str_eq name n)) [
  | inl same ↦
      let equal : f ≡ g = ground (arith, k, lookup-put n name f matches, same) in
      subst (λ x. lookup x c.canonical ≡ some g) ((str_eq_iff name n).0 same) (e ∙ ap some equal)
  | inr differs ↦ a n g (ground (arith, k, lookup-put n name f matches, differs))
]

-- The queue with a name of the index behind it, unless a test says otherwise.
pub pushed-AllPresent :
    (c : Catalog) (name : Bytes) (f : Formula) (queue : List Bytes) (known : Bool)
    → lookup name c.canonical ≡ some f
    → AllPresent c.canonical queue
    → AllPresent c.canonical (if known then queue else queue ++ name ∷ [])
pushed-AllPresent c name f queue true e a = a
pushed-AllPresent c name f queue false e a =
    AllPresent-append c.canonical queue (name ∷ []) a (rw (has, e) refl, tt)

-- A value with the property, or an error other than that a dependency is not canonical.
abbrev pub Weakly : {E A : Type 0} → (A → Type 0) → Result (ResolveError E) A → Type 0
Weakly P (ok a) = P a
Weakly P (err not_canonical) = ⊥
Weakly P (err _) = Unit

pub Safely-Weakly :
    {E A : Type 0} (P : A → Type 0) (m : Result (ResolveError E) A) → Safely P m → Weakly P m
Safely-Weakly P (ok a) h = h
Safely-Weakly P (err not_canonical) h = h
Safely-Weakly P (err _) h = tt
