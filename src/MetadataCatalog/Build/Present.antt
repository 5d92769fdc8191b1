-- ===== src/MetadataCatalog/Build/Present.antt =====
-- While the index is built, its canonical names are names with a Formula.
use dalec_homebrew.Prelude.{
  ◌≡◌, inl, inr, true, List, [], ◌∷◌, ◌++◌, ok, ◌>>=◌, In, All, arith, Bool-cases, Option-cases,
  bind-eq-ok, map,
}
use mathlib.Core.Path.{subst}
use Prim.Native.Nat.{Ordering}
use dalec_homebrew.GoString.{Bytes, str_eq, str_eq_iff}
use dalec_homebrew.GoMap.{Map, lookup, put, has, has-put, has-put_self}
use dalec_homebrew.Version.{str_compare}
use dalec_homebrew.Metadata.{Formula}
use dalec_homebrew.Resolver.Settle.{insert_name, sorted_names}
use dalec_homebrew.MetadataCatalog.{Catalog}
use dalec_homebrew.MetadataCatalog.Build.{
  Claimed, add_canonical, canonicalize_formula, canonicalize_dependencies,
}
use dalec_homebrew.MetadataCatalog.Build.Closed.{AllPresent}

pub insert_name-All :
    (P : Bytes → Type 0) (n : Bytes) (ns : List Bytes) → P n → All P ns → All P (insert_name n ns)
unfolding insert_name
insert_name-All P n [] h a = (h, tt)
insert_name-All P n (m ∷ ns) h a =
    elim (str_compare n m)
      as (λ o. All P (elim o [ Ordering.gt ↦ m ∷ insert_name n ns | _ ↦ n ∷ m ∷ ns ])) [
        | Ordering.gt ↦ (a.0, insert_name-All P n ns h a.1)
        | Ordering.lt ↦ (h, a)
        | Ordering.eq ↦ (h, a)
      ]

pub sorted_names-All : (P : Bytes → Type 0) (ns : List Bytes) → All P ns → All P (sorted_names ns)
unfolding sorted_names
sorted_names-All P [] a = tt
sorted_names-All P (n ∷ ns) a =
    insert_name-All P n (sorted_names ns) a.0 (sorted_names-All P ns a.1)

All-append : (P : Bytes → Type 0) (xs ys : List Bytes) → All P xs → All P ys → All P (xs ++ ys)
All-append P [] ys h k = k
All-append P (x ∷ xs) ys h k = (h.0, All-append P xs ys h.1 k)

All-mono :
    (P Q : Bytes → Type 0) (xs : List Bytes) → ((a : Bytes) → P a → Q a) → All P xs → All Q xs
All-mono P Q [] f h = tt
All-mono P Q (x ∷ xs) f h = (f x h.0, All-mono P Q xs f h.1)

put-AllPresent :
    (name : Bytes) (f : Formula) (canonical : Map Formula) (names : List Bytes)
    → AllPresent canonical names
    → AllPresent (put name f canonical) names
put-AllPresent name f canonical names a =
    All-mono (λ d. has d canonical ≡ true) (λ d. has d (put name f canonical) ≡ true) names
      (λ d h. has-put d name f canonical h) a

abbrev pub NamesPresent : Catalog → Type 0
NamesPresent c = AllPresent c.canonical c.canonical_names

pub add_canonical-NamesPresent :
    (fs : List Formula) (claimed later : Claimed) (c d : Catalog)
    → add_canonical fs claimed c ≡ ok (later, d)
    → NamesPresent c
    → NamesPresent d
unfolding add_canonical
add_canonical-NamesPresent [] claimed later c d h a =
    let same : record c { canonical_names = sorted_names c.canonical_names } ≡ d =
      ground (arith, h) in
    subst NamesPresent same (sorted_names-All (λ n. has n c.canonical ≡ true) c.canonical_names a)
add_canonical-NamesPresent (f ∷ fs) claimed later c d h a = elim (Bool-cases (has f.name claimed)) [
  | inl e ↦ absurd (ground (arith, h, e))
  | inr e ↦
      let next : Catalog = record c {
        canonical = put f.name f c.canonical;
        canonical_names = c.canonical_names ++ f.name ∷ [];
      } in
      add_canonical-NamesPresent fs (put f.name tt claimed) later next d (ground (arith, h, e)) (
        All-append (λ n. has n next.canonical ≡ true) c.canonical_names (f.name ∷ [])
          (put-AllPresent f.name f c.canonical c.canonical_names a)
          (has-put_self f.name f c.canonical, tt))
]

pub canonicalize_dependencies-NamesPresent :
    (names : List Bytes) (c d : Catalog)
    → canonicalize_dependencies names c ≡ ok d
    → NamesPresent c
    → NamesPresent d
unfolding canonicalize_dependencies
canonicalize_dependencies-NamesPresent [] c d h a =
    let same : c ≡ d = ground (arith, h) in subst NamesPresent same a
canonicalize_dependencies-NamesPresent (name ∷ names) c d h a =
    elim (Option-cases (lookup name c.canonical)) [
      | inl e ↦ canonicalize_dependencies-NamesPresent names c d (ground (arith, h, e)) a
      | inr (f, e) ↦
          let opened : (canonicalize_formula c f >>= λ g.
          canonicalize_dependencies names (record c { canonical = put name g c.canonical }))
              ≡ ok d =
            ground (arith, h, e) in
          let (g, h1, h2) = bind-eq-ok (canonicalize_formula c f) _ opened in
          canonicalize_dependencies-NamesPresent names
            (record c { canonical = put name g c.canonical }) d h2
            (put-AllPresent name g c.canonical c.canonical_names a)
    ]

pub In-keys :
    (name : Bytes) (canonical : Map Formula)
    → has name canonical ≡ true
    → In name (map (λ e. e.0) canonical)
unfolding lookup
In-keys name [] h = absurd (ground (arith, h))
In-keys name ((j, f) ∷ rest) h = elim (Bool-cases (str_eq j name)) [
  | inl e ↦ inl ((str_eq_iff j name).0 e)
  | inr e ↦ inr (In-keys name rest (ground (arith, h, e)))
]
