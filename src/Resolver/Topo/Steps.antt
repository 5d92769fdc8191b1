-- ===== src/Resolver/Topo/Steps.antt =====
-- Facts about the lists that `topoOrder` keeps.
use dalec_homebrew.Prelude.{
  ℕ, ◌+◌, ◌≤◌, ◌<◌, ◌≡◌, ◌≢◌, ◌⊎◌, inl, inr, refl, ap, Bool-cases, List, [], ◌∷◌, ◌++◌, some, In,
  All-of, arith, ◌==◌, if◌then◌else◌, length,
}
use dalec_homebrew.GoString.{Bytes, str_eq, str_eq_iff, str_eq_refl}
use dalec_homebrew.Resolver.Topo.{mark, tail_from, from_index, drop_last}
use dalec_homebrew.Resolver.Topo.Walks.{IsOrdered, IsChain}

pub drop_last-concat : (s : List Bytes) (n : Bytes) → drop_last (s ++ n ∷ []) ≡ s
unfolding drop_last
drop_last-concat [] n = refl
drop_last-concat (x ∷ []) n = refl
drop_last-concat (x ∷ y ∷ s) n = ap (◌∷◌ x) (drop_last-concat (y ∷ s) n)

-- Where the name first stands in the stack.
pub record At (name : Bytes) (stack : List Bytes) : Type 0 where
  pub before : List Bytes
  pub after : List Bytes
  pub joined : stack ≡ before ++ name ∷ after
  pub found : from_index name stack ≡ name ∷ after

tail_from-In :
    (name : Bytes) (stack : List Bytes)
    → In name stack
    → (before : List Bytes) × (after : List Bytes) × (stack ≡ before ++ name ∷ after)
      × (tail_from name stack ≡ some (name ∷ after))
unfolding tail_from
tail_from-In name [] m = absurd m
tail_from-In name (n ∷ ns) m = elim (Bool-cases (str_eq n name)) [
  | inl here ↦
      let e = (str_eq_iff n name).0 here in
      ([], ns, ap (λ x. x ∷ ns) e, rw here (ap (λ x. some (x ∷ ns)) e))
  | inr there ↦
      let rest : In name ns = elim m [
        | inl e ↦ absurd (ground (arith, str_eq_iff n name))
        | inr r ↦ r
      ] in
      let (b, a, j, f) = tail_from-In name ns rest in (n ∷ b, a, ap (◌∷◌ n) j, rw there f)
]

pub In-At : (name : Bytes) (stack : List Bytes) → In name stack → At name stack
unfolding from_index
In-At name stack m =
    let (b, a, j, f) = tail_from-In name stack m in
    record { before = b; after = a; joined = j; found = rw (f, from_index) }

module _ (deps : Bytes → List Bytes) where
  pub IsChain-suffix : (s t : List Bytes) → IsChain deps (s ++ t) → IsChain deps t
  IsChain-suffix [] t h = h
  IsChain-suffix (n ∷ s) t h = IsChain-suffix s t h.1

  pub IsChain-concat :
      (s : List Bytes) (m n : Bytes)
      → IsChain deps (s ++ m ∷ [])
      → In n (deps m)
      → IsChain deps ((s ++ m ∷ []) ++ n ∷ [])
  IsChain-concat [] m n h e = (e, (tt, tt))
  IsChain-concat (x ∷ []) m n h e = (h.0, (e, (tt, tt)))
  IsChain-concat (x ∷ y ∷ s) m n h e = (h.0, IsChain-concat (y ∷ s) m n h.1 e)

  IsOrdered-concat_from :
      (seen xs : List Bytes) (n : Bytes)
      → IsOrdered deps seen xs
      → ((d : Bytes) → In d (deps n) → In d seen ⊎ In d xs)
      → ¬ In n seen
      → ¬ In n xs
      → IsOrdered deps seen (xs ++ n ∷ [])
  IsOrdered-concat_from seen [] n h met fresh absent = (
    All-of (λ d. In d seen) (deps n) (λ d m. elim (met d m) [ inl x ↦ x | inr x ↦ absurd x ]),
    fresh,
    tt,
  )
  IsOrdered-concat_from seen (x ∷ xs) n h met fresh absent = (
    h.0,
    h.1,
    IsOrdered-concat_from (x ∷ seen) xs n h.2
        (λ d m. elim (met d m) [
          | inl a ↦ inl (inr a)
          | inr b ↦ elim b [ inl e ↦ inl (inl e) | inr c ↦ inr c ]
        ])
        (λ m. elim m [ inl e ↦ absent (inl e) | inr a ↦ fresh a ]) (λ m. absent (inr m)),
  )

  pub IsOrdered-concat :
      (xs : List Bytes) (n : Bytes)
      → IsOrdered deps [] xs
      → ((d : Bytes) → In d (deps n) → In d xs)
      → ¬ In n xs
      → IsOrdered deps [] (xs ++ n ∷ [])
  IsOrdered-concat xs n h met absent =
      IsOrdered-concat_from [] xs n h (λ d m. inr (met d m)) (λ x. x) absent

pub mark_self : (n : Bytes) (v : ℕ) (state : Bytes → ℕ) → mark n v state n ≡ v
unfolding mark
mark_self n v state = rw (str_eq_refl n)

pub mark_ne : (n m : Bytes) (v : ℕ) (state : Bytes → ℕ) → m ≢ n → mark n v state m ≡ state m
unfolding mark
mark_ne n m v state h = ground (arith, str_eq_iff m n)

-- How many names of a list have not been met.
pub white : List Bytes → (Bytes → ℕ) → ℕ
white [] state = 0
white (v ∷ vs) state = (if state v == 0 then 1 else 0) + white vs state

pub white-le :
    (vs : List Bytes) (s t : Bytes → ℕ)
    → ((n : Bytes) → s n ≢ 0 → t n ≢ 0)
    → white vs t ≤ white vs s
unfolding white
white-le [] s t h = omega arith
white-le (v ∷ vs) s t h = ground (arith, white-le vs s t h, h v)

pub mark_keeps :
    (n : Bytes) (v : ℕ) (s : Bytes → ℕ) (k : Bytes) → v ≢ 0 → s k ≢ 0 → mark n v s k ≢ 0
unfolding mark
mark_keeps n v s k h e = ground arith

pub white-lt :
    (vs : List Bytes) (n : Bytes) (v : ℕ) (s : Bytes → ℕ)
    → v ≢ 0
    → s n ≡ 0
    → In n vs
    → white vs (mark n v s) < white vs s
unfolding white
white-lt [] n v s h e m = absurd m
white-lt (x ∷ vs) n v s h e (inl here) = ground (
  arith,
  ap (mark n v s) here,
  ap s here,
  mark_self n v s,
  white-le vs s (mark n v s) (λ k. mark_keeps n v s k h),
)
white-lt (x ∷ vs) n v s h e (inr later) =
    ground (arith, white-lt vs n v s h e later, mark_keeps n v s x h)

pub white-le-length : (xs : List Bytes) (s : Bytes → ℕ) → white xs s ≤ length xs
unfolding white
white-le-length [] s = omega arith
white-le-length (x ∷ xs) s = ground (arith, white-le-length xs s)
