-- ===== src/Oci/Challenge/Ascii.antt =====
-- parseBearerChallenge on headers of ASCII bytes stays within them.
use dalec_homebrew.Prelude.{
  ℕ, zero, suc, ◌+◌, ◌≤◌, ◌<◌, ◌≡◌, ◌≢◌, refl, sym, ap, true, List, [], ◌∷◌, none, some, ok, err,
  Result, arith, length, All, Bool-cases, Option-cases, inl, inr, map, ltb, ◌>>=◌,
}
use mathlib.Core.Path.{subst}
use dalec_homebrew.GoString.{Bytes, lit, str_eq, str_eq_iff, has_prefix}
use dalec_homebrew.GoString.Unicode.{Unicode, runes, trim_space, runes_from, decode_rune}
use dalec_homebrew.GoMap.{Map, get_or}
use dalec_homebrew.Oci.Challenge.{
  ChallengeError, out_of_fuel, slice_out_of_range, ascii_lower, encode_runes, to_lower_string,
  index_of, slice_from, challenge_start, challenge_of, challenge_at, parse_auth_params,
  parse_bearer_challenge,
}
use dalec_homebrew.Oci.Challenge.Ends.{IsReturned, parse_auth_params-IsReturned}

abbrev pub IsAscii : Bytes → Type 0
IsAscii s = All (λ c. c < 128) s

runes-ascii : (s : Bytes) → IsAscii s → runes s ≡ s
unfolding runes runes_from decode_rune
runes-ascii [] h = refl
runes-ascii (c ∷ s) h =
    let small : ltb c 0x80 ≡ true = ground (arith, h.0) in
    rw small (ap (λ r. c ∷ r) (runes-ascii s h.1))

encode_runes-ascii :
    (u : Unicode) (s : Bytes) → IsAscii s → encode_runes (map u.to_lower s) ≡ map ascii_lower s
unfolding encode_runes
encode_runes-ascii u [] h = refl
encode_runes-ascii u (c ∷ s) h =
    let lower : u.to_lower c ≡ ascii_lower c = u.lower_ascii c h.0 in
    let small : ltb (ascii_lower c) 0x80 ≡ true = ground (arith, h.0) in
    rw (lower, small) (ap (λ r. ascii_lower c ∷ r) (encode_runes-ascii u s h.1))

to_lower_string-ascii :
    (u : Unicode) (s : Bytes) → IsAscii s → to_lower_string u s ≡ map ascii_lower s
unfolding to_lower_string
to_lower_string-ascii u s h = rw (runes-ascii s h) (encode_runes-ascii u s h)

length-map : (f : ℕ → ℕ) (s : Bytes) → length (map f s) ≡ length s
length-map f [] = refl
length-map f (c ∷ s) = ap suc (length-map f s)

has_prefix-length : (s p : Bytes) → has_prefix s p ≡ true → length p ≤ length s
unfolding has_prefix
has_prefix-length s [] h = omega arith
has_prefix-length [] (d ∷ p) h = absurd (ground (arith, h))
has_prefix-length (c ∷ s) (d ∷ p) h = ground (arith, h, has_prefix-length s p)

index_of-fits : (p s : Bytes) (n : ℕ) → index_of p s ≡ some n → n + length p ≤ length s
unfolding index_of
index_of-fits p [] n h = ground (arith, h, str_eq_iff p [])
index_of-fits p (c ∷ s) n h = elim (Bool-cases (has_prefix (c ∷ s) p)) [
  | inl e ↦ ground (arith, h, e, has_prefix-length (c ∷ s) p e)
  | inr e ↦ elim (Option-cases (index_of p s)) [
    | inl k ↦ absurd (ground (arith, h, e, k))
    | inr (m, k) ↦ ground (arith, h, e, k, index_of-fits p s m k)
  ]
]

challenge_start-fits :
    (u : Unicode) (s : Bytes) (start : ℕ) → challenge_start u s ≡ some start → start + 7 ≤ length s
unfolding challenge_start
challenge_start-fits u s start h = elim (Bool-cases (has_prefix (trim_space u s) (lit "bearer "))) [
  | inl e ↦ index_of-fits (lit "bearer ") s start (ground (arith, h, e))
  | inr e ↦ elim (Option-cases (index_of (lit ", bearer ") s)) [
    | inl k ↦ absurd (ground (arith, h, e, k))
    | inr (m, k) ↦ ground (arith, h, e, k, index_of-fits (lit ", bearer ") s m k)
  ]
]

slice_from-some : (n : ℕ) (s : Bytes) → n ≤ length s → slice_from n s ≢ none
unfolding slice_from
slice_from-some zero s h = λ e. absurd (ground (arith, e))
slice_from-some (suc n) [] h = absurd (omega (arith, h))
slice_from-some (suc n) (c ∷ s) h = slice_from-some n s (omega (arith, h))

challenge_of-IsReturned :
    (m : Result ChallengeError (Map Bytes)) → IsReturned m → IsReturned (m >>= challenge_of)
unfolding challenge_of
challenge_of-IsReturned (err e) h = h
challenge_of-IsReturned (ok params) h =
    elim (Bool-cases (str_eq (get_or [] (lit "realm") params) [])) [
      | inl e ↦ rw e tt
      | inr e ↦ rw e tt
    ]

challenge_at-IsReturned :
    (start : ℕ) (s : Bytes) → start + 7 ≤ length s → IsReturned (challenge_at start s)
unfolding challenge_at
challenge_at-IsReturned start s h = elim (Option-cases (slice_from (start + 7) s)) [
  | inl e ↦ absurd (slice_from-some (start + 7) s h e)
  | inr (rest, e) ↦
      rw (e, challenge_at)
        (challenge_of-IsReturned (parse_auth_params rest) (parse_auth_params-IsReturned rest))
]

parse_bearer_challenge-IsReturned :
    (u : Unicode) (values : List Bytes)
    → All IsAscii values
    → IsReturned (parse_bearer_challenge u values)
unfolding parse_bearer_challenge
parse_bearer_challenge-IsReturned u [] h = tt
parse_bearer_challenge-IsReturned u (s ∷ rest) h =
    elim (Option-cases (challenge_start u (to_lower_string u s))) [
      | inl e ↦ rw (e, parse_bearer_challenge) (parse_bearer_challenge-IsReturned u rest h.1)
      | inr (start, e) ↦
          let fits = challenge_start-fits u (to_lower_string u s) start e in
          rw (e, parse_bearer_challenge)
            (challenge_at-IsReturned start s
              (rw (sym (length-map ascii_lower s), sym (to_lower_string-ascii u s h.0)) fits))
    ]

-- On headers of ASCII bytes `parseBearerChallenge` ends and slices no header behind its end.
pub parse_bearer_challenge-safe :
    (u : Unicode) (values : List Bytes)
    → All IsAscii values
    → (parse_bearer_challenge u values ≢ err slice_out_of_range)
      × (parse_bearer_challenge u values ≢ err out_of_fuel)
parse_bearer_challenge-safe u values h =
    let returned = parse_bearer_challenge-IsReturned u values h in
    (λ e. subst IsReturned e returned, λ e. subst IsReturned e returned)
