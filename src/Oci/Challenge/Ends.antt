-- ===== src/Oci/Challenge/Ends.antt =====
-- The loop of parseAuthParams ends.
use dalec_homebrew.Prelude.{
  ℕ, zero, suc, ◌≤◌, ◌<◌, ◌≡◌, ◌≢◌, refl, Bool, not, true, false, [], ◌∷◌, none, some, ok, err,
  Result, arith, length, Bool-cases, Result-cases, inl, inr, map, ◌==◌, ◌>>=◌, fail_if,
}
use mathlib.Core.Path.{subst}
use dalec_homebrew.GoString.{Bytes}
use dalec_homebrew.GoMap.{Map, has, put}
use dalec_homebrew.Oci.Challenge.{
  ChallengeError, out_of_fuel, slice_out_of_range, is_auth_token_char, ascii_lower, is_blank_byte,
  is_separator, span, push, quoted, parse_value, Round, value_round, key_round, token_round,
  param_round, param_loop, parse_auth_params, duplicate_parameter,
}

pub length-span : (p : ℕ → Bool) (s : Bytes) → length (span p s).1 ≤ length s
unfolding span
length-span p [] = omega arith
length-span p (c ∷ s) = ground (arith, length-span p s)

-- An error that the code returns.
abbrev pub IsFault : ChallengeError → Type 0
IsFault out_of_fuel = ⊥
IsFault slice_out_of_range = ⊥
IsFault _ = Unit

-- A result that the code returns.
abbrev pub IsReturned : {A : Type 0} → Result ChallengeError A → Type 0
IsReturned (ok a) = Unit
IsReturned (err e) = IsFault e

-- A result that is a value with at most `n` bytes left, or an error that the code returns.
abbrev LeavesAtMost : ℕ → Result ChallengeError (Bytes × Bytes) → Type 0
LeavesAtMost n (ok (text, left)) = length left ≤ n
LeavesAtMost n (err e) = IsFault e

push-LeavesAtMost :
    (n c : ℕ) (m : Result ChallengeError (Bytes × Bytes))
    → LeavesAtMost n m
    → LeavesAtMost n (push c m)
push-LeavesAtMost n c (ok x) h = h
push-LeavesAtMost n c (err e) h = h

LeavesAtMost-mono :
    (n k : ℕ) (m : Result ChallengeError (Bytes × Bytes))
    → n ≤ k
    → LeavesAtMost n m
    → LeavesAtMost k m
LeavesAtMost-mono n k (ok x) le h = omega (arith, le, h)
LeavesAtMost-mono n k (err e) le h = h

quoted-LeavesAtMost : (escaped : Bool) (s : Bytes) → LeavesAtMost (length s) (quoted escaped s)
unfolding quoted
quoted-LeavesAtMost true [] = tt
quoted-LeavesAtMost false [] = tt
quoted-LeavesAtMost true (c ∷ s) =
    LeavesAtMost-mono (length s) (suc (length s)) _ (omega arith)
      (push-LeavesAtMost (length s) c (quoted false s) (quoted-LeavesAtMost false s))
quoted-LeavesAtMost false (c ∷ s) = elim (Bool-cases (c == b'\\')) [
  | inl e ↦
      rw (e, quoted)
        (LeavesAtMost-mono (length s) (suc (length s)) _ (omega arith) (quoted-LeavesAtMost true s))
  | inr e ↦ elim (Bool-cases (c == b'"')) [
    | inl k ↦ rw (e, k, quoted) (omega arith)
    | inr k ↦
        rw (e, k, quoted)
          (LeavesAtMost-mono (length s) (suc (length s)) _ (omega arith)
            (push-LeavesAtMost (length s) c (quoted false s) (quoted-LeavesAtMost false s)))
  ]
]

parse_value-LeavesAtMost : (s : Bytes) → LeavesAtMost (length s) (parse_value s)
unfolding parse_value
parse_value-LeavesAtMost [] = tt
parse_value-LeavesAtMost (c ∷ s) = elim (Bool-cases (c == b'"')) [
  | inl e ↦
      rw e (
        LeavesAtMost-mono (length s) (suc (length s)) _ (omega arith) (quoted-LeavesAtMost false s))
  | inr e ↦ rw e (length-span (λ d. not (is_separator d)) (c ∷ s))
]

-- A round that leaves fewer than `n` bytes, or ends the loop, or fails.
abbrev pub Shortens : ℕ → Result ChallengeError Round → Type 0
Shortens n (ok (none, params)) = Unit
Shortens n (ok (some left, params)) = length left < n
Shortens n (err e) = IsFault e

Shortens-mono : (n k : ℕ) (m : Result ChallengeError Round) → n ≤ k → Shortens n m → Shortens k m
Shortens-mono n k (ok (none, params)) le h = tt
Shortens-mono n k (ok (some left, params)) le h = omega (arith, le, h)
Shortens-mono n k (err e) le h = h

stored-Shortens :
    (n : ℕ) (m : Result ChallengeError (Bytes × Bytes)) (seen : Bool) (later : Bytes → Map Bytes)
    → LeavesAtMost n m
    → Shortens
        (suc n)
        (m >>= λ (text, left). fail_if seen duplicate_parameter >>= λ _. ok (some left, later text))
stored-Shortens n (err e) seen later h = h
stored-Shortens n (ok (text, left)) true later h = tt
stored-Shortens n (ok (text, left)) false later h = omega (arith, h)

value_round-Shortens :
    (key s : Bytes) (params : Map Bytes) → Shortens (suc (length s)) (value_round key s params)
unfolding value_round
value_round-Shortens key [] params = tt
value_round-Shortens key (c ∷ s) params = elim (Bool-cases (c == b'=')) [
  | inr e ↦ rw e tt
  | inl e ↦ rw e (
      Shortens-mono _ (suc (suc (length s))) _ (ground (arith, length-span is_blank_byte s)) (
        stored-Shortens _ (parse_value (span is_blank_byte s).1) (has key params)
          (λ text. put key text params) (parse_value-LeavesAtMost (span is_blank_byte s).1)))
]

-- A span that passes something leaves less.
span-shorter :
    (p : ℕ → Bool) (c d : ℕ) (s key : Bytes)
    → (span p (c ∷ s)).0 ≡ d ∷ key
    → length (span p (c ∷ s)).1 ≤ length s
unfolding span
span-shorter p c d s key h = elim (Bool-cases (p c)) [
  | inl e ↦ rw e (length-span p s)
  | inr e ↦ absurd (ground (arith, h, e))
]

key_round-Shortens :
    (key left : Bytes) (params : Map Bytes) (n : ℕ)
    → ((d : ℕ) (k : Bytes) → key ≡ d ∷ k → length left < n)
    → Shortens n (key_round key left params)
unfolding key_round
key_round-Shortens [] left params n h = tt
key_round-Shortens (c ∷ key) left params n h =
    let le : suc (length (span is_blank_byte left).1) ≤ n =
      ground (arith, h c key refl, length-span is_blank_byte left) in
    Shortens-mono _ n _ le
      (value_round-Shortens (map ascii_lower (c ∷ key)) (span is_blank_byte left).1 params)

token_round-Shortens : (s : Bytes) (params : Map Bytes) → Shortens (length s) (token_round s params)
unfolding token_round
token_round-Shortens [] params = tt
token_round-Shortens (c ∷ s) params =
    key_round-Shortens (span is_auth_token_char (c ∷ s)).0 (span is_auth_token_char (c ∷ s)).1
      params (suc (length s)) (λ d k e. ground (arith, span-shorter is_auth_token_char c d s k e))

param_round-Shortens : (s : Bytes) (params : Map Bytes) → Shortens (length s) (param_round s params)
unfolding param_round
param_round-Shortens s params =
    Shortens-mono _ (length s) _ (length-span is_separator s)
      (token_round-Shortens (span is_separator s).1 params)

-- With more fuel than bytes the loop ends.
pub param_loop-IsReturned :
    (f : ℕ) (s : Bytes) (params : Map Bytes) → length s < f → IsReturned (param_loop f s params)
unfolding param_loop
param_loop-IsReturned zero s params h = absurd (omega (arith, h))
param_loop-IsReturned (suc f) s params h = elim (Result-cases (param_round s params)) [
  | inr (e, k) ↦ rw k (subst (Shortens (length s)) k (param_round-Shortens s params))
  | inl ((none, later), k) ↦ rw k tt
  | inl ((some left, later), k) ↦
      let shorter : Shortens (length s) (ok (some left, later)) =
        subst (Shortens (length s)) k (param_round-Shortens s params) in
      rw k (param_loop-IsReturned f left later (omega (arith, h, shorter)))
]

pub parse_auth_params-IsReturned : (s : Bytes) → IsReturned (parse_auth_params s)
unfolding parse_auth_params
parse_auth_params-IsReturned s = param_loop-IsReturned (suc (length s)) s [] (omega arith)

-- `parseAuthParams` ends, with parameters or with an error, whatever the header.
pub parse_auth_params-ends : (s : Bytes) → parse_auth_params s ≢ err out_of_fuel
parse_auth_params-ends s h = subst IsReturned h (parse_auth_params-IsReturned s)
