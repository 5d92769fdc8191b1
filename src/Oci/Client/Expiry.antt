-- ===== src/Oci/Client/Expiry.antt =====
-- The lifetime of a token in a time.Duration.
use Prim.Native.Nat.{◌/◌}
use dalec_homebrew.Prelude.{
  ℕ, ◌*◌, ◌≤◌, ◌≡◌, [], ◌∷◌, Option, some, ok, arith, Bool-cases, Option-cases, inl, inr, ◌==◌,
  if◌then◌else◌, ◌⊎◌, ◌∙◌, ap, ◌≢◌,
}
use dalec_homebrew.Prelude.Int.{ℤ, pos, negsuc}
use dalec_homebrew.GoString.{Bytes, str_eq, str_eq_iff, lit}
use dalec_homebrew.Oci.Client.{max_int64, second, seconds_duration, parse_int64, parse_expires_in}

seconds_duration-fits :
    (n : ℤ) (d : ℕ) → seconds_duration n ≡ ok d → (n ≡ pos (d / second)) × (d ≤ max_int64)
unfolding seconds_duration
seconds_duration-fits (negsuc n) d h = absurd (ground (arith, h))
seconds_duration-fits (pos n) d h = ground (arith, h)

-- A whole number of seconds.
duration_of_seconds :
    (n : ℤ) (d : ℕ) → seconds_duration n ≡ ok d → n ≡ pos (d / second) → d ≡ (d / second) * second
unfolding seconds_duration
duration_of_seconds (negsuc n) d h e = absurd (ground (arith, h))
duration_of_seconds (pos n) d h e = ground (arith, h)

-- The text of the field `expires_in`: of a JSON string where it begins with a quote, else of a number.
abbrev pub SaysText : (json_string json_number : Bytes → Option Bytes) → Bytes → Bytes → Type 0
SaysText json_string json_number [] text = ⊥
SaysText json_string json_number (c ∷ raw) text =
    ((c ≡ b'"') × (json_string (c ∷ raw) ≡ some text))
    ⊎ ((c ≢ b'"') × (json_number (c ∷ raw) ≡ some text))

-- What `parseExpiresIn` returns fits a time.Duration. It is zero where the field is missing or null, and
-- else the nanoseconds of the number of seconds that the field's text says, decoded as a JSON string
-- where it begins with a quote and as a JSON number otherwise.
pub parse_expires_in-fits :
    (json_string json_number : Bytes → Option Bytes) (raw : Bytes) (d : ℕ)
    → parse_expires_in json_string json_number raw ≡ ok d
    → (d ≤ max_int64)
      × ((((raw ≡ []) ⊎ (raw ≡ lit "null")) × (d ≡ 0))
          ⊎ ((text : Bytes) × (n : ℕ) × SaysText json_string json_number raw text
              × (parse_int64 text ≡ some (pos n))
              × (d ≡ n * second)))
unfolding parse_expires_in
parse_expires_in-fits json_string json_number [] d h = ground (arith, h)
parse_expires_in-fits json_string json_number (c ∷ raw) d h =
    elim (Bool-cases (str_eq (c ∷ raw) (lit "null"))) [
      | inl e ↦ ground (arith, h, e, str_eq_iff (c ∷ raw) (lit "null"))
      | inr e ↦ elim (Option-cases ((if c == b'"' then json_string else json_number) (c ∷ raw))) [
        | inl k ↦ absurd (ground (arith, h, e, k))
        | inr (text, k) ↦ elim (Option-cases (parse_int64 text)) [
          | inl q ↦ absurd (ground (arith, h, e, k, q))
          | inr (seconds, q) ↦
              let made : seconds_duration seconds ≡ ok d = ground (arith, h, e, k, q) in
              let (number, fits) = seconds_duration-fits seconds d made in
              (
                fits,
                inr (
                  text,
                  d / second,
                  ground (arith, k),
                  q ∙ ap some number,
                  duration_of_seconds seconds d made number,
                ),
              )
        ]
      ]
    ]
