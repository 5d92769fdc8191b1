-- ===== src/Tests/Challenges.antt =====
-- Bearer challenges and token lifetimes on concrete inputs.
use dalec_homebrew.Prelude.{
  ℕ, ◌*◌, ◌≤◌, ◌≡◌, ◌≢◌, ◌⊎◌, refl, [], ◌∷◌, ok, err, Option, some, arith, All,
}
use dalec_homebrew.Prelude.Int.{pos}
use dalec_homebrew.GoString.{Bytes, lit, str_eq, has_prefix, contains_byte}
use dalec_homebrew.GoString.Decimal.{value}
use dalec_homebrew.GoString.Unicode.{runes, runes_from, decode_rune, trim_space}
use dalec_homebrew.GoMap.{Map, lookup, put}
use dalec_homebrew.Oci.Challenge.{
  slice_out_of_range, duplicate_parameter, out_of_fuel, is_auth_token_char, span, quoted,
  parse_value, value_round, key_round, token_round, param_round, param_loop, parse_auth_params,
  encode_runes, to_lower_string, index_of, slice_from, challenge_start, challenge_of, challenge_at,
  parse_bearer_challenge,
}
use dalec_homebrew.Oci.Challenge.Ends.{parse_auth_params-ends}
use dalec_homebrew.Oci.Challenge.RoundTrip.{
  escape, IsKey, HasDistinctKeys, print_params, parse_auth_params-print_params,
}
use dalec_homebrew.Oci.Challenge.Ascii.{parse_bearer_challenge-safe}
use dalec_homebrew.Oci.Client.{parse_int64, parse_expires_in, seconds_duration, max_int64, second}
use dalec_homebrew.Oci.Client.Expiry.{SaysText, parse_expires_in-fits}
use dalec_homebrew.Tests.{ascii}

abbrev header : Bytes
header = lit "Bearer realm=\"https://ghcr.io/token\",service=ghcr.io"

header_test :
    parse_bearer_challenge ascii (header ∷ [])
    ≡ ok (record { realm = lit "https://ghcr.io/token"; service = lit "ghcr.io"; scope = [] })
unfolding parse_bearer_challenge challenge_start to_lower_string encode_runes runes runes_from
    decode_rune trim_space has_prefix index_of slice_from challenge_at challenge_of
    parse_auth_params param_loop param_round token_round key_round value_round parse_value quoted
    span is_auth_token_char contains_byte lookup put str_eq
header_test = refl

-- Four bytes that are no UTF-8 become twelve in lower case, so the slice starts behind the header.
invalid_utf8_test :
    parse_bearer_challenge ascii ((255 ∷ 255 ∷ 255 ∷ 255 ∷ lit ", bearer x") ∷ [])
    ≡ err slice_out_of_range
unfolding parse_bearer_challenge challenge_start to_lower_string encode_runes runes runes_from
    decode_rune trim_space has_prefix index_of slice_from challenge_at challenge_of
    parse_auth_params param_loop param_round token_round key_round value_round parse_value quoted
    span is_auth_token_char contains_byte lookup put str_eq
invalid_utf8_test = refl

parse_bearer_challenge-safe_example :
    (parse_bearer_challenge ascii (lit "Bearer x" ∷ []) ≢ err slice_out_of_range)
    × (parse_bearer_challenge ascii (lit "Bearer x" ∷ []) ≢ err out_of_fuel)
parse_bearer_challenge-safe_example =
    parse_bearer_challenge-safe ascii (lit "Bearer x" ∷ []) (omega arith)

parse_auth_params-ends_example : parse_auth_params (lit "realm=\"a") ≢ err out_of_fuel
parse_auth_params-ends_example = parse_auth_params-ends (lit "realm=\"a")

duplicate_test : parse_auth_params (lit "a=1, A=2") ≡ err duplicate_parameter
unfolding parse_auth_params param_loop param_round token_round key_round value_round parse_value
    quoted span is_auth_token_char contains_byte lookup put str_eq
duplicate_test = refl

abbrev two_params : Map Bytes
two_params = (lit "realm", lit "a\"b,\\") ∷ (lit "scope", lit "x y") ∷ []

printed : print_params two_params ≡ lit "realm=\"a\\\"b,\\\\\", scope=\"x y\""
unfolding escape
printed = refl

two_params-IsKey : All (λ (key, text). IsKey key) two_params
unfolding is_auth_token_char contains_byte
two_params-IsKey = (
  ((refl, (refl, (refl, (refl, (refl, tt))))), refl),
  (((refl, (refl, (refl, (refl, (refl, tt))))), refl), tt),
)

two_params-HasDistinctKeys : HasDistinctKeys two_params
unfolding lookup str_eq
two_params-HasDistinctKeys = (refl, (refl, tt))

parse_auth_params-print_params_example : parse_auth_params (print_params two_params) ≡ ok two_params
parse_auth_params-print_params_example =
    parse_auth_params-print_params two_params two_params-IsKey two_params-HasDistinctKeys

-- The raw value is taken as it is.
abbrev same_text : Bytes → Option Bytes
same_text s = some s

three_hundred : parse_expires_in same_text same_text (lit "300") ≡ ok (300 * second)
unfolding parse_expires_in parse_int64 seconds_duration str_eq value
three_hundred = refl

parse_expires_in-fits_example :
    (300 * second ≤ max_int64)
    × ((((lit "300" ≡ []) ⊎ (lit "300" ≡ lit "null")) × (◌≡◌ {A = ℕ} (300 * second) 0))
        ⊎ ((text : Bytes) × (n : ℕ) × SaysText same_text same_text (lit "300") text
            × (parse_int64 text ≡ some (pos n))
            × (300 * second ≡ n * second)))
parse_expires_in-fits_example =
    parse_expires_in-fits same_text same_text (lit "300") (300 * second) three_hundred
