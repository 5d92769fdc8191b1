-- ===== src/Oci/Challenge.antt =====
-- The Bearer challenge of a registry, of internal/homebrew/oci/client.go: parseBearerChallenge,
-- parseAuthParams and isAuthTokenChar. An index into the header is what is left of it from there.
pub mod Ends
pub mod RoundTrip
pub mod Ascii
use Prim.Native.Nat.{◌/◌, ◌%◌}
use dalec_homebrew.Prelude.{
  ℕ, zero, suc, ◌+◌, Bool, true, false, not, ◌&&◌, ◌||◌, List, [], ◌∷◌, ◌++◌, map, Option, none,
  some, ◌==◌, if◌then◌else◌, Result, ok, err, ◌>>=◌, ◌>>◌, fail_if, ltb, leb, length,
}
use dalec_homebrew.GoString.{Bytes, lit, str_eq, has_prefix, contains_byte}
use dalec_homebrew.GoString.Unicode.{Unicode, runes, trim_space}
use dalec_homebrew.GoMap.{Map, has, put, get_or}

pub data ChallengeError : Type 0 where
  invalid_parameter no_value unterminated_escape unterminated_value : ChallengeError
  duplicate_parameter no_realm no_challenge out_of_fuel : ChallengeError
  -- a slice of the header starts behind its end, which panics
  slice_out_of_range : ChallengeError

unfoldable pub is_auth_token_char : ℕ → Bool
is_auth_token_char c =
    ltb 0x20 c && ltb c 0x7f && not (contains_byte (lit "()<>@,;:\\\"/[]?={}\t") c)

-- strings.ToLower on ASCII
abbrev pub ascii_lower : ℕ → ℕ
ascii_lower c = if leb b'A' c && leb c b'Z' then c + 32 else c

abbrev pub is_blank_byte : ℕ → Bool
is_blank_byte c = c == b' ' || c == 9

abbrev pub is_separator : ℕ → Bool
is_separator c = c == b',' || (c == b' ' || c == 9)

-- What a loop over the index passes while the test holds, and what is left.
unfoldable pub span : (ℕ → Bool) → Bytes → Bytes × Bytes
span p [] = ([], [])
span p (c ∷ s) = let (passed, left) = span p s in if p c then (c ∷ passed, left) else ([], c ∷ s)

abbrev pub push : ℕ → Result ChallengeError (Bytes × Bytes) → Result ChallengeError (Bytes × Bytes)
push c m = m >>= λ (text, left). ok (c ∷ text, left)

-- The rest of a quoted value; the flag says that the last byte was a backslash.
unfoldable pub quoted : Bool → Bytes → Result ChallengeError (Bytes × Bytes)
quoted true [] = err unterminated_escape
quoted true (c ∷ s) = push c (quoted false s)
quoted false [] = err unterminated_value
quoted false (c ∷ s) = elim (c == b'\\') [
  | true ↦ quoted true s
  | false ↦ elim (c == b'"') [ true ↦ ok ([], s) | false ↦ push c (quoted false s) ]
]

unfoldable pub parse_value : Bytes → Result ChallengeError (Bytes × Bytes)
parse_value [] = err no_value
parse_value (c ∷ s) =
    if c == b'"' then quoted false s else ok (span (λ d. not (is_separator d)) (c ∷ s))

-- What a round of the loop gives: the parameters, and what is left unless the loop ends.
abbrev pub Round : Type 0
Round = Option Bytes × Map Bytes

-- The round behind the name of a parameter.
unfoldable pub value_round : Bytes → Bytes → Map Bytes → Result ChallengeError Round
value_round key [] params = ok (none, params)
value_round key (c ∷ s) params =
    if c == b'='
    then (do
      (text, left) ← parse_value (span is_blank_byte s).1
      fail_if (has key params) duplicate_parameter
      ok (some left, put key text params))
    else ok (none, params)

unfoldable pub key_round : Bytes → Bytes → Map Bytes → Result ChallengeError Round
key_round [] left params = err invalid_parameter
key_round (c ∷ key) left params =
    value_round (map ascii_lower (c ∷ key)) (span is_blank_byte left).1 params

-- A round behind the separators.
unfoldable pub token_round : Bytes → Map Bytes → Result ChallengeError Round
token_round [] params = ok (none, params)
token_round (c ∷ s) params =
    let (key, left) = span is_auth_token_char (c ∷ s) in key_round key left params

unfoldable pub param_round : Bytes → Map Bytes → Result ChallengeError Round
param_round s params = token_round (span is_separator s).1 params

-- The outer loop, on fuel.
unfoldable pub param_loop : ℕ → Bytes → Map Bytes → Result ChallengeError (Map Bytes)
param_loop zero s params = err out_of_fuel
param_loop (suc f) s params = param_round s params >>= λ (rest, later). elim rest [
  | none ↦ ok later
  | some left ↦ param_loop f left later
]

unfoldable pub parse_auth_params : Bytes → Result ChallengeError (Map Bytes)
parse_auth_params s = param_loop (suc (length s)) s []

pub record BearerChallenge : Type 0 where
  pub realm : Bytes
  pub service : Bytes
  pub scope : Bytes

-- The bytes of a rune in UTF-8.
abbrev pub encode_rune : ℕ → Bytes
encode_rune r =
    if ltb r 0x80
    then r ∷ []
    else if ltb r 0x800
    then (0xc0 + r / 64) ∷ (0x80 + r % 64) ∷ []
    else if ltb r 0x10000
    then (0xe0 + r / 4096) ∷ (0x80 + r / 64 % 64) ∷ (0x80 + r % 64) ∷ []
    else (0xf0 + r / 262144) ∷ (0x80 + r / 4096 % 64) ∷ (0x80 + r / 64 % 64) ∷ (0x80 + r % 64) ∷ []

unfoldable pub encode_runes : List ℕ → Bytes
encode_runes [] = []
encode_runes (r ∷ rs) = encode_rune r ++ encode_runes rs

-- strings.ToLower
unfoldable pub to_lower_string : Unicode → Bytes → Bytes
to_lower_string u s = encode_runes (map u.to_lower (runes s))

-- strings.Index, with none for -1
unfoldable pub index_of : Bytes → Bytes → Option ℕ
index_of p [] = if str_eq p [] then some 0 else none
index_of p (c ∷ s) = elim (has_prefix (c ∷ s) p) [
  | true ↦ some 0
  | false ↦ elim (index_of p s) [ none ↦ none | some n ↦ some (suc n) ]
]

-- s[n:]
unfoldable pub slice_from : ℕ → Bytes → Option Bytes
slice_from zero s = some s
slice_from (suc n) [] = none
slice_from (suc n) (c ∷ s) = slice_from n s

-- Where the scheme starts, with none for -1; `s` is the header in lower case.
unfoldable pub challenge_start : Unicode → Bytes → Option ℕ
challenge_start u s =
    if has_prefix (trim_space u s) (lit "bearer ")
    then index_of (lit "bearer ") s
    else elim (index_of (lit ", bearer ") s) [ none ↦ none | some n ↦ some (n + 2) ]

unfoldable pub challenge_of : Map Bytes → Result ChallengeError BearerChallenge
challenge_of params =
    let realm = get_or [] (lit "realm") params in
    if str_eq realm []
    then err no_realm
    else ok (record {
      realm = realm;
      service = get_or [] (lit "service") params;
      scope = get_or [] (lit "scope") params;
    })

-- A header whose scheme starts at `start`.
unfoldable pub challenge_at : ℕ → Bytes → Result ChallengeError BearerChallenge
challenge_at start s = elim (slice_from (start + 7) s) [
  | none ↦ err slice_out_of_range
  | some rest ↦ parse_auth_params rest >>= challenge_of
]

unfoldable pub parse_bearer_challenge : Unicode → List Bytes → Result ChallengeError BearerChallenge
parse_bearer_challenge u [] = err no_challenge
parse_bearer_challenge u (s ∷ rest) = elim (challenge_start u (to_lower_string u s)) [
  | none ↦ parse_bearer_challenge u rest
  | some start ↦ challenge_at start s
]
