-- ===== src/Oci/Client.antt =====
-- The registry client of internal/homebrew/oci/client.go: what it reads and its tests of it.
-- Auth holds the tokens and the requests, Fetch the verified content. A size or a limit is a
-- number below 2^63, so limit + 1 does not wrap around: `validateLimits` refuses the largest int64.
pub mod Expiry
pub mod Auth
pub mod Fetch
pub mod Verified
pub mod Requests
use Prim.Native.Nat.{◌^◌, ◌/◌}
use dalec_homebrew.Prelude.{
  ℕ, ◌+◌, ◌-◌, ◌*◌, Bool, true, false, not, ◌&&◌, ◌||◌, List, [], ◌∷◌, ◌++◌, map, Option, none,
  some, ◌==◌, if◌then◌else◌, Result, ok, err, ◌>>=◌, ◌>>◌, fail_if, ltb, leb, length, all, take,
}
use dalec_homebrew.Prelude.Int.{ℤ, pos, negsuc, int_ltb, int_eq}
use dalec_homebrew.GoString.{Bytes, lit, str_eq, contains_byte}
use dalec_homebrew.GoString.Decimal.{digit, value}
use dalec_homebrew.GoString.Unicode.{Unicode, runes, trim_space}
use dalec_homebrew.Oci.Names.{validate_repository}
use dalec_homebrew.Oci.Challenge.{BearerChallenge, ascii_lower}

pub data ClientError : Type 0 where
  invalid_repository unsupported_kind invalid_reference : ClientError
  wrong_media_type empty_media_type invalid_digest invalid_size size_over_limit : ClientError
  embedded_data descriptor_urls descriptor_artifact_type invalid_limit : ClientError
  length_over_limit length_mismatch encoded_response no_content_type bad_content_type : ClientError
  read_failed response_over_limit status_error transport_failed : ClientError
  unsupported_digest bad_digest_header digest_header_mismatch size_mismatch digest_mismatch :
      ClientError
  blob_over_limit nil_destination invalid_tag : ClientError
  empty_token bad_token_character bad_expires_in negative_expires_in expires_in_overflow :
      ClientError
  invalid_realm realm_downgrade bad_token_response bad_issued_at bad_challenge rejected :
      ClientError

pub record Limits : Type 0 where
  pub index_bytes : ℤ
  pub manifest_bytes : ℤ
  pub config_bytes : ℤ
  pub blob_bytes : ℤ
  pub token_bytes : ℤ
  pub error_bytes : ℤ

abbrev pub default_limits : Limits
default_limits = record {
  index_bytes = pos (4 * 2 ^ 20);
  manifest_bytes = pos (4 * 2 ^ 20);
  config_bytes = pos (1 * 2 ^ 20);
  blob_bytes = pos (8 * 2 ^ 30);
  token_bytes = pos (1 * 2 ^ 20);
  error_bytes = pos (64 * 2 ^ 10);
}

-- The largest int64.
abbrev pub max_int64 : ℕ
max_int64 = 2 ^ 63 - 1

abbrev pub bad_limit : ℤ → Bool
bad_limit n = not (int_ltb (pos 0) n) || int_eq n (pos max_int64)

unfoldable pub validate_limits : Limits → Result ClientError Unit
validate_limits limits =
    fail_if
      (bad_limit limits.index_bytes
        || bad_limit limits.manifest_bytes
        || bad_limit limits.config_bytes
        || bad_limit limits.blob_bytes
        || bad_limit limits.token_bytes
        || bad_limit limits.error_bytes)
      invalid_limit

-- ocispec.Descriptor of the image-spec package, as far as it is read.
pub record Descriptor : Type 0 where
  pub media_type : Bytes
  pub digest : Bytes
  pub size : ℤ
  pub embedded : Bytes
  pub urls : List Bytes
  pub artifact_type : Bytes

abbrev pub is_empty : {A : Type 0} → List A → Bool
is_empty [] = true
is_empty (x ∷ xs) = false

-- `is_sha256` is what parseSHA256Digest asks package digest.
unfoldable pub validate_descriptor :
    (Bytes → Bool) → Descriptor → Bytes → ℤ → Result ClientError Unit
validate_descriptor is_sha256 d media_type limit = do
  fail_if (not (is_empty media_type) && not (str_eq d.media_type media_type)) wrong_media_type
  fail_if (is_empty d.media_type) empty_media_type
  fail_if (not (is_sha256 d.digest)) invalid_digest
  fail_if (not (int_ltb (pos 0) d.size)) invalid_size
  fail_if (int_ltb limit d.size) size_over_limit
  fail_if (not (is_empty d.embedded)) embedded_data
  fail_if (not (is_empty d.urls)) descriptor_urls
  fail_if (not (is_empty d.artifact_type)) descriptor_artifact_type

-- The test behind a descriptor that is expected.
abbrev pub length_differs : ℤ → Option Descriptor → Bool
length_differs n none = false
length_differs n (some d) = not (int_ltb n (pos 0)) && not (int_eq n d.size)

unfoldable pub validate_content_length : ℤ → Option Descriptor → ℤ → Result ClientError Unit
validate_content_length n expected limit = do
  fail_if (int_ltb limit n) length_over_limit
  fail_if (length_differs n expected) length_mismatch

-- What a response's body yields, and whether reading it fails behind that.
pub record Body : Type 0 where
  pub content : Bytes
  pub fails : Bool

pub record Response : Type 0 where
  pub status : ℕ
  pub content_encoding : Bytes
  pub content_type : Bytes
  pub digest_header : Bytes
  pub challenges : List Bytes
  pub content_length : ℤ
  pub body : Body

-- limit + 1, and nothing is read at a bound below one.
abbrev pub bound : ℤ → ℕ
bound (pos n) = n + 1
bound (negsuc n) = 0

-- io.LimitedReader with the bound N, read to its end: it fails only if the body does before.
abbrev pub limited : Body → ℕ → Option Bytes
limited b n = if b.fails && ltb (length b.content) n then none else some (take n b.content)

unfoldable pub read_bounded : Body → ℤ → Result ClientError Bytes
read_bounded b limit = elim (limited b (bound limit)) [
  | none ↦ err read_failed
  | some body ↦ if int_ltb limit (pos (length body)) then err response_over_limit else ok body
]

-- strings.EqualFold with "identity", none of whose letters folds to another one than its capital.
unfoldable pub validate_identity_encoding : Unicode → Response → Result ClientError Unit
validate_identity_encoding u r =
    let encoding = trim_space u r.content_encoding in
    fail_if (not (is_empty encoding) && not (str_eq (map ascii_lower encoding) (lit "identity")))
      encoded_response

-- `parse_media_type` is the first result of mime.ParseMediaType.
unfoldable pub response_media_type : (Bytes → Option Bytes) → Response → Result ClientError Bytes
response_media_type parse_media_type r =
    if is_empty r.content_type
    then err no_content_type
    else elim (parse_media_type r.content_type) [
      | none ↦ err bad_content_type
      | some media_type ↦ ok media_type
    ]

unfoldable pub validate_bearer_token : Unicode → (ℕ → Bool) → Bytes → Result ClientError Unit
validate_bearer_token u is_control token = do
  fail_if (is_empty token) empty_token
  fail_if (not (all (λ r. not (u.is_space r || is_control r)) (runes token))) bad_token_character

-- strconv.ParseInt(s, 10, 64)
abbrev pub parse_magnitude : Bool → Bytes → Option ℤ
parse_magnitude negative s =
    let n = value s in
    if is_empty s || not (all digit s)
    then none
    else if negative
    then (if leb n (2 ^ 63) then (if n == 0 then some (pos 0) else some (negsuc (n - 1))) else none)
    else if leb n max_int64
    then some (pos n)
    else none

unfoldable pub parse_int64 : Bytes → Option ℤ
parse_int64 [] = none
parse_int64 (c ∷ s) =
    if c == b'-'
    then parse_magnitude true s
    else if c == b'+'
    then parse_magnitude false s
    else parse_magnitude false (c ∷ s)

-- time.Second
abbrev pub second : ℕ
second = 10 ^ 9

-- The end of `parseExpiresIn`.
unfoldable pub seconds_duration : ℤ → Result ClientError ℕ
seconds_duration (negsuc n) = err negative_expires_in
seconds_duration (pos n) =
    if ltb (max_int64 / second) n then err expires_in_overflow else ok (n * second)

-- `json_string` and `json_number` decode the raw value.
unfoldable pub parse_expires_in :
    (Bytes → Option Bytes) → (Bytes → Option Bytes) → Bytes → Result ClientError ℕ
parse_expires_in json_string json_number [] = ok 0
parse_expires_in json_string json_number (c ∷ raw) =
    if str_eq (c ∷ raw) (lit "null")
    then ok 0
    else elim ((if c == b'"' then json_string else json_number) (c ∷ raw)) [
      | none ↦ err bad_expires_in
      | some text ↦ elim (parse_int64 text) [
        | none ↦ err bad_expires_in
        | some seconds ↦ seconds_duration seconds
      ]
    ]

-- url.URL of net/url, as far as it is read.
pub record Url : Type 0 where
  pub scheme : Bytes
  pub host : Bytes
  pub has_user : Bool
  pub path : Bytes
  pub raw_query : Bytes
  pub fragment : Bytes

-- strings.TrimSuffix(s, "/")
unfoldable pub trim_slash : Bytes → Bytes
trim_slash [] = []
trim_slash (c ∷ s) = let rest = trim_slash s in if c == b'/' && is_empty s then [] else c ∷ rest

abbrev pub reference_byte : ℕ → Bool
reference_byte c = not (contains_byte (lit "/\\?#" ++ (0 ∷ 13 ∷ 10 ∷ [])) c)

abbrev pub is_registry_kind : Bytes → Bool
is_registry_kind kind =
    str_eq kind (lit "manifests") || str_eq kind (lit "blobs") || str_eq kind (lit "referrers")

abbrev pub at_reference : Url → Bytes → Bytes → Bytes → Url
at_reference base repository kind reference = record base {
  path =
      trim_slash base.path ++ (lit "/v2/" ++ (repository ++ (b'/' ∷ (kind ++ (b'/' ∷ reference)))));
}

unfoldable pub registry_url : Url → Bytes → Bytes → Bytes → Result ClientError Url
registry_url base repository kind reference = elim (validate_repository repository) [
  | err e ↦ err invalid_repository
  | ok x ↦
      if not (is_registry_kind kind)
      then err unsupported_kind
      else if not (all reference_byte reference) || is_empty reference
      then err invalid_reference
      else ok (at_reference base repository kind reference)
]
