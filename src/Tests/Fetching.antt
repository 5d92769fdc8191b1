-- ===== src/Tests/Fetching.antt =====
-- The registry client against a small registry.
use dalec_homebrew.Prelude.{
  ℕ, ◌≡◌, refl, ap, List, [], ◌∷◌, ok, err, true, false, none, some, length, ltb, ◌||◌, ◌==◌,
}
use dalec_homebrew.Prelude.Int.{pos, negsuc, int_ltb}
use dalec_homebrew.GoString.{Bytes, lit, str_eq, has_prefix, contains_byte, split}
use dalec_homebrew.GoString.Decimal.{value}
use dalec_homebrew.GoString.Unicode.{runes, runes_from, decode_rune, trim_space}
use dalec_homebrew.GoMap.{lookup, put}
use dalec_homebrew.PkgName.{lower_or_digit}
use dalec_homebrew.Oci.Names.{
  tag_ok, word_byte, validate_repository, has_upper, segment_run, segment_step, after_word,
  after_separator,
}
use dalec_homebrew.Oci.Challenge.{
  is_auth_token_char, span, quoted, parse_value, value_round, key_round, token_round, param_round,
  param_loop, parse_auth_params, encode_runes, to_lower_string, index_of, slice_from,
  challenge_start, challenge_of, challenge_at, parse_bearer_challenge,
}
use dalec_homebrew.Oci.Client.{
  Response, Descriptor, Url, default_limits, validate_descriptor, validate_content_length,
  validate_identity_encoding, response_media_type, read_bounded, trim_slash, registry_url,
  digest_mismatch, read_failed, parse_int64, parse_expires_in, seconds_duration,
  validate_bearer_token,
}
use dalec_homebrew.Oci.Client.Auth.{
  Env, Client, Session, Request, bearer, token_key_eq, delete_token, check_realm, expiry,
  issued_time, decode_wire, store_token, read_token, request_token, fresh_token, bearer_token,
  invalidate, challenged, registry_loop, registry_get,
}
use dalec_homebrew.Oci.Client.Fetch.{
  Content, image_manifest, image_index, check_digest_header, check_expected, verify_manifest,
  read_manifest, fetch_manifest_reference, fetch_index, fetch_manifest, taken, copy_blob,
  accept_blob, read_blob, blob_url, fetch_checked_blob,
}
use dalec_homebrew.Oci.Client.Verified.{Matches, fetch_manifest-Matches, fetch_checked_blob-Matches}
use dalec_homebrew.Oci.Client.Requests.{AtMost, fetch_manifest_reference-AtMost}
use dalec_homebrew.Tests.{ascii}

-- The world is the list of the requests so far.
abbrev World : Type 0
World = List Request

abbrev reply : ℕ → Bytes → Bytes → List Bytes → Response
reply status media_type content challenges = record {
  status = status;
  content_encoding = [];
  content_type = media_type;
  digest_header = [];
  challenges = challenges;
  content_length = negsuc 0;
  body = record { content = content; fails = false };
}

-- A registry that wants the token t, which its token endpoint gives to everybody.
abbrev answer_of : Request → Response
answer_of r = elim (str_eq r.accept (lit "application/json")) [
  | true ↦ reply 200 (lit "application/json") (lit "t") []
  | false ↦ elim r.authorization [
    | bearer token ↦ reply 200 r.accept (lit "{}") []
    | _ ↦ reply 401 r.accept [] (lit "Bearer realm=\"https://ghcr.io/token\"" ∷ [])
  ]
]

abbrev ghcr : Url
ghcr = record {
  scheme = lit "https";
  host = lit "ghcr.io";
  has_user = false;
  path = [];
  raw_query = [];
  fragment = [];
}

-- A digest is taken to be the first byte, every address that of the registry.
abbrev test_env : Env World
test_env = record {
  get = λ r w. (r ∷ w, some (answer_of r));
  now = λ w. 0;
  parse_url = λ s. some ghcr;
  set_query = λ s sets. s;
  decode_token =
      λ s. some (record { token = s; access_token = []; expires_in = lit "300"; issued_at = [] });
  json_string = λ s. some s;
  json_number = λ s. some s;
  parse_time = λ s. some 0;
  parse_media_type = λ s. some s;
  is_sha256 = λ s. true;
  is_sha256_algorithm = λ s. true;
  digest_of = λ s. elim s [ [] ↦ [] | c ∷ r ↦ c ∷ [] ];
  is_control = λ c. ltb c 32 || c == 127;
  unicode = ascii;
}

abbrev test_client : Client
test_client = record { base = ghcr; limits = default_limits; username = []; password = [] }

abbrev new_session : Session World
new_session = record { world = []; auth_by_repo = []; tokens = [] }

abbrev named : Bytes → Bytes → Descriptor
named media_type digest = record {
  media_type = media_type;
  digest = digest;
  size = pos 2;
  embedded = [];
  urls = [];
  artifact_type = [];
}

abbrev fetched : Content
fetched = record { descriptor = named image_manifest (lit "{"); content = lit "{}" }

fetched_test :
    (fetch_manifest test_env test_client
      (lit "homebrew/core/jq")
      (named image_manifest (lit "{"))
      new_session).1
    ≡ ok fetched
unfolding tag_ok word_byte lower_or_digit validate_repository has_upper segment_run segment_step
    after_word after_separator split str_eq contains_byte has_prefix value runes runes_from
    decode_rune trim_space lookup put is_auth_token_char span quoted parse_value value_round
    key_round token_round param_round param_loop parse_auth_params encode_runes to_lower_string
    index_of slice_from challenge_start challenge_of challenge_at parse_bearer_challenge
    validate_descriptor validate_content_length validate_identity_encoding response_media_type
    read_bounded trim_slash registry_url parse_int64 parse_expires_in seconds_duration
    validate_bearer_token token_key_eq delete_token check_realm expiry issued_time decode_wire
    store_token read_token request_token fresh_token bearer_token invalidate challenged
    registry_loop registry_get check_digest_header check_expected verify_manifest read_manifest
    fetch_manifest_reference fetch_manifest
fetched_test = refl

-- The manifest is asked for, then a token, then the manifest again.
three_requests :
    length
      (fetch_manifest test_env test_client
        (lit "homebrew/core/jq")
        (named image_manifest (lit "{"))
        new_session).0.world
    ≡ 3
unfolding tag_ok word_byte lower_or_digit validate_repository has_upper segment_run segment_step
    after_word after_separator split str_eq contains_byte has_prefix value runes runes_from
    decode_rune trim_space lookup put is_auth_token_char span quoted parse_value value_round
    key_round token_round param_round param_loop parse_auth_params encode_runes to_lower_string
    index_of slice_from challenge_start challenge_of challenge_at parse_bearer_challenge
    validate_descriptor validate_content_length validate_identity_encoding response_media_type
    read_bounded trim_slash registry_url parse_int64 parse_expires_in seconds_duration
    validate_bearer_token token_key_eq delete_token check_realm expiry issued_time decode_wire
    store_token read_token request_token fresh_token bearer_token invalidate challenged
    registry_loop registry_get check_digest_header check_expected verify_manifest read_manifest
    fetch_manifest_reference fetch_manifest
three_requests = refl

wrong_digest :
    (fetch_manifest test_env test_client
      (lit "homebrew/core/jq")
      (named image_manifest (lit "["))
      new_session).1
    ≡ err digest_mismatch
unfolding tag_ok word_byte lower_or_digit validate_repository has_upper segment_run segment_step
    after_word after_separator split str_eq contains_byte has_prefix value runes runes_from
    decode_rune trim_space lookup put is_auth_token_char span quoted parse_value value_round
    key_round token_round param_round param_loop parse_auth_params encode_runes to_lower_string
    index_of slice_from challenge_start challenge_of challenge_at parse_bearer_challenge
    validate_descriptor validate_content_length validate_identity_encoding response_media_type
    read_bounded trim_slash registry_url parse_int64 parse_expires_in seconds_duration
    validate_bearer_token token_key_eq delete_token check_realm expiry issued_time decode_wire
    store_token read_token request_token fresh_token bearer_token invalidate challenged
    registry_loop registry_get check_digest_header check_expected verify_manifest read_manifest
    fetch_manifest_reference fetch_manifest
wrong_digest = refl

fetch_manifest-Matches_example :
    (fetched.descriptor ≡ named image_manifest (lit "{"))
    × Matches test_env.digest_of (named image_manifest (lit "{")) (lit "{}")
    × (int_ltb test_client.limits.manifest_bytes (pos (length fetched.content)) ≡ false)
fetch_manifest-Matches_example =
    fetch_manifest-Matches test_env test_client (lit "homebrew/core/jq")
      (named image_manifest (lit "{")) new_session fetched fetched_test

abbrev fetched_index : Content
fetched_index = record { descriptor = named image_index (lit "{"); content = lit "{}" }

fetched_index_test :
    (fetch_index test_env test_client (lit "homebrew/core/jq") (lit "1.7") new_session).1
    ≡ ok fetched_index
unfolding tag_ok word_byte lower_or_digit validate_repository has_upper segment_run segment_step
    after_word after_separator split str_eq contains_byte has_prefix value runes runes_from
    decode_rune trim_space lookup put is_auth_token_char span quoted parse_value value_round
    key_round token_round param_round param_loop parse_auth_params encode_runes to_lower_string
    index_of slice_from challenge_start challenge_of challenge_at parse_bearer_challenge
    validate_descriptor validate_content_length validate_identity_encoding response_media_type
    read_bounded trim_slash registry_url parse_int64 parse_expires_in seconds_duration
    validate_bearer_token token_key_eq delete_token check_realm expiry issued_time decode_wire
    store_token read_token request_token fresh_token bearer_token invalidate challenged
    registry_loop registry_get check_digest_header check_expected verify_manifest read_manifest
    fetch_manifest_reference fetch_index
fetched_index_test = refl

abbrev blob : Descriptor
blob = named (lit "application/gzip") (lit "{")

blob_test :
    (fetch_checked_blob test_env test_client
      (lit "homebrew/core/jq")
      blob
      (pos 100)
      none
      new_session).1
    ≡ (lit "{}", ok tt)
unfolding tag_ok word_byte lower_or_digit validate_repository has_upper segment_run segment_step
    after_word after_separator split str_eq contains_byte has_prefix value runes runes_from
    decode_rune trim_space lookup put is_auth_token_char span quoted parse_value value_round
    key_round token_round param_round param_loop parse_auth_params encode_runes to_lower_string
    index_of slice_from challenge_start challenge_of challenge_at parse_bearer_challenge
    validate_descriptor validate_content_length validate_identity_encoding response_media_type
    read_bounded trim_slash registry_url parse_int64 parse_expires_in seconds_duration
    validate_bearer_token token_key_eq delete_token check_realm expiry issued_time decode_wire
    store_token read_token request_token fresh_token bearer_token invalidate challenged
    registry_loop registry_get taken copy_blob accept_blob read_blob blob_url fetch_checked_blob
blob_test = refl

-- A destination that takes one byte makes the fetch fail.
full_destination :
    (fetch_checked_blob test_env test_client
      (lit "homebrew/core/jq")
      blob
      (pos 100)
      (some 1)
      new_session).1
    ≡ (lit "{", err read_failed)
unfolding tag_ok word_byte lower_or_digit validate_repository has_upper segment_run segment_step
    after_word after_separator split str_eq contains_byte has_prefix value runes runes_from
    decode_rune trim_space lookup put is_auth_token_char span quoted parse_value value_round
    key_round token_round param_round param_loop parse_auth_params encode_runes to_lower_string
    index_of slice_from challenge_start challenge_of challenge_at parse_bearer_challenge
    validate_descriptor validate_content_length validate_identity_encoding response_media_type
    read_bounded trim_slash registry_url parse_int64 parse_expires_in seconds_duration
    validate_bearer_token token_key_eq delete_token check_realm expiry issued_time decode_wire
    store_token read_token request_token fresh_token bearer_token invalidate challenged
    registry_loop registry_get taken copy_blob accept_blob read_blob blob_url fetch_checked_blob
full_destination = refl

fetch_checked_blob-Matches_example :
    Matches test_env.digest_of blob
      (fetch_checked_blob test_env test_client
        (lit "homebrew/core/jq")
        blob
        (pos 100)
        none
        new_session).1.0
    × (int_ltb (pos 100) (
          pos (
            length
              (fetch_checked_blob test_env test_client
                (lit "homebrew/core/jq")
                blob
                (pos 100)
                none
                new_session).1.0))
        ≡ false)
fetch_checked_blob-Matches_example =
    fetch_checked_blob-Matches test_env test_client (lit "homebrew/core/jq") blob (pos 100) none
      new_session (ap (λ x. x.1) blob_test)

fetch_manifest_reference-AtMost_example :
    AtMost test_env test_client 7 []
      (fetch_manifest_reference test_env test_client
        (lit "homebrew/core/jq")
        (lit "1.7")
        none
        image_index
        (pos 100)
        new_session).0.world
fetch_manifest_reference-AtMost_example =
    fetch_manifest_reference-AtMost test_env test_client (lit "homebrew/core/jq") (lit "1.7") none
      image_index (pos 100) new_session refl
