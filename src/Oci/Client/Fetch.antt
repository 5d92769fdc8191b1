-- ===== src/Oci/Client/Fetch.antt =====
-- Verified content of internal/homebrew/oci/client.go: fetchManifest, fetchBlobTo and their callers.
use dalec_homebrew.Prelude.{
  ℕ, Bool, not, ◌||◌, [], ◌∷◌, Option, none, some, ◌==◌, if◌then◌else◌, Result, ok, err, ◌>>=◌,
  ◌>>◌, fail_if, length, take,
}
use dalec_homebrew.Prelude.Int.{ℤ, pos, int_ltb, int_eq}
use dalec_homebrew.GoString.{Bytes, lit, str_eq}
use dalec_homebrew.GoString.Unicode.{trim_space}
use dalec_homebrew.Oci.Names.{tag_ok}
use dalec_homebrew.Oci.Client.{
  ClientError, Url, Response, Descriptor, Body, bound, limited, validate_descriptor,
  validate_content_length, validate_identity_encoding, response_media_type, read_bounded,
  registry_url, wrong_media_type, read_failed, status_error, unsupported_digest, bad_digest_header,
  digest_header_mismatch, size_mismatch, digest_mismatch, blob_over_limit, invalid_tag,
}
use dalec_homebrew.Oci.Client.Auth.{Env, Client, Session, registry_get, is_none}

pub record Content : Type 0 where
  pub descriptor : Descriptor
  pub content : Bytes

abbrev pub image_index : Bytes
image_index = lit "application/vnd.oci.image.index.v1+json"

abbrev pub image_manifest : Bytes
image_manifest = lit "application/vnd.oci.image.manifest.v1+json"

abbrev pub image_config : Bytes
image_config = lit "application/vnd.oci.image.config.v1+json"

-- An io.Writer, as the number of bytes that it takes before a Write fails; without a number it takes
-- all, as a bytes.Buffer does.
abbrev pub Destination : Type 0
Destination = Option ℕ

unfoldable pub taken : Destination → Bytes → Bytes
taken none bytes = bytes
taken (some n) bytes = take n bytes

-- The test of the Docker-Content-Digest header.
unfoldable pub check_digest_header : (Bytes → Bool) → Bytes → Bytes → Result ClientError Unit
check_digest_header is_sha256 [] computed = ok tt
check_digest_header is_sha256 (c ∷ header) computed = do
  fail_if (not (is_sha256 (c ∷ header))) bad_digest_header
  fail_if (not (str_eq (c ∷ header) computed)) digest_header_mismatch

-- The tests against the descriptor that is expected.
unfoldable pub check_expected : Option Descriptor → Bytes → Bytes → Result ClientError Unit
check_expected none body computed = ok tt
check_expected (some d) body computed = do
  fail_if (not (int_eq (pos (length body)) d.size)) size_mismatch
  fail_if (not (str_eq computed d.digest)) digest_mismatch

abbrev pub content_descriptor : Option Descriptor → Bytes → Bytes → Bytes → Descriptor
content_descriptor (some d) media_type body computed = d
content_descriptor none media_type body computed = record {
  media_type = media_type;
  digest = computed;
  size = pos (length body);
  embedded = [];
  urls = [];
  artifact_type = [];
}

module _ {W : Type 0} where
  -- The body of a manifest or index, and its digest.
  unfoldable pub verify_manifest :
      Env W → Response → Option Descriptor → Bytes → ℤ → Bytes → Result ClientError Content
  verify_manifest env r expected media_type limit body = do
    fail_if (not (env.is_sha256_algorithm (env.digest_of body))) unsupported_digest
    check_digest_header env.is_sha256 (trim_space env.unicode r.digest_header) (env.digest_of body)
    check_expected expected body (env.digest_of body)
    ok (record {
      descriptor = content_descriptor expected media_type body (env.digest_of body);
      content = body;
    })

  -- fetchManifest behind the request.
  unfoldable pub read_manifest :
      Env W → Response → Option Descriptor → Bytes → ℤ → Result ClientError Content
  read_manifest env r expected media_type limit = do
    fail_if (not (r.status == 200)) status_error
    validate_identity_encoding env.unicode r
    actual ← response_media_type env.parse_media_type r
    fail_if (not (str_eq actual media_type)) wrong_media_type
    validate_content_length r.content_length expected limit
    body ← read_bounded r.body limit
    verify_manifest env r expected media_type limit body

  unfoldable pub fetch_manifest_reference :
      Env W
      → Client
      → Bytes
      → Bytes
      → Option Descriptor
      → Bytes
      → ℤ
      → Session W
      → Session W × Result ClientError Content
  fetch_manifest_reference env client repository reference expected media_type limit s =
      elim (registry_url client.base repository (lit "manifests") reference) [
        | err e ↦ (s, err e)
        | ok url ↦
            let (t, answer) = registry_get env client repository url media_type s in
            (t, answer >>= λ r. read_manifest env r expected media_type limit)
      ]

  unfoldable pub fetch_index :
      Env W → Client → Bytes → Bytes → Session W → Session W × Result ClientError Content
  fetch_index env client repository tag s =
      if not (tag_ok tag)
      then (s, err invalid_tag)
      else fetch_manifest_reference env client repository tag none image_index
          client.limits.index_bytes s

  unfoldable pub fetch_manifest :
      Env W → Client → Bytes → Descriptor → Session W → Session W × Result ClientError Content
  fetch_manifest env client repository d s =
      elim (validate_descriptor env.is_sha256 d image_manifest client.limits.manifest_bytes) [
        | err e ↦ (s, err e)
        | ok x ↦
            fetch_manifest_reference env client repository d.digest (some d) image_manifest
              client.limits.manifest_bytes s
      ]

  -- The bytes that the destination takes of those that io.Copy reads, and the verdict on them.
  unfoldable pub copy_blob :
      Env W → Descriptor → ℤ → Destination → Body → Bytes × Result ClientError Unit
  copy_blob env d limit dst b =
      let read = take (bound limit) b.content in
      let written = taken dst read in
      (
        written,
        (do
          fail_if (is_none (limited b (bound limit)) || not (length written == length read))
              read_failed
          fail_if (int_ltb limit (pos (length written))) blob_over_limit
          fail_if (not (int_eq (pos (length written)) d.size)) size_mismatch
          fail_if (not (str_eq (env.digest_of written) d.digest)) digest_mismatch),
      )

  -- The tests of the response to a blob's request.
  unfoldable pub accept_blob : Env W → Descriptor → ℤ → Response → Result ClientError Unit
  accept_blob env d limit r = do
    fail_if (not (r.status == 200)) status_error
    validate_identity_encoding env.unicode r
    validate_content_length r.content_length (some d) limit

  -- fetchBlobTo behind the request.
  unfoldable pub read_blob :
      Env W → Descriptor → ℤ → Destination → Response → Bytes × Result ClientError Unit
  read_blob env d limit dst r = elim (accept_blob env d limit r) [
    | err e ↦ ([], err e)
    | ok x ↦ copy_blob env d limit dst r.body
  ]

  -- The address of a blob whose descriptor passes the tests.
  unfoldable pub blob_url : Env W → Client → Bytes → Descriptor → ℤ → Result ClientError Url
  blob_url env client repository d limit = do
    validate_descriptor env.is_sha256 d [] limit
    registry_url client.base repository (lit "blobs") d.digest

  unfoldable pub fetch_checked_blob :
      Env W
      → Client
      → Bytes
      → Descriptor
      → ℤ
      → Destination
      → Session W
      → Session W × (Bytes × Result ClientError Unit)
  fetch_checked_blob env client repository d limit dst s =
      elim (blob_url env client repository d limit) [
        | err e ↦ (s, ([], err e))
        | ok url ↦
            let (t, answer) =
              registry_get env client repository url (lit "application/octet-stream") s in
            elim answer [ err e ↦ (t, ([], err e)) | ok r ↦ (t, read_blob env d limit dst r) ]
      ]

  -- FetchBlobTo with a destination, whose new bytes come with the result.
  unfoldable pub fetch_blob_to :
      Env W
      → Client
      → Bytes
      → Descriptor
      → Destination
      → Session W
      → Session W × (Bytes × Result ClientError Unit)
  fetch_blob_to env client repository d dst s =
      elim (validate_descriptor env.is_sha256 d [] client.limits.blob_bytes) [
        | err e ↦ (s, ([], err e))
        | ok x ↦ fetch_checked_blob env client repository d client.limits.blob_bytes dst s
      ]

  abbrev pub buffered :
      Descriptor
      → Session W × (Bytes × Result ClientError Unit)
      → Session W × Result ClientError Content
  buffered d (t, (written, verdict)) =
      (t, verdict >> ok (record { descriptor = d; content = written }))

  unfoldable pub fetch_blob :
      Env W → Client → Bytes → Descriptor → Session W → Session W × Result ClientError Content
  fetch_blob env client repository d s = buffered d (fetch_blob_to env client repository d none s)

  unfoldable pub fetch_config :
      Env W → Client → Bytes → Descriptor → Session W → Session W × Result ClientError Content
  fetch_config env client repository d s =
      elim (validate_descriptor env.is_sha256 d image_config client.limits.config_bytes) [
        | err e ↦ (s, err e)
        | ok x ↦
            buffered d
              (fetch_checked_blob env client repository d client.limits.config_bytes none s)
      ]
