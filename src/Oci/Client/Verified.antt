-- ===== src/Oci/Client/Verified.antt =====
-- What the client hands on is what the descriptor names.
use dalec_homebrew.Prelude.{
  Bool, true, false, not, ◌||◌, Option, none, some, ◌==◌, ◌≡◌, refl, sym, ap, inl, inr, arith,
  Result, ok, ◌>>=◌, length, take, bind-eq-ok, fail_if-eq-ok, Result-cases, Bool-cases,
  Option-cases,
}
use mathlib.Core.Path.{subst}
use dalec_homebrew.Prelude.Int.{ℤ, pos, negsuc, int_ltb, int_eq}
use dalec_homebrew.GoString.{Bytes, lit, str_eq, str_eq_iff}
use dalec_homebrew.GoString.Unicode.{trim_space}
use dalec_homebrew.Oci.Names.{tag_ok}
use dalec_homebrew.Oci.Client.{
  ClientError, Response, Descriptor, Body, bound, limited, validate_descriptor,
  validate_content_length, validate_identity_encoding, response_media_type, read_bounded,
  registry_url, wrong_media_type, read_failed, status_error, unsupported_digest, size_mismatch,
  blob_over_limit,
}
use dalec_homebrew.Oci.Client.Auth.{Env, Client, Session, registry_get, is_none}
use dalec_homebrew.Oci.Client.Fetch.{
  Content, image_index, image_manifest, check_digest_header, check_expected, content_descriptor,
  verify_manifest, read_manifest, fetch_manifest_reference, fetch_index, fetch_manifest, copy_blob,
  Destination, taken, read_blob, accept_blob, blob_url, fetch_checked_blob,
}

int_eq-≡ : (a b : ℤ) → int_eq a b ≡ true → a ≡ b
int_eq-≡ (pos a) (pos b) h = ground (arith, h)
int_eq-≡ (pos a) (negsuc b) h = absurd (ground (arith, h))
int_eq-≡ (negsuc a) (pos b) h = absurd (ground (arith, h))
int_eq-≡ (negsuc a) (negsuc b) h = ground (arith, h)

not-false : (b : Bool) → not b ≡ false → b ≡ true
not-false true h = refl
not-false false h = sym h

-- The bytes have the descriptor's digest and size.
abbrev pub Matches : (Bytes → Bytes) → Descriptor → Bytes → Type 0
Matches digest_of d body = (digest_of body ≡ d.digest) × (pos (length body) ≡ d.size)

check_expected-Matches :
    (digest_of : Bytes → Bytes) (d : Descriptor) (body : Bytes)
    → check_expected (some d) body (digest_of body) ≡ ok tt
    → Matches digest_of d body
unfolding check_expected
check_expected-Matches digest_of d body h =
    let (size, h1) = fail_if-eq-ok (not (int_eq (pos (length body)) d.size)) size_mismatch _ h in
    (
      ground (arith, h1, str_eq_iff (digest_of body) d.digest),
      int_eq-≡ (pos (length body)) d.size (not-false _ size),
    )

-- What is read within a limit is not longer.
read_bounded-fits :
    (b : Body) (limit : ℤ) (body : Bytes)
    → read_bounded b limit ≡ ok body
    → int_ltb limit (pos (length body)) ≡ false
unfolding read_bounded
read_bounded-fits b limit body h = elim (Option-cases (limited b (bound limit))) [
  | inl e ↦ absurd (ground (arith, h, e))
  | inr (read, e) ↦ elim (Bool-cases (int_ltb limit (pos (length read)))) [
    | inl k ↦ absurd (ground (arith, h, e, k))
    | inr k ↦
        let same : read ≡ body = ground (arith, h, e, k) in
        subst (λ x. int_ltb limit (pos (length x)) ≡ false) same k
  ]
]

module _ {W : Type 0} (env : Env W) where
  verify_manifest-inv :
      (r : Response) (expected : Option Descriptor) (media_type : Bytes) (limit : ℤ) (body : Bytes)
      (c : Content)
      → verify_manifest env r expected media_type limit body ≡ ok c
      → (check_expected expected body (env.digest_of body) ≡ ok tt)
        × (check_digest_header env.is_sha256
              (trim_space env.unicode r.digest_header)
              (env.digest_of body)
            ≡ ok tt)
        × (c ≡ record {
          descriptor = content_descriptor expected media_type body (env.digest_of body);
          content = body;
        })
  unfolding verify_manifest
  verify_manifest-inv r expected media_type limit body c h =
      let (a0, h0) =
        fail_if-eq-ok (not (env.is_sha256_algorithm (env.digest_of body))) unsupported_digest _ h in
      let (a1, e1, h1) =
        bind-eq-ok
          (check_digest_header env.is_sha256 (trim_space env.unicode r.digest_header)
            (env.digest_of body))
          _ h0 in
      let (a2, e2, h2) = bind-eq-ok (check_expected expected body (env.digest_of body)) _ h1 in
      (e2, e1, ground (arith, h2))

  -- Content within the limit, with its descriptor, that passed the tests against the expected one.
  abbrev IsVerified : Option Descriptor → Bytes → ℤ → Content → Type 0
  IsVerified expected media_type limit c =
      (int_ltb limit (pos (length c.content)) ≡ false)
      × (check_expected expected c.content (env.digest_of c.content) ≡ ok tt)
      × (c.descriptor ≡ content_descriptor expected media_type c.content (env.digest_of c.content))

  read_manifest-IsVerified :
      (r : Response) (expected : Option Descriptor) (media_type : Bytes) (limit : ℤ) (c : Content)
      → read_manifest env r expected media_type limit ≡ ok c
      → IsVerified expected media_type limit c
  unfolding read_manifest
  read_manifest-IsVerified r expected media_type limit c h =
      let (a0, h0) = fail_if-eq-ok (not (r.status == 200)) status_error _ h in
      let (a1, e1, h1) = bind-eq-ok (validate_identity_encoding env.unicode r) _ h0 in
      let (a2, e2, h2) = bind-eq-ok (response_media_type env.parse_media_type r) _ h1 in
      let (a3, h3) = fail_if-eq-ok (not (str_eq a2 media_type)) wrong_media_type _ h2 in
      let (a4, e4, h4) =
        bind-eq-ok (validate_content_length r.content_length expected limit) _ h3 in
      let (body, e5, h5) = bind-eq-ok (read_bounded r.body limit) _ h4 in
      let (checked, header, same) = verify_manifest-inv r expected media_type limit body c h5 in
      subst (IsVerified expected media_type limit) (sym same)
        (read_bounded-fits r.body limit body e5, checked, refl)

  fetch_manifest_reference-IsVerified :
      (client : Client) (repository reference : Bytes) (expected : Option Descriptor)
      (media_type : Bytes) (limit : ℤ) (s : Session W) (c : Content)
      → (fetch_manifest_reference env client repository reference expected media_type limit s).1
        ≡ ok c
      → IsVerified expected media_type limit c
  unfolding fetch_manifest_reference
  fetch_manifest_reference-IsVerified client repository reference expected media_type limit s c h =
      elim (Result-cases (registry_url client.base repository (lit "manifests") reference)) [
        | inr (e, k) ↦ absurd (ground (arith, h, k))
        | inl (url, k) ↦
            let answer = (registry_get env client repository url media_type s).1 in
            let read : (answer >>= λ r. read_manifest env r expected media_type limit) ≡ ok c =
              ground (arith, h, k) in
            let (r, e, h1) = bind-eq-ok answer _ read in
            read_manifest-IsVerified r expected media_type limit c h1
      ]

  -- A manifest that `FetchManifest` returns has the descriptor it was asked for, the descriptor's
  -- digest and size, and no more bytes than the limit for manifests.
  pub fetch_manifest-Matches :
      (client : Client) (repository : Bytes) (d : Descriptor) (s : Session W) (c : Content)
      → (fetch_manifest env client repository d s).1 ≡ ok c
      → (c.descriptor ≡ d)
        × Matches env.digest_of d c.content
        × (int_ltb client.limits.manifest_bytes (pos (length c.content)) ≡ false)
  unfolding fetch_manifest
  fetch_manifest-Matches client repository d s c h =
      elim (Result-cases
        (validate_descriptor env.is_sha256 d image_manifest client.limits.manifest_bytes)) [
          | inr (e, k) ↦ absurd (ground (arith, h, k))
          | inl (x, k) ↦
              let reached : (fetch_manifest_reference env client repository d.digest (some d)
                    image_manifest client.limits.manifest_bytes s).1
                  ≡ ok c =
                ground (arith, h, k) in
              let (fits, checked, named) =
                fetch_manifest_reference-IsVerified client repository d.digest (some d)
                  image_manifest client.limits.manifest_bytes s c reached in
              (named, check_expected-Matches env.digest_of d c.content checked, fits)
        ]

  -- An index that `FetchIndex` returns has a descriptor with the digest and the size of its bytes and
  -- the media type of an index, and no more bytes than the limit for indexes.
  pub fetch_index-Matches :
      (client : Client) (repository tag : Bytes) (s : Session W) (c : Content)
      → (fetch_index env client repository tag s).1 ≡ ok c
      → (c.descriptor.media_type ≡ image_index)
        × Matches env.digest_of c.descriptor c.content
        × (int_ltb client.limits.index_bytes (pos (length c.content)) ≡ false)
  unfolding fetch_index
  fetch_index-Matches client repository tag s c h = elim (Bool-cases (tag_ok tag)) [
    | inr k ↦ absurd (ground (arith, h, k))
    | inl k ↦
        let reached : (fetch_manifest_reference env client repository tag none image_index
              client.limits.index_bytes s).1
            ≡ ok c =
          ground (arith, h, k) in
        let (fits, checked, named) =
          fetch_manifest_reference-IsVerified client repository tag none image_index
            client.limits.index_bytes s c reached in
        (
          ap (λ d. d.media_type) named,
          (sym (ap (λ d. d.digest) named), sym (ap (λ d. d.size) named)),
          fits,
        )
  ]

  abbrev BlobFits : Descriptor → ℤ → Bytes × Result ClientError Unit → Type 0
  BlobFits d limit (written, verdict) =
      verdict ≡ ok tt
      → Matches env.digest_of d written × (int_ltb limit (pos (length written)) ≡ false)

  copy_blob-BlobFits :
      (d : Descriptor) (limit : ℤ) (dst : Destination) (b : Body)
      → BlobFits d limit (copy_blob env d limit dst b)
  unfolding copy_blob
  copy_blob-BlobFits d limit dst b h =
      let read = take (bound limit) b.content in
      let written = taken dst read in
      let (a0, h0) =
        fail_if-eq-ok (is_none (limited b (bound limit)) || not (length written == length read))
          read_failed _ h in
      let (fits, h1) = fail_if-eq-ok (int_ltb limit (pos (length written))) blob_over_limit _ h0 in
      let (size, h2) =
        fail_if-eq-ok (not (int_eq (pos (length written)) d.size)) size_mismatch _ h1 in
      (
        (
          ground (arith, h2, str_eq_iff (env.digest_of written) d.digest),
          int_eq-≡ (pos (length written)) d.size (not-false _ size),
        ),
        fits,
      )

  read_blob-BlobFits :
      (d : Descriptor) (limit : ℤ) (dst : Destination) (r : Response)
      → BlobFits d limit (read_blob env d limit dst r)
  unfolding read_blob
  read_blob-BlobFits d limit dst r h = elim (Result-cases (accept_blob env d limit r)) [
    | inr (e, k) ↦ absurd (ground (arith, h, k))
    | inl (x, k) ↦
        let same : read_blob env d limit dst r ≡ copy_blob env d limit dst r.body =
          rw (k, read_blob) refl in
        rw same (copy_blob-BlobFits d limit dst r.body (ground (arith, h, same)))
  ]

  -- When `fetchBlobTo` succeeds, the bytes that its destination took have the descriptor's digest and
  -- size, and they are no more than the limit.
  pub fetch_checked_blob-Matches :
      (client : Client) (repository : Bytes) (d : Descriptor) (limit : ℤ) (dst : Destination)
      (s : Session W)
      → (fetch_checked_blob env client repository d limit dst s).1.1 ≡ ok tt
      → Matches env.digest_of d (fetch_checked_blob env client repository d limit dst s).1.0
        × (int_ltb limit (pos (length (fetch_checked_blob env client repository d limit dst s).1.0))
            ≡ false)
  unfolding fetch_checked_blob
  fetch_checked_blob-Matches client repository d limit dst s h =
      elim (Result-cases (blob_url env client repository d limit)) [
        | inr (e, k) ↦ absurd (ground (arith, h, k))
        | inl (url, k) ↦
            let answer =
              registry_get env client repository url (lit "application/octet-stream") s in
            elim (Result-cases answer.1) [
              | inr (e, q) ↦ absurd (ground (arith, h, k, q))
              | inl (r, q) ↦
                  let same : (fetch_checked_blob env client repository d limit dst s).1
                      ≡ read_blob env d limit dst r =
                    rw (k, fetch_checked_blob, q) refl in
                  rw same (read_blob-BlobFits d limit dst r (ground (arith, h, same)))
            ]
      ]
