-- ===== src/Oci/Client/Requests.antt =====
-- Which requests the client makes, and how many.
use dalec_homebrew.Prelude.{
  ℕ, zero, suc, ◌+◌, ◌*◌, ◌≤◌, Bool, true, false, not, ◌&&◌, ◌||◌, [], Option, none, some, ◌==◌,
  ◌≡◌, refl, sym, ◌∙◌, ap, inl, inr, arith, Result, ok, err, fail_if-eq-ok, Result-cases,
  Bool-cases, Option-cases, all,
}
use mathlib.Core.Path.{subst}
use dalec_homebrew.Prelude.Int.{ℤ}
use dalec_homebrew.GoString.{Bytes, lit, str_eq_iff}
use dalec_homebrew.GoMap.{lookup}
use dalec_homebrew.Oci.Names.{validate_repository}
use dalec_homebrew.Oci.Challenge.{BearerChallenge, parse_bearer_challenge}
use dalec_homebrew.Oci.Client.{
  ClientError, Descriptor, Url, is_empty, registry_url, at_reference, is_registry_kind,
  reference_byte, invalid_realm,
}
use dalec_homebrew.Oci.Client.Auth.{
  Env, Client, Session, Request, Authorization, bearer, CachedToken, TokenKey, basic_of, key_of,
  token_request, registry_request, is_web, is_none, check_realm, store_token, read_token,
  request_token, fresh_token, find_token, usable_token, bearer_token, invalidate, challenged,
  registry_loop, registry_get,
}
use dalec_homebrew.Oci.Client.Fetch.{fetch_manifest_reference}

-- `n` requests, all with the property `P`, lead from the one world to the other.
pub data Requests {W : Type 0} (env : Env W) (P : Request → Type 0) : ℕ → W → W → Type 0 where
  stay : {w : W} → Requests env P 0 w w
  make :
      {n : ℕ} {w v : W} (r : Request)
      → P r
      → Requests env P n (env.get r w).0 v
      → Requests env P (suc n) w v

-- Only the registry gets a token.
abbrev pub TokenGoesTo : Bytes → Authorization → Bytes → Type 0
TokenGoesTo registry (bearer token) host = host ≡ registry
TokenGoesTo registry _ host = Unit

-- A request over HTTPS.
abbrev pub IsProtected : Url → Request → Type 0
IsProtected base r = (r.url.scheme ≡ lit "https") × TokenGoesTo base.host r.authorization r.url.host

module _ {W : Type 0} (env : Env W) (client : Client) where
  -- At most `k` protected requests lead from the one world to the other.
  abbrev pub AtMost : ℕ → W → W → Type 0
  AtMost k w v = (n : ℕ) × (n ≤ k) × Requests env (IsProtected client.base) n w v

  Requests-append :
      {n m : ℕ} {a b c : W}
      → Requests env (IsProtected client.base) n a b
      → Requests env (IsProtected client.base) m b c
      → (l : ℕ) × (l ≡ n + m) × Requests env (IsProtected client.base) l a c
  Requests-append {m = m} stay q = (m, omega arith, q)
  Requests-append (make r p h) q =
      let (l, e, t) = Requests-append h q in (suc l, omega (arith, e), make r p t)

  AtMost-append : (k j : ℕ) {a b c : W} → AtMost k a b → AtMost j b c → AtMost (k + j) a c
  AtMost-append k j (n, le, h) (m, le', q) =
      let (l, e, t) = Requests-append h q in (l, omega (arith, e, le, le'), t)

  AtMost-mono : (k j : ℕ) {a b : W} → k ≤ j → AtMost k a b → AtMost j a b
  AtMost-mono k j l (n, le, h) = (n, omega (arith, le, l), h)

  nothing : (k : ℕ) (w : W) → AtMost k w w
  nothing k w = (0, omega arith, stay)

  once :
      (k : ℕ) (r : Request) (w : W) → IsProtected client.base r → AtMost (suc k) w (env.get r w).0
  once k r w p = (1, omega arith, make r p stay)

  check_realm-https :
      (realm : Url)
      → client.base.scheme ≡ lit "https"
      → check_realm client.base realm ≡ ok tt
      → realm.scheme ≡ lit "https"
  unfolding check_realm
  check_realm-https realm secure h =
      let (a, h1) =
        fail_if-eq-ok
          (is_empty realm.host
            || realm.has_user
            || not (is_empty realm.fragment)
            || not (is_web realm))
          invalid_realm _ h in
      ground (
        arith,
        h1,
        secure,
        str_eq_iff client.base.scheme (lit "https"),
        str_eq_iff realm.scheme (lit "https"),
      )

  store_token_world :
      (key : TokenKey) (m : Result ClientError CachedToken) (s : Session W)
      → (store_token key m s).0.world ≡ s.world
  unfolding store_token
  store_token_world key (ok token) s = refl
  store_token_world key (err e) s = refl

  basic_of-TokenGoesTo : (host : Bytes) → TokenGoesTo client.base.host (basic_of client) host
  basic_of-TokenGoesTo host = elim (Bool-cases (is_empty client.username)) [
    | inl e ↦ rw (e, basic_of, TokenGoesTo) tt
    | inr e ↦ rw (e, basic_of, TokenGoesTo) tt
  ]

  request_token-AtMost :
      (challenge : BearerChallenge) (realm : Url) (s : Session W)
      → realm.scheme ≡ lit "https"
      → AtMost 1 s.world (request_token env client challenge realm s).0.world
  unfolding request_token
  request_token-AtMost challenge realm s secure =
      let r = token_request env client challenge realm in
      let sent = once 0 r s.world (secure, basic_of-TokenGoesTo realm.host) in
      elim (Option-cases (env.get r s.world).1) [
        | inl e ↦ rw (e, request_token) sent
        | inr (answer, e) ↦
            rw
              (
                e,
                request_token,
                store_token_world (key_of client challenge)
                    (read_token env client (env.get r s.world).0 answer)
                    (record s { world = (env.get r s.world).0 }),
              )
              sent
      ]

  fresh_token-AtMost :
      (challenge : BearerChallenge) (s : Session W)
      → client.base.scheme ≡ lit "https"
      → AtMost 1 s.world (fresh_token env client challenge s).0.world
  unfolding fresh_token
  fresh_token-AtMost challenge s secure = elim (Option-cases (env.parse_url challenge.realm)) [
    | inl e ↦ rw (e, fresh_token) (nothing 1 s.world)
    | inr (realm, e) ↦ elim (Result-cases (check_realm client.base realm)) [
      | inr (x, k) ↦ rw (e, fresh_token, k) (nothing 1 s.world)
      | inl (x, k) ↦
          rw (e, fresh_token, k)
            (request_token-AtMost challenge realm s (check_realm-https realm secure k))
    ]
  ]

  bearer_token-AtMost :
      (challenge : BearerChallenge) (force : Bool) (s : Session W)
      → client.base.scheme ≡ lit "https"
      → AtMost 1 s.world (bearer_token env client challenge force s).0.world
  unfolding bearer_token
  bearer_token-AtMost challenge true s secure = fresh_token-AtMost challenge s secure
  bearer_token-AtMost challenge false s secure =
      elim (Option-cases
        (usable_token env s.world (find_token (key_of client challenge) s.tokens))) [
          | inl e ↦ rw (e, bearer_token) (fresh_token-AtMost challenge s secure)
          | inr (text, e) ↦ rw (e, bearer_token) (nothing 1 s.world)
        ]

  challenged_world :
      (repository : Bytes) (old : Option BearerChallenge) (token : Bytes)
      (challenge : BearerChallenge) (s : Session W)
      → (challenged client repository old token challenge s).world ≡ s.world
  unfolding challenged invalidate
  challenged_world repository none token challenge s = refl
  challenged_world repository (some c) token challenge s = elim (Bool-cases (is_empty token)) [
    | inl e ↦ rw (e, challenged, invalidate) refl
    | inr e ↦ rw (e, challenged, invalidate) refl
  ]

  registry_request-IsProtected :
      (url : Url) (accept token : Bytes) (use_basic : Bool)
      → url.scheme ≡ lit "https"
      → url.host ≡ client.base.host
      → IsProtected client.base (registry_request client url accept token use_basic)
  registry_request-IsProtected url accept token use_basic secure home = (
    secure,
    elim (Bool-cases (is_empty token)) [
      | inr e ↦ rw (e, TokenGoesTo) home
      | inl e ↦ elim (Bool-cases use_basic) [
        | inl k ↦ rw (e, k) (basic_of-TokenGoesTo url.host)
        | inr k ↦ rw (e, k) tt
      ]
    ],
  )

  registry_loop-AtMost :
      (repository : Bytes) (url : Url) (accept : Bytes) (attempts : ℕ)
      (old : Option BearerChallenge) (token : Bytes) (s : Session W)
      → client.base.scheme ≡ lit "https"
      → url.scheme ≡ lit "https"
      → url.host ≡ client.base.host
      → AtMost
          (attempts * 2)
          s.world
          (registry_loop env client repository url accept attempts old token s).0.world
  unfolding registry_loop
  registry_loop-AtMost repository url accept zero old token s secure over home = nothing _ s.world
  registry_loop-AtMost repository url accept (suc attempts) old token s secure over home =
      let r = registry_request client url accept token (is_none old && is_empty token) in
      let w = (env.get r s.world).0 in
      let sent : AtMost 1 s.world w =
        once 0 r s.world (registry_request-IsProtected url accept token _ over home) in
      let enough : AtMost (suc attempts * 2) s.world w =
        AtMost-mono 1 (suc attempts * 2) (omega arith) sent in
      elim (Option-cases (env.get r s.world).1) [
        | inl e ↦ rw (e, registry_loop) enough
        | inr (answer, e) ↦ elim (Bool-cases (answer.status == 401)) [
          | inr k ↦ rw (e, registry_loop, k) enough
          | inl k ↦ elim (Result-cases (parse_bearer_challenge env.unicode answer.challenges)) [
            | inr (x, q) ↦ rw (e, registry_loop, k, q) enough
            | inl (challenge, q) ↦
                let c = challenged client repository old token challenge (record s { world = w }) in
                let v = (bearer_token env client challenge true c).0 in
                let unmoved : c.world ≡ w =
                  challenged_world repository old token challenge (record s { world = w }) in
                let second : AtMost 1 w v.world =
                  subst (λ x. AtMost 1 x v.world) unmoved
                    (bearer_token-AtMost challenge true c secure) in
                let both : AtMost 2 s.world v.world = AtMost-append 1 1 sent second in
                elim (Result-cases (bearer_token env client challenge true c).1) [
                  | inr (x, z) ↦
                      rw (e, registry_loop, k, q, z)
                        (AtMost-mono 2 (suc attempts * 2) (omega arith) both)
                  | inl (text, z) ↦
                      let rest =
                        registry_loop-AtMost repository url accept attempts (some challenge) text v
                          secure over home in
                      rw (e, registry_loop, k, q, z)
                        (AtMost-mono (2 + attempts * 2) (suc attempts * 2) (omega arith)
                          (AtMost-append 2 (attempts * 2) both rest))
                ]
          ]
        ]
      ]

  registry_get-AtMost :
      (repository : Bytes) (url : Url) (accept : Bytes) (s : Session W)
      → client.base.scheme ≡ lit "https"
      → url.scheme ≡ lit "https"
      → url.host ≡ client.base.host
      → AtMost 7 s.world (registry_get env client repository url accept s).0.world
  unfolding registry_get
  registry_get-AtMost repository url accept s secure over home =
      elim (Option-cases (lookup repository s.auth_by_repo)) [
        | inl e ↦
            rw (e, registry_get)
              (AtMost-mono 6 7 (omega arith)
                (registry_loop-AtMost repository url accept 3 none [] s secure over home))
        | inr (challenge, e) ↦
            let t = (bearer_token env client challenge false s).0 in
            let first = bearer_token-AtMost challenge false s secure in
            elim (Result-cases (bearer_token env client challenge false s).1) [
              | inr (x, z) ↦ rw (e, registry_get, z) (AtMost-mono 1 7 (omega arith) first)
              | inl (text, z) ↦
                  rw (e, registry_get, z)
                    (AtMost-append 1 6 first (
                      registry_loop-AtMost repository url accept 3 (some challenge) text t secure
                        over home))
            ]
      ]

  registry_url-origin :
      (repository kind reference : Bytes) (url : Url)
      → registry_url client.base repository kind reference ≡ ok url
      → (url.scheme ≡ client.base.scheme) × (url.host ≡ client.base.host)
  unfolding registry_url
  registry_url-origin repository kind reference url h =
      elim (Result-cases (validate_repository repository)) [
        | inr (x, e) ↦ absurd (ground (arith, h, e))
        | inl (x, e) ↦ elim (Bool-cases (is_registry_kind kind)) [
          | inr k ↦ absurd (ground (arith, h, e, k))
          | inl k ↦ elim (Bool-cases (not (all reference_byte reference) || is_empty reference)) [
            | inl q ↦ absurd (ground (arith, h, e, k, q))
            | inr q ↦
                let same : at_reference client.base repository kind reference ≡ url =
                  ground (arith, h, e, k, q) in
                (sym (ap (λ u. u.scheme) same), sym (ap (λ u. u.host) same))
          ]
        ]
      ]

  -- With an HTTPS registry, `fetchManifest`, which `FetchIndex` and `FetchManifest` end in, calls the
  -- HTTP client at most seven times, each time with an HTTPS address, and with a token only for the
  -- registry's host.
  pub fetch_manifest_reference-AtMost :
      (repository reference : Bytes) (expected : Option Descriptor) (media_type : Bytes) (limit : ℤ)
      (s : Session W)
      → client.base.scheme ≡ lit "https"
      → AtMost 7 s.world
          (fetch_manifest_reference env client repository reference expected media_type limit
            s).0.world
  unfolding fetch_manifest_reference
  fetch_manifest_reference-AtMost repository reference expected media_type limit s secure =
      elim (Result-cases (registry_url client.base repository (lit "manifests") reference)) [
        | inr (x, e) ↦ rw (e, fetch_manifest_reference) (nothing 7 s.world)
        | inl (url, e) ↦
            let (over, home) = registry_url-origin repository (lit "manifests") reference url e in
            rw (e, fetch_manifest_reference)
              (registry_get-AtMost repository url media_type s secure (over ∙ secure) home)
      ]
