-- ===== src/Oci/Client/Auth.antt =====
-- Bearer tokens and authenticated requests of internal/homebrew/oci/client.go. The HTTP transport,
-- JSON, URLs, times and package digest are the parameter `Env`; a call threads the session, which is
-- the client's two maps and the world that the transport acts on.
use dalec_homebrew.Prelude.{
  ℕ, zero, suc, ◌+◌, ◌-◌, ◌*◌, Bool, true, false, not, ◌&&◌, ◌||◌, List, [], ◌∷◌, Option, none,
  some, ◌==◌, if◌then◌else◌, Result, ok, err, ◌>>=◌, ◌>>◌, fail_if, ltb, leb,
}
use dalec_homebrew.GoString.{Bytes, lit, str_eq}
use dalec_homebrew.GoString.Unicode.{Unicode}
use dalec_homebrew.GoMap.{Map, lookup, put}
use dalec_homebrew.Oci.Challenge.{BearerChallenge, parse_bearer_challenge}
use dalec_homebrew.Oci.Client.{
  ClientError, Limits, Response, Url, second, is_empty, validate_identity_encoding, read_bounded,
  validate_bearer_token, parse_expires_in, transport_failed, status_error, invalid_realm,
  realm_downgrade, bad_token_response, bad_issued_at, bad_challenge, rejected,
}

pub data Authorization : Type 0 where
  anonymous : Authorization
  basic : Bytes → Bytes → Authorization
  bearer : Bytes → Authorization

pub record Request : Type 0 where
  pub url : Url
  pub accept : Bytes
  pub authorization : Authorization

-- The decoded answer of a token endpoint; `expires_in` is raw JSON.
pub record TokenWire : Type 0 where
  pub token : Bytes
  pub access_token : Bytes
  pub expires_in : Bytes
  pub issued_at : Bytes

-- What the code takes from elsewhere. `get` makes a request and gives none if that fails.
pub record Env (W : Type 0) : Type 0 where
  pub get : Request → W → W × Option Response
  pub now : W → ℕ
  pub parse_url : Bytes → Option Url
  pub set_query : Bytes → List (Bytes × Bytes) → Bytes
  pub decode_token : Bytes → Option TokenWire
  pub json_string : Bytes → Option Bytes
  pub json_number : Bytes → Option Bytes
  pub parse_time : Bytes → Option ℕ
  pub parse_media_type : Bytes → Option Bytes
  pub is_sha256 : Bytes → Bool
  pub is_sha256_algorithm : Bytes → Bool
  pub digest_of : Bytes → Bytes
  pub is_control : ℕ → Bool
  pub unicode : Unicode

pub record Client : Type 0 where
  pub base : Url
  pub limits : Limits
  pub username : Bytes
  pub password : Bytes

pub record TokenKey : Type 0 where
  pub challenge : BearerChallenge
  pub user : Bytes

pub record CachedToken : Type 0 where
  pub text : Bytes
  pub expires : ℕ

pub record Session (W : Type 0) : Type 0 where
  pub world : W
  pub auth_by_repo : Map BearerChallenge
  pub tokens : List (TokenKey × CachedToken)

unfoldable pub token_key_eq : TokenKey → TokenKey → Bool
token_key_eq a b =
    str_eq a.challenge.realm b.challenge.realm
    && str_eq a.challenge.service b.challenge.service
    && str_eq a.challenge.scope b.challenge.scope
    && str_eq a.user b.user

-- client.tokens[key]
unfoldable pub find_token : TokenKey → List (TokenKey × CachedToken) → Option CachedToken
find_token key [] = none
find_token key ((k, token) ∷ rest) = if token_key_eq k key then some token else find_token key rest

-- delete(client.tokens, key)
unfoldable pub delete_token :
    TokenKey → List (TokenKey × CachedToken) → List (TokenKey × CachedToken)
delete_token key [] = []
delete_token key ((k, token) ∷ rest) =
    let later = delete_token key rest in if token_key_eq k key then later else (k, token) ∷ later

-- client.tokens[key] = token
abbrev pub put_token :
    TokenKey → CachedToken → List (TokenKey × CachedToken) → List (TokenKey × CachedToken)
put_token key token tokens = (key, token) ∷ delete_token key tokens

abbrev pub is_none : {A : Type 0} → Option A → Bool
is_none none = true
is_none (some a) = false

abbrev pub is_web : Url → Bool
is_web url = str_eq url.scheme (lit "http") || str_eq url.scheme (lit "https")

-- The tests of a realm that was parsed.
unfoldable pub check_realm : Url → Url → Result ClientError Unit
check_realm base realm = do
  fail_if
      (is_empty realm.host || realm.has_user || not (is_empty realm.fragment) || not (is_web realm))
      invalid_realm
  fail_if (str_eq base.scheme (lit "https") && not (str_eq realm.scheme (lit "https")))
      realm_downgrade

abbrev pub when_set : Bytes → Bytes → List (Bytes × Bytes) → List (Bytes × Bytes)
when_set name [] rest = rest
when_set name (c ∷ s) rest = (name, c ∷ s) ∷ rest

-- When a token expires that lives for `lifetime`, or for five minutes.
unfoldable pub expiry : ℕ → ℕ → ℕ
expiry issued lifetime =
    let duration = if lifetime == 0 then 300 * second else lifetime in
    if ltb (60 * second) duration then issued + duration - 30 * second else issued + duration

-- wire.Token, or wire.AccessToken
abbrev pub wire_token : TokenWire → Bytes
wire_token wire = if is_empty wire.token then wire.access_token else wire.token

-- credentials for a request without a token
abbrev pub basic_of : Client → Authorization
basic_of client =
    if is_empty client.username then anonymous else basic client.username client.password

abbrev pub key_of : Client → BearerChallenge → TokenKey
key_of client challenge = record { challenge = challenge; user = client.username }

abbrev pub registry_request : Client → Url → Bytes → Bytes → Bool → Request
registry_request client url accept token use_basic = record {
  url = url;
  accept = accept;
  authorization =
      if not (is_empty token)
      then bearer token
      else if use_basic
      then basic_of client
      else anonymous;
}

module _ {W : Type 0} where
  -- When the token was issued, the present time if the answer does not say.
  unfoldable pub issued_time : Env W → W → Bytes → Result ClientError ℕ
  issued_time env w [] = ok (env.now w)
  issued_time env w (c ∷ s) = elim (env.parse_time (c ∷ s)) [
    | none ↦ err bad_issued_at
    | some t ↦ ok t
  ]

  unfoldable pub decode_wire : Env W → Bytes → Result ClientError TokenWire
  decode_wire env body = elim (env.decode_token body) [
    | none ↦ err bad_token_response
    | some wire ↦ ok wire
  ]

  -- The token in a response, in the world `w` behind the request.
  unfoldable pub read_token : Env W → Client → W → Response → Result ClientError CachedToken
  read_token env client w r = do
    fail_if (ltb r.status 200 || leb 300 r.status) status_error
    validate_identity_encoding env.unicode r
    body ← read_bounded r.body client.limits.token_bytes
    wire ← decode_wire env body
    validate_bearer_token env.unicode env.is_control (wire_token wire)
    lifetime ← parse_expires_in env.json_string env.json_number wire.expires_in
    issued ← issued_time env w wire.issued_at
    ok (record { text = wire_token wire; expires = expiry issued lifetime })

  abbrev pub token_request : Env W → Client → BearerChallenge → Url → Request
  token_request env client challenge realm = record {
    url = record realm {
      raw_query =
          env.set_query realm.raw_query (
            when_set (lit "service") challenge.service (when_set (lit "scope") challenge.scope []));
    };
    accept = lit "application/json";
    authorization = basic_of client;
  }

  -- A token that was read is stored.
  unfoldable pub store_token :
      TokenKey → Result ClientError CachedToken → Session W → Session W × Result ClientError Bytes
  store_token key (err e) s = (s, err e)
  store_token key (ok token) s = (record s { tokens = put_token key token s.tokens }, ok token.text)

  -- The request of a token from an endpoint that passed the tests.
  unfoldable pub request_token :
      Env W → Client → BearerChallenge → Url → Session W → Session W × Result ClientError Bytes
  request_token env client challenge realm s =
      let (w, answer) = env.get (token_request env client challenge realm) s.world in
      elim answer [
        | none ↦ (record s { world = w }, err transport_failed)
        | some r ↦
            store_token (key_of client challenge) (read_token env client w r)
              (record s { world = w })
      ]

  -- The part of `bearerToken` behind the cache.
  unfoldable pub fresh_token :
      Env W → Client → BearerChallenge → Session W → Session W × Result ClientError Bytes
  fresh_token env client challenge s = elim (env.parse_url challenge.realm) [
    | none ↦ (s, err invalid_realm)
    | some realm ↦ elim (check_realm client.base realm) [
      | err e ↦ (s, err e)
      | ok x ↦ request_token env client challenge realm s
    ]
  ]

  abbrev pub usable_token : Env W → W → Option CachedToken → Option Bytes
  usable_token env w none = none
  usable_token env w (some token) = if ltb (env.now w) token.expires then some token.text else none

  unfoldable pub bearer_token :
      Env W → Client → BearerChallenge → Bool → Session W → Session W × Result ClientError Bytes
  bearer_token env client challenge true s = fresh_token env client challenge s
  bearer_token env client challenge false s =
      elim (usable_token env s.world (find_token (key_of client challenge) s.tokens)) [
        | some text ↦ (s, ok text)
        | none ↦ fresh_token env client challenge s
      ]

  -- `challenge` is the one that the token is for, if there is one yet.
  unfoldable pub invalidate : Client → Option BearerChallenge → Bytes → Session W → Session W
  invalidate client none token s = s
  invalidate client (some challenge) token s =
      if is_empty token
      then s
      else record s { tokens = delete_token (key_of client challenge) s.tokens }

  -- The state behind a challenge: the old token is dropped and the challenge remembered.
  unfoldable pub challenged :
      Client → Bytes → Option BearerChallenge → Bytes → BearerChallenge → Session W → Session W
  challenged client repository old token challenge s =
      let t = invalidate client old token s in
      record t { auth_by_repo = put repository challenge t.auth_by_repo }

  -- The loop of doRegistryGET, with the attempts that are left.
  unfoldable pub registry_loop :
      Env W
      → Client
      → Bytes
      → Url
      → Bytes
      → ℕ
      → Option BearerChallenge
      → Bytes
      → Session W
      → Session W × Result ClientError Response
  registry_loop env client repository url accept zero old token s = (s, err rejected)
  registry_loop env client repository url accept (suc attempts) old token s =
      let (w, answer) =
        env.get (registry_request client url accept token (is_none old && is_empty token))
          s.world in
      let t : Session W = record s { world = w } in
      elim answer [
        | none ↦ (t, err transport_failed)
        | some r ↦ elim (r.status == 401) [
          | false ↦ (t, ok r)
          | true ↦ elim (parse_bearer_challenge env.unicode r.challenges) [
            | err e ↦ (t, err bad_challenge)
            | ok challenge ↦
                let (v, fetched) =
                  bearer_token env client challenge true
                    (challenged client repository old token challenge t) in
                elim fetched [
                  | err e ↦ (v, err e)
                  | ok text ↦
                      registry_loop env client repository url accept attempts (some challenge) text
                        v
                ]
          ]
        ]
      ]

  unfoldable pub registry_get :
      Env W → Client → Bytes → Url → Bytes → Session W → Session W × Result ClientError Response
  registry_get env client repository url accept s = elim (lookup repository s.auth_by_repo) [
    | none ↦ registry_loop env client repository url accept 3 none [] s
    | some challenge ↦
        let (t, fetched) = bearer_token env client challenge false s in
        elim fetched [
          | err e ↦ (t, err e)
          | ok text ↦ registry_loop env client repository url accept 3 (some challenge) text t
        ]
  ]
