-- ===== src/Oci/Challenge/RoundTrip.antt =====
-- parseAuthParams reads back printed parameters.
use dalec_homebrew.Prelude.{
  ℕ, zero, suc, ◌≤◌, ◌<◌, ◌≡◌, refl, sym, ◌∙◌, ap, Bool, true, false, [], ◌∷◌, ◌++◌, append_assoc,
  append-nil, none, some, ok, arith, length, length-append, All, Bool-cases, ◌⊎◌, inl, inr, map,
  ◌==◌,
}
use mathlib.Core.Path.{subst}
use dalec_homebrew.GoString.{Bytes, contains_byte, str_eq, str_eq_iff}
use dalec_homebrew.GoMap.{Map, has, put, lookup}
use dalec_homebrew.Oci.Challenge.{
  is_auth_token_char, ascii_lower, is_separator, span, quoted, parse_value, value_round, key_round,
  token_round, param_round, param_loop, parse_auth_params,
}

-- A value in quotes, with a backslash before each quote and backslash.
unfoldable pub escape : Bytes → Bytes
escape [] = []
escape (c ∷ s) = elim (c == b'\\') [
  | true ↦ b'\\' ∷ c ∷ escape s
  | false ↦ elim (c == b'"') [ true ↦ b'\\' ∷ c ∷ escape s | false ↦ c ∷ escape s ]
]

-- A parameter behind `before`, and with `rest` behind it.
abbrev pub print_param : Bytes → Bytes → Bytes → Bytes
print_param key text rest = key ++ (b'=' ∷ b'"' ∷ (escape text ++ (b'"' ∷ rest)))

abbrev pub print_tail : Map Bytes → Bytes
print_tail [] = []
print_tail ((key, text) ∷ ps) = b',' ∷ b' ' ∷ print_param key text (print_tail ps)

-- Parameters with a comma and a space between them.
abbrev pub print_params : Map Bytes → Bytes
print_params [] = []
print_params ((key, text) ∷ ps) = print_param key text (print_tail ps)

-- A name in lower case.
abbrev pub IsKey : Bytes → Type 0
IsKey [] = ⊥
IsKey (c ∷ key) =
    All (λ d. is_auth_token_char d ≡ true) (c ∷ key) × (map ascii_lower (c ∷ key) ≡ c ∷ key)

-- No name stands twice.
abbrev pub HasDistinctKeys : Map Bytes → Type 0
HasDistinctKeys [] = Unit
HasDistinctKeys ((key, text) ∷ ps) = (lookup key ps ≡ none) × HasDistinctKeys ps

span-append :
    (p : ℕ → Bool) (xs : Bytes) (c : ℕ) (r : Bytes)
    → All (λ d. p d ≡ true) xs
    → p c ≡ false
    → span p (xs ++ c ∷ r) ≡ (xs, c ∷ r)
unfolding span
span-append p [] c r h e = rw e refl
span-append p (x ∷ xs) c r h e = rw (h.0, span-append p xs c r h.1 e) refl

quoted-escape : (s r : Bytes) → quoted false (escape s ++ (b'"' ∷ r)) ≡ ok (s, r)
unfolding quoted escape
quoted-escape [] r = refl
quoted-escape (c ∷ s) r = elim (Bool-cases (c == b'\\')) [
  | inl e ↦ rw (e, escape, quoted-escape s r) refl
  | inr e ↦ elim (Bool-cases (c == b'"')) [
    | inl k ↦ rw (e, k, escape, quoted-escape s r) refl
    | inr k ↦ rw (e, k, escape) (rw (e, k, quoted, quoted-escape s r) refl)
  ]
]

put-fresh :
    (key text : Bytes) (m : Map Bytes)
    → lookup key m ≡ none
    → put key text m ≡ m ++ (key, text) ∷ []
unfolding put lookup
put-fresh key text [] h = refl
put-fresh key text ((j, v) ∷ m) h = elim (Bool-cases (str_eq j key)) [
  | inl e ↦ absurd (ground (arith, e, h))
  | inr e ↦ ground (arith, e, put-fresh key text m (ground (arith, e, h)))
]

lookup-append-none :
    (j key text : Bytes) (m ps : Map Bytes)
    → lookup j (m ++ (key, text) ∷ ps) ≡ none
    → str_eq key j ≡ false
unfolding lookup
lookup-append-none j key text [] ps h = ground (arith, h)
lookup-append-none j key text ((i, v) ∷ m) ps h =
    lookup-append-none j key text m ps (ground (arith, h))

HasDistinctKeys-fresh :
    (key text : Bytes) (m ps : Map Bytes)
    → HasDistinctKeys (m ++ (key, text) ∷ ps)
    → lookup key m ≡ none
unfolding lookup
HasDistinctKeys-fresh key text [] ps h = refl
HasDistinctKeys-fresh key text ((j, v) ∷ m) ps h = ground (
  arith,
  lookup-append-none j key text m ps h.0,
  str_eq_iff j key,
  str_eq_iff key j,
  HasDistinctKeys-fresh key text m ps h.1,
)

-- A separator is no byte of a name.
token-not-separator : (c : ℕ) → is_auth_token_char c ≡ true → is_separator c ≡ false
unfolding is_auth_token_char contains_byte
token-not-separator c h = ground (arith, h)

-- What stands before a parameter: nothing, or a comma and a space.
abbrev IsGap : Bytes → Type 0
IsGap gap = (gap ≡ []) ⊎ (gap ≡ b',' ∷ b' ' ∷ [])

span-gap :
    (gap : Bytes) (c : ℕ) (r : Bytes)
    → IsGap gap
    → is_separator c ≡ false
    → (span is_separator (gap ++ c ∷ r)).1 ≡ c ∷ r
unfolding span
span-gap gap c r (inl e) h = rw (e, h) refl
span-gap gap c r (inr e) h = rw (e, h) refl

value_round-print :
    (key text rest : Bytes) (params : Map Bytes)
    → lookup key params ≡ none
    → value_round key (b'=' ∷ b'"' ∷ (escape text ++ (b'"' ∷ rest))) params
      ≡ ok (some rest, put key text params)
unfolding value_round span parse_value
value_round-print key text rest params h =
    let unseen : has key params ≡ false = rw (has, h) refl in
    rw (quoted-escape text rest, unseen) refl

key_round-print :
    (key text rest : Bytes) (params : Map Bytes)
    → IsKey key
    → lookup key params ≡ none
    → key_round key (b'=' ∷ b'"' ∷ (escape text ++ (b'"' ∷ rest))) params
      ≡ ok (some rest, put key text params)
unfolding key_round span
key_round-print [] text rest params v h = absurd v
key_round-print (c ∷ key) text rest params v h =
    rw (v.1, value_round-print (c ∷ key) text rest params h) refl

token_round-print :
    (key text rest : Bytes) (params : Map Bytes)
    → IsKey key
    → lookup key params ≡ none
    → token_round (print_param key text rest) params ≡ ok (some rest, put key text params)
unfolding token_round is_auth_token_char contains_byte
token_round-print [] text rest params v h = absurd v
token_round-print (c ∷ key) text rest params v h =
    rw
      (span-append is_auth_token_char (c ∷ key) b'=' (b'"' ∷ (escape text ++ (b'"' ∷ rest))) v.0
        refl)
      (key_round-print (c ∷ key) text rest params v h)

param_round-print :
    (gap key text rest : Bytes) (params : Map Bytes)
    → IsGap gap
    → IsKey key
    → lookup key params ≡ none
    → param_round (gap ++ print_param key text rest) params ≡ ok (some rest, put key text params)
unfolding param_round
param_round-print gap [] text rest params g v h = absurd v
param_round-print gap (c ∷ key) text rest params g v h =
    rw
      (span-gap gap c (key ++ (b'=' ∷ b'"' ∷ (escape text ++ (b'"' ∷ rest)))) g
        (token-not-separator c v.0.0))
      (token_round-print (c ∷ key) text rest params v h)

param_loop-print_tail :
    (f : ℕ) (ps params : Map Bytes)
    → length ps < f
    → All (λ (key, text). IsKey key) ps
    → HasDistinctKeys (params ++ ps)
    → param_loop f (print_tail ps) params ≡ ok (params ++ ps)
unfolding param_loop
param_loop-print_tail zero ps params l v d = absurd (omega (arith, l))
param_loop-print_tail (suc f) [] params l v d =
    unfold param_round token_round span in rw (append-nil params) refl
param_loop-print_tail (suc f) ((key, text) ∷ ps) params l v d =
    let fresh : lookup key params ≡ none = HasDistinctKeys-fresh key text params ps d in
    let moved : (params ++ (key, text) ∷ []) ++ ps ≡ params ++ (key, text) ∷ ps =
      append_assoc params ((key, text) ∷ []) ps in
    rw
      (
        param_round-print (b',' ∷ b' ' ∷ []) key text (print_tail ps) params (inr refl) v.0 fresh,
        put-fresh key text params fresh,
      )
      (param_loop-print_tail f ps (params ++ (key, text) ∷ []) (omega (arith, l)) v.1
          (subst HasDistinctKeys (sym moved) d)
        ∙ ap ok moved)

length-print_param : (key text rest : Bytes) → length rest < length (print_param key text rest)
length-print_param key text rest = omega (
  arith,
  length-append key (b'=' ∷ b'"' ∷ (escape text ++ (b'"' ∷ rest))),
  length-append (escape text) (b'"' ∷ rest),
)

length-print_tail : (ps : Map Bytes) → length ps ≤ length (print_tail ps)
length-print_tail [] = omega arith
length-print_tail ((key, text) ∷ ps) =
    omega (arith, length-print_param key text (print_tail ps), length-print_tail ps)

-- `parseAuthParams` reads parameters printed as a name, an equal sign and the quoted value, with a
-- comma and a space between them, when the names are distinct tokens in lower case.
pub parse_auth_params-print_params :
    (ps : Map Bytes)
    → All (λ (key, text). IsKey key) ps
    → HasDistinctKeys ps
    → parse_auth_params (print_params ps) ≡ ok ps
unfolding parse_auth_params param_loop put
parse_auth_params-print_params [] v d = unfold param_round token_round span in refl
parse_auth_params-print_params ((key, text) ∷ ps) v d =
    let enough : length ps < length (print_params ((key, text) ∷ ps)) =
      omega (arith, length-print_param key text (print_tail ps), length-print_tail ps) in
    rw (param_round-print [] key text (print_tail ps) [] (inl refl) v.0 (unfold lookup in refl)) (
      param_loop-print_tail (length (print_params ((key, text) ∷ ps))) ps ((key, text) ∷ []) enough
        v.1 d)
