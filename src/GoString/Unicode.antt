-- ===== src/GoString/Unicode.antt =====
-- Ranging over a Go string: UTF-8 decoding, and the tables of package unicode as a parameter.
use Prim.Native.Nat.{◌<◌}
use dalec_homebrew.Prelude.{
  ℕ, zero, suc, ◌+◌, ◌-◌, ◌*◌, ◌≡◌, Bool, ◌&&◌, ◌||◌, List, [], ◌∷◌, all, leb, ltb, ◌==◌,
  if◌then◌else◌, take, ◌++◌,
}
use dalec_homebrew.GoString.{Bytes}

-- The tables are Go's; the program relies on what they say of ASCII.
pub record Unicode : Type 0 where
  pub is_digit : ℕ → Bool
  pub is_letter : ℕ → Bool
  pub is_space : ℕ → Bool
  pub to_lower : ℕ → ℕ
  pub digit_ascii : (c : ℕ) → c < 128 → is_digit c ≡ (leb b'0' c && leb c b'9')
  pub letter_ascii :
      (c : ℕ) → c < 128 → is_letter c ≡ (leb b'a' c && leb c b'z' || leb b'A' c && leb c b'Z')
  pub lower_ascii :
      (c : ℕ) → c < 128 → to_lower c ≡ (if leb b'A' c && leb c b'Z' then c + 32 else c)

-- utf8.RuneError
abbrev pub rune_error : ℕ
rune_error = 0xfffd

-- A rune and its width in bytes.
abbrev Decoded : Type 0
Decoded = ℕ × ℕ

abbrev continues : ℕ → Bool
continues c = leb 0x80 c && leb c 0xbf

two : ℕ → Bytes → Decoded
two a (b ∷ r) = if continues b then ((a - 0xc0) * 64 + (b - 0x80), 2) else (rune_error, 1)
two a [] = (rune_error, 1)

-- The second byte of three or four has a narrower range behind some first bytes.
three : ℕ → Bytes → Decoded
three a (b ∷ c ∷ r) =
    if leb (if a == 0xe0 then 0xa0 else 0x80) b
      && leb b (if a == 0xed then 0x9f else 0xbf)
      && continues c
    then ((a - 0xe0) * 4096 + (b - 0x80) * 64 + (c - 0x80), 3)
    else (rune_error, 1)
three a _ = (rune_error, 1)

four : ℕ → Bytes → Decoded
four a (b ∷ c ∷ d ∷ r) =
    if leb (if a == 0xf0 then 0x90 else 0x80) b
      && leb b (if a == 0xf4 then 0x8f else 0xbf)
      && continues c
      && continues d
    then ((a - 0xf0) * 262144 + (b - 0x80) * 4096 + (c - 0x80) * 64 + (d - 0x80), 4)
    else (rune_error, 1)
four a _ = (rune_error, 1)

-- utf8.DecodeRuneInString of `a ∷ r`
unfoldable pub decode_rune : ℕ → Bytes → Decoded
unfolding two three four
decode_rune a r =
    if ltb a 0x80
    then (a, 1)
    else if leb 0xc2 a && leb a 0xdf
    then two a r
    else if leb 0xe0 a && leb a 0xef
    then three a r
    else if leb 0xf0 a && leb a 0xf4
    then four a r
    else (rune_error, 1)

-- `skip` bytes belong to the rune before.
unfoldable pub runes_from : ℕ → Bytes → List ℕ
unfolding decode_rune
runes_from skip [] = []
runes_from zero (a ∷ r) = let (rune, width) = decode_rune a r in rune ∷ runes_from (width - 1) r
runes_from (suc skip) (a ∷ r) = runes_from skip r

-- for _, r := range s
unfoldable pub runes : Bytes → List ℕ
unfolding runes_from
runes = runes_from 0

-- The bytes of a rune in UTF-8, and of a string of runes.
unfoldable pub rune_len : ℕ → ℕ
rune_len r = if ltb r 0x80 then 1 else if ltb r 0x800 then 2 else if ltb r 0x10000 then 3 else 4

unfoldable pub byte_len : List ℕ → ℕ
unfolding rune_len
byte_len [] = 0
byte_len (r ∷ rs) = rune_len r + byte_len rs

-- strings.TrimSpace(s) == ""
unfoldable pub is_blank : Unicode → Bytes → Bool
unfolding runes
is_blank u s = all u.is_space (runes s)

-- The runes of a string, each with its bytes.
segments_from : ℕ → Bytes → List (ℕ × Bytes)
unfolding decode_rune
segments_from skip [] = []
segments_from zero (a ∷ r) =
    let (rune, width) = decode_rune a r in (rune, take width (a ∷ r)) ∷ segments_from (width - 1) r
segments_from (suc skip) (a ∷ r) = segments_from skip r

trim_left : Unicode → List (ℕ × Bytes) → List (ℕ × Bytes)
trim_left u [] = []
trim_left u ((rune, text) ∷ rest) =
    let trimmed = trim_left u rest in if u.is_space rune then trimmed else (rune, text) ∷ rest

-- The bytes without the spaces at the end.
trim_right : Unicode → List (ℕ × Bytes) → Bytes
trim_right u [] = []
trim_right u ((rune, text) ∷ rest) =
    let trimmed = trim_right u rest in
    elim trimmed [ [] ↦ if u.is_space rune then [] else text | c ∷ s ↦ text ++ c ∷ s ]

-- strings.TrimSpace
unfoldable pub trim_space : Unicode → Bytes → Bytes
unfolding segments_from trim_left trim_right
trim_space u s = trim_right u (trim_left u (segments_from 0 s))
