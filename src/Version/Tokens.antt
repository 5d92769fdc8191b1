-- ===== src/Version/Tokens.antt =====
-- What `tokenize` makes of a version: a separator ends a token and leaves no other trace.
use dalec_homebrew.Prelude.{
  ℕ, ◌≡◌, ◌≢◌, refl, ap, ◌∙◌, inl, inr, ◌⊎◌, List, [], ◌∷◌, ◌++◌, arith, Bool-cases, append_assoc,
  append-nil, All, if◌then◌else◌,
}
use dalec_homebrew.GoString.Unicode.{Unicode}
use dalec_homebrew.GoString.{str_eq, str_eq_iff}
use dalec_homebrew.Version.{Token, Scan, start, flush, rune_kind, scan_rune, scan_runes, tokens_of}

-- The same scan behind the tokens `front`.
abbrev behind : List Token → Scan → Scan
behind front s = record s { out = front ++ s.out }

flush-behind : (front : List Token) (s : Scan) → flush (behind front s) ≡ behind front (flush s)
unfolding flush
flush-behind front s = elim (Bool-cases (str_eq s.buffer [])) [
  | inl e ↦ rw e
  | inr e ↦ rw (e, append_assoc)
]

scan_rune-behind :
    (front : List Token) (s : Scan) (k r : ℕ)
    → scan_rune (behind front s) k r ≡ behind front (scan_rune s k r)
unfolding scan_rune
scan_rune-behind front s k r = ground (arith, flush-behind front s)

scan_runes-behind :
    (u : Unicode) (front : List Token) (rs : List ℕ) (s : Scan)
    → scan_runes u (behind front s) rs ≡ behind front (scan_runes u s rs)
unfolding scan_runes
scan_runes-behind u front [] s = refl
scan_runes-behind u front (r ∷ rs) s =
    rw (scan_rune-behind front s (rune_kind u r) r)
      (scan_runes-behind u front rs (scan_rune s (rune_kind u r) r))

scan_runes-append :
    (u : Unicode) (s : Scan) (xs ys : List ℕ)
    → scan_runes u s (xs ++ ys) ≡ scan_runes u (scan_runes u s xs) ys
unfolding scan_runes
scan_runes-append u s [] ys = refl
scan_runes-append u s (x ∷ xs) ys = scan_runes-append u (scan_rune s (rune_kind u x) x) xs ys

flush-start : (s : Scan) → record (flush s) { kind = 0 } ≡ behind (flush s).out start
unfolding flush str_eq
flush-start s = ground (arith, str_eq_iff s.buffer [], append-nil (flush s).out)

scan_rune_separator : (s : Scan) (r : ℕ) → scan_rune s 0 r ≡ behind (flush s).out start
unfolding scan_rune
scan_rune_separator s r = flush-start s

scan_separator :
    (u : Unicode) (s : Scan) (ys : List ℕ) (separator : ℕ)
    → rune_kind u separator ≡ 0
    → scan_runes u s (separator ∷ ys) ≡ behind (flush s).out (scan_runes u start ys)
unfolding scan_runes
scan_separator u s ys separator h = rw h (
    ap (λ t. scan_runes u t ys) (scan_rune_separator s separator)
    ∙ scan_runes-behind u (flush s).out ys start)

-- A separator splits a version into two that are tokenized on their own.
pub tokens_of-append :
    (u : Unicode) (xs ys : List ℕ) (separator : ℕ)
    → rune_kind u separator ≡ 0
    → tokens_of u (xs ++ separator ∷ ys) ≡ tokens_of u xs ++ tokens_of u ys
unfolding tokens_of
tokens_of-append u xs ys separator h =
    let s = scan_runes u start xs in
    ap (λ t. (flush t).out)
      (scan_runes-append u start xs (separator ∷ ys) ∙ scan_separator u s ys separator h)
    ∙ ap (λ t. t.out) (flush-behind (flush s).out (scan_runes u start ys))

-- A run of digits or a run of letters, and never empty.
pub record IsRun (u : Unicode) (t : Token) : Type 0 where
  pub nonempty : t.value ≢ []
  pub homogeneous : All (λ r. rune_kind u r ≡ (if t.numeric then 1 else 2)) t.value

record Inv (u : Unicode) (s : Scan) : Type 0 where
  runs : All (IsRun u) s.out
  pending : All (λ r. rune_kind u r ≡ s.kind) s.buffer
  kinds : (s.kind ≡ 0) ⊎ (s.kind ≡ 1) ⊎ (s.kind ≡ 2)
  idle : s.kind ≡ 0 → s.buffer ≡ []

abbrev OfKind : Unicode → ℕ → List ℕ → Type 0
OfKind u k = All (λ r. rune_kind u r ≡ k)
