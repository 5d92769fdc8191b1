-- ===== src/FormulaId/Valid.antt =====
-- What a canonical tap or Formula identity is, said without the loops and early returns of
-- internal/homebrew/formulaid/formulaid.go.
use dalec_homebrew.Prelude.{ℕ, ◌≤◌, ◌≡◌, ◌⊎◌, [], ◌∷◌, length, All}
use dalec_homebrew.GoString.{Bytes, count}
use dalec_homebrew.FormulaId.{Tap, FormulaId}

abbrev pub LowerAlphaNumeric : ℕ → Type 0
LowerAlphaNumeric c = (b'a' ≤ c) × (c ≤ b'z') ⊎ (b'0' ≤ c) × (c ≤ b'9')

abbrev pub StartsWith : (ℕ → Type 0) → Bytes → Type 0
StartsWith P [] = ⊥
StartsWith P (c ∷ cs) = P c

abbrev pub EndsWith : (ℕ → Type 0) → Bytes → Type 0
EndsWith P [] = ⊥
EndsWith P (c ∷ []) = P c
EndsWith P (c ∷ d ∷ cs) = EndsWith P (d ∷ cs)

-- No two hyphens stand side by side.
abbrev pub SingleHyphens : Bytes → Type 0
SingleHyphens [] = Unit
SingleHyphens (c ∷ cs) = ((c ≡ b'-') → ¬ StartsWith (λ d. d ≡ b'-') cs) × SingleHyphens cs

pub record IsOwner (s : Bytes) : Type 0 where
  pub short : length s ≤ 39
  pub first : StartsWith LowerAlphaNumeric s
  pub last : EndsWith LowerAlphaNumeric s
  pub charset : All (λ c. LowerAlphaNumeric c ⊎ (c ≡ b'-')) s
  pub single : SingleHyphens s

abbrev pub TapByte : ℕ → Type 0
TapByte c = LowerAlphaNumeric c ⊎ (c ≡ b'.') ⊎ (c ≡ b'_') ⊎ (c ≡ b'-')

pub record IsTapName (s : Bytes) : Type 0 where
  pub short : length s ≤ 91
  pub first : StartsWith LowerAlphaNumeric s
  pub charset : All TapByte s

abbrev pub FormulaByte : ℕ → Type 0
FormulaByte c = LowerAlphaNumeric c ⊎ (c ≡ b'+') ⊎ (c ≡ b'_') ⊎ (c ≡ b'.') ⊎ (c ≡ b'@') ⊎ (c ≡ b'-')

pub record IsFormulaName (s : Bytes) : Type 0 where
  pub short : length s ≤ 252
  pub first : StartsWith LowerAlphaNumeric s
  pub charset : All FormulaByte s
  pub one_version : count b'@' s ≤ 1
  pub named_version : ¬ EndsWith (λ c. c ≡ b'@') s

pub record IsTap (t : Tap) : Type 0 where
  pub owner : IsOwner t.owner
  pub name : IsTapName t.name

pub record IsFormulaId (id : FormulaId) : Type 0 where
  pub tap : IsTap id.tap
  pub name : IsFormulaName id.name
