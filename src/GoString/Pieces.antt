-- ===== src/GoString/Pieces.antt =====
-- Cutting a string at a byte, and putting the pieces together again.
use dalec_homebrew.Prelude.{
  ℕ, suc, ◌+◌, ◌≡◌, ◌≢◌, refl, ap, [], ◌∷◌, ◌++◌, arith, ◌==◌, All, Bool-cases, inl, inr, ==_iff,
}
use dalec_homebrew.GoString.{Bytes, count, split, cut}

pub count-append : (b : ℕ) (s t : Bytes) → count b (s ++ t) ≡ count b s + count b t
unfolding count
count-append b [] t = omega arith
count-append b (c ∷ s) t = omega (arith, count-append b s t)

pub count-eq_zero :
    (b : ℕ) (P : ℕ → Type 0) (s : Bytes) → ((c : ℕ) → P c → c ≢ b) → All P s → count b s ≡ 0
unfolding count
count-eq_zero b P [] h a = refl
count-eq_zero b P (c ∷ s) h (p, a) = ground (arith, h c p, count-eq_zero b P s h a)

pub split_none : (b : ℕ) (s : Bytes) → count b s ≡ 0 → split b s ≡ s ∷ []
unfolding split count
split_none b [] h = refl
split_none b (c ∷ s) h = ground (arith, split_none b s)

pub split-append : (b : ℕ) (s t : Bytes) → count b s ≡ 0 → split b (s ++ b ∷ t) ≡ s ∷ split b t
unfolding split count
split-append b [] t h = ground arith
split-append b (c ∷ s) t h = ground (arith, split-append b s t)

pub cut-append : (b : ℕ) (s t : Bytes) → count b s ≡ 0 → cut b (s ++ b ∷ t) ≡ (s, t)
unfolding cut count
cut-append b [] t h = ground arith
cut-append b (c ∷ s) t h = ground (arith, cut-append b s t)

-- Where `s` splits at its first `b`.
pub record Pieces (b n : ℕ) (s : Bytes) : Type 0 where
  pub before : Bytes
  pub after : Bytes
  pub joined : s ≡ before ++ b ∷ after
  pub none_before : count b before ≡ 0
  pub rest_after : count b after ≡ n

pub count-Pieces : (b n : ℕ) (s : Bytes) → count b s ≡ suc n → Pieces b n s
unfolding count
count-Pieces b n [] h = absurd (omega arith)
count-Pieces b n (c ∷ s) h = elim (Bool-cases (c == b)) [
  | inl here ↦ record {
    before = [];
    after = s;
    joined = ap (λ x. x ∷ s) ((==_iff c b).0 here);
    none_before = refl;
    rest_after = ground arith;
  }
  | inr there ↦
      let p = count-Pieces b n s (ground arith) in
      record {
        before = c ∷ p.before;
        after = p.after;
        joined = ap (◌∷◌ c) p.joined;
        none_before = ground (arith, p.none_before);
        rest_after = p.rest_after;
      }
]
