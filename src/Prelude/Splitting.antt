-- ===== src/Prelude/Splitting.antt =====
-- Splitting a text at a separator, and what the parts say about the text.
use yuv_lightning_ldk_sample.Prelude.Tests.{Bool-cases}
use yuv_lightning_ldk_sample.Prelude.{
  ℕ, List, ◌≡◌, ◌∷◌, All, ◌==◌, ◌++◌, [], none, ◌∙◌, refl, false, true, inl, sym, arith, some, ap,
  inr, ==_iff, subst,
}
use yuv_lightning_ldk_sample.Prelude.Text.{rsplit_once, split, split_once, Bytes, Lacks, push_front}

pub split-Lacks : (c : ℕ) (s : Bytes) → Lacks c s → split c s ≡ s ∷ []
unfolding split
split-Lacks c [] h = refl
split-Lacks c (x ∷ s) h =
    let other : (x == c) ≡ false = ground (arith, h.0) in rw (other, split-Lacks c s h.1)

pub split-append : (c : ℕ) (a b : Bytes) → Lacks c a → split c (a ++ c ∷ b) ≡ a ∷ split c b
unfolding split
split-append c [] b h = let same : (c == c) ≡ true = ground arith in rw same
split-append c (x ∷ a) b h =
    let other : (x == c) ≡ false = ground (arith, h.0) in rw (other, split-append c a b h.1)

pub split-pair : (c : ℕ) (a b : Bytes) → Lacks c a → Lacks c b → split c (a ++ c ∷ b) ≡ a ∷ b ∷ []
split-pair c a b ha hb = split-append c a b ha ∙ ap (λ ps. a ∷ ps) (split-Lacks c b hb)

-- the parts with the separator between them
abbrev joined : ℕ → List Bytes → Bytes
joined c [] = []
joined c (p ∷ []) = p
joined c (p ∷ q ∷ ps) = p ++ c ∷ joined c (q ∷ ps)

joined-push_front :
    (c x : ℕ) (p : Bytes) (ps : List Bytes)
    → joined c (push_front x (p ∷ ps)) ≡ x ∷ joined c (p ∷ ps)
joined-push_front c x p [] = refl
joined-push_front c x p (q ∷ ps) = refl

split_cons : (c : ℕ) (s : Bytes) → (p : Bytes) × (ps : List Bytes) × (split c s ≡ p ∷ ps)
unfolding split
split_cons c [] = ([], [], refl)
split_cons c (x ∷ s) =
    let (p, ps, e) = split_cons c s in
    elim (Bool-cases (x == c)) [
      | inl same ↦ ([], split c s, rw same)
      | inr other ↦ (x ∷ p, ps, rw (other, e))
    ]

joined-split : (c : ℕ) (s : Bytes) → joined c (split c s) ≡ s
unfolding split
joined-split c [] = refl
joined-split c (x ∷ s) =
    let (p, ps, e) = split_cons c s in
    let rest = joined-split c s in
    elim (Bool-cases (x == c)) [
      | inl same ↦
          rw (same, e)
            (let xc : x ≡ c = (==_iff x c).0 same in
              let whole : joined c (p ∷ ps) ≡ s = rw e at rest in cc)
      | inr other ↦ rw (other, e, joined-push_front) (ap (λ t. x ∷ t) (rw e at rest))
    ]

split-All : (c : ℕ) (s : Bytes) → All (Lacks c) (split c s)
unfolding split
split-All c [] = (tt, tt)
split-All c (x ∷ s) =
    let (p, ps, e) = split_cons c s in
    let rest = split-All c s in
    elim (Bool-cases (x == c)) [
      | inl same ↦ rw same (tt, rest)
      | inr other ↦
          rw (other, e)
            (let parts : All (Lacks c) (p ∷ ps) = rw e at rest in
              ((ground (arith, ==_iff x c), parts.0), parts.1))
    ]

pub split_pair_sound :
    (c : ℕ) (s a b : Bytes) → split c s ≡ a ∷ b ∷ [] → (s ≡ a ++ c ∷ b) × Lacks c a × Lacks c b
split_pair_sound c s a b e =
    let whole : joined c (a ∷ b ∷ []) ≡ s = subst (λ ps. joined c ps ≡ s) e (joined-split c s) in
    let parts : All (Lacks c) (a ∷ b ∷ []) = subst (All (Lacks c)) e (split-All c s) in
    (sym whole, parts.0, parts.1.0)

rsplit_once-Lacks : (c : ℕ) (s : Bytes) → Lacks c s → rsplit_once c s ≡ none
unfolding rsplit_once
rsplit_once-Lacks c [] h = refl
rsplit_once-Lacks c (x ∷ s) h = ground (arith, h.0, rsplit_once-Lacks c s h.1)

pub rsplit_once-append :
    (c : ℕ) (a b : Bytes) → Lacks c b → rsplit_once c (a ++ c ∷ b) ≡ some (a, b)
unfolding rsplit_once
rsplit_once-append c [] b h = ground (arith, rsplit_once-Lacks c b h)
rsplit_once-append c (x ∷ a) b h = ground (arith, rsplit_once-append c a b h)

pub split_once-append : (c : ℕ) (a b : Bytes) → Lacks c a → split_once c (a ++ c ∷ b) ≡ some (a, b)
unfolding split_once
split_once-append c [] b h = ground arith
split_once-append c (x ∷ a) b h = ground (arith, h.0, split_once-append c a b h.1)
