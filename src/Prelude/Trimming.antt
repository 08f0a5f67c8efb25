-- ===== src/Prelude/Trimming.antt =====
-- `trim` of words with spaces between them, and what stands behind the first word.
use yuv_lightning_ldk_sample.Prelude.{
  ℕ, [], ◌∷◌, is_empty, All, List, drop, ◌≡◌, length, refl, ◌++◌, false, Bool-cases, arith, ap, ◌∙◌,
  inl, inr,
}
use yuv_lightning_ldk_sample.Prelude.Text.{trim, trim_start, trim_end, Bytes, is_whitespace}
use yuv_lightning_ldk_sample.Prelude.Spaces.{IsPlain, IsWord, spaced}

trim_end-cons : (c : ℕ) (s : Bytes) → is_empty s ≡ false → trim_end s ≡ s → trim_end (c ∷ s) ≡ c ∷ s
unfolding trim_end
trim_end-cons c s some_byte e = elim (Bool-cases (is_whitespace c)) [
  | inl white ↦ rw (e, white, some_byte)
  | inr plain ↦ rw (e, plain)
]

is_empty-append : (w s : Bytes) → is_empty s ≡ false → is_empty (w ++ s) ≡ false
is_empty-append [] s h = h
is_empty-append (c ∷ w) s h = refl

trim_end-append : (w s : Bytes) → is_empty s ≡ false → trim_end s ≡ s → trim_end (w ++ s) ≡ w ++ s
trim_end-append [] s some_byte e = e
trim_end-append (c ∷ w) s some_byte e =
    trim_end-cons c (w ++ s) (is_empty-append w s some_byte) (trim_end-append w s some_byte e)

trim_end-word : (w : Bytes) → All IsPlain w → trim_end w ≡ w
unfolding trim_end
trim_end-word [] h = refl
trim_end-word (c ∷ w) h = rw (h.0, trim_end-word w h.1)

trim_end-spaced :
    (w : Bytes) (words : List Bytes)
    → IsWord w
    → All IsWord words
    → (is_empty (spaced w words) ≡ false) × (trim_end (spaced w words) ≡ spaced w words)
trim_end-spaced w [] h hs = (h.0, trim_end-word w h.1)
trim_end-spaced w (v ∷ words) h hs =
    let rest = trim_end-spaced v words hs.0 hs.1 in
    (
      is_empty-append w (b' ' ∷ spaced v words) refl,
      trim_end-append w (b' ' ∷ spaced v words) refl
          (trim_end-cons b' ' (spaced v words) rest.0 rest.1),
    )

trim_start-plain : (c : ℕ) (s : Bytes) → IsPlain c → trim_start (c ∷ s) ≡ c ∷ s
unfolding trim_start
trim_start-plain c s plain = rw plain

trim_start-spaced :
    (w : Bytes) (words : List Bytes) → IsWord w → trim_start (spaced w words) ≡ spaced w words
trim_start-spaced [] words h = absurd (ground (arith, h.0))
trim_start-spaced (c ∷ w) [] h = trim_start-plain c w h.1.0
trim_start-spaced (c ∷ w) (v ∷ words) h = trim_start-plain c (w ++ b' ' ∷ spaced v words) h.1.0

pub trim-spaced :
    (w : Bytes) (words : List Bytes)
    → IsWord w
    → All IsWord words
    → trim (spaced w words) ≡ spaced w words
unfolding trim
trim-spaced w words h hs =
    ap trim_end (trim_start-spaced w words h) ∙ (trim_end-spaced w words h hs).1

pub spaced-ne_nil :
    (w : Bytes) (words : List Bytes)
    → IsWord w
    → All IsWord words
    → is_empty (spaced w words) ≡ false
spaced-ne_nil w words h hs = (trim_end-spaced w words h hs).0

pub drop-append : (w s : Bytes) → drop (length w) (w ++ s) ≡ s
drop-append [] s = refl
drop-append (c ∷ w) s = drop-append w s
