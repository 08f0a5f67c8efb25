-- ===== src/Prelude/Decimal.antt =====
-- `{}` of an unsigned number, and reading it back.
use yuv_lightning_ldk_sample.Prelude.Tests.{Bool-cases}
use yuv_lightning_ldk_sample.Prelude.{
  ℕ, ◌≤◌, All, ◌<◌, suc, ◌+◌, ◌≡◌, [], ltb, ◌%◌, arith, inl, ◌∷◌, inr, ◌/◌, if◌then◌else◌, ◌∙◌,
  zero, ◌≢◌, ◌*◌, ap, ◌==◌, leb, some, true, false, ◌-◌, refl,
}
use yuv_lightning_ldk_sample.Prelude.Numbers.{scan, parse_unsigned}
use yuv_lightning_ldk_sample.Prelude.Text.{Bytes}

-- the digits of a number in front of a text; fuel of one more than the number is enough
unfoldable pub digits : ℕ → ℕ → Bytes → Bytes
digits zero n s = s
digits (suc fuel) n s =
    let last = (b'0' + n % 10) ∷ s in
    let more = digits fuel (n / 10) last in if ltb n 10 then last else more

unfoldable pub decimal : ℕ → Bytes
unfolding digits
decimal n = digits (suc n) n []

abbrev pub IsDigit : ℕ → Type 0
IsDigit c = (48 ≤ c) × (c ≤ 57)

scan-digit :
    (top d m : ℕ) (s : Bytes)
    → d < 10
    → m * 10 + d ≤ top
    → scan top ((b'0' + d) ∷ s) m ≡ scan top s (m * 10 + d)
unfolding scan
scan-digit top d m s small fits =
    let low : leb 48 (48 + d) ≡ true = ground arith in
    let high : leb (48 + d) 57 ≡ true = ground arith in
    let value : m * 10 + (48 + d - 48) ≡ m * 10 + d = omega arith in
    let fit : leb (m * 10 + d) top ≡ true = ground arith in rw (low, high, value, fit)

scan-digits :
    (fuel n top : ℕ) (s : Bytes) → n < fuel → n ≤ top → scan top (digits fuel n s) 0 ≡ scan top s n
unfolding digits
scan-digits zero n top s h fits = absurd (omega arith)
scan-digits (suc fuel) n top s h fits = elim (Bool-cases (ltb n 10)) [
  | inl small ↦
      rw small
        (scan-digit top (n % 10) 0 s (omega arith) (omega arith) ∙ ap (scan top s) (ground arith))
  | inr large ↦ rw large (
      scan-digits fuel (n / 10) top ((b'0' + n % 10) ∷ s) (ground arith) (ground arith)
      ∙ (scan-digit top (n % 10) (n / 10) s (omega arith) (omega arith)
          ∙ ap (scan top s) (omega arith)))
]

digits-All : (fuel n : ℕ) (s : Bytes) → All IsDigit s → All IsDigit (digits fuel n s)
unfolding digits
digits-All zero n s h = h
digits-All (suc fuel) n s h = elim (Bool-cases (ltb n 10)) [
  | inl small ↦ rw small ((omega arith, omega arith), h)
  | inr large ↦ rw large (digits-All fuel (n / 10) _ ((omega arith, omega arith), h))
]

pub decimal-All : (n : ℕ) → All IsDigit (decimal n)
unfolding decimal
decimal-All n = digits-All (suc n) n [] tt

digits_cons : (fuel n : ℕ) (s : Bytes) → (c : ℕ) (t : Bytes) → digits fuel n (c ∷ t) ≢ []
unfolding digits
digits_cons zero n s c t = ground arith
digits_cons (suc fuel) n s c t = ground (arith, digits_cons fuel (n / 10) s (b'0' + n % 10) (c ∷ t))

parse_unsigned-scan :
    (top : ℕ) (s : Bytes) → s ≢ [] → All IsDigit s → parse_unsigned top s ≡ scan top s 0
unfolding parse_unsigned
parse_unsigned-scan top [] ne h = absurd (ne refl)
parse_unsigned-scan top (c ∷ []) ne h = refl
parse_unsigned-scan top (c ∷ d ∷ s) ne h =
    let no_sign : (c == b'+') ≡ false = ground (arith, h.0.0) in rw no_sign

pub decimal-ne_nil : (n : ℕ) → decimal n ≢ []
unfolding decimal
decimal-ne_nil n = ground (arith, digits_cons n (n / 10) [] (b'0' + n % 10) [])

scan-decimal : (top n : ℕ) → n ≤ top → scan top (decimal n) 0 ≡ some n
unfolding decimal scan
scan-decimal top n fits = scan-digits (suc n) n top [] (omega arith) fits

-- A number that fits the type is read back from its text.
pub parse_unsigned-decimal : (top n : ℕ) → n ≤ top → parse_unsigned top (decimal n) ≡ some n
parse_unsigned-decimal top n fits =
    parse_unsigned-scan top (decimal n) (decimal-ne_nil n) (decimal-All n) ∙ scan-decimal top n fits
