-- ===== src/HexUtils/RoundTrip.antt =====
-- What `to_vec` reads: the bytes that `hex_str` wrote, and exactly the texts of digits.
use Prim.Native.Nat.{bit_or}
use yuv_lightning_ldk_sample.HexUtils.Shift.{bit_or_nibble}
use yuv_lightning_ldk_sample.Prelude.{
  ℕ, zero, suc, ◌+◌, ◌*◌, ◌/◌, ◌%◌, ◌<◌, true, false, [], ◌∷◌, ◌++◌, Option, none, some, ◌≡◌, refl,
  ltb, ◌==◌, length, All, arith, append_assoc, append-nil, is_some, Option-cases, some_of_is_some,
  >>=-eq-some, ap, sym, ◌∙◌, take, ◌>>=◌, inl, inr,
}
use yuv_lightning_ldk_sample.Prelude.Text.{Bytes, IsByte}
use yuv_lightning_ldk_sample.HexUtils.{
  nibble, to_vec_loop, to_vec, to_compressed_pubkey, hex_digit, hex_str,
}

pub nibble-lt : (c d : ℕ) → nibble c ≡ some d → d < 16
unfolding nibble
nibble-lt c d h = ground arith

nibble-hex_digit : (d : ℕ) → d < 16 → nibble (hex_digit d) ≡ some d
unfolding nibble hex_digit
nibble-hex_digit d h = ground arith

-- the meaning of a text: two digits to a byte, and a last odd digit is read and dropped
pub decode : Bytes → Option Bytes
decode [] = some []
decode (c ∷ []) = do d ← nibble c; some []
decode (c ∷ d ∷ s) = do hi ← nibble c; lo ← nibble d; rest ← decode s; some ((hi * 16 + lo) ∷ rest)

abbrev append_to : Bytes → Option Bytes → Option Bytes
append_to out none = none
append_to out (some bs) = some (out ++ bs)

append-append_to :
    (out : Bytes) (b : ℕ) (o : Option Bytes)
    → append_to (out ++ b ∷ []) o ≡ append_to out (do rest ← o; some (b ∷ rest))
append-append_to out b none = refl
append-append_to out b (some bs) = rw append_assoc

append_to-nil : (o : Option Bytes) → append_to [] o ≡ o
append_to-nil none = refl
append_to-nil (some bs) = refl

abbrev pub IsDigit : ℕ → Type 0
IsDigit c = is_some (nibble c) ≡ true

decode-hex_str : (value : Bytes) → All IsByte value → decode (hex_str value) ≡ some value
unfolding decode hex_str
decode-hex_str [] h = refl
decode-hex_str (v ∷ value) h =
    rw
      (
        nibble-hex_digit (v / 16) (ground arith),
        nibble-hex_digit (v % 16) (omega arith),
        decode-hex_str value h.1,
      )
      (ground arith)

decode_sound :
    (s out : Bytes)
    → decode s ≡ some out
    → All IsDigit s × (length out ≡ length s / 2) × All IsByte out
unfolding decode
decode_sound [] out h = ground arith
decode_sound (c ∷ []) out h = ground arith
decode_sound (c ∷ d ∷ s) out h =
    let (hi, e, h1) = >>=-eq-some (nibble c) _ h in
    let (lo, e', h2) = >>=-eq-some (nibble d) _ h1 in
    let (rest, r, h3) = >>=-eq-some (decode s) _ h2 in
    let (digits, n, bytes) = decode_sound s rest r in
    let in_byte : ltb (hi * 16 + lo) 256 ≡ true =
      ground (arith, nibble-lt c hi e, nibble-lt d lo e') in
    let shape : out ≡ (hi * 16 + lo) ∷ rest = cc h3 in
    rw shape ((ap is_some e, (ap is_some e', digits)), omega arith, (in_byte, bytes))

decode_complete : (s : Bytes) → All IsDigit s → is_some (decode s) ≡ true
unfolding decode
decode_complete [] h = refl
decode_complete (c ∷ []) h = ground arith
decode_complete (c ∷ d ∷ s) h =
    let (hi, e) = some_of_is_some (nibble c) h.0 in
    let (lo, e') = some_of_is_some (nibble d) h.1.0 in
    let (rest, r) = some_of_is_some (decode s) (decode_complete s h.1.1) in rw (e, e', r)

decode-append_digit :
    (s : Bytes) (c : ℕ) → length s % 2 ≡ 0 → IsDigit c → decode (s ++ c ∷ []) ≡ decode s
unfolding decode
decode-append_digit [] c even digit = ground arith
decode-append_digit (x ∷ []) c even digit = absurd (omega arith)
decode-append_digit (x ∷ y ∷ s) c even digit = rw (decode-append_digit s c (omega arith) digit)

pub length-hex_str : (value : Bytes) → length (hex_str value) ≡ 2 * length value
unfolding hex_str
length-hex_str [] = refl
length-hex_str (v ∷ value) = omega (arith, length-hex_str value)

take_all : (n : ℕ) (xs : Bytes) → length xs ≡ n → take n xs ≡ xs
take_all zero [] h = refl
take_all zero (x ∷ xs) h = absurd (omega arith)
take_all (suc n) [] h = refl
take_all (suc n) (x ∷ xs) h = ap (λ t. x ∷ t) (take_all n xs (omega arith))

to_vec_loop-first :
    (c d : ℕ) (s : Bytes) (idx b : ℕ) (out : Bytes)
    → idx % 2 ≡ 0
    → nibble c ≡ some d
    → to_vec_loop (c ∷ s) idx b out ≡ to_vec_loop s (idx + 1) (bit_or (b * 16 % 256) d) out
unfolding to_vec_loop
to_vec_loop-first c d s idx b out even e =
    let held : (idx % 2 == 1) ≡ false = ground arith in rw (e, held)

to_vec_loop-second :
    (c d : ℕ) (s : Bytes) (idx b : ℕ) (out : Bytes)
    → idx % 2 ≡ 1
    → nibble c ≡ some d
    → to_vec_loop (c ∷ s) idx b out
      ≡ to_vec_loop s (idx + 1) 0 (out ++ bit_or (b * 16 % 256) d ∷ [])
unfolding to_vec_loop
to_vec_loop-second c d s idx b out odd e =
    let pushed : (idx % 2 == 1) ≡ true = ground arith in rw (e, pushed)

to_vec_loop-none :
    (c : ℕ) (s : Bytes) (idx b : ℕ) (out : Bytes)
    → nibble c ≡ none
    → to_vec_loop (c ∷ s) idx b out ≡ none
unfolding to_vec_loop
to_vec_loop-none c s idx b out e = rw e

to_vec_loop-pair :
    (c d hi lo : ℕ) (s : Bytes) (idx : ℕ) (out : Bytes)
    → idx % 2 ≡ 0
    → nibble c ≡ some hi
    → nibble d ≡ some lo
    → to_vec_loop (c ∷ d ∷ s) idx 0 out ≡ to_vec_loop s (idx + 2) 0 (out ++ (hi * 16 + lo) ∷ [])
to_vec_loop-pair c d hi lo s idx out even e e' =
    let first = bit_or_nibble 0 hi (omega arith) (nibble-lt c hi e) in
    let second = bit_or_nibble hi lo (nibble-lt c hi e) (nibble-lt d lo e') in
    let two : idx + 1 + 1 ≡ idx + 2 = omega arith in
    let plain : 0 * 16 + hi ≡ hi = omega arith in
    rw (
      to_vec_loop-first c hi (d ∷ s) idx 0 out even e,
      first,
      plain,
      to_vec_loop-second d lo s (idx + 1) hi out (omega arith) e',
      second,
      two,
    )

to_vec_loop-decode :
    (s : Bytes) (idx : ℕ) (out : Bytes)
    → idx % 2 ≡ 0
    → to_vec_loop s idx 0 out ≡ append_to out (decode s)
unfolding decode
to_vec_loop-decode [] idx out even = unfold to_vec_loop in rw append-nil
to_vec_loop-decode (c ∷ []) idx out even = elim (Option-cases (nibble c)) [
  | inl bad ↦ rw (to_vec_loop-none c [] idx 0 out bad, bad)
  | inr (hi, e) ↦
      rw (to_vec_loop-first c hi [] idx 0 out even e, e) (unfold to_vec_loop in rw append-nil)
]
to_vec_loop-decode (c ∷ d ∷ s) idx out even = elim (Option-cases (nibble c)) [
  | inl bad ↦ rw (to_vec_loop-none c (d ∷ s) idx 0 out bad, bad)
  | inr (hi, e) ↦ elim (Option-cases (nibble d)) [
    | inl bad ↦
        rw (to_vec_loop-first c hi (d ∷ s) idx 0 out even e, e, bad)
          (to_vec_loop-none d s (idx + 1) _ out bad)
    | inr (lo, e') ↦
        to_vec_loop-pair c d hi lo s idx out even e e'
        ∙ to_vec_loop-decode s (idx + 2) (out ++ (hi * 16 + lo) ∷ []) (omega arith)
        ∙ append-append_to out (hi * 16 + lo) (decode s)
        ∙ rw (e, e')
  ]
]

-- `to_vec` reads two digits to a byte.
to_vec-decode : (s : Bytes) → to_vec s ≡ decode s
unfolding to_vec
to_vec-decode s = to_vec_loop-decode s 0 [] refl ∙ append_to-nil (decode s)

-- Every byte string is read back from the text that `hex_str` writes.
pub to_vec-hex_str : (value : Bytes) → All IsByte value → to_vec (hex_str value) ≡ some value
to_vec-hex_str value h = to_vec-decode (hex_str value) ∙ decode-hex_str value h

-- What `to_vec` accepts: every byte of the text is a digit, the result has one byte for two digits,
-- rounded down, and each of its elements fits a byte.
pub to_vec_sound :
    (s out : Bytes)
    → to_vec s ≡ some out
    → All IsDigit s × (length out ≡ length s / 2) × All IsByte out
to_vec_sound s out h = decode_sound s out (sym (to_vec-decode s) ∙ h)

-- Every text of digits is accepted.
pub to_vec_complete : (s : Bytes) → All IsDigit s → is_some (to_vec s) ≡ true
to_vec_complete s h = rw to_vec-decode (decode_complete s h)

-- A digit behind a text of an even number of digits is read and then dropped.
pub to_vec_drops_odd_digit :
    (s out : Bytes) (c : ℕ)
    → length s % 2 ≡ 0
    → IsDigit c
    → to_vec s ≡ some out
    → to_vec (s ++ c ∷ []) ≡ some out
to_vec_drops_odd_digit s out c even digit h =
    to_vec-decode (s ++ c ∷ []) ∙ decode-append_digit s c even digit ∙ sym (to_vec-decode s) ∙ h

-- The text of 33 bytes goes to `PublicKey::from_slice`, whatever that makes of them.
pub to_compressed_pubkey-hex_str {ℓ} :
    {PublicKey : Type ℓ} (from_slice : Bytes → Option PublicKey) (value : Bytes)
    → length value ≡ 33
    → All IsByte value
    → to_compressed_pubkey from_slice (hex_str value) ≡ from_slice value
unfolding to_compressed_pubkey
to_compressed_pubkey-hex_str from_slice value n h =
    let m = length-hex_str value in
    let e : length (hex_str value) ≡ 66 = omega arith in
    rw (e, take_all 66 (hex_str value) (omega arith), to_vec-hex_str value h)
