-- ===== src/Prelude/Numbers.antt =====
-- Rust's `uN::from_str`, and the largest numbers of its unsigned types.
use Prim.Native.Nat.{ℕ, ◌+◌, ◌-◌, ◌*◌, ◌^◌, ◌≤◌}
use mathlib.Core.Path.{◌≡◌, refl}
use mathlib.Core.Bool.{◌&&◌}
use mathlib.Core.Option.{Option, none, some}
use mathlib.Core.List.{[], ◌∷◌}
use native.Mathlib.Omega.{arith}
use yuv_lightning_ldk_sample.Prelude.Tests.{leb, ◌==◌, if◌then◌else◌}
use yuv_lightning_ldk_sample.Prelude.Text.{Bytes, codes}

-- The integers, over the native numbers: `negsuc n` is -(n + 1).
pub data ℤ : Type 0 where
  pos : ℕ → ℤ
  negsuc : ℕ → ℤ

abbrev pub max_u8 : ℕ
max_u8 = 2 ^ 8 - 1

abbrev pub max_u16 : ℕ
max_u16 = 2 ^ 16 - 1

abbrev pub max_u32 : ℕ
max_u32 = 2 ^ 32 - 1

abbrev pub max_u64 : ℕ
max_u64 = 2 ^ 64 - 1

abbrev pub max_u128 : ℕ
max_u128 = 2 ^ 128 - 1

-- the digits behind the number `n`, with the checked multiplication and addition of the type
unfoldable pub scan : ℕ → Bytes → ℕ → Option ℕ
scan top [] n = some n
scan top (c ∷ s) n =
    let m = n * 10 + (c - b'0') in
    let rest = scan top s m in
    if leb b'0' c && leb c b'9' then (if leb m top then rest else none) else none

-- `s.parse::<uN>()`: one plus sign may lead, and there is one digit at least
unfoldable pub parse_unsigned : ℕ → Bytes → Option ℕ
unfolding scan
parse_unsigned top [] = none
parse_unsigned top (c ∷ []) = scan top (c ∷ []) 0
parse_unsigned top (c ∷ d ∷ s) = if c == b'+' then scan top (d ∷ s) 0 else scan top (c ∷ d ∷ s) 0

scan-le : (top : ℕ) (s : Bytes) (n r : ℕ) → n ≤ top → scan top s n ≡ some r → r ≤ top
unfolding scan
scan-le top [] n r fits h = ground arith
scan-le top (c ∷ s) n r fits h = ground (arith, scan-le top s (n * 10 + (c - b'0')) r)

-- What is read fits the type.
pub parse_unsigned-le : (top : ℕ) (s : Bytes) (r : ℕ) → parse_unsigned top s ≡ some r → r ≤ top
unfolding parse_unsigned
parse_unsigned-le top [] r h = cc
parse_unsigned-le top (c ∷ []) r h = scan-le top (c ∷ []) 0 r (omega arith) h
parse_unsigned-le top (c ∷ d ∷ s) r h =
    ground (arith, scan-le top (d ∷ s) 0 r, scan-le top (c ∷ d ∷ s) 0 r)

plus_sign : parse_unsigned max_u16 (codes "+8006") ≡ some 8006
unfolding parse_unsigned
plus_sign = refl

too_large : parse_unsigned max_u16 (codes "65536") ≡ none
unfolding parse_unsigned
too_large = refl
