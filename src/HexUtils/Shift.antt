-- ===== src/HexUtils/Shift.antt =====
-- Shifting a digit into a byte, as `to_vec` does with `<<=` and `|=`.
use yuv_lightning_ldk_sample.Prelude.{
  ℕ, ◌≡◌, ◌<◌, Bool, ◌*◌, true, suc, ◌%◌, refl, arith, ◌==◌, zero, ◌+◌, if◌then◌else◌, false,
  ==_iff,
}
use Prim.Native.Nat.{bit_or}

shifts : ℕ → ℕ → Bool
shifts b d = bit_or (b * 16 % 256) d == b * 16 + d

-- the digits less than `count` behind the digit `b`
row_shifts : ℕ → ℕ → Bool
row_shifts b zero = true
row_shifts b (suc d) = if shifts b d then row_shifts b d else false

rows_shift : ℕ → Bool
rows_shift zero = true
rows_shift (suc b) = if row_shifts b 16 then rows_shift b else false

row_shifts_lem : (b d count : ℕ) → d < count → row_shifts b count ≡ true → shifts b d ≡ true
unfolding row_shifts
row_shifts_lem b d zero below h = absurd (omega arith)
row_shifts_lem b d (suc count) below h = ground (arith, row_shifts_lem b d count)

rows_shift_lem : (b count : ℕ) → b < count → rows_shift count ≡ true → row_shifts b 16 ≡ true
unfolding rows_shift
rows_shift_lem b zero below h = absurd (omega arith)
rows_shift_lem b (suc count) below h = ground (arith, rows_shift_lem b count)

rows_shift_all : rows_shift 16 ≡ true
unfolding rows_shift row_shifts shifts
rows_shift_all = refl

-- shifting in a digit on a `u8` is b * 16 + d
pub bit_or_nibble : (b d : ℕ) → b < 16 → d < 16 → bit_or (b * 16 % 256) d ≡ b * 16 + d
unfolding shifts
bit_or_nibble b d hb hd =
    (==_iff _ _).0 (row_shifts_lem b d 16 hd (rows_shift_lem b 16 hb rows_shift_all))
