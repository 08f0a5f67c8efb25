-- ===== src/HexUtils.antt =====
-- src/hex_utils.rs: hexadecimal text to bytes and back, and the text of a compressed public key.
pub mod Shift
pub mod RoundTrip
use Prim.Native.Nat.{bit_or}
use yuv_lightning_ldk_sample.Prelude.{
  ℕ, ◌+◌, ◌-◌, ◌*◌, ◌/◌, ◌%◌, Bool, true, false, ◌&&◌, List, [], ◌∷◌, ◌++◌, Option, none, some, ltb,
  leb, ◌==◌, not, if◌then◌else◌, length, take, ◌>>=◌,
}
use yuv_lightning_ldk_sample.Prelude.Text.{Bytes}

-- the arms of the `match *c`: the value of a digit
unfoldable pub nibble : ℕ → Option ℕ
nibble c =
    if leb b'A' c && leb c b'F'
    then some (c - b'A' + 10)
    else if leb b'a' c && leb c b'f'
    then some (c - b'a' + 10)
    else if leb b'0' c && leb c b'9'
    then some (c - b'0')
    else none

-- the loop of `to_vec` over the bytes from index `idx` on: `b <<= 4` and `|=` on a `u8`
unfoldable pub to_vec_loop : Bytes → ℕ → ℕ → Bytes → Option Bytes
to_vec_loop [] idx b out = some out
to_vec_loop (c ∷ s) idx b out = do
  d ← nibble c
  let b' = bit_or (b * 16 % 256) d
  let pushed = to_vec_loop s (idx + 1) 0 (out ++ b' ∷ [])
  let held = to_vec_loop s (idx + 1) b' out
  if idx % 2 == 1 then pushed else held

unfoldable pub to_vec : Bytes → Option Bytes
to_vec hex = to_vec_loop hex 0 0 []

-- a digit as `{:x}` prints it
unfoldable pub hex_digit : ℕ → ℕ
hex_digit d = if ltb d 10 then b'0' + d else b'a' + (d - 10)

-- `{:02x}` of each byte
unfoldable pub hex_str : Bytes → Bytes
hex_str [] = []
hex_str (v ∷ value) = hex_digit (v / 16) ∷ hex_digit (v % 16) ∷ hex_str value

-- `from_slice` is `PublicKey::from_slice` of the crate secp256k1.
unfoldable pub to_compressed_pubkey {ℓ} :
    {PublicKey : Type ℓ} → (Bytes → Option PublicKey) → Bytes → Option PublicKey
to_compressed_pubkey from_slice hex =
    if not (length hex == 33 * 2)
    then none
    else do bytes ← to_vec (take (33 * 2) hex); from_slice bytes
