-- ===== src/Cli/Words.antt =====
-- src/cli.rs: the readers of the words of a command line.
use yuv_lightning_ldk_sample.Prelude.{
  ℕ, List, Option, Bool, none, if◌then◌else◌, ◌∷◌, some, [], true, false, ◌>>=◌, length, ◌==◌,
}
use yuv_lightning_ldk_sample.Prelude.Text.{Bytes, split, equal, codes}
use yuv_lightning_ldk_sample.Node.{Ldk}
use yuv_lightning_ldk_sample.HexUtils.{to_vec}
use yuv_lightning_ldk_sample.Prelude.Numbers.{parse_unsigned, max_u128}

-- What the commands use of the libraries beyond `PaymentApi` and `PeerApi`.
pub record CliApi (L : Ldk) : Type 0 where
  -- `PublicKey::from_str`
  pub key_from_str : Bytes → Option (L.PublicKey)
  -- `Pixel::new(Luma::from(luma), chroma)` for the result of `Chroma::from_address`
  pub pixel_from_address : ℕ → Bytes → Option (L.Pixel)
  -- `Bolt11Invoice::from_str`
  pub invoice_from_str : Bytes → Option (L.Invoice)
  pub set_our_htlc_minimum_msat : ℕ → L.UserConfig → L.UserConfig
  pub set_max_inbound_htlc_percent : ℕ → L.UserConfig → L.UserConfig
  pub set_support_yuv_payments : Bool → L.UserConfig → L.UserConfig
  pub set_negotiate_anchors : Bool → L.UserConfig → L.UserConfig
  pub set_announced_channel : Bool → L.UserConfig → L.UserConfig

-- `bool::from_str`
unfoldable pub parse_bool : Bytes → Option Bool
parse_bool s =
    if equal s (codes "true")
    then some true
    else if equal s (codes "false")
    then some false
    else none

module _ {L : Ldk} (cli : CliApi L) where
  -- the two parts of a pixel; what follows a second colon is not looked at
  unfoldable pub parse_pixel_parts : List Bytes → Option (L.Pixel)
  parse_pixel_parts [] = none
  parse_pixel_parts (luma ∷ []) = none
  parse_pixel_parts (luma ∷ chroma ∷ rest) = do
    n ← parse_unsigned max_u128 luma
    cli.pixel_from_address n chroma

  unfoldable pub parse_pixel_word : Bytes → Option (L.Pixel)
  unfolding parse_pixel_parts
  parse_pixel_word word = parse_pixel_parts (split b':' word)

-- a public key in hexadecimal, of any length that the library takes
unfoldable pub pubkey_from_hex {ℓ} : {K : Type ℓ} → (Bytes → Option K) → Bytes → Option K
pubkey_from_hex from_slice word = do bytes ← to_vec word; from_slice bytes

-- `pubkey_from_input`, with the words that are left
unfoldable pub pubkey_from_input {ℓ} :
    {K : Type ℓ} → (Bytes → Option K) → List Bytes → Option (K × List Bytes)
unfolding pubkey_from_hex
pubkey_from_input from_slice [] = none
pubkey_from_input from_slice (word ∷ ws) = do key ← pubkey_from_hex from_slice word; some (key, ws)

-- a channel id: 32 bytes in hexadecimal, with the words that are left
unfoldable pub channel_id_from_input : List Bytes → Option (Bytes × List Bytes)
channel_id_from_input [] = none
channel_id_from_input (word ∷ ws) = do
  id ← to_vec word
  if length id == 32 then some (id, ws) else none

-- an optional number: absent, or right, or wrong
unfoldable pub optional_number : ℕ → List Bytes → Option (Option ℕ × List Bytes)
optional_number top [] = some (none, [])
optional_number top (word ∷ words) = do n ← parse_unsigned top word; some (some n, words)
