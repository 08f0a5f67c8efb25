-- ===== src/Cli/Language/Reading.antt =====
-- src/cli.rs: numbers, ids and keys are read as what was typed.
use yuv_lightning_ldk_sample.Prelude.{
  ℕ, [], ◌∷◌, ◌<◌, All, List, ◌≤◌, ◌≢◌, length, ◌≡◌, arith, ◌/◌, some, ◌==◌, ◌%◌, refl, true,
}
use yuv_lightning_ldk_sample.HexUtils.{hex_digit, hex_str}
use yuv_lightning_ldk_sample.Cli.Words.{channel_id_from_input, optional_number, CliApi}
use yuv_lightning_ldk_sample.Node.{Ldk}
use yuv_lightning_ldk_sample.Cli.ChannelCommands.{last_key}
use yuv_lightning_ldk_sample.Prelude.Text.{Bytes, IsByte}
use yuv_lightning_ldk_sample.Peers.{PeerApi}
use yuv_lightning_ldk_sample.HexUtils.RoundTrip.{to_vec-hex_str}
use yuv_lightning_ldk_sample.Cli.Language.{KeyText, Lacks, decimal}
use yuv_lightning_ldk_sample.Prelude.Decimal.{IsDigit, parse_unsigned-decimal}

pub digit-Lacks : (c : ℕ) (s : Bytes) → All IsDigit s → 57 < c → Lacks c s
digit-Lacks c [] h high = tt
digit-Lacks c (d ∷ s) h high = ((λ e. omega (arith, h.0.1, e)), digit-Lacks c s h.1 high)

hex_digit-ne_comma : (d : ℕ) → d < 16 → hex_digit d ≢ b','
unfolding hex_digit
hex_digit-ne_comma d small = ground arith

pub hex_str-Lacks : (value : Bytes) → All IsByte value → Lacks b',' (hex_str value)
unfolding hex_str
hex_str-Lacks [] h = tt
hex_str-Lacks (v ∷ value) h =
    let byte : v < 256 = ground (arith, h.0) in
    (
      hex_digit-ne_comma (v / 16) (omega arith),
      (hex_digit-ne_comma (v % 16) (omega arith), hex_str-Lacks value h.1),
    )

pub optional_number-option_words :
    (top : ℕ) (amt : ℕ) (rest : List Bytes)
    → amt ≤ top
    → optional_number top (decimal amt ∷ rest) ≡ some (some amt, rest)
unfolding optional_number
optional_number-option_words top amt rest fits = rw (parse_unsigned-decimal top amt fits)

pub channel_id_from_input-hex_str :
    (id : Bytes) (rest : List Bytes)
    → length id ≡ 32
    → All IsByte id
    → channel_id_from_input (hex_str id ∷ rest) ≡ some (id, rest)
unfolding channel_id_from_input
channel_id_from_input-hex_str id rest size bytes =
    let whole : (length id == 32) ≡ true = ground arith in rw (to_vec-hex_str id bytes, whole)

-- the keys in their order, the destination last
abbrev pub keys_of_path : {L : Ldk} → List (KeyText L) → KeyText L → List (L.PublicKey)
keys_of_path [] k = k.key ∷ []
keys_of_path (j ∷ keys) k = j.key ∷ keys_of_path keys k

pub last_key-keys_of_path :
    {L : Ldk} (peer : PeerApi L) (cli : CliApi L) (keys : List (KeyText L)) (k : KeyText L)
    → last_key peer cli (keys_of_path keys k) ≡ some k.key
unfolding last_key
last_key-keys_of_path peer cli [] k = refl
last_key-keys_of_path peer cli (j ∷ []) k = refl
last_key-keys_of_path peer cli (j ∷ i ∷ keys) k = last_key-keys_of_path peer cli (i ∷ keys) k
