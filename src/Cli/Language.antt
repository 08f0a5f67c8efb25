-- ===== src/Cli/Language.antt =====
-- src/cli.rs: the acting commands as values, how each is typed, and what it is meant to do. The words
-- of a line are compared with this in the child modules.
pub mod Spelling
pub mod Reading
pub mod Arguments
pub mod Typed
pub mod Opening
use yuv_lightning_ldk_sample.Payments
use yuv_lightning_ldk_sample.Prelude.{
  ℕ, [], ◌∷◌, Bool, List, Option, none, some, false, true, ◌++◌, ◌≤◌, length, All, ◌≡◌, ◌≢◌,
}
use yuv_lightning_ldk_sample.Node.{Ldk, World, send_payment, call, Call}
use yuv_lightning_ldk_sample.Cli.Commands.{
  Flags, CommandAnswers, Next, prompts, open_to, after_outcome, quits,
}
use yuv_lightning_ldk_sample.Prelude.Text.{Bytes, codes, IsByte, Lacks}
use yuv_lightning_ldk_sample.Payments.{PaymentApi, Network, keysend, save_inbound, get_invoice}
use yuv_lightning_ldk_sample.Prelude.Spaces.{spaced, IsWord}
use yuv_lightning_ldk_sample.HexUtils.{hex_str}
use yuv_lightning_ldk_sample.Peers.{
  PeerApi, read_channel_peer_data, parse_peer_info, do_disconnect_peer,
}
use yuv_lightning_ldk_sample.Prelude.Decimal.{decimal}
use yuv_lightning_ldk_sample.Cli.Words.{CliApi}
use yuv_lightning_ldk_sample.Cli.ChannelCommands.{connect_to}
use yuv_lightning_ldk_sample.Prelude.Numbers.{max_u128, max_u64, max_u8, max_u32}

-- a pixel as it is typed, `luma:chroma`
pub record PixelText (L : Ldk) : Type 0 where
  pub luma : ℕ
  pub address : Bytes
  pub pixel : L.Pixel

-- a public key with its bytes
pub record KeyText (L : Ldk) : Type 0 where
  pub bytes : Bytes
  pub key : L.PublicKey

pub data Setting : Type 0 where
  min_inb_htlc : ℕ → Setting
  max_inb_htlc_pct : ℕ → Setting
  support_yuv : Bool → Setting

pub data Flag (L : Ldk) : Type 0 where
  with_pixel : PixelText L → Flag L
  public_channel : Bool → Flag L
  anchor_outputs : Bool → Flag L

-- The amounts of `updatebalance`: a luma only with millisatoshis before it.
pub data Amounts : Type 0 where
  unchanged : Amounts
  only_msat : ℕ → Amounts
  msat_and_luma : ℕ → ℕ → Amounts

pub data Command (L : Ldk) : Type 0 where
  configure : List Setting → Command L
  open_to_peer : KeyText L → ℕ → List (Flag L) → Command L
  pay : Bytes → L.Invoice → Option ℕ → Command L
  pay_key : KeyText L → ℕ → Command L
  ask_payment : ℕ → ℕ → Option (PixelText L) → Command L
  connect_to_peer : Bytes → Command L
  disconnect_from_peer : Bytes → L.PublicKey → Command L
  close close_by_force : Bytes → KeyText L → Command L
  rebalance : Bytes → KeyText L → Amounts → Command L
  -- the keys before the last one, which is the destination, the type and the data
  send_onion : List (KeyText L) → KeyText L → ℕ → Bytes → Command L
  -- a text of at least one word
  sign : Bytes → List Bytes → Command L
  leave : Command L

abbrev pub bool_text : Bool → Bytes
bool_text true = codes "true"
bool_text false = codes "false"

abbrev pub setting_words : List Setting → List Bytes
setting_words [] = []
setting_words (min_inb_htlc n ∷ settings) =
    codes "--min-inb-htlc" ∷ decimal n ∷ setting_words settings
setting_words (max_inb_htlc_pct n ∷ settings) =
    codes "--max-inb-htlc-pct" ∷ decimal n ∷ setting_words settings
setting_words (support_yuv b ∷ settings) =
    codes "--support-yuv" ∷ bool_text b ∷ setting_words settings

abbrev pub amount_words : Amounts → List Bytes
amount_words unchanged = []
amount_words (only_msat msat) = decimal msat ∷ []
amount_words (msat_and_luma msat luma) = decimal msat ∷ decimal luma ∷ []

abbrev pub msat_of : Amounts → Option ℕ
msat_of unchanged = none
msat_of (only_msat msat) = some msat
msat_of (msat_and_luma msat luma) = some msat

abbrev pub luma_of : Amounts → Option ℕ
luma_of unchanged = none
luma_of (only_msat msat) = none
luma_of (msat_and_luma msat luma) = some luma

abbrev pub option_words : Option ℕ → List Bytes
option_words none = []
option_words (some n) = decimal n ∷ []

module _ {L : Ldk} where
  abbrev pub pixel_text : PixelText L → Bytes
  pixel_text p = decimal p.luma ++ b':' ∷ p.address

  abbrev pub flag_words : List (Flag L) → List Bytes
  flag_words [] = []
  flag_words (with_pixel p ∷ flags) = codes "--pixel" ∷ pixel_text p ∷ flag_words flags
  flag_words (public_channel true ∷ flags) = codes "--public" ∷ flag_words flags
  flag_words (public_channel false ∷ flags) = codes "--public=false" ∷ flag_words flags
  flag_words (anchor_outputs true ∷ flags) = codes "--with-anchors" ∷ flag_words flags
  flag_words (anchor_outputs false ∷ flags) = codes "--with-anchors=false" ∷ flag_words flags

  abbrev pub pixel_words : Option (PixelText L) → List Bytes
  pixel_words none = []
  pixel_words (some p) = codes "--pixel" ∷ pixel_text p ∷ []

  -- the keys in hexadecimal, with commas
  abbrev pub path_text : List (KeyText L) → KeyText L → Bytes
  path_text [] destination = hex_str destination.bytes
  path_text (k ∷ keys) destination = hex_str k.bytes ++ b',' ∷ path_text keys destination

  abbrev pub word_of : Command L → Bytes
  word_of (configure settings) = codes "configchannel"
  word_of (open_to_peer k amt flags) = codes "openchannel"
  word_of (pay text invoice amt) = codes "sendpayment"
  word_of (pay_key k amt) = codes "keysend"
  word_of (ask_payment amt secs pixel) = codes "getinvoice"
  word_of (connect_to_peer info) = codes "connectpeer"
  word_of (disconnect_from_peer text key) = codes "disconnectpeer"
  word_of (close id k) = codes "closechannel"
  word_of (close_by_force id k) = codes "forceclosechannel"
  word_of (rebalance id k amounts) = codes "updatebalance"
  word_of (send_onion keys k tlv_type message) = codes "sendonionmessage"
  word_of (sign text words) = codes "signmessage"
  word_of leave = codes "quit"

  -- the words behind the first
  abbrev pub args_of : Command L → List Bytes
  args_of (configure settings) = setting_words settings
  args_of (open_to_peer k amt flags) = hex_str k.bytes ∷ decimal amt ∷ flag_words flags
  args_of (pay text invoice amt) = text ∷ option_words amt
  args_of (pay_key k amt) = hex_str k.bytes ∷ decimal amt ∷ []
  args_of (ask_payment amt secs pixel) = decimal amt ∷ decimal secs ∷ pixel_words pixel
  args_of (connect_to_peer info) = info ∷ []
  args_of (disconnect_from_peer text key) = text ∷ []
  args_of (close id k) = hex_str id ∷ hex_str k.bytes ∷ []
  args_of (close_by_force id k) = hex_str id ∷ hex_str k.bytes ∷ []
  args_of (rebalance id k amounts) = hex_str id ∷ hex_str k.bytes ∷ amount_words amounts
  args_of (send_onion keys k tlv_type message) =
      path_text keys k ∷ decimal tlv_type ∷ hex_str message ∷ []
  args_of (sign text words) = text ∷ words
  args_of leave = []

  abbrev pub typed_text : Command L → Bytes
  typed_text cmd = spaced (word_of cmd) (args_of cmd)

  -- the flags, one after the other
  abbrev pub set_flags : List (Flag L) → Flags L → Flags L
  set_flags [] f = f
  set_flags (with_pixel p ∷ flags) f = set_flags flags (record f { yuv_pixel = some p.pixel })
  set_flags (public_channel b ∷ flags) f = set_flags flags (record f { announce_channel = b })
  set_flags (anchor_outputs b ∷ flags) f = set_flags flags (record f { with_anchors = b })

  abbrev pub no_flags : Flags L
  no_flags = record { yuv_pixel = none; announce_channel = false; with_anchors = false }

  abbrev pub pixel_of : Option (PixelText L) → Option (L.Pixel)
  pixel_of none = none
  pixel_of (some p) = some p.pixel

module _ {L : Ldk} (api : PaymentApi L) (peer : PeerApi L) (cli : CliApi L) where
  abbrev pub set_all : List Setting → L.UserConfig → L.UserConfig
  set_all [] config = config
  set_all (min_inb_htlc n ∷ settings) config =
      set_all settings (cli.set_our_htlc_minimum_msat n config)
  set_all (max_inb_htlc_pct n ∷ settings) config =
      set_all settings (cli.set_max_inbound_htlc_percent n config)
  set_all (support_yuv b ∷ settings) config =
      set_all settings (cli.set_support_yuv_payments b config)

  -- what a command is meant to do
  abbrev pub run_command : Network → CommandAnswers L → Command L → World L → World L × Next
  run_command network a (configure settings) w =
      (record w { default_config = set_all settings w.default_config }, prompts)
  run_command network a (open_to_peer k amt flags) w =
      open_to api peer cli a k.key amt (set_flags flags no_flags)
        (read_channel_peer_data peer a.resolve w.store) w
  run_command network a (pay text invoice amt) w =
      let sent = Payments.send_payment api a.is_ok invoice amt w in (sent.0, after_outcome sent.1)
  run_command network a (pay_key k amt) w =
      ((Payments.keysend api a.is_ok a.random k.key amt w).0, prompts)
  run_command network a (ask_payment amt secs pixel) w = (
    save_inbound api (get_invoice api a.create_invoice amt network secs (pixel_of pixel) w),
    prompts,
  )
  run_command network a (connect_to_peer info) w =
      connect_to peer cli a info (parse_peer_info peer (a.resolve 0) info) w
  run_command network a (disconnect_from_peer text key) w =
      ((do_disconnect_peer peer key a.channels a.peers w).0, prompts)
  run_command network a (close id k) w = (call (Call.close_channel id k.key) w, prompts)
  run_command network a (close_by_force id k) w =
      (call (Call.force_close_channel id k.key) w, prompts)
  run_command network a (rebalance id k amounts) w =
      (call (Call.update_balance id k.key (msat_of amounts) (luma_of amounts)) w, prompts)
  run_command network a (send_onion keys k tlv_type message) w =
      (call (Call.send_onion_message tlv_type message k.key) w, prompts)
  run_command network a (sign text words) w =
      (call (Call.sign_message (spaced text words)) w, prompts)
  run_command network a leave w = (w, quits)

module _ {L : Ldk} (peer : PeerApi L) (cli : CliApi L) where
  -- The bytes are those of a public key of 33 bytes, and the library reads them as that key.
  pub record IsKey (k : KeyText L) : Type 0 where
    pub size : length k.bytes ≡ 33
    pub bytes : All IsByte k.bytes
    pub reads : peer.from_slice k.bytes ≡ some k.key

  -- The luma is a u128, and the library makes that pixel of it and the address, which is a word
  -- without a colon.
  pub record IsPixel (p : PixelText L) : Type 0 where
    pub fits : p.luma ≤ max_u128
    pub is_word : IsWord p.address
    pub no_colon : Lacks b':' p.address
    pub reads : cli.pixel_from_address p.luma p.address ≡ some p.pixel

  abbrev pub IsSetting : Setting → Type 0
  IsSetting (min_inb_htlc n) = n ≤ max_u64
  IsSetting (max_inb_htlc_pct n) = n ≤ max_u8
  IsSetting (support_yuv b) = Unit

  abbrev pub IsFlag : Flag L → Type 0
  IsFlag (with_pixel p) = IsPixel p
  IsFlag (public_channel b) = Unit
  IsFlag (anchor_outputs b) = Unit

  abbrev pub IsPixelOption : Option (PixelText L) → Type 0
  IsPixelOption none = Unit
  IsPixelOption (some p) = IsPixel p

  abbrev pub IsAmount : Option ℕ → Type 0
  IsAmount none = Unit
  IsAmount (some n) = n ≤ max_u64

  abbrev pub AreAmounts : Amounts → Type 0
  AreAmounts unchanged = Unit
  AreAmounts (only_msat msat) = msat ≤ max_u64
  AreAmounts (msat_and_luma msat luma) = (msat ≤ max_u64) × (luma ≤ max_u128)

  -- a channel id: 32 bytes
  abbrev pub IsId : Bytes → Type 0
  IsId id = (length id ≡ 32) × All IsByte id

  -- What the parts of a command have to be.
  abbrev pub IsCommand : Command L → Type 0
  IsCommand (configure settings) = All IsSetting settings
  IsCommand (open_to_peer k amt flags) = IsKey k × (amt ≤ max_u64) × All IsFlag flags
  IsCommand (pay text invoice amt) =
      IsWord text × (cli.invoice_from_str text ≡ some invoice) × IsAmount amt
  IsCommand (pay_key k amt) = IsKey k × (amt ≤ max_u64)
  IsCommand (ask_payment amt secs pixel) = (amt ≤ max_u64) × (secs ≤ max_u32) × IsPixelOption pixel
  IsCommand (connect_to_peer info) = IsWord info
  IsCommand (disconnect_from_peer text key) = IsWord text × (cli.key_from_str text ≡ some key)
  IsCommand (close id k) = IsId id × IsKey k
  IsCommand (close_by_force id k) = IsId id × IsKey k
  IsCommand (rebalance id k amounts) = IsId id × IsKey k × AreAmounts amounts
  IsCommand (send_onion keys k tlv_type message) =
      All IsKey keys
      × IsKey k
      × (64 ≤ tlv_type)
      × (tlv_type ≤ max_u64)
      × (message ≢ [])
      × All IsByte message
  IsCommand (sign text words) = IsWord text × All IsWord words
  IsCommand leave = Unit
