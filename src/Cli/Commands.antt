-- ===== src/Cli/Commands.antt =====
-- src/cli.rs: `poll_for_user_input`, one function for each command that acts, and the line of words
-- that picks it. What is printed is left out, and so are the commands that only print.
pub mod Config
use yuv_lightning_ldk_sample.Payments
use yuv_lightning_ldk_sample.Prelude.{
  ℕ, Outcome, returns, panics, Bool, List, Option, if◌then◌else◌, ◌∷◌, some, none, [], ◌||◌, true,
  false, ◌>>=◌,
}
use yuv_lightning_ldk_sample.Node.{Ldk, Call, World, call}
use yuv_lightning_ldk_sample.Payments.{
  PaymentApi, Network, Currency, keysend, save_inbound, get_invoice,
}
use yuv_lightning_ldk_sample.Peers.{
  PeerApi, Connection, Wakeup, get_peer, read_channel_peer_data, connected,
  connect_peer_if_necessary, not_connected, connecting, Resolve,
}
use yuv_lightning_ldk_sample.Cli.Words.{CliApi, parse_pixel_word, parse_bool, optional_number}
use yuv_lightning_ldk_sample.Prelude.Text.{Bytes, equal, codes}
use yuv_lightning_ldk_sample.Event.{ChannelDetails}
use yuv_lightning_ldk_sample.Prelude.Numbers.{parse_unsigned, max_u64, max_u8, max_u32}
use yuv_lightning_ldk_sample.HexUtils.{to_compressed_pubkey}

-- What the libraries answer while one command runs.
pub record CommandAnswers (L : Ldk) : Type 0 where
  pub is_ok : Call L → Bool
  pub peers : List (L.PublicKey)
  pub channels : List (ChannelDetails L)
  -- the alias that a node announced, in the network graph
  pub alias : L.PublicKey → Option Bytes
  -- what the resolver gives to the calls of the command, which are counted from 0
  pub resolve : ℕ → Resolve L
  -- the connection attempt, if there is one
  pub attempt : Option (List (Wakeup L))
  -- 32 bytes of the entropy source
  pub random : Bytes
  pub create_invoice : Currency → ℕ → ℕ → Option (L.Pixel) → Option (L.Invoice)

-- How a command ends: with the next prompt, with the end of the loop, with a panic, or not yet.
pub data Next : Type 0 where
  prompts quits crashes hangs : Next

abbrev pub after_outcome : Outcome (Unit {0}) → Next
after_outcome (returns u) = prompts
after_outcome panics = crashes

-- the flags of `openchannel`
pub record Flags (L : Ldk) : Type 0 where
  pub yuv_pixel : Option (L.Pixel)
  pub announce_channel : Bool
  pub with_anchors : Bool

module _ {L : Ldk} (api : PaymentApi L) (peer : PeerApi L) (cli : CliApi L) where
  -- `configchannel`: one parameter with its value
  unfoldable pub config_param : Bytes → Bytes → L.UserConfig → Option (L.UserConfig)
  config_param word value config =
      if equal word (codes "--min-inb-htlc")
      then (do n ← parse_unsigned max_u64 value; some (cli.set_our_htlc_minimum_msat n config))
      else if equal word (codes "--max-inb-htlc-pct")
      then (do n ← parse_unsigned max_u8 value; some (cli.set_max_inbound_htlc_percent n config))
      else if equal word (codes "--support-yuv")
      then (do b ← parse_bool value; some (cli.set_support_yuv_payments b config))
      else none

  abbrev pub config_next :
      (L.UserConfig → L.UserConfig) → L.UserConfig → Option (L.UserConfig) → L.UserConfig
  config_next go_on config none = config
  config_next go_on config (some config') = go_on config'

  -- the loop of `configchannel`: each parameter acts at once, and the first that is wrong ends it
  unfoldable pub config_channel : List Bytes → L.UserConfig → L.UserConfig
  config_channel [] config = config
  config_channel (word ∷ []) config = config
  config_channel (word ∷ value ∷ words) config =
      config_next (config_channel words) config (config_param word value config)

  unfoldable pub flag_word : Bytes → Flags L → Option (Flags L)
  flag_word word flags =
      if equal word (codes "--public") || equal word (codes "--public=true")
      then some (record flags { announce_channel = true })
      else if equal word (codes "--public=false")
      then some (record flags { announce_channel = false })
      else if equal word (codes "--with-anchors") || equal word (codes "--with-anchors=true")
      then some (record flags { with_anchors = true })
      else if equal word (codes "--with-anchors=false")
      then some (record flags { with_anchors = false })
      else none

  unfoldable pub open_flags : List Bytes → Flags L → Option (Flags L)
  open_flags [] flags = some flags
  open_flags (word ∷ []) flags = if equal word (codes "--pixel") then none else flag_word word flags
  open_flags (word ∷ next ∷ words) flags =
      if equal word (codes "--pixel")
      then (do
        pixel ← parse_pixel_word cli next
        open_flags words (record flags { yuv_pixel = some pixel }))
      else (do flags' ← flag_word word flags; open_flags (next ∷ words) flags')

  -- the function `open_channel`; its arms print how the call ended
  unfoldable pub initiate_open :
      L.PublicKey → ℕ → L.UserConfig → Option (L.Pixel) → World L → World L
  initiate_open key amt config pixel w = call (Call.create_channel key amt pixel config) w

  -- the end of `openchannel`: the channel is asked for once the peer is connected
  unfoldable pub open_when : Connection → (World L → World L) → World L → World L × Next
  open_when connected open_channel w = (open_channel w, prompts)
  open_when not_connected open_channel w = (w, prompts)
  open_when connecting open_channel w = (w, hangs)

  unfoldable pub open_at :
      CommandAnswers L
      → L.PublicKey
      → ℕ
      → Flags L
      → Option (L.SocketAddr)
      → World L
      → World L × Next
  open_at a key amt flags none w = (w, prompts)
  open_at a key amt flags (some addr) w =
      let config =
        cli.set_announced_channel flags.announce_channel
          (cli.set_negotiate_anchors flags.with_anchors w.default_config) in
      let (w', c) = connect_peer_if_necessary peer key addr a.peers a.attempt w in
      open_when c (initiate_open key amt config flags.yuv_pixel) w'

  unfoldable pub open_to :
      CommandAnswers L
      → L.PublicKey
      → ℕ
      → Flags L
      → Option (List (L.PublicKey × L.SocketAddr))
      → World L
      → World L × Next
  open_to a key amt flags none w = (w, crashes)
  open_to a key amt flags (some known) w = open_at a key amt flags (get_peer peer key known) w

  unfoldable pub open_args : List Bytes → Option (L.PublicKey × ℕ × Flags L)
  open_args [] = none
  open_args (pubkey ∷ []) = none
  open_args (pubkey ∷ amount ∷ words) = do
    key ← to_compressed_pubkey peer.from_slice pubkey
    amt ← parse_unsigned max_u64 amount
    flags ←
        open_flags words
          (record { yuv_pixel = none; announce_channel = false; with_anchors = false })
    some (key, amt, flags)

  unfoldable pub openchannel_with :
      CommandAnswers L → Option (L.PublicKey × ℕ × Flags L) → World L → World L × Next
  openchannel_with a none w = (w, prompts)
  openchannel_with a (some (key, amt, flags)) w =
      open_to a key amt flags (read_channel_peer_data peer a.resolve w.store) w

  -- `openchannel`
  unfoldable pub run_openchannel : CommandAnswers L → List Bytes → World L → World L × Next
  unfolding openchannel_with
  run_openchannel a words w = openchannel_with a (open_args words) w

  unfoldable pub send_args : List Bytes → Option (L.Invoice × Option ℕ)
  send_args [] = none
  send_args (invoice ∷ words) = do
    amt ← optional_number max_u64 words
    i ← cli.invoice_from_str invoice
    some (i, amt.0)

  unfoldable pub sendpayment_with :
      CommandAnswers L → Option (L.Invoice × Option ℕ) → World L → World L × Next
  sendpayment_with a none w = (w, prompts)
  sendpayment_with a (some (invoice, amt)) w =
      let (w', o) = Payments.send_payment api a.is_ok invoice amt w in (w', after_outcome o)

  -- `sendpayment`
  unfoldable pub run_sendpayment : CommandAnswers L → List Bytes → World L → World L × Next
  unfolding sendpayment_with
  run_sendpayment a words w = sendpayment_with a (send_args words) w

  unfoldable pub keysend_args : List Bytes → Option (L.PublicKey × ℕ)
  keysend_args [] = none
  keysend_args (dest ∷ []) = none
  keysend_args (dest ∷ amount ∷ words) = do
    key ← to_compressed_pubkey peer.from_slice dest
    amt ← parse_unsigned max_u64 amount
    some (key, amt)

  unfoldable pub keysend_with :
      CommandAnswers L → Option (L.PublicKey × ℕ) → World L → World L × Next
  keysend_with a none w = (w, prompts)
  keysend_with a (some (key, amt)) w =
      let (w', o) = Payments.keysend api a.is_ok a.random key amt w in (w', after_outcome o)

  -- `keysend`
  unfoldable pub run_keysend : CommandAnswers L → List Bytes → World L → World L × Next
  unfolding keysend_with
  run_keysend a words w = keysend_with a (keysend_args words) w

  unfoldable pub invoice_pixel : List Bytes → Option (L.Pixel) → Option (Option (L.Pixel))
  invoice_pixel [] pixel = some pixel
  invoice_pixel (word ∷ []) pixel = none
  invoice_pixel (word ∷ value ∷ words) pixel = elim (equal word (codes "--pixel")) [
    | true ↦ (do p ← parse_pixel_word cli value; invoice_pixel words (some p))
    | false ↦ none
  ]

  unfoldable pub invoice_args : List Bytes → Option (ℕ × ℕ × Option (L.Pixel))
  invoice_args [] = none
  invoice_args (amount ∷ []) = none
  invoice_args (amount ∷ expiry ∷ words) = do
    amt ← parse_unsigned max_u64 amount
    secs ← parse_unsigned max_u32 expiry
    pixel ← invoice_pixel words none
    some (amt, secs, pixel)

  unfoldable pub getinvoice_with :
      CommandAnswers L → Network → Option (ℕ × ℕ × Option (L.Pixel)) → World L → World L × Next
  getinvoice_with a network none w = (w, prompts)
  getinvoice_with a network (some (amt, secs, pixel)) w =
      (save_inbound api (get_invoice api a.create_invoice amt network secs pixel w), prompts)

  -- `getinvoice`
  unfoldable pub run_getinvoice : CommandAnswers L → Network → List Bytes → World L → World L × Next
  unfolding getinvoice_with
  run_getinvoice a network words w = getinvoice_with a network (invoice_args words) w
