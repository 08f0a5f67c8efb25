-- ===== src/Cli/Language/Arguments.antt =====
-- src/cli.rs: the words behind the first are read as what was typed.
use yuv_lightning_ldk_sample.Prelude.{
  ℕ, [], ◌∷◌, All, List, ◌≤◌, ◌≡◌, arith, some, Option, refl, ◌∙◌, true, ap, leb, none, false,
}
use yuv_lightning_ldk_sample.HexUtils.{hex_str, to_compressed_pubkey}
use yuv_lightning_ldk_sample.Cli.Words.{
  optional_number, CliApi, pubkey_from_hex, pubkey_from_input, parse_pixel_word, parse_pixel_parts,
  parse_bool,
}
use yuv_lightning_ldk_sample.Node.{Ldk}
use yuv_lightning_ldk_sample.Cli.ChannelCommands.{
  channel_args, balance_args, update_args, path_keys, onion_args,
}
use yuv_lightning_ldk_sample.Prelude.Text.{Bytes, IsByte, split, equal}
use yuv_lightning_ldk_sample.Payments.{PaymentApi}
use yuv_lightning_ldk_sample.Peers.{PeerApi}
use yuv_lightning_ldk_sample.HexUtils.RoundTrip.{to_compressed_pubkey-hex_str, to_vec-hex_str}
use yuv_lightning_ldk_sample.Cli.Language.{
  KeyText, decimal, IsKey, max_u64, IsId, Amounts, Flag, PixelText, IsAmount, AreAmounts, path_text,
  IsFlag, IsPixel, option_words, amount_words, max_u32, flag_words, pixel_text, Setting, msat_of,
  IsPixelOption, set_flags, IsSetting, luma_of, pixel_words, with_pixel, no_flags, setting_words,
  only_msat, pixel_of, public_channel, max_u128, set_all, msat_and_luma, anchor_outputs, unchanged,
  min_inb_htlc, max_inb_htlc_pct, max_u8, support_yuv, codes,
}
use yuv_lightning_ldk_sample.Cli.Commands.{
  keysend_args, config_channel, open_flags, open_args, invoice_args, send_args, config_param,
  invoice_pixel, flag_word, Flags,
}
use yuv_lightning_ldk_sample.Prelude.Decimal.{parse_unsigned-decimal, decimal-All}
use yuv_lightning_ldk_sample.Prelude.Splitting.{split-Lacks, split-append, split-pair}
use yuv_lightning_ldk_sample.Cli.Language.Reading.{
  digit-Lacks, hex_str-Lacks, optional_number-option_words, channel_id_from_input-hex_str,
  keys_of_path,
}

module _ {L : Ldk} (api : PaymentApi L) (peer : PeerApi L) (cli : CliApi L) where
  key_word :
      (k : KeyText L)
      → IsKey peer cli k
      → to_compressed_pubkey peer.from_slice (hex_str k.bytes) ≡ some k.key
  key_word k h = to_compressed_pubkey-hex_str peer.from_slice k.bytes h.size h.bytes ∙ h.reads

  pubkey_from_hex-hex_str :
      (k : KeyText L)
      → IsKey peer cli k
      → pubkey_from_hex peer.from_slice (hex_str k.bytes) ≡ some k.key
  unfolding pubkey_from_hex
  pubkey_from_hex-hex_str k h = rw (to_vec-hex_str k.bytes h.bytes) h.reads

  pubkey_from_input-hex_str :
      (k : KeyText L) (rest : List Bytes)
      → IsKey peer cli k
      → pubkey_from_input peer.from_slice (hex_str k.bytes ∷ rest) ≡ some (k.key, rest)
  unfolding pubkey_from_input
  pubkey_from_input-hex_str k rest h = rw (pubkey_from_hex-hex_str k h)

  parse_pixel_word-pixel_text :
      (p : PixelText L) → IsPixel peer cli p → parse_pixel_word cli (pixel_text p) ≡ some p.pixel
  unfolding parse_pixel_word parse_pixel_parts
  parse_pixel_word-pixel_text p h =
      let apart = digit-Lacks b':' (decimal p.luma) (decimal-All p.luma) (omega arith) in
      rw (
        split-pair b':' (decimal p.luma) p.address apart h.no_colon,
        parse_unsigned-decimal max_u128 p.luma h.fits,
        h.reads,
      )

  pub config_channel-setting_words :
      (settings : List Setting) (config : L.UserConfig)
      → All (IsSetting peer cli) settings
      → config_channel api peer cli (setting_words settings) config
        ≡ set_all api peer cli settings config
  unfolding config_channel config_param equal parse_bool
  config_channel-setting_words [] config h = refl
  config_channel-setting_words (min_inb_htlc n ∷ settings) config h =
      rw (parse_unsigned-decimal max_u64 n h.0)
        (config_channel-setting_words settings (cli.set_our_htlc_minimum_msat n config) h.1)
  config_channel-setting_words (max_inb_htlc_pct n ∷ settings) config h =
      rw (parse_unsigned-decimal max_u8 n h.0)
        (config_channel-setting_words settings (cli.set_max_inbound_htlc_percent n config) h.1)
  config_channel-setting_words (support_yuv true ∷ settings) config h =
      config_channel-setting_words settings (cli.set_support_yuv_payments true config) h.1
  config_channel-setting_words (support_yuv false ∷ settings) config h =
      config_channel-setting_words settings (cli.set_support_yuv_payments false config) h.1

  pub keysend_args-text :
      (k : KeyText L) (amt : ℕ)
      → IsKey peer cli k
      → amt ≤ max_u64
      → keysend_args api peer cli (hex_str k.bytes ∷ decimal amt ∷ []) ≡ some (k.key, amt)
  unfolding keysend_args
  keysend_args-text k amt h fits = rw (key_word k h, parse_unsigned-decimal max_u64 amt fits)

  pub send_args-text :
      (text : Bytes) (invoice : L.Invoice) (amt : Option ℕ)
      → cli.invoice_from_str text ≡ some invoice
      → IsAmount peer cli amt
      → send_args api peer cli (text ∷ option_words amt) ≡ some (invoice, amt)
  unfolding send_args optional_number
  send_args-text text invoice none reads h = rw reads
  send_args-text text invoice (some n) reads h = rw (parse_unsigned-decimal max_u64 n h, reads)

  pub channel_args-text :
      (id : Bytes) (k : KeyText L) (rest : List Bytes)
      → IsId peer cli id
      → IsKey peer cli k
      → channel_args peer cli (hex_str id ∷ hex_str k.bytes ∷ rest) ≡ some (id, k.key, rest)
  unfolding channel_args
  channel_args-text id k rest h hk = rw (
    channel_id_from_input-hex_str id (hex_str k.bytes ∷ rest) h.0 h.1,
    pubkey_from_input-hex_str k rest hk,
  )

  balance_args-text :
      (amts : Amounts)
      → AreAmounts peer cli amts
      → balance_args peer cli (amount_words amts) ≡ some (msat_of amts, luma_of amts)
  unfolding balance_args
  balance_args-text unchanged h = unfold optional_number in refl
  balance_args-text (only_msat msat) h =
      rw (optional_number-option_words max_u64 msat [] h) (unfold optional_number in refl)
  balance_args-text (msat_and_luma msat luma) h = rw (
    optional_number-option_words max_u64 msat (decimal luma ∷ []) h.0,
    optional_number-option_words max_u128 luma [] h.1,
  )

  pub update_args-text :
      (id : Bytes) (k : KeyText L) (amts : Amounts)
      → IsId peer cli id
      → IsKey peer cli k
      → AreAmounts peer cli amts
      → update_args peer cli (hex_str id ∷ hex_str k.bytes ∷ amount_words amts)
        ≡ some (id, k.key, msat_of amts, luma_of amts)
  unfolding update_args
  update_args-text id k amts h hk ha =
      rw (channel_args-text id k (amount_words amts) h hk, balance_args-text amts ha)

  path_keys-cons :
      (j : KeyText L) (words : List Bytes) (keys : List (L.PublicKey))
      → IsKey peer cli j
      → path_keys peer cli words ≡ some keys
      → path_keys peer cli (hex_str j.bytes ∷ words) ≡ some (j.key ∷ keys)
  unfolding path_keys
  path_keys-cons j words keys h rest = rw (pubkey_from_hex-hex_str j h, rest)

  path_keys-path_text :
      (keys : List (KeyText L)) (k : KeyText L)
      → All (IsKey peer cli) keys
      → IsKey peer cli k
      → path_keys peer cli (split b',' (path_text keys k)) ≡ some (keys_of_path keys k)
  path_keys-path_text [] k hs h =
      ap (path_keys peer cli) (split-Lacks b',' (hex_str k.bytes) (hex_str-Lacks k.bytes h.bytes))
      ∙ (unfold path_keys in rw (pubkey_from_hex-hex_str k h))
  path_keys-path_text (j ∷ keys) k hs h =
      let rest = path_keys-path_text keys k hs.1 h in
      ap (path_keys peer cli)
        (split-append b',' (hex_str j.bytes) (path_text keys k) (hex_str-Lacks j.bytes hs.0.bytes))
      ∙ path_keys-cons j (split b',' (path_text keys k)) (keys_of_path keys k) hs.0 rest

  pub onion_args-text :
      (keys : List (KeyText L)) (k : KeyText L) (tlv_type : ℕ) (message : Bytes)
      → All (IsKey peer cli) keys
      → IsKey peer cli k
      → 64 ≤ tlv_type
      → tlv_type ≤ max_u64
      → All IsByte message
      → onion_args peer cli (path_text keys k ∷ decimal tlv_type ∷ hex_str message ∷ [])
        ≡ some (tlv_type, message, keys_of_path keys k)
  unfolding onion_args
  onion_args-text keys k tlv_type message hs h high fits bytes =
      let custom : leb 64 tlv_type ≡ true = ground arith in
      rw (
        path_keys-path_text keys k hs h,
        parse_unsigned-decimal max_u64 tlv_type fits,
        to_vec-hex_str message bytes,
        custom,
      )

  pub invoice_args-text :
      (amt secs : ℕ) (p : Option (PixelText L))
      → amt ≤ max_u64
      → secs ≤ max_u32
      → IsPixelOption peer cli p
      → invoice_args api peer cli (decimal amt ∷ decimal secs ∷ pixel_words p)
        ≡ some (amt, secs, pixel_of p)
  unfolding invoice_args invoice_pixel equal
  invoice_args-text amt secs none fits short h =
      rw (parse_unsigned-decimal max_u64 amt fits, parse_unsigned-decimal max_u32 secs short)
  invoice_args-text amt secs (some p) fits short h = rw (
    parse_unsigned-decimal max_u64 amt fits,
    parse_unsigned-decimal max_u32 secs short,
    parse_pixel_word-pixel_text p h,
  )

  open_flags-flag :
      (word : Bytes) (words : List Bytes) (f after : Flags L)
      → equal word (codes "--pixel") ≡ false
      → flag_word api peer cli word f ≡ some after
      → open_flags api peer cli (word ∷ words) f ≡ open_flags api peer cli words after
  unfolding open_flags
  open_flags-flag word [] f after other set = rw (other, set)
  open_flags-flag word (next ∷ words) f after other set = rw (other, set)

  open_flags-flag_words :
      (flags : List (Flag L)) (f : Flags L)
      → All (IsFlag peer cli) flags
      → open_flags api peer cli (flag_words flags) f ≡ some (set_flags flags f)
  unfolding open_flags flag_word equal
  open_flags-flag_words [] f h = refl
  open_flags-flag_words (with_pixel p ∷ flags) f h =
      rw (parse_pixel_word-pixel_text p h.0)
        (open_flags-flag_words flags (record f { yuv_pixel = some p.pixel }) h.1)
  open_flags-flag_words (public_channel true ∷ flags) f h =
      open_flags-flag (codes "--public") (flag_words flags) f (record f { announce_channel = true })
        refl refl
      ∙ open_flags-flag_words flags (record f { announce_channel = true }) h.1
  open_flags-flag_words (public_channel false ∷ flags) f h =
      open_flags-flag (codes "--public=false") (flag_words flags) f
        (record f { announce_channel = false }) refl refl
      ∙ open_flags-flag_words flags (record f { announce_channel = false }) h.1
  open_flags-flag_words (anchor_outputs true ∷ flags) f h =
      open_flags-flag (codes "--with-anchors") (flag_words flags) f
        (record f { with_anchors = true }) refl refl
      ∙ open_flags-flag_words flags (record f { with_anchors = true }) h.1
  open_flags-flag_words (anchor_outputs false ∷ flags) f h =
      open_flags-flag (codes "--with-anchors=false") (flag_words flags) f
        (record f { with_anchors = false }) refl refl
      ∙ open_flags-flag_words flags (record f { with_anchors = false }) h.1

  pub open_args-text :
      (k : KeyText L) (amt : ℕ) (flags : List (Flag L))
      → IsKey peer cli k
      → amt ≤ max_u64
      → All (IsFlag peer cli) flags
      → open_args api peer cli (hex_str k.bytes ∷ decimal amt ∷ flag_words flags)
        ≡ some (k.key, amt, set_flags flags no_flags)
  unfolding open_args
  open_args-text k amt flags h fits hs = rw (
    key_word k h,
    parse_unsigned-decimal max_u64 amt fits,
    open_flags-flag_words flags no_flags hs,
  )
