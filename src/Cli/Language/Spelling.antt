-- ===== src/Cli/Language/Spelling.antt =====
-- src/cli.rs: what is typed for a command consists of words.
use yuv_lightning_ldk_sample.Prelude.{
  ℕ, [], ◌∷◌, Option, ◌<◌, ◌≢◌, ◌≡◌, All, length, Bool, is_empty, List, ◌++◌, arith, suc, false,
  true, refl, ◌/◌, not, some, ◌&&◌, ◌%◌, none,
}
use yuv_lightning_ldk_sample.HexUtils.{hex_digit, hex_str}
use yuv_lightning_ldk_sample.Prelude.Spaces.{IsWord, IsPlain}
use yuv_lightning_ldk_sample.Prelude.Text.{Bytes, is_whitespace}
use yuv_lightning_ldk_sample.Node.{Ldk}
use yuv_lightning_ldk_sample.Cli.Language.{
  Amounts, decimal, Command, PeerApi, IsByte, word_of, Setting, option_words, amount_words, CliApi,
  configure, setting_words, only_msat, KeyText, PixelText, Flag, IsId, IsCommand, codes,
  min_inb_htlc, msat_and_luma, IsKey, IsPixel, IsFlag, IsPixelOption, args_of, unchanged,
  open_to_peer, max_inb_htlc_pct, pixel_text, flag_words, pixel_words, path_text, pay, support_yuv,
  with_pixel, pay_key, public_channel, ask_payment, anchor_outputs, connect_to_peer,
  disconnect_from_peer, close, close_by_force, rebalance, send_onion, leave, sign,
}
use yuv_lightning_ldk_sample.Prelude.Decimal.{IsDigit, decimal-ne_nil, decimal-All}

hex_digit-IsPlain : (d : ℕ) → d < 16 → IsPlain (hex_digit d)
unfolding hex_digit is_whitespace
hex_digit-IsPlain d small = ground arith

hex_str-IsPlain : (value : Bytes) → All IsByte value → All IsPlain (hex_str value)
unfolding hex_str
hex_str-IsPlain [] h = tt
hex_str-IsPlain (v ∷ value) h =
    let byte : v < 256 = ground (arith, h.0) in
    (
      hex_digit-IsPlain (v / 16) (omega arith),
      (hex_digit-IsPlain (v % 16) (omega arith), hex_str-IsPlain value h.1),
    )

digits-IsPlain : (s : Bytes) → All IsDigit s → All IsPlain s
unfolding is_whitespace
digits-IsPlain [] h = tt
digits-IsPlain (c ∷ s) h = (ground (arith, h.0), digits-IsPlain s h.1)

pub hex_str-IsWord : (value : Bytes) → value ≢ [] → All IsByte value → IsWord (hex_str value)
unfolding hex_str
hex_str-IsWord [] some_byte h = absurd (some_byte refl)
hex_str-IsWord (v ∷ value) some_byte h = (refl, hex_str-IsPlain (v ∷ value) h)

pub size_ne_nil : (n : ℕ) (s : Bytes) → length s ≡ suc n → s ≢ []
size_ne_nil n [] size e = ground arith
size_ne_nil n (c ∷ s) size e = cc

nil_or_not : (s : Bytes) → s ≢ [] → is_empty s ≡ false
nil_or_not [] h = absurd (h refl)
nil_or_not (c ∷ s) h = refl

pub decimal-IsWord : (n : ℕ) → IsWord (decimal n)
decimal-IsWord n =
    (nil_or_not (decimal n) (decimal-ne_nil n), digits-IsPlain (decimal n) (decimal-All n))

All-append : (P : ℕ → Type 0) (a b : Bytes) → All P a → All P b → All P (a ++ b)
All-append P [] b h g = g
All-append P (c ∷ a) b h g = (h.0, All-append P a b h.1 g)

-- two words with another sign between them
pub joined-IsWord : (a b : Bytes) (c : ℕ) → IsWord a → IsPlain c → IsWord b → IsWord (a ++ c ∷ b)
joined-IsWord [] b c h plain g = absurd (ground (arith, h.0))
joined-IsWord (x ∷ a) b c h plain g = (refl, All-append IsPlain (x ∷ a) (c ∷ b) h.1 (plain, g.1))

-- the test that a word is one
unfoldable all_plain : Bytes → Bool
all_plain [] = true
all_plain (c ∷ s) = not (is_whitespace c) && all_plain s

all_plain-IsPlain : (s : Bytes) → all_plain s ≡ true → All IsPlain s
unfolding all_plain
all_plain-IsPlain [] h = tt
all_plain-IsPlain (c ∷ s) h = (ground arith, all_plain-IsPlain s (ground arith))

known-IsWord : (s : Bytes) → is_empty s ≡ false → all_plain s ≡ true → IsWord s
known-IsWord s some_byte h = (some_byte, all_plain-IsPlain s h)

pub word_of-IsWord : {L : Ldk} (cmd : Command L) → IsWord (word_of cmd)
unfolding all_plain is_whitespace
word_of-IsWord (configure settings) = known-IsWord (codes "configchannel") refl refl
word_of-IsWord (open_to_peer k amt flags) = known-IsWord (codes "openchannel") refl refl
word_of-IsWord (pay text invoice amt) = known-IsWord (codes "sendpayment") refl refl
word_of-IsWord (pay_key k amt) = known-IsWord (codes "keysend") refl refl
word_of-IsWord (ask_payment amt secs pixel) = known-IsWord (codes "getinvoice") refl refl
word_of-IsWord (connect_to_peer info) = known-IsWord (codes "connectpeer") refl refl
word_of-IsWord (disconnect_from_peer text key) = known-IsWord (codes "disconnectpeer") refl refl
word_of-IsWord (close id k) = known-IsWord (codes "closechannel") refl refl
word_of-IsWord (close_by_force id k) = known-IsWord (codes "forceclosechannel") refl refl
word_of-IsWord (rebalance id k amounts) = known-IsWord (codes "updatebalance") refl refl
word_of-IsWord (send_onion keys k tlv_type message) =
    known-IsWord (codes "sendonionmessage") refl refl
word_of-IsWord (sign text words) = known-IsWord (codes "signmessage") refl refl
word_of-IsWord leave = known-IsWord (codes "quit") refl refl

setting_words-IsWord : (settings : List Setting) → All IsWord (setting_words settings)
unfolding all_plain is_whitespace
setting_words-IsWord [] = tt
setting_words-IsWord (min_inb_htlc n ∷ settings) = (
  known-IsWord (codes "--min-inb-htlc") refl refl,
  (decimal-IsWord n, setting_words-IsWord settings),
)
setting_words-IsWord (max_inb_htlc_pct n ∷ settings) = (
  known-IsWord (codes "--max-inb-htlc-pct") refl refl,
  (decimal-IsWord n, setting_words-IsWord settings),
)
setting_words-IsWord (support_yuv true ∷ settings) = (
  known-IsWord (codes "--support-yuv") refl refl,
  (known-IsWord (codes "true") refl refl, setting_words-IsWord settings),
)
setting_words-IsWord (support_yuv false ∷ settings) = (
  known-IsWord (codes "--support-yuv") refl refl,
  (known-IsWord (codes "false") refl refl, setting_words-IsWord settings),
)

option_words-IsWord : (amt : Option ℕ) → All IsWord (option_words amt)
option_words-IsWord none = tt
option_words-IsWord (some n) = (decimal-IsWord n, tt)

amount_words-IsWord : (amts : Amounts) → All IsWord (amount_words amts)
amount_words-IsWord unchanged = tt
amount_words-IsWord (only_msat msat) = (decimal-IsWord msat, tt)
amount_words-IsWord (msat_and_luma msat luma) = (decimal-IsWord msat, (decimal-IsWord luma, tt))

module _ {L : Ldk} (peer : PeerApi L) (cli : CliApi L) where
  key-IsWord : (k : KeyText L) → IsKey peer cli k → IsWord (hex_str k.bytes)
  key-IsWord k h = hex_str-IsWord k.bytes (size_ne_nil 32 k.bytes h.size) h.bytes

  pixel_text-IsWord : (p : PixelText L) → IsPixel peer cli p → IsWord (pixel_text p)
  pixel_text-IsWord p h =
      joined-IsWord (decimal p.luma) p.address b':' (decimal-IsWord p.luma)
        (unfold is_whitespace in refl) h.is_word

  flag_words-IsWord :
      (flags : List (Flag L)) → All (IsFlag peer cli) flags → All IsWord (flag_words flags)
  unfolding all_plain is_whitespace
  flag_words-IsWord [] h = tt
  flag_words-IsWord (with_pixel p ∷ flags) h = (
    known-IsWord (codes "--pixel") refl refl,
    (pixel_text-IsWord p h.0, flag_words-IsWord flags h.1),
  )
  flag_words-IsWord (public_channel true ∷ flags) h =
      (known-IsWord (codes "--public") refl refl, flag_words-IsWord flags h.1)
  flag_words-IsWord (public_channel false ∷ flags) h =
      (known-IsWord (codes "--public=false") refl refl, flag_words-IsWord flags h.1)
  flag_words-IsWord (anchor_outputs true ∷ flags) h =
      (known-IsWord (codes "--with-anchors") refl refl, flag_words-IsWord flags h.1)
  flag_words-IsWord (anchor_outputs false ∷ flags) h =
      (known-IsWord (codes "--with-anchors=false") refl refl, flag_words-IsWord flags h.1)

  pixel_words-IsWord :
      (p : Option (PixelText L)) → IsPixelOption peer cli p → All IsWord (pixel_words p)
  unfolding all_plain is_whitespace
  pixel_words-IsWord none h = tt
  pixel_words-IsWord (some p) h =
      (known-IsWord (codes "--pixel") refl refl, (pixel_text-IsWord p h, tt))

  path_text-IsWord :
      (keys : List (KeyText L)) (k : KeyText L)
      → All (IsKey peer cli) keys
      → IsKey peer cli k
      → IsWord (path_text keys k)
  path_text-IsWord [] k hs h = key-IsWord k h
  path_text-IsWord (j ∷ keys) k hs h =
      joined-IsWord (hex_str j.bytes) (path_text keys k) b',' (key-IsWord j hs.0)
        (unfold is_whitespace in refl) (path_text-IsWord keys k hs.1 h)

  id-IsWord : (id : Bytes) → IsId peer cli id → IsWord (hex_str id)
  id-IsWord id h = hex_str-IsWord id (size_ne_nil 31 id h.0) h.1

  pub args_of-IsWord : (cmd : Command L) → IsCommand peer cli cmd → All IsWord (args_of cmd)
  args_of-IsWord (configure settings) h = setting_words-IsWord settings
  args_of-IsWord (open_to_peer k amt flags) h =
      (key-IsWord k h.0, (decimal-IsWord amt, flag_words-IsWord flags h.2))
  args_of-IsWord (pay text invoice amt) h = (h.0, option_words-IsWord amt)
  args_of-IsWord (pay_key k amt) h = (key-IsWord k h.0, (decimal-IsWord amt, tt))
  args_of-IsWord (ask_payment amt secs pixel) h =
      (decimal-IsWord amt, (decimal-IsWord secs, pixel_words-IsWord pixel h.2))
  args_of-IsWord (connect_to_peer info) h = (h, tt)
  args_of-IsWord (disconnect_from_peer text key) h = (h.0, tt)
  args_of-IsWord (close id k) h = (id-IsWord id h.0, (key-IsWord k h.1, tt))
  args_of-IsWord (close_by_force id k) h = (id-IsWord id h.0, (key-IsWord k h.1, tt))
  args_of-IsWord (rebalance id k amts) h =
      (id-IsWord id h.0, (key-IsWord k h.1, amount_words-IsWord amts))
  args_of-IsWord (send_onion keys k tlv_type message) h = (
    path_text-IsWord keys k h.0 h.1,
    (decimal-IsWord tlv_type, (hex_str-IsWord message h.4 h.5, tt)),
  )
  args_of-IsWord (sign text words) h = h
  args_of-IsWord leave h = tt
