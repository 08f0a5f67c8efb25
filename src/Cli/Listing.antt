-- ===== src/Cli/Listing.antt =====
-- src/cli.rs: `node_info`, `list_channels` and `list_payments`, with the text that they print.
pub mod Limits
use yuv_lightning_ldk_sample.Prelude.{
  ℕ, Option, Bool, List, ◌++◌, suc, [], some, ◌∷◌, Outcome, if◌then◌else◌, zero, none, ◌+◌, true,
  returns, ◌%◌, false, length, panics, is_empty, ◌^◌, map,
}
use yuv_lightning_ldk_sample.Node.{
  Ldk, HtlcStatus, MillisatAmount, PaymentInfoStorage, PaymentInfo, pending, succeeded, failed,
}
use yuv_lightning_ldk_sample.Prelude.Text.{Bytes, codes}
use yuv_lightning_ldk_sample.Event.{PendingUpdateBalance, ChannelDetails, BalanceRequest}
use yuv_lightning_ldk_sample.Prelude.Assoc.{Assoc}
use yuv_lightning_ldk_sample.Prelude.Decimal.{decimal}
use yuv_lightning_ldk_sample.HexUtils.{hex_str}

-- What the libraries tell of the things that are printed.
pub record PrintApi (L : Ldk) : Type 0 where
  -- `PublicKey::serialize`, and a node id and a channel id as text
  pub serialize : L.PublicKey → Bytes
  pub key_text : L.PublicKey → Bytes
  pub id_text : Bytes → Bytes
  -- `chroma.to_address(Network::Regtest)` and `luma.amount` of a pixel
  pub address_text : L.Pixel → Bytes
  pub luma_amount : L.Pixel → ℕ

-- `println!` of a text behind a return and so many tabs
unfoldable pub row : ℕ → Bytes → Bytes
row depth text = b'\r' ∷ tabs depth (text ++ b'\n' ∷ [])
  where
    tabs : ℕ → Bytes → Bytes
    tabs zero t = t
    tabs (suc n) t = b'\t' ∷ tabs n t

-- a row for what is there
unfoldable pub optional_row {ℓ} : {A : Type ℓ} → Option A → (A → Bytes) → Bytes
optional_row none f = []
optional_row (some a) f = f a

unfoldable pub number_row : ℕ → Bytes → ℕ → Bytes
number_row depth label n = row depth (label ++ (decimal n ++ codes ","))

unfoldable pub bool_text : Bool → Bytes
bool_text true = codes "true"
bool_text false = codes "false"

unfoldable pub value_or : ℕ → Option ℕ → ℕ
value_or d none = d
value_or d (some n) = n

unfoldable pub status_text : HtlcStatus → Bytes
status_text pending = codes "pending"
status_text succeeded = codes "succeeded"
status_text failed = codes "failed"

-- `Display` of `MillisatAmount`
unfoldable pub amount_text : MillisatAmount → Bytes
amount_text a = elim a.amount [ some amt ↦ decimal amt | none ↦ codes "unknown" ]

-- the sum of a list of `u64`, which a release build wraps around
unfoldable pub sum_u64 : List ℕ → ℕ
sum_u64 [] = 0
sum_u64 (n ∷ ns) = (n + sum_u64 ns) % 2 ^ 64

unfoldable pub count_if {ℓ} : {A : Type ℓ} → (A → Bool) → List A → ℕ
count_if test [] = 0
count_if test (a ∷ others) = let rest = count_if test others in if test a then suc rest else rest

module _ {L : Ldk} (print : PrintApi L) where
  unfoldable pub node_info : L.PublicKey → List (ChannelDetails L) → List (L.PublicKey) → Bytes
  node_info key chans peers =
      row 0 (codes "{")
      ++ row 0 (codes "\t node_pubkey: " ++ print.key_text key)
      ++ row 0 (codes "\t num_channels: " ++ decimal (length chans))
      ++ row 0 (codes "\t num_usable_channels: " ++ decimal (count_if (λ c. c.is_usable) chans))
      ++ row 0
          (codes "\t local_balance_msat: " ++ decimal (sum_u64 (map (λ c. c.balance_msat) chans)))
      ++ row 0 (codes "\t num_peers: " ++ decimal (length peers))
      ++ row 0 (codes "}")

  -- the rows of the limits, with the four `unwrap`s
  unfoldable pub limit_rows : Option ℕ → Option ℕ → Option ℕ → Option ℕ → ℕ → Outcome Bytes
  limit_rows (some in_min) (some in_max) (some out_min) (some out_max) dust = returns (
      row 2 (codes "htlc_limits: {")
      ++ row 3 (codes "inbound: {")
      ++ number_row 4 (codes "minimum_msat: ") in_min
      ++ number_row 4 (codes "maximum_msat: ") in_max
      ++ row 3 (codes "},")
      ++ row 3 (codes "outbound: {")
      ++ number_row 4 (codes "minimum_msat_configured: ") out_min
      -- the first letter of the third word is U+0441
      ++ number_row 4 (codes "minimum_msat_" ++ (209 ∷ 129 ∷ codes "onsidering_dust: ")) dust
      ++ number_row 4 (codes "maximum_msat: ") out_max
      ++ row 3 (codes "},")
      ++ row 2 (codes "},"))
  limit_rows in_min in_max out_min out_max dust = panics

  -- what stands before the limits; `alias` is that of the node's announcement in the network graph
  unfoldable pub id_rows : (L.PublicKey → Option Bytes) → ChannelDetails L → Bytes
  id_rows alias chan =
      row 0 []
      ++ row 1 (codes "{")
      ++ row 2 (codes "channel_id: " ++ (print.id_text chan.channel_id ++ codes ","))
      ++ optional_row chan.funding_txid
          (λ txid. row 2 (codes "funding_txid: " ++ (txid ++ codes ",")))
      ++ row 2 (
          codes "peer_pubkey: "
          ++ (hex_str (print.serialize chan.counterparty_node_id) ++ codes ","))
      ++ optional_row (alias chan.counterparty_node_id) (λ a. row 2 (codes "peer_alias: " ++ a))
      ++ optional_row chan.short_channel_id (number_row 2 (codes "short_channel_id: "))

  unfoldable pub usable_rows : ChannelDetails L → Bytes
  usable_rows chan =
      if chan.is_usable
      then number_row 2 (codes "available_balance_for_send_msat: ") chan.outbound_capacity_msat
        ++ number_row 2 (codes "available_balance_for_recv_msat: ") chan.inbound_capacity_msat
        ++ number_row 2 (codes "holder_reserved_satoshis: ")
            (value_or 0 chan.unspendable_punishment_reserve)
        ++ number_row 2 (codes "counterparty_reserved_satoshis: ")
            chan.counterparty_punishment_reserve
      else []

  unfoldable pub pixel_rows : Option (L.Pixel) → Option (L.Pixel) → Bytes
  pixel_rows (some holder) (some counterparty) =
      row 2 (codes "yuv_chroma: " ++ (print.address_text holder ++ codes ","))
      ++ number_row 2 (codes "holder_yuv_amount: ") (print.luma_amount holder)
      ++ number_row 2 (codes "counterparty_yuv_amount: ") (print.luma_amount counterparty)
  pixel_rows holder counterparty = []

  -- the request in one direction: the row that opens it, and the one that closes it
  unfoldable pub request_rows : Bytes → Bytes → Option BalanceRequest → Bytes
  request_rows opening closing request = optional_row request (λ r.
      row 3 opening
      ++ number_row 4 (codes "new_balance_msat: ") r.new_balance_msat
      ++ number_row 4 (codes "new_yuv_pixel_luma: ") (value_or 0 r.new_yuv_pixel_luma)
      ++ row 3 closing)

  unfoldable pub update_rows : Option (ℕ × ℕ) → Option PendingUpdateBalance → Bytes
  update_rows amounts none = []
  update_rows amounts (some p) =
      row 2 (codes "update_balance: {")
      ++ row 3 (codes "holder_ready_to_update_balance: " ++ decimal (holders amounts))
      ++ row 3 (codes "counterparty_ready_to_update_balance: " ++ decimal (counterpartys amounts))
      ++ request_rows (codes "inbound: {") (codes "},") p.inbound_request
      ++ request_rows (codes "outbound: {") (codes "}") p.outbound_request
      ++ row 2 (codes "}")
    where
      holders : Option (ℕ × ℕ) → ℕ
      holders none = 0
      holders (some a) = a.0

      counterpartys : Option (ℕ × ℕ) → ℕ
      counterpartys none = 0
      counterpartys (some a) = a.1

  -- what stands behind the limits
  unfoldable pub balance_rows : ChannelDetails L → Bytes
  balance_rows chan =
      row 2 (codes "is_channel_ready: " ++ (bool_text chan.is_channel_ready ++ codes ","))
      ++ number_row 2 (codes "channel_value_satoshis: ") chan.channel_value_satoshis
      ++ number_row 2 (codes "outbound_capacity_msat: ") chan.outbound_capacity_msat
      ++ usable_rows chan
      ++ row 2 (codes "channel_can_send_payments: " ++ (bool_text chan.is_usable ++ codes ","))
      ++ row 2 (codes "public: " ++ (bool_text chan.is_public ++ codes ","))
      ++ pixel_rows chan.yuv_holder_pixel chan.yuv_counterparty_pixel
      ++ update_rows chan.update_balance_amounts chan.pending_update_balance
      ++ row 1 (codes "},")

  -- the text before and after a part that may panic
  abbrev pub around : Bytes → Outcome Bytes → Bytes → Outcome Bytes
  around before (returns text) after = returns (before ++ text ++ after)
  around before panics after = panics

  unfoldable pub channel_rows : (L.PublicKey → Option Bytes) → ChannelDetails L → Outcome Bytes
  channel_rows alias chan =
      around (id_rows alias chan)
        (limit_rows chan.inbound_htlc_minimum_msat chan.inbound_htlc_maximum_msat
          chan.outbound_htlc_minimum_msat chan.outbound_htlc_maximum_msat
          chan.next_outbound_htlc_minimum_msat)
        (balance_rows chan)

  abbrev pub both : Outcome Bytes → Outcome Bytes → Outcome Bytes
  both (returns text) (returns rest) = returns (text ++ rest)
  both a b = panics

  unfoldable pub channels_rows :
      (L.PublicKey → Option Bytes) → List (ChannelDetails L) → Outcome Bytes
  channels_rows alias [] = returns []
  channels_rows alias (chan ∷ chans) = both (channel_rows alias chan) (channels_rows alias chans)

  unfoldable pub list_channels :
      (L.PublicKey → Option Bytes) → List (ChannelDetails L) → Outcome Bytes
  list_channels alias [] = returns []
  list_channels alias (chan ∷ chans) =
      around (codes "\r[") (channels_rows alias (chan ∷ chans)) (codes "\r\n]\n")

  unfoldable pub inbound_rows : Assoc (PaymentInfo L) → Bytes
  inbound_rows [] = []
  inbound_rows ((hash, info) ∷ payments) =
      row 1 (codes "{")
      ++ row 2 (codes "amount_millisatoshis: " ++ (amount_text info.amt_msat ++ codes ","))
      ++ row 2 (codes "payment_hash: " ++ (print.id_text hash ++ codes ","))
      ++ row 2 (codes "htlc_direction: inbound,")
      ++ row 2 (codes "htlc_status: " ++ (status_text info.status ++ codes ","))
      ++ codes "\r\t},\n\r"
      ++ inbound_rows payments

  unfoldable pub outbound_rows : Assoc (PaymentInfo L) → Bytes
  outbound_rows [] = []
  outbound_rows ((hash, info) ∷ payments) =
      codes "\n"
      ++ row 1 (codes "{")
      ++ row 2 (codes "amount_millisatoshis: " ++ (amount_text info.amt_msat ++ codes ","))
      ++ row 2 (codes "payment_hash: " ++ (print.id_text hash ++ codes ","))
      ++ row 2 (codes "htlc_direction: outbound,")
      ++ row 1 (codes "htlc_status: " ++ (status_text info.status ++ codes ","))
      ++ codes "\r\t},\n\r\n"
      ++ outbound_rows payments

  unfoldable pub list_payments : PaymentInfoStorage L → PaymentInfoStorage L → Bytes
  list_payments inbound outbound =
      codes "\r["
      ++ (if is_empty inbound.payments then [] else codes "\n" ++ inbound_rows inbound.payments)
      ++ outbound_rows outbound.payments
      ++ codes "]\n"
