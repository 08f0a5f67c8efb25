-- ===== src/Event.antt =====
-- The events that the channel manager hands to the node, and what the libraries answer while one is
-- handled.
use yuv_lightning_ldk_sample.Prelude.{ℕ, Option, Bool, List}
use yuv_lightning_ldk_sample.Node.{Ldk, Call}
use yuv_lightning_ldk_sample.Prelude.Text.{Bytes}

-- lightning: `PaymentPurpose`, its constructors as the arms tell them apart
pub data PaymentPurpose : Type 0 where
  -- payment_preimage, payment_secret
  bolt11_invoice_payment : Option Bytes → Bytes → PaymentPurpose
  spontaneous_payment : Bytes → PaymentPurpose
  other_purpose : PaymentPurpose

-- lightning: a request to update the balances of a channel; the luma is an amount
pub record BalanceRequest : Type 0 where
  pub new_balance_msat : ℕ
  pub new_yuv_pixel_luma : Option ℕ

pub record PendingUpdateBalance : Type 0 where
  pub inbound_request : Option BalanceRequest
  pub outbound_request : Option BalanceRequest

-- lightning: what the program reads of a `ChannelDetails`
pub record ChannelDetails (L : Ldk) : Type 0 where
  pub channel_id : Bytes
  pub counterparty_node_id : L.PublicKey
  pub yuv_holder_pixel : Option (L.Pixel)
  pub yuv_counterparty_pixel : Option (L.Pixel)
  pub is_public : Bool
  pub is_channel_ready : Bool
  pub is_usable : Bool
  -- the text of the transaction id of `funding_txo`
  pub funding_txid : Option Bytes
  pub short_channel_id : Option ℕ
  pub inbound_htlc_minimum_msat : Option ℕ
  pub inbound_htlc_maximum_msat : Option ℕ
  -- of the counterparty
  pub outbound_htlc_minimum_msat : Option ℕ
  pub outbound_htlc_maximum_msat : Option ℕ
  pub next_outbound_htlc_minimum_msat : ℕ
  pub channel_value_satoshis : ℕ
  pub balance_msat : ℕ
  pub outbound_capacity_msat : ℕ
  pub inbound_capacity_msat : ℕ
  pub unspendable_punishment_reserve : Option ℕ
  pub counterparty_punishment_reserve : ℕ
  pub pending_update_balance : Option PendingUpdateBalance
  -- of the holder and of the counterparty
  pub update_balance_amounts : Option (ℕ × ℕ)

-- lightning: the variants of `Event` that an arm acts on, with the fields that it reads; all the
-- others are `ignored`. An output of `spendable_outputs` is given as its encoding.
pub data Event (L : Ldk) : Type 0 where
  -- temporary_channel_id, counterparty_node_id, channel_value_satoshis, output_script,
  -- funding_yuv_pixel, funding_holder_pubkey, funding_counterparty_pubkey
  funding_generation_ready :
      Bytes → L.PublicKey → ℕ → L.Script → Option (L.Pixel) → L.PublicKey → L.PublicKey → Event L
  -- purpose, via_channel_id, yuv_amount
  payment_claimable : PaymentPurpose → Option Bytes → Option ℕ → Event L
  -- payment_hash, purpose, amount_msat, the channel ids of htlcs, sender_intended_total_yuv
  payment_claimed : Bytes → PaymentPurpose → ℕ → List Bytes → Option ℕ → Event L
  -- payment_preimage, payment_hash
  payment_sent : Bytes → Bytes → Event L
  -- temporary_channel_id, counterparty_node_id
  open_channel_request : Bytes → L.PublicKey → Event L
  payment_failed : Bytes → Event L
  -- prev_channel_id, next_channel_id, outbound_amount_forwarded_yuv
  payment_forwarded : Option Bytes → Option Bytes → Option ℕ → Event L
  -- time_forwardable in milliseconds
  pending_htlcs_forwardable : ℕ → Event L
  spendable_outputs : List Bytes → Event L
  bump_transaction : L.BumpEvent → Event L
  ignored : Event L

-- What the libraries answer while one event is handled: the channel manager to a call, the wallet,
-- the list of channels, and the `n`-th 32 bytes of the entropy source.
pub record Answers (L : Ldk) : Type 0 where
  pub is_ok : Call L → Bool
  pub new_yuv_funding_tx :
      L.Pixel → L.PublicKey → L.PublicKey → ℕ → Option (L.Transaction × L.Proofs)
  pub new_funding_tx : L.Script → ℕ → Option (L.Transaction)
  pub list_channels : List (ChannelDetails L)
  pub secure_random_bytes : ℕ → Bytes
