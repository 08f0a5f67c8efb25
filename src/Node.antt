-- ===== src/Node.antt =====
-- The state of a running node that the payment commands and the event handler share, and the calls
-- that they make of the libraries. The types of the libraries are the parameter `Ldk`.
use yuv_lightning_ldk_sample.Prelude.{ℕ, List, [], ◌∷◌, ◌++◌, Option}
use yuv_lightning_ldk_sample.Prelude.Text.{Bytes, codes}
use yuv_lightning_ldk_sample.Prelude.Assoc.{Assoc, insert}

-- Types of the crates lightning, lightning_invoice, bitcoin and yuv_pixels that the program passes
-- on and does not look into. Hashes, preimages, secrets and channel ids are arrays of 32 bytes.
pub record Ldk : Type 1 where
  pub PublicKey : Type 0
  pub Pixel : Type 0
  pub Invoice : Type 0
  pub Onion : Type 0
  pub Route : Type 0
  pub Transaction : Type 0
  pub Proofs : Type 0
  pub Script : Type 0
  pub UserConfig : Type 0
  pub BumpEvent : Type 0
  pub SocketAddr : Type 0

-- main.rs: `HTLCStatus`
pub data HtlcStatus : Type 0 where
  pending succeeded failed : HtlcStatus

pub record MillisatAmount : Type 0 where
  pub amount : Option ℕ

pub record PaymentInfo (L : Ldk) : Type 0 where
  pub preimage : Option Bytes
  pub secret : Option Bytes
  pub status : HtlcStatus
  pub amt_msat : MillisatAmount
  pub yuv_pixel : Option (L.Pixel)

pub record PaymentInfoStorage (L : Ldk) : Type 0 where
  pub payments : Assoc (PaymentInfo L)

-- The calls that change something outside the node's own state, in the order in which they are made.
pub data Call (L : Ldk) : Type 0 where
  -- payment_hash, recipient_onion, payment_id, route_params
  send_payment : Bytes → L.Onion → Bytes → L.Route → Call L
  -- payment_preimage, recipient_onion, payment_id, route_params
  send_spontaneous_payment : Bytes → L.Onion → Bytes → L.Route → Call L
  claim_funds : Bytes → Call L
  -- temporary_channel_id, counterparty_node_id
  force_close_without_broadcasting_txn : Bytes → L.PublicKey → Call L
  funding_transaction_generated : Bytes → L.PublicKey → L.Transaction → Option (L.Proofs) → Call L
  -- temporary_channel_id, counterparty_node_id, user_channel_id, config
  accept_inbound_channel : Bytes → L.PublicKey → ℕ → L.UserConfig → Call L
  -- in so many milliseconds
  process_pending_htlc_forwards_after : ℕ → Call L
  handle_bump_event : L.BumpEvent → Call L
  connect_outbound : L.PublicKey → L.SocketAddr → Call L
  disconnect_by_node_id : L.PublicKey → Call L
  -- peer_pubkey, channel_amt_sat, yuv_pixel, config
  create_channel : L.PublicKey → ℕ → Option (L.Pixel) → L.UserConfig → Call L
  close_channel : Bytes → L.PublicKey → Call L
  force_close_channel : Bytes → L.PublicKey → Call L
  -- channel_id, node_id, new_balance_msat, new_yuv_luma
  update_balance : Bytes → L.PublicKey → Option ℕ → Option ℕ → Call L
  -- tlv_type, data, destination
  send_onion_message : ℕ → Bytes → L.PublicKey → Call L
  sign_message : Bytes → Call L

-- `store` holds the files below the data directory by their paths.
pub record World (L : Ldk) : Type 0 where
  pub inbound : PaymentInfoStorage L
  pub outbound : PaymentInfoStorage L
  pub store : Assoc Bytes
  pub default_config : L.UserConfig
  pub calls : List (Call L)

abbrev pub inbound_payments_fname : Bytes
inbound_payments_fname = codes "inbound_payments"

abbrev pub outbound_payments_fname : Bytes
outbound_payments_fname = codes "outbound_payments"

abbrev pub peer_data_fname : Bytes
peer_data_fname = codes "channel_peer_data"

abbrev pub pending_spendable_output_dir : Bytes
pending_spendable_output_dir = codes "pending_spendable_outputs"

-- The path that the file store gives to a key below a primary namespace; no secondary one is used.
abbrev pub store_path : Bytes → Bytes → Bytes
store_path [] key = key
store_path (c ∷ namespace) key = (c ∷ namespace) ++ (b'/' ∷ key)

module _ {L : Ldk} where
  -- `fs_store.write(namespace, "", key, bytes).unwrap()` with a write that succeeds; one that fails
  -- panics, for which see Payments/Disk
  unfoldable pub write : Bytes → Bytes → Bytes → World L → World L
  write namespace key bytes w = record w { store = insert (store_path namespace key) bytes w.store }

  abbrev pub call : Call L → World L → World L
  call c w = record w { calls = w.calls ++ c ∷ [] }
