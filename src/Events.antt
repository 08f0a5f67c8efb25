-- ===== src/Events.antt =====
-- src/main.rs: `handle_ldk_events`, one function for each arm that acts. What an arm prints is left
-- out, and so are the arms that only print.
pub mod Outputs
use yuv_lightning_ldk_sample.Prelude.{
  ℕ, Option, Outcome, List, none, some, take, if◌then◌else◌, head?, returns, panics, ◌%◌, ◌^◌, [],
  ◌*◌, ◌∷◌, ◌+◌,
}
use yuv_lightning_ldk_sample.Node.{
  Ldk, World, PaymentInfo, PaymentInfoStorage, call, succeeded, process_pending_htlc_forwards_after,
  handle_bump_event, accept_inbound_channel, funding_transaction_generated, claim_funds,
  force_close_without_broadcasting_txn, write, failed, outbound_payments_fname,
  inbound_payments_fname, pending_spendable_output_dir,
}
use yuv_lightning_ldk_sample.Prelude.Text.{Bytes, equal}
use yuv_lightning_ldk_sample.Payments.{PaymentApi}
use yuv_lightning_ldk_sample.Prelude.Assoc.{contains_key, modify, insert}
use yuv_lightning_ldk_sample.Event.{
  Answers, PaymentPurpose, ChannelDetails, Event, bolt11_invoice_payment, spontaneous_payment,
  funding_generation_ready, payment_claimable, payment_claimed, payment_sent, open_channel_request,
  payment_failed, payment_forwarded, pending_htlcs_forwardable, spendable_outputs, bump_transaction,
  ignored, other_purpose,
}
use yuv_lightning_ldk_sample.HexUtils.{hex_str}

unfoldable pub preimage_of : PaymentPurpose → Option Bytes
preimage_of (bolt11_invoice_payment preimage secret) = preimage
preimage_of (spontaneous_payment preimage) = some preimage
preimage_of other_purpose = none

unfoldable pub secret_of : PaymentPurpose → Option Bytes
secret_of (bolt11_invoice_payment preimage secret) = some secret
secret_of (spontaneous_payment preimage) = none
secret_of other_purpose = none

-- `u128::from_be_bytes`
unfoldable pub from_be_bytes : ℕ → Bytes → ℕ
from_be_bytes n [] = n
from_be_bytes n (b ∷ bs) = from_be_bytes (n * 256 + b) bs

module _ {L : Ldk} where
  -- `channels.iter().find(|c| c.channel_id == id)`
  unfoldable pub find_channel : Bytes → List (ChannelDetails L) → Option (ChannelDetails L)
  find_channel id [] = none
  find_channel id (c ∷ cs) = if equal c.channel_id id then some c else find_channel id cs

  -- the look-up of a channel's chroma to print it: both `unwrap`s
  unfoldable pub chroma_of : Option (ChannelDetails L) → Outcome (Unit {0})
  chroma_of none = panics
  chroma_of (some c) = elim c.yuv_holder_pixel [ none ↦ panics | some p ↦ returns tt ]

  unfoldable pub print_yuv : Option ℕ → Option Bytes → List (ChannelDetails L) → Outcome (Unit {0})
  print_yuv none id channels = returns tt
  print_yuv (some amount) none channels = panics
  print_yuv (some amount) (some id) channels = chroma_of (find_channel id channels)

  -- goes on if nothing panicked
  abbrev pub then_do :
      Outcome (Unit {0}) → World L → World L × Outcome (Unit {0}) → World L × Outcome (Unit {0})
  then_do panics w r = (w, panics)
  then_do (returns u) w r = r

  -- `channel_manager.claim_funds(payment_preimage.unwrap())`
  unfoldable pub claim : Option Bytes → World L → World L × Outcome (Unit {0})
  claim none w = (w, panics)
  claim (some preimage) w = (call (claim_funds preimage) w, returns tt)

  unfoldable pub on_payment_claimable :
      Answers L → PaymentPurpose → Option Bytes → Option ℕ → World L → World L × Outcome (Unit {0})
  unfolding claim print_yuv chroma_of find_channel preimage_of
  on_payment_claimable a purpose via yuv_amount w =
      then_do (print_yuv yuv_amount via a.list_channels) w (claim (preimage_of purpose) w)

  -- `wallet.new_funding_tx(…).unwrap()` and the call with the transaction
  unfoldable pub give_funding :
      Bytes → L.PublicKey → Option (L.Transaction) → World L → World L × Outcome (Unit {0})
  give_funding temp node none w = (w, panics)
  give_funding temp node (some tx) w =
      (call (funding_transaction_generated temp node tx none) w, returns tt)

  -- the match on `yuv_tx_res`
  unfoldable pub give_yuv_funding :
      Bytes
      → L.PublicKey
      → Option (L.Transaction × L.Proofs)
      → World L
      → World L × Outcome (Unit {0})
  give_yuv_funding temp node none w =
      (call (force_close_without_broadcasting_txn temp node) w, returns tt)
  give_yuv_funding temp node (some (tx, proofs)) w =
      (call (funding_transaction_generated temp node tx (some proofs)) w, returns tt)

  unfoldable pub on_funding_generation_ready :
      Answers L
      → Bytes
      → L.PublicKey
      → ℕ
      → L.Script
      → Option (L.Pixel)
      → L.PublicKey
      → L.PublicKey
      → World L
      → World L × Outcome (Unit {0})
  on_funding_generation_ready a temp node value script none holder counterparty w =
      give_funding temp node (a.new_funding_tx script value) w
  on_funding_generation_ready a temp node value script (some pixel) holder counterparty w =
      give_yuv_funding temp node (a.new_yuv_funding_tx pixel holder counterparty value) w

  unfoldable pub on_open_channel_request : Answers L → Bytes → L.PublicKey → World L → World L
  unfolding from_be_bytes
  on_open_channel_request a temp node w =
      let user_channel_id = from_be_bytes 0 (take 16 (a.secure_random_bytes 0)) in
      call (accept_inbound_channel temp node user_channel_id w.default_config) w

  -- `node_str` for one end of a forwarded payment: it looks for the chroma of a channel that it finds
  unfoldable pub forwarded_end :
      Option ℕ → Option Bytes → List (ChannelDetails L) → Outcome (Unit {0})
  forwarded_end none id channels = returns tt
  forwarded_end (some amount) none channels = returns tt
  forwarded_end (some amount) (some id) channels = elim (find_channel id channels) [
    | none ↦ returns tt
    | some c ↦ chroma_of (some c)
  ]

  unfoldable pub on_payment_forwarded :
      Answers L → Option Bytes → Option Bytes → Option ℕ → World L → World L × Outcome (Unit {0})
  unfolding forwarded_end chroma_of find_channel
  on_payment_forwarded a prev next yuv_amount w =
      then_do (forwarded_end yuv_amount prev a.list_channels) w
        (then_do (forwarded_end yuv_amount next a.list_channels) w (w, returns tt))

  -- `Duration::from_millis(time_forwardable.as_millis() as u64 * 2)`
  unfoldable pub on_pending_htlcs_forwardable : ℕ → World L → World L
  on_pending_htlcs_forwardable millis w =
      call (process_pending_htlc_forwards_after (millis % 2 ^ 64 * 2 % 2 ^ 64)) w

  -- the loop over the outputs, with the number of random keys drawn before
  unfoldable pub store_outputs : Answers L → ℕ → List Bytes → World L → World L
  store_outputs a n [] w = w
  store_outputs a n (output ∷ outputs) w =
      store_outputs a (n + 1) outputs
        (write pending_spendable_output_dir (hex_str (a.secure_random_bytes n)) output w)

module _ {L : Ldk} (api : PaymentApi L) where
  -- `Entry::Vacant`, with the fields of the claimed payment
  unfoldable pub claimed_info : Option Bytes → Option Bytes → ℕ → PaymentInfo L
  claimed_info preimage secret amount_msat = record {
    preimage = preimage;
    secret = secret;
    status = succeeded;
    amt_msat = record { amount = some amount_msat };
    yuv_pixel = none;
  }

  -- `match inbound.payments.entry(payment_hash)`
  unfoldable pub claim_entry :
      Bytes → Option Bytes → Option Bytes → ℕ → PaymentInfoStorage L → PaymentInfoStorage L
  claim_entry h preimage secret amount_msat s = record {
    payments =
        if contains_key h s.payments
        then modify h (λ p. record p { status = succeeded; preimage = preimage; secret = secret })
            s.payments
        else insert h (claimed_info preimage secret amount_msat) s.payments;
  }

  unfoldable pub record_claimed : Bytes → PaymentPurpose → ℕ → World L → World L
  record_claimed h purpose amount_msat w =
      let m = claim_entry h (preimage_of purpose) (secret_of purpose) amount_msat w.inbound in
      write [] inbound_payments_fname (api.encode m) (record w { inbound = m })

  -- `htlcs[0]` of an empty list panics
  unfoldable pub on_payment_claimed :
      Answers L
      → Bytes
      → PaymentPurpose
      → ℕ
      → List Bytes
      → Option ℕ
      → World L
      → World L × Outcome (Unit {0})
  on_payment_claimed a h purpose amount_msat htlcs yuv_amount w =
      then_do (print_yuv yuv_amount (head? htlcs) a.list_channels) w
        (record_claimed h purpose amount_msat w, returns tt)

  -- a payment that the node does not know is left alone, and nothing is written
  unfoldable pub on_payment_sent : Bytes → Bytes → World L → World L
  on_payment_sent preimage h w =
      if contains_key h w.outbound.payments
      then (let m : PaymentInfoStorage L = record {
        payments =
            modify h (λ p. record p { preimage = some preimage; status = succeeded })
              w.outbound.payments;
      } in
          write [] outbound_payments_fname (api.encode m) (record w { outbound = m }))
      else w

  -- the file is written for a payment that the node does not know, too
  unfoldable pub on_payment_failed : Bytes → World L → World L
  on_payment_failed h w =
      let m : PaymentInfoStorage L = record {
        payments =
            if contains_key h w.outbound.payments
            then modify h (λ p. record p { status = failed }) w.outbound.payments
            else w.outbound.payments;
      } in
      write [] outbound_payments_fname (api.encode m) (record w { outbound = m })

  unfoldable pub handle_ldk_events : Answers L → Event L → World L → World L × Outcome (Unit {0})
  handle_ldk_events a (funding_generation_ready temp node value script pixel holder other) w =
      on_funding_generation_ready a temp node value script pixel holder other w
  handle_ldk_events a (payment_claimable purpose via yuv_amount) w =
      on_payment_claimable a purpose via yuv_amount w
  handle_ldk_events a (payment_claimed h purpose amount_msat htlcs yuv_amount) w =
      on_payment_claimed a h purpose amount_msat htlcs yuv_amount w
  handle_ldk_events a (payment_sent preimage h) w = (on_payment_sent preimage h w, returns tt)
  handle_ldk_events a (open_channel_request temp node) w =
      (on_open_channel_request a temp node w, returns tt)
  handle_ldk_events a (payment_failed h) w = (on_payment_failed h w, returns tt)
  handle_ldk_events a (payment_forwarded prev next yuv_amount) w =
      on_payment_forwarded a prev next yuv_amount w
  handle_ldk_events a (pending_htlcs_forwardable millis) w =
      (on_pending_htlcs_forwardable millis w, returns tt)
  handle_ldk_events a (spendable_outputs outputs) w = (store_outputs a 0 outputs w, returns tt)
  handle_ldk_events a (bump_transaction event) w = (call (handle_bump_event event) w, returns tt)
  handle_ldk_events a ignored w = (w, returns tt)
