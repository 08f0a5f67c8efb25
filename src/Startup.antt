-- ===== src/Startup.antt =====
-- src/main.rs, `start_ldk`: the payment records that a starting node reads and repairs.
pub mod Recovery
pub mod Lifecycle
use yuv_lightning_ldk_sample.Prelude.{
  Option, List, Outcome, Bool, returns, false, some, ◌∷◌, panics, ◌||◌, none, [], if◌then◌else◌,
}
use yuv_lightning_ldk_sample.Node.{
  pending, Ldk, PaymentInfo, PaymentInfoStorage, World, outbound_payments_fname, write,
  inbound_payments_fname, failed, succeeded,
}
use yuv_lightning_ldk_sample.Prelude.Text.{Bytes, equal}
use yuv_lightning_ldk_sample.Payments.{PaymentApi, read_payment_info}
use yuv_lightning_ldk_sample.Prelude.Assoc.{Assoc, map_values}

-- lightning: `RecentPaymentDetails`, with the payment hash where there is one
pub data RecentPaymentDetails : Type 0 where
  pending_payment : Bytes → RecentPaymentDetails
  fulfilled_payment : Option Bytes → RecentPaymentDetails
  abandoned_payment : Bytes → RecentPaymentDetails
  awaiting_invoice : RecentPaymentDetails

-- puts the hash of one payment, if it has one, in front
abbrev pub push_hash : Option Bytes → Outcome (List Bytes) → Outcome (List Bytes)
push_hash h panics = panics
push_hash none (returns hs) = returns hs
push_hash (some h) (returns hs) = returns (h ∷ hs)

-- the `filter_map` over `list_recent_payments()`; the arm of `AwaitingInvoice` is a `todo!()`
unfoldable pub recent_hashes : List RecentPaymentDetails → Outcome (List Bytes)
recent_hashes [] = returns []
recent_hashes (pending_payment h ∷ ps) = push_hash (some h) (recent_hashes ps)
recent_hashes (fulfilled_payment h ∷ ps) = push_hash h (recent_hashes ps)
recent_hashes (abandoned_payment h ∷ ps) = push_hash (some h) (recent_hashes ps)
recent_hashes (awaiting_invoice ∷ ps) = panics

-- `recent_payments_payment_hashes.contains(payment_hash)`
unfoldable pub contains : Bytes → List Bytes → Bool
contains h [] = false
contains h (x ∷ xs) = equal x h || contains h xs

module _ {L : Ldk} where
  -- a pending payment that the channel manager does not know has failed
  unfoldable pub settle : List Bytes → Bytes → PaymentInfo L → PaymentInfo L
  settle hashes h p = elim p.status [
    | pending ↦ if contains h hashes then p else record p { status = failed }
    | succeeded ↦ p
    | failed ↦ p
  ]

  unfoldable pub settle_all : List Bytes → PaymentInfoStorage L → PaymentInfoStorage L
  settle_all hashes s = record { payments = map_values (settle hashes) s.payments }

module _ {L : Ldk} (api : PaymentApi L) where
  unfoldable pub started : List Bytes → L.UserConfig → Assoc Bytes → World L
  started hashes config files =
      let m = settle_all hashes (read_payment_info api outbound_payments_fname files) in
      write [] outbound_payments_fname (api.encode m) (record {
        inbound = read_payment_info api inbound_payments_fname files;
        outbound = m;
        store = files;
        default_config = config;
        calls = [];
      })

  abbrev pub load_with : Outcome (List Bytes) → L.UserConfig → Assoc Bytes → Outcome (World L)
  load_with panics config files = panics
  load_with (returns hashes) config files = returns (started hashes config files)

  -- The two storages are read, the outgoing payments are settled, and their file is written.
  unfoldable pub load_payments :
      List RecentPaymentDetails → L.UserConfig → Assoc Bytes → Outcome (World L)
  load_payments recent = load_with (recent_hashes recent)
