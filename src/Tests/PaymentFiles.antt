-- ===== src/Tests/PaymentFiles.antt =====
-- The payment commands, the events and the restart at one sequence of operations.
use yuv_lightning_ldk_sample.Prelude.{
  ℕ, List, Option, ◌∷◌, Bool, some, [], true, false, refl, ◌≡◌, none, returns, panics, Outcome, inr,
  inl,
}
use yuv_lightning_ldk_sample.Startup.{
  load_payments, recent_hashes, started, pending_payment, settle_all, settle, contains,
}
use yuv_lightning_ldk_sample.Payments.Ops.{
  Op, op_get_invoice, run_ops, op_send_payment, op_keysend, op_event, run_op,
}
use yuv_lightning_ldk_sample.Payments.Durable.{IsDurable, run_ops-IsDurable}
use yuv_lightning_ldk_sample.Payments.{
  send_payment, read_payment_info, pay_params, read_contents, is_zero_amount, same_amount, Network,
  sent_info, currency_of, Currency, keysend, send_with, after_send, fail_outbound, record_outbound,
  save_inbound, get_invoice, get_invoice_in,
}
use yuv_lightning_ldk_sample.Node.{Call, World, outbound_payments_fname, write, failed, succeeded}
use yuv_lightning_ldk_sample.Prelude.Text.{Bytes, equal}
use yuv_lightning_ldk_sample.Prelude.Assoc.{Assoc, get, insert, map_values, modify}
use yuv_lightning_ldk_sample.Tests.Sample.{
  sample_ldk, sample_api, empty_world, sample_decode-encode, sample_answers,
}
use yuv_lightning_ldk_sample.Startup.Recovery.{restart_recovers, load_payments-pending}
use yuv_lightning_ldk_sample.Payments.Sending.{send_call, send_payment_recorded}
use yuv_lightning_ldk_sample.Event.{payment_claimed, bolt11_invoice_payment, payment_sent}
use yuv_lightning_ldk_sample.Payments.Kept.{Kept, run_ops-Kept}
use yuv_lightning_ldk_sample.Events.{
  print_yuv, handle_ldk_events, on_payment_claimed, record_claimed, claim_entry, on_payment_sent,
}
use yuv_lightning_ldk_sample.Startup.Lifecycle.{sent_payment_survives, claimed_invoice_survives}
use yuv_lightning_ldk_sample.Payments.Refinement.{entries_of, run_ops-ledger}
use yuv_lightning_ldk_sample.Payments.Ledger.{entry_of, enter_all, enter, ledger_of}
use yuv_lightning_ldk_sample.Payments.Disk.{
  keysend_on_disk, IsKeysent, send_payment_on_disk, send_payment_on_disk-panics,
  keysend_on_disk-IsKeysent, keysend_on_disk-panics,
}

abbrev invoice : Bytes × Option ℕ
invoice = ((1 ∷ 2 ∷ 3 ∷ []), some 1000)

abbrev invoice_without_amount : Bytes × Option ℕ
invoice_without_amount = ((1 ∷ 2 ∷ 3 ∷ []), none)

abbrev takes_all : Call sample_ldk → Bool
takes_all c = true

abbrev refuses_all : Call sample_ldk → Bool
refuses_all c = false

abbrev pub operations : List (Op sample_ldk)
operations =
    op_get_invoice (λ c amt expiry pixel. some ((4 ∷ 4 ∷ []), some amt)) 3000 Network.testnet 60
      none
    ∷ op_send_payment refuses_all invoice none
    ∷ op_keysend takes_all (8 ∷ 8 ∷ []) (2 ∷ []) 500
    ∷ op_event sample_answers
        (payment_claimed (4 ∷ 4 ∷ []) (bolt11_invoice_payment none (7 ∷ [])) 3000 [] none)
    ∷ op_event sample_answers (payment_sent (8 ∷ 8 ∷ []) (8 ∷ 8 ∷ []))
    ∷ []

empty_world-IsDurable : IsDurable sample_api empty_world
unfolding read_payment_info read_contents get
empty_world-IsDurable = record { inbound_saved = refl; outbound_saved = refl }

restart_recovers_example :
    (w' : World sample_ldk) × (load_payments sample_api
        (pending_payment (6 ∷ []) ∷ [])
        tt
        (run_ops sample_api operations empty_world).store
      ≡ returns w')
    × (w'.inbound ≡ (run_ops sample_api operations empty_world).inbound)
    × (w'.outbound
        ≡ settle_all ((6 ∷ []) ∷ []) (run_ops sample_api operations empty_world).outbound)
    × IsDurable sample_api w'
unfolding recent_hashes
restart_recovers_example =
    restart_recovers sample_api sample_decode-encode operations empty_world
      (pending_payment (6 ∷ []) ∷ []) ((6 ∷ []) ∷ []) tt empty_world-IsDurable refl

run_ops-IsDurable_example : IsDurable sample_api (run_ops sample_api operations empty_world)
run_ops-IsDurable_example =
    run_ops-IsDurable sample_api sample_decode-encode operations empty_world empty_world-IsDurable

abbrev pub pending_file : Assoc Bytes
pending_file =
    (
      outbound_payments_fname,
      sample_api.encode (record { payments = ((6 ∷ []), sent_info sample_api invoice) ∷ [] }),
    )
    ∷ []

load_payments-pending_example : contains (6 ∷ []) ((6 ∷ []) ∷ []) ≡ true
unfolding load_payments started recent_hashes get insert write settle_all settle contains equal
    sent_info read_payment_info read_contents map_values
load_payments-pending_example =
    load_payments-pending sample_api (pending_payment (6 ∷ []) ∷ []) ((6 ∷ []) ∷ []) tt pending_file
      (started sample_api ((6 ∷ []) ∷ []) tt pending_file) (6 ∷ []) (sent_info sample_api invoice)
      refl refl refl refl

send_payment_recorded_example :
    (get
        (1 ∷ 2 ∷ 3 ∷ [])
        (send_payment sample_api refuses_all invoice none empty_world).0.outbound.payments
      ≡ some (record (sent_info sample_api invoice) { status = failed }))
    × ((j : Bytes)
        → equal (1 ∷ 2 ∷ 3 ∷ []) j ≡ false
        → get j (send_payment sample_api refuses_all invoice none empty_world).0.outbound.payments
          ≡ get j empty_world.outbound.payments)
    × ((send_payment sample_api refuses_all invoice none empty_world).0.inbound
        ≡ empty_world.inbound)
    × ((send_payment sample_api refuses_all invoice none empty_world).0.calls
        ≡ send_call sample_api invoice (1 ∷ 2 ∷ 3 ∷ []) tt tt ∷ [])
    × (get outbound_payments_fname
          (send_payment sample_api refuses_all invoice none empty_world).0.store
        ≡ some (
            sample_api.encode
              (send_payment sample_api refuses_all invoice none empty_world).0.outbound))
unfolding pay_params is_zero_amount same_amount
send_payment_recorded_example =
    send_payment_recorded sample_api refuses_all invoice none empty_world (1 ∷ 2 ∷ 3 ∷ []) tt tt
      refl

send_payment_on_disk-panics_example :
    (send_payment_on_disk sample_api true true takes_all invoice_without_amount
      (some 9)
      empty_world).1
    ≡ panics
unfolding pay_params is_zero_amount
send_payment_on_disk-panics_example =
    (send_payment_on_disk-panics sample_api true true takes_all invoice_without_amount (some 9)
        empty_world).1
      ((1 ∷ 2 ∷ 3 ∷ [], tt, tt), refl, inr (inl (refl, refl)))

run_ops-Kept_example : Kept empty_world (run_ops sample_api operations empty_world)
run_ops-Kept_example = run_ops-Kept sample_api operations empty_world

sent_payment_survives_example :
    (w' : World sample_ldk) × (load_payments sample_api
        (pending_payment (6 ∷ []) ∷ [])
        tt
        (run_ops sample_api
          (op_send_payment takes_all invoice none
            ∷ op_event sample_answers (payment_sent (9 ∷ []) (1 ∷ 2 ∷ 3 ∷ []))
            ∷ [])
          empty_world).store
      ≡ returns w')
    × (get (1 ∷ 2 ∷ 3 ∷ []) w'.outbound.payments
        ≡ some (record (sent_info sample_api invoice) {
          preimage = some (9 ∷ []);
          status = succeeded;
        }))
unfolding pay_params is_zero_amount same_amount recent_hashes send_payment send_with after_send
sent_payment_survives_example =
    sent_payment_survives sample_api sample_decode-encode takes_all invoice none empty_world
      (1 ∷ 2 ∷ 3 ∷ []) tt tt (9 ∷ []) sample_answers (pending_payment (6 ∷ []) ∷ []) ((6 ∷ []) ∷ [])
      tt refl refl empty_world-IsDurable refl

claimed_invoice_survives_example :
    (w' : World sample_ldk) × (load_payments sample_api [] tt
        (run_ops sample_api
          (op_get_invoice
              (λ c amt expiry pixel. some (4 ∷ [], some amt))
              3000
              Network.testnet
              60
              none
            ∷ op_event sample_answers (
                payment_claimed
                  (4 ∷ [])
                  (bolt11_invoice_payment (some (9 ∷ [])) (7 ∷ []))
                  3500
                  []
                  none)
            ∷ [])
          empty_world).store
      ≡ returns w')
    × (get (4 ∷ []) w'.inbound.payments
        ≡ some (record {
          preimage = some (9 ∷ []);
          secret = some (7 ∷ []);
          status = succeeded;
          amt_msat = record { amount = some 3000 };
          yuv_pixel = none;
        }))
unfolding currency_of print_yuv recent_hashes
claimed_invoice_survives_example =
    claimed_invoice_survives sample_api sample_decode-encode
      (λ c amt expiry pixel. some (4 ∷ [], some amt)) 3000 Network.testnet Currency.bitcoin_testnet
      60 none (4 ∷ [], some 3000) empty_world sample_answers (9 ∷ []) (7 ∷ []) 3500 [] none [] [] tt
      refl refl refl empty_world-IsDurable refl

-- The channel manager refuses the payment, and both writes succeed.
abbrev keysent : World sample_ldk × Outcome (Unit {0})
keysent = keysend_on_disk sample_api true true refuses_all (8 ∷ 8 ∷ []) (2 ∷ []) 500 empty_world

keysend_on_disk-IsKeysent_example :
    IsKeysent sample_api (8 ∷ 8 ∷ []) (2 ∷ []) 500 false empty_world keysent
keysend_on_disk-IsKeysent_example =
    keysend_on_disk-IsKeysent sample_api true true refuses_all (8 ∷ 8 ∷ []) (2 ∷ []) 500 empty_world
      refl (inr refl)

keysend_on_disk-panics_example :
    (keysend_on_disk sample_api true false refuses_all (8 ∷ 8 ∷ []) (2 ∷ []) 500 empty_world).1
    ≡ panics
keysend_on_disk-panics_example =
    (keysend_on_disk-panics sample_api true false refuses_all (8 ∷ 8 ∷ []) (2 ∷ []) 500
        empty_world).1
      (inr (refl, refl))

run_ops-ledger_example :
    ledger_of sample_api (run_ops sample_api operations empty_world) (8 ∷ 8 ∷ []) ≡ some succeeded
unfolding entries_of entry_of enter_all enter run_op send_payment send_with pay_params
    is_zero_amount same_amount after_send fail_outbound record_outbound keysend save_inbound
    get_invoice get_invoice_in currency_of handle_ldk_events on_payment_claimed record_claimed
    claim_entry print_yuv on_payment_sent get insert modify equal write
run_ops-ledger_example = run_ops-ledger sample_api operations empty_world (8 ∷ 8 ∷ [])
