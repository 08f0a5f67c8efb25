-- ===== src/Payments/Refinement.antt =====
-- The commands and events of a node do to its outgoing payments what their entries do to a ledger.
use yuv_lightning_ldk_sample.Prelude.{
  ℕ, Outcome, ◌≡◌, Option, List, returns, ◌∷◌, some, panics, ◌∙◌, none, ◌+◌, [], refl, ap,
}
use yuv_lightning_ldk_sample.Node.{Ldk, World, write}
use yuv_lightning_ldk_sample.Events.{
  store_outputs, on_funding_generation_ready, claim, then_do, handle_ldk_events, give_funding,
  on_payment_claimable, give_yuv_funding, on_payment_claimed, record_claimed,
  on_open_channel_request, on_payment_forwarded, on_pending_htlcs_forwardable, preimage_of,
}
use yuv_lightning_ldk_sample.Payments.{
  PaymentApi, Bytes, get_invoice_in, save_inbound, Currency, add_inbound, send_payment, keysend,
  get_invoice, pay_params, keysend_info, currency_of,
}
use yuv_lightning_ldk_sample.Payments.Ops.{
  run_ops, run_op, Op, run_on, op_send_payment, op_keysend, op_get_invoice, op_event,
}
use yuv_lightning_ldk_sample.Payments.Ledger.{
  enter_all, ledger_of, Entry, entry_of, Ledger, enter, on_payment_sent-ledger,
  on_payment_failed-ledger, send_with-ledger, sent-ledger, nothing,
}
use yuv_lightning_ldk_sample.Event.{
  ignored, Answers, Event, funding_generation_ready, payment_claimable, payment_claimed,
  payment_sent, open_channel_request, payment_failed, payment_forwarded, pending_htlcs_forwardable,
  spendable_outputs, bump_transaction, PaymentPurpose,
}

module _ {L : Ldk} where
  -- The outgoing payments stay.
  record SameOutbound (w w' : World L) : Type 0 where
    same : w'.outbound ≡ w.outbound

  keeps : (w w' : World L) → w'.outbound ≡ w.outbound → SameOutbound w w'
  keeps w w' e = record { same = e }

  then_do-SameOutbound :
      (o : Outcome (Unit {0})) (w : World L) (r : World L × Outcome (Unit {0}))
      → SameOutbound w r.0
      → SameOutbound w (then_do o w r).0
  then_do-SameOutbound panics w r e = keeps w w refl
  then_do-SameOutbound (returns u) w r e = e

  store_outputs-SameOutbound :
      (a : Answers L) (n : ℕ) (outputs : List Bytes) (w : World L)
      → SameOutbound w (store_outputs a n outputs w)
  unfolding store_outputs write
  store_outputs-SameOutbound a n [] w = keeps w w refl
  store_outputs-SameOutbound a n (output ∷ outputs) w =
      keeps w _ (store_outputs-SameOutbound a (n + 1) outputs _).same

  on_funding-SameOutbound :
      (a : Answers L) (temp : Bytes) (node : L.PublicKey) (value : ℕ) (script : L.Script)
      (pixel : Option (L.Pixel)) (holder other : L.PublicKey) (w : World L)
      → SameOutbound w (on_funding_generation_ready a temp node value script pixel holder other w).0
  unfolding on_funding_generation_ready
  on_funding-SameOutbound a temp node value script none holder other w =
      funding (a.new_funding_tx script value)
    where
      funding : (o : Option (L.Transaction)) → SameOutbound w (give_funding temp node o w).0
      funding none = unfold give_funding in keeps w _ refl
      funding (some tx) = unfold give_funding in keeps w _ refl
  on_funding-SameOutbound a temp node value script (some pixel) holder other w =
      yuv_funding (a.new_yuv_funding_tx pixel holder other value)
    where
      yuv_funding :
          (o : Option (L.Transaction × L.Proofs))
          → SameOutbound w (give_yuv_funding temp node o w).0
      yuv_funding none = unfold give_yuv_funding in keeps w _ refl
      yuv_funding (some funded) = unfold give_yuv_funding in keeps w _ refl

  claim-SameOutbound : (o : Option Bytes) (w : World L) → SameOutbound w (claim o w).0
  unfolding claim
  claim-SameOutbound none w = keeps w w refl
  claim-SameOutbound (some p) w = keeps w _ refl

module _ {L : Ldk} (api : PaymentApi L) where
  quiet-ledger :
      (op : Op L) (w : World L) (k : Bytes)
      → entry_of api op ≡ nothing
      → SameOutbound w (run_op api op w).0
      → ledger_of api (run_op api op w).0 k ≡ enter (entry_of api op) (ledger_of api w) k
  unfolding enter
  quiet-ledger op w k quiet e = rw (quiet, e.same) refl

  record_claimed-SameOutbound :
      (h : Bytes) (purpose : PaymentPurpose) (amt : ℕ) (w : World L)
      → SameOutbound w (record_claimed api h purpose amt w)
  unfolding record_claimed write
  record_claimed-SameOutbound h purpose amt w = keeps w _ refl

  handle_ldk_events-ledger :
      (a : Answers L) (event : Event L) (w : World L) (k : Bytes)
      → ledger_of api (run_op api (op_event a event) w).0 k
        ≡ enter (entry_of api (op_event a event)) (ledger_of api w) k
  unfolding run_op entry_of handle_ldk_events on_payment_claimable on_payment_claimed
      on_open_channel_request on_payment_forwarded on_pending_htlcs_forwardable write
  handle_ldk_events-ledger a (funding_generation_ready t n v s p h o) w k =
      quiet-ledger (op_event a (funding_generation_ready t n v s p h o)) w k refl
        (on_funding-SameOutbound a t n v s p h o w)
  handle_ldk_events-ledger a (payment_claimable purpose via yuv) w k =
      quiet-ledger (op_event a (payment_claimable purpose via yuv)) w k refl
        (then_do-SameOutbound _ w _ (claim-SameOutbound (preimage_of purpose) w))
  handle_ldk_events-ledger a (payment_claimed h purpose amt htlcs yuv) w k =
      quiet-ledger (op_event a (payment_claimed h purpose amt htlcs yuv)) w k refl
        (then_do-SameOutbound _ w _ (record_claimed-SameOutbound h purpose amt w))
  handle_ldk_events-ledger a (payment_sent preimage h) w k =
      on_payment_sent-ledger api preimage h w k
  handle_ldk_events-ledger a (open_channel_request t n) w k =
      quiet-ledger (op_event a (open_channel_request t n)) w k refl (keeps w _ refl)
  handle_ldk_events-ledger a (payment_failed h) w k = on_payment_failed-ledger api h w k
  handle_ldk_events-ledger a (payment_forwarded p n yuv) w k =
      quiet-ledger (op_event a (payment_forwarded p n yuv)) w k refl
        (then_do-SameOutbound _ w _ (then_do-SameOutbound _ w _ (keeps w w refl)))
  handle_ldk_events-ledger a (pending_htlcs_forwardable t) w k =
      quiet-ledger (op_event a (pending_htlcs_forwardable t)) w k refl (keeps w _ refl)
  handle_ldk_events-ledger a (spendable_outputs outputs) w k =
      quiet-ledger (op_event a (spendable_outputs outputs)) w k refl
        (store_outputs-SameOutbound a 0 outputs w)
  handle_ldk_events-ledger a (bump_transaction e) w k =
      quiet-ledger (op_event a (bump_transaction e)) w k refl (keeps w _ refl)
  handle_ldk_events-ledger a ignored w k =
      quiet-ledger (op_event a ignored) w k refl (keeps w w refl)

  get_invoice-SameOutbound :
      (create : Currency → ℕ → ℕ → Option (L.Pixel) → Option (L.Invoice)) (amt : ℕ)
      (c : Option Currency) (expiry : ℕ) (pixel : Option (L.Pixel)) (w : World L)
      → SameOutbound w (save_inbound api (get_invoice_in api create amt c expiry pixel w))
  unfolding get_invoice_in save_inbound write
  get_invoice-SameOutbound create amt none expiry pixel w = keeps w _ refl
  get_invoice-SameOutbound create amt (some c) expiry pixel w = added (create c amt expiry pixel)
    where
      added :
          (o : Option (L.Invoice))
          → SameOutbound w (save_inbound api (add_inbound api amt pixel o w))
      added none = keeps w _ refl
      added (some invoice) = keeps w _ refl

  run_op-ledger :
      (op : Op L) (w : World L) (k : Bytes)
      → ledger_of api (run_op api op w).0 k ≡ enter (entry_of api op) (ledger_of api w) k
  unfolding run_op send_payment keysend get_invoice entry_of enter
  run_op-ledger (op_send_payment is_ok invoice required) w k =
      send_with-ledger api is_ok invoice (pay_params api invoice required) w k
  run_op-ledger (op_keysend is_ok preimage payee amt) w k =
      sent-ledger api _ _ _ k (keysend_info api amt) _ w (unfold keysend_info in refl)
  run_op-ledger (op_get_invoice create amt network expiry pixel) w k =
      quiet-ledger (op_get_invoice create amt network expiry pixel) w k refl
        (get_invoice-SameOutbound create amt (currency_of network) expiry pixel w)
  run_op-ledger (op_event a event) w k = handle_ldk_events-ledger a event w k

  -- the entries of the commands and events that run, up to the one that panics
  abbrev pub entries_on : (World L → List Entry) → World L × Outcome (Unit {0}) → List Entry
  entries_on go_on (w, returns u) = go_on w
  entries_on go_on (w, panics) = []

  unfoldable pub entries_of : List (Op L) → World L → List Entry
  entries_of [] w = []
  entries_of (op ∷ ops) w = entry_of api op ∷ entries_on (entries_of ops) (run_op api op w)

  enter_all-same :
      (entries : List Entry) (ledger other : Ledger) (k : Bytes)
      → ((j : Bytes) → ledger j ≡ other j)
      → enter_all entries ledger k ≡ enter_all entries other k
  enter_all-same entries ledger other k same = ap (λ l. enter_all entries l k) (λ i j. same j i)

  run_on-ledger :
      (ops : List (Op L)) (r : World L × Outcome (Unit {0})) (k : Bytes)
      → ((v : World L)
          → ledger_of api (run_ops api ops v) k ≡ enter_all (entries_of ops v) (ledger_of api v) k)
      → ledger_of api (run_on api (run_ops api ops) r) k
        ≡ enter_all (entries_on (entries_of ops) r) (ledger_of api r.0) k
  unfolding enter_all
  run_on-ledger ops (w, returns u) k ih = ih w
  run_on-ledger ops (w, panics) k ih = refl

  -- Whatever commands and events a node goes through up to a first panic, with whatever answers, its
  -- outgoing payments go through the entries of a ledger: a payment whose parameters are given opens
  -- under their hash, as pending if the channel manager takes it and as failed if not, also in place
  -- of one that ended; the events of its success and of its failure end a payment that is there;
  -- nothing else changes any status.
  pub run_ops-ledger :
      (ops : List (Op L)) (w : World L) (k : Bytes)
      → ledger_of api (run_ops api ops w) k ≡ enter_all (entries_of ops w) (ledger_of api w) k
  unfolding run_ops entries_of enter_all
  run_ops-ledger [] w k = refl
  run_ops-ledger (op ∷ ops) w k =
      run_on-ledger ops (run_op api op w) k (λ v. run_ops-ledger ops v k)
      ∙ enter_all-same (entries_on (entries_of ops) (run_op api op w))
          (ledger_of api (run_op api op w).0) (enter (entry_of api op) (ledger_of api w)) k
          (run_op-ledger op w)
