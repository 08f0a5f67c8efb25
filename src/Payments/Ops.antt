-- ===== src/Payments/Ops.antt =====
-- src/cli.rs and src/main.rs: commands and events one after the other, and what they all keep.
use yuv_lightning_ldk_sample.Prelude.{
  ℕ, Bool, List, Option, ◌∷◌, some, false, [], ◌+◌, none, Bool-cases, inl, inr, true, Outcome,
  returns, panics,
}
use yuv_lightning_ldk_sample.Node.{
  Ldk, Call, PaymentInfoStorage, World, inbound_payments_fname, outbound_payments_fname, call,
  write, PaymentInfo, pending_spendable_output_dir,
}
use yuv_lightning_ldk_sample.Payments.{
  PaymentApi, send_payment, keysend, Currency, save_inbound, Network, get_invoice, send_with,
  record_outbound, after_send, sent_info, fail_outbound, keysend_info, add_inbound, currency_of,
  get_invoice_in,
}
use yuv_lightning_ldk_sample.Prelude.Text.{Bytes}
use yuv_lightning_ldk_sample.Prelude.Assoc.{contains_key}
use yuv_lightning_ldk_sample.Event.{
  Answers, Event, funding_generation_ready, payment_claimable, payment_claimed, payment_sent,
  open_channel_request, payment_failed, payment_forwarded, pending_htlcs_forwardable,
  spendable_outputs, bump_transaction, ignored,
}
use yuv_lightning_ldk_sample.Events.{
  handle_ldk_events, store_outputs, claim, on_payment_claimable, on_funding_generation_ready,
  on_payment_sent, on_payment_claimed, then_do, record_claimed, on_open_channel_request,
  on_payment_failed, on_payment_forwarded, on_pending_htlcs_forwardable, give_funding,
  give_yuv_funding,
}

-- One command or event with the answers of the libraries to it.
pub data Op (L : Ldk) : Type 0 where
  op_send_payment : (Call L → Bool) → L.Invoice → Option ℕ → Op L
  op_keysend : (Call L → Bool) → Bytes → L.PublicKey → ℕ → Op L
  op_get_invoice :
      (Currency → ℕ → ℕ → Option (L.Pixel) → Option (L.Invoice))
      → ℕ
      → Network
      → ℕ
      → Option (L.Pixel)
      → Op L
  op_event : Answers L → Event L → Op L

module _ {L : Ldk} (api : PaymentApi L) where
  unfoldable pub run_op : Op L → World L → World L × Outcome (Unit {0})
  run_op (op_send_payment is_ok invoice required) w = send_payment api is_ok invoice required w
  run_op (op_keysend is_ok preimage payee amt) w = keysend api is_ok preimage payee amt w
  run_op (op_get_invoice create amt network expiry pixel) w =
      (save_inbound api (get_invoice api create amt network expiry pixel w), returns tt)
  run_op (op_event a event) w = handle_ldk_events api a event w

  -- A panic ends the run: it aborts the program.
  abbrev pub run_on : (World L → World L) → World L × Outcome (Unit {0}) → World L
  run_on go_on (w, returns u) = go_on w
  run_on go_on (w, panics) = w

  unfoldable pub run_ops : List (Op L) → World L → World L
  run_ops [] w = w
  run_ops (op ∷ ops) w = run_on (run_ops ops) (run_op op w)

  -- A property of states that every change of theirs keeps: the writes of the payment files, the calls,
  -- and the writes of outputs.
  pub record Survives (P : World L → Type 0) : Type 0 where
    pub saves_outbound :
        (m : PaymentInfoStorage L) (w : World L)
        → P w
        → P (write [] outbound_payments_fname (api.encode m) (record w { outbound = m }))
    pub saves_inbound :
        (m : PaymentInfoStorage L) (w : World L)
        → P w
        → P (write [] inbound_payments_fname (api.encode m) (record w { inbound = m }))
    pub calls : (c : Call L) (w : World L) → P w → P (call c w)
    pub stores :
        (name bytes : Bytes) (w : World L)
        → P w
        → P (write pending_spendable_output_dir name bytes w)

  module _ (P : World L → Type 0) (s : Survives P) where
    after_send-Survives :
        (ok : Bool) (printed : Option ℕ) (h : Bytes) (w : World L)
        → P w
        → P (after_send api ok printed h w).0
    unfolding after_send fail_outbound
    after_send-Survives true none h w d = d
    after_send-Survives true (some n) h w d = d
    after_send-Survives false printed h w d =
        elim (Bool-cases (contains_key h w.outbound.payments)) [
          | inl e ↦ rw e (s.saves_outbound _ w d)
          | inr e ↦ rw e d
        ]

    record_outbound-Survives :
        (h : Bytes) (info : PaymentInfo L) (w : World L) → P w → P (record_outbound api h info w)
    unfolding record_outbound
    record_outbound-Survives h info w d = s.saves_outbound _ w d

    send_with-Survives :
        (is_ok : Call L → Bool) (invoice : L.Invoice) (params : Option (Bytes × L.Onion × L.Route))
        (w : World L)
        → P w
        → P (send_with api is_ok invoice params w).0
    unfolding send_with
    send_with-Survives is_ok invoice none w d = d
    send_with-Survives is_ok invoice (some (h, onion, route)) w d =
        after_send-Survives _ _ h _
          (s.calls _ _ (record_outbound-Survives h (sent_info api invoice) w d))

    store_outputs-Survives :
        (a : Answers L) (n : ℕ) (outputs : List Bytes) (w : World L)
        → P w
        → P (store_outputs a n outputs w)
    unfolding store_outputs
    store_outputs-Survives a n [] w d = d
    store_outputs-Survives a n (output ∷ outputs) w d =
        store_outputs-Survives a (n + 1) outputs _ (s.stores _ output w d)

    then_do-Survives :
        (o : Outcome (Unit {0})) (w : World L) (r : World L × Outcome (Unit {0}))
        → P w
        → P r.0
        → P (then_do o w r).0
    then_do-Survives panics w r d e = d
    then_do-Survives (returns u) w r d e = e

    add_inbound-Survives :
        (amt : ℕ) (pixel : Option (L.Pixel)) (o : Option (L.Invoice)) (w : World L)
        → P w
        → P (save_inbound api (add_inbound api amt pixel o w))
    unfolding save_inbound
    add_inbound-Survives amt pixel none w d = s.saves_inbound w.inbound w d
    add_inbound-Survives amt pixel (some invoice) w d = s.saves_inbound _ w d

    get_invoice-Survives :
        (create : Currency → ℕ → ℕ → Option (L.Pixel) → Option (L.Invoice)) (amt : ℕ)
        (c : Option Currency) (expiry : ℕ) (pixel : Option (L.Pixel)) (w : World L)
        → P w
        → P (save_inbound api (get_invoice_in api create amt c expiry pixel w))
    unfolding get_invoice_in
    get_invoice-Survives create amt none expiry pixel w d = add_inbound-Survives amt pixel none w d
    get_invoice-Survives create amt (some c) expiry pixel w d =
        add_inbound-Survives amt pixel (create c amt expiry pixel) w d

    give_funding-Survives :
        (temp : Bytes) (node : L.PublicKey) (o : Option (L.Transaction)) (w : World L)
        → P w
        → P (give_funding temp node o w).0
    unfolding give_funding
    give_funding-Survives temp node none w d = d
    give_funding-Survives temp node (some tx) w d = s.calls _ w d

    give_yuv_funding-Survives :
        (temp : Bytes) (node : L.PublicKey) (o : Option (L.Transaction × L.Proofs)) (w : World L)
        → P w
        → P (give_yuv_funding temp node o w).0
    unfolding give_yuv_funding
    give_yuv_funding-Survives temp node none w d = s.calls _ w d
    give_yuv_funding-Survives temp node (some (tx, proofs)) w d = s.calls _ w d

    on_funding-Survives :
        (a : Answers L) (temp : Bytes) (node : L.PublicKey) (value : ℕ) (script : L.Script)
        (pixel : Option (L.Pixel)) (holder other : L.PublicKey) (w : World L)
        → P w
        → P (on_funding_generation_ready a temp node value script pixel holder other w).0
    unfolding on_funding_generation_ready
    on_funding-Survives a temp node value script none holder other w d =
        give_funding-Survives temp node _ w d
    on_funding-Survives a temp node value script (some pixel) holder other w d =
        give_yuv_funding-Survives temp node _ w d

    claim-Survives : (o : Option Bytes) (w : World L) → P w → P (claim o w).0
    unfolding claim
    claim-Survives none w d = d
    claim-Survives (some p) w d = s.calls _ w d

    on_payment_sent-Survives :
        (preimage h : Bytes) (w : World L) → P w → P (on_payment_sent api preimage h w)
    unfolding on_payment_sent
    on_payment_sent-Survives preimage h w d =
        elim (Bool-cases (contains_key h w.outbound.payments)) [
          | inl e ↦ rw e (s.saves_outbound _ w d)
          | inr e ↦ rw e d
        ]

    pub handle_ldk_events-Survives :
        (a : Answers L) (event : Event L) (w : World L)
        → P w
        → P (handle_ldk_events api a event w).0
    unfolding handle_ldk_events on_payment_claimable on_payment_claimed record_claimed
        on_open_channel_request on_payment_failed on_payment_forwarded on_pending_htlcs_forwardable
    handle_ldk_events-Survives a (funding_generation_ready t n v s p h o) w d =
        on_funding-Survives a t n v s p h o w d
    handle_ldk_events-Survives a (payment_claimable purpose via yuv) w d =
        then_do-Survives _ w _ d (claim-Survives _ w d)
    handle_ldk_events-Survives a (payment_claimed h purpose amt htlcs yuv) w d =
        then_do-Survives _ w _ d (s.saves_inbound _ w d)
    handle_ldk_events-Survives a (payment_sent preimage h) w d =
        on_payment_sent-Survives preimage h w d
    handle_ldk_events-Survives a (open_channel_request t n) w d = s.calls _ w d
    handle_ldk_events-Survives a (payment_failed h) w d = s.saves_outbound _ w d
    handle_ldk_events-Survives a (payment_forwarded p n yuv) w d =
        then_do-Survives _ w _ d (then_do-Survives _ w _ d d)
    handle_ldk_events-Survives a (pending_htlcs_forwardable t) w d = s.calls _ w d
    handle_ldk_events-Survives a (spendable_outputs outputs) w d =
        store_outputs-Survives a 0 outputs w d
    handle_ldk_events-Survives a (bump_transaction e) w d = s.calls _ w d
    handle_ldk_events-Survives a ignored w d = d

    pub run_op-Survives : (op : Op L) (w : World L) → P w → P (run_op op w).0
    unfolding run_op send_payment keysend get_invoice
    run_op-Survives (op_send_payment is_ok invoice required) w d =
        send_with-Survives is_ok invoice _ w d
    run_op-Survives (op_keysend is_ok preimage payee amt) w d =
        after_send-Survives _ _ _ _
          (s.calls _ _ (record_outbound-Survives _ (keysend_info api amt) w d))
    run_op-Survives (op_get_invoice create amt network expiry pixel) w d =
        get_invoice-Survives create amt (currency_of network) expiry pixel w d
    run_op-Survives (op_event a event) w d = handle_ldk_events-Survives a event w d

    run_on-Survives :
        (go_on : World L → World L) (r : World L × Outcome (Unit {0}))
        → P r.0
        → ((w : World L) → P w → P (go_on w))
        → P (run_on go_on r)
    run_on-Survives go_on (w, returns u) d h = h w d
    run_on-Survives go_on (w, panics) d h = d

    pub run_ops-Survives : (ops : List (Op L)) (w : World L) → P w → P (run_ops ops w)
    unfolding run_ops
    run_ops-Survives [] w d = d
    run_ops-Survives (op ∷ ops) w d =
        run_on-Survives (run_ops ops) (run_op op w) (run_op-Survives op w d) (run_ops-Survives ops)
