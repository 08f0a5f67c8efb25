-- ===== src/Payments/Sending.antt =====
-- What `send_payment` records.
use yuv_lightning_ldk_sample.Prelude.{
  ℕ, Bool, Option, ◌≡◌, true, some, false, ◌++◌, ◌∷◌, [], ◌∙◌, ap, is_some, refl, none,
}
use yuv_lightning_ldk_sample.Node.{
  Ldk, Call, HtlcStatus, pending, World, failed, PaymentInfo, outbound_payments_fname, write, call,
}
use yuv_lightning_ldk_sample.Payments.{
  PaymentApi, pay_params, send_payment, sent_info, after_send, fail_outbound, record_outbound,
  send_with,
}
use yuv_lightning_ldk_sample.Prelude.Text.{Bytes, equal, equal_self}
use yuv_lightning_ldk_sample.Prelude.Assoc.{get, contains_key, get-modify, get-insert}

module _ {L : Ldk} (api : PaymentApi L) where
  abbrev pub sent_status : Bool → HtlcStatus
  sent_status true = pending
  sent_status false = failed

  -- what `after_send` leaves alone: all but the status of the payment, where the call is refused
  pub record AfterSend (ok : Bool) (h : Bytes) (info : PaymentInfo L) (w w' : World L)
      : Type 0 where
    pub recorded : get h w'.outbound.payments ≡ some (record info { status = sent_status ok })
    pub others :
        (j : Bytes) → equal h j ≡ false → get j w'.outbound.payments ≡ get j w.outbound.payments
    pub inbound_same : w'.inbound ≡ w.inbound
    pub calls_same : w'.calls ≡ w.calls
    pub saved :
        get outbound_payments_fname w.store ≡ some (api.encode w.outbound)
        → get outbound_payments_fname w'.store ≡ some (api.encode w'.outbound)

  pub after_send-AfterSend :
      (ok : Bool) (printed : Option ℕ) (h : Bytes) (info : PaymentInfo L) (w : World L)
      → info.status ≡ pending
      → get h w.outbound.payments ≡ some info
      → AfterSend ok h info w (after_send api ok printed h w).0
  unfolding after_send fail_outbound write equal
  after_send-AfterSend true none h info w s g = record {
    recorded = g ∙ ap some (λ i. record info { status = s i });
    others = λ j e. refl;
    inbound_same = refl;
    calls_same = refl;
    saved = λ f. f;
  }
  after_send-AfterSend true (some n) h info w s g = record {
    recorded = g ∙ ap some (λ i. record info { status = s i });
    others = λ j e. refl;
    inbound_same = refl;
    calls_same = refl;
    saved = λ f. f;
  }
  after_send-AfterSend false printed h info w s g =
      let here : contains_key h w.outbound.payments ≡ true = ap is_some g in
      rw here (record {
        recorded = rw (get-modify h h _ w.outbound.payments, equal_self h, g);
        others = λ j e. rw (get-modify h j _ w.outbound.payments, e);
        inbound_same = refl;
        calls_same = refl;
        saved = λ f. rw (get-insert outbound_payments_fname outbound_payments_fname _ w.store);
      })

  -- the call that `send_payment` makes
  abbrev pub send_call : L.Invoice → Bytes → L.Onion → L.Route → Call L
  send_call invoice h onion route =
      Call.send_payment h onion (api.payment_hash invoice) (api.without_fee_limit route)

  sent_info-pending : (invoice : L.Invoice) → (sent_info api invoice).status ≡ pending
  unfolding sent_info
  sent_info-pending invoice = refl

  pub recorded_first :
      (h : Bytes) (info : PaymentInfo L) (w : World L)
      → get h (record_outbound api h info w).outbound.payments ≡ some info
  unfolding record_outbound write
  recorded_first h info w = rw (get-insert h h info w.outbound.payments, equal_self h)

  -- A payment that passes the checks on its amount is recorded under the hash of its parameters with
  -- the data of the invoice, whatever was recorded there before: as pending if the channel manager
  -- takes it, as failed if not. No other payment and no invoice changes, one call is made, and the
  -- file holds what is in memory.
  pub send_payment_recorded :
      (is_ok : Call L → Bool) (invoice : L.Invoice) (required : Option ℕ) (w : World L) (h : Bytes)
      (onion : L.Onion) (route : L.Route)
      → pay_params api invoice required ≡ some (h, onion, route)
      → (get h (send_payment api is_ok invoice required w).0.outbound.payments
          ≡ some (record (sent_info api invoice) {
            status = sent_status (is_ok (send_call invoice h onion route));
          }))
        × ((j : Bytes)
            → equal h j ≡ false
            → get j (send_payment api is_ok invoice required w).0.outbound.payments
              ≡ get j w.outbound.payments)
        × ((send_payment api is_ok invoice required w).0.inbound ≡ w.inbound)
        × ((send_payment api is_ok invoice required w).0.calls
            ≡ w.calls ++ send_call invoice h onion route ∷ [])
        × (get outbound_payments_fname (send_payment api is_ok invoice required w).0.store
            ≡ some (api.encode (send_payment api is_ok invoice required w).0.outbound))
  unfolding send_payment send_with record_outbound write
  send_payment_recorded is_ok invoice required w h onion route e =
      let c = send_call invoice h onion route in
      let after =
        after_send-AfterSend (is_ok c) (api.amount_milli_satoshis invoice) h (sent_info api invoice)
          (call c (record_outbound api h (sent_info api invoice) w)) (sent_info-pending invoice)
          (recorded_first h (sent_info api invoice) w) in
      rw (e, send_with)
        (
          after.recorded,
          λ j ne. after.others j ne ∙ rw (get-insert h j (sent_info api invoice) _, ne),
          after.inbound_same,
          after.calls_same,
          after.saved (
              rw (
                get-insert outbound_payments_fname outbound_payments_fname _ w.store,
                equal_self outbound_payments_fname,
              )),
        )
