-- ===== src/Startup/Lifecycle.antt =====
-- The life of one payment and of one invoice, from the command through the event to a restart.
use yuv_lightning_ldk_sample.Prelude.{
  ℕ, ◌≡◌, List, Option, some, refl, true, ap, is_some, Bool, returns, ◌∷◌, head?, [], Outcome, ◌∙◌,
  panics,
}
use yuv_lightning_ldk_sample.Payments.{
  send_payment, PaymentApi, pay_params, get_invoice, get_invoice_in, save_inbound, Currency,
  Network, currency_of, sent_info, invoice_info,
}
use yuv_lightning_ldk_sample.Event.{
  payment_sent, payment_claimed, bolt11_invoice_payment, Answers, PaymentPurpose,
}
use yuv_lightning_ldk_sample.Node.{
  Ldk, PaymentInfoStorage, write, PaymentInfo, World, succeeded, Call,
}
use yuv_lightning_ldk_sample.Startup.{
  settle, settle_all, Bytes, RecentPaymentDetails, recent_hashes, load_payments,
}
use yuv_lightning_ldk_sample.Events.{
  on_payment_sent, claim_entry, handle_ldk_events, on_payment_claimed, record_claimed, preimage_of,
  secret_of, print_yuv, then_do,
}
use yuv_lightning_ldk_sample.Prelude.Assoc.{
  get, contains_key, get-map_values, get-modify, get-insert,
}
use yuv_lightning_ldk_sample.Payments.Ops.{
  run_ops, run_op, op_send_payment, op_event, op_get_invoice, run_on, Op,
}
use yuv_lightning_ldk_sample.Payments.Durable.{IsDurable}
use yuv_lightning_ldk_sample.Prelude.Text.{equal_self}
use yuv_lightning_ldk_sample.Startup.Recovery.{restart_recovers}
use yuv_lightning_ldk_sample.Payments.Sending.{send_payment_recorded}

module _ {L : Ldk} (api : PaymentApi L) where
  on_payment_sent_lem :
      (preimage h : Bytes) (p : PaymentInfo L) (w : World L)
      → get h w.outbound.payments ≡ some p
      → get h (on_payment_sent api preimage h w).outbound.payments
        ≡ some (record p { preimage = some preimage; status = succeeded })
  unfolding on_payment_sent write
  on_payment_sent_lem preimage h p w e =
      let known : contains_key h w.outbound.payments ≡ true = ap is_some e in
      rw (known, get-modify h h _ w.outbound.payments, equal_self h, e)

  claim_entry_known :
      (h : Bytes) (preimage secret : Option Bytes) (amt : ℕ) (p : PaymentInfo L)
      (s : PaymentInfoStorage L)
      → get h s.payments ≡ some p
      → get h (claim_entry api h preimage secret amt s).payments
        ≡ some (record p { status = succeeded; preimage = preimage; secret = secret })
  unfolding claim_entry
  claim_entry_known h preimage secret amt p s e =
      let known : contains_key h s.payments ≡ true = ap is_some e in
      rw (known, get-modify h h _ s.payments, equal_self h, e)

  run_on_returned :
      (go_on : World L → World L) (r : World L × Outcome (Unit {0}))
      → r.1 ≡ returns tt
      → run_on api go_on r ≡ go_on r.0
  run_on_returned go_on (w, returns u) e = refl
  run_on_returned go_on (w, panics) e = cc

  -- two operations that do not panic
  run_two :
      (first second : Op L) (w : World L)
      → (run_op api first w).1 ≡ returns tt
      → (run_op api second (run_op api first w).0).1 ≡ returns tt
      → run_ops api (first ∷ second ∷ []) w ≡ (run_op api second (run_op api first w).0).0
  unfolding run_ops
  run_two first second w e e' =
      run_on_returned (run_ops api (second ∷ [])) (run_op api first w) e
      ∙ run_on_returned (run_ops api []) (run_op api second (run_op api first w).0) e'

  then_do_returned :
      (o : Outcome (Unit {0})) (w : World L) (r : World L × Outcome (Unit {0}))
      → o ≡ returns tt
      → then_do o w r ≡ r
  then_do_returned o w r e = rw e refl

  claimed_event :
      (a : Answers L) (h : Bytes) (purpose : PaymentPurpose) (amt : ℕ) (htlcs : List Bytes)
      (yuv : Option ℕ) (w : World L)
      → print_yuv yuv (head? htlcs) a.list_channels ≡ returns tt
      → run_op api (op_event a (payment_claimed h purpose amt htlcs yuv)) w
        ≡ (record_claimed api h purpose amt w, returns tt)
  unfolding run_op handle_ldk_events on_payment_claimed
  claimed_event a h purpose amt htlcs yuv w shown = then_do_returned _ w _ shown

  invoiced_returns :
      (create : Currency → ℕ → ℕ → Option (L.Pixel) → Option (L.Invoice)) (amt : ℕ)
      (network : Network) (expiry : ℕ) (pixel : Option (L.Pixel)) (w : World L)
      → (run_op api (op_get_invoice create amt network expiry pixel) w).1 ≡ returns tt
  unfolding run_op
  invoiced_returns create amt network expiry pixel w = refl

  made_invoice :
      (create : Currency → ℕ → ℕ → Option (L.Pixel) → Option (L.Invoice)) (amt : ℕ)
      (network : Network) (c : Currency) (expiry : ℕ) (pixel : Option (L.Pixel))
      (invoice : L.Invoice) (w : World L)
      → currency_of network ≡ some c
      → create c amt expiry pixel ≡ some invoice
      → get
          (api.payment_hash invoice)
          (run_op api (op_get_invoice create amt network expiry pixel) w).0.inbound.payments
        ≡ some (invoice_info api amt invoice pixel)
  unfolding run_op get_invoice get_invoice_in save_inbound write
  made_invoice create amt network c expiry pixel invoice w n made =
      let h = api.payment_hash invoice in
      rw (
        n,
        get_invoice_in,
        made,
        get-insert h h (invoice_info api amt invoice pixel) w.inbound.payments,
        equal_self h,
      )

  settle_done :
      (hashes : List Bytes) (h : Bytes) (p : PaymentInfo L)
      → p.status ≡ succeeded
      → settle hashes h p ≡ p
  unfolding settle
  settle_done hashes h p done = rw done refl

  settled_succeeded :
      (hashes : List Bytes) (h : Bytes) (p : PaymentInfo L) (s : PaymentInfoStorage L)
      → get h s.payments ≡ some p
      → p.status ≡ succeeded
      → get h (settle_all hashes s).payments ≡ some p
  unfolding settle_all
  settled_succeeded hashes h p s e done =
      rw (get-map_values h (settle hashes) s.payments, e) (ap some (settle_done hashes h p done))

  module _ (decode-encode : (s : PaymentInfoStorage L) → api.decode (api.encode s) ≡ some s) where
    -- Let the reader of the payment files read back what the writer wrote. On a node with faithful
    -- payment files, a payment that passes the checks on its amount is sent without a panic, and the
    -- event of its success follows. Whatever the channel manager and the libraries answer, and
    -- whatever was recorded for the hash before, a node that starts on the files has the payment as
    -- succeeded, with the preimage and the data of the invoice, if no recent payment awaits its
    -- invoice.
    pub sent_payment_survives :
        (is_ok : Call L → Bool) (invoice : L.Invoice) (required : Option ℕ) (w : World L)
        (h : Bytes) (onion : L.Onion) (route : L.Route) (preimage : Bytes) (a : Answers L)
        (recent : List RecentPaymentDetails) (hashes : List Bytes) (config : L.UserConfig)
        → pay_params api invoice required ≡ some (h, onion, route)
        → (send_payment api is_ok invoice required w).1 ≡ returns tt
        → IsDurable api w
        → recent_hashes recent ≡ returns hashes
        → (w' : World L) × (load_payments api recent config
              (run_ops api
                (op_send_payment is_ok invoice required ∷ op_event a (payment_sent preimage h) ∷ [])
                w).store
            ≡ returns w')
          × (get h w'.outbound.payments
              ≡ some
                  (record (sent_info api invoice) { preimage = some preimage; status = succeeded }))
    unfolding run_op handle_ldk_events
    sent_payment_survives is_ok invoice required w h onion route preimage a recent hashes config e
          ok d r =
        let ops =
          op_send_payment is_ok invoice required ∷ op_event a (payment_sent preimage h) ∷ [] in
        let (w', loaded, i, o, d') =
          restart_recovers api decode-encode ops w recent hashes config d r in
        let sent = (send_payment_recorded api is_ok invoice required w h onion route e).0 in
        let done = on_payment_sent_lem preimage h _ _ sent in
        let ran =
          run_two (op_send_payment is_ok invoice required) (op_event a (payment_sent preimage h)) w
            ok refl in
        (w', loaded, rw (o, ran) (settled_succeeded hashes h _ _ done refl))

    -- Let the reader of the payment files read back what the writer wrote. On a node with faithful
    -- payment files, an invoice is made for a supported network, and the event that it was claimed
    -- follows, which does not panic in printing the chroma. A node that starts on the files has the
    -- invoice as succeeded, with the preimage and the secret of the event and with the amount and the
    -- pixel that it was made for, whatever amount the event names, if no recent payment awaits its
    -- invoice.
    pub claimed_invoice_survives :
        (create : Currency → ℕ → ℕ → Option (L.Pixel) → Option (L.Invoice)) (amt : ℕ)
        (network : Network) (c : Currency) (expiry : ℕ) (pixel : Option (L.Pixel))
        (invoice : L.Invoice) (w : World L) (a : Answers L) (preimage secret : Bytes) (received : ℕ)
        (htlcs : List Bytes) (yuv : Option ℕ) (recent : List RecentPaymentDetails)
        (hashes : List Bytes) (config : L.UserConfig)
        → currency_of network ≡ some c
        → create c amt expiry pixel ≡ some invoice
        → print_yuv yuv (head? htlcs) a.list_channels ≡ returns tt
        → IsDurable api w
        → recent_hashes recent ≡ returns hashes
        → (w' : World L) × (load_payments api recent config
              (run_ops api
                (op_get_invoice create amt network expiry pixel
                  ∷ op_event a (
                      payment_claimed
                        (api.payment_hash invoice)
                        (bolt11_invoice_payment (some preimage) secret)
                        received
                        htlcs
                        yuv)
                  ∷ [])
                w).store
            ≡ returns w')
          × (get (api.payment_hash invoice) w'.inbound.payments
              ≡ some (record {
                preimage = some preimage;
                secret = some secret;
                status = succeeded;
                amt_msat = record { amount = some amt };
                yuv_pixel = pixel;
              }))
    unfolding record_claimed preimage_of secret_of write invoice_info
    claimed_invoice_survives create amt network c expiry pixel invoice w a preimage secret received
          htlcs yuv recent hashes config n made shown d r =
        let h = api.payment_hash invoice in
        let purpose = bolt11_invoice_payment (some preimage) secret in
        let invoiced = op_get_invoice create amt network expiry pixel in
        let ops = invoiced ∷ op_event a (payment_claimed h purpose received htlcs yuv) ∷ [] in
        let (w', loaded, i, o, d') =
          restart_recovers api decode-encode ops w recent hashes config d r in
        let first = made_invoice create amt network c expiry pixel invoice w n made in
        let made_world = (run_op api invoiced w).0 in
        let claimed = claimed_event a h purpose received htlcs yuv made_world shown in
        let ran =
          run_two invoiced (op_event a (payment_claimed h purpose received htlcs yuv)) w
            (invoiced_returns create amt network expiry pixel w)
            (ap (λ (x : World L × Outcome (Unit {0})). x.1) claimed)
          ∙ ap (λ (x : World L × Outcome (Unit {0})). x.0) claimed in
        (
          w',
          loaded,
          rw (i, ran) (claim_entry_known h (some preimage) (some secret) received _ _ first),
        )
