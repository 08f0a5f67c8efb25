-- ===== src/Payments/Disk.antt =====
-- src/cli.rs: `send_payment` and `keysend` on a disk that may fail. Their writes of the payment file are
-- unwrapped, so one that fails panics, and ends the program; `first` and `second` say whether the two
-- writes succeed, that of the new record and that of the failed payment.
use yuv_lightning_ldk_sample.Prelude.{
  ◌≡◌, Bool, Option, Outcome, if◌then◌else◌, ℕ, returns, panics, some, true, false, ◌↔◌, ◌⊎◌, none,
  inl, inr, refl, ap, subst, is_some, sym, some_eq, ◌++◌, ◌∷◌, [],
}
use yuv_lightning_ldk_sample.Payments.{
  Ldk, PaymentApi, World, after_send, Bytes, Call, PaymentInfo, record_outbound, fail_outbound,
  pay_params, contains_key, insert, modify, call, failed, sent_info, keysend_info, keysend, get,
  outbound_payments_fname,
}
use yuv_lightning_ldk_sample.Payments.Keysending.{keysend_call, keysend_recorded}
use yuv_lightning_ldk_sample.Payments.Sending.{send_call, sent_status, recorded_first}
use yuv_lightning_ldk_sample.Prelude.Text.{equal}

module _ {L : Ldk} (api : PaymentApi L) where
  -- The payment is in memory before its file is written.
  unfoldable pub record_on_disk :
      Bool → Bytes → PaymentInfo L → World L → World L × Outcome (Unit {0})
  record_on_disk first h info w =
      if first
      then (record_outbound api h info w, returns tt)
      else (record w { outbound = record { payments = insert h info w.outbound.payments } }, panics)

  unfoldable pub fail_on_disk : Bool → Bytes → World L → World L × Outcome (Unit {0})
  fail_on_disk second h w = if second then (fail_outbound api h w, returns tt) else (
    record w {
      outbound = record {
        payments = modify h (λ p. record p { status = failed }) w.outbound.payments;
      };
    },
    panics,
  )

  -- the arms behind the call of the channel manager
  unfoldable pub after_send_on_disk :
      Bool → Bool → Option ℕ → Bytes → World L → World L × Outcome (Unit {0})
  after_send_on_disk second true none h w = (w, panics)
  after_send_on_disk second true (some printed) h w = (w, returns tt)
  after_send_on_disk second false printed h w =
      if contains_key h w.outbound.payments then fail_on_disk second h w else (w, panics)

  abbrev pub unless_panicked :
      (World L → World L × Outcome (Unit {0}))
      → World L × Outcome (Unit {0})
      → World L × Outcome (Unit {0})
  unless_panicked go_on (w, returns u) = go_on w
  unless_panicked go_on (w, panics) = (w, panics)

  unfoldable pub send_with_on_disk :
      Bool
      → Bool
      → (Call L → Bool)
      → L.Invoice
      → Option (Bytes × L.Onion × L.Route)
      → World L
      → World L × Outcome (Unit {0})
  send_with_on_disk first second is_ok invoice none w = (w, returns tt)
  send_with_on_disk first second is_ok invoice (some (h, onion, route)) w =
      let c = send_call api invoice h onion route in
      unless_panicked
        (λ v. after_send_on_disk second (is_ok c) (api.amount_milli_satoshis invoice) h (call c v))
        (record_on_disk first h (sent_info api invoice) w)

  unfoldable pub send_payment_on_disk :
      Bool → Bool → (Call L → Bool) → L.Invoice → Option ℕ → World L → World L × Outcome (Unit {0})
  send_payment_on_disk first second is_ok invoice required =
      send_with_on_disk first second is_ok invoice (pay_params api invoice required)

  unfoldable pub keysend_on_disk :
      Bool
      → Bool
      → (Call L → Bool)
      → Bytes
      → L.PublicKey
      → ℕ
      → World L
      → World L × Outcome (Unit {0})
  keysend_on_disk first second is_ok preimage payee amt_msat w =
      let c = keysend_call api preimage payee amt_msat in
      unless_panicked
        (λ v. after_send_on_disk second (is_ok c) (some amt_msat) (api.hash preimage) (call c v))
        (record_on_disk first (api.hash preimage) (keysend_info api amt_msat) w)

  after_send_on_disk-panics :
      (second ok : Bool) (printed : Option ℕ) (h : Bytes) (w : World L)
      → contains_key h w.outbound.payments ≡ true
      → ((after_send_on_disk second ok printed h w).1 ≡ panics)
        ↔ (((ok ≡ true) × (printed ≡ none)) ⊎ ((ok ≡ false) × (second ≡ false)))
  unfolding after_send_on_disk fail_on_disk
  after_send_on_disk-panics second true none h w here = (λ e. inl (refl, refl), λ e. refl)
  after_send_on_disk-panics second true (some n) h w here =
      (λ e. cc, λ e. elim e [ inl p ↦ cc | inr p ↦ cc ])
  after_send_on_disk-panics true false printed h w here =
      rw here (λ e. cc, λ e. elim e [ inl p ↦ cc | inr p ↦ cc ])
  after_send_on_disk-panics false false printed h w here =
      rw here (λ e. inr (refl, refl), λ e. refl)

  after_send_on_disk-after_send :
      (second ok : Bool) (printed : Option ℕ) (h : Bytes) (w : World L)
      → (ok ≡ true) ⊎ (second ≡ true)
      → after_send_on_disk second ok printed h w ≡ after_send api ok printed h w
  unfolding after_send_on_disk fail_on_disk after_send
  after_send_on_disk-after_send second true none h w e = refl
  after_send_on_disk-after_send second true (some n) h w e = refl
  after_send_on_disk-after_send true false printed h w e = refl
  after_send_on_disk-after_send false false printed h w e = elim e [ inl p ↦ cc | inr p ↦ cc ]

  recorded_there :
      (h : Bytes) (info : PaymentInfo L) (c : Call L) (w : World L)
      → contains_key h (call c (record_outbound api h info w)).outbound.payments ≡ true
  recorded_there h info c w = ap is_some (recorded_first api h info w)

  record_then-panics :
      (first second ok : Bool) (printed : Option ℕ) (h : Bytes) (info : PaymentInfo L) (c : Call L)
      (w : World L)
      → ((unless_panicked
            (λ v. after_send_on_disk second ok printed h (call c v))
            (record_on_disk first h info w)).1
          ≡ panics)
        ↔ ((first ≡ false) ⊎ ((ok ≡ true) × (printed ≡ none)) ⊎ ((ok ≡ false) × (second ≡ false)))
  unfolding record_on_disk
  record_then-panics false second ok printed h info c w = (λ e. inl refl, λ e. refl)
  record_then-panics true second ok printed h info c w =
      let iff =
        after_send_on_disk-panics second ok printed h (call c (record_outbound api h info w))
          (recorded_there h info c w) in
      (λ e. inr (iff.0 e), λ e. elim e [ inl p ↦ cc | inr p ↦ iff.1 p ])

  send_with_on_disk-panics :
      (first second : Bool) (is_ok : Call L → Bool) (invoice : L.Invoice)
      (params : Option (Bytes × L.Onion × L.Route)) (w : World L)
      → ((send_with_on_disk first second is_ok invoice params w).1 ≡ panics) ↔ (
          (p : Bytes × L.Onion × L.Route) × (params ≡ some p)
          × ((first ≡ false)
              ⊎ ((is_ok (send_call api invoice p.0 p.1 p.2) ≡ true)
                  × (api.amount_milli_satoshis invoice ≡ none))
              ⊎ ((is_ok (send_call api invoice p.0 p.1 p.2) ≡ false) × (second ≡ false))))
  unfolding send_with_on_disk
  send_with_on_disk-panics first second is_ok invoice none w = (λ h. cc, λ h. cc (h.1))
  send_with_on_disk-panics first second is_ok invoice (some p) w =
      let c = send_call api invoice p.0 p.1 p.2 in
      let iff =
        record_then-panics first second (is_ok c) (api.amount_milli_satoshis invoice) p.0
          (sent_info api invoice) c w in
      let Fails = λ (q : Bytes × L.Onion × L.Route).
        (first ≡ false)
        ⊎ ((is_ok (send_call api invoice q.0 q.1 q.2) ≡ true)
            × (api.amount_milli_satoshis invoice ≡ none))
        ⊎ ((is_ok (send_call api invoice q.0 q.1 q.2) ≡ false) × (second ≡ false)) in
      (λ e. (p, refl, iff.0 e), λ q. iff.1 (subst Fails (sym (some_eq q.1)) q.2))

  -- `send_payment` panics exactly when the payment passes the checks on its amount and one of these
  -- holds: the write of the new record fails; the channel manager takes the payment and the invoice
  -- has no amount of its own, which the message that is printed then unwraps; or the channel manager
  -- refuses the payment and the write of the failed payment fails.
  pub send_payment_on_disk-panics :
      (first second : Bool) (is_ok : Call L → Bool) (invoice : L.Invoice) (required : Option ℕ)
      (w : World L)
      → ((send_payment_on_disk first second is_ok invoice required w).1 ≡ panics) ↔ (
          (p : Bytes × L.Onion × L.Route) × (pay_params api invoice required ≡ some p)
          × ((first ≡ false)
              ⊎ ((is_ok (send_call api invoice p.0 p.1 p.2) ≡ true)
                  × (api.amount_milli_satoshis invoice ≡ none))
              ⊎ ((is_ok (send_call api invoice p.0 p.1 p.2) ≡ false) × (second ≡ false))))
  unfolding send_payment_on_disk
  send_payment_on_disk-panics first second is_ok invoice required w =
      send_with_on_disk-panics first second is_ok invoice (pay_params api invoice required) w

  keysend_on_disk-keysend :
      (first second : Bool) (is_ok : Call L → Bool) (preimage : Bytes) (payee : L.PublicKey)
      (amt_msat : ℕ) (w : World L)
      → first ≡ true
      → (is_ok (keysend_call api preimage payee amt_msat) ≡ true) ⊎ (second ≡ true)
      → keysend_on_disk first second is_ok preimage payee amt_msat w
        ≡ keysend api is_ok preimage payee amt_msat w
  unfolding keysend_on_disk keysend record_on_disk
  keysend_on_disk-keysend first second is_ok preimage payee amt_msat w e f = rw e (
      after_send_on_disk-after_send second (is_ok (keysend_call api preimage payee amt_msat))
        (some amt_msat) (api.hash preimage) _ f)

  -- What a keysend payment leaves of the world `w`.
  pub record IsKeysent (preimage : Bytes) (payee : L.PublicKey) (amt_msat : ℕ) (ok : Bool)
      (w : World L) (r : World L × Outcome (Unit {0})) : Type 0 where
    pub no_panic : r.1 ≡ returns tt
    pub recorded :
        get (api.hash preimage) r.0.outbound.payments
        ≡ some (record (keysend_info api amt_msat) { status = sent_status api ok })
    pub others :
        (j : Bytes)
        → equal (api.hash preimage) j ≡ false
        → get j r.0.outbound.payments ≡ get j w.outbound.payments
    pub inbound_same : r.0.inbound ≡ w.inbound
    pub one_call : r.0.calls ≡ w.calls ++ keysend_call api preimage payee amt_msat ∷ []
    pub saved : get outbound_payments_fname r.0.store ≡ some (api.encode r.0.outbound)

  -- The write of the new record succeeds, and either the channel manager takes the payment or the
  -- second write succeeds too. Then `keysend` does not panic and records the amount under the
  -- hash of the preimage, as pending if the channel manager takes the payment and as failed if not;
  -- no other payment and no invoice changes, one call is made, and the file holds what is in memory.
  pub keysend_on_disk-IsKeysent :
      (first second : Bool) (is_ok : Call L → Bool) (preimage : Bytes) (payee : L.PublicKey)
      (amt_msat : ℕ) (w : World L)
      → first ≡ true
      → (is_ok (keysend_call api preimage payee amt_msat) ≡ true) ⊎ (second ≡ true)
      → IsKeysent preimage payee amt_msat
          (is_ok (keysend_call api preimage payee amt_msat))
          w
          (keysend_on_disk first second is_ok preimage payee amt_msat w)
  keysend_on_disk-IsKeysent first second is_ok preimage payee amt_msat w e f =
      rw (keysend_on_disk-keysend first second is_ok preimage payee amt_msat w e f) (
        let k = keysend_recorded api is_ok preimage payee amt_msat w in
        record {
          no_panic = k.0;
          recorded = k.1;
          others = k.2;
          inbound_same = k.3;
          one_call = k.4;
          saved = k.5;
        })

  -- `keysend` panics exactly when the write of the new record fails, or when the channel manager
  -- refuses the payment and the write of the failed payment fails.
  pub keysend_on_disk-panics :
      (first second : Bool) (is_ok : Call L → Bool) (preimage : Bytes) (payee : L.PublicKey)
      (amt_msat : ℕ) (w : World L)
      → ((keysend_on_disk first second is_ok preimage payee amt_msat w).1 ≡ panics) ↔ (
          (first ≡ false)
          ⊎ ((is_ok (keysend_call api preimage payee amt_msat) ≡ false) × (second ≡ false)))
  unfolding keysend_on_disk
  keysend_on_disk-panics first second is_ok preimage payee amt_msat w =
      let c = keysend_call api preimage payee amt_msat in
      let iff =
        record_then-panics first second (is_ok c) (some amt_msat) (api.hash preimage)
          (keysend_info api amt_msat) c w in
      (
        λ e. elim (iff.0 e) [ inl p ↦ inl p | inr p ↦ elim p [ inl q ↦ cc (q.1) | inr q ↦ inr q ] ],
        λ e. elim e [ inl p ↦ iff.1 (inl p) | inr p ↦ iff.1 (inr (inr p)) ],
      )
