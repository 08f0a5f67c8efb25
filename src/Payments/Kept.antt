-- ===== src/Payments/Kept.antt =====
-- No payment record is lost while a node runs.
use yuv_lightning_ldk_sample.Prelude.{
  ℕ, Option, is_some, Outcome, ◌≡◌, some, none, true, returns, List, Bool, Bool-cases, refl, panics,
  ◌∷◌, inl, [], ◌+◌, inr, false,
}
use yuv_lightning_ldk_sample.Node.{Ldk, World, PaymentInfo, write, Call, PaymentInfoStorage, call}
use yuv_lightning_ldk_sample.Prelude.Text.{Bytes, equal}
use yuv_lightning_ldk_sample.Events.{
  give_funding, give_yuv_funding, on_funding_generation_ready, claim, store_outputs, then_do,
  claim_entry, on_payment_sent, on_payment_failed, record_claimed, handle_ldk_events,
  on_payment_claimable, preimage_of, on_payment_claimed, secret_of, on_open_channel_request,
  on_payment_forwarded, on_pending_htlcs_forwardable,
}
use yuv_lightning_ldk_sample.Payments.{
  PaymentApi, after_send, record_outbound, send_with, save_inbound, get_invoice_in, fail_outbound,
  add_inbound, Currency, sent_info, send_payment, keysend, get_invoice, keysend_info, currency_of,
}
use yuv_lightning_ldk_sample.Prelude.Assoc.{
  Assoc, get, insert, modify, contains_key, map_some, get-insert, get-modify,
}
use yuv_lightning_ldk_sample.Event.{
  Answers, PaymentPurpose, Event, funding_generation_ready, payment_claimable, payment_claimed,
  payment_sent, open_channel_request, payment_failed, payment_forwarded, pending_htlcs_forwardable,
  spendable_outputs, bump_transaction, ignored,
}
use yuv_lightning_ldk_sample.Payments.Ops.{
  run_ops, run_op, Op, op_send_payment, op_keysend, op_get_invoice, op_event, run_on,
}

module _ {V : Type 0} where
  is_some-map_some : (f : V → V) (o : Option V) → is_some (map_some f o) ≡ is_some o
  is_some-map_some f none = refl
  is_some-map_some f (some v) = refl

  contains_key-insert :
      (k h : Bytes) (v : V) (m : Assoc V)
      → contains_key h m ≡ true
      → contains_key h (insert k v m) ≡ true
  contains_key-insert k h v m e = elim (Bool-cases (equal k h)) [
    | inl same ↦ rw (get-insert k h v m, same)
    | inr other ↦ rw (get-insert k h v m, other, e)
  ]

  contains_key-modify :
      (k h : Bytes) (f : V → V) (m : Assoc V)
      → contains_key h m ≡ true
      → contains_key h (modify k f m) ≡ true
  contains_key-modify k h f m e = elim (Bool-cases (equal k h)) [
    | inl same ↦ rw (get-modify k h f m, same, is_some-map_some f (get h m), e)
    | inr other ↦ rw (get-modify k h f m, other, e)
  ]

module _ {L : Ldk} where
  -- Every payment of the one state is one of the other state.
  pub record Kept (w w' : World L) : Type 0 where
    pub inbound_kept :
        (h : Bytes)
        → contains_key h w.inbound.payments ≡ true
        → contains_key h w'.inbound.payments ≡ true
    pub outbound_kept :
        (h : Bytes)
        → contains_key h w.outbound.payments ≡ true
        → contains_key h w'.outbound.payments ≡ true

  same-Kept : (w w' : World L) → w.inbound ≡ w'.inbound → w.outbound ≡ w'.outbound → Kept w w'
  same-Kept w w' i o = record { inbound_kept = λ h e. rw i at e; outbound_kept = λ h e. rw o at e }

  trans-Kept : (u v w : World L) → Kept u v → Kept v w → Kept u w
  trans-Kept u v w a b = record {
    inbound_kept = λ h e. b.inbound_kept h (a.inbound_kept h e);
    outbound_kept = λ h e. b.outbound_kept h (a.outbound_kept h e);
  }

  inserted_outbound-Kept :
      (k : Bytes) (p : PaymentInfo L) (w w' : World L)
      → w'.inbound ≡ w.inbound
      → w'.outbound.payments ≡ insert k p w.outbound.payments
      → Kept w w'
  inserted_outbound-Kept k p w w' i o = record {
    inbound_kept = λ h e. rw i e;
    outbound_kept = λ h e. rw o (contains_key-insert k h p w.outbound.payments e);
  }

  modified_outbound-Kept :
      (k : Bytes) (f : PaymentInfo L → PaymentInfo L) (w w' : World L)
      → w'.inbound ≡ w.inbound
      → w'.outbound.payments ≡ modify k f w.outbound.payments
      → Kept w w'
  modified_outbound-Kept k f w w' i o = record {
    inbound_kept = λ h e. rw i e;
    outbound_kept = λ h e. rw o (contains_key-modify k h f w.outbound.payments e);
  }

  then_do-Kept :
      (o : Outcome (Unit {0})) (w : World L) (r : World L × Outcome (Unit {0}))
      → Kept w r.0
      → Kept w (then_do o w r).0
  then_do-Kept panics w r k = same-Kept w w refl refl
  then_do-Kept (returns u) w r k = k

  store_outputs-Kept :
      (a : Answers L) (n : ℕ) (outputs : List Bytes) (w : World L)
      → Kept w (store_outputs a n outputs w)
  unfolding store_outputs write
  store_outputs-Kept a n [] w = same-Kept w w refl refl
  store_outputs-Kept a n (output ∷ outputs) w =
      trans-Kept w _ _ (same-Kept w _ refl refl) (store_outputs-Kept a (n + 1) outputs _)

  give_funding-Kept :
      (temp : Bytes) (node : L.PublicKey) (o : Option (L.Transaction)) (w : World L)
      → Kept w (give_funding temp node o w).0
  unfolding give_funding
  give_funding-Kept temp node none w = same-Kept w w refl refl
  give_funding-Kept temp node (some tx) w = same-Kept w _ refl refl

  give_yuv_funding-Kept :
      (temp : Bytes) (node : L.PublicKey) (o : Option (L.Transaction × L.Proofs)) (w : World L)
      → Kept w (give_yuv_funding temp node o w).0
  unfolding give_yuv_funding
  give_yuv_funding-Kept temp node none w = same-Kept w _ refl refl
  give_yuv_funding-Kept temp node (some (tx, proofs)) w = same-Kept w _ refl refl

  claim-Kept : (o : Option Bytes) (w : World L) → Kept w (claim o w).0
  unfolding claim
  claim-Kept none w = same-Kept w w refl refl
  claim-Kept (some p) w = same-Kept w _ refl refl

  on_funding-Kept :
      (a : Answers L) (temp : Bytes) (node : L.PublicKey) (value : ℕ) (script : L.Script)
      (pixel : Option (L.Pixel)) (holder other : L.PublicKey) (w : World L)
      → Kept w (on_funding_generation_ready a temp node value script pixel holder other w).0
  unfolding on_funding_generation_ready
  on_funding-Kept a temp node value script none holder other w =
      give_funding-Kept temp node (a.new_funding_tx script value) w
  on_funding-Kept a temp node value script (some pixel) holder other w =
      give_yuv_funding-Kept temp node (a.new_yuv_funding_tx pixel holder other value) w

module _ {L : Ldk} (api : PaymentApi L) where
  after_send-Kept :
      (ok : Bool) (printed : Option ℕ) (h : Bytes) (w : World L)
      → Kept w (after_send api ok printed h w).0
  unfolding after_send fail_outbound write
  after_send-Kept true none h w = same-Kept w w refl refl
  after_send-Kept true (some n) h w = same-Kept w w refl refl
  after_send-Kept false printed h w = elim (Bool-cases (contains_key h w.outbound.payments)) [
    | inl e ↦ rw e (modified_outbound-Kept h _ w _ refl refl)
    | inr e ↦ rw e (same-Kept w w refl refl)
  ]

  sent-Kept :
      (ok : Bool) (printed : Option ℕ) (h : Bytes) (info : PaymentInfo L) (c : Call L) (w : World L)
      → Kept w (after_send api ok printed h (call c (record_outbound api h info w))).0
  unfolding record_outbound write
  sent-Kept ok printed h info c w =
      trans-Kept w _ _ (inserted_outbound-Kept h info w _ refl refl)
        (after_send-Kept ok printed h _)

  send_with-Kept :
      (is_ok : Call L → Bool) (invoice : L.Invoice) (params : Option (Bytes × L.Onion × L.Route))
      (w : World L)
      → Kept w (send_with api is_ok invoice params w).0
  unfolding send_with
  send_with-Kept is_ok invoice none w = same-Kept w w refl refl
  send_with-Kept is_ok invoice (some (h, onion, route)) w =
      sent-Kept _ _ h (sent_info api invoice) _ w

  claim_entry-kept :
      (k : Bytes) (preimage secret : Option Bytes) (amt : ℕ) (s : PaymentInfoStorage L) (h : Bytes)
      → contains_key h s.payments ≡ true
      → contains_key h (claim_entry api k preimage secret amt s).payments ≡ true
  unfolding claim_entry
  claim_entry-kept k preimage secret amt s h e = elim (Bool-cases (contains_key k s.payments)) [
    | inl known ↦ rw known (contains_key-modify k h _ s.payments e)
    | inr new ↦ rw new (contains_key-insert k h _ s.payments e)
  ]

  on_payment_sent-Kept :
      (preimage h : Bytes) (w : World L) → Kept w (on_payment_sent api preimage h w)
  unfolding on_payment_sent write
  on_payment_sent-Kept preimage h w = elim (Bool-cases (contains_key h w.outbound.payments)) [
    | inl e ↦ rw e (modified_outbound-Kept h _ w _ refl refl)
    | inr e ↦ rw e (same-Kept w w refl refl)
  ]

  on_payment_failed-Kept : (h : Bytes) (w : World L) → Kept w (on_payment_failed api h w)
  unfolding on_payment_failed write
  on_payment_failed-Kept h w = elim (Bool-cases (contains_key h w.outbound.payments)) [
    | inl e ↦ rw e (modified_outbound-Kept h _ w _ refl refl)
    | inr e ↦ rw e (same-Kept w _ refl refl)
  ]

  record_claimed-Kept :
      (h : Bytes) (purpose : PaymentPurpose) (amt : ℕ) (w : World L)
      → Kept w (record_claimed api h purpose amt w)
  unfolding record_claimed write
  record_claimed-Kept h purpose amt w = record {
    inbound_kept = claim_entry-kept h (preimage_of purpose) (secret_of purpose) amt w.inbound;
    outbound_kept = λ k e. e;
  }

  handle_ldk_events-Kept :
      (a : Answers L) (event : Event L) (w : World L) → Kept w (handle_ldk_events api a event w).0
  unfolding handle_ldk_events on_payment_claimable on_payment_claimed on_open_channel_request
      on_payment_forwarded on_pending_htlcs_forwardable
  handle_ldk_events-Kept a (funding_generation_ready t n v s p h o) w =
      on_funding-Kept a t n v s p h o w
  handle_ldk_events-Kept a (payment_claimable purpose via yuv) w =
      then_do-Kept _ w _ (claim-Kept (preimage_of purpose) w)
  handle_ldk_events-Kept a (payment_claimed h purpose amt htlcs yuv) w =
      then_do-Kept _ w _ (record_claimed-Kept h purpose amt w)
  handle_ldk_events-Kept a (payment_sent preimage h) w = on_payment_sent-Kept preimage h w
  handle_ldk_events-Kept a (open_channel_request t n) w = same-Kept w _ refl refl
  handle_ldk_events-Kept a (payment_failed h) w = on_payment_failed-Kept h w
  handle_ldk_events-Kept a (payment_forwarded p n yuv) w =
      then_do-Kept _ w _ (then_do-Kept _ w _ (same-Kept w w refl refl))
  handle_ldk_events-Kept a (pending_htlcs_forwardable t) w = same-Kept w _ refl refl
  handle_ldk_events-Kept a (spendable_outputs outputs) w = store_outputs-Kept a 0 outputs w
  handle_ldk_events-Kept a (bump_transaction e) w = same-Kept w _ refl refl
  handle_ldk_events-Kept a ignored w = same-Kept w w refl refl

  add_inbound-Kept :
      (amt : ℕ) (pixel : Option (L.Pixel)) (o : Option (L.Invoice)) (w : World L)
      → Kept w (save_inbound api (add_inbound api amt pixel o w))
  unfolding save_inbound write
  add_inbound-Kept amt pixel none w = same-Kept w _ refl refl
  add_inbound-Kept amt pixel (some invoice) w = record {
    inbound_kept = λ h e. contains_key-insert (api.payment_hash invoice) h _ w.inbound.payments e;
    outbound_kept = λ h e. e;
  }

  get_invoice-Kept :
      (create : Currency → ℕ → ℕ → Option (L.Pixel) → Option (L.Invoice)) (amt : ℕ)
      (c : Option Currency) (expiry : ℕ) (pixel : Option (L.Pixel)) (w : World L)
      → Kept w (save_inbound api (get_invoice_in api create amt c expiry pixel w))
  unfolding get_invoice_in
  get_invoice-Kept create amt none expiry pixel w = add_inbound-Kept amt pixel none w
  get_invoice-Kept create amt (some c) expiry pixel w =
      add_inbound-Kept amt pixel (create c amt expiry pixel) w

  run_op-Kept : (op : Op L) (w : World L) → Kept w (run_op api op w).0
  unfolding run_op send_payment keysend get_invoice
  run_op-Kept (op_send_payment is_ok invoice required) w = send_with-Kept is_ok invoice _ w
  run_op-Kept (op_keysend is_ok preimage payee amt) w = sent-Kept _ _ _ (keysend_info api amt) _ w
  run_op-Kept (op_get_invoice create amt network expiry pixel) w =
      get_invoice-Kept create amt (currency_of network) expiry pixel w
  run_op-Kept (op_event a event) w = handle_ldk_events-Kept a event w

  run_on-Kept :
      (go_on : World L → World L) (w : World L) (r : World L × Outcome (Unit {0}))
      → Kept w r.0
      → ((v : World L) → Kept v (go_on v))
      → Kept w (run_on api go_on r)
  run_on-Kept go_on w (v, returns u) k h = trans-Kept w v _ k (h v)
  run_on-Kept go_on w (v, panics) k h = k

  -- Whatever commands and events a node goes through up to a first panic, with whatever answers:
  -- every payment and every invoice that has a record before has one afterwards.
  pub run_ops-Kept : (ops : List (Op L)) (w : World L) → Kept w (run_ops api ops w)
  unfolding run_ops
  run_ops-Kept [] w = same-Kept w w refl refl
  run_ops-Kept (op ∷ ops) w =
      run_on-Kept (run_ops api ops) w (run_op api op w) (run_op-Kept op w) (run_ops-Kept ops)
