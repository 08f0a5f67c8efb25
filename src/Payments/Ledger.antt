-- ===== src/Payments/Ledger.antt =====
-- An abstract view of the outgoing payments: what the status of each one is, and the two things that
-- can happen to it.
use yuv_lightning_ldk_sample.Prelude.{
  ℕ, if◌then◌else◌, List, Bool, Option, ◌∷◌, [], some, none, ◌≡◌, true, false, Bool-cases, ap, refl,
  inl, inr, ◌∙◌, is_some, subst,
}
use yuv_lightning_ldk_sample.Node.{
  HtlcStatus, Ldk, pending, failed, PaymentInfo, World, Call, succeeded, write, call,
}
use yuv_lightning_ldk_sample.Prelude.Text.{Bytes, equal, equal_self, equal_iff}
use yuv_lightning_ldk_sample.Payments.{
  PaymentApi, Assoc, after_send, get, contains_key, record_outbound, pay_params, insert, modify,
  fail_outbound, send_with, sent_info,
}
use yuv_lightning_ldk_sample.Event.{Event, payment_sent, payment_failed}
use yuv_lightning_ldk_sample.Payments.Ops.{
  Op, op_send_payment, op_keysend, op_get_invoice, op_event,
}
use yuv_lightning_ldk_sample.Prelude.Assoc.{map_some, get-insert, get-modify}
use yuv_lightning_ldk_sample.Events.{on_payment_failed, on_payment_sent}

-- the status of the payment with a hash, if there is one
abbrev pub Ledger : Type 0
Ledger = Bytes → Option HtlcStatus

-- What a command or an event does to a ledger: a payment is sent, with the status that it has then,
-- or one that is known ends.
pub data Entry : Type 0 where
  opens ends : Bytes → HtlcStatus → Entry
  nothing : Entry

abbrev pub ended : HtlcStatus → Option HtlcStatus → Option HtlcStatus
ended s none = none
ended s (some old) = some s

unfoldable pub enter : Entry → Ledger → Ledger
enter (opens h s) ledger k = if equal h k then some s else ledger k
enter (ends h s) ledger k = if equal h k then ended s (ledger k) else ledger k
enter nothing ledger k = ledger k

unfoldable pub enter_all : List Entry → Ledger → Ledger
enter_all [] ledger = ledger
enter_all (entry ∷ entries) ledger = enter_all entries (enter entry ledger)

abbrev pub sent_status : Bool → HtlcStatus
sent_status true = pending
sent_status false = failed

module _ {L : Ldk} (api : PaymentApi L) where
  abbrev pub status_of : Option (PaymentInfo L) → Option HtlcStatus
  status_of none = none
  status_of (some p) = some p.status

  abbrev pub ledger_of : World L → Ledger
  ledger_of w k = status_of (get k w.outbound.payments)

  -- a payment of an invoice that gives parameters is sent under the hash of these
  abbrev pub sent_entry : (Call L → Bool) → L.Invoice → Option (Bytes × L.Onion × L.Route) → Entry
  sent_entry is_ok invoice none = nothing
  sent_entry is_ok invoice (some (h, onion, route)) = opens h (
      sent_status (
        is_ok (Call.send_payment h onion (api.payment_hash invoice) (api.without_fee_limit route))))

  abbrev pub event_entry : Event L → Entry
  event_entry (payment_sent preimage h) = ends h succeeded
  event_entry (payment_failed h) = ends h failed
  event_entry event = nothing

  -- The entry of a command or an event.
  unfoldable pub entry_of : Op L → Entry
  entry_of (op_send_payment is_ok invoice required) =
      sent_entry is_ok invoice (pay_params api invoice required)
  entry_of (op_keysend is_ok preimage payee amt) = opens (api.hash preimage) (
      sent_status (
        is_ok (
          Call.send_spontaneous_payment preimage api.spontaneous_empty (api.hash preimage)
            (api.keysend_route payee amt))))
  entry_of (op_get_invoice create amt network expiry pixel) = nothing
  entry_of (op_event a event) = event_entry event

  status-insert :
      (h k : Bytes) (p : PaymentInfo L) (m : Assoc (PaymentInfo L))
      → status_of (get k (insert h p m))
        ≡ (if equal h k then some p.status else status_of (get k m))
  status-insert h k p m = elim (Bool-cases (equal h k)) [
    | inl same ↦ rw (get-insert h k p m, same)
    | inr other ↦ rw (get-insert h k p m, other)
  ]

  status-map_some :
      (s : HtlcStatus) (f : PaymentInfo L → PaymentInfo L) (o : Option (PaymentInfo L))
      → ((p : PaymentInfo L) → (f p).status ≡ s)
      → status_of (map_some f o) ≡ ended s (status_of o)
  status-map_some s f none h = refl
  status-map_some s f (some p) h = ap some (h p)

  status-modify :
      (s : HtlcStatus) (h k : Bytes) (f : PaymentInfo L → PaymentInfo L) (m : Assoc (PaymentInfo L))
      → ((p : PaymentInfo L) → (f p).status ≡ s)
      → status_of (get k (modify h f m))
        ≡ (if equal h k then ended s (status_of (get k m)) else status_of (get k m))
  status-modify s h k f m e = elim (Bool-cases (equal h k)) [
    | inl same ↦ rw (get-modify h k f m, same) (status-map_some s f (get k m) e)
    | inr other ↦ rw (get-modify h k f m, other)
  ]

  is_some-none : (o : Option (PaymentInfo L)) → is_some o ≡ false → o ≡ none
  is_some-none none e = refl
  is_some-none (some p) e = cc

  -- a payment that is not there does not end
  status-absent :
      (s : HtlcStatus) (h k : Bytes) (m : Assoc (PaymentInfo L))
      → contains_key h m ≡ false
      → status_of (get k m)
        ≡ (if equal h k then ended s (status_of (get k m)) else status_of (get k m))
  status-absent s h k m absent = elim (Bool-cases (equal h k)) [
    | inl same ↦
        rw (
          same,
          subst (λ j. get j m ≡ none) ((equal_iff h k).0 same) (is_some-none (get h m) absent),
        )
    | inr other ↦ rw other
  ]

  status-opened :
      (h k : Bytes) (info : PaymentInfo L) (m : Assoc (PaymentInfo L))
      → info.status ≡ pending
      → status_of (get k (insert h info m))
        ≡ (if equal h k then some pending else status_of (get k m))
  status-opened h k info m fresh = status-insert h k info m ∙ rw fresh refl

  status-refused :
      (h k : Bytes) (info : PaymentInfo L) (m : Assoc (PaymentInfo L))
      → info.status ≡ pending
      → status_of (get k (modify h (λ p. record p { status = failed }) (insert h info m)))
        ≡ (if equal h k then some failed else status_of (get k m))
  status-refused h k info m fresh =
      status-modify failed h k (λ p. record p { status = failed }) (insert h info m) (λ p. refl)
      ∙ (elim (Bool-cases (equal h k)) [
        | inl same ↦ rw (same, status-opened h k info m fresh, same) refl
        | inr other ↦ rw (other, status-opened h k info m fresh, other) refl
      ])

  contains_key-inserted :
      (h : Bytes) (info : PaymentInfo L) (m : Assoc (PaymentInfo L))
      → contains_key h (insert h info m) ≡ true
  contains_key-inserted h info m = rw (get-insert h h info m, equal_self h)

  pub sent-ledger :
      (ok : Bool) (printed : Option ℕ) (h k : Bytes) (info : PaymentInfo L) (c : Call L)
      (w : World L)
      → info.status ≡ pending
      → ledger_of (after_send api ok printed h (call c (record_outbound api h info w))).0 k
        ≡ enter (opens h (sent_status ok)) (ledger_of w) k
  unfolding after_send record_outbound fail_outbound enter write
  sent-ledger true none h k info c w fresh = status-opened h k info w.outbound.payments fresh
  sent-ledger true (some n) h k info c w fresh = status-opened h k info w.outbound.payments fresh
  sent-ledger false printed h k info c w fresh =
      rw (contains_key-inserted h info w.outbound.payments)
        (status-refused h k info w.outbound.payments fresh)

  pub send_with-ledger :
      (is_ok : Call L → Bool) (invoice : L.Invoice) (params : Option (Bytes × L.Onion × L.Route))
      (w : World L) (k : Bytes)
      → ledger_of (send_with api is_ok invoice params w).0 k
        ≡ enter (sent_entry is_ok invoice params) (ledger_of w) k
  unfolding send_with sent_info enter
  send_with-ledger is_ok invoice none w k = refl
  send_with-ledger is_ok invoice (some (h, onion, route)) w k =
      sent-ledger _ _ h k (sent_info api invoice) _ w refl

  pub on_payment_sent-ledger :
      (preimage h : Bytes) (w : World L) (k : Bytes)
      → ledger_of (on_payment_sent api preimage h w) k ≡ enter (ends h succeeded) (ledger_of w) k
  unfolding on_payment_sent write enter
  on_payment_sent-ledger preimage h w k = elim (Bool-cases (contains_key h w.outbound.payments)) [
    | inl known ↦ rw known (
        status-modify succeeded h k (λ p. record p { preimage = some preimage; status = succeeded })
          w.outbound.payments (λ p. refl))
    | inr new ↦ rw new (status-absent succeeded h k w.outbound.payments new)
  ]

  pub on_payment_failed-ledger :
      (h : Bytes) (w : World L) (k : Bytes)
      → ledger_of (on_payment_failed api h w) k ≡ enter (ends h failed) (ledger_of w) k
  unfolding on_payment_failed write enter
  on_payment_failed-ledger h w k = elim (Bool-cases (contains_key h w.outbound.payments)) [
    | inl known ↦ rw known (
        status-modify failed h k (λ p. record p { status = failed }) w.outbound.payments
          (λ p. refl))
    | inr new ↦ rw new (status-absent failed h k w.outbound.payments new)
  ]
