-- ===== src/Payments/Keysending.antt =====
-- What `keysend` records.
use yuv_lightning_ldk_sample.Prelude.{
  ℕ, ◌≡◌, Bool, refl, returns, true, some, false, ◌++◌, ◌∷◌, [], ap, is_some, ◌∙◌,
}
use yuv_lightning_ldk_sample.Payments.{
  keysend, PaymentApi, Bytes, keysend_info, after_send, record_outbound, contains_key, get,
}
use yuv_lightning_ldk_sample.Node.{write, call, Ldk, Call, pending, World, outbound_payments_fname}
use yuv_lightning_ldk_sample.Payments.Sending.{sent_status, recorded_first, after_send-AfterSend}
use yuv_lightning_ldk_sample.Prelude.Text.{equal, equal_self}
use yuv_lightning_ldk_sample.Prelude.Assoc.{get-insert}

module _ {L : Ldk} (api : PaymentApi L) where
  -- the call that `keysend` makes
  abbrev pub keysend_call : Bytes → L.PublicKey → ℕ → Call L
  keysend_call preimage payee amt_msat =
      Call.send_spontaneous_payment preimage api.spontaneous_empty (api.hash preimage)
        (api.keysend_route payee amt_msat)

  keysend_info-pending : (amt_msat : ℕ) → (keysend_info api amt_msat).status ≡ pending
  unfolding keysend_info
  keysend_info-pending amt_msat = refl

  after_send-returns :
      (ok : Bool) (printed : ℕ) (h : Bytes) (w : World L)
      → contains_key h w.outbound.payments ≡ true
      → (after_send api ok (some printed) h w).1 ≡ returns tt
  unfolding after_send
  after_send-returns true printed h w here = refl
  after_send-returns false printed h w here = rw here refl

  -- With writes that succeed, `keysend` does not panic. It records the amount under the hash of the preimage, as pending if the
  -- channel manager takes the payment and as failed if not; no other payment and no invoice changes,
  -- one call is made, and the file holds what is in memory.
  pub keysend_recorded :
      (is_ok : Call L → Bool) (preimage : Bytes) (payee : L.PublicKey) (amt_msat : ℕ) (w : World L)
      → ((keysend api is_ok preimage payee amt_msat w).1 ≡ returns tt)
        × (get (api.hash preimage) (keysend api is_ok preimage payee amt_msat w).0.outbound.payments
            ≡ some (record (keysend_info api amt_msat) {
              status = sent_status api (is_ok (keysend_call preimage payee amt_msat));
            }))
        × ((j : Bytes)
            → equal (api.hash preimage) j ≡ false
            → get j (keysend api is_ok preimage payee amt_msat w).0.outbound.payments
              ≡ get j w.outbound.payments)
        × ((keysend api is_ok preimage payee amt_msat w).0.inbound ≡ w.inbound)
        × ((keysend api is_ok preimage payee amt_msat w).0.calls
            ≡ w.calls ++ keysend_call preimage payee amt_msat ∷ [])
        × (get outbound_payments_fname (keysend api is_ok preimage payee amt_msat w).0.store
            ≡ some (api.encode (keysend api is_ok preimage payee amt_msat w).0.outbound))
  unfolding keysend record_outbound write
  keysend_recorded is_ok preimage payee amt_msat w =
      let h = api.hash preimage in
      let info = keysend_info api amt_msat in
      let c = keysend_call preimage payee amt_msat in
      let first = recorded_first api h info w in
      let after =
        after_send-AfterSend api (is_ok c) (some amt_msat) h info
          (call c (record_outbound api h info w)) (keysend_info-pending amt_msat) first in
      (
        after_send-returns (is_ok c) amt_msat h (call c (record_outbound api h info w))
            (ap is_some first),
        after.recorded,
        λ j ne. after.others j ne ∙ rw (get-insert h j info _, ne),
        after.inbound_same,
        after.calls_same,
        after.saved (
            rw (
              get-insert outbound_payments_fname outbound_payments_fname _ w.store,
              equal_self outbound_payments_fname,
            )),
      )
