-- ===== src/Startup/Recovery.antt =====
-- A node that starts again on the files of a node that ran before.
use yuv_lightning_ldk_sample.Prelude.{
  List, ◌≡◌, some, true, returns, arith, Option-cases, inl, inr, ap, refl,
}
use yuv_lightning_ldk_sample.Node.{
  Ldk, PaymentInfoStorage, PaymentInfo, pending, World, write, inbound_payments_fname,
  outbound_payments_fname,
}
use yuv_lightning_ldk_sample.Startup.{
  settle, load_payments, load_with, settle_all, RecentPaymentDetails, contains, recent_hashes,
  started,
}
use yuv_lightning_ldk_sample.Payments.{PaymentApi, read_payment_info}
use yuv_lightning_ldk_sample.Prelude.Text.{Bytes, equal}
use yuv_lightning_ldk_sample.Payments.Ops.{Op, run_ops}
use yuv_lightning_ldk_sample.Payments.Durable.{
  IsDurable, run_ops-IsDurable, read_other, read_written,
}
use yuv_lightning_ldk_sample.Prelude.Assoc.{Assoc, get, get-map_values}

module _ {L : Ldk} where
  settle-pending :
      (hashes : List Bytes) (h : Bytes) (p : PaymentInfo L)
      → (settle hashes h p).status ≡ pending
      → contains h hashes ≡ true
  unfolding settle
  settle-pending hashes h p e = ground arith

  settled_pending :
      (hashes : List Bytes) (h : Bytes) (s : PaymentInfoStorage L) (p : PaymentInfo L)
      → get h (settle_all hashes s).payments ≡ some p
      → p.status ≡ pending
      → contains h hashes ≡ true
  unfolding settle_all
  settled_pending hashes h s p g e = elim (Option-cases (get h s.payments)) [
    | inl missing ↦ cc (missing, g, get-map_values h (settle hashes) s.payments)
    | inr (q, found) ↦
        settle-pending hashes h q (cc (found, g, e, get-map_values h (settle hashes) s.payments))
  ]

module _ {L : Ldk} (api : PaymentApi L) where
  pub load_payments-started :
      (recent : List RecentPaymentDetails) (hashes : List Bytes) (config : L.UserConfig)
      (files : Assoc Bytes)
      → recent_hashes recent ≡ returns hashes
      → load_payments api recent config files ≡ returns (started api hashes config files)
  unfolding load_payments
  load_payments-started recent hashes config files r = rw (r, load_with)

  -- Once the payments are loaded, without a panic, every outgoing payment that is still pending is one of the recent
  -- payments of the channel manager.
  pub load_payments-pending :
      (recent : List RecentPaymentDetails) (hashes : List Bytes) (config : L.UserConfig)
      (files : Assoc Bytes) (w : World L) (h : Bytes) (p : PaymentInfo L)
      → recent_hashes recent ≡ returns hashes
      → load_payments api recent config files ≡ returns w
      → get h w.outbound.payments ≡ some p
      → p.status ≡ pending
      → contains h hashes ≡ true
  unfolding started write
  load_payments-pending recent hashes config files w h p r l g s =
      let same : w ≡ started api hashes config files =
        cc (l, load_payments-started recent hashes config files r) in
      settled_pending hashes h (read_payment_info api outbound_payments_fname files) p
        (rw same at g) s

  module _ (decode-encode : (s : PaymentInfoStorage L) → api.decode (api.encode s) ≡ some s) where
    pub started-IsDurable :
        (hashes : List Bytes) (config : L.UserConfig) (files : Assoc Bytes)
        → IsDurable api (started api hashes config files)
    unfolding started write equal
    started-IsDurable hashes config files = record {
      inbound_saved =
          read_other api decode-encode inbound_payments_fname outbound_payments_fname _ files refl;
      outbound_saved = read_written api decode-encode outbound_payments_fname _ files;
    }

    -- A start on files that are faithful.
    pub load_payments-IsDurable :
        (w : World L) (recent : List RecentPaymentDetails) (hashes : List Bytes)
        (config : L.UserConfig)
        → IsDurable api w
        → recent_hashes recent ≡ returns hashes
        → (w' : World L) × (load_payments api recent config w.store ≡ returns w')
          × (w'.inbound ≡ w.inbound)
          × (w'.outbound ≡ settle_all hashes w.outbound)
          × IsDurable api w'
    unfolding started write
    load_payments-IsDurable w recent hashes config d r = (
      started api hashes config w.store,
      load_payments-started recent hashes config _ r,
      d.inbound_saved,
      ap (settle_all hashes) d.outbound_saved,
      started-IsDurable hashes config _,
    )

    -- Let the reader of the payment files read back what the writer wrote. Whatever a node with
    -- faithful payment files goes through, up to a first panic: a node that starts on its files, while
    -- no recent payment awaits its invoice, loads them without a panic, has the same invoices, has the
    -- outgoing payments as they are once settled, and its payment files are faithful again.
    pub restart_recovers :
        (ops : List (Op L)) (w : World L) (recent : List RecentPaymentDetails) (hashes : List Bytes)
        (config : L.UserConfig)
        → IsDurable api w
        → recent_hashes recent ≡ returns hashes
        → (w' : World L) × (load_payments api recent config (run_ops api ops w).store ≡ returns w')
          × (w'.inbound ≡ (run_ops api ops w).inbound)
          × (w'.outbound ≡ settle_all hashes (run_ops api ops w).outbound)
          × IsDurable api w'
    restart_recovers ops w recent hashes config d r =
        load_payments-IsDurable (run_ops api ops w) recent hashes config
          (run_ops-IsDurable api decode-encode ops w d) r
