-- ===== src/Payments/Durable.antt =====
-- What a restart reads back: the payment files hold what the node has in memory, after every
-- command and every event.
use yuv_lightning_ldk_sample.Payments.Ops.{Survives, run_ops-Survives, run_ops, Op}
use yuv_lightning_ldk_sample.Prelude.{List, ◌≡◌, some, false, [], ◌∙◌, refl}
use yuv_lightning_ldk_sample.Node.{
  Ldk, PaymentInfoStorage, World, inbound_payments_fname, outbound_payments_fname, write,
}
use yuv_lightning_ldk_sample.Payments.{PaymentApi, read_payment_info, read_contents}
use yuv_lightning_ldk_sample.Prelude.Text.{Bytes, equal, equal_self}
use yuv_lightning_ldk_sample.Prelude.Assoc.{Assoc, insert, get-insert}

module _ {L : Ldk} (api : PaymentApi L) where
  pub record IsDurable (w : World L) : Type 0 where
    pub inbound_saved : read_payment_info api inbound_payments_fname w.store ≡ w.inbound
    pub outbound_saved : read_payment_info api outbound_payments_fname w.store ≡ w.outbound

  module _ (decode-encode : (s : PaymentInfoStorage L) → api.decode (api.encode s) ≡ some s) where
    pub read_written :
        (path : Bytes) (s : PaymentInfoStorage L) (files : Assoc Bytes)
        → read_payment_info api path (insert path (api.encode s) files) ≡ s
    unfolding read_payment_info
    read_written path s files =
        rw (get-insert path path (api.encode s) files, equal_self path)
          (unfold read_contents in rw decode-encode)

    pub read_other :
        (path other bytes : Bytes) (files : Assoc Bytes)
        → equal other path ≡ false
        → read_payment_info api path (insert other bytes files) ≡ read_payment_info api path files
    unfolding read_payment_info
    read_other path other bytes files h = rw (get-insert other path bytes files, h)

    save_outbound-IsDurable :
        (m : PaymentInfoStorage L) (w : World L)
        → IsDurable w
        → IsDurable (write [] outbound_payments_fname (api.encode m) (record w { outbound = m }))
    unfolding write equal
    save_outbound-IsDurable m w d = record {
      inbound_saved = read_other inbound_payments_fname _ _ w.store refl ∙ d.inbound_saved;
      outbound_saved = read_written outbound_payments_fname m w.store;
    }

    save_inbound-IsDurable :
        (m : PaymentInfoStorage L) (w : World L)
        → IsDurable w
        → IsDurable (write [] inbound_payments_fname (api.encode m) (record w { inbound = m }))
    unfolding write equal
    save_inbound-IsDurable m w d = record {
      inbound_saved = read_written inbound_payments_fname m w.store;
      outbound_saved = read_other outbound_payments_fname _ _ w.store refl ∙ d.outbound_saved;
    }

    pub IsDurable-Survives : Survives api IsDurable
    unfolding write equal
    IsDurable-Survives = record {
      saves_outbound = save_outbound-IsDurable;
      saves_inbound = save_inbound-IsDurable;
      calls =
          λ c w d. record { inbound_saved = d.inbound_saved; outbound_saved = d.outbound_saved };
      stores = λ name bytes w d. record {
        inbound_saved = read_other inbound_payments_fname _ bytes w.store refl ∙ d.inbound_saved;
        outbound_saved = read_other outbound_payments_fname _ bytes w.store refl ∙ d.outbound_saved;
      };
    }

    -- Let the reader of the payment files read back what the writer wrote. Whatever commands and
    -- events a node goes through up to a first panic, with whatever answers: if its payment files hold
    -- its payments before, they hold them afterwards.
    pub run_ops-IsDurable :
        (ops : List (Op L)) (w : World L) → IsDurable w → IsDurable (run_ops api ops w)
    run_ops-IsDurable = run_ops-Survives api IsDurable IsDurable-Survives
