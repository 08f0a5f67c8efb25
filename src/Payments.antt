-- ===== src/Payments.antt =====
-- Outgoing payments and invoices: `send_payment`, `keysend` and `get_invoice` of src/cli.rs, and
-- `read_payment_info` of src/disk.rs.
pub mod Ops
pub mod Durable
pub mod Sending
pub mod Keysending
pub mod Kept
pub mod Ledger
pub mod Refinement
pub mod Disk
use yuv_lightning_ldk_sample.Prelude.{
  ℕ, Bool, true, false, ◌&&◌, not, [], Option, none, some, if◌then◌else◌, is_some, ◌==◌, Outcome,
  panics, returns,
}
use yuv_lightning_ldk_sample.Prelude.Text.{Bytes}
use yuv_lightning_ldk_sample.Prelude.Assoc.{insert, modify, Assoc, get, contains_key}
use yuv_lightning_ldk_sample.Node.{
  Ldk, pending, failed, PaymentInfo, PaymentInfoStorage, World, outbound_payments_fname, write,
  inbound_payments_fname, Call, call,
}

-- bitcoin: `Network`; the constructor `other` is what the wildcard arm of a `match` takes
pub data Network : Type 0 where
  bitcoin testnet regtest signet other : Network

-- lightning_invoice: `Currency`
pub data Currency : Type 0 where
  bitcoin bitcoin_testnet regtest signet : Currency

-- What the libraries give to these functions: accessors of an invoice, payment parameters (the
-- payment hash, the onion fields and the route parameters), and the codec of the payment files.
pub record PaymentApi (L : Ldk) : Type 0 where
  pub payment_hash : L.Invoice → Bytes
  pub payment_secret : L.Invoice → Bytes
  pub amount_milli_satoshis : L.Invoice → Option ℕ
  pub yuv_pixel : L.Invoice → Option (L.Pixel)
  pub payment_parameters_from_invoice : L.Invoice → Option (Bytes × L.Onion × L.Route)
  pub payment_parameters_from_zero_amount_invoice :
      L.Invoice → ℕ → Option (Bytes × L.Onion × L.Route)
  pub without_fee_limit : L.Route → L.Route
  pub spontaneous_empty : L.Onion
  -- `for_keysend(payee, 40, false)` with an amount
  pub keysend_route : L.PublicKey → ℕ → L.Route
  -- `PaymentHash::from(preimage)`
  pub hash : Bytes → Bytes
  pub encode : PaymentInfoStorage L → Bytes
  pub decode : Bytes → Option (PaymentInfoStorage L)

unfoldable pub currency_of : Network → Option Currency
currency_of Network.bitcoin = some Currency.bitcoin
currency_of Network.testnet = some Currency.bitcoin_testnet
currency_of Network.regtest = some Currency.regtest
currency_of Network.signet = some Currency.signet
currency_of other = none

-- cli.rs: the amount of the invoice is absent or 0
unfoldable pub is_zero_amount : Option ℕ → Bool
is_zero_amount none = true
is_zero_amount (some n) = n == 0

-- `a == b` on `Option<u64>`
unfoldable pub same_amount : Option ℕ → Option ℕ → Bool
same_amount none none = true
same_amount none (some b) = false
same_amount (some a) none = false
same_amount (some a) (some b) = a == b

module _ {L : Ldk} (api : PaymentApi L) where
  -- `pay_params_opt`, with `none` where `send_payment` returns early or the library refuses
  unfoldable pub pay_params : L.Invoice → Option ℕ → Option (Bytes × L.Onion × L.Route)
  unfolding is_zero_amount same_amount
  pay_params invoice required =
      if is_zero_amount (api.amount_milli_satoshis invoice)
      then (elim required [
        | some amt_msat ↦ api.payment_parameters_from_zero_amount_invoice invoice amt_msat
        | none ↦ none
      ])
      else if is_some required && not (same_amount (api.amount_milli_satoshis invoice) required)
      then none
      else api.payment_parameters_from_invoice invoice

  unfoldable pub sent_info : L.Invoice → PaymentInfo L
  sent_info invoice = record {
    preimage = none;
    secret = some (api.payment_secret invoice);
    status = pending;
    amt_msat = record { amount = api.amount_milli_satoshis invoice };
    yuv_pixel = api.yuv_pixel invoice;
  }

  unfoldable pub keysend_info : ℕ → PaymentInfo L
  keysend_info amt_msat = record {
    preimage = none;
    secret = none;
    status = pending;
    amt_msat = record { amount = some amt_msat };
    yuv_pixel = none;
  }

  -- `outbound_payments.payments.insert(hash, info)` and the write of the file
  unfoldable pub record_outbound : Bytes → PaymentInfo L → World L → World L
  record_outbound h info w =
      let m : PaymentInfoStorage L = record { payments = insert h info w.outbound.payments } in
      write [] outbound_payments_fname (api.encode m) (record w { outbound = m })

  -- `outbound_payments.payments.get_mut(&hash).unwrap().status = Failed` and the write of the file
  unfoldable pub fail_outbound : Bytes → World L → World L
  fail_outbound h w =
      let m : PaymentInfoStorage L = record {
        payments = modify h (λ p. record p { status = failed }) w.outbound.payments;
      } in
      write [] outbound_payments_fname (api.encode m) (record w { outbound = m })

  -- the two arms behind `channel_manager.send_…`: the first with what is unwrapped to print it
  unfoldable pub after_send : Bool → Option ℕ → Bytes → World L → World L × Outcome (Unit {0})
  after_send true none h w = (w, panics)
  after_send true (some printed) h w = (w, returns tt)
  after_send false printed h w =
      if contains_key h w.outbound.payments then (fail_outbound h w, returns tt) else (w, panics)

  unfoldable pub send_with :
      (Call L → Bool)
      → L.Invoice
      → Option (Bytes × L.Onion × L.Route)
      → World L
      → World L × Outcome (Unit {0})
  send_with is_ok invoice none w = (w, returns tt)
  send_with is_ok invoice (some (h, onion, route)) w =
      let c = Call.send_payment h onion (api.payment_hash invoice) (api.without_fee_limit route) in
      after_send (is_ok c) (api.amount_milli_satoshis invoice) h
        (call c (record_outbound h (sent_info invoice) w))

  -- `is_ok` is the answer of the channel manager to a call.
  unfoldable pub send_payment :
      (Call L → Bool) → L.Invoice → Option ℕ → World L → World L × Outcome (Unit {0})
  send_payment is_ok invoice required = send_with is_ok invoice (pay_params invoice required)

  -- `preimage` is what the entropy source returns.
  unfoldable pub keysend :
      (Call L → Bool) → Bytes → L.PublicKey → ℕ → World L → World L × Outcome (Unit {0})
  keysend is_ok preimage payee amt_msat w =
      let h = api.hash preimage in
      let c =
        Call.send_spontaneous_payment preimage api.spontaneous_empty h
          (api.keysend_route payee amt_msat) in
      after_send (is_ok c) (some amt_msat) h (call c (record_outbound h (keysend_info amt_msat) w))

  unfoldable pub invoice_info : ℕ → L.Invoice → Option (L.Pixel) → PaymentInfo L
  invoice_info amt_msat invoice pixel = record {
    preimage = none;
    secret = some (api.payment_secret invoice);
    status = pending;
    amt_msat = record { amount = some amt_msat };
    yuv_pixel = pixel;
  }

  abbrev pub add_inbound : ℕ → Option (L.Pixel) → Option (L.Invoice) → World L → World L
  add_inbound amt_msat pixel none w = w
  add_inbound amt_msat pixel (some invoice) w = record w {
    inbound = record {
      payments =
          insert (api.payment_hash invoice) (invoice_info amt_msat invoice pixel)
            w.inbound.payments;
    };
  }

  unfoldable pub get_invoice_in :
      (Currency → ℕ → ℕ → Option (L.Pixel) → Option (L.Invoice))
      → ℕ
      → Option Currency
      → ℕ
      → Option (L.Pixel)
      → World L
      → World L
  get_invoice_in create amt_msat none expiry_secs pixel w = w
  get_invoice_in create amt_msat (some c) expiry_secs pixel w =
      add_inbound amt_msat pixel (create c amt_msat expiry_secs pixel) w

  -- `create` stands for the two functions `create_invoice_…` and `create_yuv_invoice_…` at the
  -- time of the call: currency, amount, expiry and pixel. An unsupported network has no currency.
  unfoldable pub get_invoice :
      (Currency → ℕ → ℕ → Option (L.Pixel) → Option (L.Invoice))
      → ℕ
      → Network
      → ℕ
      → Option (L.Pixel)
      → World L
      → World L
  get_invoice create amt_msat network = get_invoice_in create amt_msat (currency_of network)

  -- the end of the command `getinvoice`: whatever `get_invoice` did, the file is written
  unfoldable pub save_inbound : World L → World L
  save_inbound w = write [] inbound_payments_fname (api.encode w.inbound) w

  -- the contents of a file, if it could be opened
  unfoldable pub read_contents : Option Bytes → PaymentInfoStorage L
  read_contents none = record { payments = [] }
  read_contents (some bytes) = elim (api.decode bytes) [
    | none ↦ record { payments = [] }
    | some info ↦ info
  ]

  -- disk.rs: a file that is missing or not readable counts as empty
  unfoldable pub read_payment_info : Bytes → Assoc Bytes → PaymentInfoStorage L
  read_payment_info path files = read_contents (get path files)
