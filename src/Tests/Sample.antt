-- ===== src/Tests/Sample.antt =====
-- A small node to test with: every type of the libraries is a text or a number, the payment files
-- have a simple codec, and a payment hash is its preimage.
use yuv_lightning_ldk_sample.Prelude.{
  ℕ, suc, zero, List, Option, ◌∷◌, ◌≡◌, [], none, true, refl, some,
}
use yuv_lightning_ldk_sample.Node.{
  Ldk, World, PaymentInfoStorage, HtlcStatus, pending, PaymentInfo, succeeded, failed,
}
use yuv_lightning_ldk_sample.Prelude.Assoc.{Assoc}
use yuv_lightning_ldk_sample.Event.{Answers}
use yuv_lightning_ldk_sample.Prelude.Text.{Bytes}
use yuv_lightning_ldk_sample.Payments.{PaymentApi}

abbrev pub sample_ldk : Ldk
sample_ldk = record {
  PublicKey = Bytes;
  Pixel = ℕ;
  Invoice = Bytes × Option ℕ;
  Onion = Unit;
  Route = Unit;
  Transaction = ℕ;
  Proofs = Unit;
  Script = Bytes;
  UserConfig = Unit;
  BumpEvent = Unit;
  SocketAddr = Bytes;
}

abbrev option_field : {A : Type 0} → (A → Bytes) → Option A → Bytes
option_field f none = []
option_field f (some a) = 0 ∷ f a

abbrev bytes_option : Bytes → Option Bytes
bytes_option [] = none
bytes_option (x ∷ b) = some b

abbrev number_option : Bytes → Option ℕ
number_option [] = none
number_option (x ∷ []) = none
number_option (x ∷ n ∷ b) = some n

abbrev status_field : HtlcStatus → Bytes
status_field pending = []
status_field succeeded = 0 ∷ []
status_field failed = 0 ∷ 0 ∷ []

abbrev field_status : Bytes → HtlcStatus
field_status [] = pending
field_status (x ∷ []) = succeeded
field_status (x ∷ y ∷ b) = failed

abbrev to_fields : Assoc (PaymentInfo sample_ldk) → List Bytes
to_fields [] = []
to_fields ((h, p) ∷ m) =
    h
    ∷ option_field (λ b. b) p.preimage
    ∷ option_field (λ b. b) p.secret
    ∷ status_field p.status
    ∷ option_field (λ n. n ∷ []) p.amt_msat.amount
    ∷ option_field (λ n. n ∷ []) p.yuv_pixel
    ∷ to_fields m

abbrev from_fields : List Bytes → Assoc (PaymentInfo sample_ldk)
from_fields (h ∷ a ∷ b ∷ c ∷ d ∷ e ∷ m) =
    (
      h,
      record {
        preimage = bytes_option a;
        secret = bytes_option b;
        status = field_status c;
        amt_msat = record { amount = number_option d };
        yuv_pixel = number_option e;
      },
    )
    ∷ from_fields m
from_fields _ = []

-- 0 stands before every field
abbrev field_text : Bytes → Bytes → Bytes
field_text [] rest = rest
field_text (x ∷ b) rest = suc x ∷ field_text b rest

abbrev to_text : List Bytes → Bytes
to_text [] = []
to_text (b ∷ fields) = 0 ∷ field_text b (to_text fields)

-- what stands before the first 0, and the fields behind it
abbrev from_text : Bytes → Bytes × List Bytes
from_text [] = ([], [])
from_text (zero ∷ text) = ([], (from_text text).0 ∷ (from_text text).1)
from_text (suc x ∷ text) = (x ∷ (from_text text).0, (from_text text).1)

from_text-field_text :
    (b rest : Bytes) (fields : List Bytes)
    → from_text rest ≡ ([], fields)
    → from_text (field_text b rest) ≡ (b, fields)
from_text-field_text [] rest fields h = h
from_text-field_text (x ∷ b) rest fields h = rw (from_text-field_text b rest fields h)

from_text-to_text : (fields : List Bytes) → from_text (to_text fields) ≡ ([], fields)
from_text-to_text [] = refl
from_text-to_text (b ∷ fields) =
    rw (from_text-field_text b (to_text fields) fields (from_text-to_text fields))

bytes_option-option_field : (o : Option Bytes) → bytes_option (option_field (λ b. b) o) ≡ o
bytes_option-option_field none = refl
bytes_option-option_field (some b) = refl

number_option-option_field : (o : Option ℕ) → number_option (option_field (λ n. n ∷ []) o) ≡ o
number_option-option_field none = refl
number_option-option_field (some b) = refl

field_status-status_field : (s : HtlcStatus) → field_status (status_field s) ≡ s
field_status-status_field pending = refl
field_status-status_field succeeded = refl
field_status-status_field failed = refl

from_fields-to_fields : (m : Assoc (PaymentInfo sample_ldk)) → from_fields (to_fields m) ≡ m
from_fields-to_fields [] = refl
from_fields-to_fields ((h, p) ∷ m) = rw (
  bytes_option-option_field p.preimage,
  bytes_option-option_field p.secret,
  field_status-status_field p.status,
  number_option-option_field p.amt_msat.amount,
  number_option-option_field p.yuv_pixel,
  from_fields-to_fields m,
)

abbrev pub sample_api : PaymentApi sample_ldk
sample_api = record {
  payment_hash = λ invoice. invoice.0;
  payment_secret = λ invoice. 7 ∷ invoice.0;
  amount_milli_satoshis = λ invoice. invoice.1;
  yuv_pixel = λ invoice. some 5;
  payment_parameters_from_invoice = λ invoice. some (invoice.0, tt, tt);
  payment_parameters_from_zero_amount_invoice = λ invoice amt. some (invoice.0, tt, tt);
  without_fee_limit = λ route. route;
  spontaneous_empty = tt;
  keysend_route = λ key amt. tt;
  hash = λ preimage. preimage;
  encode = λ s. to_text (to_fields s.payments);
  decode = λ text. some (record { payments = from_fields (from_text text).1 });
}

pub sample_decode-encode :
    (s : PaymentInfoStorage sample_ldk) → sample_api.decode (sample_api.encode s) ≡ some s
sample_decode-encode s =
    rw (from_text-to_text (to_fields s.payments), from_fields-to_fields s.payments)

abbrev pub empty_world : World sample_ldk
empty_world = record {
  inbound = record { payments = [] };
  outbound = record { payments = [] };
  store = [];
  default_config = tt;
  calls = [];
}

abbrev pub sample_answers : Answers sample_ldk
sample_answers = record {
  is_ok = λ c. true;
  new_yuv_funding_tx = λ pixel holder other value. none;
  new_funding_tx = λ script value. some 9;
  list_channels = [];
  secure_random_bytes = λ n. n ∷ [];
}
