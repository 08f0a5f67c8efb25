-- ===== src/Tests/Commanding.antt =====
-- `configchannel` on a line with a wrong value, and the outputs of an event, at concrete inputs.
use yuv_lightning_ldk_sample.Prelude.{
  ℕ, All, some, none, [], min, ◌∷◌, suc, ◌≡◌, zero, refl, length, arith, ap,
}
use yuv_lightning_ldk_sample.Tests.Sample.{sample_ldk, sample_answers, empty_world}
use yuv_lightning_ldk_sample.Prelude.Assoc.{get}
use yuv_lightning_ldk_sample.Event.{Answers}
use yuv_lightning_ldk_sample.Payments.{PaymentApi}
use yuv_lightning_ldk_sample.Prelude.Text.{Bytes, equal, IsByte, codes}
use yuv_lightning_ldk_sample.Cli.Commands.{config_param, config_channel}
use yuv_lightning_ldk_sample.Cli.Words.{CliApi}
use yuv_lightning_ldk_sample.Node.{Ldk}
use yuv_lightning_ldk_sample.Peers.{PeerApi}
use yuv_lightning_ldk_sample.Events.Outputs.{path_of, name_of, store_outputs-stored}
use yuv_lightning_ldk_sample.Events.{store_outputs}
use yuv_lightning_ldk_sample.Prelude.Numbers.{parse_unsigned, scan}
use yuv_lightning_ldk_sample.Cli.Commands.Config.{config_channel_stops}

abbrev pub config_ldk : Ldk
config_ldk = record sample_ldk { UserConfig = ℕ × ℕ }

abbrev pub sample_cli : CliApi config_ldk
sample_cli = record {
  key_from_str = λ text. some text;
  pixel_from_address = λ luma address. some luma;
  invoice_from_str = λ text. none;
  set_our_htlc_minimum_msat = λ n config. (n, config.1);
  set_max_inbound_htlc_percent = λ n config. (config.0, n);
  set_support_yuv_payments = λ b config. config;
  set_negotiate_anchors = λ b config. config;
  set_announced_channel = λ b config. config;
}

abbrev pub no_peers : PeerApi config_ldk
no_peers = record { from_slice = λ bytes. none; same_key = equal }

abbrev pub no_payments : PaymentApi config_ldk
no_payments = record {
  payment_hash = λ invoice. [];
  payment_secret = λ invoice. [];
  amount_milli_satoshis = λ invoice. none;
  yuv_pixel = λ invoice. none;
  payment_parameters_from_invoice = λ invoice. none;
  payment_parameters_from_zero_amount_invoice = λ invoice amt. none;
  without_fee_limit = λ route. route;
  spontaneous_empty = tt;
  keysend_route = λ key amt. tt;
  hash = λ preimage. preimage;
  encode = λ s. [];
  decode = λ text. none;
}

config_channel_stops_example :
    config_channel no_payments no_peers sample_cli
      (codes "--min-inb-htlc"
        ∷ codes "7"
        ∷ codes "--max-inb-htlc-pct"
        ∷ codes "256"
        ∷ codes "--min-inb-htlc"
        ∷ codes "9"
        ∷ [])
      (1, 2)
    ≡ (7, 2)
unfolding config_param equal parse_unsigned scan
config_channel_stops_example =
    config_channel_stops no_payments no_peers sample_cli ((codes "--min-inb-htlc", codes "7") ∷ [])
      (codes "--max-inb-htlc-pct") (codes "256") (codes "--min-inb-htlc" ∷ codes "9" ∷ []) (1, 2)
      (7, 2) refl refl

abbrev pub copies : ℕ → ℕ → Bytes
copies zero c = []
copies (suc n) c = c ∷ copies n c

-- 32 bytes, the number of the draw or 9
abbrev pub random_answers : Answers sample_ldk
random_answers = record sample_answers { secure_random_bytes = λ n. min n 9 ∷ copies 31 0 }

pub copies-IsByte : (n : ℕ) → All IsByte (copies n 0)
copies-IsByte zero = tt
copies-IsByte (suc n) = (refl, copies-IsByte n)

abbrev pub heads : Bytes → ℕ
heads [] = 0
heads (x ∷ xs) = x

store_outputs-stored_example :
    (get
        (path_of random_answers 1)
        (store_outputs random_answers 0 ((5 ∷ []) ∷ (6 ∷ []) ∷ []) empty_world).store
      ≡ some (6 ∷ []))
    × (length (name_of random_answers 1) ≡ 64)
store_outputs-stored_example =
    store_outputs-stored random_answers ((5 ∷ []) ∷ (6 ∷ []) ∷ []) empty_world 1 (6 ∷ [])
      (λ j h. (ground arith, copies-IsByte 31)) (λ j h. refl)
      (λ j k hj hk same. let e : min j 9 ≡ min k 9 = ap heads same in omega arith) refl
