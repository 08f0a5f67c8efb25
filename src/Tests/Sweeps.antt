-- ===== src/Tests/Sweeps.antt =====
-- A round of the sweep and a round of the fee rates, at concrete inputs.
use yuv_lightning_ldk_sample.Prelude.{
  ℕ, Bool, List, ◌∷◌, Option, [], true, false, some, arith, if◌then◌else◌, refl, ◌≡◌, none, suc,
  zero, ◌==◌, returns, ◌≢◌, is_return,
}
use yuv_lightning_ldk_sample.Prelude.Assoc.{get}
use yuv_lightning_ldk_sample.Prelude.Text.{Bytes, equal}
use yuv_lightning_ldk_sample.Fees.{
  Responses, Client, get_est_sat_per_1000_weight, Reach, FitsU32, new_fees, next, on_chain_sweep,
  round_stores, created, poll, new_client,
}
use yuv_lightning_ldk_sample.Sweep.Reading.{encode_all, IsCodec, read_file-encode_all}
use yuv_lightning_ldk_sample.Sweep.{
  sweep_round, SweepApi, Dirs, read_file, descriptors, invalid_transaction, valid_transaction,
  yuv_proofs, bitcoin_transaction, out_of_fuel,
}
use yuv_lightning_ldk_sample.Sweep.Gather.{AllNamed, Distinct}
use yuv_lightning_ldk_sample.Sweep.Claims.{
  stored, dirs_before, dirs_after, sweep_round_loses, sweep_round_claims,
}
use yuv_lightning_ldk_sample.Fees.Bounds.{get_est_bounds, InBounds}
use yuv_lightning_ldk_sample.Sweep.Finishing.{IsConsuming, read_file_ends}

abbrev read_two : Bytes → Option (ℕ × Bytes)
read_two [] = none
read_two (x ∷ []) = none
read_two (x ∷ d ∷ rest) = some (d, rest)

-- A descriptor is a byte behind a 0; `spends` says whether the library makes a transaction, which is
-- then a number, with the number 13 invalid.
abbrev pub sample_sweep : Bool → Bool → SweepApi ℕ ℕ
sample_sweep spends client = record {
  read_descriptor = read_two;
  encode_descriptor = λ d. 0 ∷ d ∷ [];
  spend = λ ds. if spends then some (12 ∷ 13 ∷ []) else none;
  emulate = λ t. if t == 13 then invalid_transaction (1 ∷ []) else valid_transaction;
  has_yuv_client = client;
}

pub sample-IsCodec : (spends client : Bool) → IsCodec (sample_sweep spends client)
sample-IsCodec spends client = record {
  read_encoded = λ d rest. refl;
  encoded_ne_nil = λ d. omega arith;
}

abbrev copies : ℕ → ℕ → Bytes
copies zero c = []
copies (suc n) c = c ∷ copies n c

abbrev outputs : List (Bytes × ℕ)
outputs = (copies 64 98, 6) ∷ []

named :
    (spends client : Bool)
    → AllNamed (stored (sample_sweep spends client) ((copies 64 97, 5) ∷ outputs))
named spends client = (refl, (refl, tt))

distinct :
    (spends client : Bool)
    → Distinct (stored (sample_sweep spends client) ((copies 64 97, 5) ∷ outputs))
unfolding get equal
distinct spends client = (refl, (refl, tt))

abbrev before : Bool → Bool → Dirs
before spends client =
    dirs_before (sample_sweep spends client) (sample-IsCodec spends client) (1 ∷ []) (copies 64 97)
      5 outputs (named spends client) (distinct spends client)

sweep_round_claims_example : sweep_round (sample_sweep true true) (1 ∷ []) (before true true) ≡ (
  dirs_after (sample_sweep true true) none,
  yuv_proofs 12 ∷ bitcoin_transaction 12 ∷ [],
  returns tt,
)
sweep_round_claims_example =
    sweep_round_claims (sample_sweep true true) (sample-IsCodec true true) (1 ∷ []) (copies 64 97) 5
      outputs (named true true) (distinct true true) (12 ∷ 13 ∷ []) refl refl

sweep_round_loses_example :
    sweep_round (sample_sweep false true) (1 ∷ []) (before false true)
    ≡ (dirs_after (sample_sweep false true) none, [], returns tt)
sweep_round_loses_example =
    sweep_round_loses (sample_sweep false true) (sample-IsCodec false true) (1 ∷ []) (copies 64 97)
      5 outputs (named false true) (distinct false true) refl

read_file-encode_all_example :
    read_file (sample_sweep true true) 5 (0 ∷ 5 ∷ 0 ∷ 6 ∷ []) ≡ descriptors (5 ∷ 6 ∷ [])
unfolding encode_all
read_file-encode_all_example =
    read_file-encode_all (sample_sweep true true) (sample-IsCodec true true) (5 ∷ 6 ∷ [])

abbrev responses : Responses
responses = record {
  mempool_min = some 300;
  background = some 100;
  normal = none;
  high_prio = some 7000;
}

responses-FitsU32 : FitsU32 responses
responses-FitsU32 = record {
  mempool_min_fits = omega arith;
  background_fits = omega arith;
  normal_fits = tt;
  high_prio_fits = omega arith;
}

abbrev polled : Client
polled = record { fees = new_fees; to_store = round_stores responses }

polled-Reach : Reach polled
polled-Reach = next created (poll new_client responses responses-FitsU32 refl)

get_est_bounds_example :
    (is_return (get_est_sat_per_1000_weight on_chain_sweep polled.fees) ≡ true)
    × InBounds on_chain_sweep (get_est_sat_per_1000_weight on_chain_sweep polled.fees)
get_est_bounds_example = get_est_bounds polled on_chain_sweep polled-Reach

read_two-IsConsuming : IsConsuming (sample_sweep true true)
read_two-IsConsuming [] rest d e = cc
read_two-IsConsuming (x ∷ []) rest d e = cc
read_two-IsConsuming (x ∷ y ∷ bytes) rest d e =
    let same : rest ≡ bytes = cc in rw same (omega arith)

read_file_ends_example :
    (read_file (sample_sweep true true) 9 (0 ∷ 5 ∷ 0 ∷ []) ≢ out_of_fuel)
    × (read_file (sample_sweep true true) 9 (0 ∷ 5 ∷ 0 ∷ [])
        ≡ read_file (sample_sweep true true) 4 (0 ∷ 5 ∷ 0 ∷ []))
read_file_ends_example =
    read_file_ends (sample_sweep true true) read_two-IsConsuming (0 ∷ 5 ∷ 0 ∷ []) 9 (omega arith)
