-- ===== src/Tests/Wirings.antt =====
-- Starts, a round of fee polling, and outputs that are claimed, at concrete
-- inputs.
use yuv_lightning_ldk_sample.Prelude.{
  ℕ, true, false, List, ◌∷◌, none, is_return, ◌≡◌, [], some, ◌%◌, ◌^◌, refl, arith, returns, min,
  ap, ◌*◌,
}
use yuv_lightning_ldk_sample.Sweep.{sweep_round, yuv_proofs, bitcoin_transaction}
use yuv_lightning_ldk_sample.Fees.{
  Client, new_client, Fees, store_all, get_est_sat_per_1000_weight, non_anchor_channel_fee, created,
}
use yuv_lightning_ldk_sample.Wiring.Seed.{
  run_starts, SeedStart, written, seeded, run_starts-created, read_seed,
}
use yuv_lightning_ldk_sample.Rpc.{poll_round, poll_responses, Answer, answered}
use yuv_lightning_ldk_sample.Prelude.Text.{Bytes}
use yuv_lightning_ldk_sample.Convert.{JsonApi, is_default_mempool, sat_per_kw}
use yuv_lightning_ldk_sample.Rpc.Rounds.{round_answered, poll_responses-returns}
use yuv_lightning_ldk_sample.Tests.Sweeps.{sample_sweep, sample-IsCodec}
use yuv_lightning_ldk_sample.Tests.Commanding.{copies, random_answers, copies-IsByte, heads}
use yuv_lightning_ldk_sample.Prelude.Numbers.{pos}
use yuv_lightning_ldk_sample.Sweep.Handover.{dirs_of, spendable_outputs_claimed, listing}
use yuv_lightning_ldk_sample.Events.{handle_ldk_events}
use yuv_lightning_ldk_sample.Tests.Sample.{sample_api, empty_world}
use yuv_lightning_ldk_sample.Event.{spendable_outputs}
use yuv_lightning_ldk_sample.Sweep.Claims.{dirs_after}
use yuv_lightning_ldk_sample.Rpc.Rates.{poll_round-polled_rate}

abbrev pub a_seed : ℕ → Bytes
a_seed c = copies 32 c

abbrev pub good_start : ℕ → SeedStart
good_start c = record { readable = true; random = a_seed c; writing = written }

run_starts-created_example :
    run_starts (record (good_start 7) { readable = false } ∷ good_start 8 ∷ []) (some (a_seed 1))
    ≡ (seeded (a_seed 7) ∷ seeded (a_seed 7) ∷ [], some (a_seed 7))
run_starts-created_example =
    run_starts-created (record (good_start 7) { readable = false }) (good_start 8 ∷ [])
      (some (a_seed 1)) (unfold read_seed in refl) refl refl (refl, tt)

-- a value is a number, and an object holds that number in every field
abbrev number_json : JsonApi
number_json = record {
  Value = ℕ;
  F64 = ℕ;
  Txid = Bytes;
  BlockHash = Bytes;
  Address = Bytes;
  field = λ v name. v;
  is_null = λ v. true;
  as_str = λ v. none;
  as_bool = λ v. none;
  as_u64 = λ v. some v;
  as_i64 = λ v. some (pos v);
  as_f64 = λ v. some v;
  as_array = λ v. none;
  of_str = λ s. 0;
  of_u64 = λ n. n;
  of_f64 = λ x. x;
  of_bool = λ b. 0;
  of_list = λ vs. 0;
  of_fields = λ fields. 0;
  float = λ n. n;
  times = λ x y. x;
  over = λ x y. x;
  round = λ x. x;
  to_u32 = λ x. x % 2 ^ 32;
  from_btc = λ x. some x;
  txid_from_str = λ s. some s;
  block_hash_from_str = λ s. some s;
  address_from_str = λ s. some s;
}

-- a hundred for each block of the target, or the size of the mempool
abbrev answer_numbers : Bytes → List ℕ → Answer ℕ
answer_numbers method [] = answered 300000000
answer_numbers method (n ∷ params) = answered (n * 100)

abbrev smaller_mempool : Bytes → List ℕ → Answer ℕ
smaller_mempool method [] = answered 5000000
smaller_mempool method (n ∷ params) = answered n

poll_responses-returns_example : is_return (poll_responses number_json smaller_mempool) ≡ false
unfolding round_answered is_default_mempool
poll_responses-returns_example = poll_responses-returns number_json smaller_mempool

poll_round-polled_rate_example :
    (d : Client) × (stored : Fees) × (poll_round number_json answer_numbers new_client ≡ returns d)
    × (store_all d.to_store d.fees ≡ returns stored)
    × (get_est_sat_per_1000_weight non_anchor_channel_fee stored ≡ returns 1800)
unfolding is_default_mempool sat_per_kw round_answered
poll_round-polled_rate_example =
    poll_round-polled_rate number_json answer_numbers (λ x. omega arith) new_client
      non_anchor_channel_fee created refl refl refl

spendable_outputs_claimed_example :
    sweep_round (sample_sweep true true) (1 ∷ []) (
      dirs_of random_answers
        (sample_sweep true true)
        (handle_ldk_events sample_api random_answers
          (spendable_outputs ((0 ∷ 5 ∷ []) ∷ (0 ∷ 6 ∷ []) ∷ []))
          empty_world).0)
    ≡ (
      dirs_after (sample_sweep true true) none,
      yuv_proofs 12 ∷ bitcoin_transaction 12 ∷ [],
      returns tt,
    )
spendable_outputs_claimed_example =
    spendable_outputs_claimed random_answers (sample_sweep true true) sample_api
      (sample-IsCodec true true) 5 (6 ∷ []) empty_world (1 ∷ []) (12 ∷ 13 ∷ [])
      (unfold listing in refl) (λ j h. (ground arith, copies-IsByte 31)) (λ j h. refl)
      (λ j k hj hk same. let e : min j 9 ≡ min k 9 = ap heads same in omega arith) refl refl
