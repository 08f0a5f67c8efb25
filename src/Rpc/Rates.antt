-- ===== src/Rpc/Rates.antt =====
-- src/bitcoind_client.rs: the rates that the estimator gives after a round of fee polling.
use yuv_lightning_ldk_sample.Convert.{
  ◌>>=◌, JsonApi, sat_per_kw, to_fee_response, to_mempool_min_fee_response,
}
use yuv_lightning_ldk_sample.Rpc.Rounds.{
  is_answered, is_default_answer, asked_estimate, round_answered, poll_responses-FitsU32,
}
use yuv_lightning_ldk_sample.Prelude.Text.{Bytes, codes}
use yuv_lightning_ldk_sample.Prelude.{
  List, Option, ℕ, ◌≡◌, ◌<◌, ◌-◌, some, if◌then◌else◌, ◌^◌, [], arith, true, none, leb, returns,
  refl, ap, ◌∙◌,
}
use yuv_lightning_ldk_sample.Rpc.{
  Answer, estimate_smart_fee, mempool_min_fee, Responses, poll_responses, poll_round, answered,
  failed_with, value_of,
}
use yuv_lightning_ldk_sample.Fees.{
  estimate, ConfirmationTarget, on_chain_sweep, min_allowed_non_anchor_channel_remote_fee,
  non_anchor_channel_fee, min_allowed_anchor_channel_remote_fee, Client, Reach, other_target, Fees,
  anchor_channel_fee, store_all, channel_close_minimum, get_est_sat_per_1000_weight, round_stores,
}
use yuv_lightning_ldk_sample.Fees.Bounds.{is_named, rate_of, store_all-round_stores, Reach-IsFilled}

module _ (J : JsonApi) (ask : Bytes → List (J.Value) → Answer (J.Value)) where
  -- the answer that the rate of a target comes from, and the field of it
  abbrev pub answer_for : ConfirmationTarget → Answer (J.Value) × Bytes
  answer_for on_chain_sweep = (asked_estimate J ask 6 (codes "CONSERVATIVE"), codes "feerate")
  answer_for min_allowed_anchor_channel_remote_fee =
      (ask (codes "getmempoolinfo") [], codes "mempoolminfee")
  answer_for non_anchor_channel_fee =
      (asked_estimate J ask 18 (codes "ECONOMICAL"), codes "feerate")
  answer_for _ = (asked_estimate J ask 144 (codes "ECONOMICAL"), codes "feerate")

  -- the rate for a target that bitcoind has no rate for
  abbrev pub default_for : ConfirmationTarget → ℕ
  default_for on_chain_sweep = 5000
  default_for non_anchor_channel_fee = 2000
  default_for _ = 254

  abbrev pub discounted : ConfirmationTarget → ℕ → ℕ
  discounted min_allowed_non_anchor_channel_remote_fee rate = rate - 250
  discounted _ rate = rate

  abbrev pub rate_in : Answer (J.Value) × Bytes → Option ℕ
  rate_in (answered v, name) = sat_per_kw J (J.as_f64 (J.field v name))
  rate_in (failed_with text, name) = none

  abbrev pub at_least_254 : ℕ → Option ℕ → ℕ
  at_least_254 default none = default
  at_least_254 default (some rate) = if leb 254 rate then rate else 254

  abbrev pub polled_rate : ConfirmationTarget → ℕ
  polled_rate t = discounted t (at_least_254 (default_for t) (rate_in (answer_for t)))

  estimate-at_least_254 : (default : ℕ) (o : Option ℕ) → estimate default o ≡ at_least_254 default o
  unfolding estimate
  estimate-at_least_254 default none = refl
  estimate-at_least_254 default (some rate) = ground arith

  estimate-returns :
      (target : ℕ) (mode : Bytes)
      → is_answered J ask (asked_estimate J ask target mode) ≡ true
      → estimate_smart_fee J ask target mode
        ≡ returns (rate_in (asked_estimate J ask target mode, codes "feerate"))
  unfolding estimate_smart_fee to_fee_response
  estimate-returns target mode = of_answer (asked_estimate J ask target mode)
    where
      of_answer :
          (a : Answer (J.Value))
          → is_answered J ask a ≡ true
          → (value_of a >>= to_fee_response J >>= λ resp. returns resp.feerate_sat_per_kw)
            ≡ returns (rate_in (a, codes "feerate"))
      of_answer (answered v) h = refl
      of_answer (failed_with text) h = cc

  mempool-returns :
      is_default_answer J ask (ask (codes "getmempoolinfo") []) ≡ true
      → mempool_min_fee J ask
        ≡ returns (rate_in (ask (codes "getmempoolinfo") [], codes "mempoolminfee"))
  unfolding mempool_min_fee to_mempool_min_fee_response
  mempool-returns = of_answer (ask (codes "getmempoolinfo") [])
    where
      of_answer :
          (a : Answer (J.Value))
          → is_default_answer J ask a ≡ true
          → (value_of a >>= to_mempool_min_fee_response J >>= λ resp.
              returns resp.feerate_sat_per_kw)
            ≡ returns (rate_in (a, codes "mempoolminfee"))
      of_answer (answered v) h = rw h refl
      of_answer (failed_with text) h = cc

  abbrev answered_rates : Responses
  answered_rates = record {
    mempool_min = rate_in (ask (codes "getmempoolinfo") [], codes "mempoolminfee");
    background = rate_in (asked_estimate J ask 144 (codes "ECONOMICAL"), codes "feerate");
    normal = rate_in (asked_estimate J ask 18 (codes "ECONOMICAL"), codes "feerate");
    high_prio = rate_in (asked_estimate J ask 6 (codes "CONSERVATIVE"), codes "feerate");
  }

  poll_responses-rates : round_answered J ask ≡ true → poll_responses J ask ≡ returns answered_rates
  unfolding poll_responses round_answered
  poll_responses-rates h =
      rw
        (
          mempool-returns (ground (arith, h)),
          estimate-returns 144 (codes "ECONOMICAL") (ground (arith, h)),
          estimate-returns 18 (codes "ECONOMICAL") (ground (arith, h)),
          estimate-returns 6 (codes "CONSERVATIVE") (ground (arith, h)),
        )
        refl

  rate_of-polled_rate :
      (t : ConfirmationTarget) → is_named t ≡ true → rate_of answered_rates t ≡ polled_rate t
  rate_of-polled_rate on_chain_sweep h = estimate-at_least_254 5000 _
  rate_of-polled_rate min_allowed_anchor_channel_remote_fee h = estimate-at_least_254 254 _
  rate_of-polled_rate min_allowed_non_anchor_channel_remote_fee h =
      ap (λ n. n - 250) (estimate-at_least_254 254 _)
  rate_of-polled_rate anchor_channel_fee h = estimate-at_least_254 254 _
  rate_of-polled_rate non_anchor_channel_fee h = estimate-at_least_254 2000 _
  rate_of-polled_rate channel_close_minimum h = estimate-at_least_254 254 _
  rate_of-polled_rate (other_target n) h = cc

  -- Let a cast to u32 give a u32, let the polling task be between two rounds, and let bitcoind answer
  -- the four calls of a round, with a mempool of the default size. Then the round comes to its six
  -- stores, none of which panics, and each of the six targets is then read with the rate of its own
  -- call. This is `estimatesmartfee` in the mode CONSERVATIVE for 6 blocks for the sweep, and in the
  -- mode ECONOMICAL for 18 blocks for channels without anchors and for 144 blocks for channels with
  -- anchors, the closing of a channel and the remote fee without anchors; for the remote fee with
  -- anchors it is the smallest rate of the mempool. A rate below 254 counts as 254, and a missing
  -- one as 5000 for the sweep, 2000 for channels without anchors and 254 for the others; the remote
  -- fee without anchors is then 250 less.
  pub poll_round-polled_rate :
      ((x : J.F64) → J.to_u32 x < 2 ^ 32)
      → (c : Client) (t : ConfirmationTarget) → Reach c
      → c.to_store ≡ []
      → round_answered J ask ≡ true
      → is_named t ≡ true
      → (d : Client) × (stored : Fees) × (poll_round J ask c ≡ returns d)
        × (store_all d.to_store d.fees ≡ returns stored)
        × (get_est_sat_per_1000_weight t stored ≡ returns (polled_rate t))
  unfolding poll_round
  poll_round-polled_rate small c t reach idle ok named =
      let (stored, made, read) =
        store_all-round_stores answered_rates c.fees t
          (poll_responses-FitsU32 J ask small answered_rates (poll_responses-rates ok))
          (Reach-IsFilled reach) named in
      (
        record c { to_store = round_stores answered_rates },
        stored,
        rw (poll_responses-rates ok) refl,
        made,
        read ∙ ap returns (rate_of-polled_rate t named),
      )
