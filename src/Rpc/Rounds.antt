-- ===== src/Rpc/Rounds.antt =====
-- When a round of fee polling comes to an end, from the answers of bitcoind.
use yuv_lightning_ldk_sample.Prelude.{
  ℕ, List, ◌<◌, Bool, Outcome, ◌^◌, ◌∷◌, [], Option, ◌&&◌, true, returns, panics, some, none, false,
  is_return, ◌≡◌, refl, ◌∙◌, arith, Bool-cases, subst, inl, returns_eq, inr,
}
use yuv_lightning_ldk_sample.Convert.{
  JsonApi, sat_per_kw, is_default_mempool, to_fee_response, ◌>>=◌, to_mempool_min_fee_response,
}
use yuv_lightning_ldk_sample.Prelude.Text.{Bytes, codes}
use yuv_lightning_ldk_sample.Rpc.{
  Answer, answered, failed_with, value_of, estimate_smart_fee, mempool_min_fee, poll_responses,
}
use yuv_lightning_ldk_sample.Fees.{FitsResponse, Responses, FitsU32}

module _ (J : JsonApi) (ask : Bytes → List (J.Value) → Answer (J.Value)) where
  abbrev pub is_answered : Answer (J.Value) → Bool
  is_answered (answered v) = true
  is_answered (failed_with text) = false

  abbrev pub is_default_answer : Answer (J.Value) → Bool
  is_default_answer (answered v) = is_default_mempool J v
  is_default_answer (failed_with text) = false

  abbrev pub asked_estimate : ℕ → Bytes → Answer (J.Value)
  asked_estimate target mode = ask (codes "estimatesmartfee") (J.of_u64 target ∷ J.of_str mode ∷ [])

  -- the calls that a round needs the answers of
  unfoldable pub round_answered : Bool
  round_answered =
      is_default_answer (ask (codes "getmempoolinfo") [])
      && (is_answered (asked_estimate 144 (codes "ECONOMICAL"))
          && (is_answered (asked_estimate 18 (codes "ECONOMICAL"))
              && is_answered (asked_estimate 6 (codes "CONSERVATIVE"))))

  abbrev Fits : Outcome (Option ℕ) → Type 0
  Fits (returns rate) = FitsResponse rate
  Fits panics = Unit

  sat_per_kw-Fits :
      ((x : J.F64) → J.to_u32 x < 2 ^ 32) → (o : Option (J.F64)) → FitsResponse (sat_per_kw J o)
  unfolding sat_per_kw
  sat_per_kw-Fits small none = tt
  sat_per_kw-Fits small (some x) = small _

  abbrev joined : (a b c d : Outcome (Option ℕ)) → Outcome Responses
  joined a b c d = do
    mempool_min ← a
    background ← b
    normal ← c
    high_prio ← d
    returns (record {
      mempool_min = mempool_min;
      background = background;
      normal = normal;
      high_prio = high_prio;
    })

  joined-FitsU32 :
      (a b c d : Outcome (Option ℕ)) (r : Responses)
      → Fits a
      → Fits b
      → Fits c
      → Fits d
      → joined a b c d ≡ returns r
      → FitsU32 r
  joined-FitsU32 (returns x) (returns y) (returns z) (returns w) r fx fy fz fw e =
      subst FitsU32 (returns_eq e) (record {
        mempool_min_fits = fx;
        background_fits = fy;
        normal_fits = fz;
        high_prio_fits = fw;
      })
  joined-FitsU32 panics b c d r fx fy fz fw e = cc
  joined-FitsU32 (returns x) panics c d r fx fy fz fw e = cc
  joined-FitsU32 (returns x) (returns y) panics d r fx fy fz fw e = cc
  joined-FitsU32 (returns x) (returns y) (returns z) panics r fx fy fz fw e = cc

  is_return-joined :
      (a b c d : Outcome (Option ℕ))
      → is_return (joined a b c d) ≡ (is_return a && (is_return b && (is_return c && is_return d)))
  is_return-joined panics b c d = refl
  is_return-joined (returns x) panics c d = refl
  is_return-joined (returns x) (returns y) panics d = refl
  is_return-joined (returns x) (returns y) (returns z) panics = refl
  is_return-joined (returns x) (returns y) (returns z) (returns w) = refl

  is_return-estimate :
      (target : ℕ) (mode : Bytes)
      → is_return (estimate_smart_fee J ask target mode) ≡ is_answered (asked_estimate target mode)
  unfolding estimate_smart_fee to_fee_response
  is_return-estimate target mode = of_answer (asked_estimate target mode)
    where
      of_answer :
          (a : Answer (J.Value))
          → is_return (value_of a >>= to_fee_response J >>= λ resp. returns resp.feerate_sat_per_kw)
            ≡ is_answered a
      of_answer (answered v) = refl
      of_answer (failed_with text) = refl

  is_return-mempool :
      is_return (mempool_min_fee J ask) ≡ is_default_answer (ask (codes "getmempoolinfo") [])
  unfolding mempool_min_fee to_mempool_min_fee_response
  is_return-mempool = of_answer (ask (codes "getmempoolinfo") [])
    where
      of_answer :
          (a : Answer (J.Value))
          → is_return (
              value_of a >>= to_mempool_min_fee_response J >>= λ resp.
              returns resp.feerate_sat_per_kw)
            ≡ is_default_answer a
      of_answer (answered v) = ground arith
      of_answer (failed_with text) = refl

  -- A round of the polling task gets its four rates, without a panic, exactly when bitcoind answers
  -- all four calls and says that its mempool has the default size, 300000000.
  pub poll_responses-returns : is_return (poll_responses J ask) ≡ round_answered
  unfolding poll_responses round_answered
  poll_responses-returns =
      is_return-joined (mempool_min_fee J ask) (estimate_smart_fee J ask 144 (codes "ECONOMICAL"))
        (estimate_smart_fee J ask 18 (codes "ECONOMICAL"))
        (estimate_smart_fee J ask 6 (codes "CONSERVATIVE"))
      ∙ rw (
        is_return-mempool,
        is_return-estimate 144 (codes "ECONOMICAL"),
        is_return-estimate 18 (codes "ECONOMICAL"),
        is_return-estimate 6 (codes "CONSERVATIVE"),
      )

  module _ (small : (x : J.F64) → J.to_u32 x < 2 ^ 32) where
    estimate-Fits : (target : ℕ) (mode : Bytes) → Fits (estimate_smart_fee J ask target mode)
    unfolding estimate_smart_fee to_fee_response
    estimate-Fits target mode = of_answer (asked_estimate target mode)
      where
        of_answer :
            (a : Answer (J.Value))
            → Fits (value_of a >>= to_fee_response J >>= λ resp. returns resp.feerate_sat_per_kw)
        of_answer (answered v) = sat_per_kw-Fits small (J.as_f64 (J.field v (codes "feerate")))
        of_answer (failed_with text) = tt

    mempool-Fits : Fits (mempool_min_fee J ask)
    unfolding mempool_min_fee to_mempool_min_fee_response
    mempool-Fits = of_answer (ask (codes "getmempoolinfo") [])
      where
        of_answer :
            (a : Answer (J.Value))
            → Fits (
                value_of a >>= to_mempool_min_fee_response J >>= λ resp.
                returns resp.feerate_sat_per_kw)
        of_answer (answered v) = elim (Bool-cases (is_default_mempool J v)) [
          | inl same ↦
              rw same (sat_per_kw-Fits small (J.as_f64 (J.field v (codes "mempoolminfee"))))
          | inr other ↦ rw other tt
        ]
        of_answer (failed_with text) = tt

    pub poll_responses-FitsU32 : (r : Responses) → poll_responses J ask ≡ returns r → FitsU32 r
    unfolding poll_responses
    poll_responses-FitsU32 r e =
        joined-FitsU32 (mempool_min_fee J ask) (estimate_smart_fee J ask 144 (codes "ECONOMICAL"))
          (estimate_smart_fee J ask 18 (codes "ECONOMICAL"))
          (estimate_smart_fee J ask 6 (codes "CONSERVATIVE")) r mempool-Fits
          (estimate-Fits 144 (codes "ECONOMICAL")) (estimate-Fits 18 (codes "ECONOMICAL"))
          (estimate-Fits 6 (codes "CONSERVATIVE")) e
