-- ===== src/Fees.antt =====
-- src/bitcoind_client.rs: the fee rates of `BitcoindClient`, in satoshis for 1000 weight units. The
-- map is filled by `new`, stored to by the task of `poll_for_fee_estimates`, and read by the
-- `FeeEstimator`; each entry is an atomic u32.
pub mod Bounds
use yuv_lightning_ldk_sample.Prelude.{
  ℕ, List, Outcome, Option, none, if◌then◌else◌, ◌≡◌, [], ◌+◌, unwrap, ◌^◌, ◌∷◌, ◌==◌, some, max,
  ◌-◌, ◌%◌, ◌<◌, panics, returns,
}
use yuv_lightning_ldk_sample.Convert.{◌>>=◌}

-- lightning: `ConfirmationTarget`, the targets that the program names; `other_target` stands for any
-- other that the library's type may have
pub data ConfirmationTarget : Type 0 where
  on_chain_sweep : ConfirmationTarget
  min_allowed_anchor_channel_remote_fee : ConfirmationTarget
  min_allowed_non_anchor_channel_remote_fee : ConfirmationTarget
  anchor_channel_fee : ConfirmationTarget
  non_anchor_channel_fee : ConfirmationTarget
  channel_close_minimum : ConfirmationTarget
  other_target : ℕ → ConfirmationTarget

abbrev pub min_feerate : ℕ
min_feerate = 254

-- `HashMap<ConfirmationTarget, AtomicU32>`
abbrev pub Fees : Type 0
Fees = ConfirmationTarget → Option ℕ

-- what `==` on targets compares
unfoldable pub code : ConfirmationTarget → ℕ
code on_chain_sweep = 0
code min_allowed_anchor_channel_remote_fee = 1
code min_allowed_non_anchor_channel_remote_fee = 2
code anchor_channel_fee = 3
code non_anchor_channel_fee = 4
code channel_close_minimum = 5
code (other_target n) = n + 6

-- `fees.insert(t, AtomicU32::new(v))`
unfoldable pub set_fee : ConfirmationTarget → ℕ → Fees → Fees
unfolding code
set_fee t v fees s = if code s == code t then some v else fees s

unfoldable pub no_fees : Fees
no_fees t = none

-- the map that `BitcoindClient::new` fills
unfoldable pub new_fees : Fees
unfolding set_fee no_fees
new_fees = set_fee channel_close_minimum min_feerate (
    set_fee non_anchor_channel_fee 2000 (
      set_fee anchor_channel_fee min_feerate (
        set_fee min_allowed_non_anchor_channel_remote_fee min_feerate (
          set_fee min_allowed_anchor_channel_remote_fee min_feerate
            (set_fee on_chain_sweep 5000 no_fees)))))

-- `match resp.feerate_sat_per_kw { Some(feerate) => max(feerate, MIN_FEERATE), None => … }`
unfoldable pub estimate : ℕ → Option ℕ → ℕ
estimate default none = default
estimate default (some feerate) = max feerate min_feerate

-- the four responses of one round of the loop, each the rate that it holds
pub record Responses : Type 0 where
  pub mempool_min : Option ℕ
  pub background : Option ℕ
  pub normal : Option ℕ
  pub high_prio : Option ℕ

abbrev pub FitsResponse : Option ℕ → Type 0
FitsResponse none = Unit
FitsResponse (some v) = v < 2 ^ 32

-- A rate in a response is a u32.
pub record FitsU32 (r : Responses) : Type 0 where
  pub mempool_min_fits : FitsResponse r.mempool_min
  pub background_fits : FitsResponse r.background
  pub normal_fits : FitsResponse r.normal
  pub high_prio_fits : FitsResponse r.high_prio

-- `a - b` on u32 without overflow checks
abbrev pub sub_u32 : ℕ → ℕ → ℕ
sub_u32 a b = (a + 2 ^ 32 - b) % 2 ^ 32

-- the stores of one round, in their order
unfoldable pub round_stores : Responses → List (ConfirmationTarget × ℕ)
unfolding estimate
round_stores r =
    let mempoolmin_estimate = estimate min_feerate r.mempool_min in
    let background_estimate = estimate min_feerate r.background in
    let normal_estimate = estimate 2000 r.normal in
    let high_prio_estimate = estimate 5000 r.high_prio in
    (on_chain_sweep, high_prio_estimate)
    ∷ (min_allowed_anchor_channel_remote_fee, mempoolmin_estimate)
    ∷ (min_allowed_non_anchor_channel_remote_fee, sub_u32 background_estimate 250)
    ∷ (anchor_channel_fee, background_estimate)
    ∷ (non_anchor_channel_fee, normal_estimate)
    ∷ (channel_close_minimum, background_estimate)
    ∷ []

abbrev pub store_entry : Option ℕ → ConfirmationTarget → ℕ → Fees → Outcome Fees
store_entry none t v fees = panics
store_entry (some old) t v fees = returns (set_fee t v fees)

-- `fees.get(&t).unwrap().store(v)`
unfoldable pub store_fee : ConfirmationTarget → ℕ → Fees → Outcome Fees
store_fee t v fees = store_entry (fees t) t v fees

unfoldable pub store_all : List (ConfirmationTarget × ℕ) → Fees → Outcome Fees
unfolding store_fee
store_all [] fees = returns fees
store_all ((t, v) ∷ stores) fees = do fees' ← store_fee t v fees; store_all stores fees'

-- `FeeEstimator::get_est_sat_per_1000_weight`, which unwraps the entry
unfoldable pub get_est_sat_per_1000_weight : ConfirmationTarget → Fees → Outcome ℕ
get_est_sat_per_1000_weight t fees = unwrap (fees t)

-- The client as its readers see it: the map, and the stores that the task has still to make in its
-- round. A round whose calls fail panics, and so ends the program: such a client makes no step any more.
pub record Client : Type 0 where
  pub fees : Fees
  pub to_store : List (ConfirmationTarget × ℕ)

abbrev pub new_client : Client
new_client = record { fees = new_fees; to_store = [] }

-- What the task does between two reads.
pub data Step : Client → Client → Type 0 where
  poll :
      (c : Client) (r : Responses)
      → FitsU32 r
      → c.to_store ≡ []
      → Step c (record c { to_store = round_stores r })
  store :
      (c : Client) (t : ConfirmationTarget) (v : ℕ) (rest : List (ConfirmationTarget × ℕ))
      (stored : Fees)
      → c.to_store ≡ (t, v) ∷ rest
      → store_fee t v c.fees ≡ returns stored
      → Step c (record { fees = stored; to_store = rest })

pub data Reach : Client → Type 0 where
  created : Reach new_client
  next : {c d : Client} → Reach c → Step c d → Reach d
