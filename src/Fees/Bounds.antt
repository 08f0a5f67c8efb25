-- ===== src/Fees/Bounds.antt =====
-- Every rate that the estimator gives, between any two stores of the polling task.
use yuv_lightning_ldk_sample.Prelude.{
  ◌∷◌, List, [], ℕ, All, Option, ◌≤◌, arith, Bool-cases, subst, ◌<◌, ◌-◌, ◌≡◌, ◌==◌, ◌^◌, some, inl,
  returns, refl, inr, ap, none, unwrap, ==_iff, Bool, true, Outcome, is_return, List, panics, false,
  returns_eq, is_some,
}
use yuv_lightning_ldk_sample.Fees.{
  Client, Fees, round_stores, Responses, estimate, ConfirmationTarget, get_est_sat_per_1000_weight,
  new_fees, store_all, set_fee, Step, code, FitsU32, Reach,
  min_allowed_non_anchor_channel_remote_fee, poll, next, on_chain_sweep, created,
  min_allowed_anchor_channel_remote_fee, anchor_channel_fee, non_anchor_channel_fee, store,
  channel_close_minimum, FitsResponse, store_entry, no_fees, store_fee, other_target,
}

-- The smallest rate for a target.
abbrev pub floor : ConfirmationTarget → ℕ
floor min_allowed_non_anchor_channel_remote_fee = 4
floor _ = 254

abbrev pub IsRate : ConfirmationTarget → ℕ → Type 0
IsRate t v = (floor t ≤ v) × (v < 2 ^ 32)

-- The program names the target.
abbrev pub is_named : ConfirmationTarget → Bool
is_named (other_target n) = false
is_named _ = true

-- What the map holds for a target: a rate if the program names it, and nothing if not.
abbrev EntryFits : ConfirmationTarget → Bool → Option ℕ → Type 0
EntryFits t true o = (v : ℕ) × (o ≡ some v) × IsRate t v
EntryFits t false o = o ≡ none

abbrev HasRates : Fees → Type 0
HasRates fees = (t : ConfirmationTarget) → EntryFits t (is_named t) (fees t)

abbrev IsStore : ConfirmationTarget × ℕ → Type 0
IsStore p = (is_named p.0 ≡ true) × IsRate p.0 p.1

record IsGood (c : Client) : Type 0 where
  rates : HasRates c.fees
  coming : All IsStore c.to_store

estimate_fits :
    (default : ℕ) (o : Option ℕ)
    → 254 ≤ default
    → default < 2 ^ 32
    → FitsResponse o
    → (254 ≤ estimate default o) × (estimate default o < 2 ^ 32)
unfolding estimate
estimate_fits default none lo hi f = (lo, hi)
estimate_fits default (some v) lo hi f = (omega arith, omega arith)

round_stores-IsStore : (r : Responses) → FitsU32 r → All IsStore (round_stores r)
unfolding round_stores
round_stores-IsStore r f =
    let high = estimate_fits 5000 r.high_prio (omega arith) (omega arith) f.high_prio_fits in
    let pool = estimate_fits 254 r.mempool_min (omega arith) (omega arith) f.mempool_min_fits in
    let back = estimate_fits 254 r.background (omega arith) (omega arith) f.background_fits in
    let normal = estimate_fits 2000 r.normal (omega arith) (omega arith) f.normal_fits in
    (
      (refl, high),
      (
        (refl, pool),
        (
          (refl, (omega arith, omega arith)),
          ((refl, back), ((refl, (omega arith, normal.1)), ((refl, back), tt))),
        ),
      ),
    )

code-injective : (t s : ConfirmationTarget) → code t ≡ code s → t ≡ s
unfolding code
code-injective (other_target n) (other_target m) h = ap other_target (omega arith)
code-injective t s h = ground arith

set_fee-HasRates :
    (s : ConfirmationTarget) (v : ℕ) (fees : Fees)
    → IsStore (s, v)
    → HasRates fees
    → HasRates (set_fee s v fees)
unfolding set_fee
set_fee-HasRates s v fees h rates t = elim (Bool-cases (code t == code s)) [
  | inl same ↦
      let e : t ≡ s = code-injective t s ((==_iff _ _).0 same) in
      rw same (rw (e, h.0) (v, refl, h.1))
  | inr other ↦ rw other (rates t)
]

store_entry-HasRates :
    (o : Option ℕ) (t : ConfirmationTarget) (v : ℕ) (fees stored : Fees)
    → IsStore (t, v)
    → HasRates fees
    → store_entry o t v fees ≡ returns stored
    → HasRates stored
store_entry-HasRates none t v fees stored h rates e = cc
store_entry-HasRates (some old) t v fees stored h rates e =
    subst HasRates (returns_eq e) (set_fee-HasRates t v fees h rates)

new_fees-HasRates : HasRates new_fees
unfolding new_fees no_fees code
new_fees-HasRates on_chain_sweep = (5000, refl, (omega arith, omega arith))
new_fees-HasRates min_allowed_anchor_channel_remote_fee = (254, refl, (omega arith, omega arith))
new_fees-HasRates min_allowed_non_anchor_channel_remote_fee =
    (254, refl, (omega arith, omega arith))
new_fees-HasRates anchor_channel_fee = (254, refl, (omega arith, omega arith))
new_fees-HasRates non_anchor_channel_fee = (2000, refl, (omega arith, omega arith))
new_fees-HasRates channel_close_minimum = (254, refl, (omega arith, omega arith))
new_fees-HasRates (other_target n) = ground arith

Step-IsGood : {c d : Client} → Step c d → IsGood c → IsGood d
unfolding store_fee
Step-IsGood (poll c r f e) g = record { rates = g.rates; coming = round_stores-IsStore r f }
Step-IsGood (store c t v rest stored e now) g =
    let coming = subst (All IsStore) e g.coming in
    record {
      rates = store_entry-HasRates (c.fees t) t v c.fees stored coming.0 g.rates now;
      coming = coming.1;
    }

Reach-IsGood : {c : Client} → Reach c → IsGood c
Reach-IsGood created = record { rates = new_fees-HasRates; coming = tt }
Reach-IsGood (next r s) = Step-IsGood s (Reach-IsGood r)

-- A rate that is read is one.
abbrev pub InBounds : ConfirmationTarget → Outcome ℕ → Type 0
InBounds t (returns v) = IsRate t v
InBounds t panics = Unit

entry_read :
    (t : ConfirmationTarget) (named : Bool) (o : Option ℕ)
    → EntryFits t named o
    → (is_return (unwrap o) ≡ named) × InBounds t (unwrap o)
entry_read t true o h = rw h.1 (refl, h.2)
entry_read t false o h = rw h (refl, tt)

-- Rates of the responses are u32. However the reads fall between the stores of the polling task, the
-- estimator has a rate for exactly the six targets that the program names: its `unwrap` panics for
-- any other target that the library may have, and for none of these. A rate that it gives is a u32 of
-- at least 254 (4 for the remote fee without anchors).
pub get_est_bounds :
    (c : Client) (t : ConfirmationTarget)
    → Reach c
    → (is_return (get_est_sat_per_1000_weight t c.fees) ≡ is_named t)
      × InBounds t (get_est_sat_per_1000_weight t c.fees)
unfolding get_est_sat_per_1000_weight
get_est_bounds c t r = entry_read t (is_named t) (c.fees t) ((Reach-IsGood r).rates t)

stored_once :
    (t : ConfirmationTarget) (v : ℕ) (fees : Fees)
    → is_some (fees t) ≡ true
    → store_fee t v fees ≡ returns (set_fee t v fees)
unfolding store_fee
stored_once t v fees h = of_entry (fees t) h
  where
    of_entry :
        (o : Option ℕ) → is_some o ≡ true → store_entry o t v fees ≡ returns (set_fee t v fees)
    of_entry none h = cc
    of_entry (some old) h = refl

-- Every target that the program names has an entry.
abbrev pub IsFilled : Fees → Type 0
IsFilled fees = (t : ConfirmationTarget) → is_named t ≡ true → is_some (fees t) ≡ true

abbrev set_all : List (ConfirmationTarget × ℕ) → Fees → Fees
set_all [] fees = fees
set_all ((t, v) ∷ stores) fees = set_all stores (set_fee t v fees)

set_fee-IsFilled :
    (s : ConfirmationTarget) (v : ℕ) (fees : Fees) → IsFilled fees → IsFilled (set_fee s v fees)
unfolding set_fee
set_fee-IsFilled s v fees filled t h = elim (Bool-cases (code t == code s)) [
  | inl same ↦ rw same refl
  | inr other ↦ rw other (filled t h)
]

store_all-set_all :
    (stores : List (ConfirmationTarget × ℕ)) (fees : Fees)
    → All IsStore stores
    → IsFilled fees
    → store_all stores fees ≡ returns (set_all stores fees)
unfolding store_all
store_all-set_all [] fees h filled = refl
store_all-set_all ((t, v) ∷ stores) fees h filled =
    rw (stored_once t v fees (filled t (h.0.0)))
      (store_all-set_all stores (set_fee t v fees) h.1 (set_fee-IsFilled t v fees filled))

-- The rate that one round of responses gives to a target.
abbrev pub rate_of : Responses → ConfirmationTarget → ℕ
rate_of r on_chain_sweep = estimate 5000 r.high_prio
rate_of r min_allowed_anchor_channel_remote_fee = estimate 254 r.mempool_min
rate_of r min_allowed_non_anchor_channel_remote_fee = estimate 254 r.background - 250
rate_of r anchor_channel_fee = estimate 254 r.background
rate_of r non_anchor_channel_fee = estimate 2000 r.normal
rate_of r channel_close_minimum = estimate 254 r.background
rate_of r (other_target n) = 0

set_all-round_stores :
    (r : Responses) (fees : Fees) (t : ConfirmationTarget)
    → FitsU32 r
    → is_named t ≡ true
    → set_all (round_stores r) fees t ≡ some (rate_of r t)
unfolding set_fee round_stores code
set_all-round_stores r fees on_chain_sweep f h = refl
set_all-round_stores r fees min_allowed_anchor_channel_remote_fee f h = refl
set_all-round_stores r fees min_allowed_non_anchor_channel_remote_fee f h =
    let back = estimate_fits 254 r.background (omega arith) (omega arith) f.background_fits in
    ap some (omega arith)
set_all-round_stores r fees anchor_channel_fee f h = refl
set_all-round_stores r fees non_anchor_channel_fee f h = refl
set_all-round_stores r fees channel_close_minimum f h = refl
set_all-round_stores r fees (other_target n) f h = cc

-- Responses that are u32 are stored in a map that has an entry for each target that the program
-- names. No store panics, and such a target is then read with the rate that its response gives.
pub store_all-round_stores :
    (r : Responses) (fees : Fees) (t : ConfirmationTarget)
    → FitsU32 r
    → IsFilled fees
    → is_named t ≡ true
    → (stored : Fees) × (store_all (round_stores r) fees ≡ returns stored)
      × (get_est_sat_per_1000_weight t stored ≡ returns (rate_of r t))
unfolding get_est_sat_per_1000_weight
store_all-round_stores r fees t f filled h = (
  set_all (round_stores r) fees,
  store_all-set_all (round_stores r) fees (round_stores-IsStore r f) filled,
  ap unwrap (set_all-round_stores r fees t f h),
)

pub Reach-IsFilled : {c : Client} → Reach c → IsFilled c.fees
Reach-IsFilled {c} r t h = of_entry (is_named t) (c.fees t) h ((Reach-IsGood r).rates t)
  where
    of_entry : (named : Bool) (o : Option ℕ) → named ≡ true → EntryFits t named o → is_some o ≡ true
    of_entry false o h e = cc
    of_entry true o h e = ap is_some (e.1)
