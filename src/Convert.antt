-- ===== src/Convert.antt =====
-- src/convert.rs: what the answers of bitcoind are converted to. An answer is a value of the crate
-- serde_json, whose methods are a parameter, as is the arithmetic of `f64`. A conversion unwraps
-- what it looks for, so it returns or it panics; none gives an error.
use yuv_lightning_ldk_sample.Prelude.{
  ℕ, Outcome, Bool, Option, List, if◌then◌else◌, returns, unwrap, some, ◌%◌, panics, none, not, ◌∷◌,
  ◌^◌, [], false, ◌==◌,
}
use yuv_lightning_ldk_sample.Prelude.Text.{Bytes, codes}
use yuv_lightning_ldk_sample.Prelude.Numbers.{ℤ}

-- Types and functions of the crates serde_json and bitcoin, and of `f64`.
pub record JsonApi : Type 1 where
  pub Value : Type 0
  pub F64 : Type 0
  pub Txid : Type 0
  pub BlockHash : Type 0
  pub Address : Type 0
  -- `value["name"]`, which is null for a name that is not there
  pub field : Value → Bytes → Value
  pub is_null : Value → Bool
  pub as_str : Value → Option Bytes
  pub as_bool : Value → Option Bool
  pub as_u64 : Value → Option ℕ
  pub as_i64 : Value → Option ℤ
  pub as_f64 : Value → Option F64
  pub as_array : Value → Option (List Value)
  -- `json!` of a text, a number, a float, a Boolean, a list, and an object
  pub of_str : Bytes → Value
  pub of_u64 : ℕ → Value
  pub of_f64 : F64 → Value
  pub of_bool : Bool → Value
  pub of_list : List Value → Value
  pub of_fields : List (Bytes × Value) → Value
  -- a whole number as `f64`, `*`, `/`, `round`, and `as u32`
  pub float : ℕ → F64
  pub times : F64 → F64 → F64
  pub over : F64 → F64 → F64
  pub round : F64 → F64
  pub to_u32 : F64 → ℕ
  -- `Amount::from_btc` with `to_sat`, and the readers of texts
  pub from_btc : F64 → Option ℕ
  pub txid_from_str : Bytes → Option Txid
  pub block_hash_from_str : Bytes → Option BlockHash
  pub address_from_str : Bytes → Option Address

infixl 5 ◌>>=◌
abbrev pub ◌>>=◌ : {A B : Type 0} → Outcome A → (A → Outcome B) → Outcome B
returns a >>= f = f a
panics >>= f = panics

pub record FundedTx : Type 0 where
  pub changepos : ℤ
  pub hex : Bytes

pub record SignedTx : Type 0 where
  pub complete : Bool
  pub signed_hex : Bytes

-- `FeeResponse` and `MempoolMinFeeResponse`, which have the same fields
pub record FeeResponse : Type 0 where
  pub feerate_sat_per_kw : Option ℕ
  pub errored : Bool

pub record BlockchainInfo (J : JsonApi) : Type 0 where
  pub latest_height : ℕ
  pub latest_blockhash : J.BlockHash
  pub chain : Bytes

pub record ListUnspentUtxo (J : JsonApi) : Type 0 where
  pub txid : J.Txid
  pub vout : ℕ
  pub amount : ℕ
  pub address : J.Address

module _ (J : JsonApi) where
  -- `value["name"].as_str().unwrap()`
  abbrev pub str_field : J.Value → Bytes → Outcome Bytes
  str_field v name = unwrap (J.as_str (J.field v name))

  unfoldable pub to_funded_tx : J.Value → Outcome FundedTx
  to_funded_tx v = do
    changepos ← unwrap (J.as_i64 (J.field v (codes "changepos")))
    hex ← str_field v (codes "hex")
    returns (record { changepos = changepos; hex = hex })

  -- `RawTx`
  unfoldable pub to_raw_tx : J.Value → Outcome Bytes
  to_raw_tx v = unwrap (J.as_str v)

  unfoldable pub to_signed_tx : J.Value → Outcome SignedTx
  to_signed_tx v = do
    hex ← str_field v (codes "hex")
    complete ← unwrap (J.as_bool (J.field v (codes "complete")))
    returns (record { complete = complete; signed_hex = hex })

  -- `NewAddress`
  unfoldable pub to_new_address : J.Value → Outcome Bytes
  to_new_address v = unwrap (J.as_str v)

  -- bitcoin for 1000 virtual bytes to satoshis for 1000 weight units
  unfoldable pub sat_per_kw : Option (J.F64) → Option ℕ
  sat_per_kw none = none
  sat_per_kw (some rate) =
      some (J.to_u32 (J.round (J.over (J.times rate (J.float 100000000)) (J.float 4))))

  unfoldable pub to_fee_response : J.Value → Outcome FeeResponse
  unfolding sat_per_kw
  to_fee_response v = returns (record {
    feerate_sat_per_kw = sat_per_kw (J.as_f64 (J.field v (codes "feerate")));
    errored = not (J.is_null (J.field v (codes "errors")));
  })

  -- `assert_eq!(self.0["maxmempool"].as_u64(), Some(300000000))`
  unfoldable pub is_default_mempool : J.Value → Bool
  is_default_mempool v = elim (J.as_u64 (J.field v (codes "maxmempool"))) [
    | none ↦ false
    | some n ↦ n == 300000000
  ]

  unfoldable pub to_mempool_min_fee_response : J.Value → Outcome FeeResponse
  unfolding sat_per_kw is_default_mempool
  to_mempool_min_fee_response v =
      if is_default_mempool v
      then returns (record {
        feerate_sat_per_kw = sat_per_kw (J.as_f64 (J.field v (codes "mempoolminfee")));
        errored = not (J.is_null (J.field v (codes "errors")));
      })
      else panics

  unfoldable pub to_blockchain_info : J.Value → Outcome (BlockchainInfo J)
  to_blockchain_info v = do
    height ← unwrap (J.as_u64 (J.field v (codes "blocks")))
    text ← str_field v (codes "bestblockhash")
    hash ← unwrap (J.block_hash_from_str text)
    chain ← str_field v (codes "chain")
    returns (record { latest_height = height; latest_blockhash = hash; chain = chain })

  -- one element of the array; `as u32` takes the low bits
  unfoldable pub to_utxo : J.Value → Outcome (ListUnspentUtxo J)
  to_utxo utxo = do
    txid_text ← str_field utxo (codes "txid")
    txid ← unwrap (J.txid_from_str txid_text)
    vout ← unwrap (J.as_u64 (J.field utxo (codes "vout")))
    btc ← unwrap (J.as_f64 (J.field utxo (codes "amount")))
    amount ← unwrap (J.from_btc btc)
    address_text ← str_field utxo (codes "address")
    address ← unwrap (J.address_from_str address_text)
    returns (record { txid = txid; vout = vout % 2 ^ 32; amount = amount; address = address })

  unfoldable pub to_utxos : List (J.Value) → Outcome (List (ListUnspentUtxo J))
  to_utxos [] = returns []
  to_utxos (v ∷ vs) = do utxo ← to_utxo v; utxos ← to_utxos vs; returns (utxo ∷ utxos)

  unfoldable pub to_list_unspent : J.Value → Outcome (List (ListUnspentUtxo J))
  unfolding to_utxos to_utxo
  to_list_unspent v = do vs ← unwrap (J.as_array v); to_utxos vs
