-- ===== src/Rpc.antt =====
-- src/bitcoind_client.rs: the calls that the program makes of bitcoind. What the node answers to a
-- method and its parameters is a parameter; the program unwraps almost every answer.
pub mod Rounds
pub mod Rates
use yuv_lightning_ldk_sample.Prelude.{
  ℕ, Option, Outcome, ◌++◌, returns, none, some, List, ◌∷◌, panics, Bool, [], unwrap, if◌then◌else◌,
  false, true,
}
use yuv_lightning_ldk_sample.Convert.{
  JsonApi, ◌>>=◌, to_fee_response, to_mempool_min_fee_response, to_raw_tx, SignedTx, BlockchainInfo,
  ListUnspentUtxo, FundedTx, to_signed_tx, to_new_address, to_blockchain_info, to_list_unspent,
  to_funded_tx,
}
use yuv_lightning_ldk_sample.Prelude.Text.{Bytes, codes}
use yuv_lightning_ldk_sample.Fees.{
  Responses, Client, Fees, round_stores, get_est_sat_per_1000_weight, non_anchor_channel_fee,
}

-- The end of a call: a value, or an error with the text that it may hold.
pub data Answer (V : Type 0) : Type 0 where
  answered : V → Answer V
  failed_with : Option Bytes → Answer V

-- `call_method(…).await.unwrap()`
abbrev pub value_of : {V : Type 0} → Answer V → Outcome V
value_of (answered v) = returns v
value_of (failed_with text) = panics

-- lightning_block_sync: `HttpEndpoint`
pub record Endpoint : Type 0 where
  pub host : Bytes
  pub port : ℕ
  pub path : Option Bytes

-- `BitcoindClient`, what the calls read of it; `encode64` is the library's base 64
pub record BitcoindClient : Type 0 where
  pub rpc_host : Bytes
  pub rpc_port : ℕ
  pub rpc_user : Bytes
  pub rpc_password : Bytes
  pub wallet_name : Bytes

unfoldable pub credentials_text : (Bytes → Bytes) → BitcoindClient → Bytes
credentials_text encode64 c = encode64 (c.rpc_user ++ b':' ∷ c.rpc_password)

-- `get_new_rpc_client` and `wallet_rpc_client`: the credentials and the endpoint of the new client
unfoldable pub get_new_rpc_client : (Bytes → Bytes) → BitcoindClient → Bytes × Endpoint
unfolding credentials_text
get_new_rpc_client encode64 c =
    (credentials_text encode64 c, record { host = c.rpc_host; port = c.rpc_port; path = none })

unfoldable pub wallet_rpc_client : (Bytes → Bytes) → BitcoindClient → Bytes × Endpoint
unfolding credentials_text
wallet_rpc_client encode64 c = (
  credentials_text encode64 c,
  record { host = c.rpc_host; port = c.rpc_port; path = some (codes "/wallet/" ++ c.wallet_name) },
)

module _ (J : JsonApi) (ask : Bytes → List (J.Value) → Answer (J.Value)) where
  -- `call_method` of a method and its parameters with an unwrap, and the conversion of the answer
  abbrev pub call_method : {A : Type 0} → (J.Value → Outcome A) → Bytes → List (J.Value) → Outcome A
  call_method convert method params = value_of (ask method params) >>= convert

  -- the first call of `BitcoindClient::new`, which gives an error if it fails
  abbrev pub is_access : Answer (J.Value) → Outcome Bool
  is_access (failed_with text) = returns false
  is_access (answered v) = to_blockchain_info J v >>= λ info. returns true

  unfoldable pub check_access : Outcome Bool
  check_access = is_access (ask (codes "getblockchaininfo") [])

  -- one of the three estimates
  unfoldable pub estimate_smart_fee : ℕ → Bytes → Outcome (Option ℕ)
  unfolding to_fee_response
  estimate_smart_fee conf_target mode = do
    resp ←
        call_method (to_fee_response J) (codes "estimatesmartfee")
          (J.of_u64 conf_target ∷ J.of_str mode ∷ [])
    returns resp.feerate_sat_per_kw

  unfoldable pub mempool_min_fee : Outcome (Option ℕ)
  unfolding to_mempool_min_fee_response
  mempool_min_fee = do
    resp ← call_method (to_mempool_min_fee_response J) (codes "getmempoolinfo") []
    returns resp.feerate_sat_per_kw

  -- the four calls of a round of `poll_for_fee_estimates`
  unfoldable pub poll_responses : Outcome Responses
  unfolding estimate_smart_fee mempool_min_fee
  poll_responses = do
    mempool_min ← mempool_min_fee
    background ← estimate_smart_fee 144 (codes "ECONOMICAL")
    normal ← estimate_smart_fee 18 (codes "ECONOMICAL")
    high_prio ← estimate_smart_fee 6 (codes "CONSERVATIVE")
    returns (record {
      mempool_min = mempool_min;
      background = background;
      normal = normal;
      high_prio = high_prio;
    })

  -- what the calls leave to store
  unfoldable pub poll_round : Client → Outcome Client
  unfolding poll_responses
  poll_round c = do r ← poll_responses; returns (record c { to_store = round_stores r })

  unfoldable pub create_raw_transaction : J.Value → Outcome Bytes
  create_raw_transaction outputs =
      call_method (to_raw_tx J) (codes "createrawtransaction") (J.of_list [] ∷ outputs ∷ [])

  unfoldable pub fund_raw_transaction : Bytes → Fees → Outcome FundedTx
  fund_raw_transaction raw_tx fees = do
    rate ← get_est_sat_per_1000_weight non_anchor_channel_fee fees
    let options = J.of_fields (
        (codes "fee_rate", J.of_f64 (J.over (J.float rate) (J.float 250)))
        ∷ (codes "replaceable", J.of_bool false)
        ∷ [])
    call_method (to_funded_tx J) (codes "fundrawtransaction") (J.of_str raw_tx ∷ options ∷ [])

  unfoldable pub send_raw_transaction : Bytes → Outcome (Unit {0})
  send_raw_transaction raw_tx =
      call_method (λ v. returns tt) (codes "sendrawtransaction") (J.of_str raw_tx ∷ [])

  unfoldable pub sign_raw_transaction_with_wallet : Bytes → Outcome SignedTx
  sign_raw_transaction_with_wallet tx_hex =
      call_method (to_signed_tx J) (codes "signrawtransactionwithwallet") (J.of_str tx_hex ∷ [])

  -- `on_network` is `require_network` for the network of the client
  unfoldable pub get_new_address : (J.Address → Bool) → Outcome (J.Address)
  get_new_address on_network = do
    text ←
        call_method (to_new_address J) (codes "getnewaddress")
          (J.of_str (codes "LDK output address") ∷ [])
    address ← unwrap (J.address_from_str text)
    if on_network address then returns address else panics

  unfoldable pub get_blockchain_info : Outcome (BlockchainInfo J)
  get_blockchain_info = call_method (to_blockchain_info J) (codes "getblockchaininfo") []

  unfoldable pub list_unspent : Outcome (List (ListUnspentUtxo J))
  list_unspent = call_method (to_list_unspent J) (codes "listunspent") []

  -- the task for one transaction: the text of the error that it logs and prints, if there is one
  abbrev pub warning_of : Answer (J.Value) → Outcome (Option Bytes)
  warning_of (answered v) = returns none
  warning_of (failed_with none) = panics
  warning_of (failed_with (some text)) = returns (some text)

  -- `broadcast_transactions`: one task for each transaction, given as its serialization
  unfoldable pub broadcast_transactions : List Bytes → List (Outcome (Option Bytes))
  broadcast_transactions [] = []
  broadcast_transactions (tx ∷ txs) =
      warning_of (ask (codes "sendrawtransaction") (J.of_str tx ∷ [])) ∷ broadcast_transactions txs
