-- ===== src/YuvClient.antt =====
-- src/yuv_client.rs: the calls of the YUV node. A call that fails is logged; the log is a list of the
-- calls that failed.
use yuv_lightning_ldk_sample.Prelude.{List, Option, ◌∷◌, if◌then◌else◌, Bool, [], some, none, map}

-- What the YUV node answers: raw transactions `R`, transactions `T`, transaction ids `I`.
pub record YuvApi (I R T : Type 0) : Type 0 where
  pub list_raw_yuv_transactions : List I → Option (List R)
  pub get_yuv_transaction : I → Option R
  pub provide_yuv_proof : T → Bool
  -- `YuvTransaction::new` of the parts of a raw transaction
  pub yuv_transaction : R → T

-- What is logged.
pub data YuvLog (I T : Type 0) : Type 0 where
  failed_list : List I → YuvLog I T
  failed_get : I → YuvLog I T
  failed_provide : T → YuvLog I T
  provided : YuvLog I T

module _ {I R T : Type 0} (api : YuvApi I R T) where
  abbrev pub raw_or_log : List I → Option (List R) → List T × List (YuvLog I T)
  raw_or_log txids none = ([], failed_list txids ∷ [])
  raw_or_log txids (some raw) = (map api.yuv_transaction raw, [])

  unfoldable pub get_list_raw_yuv_transactions : List I → List T × List (YuvLog I T)
  get_list_raw_yuv_transactions txids = raw_or_log txids (api.list_raw_yuv_transactions txids)

  -- the task of one transaction
  unfoldable pub broadcast_transactions_proofs : T → List (YuvLog I T)
  broadcast_transactions_proofs tx =
      if api.provide_yuv_proof tx then provided ∷ [] else failed_provide tx ∷ []

  abbrev pub found_or_log : I → Option R → Option R × List (YuvLog I T)
  found_or_log txid none = (none, failed_get txid ∷ [])
  found_or_log txid (some raw) = (some raw, [])

  -- `YuvTransactionSource`
  unfoldable pub yuv_transaction_by_id : I → Option R × List (YuvLog I T)
  yuv_transaction_by_id txid = found_or_log txid (api.get_yuv_transaction txid)

-- What one half of a round of the confirming task does: a request to the YUV node, and a
-- confirmation to the listener.
pub data YuvCall (I T : Type 0) : Type 0 where
  requests : List I → YuvCall I T
  confirms : List T → YuvCall I T

module _ {I R T : Type 0} (api : YuvApi I R T) where
  abbrev pub confirm_some : List T → List (YuvCall I T)
  confirm_some [] = []
  confirm_some (tx ∷ txs) = confirms (tx ∷ txs) ∷ []

  -- src/main.rs: for the pending ids of the channel manager, or for those of the chain monitor
  unfoldable pub confirm_pending : List I → List (YuvCall I T)
  unfolding get_list_raw_yuv_transactions
  confirm_pending [] = []
  confirm_pending (i ∷ ids) =
      requests (i ∷ ids) ∷ confirm_some (get_list_raw_yuv_transactions api (i ∷ ids)).0

  -- src/main.rs: a round of the task: first the channel manager's, then the chain monitor's
  unfoldable pub confirmation_round : List I → List I → List (YuvCall I T) × List (YuvCall I T)
  unfolding confirm_pending
  confirmation_round manager_ids monitor_ids =
      (confirm_pending manager_ids, confirm_pending monitor_ids)
