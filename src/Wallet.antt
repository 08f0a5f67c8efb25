-- ===== src/Wallet.antt =====
-- src/wallet.rs: the wallet of the node, around the wallets of the crates ydk and bdk. An operation
-- that syncs gives the wallet that it leaves next to its result.
use yuv_lightning_ldk_sample.Prelude.{
  ℕ, ◌+◌, Option, if◌then◌else◌, Bool, some, not, true, List, false, none, is_empty, ◌∷◌, [],
}
use yuv_lightning_ldk_sample.Node.{Ldk}
use yuv_lightning_ldk_sample.Prelude.Text.{Bytes, codes}

-- Types and functions of the crates ydk, bdk and bitcoin.
pub record WalletApi (L : Ldk) : Type 1 where
  pub Config : Type 0
  pub Ydk : Type 0
  pub Blockchain : Type 0
  pub FeeRate : Type 0
  pub Psbt : Type 0
  pub OutPoint : Type 0
  pub TxOut : Type 0
  pub YuvTransaction : Type 0
  pub Chroma : Type 0
  pub Balances : Type 0
  pub yuv_url : Config → Bytes
  pub with_yuv_url : Bytes → Config → Config
  -- `BitcoinProvider::from_config` with its blockchain, and `ydk::Wallet::from_config`
  pub provider_from_config : Config → Option Blockchain
  pub wallet_from_config : Config → Option Ydk
  -- `sync`, and whether the YUV wallet is synced too
  pub sync : Bool → Ydk → Option Ydk
  pub default_sync_yuv : Bool
  -- pixel, holder, counterparty, value
  pub lightning_funding_tx : L.Pixel → L.PublicKey → L.PublicKey → ℕ → Ydk → Option YuvTransaction
  pub create_transfer : ℕ → Chroma → L.PublicKey → Ydk → Option YuvTransaction
  pub balances : Ydk → Option Balances
  pub public_key : Ydk → L.PublicKey
  -- the fee rate for two blocks, or 1.1 as a fallback
  pub get_fee_rate : Blockchain → Option FeeRate
  -- `build_tx` with a recipient and a fee rate, and `finish`
  pub build_tx : L.Script → ℕ → FeeRate → Ydk → Option Psbt
  -- `sign`, with `trust_witness_utxo`
  pub sign : Bool → Psbt → Ydk → Option Psbt
  pub extract_tx : Psbt → L.Transaction
  pub list_unspent : Ydk → Option (List (OutPoint × TxOut))
  -- the script of the address at index 0
  pub peek_script : Ydk → Option (L.Script)

-- The context of an error that `wrap_err` gives; `plain_error` has none.
pub data WalletError : Type 0 where
  failed_to_initialize failed_to_sync failed_to_estimate failed_to_build failed_to_sign :
      WalletError
  plain_error : WalletError

pub data Made (A : Type 0) : Type 0 where
  made : A → Made A
  fails : WalletError → Made A

-- `wrap_err(…)?`
abbrev pub or_fail : {A : Type 0} → WalletError → Option A → Made A
or_fail e none = fails e
or_fail e (some a) = made a

infixl 5 ◌>>=◌
abbrev pub ◌>>=◌ : {A B : Type 0} → Made A → (A → Made B) → Made B
made a >>= f = f a
fails e >>= f = fails e

abbrev pub dummy_yuv_url : Bytes
dummy_yuv_url = codes "http://localhost:8080"

-- `WITNESS_SCALE_FACTOR + 1 + 1 + 64`
abbrev pub satisfaction_weight : ℕ
satisfaction_weight = 4 + 1 + 1 + 64

module _ {L : Ldk} (api : WalletApi L) where
  pub record Wallet : Type 0 where
    pub ydk_wallet : api.Ydk
    pub blockchain : api.Blockchain

  -- lightning: `Utxo`
  pub record Utxo : Type 0 where
    pub outpoint : api.OutPoint
    pub output : api.TxOut
    pub weight : ℕ

  -- a configuration without the URL of a YUV node gets one that is not used
  unfoldable pub usable_config : api.Config → api.Config
  usable_config config =
      if is_empty (api.yuv_url config) then api.with_yuv_url dummy_yuv_url config else config

  unfoldable pub from_config : api.Config → Made Wallet
  unfolding usable_config
  from_config config = do
    let usable = usable_config config
    chain ← or_fail plain_error (api.provider_from_config usable)
    ydk ← or_fail failed_to_initialize (api.wallet_from_config usable)
    synced ← or_fail failed_to_sync (api.sync (not (is_empty (api.yuv_url config))) ydk)
    made (record { ydk_wallet = synced; blockchain = chain })

  -- `self.ydk_wallet.sync(SyncOptions::default())`
  unfoldable pub synced_wallet : Wallet → Made Wallet
  synced_wallet w = do
    ydk ← or_fail failed_to_sync (api.sync api.default_sync_yuv w.ydk_wallet)
    made (record w { ydk_wallet = ydk })

  unfoldable pub new_yuv_funding_tx :
      L.Pixel → L.PublicKey → L.PublicKey → ℕ → Wallet → Made (api.YuvTransaction × Wallet)
  unfolding synced_wallet
  new_yuv_funding_tx pixel holder counterparty value w = do
    w' ← synced_wallet w
    tx ←
        or_fail plain_error (api.lightning_funding_tx pixel holder counterparty value w'.ydk_wallet)
    made (tx, w')

  unfoldable pub new_funding_tx : L.Script → ℕ → Wallet → Made (L.Transaction)
  new_funding_tx script value w = do
    rate ← or_fail failed_to_estimate (api.get_fee_rate w.blockchain)
    psbt ← or_fail failed_to_build (api.build_tx script value rate w.ydk_wallet)
    signed ← or_fail failed_to_sign (api.sign true psbt w.ydk_wallet)
    made (api.extract_tx signed)

  unfoldable pub get_yuv_balances : Wallet → Made (api.Balances × Wallet)
  unfolding synced_wallet
  get_yuv_balances w = do
    w' ← synced_wallet w
    balances ← or_fail plain_error (api.balances w'.ydk_wallet)
    made (balances, w')

  unfoldable pub new_yuv_transfer :
      L.PublicKey → api.Chroma → ℕ → Wallet → Made (api.YuvTransaction × Wallet)
  unfolding synced_wallet
  new_yuv_transfer recipient chroma amount w = do
    w' ← synced_wallet w
    tx ← or_fail plain_error (api.create_transfer amount chroma recipient w'.ydk_wallet)
    made (tx, w')

  abbrev pub utxos_of : List (api.OutPoint × api.TxOut) → List Utxo
  utxos_of [] = []
  utxos_of (coin ∷ unspent) =
      record { outpoint = coin.0; output = coin.1; weight = satisfaction_weight } ∷ utxos_of unspent

  -- `WalletSource`
  unfoldable pub list_confirmed_utxos : Wallet → Option (List Utxo)
  list_confirmed_utxos w = elim (api.list_unspent w.ydk_wallet) [
    | none ↦ none
    | some unspent ↦ some (utxos_of unspent)
  ]

  unfoldable pub get_change_script : Wallet → Option (L.Script)
  get_change_script w = api.peek_script w.ydk_wallet

  unfoldable pub get_change_yuv_pubkey : Wallet → Option (L.PublicKey)
  get_change_yuv_pubkey w = some (api.public_key w.ydk_wallet)

  unfoldable pub sign_psbt : api.Psbt → Wallet → Option (L.Transaction)
  sign_psbt psbt w = elim (api.sign false psbt w.ydk_wallet) [
    | none ↦ none
    | some signed ↦ some (api.extract_tx signed)
  ]
