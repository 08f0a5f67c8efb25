-- ===== src/Wiring/Start.antt =====
-- src/main.rs, `start_ldk`: a start from the command line to the running node, with every way in which
-- it ends before. The file store is the data directory; of what a start writes, the model has the seed
-- and the payment files, and leaves out the logs and what the libraries write.
use yuv_lightning_ldk_sample.Prelude.{
  Outcome, Option, Bool, true, returns, some, false, none, panics, List,
}
use yuv_lightning_ldk_sample.Node.{Ldk, World}
use yuv_lightning_ldk_sample.Prelude.Text.{Bytes, codes}
use yuv_lightning_ldk_sample.Args.{
  Parsed, accepts, LdkUserInfo, refuses, aborts, parse_startup_args,
}
use yuv_lightning_ldk_sample.Convert.{JsonApi}
use yuv_lightning_ldk_sample.Payments.{PaymentApi}
use yuv_lightning_ldk_sample.Wiring.Tasks.{StartedChannels, start_channels, Monitor, ManagerFile}
use yuv_lightning_ldk_sample.Args.Credentials.{System}
use yuv_lightning_ldk_sample.Rpc.{Answer, check_access, get_blockchain_info}
use yuv_lightning_ldk_sample.Wiring.Seed.{
  SeedEnd, SeedStart, seeded, keys_seed, is_expected_chain, gives_up, seed_panics,
}
use yuv_lightning_ldk_sample.Prelude.Assoc.{Assoc, insert, get}
use yuv_lightning_ldk_sample.Startup.{load_payments, RecentPaymentDetails}

-- How a step of the start ends: it goes on, `start_ldk` returns, or it panics.
pub data Start (A : Type 0) : Type 0 where
  goes_on : A → Start A
  ends_early start_panics : Start A

abbrev pub of_parsed : {A : Type 0} → Parsed A → Start A
of_parsed (accepts a) = goes_on a
of_parsed refuses = ends_early
of_parsed aborts = start_panics

abbrev pub of_outcome : {A : Type 0} → Outcome A → Start A
of_outcome (returns a) = goes_on a
of_outcome panics = start_panics

abbrev pub of_option : {A : Type 0} → Option A → Start A
of_option (some a) = goes_on a
of_option none = start_panics

-- an `unwrap` of which only the success counts, and a test with an early return
abbrev pub expect : Bool → Start (Unit {0})
expect true = goes_on tt
expect false = start_panics

abbrev pub return_unless : Bool → Start (Unit {0})
return_unless true = goes_on tt
return_unless false = ends_early

infixl 5 ◌>>=◌
abbrev pub ◌>>=◌ : {A B : Type 0} → Start A → (A → Start B) → Start B
goes_on a >>= f = f a
ends_early >>= f = ends_early
start_panics >>= f = start_panics

abbrev pub seed_fname : Bytes
seed_fname = codes "keys_seed"

abbrev pub of_seed : SeedEnd → Start Bytes
of_seed (seeded seed) = goes_on seed
of_seed gives_up = ends_early
of_seed seed_panics = start_panics

abbrev pub with_seed : Option Bytes → Assoc Bytes → Assoc Bytes
with_seed none files = files
with_seed (some seed) files = insert seed_fname seed files

-- What a start meets, in the order in which it does: whether the data directory and the name of the
-- wallet can be made, what bitcoind answers, the seed file, whether the wallet can be made, the channel
-- monitors, whether the best block is found, a new channel manager, the file of the old one, whether the
-- listeners are synced, and the recent payments of the channel manager.
pub record StartAnswers (L : Ldk) (J : JsonApi) (H C M : Type 0) : Type 0 where
  pub dir_created : Bool
  pub wallet_named : Bool
  pub ask : Bytes → List (J.Value) → Answer (J.Value)
  pub seed : SeedStart
  pub wallet_made : Bool
  pub monitors : Option (List (Monitor H M))
  pub tip_found : Bool
  pub fresh : C
  pub manager : ManagerFile H C
  pub synced : Bool
  pub recent : C → List RecentPaymentDetails
  -- `UserConfig` from its default and the fields that are set
  pub user_config : Option Bytes → L.UserConfig

-- A node that runs.
pub record Running (L : Ldk) (P S H C M : Type 0) : Type 0 where
  pub info : LdkUserInfo P S
  pub keys : Bytes
  pub channels : StartedChannels H C M
  pub world : World L

module _ {L : Ldk} {P S H C M : Type 0} (api : PaymentApi L) (sys : System P S) (J : JsonApi) where
  -- the arguments, the data directory, and bitcoind, which has to be on the network
  unfoldable pub connect : List Bytes → StartAnswers L J H C M → Start (LdkUserInfo P S)
  connect args a = do
    info ← of_parsed (parse_startup_args sys args).1
    made ← expect a.dir_created
    named ← expect a.wallet_named
    access ← of_outcome (check_access J a.ask)
    connected ← return_unless access
    chain ← of_outcome (get_blockchain_info J a.ask)
    same ← return_unless (is_expected_chain info.network chain.chain)
    goes_on info

  -- steps 5 to 13, behind the wallet
  unfoldable pub read_channels : StartAnswers L J H C M → Start (StartedChannels H C M)
  read_channels a = do
    made ← expect a.wallet_made
    monitors ← of_option a.monitors
    found ← expect a.tip_found
    of_outcome (start_channels a.fresh a.synced a.manager monitors)

  -- the rest of the start: it writes the outgoing payments
  abbrev pub load_running :
      LdkUserInfo P S
      → Bytes
      → StartedChannels H C M
      → Assoc Bytes
      → Outcome (World L)
      → Assoc Bytes × Start (Running L P S H C M)
  load_running info keys channels files panics = (files, start_panics)
  load_running info keys channels files (returns w) =
      (w.store, goes_on (record { info = info; keys = keys; channels = channels; world = w }))

  abbrev pub start_loaded :
      StartAnswers L J H C M
      → LdkUserInfo P S
      → Bytes
      → Assoc Bytes
      → Start (StartedChannels H C M)
      → Assoc Bytes × Start (Running L P S H C M)
  start_loaded a info keys files ends_early = (files, ends_early)
  start_loaded a info keys files start_panics = (files, start_panics)
  start_loaded a info keys files (goes_on channels) =
      load_running info keys channels files
        (load_payments api (a.recent channels.manager) (a.user_config info.yuv_rpc_url) files)

  abbrev pub start_seeded :
      StartAnswers L J H C M
      → LdkUserInfo P S
      → Assoc Bytes
      → Start Bytes
      → Assoc Bytes × Start (Running L P S H C M)
  start_seeded a info files ends_early = (files, ends_early)
  start_seeded a info files start_panics = (files, start_panics)
  start_seeded a info files (goes_on keys) = start_loaded a info keys files (read_channels a)

  abbrev pub start_connected :
      StartAnswers L J H C M
      → Assoc Bytes
      → Start (LdkUserInfo P S)
      → Assoc Bytes × Start (Running L P S H C M)
  start_connected a files ends_early = (files, ends_early)
  start_connected a files start_panics = (files, start_panics)
  start_connected a files (goes_on info) =
      let (end, file) = keys_seed a.seed (get seed_fname files) in
      start_seeded a info (with_seed file files) (of_seed end)

  -- `start_ldk` up to its first task that handles events: the files that it leaves, and its end
  unfoldable pub start_ldk :
      List Bytes → StartAnswers L J H C M → Assoc Bytes → Assoc Bytes × Start (Running L P S H C M)
  unfolding connect read_channels
  start_ldk args a files = start_connected a files (connect args a)
