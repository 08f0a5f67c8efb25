-- ===== src/Tests/Nodes.antt =====
-- Whole starts of the node, and the end of its connections, at concrete inputs.
use yuv_lightning_ldk_sample.Prelude.{
  ℕ, [], ◌∷◌, false, true, ◌≡◌, if◌then◌else◌, some, none, refl, List,
}
use yuv_lightning_ldk_sample.Wiring.Start.{
  StartAnswers, start_ldk, connect, seed_fname, goes_on, read_channels, Running,
}
use yuv_lightning_ldk_sample.Prelude.Assoc.{Assoc, get}
use yuv_lightning_ldk_sample.Wiring.Tasks.{
  StartedChannels, not_opened, holds, start_channels, watch_all,
}
use yuv_lightning_ldk_sample.Node.{World}
use yuv_lightning_ldk_sample.Convert.{JsonApi, to_blockchain_info}
use yuv_lightning_ldk_sample.Rpc.{check_access, get_blockchain_info, answered}
use yuv_lightning_ldk_sample.Tests.Sample.{
  sample_api, sample_ldk, sample_decode-encode, sample_answers,
}
use yuv_lightning_ldk_sample.Prelude.Text.{Bytes, equal, codes}
use yuv_lightning_ldk_sample.Wiring.Seed.{is_expected_chain, chain_name}
use yuv_lightning_ldk_sample.Tests.Wirings.{good_start, a_seed}
use yuv_lightning_ldk_sample.Startup.{started, pending_payment, recent_hashes, settle_all}
use yuv_lightning_ldk_sample.Tests.Starting.{
  sample_system, sample_args, sample_info, sample_args-info,
}
use yuv_lightning_ldk_sample.Wiring.Restart.{start_ldk-goes_on, start_ldk-restarts, run_node}
use yuv_lightning_ldk_sample.Startup.Recovery.{load_payments-started}
use yuv_lightning_ldk_sample.Cli.Commands.{CommandAnswers}
use yuv_lightning_ldk_sample.Peers.{PeerApi}
use yuv_lightning_ldk_sample.Cli.Listing.{PrintApi}
use yuv_lightning_ldk_sample.Cli.Words.{CliApi}
use yuv_lightning_ldk_sample.Cli.Loop.Inputs.{Input, enters, happens}
use yuv_lightning_ldk_sample.Event.{payment_sent}
use yuv_lightning_ldk_sample.Wiring.Network.{Net, spawning, trying}

-- a value is a text, and an object has its names for values, but for the chain
abbrev text_json : JsonApi
text_json = record {
  Value = Bytes;
  F64 = ℕ;
  Txid = Bytes;
  BlockHash = Bytes;
  Address = Bytes;
  field = λ v name. name;
  is_null = λ v. false;
  as_str = λ v. if equal v (codes "chain") then some (codes "regtest") else some v;
  as_bool = λ v. none;
  as_u64 = λ v. some 7;
  as_i64 = λ v. none;
  as_f64 = λ v. none;
  as_array = λ v. none;
  of_str = λ s. s;
  of_u64 = λ n. [];
  of_f64 = λ x. [];
  of_bool = λ b. [];
  of_list = λ vs. [];
  of_fields = λ fields. [];
  float = λ n. n;
  times = λ x y. x;
  over = λ x y. x;
  round = λ x. x;
  to_u32 = λ x. x;
  from_btc = λ x. none;
  txid_from_str = λ s. some s;
  block_hash_from_str = λ s. some s;
  address_from_str = λ s. some s;
}

-- a start that makes a fresh channel manager, which is a number
abbrev fresh_start : StartAnswers sample_ldk text_json Bytes ℕ ℕ
fresh_start = record {
  dir_created = true;
  wallet_named = true;
  ask = λ method params. answered [];
  seed = good_start 7;
  wallet_made = true;
  monitors = some [];
  tip_found = true;
  fresh = 0;
  manager = not_opened;
  synced = true;
  recent = λ manager. [];
  user_config = λ url. tt;
}

-- a later one, which reads a manager with a monitor
abbrev later_start : StartAnswers sample_ldk text_json Bytes ℕ ℕ
later_start = record fresh_start {
  seed = good_start 8;
  monitors = some (record { block_hash = 2 ∷ []; monitor = 3; completes = true } ∷ []);
  manager = holds (1 ∷ []) 4;
  recent = λ manager. pending_payment (6 ∷ []) ∷ [];
}

fresh_connect :
    connect sample_api sample_system text_json sample_args fresh_start ≡ goes_on sample_info
unfolding connect check_access get_blockchain_info to_blockchain_info is_expected_chain equal
fresh_connect = rw sample_args-info (unfold chain_name in refl)

abbrev seed_file : Assoc Bytes
seed_file = (seed_fname, a_seed 5) ∷ []

abbrev fresh_channels : StartedChannels Bytes ℕ ℕ
fresh_channels = record { manager = 0; synced_from = []; watched = [] }

abbrev later_channels : StartedChannels Bytes ℕ ℕ
later_channels = record { manager = 4; synced_from = (1 ∷ []) ∷ (2 ∷ []) ∷ []; watched = 3 ∷ [] }

abbrev first_world : World sample_ldk
first_world = started sample_api [] tt seed_file

first_run : start_ldk sample_api sample_system text_json sample_args fresh_start seed_file ≡ (
  first_world.store,
  goes_on (record {
    info = sample_info;
    keys = a_seed 5;
    channels = fresh_channels;
    world = first_world;
  }),
)
first_run =
    start_ldk-goes_on sample_api sample_system text_json sample_decode-encode sample_args
      fresh_start seed_file sample_info (a_seed 5) fresh_channels first_world fresh_connect
      (unfold get equal in refl) refl refl (unfold read_channels start_channels in refl)
      (load_payments-started sample_api [] [] tt seed_file (unfold recent_hashes in refl))

later_connect :
    connect sample_api sample_system text_json sample_args later_start ≡ goes_on sample_info
unfolding connect check_access get_blockchain_info to_blockchain_info is_expected_chain equal
later_connect = rw sample_args-info (unfold chain_name in refl)

abbrev first_node : Running sample_ldk Bytes Bytes Bytes ℕ ℕ
first_node = record {
  info = sample_info;
  keys = a_seed 5;
  channels = fresh_channels;
  world = first_world;
}

abbrev sample_peers : PeerApi sample_ldk
sample_peers = record { from_slice = λ bytes. some bytes; same_key = equal }

abbrev node_cli : CliApi sample_ldk
node_cli = record {
  key_from_str = λ text. some text;
  pixel_from_address = λ luma address. some luma;
  invoice_from_str = λ text. some (text, some 1000);
  set_our_htlc_minimum_msat = λ n config. config;
  set_max_inbound_htlc_percent = λ n config. config;
  set_support_yuv_payments = λ b config. config;
  set_negotiate_anchors = λ b config. config;
  set_announced_channel = λ b config. config;
}

abbrev node_print : PrintApi sample_ldk
node_print = record {
  serialize = λ key. key;
  key_text = λ key. key;
  id_text = λ id. id;
  address_text = λ pixel. [];
  luma_amount = λ pixel. pixel;
}

abbrev node_answers : CommandAnswers sample_ldk
node_answers = record {
  is_ok = λ c. true;
  peers = [];
  channels = [];
  alias = λ key. none;
  resolve = λ n text. some (some text);
  attempt = none;
  random = 8 ∷ 8 ∷ [];
  create_invoice = λ currency amt expiry pixel. some (9 ∷ [], some amt);
}

-- a payment that is sent, an invoice, a peer that is saved, and the end
abbrev sample_inputs : List (Input sample_ldk)
sample_inputs =
    enters node_answers (codes "sendpayment lnbc")
    ∷ happens sample_answers (payment_sent (codes "lnbc") (codes "lnbc"))
    ∷ enters node_answers (codes "getinvoice 3000 60")
    ∷ enters node_answers (codes "connectpeer 02@localhost:9735")
    ∷ enters node_answers (codes "configchannel --min-inb-htlc 7")
    ∷ enters node_answers (codes "quit")
    ∷ []

abbrev sample_run : Running sample_ldk Bytes Bytes Bytes ℕ ℕ → World sample_ldk
sample_run =
    run_node sample_api sample_system text_json sample_decode-encode sample_peers node_cli
      node_print sample_inputs

start_ldk-restarts_example :
    (r' : Running sample_ldk Bytes Bytes Bytes ℕ ℕ) × ((start_ldk sample_api sample_system text_json
        sample_args later_start
        (sample_run first_node).store).1
      ≡ goes_on r')
    × (r'.keys ≡ a_seed 5)
    × (r'.world.inbound ≡ (sample_run first_node).inbound)
    × (r'.world.outbound ≡ settle_all ((6 ∷ []) ∷ []) (sample_run first_node).outbound)
start_ldk-restarts_example =
    start_ldk-restarts sample_api sample_system text_json sample_decode-encode sample_peers node_cli
      node_print sample_args fresh_start first_world.store seed_file first_node sample_inputs
      sample_args later_start sample_info later_channels ((6 ∷ []) ∷ []) refl first_run
      later_connect refl (unfold read_channels start_channels watch_all in refl)
      (unfold recent_hashes in refl)

-- The flag is set while the listening task has read it for the connection 4.
abbrev stopped_net : Net ℕ
stopped_net = record {
  stopped = true;
  listener = spawning 4;
  reconnecter = trying (5 ∷ 6 ∷ []) ((7 ∷ []) ∷ []);
}

abbrev set_up_late : List ℕ
set_up_late = 4 ∷ []

abbrev tried_late : List ℕ
tried_late = 5 ∷ []
