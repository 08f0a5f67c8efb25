-- ===== src/Tests/Sessions.antt =====
-- Sessions at the prompt, at concrete inputs.
use yuv_lightning_ldk_sample.Payments.{Network}
use yuv_lightning_ldk_sample.Prelude.{
  List, ◌≡◌, Bool, ◌∷◌, [], true, none, ltb, All, ◌&&◌, false, some, arith, map, refl,
}
use yuv_lightning_ldk_sample.Prelude.Text.{
  Bytes, codes, IsAscii, split_whitespace, words_from, is_whitespace, equal, IsByte,
}
use yuv_lightning_ldk_sample.Node.{World, Call, call}
use yuv_lightning_ldk_sample.Cli.Loop.Sessions.{
  run_lines, run_line-listchannels, typed_turn, poll_for_user_input_typed,
}
use yuv_lightning_ldk_sample.Cli.Commands.{
  CommandAnswers, config_channel, config_param, crashes, quits, prompts,
}
use yuv_lightning_ldk_sample.Cli.Listing.{PrintApi}
use yuv_lightning_ldk_sample.Cli.Listing.Limits.{every, has_limits}
use yuv_lightning_ldk_sample.Event.{ChannelDetails}
use yuv_lightning_ldk_sample.Cli.Loop.{
  run_line, run_words, dispatch, dispatch_more, poll_for_user_input,
}
use yuv_lightning_ldk_sample.Tests.Commanding.{
  config_ldk, no_payments, no_peers, sample_cli, copies,
}
use yuv_lightning_ldk_sample.Prelude.Numbers.{parse_unsigned, scan}
use yuv_lightning_ldk_sample.Peers.{PeerApi}
use yuv_lightning_ldk_sample.Cli.Language.{KeyText, rebalance, msat_and_luma, Command, typed_text}
use yuv_lightning_ldk_sample.Cli.Language.Typed.{run_line-typed_text}

abbrev pub sample_print : PrintApi config_ldk
sample_print = record {
  serialize = λ key. key;
  key_text = λ key. key;
  id_text = λ id. id;
  address_text = λ pixel. [];
  luma_amount = λ pixel. pixel;
}

-- a channel that was just opened: the counterparty's limits are not known yet
abbrev fresh_channel : ChannelDetails config_ldk
fresh_channel = record {
  channel_id = 1 ∷ [];
  counterparty_node_id = 2 ∷ [];
  yuv_holder_pixel = none;
  yuv_counterparty_pixel = none;
  is_public = false;
  is_channel_ready = false;
  is_usable = false;
  funding_txid = none;
  short_channel_id = none;
  inbound_htlc_minimum_msat = some 1;
  inbound_htlc_maximum_msat = some 1000;
  outbound_htlc_minimum_msat = none;
  outbound_htlc_maximum_msat = none;
  next_outbound_htlc_minimum_msat = 0;
  channel_value_satoshis = 10000;
  balance_msat = 0;
  outbound_capacity_msat = 0;
  inbound_capacity_msat = 0;
  unspendable_punishment_reserve = none;
  counterparty_punishment_reserve = 0;
  pending_update_balance = none;
  update_balance_amounts = none;
}

abbrev pub fresh_answers : CommandAnswers config_ldk
fresh_answers = record {
  is_ok = λ c. true;
  peers = [];
  channels = fresh_channel ∷ [];
  alias = λ key. none;
  resolve = λ n text. none;
  attempt = none;
  random = [];
  create_invoice = λ currency amt expiry pixel. none;
}

abbrev pub config_world : World config_ldk
config_world = record {
  inbound = record { payments = [] };
  outbound = record { payments = [] };
  store = [];
  default_config = (1, 2);
  calls = [];
}

run_line-listchannels_example :
    run_line no_payments no_peers sample_cli sample_print Network.regtest fresh_answers
      (codes "listchannels")
      config_world
    ≡ (config_world, crashes)
unfolding every has_limits
run_line-listchannels_example =
    run_line-listchannels no_payments no_peers sample_cli sample_print Network.regtest fresh_answers
      config_world

abbrev session : List (Bytes × CommandAnswers config_ldk)
session =
    (codes "configchannel --min-inb-htlc 7", fresh_answers)
    ∷ (codes "quit", fresh_answers)
    ∷ (codes "help", fresh_answers)
    ∷ []

abbrev all_ascii : Bytes → Bool
all_ascii [] = true
all_ascii (c ∷ s) = ltb c 128 && all_ascii s

all_ascii-IsAscii : (s : Bytes) → all_ascii s ≡ true → All IsAscii s
all_ascii-IsAscii [] h = tt
all_ascii-IsAscii (c ∷ s) h = (ground arith, all_ascii-IsAscii s (ground arith))

poll_for_user_input_typed_example :
    poll_for_user_input no_payments no_peers sample_cli sample_print Network.regtest
      (record { term_width = 80; prefix_size = 2 })
      (map typed_turn session)
      []
      config_world
    ≡ (record config_world { default_config = (7, 2) }, quits)
unfolding run_lines run_line run_words dispatch dispatch_more split_whitespace words_from
    is_whitespace equal config_channel config_param parse_unsigned scan
poll_for_user_input_typed_example =
    poll_for_user_input_typed no_payments no_peers sample_cli sample_print Network.regtest
      (record { term_width = 80; prefix_size = 2 }) session [] config_world (omega arith)
      (
        ((λ e. ground arith), all_ascii-IsAscii (codes "configchannel --min-inb-htlc 7") refl),
        (
          ((λ e. ground arith), all_ascii-IsAscii (codes "quit") refl),
          (((λ e. ground arith), all_ascii-IsAscii (codes "help") refl), tt),
        ),
      )

abbrev all_below_256 : Bytes → Bool
all_below_256 [] = true
all_below_256 (c ∷ s) = ltb c 256 && all_below_256 s

pub all_below_256-IsByte : (s : Bytes) → all_below_256 s ≡ true → All IsByte s
all_below_256-IsByte [] h = tt
all_below_256-IsByte (c ∷ s) h = (ground arith, all_below_256-IsByte s (ground arith))

abbrev pub any_key : PeerApi config_ldk
any_key = record no_peers { from_slice = λ bytes. some bytes }

abbrev pub sample_key : KeyText config_ldk
sample_key = record { bytes = copies 33 3; key = copies 33 3 }

abbrev sample_command : Command config_ldk
sample_command = rebalance (copies 32 7) sample_key (msat_and_luma 2500 12)

run_line-typed_text_example :
    run_line no_payments any_key sample_cli sample_print Network.regtest fresh_answers
      (typed_text sample_command)
      config_world
    ≡ (
      call (Call.update_balance (copies 32 7) (copies 33 3) (some 2500) (some 12)) config_world,
      prompts,
    )
run_line-typed_text_example =
    run_line-typed_text no_payments any_key sample_cli sample_print Network.regtest fresh_answers
      config_world sample_command
      (
        (refl, all_below_256-IsByte (copies 32 7) refl),
        record { size = refl; bytes = all_below_256-IsByte (copies 33 3) refl; reads = refl },
        (omega arith, omega arith),
      )
