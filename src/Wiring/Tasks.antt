-- ===== src/Wiring/Tasks.antt =====
-- src/main.rs, `start_ldk`: the channels of a start, and the tick of the announcing task.
use yuv_lightning_ldk_sample.Prelude.{
  ℕ, Bool, Option, List, ◌∷◌, Outcome, false, returns, [], if◌then◌else◌, ◌||◌, true, panics,
  is_some,
}
use yuv_lightning_ldk_sample.Node.{Ldk}
use yuv_lightning_ldk_sample.Prelude.Text.{Bytes}
use yuv_lightning_ldk_sample.Event.{ChannelDetails}

-- lightning: the fields of `UserConfig` that a start sets; `other_config` is `UserConfig::default()`
pub record StartConfig (C : Type 0) : Type 0 where
  pub other_config : C
  pub force_announced_channel_preference : Bool
  pub negotiate_anchors_zero_fee_htlc_tx : Bool
  pub manually_accept_inbound_channels : Bool
  pub our_htlc_minimum_msat : ℕ
  pub support_yuv_payments : Bool

-- step 11: YUV payments are supported if there is a YUV node
unfoldable pub start_config : {C : Type 0} → C → Option Bytes → StartConfig C
start_config default yuv_rpc_url = record {
  other_config = default;
  force_announced_channel_preference = false;
  negotiate_anchors_zero_fee_htlc_tx = true;
  manually_accept_inbound_channels = true;
  our_htlc_minimum_msat = 4000000;
  support_yuv_payments = is_some yuv_rpc_url;
}

-- The file `manager`: it cannot be opened, it cannot be read, or it holds a block hash and a channel
-- manager.
pub data ManagerFile (H C : Type 0) : Type 0 where
  not_opened not_read : ManagerFile H C
  holds : H → C → ManagerFile H C

-- a channel monitor with its block hash, and whether `watch_channel` completes for it
pub record Monitor (H M : Type 0) : Type 0 where
  pub block_hash : H
  pub monitor : M
  pub completes : Bool

-- What a start does with its channels: the manager that it goes on with, the listeners that are
-- brought to the tip of the chain (each by its block hash, the manager's first), and the monitors
-- that the chain monitor watches.
pub record StartedChannels (H C M : Type 0) : Type 0 where
  pub manager : C
  pub synced_from : List H
  pub watched : List M

module _ {H M : Type 0} where
  abbrev pub hashes_of : List (Monitor H M) → List H
  hashes_of [] = []
  hashes_of (m ∷ monitors) = m.block_hash ∷ hashes_of monitors

  -- step 13, where anything but a completed update fails an `assert_eq!`
  unfoldable pub watch_all : List (Monitor H M) → Outcome (List M)
  watch_all [] = returns []
  watch_all (m ∷ monitors) =
      let later = watch_all monitors in
      if m.completes
      then (elim later [ returns ms ↦ returns (m.monitor ∷ ms) | panics ↦ panics ])
      else panics

module _ {H C M : Type 0} where
  abbrev pub start_with : C → List H → Outcome (List M) → Outcome (StartedChannels H C M)
  start_with manager hashes (returns ms) =
      returns (record { manager = manager; synced_from = hashes; watched = ms })
  start_with manager hashes panics = panics

  -- steps 11 to 13; `fresh` is a new channel manager, for which `restarting_node` is false, so that
  -- the monitors stay where they are; `synced` says whether the listeners could be synced
  unfoldable pub start_channels :
      C → Bool → ManagerFile H C → List (Monitor H M) → Outcome (StartedChannels H C M)
  unfolding watch_all
  start_channels fresh synced not_opened monitors = start_with fresh [] (returns [])
  start_channels fresh synced not_read monitors = panics
  start_channels fresh synced (holds hash manager) monitors =
      if synced then start_with manager (hash ∷ hashes_of monitors) (watch_all monitors) else panics

-- one tick of the task that announces the node
unfoldable pub announces : {L : Ldk} → List (ChannelDetails L) → Bool
announces [] = false
announces (chan ∷ chans) = chan.is_public || announces chans
