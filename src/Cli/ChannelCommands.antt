-- ===== src/Cli/ChannelCommands.antt =====
-- src/cli.rs: the commands of `poll_for_user_input` about peers, open channels and messages.
use yuv_lightning_ldk_sample.Prelude.{
  ℕ, List, Option, ◌>>=◌, some, none, ◌∷◌, [], length, ◌+◌, if◌then◌else◌, leb, drop,
}
use yuv_lightning_ldk_sample.Node.{Ldk, World, call, Call}
use yuv_lightning_ldk_sample.Peers.{
  PeerApi, PeerInfo, Connection, persist_channel_peer, peer_error, peer_info, parse_peer_info,
  do_disconnect_peer, connected, connect_peer_if_necessary, not_connected, connecting,
}
use yuv_lightning_ldk_sample.Cli.Words.{
  CliApi, channel_id_from_input, pubkey_from_input, pubkey_from_hex, optional_number,
}
use yuv_lightning_ldk_sample.Prelude.Text.{Bytes, split, codes, trim}
use yuv_lightning_ldk_sample.Cli.Commands.{CommandAnswers, Next, prompts, crashes, hangs}
use yuv_lightning_ldk_sample.Prelude.Numbers.{max_u64, max_u128, parse_unsigned}
use yuv_lightning_ldk_sample.HexUtils.{to_vec}

module _ {L : Ldk} (peer : PeerApi L) (cli : CliApi L) where
  -- after the connection attempt of `connectpeer`: success or not, the text is saved
  unfoldable pub save_peer : Bytes → World L × Connection → World L × Next
  save_peer info (w, connected) = (persist_channel_peer peer info w, prompts)
  save_peer info (w, not_connected) = (persist_channel_peer peer info w, prompts)
  save_peer info (w, connecting) = (w, hangs)

  unfoldable pub connect_to : CommandAnswers L → Bytes → PeerInfo L → World L → World L × Next
  unfolding save_peer
  connect_to a info (peer_error e) w = (w, prompts)
  connect_to a info (peer_info key addr) w =
      save_peer info (connect_peer_if_necessary peer key addr a.peers a.attempt w)

  -- `connectpeer`
  unfoldable pub run_connectpeer : CommandAnswers L → List Bytes → World L → World L × Next
  unfolding connect_to
  run_connectpeer a [] w = (w, prompts)
  run_connectpeer a (info ∷ words) w = connect_to a info (parse_peer_info peer (a.resolve 0) info) w

  unfoldable pub disconnect_from :
      CommandAnswers L → Option (L.PublicKey) → World L → World L × Next
  disconnect_from a none w = (w, prompts)
  disconnect_from a (some key) w = ((do_disconnect_peer peer key a.channels a.peers w).0, prompts)

  -- `disconnectpeer`
  unfoldable pub run_disconnectpeer : CommandAnswers L → List Bytes → World L → World L × Next
  unfolding disconnect_from
  run_disconnectpeer a [] w = (w, prompts)
  run_disconnectpeer a (key ∷ words) w = disconnect_from a (cli.key_from_str key) w

  -- the arguments of `closechannel` and `forceclosechannel`: a channel id and a public key
  unfoldable pub channel_args : List Bytes → Option (Bytes × L.PublicKey × List Bytes)
  channel_args words = do
    id ← channel_id_from_input words
    key ← pubkey_from_input peer.from_slice id.1
    some (id.0, key.0, key.1)

  -- the function `close_channel`; its arms print how the call ended
  unfoldable pub initiate_close : Bytes → L.PublicKey → World L → World L
  initiate_close id key w = call (Call.close_channel id key) w

  unfoldable pub close_with : Option (Bytes × L.PublicKey × List Bytes) → World L → World L × Next
  close_with none w = (w, prompts)
  close_with (some (id, key, words)) w = (initiate_close id key w, prompts)

  -- `closechannel`
  unfoldable pub run_closechannel : List Bytes → World L → World L × Next
  unfolding close_with
  run_closechannel words w = close_with (channel_args words) w

  -- the function `force_close_channel`
  unfoldable pub initiate_force_close : Bytes → L.PublicKey → World L → World L
  initiate_force_close id key w = call (Call.force_close_channel id key) w

  unfoldable pub force_close_with :
      Option (Bytes × L.PublicKey × List Bytes) → World L → World L × Next
  force_close_with none w = (w, prompts)
  force_close_with (some (id, key, words)) w = (initiate_force_close id key w, prompts)

  -- `forceclosechannel`
  unfoldable pub run_forceclosechannel : List Bytes → World L → World L × Next
  unfolding force_close_with
  run_forceclosechannel words w = force_close_with (channel_args words) w

  -- the amounts of `updatebalance`: millisatoshis, then luma, each optional
  unfoldable pub balance_args : List Bytes → Option (Option ℕ × Option ℕ)
  balance_args words = do
    msat ← optional_number max_u64 words
    luma ← optional_number max_u128 msat.1
    some (msat.0, luma.0)

  unfoldable pub update_args : List Bytes → Option (Bytes × L.PublicKey × Option ℕ × Option ℕ)
  update_args words = do
    target ← channel_args words
    amounts ← balance_args target.2
    some (target.0, target.1, amounts.0, amounts.1)

  -- the function `update_balance`
  unfoldable pub initiate_update : Bytes → L.PublicKey → Option ℕ → Option ℕ → World L → World L
  initiate_update id key msat luma w = call (Call.update_balance id key msat luma) w

  unfoldable pub update_with :
      Option (Bytes × L.PublicKey × Option ℕ × Option ℕ) → World L → World L × Next
  update_with none w = (w, prompts)
  update_with (some (id, key, msat, luma)) w = (initiate_update id key msat luma w, prompts)

  -- `updatebalance`
  unfoldable pub run_updatebalance : List Bytes → World L → World L × Next
  unfolding update_with
  run_updatebalance words w = update_with (update_args words) w

  -- the keys of `sendonionmessage`, in their order
  unfoldable pub path_keys : List Bytes → Option (List (L.PublicKey))
  path_keys [] = some []
  path_keys (word ∷ words) = do
    key ← pubkey_from_hex peer.from_slice word
    keys ← path_keys words
    some (key ∷ keys)

  -- `intermediate_nodes.pop().unwrap()`: the last key
  unfoldable pub last_key : List (L.PublicKey) → Option (L.PublicKey)
  last_key [] = none
  last_key (key ∷ []) = some key
  last_key (key ∷ next ∷ keys) = last_key (next ∷ keys)

  -- the type, the data and all the keys
  unfoldable pub onion_args : List Bytes → Option (ℕ × Bytes × List (L.PublicKey))
  onion_args [] = none
  onion_args (path ∷ []) = none
  onion_args (path ∷ type_word ∷ []) = none
  onion_args (path ∷ type_word ∷ data_word ∷ words) = do
    keys ← path_keys (split b',' path)
    tlv_type ← parse_unsigned max_u64 type_word
    message ← to_vec data_word
    if leb 64 tlv_type then some (tlv_type, message, keys) else none

  unfoldable pub send_onion_to : ℕ → Bytes → Option (L.PublicKey) → World L → World L × Next
  send_onion_to tlv_type message none w = (w, crashes)
  send_onion_to tlv_type message (some destination) w =
      (call (Call.send_onion_message tlv_type message destination) w, prompts)

  unfoldable pub send_onion_with :
      Option (ℕ × Bytes × List (L.PublicKey)) → World L → World L × Next
  unfolding send_onion_to
  send_onion_with none w = (w, prompts)
  send_onion_with (some (tlv_type, message, keys)) w =
      send_onion_to tlv_type message (last_key keys) w

  -- `sendonionmessage`
  unfoldable pub run_sendonionmessage : List Bytes → World L → World L × Next
  unfolding send_onion_with
  run_sendonionmessage words w = send_onion_with (onion_args words) w

  -- `signmessage`, of the whole line: the bytes behind the word and one byte more
  unfoldable pub run_signmessage : Bytes → World L → World L × Next
  run_signmessage line w =
      let start = length (codes "signmessage") + 1 in
      if leb (length (trim line)) start
      then (w, prompts)
      else (call (Call.sign_message (drop start (trim line))) w, prompts)
