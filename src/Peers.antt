-- ===== src/Peers.antt =====
-- The peers that the node knows, connects to and disconnects: `parse_peer_info`, `list_peers`,
-- `connect_peer_if_necessary`, `do_connect_peer` and `do_disconnect_peer` of src/cli.rs, and
-- `persist_channel_peer` and `read_channel_peer_data` of src/disk.rs. The file is UTF-8 text.
pub mod Saved
pub mod Guards
pub mod Waiting
use yuv_lightning_ldk_sample.Prelude.{
  List, Option, ◌∷◌, if◌then◌else◌, Bool, some, none, Outcome, [], unwrap, false, map, ◌++◌, ◌||◌,
  not, true, ℕ, ◌+◌,
}
use yuv_lightning_ldk_sample.Node.{
  Ldk, World, peer_data_fname, call, connect_outbound, disconnect_by_node_id,
}
use yuv_lightning_ldk_sample.Prelude.Text.{Bytes, split, lines}
use yuv_lightning_ldk_sample.Prelude.Assoc.{Assoc, get, insert}
use yuv_lightning_ldk_sample.Event.{ChannelDetails}
use yuv_lightning_ldk_sample.HexUtils.{to_compressed_pubkey}

-- What the libraries give: public keys from bytes and their equality.
pub record PeerApi (L : Ldk) : Type 0 where
  pub from_slice : Bytes → Option (L.PublicKey)
  pub same_key : L.PublicKey → L.PublicKey → Bool

-- The first address that `to_socket_addrs()` gives for a text, at one time: it may fail or find none.
-- It resolves the names of hosts, so it is another function for each call.
abbrev pub Resolve : Ldk → Type 0
Resolve L = Bytes → Option (Option (L.SocketAddr))

pub data PeerInfoError : Type 0 where
  incorrectly_formatted bad_socket_address bad_pubkey : PeerInfoError

pub data PeerInfo (L : Ldk) : Type 0 where
  peer_info : L.PublicKey → L.SocketAddr → PeerInfo L
  peer_error : PeerInfoError → PeerInfo L

-- What one round of the waiting loop finds first: the connection closed, or after 10 ms the peers.
pub data Wakeup (L : Ldk) : Type 0 where
  connection_closed : Wakeup L
  slept : List (L.PublicKey) → Wakeup L

-- A connection that is being made; `connecting` if the wakeups so far decide nothing.
pub data Connection : Type 0 where
  connected not_connected connecting : Connection

module _ {L : Ldk} (api : PeerApi L) where
  unfoldable pub with_pubkey : Option (L.PublicKey) → L.SocketAddr → PeerInfo L
  with_pubkey none addr = peer_error bad_pubkey
  with_pubkey (some pubkey) addr = peer_info pubkey addr

  unfoldable pub with_address : Bytes → Option (Option (L.SocketAddr)) → PeerInfo L
  unfolding with_pubkey
  with_address pubkey none = peer_error bad_socket_address
  with_address pubkey (some none) = peer_error bad_socket_address
  with_address pubkey (some (some addr)) =
      with_pubkey (to_compressed_pubkey api.from_slice pubkey) addr

  -- the parts of the text at the signs `@`; a third part is not looked at
  unfoldable pub parse_parts : Resolve L → List Bytes → PeerInfo L
  unfolding with_address
  parse_parts resolve [] = peer_error incorrectly_formatted
  parse_parts resolve (pubkey ∷ []) = peer_error incorrectly_formatted
  parse_parts resolve (pubkey ∷ addr ∷ rest) = with_address pubkey (resolve addr)

  unfoldable pub parse_peer_info : Resolve L → Bytes → PeerInfo L
  unfolding parse_parts
  parse_peer_info resolve text = parse_parts resolve (split b'@' text)

  -- `peer_data.insert(pubkey, socket_addr)` on a `HashMap`
  unfoldable pub insert_peer :
      L.PublicKey
      → L.SocketAddr
      → List (L.PublicKey × L.SocketAddr)
      → List (L.PublicKey × L.SocketAddr)
  insert_peer key addr [] = (key, addr) ∷ []
  insert_peer key addr ((k, a) ∷ peers) =
      if api.same_key k key then (key, addr) ∷ peers else (k, a) ∷ insert_peer key addr peers

  unfoldable pub get_peer : L.PublicKey → List (L.PublicKey × L.SocketAddr) → Option (L.SocketAddr)
  get_peer key [] = none
  get_peer key ((k, a) ∷ peers) = if api.same_key k key then some a else get_peer key peers

  -- one line of the file: an error ends the reading
  abbrev pub read_line :
      (List (L.PublicKey × L.SocketAddr) → Option (List (L.PublicKey × L.SocketAddr)))
      → PeerInfo L
      → List (L.PublicKey × L.SocketAddr)
      → Option (List (L.PublicKey × L.SocketAddr))
  read_line go_on (peer_info key addr) peers = go_on (insert_peer key addr peers)
  read_line go_on (peer_error e) peers = none

  -- from the line `n` on, whose address is resolved by `resolve n`
  unfoldable pub read_lines :
      (ℕ → Resolve L)
      → ℕ
      → List Bytes
      → List (L.PublicKey × L.SocketAddr)
      → Option (List (L.PublicKey × L.SocketAddr))
  read_lines resolve n [] peers = some peers
  read_lines resolve n (line ∷ ls) peers =
      read_line (read_lines resolve (n + 1) ls) (parse_peer_info (resolve n) line) peers

  -- the text of the file, if there is one
  abbrev pub read_text : (ℕ → Resolve L) → Option Bytes → Option (List (L.PublicKey × L.SocketAddr))
  read_text resolve none = some []
  read_text resolve (some text) = read_lines resolve 0 (lines text) []

  -- `none` is the error that a line gives; a missing file is an empty map
  unfoldable pub read_channel_peer_data :
      (ℕ → Resolve L) → Assoc Bytes → Option (List (L.PublicKey × L.SocketAddr))
  read_channel_peer_data resolve files = read_text resolve (get peer_data_fname files)

  -- the text goes to the end of the file, which is created if it is missing
  unfoldable pub persist_channel_peer : Bytes → World L → World L
  persist_channel_peer info w = record w {
    store =
        insert peer_data_fname
          ((elim (get peer_data_fname w.store) [ none ↦ [] | some text ↦ text ])
            ++ (info ++ b'\n' ∷ []))
          w.store;
  }

  -- cli.rs: `list_peers` unwraps the map to print it
  unfoldable pub list_peers :
      (ℕ → Resolve L) → Assoc Bytes → Outcome (List (L.PublicKey × L.SocketAddr))
  list_peers resolve files = unwrap (read_channel_peer_data resolve files)

  unfoldable pub is_listed : L.PublicKey → List (L.PublicKey) → Bool
  is_listed key [] = false
  is_listed key (p ∷ peers) = api.same_key p key || is_listed key peers

  -- the loop of `do_connect_peer`
  unfoldable pub wait_for_peer : L.PublicKey → List (Wakeup L) → Connection
  unfolding is_listed
  wait_for_peer key [] = connecting
  wait_for_peer key (connection_closed ∷ ws) = not_connected
  wait_for_peer key (slept peers ∷ ws) =
      let rest = wait_for_peer key ws in if is_listed key peers then connected else rest

  -- `connect_outbound` gives `none`, or a connection with the wakeups of the loop
  unfoldable pub do_connect_peer :
      L.PublicKey → L.SocketAddr → Option (List (Wakeup L)) → World L → World L × Connection
  do_connect_peer key addr none w = (call (connect_outbound key addr) w, not_connected)
  do_connect_peer key addr (some wakeups) w =
      (call (connect_outbound key addr) w, wait_for_peer key wakeups)

  unfoldable pub connect_peer_if_necessary :
      L.PublicKey
      → L.SocketAddr
      → List (L.PublicKey)
      → Option (List (Wakeup L))
      → World L
      → World L × Connection
  connect_peer_if_necessary key addr peers attempt w =
      if is_listed key peers then (w, connected) else do_connect_peer key addr attempt w

  unfoldable pub has_channel_with : L.PublicKey → List (ChannelDetails L) → Bool
  has_channel_with key [] = false
  has_channel_with key (c ∷ cs) = api.same_key c.counterparty_node_id key || has_channel_with key cs

  -- refused while the node has a channel with the peer, or is not connected to it
  unfoldable pub do_disconnect_peer :
      L.PublicKey → List (ChannelDetails L) → List (L.PublicKey) → World L → World L × Bool
  do_disconnect_peer key channels peers w =
      if has_channel_with key channels
      then (w, false)
      else if not (is_listed key peers)
      then (w, false)
      else (call (disconnect_by_node_id key) w, true)

  -- main.rs: the task that reconnects, for one channel peer that is not connected: the saved
  -- addresses of its key
  unfoldable pub addresses_of :
      L.PublicKey → List (L.PublicKey × L.SocketAddr) → List (L.SocketAddr)
  addresses_of key [] = []
  addresses_of key ((k, a) ∷ info) =
      if api.same_key k key then a ∷ addresses_of key info else addresses_of key info

  -- main.rs: the channel peers to reconnect, in the order of the channels
  unfoldable pub to_reconnect : List (ChannelDetails L) → List (L.PublicKey) → List (L.PublicKey)
  unfolding is_listed
  to_reconnect [] peers = []
  to_reconnect (c ∷ cs) peers =
      let rest = to_reconnect cs peers in
      if is_listed c.counterparty_node_id peers then rest else c.counterparty_node_id ∷ rest

  -- main.rs: the attempts of one round of the task
  unfoldable pub reconnect_round :
      List (L.PublicKey) → List (L.PublicKey × L.SocketAddr) → List (L.PublicKey × L.SocketAddr)
  unfolding addresses_of
  reconnect_round [] info = []
  reconnect_round (key ∷ keys) info =
      map (λ a. (key, a)) (addresses_of key info) ++ reconnect_round keys info
