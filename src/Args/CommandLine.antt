-- ===== src/Args/CommandLine.antt =====
-- Command lines that `parse_startup_args` accepts, and some that it does not.
use yuv_lightning_ldk_sample.Prelude.{
  ℕ, ◌++◌, leb, List, ◌≡◌, ◌∷◌, ◌≤◌, All, length, ◌-◌, true, some, [], ◌≢◌, map, refl, arith, ltb,
  All-append, false, none,
}
use yuv_lightning_ldk_sample.Prelude.Text.{equal, Bytes, codes, Lacks, equal_iff}
use yuv_lightning_ldk_sample.Payments.{Network}
use yuv_lightning_ldk_sample.Args.Credentials.{System}
use yuv_lightning_ldk_sample.Args.{
  peer_port, listen_addrs, take_network, LdkUserInfo, node_name, rpc_info_parts, parse_startup_args,
  rpc_path, zeros, network_of, split, parse_rest, max_u16, equal, rpc_auth, accepts, parse_unsigned,
  aborts,
}
use yuv_lightning_ldk_sample.Prelude.Decimal.{decimal, IsDigit, parse_unsigned-decimal, decimal-All}
use yuv_lightning_ldk_sample.Prelude.Splitting.{rsplit_once-append, split-pair}
use yuv_lightning_ldk_sample.Args.Reading.{parse_rpc_auth_iff}

digits-Lacks : (c : ℕ) (s : Bytes) → leb 58 c ≡ true → All IsDigit s → Lacks c s
digits-Lacks c [] above h = tt
digits-Lacks c (d ∷ s) above h = (ground (arith, h.0), digits-Lacks c s above h.1)

-- What is written on a command line.
pub record CommandLine (P S : Type 0) : Type 0 where
  pub username : Bytes
  pub password : Bytes
  pub host : Bytes
  pub port : ℕ
  pub dir : Bytes
  pub key : P
  pub listening_port : ℕ
  pub net : Network
  pub alias : Bytes
  pub url : Bytes
  pub addrs : List S

-- A name of a network that is supported.
unfoldable pub network_text : Network → Bytes
network_text Network.testnet = codes "testnet"
network_text Network.regtest = codes "regtest"
network_text net = codes "signet"

abbrev pub path_text : Bytes → ℕ → Bytes
path_text host port = host ++ b':' ∷ decimal port

abbrev pub auth_text : Bytes → Bytes → Bytes
auth_text u p = u ++ b':' ∷ p

module _ {P S : Type 0} (sys : System P S) (key_text : P → Bytes) (address_text : S → Bytes) where
  -- The text of a command line can be taken apart again.
  pub record IsWritable (line : CommandLine P S) : Type 0 where
    pub username_plain : Lacks b':' line.username
    pub password_plain : Lacks b':' line.password
    pub host_plain : Lacks b':' line.host × Lacks b'@' line.host
    pub ports_fit : (line.port ≤ max_u16) × (line.listening_port ≤ max_u16)
    pub key_reads : sys.private_key_from_str (key_text line.key) ≡ some line.key
    pub addrs_read : All (λ a. sys.socket_address_from_str (address_text a) ≡ some a) line.addrs
    pub supported : (line.net ≢ Network.bitcoin) × (line.net ≢ Network.other)
    pub alias_short : length line.alias ≤ 32

  unfoldable pub written : Bytes → CommandLine P S → List Bytes
  unfolding network_text
  written program line =
      program
      ∷ (auth_text line.username line.password ++ b'@' ∷ path_text line.host line.port)
      ∷ line.dir
      ∷ key_text line.key
      ∷ decimal line.listening_port
      ∷ network_text line.net
      ∷ line.alias
      ∷ line.url
      ∷ map address_text line.addrs

  abbrev pub info_of : CommandLine P S → LdkUserInfo P S
  info_of line = record {
    bitcoind_rpc_username = line.username;
    bitcoind_rpc_password = line.password;
    bitcoind_rpc_port = line.port;
    private_key = line.key;
    bitcoind_rpc_host = line.host;
    ldk_storage_dir_path = line.dir;
    ldk_peer_listening_port = line.listening_port;
    ldk_announced_listen_addr = line.addrs;
    ldk_announced_node_name = line.alias ++ zeros (32 - length line.alias);
    network = line.net;
    yuv_rpc_url = some line.url;
  }

  listen_addrs-map :
      (addrs : List S)
      → All (λ a. sys.socket_address_from_str (address_text a) ≡ some a) addrs
      → listen_addrs sys (map address_text addrs) ≡ addrs
  unfolding listen_addrs
  listen_addrs-map [] h = refl
  listen_addrs-map (a ∷ addrs) h = rw (h.0, listen_addrs-map addrs h.1)

  take_network-text :
      (net : Network) (rest : List Bytes)
      → net ≢ Network.bitcoin
      → net ≢ Network.other
      → take_network (network_text net ∷ rest) ≡ ([], accepts (net, rest))
  unfolding take_network network_of network_text equal
  take_network-text Network.bitcoin rest h k = absurd (h refl)
  take_network-text Network.testnet rest h k = refl
  take_network-text Network.regtest rest h k = refl
  take_network-text Network.signet rest h k = refl
  take_network-text Network.other rest h k = absurd (k refl)

  peer_port-decimal :
      (n : ℕ) (rest : List Bytes) → n ≤ max_u16 → peer_port (decimal n ∷ rest) ≡ (n, rest)
  unfolding peer_port
  peer_port-decimal n rest fits = rw (parse_unsigned-decimal max_u16 n fits)

  node_name-short :
      (s : Bytes) (rest : List Bytes)
      → length s ≤ 32
      → node_name (s ∷ rest) ≡ ([], accepts (s ++ zeros (32 - length s), rest))
  unfolding node_name
  node_name-short s rest short = let no : ltb 32 (length s) ≡ false = ground arith in rw no

  rpc_info_parts-written :
      (auth host : Bytes) (port : ℕ)
      → Lacks b'@' host
      → rpc_info_parts (auth ++ b'@' ∷ path_text host port) ≡ (some auth, path_text host port)
  unfolding rpc_info_parts
  rpc_info_parts-written auth host port plain = rw (
      rsplit_once-append b'@' auth (path_text host port) (
        All-append _ host (b':' ∷ decimal port) plain
          (ground arith, digits-Lacks b'@' (decimal port) refl (decimal-All port))))

  rpc_path-written :
      (host : Bytes) (port : ℕ)
      → Lacks b':' host
      → rpc_path (split b':' (path_text host port)) ≡ ([], accepts (host, decimal port))
  unfolding rpc_path
  rpc_path-written host port plain = rw (
      split-pair b':' host (decimal port) plain
        (digits-Lacks b':' (decimal port) refl (decimal-All port)))

  -- A command line that names credentials, a host and a port, a directory, a private key, a listening
  -- port, one of the three networks, an alias of 32 bytes at most, the URL of a YUV node and
  -- addresses, in this order, is taken for exactly these, and nothing is printed: if name, password
  -- and host hold no colon and the host no `@`, if both ports are u16, and if the library reads the
  -- key and the addresses from their texts. The alias is filled up with zeros.
  pub parse_startup_args-written :
      (program : Bytes) (line : CommandLine P S)
      → IsWritable line
      → parse_startup_args sys (written program line) ≡ ([], accepts (info_of line))
  unfolding parse_startup_args written parse_rest rpc_auth
  parse_startup_args-written program line h = rw (
    rpc_info_parts-written (auth_text line.username line.password) line.host line.port
        h.host_plain.1,
    rpc_path-written line.host line.port h.host_plain.0,
    parse_unsigned-decimal max_u16 line.port h.ports_fit.0,
    h.key_reads,
    peer_port-decimal line.listening_port
        (network_text line.net ∷ line.alias ∷ line.url ∷ map address_text line.addrs) h.ports_fit.1,
    take_network-text line.net (line.alias ∷ line.url ∷ map address_text line.addrs) h.supported.0
        h.supported.1,
    (parse_rpc_auth_iff (auth_text line.username line.password) line.username line.password).1
        (refl, h.username_plain, h.password_plain),
    node_name-short line.alias (line.url ∷ map address_text line.addrs) h.alias_short,
    listen_addrs-map line.addrs h.addrs_read,
  )

  network_of-other :
      (word : Bytes)
      → word ≢ codes "testnet"
      → word ≢ codes "regtest"
      → word ≢ codes "signet"
      → network_of word ≡ none
  unfolding network_of
  network_of-other word t r s = ground (
    arith,
    equal_iff word (codes "testnet"),
    equal_iff word (codes "regtest"),
    equal_iff word (codes "signet"),
    t,
    r,
    s,
  )

  -- Behind credentials, a host and a port, a directory and a private key that the library reads, a
  -- word that is no u16 and none of `testnet`, `regtest` and `signet` makes it panic: so does the
  -- name of the main network, and so does a port that is too large.
  pub parse_startup_args_aborts :
      (program auth host dir text word : Bytes) (port : ℕ) (rest : List Bytes) (k : P)
      → Lacks b':' host × Lacks b'@' host
      → port ≤ max_u16
      → sys.private_key_from_str text ≡ some k
      → parse_unsigned max_u16 word ≡ none
      → word ≢ codes "testnet"
      → word ≢ codes "regtest"
      → word ≢ codes "signet"
      → parse_startup_args sys
          (program ∷ (auth ++ b'@' ∷ path_text host port) ∷ dir ∷ text ∷ word ∷ rest)
        ≡ ([], aborts)
  unfolding parse_startup_args parse_rest peer_port take_network
  parse_startup_args_aborts program auth host dir text word port rest k plain fits reads no_port t r
        s =
      rw (
        rpc_info_parts-written auth host port plain.1,
        rpc_path-written host port plain.0,
        parse_unsigned-decimal max_u16 port fits,
        reads,
        no_port,
        network_of-other word t r s,
      )
