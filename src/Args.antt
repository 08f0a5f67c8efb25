-- ===== src/Args.antt =====
-- src/args.rs: `parse_startup_args`, the command line of the program. The arguments are a list with
-- the name of the program in front; where the source counts with `arg_idx`, the model takes from the
-- list what has been read.
pub mod Credentials
pub mod Reading
pub mod CommandLine
use yuv_lightning_ldk_sample.Prelude.{
  ℕ, List, Option, [], some, ◌∷◌, ◌++◌, none, if◌then◌else◌, suc, head?, zero, ltb, length, ◌-◌,
}
use yuv_lightning_ldk_sample.Prelude.Text.{Bytes, rsplit_once, split, equal, codes}
use yuv_lightning_ldk_sample.Args.Credentials.{
  System, Told, Message, bad_rpc_path, RpcAuth, default_rpc_auth, parse_rpc_auth, usage,
}
use yuv_lightning_ldk_sample.Payments.{Network}
use yuv_lightning_ldk_sample.Prelude.Numbers.{parse_unsigned, max_u16}

-- cli.rs: `LdkUserInfo`
pub record LdkUserInfo (P S : Type 0) : Type 0 where
  pub bitcoind_rpc_username : Bytes
  pub bitcoind_rpc_password : Bytes
  pub bitcoind_rpc_port : ℕ
  pub private_key : P
  pub bitcoind_rpc_host : Bytes
  pub ldk_storage_dir_path : Bytes
  pub ldk_peer_listening_port : ℕ
  pub ldk_announced_listen_addr : List S
  pub ldk_announced_node_name : Bytes
  pub network : Network
  pub yuv_rpc_url : Option Bytes

-- How a step of the parsing ends: with a value, with `Err(())`, or with a panic.
pub data Parsed (A : Type 0) : Type 0 where
  accepts : A → Parsed A
  refuses aborts : Parsed A

-- a step, with what it prints
abbrev pub Parse : Type 0 → Type 0
Parse A = List Message × Parsed A

abbrev pub and_after : {A : Type 0} → List Message → Parse A → Parse A
and_after told (more, result) = (told ++ more, result)

infixl 5 ◌>>=◌
abbrev pub ◌>>=◌ : {A B : Type 0} → Parse A → (A → Parse B) → Parse B
(told, accepts a) >>= f = and_after told (f a)
(told, refuses) >>= f = (told, refuses)
(told, aborts) >>= f = (told, aborts)

-- `unwrap`, and `?`
abbrev pub or_abort : {A : Type 0} → Option A → Parse A
or_abort none = ([], aborts)
or_abort (some a) = ([], accepts a)

abbrev pub or_refuse : {A : Type 0} → Told A → Parse A
or_refuse (told, none) = (told, refuses)
or_refuse (told, some a) = (told, accepts a)

-- the host and the port
unfoldable pub rpc_path : List Bytes → Parse (Bytes × Bytes)
rpc_path (host ∷ port ∷ []) = ([], accepts (host, port))
rpc_path parts = (bad_rpc_path ∷ [], refuses)

abbrev pub parts_or_all : Bytes → Option (Bytes × Bytes) → Option Bytes × Bytes
parts_or_all info none = (none, info)
parts_or_all info (some (auth, path)) = (some auth, path)

-- `rsplitn(2, '@')`: what stands before the last `@`, if there is one, and the rest
unfoldable pub rpc_info_parts : Bytes → Option Bytes × Bytes
rpc_info_parts info = parts_or_all info (rsplit_once b'@' info)

abbrev pub port_or_default : List Bytes → Bytes → Option ℕ → ℕ × List Bytes
port_or_default rest word (some port) = (port, rest)
port_or_default rest word none = (9735, word ∷ rest)

-- the listening port, if the next argument is one
unfoldable pub peer_port : List Bytes → ℕ × List Bytes
peer_port [] = (9735, [])
peer_port (word ∷ rest) = port_or_default rest word (parse_unsigned max_u16 word)

unfoldable pub network_of : Bytes → Option Network
network_of word =
    if equal word (codes "testnet")
    then some Network.testnet
    else if equal word (codes "regtest")
    then some Network.regtest
    else if equal word (codes "signet")
    then some Network.signet
    else none

unfoldable pub take_network : List Bytes → Parse (Network × List Bytes)
unfolding network_of
take_network [] = ([], accepts (Network.testnet, []))
take_network (word ∷ rest) = do net ← or_abort (network_of word); ([], accepts (net, rest))

abbrev pub zeros : ℕ → Bytes
zeros zero = []
zeros (suc n) = 0 ∷ zeros n

-- an alias in 32 bytes
unfoldable pub node_name : List Bytes → Parse (Bytes × List Bytes)
node_name [] = ([], accepts (zeros 32, []))
node_name (s ∷ rest) =
    if ltb 32 (length s) then ([], aborts) else ([], accepts (s ++ zeros (32 - length s), rest))

module _ {P S : Type 0} (sys : System P S) where
  unfoldable pub rpc_auth : Network → Option Bytes → Told RpcAuth
  rpc_auth network none = default_rpc_auth sys network
  rpc_auth network (some auth) = parse_rpc_auth auth

  abbrev pub push_address : List S → Option S → List S
  push_address addrs none = []
  push_address addrs (some addr) = addr ∷ addrs

  -- the addresses up to the first argument that is none
  unfoldable pub listen_addrs : List Bytes → List S
  listen_addrs [] = []
  listen_addrs (s ∷ rest) = push_address (listen_addrs rest) (sys.socket_address_from_str s)

  abbrev pub rest_of : List Bytes → List Bytes
  rest_of [] = []
  rest_of (s ∷ rest) = rest

  -- the arguments behind the private key
  unfoldable pub parse_rest :
      Option Bytes → Bytes → ℕ → Bytes → P → List Bytes → Parse (LdkUserInfo P S)
  unfolding peer_port take_network rpc_auth node_name listen_addrs
  parse_rest auth host port dir key args = do
    let listening = peer_port args
    chosen ← take_network listening.1
    credentials ← or_refuse (rpc_auth chosen.0 auth)
    name ← node_name chosen.1
    (
      [],
      accepts (record {
        bitcoind_rpc_username = credentials.0;
        bitcoind_rpc_password = credentials.1;
        bitcoind_rpc_port = port;
        private_key = key;
        bitcoind_rpc_host = host;
        ldk_storage_dir_path = dir;
        ldk_peer_listening_port = listening.0;
        ldk_announced_listen_addr = listen_addrs (rest_of name.1);
        ldk_announced_node_name = name.0;
        network = chosen.0;
        yuv_rpc_url = head? name.1;
      }),
    )

  unfoldable pub parse_startup_args : List Bytes → Parse (LdkUserInfo P S)
  unfolding rpc_info_parts rpc_path parse_rest
  parse_startup_args (program ∷ info ∷ dir ∷ key_text ∷ args) = do
    let parts = rpc_info_parts info
    path ← rpc_path (split b':' parts.1)
    port ← or_abort (parse_unsigned max_u16 path.1)
    key ← or_abort (sys.private_key_from_str key_text)
    parse_rest parts.0 path.0 port dir key args
  parse_startup_args args = (usage ∷ [], refuses)
