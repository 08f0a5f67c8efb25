-- ===== src/Args/Credentials.antt =====
-- src/args.rs: where the user name and the password for bitcoind come from. What is printed is a
-- list of messages.
use yuv_lightning_ldk_sample.Prelude.{
  List, Option, ◌>>=◌, ◌∷◌, some, Bool, [], none, ◌++◌, true, false,
}
use yuv_lightning_ldk_sample.Prelude.Assoc.{Assoc, insert, get}
use yuv_lightning_ldk_sample.Payments.{Network}
use yuv_lightning_ldk_sample.Prelude.Text.{Bytes, codes, split, split_once, lines}

-- What the functions ask of the operating system and of the libraries, for the types of private
-- keys and of socket addresses.
pub record System (P S : Type 0) : Type 0 where
  -- `PrivateKey::from_str` and `SocketAddress::from_str`
  pub private_key_from_str : Bytes → Option P
  pub socket_address_from_str : Bytes → Option S
  -- `env::var` and `fs::read_to_string`
  pub var : Bytes → Option Bytes
  pub read_to_string : Bytes → Option Bytes
  pub home_dir : Option Bytes
  -- `PathBuf::join`
  pub join : Bytes → Bytes → Bytes

-- What is printed; `rpc_auth_help` is the text of `print_rpc_auth_help`.
pub data Message : Type 0 where
  usage bad_rpc_path bad_rpc_auth bad_env_file no_rpc_auth rpc_auth_help : Message

-- A user name and a password.
abbrev pub RpcAuth : Type 0
RpcAuth = Bytes × Bytes

-- What is printed, and a result without a value for its error.
abbrev pub Told : Type 0 → Type 0
Told A = List Message × Option A

abbrev pub rpc_user_key : Bytes
rpc_user_key = codes "RPC_USER"

abbrev pub rpc_password_key : Bytes
rpc_password_key = codes "RPC_PASSWORD"

-- on Linux
abbrev pub default_bitcoin_datadir : Bytes
default_bitcoin_datadir = codes ".bitcoin"

unfoldable pub auth_of_parts : List Bytes → Told RpcAuth
auth_of_parts (username ∷ password ∷ []) = ([], some (username, password))
auth_of_parts parts = (bad_rpc_auth ∷ [], none)

unfoldable pub parse_rpc_auth : Bytes → Told RpcAuth
unfolding auth_of_parts
parse_rpc_auth rpc_auth = auth_of_parts (split b':' rpc_auth)

unfoldable pub network_dir : Option Network → Option Bytes
network_dir (some Network.testnet) = some (codes "testnet3")
network_dir (some Network.regtest) = some (codes "regtest")
network_dir (some Network.signet) = some (codes "signet")
network_dir network = none

-- the lines of an env file, put into a map
abbrev pub put_line :
    (Assoc Bytes → Told (Assoc Bytes)) → Assoc Bytes → Option (Bytes × Bytes) → Told (Assoc Bytes)
put_line go_on m none = (bad_env_file ∷ [], none)
put_line go_on m (some (k, v)) = go_on (insert k v m)

unfoldable pub put_lines : List Bytes → Assoc Bytes → Told (Assoc Bytes)
put_lines [] m = ([], some m)
put_lines (line ∷ rest) m = put_line (put_lines rest) m (split_once b'=' line)

-- the two entries, if both are there
unfoldable pub both_keys : (Bytes → Option Bytes) → Option RpcAuth
both_keys look_up = do
  username ← look_up rpc_user_key
  password ← look_up rpc_password_key
  some (username, password)

abbrev pub keys_of : Told (Assoc Bytes) → Told RpcAuth
keys_of (told, none) = (told, none)
keys_of (told, some m) = (told, both_keys (λ k. get k m))

abbrev pub text_or : Bytes → Option Bytes → Bytes
text_or default none = default
text_or default (some text) = text

-- `a.or(b)`
abbrev pub or_else : Option RpcAuth → Option RpcAuth → Option RpcAuth
or_else none b = b
or_else (some a) b = some a

module _ {P S : Type 0} (sys : System P S) where
  -- a directory, and whether it is below the home directory
  unfoldable pub data_dir_path : Option (Bytes × Bool) → Option Bytes
  data_dir_path (some (dir, true)) = do home ← sys.home_dir; some (sys.join home dir)
  data_dir_path (some (dir, false)) = some dir
  data_dir_path none = do home ← sys.home_dir; some (sys.join home default_bitcoin_datadir)

  unfoldable pub in_network_dir : Bytes → Option Bytes → Bytes
  in_network_dir path none = path
  in_network_dir path (some dir) = sys.join path dir

  unfoldable pub get_cookie_path :
      Option (Bytes × Bool) → Option Network → Option Bytes → Option Bytes
  unfolding data_dir_path in_network_dir network_dir
  get_cookie_path data_dir network cookie_file_name = do
    path ← data_dir_path data_dir
    some (
        sys.join (in_network_dir path (network_dir network))
          (text_or (codes ".cookie") cookie_file_name))

  abbrev pub told_of : Option Bytes → Told RpcAuth
  told_of none = ([], none)
  told_of (some cookie) = parse_rpc_auth cookie

  unfoldable pub get_rpc_auth_from_cookie :
      Option (Bytes × Bool) → Option Network → Option Bytes → Told RpcAuth
  unfolding get_cookie_path
  get_rpc_auth_from_cookie data_dir network cookie_file_name =
      told_of (get_cookie_path data_dir network cookie_file_name >>= sys.read_to_string)

  unfoldable pub get_rpc_auth_from_env_vars : Option RpcAuth
  unfolding both_keys
  get_rpc_auth_from_env_vars = both_keys sys.var

  abbrev pub lines_of : Option Bytes → Told (Assoc Bytes)
  lines_of none = ([], none)
  lines_of (some contents) = put_lines (lines contents) []

  unfoldable pub parse_env_file : Option Bytes → Told (Assoc Bytes)
  unfolding put_lines
  parse_env_file env_file_name =
      lines_of (sys.read_to_string (text_or (codes ".env") env_file_name))

  unfoldable pub get_rpc_auth_from_env_file : Option Bytes → Told RpcAuth
  unfolding parse_env_file both_keys
  get_rpc_auth_from_env_file env_file_name = keys_of (parse_env_file env_file_name)

  -- the chain of `or` in `parse_startup_args`: each argument of an `or` is evaluated before its call,
  -- also the block that prints
  unfoldable pub default_rpc_auth : Network → Told RpcAuth
  unfolding get_rpc_auth_from_env_vars get_rpc_auth_from_env_file get_rpc_auth_from_cookie
  default_rpc_auth network =
      let file = get_rpc_auth_from_env_file none in
      let cookie = get_rpc_auth_from_cookie none (some network) none in
      (
        file.0 ++ (cookie.0 ++ (no_rpc_auth ∷ rpc_auth_help ∷ [])),
        or_else (or_else (or_else get_rpc_auth_from_env_vars file.1) cookie.1) none,
      )
