-- ===== src/Tests/Starting.antt =====
-- Command lines and env files at concrete inputs.
use yuv_lightning_ldk_sample.Payments.{Network}
use yuv_lightning_ldk_sample.Prelude.{
  ℕ, List, All, Option, some, if◌then◌else◌, ◌∷◌, ◌≡◌, arith, ◌++◌, none, [], map, true, refl,
}
use yuv_lightning_ldk_sample.Args.CommandLine.{
  CommandLine, IsWritable, written, info_of, parse_startup_args-written,
}
use yuv_lightning_ldk_sample.Args.Credentials.{both_keys, System, get_rpc_auth_from_env_file}
use yuv_lightning_ldk_sample.Args.{parse_startup_args, accepts, LdkUserInfo}
use yuv_lightning_ldk_sample.Prelude.Text.{Bytes, codes, equal, Lacks}
use yuv_lightning_ldk_sample.Args.Reading.{
  last_value, IsEntry, entry_line, get_rpc_auth_from_env_file_reads,
}
use yuv_lightning_ldk_sample.Tests.Peering.{all_differ, all_differ-Lacks}
use yuv_lightning_ldk_sample.Prelude.Lines.{text_of}

abbrev only_at : Bytes → Bytes → Bytes → Option Bytes
only_at place content path = if equal path place then some content else none

-- keys and addresses are texts; the env file names both credentials, and the name twice
abbrev env_entries : List (Bytes × Bytes)
env_entries =
    (codes "RPC_USER", codes "old")
    ∷ (codes "RPC_PASSWORD", codes "a=b")
    ∷ (codes "RPC_USER", codes "joe")
    ∷ []

abbrev pub sample_system : System Bytes Bytes
sample_system = record {
  private_key_from_str = λ text. some text;
  socket_address_from_str = λ text. some text;
  var = λ name. some name;
  read_to_string = only_at (codes ".env") (text_of (map entry_line env_entries));
  home_dir = some (codes "/home/joe");
  join = λ a b. a ++ b'/' ∷ b;
}

lacks : (c : ℕ) (s : Bytes) → all_differ c s ≡ true → Lacks c s
lacks = all_differ-Lacks

env_entries-IsEntry : All IsEntry env_entries
env_entries-IsEntry = (
  (lacks b'=' (codes "RPC_USER") refl, (lacks b'\n' (codes "RPC_USER=old") refl, refl)),
  (
    (lacks b'=' (codes "RPC_PASSWORD") refl, (lacks b'\n' (codes "RPC_PASSWORD=a=b") refl, refl)),
    ((lacks b'=' (codes "RPC_USER") refl, (lacks b'\n' (codes "RPC_USER=joe") refl, refl)), tt),
  ),
)

get_rpc_auth_from_env_file_reads_example :
    get_rpc_auth_from_env_file sample_system none ≡ ([], some (codes "joe", codes "a=b"))
unfolding both_keys last_value equal
get_rpc_auth_from_env_file_reads_example =
    get_rpc_auth_from_env_file_reads sample_system env_entries env_entries-IsEntry refl

abbrev pub sample_line : CommandLine Bytes Bytes
sample_line = record {
  username = codes "joe@home";
  password = codes "pw";
  host = codes "localhost";
  port = 18443;
  dir = codes "./data";
  key = codes "cVt4o7BGAig1UXywgGSmARhxMdzP5qvQsxKkSsc1XEkw3tDTQFpy";
  listening_port = 9736;
  net = Network.regtest;
  alias = codes "node";
  url = codes "http://127.0.0.1:18333";
  addrs = codes "127.0.0.1:9736" ∷ [];
}

abbrev pub same_text : Bytes → Bytes
same_text t = t

pub sample_line-IsWritable : IsWritable sample_system same_text same_text sample_line
sample_line-IsWritable = record {
  username_plain = lacks b':' (codes "joe@home") refl;
  password_plain = lacks b':' (codes "pw") refl;
  host_plain = (lacks b':' (codes "localhost") refl, lacks b'@' (codes "localhost") refl);
  ports_fit = (omega arith, omega arith);
  key_reads = refl;
  addrs_read = (refl, tt);
  supported = (λ e. ground arith, λ e. ground arith);
  alias_short = omega arith;
}

abbrev pub sample_args : List Bytes
sample_args = written sample_system same_text same_text (codes "node") sample_line

abbrev pub sample_info : LdkUserInfo Bytes Bytes
sample_info = info_of sample_system same_text same_text sample_line

pub sample_args-info : parse_startup_args sample_system sample_args ≡ ([], accepts sample_info)
sample_args-info =
    parse_startup_args-written sample_system same_text same_text (codes "node") sample_line
      sample_line-IsWritable

parse_startup_args-written_example :
    parse_startup_args sample_system
      (written sample_system same_text same_text (codes "node") sample_line)
    ≡ ([], accepts (info_of sample_system same_text same_text sample_line))
parse_startup_args-written_example =
    parse_startup_args-written sample_system same_text same_text (codes "node") sample_line
      sample_line-IsWritable
