-- ===== src/Sweep.antt =====
-- src/sweep.rs: one round of `periodic_sweep`, over the three directories that it works on, and the
-- calls of src/yuv_client.rs that it makes. A directory that is not there is `none`; `read_dir` lists
-- its files in the order of the list, where a new file comes last. The order of a real directory may
-- be another one, which only changes the order of the descriptors in a batch. A round in which the
-- wallet gives no key for the change does the same as one in which the library does not spend.
pub mod Reading
pub mod Finishing
pub mod Gather
pub mod Claims
pub mod Handover
pub mod Steps
pub mod Kept
pub mod Sound
pub mod Crashes
pub mod Restarts
use yuv_lightning_ldk_sample.Prelude.{
  ℕ, ◌∷◌, Option, List, if◌then◌else◌, ◌++◌, [], none, Bool, suc, some, Outcome, zero, length,
  is_empty, returns, panics, ◌==◌,
}
use yuv_lightning_ldk_sample.Prelude.Assoc.{Assoc, insert}
use yuv_lightning_ldk_sample.Prelude.Text.{Bytes, equal}

pub record Dirs : Type 0 where
  pub pending : Option (Assoc Bytes)
  pub processing : Option (Assoc Bytes)
  pub spendable : Option (Assoc Bytes)

abbrev pub files_of : Option (Assoc Bytes) → Assoc Bytes
files_of none = []
files_of (some files) = files

-- the file at a name goes away
unfoldable pub remove : Bytes → Assoc Bytes → Assoc Bytes
remove name [] = []
remove name ((n, c) ∷ files) = if equal n name then files else (n, c) ∷ remove name files

-- Only the names of 32 bytes in hexadecimal are moved; others may be temporary files.
unfoldable pub move_file : Bytes → Bytes → Dirs → Dirs
unfolding remove
move_file name content d =
    if length name == 64
    then record d {
      pending = some (remove name (files_of d.pending));
      processing = some (insert name content (files_of d.processing));
    }
    else d

-- the loop over the files that were listed
unfoldable pub move_files : Assoc Bytes → Dirs → Dirs
unfolding move_file
move_files [] d = d
move_files ((name, content) ∷ listed) d = move_files listed (move_file name content d)

-- the contents of the files, one behind the other
unfoldable pub contents : Assoc Bytes → Bytes
contents [] = []
contents ((name, content) ∷ files) = content ++ contents files

-- `persister.write("spendable_outputs", "", key, bytes)` and `remove_dir_all` of the other directory
unfoldable pub batch : Bytes → Dirs → Dirs
unfolding contents
batch key d = if is_empty (contents (files_of d.processing)) then d else record d {
  spendable = some (insert key (contents (files_of d.processing)) (files_of d.spendable));
  processing = none;
}

abbrev pub gather_listed : Bytes → Option (Assoc Bytes) → Dirs → Dirs
gather_listed key none d = d
gather_listed key (some listed) d = batch key (move_files listed d)

-- the first half of a round; `key` is the text of 32 random bytes
unfoldable pub gather : Bytes → Dirs → Dirs
unfolding move_files batch
gather key d = gather_listed key d.pending d

-- What a file holds: descriptors, or bytes that are none.
pub data Decoded (D : Type 0) : Type 0 where
  descriptors : List D → Decoded D
  malformed : Decoded D
  out_of_fuel : Decoded D

-- yuv_rpc_api: `EmulateYuvTransactionResponse`, or an error of the call
pub data EmulateResponse : Type 0 where
  valid_transaction : EmulateResponse
  invalid_transaction : Bytes → EmulateResponse
  emulate_failed : EmulateResponse

-- yuv_client.rs: `emulate_yuv_transaction`, the reason against a transaction. A call that fails
-- gives none.
unfoldable pub emulate_yuv_transaction : EmulateResponse → Option Bytes
emulate_yuv_transaction valid_transaction = none
emulate_yuv_transaction (invalid_transaction reason) = some reason
emulate_yuv_transaction emulate_failed = none

-- What the round asks of the libraries. `D` is `SpendableOutputDescriptor` and `T` is
-- `YuvTransaction`.
pub record SweepApi (D T : Type 0) : Type 0 where
  -- `Readable::read`: a descriptor and the bytes behind it
  pub read_descriptor : Bytes → Option (D × Bytes)
  -- `Writeable::encode`
  pub encode_descriptor : D → Bytes
  -- `spend_yuv_spendable_outputs` with the fee rate, the keys and the lock time of the round
  pub spend : List D → Option (List T)
  -- the answer of the YUV node
  pub emulate : T → EmulateResponse
  -- whether a YUV client is configured
  pub has_yuv_client : Bool

-- The two broadcasts for one transaction, in their order.
pub data Broadcast (T : Type 0) : Type 0 where
  yuv_proofs : T → Broadcast T
  bitcoin_transaction : T → Broadcast T

module _ {D T : Type 0} (api : SweepApi D T) where
  abbrev pub push_descriptor : D → Decoded D → Decoded D
  push_descriptor d (descriptors ds) = descriptors (d ∷ ds)
  push_descriptor d malformed = malformed
  push_descriptor d out_of_fuel = out_of_fuel

  -- one `Readable::read(…).unwrap()`, and the rest of the loop
  abbrev pub read_next : (Bytes → Decoded D) → Option (D × Bytes) → Decoded D
  read_next go_on none = malformed
  read_next go_on (some (d, rest)) = push_descriptor d (go_on rest)

  -- the loop that reads descriptors until the end of the file
  unfoldable pub read_file : ℕ → Bytes → Decoded D
  read_file zero bytes = out_of_fuel
  read_file (suc fuel) [] = descriptors []
  read_file (suc fuel) (b ∷ bytes) = read_next (read_file fuel) (api.read_descriptor (b ∷ bytes))

  abbrev pub broadcasts_unless : Option Bytes → T → List (Broadcast T)
  broadcasts_unless (some reason) tx = []
  broadcasts_unless none tx = yuv_proofs tx ∷ bitcoin_transaction tx ∷ []

  -- what is broadcast of one transaction: nothing if the YUV node finds it invalid
  unfoldable pub broadcasts_of : T → List (Broadcast T)
  broadcasts_of tx = broadcasts_unless (emulate_yuv_transaction (api.emulate tx)) tx

  -- the loop over the transactions of one set of outputs
  unfoldable pub broadcast_all :
      List T → List (Broadcast T) → List (Broadcast T) × Outcome (Unit {0})
  broadcast_all [] sent = (sent, returns tt)
  broadcast_all (tx ∷ txs) sent =
      if api.has_yuv_client then broadcast_all txs (sent ++ broadcasts_of tx) else (sent, panics)

  -- `match keys_manager.spend_yuv_spendable_outputs(…)`
  unfoldable pub claim_set :
      Option (List T) → List (Broadcast T) → List (Broadcast T) × Outcome (Unit {0})
  unfolding broadcast_all
  claim_set none sent = (sent, returns tt)
  claim_set (some txs) sent = broadcast_all txs sent

  -- one file of the directory; a file that cannot be read panics
  unfoldable pub claim_decoded :
      Decoded D → List (Broadcast T) → List (Broadcast T) × Outcome (Unit {0})
  unfolding claim_set
  claim_decoded (descriptors ds) sent = claim_set (api.spend ds) sent
  claim_decoded malformed sent = (sent, panics)
  claim_decoded out_of_fuel sent = (sent, panics)

  abbrev pub and_then :
      (List (Broadcast T) → List (Broadcast T) × Outcome (Unit {0}))
      → List (Broadcast T) × Outcome (Unit {0})
      → List (Broadcast T) × Outcome (Unit {0})
  and_then go_on (sent, returns u) = go_on sent
  and_then go_on (sent, panics) = (sent, panics)

  -- `fs::remove_dir_all(&spendables_dir)`, if the loop did not panic
  abbrev pub finish :
      Dirs
      → List (Broadcast T) × Outcome (Unit {0})
      → Dirs × List (Broadcast T) × Outcome (Unit {0})
  finish d (sent, returns u) = (record d { spendable = none }, sent, returns u)
  finish d (sent, panics) = (d, sent, panics)

  -- the loop over the files; a file of n bytes is read with fuel n + 1
  unfoldable pub claim_files :
      Assoc Bytes → List (Broadcast T) → List (Broadcast T) × Outcome (Unit {0})
  unfolding claim_decoded
  claim_files [] sent = (sent, returns tt)
  claim_files ((name, bytes) ∷ files) sent =
      and_then (claim_files files) (claim_decoded (read_file (suc (length bytes)) bytes) sent)

  abbrev pub claim_listed :
      Option (Assoc Bytes)
      → Dirs
      → List (Broadcast T)
      → Dirs × List (Broadcast T) × Outcome (Unit {0})
  claim_listed none d sent = (d, sent, returns tt)
  claim_listed (some files) d sent = finish d (claim_files files sent)

  -- the second half of a round: the directory is removed when every file has had its turn
  unfoldable pub claim_all :
      Dirs → List (Broadcast T) → Dirs × List (Broadcast T) × Outcome (Unit {0})
  unfolding claim_files
  claim_all d sent = claim_listed d.spendable d sent

  -- a round: the directories, the broadcasts, and whether it panicked
  unfoldable pub sweep_round : Bytes → Dirs → Dirs × List (Broadcast T) × Outcome (Unit {0})
  unfolding gather claim_all
  sweep_round key d = claim_all (gather key d) []
