-- ===== src/Wiring/Seed.antt =====
-- src/main.rs, `start_ldk`: the network check, and the seed of the node's keys in the file `keys_seed`.
use yuv_lightning_ldk_sample.Prelude.{
  ◌≡◌, Bool, Option, List, none, some, ◌∷◌, true, length, [], ◌≢◌, false, if◌then◌else◌, All, ◌==◌,
  map, refl, arith,
}
use yuv_lightning_ldk_sample.Prelude.Text.{Bytes, codes, equal}
use yuv_lightning_ldk_sample.Payments.{Network}

-- what bitcoind calls a network
unfoldable pub chain_name : Network → Bytes
chain_name Network.bitcoin = codes "main"
chain_name Network.testnet = codes "test"
chain_name Network.regtest = codes "regtest"
chain_name Network.signet = codes "signet"
chain_name Network.other = codes "unknown"

-- the start goes on
unfoldable pub is_expected_chain : Network → Bytes → Bool
is_expected_chain network chain = equal chain (chain_name network)

-- How the seed file is written: it cannot be created, `write_all` or `sync_all` fails with so many
-- bytes in the file, or all is well.
pub data SeedWrite : Type 0 where
  create_fails : SeedWrite
  write_fails : Bytes → SeedWrite
  written : SeedWrite

-- What one start meets: whether a file that is there can be read, 32 random bytes, and the writing.
pub record SeedStart : Type 0 where
  pub readable : Bool
  pub random : Bytes
  pub writing : SeedWrite

-- How it ends: with a seed, with the return of `start_ldk`, or with a panic.
pub data SeedEnd : Type 0 where
  seeded : Bytes → SeedEnd
  gives_up seed_panics : SeedEnd

-- `fs::read`, where any error is the same
unfoldable pub read_seed : Bool → Option Bytes → Option Bytes
read_seed true file = file
read_seed false file = none

unfoldable pub create_seed : Bytes → SeedWrite → Option Bytes → SeedEnd × Option Bytes
create_seed random create_fails file = (gives_up, file)
create_seed random (write_fails part) file = (seed_panics, some part)
create_seed random written file = (seeded random, some random)

abbrev pub seed_from : SeedStart → Option Bytes → Option Bytes → SeedEnd × Option Bytes
seed_from s file (some seed) =
    if length seed == 32 then (seeded seed, file) else (seed_panics, file)
seed_from s file none = create_seed s.random s.writing file

-- Step 4 of `start_ldk`: the end, and the file that is left
unfoldable pub keys_seed : SeedStart → Option Bytes → SeedEnd × Option Bytes
unfolding read_seed create_seed
keys_seed s file = seed_from s file (read_seed s.readable file)

-- starts one after the other, and what each ended with
unfoldable pub run_starts : List SeedStart → Option Bytes → List SeedEnd × Option Bytes
unfolding keys_seed
run_starts [] file = ([], file)
run_starts (s ∷ starts) file =
    let here = keys_seed s file in
    let later = run_starts starts here.1 in (here.0 ∷ later.0, later.1)

abbrev pub IsReadable : SeedStart → Type 0
IsReadable s = s.readable ≡ true

pub keys_seed-whole :
    (s : SeedStart) (seed : Bytes)
    → length seed ≡ 32
    → IsReadable s
    → keys_seed s (some seed) ≡ (seeded seed, some seed)
unfolding keys_seed read_seed
keys_seed-whole s seed size h =
    let whole : (length seed == 32) ≡ true = ground arith in rw (h, whole)

keys_seed-short :
    (s : SeedStart) (seed : Bytes)
    → length seed ≢ 32
    → IsReadable s
    → keys_seed s (some seed) ≡ (seed_panics, some seed)
unfolding keys_seed read_seed
keys_seed-short s seed size h =
    let short : (length seed == 32) ≡ false = ground arith in rw (h, short)

-- starts that all end in the same way and leave the file as it is
run_starts-same :
    (starts : List SeedStart) (seed : Bytes) (e : SeedEnd)
    → ((s : SeedStart) → IsReadable s → keys_seed s (some seed) ≡ (e, some seed))
    → All IsReadable starts
    → run_starts starts (some seed) ≡ (map (λ s. e) starts, some seed)
unfolding run_starts
run_starts-same [] seed e same h = refl
run_starts-same (s ∷ starts) seed e same h = rw (same s h.0, run_starts-same starts seed e same h.1)

-- Let a start find no seed, because there is no file or because it cannot be read, and write its 32
-- random bytes. That start and all later ones that can read the file have this seed, and the file
-- keeps it: a seed that the file held before is gone.
pub run_starts-created :
    (s : SeedStart) (later : List SeedStart) (file : Option Bytes)
    → read_seed s.readable file ≡ none
    → s.writing ≡ written
    → length s.random ≡ 32
    → All IsReadable later
    → run_starts (s ∷ later) file ≡ (map (λ t. seeded s.random) (s ∷ later), some s.random)
unfolding run_starts keys_seed create_seed
run_starts-created s later file absent ok size h = rw (
  absent,
  ok,
  run_starts-same later s.random (seeded s.random) (λ t r. keys_seed-whole t s.random size r) h,
)

-- Let a start find no seed, create the file, and fail in writing it, with another number of bytes
-- than 32 in it. Then this start and all later ones that can read the file panic.
pub run_starts-broken :
    (s : SeedStart) (later : List SeedStart) (file : Option Bytes) (part : Bytes)
    → read_seed s.readable file ≡ none
    → s.writing ≡ write_fails part
    → length part ≢ 32
    → All IsReadable later
    → run_starts (s ∷ later) file ≡ (map (λ t. seed_panics) (s ∷ later), some part)
unfolding run_starts keys_seed create_seed
run_starts-broken s later file part absent failing size h = rw (
  absent,
  failing,
  run_starts-same later part seed_panics (λ t r. keys_seed-short t part size r) h,
)
