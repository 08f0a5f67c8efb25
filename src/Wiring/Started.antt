-- ===== src/Wiring/Started.antt =====
-- src/main.rs, `start_ldk`: what holds of a node that a start has made.
use yuv_lightning_ldk_sample.Prelude.{
  [], ◌∷◌, Option, ◌≡◌, some, length, ◌∙◌, Bool-cases, Bool, true, ◌==◌, inl, false, arith, inr,
  some_eq, List, none, refl, Outcome, returns, subst, sym, panics, ap,
}
use yuv_lightning_ldk_sample.Node.{
  Ldk, write, World, PaymentInfoStorage, inbound_payments_fname, peer_data_fname,
  outbound_payments_fname,
}
use yuv_lightning_ldk_sample.Wiring.Seed.{
  keys_seed, SeedStart, seeded, SeedEnd, create_seed, seed_from, read_seed, gives_up, SeedWrite,
  seed_panics, write_fails, create_fails, written,
}
use yuv_lightning_ldk_sample.Payments.{PaymentApi}
use yuv_lightning_ldk_sample.Prelude.Text.{Bytes, equal, equal_iff, equal_self}
use yuv_lightning_ldk_sample.Prelude.Assoc.{get, get-insert, insert, Assoc}
use yuv_lightning_ldk_sample.Wiring.Start.{
  seed_fname, Running, Start, StartAnswers, start_ldk, goes_on, start_seeded, start_connected,
  ends_early, start_loaded, with_seed, connect, start_panics, load_running, of_seed, read_channels,
}
use yuv_lightning_ldk_sample.Args.Credentials.{System}
use yuv_lightning_ldk_sample.Convert.{JsonApi}
use yuv_lightning_ldk_sample.Args.{LdkUserInfo}
use yuv_lightning_ldk_sample.Payments.Durable.{IsDurable, IsDurable-Survives, read_other}
use yuv_lightning_ldk_sample.Wiring.Tasks.{StartedChannels}
use yuv_lightning_ldk_sample.Startup.{load_payments, load_with, recent_hashes, started}
use yuv_lightning_ldk_sample.Startup.Recovery.{started-IsDurable}
use yuv_lightning_ldk_sample.Cli.Loop.Surviving.{SurvivesLines}

module _ {L : Ldk} (api : PaymentApi L) where
  -- The file has these bytes.
  abbrev pub Holds : Bytes → Bytes → World L → Type 0
  Holds name bytes w = get name w.store ≡ some bytes

  pub seed-Survives : (seed : Bytes) → SurvivesLines api (Holds seed_fname seed)
  unfolding write equal
  seed-Survives seed = record {
    payments = record {
      saves_outbound = λ m w h. get-insert _ seed_fname _ w.store ∙ h;
      saves_inbound = λ m w h. get-insert _ seed_fname _ w.store ∙ h;
      calls = λ c w h. h;
      stores = λ name bytes w h. get-insert _ seed_fname bytes w.store ∙ h;
    };
    saves_peers = λ text w h. get-insert _ seed_fname text w.store ∙ h;
    configures = λ config w h. h;
  }

  pub SurvivesLines-IsDurable :
      ((s : PaymentInfoStorage L) → api.decode (api.encode s) ≡ some s)
      → SurvivesLines api (IsDurable api)
  unfolding equal
  SurvivesLines-IsDurable decode-encode = record {
    payments = IsDurable-Survives api decode-encode;
    saves_peers = λ text w d. record {
      inbound_saved =
          read_other api decode-encode inbound_payments_fname peer_data_fname text w.store refl
          ∙ d.inbound_saved;
      outbound_saved =
          read_other api decode-encode outbound_payments_fname peer_data_fname text w.store refl
          ∙ d.outbound_saved;
    };
    configures =
        λ config w d. record { inbound_saved = d.inbound_saved; outbound_saved = d.outbound_saved };
  }

-- What the file of the seed has after it is read or made, if there is a seed.
abbrev IsSaved : SeedEnd × Option Bytes → Type 0
IsSaved (seeded seed, file) = (file ≡ some seed) × (length seed ≡ 32)
IsSaved (gives_up, file) = Unit
IsSaved (seed_panics, file) = Unit

create_seed-IsSaved :
    (random : Bytes) (writing : SeedWrite) (file : Option Bytes)
    → length random ≡ 32
    → IsSaved (create_seed random writing file)
unfolding create_seed
create_seed-IsSaved random create_fails file size = tt
create_seed-IsSaved random (write_fails part) file size = tt
create_seed-IsSaved random written file size = (refl, size)

seed_from-IsSaved :
    (s : SeedStart) (file found : Option Bytes)
    → length s.random ≡ 32
    → ((seed : Bytes) → found ≡ some seed → file ≡ some seed)
    → IsSaved (seed_from s file found)
seed_from-IsSaved s file none size there = create_seed-IsSaved s.random s.writing file size
seed_from-IsSaved s file (some seed) size there = elim (Bool-cases (length seed == 32)) [
  | inl whole ↦ rw whole (there seed refl, ground (arith, whole))
  | inr short ↦ rw short tt
]

read_seed-found :
    (readable : Bool) (file : Option Bytes) (seed : Bytes)
    → read_seed readable file ≡ some seed
    → file ≡ some seed
unfolding read_seed
read_seed-found true file seed e = e
read_seed-found false file seed e = cc

keys_seed-IsSaved :
    (s : SeedStart) (file : Option Bytes) → length s.random ≡ 32 → IsSaved (keys_seed s file)
unfolding keys_seed
keys_seed-IsSaved s file size =
    seed_from-IsSaved s file (read_seed s.readable file) size (read_seed-found s.readable file)

-- a file that is written as it is
pub insert-same :
    (name bytes : Bytes) (files : Assoc Bytes)
    → get name files ≡ some bytes
    → insert name bytes files ≡ files
unfolding get insert
insert-same name bytes [] h = cc
insert-same name bytes ((n, b) ∷ files) h = elim (Bool-cases (equal n name)) [
  | inl same ↦
      let e = (equal_iff n name).0 same in
      let f = some_eq (rw same at h) in
      rw same (ap (λ k. (k, bytes) ∷ files) (sym e) ∙ ap (λ v. (n, v) ∷ files) (sym f))
  | inr other ↦ rw other (ap (λ fs. (n, b) ∷ fs) (insert-same name bytes files (rw other at h)))
]

module _ {L : Ldk} {P S H C M : Type 0} (api : PaymentApi L) (sys : System P S) (J : JsonApi)
    (decode-encode : (s : PaymentInfoStorage L) → api.decode (api.encode s) ≡ some s) where
  -- What holds of a node that a start has made, and of its files.
  pub record IsStarted (r : Running L P S H C M) (files : Assoc Bytes) : Type 0 where
    pub keys_saved : get seed_fname files ≡ some r.keys
    pub whole : length r.keys ≡ 32
    pub durable : IsDurable api r.world
    pub stored : r.world.store ≡ files

  abbrev pub StartedEnd : Assoc Bytes × Start (Running L P S H C M) → Type 0
  StartedEnd (files, goes_on r) = IsStarted r files
  StartedEnd (files, ends_early) = Unit
  StartedEnd (files, start_panics) = Unit

  load_running-Started :
      (info : LdkUserInfo P S) (keys : Bytes) (channels : StartedChannels H C M)
      (files : Assoc Bytes) (hashes : Outcome (List Bytes)) (config : L.UserConfig)
      → get seed_fname files ≡ some keys
      → length keys ≡ 32
      → StartedEnd
          (load_running api sys J info keys channels files (load_with api hashes config files))
  load_running-Started info keys channels files panics config saved size = tt
  load_running-Started info keys channels files (returns hashes) config saved size = record {
    keys_saved = started_seed hashes config files keys saved;
    whole = size;
    durable = started-IsDurable api decode-encode hashes config files;
    stored = refl;
  }
    where
      started_seed :
          (hashes : List Bytes) (config : L.UserConfig) (files : Assoc Bytes) (keys : Bytes)
          → get seed_fname files ≡ some keys
          → get seed_fname (started api hashes config files).store ≡ some keys
      started_seed hashes config files keys saved =
          unfold started write equal in get-insert _ seed_fname _ files ∙ saved

  start_loaded-Started :
      (a : StartAnswers L J H C M) (info : LdkUserInfo P S) (keys : Bytes) (files : Assoc Bytes)
      (channels : Start (StartedChannels H C M))
      → get seed_fname files ≡ some keys
      → length keys ≡ 32
      → StartedEnd (start_loaded api sys J a info keys files channels)
  start_loaded-Started a info keys files ends_early saved size = tt
  start_loaded-Started a info keys files start_panics saved size = tt
  start_loaded-Started a info keys files (goes_on channels) saved size =
      unfold load_payments in
      load_running-Started info keys channels files (recent_hashes (a.recent channels.manager))
        (a.user_config info.yuv_rpc_url) saved size

  start_seeded-Started :
      (a : StartAnswers L J H C M) (info : LdkUserInfo P S) (files : Assoc Bytes)
      (end : SeedEnd × Option Bytes)
      → IsSaved end
      → StartedEnd (start_seeded api sys J a info (with_seed end.1 files) (of_seed end.0))
  start_seeded-Started a info files (gives_up, file) saved = tt
  start_seeded-Started a info files (seed_panics, file) saved = tt
  start_seeded-Started a info files (seeded keys, file) saved =
      start_loaded-Started a info keys (with_seed file files) (read_channels api sys J a)
        (subst (λ f. get seed_fname (with_seed f files) ≡ some keys) (sym saved.0)
          (get-insert seed_fname seed_fname keys files ∙ rw equal_self refl))
        saved.1

  start_connected-Started :
      (a : StartAnswers L J H C M) (files : Assoc Bytes) (info : Start (LdkUserInfo P S))
      → length a.seed.random ≡ 32
      → StartedEnd (start_connected api sys J a files info)
  start_connected-Started a files ends_early size = tt
  start_connected-Started a files start_panics size = tt
  start_connected-Started a files (goes_on info) size =
      start_seeded-Started a info files (keys_seed a.seed (get seed_fname files))
        (keys_seed-IsSaved a.seed (get seed_fname files) size)

  pub start_ldk-Started :
      (args : List Bytes) (a : StartAnswers L J H C M) (files : Assoc Bytes)
      → length a.seed.random ≡ 32
      → StartedEnd (start_ldk api sys J args a files)
  unfolding start_ldk
  start_ldk-Started args a files size =
      start_connected-Started a files (connect api sys J args a) size
