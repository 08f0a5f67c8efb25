-- ===== src/Wiring/Restart.antt =====
-- src/main.rs, `start_ldk`: a node that starts again after it has run, and a start that fails.
use yuv_lightning_ldk_sample.Prelude.{
  Option, ◌≡◌, some, length, ◌∙◌, true, List, refl, returns, subst, ap,
}
use yuv_lightning_ldk_sample.Node.{Ldk, World, PaymentInfoStorage}
use yuv_lightning_ldk_sample.Wiring.Seed.{keys_seed, SeedEnd, keys_seed-whole}
use yuv_lightning_ldk_sample.Payments.{PaymentApi}
use yuv_lightning_ldk_sample.Prelude.Text.{Bytes}
use yuv_lightning_ldk_sample.Prelude.Assoc.{get, Assoc}
use yuv_lightning_ldk_sample.Wiring.Start.{
  seed_fname, Running, StartAnswers, start_ldk, goes_on, start_seeded, start_connected,
  start_loaded, with_seed, connect, load_running, of_seed, read_channels,
}
use yuv_lightning_ldk_sample.Args.Credentials.{System}
use yuv_lightning_ldk_sample.Convert.{JsonApi}
use yuv_lightning_ldk_sample.Args.{LdkUserInfo}
use yuv_lightning_ldk_sample.Payments.Durable.{IsDurable}
use yuv_lightning_ldk_sample.Wiring.Tasks.{StartedChannels}
use yuv_lightning_ldk_sample.Startup.{load_payments, recent_hashes, settle_all}
use yuv_lightning_ldk_sample.Startup.Recovery.{load_payments-IsDurable}
use yuv_lightning_ldk_sample.Peers.{PeerApi}
use yuv_lightning_ldk_sample.Cli.Words.{CliApi}
use yuv_lightning_ldk_sample.Cli.Listing.{PrintApi}
use yuv_lightning_ldk_sample.Cli.Loop.Inputs.{Input, run_inputs, run_inputs-Survives}
use yuv_lightning_ldk_sample.Wiring.Started.{
  Holds, seed-Survives, SurvivesLines-IsDurable, insert-same, IsStarted, StartedEnd,
  start_ldk-Started,
}

module _ {L : Ldk} {P S H C M : Type 0} (api : PaymentApi L) (sys : System P S) (J : JsonApi)
    (decode-encode : (s : PaymentInfoStorage L) → api.decode (api.encode s) ≡ some s) where
  -- a start whose parts are given
  pub start_ldk-goes_on :
      (args : List Bytes) (a : StartAnswers L J H C M) (files : Assoc Bytes)
      (info : LdkUserInfo P S) (keys : Bytes) (channels : StartedChannels H C M) (w : World L)
      → connect api sys J args a ≡ goes_on info
      → get seed_fname files ≡ some keys
      → length keys ≡ 32
      → a.seed.readable ≡ true
      → read_channels api sys J a ≡ goes_on channels
      → load_payments api (a.recent channels.manager) (a.user_config info.yuv_rpc_url) files
        ≡ returns w
      → start_ldk api sys J args a files
        ≡ (w.store, goes_on (record { info = info; keys = keys; channels = channels; world = w }))
  unfolding start_ldk
  start_ldk-goes_on args a files info keys channels w connected saved size readable chans loaded =
      ap (start_connected api sys J a files) connected
      ∙ ap
          (λ f.
            start_seeded api sys J a info (with_seed (keys_seed a.seed f).1 files)
              (of_seed (keys_seed a.seed f).0))
          saved
      ∙ ap
          (λ (e : SeedEnd × Option Bytes).
            start_seeded api sys J a info (with_seed e.1 files) (of_seed e.0))
          (keys_seed-whole a.seed keys size readable)
      ∙ ap (λ f. start_loaded api sys J a info keys f (read_channels api sys J a))
          (insert-same seed_fname keys files saved)
      ∙ ap (start_loaded api sys J a info keys files) chans
      ∙ ap (load_running api sys J info keys channels files) loaded

module _ {L : Ldk} {P S H C M : Type 0} (api : PaymentApi L) (sys : System P S) (J : JsonApi)
    (decode-encode : (s : PaymentInfoStorage L) → api.decode (api.encode s) ≡ some s)
    (peer : PeerApi L) (cli : CliApi L) (print : PrintApi L) where
  -- A node that runs, on the network of its arguments.
  abbrev pub run_node : List (Input L) → Running L P S H C M → World L
  run_node inputs r = run_inputs api peer cli print r.info.network inputs r.world

  -- Let a start come to a running node, and let the reader of the payment files read back what the
  -- writer wrote. Whatever lines are entered at the prompt and whatever events the node handles then,
  -- up to the end of the program, with whatever answers: a later start on the files that it leaves,
  -- with any arguments and answers with which it comes through, comes to a running node with the same
  -- keys, the same invoices, and the outgoing payments as they are once settled. That start comes
  -- through if it is connected, reads the seed file, has its channels, and if no recent payment awaits
  -- its invoice. The first start has 32 random bytes.
  pub start_ldk-restarts :
      (args : List Bytes) (a : StartAnswers L J H C M) (files before : Assoc Bytes)
      (r : Running L P S H C M) (inputs : List (Input L)) (args' : List Bytes)
      (a' : StartAnswers L J H C M) (info : LdkUserInfo P S) (channels : StartedChannels H C M)
      (hashes : List Bytes)
      → length a.seed.random ≡ 32
      → start_ldk api sys J args a before ≡ (files, goes_on r)
      → connect api sys J args' a' ≡ goes_on info
      → a'.seed.readable ≡ true
      → read_channels api sys J a' ≡ goes_on channels
      → recent_hashes (a'.recent channels.manager) ≡ returns hashes
      → (r' : Running L P S H C M) × ((start_ldk api sys J args' a' (run_node inputs r).store).1
          ≡ goes_on r')
        × (r'.keys ≡ r.keys)
        × (r'.world.inbound ≡ (run_node inputs r).inbound)
        × (r'.world.outbound ≡ settle_all hashes (run_node inputs r).outbound)
  start_ldk-restarts args a files before r inputs args' a' info channels hashes size first connected
        readable chans recent =
      let h : IsStarted api sys J decode-encode r files =
        subst (StartedEnd api sys J decode-encode) first
          (start_ldk-Started api sys J decode-encode args a before size) in
      let survives = run_inputs-Survives api peer cli print r.info.network in
      let saved =
        survives (Holds api seed_fname r.keys) (seed-Survives api r.keys) inputs r.world
          (ap (get seed_fname) h.stored ∙ h.keys_saved) in
      let durable =
        survives (IsDurable api) (SurvivesLines-IsDurable api decode-encode) inputs r.world
          h.durable in
      let (w, loaded, inbound, outbound, durable') =
        load_payments-IsDurable api decode-encode (run_node inputs r) (a'.recent channels.manager)
          hashes (a'.user_config info.yuv_rpc_url) durable recent in
      (
        record { info = info; keys = r.keys; channels = channels; world = w },
        ap (λ e. e.1)
            (start_ldk-goes_on api sys J decode-encode args' a' (run_node inputs r).store info
              r.keys channels w connected saved h.whole readable chans loaded),
        refl,
        inbound,
        outbound,
      )
