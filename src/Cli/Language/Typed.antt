-- ===== src/Cli/Language/Typed.antt =====
-- src/cli.rs: every acting command from its text.
use yuv_lightning_ldk_sample.Prelude.{
  [], ◌∷◌, ◌≡◌, ap, ◌∙◌, refl, is_empty, false, List, leb, ◌+◌, All, length, arith, ◌++◌,
}
use yuv_lightning_ldk_sample.Node.{Ldk, World}
use yuv_lightning_ldk_sample.Payments.{PaymentApi, Network}
use yuv_lightning_ldk_sample.Peers.{PeerApi}
use yuv_lightning_ldk_sample.Cli.Words.{CliApi}
use yuv_lightning_ldk_sample.Cli.Listing.{PrintApi}
use yuv_lightning_ldk_sample.Cli.Commands.{
  sendpayment_with, openchannel_with, getinvoice_with, keysend_with, run_sendpayment,
  run_openchannel, run_keysend, run_getinvoice, CommandAnswers, prompts, after_outcome,
}
use yuv_lightning_ldk_sample.Cli.Loop.{run_line, run_words, dispatch, dispatch_more}
use yuv_lightning_ldk_sample.Cli.Language.{
  Command, IsCommand, typed_text, Bytes, word_of, run_command, args_of, configure, open_to_peer,
  pay, pay_key, keysend, ask_payment, connect_to_peer, disconnect_from_peer, close, close_by_force,
  rebalance, send_onion, leave, sign, IsWord, spaced, codes, call, Call,
}
use yuv_lightning_ldk_sample.Prelude.Text.{equal}
use yuv_lightning_ldk_sample.Prelude.Spaces.{split_whitespace-spaced}
use yuv_lightning_ldk_sample.Cli.Language.Spelling.{word_of-IsWord, args_of-IsWord}
use yuv_lightning_ldk_sample.Cli.Language.Arguments.{
  config_channel-setting_words, open_args-text, send_args-text, keysend_args-text,
  invoice_args-text, channel_args-text, update_args-text, onion_args-text,
}
use yuv_lightning_ldk_sample.Payments.Keysending.{keysend_recorded}
use yuv_lightning_ldk_sample.Cli.ChannelCommands.{
  run_connectpeer, run_disconnectpeer, disconnect_from, run_closechannel, close_with,
  initiate_close, run_forceclosechannel, force_close_with, initiate_force_close, run_updatebalance,
  update_with, initiate_update, run_sendonionmessage, send_onion_with, send_onion_to,
  run_signmessage,
}
use yuv_lightning_ldk_sample.Cli.Language.Reading.{last_key-keys_of_path}
use yuv_lightning_ldk_sample.Prelude.Trimming.{trim-spaced, spaced-ne_nil, drop-append}

long_enough :
    (s : Bytes)
    → is_empty s ≡ false
    → leb (length (codes "signmessage" ++ b' ' ∷ s)) (length (codes "signmessage") + 1) ≡ false
long_enough [] h = absurd (ground (arith, h))
long_enough (c ∷ s) h = ground arith

module _ {L : Ldk} (api : PaymentApi L) (peer : PeerApi L) (cli : CliApi L) (print : PrintApi L)
    (network : Network) (a : CommandAnswers L) (w : World L) where
  run_signmessage-typed :
      (text : Bytes) (words : List Bytes)
      → IsWord text
      → All IsWord words
      → run_signmessage peer cli (spaced (codes "signmessage") (text ∷ words)) w
        ≡ (call (Call.sign_message (spaced text words)) w, prompts)
  unfolding run_signmessage
  run_signmessage-typed text words h hs =
      let message = spaced text words in
      let prefix = codes "signmessage " in
      let trimmed =
        trim-spaced (codes "signmessage") (text ∷ words) (word_of-IsWord {L = L} (sign text words))
          (h, hs) in
      let some_byte = spaced-ne_nil text words h hs in
      rw (trimmed, drop-append prefix message, long_enough message some_byte)

  run_words-args_of :
      (cmd : Command L)
      → IsCommand peer cli cmd
      → run_words api peer cli print network a (typed_text cmd) (word_of cmd ∷ args_of cmd) w
        ≡ run_command api peer cli network a cmd w
  unfolding run_words dispatch dispatch_more equal
  run_words-args_of (configure settings) h =
      ap (λ config. (record w { default_config = config }, prompts))
        (config_channel-setting_words api peer cli settings w.default_config h)
  run_words-args_of (open_to_peer k amt flags) h =
      unfold run_openchannel openchannel_with in
      ap (λ o. openchannel_with api peer cli a o w)
        (open_args-text api peer cli k amt flags h.0 h.1 h.2)
  run_words-args_of (pay text invoice amt) h =
      unfold run_sendpayment sendpayment_with in
      ap (λ o. sendpayment_with api peer cli a o w)
        (send_args-text api peer cli text invoice amt h.1 h.2)
  run_words-args_of (pay_key k amt) h =
      unfold run_keysend keysend_with in
      ap (λ o. keysend_with api peer cli a o w) (keysend_args-text api peer cli k amt h.0 h.1)
      ∙ ap (λ o. ((keysend api a.is_ok a.random k.key amt w).0, after_outcome o))
          (keysend_recorded api a.is_ok a.random k.key amt w).0
  run_words-args_of (ask_payment amt secs pixel) h =
      unfold run_getinvoice getinvoice_with in
      ap (λ o. getinvoice_with api peer cli a network o w)
        (invoice_args-text api peer cli amt secs pixel h.0 h.1 h.2)
  run_words-args_of (connect_to_peer info) h = unfold run_connectpeer in refl
  run_words-args_of (disconnect_from_peer text key) h =
      unfold run_disconnectpeer disconnect_from in ap (λ o. disconnect_from peer cli a o w) h.1
  run_words-args_of (close id k) h =
      unfold run_closechannel close_with initiate_close in
      ap (λ o. close_with peer cli o w) (channel_args-text api peer cli id k [] h.0 h.1)
  run_words-args_of (close_by_force id k) h =
      unfold run_forceclosechannel force_close_with initiate_force_close in
      ap (λ o. force_close_with peer cli o w) (channel_args-text api peer cli id k [] h.0 h.1)
  run_words-args_of (rebalance id k amts) h =
      unfold run_updatebalance update_with initiate_update in
      ap (λ o. update_with peer cli o w) (update_args-text api peer cli id k amts h.0 h.1 h.2)
  run_words-args_of (send_onion keys k tlv_type message) h =
      unfold run_sendonionmessage send_onion_with send_onion_to in
      ap (λ o. send_onion_with peer cli o w)
        (onion_args-text api peer cli keys k tlv_type message h.0 h.1 h.2 h.3 h.5)
      ∙ ap (λ o. send_onion_to peer cli tlv_type message o w)
          (last_key-keys_of_path peer cli keys k)
  run_words-args_of (sign text words) h = run_signmessage-typed text words h.0 h.1
  run_words-args_of leave h = refl

  -- The text of a command, typed with a space between any two words, does what the command is meant
  -- to do, for each of the commands that act, whatever the state of the node and the
  -- libraries' answers are. Its numbers fit their types, its channel ids have 32 bytes, its public
  -- keys 33 that the library reads, an onion message has some data and a type of 64 at least, a
  -- message to sign consists of words, and what the libraries read from text is one word that they do
  -- read.
  pub run_line-typed_text :
      (cmd : Command L)
      → IsCommand peer cli cmd
      → run_line api peer cli print network a (typed_text cmd) w
        ≡ run_command api peer cli network a cmd w
  unfolding run_line
  run_line-typed_text cmd h =
      ap (λ words. run_words api peer cli print network a (typed_text cmd) words w)
        (split_whitespace-spaced (word_of cmd) (args_of cmd) (word_of-IsWord cmd)
          (args_of-IsWord peer cli cmd h))
      ∙ run_words-args_of cmd h
