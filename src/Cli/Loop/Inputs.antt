-- ===== src/Cli/Loop/Inputs.antt =====
-- src/cli.rs and src/main.rs: lines at the prompt and events of the node, in any order.
use yuv_lightning_ldk_sample.Prelude.Text.{equal, codes, Bytes}
use yuv_lightning_ldk_sample.Cli.ChannelCommands.{
  run_closechannel, run_forceclosechannel, run_updatebalance, run_sendonionmessage, channel_args,
  onion_args, update_args,
}
use yuv_lightning_ldk_sample.Cli.Commands.{
  run_openchannel, run_sendpayment, run_keysend, run_getinvoice, CommandAnswers, Next, prompts,
  open_at, open_to, openchannel_with, sendpayment_with, keysend_with, getinvoice_with, quits,
  initiate_open, Flags, crashes, after_outcome, hangs, config_channel, open_args, send_args,
  keysend_args, invoice_args,
}
use yuv_lightning_ldk_sample.Prelude.{
  ℕ, [], ◌∷◌, List, Bool, if◌then◌else◌, Option, true, some, false, none,
}
use yuv_lightning_ldk_sample.Node.{Ldk, World}
use yuv_lightning_ldk_sample.Payments.{PaymentApi, Network}
use yuv_lightning_ldk_sample.Peers.{PeerApi}
use yuv_lightning_ldk_sample.Cli.Words.{CliApi}
use yuv_lightning_ldk_sample.Event.{Answers, Event}
use yuv_lightning_ldk_sample.Cli.Listing.{PrintApi}
use yuv_lightning_ldk_sample.Cli.Loop.Surviving.{
  SurvivesLines, connect_peer-Survives, sent-Survives, keysent-Survives, invoiced-Survives,
  connectpeer-Survives, open_when-Survives, disconnectpeer-Survives, close_with-Survives,
  signmessage-Survives, send_onion_with-Survives, update_with-Survives,
}
use yuv_lightning_ldk_sample.Cli.Loop.{
  dispatch_more, run_words, dispatch, run_line, run_closechannel, run_forceclosechannel,
  run_updatebalance, run_sendonionmessage,
}
use yuv_lightning_ldk_sample.Events.{handle_ldk_events}
use yuv_lightning_ldk_sample.Payments.Ops.{handle_ldk_events-Survives}

-- A line that is entered, or an event that the node handles, with the answers of the libraries to it.
pub data Input (L : Ldk) : Type 0 where
  enters : CommandAnswers L → Bytes → Input L
  happens : Answers L → Event L → Input L

module _ {L : Ldk} (api : PaymentApi L) (peer : PeerApi L) (cli : CliApi L) (print : PrintApi L)
    (network : Network) where
  unfoldable pub run_input : Input L → World L → World L × Next
  run_input (enters a line) w = run_line api peer cli print network a line w
  run_input (happens a event) w =
      let (w', o) = handle_ldk_events api a event w in (w', after_outcome o)

  -- up to the first input that ends the program or leaves the prompt waiting
  abbrev pub input_on : (World L → World L) → World L × Next → World L
  input_on go_on (w, prompts) = go_on w
  input_on go_on (w, quits) = w
  input_on go_on (w, crashes) = w
  input_on go_on (w, hangs) = w

  unfoldable pub run_inputs : List (Input L) → World L → World L
  run_inputs [] w = w
  run_inputs (input ∷ inputs) w = input_on (run_inputs inputs) (run_input input w)

  module _ (P : World L → Type 0) (s : SurvivesLines api P) where
    open_at-Survives :
        (a : CommandAnswers L) (key : L.PublicKey) (amt : ℕ) (flags : Flags L)
        (addr : Option (L.SocketAddr)) (w : World L)
        → P w
        → P (open_at api peer cli a key amt flags addr w).0
    unfolding open_at initiate_open
    open_at-Survives a key amt flags none w d = d
    open_at-Survives a key amt flags (some addr) w d =
        let e = connect_peer-Survives api peer cli P s key addr a.peers a.attempt w d in
        open_when-Survives api peer cli P s _ _ _ e (s.payments.calls _ _ e)

    open_to-Survives :
        (a : CommandAnswers L) (key : L.PublicKey) (amt : ℕ) (flags : Flags L)
        (known : Option (List (L.PublicKey × L.SocketAddr))) (w : World L)
        → P w
        → P (open_to api peer cli a key amt flags known w).0
    unfolding open_to
    open_to-Survives a key amt flags none w d = d
    open_to-Survives a key amt flags (some known) w d = open_at-Survives a key amt flags _ w d

    openchannel-Survives :
        (a : CommandAnswers L) (o : Option (L.PublicKey × ℕ × Flags L)) (w : World L)
        → P w
        → P (openchannel_with api peer cli a o w).0
    unfolding openchannel_with
    openchannel-Survives a none w d = d
    openchannel-Survives a (some (key, amt, flags)) w d = open_to-Survives a key amt flags _ w d

    sendpayment-Survives :
        (a : CommandAnswers L) (o : Option (L.Invoice × Option ℕ)) (w : World L)
        → P w
        → P (sendpayment_with api peer cli a o w).0
    unfolding sendpayment_with
    sendpayment-Survives a none w d = d
    sendpayment-Survives a (some (invoice, amt)) w d =
        sent-Survives api peer cli P s a.is_ok invoice amt w d

    keysend-Survives :
        (a : CommandAnswers L) (o : Option (L.PublicKey × ℕ)) (w : World L)
        → P w
        → P (keysend_with api peer cli a o w).0
    unfolding keysend_with
    keysend-Survives a none w d = d
    keysend-Survives a (some (key, amt)) w d =
        keysent-Survives api peer cli P s a.is_ok a.random key amt w d

    getinvoice-Survives :
        (a : CommandAnswers L) (o : Option (ℕ × ℕ × Option (L.Pixel))) (w : World L)
        → P w
        → P (getinvoice_with api peer cli a network o w).0
    unfolding getinvoice_with
    getinvoice-Survives a none w d = d
    getinvoice-Survives a (some (amt, secs, pixel)) w d =
        invoiced-Survives api peer cli P s a.create_invoice amt network secs pixel w d

    -- The property holds where a command ends.
    record Keeps (r : World L × Next) : Type 0 where
      kept : P r.0

    keeps : (r : World L × Next) → P r.0 → Keeps r
    keeps r d = record { kept = d }

    choice : (b : Bool) (x y : World L × Next) → Keeps x → Keeps y → Keeps (if b then x else y)
    choice true x y d e = d
    choice false x y d e = e

    dispatch_more-Keeps :
        (a : CommandAnswers L) (line word : Bytes) (words : List Bytes) (w : World L)
        → P w
        → Keeps (dispatch_more api peer cli print network a line word words w)
    unfolding dispatch_more run_closechannel run_forceclosechannel run_updatebalance
        run_sendonionmessage
    dispatch_more-Keeps a line word words w d =
        search
          (
            choice,
            keeps,
            d,
            connectpeer-Survives api peer cli P s a words w d,
            disconnectpeer-Survives api peer cli P s a words w d,
            (close_with-Survives api peer cli P s (channel_args peer cli words) w d).0,
            (close_with-Survives api peer cli P s (channel_args peer cli words) w d).1,
            signmessage-Survives api peer cli P s line w d,
            send_onion_with-Survives api peer cli P s (onion_args peer cli words) w d,
            update_with-Survives api peer cli P s (update_args peer cli words) w d,
          )
          depth 20 fits 4000

    dispatch-Keeps :
        (a : CommandAnswers L) (line word : Bytes) (words : List Bytes) (w : World L)
        → P w
        → Keeps (dispatch api peer cli print network a line word words w)
    unfolding dispatch run_openchannel run_sendpayment run_keysend run_getinvoice
    dispatch-Keeps a line word words w d =
        let config = config_channel api peer cli words w.default_config in
        choice (equal word (codes "configchannel")) (record w { default_config = config }, prompts)
          _ (keeps _ (s.configures config w d))
          (choice (equal word (codes "openchannel")) (run_openchannel api peer cli a words w) _
            (keeps _ (openchannel-Survives a (open_args api peer cli words) w d))
            (choice (equal word (codes "sendpayment")) (run_sendpayment api peer cli a words w) _
              (keeps _ (sendpayment-Survives a (send_args api peer cli words) w d))
              (choice (equal word (codes "keysend")) (run_keysend api peer cli a words w) _
                (keeps _ (keysend-Survives a (keysend_args api peer cli words) w d))
                (choice (equal word (codes "getinvoice"))
                  (run_getinvoice api peer cli a network words w)
                  (dispatch_more api peer cli print network a line word words w)
                  (keeps _ (getinvoice-Survives a (invoice_args api peer cli words) w d))
                  (dispatch_more-Keeps a line word words w d)))))

    run_words-Survives :
        (a : CommandAnswers L) (line : Bytes) (words : List Bytes) (w : World L)
        → P w
        → P (run_words api peer cli print network a line words w).0
    unfolding run_words
    run_words-Survives a line [] w d = d
    run_words-Survives a line (word ∷ words) w d = (dispatch-Keeps a line word words w d).kept

    run_input-Survives : (input : Input L) (w : World L) → P w → P (run_input input w).0
    unfolding run_input run_line
    run_input-Survives (enters a line) w d = run_words-Survives a line _ w d
    run_input-Survives (happens a event) w d =
        handle_ldk_events-Survives api P s.payments a event w d

    input_on-Survives :
        (go_on : World L → World L) (r : World L × Next)
        → P r.0
        → ((w : World L) → P w → P (go_on w))
        → P (input_on go_on r)
    input_on-Survives go_on (w, prompts) d h = h w d
    input_on-Survives go_on (w, quits) d h = d
    input_on-Survives go_on (w, crashes) d h = d
    input_on-Survives go_on (w, hangs) d h = d

    pub run_inputs-Survives :
        (inputs : List (Input L)) (w : World L) → P w → P (run_inputs inputs w)
    unfolding run_inputs
    run_inputs-Survives [] w d = d
    run_inputs-Survives (input ∷ inputs) w d =
        input_on-Survives (run_inputs inputs) (run_input input w) (run_input-Survives input w d)
          (run_inputs-Survives inputs)
