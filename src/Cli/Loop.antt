-- ===== src/Cli/Loop.antt =====
-- src/cli.rs: the loop of `poll_for_user_input`, from the keys to the commands.
pub mod Sessions
pub mod Surviving
pub mod Inputs
use yuv_lightning_ldk_sample.Prelude.{
  List, if◌then◌else◌, ◌∷◌, [], some, none, returns, ◌||◌, panics,
}
use yuv_lightning_ldk_sample.Node.{Ldk, World}
use yuv_lightning_ldk_sample.Payments.{PaymentApi, Network}
use yuv_lightning_ldk_sample.Peers.{PeerApi, list_peers}
use yuv_lightning_ldk_sample.Cli.Words.{CliApi}
use yuv_lightning_ldk_sample.Cli.LineEditor.{
  Screen, TerminalEvent, Reading, waits, read_input, read, panics_reading,
}
use yuv_lightning_ldk_sample.Cli.Commands.{
  CommandAnswers, Next, prompts, quits, crashes, hangs, config_channel, run_openchannel,
  run_sendpayment, run_keysend, run_getinvoice,
}
use yuv_lightning_ldk_sample.Prelude.Text.{Bytes, split_whitespace, equal, codes}
use yuv_lightning_ldk_sample.Cli.ChannelCommands.{
  run_connectpeer, run_disconnectpeer, run_closechannel, run_forceclosechannel, run_signmessage,
  run_sendonionmessage, run_updatebalance,
}
use yuv_lightning_ldk_sample.Cli.Listing.{PrintApi, list_channels}

module _ {L : Ldk} (api : PaymentApi L) (peer : PeerApi L) (cli : CliApi L) (print : PrintApi L)
    (network : Network) where
  unfoldable pub dispatch_more :
      CommandAnswers L → Bytes → Bytes → List Bytes → World L → World L × Next
  dispatch_more a line word words w =
      if equal word (codes "connectpeer")
      then run_connectpeer peer cli a words w
      else if equal word (codes "disconnectpeer")
      then run_disconnectpeer peer cli a words w
      else if equal word (codes "closechannel")
      then run_closechannel peer cli words w
      else if equal word (codes "forceclosechannel")
      then run_forceclosechannel peer cli words w
      else if equal word (codes "listchannels")
      then (
        w,
        elim (list_channels print a.alias a.channels) [ returns text ↦ prompts | panics ↦ crashes ],
      )
      else if equal word (codes "listpeers")
      then (
        w,
        elim (list_peers peer a.resolve w.store) [ returns known ↦ prompts | panics ↦ crashes ],
      )
      else if equal word (codes "signmessage")
      then run_signmessage peer cli line w
      else if equal word (codes "sendonionmessage")
      then run_sendonionmessage peer cli words w
      else if equal word (codes "updatebalance")
      then run_updatebalance peer cli words w
      else if equal word (codes "quit") || equal word (codes "exit")
      then (w, quits)
      else (w, prompts)

  -- the `match word`, with the words behind it; the other commands print at most
  unfoldable pub dispatch : CommandAnswers L → Bytes → Bytes → List Bytes → World L → World L × Next
  dispatch a line word words w =
      if equal word (codes "configchannel")
      then (
        record w { default_config = config_channel api peer cli words w.default_config },
        prompts,
      )
      else if equal word (codes "openchannel")
      then run_openchannel api peer cli a words w
      else if equal word (codes "sendpayment")
      then run_sendpayment api peer cli a words w
      else if equal word (codes "keysend")
      then run_keysend api peer cli a words w
      else if equal word (codes "getinvoice")
      then run_getinvoice api peer cli a network words w
      else dispatch_more a line word words w

  unfoldable pub run_words : CommandAnswers L → Bytes → List Bytes → World L → World L × Next
  run_words a line [] w = (w, prompts)
  run_words a line (word ∷ words) w = dispatch a line word words w

  -- a line that was entered
  unfoldable pub run_line : CommandAnswers L → Bytes → World L → World L × Next
  run_line a line w = run_words a line (split_whitespace line) w

  -- goes on to the next prompt unless the command ended the loop
  abbrev pub go_on_after :
      (List Bytes → World L → World L × Next) → List Bytes → World L × Next → World L × Next
  go_on_after go_on history (w, prompts) = go_on history w
  go_on_after go_on history (w, quits) = (w, quits)
  go_on_after go_on history (w, crashes) = (w, crashes)
  go_on_after go_on history (w, hangs) = (w, hangs)

  abbrev pub after_line :
      (List Bytes → World L → World L × Next)
      → CommandAnswers L
      → World L
      → Reading
      → World L × Next
  after_line go_on a w (waits ed) = (w, hangs)
  after_line go_on a w (read none history) = (w, quits)
  after_line go_on a w (read (some line) history) = go_on_after go_on history (run_line a line w)
  after_line go_on a w panics_reading = (w, crashes)

  -- the loop over the lines: for each the keys that are pressed and the answers to its command
  unfoldable pub poll_for_user_input :
      Screen → List (List TerminalEvent × CommandAnswers L) → List Bytes → World L → World L × Next
  poll_for_user_input screen [] history w = (w, prompts)
  poll_for_user_input screen ((events, a) ∷ turns) history w =
      after_line (poll_for_user_input screen turns) a w (read_input screen history events)
