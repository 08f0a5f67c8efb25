-- ===== src/Cli/Loop/Sessions.antt =====
-- src/cli.rs: whole sessions at the prompt of `poll_for_user_input`.
use yuv_lightning_ldk_sample.Prelude.{
  is_return, ltb, length, ◌≢◌, List, [], All, ◌++◌, Outcome, returns, ◌<◌, ◌≡◌, false, ◌∷◌, map,
  refl, if◌then◌else◌, ap, panics, ◌∙◌,
}
use yuv_lightning_ldk_sample.Node.{Ldk, World}
use yuv_lightning_ldk_sample.Payments.{PaymentApi, Network}
use yuv_lightning_ldk_sample.Prelude.Text.{
  Bytes, IsAscii, codes, split_whitespace, words_from, is_whitespace, equal,
}
use yuv_lightning_ldk_sample.Peers.{PeerApi}
use yuv_lightning_ldk_sample.Cli.Commands.{CommandAnswers, Next, prompts, quits, crashes, hangs}
use yuv_lightning_ldk_sample.Cli.Words.{CliApi}
use yuv_lightning_ldk_sample.Cli.LineEditor.{TerminalEvent, key, enter, Screen, read_input, pop}
use yuv_lightning_ldk_sample.Cli.Listing.{PrintApi, list_channels}
use yuv_lightning_ldk_sample.Cli.LineEditor.Typing.{keys, read_input_typed}
use yuv_lightning_ldk_sample.Cli.Loop.{
  run_line, poll_for_user_input, run_words, dispatch, go_on_after, after_line, dispatch_more,
  split_whitespace, equal,
}
use yuv_lightning_ldk_sample.Cli.Listing.Limits.{list_channels-limits, every, has_limits}

-- a line that a user types, and the answers of the libraries to its command
abbrev pub Turn : Ldk → Type 0
Turn L = Bytes × CommandAnswers L

abbrev pub IsTypable : {L : Ldk} → Turn L → Type 0
IsTypable turn = (turn.0 ≢ []) × All IsAscii turn.0

-- its keys with the enter key behind them
abbrev pub typed_turn : {L : Ldk} → Turn L → List TerminalEvent × CommandAnswers L
typed_turn turn = (keys turn.0 ++ key enter false ∷ [], turn.1)

module _ {L : Ldk} (api : PaymentApi L) (peer : PeerApi L) (cli : CliApi L) (print : PrintApi L)
    (network : Network) where
  abbrev pub then_run : (World L → World L × Next) → World L × Next → World L × Next
  then_run rest (w, prompts) = rest w
  then_run rest (w, quits) = (w, quits)
  then_run rest (w, crashes) = (w, crashes)
  then_run rest (w, hangs) = (w, hangs)

  -- the commands one after the other, up to the first that does not come back to the prompt
  unfoldable pub run_lines : List (Turn L) → World L → World L × Next
  run_lines [] w = (w, prompts)
  run_lines (turn ∷ turns) w =
      then_run (run_lines turns) (run_line api peer cli print network turn.1 turn.0 w)

  go_on_after-then_run :
      (go_on : List Bytes → World L → World L × Next) (rest : World L → World L × Next)
      (history : List Bytes) (r : World L × Next)
      → ((v : World L) → go_on history v ≡ rest v)
      → go_on_after api peer cli print network go_on history r ≡ then_run rest r
  go_on_after-then_run go_on rest history (w, prompts) same = same w
  go_on_after-then_run go_on rest history (w, quits) same = refl
  go_on_after-then_run go_on rest history (w, crashes) same = refl
  go_on_after-then_run go_on rest history (w, hangs) same = refl

  after_typed :
      (go_on : List Bytes → World L → World L × Next) (rest : World L → World L × Next)
      (screen : Screen) (history : List Bytes) (turn : Turn L) (w : World L)
      → screen.prefix_size < screen.term_width
      → IsTypable turn
      → ((h : List Bytes) (v : World L) → go_on h v ≡ rest v)
      → after_line api peer cli print network go_on turn.1 w
          (read_input screen history (typed_turn turn).0)
        ≡ then_run rest (run_line api peer cli print network turn.1 turn.0 w)
  after_typed go_on rest screen history ([], a) w wide h same = absurd (h.0 refl)
  after_typed go_on rest screen history (c ∷ s, a) w wide h same =
      ap (after_line api peer cli print network go_on a w)
        (read_input_typed screen c s history false [] wide h.1)
      ∙ go_on_after-then_run go_on rest
          (if ltb 50 (length ((c ∷ s) ∷ history))
            then pop ((c ∷ s) ∷ history)
            else (c ∷ s) ∷ history)
          (run_line api peer cli print network a (c ∷ s) w) (same _)

  -- On a terminal that is wider than the prefix, lines of ASCII characters, each with at least one,
  -- are typed and entered one after the other. Whatever the history, the session does what the
  -- commands on these lines do in their order, and ends with the first one that ends it.
  pub poll_for_user_input_typed :
      (screen : Screen) (turns : List (Turn L)) (history : List Bytes) (w : World L)
      → screen.prefix_size < screen.term_width
      → All IsTypable turns
      → poll_for_user_input api peer cli print network screen (map typed_turn turns) history w
        ≡ run_lines turns w
  unfolding poll_for_user_input run_lines
  poll_for_user_input_typed screen [] history w wide h = refl
  poll_for_user_input_typed screen (turn ∷ turns) history w wide h =
      after_typed (poll_for_user_input api peer cli print network screen (map typed_turn turns))
        (run_lines turns) screen history turn w wide h.0
        (λ past v. poll_for_user_input_typed screen turns past v wide h.1)

  next_of :
      (o : Outcome Bytes)
      → elim o [ returns text ↦ prompts | panics ↦ crashes ]
        ≡ (if is_return o then prompts else crashes)
  next_of (returns text) = refl
  next_of panics = refl

  -- `listchannels` changes nothing. It comes back to the prompt exactly when every channel has its
  -- four limits, those of the counterparty included; else it panics.
  pub run_line-listchannels :
      (a : CommandAnswers L) (w : World L)
      → run_line api peer cli print network a (codes "listchannels") w
        ≡ (w, if every has_limits a.channels then prompts else crashes)
  unfolding run_line run_words dispatch dispatch_more split_whitespace words_from is_whitespace
      equal
  run_line-listchannels a w =
      ap (λ n. (w, n))
        (next_of (list_channels print a.alias a.channels)
          ∙ ap (λ b. if b then prompts else crashes)
              (list_channels-limits print a.alias a.channels))
