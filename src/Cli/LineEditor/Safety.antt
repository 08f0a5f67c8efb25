-- ===== src/Cli/LineEditor/Safety.antt =====
-- `read_input` on a terminal that is wider than the prefix, and on one that is not.
use yuv_lightning_ldk_sample.Prelude.{
  ℕ, ◌<◌, List, ◌≤◌, All, length, ◌∷◌, [], leb, some, arith, none, ◌≡◌, true, false,
}
use yuv_lightning_ldk_sample.Cli.LineEditor.Keys.{IsValid, IsGoodProgress, on_key_lem}
use yuv_lightning_ldk_sample.Cli.LineEditor.{
  window, Screen, Reading, read_input, TerminalEvent, Editor, key, waits, run, other_event, drawn,
  read, on_event, Progress, Bytes, read_error, on_key, redraws, proceed, insert_at, continues,
  edited, panics_reading, breaks, edited_with, panicked, set_first, char,
}
use yuv_lightning_ldk_sample.Prelude.Text.{IsAscii}

pub window_lem :
    (screen : Screen) (ed : Editor)
    → screen.prefix_size < screen.term_width
    → ed.cursor_position ≤ length ed.input_buffer
    → leb (window screen ed).0 (window screen ed).1 ≡ true
unfolding window
window_lem screen ed wide h = ground arith

module _ (screen : Screen) (wide : screen.prefix_size < screen.term_width) where
  drawn_lem : (p : Progress) → IsGoodProgress p → IsGoodProgress (drawn screen p)
  unfolding drawn
  drawn_lem (redraws ed) g = rw (window_lem screen ed wide g.cursor_in_line) g
  drawn_lem (continues ed) g = g
  drawn_lem (breaks none history) g = g
  drawn_lem (breaks (some line) history) g = g
  drawn_lem panicked g = g

-- The event is no error of `read()`.
abbrev pub IsRead : TerminalEvent → Type 0
IsRead (key code control) = Unit
IsRead other_event = Unit
IsRead read_error = ⊥

-- No panic; a line that is returned and the history hold ASCII characters only.
abbrev pub IsSafe : Reading → Type 0
IsSafe (waits ed) = IsValid ed
IsSafe (read none history) = All (All IsAscii) history
IsSafe (read (some line) history) = All IsAscii line × All (All IsAscii) history
IsSafe panics_reading = ⊥

module _ (screen : Screen) (wide : screen.prefix_size < screen.term_width) where
  on_event_lem :
      (e : TerminalEvent) (ed : Editor)
      → IsRead e
      → IsValid ed
      → IsGoodProgress (on_event screen e ed)
  unfolding on_event
  on_event_lem (key code control) ed h v = drawn_lem screen wide _ (on_key_lem code control ed v)
  on_event_lem other_event ed h v = v
  on_event_lem read_error ed h v = absurd h

  proceed_lem :
      (go_on : Editor → Reading) (p : Progress)
      → IsGoodProgress p
      → ((ed : Editor) → IsValid ed → IsSafe (go_on ed))
      → IsSafe (proceed go_on p)
  proceed_lem go_on (redraws ed) g h = h ed g
  proceed_lem go_on (continues ed) g h = h ed g
  proceed_lem go_on (breaks none history) g h = g
  proceed_lem go_on (breaks (some line) history) g h = g
  proceed_lem go_on panicked g h = absurd g

  run-IsSafe :
      (es : List TerminalEvent) (ed : Editor)
      → All IsRead es
      → IsValid ed
      → IsSafe (run screen es ed)
  unfolding run
  run-IsSafe [] ed h v = v
  run-IsSafe (e ∷ es) ed h v =
      proceed_lem (run screen es) (on_event screen e ed) (on_event_lem e ed h.0 v)
        (λ d g. run-IsSafe es d h.1 g)

-- On a terminal that is wider than the prefix, with a history of ASCII lines, no sequence of events
-- makes `read_input` panic, but for errors in reading one. While it waits, the cursor is in the line,
-- the place in the history is in the history, and both are ASCII; so are the line that it returns
-- and the history then.
pub read_input-IsSafe :
    (screen : Screen) (history : List Bytes) (es : List TerminalEvent)
    → screen.prefix_size < screen.term_width
    → All (All IsAscii) history
    → All IsRead es
    → IsSafe (read_input screen history es)
unfolding read_input
read_input-IsSafe screen history es wide a h = run-IsSafe screen wide es _ h (record {
  cursor_in_line = omega arith;
  position_in_history = omega arith;
  line_ascii = tt;
  history_ascii = (tt, a);
})

-- On a terminal that is no wider than the prefix the first character that is typed, of ASCII and
-- without the control key, makes it panic.
pub read_input_panics :
    (screen : Screen) (history : List Bytes) (c : ℕ) (es : List TerminalEvent)
    → screen.term_width ≤ screen.prefix_size
    → c < 128
    → read_input screen history (key (char c) false ∷ es) ≡ panics_reading
unfolding read_input run on_event on_key drawn insert_at edited edited_with set_first window
read_input_panics screen history c es narrow ascii = ground arith
