-- ===== src/Cli/LineEditor.antt =====
-- src/cli.rs: `read_input`, which reads a line key by key, with a history and a window on the line.
pub mod Keys
pub mod Safety
pub mod Typing
use yuv_lightning_ldk_sample.Prelude.{
  ℕ, ◌-◌, Bool, Option, List, if◌then◌else◌, ◌==◌, some, none, ◌∷◌, is_empty, leb, [], ◌||◌, ◌+◌,
  suc, length, zero, ◌&&◌, min, not, ltb, get_elem?,
}
use yuv_lightning_ldk_sample.Prelude.Text.{Bytes}

-- crossterm: `KeyCode`; `other_key` is any other code
pub data KeyCode : Type 0 where
  char : ℕ → KeyCode
  left right backspace up down enter other_key : KeyCode

-- crossterm: what `read()` gives; `control` says that the modifiers are CONTROL and no other
pub data TerminalEvent : Type 0 where
  key : KeyCode → Bool → TerminalEvent
  other_event : TerminalEvent
  read_error : TerminalEvent

pub record Editor : Type 0 where
  pub input_buffer : Bytes
  pub cursor_position : ℕ
  pub history_position : ℕ
  pub commands_history : List Bytes

-- `terminal::size()` and the length of the prefix
pub record Screen : Type 0 where
  pub term_width : ℕ
  pub prefix_size : ℕ

-- What a key does: the line is drawn again, `continue`, `break`, or a panic.
pub data Progress : Type 0 where
  redraws : Editor → Progress
  continues : Editor → Progress
  breaks : Option Bytes → List Bytes → Progress
  panicked : Progress

-- `String::insert` and `String::remove` on ASCII text
unfoldable pub insert_at : ℕ → ℕ → Bytes → Option Bytes
insert_at zero c s = some (c ∷ s)
insert_at (suc i) c [] = none
insert_at (suc i) c (x ∷ s) = elim (insert_at i c s) [ none ↦ none | some t ↦ some (x ∷ t) ]

unfoldable pub remove_at : ℕ → Bytes → Option Bytes
remove_at i [] = none
remove_at zero (x ∷ s) = some s
remove_at (suc i) (x ∷ s) = elim (remove_at i s) [ none ↦ none | some t ↦ some (x ∷ t) ]

-- `commands_history[0] = line`
unfoldable pub set_first : Bytes → List Bytes → Option (List Bytes)
set_first line [] = none
set_first line (h ∷ hs) = some (line ∷ hs)

-- `commands_history.pop()`
unfoldable pub pop : List Bytes → List Bytes
pop [] = []
pop (h ∷ []) = []
pop (h ∷ k ∷ hs) = h ∷ pop (k ∷ hs)

-- the new line goes to the buffer and to the head of the history, and the cursor to its place
unfoldable pub edited_with : Editor → ℕ → Bytes → Option (List Bytes) → Progress
edited_with ed cursor line none = panicked
edited_with ed cursor line (some history) = redraws (record {
  input_buffer = line;
  cursor_position = cursor;
  history_position = 0;
  commands_history = history;
})

unfoldable pub edited : Editor → ℕ → Option Bytes → Progress
unfolding set_first edited_with
edited ed cursor none = panicked
edited ed cursor (some line) = edited_with ed cursor line (set_first line ed.commands_history)

-- `input_buffer = commands_history[position].clone()`, and the cursor behind it
unfoldable pub recall : Editor → ℕ → Option Bytes → Progress
recall ed position none = panicked
recall ed position (some line) =
    redraws (record ed {
      input_buffer = line;
      cursor_position = length line;
      history_position = position;
    })

-- the history when the line is entered: an empty line is not noted down
unfoldable pub remember : Bytes → List Bytes → Option (List Bytes)
unfolding pop
remember [] history = some history
remember (c ∷ line) [] = none
remember (c ∷ line) (h ∷ hs) =
    some (if ltb 50 (length (h ∷ hs)) then pop ((c ∷ line) ∷ hs) else (c ∷ line) ∷ hs)

-- what `Enter` returns
unfoldable pub entered : Bytes → Option (List Bytes) → Progress
entered line none = panicked
entered line (some history) = breaks (some line) history

unfoldable pub on_key : KeyCode → Bool → Editor → Progress
on_key (char c) control ed =
    if (c == b'd' || c == b'c') && control
    then breaks none ed.commands_history
    else if not (ltb c 128)
    then continues (record ed { history_position = 0 })
    else edited ed (ed.cursor_position + 1) (insert_at ed.cursor_position c ed.input_buffer)
on_key left control ed = redraws (
    if ltb 0 ed.cursor_position then record ed { cursor_position = ed.cursor_position - 1 } else ed)
on_key right control ed = redraws (
    if ltb ed.cursor_position (length ed.input_buffer)
    then record ed { cursor_position = ed.cursor_position + 1 }
    else ed)
on_key backspace control ed =
    if ltb 0 ed.cursor_position
    then edited ed (ed.cursor_position - 1) (remove_at (ed.cursor_position - 1) ed.input_buffer)
    else edited ed ed.cursor_position (some ed.input_buffer)
on_key up control ed =
    if ltb 50 ed.history_position || leb (length ed.commands_history - 1) ed.history_position
    then continues ed
    else recall ed (ed.history_position + 1)
        (get_elem? ed.commands_history (ed.history_position + 1))
on_key down control ed =
    if ed.history_position == 0
    then continues ed
    else recall ed (ed.history_position - 1)
        (get_elem? ed.commands_history (ed.history_position - 1))
on_key enter control ed = entered ed.input_buffer (remember ed.input_buffer ed.commands_history)
on_key other_key control ed = redraws ed

-- the bounds of the visible part of the line: `input_buffer[start_pos..end_pos]`
unfoldable pub window : Screen → Editor → ℕ × ℕ
window screen ed =
    let visible_width = screen.term_width - screen.prefix_size in
    let start_pos =
      if leb visible_width ed.cursor_position then ed.cursor_position + 1 - visible_width else 0 in
    (start_pos, min (length ed.input_buffer) (start_pos + visible_width))

-- slicing panics if the start lies behind the end
unfoldable pub drawn : Screen → Progress → Progress
unfolding window
drawn screen (redraws ed) =
    if leb (window screen ed).0 (window screen ed).1 then redraws ed else panicked
drawn screen (continues ed) = continues ed
drawn screen (breaks line history) = breaks line history
drawn screen panicked = panicked

unfoldable pub on_event : Screen → TerminalEvent → Editor → Progress
on_event screen (key code control) ed = drawn screen (on_key code control ed)
on_event screen other_event ed = continues ed
on_event screen read_error ed = panicked

-- What `read_input` returns for the events that there are so far; its caller unwraps the error of
-- `read()`, which is why `on_event` counts it as a panic.
pub data Reading : Type 0 where
  waits : Editor → Reading
  read : Option Bytes → List Bytes → Reading
  panics_reading : Reading

abbrev pub proceed : (Editor → Reading) → Progress → Reading
proceed go_on (redraws ed) = go_on ed
proceed go_on (continues ed) = go_on ed
proceed go_on (breaks line history) = read line history
proceed go_on panicked = panics_reading

-- the loop over the events
unfoldable pub run : Screen → List TerminalEvent → Editor → Reading
run screen [] ed = waits ed
run screen (e ∷ es) ed = proceed (run screen es) (on_event screen e ed)

unfoldable pub read_input : Screen → List Bytes → List TerminalEvent → Reading
unfolding run
read_input screen commands_history events = run screen events (record {
  input_buffer = [];
  cursor_position = 0;
  history_position = 0;
  commands_history = [] ∷ commands_history;
})
