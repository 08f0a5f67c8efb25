-- ===== src/Cli/LineEditor/Typing.antt =====
-- What `read_input` returns for a text that is typed and entered, and what becomes of the history.
use yuv_lightning_ldk_sample.Prelude.{
  ℕ, ◌<◌, List, length, ◌≡◌, Bool, ◌∷◌, map, some, All, ◌++◌, [], append-nil, refl, false, ap, ◌∙◌,
  append_assoc, ◌==◌, ◌||◌, if◌then◌else◌, ◌&&◌, arith, ltb, ◌+◌, length-append,
}
use yuv_lightning_ldk_sample.Prelude.Text.{Bytes, IsAscii}
use yuv_lightning_ldk_sample.Cli.LineEditor.{
  read_input, Screen, insert_at, TerminalEvent, Editor, on_event, run, on_key, key, drawn, char,
  edited, enter, edited_with, read, set_first, proceed, redraws, remember, entered, pop,
}
use yuv_lightning_ldk_sample.Cli.LineEditor.Safety.{window_lem}

-- the keys of a text
abbrev pub keys : Bytes → List TerminalEvent
keys = map (λ c. key (char c) false)

abbrev typed : Bytes → List Bytes → Editor
typed b history = record {
  input_buffer = b;
  cursor_position = length b;
  history_position = 0;
  commands_history = b ∷ history;
}

insert_at_end : (b : Bytes) (c : ℕ) → insert_at (length b) c b ≡ some (b ++ c ∷ [])
unfolding insert_at
insert_at_end [] c = refl
insert_at_end (x ∷ b) c = rw (insert_at_end b c)

module _ (screen : Screen) (wide : screen.prefix_size < screen.term_width) where
  on_event-char :
      (b : Bytes) (c : ℕ) (history : List Bytes)
      → IsAscii c
      → on_event screen (key (char c) false) (typed b history)
        ≡ redraws (typed (b ++ c ∷ []) history)
  unfolding on_event on_key drawn edited edited_with set_first
  on_event-char b c history ascii =
      let no : ((c == b'd' || c == b'c') && false) ≡ false = ground arith in
      let moved : length b + 1 ≡ length (b ++ c ∷ []) = omega (arith, length-append b (c ∷ [])) in
      rw (
        no,
        ascii,
        insert_at_end b c,
        moved,
        window_lem screen (typed (b ++ c ∷ []) history) wide (omega arith),
      )

  run-keys :
      (s b : Bytes) (history : List Bytes) (es : List TerminalEvent)
      → All IsAscii s
      → run screen (keys s ++ es) (typed b history) ≡ run screen es (typed (b ++ s) history)
  unfolding run
  run-keys [] b history es h = rw append-nil
  run-keys (c ∷ s) b history es h =
      ap (proceed (run screen (keys s ++ es))) (on_event-char b c history h.0)
      ∙ run-keys s (b ++ c ∷ []) history es h.1
      ∙ rw append_assoc

-- On a terminal that is wider than the prefix, a line of ASCII characters, at least one, that is
-- typed and entered is returned as it was typed, and stands at the head of the history, from which
-- the oldest line is dropped if there are more than fifty.
pub read_input_typed :
    (screen : Screen) (c : ℕ) (s : Bytes) (history : List Bytes) (control : Bool)
    (es : List TerminalEvent)
    → screen.prefix_size < screen.term_width
    → All IsAscii (c ∷ s)
    → read_input screen history (keys (c ∷ s) ++ key enter control ∷ es)
      ≡ read (some (c ∷ s)) (
          if ltb 50 (length ((c ∷ s) ∷ history))
          then pop ((c ∷ s) ∷ history)
          else (c ∷ s) ∷ history)
unfolding read_input run on_event on_key remember entered drawn
read_input_typed screen c s history control es wide h =
    run-keys screen wide (c ∷ s) [] history (key enter control ∷ es) h ∙ refl
