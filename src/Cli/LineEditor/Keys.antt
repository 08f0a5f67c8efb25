-- ===== src/Cli/LineEditor/Keys.antt =====
-- One key of `read_input`: the cursor stays in the line, and the place in the history too.
use yuv_lightning_ldk_sample.Prelude.{
  ℕ, List, ◌≤◌, ◌<◌, length, All, Bool, get_elem?, ◌≡◌, some, ◌∷◌, arith, Bool-cases, [], none,
  ◌==◌, suc, ltb, zero, refl, ◌||◌, ap, inl, ◌&&◌, inr, ◌+◌, ◌-◌, leb,
}
use yuv_lightning_ldk_sample.Cli.LineEditor.{
  Editor, edited, recall, Progress, remove_at, remember, on_key, set_first, insert_at, pop, redraws,
  Bytes, edited_with, entered, KeyCode, continues, breaks, char, panicked, left, right, backspace,
  up, down, enter, other_key,
}
use yuv_lightning_ldk_sample.Prelude.Text.{IsAscii}

-- What holds before every event.
pub record IsValid (ed : Editor) : Type 0 where
  pub cursor_in_line : ed.cursor_position ≤ length ed.input_buffer
  pub position_in_history : ed.history_position < length ed.commands_history
  pub line_ascii : All IsAscii ed.input_buffer
  pub history_ascii : All (All IsAscii) ed.commands_history

abbrev pub IsGoodProgress : Progress → Type 0
IsGoodProgress (redraws ed) = IsValid ed
IsGoodProgress (continues ed) = IsValid ed
IsGoodProgress (breaks none history) = All (All IsAscii) history
IsGoodProgress (breaks (some line) history) = All IsAscii line × All (All IsAscii) history
IsGoodProgress panicked = ⊥

insert_at_lem :
    (i c : ℕ) (s : Bytes)
    → i ≤ length s
    → IsAscii c
    → All IsAscii s
    → (t : Bytes) × (insert_at i c s ≡ some t) × (length t ≡ suc (length s)) × All IsAscii t
unfolding insert_at
insert_at_lem zero c s h hc hs = (c ∷ s, refl, refl, (hc, hs))
insert_at_lem (suc i) c [] h hc hs = absurd (omega arith)
insert_at_lem (suc i) c (x ∷ s) h hc hs =
    let (t, e, n, a) = insert_at_lem i c s (omega arith) hc hs.1 in
    (x ∷ t, rw e, ap suc n, (hs.0, a))

remove_at_lem :
    (i : ℕ) (s : Bytes)
    → i < length s
    → All IsAscii s
    → (t : Bytes) × (remove_at i s ≡ some t) × (suc (length t) ≡ length s) × All IsAscii t
unfolding remove_at
remove_at_lem i [] h hs = absurd (omega arith)
remove_at_lem zero (x ∷ s) h hs = (s, refl, refl, hs.1)
remove_at_lem (suc i) (x ∷ s) h hs =
    let (t, e, n, a) = remove_at_lem i s (omega arith) hs.1 in (x ∷ t, rw e, ap suc n, (hs.0, a))

get_elem?_lem :
    (hs : List Bytes) (i : ℕ)
    → i < length hs
    → All (All IsAscii) hs
    → (line : Bytes) × (get_elem? hs i ≡ some line) × All IsAscii line
get_elem?_lem [] i h a = absurd (omega arith)
get_elem?_lem (x ∷ hs) zero h a = (x, refl, a.0)
get_elem?_lem (x ∷ hs) (suc i) h a = get_elem?_lem hs i (omega arith) a.1

pop-All : (hs : List Bytes) → All (All IsAscii) hs → All (All IsAscii) (pop hs)
unfolding pop
pop-All [] a = tt
pop-All (h ∷ []) a = tt
pop-All (h ∷ k ∷ hs) a = (a.0, pop-All (k ∷ hs) a.1)

set_first_lem :
    (line : Bytes) (hs : List Bytes)
    → 0 < length hs
    → All IsAscii line
    → All (All IsAscii) hs
    → (t : List Bytes) × (set_first line hs ≡ some t) × (length t ≡ length hs) × All (All IsAscii) t
unfolding set_first
set_first_lem line [] h al a = absurd (omega arith)
set_first_lem line (x ∷ hs) h al a = (line ∷ hs, refl, refl, (al, a.1))

edited_lem :
    (ed : Editor) (cursor : ℕ) (line : Bytes)
    → IsValid ed
    → cursor ≤ length line
    → All IsAscii line
    → IsGoodProgress (edited ed cursor (some line))
unfolding edited edited_with
edited_lem ed cursor line v fits a =
    let (t, e, n, ah) =
      set_first_lem line ed.commands_history (omega (arith, v.position_in_history)) a
        v.history_ascii in
    rw (e, edited_with)
      (record {
        cursor_in_line = fits;
        position_in_history = omega (arith, v.position_in_history);
        line_ascii = a;
        history_ascii = ah;
      })

remember_lem :
    (line : Bytes) (hs : List Bytes)
    → 0 < length hs
    → All IsAscii line
    → All (All IsAscii) hs
    → IsGoodProgress (entered line (remember line hs))
unfolding remember entered
remember_lem [] hs h al a = (tt, a)
remember_lem (c ∷ line) [] h al a = absurd (omega arith)
remember_lem (c ∷ line) (x ∷ hs) h al a = elim (Bool-cases (ltb 50 (length (x ∷ hs)))) [
  | inl e ↦ rw e (al, pop-All ((c ∷ line) ∷ hs) (al, a.1))
  | inr e ↦ rw e (al, (al, a.1))
]

recall_lem :
    (ed : Editor) (position : ℕ)
    → IsValid ed
    → position < length ed.commands_history
    → IsGoodProgress (recall ed position (get_elem? ed.commands_history position))
unfolding recall
recall_lem ed position v fits =
    let (line, e, a) = get_elem?_lem ed.commands_history position fits v.history_ascii in
    rw e (record {
      cursor_in_line = omega arith;
      position_in_history = fits;
      line_ascii = a;
      history_ascii = v.history_ascii;
    })

pub on_key_lem :
    (code : KeyCode) (control : Bool) (ed : Editor)
    → IsValid ed
    → IsGoodProgress (on_key code control ed)
unfolding on_key
on_key_lem (char c) control ed v = elim (Bool-cases ((c == b'd' || c == b'c') && control)) [
  | inl e ↦ rw e v.history_ascii
  | inr e ↦ elim (Bool-cases (ltb c 128)) [
    | inl ascii ↦
        let (t, r, n, a) =
          insert_at_lem ed.cursor_position c ed.input_buffer v.cursor_in_line ascii v.line_ascii in
        rw (e, ascii, r)
          (edited_lem ed (ed.cursor_position + 1) t v (omega (arith, v.cursor_in_line)) a)
    | inr wide ↦
        rw (e, wide)
          (record {
            cursor_in_line = v.cursor_in_line;
            position_in_history = omega (arith, v.position_in_history);
            line_ascii = v.line_ascii;
            history_ascii = v.history_ascii;
          })
  ]
]
on_key_lem left control ed v = elim (Bool-cases (ltb 0 ed.cursor_position)) [
  | inl e ↦ rw e (record {
    cursor_in_line = omega (arith, v.cursor_in_line);
    position_in_history = v.position_in_history;
    line_ascii = v.line_ascii;
    history_ascii = v.history_ascii;
  })
  | inr e ↦ rw e v
]
on_key_lem right control ed v =
    elim (Bool-cases (ltb ed.cursor_position (length ed.input_buffer))) [
      | inl e ↦ rw e (record {
        cursor_in_line = ground arith;
        position_in_history = v.position_in_history;
        line_ascii = v.line_ascii;
        history_ascii = v.history_ascii;
      })
      | inr e ↦ rw e v
    ]
on_key_lem backspace control ed v = elim (Bool-cases (ltb 0 ed.cursor_position)) [
  | inl e ↦
      let (t, r, n, a) =
        remove_at_lem (ed.cursor_position - 1) ed.input_buffer (ground (arith, v.cursor_in_line))
          v.line_ascii in
      rw (e, r) (edited_lem ed (ed.cursor_position - 1) t v (omega (arith, v.cursor_in_line)) a)
  | inr e ↦ rw e (edited_lem ed ed.cursor_position ed.input_buffer v v.cursor_in_line v.line_ascii)
]
on_key_lem up control ed v =
    elim (Bool-cases
      (ltb 50 ed.history_position || leb (length ed.commands_history - 1) ed.history_position)) [
        | inl e ↦ rw e v
        | inr e ↦ rw e (recall_lem ed (ed.history_position + 1) v (ground arith))
      ]
on_key_lem down control ed v = elim (Bool-cases (ed.history_position == 0)) [
  | inl e ↦ rw e v
  | inr e ↦ rw e (recall_lem ed (ed.history_position - 1) v (omega (arith, v.position_in_history)))
]
on_key_lem enter control ed v =
    remember_lem ed.input_buffer ed.commands_history (omega (arith, v.position_in_history))
      v.line_ascii v.history_ascii
on_key_lem other_key control ed v = v
