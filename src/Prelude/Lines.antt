-- ===== src/Prelude/Lines.antt =====
-- Texts of lines, and reading them back.
use yuv_lightning_ldk_sample.Prelude.{
  List, ◌++◌, ◌∷◌, All, ◌≡◌, [], ◌∙◌, append-nil, append_assoc, ◌==◌, refl, ap, false, arith,
  ==_iff,
}
use yuv_lightning_ldk_sample.Prelude.Text.{lines, Bytes, lines_from, Lacks, strip_return}

-- The text is one line of a file.
abbrev pub IsLine : Bytes → Type 0
IsLine info = Lacks b'\n' info × (strip_return info ≡ info)

-- the contents of a file of lines
abbrev pub text_of : List Bytes → Bytes
text_of [] = []
text_of (info ∷ infos) = info ++ b'\n' ∷ text_of infos

lines_from-line :
    (info cur rest : Bytes)
    → Lacks b'\n' info
    → lines_from cur (info ++ b'\n' ∷ rest) ≡ strip_return (cur ++ info) ∷ lines_from [] rest
unfolding lines_from
lines_from-line [] cur rest h = rw append-nil
lines_from-line (c ∷ info) cur rest h =
    let other : (c == b'\n') ≡ false = ground (arith, ==_iff c b'\n', h.0) in
    rw (other, lines_from-line info (cur ++ c ∷ []) rest h.1, append_assoc)

pub lines-text_of : (infos : List Bytes) → All IsLine infos → lines (text_of infos) ≡ infos
unfolding lines lines_from
lines-text_of [] h = refl
lines-text_of (info ∷ infos) h =
    lines_from-line info [] (text_of infos) h.0.0
    ∙ rw (h.0.1) (ap (λ t. info ∷ t) (lines-text_of infos h.1))

pub text_of-append :
    (infos : List Bytes) (info : Bytes)
    → text_of (infos ++ info ∷ []) ≡ text_of infos ++ (info ++ b'\n' ∷ [])
text_of-append [] info = refl
text_of-append (i ∷ infos) info = rw (text_of-append infos info, append_assoc)
