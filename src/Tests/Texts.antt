-- ===== src/Tests/Texts.antt =====
-- Texts in hexadecimal and lines that are typed, at concrete inputs.
use yuv_lightning_ldk_sample.Prelude.{
  ℕ, All, [], ◌∷◌, ◌≡◌, arith, some, ◌++◌, false, refl, suc, zero,
}
use yuv_lightning_ldk_sample.Cli.LineEditor.{
  read_input, Screen, key, up, char, backspace, enter, left, read,
}
use yuv_lightning_ldk_sample.HexUtils.{to_vec, hex_str}
use yuv_lightning_ldk_sample.Cli.LineEditor.Safety.{IsSafe, read_input-IsSafe}
use yuv_lightning_ldk_sample.Prelude.Text.{IsByte, codes, Bytes}
use yuv_lightning_ldk_sample.HexUtils.RoundTrip.{to_vec-hex_str}
use yuv_lightning_ldk_sample.Cli.LineEditor.Typing.{keys, read_input_typed}

abbrev copies : ℕ → ℕ → Bytes
copies zero c = []
copies (suc n) c = c ∷ copies n c

copies-IsByte : (n : ℕ) → All IsByte (copies n 3)
copies-IsByte zero = tt
copies-IsByte (suc n) = (refl, copies-IsByte n)

bytes-IsByte : All IsByte (0 ∷ 171 ∷ [])
bytes-IsByte = (refl, (refl, tt))

to_vec-hex_str_example : to_vec (hex_str (0 ∷ 171 ∷ [])) ≡ some (0 ∷ 171 ∷ [])
to_vec-hex_str_example = to_vec-hex_str (0 ∷ 171 ∷ []) bytes-IsByte

abbrev screen : Screen
screen = record { term_width = 80; prefix_size = 2 }

read_input-IsSafe_example : IsSafe (
    read_input screen (codes "ls" ∷ []) (
      key up false
      ∷ key backspace false
      ∷ key left false
      ∷ key (char 97) false
      ∷ key enter false
      ∷ []))
read_input-IsSafe_example =
    read_input-IsSafe screen (codes "ls" ∷ [])
      (key up false
        ∷ key backspace false
        ∷ key left false
        ∷ key (char 97) false
        ∷ key enter false
        ∷ [])
      (omega arith) ((refl, (refl, tt)), tt) (tt, (tt, (tt, (tt, (tt, tt)))))

read_input_typed_example :
    read_input screen (codes "ls" ∷ []) (keys (codes "hi") ++ key enter false ∷ [])
    ≡ read (some (codes "hi")) (codes "hi" ∷ codes "ls" ∷ [])
read_input_typed_example =
    read_input_typed screen 104 (105 ∷ []) (codes "ls" ∷ []) false [] (omega arith)
      (refl, (refl, tt))
