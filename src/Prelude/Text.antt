-- ===== src/Prelude/Text.antt =====
-- Rust's `str` as its UTF-8 bytes, and the methods of `str` and `[u8]` that the program calls.
use Prim.Native.Nat.{ℕ}
use Prim.Native.Char.{code}
use Prim.Native.String.{String}
use mathlib.Core.Path.{◌≡◌, refl}
use mathlib.Core.Logic.{◌↔◌, ◌≢◌}
use mathlib.Core.Bool.{Bool, true, false, ◌&&◌, ◌||◌}
use mathlib.Core.Option.{Option, none, some}
use mathlib.Core.List.{List, [], ◌∷◌, ◌++◌}
use native.Mathlib.Omega.{arith}
use yuv_lightning_ldk_sample.Prelude.Tests.{ltb, leb, ◌==◌, if◌then◌else◌}
use yuv_lightning_ldk_sample.Prelude.Lists.{All, is_empty}

abbrev pub Bytes : Type 0
Bytes = List ℕ

-- the bytes of a literal, which is ASCII
abbrev pub codes : String → Bytes
codes String.[] = []
codes (String.◌∷◌ c s) = code c ∷ codes s

-- `a == b` on strings, byte vectors and arrays
unfoldable pub equal : Bytes → Bytes → Bool
equal [] [] = true
equal [] (y ∷ b) = false
equal (x ∷ a) [] = false
equal (x ∷ a) (y ∷ b) = x == y && equal a b

pub equal_iff : (a b : Bytes) → (equal a b ≡ true) ↔ (a ≡ b)
unfolding equal
equal_iff [] [] = ground arith
equal_iff [] (y ∷ b) = ground arith
equal_iff (x ∷ a) [] = ground arith
equal_iff (x ∷ a) (y ∷ b) = ground (arith, equal_iff a b)

pub equal_self : (a : Bytes) → equal a a ≡ true
equal_self a = (equal_iff a a).1 refl

-- No byte of the text is `c`.
abbrev pub Lacks : ℕ → Bytes → Type 0
Lacks c = All (λ b. b ≢ c)

abbrev pub IsByte : ℕ → Type 0
IsByte b = ltb b 256 ≡ true

abbrev pub IsAscii : ℕ → Type 0
IsAscii b = ltb b 128 ≡ true

-- puts a byte in front of the first part
abbrev pub push_front : ℕ → List Bytes → List Bytes
push_front c [] = (c ∷ []) ∷ []
push_front c (p ∷ ps) = (c ∷ p) ∷ ps

-- `s.split(sep)` for a separator of one byte: always one part at least
unfoldable pub split : ℕ → Bytes → List Bytes
split sep [] = [] ∷ []
split sep (c ∷ s) = let rest = split sep s in if c == sep then [] ∷ rest else push_front c rest

-- `s.splitn(2, sep)` as a pair: what stands before the first separator, and what follows it
unfoldable pub split_once : ℕ → Bytes → Option (Bytes × Bytes)
split_once sep [] = none
split_once sep (c ∷ s) =
    let rest = split_once sep s in
    if c == sep then some ([], s) else elim rest [ none ↦ none | some (a, b) ↦ some (c ∷ a, b) ]

-- `s.rsplitn(2, sep)` as a pair: what stands before the last separator, and what follows it
unfoldable pub rsplit_once : ℕ → Bytes → Option (Bytes × Bytes)
rsplit_once sep [] = none
rsplit_once sep (c ∷ s) = elim (rsplit_once sep s) [
  | some (a, b) ↦ some (c ∷ a, b)
  | none ↦ if c == sep then some ([], s) else none
]

-- the white space of ASCII text in the sense of `char::is_whitespace`
unfoldable pub is_whitespace : ℕ → Bool
is_whitespace c = c == 32 || (leb 9 c && leb c 13)

-- the words before the text and the word that is being read
unfoldable pub words_from : Bytes → Bytes → List Bytes
unfolding is_whitespace
words_from cur [] = if is_empty cur then [] else cur ∷ []
words_from cur (c ∷ s) =
    let stop = words_from [] s in
    let go = words_from (cur ++ c ∷ []) s in
    if is_whitespace c then (if is_empty cur then stop else cur ∷ stop) else go

-- `s.split_whitespace()` on ASCII text
unfoldable pub split_whitespace : Bytes → List Bytes
unfolding words_from
split_whitespace s = words_from [] s

-- `s.trim_start()` and `s.trim_end()` on ASCII text
unfoldable pub trim_start : Bytes → Bytes
unfolding is_whitespace
trim_start [] = []
trim_start (c ∷ s) = let rest = trim_start s in if is_whitespace c then rest else c ∷ s

unfoldable pub trim_end : Bytes → Bytes
unfolding is_whitespace
trim_end [] = []
trim_end (c ∷ s) =
    let rest = trim_end s in if is_whitespace c && is_empty rest then [] else c ∷ rest

unfoldable pub trim : Bytes → Bytes
unfolding trim_start trim_end
trim s = trim_end (trim_start s)

-- `s.strip_suffix('\r').unwrap_or(s)`
abbrev pub strip_return : Bytes → Bytes
strip_return [] = []
strip_return (c ∷ []) = if c == b'\r' then [] else c ∷ []
strip_return (c ∷ d ∷ s) = c ∷ strip_return (d ∷ s)

-- the lines of a text behind the part `cur` of a line that is being read
unfoldable pub lines_from : Bytes → Bytes → List Bytes
lines_from cur [] = if is_empty cur then [] else cur ∷ []
lines_from cur (c ∷ s) =
    let stop = strip_return cur ∷ lines_from [] s in
    let go = lines_from (cur ++ c ∷ []) s in if c == b'\n' then stop else go

-- `str::lines`, `BufRead::lines`: the last newline opens no line, and a return before it is dropped
unfoldable pub lines : Bytes → List Bytes
unfolding lines_from
lines s = lines_from [] s
