-- ===== src/Files.antt =====
-- src/disk.rs: the log file, and the files of the network graph and of the scorer. A file that cannot
-- be opened or read is as good as none.
use yuv_lightning_ldk_sample.Prelude.{ℕ, Option, ◌++◌, suc, [], some, ◌∷◌, none, zero}
use yuv_lightning_ldk_sample.Prelude.Text.{Bytes, codes}
use yuv_lightning_ldk_sample.Prelude.Assoc.{Assoc, insert, get}
use yuv_lightning_ldk_sample.Prelude.Decimal.{decimal}

-- lightning: `Record`, with the texts that the logger prints
pub record LogRecord : Type 0 where
  pub level : Bytes
  pub module_path : Bytes
  pub line : ℕ
  pub args : Bytes

abbrev pub logs_file : Bytes
logs_file = codes "logs/logs.txt"

-- `{:<5}`
unfoldable pub padded : ℕ → Bytes → Bytes
padded zero s = s
padded (suc n) [] = b' ' ∷ padded n []
padded (suc n) (c ∷ s) = c ∷ padded n s

-- one line of the log; `time` is the text of the current time
unfoldable pub log_line : Bytes → LogRecord → Bytes
unfolding padded
log_line time r =
    time
    ++ codes " "
    ++ padded 5 r.level
    ++ codes " ["
    ++ r.module_path
    ++ codes ":"
    ++ decimal r.line
    ++ codes "] "
    ++ r.args
    ++ codes "\n"

abbrev pub contents_or_none : Option Bytes → Bytes
contents_or_none none = []
contents_or_none (some text) = text

-- `FilesystemLogger::log`: the line is appended to the file
unfoldable pub log : Bytes → LogRecord → Assoc Bytes → Assoc Bytes
unfolding log_line
log time r files =
    insert logs_file (contents_or_none (get logs_file files) ++ log_line time r) files

-- what a reader makes of a file, or else a new value
abbrev pub read_or : {A : Type 0} → (Bytes → Option A) → A → Option Bytes → A
read_or read fresh none = fresh
read_or read fresh (some bytes) = elim (read bytes) [ none ↦ fresh | some a ↦ a ]

-- `NetworkGraph::read` and `NetworkGraph::new`
unfoldable pub read_network : {G : Type 0} → (Bytes → Option G) → G → Bytes → Assoc Bytes → G
read_network read fresh path files = read_or read fresh (get path files)

-- `ProbabilisticScorer::read` and `ProbabilisticScorer::new`, each with the graph
unfoldable pub read_scorer :
    {G S : Type 0} → (G → Bytes → Option S) → (G → S) → G → Bytes → Assoc Bytes → S
read_scorer read fresh graph path files = read_or (read graph) (fresh graph) (get path files)
