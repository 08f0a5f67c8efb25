-- ===== src/Sweep/Steps.antt =====
-- src/sweep.rs: the first half of a round as the calls to the file system that it makes, in their
-- order, so that the program can end between any two of them. `remove_dir_all` takes the files away
-- one by one, then the directory; the write of the store is one step.
use yuv_lightning_ldk_sample.Prelude.{
  List, if◌then◌else◌, ◌∷◌, Option, ◌≡◌, ◌++◌, some, length, is_empty, [], ◌==◌, refl, Bool-cases,
  none, ◌∙◌, inl, inr, ap, sym, true, false,
}
use yuv_lightning_ldk_sample.Sweep.{
  batch, move_file, contents, move_files, gather, Dirs, files_of, gather_listed, remove,
}
use yuv_lightning_ldk_sample.Prelude.Assoc.{Assoc, insert}
use yuv_lightning_ldk_sample.Prelude.Text.{Bytes}

pub data FileStep : Type 0 where
  -- `create_dir_all` and `fs::rename`
  rename : Bytes → Bytes → FileStep
  -- `persister.write`, of what the files of the processing directory hold
  write_batch : Bytes → FileStep
  -- `remove_dir_all`: one file, and the directory at last
  unlink : Bytes → FileStep
  remove_dir : FileStep

unfoldable pub do_step : FileStep → Dirs → Dirs
do_step (rename name content) d = move_file name content d
do_step (write_batch key) d = record d {
  spendable = some (insert key (contents (files_of d.processing)) (files_of d.spendable));
}
do_step (unlink name) d = record d { processing = some (remove name (files_of d.processing)) }
do_step remove_dir d = record d { processing = none }

unfoldable pub do_steps : List FileStep → Dirs → Dirs
do_steps [] d = d
do_steps (s ∷ steps) d = do_steps steps (do_step s d)

-- the files that are moved: the others may be temporary files
unfoldable pub rename_steps : Assoc Bytes → List FileStep
rename_steps [] = []
rename_steps ((name, content) ∷ listed) =
    let later = rename_steps listed in
    if length name == 64 then rename name content ∷ later else later

unfoldable pub unlink_steps : Assoc Bytes → List FileStep
unlink_steps [] = remove_dir ∷ []
unlink_steps ((name, content) ∷ files) = unlink name ∷ unlink_steps files

-- what follows the moves, for the files that are in the processing directory then
unfoldable pub batch_steps : Bytes → Assoc Bytes → List FileStep
unfolding unlink_steps contents
batch_steps key files =
    if is_empty (contents files) then [] else write_batch key ∷ unlink_steps files

abbrev pub steps_listed : Bytes → Option (Assoc Bytes) → Dirs → List FileStep
steps_listed key none d = []
steps_listed key (some listed) d =
    rename_steps listed ++ batch_steps key (files_of (move_files listed d).processing)

-- the calls of the first half of a round that starts in these directories
unfoldable pub gather_steps : Bytes → Dirs → List FileStep
unfolding rename_steps batch_steps
gather_steps key d = steps_listed key d.pending d

pub do_steps-append :
    (xs ys : List FileStep) (d : Dirs) → do_steps (xs ++ ys) d ≡ do_steps ys (do_steps xs d)
unfolding do_steps
do_steps-append [] ys d = refl
do_steps-append (s ∷ xs) ys d = do_steps-append xs ys (do_step s d)

rename_steps-nil : rename_steps [] ≡ []
unfolding rename_steps
rename_steps-nil = refl

rename_steps-named :
    (name content : Bytes) (listed : Assoc Bytes)
    → (length name == 64) ≡ true
    → rename_steps ((name, content) ∷ listed) ≡ rename name content ∷ rename_steps listed
unfolding rename_steps
rename_steps-named name content listed named = rw named

rename_steps-other :
    (name content : Bytes) (listed : Assoc Bytes)
    → (length name == 64) ≡ false
    → rename_steps ((name, content) ∷ listed) ≡ rename_steps listed
unfolding rename_steps
rename_steps-other name content listed other = rw other

move_file-other :
    (name content : Bytes) (d : Dirs) → (length name == 64) ≡ false → move_file name content d ≡ d
unfolding move_file
move_file-other name content d other = rw other

pub do_steps-rename_steps :
    (listed : Assoc Bytes) (d : Dirs) → do_steps (rename_steps listed) d ≡ move_files listed d
unfolding do_steps do_step move_files
do_steps-rename_steps [] d = ap (λ steps. do_steps steps d) rename_steps-nil
do_steps-rename_steps ((name, content) ∷ listed) d = elim (Bool-cases (length name == 64)) [
  | inl named ↦
      ap (λ steps. do_steps steps d) (rename_steps-named name content listed named)
      ∙ do_steps-rename_steps listed (move_file name content d)
  | inr other ↦
      ap (λ steps. do_steps steps d) (rename_steps-other name content listed other)
      ∙ do_steps-rename_steps listed d
      ∙ ap (move_files listed) (sym (move_file-other name content d other))
]

do_steps-unlink_steps :
    (files : Assoc Bytes) (d : Dirs)
    → do_steps (unlink_steps files) d ≡ record d { processing = none }
unfolding do_steps unlink_steps do_step
do_steps-unlink_steps [] d = refl
do_steps-unlink_steps ((name, content) ∷ files) d =
    do_steps-unlink_steps files (do_step (unlink name) d)

do_steps-batch_steps :
    (key : Bytes) (d : Dirs) → do_steps (batch_steps key (files_of d.processing)) d ≡ batch key d
unfolding do_steps batch_steps batch do_step
do_steps-batch_steps key d = elim (Bool-cases (is_empty (contents (files_of d.processing)))) [
  | inl nothing ↦ rw nothing
  | inr full ↦ rw full (do_steps-unlink_steps (files_of d.processing) (do_step (write_batch key) d))
]

-- All the steps, one after the other, are the first half of the round.
pub do_steps-gather_steps :
    (key : Bytes) (d : Dirs) → do_steps (gather_steps key d) d ≡ gather key d
unfolding gather_steps gather
do_steps-gather_steps key d = gathered d.pending
  where
    gathered :
        (pending : Option (Assoc Bytes))
        → do_steps (steps_listed key pending d) d ≡ gather_listed key pending d
    gathered none = unfold do_steps in refl
    gathered (some listed) =
        let moved = do_steps-rename_steps listed d in
        do_steps-append (rename_steps listed) _ d
        ∙ ap (do_steps (batch_steps key (files_of (move_files listed d).processing))) moved
        ∙ do_steps-batch_steps key (move_files listed d)
