-- ===== src/Sweep/Gather.antt =====
-- The first half of a round loses no byte of the files that it moves.
use yuv_lightning_ldk_sample.Prelude.{
  ◌≡◌, ◌++◌, All, length, none, some, ◌∷◌, [], append_assoc, Bool-cases, refl, inl, inr, false,
  Option, arith, append-nil, ◌==◌, ap, ◌∙◌, true, is_empty,
}
use yuv_lightning_ldk_sample.Prelude.Assoc.{Assoc, get, insert}
use yuv_lightning_ldk_sample.Sweep.{
  move_files, contents, Bytes, move_file, files_of, equal, remove, gather, batch,
}
use yuv_lightning_ldk_sample.Prelude.Text.{equal_iff, equal_self}

-- No two files have one name.
abbrev pub Distinct : Assoc Bytes → Type 0
Distinct [] = Unit
Distinct ((name, content) ∷ files) = (get name files ≡ none) × Distinct files

-- Every name is that of 32 bytes in hexadecimal.
abbrev pub AllNamed : Assoc Bytes → Type 0
AllNamed = All (λ (f : Bytes × Bytes). length f.0 ≡ 64)

pub insert-fresh :
    (name content : Bytes) (files : Assoc Bytes)
    → get name files ≡ none
    → insert name content files ≡ files ++ (name, content) ∷ []
unfolding insert get
insert-fresh name content [] h = refl
insert-fresh name content ((n, c) ∷ files) h = elim (Bool-cases (equal n name)) [
  | inl same ↦ cc (rw same at h)
  | inr other ↦ rw (other, insert-fresh name content files (rw other at h))
]

contents-append : (xs ys : Assoc Bytes) → contents (xs ++ ys) ≡ contents xs ++ contents ys
unfolding contents
contents-append [] ys = refl
contents-append ((n, c) ∷ xs) ys = rw (contents-append xs ys, append_assoc)

get-append_other :
    (name n c : Bytes) (xs ys : Assoc Bytes)
    → get name (xs ++ (n, c) ∷ ys) ≡ none
    → equal n name ≡ false
unfolding get
get-append_other name n c [] ys h = elim (Bool-cases (equal n name)) [
  | inl same ↦ cc (rw same at h)
  | inr other ↦ other
]
get-append_other name n c ((m, b) ∷ xs) ys h = elim (Bool-cases (equal m name)) [
  | inl same ↦ cc (rw same at h)
  | inr other ↦ get-append_other name n c xs ys (rw other at h)
]

pub equal_comm : (a b : Bytes) → equal a b ≡ false → equal b a ≡ false
equal_comm a b h = ground (arith, equal_iff a b, equal_iff b a)

pub Distinct-middle :
    (n c : Bytes) (xs ys : Assoc Bytes) → Distinct (xs ++ (n, c) ∷ ys) → get n xs ≡ none
unfolding get
Distinct-middle n c [] ys h = refl
Distinct-middle n c ((m, b) ∷ xs) ys h =
    rw (equal_comm n m (get-append_other m n c xs ys h.0)) (Distinct-middle n c xs ys h.1)

module _ (key : Bytes) (s : Option (Assoc Bytes)) where
  -- one file goes from the head of the one directory to the end of the other
  move_file_lem :
      (n c : Bytes) (listed moved : Assoc Bytes) (p : Option (Assoc Bytes))
      → length n ≡ 64
      → files_of p ≡ moved
      → get n moved ≡ none
      → move_file n c (record { pending = some ((n, c) ∷ listed); processing = p; spendable = s })
        ≡ record { pending = some listed; processing = some (moved ++ (n, c) ∷ []); spendable = s }
  unfolding move_file remove
  move_file_lem n c listed moved p len e fresh =
      let named : (length n == 64) ≡ true = ground arith in
      rw (named, equal_self n, e, insert-fresh n c moved fresh)

  move_files_lem :
      (listed moved : Assoc Bytes)
      → AllNamed listed
      → Distinct (moved ++ listed)
      → move_files listed (record { pending = some listed; processing = some moved; spendable = s })
        ≡ record { pending = some []; processing = some (moved ++ listed); spendable = s }
  unfolding move_files
  move_files_lem [] moved h fresh = rw append-nil
  move_files_lem ((n, c) ∷ listed) moved h fresh =
      ap (move_files listed) (
        move_file_lem n c listed moved (some moved) h.0 refl
          (Distinct-middle n c moved listed fresh))
      ∙ move_files_lem listed (moved ++ (n, c) ∷ []) h.1 (rw append_assoc fresh)
      ∙ rw append_assoc

  -- What the files of the pending directory hold goes, in the order in which they are listed, into
  -- one new file; the pending directory is empty then, and the one in between is gone. This is so if
  -- the names of the files are those of 32 bytes in hexadecimal, with no two the same, if the files
  -- are not all empty, and if nothing was left to process.
  pub gather_lem :
      (n c : Bytes) (listed : Assoc Bytes)
      → AllNamed ((n, c) ∷ listed)
      → Distinct ((n, c) ∷ listed)
      → is_empty (contents ((n, c) ∷ listed)) ≡ false
      → gather key (record { pending = some ((n, c) ∷ listed); processing = none; spendable = s })
        ≡ record {
          pending = some [];
          processing = none;
          spendable = some (insert key (contents ((n, c) ∷ listed)) (files_of s));
        }
  unfolding gather move_files batch get
  gather_lem n c listed h fresh full =
      let first = move_file_lem n c listed [] none h.0 refl refl in
      let all = move_files_lem listed ((n, c) ∷ []) h.1 fresh in
      ap (batch key) (ap (move_files listed) first ∙ all) ∙ rw (batch, full)
