-- ===== src/Sweep/Restarts.antt =====
-- src/sweep.rs: rounds in which the program ends anywhere in the first half, and a whole one after
-- them.
use yuv_lightning_ldk_sample.Prelude.{
  ℕ, [], ◌∷◌, List, All, length, ◌≡◌, take, false, none, some, ◌==◌, Bool-cases, inl, true, arith,
  inr, ◌∙◌, subst, ap, some_eq, ◌≢◌, refl, ◌⊎◌, Option-cases, is_empty, ◌++◌, sym, Option, is_some,
}
use yuv_lightning_ldk_sample.Prelude.Text.{Bytes, equal, equal_iff, equal_self}
use yuv_lightning_ldk_sample.Sweep.{
  move_file, move_files, Dirs, files_of, batch, gather, contents, gather_listed,
}
use yuv_lightning_ldk_sample.Sweep.Steps.{do_steps, gather_steps}
use yuv_lightning_ldk_sample.Prelude.Assoc.{get, Assoc, get-insert}
use yuv_lightning_ldk_sample.Sweep.Crashes.{IsGood, gather_steps-Always, write-IsBatched}
use yuv_lightning_ldk_sample.Sweep.Gather.{Distinct}
use yuv_lightning_ldk_sample.Sweep.Kept.{
  IsSound, IsHeld, IsPart, IsKept, all_at, IsBatched, IsPart-contents,
}
use yuv_lightning_ldk_sample.Sweep.Sound.{take-Always, tail-IsSound}

-- Rounds whose first half ends after so many calls to the file system, each with its key.
unfoldable pub crashed_rounds : List (Bytes × ℕ) → Dirs → Dirs
crashed_rounds [] d = d
crashed_rounds ((key, n) ∷ rounds) d =
    crashed_rounds rounds (do_steps (take n (gather_steps key d)) d)

-- the keys of the rounds, and that of the last one
abbrev pub keys_of : List (Bytes × ℕ) → Bytes → List Bytes
keys_of [] last = last ∷ []
keys_of ((key, n) ∷ rounds) last = key ∷ keys_of rounds last

-- No two keys are the same.
abbrev pub AreApart : List Bytes → Type 0
AreApart [] = Unit
AreApart (key ∷ keys) = All (λ k. equal key k ≡ false) keys × AreApart keys

part_not_empty : (c s : Bytes) → c ≢ [] → IsPart c s → is_empty s ≡ false
part_not_empty c [] some_byte part =
    absurd (some_byte (nil_part part.before c part.after part.splits))
  where
    nil_part : (before c after : Bytes) → [] ≡ before ++ (c ++ after) → c ≡ []
    nil_part [] [] after e = refl
    nil_part [] (x ∷ c) after e = cc
    nil_part (x ∷ before) c after e = cc
part_not_empty c (x ∷ s) some_byte part = refl

move_file-spendable : (n b : Bytes) (d : Dirs) → (move_file n b d).spendable ≡ d.spendable
unfolding move_file
move_file-spendable n b d = elim (Bool-cases (length n == 64)) [
  | inl named ↦ rw named refl
  | inr short ↦ rw short refl
]

-- a file of the processing directory is not pending
not_pending :
    {c : Bytes} (name : Bytes) (listed : Assoc Bytes) (d : Dirs)
    → d.pending ≡ some listed
    → IsSound [] d
    → get name (files_of d.processing) ≡ some c
    → get name listed ≡ none
not_pending {c} name listed d e sound held = elim (Option-cases (get name listed)) [
  | inl absent ↦ absent
  | inr (b, there) ↦
      let none_there =
        all_at (λ k. get k (files_of d.processing) ≡ none) name b (files_of d.pending) sound.apart
          (ap (λ q. get name (files_of q)) e ∙ there) in
      cc (none_there, held)
]

module _ (c : Bytes) where
  crashed_rounds-IsGood :
      (rounds : List (Bytes × ℕ)) (last : Bytes) (d : Dirs)
      → AreApart (keys_of rounds last)
      → IsGood c (keys_of rounds last) d
      → IsGood c (last ∷ []) (crashed_rounds rounds d)
  unfolding crashed_rounds
  crashed_rounds-IsGood [] last d apart good = good
  crashed_rounds-IsGood ((key, n) ∷ rounds) last d apart good =
      crashed_rounds-IsGood rounds last (do_steps (take n (gather_steps key d)) d) apart.1 (
        take-Always (IsGood c (keys_of rounds last)) n (gather_steps key d) d
          (gather_steps-Always c key (keys_of rounds last) d apart.0 good.0 good.1))

  move_file-stays :
      (name n b : Bytes) (d : Dirs)
      → equal n name ≡ false
      → get name (files_of d.processing) ≡ some c
      → get name (files_of (move_file n b d).processing) ≡ some c
  unfolding move_file
  move_file-stays name n b d other h = elim (Bool-cases (length n == 64)) [
    | inl named ↦ rw named (get-insert n name b (files_of d.processing) ∙ rw other h)
    | inr short ↦ rw short h
  ]

  move_file-arrives :
      (name n b : Bytes) (d : Dirs)
      → length n ≡ 64
      → n ≡ name
      → b ≡ c
      → get name (files_of (move_file n b d).processing) ≡ some c
  unfolding move_file
  move_file-arrives name n b d size e f =
      let named : (length n == 64) ≡ true = ground arith in
      let same : equal n name ≡ true = (equal_iff n name).1 e in
      rw named (get-insert n name b (files_of d.processing) ∙ rw same (ap some f))

  -- a file that is in the processing directory stays there while others are moved
  move_files-stays :
      (name : Bytes) (listed : Assoc Bytes) (d : Dirs)
      → get name listed ≡ none
      → get name (files_of d.processing) ≡ some c
      → get name (files_of (move_files listed d).processing) ≡ some c
  unfolding move_files get
  move_files-stays name [] d absent h = h
  move_files-stays name ((n, b) ∷ listed) d absent h = elim (Bool-cases (equal n name)) [
    | inl same ↦ cc (rw same at absent)
    | inr other ↦
        move_files-stays name listed (move_file n b d) (rw other at absent)
          (move_file-stays name n b d other h)
  ]

  move_files-arrives :
      (name : Bytes) (listed : Assoc Bytes) (d : Dirs)
      → length name ≡ 64
      → Distinct listed
      → get name listed ≡ some c
      → get name (files_of (move_files listed d).processing) ≡ some c
  unfolding move_files get
  move_files-arrives name [] d size fresh h = cc
  move_files-arrives name ((n, b) ∷ listed) d size fresh h = elim (Bool-cases (equal n name)) [
    | inl same ↦
        let e = (equal_iff n name).0 same in
        move_files-stays name listed (move_file n b d) (subst (λ k. get k listed ≡ none) e fresh.0)
          (move_file-arrives name n b d (ap length e ∙ size) e (some_eq (rw same at h)))
    | inr other ↦ move_files-arrives name listed (move_file n b d) size fresh.1 (rw other at h)
  ]

  move_files-spendable :
      (listed : Assoc Bytes) (d : Dirs) → (move_files listed d).spendable ≡ d.spendable
  unfolding move_files
  move_files-spendable [] d = refl
  move_files-spendable ((n, b) ∷ listed) d =
      move_files-spendable listed (move_file n b d) ∙ move_file-spendable n b d

  -- What the files of the processing directory hold is batched, and what is in a batch stays there.
  batch-IsBatched :
      (key : Bytes) (d : Dirs)
      → c ≢ []
      → get key (files_of d.spendable) ≡ none
      → IsHeld c (files_of d.processing) ⊎ IsBatched c (files_of d.spendable)
      → IsBatched c (files_of (batch key d).spendable)
  unfolding batch
  batch-IsBatched key d some_byte absent (inl (name, held)) =
      let part = IsPart-contents c name (files_of d.processing) held in
      rw (part_not_empty c (contents (files_of d.processing)) some_byte part) (
        key,
        contents (files_of d.processing),
        get-insert key key (contents (files_of d.processing)) (files_of d.spendable)
            ∙ rw equal_self refl,
        part,
      )
  batch-IsBatched key d some_byte absent (inr batched) =
      elim (Bool-cases (is_empty (contents (files_of d.processing)))) [
        | inl nothing ↦ rw nothing batched
        | inr full ↦ rw full (
            write-IsBatched c key (contents (files_of d.processing)) (files_of d.spendable) absent
              batched)
      ]

  moved :
      (listed : Assoc Bytes) (d : Dirs)
      → d.pending ≡ some listed
      → IsGood c [] d
      → IsHeld c (files_of (move_files listed d).processing)
        ⊎ IsBatched c (files_of (move_files listed d).spendable)
  moved listed d e (sound, inl (name, size, held)) = inl (
    name,
    move_files-arrives name listed d size (subst (λ q. Distinct (files_of q)) e sound.distinct)
        (subst (λ q. get name (files_of q) ≡ some c) e held),
  )
  moved listed d e (sound, inr (inl (name, held))) =
      inl (name, move_files-stays name listed d (not_pending name listed d e sound held) held)
  moved listed d e (sound, inr (inr batched)) =
      inr (subst (λ q. IsBatched c (files_of q)) (sym (move_files-spendable listed d)) batched)

  -- Let a file hold `c`, which is not empty, and be pending, or half-way, or batched already. Let any
  -- number of rounds run in which the program ends anywhere in the first half: between two moves,
  -- before or after the write of the batch, or amid the removal of the directory. Then the first half
  -- of a round that runs to its end leaves `c` as a part of a file that the second half claims. The
  -- pending directory is there, the names of its files are not repeated, there or in the
  -- processing directory, and the keys of the rounds are all different and none is that of a batch.
  pub gather-crashed_rounds :
      (rounds : List (Bytes × ℕ)) (last : Bytes) (d : Dirs)
      → c ≢ []
      → AreApart (keys_of rounds last)
      → IsSound (keys_of rounds last) d
      → IsKept c d
      → IsBatched c (files_of (gather last (crashed_rounds rounds d)).spendable)
  unfolding gather
  gather-crashed_rounds rounds last d some_byte apart sound kept =
      go (crashed_rounds rounds d).pending refl
    where
      good : IsGood c (last ∷ []) (crashed_rounds rounds d)
      good = crashed_rounds-IsGood rounds last d apart (sound, kept)

      go :
          (p : Option (Assoc Bytes))
          → (crashed_rounds rounds d).pending ≡ p
          → IsBatched c (files_of (gather_listed last p (crashed_rounds rounds d)).spendable)
      go none e = cc (good.0.there, ap is_some e)
      go (some listed) e =
          let here = crashed_rounds rounds d in
          batch-IsBatched last (move_files listed here) some_byte
            (subst (λ q. get last (files_of q) ≡ none) (sym (move_files-spendable listed here))
              good.0.fresh.0)
            (moved listed here e (tail-IsSound last [] here good.0, good.1))
