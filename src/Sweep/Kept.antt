-- ===== src/Sweep/Kept.antt =====
-- src/sweep.rs: what one step of the first half of a round does to the files that the directories hold.
use yuv_lightning_ldk_sample.Prelude.{
  [], ◌∷◌, ◌≡◌, ◌++◌, none, some, false, length, ◌⊎◌, arith, Bool-cases, inl, refl, subst, inr, ap,
  some_eq, ◌∙◌, sym, append_assoc, List, All, ◌==◌, is_some, true,
}
use yuv_lightning_ldk_sample.Sweep.{remove, Dirs, contents, files_of, move_file}
use yuv_lightning_ldk_sample.Prelude.Assoc.{get, Assoc, insert, get-insert}
use yuv_lightning_ldk_sample.Prelude.Text.{Bytes, equal, equal_iff, equal_self}
use yuv_lightning_ldk_sample.Sweep.Gather.{equal_comm, Distinct}

-- `c` stands somewhere in `s`
pub record IsPart (c s : Bytes) : Type 0 where
  pub before : Bytes
  pub after : Bytes
  pub splits : s ≡ before ++ (c ++ after)

-- A file of the directory holds `c`.
abbrev pub IsHeld : Bytes → Assoc Bytes → Type 0
IsHeld c files = (name : Bytes) × (get name files ≡ some c)

-- `c` is part of a file of the directory.
abbrev pub IsBatched : Bytes → Assoc Bytes → Type 0
IsBatched c files = (key : Bytes) × (file : Bytes) × (get key files ≡ some file) × IsPart c file

-- One of the three directories still has `c`.
abbrev pub IsKept : Bytes → Dirs → Type 0
IsKept c d =
    ((name : Bytes) × (length name ≡ 64) × (get name (files_of d.pending) ≡ some c))
    ⊎ IsHeld c (files_of d.processing)
    ⊎ IsBatched c (files_of d.spendable)

pub get-remove-other :
    (k n : Bytes) (files : Assoc Bytes) → equal n k ≡ false → get k (remove n files) ≡ get k files
unfolding get remove
get-remove-other k n [] h = refl
get-remove-other k n ((j, c) ∷ files) h =
    ground (arith, equal_iff j n, equal_iff j k, equal_iff n k, get-remove-other k n files h)

pub get-remove-none :
    (k n : Bytes) (files : Assoc Bytes) → get k files ≡ none → get k (remove n files) ≡ none
unfolding get remove
get-remove-none k n [] h = refl
get-remove-none k n ((j, c) ∷ files) h =
    ground (arith, equal_iff j n, equal_iff j k, get-remove-none k n files)

pub get-remove-same :
    (n : Bytes) (files : Assoc Bytes) → Distinct files → get n (remove n files) ≡ none
unfolding get remove
get-remove-same n [] h = refl
get-remove-same n ((j, c) ∷ files) h = elim (Bool-cases (equal j n)) [
  | inl same ↦ rw same (subst (λ k. get k files ≡ none) ((equal_iff j n).0 same) h.0)
  | inr other ↦ rw (other, other) (get-remove-same n files h.1)
]

pub remove-Distinct : (n : Bytes) (files : Assoc Bytes) → Distinct files → Distinct (remove n files)
unfolding remove
remove-Distinct n [] h = tt
remove-Distinct n ((j, c) ∷ files) h = elim (Bool-cases (equal j n)) [
  | inl same ↦ rw same (h.1)
  | inr other ↦ rw other (get-remove-none j n files h.0, remove-Distinct n files h.1)
]

pub IsPart-contents :
    (c n : Bytes) (files : Assoc Bytes) → get n files ≡ some c → IsPart c (contents files)
unfolding get contents
IsPart-contents c n [] h = cc
IsPart-contents c n ((j, b) ∷ files) h = elim (Bool-cases (equal j n)) [
  | inl same ↦ record {
    before = [];
    after = contents files;
    splits = ap (λ t. t ++ contents files) (some_eq (rw same at h));
  }
  | inr other ↦
      let p = IsPart-contents c n files (rw other at h) in
      record {
        before = b ++ p.before;
        after = p.after;
        splits = ap (λ t. b ++ t) p.splits ∙ sym (append_assoc b p.before (c ++ p.after));
      }
]

-- Nothing is in the way of the moves: the pending directory is there, with no name twice and none that
-- is in the processing directory, and none of the keys is that of a batch.
pub record IsSound (keys : List Bytes) (d : Dirs) : Type 0 where
  pub there : is_some d.pending ≡ true
  pub distinct : Distinct (files_of d.pending)
  pub apart :
      All (λ (f : Bytes × Bytes). get f.0 (files_of d.processing) ≡ none) (files_of d.pending)
  pub fresh : All (λ k. get k (files_of d.spendable) ≡ none) keys

-- The files of the list are pending.
abbrev pub ArePending : Assoc Bytes → Assoc Bytes → Type 0
ArePending pending = All (λ (f : Bytes × Bytes). get f.0 pending ≡ some f.1)

pub all_at :
    (P : Bytes → Type 0) (n c : Bytes) (files : Assoc Bytes)
    → All (λ (f : Bytes × Bytes). P f.0) files
    → get n files ≡ some c
    → P n
unfolding get
all_at P n c [] h e = cc
all_at P n c ((j, b) ∷ files) h e = elim (Bool-cases (equal j n)) [
  | inl same ↦ subst P ((equal_iff j n).0 same) h.0
  | inr other ↦ all_at P n c files h.1 (rw other at e)
]

pub remove-All :
    (P : Bytes × Bytes → Type 0) (n : Bytes) (files : Assoc Bytes)
    → All P files
    → All P (remove n files)
unfolding remove
remove-All P n [] h = tt
remove-All P n ((j, b) ∷ files) h = elim (Bool-cases (equal j n)) [
  | inl same ↦ rw same (h.1)
  | inr other ↦ rw other (h.0, remove-All P n files h.1)
]

-- a file that goes into a directory leaves those apart that have other names
pub apart-insert :
    (n c : Bytes) (files processing : Assoc Bytes)
    → get n files ≡ none
    → All (λ (f : Bytes × Bytes). get f.0 processing ≡ none) files
    → All (λ (f : Bytes × Bytes). get f.0 (insert n c processing) ≡ none) files
unfolding get
apart-insert n c [] processing absent h = tt
apart-insert n c ((j, b) ∷ files) processing absent h = elim (Bool-cases (equal j n)) [
  | inl same ↦ cc (rw same at absent)
  | inr other ↦ (
    get-insert n j c processing ∙ rw (equal_comm j n other) (h.0),
    apart-insert n c files processing (rw other at absent) h.1,
  )
]

pub still_pending :
    (n : Bytes) (listed pending : Assoc Bytes)
    → get n listed ≡ none
    → ArePending pending listed
    → ArePending (remove n pending) listed
unfolding get
still_pending n [] pending absent h = tt
still_pending n ((j, b) ∷ listed) pending absent h = elim (Bool-cases (equal j n)) [
  | inl same ↦ cc (rw same at absent)
  | inr other ↦ (
    get-remove-other j n pending (equal_comm j n other) ∙ h.0,
    still_pending n listed pending (rw other at absent) h.1,
  )
]

more_pending :
    (n b : Bytes) (listed pending : Assoc Bytes)
    → get n listed ≡ none
    → ArePending pending listed
    → ArePending ((n, b) ∷ pending) listed
unfolding get
more_pending n b [] pending absent h = tt
more_pending n b ((j, a) ∷ listed) pending absent h = elim (Bool-cases (equal j n)) [
  | inl same ↦ cc (rw same at absent)
  | inr other ↦
      ((rw (equal_comm j n other) (h.0)), more_pending n b listed pending (rw other at absent) h.1)
]

pub ArePending-refl : (files : Assoc Bytes) → Distinct files → ArePending files files
unfolding get
ArePending-refl [] h = tt
ArePending-refl ((n, b) ∷ files) h =
    (rw equal_self refl, more_pending n b files files h.0 (ArePending-refl files h.1))

module _ (c : Bytes) where
  pub rename-IsKept :
      (n b : Bytes) (d : Dirs)
      → (length n == 64) ≡ true
      → get n (files_of d.pending) ≡ some b
      → get n (files_of d.processing) ≡ none
      → IsKept c d
      → IsKept c (move_file n b d)
  unfolding move_file
  rename-IsKept n b d named e absent (inl (name, size, held)) =
      rw named (elim (Bool-cases (equal n name)) [
        | inl same ↦
            let moved : get n (files_of d.pending) ≡ some c =
              subst (λ k. get k (files_of d.pending) ≡ some c) (sym ((equal_iff n name).0 same))
                held in
            inr
              (inl (n, (get-insert n n b (files_of d.processing) ∙ rw equal_self (sym e ∙ moved))))
        | inr other ↦ inl (name, size, get-remove-other name n (files_of d.pending) other ∙ held)
      ])
  rename-IsKept n b d named e absent (inr (inl (name, held))) =
      rw named (elim (Bool-cases (equal n name)) [
        | inl same ↦ cc (absent, held, (equal_iff n name).0 same)
        | inr other ↦
            inr (inl (name, (get-insert n name b (files_of d.processing) ∙ rw other held)))
      ])
  rename-IsKept n b d named e absent (inr (inr batched)) = rw named (inr (inr batched))
