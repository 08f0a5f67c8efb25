-- ===== src/Sweep/Crashes.antt =====
-- src/sweep.rs: what holds after every step of the first half of a round.
use yuv_lightning_ldk_sample.Prelude.{
  [], ◌∷◌, List, length, ◌==◌, ◌≡◌, true, some, none, Bool-cases, inl, refl, inr, ◌⊎◌, Option, All,
  false, ◌∙◌, is_empty, subst, sym,
}
use yuv_lightning_ldk_sample.Sweep.{Dirs, move_file, Assoc, files_of, remove, contents, move_files}
use yuv_lightning_ldk_sample.Sweep.Steps.{
  rename_steps, do_step, unlink_steps, write_batch, batch_steps, gather_steps, steps_listed,
  do_steps-rename_steps,
}
use yuv_lightning_ldk_sample.Prelude.Text.{Bytes, equal, equal_iff, equal_self}
use yuv_lightning_ldk_sample.Sweep.Kept.{
  IsSound, IsKept, ArePending, still_pending, all_at, rename-IsKept, IsBatched, get-remove-none,
  IsPart-contents, ArePending-refl,
}
use yuv_lightning_ldk_sample.Sweep.Gather.{Distinct}
use yuv_lightning_ldk_sample.Prelude.Assoc.{get, insert, get-insert}
use yuv_lightning_ldk_sample.Sweep.Sound.{
  Always, last-Always, append-Always, map-Always, rename-IsSound, tail-IsSound, emptied,
  write-IsSound,
}

module _ (c : Bytes) where
  abbrev pub IsGood : List Bytes → Dirs → Type 0
  IsGood keys d = IsSound keys d × IsKept c d

  rename_steps-Always :
      (keys : List Bytes) (listed : Assoc Bytes) (d : Dirs)
      → Distinct listed
      → ArePending (files_of d.pending) listed
      → IsGood keys d
      → Always (IsGood keys) (rename_steps listed) d
  unfolding rename_steps do_step
  rename_steps-Always keys [] d fresh pending good = good
  rename_steps-Always keys ((n, b) ∷ listed) d fresh pending good =
      elim (Bool-cases (length n == 64)) [
        | inl named ↦
            let absent =
              all_at (λ k. get k (files_of d.processing) ≡ none) n b (files_of d.pending)
                good.0.apart pending.0 in
            rw named (
              good,
              rename_steps-Always keys listed (move_file n b d) fresh.1
                  (moved n b d listed named fresh.0 pending.1)
                  (
                    rename-IsSound keys n b d named pending.0 good.0,
                    rename-IsKept c n b d named pending.0 absent good.1,
                  ),
            )
        | inr other ↦ rw other (rename_steps-Always keys listed d fresh.1 pending.1 good)
      ]
    where
      moved :
          (n b : Bytes) (d : Dirs) (listed : Assoc Bytes)
          → (length n == 64) ≡ true
          → get n listed ≡ none
          → ArePending (files_of d.pending) listed
          → ArePending (files_of (move_file n b d).pending) listed
      moved n b d listed named absent h =
          unfold move_file in rw named (still_pending n listed (files_of d.pending) absent h)

  -- Pending, or in a batch already.
  abbrev pub IsSettled : Dirs → Type 0
  IsSettled d =
      ((name : Bytes) × (length name ≡ 64) × (get name (files_of d.pending) ≡ some c))
      ⊎ IsBatched c (files_of d.spendable)

  settled : (d : Dirs) → IsSettled d → IsKept c d
  settled d (inl held) = inl held
  settled d (inr batched) = inr (inr batched)

  unlink_steps-Always :
      (keys : List Bytes) (files : Assoc Bytes) (d : Dirs)
      → IsSound keys d
      → IsSettled d
      → Always (IsGood keys) (unlink_steps files) d
  unfolding unlink_steps do_step
  unlink_steps-Always keys [] d sound h = (
    (sound, settled d h),
    (
      emptied keys d none sound (λ k e. (unfold get in refl)),
      settled (record d { processing = none }) h,
    ),
  )
  unlink_steps-Always keys ((n, b) ∷ files) d sound h =
      let less = some (remove n (files_of d.processing)) in
      (
        (sound, settled d h),
        unlink_steps-Always keys files (record d { processing = less })
            (emptied keys d less sound (λ k e. get-remove-none k n (files_of d.processing) e)) h,
      )

  pub write-IsBatched :
      (key : Bytes) (b : Bytes) (files : Assoc Bytes)
      → get key files ≡ none
      → IsBatched c files
      → IsBatched c (insert key b files)
  write-IsBatched key b files absent (k, file, e, part) = elim (Bool-cases (equal key k)) [
    | inl same ↦ cc (absent, e, (equal_iff key k).0 same)
    | inr other ↦ (k, file, get-insert key k b files ∙ rw other e, part)
  ]

  write-IsSettled :
      (key : Bytes) (d : Dirs)
      → get key (files_of d.spendable) ≡ none
      → IsKept c d
      → IsSettled (do_step (write_batch key) d)
  unfolding do_step
  write-IsSettled key d absent (inl held) = inl held
  write-IsSettled key d absent (inr (inl (name, held))) =
      let batch = contents (files_of d.processing) in
      inr (
        key,
        batch,
        get-insert key key batch (files_of d.spendable) ∙ rw equal_self refl,
        IsPart-contents c name (files_of d.processing) held,
      )
  write-IsSettled key d absent (inr (inr batched)) =
      inr (
        write-IsBatched key (contents (files_of d.processing)) (files_of d.spendable) absent
          batched)

  batch_steps-Always :
      (key : Bytes) (keys : List Bytes) (d : Dirs)
      → All (λ k. equal key k ≡ false) keys
      → IsSound (key ∷ keys) d
      → IsKept c d
      → Always (IsGood keys) (batch_steps key (files_of d.processing)) d
  unfolding batch_steps
  batch_steps-Always key keys d apart sound kept =
      let sound' = tail-IsSound key keys d sound in
      elim (Bool-cases (is_empty (contents (files_of d.processing)))) [
        | inl nothing ↦ rw nothing (sound', kept)
        | inr full ↦ rw full (
          (sound', kept),
          unlink_steps-Always keys (files_of d.processing) (do_step (write_batch key) d)
              (write-IsSound key keys d apart sound) (write-IsSettled key d sound.fresh.0 kept),
        )
      ]

  pub gather_steps-Always :
      (key : Bytes) (keys : List Bytes) (d : Dirs)
      → All (λ k. equal key k ≡ false) keys
      → IsSound (key ∷ keys) d
      → IsKept c d
      → Always (IsGood keys) (gather_steps key d) d
  unfolding gather_steps
  gather_steps-Always key keys d apart sound kept = go d.pending sound refl
    where
      go :
          (p : Option (Assoc Bytes))
          → IsSound (key ∷ keys) d
          → d.pending ≡ p
          → Always (IsGood keys) (steps_listed key p d) d
      go none sound e = (tail-IsSound key keys d sound, kept)
      go (some listed) sound e =
          let all =
            rename_steps-Always (key ∷ keys) listed d
              (subst (λ q. Distinct (files_of q)) e sound.distinct)
              (subst (λ q. ArePending (files_of q) listed) (sym e)
                (ArePending-refl listed (subst (λ q. Distinct (files_of q)) e sound.distinct)))
              (sound, kept) in
          let moved = do_steps-rename_steps listed d in
          let good =
            subst (IsGood (key ∷ keys)) moved
              (last-Always (IsGood (key ∷ keys)) (rename_steps listed) d all) in
          append-Always (IsGood keys) (rename_steps listed) _ d
            (map-Always (IsGood (key ∷ keys)) (IsGood keys) (rename_steps listed) d
              (λ e h. (tail-IsSound key keys e h.0, h.1)) all)
            (subst
              (Always (IsGood keys) (batch_steps key (files_of (move_files listed d).processing)))
              (sym moved) (batch_steps-Always key keys (move_files listed d) apart good.0 good.1))
