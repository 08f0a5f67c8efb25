-- ===== src/Sweep/Sound.antt =====
-- src/sweep.rs: properties that hold before and after each step, and the names of the files.
use yuv_lightning_ldk_sample.Prelude.{
  ℕ, [], ◌∷◌, List, length, ◌==◌, ◌++◌, take, ◌≡◌, suc, zero, true, some, none, refl, Option, All,
  false, ◌∙◌,
}
use yuv_lightning_ldk_sample.Sweep.{Dirs, move_file, Assoc, files_of, remove, contents}
use yuv_lightning_ldk_sample.Sweep.Steps.{do_steps, FileStep, do_step, write_batch}
use yuv_lightning_ldk_sample.Prelude.Text.{Bytes, equal}
use yuv_lightning_ldk_sample.Sweep.Kept.{
  IsSound, get-remove-same, remove-All, remove-Distinct, apart-insert,
}
use yuv_lightning_ldk_sample.Prelude.Assoc.{get, insert, get-insert}

-- `P` holds before the steps and after each.
abbrev pub Always : (Dirs → Type 0) → List FileStep → Dirs → Type 0
Always P [] d = P d
Always P (s ∷ steps) d = P d × Always P steps (do_step s d)

pub take-Always :
    (P : Dirs → Type 0) (n : ℕ) (steps : List FileStep) (d : Dirs)
    → Always P steps d
    → P (do_steps (take n steps) d)
unfolding do_steps
take-Always P zero [] d h = h
take-Always P zero (s ∷ steps) d h = h.0
take-Always P (suc n) [] d h = h
take-Always P (suc n) (s ∷ steps) d h = take-Always P n steps (do_step s d) h.1

pub last-Always :
    (P : Dirs → Type 0) (steps : List FileStep) (d : Dirs) → Always P steps d → P (do_steps steps d)
unfolding do_steps
last-Always P [] d h = h
last-Always P (s ∷ steps) d h = last-Always P steps (do_step s d) h.1

pub append-Always :
    (P : Dirs → Type 0) (xs ys : List FileStep) (d : Dirs)
    → Always P xs d
    → Always P ys (do_steps xs d)
    → Always P (xs ++ ys) d
unfolding do_steps
append-Always P [] ys d h g = g
append-Always P (s ∷ xs) ys d h g = (h.0, append-Always P xs ys (do_step s d) h.1 g)

pub map-Always :
    (P Q : Dirs → Type 0) (steps : List FileStep) (d : Dirs)
    → ((e : Dirs) → P e → Q e)
    → Always P steps d
    → Always Q steps d
map-Always P Q [] d weaker h = weaker d h
map-Always P Q (s ∷ steps) d weaker h =
    (weaker d h.0, map-Always P Q steps (do_step s d) weaker h.1)

pub rename-IsSound :
    (keys : List Bytes) (n b : Bytes) (d : Dirs)
    → (length n == 64) ≡ true
    → get n (files_of d.pending) ≡ some b
    → IsSound keys d
    → IsSound keys (move_file n b d)
unfolding move_file
rename-IsSound keys n b d named e h =
    let gone = get-remove-same n (files_of d.pending) h.distinct in
    let apart' =
      remove-All (λ (f : Bytes × Bytes). get f.0 (files_of d.processing) ≡ none) n
        (files_of d.pending) h.apart in
    rw named (record {
      there = refl;
      distinct = remove-Distinct n (files_of d.pending) h.distinct;
      apart = apart-insert n b (remove n (files_of d.pending)) (files_of d.processing) gone apart';
      fresh = h.fresh;
    })

pub tail-IsSound :
    (key : Bytes) (keys : List Bytes) (d : Dirs) → IsSound (key ∷ keys) d → IsSound keys d
tail-IsSound key keys d h = record {
  there = h.there;
  distinct = h.distinct;
  apart = h.apart;
  fresh = h.fresh.1;
}

pub emptied :
    (keys : List Bytes) (d : Dirs) (less : Option (Assoc Bytes))
    → IsSound keys d
    → ((k : Bytes) → get k (files_of d.processing) ≡ none → get k (files_of less) ≡ none)
    → IsSound keys (record d { processing = less })
emptied keys d less h still = record {
  there = h.there;
  distinct = h.distinct;
  apart = lower (files_of d.pending) h.apart;
  fresh = h.fresh;
}
  where
    lower :
        (files : Assoc Bytes)
        → All (λ (f : Bytes × Bytes). get f.0 (files_of d.processing) ≡ none) files
        → All (λ (f : Bytes × Bytes). get f.0 (files_of less) ≡ none) files
    lower [] g = tt
    lower (f ∷ files) g = (still f.0 g.0, lower files g.1)

pub write-IsSound :
    (key : Bytes) (keys : List Bytes) (d : Dirs)
    → All (λ k. equal key k ≡ false) keys
    → IsSound (key ∷ keys) d
    → IsSound keys (do_step (write_batch key) d)
unfolding do_step
write-IsSound key keys d apart h = record {
  there = h.there;
  distinct = h.distinct;
  apart = h.apart;
  fresh = others keys apart h.fresh.1;
}
  where
    others :
        (ks : List Bytes)
        → All (λ k. equal key k ≡ false) ks
        → All (λ k. get k (files_of d.spendable) ≡ none) ks
        → All
            (λ k.
              get k (insert key (contents (files_of d.processing)) (files_of d.spendable)) ≡ none)
            ks
    others [] a g = tt
    others (k ∷ ks) a g = (
      get-insert key k (contents (files_of d.processing)) (files_of d.spendable) ∙ rw (a.0) (g.0),
      others ks a.1 g.1,
    )
