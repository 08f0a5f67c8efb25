-- ===== src/Tests/Restarting.antt =====
-- Rounds of the sweep in which the program ends, at concrete inputs.
use yuv_lightning_ldk_sample.Prelude.{ℕ, [], ◌∷◌, List, some, none, refl, arith, inl}
use yuv_lightning_ldk_sample.Sweep.{Dirs, files_of, gather}
use yuv_lightning_ldk_sample.Sweep.Kept.{IsBatched, IsSound}
use yuv_lightning_ldk_sample.Prelude.Assoc.{get}
use yuv_lightning_ldk_sample.Prelude.Text.{Bytes, equal}
use yuv_lightning_ldk_sample.Tests.Commanding.{copies}
use yuv_lightning_ldk_sample.Sweep.Restarts.{crashed_rounds, keys_of, gather-crashed_rounds}

abbrev two_files : Dirs
two_files = record {
  pending = some ((copies 64 97, 5 ∷ []) ∷ (copies 64 98, 6 ∷ []) ∷ []);
  processing = none;
  spendable = none;
}

-- The first round ends after one move, the second after its write.
abbrev crashes_twice : List (Bytes × ℕ)
crashes_twice = (1 ∷ [], 1) ∷ (2 ∷ [], 2) ∷ []

two_files-IsSound : IsSound (keys_of crashes_twice (3 ∷ [])) two_files
unfolding get equal
two_files-IsSound = record {
  there = refl;
  distinct = (refl, (refl, tt));
  apart = (refl, (refl, tt));
  fresh = (refl, (refl, (refl, tt)));
}

gather-crashed_rounds_example :
    IsBatched
      (6 ∷ [])
      (files_of (gather (3 ∷ []) (crashed_rounds crashes_twice two_files)).spendable)
gather-crashed_rounds_example =
    gather-crashed_rounds (6 ∷ []) crashes_twice (3 ∷ []) two_files (λ e. ground arith)
      (unfold equal in ((refl, (refl, tt)), ((refl, tt), (tt, tt)))) two_files-IsSound
      (inl (copies 64 98, refl, (unfold get equal in refl)))
