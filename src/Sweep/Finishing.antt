-- ===== src/Sweep/Finishing.antt =====
-- The loop that reads a file of descriptors ends, whatever the file holds.
use yuv_lightning_ldk_sample.Prelude.{
  ℕ, ◌≢◌, ◌≡◌, Option, length, ◌<◌, ◌∷◌, some, arith, suc, zero, ap, none, [], refl,
}
use yuv_lightning_ldk_sample.Sweep.{
  SweepApi, Bytes, Decoded, read_file, out_of_fuel, push_descriptor, read_next, descriptors,
  malformed,
}

module _ {D T : Type 0} (api : SweepApi D T) where
  -- A descriptor takes at least one byte.
  abbrev pub IsConsuming : Type 0
  IsConsuming =
      (bytes rest : Bytes) (d : D)
      → api.read_descriptor bytes ≡ some (d, rest)
      → length rest < length bytes

  -- with enough fuel the loop ends, and more fuel changes nothing
  abbrev Settles : ℕ → ℕ → Bytes → Type 0
  Settles f g bytes =
      (read_file api f bytes ≢ out_of_fuel) × (read_file api f bytes ≡ read_file api g bytes)

  push_descriptor-ends :
      (d : D) (r : Decoded D) → r ≢ out_of_fuel → push_descriptor api d r ≢ out_of_fuel
  push_descriptor-ends d (descriptors ds) h = λ e. ground arith
  push_descriptor-ends d malformed h = h
  push_descriptor-ends d out_of_fuel h = h

  module _ (consuming : IsConsuming) where
    read_next-Settles :
        (f g : ℕ) (b : ℕ) (bytes : Bytes) (o : Option (D × Bytes))
        → api.read_descriptor (b ∷ bytes) ≡ o
        → ((rest : Bytes) → length rest < length (b ∷ bytes) → Settles f g rest)
        → (read_next api (read_file api f) o ≢ out_of_fuel)
          × (read_next api (read_file api f) o ≡ read_next api (read_file api g) o)
    read_next-Settles f g b bytes none e ih = ((λ h. ground arith), refl)
    read_next-Settles f g b bytes (some (d, rest)) e ih =
        let step = ih rest (consuming (b ∷ bytes) rest d e) in
        (push_descriptor-ends d _ step.0, ap (push_descriptor api d) step.1)

    read_file-Settles :
        (f g : ℕ) (bytes : Bytes) → length bytes < f → length bytes < g → Settles f g bytes
    unfolding read_file
    read_file-Settles zero g bytes h k = absurd (omega arith)
    read_file-Settles (suc f) zero bytes h k = absurd (omega arith)
    read_file-Settles (suc f) (suc g) [] h k = ((λ e. ground arith), refl)
    read_file-Settles (suc f) (suc g) (b ∷ bytes) h k =
        read_next-Settles f g b bytes (api.read_descriptor (b ∷ bytes)) refl
          (λ rest shorter. read_file-Settles f g rest (omega arith) (omega arith))

    -- Let the library's reader take at least one byte for a descriptor. The loop that reads a file
    -- ends on any bytes, with all descriptors or at the first bytes that are none: fuel of one more
    -- than the length of the file is enough, and more fuel does not change the result.
    pub read_file_ends :
        (bytes : Bytes) (fuel : ℕ)
        → length bytes < fuel
        → (read_file api fuel bytes ≢ out_of_fuel)
          × (read_file api fuel bytes ≡ read_file api (suc (length bytes)) bytes)
    read_file_ends bytes fuel enough =
        read_file-Settles fuel (suc (length bytes)) bytes enough (omega arith)
