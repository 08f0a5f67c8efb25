-- ===== src/Sweep/Reading.antt =====
-- Reading back the descriptors that were written to a file.
use yuv_lightning_ldk_sample.Prelude.{
  ℕ, List, ◌++◌, ◌<◌, ◌∷◌, length, suc, [], ◌≡◌, some, arith, length-append, ◌∙◌, zero, refl,
}
use yuv_lightning_ldk_sample.Sweep.{SweepApi, Bytes, read_file, descriptors, push_descriptor}

module _ {D T : Type 0} (api : SweepApi D T) where
  -- the descriptors of a file, one behind the other
  unfoldable pub encode_all : List D → Bytes
  encode_all [] = []
  encode_all (d ∷ ds) = api.encode_descriptor d ++ encode_all ds

  -- What the library's reader and writer promise.
  pub record IsCodec : Type 0 where
    pub read_encoded :
        (d : D) (rest : Bytes)
        → api.read_descriptor (api.encode_descriptor d ++ rest) ≡ some (d, rest)
    pub encoded_ne_nil : (d : D) → 0 < length (api.encode_descriptor d)

  module _ (codec : IsCodec) where
    read_file-cons :
        (d : D) (fuel : ℕ) (bytes rest : Bytes)
        → 0 < length bytes
        → api.read_descriptor bytes ≡ some (d, rest)
        → read_file api (suc fuel) bytes ≡ push_descriptor api d (read_file api fuel rest)
    unfolding read_file
    read_file-cons d fuel [] rest h e = absurd (omega arith)
    read_file-cons d fuel (b ∷ bytes) rest h e = rw e

    read_file-encode_all_fuel :
        (ds : List D) (fuel : ℕ)
        → length (encode_all ds) < fuel
        → read_file api fuel (encode_all ds) ≡ descriptors ds
    unfolding encode_all
    read_file-encode_all_fuel ds zero h = absurd (omega arith)
    read_file-encode_all_fuel [] (suc fuel) h = unfold read_file in refl
    read_file-encode_all_fuel (d ∷ ds) (suc fuel) h =
        let bytes = api.encode_descriptor d in
        let n = length-append bytes (encode_all ds) in
        let some_bytes = codec.encoded_ne_nil d in
        read_file-cons d fuel (bytes ++ encode_all ds) (encode_all ds) (omega arith)
          (codec.read_encoded d (encode_all ds))
        ∙ rw (read_file-encode_all_fuel ds fuel (omega arith))

    -- Let the library's reader read back what its writer wrote, and no encoding be empty. A file of
    -- encoded descriptors is read back to exactly these descriptors, in their order, and
    -- fuel of one more than its length is enough.
    pub read_file-encode_all :
        (ds : List D)
        → read_file api (suc (length (encode_all ds))) (encode_all ds) ≡ descriptors ds
    read_file-encode_all ds = read_file-encode_all_fuel ds _ (omega arith)
