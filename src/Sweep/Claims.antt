-- ===== src/Sweep/Claims.antt =====
-- A whole round over the files that the event handler stores, one for each descriptor.
use yuv_lightning_ldk_sample.Prelude.{
  List, Option, ◌≡◌, ◌∷◌, [], ◌++◌, true, none, returns, some, append-nil, ◌∙◌, append_assoc, refl,
  is_empty, ap, false, panics, ◌<◌, Outcome, length, arith,
}
use yuv_lightning_ldk_sample.Sweep.{
  SweepApi, contents, broadcast_all, Broadcast, broadcasts_of, Bytes, yuv_proofs,
  emulate_yuv_transaction, Assoc, bitcoin_transaction, Dirs, sweep_round, finish, claim_set,
  broadcasts_unless, claim_all, insert, claim_files, claim_decoded, gather, and_then,
  EmulateResponse, invalid_transaction, valid_transaction, emulate_failed,
}
use yuv_lightning_ldk_sample.Prelude.Assoc.{insert}
use yuv_lightning_ldk_sample.Sweep.Reading.{IsCodec, encode_all, read_file-encode_all}
use yuv_lightning_ldk_sample.Sweep.Gather.{AllNamed, Distinct, gather_lem}

module _ {D T : Type 0} (api : SweepApi D T) where
  -- the files of named descriptors
  abbrev pub stored : List (Bytes × D) → Assoc Bytes
  stored [] = []
  stored ((name, d) ∷ outs) = (name, api.encode_descriptor d) ∷ stored outs

  abbrev pub descriptors_of : List (Bytes × D) → List D
  descriptors_of [] = []
  descriptors_of ((name, d) ∷ outs) = d ∷ descriptors_of outs

  contents-stored :
      (outs : List (Bytes × D)) → contents (stored outs) ≡ encode_all api (descriptors_of outs)
  unfolding contents encode_all
  contents-stored [] = refl
  contents-stored ((name, d) ∷ outs) = rw (contents-stored outs)

  -- The transactions that the YUV node does not call invalid; one that it does not answer for stays.
  abbrev pub accepted_if : EmulateResponse → T → List T → List T
  accepted_if (invalid_transaction reason) tx txs = txs
  accepted_if valid_transaction tx txs = tx ∷ txs
  accepted_if emulate_failed tx txs = tx ∷ txs

  abbrev pub accepted : List T → List T
  accepted [] = []
  accepted (tx ∷ txs) = accepted_if (api.emulate tx) tx (accepted txs)

  -- two broadcasts for each, the proofs first
  abbrev pub broadcasts : List T → List (Broadcast T)
  broadcasts [] = []
  broadcasts (tx ∷ txs) = yuv_proofs tx ∷ bitcoin_transaction tx ∷ broadcasts txs

  broadcasts-accepted_if :
      (r : EmulateResponse) (tx : T) (txs : List T)
      → broadcasts_unless api (emulate_yuv_transaction r) tx ++ broadcasts txs
        ≡ broadcasts (accepted_if r tx txs)
  unfolding emulate_yuv_transaction
  broadcasts-accepted_if valid_transaction tx txs = refl
  broadcasts-accepted_if (invalid_transaction reason) tx txs = refl
  broadcasts-accepted_if emulate_failed tx txs = refl

  broadcast_all-accepted :
      (txs : List T) (sent : List (Broadcast T))
      → api.has_yuv_client ≡ true
      → broadcast_all api txs sent ≡ (sent ++ broadcasts (accepted txs), returns tt)
  unfolding broadcast_all broadcasts_of
  broadcast_all-accepted [] sent h = rw append-nil
  broadcast_all-accepted (tx ∷ txs) sent h = rw h (
      broadcast_all-accepted txs (sent ++ broadcasts_of api tx) h
      ∙ rw (append_assoc, broadcasts-accepted_if (api.emulate tx) tx (accepted txs)))

  abbrev pub dirs_after : Option (Assoc Bytes) → Dirs
  dirs_after s = record { pending = some []; processing = none; spendable = s }

  is_empty-append_long : (xs ys : Bytes) → 0 < length xs → is_empty (xs ++ ys) ≡ false
  is_empty-append_long [] ys h = absurd (omega arith)
  is_empty-append_long (x ∷ xs) ys h = refl

  and_then-done :
      (r : List (Broadcast T) × Outcome (Unit {0}))
      → and_then api (λ sent. (sent, returns tt)) r ≡ r
  and_then-done (sent, returns u) = refl
  and_then-done (sent, panics) = refl

  claim_one :
      (codec : IsCodec api) (key : Bytes) (ds : List D)
      → claim_all api (dirs_after (some ((key, encode_all api ds) ∷ []))) []
        ≡ finish api
            (dirs_after (some ((key, encode_all api ds) ∷ [])))
            (claim_set api (api.spend ds) [])
  unfolding claim_all claim_files claim_decoded
  claim_one codec key ds = rw (read_file-encode_all api codec ds) (
      ap (finish api (dirs_after (some ((key, encode_all api ds) ∷ []))))
        (and_then-done (claim_set api (api.spend ds) [])))

  module _ (codec : IsCodec api) (key name : Bytes) (d : D) (outs : List (Bytes × D))
      (named : AllNamed (stored ((name, d) ∷ outs)))
      (distinct : Distinct (stored ((name, d) ∷ outs))) where
    abbrev pub dirs_before : Dirs
    dirs_before = record {
      pending = some (stored ((name, d) ∷ outs));
      processing = none;
      spendable = none;
    }

    gathered :
        gather key dirs_before
        ≡ dirs_after (some ((key, encode_all api (d ∷ descriptors_of outs)) ∷ []))
    unfolding contents insert
    gathered =
        gather_lem key none name (api.encode_descriptor d) (stored outs) named distinct (
          is_empty-append_long (api.encode_descriptor d) (contents (stored outs))
            (codec.encoded_ne_nil d))
        ∙ ap (λ (c : Bytes). dirs_after (some ((key, c) ∷ []))) (contents-stored ((name, d) ∷ outs))

    claim_gathered :
        sweep_round api key dirs_before
        ≡ finish api
            (dirs_after (some ((key, encode_all api (d ∷ descriptors_of outs)) ∷ [])))
            (claim_set api (api.spend (d ∷ descriptors_of outs)) [])
    unfolding sweep_round
    claim_gathered =
        ap (λ (dirs : Dirs). claim_all api dirs []) gathered
        ∙ claim_one codec key (d ∷ descriptors_of outs)

    -- Let the library's reader read back what its writer wrote, and no encoding be empty. Files of
    -- one descriptor each are pending, at least one, with different names of 32 bytes in
    -- hexadecimal, and nothing is left over from an earlier round. If the library gives transactions
    -- for all their descriptors, in the order of the files and in one call, and a YUV client is
    -- configured, the round broadcasts the transactions that the YUV node does not call invalid, the
    -- proofs of each before its Bitcoin transaction, and no other one; no file is left behind.
    pub sweep_round_claims :
        (txs : List T)
        → api.has_yuv_client ≡ true
        → api.spend (d ∷ descriptors_of outs) ≡ some txs
        → sweep_round api key dirs_before ≡ (dirs_after none, broadcasts (accepted txs), returns tt)
    unfolding claim_set
    sweep_round_claims txs client spent =
        claim_gathered ∙ rw (spent, broadcast_all-accepted txs [] client)

    -- With files pending as for `sweep_round_claims`, if the library does not spend their descriptors,
    -- the round broadcasts nothing and removes the file with them all the same: no directory holds
    -- them then.
    pub sweep_round_loses :
        api.spend (d ∷ descriptors_of outs) ≡ none
        → sweep_round api key dirs_before ≡ (dirs_after none, [], returns tt)
    unfolding claim_set
    sweep_round_loses refused = claim_gathered ∙ rw (refused)

    -- With files pending as for `sweep_round_claims` and no YUV client, the round panics at the first
    -- transaction that the library gives, with nothing broadcast; the file with the descriptors stays.
    pub sweep_round_panics :
        (tx : T) (txs : List T)
        → api.has_yuv_client ≡ false
        → api.spend (d ∷ descriptors_of outs) ≡ some (tx ∷ txs)
        → sweep_round api key dirs_before
          ≡ (dirs_after (some ((key, encode_all api (d ∷ descriptors_of outs)) ∷ [])), [], panics)
    unfolding claim_set broadcast_all
    sweep_round_panics tx txs client spent = claim_gathered ∙ rw (spent, client)
