-- ===== src/Sweep/Handover.antt =====
-- From the event handler to the sweep: the outputs of an event are what the next round claims. The
-- store of the event handler and the directories of the sweep are the same files; here the pending
-- directory is listed from the paths of the store.
use yuv_lightning_ldk_sample.Prelude.{
  ℕ, Option, ◌≡◌, ◌++◌, some, ◌∷◌, ◌≢◌, some_eq, ◌==◌, none, [], arith, if◌then◌else◌, true, false,
  Bool-cases, refl, inl, inr, ◌∙◌, ap, subst, sym, List, ◌+◌, map, append-nil, append_assoc, ◌<◌,
  length, suc, All, returns,
}
use yuv_lightning_ldk_sample.Prelude.Text.{Bytes, equal, equal_iff, equal_self, IsByte}
use yuv_lightning_ldk_sample.Prelude.Assoc.{insert, Assoc, get}
use yuv_lightning_ldk_sample.Node.{Ldk, World, write, pending_spendable_output_dir}
use yuv_lightning_ldk_sample.Event.{Answers, spendable_outputs}
use yuv_lightning_ldk_sample.Sweep.{SweepApi, Dirs, sweep_round}
use yuv_lightning_ldk_sample.Events.{store_outputs, handle_ldk_events}
use yuv_lightning_ldk_sample.Sweep.Gather.{Distinct, insert-fresh, Distinct-middle, AllNamed}
use yuv_lightning_ldk_sample.Events.Outputs.{
  name_of, equal_ne, suc_ne, suc_eq, hex_str-injective, zero_add,
}
use yuv_lightning_ldk_sample.Sweep.Claims.{
  stored, descriptors_of, dirs_after, broadcasts, accepted, sweep_round_claims,
}
use yuv_lightning_ldk_sample.Payments.{PaymentApi}
use yuv_lightning_ldk_sample.Sweep.Reading.{IsCodec}
use yuv_lightning_ldk_sample.HexUtils.RoundTrip.{length-hex_str}

-- what follows a prefix
unfoldable pub strip_prefix : Bytes → Bytes → Option Bytes
strip_prefix [] s = some s
strip_prefix (c ∷ p) [] = none
strip_prefix (c ∷ p) (d ∷ s) = if d == c then strip_prefix p s else none

abbrev kept : Option Bytes → Bytes → Assoc Bytes → Assoc Bytes
kept none content rest = rest
kept (some name) content rest = (name, content) ∷ rest

-- `fs::read_dir`: the files whose paths are in the directory, with their names
unfoldable pub listing : Bytes → Assoc Bytes → Assoc Bytes
unfolding strip_prefix
listing dir [] = []
listing dir ((path, content) ∷ files) =
    kept (strip_prefix (dir ++ b'/' ∷ []) path) content (listing dir files)

strip_prefix-append : (p s : Bytes) → strip_prefix p (p ++ s) ≡ some s
unfolding strip_prefix
strip_prefix-append [] s = refl
strip_prefix-append (c ∷ p) s =
    let same : (c == c) ≡ true = ground arith in rw (same, strip_prefix-append p s)

strip_prefix-eq : (p s r : Bytes) → strip_prefix p s ≡ some r → s ≡ p ++ r
unfolding strip_prefix
strip_prefix-eq [] s r e = some_eq e
strip_prefix-eq (c ∷ p) [] r e = cc
strip_prefix-eq (c ∷ p) (d ∷ s) r e = ground (arith, strip_prefix-eq p s r)

kept-insert :
    (name content v : Bytes) (o : Option Bytes) (rest files : Assoc Bytes)
    → ((n : Bytes) → o ≡ some n → n ≢ name)
    → rest ≡ insert name content files
    → kept o v rest ≡ insert name content (kept o v files)
unfolding insert
kept-insert name content v none rest files other e = e
kept-insert name content v (some n) rest files other e =
    let differs : equal n name ≡ false = ground (arith, equal_iff n name, other n refl) in
    rw (differs, e)

-- A write to a file of the directory is a write to the listing.
listing-insert :
    (dir name content : Bytes) (files : Assoc Bytes)
    → listing dir (insert ((dir ++ b'/' ∷ []) ++ name) content files)
      ≡ insert name content (listing dir files)
unfolding listing insert
listing-insert dir name content [] = rw (strip_prefix-append (dir ++ b'/' ∷ []) name)
listing-insert dir name content ((path, v) ∷ files) =
    elim (Bool-cases (equal path (below ++ name))) [
      | inl same ↦ rw (
        same,
        strip_prefix-append below name,
        subst (λ q. strip_prefix below q ≡ some name)
            (sym ((equal_iff path (below ++ name)).0 same)) (strip_prefix-append below name),
        equal_self name,
      )
      | inr other ↦ rw other (
          kept-insert name content v (strip_prefix below path) _ (listing dir files)
            (λ n e k. elsewhere n other e k) (listing-insert dir name content files))
    ]
  where
    below : Bytes
    below = dir ++ b'/' ∷ []

    elsewhere :
        (n : Bytes)
        → equal path (below ++ name) ≡ false
        → strip_prefix below path ≡ some n
        → n ≡ name
        → ⊥
    elsewhere n other e k =
        let here = strip_prefix-eq below path n e ∙ ap (λ m. below ++ m) k in
        ground (arith, other, (equal_iff path (below ++ name)).1 here)

module _ {L : Ldk} {D T : Type 0} (a : Answers L) (api : SweepApi D T) where
  -- the descriptors with the names of their files, from draw `n` on
  abbrev pub named : ℕ → List D → List (Bytes × D)
  named n [] = []
  named n (d ∷ ds) = (name_of a n, d) ∷ named (n + 1) ds

  abbrev pub pending_of : World L → Assoc Bytes
  pending_of w = listing pending_spendable_output_dir w.store

  pending_of-write :
      (name content : Bytes) (w : World L)
      → get name (pending_of w) ≡ none
      → pending_of (write pending_spendable_output_dir name content w)
        ≡ pending_of w ++ (name, content) ∷ []
  unfolding write
  pending_of-write name content w fresh =
      listing-insert pending_spendable_output_dir name content w.store
      ∙ insert-fresh name content (pending_of w) fresh

  pending_of-store_outputs :
      (n : ℕ) (ds : List D) (w : World L)
      → Distinct (pending_of w ++ stored api (named n ds))
      → pending_of (store_outputs a n (map api.encode_descriptor ds) w)
        ≡ pending_of w ++ stored api (named n ds)
  unfolding store_outputs
  pending_of-store_outputs n [] w distinct = sym (append-nil (pending_of w))
  pending_of-store_outputs n (d ∷ ds) w distinct =
      let w' = write pending_spendable_output_dir (name_of a n) (api.encode_descriptor d) w in
      let step = pending_of-write (name_of a n) (api.encode_descriptor d) w (
        Distinct-middle (name_of a n) (api.encode_descriptor d) (pending_of w)
          (stored api (named (n + 1) ds)) distinct) in
      let shifted =
        ap (λ files. files ++ stored api (named (n + 1) ds)) step
        ∙ append_assoc (pending_of w) ((name_of a n, api.encode_descriptor d) ∷ [])
            (stored api (named (n + 1) ds)) in
      pending_of-store_outputs (n + 1) ds w' (subst Distinct (sym shifted) distinct) ∙ shifted

  named-fresh :
      (n m : ℕ) (ds : List D)
      → ((k : ℕ) → k < length ds → name_of a n ≢ name_of a (m + k))
      → get (name_of a n) (stored api (named m ds)) ≡ none
  unfolding get
  named-fresh n m [] other = refl
  named-fresh n m (d ∷ ds) other =
      let first = other 0 (omega arith) in
      let differs : equal (name_of a m) (name_of a n) ≡ false =
        equal_ne (name_of a m) (name_of a n) (λ e. first (sym e ∙ ap (name_of a) (omega arith))) in
      rw differs (
        named-fresh n (m + 1) ds
          (λ k lt e. other (suc k) (omega arith) (e ∙ ap (name_of a) (omega arith))))

  named-Distinct :
      (m : ℕ) (ds : List D)
      → ((j k : ℕ) → j < length ds → k < length ds → name_of a (m + j) ≡ name_of a (m + k) → j ≡ k)
      → Distinct (stored api (named m ds))
  named-Distinct m [] distinct = tt
  named-Distinct m (d ∷ ds) distinct = (
    named-fresh m (m + 1) ds (λ k lt e. suc_ne k (
        sym (
          distinct 0 (suc k) (omega arith) (omega arith)
            (ap (name_of a) (omega arith) ∙ e ∙ ap (name_of a) (omega arith))))),
    named-Distinct (m + 1) ds (λ j k hj hk e. suc_eq j k (
        distinct (suc j) (suc k) (omega arith) (omega arith)
          (ap (name_of a) (omega arith) ∙ e ∙ ap (name_of a) (omega arith)))),
  )

  named-AllNamed :
      (m : ℕ) (ds : List D)
      → ((k : ℕ) → k < length ds → length (name_of a (m + k)) ≡ 64)
      → AllNamed (stored api (named m ds))
  named-AllNamed m [] size = tt
  named-AllNamed m (d ∷ ds) size = (
    ap (λ k. length (name_of a k)) (omega arith) ∙ size 0 (omega arith),
    named-AllNamed (m + 1) ds
        (λ k lt. ap (λ j. length (name_of a j)) (omega arith) ∙ size (suc k) (omega arith)),
  )

  descriptors_of-named : (m : ℕ) (ds : List D) → descriptors_of api (named m ds) ≡ ds
  descriptors_of-named m [] = refl
  descriptors_of-named m (d ∷ ds) = ap (λ t. d ∷ t) (descriptors_of-named (m + 1) ds)

  -- The directories of the sweep before a round.
  abbrev pub dirs_of : World L → Dirs
  dirs_of w = record { pending = some (pending_of w); processing = none; spendable = none }

  module _ (payment : PaymentApi L) (codec : IsCodec api) where
    -- Let the library's reader read back what its writer wrote, and no encoding be empty; let the
    -- entropy source give 32 bytes for each output, and no two times the same. The event of spendable
    -- outputs, at least one, is handled on a node that has none pending and nothing left over from an
    -- earlier round. If the library gives transactions for all these descriptors, in the order of the
    -- event and in one call, and a YUV client is configured, the next round broadcasts the
    -- transactions that the YUV node does not call invalid, the proofs of each before its Bitcoin
    -- transaction, and no other one; no file is left behind.
    pub spendable_outputs_claimed :
        (d : D) (ds : List D) (w : World L) (key : Bytes) (txs : List T)
        → pending_of w ≡ []
        → ((j : ℕ) → j < length (d ∷ ds) → All IsByte (a.secure_random_bytes j))
        → ((j : ℕ) → j < length (d ∷ ds) → length (a.secure_random_bytes j) ≡ 32)
        → ((j k : ℕ)
            → j < length (d ∷ ds)
            → k < length (d ∷ ds)
            → a.secure_random_bytes j ≡ a.secure_random_bytes k
            → j ≡ k)
        → api.has_yuv_client ≡ true
        → api.spend (d ∷ ds) ≡ some txs
        → sweep_round api key (
            dirs_of
              (handle_ldk_events payment a
                (spendable_outputs (map api.encode_descriptor (d ∷ ds)))
                w).0)
          ≡ (dirs_after api none, broadcasts api (accepted api txs), returns tt)
    unfolding handle_ldk_events
    spendable_outputs_claimed d ds w key txs idle bytes size distinct client spent =
        let outs = named 0 (d ∷ ds) in
        let different = named-Distinct 0 (d ∷ ds) (λ j k hj hk e. distinct j k hj hk (
          hex_str-injective _ _ (bytes j hj) (bytes k hk)
            (sym (ap (name_of a) (zero_add j)) ∙ e ∙ ap (name_of a) (zero_add k)))) in
        let sized = named-AllNamed 0 (d ∷ ds) (λ k lt.
          let n = length-hex_str (a.secure_random_bytes k) in
          let m = size k lt in ap (λ j. length (name_of a j)) (zero_add k) ∙ n ∙ omega arith) in
        let files = pending_of-store_outputs 0 (d ∷ ds) w (rw idle different) ∙ rw idle refl in
        rw files (
          sweep_round_claims api codec key (name_of a 0) d (named 1 ds) sized different txs client
            (rw (descriptors_of-named 1 ds) spent))
