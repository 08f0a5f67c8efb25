-- ===== src/Events/Outputs.antt =====
-- Where the event handler stores spendable outputs, as the sweep looks for them.
use yuv_lightning_ldk_sample.Prelude.{
  ℕ, ◌++◌, All, ◌<◌, ◌≡◌, ◌+◌, some_eq, ◌∷◌, sym, arith, [], ◌∙◌, ap, ◌≢◌, List, false, length,
  get_elem?, subst, some, suc, refl, zero,
}
use yuv_lightning_ldk_sample.Node.{write, Ldk, store_path}
use yuv_lightning_ldk_sample.Prelude.Text.{Bytes, IsByte, equal_iff, equal_self}
use yuv_lightning_ldk_sample.Event.{Answers}
use yuv_lightning_ldk_sample.Events.{store_outputs, pending_spendable_output_dir, equal, World}
use yuv_lightning_ldk_sample.HexUtils.{hex_str, to_vec}
use yuv_lightning_ldk_sample.HexUtils.RoundTrip.{to_vec-hex_str, length-hex_str}
use yuv_lightning_ldk_sample.Prelude.Assoc.{get, get-insert}

pub hex_str-injective : (a b : Bytes) → All IsByte a → All IsByte b → hex_str a ≡ hex_str b → a ≡ b
hex_str-injective a b ha hb e =
    some_eq (sym (to_vec-hex_str a ha) ∙ ap to_vec e ∙ to_vec-hex_str b hb)

append-cancel : (p a b : Bytes) → p ++ a ≡ p ++ b → a ≡ b
append-cancel [] a b e = e
append-cancel (c ∷ p) a b e = append-cancel p a b (ground arith)

shift : (n k : ℕ) → n + suc k ≡ n + 1 + k
shift n k = omega arith

unshift : (n : ℕ) → n ≡ n + 0
unshift n = omega arith

pub suc_ne : (k : ℕ) → suc k ≢ 0
suc_ne k = omega arith

pub suc_eq : (j k : ℕ) → suc j ≡ suc k → j ≡ k
suc_eq j k e = omega arith

pub zero_add : (k : ℕ) → 0 + k ≡ k
zero_add k = omega arith

pub equal_ne : (a b : Bytes) → a ≢ b → equal a b ≡ false
equal_ne a b h = ground (arith, equal_iff a b)

get_elem?-lt : (xs : List Bytes) (i : ℕ) (x : Bytes) → get_elem? xs i ≡ some x → i < length xs
get_elem?-lt [] i x e = cc
get_elem?-lt (y ∷ xs) zero x e = omega arith
get_elem?-lt (y ∷ xs) (suc i) x e = let h = get_elem?-lt xs i x e in omega arith

module _ {L : Ldk} (a : Answers L) where
  -- the file that an output goes to
  abbrev pub name_of : ℕ → Bytes
  name_of n = hex_str (a.secure_random_bytes n)

  abbrev pub path_of : ℕ → Bytes
  path_of n = store_path pending_spendable_output_dir (name_of n)

  path_of-injective :
      (j k : ℕ)
      → All IsByte (a.secure_random_bytes j)
      → All IsByte (a.secure_random_bytes k)
      → path_of j ≡ path_of k
      → a.secure_random_bytes j ≡ a.secure_random_bytes k
  path_of-injective j k hj hk e =
      hex_str-injective _ _ hj hk (append-cancel (pending_spendable_output_dir ++ b'/' ∷ []) _ _ e)

  -- The outputs from number `n` on get different files.
  abbrev DistinctFrom : ℕ → ℕ → Type 0
  DistinctFrom n count =
      (j k : ℕ) → j < count → k < count → path_of (n + j) ≡ path_of (n + k) → j ≡ k

  store_outputs-other :
      (n : ℕ) (outputs : List Bytes) (w : World L) (path : Bytes)
      → ((k : ℕ) → k < length outputs → path_of (n + k) ≢ path)
      → get path (store_outputs a n outputs w).store ≡ get path w.store
  unfolding store_outputs write
  store_outputs-other n [] w path h = refl
  store_outputs-other n (output ∷ outputs) w path h =
      store_outputs-other (n + 1) outputs _ path
        (λ k lt. subst (λ m. path_of m ≢ path) (omega arith) (h (suc k) (omega arith)))
      ∙ rw (
        get-insert (path_of n) path output w.store,
        equal_ne (path_of n) path (subst (λ m. path_of m ≢ path) (omega arith) (h 0 (omega arith))),
      )

  store_outputs-found :
      (n : ℕ) (outputs : List Bytes) (w : World L) (i : ℕ) (output : Bytes)
      → DistinctFrom n (length outputs)
      → get_elem? outputs i ≡ some output
      → get (path_of (n + i)) (store_outputs a n outputs w).store ≡ some output
  unfolding store_outputs write
  store_outputs-found n [] w i output d e = cc
  store_outputs-found n (o ∷ outputs) w zero output d e =
      subst
        (λ m.
          get (path_of m)
            (store_outputs a (n + 1) outputs
              (write pending_spendable_output_dir (name_of n) o w)).store
          ≡ some output)
        (omega arith)
        (store_outputs-other (n + 1) outputs _ (path_of n) (λ k lt same. absurd (
            suc_ne k (
              d (suc k) 0 (omega arith) (omega arith)
                (ap path_of (shift n k) ∙ same ∙ ap path_of (unshift n)))))
          ∙ rw (get-insert (path_of n) (path_of n) o w.store, equal_self (path_of n)) e)
  store_outputs-found n (o ∷ outputs) w (suc i) output d e =
      subst
        (λ m.
          get (path_of m)
            (store_outputs a (n + 1) outputs
              (write pending_spendable_output_dir (name_of n) o w)).store
          ≡ some output)
        (omega arith)
        (store_outputs-found (n + 1) outputs _ i output
          (λ j k hj hk same. suc_eq j k (
            d (suc j) (suc k) (omega arith) (omega arith)
              (ap path_of (shift n j) ∙ same ∙ sym (ap path_of (shift n k)))))
          e)

  -- The entropy source gives 32 bytes for each of the outputs, and no two times the same. Then every
  -- output of the event is found in the file of its own random bytes, below the directory of the
  -- pending outputs and under a name of 64 characters, which is what the sweep moves.
  pub store_outputs-stored :
      (outputs : List Bytes) (w : World L) (i : ℕ) (output : Bytes)
      → ((j : ℕ) → j < length outputs → All IsByte (a.secure_random_bytes j))
      → ((j : ℕ) → j < length outputs → length (a.secure_random_bytes j) ≡ 32)
      → ((j k : ℕ)
          → j < length outputs
          → k < length outputs
          → a.secure_random_bytes j ≡ a.secure_random_bytes k
          → j ≡ k)
      → get_elem? outputs i ≡ some output
      → (get (path_of i) (store_outputs a 0 outputs w).store ≡ some output)
        × (length (name_of i) ≡ 64)
  store_outputs-stored outputs w i output bytes size distinct e =
      let inside = get_elem?-lt outputs i output e in
      let n = length-hex_str (a.secure_random_bytes i) in
      let m = size i inside in
      (
        subst (λ m. get (path_of m) (store_outputs a 0 outputs w).store ≡ some output) (zero_add i)
            (store_outputs-found 0 outputs w i output
              (λ j k hj hk same. distinct j k hj hk (
                path_of-injective j k (bytes j hj) (bytes k hk)
                  (sym (ap path_of (zero_add j)) ∙ same ∙ ap path_of (zero_add k))))
              e),
        omega arith,
      )
