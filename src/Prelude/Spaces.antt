-- ===== src/Prelude/Spaces.antt =====
-- `split_whitespace` of words with spaces between them.
use yuv_lightning_ldk_sample.Prelude.{
  ℕ, All, List, is_empty, ◌++◌, ◌≡◌, ◌∷◌, false, [], ◌∙◌, subst, append-nil, ap, append_assoc, sym,
}
use yuv_lightning_ldk_sample.Prelude.Text.{split_whitespace, Bytes, words_from, is_whitespace}

abbrev pub IsPlain : ℕ → Type 0
IsPlain c = is_whitespace c ≡ false

words_from-space :
    (w cur s : Bytes)
    → All IsPlain w
    → is_empty (cur ++ w) ≡ false
    → words_from cur (w ++ b' ' ∷ s) ≡ (cur ++ w) ∷ words_from [] s
unfolding words_from
words_from-space [] cur s h some_word =
    let word : is_empty cur ≡ false = subst (λ t. is_empty t ≡ false) (append-nil cur) some_word in
    rw (word, append-nil cur)
words_from-space (c ∷ w) cur s h some_word =
    let assoc = append_assoc cur (c ∷ []) w in
    rw (h.0) (
      words_from-space w (cur ++ c ∷ []) s h.1
        (subst (λ t. is_empty t ≡ false) (sym assoc) some_word)
      ∙ ap (λ t. t ∷ words_from [] s) assoc)

words_from-end :
    (w cur : Bytes)
    → All IsPlain w
    → is_empty (cur ++ w) ≡ false
    → words_from cur w ≡ (cur ++ w) ∷ []
unfolding words_from
words_from-end [] cur h some_word =
    let word : is_empty cur ≡ false = subst (λ t. is_empty t ≡ false) (append-nil cur) some_word in
    rw (word, append-nil cur)
words_from-end (c ∷ w) cur h some_word =
    let assoc = append_assoc cur (c ∷ []) w in
    rw (h.0) (
      words_from-end w (cur ++ c ∷ []) h.1 (subst (λ t. is_empty t ≡ false) (sym assoc) some_word)
      ∙ ap (λ t. t ∷ []) assoc)

-- the words with a space between any two
abbrev pub spaced : Bytes → List Bytes → Bytes
spaced w [] = w
spaced w (v ∷ words) = w ++ b' ' ∷ spaced v words

-- A word is not empty and holds no white space.
abbrev pub IsWord : Bytes → Type 0
IsWord w = (is_empty w ≡ false) × All IsPlain w

pub split_whitespace-spaced :
    (w : Bytes) (words : List Bytes)
    → IsWord w
    → All IsWord words
    → split_whitespace (spaced w words) ≡ w ∷ words
unfolding split_whitespace
split_whitespace-spaced w [] h hs = words_from-end w [] h.1 h.0
split_whitespace-spaced w (v ∷ words) h hs =
    words_from-space w [] (spaced v words) h.1 h.0
    ∙ ap (λ ws. w ∷ ws) (split_whitespace-spaced v words hs.0 hs.1)
