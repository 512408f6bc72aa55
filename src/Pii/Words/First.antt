-- ===== src/Pii/Words/First.antt =====
-- crates/pii/src/words.rs: the two scans of a text for words.
use dbmcp.Prelude.{
  ℕ, arith, ◌≡◌, ◌≢◌, refl, Bytes, List, [], ◌∷◌, ◌++◌, Bool-cases, inl, inr, Option, none, some,
  All,
}
use dbmcp.Pii.Operators.Mask.{chars}
use dbmcp.Pii.Words.{
  Unicode, push, then_some, is_word_char, words_from, words, first_from, first_word,
}

-- `slice::first`
abbrev pub first : List Bytes → Option Bytes
first [] = none
first (w ∷ ws) = some w

module _ (unicode : Unicode) where
  open unicode use {to_lowercase}

  -- A scan that has begun a word goes on to it.
  first_from-begun :
      (b : ℕ) (buf : Bytes) (cs : List Bytes)
      → first_from unicode (b ∷ buf) cs ≡ first (words_from unicode (b ∷ buf) cs)
  unfolding first_from words_from push then_some
  first_from-begun b buf [] = refl
  first_from-begun b buf (c ∷ cs) = elim (Bool-cases (is_word_char unicode c)) [
    | inl e ↦ rw e (first_from-begun b (buf ++ to_lowercase c) cs)
    | inr e ↦ rw e refl
  ]

  first_from-words_from :
      (buf : Bytes) (cs : List Bytes)
      → first_from unicode buf cs ≡ first (words_from unicode buf cs)
  unfolding first_from words_from push then_some
  first_from-words_from (b ∷ buf) cs = first_from-begun b buf cs
  first_from-words_from [] [] = refl
  first_from-words_from [] (c ∷ cs) = elim (Bool-cases (is_word_char unicode c)) [
    | inl e ↦ rw e (first_from-words_from (to_lowercase c) cs)
    | inr e ↦ rw e (first_from-words_from [] cs)
  ]

  push-All :
      (buf : Bytes) (ws : List Bytes) → All (λ w. w ≢ []) ws → All (λ w. w ≢ []) (push buf ws)
  unfolding push
  push-All [] ws h = h
  push-All (b ∷ buf) ws h = ((λ e. absurd (ground arith)), h)

  words_from-All : (buf : Bytes) (cs : List Bytes) → All (λ w. w ≢ []) (words_from unicode buf cs)
  unfolding words_from
  words_from-All buf [] = push-All buf [] tt
  words_from-All buf (c ∷ cs) = elim (Bool-cases (is_word_char unicode c)) [
    | inl e ↦ rw e (words_from-All (buf ++ to_lowercase c) cs)
    | inr e ↦ rw e (push-All buf (words_from unicode [] cs) (words_from-All [] cs))
  ]

  -- `first_word` is the first of `words`, if there is one, and no word is empty, whatever the tables
  -- of Unicode hold.
  pub first_word-words :
      (text : Bytes)
      → (first_word unicode text ≡ first (words unicode text))
        × All (λ w. w ≢ []) (words unicode text)
  unfolding first_word words
  first_word-words text = (first_from-words_from [] (chars text), words_from-All [] (chars text))
