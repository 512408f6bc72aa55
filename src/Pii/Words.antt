-- ===== src/Pii/Words.antt =====
-- crates/pii/src/words.rs: a character is its UTF-8 bytes, and the tables of Unicode are parameters.
pub mod First
use dbmcp.Prelude.{
  ℕ, ◌-◌, Bytes, codes, List, [], ◌∷◌, ◌++◌, map, length, Bool, not, ◌||◌, Option, none, some,
  bytes_eq, is_ascii_alphanumeric, to_ascii_lowercase, split_with, if◌then◌else◌,
}
use dbmcp.Pii.Operators.Mask.{chars}

-- `char::is_alphanumeric` and `char::to_lowercase`
pub record Unicode : Type 0 where
  pub is_alphanumeric : Bytes → Bool
  pub to_lowercase : Bytes → Bytes

-- `if !buf.is_empty() { out.push(buf) }`, in front of what is pushed later.
push : Bytes → List Bytes → List Bytes
push [] out = out
push (b ∷ buf) out = (b ∷ buf) ∷ out

-- `(!buf.is_empty()).then_some(buf)`
then_some : Bytes → Option Bytes
then_some [] = none
then_some (b ∷ buf) = some (b ∷ buf)

module _ (unicode : Unicode) where
  open unicode use {is_alphanumeric, to_lowercase}

  is_word_char : Bytes → Bool
  unfolding bytes_eq
  is_word_char c = is_alphanumeric c || bytes_eq c (codes "_")

  words_from : Bytes → List Bytes → List Bytes
  unfolding is_word_char push
  words_from buf [] = push buf []
  words_from buf (c ∷ cs) =
      let longer = words_from (buf ++ to_lowercase c) cs in
      let next = push buf (words_from [] cs) in if is_word_char c then longer else next

  unfoldable pub words : Bytes → List Bytes
  unfolding words_from chars
  words text = words_from [] (chars text)

  first_from : Bytes → List Bytes → Option Bytes
  unfolding is_word_char then_some
  first_from buf [] = then_some buf
  first_from [] (c ∷ cs) =
      let longer = first_from (to_lowercase c) cs in
      let next = first_from [] cs in if is_word_char c then longer else next
  first_from (b ∷ buf) (c ∷ cs) =
      let longer = first_from (b ∷ buf ++ to_lowercase c) cs in
      if is_word_char c then longer else some (b ∷ buf)

  unfoldable pub first_word : Bytes → Option Bytes
  unfolding first_from chars
  first_word text = first_from [] (chars text)

-- The tokens that are not empty, lowercased.
pub key_words : List Bytes → List Bytes
unfolding to_ascii_lowercase
key_words [] = []
key_words ([] ∷ toks) = key_words toks
key_words ((b ∷ tok) ∷ toks) = map to_ascii_lowercase (b ∷ tok) ∷ key_words toks

-- The new path, and how many words were pushed.
unfoldable pub push_key_words : List Bytes → Bytes → List Bytes × ℕ
unfolding key_words split_with is_ascii_alphanumeric
push_key_words path key =
    let path' = path ++ key_words (split_with (λ c. not (is_ascii_alphanumeric c)) key []) in
    (path', length path' - length path)
