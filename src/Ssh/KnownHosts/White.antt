-- ===== src/Ssh/KnownHosts/White.antt =====
-- crates/ssh/src/known_hosts.rs: the white space of a line, whose characters are their UTF-8 bytes.
use dbmcp.Prelude.{
  ℕ, ◌+◌, ◌*◌, Bytes, List, [], ◌∷◌, ◌++◌, reverse, Bool, ◌||◌, ◌==◌, in_range, if◌then◌else◌,
}

-- The number that the bytes of a character spell.
unfoldable pub spelled : ℕ → Bytes → ℕ
spelled n [] = n
spelled n (b ∷ bs) = spelled (n * 256 + b) bs

-- `char::is_whitespace`, of a character in UTF-8: the Unicode property White_Space.
is_white : Bytes → Bool
unfolding spelled
is_white c =
    let n = spelled 0 c in
    in_range 0x9 0xd n
    || n == 0x20
    || n == 0xc285
    || n == 0xc2a0
    || n == 0xe19a80
    || in_range 0xe28080 0xe2808a n
    || in_range 0xe280a8 0xe280a9 n
    || n == 0xe280af
    || n == 0xe2819f
    || n == 0xe38080

skip_white : List Bytes → List Bytes
unfolding is_white
skip_white [] = []
skip_white (c ∷ cs) = if is_white c then skip_white cs else c ∷ cs

-- `trim`
unfoldable pub trimmed : List Bytes → List Bytes
unfolding skip_white
trimmed cs = reverse (skip_white (reverse (skip_white cs)))

-- `split_whitespace`, with words that may be empty.
unfoldable pub split_white : List Bytes → Bytes → List Bytes
unfolding is_white
split_white [] word = word ∷ []
split_white (c ∷ cs) word =
    let cut = word ∷ split_white cs [] in
    let longer = split_white cs (word ++ c) in if is_white c then cut else longer
