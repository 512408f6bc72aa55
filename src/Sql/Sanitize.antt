-- ===== src/Sql/Sanitize.antt =====
-- crates/sql/src/sanitize.rs
pub mod Unquote
mod Tests
use dbmcp.Prelude.{ℕ, Bytes, [], ◌∷◌, ◌++◌, ◌==◌, if◌then◌else◌}

-- The loop of `quote_ident` over `value.chars()`; `out` is the text so far.
push_chars : ℕ → Bytes → Bytes → Bytes
push_chars quote [] out = out
push_chars quote (ch ∷ value) out =
    push_chars quote value ((if ch == quote then out ++ quote ∷ [] else out) ++ ch ∷ [])

unfoldable pub quote_ident : Bytes → ℕ → Bytes
unfolding push_chars
quote_ident value quote = push_chars quote value (quote ∷ []) ++ quote ∷ []
