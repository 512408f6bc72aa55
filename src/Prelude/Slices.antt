-- ===== src/Prelude/Slices.antt =====
-- Byte offsets into UTF-8 text, and `str` slices.
use Prim.Native.Nat.{ℕ, zero, suc, ◌-◌, ◌≤◌}
use mathlib.Core.Path.{◌≡◌, refl}
use mathlib.Core.Bool.{Bool, true, false, not, ◌&&◌, ◌||◌}
use mathlib.Core.Logic.{inl, inr}
use mathlib.Core.List.{[], ◌∷◌}
use mathlib.Core.Option.{Option, none, some}
use native.Mathlib.Omega.{arith}
use dbmcp.Prelude.Tests.{leb, leb→le, Bool-cases, ◌==◌, in_range, if◌then◌else◌}
use dbmcp.Prelude.Lists.{Bytes, length, take, drop, get_elem?}

-- A byte inside a UTF-8 character.
abbrev pub is_continuation : ℕ → Bool
is_continuation b = in_range 0x80 0xbf b

-- `str::is_char_boundary`, over the bytes of the text.
boundary_at : ℕ → Option ℕ → Bool
boundary_at i none = false
boundary_at i (some b) = not (is_continuation b)

unfoldable pub is_char_boundary : Bytes → ℕ → Bool
unfolding boundary_at
is_char_boundary text i = i == 0 || i == length text || boundary_at i (get_elem? text i)

-- `&text[from..to]`; `none` is the panic.
unfoldable pub slice : Bytes → ℕ → ℕ → Option Bytes
slice text from to =
    if leb from to && leb to (length text) && is_char_boundary text from && is_char_boundary text to
    then some (take (to - from) (drop from text))
    else none

-- The bytes from one offset up to another.
abbrev pub between : ℕ → ℕ → Bytes → Bytes
between from to text = take (to - from) (drop from text)

pub slice-between :
    (text : Bytes) (from to : ℕ)
    → from ≤ to
    → to ≤ length text
    → is_char_boundary text from ≡ true
    → is_char_boundary text to ≡ true
    → slice text from to ≡ some (between from to text)
unfolding slice
slice-between text from to h k bf bt = ground arith

pub is_char_boundary_start : (text : Bytes) → is_char_boundary text 0 ≡ true
unfolding is_char_boundary
is_char_boundary_start text = ground arith

pub is_char_boundary_end : (text : Bytes) → is_char_boundary text (length text) ≡ true
unfolding is_char_boundary
is_char_boundary_end text = ground arith

get_elem?_beyond : (text : Bytes) (i : ℕ) → length text ≤ i → get_elem? text i ≡ none
get_elem?_beyond [] i _ = refl
get_elem?_beyond (b ∷ text) zero h = absurd (omega arith)
get_elem?_beyond (b ∷ text) (suc i) h = get_elem?_beyond text i (omega arith)

-- A character boundary lies in the text.
pub boundary_inside : (text : Bytes) (i : ℕ) → is_char_boundary text i ≡ true → i ≤ length text
unfolding is_char_boundary boundary_at
boundary_inside text i h = elim (Bool-cases (leb i (length text))) [
  | inl e ↦ leb→le i (length text) e
  | inr e ↦
      let none_there : get_elem? text i ≡ none = get_elem?_beyond text i (ground arith) in
      absurd (ground arith)
]
