-- ===== src/Ssh/KnownHosts/Glob.antt =====
-- crates/ssh/src/known_hosts.rs `glob`. A pattern and a text are characters, and an offset of them is
-- what is left from there.
pub mod Matches
use dbmcp.Prelude.{
  ℕ, zero, suc, ◌+◌, ◌*◌, List, [], ◌∷◌, length, all, Bool, true, false, ◌||◌, ◌==◌, Option, none,
  some, if◌then◌else◌,
}

-- What is left of the pattern behind the star, and of the text where its run ends.
abbrev pub Backtrack : Type 0
Backtrack = Option (List ℕ × List ℕ)

-- What the loop goes on with: both rests and where to go back to.
pub data Turn : Type 0 where
  go_on : List ℕ → List ℕ → Backtrack → Turn
  give_up : Turn

-- The arm without a match.
unfoldable pub back_to : Backtrack → Turn
back_to none = give_up
back_to (some (star, [])) = give_up
back_to (some (star, u ∷ start)) = go_on star start (some (star, start))

unfoldable pub is_one : ℕ → ℕ → Bool
is_one c t = c == 63 || c == t

-- One pass of the loop, at the character `t` of the text.
unfoldable pub turn : List ℕ → ℕ → List ℕ → Backtrack → Turn
unfolding back_to is_one
turn [] t ts back = back_to back
turn (c ∷ ps) t ts back =
    if c == 42
    then go_on ps (t ∷ ts) (some (ps, t ∷ ts))
    else if is_one c t
    then go_on ps ts back
    else back_to back

pub resume : (List ℕ → List ℕ → Backtrack → Bool) → Turn → Bool
resume loop give_up = false
resume loop (go_on ps ts back) = loop ps ts back

-- The loop, on fuel.
unfoldable pub glob_loop : ℕ → List ℕ → List ℕ → Backtrack → Bool
unfolding turn resume
glob_loop fuel ps [] back = all (λ c. c == 42) ps
glob_loop zero ps (t ∷ ts) back = false
glob_loop (suc fuel) ps (t ∷ ts) back = resume (glob_loop fuel) (turn ps t ts back)

-- As many passes as the loop can make.
unfoldable pub passes : List ℕ → List ℕ → ℕ
passes pattern text = suc (length text) * suc (length pattern)

unfoldable pub glob : List ℕ → List ℕ → Bool
unfolding glob_loop passes
glob pattern text = glob_loop (passes pattern text) pattern text none
