-- ===== src/Ssh/KnownHosts/Glob/Matches.antt =====
-- crates/ssh/src/known_hosts.rs `glob`: what a pattern means.
use dbmcp.Prelude.{
  ℕ, zero, suc, ◌+◌, ◌*◌, ◌≤◌, ◌≡◌, ◌∙◌, refl, sym, ap, subst, List, [], ◌∷◌, ◌++◌, length, drop,
  all, any, All, All-append, Bool, true, false, Bool-cases, ==→eq, ◌||◌, ◌&&◌, ◌==◌, none, some,
  inl, inr, length-append, length-drop, drop-drop, drop-length, append_assoc, arith, if◌then◌else◌,
}
use native.Mathlib.Nat.{suc-mul}
use dbmcp.Ssh.KnownHosts.Glob.{Backtrack, back_to, is_one, turn, resume, glob_loop, passes, glob}

-- A text and what is left of it behind any run.
unfoldable pub tails : List ℕ → List (List ℕ)
tails [] = [] ∷ []
tails (t ∷ ts) = (t ∷ ts) ∷ tails ts

later : List ℕ → List (List ℕ)
unfolding tails
later [] = []
later (t ∷ ts) = tails ts

one_then : ℕ → (List ℕ → Bool) → List ℕ → Bool
unfolding is_one
one_then c rest [] = false
one_then c rest (t ∷ ts) = is_one c t && rest ts

-- A `*` stands for any run, a `?` for one character, and any other character for itself.
unfoldable pub matches : List ℕ → List ℕ → Bool
unfolding tails one_then
matches [] [] = true
matches [] (t ∷ ts) = false
matches (c ∷ ps) ts =
    let rest = matches ps in if c == 42 then any rest (tails ts) else one_then c rest ts

any-tails : (P : List ℕ → Bool) (us : List ℕ) → any P (tails us) ≡ (P us || any P (later us))
unfolding tails later
any-tails P [] = refl
any-tails P (u ∷ us) = refl

-- Where to go back to matches from a later start.
elsewhere : Backtrack → Bool
unfolding matches later
elsewhere none = false
elsewhere (some (star, start)) = any (matches star) (later start)

Starless : List ℕ → Type 0
Starless = All (λ c. (c == 42) ≡ false)

-- Since it went back, the loop passed as many characters of the text as of the pattern, and no star.
Linked : Backtrack → List ℕ → List ℕ → Type 0
unfolding Starless
Linked none ps ts = Unit
Linked (some (star, start)) ps ts =
    (lit : List ℕ) × (gone : List ℕ) × (star ≡ lit ++ ps)
    × (start ≡ gone ++ ts)
    × (length lit ≡ length gone)
    × Starless lit

plus_comm : (a b : ℕ) → a + b ≡ b + a
plus_comm a b = omega arith

plus_zero : (n : ℕ) → n + 0 ≡ n
plus_zero n = omega arith

or_true : (b : Bool) → (b || true) ≡ true
or_true true = refl
or_true false = refl

or_false : (b : Bool) → (b || false) ≡ b
or_false true = refl
or_false false = refl

and_false : (b : Bool) → (b && false) ≡ false
and_false true = refl
and_false false = refl

and_right : (a b : Bool) → (a && b) ≡ true → b ≡ true
and_right true b h = h
and_right false b h = ground arith

false_is_not_true : false ≡ true → ⊥
false_is_not_true h = ground arith

any-true :
    (P : List ℕ → Bool) (us : List ℕ) → any P (tails us) ≡ true → (k : ℕ) × (P (drop k us) ≡ true)
unfolding tails
any-true P [] h = (0, ground arith)
any-true P (u ∷ us) h = elim (Bool-cases (P (u ∷ us))) [
  | inl e ↦ (0, e)
  | inr e ↦ let (k, j) = any-true P us (rw e at h) in (suc k, j)
]

any-drop :
    (P : List ℕ → Bool) (k : ℕ) (us : List ℕ)
    → any P (tails (drop k us)) ≡ true
    → any P (tails us) ≡ true
unfolding tails
any-drop P zero us h = h
any-drop P (suc k) [] h = h
any-drop P (suc k) (u ∷ us) h = rw (any-drop P k us h) (or_true (P (u ∷ us)))

-- Past the characters before a star, the rest matches from some start on.
matches-star :
    (lit ps us : List ℕ)
    → Starless lit
    → matches (lit ++ 42 ∷ ps) us ≡ true
    → any (matches ps) (tails (drop (length lit) us)) ≡ true
unfolding matches one_then Starless
matches-star [] ps us _ h = h
matches-star (c ∷ lit) ps [] (n, ns) h = absurd (false_is_not_true (rw n at h))
matches-star (c ∷ lit) ps (u ∷ us) (n, ns) h =
    matches-star lit ps us ns (and_right (is_one c u) (matches (lit ++ 42 ∷ ps) us) (rw n at h))

matches_short :
    (lit ps us : List ℕ)
    → Starless lit
    → length us + 1 ≤ length lit
    → matches (lit ++ ps) us ≡ false
unfolding matches one_then Starless
matches_short [] ps us _ h = absurd (omega arith)
matches_short (c ∷ lit) ps [] (n, ns) h = rw n refl
matches_short (c ∷ lit) ps (u ∷ us) (n, ns) h =
    rw (n, matches_short lit ps us ns (omega arith)) (and_false (is_one c u))

drop-drop-length : (k : ℕ) (gone ts : List ℕ) → drop (length gone) (drop k (gone ++ ts)) ≡ drop k ts
drop-drop-length k gone ts =
    drop-drop (length gone) k (gone ++ ts)
    ∙ ap (λ n. drop n (gone ++ ts)) (omega arith)
    ∙ sym (drop-drop k (length gone) (gone ++ ts))
    ∙ ap (drop k) (drop-length gone ts)

later-true :
    (P : List ℕ → Bool) (us : List ℕ)
    → any P (later us) ≡ true
    → (k : ℕ) × (P (drop (suc k) us) ≡ true) × (1 ≤ length us)
unfolding later
later-true P [] h = absurd (false_is_not_true h)
later-true P (u ∷ us) h = let (k, j) = any-true P us h in (k, j, omega arith)

-- What a later start would match behind the last star, the star that was met matches now.
absorbed :
    (back : Backtrack) (ps ts : List ℕ)
    → Linked back (42 ∷ ps) ts
    → (any (matches ps) (tails ts) || elsewhere back) ≡ any (matches ps) (tails ts)
unfolding Linked elsewhere
absorbed none ps ts _ = or_false _
absorbed (some (star, start)) ps ts (lit, gone, e, e', l, n) =
    elim (Bool-cases (any (matches star) (later start))) [
      | inl h ↦
          let (k, m, _) = later-true (matches star) start h in
          let m' : matches (lit ++ 42 ∷ ps) (drop (suc k) (gone ++ ts)) ≡ true = rw (e, e') at m in
          let behind = matches-star lit ps (drop (suc k) (gone ++ ts)) n m' in
          let found : any (matches ps) (tails ts) ≡ true =
            any-drop (matches ps) (suc k) ts (rw (l, drop-drop-length (suc k) gone ts) at behind) in
          rw found refl
      | inr h ↦ rw h (or_false _)
    ]

-- At the end of the text a later start is too late.
too_late : (back : Backtrack) (ps : List ℕ) → Linked back ps [] → elsewhere back ≡ false
unfolding Linked elsewhere
too_late none ps _ = refl
too_late (some (star, start)) ps (lit, gone, e, e', l, n) =
    elim (Bool-cases (any (matches star) (later start))) [
      | inl h ↦
          let (k, m, pos) = later-true (matches star) start h in
          let sizes : length start ≡ length gone =
            ap length e' ∙ length-append gone [] ∙ plus_zero (length gone) in
          let none_left : matches (lit ++ ps) (drop (suc k) start) ≡ false =
            matches_short lit ps (drop (suc k) start) n
              (omega (arith, length-drop (suc k) start)) in
          absurd (false_is_not_true (sym none_left ∙ rw e at m))
      | inr h ↦ h
    ]

matches_end : (ps : List ℕ) → matches ps [] ≡ all (λ c. c == 42) ps
unfolding matches one_then tails
matches_end [] = refl
matches_end (c ∷ ps) = elim (Bool-cases (c == 42)) [
  | inl e ↦ rw e (or_false _ ∙ matches_end ps)
  | inr e ↦ rw e refl
]

area : ℕ → ℕ → ℕ
area zero q = 0
area (suc m) q = q + area m q

area_mono : (m n q : ℕ) → m ≤ n → area m q ≤ area n q
unfolding area
area_mono zero n q h = omega arith
area_mono (suc m) zero q h = absurd (omega arith)
area_mono (suc m) (suc n) q h = let ih = area_mono m n q (omega arith) in omega arith

area_eq : (m q : ℕ) → area m q ≡ m * q
unfolding area
area_eq zero q = omega arith
area_eq (suc m) q =
    let ih = area_eq m q in ap (λ n. q + n) ih ∙ (sym (suc-mul m q ∙ plus_comm (m * q) q))

-- Enough passes are left: the pattern has no more than `p` characters, the text from where to go back
-- to no more than `m`.
Enough : ℕ → ℕ → ℕ → List ℕ → List ℕ → Backtrack → Type 0
Enough p m fuel ps ts none = (length ps ≤ p) × (length ts ≤ m) × (area m (suc p) + length ps ≤ fuel)
Enough p m fuel ps ts (some (star, start)) =
    (length ps ≤ p)
    × (length ts ≤ m)
    × (area m (suc p) + length ps ≤ fuel)
    × (length star ≤ p)
    × (length start ≡ m)

same_size :
    (fuel p m : ℕ) (ps ts : List ℕ) (back : Backtrack)
    → Enough p m fuel ps ts back
    → (length ps ≤ p) × (length ts ≤ m) × (area m (suc p) + length ps ≤ fuel)
unfolding Enough
same_size fuel p m ps ts none h = h
same_size fuel p m ps ts (some (star, start)) (a, b, c, _, _) = (a, b, c)

advanced-Enough :
    (fuel p m c t : ℕ) (ps ts : List ℕ) (back : Backtrack)
    → Enough p m (suc fuel) (c ∷ ps) (t ∷ ts) back
    → Enough p m fuel ps ts back
unfolding Enough
advanced-Enough fuel p m c t ps ts none (a, b, d) = (omega arith, omega arith, omega arith)
advanced-Enough fuel p m c t ps ts (some (star, start)) (a, b, d, e, f) =
    (omega arith, omega arith, omega arith, e, f)

advanced-Linked :
    (c t : ℕ) (ps ts : List ℕ) (back : Backtrack)
    → (c == 42) ≡ false
    → Linked back (c ∷ ps) (t ∷ ts)
    → Linked back ps ts
unfolding Linked Starless
advanced-Linked c t ps ts none n _ = tt
advanced-Linked c t ps ts (some (star, start)) n (lit, gone, e, e', l, ns) = (
  lit ++ c ∷ [],
  gone ++ t ∷ [],
  e ∙ sym (append_assoc lit (c ∷ []) ps),
  e' ∙ sym (append_assoc gone (t ∷ []) ts),
  omega (arith, length-append lit (c ∷ []), length-append gone (t ∷ [])),
  All-append (λ d. (d == 42) ≡ false) lit (c ∷ []) ns (n, tt),
)

-- What the loop answers with the fuel, where that is enough.
Answers : ℕ → ℕ → Type 0
Answers fuel p =
    (m : ℕ) (ps ts : List ℕ) (back : Backtrack)
    → Enough p m fuel ps ts back
    → Linked back ps ts
    → glob_loop fuel ps ts back ≡ (matches ps ts || elsewhere back)

going_back :
    (fuel p m t : ℕ) (ps ts : List ℕ) (back : Backtrack)
    → Answers fuel p
    → Enough p m (suc fuel) ps (t ∷ ts) back
    → resume (glob_loop fuel) (back_to back) ≡ elsewhere back
unfolding Answers Enough Linked back_to resume elsewhere later area Starless
going_back fuel p m t ps ts none ih h = refl
going_back fuel p m t ps ts (some (star, [])) ih h = refl
going_back fuel p zero t ps ts (some (star, u ∷ start)) ih (_, b, _, _, _) = absurd (omega arith)
going_back fuel p (suc m) t ps ts (some (star, u ∷ start)) ih (a, b, c, d, e) =
    ih m star start (some (star, start)) (d, omega arith, omega arith, d, omega arith)
      ([], [], refl, refl, refl, tt)
    ∙ sym (any-tails (matches star) start)

no_fuel : (p m t : ℕ) (ps ts : List ℕ) → length (t ∷ ts) ≤ m → area m (suc p) + length ps ≤ 0 → ⊥
unfolding area
no_fuel p zero t ps ts h k = omega arith
no_fuel p (suc m) t ps ts h k = omega arith

at_star :
    (fuel p m t : ℕ) (ps ts : List ℕ) (back : Backtrack)
    → Answers fuel p
    → Enough p m (suc fuel) (42 ∷ ps) (t ∷ ts) back
    → Linked back (42 ∷ ps) (t ∷ ts)
    → glob_loop fuel ps (t ∷ ts) (some (ps, t ∷ ts))
      ≡ (any (matches ps) (tails (t ∷ ts)) || elsewhere back)
unfolding Answers Enough Linked elsewhere Starless
at_star fuel p m t ps ts back ih h k =
    let (a, b, c) = same_size (suc fuel) p m (42 ∷ ps) (t ∷ ts) back h in
    let less = area_mono (length (t ∷ ts)) m (suc p) b in
    ih (length (t ∷ ts)) ps (t ∷ ts) (some (ps, t ∷ ts))
      (omega arith, omega arith, omega arith, omega arith, refl) ([], [], refl, refl, refl, tt)
    ∙ sym (any-tails (matches ps) (t ∷ ts))
    ∙ sym (absorbed back ps (t ∷ ts) k)

-- The loop answers whether the rests match, or the pattern behind the last star from a later start.
loop-matches : (fuel p : ℕ) → Answers fuel p
unfolding Answers glob_loop turn resume matches elsewhere
loop-matches fuel p m ps [] back h k = rw (too_late back ps k, matches_end ps) (sym (or_false _))
loop-matches zero p m ps (t ∷ ts) back h k =
    let (a, b, c) = same_size zero p m ps (t ∷ ts) back h in absurd (no_fuel p m t ps ts b c)
loop-matches (suc fuel) p m [] (t ∷ ts) back h k =
    going_back fuel p m t [] ts back (loop-matches fuel p) h
loop-matches (suc fuel) p m (c ∷ ps) (t ∷ ts) back h k = elim (Bool-cases (c == 42)) [
  | inl e ↦ rw e (
      at_star fuel p m t ps ts back (loop-matches fuel p)
        (subst (λ d. Enough p m (suc fuel) (d ∷ ps) (t ∷ ts) back) (==→eq c 42 e) h)
        (subst (λ d. Linked back (d ∷ ps) (t ∷ ts)) (==→eq c 42 e) k))
  | inr e ↦ elim (Bool-cases (is_one c t)) [
    | inl e' ↦
        rw (e, e')
          (loop-matches fuel p m ps ts back (advanced-Enough fuel p m c t ps ts back h)
            (advanced-Linked c t ps ts back e k))
    | inr e' ↦ rw (e, e') (going_back fuel p m t (c ∷ ps) ts back (loop-matches fuel p) h)
  ]
]

-- The loop with its one place to go back to always ends, and answers whether the text is one that the
-- pattern stands for: a `*` for any run of characters, a `?` for one, any other for itself.
pub glob-matches : (pattern text : List ℕ) → glob pattern text ≡ matches pattern text
unfolding glob passes Enough Linked elsewhere Answers
glob-matches pattern text =
    let sizes = area_eq (length text) (suc (length pattern)) in
    let fuel = suc-mul (length text) (suc (length pattern)) in
    loop-matches (passes pattern text) (length pattern) (length text) pattern text none
      (omega arith, omega arith, omega arith) tt
    ∙ or_false _
