-- ===== src/Ssh/KnownHosts/Check.antt =====
-- crates/ssh/src/known_hosts.rs `check`: which verdict wins.
use dbmcp.Prelude.{
  ℕ, ◌≡◌, refl, ap, Bytes, List, [], ◌∷◌, Bool, true, false, Bool-cases, ◌||◌, Option, none, some,
  any, All, bytes_eq, inl, inr, if◌then◌else◌,
}
use dbmcp.Ssh.KnownHosts.{
  Marker, revoked, cert_authority, hosts_match, Line, Verdict, verdict_revoked, match, changed,
  unknown, for_host, lines_for, noted, go_on, get_or_insert, verdict, check_lines, check, Algorithm,
  algorithms, unmarked_algorithms,
}

-- What a line says of a key, by its marker and whether its key is the same.
revoking : Option Marker → Bool → Bool
revoking (some revoked) same = same
revoking (some cert_authority) same = false
revoking none same = false

recording : Option Marker → Bool → Bool
recording (some m) same = false
recording none same = same

differing : Option Marker → Bool → Bool
differing (some m) same = false
differing none true = false
differing none false = true

-- The number of the first line of which a test holds.
first : (Line → Bool) → List Line → Option ℕ
first test [] = none
first test (l ∷ ls) = let rest = first test ls in if test l then some l.number else rest

or_first : Option ℕ → Option ℕ → Option ℕ
or_first none n = n
or_first (some n) m = some n

by_priority : Option ℕ → Bool → Option ℕ → Verdict
by_priority (some line) recorded other = verdict_revoked line
by_priority none true other = match
by_priority none false (some line) = changed line
by_priority none false none = unknown

module _ (verify : Bytes → Bytes → Bytes → Bool) where
  going_on :
      (m : Option Marker) (same : Bool) (line : ℕ) (at : Option ℕ) (matched : Bool)
      (loop : Option ℕ → Bool → Verdict) (fr fd : Option ℕ) (rec : Bool)
      → ((a : Option ℕ) (b : Bool) → loop a b ≡ by_priority fr (b || rec) (or_first a fd))
      → go_on verify loop (noted verify m same line at matched)
        ≡ by_priority
            (if revoking m same then some line else fr)
            (matched || (recording m same || rec))
            (or_first at (if differing m same then some line else fd))
  unfolding go_on noted get_or_insert revoking recording differing by_priority or_first
  going_on (some revoked) true line at matched loop fr fd rec ih = refl
  going_on (some revoked) false line at matched loop fr fd rec ih = ih at matched
  going_on (some cert_authority) same line at matched loop fr fd rec ih = ih at matched
  going_on none true line at true loop fr fd rec ih = ih at true
  going_on none true line at false loop fr fd rec ih = ih at true
  going_on none false line none matched loop fr fd rec ih = ih (some line) matched
  going_on none false line (some n) matched loop fr fd rec ih = ih (some n) matched

  module _ (key : Bytes) where
    abbrev same : Line → Bool
    same l = bytes_eq l.entry.key_data key

    revokes : Line → Bool
    unfolding revoking
    revokes l = revoking l.entry.marker (same l)

    records : Line → Bool
    unfolding recording
    records l = recording l.entry.marker (same l)

    differs : Line → Bool
    unfolding differing
    differs l = differing l.entry.marker (same l)

    -- The first line that revokes the key, else a match if a line without a marker has the key, else
    -- the first line without a marker, which has another, else unknown.
    unfoldable pub by_first : List Line → Verdict
    unfolding first revokes records differs by_priority
    by_first ls = by_priority (first revokes ls) (any records ls) (first differs ls)

    check_lines-first :
        (ls : List Line) (at : Option ℕ) (matched : Bool)
        → check_lines verify key ls at matched
          ≡ by_priority
              (first revokes ls)
              (matched || any records ls)
              (or_first at (first differs ls))
    unfolding check_lines first revokes records differs by_priority or_first verdict
    check_lines-first [] none true = refl
    check_lines-first [] none false = refl
    check_lines-first [] (some n) true = refl
    check_lines-first [] (some n) false = refl
    check_lines-first (l ∷ ls) at matched =
        going_on l.entry.marker (same l) l.number at matched (check_lines verify key ls)
          (first revokes ls) (first differs ls) (any records ls) (check_lines-first ls)

    lines_for-for_host :
        (lines : List Line) (name : Bytes)
        → lines_for verify (for_host verify lines name) name ≡ lines_for verify lines name
    unfolding for_host lines_for
    lines_for-for_host [] name = refl
    lines_for-for_host (l ∷ ls) name =
        elim (Bool-cases (hosts_match verify l.entry.host_patterns name)) [
          | inl e ↦ rw (e, e, lines_for-for_host ls name) refl
          | inr e ↦ rw e (lines_for-for_host ls name)
        ]

    lines_for_lem :
        (lines : List Line) (name : Bytes)
        → lines_for verify lines name ≡ for_host verify lines name
    unfolding for_host lines_for
    lines_for_lem [] name = refl
    lines_for_lem (l ∷ ls) name =
        elim (Bool-cases (hosts_match verify l.entry.host_patterns name)) [
          | inl e ↦ rw (e, lines_for_lem ls name) refl
          | inr e ↦ rw e (lines_for_lem ls name)
        ]

    -- The verdict on a key is by priority over the lines for the host, not by their order: a line that
    -- revokes the key, the first of them, before any match; a line without a marker that has the key
    -- before a change; then the first line without a marker; and unknown where there is none.
    pub check-first :
        (lines : List Line) (name : Bytes)
        → check verify lines name key ≡ by_first (for_host verify lines name)
    unfolding check by_first or_first
    check-first lines name =
        rw (lines_for_lem lines name) (check_lines-first (for_host verify lines name) none false)

    for_host-All :
        (lines : List Line) (name : Bytes)
        → All
            (λ l. hosts_match verify l.entry.host_patterns name ≡ true)
            (for_host verify lines name)
    unfolding for_host
    for_host-All [] name = tt
    for_host-All (l ∷ ls) name = elim (Bool-cases (hosts_match verify l.entry.host_patterns name)) [
      | inl e ↦ rw e (e, for_host-All ls name)
      | inr e ↦ rw e (for_host-All ls name)
    ]

    -- Keeping only the lines for a host leaves lines that match the host only, and changes neither the
    -- verdict on a key of that host nor the algorithms that are recorded for it.
    pub check-for_host :
        (algorithm : Bytes → Algorithm) (lines : List Line) (name : Bytes)
        → All
            (λ l. hosts_match verify l.entry.host_patterns name ≡ true)
            (for_host verify lines name)
          × (check verify (for_host verify lines name) name key ≡ check verify lines name key)
          × (algorithms verify algorithm (for_host verify lines name) name
              ≡ algorithms verify algorithm lines name)
    unfolding check algorithms
    check-for_host algorithm lines name = (
      for_host-All lines name,
      ap (λ ls. check_lines verify key ls none false) (lines_for-for_host lines name),
      ap (unmarked_algorithms algorithm) (lines_for-for_host lines name),
    )
