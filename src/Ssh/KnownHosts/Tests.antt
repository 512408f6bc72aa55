-- ===== src/Ssh/KnownHosts/Tests.antt =====
-- A file with a revoked key behind a match.
use dbmcp.Prelude.{◌≡◌, refl, Bytes, codes, List, [], ◌∷◌, Bool, true, false, none, some, All}
use dbmcp.Ssh.KnownHosts.Glob.{glob}
use dbmcp.Ssh.KnownHosts.Glob.Matches.{matches, glob-matches}
use dbmcp.Ssh.KnownHosts.Check.{by_first, check-first, check-for_host}
use dbmcp.Ssh.KnownHosts.{
  Entry, Line, patterns, revoked, verdict_revoked, for_host, check, host_name, parse_line,
  patterns_match, hosts_match, Algorithm, algorithms,
}

abbrev no_hashes : Bytes → Bytes → Bytes → Bool
no_hashes salt name hash = false

abbrev plain_entry : Bytes → Entry
plain_entry key = record {
  marker = none;
  host_patterns = patterns (codes "*.example.org" ∷ codes "!b*" ∷ []);
  key_data = key;
}

-- Its host is not the one that is looked up.
abbrev other_entry : Entry
other_entry = record (plain_entry (codes "k1")) { host_patterns = patterns (codes "a.org" ∷ []) }

abbrev algorithm : Bytes → Algorithm
algorithm key = record { name = key; is_rsa = false }

abbrev lines : List Line
lines =
    record { number = 1; entry = plain_entry (codes "k1") }
    ∷ record { number = 3; entry = record (plain_entry (codes "k1")) { marker = some revoked } }
    ∷ record { number = 4; entry = other_entry }
    ∷ []

abbrev name : Bytes
name = codes "db.example.org"

revoked_wins : check no_hashes lines name (codes "k1") ≡ verdict_revoked 3
unfolding check
revoked_wins = refl

negated :
    patterns_match false (codes "*.example.org" ∷ codes "!b*" ∷ []) (codes "b.example.org") ≡ false
unfolding patterns_match
negated = refl

-- The last byte of the letter is the number of a no-break space; the two bytes in front are one.
inside_letter :
    parse_line (λ l. some (plain_entry l)) (0xc2 ∷ 0xa0 ∷ 0xc3 ∷ 0xa0 ∷ [])
    ≡ some (plain_entry (0xc3 ∷ 0xa0 ∷ []))
unfolding parse_line
inside_letter = refl

with_port : host_name (λ n. codes "2222") (codes "Db") 2222 ≡ codes "[db]:2222"
unfolding host_name
with_port = refl

backtracks : glob (codes "a*b?c") (codes "axbxbzc") ≡ true
unfolding glob
backtracks = refl

glob-matches_example :
    glob (codes "a*b?c") (codes "axbxbzc") ≡ matches (codes "a*b?c") (codes "axbxbzc")
glob-matches_example = glob-matches (codes "a*b?c") (codes "axbxbzc")

check-first_example :
    check no_hashes lines name (codes "k1")
    ≡ by_first no_hashes (codes "k1") (for_host no_hashes lines name)
check-first_example = check-first no_hashes (codes "k1") lines name

check-for_host_example :
    All
      (λ l. hosts_match no_hashes l.entry.host_patterns name ≡ true)
      (for_host no_hashes lines name)
    × (check no_hashes (for_host no_hashes lines name) name (codes "k1")
        ≡ check no_hashes lines name (codes "k1"))
    × (algorithms no_hashes algorithm (for_host no_hashes lines name) name
        ≡ algorithms no_hashes algorithm lines name)
check-for_host_example = check-for_host no_hashes (codes "k1") algorithm lines name
