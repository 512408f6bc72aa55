-- ===== src/Ssh/KnownHosts.antt =====
-- crates/ssh/src/known_hosts.rs. A text is its UTF-8 bytes. The parser of an entry and the check of a
-- hashed name are the library's, and parameters.
mod White
pub mod Glob
pub mod Check
mod Tests
use dbmcp.Prelude.{
  ℕ, suc, ◌+◌, ◌*◌, Bytes, codes, List, [], ◌∷◌, ◌++◌, map, any, reverse, Bool, true, false, not,
  ◌||◌, ◌&&◌, ◌==◌, Option, none, some, Result, ok, err, bytes_eq, strip_prefix, in_range,
  split_with, to_ascii_lowercase, if◌then◌else◌,
}
use dbmcp.Pii.Operators.Mask.{chars}
use Glob.{glob}
use White.{spelled, trimmed, split_white}

pub data Marker : Type 0 where
  cert_authority : Marker
  revoked : Marker

pub data HostPatterns : Type 0 where
  patterns : List Bytes → HostPatterns
  hashed_name : Bytes → Bytes → HostPatterns

-- A key is its data; `algorithm` is what the data says.
pub record Entry : Type 0 where
  pub marker : Option Marker
  pub host_patterns : HostPatterns
  pub key_data : Bytes

pub record Line : Type 0 where
  pub number : ℕ
  pub entry : Entry

pub data Verdict : Type 0 where
  verdict_revoked : ℕ → Verdict
  match : Verdict
  changed : ℕ → Verdict
  unknown : Verdict

-- `host_name`, for the decimal digits of the port.
unfoldable pub host_name : (ℕ → Bytes) → Bytes → ℕ → Bytes
unfolding to_ascii_lowercase
host_name to_string host port =
    let lower = map to_ascii_lowercase host in
    if port == 22 then lower else codes "[" ++ lower ++ codes "]:" ++ to_string port

-- The words, joined by single spaces without the empty ones.
joined : List Bytes → Bytes
joined [] = []
joined ([] ∷ words) = joined words
joined ((c ∷ word) ∷ words) = spaced (joined words)
  where
    spaced : Bytes → Bytes
    spaced [] = c ∷ word
    spaced (d ∷ rest) = c ∷ word ++ codes " " ++ d ∷ rest

-- `line.is_empty() || line.starts_with('#')`
starts_with_hash : List Bytes → Bool
unfolding bytes_eq
starts_with_hash [] = true
starts_with_hash (c ∷ cs) = bytes_eq c (codes "#")

-- The entry of one line, unless it is blank, a comment or malformed.
unfoldable pub parse_line : (Bytes → Option Entry) → Bytes → Option Entry
unfolding chars trimmed starts_with_hash joined split_white
parse_line parse_entry raw =
    let line = trimmed (chars raw) in
    if starts_with_hash line then none else parse_entry (joined (split_white line []))

push_line : ℕ → Option Entry → List Line → List Line
push_line number none lines = lines
push_line number (some entry) lines = record { number = number; entry = entry } ∷ lines

unfoldable pub parse_lines : (Bytes → Option Entry) → ℕ → List Bytes → List Line
unfolding push_line parse_line
parse_lines parse_entry index [] = []
parse_lines parse_entry index (raw ∷ raws) =
    push_line (index + 1) (parse_line parse_entry raw) (parse_lines parse_entry (suc index) raws)

or_same : Bytes → Option Bytes → Bytes
or_same text none = text
or_same text (some rest) = rest

-- `KnownHosts::parse`
unfoldable pub parse : (Bytes → Option Entry) → Bytes → List Line
unfolding parse_lines or_same strip_prefix split_with
parse parse_entry text =
    let text' = or_same text (strip_prefix (0xef ∷ 0xbb ∷ 0xbf ∷ []) text) in
    parse_lines parse_entry 0 (split_with (λ c. c == 10) text' [])

-- One pattern: whether it is negated, and without the `!`.
negation : Bytes → Option Bytes → Bool × Bytes
negation pattern none = (false, pattern)
negation pattern (some rest) = (true, rest)

-- `chars`, as the numbers that their bytes spell.
unfoldable pub characters : Bytes → List ℕ
unfolding chars spelled
characters s = map (spelled 0) (chars s)

-- The loop over the patterns.
unfoldable pub patterns_match : Bool → List Bytes → Bytes → Bool
unfolding negation strip_prefix glob characters to_ascii_lowercase
patterns_match positive [] name = positive
patterns_match positive (p ∷ ps) name =
    let (negated, pattern) = negation p (strip_prefix (codes "!") p) in
    let hit = glob (characters (map to_ascii_lowercase pattern)) (characters name) in
    let rest = patterns_match (positive || hit) ps name in if hit && negated then false else rest

module _ (verify : Bytes → Bytes → Bytes → Bool) where
  unfoldable pub hosts_match : HostPatterns → Bytes → Bool
  unfolding patterns_match
  hosts_match (hashed_name salt hash) name = verify salt name hash
  hosts_match (patterns ps) name = patterns_match false ps name

  -- `for_host`, whose `retain` keeps the lines of a host.
  unfoldable pub for_host : List Line → Bytes → List Line
  unfolding hosts_match
  for_host [] name = []
  for_host (l ∷ ls) name =
      let rest = for_host ls name in
      if hosts_match l.entry.host_patterns name then l ∷ rest else rest

  -- `lines_for`, whose `filter` goes over them.
  unfoldable pub lines_for : List Line → Bytes → List Line
  unfolding hosts_match
  lines_for [] name = []
  lines_for (line ∷ lines) name =
      let others = lines_for lines name in
      if hosts_match line.entry.host_patterns name then line ∷ others else others

  -- `get_or_insert`
  pub get_or_insert : Option ℕ → ℕ → Option ℕ
  get_or_insert (some n) m = some n
  get_or_insert none m = some m

  pub verdict : Bool → Option ℕ → Verdict
  verdict true changed_at = match
  verdict false (some line) = changed line
  verdict false none = unknown

  -- The match of the loop's body, on the marker and whether the key is the same: its return, or the
  -- loop's variables.
  pub noted : Option Marker → Bool → ℕ → Option ℕ → Bool → Result (Option ℕ × Bool) ℕ
  unfolding get_or_insert
  noted (some revoked) true line changed_at matched = err line
  noted (some revoked) false line changed_at matched = ok (changed_at, matched)
  noted (some cert_authority) same line changed_at matched = ok (changed_at, matched)
  noted none true line changed_at matched = ok (changed_at, true)
  noted none false line changed_at matched = ok (get_or_insert changed_at line, matched)

  pub go_on : (Option ℕ → Bool → Verdict) → Result (Option ℕ × Bool) ℕ → Verdict
  go_on loop (err line) = verdict_revoked line
  go_on loop (ok (changed_at, matched)) = loop changed_at matched

  -- The loop of `check`.
  unfoldable pub check_lines : Bytes → List Line → Option ℕ → Bool → Verdict
  unfolding noted go_on verdict bytes_eq
  check_lines key [] changed_at matched = verdict matched changed_at
  check_lines key (l ∷ ls) changed_at matched =
      go_on (check_lines key ls)
        (noted l.entry.marker (bytes_eq l.entry.key_data key) l.number changed_at matched)

  -- `KnownHosts::check`
  unfoldable pub check : List Line → Bytes → Bytes → Verdict
  unfolding check_lines lines_for
  check lines name key = check_lines key (lines_for lines name) none false

-- `Algorithm`, of which only whether it is an RSA one is looked at besides equality.
pub record Algorithm : Type 0 where
  pub name : Bytes
  pub is_rsa : Bool

algorithm_eq : Algorithm → Algorithm → Bool
unfolding bytes_eq
algorithm_eq a b = bytes_eq a.name b.name

is_recorded : List Algorithm → Algorithm → Bool
unfolding algorithm_eq
is_recorded recorded a = any (λ r. algorithm_eq r a || (r.is_rsa && a.is_rsa)) recorded

-- `partition`, by what was recorded.
unfoldable pub partition : (Algorithm → Bool) → List Algorithm → List Algorithm × List Algorithm
partition test [] = ([], [])
partition test (a ∷ algorithms) =
    let (first, rest) = partition test algorithms in
    if test a then (a ∷ first, rest) else (first, a ∷ rest)

-- `preferred`
unfoldable pub preferred : List Algorithm → List Algorithm → List Algorithm
unfolding is_recorded partition
preferred recorded default =
    let (first, rest) = partition (is_recorded recorded) default in first ++ rest

unmarked_algorithms : (Bytes → Algorithm) → List Line → List Algorithm
unmarked_algorithms algorithm [] = []
unmarked_algorithms algorithm (l ∷ ls) =
    of_marker l.entry.marker (algorithm l.entry.key_data) (unmarked_algorithms algorithm ls)
  where
    of_marker : Option Marker → Algorithm → List Algorithm → List Algorithm
    of_marker none a rest = a ∷ rest
    of_marker (some m) a rest = rest

-- `KnownHosts::algorithms`
unfoldable pub algorithms :
    (Bytes → Bytes → Bytes → Bool) → (Bytes → Algorithm) → List Line → Bytes → List Algorithm
unfolding unmarked_algorithms lines_for
algorithms verify algorithm lines name = unmarked_algorithms algorithm (lines_for verify lines name)

-- The contents of the file behind `append`, for the rendered entry.
unfoldable pub append : Bytes → Bytes → Bytes
append contents entry = contents ++ ended (reverse contents) ++ entry ++ codes "\n"
  where
    ended : Bytes → Bytes
    ended [] = []
    ended (b ∷ bs) = if b == 10 then [] else codes "\n"
