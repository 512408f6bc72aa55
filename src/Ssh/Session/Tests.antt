-- ===== src/Ssh/Session/Tests.antt =====
-- crates/ssh/src/tunnel.rs `Inner::session`: two callers at examples.
use dbmcp.Prelude.{ℕ, ◌≡◌, ◌≤◌, refl, ap, Bytes, codes, [], ◌∷◌, false, none, some, Result, ok, err}
use dbmcp.Ssh.Tunnel.{SshError, timeout, unavailable}
use dbmcp.Ssh.Session.{
  Shared, Messages, error_chain, settle, choose, waiting, done, lock, take, give_up, dial, finish,
  timed, System, pick, Reach, here, later,
}
use dbmcp.Ssh.Session.Flight.{Stage, tries, Shares}
use dbmcp.Ssh.Session.Flight.Once.{Gathered, Reach-Shares}
use dbmcp.Ssh.Session.Progress.{Reach-finishes}

repeated_source :
    error_chain (codes "failed: no route") (codes "no route" ∷ codes "down" ∷ [])
    ≡ codes "failed: no route: down"
unfolding error_chain
repeated_source = refl

abbrev printed : Messages
printed e = (codes "unreachable", [])

abbrev target : Bytes
target = codes "bastion:22"

abbrev empty : Shared
empty = record {
  slot = record { session = none; failure = [] };
  locked = none;
  failures = 7;
  last_error = none;
  closed = λ a. false;
  next = 0;
}

abbrev two_wait : System
two_wait = record { mem = empty; pc = λ i. waiting 7; attempts = 0 }

two_wait-Gathered : Gathered 7 two_wait
two_wait-Gathered = record { empty = refl; count = refl; untried = refl; phases = λ i. refl }

-- Caller 0 connects in vain, and caller 1 gets the lock behind it.
abbrev failure : Shared
failure = record {
  slot = record { session = none; failure = codes "unreachable" };
  locked = none;
  failures = 8;
  last_error = some (codes "unreachable");
  closed = λ a. false;
  next = 0;
}

one_fails :
    (t : System) × Reach printed target two_wait t
    × (t.mem ≡ failure)
    × (t.pc 0 ≡ done (err (timeout target 10)))
    × (t.pc 1 ≡ done (err (unavailable (codes "unreachable"))))
unfolding choose settle timed
one_fails = (
  _,
  later
      (later
        (later (later (later here (pick 0 (lock refl))) (pick 0 (dial refl)))
          (pick 0 (finish none)))
        (pick 1 (lock refl)))
      (pick 1 (give_up refl)),
  refl,
  refl,
  refl,
)

-- Caller 0 connects, and caller 1 shares its session.
one_opens :
    (t : System) × Reach printed target two_wait t × (t.pc 0 ≡ done (ok 0)) × (t.pc 1 ≡ done (ok 0))
unfolding choose settle timed
one_opens = (
  _,
  later
      (later
        (later (later (later here (pick 0 (lock refl))) (pick 0 (dial refl)))
          (pick 0 (finish (some (ok tt)))))
        (pick 1 (lock refl)))
      (pick 1 (take refl)),
  refl,
  refl,
)

Reach-Shares_example :
    (st : Stage) × (one_fails.0.attempts ≡ tries st)
    × (one_fails.0.attempts ≤ 1)
    × ((i : ℕ) (r : Result ℕ SshError) → one_fails.0.pc i ≡ done r → Shares printed st i r)
Reach-Shares_example =
    Reach-Shares printed target 7 two_wait-Gathered one_fails.1
      (λ a. ap (λ (m : Shared). m.closed a) one_fails.2)

Reach-finishes_example :
    (u : System) × Reach printed target one_fails.0 u × (r : Result ℕ SshError) × (u.pc 1 ≡ done r)
Reach-finishes_example = Reach-finishes printed target refl one_fails.1 1
