-- ===== src/Ssh/Session/Flight.antt =====
-- crates/ssh/src/tunnel.rs `Inner::session`: callers that wait together.
pub mod Moves
pub mod Once
use dbmcp.Prelude.{
  ℕ, ◌+◌, ◌%◌, ◌^◌, ◌≤◌, ◌≡◌, ◌≢◌, refl, sym, subst, ◌∙◌, ap, Bytes, Bool, true, false, ◌==◌, ◌&&◌,
  not, Option, none, some, Result, ok, err, if◌then◌else◌, inl, inr, Bool-cases, arith,
}
use dbmcp.Ssh.Tunnel.{SshError, unavailable}
use dbmcp.Ssh.Session.{
  Shared, Slot, Choice, reuse, reconnect, refuse, choice, choose, timed, Messages, message, settle,
  disconnected, Phase, idle, waiting, holding, dialling, done, Move, load, lock, take, give_up,
  dial, finish, update, attempt_of, System, Step, pick, lose, Reach, here, later,
}

-- How far the callers are: nobody has connected, caller `k` is connecting, its connect has opened
-- session `a`, or it has failed.
pub data Stage : Type 0 where
  quiet : Stage
  trying : (k : ℕ) → Stage
  opened : (a : ℕ) → Stage
  failed : (k : ℕ) → (e : SshError) → Stage

abbrev pub tries : Stage → ℕ
tries quiet = 0
tries (trying k) = 1
tries (opened a) = 1
tries (failed k e) = 1

abbrev pub session_of : Stage → Option ℕ
session_of quiet = none
session_of (trying k) = none
session_of (opened a) = some a
session_of (failed k e) = none

abbrev pub count_of : ℕ → Stage → ℕ
count_of f quiet = f
count_of f (trying k) = f
count_of f (opened a) = f
count_of f (failed k e) = (f + 1) % 2 ^ 64

module _ (messages : Messages) where
  -- What a caller has got: the session, its own error, or the error of the one that connected.
  abbrev pub Shares : Stage → ℕ → Result ℕ SshError → Type 0
  Shares quiet i r = ⊥
  Shares (trying k) i r = ⊥
  Shares (opened a) i r = r ≡ ok a
  Shares (failed k e) i r =
      (i ≡ k → r ≡ err e) × (i ≢ k → r ≡ err (unavailable (message messages e)))

  abbrev pub Apart : Stage → ℕ → Type 0
  Apart quiet i = Unit
  Apart (trying k) i = i ≢ k
  Apart (opened a) i = Unit
  Apart (failed k e) i = i ≢ k

  abbrev pub Free : Stage → Type 0
  Free (trying k) = ⊥
  Free quiet = Unit
  Free (opened a) = Unit
  Free (failed k e) = Unit

  abbrev pub Caused : Stage → Bytes → Type 0
  Caused (failed k e) cause = cause ≡ message messages e
  Caused quiet cause = Unit
  Caused (trying k) cause = Unit
  Caused (opened a) cause = Unit

  abbrev pub Owner : Stage → Option ℕ → Type 0
  Owner (trying k) locked = locked ≡ some k
  Owner quiet locked = Unit
  Owner (opened a) locked = Unit
  Owner (failed k e) locked = Unit

  abbrev pub Fine : Stage → ℕ → Option ℕ → ℕ → Phase → Type 0
  Fine st f locked i idle = ⊥
  Fine st f locked i (waiting seen) = (seen ≡ f) × Apart st i
  Fine st f locked i (holding seen) = (seen ≡ f) × (locked ≡ some i) × Free st × Apart st i
  Fine st f locked i dialling = st ≡ trying i
  Fine st f locked i (done r) = Shares st i r

  pub record Agree (f : ℕ) (st : Stage) (m : Shared) : Type 0 where
    pub session : m.slot.session ≡ session_of st
    pub count : m.failures ≡ count_of f st
    pub caused : Caused st m.slot.failure
    pub owner : Owner st m.locked

  -- Another caller is as fine as before.
  pub Carries : Stage → Stage → ℕ → Option ℕ → Option ℕ → ℕ → Type 0
  Carries st st' f l l' i = (j : ℕ) (q : Phase) → j ≢ i → Fine st f l j q → Fine st' f l' j q

  locking : (st : Stage) (f i : ℕ) → Carries st st f none (some i) i
  unfolding Carries
  locking st f i j idle ne h = h
  locking st f i j (waiting seen) ne h = h
  locking st f i j (holding seen) ne (_, h, _, _) = cc
  locking st f i j dialling ne h = h
  locking st f i j (done r) ne h = h

  releasing : (st : Stage) (f i : ℕ) → Carries st st f (some i) none i
  unfolding Carries
  releasing st f i j idle ne h = h
  releasing st f i j (waiting seen) ne h = h
  releasing st f i j (holding seen) ne (_, h, _, _) = absurd (ne (cc))
  releasing st f i j dialling ne h = h
  releasing st f i j (done r) ne h = h

  starting : (f i : ℕ) → Carries quiet (trying i) f (some i) (some i) i
  unfolding Carries
  starting f i j idle ne h = h
  starting f i j (waiting seen) ne (h, _) = (h, ne)
  starting f i j (holding seen) ne (_, h, _, _) = absurd (ne (cc))
  starting f i j dialling ne h = cc
  starting f i j (done r) ne h = h

  opening : (f i a : ℕ) → Carries (trying i) (opened a) f (some i) none i
  unfolding Carries
  opening f i a j idle ne h = h
  opening f i a j (waiting seen) ne (h, _) = (h, tt)
  opening f i a j (holding seen) ne (_, _, h, _) = absurd h
  opening f i a j dialling ne h = absurd (ne (cc))
  opening f i a j (done r) ne h = absurd h

  failing : (f i : ℕ) (e : SshError) → Carries (trying i) (failed i e) f (some i) none i
  unfolding Carries
  failing f i e j idle ne h = h
  failing f i e j (waiting seen) ne (h, _) = (h, ne)
  failing f i e j (holding seen) ne (_, _, h, _) = absurd h
  failing f i e j dialling ne h = absurd (ne (cc))
  failing f i e j (done r) ne h = absurd h

  -- What a move of caller `i` to the phase `p` leaves.
  pub Kept : ℕ → Stage → Shared → ℕ → Shared → Phase → Type 0
  Kept f st m i m' p =
      (st' : Stage) × Agree f st' m'
      × Fine st' f m'.locked i p
      × Carries st st' f m.locked m'.locked i
      × (tries st + attempt_of p ≡ tries st')
