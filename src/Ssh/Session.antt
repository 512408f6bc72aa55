-- ===== src/Ssh/Session.antt =====
-- crates/ssh/src/tunnel.rs `Inner::session`: callers that queue on the lock of the slot. Each step is
-- one caller's, from one wait or atomic access to the next; a session may be lost at any time. A
-- session is its number, and `messages` is what an error and its sources print. That the tasks of
-- the callers are aborted when the tunnel is dropped is not modelled.
pub mod Flight
pub mod Progress
mod Tests
use dbmcp.Prelude.{
  ℕ, ◌+◌, ◌%◌, ◌^◌, ◌≡◌, Bytes, codes, List, [], ◌∷◌, ◌++◌, reverse, Bool, true, false, not, ◌&&◌,
  ◌==◌, Option, none, some, Result, ok, err, strip_prefix, if◌then◌else◌,
}
use dbmcp.Ssh.Tunnel.{SshError, timeout, unavailable, session_lost, Settings}

-- `str::ends_with`
ends_with : Bytes → Bytes → Bool
unfolding strip_prefix
ends_with text suffix = elim (strip_prefix (reverse suffix) (reverse text)) [
  | none ↦ false
  | some rest ↦ true
]

-- The loop of `error_chain`, over what the sources print.
unfoldable pub error_chain : Bytes → List Bytes → Bytes
unfolding ends_with
error_chain rendered [] = rendered
error_chain rendered (cause ∷ causes) =
    let suffix = codes ": " ++ cause in
    error_chain (if ends_with rendered suffix then rendered else rendered ++ suffix) causes

pub record Slot : Type 0 where
  pub session : Option ℕ
  pub failure : Bytes

-- What the callers share. `locked` is the caller that holds the lock of the slot, `closed` what
-- `is_closed` says of a session, and `next` the number of the next session.
pub record Shared : Type 0 where
  pub slot : Slot
  pub locked : Option ℕ
  pub failures : ℕ
  pub last_error : Option Bytes
  pub closed : ℕ → Bool
  pub next : ℕ

-- What the match on the slot decides.
pub data Choice : Type 0 where
  reuse : ℕ → Choice
  reconnect : Choice
  refuse : Bytes → Choice

choice : (ℕ → Bool) → Option ℕ → Bytes → ℕ → ℕ → Choice
choice closed (some session) failure failures seen =
    if closed session then reconnect else reuse session
choice closed none failure failures seen = if failures == seen then reconnect else refuse failure

unfoldable pub choose : Shared → ℕ → Choice
unfolding choice
choose m seen = choice m.closed m.slot.session m.slot.failure m.failures seen

-- `tokio::time::timeout(CONNECT_TIMEOUT, …)`: nothing is a deadline that has passed.
unfoldable pub timed : Bytes → Option (Result (Unit {0}) SshError) → Result (Unit {0}) SshError
timed target none = err (timeout target 10)
timed target (some connected) = connected

abbrev pub Messages : Type 0
Messages = SshError → Bytes × List Bytes

unfoldable pub message : Messages → SshError → Bytes
unfolding error_chain
message messages e = let (text, causes) = messages e in error_chain text causes

-- What becomes of a connect, and the answer to the caller; the lock is released.
unfoldable pub settle : Messages → Shared → Result (Unit {0}) SshError → Shared × Result ℕ SshError
unfolding message
settle messages m (ok _) = (
  record m {
    slot = record m.slot { session = some m.next };
    locked = none;
    last_error = none;
    next = m.next + 1;
  },
  ok m.next,
)
settle messages m (err e) = (
  record m {
    slot = record m.slot { failure = message messages e };
    locked = none;
    last_error = some (message messages e);
    failures = (m.failures + 1) % 2 ^ 64;
  },
  err e,
)

-- `Client::disconnected`, by what it prints of the reason, and whether the session was in use and the
-- tunnel shuts down.
unfoldable pub disconnected : Messages → Bytes → Bytes → Bool → Bool → Shared → Shared
unfolding message
disconnected messages target cause established closing m =
    if established && not closing
    then record m { last_error = some (message messages (session_lost target cause)) }
    else m

-- Where a caller of `session` stands.
pub data Phase : Type 0 where
  idle : Phase
  waiting : (seen : ℕ) → Phase
  holding : (seen : ℕ) → Phase
  dialling : Phase
  done : Result ℕ SshError → Phase

module _ (messages : Messages) (target : Bytes) where
  pub data Move (i : ℕ) (m : Shared) : Phase → Shared → Phase → Type 0 where
    load : Move i m idle m (waiting m.failures)
    lock :
        {seen : ℕ}
        → m.locked ≡ none
        → Move i m (waiting seen) (record m { locked = some i }) (holding seen)
    take :
        {seen a : ℕ}
        → choose m seen ≡ reuse a
        → Move i m (holding seen) (record m { locked = none }) (done (ok a))
    give_up :
        {seen : ℕ} {cause : Bytes}
        → choose m seen ≡ refuse cause
        → Move i m (holding seen) (record m { locked = none }) (done (err (unavailable cause)))
    dial :
        {seen : ℕ}
        → choose m seen ≡ reconnect
        → Move i m (holding seen) (record m { slot = record m.slot { session = none } }) dialling
    finish :
        (connected : Option (Result (Unit {0}) SshError))
        → Move i m dialling
            (settle messages m (timed target connected)).0
            (done (settle messages m (timed target connected)).1)

abbrev pub update : (ℕ → Phase) → ℕ → Phase → ℕ → Phase
update pc i p j = if j == i then p else pc j

-- A connect counts as an attempt when it begins.
abbrev pub attempt_of : Phase → ℕ
attempt_of dialling = 1
attempt_of idle = 0
attempt_of (waiting seen) = 0
attempt_of (holding seen) = 0
attempt_of (done r) = 0

pub record System : Type 0 where
  pub mem : Shared
  pub pc : ℕ → Phase
  pub attempts : ℕ

module _ (messages : Messages) (target : Bytes) where
  pub data Step (s : System) : System → Type 0 where
    pick :
        (i : ℕ) {m : Shared} {p : Phase}
        → Move messages target i s.mem (s.pc i) m p
        → Step s (record { mem = m; pc = update s.pc i p; attempts = s.attempts + attempt_of p })
    lose :
        (session : ℕ) (cause : Bytes) (established closing : Bool)
        → Step s (record s {
          mem =
              disconnected messages target cause established closing
                (record s.mem { closed = λ a. if a == session then true else s.mem.closed a });
        })

  pub data Reach (s : System) : System → Type 0 where
    here : Reach s s
    later : {t u : System} → Reach s t → Step t u → Reach s u
