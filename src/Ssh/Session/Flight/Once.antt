-- ===== src/Ssh/Session/Flight/Once.antt =====
-- crates/ssh/src/tunnel.rs `Inner::session`: callers that wait together, over all their steps.
use dbmcp.Prelude.{
  ℕ, ◌+◌, ◌≡◌, ◌≤◌, ◌≢◌, refl, sym, subst, ◌∙◌, ap, Bytes, Bool, true, false, ◌==◌, inl, inr,
  Bool-cases, Option, none, Result, if◌then◌else◌, arith,
}
use dbmcp.Ssh.Tunnel.{SshError}
use dbmcp.Ssh.Session.{
  Shared, Messages, settle, disconnected, timed, Phase, waiting, done, Move, load, lock, take,
  give_up, dial, finish, update, attempt_of, System, Step, pick, lose, Reach, here, later,
}
use dbmcp.Ssh.Session.Flight.{Stage, quiet, tries, Shares, Agree, Fine, Carries, Kept}
use dbmcp.Ssh.Session.Flight.Moves.{keeps}

-- All callers wait, having read the count of failures, and there is no session.
pub record Gathered (f : ℕ) (s : System) : Type 0 where
  pub empty : s.mem.slot.session ≡ none
  pub count : s.mem.failures ≡ f
  pub untried : s.attempts ≡ 0
  pub phases : (i : ℕ) → s.pc i ≡ waiting f

module _ (messages : Messages) (target : Bytes) (f : ℕ) where
  Inv : System → Type 0
  Inv s =
      (st : Stage) × Agree messages f st s.mem
      × (s.attempts ≡ tries st)
      × ((i : ℕ) → Fine messages st f s.mem.locked i (s.pc i))

  abbrev Live : Shared → Type 0
  Live m = (a : ℕ) → m.closed a ≡ false

  settle-closed :
      (m : Shared) (r : Result (Unit {0}) SshError) → (settle messages m r).0.closed ≡ m.closed
  unfolding settle
  settle-closed m (Result.ok _) = refl
  settle-closed m (Result.err e) = refl

  Move-closed :
      {i : ℕ} {m m' : Shared} {p p' : Phase}
      → Move messages target i m p m' p'
      → m'.closed ≡ m.closed
  Move-closed load = refl
  Move-closed (lock _) = refl
  Move-closed (take _) = refl
  Move-closed (give_up _) = refl
  Move-closed (dial _) = refl
  Move-closed {m} (finish connected) = settle-closed m (timed target connected)

  -- A session that was lost is closed.
  lost :
      (m : Shared) (session : ℕ) (cause : Bytes) (established closing : Bool)
      → (disconnected messages target cause established closing
            (record m { closed = λ a. if a == session then true else m.closed a })).closed
          session
        ≡ true
  unfolding disconnected
  lost m session cause established closing = ground arith

  same : (i j : ℕ) → (j == i) ≡ true → i ≡ j
  same i j h = ground arith

  apart : (i j : ℕ) → (j == i) ≡ false → j ≢ i
  apart i j h = ground arith

  updated :
      (st : Stage) (l : Option ℕ) (pc : ℕ → Phase) (i : ℕ) (p : Phase)
      → ((j : ℕ) → j ≢ i → Fine messages st f l j (pc j))
      → Fine messages st f l i p
      → (j : ℕ) → Fine messages st f l j (update pc i p j)
  updated st l pc i p others own j = elim (Bool-cases (j == i)) [
    | inl e ↦ rw e (subst (λ k. Fine messages st f l k p) (same i j e) own)
    | inr e ↦ rw e (others j (apart i j e))
  ]

  Step-Inv : {s t : System} → Step messages target s t → Live t.mem → Inv s → Inv t
  unfolding Inv Kept Carries
  Step-Inv {s} (lose session cause established closing) live inv =
      cc (live session, lost s.mem session cause established closing)
  Step-Inv {s} (pick i {m} {p} mv) live (st, a, n, fine) =
      let (st', a', own, carried, count) =
        keeps messages target f i st mv a (fine i)
          (λ b. ap (λ c. c b) (sym (Move-closed mv)) ∙ live b) in
      (
        st',
        a',
        ap (λ k. k + attempt_of p) n ∙ count,
        updated st' m.locked s.pc i p (λ j ne. carried j (s.pc j) ne (fine j)) own,
      )

  before_loss :
      (m : Shared) (session : ℕ) (cause : Bytes) (established closing : Bool) (a : ℕ)
      → (disconnected messages target cause established closing
            (record m { closed = λ a. if a == session then true else m.closed a })).closed
          a
        ≡ false
      → m.closed a ≡ false
  unfolding disconnected
  before_loss m session cause established closing a h = ground arith

  Step-Live : {s t : System} → Step messages target s t → Live t.mem → Live s.mem
  Step-Live {s} (lose session cause established closing) live a =
      before_loss s.mem session cause established closing a (live a)
  Step-Live {s} (pick i mv) live a = ap (λ c. c a) (sym (Move-closed mv)) ∙ live a

  Reach-Inv : {s t : System} → Inv s → Reach messages target s t → Live t.mem → Inv t
  Reach-Inv inv here live = inv
  Reach-Inv inv (later r step) live = Step-Inv step live (Reach-Inv inv r (Step-Live step live))

  Gathered-Inv : {s : System} → Gathered f s → Inv s
  unfolding Inv
  Gathered-Inv {s} g = (
    quiet,
    record { session = g.empty; count = g.count; caused = tt; owner = tt },
    g.untried,
    λ i. subst (Fine messages quiet f s.mem.locked i) (sym (g.phases i)) (refl, tt),
  )

  tries-le-one : (st : Stage) → tries st ≤ 1
  tries-le-one st = ground arith

-- Of the callers that wait together while there is no session, one at most connects, whatever their
-- order: the callers that are done have all got the session that it opened, or it has its own error
-- and all others the message of that error. No session is lost meanwhile.
pub Reach-Shares :
    (messages : Messages) (target : Bytes) (f : ℕ) {s t : System}
    → Gathered f s
    → Reach messages target s t
    → ((a : ℕ) → t.mem.closed a ≡ false)
    → (st : Stage) × (t.attempts ≡ tries st)
      × (t.attempts ≤ 1)
      × ((i : ℕ) (r : Result ℕ SshError) → t.pc i ≡ done r → Shares messages st i r)
unfolding Inv
Reach-Shares messages target f {t} g reach live =
    let (st, _, n, fine) =
      Reach-Inv messages target f (Gathered-Inv messages target f g) reach live in
    (
      st,
      n,
      subst (λ k. k ≤ 1) (sym n) (tries-le-one messages target f st),
      λ i r e. subst (Fine messages st f t.mem.locked i) e (fine i),
    )
