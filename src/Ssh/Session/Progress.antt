-- ===== src/Ssh/Session/Progress.antt =====
-- crates/ssh/src/tunnel.rs `Inner::session`: the way of a caller to its answer.
use dbmcp.Prelude.{
  ℕ, ◌+◌, ◌≡◌, ◌≢◌, refl, sym, subst, ◌∙◌, Bytes, Bool, true, false, ◌==◌, inl, inr, Bool-cases,
  Option, none, some, Result, ok, err, arith,
}
use dbmcp.Ssh.Tunnel.{SshError}
use dbmcp.Ssh.Session.{
  Shared, Choice, reuse, reconnect, refuse, choose, Messages, settle, disconnected, timed, Phase,
  idle, waiting, holding, dialling, done, Move, load, lock, take, give_up, dial, finish, update,
  attempt_of, System, pick, lose, Reach, here, later,
}

-- A caller that the others wait for.
abbrev Busy : Phase → Type 0
Busy idle = ⊥
Busy (waiting seen) = ⊥
Busy (holding seen) = Unit
Busy dialling = Unit
Busy (done r) = ⊥

module _ (messages : Messages) (target : Bytes) where
  Reach-trans :
      {s t u : System}
      → Reach messages target s t
      → Reach messages target t u
      → Reach messages target s u
  Reach-trans r here = r
  Reach-trans r (later r' step) = later (Reach-trans r r') step

  abbrev after : System → ℕ → Shared → Phase → System
  after s i m p = record { mem = m; pc = update s.pc i p; attempts = s.attempts + attempt_of p }

  moved :
      (s : System) (i : ℕ) {m : Shared} {p q : Phase}
      → s.pc i ≡ q
      → Move messages target i s.mem q m p
      → Reach messages target s (after s i m p)
  moved s i {m} {p} e mv =
      later here (pick i (subst (λ q. Move messages target i s.mem q m p) (sym e) mv))

  update_self : (pc : ℕ → Phase) (i : ℕ) (p : Phase) → update pc i p i ≡ p
  update_self pc i p = ground arith

  update-other : (pc : ℕ → Phase) (i j : ℕ) (p : Phase) → j ≢ i → update pc i p j ≡ pc j
  update-other pc i j p ne = ground arith

  settle-locked :
      (m : Shared) (r : Result (Unit {0}) SshError) → (settle messages m r).0.locked ≡ none
  unfolding settle
  settle-locked m (ok _) = refl
  settle-locked m (err e) = refl

  -- Caller `i` comes to its end, and the lock is free; the others stand where they stood.
  Ends : System → ℕ → Type 0
  Ends s i =
      (t : System) × Reach messages target s t
      × (t.mem.locked ≡ none)
      × ((r : Result ℕ SshError) × (t.pc i ≡ done r))
      × ((j : ℕ) → j ≢ i → t.pc j ≡ s.pc j)

  finished : (s : System) (i : ℕ) → s.pc i ≡ dialling → Ends s i
  unfolding Ends
  finished s i e =
      let (m, r) = settle messages s.mem (timed target none) in
      (
        after s i m (done r),
        moved s i e (finish none),
        settle-locked s.mem (timed target none),
        (r, update_self s.pc i (done r)),
        λ j ne. update-other s.pc i j (done r) ne,
      )

  decided :
      (s : System) (i seen : ℕ) (c : Choice)
      → s.pc i ≡ holding seen
      → choose s.mem seen ≡ c
      → Ends s i
  unfolding Ends
  decided s i seen (reuse a) e h = (
    after s i (record s.mem { locked = none }) (done (ok a)),
    moved s i e (take h),
    refl,
    (ok a, update_self s.pc i (done (ok a))),
    λ j ne. update-other s.pc i j (done (ok a)) ne,
  )
  decided s i seen (refuse cause) e h = (
    after s i (record s.mem { locked = none }) (done (err (SshError.unavailable cause))),
    moved s i e (give_up h),
    refl,
    (err (SshError.unavailable cause), update_self s.pc i _),
    λ j ne. update-other s.pc i j _ ne,
  )
  decided s i seen reconnect e h =
      let s' : System =
        after s i (record s.mem { slot = record s.mem.slot { session = none } }) dialling in
      let (t, reach, free, ended, others) = finished s' i (update_self s.pc i dialling) in
      (
        t,
        Reach-trans (moved s i e (dial h)) reach,
        free,
        ended,
        λ j ne. others j ne ∙ update-other s.pc i j dialling ne,
      )

  ends : (s : System) (i : ℕ) (p : Phase) → s.pc i ≡ p → Busy p → Ends s i
  ends s i (holding seen) e b = decided s i seen (choose s.mem seen) e refl
  ends s i dialling e b = finished s i e
  ends s i idle e b = absurd b
  ends s i (waiting seen) e b = absurd b
  ends s i (done r) e b = absurd b

  Finishes : System → ℕ → Type 0
  Finishes s i =
      (t : System) × Reach messages target s t × (r : Result ℕ SshError) × (t.pc i ≡ done r)

  Ends-Finishes : (s : System) (i : ℕ) → Ends s i → Finishes s i
  unfolding Ends Finishes
  Ends-Finishes s i (t, reach, _, (r, e), _) = (t, reach, r, e)

  reaching : {s t : System} (i : ℕ) → Reach messages target s t → Finishes t i → Finishes s i
  unfolding Finishes
  reaching i r (u, r', v, e) = (u, Reach-trans r r', v, e)

  locks : (s : System) (i seen : ℕ) → s.mem.locked ≡ none → s.pc i ≡ waiting seen → Finishes s i
  locks s i seen free e =
      let s' : System = after s i (record s.mem { locked = some i }) (holding seen) in
      reaching i (moved s i e (lock free))
        (Ends-Finishes s' i (ends s' i (holding seen) (update_self s.pc i (holding seen)) tt))

  -- The lock is held by a caller that will give it back.
  Owned : Shared → (ℕ → Phase) → Type 0
  Owned m pc = (k : ℕ) → m.locked ≡ some k → Busy (pc k)

  updated-Busy :
      (pc : ℕ → Phase) (i k : ℕ) (p : Phase)
      → ((k == i) ≡ true → Busy p)
      → ((k == i) ≡ false → Busy (pc k))
      → Busy (update pc i p k)
  updated-Busy pc i k p same other = elim (Bool-cases (k == i)) [
    | inl e ↦ rw e (same e)
    | inr e ↦ rw e (other e)
  ]

  equal : (k i : ℕ) → (k == i) ≡ true → k ≡ i
  equal k i h = ground arith

  equal_refl : (i k : ℕ) → i ≡ k → (k == i) ≡ false → ⊥
  equal_refl i k h e = ground arith

  Move-Owned :
      {i : ℕ} {m m' : Shared} {p p' : Phase}
      → Move messages target i m p m' p'
      → (pc : ℕ → Phase) → pc i ≡ p
      → Owned m pc
      → Owned m' (update pc i p')
  unfolding Owned
  Move-Owned {i} load pc e own k h =
      updated-Busy pc i k _
        (λ same. subst Busy (e) (subst (λ j. Busy (pc j)) (equal k i same) (own k h)))
        (λ _. own k h)
  Move-Owned {i} (lock {seen} free) pc e own k h =
      updated-Busy pc i k (holding seen) (λ _. tt) (λ ne. absurd (equal_refl i k (cc) ne))
  Move-Owned (take _) pc e own k h = cc
  Move-Owned (give_up _) pc e own k h = cc
  Move-Owned {i} (dial _) pc e own k h = updated-Busy pc i k dialling (λ _. tt) (λ _. own k h)
  Move-Owned {m} (finish connected) pc e own k h =
      cc (sym (settle-locked m (timed target connected)) ∙ h)

  disconnected-locked :
      (m : Shared) (cause : Bytes) (established closing : Bool)
      → (disconnected messages target cause established closing m).locked ≡ m.locked
  unfolding disconnected
  disconnected-locked m cause established closing = ground arith

  Reach-Owned : {s t : System} → Owned s.mem s.pc → Reach messages target s t → Owned t.mem t.pc
  unfolding Owned
  Reach-Owned own here k h = own k h
  Reach-Owned own (later {t} r (pick i mv)) k h = Move-Owned mv t.pc refl (Reach-Owned own r) k h
  Reach-Owned own (later r (lose session cause established closing)) k h =
      Reach-Owned own r k (sym (disconnected-locked _ cause established closing) ∙ h)

  -- A waiting caller gets the lock at once, or after the one that holds it.
  waits :
      (s : System) (i seen : ℕ) (l : Option ℕ)
      → Owned s.mem s.pc
      → s.mem.locked ≡ l
      → s.pc i ≡ waiting seen
      → Finishes s i
  unfolding Owned Ends
  waits s i seen none own h e = locks s i seen h e
  waits s i seen (some k) own h e =
      let (t, reach, free, _, others) = ends s k (s.pc k) refl (own k h) in
      let ne : i ≢ k = λ same. subst Busy e (subst (λ j. Busy (s.pc j)) (sym same) (own k h)) in
      reaching i reach (locks t i seen free (others i ne ∙ e))

  finishes : (s : System) (i : ℕ) (p : Phase) → Owned s.mem s.pc → s.pc i ≡ p → Finishes s i
  unfolding Owned Finishes
  finishes s i (done r) own e = (s, here, r, e)
  finishes s i dialling own e = Ends-Finishes s i (ends s i dialling e tt)
  finishes s i (holding seen) own e = Ends-Finishes s i (ends s i (holding seen) e tt)
  finishes s i (waiting seen) own e = waits s i seen s.mem.locked own refl e
  finishes s i idle own e =
      let step = moved s i e load in
      reaching i step (
        waits (after s i s.mem (waiting s.mem.failures)) i s.mem.failures s.mem.locked
          (Reach-Owned own step) refl (update_self s.pc i (waiting s.mem.failures)))

-- Nobody is stuck: from every state that is reached from one in which the lock is free, however the
-- callers and the losses of sessions interleave, each caller can come to an answer.
pub Reach-finishes :
    (messages : Messages) (target : Bytes) {s t : System}
    → s.mem.locked ≡ none
    → Reach messages target s t
    → (i : ℕ)
    → (u : System) × Reach messages target t u × (r : Result ℕ SshError) × (u.pc i ≡ done r)
unfolding Finishes Owned
Reach-finishes messages target {t} free reach i =
    finishes messages target t i (t.pc i)
      (Reach-Owned messages target (λ k h. cc (sym free ∙ h)) reach) refl
