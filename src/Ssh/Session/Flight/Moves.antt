-- ===== src/Ssh/Session/Flight/Moves.antt =====
-- crates/ssh/src/tunnel.rs `Inner::session`: what a step of one caller keeps.
use dbmcp.Prelude.{
  ℕ, ◌+◌, ◌%◌, ◌^◌, ◌≡◌, ◌≢◌, refl, sym, subst, ◌∙◌, ap, Bytes, Bool, false, Option, none, some,
  Result, ok, err, arith,
}
use dbmcp.Ssh.Tunnel.{SshError, unavailable}
use dbmcp.Ssh.Session.{
  Shared, reuse, reconnect, refuse, choice, choose, timed, Messages, settle, Phase, waiting,
  holding, dialling, done, Move, load, lock, take, give_up, dial, finish,
}
use dbmcp.Ssh.Session.Flight.{
  Stage, quiet, trying, opened, failed, Agree, Fine, Carries, locking, releasing, starting, opening,
  failing, Kept,
}

module _ (messages : Messages) where
  taken :
      (closed : ℕ → Bool) (session : Option ℕ) (failure : Bytes) (failures seen a : ℕ)
      → choice closed session failure failures seen ≡ reuse a
      → session ≡ some a
  unfolding choice
  taken closed (some b) failure failures seen a h = ground arith
  taken closed none failure failures seen a h = ground arith

  refused :
      (closed : ℕ → Bool) (session : Option ℕ) (failure : Bytes) (failures seen : ℕ) (cause : Bytes)
      → choice closed session failure failures seen ≡ refuse cause
      → (session ≡ none) × (failure ≡ cause) × (failures ≢ seen)
  unfolding choice
  refused closed (some b) failure failures seen cause h = ground arith
  refused closed none failure failures seen cause h = ground arith

  dialled :
      (closed : ℕ → Bool) (session : Option ℕ) (failure : Bytes) (failures seen : ℕ)
      → ((a : ℕ) → closed a ≡ false)
      → choice closed session failure failures seen ≡ reconnect
      → (session ≡ none) × (failures ≡ seen)
  unfolding choice
  dialled closed (some b) failure failures seen live h = ground (arith, live b)
  dialled closed none failure failures seen live h = ground arith

  module _ (f i : ℕ) (m : Shared) where
    Kept-lock :
        (st : Stage) (seen : ℕ)
        → Agree messages f st m
        → Fine messages st f m.locked i (waiting seen)
        → m.locked ≡ none
        → Kept messages f st m i (record m { locked = some i }) (holding seen)
    unfolding Kept
    Kept-lock (trying k) seen a h e = absurd (cc (a.owner))
    Kept-lock quiet seen a (h, apart) e = (
      quiet,
      record { session = a.session; count = a.count; caused = a.caused; owner = tt },
      (h, refl, tt, apart),
      subst (λ l. Carries messages (quiet) (quiet) f l (some i) i) (sym e)
          (locking messages (quiet) f i),
      refl,
    )
    Kept-lock (opened b) seen a (h, apart) e = (
      opened b,
      record { session = a.session; count = a.count; caused = a.caused; owner = tt },
      (h, refl, tt, apart),
      subst (λ l. Carries messages (opened b) (opened b) f l (some i) i) (sym e)
          (locking messages (opened b) f i),
      refl,
    )
    Kept-lock (failed k x) seen a (h, apart) e = (
      failed k x,
      record { session = a.session; count = a.count; caused = a.caused; owner = tt },
      (h, refl, tt, apart),
      subst (λ l. Carries messages (failed k x) (failed k x) f l (some i) i) (sym e)
          (locking messages (failed k x) f i),
      refl,
    )

    Kept-take :
        (st : Stage) (seen b : ℕ)
        → Agree messages f st m
        → Fine messages st f m.locked i (holding seen)
        → m.slot.session ≡ some b
        → Kept messages f st m i (record m { locked = none }) (done (ok b))
    unfolding Kept
    Kept-take (trying k) seen b a (_, _, free, _) e = absurd free
    Kept-take quiet seen b a h e = cc (a.session)
    Kept-take (opened c) seen b a (_, held, _, _) e = (
      opened c,
      record { session = a.session; count = a.count; caused = a.caused; owner = tt },
      cc (a.session),
      subst (λ l. Carries messages (opened c) (opened c) f l none i) (sym held)
          (releasing messages (opened c) f i),
      refl,
    )
    Kept-take (failed k x) seen b a h e = cc (a.session)

    Kept-give_up :
        (st : Stage) (seen : ℕ) (cause : Bytes)
        → Agree messages f st m
        → Fine messages st f m.locked i (holding seen)
        → (m.slot.session ≡ none) × (m.slot.failure ≡ cause) × (m.failures ≢ seen)
        → Kept messages f st m i (record m { locked = none }) (done (err (unavailable cause)))
    unfolding Kept
    Kept-give_up (trying k) seen cause a (_, _, free, _) e = absurd free
    Kept-give_up quiet seen cause a (h, _, _, _) (_, _, ne) = absurd (ne (a.count ∙ sym h))
    Kept-give_up (opened c) seen cause a h (e, _, _) = cc (a.session)
    Kept-give_up (failed k x) seen cause a (_, held, _, apart) (_, e, _) = (
      failed k x,
      record { session = a.session; count = a.count; caused = a.caused; owner = tt },
      ((λ same. absurd (apart same)), λ _. ap (λ c. err (unavailable c)) (sym e ∙ a.caused)),
      subst (λ l. Carries messages (failed k x) (failed k x) f l none i) (sym held)
          (releasing messages (failed k x) f i),
      refl,
    )

    Kept-dial :
        (st : Stage) (seen : ℕ)
        → Agree messages f st m
        → Fine messages st f m.locked i (holding seen)
        → (m.slot.session ≡ none) × (m.failures ≡ seen)
        → Kept messages f st m i (record m { slot = record m.slot { session = none } }) dialling
    unfolding Kept
    Kept-dial (trying k) seen a (_, _, free, _) e = absurd free
    Kept-dial quiet seen a (_, held, _, _) (e, _) = (
      trying i,
      record { session = refl; count = a.count; caused = tt; owner = held },
      refl,
      subst (λ l. Carries messages quiet (trying i) f l l i) (sym held) (starting messages f i),
      refl,
    )
    Kept-dial (opened c) seen a h (e, _) = cc (a.session)
    Kept-dial (failed k x) seen a (h, _, _, _) (_, e) = absurd (omega (arith, a.count))

    Kept-finish :
        (r : Result (Unit {0}) SshError)
        → Agree messages f (trying i) m
        → Kept messages f (trying i) m i (settle messages m r).0 (done (settle messages m r).1)
    unfolding Kept settle
    Kept-finish (ok _) a = (
      opened m.next,
      record { session = refl; count = a.count; caused = tt; owner = tt },
      refl,
      subst (λ l. Carries messages (trying i) (opened m.next) f l none i) (sym a.owner)
          (opening messages f i m.next),
      refl,
    )
    Kept-finish (err e) a = (
      failed i e,
      record {
        session = a.session;
        count = ap (λ c. (c + 1) % 2 ^ 64) a.count;
        caused = refl;
        owner = tt;
      },
      ((λ _. refl), λ ne. absurd (ne refl)),
      subst (λ l. Carries messages (trying i) (failed i e) f l none i) (sym a.owner)
          (failing messages f i e),
      refl,
    )

  pub keeps :
      (target : Bytes) (f i : ℕ) {m m' : Shared} {p p' : Phase} (st : Stage)
      → Move messages target i m p m' p'
      → Agree messages f st m
      → Fine messages st f m.locked i p
      → ((a : ℕ) → m.closed a ≡ false)
      → Kept messages f st m i m' p'
  unfolding choose
  keeps target f i st load a h live = absurd h
  keeps target f i {m} st (lock {seen} e) a h live = Kept-lock f i m st seen a h e
  keeps target f i {m} st (take {seen} {a = b} e) a h live =
      Kept-take f i m st seen b a h
        (taken m.closed m.slot.session m.slot.failure m.failures seen b e)
  keeps target f i {m} st (give_up {seen} {cause} e) a h live =
      Kept-give_up f i m st seen cause a h
        (refused m.closed m.slot.session m.slot.failure m.failures seen cause e)
  keeps target f i {m} st (dial {seen} e) a h live =
      Kept-dial f i m st seen a h
        (dialled m.closed m.slot.session m.slot.failure m.failures seen live e)
  keeps target f i {m} st (finish connected) a h live =
      subst
        (λ s.
          Agree messages f s m
          → Kept messages f s m i (settle messages m (timed target connected)).0
              (done (settle messages m (timed target connected)).1))
        (sym h) (Kept-finish f i m (timed target connected)) a
