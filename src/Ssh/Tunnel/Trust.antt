-- ===== src/Ssh/Tunnel/Trust.antt =====
-- crates/ssh/src/tunnel.rs `Inner::connect`: what has been checked before a credential is handed out.
use dbmcp.Prelude.{
  Bytes, ◌≡◌, refl, sym, subst, ◌∙◌, List, [], ◌∷◌, Bool, true, false, Option, none, some, Result,
  ok, err, All,
}
use dbmcp.Ssh.KnownHosts.{
  Line, Verdict, verdict_revoked, match, changed, unknown, check, algorithms, preferred,
}
use dbmcp.Ssh.Tunnel.{
  SshError, Checking, checking_yes, checking_accept_new, checking_no, Settings, File, holds, absent,
  unreadable, Handed, offered_key, sent_password, World, HostKey, public_key, certificate,
  Libraries, Server, Client, ◌>>=◌, write, appended, policy, verify, check_server_key, handshake,
  presented, offer, hand, authenticate_key, answered, by_password, after_key, authenticate,
  lines_of, client_of, dial, connect_with, connect,
}

-- The table of `verify`: which verdicts a mode accepts, and whether the key has changed then.
abbrev pub Accepts : Verdict → Checking → Bool → Type 0
Accepts match mode c = c ≡ false
Accepts unknown checking_yes c = ⊥
Accepts unknown checking_accept_new c = c ≡ false
Accepts unknown checking_no c = c ≡ false
Accepts (changed line) checking_no c = c ≡ true
Accepts (changed line) checking_yes c = ⊥
Accepts (changed line) checking_accept_new c = ⊥
Accepts (verdict_revoked line) mode c = ⊥

module _ (libraries : Libraries) where
  abbrev pub verdict_of : Client → Bytes → Verdict
  verdict_of client key = check libraries.verify_hash client.lines client.host key

  abbrev pub key_of : Client → Server → Result HostKey Bytes
  key_of client server = server.presents (
      preferred (algorithms libraries.verify_hash libraries.algorithm client.lines client.host)
        libraries.default_algorithms)

  -- The server presents a key that the policy accepts, by the lines of the file.
  abbrev pub Verified : Settings → Server → File → Bool → Type 0
  Verified s server file c =
      (lines : List Line) × (key : Bytes) × (lines_of libraries s s.known_hosts file ≡ ok lines)
      × (key_of (client_of libraries s lines) server ≡ ok (public_key key))
      × Accepts (verdict_of (client_of libraries s lines) key) s.checking c

  -- What is checked before the key is offered, and before the password is sent.
  abbrev pub Entrusted : Settings → Server → File → Handed → Type 0
  Entrusted s server file offered_key = (c : Bool) × Verified s server file c
  Entrusted s server file (sent_password p) = Verified s server file false × (s.password ≡ some p)

  -- A step that hands nothing out; where it succeeds, `P` holds of the flag.
  abbrev pub Quiet : (Bool → Type 0) → World → Result (Unit {0}) SshError × World → Type 0
  Quiet P w (ok a, w') = (w'.handed ≡ w.handed) × P w'.key_changed
  Quiet P w (err e, w') = w'.handed ≡ w.handed

  write-Quiet :
      (client : Client) (entry : Bytes) (file : File) (w : World)
      → w.key_changed ≡ false
      → Quiet (λ c. c ≡ false) w (write libraries client entry file w)
  unfolding write
  write-Quiet client entry absent w h = (refl, h)
  write-Quiet client entry (holds text) w h = (refl, h)
  write-Quiet client entry (unreadable source) w h = refl

  appended-Quiet :
      (client : Client) (fails : Option Bytes) (entry : Result Bytes Bytes) (w : World)
      → w.key_changed ≡ false
      → Quiet (λ c. c ≡ false) w (appended libraries client fails entry w)
  unfolding appended
  appended-Quiet client none (ok entry) w h = write-Quiet client entry w.file w h
  appended-Quiet client (some source) (ok entry) w h = refl
  appended-Quiet client none (err source) w h = refl
  appended-Quiet client (some _) (err source) w h = refl

  policy-Quiet :
      (client : Client) (key : Bytes) (v : Verdict) (mode : Checking) (w : World)
      → w.key_changed ≡ false
      → Quiet (Accepts v mode) w (policy libraries client key v mode w)
  unfolding policy
  policy-Quiet client key (verdict_revoked line) mode w h = refl
  policy-Quiet client key match mode w h = (refl, h)
  policy-Quiet client key unknown checking_no w h = (refl, h)
  policy-Quiet client key unknown checking_yes w h = refl
  policy-Quiet client key unknown checking_accept_new w h = appended-Quiet client _ _ w h
  policy-Quiet client key (changed line) checking_no w h = (refl, refl)
  policy-Quiet client key (changed line) checking_yes w h = refl
  policy-Quiet client key (changed line) checking_accept_new w h = refl

  -- What a dial that succeeds has seen.
  abbrev pub Seen : Client → Result HostKey Bytes → Bool → Type 0
  Seen client shown c =
      (key : Bytes) × (shown ≡ ok (public_key key)) × Accepts (verdict_of client key) client.mode c

  pub presented-Quiet :
      (client : Client) (server : Server) (shown : Result HostKey Bytes) (w : World)
      → w.key_changed ≡ false
      → Quiet (Seen client shown) w (presented libraries client server shown w)
  unfolding presented check_server_key verify handshake
  presented-Quiet client server (err source) w h = refl
  presented-Quiet client server (ok certificate) w h = refl
  presented-Quiet client server (ok (public_key key)) w h =
      shaken (verify libraries client key w)
        (policy-Quiet client key (verdict_of client key) client.mode w h)
    where
      shaken :
          (r : Result (Unit {0}) SshError × World)
          → Quiet (Accepts (verdict_of client key) client.mode) w r
          → Quiet
              (Seen client (ok (public_key key)))
              w
              (((λ _. r) >>= (λ _. handshake libraries client.settings server.breaks)) w)
      shaken (err e, w') q = q
      shaken (ok _, w') (q, a) = after server.breaks
        where
          after :
              (breaks : Option Bytes)
              → Quiet
                  (Seen client (ok (public_key key)))
                  w
                  (handshake libraries client.settings breaks w')
          after none = (q, (key, refl, a))
          after (some source) = q

  -- What is handed out once the host key is accepted, by whether the key has changed.
  abbrev Fitting : Settings → Bool → Handed → Type 0
  Fitting s c offered_key = Unit
  Fitting s c (sent_password p) = (c ≡ false) × (s.password ≡ some p)

  abbrev Fits : Settings → World → Result (Unit {0}) SshError × World → Type 0
  Fits s w r = All (Fitting s w.key_changed) r.1.handed

  by_password-Fits :
      (s : Settings) (server : Server) (password : Option Bytes) (w : World) (c : Bool)
      → w.key_changed ≡ c
      → s.password ≡ password
      → All (Fitting s w.key_changed) w.handed
      → Fits s w (by_password libraries s server password c w)
  unfolding by_password hand
  by_password-Fits s server none w c hc hp h = h
  by_password-Fits s server (some password) w true hc hp h = h
  by_password-Fits s server (some password) w false hc hp h =
      by_answer (server.accepts_password s.user password)
    where
      by_answer :
          (r : Result Bool Bytes)
          → Fits s w
              (answered libraries s r (record w { handed = sent_password password ∷ w.handed }))
      by_answer (ok true) = ((hc, hp), h)
      by_answer (ok false) = ((hc, hp), h)
      by_answer (err source) = ((hc, hp), h)

  after_key-Fits :
      (s : Settings) (server : Server) (password : Option Bytes) (r : Result Bool Bytes) (w : World)
      → s.password ≡ password
      → All (Fitting s w.key_changed) w.handed
      → Fits s w (after_key libraries s server password r w)
  unfolding after_key
  after_key-Fits s server password (ok true) w hp h = h
  after_key-Fits s server password (ok false) w hp h =
      by_password-Fits s server password w w.key_changed refl hp h
  after_key-Fits s server (some password) (err source) w hp h =
      by_password-Fits s server (some password) w w.key_changed refl hp h
  after_key-Fits s server none (err source) w hp h = h

  offered-Fits :
      (s : Settings) (server : Server) (key : Bytes) (hash : Result (Option Bytes) Bytes)
      (w : World)
      → All (Fitting s w.key_changed) w.handed
      → Fits s w ((offer libraries s server key hash >>= after_key libraries s server s.password) w)
  unfolding offer hand
  offered-Fits s server key (err source) w h =
      after_key-Fits s server s.password (err source) w refl h
  offered-Fits s server key (ok hash) w h =
      after_key-Fits s server s.password (server.accepts_key s.user key hash)
        (record w { handed = offered_key ∷ w.handed }) refl (tt, h)

  authenticate-Fits :
      (s : Settings) (server : Server) (key : Option Bytes) (w : World)
      → All (Fitting s w.key_changed) w.handed
      → Fits s w (authenticate libraries s server key w)
  unfolding authenticate authenticate_key
  authenticate-Fits s server none w h =
      by_password-Fits s server s.password w w.key_changed refl refl h
  authenticate-Fits s server (some key) w h = offered-Fits s server key _ w h

  entrusted :
      (s : Settings) (server : Server) (file : File) (c : Bool) (handed : List Handed)
      → Verified s server file c
      → All (Fitting s c) handed
      → All (Entrusted s server file) handed
  entrusted s server file c [] v h = tt
  entrusted s server file c (offered_key ∷ handed) v (_, h) =
      ((c, v), entrusted s server file c handed v h)
  entrusted s server file c (sent_password p ∷ handed) v ((hc, hp), h) =
      ((subst (Verified s server file) hc v, hp), entrusted s server file c handed v h)

  connect_with-Entrusted :
      (s : Settings) (server : Server) (file : File) (r : Result (List Line) SshError) (w : World)
      → lines_of libraries s s.known_hosts file ≡ r
      → w.key_changed ≡ false
      → w.handed ≡ []
      → All (Entrusted s server file) (connect_with libraries s server r w).1.handed
  unfolding connect_with dial
  connect_with-Entrusted s server file (err e) w hr hc h = subst (All _) (sym h) tt
  connect_with-Entrusted s server file (ok lines) w hr hc h =
      dialled (dial libraries client server w)
        (presented-Quiet client server (key_of client server) w hc)
    where
      client : Client
      client = client_of libraries s lines

      dialled :
          (r : Result (Unit {0}) SshError × World)
          → Quiet (Seen client (key_of client server)) w r
          → All
              (Entrusted s server file)
              (((λ _. r) >>= (λ _. authenticate libraries s server s.key)) w).1.handed
      dialled (err e, w') q = subst (All _) (sym (q ∙ h)) tt
      dialled (ok _, w') (q, (key, shown, a)) =
          entrusted s server file w'.key_changed _ (lines, key, hr, shown, a)
            (authenticate-Fits s server s.key w' (subst (All _) (sym (q ∙ h)) tt))

-- The private key is offered, and the password sent, only to a server whose host key the policy
-- accepts by the lines of the file, and the password only where the key has not changed.
pub connect-Entrusted :
    (libraries : Libraries) (s : Settings) (server : Server) (w : World)
    → w.handed ≡ []
    → All (Entrusted libraries s server w.file) (connect libraries s server w).1.handed
unfolding connect
connect-Entrusted libraries s server w h =
    connect_with-Entrusted libraries s server w.file (lines_of libraries s s.known_hosts w.file)
      (record w { key_changed = false }) refl refl h
