-- ===== src/Ssh/Tunnel/Opens.antt =====
-- crates/ssh/src/tunnel.rs `Inner::connect`: when a session opens.
use dbmcp.Prelude.{
  Bytes, ◌≡◌, refl, ◌⊎◌, inl, inr, List, ◌∷◌, Bool, true, false, Option, none, some, Result, ok,
  err,
}
use dbmcp.Ssh.KnownHosts.{Line}
use dbmcp.Ssh.Tunnel.{
  SshError, Settings, File, offered_key, sent_password, World, Libraries, Server, Client, ◌>>=◌,
  offer, hand, authenticate_key, answered, by_password, after_key, authenticate, lines_of,
  client_of, dial, connect_with, connect,
}
use dbmcp.Ssh.Tunnel.Trust.{Quiet, Seen, key_of, presented-Quiet, Verified}

-- The server takes the key, or the password, which is tried only where the host key has not changed.
abbrev pub Granted : Settings → Server → Bool → Type 0
Granted s server c =
    ((key : Bytes) × (hash : Option Bytes) × (s.key ≡ some key)
      × (server.accepts_key s.user key hash ≡ ok true))
    ⊎ ((password : Bytes) × (s.password ≡ some password)
        × (c ≡ false)
        × (server.accepts_password s.user password ≡ ok true))

module _ (libraries : Libraries) (s : Settings) (server : Server) where
  by_password-Granted :
      (password : Option Bytes) (c : Bool) (w : World)
      → s.password ≡ password
      → (by_password libraries s server password c w).0 ≡ ok tt
      → Granted s server c
  unfolding by_password hand
  by_password-Granted none c w hp h = cc
  by_password-Granted (some password) true w hp h = cc
  by_password-Granted (some password) false w hp h =
      by_answer (server.accepts_password s.user password) refl h
    where
      by_answer :
          (r : Result Bool Bytes)
          → server.accepts_password s.user password ≡ r
          → (answered libraries s r (record w { handed = sent_password password ∷ w.handed })).0
            ≡ ok tt
          → Granted s server false
      by_answer (ok true) e h = inr (password, hp, refl, e)
      by_answer (ok false) e h = cc
      by_answer (err source) e h = cc

  after_key-Granted :
      (key : Bytes) (hash : Option Bytes) (password : Option Bytes) (r : Result Bool Bytes)
      (w : World)
      → s.key ≡ some key
      → s.password ≡ password
      → (r ≡ ok true → server.accepts_key s.user key hash ≡ ok true)
      → (after_key libraries s server password r w).0 ≡ ok tt
      → Granted s server w.key_changed
  unfolding after_key
  after_key-Granted key hash password (ok true) w hk hp e h = inl (key, hash, hk, e refl)
  after_key-Granted key hash password (ok false) w hk hp e h =
      by_password-Granted password w.key_changed w hp h
  after_key-Granted key hash (some password) (err source) w hk hp e h =
      by_password-Granted (some password) w.key_changed w hp h
  after_key-Granted key hash none (err source) w hk hp e h = cc

  offered-Granted :
      (key : Bytes) (hash : Result (Option Bytes) Bytes) (w : World)
      → s.key ≡ some key
      → ((offer libraries s server key hash >>= after_key libraries s server s.password) w).0
        ≡ ok tt
      → Granted s server w.key_changed
  unfolding offer hand
  offered-Granted key (err source) w hk h =
      after_key-Granted key none s.password (err source) w hk refl (λ e. cc) h
  offered-Granted key (ok hash) w hk h =
      after_key-Granted key hash s.password (server.accepts_key s.user key hash)
        (record w { handed = offered_key ∷ w.handed }) hk refl (λ e. e) h

  authenticate-Granted :
      (key : Option Bytes) (w : World)
      → s.key ≡ key
      → (authenticate libraries s server key w).0 ≡ ok tt
      → Granted s server w.key_changed
  unfolding authenticate authenticate_key
  authenticate-Granted none w hk h = by_password-Granted s.password w.key_changed w refl h
  authenticate-Granted (some key) w hk h = offered-Granted key _ w hk h

  connect_with-Granted :
      (file : File) (r : Result (List Line) SshError) (w : World)
      → lines_of libraries s s.known_hosts file ≡ r
      → w.key_changed ≡ false
      → (connect_with libraries s server r w).0 ≡ ok tt
      → (c : Bool) × Verified libraries s server file c × Granted s server c
  unfolding connect_with dial
  connect_with-Granted file (err e) w hr hc h = cc
  connect_with-Granted file (ok lines) w hr hc h =
      dialled (dial libraries client server w)
        (presented-Quiet libraries client server (key_of libraries client server) w hc) h
    where
      client : Client
      client = client_of libraries s lines

      dialled :
          (r : Result (Unit {0}) SshError × World)
          → Quiet libraries (Seen libraries client (key_of libraries client server)) w r
          → (((λ _. r) >>= (λ _. authenticate libraries s server s.key)) w).0 ≡ ok tt
          → (c : Bool) × Verified libraries s server file c × Granted s server c
      dialled (err e, w') q h = cc
      dialled (ok _, w') (q, (key, shown, a)) h =
          (w'.key_changed, (lines, key, hr, shown, a), authenticate-Granted s.key w' refl h)

-- A session opens only to a server whose host key the policy accepts, and which takes the private key
-- or the password, the password only where the host key has not changed.
pub connect-Granted :
    (libraries : Libraries) (s : Settings) (server : Server) (w : World)
    → (connect libraries s server w).0 ≡ ok tt
    → (c : Bool) × Verified libraries s server w.file c × Granted s server c
unfolding connect
connect-Granted libraries s server w h =
    connect_with-Granted libraries s server w.file (lines_of libraries s s.known_hosts w.file)
      (record w { key_changed = false }) refl refl h
