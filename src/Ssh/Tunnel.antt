-- ===== src/Ssh/Tunnel.antt =====
-- crates/ssh/src/tunnel.rs. The SSH library and the server behind it are
-- parameters: what `client::connect` hands to the host key check, and how the server answers to a key
-- and to a password. Texts are bytes; a failure of a library is its message.
mod Error
pub mod Trust
pub mod Opens
mod Tests
use dbmcp.Prelude.{
  ℕ, Bytes, codes, List, [], ◌∷◌, ◌++◌, Bool, true, false, not, ◌&&◌, Option, none, some, Result,
  ok, err,
}
use dbmcp.Ssh.KnownHosts.{
  Line, Entry, Verdict, verdict_revoked, match, changed, unknown, Algorithm, parse, for_host, check,
  algorithms, preferred, host_name, append,
}
pub use Error.*

-- `StrictHostKeyChecking`
pub data Checking : Type 0 where
  checking_yes : Checking
  checking_accept_new : Checking
  checking_no : Checking

-- The fields of `Inner` that `connect` reads. A private key is its data.
pub record Settings : Type 0 where
  pub ssh_target : Bytes
  pub ssh_host : Bytes
  pub ssh_port : ℕ
  pub user : Bytes
  pub password : Option Bytes
  pub key : Option Bytes
  pub known_hosts : Option Bytes
  pub checking : Checking

-- The `known_hosts` file on disk.
pub data File : Type 0 where
  absent : File
  holds : Bytes → File
  unreadable : Bytes → File

-- What was handed to the server, latest first.
pub data Handed : Type 0 where
  offered_key : Handed
  sent_password : Bytes → Handed

-- `key_changed` is the flag that the client shares with `connect`.
pub record World : Type 0 where
  pub file : File
  pub handed : List Handed
  pub key_changed : Bool

-- The other side of `PublicKeyOrCertificate`.
pub data HostKey : Type 0 where
  public_key : Bytes → HostKey
  certificate : HostKey

-- What the libraries compute: of a `known_hosts` line, a hashed name, a key, a number and bytes that
-- may be no UTF-8, and whether the file can be written.
pub record Libraries : Type 0 where
  pub parse_entry : Bytes → Option Entry
  pub verify_hash : Bytes → Bytes → Bytes → Bool
  pub algorithm : Bytes → Algorithm
  pub default_algorithms : List Algorithm
  pub is_rsa : Bytes → Bool
  pub fingerprint : Bytes → Bytes
  pub to_openssh : Bytes → Result Bytes Bytes
  pub to_string : ℕ → Bytes
  pub from_utf8_lossy : Bytes → Bytes
  pub write_fails : Option Bytes

-- The server, by the algorithms that the client prefers and by what it is handed.
pub record Server : Type 0 where
  pub presents : List Algorithm → Result HostKey Bytes
  pub breaks : Option Bytes
  pub rsa_hash : Result (Option Bytes) Bytes
  pub accepts_key : Bytes → Bytes → Option Bytes → Result Bool Bytes
  pub accepts_password : Bytes → Bytes → Result Bool Bytes

-- The state is kept where a step fails.
abbrev pub M : Type 0 → Type 0
M A = World → Result A SshError × World

infixl 5 ◌>>=◌
abbrev pub ◌>>=◌ : {A B : Type 0} → M A → (A → M B) → M B
◌>>=◌ m f w = let (r, w') = m w in elim r [ ok a ↦ f a w' | err e ↦ (err e, w') ]

abbrev pub return : {A : Type 0} → A → M A
return a w = (ok a, w)

abbrev pub fail : {A : Type 0} → SshError → M A
fail e w = (err e, w)

-- `Client`, without the flags that the world holds and the ones of `disconnected`.
pub record Client : Type 0 where
  pub lines : List Line
  pub host : Bytes
  pub path : Bytes
  pub mode : Checking
  pub settings : Settings

hand : Handed → M (Unit {0})
hand h w = (ok tt, record w { handed = h ∷ w.handed })

module _ (libraries : Libraries) where
  open libraries use {
    parse_entry, verify_hash, algorithm, default_algorithms, is_rsa, fingerprint, to_openssh,
    to_string, from_utf8_lossy, write_fails,
  }

  -- `KnownHosts::read`
  unfoldable pub read : File → Result (List Line) Bytes
  unfolding parse
  read absent = ok []
  read (holds bytes) = ok (parse parse_entry (from_utf8_lossy bytes))
  read (unreadable source) = err source

  write : Client → Bytes → File → M (Unit {0})
  unfolding append
  write client entry absent w = (ok tt, record w { file = holds (append [] entry) })
  write client entry (holds text) w = (ok tt, record w { file = holds (append text entry) })
  write client entry (unreadable source) w =
      (err (known_hosts_write client.host client.path source), w)

  -- `known_hosts::append`: the line of the key, and then the write.
  appended : Client → Option Bytes → Result Bytes Bytes → M (Unit {0})
  unfolding write
  appended client none (ok entry) = λ w. write client entry w.file w
  appended client (some source) (ok entry) = fail (known_hosts_write client.host client.path source)
  appended client fails (err source) = fail (known_hosts_write client.host client.path source)

  -- `known_hosts::entry`
  entry_of : Bytes → Result Bytes Bytes → Result Bytes Bytes
  entry_of name (ok key) = ok (name ++ codes " " ++ key)
  entry_of name (err source) = err source

  -- The arms of the match on the verdict and the mode.
  policy : Client → Bytes → Verdict → Checking → M (Unit {0})
  unfolding appended entry_of
  policy client key (verdict_revoked line) mode =
      fail (host_key_revoked client.host (fingerprint key) client.path line)
  policy client key match mode = return tt
  policy client key unknown checking_no = return tt
  policy client key (changed line) checking_no = λ w. (ok tt, record w { key_changed = true })
  policy client key (changed line) checking_yes =
      fail (host_key_changed client.host (fingerprint key) client.path line)
  policy client key (changed line) checking_accept_new =
      fail (host_key_changed client.host (fingerprint key) client.path line)
  policy client key unknown checking_accept_new =
      appended client write_fails (entry_of client.host (to_openssh key))
  policy client key unknown checking_yes = fail (
      host_key_unknown client.host client.settings.ssh_host client.settings.ssh_port
        (fingerprint key) client.path)

  -- `Client::verify`
  unfoldable pub verify : Client → Bytes → M (Unit {0})
  unfolding policy check
  verify client key = policy client key (check verify_hash client.lines client.host key) client.mode

  -- `Client::check_server_key`
  unfoldable pub check_server_key : Client → HostKey → M (Unit {0})
  unfolding verify
  check_server_key client (public_key key) = verify client key
  check_server_key client certificate = fail (host_certificate client.settings.ssh_target)

  -- `client::connect`: the handler sees the host key, and the handshake goes on if it is accepted.
  handshake : Settings → Option Bytes → M (Unit {0})
  handshake settings none = return tt
  handshake settings (some source) = fail (connect_failed settings.ssh_target source)

  unfoldable pub presented : Client → Server → Result HostKey Bytes → M (Unit {0})
  unfolding check_server_key handshake
  presented client server (err source) = fail (connect_failed client.settings.ssh_target source)
  presented client server (ok key) =
      check_server_key client key >>= λ _. handshake client.settings server.breaks

  -- `Inner::authenticate_key`: an error of the library is a value here.
  offer : Settings → Server → Bytes → Result (Option Bytes) Bytes → M (Result Bool Bytes)
  unfolding hand
  offer settings server key (err source) = return (err source)
  offer settings server key (ok hash) =
      hand offered_key >>= λ _. return (server.accepts_key settings.user key hash)

  unfoldable pub authenticate_key : Settings → Server → Bytes → M (Result Bool Bytes)
  unfolding offer
  authenticate_key settings server key =
      offer settings server key (elim (is_rsa key) [ true ↦ server.rsa_hash | false ↦ ok none ])

  -- The answer to the password.
  answered : Settings → Result Bool Bytes → M (Unit {0})
  answered settings (ok true) = return tt
  answered settings (ok false) = fail (auth_rejected settings.user settings.ssh_target)
  answered settings (err source) = fail (auth_failed settings.user settings.ssh_target source)

  -- The end of `connect`, from the password on: it is dropped if the key has changed.
  unfoldable pub by_password : Settings → Server → Option Bytes → Bool → M (Unit {0})
  unfolding answered hand
  by_password settings server none key_changed =
      fail (auth_rejected settings.user settings.ssh_target)
  by_password settings server (some password) true =
      fail (auth_rejected settings.user settings.ssh_target)
  by_password settings server (some password) false = hand (sent_password password) >>= λ _.
      answered settings (server.accepts_password settings.user password)

  -- The match on what became of the key.
  after_key : Settings → Server → Option Bytes → Result Bool Bytes → M (Unit {0})
  unfolding by_password
  after_key settings server password (ok true) = return tt
  after_key settings server password (ok false) =
      λ w. by_password settings server password w.key_changed w
  after_key settings server (some password) (err source) =
      λ w. by_password settings server (some password) w.key_changed w
  after_key settings server none (err source) =
      fail (auth_failed settings.user settings.ssh_target source)

  unfoldable pub authenticate : Settings → Server → Option Bytes → M (Unit {0})
  unfolding authenticate_key after_key by_password
  authenticate settings server none =
      λ w. by_password settings server settings.password w.key_changed w
  authenticate settings server (some key) =
      authenticate_key settings server key >>= after_key settings server settings.password

  -- The match on the read of the file: where checking is off, a file that cannot be read counts as
  -- empty.
  known_lines : Checking → Bytes → Result (List Line) Bytes → Result (List Line) SshError
  known_lines mode path (ok lines) = ok lines
  known_lines checking_no path (err source) = ok []
  known_lines checking_yes path (err source) = err (known_hosts_read path source)
  known_lines checking_accept_new path (err source) = err (known_hosts_read path source)

  unfoldable pub lines_of : Settings → Option Bytes → File → Result (List Line) SshError
  unfolding known_lines read
  lines_of settings none file = ok []
  lines_of settings (some path) file = known_lines settings.checking path (read file)

  or_default : Option Bytes → Bytes
  or_default none = []
  or_default (some path) = path

  unfoldable pub client_of : Settings → List Line → Client
  unfolding host_name for_host or_default
  client_of settings lines =
      let host = host_name to_string settings.ssh_host settings.ssh_port in
      record {
        lines = for_host verify_hash lines host;
        host = host;
        path = or_default settings.known_hosts;
        mode = settings.checking;
        settings = settings;
      }

  unfoldable pub dial : Client → Server → M (Unit {0})
  unfolding presented preferred algorithms
  dial client server = presented client server (
      server.presents
        (preferred (algorithms verify_hash algorithm client.lines client.host) default_algorithms))

  connect_with : Settings → Server → Result (List Line) SshError → M (Unit {0})
  unfolding client_of dial authenticate
  connect_with settings server (err e) = fail e
  connect_with settings server (ok lines) =
      dial (client_of settings lines) server >>= λ _. authenticate settings server settings.key

  -- `Inner::connect`. The flag starts as `false`.
  unfoldable pub connect : Settings → Server → M (Unit {0})
  unfolding connect_with lines_of
  connect settings server w =
      connect_with settings server (lines_of settings settings.known_hosts w.file)
        (record w { key_changed = false })
