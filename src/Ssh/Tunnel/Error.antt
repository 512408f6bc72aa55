-- ===== src/Ssh/Tunnel/Error.antt =====
-- crates/ssh/src/error.rs, without the errors of the key file and of the listener. A source is what it
-- prints.
use dbmcp.Prelude.{ℕ, Bytes}

pub data SshError : Type 0 where
  missing_credentials : SshError
  connect_failed : (target : Bytes) → (source : Bytes) → SshError
  timeout : (target : Bytes) → (secs : ℕ) → SshError
  auth_rejected : (user : Bytes) → (target : Bytes) → SshError
  auth_failed : (user : Bytes) → (target : Bytes) → (source : Bytes) → SshError
  known_hosts_read : (path : Bytes) → (source : Bytes) → SshError
  known_hosts_write : (host : Bytes) → (path : Bytes) → (source : Bytes) → SshError
  host_key_unknown :
      (host : Bytes)
      → (ssh_host : Bytes) → (port : ℕ) → (fingerprint : Bytes) → (path : Bytes) → SshError
  host_key_changed : (host : Bytes) → (fingerprint : Bytes) → (path : Bytes) → (line : ℕ) → SshError
  host_key_revoked : (host : Bytes) → (fingerprint : Bytes) → (path : Bytes) → (line : ℕ) → SshError
  host_certificate : (target : Bytes) → SshError
  session_lost : (target : Bytes) → (cause : Bytes) → SshError
  unavailable : (cause : Bytes) → SshError
  channel_open : (target : Bytes) → (source : Bytes) → SshError
