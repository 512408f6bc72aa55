-- ===== src/Ssh/Tunnel/Tests.antt =====
-- crates/ssh/src/tunnel.rs `Inner::connect`: a server and three policies at examples.
use dbmcp.Prelude.{◌≡◌, refl, ap, Bool, codes, [], ◌∷◌, true, false, none, some, ok, err, drop, All}
use dbmcp.Ssh.KnownHosts.{
  HostPatterns, parse, for_host, check, host_name, algorithms, preferred, append,
}
use dbmcp.Ssh.Tunnel.{
  auth_rejected, host_key_changed, Checking, checking_yes, checking_accept_new, checking_no,
  Settings, File, absent, holds, offered_key, sent_password, World, public_key, Libraries, Server,
  connect,
}
use dbmcp.Ssh.Tunnel.Trust.{Verified, Entrusted, connect-Entrusted}
use dbmcp.Ssh.Tunnel.Opens.{Granted, connect-Granted}

-- A line is the host `bastion` and a key.
abbrev sample : Libraries
sample = record {
  parse_entry = λ line. some (record {
    marker = none;
    host_patterns = HostPatterns.patterns (codes "bastion" ∷ []);
    key_data = drop 8 line;
  });
  verify_hash = λ salt name hash. false;
  algorithm = λ key. record { name = codes "ed25519"; is_rsa = false };
  default_algorithms = [];
  is_rsa = λ key. false;
  fingerprint = λ key. key;
  to_openssh = λ key. ok key;
  to_string = λ n. codes "?";
  from_utf8_lossy = λ bytes. bytes;
  write_fails = none;
}

-- It rejects keys, and takes any password.
abbrev server : Server
server = record {
  presents = λ algorithms. ok (public_key (codes "AAAA"));
  breaks = none;
  rsa_hash = ok none;
  accepts_key = λ user key hash. ok false;
  accepts_password = λ user password. ok true;
}

abbrev settings : Checking → Settings
settings mode = record {
  ssh_target = codes "bastion:22";
  ssh_host = codes "Bastion";
  ssh_port = 22;
  user = codes "app";
  password = some (codes "secret");
  key = some (codes "private");
  known_hosts = some (codes "hosts");
  checking = mode;
}

abbrev with_file : File → World
with_file file = record { file = file; handed = []; key_changed = false }

abbrev recorded : File
recorded = holds (codes "bastion AAAA\n")

abbrev other_key : File
other_key = holds (codes "bastion BBBB\n")

trusted_at_first_use : connect sample (settings checking_accept_new) server (with_file absent) ≡ (
  ok tt,
  record {
    file = recorded;
    handed = sent_password (codes "secret") ∷ offered_key ∷ [];
    key_changed = false;
  },
)
unfolding connect parse for_host check host_name algorithms preferred append
trusted_at_first_use = refl

-- The key is offered, but the password is kept back.
changed_host : connect sample (settings checking_no) server (with_file other_key) ≡ (
  err (auth_rejected (codes "app") (codes "bastion:22")),
  record { file = other_key; handed = offered_key ∷ []; key_changed = true },
)
unfolding connect parse for_host check host_name algorithms preferred
changed_host = refl

nothing_handed : connect sample (settings checking_yes) server (with_file other_key) ≡ (
  err (host_key_changed (codes "bastion") (codes "AAAA") (codes "hosts") 1),
  with_file other_key,
)
unfolding connect parse for_host check host_name algorithms preferred
nothing_handed = refl

connect-Entrusted_example :
    All
      (Entrusted sample (settings checking_yes) server recorded)
      (connect sample (settings checking_yes) server (with_file recorded)).1.handed
connect-Entrusted_example =
    connect-Entrusted sample (settings checking_yes) server (with_file recorded) refl

connect-Granted_example :
    (c : Bool) × Verified sample (settings checking_accept_new) server absent c
    × Granted (settings checking_accept_new) server c
connect-Granted_example =
    connect-Granted sample (settings checking_accept_new) server (with_file absent)
      (ap (λ r. r.0) trusted_at_first_use)
