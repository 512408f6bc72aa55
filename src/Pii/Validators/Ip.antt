-- ===== src/Pii/Validators/Ip.antt =====
-- crates/pii/src/validators/ip.rs; `IpAddr::from_str` is an argument
use dbmcp.Prelude.{Bytes, [], Bool, ◌||◌, ◌==◌, get_or, split_with}
use dbmcp.Pii.Outcome.{ValidationOutcome, from_bool}

module _ (ip_from_str : Bytes → Bool) where
  -- `split(..).next().unwrap_or("")`
  address : Bytes → Bytes
  unfolding split_with
  address candidate = get_or (split_with (λ c. c == b'/' || c == b'%') candidate []) 0 []

  unfoldable pub validate : Bytes → ValidationOutcome
  unfolding address from_bool
  validate candidate = from_bool (ip_from_str (address candidate))
