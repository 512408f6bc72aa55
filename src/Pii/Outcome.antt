-- ===== src/Pii/Outcome.antt =====
-- crates/pii/src/validation.rs
use dbmcp.Prelude.{Bool, true, false}

pub data ValidationOutcome : Type 0 where
  valid invalid unknown : ValidationOutcome

unfoldable pub from_bool : Bool → ValidationOutcome
from_bool true = valid
from_bool false = invalid
