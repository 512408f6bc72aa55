-- ===== src/Backend/Mysql/Sends.antt =====
-- crates/mysql/src: what the steps of a tool add to what was sent.
use dbmcp.Prelude.{ℕ, Bytes, ◌≡◌, refl, List, [], ◌∷◌, some, Result, ok, err, All, All-append}
use dbmcp.Sql.Error.{SqlError}
use dbmcp.Backend.{
  Driver, Sent, Run, ◌>>=◌, lift, read_only_begin, execute_with_timeout, send, begin_read_only,
  roll_back, fetch_json_read_only,
}
use dbmcp.Backend.Mysql.{ToolError, fails, sql}

-- A step keeps `P` of all that was sent.
abbrev pub Sends : {E A : Type 0} → (Sent → Type 0) → Run E A → Type 0
Sends P m = (log : List Sent) → All P log → All P (m log).1

module _ (P : Sent → Type 0) where
  pub bind-Sends :
      {E A B : Type 0} (m : Run E A) (f : A → Run E B)
      → Sends P m
      → ((a : A) → Sends P (f a))
      → Sends P (m >>= f)
  bind-Sends {E} {A} {B} m f hm hf log h = after (m log) (hm log h)
    where
      after :
          (r : Result A E × List Sent) → All P r.1 → All P (((λ (_ : List Sent). r) >>= f) log).1
      after (ok a, log') h' = hf a log' h'
      after (err e, log') h' = h'

  pub checked-Sends :
      {A B : Type 0} (r : Result A SqlError) (f : A → Run ToolError B)
      → ((a : A) → r ≡ ok a → Sends P (f a))
      → Sends P (lift (fails r) >>= f)
  unfolding fails
  checked-Sends (ok a) f hf = hf a refl
  checked-Sends (err e) f hf = λ log h. h

  pub sql-Sends : {A : Type 0} (m : Run SqlError A) → Sends P m → Sends P (sql m)
  unfolding sql
  sql-Sends m hm log h = hm log h

  module _ (driver : Driver) where
    send-Sends : (s : Sent) → P s → Sends P (send driver s)
    unfolding send
    send-Sends s p log h = All-append P log (s ∷ []) h (p, tt)

    pub fetch-Sends :
        (timeout : ℕ) (pool text : Bytes)
        → P (record { transaction = some read_only_begin; pool = pool; sql = text; binds = [] })
        → Sends P (fetch_json_read_only driver timeout pool text)
    unfolding fetch_json_read_only execute_with_timeout begin_read_only roll_back
    fetch-Sends timeout pool text p log h =
        let s : Sent = record {
          transaction = some read_only_begin;
          pool = pool;
          sql = text;
          binds = [];
        } in
        bind-Sends (begin_read_only driver) (λ _. send driver s >>= roll_back driver) (λ _ k. k)
          (λ _. bind-Sends (send driver s) (roll_back driver) (send-Sends s p) (λ _ _ k. k)) log h
