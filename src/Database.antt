-- ===== src/Database.antt =====
-- The database as the program sees it through pgx and database/sql: values, queries and executions.
use gomyadmin.Base.{ℕ, Bool, Option, List, Str}
use gomyadmin.Base.Int.{ℤ}

-- The dynamic types of the values of a record: nil, string, numbers, bool, `time.Time`, `[]byte`,
-- `[16]byte`, and a map or a slice, which is given by its JSON text.
pub data Value : Type 0 where
  nil : Value
  text : Str → Value
  number : ℤ → Value
  flag : Bool → Value
  time : ℕ → Value
  bytes : List ℕ → Value
  uuid : List ℕ → Value
  document : List ℕ → Value

-- `pgxpool.Pool` and `sql.DB`: rows of a query, the number that a `select count(*)` gives, the state after an
-- execution, and after a commit of what a transaction has made of it. `none` is an error, after which
-- the database is as before.
pub record Pool : Type 1 where
  pub State : Type 0
  pub query : Str → List Value → State → Option (List (List Value))
  pub query_count : Str → List Value → State → Option ℕ
  pub exec : Str → List Value → State → Option State
  pub begin : State → Option State
  pub commit : State → Option State
