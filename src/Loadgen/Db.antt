-- ===== src/Loadgen/Db.antt =====
-- services/loadgen/internal/db: the store over a pool of Postgres connections. The pool is a
-- parameter; a query stands for its SQL text. The text that is put before an error is left to the
-- parameter `wrap`.
use public_pg2mongo_cd_c.Base.{String, Bool, ℤ, pos, ◌==◌, if◌then◌else◌}
use public_pg2mongo_cd_c.Loadgen.{Result, ok, fail, Store}

-- The statements that the package sends.
pub data Query : Type 0 where
  insert_or_update : String → String → String → Query
  -- The id comes from a sample of the table's blocks, of 5 in 100.
  update_sampled : String → Query
  -- The lowest id.
  update_first : String → Query
  delete_first : Query

-- `pgxpool.Pool`: `QueryRow` with the `Scan` of an id.
pub record Pool (E : Type 0) : Type 1 where
  pub State : Type 0
  pub query_row : Query → State → State × Result E ℤ

module _ {E : Type 0} {V : Type 0} (text : E → String) (wrap : String → E → E)
    (marshal : V → Result E String) (pool : Pool E) where
  abbrev pub no_rows : E → Bool
  no_rows e = text e == "no rows in result set"

  abbrev after_insert : pool.State × Result E ℤ → pool.State × Result E ℤ
  after_insert (s, ok n) = (s, ok n)
  after_insert (s, fail e) = (s, fail (wrap "insert: " e))

  abbrev after_marshal : String → String → pool.State → Result E String → pool.State × Result E ℤ
  after_marshal email name s (fail e) = (s, fail (wrap "marshal profile: " e))
  after_marshal email name s (ok profile) =
      after_insert (pool.query_row (insert_or_update email name profile) s)

  unfoldable pub insert_user : String → String → V → pool.State → pool.State × Result E ℤ
  insert_user email name profile s = after_marshal email name s (marshal profile)

  -- An error of the last query: no row is the id 0.
  abbrev pub id_or_zero : String → pool.State × Result E ℤ → pool.State × Result E ℤ
  id_or_zero msg (s, ok n) = (s, ok n)
  id_or_zero msg (s, fail e) = (s, (if no_rows e then ok (pos 0) else fail (wrap msg e)))

  abbrev pub after_sample : String → pool.State × Result E ℤ → pool.State × Result E ℤ
  after_sample name (s, ok n) = (s, ok n)
  after_sample name (s, fail e) =
      if no_rows e
      then (s, ok (pos 0))
      else id_or_zero "update: " (pool.query_row (update_first name) s)

  unfoldable pub update_random_user : String → pool.State → pool.State × Result E ℤ
  update_random_user name s = after_sample name (pool.query_row (update_sampled name) s)

  unfoldable pub delete_random_user : pool.State → pool.State × Result E ℤ
  delete_random_user s = id_or_zero "delete: " (pool.query_row delete_first s)

  abbrev pub db_store : Store E V
  db_store = record {
    State = pool.State;
    insert_user = insert_user;
    update_random_user = update_random_user;
    delete_random_user = delete_random_user;
  }
