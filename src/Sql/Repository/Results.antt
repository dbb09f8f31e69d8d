-- ===== src/Sql/Repository/Results.antt =====
-- src/repository/sql/SqlRepository.cpp: the results that the callbacks are called with.
use cpp_reactor.Base.{◌≡◌, ◌⊎◌, List, [], ◌∷◌, Bytes, ℤ}
use cpp_reactor.Sql.{SqlConnection, SqlRows, Result, int64}
use cpp_reactor.Sql.ThreadConn.Total.{HasFailed}
use cpp_reactor.Sql.Executor.Logged.{Matched}
use cpp_reactor.Sql.Repository.{Lookup, user_query, connection_failed}

module _ {F D : Type 0} (db : SqlConnection F D) where
  -- The answer of a connection to the query for this user, or the error that connecting
  -- or pinging reported.
  abbrev pub IsResult : ℤ → Result (SqlRows F) → Type 0
  IsResult user_id res =
      ((d : D) × (res ≡ (db.query user_query (int64 user_id ∷ []) d).0))
      ⊎ ((message : Bytes) × HasFailed db message × (res ≡ connection_failed message))

module _ {K F D : Type 0} (db : SqlConnection F D) where
  -- A call of the look-up's callback, with a result for its user.
  abbrev pub IsCall : Lookup K → K × Result (SqlRows F) → Type 0
  IsCall job (done, res) = (done ≡ job.done) × IsResult db job.user_id res

  -- One call for each look-up, in the same order, each with a result for its user.
  abbrev pub IsAnswered : List (Lookup K) → List (K × Result (SqlRows F)) → Type 0
  IsAnswered jobs calls = Matched IsCall jobs calls
