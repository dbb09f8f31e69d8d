-- ===== src/Sql/Repository.antt =====
-- include/repository/sql/SqlRepository.hpp and src/repository/sql/SqlRepository.cpp: the look-up of a
-- user on the SQL executor. The callback is a name, of a type `K`; `clock` gives the readings of the
-- steady clock on the worker thread, one after the other.
pub mod Results
use cpp_reactor.Base.{ℕ, ◌+◌, Bool, false, none, List, [], ◌∷◌, ◌++◌, Bytes, codes, ℤ}
use cpp_reactor.Sql.{SqlConnection, SqlRows, Result, connection, no_error, int64}
use cpp_reactor.Sql.ThreadConn
use cpp_reactor.Sql.ThreadConn.{
  ConnOptions, Slot, Outcome, returns, throws, faults, with_connection,
}
use cpp_reactor.Sql.Executor.{SqlExecutor, submit}

-- What the lambda captures.
pub record Lookup (K : Type 0) : Type 0 where
  pub user_id : ℤ
  pub done : K

-- The thread's connection, how often the clock was read, and the callbacks that were called with their
-- results, the last one last.
pub record World (K F D : Type 0) : Type 0 where
  pub slot : Slot D
  pub readings : ℕ
  pub called : List (K × Result (SqlRows F))

abbrev pub user_query : Bytes
user_query = codes "SELECT id,name,status FROM users WHERE id = ?"

-- The result of the catch block, which no query has been assigned to.
abbrev pub connection_failed : {F : Type 0} → Bytes → Result (SqlRows F)
connection_failed message = record {
  ok = false;
  value = none;
  err = record no_error { code = connection; message = message };
}

module _ {K F D : Type 0} (db : SqlConnection F D) (cfg : ConnOptions) (factory : ℕ → D)
    (clock : ℕ → ℕ) where
  abbrev pub call_done : K → Result (SqlRows F) → Slot D → World K F D → World K F D
  call_done done res slot w = record w {
    slot = slot;
    readings = w.readings + 2;
    called = w.called ++ (done, res) ∷ [];
  }

  -- What follows `withConnection` and its catch block.
  abbrev pub finish : K → Outcome (Result (SqlRows F)) D → World K F D → World K F D
  finish done (returns res slot) w = call_done done res slot w
  finish done (throws message slot) w = call_done done (connection_failed message) slot w
  finish done faults w = w

  unfoldable pub run_lookup : Lookup K → World K F D → World K F D
  run_lookup job w =
      finish job.done
        (with_connection db cfg factory (clock w.readings) (clock (w.readings + 1))
          (db.query user_query (int64 job.user_id ∷ [])) w.slot)
        w

  abbrev pub clean_up : World K F D → World K F D
  clean_up w = record w { slot = ThreadConn.cleanup_current_thread db w.slot }

unfoldable pub find_user_by_id_async :
    {K W : Type 0} → ℤ → K → SqlExecutor (Lookup K) W → Bool × SqlExecutor (Lookup K) W
find_user_by_id_async user_id done e = submit (record { user_id = user_id; done = done }) e
