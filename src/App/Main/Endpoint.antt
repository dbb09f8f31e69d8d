-- ===== src/App/Main/Endpoint.antt =====
-- src/app/main.cpp: the executor and the handler of the SQL routes, as the program makes them.
use cpp_reactor.Base.{ℕ, refl, subst, sym, List, []}
use cpp_reactor.Http.Request.{HttpRequest}
use cpp_reactor.Connection.{HandlerResult}
use cpp_reactor.Sql.Config.{SqlConfig}
use cpp_reactor.Sql.MySql
use cpp_reactor.Sql.MySql.{Driver, MySqlConnection}
use cpp_reactor.Sql.MySql.Calls.{my_sql}
use cpp_reactor.Sql.ThreadConn.{new_slot}
use cpp_reactor.Sql.Executor
use cpp_reactor.Sql.Executor.{SqlExecutor}
use cpp_reactor.Sql.Executor.Drain.{Event, happen_all, accepted, outcome}
use cpp_reactor.Sql.Executor.Logged.{Matched}
use cpp_reactor.Handler.SqlHandler
use cpp_reactor.Handler.SqlHandler.{Json, Job, World, run_job, clean_up}
use cpp_reactor.Handler.SqlHandler.Answers.{IsAnswer, answered-outcome}
use cpp_reactor.App.Main.{conn_options}

-- The lambda that makes a connection.
unfoldable pub make_connection : {S : Type 0} → SqlConfig → ℕ → MySqlConnection S
make_connection c n = MySql.create c

module _ {K S : Type 0} where
  -- The executor, once it is started.
  unfoldable pub new_executor : SqlExecutor (Job K) (World K (MySqlConnection S))
  unfolding Executor.start Executor.create
  new_executor =
      Executor.start (Executor.create (record { slot = new_slot 0; readings = 0; posted = [] }))

  -- The handler of both routes.
  abbrev pub sql_endpoint :
      SqlConfig
      → HttpRequest
      → K
      → SqlExecutor (Job K) (World K (MySqlConnection S))
      → HandlerResult × SqlExecutor (Job K) (World K (MySqlConnection S))
  sql_endpoint c req conn e = SqlHandler.handle c.read_only req conn e

module _ {K F G S R W : Type 0} (json : Json F G) (driver : Driver F S R W) (clock : ℕ → ℕ)
    (c : SqlConfig) where
  abbrev pub run_query : Job K → World K (MySqlConnection S) → World K (MySqlConnection S)
  run_query = run_job json (my_sql driver) (conn_options c) (make_connection c) clock

  abbrev pub end_thread : World K (MySqlConnection S) → World K (MySqlConnection S)
  end_thread = clean_up json (my_sql driver) (conn_options c) (make_connection c) clock

  -- However the requests that the program's executor gets, a request to stop and the rounds of its
  -- thread come one after the other, in the end one answer has been posted for each query that it
  -- accepts, in the order of submission and to its connection: 200 with the rows that the query gave,
  -- 500 with the error that it gave, or 500 with the error of connecting or pinging, which failed. So
  -- it is whatever the MySQL client library answers or throws. The posted task sends that response
  -- unless the JSON library throws at its text, or a result that is ok has no rows.
  pub answered-endpoint :
      (vs : List (Event (Job K)))
      → let answers =
          (outcome run_query end_thread (happen_all run_query end_thread vs new_executor)).posted in
        Matched
          (IsAnswer json (my_sql driver))
          (accepted run_query end_thread vs new_executor)
          answers
  unfolding new_executor
  answered-endpoint vs =
      let (answers, e, m) =
        answered-outcome json (my_sql driver) (conn_options c) (make_connection c) clock vs
          new_executor refl in
      subst
        (Matched (IsAnswer json (my_sql driver)) (accepted run_query end_thread vs new_executor))
        (sym e) m
