-- ===== src/Sql/MySql/Calls.antt =====
-- src/persistence/MySqlConnection.cpp: the operations of the connection. `isClosed` throws nothing.
use cpp_reactor.Base.{
  ℕ, ◌/◌, Bool, true, false, Option, none, some, List, [], ◌∷◌, ◌++◌, Bytes, codes, is_empty,
  if◌then◌else◌,
}
use cpp_reactor.Sql.{SqlErrc, SqlValue, SqlRows, Result, VoidResult, SqlConnection}
use cpp_reactor.Sql.Config.{SqlConfig}
use cpp_reactor.Sql.MySql.{
  Try, done, thrown, OptionValue, text, number, flag, Driver, bind_args, read_rows, success,
  failure, value_of, failed, MySqlConnection, put_conn, on_conn,
}

abbrev pub opt_unless_empty : Bytes → List (Bytes × OptionValue) → List (Bytes × OptionValue)
opt_unless_empty s os = if is_empty s then [] else os

-- The options in the order in which they are set.
unfoldable pub connect_options : SqlConfig → List (Bytes × OptionValue)
connect_options cfg =
    ((codes "hostName", text cfg.host)
      ∷ (codes "port", number cfg.port)
      ∷ (codes "userName", text cfg.user)
      ∷ (codes "password", text cfg.password)
      ∷ [])
    ++ (opt_unless_empty cfg.database ((codes "schema", text cfg.database) ∷ [])
        ++ (((codes "OPT_RECONNECT", flag true)
              ∷ (codes "OPT_CONNECT_TIMEOUT", number (cfg.connect_timeout_ms / 1000))
              ∷ (codes "OPT_READ_TIMEOUT", number (cfg.read_timeout_ms / 1000))
              ∷ (codes "OPT_WRITE_TIMEOUT", number (cfg.write_timeout_ms / 1000))
              ∷ [])
            ++ opt_unless_empty cfg.charset (
                (codes "OPT_CHARSET_NAME", text cfg.charset)
                ∷ (codes "characterSetResults", text cfg.charset)
                ∷ [])))

abbrev pub answer_void : Try Unit → VoidResult
answer_void (done u) = success
answer_void (thrown e) = failure e

module _ {S : Type 0} where
  abbrev pub answered : Try Unit × S → VoidResult × S
  answered (r, c) = (answer_void r, c)

module _ {F S R W : Type 0} (driver : Driver F S R W) where
  abbrev pub use_new : MySqlConnection S → Try (Option S) → VoidResult × MySqlConnection S
  use_new m (thrown e) = (failure e, m)
  use_new m (done none) = (failure (codes "driver returned null connection"), m)
  use_new m (done (some c)) = put_conn m (answered (driver.set_auto_commit true c))

  unfoldable pub connect : MySqlConnection S → VoidResult × MySqlConnection S
  unfolding connect_options
  connect m = use_new m (driver.connect (connect_options m.cfg))

  -- The exception's text is dropped.
  abbrev pub pinged : Try ℕ × S → VoidResult × S
  pinged (done n, c) = (success, c)
  pinged (thrown e, c) = (failure [], c)

  abbrev pub ping_with : Try Bool × S → VoidResult × S
  ping_with (done b, c) = pinged (driver.execute (codes "DO 1") c)
  ping_with (thrown e, c) = (failure [], c)

  unfoldable pub ping : MySqlConnection S → VoidResult × MySqlConnection S
  ping m =
      on_conn driver (failure (codes "no Connection")) (λ c. ping_with (driver.create_statement c))
        m.conn m

  abbrev pub result_rows : Try (SqlRows F) → Result (SqlRows F)
  result_rows (done rows) = value_of rows
  result_rows (thrown e) = failed SqlErrc.query_failed e

  abbrev pub queried : Try R × S → Result (SqlRows F) × S
  queried (done rs, c) = (result_rows (read_rows driver (driver.columns rs) (driver.rows rs)), c)
  queried (thrown e, c) = (failed SqlErrc.query_failed e, c)

  -- With the statement that was created or prepared, if it is not the null pointer.
  abbrev pub query_with : (S → Try R × S) → Try Bool × S → Result (SqlRows F) × S
  query_with f (done true, c) = queried (f c)
  query_with f (done false, c) = (failed SqlErrc.query_failed (codes "createStatement faild"), c)
  query_with f (thrown e, c) = (failed SqlErrc.query_failed e, c)

  abbrev pub run_query : Bytes → List (SqlValue F) → S → Result (SqlRows F) × S
  run_query sql [] c = query_with (driver.execute_query sql) (driver.create_statement c)
  run_query sql (v ∷ vs) c =
      query_with (driver.execute_prepared_query sql (bind_args 1 (v ∷ vs)))
        (driver.prepare_statement sql c)

  unfoldable pub query :
      Bytes → List (SqlValue F) → MySqlConnection S → Result (SqlRows F) × MySqlConnection S
  unfolding bind_args read_rows
  query sql args m =
      on_conn driver (failed SqlErrc.connection (codes "not connected")) (run_query sql args) m.conn
        m

  abbrev pub executed : Try ℕ × S → Result ℕ × S
  executed (done n, c) = (value_of n, c)
  executed (thrown e, c) = (failed SqlErrc.connection e, c)

  abbrev pub execute_with : (S → Try ℕ × S) → Try Bool × S → Result ℕ × S
  execute_with f (done true, c) = executed (f c)
  execute_with f (done false, c) = (failed SqlErrc.query_failed (codes "createStatement faild"), c)
  execute_with f (thrown e, c) = (failed SqlErrc.connection e, c)

  abbrev pub run_execute : Bytes → List (SqlValue F) → S → Result ℕ × S
  run_execute sql [] c = execute_with (driver.execute sql) (driver.create_statement c)
  run_execute sql (v ∷ vs) c =
      execute_with (driver.execute_prepared sql (bind_args 1 (v ∷ vs)))
        (driver.prepare_statement sql c)

  unfoldable pub execute :
      Bytes → List (SqlValue F) → MySqlConnection S → Result ℕ × MySqlConnection S
  unfolding bind_args
  execute sql args m =
      on_conn driver (failed SqlErrc.connection (codes "no connected")) (run_execute sql args)
        m.conn m

  abbrev pub closed : MySqlConnection S → Try Unit × S → MySqlConnection S
  closed m (done u, c) = record m { conn = none }
  closed m (thrown e, c) = record m { conn = some c }

  abbrev pub close_conn : Option S → MySqlConnection S → MySqlConnection S
  close_conn none m = m
  close_conn (some c) m = closed m (driver.close c)

  unfoldable pub close : MySqlConnection S → MySqlConnection S
  close m = close_conn m.conn m

  unfoldable pub begin : MySqlConnection S → VoidResult × MySqlConnection S
  begin m =
      on_conn driver (failure (codes "no connected"))
        (λ c. answered (driver.set_auto_commit false c)) m.conn m

  -- `setAutoCommit(true)` after what ends the transaction.
  abbrev pub restore : Try Unit × S → VoidResult × S
  restore (done u, c) = answered (driver.set_auto_commit true c)
  restore (thrown e, c) = (failure e, c)

  unfoldable pub commit : MySqlConnection S → VoidResult × MySqlConnection S
  commit m =
      on_conn driver (failure (codes "no connected")) (λ c. restore (driver.commit c)) m.conn m

  unfoldable pub rollback : MySqlConnection S → VoidResult × MySqlConnection S
  rollback m =
      on_conn driver (failure (codes "no connected")) (λ c. restore (driver.rollback c)) m.conn m

  -- `MySqlConnection` as an `ISqlConnection`.
  abbrev pub my_sql : SqlConnection F (MySqlConnection S)
  my_sql = record {
    connect = connect;
    ping = ping;
    query = query;
    execute = execute;
    close = close;
    begin = begin;
    commit = commit;
    rollback = rollback;
  }
