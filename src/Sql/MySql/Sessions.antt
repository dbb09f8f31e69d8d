-- ===== src/Sql/MySql/Sessions.antt =====
-- src/persistence/MySqlConnection.cpp under src/persistence/ThreadLocalSqlConn.cpp: the session with the
-- data base that a thread's connection has.
use cpp_reactor.Base.{
  ℕ, ◌<◌, ◌≡◌, refl, sym, subst, Bool, true, false, Option, none, some, List, [], ◌∷◌, Bytes, map,
  All, arith, if◌then◌else◌,
}
use cpp_reactor.Sql.{SqlValue}
use cpp_reactor.Sql.MySql.{Driver, Try, done, thrown, MySqlConnection, on_conn}
use cpp_reactor.Sql.MySql.Calls.{
  my_sql, use_new, connect, ping, query, execute, begin, commit, rollback,
}
use cpp_reactor.Sql.ThreadConn.{ConnOptions, ms, new_slot}
use cpp_reactor.Sql.ThreadConn.Live.{Opens}
use cpp_reactor.Sql.ThreadConn.Uses.{Use, IsTimed, seen, seen_lem}

abbrev pub IsThere : {S : Type 0} → Option S → Type 0
IsThere none = ⊥
IsThere (some c) = Unit

-- The pointer to the session is not null.
abbrev pub HasSession : {S : Type 0} → MySqlConnection S → Type 0
HasSession m = IsThere m.conn

-- What a function does with the connection that it gets.
pub data Statement (F : Type 0) : Type 0 where
  queries executes : Bytes → List (SqlValue F) → Statement F
  begins commits rolls_back : Statement F

-- A call of `withConnection`, with the times that it reads.
pub record Visit (F : Type 0) : Type 0 where
  pub now : ℕ
  pub later : ℕ
  pub statements : List (Statement F)

module _ {F S R W : Type 0} (driver : Driver F S R W) where
  abbrev pub perform : Statement F → MySqlConnection S → MySqlConnection S
  perform (queries sql args) m = (query driver sql args m).1
  perform (executes sql args) m = (execute driver sql args m).1
  perform begins m = (begin driver m).1
  perform commits m = (commit driver m).1
  perform rolls_back m = (rollback driver m).1

  abbrev pub perform_all : List (Statement F) → MySqlConnection S → MySqlConnection S
  perform_all [] m = m
  perform_all (s ∷ ss) m = perform_all ss (perform s m)

  abbrev pub to_use : Visit F → Use (MySqlConnection S)
  to_use v = record { now = v.now; later = v.later; fn = perform_all v.statements }

  use_new-session :
      (m : MySqlConnection S) (o : Try (Option S))
      → (use_new driver m o).0.ok ≡ true
      → HasSession (use_new driver m o).1
  use_new-session m (thrown e) h = absurd (ground (arith, h))
  use_new-session m (done none) h = absurd (ground (arith, h))
  use_new-session m (done (some c)) h = tt

  if-session :
      (T : Type 0) (b : Bool) (x y : T × MySqlConnection S)
      → HasSession x.1
      → HasSession y.1
      → HasSession (if b then x else y).1
  if-session T true x y hx hy = hx
  if-session T false x y hx hy = hy

  -- An operation on a connection that has a session leaves it one.
  on_conn-session :
      (T : Type 0) (absent : T) (f : S → T × S) (o : Option S) (m : MySqlConnection S)
      → m.conn ≡ o
      → IsThere o
      → HasSession (on_conn driver absent f o m).1
  on_conn-session T absent f none m e h = elim h [ ]
  on_conn-session T absent f (some c) m e h =
      if-session T (driver.is_closed c) _ _ (subst IsThere (sym e) h) tt

  perform-session :
      (s : Statement F) (m : MySqlConnection S) → HasSession m → HasSession (perform s m)
  unfolding query execute begin commit rollback
  perform-session (queries sql args) m h = on_conn-session _ _ _ m.conn m refl h
  perform-session (executes sql args) m h = on_conn-session _ _ _ m.conn m refl h
  perform-session begins m h = on_conn-session _ _ _ m.conn m refl h
  perform-session commits m h = on_conn-session _ _ _ m.conn m refl h
  perform-session rolls_back m h = on_conn-session _ _ _ m.conn m refl h

  perform_all-session :
      (ss : List (Statement F)) (m : MySqlConnection S)
      → HasSession m
      → HasSession (perform_all ss m)
  perform_all-session [] m h = h
  perform_all-session (s ∷ ss) m h = perform_all-session ss (perform s m) (perform-session s m h)

  -- The connection does what the thread-local connection relies on, whatever the client library does.
  my_sql-Opens : Opens (my_sql driver) HasSession
  unfolding connect ping
  my_sql-Opens = record {
    connect_open = λ m h. use_new-session m (driver.connect _) h;
    ping_open = λ m h. on_conn-session _ _ _ m.conn m refl h;
  }

  to_use-All :
      (vs : List (Visit F))
      → All
          (λ (u : Use (MySqlConnection S)).
            (m : MySqlConnection S) → HasSession m → HasSession (u.fn m))
          (map to_use vs)
  to_use-All [] = tt
  to_use-All (v ∷ vs) = (perform_all-session v.statements, to_use-All vs)

  -- However often jobs use their thread's connection for queries, statements and transactions, at times
  -- that do not go back and that begin when the clock has passed the idle limit, no null pointer to a
  -- connection is followed, and each use gets a connection that has a session with the data base,
  -- whatever the client library answers or throws.
  pub seen-sessions :
      (cfg : ConnOptions) (factory : ℕ → MySqlConnection S) (vs : List (Visit F)) (t made : ℕ)
      → IsTimed t (map to_use vs)
      → ms cfg.max_conn_idle_ms < t
      → (ds : List (MySqlConnection S)) × (seen
            (my_sql driver)
            cfg
            factory
            (map to_use vs)
            (new_slot made)
          ≡ some ds)
        × All HasSession ds
  seen-sessions cfg factory vs t made times h =
      seen_lem (my_sql driver) HasSession my_sql-Opens cfg factory (map to_use vs) t made
        (to_use-All vs) times h
