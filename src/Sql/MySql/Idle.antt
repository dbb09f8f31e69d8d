-- ===== src/Sql/MySql/Idle.antt =====
-- src/persistence/MySqlConnection.cpp: the auto-commit mode, which is off while a transaction is open.
use cpp_reactor.Base.{
  ℕ, codes, ◌≡◌, refl, ◌∙◌, subst, Bool, true, false, Option, none, some, List, [], ◌∷◌, Bytes,
  Bool-cases, inl, inr, arith,
}
use cpp_reactor.Sql.{SqlValue}
use cpp_reactor.Sql.Transaction
use cpp_reactor.Sql.Transaction.{
  EndsTransactions, ArePlain, Call, rollback_fails, calls, destroy, destroy-calls,
}
use cpp_reactor.Sql.MySql.{Try, done, thrown, Bound, Driver, MySqlConnection, on_conn, failure}
use cpp_reactor.Sql.MySql.Calls.{
  answered, queried, query_with, run_query, query, executed, execute_with, run_execute, execute,
  begin, restore, commit, rollback, my_sql,
}

module _ {S : Type 0} (auto_commit : S → Bool) where
  -- What `setAutoCommit` leaves: the mode that was asked for, or the old one if it throws.
  abbrev pub ModeSet : Bool → S → Try Unit × S → Type 0
  ModeSet b c (done u, d) = auto_commit d ≡ b
  ModeSet b c (thrown e, d) = auto_commit d ≡ auto_commit c

-- What the client library does about the mode: but for `setAutoCommit` and statements that are not
-- plain, such as `SET autocommit`, nothing changes it.
pub record Modes {F S R W : Type 0} (driver : Driver F S R W) (auto_commit : S → Bool)
    (IsPlain : Bytes → Type 0) : Type 0 where
  pub set : (b : Bool) (c : S) → ModeSet auto_commit b c (driver.set_auto_commit b c)
  pub commit : (c : S) → auto_commit (driver.commit c).1 ≡ auto_commit c
  pub rollback : (c : S) → auto_commit (driver.rollback c).1 ≡ auto_commit c
  pub create_statement : (c : S) → auto_commit (driver.create_statement c).1 ≡ auto_commit c
  pub execute_query :
      (s : Bytes) (c : S) → IsPlain s → auto_commit (driver.execute_query s c).1 ≡ auto_commit c
  pub execute : (s : Bytes) (c : S) → IsPlain s → auto_commit (driver.execute s c).1 ≡ auto_commit c
  pub prepare_statement :
      (s : Bytes) (c : S) → auto_commit (driver.prepare_statement s c).1 ≡ auto_commit c
  pub execute_prepared_query :
      (s : Bytes) (bs : List (ℕ × Bound F)) (c : S)
      → IsPlain s
      → auto_commit (driver.execute_prepared_query s bs c).1 ≡ auto_commit c
  pub execute_prepared :
      (s : Bytes) (bs : List (ℕ × Bound F)) (c : S)
      → IsPlain s
      → auto_commit (driver.execute_prepared s bs c).1 ≡ auto_commit c

module _ {F S R W : Type 0} (driver : Driver F S R W) (auto_commit : S → Bool)
    (IsPlain : Bytes → Type 0) (modes : Modes driver auto_commit IsPlain) where
  abbrev IsOn : Option S → Type 0
  IsOn none = Unit
  IsOn (some c) = auto_commit c ≡ true

  -- There is no connection, or its mode is on.
  abbrev pub IsIdle : MySqlConnection S → Type 0
  IsIdle m = IsOn m.conn

  module _ {T : Type 0} where
    on_conn-keeps :
        (absent : T) (f : S → T × S) (o : Option S) (m : MySqlConnection S)
        → m.conn ≡ o
        → ((c : S) → auto_commit c ≡ true → auto_commit (f c).1 ≡ true)
        → IsIdle m
        → IsIdle (on_conn driver absent f o m).1
    on_conn-keeps absent f none m e k h = h
    on_conn-keeps absent f (some c) m e k h = elim (Bool-cases (driver.is_closed c)) [
      | inl t ↦ rw (t) h
      | inr t ↦ rw (t) (k c (subst IsOn e h))
    ]

    -- An operation that succeeds has been done on a connection.
    on_conn-ends :
        (is_ok : T → Bool) (absent : T) (f : S → T × S) (o : Option S) (m : MySqlConnection S)
        → is_ok absent ≡ false
        → ((c : S) → is_ok (f c).0 ≡ true → auto_commit (f c).1 ≡ true)
        → is_ok (on_conn driver absent f o m).0 ≡ true
        → IsIdle (on_conn driver absent f o m).1
    on_conn-ends is_ok absent f none m a k h = absurd (ground (arith, a, h))
    on_conn-ends is_ok absent f (some c) m a k h = elim (Bool-cases (driver.is_closed c)) [
      | inl t ↦ absurd (let g = rw (t) at h in ground (arith, a, g))
      | inr t ↦ rw (t) (k c (rw (t) at h))
    ]

  restored :
      (c : S) (r : Try Unit × S)
      → ModeSet auto_commit true c r
      → (answered r).0.ok ≡ true
      → auto_commit (answered r).1 ≡ true
  restored c (done u, d) s h = s
  restored c (thrown e, d) s h = absurd (ground (arith, h))

  restore-ends :
      (r : Try Unit × S) → (restore driver r).0.ok ≡ true → auto_commit (restore driver r).1 ≡ true
  restore-ends (done u, c) h = restored c _ (modes.set true c) h
  restore-ends (thrown e, c) h = absurd (ground (arith, h))

  set_keeps :
      (c : S) (r : Try Unit × S)
      → ModeSet auto_commit true c r
      → auto_commit c ≡ true
      → auto_commit (answered r).1 ≡ true
  set_keeps c (done u, d) s h = s
  set_keeps c (thrown e, d) s h = s ∙ h

  restore-keeps :
      (r : Try Unit × S) → auto_commit r.1 ≡ true → auto_commit (restore driver r).1 ≡ true
  restore-keeps (done u, c) h = set_keeps c _ (modes.set true c) h
  restore-keeps (thrown e, c) h = h

  begun :
      (c : S) (r : Try Unit × S)
      → ModeSet auto_commit false c r
      → (answered r).0.ok ≡ false
      → auto_commit c ≡ true
      → auto_commit (answered r).1 ≡ true
  begun c (done u, d) s e h = absurd (ground (arith, e))
  begun c (thrown m, d) s e h = s ∙ h

  queried-keeps : (r : Try R × S) → auto_commit (queried driver r).1 ≡ auto_commit r.1
  queried-keeps (done rs, c) = refl
  queried-keeps (thrown e, c) = refl

  query_with-keeps :
      (f : S → Try R × S) (r : Try Bool × S)
      → ((c : S) → auto_commit (f c).1 ≡ auto_commit c)
      → auto_commit (query_with driver f r).1 ≡ auto_commit r.1
  query_with-keeps f (done true, c) k = queried-keeps (f c) ∙ k c
  query_with-keeps f (done false, c) k = refl
  query_with-keeps f (thrown e, c) k = refl

  run_query-keeps :
      (sql : Bytes) (args : List (SqlValue F)) (c : S)
      → IsPlain sql
      → auto_commit (run_query driver sql args c).1 ≡ auto_commit c
  run_query-keeps sql [] c p =
      query_with-keeps (driver.execute_query sql) _ (λ c. modes.execute_query sql c p)
      ∙ modes.create_statement c
  run_query-keeps sql (v ∷ vs) c p =
      query_with-keeps (driver.execute_prepared_query sql _) _
        (λ c. modes.execute_prepared_query sql _ c p)
      ∙ modes.prepare_statement sql c

  executed-keeps : (r : Try ℕ × S) → auto_commit (executed driver r).1 ≡ auto_commit r.1
  executed-keeps (done n, c) = refl
  executed-keeps (thrown e, c) = refl

  execute_with-keeps :
      (f : S → Try ℕ × S) (r : Try Bool × S)
      → ((c : S) → auto_commit (f c).1 ≡ auto_commit c)
      → auto_commit (execute_with driver f r).1 ≡ auto_commit r.1
  execute_with-keeps f (done true, c) k = executed-keeps (f c) ∙ k c
  execute_with-keeps f (done false, c) k = refl
  execute_with-keeps f (thrown e, c) k = refl

  run_execute-keeps :
      (sql : Bytes) (args : List (SqlValue F)) (c : S)
      → IsPlain sql
      → auto_commit (run_execute driver sql args c).1 ≡ auto_commit c
  run_execute-keeps sql [] c p =
      execute_with-keeps (driver.execute sql) _ (λ c. modes.execute sql c p)
      ∙ modes.create_statement c
  run_execute-keeps sql (v ∷ vs) c p =
      execute_with-keeps (driver.execute_prepared sql _) _ (λ c. modes.execute_prepared sql _ c p)
      ∙ modes.prepare_statement sql c

  begin-fails :
      (m : MySqlConnection S) → IsIdle m → (begin driver m).0.ok ≡ false → IsIdle (begin driver m).1
  unfolding begin
  begin-fails m h e = on_begin m.conn refl e
    where
      on_begin :
          (o : Option S)
          → m.conn ≡ o
          → (on_conn driver
              (failure (codes "no connected"))
              (λ c. answered (driver.set_auto_commit false c))
              o
              m).0.ok
            ≡ false
          → IsIdle
              (on_conn driver
                (failure (codes "no connected"))
                (λ c. answered (driver.set_auto_commit false c))
                o
                m).1
      on_begin none i e = h
      on_begin (some c) i e = elim (Bool-cases (driver.is_closed c)) [
        | inl t ↦ rw (t) h
        | inr t ↦ rw (t) (begun c _ (modes.set false c) (rw (t) at e) (subst IsOn i h))
      ]

  -- `MySqlConnection` does what SqlTransaction needs of an `ISqlConnection`.
  pub my_sql-EndsTransactions : EndsTransactions (my_sql driver) IsIdle IsPlain
  unfolding commit rollback query execute
  my_sql-EndsTransactions = record {
    begin_failed = begin-fails;
    committed = λ m h.
        on_conn-ends (λ r. r.ok) _ (λ c. restore driver (driver.commit c)) m.conn m refl
          (λ c k. restore-ends (driver.commit c) k) h;
    commit_idle = λ m h.
        on_conn-keeps _ (λ c. restore driver (driver.commit c)) m.conn m refl
          (λ c k. restore-keeps (driver.commit c) (modes.commit c ∙ k)) h;
    rolled_back = λ m h.
        on_conn-ends (λ r. r.ok) _ (λ c. restore driver (driver.rollback c)) m.conn m refl
          (λ c k. restore-ends (driver.rollback c) k) h;
    query_idle = λ sql args m p h.
        on_conn-keeps _ (run_query driver sql args) m.conn m refl
          (λ c k. run_query-keeps sql args c p ∙ k) h;
    execute_idle = λ sql args m p h.
        on_conn-keeps _ (run_execute driver sql args) m.conn m refl
          (λ c k. run_execute-keeps sql args c p ∙ k) h;
  }

  -- A transaction on a MySQL connection whose auto-commit mode is on, or that has no connection, leaves
  -- it so when it is destroyed, whatever is called and whatever the client library throws, if no
  -- rollback fails and no statement that is sent behind the end of the transaction, or without its
  -- beginning, changes the mode by itself. What is sent while the transaction is open may be any
  -- statement.
  pub destroy-IsIdle :
      (cs : List (Call F)) (m : MySqlConnection S)
      → IsIdle m
      → ArePlain (my_sql driver) IsPlain cs (Transaction.begin (my_sql driver) m)
      → rollback_fails (my_sql driver) cs (Transaction.begin (my_sql driver) m) ≡ false
      → IsIdle
          (destroy (my_sql driver) (calls (my_sql driver) cs (Transaction.begin (my_sql driver) m)))
  destroy-IsIdle cs m h p f =
      destroy-calls (my_sql driver) IsIdle IsPlain my_sql-EndsTransactions cs m h p f
