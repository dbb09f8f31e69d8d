-- ===== src/Sql/Transaction.antt =====
-- include/persistence/SqlTransaction.hpp and src/persistence/SqlTransaction.cpp.
use cpp_reactor.Base.{
  ℕ, ◌≡◌, refl, Bool, true, false, not, ◌&&◌, ◌||◌, arith, List, [], ◌∷◌, Bytes, if◌then◌else◌,
  Bool-cases, inl, inr, ◌⊎◌,
}
use cpp_reactor.Sql.{SqlConnection, SqlValue, SqlRows, Result, VoidResult}

-- `conn` is the connection that is referred to.
pub record SqlTransaction (D : Type 0) : Type 0 where
  pub conn : D
  pub begun : VoidResult
  pub finished : Bool

module _ {F D : Type 0} (db : SqlConnection F D) where
  -- The constructor.
  unfoldable pub begin : D → SqlTransaction D
  begin d = record { conn = (db.begin d).1; begun = (db.begin d).0; finished = false }

  abbrev pub valid : SqlTransaction D → Bool
  valid t = t.begun.ok

  unfoldable pub commit : SqlTransaction D → VoidResult × SqlTransaction D
  commit t =
      let (res, d) = db.commit t.conn in
      (res, record t { conn = d; finished = if res.ok then true else t.finished })

  unfoldable pub rollback : SqlTransaction D → VoidResult × SqlTransaction D
  rollback t = let (res, d) = db.rollback t.conn in (res, record t { conn = d; finished = true })

  unfoldable pub query :
      Bytes → List (SqlValue F) → SqlTransaction D → Result (SqlRows F) × SqlTransaction D
  query sql args t = let (res, d) = db.query sql args t.conn in (res, record t { conn = d })

  unfoldable pub execute :
      Bytes → List (SqlValue F) → SqlTransaction D → Result ℕ × SqlTransaction D
  execute sql args t = let (res, d) = db.execute sql args t.conn in (res, record t { conn = d })

  -- The destructor, and the connection that it leaves.
  unfoldable pub destroy : SqlTransaction D → D
  destroy t = if not t.finished && t.begun.ok then (db.rollback t.conn).1 else t.conn

neither : (a b : Bool) → (a || b) ≡ false → (a ≡ false) × (b ≡ false)
neither a b h = ground arith

-- A call on a transaction.
pub data Call (F : Type 0) : Type 0 where
  commits rolls_back : Call F
  queries executes : Bytes → List (SqlValue F) → Call F

module _ {F D : Type 0} (db : SqlConnection F D) where
  unfoldable pub call : Call F → SqlTransaction D → SqlTransaction D
  call commits t = (commit db t).1
  call rolls_back t = (rollback db t).1
  call (queries sql args) t = (query db sql args t).1
  call (executes sql args) t = (execute db sql args t).1

  unfoldable pub calls : List (Call F) → SqlTransaction D → SqlTransaction D
  unfolding call
  calls [] t = t
  calls (c ∷ cs) t = calls cs (call c t)

module _ {F D : Type 0} (db : SqlConnection F D) where
  -- Whether a rollback that is called, or that the destructor calls, fails.
  abbrev pub call_fails : Call F → SqlTransaction D → Bool
  call_fails rolls_back t = not (rollback db t).0.ok
  call_fails _ t = false

  abbrev pub destroy_fails : SqlTransaction D → Bool
  destroy_fails t = if not t.finished && t.begun.ok then not (db.rollback t.conn).0.ok else false

  unfoldable pub rollback_fails : List (Call F) → SqlTransaction D → Bool
  unfolding call rollback
  rollback_fails [] t = destroy_fails t
  rollback_fails (c ∷ cs) t = call_fails c t || rollback_fails cs (call db c t)

-- What a driver does about transactions: `IsIdle` are the connections with no open transaction, and
-- `IsPlain` the statements that do not open one by themselves. `begin` that fails opens none, `commit`
-- and `rollback` that succeed end it, and plain statements open none.
pub record EndsTransactions {F D : Type 0} (db : SqlConnection F D) (IsIdle : D → Type 0)
    (IsPlain : Bytes → Type 0) : Type 0 where
  pub begin_failed : (d : D) → IsIdle d → (db.begin d).0.ok ≡ false → IsIdle (db.begin d).1
  pub committed : (d : D) → (db.commit d).0.ok ≡ true → IsIdle (db.commit d).1
  pub commit_idle : (d : D) → IsIdle d → IsIdle (db.commit d).1
  pub rolled_back : (d : D) → (db.rollback d).0.ok ≡ true → IsIdle (db.rollback d).1
  pub query_idle :
      (sql : Bytes) (args : List (SqlValue F)) (d : D)
      → IsPlain sql
      → IsIdle d
      → IsIdle (db.query sql args d).1
  pub execute_idle :
      (sql : Bytes) (args : List (SqlValue F)) (d : D)
      → IsPlain sql
      → IsIdle d
      → IsIdle (db.execute sql args d).1

-- The transaction has been committed or rolled back, or it did not begin.
abbrev pub IsOver : {D : Type 0} → SqlTransaction D → Type 0
IsOver t = (t.finished ≡ true) ⊎ (t.begun.ok ≡ false)

-- A statement that is sent when the transaction is over, or did not begin, is plain. One that is sent
-- while it is open may be any.
abbrev pub IsPlainSent : {D : Type 0} → (Bytes → Type 0) → Bytes → SqlTransaction D → Type 0
IsPlainSent IsPlain sql t = IsOver t → IsPlain sql

abbrev pub IsPlainCall : {F D : Type 0} → (Bytes → Type 0) → Call F → SqlTransaction D → Type 0
IsPlainCall IsPlain (queries sql args) t = IsPlainSent IsPlain sql t
IsPlainCall IsPlain (executes sql args) t = IsPlainSent IsPlain sql t
IsPlainCall IsPlain _ t = Unit

module _ {F D : Type 0} (db : SqlConnection F D) (IsPlain : Bytes → Type 0) where
  -- The calls on a transaction, each in the state that it is made in.
  abbrev pub ArePlain : List (Call F) → SqlTransaction D → Type 0
  ArePlain [] t = Unit
  ArePlain (c ∷ cs) t = IsPlainCall IsPlain c t × ArePlain cs (call db c t)

module _ {F D : Type 0} (db : SqlConnection F D) (IsIdle : D → Type 0) (IsPlain : Bytes → Type 0)
    (laws : EndsTransactions db IsIdle IsPlain) where
  -- A transaction that is over, or that did not begin, has left its connection idle.
  abbrev IsTracked : SqlTransaction D → Type 0
  IsTracked t = ((t.finished ≡ false) × (t.begun.ok ≡ true)) ⊎ (IsOver t × IsIdle t.conn)

  begin-IsTracked : (d : D) → IsIdle d → IsTracked (begin db d)
  unfolding begin
  begin-IsTracked d i = elim (Bool-cases (db.begin d).0.ok) [
    | inl e ↦ inl (refl, e)
    | inr e ↦ inr (inr e, laws.begin_failed d i e)
  ]

  finished_still : (b finished : Bool) → finished ≡ true → (if b then true else finished) ≡ true
  finished_still b finished h = ground (arith, h)

  commit-IsOver : (t : SqlTransaction D) → IsOver t → IsOver (commit db t).1
  unfolding commit
  commit-IsOver t (inl h) = inl (finished_still _ _ h)
  commit-IsOver t (inr h) = inr h

  commit-IsTracked : (t : SqlTransaction D) → IsTracked t → IsTracked (commit db t).1
  unfolding commit
  commit-IsTracked t (inr h) = inr (commit-IsOver t h.0, laws.commit_idle t.conn h.1)
  commit-IsTracked t (inl h) = elim (Bool-cases (db.commit t.conn).0.ok) [
    | inl e ↦ inr (inl (rw (e) refl), laws.committed t.conn e)
    | inr e ↦ inl (rw (e) h.0, h.1)
  ]

  query-IsTracked :
      (sql : Bytes) (args : List (SqlValue F)) (t : SqlTransaction D)
      → IsPlainSent IsPlain sql t
      → IsTracked t
      → IsTracked (query db sql args t).1
  unfolding query
  query-IsTracked sql args t p (inl h) = inl h
  query-IsTracked sql args t p (inr h) = inr (h.0, laws.query_idle sql args t.conn (p h.0) h.1)

  execute-IsTracked :
      (sql : Bytes) (args : List (SqlValue F)) (t : SqlTransaction D)
      → IsPlainSent IsPlain sql t
      → IsTracked t
      → IsTracked (execute db sql args t).1
  unfolding execute
  execute-IsTracked sql args t p (inl h) = inl h
  execute-IsTracked sql args t p (inr h) = inr (h.0, laws.execute_idle sql args t.conn (p h.0) h.1)

  call-IsTracked :
      (c : Call F) (t : SqlTransaction D)
      → IsPlainCall IsPlain c t
      → call_fails db c t ≡ false
      → IsTracked t
      → IsTracked (call db c t)
  unfolding call rollback
  call-IsTracked commits t p f h = commit-IsTracked t h
  call-IsTracked rolls_back t p f h = inr (inl refl, laws.rolled_back t.conn (ground (arith, f)))
  call-IsTracked (queries sql args) t p f h = query-IsTracked sql args t p h
  call-IsTracked (executes sql args) t p f h = execute-IsTracked sql args t p h

  destroy-IsIdle_tracked :
      (t : SqlTransaction D) → destroy_fails db t ≡ false → IsTracked t → IsIdle (destroy db t)
  unfolding destroy
  destroy-IsIdle_tracked t f h = elim (Bool-cases (not t.finished && t.begun.ok)) [
    | inl e ↦ rw (e) (laws.rolled_back t.conn (let g = rw (e) at f in ground (arith, g)))
    | inr e ↦ rw (e) (left t h e)
  ]
    where
      left :
          (t : SqlTransaction D)
          → IsTracked t
          → (not t.finished && t.begun.ok) ≡ false
          → IsIdle t.conn
      left t (inl k) e = absurd (ground (arith, k, e))
      left t (inr k) e = k.1

  calls-IsIdle :
      (cs : List (Call F)) (t : SqlTransaction D)
      → ArePlain db IsPlain cs t
      → rollback_fails db cs t ≡ false
      → IsTracked t
      → IsIdle (destroy db (calls db cs t))
  unfolding calls rollback_fails
  calls-IsIdle [] t p f h = destroy-IsIdle_tracked t f h
  calls-IsIdle (c ∷ cs) t p f h =
      let (a, b) = neither (call_fails db c t) _ f in
      calls-IsIdle cs (call db c t) p.1 b (call-IsTracked c t p.0 a h)

  -- Whatever is called on a transaction that begins on an idle connection, in any order, and whether
  -- `begin` and the commits succeed, when it is destroyed its connection has no open transaction, if no
  -- rollback fails, if no statement that is sent behind the end of the transaction, or without its
  -- beginning, opens one by itself, and if the driver ends transactions as the interface asks.
  -- What is sent while the transaction is open may be any statement.
  pub destroy-calls :
      (cs : List (Call F)) (d : D)
      → IsIdle d
      → ArePlain db IsPlain cs (begin db d)
      → rollback_fails db cs (begin db d) ≡ false
      → IsIdle (destroy db (calls db cs (begin db d)))
  destroy-calls cs d i p f = calls-IsIdle cs (begin db d) p f (begin-IsTracked d i)
