-- ===== src/Sql/ThreadConn/Total.antt =====
-- src/persistence/ThreadLocalSqlConn.cpp: a use of a thread's connection has a connection to use.
use cpp_reactor.Base.{
  ℕ, ◌≡◌, refl, Bool, true, false, Option, none, some, arith, if◌then◌else◌, Bytes, codes, ◌++◌,
  ◌⊎◌, inl, inr,
}
use cpp_reactor.Sql.{SqlConnection}
use cpp_reactor.Sql.ThreadConn.{
  ConnOptions, Slot, Outcome, returns, throws, faults, must_connect, close_conn, ping_conn,
  reconnect, then_ping, ensure_connected, use_conn, then_use, with_connection,
}

abbrev HasConn : {D : Type 0} → Option D → Type 0
HasConn none = ⊥
HasConn (some d) = Unit

module _ {F D : Type 0} (db : SqlConnection F D) where
  -- Connecting or pinging some connection failed, and this is the exception that reports it.
  abbrev pub HasFailed : Bytes → Type 0
  HasFailed e =
      ((d : D) × ((db.connect d).0.ok ≡ false)
        × (e ≡ codes "sql connect failed: " ++ (db.connect d).0.err.message))
      ⊎ ((d : D) × ((db.ping d).0.ok ≡ false)
          × (e ≡ codes "sql ping failed: " ++ (db.ping d).0.err.message))

  abbrev Ensured : Outcome Unit D → Type 0
  Ensured (returns u s) = HasConn s.conn
  Ensured (throws e s) = HasFailed e
  Ensured faults = ⊥

  if-Ensured :
      (b : Bool) (x y : Outcome Unit D)
      → (b ≡ true → Ensured x)
      → (b ≡ false → Ensured y)
      → Ensured (if b then x else y)
  if-Ensured true x y hx hy = hx refl
  if-Ensured false x y hx hy = hy refl

module _ {F R D : Type 0} (db : SqlConnection F D) where
  -- What is returned is what the function returns on a connection, and what is thrown reports that
  -- connecting or pinging failed; the null pointer is not followed.
  abbrev pub IsUse : (D → R × D) → Outcome R D → Type 0
  IsUse fn (returns r s) = (d : D) × (r ≡ (fn d).0)
  IsUse fn (throws e s) = HasFailed db e
  IsUse fn faults = ⊥

  use_conn-IsUse :
      (now : ℕ) (fn : D → R × D) (o : Option D) (s : Slot D)
      → HasConn o
      → IsUse fn (use_conn now fn o s)
  use_conn-IsUse now fn none s h = elim h [ ]
  use_conn-IsUse now fn (some d) s h = (d, refl)

  then_use-IsUse :
      (now : ℕ) (fn : D → R × D) (o : Outcome Unit D) → Ensured db o → IsUse fn (then_use now fn o)
  then_use-IsUse now fn (returns u s) h = use_conn-IsUse now fn s.conn s h
  then_use-IsUse now fn (throws e s) h = h
  then_use-IsUse now fn faults h = elim h [ ]

module _ {F D : Type 0} (db : SqlConnection F D) (cfg : ConnOptions) (factory : ℕ → D) where
  ping_conn-Ensured : (o : Option D) (s : Slot D) → HasConn o → Ensured db (ping_conn db o s)
  ping_conn-Ensured none s h = elim h [ ]
  ping_conn-Ensured (some d) s h =
      if-Ensured db (db.ping d).0.ok _ _ (λ e. tt) (λ e. inr (d, e, refl))

  reconnect-Ensured : (now : ℕ) (s : Slot D) → Ensured db (reconnect db factory now s)
  reconnect-Ensured now s =
      let d = factory s.made in
      if-Ensured db (db.connect d).0.ok _ _ (λ e. tt) (λ e. inl (d, e, refl))

  then_ping-Ensured : (b : Bool) (o : Outcome Unit D) → Ensured db o → Ensured db (then_ping db b o)
  then_ping-Ensured true (returns u s) h = ping_conn-Ensured s.conn s h
  then_ping-Ensured false (returns u s) h = h
  then_ping-Ensured b (throws e s) h = h
  then_ping-Ensured b faults h = elim h [ ]

  kept : (now : ℕ) (o : Option D) (s : Slot D) → must_connect cfg now o s ≡ false → HasConn o
  unfolding must_connect
  kept now none s h = absurd (ground arith)
  kept now (some d) s h = tt

  -- A use of the connection returns what the function returns on some connection, or throws since
  -- connecting or pinging failed.
  pub with_connection-IsUse :
      (R : Type 0) (now later : ℕ) (fn : D → R × D) (s : Slot D)
      → IsUse db fn (with_connection db cfg factory now later fn s)
  unfolding with_connection ensure_connected
  with_connection-IsUse R now later fn s = then_use-IsUse db later fn _ (
      then_ping-Ensured cfg.ping_before_use _ (
        if-Ensured db (must_connect cfg now s.conn s) _ _
          (λ e. reconnect-Ensured now (close_conn db s.conn s)) (kept now s.conn s)))
