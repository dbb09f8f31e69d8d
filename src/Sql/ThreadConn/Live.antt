-- ===== src/Sql/ThreadConn/Live.antt =====
-- include/persistence/ThreadLocalSqlConn.hpp: the connection that a function gets.
use cpp_reactor.Base.{
  ℕ, ◌-◌, ◌≤◌, ◌<◌, ◌≡◌, refl, Bool, true, false, Option, none, some, ltb, if◌then◌else◌,
  Bool-cases, inl, inr, ◌⊎◌, tests, arith, ltb→lt,
}
use cpp_reactor.Sql.{SqlConnection}
use cpp_reactor.Sql.ThreadConn.{
  ConnOptions, Slot, Outcome, returns, throws, faults, ms, must_connect, close_conn, reconnect,
  ping_conn, then_ping, ensure_connected,
}

-- What a driver does: `connect` that succeeds opens the connection, and `ping` leaves it open.
pub record Opens {F D : Type 0} (db : SqlConnection F D) (IsOpen : D → Type 0) : Type 0 where
  pub connect_open : (d : D) → (db.connect d).0.ok ≡ true → IsOpen (db.connect d).1
  pub ping_open : (d : D) → IsOpen d → IsOpen (db.ping d).1

module _ {F D : Type 0} (db : SqlConnection F D) (IsOpen : D → Type 0) (laws : Opens db IsOpen)
    (cfg : ConnOptions) where
  abbrev pub HasOpen : Option D → Type 0
  HasOpen none = ⊥
  HasOpen (some d) = IsOpen d

  -- At time `t`, the next use connects anew.
  abbrev pub IsDoubtful : ℕ → Slot D → Type 0
  IsDoubtful t s =
      (s.broken ≡ true)
      ⊎ ((ms cfg.max_conn_idle_ms < t - s.last_used)
          ⊎ (ms cfg.max_conn_lifetime_ms < t - s.created))

  abbrev pub IsReady : ℕ → Slot D → Type 0
  IsReady t s = HasOpen s.conn ⊎ IsDoubtful t s

  IsDoubtful-later : (t u : ℕ) (s : Slot D) → t ≤ u → IsDoubtful t s → IsDoubtful u s
  IsDoubtful-later t u s h (inl b) = inl b
  IsDoubtful-later t u s h (inr (inl l)) = inr (inl (omega arith))
  IsDoubtful-later t u s h (inr (inr l)) = inr (inr (omega arith))

  pub IsReady-later : (t u : ℕ) (s : Slot D) → t ≤ u → IsReady t s → IsReady u s
  IsReady-later t u s h (inl o) = inl o
  IsReady-later t u s h (inr d) = inr (IsDoubtful-later t u s h d)

  IsDoubtful-tests :
      (now : ℕ) (d : D) (s : Slot D) → must_connect cfg now (some d) s ≡ true → IsDoubtful now s
  unfolding must_connect
  IsDoubtful-tests now d s h = elim (Bool-cases s.broken) [
    | inl b ↦ inl b
    | inr b ↦ elim (Bool-cases (ltb (ms cfg.max_conn_idle_ms) (now - s.last_used))) [
      | inl i ↦ inr (inl (ltb→lt _ _ i))
      | inr i ↦ inr (inr (ltb→lt _ _ (ground (arith, h, b, i))))
    ]
  ]

  doubtful :
      (now : ℕ) (o : Option D) (s : Slot D)
      → HasOpen o ⊎ IsDoubtful now s
      → must_connect cfg now o s ≡ true
      → IsDoubtful now s
  doubtful now none s (inl h) e = elim h [ ]
  doubtful now none s (inr h) e = h
  doubtful now (some d) s h e = IsDoubtful-tests now d s e

  sure :
      (now : ℕ) (o : Option D) (s : Slot D)
      → HasOpen o ⊎ IsDoubtful now s
      → must_connect cfg now o s ≡ false
      → HasOpen o
  unfolding must_connect
  sure now o s (inl h) e = h
  sure now none s (inr h) e = absurd (ground arith)
  sure now (some d) s (inr (inl b)) e = absurd (ground (arith, b, e))
  sure now (some d) s (inr (inr (inl l))) e = absurd (grind (arith, tests, l, e))
  sure now (some d) s (inr (inr (inr l))) e = absurd (grind (arith, tests, l, e))

  -- What `ensureConnected_` leaves.
  abbrev pub Ensured : ℕ → Outcome Unit D → Type 0
  Ensured now (returns u s) = HasOpen s.conn
  Ensured now (throws e s) = IsReady now s
  Ensured now faults = ⊥

  if-Ensured :
      (b : Bool) (now : ℕ) (x y : Outcome Unit D)
      → (b ≡ true → Ensured now x)
      → (b ≡ false → Ensured now y)
      → Ensured now (if b then x else y)
  if-Ensured true now x y hx hy = hx refl
  if-Ensured false now x y hx hy = hy refl

  reconnect-Ensured :
      (factory : ℕ → D) (now : ℕ) (s : Slot D)
      → IsDoubtful now s
      → Ensured now (reconnect db factory now s)
  reconnect-Ensured factory now s h =
      if-Ensured (db.connect (factory s.made)).0.ok now _ _ (laws.connect_open (factory s.made))
        (λ e. inr h)

  close-IsDoubtful :
      (now : ℕ) (o : Option D) (s : Slot D) → IsDoubtful now s → IsDoubtful now (close_conn db o s)
  close-IsDoubtful now none s h = h
  close-IsDoubtful now (some d) s h = h

  ping-Ensured : (now : ℕ) (o : Option D) (s : Slot D) → HasOpen o → Ensured now (ping_conn db o s)
  ping-Ensured now none s h = elim h [ ]
  ping-Ensured now (some d) s h =
      if-Ensured (db.ping d).0.ok now _ _ (λ e. laws.ping_open d h) (λ e. inr (inl refl))

  then_ping-Ensured :
      (b : Bool) (now : ℕ) (o : Outcome Unit D) → Ensured now o → Ensured now (then_ping db b o)
  then_ping-Ensured true now (returns u s) h = ping-Ensured now s.conn s h
  then_ping-Ensured false now (returns u s) h = h
  then_ping-Ensured b now (throws e s) h = h
  then_ping-Ensured b now faults h = elim h [ ]

  pub ensure_connected-Ensured :
      (factory : ℕ → D) (now : ℕ) (s : Slot D)
      → IsReady now s
      → Ensured now (ensure_connected db cfg factory now s)
  unfolding ensure_connected
  ensure_connected-Ensured factory now s h = then_ping-Ensured cfg.ping_before_use now _ (
      if-Ensured (must_connect cfg now s.conn s) now _ _
        (λ e.
          reconnect-Ensured factory now (close_conn db s.conn s)
            (close-IsDoubtful now s.conn s (doubtful now s.conn s h e)))
        (λ e. sure now s.conn s h e))
