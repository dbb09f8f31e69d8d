-- ===== src/Sql/ThreadConn.antt =====
-- include/persistence/ThreadLocalSqlConn.hpp and src/persistence/ThreadLocalSqlConn.cpp: the
-- connection of a thread. Times are in nanoseconds of the steady clock, whose epoch is 0; a time at
-- which the source reads the clock is an argument. `factory` gives the n-th connection that it makes.
-- An exception is the message of its `what`.
pub mod Live
pub mod Uses
pub mod Total
use cpp_reactor.Base.{
  ℕ, ◌+◌, ◌-◌, ◌*◌, Bool, true, false, ◌||◌, Option, none, some, List, [], ◌∷◌, Bytes, codes, ◌++◌,
  ltb, if◌then◌else◌,
}
use cpp_reactor.Sql.{SqlConnection, VoidResult}

pub record ConnOptions : Type 0 where
  pub ping_before_use : Bool
  pub max_conn_lifetime_ms : ℕ
  pub max_conn_idle_ms : ℕ

-- `made` is how many connections the factory has made, and `closed` lists those that were closed and
-- dropped, the last one first.
pub record Slot (D : Type 0) : Type 0 where
  pub conn : Option D
  pub created : ℕ
  pub last_used : ℕ
  pub broken : Bool
  pub made : ℕ
  pub closed : List D

-- What a function returns, or the exception that it throws, and the slot that it leaves. It faults
-- where the null pointer is followed.
pub data Outcome (R D : Type 0) : Type 0 where
  returns : R → Slot D → Outcome R D
  throws : Bytes → Slot D → Outcome R D
  faults : Outcome R D

abbrev pub ms : ℕ → ℕ
ms n = n * 1_000_000

module _ {D : Type 0} where
  -- The slot of a new thread.
  abbrev pub new_slot : ℕ → Slot D
  new_slot made = record {
    conn = none;
    created = 0;
    last_used = 0;
    broken = false;
    made = made;
    closed = [];
  }

  unfoldable pub must_connect : ConnOptions → ℕ → Option D → Slot D → Bool
  must_connect cfg now none s = true
  must_connect cfg now (some d) s =
      s.broken
      || ltb (ms cfg.max_conn_lifetime_ms) (now - s.created)
      || ltb (ms cfg.max_conn_idle_ms) (now - s.last_used)

module _ {F D : Type 0} (db : SqlConnection F D) where
  abbrev pub close_conn : Option D → Slot D → Slot D
  close_conn none s = s
  close_conn (some d) s = record s { conn = none; closed = db.close d ∷ s.closed }

  -- What follows `connect` on the new connection.
  abbrev pub connected : ℕ → VoidResult × D → Slot D → Outcome Unit D
  connected now (res, d) s =
      if res.ok
      then returns tt (record s { conn = some d; created = now; last_used = now; broken = false })
      else throws (codes "sql connect failed: " ++ res.err.message) (record s { conn = some d })

  abbrev pub reconnect : (ℕ → D) → ℕ → Slot D → Outcome Unit D
  reconnect factory now s =
      connected now (db.connect (factory s.made)) (record s { made = s.made + 1 })

  abbrev pub pinged : VoidResult × D → Slot D → Outcome Unit D
  pinged (res, d) s =
      if res.ok
      then returns tt (record s { conn = some d })
      else throws (codes "sql ping failed: " ++ res.err.message)
          (record s { conn = some d; broken = true })

  abbrev pub ping_conn : Option D → Slot D → Outcome Unit D
  ping_conn none s = faults
  ping_conn (some d) s = pinged (db.ping d) s

  abbrev pub then_ping : Bool → Outcome Unit D → Outcome Unit D
  then_ping before_use (returns u s) = if before_use then ping_conn s.conn s else returns u s
  then_ping before_use (throws e s) = throws e s
  then_ping before_use faults = faults

  unfoldable pub ensure_connected : ConnOptions → (ℕ → D) → ℕ → Slot D → Outcome Unit D
  unfolding must_connect
  ensure_connected cfg factory now s = then_ping cfg.ping_before_use (
      if must_connect cfg now s.conn s
      then reconnect factory now (close_conn s.conn s)
      else returns tt s)

  unfoldable pub cleanup_current_thread : Slot D → Slot D
  cleanup_current_thread s = record (close_conn s.conn s) { conn = none; broken = false }

module _ {R D : Type 0} where
  abbrev pub use_conn : ℕ → (D → R × D) → Option D → Slot D → Outcome R D
  use_conn now fn none s = faults
  use_conn now fn (some d) s = returns (fn d).0 (record s { conn = some (fn d).1; last_used = now })

  abbrev pub then_use : ℕ → (D → R × D) → Outcome Unit D → Outcome R D
  then_use now fn (returns u s) = use_conn now fn s.conn s
  then_use now fn (throws e s) = throws e s
  then_use now fn faults = faults

module _ {F R D : Type 0} (db : SqlConnection F D) where
  -- `now` is the time that `ensureConnected_` reads, `later` the one that is read after it.
  unfoldable pub with_connection :
      ConnOptions → (ℕ → D) → ℕ → ℕ → (D → R × D) → Slot D → Outcome R D
  unfolding ensure_connected
  with_connection cfg factory now later fn s =
      then_use later fn (ensure_connected db cfg factory now s)
