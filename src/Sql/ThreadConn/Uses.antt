-- ===== src/Sql/ThreadConn/Uses.antt =====
-- include/persistence/ThreadLocalSqlConn.hpp: the uses of a thread's connection one after the other.
use cpp_reactor.Base.{
  ℕ, ◌≤◌, ◌<◌, ◌≡◌, refl, Option, none, some, List, [], ◌∷◌, All, inl, inr, arith,
}
use cpp_reactor.Sql.{SqlConnection}
use cpp_reactor.Sql.ThreadConn.{
  ConnOptions, Slot, Outcome, returns, throws, faults, ms, new_slot, use_conn, then_use,
  with_connection,
}
use cpp_reactor.Sql.ThreadConn.Live.{
  Opens, HasOpen, IsReady, Ensured, IsReady-later, ensure_connected-Ensured,
}

-- A call of `withConnection`: the times that it reads, and what its function does to the connection.
pub record Use (D : Type 0) : Type 0 where
  pub now : ℕ
  pub later : ℕ
  pub fn : D → D

module _ {D : Type 0} where
  -- The function that also tells which connection it got.
  abbrev pub watch : (D → D) → D → D × D
  watch fn d = (d, fn d)

  -- The clock does not go back.
  abbrev pub IsTimed : ℕ → List (Use D) → Type 0
  IsTimed t [] = Unit
  IsTimed t (u ∷ us) = (t ≤ u.now) × (u.now ≤ u.later) × IsTimed u.later us

  abbrev pub put : D → Option (List D) → Option (List D)
  put d none = none
  put d (some ds) = some (d ∷ ds)

  abbrev pub then_seen : (Slot D → Option (List D)) → Outcome D D → Option (List D)
  then_seen k (returns d s) = put d (k s)
  then_seen k (throws e s) = k s
  then_seen k faults = none

module _ {F D : Type 0} (db : SqlConnection F D) (cfg : ConnOptions) (factory : ℕ → D) where
  -- The connections that the functions get, and `none` if the null pointer is followed. An exception
  -- ends one use; the next one begins with the slot as it was left.
  unfoldable pub seen : List (Use D) → Slot D → Option (List D)
  seen [] s = some []
  seen (u ∷ us) s =
      then_seen (seen us) (with_connection db cfg factory u.now u.later (watch u.fn) s)

module _ {F D : Type 0} (db : SqlConnection F D) (IsOpen : D → Type 0) (laws : Opens db IsOpen)
    (cfg : ConnOptions) (factory : ℕ → D) where
  abbrev KeepsOpen : Use D → Type 0
  KeepsOpen u = (d : D) → IsOpen d → IsOpen (u.fn d)

  abbrev AllOpen : Option (List D) → Type 0
  AllOpen none = ⊥
  AllOpen (some ds) = All IsOpen ds

  put-AllOpen : (d : D) (o : Option (List D)) → IsOpen d → AllOpen o → AllOpen (put d o)
  put-AllOpen d none h k = elim k [ ]
  put-AllOpen d (some ds) h k = (h, k)

  used :
      (u : Use D) (k : Slot D → Option (List D)) (s : Slot D) (o : Option D)
      → KeepsOpen u
      → ((s' : Slot D) → IsReady db IsOpen laws cfg u.later s' → AllOpen (k s'))
      → HasOpen db IsOpen laws cfg o
      → AllOpen (then_seen k (use_conn u.later (watch u.fn) o s))
  used u k s none keeps next h = elim h [ ]
  used u k s (some d) keeps next h = put-AllOpen d _ h (next _ (inl (keeps d h)))

  then_used :
      (u : Use D) (k : Slot D → Option (List D)) (o : Outcome Unit D)
      → KeepsOpen u
      → u.now ≤ u.later
      → ((s' : Slot D) → IsReady db IsOpen laws cfg u.later s' → AllOpen (k s'))
      → Ensured db IsOpen laws cfg u.now o
      → AllOpen (then_seen k (then_use u.later (watch u.fn) o))
  then_used u k (returns v s) keeps t next h = used u k s s.conn keeps next h
  then_used u k (throws e s) keeps t next h =
      next s (IsReady-later db IsOpen laws cfg u.now u.later s t h)
  then_used u k faults keeps t next h = elim h [ ]

  seen_open :
      (us : List (Use D)) (t : ℕ) (s : Slot D)
      → All KeepsOpen us
      → IsTimed t us
      → IsReady db IsOpen laws cfg t s
      → AllOpen (seen db cfg factory us s)
  unfolding seen with_connection
  seen_open [] t s keeps times h = tt
  seen_open (u ∷ us) t s keeps (t0, t1, times) h =
      then_used u (seen db cfg factory us) _ keeps.0 t1
        (λ s'. seen_open us u.later s' keeps.1 times)
        (ensure_connected-Ensured db IsOpen laws cfg factory u.now s
          (IsReady-later db IsOpen laws cfg t u.now s t0 h))

  some_open : (o : Option (List D)) → AllOpen o → (ds : List D) × (o ≡ some ds) × All IsOpen ds
  some_open none h = elim h [ ]
  some_open (some ds) h = (ds, refl, h)

  -- However often a thread uses its connection, at times that do not go back and that begin when the
  -- clock has passed the idle limit, no null pointer is followed and every function gets a connection
  -- whose `connect` has succeeded, whichever connects and pings fail, provided that each function
  -- leaves an open connection open.
  pub seen_lem :
      (us : List (Use D)) (t made : ℕ)
      → All KeepsOpen us
      → IsTimed t us
      → ms cfg.max_conn_idle_ms < t
      → (ds : List D) × (seen db cfg factory us (new_slot made) ≡ some ds) × All IsOpen ds
  seen_lem us t made keeps times h =
      some_open _ (seen_open us t (new_slot made) keeps times (inr (inr (inl (omega arith)))))
