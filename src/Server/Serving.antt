-- ===== src/Server/Serving.antt =====
-- include/net/TcpServer.hpp and src/net/TcpConnection.cpp: a server together with what reaches its
-- connections. The counters are those of the process: a connection works on the server's.
use cpp_reactor.Base.{
  ℕ, ◌-◌, ◌/◌, ◌^◌, ◌<◌, Bool, true, false, Option, none, some, List, [], ◌∷◌, ℤ, same_fd, ltb,
  if◌then◌else◌, All,
}
use cpp_reactor.Loop.Map.{lookup, erase}
use cpp_reactor.Connection.{Connection, should_close_for_idle}
use cpp_reactor.Connection.Life.{IsServing}
use cpp_reactor.Connection.Close.{handle_close-Follows}
use cpp_reactor.Connection.Serve
use cpp_reactor.Connection.Serve.{happen-Follows, policy_fits, policy_positive}
use cpp_reactor.Server.{
  Served, Server, enqueue_closed_connection, sweep, drop_one, drop_closed, collect_closed,
  cleanup_closed_connections, log_metrics_if_needed,
}
use cpp_reactor.Server.Accept.{finish}
use cpp_reactor.Server.Steps
use cpp_reactor.Server.Steps.{server_of, then_steps}

module _ {L : Type 0} where
  unfoldable pub put_entry : ℤ → Connection → List (ℤ × Served L) → List (ℤ × Served L)
  put_entry fd c [] = []
  put_entry fd c ((j, x) ∷ cs) =
      (j, if same_fd j fd then record x { connection = c } else x) ∷ put_entry fd c cs

  abbrev pub enqueue_all : List ℤ → Server L → Server L
  enqueue_all [] s = s
  enqueue_all (fd ∷ fds) s = enqueue_all fds (enqueue_closed_connection fd s)

  -- A connection of the table handles what reaches it; its close callback tells the server.
  abbrev pub handled : ℤ → Connection → Server L → Server L
  handled fd c s =
      enqueue_all c.notices (record s { metrics = c.metrics; conns = put_entry fd c s.conns })

  abbrev pub reach : ℤ → Serve.Event → Option (Served L) → Server L → Server L
  reach fd v none s = s
  reach fd v (some x) s =
      handled fd (Serve.happen v (record x.connection { metrics = s.metrics; notices = [] })) s

-- What the server does, and what reaches the connection of a descriptor.
pub data Event (L : Type 0) : Type 0 where
  of_server : Steps.Event L → Event L
  reaches : ℤ → Serve.Event → Event L

module _ {L : Type 0} where
  abbrev pub step : Event L → Server L → Option (Server L)
  step (of_server e) s = Steps.step e s
  step (reaches fd v) s = some (reach fd v (lookup fd s.conns) s)

  unfoldable pub steps : List (Event L) → Server L → Option (Server L)
  steps [] s = some s
  steps (e ∷ es) s = then_steps (steps es) (step e s)

  abbrev pub IsUp : ℤ × Served L → Type 0
  IsUp e = IsServing e.1.connection

  -- Each connection of the table is in order, and so is the limit that new ones get.
  pub record Serving (s : Server L) : Type 0 where
    pub limit_fits : s.keep_alive_max_requests < 2 ^ 32
    pub all_up : All IsUp s.conns

  -- The server may have run out of loops to choose from.
  abbrev pub ServingSome : Option (Server L) → Type 0
  ServingSome none = Unit
  ServingSome (some s) = Serving s

  if-IsServing :
      (b : Bool) (x y : Served L)
      → IsServing x.connection
      → IsServing y.connection
      → IsServing (if b then x else y).connection
  if-IsServing true x y hx hy = hx
  if-IsServing false x y hx hy = hy

  sweep-All : (now : ℕ) (cs : List (ℤ × Served L)) → All IsUp cs → All IsUp (sweep now cs)
  unfolding sweep
  sweep-All now [] h = tt
  sweep-All now ((fd, c) ∷ cs) h = (
    if-IsServing (should_close_for_idle now c.connection) _ _
        (handle_close-Follows c.connection h.0).serving h.0,
    sweep-All now cs h.1,
  )

  erase-All : (fd : ℤ) (cs : List (ℤ × Served L)) → All IsUp cs → All IsUp (erase fd cs)
  unfolding erase
  erase-All fd [] h = tt
  erase-All fd ((j, c) ∷ cs) h =
      if-All (same_fd j fd) _ _ (erase-All fd cs h.1) (h.0, erase-All fd cs h.1)
    where
      if-All :
          (b : Bool) (xs ys : List (ℤ × Served L))
          → All IsUp xs
          → All IsUp ys
          → All IsUp (if b then xs else ys)
      if-All true xs ys hx hy = hx
      if-All false xs ys hx hy = hy

  drop_closed-All :
      (fds : List ℤ) (cs : List (ℤ × Served L)) (n : ℕ)
      → All IsUp cs
      → All IsUp (drop_closed fds cs n).0
  unfolding drop_closed
  drop_closed-All [] cs n h = h
  drop_closed-All (fd ∷ fds) cs n h = drop_closed-All fds _ _ (dropped (lookup fd cs))
    where
      dropped : (o : Option (Served L)) → All IsUp (drop_one fd o cs n).0
      dropped none = h
      dropped (some c) = erase-All fd cs h

  pub put_entry-All :
      (fd : ℤ) (c : Connection) (cs : List (ℤ × Served L))
      → IsServing c
      → All IsUp cs
      → All IsUp (put_entry fd c cs)
  unfolding put_entry
  put_entry-All fd c [] k h = tt
  put_entry-All fd c ((j, x) ∷ cs) k h =
      (if-IsServing (same_fd j fd) _ _ k h.0, put_entry-All fd c cs k h.1)

  abbrev pub UpSome : Option (Served L) → Type 0
  UpSome none = Unit
  UpSome (some x) = IsServing x.connection

  if-UpSome :
      (b : Bool) (x y : Option (Served L)) → UpSome x → UpSome y → UpSome (if b then x else y)
  if-UpSome true x y hx hy = hx
  if-UpSome false x y hx hy = hy

  pub lookup-UpSome : (fd : ℤ) (cs : List (ℤ × Served L)) → All IsUp cs → UpSome (lookup fd cs)
  unfolding lookup
  lookup-UpSome fd [] h = tt
  lookup-UpSome fd ((j, c) ∷ cs) h =
      if-UpSome (same_fd j fd) (some c) (lookup fd cs) h.0 (lookup-UpSome fd cs h.1)

  -- A server that differs in neither the table nor the limit.
  kept :
      (s : Server L) (cs : List (ℤ × Served L))
      → Serving s
      → All IsUp cs
      → Serving (record s { conns = cs })
  kept s cs h k = record { limit_fits = h.limit_fits; all_up = k }

  pub if-Serving :
      (b : Bool) (x y : Server L) → Serving x → Serving y → Serving (if b then x else y)
  if-Serving true x y hx hy = hx
  if-Serving false x y hx hy = hy

  collect_closed-Serving :
      (fds : List ℤ) (s : Server L) → Serving s → Serving (collect_closed fds s)
  unfolding collect_closed
  collect_closed-Serving [] s h = h
  collect_closed-Serving (fd ∷ fds) s h = record {
    limit_fits = h.limit_fits;
    all_up = drop_closed-All (fd ∷ fds) s.conns 0 h.all_up;
  }

  pub log-Serving : (now : ℕ) (s : Server L) → Serving s → Serving (log_metrics_if_needed now s)
  unfolding log_metrics_if_needed
  log-Serving now s h =
      if-Serving (ltb (now - s.last_metrics_log_time) 5_000_000) _ _ h
        (record { limit_fits = h.limit_fits; all_up = h.all_up })

  pub finish-Serving : (now : ℕ) (s : Server L) → Serving s → Serving (finish now s)
  unfolding finish cleanup_closed_connections
  finish-Serving now s h = log-Serving now _ (
      collect_closed-Serving s.pending_close_fds _ (
        if-Serving s.keep_alive_enabled _ _
          (kept s (sweep (now / 1000) s.conns) h (sweep-All (now / 1000) s.conns h.all_up)) h))
