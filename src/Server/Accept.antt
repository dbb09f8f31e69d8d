-- ===== src/Server/Accept.antt =====
-- src/net/TcpServer.cpp: the accept loop, a round at a time, and the calls that start and stop it.
use cpp_reactor.Base.{
  ℕ, ◌%◌, ◌^◌, Bool, false, not, ◌||◌, Option, none, some, [], ◌∷◌, ℤ, no_fd, is_neg, length, ◌==◌,
  if◌then◌else◌,
}
use cpp_reactor.Status.{StatusCode, ok, again, error}
use cpp_reactor.Loop.Map.{lookup, insert}
use cpp_reactor.Metrics
use cpp_reactor.Metrics.{Metrics, add64, sub64}
use cpp_reactor.Connection
use cpp_reactor.Connection.{
  Connection, Handler, create, init, set_keep_alive_enabled, set_keep_alive_policy,
  should_close_for_idle, handle_close,
}
use cpp_reactor.IoPool
use cpp_reactor.IoPool.{IoPool}
use cpp_reactor.Server.{Served, Server, cleanup_closed_connections, log_metrics_if_needed}

-- The answer of `accept`.
pub data Accepted : Type 0 where
  refused : ℕ → Accepted
  accepted : ℤ → Accepted

-- `accept` fails with EINTR, or with EAGAIN, which is also EWOULDBLOCK.
abbrev pub eintr : ℕ
eintr = 4

abbrev pub eagain : ℕ
eagain = 11

-- A round of the accept loop goes on, or the loop ends with a code, or the pool has no loops.
pub data Next (L : Type 0) : Type 0 where
  goes : Server L → Next L
  ends : StatusCode → Server L → Next L
  faults : Next L

abbrev pub with_handler : Option Handler → Connection → Connection
with_handler none c = c
with_handler (some h) c = Connection.set_request_handler h c

module _ {L : Type 0} where
  -- A new connection once its callbacks, policy and handler are set and it has been initialised.
  unfoldable pub set_up : ℕ → ℤ → Server L → Connection
  set_up now fd s = init (
      with_handler s.request_handler (
        set_keep_alive_policy s.keep_alive_max_requests s.keep_alive_idle_timeout_ms
          (set_keep_alive_enabled s.keep_alive_enabled (create fd now s.metrics))))

  unfoldable pub reject_accepted : ℤ → Server L → Server L
  reject_accepted fd s = record s {
    closed = fd ∷ s.closed;
    metrics = Metrics.on_accept_fail s.metrics;
  }

  -- `emplace`, and what follows if the descriptor was not in the table yet.
  unfoldable pub place : ℕ → ℤ → L → Option (Served L) → Server L → Server L
  unfolding reject_accepted set_up
  place now fd l (some old) s = reject_accepted fd s
  place now fd l none s = record s {
    conns = insert fd (record { event_loop = l; connection = set_up now fd s }) s.conns;
    metrics = Metrics.on_connection_opened s.metrics;
  }

  unfoldable pub assign : ℕ → ℤ → Server L → Option (Option L × IoPool L) → Next L
  unfolding place
  assign now fd s none = faults
  assign now fd s (some (none, p)) = goes (reject_accepted fd (record s { thread_pool = p }))
  assign now fd s (some (some l, p)) =
      goes (place now fd l (lookup fd s.conns) (record s { thread_pool = p }))

  unfoldable pub take_accepted : ℕ → ℤ → Server L → Next L
  unfolding assign
  take_accepted now fd s =
      let s' = record s { metrics = Metrics.on_accept_ok s.metrics } in
      assign now fd s' (IoPool.get_next_loop s'.thread_pool)

  -- What follows the loop.
  unfoldable pub finish : ℕ → Server L → Server L
  unfolding cleanup_closed_connections log_metrics_if_needed
  finish now s = log_metrics_if_needed now (cleanup_closed_connections now s)

  -- After a failure that is no reason to try again, the loop ends.
  unfoldable pub accept_failed : ℕ → ℕ → Server L → Next L
  unfolding finish
  accept_failed now errno s =
      if errno == eintr || errno == eagain
      then goes s
      else if not s.is_running
      then ends ok (finish now s)
      else ends error (record s { metrics = Metrics.on_accept_fail s.metrics })

  unfoldable pub accept_answered : ℕ → Accepted → Server L → Next L
  unfolding take_accepted accept_failed
  accept_answered now (refused errno) s = accept_failed now errno s
  accept_answered now (accepted fd) s = take_accepted now fd s

  -- A round of the loop. The server may be stopped while it runs, so the answer of `accept` comes
  -- with whether it was.
  unfoldable pub accept_connection : ℕ → Accepted → Server L → Next L
  unfolding finish accept_answered
  accept_connection now r s =
      if s.is_running then accept_answered now r (finish now s) else ends ok (finish now s)

  -- `run`, up to the accept loop.
  unfoldable pub run : (ℕ → L) → Bool → Server L → Server L × StatusCode
  run make listens s = if s.is_running then (s, again) else (
    record s { is_running = listens; thread_pool = IoPool.start make s.thread_pool },
    (if listens then ok else error),
  )

  unfoldable pub stop : ℕ → (L → L) → Server L → Server L × StatusCode
  unfolding log_metrics_if_needed
  stop now shut s = if not s.is_running then (s, again) else (
    log_metrics_if_needed now (record s {
      is_running = false;
      lfd = no_fd;
      closed = if is_neg s.lfd then s.closed else s.lfd ∷ s.closed;
      thread_pool = IoPool.stop shut s.thread_pool;
      conns = [];
      metrics = Metrics.on_connections_closed (length s.conns % 2 ^ 64) s.metrics;
    }),
    ok,
  )
