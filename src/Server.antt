-- ===== src/Server.antt =====
-- include/net/TcpServer.hpp and src/net/TcpServer.cpp: the table of connections. What `accept`
-- answers and the time, in microseconds of the steady clock, are arguments. `conns_` is an
-- association list, in the order of insertion; the source's map is ordered by the descriptor, and
-- what is done to each connection touches that connection only. `metrics` holds the counters that
-- the server updates. `closed` lists the descriptors that the server itself closed, the last one
-- first. A log line keeps the differences of the counters, not the quotients printed.
pub mod Accept
pub mod Table
pub mod Count
pub mod Steps
pub mod Serving
pub mod Upkeep
pub mod Tests
use cpp_reactor.Base.{
  ℕ, ◌+◌, ◌-◌, ◌*◌, ◌/◌, ◌%◌, ◌^◌, Bool, true, false, not, ◌||◌, Option, none, some, List, [], ◌∷◌,
  ◌++◌, ℤ, no_fd, is_neg, length, ltb, ◌==◌, if◌then◌else◌,
}
use cpp_reactor.Status.{StatusCode, ok, again, error}
use cpp_reactor.Loop.Map.{lookup, insert, erase}
use cpp_reactor.Metrics
use cpp_reactor.Metrics.{Metrics, add64, sub64}
use cpp_reactor.Connection
use cpp_reactor.Connection.{
  Connection, Handler, create, init, set_keep_alive_enabled, set_keep_alive_policy,
  should_close_for_idle, handle_close,
}
use cpp_reactor.IoPool
use cpp_reactor.IoPool.{IoPool}

-- A connection and the loop that it was given to.
pub record Served (L : Type 0) : Type 0 where
  pub event_loop : L
  pub connection : Connection

-- What is logged of a window.
pub record Window : Type 0 where
  pub elapsed_us : ℕ
  pub requests : ℕ
  pub accept_ok : ℕ
  pub accept_fail : ℕ
  pub bytes_read : ℕ
  pub bytes_written : ℕ
  pub responses_2xx : ℕ
  pub responses_4xx : ℕ
  pub responses_5xx : ℕ
  pub latency_samples : ℕ
  pub latency_total_us : ℕ
  pub active_connections : ℕ
  pub latency_max_us : ℕ

pub record Server (L : Type 0) : Type 0 where
  pub lfd : ℤ
  pub conns : List (ℤ × Served L)
  pub pending_close_fds : List ℤ
  pub thread_pool : IoPool L
  pub keep_alive_enabled : Bool
  pub keep_alive_max_requests : ℕ
  pub keep_alive_idle_timeout_ms : ℕ
  pub request_handler : Option Handler
  pub is_running : Bool
  pub last_metrics_log_time : ℕ
  pub last_metrics_snapshot : Metrics
  pub metrics : Metrics
  pub closed : List ℤ
  pub logged : List Window

unfoldable pub window : ℕ → Metrics → Metrics → Window
window elapsed_us old cur = record {
  elapsed_us = elapsed_us;
  requests = sub64 cur.requests_total old.requests_total;
  accept_ok = sub64 cur.accept_ok old.accept_ok;
  accept_fail = sub64 cur.accept_fail old.accept_fail;
  bytes_read = sub64 cur.bytes_read old.bytes_read;
  bytes_written = sub64 cur.bytes_written old.bytes_written;
  responses_2xx = sub64 cur.responses_2xx old.responses_2xx;
  responses_4xx = sub64 cur.responses_4xx old.responses_4xx;
  responses_5xx = sub64 cur.responses_5xx old.responses_5xx;
  latency_samples = sub64 cur.request_latency_samples old.request_latency_samples;
  latency_total_us = sub64 cur.request_latency_total_us old.request_latency_total_us;
  active_connections = cur.active_connections;
  latency_max_us = cur.request_latency_max_us;
}

module _ {L : Type 0} where
  -- The socket calls of the constructor have succeeded.
  unfoldable pub create_server : ℤ → ℕ → Bool → ℕ → ℕ → ℕ → Metrics → Server L
  create_server lfd max_thread enabled max_requests idle_ms now m = record {
    lfd = lfd;
    conns = [];
    pending_close_fds = [];
    thread_pool = IoPool.create max_thread;
    keep_alive_enabled = enabled;
    keep_alive_max_requests = if max_requests == 0 then 1 else max_requests;
    keep_alive_idle_timeout_ms = if idle_ms == 0 then 1 else idle_ms;
    request_handler = none;
    is_running = false;
    last_metrics_log_time = now;
    last_metrics_snapshot = m;
    metrics = m;
    closed = [];
    logged = [];
  }

  abbrev pub set_request_handler : Handler → Server L → Server L
  set_request_handler h s = record s { request_handler = some h }

  unfoldable pub enqueue_closed_connection : ℤ → Server L → Server L
  enqueue_closed_connection fd s =
      if is_neg fd then s else record s { pending_close_fds = s.pending_close_fds ++ fd ∷ [] }

  abbrev pub close_if_idle : ℕ → Served L → Served L
  close_if_idle now_ms c =
      if should_close_for_idle now_ms c.connection
      then record c { connection = handle_close c.connection }
      else c

  unfoldable pub sweep : ℕ → List (ℤ × Served L) → List (ℤ × Served L)
  sweep now_ms [] = []
  sweep now_ms ((fd, c) ∷ cs) = (fd, close_if_idle now_ms c) ∷ sweep now_ms cs

  -- What is left, and how many were removed.
  abbrev pub drop_one : ℤ → Option (Served L) → List (ℤ × Served L) → ℕ → List (ℤ × Served L) × ℕ
  drop_one fd none cs removed = (cs, removed)
  drop_one fd (some c) cs removed = (erase fd cs, add64 removed 1)

  unfoldable pub drop_closed : List ℤ → List (ℤ × Served L) → ℕ → List (ℤ × Served L) × ℕ
  drop_closed [] cs removed = (cs, removed)
  drop_closed (fd ∷ fds) cs removed =
      let next = drop_one fd (lookup fd cs) cs removed in drop_closed fds next.0 next.1

  unfoldable pub collect_closed : List ℤ → Server L → Server L
  unfolding drop_closed
  collect_closed [] s = s
  collect_closed (fd ∷ fds) s =
      let dropped = drop_closed (fd ∷ fds) s.conns 0 in
      record s {
        pending_close_fds = [];
        conns = dropped.0;
        metrics = Metrics.on_connections_closed dropped.1 s.metrics;
      }

  unfoldable pub cleanup_closed_connections : ℕ → Server L → Server L
  unfolding sweep collect_closed
  cleanup_closed_connections now s =
      collect_closed s.pending_close_fds
        (if s.keep_alive_enabled then record s { conns = sweep (now / 1000) s.conns } else s)

  -- Every five seconds.
  unfoldable pub log_metrics_if_needed : ℕ → Server L → Server L
  log_metrics_if_needed now s =
      if ltb (now - s.last_metrics_log_time) 5_000_000 then s else record s {
        logged =
            s.logged
            ++ window (now - s.last_metrics_log_time) s.last_metrics_snapshot s.metrics ∷ [];
        last_metrics_snapshot = s.metrics;
        last_metrics_log_time = now;
      }
