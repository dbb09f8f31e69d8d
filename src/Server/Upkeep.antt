-- ===== src/Server/Upkeep.antt =====
-- include/net/TcpServer.hpp: each operation of the server, and what reaches its connections, keeps the
-- connections in order.
use cpp_reactor.Base.{
  ℕ, ◌^◌, ◌<◌, Bool, true, false, not, ◌||◌, Option, none, some, List, [], ◌∷◌, ℤ, is_neg, no_fd,
  length, ◌%◌, ◌==◌, if◌then◌else◌, arith,
}
use cpp_reactor.Status.{StatusCode, ok, again, error}
use cpp_reactor.Loop.Map.{lookup, insert}
use cpp_reactor.Metrics
use cpp_reactor.Metrics.{Metrics, add64}
use cpp_reactor.IoPool
use cpp_reactor.IoPool.{IoPool, get_next_loop}
use cpp_reactor.Connection
use cpp_reactor.Connection.{
  Connection, Handler, create, init, set_keep_alive_enabled, set_keep_alive_policy, handle_close,
  should_close_for_idle,
}
use cpp_reactor.Connection.Life.{IsServing}
use cpp_reactor.Connection.Serve
use cpp_reactor.Connection.Serve.{happen-Follows, policy_fits, policy_positive}
use cpp_reactor.Server.{
  Served, Server, enqueue_closed_connection, log_metrics_if_needed, create_server,
}
use cpp_reactor.Server.Accept.{
  Accepted, refused, accepted, Next, goes, ends, faults, eintr, eagain, with_handler, set_up,
  reject_accepted, place, assign, take_accepted, accept_failed, accept_answered, accept_connection,
  run, stop,
}
use cpp_reactor.Server.Steps
use cpp_reactor.Server.Steps.{server_of, then_steps}
use cpp_reactor.Server.Serving.{
  enqueue_all, reach, Event, of_server, reaches, step, steps, Serving, ServingSome, UpSome,
  if-Serving, lookup-UpSome, put_entry-All, log-Serving, finish-Serving,
}

with_handler-IsServing :
    (o : Option Handler) (fd : ℤ) (now limit idle : ℕ) (b : Bool) (m : Metrics)
    → limit < 2 ^ 32
    → IsServing (
        init (
          with_handler o
            (set_keep_alive_policy limit idle (set_keep_alive_enabled b (create fd now m)))))
unfolding init set_keep_alive_policy set_keep_alive_enabled create Connection.set_request_handler
with_handler-IsServing none fd now limit idle b m h = record {
  status_low = omega arith;
  status_high = omega arith;
  limit_fits = policy_fits limit h;
  within = policy_positive limit;
  once = omega arith;
}
with_handler-IsServing (some f) fd now limit idle b m h = record {
  status_low = omega arith;
  status_high = omega arith;
  limit_fits = policy_fits limit h;
  within = policy_positive limit;
  once = omega arith;
}

module _ {L : Type 0} where
  -- What a round of the accept loop leaves.
  abbrev NextServing : Next L → Type 0
  NextServing (goes s) = Serving s
  NextServing (ends code s) = Serving s
  NextServing faults = Unit

  place-Serving :
      (now : ℕ) (fd : ℤ) (l : L) (o : Option (Served L)) (s : Server L)
      → Serving s
      → Serving (place now fd l o s)
  unfolding place reject_accepted set_up insert
  place-Serving now fd l (some c) s h = record { limit_fits = h.limit_fits; all_up = h.all_up }
  place-Serving now fd l none s h = record {
    limit_fits = h.limit_fits;
    all_up = (
      with_handler-IsServing s.request_handler fd now s.keep_alive_max_requests
          s.keep_alive_idle_timeout_ms s.keep_alive_enabled s.metrics h.limit_fits,
      h.all_up,
    );
  }

  assign-Serving :
      (now : ℕ) (fd : ℤ) (s : Server L) (o : Option (Option L × IoPool L))
      → Serving s
      → NextServing (assign now fd s o)
  unfolding assign reject_accepted
  assign-Serving now fd s none h = tt
  assign-Serving now fd s (some (none, p)) h = record {
    limit_fits = h.limit_fits;
    all_up = h.all_up;
  }
  assign-Serving now fd s (some (some l, p)) h =
      place-Serving now fd l _ (record s { thread_pool = p })
        (record { limit_fits = h.limit_fits; all_up = h.all_up })

  if-Next :
      (b : Bool) (x y : Next L) → NextServing x → NextServing y → NextServing (if b then x else y)
  if-Next true x y hx hy = hx
  if-Next false x y hx hy = hy

  answered-Serving :
      (now : ℕ) (r : Accepted) (s : Server L) → Serving s → NextServing (accept_answered now r s)
  unfolding accept_answered accept_failed take_accepted
  answered-Serving now (accepted fd) s h =
      assign-Serving now fd (record s { metrics = Metrics.on_accept_ok s.metrics }) _
        (record { limit_fits = h.limit_fits; all_up = h.all_up })
  answered-Serving now (refused errno) s h = if-Next (errno == eintr || errno == eagain) _ _ h (
      if-Next (not s.is_running) _ _ (finish-Serving now s h)
        (record { limit_fits = h.limit_fits; all_up = h.all_up }))

  accept-Serving :
      (now : ℕ) (r : Accepted) (s : Server L) → Serving s → NextServing (accept_connection now r s)
  unfolding accept_connection
  accept-Serving now r s h =
      if-Next s.is_running _ _ (answered-Serving now r _ (finish-Serving now s h))
        (finish-Serving now s h)

  of_next : (n : Next L) → NextServing n → ServingSome (server_of n)
  of_next (goes s) h = h
  of_next (ends code s) h = h
  of_next faults h = tt

  enqueue-Serving : (fds : List ℤ) (s : Server L) → Serving s → Serving (enqueue_all fds s)
  unfolding enqueue_closed_connection
  enqueue-Serving [] s h = h
  enqueue-Serving (fd ∷ fds) s h =
      enqueue-Serving fds _
        (if-Serving (is_neg fd) _ _ h (record { limit_fits = h.limit_fits; all_up = h.all_up }))

  reach-Serving :
      (fd : ℤ) (v : Serve.Event) (o : Option (Served L)) (s : Server L)
      → UpSome o
      → Serving s
      → Serving (reach fd v o s)
  reach-Serving fd v none s u h = h
  reach-Serving fd v (some x) s u h =
      let c = record x.connection { metrics = s.metrics; notices = [] } in
      let up : IsServing c = record {
        status_low = u.status_low;
        status_high = u.status_high;
        limit_fits = u.limit_fits;
        within = u.within;
        once = u.once;
      } in
      enqueue-Serving (Serve.happen v c).notices _ (record {
        limit_fits = h.limit_fits;
        all_up = put_entry-All fd _ s.conns (happen-Follows v c up).serving h.all_up;
      })

  stop-Serving : (now : ℕ) (shut : L → L) (s : Server L) → Serving s → Serving (stop now shut s).0
  unfolding stop
  stop-Serving now shut s h = stopped s.is_running
    where
      stopped :
          (b : Bool)
          → Serving
              (if◌then◌else◌ {A = Server L × StatusCode}
                (not b)
                (s, again)
                (
                  log_metrics_if_needed now (record s {
                    is_running = false;
                    lfd = no_fd;
                    closed = if is_neg s.lfd then s.closed else s.lfd ∷ s.closed;
                    thread_pool = IoPool.stop shut s.thread_pool;
                    conns = [];
                    metrics = Metrics.on_connections_closed (length s.conns % 2 ^ 64) s.metrics;
                  }),
                  ok,
                )).0
      stopped true = log-Serving now _ (record { limit_fits = h.limit_fits; all_up = tt })
      stopped false = h

  run-Serving :
      (make : ℕ → L) (listens : Bool) (s : Server L) → Serving s → Serving (run make listens s).0
  unfolding run
  run-Serving make listens s h = ran s.is_running
    where
      ran :
          (b : Bool)
          → Serving
              (if◌then◌else◌ {A = Server L × StatusCode} b
                (s, again)
                (
                  record s { is_running = listens; thread_pool = IoPool.start make s.thread_pool },
                  (if listens then ok else error),
                )).0
      ran true = h
      ran false = record { limit_fits = h.limit_fits; all_up = h.all_up }

  step-Serving : (e : Event L) (s : Server L) → Serving s → ServingSome (step e s)
  unfolding Steps.step
  step-Serving (of_server (Steps.sets_handler f)) s h = record {
    limit_fits = h.limit_fits;
    all_up = h.all_up;
  }
  step-Serving (of_server (Steps.runs make listens)) s h = run-Serving make listens s h
  step-Serving (of_server (Steps.accepts now r)) s h =
      of_next (accept_connection now r s) (accept-Serving now r s h)
  step-Serving (of_server (Steps.enqueues fd)) s h = enqueue-Serving (fd ∷ []) s h
  step-Serving (of_server (Steps.stops now shut)) s h = stop-Serving now shut s h
  step-Serving (reaches fd v) s h =
      reach-Serving fd v (lookup fd s.conns) s (lookup-UpSome fd s.conns h.all_up) h

  then_steps-Serving :
      (f : Server L → Option (Server L)) (o : Option (Server L))
      → ((s : Server L) → Serving s → ServingSome (f s))
      → ServingSome o
      → ServingSome (then_steps f o)
  then_steps-Serving f none k h = tt
  then_steps-Serving f (some s) k h = k s h

  steps-ServingSome : (es : List (Event L)) (s : Server L) → Serving s → ServingSome (steps es s)
  unfolding steps
  steps-ServingSome [] s h = h
  steps-ServingSome (e ∷ es) s h =
      then_steps-Serving (steps es) (step e s) (steps-ServingSome es) (step-Serving e s h)

  -- Whatever is done to a new server with a request limit below 2^32, and whatever reaches its
  -- connections in between, each connection in the table has a status between 100 and 599 to answer
  -- with, has served fewer requests than its limit while it is up, and has posted at most one DELETE
  -- task once it is closing and none before.
  pub steps-Serving :
      (es : List (Event L)) (lfd : ℤ) (max_thread : ℕ) (enabled : Bool)
      (max_requests idle_ms now : ℕ) (m : Metrics)
      → max_requests < 2 ^ 32
      → ServingSome (steps es (create_server lfd max_thread enabled max_requests idle_ms now m))
  unfolding create_server
  steps-Serving es lfd max_thread enabled max_requests idle_ms now m h =
      steps-ServingSome es _ (record { limit_fits = policy_fits max_requests h; all_up = tt })
