-- ===== src/Server/Steps.antt =====
-- include/net/TcpServer.hpp: what may happen to a server, in any order.
use cpp_reactor.Base.{ℕ, ◌%◌, ◌^◌, ◌≡◌, subst, Bool, Option, none, some, List, [], ◌∷◌, ℤ, length}
use cpp_reactor.Loop.Map.{IsMap}
use cpp_reactor.Metrics.{Metrics}
use cpp_reactor.Connection.{Handler}
use cpp_reactor.Server.{Server, enqueue_closed_connection, set_request_handler, create_server}
use cpp_reactor.Server.Accept.{Next, Accepted, goes, ends, faults, accept_connection, run, stop}
use cpp_reactor.Server.Count.{
  Counted, CountedNext, run-Counted, stop-Counted, enqueue-Counted, accept_connection-Counted,
}

pub data Event (L : Type 0) : Type 0 where
  sets_handler : Handler → Event L
  runs : (ℕ → L) → Bool → Event L
  accepts : ℕ → Accepted → Event L
  enqueues : ℤ → Event L
  stops : ℕ → (L → L) → Event L

module _ {L : Type 0} where
  abbrev pub server_of : Next L → Option (Server L)
  server_of (goes s) = some s
  server_of (ends c s) = some s
  server_of faults = none

  unfoldable pub step : Event L → Server L → Option (Server L)
  step (sets_handler h) s = some (set_request_handler h s)
  step (runs make listens) s = some (run make listens s).0
  step (accepts now r) s = server_of (accept_connection now r s)
  step (enqueues fd) s = some (enqueue_closed_connection fd s)
  step (stops now shut) s = some (stop now shut s).0

  abbrev pub then_steps : (Server L → Option (Server L)) → Option (Server L) → Option (Server L)
  then_steps f none = none
  then_steps f (some s) = f s

  -- `none` where the pool has no loops to choose from.
  unfoldable pub steps : List (Event L) → Server L → Option (Server L)
  unfolding step
  steps [] s = some s
  steps (e ∷ es) s = then_steps (steps es) (step e s)

  abbrev CountedSome : Option (Server L) → Type 0
  CountedSome none = Unit
  CountedSome (some s) = Counted s

  server_of-Counted : (n : Next L) → CountedNext n → CountedSome (server_of n)
  unfolding CountedNext
  server_of-Counted (goes s) h = h
  server_of-Counted (ends c s) h = h
  server_of-Counted faults h = tt

  step-Counted : (e : Event L) (s : Server L) → Counted s → CountedSome (step e s)
  unfolding step Counted
  step-Counted (sets_handler f) s h = h
  step-Counted (runs make listens) s h = run-Counted make listens s h
  step-Counted (accepts now r) s h =
      server_of-Counted (accept_connection now r s) (accept_connection-Counted now r s h)
  step-Counted (enqueues fd) s h = enqueue-Counted fd s h
  step-Counted (stops now shut) s h = stop-Counted now shut s h

  then_steps-Counted :
      (f : Server L → Option (Server L)) (o : Option (Server L))
      → ((s : Server L) → Counted s → CountedSome (f s))
      → CountedSome o
      → CountedSome (then_steps f o)
  then_steps-Counted f none k h = tt
  then_steps-Counted f (some s) k h = k s h

  steps-CountedSome : (es : List (Event L)) (s : Server L) → Counted s → CountedSome (steps es s)
  unfolding steps
  steps-CountedSome [] s h = h
  steps-CountedSome (e ∷ es) s h =
      then_steps-Counted (steps es) (step e s) (steps-CountedSome es) (step-Counted e s h)

  of_some : (o : Option (Server L)) (s : Server L) → o ≡ some s → CountedSome o → Counted s
  of_some o s e h = let k : CountedSome (some s) = subst CountedSome e h in k

  -- Whatever is done to a new server, in any order, once the gauge was 0 the gauge of active
  -- connections is the number of connections in the table, modulo 2^64, and no descriptor stands
  -- in the table twice.
  pub steps-Counted :
      (es : List (Event L)) (lfd : ℤ) (max_thread : ℕ) (enabled : Bool)
      (max_requests idle_ms now : ℕ) (m : Metrics) (s : Server L)
      → m.active_connections ≡ 0
      → steps es (create_server lfd max_thread enabled max_requests idle_ms now m) ≡ some s
      → IsMap s.conns × (s.metrics.active_connections ≡ length s.conns % 2 ^ 64)
  unfolding Counted create_server IsMap
  steps-Counted es lfd max_thread enabled max_requests idle_ms now m s z e =
      of_some (steps es (create_server lfd max_thread enabled max_requests idle_ms now m)) s e
        (steps-CountedSome es _ (tt, z))
