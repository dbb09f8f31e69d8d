-- ===== src/Server/Tests.antt =====
-- A concrete server and pool, and the theorems at them.
use cpp_reactor.Base.{
  ℕ, ◌%◌, ◌^◌, ◌/◌, ◌≡◌, refl, true, Option, none, some, List, [], ◌∷◌, pos, length, arith,
  if◌then◌else◌,
}
use cpp_reactor.Loop.Map.{lookup, insert, IsMap}
use cpp_reactor.Metrics.{zeros}
use cpp_reactor.IoPool
use cpp_reactor.IoPool.{IoPool}
use cpp_reactor.Server.{
  Server, create_server, cleanup_closed_connections, enqueue_closed_connection,
}
use cpp_reactor.Server.Accept.{Next, refused, accepted, run, accept_connection, take_accepted}
use cpp_reactor.Server.Steps.{Event, runs, accepts, enqueues, step, steps, server_of, steps-Counted}
use cpp_reactor.Connection.Serve
use cpp_reactor.Server.Serving
use cpp_reactor.Server.Serving.{ServingSome}
use cpp_reactor.Server.Upkeep.{steps-Serving}
use cpp_reactor.Server.Table.{
  Owned, take_accepted-Owned, mem_fd, after_sweep, cleanup_closed_connections_lem,
}

abbrev loop_of : ℕ → ℕ
loop_of n = n

abbrev fresh : Server ℕ
fresh = create_server (pos 3) 2 true 100 1000 0 zeros

abbrev events : List (Event ℕ)
events =
    runs loop_of true
    ∷ accepts 1 (accepted (pos 7))
    ∷ accepts 2 (accepted (pos 8))
    ∷ enqueues (pos 7)
    ∷ accepts 3 (refused 11)
    ∷ []

abbrev server_or : Server ℕ → Option (Server ℕ) → Server ℕ
server_or s none = s
server_or s (some t) = t

abbrev served : Server ℕ
served = server_or fresh (steps events fresh)

steps-Counted_example :
    IsMap served.conns × (served.metrics.active_connections ≡ length served.conns % 2 ^ 64)
unfolding steps step accept_connection run create_server IoPool.get_next_loop IoPool.start
    IoPool.create lookup enqueue_closed_connection insert
steps-Counted_example = steps-Counted events (pos 3) 2 true 100 1000 0 zeros served refl refl

abbrev running : Server ℕ
running = (run loop_of true fresh).0

abbrev next_server : Next ℕ → Server ℕ
next_server n = server_or fresh (server_of n)

abbrev with_one : Server ℕ
with_one = next_server (take_accepted 1 (pos 7) running)

take_accepted-Owned_example : Owned (pos 7) running with_one
unfolding take_accepted IoPool.get_next_loop run create_server IoPool.start IoPool.create
take_accepted-Owned_example = take_accepted-Owned 1 (pos 7) running with_one refl

abbrev with_closed : Server ℕ
with_closed = enqueue_closed_connection (pos 7) with_one

cleanup_closed_connections_lem_example :
    ((cleanup_closed_connections 5 with_closed).pending_close_fds ≡ [])
    × (lookup (pos 7) (cleanup_closed_connections 5 with_closed).conns ≡ (
        if mem_fd (pos 7) with_closed.pending_close_fds
        then none
        else if with_closed.keep_alive_enabled
        then after_sweep (5 / 1000) (lookup (pos 7) with_closed.conns)
        else lookup (pos 7) with_closed.conns))
cleanup_closed_connections_lem_example = cleanup_closed_connections_lem 5 (pos 7) with_closed

abbrev visited : List (Serving.Event ℕ)
visited =
    Serving.of_server (runs loop_of true)
    ∷ Serving.of_server (accepts 1 (accepted (pos 7)))
    ∷ Serving.reaches (pos 7) Serve.closes
    ∷ Serving.reaches (pos 7) Serve.destroys
    ∷ Serving.of_server (accepts 2 (refused 11))
    ∷ []

steps-Serving_example : ServingSome (Serving.steps visited fresh)
steps-Serving_example = steps-Serving visited (pos 3) 2 true 100 1000 0 zeros (omega arith)
