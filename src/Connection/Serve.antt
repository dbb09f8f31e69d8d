-- ===== src/Connection/Serve.antt =====
-- Whatever reaches a connection of src/net/TcpConnection.cpp in its life.
use cpp_reactor.Base.{ℕ, ◌^◌, ◌<◌, tests, List, [], ◌∷◌, Bytes, ℤ, ◌==◌, if◌then◌else◌, arith}
use cpp_reactor.Metrics
use cpp_reactor.Metrics.{add64}
use cpp_reactor.Buffer.{IoResult}
use cpp_reactor.Connection.{
  HandlerResult, Connection, init, handle_close, on_channel_destroyed, handle_read, handle_write,
  send_async_response, create, set_keep_alive_policy,
}
use cpp_reactor.Connection.Life.{
  IsServing, Follows, Calm-Follows, IsStatus, Calm-refl, Follows-trans,
}
use cpp_reactor.Connection.Close.{handle_close-Follows, on_channel_destroyed-Follows}
use cpp_reactor.Connection.Reading.{handle_read-Follows}
use cpp_reactor.Connection.Writing.{handle_write-Follows, send_async_response-Follows}

-- What can reach a connection: the channel's callbacks with what the system calls return, the
-- loop's report that the channel is gone, a late answer, and a request to close.
pub data Event : Type 0 where
  reads : ℕ → IoResult Bytes → Event
  writes : ℕ → IoResult ℕ → Event
  destroys : Event
  answers : HandlerResult → Event
  closes : Event

unfoldable pub happen : Event → Connection → Connection
happen (reads now r) c = handle_read now r c
happen (writes now r) c = handle_write now r c
happen destroys c = on_channel_destroyed c
happen (answers res) c = send_async_response res c
happen closes c = handle_close c

unfoldable pub happen_all : List Event → Connection → Connection
happen_all [] c = c
happen_all (e ∷ es) c = happen_all es (happen e c)

pub happen-Follows : (e : Event) (c : Connection) → IsServing c → Follows c (happen e c)
unfolding happen
happen-Follows (reads now r) c v = handle_read-Follows now r c v
happen-Follows (writes now r) c v = handle_write-Follows now r c v
happen-Follows destroys c v = on_channel_destroyed-Follows c v
happen-Follows (answers res) c v = send_async_response-Follows res c v
happen-Follows closes c v = handle_close-Follows c v

-- From a connection with a status between 100 and 599 to answer with, a request limit below 2^32,
-- fewer requests served than that while it is up, and at most one DELETE task posted once it is
-- closing and none before: after any events, in any order, with any request handler and any
-- answers of the system calls, the state has not gone back in the order connecting, connected,
-- disconnecting, disconnected, the limit is the same, and all of this holds again.
pub happen_all-Follows :
    (es : List Event) (c : Connection) → IsServing c → Follows c (happen_all es c)
unfolding happen_all IsStatus
happen_all-Follows [] c v = Calm-Follows v (Calm-refl c (v.status_low, v.status_high))
happen_all-Follows (e ∷ es) c v =
    let k = happen-Follows e c v in Follows-trans k (happen_all-Follows es _ k.serving)

pub policy_fits : (limit : ℕ) → limit < 2 ^ 32 → (if limit == 0 then 1 else limit) < 2 ^ 32
policy_fits limit h = grind (arith, tests)

pub policy_positive : (limit : ℕ) → 0 < (if limit == 0 then 1 else limit)
policy_positive limit = grind (arith, tests)

-- A connection that has been created, given a policy with a limit below 2^32 and initialised has a
-- status between 100 and 599 to answer with, has served fewer requests than its limit, and has posted
-- no DELETE task.
pub init-IsServing :
    (fd : ℤ) (now limit idle : ℕ) (m : Metrics.Metrics)
    → limit < 2 ^ 32
    → IsServing (init (set_keep_alive_policy limit idle (create fd now m)))
unfolding init set_keep_alive_policy create
init-IsServing fd now limit idle m h = record {
  status_low = omega arith;
  status_high = omega arith;
  limit_fits = policy_fits limit h;
  within = policy_positive limit;
  once = omega arith;
}
