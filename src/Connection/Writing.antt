-- ===== src/Connection/Writing.antt =====
-- `handleWrite` and `sendAsyncResponse` of src/net/TcpConnection.cpp, and the life of a connection.
use cpp_reactor.Base.{
  ℕ, ◌/◌, ◌<◌, ◌≡◌, refl, Bool, true, false, tests, not, Option, none, some, ltb, leb, ◌==◌,
  if◌then◌else◌, arith,
}
use cpp_reactor.Buffer
use cpp_reactor.Metrics
use cpp_reactor.Metrics.{add64}
use cpp_reactor.Buffer.{IoResult, failed, done}
use cpp_reactor.Loop.{modify_op}
use cpp_reactor.Connection.{
  HandlerResult, default_pending, Connection, post, is_connected, enable_write, handle_close,
  append_simple_response, take_result, on_sent, on_written, prepared, handle_write,
  send_async_response, eagain,
}
use cpp_reactor.Connection.Life.{
  IsServing, Follows, Calm, Calm-Follows, deletes-post_modify, Calm-post, status_or-low,
  status_or-high, Quota-lt, Calm-skip, IsStatus, Calm-refl, if-Calm, if-Follows, Follows-trans,
  Follows-skip,
}
use cpp_reactor.Connection.Close.{close_in-Follows, handle_close-Follows}

-- The connection behind a response, one request more being served.
unfoldable pub after : Connection → Connection
after c = record c {
  keep_alive_request = false;
  served_requests = add64 c.served_requests 1;
  request = none;
  pending = default_pending;
}

below_limit : (limit served : ℕ) → leb limit served ≡ false → served < limit
below_limit limit served e = grind (arith, tests)

kept-Follows :
    (c : Connection) (ch : Option ℕ)
    → IsServing c
    → add64 c.served_requests 1 < c.max_keep_alive_requests
    → Follows c
        (elim ch [ none ↦ after c | some ev ↦ post modify_op (enable_write false (after c)) ])
unfolding after
kept-Follows c none v h = record {
  forward = omega arith;
  limit = refl;
  serving = record {
    status_low = omega arith;
    status_high = omega arith;
    limit_fits = v.limit_fits;
    within = Quota-lt c.state _ _ h;
    once = v.once;
  };
}
kept-Follows c (some ev) v h = record {
  forward = omega arith;
  limit = refl;
  serving = record {
    status_low = omega arith;
    status_high = omega arith;
    limit_fits = v.limit_fits;
    within = Quota-lt c.state _ _ h;
    once = rw (deletes-post_modify c) v.once;
  };
}

sent-Follows :
    (c : Connection) (b : Bool)
    → leb c.max_keep_alive_requests (add64 c.served_requests 1) ≡ b
    → IsServing c
    → Follows c (
        if b then handle_close (after c) else elim c.channel [
          | none ↦ after c
          | some ev ↦ post modify_op (enable_write false (after c))
        ])
unfolding handle_close after
sent-Follows c true e v = Follows-skip c (after c) _ (omega arith) refl (
    close_in-Follows c.state c.channel (after c) refl (omega arith) (omega arith) v.limit_fits
      v.once)
sent-Follows c false e v = kept-Follows c c.channel v (below_limit _ _ e)

on_sent-Follows : (c : Connection) → IsServing c → Follows c (on_sent c)
unfolding on_sent after
on_sent-Follows c v =
    if-Follows c c.keep_alive_request (sent-Follows c _ refl v) (handle_close-Follows c v)

written-Calm :
    (now n : ℕ) (c : Connection)
    → IsServing c
    → Calm c (
        if ltb 0 n
        then record c {
          write_buffer = Buffer.write_fd c.write_buffer (done n);
          last_activity_ms = now / 1000;
          metrics = Metrics.on_bytes_written n c.metrics;
        }
        else c)
unfolding IsStatus
written-Calm now n c v =
    if-Calm c (ltb 0 n)
      (Calm-skip c _ _ refl refl refl refl (Calm-refl _ (v.status_low, v.status_high)))
      (Calm-refl c (v.status_low, v.status_high))

on_written-Follows :
    (now : ℕ) (r : IoResult ℕ) (c : Connection) → IsServing c → Follows c (on_written now r c)
unfolding on_written IsStatus
on_written-Follows now (failed errno) c v =
    if-Follows c (not (errno == eagain)) (handle_close-Follows c v) (
      if-Follows c (Buffer.readable_bytes c.write_buffer == 0) (on_sent-Follows c v)
        (Calm-Follows v (Calm-refl c (v.status_low, v.status_high))))
on_written-Follows now (done n) c v =
    let k = Calm-Follows v (written-Calm now n c v) in
    if-Follows c (Buffer.readable_bytes (Buffer.write_fd c.write_buffer (done n)) == 0)
      (Follows-trans k (on_sent-Follows _ k.serving)) k

prepared-Calm : (now : ℕ) (c : Connection) → IsServing c → Calm c (prepared now c)
unfolding prepared append_simple_response IsStatus
prepared-Calm now c v =
    if-Calm c (Buffer.readable_bytes c.write_buffer == 0)
      (record {
        same_state = refl;
        same_limit = refl;
        same_served = refl;
        same_deletes = refl;
        low = v.status_low;
        high = v.status_high;
      })
      (Calm-refl c (v.status_low, v.status_high))

pub handle_write-Follows :
    (now : ℕ) (r : IoResult ℕ) (c : Connection) → IsServing c → Follows c (handle_write now r c)
unfolding handle_write
handle_write-Follows now r c v =
    let k = Calm-Follows v (prepared-Calm now c v) in
    Follows-trans k (on_written-Follows now r _ k.serving)

answered-Calm :
    (res : HandlerResult) (ch : Option ℕ) (c : Connection)
    → IsServing c
    → Calm c (elim ch [
      | none ↦ record c { pending = take_result res c.pending; async_pending = false }
      | some ev ↦ post modify_op (
          enable_write true
            (record c { pending = take_result res c.pending; async_pending = false }))
    ])
answered-Calm res none c v = record {
  same_state = refl;
  same_limit = refl;
  same_served = refl;
  same_deletes = refl;
  low = status_or-low res.status_code _ v.status_low;
  high = status_or-high res.status_code _ v.status_high;
}
answered-Calm res (some ev) c v =
    Calm-post c
      (enable_write true (record c { pending = take_result res c.pending; async_pending = false }))
      refl refl refl refl (status_or-low res.status_code _ v.status_low)
      (status_or-high res.status_code _ v.status_high)

pub send_async_response-Follows :
    (res : HandlerResult) (c : Connection) → IsServing c → Follows c (send_async_response res c)
unfolding send_async_response IsStatus
send_async_response-Follows res c v =
    if-Follows c (not (is_connected c.state))
      (Calm-Follows v (Calm-refl c (v.status_low, v.status_high)))
      (Calm-Follows v (answered-Calm res c.channel c v))
