-- ===== src/Connection/Reading.antt =====
-- `handleRead` of src/net/TcpConnection.cpp, and the life of a connection.
use cpp_reactor.Base.{
  ℕ, ◌≤◌, refl, Bool, true, false, not, ◌&&◌, Option, none, some, [], ◌∷◌, Bytes, codes, ◌==◌,
  if◌then◌else◌, arith, Bool-cases, inl, inr,
}
use cpp_reactor.Status.{StatusCode, ok, again, invalid, not_found, error}
use cpp_reactor.Metrics
use cpp_reactor.Metrics.{add64}
use cpp_reactor.Buffer.{IoResult, failed, done}
use cpp_reactor.Http.Request.{HttpRequest}
use cpp_reactor.Connection.{
  HandlerResult, Handler, default_pending, Connection, enable_write, append_simple_response,
  queue_simple_response, take_result, respond, serve, accept_request, wait_for_more, reject,
  on_parsed, on_bytes, handle_read, text_plain, should_keep_alive, is_parse_wait_timeout, eagain,
}
use cpp_reactor.Connection.Life.{
  IsServing, Follows, Calm, Calm-Follows, Calm-post, status_or-low, status_or-high, Calm-skip,
  IsStatus, Calm-refl, if-Calm,
}
use cpp_reactor.Connection.Close.{handle_close-Follows}

queue_simple_response-Calm :
    (now status : ℕ) (reason : Bytes) (c : Connection)
    → 100 ≤ c.pending.status_code
    → c.pending.status_code ≤ 599
    → Calm c (queue_simple_response now status reason c)
unfolding queue_simple_response append_simple_response
queue_simple_response-Calm now status reason c l h =
    Calm-post c (enable_write true (append_simple_response now status reason [] text_plain c)) refl
      refl refl refl l h

respond-Calm :
    (res : HandlerResult) (c : Connection)
    → 100 ≤ c.pending.status_code
    → c.pending.status_code ≤ 599
    → Calm c (respond res c)
unfolding respond
respond-Calm res c l h = elim (Bool-cases res.async) [
  | inl e ↦ rw (e) record {
    same_state = refl;
    same_limit = refl;
    same_served = refl;
    same_deletes = refl;
    low = l;
    high = h;
  }
  | inr e ↦ rw (e) (
      Calm-post c
        (enable_write true (record c {
          pending = take_result res c.pending;
          keep_alive_request = if res.close_connection then false else c.keep_alive_request;
        }))
        refl refl refl refl (status_or-low res.status_code _ l)
        (status_or-high res.status_code _ h))
]

serve-Calm :
    (r : HttpRequest) (h : Option Handler) (c : Connection) → IsStatus c → Calm c (serve r h c)
unfolding serve IsStatus
serve-Calm r none c (l, h) = Calm-post c (enable_write true c) refl refl refl refl l h
serve-Calm r (some f) c (l, h) =
    Calm-skip c (record c { request = some (f r).1 }) _ refl refl refl refl
      (respond-Calm (f r).0 (record c { request = some (f r).1 }) l h)

accept_request-Calm : (r : HttpRequest) (c : Connection) → Calm c (accept_request r c)
unfolding accept_request IsStatus
accept_request-Calm r c = Calm-skip c _ _ refl refl refl refl (
    serve-Calm r c.request_handler
      (record c {
        request = some r;
        in_flight = none;
        metrics = Metrics.on_request_parsed c.metrics;
        keep_alive_request = c.keep_alive_enabled && should_keep_alive r;
        pending = default_pending;
      })
      (omega arith, omega arith))

wait_for_more-Calm : (now : ℕ) (c : Connection) → IsStatus c → Calm c (wait_for_more now c)
unfolding wait_for_more IsStatus
wait_for_more-Calm now c (l, h) =
    if-Calm c (not c.parse_waiting)
      (Calm-skip c (record c { parse_waiting = true; parse_wait_start = now }) _ refl refl refl refl
        (Calm-refl _ (l, h)))
      (if-Calm c (is_parse_wait_timeout now c)
        (queue_simple_response-Calm now 408 (codes "Request Timeout") c l h) (Calm-refl c (l, h)))

reject-Calm :
    (now : ℕ) (too_large : Bool) (c : Connection) → IsStatus c → Calm c (reject now too_large c)
unfolding reject IsStatus
reject-Calm now true c (l, h) =
    Calm-skip c (record c { in_flight = none; keep_alive_request = false }) _ refl refl refl refl
      (queue_simple_response-Calm now 413 (codes "Payload Too Large") _ l h)
reject-Calm now false c (l, h) =
    Calm-skip c (record c { in_flight = none; keep_alive_request = false }) _ refl refl refl refl
      (queue_simple_response-Calm now 400 (codes "Bad Request") _ l h)

refused-Calm :
    (now : ℕ) (too_large : Bool) (c : Connection)
    → IsStatus c
    → Calm c (reject now too_large (record c { parse_waiting = false }))
unfolding IsStatus
refused-Calm now b c h =
    Calm-skip c (record c { parse_waiting = false }) _ refl refl refl refl (reject-Calm now b _ h)

on_parsed-Calm :
    (now : ℕ) (code : StatusCode) (req : Option HttpRequest) (too_large : Bool) (c : Connection)
    → IsStatus c
    → Calm c (on_parsed now code req too_large c)
unfolding on_parsed
on_parsed-Calm now again req b c h = wait_for_more-Calm now c h
on_parsed-Calm now ok (some r) b c h =
    Calm-skip c (record c { parse_waiting = false }) _ refl refl refl refl (accept_request-Calm r _)
on_parsed-Calm now ok none b c h = refused-Calm now b c h
on_parsed-Calm now invalid req b c h = refused-Calm now b c h
on_parsed-Calm now not_found req b c h = refused-Calm now b c h
on_parsed-Calm now error req b c h = refused-Calm now b c h

on_bytes-Calm : (now : ℕ) (s : Bytes) (c : Connection) → IsStatus c → Calm c (on_bytes now s c)
unfolding on_bytes IsStatus
on_bytes-Calm now s c h = Calm-skip c _ _ refl refl refl refl (on_parsed-Calm now _ _ _ _ h)

pub handle_read-Follows :
    (now : ℕ) (r : IoResult Bytes) (c : Connection) → IsServing c → Follows c (handle_read now r c)
unfolding handle_read IsStatus
handle_read-Follows now (failed errno) c v = elim (Bool-cases (errno == eagain)) [
  | inl e ↦ rw (e) (Calm-Follows v (Calm-refl c (v.status_low, v.status_high)))
  | inr e ↦ rw (e) (handle_close-Follows c v)
]
handle_read-Follows now (done []) c v = handle_close-Follows c v
handle_read-Follows now (done (x ∷ xs)) c v =
    Calm-Follows v (on_bytes-Calm now (x ∷ xs) c (v.status_low, v.status_high))
