-- ===== src/Connection.antt =====
-- include/net/TcpConnection.hpp and src/net/TcpConnection.cpp: one HTTP connection.
-- The time, in microseconds of the steady clock, and what a system call returned are arguments.
-- `channel` is the event mask of the channel that `channel_` points to, and `none` is the null
-- pointer. The state also holds the process-wide metrics and the tasks handed to the event loop,
-- oldest first; the loop runs them as Loop says. A request handler is a function of the request
-- that may change the request, and that does not use the connection before it returns.
pub mod Response
pub mod Life
pub mod Close
pub mod Reading
pub mod Writing
pub mod Serve
use cpp_reactor.Base.{
  ℕ, ◌+◌, ◌-◌, ◌*◌, ◌/◌, ◌%◌, ◌^◌, ◌≡◌, refl, Bool, true, false, not, ◌&&◌, ◌||◌, Option, none,
  some, List, [], ◌∷◌, ◌++◌, Bytes, codes, same, is_empty, lower, length, contains, to_string, ℤ,
  pos, negsuc, ltb, leb, ◌==◌, if◌then◌else◌,
}
use cpp_reactor.Status.{StatusCode, ok, again, invalid, not_found, error}
use cpp_reactor.Buffer
use cpp_reactor.Buffer.{Buffer, IoResult, failed, done}
use cpp_reactor.Http.Request.{HttpRequest, crlf}
use cpp_reactor.Http.Request.Entry.{ParseResult, parse_request}
use cpp_reactor.Channel.{has, with_bit, without_bit, read_event, write_event}
use cpp_reactor.Loop.{ChannelOp, add_op, delete_op, modify_op}
use cpp_reactor.Metrics
use cpp_reactor.Metrics.{Metrics, add64}

pub data State : Type 0 where
  connecting connected disconnecting disconnected : State

pub record HandlerResult : Type 0 where
  pub status_code : ℤ
  pub reason_phrase : Bytes
  pub body : Bytes
  pub content_type : Bytes
  pub close_connection : Bool
  pub async : Bool

abbrev pub text_plain : Bytes
text_plain = codes "text/plain; charset=utf-8"

-- The default member values.
abbrev pub default_result : HandlerResult
default_result = record {
  status_code = pos 200;
  reason_phrase = codes "OK";
  body = [];
  content_type = text_plain;
  close_connection = false;
  async = false;
}

abbrev pub Handler : Type 0
Handler = HttpRequest → HandlerResult × HttpRequest

-- What `handleWrite` sends when the write buffer is empty.
pub record Pending : Type 0 where
  pub status_code : ℕ
  pub reason_phrase : Bytes
  pub body : Bytes
  pub content_type : Bytes

abbrev pub default_pending : Pending
default_pending = record {
  status_code = 200;
  reason_phrase = codes "OK";
  body = [];
  content_type = text_plain;
}

pub record Connection : Type 0 where
  pub fd : ℤ
  pub state : State
  pub channel : Option ℕ
  pub read_buffer : Buffer
  pub write_buffer : Buffer
  pub async_pending : Bool
  pub in_flight : Option HttpRequest
  pub request : Option HttpRequest
  pub parse_wait_start : ℕ
  pub request_start_time : ℕ
  pub parse_waiting : Bool
  pub request_timing_active : Bool
  pub keep_alive_enabled : Bool
  pub keep_alive_request : Bool
  pub max_keep_alive_requests : ℕ
  pub keep_alive_idle_timeout_ms : ℕ
  pub served_requests : ℕ
  pub last_activity_ms : ℕ
  pub pending : Pending
  pub request_handler : Option Handler
  pub metrics : Metrics
  pub posted : List (ChannelOp × ℤ)
  pub notices : List ℤ

-- `create`.
unfoldable pub create : ℤ → ℕ → Metrics → Connection
create fd now m = record {
  fd = fd;
  state = connecting;
  channel = none;
  read_buffer = Buffer.empty;
  write_buffer = Buffer.empty;
  async_pending = false;
  in_flight = none;
  request = none;
  parse_wait_start = now;
  request_start_time = now;
  parse_waiting = false;
  request_timing_active = false;
  keep_alive_enabled = false;
  keep_alive_request = false;
  max_keep_alive_requests = 100;
  keep_alive_idle_timeout_ms = 10000;
  served_requests = 0;
  last_activity_ms = now / 1000;
  pending = default_pending;
  request_handler = none;
  metrics = m;
  posted = [];
  notices = [];
}

abbrev pub post : ChannelOp → Connection → Connection
post op c = record c { posted = c.posted ++ (op, c.fd) ∷ [] }

unfoldable pub init : Connection → Connection
init c = record (post add_op c) { channel = some (with_bit read_event 0); state = connected }

unfoldable pub set_keep_alive_enabled : Bool → Connection → Connection
set_keep_alive_enabled enabled c = record c { keep_alive_enabled = enabled }

unfoldable pub set_keep_alive_policy : ℕ → ℕ → Connection → Connection
set_keep_alive_policy max_requests idle_timeout_ms c = record c {
  max_keep_alive_requests = if max_requests == 0 then 1 else max_requests;
  keep_alive_idle_timeout_ms = if idle_timeout_ms == 0 then 1 else idle_timeout_ms;
}

unfoldable pub set_request_handler : Handler → Connection → Connection
set_request_handler handler c = record c { request_handler = some handler }

abbrev pub is_connected : State → Bool
is_connected connected = true
is_connected _ = false

abbrev pub is_disconnected : State → Bool
is_disconnected disconnected = true
is_disconnected _ = false

-- Signed: a last activity after `now_ms` counts as none.
unfoldable pub should_close_for_idle : ℕ → Connection → Bool
should_close_for_idle now_ms c =
    if not c.keep_alive_enabled
    then false
    else if not (is_connected c.state)
    then false
    else if c.keep_alive_idle_timeout_ms == 0
    then false
    else leb (c.last_activity_ms + c.keep_alive_idle_timeout_ms) now_ms

-- The value of the first Connection header, in lower case.
unfoldable pub connection_value : List (Bytes × Bytes) → Bytes
connection_value [] = []
connection_value ((k, v) ∷ hs) =
    if same (lower k) (codes "connection") then lower v else connection_value hs

unfoldable pub should_keep_alive : HttpRequest → Bool
should_keep_alive r =
    if same (lower r.version) (codes "http/1.0")
    then contains (codes "keep-alive") (connection_value r.headers)
    else not (contains (codes "close") (connection_value r.headers))

-- A channel that is there listens for the write event, or no more.
abbrev pub enable_write : Bool → Connection → Connection
enable_write flag c = record c {
  channel = elim c.channel [
    | none ↦ none
    | some ev ↦ some (if flag then with_bit write_event ev else without_bit write_event ev)
  ];
}

-- Close once: the DELETE task is posted by the first call only.
unfoldable pub close_in : State → Option ℕ → Connection → Connection
close_in disconnected ch c = c
close_in disconnecting ch c = c
close_in _ none c = record c { state = disconnected }
close_in _ (some ev) c = post delete_op (record c { state = disconnecting })

unfoldable pub handle_close : Connection → Connection
handle_close c = close_in c.state c.channel c

-- The destructor, which tells nobody.
unfoldable pub destroy : Connection → Connection
destroy c = record c { channel = none; state = disconnected }

-- `onChannelDestroyed_`; `notices` lists the descriptors given to the close callback.
unfoldable pub on_channel_destroyed : Connection → Connection
on_channel_destroyed c = record c {
  channel = none;
  state = disconnected;
  notices = c.notices ++ c.fd ∷ [];
}

-- The head of a response.
unfoldable pub response_head : ℕ → Bytes → ℕ → Bytes → Bool → Bytes
response_head status reason size content_type keep =
    codes "HTTP/1.1 "
    ++ (to_string status
        ++ (codes " "
            ++ (reason
                ++ (crlf
                    ++ (codes "Content-Type: "
                        ++ (content_type
                            ++ (crlf
                                ++ (codes "Content-Length: "
                                    ++ (to_string size
                                        ++ (crlf
                                            ++ (codes "Connection: "
                                                ++ ((if keep
                                                      then codes "keep-alive"
                                                      else codes "close")
                                                    ++ (crlf
                                                        ++ (codes "Server: CPPReactor"
                                                            ++ (crlf ++ crlf)))))))))))))))

unfoldable pub append_simple_response : ℕ → ℕ → Bytes → Bytes → Bytes → Connection → Connection
append_simple_response now status reason body content_type c =
    let m = Metrics.on_response_status status c.metrics in
    let head = response_head status reason (length body) content_type c.keep_alive_request in
    let b = Buffer.append c.write_buffer head in
    record c {
      metrics =
          if c.request_timing_active
          then Metrics.on_request_latency_us (now - c.request_start_time) m
          else m;
      request_timing_active = false;
      write_buffer = if not (is_empty body) then Buffer.append b body else b;
    }

-- The task names the channel's descriptor; the channel is there whenever this is called.
unfoldable pub queue_simple_response : ℕ → ℕ → Bytes → Connection → Connection
queue_simple_response now status reason c =
    post modify_op (enable_write true (append_simple_response now status reason [] text_plain c))

-- A status is taken over if it lies between 100 and 599.
abbrev pub status_or : ℤ → ℕ → ℕ
status_or (pos n) old = if leb 100 n && leb n 599 then n else old
status_or (negsuc n) old = old

abbrev pub text_or : Bytes → Bytes → Bytes
text_or new old = if not (is_empty new) then new else old

abbrev pub take_result : HandlerResult → Pending → Pending
take_result res p = record {
  status_code = status_or res.status_code p.status_code;
  reason_phrase = text_or res.reason_phrase p.reason_phrase;
  body = res.body;
  content_type = text_or res.content_type p.content_type;
}

-- `handleRead`, the part behind the handler: answer, unless the handler will answer later.
unfoldable pub respond : HandlerResult → Connection → Connection
respond res c =
    if res.async
    then record c { async_pending = true }
    else post modify_op (
        enable_write true (record c {
          pending = take_result res c.pending;
          keep_alive_request = if res.close_connection then false else c.keep_alive_request;
        }))

unfoldable pub serve : HttpRequest → Option Handler → Connection → Connection
serve r none c = post modify_op (enable_write true c)
serve r (some handler) c = respond (handler r).0 (record c { request = some (handler r).1 })

-- A request that parsed.
unfoldable pub accept_request : HttpRequest → Connection → Connection
accept_request r c = serve r c.request_handler (record c {
  request = some r;
  in_flight = none;
  metrics = Metrics.on_request_parsed c.metrics;
  keep_alive_request = c.keep_alive_enabled && should_keep_alive r;
  pending = default_pending;
})

-- Five seconds.
unfoldable pub is_parse_wait_timeout : ℕ → Connection → Bool
is_parse_wait_timeout now c = leb 5_000_000 (now - c.parse_wait_start)

unfoldable pub wait_for_more : ℕ → Connection → Connection
wait_for_more now c =
    if not c.parse_waiting
    then record c { parse_waiting = true; parse_wait_start = now }
    else if is_parse_wait_timeout now c
    then queue_simple_response now 408 (codes "Request Timeout") c
    else c

unfoldable pub reject : ℕ → Bool → Connection → Connection
reject now too_large c =
    let c' = record c { in_flight = none; keep_alive_request = false } in
    if too_large
    then queue_simple_response now 413 (codes "Payload Too Large") c'
    else queue_simple_response now 400 (codes "Bad Request") c'

-- The code and the request of a parse decide what happens next.
unfoldable pub on_parsed : ℕ → StatusCode → Option HttpRequest → Bool → Connection → Connection
on_parsed now again req too_large c = wait_for_more now c
on_parsed now ok (some r) too_large c = accept_request r (record c { parse_waiting = false })
on_parsed now _ _ too_large c = reject now too_large (record c { parse_waiting = false })

-- Bytes have arrived.
unfoldable pub on_bytes : ℕ → Bytes → Connection → Connection
on_bytes now s c =
    let (result, holder, b) = parse_request (Buffer.read_fd c.read_buffer (done s)) c.in_flight in
    on_parsed now result.code result.request result.too_large (record c {
      read_buffer = b;
      in_flight = holder;
      last_activity_ms = now / 1000;
      metrics = Metrics.on_bytes_read (length s) c.metrics;
      request_timing_active = true;
      request_start_time = if c.request_timing_active then c.request_start_time else now;
    })

-- EAGAIN, which is also EWOULDBLOCK.
abbrev pub eagain : ℕ
eagain = 11

unfoldable pub handle_read : ℕ → IoResult Bytes → Connection → Connection
handle_read now (failed errno) c = if errno == eagain then c else handle_close c
handle_read now (done []) c = handle_close c
handle_read now (done (x ∷ xs)) c = on_bytes now (x ∷ xs) c

-- The whole response has been sent.
unfoldable pub on_sent : Connection → Connection
on_sent c =
    if c.keep_alive_request
    then (let served = add64 c.served_requests 1 in
        let c' = record c {
          keep_alive_request = false;
          served_requests = served;
          request = none;
          pending = default_pending;
        } in
        if leb c.max_keep_alive_requests served
        then handle_close c'
        else elim c.channel [ none ↦ c' | some ev ↦ post modify_op (enable_write false c') ])
    else handle_close c

-- The answer of `write`, on the buffer that was offered to it.
unfoldable pub on_written : ℕ → IoResult ℕ → Connection → Connection
on_written now (failed errno) c =
    if not (errno == eagain)
    then handle_close c
    else if Buffer.readable_bytes c.write_buffer == 0
    then on_sent c
    else c
on_written now (done n) c =
    let b = Buffer.write_fd c.write_buffer (done n) in
    let c' =
      if ltb 0 n
      then record c {
        write_buffer = b;
        last_activity_ms = now / 1000;
        metrics = Metrics.on_bytes_written n c.metrics;
      }
      else c in
    if Buffer.readable_bytes b == 0 then on_sent c' else c'

-- What `handleWrite` offers to `write`.
unfoldable pub prepared : ℕ → Connection → Connection
prepared now c =
    if Buffer.readable_bytes c.write_buffer == 0
    then append_simple_response now c.pending.status_code c.pending.reason_phrase c.pending.body
        c.pending.content_type c
    else c

unfoldable pub handle_write : ℕ → IoResult ℕ → Connection → Connection
handle_write now r c = on_written now r (prepared now c)

-- Only a connected connection takes a late answer.
unfoldable pub send_async_response : HandlerResult → Connection → Connection
send_async_response res c =
    if not (is_connected c.state)
    then c
    else (let c' = record c { pending = take_result res c.pending; async_pending = false } in
        elim c.channel [ none ↦ c' | some ev ↦ post modify_op (enable_write true c') ])
