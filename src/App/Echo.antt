-- ===== src/App/Echo.antt =====
-- src/app/main_echo.cpp: the server of fixed responses that the benchmarks run against. `s_ctx` is a
-- function of the descriptor, with `none` for the null pointer. A channel is an object that its
-- context and the loop that owns it share: `channels` is the memory of these objects, `next` is the
-- first address not used yet, and a channel is a pointer of a context. A loop is of a type `L`, and
-- `posted` lists what the loops were told, in order. What `read` and `write` answer is an argument.
pub mod Linked
pub mod Pending
pub mod Balance
pub mod Program
pub mod Adds
pub mod Turns
use cpp_reactor.Base.{
  is_neg, ℕ, ◌+◌, ◌^◌, Bool, true, false, not, ◌&&◌, ◌||◌, Option, none, some, List, [], ◌∷◌, ◌++◌,
  Bytes, codes, ℤ, pos, negsuc, ltb, ◌==◌, if◌then◌else◌,
}
use cpp_reactor.Channel.{Channel, read_event, write_event_enable}
use cpp_reactor.Loop.{ChannelOp, add_op, delete_op, modify_op}

abbrev pub http_ok_response : Bytes
http_ok_response =
    codes "HTTP/1.1 200 OK\r\n"
    ++ codes "Content-Length: 0\r\n"
    ++ codes "Connection: keep-alive\r\n"
    ++ codes "\r\n"

abbrev pub max_fds : ℕ
max_fds = 65_536

-- The callbacks of a channel, which capture its descriptor.
pub data EchoCall : Type 0 where
  read_cb write_cb destroy_cb : ℕ → EchoCall

pub record EchoContext (L : Type 0) : Type 0 where
  pub write_pending : Bool
  pub channel : Option ℕ
  pub loop : L

-- What a loop is told: the channel that it takes over, by its address, or that of a descriptor.
pub data Task : Type 0 where
  adds : ℕ → Task
  modifies : ℤ → Task
  destroys : ℕ → Task

pub record Echo (L : Type 0) : Type 0 where
  pub ctx : ℕ → Option (EchoContext L)
  pub channels : ℕ → Option (Channel EchoCall)
  pub next : ℕ
  pub posted : List (L × Task)
  pub closed : List ℤ
  pub written : List ℕ

-- What `read` and `write` return: a number of bytes, or an error.
pub data Answer : Type 0 where
  bytes : ℕ → Answer
  would_block : Answer
  failed : Answer

abbrev pub update : {A : Type 0} → (ℕ → Option A) → ℕ → Option A → ℕ → Option A
update f k v j = if k == j then v else f j

abbrev pub new_channel : ℕ → Channel EchoCall
new_channel fd = record {
  fd = pos fd;
  events = 2 ^ read_event;
  read_callback = some (read_cb fd);
  write_callback = some (write_cb fd);
  destroy_callback = some (destroy_cb fd);
}

module _ {L : Type 0} where
  abbrev pub start : Echo L
  start = record {
    ctx = λ fd. none;
    channels = λ p. none;
    next = 0;
    posted = [];
    closed = [];
    written = [];
  }

  abbrev pub set_ctx : ℕ → Option (EchoContext L) → Echo L → Echo L
  set_ctx fd c s = record s { ctx = update s.ctx fd c }

  abbrev pub tell : L → Task → Echo L → Echo L
  tell l t s = record s { posted = s.posted ++ (l, t) ∷ [] }

  -- The loop of a context is never null.
  abbrev pub tell_destroy : ℕ → L → Option ℕ → Echo L → Echo L
  tell_destroy fd l none s = s
  tell_destroy fd l (some p) s = tell l (destroys fd) s

  abbrev pub close_found : ℕ → Option (EchoContext L) → Echo L → Echo L
  close_found fd none s = s
  close_found fd (some c) s = tell_destroy fd c.loop c.channel (set_ctx fd none s)

  unfoldable pub close_conn : ℕ → Echo L → Echo L
  close_conn fd s = if not (ltb fd max_fds) then s else close_found fd (s.ctx fd) s

  -- `writeEventEnable` on the channel, and the task that tells its loop. A pointer to no object is
  -- undefined in the source.
  abbrev pub enable_found : ℕ → Bool → L → Option (Channel EchoCall) → Echo L → Echo L
  enable_found p flag l none s = s
  enable_found p flag l (some ch) s =
      tell l (modifies ch.fd)
        (record s { channels = update s.channels p (some (write_event_enable ch flag)) })

  abbrev pub enable : Bool → L → Option ℕ → Echo L → Echo L
  enable flag l none s = s
  enable flag l (some p) s = enable_found p flag l (s.channels p) s

  abbrev pub set_pending : ℕ → Bool → EchoContext L → Echo L → Echo L
  set_pending fd flag c s =
      enable flag c.loop c.channel (set_ctx fd (some (record c { write_pending = flag })) s)

  unfoldable pub read_found : ℕ → Answer → Option (EchoContext L) → Echo L → Echo L
  read_found fd n none s = s
  read_found fd (bytes n) (some c) s =
      if n == 0 then close_conn fd s else if not c.write_pending then set_pending fd true c s else s
  read_found fd would_block (some c) s = s
  read_found fd failed (some c) s = close_conn fd s

  -- `readCb`, when `read` would answer `n`.
  unfoldable pub on_read : ℕ → Answer → Echo L → Echo L
  on_read fd n s = read_found fd n (s.ctx fd) s

  -- A write of some bytes, which need not be the whole response.
  abbrev pub wrote : ℕ → ℕ → EchoContext L → Echo L → Echo L
  wrote fd n c s =
      if n == 0 then s else set_pending fd false c (record s { written = fd ∷ s.written })

  unfoldable pub write_found : ℕ → Answer → Option (EchoContext L) → Echo L → Echo L
  write_found fd n none s = s
  write_found fd (bytes n) (some c) s = if not c.write_pending then s else wrote fd n c s
  write_found fd would_block (some c) s = s
  write_found fd failed (some c) s = if not c.write_pending then s else close_conn fd s

  -- `writeCb`, when `write` would answer `n`.
  unfoldable pub on_write : ℕ → Answer → Echo L → Echo L
  on_write fd n s = write_found fd n (s.ctx fd) s

  abbrev pub destroyed_found : ℕ → Option (EchoContext L) → Echo L → Echo L
  destroyed_found fd none s = s
  destroyed_found fd (some c) s = set_ctx fd (some (record c { channel = none })) s

  unfoldable pub on_destroy : ℕ → Echo L → Echo L
  on_destroy fd s = destroyed_found fd (s.ctx fd) s

  unfoldable pub register_valid : ℕ → L → Echo L → Echo L
  register_valid fd l s = tell l (adds s.next) (record s {
    ctx =
        update s.ctx fd (some (record { write_pending = false; channel = some s.next; loop = l }));
    channels = update s.channels s.next (some (new_channel fd));
    next = s.next + 1;
  })

  unfoldable pub register_conn : ℤ → L → Echo L → Bool × Echo L
  unfolding register_valid
  register_conn (pos fd) l s =
      if not (ltb fd max_fds)
      then (false, record s { closed = pos fd ∷ s.closed })
      else (true, register_valid fd l s)
  register_conn (negsuc n) l s = (false, record s { closed = negsuc n ∷ s.closed })

  -- `~Channel` in its two halves, between which other threads run: the descriptor is closed, and then
  -- the destroy callback runs and the memory is given back.
  abbrev pub close_object : Option (Channel EchoCall) → Echo L → Echo L
  close_object none s = s
  close_object (some ch) s = if is_neg ch.fd then s else record s { closed = ch.fd ∷ s.closed }

  abbrev pub run_destroy : Option EchoCall → Echo L → Echo L
  run_destroy (some (destroy_cb fd)) s = on_destroy fd s
  run_destroy _ s = s

  abbrev pub end_object : ℕ → Option (Channel EchoCall) → Echo L → Echo L
  end_object p none s = s
  end_object p (some ch) s =
      let s' = run_destroy ch.destroy_callback s in
      record s' { channels = update s'.channels p none }

-- What happens on the thread of a loop: a callback of a descriptor runs, or a channel is destroyed.
pub data LoopEvent : Type 0 where
  readable writable : ℕ → Answer → LoopEvent
  closes ends : ℕ → LoopEvent

-- What happens, whichever thread it happens on: a connection is given to a loop, or an event of a loop.
pub data Event (L : Type 0) : Type 0 where
  accepts : ℤ → L → Event L
  on_loop : LoopEvent → Event L

module _ {L : Type 0} where
  unfoldable pub happen_on_loop : LoopEvent → Echo L → Echo L
  happen_on_loop (readable fd n) s = on_read fd n s
  happen_on_loop (writable fd n) s = on_write fd n s
  happen_on_loop (closes p) s = close_object (s.channels p) s
  happen_on_loop (ends p) s = end_object p (s.channels p) s

  unfoldable pub happen : Event L → Echo L → Echo L
  unfolding happen_on_loop
  happen (accepts fd l) s = (register_conn fd l s).1
  happen (on_loop e) s = happen_on_loop e s

  unfoldable pub happen_all : List (Event L) → Echo L → Echo L
  unfolding happen
  happen_all [] s = s
  happen_all (e ∷ es) s = happen_all es (happen e s)
