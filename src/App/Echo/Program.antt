-- ===== src/App/Echo/Program.antt =====
-- src/app/main_echo.cpp: `main`. `make` gives the loop of each worker thread; what `atoi`, the socket
-- calls and `accept4` answer are arguments. Between two answers of `accept4` the threads of the loops
-- run. `s_running` is never cleared.
use cpp_reactor.Base.{
  ℕ, ◌-◌, ◌%◌, ◌^◌, Bool, not, Option, none, some, List, [], ◌∷◌, ◌++◌, Bytes, ℤ, pos, negsuc,
  is_neg, if◌then◌else◌,
}
use cpp_reactor.IoPool
use cpp_reactor.IoPool.{IoPool, get_next_loop}
use cpp_reactor.App.Echo.{Echo, start, register_conn, LoopEvent, happen_on_loop}

-- What `accept4` answers.
pub data Accepted : Type 0 where
  taken : ℕ → Accepted
  interrupted not_ready broken : Accepted

pub data Step : Type 0 where
  answers : Accepted → Step
  elsewhere : LoopEvent → Step

pub record Acceptor (L : Type 0) : Type 0 where
  pub pool : IoPool L
  pub echo : Echo L

-- `waits` is a loop that still runs when the steps end, and `faults` an access out of bounds.
pub data Outcome (L : Type 0) : Type 0 where
  ended waits : Acceptor L → Outcome L
  faults : Outcome L

-- `static_cast<uint32_t>` of an `int`.
abbrev pub to_uint32 : ℤ → ℕ
to_uint32 (pos n) = n % 2 ^ 32
to_uint32 (negsuc n) = 2 ^ 32 - 1 - n % 2 ^ 32

module _ {L : Type 0} where
  -- A connection without a loop is closed.
  abbrev pub give : ℕ → Option L → Echo L → Echo L
  give fd none s = record s { closed = pos fd ∷ s.closed }
  give fd (some l) s = (register_conn (pos fd) l s).1

  abbrev pub place : ℕ → Option (Option L × IoPool L) → Echo L → Option (Acceptor L)
  place fd none s = none
  place fd (some (l, p)) s = some (record { pool = p; echo = give fd l s })

  abbrev pub run_elsewhere : LoopEvent → Acceptor L → Acceptor L
  run_elsewhere e w = record w { echo = happen_on_loop e w.echo }

  abbrev pub and_then : (Acceptor L → Outcome L) → Option (Acceptor L) → Outcome L
  and_then f none = faults
  and_then f (some w) = f w

  unfoldable pub accept_loop : List Step → Acceptor L → Outcome L
  accept_loop [] w = waits w
  accept_loop (elsewhere e ∷ steps) w = accept_loop steps (run_elsewhere e w)
  accept_loop (answers (taken fd) ∷ steps) w =
      and_then (accept_loop steps) (place fd (get_next_loop w.pool) w.echo)
  accept_loop (answers broken ∷ steps) w = ended w
  accept_loop (answers _ ∷ steps) w = accept_loop steps w

-- What the calls on the listening socket return, and whether `bind` to a port and `listen` succeed.
pub record Sockets : Type 0 where
  pub socket : ℤ
  pub bind : ℕ → Bool
  pub listen : Bool

-- The exit code, and what the program leaves.
pub data Exit (L : Type 0) : Type 0 where
  exits : ℕ → Acceptor L → Exit L
  keeps_running : Exit L
  crashes : Exit L

abbrev pub arg_or : (Bytes → ℤ) → List Bytes → ℕ → ℤ
arg_or atoi [] default = pos default
arg_or atoi (arg ∷ args) default = atoi arg

abbrev pub rest : List Bytes → List Bytes
rest [] = []
rest (arg ∷ args) = args

-- `static_cast<uint16_t>` of an `int`.
abbrev pub to_uint16 : ℤ → ℕ
to_uint16 (pos n) = n % 2 ^ 16
to_uint16 (negsuc n) = 2 ^ 16 - 1 - n % 2 ^ 16

module _ {L : Type 0} (make : ℕ → L) (shut : L → L) where
  abbrev pub leave : ℕ → List ℤ → Acceptor L → Exit L
  leave code fds w = exits code (record w {
    pool = IoPool.stop shut w.pool;
    echo = record w.echo { closed = fds ++ w.echo.closed };
  })

  abbrev pub after_loop : ℤ → Outcome L → Exit L
  after_loop lfd (ended w) = leave 0 (lfd ∷ []) w
  after_loop lfd (waits w) = keeps_running
  after_loop lfd faults = crashes

  -- The pool starts before the socket is made; its end stops it.
  unfoldable pub main_echo : (Bytes → ℤ) → List Bytes → Sockets → List Step → Exit L
  unfolding accept_loop
  main_echo atoi args sys steps =
      let port = arg_or atoi args 8080 in
      let threads = arg_or atoi (rest args) 12 in
      let pool = IoPool.start make (IoPool.create (to_uint32 threads)) in
      let w : Acceptor L = record { pool = pool; echo = start } in
      if is_neg sys.socket
      then leave 1 [] w
      else if not (sys.bind (to_uint16 port))
      then leave 1 (sys.socket ∷ []) w
      else if not sys.listen
      then leave 1 (sys.socket ∷ []) w
      else after_loop sys.socket (accept_loop steps w)
