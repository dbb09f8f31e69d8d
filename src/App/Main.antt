-- ===== src/App/Main.antt =====
-- src/app/main.cpp: the server program. `atoi` is a parameter, as are the directory calls, what the
-- socket calls of the server's constructor return, and the two handlers, which are made from what the
-- program gives their constructors.
pub mod Options
pub mod Routes
pub mod Code
pub mod Endpoint
pub mod Promises
use cpp_reactor.Base.{
  ℕ, ◌+◌, ◌-◌, ◌%◌, ◌^◌, Bool, true, false, not, ◌||◌, Option, none, some, List, [], ◌∷◌, ◌++◌,
  Bytes, codes, same, ℤ, pos, negsuc, ltb, length, if◌then◌else◌,
}
use cpp_reactor.Status.{StatusCode, ok, again, invalid, not_found, error}
use cpp_reactor.Dispatcher.Names.{DispatcherType, epoll, dispatcher_type_from_string}
use cpp_reactor.Connection.{Handler}
use cpp_reactor.Http.Router.{RouteEntry, get, add_prefix, dispatch}
use cpp_reactor.Metrics.{Metrics}
use cpp_reactor.Server.{Server, create_server, set_request_handler}
use cpp_reactor.Server.Accept.{Accepted, Next, goes, ends, faults, accept_connection, run}
use cpp_reactor.Sql.Config.{SqlConfig, Json, Loaded, loaded, load_sql_config_from_file_or_throw}
use cpp_reactor.Sql.ThreadConn.{ConnOptions}

abbrev pub is_sql_option : Bytes → Bool
is_sql_option arg = same arg (codes "--enable-sql")

abbrev pub is_help : Bytes → Bool
is_help arg = same arg (codes "--help") || same arg (codes "-h")

-- The loop over the arguments behind the program's name, with `enableSql` and `args` so far. It is
-- left with `none` when help is asked for.
unfoldable pub read_args : List Bytes → Bool → List Bytes → Option (Bool × List Bytes)
read_args [] enable_sql args = some (enable_sql, args)
read_args (arg ∷ rest) enable_sql args =
    let enabled = read_args rest true args in
    let kept = read_args rest enable_sql (args ++ arg ∷ []) in
    if is_sql_option arg then enabled else if is_help arg then none else kept

-- `static_cast<uint16_t>` and `static_cast<uint32_t>` of an `int`.
abbrev pub to_unsigned : ℕ → ℤ → ℕ
to_unsigned bits (pos n) = n % 2 ^ bits
to_unsigned bits (negsuc n) = 2 ^ bits - 1 - n % 2 ^ bits

pub record Settings : Type 0 where
  pub port : ℕ
  pub resource_path : Bytes
  pub dispatcher_type : DispatcherType
  pub max_threads : ℕ
  pub keep_alive_enabled : Bool
  pub keep_alive_max_requests : ℕ
  pub keep_alive_idle_ms : ℕ

abbrev pub number_or : (Bytes → ℤ) → List Bytes → ℕ → ℕ
number_or atoi [] default = default
number_or atoi (arg ∷ rest) default = to_unsigned 32 (atoi arg)

abbrev pub dispatcher_or : List Bytes → DispatcherType
dispatcher_or [] = epoll
dispatcher_or (arg ∷ rest) = dispatcher_type_from_string arg epoll

abbrev pub is_keep_alive : List Bytes → Bool
is_keep_alive [] = same (codes "close") (codes "keepalive")
is_keep_alive (arg ∷ rest) = same arg (codes "keepalive")

abbrev pub rest : List Bytes → List Bytes
rest [] = []
rest (arg ∷ args) = args

-- `none` where there are fewer than two arguments.
unfoldable pub settings : (Bytes → ℤ) → List Bytes → Option Settings
settings atoi [] = none
settings atoi (port ∷ []) = none
settings atoi (port ∷ path ∷ args) = some (record {
  port = to_unsigned 16 (atoi port);
  resource_path = path;
  dispatcher_type = dispatcher_or args;
  max_threads = number_or atoi (rest args) 4;
  keep_alive_enabled = is_keep_alive (rest (rest args));
  keep_alive_max_requests = number_or atoi (rest (rest (rest args))) 100;
  keep_alive_idle_ms = number_or atoi (rest (rest (rest (rest args)))) 10_000;
})

abbrev pub conn_options : SqlConfig → ConnOptions
conn_options c = record {
  ping_before_use = c.ping_before_use;
  max_conn_lifetime_ms = c.max_conn_lifetime_ms;
  max_conn_idle_ms = c.max_conn_idle_ms;
}

-- The SQL handler is there if the SQL routes are enabled.
abbrev pub sql_routes : Option Handler → List RouteEntry
sql_routes none = []
sql_routes (some sql_handler) = get (codes "/sql") sql_handler (get (codes "/query") sql_handler [])

unfoldable pub routes : Option Handler → Handler → List RouteEntry
routes sql_handler static_handler = add_prefix (codes "/") static_handler (sql_routes sql_handler)

-- What the program uses of the system and of its handlers. `listening` is the descriptor that the
-- constructor of the server ends up with, or `none` for its exception; `make_sql` makes the SQL handler
-- and starts its executor, `config_path` is config/SQLConfig.json under the first directory, and
-- `listens` is whether `listen` succeeds.
pub record System (L : Type 0) : Type 0 where
  pub atoi : Bytes → ℤ
  pub chdir : Bytes → Bool
  pub listening : ℕ → Option ℤ
  pub read_file : Bytes → Option Bytes
  pub config_path : Bytes
  pub make_sql : ConnOptions → SqlConfig → Handler
  pub make_static : Handler
  pub make_loop : DispatcherType → ℕ → L
  pub listens : Bool
  pub now : ℕ
  pub metrics : Metrics

-- The program ends with an exit code, still serves when the rounds of the accept loop end, or makes
-- an access out of bounds.
pub data Exit (L : Type 0) : Type 0 where
  exits : ℤ → Exit L
  serves : Server L → Exit L
  crashes : Exit L

abbrev pub failure : ℤ
failure = negsuc 0

abbrev pub exit_code : StatusCode → ℤ
exit_code ok = pos 0
exit_code _ = failure

module _ {L : Type 0} where
  -- The accept loop, with the time and the answer of `accept` in each round.
  abbrev pub after_round : (Server L → Exit L) → Next L → Exit L
  after_round next (goes s) = next s
  after_round next (ends code s) = exits (exit_code code)
  after_round next faults = crashes

  unfoldable pub serve_rounds : List (ℕ × Accepted) → Server L → Exit L
  serve_rounds [] s = serves s
  serve_rounds ((now, answer) ∷ rounds) s =
      after_round (serve_rounds rounds) (accept_connection now answer s)

  abbrev pub started : List (ℕ × Accepted) → Server L × StatusCode → Exit L
  started rounds (s, ok) = serve_rounds rounds s
  started rounds (s, code) = exits (exit_code code)

  abbrev pub run_server :
      System L → Settings → List (ℕ × Accepted) → Option Handler → Server L → Exit L
  run_server sys set rounds sql_handler s = started rounds (
      run (sys.make_loop set.dispatcher_type) sys.listens
        (set_request_handler (dispatch (routes sql_handler sys.make_static)) s))

  -- The configuration is read only if the SQL routes are enabled.
  abbrev pub with_config : System L → Settings → List (ℕ × Accepted) → Loaded → Server L → Exit L
  with_config sys set rounds (loaded c) s =
      run_server sys set rounds (some (sys.make_sql (conn_options c) c)) s
  with_config sys set rounds _ s = exits failure

  abbrev pub new_server : System L → Settings → ℤ → Server L
  new_server sys set lfd =
      create_server lfd set.max_threads set.keep_alive_enabled set.keep_alive_max_requests
        set.keep_alive_idle_ms sys.now sys.metrics

  module _ {J : Type 0} (json : Json J) where
    abbrev pub constructed : System L → Settings → Bool → List (ℕ × Accepted) → Option ℤ → Exit L
    constructed sys set enable_sql rounds none = exits failure
    constructed sys set enable_sql rounds (some lfd) =
        let s = new_server sys set lfd in
        if enable_sql
        then with_config sys set rounds
            (load_sql_config_from_file_or_throw json sys.read_file sys.config_path) s
        else run_server sys set rounds none s

    abbrev pub with_settings : System L → Bool → List (ℕ × Accepted) → Option Settings → Exit L
    with_settings sys enable_sql rounds none = exits failure
    with_settings sys enable_sql rounds (some set) =
        if not (sys.chdir set.resource_path)
        then exits failure
        else constructed sys set enable_sql rounds (sys.listening set.port)

    abbrev pub with_args : System L → List (ℕ × Accepted) → Option (Bool × List Bytes) → Exit L
    with_args sys rounds none = exits (pos 0)
    with_args sys rounds (some (enable_sql, args)) =
        with_settings sys enable_sql rounds (settings sys.atoi args)

    unfoldable pub main_program : System L → List Bytes → List (ℕ × Accepted) → Exit L
    unfolding read_args settings routes serve_rounds
    main_program sys args rounds = with_args sys rounds (read_args args false [])
