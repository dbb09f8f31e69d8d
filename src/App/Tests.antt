-- ===== src/App/Tests.antt =====
-- Runs of the programs on concrete input, and their theorems at such input.
use cpp_reactor.Base.{
  ℕ, ◌+◌, ◌≤◌, ◌↔◌, ◌≡◌, refl, Bool, true, none, some, List, [], ◌∷◌, Bytes, codes, pos, arith,
}
use cpp_reactor.Http.Request.{HttpRequest, new}
use cpp_reactor.Connection.{Handler, default_result}
use cpp_reactor.Http.Router.{dispatch}
use cpp_reactor.Metrics.{Metrics}
use cpp_reactor.IoPool
use cpp_reactor.Sql.Config.{Json}
use cpp_reactor.Server.Accept.{refused}
use cpp_reactor.App.Echo.{
  Event, accepts, on_loop, readable, writable, closes, ends, bytes, failed, start, happen,
  happen_on_loop, happen_all, register_conn, register_valid, on_read, read_found, close_conn,
  on_destroy, adds, destroys,
}
use cpp_reactor.App.Echo.Linked.{Linked}
use cpp_reactor.App.Echo.Pending.{happen_all-Linked}
use cpp_reactor.App.Echo.Balance.{occurrences, pending, reads, happen_all-answered}
use cpp_reactor.App.Echo.Program.{Step, answers, elsewhere, taken, interrupted, accept_loop}
use cpp_reactor.App.Echo.Turns.{given, GivenTo, accept_loop-turns}
use cpp_reactor.App.Main.{routes, is_help, System, exits, main_program}
use cpp_reactor.App.Main.Options.{any}
use cpp_reactor.App.Main.Routes.{answer, dispatch-routes}
use cpp_reactor.App.Main.Code.{main_program-zero_iff}
use cpp_reactor.App.Main.Promises
use cpp_reactor.App.Main.Promises.{Turn, asks}

-- A loop is a number. A connection is read from, written to and closed by its peer.
abbrev one_request : List (Event ℕ)
one_request =
    accepts (pos 5) 1
    ∷ on_loop (readable 5 (bytes 20))
    ∷ on_loop (writable 5 (bytes 60))
    ∷ on_loop (readable 5 (bytes 0))
    ∷ on_loop (closes 0)
    ∷ on_loop (ends 0)
    ∷ []

happen_all-Linked_example : Linked (happen_all one_request start)
happen_all-Linked_example = happen_all-Linked one_request

happen_all-answered_example :
    occurrences 5 (happen_all one_request start).written
      + pending ((happen_all one_request start).ctx 5)
    ≤ reads 5 one_request
happen_all-answered_example = happen_all-answered 5 one_request

abbrev two_clients : List Step
two_clients =
    answers interrupted
    ∷ answers (taken 5)
    ∷ elsewhere (readable 5 (bytes 20))
    ∷ answers (taken 6)
    ∷ []

accept_loop-turns_example :
    GivenTo
      (λ i. i)
      3
      (given (λ i. i) 3 0 two_clients)
      (accept_loop two_clients
        (record { pool = IoPool.start (λ i. i) (IoPool.create 3); echo = start }))
accept_loop-turns_example = accept_loop-turns (λ i. i) 3 two_clients (omega arith) (omega arith)

abbrev says : Bytes → Handler
says text r = (record default_result { body = text }, r)

abbrev get_sql : HttpRequest
get_sql = record new { method = codes "GET"; url = codes "/sql?sql=SELECT%201" }

dispatch-routes_example :
    dispatch (routes (some (says (codes "rows"))) (says (codes "file"))) get_sql
    ≡ answer (some (says (codes "rows"))) (says (codes "file")) get_sql
dispatch-routes_example = dispatch-routes (some (says (codes "rows"))) (says (codes "file")) get_sql

abbrev no_metrics : Metrics
no_metrics = record {
  accept_ok = 0;
  accept_fail = 0;
  active_connections = 0;
  requests_total = 0;
  responses_2xx = 0;
  responses_4xx = 0;
  responses_5xx = 0;
  bytes_read = 0;
  bytes_written = 0;
  request_latency_samples = 0;
  request_latency_total_us = 0;
  request_latency_max_us = 0;
}

-- A JSON library that knows nothing.
abbrev no_json : Json Bool
no_json = record {
  at = λ v k. none;
  get_string = λ v. none;
  get_uint16 = λ v. none;
  get_uint32 = λ v. none;
  get_bool = λ v. none;
  object = λ ms. true;
  of_string = λ s. true;
  of_uint = λ n. true;
  of_bool = λ b. true;
  parse = λ s. none;
}

abbrev machine : System ℕ
machine = record {
  atoi = λ s. pos 8080;
  chdir = λ s. true;
  listening = λ port. some (pos 3);
  read_file = λ s. none;
  config_path = codes "config/SQLConfig.json";
  make_sql = λ o c. says (codes "rows");
  make_static = says (codes "file");
  make_loop = λ t i. i;
  listens = true;
  now = 0;
  metrics = no_metrics;
}

abbrev arguments : List Bytes
arguments = codes "8080" ∷ codes "www" ∷ codes "--help" ∷ []

main_program-zero_iff_example :
    (main_program no_json machine arguments ((1, refused 9) ∷ []) ≡ exits (pos 0))
    ↔ (any is_help arguments ≡ true)
main_program-zero_iff_example =
    main_program-zero_iff no_json machine arguments ((1, refused 9) ∷ [])

-- A descriptor is given to a new connection after the old channel has closed it and before the old
-- channel's destroy callback runs. The new context loses its channel: what it reads leaves a response
-- pending, and no loop is told to wait until it can be written.
abbrev reused : List (Event ℕ)
reused =
    accepts (pos 5) 1
    ∷ on_loop (readable 5 failed)
    ∷ on_loop (closes 0)
    ∷ accepts (pos 5) 2
    ∷ on_loop (ends 0)
    ∷ on_loop (readable 5 (bytes 20))
    ∷ []

reused-pending : pending ((happen_all reused start).ctx 5) ≡ 1
unfolding happen_all happen happen_on_loop register_conn register_valid on_read read_found
    close_conn on_destroy
reused-pending = refl

reused-posted : (happen_all reused start).posted ≡ (1, adds 0) ∷ (1, destroys 5) ∷ (2, adds 1) ∷ []
unfolding happen_all happen happen_on_loop register_conn register_valid on_read read_found
    close_conn on_destroy
reused-posted = refl

-- The second request is refused.
abbrev some_turns : List (Turn ℕ)
some_turns =
    asks (record new { method = codes "GET"; url = codes "/sql?sql=SELECT%201" }) 6
    ∷ asks (record new { method = codes "POST"; url = codes "/sql?sql=SELECT%202" }) 7
    ∷ Promises.works
    ∷ asks (record new { method = codes "GET"; url = codes "/sql?sql=SELECT%203" }) 8
    ∷ Promises.stops
    ∷ []

-- The clock of a thread stands at the number of its readings.
abbrev readings_clock : ℕ → ℕ
readings_clock n = n
