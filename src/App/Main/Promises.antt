-- ===== src/App/Main/Promises.antt =====
-- src/app/main.cpp and src/handler/SqlHandler.cpp: the requests of the SQL routes, and what becomes of
-- those that are to be answered later.
use cpp_reactor.Base.{ℕ, ◌≡◌, ◌⊎◌, List, [], ◌∷◌, ◌++◌, if◌then◌else◌}
use cpp_reactor.Http.Request.{HttpRequest}
use cpp_reactor.Sql.Config.{SqlConfig}
use cpp_reactor.Sql.MySql.{Driver, MySqlConnection}
use cpp_reactor.Sql.Executor.{SqlExecutor, request_stop, work}
use cpp_reactor.Sql.Executor.Drain
use cpp_reactor.Sql.Executor.Drain.{Event, happen, accepted_by}
use cpp_reactor.Handler.SqlHandler.{Json, Job, World, extract_sql_param}
use cpp_reactor.App.Main.Endpoint.{sql_endpoint, run_query, end_thread}

-- What happens to the program's executor: a connection's request reaches the handler, the program asks
-- it to stop, or its thread does a round.
pub data Turn (K : Type 0) : Type 0 where
  asks : HttpRequest → K → Turn K
  stops works : Turn K

abbrev pub Executing : Type 0 → Type 0 → Type 0
Executing K S = SqlExecutor (Job K) (World K (MySqlConnection S))

module _ {K F G S R W : Type 0} (json : Json F G) (driver : Driver F S R W) (clock : ℕ → ℕ)
    (c : SqlConfig) where
  abbrev run : Job K → World K (MySqlConnection S) → World K (MySqlConnection S)
  run = run_query json driver clock c

  abbrev clean : World K (MySqlConnection S) → World K (MySqlConnection S)
  clean = end_thread json driver clock c

  unfoldable pub turn : Turn K → Executing K S → Executing K S
  turn (asks req conn) e = (sql_endpoint c req conn e).1
  turn stops e = request_stop e
  turn works e = work run clean e

  unfoldable pub turns : List (Turn K) → Executing K S → Executing K S
  unfolding turn
  turns [] e = e
  turns (t ∷ ts) e = turns ts (turn t e)

  abbrev pub query_of : HttpRequest → K → Job K
  query_of req conn = record { sql = extract_sql_param req.url; conn = conn }

  -- The query of a request whose response is left to a later answer.
  abbrev pub promised_by : Turn K → Executing K S → List (Job K)
  promised_by (asks req conn) e =
      if (sql_endpoint c req conn e).0.async then query_of req conn ∷ [] else []
  promised_by stops e = []
  promised_by works e = []

  unfoldable pub promised : List (Turn K) → Executing K S → List (Job K)
  unfolding turn
  promised [] e = []
  promised (t ∷ ts) e = promised_by t e ++ promised ts (turn t e)

  -- A turn leaves the executor alone and promises nothing, or it is an event.
  abbrev IsEvent : List (Job K) → Executing K S → Executing K S → Type 0
  IsEvent jobs e after =
      ((after ≡ e) × (jobs ≡ []))
      ⊎ ((v : Event (Job K)) × (after ≡ happen run clean v e) × (jobs ≡ accepted_by run clean v e))
