-- ===== src/Handler/SqlHandler.antt =====
-- include/handler/SqlHandler.hpp and src/handler/SqlHandler.cpp. A connection's weak pointer is a key
-- of a type `K`, and the loop's pointer goes with it. The JSON library is a record of what is called
-- of it, on a type `G`; `none` is an exception. `clock` gives the readings of the steady clock on the
-- worker thread, one after the other.
pub mod Param
pub mod Admission
pub mod Answers
use cpp_reactor.Base.{
  ℕ, zero, suc, ◌+◌, Bool, true, false, not, ◌&&◌, Option, none, some, List, [], ◌∷◌, ◌++◌, map,
  Bytes, codes, same, is_empty, find, take, drop, if◌then◌else◌, length, ℤ, pos,
}
use cpp_reactor.Url.{url_decode}
use cpp_reactor.Guard.{is_read_only_statement}
use cpp_reactor.Http.Request.{HttpRequest}
use cpp_reactor.Connection.{HandlerResult, default_result}
use cpp_reactor.Sql.{SqlConnection, SqlValue, SqlRows, Result, null, uint64, int64, double, string}
use cpp_reactor.Sql.ThreadConn
use cpp_reactor.Sql.ThreadConn.{
  ConnOptions, Slot, Outcome, returns, throws, faults, with_connection,
}
use cpp_reactor.Sql.Executor.{SqlExecutor, submit}

-- The value of a segment `sql=...`.
abbrev pub segment_value : Bytes → Option ℕ → Option Bytes
segment_value seg none = none
segment_value seg (some eq) =
    if same (take eq seg) (codes "sql") then some (url_decode (drop (eq + 1) seg)) else none

abbrev pub first_segment : Option ℕ → Bytes → Bytes
first_segment none qs = qs
first_segment (some amp) qs = take amp qs

-- What stands behind the `&`, if there is one.
abbrev pub next_segments : Option ℕ → Bytes → Bytes
next_segments none qs = []
next_segments (some amp) qs = drop (amp + 1) qs

abbrev pub or_else : Option Bytes → Bytes → Bytes
or_else none later = later
or_else (some value) later = value

-- The loop, on the query from `start` on. Each round takes a byte at least.
unfoldable pub search_segments : ℕ → Bytes → Bytes
search_segments zero qs = []
search_segments (suc fuel) [] = []
search_segments (suc fuel) (c ∷ cs) =
    let amp = find (b'&' ∷ []) (c ∷ cs) in
    let seg = first_segment amp (c ∷ cs) in
    or_else (segment_value seg (find (b'=' ∷ []) seg))
      (search_segments fuel (next_segments amp (c ∷ cs)))

abbrev pub search_query : Option ℕ → Bytes → Bytes
search_query none url = []
search_query (some q) url = search_segments (length url) (drop (q + 1) url)

unfoldable pub extract_sql_param : Bytes → Bytes
unfolding search_segments
extract_sql_param url = search_query (find (b'?' ∷ []) url) url

pub record Json (F G : Type 0) : Type 0 where
  pub null : G
  pub of_uint : ℕ → G
  pub of_int : ℤ → G
  pub of_double : F → G
  pub of_string : Bytes → G
  pub array : List G → G
  pub object : List (Bytes × G) → G
  pub dump : G → Option Bytes
  pub dump_indented : ℕ → G → Option Bytes

module _ {F G : Type 0} (json : Json F G) where
  abbrev pub cell_to_json : SqlValue F → G
  cell_to_json null = json.null
  cell_to_json (uint64 n) = json.of_uint n
  cell_to_json (int64 z) = json.of_int z
  cell_to_json (double x) = json.of_double x
  cell_to_json (string s) = json.of_string s

  unfoldable pub format_rows_to_json : SqlRows F → Option Bytes
  format_rows_to_json rows =
      json.dump_indented 2 (json.array (map (λ row. json.array (map cell_to_json row)) rows))

  abbrev pub json_result : HandlerResult
  json_result = record default_result { content_type = codes "application/json; charset=utf-8" }

  abbrev pub with_body : ℤ → Option Bytes → Option HandlerResult
  with_body status none = none
  with_body status (some body) = some (record json_result { status_code = status; body = body })

  unfoldable pub sql_error : Bytes → Option HandlerResult
  sql_error message = with_body (pos 500) (
      json.dump (
        json.object (
          (codes "error", json.of_string (codes "SQL query failed"))
          ∷ (codes "message", json.of_string message)
          ∷ [])))

  abbrev pub rows_answer : Option (SqlRows F) → Option HandlerResult
  rows_answer none = none
  rows_answer (some rows) = with_body (pos 200) (format_rows_to_json rows)

  -- What the task that is posted to the loop answers, if its connection is still there.
  unfoldable pub sql_answer : Result (SqlRows F) → Option HandlerResult
  unfolding sql_error format_rows_to_json
  sql_answer res = if res.ok then rows_answer res.value else sql_error res.err.message

-- What a job keeps.
pub record Job (K : Type 0) : Type 0 where
  pub sql : Bytes
  pub conn : K

-- What jobs work on: the thread's connection, how often the clock was read, and the answers that were
-- posted to the loops of their connections, the last one last.
pub record World (K D : Type 0) : Type 0 where
  pub slot : Slot D
  pub readings : ℕ
  pub posted : List (K × Option HandlerResult)

module _ {K F G D : Type 0} (json : Json F G) (db : SqlConnection F D) (cfg : ConnOptions)
    (factory : ℕ → D) (clock : ℕ → ℕ) where
  abbrev pub post : K → Option HandlerResult → Slot D → World K D → World K D
  post conn answer slot w = record w {
    slot = slot;
    readings = w.readings + 2;
    posted = w.posted ++ (conn, answer) ∷ [];
  }

  -- What follows `withConnection` and its catch blocks. A null pointer that is followed ends it all.
  abbrev pub answer_query : K → Outcome (Result (SqlRows F)) D → World K D → World K D
  answer_query conn (returns res slot) w = post conn (sql_answer json res) slot w
  answer_query conn (throws message slot) w = post conn (sql_error json message) slot w
  answer_query conn faults w = w

  -- The job that is submitted.
  unfoldable pub run_job : Job K → World K D → World K D
  run_job job w =
      answer_query job.conn
        (with_connection db cfg factory (clock w.readings) (clock (w.readings + 1))
          (db.query job.sql []) w.slot)
        w

  -- The clean-up of the executor's thread.
  abbrev pub clean_up : World K D → World K D
  clean_up w = record w { slot = ThreadConn.cleanup_current_thread db w.slot }

abbrev pub method_not_allowed : Bytes
method_not_allowed = codes "{\"error\":\"Method not allowed\"}"

abbrev pub missing_parameter : Bytes
missing_parameter = codes "{\"error\":\"Missing 'sql' query parameter\"}"

abbrev pub not_read_only : Bytes
not_read_only = codes "{\"error\":\"Only read-only statements are allowed\"}"

abbrev pub unavailable : Bytes
unavailable = codes "{\"error\":\"SQL executor unavailable\"}"

abbrev pub error_result : ℕ → Bytes → HandlerResult
error_result status body = record default_result {
  status_code = pos status;
  body = body;
  content_type = codes "application/json; charset=utf-8";
}

abbrev pub async_result : HandlerResult
async_result = record default_result {
  content_type = codes "application/json; charset=utf-8";
  async = true;
}

module _ {K W : Type 0} where
  abbrev pub submitted : Bool × SqlExecutor (Job K) W → HandlerResult × SqlExecutor (Job K) W
  submitted (ok, e) = ((if ok then async_result else error_result 503 unavailable), e)

  unfoldable pub handle :
      Bool → HttpRequest → K → SqlExecutor (Job K) W → HandlerResult × SqlExecutor (Job K) W
  unfolding extract_sql_param
  handle read_only req conn e =
      let sql = extract_sql_param req.url in
      if not (same req.method (codes "GET"))
      then (error_result 405 method_not_allowed, e)
      else if is_empty sql
      then (error_result 400 missing_parameter, e)
      else if read_only && not (is_read_only_statement sql)
      then (error_result 403 not_read_only, e)
      else submitted (submit (record { sql = sql; conn = conn }) e)
