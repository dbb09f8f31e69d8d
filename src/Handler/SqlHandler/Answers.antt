-- ===== src/Handler/SqlHandler/Answers.antt =====
-- src/handler/SqlHandler.cpp: the answers to the queries that were accepted.
use cpp_reactor.Base.{
  ℕ, ◌≡◌, refl, ◌⊎◌, inl, inr, true, false, Option, none, some, List, [], ◌∷◌, ◌++◌, map, Bytes,
  codes, ℤ, pos, Bool-cases, subst,
}
use cpp_reactor.Connection.{HandlerResult}
use cpp_reactor.Sql.{SqlConnection, SqlRows, Result}
use cpp_reactor.Sql.ThreadConn.{ConnOptions, Outcome, returns, throws, faults}
use cpp_reactor.Sql.ThreadConn.Total.{IsUse, HasFailed, with_connection-IsUse}
use cpp_reactor.Sql.Executor.{SqlExecutor}
use cpp_reactor.Sql.Executor.Logged.{Matched, logged-outcome}
use cpp_reactor.Sql.Executor.Drain.{Event, happen_all, accepted, outcome}
use cpp_reactor.Handler.SqlHandler.{
  Job, Json, World, cell_to_json, format_rows_to_json, sql_error, rows_answer, sql_answer,
  with_body, answer_query, run_job, clean_up,
}

-- A full response with this status and text. The lambda that builds it throws, and so sends nothing,
-- exactly if there is no text.
abbrev pub Sends : Option HandlerResult → ℤ → Option Bytes → Type 0
Sends none status text = text ≡ none
Sends (some r) status text =
    (text ≡ some r.body)
    × (r.status_code ≡ status)
    × (r.content_type ≡ codes "application/json; charset=utf-8")
    × (r.async ≡ false)

module _ {F G : Type 0} (json : Json F G) where
  -- The text of a table, a list of lists of cells; `none` is the exception of the JSON library, or that
  -- of a result without rows.
  abbrev pub table_text : Option (SqlRows F) → Option Bytes
  table_text none = none
  table_text (some rows) =
      json.dump_indented 2 (json.array (map (λ row. json.array (map (cell_to_json json) row)) rows))

  abbrev pub error_text : Bytes → Option Bytes
  error_text message = json.dump (
      json.object (
        (codes "error", json.of_string (codes "SQL query failed"))
        ∷ (codes "message", json.of_string message)
        ∷ []))

  -- 200 with the rows of a result that is ok, or else 500 with its error.
  abbrev pub SendsResult : Option HandlerResult → Result (SqlRows F) → Type 0
  SendsResult a res =
      ((res.ok ≡ true) × Sends a (pos 200) (table_text res.value))
      ⊎ ((res.ok ≡ false) × Sends a (pos 500) (error_text res.err.message))

  with_body-Sends :
      (status : ℤ) (text : Option Bytes) → Sends (with_body json status text) status text
  with_body-Sends status none = refl
  with_body-Sends status (some body) = (refl, refl, refl, refl)

  rows_answer-Sends : (o : Option (SqlRows F)) → Sends (rows_answer json o) (pos 200) (table_text o)
  unfolding format_rows_to_json
  rows_answer-Sends none = refl
  rows_answer-Sends (some rows) = with_body-Sends (pos 200) _

  sql_error-Sends :
      (message : Bytes) → Sends (sql_error json message) (pos 500) (error_text message)
  unfolding sql_error
  sql_error-Sends message = with_body-Sends (pos 500) _

  sql_answer-Sends : (res : Result (SqlRows F)) → SendsResult (sql_answer json res) res
  unfolding sql_answer
  sql_answer-Sends res = elim (Bool-cases res.ok) [
    | inl t ↦ inl (t, rw (t) (rows_answer-Sends res.value))
    | inr f ↦ inr (f, rw (f) (sql_error-Sends res.err.message))
  ]

module _ {K F G D : Type 0} (json : Json F G) (db : SqlConnection F D) where
  -- An answer to a job goes to the job's connection. It is what the job's query gave on some connection
  -- to the database, or the error that connecting or pinging reported.
  abbrev pub IsAnswer : Job K → K × Option HandlerResult → Type 0
  IsAnswer job (conn, a) =
      (conn ≡ job.conn)
      × (((d : D) × SendsResult json a (db.query job.sql [] d).0)
          ⊎ ((message : Bytes) × HasFailed db message
              × Sends a (pos 500) (error_text json message)))

module _ {K F G D : Type 0} (json : Json F G) (db : SqlConnection F D) (cfg : ConnOptions)
    (factory : ℕ → D) (clock : ℕ → ℕ) where
  answer_query_lem :
      (job : Job K) (o : Outcome (Result (SqlRows F)) D) (w : World K D)
      → IsUse db (db.query job.sql []) o
      → (a : K × Option HandlerResult) × ((answer_query json db cfg factory clock job.conn o
            w).posted
          ≡ w.posted ++ a ∷ [])
        × IsAnswer json db job a
  answer_query_lem job (returns res slot) w h = (
    (job.conn, sql_answer json res),
    refl,
    (
      refl,
      inl (h.0, subst (SendsResult json (sql_answer json res)) h.1 (sql_answer-Sends json res)),
    ),
  )
  answer_query_lem job (throws message slot) w h = (
    (job.conn, sql_error json message),
    refl,
    (refl, inr (message, h, sql_error-Sends json message)),
  )
  answer_query_lem job faults w h = elim h [ ]

  run_job_lem :
      (job : Job K) (w : World K D)
      → (a : K × Option HandlerResult) × ((run_job json db cfg factory clock job w).posted
          ≡ w.posted ++ a ∷ [])
        × IsAnswer json db job a
  unfolding run_job
  run_job_lem job w =
      answer_query_lem job _ w
        (with_connection-IsUse db cfg factory (Result (SqlRows F)) _ _ _ w.slot)

  -- However submissions, a request to stop and the worker's rounds come one after the other, in the
  -- end one answer has been posted for each query that was queued or that the executor accepts, in the
  -- order of submission and to its connection: 200 with the rows that the query gave, 500 with the
  -- error that it gave, or 500 with the error of connecting or pinging, which failed. The posted task
  -- sends that response unless the JSON library throws at its text, or a result that is ok has no rows.
  pub answered-outcome :
      (vs : List (Event (Job K))) (e : SqlExecutor (Job K) (World K D))
      → e.is_working ≡ true
      → let run = run_job json db cfg factory clock in
        let clean = clean_up json db cfg factory clock in
        (answers : List (K × Option HandlerResult)) × ((outcome run clean
            (happen_all run clean vs e)).posted
          ≡ e.world.posted ++ answers)
        × Matched (IsAnswer json db) (e.job_queue ++ accepted run clean vs e) answers
  answered-outcome vs e h =
      logged-outcome _ _ (λ w. w.posted) (IsAnswer json db) run_job_lem (λ w. refl) vs e h
