-- ===== src/Handler/SqlHandler/Admission.antt =====
-- src/handler/SqlHandler.cpp: which requests become queries.
use cpp_reactor.Base.{
  ℕ, ◌≢◌, Bool-cases, ◌≡◌, refl, ◌⊎◌, inl, inr, Bool, true, false, not, ◌&&◌, [], ◌∷◌, ◌++◌, Bytes,
  codes, same, same_iff, is_empty, if◌then◌else◌, arith, pos,
}
use cpp_reactor.Guard.{is_read_only_statement}
use cpp_reactor.Http.Request.{HttpRequest}
use cpp_reactor.Connection.{HandlerResult}
use cpp_reactor.Sql.Executor.{SqlExecutor, submit}
use cpp_reactor.Handler.SqlHandler.{Job, extract_sql_param, submitted, handle}

allowed : (a b : Bool) → (a && not b) ≡ false → (a ≡ false) ⊎ (b ≡ true)
allowed a b h = ground arith

forbidden : (a b : Bool) → (a && not b) ≡ true → (a ≡ true) × (b ≡ false)
forbidden a b h = ground arith

nonempty : (s : Bytes) → is_empty s ≡ false → s ≢ []
nonempty s h = ground arith

is_nil : (s : Bytes) → is_empty s ≡ true → s ≡ []
is_nil s h = ground arith

module _ {K W : Type 0} where
  -- The request is answered at once with an error, and nothing is submitted.
  abbrev pub IsRefused : ℕ → SqlExecutor (Job K) W → HandlerResult × SqlExecutor (Job K) W → Type 0
  IsRefused status e r = (r.0.async ≡ false) × (r.0.status_code ≡ pos status) × (r.1 ≡ e)

  -- The request waits for its answer, and its job stands at the end of the queue.
  abbrev pub IsSubmitted :
      Job K → SqlExecutor (Job K) W → HandlerResult × SqlExecutor (Job K) W → Type 0
  IsSubmitted job e r =
      (r.0.async ≡ true) × (r.1 ≡ record e { job_queue = e.job_queue ++ job ∷ [] })

  -- Each reason to refuse, with its status, and what holds of a submitted query.
  abbrev pub Decided :
      Bool
      → HttpRequest
      → K
      → SqlExecutor (Job K) W
      → HandlerResult × SqlExecutor (Job K) W
      → Type 0
  Decided read_only req conn e r =
      let sql = extract_sql_param req.url in
      ((req.method ≢ codes "GET") × IsRefused 405 e r)
      ⊎ ((sql ≡ []) × IsRefused 400 e r)
      ⊎ ((read_only ≡ true) × (is_read_only_statement sql ≡ false) × IsRefused 403 e r)
      ⊎ ((e.stopping ≡ true) × IsRefused 503 e r)
      ⊎ ((req.method ≡ codes "GET")
          × (sql ≢ [])
          × ((read_only ≡ false) ⊎ (is_read_only_statement sql ≡ true))
          × (e.stopping ≡ false)
          × IsSubmitted (record { sql = sql; conn = conn }) e r)

  submitted_lem :
      (b : Bool) (read_only : Bool) (req : HttpRequest) (conn : K) (e : SqlExecutor (Job K) W)
      → e.stopping ≡ b
      → req.method ≡ codes "GET"
      → extract_sql_param req.url ≢ []
      → (read_only ≡ false) ⊎ (is_read_only_statement (extract_sql_param req.url) ≡ true)
      → Decided read_only req conn e (
          submitted (
            if b then (false, e) else (
              true,
              record e {
                job_queue =
                    e.job_queue ++ (record { sql = extract_sql_param req.url; conn = conn }) ∷ [];
              },
            )))
  submitted_lem true read_only req conn e h m n g = inr (inr (inr (inl (h, (refl, refl, refl)))))
  submitted_lem false read_only req conn e h m n g =
      inr (inr (inr (inr (m, n, g, h, (refl, refl)))))

  -- A request becomes a query exactly when it is a GET, has an `sql` parameter that is not empty, is
  -- read-only if only such queries are allowed, and the executor takes jobs. Then it is queued behind
  -- the others with its connection; otherwise the executor is left alone and the request is answered
  -- at once, with 405, 400, 403 or 503 for the condition that it misses.
  pub handle-Decided :
      (read_only : Bool) (req : HttpRequest) (conn : K) (e : SqlExecutor (Job K) W)
      → Decided read_only req conn e (handle read_only req conn e)
  unfolding handle submit
  handle-Decided read_only req conn e =
      let sql = extract_sql_param req.url in
      elim (Bool-cases (same req.method (codes "GET"))) [
        | inr m ↦ rw (m) (
            inl
              ((λ g. ground (arith, same_iff req.method (codes "GET"), m, g)), (refl, refl, refl)))
        | inl m ↦ elim (Bool-cases (is_empty sql)) [
          | inl n ↦ rw (m, n) (inr (inl (is_nil sql n, (refl, refl, refl))))
          | inr n ↦ elim (Bool-cases (read_only && not (is_read_only_statement sql))) [
            | inl g ↦
                rw (m, n, g)
                  (let f = forbidden read_only (is_read_only_statement sql) g in
                    inr (inr (inl (f.0, f.1, (refl, refl, refl)))))
            | inr g ↦
                rw (m, n, g)
                  (submitted_lem e.stopping read_only req conn e refl
                    ((same_iff req.method (codes "GET")).0 m) (nonempty sql n)
                    (allowed read_only (is_read_only_statement sql) g))
          ]
        ]
      ]
