-- ===== src/Sql/Executor/Logged.antt =====
-- src/persistence/SqlExecutor.cpp: what jobs leave in a log that each of them adds one entry to.
use cpp_reactor.Base.{◌≡◌, sym, ap, ◌∙◌, true, List, [], ◌∷◌, ◌++◌, append-nil, append_assoc}
use cpp_reactor.Sql.Executor.{SqlExecutor}
use cpp_reactor.Sql.Executor.Drain.{
  Event, happen_all, accepted, run_all, outcome, outcome-happen_all,
}

module _ {J A : Type 0} (Fits : J → A → Type 0) where
  -- One entry for each job, in the same order, each of which fits its job.
  abbrev pub Matched : List J → List A → Type 0
  Matched [] [] = Unit
  Matched (job ∷ jobs) (a ∷ entries) = Fits job a × Matched jobs entries
  Matched _ _ = ⊥

module _ {J W A : Type 0} (run : J → W → W) (clean : W → W) (log : W → List A)
    (Fits : J → A → Type 0)
    (logs : (j : J) (w : W) → (a : A) × (log (run j w) ≡ log w ++ a ∷ []) × Fits j a)
    (keeps : (w : W) → log (clean w) ≡ log w) where
  logged-run_all :
      (jobs : List J) (w : W)
      → (entries : List A) × (log (run_all run clean jobs w) ≡ log w ++ entries)
        × Matched Fits jobs entries
  logged-run_all [] w = ([], sym (append-nil (log w)), tt)
  logged-run_all (job ∷ jobs) w =
      let (a, e, f) = logs job w in
      let (entries, g, m) = logged-run_all jobs (run job w) in
      (a ∷ entries, g ∙ ap (λ ks. ks ++ entries) e ∙ append_assoc (log w) (a ∷ []) entries, (f, m))

  -- However submissions, a request to stop and the worker's rounds come one after the other, in the end
  -- the log has one entry more for each job that was queued or is accepted, in that order.
  pub logged-outcome :
      (vs : List (Event J)) (e : SqlExecutor J W)
      → e.is_working ≡ true
      → (entries : List A) × (log (outcome run clean (happen_all run clean vs e))
          ≡ log e.world ++ entries)
        × Matched Fits (e.job_queue ++ accepted run clean vs e) entries
  logged-outcome vs e h =
      let (entries, f, m) = logged-run_all (e.job_queue ++ accepted run clean vs e) e.world in
      (
        entries,
        ap log (outcome-happen_all run clean vs e h)
            ∙ keeps (run_all run clean (e.job_queue ++ accepted run clean vs e) e.world)
            ∙ f,
        m,
      )
