-- ===== src/Sql/Executor/Drain.antt =====
-- include/persistence/SqlExecutor.hpp: which jobs run, in which order, and that `stop` returns.
use cpp_reactor.Base.{
  ℕ, zero, suc, ◌<◌, ◌≡◌, refl, sym, ◌∙◌, ap, Bool, true, false, List, [], ◌∷◌, ◌++◌, append-nil,
  append_assoc, if◌then◌else◌, length, replicate, subst, arith,
}
use cpp_reactor.Sql.Executor.{SqlExecutor, request_stop, submit, work_on, work, rounds, stop}

-- What may happen to an executor that has been started.
pub data Event (J : Type 0) : Type 0 where
  submits : J → Event J
  requests_stop : Event J
  works : Event J

module _ {J W : Type 0} (run_job : J → W → W) (cleanup : W → W) where
  unfoldable pub happen : Event J → SqlExecutor J W → SqlExecutor J W
  happen (submits job) e = (submit job e).1
  happen requests_stop e = request_stop e
  happen works e = work run_job cleanup e

  unfoldable pub happen_all : List (Event J) → SqlExecutor J W → SqlExecutor J W
  unfolding happen
  happen_all [] e = e
  happen_all (v ∷ vs) e = happen_all vs (happen v e)

  -- The job that an event adds.
  abbrev pub accepted_by : Event J → SqlExecutor J W → List J
  accepted_by (submits job) e = if (submit job e).0 then job ∷ [] else []
  accepted_by requests_stop e = []
  accepted_by works e = []

  -- The jobs that `submit` accepts while the events happen.
  unfoldable pub accepted : List (Event J) → SqlExecutor J W → List J
  unfolding happen
  accepted [] e = []
  accepted (v ∷ vs) e = accepted_by v e ++ accepted vs (happen v e)

  -- One job after the other.
  abbrev pub run_all : List J → W → W
  run_all [] w = w
  run_all (job ∷ jobs) w = run_all jobs (run_job job w)

  -- What the worker leaves once it has run what is queued and has left its loop.
  abbrev pub outcome : SqlExecutor J W → W
  outcome e = if e.is_working then cleanup (run_all e.job_queue e.world) else e.world

  -- A state by its members.
  abbrev state : W → Bool → Bool → Bool → List J → SqlExecutor J W
  state w r s k q = record { world = w; running = r; stopping = s; is_working = k; job_queue = q }

  -- Once the worker has left, nothing is accepted and nothing runs.
  left_lem :
      (vs : List (Event J)) (w : W) (r : Bool)
      → (accepted vs (state w r true false []) ≡ [])
        × ((happen_all vs (state w r true false [])).is_working ≡ false)
        × ((happen_all vs (state w r true false [])).job_queue ≡ [])
        × ((happen_all vs (state w r true false [])).world ≡ w)
  unfolding happen_all accepted happen submit request_stop work
  left_lem [] w r = (refl, refl, refl, refl)
  left_lem (submits job ∷ vs) w r = left_lem vs w r
  left_lem (requests_stop ∷ vs) w true = left_lem vs w false
  left_lem (requests_stop ∷ vs) w false = left_lem vs w false
  left_lem (works ∷ vs) w r = left_lem vs w r

  -- The worker, once told to stop, is done after a round for each job and one more.
  abbrev pub work_count : List (Event J) → ℕ
  work_count [] = 0
  work_count (works ∷ vs) = suc (work_count vs)
  work_count (v ∷ vs) = work_count vs

  abbrev pub IsDrained : SqlExecutor J W → W → Type 0
  IsDrained e w = (e.is_working ≡ false) × (e.job_queue ≡ []) × (e.world ≡ w)

  drained :
      (vs : List (Event J)) (w : W) (r : Bool) (q : List J)
      → length q < work_count vs
      → IsDrained (happen_all vs (state w r true true q)) (cleanup (run_all q w))
  unfolding happen_all happen submit request_stop work work_on
  drained [] w r q h = absurd (omega arith)
  drained (submits job ∷ vs) w r q h = drained vs w r q h
  drained (requests_stop ∷ vs) w true q h = drained vs w false q h
  drained (requests_stop ∷ vs) w false q h = drained vs w false q h
  drained (works ∷ vs) w r [] h = let (a, b, c, d) = left_lem vs (cleanup w) r in (b, c, d)
  drained (works ∷ vs) w r (job ∷ q) h = drained vs (run_job job w) r q (omega arith)

  ordered_left :
      (vs : List (Event J)) (w : W) (r : Bool)
      → outcome (happen_all vs (state w r true false []))
        ≡ run_all (accepted vs (state w r true false [])) w
  ordered_left vs w r = let (a, b, c, d) = left_lem vs w r in rw (a, b, d) refl

  ordered :
      (vs : List (Event J)) (w : W) (r s : Bool) (q : List J)
      → outcome (happen_all vs (state w r s true q))
        ≡ cleanup (run_all (q ++ accepted vs (state w r s true q)) w)
  unfolding happen_all accepted happen submit request_stop work work_on
  ordered [] w r s q = ap (λ x. cleanup (run_all x w)) (sym (append-nil q))
  ordered (submits job ∷ vs) w r true q = ordered vs w r true q
  ordered (submits job ∷ vs) w r false q =
      ordered vs w r false (q ++ job ∷ [])
      ∙ ap (λ x. cleanup (run_all x w)) (append_assoc q (job ∷ []) _)
  ordered (requests_stop ∷ vs) w true s q = ordered vs w false true q
  ordered (requests_stop ∷ vs) w false s q = ordered vs w false s q
  ordered (works ∷ vs) w r true [] =
      let (a, b, c, d) = left_lem vs (cleanup w) r in rw (a, b, d) refl
  ordered (works ∷ vs) w r false [] = ordered vs w r false []
  ordered (works ∷ vs) w r s (job ∷ q) = ordered vs (run_job job w) r s q

  -- However submissions, a request to stop and the worker's rounds come one after the other, what the
  -- worker leaves in the end is what the queued jobs and then the accepted ones leave when each runs
  -- once, in the order of their submission.
  pub outcome-happen_all :
      (vs : List (Event J)) (e : SqlExecutor J W)
      → e.is_working ≡ true
      → outcome (happen_all vs e) ≡ cleanup (run_all (e.job_queue ++ accepted vs e) e.world)
  outcome-happen_all vs e h =
      subst
        (λ k.
          outcome (happen_all vs (record e { is_working = k }))
          ≡ cleanup (run_all (e.job_queue ++ accepted vs (record e { is_working = k })) e.world))
        (sym h) (ordered vs e.world e.running e.stopping e.job_queue)

  -- A worker that is told to stop leaves its loop after at most one round for each queued job and one
  -- more, whatever else happens in between, and has then run every queued job and cleaned up.
  pub happen_all-IsDrained :
      (vs : List (Event J)) (e : SqlExecutor J W)
      → e.stopping ≡ true
      → e.is_working ≡ true
      → length e.job_queue < work_count vs
      → IsDrained (happen_all vs e) (cleanup (run_all e.job_queue e.world))
  happen_all-IsDrained vs e s k h =
      let target = cleanup (run_all e.job_queue e.world) in
      subst (λ b. IsDrained (happen_all vs (record e { is_working = b })) target) (sym k)
        (subst
          (λ b. IsDrained (happen_all vs (record e { stopping = b; is_working = true })) target)
          (sym s) (drained vs e.world e.running e.job_queue h))

  rounds_lem :
      (n : ℕ) (e : SqlExecutor J W) → rounds run_job cleanup n e ≡ happen_all (replicate n works) e
  unfolding rounds happen_all happen
  rounds_lem zero e = refl
  rounds_lem (suc n) e = rounds_lem n (work run_job cleanup e)

  work_count-replicate : (n : ℕ) → work_count (replicate n works) ≡ n
  work_count-replicate zero = refl
  work_count-replicate (suc n) = ap suc (work_count-replicate n)

  stop-IsDrained_state :
      (w : W) (s : Bool) (q : List J)
      → IsDrained (stop run_job cleanup (state w true s true q)) (cleanup (run_all q w))
  unfolding stop request_stop
  stop-IsDrained_state w s q =
      let n = suc (length q) in
      rw (rounds_lem n (state w false true true q))
        (drained (replicate n works) w false q (omega (arith, work_count-replicate n)))

  -- `stop` on a running executor returns once the worker has left: every job accepted before has run,
  -- in the order of submission, and then the thread has cleaned up.
  pub stop-IsDrained :
      (e : SqlExecutor J W)
      → e.running ≡ true
      → e.is_working ≡ true
      → IsDrained (stop run_job cleanup e) (cleanup (run_all e.job_queue e.world))
  stop-IsDrained e r k =
      let target = cleanup (run_all e.job_queue e.world) in
      subst (λ b. IsDrained (stop run_job cleanup (record e { is_working = b })) target) (sym k)
        (subst
          (λ b.
            IsDrained (stop run_job cleanup (record e { running = b; is_working = true })) target)
          (sym r) (stop-IsDrained_state e.world e.stopping e.job_queue))
