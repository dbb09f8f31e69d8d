-- ===== src/App/Main/Code.antt =====
-- src/app/main.cpp: the exit code, and what src/net/TcpServer.cpp returns to the program.
use cpp_reactor.Base.{
  ℕ, ◌-◌, ◌≡◌, ◌↔◌, refl, ap, ◌∙◌, subst, Bool, true, false, not, ◌||◌, Option, none, some, List,
  [], ◌∷◌, Bytes, ℤ, pos, ltb, ◌==◌, if◌then◌else◌, arith,
}
use cpp_reactor.Status.{StatusCode, ok, error}
use cpp_reactor.Connection.{Handler}
use cpp_reactor.IoPool
use cpp_reactor.IoPool.{IoPool, get_next_loop}
use cpp_reactor.Http.Router.{dispatch}
use cpp_reactor.Metrics
use cpp_reactor.Server.{
  Served, Server, set_request_handler, collect_closed, cleanup_closed_connections,
  log_metrics_if_needed,
}
use cpp_reactor.Server.Accept.{
  Accepted, refused, accepted, Next, goes, ends, faults, eintr, eagain, reject_accepted, place,
  assign, take_accepted, finish, accept_failed, accept_answered, accept_connection, run,
}
use cpp_reactor.Sql.Config.{Json, Loaded, loaded}
use cpp_reactor.App.Main.{
  is_help, routes, Settings, System, Exit, exits, serves, crashes, failure, exit_code, after_round,
  serve_rounds, started, run_server, with_config, new_server, constructed, with_settings, with_args,
  main_program,
}
use cpp_reactor.App.Main.Options.{any, outcome, read_args_lem}

module _ {L : Type 0} where
  -- A round of a server that is not stopped: it runs on, or it ends with an error.
  abbrev KeepsOn : Next L → Type 0
  KeepsOn (goes s) = s.is_running ≡ true
  KeepsOn (ends code s) = code ≡ error
  KeepsOn faults = Unit

  collect_closed-running :
      (fds : List ℤ) (s : Server L) → (collect_closed fds s).is_running ≡ s.is_running
  unfolding collect_closed
  collect_closed-running [] s = refl
  collect_closed-running (fd ∷ fds) s = refl

  if-running :
      (b : Bool) (x y : Server L) (v : Bool)
      → x.is_running ≡ v
      → y.is_running ≡ v
      → (if b then x else y).is_running ≡ v
  if-running true x y v hx hy = hx
  if-running false x y v hx hy = hy

  finish-running : (now : ℕ) (s : Server L) → (finish now s).is_running ≡ s.is_running
  unfolding finish log_metrics_if_needed cleanup_closed_connections
  finish-running now s =
      let swept = cleanup_closed_connections now s in
      if-running (ltb (now - swept.last_metrics_log_time) 5_000_000) _ _ _ same same
    where
      same : (cleanup_closed_connections now s).is_running ≡ s.is_running
      same =
          collect_closed-running s.pending_close_fds _
          ∙ if-running s.keep_alive_enabled _ _ s.is_running refl refl

  place-running :
      (now : ℕ) (fd : ℤ) (l : L) (o : Option (Served L)) (s : Server L)
      → (place now fd l o s).is_running ≡ s.is_running
  unfolding place reject_accepted
  place-running now fd l none s = refl
  place-running now fd l (some c) s = refl

  assign-KeepsOn :
      (now : ℕ) (fd : ℤ) (s : Server L) (o : Option (Option L × IoPool L))
      → s.is_running ≡ true
      → KeepsOn (assign now fd s o)
  unfolding assign reject_accepted
  assign-KeepsOn now fd s none h = tt
  assign-KeepsOn now fd s (some (none, p)) h = h
  assign-KeepsOn now fd s (some (some l, p)) h = place-running now fd l _ _ ∙ h

  if-KeepsOn :
      (b : Bool) (x y : Next L) → KeepsOn x → (b ≡ false → KeepsOn y) → KeepsOn (if b then x else y)
  if-KeepsOn true x y hx hy = hx
  if-KeepsOn false x y hx hy = hy refl

  then-KeepsOn : (b : Bool) (x y : Next L) → b ≡ true → KeepsOn x → KeepsOn (if b then x else y)
  then-KeepsOn true x y e h = h
  then-KeepsOn false x y e h = absurd (ground (arith, e))

  running-KeepsOn :
      (b : Bool) (x y : Next L) → b ≡ true → KeepsOn y → KeepsOn (if not b then x else y)
  running-KeepsOn true x y e h = h
  running-KeepsOn false x y e h = absurd (ground (arith, e))

  answered-KeepsOn :
      (now : ℕ) (r : Accepted) (s : Server L)
      → s.is_running ≡ true
      → KeepsOn (accept_answered now r s)
  unfolding accept_answered accept_failed take_accepted
  answered-KeepsOn now (accepted fd) s h =
      assign-KeepsOn now fd (record s { metrics = Metrics.on_accept_ok s.metrics }) _ h
  answered-KeepsOn now (refused errno) s h =
      if-KeepsOn (errno == eintr || errno == eagain) _ _ h
        (λ e. running-KeepsOn s.is_running _ _ h refl)

  accept_connection-KeepsOn :
      (now : ℕ) (r : Accepted) (s : Server L)
      → s.is_running ≡ true
      → KeepsOn (accept_connection now r s)
  unfolding accept_connection
  accept_connection-KeepsOn now r s h =
      then-KeepsOn s.is_running _ _ h
        (answered-KeepsOn now r (finish now s) (finish-running now s ∙ h))

  -- The program does not leave with 0.
  abbrev pub Fails : Exit L → Type 0
  Fails (exits code) = code ≡ failure
  Fails (serves s) = Unit
  Fails crashes = Unit

  serve_rounds-Fails :
      (rounds : List (ℕ × Accepted)) (s : Server L)
      → s.is_running ≡ true
      → Fails (serve_rounds rounds s)
  unfolding serve_rounds
  serve_rounds-Fails [] s h = tt
  serve_rounds-Fails ((now, r) ∷ rounds) s h =
      go (accept_connection now r s) (accept_connection-KeepsOn now r s h)
        (λ s'. serve_rounds-Fails rounds s')
    where
      go :
          (x : Next L)
          → KeepsOn x
          → ((s' : Server L) → s'.is_running ≡ true → Fails (serve_rounds rounds s'))
          → Fails (after_round (serve_rounds rounds) x)
      go (goes s') k f = f s' k
      go (ends code s') k f = ap exit_code k
      go faults k f = tt

  started-Fails :
      (b : Bool) (rounds : List (ℕ × Accepted)) (s : Server L) (p : IoPool L)
      → Fails
          (started rounds (record s { is_running = b; thread_pool = p }, (if b then ok else error)))
  started-Fails true rounds s p = serve_rounds-Fails rounds _ refl
  started-Fails false rounds s p = refl

  if-started-Fails :
      (b : Bool) (rounds : List (ℕ × Accepted)) (x y : Server L × StatusCode)
      → Fails (started rounds x)
      → Fails (started rounds y)
      → Fails (started rounds (if b then x else y))
  if-started-Fails true rounds x y hx hy = hx
  if-started-Fails false rounds x y hx hy = hy

  run_server-Fails :
      (sys : System L) (set : Settings) (rounds : List (ℕ × Accepted)) (o : Option Handler)
      (s : Server L)
      → Fails (run_server sys set rounds o s)
  unfolding run
  run_server-Fails sys set rounds o s =
      let s' = set_request_handler (dispatch (routes o sys.make_static)) s in
      if-started-Fails s.is_running rounds _ _ refl (
        started-Fails sys.listens rounds s'
          (IoPool.start (sys.make_loop set.dispatcher_type) s.thread_pool))

  with_config-Fails :
      (sys : System L) (set : Settings) (rounds : List (ℕ × Accepted)) (c : Loaded) (s : Server L)
      → Fails (with_config sys set rounds c s)
  with_config-Fails sys set rounds (loaded c) s = run_server-Fails sys set rounds _ s
  with_config-Fails sys set rounds _ s = refl

  if-Fails : (b : Bool) (x y : Exit L) → Fails x → Fails y → Fails (if b then x else y)
  if-Fails true x y hx hy = hx
  if-Fails false x y hx hy = hy

  zero-Fails : (x : Exit L) → Fails x → x ≡ exits (pos 0) → ⊥
  zero-Fails x h e = let z : pos 0 ≡ failure = subst Fails e h in absurd (ground (arith, z))

  module _ {J : Type 0} (json : Json J) where
    constructed-Fails :
        (sys : System L) (set : Settings) (enable_sql : Bool) (rounds : List (ℕ × Accepted))
        (o : Option ℤ)
        → Fails (constructed json sys set enable_sql rounds o)
    constructed-Fails sys set enable_sql rounds none = refl
    constructed-Fails sys set enable_sql rounds (some lfd) =
        if-Fails enable_sql _ _ (with_config-Fails sys set rounds _ (new_server sys set lfd))
          (run_server-Fails sys set rounds none (new_server sys set lfd))

    with_settings-Fails :
        (sys : System L) (enable_sql : Bool) (rounds : List (ℕ × Accepted)) (o : Option Settings)
        → Fails (with_settings json sys enable_sql rounds o)
    with_settings-Fails sys enable_sql rounds none = refl
    with_settings-Fails sys enable_sql rounds (some set) =
        if-Fails (not (sys.chdir set.resource_path)) _ _ refl
          (constructed-Fails sys set enable_sql rounds _)

    outcome-zero :
        (sys : System L) (rounds : List (ℕ × Accepted)) (help enable_sql : Bool) (args : List Bytes)
        → (with_args json sys rounds (outcome help enable_sql args) ≡ exits (pos 0)) ↔ (help ≡ true)
    outcome-zero sys rounds true enable_sql args = (λ e. refl, λ e. refl)
    outcome-zero sys rounds false enable_sql args = (
      λ e. absurd (zero-Fails _ (with_settings-Fails sys enable_sql rounds _) e),
      λ e. absurd (ground (arith, e)),
    )

    -- Whatever the arguments, the system calls and the rounds of the accept loop, the program leaves
    -- with 0 exactly if help was asked for.
    pub main_program-zero_iff :
        (sys : System L) (args : List Bytes) (rounds : List (ℕ × Accepted))
        → (main_program json sys args rounds ≡ exits (pos 0)) ↔ (any is_help args ≡ true)
    unfolding main_program
    main_program-zero_iff sys args rounds =
        rw (read_args_lem args) (outcome-zero sys rounds (any is_help args) _ _)
