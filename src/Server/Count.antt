-- ===== src/Server/Count.antt =====
-- include/net/TcpServer.hpp: the gauge of active connections and the table of connections.
use cpp_reactor.Base.{
  ℕ, ◌+◌, ◌-◌, ◌%◌, ◌^◌, ◌≡◌, refl, Bool, true, false, Option, none, some, List, [], ◌∷◌, ℤ, is_neg,
  length, ltb, ◌==◌, if◌then◌else◌, arith, Bool-cases, ◌<◌, ◌/◌, ◌||◌, not, inl, inr,
}
use cpp_reactor.Loop.Map.{lookup, insert, IsMap, erase-IsMap, length-erase}
use cpp_reactor.Metrics.{
  on_accept_ok, on_accept_fail, on_connections_closed, on_connection_opened, Metrics,
}
use cpp_reactor.IoPool.{IoPool}
use cpp_reactor.Server.{
  Served, Server, sweep, drop_one, drop_closed, collect_closed, cleanup_closed_connections,
  log_metrics_if_needed, enqueue_closed_connection,
}
use cpp_reactor.Server.Accept.{
  Next, Accepted, goes, ends, faults, refused, accepted, finish, place, assign, take_accepted,
  accept_failed, accept_answered, accept_connection, run, stop, reject_accepted,
}

closed_active :
    (m : Metrics) (a b n : ℕ)
    → m.active_connections ≡ a % 2 ^ 64
    → (b + n) % 2 ^ 64 ≡ a % 2 ^ 64
    → n < 2 ^ 64
    → (on_connections_closed n m).active_connections ≡ b % 2 ^ 64
unfolding on_connections_closed
closed_active m a b n h e k = elim (Bool-cases (n == 0)) [
  | inl z ↦ rw (z) (let z' : n ≡ 0 = ground arith in omega arith)
  | inr z ↦ rw (z) (omega arith)
]

module _ {L : Type 0} where
  lookup-sweep :
      (t : ℕ) (k : ℤ) (m : List (ℤ × Served L)) → lookup k m ≡ none → lookup k (sweep t m) ≡ none
  unfolding lookup sweep
  lookup-sweep t k [] h = h
  lookup-sweep t k ((i, v) ∷ m) h = ground (arith, lookup-sweep t k m)

  sweep-IsMap : (t : ℕ) (m : List (ℤ × Served L)) → IsMap m → IsMap (sweep t m)
  unfolding IsMap sweep
  sweep-IsMap t [] h = h
  sweep-IsMap t ((i, v) ∷ m) h = (lookup-sweep t i m h.0, sweep-IsMap t m h.1)

  length-sweep : (t : ℕ) (m : List (ℤ × Served L)) → length (sweep t m) ≡ length m
  unfolding sweep
  length-sweep t [] = refl
  length-sweep t ((i, v) ∷ m) = omega (arith, length-sweep t m)

  -- What is kept is a map, and with what is counted it is as long as before.
  abbrev Dropped : ℕ → List (ℤ × Served L) × ℕ → Type 0
  Dropped a r = IsMap r.0 × ((length r.0 + r.1) % 2 ^ 64 ≡ a % 2 ^ 64) × (r.1 < 2 ^ 64)

  drop_one-Dropped :
      (fd : ℤ) (o : Option (Served L)) (m : List (ℤ × Served L)) (n : ℕ)
      → lookup fd m ≡ o
      → IsMap m
      → n < 2 ^ 64
      → Dropped (length m + n) (drop_one fd o m n)
  drop_one-Dropped fd none m n e h b = (h, refl, b)
  drop_one-Dropped fd (some v) m n e h b =
      (erase-IsMap fd m h, omega (arith, length-erase fd v m h e), omega arith)

  drop_closed-Dropped :
      (fds : List ℤ) (m : List (ℤ × Served L)) (n : ℕ)
      → IsMap m
      → n < 2 ^ 64
      → Dropped (length m + n) (drop_closed fds m n)
  unfolding drop_closed
  drop_closed-Dropped [] m n h b = (h, refl, b)
  drop_closed-Dropped (fd ∷ fds) m n h b =
      let (p, q, r) = drop_one-Dropped fd (lookup fd m) m n refl h b in
      let next = drop_one fd (lookup fd m) m n in
      let (p', q', r') = drop_closed-Dropped fds next.0 next.1 p r in (p', omega (arith, q, q'), r')

  -- The gauge is the number of entries, and each descriptor has one entry.
  unfoldable pub Counted : Server L → Type 0
  Counted s = IsMap s.conns × (s.metrics.active_connections ≡ length s.conns % 2 ^ 64)

  collect_closed-Counted :
      (fds : List ℤ) (s : Server L) → Counted s → Counted (collect_closed fds s)
  unfolding Counted collect_closed
  collect_closed-Counted [] s h = h
  collect_closed-Counted (fd ∷ fds) s h =
      let (p, q, r) = drop_closed-Dropped (fd ∷ fds) s.conns 0 h.0 (omega arith) in
      (
        p,
        closed_active s.metrics (length s.conns) (length (drop_closed (fd ∷ fds) s.conns 0).0)
            (drop_closed (fd ∷ fds) s.conns 0).1 h.1 (omega (arith, q)) r,
      )

  swept-Counted :
      (b : Bool) (t : ℕ) (s : Server L)
      → Counted s
      → Counted (if b then record s { conns = sweep t s.conns } else s)
  unfolding Counted
  swept-Counted false t s h = h
  swept-Counted true t s h = (sweep-IsMap t s.conns h.0, omega (arith, h.1, length-sweep t s.conns))

  log-Counted : (now : ℕ) (s : Server L) → Counted s → Counted (log_metrics_if_needed now s)
  unfolding Counted log_metrics_if_needed
  log-Counted now s h = elim (Bool-cases (ltb (now - s.last_metrics_log_time) 5_000_000)) [
    | inl e ↦ rw (e) h
    | inr e ↦ rw (e) h
  ]

  finish-Counted : (now : ℕ) (s : Server L) → Counted s → Counted (finish now s)
  unfolding finish cleanup_closed_connections
  finish-Counted now s h = log-Counted now (cleanup_closed_connections now s) (
      collect_closed-Counted s.pending_close_fds _
        (swept-Counted s.keep_alive_enabled (now / 1000) s h))

  place-Counted :
      (now : ℕ) (fd : ℤ) (l : L) (o : Option (Served L)) (s : Server L)
      → lookup fd s.conns ≡ o
      → Counted s
      → Counted (place now fd l o s)
  unfolding Counted place reject_accepted insert IsMap on_accept_fail on_connection_opened
  place-Counted now fd l none s e h = ((e, h.0), omega (arith, h.1))
  place-Counted now fd l (some old) s e h = h

  -- What a round leaves, if it leaves anything.
  unfoldable pub CountedNext : Next L → Type 0
  unfolding Counted
  CountedNext (goes s) = Counted s
  CountedNext (ends c s) = Counted s
  CountedNext faults = Unit

  if-CountedNext :
      (b : Bool) (x y : Next L) → CountedNext x → CountedNext y → CountedNext (if b then x else y)
  if-CountedNext true x y hx hy = hx
  if-CountedNext false x y hx hy = hy

  assign-Counted :
      (now : ℕ) (fd : ℤ) (s : Server L) (r : Option (Option L × IoPool L))
      → Counted s
      → CountedNext (assign now fd s r)
  unfolding Counted CountedNext assign reject_accepted on_accept_fail
  assign-Counted now fd s none h = tt
  assign-Counted now fd s (some (none, p)) h = h
  assign-Counted now fd s (some (some l, p)) h =
      place-Counted now fd l (lookup fd s.conns) (record s { thread_pool = p }) refl h

  take_accepted-Counted :
      (now : ℕ) (fd : ℤ) (s : Server L) → Counted s → CountedNext (take_accepted now fd s)
  unfolding Counted take_accepted on_accept_ok
  take_accepted-Counted now fd s h =
      assign-Counted now fd (record s { metrics = on_accept_ok s.metrics }) _ h

  accept_failed-Counted :
      (now errno : ℕ) (s : Server L) → Counted s → CountedNext (accept_failed now errno s)
  unfolding Counted CountedNext accept_failed on_accept_fail
  accept_failed-Counted now errno s h =
      if-CountedNext (errno == 4 || errno == 11) _ _ h
        (if-CountedNext (not s.is_running) _ _ (finish-Counted now s h) h)

  accept_answered-Counted :
      (now : ℕ) (r : Accepted) (s : Server L) → Counted s → CountedNext (accept_answered now r s)
  unfolding accept_answered
  accept_answered-Counted now (refused errno) s h = accept_failed-Counted now errno s h
  accept_answered-Counted now (accepted fd) s h = take_accepted-Counted now fd s h

  pub accept_connection-Counted :
      (now : ℕ) (r : Accepted) (s : Server L) → Counted s → CountedNext (accept_connection now r s)
  unfolding CountedNext accept_connection
  accept_connection-Counted now r s h =
      if-CountedNext s.is_running _ _
        (accept_answered-Counted now r (finish now s) (finish-Counted now s h))
        (finish-Counted now s h)

  pub stop-Counted :
      (now : ℕ) (shut : L → L) (s : Server L) → Counted s → Counted (stop now shut s).0
  unfolding Counted stop IsMap
  stop-Counted now shut s h = elim (Bool-cases s.is_running) [
    | inl r ↦ rw (r) (
        log-Counted now _ (
          tt,
          closed_active s.metrics (length s.conns) 0 (length s.conns % 2 ^ 64) h.1 (omega arith)
              (omega arith),
        ))
    | inr r ↦ rw (r) h
  ]

  pub run-Counted :
      (make : ℕ → L) (listens : Bool) (s : Server L) → Counted s → Counted (run make listens s).0
  unfolding Counted run
  run-Counted make listens s h = elim (Bool-cases s.is_running) [
    | inl r ↦ rw (r) h
    | inr r ↦ rw (r) h
  ]

  pub enqueue-Counted :
      (fd : ℤ) (s : Server L) → Counted s → Counted (enqueue_closed_connection fd s)
  unfolding Counted enqueue_closed_connection
  enqueue-Counted fd s h = elim (Bool-cases (is_neg fd)) [ inl r ↦ rw (r) h | inr r ↦ rw (r) h ]
