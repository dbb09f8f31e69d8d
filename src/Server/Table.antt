-- ===== src/Server/Table.antt =====
-- include/net/TcpServer.hpp: what a clean-up and an accepted descriptor do to the table.
use cpp_reactor.Base.{
  ℕ, ◌/◌, ◌≡◌, refl, ◌∙◌, ap, ◌⊎◌, inl, inr, Bool, true, false, ◌||◌, Option, none, some, List, [],
  ◌∷◌, ℤ, same_fd, same_fd_iff, subst, if◌then◌else◌, arith,
}
use cpp_reactor.Loop.Map.{lookup, insert, lookup-erase}
use cpp_reactor.Metrics.{on_accept_ok, on_accept_fail, on_connection_opened}
use cpp_reactor.IoPool
use cpp_reactor.IoPool.{IoPool}
use cpp_reactor.Server.{
  Served, Server, close_if_idle, sweep, drop_one, drop_closed, collect_closed,
  cleanup_closed_connections,
}
use cpp_reactor.Server.Accept.{
  Next, goes, ends, faults, place, assign, take_accepted, reject_accepted,
}

abbrev pub mem_fd : ℤ → List ℤ → Bool
mem_fd g [] = false
mem_fd g (fd ∷ fds) = same_fd fd g || mem_fd g fds

module _ {L : Type 0} where
  abbrev pub after_sweep : ℕ → Option (Served L) → Option (Served L)
  after_sweep t none = none
  after_sweep t (some c) = some (close_if_idle t c)

  lookup-sweep :
      (t : ℕ) (g : ℤ) (m : List (ℤ × Served L)) → lookup g (sweep t m) ≡ after_sweep t (lookup g m)
  unfolding lookup sweep
  lookup-sweep t g [] = refl
  lookup-sweep t g ((fd, c) ∷ m) = by_test (same_fd fd g) (lookup-sweep t g m)
    where
      by_test :
          (b : Bool)
          → lookup g (sweep t m) ≡ after_sweep t (lookup g m)
          → (if b then some (close_if_idle t c) else lookup g (sweep t m))
            ≡ after_sweep t (if b then some c else lookup g m)
      by_test true e = refl
      by_test false e = e

  drop_one_lem :
      (g fd : ℤ) (m : List (ℤ × Served L)) (n : ℕ) (o : Option (Served L))
      → lookup fd m ≡ o
      → lookup g (drop_one fd o m n).0 ≡ (if same_fd fd g then none else lookup g m)
  drop_one_lem g fd m n none e = ground (arith, same_fd_iff fd g)
  drop_one_lem g fd m n (some c) e = lookup-erase fd g m

  drop_closed_lem :
      (g : ℤ) (fds : List ℤ) (m : List (ℤ × Served L)) (n : ℕ)
      → lookup g (drop_closed fds m n).0 ≡ (if mem_fd g fds then none else lookup g m)
  unfolding drop_closed
  drop_closed_lem g [] m n = refl
  drop_closed_lem g (fd ∷ fds) m n =
      let next = drop_one fd (lookup fd m) m n in
      let e = drop_one_lem g fd m n (lookup fd m) refl in
      let r = drop_closed_lem g fds next.0 next.1 in ground (arith, r, e)

  collect_closed_lem :
      (g : ℤ) (fds : List ℤ) (s : Server L)
      → s.pending_close_fds ≡ fds
      → (lookup g (collect_closed fds s).conns ≡ (if mem_fd g fds then none else lookup g s.conns))
        × ((collect_closed fds s).pending_close_fds ≡ [])
  unfolding collect_closed
  collect_closed_lem g [] s e = (refl, e)
  collect_closed_lem g (fd ∷ fds) s e = (drop_closed_lem g (fd ∷ fds) s.conns 0, refl)

  swept_lem :
      (b : Bool) (now : ℕ) (g : ℤ) (s : Server L)
      → let t = (if b then record s { conns = sweep (now / 1000) s.conns } else s) in
        (t.pending_close_fds ≡ s.pending_close_fds)
        × (lookup g t.conns
            ≡ (if b then after_sweep (now / 1000) (lookup g s.conns) else lookup g s.conns))
  swept_lem true now g s = (refl, lookup-sweep (now / 1000) g s.conns)
  swept_lem false now g s = (refl, refl)

  -- A clean-up empties the list of descriptors to close, removes their entries, and does to every
  -- other entry what the check for idle connections does, if that is enabled.
  pub cleanup_closed_connections_lem :
      (now : ℕ) (g : ℤ) (s : Server L)
      → ((cleanup_closed_connections now s).pending_close_fds ≡ [])
        × (lookup g (cleanup_closed_connections now s).conns ≡ (
            if mem_fd g s.pending_close_fds
            then none
            else if s.keep_alive_enabled
            then after_sweep (now / 1000) (lookup g s.conns)
            else lookup g s.conns))
  unfolding cleanup_closed_connections
  cleanup_closed_connections_lem now g s =
      let (p, q) = swept_lem s.keep_alive_enabled now g s in
      let (c, e) = collect_closed_lem g s.pending_close_fds _ p in
      (e, c ∙ ap (λ o. if mem_fd g s.pending_close_fds then none else o) q)

  -- The new descriptor is closed and the table left, or it gets an entry and nothing is closed.
  abbrev pub Owned : ℤ → Server L → Server L → Type 0
  Owned fd s s' =
      ((s'.closed ≡ fd ∷ s.closed)
        × (s'.conns ≡ s.conns)
        × (s'.metrics ≡ on_accept_fail (on_accept_ok s.metrics)))
      ⊎ ((c : Served L) × (lookup fd s.conns ≡ none)
          × (s'.conns ≡ insert fd c s.conns)
          × (s'.closed ≡ s.closed)
          × (s'.metrics ≡ on_connection_opened (on_accept_ok s.metrics)))

  abbrev OwnedNext : ℤ → Server L → Next L → Type 0
  OwnedNext fd s (goes s') = Owned fd s s'
  OwnedNext fd s (ends c s') = Unit
  OwnedNext fd s faults = Unit

  abbrev counted_accept : Server L → IoPool L → Server L
  counted_accept s p = record s { thread_pool = p; metrics = on_accept_ok s.metrics }

  place-Owned :
      (now : ℕ) (fd : ℤ) (l : L) (o : Option (Served L)) (s : Server L) (p : IoPool L)
      → lookup fd s.conns ≡ o
      → Owned fd s (place now fd l o (counted_accept s p))
  unfolding place reject_accepted
  place-Owned now fd l none s p e = inr (_, e, refl, refl, refl)
  place-Owned now fd l (some c) s p e = inl (refl, refl, refl)

  assign-OwnedNext :
      (now : ℕ) (fd : ℤ) (s : Server L) (r : Option (Option L × IoPool L))
      → OwnedNext fd s (assign now fd (record s { metrics = on_accept_ok s.metrics }) r)
  unfolding assign reject_accepted
  assign-OwnedNext now fd s none = tt
  assign-OwnedNext now fd s (some (none, p)) = inl (refl, refl, refl)
  assign-OwnedNext now fd s (some (some l, p)) = place-Owned now fd l _ s p refl

  -- A descriptor that `accept` returns does not leak while the loop goes on: either it is closed, the
  -- table is as it was and the accept is counted as failed, or the table, which did not have it, is
  -- as it was with one entry for it, nothing is closed, and the connection is counted as opened.
  pub take_accepted-Owned :
      (now : ℕ) (fd : ℤ) (s s' : Server L) → take_accepted now fd s ≡ goes s' → Owned fd s s'
  unfolding take_accepted
  take_accepted-Owned now fd s s' h =
      let k : OwnedNext fd s (goes s') =
        subst (OwnedNext fd s) h (assign-OwnedNext now fd s (IoPool.get_next_loop s.thread_pool)) in
      k
