-- ===== src/App/Echo/Turns.antt =====
-- src/app/main_echo.cpp: which loop each connection is given to.
use native.Mathlib.Nat.{mod-add-mod, mod-eq_of_lt, mod-lt}
use cpp_reactor.Base.{
  ℕ, ◌+◌, ◌%◌, ◌^◌, ◌<◌, ◌≡◌, refl, sym, ap, ◌∙◌, subst, Option, none, some, List, [], ◌∷◌, ◌++◌,
  append-nil, append_assoc, ltb, if◌then◌else◌, arith, replicate, get_elem?, length-replicate,
}
use cpp_reactor.IoPool
use cpp_reactor.IoPool.{IoPool, make_loops, next_found, get_next_loop}
use cpp_reactor.IoPool.Turns.{get_elem-make_loops}
use cpp_reactor.App.Echo.{start, max_fds}
use cpp_reactor.App.Echo.Program.{
  taken, interrupted, not_ready, broken, Step, answers, elsewhere, Acceptor, Outcome, ended, waits,
  faults, give, run_elsewhere, accept_loop,
}
use cpp_reactor.App.Echo.Adds.{added, happen_on_loop-Adds, register_conn-Adds}

module _ {L : Type 0} where
  -- The loops of `n` workers, of which the `k`-th is next.
  module _ (make : ℕ → L) (n : ℕ) where
    record IsTurn (k : ℕ) (p : IoPool L) : Type 0 where
      loops_made : p.loops ≡ make_loops make 0 (replicate n none)
      limit : p.max_threads ≡ n
      index : p.loop_index ≡ k % n

    next_pool : IoPool L → ℕ → IoPool L
    next_pool p k = record p { loop_index = (k % n + 1) % 2 ^ 32 % n }

    turn : (k : ℕ) → 0 < n → n < 2 ^ 32 → (k % n + 1) % 2 ^ 32 % n ≡ (k + 1) % n
    turn k h b =
        let m = mod-lt k h in
        let e : (k % n + 1) % 2 ^ 32 ≡ k % n + 1 = omega (arith, m) in rw (e) (mod-add-mod k n 1)

    -- The loops that connections are given to from the `k`-th on.
    abbrev pub given : ℕ → List Step → List L
    given k [] = []
    given k (elsewhere e ∷ steps) = given k steps
    given k (answers (taken fd) ∷ steps) =
        (if ltb fd max_fds then make (k % n) ∷ [] else []) ++ given (k + 1) steps
    given k (answers broken ∷ steps) = []
    given k (answers interrupted ∷ steps) = given k steps
    given k (answers not_ready ∷ steps) = given k steps

    -- The loop of the accept thread ends or goes on, and the connections were given to these loops.
    abbrev pub GivenTo : List L → Outcome L → Type 0
    GivenTo ls (ended w) = added w.echo.posted ≡ ls
    GivenTo ls (waits w) = added w.echo.posted ≡ ls
    GivenTo ls faults = ⊥

    next_found-turn :
        (k : ℕ) (p : IoPool L)
        → 0 < n
        → IsTurn k p
        → get_elem? p.loops p.loop_index ≡ some (some (make (k % n)))
    next_found-turn k p h t =
        let m = mod-lt k h in
        ap (λ ls. get_elem? ls p.loop_index) t.loops_made
        ∙ ap (get_elem? (make_loops make 0 (replicate n none))) t.index
        ∙ get_elem-make_loops make 0 (k % n) (replicate n none)
            (omega (arith, m, length-replicate {A = Option L} n none))
        ∙ ap (λ j. some (some (make j))) {x = 0 + k % n} {y = k % n} (omega arith)

    next-IsTurn :
        (k : ℕ) (p : IoPool L)
        → 0 < n
        → n < 2 ^ 32
        → IsTurn k p
        → IsTurn (k + 1) (record p { loop_index = (p.loop_index + 1) % 2 ^ 32 % p.max_threads })
    next-IsTurn k p h b t = record {
      loops_made = t.loops_made;
      limit = t.limit;
      index = rw (t.index, t.limit) (turn k h b);
    }

    accept_loop-GivenTo :
        (steps : List Step) (k : ℕ) (w : Acceptor L)
        → 0 < n
        → n < 2 ^ 32
        → IsTurn k w.pool
        → GivenTo (added w.echo.posted ++ given k steps) (accept_loop steps w)
    unfolding accept_loop get_next_loop next_found
    accept_loop-GivenTo [] k w h b t = sym (append-nil (added w.echo.posted))
    accept_loop-GivenTo (elsewhere e ∷ steps) k w h b t =
        subst (λ ls. GivenTo (ls ++ given k steps) (accept_loop (elsewhere e ∷ steps) w))
          (happen_on_loop-Adds e w.echo) (accept_loop-GivenTo steps k (run_elsewhere e w) h b t)
    accept_loop-GivenTo (answers (taken fd) ∷ steps) k w h b t =
        let l = make (k % n) in
        let p : IoPool L = record w.pool {
          loop_index = (w.pool.loop_index + 1) % 2 ^ 32 % w.pool.max_threads;
        } in
        let w' : Acceptor L = record { pool = p; echo = give fd (some l) w.echo } in
        rw (next_found-turn k w.pool h t) (
          subst (λ ls. GivenTo ls (accept_loop steps w'))
            (ap (λ ls. ls ++ given (k + 1) steps) (register_conn-Adds fd l w.echo)
              ∙ append_assoc (added w.echo.posted) _ (given (k + 1) steps))
            (accept_loop-GivenTo steps (k + 1) w' h b (next-IsTurn k w.pool h b t)))
    accept_loop-GivenTo (answers broken ∷ steps) k w h b t = sym (append-nil (added w.echo.posted))
    accept_loop-GivenTo (answers interrupted ∷ steps) k w h b t =
        accept_loop-GivenTo steps k w h b t
    accept_loop-GivenTo (answers not_ready ∷ steps) k w h b t = accept_loop-GivenTo steps k w h b t

    -- With a started pool of at least one thread, and fewer than 2^32, the accept loop never reads out
    -- of bounds, whatever `accept4` answers and the loops do meanwhile: the connections that it takes
    -- are given to the loops of the workers in turn, in the order in which they came, and those
    -- whose descriptor is too big for the table use up their turn.
    pub accept_loop-turns :
        (steps : List Step)
        → 0 < n
        → n < 2 ^ 32
        → GivenTo (given 0 steps) (
            accept_loop steps (record { pool = IoPool.start make (IoPool.create n); echo = start }))
    unfolding IoPool.start IoPool.create
    accept_loop-turns steps h b =
        accept_loop-GivenTo steps 0
          (record { pool = IoPool.start make (IoPool.create n); echo = start }) h b
          (record { loops_made = refl; limit = refl; index = sym (mod-eq_of_lt h) })
