-- ===== src/IoPool.antt =====
-- include/net/IOThreadPool.hpp and src/net/IOThreadPool.cpp: the event loops of the worker threads,
-- each of a type `L`. A worker makes its loop before `start` returns; what the loop does then is
-- Loop's. The latch counts down once: a pool is started once.
pub mod Turns
use cpp_reactor.Base.{
  ℕ, zero, suc, ◌+◌, ◌%◌, ◌^◌, Option, none, some, List, [], ◌∷◌, length, replicate, get_elem?,
  ◌==◌, if◌then◌else◌,
}

-- `threads` is the number of running threads.
pub record IoPool (L : Type 0) : Type 0 where
  pub loops : List (Option L)
  pub threads : ℕ
  pub loop_index : ℕ
  pub max_threads : ℕ

module _ {L : Type 0} where
  unfoldable pub create : ℕ → IoPool L
  create max_threads = record {
    loops = replicate max_threads none;
    threads = 0;
    loop_index = 0;
    max_threads = max_threads;
  }

  -- `worker_` of each index.
  unfoldable pub make_loops : (ℕ → L) → ℕ → List (Option L) → List (Option L)
  make_loops make i [] = []
  make_loops make i (l ∷ ls) = some (make i) ∷ make_loops make (i + 1) ls

  unfoldable pub start : (ℕ → L) → IoPool L → IoPool L
  unfolding make_loops
  start make p =
      if p.threads == 0
      then record p { loops = make_loops make 0 p.loops; threads = length p.loops }
      else p

  unfoldable pub shut_loops : (L → L) → List (Option L) → List (Option L)
  shut_loops shut [] = []
  shut_loops shut (none ∷ ls) = none ∷ shut_loops shut ls
  shut_loops shut (some l ∷ ls) = some (shut l) ∷ shut_loops shut ls

  -- Every loop is told to end before the threads are joined.
  unfoldable pub stop : (L → L) → IoPool L → IoPool L
  unfolding shut_loops
  stop shut p =
      if p.threads == 0 then p else record p { loops = shut_loops shut p.loops; threads = 0 }

  -- `none` is an access out of bounds, which a pool of no loops makes.
  unfoldable pub next_found : IoPool L → Option (Option L) → Option (Option L × IoPool L)
  next_found p none = none
  next_found p (some l) =
      some (l, record p { loop_index = (p.loop_index + 1) % 2 ^ 32 % p.max_threads })

  unfoldable pub get_next_loop : IoPool L → Option (Option L × IoPool L)
  unfolding next_found
  get_next_loop p = next_found p (get_elem? p.loops p.loop_index)
