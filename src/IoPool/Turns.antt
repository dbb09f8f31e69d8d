-- ===== src/IoPool/Turns.antt =====
-- Which loop each call of `getNextLoop` of src/net/IOThreadPool.cpp hands out.
use native.Mathlib.Nat.{mod-eq_of_lt, mod-add-mod, mod-lt}
use cpp_reactor.Base.{
  ℕ, zero, suc, ◌+◌, ◌%◌, ◌^◌, ◌<◌, ◌≡◌, refl, sym, ap, ◌∙◌, Option, none, some, List, [], ◌∷◌,
  length, replicate, get_elem?, arith, length-replicate,
}
use cpp_reactor.IoPool.{IoPool, create, make_loops, start, next_found, get_next_loop}

turn : (i k n : ℕ) → i < n → n < 2 ^ 32 → ((i + 1) % 2 ^ 32 % n + k) % n ≡ (i + suc k) % n
turn i k n h s =
    let e : (i + 1) % 2 ^ 32 ≡ i + 1 = omega arith in
    let f : i + 1 + k ≡ i + suc k = omega arith in
    rw (e) (mod-add-mod (i + 1) n k ∙ ap (λ j. j % n) f)

module _ {L : Type 0} where
  -- The loop that the call after `k` other calls hands out.
  unfoldable pub pick_next :
      (IoPool L → Option (Option L)) → Option (Option L × IoPool L) → Option (Option L)
  pick_next f none = none
  pick_next f (some (l, p)) = f p

  unfoldable pub pick : ℕ → IoPool L → Option (Option L)
  unfolding pick_next
  pick zero p = get_elem? p.loops p.loop_index
  pick (suc k) p = pick_next (pick k) (get_next_loop p)

  pub record IsReady (p : IoPool L) : Type 0 where
    pub sized : length p.loops ≡ p.max_threads
    pub inside : p.loop_index < p.max_threads
    pub small : p.max_threads < 2 ^ 32

  get_elem-lt :
      (xs : List (Option L)) (i : ℕ) → i < length xs → (l : Option L) × (get_elem? xs i ≡ some l)
  get_elem-lt [] i h = absurd (omega arith)
  get_elem-lt (x ∷ xs) zero h = (x, refl)
  get_elem-lt (x ∷ xs) (suc i) h = get_elem-lt xs i (omega arith)

  -- In a pool as many loops as it has threads, fewer than 2^32 and at least one, the call after `k`
  -- others hands out the loop `k` places further on, counted round.
  pub pick-turns :
      (k : ℕ) (p : IoPool L)
      → IsReady p
      → pick k p ≡ get_elem? p.loops ((p.loop_index + k) % p.max_threads)
  unfolding pick get_next_loop next_found
  pick-turns zero p r =
      let e : p.loop_index + 0 ≡ p.loop_index = omega arith in
      ap (get_elem? p.loops) (sym (ap (λ i. i % p.max_threads) e ∙ mod-eq_of_lt r.inside))
  pick-turns (suc k) p r =
      let (l, e) = get_elem-lt p.loops p.loop_index (omega (arith, r.sized, r.inside)) in
      let n = (p.loop_index + 1) % 2 ^ 32 % p.max_threads in
      let q : IoPool L = record p { loop_index = n } in
      let within : n < p.max_threads =
        mod-lt ((p.loop_index + 1) % 2 ^ 32) (omega (arith, r.inside)) in
      let later = pick-turns k q (record { sized = r.sized; inside = within; small = r.small }) in
      rw (e) (later ∙ ap (get_elem? p.loops) (turn p.loop_index k p.max_threads r.inside r.small))

  length-make_loops :
      (make : ℕ → L) (i : ℕ) (ls : List (Option L)) → length (make_loops make i ls) ≡ length ls
  unfolding make_loops
  length-make_loops make i [] = refl
  length-make_loops make i (l ∷ ls) = ap suc (length-make_loops make (i + 1) ls)

  pub get_elem-make_loops :
      (make : ℕ → L) (i j : ℕ) (ls : List (Option L))
      → j < length ls
      → get_elem? (make_loops make i ls) j ≡ some (some (make (i + j)))
  unfolding make_loops
  get_elem-make_loops make i j [] h = absurd (omega arith)
  get_elem-make_loops make i zero (l ∷ ls) h =
      ap (λ n. some (some (make n))) {x = i} {y = i + 0} (omega arith)
  get_elem-make_loops make i (suc j) (l ∷ ls) h =
      get_elem-make_loops make (i + 1) j ls (omega arith)
      ∙ ap (λ n. some (some (make n))) {x = i + 1 + j} {y = i + suc j} (omega arith)

  start-IsReady : (make : ℕ → L) (n : ℕ) → 0 < n → n < 2 ^ 32 → IsReady (start make (create n))
  unfolding start create
  start-IsReady make n h s = record {
    sized = length-make_loops make 0 (replicate n none) ∙ length-replicate n none;
    inside = h;
    small = s;
  }

  -- A started pool of at least one thread, and fewer than 2^32, hands out the loops of its workers in
  -- turn: the call after `k` others gets the loop of the worker `k` modulo the number of threads.
  pub pick-start :
      (make : ℕ → L) (n k : ℕ)
      → 0 < n
      → n < 2 ^ 32
      → pick k (start make (create n)) ≡ some (some (make (k % n)))
  unfolding start create
  pick-start make n k h s =
      let r = start-IsReady make n h s in
      let e : 0 + k ≡ k = omega arith in
      let f : 0 + k % n ≡ k % n = omega arith in
      pick-turns k (start make (create n)) r
      ∙ ap (λ j. get_elem? (make_loops make 0 (replicate n none)) (j % n)) e
      ∙ get_elem-make_loops make 0 (k % n) (replicate n none)
          (omega (arith, mod-lt k h, length-replicate {A = Option L} n none))
      ∙ ap (λ j. some (some (make j))) f
