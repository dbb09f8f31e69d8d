-- ===== src/Loop/Order.antt =====
-- In which order src/core/EventLoop.cpp runs what it is given.
use cpp_reactor.Base.{
  ℕ, suc, ◌+◌, ◌≡◌, refl, sym, ap, ◌∙◌, Bool, true, false, none, some, List, [], ◌∷◌, ◌++◌,
  append-nil, append_assoc, ℤ, is_neg, if◌then◌else◌, arith, length,
}
use cpp_reactor.Status.{ok}
use cpp_reactor.Channel.{Channel, has, read_event, error_event}
use cpp_reactor.Dispatcher.{Dispatcher}
use cpp_reactor.Loop.Map.{lookup}
use cpp_reactor.Loop.{
  EventLoop, Element, delete_op, run_tasks, run_task, process_callbacks, process_task_q, post_task,
  add_task_fd, destroy_task, active, active_found, active_write,
}

module _ {C D : Type 0} (X : Dispatcher D) (call : C → EventLoop C D → EventLoop C D) where
  run_tasks-append :
      (xs ys : List (Element C)) (l : EventLoop C D)
      → run_tasks X call (xs ++ ys) l ≡ run_tasks X call ys (run_tasks X call xs l)
  unfolding run_tasks
  run_tasks-append [] ys l = refl
  run_tasks-append (x ∷ xs) ys l = run_tasks-append xs ys (run_task X call x l)

  -- Posts of other threads, one after the other.
  pub post_all : List (Element C) → EventLoop C D → EventLoop C D
  post_all [] l = l
  post_all (e ∷ es) l = post_all es (post_task X call false e l)

  post_all_lem :
      (es : List (Element C)) (l : EventLoop C D)
      → post_all es l ≡ record l { tasks = l.tasks ++ es; wakeups = l.wakeups + length es }
  unfolding post_all post_task
  post_all_lem [] l =
      let e : l.wakeups ≡ l.wakeups + 0 = omega arith in
      λ i. record l { tasks = sym (append-nil l.tasks) i; wakeups = e i }
  post_all_lem (e ∷ es) l =
      let n : l.wakeups + 1 + length es ≡ l.wakeups + suc (length es) = omega arith in
      post_all_lem es (record l { tasks = l.tasks ++ e ∷ []; wakeups = l.wakeups + 1 }) ∙ λ i.
      record l { tasks = append_assoc l.tasks (e ∷ []) es i; wakeups = n i }

  -- What other threads post runs in the loop's next round, in the order of the posts, behind the
  -- tasks that were waiting and before any posted callback; each post wakes the loop once.
  pub process-post_all :
      (es : List (Element C)) (l : EventLoop C D)
      → process_task_q X call (post_all es l)
        ≡ process_callbacks X call (
            run_tasks X call es
              (run_tasks X call l.tasks (record l { tasks = []; wakeups = l.wakeups + length es })))
  unfolding process_task_q
  process-post_all es l =
      ap (process_task_q X call) (post_all_lem es l)
      ∙ ap (process_callbacks X call) (run_tasks-append l.tasks es _)

  -- A DELETE of a descriptor that is not negative only joins the queue, also when the loop's own
  -- thread posts it: the channels, the back end and the callbacks are as they were. Another thread's
  -- post also wakes the loop.
  pub destroy_task_lem :
      (here : Bool) (fd : ℤ) (l : EventLoop C D)
      → is_neg fd ≡ false
      → destroy_task X call here fd l ≡ (
        record l {
          tasks = l.tasks ++ record { op = delete_op; channel = none; fd = fd } ∷ [];
          wakeups = if here then l.wakeups else l.wakeups + 1;
        },
        ok,
      )
  unfolding destroy_task add_task_fd post_task
  destroy_task_lem true fd l n = rw n
  destroy_task_lem false fd l n = rw n

  active_found-removed :
      (fd : ℤ) (ev : ℕ) (ch : Channel C) (c : C) (l : EventLoop C D)
      → has error_event ev ≡ false
      → has read_event ev ≡ true
      → ch.read_callback ≡ some c
      → lookup fd (call c l).channels ≡ none
      → active_found X call fd ev (some ch) l ≡ (call c l, ok)
  unfolding active_found active_write
  active_found-removed fd ev ch c l e r k n = rw (e, r, k) (rw n)

  -- Where a descriptor that is not negative has a channel with a read callback, and is reported for
  -- reading and not for an error, and that callback removes the channel: the callback is all that
  -- happens, also when the descriptor was reported for writing.
  pub active_removed :
      (fd : ℤ) (ev : ℕ) (ch : Channel C) (c : C) (l : EventLoop C D)
      → is_neg fd ≡ false
      → lookup fd l.channels ≡ some ch
      → has error_event ev ≡ false
      → has read_event ev ≡ true
      → ch.read_callback ≡ some c
      → lookup fd (call c l).channels ≡ none
      → active X call fd ev l ≡ (call c l, ok)
  unfolding active
  active_removed fd ev ch c l v f e r k n = rw (v, f) (active_found-removed fd ev ch c l e r k n)
