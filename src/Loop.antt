-- ===== src/Loop.antt =====
-- include/core/EventLoop.hpp and src/core/EventLoop.cpp: the event loop, over a polling back end
-- and over the effect of calling a callback, which may itself use the loop. Each operation that
-- any thread may call is told whether the caller is the loop's own thread. The lock makes a call on
-- the queues one step.
pub mod Map
pub mod Sync
pub mod Order
pub mod Create
mod Tests
use cpp_reactor.Base.{
  ℕ, ◌+◌, ◌≡◌, refl, Bool, true, false, not, ◌&&◌, Option, none, some, List, [], ◌∷◌, ◌++◌, ℤ,
  no_fd, is_neg, same_fd, if◌then◌else◌,
}
use cpp_reactor.Status.{StatusCode, ok, again, invalid, not_found, error}
use cpp_reactor.Channel.{Channel, has, read_event, write_event, error_event}
use cpp_reactor.Dispatcher.{Dispatcher, is_ok}
use Map.{lookup, insert, erase}

pub data ChannelOp : Type 0 where
  add_op delete_op modify_op : ChannelOp

pub record Element (C : Type 0) : Type 0 where
  pub op : ChannelOp
  pub channel : Option (Channel C)
  pub fd : ℤ

-- `wakeups` counts the bytes in the socket pair, and `closed` lists the descriptors closed
-- by destroyed channels, the last one first.
pub record EventLoop (C D : Type 0) : Type 0 where
  pub dispatcher : D
  pub tasks : List (Element C)
  pub channels : List (ℤ × Channel C)
  pub callbacks : List C
  pub quit : Bool
  pub wakeups : ℕ
  pub closed : List ℤ

module _ {C D : Type 0} (X : Dispatcher D) (call : C → EventLoop C D → EventLoop C D) where
  abbrev Loop : Type 0
  Loop = EventLoop C D

  -- A callback that may be missing.
  abbrev pub call_some : Option C → Loop → Loop
  call_some none l = l
  call_some (some c) l = call c l

  -- `~Channel`: close the descriptor, then call the destroy callback.
  unfoldable pub destroy : Channel C → Loop → Loop
  destroy ch l = call_some ch.destroy_callback (
      if is_neg ch.fd
      then l
      else record l { dispatcher = X.close l.dispatcher ch.fd; closed = ch.fd ∷ l.closed })

  -- The end of the owner of a channel.
  abbrev pub drop_owned : Option (Channel C) → Loop → Loop
  drop_owned none l = l
  drop_owned (some ch) l = destroy ch l

  -- What is left of `add_` once the back end has answered.
  unfoldable pub add_answer : Loop → Channel C → D × StatusCode → Loop × StatusCode
  add_answer l ch (d, code) =
      if is_ok code
      then (record l { dispatcher = d; channels = insert ch.fd ch l.channels }, ok)
      else (destroy ch (record l { dispatcher = d }), error)

  unfoldable pub add_found : Loop → Channel C → Option (Channel C) → Loop × StatusCode
  add_found l ch none = add_answer l ch (X.add l.dispatcher ch.fd ch.events)
  add_found l ch (some old) = (destroy ch l, error)

  -- The channel is inserted before the back end is asked, and erased again if that fails.
  unfoldable pub add : Loop → Channel C → Loop × StatusCode
  add l ch = add_found l ch (lookup ch.fd l.channels)

  unfoldable pub remove_answer : Loop → ℤ → Channel C → D × StatusCode → Loop × StatusCode
  remove_answer l fd ch (d, code) =
      if is_ok code
      then (destroy ch (record l { dispatcher = d; channels = erase fd l.channels }), code)
      else (record l { dispatcher = d }, code)

  unfoldable pub remove_found : Loop → ℤ → Option (Channel C) → Loop × StatusCode
  remove_found l fd none = (l, not_found)
  remove_found l fd (some ch) = remove_answer l fd ch (X.remove l.dispatcher ch.fd ch.events)

  unfoldable pub remove : Loop → ℤ → Loop × StatusCode
  remove l fd = remove_found l fd (lookup fd l.channels)

  unfoldable pub modify_answer : Loop → D × StatusCode → Loop × StatusCode
  modify_answer l (d, code) = (record l { dispatcher = d }, code)

  unfoldable pub modify_found : Loop → Option (Channel C) → Loop × StatusCode
  modify_found l none = (l, not_found)
  modify_found l (some ch) = modify_answer l (X.modify l.dispatcher ch.fd ch.events)

  unfoldable pub modify : Loop → ℤ → Loop × StatusCode
  modify l fd = modify_found l (lookup fd l.channels)

  -- The descriptor that a task is about.
  abbrev pub task_fd : ℤ → Option (Channel C) → ℤ
  task_fd fd none = fd
  task_fd fd (some ch) = if is_neg fd then ch.fd else fd

  -- One task of the queue. An ADD without a channel, which no caller posts, is undefined in the
  -- source. The channel of another task ends with the task.
  unfoldable pub run_op : ChannelOp → Option (Channel C) → ℤ → Loop → Loop
  run_op add_op none fd l = l
  run_op add_op (some ch) fd l = (add l ch).0
  run_op delete_op o fd l = drop_owned o (remove l (task_fd fd o)).0
  run_op modify_op o fd l = drop_owned o (modify l (task_fd fd o)).0

  abbrev pub run_task : Element C → Loop → Loop
  run_task e l = run_op e.op e.channel e.fd l

  unfoldable pub run_tasks : List (Element C) → Loop → Loop
  run_tasks [] l = l
  run_tasks (e ∷ es) l = run_tasks es (run_task e l)

  unfoldable pub run_callbacks : List C → Loop → Loop
  run_callbacks [] l = l
  run_callbacks (c ∷ cs) l = run_callbacks cs (call c l)

  -- The callbacks are taken from their queue after the tasks have run.
  unfoldable pub process_callbacks : Loop → Loop
  process_callbacks l = run_callbacks l.callbacks (record l { callbacks = [] })

  unfoldable pub process_task_q : Loop → Loop
  process_task_q l = process_callbacks (run_tasks l.tasks (record l { tasks = [] }))

  abbrev pub wakeup : Loop → Loop
  wakeup l = record l { wakeups = l.wakeups + 1 }

  abbrev pub is_delete : ChannelOp → Bool
  is_delete delete_op = true
  is_delete _ = false

  -- A task runs at once if the loop's own thread posts it, unless it is a DELETE.
  unfoldable pub post_task : Bool → Element C → Loop → Loop
  post_task here e l =
      let queued = record l { tasks = l.tasks ++ e ∷ [] } in
      let processed = process_task_q queued in
      if here && not (is_delete e.op) then processed else if not here then wakeup queued else queued

  unfoldable pub add_task : Bool → Channel C → ChannelOp → Loop → Loop × StatusCode
  add_task here ch op l = (post_task here (record { op = op; channel = some ch; fd = no_fd }) l, ok)

  abbrev pub is_add : ChannelOp → Bool
  is_add add_op = true
  is_add _ = false

  unfoldable pub add_task_fd : Bool → ℤ → ChannelOp → Loop → Loop × StatusCode
  add_task_fd here fd op l =
      if is_neg fd
      then (l, invalid)
      else if is_add op
      then (l, invalid)
      else (post_task here (record { op = op; channel = none; fd = fd }) l, ok)

  unfoldable pub destroy_task : Bool → ℤ → Loop → Loop × StatusCode
  destroy_task here fd l = add_task_fd here fd delete_op l

  unfoldable pub post : Bool → C → Loop → Loop
  post here c l =
      let queued = record l { callbacks = l.callbacks ++ c ∷ [] } in
      if not here then wakeup queued else queued

  unfoldable pub shutdown : Loop → Loop
  shutdown l = wakeup (record l { quit = true })

  -- The write side of `active`, on the channel that is registered then.
  unfoldable pub active_write : ℕ → Option (Channel C) → Loop → Loop × StatusCode
  active_write event none l = (l, ok)
  active_write event (some ch) l =
      if has write_event event then (call_some ch.write_callback l, ok) else (l, ok)

  abbrev pub have : Option C → Bool
  have none = false
  have (some c) = true

  -- A read callback may remove the channel, so it is looked up again.
  unfoldable pub active_found : ℤ → ℕ → Option (Channel C) → Loop → Loop × StatusCode
  active_found fd event none l = (l, not_found)
  active_found fd event (some ch) l =
      if has error_event event
      then remove l fd
      else if has read_event event && have ch.read_callback
      then (let l' = call_some ch.read_callback l in active_write event (lookup fd l'.channels) l')
      else active_write event (some ch) l

  unfoldable pub active : ℤ → ℕ → Loop → Loop × StatusCode
  active fd event l =
      if is_neg fd then (l, invalid) else active_found fd event (lookup fd l.channels) l

  -- `run`, with what each `dispatch` did to the loop and returned, in order. `none` stands for a
  -- loop that still waits when the list ends.
  unfoldable pub run_rounds : List ((Loop → Loop) × StatusCode) → Loop → Option (Loop × StatusCode)
  run_rounds [] l = if l.quit then some (l, ok) else none
  run_rounds ((f, error) ∷ rs) l = if l.quit then some (l, ok) else some (f l, error)
  run_rounds ((f, code) ∷ rs) l =
      let next = run_rounds rs (process_task_q (f l)) in if l.quit then some (l, ok) else next

  unfoldable pub run : Bool → List ((Loop → Loop) × StatusCode) → Loop → Option (Loop × StatusCode)
  run here rs l =
      let started = record l { quit = false } in
      let rest = run_rounds rs started in if not here then some (started, error) else rest
