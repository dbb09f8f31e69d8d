-- ===== src/Loop/Create.antt =====
-- src/core/EventLoop.cpp: the constructor of a loop, and what the loop does when it is woken. The
-- callback that reads the wake-ups is a name, `read_local_message`; `pair` is the socket pair, or `none`
-- where `socketpair` fails, and `made` what `epoll_create` makes.
use cpp_reactor.Base.{
  ℕ, zero, suc, ◌-◌, ◌^◌, ◌<◌, ◌≡◌, refl, Bool, true, false, Option, none, some, List, [], ℤ, pos,
  min, ◌==◌, if◌then◌else◌, arith, All, Bool-cases, inl, inr, ==_iff,
}
use cpp_reactor.Channel.{Channel, read_event}
use cpp_reactor.Dispatcher.{Laws, Agrees-eq}
use cpp_reactor.Dispatcher.Names.{DispatcherType, select}
use cpp_reactor.Dispatcher.Epoll.{CtlOp, Lists}
use cpp_reactor.Dispatcher.Create.{
  Backend, create_dispatcher, backend, is_exact, backend_laws, IsFresh, create_dispatcher-IsFresh,
}
use cpp_reactor.Loop.Map.{lookup}
use cpp_reactor.Loop.{EventLoop, add_op, add_task}
use cpp_reactor.Loop.Sync
use cpp_reactor.Loop.Sync.{Sync, post_task-Sync, happen_all-Sync}

abbrev pub wake_channel : {C : Type 0} → C → ℕ → Channel C
wake_channel read_local_message fd = record {
  fd = pos fd;
  events = 2 ^ read_event;
  read_callback = some read_local_message;
  write_callback = none;
  destroy_callback = none;
}

-- Each round reads at most 256 of the bytes that wait in the socket pair; the fuel is one more than
-- their number.
unfoldable pub drain : ℕ → ℕ → ℕ
drain zero n = n
drain (suc fuel) n = let left = drain fuel (n - min 256 n) in if n == 0 then n else left

-- Nothing is left to read.
drain-all : (fuel n : ℕ) → n < fuel → drain fuel n ≡ 0
unfolding drain
drain-all zero n h = absurd (omega (arith, h))
drain-all (suc fuel) n h = elim (Bool-cases (n == 0)) [
  | inl t ↦ rw t ((==_iff n 0).0 t)
  | inr f ↦ rw f (drain-all fuel (n - min 256 n) (less n fuel f h))
]
  where
    less : (n fuel : ℕ) → (n == 0) ≡ false → n < suc fuel → n - min 256 n < fuel
    less n fuel f h = ground arith

module _ {C D : Type 0} where
  abbrev pub new_loop : D → EventLoop C D
  new_loop d = record {
    dispatcher = d;
    tasks = [];
    channels = [];
    callbacks = [];
    quit = true;
    wakeups = 0;
    closed = [];
  }

  unfoldable pub read_local_message : EventLoop C D → EventLoop C D
  unfolding drain
  read_local_message l = record l { wakeups = drain (suc l.wakeups) l.wakeups }

  -- A loop that has read its wake-ups waits for the next one.
  pub read_local_message_lem : (l : EventLoop C D) → (read_local_message l).wakeups ≡ 0
  unfolding read_local_message
  read_local_message_lem l = drain-all (suc l.wakeups) l.wakeups (omega arith)

module _ {C K : Type 0} (ctl : CtlOp → ℤ → ℕ → K → Bool × K) (forget : ℤ → K → K)
    (call : C → EventLoop C (Backend K) → EventLoop C (Backend K)) where
  -- The result of the ADD task is not looked at.
  unfoldable pub create_on : C → ℕ → Option (Backend K) → Option (EventLoop C (Backend K))
  create_on c fd none = none
  create_on c fd (some d) =
      some (add_task (backend ctl forget) call true (wake_channel c fd) add_op (new_loop d)).0

  -- `none` is an exception.
  unfoldable pub create_event_loop :
      C → Option (ℕ × ℕ) → Option K → DispatcherType → Option (EventLoop C (Backend K))
  unfolding create_on
  create_event_loop c none made t = none
  create_event_loop c (some (fd, wake_fd)) made t = create_on c fd (create_dispatcher made t)

  module _ (interest : K → ℤ → Bool) (lists : Lists ctl forget interest) (t : DispatcherType) where
    abbrev laws : Laws (backend ctl forget)
    laws = backend_laws ctl forget interest lists (is_exact t)

    module _
        (keeps : (c : C) (l : EventLoop C (Backend K)) → Sync laws l → Sync laws (call c l)) where
      -- If a loop was made, it is in order whatever happened to it since.
      abbrev pub Kept :
          List (Sync.Event laws call keeps) → Option (EventLoop C (Backend K)) → Type 0
      Kept es none = Unit
      Kept es (some l) = Sync laws (Sync.happen_all laws call keeps es l)

      new_loop-Sync :
          (d : Backend K)
          → IsFresh ctl forget interest lists (is_exact t) (some d)
          → Sync laws (new_loop {C = C} d)
      unfolding lookup
      new_loop-Sync d f = record {
        valid = f.0;
        agree = λ fd n. Agrees-eq laws.exact _ _ (f.1 fd n);
        named = λ fd ch h. absurd (ground (arith, h));
        ready = tt;
      }

      create_on-Kept :
          (c : C) (fd : ℕ) (o : Option (Backend K)) (es : List (Sync.Event laws call keeps))
          → IsFresh ctl forget interest lists (is_exact t) o
          → All (Sync.CanHappen laws call keeps) es
          → Kept es (create_on c fd o)
      unfolding create_on add_task
      create_on-Kept c fd none es f a = tt
      create_on-Kept c fd (some d) es f a =
          happen_all-Sync laws call keeps es _ a
            (post_task-Sync laws call keeps true _ (new_loop d) refl (new_loop-Sync d f))

      -- A loop that is made on the epoll or the poll back end, the interest list being empty at first,
      -- has a channel for each descriptor that the back end has registered, at first and after any
      -- sequence of reports, posts, rounds and shutdowns, if callbacks keep that in order and posted
      -- ADD tasks bring a channel with a descriptor. On the poll back end, whose table closing a
      -- descriptor leaves as it is, each descriptor with a channel is registered, too.
      pub create_event_loop-Kept :
          (c : C) (pair : Option (ℕ × ℕ)) (made : Option K) (es : List (Sync.Event laws call keeps))
          → ((k : K) → made ≡ some k → (fd : ℤ) → interest k fd ≡ false)
          → (t ≡ select → ⊥)
          → All (Sync.CanHappen laws call keeps) es
          → Kept es (create_event_loop c pair made t)
      unfolding create_event_loop
      create_event_loop-Kept c none made es h n a = tt
      create_event_loop-Kept c (some (fd, wake_fd)) made es h n a =
          create_on-Kept c fd (create_dispatcher made t) es
            (create_dispatcher-IsFresh ctl forget interest lists made t h n) a
