-- ===== src/Loop/Tests.antt =====
-- A loop on a concrete epoll back end, and the theorem at it.
use cpp_reactor.Base.{
  ℕ, ◌+◌, ◌^◌, ◌≡◌, refl, sym, ap, Bool, true, false, Option, none, some, List, [], ◌∷◌, ℤ, pos,
  no_fd, same_fd, arith, if◌then◌else◌,
}
use cpp_reactor.Channel.{Channel, read_event}
use cpp_reactor.Dispatcher.Names.{epoll}
use cpp_reactor.Dispatcher.Epoll.{CtlOp, ctl_add, ctl_del, ctl_mod, Lists, epoll_ctl}
use cpp_reactor.Dispatcher.Create.{Backend, epoll_backend, backend, backend_laws}
use cpp_reactor.Loop.{EventLoop, add_op, add, add_found, add_answer, destroy}
use cpp_reactor.Loop.Map.{lookup, insert}
use cpp_reactor.Loop.Sync
use cpp_reactor.Loop.Sync.{Sync, has_channel}
use cpp_reactor.Loop.Create.{new_loop, Kept, create_event_loop, create_event_loop-Kept}

-- An interest list, and an `epoll_ctl` that always succeeds.
abbrev Interest : Type 0
Interest = ℤ → Bool

abbrev ctl : CtlOp → ℤ → ℕ → Interest → Bool × Interest
ctl ctl_add fd e k = (true, λ g. if same_fd fd g then true else k g)
ctl ctl_del fd e k = (true, λ g. if same_fd fd g then false else k g)
ctl ctl_mod fd e k = (true, k)

ctl-true : (op : CtlOp) (fd : ℤ) (e : ℕ) (k : Interest) → (ctl op fd e k).0 ≡ true
ctl-true ctl_add fd e k = refl
ctl-true ctl_del fd e k = refl
ctl-true ctl_mod fd e k = refl

abbrev member : Interest → ℤ → Bool
member k g = k g

-- Closing a descriptor takes it off the list.
abbrev forget : ℤ → Interest → Interest
forget fd k = λ g. if same_fd fd g then false else k g

forget-adds_none : (b on : Bool) → (if b then false else on) ≡ true → on ≡ true
forget-adds_none true on h = absurd (ground (arith, h))
forget-adds_none false on h = h

lists : Lists ctl forget member
lists = record {
  failed = λ op fd e k g h. absurd (ground (arith, h, ctl-true op fd e k));
  added = λ fd e k g h. refl;
  deleted = λ fd e k g h. refl;
  modified = λ fd e k g h. refl;
  closed = λ fd g k. forget-adds_none (same_fd fd g) (k g);
}

abbrev listed : Option Interest → ℤ → Bool
listed none fd = false
listed (some k) fd = k fd

nothing_at_first : (k : Interest) → some (λ fd. false) ≡ some k → (fd : ℤ) → k fd ≡ false
nothing_at_first k e fd = sym (ap (λ o. listed o fd) e)

-- A callback that only counts itself.
abbrev counting : ℕ → EventLoop ℕ (Backend Interest) → EventLoop ℕ (Backend Interest)
counting c l = record l { wakeups = l.wakeups + c }

counting-Sync :
    (c : ℕ) (l : EventLoop ℕ (Backend Interest))
    → Sync (backend_laws ctl forget member lists false) l
    → Sync (backend_laws ctl forget member lists false) (counting c l)
counting-Sync c l s = record { valid = s.valid; agree = s.agree; named = s.named; ready = s.ready }

abbrev reader : Channel ℕ
reader = record {
  fd = pos 7;
  events = 2 ^ read_event;
  read_callback = some 1;
  write_callback = none;
  destroy_callback = none;
}

abbrev turns : List (Sync.Event (backend_laws ctl forget member lists false) counting counting-Sync)
turns =
    Sync.posts false (record { op = add_op; channel = some reader; fd = no_fd })
    ∷ Sync.processes
    ∷ Sync.reports (pos 7) 2
    ∷ []

create_event_loop-Kept_example :
    Kept ctl forget counting member lists epoll counting-Sync turns
      (create_event_loop ctl forget counting 0 (some (3, 4)) (some (λ fd. false)) epoll)
create_event_loop-Kept_example =
    create_event_loop-Kept ctl forget counting member lists epoll counting-Sync 0 (some (3, 4))
      (some (λ fd. false)) turns nothing_at_first (λ e. absurd (ground (arith, e)))
      (refl, (tt, (tt, tt)))

abbrev interest_of : Backend Interest → ℤ → Bool
interest_of (epoll_backend k) fd = k fd
interest_of _ fd = false

abbrev once : EventLoop ℕ (Backend Interest)
once = (add (backend ctl forget) counting (new_loop (epoll_backend (λ fd. false))) reader).0

abbrev twice : EventLoop ℕ (Backend Interest)
twice = (add (backend ctl forget) counting once reader).0

-- A second ADD of a descriptor closes it. Its first channel stays in the map, but the kernel does not
-- watch the descriptor any more.
twice-channel : has_channel (lookup (pos 7) twice.channels) ≡ true
unfolding add add_found add_answer destroy lookup insert epoll_ctl
twice-channel = refl

twice-interest : interest_of twice.dispatcher (pos 7) ≡ false
unfolding add add_found add_answer destroy lookup insert epoll_ctl
twice-interest = refl
