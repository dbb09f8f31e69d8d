-- ===== src/Loop/Sync.antt =====
-- The channel map of src/core/EventLoop.cpp and the registrations of its back end.
use cpp_reactor.Base.{
  ℕ, ◌+◌, ◌≡◌, refl, sym, ap, ◌∙◌, subst, Bool, true, false, ◌&&◌, Option, none, some, List, [],
  ◌∷◌, ◌++◌, ℤ, is_neg, same_fd, same_fd_iff, arith, Bool-cases, inl, inr, All, All-append,
}
use cpp_reactor.Status.{StatusCode}
use cpp_reactor.Channel.{Channel, has, read_event, write_event, error_event}
use cpp_reactor.Dispatcher.{
  Dispatcher, Laws, is_ok, changed, Agrees, Agrees-eq, Agrees-from, Agrees-trans, Agrees-off,
}
use cpp_reactor.Loop.Map.{lookup, insert, erase, lookup-insert, lookup-erase}
use cpp_reactor.Loop.{
  EventLoop, Element, ChannelOp, add_op, delete_op, modify_op, call_some, destroy, drop_owned,
  add_answer, add_found, add, remove_answer, remove_found, remove, modify_answer, modify_found,
  modify, run_op, run_tasks, run_callbacks, process_callbacks, process_task_q, post_task,
  active_write, active_found, active, is_delete, have, post, shutdown,
}

abbrev pub has_channel : {C : Type 0} → Option C → Bool
has_channel none = false
has_channel (some c) = true

-- A task that can run: an ADD brings a channel with a descriptor.
abbrev pub CanAdd : {C : Type 0} → ChannelOp → Option (Channel C) → Type 0
CanAdd add_op (some ch) = is_neg ch.fd ≡ false
CanAdd _ _ = Unit

abbrev pub CanRun : {C : Type 0} → Element C → Type 0
CanRun e = CanAdd e.op e.channel

module _ {C D : Type 0} {X : Dispatcher D} (L : Laws X) where
  open L use {IsValid, registered, exact}

  -- A descriptor is registered with the back end only if it has a channel, under its own name, and
  -- exactly then if the back end is exact.
  pub record Sync (l : EventLoop C D) : Type 0 where
    pub valid : IsValid l.dispatcher
    pub agree :
        (fd : ℤ)
        → is_neg fd ≡ false
        → Agrees exact (registered l.dispatcher fd) (has_channel (lookup fd l.channels))
    pub named :
        (fd : ℤ) (ch : Channel C)
        → lookup fd l.channels ≡ some ch
        → (ch.fd ≡ fd) × (is_neg fd ≡ false)
    pub ready : All CanRun l.tasks

  module _ (call : C → EventLoop C D → EventLoop C D)
      (keeps : (c : C) (l : EventLoop C D) → Sync l → Sync (call c l)) where
    call_some-Sync : (o : Option C) (l : EventLoop C D) → Sync l → Sync (call_some X call o l)
    call_some-Sync none l s = s
    call_some-Sync (some c) l s = keeps c l s

    destroy-Sync : (ch : Channel C) (l : EventLoop C D) → Sync l → Sync (destroy X call ch l)
    unfolding destroy
    destroy-Sync ch l s = elim (Bool-cases (is_neg ch.fd)) [
      | inl t ↦ rw t (call_some-Sync ch.destroy_callback l s)
      | inr f ↦ rw f (
          call_some-Sync ch.destroy_callback
            (record l { dispatcher = X.close l.dispatcher ch.fd; closed = ch.fd ∷ l.closed })
            (record {
              valid = L.close-IsValid l.dispatcher ch.fd s.valid;
              agree = λ g n.
                  Agrees-trans exact _ _ _ (L.registered-close l.dispatcher ch.fd g s.valid n)
                    (s.agree g n);
              named = s.named;
              ready = s.ready;
            }))
    ]

    -- The answer of the back end to a call that would set the registration of `fd` to `on`.
    record Answer (d : D) (fd : ℤ) (on : Bool) (x : D × StatusCode) : Type 0 where
      valid : IsValid x.0
      sets : (g : ℤ) → is_neg g ≡ false → registered x.0 g ≡ changed x.1 fd on (registered d) g

    -- A call that failed, or one that changes no registration.
    same-Sync :
        (l : EventLoop C D) (d : D)
        → Sync l
        → IsValid d
        → ((g : ℤ) → is_neg g ≡ false → registered d g ≡ registered l.dispatcher g)
        → Sync (record l { dispatcher = d })
    same-Sync l d s v e = record {
      valid = v;
      agree = λ g n. Agrees-from exact _ _ _ (e g n) (s.agree g n);
      named = s.named;
      ready = s.ready;
    }

    insert-named :
        (l : EventLoop C D) (ch : Channel C) (g : ℤ) (c : Channel C)
        → Sync l
        → is_neg ch.fd ≡ false
        → lookup g (insert ch.fd ch l.channels) ≡ some c
        → (c.fd ≡ g) × (is_neg g ≡ false)
    insert-named l ch g c s n e =
        let e' = sym (lookup-insert ch.fd g ch l.channels) ∙ e in
        elim (Bool-cases (same_fd ch.fd g)) [
          | inl t ↦
              let p : ch.fd ≡ g = (same_fd_iff ch.fd g).0 t in
              let q : ch ≡ c = ground arith in
              (ap (λ (x : Channel C). x.fd) (sym q) ∙ p, ap is_neg (sym p) ∙ n)
          | inr f ↦ s.named g c (rw f at e')
        ]

    add_answer-Sync :
        (l : EventLoop C D) (ch : Channel C) (x : D × StatusCode)
        → Sync l
        → is_neg ch.fd ≡ false
        → Answer l.dispatcher ch.fd true x
        → Sync (add_answer X call l ch x).0
    unfolding add_answer
    add_answer-Sync l ch (d, code) s n a = elim (Bool-cases (is_ok code)) [
      | inl t ↦ rw t (record {
        valid = a.valid;
        agree = λ g m. Agrees-from exact _ _ _ (a.sets g m) (
            rw t (
              rw (lookup-insert ch.fd g ch l.channels) (elim (Bool-cases (same_fd ch.fd g)) [
                | inl h ↦ rw h (Agrees-eq exact true true refl)
                | inr h ↦ rw h (s.agree g m)
              ])));
        named = λ g c e. insert-named l ch g c s n e;
        ready = s.ready;
      })
      | inr f ↦ rw f (destroy-Sync ch _ (same-Sync l d s a.valid (λ g m. a.sets g m ∙ rw f)))
    ]

    add_found-Sync :
        (l : EventLoop C D) (ch : Channel C) (o : Option (Channel C))
        → Sync l
        → is_neg ch.fd ≡ false
        → lookup ch.fd l.channels ≡ o
        → Sync (add_found X call l ch o).0
    unfolding add_found
    add_found-Sync l ch none s n e =
        let off : registered l.dispatcher ch.fd ≡ false = Agrees-off exact _ (
          subst (λ c. Agrees exact (registered l.dispatcher ch.fd) (has_channel c)) e
            (s.agree ch.fd n)) in
        add_answer-Sync l ch (X.add l.dispatcher ch.fd ch.events) s n (record {
          valid = L.add-IsValid l.dispatcher ch.fd ch.events s.valid n off;
          sets = λ g m. L.registered-add l.dispatcher ch.fd ch.events g s.valid n m off;
        })
    add_found-Sync l ch (some old) s n e = destroy-Sync ch l s

    pub add-Sync :
        (l : EventLoop C D) (ch : Channel C)
        → Sync l
        → is_neg ch.fd ≡ false
        → Sync (add X call l ch).0
    unfolding add
    add-Sync l ch s n = add_found-Sync l ch (lookup ch.fd l.channels) s n refl

    erase-named :
        (l : EventLoop C D) (fd g : ℤ) (c : Channel C)
        → Sync l
        → lookup g (erase fd l.channels) ≡ some c
        → (c.fd ≡ g) × (is_neg g ≡ false)
    erase-named l fd g c s e =
        let e' = sym (lookup-erase fd g l.channels) ∙ e in
        elim (Bool-cases (same_fd fd g)) [
          | inl t ↦ absurd (ground arith)
          | inr f ↦ s.named g c (rw f at e')
        ]

    remove_answer-Sync :
        (l : EventLoop C D) (fd : ℤ) (ch : Channel C) (x : D × StatusCode)
        → Sync l
        → Answer l.dispatcher fd false x
        → Sync (remove_answer X call l fd ch x).0
    unfolding remove_answer
    remove_answer-Sync l fd ch (d, code) s a = elim (Bool-cases (is_ok code)) [
      | inl t ↦ rw t (
          destroy-Sync ch _ (record {
            valid = a.valid;
            agree = λ g m. Agrees-from exact _ _ _ (a.sets g m) (
                rw t (
                  rw (lookup-erase fd g l.channels) (elim (Bool-cases (same_fd fd g)) [
                    | inl h ↦ rw h (Agrees-eq exact false false refl)
                    | inr h ↦ rw h (s.agree g m)
                  ])));
            named = λ g c e. erase-named l fd g c s e;
            ready = s.ready;
          }))
      | inr f ↦ rw f (same-Sync l d s a.valid (λ g m. a.sets g m ∙ rw f))
    ]

    remove_found-Sync :
        (l : EventLoop C D) (fd : ℤ) (o : Option (Channel C))
        → Sync l
        → lookup fd l.channels ≡ o
        → Sync (remove_found X call l fd o).0
    unfolding remove_found
    remove_found-Sync l fd none s e = s
    remove_found-Sync l fd (some ch) s e =
        let (p, n) = s.named fd ch e in
        let m : is_neg ch.fd ≡ false = ap is_neg p ∙ n in
        remove_answer-Sync l fd ch (X.remove l.dispatcher ch.fd ch.events) s (record {
          valid = L.remove-IsValid l.dispatcher ch.fd ch.events s.valid m;
          sets = λ g k.
              subst
                (λ h.
                  registered (X.remove l.dispatcher ch.fd ch.events).0 g
                  ≡ changed (X.remove l.dispatcher ch.fd ch.events).1 h false
                      (registered l.dispatcher) g)
                p (L.registered-remove l.dispatcher ch.fd ch.events g s.valid m k);
        })

    pub remove-Sync : (l : EventLoop C D) (fd : ℤ) → Sync l → Sync (remove X call l fd).0
    unfolding remove
    remove-Sync l fd s = remove_found-Sync l fd (lookup fd l.channels) s refl

    modify_found-Sync :
        (l : EventLoop C D) (fd : ℤ) (o : Option (Channel C))
        → Sync l
        → lookup fd l.channels ≡ o
        → Sync (modify_found X call l o).0
    unfolding modify_found modify_answer
    modify_found-Sync l fd none s e = s
    modify_found-Sync l fd (some ch) s e =
        let (p, n) = s.named fd ch e in
        let m : is_neg ch.fd ≡ false = ap is_neg p ∙ n in
        same-Sync l _ s (L.modify-IsValid l.dispatcher ch.fd ch.events s.valid m)
          (λ g k. L.registered-modify l.dispatcher ch.fd ch.events g s.valid m k)

    pub modify-Sync : (l : EventLoop C D) (fd : ℤ) → Sync l → Sync (modify X call l fd).0
    unfolding modify
    modify-Sync l fd s = modify_found-Sync l fd (lookup fd l.channels) s refl

    drop_owned-Sync :
        (o : Option (Channel C)) (l : EventLoop C D) → Sync l → Sync (drop_owned X call o l)
    drop_owned-Sync none l s = s
    drop_owned-Sync (some ch) l s = destroy-Sync ch l s

    run_op-Sync :
        (op : ChannelOp) (o : Option (Channel C)) (fd : ℤ) (l : EventLoop C D)
        → CanAdd op o
        → Sync l
        → Sync (run_op X call op o fd l)
    unfolding run_op
    run_op-Sync add_op none fd l k s = s
    run_op-Sync add_op (some ch) fd l k s = add-Sync l ch s k
    run_op-Sync delete_op o fd l k s = drop_owned-Sync o _ (remove-Sync l _ s)
    run_op-Sync modify_op o fd l k s = drop_owned-Sync o _ (modify-Sync l _ s)

    run_tasks-Sync :
        (es : List (Element C)) (l : EventLoop C D)
        → All CanRun es
        → Sync l
        → Sync (run_tasks X call es l)
    unfolding run_tasks
    run_tasks-Sync [] l k s = s
    run_tasks-Sync (e ∷ es) l k s =
        run_tasks-Sync es _ k.1 (run_op-Sync e.op e.channel e.fd l k.0 s)

    run_callbacks-Sync :
        (cs : List C) (l : EventLoop C D) → Sync l → Sync (run_callbacks X call cs l)
    unfolding run_callbacks
    run_callbacks-Sync [] l s = s
    run_callbacks-Sync (c ∷ cs) l s = run_callbacks-Sync cs (call c l) (keeps c l s)

    pub process_task_q-Sync : (l : EventLoop C D) → Sync l → Sync (process_task_q X call l)
    unfolding process_task_q process_callbacks
    process_task_q-Sync l s =
        let start : Sync (record l { tasks = [] }) = record {
          valid = s.valid;
          agree = s.agree;
          named = s.named;
          ready = tt;
        } in
        let ran = run_tasks-Sync l.tasks _ s.ready start in
        run_callbacks-Sync _ _
          (record { valid = ran.valid; agree = ran.agree; named = ran.named; ready = ran.ready })

    active_write-Sync :
        (ev : ℕ) (o : Option (Channel C)) (l : EventLoop C D)
        → Sync l
        → Sync (active_write X call ev o l).0
    unfolding active_write
    active_write-Sync ev none l s = s
    active_write-Sync ev (some ch) l s = elim (Bool-cases (has write_event ev)) [
      | inl t ↦ rw t (call_some-Sync ch.write_callback l s)
      | inr f ↦ rw f s
    ]

    active_found-Sync :
        (fd : ℤ) (ev : ℕ) (o : Option (Channel C)) (l : EventLoop C D)
        → Sync l
        → Sync (active_found X call fd ev o l).0
    unfolding active_found
    active_found-Sync fd ev none l s = s
    active_found-Sync fd ev (some ch) l s = elim (Bool-cases (has error_event ev)) [
      | inl t ↦ rw t (remove-Sync l fd s)
      | inr f ↦ rw f (elim (Bool-cases (has read_event ev && have X call ch.read_callback)) [
        | inl t ↦ rw t (active_write-Sync ev _ _ (call_some-Sync ch.read_callback l s))
        | inr f ↦ rw f (active_write-Sync ev (some ch) l s)
      ])
    ]

    pub active-Sync :
        (fd : ℤ) (ev : ℕ) (l : EventLoop C D) → Sync l → Sync (active X call fd ev l).0
    unfolding active
    active-Sync fd ev l s = elim (Bool-cases (is_neg fd)) [
      | inl t ↦ rw t s
      | inr f ↦ rw f (active_found-Sync fd ev (lookup fd l.channels) l s)
    ]

    queued-Sync :
        (l : EventLoop C D) (e : Element C) (n : ℕ)
        → CanRun e
        → Sync l
        → Sync (record l { tasks = l.tasks ++ e ∷ []; wakeups = n })
    queued-Sync l e n k s = record {
      valid = s.valid;
      agree = s.agree;
      named = s.named;
      ready = All-append CanRun l.tasks (e ∷ []) s.ready (k, tt);
    }

    pub post_task-Sync :
        (here : Bool) (e : Element C) (l : EventLoop C D)
        → CanRun e
        → Sync l
        → Sync (post_task X call here e l)
    unfolding post_task
    post_task-Sync false e l k s = queued-Sync l e (l.wakeups + 1) k s
    post_task-Sync true e l k s = elim (Bool-cases (is_delete X call e.op)) [
      | inl t ↦ rw t (queued-Sync l e l.wakeups k s)
      | inr f ↦ rw f (process_task_q-Sync _ (queued-Sync l e l.wakeups k s))
    ]

    -- What happens to a loop, from its own thread or another.
    pub data Event : Type 0 where
      reports : ℤ → ℕ → Event
      posts : Bool → Element C → Event
      calls : Bool → C → Event
      processes : Event
      shuts : Event

    abbrev pub CanHappen : Event → Type 0
    CanHappen (posts here e) = CanRun e
    CanHappen _ = Unit

    pub happen : Event → EventLoop C D → EventLoop C D
    happen (reports fd ev) l = (active X call fd ev l).0
    happen (posts here e) l = post_task X call here e l
    happen (calls here c) l = post X call here c l
    happen processes l = process_task_q X call l
    happen shuts l = shutdown X call l

    pub happen_all : List Event → EventLoop C D → EventLoop C D
    happen_all [] l = l
    happen_all (e ∷ es) l = happen_all es (happen e l)

    happen-Sync : (e : Event) (l : EventLoop C D) → CanHappen e → Sync l → Sync (happen e l)
    unfolding happen post shutdown
    happen-Sync (reports fd ev) l k s = active-Sync fd ev l s
    happen-Sync (posts here e) l k s = post_task-Sync here e l k s
    happen-Sync (calls true c) l k s = record {
      valid = s.valid;
      agree = s.agree;
      named = s.named;
      ready = s.ready;
    }
    happen-Sync (calls false c) l k s = record {
      valid = s.valid;
      agree = s.agree;
      named = s.named;
      ready = s.ready;
    }
    happen-Sync processes l k s = process_task_q-Sync l s
    happen-Sync shuts l k s = record {
      valid = s.valid;
      agree = s.agree;
      named = s.named;
      ready = s.ready;
    }

    -- Over a back end that keeps the laws of the interface, with callbacks each of which keeps a
    -- loop in order, and with posted ADD tasks that bring a channel with a descriptor: a loop in
    -- order, where a descriptor is registered with the back end only if there is a channel for it,
    -- and exactly then if the back end is exact, stays in order through any sequence of reports, posts, rounds and shutdowns.
    pub happen_all-Sync :
        (es : List Event) (l : EventLoop C D) → All CanHappen es → Sync l → Sync (happen_all es l)
    unfolding happen_all
    happen_all-Sync [] l k s = s
    happen_all-Sync (e ∷ es) l k s = happen_all-Sync es (happen e l) k.1 (happen-Sync e l k.0 s)
