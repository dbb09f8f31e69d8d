-- ===== src/Dispatcher/Create.antt =====
-- `createDispatcher` of src/core/Dispatcher.cpp: the back end of a type that is chosen at run time. The
-- interest list of the epoll back end is of a type `K`.
use cpp_reactor.Base.{
  ℕ, ◌≡◌, refl, Bool, false, Option, none, some, ℤ, is_neg, true, replicate, ◌∙◌, ap, inl, zero,
  suc, pos, negsuc, arith, shift, subst, sym,
}
use cpp_reactor.Status.{StatusCode}
use cpp_reactor.Dispatcher.{Dispatcher, Laws, Agrees, Agrees-eq, changed}
use cpp_reactor.Dispatcher.Names.{DispatcherType, epoll, poll, select}
use cpp_reactor.Dispatcher.Epoll.{
  CtlOp, ctl_add, ctl_del, ctl_mod, epoll_ctl, epoll_dispatcher, Lists, epoll_laws,
  epoll_laws-IsValid, epoll_laws-exact, epoll_laws-registered,
}
use cpp_reactor.Dispatcher.Poll
use cpp_reactor.Dispatcher.Poll.{Poll, free_slot, max_node, Unique, find_slot, is_some}
use cpp_reactor.Dispatcher.Poll.Slots.{poll_laws, poll_laws-IsValid, poll_laws-registered}
use cpp_reactor.Dispatcher.Select
use cpp_reactor.Dispatcher.Select.{Select}

pub data Backend (K : Type 0) : Type 0 where
  epoll_backend : K → Backend K
  poll_backend : Poll → Backend K
  select_backend : Select → Backend K

-- The constructor of the epoll back end, given what `epoll_create` makes, or `none` for its exception.
abbrev pub new_epoll : {K : Type 0} → Option K → Option (Backend K)
new_epoll none = none
new_epoll (some k) = some (epoll_backend k)

unfoldable pub create_dispatcher : {K : Type 0} → Option K → DispatcherType → Option (Backend K)
create_dispatcher made epoll = new_epoll made
create_dispatcher made poll = some (poll_backend Poll.empty)
create_dispatcher made select = some (select_backend Select.empty)

free_slots-Unique : (n : ℕ) → Unique (replicate n free_slot)
free_slots-Unique zero = tt
free_slots-Unique (suc n) = (inl refl, free_slots-Unique n)

free_slots-none : (n : ℕ) (fd : ℤ) → is_neg fd ≡ false → find_slot fd (replicate n free_slot) ≡ none
unfolding find_slot
free_slots-none zero fd h = refl
free_slots-none (suc n) (pos m) h = ap shift (free_slots-none n (pos m) h)
free_slots-none (suc n) (negsuc m) h = absurd (ground (arith, h))

module _ {K : Type 0} where
  abbrev pub wrap : {D : Type 0} → (D → Backend K) → D × StatusCode → Backend K × StatusCode
  wrap f r = (f r.0, r.1)

module _ {K : Type 0} (ctl : CtlOp → ℤ → ℕ → K → Bool × K) where
  -- The virtual functions.
  abbrev pub add : Backend K → ℤ → ℕ → Backend K × StatusCode
  add (epoll_backend k) fd ev = wrap epoll_backend (epoll_ctl ctl ctl_add k fd ev)
  add (poll_backend d) fd ev = wrap poll_backend (Poll.add d fd ev)
  add (select_backend d) fd ev = wrap select_backend (Select.add d fd ev)

  abbrev pub remove : Backend K → ℤ → ℕ → Backend K × StatusCode
  remove (epoll_backend k) fd ev = wrap epoll_backend (epoll_ctl ctl ctl_del k fd ev)
  remove (poll_backend d) fd ev = wrap poll_backend (Poll.remove d fd ev)
  remove (select_backend d) fd ev = wrap select_backend (Select.remove d fd ev)

  abbrev pub modify : Backend K → ℤ → ℕ → Backend K × StatusCode
  modify (epoll_backend k) fd ev = wrap epoll_backend (epoll_ctl ctl ctl_mod k fd ev)
  modify (poll_backend d) fd ev = wrap poll_backend (Poll.modify d fd ev)
  modify (select_backend d) fd ev = wrap select_backend (Select.modify d fd ev)

  -- A table and the two sets are the program's own, and stay as they are.
  abbrev pub close : (ℤ → K → K) → Backend K → ℤ → Backend K
  close forget (epoll_backend k) fd = epoll_backend (forget fd k)
  close forget (poll_backend d) fd = poll_backend d
  close forget (select_backend d) fd = select_backend d

  abbrev pub backend : (ℤ → K → K) → Dispatcher (Backend K)
  backend forget = record { add = add; remove = remove; modify = modify; close = close forget }

  module _ (forget : ℤ → K → K) (interest : K → ℤ → Bool) (lists : Lists ctl forget interest)
      (exact : Bool) where
    abbrev by_epoll : Laws (epoll_dispatcher ctl forget)
    by_epoll = epoll_laws ctl forget interest lists

    -- The epoll back end is not exact. The select back end is left out: it does not keep the laws.
    abbrev pub IsInOrder : Backend K → Type 0
    IsInOrder (epoll_backend k) = (exact ≡ false) × by_epoll.IsValid k
    IsInOrder (poll_backend d) = poll_laws.IsValid d
    IsInOrder (select_backend d) = ⊥

    abbrev pub registered : Backend K → ℤ → Bool
    registered (epoll_backend k) fd = by_epoll.registered k fd
    registered (poll_backend d) fd = poll_laws.registered d fd
    registered (select_backend d) fd = false

    add-IsInOrder :
        (d : Backend K) (fd : ℤ) (ev : ℕ)
        → IsInOrder d
        → is_neg fd ≡ false
        → registered d fd ≡ false
        → IsInOrder (add d fd ev).0
    add-IsInOrder (epoll_backend k) fd ev i n r = (i.0, by_epoll.add-IsValid k fd ev i.1 n r)
    add-IsInOrder (poll_backend d) fd ev i n r = poll_laws.add-IsValid d fd ev i n r
    add-IsInOrder (select_backend d) fd ev i n r = elim i [ ]

    registered-add :
        (d : Backend K) (fd : ℤ) (ev : ℕ) (g : ℤ)
        → IsInOrder d
        → is_neg fd ≡ false
        → is_neg g ≡ false
        → registered d fd ≡ false
        → registered (add d fd ev).0 g ≡ changed (add d fd ev).1 fd true (registered d) g
    registered-add (epoll_backend k) fd ev g i n m r = by_epoll.registered-add k fd ev g i.1 n m r
    registered-add (poll_backend d) fd ev g i n m r = poll_laws.registered-add d fd ev g i n m r
    registered-add (select_backend d) fd ev g i n m r = elim i [ ]

    remove-IsInOrder :
        (d : Backend K) (fd : ℤ) (ev : ℕ)
        → IsInOrder d
        → is_neg fd ≡ false
        → IsInOrder (remove d fd ev).0
    remove-IsInOrder (epoll_backend k) fd ev i n = (i.0, by_epoll.remove-IsValid k fd ev i.1 n)
    remove-IsInOrder (poll_backend d) fd ev i n = poll_laws.remove-IsValid d fd ev i n
    remove-IsInOrder (select_backend d) fd ev i n = elim i [ ]

    registered-remove :
        (d : Backend K) (fd : ℤ) (ev : ℕ) (g : ℤ)
        → IsInOrder d
        → is_neg fd ≡ false
        → is_neg g ≡ false
        → registered (remove d fd ev).0 g ≡ changed (remove d fd ev).1 fd false (registered d) g
    registered-remove (epoll_backend k) fd ev g i n m = by_epoll.registered-remove k fd ev g i.1 n m
    registered-remove (poll_backend d) fd ev g i n m = poll_laws.registered-remove d fd ev g i n m
    registered-remove (select_backend d) fd ev g i n m = elim i [ ]

    modify-IsInOrder :
        (d : Backend K) (fd : ℤ) (ev : ℕ)
        → IsInOrder d
        → is_neg fd ≡ false
        → IsInOrder (modify d fd ev).0
    modify-IsInOrder (epoll_backend k) fd ev i n = (i.0, by_epoll.modify-IsValid k fd ev i.1 n)
    modify-IsInOrder (poll_backend d) fd ev i n = poll_laws.modify-IsValid d fd ev i n
    modify-IsInOrder (select_backend d) fd ev i n = elim i [ ]

    registered-modify :
        (d : Backend K) (fd : ℤ) (ev : ℕ) (g : ℤ)
        → IsInOrder d
        → is_neg fd ≡ false
        → is_neg g ≡ false
        → registered (modify d fd ev).0 g ≡ registered d g
    registered-modify (epoll_backend k) fd ev g i n m = by_epoll.registered-modify k fd ev g i.1 n m
    registered-modify (poll_backend d) fd ev g i n m = poll_laws.registered-modify d fd ev g i n m
    registered-modify (select_backend d) fd ev g i n m = elim i [ ]

    close-IsInOrder : (d : Backend K) (fd : ℤ) → IsInOrder d → IsInOrder (close forget d fd)
    close-IsInOrder (epoll_backend k) fd i = (i.0, by_epoll.close-IsValid k fd i.1)
    close-IsInOrder (poll_backend d) fd i = i
    close-IsInOrder (select_backend d) fd i = i

    registered-close :
        (d : Backend K) (fd g : ℤ)
        → IsInOrder d
        → is_neg g ≡ false
        → Agrees exact (registered (close forget d fd) g) (registered d g)
    registered-close (epoll_backend k) fd g i n =
        subst (λ b. Agrees b (by_epoll.registered (forget fd k) g) (by_epoll.registered k g))
          (epoll_laws-exact ctl forget interest lists ∙ sym i.0)
          (by_epoll.registered-close k fd g i.1 n)
    registered-close (poll_backend d) fd g i n = Agrees-eq exact _ _ refl
    registered-close (select_backend d) fd g i n = elim i [ ]

    -- A back end of either type that is in order keeps the laws of the interface.
    pub backend_laws : Laws (backend forget)
    backend_laws = record {
      IsValid = IsInOrder;
      exact = exact;
      registered = registered;
      add-IsValid = add-IsInOrder;
      registered-add = registered-add;
      remove-IsValid = remove-IsInOrder;
      registered-remove = registered-remove;
      modify-IsValid = modify-IsInOrder;
      registered-modify = registered-modify;
      close-IsValid = close-IsInOrder;
      registered-close = registered-close;
    }

    backend_laws-exact : backend_laws.exact ≡ exact
    unfolding backend_laws
    backend_laws-exact = refl

    -- A created back end is in order and registers nothing, unless it is of the select type.
    abbrev pub IsFresh : Option (Backend K) → Type 0
    IsFresh none = Unit
    IsFresh (some d) =
        backend_laws.IsValid d
        × ((fd : ℤ) → is_neg fd ≡ false → backend_laws.registered d fd ≡ false)

    epoll-IsFresh :
        (made : Option K)
        → ((k : K) → made ≡ some k → (fd : ℤ) → interest k fd ≡ false)
        → exact ≡ false
        → IsFresh (new_epoll made)
    unfolding backend_laws
    epoll-IsFresh none h x = tt
    epoll-IsFresh (some k) h x = (
      (x, epoll_laws-IsValid ctl forget interest lists k),
      λ fd n. epoll_laws-registered ctl forget interest lists k fd ∙ h k refl fd,
    )

    poll-IsFresh : IsFresh (some (poll_backend Poll.empty))
    unfolding backend_laws
    poll-IsFresh = (
      poll_laws-IsValid Poll.empty (free_slots-Unique max_node),
      λ fd m. poll_laws-registered Poll.empty fd ∙ ap is_some (free_slots-none max_node fd m),
    )

-- A table agrees with the channels exactly, whatever is closed.
abbrev pub is_exact : DispatcherType → Bool
is_exact poll = true
is_exact _ = false

module _ {K : Type 0} (ctl : CtlOp → ℤ → ℕ → K → Bool × K) (forget : ℤ → K → K)
    (interest : K → ℤ → Bool) (lists : Lists ctl forget interest) where
  pub create_dispatcher-IsFresh :
      (made : Option K) (t : DispatcherType)
      → ((k : K) → made ≡ some k → (fd : ℤ) → interest k fd ≡ false)
      → (t ≡ select → ⊥)
      → IsFresh ctl forget interest lists (is_exact t) (create_dispatcher made t)
  unfolding create_dispatcher
  create_dispatcher-IsFresh made epoll h n =
      epoll-IsFresh ctl forget interest lists false made h refl
  create_dispatcher-IsFresh made poll h n = poll-IsFresh ctl forget interest lists true
  create_dispatcher-IsFresh made select h n = absurd (n refl)
