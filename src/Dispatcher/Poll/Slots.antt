-- ===== src/Dispatcher/Poll/Slots.antt =====
-- The slot table of the poll back end, src/core/PollDispatcher.cpp, and the descriptors in it.
use cpp_reactor.Base.{
  ℕ, zero, suc, ◌≡◌, ◌⊎◌, refl, ap, ◌∙◌, true, false, Option, none, some, List, [], ◌∷◌, ℤ, no_fd,
  is_neg, same_fd, same_fd_iff, if◌then◌else◌, arith, inl, inr, Bool-cases, subst,
}
use cpp_reactor.Status.{ok}
use cpp_reactor.Dispatcher.{Laws, changed}
use cpp_reactor.Dispatcher.Poll.{
  Slot, Poll, free_slot, poll_events, find_slot, set_slot, add_at, add, remove_at, remove,
  modify_at, modify, poll_dispatcher, is_some, registered, Unique, polled,
}

find_slot-set_free :
    (i : ℕ) (fd : ℤ) (f : Slot → Slot) (g h : ℤ) (ss : List Slot)
    → ((s : Slot) → (f s).fd ≡ fd)
    → find_slot h ss ≡ some i
    → same_fd h g ≡ false
    → is_some (find_slot g (set_slot i f ss))
      ≡ (if same_fd fd g then true else is_some (find_slot g ss))
unfolding find_slot set_slot
find_slot-set_free i fd f g h [] k e n = absurd (ground arith)
find_slot-set_free zero fd f g h (s ∷ ss) k e n =
    ground (arith, k s, same_fd_iff s.fd h, same_fd_iff s.fd g, same_fd_iff h g, same_fd_iff fd g)
find_slot-set_free (suc i) fd f g h (s ∷ ss) k e n =
    ground (arith, find_slot-set_free i fd f g h ss k (ground arith) n)

-- A descriptor that is freed is in no slot.
find_slot-freed :
    (i : ℕ) (h : ℤ) (ss : List Slot)
    → is_neg h ≡ false
    → find_slot h ss ≡ some i
    → Unique ss
    → find_slot h (set_slot i (λ s. free_slot) ss) ≡ none
unfolding find_slot set_slot
find_slot-freed i h [] v e u = absurd (ground arith)
find_slot-freed zero h (s ∷ ss) v e u = ground (arith, same_fd_iff s.fd h, same_fd_iff no_fd h)
find_slot-freed (suc i) h (s ∷ ss) v e u =
    ground (arith, find_slot-freed i h ss v (ground arith) u.1)

set_slot-absent :
    (i : ℕ) (fd : ℤ) (f : Slot → Slot) (g : ℤ) (ss : List Slot)
    → ((s : Slot) → (f s).fd ≡ fd)
    → same_fd fd g ≡ false
    → find_slot g ss ≡ none
    → find_slot g (set_slot i f ss) ≡ none
unfolding find_slot set_slot
set_slot-absent i fd f g [] k n e = refl
set_slot-absent zero fd f g (s ∷ ss) k n e = ground (arith, k s)
set_slot-absent (suc i) fd f g (s ∷ ss) k n e =
    ground (arith, set_slot-absent i fd f g ss k n (ground arith))

-- A slot may take a descriptor that is in no other.
set_slot-Unique :
    (i : ℕ) (fd : ℤ) (f : Slot → Slot) (ss : List Slot)
    → ((s : Slot) → (f s).fd ≡ fd)
    → (is_neg fd ≡ true) ⊎ (find_slot fd ss ≡ none)
    → Unique ss
    → Unique (set_slot i f ss)
unfolding find_slot set_slot
set_slot-Unique i fd f [] k n u = tt
set_slot-Unique zero fd f (s ∷ ss) k n u = (ground (arith, k s), u.1)
set_slot-Unique (suc i) fd f (s ∷ ss) k n u = (
  ground (arith, set_slot-absent i fd f s.fd ss k, same_fd_iff fd s.fd, same_fd_iff s.fd fd),
  set_slot-Unique i fd f ss k (ground arith) u.1,
)

-- A change of a slot that leaves its descriptor alone.
find_slot-set_same :
    (i : ℕ) (f : Slot → Slot) (g : ℤ) (ss : List Slot)
    → ((s : Slot) → (f s).fd ≡ s.fd)
    → find_slot g (set_slot i f ss) ≡ find_slot g ss
unfolding find_slot set_slot
find_slot-set_same i f g [] k = refl
find_slot-set_same zero f g (s ∷ ss) k = rw (k s)
find_slot-set_same (suc i) f g (s ∷ ss) k = rw (find_slot-set_same i f g ss k)

set_slot-Unique_same :
    (i : ℕ) (f : Slot → Slot) (ss : List Slot)
    → ((s : Slot) → (f s).fd ≡ s.fd)
    → Unique ss
    → Unique (set_slot i f ss)
unfolding set_slot
set_slot-Unique_same i f [] k u = tt
set_slot-Unique_same zero f (s ∷ ss) k u = rw (k s) u
set_slot-Unique_same (suc i) f (s ∷ ss) k u =
    (rw (find_slot-set_same i f s.fd ss k) u.0, set_slot-Unique_same i f ss k u.1)

add-Unique :
    (d : Poll) (fd : ℤ) (ev : ℕ) (o : Option ℕ)
    → Unique d.slots
    → registered d fd ≡ false
    → Unique (add_at d fd ev o).0.slots
unfolding add_at
add-Unique d fd ev none u n = u
add-Unique d fd ev (some i) u n = set_slot-Unique i fd _ d.slots (λ s. refl) (ground arith) u

registered-add_at :
    (d : Poll) (fd : ℤ) (ev : ℕ) (g : ℤ) (o : Option ℕ)
    → is_neg g ≡ false
    → find_slot no_fd d.slots ≡ o
    → registered (add_at d fd ev o).0 g ≡ changed (add_at d fd ev o).1 fd true (registered d) g
unfolding add_at
registered-add_at d fd ev g none v e = refl
registered-add_at d fd ev g (some i) v e =
    find_slot-set_free i fd _ g no_fd d.slots (λ s. refl) e (ground (arith, same_fd_iff no_fd g))

remove-Unique : (d : Poll) (o : Option ℕ) → Unique d.slots → Unique (remove_at d o).0.slots
unfolding remove_at
remove-Unique d none u = u
remove-Unique d (some i) u = set_slot-Unique i no_fd _ d.slots (λ s. refl) (inl refl) u

registered-remove_at :
    (d : Poll) (fd g : ℤ) (o : Option ℕ)
    → Unique d.slots
    → is_neg fd ≡ false
    → is_neg g ≡ false
    → find_slot fd d.slots ≡ o
    → registered (remove_at d o).0 g ≡ changed (remove_at d o).1 fd false (registered d) g
unfolding remove_at
registered-remove_at d fd g none u v w e = refl
registered-remove_at d fd g (some i) u v w e = elim (Bool-cases (same_fd fd g)) [
  | inl t ↦
      let same : fd ≡ g = (same_fd_iff fd g).0 t in
      rw t (
        ap is_some (
          subst (λ h. find_slot h (set_slot i (λ s. free_slot) d.slots) ≡ none) same
            (find_slot-freed i fd d.slots v e u)))
  | inr f ↦ rw f (
      find_slot-set_free i no_fd _ g fd d.slots (λ s. refl) e f
      ∙ ground (arith, same_fd_iff no_fd g))
]

modify-Unique :
    (d : Poll) (ev : ℕ) (o : Option ℕ) → Unique d.slots → Unique (modify_at d ev o).0.slots
unfolding modify_at
modify-Unique d ev none u = u
modify-Unique d ev (some i) u = set_slot-Unique_same i _ d.slots (λ s. refl) u

registered-modify_at :
    (d : Poll) (ev : ℕ) (g : ℤ) (o : Option ℕ) → registered (modify_at d ev o).0 g ≡ registered d g
unfolding modify_at
registered-modify_at d ev g none = refl
registered-modify_at d ev g (some i) = ap is_some (find_slot-set_same i _ g d.slots (λ s. refl))

-- The poll back end keeps the laws of the interface.
pub poll_laws : Laws poll_dispatcher
unfolding add remove modify
poll_laws = record {
  IsValid = λ d. Unique d.slots;
  exact = true;
  registered = registered;
  add-IsValid = λ d fd ev u v n. add-Unique d fd ev (find_slot no_fd d.slots) u n;
  registered-add = λ d fd ev g u v w n. registered-add_at d fd ev g _ w refl;
  remove-IsValid = λ d fd ev u v. remove-Unique d (find_slot fd d.slots) u;
  registered-remove = λ d fd ev g u v w. registered-remove_at d fd g _ u v w refl;
  modify-IsValid = λ d fd ev u v. modify-Unique d ev (find_slot fd d.slots) u;
  registered-modify = λ d fd ev g u v w. registered-modify_at d ev g (find_slot fd d.slots);
  close-IsValid = λ d fd u. u;
  registered-close = λ d fd g u w. refl;
}

-- On a table without doubles, adding a descriptor that is not registered keeps the table without
-- doubles, and registers that descriptor, and no other, exactly if the answer is `ok`.
pub add-registered :
    (d : Poll) (fd : ℤ) (ev : ℕ) (g : ℤ)
    → Unique d.slots
    → is_neg fd ≡ false
    → is_neg g ≡ false
    → registered d fd ≡ false
    → Unique (add d fd ev).0.slots
      × (registered (add d fd ev).0 g ≡ changed (add d fd ev).1 fd true (registered d) g)
unfolding add
add-registered d fd ev g u n m h =
    (add-Unique d fd ev (find_slot no_fd d.slots) u h, registered-add_at d fd ev g _ m refl)

-- On a table without doubles, removing a descriptor keeps the table without doubles, and ends its
-- registration, and no other, exactly if the answer is `ok`.
pub remove-registered :
    (d : Poll) (fd : ℤ) (ev : ℕ) (g : ℤ)
    → Unique d.slots
    → is_neg fd ≡ false
    → is_neg g ≡ false
    → Unique (remove d fd ev).0.slots
      × (registered (remove d fd ev).0 g ≡ changed (remove d fd ev).1 fd false (registered d) g)
unfolding remove
remove-registered d fd ev g u n m =
    (remove-Unique d (find_slot fd d.slots) u, registered-remove_at d fd g _ u n m refl)

polled-set :
    (i : ℕ) (fd : ℤ) (ev : ℕ) (ss : List Slot)
    → find_slot fd ss ≡ some i
    → polled fd (set_slot i (λ s. record s { events = poll_events ev }) ss) ≡ some (poll_events ev)
unfolding find_slot set_slot polled
polled-set i fd ev [] e = absurd (ground arith)
polled-set zero fd ev (s ∷ ss) e = ground arith
polled-set (suc i) fd ev (s ∷ ss) e = ground (arith, polled-set i fd ev ss (ground arith))

modify_at-polled :
    (d : Poll) (fd : ℤ) (ev : ℕ) (o : Option ℕ)
    → find_slot fd d.slots ≡ o
    → (modify_at d ev o).1 ≡ ok
    → polled fd (modify_at d ev o).0.slots ≡ some (poll_events ev)
unfolding modify_at
modify_at-polled d fd ev none e h = cc
modify_at-polled d fd ev (some i) e h = polled-set i fd ev d.slots e

-- After a successful `modify` the table polls for the channel's events, and no others.
pub modify-polled :
    (d : Poll) (fd : ℤ) (ev : ℕ)
    → (modify d fd ev).1 ≡ ok
    → polled fd (modify d fd ev).0.slots ≡ some (poll_events ev)
unfolding modify
modify-polled d fd ev h = modify_at-polled d fd ev _ refl h

-- What the laws are stated with.
pub poll_laws-IsValid : (d : Poll) → Unique d.slots → poll_laws.IsValid d
unfolding poll_laws
poll_laws-IsValid d u = u

pub poll_laws-registered : (d : Poll) (fd : ℤ) → poll_laws.registered d fd ≡ registered d fd
unfolding poll_laws
poll_laws-registered d fd = refl
