-- ===== src/App/Echo/Pending.antt =====
-- src/app/main_echo.cpp: what happens keeps contexts and channels together.
use cpp_reactor.Base.{
  is_neg, ℕ, ◌+◌, ◌≡◌, refl, sym, ap, ◌∙◌, subst, Bool, true, false, not, Option, none, some, List,
  [], ◌∷◌, ℤ, pos, negsuc, ltb, ◌==◌, ==_iff, if◌then◌else◌, arith,
}
use cpp_reactor.Channel.{Channel, is_write_event_enable}
use cpp_reactor.App.Echo.{
  EchoCall, destroy_cb, EchoContext, Echo, Answer, bytes, would_block, failed, start, read_found,
  on_read, wrote, write_found, on_write, destroyed_found, on_destroy, new_channel, register_valid,
  register_conn, close_object, run_destroy, end_object, Event, accepts, on_loop, happen_on_loop,
  readable, writable, closes, ends, happen, happen_all, max_fds,
}
use cpp_reactor.App.Echo.Linked.{
  Matches, Linked, start-Linked, tell-Linked, forget-Linked, close_conn-Linked, if-Linked,
  placed-Linked, set_pending-Linked, if-old-Matches, if-freed,
}

module _ {L : Type 0} where
  read_found-Linked :
      (fd : ℕ) (n : Answer) (o : Option (EchoContext L)) (s : Echo L)
      → s.ctx fd ≡ o
      → Linked s
      → Linked (read_found fd n o s)
  unfolding read_found
  read_found-Linked fd n none s x k = k
  read_found-Linked fd (bytes n) (some c) s x k =
      if-Linked (n == 0) _ _ (close_conn-Linked fd s k)
        (if-Linked (not c.write_pending) _ _ (set_pending-Linked fd true c s x k) k)
  read_found-Linked fd would_block (some c) s x k = k
  read_found-Linked fd failed (some c) s x k = close_conn-Linked fd s k

  wrote-Linked :
      (fd n : ℕ) (c : EchoContext L) (s : Echo L)
      → s.ctx fd ≡ some c
      → Linked s
      → Linked (wrote fd n c s)
  wrote-Linked fd n c s x k = if-Linked (n == 0) _ _ k (
      set_pending-Linked fd false c (record s { written = fd ∷ s.written }) x
        (record { match = k.match; unused = k.unused }))

  write_found-Linked :
      (fd : ℕ) (n : Answer) (o : Option (EchoContext L)) (s : Echo L)
      → s.ctx fd ≡ o
      → Linked s
      → Linked (write_found fd n o s)
  unfolding write_found
  write_found-Linked fd n none s x k = k
  write_found-Linked fd (bytes n) (some c) s x k =
      if-Linked (not c.write_pending) _ _ k (wrote-Linked fd n c s x k)
  write_found-Linked fd would_block (some c) s x k = k
  write_found-Linked fd failed (some c) s x k =
      if-Linked (not c.write_pending) _ _ k (close_conn-Linked fd s k)

  register_valid-Linked : (fd : ℕ) (l : L) (s : Echo L) → Linked s → Linked (register_valid fd l s)
  unfolding register_valid is_write_event_enable
  register_valid-Linked fd l s k = tell-Linked _ _ _ (
      placed-Linked fd s.next (s.next + 1)
        (record { write_pending = false; channel = some s.next; loop = l }) (new_channel fd) s
        ((refl, refl), refl) refl
        (λ g d n x y.
          subst (Matches g d.write_pending) (k.unused s.next (omega arith))
            (k.match g s.next d x y))
        (omega arith) (omega arith) k)

  if-register-Linked :
      (b : Bool) (s t : Echo L)
      → Linked s
      → Linked t
      → Linked (if◌then◌else◌ {A = Bool × Echo L} b (false, s) (true, t)).1
  if-register-Linked true s t hs ht = hs
  if-register-Linked false s t hs ht = ht

  register_conn-Linked : (fd : ℤ) (l : L) (s : Echo L) → Linked s → Linked (register_conn fd l s).1
  unfolding register_conn
  register_conn-Linked (pos fd) l s k =
      if-register-Linked (not (ltb fd max_fds)) _ _ (record { match = k.match; unused = k.unused })
        (register_valid-Linked fd l s k)
  register_conn-Linked (negsuc n) l s k = record { match = k.match; unused = k.unused }

  destroyed_found-Linked :
      (fd : ℕ) (o : Option (EchoContext L)) (s : Echo L)
      → Linked s
      → Linked (destroyed_found fd o s)
  destroyed_found-Linked fd none s k = k
  destroyed_found-Linked fd (some c) s k =
      forget-Linked fd (some (record c { channel = none })) s (λ d e. ground (arith, e)) k

  run_destroy-Linked : (o : Option EchoCall) (s : Echo L) → Linked s → Linked (run_destroy o s)
  unfolding on_destroy
  run_destroy-Linked (some (destroy_cb fd)) s k = destroyed_found-Linked fd (s.ctx fd) s k
  run_destroy-Linked _ s k = k

  -- After the destroy callback of a descriptor its context points nowhere, and no object has changed.
  destroyed_found-forgets :
      (fd : ℕ) (o : Option (EchoContext L)) (s : Echo L) (d : EchoContext L)
      → s.ctx fd ≡ o
      → (destroyed_found fd o s).ctx fd ≡ some d
      → d.channel ≡ none
  destroyed_found-forgets fd none s d e x = absurd (ground (arith, e, x))
  destroyed_found-forgets fd (some c) s d e x = ground arith

  destroyed_found-channels :
      (fd : ℕ) (o : Option (EchoContext L)) (s : Echo L)
      → (destroyed_found fd o s).channels ≡ s.channels
  destroyed_found-channels fd none s = refl
  destroyed_found-channels fd (some c) s = refl

  run_destroy-channels :
      (o : Option EchoCall) (s : Echo L) → (run_destroy o s).channels ≡ s.channels
  unfolding on_destroy
  run_destroy-channels (some (destroy_cb fd)) s = destroyed_found-channels fd (s.ctx fd) s
  run_destroy-channels _ s = refl

  -- No context points to an object once the destroy callback has run.
  no_owner :
      (g p : ℕ) (ch : Channel EchoCall) (d : EchoContext L) (s : Echo L)
      → s.channels p ≡ some ch
      → Linked s
      → (run_destroy ch.destroy_callback s).ctx g ≡ some d
      → d.channel ≡ some p
      → ⊥
  unfolding on_destroy
  no_owner g p ch d s e k x y =
      let s' = run_destroy ch.destroy_callback s in
      let k' = run_destroy-Linked ch.destroy_callback s k in
      let there : s'.channels p ≡ some ch =
        ap (λ f. f p) (run_destroy-channels ch.destroy_callback s) ∙ e in
      let owned = subst (λ o. Matches g d.write_pending o) there (k'.match g p d x y) in
      let gone =
        destroyed_found-forgets g (s.ctx g) s d refl
          (subst (λ o. (run_destroy o s).ctx g ≡ some d) owned.0.1 x) in
      absurd (ground (arith, gone, y))

  end_object-Linked :
      (p : ℕ) (o : Option (Channel EchoCall)) (s : Echo L)
      → s.channels p ≡ o
      → Linked s
      → Linked (end_object p o s)
  end_object-Linked p none s e k = k
  end_object-Linked p (some ch) s e k =
      let k' = run_destroy-Linked ch.destroy_callback s k in
      record {
        match = λ g q d x y.
            if-old-Matches (p == q) g d.write_pending none _
              (λ u. no_owner g p ch d s e k x (y ∙ ap some (sym ((==_iff p q).0 u))))
              (k'.match g q d x y);
        unused = λ q h. if-freed (p == q) _ (k'.unused q h);
      }

  close_object-Linked :
      (o : Option (Channel EchoCall)) (s : Echo L) → Linked s → Linked (close_object o s)
  close_object-Linked none s k = k
  close_object-Linked (some ch) s k =
      if-Linked (is_neg ch.fd) s (record s { closed = ch.fd ∷ s.closed }) k
        (record { match = k.match; unused = k.unused })

  happen-Linked : (e : Event L) (s : Echo L) → Linked s → Linked (happen e s)
  unfolding happen happen_on_loop on_read on_write
  happen-Linked (accepts fd l) s k = register_conn-Linked fd l s k
  happen-Linked (on_loop (readable fd n)) s k = read_found-Linked fd n (s.ctx fd) s refl k
  happen-Linked (on_loop (writable fd n)) s k = write_found-Linked fd n (s.ctx fd) s refl k
  happen-Linked (on_loop (closes p)) s k = close_object-Linked (s.channels p) s k
  happen-Linked (on_loop (ends p)) s k = end_object-Linked p (s.channels p) s refl k

  happen_all_from-Linked : (es : List (Event L)) (s : Echo L) → Linked s → Linked (happen_all es s)
  unfolding happen_all
  happen_all_from-Linked [] s k = k
  happen_all_from-Linked (e ∷ es) s k = happen_all_from-Linked es (happen e s) (happen-Linked e s k)

  -- Whatever callbacks, registrations and destructions of channels happen from the start, and in
  -- whichever order, a pointer of a context in the table leads to a channel that has not been
  -- destroyed, that is of the same descriptor, and that waits for the write event exactly if the
  -- context has a response pending.
  pub happen_all-Linked : (es : List (Event L)) → Linked (happen_all es start)
  happen_all-Linked es = happen_all_from-Linked es start start-Linked
