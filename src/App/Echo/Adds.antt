-- ===== src/App/Echo/Adds.antt =====
-- src/app/main_echo.cpp: the loops that were told to take over a channel.
use cpp_reactor.Base.{
  is_neg, ℕ, ◌≡◌, refl, sym, ap, ◌∙◌, Bool, true, false, not, Option, none, some, List, [], ◌∷◌,
  ◌++◌, append-nil, pos, ltb, ◌==◌, if◌then◌else◌,
}
use cpp_reactor.Channel.{Channel, write_event_enable}
use cpp_reactor.App.Echo.{
  EchoCall, destroy_cb, EchoContext, Task, adds, modifies, destroys, Echo, Answer, bytes,
  would_block, failed, update, set_ctx, tell, tell_destroy, close_found, close_conn, enable_found,
  enable, read_found, on_read, write_found, on_write, destroyed_found, on_destroy, register_valid,
  register_conn, close_object, run_destroy, end_object, LoopEvent, happen_on_loop, readable,
  writable, closes, ends, max_fds,
}

module _ {L : Type 0} where
  -- The loops that were told to take over a channel.
  abbrev pub added : List (L × Task) → List L
  added [] = []
  added ((l, adds p) ∷ ts) = l ∷ added ts
  added ((l, modifies fd) ∷ ts) = added ts
  added ((l, destroys fd) ∷ ts) = added ts

  added-append : (ts us : List (L × Task)) → added (ts ++ us) ≡ added ts ++ added us
  added-append [] us = refl
  added-append ((l, adds p) ∷ ts) us = ap (λ xs. l ∷ xs) (added-append ts us)
  added-append ((l, modifies fd) ∷ ts) us = added-append ts us
  added-append ((l, destroys fd) ∷ ts) us = added-append ts us

  abbrev pub Adds : List L → Echo L → Type 0
  Adds ls s = added s.posted ≡ ls

  -- What the events of the loops do adds nothing.
  if-Adds :
      (b : Bool) (ls : List L) (s t : Echo L) → Adds ls s → Adds ls t → Adds ls (if b then s else t)
  if-Adds true ls s t hs ht = hs
  if-Adds false ls s t hs ht = ht

  told-Adds :
      (l : L) (t : Task) (ls : List L) (s : Echo L)
      → added ((l, t) ∷ []) ≡ []
      → Adds ls s
      → Adds ls (tell l t s)
  told-Adds l t ls s e h =
      added-append s.posted ((l, t) ∷ [])
      ∙ ap (λ xs. added s.posted ++ xs) e
      ∙ append-nil (added s.posted)
      ∙ h

  close_found-Adds :
      (fd : ℕ) (o : Option (EchoContext L)) (ls : List L) (s : Echo L)
      → Adds ls s
      → Adds ls (close_found fd o s)
  close_found-Adds fd none ls s h = h
  close_found-Adds fd (some c) ls s h = go c.channel
    where
      go : (o : Option ℕ) → Adds ls (tell_destroy fd c.loop o (set_ctx fd none s))
      go none = h
      go (some p) = told-Adds c.loop (destroys fd) ls (set_ctx fd none s) refl h

  close_conn-Adds : (fd : ℕ) (ls : List L) (s : Echo L) → Adds ls s → Adds ls (close_conn fd s)
  unfolding close_conn
  close_conn-Adds fd ls s h =
      if-Adds (not (ltb fd max_fds)) ls _ _ h (close_found-Adds fd (s.ctx fd) ls s h)

  enable-Adds :
      (flag : Bool) (l : L) (o : Option ℕ) (ls : List L) (s : Echo L)
      → Adds ls s
      → Adds ls (enable flag l o s)
  enable-Adds flag l none ls s h = h
  enable-Adds flag l (some p) ls s h = go (s.channels p)
    where
      go : (o : Option (Channel EchoCall)) → Adds ls (enable_found p flag l o s)
      go none = h
      go (some ch) =
          told-Adds l (modifies ch.fd) ls
            (record s { channels = update s.channels p (some (write_event_enable ch flag)) }) refl h

  read_found-Adds :
      (fd : ℕ) (n : Answer) (o : Option (EchoContext L)) (ls : List L) (s : Echo L)
      → Adds ls s
      → Adds ls (read_found fd n o s)
  unfolding read_found
  read_found-Adds fd n none ls s h = h
  read_found-Adds fd (bytes n) (some c) ls s h =
      if-Adds (n == 0) ls _ _ (close_conn-Adds fd ls s h)
        (if-Adds (not c.write_pending) ls _ _ (enable-Adds true c.loop c.channel ls _ h) h)
  read_found-Adds fd would_block (some c) ls s h = h
  read_found-Adds fd failed (some c) ls s h = close_conn-Adds fd ls s h

  write_found-Adds :
      (fd : ℕ) (n : Answer) (o : Option (EchoContext L)) (ls : List L) (s : Echo L)
      → Adds ls s
      → Adds ls (write_found fd n o s)
  unfolding write_found
  write_found-Adds fd n none ls s h = h
  write_found-Adds fd (bytes n) (some c) ls s h =
      if-Adds (not c.write_pending) ls _ _ h
        (if-Adds (n == 0) ls _ _ h (enable-Adds false c.loop c.channel ls _ h))
  write_found-Adds fd would_block (some c) ls s h = h
  write_found-Adds fd failed (some c) ls s h =
      if-Adds (not c.write_pending) ls _ _ h (close_conn-Adds fd ls s h)

  run_destroy-posted : (o : Option EchoCall) (s : Echo L) → (run_destroy o s).posted ≡ s.posted
  unfolding on_destroy
  run_destroy-posted (some (destroy_cb fd)) s = go (s.ctx fd)
    where
      go : (o : Option (EchoContext L)) → (destroyed_found fd o s).posted ≡ s.posted
      go none = refl
      go (some c) = refl
  run_destroy-posted _ s = refl

  pub happen_on_loop-Adds :
      (e : LoopEvent) (s : Echo L) → Adds (added s.posted) (happen_on_loop e s)
  unfolding happen_on_loop on_read on_write
  happen_on_loop-Adds (readable fd n) s = read_found-Adds fd n (s.ctx fd) _ s refl
  happen_on_loop-Adds (writable fd n) s = write_found-Adds fd n (s.ctx fd) _ s refl
  happen_on_loop-Adds (closes p) s = go (s.channels p)
    where
      go : (o : Option (Channel EchoCall)) → Adds (added s.posted) (close_object o s)
      go none = refl
      go (some ch) = if-Adds (is_neg ch.fd) _ s (record s { closed = ch.fd ∷ s.closed }) refl refl
  happen_on_loop-Adds (ends p) s = go (s.channels p)
    where
      go : (o : Option (Channel EchoCall)) → Adds (added s.posted) (end_object p o s)
      go none = refl
      go (some ch) = ap added (run_destroy-posted ch.destroy_callback s)

  if-registered-Adds :
      (b : Bool) (ls ms : List L) (s t : Echo L)
      → Adds ls s
      → Adds (ls ++ ms) t
      → Adds
          (ls ++ (if b then ms else []))
          (if◌then◌else◌ {A = Bool × Echo L} (not b) (false, s) (true, t)).1
  if-registered-Adds true ls ms s t hs ht = ht
  if-registered-Adds false ls ms s t hs ht = hs ∙ sym (append-nil ls)

  pub register_conn-Adds :
      (fd : ℕ) (l : L) (s : Echo L)
      → Adds
          (added s.posted ++ (if ltb fd max_fds then l ∷ [] else []))
          (register_conn (pos fd) l s).1
  unfolding register_conn register_valid
  register_conn-Adds fd l s =
      if-registered-Adds (ltb fd max_fds) (added s.posted) (l ∷ []) _ _ refl
        (added-append s.posted ((l, adds s.next) ∷ []))
