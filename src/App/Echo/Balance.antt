-- ===== src/App/Echo/Balance.antt =====
-- src/app/main_echo.cpp: the responses against the reads that they answer.
use cpp_reactor.Base.{
  is_neg, ℕ, ◌+◌, ◌≤◌, ◌≡◌, refl, ap, ◌∙◌, Bool, true, false, not, Option, none, some, List, [],
  ◌∷◌, ℤ, pos, negsuc, ltb, ◌==◌, ==_iff, if◌then◌else◌, arith, Bool-cases, inl, inr,
}
use cpp_reactor.Channel.{Channel}
use cpp_reactor.App.Echo.{
  EchoCall, destroy_cb, EchoContext, Echo, Answer, bytes, would_block, failed, start, set_ctx,
  tell_destroy, close_found, close_conn, enable_found, enable, set_pending, read_found, on_read,
  wrote, write_found, on_write, destroyed_found, on_destroy, register_valid, register_conn,
  close_object, run_destroy, end_object, Event, accepts, on_loop, happen_on_loop, readable,
  writable, closes, ends, happen, happen_all, max_fds,
}

abbrev pub occurrences : ℕ → List ℕ → ℕ
occurrences fd [] = 0
occurrences fd (g ∷ gs) = (if g == fd then 1 else 0) + occurrences fd gs

-- A read that returns bytes.
abbrev pub has_data : Answer → ℕ
has_data (bytes n) = if n == 0 then 0 else 1
has_data _ = 0

abbrev pub worth : Bool → ℕ
worth b = if b then 1 else 0

-- A number that counts on one descriptor.
abbrev at : ℕ → ℕ → ℕ → ℕ
at g fd n = if g == fd then n else 0

at_zero : (g fd : ℕ) → at g fd 0 ≡ 0
at_zero g fd = ground arith

is_true : (b : Bool) → not b ≡ false → b ≡ true
is_true b h = ground arith

module _ {L : Type 0} where
  abbrev pub read_by : ℕ → Event L → ℕ
  read_by fd (on_loop (readable g n)) = if g == fd then has_data n else 0
  read_by fd _ = 0

  abbrev pub reads : ℕ → List (Event L) → ℕ
  reads fd [] = 0
  reads fd (e ∷ es) = read_by fd e + reads fd es

  abbrev pub pending : Option (EchoContext L) → ℕ
  pending none = 0
  pending (some c) = worth c.write_pending

  -- The responses written on a descriptor, and the one that is still to be written.
  abbrev pub balance : ℕ → Echo L → ℕ
  balance fd s = occurrences fd s.written + pending (s.ctx fd)

  moved :
      (fd g j k : ℕ) (o : Option (EchoContext L)) (s : Echo L)
      → pending o + k ≤ pending (s.ctx g) + j
      → balance fd (set_ctx g o s) + at g fd k ≤ balance fd s + at g fd j
  moved fd g j k o s h = elim (Bool-cases (g == fd)) [
    | inl t ↦ let e = ap (λ x. pending (s.ctx x)) ((==_iff g fd).0 t) in rw t (omega (arith, h, e))
    | inr t ↦ rw t (omega arith)
  ]

  balance-set_ctx :
      (fd g : ℕ) (o : Option (EchoContext L)) (s : Echo L)
      → pending o ≤ pending (s.ctx g)
      → balance fd (set_ctx g o s) ≤ balance fd s
  balance-set_ctx fd g o s h = omega (arith, moved fd g 0 0 o s (omega (arith, h)), at_zero g fd)

  balance-enable :
      (fd : ℕ) (flag : Bool) (l : L) (o : Option ℕ) (s : Echo L)
      → balance fd (enable flag l o s) ≡ balance fd s
  balance-enable fd flag l none s = refl
  balance-enable fd flag l (some p) s = go (s.channels p)
    where
      go : (o : Option (Channel EchoCall)) → balance fd (enable_found p flag l o s) ≡ balance fd s
      go none = refl
      go (some ch) = refl

  balance-close_found :
      (fd g : ℕ) (o : Option (EchoContext L)) (s : Echo L)
      → balance fd (close_found g o s) ≤ balance fd s
  balance-close_found fd g none s = omega arith
  balance-close_found fd g (some c) s =
      tell_destroy_balance c.channel (balance-set_ctx fd g none s (omega arith))
    where
      tell_destroy_balance :
          (o : Option ℕ)
          → balance fd (set_ctx g none s) ≤ balance fd s
          → balance fd (tell_destroy g c.loop o (set_ctx g none s)) ≤ balance fd s
      tell_destroy_balance none h = h
      tell_destroy_balance (some p) h = h

  if_balance :
      (b : Bool) (fd n : ℕ) (s t : Echo L)
      → (b ≡ true → balance fd s ≤ n)
      → (b ≡ false → balance fd t ≤ n)
      → balance fd (if b then s else t) ≤ n
  if_balance true fd n s t hs ht = hs refl
  if_balance false fd n s t hs ht = ht refl

  balance-close_conn : (fd g : ℕ) (s : Echo L) → balance fd (close_conn g s) ≤ balance fd s
  unfolding close_conn
  balance-close_conn fd g s =
      if_balance (not (ltb g max_fds)) fd _ _ _ (λ e. omega arith)
        (λ e. balance-close_found fd g (s.ctx g) s)

  -- A flag that is raised is worth one more on its own descriptor.
  balance-raised :
      (fd g : ℕ) (c : EchoContext L) (s : Echo L)
      → balance fd (set_pending g true c s) ≤ balance fd s + at g fd 1
  balance-raised fd g c s =
      let c' : EchoContext L = record c { write_pending = true } in
      let e = balance-enable fd true c.loop c.channel (set_ctx g (some c') s) in
      omega (arith, e, at_zero g fd, moved fd g 1 0 (some c') s (omega arith))

  -- A flag that is taken back pays for the response written.
  balance-wrote :
      (fd g n : ℕ) (c : EchoContext L) (s : Echo L)
      → s.ctx g ≡ some c
      → c.write_pending ≡ true
      → balance fd (wrote g n c s) ≤ balance fd s
  balance-wrote fd g n c s x h =
      let c' : EchoContext L = record c { write_pending = false } in
      let s' : Echo L = record s { written = g ∷ s.written } in
      let e = balance-enable fd false c.loop c.channel (set_ctx g (some c') s') in
      let owed : pending (s.ctx g) ≡ 1 = ap pending x ∙ ap worth h in
      if_balance (n == 0) fd _ _ _ (λ z. omega arith)
        (λ z. omega (arith, e, at_zero g fd, moved fd g 0 1 (some c') s (omega (arith, owed))))

  balance-read_found :
      (fd g : ℕ) (n : Answer) (o : Option (EchoContext L)) (s : Echo L)
      → balance fd (read_found g n o s) ≤ balance fd s + at g fd (has_data n)
  unfolding read_found
  balance-read_found fd g n none s = omega arith
  balance-read_found fd g (bytes n) (some c) s =
      if_balance (n == 0) fd _ _ _ (λ e. omega (arith, balance-close_conn fd g s))
        (λ e.
          if_balance (not c.write_pending) fd _ _ _ (λ f. rw e (balance-raised fd g c s))
            (λ f. omega arith))
  balance-read_found fd g would_block (some c) s = omega arith
  balance-read_found fd g failed (some c) s = omega (arith, balance-close_conn fd g s)

  balance-write_found :
      (fd g : ℕ) (n : Answer) (o : Option (EchoContext L)) (s : Echo L)
      → s.ctx g ≡ o
      → balance fd (write_found g n o s) ≤ balance fd s
  unfolding write_found
  balance-write_found fd g n none s x = omega arith
  balance-write_found fd g (bytes n) (some c) s x =
      if_balance (not c.write_pending) fd _ _ _ (λ e. omega arith)
        (λ e. balance-wrote fd g n c s x (is_true c.write_pending e))
  balance-write_found fd g would_block (some c) s x = omega arith
  balance-write_found fd g failed (some c) s x =
      if_balance (not c.write_pending) fd _ _ _ (λ e. omega arith) (λ e. balance-close_conn fd g s)

  balance-register_conn :
      (fd : ℕ) (g : ℤ) (l : L) (s : Echo L) → balance fd (register_conn g l s).1 ≤ balance fd s
  unfolding register_conn register_valid
  balance-register_conn fd (pos g) l s = elim (Bool-cases (ltb g max_fds)) [
    | inl t ↦ rw t (
        balance-set_ctx fd g
          (some (record { write_pending = false; channel = some s.next; loop = l })) s
          (omega arith))
    | inr t ↦ rw t (omega arith)
  ]
  balance-register_conn fd (negsuc n) l s = omega arith

  balance-destroyed_found :
      (fd g : ℕ) (o : Option (EchoContext L)) (s : Echo L)
      → s.ctx g ≡ o
      → balance fd (destroyed_found g o s) ≤ balance fd s
  balance-destroyed_found fd g none s x = omega arith
  balance-destroyed_found fd g (some c) s x =
      let e = ap pending x in
      balance-set_ctx fd g (some (record c { channel = none })) s (omega (arith, e))

  balance-run_destroy :
      (fd : ℕ) (o : Option EchoCall) (s : Echo L) → balance fd (run_destroy o s) ≤ balance fd s
  unfolding on_destroy
  balance-run_destroy fd (some (destroy_cb g)) s = balance-destroyed_found fd g (s.ctx g) s refl
  balance-run_destroy fd _ s = omega arith

  balance-end_object :
      (fd p : ℕ) (o : Option (Channel EchoCall)) (s : Echo L)
      → balance fd (end_object p o s) ≤ balance fd s
  balance-end_object fd p none s = omega arith
  balance-end_object fd p (some ch) s = balance-run_destroy fd ch.destroy_callback s

  balance-close_object :
      (fd : ℕ) (o : Option (Channel EchoCall)) (s : Echo L)
      → balance fd (close_object o s) ≤ balance fd s
  balance-close_object fd none s = omega arith
  balance-close_object fd (some ch) s =
      if_balance (is_neg ch.fd) fd _ s (record s { closed = ch.fd ∷ s.closed }) (λ e. omega arith)
        (λ e. omega arith)

  balance-happen :
      (fd : ℕ) (e : Event L) (s : Echo L) → balance fd (happen e s) ≤ balance fd s + read_by fd e
  unfolding happen happen_on_loop on_read on_write
  balance-happen fd (accepts g l) s = omega (arith, balance-register_conn fd g l s)
  balance-happen fd (on_loop (readable g n)) s = balance-read_found fd g n (s.ctx g) s
  balance-happen fd (on_loop (writable g n)) s =
      omega (arith, balance-write_found fd g n (s.ctx g) s refl)
  balance-happen fd (on_loop (closes p)) s = omega (arith, balance-close_object fd (s.channels p) s)
  balance-happen fd (on_loop (ends p)) s = omega (arith, balance-end_object fd p (s.channels p) s)

  balance-happen_all :
      (fd : ℕ) (es : List (Event L)) (s : Echo L)
      → balance fd (happen_all es s) ≤ balance fd s + reads fd es
  unfolding happen_all
  balance-happen_all fd [] s = omega arith
  balance-happen_all fd (e ∷ es) s =
      omega (arith, balance-happen_all fd es (happen e s), balance-happen fd e s)

  -- Whatever happens from the start, and in whichever order, on each descriptor no more responses are
  -- written than reads return bytes; while its connection has a response pending, fewer are.
  pub happen_all-answered :
      (fd : ℕ) (es : List (Event L))
      → let s = happen_all es start in occurrences fd s.written + pending (s.ctx fd) ≤ reads fd es
  happen_all-answered fd es = omega (arith, balance-happen_all fd es start)
