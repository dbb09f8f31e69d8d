-- ===== src/App/Echo/Linked.antt =====
-- src/app/main_echo.cpp: how contexts and the channels that they point to hang together.
use cpp_reactor.Base.{
  ℕ, ◌≤◌, ◌<◌, ◌≡◌, refl, sym, ap, ◌∙◌, subst, Bool, true, false, not, Option, none, some, pos, ltb,
  ◌==◌, ==_iff, if◌then◌else◌, arith, Bool-cases, inl, inr,
}
use cpp_reactor.Channel.{Channel, write_event_enable, is_write_event_enable, write_event_enable_lem}
use cpp_reactor.App.Echo.{
  EchoCall, destroy_cb, EchoContext, Task, Echo, update, start, set_ctx, tell, tell_destroy,
  close_found, close_conn, enable_found, enable, set_pending, max_fds, destroys,
}

-- A channel of a descriptor, with the callback that its destruction calls.
abbrev pub IsOf : ℕ → Channel EchoCall → Type 0
IsOf fd ch = (ch.fd ≡ pos fd) × (ch.destroy_callback ≡ some (destroy_cb fd))

-- A context points to a channel of its own descriptor, which waits until it can be written to exactly if
-- a response is pending.
abbrev pub Matches : ℕ → Bool → Option (Channel EchoCall) → Type 0
Matches fd pending none = ⊥
Matches fd pending (some ch) = IsOf fd ch × (is_write_event_enable ch ≡ pending)

pub switched_fd : (ch : Channel EchoCall) (flag : Bool) → (write_event_enable ch flag).fd ≡ ch.fd
unfolding write_event_enable
switched_fd ch true = refl
switched_fd ch false = refl

pub switched_callback :
    (ch : Channel EchoCall) (flag : Bool)
    → (write_event_enable ch flag).destroy_callback ≡ ch.destroy_callback
unfolding write_event_enable
switched_callback ch true = refl
switched_callback ch false = refl

pub pos-eq : (m n : ℕ) → pos m ≡ pos n → m ≡ n
pos-eq m n h = ground arith

-- A channel has one descriptor.
pub two_owners :
    (fd g : ℕ) (b c : Bool) (o : Option (Channel EchoCall))
    → Matches fd b o
    → Matches g c o
    → (fd ≡ g → ⊥)
    → ⊥
two_owners fd g b c none m n h = m
two_owners fd g b c (some ch) m n h = h (pos-eq fd g (sym m.0.0 ∙ n.0.0))

pub switched-Matches :
    (fd : ℕ) (pending flag : Bool) (ch : Channel EchoCall)
    → Matches fd pending (some ch)
    → Matches fd flag (some (write_event_enable ch flag))
switched-Matches fd pending flag ch m = (
  (switched_fd ch flag ∙ m.0.0, switched_callback ch flag ∙ m.0.1),
  (write_event_enable_lem ch flag).0,
)

pub update-Matches :
    (u : ℕ → Option (Channel EchoCall)) (fd g p q : ℕ) (b c : Bool) (ch : Channel EchoCall)
    → fd ≡ g
    → p ≡ q
    → b ≡ c
    → Matches fd b (some ch)
    → Matches g c (update u p (some ch) q)
update-Matches u fd g p q b c ch e f h m =
    rw ((==_iff p q).1 f)
      (subst (λ x. Matches g x (some ch)) h (subst (λ x. Matches x b (some ch)) e m))

pub if-old-Matches :
    (b : Bool) (g : ℕ) (w : Bool) (x y : Option (Channel EchoCall))
    → (b ≡ true → ⊥)
    → Matches g w y
    → Matches g w (if b then x else y)
if-old-Matches true g w x y n m = absurd (n refl)
if-old-Matches false g w x y n m = m

pub if-none :
    (b : Bool) (x y : Option (Channel EchoCall))
    → (b ≡ true → ⊥)
    → y ≡ none
    → (if b then x else y) ≡ none
if-none true x y n e = absurd (n refl)
if-none false x y n e = e

pub if-freed :
    (b : Bool) (x : Option (Channel EchoCall)) → x ≡ none → (if b then none else x) ≡ none
if-freed true x e = refl
if-freed false x e = e

pub differs : (m n : ℕ) → (m == n) ≡ false → m ≡ n → ⊥
differs m n h e = ground arith

pub below : (m n : ℕ) → (n ≤ m → ⊥) → m < n
below m n h = ground arith

module _ {L : Type 0} where
  pub record Linked (s : Echo L) : Type 0 where
    pub match :
        (fd p : ℕ) (c : EchoContext L)
        → s.ctx fd ≡ some c
        → c.channel ≡ some p
        → Matches fd c.write_pending (s.channels p)
    pub unused : (p : ℕ) → s.next ≤ p → s.channels p ≡ none

  pub start-Linked : Linked start
  start-Linked = record { match = λ fd p c e f. absurd (ground arith); unused = λ p h. refl }

  pub tell-Linked : (l : L) (t : Task) (s : Echo L) → Linked s → Linked (tell l t s)
  tell-Linked l t s k = record { match = k.match; unused = k.unused }

  -- A context that is no longer there, or that points nowhere.
  pub forget-Linked :
      (fd : ℕ) (o : Option (EchoContext L)) (s : Echo L)
      → ((c : EchoContext L) → o ≡ some c → c.channel ≡ none)
      → Linked s
      → Linked (set_ctx fd o s)
  forget-Linked fd o s n k = record {
    match = λ g p c e f. elim (Bool-cases (fd == g)) [
      | inl t ↦ absurd (ground (arith, n c (rw t at e)))
      | inr t ↦ k.match g p c (rw t at e) f
    ];
    unused = k.unused;
  }

  pub tell_destroy-Linked :
      (fd : ℕ) (l : L) (o : Option ℕ) (s : Echo L) → Linked s → Linked (tell_destroy fd l o s)
  tell_destroy-Linked fd l none s k = k
  tell_destroy-Linked fd l (some p) s k = tell-Linked l (destroys fd) s k

  pub close_found-Linked :
      (fd : ℕ) (o : Option (EchoContext L)) (s : Echo L) → Linked s → Linked (close_found fd o s)
  close_found-Linked fd none s k = k
  close_found-Linked fd (some c) s k =
      tell_destroy-Linked fd c.loop c.channel _
        (forget-Linked fd none s (λ d e. absurd (ground arith)) k)

  pub if-Linked : (b : Bool) (s t : Echo L) → Linked s → Linked t → Linked (if b then s else t)
  if-Linked true s t hs ht = hs
  if-Linked false s t hs ht = ht

  pub close_conn-Linked : (fd : ℕ) (s : Echo L) → Linked s → Linked (close_conn fd s)
  unfolding close_conn
  close_conn-Linked fd s k =
      if-Linked (not (ltb fd max_fds)) _ _ k (close_found-Linked fd (s.ctx fd) s k)

  -- A context and the object that it points to are written, which no context of another descriptor
  -- points to.
  pub placed-Linked :
      (fd p next : ℕ) (c : EchoContext L) (ch : Channel EchoCall) (s : Echo L)
      → Matches fd c.write_pending (some ch)
      → c.channel ≡ some p
      → ((g : ℕ) (d : EchoContext L) → (fd ≡ g → ⊥) → s.ctx g ≡ some d → d.channel ≡ some p → ⊥)
      → s.next ≤ next
      → p < next
      → Linked s
      → Linked (record s {
        ctx = update s.ctx fd (some c);
        channels = update s.channels p (some ch);
        next = next;
      })
  placed-Linked fd p next c ch s m f only le lt k = record {
    match = λ g q d x y. elim (Bool-cases (fd == g)) [
      | inl t ↦
          let same_ctx : c ≡ d = ground (arith, rw t at x) in
          update-Matches s.channels fd g p q c.write_pending d.write_pending ch ((==_iff fd g).0 t)
            (ground (arith, f, y, same_ctx)) (ap (λ (z : EchoContext L). z.write_pending) same_ctx)
            m
      | inr t ↦
          let old = rw t at x in
          if-old-Matches (p == q) g d.write_pending (some ch) (s.channels q)
            (λ u. only g d (differs fd g t) old (y ∙ ap some (sym ((==_iff p q).0 u))))
            (k.match g q d old y)
    ];
    unused = λ q h.
        if-none (p == q) (some ch) (s.channels q) (λ u. absurd (omega (arith, (==_iff p q).0 u)))
          (k.unused q (omega arith));
  }

  -- The switch of the event on the channel, with the flag of the context.
  pub enable_found-Linked :
      (fd p : ℕ) (flag : Bool) (c : EchoContext L) (o : Option (Channel EchoCall)) (s : Echo L)
      → s.channels p ≡ o
      → Matches fd c.write_pending o
      → c.channel ≡ some p
      → Linked s
      → Linked
          (enable_found p flag c.loop o (set_ctx fd (some (record c { write_pending = flag })) s))
  enable_found-Linked fd p flag c none s e m f k = elim m [ ]
  enable_found-Linked fd p flag c (some ch) s e m f k = tell-Linked _ _ _ (
      placed-Linked fd p s.next (record c { write_pending = flag }) (write_event_enable ch flag) s
        (switched-Matches fd c.write_pending flag ch m) f
        (λ g d n x y.
          two_owners fd g c.write_pending d.write_pending (s.channels p)
            (subst (λ r. Matches fd c.write_pending r) (sym e) m) (k.match g p d x y) n)
        (omega arith) (below p s.next (λ h. absurd (ground (arith, e, k.unused p h)))) k)

  pub enable-Linked :
      (fd : ℕ) (flag : Bool) (c : EchoContext L) (o : Option ℕ) (s : Echo L)
      → c.channel ≡ o
      → s.ctx fd ≡ some c
      → Linked s
      → Linked (enable flag c.loop o (set_ctx fd (some (record c { write_pending = flag })) s))
  enable-Linked fd flag c none s f x k =
      forget-Linked fd (some (record c { write_pending = flag })) s (λ d e. ground (arith, f)) k
  enable-Linked fd flag c (some p) s f x k =
      enable_found-Linked fd p flag c (s.channels p) s refl (k.match fd p c x f) f k

  pub set_pending-Linked :
      (fd : ℕ) (flag : Bool) (c : EchoContext L) (s : Echo L)
      → s.ctx fd ≡ some c
      → Linked s
      → Linked (set_pending fd flag c s)
  set_pending-Linked fd flag c s x k = enable-Linked fd flag c c.channel s refl x k
