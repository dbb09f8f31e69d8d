-- ===== src/Dispatcher/Epoll.antt =====
-- include/core/EpollDispatcher.hpp and src/core/EpollDispatcher.cpp: the interest list is the kernel's,
-- of a type `K`, on which `epoll_ctl` is a parameter; it tells whether it succeeded. `forget` is what
-- the kernel does to the list when a descriptor is closed.
use cpp_reactor.Base.{ℕ, ◌+◌, ◌≡◌, refl, Bool, true, false, ℤ, same_fd, if◌then◌else◌}
use cpp_reactor.Status.{StatusCode, ok, error}
use cpp_reactor.Channel.{has, read_event, write_event}
use cpp_reactor.Dispatcher.{Dispatcher, Laws, changed}

pub data CtlOp : Type 0 where
  ctl_add ctl_del ctl_mod : CtlOp

-- EPOLLIN and EPOLLOUT are 1 and 4.
abbrev pub epoll_events : ℕ → ℕ
epoll_events ev = (if has read_event ev then 1 else 0) + (if has write_event ev then 4 else 0)

abbrev pub code_of : Bool → StatusCode
code_of b = if b then ok else error

module _ {K : Type 0} (ctl : CtlOp → ℤ → ℕ → K → Bool × K) where
  unfoldable pub epoll_ctl : CtlOp → K → ℤ → ℕ → K × StatusCode
  epoll_ctl op k fd ev = let r = ctl op fd (epoll_events ev) k in (r.1, code_of r.0)

  abbrev pub epoll_dispatcher : (ℤ → K → K) → Dispatcher K
  epoll_dispatcher forget = record {
    add = epoll_ctl ctl_add;
    remove = epoll_ctl ctl_del;
    modify = epoll_ctl ctl_mod;
    close = λ k fd. forget fd k;
  }

-- What `epoll_ctl` does to the interest list: a call that fails changes nothing, and one that succeeds
-- adds its descriptor, deletes it or leaves the list. Closing a descriptor adds none.
pub record Lists {K : Type 0} (ctl : CtlOp → ℤ → ℕ → K → Bool × K) (forget : ℤ → K → K)
    (interest : K → ℤ → Bool) : Type 0 where
  pub failed :
      (op : CtlOp) (fd : ℤ) (e : ℕ) (k : K) (g : ℤ)
      → (ctl op fd e k).0 ≡ false
      → interest (ctl op fd e k).1 g ≡ interest k g
  pub added :
      (fd : ℤ) (e : ℕ) (k : K) (g : ℤ)
      → (ctl ctl_add fd e k).0 ≡ true
      → interest (ctl ctl_add fd e k).1 g ≡ (if same_fd fd g then true else interest k g)
  pub deleted :
      (fd : ℤ) (e : ℕ) (k : K) (g : ℤ)
      → (ctl ctl_del fd e k).0 ≡ true
      → interest (ctl ctl_del fd e k).1 g ≡ (if same_fd fd g then false else interest k g)
  pub modified :
      (fd : ℤ) (e : ℕ) (k : K) (g : ℤ)
      → (ctl ctl_mod fd e k).0 ≡ true
      → interest (ctl ctl_mod fd e k).1 g ≡ interest k g
  pub closed : (fd g : ℤ) (k : K) → interest (forget fd k) g ≡ true → interest k g ≡ true

module _ {K : Type 0} (ctl : CtlOp → ℤ → ℕ → K → Bool × K) (forget : ℤ → K → K)
    (interest : K → ℤ → Bool) (lists : Lists ctl forget interest) where
  by_answer :
      (b : Bool) (fd g : ℤ) (on : Bool) (before : ℤ → Bool) (after : Bool)
      → (b ≡ true → after ≡ (if same_fd fd g then on else before g))
      → (b ≡ false → after ≡ before g)
      → after ≡ changed (code_of b) fd on before g
  by_answer true fd g on before after t f = t refl
  by_answer false fd g on before after t f = f refl

  by_either :
      (b : Bool) (after before : Bool)
      → (b ≡ true → after ≡ before)
      → (b ≡ false → after ≡ before)
      → after ≡ before
  by_either true after before t f = t refl
  by_either false after before t f = f refl

  -- The epoll back end does what the event loop relies on.
  pub epoll_laws : Laws (epoll_dispatcher ctl forget)
  unfolding epoll_ctl
  epoll_laws = record {
    IsValid = λ k. Unit;
    exact = false;
    registered = interest;
    add-IsValid = λ k fd ev v n r. tt;
    registered-add = λ k fd ev g v n m r.
        by_answer _ fd g true (interest k) _ (lists.added fd _ k g) (lists.failed ctl_add fd _ k g);
    remove-IsValid = λ k fd ev v n. tt;
    registered-remove = λ k fd ev g v n m.
        by_answer _ fd g false (interest k) _ (lists.deleted fd _ k g)
          (lists.failed ctl_del fd _ k g);
    modify-IsValid = λ k fd ev v n. tt;
    registered-modify = λ k fd ev g v n m.
        by_either _ _ _ (lists.modified fd _ k g) (lists.failed ctl_mod fd _ k g);
    close-IsValid = λ k fd v. tt;
    registered-close = λ k fd g v n. lists.closed fd g k;
  }

  -- What the laws are stated with.
  pub epoll_laws-IsValid : (k : K) → epoll_laws.IsValid k
  unfolding epoll_laws
  epoll_laws-IsValid k = tt

  pub epoll_laws-exact : epoll_laws.exact ≡ false
  unfolding epoll_laws
  epoll_laws-exact = refl

  pub epoll_laws-registered : (k : K) (fd : ℤ) → epoll_laws.registered k fd ≡ interest k fd
  unfolding epoll_laws
  epoll_laws-registered k fd = refl
