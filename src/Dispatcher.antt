-- ===== src/Dispatcher.antt =====
-- include/core/Dispatcher.hpp and src/core/Dispatcher.cpp: the interface of the polling back ends.
-- `setChannel` followed by a call is one call here, with the channel's descriptor and its events. What
-- `close` of a descriptor does to the kernel's side of a back end is an operation of its own.
pub mod Poll
pub mod Select
pub mod Epoll
pub mod Names
pub mod Create
pub mod Waiting
use cpp_reactor.Base.{ℕ, ◌≡◌, refl, sym, ◌∙◌, Bool, true, false, ℤ, is_neg, same_fd, if◌then◌else◌}
use cpp_reactor.Status.{StatusCode, ok, again, invalid, not_found, error}

pub record Dispatcher (D : Type 0) : Type 0 where
  pub add : D → ℤ → ℕ → D × StatusCode
  pub remove : D → ℤ → ℕ → D × StatusCode
  pub modify : D → ℤ → ℕ → D × StatusCode
  pub close : D → ℤ → D

abbrev pub is_ok : StatusCode → Bool
is_ok ok = true
is_ok _ = false

-- What a call that sets the registration of `fd` to `on` does, if it returns `ok`.
abbrev pub changed : StatusCode → ℤ → Bool → (ℤ → Bool) → ℤ → Bool
changed code fd on before g =
    if is_ok code then (if same_fd fd g then on else before g) else before g

-- Whether what is registered agrees with what there is: exactly, or in that nothing else is registered.
abbrev pub Agrees : Bool → Bool → Bool → Type 0
Agrees true on there = on ≡ there
Agrees false on there = on ≡ true → there ≡ true

pub Agrees-eq : (b on there : Bool) → on ≡ there → Agrees b on there
Agrees-eq true on there e = e
Agrees-eq false on there e = λ h. sym e ∙ h

-- An earlier state of a registration that agrees with a later one.
pub Agrees-trans :
    (b after on there : Bool) → Agrees b after on → Agrees b on there → Agrees b after there
Agrees-trans true after on there e f = e ∙ f
Agrees-trans false after on there e f = λ h. f (e h)

pub Agrees-from : (b x y there : Bool) → x ≡ y → Agrees b y there → Agrees b x there
Agrees-from b x y there e a = Agrees-trans b x y there (Agrees-eq b x y e) a

-- Nothing is registered that is not there.
pub Agrees-off : (b on : Bool) → Agrees b on false → on ≡ false
Agrees-off true on e = e
Agrees-off false true e = sym (e refl)
Agrees-off false false e = refl

-- What the event loop relies on: a call changes the registration of its descriptor if it returns
-- `ok`, and none otherwise. Closing a descriptor registers none; a back end that is `exact` keeps all
-- of them then, and another may forget some, as the kernel's interest list does.
pub record Laws {D : Type 0} (X : Dispatcher D) : Type 1 where
  pub IsValid : D → Type 0
  pub exact : Bool
  pub registered : D → ℤ → Bool
  pub add-IsValid :
      (d : D) (fd : ℤ) (ev : ℕ)
      → IsValid d
      → is_neg fd ≡ false
      → registered d fd ≡ false
      → IsValid (X.add d fd ev).0
  pub registered-add :
      (d : D) (fd : ℤ) (ev : ℕ) (g : ℤ)
      → IsValid d
      → is_neg fd ≡ false
      → is_neg g ≡ false
      → registered d fd ≡ false
      → registered (X.add d fd ev).0 g ≡ changed (X.add d fd ev).1 fd true (registered d) g
  pub remove-IsValid :
      (d : D) (fd : ℤ) (ev : ℕ) → IsValid d → is_neg fd ≡ false → IsValid (X.remove d fd ev).0
  pub registered-remove :
      (d : D) (fd : ℤ) (ev : ℕ) (g : ℤ)
      → IsValid d
      → is_neg fd ≡ false
      → is_neg g ≡ false
      → registered (X.remove d fd ev).0 g ≡ changed (X.remove d fd ev).1 fd false (registered d) g
  pub modify-IsValid :
      (d : D) (fd : ℤ) (ev : ℕ) → IsValid d → is_neg fd ≡ false → IsValid (X.modify d fd ev).0
  pub registered-modify :
      (d : D) (fd : ℤ) (ev : ℕ) (g : ℤ)
      → IsValid d
      → is_neg fd ≡ false
      → is_neg g ≡ false
      → registered (X.modify d fd ev).0 g ≡ registered d g
  pub close-IsValid : (d : D) (fd : ℤ) → IsValid d → IsValid (X.close d fd)
  pub registered-close :
      (d : D) (fd g : ℤ)
      → IsValid d
      → is_neg g ≡ false
      → Agrees exact (registered (X.close d fd) g) (registered d g)
