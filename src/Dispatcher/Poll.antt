-- ===== src/Dispatcher/Poll.antt =====
-- include/core/PollDispatcher.hpp and src/core/PollDispatcher.cpp: a table of 1024 slots, of which
-- the free ones hold the descriptor -1.
pub mod Slots
use cpp_reactor.Base.{
  ℕ, zero, suc, ◌+◌, ◌≡◌, ◌⊎◌, refl, sym, ◌∙◌, Bool, true, false, Option, none, some, List, [], ◌∷◌,
  ◌||◌, ℤ, no_fd, is_neg, same_fd, same_fd_iff, replicate, ltb, if◌then◌else◌, arith, inl, inr,
  Bool-cases, shift,
}
use cpp_reactor.Status.{StatusCode, ok, not_found, error}
use cpp_reactor.Channel.{has, read_event, write_event}
use cpp_reactor.Dispatcher.{Dispatcher, Laws, changed, is_ok}

-- `struct pollfd`.
pub record Slot : Type 0 where
  pub fd : ℤ
  pub events : ℕ
  pub revents : ℕ

pub record Poll : Type 0 where
  pub slots : List Slot
  pub max_fd : ℕ

abbrev pub free_slot : Slot
free_slot = record { fd = no_fd; events = 0; revents = 0 }

abbrev pub max_node : ℕ
max_node = 1024

-- The constructor.
abbrev pub empty : Poll
empty = record { slots = replicate max_node free_slot; max_fd = 0 }

-- POLLIN and POLLOUT are the bits 1 and 4.
abbrev pub poll_events : ℕ → ℕ
poll_events ev = (if has read_event ev then 1 else 0) + (if has write_event ev then 4 else 0)

-- The place of the first slot that holds `fd`.
unfoldable pub find_slot : ℤ → List Slot → Option ℕ
find_slot fd [] = none
find_slot fd (s ∷ ss) = if same_fd s.fd fd then some 0 else shift (find_slot fd ss)

unfoldable pub set_slot : ℕ → (Slot → Slot) → List Slot → List Slot
set_slot i f [] = []
set_slot zero f (s ∷ ss) = f s ∷ ss
set_slot (suc i) f (s ∷ ss) = s ∷ set_slot i f ss

unfoldable pub add_at : Poll → ℤ → ℕ → Option ℕ → Poll × StatusCode
add_at d fd ev none = (d, error)
add_at d fd ev (some i) = (
  record {
    slots = set_slot i (λ s. record s { fd = fd; events = poll_events ev }) d.slots;
    max_fd = if ltb d.max_fd i then i else d.max_fd;
  },
  ok,
)

unfoldable pub add : Poll → ℤ → ℕ → Poll × StatusCode
add d fd ev = add_at d fd ev (find_slot no_fd d.slots)

unfoldable pub remove_at : Poll → Option ℕ → Poll × StatusCode
remove_at d none = (d, not_found)
remove_at d (some i) = (record d { slots = set_slot i (λ s. free_slot) d.slots }, ok)

unfoldable pub remove : Poll → ℤ → ℕ → Poll × StatusCode
remove d fd ev = remove_at d (find_slot fd d.slots)

unfoldable pub modify_at : Poll → ℕ → Option ℕ → Poll × StatusCode
modify_at d ev none = (d, not_found)
modify_at d ev (some i) =
    (record d { slots = set_slot i (λ s. record s { events = poll_events ev }) d.slots }, ok)

unfoldable pub modify : Poll → ℤ → ℕ → Poll × StatusCode
modify d fd ev = modify_at d ev (find_slot fd d.slots)

abbrev pub poll_dispatcher : Dispatcher Poll
poll_dispatcher = record { add = add; remove = remove; modify = modify; close = λ d fd. d }

abbrev pub is_some : Option ℕ → Bool
is_some none = false
is_some (some i) = true

abbrev pub registered : Poll → ℤ → Bool
registered d fd = is_some (find_slot fd d.slots)

-- No descriptor stands in two slots.
abbrev pub Unique : List Slot → Type 0
Unique [] = Unit {0}
Unique (s ∷ ss) = ((is_neg s.fd ≡ true) ⊎ (find_slot s.fd ss ≡ none)) × Unique ss

-- The events that are polled for a descriptor.
unfoldable pub polled : ℤ → List Slot → Option ℕ
polled fd [] = none
polled fd (s ∷ ss) = if same_fd s.fd fd then some s.events else polled fd ss
