-- ===== src/Channel.antt =====
-- include/net/Channel.hpp and src/net/Channel.cpp: a descriptor with the events it listens for and
-- its callbacks. A callback is a name, of the type `C`; what it does when called is the caller's.
use cpp_reactor.Base.{
  ℕ, ◌+◌, ◌-◌, ◌/◌, ◌%◌, ◌^◌, ◌≡◌, Bool, true, false, Option, none, some, ℤ, ◌==◌, if◌then◌else◌,
  arith,
}

-- `FDEvent`, as the number of its bit.
abbrev pub read_event : ℕ
read_event = 1

abbrev pub write_event : ℕ
write_event = 2

abbrev pub error_event : ℕ
error_event = 3

-- `mask & (1 << bit)`.
abbrev pub has : ℕ → ℕ → Bool
has bit mask = (mask / 2 ^ bit) % 2 == 1

-- `mask |= 1 << bit` and `mask &= ~(1 << bit)`.
abbrev pub with_bit : ℕ → ℕ → ℕ
with_bit bit mask = if has bit mask then mask else mask + 2 ^ bit

abbrev pub without_bit : ℕ → ℕ → ℕ
without_bit bit mask = if has bit mask then mask - 2 ^ bit else mask

pub record Channel (C : Type 0) : Type 0 where
  pub fd : ℤ
  pub events : ℕ
  pub read_callback : Option C
  pub write_callback : Option C
  pub destroy_callback : Option C

module _ {C : Type 0} where
  abbrev pub have : Option C → Bool
  have none = false
  have (some c) = true

  unfoldable pub write_event_enable : Channel C → Bool → Channel C
  write_event_enable ch flag =
      if flag
      then record ch { events = with_bit write_event ch.events }
      else record ch { events = without_bit write_event ch.events }

  unfoldable pub is_write_event_enable : Channel C → Bool
  is_write_event_enable ch = has write_event ch.events

  -- The switch of the write event sets that event to the flag and leaves the read and the error event.
  pub write_event_enable_lem :
      (ch : Channel C) (flag : Bool)
      → (is_write_event_enable (write_event_enable ch flag) ≡ flag)
        × (has read_event (write_event_enable ch flag).events ≡ has read_event ch.events)
        × (has error_event (write_event_enable ch flag).events ≡ has error_event ch.events)
  unfolding write_event_enable is_write_event_enable
  write_event_enable_lem ch true = (ground arith, ground arith, ground arith)
  write_event_enable_lem ch false = (ground arith, ground arith, ground arith)
