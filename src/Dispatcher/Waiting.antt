-- ===== src/Dispatcher/Waiting.antt =====
-- src/core/PollDispatcher.cpp, SelectDispatcher.cpp and EpollDispatcher.cpp: the waiting calls. The
-- event loop is of a type `L`, and `active` is what it does with a report; it may change the back end,
-- which is looked at again for each report. What the kernel answered is an argument: `some errno` for
-- -1, and `none` otherwise.
use cpp_reactor.Base.{
  ℕ, zero, suc, ◌+◌, ◌≡◌, refl, Bool, true, false, ◌||◌, Option, none, some, List, [], ◌∷◌, ℤ, pos,
  same_fd, no_fd, get_elem?, ◌==◌, if◌then◌else◌,
}
use cpp_reactor.Status.{StatusCode, ok, again, error}
use cpp_reactor.Channel.{has, with_bit, read_event, write_event, error_event}
use cpp_reactor.Dispatcher.Poll.{Slot, max_node}
use cpp_reactor.Dispatcher.Select.{FdSet, max_size}

abbrev pub eintr : ℕ
eintr = 4

abbrev pub set_if : Bool → ℕ → ℕ → ℕ
set_if b bit ev = if b then with_bit bit ev else ev

-- POLLIN, POLLOUT, POLLERR, POLLHUP and POLLNVAL are 2^0, 2^2, 2^3, 2^4 and 2^5.
unfoldable pub poll_report : ℕ → ℕ
poll_report revents =
    set_if ((has 3 revents || has 4 revents) || has 5 revents) error_event
      (set_if (has 2 revents) write_event (set_if (has 0 revents) read_event 0))

-- EPOLLPRI and EPOLLRDHUP are 2^1 and 2^13, the others are those of poll.
unfoldable pub epoll_report : ℕ → ℕ
epoll_report event =
    set_if ((has 3 event || has 4 event) || has 13 event) error_event
      (set_if (has 2 event) write_event (set_if (has 0 event || has 1 event) read_event 0))

or_false : (a : Bool) → (a || false) ≡ a
or_false true = refl
or_false false = refl

-- On what both calls can answer, the two back ends report the same events.
epoll_report-poll_report :
    (r : ℕ) → has 1 r ≡ false → has 5 r ≡ false → has 13 r ≡ false → epoll_report r ≡ poll_report r
unfolding epoll_report poll_report
epoll_report-poll_report r pri nval hup =
    same_bits (has 0 r) (has 1 r) (has 2 r) (has 3 r) (has 4 r) (has 5 r) (has 13 r) pri nval hup
  where
    same_bits :
        (a b c d e f g : Bool)
        → b ≡ false
        → f ≡ false
        → g ≡ false
        → set_if ((d || e) || g) error_event (set_if c write_event (set_if (a || b) read_event 0))
          ≡ set_if ((d || e) || f) error_event (set_if c write_event (set_if a read_event 0))
    same_bits a b c d e f g i j k = rw (i, j, k, or_false a) refl

unfoldable pub select_report : Bool → Bool → ℕ
select_report readable writable = set_if writable write_event (set_if readable read_event 0)

abbrev pub waited : Option ℕ → StatusCode
waited none = ok
waited (some errno) = if errno == eintr then again else error

module _ {L : Type 0} (active : ℤ → ℕ → L → L) where
  -- A report of no event is none.
  abbrev pub report : ℤ → ℕ → L → L
  report fd ev l = if ev == 0 then l else active fd ev l

  abbrev pub report_slot : Option Slot → L → L
  report_slot none l = l
  report_slot (some s) l = if same_fd s.fd no_fd then l else report s.fd (poll_report s.revents) l

  module _ (slots : L → List Slot) where
    -- `n` slots from the place `i` on.
    unfoldable pub poll_reports : ℕ → ℕ → L → L
    unfolding poll_report
    poll_reports zero i l = l
    poll_reports (suc n) i l = poll_reports n (i + 1) (report_slot (get_elem? (slots l) i) l)

    unfoldable pub poll_dispatch : Option ℕ → L → L × StatusCode
    unfolding poll_reports
    poll_dispatch none l = (poll_reports max_node 0 l, ok)
    poll_dispatch (some errno) l = (l, waited (some errno))

  module _ (rdtmp wrtmp : FdSet) where
    -- `n` descriptors from `i` on, in the two sets that `select` left.
    unfoldable pub select_reports : ℕ → ℕ → L → L
    unfolding select_report
    select_reports zero i l = l
    select_reports (suc n) i l =
        select_reports n (i + 1) (report (pos i) (select_report (rdtmp (pos i)) (wrtmp (pos i))) l)

    unfoldable pub select_dispatch : Option ℕ → L → L × StatusCode
    unfolding select_reports
    select_dispatch none l = (select_reports max_size 0 l, ok)
    select_dispatch (some errno) l = (l, waited (some errno))

  -- The descriptors that are ready, with their events.
  unfoldable pub epoll_reports : List (ℤ × ℕ) → L → L
  unfolding epoll_report
  epoll_reports [] l = l
  epoll_reports ((fd, event) ∷ rs) l = epoll_reports rs (report fd (epoll_report event) l)

  abbrev pub ready_events : Option ℕ → List (ℤ × ℕ) → L → L × StatusCode
  ready_events none rs l = (epoll_reports rs l, ok)
  ready_events (some errno) rs l = (l, waited (some errno))
