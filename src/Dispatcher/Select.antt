-- ===== src/Dispatcher/Select.antt =====
-- include/core/SelectDispatcher.hpp and src/core/SelectDispatcher.cpp: two descriptor sets, which
-- are kept from call to call.
use cpp_reactor.Base.{
  ℕ, ◌≡◌, refl, Bool, true, false, not, ◌&&◌, ◌||◌, ℤ, pos, negsuc, same_fd, leb, if◌then◌else◌,
  arith, same_fd_iff,
}
use cpp_reactor.Status.{StatusCode, ok, error}
use cpp_reactor.Channel.{has, read_event, write_event}

-- `fd_set`, as its members.
abbrev pub FdSet : Type 0
FdSet = ℤ → Bool

-- FD_SET and FD_CLR.
abbrev pub fd_set : ℤ → FdSet → FdSet
fd_set fd s g = if same_fd fd g then true else s g

abbrev pub fd_clr : ℤ → FdSet → FdSet
fd_clr fd s g = if same_fd fd g then false else s g

pub record Select : Type 0 where
  pub read_set : FdSet
  pub write_set : FdSet

abbrev pub max_size : ℕ
max_size = 1024

-- The constructor, with FD_ZERO.
abbrev pub empty : Select
empty = record { read_set = λ g. false; write_set = λ g. false }

unfoldable pub set_fd_set : Select → ℤ → ℕ → Select
set_fd_set d fd ev = record {
  read_set = if has read_event ev then fd_set fd d.read_set else d.read_set;
  write_set = if has write_event ev then fd_set fd d.write_set else d.write_set;
}

unfoldable pub clear_fd_set : Select → ℤ → ℕ → Select
clear_fd_set d fd ev = record {
  read_set = if has read_event ev then fd_clr fd d.read_set else d.read_set;
  write_set = if has write_event ev then fd_clr fd d.write_set else d.write_set;
}

-- `getSocket() >= maxSize_`.
abbrev pub too_big : ℤ → Bool
too_big (pos n) = leb max_size n
too_big (negsuc n) = false

unfoldable pub add : Select → ℤ → ℕ → Select × StatusCode
add d fd ev = if too_big fd then (d, error) else (set_fd_set d fd ev, ok)

unfoldable pub remove : Select → ℤ → ℕ → Select × StatusCode
remove d fd ev = (clear_fd_set d fd ev, ok)

unfoldable pub modify : Select → ℤ → ℕ → Select × StatusCode
modify d fd ev = (set_fd_set (clear_fd_set d fd ev) fd ev, ok)

-- After `modify` the back end watches a descriptor for writing if its channel asks for that now, or
-- if it was watched before: asking no more does not end the watch. The read side is alike, and the
-- other descriptors are left alone.
pub modify-watches :
    (d : Select) (fd g : ℤ) (ev : ℕ)
    → ((modify d fd ev).0.write_set g
        ≡ (if same_fd fd g then has write_event ev || d.write_set g else d.write_set g))
      × ((modify d fd ev).0.read_set g
          ≡ (if same_fd fd g then has read_event ev || d.read_set g else d.read_set g))
unfolding modify set_fd_set clear_fd_set
modify-watches d fd g ev = (ground (arith, same_fd_iff fd g), ground (arith, same_fd_iff fd g))

-- `remove` succeeds and ends only the watches that the channel asks for at that time: a descriptor
-- stays watched for writing if it was, and its channel does not ask for that now.
pub remove-watches :
    (d : Select) (fd : ℤ) (ev : ℕ)
    → ((remove d fd ev).1 ≡ ok)
      × ((remove d fd ev).0.write_set fd ≡ (not (has write_event ev) && d.write_set fd))
      × ((remove d fd ev).0.read_set fd ≡ (not (has read_event ev) && d.read_set fd))
unfolding remove clear_fd_set
remove-watches d fd ev =
    (refl, ground (arith, same_fd_iff fd fd), ground (arith, same_fd_iff fd fd))
