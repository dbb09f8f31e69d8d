-- ===== src/Connection/Close.antt =====
-- `handleClose`, `onChannelDestroyed_` and the destructor of src/net/TcpConnection.cpp, and the life
-- of a connection.
use cpp_reactor.Base.{ℕ, ◌^◌, ◌≤◌, ◌<◌, ◌≡◌, refl, Option, none, some, [], ◌∷◌, arith}
use cpp_reactor.Loop.{delete_op}
use cpp_reactor.Connection.{
  State, connecting, connected, disconnecting, disconnected, Connection, close_in, handle_close,
  destroy, on_channel_destroyed,
}
use cpp_reactor.Connection.Life.{
  deletes, deletes-append, allowed, IsServing, Follows, rank-top, allowed-rank, late-Follows,
}

pub close_in-Follows :
    (s : State) (ch : Option ℕ) (c : Connection)
    → c.state ≡ s
    → 100 ≤ c.pending.status_code
    → c.pending.status_code ≤ 599
    → c.max_keep_alive_requests < 2 ^ 32
    → deletes c.posted ≤ allowed s
    → Follows c (close_in s ch c)
unfolding close_in
close_in-Follows disconnected ch c e f l h k =
    late-Follows c c (omega arith) (rw (e) omega arith) refl refl f l h k
close_in-Follows disconnecting ch c e f l h k =
    late-Follows c c (omega arith) (rw (e) omega arith) refl refl f l h k
close_in-Follows connecting none c e f l h k =
    late-Follows c _ (rw (e) omega arith) (omega arith) refl refl f l h (omega (arith, k))
close_in-Follows connected none c e f l h k =
    late-Follows c _ (rw (e) omega arith) (omega arith) refl refl f l h (omega (arith, k))
close_in-Follows connecting (some ev) c e f l h k =
    late-Follows c _ (rw (e) omega arith) (omega arith) refl refl f l h
      (omega (arith, k, deletes-append c.posted ((delete_op, c.fd) ∷ [])))
close_in-Follows connected (some ev) c e f l h k =
    late-Follows c _ (rw (e) omega arith) (omega arith) refl refl f l h
      (omega (arith, k, deletes-append c.posted ((delete_op, c.fd) ∷ [])))

pub handle_close-Follows : (c : Connection) → IsServing c → Follows c (handle_close c)
unfolding handle_close
handle_close-Follows c v =
    close_in-Follows c.state c.channel c refl v.status_low v.status_high v.limit_fits v.once

pub on_channel_destroyed-Follows :
    (c : Connection) → IsServing c → Follows c (on_channel_destroyed c)
unfolding on_channel_destroyed
on_channel_destroyed-Follows c v =
    late-Follows c _ (rank-top c.state) (omega arith) refl refl v.status_low v.status_high
      v.limit_fits (omega (arith, v.once, allowed-rank c.state))

pub destroy-Follows : (c : Connection) → IsServing c → Follows c (destroy c)
unfolding destroy
destroy-Follows c v =
    late-Follows c _ (rank-top c.state) (omega arith) refl refl v.status_low v.status_high
      v.limit_fits (omega (arith, v.once, allowed-rank c.state))
