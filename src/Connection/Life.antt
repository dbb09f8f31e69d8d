-- ===== src/Connection/Life.antt =====
-- The life of a connection, src/net/TcpConnection.cpp: its states, the requests that it serves, and
-- the DELETE tasks that it posts.
use cpp_reactor.Base.{
  ℕ, suc, ◌+◌, ◌^◌, ◌≤◌, ◌<◌, ◌≡◌, refl, sym, ap, subst, ◌∙◌, Bool, true, false, tests, List, [],
  ◌∷◌, ◌++◌, ℤ, pos, negsuc, if◌then◌else◌, arith,
}
use cpp_reactor.Loop.{ChannelOp, add_op, delete_op, modify_op}
use cpp_reactor.Connection.{
  State, connecting, connected, disconnecting, disconnected, Connection, post, status_or,
}

abbrev pub rank : State → ℕ
rank connecting = 0
rank connected = 1
rank disconnecting = 2
rank disconnected = 3

abbrev pub deletes : List (ChannelOp × ℤ) → ℕ
deletes [] = 0
deletes ((delete_op, fd) ∷ ts) = suc (deletes ts)
deletes ((_, fd) ∷ ts) = deletes ts

pub deletes-append : (xs ys : List (ChannelOp × ℤ)) → deletes (xs ++ ys) ≡ deletes xs + deletes ys
deletes-append [] ys = omega arith
deletes-append ((delete_op, fd) ∷ ts) ys = omega (arith, deletes-append ts ys)
deletes-append ((add_op, fd) ∷ ts) ys = deletes-append ts ys
deletes-append ((modify_op, fd) ∷ ts) ys = deletes-append ts ys

-- How many DELETE tasks a state allows.
abbrev pub allowed : State → ℕ
allowed connecting = 0
allowed connected = 0
allowed _ = 1

-- While the connection is up it has served fewer requests than its limit.
abbrev pub Quota : State → ℕ → ℕ → Type 0
Quota connected served limit = served < limit
Quota _ served limit = Unit

pub record IsServing (c : Connection) : Type 0 where
  pub status_low : 100 ≤ c.pending.status_code
  pub status_high : c.pending.status_code ≤ 599
  pub limit_fits : c.max_keep_alive_requests < 2 ^ 32
  pub within : Quota c.state c.served_requests c.max_keep_alive_requests
  pub once : deletes c.posted ≤ allowed c.state

-- What a handler may do to a connection: the state goes forward, and the limit stays.
pub record Follows (c d : Connection) : Type 0 where
  pub forward : rank c.state ≤ rank d.state
  pub limit : d.max_keep_alive_requests ≡ c.max_keep_alive_requests
  pub serving : IsServing d

-- A step that leaves the life cycle alone.
pub record Calm (c d : Connection) : Type 0 where
  pub same_state : d.state ≡ c.state
  pub same_limit : d.max_keep_alive_requests ≡ c.max_keep_alive_requests
  pub same_served : d.served_requests ≡ c.served_requests
  pub same_deletes : deletes d.posted ≡ deletes c.posted
  pub low : 100 ≤ d.pending.status_code
  pub high : d.pending.status_code ≤ 599

pub rank-top : (s : State) → rank s ≤ 3
rank-top connecting = omega arith
rank-top connected = omega arith
rank-top disconnecting = omega arith
rank-top disconnected = omega arith

Quota-same : {s t : State} {n m k l : ℕ} → t ≡ s → m ≡ n → l ≡ k → Quota s n k → Quota t m l
Quota-same p q r h = subst (λ x. x) (λ i. Quota (sym p i) (sym q i) (sym r i)) h

pub allowed-rank : (s : State) → allowed s ≤ 1
allowed-rank connecting = omega arith
allowed-rank connected = omega arith
allowed-rank disconnecting = omega arith
allowed-rank disconnected = omega arith

pub Calm-Follows : {c d : Connection} → IsServing c → Calm c d → Follows c d
Calm-Follows {c} {d} h k = record {
  forward = rw (k.same_state) omega arith;
  limit = k.same_limit;
  serving = record {
    status_low = k.low;
    status_high = k.high;
    limit_fits = omega (arith, k.same_limit, h.limit_fits);
    within = Quota-same k.same_state k.same_served k.same_limit h.within;
    once = rw (k.same_state, k.same_deletes) h.once;
  };
}

pub deletes-post_modify : (c : Connection) → deletes (post modify_op c).posted ≡ deletes c.posted
deletes-post_modify c = omega (arith, deletes-append c.posted ((modify_op, c.fd) ∷ []))

-- The same but for what `handleWrite` will send.
pub Calm-post :
    (c d : Connection)
    → d.state ≡ c.state
    → d.max_keep_alive_requests ≡ c.max_keep_alive_requests
    → d.served_requests ≡ c.served_requests
    → d.posted ≡ c.posted
    → 100 ≤ d.pending.status_code
    → d.pending.status_code ≤ 599
    → Calm c (post modify_op d)
Calm-post c d s m n p l h = record {
  same_state = s;
  same_limit = m;
  same_served = n;
  same_deletes = deletes-post_modify d ∙ ap deletes p;
  low = l;
  high = h;
}

pub status_or-low : (z : ℤ) (n : ℕ) → 100 ≤ n → 100 ≤ status_or z n
status_or-low (pos k) n h = grind (arith, tests)
status_or-low (negsuc k) n h = h

pub status_or-high : (z : ℤ) (n : ℕ) → n ≤ 599 → status_or z n ≤ 599
status_or-high (pos k) n h = grind (arith, tests)
status_or-high (negsuc k) n h = h

Quota-late : (s : State) (n m : ℕ) → 2 ≤ rank s → Quota s n m
Quota-late connecting n m h = absurd (omega (arith, h))
Quota-late connected n m h = absurd (omega (arith, h))
Quota-late disconnecting n m h = tt
Quota-late disconnected n m h = tt

allowed-late : (s : State) → 2 ≤ rank s → allowed s ≡ 1
allowed-late connecting h = absurd (omega (arith, h))
allowed-late connected h = absurd (omega (arith, h))
allowed-late disconnecting h = refl
allowed-late disconnected h = refl

pub Quota-lt : (s : State) (n m : ℕ) → n < m → Quota s n m
Quota-lt connecting n m h = tt
Quota-lt connected n m h = h
Quota-lt disconnecting n m h = tt
Quota-lt disconnected n m h = tt

-- On the way down, or down.
pub late-Follows :
    (c d : Connection)
    → rank c.state ≤ rank d.state
    → 2 ≤ rank d.state
    → d.pending ≡ c.pending
    → d.max_keep_alive_requests ≡ c.max_keep_alive_requests
    → 100 ≤ c.pending.status_code
    → c.pending.status_code ≤ 599
    → c.max_keep_alive_requests < 2 ^ 32
    → deletes d.posted ≤ 1
    → Follows c d
late-Follows c d r late p m f l h k = record {
  forward = r;
  limit = m;
  serving = record {
    status_low = rw (p) f;
    status_high = rw (p) l;
    limit_fits = rw (m) h;
    within = Quota-late d.state _ _ late;
    once = rw (allowed-late d.state late) k;
  };
}

-- Fields that the life cycle does not read may change before a calm step.
pub Calm-skip :
    (c c' d : Connection)
    → c'.state ≡ c.state
    → c'.max_keep_alive_requests ≡ c.max_keep_alive_requests
    → c'.served_requests ≡ c.served_requests
    → c'.posted ≡ c.posted
    → Calm c' d
    → Calm c d
Calm-skip c c' d s m n p k = record {
  same_state = k.same_state ∙ s;
  same_limit = k.same_limit ∙ m;
  same_served = k.same_served ∙ n;
  same_deletes = k.same_deletes ∙ ap deletes p;
  low = k.low;
  high = k.high;
}

unfoldable pub IsStatus : Connection → Type 0
IsStatus c = (100 ≤ c.pending.status_code) × (c.pending.status_code ≤ 599)

pub Calm-refl : (c : Connection) → IsStatus c → Calm c c
unfolding IsStatus
Calm-refl c (l, h) = record {
  same_state = refl;
  same_limit = refl;
  same_served = refl;
  same_deletes = refl;
  low = l;
  high = h;
}

pub if-Calm :
    (c : Connection) (b : Bool) {d e : Connection}
    → Calm c d
    → Calm c e
    → Calm c (if b then d else e)
if-Calm c true k l = k
if-Calm c false k l = l

pub if-Follows :
    (c : Connection) (b : Bool) {d e : Connection}
    → Follows c d
    → Follows c e
    → Follows c (if b then d else e)
if-Follows c true k l = k
if-Follows c false k l = l

pub Follows-trans : {c d e : Connection} → Follows c d → Follows d e → Follows c e
Follows-trans h k = record {
  forward = omega (arith, h.forward, k.forward);
  limit = k.limit ∙ h.limit;
  serving = k.serving;
}

pub Follows-skip :
    (c c' d : Connection)
    → rank c.state ≤ rank c'.state
    → c'.max_keep_alive_requests ≡ c.max_keep_alive_requests
    → Follows c' d
    → Follows c d
Follows-skip c c' d s m k = record {
  forward = omega (arith, s, k.forward);
  limit = k.limit ∙ m;
  serving = k.serving;
}
