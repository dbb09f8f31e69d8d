-- ===== src/Sql/Config/Checked.antt =====
-- include/persistence/SqlConfig.hpp: which configurations pass the check.
use cpp_reactor.Base.{
  ℕ, ◌<◌, ◌⊎◌, ◌≤◌, ◌≡◌, ◌↔◌, Bool, true, false, ◌||◌, [], ◌∷◌, Bytes, is_space, ltb, ◌==◌, arith,
}
use cpp_reactor.Sql.Config.{SqlConfig, is_blank, validate}

-- Some byte is no white space.
abbrev pub HasText : Bytes → Type 0
HasText [] = ⊥
HasText (c ∷ cs) = (is_space c ≡ false) ⊎ HasText cs

is_blank_iff : (s : Bytes) → (is_blank s ≡ false) ↔ HasText s
unfolding is_blank
is_blank_iff [] = ground arith
is_blank_iff (c ∷ cs) = ground (arith, is_blank_iff cs)

-- What the documentation of the type asks for.
pub record IsValid (c : SqlConfig) : Type 0 where
  pub host : HasText c.host
  pub port : 0 < c.port
  pub user : HasText c.user
  pub database : HasText c.database
  pub charset : HasText c.charset
  pub connect_timeout : 0 < c.connect_timeout_ms
  pub read_timeout : 0 < c.read_timeout_ms
  pub write_timeout : 0 < c.write_timeout_ms
  pub lifetime : 0 < c.max_conn_lifetime_ms
  pub idle : 0 < c.max_conn_idle_ms
  pub idle_lifetime : c.max_conn_idle_ms ≤ c.max_conn_lifetime_ms

-- The tests of `validate`, in its order.
abbrev Passes : Bool → Bool → Bool → Bool → Bool → Bool → Bool → Bool → Bool → Type 0
Passes a b c d e f g h i =
    (a ≡ false)
    × (b ≡ false)
    × (c ≡ false)
    × (d ≡ false)
    × (e ≡ false)
    × (f ≡ false)
    × (g ≡ false)
    × (h ≡ false)
    × (i ≡ false)

validate-Passes :
    (c : SqlConfig)
    → ((validate c).0 ≡ true)
      ↔ Passes
          (is_blank c.host)
          (c.port == 0)
          (is_blank c.user)
          (is_blank c.database)
          (is_blank c.charset)
          ((c.connect_timeout_ms == 0 || c.read_timeout_ms == 0) || c.write_timeout_ms == 0)
          (c.max_conn_lifetime_ms == 0)
          (c.max_conn_idle_ms == 0)
          (ltb c.max_conn_lifetime_ms c.max_conn_idle_ms)
unfolding validate
validate-Passes c = ground arith

positive : (n : ℕ) → ((n == 0) ≡ false) ↔ (0 < n)
positive n = ground arith

all_positive :
    (a b c : ℕ) → (((a == 0 || b == 0) || c == 0) ≡ false) ↔ ((0 < a) × (0 < b) × (0 < c))
all_positive a b c = ground arith

not_above : (a b : ℕ) → (ltb a b ≡ false) ↔ (b ≤ a)
not_above a b = ground arith

validate-IsValid : (c : SqlConfig) → (validate c).0 ≡ true → IsValid c
validate-IsValid c h =
    let (host, port, user, database, charset, timeouts, lifetime, idle, both) =
      (validate-Passes c).0 h in
    let (a, b, d) =
      (all_positive c.connect_timeout_ms c.read_timeout_ms c.write_timeout_ms).0 timeouts in
    record {
      host = (is_blank_iff c.host).0 host;
      port = (positive c.port).0 port;
      user = (is_blank_iff c.user).0 user;
      database = (is_blank_iff c.database).0 database;
      charset = (is_blank_iff c.charset).0 charset;
      connect_timeout = a;
      read_timeout = b;
      write_timeout = d;
      lifetime = (positive c.max_conn_lifetime_ms).0 lifetime;
      idle = (positive c.max_conn_idle_ms).0 idle;
      idle_lifetime = (not_above c.max_conn_lifetime_ms c.max_conn_idle_ms).0 both;
    }

IsValid-validate : (c : SqlConfig) → IsValid c → (validate c).0 ≡ true
IsValid-validate c v = (validate-Passes c).1 (
  (is_blank_iff c.host).1 v.host,
  (positive c.port).1 v.port,
  (is_blank_iff c.user).1 v.user,
  (is_blank_iff c.database).1 v.database,
  (is_blank_iff c.charset).1 v.charset,
  (all_positive c.connect_timeout_ms c.read_timeout_ms c.write_timeout_ms).1
      (v.connect_timeout, v.read_timeout, v.write_timeout),
  (positive c.max_conn_lifetime_ms).1 v.lifetime,
  (positive c.max_conn_idle_ms).1 v.idle,
  (not_above c.max_conn_lifetime_ms c.max_conn_idle_ms).1 v.idle_lifetime,
)

-- The check passes exactly the configurations that the documentation of the type allows: host, user,
-- database and charset have a byte that is no white space, the port, the three timeouts, the lifetime
-- and the idle time are positive, and the idle time is no longer than the lifetime.
pub validate_iff : (c : SqlConfig) → ((validate c).0 ≡ true) ↔ IsValid c
validate_iff c = (validate-IsValid c, IsValid-validate c)
