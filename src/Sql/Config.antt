-- ===== src/Sql/Config.antt =====
-- include/persistence/SqlConfig.hpp and src/persistence/SqlConfig.cpp, and the loader of
-- include/utils/JsonConfigLoader.hpp and src/utils/JsonConfigLoader.cpp at this type. The JSON
-- library is a record of what is called of it, on a type `J`, with `none` for an exception; the file
-- is read by a function. An error carries the text that its message adds, without the path.
pub mod Checked
pub mod Stored
use Prim.Native.String.{String}
use cpp_reactor.Base.{
  ℕ, Bool, true, false, not, ◌&&◌, ◌||◌, Option, none, some, List, [], ◌∷◌, Bytes, codes, is_empty,
  is_space, ltb, ◌==◌, if◌then◌else◌,
}

pub record SqlConfig : Type 0 where
  pub host : Bytes
  pub port : ℕ
  pub user : Bytes
  pub password : Bytes
  pub database : Bytes
  pub charset : Bytes
  pub connect_timeout_ms : ℕ
  pub read_timeout_ms : ℕ
  pub write_timeout_ms : ℕ
  pub ping_before_use : Bool
  pub max_conn_lifetime_ms : ℕ
  pub max_conn_idle_ms : ℕ
  pub read_only : Bool

unfoldable pub is_blank : Bytes → Bool
is_blank [] = true
is_blank (c ∷ cs) = is_space c && is_blank cs

-- With the text that it leaves in `err`.
unfoldable pub validate : SqlConfig → Bool × String
unfolding is_blank
validate c =
    if is_blank c.host
    then (false, "host 不能为空")
    else if c.port == 0
    then (false, "port 必须在 1~65535 之间")
    else if is_blank c.user
    then (false, "user 不能为空")
    else if is_blank c.database
    then (false, "database 不能为空")
    else if is_blank c.charset
    then (false, "charset 不能为空")
    else if (c.connect_timeout_ms == 0 || c.read_timeout_ms == 0) || c.write_timeout_ms == 0
    then (false, "connect/read/write timeout 必须大于 0")
    else if c.max_conn_lifetime_ms == 0
    then (false, "maxConnLifetimeMs 必须大于 0")
    else if c.max_conn_idle_ms == 0
    then (false, "maxConnIdleMs 必须大于 0")
    else if ltb c.max_conn_lifetime_ms c.max_conn_idle_ms
    then (false, "maxConnIdleMs 不能大于 maxConnLifetimeMs")
    else (true, "")

-- `at`, the conversions from and to JSON, and `parse`.
pub record Json (J : Type 0) : Type 0 where
  pub at : J → Bytes → Option J
  pub get_string : J → Option Bytes
  pub get_uint16 : J → Option ℕ
  pub get_uint32 : J → Option ℕ
  pub get_bool : J → Option Bool
  pub object : List (Bytes × J) → J
  pub of_string : Bytes → J
  pub of_uint : ℕ → J
  pub of_bool : Bool → J
  pub parse : Bytes → Option J

infixl 5 ◌>>=◌
abbrev pub ◌>>=◌ {ℓ κ} : {A : Type ℓ} {B : Type κ} → Option A → (A → Option B) → Option B
none >>= f = none
some a >>= f = f a

pub data Loaded : Type 0 where
  loaded : SqlConfig → Loaded
  cannot_open : Loaded
  is_empty_file : Loaded
  parse_failed : Loaded
  not_a_config : Loaded
  invalid : String → Loaded

abbrev pub validated : SqlConfig → Bool × String → Loaded
validated c (true, err) = loaded c
validated c (false, err) = invalid err

abbrev pub converted : Option SqlConfig → Loaded
converted none = not_a_config
converted (some c) = validated c (validate c)

module _ {J : Type 0} (json : Json J) where
  unfoldable pub from_json : J → Option SqlConfig
  from_json j = do
    host ← json.at j (codes "host") >>= json.get_string
    port ← json.at j (codes "port") >>= json.get_uint16
    user ← json.at j (codes "user") >>= json.get_string
    password ← json.at j (codes "password") >>= json.get_string
    database ← json.at j (codes "database") >>= json.get_string
    charset ← json.at j (codes "charset") >>= json.get_string
    connect_timeout_ms ← json.at j (codes "connectTimeoutMs") >>= json.get_uint32
    read_timeout_ms ← json.at j (codes "readTimeoutMs") >>= json.get_uint32
    write_timeout_ms ← json.at j (codes "writeTimeoutMs") >>= json.get_uint32
    ping_before_use ← json.at j (codes "pingBeforeUse") >>= json.get_bool
    max_conn_lifetime_ms ← json.at j (codes "maxConnLifetimeMs") >>= json.get_uint32
    max_conn_idle_ms ← json.at j (codes "maxConnIdleMs") >>= json.get_uint32
    read_only ← json.at j (codes "readOnly") >>= json.get_bool
    some (record {
      host = host;
      port = port;
      user = user;
      password = password;
      database = database;
      charset = charset;
      connect_timeout_ms = connect_timeout_ms;
      read_timeout_ms = read_timeout_ms;
      write_timeout_ms = write_timeout_ms;
      ping_before_use = ping_before_use;
      max_conn_lifetime_ms = max_conn_lifetime_ms;
      max_conn_idle_ms = max_conn_idle_ms;
      read_only = read_only;
    })

  abbrev pub members : SqlConfig → List (Bytes × J)
  members c =
      (codes "host", json.of_string c.host)
      ∷ (codes "port", json.of_uint c.port)
      ∷ (codes "user", json.of_string c.user)
      ∷ (codes "password", json.of_string c.password)
      ∷ (codes "database", json.of_string c.database)
      ∷ (codes "charset", json.of_string c.charset)
      ∷ (codes "connectTimeoutMs", json.of_uint c.connect_timeout_ms)
      ∷ (codes "readTimeoutMs", json.of_uint c.read_timeout_ms)
      ∷ (codes "writeTimeoutMs", json.of_uint c.write_timeout_ms)
      ∷ (codes "pingBeforeUse", json.of_bool c.ping_before_use)
      ∷ (codes "maxConnLifetimeMs", json.of_uint c.max_conn_lifetime_ms)
      ∷ (codes "maxConnIdleMs", json.of_uint c.max_conn_idle_ms)
      ∷ (codes "readOnly", json.of_bool c.read_only)
      ∷ []

  unfoldable pub to_json : SqlConfig → J
  to_json c = json.object (members c)

  abbrev pub parsed : Option J → Loaded
  parsed none = parse_failed
  parsed (some j) = converted (from_json j)

  abbrev pub opened : Option Bytes → Loaded
  opened none = cannot_open
  opened (some raw) = if is_empty raw then is_empty_file else parsed (json.parse raw)

  -- `read` gives what is in a file that can be opened.
  unfoldable pub load_sql_config_from_file_or_throw : (Bytes → Option Bytes) → Bytes → Loaded
  unfolding from_json
  load_sql_config_from_file_or_throw read file_path = opened (read file_path)
