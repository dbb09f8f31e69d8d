-- ===== src/Sql/Config/Stored.antt =====
-- include/persistence/SqlConfig.hpp: a configuration that is stored as JSON is loaded again.
use Prim.Native.String.{String}
use cpp_reactor.Base.{
  ℕ, ◌<◌, ◌^◌, ◌≡◌, refl, Bool, true, false, Option, none, some, List, [], ◌∷◌, Bytes, codes, same,
  is_empty, if◌then◌else◌, arith, subst, ap,
}
use cpp_reactor.Sql.Config.{
  SqlConfig, validate, Json, Loaded, loaded, validated, converted, from_json, members, to_json,
  parsed, opened, load_sql_config_from_file_or_throw,
}
use cpp_reactor.Sql.Config.Checked.{IsValid, validate_iff}

module _ {J : Type 0} where
  abbrev pub member : Bytes → List (Bytes × J) → Option J
  member k [] = none
  member k ((n, j) ∷ ms) = if same n k then some j else member k ms

-- What the JSON library does: an object has the members that it was made of, and what is converted to
-- JSON is converted back if it fits the type.
pub record Converts {J : Type 0} (json : Json J) : Type 0 where
  pub at_object : (ms : List (Bytes × J)) (k : Bytes) → json.at (json.object ms) k ≡ member k ms
  pub string : (s : Bytes) → json.get_string (json.of_string s) ≡ some s
  pub uint16 : (n : ℕ) → n < 2 ^ 16 → json.get_uint16 (json.of_uint n) ≡ some n
  pub uint32 : (n : ℕ) → n < 2 ^ 32 → json.get_uint32 (json.of_uint n) ≡ some n
  pub bool : (b : Bool) → json.get_bool (json.of_bool b) ≡ some b

-- The members are within their types.
pub record Fits (c : SqlConfig) : Type 0 where
  pub port : c.port < 2 ^ 16
  pub connect_timeout : c.connect_timeout_ms < 2 ^ 32
  pub read_timeout : c.read_timeout_ms < 2 ^ 32
  pub write_timeout : c.write_timeout_ms < 2 ^ 32
  pub lifetime : c.max_conn_lifetime_ms < 2 ^ 32
  pub idle : c.max_conn_idle_ms < 2 ^ 32

module _ {J : Type 0} (json : Json J) (laws : Converts json) where
  -- A configuration whose members fit their types is what its JSON is converted to.
  pub from_json-to_json : (c : SqlConfig) → Fits c → from_json json (to_json json c) ≡ some c
  unfolding from_json to_json
  from_json-to_json c f =
      rw
        (
          laws.at_object (members json c) (codes "host"),
          laws.at_object (members json c) (codes "port"),
          laws.at_object (members json c) (codes "user"),
          laws.at_object (members json c) (codes "password"),
          laws.at_object (members json c) (codes "database"),
          laws.at_object (members json c) (codes "charset"),
          laws.at_object (members json c) (codes "connectTimeoutMs"),
          laws.at_object (members json c) (codes "readTimeoutMs"),
          laws.at_object (members json c) (codes "writeTimeoutMs"),
          laws.at_object (members json c) (codes "pingBeforeUse"),
          laws.at_object (members json c) (codes "maxConnLifetimeMs"),
          laws.at_object (members json c) (codes "maxConnIdleMs"),
          laws.at_object (members json c) (codes "readOnly"),
          laws.string c.host,
          laws.uint16 c.port f.port,
          laws.string c.user,
          laws.string c.password,
          laws.string c.database,
          laws.string c.charset,
          laws.uint32 c.connect_timeout_ms f.connect_timeout,
          laws.uint32 c.read_timeout_ms f.read_timeout,
          laws.uint32 c.write_timeout_ms f.write_timeout,
          laws.bool c.ping_before_use,
          laws.uint32 c.max_conn_lifetime_ms f.lifetime,
          laws.uint32 c.max_conn_idle_ms f.idle,
          laws.bool c.read_only,
        )
        refl

  validated_lem : (c : SqlConfig) (r : Bool × String) → r.0 ≡ true → validated c r ≡ loaded c
  validated_lem c (true, err) h = refl
  validated_lem c (false, err) h = absurd (ground arith)

  -- A file that holds the JSON of a valid configuration is loaded as that configuration.
  pub load-to_json :
      (read : Bytes → Option Bytes) (path raw : Bytes) (c : SqlConfig)
      → read path ≡ some raw
      → is_empty raw ≡ false
      → json.parse raw ≡ some (to_json json c)
      → Fits c
      → IsValid c
      → load_sql_config_from_file_or_throw json read path ≡ loaded c
  unfolding load_sql_config_from_file_or_throw
  load-to_json read path raw c r e p f v =
      rw (r, e, p, from_json-to_json c f) (validated_lem c (validate c) ((validate_iff c).1 v))

abbrev AllValid : Loaded → Type 0
AllValid (loaded c) = IsValid c
AllValid _ = Unit

validated_valid : (c : SqlConfig) (r : Bool × String) → validate c ≡ r → AllValid (validated c r)
validated_valid c (true, err) h = (validate_iff c).0 (ap (λ r. r.0) h)
validated_valid c (false, err) h = tt

converted_valid : (o : Option SqlConfig) → AllValid (converted o)
converted_valid none = tt
converted_valid (some c) = validated_valid c (validate c) refl

module _ {J : Type 0} (json : Json J) where
  parsed_valid : (o : Option J) → AllValid (parsed json o)
  parsed_valid none = tt
  parsed_valid (some j) = converted_valid (from_json json j)

  opened_valid : (o : Option Bytes) → AllValid (opened json o)
  opened_valid none = tt
  opened_valid (some []) = tt
  opened_valid (some (c ∷ cs)) = parsed_valid (json.parse (c ∷ cs))

  -- Whatever is in the file and however it is converted, what is loaded has passed the check.
  pub load-IsValid :
      (read : Bytes → Option Bytes) (path : Bytes) (c : SqlConfig)
      → load_sql_config_from_file_or_throw json read path ≡ loaded c
      → IsValid c
  unfolding load_sql_config_from_file_or_throw
  load-IsValid read path c h =
      let k : AllValid (loaded c) = subst AllValid h (opened_valid (read path)) in k
