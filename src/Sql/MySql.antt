-- ===== src/Sql/MySql.antt =====
-- include/persistence/MySqlConnection.hpp and src/persistence/MySqlConnection.cpp. The MySQL client
-- library is a record of what is called of it, on connections of a type `S`, result sets of a type `R`
-- and their rows of a type `W`; a call throws an exception, which is its `what`, or is done. That
-- `createStatement` gives no null pointer is checked where the source checks it.
pub mod Calls
pub mod Idle
pub mod Sessions
use cpp_reactor.Base.{
  ℕ, zero, suc, ◌+◌, ◌/◌, Bool, true, false, Option, none, some, List, [], ◌∷◌, ◌++◌, Bytes, codes,
  is_empty, ℤ, pos, if◌then◌else◌,
}
use cpp_reactor.Sql
use cpp_reactor.Sql.{
  SqlErrc, SqlError, SqlValue, SqlRow, SqlRows, Result, VoidResult, SqlConnection, no_error, null,
  uint64, int64, string,
}
use cpp_reactor.Sql.Config.{SqlConfig}

pub data Try (A : Type 0) : Type 0 where
  done : A → Try A
  thrown : Bytes → Try A

pub data OptionValue : Type 0 where
  text : Bytes → OptionValue
  number : ℕ → OptionValue
  flag : Bool → OptionValue

-- A call that binds an argument.
pub data Bound (F : Type 0) : Type 0 where
  set_null : Bound F
  set_int64 : ℤ → Bound F
  set_uint64 : ℕ → Bound F
  set_double : F → Bound F
  set_string : Bytes → Bound F

-- `sql::DataType`, of which the source names these.
pub data DataType : Type 0 where
  integer smallint tinyint bigint bit real double decimal varchar char longvarchar date timestamp
        time :
      DataType
  other_type : DataType

pub record Driver (F S R W : Type 0) : Type 0 where
  pub connect : List (Bytes × OptionValue) → Try (Option S)
  pub is_closed : S → Bool
  pub close : S → Try Unit × S
  pub set_auto_commit : Bool → S → Try Unit × S
  pub commit : S → Try Unit × S
  pub rollback : S → Try Unit × S
  pub create_statement : S → Try Bool × S
  pub execute_query : Bytes → S → Try R × S
  pub execute : Bytes → S → Try ℕ × S
  pub prepare_statement : Bytes → S → Try Bool × S
  pub execute_prepared_query : Bytes → List (ℕ × Bound F) → S → Try R × S
  pub execute_prepared : Bytes → List (ℕ × Bound F) → S → Try ℕ × S
  pub columns : R → List DataType
  pub rows : R → List W
  pub get_int64 : ℕ → W → Try ℤ
  pub get_uint64 : ℕ → W → Try ℕ
  pub get_double : ℕ → W → Try F
  pub get_string : ℕ → W → Try Bytes
  pub is_null : ℕ → W → Bool

module _ {F : Type 0} where
  abbrev pub bind_arg : SqlValue F → Bound F
  bind_arg null = set_null
  bind_arg (int64 z) = set_int64 z
  bind_arg (uint64 n) = set_uint64 n
  bind_arg (SqlValue.double x) = set_double x
  bind_arg (string s) = set_string s

  -- From the index `i` on, which counts from one.
  unfoldable pub bind_args : ℕ → List (SqlValue F) → List (ℕ × Bound F)
  bind_args i [] = []
  bind_args i (v ∷ vs) = (i, bind_arg v) ∷ bind_args (i + 1) vs

module _ {A B : Type 0} where
  abbrev pub map_try : (A → B) → Try A → Try B
  map_try f (done a) = done (f a)
  map_try f (thrown e) = thrown e

  abbrev pub then_try : Try A → (A → Try B) → Try B
  then_try (done a) f = f a
  then_try (thrown e) f = thrown e

module _ {F S R W : Type 0} (driver : Driver F S R W) where
  abbrev pub read_int64 : ℕ → W → Try (SqlValue F)
  read_int64 i w = map_try int64 (driver.get_int64 i w)

  abbrev pub read_double : ℕ → W → Try (SqlValue F)
  read_double i w = map_try SqlValue.double (driver.get_double i w)

  abbrev pub read_string : ℕ → W → Try (SqlValue F)
  read_string i w = map_try string (driver.get_string i w)

  unfoldable pub read_cell : DataType → ℕ → W → Try (SqlValue F)
  read_cell integer i w = read_int64 i w
  read_cell smallint i w = read_int64 i w
  read_cell tinyint i w = read_int64 i w
  read_cell bigint i w = read_int64 i w
  read_cell bit i w = map_try uint64 (driver.get_uint64 i w)
  read_cell real i w = read_double i w
  read_cell double i w = read_double i w
  read_cell decimal i w = read_double i w
  read_cell varchar i w = read_string i w
  read_cell char i w = read_string i w
  read_cell longvarchar i w = read_string i w
  read_cell date i w = read_string i w
  read_cell timestamp i w = read_string i w
  read_cell time i w = read_string i w
  read_cell other_type i w = if driver.is_null i w then done null else read_string i w

  -- From the column `i` on.
  unfoldable pub row_to_sql_row : ℕ → List DataType → W → Try (SqlRow F)
  unfolding read_cell
  row_to_sql_row i [] w = done []
  row_to_sql_row i (t ∷ ts) w =
      then_try (read_cell t i w) (λ v. map_try (◌∷◌ v) (row_to_sql_row (i + 1) ts w))

  unfoldable pub read_rows : List DataType → List W → Try (SqlRows F)
  unfolding row_to_sql_row
  read_rows ts [] = done []
  read_rows ts (w ∷ ws) =
      then_try (row_to_sql_row 1 ts w) (λ row. map_try (◌∷◌ row) (read_rows ts ws))

abbrev pub error_of : SqlErrc → Bytes → SqlError
error_of code message = record { code = code; vendor_code = pos 0; message = message }

abbrev pub success : VoidResult
success = record { ok = true; err = no_error }

abbrev pub failure : Bytes → VoidResult
failure message = record { ok = false; err = error_of SqlErrc.connection message }

module _ {T : Type 0} where
  abbrev pub value_of : T → Result T
  value_of v = record { ok = true; value = some v; err = no_error }

  abbrev pub failed : SqlErrc → Bytes → Result T
  failed code message = record { ok = false; value = none; err = error_of code message }

pub record MySqlConnection (S : Type 0) : Type 0 where
  pub cfg : SqlConfig
  pub conn : Option S

module _ {S : Type 0} where
  abbrev pub create : SqlConfig → MySqlConnection S
  create cfg = record { cfg = cfg; conn = none }

module _ {S T : Type 0} where
  abbrev pub put_conn : MySqlConnection S → T × S → T × MySqlConnection S
  put_conn m (r, c) = (r, record m { conn = some c })

module _ {F S R W : Type 0} (driver : Driver F S R W) where
  module _ {T : Type 0} where
    -- What an operation does where there is a connection that is not closed, and what it answers
    -- otherwise.
    abbrev pub on_conn : T → (S → T × S) → Option S → MySqlConnection S → T × MySqlConnection S
    on_conn absent f none m = (absent, m)
    on_conn absent f (some c) m = if driver.is_closed c then (absent, m) else put_conn m (f c)
