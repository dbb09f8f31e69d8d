-- ===== src/Sql.antt =====
-- include/persistence/SqlTypes.hpp and ISqlConnection.hpp: what the parts of the SQL layer share.
-- A `double` is of a type `F`. A connection is a value of a type `D`, which its driver changes; the
-- operations of the interface are a record, which the parts that use a connection take.
pub mod Transaction
pub mod ThreadConn
pub mod Executor
pub mod Config
pub mod MySql
pub mod Repository
pub mod Tests
use cpp_reactor.Base.{ℕ, Bool, false, Option, none, List, [], Bytes, ℤ, pos}

pub data SqlErrc : Type 0 where
  ok connection query_failed timeout cancelled : SqlErrc

pub record SqlError : Type 0 where
  pub code : SqlErrc
  pub vendor_code : ℤ
  pub message : Bytes

-- The default member values.
abbrev pub no_error : SqlError
no_error = record { code = ok; vendor_code = pos 0; message = [] }

pub data SqlValue (F : Type 0) : Type 0 where
  null : SqlValue F
  uint64 : ℕ → SqlValue F
  int64 : ℤ → SqlValue F
  double : F → SqlValue F
  string : Bytes → SqlValue F

abbrev pub SqlRow : Type 0 → Type 0
SqlRow F = List (SqlValue F)

abbrev pub SqlRows : Type 0 → Type 0
SqlRows F = List (SqlRow F)

pub record Result (T : Type 0) : Type 0 where
  pub ok : Bool
  pub value : Option T
  pub err : SqlError

-- `Result<void>`.
pub record VoidResult : Type 0 where
  pub ok : Bool
  pub err : SqlError

-- The virtual functions of `ISqlConnection`.
pub record SqlConnection (F D : Type 0) : Type 0 where
  pub connect : D → VoidResult × D
  pub ping : D → VoidResult × D
  pub query : Bytes → List (SqlValue F) → D → Result (SqlRows F) × D
  pub execute : Bytes → List (SqlValue F) → D → Result ℕ × D
  pub close : D → D
  pub begin : D → VoidResult × D
  pub commit : D → VoidResult × D
  pub rollback : D → VoidResult × D
