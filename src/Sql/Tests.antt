-- ===== src/Sql/Tests.antt =====
-- Concrete drivers, executors and configurations, and the theorems at them.
use cpp_reactor.Base.{
  ℕ, ◌↔◌, ◌≡◌, refl, ap, Bool, true, false, Option, none, some, List, [], ◌∷◌, ◌++◌, Bytes, codes,
  same, All, map, pos, if◌then◌else◌, inl, arith, ◌||◌,
}
use cpp_reactor.Sql.{SqlConnection, VoidResult, no_error}
use cpp_reactor.Sql.MySql.{Driver, done, thrown, MySqlConnection}
use cpp_reactor.Sql.MySql.Calls
use cpp_reactor.Sql.MySql.Calls.{my_sql}
use cpp_reactor.Sql.MySql.Idle.{Modes, IsIdle, destroy-IsIdle}
use cpp_reactor.Sql.Transaction.{
  Call, EndsTransactions, begin, commit, execute, destroy, call, calls, commits, executes,
  rollback_fails, destroy-calls, rolls_back, rollback,
}
use cpp_reactor.Sql.ThreadConn.{ConnOptions, new_slot}
use cpp_reactor.Sql.ThreadConn.Uses.{seen}
use cpp_reactor.Sql.MySql.Sessions.{Visit, queries, begins, HasSession, to_use, seen-sessions}
use cpp_reactor.Sql.MySql.Sessions
use cpp_reactor.Sql.Executor.{SqlExecutor}
use cpp_reactor.Sql.Executor.Drain.{
  Event, submits, requests_stop, works, happen_all, run_all, IsDrained, happen_all-IsDrained,
}
use cpp_reactor.Sql.Repository.{Lookup, World, run_lookup, clean_up}
use cpp_reactor.Sql.Config.{
  SqlConfig, Json, loaded, to_json, load_sql_config_from_file_or_throw, validate,
}
use cpp_reactor.Sql.Config.Checked.{IsValid, validate_iff}
use cpp_reactor.Sql.Config.Stored.{member, Converts, Fits, load-to_json}

abbrev good : VoidResult
good = record { ok = true; err = no_error }

abbrev bad : VoidResult
bad = record { ok = false; err = no_error }

abbrev is_opening : Bytes → Bool
is_opening sql = same sql (codes "START TRANSACTION")

abbrev IsPlain : Bytes → Type 0
IsPlain sql = is_opening sql ≡ false

-- A connection is `true` while a transaction is open, and one statement opens it. No commit succeeds.
abbrev stubborn : SqlConnection ℕ Bool
stubborn = record {
  connect = λ d. (good, false);
  ping = λ d. (good, d);
  query = λ sql args d. (record { ok = true; value = some []; err = no_error }, d);
  execute =
      λ sql args d. (record { ok = true; value = some 1; err = no_error }, is_opening sql || d);
  close = λ d. false;
  begin = λ d. (good, true);
  commit = λ d. (bad, d);
  rollback = λ d. (good, false);
}

stubborn-EndsTransactions : EndsTransactions stubborn (λ d. d ≡ false) IsPlain
stubborn-EndsTransactions = record {
  begin_failed = λ d i h. absurd (ground (arith, h));
  committed = λ d h. absurd (ground (arith, h));
  commit_idle = λ d h. h;
  rolled_back = λ d h. refl;
  query_idle = λ sql args d p h. h;
  execute_idle = λ sql args d p h. ground (arith, p, h);
}

-- The last statement comes when the transaction is over.
abbrev deletes : List (Call ℕ)
deletes =
    executes (codes "DELETE FROM t") []
    ∷ commits
    ∷ rolls_back
    ∷ executes (codes "DELETE FROM t") []
    ∷ []

destroy-calls_example : destroy stubborn (calls stubborn deletes (begin stubborn false)) ≡ false
unfolding rollback_fails call begin commit rollback execute
destroy-calls_example =
    destroy-calls stubborn (λ d. d ≡ false) IsPlain stubborn-EndsTransactions deletes false refl
      ((λ o. refl), (tt, (tt, ((λ o. refl), tt)))) refl

abbrev options : ConnOptions
options = record { ping_before_use = false; max_conn_lifetime_ms = 9; max_conn_idle_ms = 1 }

-- Jobs are numbers, and the work is the list of those that ran.
abbrev note : ℕ → List ℕ → List ℕ
note n ns = ns ++ n ∷ []

abbrev same_work : List ℕ → List ℕ
same_work ns = ns

abbrev busy : SqlExecutor ℕ (List ℕ)
busy = record {
  world = [];
  running = true;
  stopping = false;
  is_working = true;
  job_queue = 4 ∷ [];
}

abbrev some_events : List (Event ℕ)
some_events = submits 5 ∷ works ∷ requests_stop ∷ submits 6 ∷ []

abbrev stopped : SqlExecutor ℕ (List ℕ)
stopped = record busy { running = false; stopping = true }

happen_all-IsDrained_example :
    IsDrained note same_work
      (happen_all note same_work (works ∷ submits 6 ∷ works ∷ []) stopped)
      (run_all note same_work (4 ∷ []) [])
happen_all-IsDrained_example =
    happen_all-IsDrained note same_work (works ∷ submits 6 ∷ works ∷ []) stopped refl refl
      (omega arith)

mutual
  data Value : Type 0 where
    text : Bytes → Value
    number : ℕ → Value
    flag : Bool → Value
    object : Members → Value

  data Members : Type 0 where
    no_members : Members
    more_members : Bytes → Value → Members → Members

abbrev to_members : List (Bytes × Value) → Members
to_members [] = no_members
to_members ((k, v) ∷ ms) = more_members k v (to_members ms)

abbrev find_member : Members → Bytes → Option Value
find_member no_members k = none
find_member (more_members n v ms) k = if same n k then some v else find_member ms k

abbrev values : Json Value
values = record {
  at = λ v k. elim v [ object ms ↦ find_member ms k | _ ↦ none ];
  get_string = λ v. elim v [ text s ↦ some s | _ ↦ none ];
  get_uint16 = λ v. elim v [ number n ↦ some n | _ ↦ none ];
  get_uint32 = λ v. elim v [ number n ↦ some n | _ ↦ none ];
  get_bool = λ v. elim v [ flag b ↦ some b | _ ↦ none ];
  object = λ ms. object (to_members ms);
  of_string = text;
  of_uint = number;
  of_bool = flag;
  parse = λ s. none;
}

find_member-to_members :
    (ms : List (Bytes × Value)) (k : Bytes) → find_member (to_members ms) k ≡ member k ms
find_member-to_members [] k = refl
find_member-to_members ((n, v) ∷ ms) k =
    ap (λ o. if same n k then some v else o) (find_member-to_members ms k)

abbrev pub config : SqlConfig
config = record {
  host = codes "db";
  port = 3306;
  user = codes "u";
  password = [];
  database = codes "d";
  charset = codes "utf8mb4";
  connect_timeout_ms = 1;
  read_timeout_ms = 2;
  write_timeout_ms = 3;
  ping_before_use = true;
  max_conn_lifetime_ms = 9;
  max_conn_idle_ms = 9;
  read_only = true;
}

-- A parser that knows one file.
abbrev one_file : Json Value
one_file = record values { parse = λ s. some (to_json values config) }

one_file-Converts : Converts one_file
one_file-Converts = record {
  at_object = find_member-to_members;
  string = λ s. refl;
  uint16 = λ n h. refl;
  uint32 = λ n h. refl;
  bool = λ b. refl;
}

config-IsValid : IsValid config
config-IsValid = record {
  host = inl refl;
  port = omega arith;
  user = inl refl;
  database = inl refl;
  charset = inl refl;
  connect_timeout = omega arith;
  read_timeout = omega arith;
  write_timeout = omega arith;
  lifetime = omega arith;
  idle = omega arith;
  idle_lifetime = omega arith;
}

config-Fits : Fits config
config-Fits = record {
  port = omega arith;
  connect_timeout = omega arith;
  read_timeout = omega arith;
  write_timeout = omega arith;
  lifetime = omega arith;
  idle = omega arith;
}

load-to_json_example :
    load_sql_config_from_file_or_throw one_file (λ path. some path) (codes "sql.json")
    ≡ loaded config
unfolding to_json
load-to_json_example =
    load-to_json one_file one_file-Converts (λ path. some path) (codes "sql.json")
      (codes "sql.json") config refl refl refl config-Fits config-IsValid

validate_iff_example : ((validate config).0 ≡ true) ↔ IsValid config
validate_iff_example = validate_iff config

-- A connection is its mode, and one statement switches it off. Every commit throws.
abbrev pub modes_only : Driver ℕ Bool Unit Unit
modes_only = record {
  connect = λ os. done (some true);
  is_closed = λ c. false;
  close = λ c. (done tt, c);
  set_auto_commit = λ b c. (done tt, b);
  commit = λ c. (thrown (codes "lost"), c);
  rollback = λ c. (done tt, c);
  create_statement = λ c. (done true, c);
  execute_query = λ s c. (done tt, c);
  execute = λ s c. (done 1, if same s (codes "SET autocommit=0") then false else c);
  prepare_statement = λ s c. (done true, c);
  execute_prepared_query = λ s bs c. (done tt, c);
  execute_prepared = λ s bs c. (done 1, c);
  columns = λ rs. [];
  rows = λ rs. [];
  get_int64 = λ i w. thrown [];
  get_uint64 = λ i w. thrown [];
  get_double = λ i w. thrown [];
  get_string = λ i w. thrown [];
  is_null = λ i w. true;
}

abbrev same_mode : Bool → Bool
same_mode b = b

abbrev KeepsMode : Bytes → Type 0
KeepsMode sql = same sql (codes "SET autocommit=0") ≡ false

modes_only-Modes : Modes modes_only same_mode KeepsMode
modes_only-Modes = record {
  set = λ b c. refl;
  commit = λ c. refl;
  rollback = λ c. refl;
  create_statement = λ c. refl;
  execute_query = λ s c p. refl;
  execute = λ s c p. ground (arith, p);
  prepare_statement = λ s c. refl;
  execute_prepared_query = λ s bs c p. refl;
  execute_prepared = λ s bs c p. refl;
}

abbrev my_conn : MySqlConnection Bool
my_conn = record { cfg = config; conn = some true }

abbrev delete_all : List (Call ℕ)
delete_all = executes (codes "DELETE FROM t") [] ∷ commits ∷ []

destroy-IsIdle_example : IsIdle modes_only same_mode KeepsMode modes_only-Modes (
    destroy
      (my_sql modes_only)
      (calls (my_sql modes_only) delete_all (begin (my_sql modes_only) my_conn)))
unfolding rollback_fails call begin commit execute Calls.begin Calls.commit Calls.execute
    Calls.rollback
destroy-IsIdle_example =
    destroy-IsIdle modes_only same_mode KeepsMode modes_only-Modes delete_all my_conn refl
      ((λ o. refl), (tt, tt)) refl

abbrev look_ups : List (Event (Lookup ℕ))
look_ups =
    submits (record { user_id = pos 7; done = 1 })
    ∷ works
    ∷ requests_stop
    ∷ submits (record { user_id = pos 8; done = 2 })
    ∷ []

abbrev waiting : SqlExecutor (Lookup ℕ) (World ℕ ℕ Bool)
waiting = record {
  world = record { slot = new_slot 0; readings = 0; called = [] };
  running = true;
  stopping = false;
  is_working = true;
  job_queue = [];
}

abbrev look_up : Lookup ℕ → World ℕ ℕ Bool → World ℕ ℕ Bool
look_up = run_lookup stubborn options (λ n. false) (λ n. n)

abbrev look_up_end : World ℕ ℕ Bool → World ℕ ℕ Bool
look_up_end = clean_up stubborn options (λ n. false) (λ n. n)

abbrev visits : List (Visit ℕ)
visits =
    record {
      now = 2_000_000;
      later = 2_000_000;
      statements = begins ∷ Sessions.executes (codes "DELETE FROM t") [] ∷ Sessions.commits ∷ [];
    }
    ∷ record { now = 5_000_000; later = 5_000_001; statements = queries (codes "SELECT 1") [] ∷ [] }
    ∷ []

abbrev unconnected : ℕ → MySqlConnection Bool
unconnected n = record { cfg = config; conn = none }

seen-sessions_example :
    (ds : List (MySqlConnection Bool)) × (seen
        (my_sql modes_only)
        options
        unconnected
        (map (to_use modes_only) visits)
        (new_slot 0)
      ≡ some ds)
    × All HasSession ds
seen-sessions_example =
    seen-sessions modes_only options unconnected visits 1_000_001 0
      (omega arith, omega arith, (omega arith, omega arith, tt)) (omega arith)
