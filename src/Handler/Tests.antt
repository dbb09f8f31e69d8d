-- ===== src/Handler/Tests.antt =====
-- Concrete requests, drivers and file systems, and the theorems at them.
use cpp_reactor.Base.{
  ℕ, ◌≡◌, refl, Bool, true, false, some, List, [], ◌∷◌, ◌++◌, Bytes, codes, All, arith, drop, find,
  length,
}
use cpp_reactor.Url.{url_decode, url_encode_path_component}
use cpp_reactor.Http.Request.{HttpRequest, new}
use cpp_reactor.Connection.{HandlerResult}
use cpp_reactor.Sql.ThreadConn.{new_slot}
use cpp_reactor.Sql.Executor.{SqlExecutor}
use cpp_reactor.Handler.SqlHandler
use cpp_reactor.Handler.SqlHandler.{Json, Job, World, extract_sql_param}
use cpp_reactor.Handler.SqlHandler.Param.{more, extract_sql_param-url_encode_path_component}
use cpp_reactor.Handler.SqlHandler.Admission.{Decided, handle-Decided}
use cpp_reactor.Handler.StaticFile.{
  FileSystem, html_escape, normalize_url_path, is_within_root, is_denied_by_policy,
}
use cpp_reactor.Handler.StaticFile.Escape.{IsInert, html_escape-IsInert}
use cpp_reactor.Handler.StaticFile.Serving
use cpp_reactor.Handler.StaticFile.Serving.{IsServed, file_answer, handle-IsServed}

extract_sql_param-url_encode_path_component_example :
    extract_sql_param (
      codes "/q"
      ++ (codes "?sql=" ++ (url_encode_path_component (codes "a &") ++ more (some (codes "x=1")))))
    ≡ codes "a &"
extract_sql_param-url_encode_path_component_example =
    extract_sql_param-url_encode_path_component (codes "/q") (codes "a &") (some (codes "x=1"))
      ((λ e. ground (arith, e)), ((λ e. ground (arith, e)), tt))
      (omega arith, (omega arith, (omega arith, tt)))

-- JSON that is printed as its strings.
abbrev pub plain : Json ℕ Bytes
plain = record {
  null = [];
  of_uint = λ n. [];
  of_int = λ z. [];
  of_double = λ x. [];
  of_string = λ s. s;
  array = λ js. [];
  object = λ ms. [];
  dump = some;
  dump_indented = λ n j. some j;
}

abbrev busy : SqlExecutor (Job ℕ) (World ℕ Bool)
busy = record {
  world = record { slot = new_slot 0; readings = 0; posted = [] };
  running = true;
  stopping = false;
  is_working = true;
  job_queue = record { sql = codes "SELECT 1"; conn = 4 } ∷ [];
}

abbrev get_query : HttpRequest
get_query = record new { method = codes "GET"; url = codes "/sql?sql=SELECT%201" }

handle-Decided_example : Decided true get_query 7 busy (SqlHandler.handle true get_query 7 busy)
handle-Decided_example = handle-Decided true get_query 7 busy

html_escape-IsInert_example : All IsInert (html_escape (codes "<a>"))
html_escape-IsInert_example = html_escape-IsInert (codes "<a>")

-- A path is its elements, and each path is a file that holds `hi`.
abbrev files : FileSystem (List Bytes)
files = record {
  of_string = λ s. s ∷ [];
  relative_path = λ p. p;
  append = λ p q. p ++ q;
  parent_path = λ p. p;
  parts = λ p. p;
  equal = λ p q. false;
  filename = λ p. codes "f";
  extension = λ p. codes ".txt";
  generic_string = λ p. codes "f";
  weakly_canonical = some;
  relative = λ p root. some (drop (length root) p);
  entries = λ p. some [];
  entry_is_directory = λ p. false;
  exists = λ p. some true;
  is_directory = λ p. (false, false);
  read = λ p. some (codes "hi");
}

abbrev site : List Bytes
site = codes "srv" ∷ []

abbrev get_file : HttpRequest
get_file = record new { method = codes "GET"; url = codes "/f.txt?x" }

abbrev the_file : HandlerResult
the_file = file_answer (codes ".txt") (some (codes "hi"))

handle-IsServed_example : IsServed files site (normalize_url_path get_file.url) the_file
unfolding Serving.handle normalize_url_path find is_within_root is_denied_by_policy url_decode
handle-IsServed_example = handle-IsServed files site get_file the_file refl refl

abbrev some_entries : List (List Bytes)
some_entries = (codes "srv" ∷ codes "b" ∷ []) ∷ (codes "srv" ∷ codes ".git" ∷ []) ∷ []
