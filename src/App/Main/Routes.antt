-- ===== src/App/Main/Routes.antt =====
-- src/app/main.cpp: which handler a request reaches.
use cpp_reactor.Base.{
  ℕ, ◌≡◌, refl, ap, ◌∙◌, Bool, true, false, ◌&&◌, ◌||◌, Option, none, some, List, [], ◌∷◌, Bytes,
  codes, same, lower, find, shift, find_from, ◌==◌, if◌then◌else◌, arith,
}
use cpp_reactor.Http.Request.{HttpRequest}
use cpp_reactor.Connection.{HandlerResult, Handler}
use cpp_reactor.Http.Router.{
  RouteEntry, add_route, get, add_prefix, split_path, split_loop, skip_slashes, segment_at,
  before_query, match_from, match_segments, takes_method, set_all, exact_match, at_start,
  prefix_match, not_found_result, dispatch_prefix, dispatch_found, dispatch_exact, dispatch,
}
use cpp_reactor.App.Main.{routes}

-- The path of the request has one segment, of this name.
abbrev pub is_alone : Bytes → List Bytes → Bool
is_alone name (u ∷ []) = same name u
is_alone name _ = false

-- A GET, in any case, of /query or /sql.
abbrev pub is_sql_request : HttpRequest → Bool
is_sql_request r =
    let segs = split_path r.url in
    same (codes "get") (lower r.method)
    && (is_alone (codes "query") segs || is_alone (codes "sql") segs)

abbrev pub starts_with_slash : Bytes → Bool
starts_with_slash [] = false
starts_with_slash (c ∷ cs) = b'/' == c

-- What the static handler answers, and what follows it.
abbrev pub static_answer : Handler → HttpRequest → HandlerResult × HttpRequest
static_answer static_handler r =
    if starts_with_slash r.url then static_handler r else (not_found_result, r)

abbrev pub answer : Option Handler → Handler → HttpRequest → HandlerResult × HttpRequest
answer none static_handler r = static_answer static_handler r
answer (some sql_handler) static_handler r =
    if is_sql_request r then sql_handler r else static_answer static_handler r

abbrev when : Bool → Option (List (Bytes × Bytes))
when b = if b then some [] else none

match_query :
    (us : List Bytes) → match_segments (codes "query" ∷ []) us ≡ when (is_alone (codes "query") us)
unfolding match_segments match_from
match_query [] = refl
match_query (u ∷ []) = refl
match_query (u ∷ v ∷ us) = ground arith

match_sql :
    (us : List Bytes) → match_segments (codes "sql" ∷ []) us ≡ when (is_alone (codes "sql") us)
unfolding match_segments match_from
match_sql [] = refl
match_sql (u ∷ []) = refl
match_sql (u ∷ v ∷ us) = ground arith

query_segments : split_path (codes "/query") ≡ codes "query" ∷ []
unfolding split_path split_loop skip_slashes segment_at before_query find find_from
query_segments = refl

sql_segments : split_path (codes "/sql") ≡ codes "sql" ∷ []
unfolding split_path split_loop skip_slashes segment_at before_query find find_from
sql_segments = refl

when-and : (b c : Bool) → (if b then when c else none) ≡ when (b && c)
when-and true c = refl
when-and false c = refl

-- The exact route of a name.
abbrev entry : Bytes → Handler → RouteEntry
entry pattern handler = record {
  method = codes "GET";
  pattern = pattern;
  is_prefix = false;
  handler = handler;
}

exact_route :
    (pattern name : Bytes) (h : Handler) (r : HttpRequest)
    → split_path pattern ≡ name ∷ []
    → match_segments (name ∷ []) (split_path r.url) ≡ when (is_alone name (split_path r.url))
    → exact_match (entry pattern h) r
      ≡ when (same (codes "get") (lower r.method) && is_alone name (split_path r.url))
unfolding exact_match takes_method
exact_route pattern name h r e m =
    rw (e, m) (when-and (same (codes "get") (lower r.method)) (is_alone name (split_path r.url)))

found-when :
    (b : Bool) (e : RouteEntry) (r : HttpRequest) (otherwise : HandlerResult × HttpRequest)
    → dispatch_found e (when b) r otherwise ≡ (if b then e.handler r else otherwise)
unfolding dispatch_found set_all
found-when true e r otherwise = refl
found-when false e r otherwise = refl

at_start-shift : (b : Bool) (o : Option ℕ) → at_start (if b && true then some 0 else shift o) ≡ b
unfolding at_start
at_start-shift true o = refl
at_start-shift false none = refl
at_start-shift false (some i) = refl

at_start-find : (url : Bytes) → at_start (find (codes "/") url) ≡ starts_with_slash url
unfolding find at_start
at_start-find [] = refl
at_start-find (c ∷ cs) = at_start-shift (b'/' == c) (find (codes "/") cs)

both :
    (A : Type 0) (g q s : Bool) (x y : A)
    → (if g && q then x else if g && s then x else y) ≡ (if g && (q || s) then x else y)
both A true true s x y = refl
both A true false s x y = refl
both A false q s x y = refl

-- A request goes to the SQL handler exactly if the SQL routes are enabled, its method is GET in
-- whichever case, and the segments of its path are `query` or `sql` alone; any other request goes to
-- the static handler if its target begins with a slash, and is answered with 404 if not.
pub dispatch-routes :
    (sql_handler : Option Handler) (static_handler : Handler) (r : HttpRequest)
    → dispatch (routes sql_handler static_handler) r ≡ answer sql_handler static_handler r
unfolding dispatch dispatch_exact dispatch_prefix dispatch_found routes get add_route add_prefix
    prefix_match exact_match
dispatch-routes none h r = ap (λ b. if b then h r else (not_found_result, r)) (at_start-find r.url)
dispatch-routes (some sql) h r =
    let g = same (codes "get") (lower r.method) in
    let q = is_alone (codes "query") (split_path r.url) in
    let s = is_alone (codes "sql") (split_path r.url) in
    let first = entry (codes "/query") sql in
    let second = entry (codes "/sql") sql in
    let last = dispatch_prefix (add_prefix (codes "/") h []) r in
    let other = dispatch_found second (exact_match second r) r last in
    ap (λ o. dispatch_found first o r other)
      (exact_route (codes "/query") (codes "query") sql r query_segments
        (match_query (split_path r.url)))
    ∙ found-when (g && q) first r other
    ∙ ap (λ o. if g && q then sql r else dispatch_found second o r last)
        (exact_route (codes "/sql") (codes "sql") sql r sql_segments (match_sql (split_path r.url)))
    ∙ ap (λ z. if g && q then sql r else z) (found-when (g && s) second r last)
    ∙ both (HandlerResult × HttpRequest) g q s (sql r) last
    ∙ ap (λ b. if is_sql_request r then sql r else if b then h r else (not_found_result, r))
        (at_start-find r.url)
