-- ===== src/Http/Router.antt =====
-- include/protocol/HttpRouter.hpp and src/protocol/HttpRouter.cpp: the routes.
-- The path parameters of a match are an association list, as in `HttpRequest`; the source iterates
-- an unordered map of them, whose keys differ, so the order in which they are set shows nowhere.
pub mod Paths
pub mod Order
pub mod Match
use cpp_reactor.Base
use cpp_reactor.Base.{
  ℕ, zero, suc, ◌+◌, ◌≡◌, Bool, true, false, not, ◌&&◌, ◌||◌, Option, none, some, List, [], ◌∷◌,
  ◌++◌, Bytes, codes, same, is_empty, lower, length, take, drop, pos, ◌==◌, if◌then◌else◌,
}
use cpp_reactor.Http.Request.{HttpRequest}
use cpp_reactor.Http.Request.Entry.{set_param, set_path_param}
use cpp_reactor.Connection.{HandlerResult, Handler, default_result}

pub record RouteEntry : Type 0 where
  pub method : Bytes
  pub pattern : Bytes
  pub is_prefix : Bool
  pub handler : Handler

unfoldable pub add_route : Bytes → Bytes → Handler → List RouteEntry → List RouteEntry
add_route method pattern handler routes =
    routes
    ++ record { method = method; pattern = pattern; is_prefix = false; handler = handler } ∷ []

unfoldable pub get : Bytes → Handler → List RouteEntry → List RouteEntry
unfolding add_route
get pattern handler routes = add_route (codes "GET") pattern handler routes

unfoldable pub post : Bytes → Handler → List RouteEntry → List RouteEntry
unfolding add_route
post pattern handler routes = add_route (codes "POST") pattern handler routes

unfoldable pub put : Bytes → Handler → List RouteEntry → List RouteEntry
unfolding add_route
put pattern handler routes = add_route (codes "PUT") pattern handler routes

unfoldable pub del : Bytes → Handler → List RouteEntry → List RouteEntry
unfolding add_route
del pattern handler routes = add_route (codes "DELETE") pattern handler routes

unfoldable pub add_prefix : Bytes → Handler → List RouteEntry → List RouteEntry
add_prefix prefix handler routes =
    routes ++ record { method = []; pattern = prefix; is_prefix = true; handler = handler } ∷ []

-- The path without the query.
unfoldable pub before_query : Bytes → Option ℕ → Bytes
before_query path none = path
before_query path (some q) = take q path

unfoldable pub skip_slashes : Bytes → Bytes
skip_slashes [] = []
skip_slashes (c ∷ cs) = if c == b'/' then skip_slashes cs else c ∷ cs

-- The segment up to the next slash, and what is behind the slash.
unfoldable pub segment_at : Bytes → Option ℕ → Bytes × Bytes
segment_at s none = (s, [])
segment_at s (some end) = (take end s, drop (end + 1) s)

-- Each round takes at least one byte; the fuel is one more than the length of the path.
unfoldable pub split_loop : ℕ → Bytes → List Bytes
unfolding skip_slashes segment_at
split_loop zero s = []
split_loop (suc fuel) s =
    let t = skip_slashes s in
    let at = segment_at t (Base.find (b'/' ∷ []) t) in
    let rest = split_loop fuel at.1 in if is_empty t then [] else at.0 ∷ rest

unfoldable pub split_path : Bytes → List Bytes
unfolding before_query split_loop
split_path path =
    let stripped = before_query path (Base.find (b'?' ∷ []) path) in
    split_loop (suc (length stripped)) stripped

-- The parameters collected so far are the accumulator.
unfoldable pub match_from :
    List Bytes → List Bytes → List (Bytes × Bytes) → Option (List (Bytes × Bytes))
match_from [] [] params = some params
match_from [] (u ∷ us) params = none
match_from (p ∷ ps) [] params = none
match_from ([] ∷ ps) (u ∷ us) params = if same [] u then match_from ps us params else none
match_from ((c ∷ cs) ∷ ps) (u ∷ us) params =
    if c == b':'
    then match_from ps us (set_param cs u params)
    else if same (c ∷ cs) u
    then match_from ps us params
    else none

unfoldable pub match_segments : List Bytes → List Bytes → Option (List (Bytes × Bytes))
unfolding match_from
match_segments pattern_segs url_segs =
    if length pattern_segs == length url_segs then match_from pattern_segs url_segs [] else none

-- An empty method takes any.
unfoldable pub takes_method : Bytes → Bytes → Bool
takes_method wanted method = is_empty wanted || same (lower wanted) (lower method)

unfoldable pub set_all : List (Bytes × Bytes) → HttpRequest → HttpRequest
set_all [] r = r
set_all ((k, v) ∷ ps) r = set_all ps (set_path_param r k v)

unfoldable pub exact_match : RouteEntry → HttpRequest → Option (List (Bytes × Bytes))
unfolding takes_method split_path match_segments
exact_match entry r =
    if entry.is_prefix
    then none
    else if takes_method entry.method r.method
    then match_segments (split_path entry.pattern) (split_path r.url)
    else none

-- `url.find(pattern) == 0`.
unfoldable pub at_start : Option ℕ → Bool
at_start (some zero) = true
at_start _ = false

unfoldable pub prefix_match : RouteEntry → HttpRequest → Bool
unfolding takes_method at_start
prefix_match entry r =
    entry.is_prefix
    && takes_method entry.method r.method
    && at_start (Base.find entry.pattern r.url)

abbrev pub not_found_result : HandlerResult
not_found_result = record default_result {
  status_code = pos 404;
  reason_phrase = codes "Not Found";
  body = codes "Not Found\n";
}

-- The second round: the first prefix route that matches, or else 404.
unfoldable pub dispatch_prefix : List RouteEntry → HttpRequest → HandlerResult × HttpRequest
dispatch_prefix [] r = (not_found_result, r)
dispatch_prefix (entry ∷ rest) r =
    if prefix_match entry r then entry.handler r else dispatch_prefix rest r

-- The first round, over the routes that are left: the first exact route that matches.
unfoldable pub dispatch_found :
    RouteEntry
    → Option (List (Bytes × Bytes))
    → HttpRequest
    → HandlerResult × HttpRequest
    → HandlerResult × HttpRequest
dispatch_found entry none r otherwise = otherwise
dispatch_found entry (some params) r otherwise = entry.handler (set_all params r)

unfoldable pub dispatch_exact :
    List RouteEntry → HttpRequest → HandlerResult × HttpRequest → HandlerResult × HttpRequest
unfolding dispatch_found
dispatch_exact [] r otherwise = otherwise
dispatch_exact (entry ∷ rest) r otherwise =
    dispatch_found entry (exact_match entry r) r (dispatch_exact rest r otherwise)

unfoldable pub dispatch : List RouteEntry → HttpRequest → HandlerResult × HttpRequest
unfolding dispatch_exact dispatch_prefix
dispatch routes r = dispatch_exact routes r (dispatch_prefix routes r)
