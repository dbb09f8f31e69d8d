-- ===== src/Http/Router/Order.antt =====
-- The two rounds of `dispatch`, src/protocol/HttpRouter.cpp, and the order of the routes.
use cpp_reactor.Base.{
  ◌≡◌, refl, sym, ap, ◌∙◌, Bool, true, false, none, List, [], ◌∷◌, if◌then◌else◌,
}
use cpp_reactor.Http.Request.{HttpRequest}
use cpp_reactor.Connection.{HandlerResult}
use cpp_reactor.Http.Router.{
  RouteEntry, exact_match, prefix_match, dispatch_prefix, dispatch_found, dispatch_exact, dispatch,
}

abbrev pub exacts : List RouteEntry → List RouteEntry
exacts [] = []
exacts (e ∷ es) = if e.is_prefix then exacts es else e ∷ exacts es

abbrev pub prefixes : List RouteEntry → List RouteEntry
prefixes [] = []
prefixes (e ∷ es) = if e.is_prefix then e ∷ prefixes es else prefixes es

no_exact : (e : RouteEntry) (r : HttpRequest) → e.is_prefix ≡ true → exact_match e r ≡ none
unfolding exact_match
no_exact e r h = rw (h) refl

no_prefix : (e : RouteEntry) (r : HttpRequest) → e.is_prefix ≡ false → prefix_match e r ≡ false
unfolding prefix_match
no_prefix e r h = rw (h) refl

pick_exact :
    (b : Bool) (e : RouteEntry) (es : List RouteEntry) (r : HttpRequest)
    (o : HandlerResult × HttpRequest)
    → e.is_prefix ≡ b
    → dispatch_exact (e ∷ es) r o ≡ dispatch_exact (if b then es else e ∷ es) r o
unfolding dispatch_exact dispatch_found
pick_exact true e es r o h = rw (no_exact e r h) refl
pick_exact false e es r o h = refl

dispatch_exact-exacts :
    (es : List RouteEntry) (r : HttpRequest) (o : HandlerResult × HttpRequest)
    → dispatch_exact es r o ≡ dispatch_exact (exacts es) r o
unfolding dispatch_exact
dispatch_exact-exacts [] r o = refl
dispatch_exact-exacts (e ∷ es) r o =
    ap (dispatch_found e (exact_match e r) r) (dispatch_exact-exacts es r o)
    ∙ pick_exact e.is_prefix e (exacts es) r o refl

pick_prefix :
    (b : Bool) (e : RouteEntry) (es : List RouteEntry) (r : HttpRequest)
    → e.is_prefix ≡ b
    → dispatch_prefix (e ∷ es) r ≡ dispatch_prefix (if b then e ∷ es else es) r
unfolding dispatch_prefix
pick_prefix true e es r h = refl
pick_prefix false e es r h = rw (no_prefix e r h) refl

dispatch_prefix-prefixes :
    (es : List RouteEntry) (r : HttpRequest)
    → dispatch_prefix es r ≡ dispatch_prefix (prefixes es) r
unfolding dispatch_prefix
dispatch_prefix-prefixes [] r = refl
dispatch_prefix-prefixes (e ∷ es) r =
    ap (λ o. if prefix_match e r then e.handler r else o) (dispatch_prefix-prefixes es r)
    ∙ pick_prefix e.is_prefix e (prefixes es) r refl

dispatch-split :
    (es : List RouteEntry) (r : HttpRequest)
    → dispatch es r ≡ dispatch_exact (exacts es) r (dispatch_prefix (prefixes es) r)
unfolding dispatch
dispatch-split es r =
    dispatch_exact-exacts es r (dispatch_prefix es r)
    ∙ ap (dispatch_exact (exacts es) r) (dispatch_prefix-prefixes es r)

-- Two route tables that hold the same exact routes in the same order, and the same prefix routes in
-- the same order, answer every request in the same way: exact routes win over prefix routes however
-- the two kinds are mixed.
pub dispatch-exacts :
    (es fs : List RouteEntry) (r : HttpRequest)
    → exacts es ≡ exacts fs
    → prefixes es ≡ prefixes fs
    → dispatch es r ≡ dispatch fs r
dispatch-exacts es fs r h k =
    dispatch-split es r
    ∙ (λ i. dispatch_exact (h i) r (dispatch_prefix (k i) r))
    ∙ sym (dispatch-split fs r)
