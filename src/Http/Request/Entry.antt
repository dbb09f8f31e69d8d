-- ===== src/Http/Request/Entry.antt =====
-- `parseRequest` of protocol/HttpRequest, the parser's entry point, over the network buffer; and the
-- path parameters that the router stores in a request.
use cpp_reactor.Base.{
  ◌≡◌, refl, sym, subst, Bool, false, Option, none, some, List, [], ◌∷◌, Bytes, length, codes, same,
  same_iff, ◌==◌, if◌then◌else◌, arith, Bool-cases, ◌⊎◌, inl, inr,
}
use cpp_reactor.Status.{StatusCode, ok, again, invalid, not_found, error}
use cpp_reactor.Buffer
use cpp_reactor.Buffer.{Buffer}
use cpp_reactor.Buffer.View.{Inv, view}
use mathlib.Core.Path.{subst₂}
use cpp_reactor.Http.Request.{
  HttpRequest, RequestState, parse, new, buffer_source, parse_req_line_failed,
  parse_req_headers_failed, parse_req_body_failed, parse_done,
}
use cpp_reactor.Http.Request.Spec.{parse-Same}
use cpp_reactor.Http.Request.RoundTrip.{Announces}
use cpp_reactor.Http.Request.Sound.{StateInv, HasLine, IsSound, parse-IsSound}

pub record ParseResult : Type 0 where
  pub code : StatusCode
  pub request : Option HttpRequest
  pub message : Bytes
  pub too_large : Bool

abbrev refused : StatusCode → Bytes → Bool → ParseResult
refused code message too_large = record {
  code = code;
  request = none;
  message = message;
  too_large = too_large;
}

-- The switch on the state after a call that did not complete the request.
pub failure : StatusCode → HttpRequest → RequestState → ParseResult
failure code r parse_req_line_failed = refused code (codes "invalid request line") false
failure code r parse_req_headers_failed = refused code (codes "invalid headers") false
failure code r parse_req_body_failed =
    refused code (if r.body_too_large then codes "body too large" else codes "invalid body")
      r.body_too_large
failure code r _ = refused code (codes "incomplete request") false

-- The request moves out of its holder when it is complete, and stays in it otherwise.
pub deliver : StatusCode × HttpRequest × Buffer → ParseResult × Option HttpRequest × Buffer
deliver (ok, r, b) =
    (record { code = ok; request = some r; message = codes "ok"; too_large = false }, none, b)
deliver (code, r, b) = (failure code r r.cur_state, some r, b)

-- The request that the holder has, or a new one.
abbrev pub held : Option HttpRequest → HttpRequest
held none = new
held (some r) = r

-- `parseRequest(data, inFlight)`: the result, the holder and the buffer after the call.
unfoldable pub parse_request :
    Buffer → Option HttpRequest → ParseResult × Option HttpRequest × Buffer
parse_request b holder =
    if Buffer.readable_bytes b == 0
    then (refused again (codes "empty request") false, holder, b)
    else deliver (parse buffer_source (held holder) b)

-- `pathParams_` as an association list, at most one entry for each key.
unfoldable pub get_param : Bytes → List (Bytes × Bytes) → Option Bytes
get_param key [] = none
get_param key ((k, v) ∷ ps) = if same k key then some v else get_param key ps

unfoldable pub set_param : Bytes → Bytes → List (Bytes × Bytes) → List (Bytes × Bytes)
set_param key value [] = (key, value) ∷ []
set_param key value ((k, v) ∷ ps) =
    if same k key then (key, value) ∷ ps else (k, v) ∷ set_param key value ps

unfoldable pub get_path_param : HttpRequest → Bytes → Option Bytes
unfolding get_param
get_path_param r key = get_param key r.path_params

unfoldable pub set_path_param : HttpRequest → Bytes → Bytes → HttpRequest
unfolding set_param
set_path_param r key value = record r { path_params = set_param key value r.path_params }

-- After a parameter is set, its name reads the value set, and every other name reads as before.
pub get_param-set_param :
    (key k v : Bytes) (ps : List (Bytes × Bytes))
    → get_param key (set_param k v ps) ≡ (if same k key then some v else get_param key ps)
unfolding get_param set_param
get_param-set_param key k v [] = refl
get_param-set_param key k v ((j, w) ∷ ps) =
    ground (arith, same_iff k key, same_iff j k, same_iff j key, get_param-set_param key k v ps)

-- The holder keeps a request that is sound in its state.
abbrev pub IsHolder : Option HttpRequest → Type 0
IsHolder none = Unit
IsHolder (some r) = StateInv r.cur_state r

-- A complete request: its line is there, and the body is as long as the headers say.
abbrev pub IsComplete : HttpRequest → Type 0
IsComplete r = HasLine r × Announces r.headers (length r.body) × (r.cur_state ≡ parse_done)

-- What a call returns and leaves: a complete request, moved out of its holder, or none with the
-- code for more input or for a bad request.
abbrev pub Delivered : ParseResult × Option HttpRequest × Buffer → Type 0
Delivered (result, holder, b) =
    Inv b
    × IsHolder holder
    × (((r : HttpRequest) × (result.request ≡ some r)
          × IsComplete r
          × (result.code ≡ ok)
          × (holder ≡ none))
        ⊎ ((result.request ≡ none) × ((result.code ≡ again) ⊎ (result.code ≡ invalid))))

failure-request :
    (c : StatusCode) (r : HttpRequest) (q : RequestState)
    → ((failure c r q).request ≡ none) × ((failure c r q).code ≡ c)
unfolding failure
failure-request c r parse_req_line_failed = (refl, refl)
failure-request c r _ = (refl, refl)

deliver-Delivered :
    (x : StatusCode × HttpRequest × Buffer) → Inv x.2 → IsSound x.0 x.1 → Delivered (deliver x)
unfolding deliver
deliver-Delivered (ok, r, b) i h =
    let done = subst (λ q. StateInv q r) h.agrees h.state in
    (i, tt, inl (r, refl, (done.0, done.1, h.agrees), refl, refl))
deliver-Delivered (again, r, b) i h =
    let (e, f) = failure-request again r r.cur_state in (i, h.state, inr (e, inl f))
deliver-Delivered (invalid, r, b) i h =
    let (e, f) = failure-request invalid r r.cur_state in (i, h.state, inr (e, inr f))
deliver-Delivered (not_found, r, b) i h = absurd h.agrees
deliver-Delivered (error, r, b) i h = absurd h.agrees

new-StateInv : (o : Option HttpRequest) → IsHolder o → StateInv (held o).cur_state (held o)
new-StateInv none h = tt
new-StateInv (some r) h = h

-- From a well-formed buffer and holder `parseRequest` leaves a well-formed buffer and holder. It
-- returns either `ok`, with a complete request and an empty holder, or `again` or `invalid`, with no
-- request.
pub parse_request-Delivered :
    (b : Buffer) (holder : Option HttpRequest)
    → Inv b
    → IsHolder holder
    → Delivered (parse_request b holder)
unfolding parse_request
parse_request-Delivered b holder i h = elim (Bool-cases (Buffer.readable_bytes b == 0)) [
  | inl e ↦ rw e (i, h, inr (refl, inl refl))
  | inr e ↦
      let r = held holder in
      let (c, q, left) = parse-Same r b (view b) (record { inv = i; shows = refl }) in
      let sound = parse-IsSound r (view b) (new-StateInv holder h) in
      rw e (
        deliver-Delivered (parse buffer_source r b) left.inv (subst₂ IsSound (sym c) (sym q) sound))
]
