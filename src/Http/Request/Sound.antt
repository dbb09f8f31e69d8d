-- ===== src/Http/Request/Sound.antt =====
-- The states of the parser of src/protocol/HttpRequest.cpp, and the codes that it returns.
use cpp_reactor.Base.{
  ℕ, zero, suc, ◌≤◌, ◌≡◌, ◌≢◌, refl, subst, false, Option, none, some, [], Bytes, length, take,
  drop, ◌+◌, ltb, arith, length-take, tests, codes, is_empty, ◌||◌, Bool-cases, inl, inr, find,
}
use cpp_reactor.Status.{StatusCode, ok, again, invalid, not_found, error}
use cpp_reactor.Http.Request.{
  HttpRequest, RequestState, crlf, blank_line, line_read, line_found, parse_line, head_read,
  head_round, head_loop, head_ready, parse_head, body_sized, body_found, parse_body, from_head,
  from_line, parse_in, parse, line_parts, header_parts, find_header, content_length, idle,
  parse_req_line, parse_req_line_failed, parse_req_headers, parse_req_headers_failed,
  parse_req_body, parse_req_body_failed, parse_done, then_ok, max_body_bytes,
}
use cpp_reactor.Http.Request.Spec.{bytes_source}
use cpp_reactor.Http.Request.Chunks.{Outcome, Resumes, parse-Resumes}
use cpp_reactor.Http.Request.RoundTrip.{Announces, unsaid, said}

-- The three parts of the request line are there.
abbrev pub HasLine : HttpRequest → Type 0
HasLine r = (is_empty r.method ≡ false) × (is_empty r.url ≡ false) × (is_empty r.version ≡ false)

abbrev pub StateInv : RequestState → HttpRequest → Type 0
StateInv parse_req_headers r = HasLine r
StateInv parse_req_headers_failed r = HasLine r
StateInv parse_req_body r = HasLine r
StateInv parse_req_body_failed r = HasLine r
StateInv parse_done r = HasLine r × Announces r.headers (length r.body)
StateInv _ r = Unit

abbrev pub IsFailed : RequestState → Type 0
IsFailed parse_req_line_failed = Unit
IsFailed parse_req_headers_failed = Unit
IsFailed parse_req_body_failed = Unit
IsFailed _ = ⊥

abbrev pub IsWaiting : RequestState → Type 0
IsWaiting parse_req_line = Unit
IsWaiting parse_req_headers = Unit
IsWaiting parse_req_body = Unit
IsWaiting _ = ⊥

abbrev pub Agrees : StatusCode → RequestState → Type 0
Agrees ok q = q ≡ parse_done
Agrees again q = IsWaiting q
Agrees invalid q = IsFailed q
Agrees not_found q = ⊥
Agrees error q = ⊥

pub record IsSound (c : StatusCode) (r : HttpRequest) : Type 0 where
  pub state : StateInv r.cur_state r
  pub agrees : Agrees c r.cur_state

-- A stage that hands over to the next one, in a request with a line.
abbrev Passes : RequestState → Outcome → Type 0
Passes q (ok, r, s) = HasLine r × (r.cur_state ≡ q)
Passes q (error, r, s) = Unit
Passes q (c, r, s) = IsSound c r

line_read-Passes :
    (r : HttpRequest) (s : Bytes) (n : ℕ) (o : Option (Bytes × Bytes × Bytes))
    → r.cur_state ≡ parse_req_line
    → Passes parse_req_line (line_read bytes_source r s n o)
unfolding line_read
line_read-Passes r s n none e = record { state = tt; agrees = tt }
line_read-Passes r s n (some (m, u, v)) e =
    elim (Bool-cases (is_empty m || is_empty u || is_empty v)) [
      | inl b ↦ rw b (record { state = tt; agrees = tt })
      | inr b ↦ rw b ((ground arith, ground arith, ground arith), e)
    ]

line_found-Passes :
    (r : HttpRequest) (s : Bytes) (o : Option ℕ)
    → Passes parse_req_line (line_found bytes_source (record r { cur_state = parse_req_line }) s o)
unfolding line_found
line_found-Passes r s none = record { state = tt; agrees = tt }
line_found-Passes r s (some n) = line_read-Passes _ s n (line_parts (take n s)) refl

head_round-Passes :
    (k : HttpRequest → Bytes → Outcome) (r : HttpRequest) (s : Bytes) (o : Option ℕ)
    → ((r : HttpRequest) (s : Bytes)
        → HasLine r
        → r.cur_state ≡ parse_req_headers
        → Passes parse_req_headers (k r s))
    → HasLine r
    → r.cur_state ≡ parse_req_headers
    → Passes parse_req_headers (head_round bytes_source k r s o)
unfolding head_round head_read
head_round-Passes k r s none f h e = record { state = rw e h; agrees = rw e tt }
head_round-Passes k r s (some zero) f h e = (h, e)
head_round-Passes k r s (some (suc i)) f h e = go (header_parts (take (suc i) s))
  where
    go :
        (o : Option (Bytes × Bytes))
        → Passes parse_req_headers (head_read bytes_source k r (drop (suc i + 2) s) o)
    go none = record { state = h; agrees = tt }
    go (some kv) = f _ _ h e

head_loop-Passes :
    (fuel : ℕ) (r : HttpRequest) (s : Bytes)
    → HasLine r
    → r.cur_state ≡ parse_req_headers
    → Passes parse_req_headers (head_loop bytes_source fuel r s)
unfolding head_loop
head_loop-Passes zero r s h e = tt
head_loop-Passes (suc f) r s h e =
    head_round-Passes _ r s (find crlf s) (λ r s. head_loop-Passes f r s) h e

head_ready-Passes :
    (r : HttpRequest) (s : Bytes) (o : Option ℕ)
    → HasLine r
    → Passes parse_req_headers
        (head_ready bytes_source (record r { cur_state = parse_req_headers }) s o)
unfolding head_ready
head_ready-Passes r s none h = record { state = h; agrees = tt }
head_ready-Passes r s (some n) h = head_loop-Passes _ _ s h refl

-- At the end only the end of the fuel is left open.
abbrev Ends : Outcome → Type 0
Ends (error, r, s) = Unit
Ends (c, r, s) = IsSound c r

body_sized-Ends :
    (r : HttpRequest) (s : Bytes) (o : Option ℕ)
    → HasLine r
    → r.cur_state ≡ parse_req_body
    → ((n : ℕ) → o ≡ some n → n ≤ max_body_bytes → Announces r.headers n)
    → Ends (body_sized bytes_source r s o)
unfolding body_sized
body_sized-Ends r s none h e a = record { state = h; agrees = tt }
body_sized-Ends r s (some n) h e a = elim (Bool-cases (ltb max_body_bytes n)) [
  | inl big ↦ rw big (record { state = h; agrees = tt })
  | inr fits ↦ rw fits (elim (Bool-cases (ltb (length s) n)) [
    | inl short ↦ rw short (record { state = rw e h; agrees = rw e tt })
    | inr full ↦
        let l : n ≡ length (take n s) = omega (tests, full, length-take n s) in
        rw full (record {
          state = (h, subst (Announces r.headers) l (a n refl (omega (tests, fits))));
          agrees = refl;
        })
  ])
]

body_found-Ends :
    (r : HttpRequest) (s : Bytes) (o : Option Bytes)
    → HasLine r
    → r.cur_state ≡ parse_req_body
    → find_header (codes "Content-Length") r.headers ≡ o
    → Ends (body_found bytes_source r s o)
unfolding body_found
body_found-Ends r s none h e a = record { state = (h, unsaid a); agrees = refl }
body_found-Ends r s (some v) h e a =
    body_sized-Ends r s (content_length v) h e (λ n c l. said a c l)

parse_body-Ends : (r : HttpRequest) (s : Bytes) → HasLine r → Ends (parse_body bytes_source r s)
unfolding parse_body
parse_body-Ends r s h =
    body_found-Ends (record r { cur_state = parse_req_body; body_too_large = false }) s _ h refl
      refl

then_ok-Ends :
    (q : RequestState) (x : Outcome) (k : HttpRequest → Bytes → Outcome)
    → Passes q x
    → ((r : HttpRequest) (s : Bytes) → HasLine r → Ends (k r s))
    → Ends (then_ok bytes_source x k)
then_ok-Ends q (ok, r, s) k h f = f r s h.0
then_ok-Ends q (error, r, s) k h f = tt
then_ok-Ends q (_, r, s) k h f = h

from_head-Ends : (r : HttpRequest) (s : Bytes) → HasLine r → Ends (from_head bytes_source r s)
unfolding from_head parse_head
from_head-Ends r s h =
    then_ok-Ends parse_req_headers _ _ (head_ready-Passes r s (find blank_line s) h)
      (λ r s h. parse_body-Ends (record r { cur_state = parse_req_body }) s h)

from_line-Ends : (r : HttpRequest) (s : Bytes) → Ends (from_line bytes_source r s)
unfolding from_line parse_line
from_line-Ends r s =
    then_ok-Ends parse_req_line _ _ (line_found-Passes r s (find crlf s))
      (λ r s h. from_head-Ends (record r { cur_state = parse_req_headers }) s h)

parse_in-Ends :
    (q : RequestState) (r : HttpRequest) (s : Bytes)
    → r.cur_state ≡ q
    → StateInv q r
    → Ends (parse_in bytes_source q r s)
unfolding parse_in
parse_in-Ends idle r s e h = from_line-Ends r s
parse_in-Ends parse_req_line r s e h = from_line-Ends r s
parse_in-Ends parse_req_headers r s e h = from_head-Ends r s h
parse_in-Ends parse_req_body r s e h = parse_body-Ends r s h
parse_in-Ends parse_done r s e h = record { state = rw e h; agrees = e }
parse_in-Ends _ r s e h = record { state = rw e h; agrees = rw e tt }

Resumes-fueled : (x y : Outcome) → Resumes [] x y → x.0 ≢ error
Resumes-fueled (again, r, s) y h = λ e. cc
Resumes-fueled (_, r, s) y h = h.1

-- From a request that holds what its state says, a call of the parser leaves such a request. The state it ends in goes
-- with the code: `ok` with a complete request, whose body is what the headers announce; `again`
-- with a state that waits; `invalid` with a failed state. No other code comes back.
pub parse-IsSound :
    (r : HttpRequest) (s : Bytes)
    → StateInv r.cur_state r
    → IsSound (parse bytes_source r s).0 (parse bytes_source r s).1
parse-IsSound r s h =
    close (parse bytes_source r s) (parse_in-Ends r.cur_state r s refl h)
      (Resumes-fueled _ _ (parse-Resumes [] r s))
  where
    close : (x : Outcome) → Ends x → x.0 ≢ error → IsSound x.0 x.1
    close (error, r, s) h n = absurd (n refl)
    close (_, r, s) h n = h
