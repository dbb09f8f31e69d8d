-- ===== src/Http/Request/Spec.antt =====
-- The parser over plain byte strings, as the specification of the one over the network buffer.
use cpp_reactor.Base.{
  ℕ, zero, suc, ◌+◌, ◌-◌, ◌≤◌, ◌<◌, ◌≡◌, refl, sym, ap, ◌∙◌, subst, Bool, true, false, Option, none,
  some, List, [], ◌∷◌, ◌++◌, Bytes, length, take, drop, ltb, is_empty, ◌||◌, if◌then◌else◌, arith,
  find_bound, take_all, Bool-cases, inl, inr, tests, Option-cases, codes,
}
use cpp_reactor.Base
use cpp_reactor.Status.{StatusCode, ok}
use cpp_reactor.Buffer.{Buffer}
use cpp_reactor.Buffer
use cpp_reactor.Buffer.View.{Inv, view, readable-view}
use cpp_reactor.Buffer.Reads.{
  view-retrieve, retrieve-Inv, find-view, get_string_view_lem, retrieve_as_string_lem,
}
use cpp_reactor.Http.Request.{
  HttpRequest, RequestState, Source, buffer_source, crlf, blank_line, parse_line, head_loop,
  parse_head, parse_body, from_head, from_line, parse_in, parse, line_parts, header_parts,
  find_header, content_length, idle, parse_req_line, parse_req_headers, parse_req_body, parse_done,
  then_ok, max_body_bytes, line_read, line_found, Loop, head_read, head_round, head_ready,
  body_sized, body_found,
}

abbrev pub bytes_source : Source Bytes
bytes_source = record {
  readable_bytes = length;
  find = λ s p. Base.find p s;
  get_string_view = λ s n. take n s;
  retrieve = λ s n. drop n s;
  retrieve_as_string = λ s n. (take n s, drop n s);
}

-- The buffer is well formed and its unread bytes are `s`.
pub record Holds (b : Buffer) (s : Bytes) : Type 0 where
  pub inv : Inv b
  pub shows : view b ≡ s

-- The same code and request, and a buffer that holds the bytes left.
abbrev pub Same : StatusCode × HttpRequest × Buffer → StatusCode × HttpRequest × Bytes → Type 0
Same x y = (x.0 ≡ y.0) × (x.1 ≡ y.1) × Holds x.2 y.2

Holds-retrieve :
    (b : Buffer) (s : Bytes) (n : ℕ) → Holds b s → Holds (Buffer.retrieve b n) (drop n s)
Holds-retrieve b s n h = record {
  inv = retrieve-Inv b n h.inv;
  shows = view-retrieve b n h.inv ∙ ap (drop n) h.shows;
}

find-Holds : (b : Buffer) (s p : Bytes) → Holds b s → Buffer.find b p ≡ Base.find p s
find-Holds b s p h = find-view b p h.inv ∙ ap (Base.find p) h.shows

string-Holds :
    (b : Buffer) (s : Bytes) (n : ℕ)
    → Holds b s
    → n ≤ length s
    → Buffer.get_string_view b n ≡ take n s
string-Holds b s n h k =
    get_string_view_lem b n h.inv (omega (arith, ap length h.shows)) ∙ ap (take n) h.shows

readable-Holds : (b : Buffer) (s : Bytes) → Holds b s → Buffer.readable_bytes b ≡ length s
readable-Holds b s h = readable-view b h.inv ∙ ap length h.shows

-- At a place where a line end was found, the line itself.
line-Holds :
    (b : Buffer) (s p : Bytes) (n : ℕ)
    → Holds b s
    → Base.find p s ≡ some n
    → Buffer.get_string_view b n ≡ take n s
line-Holds b s p n h e = string-Holds b s n h (omega (arith, find_bound p s n e))

line_read-Same :
    (r : HttpRequest) (b : Buffer) (s : Bytes) (n : ℕ) (o : Option (Bytes × Bytes × Bytes))
    → Holds b s
    → Same (line_read buffer_source r b n o) (line_read bytes_source r s n o)
unfolding line_read
line_read-Same r b s n none h = (refl, refl, h)
line_read-Same r b s n (some (m, u, v)) h =
    elim (Bool-cases (is_empty m || is_empty u || is_empty v)) [
      | inl t ↦ rw t (refl, refl, h)
      | inr f ↦ rw f (refl, refl, Holds-retrieve b s (n + 2) h)
    ]

line_found-Same :
    (r : HttpRequest) (b : Buffer) (s : Bytes) (o : Option ℕ)
    → Holds b s
    → Base.find crlf s ≡ o
    → Same (line_found buffer_source r b o) (line_found bytes_source r s o)
unfolding line_found
line_found-Same r b s none h e = (refl, refl, h)
line_found-Same r b s (some n) h e =
    rw (line-Holds b s crlf n h e) (line_read-Same r b s n (line_parts (take n s)) h)

parse_line-Same :
    (r : HttpRequest) (b : Buffer) (s : Bytes)
    → Holds b s
    → Same (parse_line buffer_source r b) (parse_line bytes_source r s)
unfolding parse_line
parse_line-Same r b s h =
    rw (find-Holds b s crlf h) (line_found-Same _ b s (Base.find crlf s) h refl)

abbrev Follows : Loop buffer_source → Loop bytes_source → Type 0
Follows f g = (r : HttpRequest) (b : Buffer) (s : Bytes) → Holds b s → Same (f r b) (g r s)

head_read-Same :
    (f : Loop buffer_source) (g : Loop bytes_source) (r : HttpRequest) (b : Buffer) (s : Bytes)
    (o : Option (Bytes × Bytes))
    → Follows f g
    → Holds b s
    → Same (head_read buffer_source f r b o) (head_read bytes_source g r s o)
unfolding head_read
head_read-Same f g r b s none k h = (refl, refl, h)
head_read-Same f g r b s (some kv) k h = k _ b s h

head_round-Same :
    (f : Loop buffer_source) (g : Loop bytes_source) (r : HttpRequest) (b : Buffer) (s : Bytes)
    (o : Option ℕ)
    → Follows f g
    → Holds b s
    → Base.find crlf s ≡ o
    → Same (head_round buffer_source f r b o) (head_round bytes_source g r s o)
unfolding head_round
head_round-Same f g r b s none k h e = (refl, refl, h)
head_round-Same f g r b s (some zero) k h e = (refl, refl, Holds-retrieve b s 2 h)
head_round-Same f g r b s (some (suc i)) k h e =
    rw (line-Holds b s crlf (suc i) h e) (
      head_read-Same f g r _ _ (header_parts (take (suc i) s)) k (Holds-retrieve b s (suc i + 2) h))

head_loop-Same : (fuel : ℕ) → Follows (head_loop buffer_source fuel) (head_loop bytes_source fuel)
unfolding head_loop
head_loop-Same zero r b s h = (refl, refl, h)
head_loop-Same (suc fuel) r b s h =
    rw (find-Holds b s crlf h)
      (head_round-Same _ _ r b s (Base.find crlf s) (head_loop-Same fuel) h refl)

head_ready-Same :
    (r : HttpRequest) (b : Buffer) (s : Bytes) (o : Option ℕ)
    → Holds b s
    → Same (head_ready buffer_source r b o) (head_ready bytes_source r s o)
unfolding head_ready
head_ready-Same r b s none h = (refl, refl, h)
head_ready-Same r b s (some n) h =
    rw (readable-Holds b s h) (head_loop-Same (suc (length s)) r b s h)

parse_head-Same : Follows (parse_head buffer_source) (parse_head bytes_source)
unfolding parse_head
parse_head-Same r b s h =
    rw (find-Holds b s blank_line h) (head_ready-Same _ b s (Base.find blank_line s) h)

body_sized-Same :
    (r : HttpRequest) (b : Buffer) (s : Bytes) (o : Option ℕ)
    → Holds b s
    → Same (body_sized buffer_source r b o) (body_sized bytes_source r s o)
unfolding body_sized
body_sized-Same r b s none h = (refl, refl, h)
body_sized-Same r b s (some n) h = elim (Bool-cases (ltb max_body_bytes n)) [
  | inl t ↦ rw t (refl, refl, h)
  | inr f ↦ rw f (
      rw (readable-Holds b s h) (elim (Bool-cases (ltb (length s) n)) [
        | inl t ↦ rw t (refl, refl, h)
        | inr f ↦
            let (first, rest, i) = retrieve_as_string_lem b n h.inv in
            let e : (Buffer.retrieve_as_string b n).0 ≡ take n s = first ∙ ap (take n) h.shows in
            rw f (
              refl,
              (λ i. record r { body = e i; cur_state = parse_done }),
              record { inv = i; shows = rest ∙ ap (drop n) h.shows },
            )
      ]))
]

body_found-Same :
    (r : HttpRequest) (b : Buffer) (s : Bytes) (o : Option Bytes)
    → Holds b s
    → Same (body_found buffer_source r b o) (body_found bytes_source r s o)
unfolding body_found
body_found-Same r b s none h = (refl, refl, h)
body_found-Same r b s (some value) h = body_sized-Same r b s (content_length value) h

parse_body-Same : Follows (parse_body buffer_source) (parse_body bytes_source)
unfolding parse_body
parse_body-Same r b s h = body_found-Same _ b s (find_header (codes "Content-Length") r.headers) h

then_ok-Same :
    (f : Loop buffer_source) (g : Loop bytes_source) (x : StatusCode × HttpRequest × Buffer)
    (y : StatusCode × HttpRequest × Bytes)
    → Follows f g
    → Same x y
    → Same (then_ok buffer_source x f) (then_ok bytes_source y g)
then_ok-Same f g (c, r, b) (c', r', s) k (e, e', h) = rw (e, e') (go c')
  where
    go :
        (d : StatusCode)
        → Same (then_ok buffer_source (d, r', b) f) (then_ok bytes_source (d, r', s) g)
    go ok = k r' b s h
    go _ = (refl, refl, h)

from_head-Same : Follows (from_head buffer_source) (from_head bytes_source)
unfolding from_head
from_head-Same r b s h =
    then_ok-Same _ _ (parse_head buffer_source r b) (parse_head bytes_source r s)
      (λ r b s h. parse_body-Same _ b s h) (parse_head-Same r b s h)

from_line-Same : Follows (from_line buffer_source) (from_line bytes_source)
unfolding from_line
from_line-Same r b s h =
    then_ok-Same _ _ (parse_line buffer_source r b) (parse_line bytes_source r s)
      (λ r b s h. from_head-Same _ b s h) (parse_line-Same r b s h)

parse_in-Same : (q : RequestState) → Follows (parse_in buffer_source q) (parse_in bytes_source q)
unfolding parse_in
parse_in-Same idle r b s h = from_line-Same r b s h
parse_in-Same parse_req_line r b s h = from_line-Same r b s h
parse_in-Same parse_req_headers r b s h = from_head-Same r b s h
parse_in-Same parse_req_body r b s h = parse_body-Same r b s h
parse_in-Same _ r b s h = (refl, refl, h)

-- The parser on the network buffer does what the parser on its unread bytes does.
pub parse-Same : Follows (parse buffer_source) (parse bytes_source)
parse-Same r b s h = parse_in-Same r.cur_state r b s h

-- On a well-formed buffer the parser returns the code and the request that it returns on the unread
-- bytes alone, and leaves a well-formed buffer whose unread bytes are those left over.
pub parse-view :
    (r : HttpRequest) (b : Buffer)
    → Inv b
    → Same (parse buffer_source r b) (parse bytes_source r (view b))
parse-view r b v = parse-Same r b (view b) (record { inv = v; shows = refl })
