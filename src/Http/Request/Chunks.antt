-- ===== src/Http/Request/Chunks.antt =====
-- The parser of src/protocol/HttpRequest.cpp on input that arrives in pieces.
use cpp_reactor.Base.{
  ℕ, zero, suc, ◌+◌, ◌≤◌, ◌<◌, ◌≡◌, ◌≢◌, ◌⊎◌, refl, sym, ap, ◌∙◌, true, false, Option, none, some,
  List, [], ◌∷◌, ◌++◌, append-nil, append_assoc, Bytes, length, take, drop, ltb, arith, find,
  find_bound, find-append_left, starts_with, take-append_left, drop-append_left, length-append,
  length-drop, Bool-cases, Option-cases, le→not-ltb, inl, inr, tests, codes, is_empty, ◌||◌,
}
use cpp_reactor.Status.{StatusCode, ok, again, error}
use cpp_reactor.Http.Request.{
  HttpRequest, RequestState, crlf, blank_line, line_read, line_found, parse_line, head_read,
  head_round, head_loop, head_ready, parse_head, body_sized, body_found, parse_body, from_head,
  from_line, parse_in, parse, line_parts, header_parts, find_header, content_length, idle,
  parse_req_line, parse_req_headers, parse_req_body, then_ok, max_body_bytes,
}
use cpp_reactor.Http.Request.Spec.{bytes_source}

abbrev pub Outcome : Type 0
Outcome = StatusCode × HttpRequest × Bytes

-- The same outcome with more bytes behind those left over.
abbrev extend : Bytes → Outcome → Outcome
extend t (c, r, s) = (c, r, s ++ t)

-- The loop over the headers finds a blank line: at once, or behind header lines.
abbrev Ends : Bytes → Type 0
Ends s = (starts_with crlf s ≡ true) ⊎ (find blank_line s ≢ none)

find-crlf_of_blank : (s : Bytes) → find blank_line s ≢ none → find crlf s ≢ none
unfolding find
find-crlf_of_blank [] h = ground arith
find-crlf_of_blank (a ∷ []) h = ground arith
find-crlf_of_blank (a ∷ b ∷ s) h = ground (arith, find-crlf_of_blank (b ∷ s))

Ends-find : (s : Bytes) → Ends s → find crlf s ≢ none
Ends-find s (inr h) = find-crlf_of_blank s h
Ends-find [] (inl h) = absurd (ground arith)
Ends-find (c ∷ s) (inl h) = unfold find in ground arith

-- Behind a header line there is still a blank line.
Ends-drop :
    (s : Bytes) (i : ℕ) → find crlf s ≡ some i → find blank_line s ≢ none → Ends (drop (i + 2) s)
unfolding find
Ends-drop [] i e h = absurd (ground arith)
Ends-drop (a ∷ []) i e h = absurd (ground arith)
Ends-drop (a ∷ b ∷ s) zero e h = elim (Bool-cases (starts_with crlf s)) [
  | inl t ↦ inl t
  | inr f ↦ inr (λ n. ground arith)
]
Ends-drop (a ∷ b ∷ s) (suc i) e h =
    let k : suc i + 2 ≡ suc (i + 2) = omega arith in
    rw k (Ends-drop (b ∷ s) i (ground arith) (ground arith))

crlf_first : (s : Bytes) (i : ℕ) → find crlf s ≡ some (suc i) → starts_with crlf s ≡ false
unfolding find
crlf_first [] i e = absurd (ground arith)
crlf_first (c ∷ s) i e = ground arith

Ends-next : (s : Bytes) (i : ℕ) → find crlf s ≡ some (suc i) → Ends s → Ends (drop (suc i + 2) s)
Ends-next s i e (inl h) = absurd (cc (crlf_first s i e))
Ends-next s i e (inr h) = Ends-drop s (suc i) e h

-- An outcome that more input does not change, but that the input is left over.
record Settled (t : Bytes) (x y : Outcome) : Type 0 where
  grows : y ≡ extend t x
  ended : x.0 ≢ again
  fueled : x.0 ≢ error

-- The line at a place where a line end was found, and what follows it.
line-append :
    (s t : Bytes) (i : ℕ)
    → find crlf s ≡ some i
    → (take i (s ++ t) ≡ take i s) × (drop (i + 2) (s ++ t) ≡ drop (i + 2) s ++ t)
line-append s t i e =
    let h = find_bound crlf s i e in
    (take-append_left i s t (omega arith), drop-append_left (i + 2) s t (omega arith))

head_read-Settled :
    (t : Bytes) (f g : HttpRequest → Bytes → Outcome) (r : HttpRequest) (s : Bytes)
    (o : Option (Bytes × Bytes))
    → ((r : HttpRequest) → Settled t (f r s) (g r (s ++ t)))
    → Settled t (head_read bytes_source f r s o) (head_read bytes_source g r (s ++ t) o)
unfolding head_read
head_read-Settled t f g r s none k = record { grows = refl; ended = λ e. cc; fueled = λ e. cc }
head_read-Settled t f g r s (some kv) k = k _

head_round-Settled :
    (t : Bytes) (f g : HttpRequest → Bytes → Outcome) (r : HttpRequest) (s : Bytes) (o : Option ℕ)
    → ((r : HttpRequest) (q : Bytes)
        → length q < length s
        → Ends q
        → Settled t (f r q) (g r (q ++ t)))
    → Ends s
    → find crlf s ≡ o
    → Settled t (head_round bytes_source f r s o) (head_round bytes_source g r (s ++ t) o)
unfolding head_round
head_round-Settled t f g r s none k w e = absurd (Ends-find s w e)
head_round-Settled t f g r s (some zero) k w e =
    rw ((line-append s t 0 e).1) (record { grows = refl; ended = λ e. cc; fueled = λ e. cc })
head_round-Settled t f g r s (some (suc i)) k w e =
    let (line, rest) = line-append s t (suc i) e in
    let shorter : length (drop (suc i + 2) s) < length s =
      omega (arith, length-drop (suc i + 2) s, find_bound crlf s (suc i) e) in
    rw (line, rest)
      (head_read-Settled t f g r (drop (suc i + 2) s) (header_parts (take (suc i) s))
        (λ r. k r (drop (suc i + 2) s) shorter (Ends-next s i e w)))

head_loop-Settled :
    (t : Bytes) (f g : ℕ) (r : HttpRequest) (s : Bytes)
    → length s < f
    → length (s ++ t) < g
    → Ends s
    → Settled t (head_loop bytes_source f r s) (head_loop bytes_source g r (s ++ t))
unfolding head_loop
head_loop-Settled t zero g r s h k w = elim h [ ]
head_loop-Settled t (suc f) zero r s h k w = elim k [ ]
head_loop-Settled t (suc f) (suc g) r s h k w = elim (Option-cases (find crlf s)) [
  | inl e ↦ absurd (Ends-find s w e)
  | inr (n, e) ↦
      rw (find-append_left crlf s t n e, e)
        (head_round-Settled t _ _ r s (some n)
          (λ r q l v.
            head_loop-Settled t f g r q (omega arith)
              (omega (arith, length-append q t, length-append s t)) v)
          w e)
]

-- Either a stage waits, and changes nothing but the state, or it settles.
parse_head-Settled :
    (t : Bytes) (r : HttpRequest) (s : Bytes) (n : ℕ)
    → find blank_line s ≡ some n
    → Settled t (parse_head bytes_source r s) (parse_head bytes_source r (s ++ t))
unfolding parse_head head_ready
parse_head-Settled t r s n e =
    rw (find-append_left blank_line s t n e, e)
      (head_loop-Settled t (suc (length s)) (suc (length (s ++ t))) _ s (omega arith) (omega arith)
        (inr (λ z. cc (e, z))))

line_read-Settled :
    (t : Bytes) (r : HttpRequest) (s : Bytes) (n : ℕ) (o : Option (Bytes × Bytes × Bytes))
    → find crlf s ≡ some n
    → Settled t (line_read bytes_source r s n o) (line_read bytes_source r (s ++ t) n o)
unfolding line_read
line_read-Settled t r s n none e = record { grows = refl; ended = λ e. cc; fueled = λ e. cc }
line_read-Settled t r s n (some (m, u, v)) e =
    elim (Bool-cases (is_empty m || is_empty u || is_empty v)) [
      | inl b ↦ rw b (record { grows = refl; ended = λ e. cc; fueled = λ e. cc })
      | inr b ↦
          rw (b, (line-append s t n e).1)
            (record { grows = refl; ended = λ e. cc; fueled = λ e. cc })
    ]

parse_line-Settled :
    (t : Bytes) (r : HttpRequest) (s : Bytes) (n : ℕ)
    → find crlf s ≡ some n
    → Settled t (parse_line bytes_source r s) (parse_line bytes_source r (s ++ t))
unfolding parse_line line_found
parse_line-Settled t r s n e =
    rw (find-append_left crlf s t n e, e)
      (rw ((line-append s t n e).0) (line_read-Settled t _ s n (line_parts (take n s)) e))

-- What an outcome says of the outcome `y` with `t` behind the input: a parser that waits goes on
-- to `y` when `t` arrives, and one that is done has left `t`.
abbrev pub Resumes : Bytes → Outcome → Outcome → Type 0
Resumes t (again, r, s) y = parse bytes_source r (s ++ t) ≡ y
Resumes t (c, r, s) y = (y ≡ (c, r, s ++ t)) × (c ≢ error)

Settled-Resumes : (t : Bytes) (x y : Outcome) → Settled t x y → Resumes t x y
Settled-Resumes t (again, r, s) y h = absurd (h.ended refl)
Settled-Resumes t (_, r, s) y h = (h.grows, h.fueled)

body_sized-Resumes :
    (t : Bytes) (r : HttpRequest) (s : Bytes) (o : Option ℕ)
    → body_sized bytes_source r (s ++ t) o ≡ parse bytes_source r (s ++ t)
    → Resumes t (body_sized bytes_source r s o) (body_sized bytes_source r (s ++ t) o)
unfolding body_sized
body_sized-Resumes t r s none k = (refl, λ e. cc)
body_sized-Resumes t r s (some n) k = elim (Bool-cases (ltb max_body_bytes n)) [
  | inl big ↦ rw big (refl, λ e. cc)
  | inr fits ↦ rw fits (elim (Bool-cases (ltb (length s) n)) [
    | inl short ↦ rw short (sym (rw fits at k))
    | inr full ↦
        let h : n ≤ length s = omega (tests, full) in
        let full' : ltb (length (s ++ t)) n ≡ false =
          le→not-ltb _ n (omega (arith, length-append s t)) in
        rw (full, full') (rw (take-append_left n s t h, drop-append_left n s t h) (refl, λ e. cc))
  ])
]

body_found-Resumes :
    (t : Bytes) (r : HttpRequest) (s : Bytes) (o : Option Bytes)
    → body_found bytes_source r (s ++ t) o ≡ parse bytes_source r (s ++ t)
    → Resumes t (body_found bytes_source r s o) (body_found bytes_source r (s ++ t) o)
unfolding body_found
body_found-Resumes t r s none k = (refl, λ e. cc)
body_found-Resumes t r s (some v) k = body_sized-Resumes t r s (content_length v) k

parse_body-Resumes :
    (t : Bytes) (r : HttpRequest) (s : Bytes)
    → Resumes t (parse_body bytes_source r s) (parse_body bytes_source r (s ++ t))
unfolding parse_body parse_in
parse_body-Resumes t r s =
    body_found-Resumes t _ s (find_header (codes "Content-Length") r.headers) refl

then_ok-Resumes :
    (t : Bytes) (x y : Outcome) (k : HttpRequest → Bytes → Outcome)
    → Settled t x y
    → ((r : HttpRequest) (s : Bytes) → Resumes t (k r s) (k r (s ++ t)))
    → Resumes t (then_ok bytes_source x k) (then_ok bytes_source y k)
then_ok-Resumes t (ok, r, s) y k h q = rw (h.grows) (q r s)
then_ok-Resumes t (again, r, s) y k h q = absurd (h.ended refl)
then_ok-Resumes t (error, r, s) y k h q = absurd (h.fueled refl)
then_ok-Resumes t (_, r, s) y k h q = rw (h.grows) (refl, λ e. cc)

parse_head-waits :
    (r : HttpRequest) (s : Bytes)
    → find blank_line s ≡ none
    → parse_head bytes_source r s ≡ (again, record r { cur_state = parse_req_headers }, s)
unfolding parse_head head_ready
parse_head-waits r s e = rw e

parse_line-waits :
    (r : HttpRequest) (s : Bytes)
    → find crlf s ≡ none
    → parse_line bytes_source r s ≡ (again, record r { cur_state = parse_req_line }, s)
unfolding parse_line line_found
parse_line-waits r s e = rw e

from_head-Resumes :
    (t : Bytes) (r : HttpRequest) (s : Bytes)
    → Resumes t (from_head bytes_source r s) (from_head bytes_source r (s ++ t))
unfolding from_head parse_in
from_head-Resumes t r s = elim (Option-cases (find blank_line s)) [
  | inl e ↦ rw (parse_head-waits r s e) (unfold parse_head in refl)
  | inr (n, e) ↦
      then_ok-Resumes t _ _ _ (parse_head-Settled t r s n e) (λ r s. parse_body-Resumes t _ s)
]

from_line-Resumes :
    (t : Bytes) (r : HttpRequest) (s : Bytes)
    → Resumes t (from_line bytes_source r s) (from_line bytes_source r (s ++ t))
unfolding from_line parse_in
from_line-Resumes t r s = elim (Option-cases (find crlf s)) [
  | inl e ↦ rw (parse_line-waits r s e) (unfold parse_line in refl)
  | inr (n, e) ↦
      then_ok-Resumes t _ _ _ (parse_line-Settled t r s n e) (λ r s. from_head-Resumes t _ s)
]

parse_in-Resumes :
    (t : Bytes) (q : RequestState) (r : HttpRequest) (s : Bytes)
    → Resumes t (parse_in bytes_source q r s) (parse_in bytes_source q r (s ++ t))
unfolding parse_in
parse_in-Resumes t idle r s = from_line-Resumes t r s
parse_in-Resumes t parse_req_line r s = from_line-Resumes t r s
parse_in-Resumes t parse_req_headers r s = from_head-Resumes t r s
parse_in-Resumes t parse_req_body r s = parse_body-Resumes t r s
parse_in-Resumes t _ r s = (refl, λ e. cc)

-- One call, and the bytes `t` that arrive after it.
pub parse-Resumes :
    (t : Bytes) (r : HttpRequest) (s : Bytes)
    → Resumes t (parse bytes_source r s) (parse bytes_source r (s ++ t))
parse-Resumes t r s = parse_in-Resumes t r.cur_state r s

-- The calls that a connection makes while chunks arrive: the parser runs on each chunk until it
-- no longer waits, and the later chunks stay behind what it left.
abbrev pub joined : List Bytes → Bytes
joined [] = []
joined (c ∷ cs) = c ++ joined cs

-- Go on with `k` where the parser waits.
abbrev pub or_wait : (HttpRequest → Bytes → Outcome) → Bytes → Outcome → Outcome
or_wait k t (again, r, s) = k r s
or_wait k t (code, r, s) = (code, r, s ++ t)

pub feed : HttpRequest → Bytes → List Bytes → Outcome
feed r s [] = (again, r, s)
feed r s (c ∷ cs) = or_wait (λ r' s'. feed r' s' cs) (joined cs) (parse bytes_source r (s ++ c))

or_wait-Resumes :
    (k : HttpRequest → Bytes → Outcome) (t : Bytes) (x y : Outcome)
    → ((r : HttpRequest) (s : Bytes) → k r s ≡ parse bytes_source r (s ++ t))
    → Resumes t x y
    → or_wait k t x ≡ y
or_wait-Resumes k t (again, r, s) y h e = h r s ∙ e
or_wait-Resumes k t (_, r, s) y h e = sym e.0

or_wait_last : (x : Outcome) → or_wait (λ r s. (again, r, s)) [] x ≡ x
or_wait_last (again, r, s) = refl
or_wait_last (c, r, s) = λ i. (c, r, append-nil s i)

-- However the input is cut into chunks, and whatever request and unread bytes the parser starts
-- from, feeding it the chunks until it stops asking for more ends with the code, the request and the
-- bytes left over that it gives for the whole input at once.
pub feed-joined :
    (r : HttpRequest) (s c : Bytes) (cs : List Bytes)
    → feed r s (c ∷ cs) ≡ parse bytes_source r (s ++ joined (c ∷ cs))
unfolding feed
feed-joined r s c [] =
    or_wait_last (parse bytes_source r (s ++ c))
    ∙ ap (λ u. parse bytes_source r (s ++ u)) (sym (append-nil c))
feed-joined r s c (d ∷ ds) =
    let t = joined (d ∷ ds) in
    or_wait-Resumes (λ r' s'. feed r' s' (d ∷ ds)) t (parse bytes_source r (s ++ c)) _
      (λ r' s'. feed-joined r' s' d ds) (parse-Resumes t r (s ++ c))
    ∙ ap (parse bytes_source r) (append_assoc s c t)
