-- ===== src/Http/Request/RoundTrip.antt =====
-- The text of requests, and the parser of src/protocol/HttpRequest.cpp on it.
use cpp_reactor.Base.{
  ℕ, zero, suc, ◌+◌, ◌-◌, ◌≤◌, ◌<◌, ◌≡◌, ◌≢◌, refl, sym, ap, ◌∙◌, false, none, some, List, [], ◌∷◌,
  ◌++◌, append-nil, append_assoc, Bytes, length, take, drop, arith, find, find_from, find-append,
  find_from-append, find_present, find_right, take-append, drop-append, drop-drop, length-append,
  le→not-ltb, codes, is_empty, ◌||◌, All, All-append, Option-cases, inl, inr,
}
use cpp_reactor.Status.{StatusCode, ok, again}
use cpp_reactor.Http.Request.{
  HttpRequest, crlf, blank_line, space, colon, line_read, line_found, parse_line, head_read,
  head_round, head_loop, head_ready, parse_head, body_sized, body_found, parse_body, from_head,
  from_line, parse_in, parse, line_parts, header_parts, find_header, content_length, parse_req_line,
  parse_req_headers, parse_done, max_body_bytes, new,
}
use cpp_reactor.Http.Request.Spec.{bytes_source}

-- A request line without its end, and a header line likewise.
abbrev pub line_text : Bytes → Bytes → Bytes → Bytes
line_text m u v = m ++ (b' ' ∷ (u ++ (b' ' ∷ v)))

abbrev pub header_text : Bytes × Bytes → Bytes
header_text (k, v) = k ++ (b':' ∷ b' ' ∷ v)

abbrev pub headers_text : List (Bytes × Bytes) → Bytes → Bytes
headers_text [] rest = 13 ∷ 10 ∷ rest
headers_text (kv ∷ hs) rest = header_text kv ++ (13 ∷ 10 ∷ headers_text hs rest)

abbrev pub request_text : Bytes → Bytes → Bytes → List (Bytes × Bytes) → Bytes → Bytes
request_text m u v hs rest = line_text m u v ++ (13 ∷ 10 ∷ headers_text hs rest)

abbrev pub Without : ℕ → Bytes → Type 0
Without c = All (λ x. x ≢ c)

-- What a request line can carry: the first two parts hold no space, and none holds a return.
pub record IsLine (m u v : Bytes) : Type 0 where
  pub method_ne : is_empty m ≡ false
  pub url_ne : is_empty u ≡ false
  pub version_ne : is_empty v ≡ false
  pub method_space : Without b' ' m
  pub url_space : Without b' ' u
  pub method_return : Without 13 m
  pub url_return : Without 13 u
  pub version_return : Without 13 v

-- A header: the key holds no colon, and neither part holds a return.
abbrev pub IsHeader : Bytes × Bytes → Type 0
IsHeader (k, v) = Without b':' k × Without 13 k × Without 13 v

pub drop_past : (xs : Bytes) (c : ℕ) (ys : Bytes) → drop (length xs + 1) (xs ++ (c ∷ ys)) ≡ ys
drop_past [] c ys = refl
drop_past (x ∷ xs) c ys =
    let e : suc (length xs) + 1 ≡ suc (length xs + 1) = omega arith in rw e (drop_past xs c ys)

drop_past_two : (xs : Bytes) (c d : ℕ) (ys : Bytes) → drop (length xs + 2) (xs ++ (c ∷ d ∷ ys)) ≡ ys
drop_past_two [] c d ys = refl
drop_past_two (x ∷ xs) c d ys =
    let e : suc (length xs) + 2 ≡ suc (length xs + 2) = omega arith in
    rw e (drop_past_two xs c d ys)

line_parts-line_text :
    (m u v : Bytes) → IsLine m u v → line_parts (line_text m u v) ≡ some (m, u, v)
unfolding line_parts
line_parts-line_text m u v h =
    let line = line_text m u v in
    let tail : Bytes = u ++ (b' ' ∷ v) in
    let whole : line ≡ (m ++ b' ' ∷ []) ++ tail = sym (append_assoc m (b' ' ∷ []) tail) in
    let front : length m + 1 ≡ length (m ++ b' ' ∷ []) =
      omega (arith, length-append m (b' ' ∷ [])) in
    let first : find space line ≡ some (length m) =
      find-append b' ' [] m (b' ' ∷ tail) h.method_space refl in
    let second : find_from space (length m + 1) line ≡ some (length m + 1 + length u) =
      ap (find_from space (length m + 1)) whole
      ∙ find_from-append space (m ++ b' ' ∷ []) tail (length m + 1) (length u) front
          (find-append b' ' [] u (b' ' ∷ v) h.url_space refl) in
    let behind : drop (length m + 1) line ≡ tail =
      ap (drop (length m + 1)) whole ∙ drop-append (length m + 1) (m ++ b' ' ∷ []) tail front in
    let mid : length m + 1 + length u - length m - 1 ≡ length u = omega arith in
    let middle : take (length m + 1 + length u - length m - 1) (drop (length m + 1) line) ≡ u =
      ap (λ n. take n (drop (length m + 1) line)) mid
      ∙ ap (take (length u)) behind
      ∙ take-append (length u) u (b' ' ∷ v) refl in
    let last : drop (length m + 1 + length u + 1) line ≡ v =
      ap (λ n. drop n line) {y = length m + 1 + (length u + 1)} (omega arith)
      ∙ sym (drop-drop (length u + 1) (length m + 1) line)
      ∙ ap (drop (length u + 1)) behind
      ∙ drop_past u b' ' v in
    rw first
      (rw second (λ i. some (take-append (length m) m (b' ' ∷ tail) refl i, middle i, last i)))

header_parts-header_text :
    (k v : Bytes) → Without b':' k → header_parts (header_text (k, v)) ≡ some (k, v)
unfolding header_parts
header_parts-header_text k v h =
    let at : find colon (header_text (k, v)) ≡ some (length k) =
      find-append b':' (b' ' ∷ []) k (b':' ∷ b' ' ∷ v) h refl in
    rw at
      (λ i. some (take-append (length k) k (b':' ∷ b' ' ∷ v) refl i, drop_past_two k b':' b' ' v i))

line_text_return : (m u v : Bytes) → IsLine m u v → Without 13 (line_text m u v)
line_text_return m u v h =
    All-append _ m _ h.method_return
      (omega arith, All-append _ u _ h.url_return (omega arith, h.version_return))

header_text_return : (k v : Bytes) → IsHeader (k, v) → Without 13 (header_text (k, v))
header_text_return k v h = All-append _ k _ h.1 (omega arith, (omega arith, h.2))

-- A line with no return in it, with its end and what follows.
find_line :
    (xs rest : Bytes) → Without 13 xs → find crlf (xs ++ (13 ∷ 10 ∷ rest)) ≡ some (length xs)
find_line xs rest h = find-append 13 (10 ∷ []) xs (13 ∷ 10 ∷ rest) h refl

parse_line-line_text :
    (r : HttpRequest) (m u v rest : Bytes)
    → IsLine m u v
    → parse_line bytes_source r (line_text m u v ++ (13 ∷ 10 ∷ rest))
      ≡ (ok, record r { method = m; url = u; version = v; cur_state = parse_req_line }, rest)
unfolding parse_line line_found line_read
parse_line-line_text r m u v rest h =
    let line = line_text m u v in
    let cut = take-append (length line) line (13 ∷ 10 ∷ rest) refl in
    let full : (is_empty m || is_empty u || is_empty v) ≡ false =
      rw (h.method_ne, h.url_ne) h.version_ne in
    rw (find_line line rest (line_text_return m u v h))
      (rw (cut, line_parts-line_text m u v h) (rw full (rw (drop_past_two line 13 10 rest))))

-- Header lines with no fault are taken one by one.
abbrev AreHeaders : List (Bytes × Bytes) → Type 0
AreHeaders = All IsHeader

-- One round over a header line.
head_round-line :
    (rest : HttpRequest → Bytes → StatusCode × HttpRequest × Bytes) (r : HttpRequest) (xs t : Bytes)
    (kv : Bytes × Bytes)
    → is_empty xs ≡ false
    → Without 13 xs
    → header_parts xs ≡ some kv
    → head_round bytes_source rest r (xs ++ (13 ∷ 10 ∷ t)) (find crlf (xs ++ (13 ∷ 10 ∷ t)))
      ≡ rest (record r { headers = r.headers ++ kv ∷ [] }) t
unfolding head_round head_read
head_round-line rest r [] t kv n w e = cc
head_round-line rest r (c ∷ cs) t kv n w e =
    let cut = take-append (length (c ∷ cs)) (c ∷ cs) (13 ∷ 10 ∷ t) refl in
    rw (find_line (c ∷ cs) t w) (rw (cut, e) (rw (drop_past_two (c ∷ cs) 13 10 t)))

header_text_ne : (k v : Bytes) → is_empty (header_text (k, v)) ≡ false
header_text_ne [] v = refl
header_text_ne (c ∷ k) v = refl

head_loop-headers_text :
    (fuel : ℕ) (r : HttpRequest) (hs : List (Bytes × Bytes)) (rest : Bytes)
    → AreHeaders hs
    → length (headers_text hs rest) < fuel
    → head_loop bytes_source fuel r (headers_text hs rest)
      ≡ (ok, record r { headers = r.headers ++ hs }, rest)
unfolding head_loop
head_loop-headers_text zero r hs rest h k = elim k [ ]
head_loop-headers_text (suc f) r [] rest h k =
    unfold find head_round in λ i. (ok, record r { headers = sym (append-nil r.headers) i }, rest)
head_loop-headers_text (suc f) r ((a, b) ∷ hs) rest h k =
    let line = header_text (a, b) in
    let t = headers_text hs rest in
    head_round-line _ r line t (a, b) (header_text_ne a b) (header_text_return a b h.0)
      (header_parts-header_text a b h.0.0)
    ∙ head_loop-headers_text f (record r { headers = r.headers ++ (a, b) ∷ [] }) hs rest h.1
        (omega (arith, length-append line (13 ∷ 10 ∷ t)))
    ∙ ap (λ l. (ok, record r { headers = l }, rest)) (append_assoc r.headers ((a, b) ∷ []) hs)

-- Behind one header at least stands a blank line.
blank-headers_text :
    (kv : Bytes × Bytes) (hs : List (Bytes × Bytes)) (rest : Bytes)
    → find blank_line (headers_text (kv ∷ hs) rest) ≢ none
blank-headers_text kv [] rest =
    find_present blank_line (header_text kv) (13 ∷ 10 ∷ 13 ∷ 10 ∷ rest) refl
blank-headers_text kv (kv' ∷ hs) rest =
    find_right blank_line (header_text kv) _
      (find_right blank_line (13 ∷ 10 ∷ []) _ (blank-headers_text kv' hs rest))

parse_head-headers_text :
    (r : HttpRequest) (kv : Bytes × Bytes) (hs : List (Bytes × Bytes)) (rest : Bytes)
    → AreHeaders (kv ∷ hs)
    → parse_head bytes_source r (headers_text (kv ∷ hs) rest)
      ≡ (ok, record r { headers = r.headers ++ kv ∷ hs; cur_state = parse_req_headers }, rest)
unfolding parse_head head_ready
parse_head-headers_text r kv hs rest h =
    elim (Option-cases (find blank_line (headers_text (kv ∷ hs) rest))) [
      | inl e ↦ absurd (blank-headers_text kv hs rest e)
      | inr (n, e) ↦ rw e (head_loop-headers_text _ _ (kv ∷ hs) rest h (omega arith))
    ]

-- The headers announce a body of `n` bytes: by no Content-Length, or by one that reads as `n`.
pub data Announces (hs : List (Bytes × Bytes)) : ℕ → Type 0 where
  unsaid : find_header (codes "Content-Length") hs ≡ none → Announces hs 0
  said :
      {n : ℕ} {value : Bytes}
      → find_header (codes "Content-Length") hs ≡ some value
      → content_length value ≡ some n
      → n ≤ max_body_bytes
      → Announces hs n

length-zero : (xs : Bytes) → 0 ≡ length xs → xs ≡ []
length-zero [] h = refl
length-zero (x ∷ xs) h = absurd (omega arith)

parse_body-announced :
    (r : HttpRequest) (body rest : Bytes) (n : ℕ)
    → n ≡ length body
    → Announces r.headers n
    → parse_body bytes_source r (body ++ rest)
      ≡ (ok, record r { body_too_large = false; body = body; cur_state = parse_done }, rest)
unfolding parse_body body_found body_sized
parse_body-announced r body rest n l (unsaid e) = rw (length-zero body l, e)
parse_body-announced r body rest n l (said e c h) =
    let fits = le→not-ltb max_body_bytes n h in
    let here = le→not-ltb (length (body ++ rest)) n (omega (arith, length-append body rest)) in
    rw (e, c) (rw fits (rw here (rw (take-append n body rest l, drop-append n body rest l))))

-- The text of a request with a header at least is parsed into its parts, and what follows it is
-- left in the input, where the parts of the first line and the headers can be told apart in the
-- text, and the headers announce the length of the body, at most the largest a request may have.
pub parse-request_text :
    (m u v body rest : Bytes) (kv : Bytes × Bytes) (hs : List (Bytes × Bytes))
    → IsLine m u v
    → All IsHeader (kv ∷ hs)
    → Announces (kv ∷ hs) (length body)
    → parse bytes_source new (request_text m u v (kv ∷ hs) (body ++ rest)) ≡ (
      ok,
      record new {
        method = m;
        url = u;
        version = v;
        headers = kv ∷ hs;
        body = body;
        cur_state = parse_done;
      },
      rest,
    )
unfolding parse_in from_line from_head
parse-request_text m u v body rest kv hs l h a =
    let lined = parse_line-line_text new m u v (headers_text (kv ∷ hs) (body ++ rest)) l in
    rw lined (
      rw (parse_head-headers_text _ kv hs (body ++ rest) h)
        (parse_body-announced _ body rest (length body) refl a))

no_blank : find blank_line crlf ≡ none
unfolding find
no_blank = refl

-- A complete request with no header, where the parts of its line can be told apart in the text, is
-- not accepted: the parser takes the line and then waits for more input, the empty line unread.
pub parse_no_headers :
    (m u v : Bytes)
    → IsLine m u v
    → parse bytes_source new (request_text m u v [] []) ≡ (
      again,
      record new { method = m; url = u; version = v; cur_state = parse_req_headers },
      crlf,
    )
unfolding parse_in from_line from_head
parse_no_headers m u v l =
    rw (parse_line-line_text new m u v crlf l) (unfold parse_head head_ready in rw no_blank)
