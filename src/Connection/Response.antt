-- ===== src/Connection/Response.antt =====
-- The text of a response, src/net/TcpConnection.cpp: read back with the grammar of a request, the
-- first line's three parts are the version, the status and the reason.
use cpp_reactor.Base.{
  ℕ, zero, suc, ◌+◌, ◌-◌, ◌/◌, ◌%◌, ◌^◌, ◌≤◌, ◌<◌, ◌≡◌, refl, sym, ap, ◌∙◌, Bool, true, false, not,
  none, some, List, [], ◌∷◌, ◌++◌, append-nil, append_assoc, Bytes, codes, is_empty, All, length,
  take_all, ltb, ltb→lt, if◌then◌else◌, arith, Bool-cases, inl, inr, digits_onto, to_string,
  from_chars, from_chars-to_string,
}
use cpp_reactor.Status.{ok}
use cpp_reactor.Buffer
use cpp_reactor.Buffer.View.{Inv, view, append-Inv, view-append, write_index-append}
use cpp_reactor.Http.Request.{
  find_first_not_of, find_last_not_of, number_between, content_length, find_header, is_blank, parse,
  new, parse_done, max_body_bytes,
}
use cpp_reactor.Http.Request.Spec.{bytes_source}
use cpp_reactor.Http.Request.RoundTrip.{
  request_text, Without, IsLine, IsHeader, Announces, said, parse-request_text,
}
use cpp_reactor.Connection.{Connection, response_head, append_simple_response}

abbrev IsDigit : ℕ → Type 0
IsDigit x = (48 ≤ x) × (x ≤ 57)

digits_onto-IsDigit :
    (fuel n : ℕ) (acc : Bytes) → All IsDigit acc → All IsDigit (digits_onto fuel n acc)
unfolding digits_onto
digits_onto-IsDigit zero n acc h = h
digits_onto-IsDigit (suc fuel) n acc h = elim (Bool-cases (ltb n 10)) [
  | inl t ↦ let d = ltb→lt n 10 t in rw (t) ((omega arith, omega (arith, d)), h)
  | inr f ↦
      rw (f)
        (digits_onto-IsDigit fuel (n / 10) ((48 + n % 10) ∷ acc) ((omega arith, omega arith), h))
]

to_string-IsDigit : (n : ℕ) → All IsDigit (to_string n)
unfolding to_string
to_string-IsDigit n = digits_onto-IsDigit (suc n) n [] tt

digit_blank : (x : ℕ) → IsDigit x → is_blank x ≡ false
digit_blank x h = ground arith

digits_first : (c : ℕ) (cs : Bytes) → All IsDigit (c ∷ cs) → find_first_not_of (c ∷ cs) ≡ some 0
unfolding find_first_not_of
digits_first c cs h = rw (digit_blank c h.0) refl

digits_last :
    (c : ℕ) (cs : Bytes) → All IsDigit (c ∷ cs) → find_last_not_of (c ∷ cs) ≡ some (length cs)
unfolding find_last_not_of
digits_last c [] h = rw (digit_blank c h.0) refl
digits_last c (d ∷ ds) h = rw (digits_last d ds h.1) refl

content_length-digits :
    (c : ℕ) (cs : Bytes) → All IsDigit (c ∷ cs) → content_length (c ∷ cs) ≡ from_chars (c ∷ cs)
unfolding content_length number_between
content_length-digits c cs h =
    rw (digits_first c cs h, digits_last c cs h)
      (ap from_chars (take_all (length cs - 0 + 1) (c ∷ cs) (omega arith)))

no_digits : (s : Bytes) → s ≡ [] → from_chars s ≡ none
unfolding from_chars
no_digits [] e = refl
no_digits (c ∷ cs) e = cc

trimmed : (s : Bytes) (n : ℕ) → All IsDigit s → from_chars s ≡ some n → content_length s ≡ some n
trimmed [] n h e = cc (no_digits [] refl)
trimmed (c ∷ cs) n h e = content_length-digits c cs h ∙ e

content_length-to_string : (n : ℕ) → n < 2 ^ 64 → content_length (to_string n) ≡ some n
content_length-to_string n h =
    trimmed (to_string n) n (to_string-IsDigit n) (from_chars-to_string n h)

digits-Without : (c : ℕ) (s : Bytes) → c < 48 → All IsDigit s → Without c s
digits-Without c [] l h = tt
digits-Without c (x ∷ xs) l h = ((λ e. omega (arith, e, l, h.0)), digits-Without c xs l h.1)

-- The headers of a response.
abbrev pub response_headers : ℕ → Bytes → Bool → List (Bytes × Bytes)
response_headers size content_type keep =
    (codes "Content-Type", content_type)
    ∷ (codes "Content-Length", to_string size)
    ∷ (codes "Connection", if keep then codes "keep-alive" else codes "close")
    ∷ (codes "Server", codes "CPPReactor")
    ∷ []

response_head-request_text :
    (status : ℕ) (reason : Bytes) (size : ℕ) (content_type : Bytes) (keep : Bool) (body : Bytes)
    → response_head status reason size content_type keep ++ body
      ≡ request_text
          (codes "HTTP/1.1")
          (to_string status)
          reason
          (response_headers size content_type keep)
          body
unfolding response_head
response_head-request_text status reason size content_type keep body = simp (append_assoc)

to_string_ne : (s : Bytes) (n : ℕ) → from_chars s ≡ some n → is_empty s ≡ false
to_string_ne [] n e = cc (no_digits [] refl)
to_string_ne (c ∷ cs) n e = refl

-- What a caller passes: a reason and a content type without a return.
pub record IsPlain (reason content_type : Bytes) : Type 0 where
  pub reason_ne : is_empty reason ≡ false
  pub reason_return : Without 13 reason
  pub type_return : Without 13 content_type

response-IsLine :
    (status : ℕ) (reason content_type : Bytes)
    → status < 2 ^ 64
    → IsPlain reason content_type
    → IsLine (codes "HTTP/1.1") (to_string status) reason
response-IsLine status reason content_type b h = record {
  method_ne = refl;
  url_ne = to_string_ne _ status (from_chars-to_string status b);
  version_ne = h.reason_ne;
  method_space = ground arith;
  url_space = digits-Without b' ' _ (omega arith) (to_string-IsDigit status);
  method_return = ground arith;
  url_return = digits-Without 13 _ (omega arith) (to_string-IsDigit status);
  version_return = h.reason_return;
}

connection-Without : (keep : Bool) → Without 13 (if keep then codes "keep-alive" else codes "close")
connection-Without true = ground arith
connection-Without false = ground arith

headers-IsHeader :
    (size : ℕ) (reason content_type : Bytes) (keep : Bool)
    → IsPlain reason content_type
    → All IsHeader (response_headers size content_type keep)
headers-IsHeader size reason content_type keep h =
    let length_digits = digits-Without 13 _ (omega arith) (to_string-IsDigit size) in
    (
      (ground arith, ground arith, h.type_return),
      (
        (ground arith, ground arith, length_digits),
        (
          (ground arith, ground arith, connection-Without keep),
          ((ground arith, ground arith, ground arith), tt),
        ),
      ),
    )

headers-Announces :
    (size : ℕ) (content_type : Bytes) (keep : Bool)
    → size ≤ max_body_bytes
    → Announces (response_headers size content_type keep) size
unfolding find_header
headers-Announces size content_type keep h =
    said refl (content_length-to_string size (omega (arith, h))) h

-- The head that a response starts with.
abbrev pub head_for : ℕ → Bytes → Bytes → Bytes → Connection → Bytes
head_for status reason body content_type c =
    response_head status reason (length body) content_type c.keep_alive_request

filled :
    (b : Buffer.Buffer) (head body : Bytes)
    → Inv b
    → b.write_index + length head + length body < 2 ^ 32
    → view (
        if not (is_empty body)
        then Buffer.append (Buffer.append b head) body
        else Buffer.append b head)
      ≡ view b ++ (head ++ body)
filled b head [] v h =
    view-append b head v (omega (arith, h)) ∙ ap (λ t. view b ++ t) (sym (append-nil head))
filled b head (x ∷ xs) v h =
    let one = view-append b head v (omega (arith, h)) in
    let moved = write_index-append b head v (omega (arith, h)) in
    view-append _ (x ∷ xs) (append-Inv b head v (omega (arith, h))) (omega (arith, h, moved))
    ∙ ap (λ t. t ++ (x ∷ xs)) one
    ∙ append_assoc (view b) head (x ∷ xs)

-- Writing a response appends exactly its head and its body to the bytes that wait to be sent, when
-- the write buffer is well formed and its write index, the head and the body stay below 2^32.
pub view-append_simple_response :
    (now status : ℕ) (reason body content_type : Bytes) (c : Connection)
    → Inv c.write_buffer
    → c.write_buffer.write_index + length (head_for status reason body content_type c) + length body
      < 2 ^ 32
    → view (append_simple_response now status reason body content_type c).write_buffer
      ≡ view c.write_buffer ++ (head_for status reason body content_type c ++ body)
unfolding append_simple_response
view-append_simple_response now status reason body content_type c v h =
    filled c.write_buffer (head_for status reason body content_type c) body v h

-- A peer that reads messages with this program's own grammar gets a written response back: the
-- three parts of the first line are HTTP/1.1, the status and the reason, the headers are those of
-- the response in order, the body is the response's body, and what follows is left over. The reason
-- is not empty, it and the content type hold no return, the status is below 2^64, and the body is
-- at most the largest that a request may have.
pub parse-response :
    (status : ℕ) (reason content_type : Bytes) (keep : Bool) (body rest : Bytes)
    → status < 2 ^ 64
    → IsPlain reason content_type
    → length body ≤ max_body_bytes
    → parse bytes_source new
        (response_head status reason (length body) content_type keep ++ (body ++ rest))
      ≡ (
        ok,
        record new {
          method = codes "HTTP/1.1";
          url = to_string status;
          version = reason;
          headers = response_headers (length body) content_type keep;
          body = body;
          cur_state = parse_done;
        },
        rest,
      )
parse-response status reason content_type keep body rest b h l =
    ap (parse bytes_source new)
      (response_head-request_text status reason (length body) content_type keep (body ++ rest))
    ∙ parse-request_text _ _ _ body rest _ _ (response-IsLine status reason content_type b h)
        (headers-IsHeader (length body) reason content_type keep h)
        (headers-Announces (length body) content_type keep l)
