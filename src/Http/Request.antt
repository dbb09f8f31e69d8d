-- ===== src/Http/Request.antt =====
-- include/protocol/HttpRequest.hpp and src/protocol/HttpRequest.cpp: the incremental request parser.
-- The parser reads its input through the operations of `Source`, which are the members of `Buffer`
-- that the source calls on `data_`. A parser takes the request and the input, and returns its code
-- with both. The input is never null, and `data_` is the argument that each call is given.
pub mod Spec
pub mod Chunks
pub mod RoundTrip
pub mod Sound
pub mod Entry
use cpp_reactor.Base.{
  ℕ, zero, suc, ◌+◌, ◌-◌, ◌*◌, ◌^◌, Bool, true, false, not, ◌||◌, Option, none, some, List, [], ◌∷◌,
  ◌++◌, Bytes, codes, same, is_empty, is_digit, lower, length, take, drop, find_from, from_chars,
  ltb, ◌==◌, if◌then◌else◌,
}
use cpp_reactor.Base
use cpp_reactor.Status.{StatusCode, ok, again, invalid, error}
use cpp_reactor.Buffer
use cpp_reactor.Buffer.{Buffer}

pub data RequestState : Type 0 where
  idle parse_req_line parse_req_line_failed parse_req_headers parse_req_headers_failed :
      RequestState
  parse_req_body parse_req_body_failed parse_done : RequestState

pub record HttpRequest : Type 0 where
  pub method : Bytes
  pub url : Bytes
  pub version : Bytes
  pub headers : List (Bytes × Bytes)
  pub body : Bytes
  pub body_too_large : Bool
  pub cur_state : RequestState
  pub path_params : List (Bytes × Bytes)

-- The constructor.
abbrev pub new : HttpRequest
new = record {
  method = [];
  url = [];
  version = [];
  headers = [];
  body = [];
  body_too_large = false;
  cur_state = idle;
  path_params = [];
}

abbrev pub max_body_bytes : ℕ
max_body_bytes = 1024 * 1024

abbrev pub crlf : Bytes
crlf = 13 ∷ 10 ∷ []

abbrev pub blank_line : Bytes
blank_line = 13 ∷ 10 ∷ 13 ∷ 10 ∷ []

abbrev pub space : Bytes
space = b' ' ∷ []

-- The string ": ".
abbrev pub colon : Bytes
colon = b':' ∷ b' ' ∷ []

-- What the parser uses of its input.
pub record Source (B : Type 0) : Type 0 where
  pub readable_bytes : B → ℕ
  pub find : B → Bytes → Option ℕ
  pub get_string_view : B → ℕ → Bytes
  pub retrieve : B → ℕ → B
  pub retrieve_as_string : B → ℕ → Bytes × B

abbrev pub buffer_source : Source Buffer
buffer_source = record {
  readable_bytes = Buffer.readable_bytes;
  find = Buffer.find;
  get_string_view = Buffer.get_string_view;
  retrieve = Buffer.retrieve;
  retrieve_as_string = Buffer.retrieve_as_string;
}

-- The three parts of a request line, split at the first two spaces.
unfoldable pub second_space : Bytes → ℕ → Option ℕ → Option (Bytes × Bytes × Bytes)
second_space line first none = none
second_space line first (some second) =
    some
      (take first line, take (second - first - 1) (drop (first + 1) line), drop (second + 1) line)

unfoldable pub first_space : Bytes → Option ℕ → Option (Bytes × Bytes × Bytes)
first_space line none = none
first_space line (some first) = second_space line first (find_from space (first + 1) line)

unfoldable pub line_parts : Bytes → Option (Bytes × Bytes × Bytes)
unfolding first_space second_space
line_parts line = first_space line (Base.find space line)

-- `name: value`, split at the first ": ".
unfoldable pub header_at : Bytes → Option ℕ → Option (Bytes × Bytes)
header_at line none = none
header_at line (some p) = some (take p line, drop (p + 2) line)

unfoldable pub header_parts : Bytes → Option (Bytes × Bytes)
unfolding header_at
header_parts line = header_at line (Base.find colon line)

-- The value of the first header of that name; case does not count.
unfoldable pub find_header : Bytes → List (Bytes × Bytes) → Option Bytes
find_header key [] = none
find_header key ((k, v) ∷ hs) = if same (lower k) (lower key) then some v else find_header key hs

abbrev pub is_blank : ℕ → Bool
is_blank c = c == b' ' || c == b'\t'

-- `find_first_not_of(" \t")` and `find_last_not_of(" \t")`.
unfoldable pub find_first_not_of : Bytes → Option ℕ
find_first_not_of [] = none
find_first_not_of (c ∷ cs) = if is_blank c then Base.shift (find_first_not_of cs) else some 0

unfoldable pub find_last_not_of : Bytes → Option ℕ
find_last_not_of [] = none
find_last_not_of (c ∷ cs) = elim (find_last_not_of cs) [
  | none ↦ if is_blank c then none else some 0
  | some i ↦ some (suc i)
]

-- The number of a Content-Length value, with the blanks round it cut off.
unfoldable pub number_between : Bytes → Option ℕ → Option ℕ → Option ℕ
number_between value (some begin) (some last) =
    from_chars (take (last - begin + 1) (drop begin value))
number_between value _ _ = none

unfoldable pub content_length : Bytes → Option ℕ
unfolding number_between
content_length value = number_between value (find_first_not_of value) (find_last_not_of value)

module _ {B : Type 0} (S : Source B) where
  open S use {readable_bytes, find, get_string_view, retrieve, retrieve_as_string}

  -- The three parts of the line are stored before they are tested.
  unfoldable pub line_read :
      HttpRequest → B → ℕ → Option (Bytes × Bytes × Bytes) → StatusCode × HttpRequest × B
  line_read r b line_end none = (invalid, record r { cur_state = parse_req_line_failed }, b)
  line_read r b line_end (some (m, u, v)) =
      let r1 = record r { method = m; url = u; version = v } in
      if is_empty m || is_empty u || is_empty v
      then (invalid, record r1 { cur_state = parse_req_line_failed }, b)
      else (ok, r1, retrieve b (line_end + 2))

  unfoldable pub line_found : HttpRequest → B → Option ℕ → StatusCode × HttpRequest × B
  line_found r b none = (again, r, b)
  line_found r b (some line_end) = line_read r b line_end (line_parts (get_string_view b line_end))

  unfoldable pub parse_line : HttpRequest → B → StatusCode × HttpRequest × B
  parse_line r b = line_found (record r { cur_state = parse_req_line }) b (find b crlf)

  -- What is left of the loop over the header lines.
  abbrev pub Loop : Type 0
  Loop = HttpRequest → B → StatusCode × HttpRequest × B

  -- One header line, which is taken off the input whether it splits or not.
  unfoldable pub head_read :
      Loop → HttpRequest → B → Option (Bytes × Bytes) → StatusCode × HttpRequest × B
  head_read rest r b none = (invalid, record r { cur_state = parse_req_headers_failed }, b)
  head_read rest r b (some kv) = rest (record r { headers = r.headers ++ kv ∷ [] }) b

  -- One round of the loop, on where the next line ends.
  unfoldable pub head_round : Loop → HttpRequest → B → Option ℕ → StatusCode × HttpRequest × B
  head_round rest r b none = (again, r, b)
  head_round rest r b (some zero) = (ok, r, retrieve b 2)
  head_round rest r b (some (suc i)) =
      head_read rest r (retrieve b (suc i + 2)) (header_parts (get_string_view b (suc i)))

  -- The loop on fuel. `error`, which the parser never returns, is the end of the fuel.
  unfoldable pub head_loop : ℕ → HttpRequest → B → StatusCode × HttpRequest × B
  head_loop zero r b = (error, r, b)
  head_loop (suc fuel) r b = head_round (λ r' b'. head_loop fuel r' b') r b (find b crlf)

  -- A round takes two bytes at least, so there are fewer rounds than bytes.
  unfoldable pub head_ready : HttpRequest → B → Option ℕ → StatusCode × HttpRequest × B
  head_ready r b none = (again, r, b)
  head_ready r b (some i) = head_loop (suc (readable_bytes b)) r b

  unfoldable pub parse_head : HttpRequest → B → StatusCode × HttpRequest × B
  parse_head r b = head_ready (record r { cur_state = parse_req_headers }) b (find b blank_line)

  -- The body of a known length, and the limit on that length.
  unfoldable pub body_sized : HttpRequest → B → Option ℕ → StatusCode × HttpRequest × B
  body_sized r b none = (invalid, record r { cur_state = parse_req_body_failed }, b)
  body_sized r b (some n) =
      if ltb max_body_bytes n
      then (invalid, record r { body_too_large = true; cur_state = parse_req_body_failed }, b)
      else if ltb (readable_bytes b) n
      then (again, r, b)
      else (
        ok,
        record r { body = (retrieve_as_string b n).0; cur_state = parse_done },
        (retrieve_as_string b n).1,
      )

  unfoldable pub body_found : HttpRequest → B → Option Bytes → StatusCode × HttpRequest × B
  body_found r b none = (ok, record r { body = []; cur_state = parse_done }, b)
  body_found r b (some value) = body_sized r b (content_length value)

  unfoldable pub parse_body : HttpRequest → B → StatusCode × HttpRequest × B
  parse_body r b =
      body_found (record r { cur_state = parse_req_body; body_too_large = false }) b
        (find_header (codes "Content-Length") r.headers)

  abbrev pub then_ok : StatusCode × HttpRequest × B → Loop → StatusCode × HttpRequest × B
  then_ok (ok, r, b) k = k r b
  then_ok (code, r, b) k = (code, r, b)

  unfoldable pub from_head : HttpRequest → B → StatusCode × HttpRequest × B
  from_head r b =
      then_ok (parse_head r b) (λ r' b'. parse_body (record r' { cur_state = parse_req_body }) b')

  unfoldable pub from_line : HttpRequest → B → StatusCode × HttpRequest × B
  from_line r b =
      then_ok (parse_line r b) (λ r' b'. from_head (record r' { cur_state = parse_req_headers }) b')

  -- The stages that are left in a state.
  unfoldable pub parse_in : RequestState → HttpRequest → B → StatusCode × HttpRequest × B
  parse_in parse_done r b = (ok, r, b)
  parse_in idle r b = from_line r b
  parse_in parse_req_line r b = from_line r b
  parse_in parse_req_headers r b = from_head r b
  parse_in parse_req_body r b = parse_body r b
  parse_in _ r b = (invalid, r, b)

  abbrev pub parse : HttpRequest → B → StatusCode × HttpRequest × B
  parse r b = parse_in r.cur_state r b
