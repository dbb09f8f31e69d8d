-- ===== src/Http/Response.antt =====
-- include/protocol/HttpResponse.hpp and src/protocol/HttpResponse.cpp: the parts of a response that
-- are collected, and the set of those that are missing. The buffer is a pointer that no operation
-- follows, of which only whether it is null matters; what is printed is a list of lines.
pub mod Missing
use cpp_reactor.Base.{
  ℕ, ◌+◌, Bool, true, false, not, ◌||◌, Option, none, some, List, [], ◌∷◌, ◌++◌, Bytes, codes,
  is_empty, to_string, ◌==◌, if◌then◌else◌,
}
use cpp_reactor.Channel.{has, with_bit, without_bit}

-- `ReadyCode`, as the numbers of its bits.
abbrev pub no_response_buffer : ℕ
no_response_buffer = 0

abbrev pub no_response_line : ℕ
no_response_line = 1

abbrev pub no_headers : ℕ
no_headers = 2

abbrev pub no_file : ℕ
no_file = 3

pub record HttpResponse : Type 0 where
  pub ready : ℕ
  pub has_response : Bool
  pub line : Bytes
  pub headers : List (Bytes × Bytes)
  pub files : List Bytes

-- `empty()` of a vector.
abbrev pub is_nil : {A : Type 0} → List A → Bool
is_nil [] = true
is_nil (x ∷ xs) = false

-- The bit is set if the part is missing, and cleared otherwise.
abbrev pub mark : Bool → ℕ → ℕ → ℕ
mark missing bit mask = if missing then with_bit bit mask else without_bit bit mask

unfoldable pub check_ready : HttpResponse → HttpResponse
check_ready r = record r {
  ready = mark (is_nil r.files) no_file (
      mark (is_nil r.headers) no_headers (
        mark (is_empty r.line) no_response_line
          (mark (not r.has_response) no_response_buffer r.ready)));
}

unfoldable pub create : Bool → HttpResponse
unfolding check_ready
create has_response =
    check_ready
      (record { ready = 15; has_response = has_response; line = []; headers = []; files = [] })

unfoldable pub set_state_line : Bytes → ℕ → Bytes → HttpResponse → HttpResponse
set_state_line version status message r =
    let rest = to_string status ++ codes " " ++ message ++ codes "\r\n" in
    if is_empty version
    then record r { line = codes "HTTP/1.1 " ++ rest }
    else record r { line = version ++ codes " " ++ rest }

-- `none` is the exception for an empty key or an empty value.
unfoldable pub add_header : Bytes → Bytes → HttpResponse → Option HttpResponse
add_header key value r =
    if is_empty key || is_empty value
    then none
    else some (record r { headers = r.headers ++ (key, value) ∷ [] })

unfoldable pub addfile : Bytes → HttpResponse → HttpResponse
addfile file r = record r { files = r.files ++ file ∷ [] }

-- A line that is printed if the bit is set.
abbrev pub said : ℕ → ℕ → Bytes → List Bytes
said bit mask text = if has bit mask then text ∷ [] else []

unfoldable pub told : ℕ → List Bytes
told mask =
    said no_response_line mask (codes "ResponseLine dosen't exist\n")
    ++ said no_headers mask (codes "ResponseHeaders dosen't exist\n")
    ++ said no_file mask (codes "Responsefile dosen't exist\n")
    ++ said no_response_buffer mask (codes "ResponseBuffer dosen't exist\n")

-- The answer, what is printed, and the response afterwards.
unfoldable pub get_check_ready : HttpResponse → ℕ × List Bytes × HttpResponse
unfolding check_ready told
get_check_ready r =
    let checked = check_ready r in
    if checked.ready == 0
    then (0, codes "response complated\n" ∷ [], checked)
    else (checked.ready, told checked.ready, checked)
