-- ===== src/Http/Tests.antt =====
-- Runs of the HTTP layer on concrete input, and its theorems at such input.
use cpp_reactor.Base.{
  ◌≡◌, refl, Bytes, codes, true, false, none, some, List, [], ◌∷◌, ◌++◌, arith, length, find,
  find_from, from_chars, decimal,
}
use cpp_reactor.Status.{ok, again}
use cpp_reactor.Buffer.{Buffer}
use cpp_reactor.Buffer.View.{Inv, view}
use cpp_reactor.Http.Request.{
  parse, parse_in, from_line, from_head, parse_line, line_found, line_read, parse_head, head_ready,
  head_loop, head_round, head_read, parse_body, body_found, body_sized, line_parts, header_parts,
  find_header, content_length, number_between, find_first_not_of, find_last_not_of, new, parse_done,
  parse_req_headers, buffer_source,
}
use cpp_reactor.Http.Request.Spec.{bytes_source, Same, parse-view}
use cpp_reactor.Http.Request.Chunks.{feed, joined, feed-joined}
use cpp_reactor.Http.Request.Sound.{IsSound, parse-IsSound}
use cpp_reactor.Http.Request.RoundTrip.{
  request_text, IsLine, Announces, said, parse-request_text, parse_no_headers,
}
use cpp_reactor.Http.Request.Entry.{parse_request, Delivered, parse_request-Delivered}
use cpp_reactor.Connection.{Handler, default_result}
use cpp_reactor.Http.Router.{RouteEntry, match_segments, split_path}
use cpp_reactor.Http.Router.Match.{ends, literal, param, collect, match_segments-Fits}
use cpp_reactor.Http.Response
use cpp_reactor.Http.Response.Missing
use cpp_reactor.Http.Response.Missing.{get_check_ready-happen_all}
use cpp_reactor.Http.Router.Paths.{path_text, split_path-path_text}

abbrev crlf : Bytes
crlf = 13 ∷ 10 ∷ []

abbrev first_chunk : Bytes
first_chunk = codes "POST /a HTT"

abbrev second_chunk : Bytes
second_chunk =
    codes "P/1.1"
    ++ (crlf
        ++ (codes "Host: h"
            ++ (crlf ++ (codes "content-length: 3 " ++ (crlf ++ (crlf ++ codes "abcNEXT"))))))

post_runs : (parse bytes_source new (first_chunk ++ second_chunk)).2 ≡ codes "NEXT"
unfolding parse_in from_line from_head parse_line line_found line_read parse_head head_ready
    head_loop head_round head_read parse_body body_found body_sized line_parts header_parts
    find_header content_length number_between from_chars decimal find_first_not_of find_last_not_of
    find find_from
post_runs = refl

feed-joined_example :
    feed new [] (first_chunk ∷ second_chunk ∷ [])
    ≡ parse bytes_source new ([] ++ joined (first_chunk ∷ second_chunk ∷ []))
feed-joined_example = feed-joined new [] first_chunk (second_chunk ∷ [])

abbrev three : Bytes × Bytes
three = (codes "Content-Length", codes "3")

three-Announces : Announces (three ∷ []) (length (codes "abc"))
unfolding find_header content_length number_between from_chars decimal find_first_not_of
    find_last_not_of
three-Announces = said refl refl (omega arith)

post-IsLine : IsLine (codes "POST") (codes "/a") (codes "HTTP/1.1")
post-IsLine = record {
  method_ne = refl;
  url_ne = refl;
  version_ne = refl;
  method_space = ground arith;
  url_space = ground arith;
  method_return = ground arith;
  url_return = ground arith;
  version_return = ground arith;
}

parse-request_text_example :
    parse bytes_source new (
      request_text
        (codes "POST")
        (codes "/a")
        (codes "HTTP/1.1")
        (three ∷ [])
        (codes "abc" ++ codes "NEXT"))
    ≡ (
      ok,
      record new {
        method = codes "POST";
        url = codes "/a";
        version = codes "HTTP/1.1";
        headers = three ∷ [];
        body = codes "abc";
        cur_state = parse_done;
      },
      codes "NEXT",
    )
parse-request_text_example =
    parse-request_text (codes "POST") (codes "/a") (codes "HTTP/1.1") (codes "abc") (codes "NEXT")
      three [] post-IsLine ((ground arith, ground arith, ground arith), tt) three-Announces

parse_no_headers_example :
    parse bytes_source new (request_text (codes "POST") (codes "/a") (codes "HTTP/1.1") [] []) ≡ (
      again,
      record new {
        method = codes "POST";
        url = codes "/a";
        version = codes "HTTP/1.1";
        cur_state = parse_req_headers;
      },
      13 ∷ 10 ∷ [],
    )
parse_no_headers_example =
    parse_no_headers (codes "POST") (codes "/a") (codes "HTTP/1.1") post-IsLine

abbrev received : Buffer
received = record { storage = codes "????????GET "; read_index = 8; write_index = 12 }

received-Inv : Inv received
received-Inv = record {
  prepend = omega arith;
  ordered = omega arith;
  fits = omega arith;
  small = omega arith;
}

parse-view_example :
    Same (parse buffer_source new received) (parse bytes_source new (view received))
parse-view_example = parse-view new received received-Inv

parse-IsSound_example :
    IsSound
      (parse bytes_source new (first_chunk ++ second_chunk)).0
      (parse bytes_source new (first_chunk ++ second_chunk)).1
parse-IsSound_example = parse-IsSound new (first_chunk ++ second_chunk) tt

parse_request-Delivered_example : Delivered (parse_request received none)
parse_request-Delivered_example = parse_request-Delivered received none received-Inv tt

abbrev one_param : List (Bytes × Bytes)
one_param = (codes "id", codes "7") ∷ []

abbrev echo : Handler
echo r = (record default_result { body = r.url }, r)

abbrev files : RouteEntry
files = record { method = []; pattern = codes "/"; is_prefix = true; handler = echo }

abbrev users : RouteEntry
users = record {
  method = codes "GET";
  pattern = codes "/users/:id";
  is_prefix = false;
  handler = echo;
}

abbrev user_pattern : List Bytes
user_pattern = codes "users" ∷ codes ":id" ∷ []

abbrev user_path : List Bytes
user_path = codes "users" ∷ codes "7" ∷ []

match_segments-Fits_example : match_segments user_pattern user_path ≡ some (collect one_param [])
match_segments-Fits_example =
    match_segments-Fits user_pattern user_path one_param (literal refl (param ends))

split_path-path_text_example :
    (split_path (path_text user_path) ≡ user_path)
    × (split_path (path_text user_path ++ (b'?' ∷ codes "x=1")) ≡ user_path)
split_path-path_text_example =
    split_path-path_text user_path (codes "x=1")
      ((refl, ground arith, ground arith), ((refl, ground arith, ground arith), tt))

abbrev response_calls : List Missing.Call
response_calls =
    Missing.set_line [] 200 (codes "OK")
    ∷ Missing.check
    ∷ Missing.header (codes "Host") []
    ∷ Missing.file (codes "index.html")
    ∷ []

get_check_ready-happen_all_example :
    (Response.get_check_ready (Missing.happen_all response_calls (Response.create true))).0 ≡ 4
get_check_ready-happen_all_example = get_check_ready-happen_all true response_calls

-- What is printed of a response without a header.
told_missing :
    (Response.get_check_ready (Missing.happen_all response_calls (Response.create true))).1
    ≡ codes "ResponseHeaders dosen't exist\n" ∷ []
unfolding Response.get_check_ready Response.create Response.check_ready Response.told
    Response.set_state_line Response.add_header Response.addfile
told_missing = refl
