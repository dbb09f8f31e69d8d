-- ===== src/Handler/StaticFile.antt =====
-- include/handler/StaticFileHandler.hpp and src/handler/StaticFileHandler.cpp. The file system is a
-- record of what is called of std::filesystem and std::ifstream, on paths of a type `P`; `none` is an
-- exception, or an error code that is set.
pub mod Escape
pub mod Listing
pub mod Serving
use cpp_reactor.Base.{
  ℕ, ◌+◌, Bool, true, false, not, ◌&&◌, ◌||◌, Option, none, some, List, [], ◌∷◌, ◌++◌, Bytes, codes,
  same, is_empty, lower, find, take, ltb, ◌==◌, if◌then◌else◌, pos,
}
use cpp_reactor.Url.{url_decode, url_encode_path_component}
use cpp_reactor.Http.Request.{HttpRequest}
use cpp_reactor.Connection.{HandlerResult, default_result, text_plain}

unfoldable pub escape_byte : ℕ → Bytes
escape_byte c =
    if c == b'&'
    then codes "&amp;"
    else if c == b'<'
    then codes "&lt;"
    else if c == b'>'
    then codes "&gt;"
    else if c == b'"'
    then codes "&quot;"
    else if c == 39
    then codes "&#39;"
    else c ∷ []

unfoldable pub html_escape : Bytes → Bytes
unfolding escape_byte
html_escape [] = []
html_escape (c ∷ cs) = escape_byte c ++ html_escape cs

abbrev pub one_of : Bytes → List Bytes → Bool
one_of s [] = false
one_of s (t ∷ ts) = same s t || one_of s ts

-- By the extension of a path.
unfoldable pub content_type_from_path : Bytes → Bytes
content_type_from_path ext =
    if one_of ext (codes ".html" ∷ codes ".htm" ∷ [])
    then codes "text/html; charset=utf-8"
    else if same ext (codes ".css")
    then codes "text/css; charset=utf-8"
    else if same ext (codes ".js")
    then codes "application/javascript; charset=utf-8"
    else if same ext (codes ".json")
    then codes "application/json; charset=utf-8"
    else if one_of ext
        (codes ".md" ∷ codes ".txt" ∷ codes ".hpp" ∷ codes ".cpp" ∷ codes ".h" ∷ codes ".c" ∷ [])
    then text_plain
    else if same ext (codes ".png")
    then codes "image/png"
    else if one_of ext (codes ".jpg" ∷ codes ".jpeg" ∷ [])
    then codes "image/jpeg"
    else if same ext (codes ".gif")
    then codes "image/gif"
    else codes "application/octet-stream"

-- On the elements of the paths.
unfoldable pub is_within_root : List Bytes → List Bytes → Bool
is_within_root [] ts = true
is_within_root (r ∷ rs) [] = false
is_within_root (r ∷ rs) (t ∷ ts) = same r t && is_within_root rs ts

abbrev pub is_hidden : Bytes → Bool
is_hidden [] = false
is_hidden (c ∷ cs) = c == b'.'

unfoldable pub any_hidden : List Bytes → Bool
any_hidden [] = false
any_hidden (p ∷ ps) = is_hidden p || any_hidden ps

-- On the elements of the relative path, and where there is an error.
unfoldable pub is_denied_by_policy : Option (List Bytes) → Bool
unfolding any_hidden
is_denied_by_policy none = true
is_denied_by_policy (some []) = false
is_denied_by_policy (some (p ∷ ps)) =
    if is_empty_list ps && same p (codes ".")
    then false
    else same (lower p) (codes "config") || any_hidden (p ∷ ps)
  where
    is_empty_list : List Bytes → Bool
    is_empty_list [] = true
    is_empty_list (q ∷ qs) = false

-- `resize` at the place that was found.
abbrev pub cut_at : Option ℕ → Bytes → Bytes
cut_at none s = s
cut_at (some n) s = take n s

abbrev pub with_slash : Bytes → Bytes
with_slash [] = b'/' ∷ []
with_slash (c ∷ cs) = if c == b'/' then c ∷ cs else b'/' ∷ c ∷ cs

unfoldable pub normalize_url_path : Bytes → Bytes
normalize_url_path raw_url =
    let path = cut_at (find (b'?' ∷ []) raw_url) raw_url in
    with_slash (cut_at (find (b'#' ∷ []) path) path)

-- `is_directory` gives its value, and whether the error code is set.
pub record FileSystem (P : Type 0) : Type 0 where
  pub of_string : Bytes → P
  pub relative_path : P → P
  pub append : P → P → P
  pub parent_path : P → P
  pub parts : P → List Bytes
  pub equal : P → P → Bool
  pub filename : P → Bytes
  pub extension : P → Bytes
  pub generic_string : P → Bytes
  pub weakly_canonical : P → Option P
  pub relative : P → P → Option P
  pub entries : P → Option (List P)
  pub entry_is_directory : P → Bool
  pub exists : P → Option Bool
  pub is_directory : P → Bool × Bool
  pub read : P → Option Bytes

module _ {P : Type 0} (fs : FileSystem P) where
  -- The elements of the path of `target` below `root`.
  abbrev pub parts_below : Option P → Option (List Bytes)
  parts_below none = none
  parts_below (some p) = some (fs.parts p)

  abbrev pub is_denied : P → P → Bool
  is_denied root target = is_denied_by_policy (parts_below (fs.relative target root))
