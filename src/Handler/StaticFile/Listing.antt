-- ===== src/Handler/StaticFile/Listing.antt =====
-- src/handler/StaticFileHandler.cpp: the page that lists a directory, which is built with exceptions
-- of the file system passed on.
pub mod Shown
use cpp_reactor.Base.{
  ℕ, ◌+◌, Bool, true, false, not, ◌&&◌, ◌||◌, Option, none, some, List, [], ◌∷◌, ◌++◌, Bytes, codes,
  same, is_empty, ltb, ◌==◌, if◌then◌else◌,
}
use cpp_reactor.Url.{url_encode_path_component}
use cpp_reactor.Handler.StaticFile.{html_escape, FileSystem, is_denied}

-- `operator<` on strings.
unfoldable pub string_lt : Bytes → Bytes → Bool
string_lt [] [] = false
string_lt [] (y ∷ ys) = true
string_lt (x ∷ xs) [] = false
string_lt (x ∷ xs) (y ∷ ys) = ltb x y || (x == y && string_lt xs ys)

abbrev pub push_byte : ℕ → List Bytes → List Bytes
push_byte c [] = (c ∷ []) ∷ []
push_byte c (s ∷ ss) = (c ∷ s) ∷ ss

-- What `std::getline` reads up to each `/`.
unfoldable pub split_slash : Bytes → List Bytes
split_slash [] = [] ∷ []
split_slash (c ∷ cs) =
    let rest = split_slash cs in if c == b'/' then [] ∷ rest else push_byte c rest

unfoldable pub encode_segments : Bytes → List Bytes → Bytes
encode_segments encoded [] = encoded
encode_segments encoded (seg ∷ segs) =
    encode_segments
      (if is_empty seg
        then encoded
        else (if is_empty encoded then [] else encoded ++ b'/' ∷ [])
          ++ url_encode_path_component seg)
      segs

module _ {P : Type 0} (fs : FileSystem P) where
  -- The entries that are shown.
  unfoldable pub allowed_entries : P → List P → List P
  allowed_entries root [] = []
  allowed_entries root (e ∷ es) =
      let rest = allowed_entries root es in if is_denied fs root e then rest else e ∷ rest

  -- Directories come first, and then names decide.
  unfoldable pub before : P → P → Bool
  unfolding string_lt
  before a b =
      if fs.entry_is_directory a
      then not (fs.entry_is_directory b) || string_lt (fs.filename a) (fs.filename b)
      else not (fs.entry_is_directory b) && string_lt (fs.filename a) (fs.filename b)

  unfoldable pub insert_entry : P → List P → List P
  unfolding before
  insert_entry x [] = x ∷ []
  insert_entry x (y ∷ ys) =
      let rest = insert_entry x ys in if before x y then x ∷ y ∷ ys else y ∷ rest

  -- `std::sort`; the names of a directory's entries differ.
  unfoldable pub sort_entries : List P → List P
  unfolding insert_entry
  sort_entries [] = []
  sort_entries (e ∷ es) = insert_entry e (sort_entries es)

  abbrev pub parent_link : Option P → Option Bytes
  parent_link none = none
  parent_link (some p) =
      let s = fs.generic_string p in
      let relative = if same s (codes ".") then [] else s in
      let href = if is_empty relative then codes "/" else codes "/" ++ relative ++ codes "/" in
      some (codes "<li><a href=\"" ++ html_escape href ++ codes "\">..</a></li>")

  -- There is a link to the parent everywhere but in the root.
  unfoldable pub parent_item : P → P → Option Bytes
  parent_item root dir =
      if fs.equal dir root then some [] else parent_link (fs.relative (fs.parent_path dir) root)

  abbrev pub entry_link : P → Option P → Option Bytes
  entry_link e none = none
  entry_link e (some p) =
      let slash = if fs.entry_is_directory e then codes "/" else [] in
      let href = codes "/" ++ encode_segments [] (split_slash (fs.generic_string p)) ++ slash in
      some (
        codes "<li><a href=\""
        ++ html_escape href
        ++ codes "\">"
        ++ html_escape (fs.filename e)
        ++ slash
        ++ codes "</a></li>")

  abbrev pub append_both : Option Bytes → Option Bytes → Option Bytes
  append_both none t = none
  append_both (some s) none = none
  append_both (some s) (some t) = some (s ++ t)

  unfoldable pub entry_items : P → List P → Option Bytes
  entry_items root [] = some []
  entry_items root (e ∷ es) = append_both (entry_link e (fs.relative e root)) (entry_items root es)

  abbrev pub page_head : Bytes → Bytes
  page_head display_url =
      codes "<html><head><meta charset=\"utf-8\"><title>Index of "
      ++ html_escape display_url
      ++ codes "</title></head><body><h2>Index of "
      ++ html_escape display_url
      ++ codes "</h2><ul>"

  abbrev pub page_of : P → P → Bytes → Option (List P) → Option Bytes
  page_of root dir display_url none = none
  page_of root dir display_url (some es) = append_both (some (page_head display_url)) (
      append_both (parent_item root dir) (
        append_both (entry_items root (sort_entries (allowed_entries root es)))
          (some (codes "</ul></body></html>"))))

  unfoldable pub build_dir_html : P → P → Bytes → Option Bytes
  unfolding parent_item entry_items sort_entries allowed_entries
  build_dir_html root dir display_url = page_of root dir display_url (fs.entries dir)
