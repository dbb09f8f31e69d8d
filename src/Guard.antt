-- ===== src/Guard.antt =====
-- src/utils/SqlStatementGuard.cpp: which SQL statements count as read-only.
pub mod Case
use cpp_reactor.Base.{
  ℕ, ◌+◌, ◌≡◌, refl, sym, ap, ◌∙◌, Bool, true, false, not, ◌&&◌, ◌||◌, Option, none, some, List, [],
  ◌∷◌, Bytes, codes, same, is_empty, is_space, is_alpha, to_upper, upper, contains, find,
  starts_with, shift, within, All, ◌==◌, if◌then◌else◌, arith, Bool-cases, inl, inr,
}

unfoldable pub trim_front : Bytes → Bytes
trim_front [] = []
trim_front (c ∷ cs) = if is_space c then trim_front cs else c ∷ cs

unfoldable pub trim_back : Bytes → Bytes
trim_back [] = []
trim_back (c ∷ cs) = let rest = trim_back cs in if is_empty rest && is_space c then [] else c ∷ rest

unfoldable pub trim : Bytes → Bytes
unfolding trim_front trim_back
trim s = trim_back (trim_front s)

unfoldable pub ends_in_semicolon : Bytes → Bool
ends_in_semicolon [] = false
ends_in_semicolon (c ∷ []) = c == b';'
ends_in_semicolon (c ∷ d ∷ ds) = ends_in_semicolon (d ∷ ds)

unfoldable pub remove_last : Bytes → Bytes
remove_last [] = []
remove_last (c ∷ []) = []
remove_last (c ∷ d ∷ ds) = c ∷ remove_last (d ∷ ds)

unfoldable pub leading_word : Bytes → Bytes
leading_word [] = []
leading_word (c ∷ cs) = let rest = leading_word cs in if is_alpha c then c ∷ rest else []

unfoldable pub compact : Bytes → Bytes
compact [] = []
compact (c ∷ cs) = let rest = compact cs in if is_space c then rest else to_upper c ∷ rest

unfoldable pub is_keyword : Bytes → Bool
is_keyword k =
    same k (codes "SELECT")
    || same k (codes "SHOW")
    || same k (codes "DESCRIBE")
    || same k (codes "DESC")
    || same k (codes "EXPLAIN")

-- `kForbiddenTokens`.
abbrev pub forbidden_tokens : List Bytes
forbidden_tokens =
    codes "INTOOUTFILE"
    ∷ codes "INTODUMPFILE"
    ∷ codes "FORUPDATE"
    ∷ codes "FORSHARE"
    ∷ codes "LOCKINSHAREMODE"
    ∷ codes "LOAD_FILE("
    ∷ codes "SLEEP("
    ∷ codes "BENCHMARK("
    ∷ codes "GET_LOCK("
    ∷ codes "RELEASE_LOCK("
    ∷ []

unfoldable pub contains_any : List Bytes → Bytes → Bool
contains_any [] s = false
contains_any (t ∷ ts) s = contains t s || contains_any ts s

unfoldable pub is_allowed : Bytes → Bool
unfolding leading_word is_keyword compact contains_any
is_allowed s =
    let word = leading_word s in
    if is_empty word
    then false
    else if not (is_keyword (upper word))
    then false
    else not (contains_any forbidden_tokens (compact s))

-- Without its last semicolon.
unfoldable pub is_single : Bytes → Bool
unfolding is_allowed
is_single s =
    if contains (codes ";") s
    then false
    else if contains (codes "--") s || contains (codes "#") s || contains (codes "/*") s
    then false
    else is_allowed s

unfoldable pub is_trimmed : Bytes → Bool
unfolding ends_in_semicolon remove_last trim is_single
is_trimmed s =
    if is_empty s
    then false
    else if ends_in_semicolon s
    then (let t = trim (remove_last s) in if is_empty t then false else is_single t)
    else is_single s

unfoldable pub is_read_only_statement : Bytes → Bool
unfolding trim is_trimmed
is_read_only_statement sql = is_trimmed (trim sql)
