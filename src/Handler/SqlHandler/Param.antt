-- ===== src/Handler/SqlHandler/Param.antt =====
-- src/handler/SqlHandler.cpp: a query that a client encodes is the one that the handler reads.
use cpp_reactor.Base.{
  ℕ, zero, suc, ◌+◌, ◌<◌, ◌≡◌, ◌≢◌, refl, sym, ◌∙◌, ap, Option, none, some, [], ◌∷◌, ◌++◌,
  append-nil, Bytes, codes, All, All-append, length, drop, drop-drop, drop-append, take-append,
  find, find-append, find_absent, length-append, arith,
}
use cpp_reactor.Url.{
  url_encode_path_component, url_decode-url_encode_path_component, url_encode_path_component-IsSafe,
  IsSafe,
}
use cpp_reactor.Handler.SqlHandler.{
  search_segments, search_query, extract_sql_param, segment_value, first_segment,
}

-- The rest of a query string, which other parameters may make up.
abbrev pub more : Option Bytes → Bytes
more none = []
more (some s) = b'&' ∷ s

safe_ne : (c : ℕ) → IsSafe c → c ≢ b'&'
safe_ne c h e = ground (arith, h, e)

no_ampersand : (s : Bytes) → All IsSafe s → All (λ c. c ≢ b'&') s
no_ampersand [] h = tt
no_ampersand (c ∷ cs) h = (safe_ne c h.0, no_ampersand cs h.1)

abbrev assignment : Bytes → Bytes
assignment s = codes "sql=" ++ url_encode_path_component s

assignment_ne : (s : Bytes) → All (λ c. c ≢ b'&') (assignment s)
assignment_ne s =
    All-append (λ c. c ≢ b'&') (codes "sql=") (url_encode_path_component s)
      (
        (λ e. ground (arith, e)),
        ((λ e. ground (arith, e)), ((λ e. ground (arith, e)), ((λ e. ground (arith, e)), tt))),
      )
      (no_ampersand _ (url_encode_path_component-IsSafe s))

segment_value-assignment :
    (s : Bytes)
    → All (λ c. c < 256) s
    → segment_value (assignment s) (find (b'=' ∷ []) (assignment s)) ≡ some s
unfolding find
segment_value-assignment s h = ap some (url_decode-url_encode_path_component s h)

first_segment-assignment :
    (s : Bytes) (o : Option Bytes)
    → first_segment (find (b'&' ∷ []) (assignment s ++ more o)) (assignment s ++ more o)
      ≡ assignment s
first_segment-assignment s none =
    let e : assignment s ++ [] ≡ assignment s = append-nil (assignment s) in
    rw (e, find_absent b'&' [] (assignment s) (assignment_ne s)) refl
first_segment-assignment s (some t) =
    rw (find-append b'&' [] (assignment s) (b'&' ∷ t) (assignment_ne s) (unfold find in refl))
      (take-append (length (assignment s)) (assignment s) (b'&' ∷ t) refl)

search_segments-assignment :
    (fuel : ℕ) (s : Bytes) (o : Option Bytes)
    → 0 < fuel
    → All (λ c. c < 256) s
    → search_segments fuel (assignment s ++ more o) ≡ s
unfolding search_segments
search_segments-assignment zero s o k h = absurd (omega arith)
search_segments-assignment (suc fuel) s o k h =
    rw (first_segment-assignment s o, segment_value-assignment s h) refl

-- A query that is encoded into the parameter `sql`, which stands first behind the path, is extracted
-- as it was, if it consists of bytes and the path has no `?`; other parameters may follow.
pub extract_sql_param-url_encode_path_component :
    (path s : Bytes) (o : Option Bytes)
    → All (λ c. c ≢ b'?') path
    → All (λ c. c < 256) s
    → extract_sql_param (path ++ (codes "?sql=" ++ (url_encode_path_component s ++ more o))) ≡ s
unfolding extract_sql_param
extract_sql_param-url_encode_path_component path s o p h =
    let query = assignment s ++ more o in
    let behind : drop (length path + 1) (path ++ b'?' ∷ query) ≡ query =
      sym (drop-drop 1 (length path) (path ++ b'?' ∷ query))
      ∙ ap (drop 1) (drop-append (length path) path (b'?' ∷ query) refl) in
    let url = path ++ b'?' ∷ query in
    ap (λ q. search_query q url) (find-append b'?' [] path (b'?' ∷ query) p (unfold find in refl))
    ∙ ap (search_segments (length url)) behind
    ∙ search_segments-assignment (length url) s o (omega (arith, length-append path (b'?' ∷ query)))
        h
