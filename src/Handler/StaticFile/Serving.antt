-- ===== src/Handler/StaticFile/Serving.antt =====
-- src/handler/StaticFileHandler.cpp: the answer to a request. An answer `none` is an exception.
use cpp_reactor.Base.{
  ◌≡◌, refl, ◌⊎◌, inl, inr, Bool, true, false, not, ◌&&◌, Option, none, some, Bytes, codes, same,
  if◌then◌else◌, pos, ℕ, ◌≢◌, subst, arith, same_iff,
}
use cpp_reactor.Url.{url_decode}
use cpp_reactor.Http.Request.{HttpRequest}
use cpp_reactor.Connection.{HandlerResult, default_result}
use cpp_reactor.Handler.StaticFile.{
  content_type_from_path, is_within_root, normalize_url_path, FileSystem, is_denied,
}
use cpp_reactor.Handler.StaticFile.Listing.{build_dir_html}

abbrev pub answer : ℕ → Bytes → Bytes → HandlerResult
answer status reason body = record default_result {
  status_code = pos status;
  reason_phrase = reason;
  body = body;
}

abbrev pub method_not_allowed : HandlerResult
method_not_allowed = answer 405 (codes "Method Not Allowed") (codes "Only GET is supported.\n")

abbrev pub healthy : HandlerResult
healthy = answer 200 (codes "OK") (codes "ok\n")

abbrev pub outside : HandlerResult
outside = answer 403 (codes "Forbidden") (codes "Path is outside of static root.\n")

abbrev pub not_allowed : HandlerResult
not_allowed = answer 403 (codes "Forbidden") (codes "Path is not allowed.\n")

abbrev pub not_found : HandlerResult
not_found = answer 404 (codes "Not Found") (codes "Not Found\n")

abbrev pub list_failed : HandlerResult
list_failed = answer 500 (codes "Internal Server Error") (codes "Failed to list directory.\n")

abbrev pub open_failed : HandlerResult
open_failed = answer 500 (codes "Internal Server Error") (codes "Failed to open file.\n")

abbrev pub directory_answer : Option Bytes → Option HandlerResult
directory_answer none = none
directory_answer (some html) =
    some (record (answer 200 (codes "OK") html) { content_type = codes "text/html; charset=utf-8" })

abbrev pub file_answer : Bytes → Option Bytes → HandlerResult
file_answer ext none = open_failed
file_answer ext (some body) = record (answer 200 (codes "OK") body) {
  content_type = content_type_from_path ext;
}

module _ {P : Type 0} (fs : FileSystem P) where
  -- The constructor.
  abbrev pub create : P → Option P
  create root = fs.weakly_canonical root

  abbrev pub found : P → P → Bytes → Bool × Bool → Option HandlerResult
  found root candidate url_path (is_dir, ec) =
      if is_dir
      then (if ec
          then some list_failed
          else directory_answer (build_dir_html fs root candidate url_path))
      else some (file_answer (fs.extension candidate) (fs.read candidate))

  abbrev pub if_exists : P → P → Bytes → Option Bool → Option HandlerResult
  if_exists root candidate url_path none = some not_found
  if_exists root candidate url_path (some false) = some not_found
  if_exists root candidate url_path (some true) =
      found root candidate url_path (fs.is_directory candidate)

  abbrev pub at_candidate : P → Bytes → Option P → Option HandlerResult
  at_candidate root url_path none = none
  at_candidate root url_path (some candidate) =
      if not (is_within_root (fs.parts root) (fs.parts candidate))
      then some outside
      else if is_denied fs root candidate
      then some not_allowed
      else if_exists root candidate url_path (fs.exists candidate)

  unfoldable pub handle : P → HttpRequest → Option HandlerResult
  handle root req =
      let url_path = normalize_url_path req.url in
      let relative = fs.relative_path (fs.of_string (url_decode url_path)) in
      if not (same req.method (codes "GET")) && not (same req.method (codes "get"))
      then some method_not_allowed
      else if same url_path (codes "/healthz")
      then some healthy
      else at_candidate root url_path (fs.weakly_canonical (fs.append root relative))

module _ {P : Type 0} (fs : FileSystem P) (root : P) where
  -- What a file or a page that is sent comes from.
  abbrev pub IsAllowed : Bytes → HandlerResult → Type 0
  IsAllowed url_path r =
      (c : P) × (is_within_root (fs.parts root) (fs.parts c) ≡ true)
      × (is_denied fs root c ≡ false)
      × ((fs.read c ≡ some r.body) ⊎ (build_dir_html fs root c url_path ≡ some r.body))

  abbrev pub IsServed : Bytes → HandlerResult → Type 0
  IsServed url_path r = ((url_path ≡ codes "/healthz") × (r ≡ healthy)) ⊎ IsAllowed url_path r

  abbrev Guarded : Bytes → Option HandlerResult → Type 0
  Guarded url_path none = Unit
  Guarded url_path (some r) = r.status_code ≡ pos 200 → IsServed url_path r

  if-Guarded :
      (b : Bool) (url_path : Bytes) (x y : Option HandlerResult)
      → (b ≡ true → Guarded url_path x)
      → (b ≡ false → Guarded url_path y)
      → Guarded url_path (if b then x else y)
  if-Guarded true url_path x y hx hy = hx refl
  if-Guarded false url_path x y hx hy = hy refl

  error-Guarded :
      (url_path : Bytes) (r : HandlerResult) (n : ℕ)
      → r.status_code ≡ pos n
      → n ≢ 200
      → Guarded url_path (some r)
  error-Guarded url_path r n e ne h = absurd (ground (arith, e, h, ne))

  module _ (c : P) (within : is_within_root (fs.parts root) (fs.parts c) ≡ true)
      (allowed : is_denied fs root c ≡ false) where
    directory-Guarded :
        (url_path : Bytes) (o : Option Bytes)
        → build_dir_html fs root c url_path ≡ o
        → Guarded url_path (directory_answer o)
    directory-Guarded url_path none e = tt
    directory-Guarded url_path (some html) e = λ h. inr (c, within, allowed, inr e)

    file-Guarded :
        (url_path : Bytes) (o : Option Bytes)
        → fs.read c ≡ o
        → Guarded url_path (some (file_answer (fs.extension c) o))
    file-Guarded url_path none e =
        error-Guarded url_path open_failed 500 refl (λ x. ground (arith, x))
    file-Guarded url_path (some body) e = λ h. inr (c, within, allowed, inl e)

    found-Guarded :
        (url_path : Bytes) (d : Bool × Bool) → Guarded url_path (found fs root c url_path d)
    found-Guarded url_path (true, true) =
        error-Guarded url_path list_failed 500 refl (λ x. ground (arith, x))
    found-Guarded url_path (true, false) = directory-Guarded url_path _ refl
    found-Guarded url_path (false, ec) = file-Guarded url_path _ refl

    exists-Guarded :
        (url_path : Bytes) (o : Option Bool) → Guarded url_path (if_exists fs root c url_path o)
    exists-Guarded url_path none =
        error-Guarded url_path not_found 404 refl (λ x. ground (arith, x))
    exists-Guarded url_path (some false) =
        error-Guarded url_path not_found 404 refl (λ x. ground (arith, x))
    exists-Guarded url_path (some true) = found-Guarded url_path (fs.is_directory c)

  at_candidate-Guarded :
      (url_path : Bytes) (o : Option P) → Guarded url_path (at_candidate fs root url_path o)
  at_candidate-Guarded url_path none = tt
  at_candidate-Guarded url_path (some c) =
      if-Guarded (not (is_within_root (fs.parts root) (fs.parts c))) url_path _ _
        (λ e. error-Guarded url_path outside 403 refl (λ x. ground (arith, x)))
        (λ e.
          if-Guarded (is_denied fs root c) url_path _ _
            (λ d. error-Guarded url_path not_allowed 403 refl (λ x. ground (arith, x)))
            (λ d. exists-Guarded c (ground (arith, e)) d url_path (fs.exists c)))

  handle-Guarded : (req : HttpRequest) → Guarded (normalize_url_path req.url) (handle fs root req)
  unfolding handle
  handle-Guarded req =
      let url_path = normalize_url_path req.url in
      if-Guarded (not (same req.method (codes "GET")) && not (same req.method (codes "get")))
        url_path _ _
        (λ e. error-Guarded url_path method_not_allowed 405 refl (λ x. ground (arith, x)))
        (λ e.
          if-Guarded (same url_path (codes "/healthz")) url_path _ _
            (λ h k. inl ((same_iff url_path (codes "/healthz")).0 h, refl))
            (λ h. at_candidate-Guarded url_path _))

  -- An answer with status 200 is the fixed one to `/healthz`, or its body is what a file holds, or the
  -- page of a directory, at a path within the root that the policy does not deny.
  pub handle-IsServed :
      (req : HttpRequest) (r : HandlerResult)
      → handle fs root req ≡ some r
      → r.status_code ≡ pos 200
      → IsServed (normalize_url_path req.url) r
  handle-IsServed req r e h =
      let k : Guarded (normalize_url_path req.url) (some r) =
        subst (Guarded (normalize_url_path req.url)) e (handle-Guarded req) in
      k h
