-- ===== src/Http/Response/Missing.antt =====
-- src/protocol/HttpResponse.cpp: what getCheckReady answers after any calls.
use cpp_reactor.Base.{
  ℕ, ◌+◌, ◌/◌, ◌%◌, ◌<◌, ◌≡◌, refl, sym, ◌∙◌, ap, Bool, true, false, not, ◌&&◌, ◌||◌, Option, none,
  some, List, subst, [], ◌∷◌, ◌++◌, Bytes, is_empty, arith, ◌==◌, ==_iff, if◌then◌else◌,
}
use cpp_reactor.Http.Response.{
  HttpResponse, is_nil, mark, check_ready, create, set_state_line, add_header, addfile,
  get_check_ready,
}

-- A call of one of the operations that any owner of a response may make.
pub data Call : Type 0 where
  set_line : Bytes → ℕ → Bytes → Call
  header : Bytes → Bytes → Call
  file : Bytes → Call
  check : Call

-- An exception leaves the response as it was.
abbrev pub or_same : HttpResponse → Option HttpResponse → HttpResponse
or_same r none = r
or_same r (some r') = r'

abbrev pub happen : Call → HttpResponse → HttpResponse
happen (set_line version status message) r = set_state_line version status message r
happen (header key value) r = or_same r (add_header key value r)
happen (file name) r = addfile name r
happen check r = (get_check_ready r).2

abbrev pub happen_all : List Call → HttpResponse → HttpResponse
happen_all [] r = r
happen_all (c ∷ cs) r = happen_all cs (happen c r)

-- Whether a call supplies the line, a header, or a file.
abbrev pub gives_line : Call → Bool
gives_line (set_line version status message) = true
gives_line _ = false

abbrev pub gives_header : Call → Bool
gives_header (header key value) = not (is_empty key) && not (is_empty value)
gives_header _ = false

abbrev pub gives_file : Call → Bool
gives_file (file name) = true
gives_file _ = false

abbrev pub any : (Call → Bool) → List Call → Bool
any p [] = false
any p (c ∷ cs) = p c || any p cs

abbrev pub worth : Bool → ℕ → ℕ
worth missing n = if missing then n else 0

abbrev marked : Bool → Bool → Bool → Bool → ℕ
marked buffer line headers files = worth buffer 1 + worth line 2 + worth headers 4 + worth files 8

-- A mark sets one binary digit.
mark_0 : (b : Bool) (m : ℕ) → (mark b 0 m % 2 ≡ worth b 1) × (mark b 0 m / 2 ≡ m / 2)
mark_0 true m = (ground arith, ground arith)
mark_0 false m = (ground arith, ground arith)

mark_1 : (b : Bool) (m : ℕ) → (mark b 1 m % 4 ≡ m % 2 + worth b 2) × (mark b 1 m / 4 ≡ m / 4)
mark_1 true m = (ground arith, ground arith)
mark_1 false m = (ground arith, ground arith)

mark_2 : (b : Bool) (m : ℕ) → (mark b 2 m % 8 ≡ m % 4 + worth b 4) × (mark b 2 m / 8 ≡ m / 8)
mark_2 true m = (ground arith, ground arith)
mark_2 false m = (ground arith, ground arith)

mark_3 : (b : Bool) (m : ℕ) → (mark b 3 m % 16 ≡ m % 8 + worth b 8) × (mark b 3 m / 16 ≡ m / 16)
mark_3 true m = (ground arith, ground arith)
mark_3 false m = (ground arith, ground arith)

mark_all :
    (a b c d : Bool) (m : ℕ) → m < 16 → mark d 3 (mark c 2 (mark b 1 (mark a 0 m))) ≡ marked a b c d
mark_all a b c d m h =
    let m1 = mark a 0 m in
    let m2 = mark b 1 m1 in
    let m3 = mark c 2 m2 in omega (arith, mark_0 a m, mark_1 b m1, mark_2 c m2, mark_3 d m3)

-- Which parts are missing, of those that were missing before, once parts are supplied or not.
pub record Collected (r r' : HttpResponse) (line headers files : Bool) : Type 0 where
  pub small : r'.ready < 16
  pub buffer : r'.has_response ≡ r.has_response
  pub line_left : is_empty r'.line ≡ is_empty r.line && not line
  pub headers_left : is_nil r'.headers ≡ is_nil r.headers && not headers
  pub files_left : is_nil r'.files ≡ is_nil r.files && not files

and_true : (b : Bool) → b ≡ b && true
and_true true = refl
and_true false = refl

and_false : (b : Bool) → false ≡ b && false
and_false true = refl
and_false false = refl

and-not-or : (a b c d : Bool) → d ≡ (a && not b) && not c → d ≡ a && not (b || c)
and-not-or true true c d h = h
and-not-or true false c d h = h
and-not-or false b c d h = h

is_nil-append : (A : Type 0) (xs : List A) (x : A) → is_nil (xs ++ x ∷ []) ≡ is_nil xs && false
is_nil-append A [] x = refl
is_nil-append A (y ∷ ys) x = refl

kept : (r : HttpResponse) → r.ready < 16 → Collected r r false false false
kept r h = record {
  small = h;
  buffer = refl;
  line_left = and_true _;
  headers_left = and_true _;
  files_left = and_true _;
}

set_line-Collected :
    (version : Bytes) (status : ℕ) (message : Bytes) (r : HttpResponse)
    → r.ready < 16
    → Collected r (set_state_line version status message r) true false false
unfolding set_state_line
set_line-Collected [] status message r h = record {
  small = h;
  buffer = refl;
  line_left = and_false _;
  headers_left = and_true _;
  files_left = and_true _;
}
set_line-Collected (v ∷ vs) status message r h = record {
  small = h;
  buffer = refl;
  line_left = and_false _;
  headers_left = and_true _;
  files_left = and_true _;
}

header-Collected :
    (key value : Bytes) (r : HttpResponse)
    → r.ready < 16
    → Collected r
        (or_same r (add_header key value r))
        false
        (not (is_empty key) && not (is_empty value))
        false
unfolding add_header
header-Collected [] value r h = kept r h
header-Collected (k ∷ ks) [] r h = kept r h
header-Collected (k ∷ ks) (v ∷ vs) r h = record {
  small = h;
  buffer = refl;
  line_left = and_true _;
  headers_left = is_nil-append (Bytes × Bytes) r.headers (k ∷ ks, v ∷ vs);
  files_left = and_true _;
}

-- The parts that are missing, by their bits.
abbrev missing : HttpResponse → ℕ
missing r = marked (not r.has_response) (is_empty r.line) (is_nil r.headers) (is_nil r.files)

marked-small : (a b c d : Bool) → marked a b c d < 16
marked-small a b c d = ground arith

missing-marked :
    (r : HttpResponse) (b l h f : Bool)
    → r.has_response ≡ b
    → is_empty r.line ≡ l
    → is_nil r.headers ≡ h
    → is_nil r.files ≡ f
    → missing r ≡ marked (not b) l h f
missing-marked r b l h f p q s t = rw (p, q, s, t)

if-Fits :
    {A : Type 0} (P : A → Type 0) (b : Bool) (x y : A)
    → (b ≡ true → P x)
    → P y
    → P (if b then x else y)
if-Fits P true x y hx hy = hx refl
if-Fits P false x y hx hy = hy

check_ready-missing : (r : HttpResponse) → r.ready < 16 → (check_ready r).ready ≡ missing r
unfolding check_ready
check_ready-missing r h = mark_all _ _ _ _ r.ready h

check_ready-Collected :
    (r : HttpResponse) → r.ready < 16 → Collected r (check_ready r) false false false
unfolding check_ready
check_ready-Collected r h = record {
  small =
      subst (λ n. n < 16) (sym (check_ready-missing r h))
        (marked-small (not r.has_response) (is_empty r.line) (is_nil r.headers) (is_nil r.files));
  buffer = refl;
  line_left = and_true _;
  headers_left = and_true _;
  files_left = and_true _;
}

get_check_ready-missing :
    (r : HttpResponse)
    → r.ready < 16
    → ((get_check_ready r).0 ≡ missing r) × Collected r (get_check_ready r).2 false false false
unfolding get_check_ready
get_check_ready-missing r h =
    let e = check_ready-missing r h in
    let k = check_ready-Collected r h in
    if-Fits {A = ℕ × List Bytes × HttpResponse}
      (λ t. (t.0 ≡ missing r) × Collected r t.2 false false false) ((check_ready r).ready == 0) _ _
      (λ z. (sym ((==_iff (check_ready r).ready 0).0 z) ∙ e, k)) (e, k)

happen-Collected :
    (c : Call) (r : HttpResponse)
    → r.ready < 16
    → Collected r (happen c r) (gives_line c) (gives_header c) (gives_file c)
unfolding addfile
happen-Collected (set_line version status message) r h =
    set_line-Collected version status message r h
happen-Collected (header key value) r h = header-Collected key value r h
happen-Collected (file name) r h = record {
  small = h;
  buffer = refl;
  line_left = and_true _;
  headers_left = and_true _;
  files_left = is_nil-append Bytes r.files name;
}
happen-Collected check r h = (get_check_ready-missing r h).1

-- What is missing after one call and then others.
left_over : (a b c d e : Bool) → e ≡ d && not c → d ≡ a && not b → e ≡ a && not (b || c)
left_over a b c d e h k = and-not-or a b c e (h ∙ ap (λ x. x && not c) k)

happen_all-Collected :
    (cs : List Call) (r : HttpResponse)
    → r.ready < 16
    → Collected r (happen_all cs r) (any gives_line cs) (any gives_header cs) (any gives_file cs)
happen_all-Collected [] r h = kept r h
happen_all-Collected (c ∷ cs) r h =
    let k = happen-Collected c r h in
    let l = happen_all-Collected cs (happen c r) k.small in
    record {
      small = l.small;
      buffer = l.buffer ∙ k.buffer;
      line_left = left_over _ _ _ _ _ l.line_left k.line_left;
      headers_left = left_over _ _ _ _ _ l.headers_left k.headers_left;
      files_left = left_over _ _ _ _ _ l.files_left k.files_left;
    }

-- A response that is created, on a buffer or on none, answers after any calls of its operations the
-- sum of 1 if there is no buffer, 2 if no call set the line, 4 if no call added a header with a key and
-- a value that are not empty, and 8 if no call added a file.
pub get_check_ready-happen_all :
    (has_response : Bool) (cs : List Call)
    → (get_check_ready (happen_all cs (create has_response))).0
      ≡ worth (not has_response) 1
        + worth (not (any gives_line cs)) 2
        + worth (not (any gives_header cs)) 4
        + worth (not (any gives_file cs)) 8
unfolding create
get_check_ready-happen_all has_response cs =
    let new : HttpResponse = record {
      ready = 15;
      has_response = has_response;
      line = [];
      headers = [];
      files = [];
    } in
    let r = check_ready new in
    let k = check_ready-Collected new (omega arith) in
    let l = happen_all-Collected cs r k.small in
    (get_check_ready-missing (happen_all cs r) l.small).0
    ∙ missing-marked (happen_all cs r) _ _ _ _ (l.buffer ∙ k.buffer)
        (l.line_left ∙ ap (λ b. b && not (any gives_line cs)) k.line_left)
        (l.headers_left ∙ ap (λ b. b && not (any gives_header cs)) k.headers_left)
        (l.files_left ∙ ap (λ b. b && not (any gives_file cs)) k.files_left)
