-- ===== src/Handler/StaticFile/Escape.antt =====
-- src/handler/StaticFileHandler.cpp: what stands in the text that goes into a page, and in a path.
use cpp_reactor.Base.{
  ℕ, zero, suc, ◌≡◌, ◌≢◌, refl, false, ◌||◌, Option, none, some, [], ◌∷◌, Bytes, All, All-append,
  find, shift, ◌==◌, Bool-cases, inl, inr, arith,
}
use cpp_reactor.Handler.StaticFile.{
  escape_byte, html_escape, cut_at, with_slash, normalize_url_path,
}

-- A byte that ends neither a text nor a quoted attribute.
abbrev pub IsInert : ℕ → Type 0
IsInert c = ((c == b'<' || c == b'>') || (c == b'"' || c == 39)) ≡ false

escape_byte-IsInert : (c : ℕ) → All IsInert (escape_byte c)
unfolding escape_byte
escape_byte-IsInert c = elim (Bool-cases (c == b'&')) [
  | inl e ↦ rw (e) (refl, (refl, (refl, (refl, (refl, tt)))))
  | inr e ↦ elim (Bool-cases (c == b'<')) [
    | inl f ↦ rw (e, f) (refl, (refl, (refl, (refl, tt))))
    | inr f ↦ elim (Bool-cases (c == b'>')) [
      | inl g ↦ rw (e, f, g) (refl, (refl, (refl, (refl, tt))))
      | inr g ↦ elim (Bool-cases (c == b'"')) [
        | inl h ↦ rw (e, f, g, h) (refl, (refl, (refl, (refl, (refl, (refl, tt))))))
        | inr h ↦ elim (Bool-cases (c == 39)) [
          | inl i ↦ rw (e, f, g, h, i) (refl, (refl, (refl, (refl, (refl, tt)))))
          | inr i ↦ rw (e, f, g, h, i) (ground (arith, f, g, h, i), tt)
        ]
      ]
    ]
  ]
]

-- Escaped text has no `<`, no `>` and no quotation mark, so that it ends neither the text nor the
-- attribute of a page that it is put into.
pub html_escape-IsInert : (s : Bytes) → All IsInert (html_escape s)
unfolding html_escape
html_escape-IsInert [] = tt
html_escape-IsInert (c ∷ cs) =
    All-append IsInert (escape_byte c) (html_escape cs) (escape_byte-IsInert c)
      (html_escape-IsInert cs)

All-cut_at : (q : ℕ) (o : Option ℕ) (s : Bytes) → All (λ c. c ≢ q) s → All (λ c. c ≢ q) (cut_at o s)
All-cut_at q none s h = h
All-cut_at q (some zero) s h = tt
All-cut_at q (some (suc n)) [] h = tt
All-cut_at q (some (suc n)) (c ∷ cs) h = (h.0, All-cut_at q (some n) cs h.1)

cut_at-shift :
    (p c : ℕ) (o : Option ℕ) (cs : Bytes)
    → c ≢ p
    → All (λ d. d ≢ p) (cut_at o cs)
    → All (λ d. d ≢ p) (cut_at (shift o) (c ∷ cs))
cut_at-shift p c none cs e h = (e, h)
cut_at-shift p c (some n) cs e h = (e, h)

-- What is cut where a byte is found first does not have that byte.
cut_at_ne : (p : ℕ) (s : Bytes) → All (λ c. c ≢ p) (cut_at (find (p ∷ []) s) s)
unfolding find
cut_at_ne p [] = tt
cut_at_ne p (c ∷ cs) = elim (Bool-cases (p == c)) [
  | inl e ↦ rw (e) tt
  | inr e ↦
      rw (e) (cut_at-shift p c (find (p ∷ []) cs) cs (λ x. ground (arith, x, e)) (cut_at_ne p cs))
]

with_slash_lem :
    (q : ℕ) (s : Bytes) → b'/' ≢ q → All (λ c. c ≢ q) s → All (λ c. c ≢ q) (with_slash s)
with_slash_lem q [] e h = (e, tt)
with_slash_lem q (c ∷ cs) e h = elim (Bool-cases (c == b'/')) [
  | inl t ↦ rw (t) h
  | inr t ↦ rw (t) (e, h)
]

starts_with_slash : (s : Bytes) → (rest : Bytes) × (with_slash s ≡ b'/' ∷ rest)
starts_with_slash [] = ([], refl)
starts_with_slash (c ∷ cs) = elim (Bool-cases (c == b'/')) [
  | inl t ↦ (cs, ground (arith, t))
  | inr t ↦ (c ∷ cs, ground (arith, t))
]

-- A normalized path begins with `/` and has no `?` and no `#`.
pub normalize_url_path_lem :
    (url : Bytes)
    → ((rest : Bytes) × (normalize_url_path url ≡ b'/' ∷ rest))
      × All (λ c. c ≢ b'?') (normalize_url_path url)
      × All (λ c. c ≢ b'#') (normalize_url_path url)
unfolding normalize_url_path
normalize_url_path_lem url =
    let path = cut_at (find (b'?' ∷ []) url) url in
    let short = cut_at (find (b'#' ∷ []) path) path in
    (
      starts_with_slash short,
      with_slash_lem b'?' short (λ e. ground (arith, e))
          (All-cut_at b'?' (find (b'#' ∷ []) path) path (cut_at_ne b'?' url)),
      with_slash_lem b'#' short (λ e. ground (arith, e)) (cut_at_ne b'#' path),
    )
