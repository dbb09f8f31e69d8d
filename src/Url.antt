-- ===== src/Url.antt =====
-- include/utils/StringUtils.hpp: percent encoding.
use cpp_reactor.Base.{
  ℕ, zero, suc, ◌+◌, ◌-◌, ◌*◌, ◌/◌, ◌%◌, ◌<◌, ◌≡◌, refl, ap, ◌∙◌, Bool, true, false, ◌||◌, [], ◌∷◌,
  Bytes, codes, All, within, is_alpha, is_digit, ◌==◌, if◌then◌else◌, ℤ, pos, negsuc, arith,
  Bool-cases, inl, inr,
}

-- Minus one for a byte that is no hexadecimal digit.
unfoldable pub hex_value : ℕ → ℤ
hex_value c =
    if within b'0' b'9' c
    then pos (c - b'0')
    else if within b'a' b'f' c
    then pos (c - b'a' + 10)
    else if within b'A' b'F' c
    then pos (c - b'A' + 10)
    else negsuc 0

abbrev pub unplus : ℕ → ℕ
unplus c = if c == b'+' then b' ' else c

-- Both digits are there: `(hi << 4) | lo`, else the byte itself.
unfoldable pub unescape : ℤ → ℤ → Bytes → Bytes → Bytes
unescape (pos hi) (pos lo) short long = (hi * 16 + lo) ∷ short
unescape _ _ short long = long

unfoldable pub url_decode : Bytes → Bytes
unfolding unescape
url_decode [] = []
url_decode (c ∷ []) = unplus c ∷ []
url_decode (c ∷ a ∷ []) = unplus c ∷ url_decode (a ∷ [])
url_decode (c ∷ a ∷ b ∷ rest) =
    let short = url_decode rest in
    let long = unplus c ∷ url_decode (a ∷ b ∷ rest) in
    if c == b'%' then unescape (hex_value a) (hex_value b) short long else long

abbrev pub is_unreserved : ℕ → Bool
is_unreserved c = is_alpha c || is_digit c || c == b'-' || c == b'_' || c == b'.' || c == b'~'

abbrev pub table_at : Bytes → ℕ → ℕ
table_at [] n = 0
table_at (c ∷ cs) zero = c
table_at (c ∷ cs) (suc n) = table_at cs n

-- `kHex`.
abbrev pub hex_digit : ℕ → ℕ
hex_digit = table_at (codes "0123456789ABCDEF")

unfoldable pub url_encode_path_component : Bytes → Bytes
url_encode_path_component [] = []
url_encode_path_component (c ∷ cs) =
    let rest = url_encode_path_component cs in
    if is_unreserved c then c ∷ rest else b'%' ∷ hex_digit (c / 16 % 16) ∷ hex_digit (c % 16) ∷ rest

hex_value-hex_digit : (n : ℕ) → n < 16 → hex_value (hex_digit n) ≡ pos n
unfolding hex_value
hex_value-hex_digit zero h = refl
hex_value-hex_digit (suc zero) h = refl
hex_value-hex_digit (suc (suc zero)) h = refl
hex_value-hex_digit (suc (suc (suc zero))) h = refl
hex_value-hex_digit (suc (suc (suc (suc zero)))) h = refl
hex_value-hex_digit (suc (suc (suc (suc (suc zero))))) h = refl
hex_value-hex_digit (suc (suc (suc (suc (suc (suc zero)))))) h = refl
hex_value-hex_digit (suc (suc (suc (suc (suc (suc (suc zero))))))) h = refl
hex_value-hex_digit (suc (suc (suc (suc (suc (suc (suc (suc zero)))))))) h = refl
hex_value-hex_digit (suc (suc (suc (suc (suc (suc (suc (suc (suc zero))))))))) h = refl
hex_value-hex_digit (suc (suc (suc (suc (suc (suc (suc (suc (suc (suc zero)))))))))) h = refl
hex_value-hex_digit (suc (suc (suc (suc (suc (suc (suc (suc (suc (suc (suc zero))))))))))) h = refl
hex_value-hex_digit (suc (suc (suc (suc (suc (suc (suc (suc (suc (suc (suc (suc zero)))))))))))) h =
    refl
hex_value-hex_digit
      (suc (suc (suc (suc (suc (suc (suc (suc (suc (suc (suc (suc (suc zero))))))))))))) h =
    refl
hex_value-hex_digit
      (suc (suc (suc (suc (suc (suc (suc (suc (suc (suc (suc (suc (suc (suc zero)))))))))))))) h =
    refl
hex_value-hex_digit
      (suc (suc (suc (suc (suc (suc (suc (suc (suc (suc (suc (suc (suc (suc (suc zero)))))))))))))))
      h =
    refl
hex_value-hex_digit
      (suc (
        suc
          (suc (suc (suc (suc (suc (suc (suc (suc (suc (suc (suc (suc (suc (suc (n)))))))))))))))))
      h =
    absurd (omega (arith, h))

unreserved_percent : (c : ℕ) → is_unreserved c ≡ true → (c == b'%') ≡ false
unreserved_percent c h = ground arith

unreserved_plus : (c : ℕ) → is_unreserved c ≡ true → (c == b'+') ≡ false
unreserved_plus c h = ground arith

decode_plain :
    (c : ℕ) (s : Bytes)
    → (c == b'%') ≡ false
    → (c == b'+') ≡ false
    → url_decode (c ∷ s) ≡ c ∷ url_decode s
unfolding url_decode
decode_plain c [] h k = rw (k) refl
decode_plain c (a ∷ []) h k = rw (k) refl
decode_plain c (a ∷ b ∷ rest) h k = rw (h, k) refl

decode_escape :
    (hi lo : ℕ) (s : Bytes)
    → hi < 16
    → lo < 16
    → url_decode (b'%' ∷ hex_digit hi ∷ hex_digit lo ∷ s) ≡ (hi * 16 + lo) ∷ url_decode s
unfolding url_decode unescape
decode_escape hi lo s h k = rw (hex_value-hex_digit hi h, hex_value-hex_digit lo k) refl

-- Decoding an encoded string of bytes below 256 gives it back.
pub url_decode-url_encode_path_component :
    (s : Bytes) → All (λ c. c < 256) s → url_decode (url_encode_path_component s) ≡ s
unfolding url_encode_path_component
url_decode-url_encode_path_component [] h = unfold url_decode in refl
url_decode-url_encode_path_component (c ∷ cs) h =
    let rest = url_decode-url_encode_path_component cs h.1 in
    elim (Bool-cases (is_unreserved c)) [
      | inl t ↦
          rw (t) (decode_plain c _ (unreserved_percent c t) (unreserved_plus c t) ∙ ap (◌∷◌ c) rest)
      | inr f ↦ rw (f) (
          decode_escape (c / 16 % 16) (c % 16) (url_encode_path_component cs) (omega arith)
            (omega arith)
          ∙ ap (λ x. x ∷ url_decode (url_encode_path_component cs)) {x = c / 16 % 16 * 16 + c % 16}
              {y = c} (omega (arith, h.0))
          ∙ ap (◌∷◌ c) rest)
    ]

-- A byte that needs no escape, or the sign of one.
abbrev pub IsSafe : ℕ → Type 0
IsSafe c = (is_unreserved c || c == b'%') ≡ true

hex_digit-IsSafe : (n : ℕ) → n < 16 → IsSafe (hex_digit n)
hex_digit-IsSafe zero h = refl
hex_digit-IsSafe (suc zero) h = refl
hex_digit-IsSafe (suc (suc zero)) h = refl
hex_digit-IsSafe (suc (suc (suc zero))) h = refl
hex_digit-IsSafe (suc (suc (suc (suc zero)))) h = refl
hex_digit-IsSafe (suc (suc (suc (suc (suc zero))))) h = refl
hex_digit-IsSafe (suc (suc (suc (suc (suc (suc zero)))))) h = refl
hex_digit-IsSafe (suc (suc (suc (suc (suc (suc (suc zero))))))) h = refl
hex_digit-IsSafe (suc (suc (suc (suc (suc (suc (suc (suc zero)))))))) h = refl
hex_digit-IsSafe (suc (suc (suc (suc (suc (suc (suc (suc (suc zero))))))))) h = refl
hex_digit-IsSafe (suc (suc (suc (suc (suc (suc (suc (suc (suc (suc zero)))))))))) h = refl
hex_digit-IsSafe (suc (suc (suc (suc (suc (suc (suc (suc (suc (suc (suc zero))))))))))) h = refl
hex_digit-IsSafe (suc (suc (suc (suc (suc (suc (suc (suc (suc (suc (suc (suc zero)))))))))))) h =
    refl
hex_digit-IsSafe (suc (suc (suc (suc (suc (suc (suc (suc (suc (suc (suc (suc (suc zero)))))))))))))
      h =
    refl
hex_digit-IsSafe
      (suc (suc (suc (suc (suc (suc (suc (suc (suc (suc (suc (suc (suc (suc zero)))))))))))))) h =
    refl
hex_digit-IsSafe
      (suc (suc (suc (suc (suc (suc (suc (suc (suc (suc (suc (suc (suc (suc (suc zero)))))))))))))))
      h =
    refl
hex_digit-IsSafe
      (suc (
        suc
          (suc (suc (suc (suc (suc (suc (suc (suc (suc (suc (suc (suc (suc (suc (n)))))))))))))))))
      h =
    absurd (omega (arith, h))

unreserved-IsSafe : (c : ℕ) → is_unreserved c ≡ true → IsSafe c
unreserved-IsSafe c h = rw (h) refl

-- An encoded byte string holds only letters, digits, `-`, `_`, `.`, `~` and `%`.
pub url_encode_path_component-IsSafe : (s : Bytes) → All IsSafe (url_encode_path_component s)
unfolding url_encode_path_component
url_encode_path_component-IsSafe [] = tt
url_encode_path_component-IsSafe (c ∷ cs) =
    let rest = url_encode_path_component-IsSafe cs in
    elim (Bool-cases (is_unreserved c)) [
      | inl t ↦ rw (t) (unreserved-IsSafe c t, rest)
      | inr f ↦ rw (f) (
        refl,
        (
          hex_digit-IsSafe (c / 16 % 16) (omega arith),
          (hex_digit-IsSafe (c % 16) (omega arith), rest),
        ),
      )
    ]
