-- ===== src/Base/Decimal.antt =====
-- Decimal numbers: `std::to_string`, and `std::from_chars` for a `size_t`.
use Prim.Native.Nat.{ℕ, zero, suc, ◌+◌, ◌-◌, ◌*◌, ◌/◌, ◌%◌, ◌^◌, ◌<◌}
use mathlib.Core.Path.{◌≡◌, refl, ap, ◌∙◌}
use mathlib.Core.Bool.{true}
use mathlib.Core.Option.{Option, none, some}
use mathlib.Core.List.{[], ◌∷◌}
use mathlib.Core.Logic.{inl, inr}
use native.Mathlib.Omega.{arith}
use cpp_reactor.Base.Tests.{ltb, if◌then◌else◌, Bool-cases, lt→ltb, ltb→lt, not-ltb→le}
use cpp_reactor.Base.Text.{Bytes, is_digit}

-- The digits of `n` in front of `acc`.
unfoldable pub digits_onto : ℕ → ℕ → Bytes → Bytes
digits_onto zero n acc = acc
digits_onto (suc fuel) n acc =
    let rest = digits_onto fuel (n / 10) ((b'0' + n % 10) ∷ acc) in
    if ltb n 10 then (b'0' + n) ∷ acc else rest

-- A number has fewer digits than `n + 1`.
unfoldable pub to_string : ℕ → Bytes
unfolding digits_onto
to_string n = digits_onto (suc n) n []

-- `std::from_chars` for a `size_t` in base ten, accepted where it reads to the end: a number that
-- needs more than 64 bits, no digit at all and a byte that is no digit are errors.
unfoldable pub decimal : ℕ → Bytes → Option ℕ
decimal n [] = if ltb n (2 ^ 64) then some n else none
decimal n (c ∷ cs) = if is_digit c then decimal (n * 10 + (c - b'0')) cs else none

unfoldable pub from_chars : Bytes → Option ℕ
unfolding decimal
from_chars [] = none
from_chars (c ∷ cs) = decimal 0 (c ∷ cs)

decimal-digit :
    (m d : ℕ) (acc : Bytes) → d < 10 → decimal m ((b'0' + d) ∷ acc) ≡ decimal (m * 10 + d) acc
unfolding decimal
decimal-digit m d acc h =
    let e : is_digit (b'0' + d) ≡ true = ground arith in
    let f : m * 10 + (b'0' + d - b'0') ≡ m * 10 + d = omega arith in
    rw e (ap (λ k. decimal k acc) f)

decimal-digits_onto :
    (fuel n : ℕ) (acc : Bytes) → n < fuel → decimal 0 (digits_onto fuel n acc) ≡ decimal n acc
unfolding digits_onto
decimal-digits_onto zero n acc h = elim h [ ]
decimal-digits_onto (suc fuel) n acc h = elim (Bool-cases (ltb n 10)) [
  | inl t ↦ rw t (
      decimal-digit 0 n acc (ltb→lt n 10 t)
      ∙ ap (λ k. decimal k acc) {x = 0 * 10 + n} {y = n} (omega arith))
  | inr f ↦
      let big = not-ltb→le n 10 f in
      rw f (
        decimal-digits_onto fuel (n / 10) ((b'0' + n % 10) ∷ acc) (omega arith)
        ∙ decimal-digit (n / 10) (n % 10) acc (omega arith)
        ∙ ap (λ k. decimal k acc) {x = n / 10 * 10 + n % 10} {y = n} (omega arith))
]

decimal-from_chars :
    (n : ℕ) (s : Bytes) → decimal 0 s ≡ some n → (s ≡ [] → ⊥) → from_chars s ≡ some n
unfolding from_chars
decimal-from_chars n [] e h = absurd (h refl)
decimal-from_chars n (c ∷ cs) e h = e

digits_onto_ne : (fuel n : ℕ) (acc : Bytes) → digits_onto (suc fuel) n acc ≡ [] → ⊥
unfolding digits_onto
digits_onto_ne zero n acc h = elim (Bool-cases (ltb n 10)) [
  | inl t ↦ cc (rw t at h)
  | inr f ↦ cc (rw f at h)
]
digits_onto_ne (suc fuel) n acc h = elim (Bool-cases (ltb n 10)) [
  | inl t ↦ cc (rw t at h)
  | inr f ↦ digits_onto_ne fuel (n / 10) ((b'0' + n % 10) ∷ acc) (rw f at h)
]

-- A printed number is read back.
pub from_chars-to_string : (n : ℕ) → n < 2 ^ 64 → from_chars (to_string n) ≡ some n
unfolding to_string
from_chars-to_string n h =
    decimal-from_chars n (digits_onto (suc n) n [])
      (decimal-digits_onto (suc n) n [] (omega arith) ∙ unfold decimal in rw (lt→ltb n (2 ^ 64) h))
      (digits_onto_ne n n [])
