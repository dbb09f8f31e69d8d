-- ===== src/Base/Search.antt =====
-- `std::string_view::find`, with `none` for npos.
use Prim.Native.Nat.{ℕ, zero, suc, ◌+◌, ◌≤◌}
use mathlib.Core.Path.{◌≡◌, refl, ap}
use mathlib.Core.Bool.{Bool, true, false, ◌&&◌}
use mathlib.Core.Option.{Option, none, some}
use mathlib.Core.Logic.{◌≢◌}
use mathlib.Core.List.{[], ◌∷◌, ◌++◌}
use native.Mathlib.Omega.{arith}
use cpp_reactor.Base.Tests.{◌==◌, if◌then◌else◌}
use cpp_reactor.Base.Lists.{length, drop}
use cpp_reactor.Base.Text.{Bytes, All}

abbrev pub starts_with : Bytes → Bytes → Bool
starts_with [] s = true
starts_with (p ∷ ps) [] = false
starts_with (p ∷ ps) (c ∷ cs) = p == c && starts_with ps cs

abbrev pub shift : Option ℕ → Option ℕ
shift none = none
shift (some i) = some (suc i)

-- The first place at which `p` stands in `s`.
unfoldable pub find : Bytes → Bytes → Option ℕ
find p [] = if starts_with p [] then some 0 else none
find p (c ∷ cs) = if starts_with p (c ∷ cs) then some 0 else shift (find p cs)

-- `find(p, offset)`: the place is counted from the start of `s`.
unfoldable pub find_from : Bytes → ℕ → Bytes → Option ℕ
unfolding find
find_from p zero s = find p s
find_from p (suc n) [] = none
find_from p (suc n) (c ∷ cs) = shift (find_from p n cs)

abbrev pub contains : Bytes → Bytes → Bool
contains p s = elim (find p s) [ none ↦ false | some i ↦ true ]

starts_with-length : (p s : Bytes) → starts_with p s ≡ true → length p ≤ length s
starts_with-length [] s h = omega arith
starts_with-length (p ∷ ps) [] h = absurd (ground arith)
starts_with-length (p ∷ ps) (c ∷ cs) h = ground (arith, starts_with-length ps cs)

-- A found string ends within the text.
pub find_bound : (p s : Bytes) (i : ℕ) → find p s ≡ some i → i + length p ≤ length s
unfolding find
find_bound p [] i h = ground (arith, starts_with-length p [])
find_bound p (c ∷ cs) zero h = ground (arith, starts_with-length p (c ∷ cs))
find_bound p (c ∷ cs) (suc i) h = ground (arith, find_bound p cs i)

-- A string whose first byte does not stand in `xs` is found right behind `xs`.
pub find-append :
    (p : ℕ) (ps xs s : Bytes)
    → All (λ c. c ≢ p) xs
    → starts_with (p ∷ ps) s ≡ true
    → find (p ∷ ps) (xs ++ s) ≡ some (length xs)
unfolding find
find-append p ps [] [] a h = absurd (ground arith)
find-append p ps [] (c ∷ cs) a h = ground arith
find-append p ps (x ∷ xs) s a h = ground (arith, a.0, find-append p ps xs s a.1 h)

pub find_absent : (p : ℕ) (ps xs : Bytes) → All (λ c. c ≢ p) xs → find (p ∷ ps) xs ≡ none
unfolding find
find_absent p ps [] a = ground arith
find_absent p ps (x ∷ xs) a = ground (arith, a.0, find_absent p ps xs a.1)

-- What stands somewhere is found.
pub find_present : (p xs s : Bytes) → starts_with p s ≡ true → find p (xs ++ s) ≢ none
unfolding find
find_present p [] [] h = ground arith
find_present p [] (c ∷ cs) h = ground arith
find_present p (x ∷ xs) s h = ground (arith, find_present p xs s h)

-- Where a string is found it stands.
pub find_sound : (p s : Bytes) (i : ℕ) → find p s ≡ some i → starts_with p (drop i s) ≡ true
unfolding find
find_sound p [] zero h = ground arith
find_sound p [] (suc i) h = absurd (ground arith)
find_sound p (c ∷ cs) zero h = ground arith
find_sound p (c ∷ cs) (suc i) h = ground (arith, find_sound p cs i)

pub starts_with-append : (p s : Bytes) → starts_with p (p ++ s) ≡ true
starts_with-append [] s = refl
starts_with-append (p ∷ ps) s = ground (arith, starts_with-append ps s)

starts_with-append_left :
    (p s t : Bytes) → length p ≤ length s → starts_with p (s ++ t) ≡ starts_with p s
starts_with-append_left [] s t h = refl
starts_with-append_left (p ∷ ps) [] t h = absurd (omega arith)
starts_with-append_left (p ∷ ps) (c ∷ cs) t h =
    ap (λ b. (p == c) && b) (starts_with-append_left ps cs t (omega arith))

-- What is found stays found where it is when more text arrives.
pub find-append_left : (p s t : Bytes) (i : ℕ) → find p s ≡ some i → find p (s ++ t) ≡ some i
unfolding find
find-append_left [] [] [] i h = h
find-append_left [] [] (c ∷ t) i h = h
find-append_left (p ∷ ps) [] t i h = absurd (ground arith)
find-append_left p (c ∷ cs) t zero h =
    ground (arith, starts_with-append_left p (c ∷ cs) t, starts_with-length p (c ∷ cs))
find-append_left p (c ∷ cs) t (suc i) h = ground (
  arith,
  starts_with-append_left p (c ∷ cs) t,
  find_bound p (c ∷ cs) (suc i) h,
  find-append_left p cs t i,
)

pub find_right : (p xs s : Bytes) → find p s ≢ none → find p (xs ++ s) ≢ none
unfolding find
find_right p [] s h = h
find_right p (x ∷ xs) s h = ground (arith, find_right p xs s h)

pub find_from-append :
    (p xs s : Bytes) (n i : ℕ)
    → n ≡ length xs
    → find p s ≡ some i
    → find_from p n (xs ++ s) ≡ some (n + i)
unfolding find_from
find_from-append p [] s zero i h e = ground (arith, e)
find_from-append p [] s (suc n) i h e = absurd (omega arith)
find_from-append p (x ∷ xs) s zero i h e = absurd (omega arith)
find_from-append p (x ∷ xs) s (suc n) i h e =
    ground (arith, find_from-append p xs s n i (omega arith) e)
