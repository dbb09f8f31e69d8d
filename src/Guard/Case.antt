-- ===== src/Guard/Case.antt =====
-- The verdict of src/utils/SqlStatementGuard.cpp on a statement written in another case.
use cpp_reactor.Base.{
  ℕ, ◌≡◌, refl, sym, ap, ◌∙◌, Bool, true, false, ◌&&◌, none, some, [], ◌∷◌, Bytes, codes, is_empty,
  is_space, is_alpha, to_upper, upper, contains, find, starts_with, shift, All, ◌==◌, if◌then◌else◌,
  arith,
}
use cpp_reactor.Guard.{
  trim_front, trim_back, trim, ends_in_semicolon, remove_last, leading_word, compact, is_allowed,
  is_single, is_trimmed, is_read_only_statement,
}

is_space-to_upper : (c : ℕ) → is_space (to_upper c) ≡ is_space c
is_space-to_upper c = ground arith

is_alpha-to_upper : (c : ℕ) → is_alpha (to_upper c) ≡ is_alpha c
is_alpha-to_upper c = ground arith

to_upper_twice : (c : ℕ) → to_upper (to_upper c) ≡ to_upper c
to_upper_twice c = ground arith

is_empty-upper : (s : Bytes) → is_empty (upper s) ≡ is_empty s
is_empty-upper [] = refl
is_empty-upper (c ∷ cs) = refl

upper_twice : (s : Bytes) → upper (upper s) ≡ upper s
upper_twice [] = refl
upper_twice (c ∷ cs) = λ i. to_upper_twice c i ∷ upper_twice cs i

upper-if : (b : Bool) (s t : Bytes) → upper (if b then s else t) ≡ (if b then upper s else upper t)
upper-if true s t = refl
upper-if false s t = refl

trim_front-upper : (s : Bytes) → trim_front (upper s) ≡ upper (trim_front s)
unfolding trim_front
trim_front-upper [] = refl
trim_front-upper (c ∷ cs) =
    rw (is_space-to_upper c, trim_front-upper cs)
      (sym (upper-if (is_space c) (trim_front cs) (c ∷ cs)))

trim_back-upper : (s : Bytes) → trim_back (upper s) ≡ upper (trim_back s)
unfolding trim_back
trim_back-upper [] = refl
trim_back-upper (c ∷ cs) =
    rw (is_space-to_upper c, trim_back-upper cs, is_empty-upper (trim_back cs))
      (sym (upper-if (is_empty (trim_back cs) && is_space c) [] (c ∷ trim_back cs)))

trim-upper : (s : Bytes) → trim (upper s) ≡ upper (trim s)
unfolding trim
trim-upper s = ap trim_back (trim_front-upper s) ∙ trim_back-upper (trim_front s)

ends-upper : (s : Bytes) → ends_in_semicolon (upper s) ≡ ends_in_semicolon s
unfolding ends_in_semicolon
ends-upper [] = refl
ends-upper (c ∷ []) = ground arith
ends-upper (c ∷ d ∷ ds) = ends-upper (d ∷ ds)

remove_last-upper : (s : Bytes) → remove_last (upper s) ≡ upper (remove_last s)
unfolding remove_last
remove_last-upper [] = refl
remove_last-upper (c ∷ []) = refl
remove_last-upper (c ∷ d ∷ ds) = ap (◌∷◌ (to_upper c)) (remove_last-upper (d ∷ ds))

leading_word-upper : (s : Bytes) → leading_word (upper s) ≡ upper (leading_word s)
unfolding leading_word
leading_word-upper [] = refl
leading_word-upper (c ∷ cs) =
    rw (is_alpha-to_upper c, leading_word-upper cs)
      (sym (upper-if (is_alpha c) (c ∷ leading_word cs) []))

compact-upper : (s : Bytes) → compact (upper s) ≡ compact s
unfolding compact
compact-upper [] = refl
compact-upper (c ∷ cs) = rw (is_space-to_upper c, to_upper_twice c, compact-upper cs) refl

-- A byte that is no letter.
IsSign : ℕ → Type 0
IsSign q = (c : ℕ) → (q == to_upper c) ≡ (q == c)

starts_with-upper : (p s : Bytes) → All IsSign p → starts_with p (upper s) ≡ starts_with p s
unfolding IsSign
starts_with-upper [] s h = refl
starts_with-upper (q ∷ qs) [] h = refl
starts_with-upper (q ∷ qs) (c ∷ cs) h = λ i. h.0 c i && starts_with-upper qs cs h.1 i

find-upper : (p s : Bytes) → All IsSign p → find p (upper s) ≡ find p s
unfolding find
find-upper p [] h = refl
find-upper p (c ∷ cs) h =
    λ i. if starts_with-upper p (c ∷ cs) h i then some 0 else shift (find-upper p cs h i)

contains-upper : (p s : Bytes) → All IsSign p → contains p (upper s) ≡ contains p s
contains-upper p s h = λ i. elim (find-upper p s h i) [ none ↦ false | some j ↦ true ]

is_allowed-upper : (s : Bytes) → is_allowed (upper s) ≡ is_allowed s
unfolding is_allowed
is_allowed-upper s =
    rw
      (
        leading_word-upper s,
        compact-upper s,
        is_empty-upper (leading_word s),
        upper_twice (leading_word s),
      )
      refl

is_single-upper : (s : Bytes) → is_single (upper s) ≡ is_single s
unfolding is_single IsSign
is_single-upper s =
    rw
      (
        contains-upper (codes ";") s ((λ c. ground arith), tt),
        contains-upper (codes "--") s ((λ c. ground arith), ((λ c. ground arith), tt)),
        contains-upper (codes "#") s ((λ c. ground arith), tt),
        contains-upper (codes "/*") s ((λ c. ground arith), ((λ c. ground arith), tt)),
        is_allowed-upper s,
      )
      refl

is_trimmed-upper : (s : Bytes) → is_trimmed (upper s) ≡ is_trimmed s
unfolding is_trimmed
is_trimmed-upper s =
    rw
      (
        is_empty-upper s,
        ends-upper s,
        remove_last-upper s,
        trim-upper (remove_last s),
        is_empty-upper (trim (remove_last s)),
        is_single-upper s,
        is_single-upper (trim (remove_last s)),
      )
      refl

-- The verdict on a statement does not depend on the case of its letters.
pub is_read_only_statement-upper :
    (sql : Bytes) → is_read_only_statement (upper sql) ≡ is_read_only_statement sql
unfolding is_read_only_statement
is_read_only_statement-upper sql = ap is_trimmed (trim-upper sql) ∙ is_trimmed-upper (trim sql)
