-- ===== src/Http/Router/Match.antt =====
-- What a match of src/protocol/HttpRouter.cpp means, as a relation of pattern, path and values.
use cpp_reactor.Base.{
  ℕ, suc, ◌≡◌, refl, sym, ap, Bool, true, false, some, List, [], ◌∷◌, Bytes, same, same_iff, length,
  ◌==◌, ==_iff, subst, arith, Bool-cases, inl, inr,
}
use cpp_reactor.Http.Request.Entry.{set_param}
use cpp_reactor.Http.Router.{match_from, match_segments}

-- A parameter segment starts with a colon.
abbrev pub is_param : Bytes → Bool
is_param [] = false
is_param (c ∷ cs) = c == b':'

-- The pattern, the path's segments, and the values in the order of the pattern.
pub data Fits : List Bytes → List Bytes → List (Bytes × Bytes) → Type 0 where
  ends : Fits [] [] []
  literal :
      {s : Bytes} {ps us : List Bytes} {vs : List (Bytes × Bytes)}
      → is_param s ≡ false
      → Fits ps us vs
      → Fits (s ∷ ps) (s ∷ us) vs
  param :
      {k v : Bytes} {ps us : List Bytes} {vs : List (Bytes × Bytes)}
      → Fits ps us vs
      → Fits ((b':' ∷ k) ∷ ps) (v ∷ us) ((k, v) ∷ vs)

-- Later values replace earlier ones of the same name.
abbrev pub collect : List (Bytes × Bytes) → List (Bytes × Bytes) → List (Bytes × Bytes)
collect [] acc = acc
collect ((k, v) ∷ vs) acc = collect vs (set_param k v acc)

same_refl : (s : Bytes) → same s s ≡ true
same_refl s = (same_iff s s).1 refl

match_from-Fits :
    {ps us : List Bytes} {vs : List (Bytes × Bytes)} (acc : List (Bytes × Bytes))
    → Fits ps us vs
    → match_from ps us acc ≡ some (collect vs acc)
unfolding match_from
match_from-Fits acc ends = refl
match_from-Fits acc (literal {s = []} h f) = match_from-Fits acc f
match_from-Fits acc (literal {s = c ∷ cs} h f) = rw (h, same_refl (c ∷ cs)) (match_from-Fits acc f)
match_from-Fits acc (param {k = k} {v = v} f) = match_from-Fits (set_param k v acc) f

-- What a successful match found.
pub record Found (ps us : List Bytes) (params acc : List (Bytes × Bytes)) : Type 0 where
  pub values : List (Bytes × Bytes)
  pub fits : Fits ps us values
  pub collected : params ≡ collect values acc

Found-param :
    (c : ℕ) (cs u : Bytes) (ps us : List Bytes) (params acc : List (Bytes × Bytes))
    → c ≡ b':'
    → Found ps us params (set_param cs u acc)
    → Found ((c ∷ cs) ∷ ps) (u ∷ us) params acc
Found-param c cs u ps us params acc e f = record {
  values = (cs, u) ∷ f.values;
  fits = subst (λ x. Fits ((x ∷ cs) ∷ ps) (u ∷ us) ((cs, u) ∷ f.values)) (sym e) (param f.fits);
  collected = f.collected;
}

Found-literal :
    (s u : Bytes) (ps us : List Bytes) (params acc : List (Bytes × Bytes))
    → is_param s ≡ false
    → s ≡ u
    → Found ps us params acc
    → Found (s ∷ ps) (u ∷ us) params acc
Found-literal s u ps us params acc h e f = record {
  values = f.values;
  fits = subst (λ x. Fits (s ∷ ps) (x ∷ us) f.values) e (literal h f.fits);
  collected = f.collected;
}

match_from-Found :
    (ps us : List Bytes) (params acc : List (Bytes × Bytes))
    → match_from ps us acc ≡ some params
    → Found ps us params acc
unfolding match_from
match_from-Found [] [] params acc h = record { values = []; fits = ends; collected = cc }
match_from-Found [] (u ∷ us) params acc h = absurd (ground (arith, h))
match_from-Found (p ∷ ps) [] params acc h = absurd (ground (arith, h))
match_from-Found ([] ∷ ps) ([] ∷ us) params acc h =
    Found-literal [] [] ps us params acc refl refl (match_from-Found ps us params acc h)
match_from-Found ([] ∷ ps) ((x ∷ xs) ∷ us) params acc h = absurd (ground (arith, h))
match_from-Found ((c ∷ cs) ∷ ps) (u ∷ us) params acc h = elim (Bool-cases (c == b':')) [
  | inl e ↦
      Found-param c cs u ps us params acc ((==_iff c b':').0 e)
        (match_from-Found ps us params (set_param cs u acc) (rw (e) at h))
  | inr e ↦ elim (Bool-cases (same (c ∷ cs) u)) [
    | inl t ↦
        Found-literal (c ∷ cs) u ps us params acc e ((same_iff (c ∷ cs) u).0 t)
          (match_from-Found ps us params acc (rw (e, t) at h))
    | inr t ↦ absurd (ground (arith, rw (e, t) at h))
  ]
]

length-Fits :
    {ps us : List Bytes} {vs : List (Bytes × Bytes)} → Fits ps us vs → length ps ≡ length us
length-Fits ends = refl
length-Fits (literal h f) = ap suc (length-Fits f)
length-Fits (param f) = ap suc (length-Fits f)

equal_lengths : (n m : ℕ) → n ≡ m → (n == m) ≡ true
equal_lengths n m h = (==_iff n m).1 h

-- Where a pattern fits a path with some values, it matches, and the parameters are those values, the
-- last one of each name.
pub match_segments-Fits :
    (ps us : List Bytes) (vs : List (Bytes × Bytes))
    → Fits ps us vs
    → match_segments ps us ≡ some (collect vs [])
unfolding match_segments
match_segments-Fits ps us vs f = rw (equal_lengths _ _ (length-Fits f)) (match_from-Fits [] f)

-- Where a pattern matches a path, it fits it segment by segment, with values that give the
-- parameters of the match.
pub match_segments-Found :
    (ps us : List Bytes) (params : List (Bytes × Bytes))
    → match_segments ps us ≡ some params
    → Found ps us params []
unfolding match_segments
match_segments-Found ps us params h = elim (Bool-cases (length ps == length us)) [
  | inl e ↦ match_from-Found ps us params [] (rw (e) at h)
  | inr e ↦ absurd (ground (arith, rw (e) at h))
]
