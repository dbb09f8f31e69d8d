-- ===== src/Http/Router/Paths.antt =====
-- `splitPath_` of src/protocol/HttpRouter.cpp, and the paths that segments are written as.
use cpp_reactor.Base.{
  ℕ, zero, suc, ◌≤◌, ◌<◌, ◌≡◌, ◌≢◌, refl, sym, ap, ◌∙◌, false, List, [], ◌∷◌, ◌++◌, append-nil,
  Bytes, All, All-append, is_empty, length, take, find-append, find_absent, take-append,
  length-append, arith,
}
use cpp_reactor.Http.Request.RoundTrip.{Without, drop_past}
use cpp_reactor.Http.Router.{before_query, skip_slashes, split_loop, segment_at, split_path}

-- A path of these segments.
abbrev pub path_text : List Bytes → Bytes
path_text [] = []
path_text (s ∷ ss) = b'/' ∷ (s ++ path_text ss)

abbrev pub IsSegment : Bytes → Type 0
IsSegment s = (is_empty s ≡ false) × Without b'/' s × Without b'?' s

split_loop-slash : (fuel : ℕ) (s : Bytes) → split_loop fuel (b'/' ∷ s) ≡ split_loop fuel s
unfolding split_loop skip_slashes
split_loop-slash zero s = refl
split_loop-slash (suc fuel) s = refl

skipped : (s t : Bytes) → IsSegment s → skip_slashes (s ++ t) ≡ s ++ t
unfolding skip_slashes
skipped [] t h = absurd (ground (arith, h.0))
skipped (c ∷ cs) t h = ground (arith, h.1.0)

segment_ne : (s t : Bytes) → IsSegment s → is_empty (s ++ t) ≡ false
segment_ne [] t h = absurd (ground (arith, h.0))
segment_ne (c ∷ cs) t h = refl

-- The last segment, and one with a slash behind it.
last_segment :
    (fuel : ℕ) (s : Bytes) → IsSegment s → split_loop (suc fuel) s ≡ s ∷ split_loop fuel []
unfolding split_loop segment_at
last_segment fuel s h =
    let e : skip_slashes s ≡ s =
      sym (ap skip_slashes (append-nil s)) ∙ skipped s [] h ∙ append-nil s in
    let n : is_empty s ≡ false = sym (ap is_empty (append-nil s)) ∙ segment_ne s [] h in
    rw (e, find_absent b'/' [] s h.1, n) refl

inner_segment :
    (fuel : ℕ) (s t : Bytes)
    → IsSegment s
    → split_loop (suc fuel) (s ++ (b'/' ∷ t)) ≡ s ∷ split_loop fuel t
unfolding split_loop segment_at
inner_segment fuel s t h =
    rw
      (skipped s (b'/' ∷ t) h, find-append b'/' [] s (b'/' ∷ t) h.1 refl, segment_ne s (b'/' ∷ t) h)
      (λ i. take-append (length s) s (b'/' ∷ t) refl i ∷ split_loop fuel (drop_past s b'/' t i))

no_segments : (fuel : ℕ) → split_loop fuel [] ≡ []
unfolding split_loop skip_slashes
no_segments zero = refl
no_segments (suc fuel) = refl

split_loop-path_text :
    (ss : List Bytes) (fuel : ℕ)
    → All IsSegment ss
    → length ss < fuel
    → split_loop fuel (path_text ss) ≡ ss
split_loop-path_text [] fuel h l = no_segments fuel
split_loop-path_text (s ∷ ss) zero h l = absurd (omega (arith, l))
split_loop-path_text (s ∷ []) (suc fuel) h l =
    ap (split_loop (suc fuel)) (ap (◌∷◌ b'/') (append-nil s))
    ∙ split_loop-slash (suc fuel) s
    ∙ last_segment fuel s h.0
    ∙ ap (◌∷◌ s) (no_segments fuel)
split_loop-path_text (s ∷ t ∷ ts) (suc fuel) h l =
    split_loop-slash (suc fuel) (s ++ path_text (t ∷ ts))
    ∙ inner_segment fuel s (t ++ path_text ts) h.0
    ∙ ap (◌∷◌ s) (sym (split_loop-slash fuel (t ++ path_text ts)))
    ∙ ap (◌∷◌ s) (split_loop-path_text (t ∷ ts) fuel h.1 (omega (arith, l)))

length-path_text : (ss : List Bytes) → length ss ≤ length (path_text ss)
length-path_text [] = omega arith
length-path_text (s ∷ ss) = omega (arith, length-path_text ss, length-append s (path_text ss))

path_text-Without : (ss : List Bytes) → All IsSegment ss → Without b'?' (path_text ss)
path_text-Without [] h = tt
path_text-Without (s ∷ ss) h = (
  (λ e. omega (arith, e)),
  All-append (λ x. x ≢ b'?') s (path_text ss) h.0.2 (path_text-Without ss h.1),
)

-- The segments that a path is written with come back, in order, with or without a query behind
-- them. A segment is not empty and holds no slash and no question mark.
pub split_path-path_text :
    (ss : List Bytes) (query : Bytes)
    → All IsSegment ss
    → (split_path (path_text ss) ≡ ss) × (split_path (path_text ss ++ (b'?' ∷ query)) ≡ ss)
unfolding split_path before_query
split_path-path_text ss query h =
    let p = path_text ss in
    let whole = split_loop-path_text ss (suc (length p)) h (omega (arith, length-path_text ss)) in
    let cut : take (length p) (p ++ (b'?' ∷ query)) ≡ p =
      take-append (length p) p (b'?' ∷ query) refl in
    (
      rw (find_absent b'?' [] p (path_text-Without ss h)) whole,
      rw (find-append b'?' [] p (b'?' ∷ query) (path_text-Without ss h) refl)
          (ap (λ t. split_loop (suc (length t)) t) cut ∙ whole),
    )
