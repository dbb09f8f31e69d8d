-- ===== src/Buffer/View.antt =====
-- The buffer as the sequence of its unread bytes: what each operation of core/Buffer does to it.
use cpp_reactor.Base.{
  ℕ, ◌+◌, ◌-◌, ◌^◌, ◌≤◌, ◌<◌, ◌≡◌, refl, sym, ap, ◌∙◌, Bytes, ◌++◌, append_assoc, length, take,
  drop, ltb, arith, length-append, length-take, length-drop, length-replicate, take-append,
  take-append_left, drop-append_left, drop-take, take_all, Bool-cases, inl, inr, replicate, tests,
}
use cpp_reactor.Buffer.{
  Buffer, readable_bytes, writeable_bytes, write_at, resize, add32, make_space,
  ensure_writeable_bytes, put, append,
}

-- The indices stand in order within the vector, which is small enough for 32 bits.
pub record Inv (b : Buffer) : Type 0 where
  pub prepend : 8 ≤ b.read_index
  pub ordered : b.read_index ≤ b.write_index
  pub fits : b.write_index ≤ length b.storage
  pub small : length b.storage < 2 ^ 32

unfoldable pub view : Buffer → Bytes
view b = take (b.write_index - b.read_index) (drop b.read_index b.storage)

pub readable-view : (b : Buffer) → Inv b → readable_bytes b ≡ length (view b)
unfolding readable_bytes view
readable-view b v = omega (
  arith,
  length-take (b.write_index - b.read_index) (drop b.read_index b.storage),
  length-drop b.read_index b.storage,
)

pub readable_lem : (b : Buffer) → Inv b → readable_bytes b ≡ b.write_index - b.read_index
unfolding readable_bytes
readable_lem b v = omega arith

pub writeable_lem : (b : Buffer) → Inv b → writeable_bytes b ≡ length b.storage - b.write_index
unfolding writeable_bytes
writeable_lem b v = omega arith

length-write_at :
    (xs : Bytes) (i : ℕ) (s : Bytes)
    → i + length s ≤ length xs
    → length (write_at xs i s) ≡ length xs
length-write_at xs i s h = omega (
  arith,
  length-append (take i xs) (s ++ drop (i + length s) xs),
  length-append s (drop (i + length s) xs),
  length-take i xs,
  length-drop (i + length s) xs,
)

length-cut : (m n : ℕ) (xs : Bytes) → m + n ≤ length xs → length (take m (drop n xs)) ≡ m
length-cut m n xs h = omega (arith, length-take m (drop n xs), length-drop n xs)

-- Bytes that are written behind a part are read behind it.
cut-write_at :
    (r w : ℕ) (xs s : Bytes)
    → r ≤ w
    → w ≤ length xs
    → take (w + length s - r) (drop r (write_at xs w s)) ≡ take (w - r) (drop r xs) ++ s
cut-write_at r w xs s h k =
    let rest : Bytes = drop (w + length s) xs in
    let front : drop r (take w xs ++ (s ++ rest)) ≡ (take (w - r) (drop r xs) ++ s) ++ rest =
      drop-append_left r (take w xs) (s ++ rest) (omega (arith, length-take w xs))
      ∙ ap (λ t. t ++ (s ++ rest)) (drop-take r w xs)
      ∙ sym (append_assoc (take (w - r) (drop r xs)) s rest) in
    ap (take (w + length s - r)) front
    ∙ take-append (w + length s - r) (take (w - r) (drop r xs) ++ s) rest (
        omega (
          arith,
          length-append (take (w - r) (drop r xs)) s,
          length-cut (w - r) r xs (omega arith),
        ))

pub put-Inv :
    (b : Buffer) (s : Bytes) → Inv b → b.write_index + length s ≤ length b.storage → Inv (put b s)
unfolding put
put-Inv b s v h =
    let e = length-write_at b.storage b.write_index s h in
    record {
      prepend = v.prepend;
      ordered = omega (arith, v);
      fits = omega (arith, e, v);
      small = omega (arith, e, v);
    }

pub view-put :
    (b : Buffer) (s : Bytes)
    → Inv b
    → b.write_index + length s ≤ length b.storage
    → view (put b s) ≡ view b ++ s
unfolding put view
view-put b s v h =
    let e : add32 b.write_index (length s) ≡ b.write_index + length s = omega (arith, v) in
    rw e (cut-write_at b.read_index b.write_index b.storage s v.ordered v.fits)

-- What the growth step leaves: the same bytes, and room for `len` more.
record Grown (b c : Buffer) (len : ℕ) : Type 0 where
  keeps : Inv c
  shows : view c ≡ view b
  room : c.write_index + len ≤ length c.storage
  back : c.write_index ≤ b.write_index

resized-Grown :
    (b : Buffer) (len : ℕ)
    → Inv b
    → length b.storage < b.write_index + len
    → b.write_index + len < 2 ^ 32
    → Grown b (record b { storage = resize b.storage (b.write_index + len) }) len
unfolding view
resized-Grown b len v h k =
    let n = b.write_index + len in
    let same : resize b.storage n ≡ b.storage ++ replicate (n - length b.storage) 0 =
      ap (λ t. t ++ replicate (n - length b.storage) 0) (take_all n b.storage (omega arith)) in
    let e : length (resize b.storage n) ≡ n =
      ap length same
      ∙ omega (
        arith,
        length-append b.storage (replicate (n - length b.storage) 0),
        length-replicate {A = ℕ} (n - length b.storage) 0,
      ) in
    record {
      keeps = record {
        prepend = v.prepend;
        ordered = v.ordered;
        fits = omega arith;
        small = omega arith;
      };
      shows =
          ap (λ t. take (b.write_index - b.read_index) (drop b.read_index t)) same
          ∙ ap (take (b.write_index - b.read_index))
              (drop-append_left b.read_index b.storage _ (omega (arith, v)))
          ∙ take-append_left _ _ _ (omega (arith, v, length-drop b.read_index b.storage));
      room = omega arith;
      back = omega arith;
    }

moved-Grown :
    (b : Buffer) (len : ℕ)
    → Inv b
    → len + 8 ≤ b.read_index + (length b.storage - b.write_index)
    → Grown b
        (record b {
          storage =
              write_at b.storage 8
                (take (b.write_index - b.read_index) (drop b.read_index b.storage));
          read_index = 8;
          write_index = add32 8 (readable_bytes b);
        })
        len
unfolding view
moved-Grown b len v h =
    let d = b.write_index - b.read_index in
    let part : Bytes = take d (drop b.read_index b.storage) in
    let l : length part ≡ d = length-cut d b.read_index b.storage (omega (arith, v)) in
    let e : length (write_at b.storage 8 part) ≡ length b.storage =
      length-write_at b.storage 8 part (omega (arith, v)) in
    let w : add32 8 (readable_bytes b) ≡ 8 + length part = omega (arith, v, readable_lem b v) in
    record {
      keeps = record {
        prepend = omega arith;
        ordered = omega arith;
        fits = omega (arith, v);
        small = omega (arith, v);
      };
      shows =
          ap (λ n. take (n - 8) (drop 8 (write_at b.storage 8 part))) w
          ∙ cut-write_at 8 8 b.storage part (omega arith) (omega (arith, v))
          ∙ ap (λ (t : Bytes). t ++ part)
              (ap (λ n. take n (drop 8 b.storage)) {x = 8 - 8} {y = 0} (omega arith));
      room = omega (arith, v);
      back = omega (arith, v);
    }

make_space-Grown :
    (b : Buffer) (len : ℕ)
    → Inv b
    → length b.storage < b.write_index + len
    → b.write_index + len < 2 ^ 32
    → Grown b (make_space b len) len
unfolding make_space
make_space-Grown b len v h k =
    elim (Bool-cases (ltb (b.read_index + writeable_bytes b) (len + 8))) [
      | inl t ↦ rw t (resized-Grown b len v h k)
      | inr f ↦ rw f (moved-Grown b len v (omega (tests, f, writeable_lem b v)))
    ]

ensure-Grown :
    (b : Buffer) (len : ℕ)
    → Inv b
    → b.write_index + len < 2 ^ 32
    → Grown b (ensure_writeable_bytes b len) len
unfolding ensure_writeable_bytes
ensure-Grown b len v k = elim (Bool-cases (ltb (writeable_bytes b) len)) [
  | inl t ↦ rw t (make_space-Grown b len v (omega (tests, t, writeable_lem b v)) k)
  | inr f ↦ rw f (record {
    keeps = v;
    shows = refl;
    room = omega (tests, f, writeable_lem b v, v);
    back = omega arith;
  })
]

pub append-Inv :
    (b : Buffer) (s : Bytes) → Inv b → b.write_index + length s < 2 ^ 32 → Inv (append b s)
unfolding append
append-Inv b s v h = let g = ensure-Grown b (length s) v h in put-Inv _ s g.keeps g.room

pub write_index-append :
    (b : Buffer) (s : Bytes)
    → Inv b
    → b.write_index + length s < 2 ^ 32
    → (append b s).write_index ≤ b.write_index + length s
unfolding append put
write_index-append b s v h = let g = ensure-Grown b (length s) v h in omega (arith, g.back, g.room)

-- On a well-formed buffer, and where the write index and the length of the string stay below 2^32,
-- appending puts the bytes behind those that are unread.
pub view-append :
    (b : Buffer) (s : Bytes)
    → Inv b
    → b.write_index + length s < 2 ^ 32
    → view (append b s) ≡ view b ++ s
unfolding append
view-append b s v h =
    let g = ensure-Grown b (length s) v h in view-put _ s g.keeps g.room ∙ ap (λ t. t ++ s) g.shows
