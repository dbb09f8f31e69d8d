-- ===== src/Buffer/Reads.antt =====
-- Taking bytes out of the buffer: `retrieve`, the string views, `find`, and the two system calls.
use cpp_reactor.Base.{
  ℕ, ◌+◌, ◌-◌, ◌^◌, ◌≤◌, ◌<◌, ◌≡◌, refl, sym, ap, subst, ◌%◌, ◌∙◌, Bytes, Bool, true, false, ◌||◌,
  [], ◌++◌, append_assoc, Option, none, some, length, take, drop, min, ltb, leb, if◌then◌else◌,
  arith, length-append, length-take, length-drop, drop-drop, take-take, drop-take, take_all,
  drop_all, Bool-cases, inl, inr, take-append-drop, tests, le→not-ltb, lt→ltb,
}
use cpp_reactor.Base
use cpp_reactor.Buffer.{
  Buffer, readable_bytes, writeable_bytes, write_at, add32, IoResult, failed, done, get_string_view,
  put, append, retrieve_all, retrieve, retrieve_as_string, find, read_fd, write_fd,
}
use cpp_reactor.Buffer.View.{
  Inv, view, readable-view, readable_lem, writeable_lem, put-Inv, view-put, append-Inv, view-append,
}

pub view-length : (b : Buffer) → Inv b → length (view b) ≡ b.write_index - b.read_index
view-length b v = omega (arith, readable-view b v, readable_lem b v)

pub retrieve_all-Inv : (b : Buffer) → Inv b → Inv (retrieve_all b)
unfolding retrieve_all
retrieve_all-Inv b v = record {
  prepend = omega arith;
  ordered = omega arith;
  fits = omega (arith, v);
  small = v.small;
}

pub view-retrieve_all : (b : Buffer) → view (retrieve_all b) ≡ []
unfolding retrieve_all view
view-retrieve_all b = ap (λ n. take n (drop 8 b.storage)) {x = 8 - 8} {y = 0} (omega arith)

advance-Inv :
    (b : Buffer) (n : ℕ)
    → Inv b
    → n < readable_bytes b
    → Inv (record b { read_index = add32 b.read_index n })
advance-Inv b n v h = record {
  prepend = omega (arith, v, readable_lem b v);
  ordered = omega (arith, v, readable_lem b v);
  fits = v.fits;
  small = v.small;
}

view_advance :
    (b : Buffer) (n : ℕ)
    → Inv b
    → n < readable_bytes b
    → view (record b { read_index = add32 b.read_index n }) ≡ drop n (view b)
unfolding view
view_advance b n v h =
    let e : add32 b.read_index n ≡ b.read_index + n = omega (arith, v, readable_lem b v) in
    rw e (
      ap (λ k. take k (drop (b.read_index + n) b.storage)) {x = b.write_index - (b.read_index + n)}
        {y = b.write_index - b.read_index - n} (omega arith)
      ∙ ap (take (b.write_index - b.read_index - n)) (sym (drop-drop n b.read_index b.storage))
      ∙ sym (drop-take n (b.write_index - b.read_index) (drop b.read_index b.storage)))

pub retrieve-Inv : (b : Buffer) (n : ℕ) → Inv b → Inv (retrieve b n)
unfolding retrieve
retrieve-Inv b n v = elim (Bool-cases (ltb n (readable_bytes b))) [
  | inl t ↦ rw t (advance-Inv b n v (omega (tests, t)))
  | inr f ↦ rw f (retrieve_all-Inv b v)
]

-- On a well-formed buffer `retrieve` drops bytes from the front, all of them where there are fewer.
pub view-retrieve : (b : Buffer) (n : ℕ) → Inv b → view (retrieve b n) ≡ drop n (view b)
unfolding retrieve
view-retrieve b n v = elim (Bool-cases (ltb n (readable_bytes b))) [
  | inl t ↦ rw t (view_advance b n v (omega (tests, t)))
  | inr f ↦
      rw f (view-retrieve_all b ∙ sym (drop_all n (view b) (omega (tests, f, readable-view b v))))
]

pub get_string_view_lem :
    (b : Buffer) (n : ℕ) → Inv b → n ≤ length (view b) → get_string_view b n ≡ take n (view b)
unfolding get_string_view view
get_string_view_lem b n v h =
    let e = le→not-ltb (readable_bytes b) n (omega (arith, readable-view b v)) in
    rw e (
      sym (
        take-take n (b.write_index - b.read_index) (drop b.read_index b.storage)
          (omega (arith, view-length b v))))

-- On a well-formed buffer the search finds what a search of the unread bytes finds, and the place is
-- counted from their start.
pub find-view : (b : Buffer) (p : Bytes) → Inv b → find b p ≡ Base.find p (view b)
unfolding find
find-view b p v = ap (Base.find p) (
    get_string_view_lem b (readable_bytes b) v (omega (arith, readable-view b v))
    ∙ take_all (readable_bytes b) (view b) (omega (arith, readable-view b v)))

cut_lem :
    (b : Buffer) (n : ℕ)
    → Inv b
    → n ≤ readable_bytes b
    → take n (drop b.read_index b.storage) ≡ take n (view b)
unfolding view
cut_lem b n v h = sym (
    take-take n (b.write_index - b.read_index) (drop b.read_index b.storage)
      (omega (arith, readable_lem b v)))

-- On a well-formed buffer the string handed out is the front of the unread bytes, which is then taken off.
pub retrieve_as_string_lem :
    (b : Buffer) (n : ℕ)
    → Inv b
    → ((retrieve_as_string b n).0 ≡ take n (view b))
      × (view (retrieve_as_string b n).1 ≡ drop n (view b))
      × Inv (retrieve_as_string b n).1
unfolding retrieve_as_string
retrieve_as_string_lem b n v = elim (Bool-cases (ltb (readable_bytes b) n)) [
  | inl t ↦
      let k : length (view b) ≤ n = omega (tests, t, readable-view b v) in
      let l : length (view b) ≤ readable_bytes b = omega (arith, readable-view b v) in
      rw t (
        cut_lem b (readable_bytes b) v (omega arith)
            ∙ take_all _ (view b) l
            ∙ sym (take_all n (view b) k),
        view-retrieve b (readable_bytes b) v ∙ drop_all _ (view b) l ∙ sym (drop_all n (view b) k),
        retrieve-Inv b (readable_bytes b) v,
      )
  | inr f ↦ rw f (cut_lem b n v (omega (tests, f)), view-retrieve b n v, retrieve-Inv b n v)
]

pub write_fd-Inv : (b : Buffer) (r : IoResult ℕ) → Inv b → Inv (write_fd b r)
unfolding write_fd
write_fd-Inv b (failed e) v = v
write_fd-Inv b (done n) v = elim (Bool-cases (ltb 0 n)) [
  | inl t ↦ rw t (retrieve-Inv b n v)
  | inr f ↦ rw f v
]

-- On a well-formed buffer, a write that took `n` bytes leaves the unread bytes behind the first `n`.
pub view-write_fd : (b : Buffer) (n : ℕ) → Inv b → view (write_fd b (done n)) ≡ drop n (view b)
unfolding write_fd
view-write_fd b n v = elim (Bool-cases (ltb 0 n)) [
  | inl t ↦ rw t (view-retrieve b n v)
  | inr f ↦ rw f (ap (λ k. drop k (view b)) {x = 0} {y = n} (omega (tests, f)))
]

-- The state in which `readFd` appends what went into the extra buffer.
abbrev filled : Buffer → Bytes → Buffer
filled b s = record b {
  storage = write_at b.storage b.write_index (take (writeable_bytes b) s);
  write_index = length b.storage % 2 ^ 32;
}

filled-put :
    (b : Buffer) (s : Bytes)
    → Inv b
    → writeable_bytes b ≤ length s
    → filled b s ≡ put b (take (writeable_bytes b) s)
unfolding put
filled-put b s v h =
    let e : length b.storage % 2 ^ 32 ≡ add32 b.write_index (length (take (writeable_bytes b) s)) =
      omega (arith, v, writeable_lem b v, length-take (writeable_bytes b) s) in
    λ i. record b {
      storage = write_at b.storage b.write_index (take (writeable_bytes b) s);
      write_index = e i;
    }

-- What a read leaves: the bytes read stand behind the unread ones.
pub record Received (b c : Buffer) (s : Bytes) : Type 0 where
  pub keeps : Inv c
  pub shows : view c ≡ view b ++ s

put-Received :
    (b : Buffer) (s : Bytes) → Inv b → length s ≤ writeable_bytes b → Received b (put b s) s
put-Received b s v h =
    let k : b.write_index + length s ≤ length b.storage = omega (arith, v, writeable_lem b v) in
    record { keeps = put-Inv b s v k; shows = view-put b s v k }

spilled-Received :
    (b : Buffer) (s : Bytes)
    → Inv b
    → writeable_bytes b < length s
    → b.write_index + length s < 2 ^ 32
    → Received b (append (filled b s) (drop (writeable_bytes b) s)) s
spilled-Received b s v h k =
    let w = writeable_bytes b in
    let first : Received b (put b (take w s)) (take w s) =
      put-Received b (take w s) v (omega (arith, length-take w s)) in
    let e = filled-put b s v (omega arith) in
    let i : Inv (filled b s) = subst Inv (sym e) first.keeps in
    let small : (filled b s).write_index + length (drop w s) < 2 ^ 32 =
      omega (arith, v, writeable_lem b v, length-drop w s) in
    record {
      keeps = append-Inv (filled b s) (drop w s) i small;
      shows =
          view-append (filled b s) (drop w s) i small
          ∙ ap (λ c. view c ++ drop w s) e
          ∙ ap (λ t. t ++ drop w s) first.shows
          ∙ append_assoc (view b) (take w s) (drop w s)
          ∙ ap (λ t. view b ++ t) (take-append-drop w s);
    }

-- On a well-formed buffer, and where the write index and the number of bytes read stay below 2^32,
-- a read leaves a well-formed buffer with the bytes read behind those that were unread, also when
-- they did not fit and went through the extra buffer.
pub read_fd-Received :
    (b : Buffer) (s : Bytes)
    → Inv b
    → b.write_index + length s < 2 ^ 32
    → Received b (read_fd b (done s)) s
unfolding read_fd
read_fd-Received b s v k = elim (Bool-cases (leb (length s) (writeable_bytes b))) [
  | inl t ↦ rw t (put-Received b s v (omega (tests, t)))
  | inr f ↦ rw f (spilled-Received b s v (ground arith) k)
]
