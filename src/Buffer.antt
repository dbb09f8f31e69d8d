-- ===== src/Buffer.antt =====
-- include/core/Buffer.hpp and src/core/Buffer.cpp: the network buffer, a byte vector with a read
-- and a write index. The indices are `uint32_t`, so their arithmetic is taken modulo 2^32, and that
-- on the vector's size, a `size_t`, modulo 2^64.
pub mod View
pub mod Reads
use cpp_reactor.Base.{
  ℕ, ◌+◌, ◌-◌, ◌*◌, ◌%◌, ◌^◌, ◌||◌, Option, none, some, [], ◌++◌, Bytes, length, take, drop,
  replicate, ltb, leb, if◌then◌else◌,
}
use cpp_reactor.Base

pub record Buffer : Type 0 where
  pub storage : Bytes
  pub read_index : ℕ
  pub write_index : ℕ

abbrev pub cheap_prepend : ℕ
cheap_prepend = 8

abbrev pub initial_size : ℕ
initial_size = 1024

abbrev pub extra_size : ℕ
extra_size = 1024 * 32

-- The constructor.
abbrev pub empty : Buffer
empty = record {
  storage = replicate (cheap_prepend + initial_size) 0;
  read_index = cheap_prepend;
  write_index = cheap_prepend;
}

-- Unsigned addition and subtraction on 32 and on 64 bits.
abbrev pub add32 : ℕ → ℕ → ℕ
add32 a b = (a + b) % 2 ^ 32

abbrev pub sub32 : ℕ → ℕ → ℕ
sub32 a b = (a + 2 ^ 32 - b) % 2 ^ 32

abbrev pub sub64 : ℕ → ℕ → ℕ
sub64 a b = (a + 2 ^ 64 - b) % 2 ^ 64

pub readable_bytes : Buffer → ℕ
readable_bytes b = sub32 b.write_index b.read_index

pub writeable_bytes : Buffer → ℕ
writeable_bytes b = sub64 (length b.storage) b.write_index

pub prependable_bytes : Buffer → ℕ
prependable_bytes b = b.read_index

-- `std::copy` of `s` to place `i`.
abbrev pub write_at : Bytes → ℕ → Bytes → Bytes
write_at xs i s = take i xs ++ (s ++ drop (i + length s) xs)

-- `std::vector::resize`: new places hold zero.
abbrev pub resize : Bytes → ℕ → Bytes
resize xs n = take n xs ++ replicate (n - length xs) 0

pub get_string_view : Buffer → ℕ → Bytes
unfolding readable_bytes
get_string_view b len =
    if ltb (readable_bytes b) len then [] else take len (drop b.read_index b.storage)

pub get_string_view_at : Buffer → ℕ → ℕ → Bytes
unfolding readable_bytes
get_string_view_at b offset len =
    let readable = readable_bytes b in
    if ltb readable offset || ltb (readable - offset) len
    then []
    else take len (drop (b.read_index + offset) b.storage)

pub find : Buffer → Bytes → Option ℕ
unfolding get_string_view readable_bytes
find b p = Base.find p (get_string_view b (readable_bytes b))

pub find_from : Buffer → Bytes → ℕ → Option ℕ
unfolding get_string_view_at readable_bytes
find_from b p offset =
    let readable = readable_bytes b in
    if leb readable offset
    then none
    else elim (Base.find p (get_string_view_at b offset (readable - offset))) [
      | none ↦ none
      | some pos ↦ some (offset + pos)
    ]

-- Grow the vector, or move the readable bytes to the front.
pub make_space : Buffer → ℕ → Buffer
unfolding readable_bytes writeable_bytes prependable_bytes
make_space b len =
    if ltb (prependable_bytes b + writeable_bytes b) (len + cheap_prepend)
    then record b { storage = resize b.storage (b.write_index + len) }
    else record b {
      storage =
          write_at b.storage cheap_prepend
            (take (b.write_index - b.read_index) (drop b.read_index b.storage));
      read_index = cheap_prepend;
      write_index = add32 cheap_prepend (readable_bytes b);
    }

pub ensure_writeable_bytes : Buffer → ℕ → Buffer
unfolding make_space writeable_bytes
ensure_writeable_bytes b len = if ltb (writeable_bytes b) len then make_space b len else b

-- Copy to the write index and advance it.
pub put : Buffer → Bytes → Buffer
put b s = record b {
  storage = write_at b.storage b.write_index s;
  write_index = add32 b.write_index (length s);
}

pub append : Buffer → Bytes → Buffer
unfolding ensure_writeable_bytes put
append b s = put (ensure_writeable_bytes b (length s)) s

pub retrieve_all : Buffer → Buffer
retrieve_all b = record b { read_index = cheap_prepend; write_index = cheap_prepend }

pub retrieve : Buffer → ℕ → Buffer
unfolding readable_bytes retrieve_all
retrieve b len =
    if ltb len (readable_bytes b)
    then record b { read_index = add32 b.read_index len }
    else retrieve_all b

pub retrieve_as_string : Buffer → ℕ → Bytes × Buffer
unfolding readable_bytes retrieve
retrieve_as_string b len =
    let n = (if ltb (readable_bytes b) len then readable_bytes b else len) in
    (take n (drop b.read_index b.storage), retrieve b n)

pub retrieve_all_string : Buffer → Bytes × Buffer
unfolding retrieve_as_string readable_bytes
retrieve_all_string b = retrieve_as_string b (readable_bytes b)

-- What a system call returned: an `errno`, or what it transferred.
pub data IoResult {ℓ} (A : Type ℓ) : Type ℓ where
  failed : ℕ → IoResult A
  done : A → IoResult A

-- The room that `readFd` offers to `readv`: the writeable part, with the extra buffer behind it
-- where that part is the smaller one.
pub read_capacity : Buffer → ℕ
unfolding writeable_bytes
read_capacity b =
    let writeable = writeable_bytes b in
    if ltb writeable extra_size then writeable + extra_size else writeable

-- `readv` fills the writeable part first; the rest of what it read is appended. The argument is
-- what `readv` returned, with the bytes that it stored.
pub read_fd : Buffer → IoResult Bytes → Buffer
unfolding writeable_bytes put append
read_fd b (failed errno) = b
read_fd b (done s) =
    let writeable = writeable_bytes b in
    if leb (length s) writeable
    then put b s
    else append
        (record b {
          storage = write_at b.storage b.write_index (take writeable s);
          write_index = length b.storage % 2 ^ 32;
        })
        (drop writeable s)

-- The argument is what `write` returned.
pub write_fd : Buffer → IoResult ℕ → Buffer
unfolding retrieve
write_fd b (failed errno) = b
write_fd b (done n) = if ltb 0 n then retrieve b n else b
