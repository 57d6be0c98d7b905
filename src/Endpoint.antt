-- ===== src/Endpoint.antt =====
-- The ring of message slots behind an endpoint: `struct endpoint_buffer` of libmp/endpoints.h and
-- the functions of libmp/endpoints.c that only touch `ep->buffer`, each over that buffer.
-- `uint32_t *data[i]` is the index of slot `i` in the one area `datafield` that all slots share.
pub mod Copy
pub mod Create
pub mod Fifo
pub mod Inv
pub mod Message
use optimsoc.Prelude.{
  ℕ, zero, suc, ◌+◌, ◌*◌, ◌/◌, ◌^◌, Bool, true, false, not, ◌&&◌, ◌||◌, Option, none, some, List,
  [], ◌∷◌, ltb, leb, ◌==◌, if◌then◌else◌, length, tabulate, add32, sub32, mul32, Run, done, blocked,
  fault, ◌>>=◌, read, store, assert,
}
use optimsoc.Sync.{Cas}

pub data BufferType : Type 0 where
  message channel : BufferType

pub record Buffer : Type 0 where
  pub slots : List ℕ
  pub field : List ℕ
  pub data_size : List ℕ
  pub buffer_type : BufferType
  pub size : ℕ
  pub read_ptr : ℕ
  pub write_ptr : ℕ

-- `struct endpoint`, with its buffer in place. `flags` and `waiting_thread` are never read.
pub record Endpoint : Type 0 where
  pub buffer : Buffer
  pub remotedomain : ℕ
  pub remote : ℕ
  pub remotecredit : ℕ

abbrev pub max_message_size : ℕ
max_message_size = 64

abbrev pub max_packet_size : ℕ
max_packet_size = 64

-- `newptr = *ptr + 1; if (size <= newptr) newptr -= size;`
unfoldable pub advance : (size ptr : ℕ) → ℕ
advance size ptr = let newptr = add32 ptr 1 in if leb size newptr then sub32 newptr size else newptr

module _ ⦃cpu : Cas⦄ where
  -- Each round of the loop comes with what the other cores do to `write_ptr` between the load and
  -- the compare-and-swap. With no round left the loop still spins.
  unfoldable pub push : List (ℕ → ℕ) → Buffer → Run (ℕ × Buffer)
  push [] b = blocked
  push (others ∷ rounds) b =
      let ptr = b.write_ptr in
      let (old, now) = cpu.cas (others ptr) ptr (advance b.size ptr) in
      let b' = record b { write_ptr = now } in
      let retry = push rounds b' in if old == ptr then done (ptr, b') else retry

  unfoldable pub pop : List (ℕ → ℕ) → Buffer → Run (ℕ × Buffer)
  pop [] b = blocked
  pop (others ∷ rounds) b =
      let ptr = b.read_ptr in
      let (old, now) = cpu.cas (others ptr) ptr (advance b.size ptr) in
      let b' = record b { read_ptr = now } in
      let retry = pop rounds b' in if old == ptr then done (ptr, b') else retry

-- One round with no other core at work.
abbrev pub alone : List (ℕ → ℕ)
alone = (λ w. w) ∷ []

unfoldable pub full : Buffer → Bool
full b =
    if leb b.read_ptr b.write_ptr
    then sub32 b.write_ptr b.read_ptr == sub32 b.size 1
    else sub32 b.read_ptr b.write_ptr == 1

-- `||` stops at the first test, so an empty ring reads no size.
unfoldable pub msg_available : Buffer → Run Bool
msg_available b =
    if b.write_ptr == b.read_ptr
    then done false
    else do size ← read b.data_size b.read_ptr; done (not (size == 0))

unfoldable pub empty : Buffer → Run Bool
empty b = do available ← msg_available b; done (not available)

abbrev pub max_size : BufferType → ℕ
max_size message = max_message_size
max_size channel = max_packet_size

-- `some ptr` is the return value 0 with the slot in `*ptr`, `none` the return value -1.
unfoldable pub alloc : ⦃cpu : Cas⦄ → (size : ℕ) → Buffer → Run (Option ℕ × Buffer)
alloc size b =
    if ltb (max_size b.buffer_type) size
    then done (none, b)
    else if full b
    then done (none, b)
    else do
      (ptr, b') ← push alone b
      sizes ← store b'.data_size ptr 0
      done (some ptr, record b' { data_size = sizes })

-- `for (; i < ...; i++) dst[to(i)] = src[from(i)];` with `n` rounds left
unfoldable pub copy_loop :
    (src : List ℕ) (from : ℕ → ℕ) (dst : List ℕ) (to : ℕ → ℕ) (i n : ℕ) → Run (List ℕ)
copy_loop src from dst to i zero = done dst
copy_loop src from dst to i (suc n) = do
  w ← read src (from i)
  dst' ← store dst (to i) w
  copy_loop src from dst' to (suc i) n

-- `endpoint_write`: `buffer` is the memory behind the pointer, from which `size` words are read.
unfoldable pub write : (ptr offset : ℕ) (buffer : List ℕ) (size : ℕ) → Buffer → Run Buffer
write ptr offset buffer size b = do
  slot ← read b.slots ptr
  area ← copy_loop buffer (λ i. i) b.field (λ i. slot + add32 i offset) 0 size
  done (record b { field = area })

unfoldable pub write_complete : (ptr size : ℕ) → Buffer → Run Buffer
write_complete ptr size b = do
  sizes ← store b.data_size ptr size
  done (record b { data_size = sizes })

-- `(bytes + 3) >> 2`
abbrev pub words_of : ℕ → ℕ
words_of bytes = add32 bytes 3 / 4

-- `endpoint_msg_recv` into the memory `buffer`: what `*received` holds, the memory, the ring.
unfoldable pub msg_recv :
    ⦃cpu : Cas⦄ → (buffer : List ℕ) (buffer_size : ℕ) → Buffer → Run (ℕ × List ℕ × Buffer)
msg_recv buffer buffer_size b = do
  available ← msg_available b
  if not available then blocked else do
    received ← read b.data_size b.read_ptr
    if ltb buffer_size received then done (0, buffer, b) else do
      (ptr, b') ← pop alone b
      slot ← read b'.slots ptr
      memory ← copy_loop b'.field (λ i. slot + i) buffer (λ i. i) 0 (words_of received)
      done (received, memory, b')

unfoldable pub channel_get_credit : Buffer → ℕ
channel_get_credit b =
    if leb b.read_ptr b.write_ptr
    then add32 (sub32 (sub32 b.size 1) b.write_ptr) b.read_ptr
    else sub32 (sub32 b.read_ptr 1) b.write_ptr

unfoldable pub channel_get_fillstate : Buffer → ℕ
channel_get_fillstate b = sub32 (sub32 b.size (channel_get_credit b)) 1

-- `overwrite_max_size` is an `int`: positive values are those below 2 ^ 31.
unfoldable pub element_bytes : BufferType → (overwrite_max_size : ℕ) → ℕ
element_bytes buffer_type overwrite_max_size =
    if ltb 0 overwrite_max_size && ltb overwrite_max_size (2 ^ 31)
    then overwrite_max_size
    else max_size buffer_type

-- The buffer that `endpoint_create` sets up. `junk` is what the memory from `malloc` holds.
-- `calloc` leaves `type` at 0, which is MESSAGE, and no line sets it. With 2 ^ 30 slots or more the
-- pointer arrays wrap round the address space.
unfoldable pub create :
    (junk : ℕ → ℕ) (buffer_type : BufferType) (buffer_size overwrite_max_size : ℕ) → Run Buffer
create junk buffer_type buffer_size overwrite_max_size =
    let max_element_size_bytes = element_bytes buffer_type overwrite_max_size in
    let max_element_size_words = words_of max_element_size_bytes in
    assert (ltb buffer_size (2 ^ 30)) (
      done (record {
        slots = tabulate (λ i. mul32 i max_element_size_words) buffer_size;
        field = tabulate junk (mul32 max_element_size_bytes buffer_size / 4);
        data_size = tabulate junk buffer_size;
        buffer_type = message;
        size = buffer_size;
        read_ptr = 0;
        write_ptr = 0;
      }))
