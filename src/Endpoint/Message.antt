-- ===== src/Endpoint/Message.antt =====
-- Each operation on a valid ring, branch by branch: what it returns and what it changes.
use optimsoc.Prelude.{
  ℕ, ◌+◌, ◌*◌, ◌≡◌, ◌≢◌, ◌≤◌, ◌<◌, refl, inl, inr, false, not, ◌&&◌, ◌||◌, none, some, List, arith,
  ltb, ◌==◌, if◌then◌else◌, Bool-cases, length, set, get_elem?, add32, done, lt→ltb,
}
use native.Mathlib.Decide.{dec_lt}
use optimsoc.Sync.{Cas}
use optimsoc.Endpoint.{
  Buffer, advance, full, msg_available, max_size, alloc, write, write_complete, words_of, msg_recv,
}
use optimsoc.Endpoint.Inv.{IsValid, push-alone, pop-alone}
use optimsoc.Endpoint.Copy.{Copied, copy_loop-Copied}

-- Slot `i` lies inside the area.
pub slot-room : (i size words : ℕ) → i < size → i * words + words ≤ size * words
slot-room i size words h = grind arith

-- The runs of words of two different slots do not meet.
pub slot-apart : (i j words k l : ℕ) → i ≢ j → k < words → l < words → i * words + k ≢ j * words + l
slot-apart i j words k l ne hk hl = elim (dec_lt i j) [
  | yes h ↦ omega (arith, slot-room i j words h)
  | no h ↦ omega (arith, slot-room j i words (omega arith))
]

module _ ⦃cpu : Cas⦄ {words : ℕ} {b : Buffer} (v : IsValid words b) where
  -- A slot is given out exactly if the message is short enough and the ring is not full. It is the
  -- slot at the write pointer, which moves on, with its size reset to 0.
  pub alloc_lem :
      (size : ℕ)
      → alloc size b ≡ (
          if ltb (max_size b.buffer_type) size || full b
          then done (none, b)
          else done (
            some b.write_ptr,
            record b {
              data_size = set b.data_size b.write_ptr 0;
              write_ptr = advance b.size b.write_ptr;
            },
          ))
  unfolding alloc
  alloc_lem size = rw (push-alone b) (
      rw (lt→ltb b.write_ptr (length b.data_size) (omega (arith, v.write_in, v.sizes)))
        (ground arith))

  pub write_complete_lem :
      (ptr size : ℕ)
      → ptr < b.size
      → write_complete ptr size b ≡ done (record b { data_size = set b.data_size ptr size })
  unfolding write_complete
  write_complete_lem ptr size h = rw (lt→ltb ptr (length b.data_size) (omega (arith, v.sizes))) refl

  pub write_lem :
      (ptr offset : ℕ) (buffer : List ℕ) (n : ℕ)
      → ptr < b.size
      → offset + n ≤ words
      → n ≤ length buffer
      → (area : List ℕ) × (write ptr offset buffer n b ≡ done (record b { field = area }))
        × Copied buffer 0 b.field (ptr * words + offset) 0 n area
  unfolding write
  write_lem ptr offset buffer n hp hw hn =
      let room = slot-room ptr b.size words hp in
      let (area, run, c) =
        copy_loop-Copied buffer (λ i. i) (λ i. ptr * words + add32 i offset) 0
          (ptr * words + offset) b.field 0 n (λ j h. omega arith)
          (λ j h. omega (arith, room, v.area_small)) (omega arith) (omega (arith, room, v.room)) in
      (area, rw (v.slots ptr hp, run) refl, c)

  -- A message is available if the pointers differ and the size at the read pointer is not 0.
  pub msg_available_lem :
      (size : ℕ)
      → get_elem? b.data_size b.read_ptr ≡ some size
      → msg_available b ≡ done (not (b.write_ptr == b.read_ptr) && not (size == 0))
  unfolding msg_available
  msg_available_lem size hs = elim (Bool-cases (b.write_ptr == b.read_ptr)) [
    | inl same ↦ rw same
    | inr other ↦ rw (other, hs)
  ]

  pub msg_recv_lem :
      (buffer : List ℕ) (buffer_size size : ℕ)
      → b.read_ptr ≢ b.write_ptr
      → get_elem? b.data_size b.read_ptr ≡ some size
      → 0 < size
      → size ≤ buffer_size
      → words_of size ≤ words
      → words_of size ≤ length buffer
      → (memory : List ℕ) × (msg_recv buffer buffer_size b
          ≡ done (size, memory, record b { read_ptr = advance b.size b.read_ptr }))
        × Copied b.field (b.read_ptr * words) buffer 0 0 (words_of size) memory
  unfolding msg_recv
  msg_recv_lem buffer buffer_size size ne hs pos le hw hb =
      let room = slot-room b.read_ptr b.size words v.read_in in
      let (memory, run, c) =
        copy_loop-Copied b.field (λ i. b.read_ptr * words + i) (λ i. i) (b.read_ptr * words) 0
          buffer 0 (words_of size) (λ j h. refl) (λ j h. omega arith) (omega (arith, room, v.room))
          (omega arith) in
      let fits : ltb buffer_size size ≡ false = ground arith in
      let other : (b.write_ptr == b.read_ptr) ≡ false = ground arith in
      let filled : (size == 0) ≡ false = ground arith in
      (
        memory,
        rw (msg_available_lem size hs, other, filled)
            (rw (hs, fits, pop-alone b, v.slots b.read_ptr v.read_in, run)),
        c,
      )
