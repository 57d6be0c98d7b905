-- ===== src/Endpoint/Fifo.antt =====
-- A ring of complete messages is a first-in first-out queue of word lists.
use optimsoc.Prelude.{
  ℕ, suc, ◌+◌, ◌-◌, ◌*◌, ◌≡◌, ◌≢◌, ◌≤◌, ◌<◌, sym, ap, ◌∙◌, true, false, some, List, [], ◌∷◌, ◌++◌,
  arith, ltb, leb, ◌==◌, if◌then◌else◌, length, get_elem?, done, blocked,
}
use optimsoc.Sync.{Cas}
use optimsoc.Endpoint.{Buffer, advance, full, msg_available, words_of, msg_recv}
use optimsoc.Endpoint.Inv.{IsValid, advance-lt, advance_lem, full-used}
use optimsoc.Endpoint.Copy.{Copied}
use optimsoc.Endpoint.Message.{slot-room, msg_recv_lem}

-- The area holds the words `m` in slot `r`.
abbrev pub Holds : (words : ℕ) (field : List ℕ) (r : ℕ) → List ℕ → Type 0
Holds words field r m = (k : ℕ) → k < length m → get_elem? field (r * words + k) ≡ get_elem? m k

-- From slot `r` to the write pointer stand the complete messages `ms`, in order.
abbrev pub QueuedFrom :
    (words size write_ptr : ℕ) (data_size field : List ℕ) (r : ℕ) → List (List ℕ) → Type 0
QueuedFrom words size write_ptr data_size field r [] = r ≡ write_ptr
QueuedFrom words size write_ptr data_size field r (m ∷ ms) =
    (r ≢ write_ptr)
    × (get_elem? data_size r ≡ some (4 * length m))
    × (0 < length m)
    × (length m ≤ words)
    × Holds words field r m
    × QueuedFrom words size write_ptr data_size field (advance size r) ms

abbrev pub Queued : (words : ℕ) → Buffer → List (List ℕ) → Type 0
Queued words b ms = QueuedFrom words b.size b.write_ptr b.data_size b.field b.read_ptr ms

-- What a completed transfer of the message `m` has made of the ring `b`.
pub record Appended (words : ℕ) (b : Buffer) (m : List ℕ) (b' : Buffer) : Type 0 where
  pub same_slots : b'.slots ≡ b.slots
  pub same_type : b'.buffer_type ≡ b.buffer_type
  pub same_size : b'.size ≡ b.size
  pub same_read : b'.read_ptr ≡ b.read_ptr
  pub moved : b'.write_ptr ≡ advance b.size b.write_ptr
  pub same_count : length b'.data_size ≡ length b.data_size
  pub same_room : length b'.field ≡ length b.field
  pub size_at :
      (j : ℕ)
      → get_elem? b'.data_size j
        ≡ (if j == b.write_ptr then some (4 * length m) else get_elem? b.data_size j)
  pub kept :
      (j k : ℕ)
      → j ≢ b.write_ptr
      → k < words
      → get_elem? b'.field (j * words + k) ≡ get_elem? b.field (j * words + k)
  pub holds : Holds words b'.field b.write_ptr m

-- How far the write pointer is ahead.
abbrev distance : (size r w : ℕ) → ℕ
distance size r w = if leb r w then w - r else size - r + w

module _ {words : ℕ} {b : Buffer} {m : List ℕ} {b' : Buffer} (v : IsValid words b)
    (a : Appended words b m b') where
  pub Appended-IsValid : IsValid words b'
  Appended-IsValid = record {
    small = omega (arith, v.small, a.same_size);
    read_in = omega (arith, v.read_in, a.same_size, a.same_read);
    write_in =
        ground (arith, advance-lt b.size b.write_ptr v.small v.write_in, a.same_size, a.moved);
    sizes = omega (arith, v.sizes, a.same_size, a.same_count);
    slots = λ i h. ground (arith, v.slots i, a.same_size, a.same_slots);
    room = rw (a.same_size, a.same_room) v.room;
    area_small = rw a.same_size v.area_small;
  }

  Queued-append_from :
      (r : ℕ) (ms : List (List ℕ))
      → 0 < length m
      → length m ≤ words
      → r < b.size
      → suc (distance b.size r b.write_ptr) < b.size
      → QueuedFrom words b.size b.write_ptr b.data_size b.field r ms
      → QueuedFrom words b.size b'.write_ptr b'.data_size b'.field r (ms ++ (m ∷ []))
  Queued-append_from r [] pos fit hr hd e =
      let ahead = advance_lem b.size b.write_ptr v.small v.write_in in
      (
        ground (arith, ahead, a.moved),
        ground (arith, a.size_at r),
        pos,
        fit,
        rw e a.holds,
        ap (advance b.size) e ∙ sym a.moved,
      )
  Queued-append_from r (x ∷ ms) pos fit hr hd (ne, sz, p, l, h, q) = (
    ground (arith, advance_lem b.size b.write_ptr v.small v.write_in, a.moved),
    ground (arith, a.size_at r),
    p,
    l,
    λ k hk. a.kept r k ne (omega arith) ∙ h k hk,
    Queued-append_from (advance b.size r) ms pos fit (advance-lt b.size r v.small hr)
        (ground (arith, advance_lem b.size r v.small hr)) q,
  )

  -- A completed transfer queues its message behind the others.
  pub Queued-append :
      (ms : List (List ℕ))
      → 0 < length m
      → length m ≤ words
      → full b ≡ false
      → Queued words b ms
      → Queued words b' (ms ++ (m ∷ []))
  Queued-append ms pos fit room q =
      rw (a.same_size, a.same_read)
        (Queued-append_from b.read_ptr ms pos fit v.read_in (ground (arith, full-used v)) q)

recv-words :
    (words r : ℕ) (m : List ℕ) {field buffer : List ℕ} {n : ℕ} {memory : List ℕ}
    → Copied field (r * words) buffer 0 0 n memory
    → n ≡ length m
    → Holds words field r m
    → (k : ℕ)
    → get_elem? memory k ≡ (if ltb k (length m) then get_elem? m k else get_elem? buffer k)
recv-words words r m c e holds k = ground (arith, c.word_at k, holds k)

module _ ⦃cpu : Cas⦄ {words : ℕ} {b : Buffer} (v : IsValid words b) where
  -- Receiving returns the oldest message, writes exactly its words to the front of the memory, and
  -- leaves the others queued, if the memory is as large as the caller says and the message fits.
  pub recv-Queued :
      (buffer : List ℕ) (buffer_size : ℕ) (m : List ℕ) (ms : List (List ℕ))
      → Queued words b (m ∷ ms)
      → 4 * length m ≤ buffer_size
      → buffer_size ≤ 4 * length buffer
      → (memory : List ℕ) × (b' : Buffer) × (msg_recv buffer buffer_size b
          ≡ done (4 * length m, memory, b'))
        × ((k : ℕ)
            → get_elem? memory k ≡ (if ltb k (length m) then get_elem? m k else get_elem? buffer k))
        × Queued words b' ms
        × IsValid words b'
  recv-Queued buffer buffer_size m ms (ne, sz, pos, fit, holds, q) le hb =
      let row = slot-room b.read_ptr b.size words v.read_in in
      let same : words_of (4 * length m) ≡ length m = omega (arith, v.area_small, row) in
      let (memory, run, c) =
        msg_recv_lem v buffer buffer_size (4 * length m) ne sz (omega arith) le
          (omega (arith, same)) (omega (arith, same)) in
      (
        memory,
        record b { read_ptr = advance b.size b.read_ptr },
        run,
        recv-words words b.read_ptr m c same holds,
        q,
        record {
          small = v.small;
          read_in = advance-lt b.size b.read_ptr v.small v.read_in;
          write_in = v.write_in;
          sizes = v.sizes;
          slots = v.slots;
          room = v.room;
          area_small = v.area_small;
        },
      )

  -- With no message queued the receiver waits.
  pub recv-none :
      (buffer : List ℕ) (buffer_size : ℕ)
      → Queued words b []
      → msg_recv buffer buffer_size b ≡ blocked
  unfolding msg_recv msg_available
  recv-none buffer buffer_size e =
      let same : (b.write_ptr == b.read_ptr) ≡ true = ground arith in rw same
